-- ===== src/Flags/Snapshot/Restore.antt =====
-- What `Replace` of internal/snapshot/memory.go leaves: the definitions that were loaded, and nothing
-- of what was there before.
use saas_reaper.Base.{
  String, ◌≡◌, inl, inr, refl, ap, ◌∙◌, subst, Option, none, some, List, [], ◌∷◌, ◌==◌, eq_iff,
  or_else, or_else-none, Bool-cases, Option-cases,
}
use saas_reaper.Base.Map.{
  Map, lookup, insert, lookup-insert, nested, nested-insert, HasUniqueKeys, lookup-IsAbsent,
}
use saas_reaper.Base.Find.{find_last}
use saas_reaper.Flags.Flag.{Flag, copy}
use saas_reaper.Flags.Authority.{flag_key, definitions_of}
use saas_reaper.Flags.Snapshot.{Snapshot, replace_flags, replace_environments, replace, shown}
use mathlib.Core.Option

lookup-replace_flags :
    (k : String) (kept : Map Flag) (fs : List Flag)
    → lookup k (replace_flags kept fs)
      ≡ or_else (Option.map copy (find_last flag_key k fs)) (lookup k kept)
unfolding replace_flags
lookup-replace_flags k kept [] = refl
lookup-replace_flags k kept (f ∷ fs) =
    lookup-replace_flags k (insert f.key (copy f) kept) fs
    ∙ ap (or_else (Option.map copy (find_last flag_key k fs))) (lookup-insert f.key k (copy f) kept)
    ∙ elim (Option-cases (find_last flag_key k fs)) [
      | inl z ↦ rw z (elim (Bool-cases (f.key == k)) [ inl e ↦ rw e refl | inr e ↦ rw e refl ])
      | inr (g, z) ↦ rw z refl
    ]

abbrev chosen : Option (List Flag) → Map Flag → Map Flag
unfolding replace_flags
chosen none kept = kept
chosen (some fs) kept = replace_flags [] fs

nested-replace_environments :
    (e : String) (kept : Map (Map Flag)) (loaded : Map (List Flag))
    → HasUniqueKeys loaded
    → nested e (replace_environments kept loaded) ≡ chosen (lookup e loaded) (nested e kept)
unfolding replace_environments lookup
nested-replace_environments e kept [] u = refl
nested-replace_environments e kept ((j, fs) ∷ loaded) u = elim (Bool-cases (j == e)) [
  | inl h ↦
      let absent =
        subst (λ k. lookup k loaded ≡ none) ((eq_iff j e).0 h) (lookup-IsAbsent j loaded u.0) in
      nested-replace_environments e (insert j (replace_flags [] fs) kept) loaded u.1
      ∙ rw (absent, h) (rw (nested-insert j e (replace_flags [] fs) kept, h) refl)
  | inr h ↦
      nested-replace_environments e (insert j (replace_flags [] fs) kept) loaded u.1
      ∙ rw (nested-insert j e (replace_flags [] fs) kept, h) refl
]

pub shown-replace :
    (loaded : Map (List Flag)) (m : Snapshot) (e k : String)
    → HasUniqueKeys loaded
    → shown (replace loaded m) e k
      ≡ Option.map copy (find_last flag_key k (definitions_of e loaded))
unfolding shown replace
shown-replace loaded m e k u =
    ap (lookup k) (nested-replace_environments e [] loaded u)
    ∙ elim (Option-cases (lookup e loaded)) [
      | inl h ↦ rw h refl
      | inr (fs, h) ↦ rw h (lookup-replace_flags k [] fs ∙ or_else-none _)
    ]
