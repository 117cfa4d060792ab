-- ===== src/Flags/Memory/Restore.antt =====
-- What the in-process authority of internal/store/memory/memory.go loads is what it stores.
use saas_reaper.Base.{
  String, ◌≡◌, inl, inr, refl, sym, ap, subst, Option-cases, ◌∙◌, none, some, List, [], ◌∷◌, map,
  or_else-none, ok, arith, ◌==◌, eq_iff, Bool-cases, All,
}
use saas_reaper.Base.Map.{
  Map, lookup, insert, IsAbsent, HasUniqueKeys, lookup-IsAbsent, values, nested,
}
use saas_reaper.Base.Sort.{sort_by_key}
use saas_reaper.Base.Find.{find_last, HasDistinctKeys, Lacks, find_last-sort_by_key}
use saas_reaper.Flags.Flag.{Flag, copy}
use saas_reaper.Flags.Authority.{flag_key, definitions_of}
use saas_reaper.Flags.Memory.{Store, load_environments, load, stored}
use mathlib.Core.Option

-- A definition stands under its own key, and is a copy.
abbrev pub IsKeyed : String × Flag → Type 0
IsKeyed entry = (entry.1.key ≡ entry.0) × (copy entry.1 ≡ entry.1)

abbrev pub IsEnvironment : Map Flag → Type 0
IsEnvironment m = HasUniqueKeys m × All IsKeyed m

abbrev pub IsEnvironmentEntry : String × Map Flag → Type 0
IsEnvironmentEntry entry = IsEnvironment entry.1

pub record IsStore (s : Store) : Type 0 where
  pub environments : HasUniqueKeys s.flags
  pub each : All IsEnvironmentEntry s.flags

pub All-insert :
    {V : Type 0} (P : String × V → Type 0) (k : String) (v : V) (m : Map V)
    → P (k, v)
    → All P m
    → All P (insert k v m)
unfolding insert
All-insert P k v [] p a = (p, tt)
All-insert P k v ((j, w) ∷ m) p a = elim (Bool-cases (j == k)) [
  | inl e ↦ rw e (p, a.1)
  | inr e ↦ rw e (a.0, All-insert P k v m p a.1)
]

All-lookup :
    {V : Type 0} (P : String × V → Type 0) (k : String) (v : V) (m : Map V)
    → All P m
    → lookup k m ≡ some v
    → P (k, v)
unfolding lookup
All-lookup P k v [] a h = cc
All-lookup P k v ((j, w) ∷ m) a h = elim (Bool-cases (j == k)) [
  | inl e ↦
      let same : w ≡ v = let x = rw e at h in cc in
      subst (λ j. P (j, v)) ((eq_iff j k).0 e) (subst (λ x. P (j, x)) same a.0)
  | inr e ↦ All-lookup P k v m a.1 (rw e at h)
]

pub nested-IsEnvironment : (e : String) (s : Store) → IsStore s → IsEnvironment (nested e s.flags)
unfolding nested
nested-IsEnvironment e s v = elim (Option-cases (lookup e s.flags)) [
  | inl h ↦ rw h (tt, tt)
  | inr (m, h) ↦ rw h (All-lookup IsEnvironmentEntry e m s.flags v.each h)
]

copied : Map Flag → List Flag
copied m = map copy (values m)

Lacks-copied :
    (k : String) (m : Map Flag) → IsAbsent k m → All IsKeyed m → Lacks flag_key k (copied m)
unfolding copied values copy
Lacks-copied k [] a v = tt
Lacks-copied k ((j, f) ∷ m) a v = (rw v.0.0 a.0, Lacks-copied k m a.1 v.1)

copied-HasDistinctKeys : (m : Map Flag) → IsEnvironment m → HasDistinctKeys flag_key (copied m)
unfolding copied values copy
copied-HasDistinctKeys [] v = tt
copied-HasDistinctKeys ((j, f) ∷ m) v =
    (rw v.1.0.0 (Lacks-copied j m v.0.0 v.1.1), copied-HasDistinctKeys m (v.0.1, v.1.1))

find_last-copied :
    (k : String) (m : Map Flag) → IsEnvironment m → find_last flag_key k (copied m) ≡ lookup k m
unfolding copied values lookup
find_last-copied k [] v = refl
find_last-copied k ((j, f) ∷ m) v = elim (Bool-cases (j == k)) [
  | inl e ↦
      let same = (eq_iff j k).0 e in
      let absent = subst (λ k. lookup k m ≡ none) same (lookup-IsAbsent j m v.0.0) in
      let key : f.key ≡ k = v.1.0.0 ∙ same in
      rw (find_last-copied k m (v.0.1, v.1.1), absent, e, v.1.0.1) (ground (arith, eq_iff f.key k))
  | inr e ↦
      rw (v.1.0.1, v.1.0.0, e, find_last-copied k m (v.0.1, v.1.1)) (or_else-none (lookup k m))
]

load_environments-IsAbsent :
    (e : String) (m : Map (Map Flag)) → IsAbsent e m → IsAbsent e (load_environments m)
unfolding load_environments
load_environments-IsAbsent e [] a = tt
load_environments-IsAbsent e ((j, []) ∷ m) a = load_environments-IsAbsent e m a.1
load_environments-IsAbsent e ((j, f ∷ fs) ∷ m) a = (a.0, load_environments-IsAbsent e m a.1)

load_environments-HasUniqueKeys :
    (m : Map (Map Flag)) → HasUniqueKeys m → HasUniqueKeys (load_environments m)
unfolding load_environments
load_environments-HasUniqueKeys [] u = tt
load_environments-HasUniqueKeys ((j, []) ∷ m) u = load_environments-HasUniqueKeys m u.1
load_environments-HasUniqueKeys ((j, f ∷ fs) ∷ m) u =
    (load_environments-IsAbsent j m u.0, load_environments-HasUniqueKeys m u.1)

-- The definitions that are loaded for an environment.
definitions_of-load :
    (e : String) (m : Map (Map Flag))
    → HasUniqueKeys m
    → definitions_of e (load_environments m) ≡ sort_by_key flag_key (copied (nested e m))
unfolding load_environments nested copied lookup values sort_by_key
definitions_of-load e [] u = refl
definitions_of-load e ((j, []) ∷ m) u = elim (Bool-cases (j == e)) [
  | inl h ↦
      let absent = lookup-IsAbsent j (load_environments m) (load_environments-IsAbsent j m u.0) in
      let same = subst (λ k. lookup k (load_environments m) ≡ none) ((eq_iff j e).0 h) absent in
      rw h (rw same refl)
  | inr h ↦ rw h (definitions_of-load e m u.1)
]
definitions_of-load e ((j, f ∷ fs) ∷ m) u = elim (Bool-cases (j == e)) [
  | inl h ↦ rw h refl
  | inr h ↦ rw h (definitions_of-load e m u.1)
]

stored-IsKeyed :
    (s : Store) (e k : String) (g : Flag) → IsStore s → stored s e k ≡ some g → IsKeyed (k, g)
unfolding stored
stored-IsKeyed s e k g v h =
    All-lookup IsKeyed k g (nested e s.flags) (nested-IsEnvironment e s v).1 h

stored-copied :
    (s : Store) (e k : String) → IsStore s → Option.map copy (stored s e k) ≡ stored s e k
stored-copied s e k v = elim (Option-cases (stored s e k)) [
  | inl h ↦ rw h refl
  | inr (g, h) ↦ rw h (ap some (stored-IsKeyed s e k g v h).1)
]

pub law_keyed :
    (s : Store) → IsStore s → (e k : String) (g : Flag) → stored s e k ≡ some g → g.key ≡ k
law_keyed s v e k g h = (stored-IsKeyed s e k g v h).0

pub law_loaded :
    (s : Store) (m : Map (List Flag))
    → IsStore s
    → load s ≡ ok m
    → HasUniqueKeys m
      × ((e k : String)
          → Option.map copy (find_last flag_key k (definitions_of e m)) ≡ stored s e k)
unfolding load stored
law_loaded s m v h =
    let same : load_environments s.flags ≡ m = cc in
    let found = λ (e k : String).
      let inside = nested-IsEnvironment e s v in
      ap (find_last flag_key k) (definitions_of-load e s.flags v.environments)
      ∙ (find_last-sort_by_key flag_key k (copied (nested e s.flags))
            (copied-HasDistinctKeys _ inside)
          ∙ find_last-copied k (nested e s.flags) inside) in
    (
      subst HasUniqueKeys same (load_environments-HasUniqueKeys s.flags v.environments),
      λ e k.
          ap (λ m. Option.map copy (find_last flag_key k (definitions_of e m))) (sym same)
          ∙ (ap (Option.map copy) (found e k) ∙ stored-copied s e k v),
    )
