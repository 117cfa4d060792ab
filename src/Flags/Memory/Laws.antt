-- ===== src/Flags/Memory/Laws.antt =====
-- The in-process authority keeps what policy relies on.
use saas_reaper.Base.{
  ℕ, String, ◌≡◌, ◌≢◌, ◌⊎◌, inl, inr, refl, sym, ◌∙◌, ◌&&◌, Option, none, some, [], ◌∷◌, ◌++◌,
  if◌then◌else◌, Result, ok, err, arith, ◌==◌, eq_iff, Bool-cases, ap,
}
use saas_reaper.Base.Map.{
  Map, lookup, insert, insert-HasUniqueKeys, lookup-insert, nested, nested-insert,
}
use saas_reaper.Base.Int64.{ℤ, pos, inc, eqb_ℤ, eqb_ℤ_iff}
use saas_reaper.Flags.Flag.{Error, conflict, Flag, copy}
use saas_reaper.Flags.Authority.{Authority, revision_of, next_revision, entry_of}
use saas_reaper.Flags.Flag.Copy.{copy-copy}
use saas_reaper.Flags.Memory.Restore.{
  IsKeyed, IsEnvironment, IsEnvironmentEntry, IsStore, All-insert, nested-IsEnvironment, law_keyed,
  law_loaded,
}
use saas_reaper.Flags.Memory.{Store, record_publication, publish_over, publish, audit, stored, load}

-- The state after the environment's map was made.
abbrev pub made : String → Store → Store
made environment s = record s { flags = insert environment (nested environment s.flags) s.flags }

pub stored-made :
    (environment : String) (s : Store) (e k : String)
    → stored (made environment s) e k ≡ stored s e k
unfolding stored
stored-made environment s e k =
    ground (
      arith,
      nested-insert environment e (nested environment s.flags) s.flags,
      eq_iff environment e,
    )

module _ (now : ℕ) (environment : String) (flag : Flag) (expected : ℤ) (actor : String) where
  publish_over-cases :
      (current : Map Flag) (o : Option Flag) (s : Store)
      → ((revision_of o ≡ expected)
          × (publish_over now environment flag expected actor current o s
              ≡ record_publication now environment flag actor current expected s))
        ⊎ ((revision_of o ≢ expected)
            × (publish_over now environment flag expected actor current o s ≡ (err conflict, s)))
  unfolding publish_over
  publish_over-cases current none s = elim (Bool-cases (eqb_ℤ expected (pos 0))) [
    | inl e ↦ let x = (eqb_ℤ_iff expected (pos 0)).0 e in inl (sym x, rw e (rw x refl))
    | inr e ↦ inr (λ h. let x = (eqb_ℤ_iff expected (pos 0)).1 (sym h) in cc, rw e)
  ]
  publish_over-cases current (some p) s = elim (Bool-cases (eqb_ℤ p.revision expected)) [
    | inl e ↦ let x = (eqb_ℤ_iff p.revision expected).0 e in inl (x, rw e (simp x refl))
    | inr e ↦ inr (λ h. let x = (eqb_ℤ_iff p.revision expected).1 h in cc, rw e)
  ]

  module _ (s : Store) where
    abbrev pub previous : Option Flag
    previous = stored s environment flag.key

    abbrev pub recorded : Result Error Flag × Store
    recorded =
        record_publication now environment flag actor (nested environment s.flags) expected
          (made environment s)

    -- A publish records the next revision if the expected one is current, and refuses otherwise.
    pub publish-cases :
        ((revision_of previous ≡ expected)
          × (publish now environment flag expected actor s ≡ recorded))
        ⊎ ((revision_of previous ≢ expected)
            × (publish now environment flag expected actor s ≡ (err conflict, made environment s)))
    unfolding publish stored
    publish-cases =
        publish_over-cases (nested environment s.flags)
          (lookup flag.key (nested environment s.flags)) (made environment s)

    stored-recorded :
        (e k : String)
        → stored recorded.1 e k ≡ (
            if environment == e && flag.key == k
            then some (next_revision now flag expected)
            else stored s e k)
    unfolding stored record_publication
    stored-recorded e k =
        let inner = nested environment s.flags in
        let kept = insert flag.key (next_revision now flag expected) inner in
        ground (
          arith,
          nested-insert environment e kept (insert environment inner s.flags),
          nested-insert environment e inner s.flags,
          lookup-insert flag.key k (next_revision now flag expected) inner,
          eq_iff environment e,
        )

    -- What is known of an accepted publish: the case of the two that it was.
    accepted :
        (g : Flag)
        → (publish now environment flag expected actor s).0 ≡ ok g
        → (revision_of previous ≡ expected)
          × (publish now environment flag expected actor s ≡ recorded)
    accepted g h = elim publish-cases [
      | inl c ↦ c
      | inr c ↦ let x = ap (λ (p : Result Error Flag × Store). p.0) c.1 in cc
    ]

    refused :
        (x : Error)
        → (publish now environment flag expected actor s).0 ≡ err x
        → publish now environment flag expected actor s ≡ (err conflict, made environment s)
    unfolding record_publication
    refused x h = elim publish-cases [
      | inl c ↦ let y = ap (λ (p : Result Error Flag × Store). p.0) c.1 in cc
      | inr c ↦ c.1
    ]

    pub law_revision :
        (g : Flag)
        → IsStore s
        → (publish now environment flag expected actor s).0 ≡ ok g
        → revision_of (stored s environment flag.key) ≡ expected
    law_revision g v h = (accepted g h).0

    pub law_result :
        (g : Flag)
        → (publish now environment flag expected actor s).0 ≡ ok g
        → g ≡ next_revision now flag expected
    unfolding record_publication
    law_result g h = let c = ap (λ (p : Result Error Flag × Store). p.0) (accepted g h).1 in cc

    pub law_stored :
        (g : Flag)
        → (publish now environment flag expected actor s).0 ≡ ok g
        → (e k : String)
        → stored (publish now environment flag expected actor s).1 e k
          ≡ (if environment == e && flag.key == k then some g else stored s e k)
    law_stored g h e k =
        ap (λ (p : Result Error Flag × Store). stored p.1 e k) (accepted g h).1
        ∙ rw (law_result g h) (stored-recorded e k)

    pub law_log :
        (g : Flag)
        → (publish now environment flag expected actor s).0 ≡ ok g
        → (n : ℤ) × ((publish now environment flag expected actor s).1.audit
            ≡ s.audit ++ entry_of n environment g actor ∷ [])
    unfolding record_publication copy
    law_log g h = (
      inc s.sequence,
      ap (λ (p : Result Error Flag × Store). p.1.audit) (accepted g h).1 ∙ rw (law_result g h) refl,
    )

    pub law_refused_stored :
        (x : Error)
        → (publish now environment flag expected actor s).0 ≡ err x
        → (e k : String)
        → stored (publish now environment flag expected actor s).1 e k ≡ stored s e k
    law_refused_stored x h e k =
        ap (λ (p : Result Error Flag × Store). stored p.1 e k) (refused x h)
        ∙ stored-made environment s e k

    pub law_refused_log :
        (x : Error)
        → (publish now environment flag expected actor s).0 ≡ err x
        → (publish now environment flag expected actor s).1.audit ≡ s.audit
    law_refused_log x h = ap (λ (p : Result Error Flag × Store). p.1.audit) (refused x h)

made-IsStore : (environment : String) (s : Store) → IsStore s → IsStore (made environment s)
made-IsStore environment s v = record {
  environments =
      insert-HasUniqueKeys environment (nested environment s.flags) s.flags v.environments;
  each =
      All-insert IsEnvironmentEntry environment (nested environment s.flags) s.flags
        (nested-IsEnvironment environment s v) v.each;
}

next-IsKeyed :
    (now : ℕ) (flag : Flag) (expected : ℤ) → IsKeyed (flag.key, next_revision now flag expected)
unfolding copy
next-IsKeyed now flag expected =
    (refl, copy-copy (record flag { revision = inc expected; updated_at = now }))

-- The store that a publish leaves is one whose maps are Go maps and whose definitions stand under
-- their own keys, whether the publish is accepted or not.
pub law_valid :
    (now : ℕ) (environment : String) (flag : Flag) (expected : ℤ) (actor : String) (s : Store)
    → IsStore s
    → IsStore (publish now environment flag expected actor s).1
unfolding record_publication
law_valid now environment flag expected actor s v =
    let inner = nested environment s.flags in
    let inside = nested-IsEnvironment environment s v in
    let after = made-IsStore environment s v in
    let kept = next_revision now flag expected in
    let grown : IsEnvironment (insert flag.key kept inner) = (
      insert-HasUniqueKeys flag.key kept inner inside.0,
      All-insert IsKeyed flag.key kept inner (next-IsKeyed now flag expected) inside.1,
    ) in
    elim (publish-cases now environment flag expected actor s) [
      | inl (current, e) ↦ rw e (record {
        environments = insert-HasUniqueKeys environment _ _ after.environments;
        each = All-insert IsEnvironmentEntry environment _ _ grown after.each;
      })
      | inr (stale, e) ↦ rw e after
    ]

-- The in-process store as the authority of flag policy.
unfoldable pub memory : Authority
memory = record {
  State = Store;
  publish = publish;
  load = load;
  audit = audit;
  stored = stored;
  log = λ s. s.audit;
  IsValid = IsStore;
  publish-IsValid = law_valid;
  stored_keyed = law_keyed;
  loaded_stored = law_loaded;
  accepted_revision = law_revision;
  accepted_result = law_result;
  accepted_stored = law_stored;
  accepted_log = law_log;
  refused_stored = law_refused_stored;
  refused_log = law_refused_log;
}
