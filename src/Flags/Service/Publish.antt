-- ===== src/Flags/Service/Publish.antt =====
-- What `Publish` of internal/flags/publish.go does, over any authority.
use saas_reaper.Base.{
  ℕ, String, ◌≡◌, ◌↔◌, inl, inr, sym, ap, ◌∙◌, Bool, true, false, ◌&&◌, not, some, [], ◌∷◌, ◌++◌,
  ◌==◌, if◌then◌else◌, Result, ok, err, arith, >>_iff, guard_iff, Result-cases,
}
use saas_reaper.Base.Text.{is_blank}
use saas_reaper.Base.Int64.{ℤ, pos, ltb_ℤ, ◌≤ℤ◌}
use saas_reaper.Flags.Flag.{Error, Flag}
use saas_reaper.Flags.Flag.Validity.{IsFlag, IsKey, validate_key_iff, validate-eq-ok_iff}
use saas_reaper.Flags.Authority.{Authority, revision_of, next_revision, entry_of}
use saas_reaper.Flags.Service.{Service, validate_environment, admit, publish, projected}

not_iff : (b : Bool) → (not b ≡ true) ↔ (b ≡ false)
not_iff b = ground arith

pub validate_environment_iff :
    (environment : String)
    → (validate_environment environment ≡ ok tt)
      ↔ ((is_blank environment ≡ false) × IsKey environment)
unfolding validate_environment
validate_environment_iff environment =
    >>_iff (guard_iff _ _ (not_iff (is_blank environment))) (validate_key_iff environment)

negative_iff : (x : ℤ) → (not (ltb_ℤ x (pos 0)) ≡ true) ↔ (pos 0 ≤ℤ x)
negative_iff x = ground arith

-- What a call of `Publish` must meet before the store is asked.
abbrev pub IsAdmissible : String → Flag → ℤ → String → Type 0
IsAdmissible environment flag expected actor =
    ((is_blank environment ≡ false) × IsKey environment)
    × (IsFlag flag × ((pos 0 ≤ℤ expected) × (is_blank actor ≡ false)))

admit_iff :
    (environment : String) (flag : Flag) (expected : ℤ) (actor : String)
    → (admit environment flag expected actor ≡ ok tt) ↔ IsAdmissible environment flag expected actor
unfolding admit
admit_iff environment flag expected actor = >>_iff (validate_environment_iff environment) (
    >>_iff (validate-eq-ok_iff flag)
      (>>_iff (guard_iff _ _ (negative_iff expected)) (guard_iff _ _ (not_iff (is_blank actor)))))

module _ (authority : Authority) where
  open authority use {State, stored, log}

  module _ (now : ℕ) (environment : String) (flag : Flag) (expected : ℤ) (actor : String)
      (s : Service authority) where
    abbrev outcome : Result Error Flag × Service authority
    outcome = publish authority now environment flag expected actor s

    abbrev committed : Result Error Flag × State
    committed = authority.publish now environment flag expected actor s.store

    admitted :
        admit environment flag expected actor ≡ ok tt
        → outcome ≡ projected authority environment committed s.snapshot
    unfolding publish
    admitted e = rw e

    rejected : (x : Error) → admit environment flag expected actor ≡ err x → outcome ≡ (err x, s)
    unfolding publish
    rejected x e = rw e

    -- A publication that was accepted: by the checks, and by the store.
    accepted :
        (g : Flag)
        → outcome.0 ≡ ok g
        → IsAdmissible environment flag expected actor
          × (committed.0 ≡ ok g)
          × (outcome.1.store ≡ committed.1)
    unfolding projected
    accepted g h = elim (Result-cases (admit environment flag expected actor)) [
      | inl (u, e) ↦
          let through = admitted e in
          let passed = (admit_iff environment flag expected actor).0 e in
          elim (Result-cases committed.0) [
            | inl (f, kept) ↦
                let x =
                  through
                  ∙ ap
                      (λ (r : Result Error Flag).
                        projected authority environment (r, committed.1) s.snapshot)
                      kept in
                (
                  passed,
                  kept ∙ (sym (ap (λ (p : Result Error Flag × Service authority). p.0) x) ∙ h),
                  ap (λ (p : Result Error Flag × Service authority). p.1.store) x,
                )
            | inr (y, kept) ↦
                let x =
                  through
                  ∙ ap
                      (λ (r : Result Error Flag).
                        projected authority environment (r, committed.1) s.snapshot)
                      kept in
                let z = sym (ap (λ (p : Result Error Flag × Service authority). p.0) x) ∙ h in cc
          ]
      | inr (x, e) ↦
          let y = ap (λ (p : Result Error Flag × Service authority). p.0) (rejected x e) in cc
    ]

    -- In a valid store: a call of `Publish` that returns a flag was admissible and named the current revision. It
    -- returns the next revision of the definition, which is what the store then holds at that
    -- environment and key, and nothing else in the store has changed; the log has one entry more.
    pub publish-eq-ok :
        (g : Flag)
        → authority.IsValid s.store
        → outcome.0 ≡ ok g
        → IsAdmissible environment flag expected actor
          × (revision_of (stored s.store environment flag.key) ≡ expected)
          × (g ≡ next_revision now flag expected)
          × ((e k : String)
              → stored outcome.1.store e k
                ≡ (if environment == e && flag.key == k then some g else stored s.store e k))
          × ((n : ℤ) × (log outcome.1.store ≡ log s.store ++ entry_of n environment g actor ∷ []))
    publish-eq-ok g valid h =
        let (passed, kept, left) = accepted g h in
        (
          passed,
          authority.accepted_revision now environment flag expected actor s.store g valid kept,
          authority.accepted_result now environment flag expected actor s.store g kept,
          λ e k.
              rw left
                (authority.accepted_stored now environment flag expected actor s.store g kept e k),
          rw left (authority.accepted_log now environment flag expected actor s.store g kept),
        )

    -- A call of `Publish` that returns an error has changed nothing: not what is stored, not the
    -- log, and not the projection.
    pub publish-eq-err :
        (x : Error)
        → outcome.0 ≡ err x
        → ((e k : String) → stored outcome.1.store e k ≡ stored s.store e k)
          × (log outcome.1.store ≡ log s.store)
          × (outcome.1.snapshot ≡ s.snapshot)
    unfolding projected
    publish-eq-err x h = elim (Result-cases (admit environment flag expected actor)) [
      | inl (u, e) ↦
          let through = admitted e in
          elim (Result-cases committed.0) [
            | inl (f, kept) ↦
                let y =
                  through
                  ∙ ap
                      (λ (r : Result Error Flag).
                        projected authority environment (r, committed.1) s.snapshot)
                      kept in
                let z = sym (ap (λ (p : Result Error Flag × Service authority). p.0) y) ∙ h in cc
            | inr (y, kept) ↦
                let z =
                  through
                  ∙ ap
                      (λ (r : Result Error Flag).
                        projected authority environment (r, committed.1) s.snapshot)
                      kept in
                let same = ap (λ (p : Result Error Flag × Service authority). p.1.store) z in
                (
                  λ e k. rw same (
                      authority.refused_stored now environment flag expected actor s.store y kept e
                        k),
                  rw same
                      (authority.refused_log now environment flag expected actor s.store y kept),
                  ap (λ (p : Result Error Flag × Service authority). p.1.snapshot) z,
                )
          ]
      | inr (y, e) ↦
          let z = rejected y e in
          (
            λ a b. ap (λ (p : Result Error Flag × Service authority). stored p.1.store a b) z,
            ap (λ (p : Result Error Flag × Service authority). log p.1.store) z,
            ap (λ (p : Result Error Flag × Service authority). p.1.snapshot) z,
          )
    ]
