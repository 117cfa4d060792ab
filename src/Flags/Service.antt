-- ===== src/Flags/Service.antt =====
-- internal/flags/publish.go, evaluate.go (`Evaluate`, `List`) and audit.go: the service that
-- composes the durable authority with the projection. The authority and the clock are parameters.
pub mod Convergence
pub mod Restart
pub mod Publish
use saas_reaper.Base.{
  ℕ, String, Bool, true, false, not, Option, none, some, List, [], ◌∷◌, ◌==◌, ◌||◌, if◌then◌else◌,
  Result, ok, err, ◌>>=◌, ◌>>◌, guard,
}
use saas_reaper.Base.Map.{Map}
use saas_reaper.Base.Text.{is_blank}
use saas_reaper.Base.Int64.{ℤ, pos, ltb_ℤ, leb_ℤ}
use saas_reaper.Flags.Flag.{
  Error, invalid, not_found, Value, Flag, Evaluation, AuditEntry, validate_key, validate,
}
use saas_reaper.Flags.Evaluate.{evaluate_definition}
use saas_reaper.Flags.Authority.{Authority}
use saas_reaper.Flags.Snapshot.{Snapshot, replace, put, get, list}

unfoldable pub validate_environment : String → Result Error (Unit {0})
validate_environment environment = do
  guard (not (is_blank environment)) invalid
  validate_key environment

-- The checks that `Publish` makes before it calls the store.
unfoldable pub admit : String → Flag → ℤ → String → Result Error (Unit {0})
admit environment flag expected actor = do
  validate_environment environment
  validate flag
  guard (not (ltb_ℤ expected (pos 0))) invalid
  guard (not (is_blank actor)) invalid

module _ (authority : Authority) where
  open authority use {State}

  pub record Service : Type 0 where
    pub store : State
    pub snapshot : Snapshot

  opened : Result Error (Map (List Flag)) → State → Snapshot → Result Error Service
  opened (err e) store snapshot = err e
  opened (ok loaded) store snapshot =
      ok (record { store = store; snapshot = replace loaded snapshot })

  -- Open
  unfoldable pub start : State → Snapshot → Result Error Service
  unfolding opened
  start store snapshot = opened (authority.load store) store snapshot

  projected : String → Result Error Flag × State → Snapshot → Result Error Flag × Service
  projected environment (err e, store) snapshot =
      (err e, record { store = store; snapshot = snapshot })
  projected environment (ok published, store) snapshot =
      (ok published, record { store = store; snapshot = put environment published snapshot })

  publish_admitted :
      ℕ
      → String
      → Flag
      → ℤ
      → String
      → Result Error (Unit {0})
      → Service
      → Result Error Flag × Service
  unfolding projected
  publish_admitted now environment flag expected actor (err e) s = (err e, s)
  publish_admitted now environment flag expected actor (ok u) s =
      projected environment (authority.publish now environment flag expected actor s.store)
        s.snapshot

  unfoldable pub publish : ℕ → String → Flag → ℤ → String → Service → Result Error Flag × Service
  unfolding publish_admitted
  publish now environment flag expected actor s =
      publish_admitted now environment flag expected actor (admit environment flag expected actor) s

  found : Option Flag → Result Error Flag
  found none = err not_found
  found (some flag) = ok flag

  pub evaluate : (String → List ℕ) → String → String → Map Value → Service → Result Error Evaluation
  unfolding found
  evaluate sha256 environment key context s = do
    validate_environment environment
    flag ← found (get environment key s.snapshot)
    evaluate_definition sha256 flag context

  unfoldable pub list_flags : String → Service → Result Error (List Flag)
  list_flags environment s = do validate_environment environment; ok (list environment s.snapshot)

  pub audit : ℤ → Service → Option (List AuditEntry)
  audit limit s =
      authority.audit (if leb_ℤ limit (pos 0) || ltb_ℤ (pos 500) limit then pos 100 else limit)
        s.store
