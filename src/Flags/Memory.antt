-- ===== src/Flags/Memory.antt =====
-- internal/store/memory/memory.go: the in-process authority. Each method holds the lock from
-- beginning to end, so a method is one step. `time.Now()` is the argument `now`.
pub mod Restore
pub mod Laws
use saas_reaper.Base.{
  ℕ, String, Bool, true, false, Option, none, some, List, [], ◌∷◌, ◌++◌, map, reverse,
  if◌then◌else◌, ltb, is_empty, length, take, Result, ok, err,
}
use saas_reaper.Base.Map.{Map, lookup, insert, values, nested}
use saas_reaper.Base.Int64.{ℤ, pos, negsuc, inc, eqb_ℤ}
use saas_reaper.Base.Sort.{sort_by_key}
use saas_reaper.Flags.Flag.{Error, conflict, Flag, AuditEntry, copy}

pub record Store : Type 0 where
  pub flags : Map (Map Flag)
  pub audit : List AuditEntry
  pub sequence : ℤ

abbrev pub new : Store
new = record { flags = []; audit = []; sequence = pos 0 }

-- An environment without definitions has no entry in the result.
load_environments : Map (Map Flag) → Map (List Flag)
load_environments [] = []
load_environments ((environment, current) ∷ m) =
    let loaded = load_environments m in
    if is_empty current
    then loaded
    else (environment, sort_by_key (λ flag. flag.key) (map copy (values current))) ∷ loaded

pub load : Store → Result Error (Map (List Flag))
unfolding load_environments
load s = ok (load_environments s.flags)

-- From the checks of the revision on: `current` is the environment's map, `previous` what it holds
-- at the key, and `revision` is that of `previous`, 0 if there is none.
unfoldable pub record_publication :
    ℕ → String → Flag → String → Map Flag → ℤ → Store → Result Error Flag × Store
record_publication now environment flag actor current revision s =
    let flag' = record flag { revision = inc revision; updated_at = now } in
    let sequence = inc s.sequence in
    (
      ok (copy flag'),
      record {
        flags = insert environment (insert flag.key (copy flag') current) s.flags;
        sequence = sequence;
        audit =
            s.audit
            ++ record {
              sequence = sequence;
              environment = environment;
              key = flag.key;
              revision = inc revision;
              actor = actor;
              action = "published";
              occurred_at = now;
            }
              ∷ [];
      },
    )

publish_over :
    ℕ → String → Flag → ℤ → String → Map Flag → Option Flag → Store → Result Error Flag × Store
unfolding record_publication
publish_over now environment flag expected actor current none s =
    if eqb_ℤ expected (pos 0)
    then record_publication now environment flag actor current (pos 0) s
    else (err conflict, s)
publish_over now environment flag expected actor current (some previous) s =
    if eqb_ℤ previous.revision expected
    then record_publication now environment flag actor current previous.revision s
    else (err conflict, s)

-- The environment's map is made before the checks, and stays if they refuse.
unfoldable pub publish : ℕ → String → Flag → ℤ → String → Store → Result Error Flag × Store
unfolding publish_over
publish now environment flag expected actor s =
    let current = nested environment s.flags in
    publish_over now environment flag expected actor current (lookup flag.key current)
      (record s { flags = insert environment current s.flags })

-- `none` is the panic of `make` with a negative capacity.
pub audit : ℤ → Store → Option (List AuditEntry)
audit (pos n) s =
    let limit = if ltb (length s.audit) n then length s.audit else n in
    some (take limit (reverse s.audit))
audit (negsuc n) s = none

-- What is stored at an environment and a key.
unfoldable pub stored : Store → String → String → Option Flag
stored s environment key = lookup key (nested environment s.flags)
