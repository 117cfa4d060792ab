-- ===== src/Flags/Authority.antt =====
-- The `Store` interface of internal/flags/publish.go: the durable authority that flag policy
-- requires, as operations over a state, and what policy relies on.
use saas_reaper.Base.{
  ℕ, String, ◌≡◌, ◌&&◌, Option, none, some, List, [], ◌∷◌, ◌++◌, ◌==◌, or_empty, if◌then◌else◌,
  Result, ok, err,
}
use saas_reaper.Base.Map.{Map, lookup, HasUniqueKeys}
use saas_reaper.Base.Find.{find_last}
use mathlib.Core.Option
use saas_reaper.Base.Int64.{ℤ, pos, inc}
use saas_reaper.Flags.Flag.{Error, Flag, AuditEntry, copy}

-- A definition that is not there has revision 0.
abbrev pub revision_of : Option Flag → ℤ
revision_of none = pos 0
revision_of (some f) = f.revision

-- What is stored as the next revision of a definition.
abbrev pub next_revision : ℕ → Flag → ℤ → Flag
next_revision now flag expected = copy (record flag { revision = inc expected; updated_at = now })

abbrev pub entry_of : ℤ → String → Flag → String → AuditEntry
entry_of sequence environment flag actor = record {
  sequence = sequence;
  environment = environment;
  key = flag.key;
  revision = flag.revision;
  actor = actor;
  action = "published";
  occurred_at = flag.updated_at;
}

abbrev pub flag_key : Flag → String
flag_key f = f.key

-- The definitions of an environment in what was loaded.
abbrev pub definitions_of : String → Map (List Flag) → List Flag
definitions_of e m = or_empty (lookup e m)

pub record Authority : Type 1 where
  pub State : Type 0
  pub publish : ℕ → String → Flag → ℤ → String → State → Result Error Flag × State
  pub load : State → Result Error (Map (List Flag))
  pub audit : ℤ → State → Option (List AuditEntry)
  -- what a state stores at an environment and a key, and its log, oldest entry first
  pub stored : State → String → String → Option Flag
  pub log : State → List AuditEntry
  -- the states that calls lead to
  pub IsValid : State → Type 0
  pub publish-IsValid :
      (now : ℕ) (environment : String) (flag : Flag) (expected : ℤ) (actor : String) (s : State)
      → IsValid s
      → IsValid (publish now environment flag expected actor s).1
  pub stored_keyed :
      (s : State) → IsValid s → (e k : String) (g : Flag) → stored s e k ≡ some g → g.key ≡ k
  -- what is loaded is what is stored
  pub loaded_stored :
      (s : State) (m : Map (List Flag))
      → IsValid s
      → load s ≡ ok m
      → HasUniqueKeys m
        × ((e k : String)
            → Option.map copy (find_last flag_key k (definitions_of e m)) ≡ stored s e k)
  -- an accepted publish had the current revision, stores the next one and logs it
  pub accepted_revision :
      (now : ℕ) (environment : String) (flag : Flag) (expected : ℤ) (actor : String) (s : State)
      (g : Flag)
      → IsValid s
      → (publish now environment flag expected actor s).0 ≡ ok g
      → revision_of (stored s environment flag.key) ≡ expected
  pub accepted_result :
      (now : ℕ) (environment : String) (flag : Flag) (expected : ℤ) (actor : String) (s : State)
      (g : Flag)
      → (publish now environment flag expected actor s).0 ≡ ok g
      → g ≡ next_revision now flag expected
  pub accepted_stored :
      (now : ℕ) (environment : String) (flag : Flag) (expected : ℤ) (actor : String) (s : State)
      (g : Flag)
      → (publish now environment flag expected actor s).0 ≡ ok g
      → (e k : String)
      → stored (publish now environment flag expected actor s).1 e k
        ≡ (if environment == e && flag.key == k then some g else stored s e k)
  pub accepted_log :
      (now : ℕ) (environment : String) (flag : Flag) (expected : ℤ) (actor : String) (s : State)
      (g : Flag)
      → (publish now environment flag expected actor s).0 ≡ ok g
      → (n : ℤ) × (log (publish now environment flag expected actor s).1
          ≡ log s ++ entry_of n environment g actor ∷ [])
  -- a refused publish changes nothing that can be seen
  pub refused_stored :
      (now : ℕ) (environment : String) (flag : Flag) (expected : ℤ) (actor : String) (s : State)
      (x : Error)
      → (publish now environment flag expected actor s).0 ≡ err x
      → (e k : String) → stored (publish now environment flag expected actor s).1 e k ≡ stored s e k
  pub refused_log :
      (now : ℕ) (environment : String) (flag : Flag) (expected : ℤ) (actor : String) (s : State)
      (x : Error)
      → (publish now environment flag expected actor s).0 ≡ err x
      → log (publish now environment flag expected actor s).1 ≡ log s
