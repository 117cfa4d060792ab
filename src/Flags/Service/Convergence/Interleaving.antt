-- ===== src/Flags/Service/Convergence/Interleaving.antt =====
-- The steps of concurrent calls of `Publish` of internal/flags/publish.go, and what holds after each.
use saas_reaper.Base.{ℕ, String, ◌≡◌, ◌⊎◌, some, List, ◌∷◌, ◌++◌, ok, err, All}
use saas_reaper.Base.Int64.{ℤ, pos, ◌<ℤ◌, max_int64}
use saas_reaper.Flags.Flag.{Error, Flag, copy}
use saas_reaper.Flags.Authority.{Authority}
use saas_reaper.Flags.Snapshot.{Snapshot, put, shown}
use mathlib.Core.List.{Memᴰ}
use saas_reaper.Flags.Service.Convergence.Newer.{Covers}

module _ (authority : Authority) where
  open authority use {State, stored}

  -- The store, the projection, and the publications that are committed and not yet projected.
  pub record Config : Type 0 where
    pub store : State
    pub snapshot : Snapshot
    pub pending : List (String × Flag)

  -- One step of some call of `Publish`. The projection of a call comes at any time after its
  -- commit. A commit is possible while the revision has not reached the largest `int64`.
  pub data Step (c d : Config) : Type 0 where
    commit :
        (now : ℕ) (environment : String) (flag : Flag) (expected : ℤ) (actor : String) (g : Flag)
        → (authority.publish now environment flag expected actor c.store).0 ≡ ok g
        → expected <ℤ pos max_int64
        → d ≡ record {
          store = (authority.publish now environment flag expected actor c.store).1;
          snapshot = c.snapshot;
          pending = (environment, g) ∷ c.pending;
        }
        → Step c d
    refuse :
        (now : ℕ) (environment : String) (flag : Flag) (expected : ℤ) (actor : String) (x : Error)
        → (authority.publish now environment flag expected actor c.store).0 ≡ err x
        → d ≡ record c { store = (authority.publish now environment flag expected actor c.store).1 }
        → Step c d
    project :
        (before : List (String × Flag)) (environment : String) (flag : Flag)
        (after : List (String × Flag))
        → c.pending ≡ before ++ (environment, flag) ∷ after
        → d ≡ record c { snapshot = put environment flag c.snapshot; pending = before ++ after }
        → Step c d

  pub data Steps (c : Config) : Config → Type 0 where
    unmoved : Steps c c
    after_step : {d e : Config} → Steps c d → Step d e → Steps c e

  -- A committed publication: a copy, and covered by what is stored at its key.
  abbrev pub IsCommitted : State → String × Flag → Type 0
  IsCommitted s entry = (copy entry.1 ≡ entry.1) × Covers (stored s entry.0 entry.1.key) entry.1

  pub record Inv (c : Config) : Type 0 where
    pub valid : authority.IsValid c.store
    pub pending : All (IsCommitted c.store) c.pending
    pub covered :
        (e k : String) (p : Flag)
        → shown c.snapshot e k ≡ some p
        → (p.key ≡ k) × Covers (stored c.store e k) p
    pub reached :
        (e k : String) (g : Flag)
        → stored c.store e k ≡ some g
        → (g.key ≡ k) × ((shown c.snapshot e k ≡ some g) ⊎ Memᴰ (e, g) c.pending)
