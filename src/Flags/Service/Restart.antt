-- ===== src/Flags/Service/Restart.antt =====
-- `Open` of internal/flags/publish.go: a service that starts over a durable authority.
use saas_reaper.Base.{◌≡◌, refl, ap, sym, subst, ◌∙◌, inl, inr, [], ok, Result-cases}
use saas_reaper.Flags.Authority.{Authority}
use saas_reaper.Flags.Snapshot.{Snapshot, replace}
use saas_reaper.Flags.Snapshot.Restore.{shown-replace}
use saas_reaper.Flags.Service.{Service, opened, start}
use saas_reaper.Flags.Service.Convergence.{IsSettled}

module _ (authority : Authority) where
  open authority use {State, stored}

  -- A service that starts over a valid store, with any projection, keeps the store and is settled:
  -- the projection shows, at each environment and key, exactly what is stored there.
  pub start-IsSettled :
      (store : State) (snapshot : Snapshot) (s : Service authority)
      → authority.IsValid store
      → start authority store snapshot ≡ ok s
      → (s.store ≡ store)
        × IsSettled authority (record { store = s.store; snapshot = s.snapshot; pending = [] })
  unfolding start opened
  start-IsSettled store snapshot s valid h = elim (Result-cases (authority.load store)) [
    | inl (m, e) ↦
        let x = rw e at h in
        let made : record { store = store; snapshot = replace m snapshot } ≡ s = cc in
        let (keys, found) = authority.loaded_stored store m valid e in
        (
          sym (ap Service.store made),
          subst
              (λ (t : Service authority).
                IsSettled authority
                  (record { store = t.store; snapshot = t.snapshot; pending = [] }))
              made
              (record {
                pending = refl;
                valid = valid;
                same = λ e k. shown-replace m snapshot e k keys ∙ found e k;
              }),
        )
    | inr (x, e) ↦ let y = rw e at h in cc
  ]
