-- ===== src/Tunnel/Service/Losing.antt =====
-- `Lost` of specimens/ingress-tunnel/internal/tunnel/tunnels.go keeps the invariant, and the loss of
-- a connection that no longer owns its subdomain changes nothing.
use saas_reaper.Base.{
  ℕ, String, ◌≡◌, inl, inr, refl, ◌∙◌, true, false, none, some, List, [], ◌∷◌, ◌==◌, Result, ok,
  err, arith, Bool-cases, Option-cases,
}
use saas_reaper.Base.Map.{lookup, delete, lookup-delete}
use saas_reaper.Tunnel.Lifecycle.{
  Error, audit_disconnected, agent, generation_detail, AuditEntry, claim_active, presence_live,
  event_link_lost,
}
use saas_reaper.Tunnel.Claim.{Claim, state}
use saas_reaper.Tunnel.Registry.{Attachment, Registry, detach, matches, presence}
use saas_reaper.Tunnel.Store.{Store}
use saas_reaper.Tunnel.Service.{entries, decide, Service, Connection}
use saas_reaper.Tunnel.Service.Attachment.{lost_written, lost_planned, lost}
use saas_reaper.Tunnel.Service.Invariant.{
  Inv, failed-Inv, moved-Inv, kept_claim, presence_lem, decide_lost, position_claim,
}

owner :
    (d : String) (generation : ℕ) (live : Registry)
    → matches d generation live ≡ true
    → (a : Attachment) × (lookup d live ≡ some a) × (a.generation ≡ generation)
unfolding matches
owner d generation live h = elim (Option-cases (lookup d live)) [
  | inl e ↦ let x = rw e at h in cc
  | inr (a, e) ↦ (a, e, let x = rw e at h in ground arith)
]

detach_lem :
    (d : String) (generation : ℕ) (live : Registry)
    → matches d generation live ≡ true
    → (detach d generation live).1 ≡ delete d live
unfolding matches detach
detach_lem d generation live h = rw h

module _ (durable : Store) where
  open durable use {State, claim_at, log}

  module _ (start : State) (now : ℕ) (c : Connection) (s : Service durable)
      (inv : Inv durable start s) (mine : matches c.subdomain c.generation s.live ≡ true) where
    abbrev d : String
    d = c.subdomain

    abbrev rows : List AuditEntry
    rows = entries (audit_disconnected ∷ []) d now (agent d) (generation_detail c.generation)

    abbrev after : State → Service durable
    after t = record s {
      store = t;
      live = (detach d c.generation s.live).1;
      superseded = delete d s.superseded;
    }

    lost_active : (claim : Claim) → claim.revoked ≡ false → state claim ≡ claim_active
    unfolding state
    lost_active claim h = rw h

    detached-Inv :
        (durable.append_audit rows s.store).0 ≡ ok tt
        → Inv durable start (after (durable.append_audit rows s.store).1)
    detached-Inv h =
        let t = (durable.append_audit rows s.store).1 in
        let (claims, logged) = durable.appended rows s.store h in
        let (a, held, mine') = owner d c.generation s.live mine in
        let (claim, here, alive) = inv.live_active d a held in
        let active = lost_active claim alive in
        let was : presence d s.live ≡ presence_live = presence_lem d s.live ∙ rw held refl in
        moved-Inv durable start s (after t) d (some claim) none
          (λ k. claims k ∙ kept_claim durable s.store d (some claim) here k)
          (λ k. rw (detach_lem d c.generation s.live mine) (lookup-delete d k s.live))
          (audit_disconnected ∷ []) now (agent d) (generation_detail c.generation) logged
          (rw (position_claim durable s d claim here, was, active) refl) (λ b e. cc)
          (λ k u e. elim (Bool-cases (d == k)) [
            | inl x ↦ let y = rw (lookup-delete d k s.superseded, x) at e in cc
            | inr x ↦ inr (x, rw (lookup-delete d k s.superseded, x) at e)
          ])
          inv

    lost_written-Inv :
        (r : Result Error (Unit {0})) (t : State)
        → (r ≡ ok tt → Inv durable start (after t))
        → ((e : Error) → r ≡ err e → Inv durable start (record s { store = t }))
        → Inv durable start (lost_written durable c (r, t) s).1
    unfolding lost_written
    lost_written-Inv (ok u) t f g = f refl
    lost_written-Inv (err e) t f g = g e refl

    lost_planned-Inv :
        Inv durable start
          (lost_planned durable now c (decide claim_active presence_live event_link_lost) s).1
    unfolding lost_planned
    lost_planned-Inv =
        let w = durable.append_audit rows s.store in
        rw decide_lost (
          lost_written-Inv w.0 w.1 detached-Inv (λ x h.
            let (claims, logged) = durable.not_appended rows s.store x h in
            failed-Inv durable start s w.1 claims logged inv))

  -- `Lost` keeps the invariant, whether it succeeds or fails.
  pub lost-Inv :
      (start : State) (now : ℕ) (c : Connection) (s : Service durable)
      → Inv durable start s
      → Inv durable start (lost durable now c s).1
  unfolding lost
  lost-Inv start now c s inv = elim (Bool-cases (matches c.subdomain c.generation s.live)) [
    | inl e ↦ rw e (lost_planned-Inv start now c s inv e)
    | inr e ↦ rw e inv
  ]
