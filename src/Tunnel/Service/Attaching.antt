-- ===== src/Tunnel/Service/Attaching.antt =====
-- `Attach` of specimens/ingress-tunnel/internal/tunnel/tunnels.go: what it decides, what it leaves,
-- and that it keeps the invariant.
use saas_reaper.Base.{
  ℕ, String, ◌≡◌, inl, inr, refl, sym, ap, ◌∙◌, false, Option, none, some, List, ◌==◌, eq_iff,
  Result, ok, err, arith, Bool-cases, Result-cases, guard-then, unit-then,
}
use saas_reaper.Base.Map.{lookup, insert, lookup-insert}
use saas_reaper.Tunnel.Lifecycle.{
  Error, AuditKind, agent, generation_detail, claim_active, presence_live, event_connect,
}
use saas_reaper.Tunnel.Lifecycle.Replay.{at}
use saas_reaper.Tunnel.Claim.{Claim, state}
use saas_reaper.Tunnel.Registry.{Attachment, Link, link_of, attach, presence}
use saas_reaper.Tunnel.Store.{Store}
use saas_reaper.Tunnel.Service.{entries, decide, Service, takeover_allowed}
use saas_reaper.Tunnel.Service.Attachment.{
  replaced, next_generation, attach_decided, attach_plan, attach_written, attach_link,
}
use saas_reaper.Tunnel.Service.Invariant.{
  Inv, failed-Inv, moved-Inv, decide_connect, position_claim, kept_claim,
}
use mathlib.Core.Option

state_active : (c : Claim) → state c ≡ claim_active → c.revoked ≡ false
unfolding state
state_active c h = ground arith

module _ (durable : Store) where
  open durable use {State, claim_at, log}

  module _ (checked : ℕ) (claim : Claim) (s : Service durable) (kinds : List AuditKind) where
    -- What is known once a connect was decided: the claim as it is stored now has the hash of the
    -- credential, a takeover is allowed, and the claim is active.
    attach_planned_lem :
        attach_plan durable checked claim s ≡ ok kinds
        → (c : Claim) × (claim_at s.store claim.subdomain ≡ some c)
          × (c.token_hash ≡ claim.token_hash)
          × (takeover_allowed durable checked claim.subdomain s ≡ ok tt)
          × (decide (state c) (presence claim.subdomain s.live) event_connect ≡ ok kinds)
    unfolding attach_plan attach_decided
    attach_planned_lem h =
        elim (Result-cases (durable.claim_by_subdomain claim.subdomain s.store)) [
          | inl (c, e) ↦
              let (same, rest) = guard-then (c.token_hash == claim.token_hash) _ _ _ (rw e at h) in
              let (allowed, decided) =
                unit-then (takeover_allowed durable checked claim.subdomain s) _ _ rest in
              (
                c,
                durable.by_subdomain claim.subdomain s.store c e,
                (eq_iff c.token_hash claim.token_hash).0 same,
                allowed,
                decided,
              )
          | inr (x, e) ↦ let y = rw e at h in cc
        ]

  module _ (start : State) (now : ℕ) (d : String) (link : Link) (generation : ℕ)
      (s : Service durable) where
    abbrev mine : Attachment
    mine = record { link = link; generation = generation }

    abbrev after : State → Service durable
    after t =
        replaced durable now d generation (attach d link generation s.live) (record s { store = t })

    over : Option Link → State → Service durable
    over o t = replaced durable now d generation (o, insert d mine s.live) (record s { store = t })

    over_lem :
        (o : Option Link) (t : State)
        → ((over o t).store ≡ t)
          × ((over o t).live ≡ insert d mine s.live)
          × ((k : String) (u : ℕ)
              → (d == k) ≡ false
              → lookup k (over o t).superseded ≡ some u
              → lookup k s.superseded ≡ some u)
    unfolding over replaced
    over_lem none t = (refl, refl, λ k u x e. e)
    over_lem (some p) t =
        (refl, refl, λ k u x e. sym (rw (lookup-insert d k now s.superseded, x) refl) ∙ e)

    after_lem :
        (t : State)
        → ((after t).store ≡ t)
          × ((after t).live ≡ insert d mine s.live)
          × ((k : String) (u : ℕ)
              → (d == k) ≡ false
              → lookup k (after t).superseded ≡ some u
              → lookup k s.superseded ≡ some u)
    unfolding over attach
    after_lem t = over_lem (Option.map link_of (lookup d s.live)) t

    attached-Inv :
        (written : ℕ) (c : Claim) (kinds : List AuditKind)
        → Inv durable start s
        → claim_at s.store d ≡ some c
        → decide (state c) (presence d s.live) event_connect ≡ ok kinds
        → (durable.append_audit
            (entries kinds d written (agent d) (generation_detail generation))
            s.store).0
          ≡ ok tt
        → Inv durable start (
            after
              (durable.append_audit
                (entries kinds d written (agent d) (generation_detail generation))
                s.store).1)
    attached-Inv written c kinds inv here decided h =
        let rows = entries kinds d written (agent d) (generation_detail generation) in
        let t = (durable.append_audit rows s.store).1 in
        let (claims, logged) = durable.appended rows s.store h in
        let (active, lead) = decide_connect (state c) (presence d s.live) kinds decided in
        let (stores, lives, supers) = after_lem t in
        moved-Inv durable start s (after t) d (some c) (some mine)
          (λ k. rw stores (claims k ∙ kept_claim durable s.store d (some c) here k))
          (λ k. rw lives (lookup-insert d k mine s.live)) kinds written (agent d)
          (generation_detail generation) (rw stores logged)
          (rw (position_claim durable s d c here)
            (lead ∙ ap (λ x. at x presence_live) (sym active)))
          (λ a e. (c, refl, state_active c active))
          (λ k u e. elim (Bool-cases (d == k)) [
            | inl x ↦ inl (x, (mine, refl))
            | inr x ↦ inr (x, supers k u x e)
          ])
          inv

    -- What follows the decision.
    written-Inv :
        (r : Result Error (Unit {0})) (t : State)
        → (r ≡ ok tt → Inv durable start (after t))
        → ((e : Error) → r ≡ err e → Inv durable start (record s { store = t }))
        → Inv durable start (attach_written durable now d link generation (r, t) s).1
    unfolding attach_written
    written-Inv (ok u) t f g = f refl
    written-Inv (err e) t f g = g e refl

  -- `Attach` keeps the invariant, whether it succeeds or fails.
  pub attach_link-Inv :
      (start : State) (checked written now : ℕ) (claim : Claim) (link : Link) (s : Service durable)
      → Inv durable start s
      → Inv durable start (attach_link durable checked written now claim link s).1
  unfolding attach_link
  attach_link-Inv start checked written now claim link s inv =
      elim (Result-cases (attach_plan durable checked claim s)) [
        | inl (kinds, e) ↦
            let d = claim.subdomain in
            let generation = next_generation durable s.generation in
            let rows = entries kinds d written (agent d) (generation_detail generation) in
            let w = durable.append_audit rows s.store in
            let (c, here, same, allowed, decided) = attach_planned_lem checked claim s kinds e in
            rw e (
              written-Inv start now d link generation s w.0 w.1
                (λ h. attached-Inv start now d link generation s written c kinds inv here decided h)
                (λ x h.
                  let (claims, logged) = durable.not_appended rows s.store x h in
                  failed-Inv durable start s w.1 claims logged inv))
        | inr (x, e) ↦ rw e inv
      ]
