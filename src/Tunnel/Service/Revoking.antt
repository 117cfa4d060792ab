-- ===== src/Tunnel/Service/Revoking.antt =====
-- `Revoke` of specimens/ingress-tunnel/internal/tunnel/tunnels.go keeps the invariant.
use saas_reaper.Base.{
  ℕ, String, ◌≡◌, inl, inr, refl, sym, ◌∙◌, Option, none, some, List, ◌==◌, if◌then◌else◌, Result,
  ok, err, Bool-cases, Option-cases, Result-cases, guard-then,
}
use saas_reaper.Base.Map.{lookup, lookup-delete, lookup_absent}
use saas_reaper.Base.Int64.{ℤ, inc}
use saas_reaper.Tunnel.Lifecycle.{
  Error, AuditKind, manager, revision_detail, presence_absent, event_revoke,
}
use saas_reaper.Tunnel.Lifecycle.Replay.{at, advance_all}
use saas_reaper.Tunnel.Claim.{Claim, state}
use saas_reaper.Tunnel.Registry.{Attachment, evict, evict_found, presence}
use saas_reaper.Tunnel.Store.{Store}
use saas_reaper.Tunnel.Service.{
  entries, decide, Service, evicted, revoke_decided, revoke_plan, revoke_written, revoke,
}
use saas_reaper.Tunnel.Service.Invariant.{
  Inv, failed-Inv, moved-Inv, decide_revoke, position_in, position_claim,
}

module _ (durable : Store) where
  open durable use {State, claim_at, log}

  module _ (start : State) (d : String) (s : Service durable) (inv : Inv durable start s) where
    -- What a revocation leaves in the table.
    abbrev after : State → Service durable
    after t = evicted durable d (evict d s.live) (record s { store = t })

    not_taken : lookup d s.live ≡ none → lookup d s.superseded ≡ none
    not_taken e = elim (Option-cases (lookup d s.superseded)) [
      | inl x ↦ x
      | inr (t, x) ↦ let (a, y) = inv.superseded_live d t x in let z = sym e ∙ y in cc
    ]

    over : Option Attachment → State → Service durable
    over o t = evicted durable d (evict_found d o s.live) (record s { store = t })

    over_lem :
        (o : Option Attachment) (t : State)
        → lookup d s.live ≡ o
        → ((over o t).store ≡ t)
          × ((k : String) → lookup k (over o t).live ≡ (if d == k then none else lookup k s.live))
          × ((k : String)
              → lookup k (over o t).superseded ≡ (if d == k then none else lookup k s.superseded))
    unfolding over evicted
    over_lem none t e =
        (refl, λ k. lookup_absent d k s.live e, λ k. lookup_absent d k s.superseded (not_taken e))
    over_lem (some a) t e =
        (refl, λ k. lookup-delete d k s.live, λ k. lookup-delete d k s.superseded)

    after_lem :
        (t : State)
        → ((after t).store ≡ t)
          × ((k : String) → lookup k (after t).live ≡ (if d == k then none else lookup k s.live))
          × ((k : String)
              → lookup k (after t).superseded ≡ (if d == k then none else lookup k s.superseded))
    unfolding over evict
    after_lem t = over_lem (lookup d s.live) t refl

    -- What is known once the revocation was decided.
    planned :
        (expected : ℤ) (claim : Claim) (kinds : List AuditKind)
        → revoke_plan durable d expected s ≡ ok (claim, kinds)
        → (claim_at s.store d ≡ some claim)
          × (decide (state claim) (presence d s.live) event_revoke ≡ ok kinds)
    unfolding revoke_plan revoke_decided
    planned expected claim kinds h = elim (Result-cases (durable.claim_by_subdomain d s.store)) [
      | inl (c, e) ↦ elim (Result-cases (revoke_decided durable expected d s.live c)) [
        | inl (ks, e') ↦
            let y : ◌≡◌ {A = Result Error (Claim × List AuditKind)} (ok (c, ks))
                (ok (claim, kinds)) =
              rw (e, e') at h in
            let same : c ≡ claim = cc in
            let same' : ks ≡ kinds = cc in
            (
              rw (← same) (durable.by_subdomain d s.store c e),
              rw (← same, ← same') (guard-then _ _ _ _ e').1,
            )
        | inr (x, e') ↦ let y = rw (e, e') at h in cc
      ]
      | inr (x, e) ↦ let y = rw e at h in cc
    ]

    revoked-Inv :
        (now : ℕ) (actor : String) (expected : ℤ) (claim : Claim) (kinds : List AuditKind)
        (c : Claim)
        → revoke_plan durable d expected s ≡ ok (claim, kinds)
        → (durable.revoke_claim d expected now
            (entries kinds d now (manager actor) (revision_detail (inc claim.revision)))
            s.store).0
          ≡ ok c
        → Inv durable start (
            after
              (durable.revoke_claim d expected now
                (entries kinds d now (manager actor) (revision_detail (inc claim.revision)))
                s.store).1)
    unfolding state
    revoked-Inv now actor expected claim kinds c plan h =
        let rows = entries kinds d now (manager actor) (revision_detail (inc claim.revision)) in
        let t = (durable.revoke_claim d expected now rows s.store).1 in
        let (old, was, alive, level, made, claims, logged) =
          durable.revoked d expected now rows s.store c h in
        let (here, decided) = planned expected claim kinds plan in
        let (stores, lives, supers) = after_lem t in
        let lead : advance_all (position_in durable s d) kinds ≡ at (state c) presence_absent =
          rw (position_claim durable s d claim here, made)
            (decide_revoke (state claim) (presence d s.live) kinds decided).1 in
        moved-Inv durable start s (after t) d (some c) none (λ k. rw stores (claims k)) lives kinds
          now (manager actor) (revision_detail (inc claim.revision)) (rw stores logged) lead
          (λ a e. cc)
          (λ k u e. elim (Bool-cases (d == k)) [
            | inl x ↦ let y = rw (supers k, x) at e in cc
            | inr x ↦ inr (x, rw (supers k, x) at e)
          ])
          inv

    -- What follows the decision.
    written-Inv :
        (r : Result Error Claim) (t : State)
        → ((c : Claim) → r ≡ ok c → Inv durable start (after t))
        → ((e : Error) → r ≡ err e → Inv durable start (record s { store = t }))
        → Inv durable start (revoke_written durable d (r, t) s).1
    unfolding revoke_written
    written-Inv (ok c) t f g = f c refl
    written-Inv (err e) t f g = g e refl

  -- `Revoke` keeps the invariant, whether it succeeds or fails.
  pub revoke-Inv :
      (start : State) (actor : String) (now : ℕ) (d : String) (expected : ℤ) (s : Service durable)
      → Inv durable start s
      → Inv durable start (revoke durable actor now d expected s).1
  unfolding revoke
  revoke-Inv start actor now d expected s inv =
      elim (Result-cases (revoke_plan durable d expected s)) [
        | inl ((claim, kinds), e) ↦
            let rows = entries kinds d now (manager actor) (revision_detail (inc claim.revision)) in
            let w = durable.revoke_claim d expected now rows s.store in
            rw e (
              written-Inv start d s inv w.0 w.1
                (λ c h. revoked-Inv start d s inv now actor expected claim kinds c e h)
                (λ x h.
                  let (claims, logged) = durable.not_revoked d expected now rows s.store x h in
                  failed-Inv durable start s w.1 claims logged inv))
        | inr (x, e) ↦ rw e inv
      ]
