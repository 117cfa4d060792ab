-- ===== src/Tunnel/Service/Claiming.antt =====
-- `Claim` of specimens/ingress-tunnel/internal/tunnel/tunnels.go keeps the invariant.
use saas_reaper.Base.{
  ℕ, String, ◌≡◌, inl, inr, refl, sym, ◌∙◌, subst, none, some, List, [], ◌∷◌, ◌==◌, eq_iff, Result,
  ok, err, ◌>>◌, Bool-cases, Option-cases, Result-cases,
}
use saas_reaper.Base.Map.{lookup}
use saas_reaper.Base.Int64.{pos}
use saas_reaper.Tunnel.Lifecycle.{Error, audit_claimed, manager, revision_detail, AuditEntry}
use saas_reaper.Tunnel.Claim.{Claim, state, validate_subdomain, new_token}
use saas_reaper.Tunnel.Store.{Store}
use saas_reaper.Tunnel.Service.{entries, Service, claim_of, claim_issued, claim_with, claim_tunnel}
use saas_reaper.Tunnel.Service.Invariant.{Inv, failed-Inv, moved-Inv}

module _ (durable : Store) (actor : String) (encode : List ℕ → String)
    (hash_token : String → String) where
  open durable use {State, claim_at, log}

  module _ (start : State) (now : ℕ) (d token : String) (s : Service durable)
      (inv : Inv durable start s) where
    abbrev fresh : Claim
    fresh = claim_of durable actor encode hash_token now d token

    abbrev row : AuditEntry
    row = record {
      at = now;
      subdomain = d;
      kind = audit_claimed;
      actor = manager actor;
      detail = revision_detail (pos 1);
    }

    abbrev written : Result Error (Unit {0}) × State
    written = durable.insert_claim fresh row s.store

    not_live : claim_at s.store d ≡ none → lookup d s.live ≡ none
    not_live free = elim (Option-cases (lookup d s.live)) [
      | inl e ↦ e
      | inr (a, e) ↦ let (c, x, y) = inv.live_active d a e in let z = sym free ∙ x in cc
    ]

    inserted-Inv : written.0 ≡ ok tt → Inv durable start (record s { store = written.1 })
    unfolding claim_of entries state
    inserted-Inv h =
        let (free, claims, logged) = durable.inserted fresh row s.store h in
        moved-Inv durable start s (record s { store = written.1 }) d (some fresh) none claims
          (λ k. elim (Bool-cases (d == k)) [
            | inl e ↦ rw e (subst (λ k. lookup k s.live ≡ none) ((eq_iff d k).0 e) (not_live free))
            | inr e ↦ rw e
          ])
          (audit_claimed ∷ []) now (manager actor) (revision_detail (pos 1)) logged (rw free refl)
          (λ a e. cc)
          (λ k t e. elim (Bool-cases (d == k)) [
            | inl x ↦
                let (a, y) = inv.superseded_live k t e in
                let z = subst (λ k. lookup k s.live ≡ none) ((eq_iff d k).0 x) (not_live free) in cc
            | inr x ↦ inr (x, e)
          ])
          inv

    not_inserted-Inv :
        (e : Error) → written.0 ≡ err e → Inv durable start (record s { store = written.1 })
    not_inserted-Inv e h =
        let (claims, logged) = durable.not_inserted fresh row s.store e h in
        failed-Inv durable start s written.1 claims logged inv

    issued-Inv :
        (r : Result Error (Unit {0})) (t : State)
        → (r ≡ ok tt → Inv durable start (record s { store = t }))
        → ((e : Error) → r ≡ err e → Inv durable start (record s { store = t }))
        → Inv durable start (claim_issued durable actor encode hash_token fresh token (r, t) s).1
    unfolding claim_issued
    issued-Inv (ok u) t f g = f refl
    issued-Inv (err e) t f g = g e refl

    claim_with-Inv :
        Inv durable start (claim_with durable actor encode hash_token now d (ok token) s).1
    unfolding claim_with
    claim_with-Inv = issued-Inv written.0 written.1 inserted-Inv not_inserted-Inv

  -- `Claim` keeps the invariant, whether it succeeds or fails.
  pub claim_tunnel-Inv :
      (start : State) (now : ℕ) (raw : Result Error (List ℕ)) (d : String) (s : Service durable)
      → Inv durable start s
      → Inv durable start (claim_tunnel durable actor encode hash_token now raw d s).1
  unfolding claim_tunnel
  claim_tunnel-Inv start now raw d s inv =
      elim (Result-cases (validate_subdomain d >> new_token encode raw)) [
        | inl (token, e) ↦ rw e (claim_with-Inv start now d token s inv)
        | inr (x, e) ↦ rw (e, claim_with) inv
      ]
