-- ===== src/Tunnel/Link/Handshake.antt =====
-- What an agent makes of a refusal or an eviction of specimens/ingress-tunnel/internal/link.
use saas_reaper.Base.{
  ℕ, String, ◌≡◌, ◌↔◌, ◌⊎◌, refl, sym, ◌∙◌, inl, inr, true, false, Option, none, some, List, err,
  Result-cases,
}
use saas_reaper.Tunnel.Lifecycle.{Error, conflict, unauthorized}
use saas_reaper.Tunnel.Registry.{CloseReason, close_superseded, close_revoked, close_shutdown}
use saas_reaper.Tunnel.Store.{Store}
use saas_reaper.Tunnel.Service.{Service, authenticate}
use saas_reaper.Tunnel.Link.{
  rejected, bearer, authenticate_status, answered, permanent, accept_token, serve_http,
  close_status, reason,
}

module _ (durable : Store) (decode : String → Option (List ℕ)) (hash_token : String → String)
    (now : ℕ) where
  -- The service refuses the token for good: it is not usable, or another agent holds the claim.
  abbrev pub Refuses : String → Service durable → Type 0
  Refuses token s =
      (authenticate durable decode hash_token now token s ≡ err unauthorized)
      ⊎ (authenticate durable decode hash_token now token s ≡ err conflict)

  -- The header has no token, or one that is refused for good.
  abbrev pub RefusesHeader : Option String → Service durable → Type 0
  RefusesHeader none s = Unit
  RefusesHeader (some token) s = Refuses token s

  answered-permanent :
      (token : String) (e : Error) (status : ℕ) (s : Service durable)
      → authenticate durable decode hash_token now token s ≡ err e
      → rejected (authenticate_status e) ≡ rejected status
      → (permanent status ≡ true) ↔ Refuses token s
  unfolding authenticate_status
  answered-permanent token unauthorized status s k h =
      let same : 401 ≡ status = cc in rw (sym same) (λ x. inl k, λ x. refl)
  answered-permanent token conflict status s k h =
      let same : 409 ≡ status = cc in rw (sym same) (λ x. inr k, λ x. refl)
  answered-permanent token e status s k h =
      let same : 500 ≡ status = cc in
      rw (sym same)
        (λ x. cc, λ x. elim x [ inl y ↦ let z = sym k ∙ y in cc | inr y ↦ let z = sym k ∙ y in cc ])

  accept-permanent :
      (o : Option String) (status : ℕ) (s : Service durable)
      → accept_token durable decode hash_token now o s ≡ rejected status
      → (permanent status ≡ true) ↔ RefusesHeader o s
  unfolding accept_token answered
  accept-permanent none status s h =
      let same : 401 ≡ status = cc in rw (sym same) (λ x. tt, λ x. refl)
  accept-permanent (some token) status s h =
      elim (Result-cases (authenticate durable decode hash_token now token s)) [
        | inl (claim, k) ↦ let x = rw k at h in cc
        | inr (e, k) ↦ answered-permanent token e status s k (rw k at h)
      ]

  -- A server that is not closing refuses an agent's request with a status that the agent takes for
  -- permanent exactly if the request has no token, or `Authenticate` says of its token that it is not
  -- usable or that another agent holds the claim. Any other refusal is one that the agent retries.
  pub permanent_iff_refused :
      (header : String) (status : ℕ) (s : Service durable)
      → serve_http durable decode hash_token now false header s ≡ rejected status
      → (permanent status ≡ true) ↔ RefusesHeader (bearer header) s
  unfolding serve_http
  permanent_iff_refused header status s h = accept-permanent (bearer header) status s h

-- An agent reads from the status that a link is closed with the reason that the server had, if it is
-- an eviction, a takeover or a revocation; and of a shutdown it reads none, so that it reconnects.
pub reason-close_status :
    (r : CloseReason)
    → ((r ≡ close_shutdown) × (reason (close_status r) ≡ none)) ⊎ (reason (close_status r) ≡ some r)
unfolding reason close_status
reason-close_status close_superseded = inr refl
reason-close_status close_revoked = inr refl
reason-close_status close_shutdown = inl (refl, refl)
