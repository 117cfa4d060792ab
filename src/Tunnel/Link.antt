-- ===== src/Tunnel/Link.antt =====
-- specimens/ingress-tunnel/internal/link/accept.go and link.go: how an agent's request for a link is
-- answered before it is upgraded, and what the agent makes of the answer. The upgrade and the
-- multiplexing are third-party code.
pub mod Handshake
pub mod Handler
mod Tests
use saas_reaper.Base.{
  ℕ, String, ◌≡◌, ◌↔◌, ◌⊎◌, ◌||◌, refl, sym, ap, ◌∙◌, inl, inr, Bool, true, false, Option, none,
  some, List, ◌==◌, eq_iff, eqb, if◌then◌else◌, Result, ok, err, Option-cases, Result-cases,
  Bool-cases, arith,
}
use saas_reaper.Base.Text.{after_prefix}
use saas_reaper.Tunnel.Lifecycle.{
  Error, invalid, conflict, not_found, unauthorized, revoked, other, panicked,
}
use saas_reaper.Tunnel.Claim.{Claim}
use saas_reaper.Tunnel.Registry.{CloseReason, close_superseded, close_revoked, close_shutdown}
use saas_reaper.Tunnel.Store.{Store}
use saas_reaper.Tunnel.Service.{Service, authenticate}

-- A refusal in plain HTTP, or the claim that the connection is upgraded for.
pub data Answer : Type 0 where
  rejected : (status : ℕ) → Answer
  upgrading : Claim → Answer

token_given : Option String → Option String
token_given none = none
token_given (some token) = if token == "" then none else some token

unfoldable pub bearer : String → Option String
unfolding token_given
bearer header = token_given (after_prefix header "Bearer ")

-- The status of a failed `Authenticate`.
authenticate_status : Error → ℕ
authenticate_status unauthorized = 401
authenticate_status conflict = 409
authenticate_status e = 500

answered : Result Error Claim → Answer
unfolding authenticate_status
answered (err e) = rejected (authenticate_status e)
answered (ok claim) = upgrading claim

-- RejectedError.Permanent
abbrev pub permanent : ℕ → Bool
permanent status = eqb status 401 || eqb status 403 || eqb status 409

-- closeStatus: the status of the WebSocket for a reason, 1001 is going away
pub close_status : CloseReason → ℕ
close_status close_superseded = 4001
close_status close_revoked = 4003
close_status close_shutdown = 1001

-- Listener.Reason: the eviction that the agent reads from the status, if it is one
pub reason : ℕ → Option CloseReason
reason status =
    if eqb status 4001
    then some close_superseded
    else if eqb status 4003
    then some close_revoked
    else none

-- Why a link is closed that `Attach` refused.
pub close_reason_for : Error → CloseReason
close_reason_for revoked = close_revoked
close_reason_for unauthorized = close_revoked
close_reason_for e = close_shutdown

module _ (durable : Store) (decode : String → Option (List ℕ)) (hash_token : String → String)
    (now : ℕ) where
  accept_token : Option String → Service durable → Answer
  unfolding answered
  accept_token none s = rejected 401
  accept_token (some token) s = answered (authenticate durable decode hash_token now token s)

  -- ServeHTTP, up to the upgrade
  unfoldable pub serve_http : (is_closing : Bool) → String → Service durable → Answer
  unfolding accept_token
  serve_http true header s = rejected 503
  serve_http false header s = accept_token (bearer header) s
