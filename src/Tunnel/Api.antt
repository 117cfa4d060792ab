-- ===== src/Tunnel/Api.antt =====
-- specimens/ingress-tunnel/internal/api (routes.go, tunnels.go, json.go, invalid.go): the management
-- and read routes over the tunnel service, each behind the token of its authority.
pub mod Routes
pub mod Separation
mod Tests
use saas_reaper.Base.{
  ℕ, String, ◌≡◌, Bool, true, false, not, ◌&&◌, ◌||◌, Option, none, some, List, [], ◌∷◌, map, ◌==◌,
  eqb, if◌then◌else◌, Result, ok, err, ◌>>=◌, ◌>>◌, guard,
}
use Prim.Native.String
use saas_reaper.Base.Text.{is_blank}
use saas_reaper.Base.Int64.{ℤ, pos, ltb_ℤ}
use saas_reaper.Tunnel.Lifecycle.{
  Error, conflict, not_found, invalid, revoked, other, ClaimState, Presence, presence_absent,
  AuditEntry,
}
use saas_reaper.Tunnel.Claim.{Claim, state}
use saas_reaper.Tunnel.Store.{Store}
use saas_reaper.Tunnel.Service.{Service, Issued, View, claim_tunnel, revoke, tunnels}
use saas_reaper.Tunnel.Api.Routes.{
  Wire, Route, health, post_claim, get_tunnels, get_audit, post_revoke, Request, ClaimResponse,
  TunnelResponse, Reply, healthy, refused, claim_reply, tunnel_reply, tunnels_reply, audit_reply,
  Response, write_json, Server, bearer,
}

unfoldable pub policy_status : Error → ℕ
policy_status invalid = 400
policy_status conflict = 409
policy_status revoked = 409
policy_status not_found = 404
policy_status e = 500

abbrev pub write_policy_error : Error → Response
unfolding policy_status
write_policy_error e = write_json (policy_status e) refused

-- The time of the revocation is left out if it is zero.
abbrev pub revoked_at_of : ℕ → Option ℕ
revoked_at_of at = if eqb at 0 then none else some at

abbrev pub view_response : View → TunnelResponse
view_response view = record {
  subdomain = view.subdomain;
  revision = view.revision;
  state = view.state;
  presence = view.presence;
  created_at = view.created_at;
  revoked_at = revoked_at_of view.revoked_at;
}

abbrev pub revoked_view : Claim → View
unfolding state
revoked_view claim = record {
  subdomain = claim.subdomain;
  revision = claim.revision;
  state = state claim;
  presence = presence_absent;
  created_at = claim.created_at;
  revoked_at = claim.revoked_at;
}

unfoldable pub in_limits : Option ℤ → Result Error ℤ
in_limits none = err invalid
in_limits (some limit) =
    if ltb_ℤ limit (pos 1) || ltb_ℤ (pos 1000) limit then err invalid else ok limit

module _ (wire : Wire) (durable : Store) where
  open wire use {Bytes, is_json, decode_claim, decode_revoke, at_end, atoi}
  open durable use {State}

  abbrev pub Handled : Type 0
  Handled = Response × Service durable

  unfoldable pub only_value : {A : Type 0} → Option (A × Bytes) → Option A
  only_value none = none
  only_value (some (a, rest)) = if at_end rest then some a else none

  unfoldable pub audit_limit : String → Result Error ℤ
  unfolding in_limits
  audit_limit raw = if raw == "" then ok (pos 50) else in_limits (atoi raw)

  unfoldable pub claimed : Result Error Issued × Service durable → Handled
  claimed (err e, s) = (write_policy_error e, s)
  claimed (ok issued, s) = (
    write_json 201 (
        claim_reply (record {
          subdomain = issued.claim.subdomain;
          token = issued.token;
          revision = issued.claim.revision;
          created_at = issued.claim.created_at;
        })),
    s,
  )

  unfoldable pub revoked_claim : Result Error Claim × Service durable → Handled
  revoked_claim (err e, s) = (write_policy_error e, s)
  revoked_claim (ok claim, s) =
      (write_json 200 (tunnel_reply (view_response (revoked_view claim))), s)

  unfoldable pub listed : Result Error (List View) → Response
  listed (err e) = write_policy_error e
  listed (ok views) = write_json 200 (tunnels_reply (map view_response views))

  unfoldable pub audited : Result Error (List AuditEntry) → Response
  audited (err e) = write_policy_error e
  audited (ok entries) = write_json 200 (audit_reply entries)

  -- requireJSON, and what follows it
  unfoldable pub require_json : Request Bytes → Handled → Service durable → Handled
  require_json r next s = if is_json r.content_type then next else (write_json 415 refused, s)

  unfoldable pub authorize : String → Request Bytes → Handled → Service durable → Handled
  authorize token r next s =
      if r.authorization == bearer token then next else (write_json 401 refused, s)

  -- The actor, the codec and the hash are those of the service; `raw` are the random bytes, `read_audit`
  -- is the reader of the audit.
  module _ (actor : String) (encode : List ℕ → String) (hash_token : String → String)
      (read_audit : ℤ → State → Result Error (List AuditEntry)) where
    unfoldable pub claim_decoded :
        ℕ → Result Error (List ℕ) → Option String → Service durable → Handled
    unfolding claimed
    claim_decoded now raw none s = (write_json 400 refused, s)
    claim_decoded now raw (some subdomain) s =
        claimed (claim_tunnel durable actor encode hash_token now raw subdomain s)

    unfoldable pub revoke_decoded : ℕ → String → Option ℤ → Service durable → Handled
    unfolding revoked_claim
    revoke_decoded now subdomain none s = (write_json 400 refused, s)
    revoke_decoded now subdomain (some expected) s =
        revoked_claim (revoke durable actor now subdomain expected s)

    unfoldable pub audit_limited : Result Error ℤ → Service durable → Response
    unfolding audited
    audit_limited (err e) s = write_json 400 refused
    audit_limited (ok limit) s = audited (read_audit limit s.store)

    -- The handler of each route that `Register` mounts.
    unfoldable pub serve :
        Server → ℕ → Result Error (List ℕ) → Request Bytes → Service durable → Route → Handled
    unfolding authorize require_json claim_decoded revoke_decoded listed audit_limited audit_limit
        only_value
    serve server now raw r s health = (write_json 200 healthy, s)
    serve server now raw r s post_claim =
        authorize server.admin_token r
          (require_json r (claim_decoded now raw (only_value (decode_claim r.body)) s) s) s
    serve server now raw r s (post_revoke subdomain) =
        authorize server.admin_token r
          (require_json r (revoke_decoded now subdomain (only_value (decode_revoke r.body)) s) s) s
    serve server now raw r s get_tunnels =
        authorize server.read_token r (listed (tunnels durable s), s) s
    serve server now raw r s get_audit =
        authorize server.read_token r (audit_limited (audit_limit r.limit) s, s) s

    unfoldable pub handle :
        Server → ℕ → Result Error (List ℕ) → Request Bytes → Service durable → Handled
    unfolding serve
    handle server now raw r s = serve server now raw r s r.route
