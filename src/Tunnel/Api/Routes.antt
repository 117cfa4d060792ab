-- ===== src/Tunnel/Api/Routes.antt =====
-- specimens/ingress-tunnel/internal/api/routes.go and tunnels.go: what the routes are given and answer,
-- and the tokens they ask for. net/http chooses the route and gives its path values; what a handler uses
-- of the standard library is the parameter `Wire`. The texts of error messages are left out.
use saas_reaper.Base.{ℕ, String, Bool, not, ◌||◌, Option, List, ◌==◌, Result, ok, ◌>>◌, guard}
use Prim.Native.String
use saas_reaper.Base.Text.{is_blank}
use saas_reaper.Base.Int64.{ℤ}
use saas_reaper.Tunnel.Lifecycle.{ClaimState, Presence, AuditEntry}

pub record Wire : Type 1 where
  pub Bytes : Type 0
  -- the media type is application/json
  pub is_json : String → Bool
  -- one JSON value, within the size that is allowed and without unknown fields, and what is left
  pub decode_claim : Bytes → Option (String × Bytes)
  pub decode_revoke : Bytes → Option (ℤ × Bytes)
  pub at_end : Bytes → Bool
  pub atoi : String → Option ℤ

pub data Route : Type 0 where
  health post_claim get_tunnels get_audit : Route
  post_revoke : (subdomain : String) → Route

pub record Request (Bytes : Type 0) : Type 0 where
  pub route : Route
  pub authorization : String
  pub content_type : String
  pub limit : String
  pub body : Bytes

-- What is written of a claim when it is issued: the only answer with a token.
pub record ClaimResponse : Type 0 where
  pub subdomain : String
  pub token : String
  pub revision : ℤ
  pub created_at : ℕ

pub record TunnelResponse : Type 0 where
  pub subdomain : String
  pub revision : ℤ
  pub state : ClaimState
  pub presence : Presence
  pub created_at : ℕ
  pub revoked_at : Option ℕ

pub data Reply : Type 0 where
  healthy refused : Reply
  claim_reply : ClaimResponse → Reply
  tunnel_reply : TunnelResponse → Reply
  tunnels_reply : List TunnelResponse → Reply
  audit_reply : List AuditEntry → Reply

pub record Response : Type 0 where
  pub status : ℕ
  pub reply : Reply

abbrev pub write_json : ℕ → Reply → Response
write_json status reply = record { status = status; reply = reply }

pub record Server : Type 0 where
  pub admin_token : String
  pub read_token : String

pub data ConfigError : Type 0 where
  no_tokens shared_token : ConfigError

unfoldable pub new : String → String → Result ConfigError Server
new admin_token read_token = do
  guard (not (is_blank admin_token || is_blank read_token)) no_tokens
  guard (not (admin_token == read_token)) shared_token
  ok (record { admin_token = admin_token; read_token = read_token })

abbrev pub bearer : String → String
bearer token = String.◌++◌ "Bearer " token
