-- ===== src/Flags/Api/Routes.antt =====
-- internal/api/routes.go: what the routes are given and answer, and the tokens they ask for. net/http
-- chooses the route and gives its path values; what a handler uses of the standard library is the
-- parameter `Wire`. The texts of error messages are left out.
use saas_reaper.Base.{
  ℕ, String, Bool, false, not, Option, none, some, List, ◌==◌, if◌then◌else◌, Result, ok, ◌>>◌,
  guard,
}
use saas_reaper.Base.Map.{Map}
use saas_reaper.Base.Text.{is_blank, after_prefix}
use saas_reaper.Base.Int64.{ℤ}
use saas_reaper.Flags.Flag.{Value, Flag, Evaluation, AuditEntry}

pub record PublishRequest : Type 0 where
  pub expected_revision : ℤ
  pub flag : Flag

pub record Wire : Type 1 where
  pub Bytes : Type 0
  -- one JSON value, within the size that is allowed and without unknown fields, and what is left
  pub decode_publish : Bytes → Option (PublishRequest × Bytes)
  pub decode_evaluation : Bytes → Option (Map Value × Bytes)
  pub at_end : Bytes → Bool
  pub atoi : String → Option ℤ
  pub print : ℤ → String
  pub marshal : Map Value → Option String
  pub sha256 : String → List ℕ
  pub hex : List ℕ → String

pub data Route : Type 0 where
  health list_audit : Route
  publish_flag : (environment key : String) → Route
  list_environment : (environment : String) → Route
  evaluate_flag : (environment key : String) → Route
  evaluate_environment : (environment : String) → Route

-- A header or a query value that is missing reads as the empty text.
pub record Request (Bytes : Type 0) : Type 0 where
  pub route : Route
  pub authorization : String
  pub if_none_match : String
  pub limit : String
  pub body : Bytes

pub data EvaluationResult : Type 0 where
  success : Evaluation → EvaluationResult
  failure : (key code : String) → EvaluationResult

pub data Reply : Type 0 where
  healthy refused internal no_content : Reply
  flag_reply : Flag → Reply
  flags_reply : List Flag → Reply
  audit_reply : List AuditEntry → Reply
  evaluation_reply : EvaluationResult → Reply
  evaluations_reply : List EvaluationResult → (version : String) → Reply

pub record Response : Type 0 where
  pub status : ℕ
  pub etag : String
  pub reply : Reply

abbrev pub write_json : ℕ → Reply → Response
write_json status reply = record { status = status; etag = ""; reply = reply }

pub record Server : Type 0 where
  pub admin_token : String
  pub admin_actor : String
  pub evaluation_token : String

pub data ConfigError : Type 0 where
  no_admin_token no_admin_actor no_evaluation_token shared_token : ConfigError

unfoldable pub new : String → String → String → Result ConfigError Server
new admin_token admin_actor evaluation_token = do
  guard (not (is_blank admin_token)) no_admin_token
  guard (not (is_blank admin_actor)) no_admin_actor
  guard (not (is_blank evaluation_token)) no_evaluation_token
  guard (not (admin_token == evaluation_token)) shared_token
  ok (record {
    admin_token = admin_token;
    admin_actor = admin_actor;
    evaluation_token = evaluation_token;
  })

unfoldable pub provides : String → Option String → Bool
provides token none = false
provides token (some provided) = provided == token

unfoldable pub authorized : String → String → Bool
unfolding provides
authorized token header = provides token (after_prefix header "Bearer ")

module _ (wire : Wire) where
  open wire use {Bytes, at_end}

  -- decodeJSON, after the first value was decoded
  unfoldable pub only_value : {A : Type 0} → Option (A × Bytes) → Option A
  only_value none = none
  only_value (some (a, rest)) = if at_end rest then some a else none
