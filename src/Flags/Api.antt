-- ===== src/Flags/Api.antt =====
-- internal/api/routes.go: the management and evaluation routes over the flag service, each behind the
-- token of its authority.
pub mod Routes
pub mod Manage
pub mod Ofrep
pub mod Separation
pub mod Outcome
pub mod Bulk
mod Tests
use saas_reaper.Base.{
  ℕ, String, Bool, true, false, not, ◌&&◌, Option, none, some, List, [], ◌∷◌, map, ◌==◌,
  if◌then◌else◌, Result, ok, err, ◌>>=◌, ◌>>◌, guard,
}
use Prim.Native.String
use mathlib.Core.Option
use saas_reaper.Flags.Evaluate.{evaluate_definition}
use saas_reaper.Flags.Authority.{Authority}
use saas_reaper.Flags.Service.{Service}
use saas_reaper.Flags.Service
use saas_reaper.Flags.Api.Routes.{
  PublishRequest, Wire, Request, EvaluationResult, success, failure, Reply, healthy, refused,
  internal, no_content, flag_reply, flags_reply, audit_reply, evaluation_reply, evaluations_reply,
  Response, write_json, Server, only_value, authorized, Route, health, list_audit, publish_flag,
  list_environment, evaluate_flag, evaluate_environment,
}
use saas_reaper.Flags.Api.Manage.{Handled, publish, listed, requested_limit, audit_limited}
use saas_reaper.Flags.Api.Ofrep.{evaluate, evaluate_all}

module _ (wire : Wire) where
  open wire use {Bytes}

  module _ (authority : Authority) where
    -- authorize
    unfoldable pub authorize :
        String → Request Bytes → Handled wire authority → Service authority → Handled wire authority
    unfolding authorized
    authorize token request next s =
        if authorized token request.authorization then next else (write_json 401 refused, s)

    -- The handler of each route.
    unfoldable pub serve :
        Server → ℕ → Request Bytes → Service authority → Route → Handled wire authority
    unfolding authorize publish listed requested_limit audit_limited evaluate evaluate_all
    serve server now request s health = (write_json 200 healthy, s)
    serve server now request s (publish_flag environment key) =
        authorize server.admin_token request
          (publish wire authority server now environment key request.body s) s
    serve server now request s (list_environment environment) =
        authorize server.admin_token request
          (listed wire authority (Service.list_flags authority environment s), s) s
    serve server now request s list_audit =
        authorize server.admin_token request
          (audit_limited wire authority (requested_limit wire authority request.limit) s, s) s
    serve server now request s (evaluate_flag environment key) =
        authorize server.evaluation_token request
          (evaluate wire authority environment key request.body s, s) s
    serve server now request s (evaluate_environment environment) =
        authorize server.evaluation_token request
          (evaluate_all wire authority environment request.if_none_match request.body s, s) s

    -- What `Handler` registers.
    unfoldable pub handle : Server → ℕ → Request Bytes → Service authority → Handled wire authority
    unfolding serve
    handle server now request s = serve server now request s request.route
