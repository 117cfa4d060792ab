-- ===== src/Flags/Api/Separation.antt =====
-- The two authorities of internal/api/routes.go: the token of one opens no route of the other.
use saas_reaper.Base.{
  ℕ, String, ◌≡◌, refl, sym, ap, ◌∙◌, inl, inr, Bool, true, false, ◌&&◌, Option, none, some, ◌==◌,
  eq_iff, ok, arith, not, guard-then, Bool-cases,
}
use Prim.Native.String
use saas_reaper.Base.Text.{is_blank, after_prefix-append}
use saas_reaper.Flags.Authority.{Authority}
use saas_reaper.Flags.Service.{Service}
use saas_reaper.Flags.Api.Routes.{
  Wire, Route, health, list_audit, publish_flag, list_environment, evaluate_flag,
  evaluate_environment, Request, write_json, refused, Server, no_admin_token, no_admin_actor,
  no_evaluation_token, shared_token, new, authorized, provides,
}
use saas_reaper.Flags.Api.Manage.{Handled}
use saas_reaper.Flags.Api.{authorize, serve, handle}

pub data Plane : Type 0 where
  management evaluation : Plane

abbrev pub other_plane : Plane → Plane
other_plane management = evaluation
other_plane evaluation = management

abbrev pub token_of : Server → Plane → String
token_of server management = server.admin_token
token_of server evaluation = server.evaluation_token

abbrev pub plane_of : Route → Option Plane
plane_of health = none
plane_of (evaluate_flag environment key) = some evaluation
plane_of (evaluate_environment environment) = some evaluation
plane_of route = some management

abbrev pub is_publish : Route → Bool
is_publish (publish_flag environment key) = true
is_publish route = false

abbrev pub bearer : String → String
bearer token = String.◌++◌ "Bearer " token

authorized-bearer :
    (token provided : String) → authorized token (bearer provided) ≡ (provided == token)
unfolding authorized provides
authorized-bearer token provided = ap (provides token) (after_prefix-append "Bearer " provided)

tokens_differ :
    (a actor e : String) (server : Server)
    → new a actor e ≡ ok server
    → (server.admin_token == server.evaluation_token) ≡ false
unfolding new
tokens_differ a actor e server h =
    let (x, h1) = guard-then (not (is_blank a)) no_admin_token _ _ h in
    let (y, h2) = guard-then (not (is_blank actor)) no_admin_actor _ _ h1 in
    let (z, h3) = guard-then (not (is_blank e)) no_evaluation_token _ _ h2 in
    let (w, h4) = guard-then (not (a == e)) shared_token _ _ h3 in
    let left : a ≡ server.admin_token = cc in
    let right : e ≡ server.evaluation_token = cc in rw (sym left, sym right) (ground arith)

other_refused :
    (server : Server) (plane : Plane)
    → (server.admin_token == server.evaluation_token) ≡ false
    → authorized (token_of server plane) (bearer (token_of server (other_plane plane))) ≡ false
other_refused server management h =
    authorized-bearer server.admin_token server.evaluation_token
    ∙ ground (
      arith,
      eq_iff server.admin_token server.evaluation_token,
      eq_iff server.evaluation_token server.admin_token,
    )
other_refused server evaluation h = authorized-bearer server.evaluation_token server.admin_token ∙ h

module _ (wire : Wire) (authority : Authority) where
  open wire use {Bytes}

  module _ (server : Server) (now : ℕ) (request : Request Bytes) (s : Service authority) where
    abbrev handled : Handled wire authority
    handled = handle wire authority server now request s

    -- A route of a plane whose token the request does not carry answers that it is not authorized.
    pub serve-unauthorized :
        (route : Route) (plane : Plane)
        → plane_of route ≡ some plane
        → authorized (token_of server plane) request.authorization ≡ false
        → serve wire authority server now request s route ≡ (write_json 401 refused, s)
    unfolding serve authorize
    serve-unauthorized health plane p h = cc
    serve-unauthorized list_audit management p h = rw h refl
    serve-unauthorized (publish_flag environment key) management p h = rw h refl
    serve-unauthorized (list_environment environment) management p h = rw h refl
    serve-unauthorized (evaluate_flag environment key) evaluation p h = rw h refl
    serve-unauthorized (evaluate_environment environment) evaluation p h = rw h refl
    serve-unauthorized route plane p h = cc

    -- With a server that `New` made: a request to a route of one authority, that carries the token of
    -- the other authority, is refused with status 401 and changes nothing.
    pub crossed_token_refused :
        (a actor e : String) (plane : Plane)
        → new a actor e ≡ ok server
        → plane_of request.route ≡ some plane
        → request.authorization ≡ bearer (token_of server (other_plane plane))
        → handled ≡ (write_json 401 refused, s)
    unfolding handle
    crossed_token_refused a actor e plane made p carried =
        serve-unauthorized request.route plane p (
          ap (authorized (token_of server plane)) carried
          ∙ other_refused server plane (tokens_differ a actor e server made))

    pub serve_reads :
        (route : Route)
        → (is_publish route && authorized server.admin_token request.authorization) ≡ false
        → (serve wire authority server now request s route).1 ≡ s
    unfolding serve authorize
    serve_reads health h = refl
    serve_reads list_audit h =
        elim (Bool-cases (authorized server.admin_token request.authorization)) [
          | inl x ↦ rw x refl
          | inr x ↦ rw x refl
        ]
    serve_reads (publish_flag environment key) h = rw h refl
    serve_reads (list_environment environment) h =
        elim (Bool-cases (authorized server.admin_token request.authorization)) [
          | inl x ↦ rw x refl
          | inr x ↦ rw x refl
        ]
    serve_reads (evaluate_flag environment key) h =
        elim (Bool-cases (authorized server.evaluation_token request.authorization)) [
          | inl x ↦ rw x refl
          | inr x ↦ rw x refl
        ]
    serve_reads (evaluate_environment environment) h =
        elim (Bool-cases (authorized server.evaluation_token request.authorization)) [
          | inl x ↦ rw x refl
          | inr x ↦ rw x refl
        ]

    -- A request that is not a publish with the token of the management authority leaves the service,
    -- its store and its projection, exactly as it was.
    pub only_publish_changes :
        (is_publish request.route && authorized server.admin_token request.authorization) ≡ false
        → handled.1 ≡ s
    unfolding handle
    only_publish_changes h = serve_reads request.route h
