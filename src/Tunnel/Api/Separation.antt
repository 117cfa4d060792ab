-- ===== src/Tunnel/Api/Separation.antt =====
-- The two authorities of specimens/ingress-tunnel/internal/api/routes.go.
use saas_reaper.Base.{
  ℕ, String, ◌≡◌, refl, sym, ap, subst, ◌∙◌, inl, inr, false, not, ◌||◌, Option, none, some, List,
  ◌==◌, eq_iff, Result, ok, arith, guard-then, Bool-cases,
}
use saas_reaper.Base.Text.{is_blank, after_prefix, after_prefix-append}
use saas_reaper.Base.Int64.{ℤ, pos, ltb_ℤ, ◌≤ℤ◌}
use saas_reaper.Tunnel.Lifecycle.{Error, AuditEntry}
use saas_reaper.Tunnel.Store.{Store}
use saas_reaper.Tunnel.Service.{Service}
use saas_reaper.Tunnel.Api.Routes.{
  Wire, Route, health, post_claim, get_tunnels, get_audit, post_revoke, Request, write_json,
  refused, Server, no_tokens, shared_token, new, bearer,
}
use saas_reaper.Tunnel.Api.{in_limits, audit_limit, authorize, serve, handle}

pub data Plane : Type 0 where
  management reading : Plane

abbrev pub other_plane : Plane → Plane
other_plane management = reading
other_plane reading = management

abbrev pub token_of : Server → Plane → String
token_of server management = server.admin_token
token_of server reading = server.read_token

abbrev pub plane_of : Route → Option Plane
plane_of health = none
plane_of post_claim = some management
plane_of (post_revoke subdomain) = some management
plane_of get_tunnels = some reading
plane_of get_audit = some reading

tokens_differ :
    (a e : String) (server : Server)
    → new a e ≡ ok server
    → (server.admin_token == server.read_token) ≡ false
unfolding new
tokens_differ a e server h =
    let (x, h1) = guard-then (not (is_blank a || is_blank e)) no_tokens _ _ h in
    let (w, h2) = guard-then (not (a == e)) shared_token _ _ h1 in
    let left : a ≡ server.admin_token = cc in
    let right : e ≡ server.read_token = cc in rw (sym left, sym right) (ground arith)

-- Two tokens that are written the same way in a header are the same.
bearer_injective : (a b : String) → bearer a ≡ bearer b → a ≡ b
bearer_injective a b h =
    let x =
      sym (after_prefix-append "Bearer " a)
      ∙ (ap (λ s. after_prefix s "Bearer ") h ∙ after_prefix-append "Bearer " b) in
    cc

bearer_differs : (a b : String) → (a == b) ≡ false → (bearer a == bearer b) ≡ false
bearer_differs a b h = elim (Bool-cases (bearer a == bearer b)) [
  | inl e ↦
      let same = (eq_iff a b).1 (bearer_injective a b ((eq_iff (bearer a) (bearer b)).0 e)) in cc
  | inr e ↦ e
]

other_refused :
    (server : Server) (plane : Plane)
    → (server.admin_token == server.read_token) ≡ false
    → (bearer (token_of server (other_plane plane)) == bearer (token_of server plane)) ≡ false
other_refused server management h = bearer_differs server.read_token server.admin_token (
    ground (
      arith,
      eq_iff server.admin_token server.read_token,
      eq_iff server.read_token server.admin_token,
    ))
other_refused server reading h = bearer_differs server.admin_token server.read_token h

module _ (wire : Wire) (durable : Store) (actor : String) (encode : List ℕ → String)
    (hash_token : String → String)
    (read_audit : ℤ → durable.State → Result Error (List AuditEntry)) where
  open wire use {Bytes}

  module _ (server : Server) (now : ℕ) (raw : Result Error (List ℕ)) (r : Request Bytes)
      (s : Service durable) where
    serve-unauthorized :
        (route : Route) (plane : Plane)
        → plane_of route ≡ some plane
        → (r.authorization == bearer (token_of server plane)) ≡ false
        → serve wire durable actor encode hash_token read_audit server now raw r s route
          ≡ (write_json 401 refused, s)
    unfolding serve authorize
    serve-unauthorized health plane p h = cc
    serve-unauthorized post_claim management p h = rw h refl
    serve-unauthorized (post_revoke subdomain) management p h = rw h refl
    serve-unauthorized get_tunnels reading p h = rw h refl
    serve-unauthorized get_audit reading p h = rw h refl
    serve-unauthorized route plane p h = cc

    -- With a server that `New` made: a request to a route of one authority, management or reading, that
    -- carries the token of the other authority, is refused with status 401 and changes nothing.
    pub reader_cannot_manage :
        (a e : String) (plane : Plane)
        → new a e ≡ ok server
        → plane_of r.route ≡ some plane
        → r.authorization ≡ bearer (token_of server (other_plane plane))
        → handle wire durable actor encode hash_token read_audit server now raw r s
          ≡ (write_json 401 refused, s)
    unfolding handle
    reader_cannot_manage a e plane made p carried = serve-unauthorized r.route plane p (
        ap (λ t. t == bearer (token_of server plane)) carried
        ∙ other_refused server plane (tokens_differ a e server made))

in_limits-bounded :
    (o : Option ℤ) (limit : ℤ) → in_limits o ≡ ok limit → (pos 1 ≤ℤ limit) × (limit ≤ℤ pos 1000)
unfolding in_limits
in_limits-bounded none limit h = cc
in_limits-bounded (some asked) limit h =
    elim (Bool-cases (ltb_ℤ asked (pos 1) || ltb_ℤ (pos 1000) asked)) [
      | inl e ↦ let x = rw e at h in cc
      | inr e ↦
          let same : asked ≡ limit = let x = rw e at h in cc in
          subst (λ l. (pos 1 ≤ℤ l) × (l ≤ℤ pos 1000)) same (ground arith)
    ]

-- The limit of the audit that a request is answered with is between 1 and 1000.
audit_limit-bounded :
    (wire : Wire) (durable : Store) (text : String) (limit : ℤ)
    → audit_limit wire durable text ≡ ok limit
    → (pos 1 ≤ℤ limit) × (limit ≤ℤ pos 1000)
unfolding audit_limit
audit_limit-bounded wire durable text limit h = elim (Bool-cases (text == "")) [
  | inl e ↦
      let same : pos 50 ≡ limit = let x = rw e at h in cc in
      subst (λ l. (pos 1 ≤ℤ l) × (l ≤ℤ pos 1000)) same (ground arith)
  | inr e ↦ in_limits-bounded (wire.atoi text) limit (rw e at h)
]
