-- ===== src/Tunnel/Edge.antt =====
-- specimens/ingress-tunnel/internal/edge/proxy.go: which link a public request is handed to, and the
-- headers that it is handed on with. The proxying itself is the standard library's; the parameter
-- `net` has what the code uses of it.
pub mod Laws
pub mod Headers
pub mod Observe
mod Tests
use saas_reaper.Base.{
  ℕ, String, ◌≡◌, Bool, true, false, not, ◌&&◌, ◌||◌, Option, none, some, List, [], ◌∷◌, ◌==◌,
  is_some, if◌then◌else◌, Result, ok, err, ◌>>=◌, ◌>>◌, guard,
}
use saas_reaper.Base.Map.{Map, lookup, insert, delete}
use saas_reaper.Base.Text.{is_blank, after_prefix}
use saas_reaper.Base.Int64.{ℤ, pos, leb_ℤ}
use saas_reaper.Tunnel.Registry.{Registry, Link, lookup_link}
use saas_reaper.Tunnel.Host.{host_subdomain}

-- Header names and their values.
abbrev pub Headers : Type 0
Headers = Map (List String)

abbrev pub forwarded_for : String
forwarded_for = "X-Forwarded-For"

abbrev pub forwarded_proto : String
forwarded_proto = "X-Forwarded-Proto"

pub record Net : Type 0 where
  pub to_lower : String → String
  pub canonical : String → String
  pub split_host : String → Option String
  -- an IP address that is a loopback one
  pub is_loopback : String → Bool
  -- SetXForwarded, of the peer's address, the host and the outgoing headers
  pub set_forwarded : String → String → Headers → Headers
  pub lower_for : to_lower forwarded_for ≡ "x-forwarded-for"
  pub canonical_for : canonical forwarded_for ≡ forwarded_for
  pub canonical_proto : canonical forwarded_proto ≡ forwarded_proto
  -- the chain that it writes is decided by the peer and the chain that was there
  pub set_chain :
      (peer host : String) (h k : Headers)
      → lookup forwarded_for h ≡ lookup forwarded_for k
      → lookup forwarded_for (set_forwarded peer host h)
        ≡ lookup forwarded_for (set_forwarded peer host k)
  -- it writes the three headers of the forwarded triple only
  pub set_other :
      (peer host name : String) (h : Headers)
      → (name == forwarded_for || name == "X-Forwarded-Host" || name == forwarded_proto) ≡ false
      → lookup name (set_forwarded peer host h) ≡ lookup name h

pub data ProxyError : Type 0 where
  no_domain bad_protocol bad_timeout : ProxyError

pub record Proxy : Type 0 where
  pub domain : String
  pub forward : String

pub record Request : Type 0 where
  pub host : String
  pub peer : String
  pub headers : Headers

-- What is answered here, or the link that the request is handed to.
pub data Served : Type 0 where
  refuse : (status : ℕ) → Served
  proxied : (subdomain : String) → Link → Served

abbrev pub aliases : List String
aliases =
    "Forwarded" ∷ "X-Real-IP" ∷ "X-Client-IP" ∷ "Client-IP" ∷ "True-Client-IP" ∷ "CF-Connecting-IP"
    ∷ "CF-Connecting-IPv6" ∷ "Fastly-Client-IP" ∷ "X-Cluster-Client-IP" ∷ "X-Originating-IP"
    ∷ "X-Remote-IP" ∷ "X-Remote-Addr" ∷ "X-Original-Forwarded-For" ∷ "Front-End-Https"
    ∷ "X-Url-Scheme" ∷ []

-- p.router.Lookup
unfoldable pub serve : String → Option Link → Served
serve subdomain none = refuse 502
serve subdomain (some link) = proxied subdomain link

unfoldable pub serve_resolved : Registry → Option String → Served
unfolding serve
serve_resolved live none = refuse 404
serve_resolved live (some subdomain) = serve subdomain (lookup_link subdomain live)

unfoldable pub add_chain : Option (List String) → Headers → Headers
add_chain none out = out
add_chain (some []) out = out
add_chain (some (value ∷ values)) out = insert forwarded_for (value ∷ values) out

module _ (net : Net) where
  open net use {to_lower, canonical, split_host, is_loopback, set_forwarded}

  pub new : String → String → ℤ → Result ProxyError Proxy
  new domain forward header_timeout = do
    guard (not (is_blank domain)) no_domain
    guard (forward == "http" || forward == "https") bad_protocol
    guard (not (leb_ℤ header_timeout (pos 0))) bad_timeout
    ok (record { domain = to_lower domain; forward = forward })

  unfoldable pub serve_http : Proxy → Registry → Request → Served
  unfolding serve_resolved
  serve_http proxy live r =
      serve_resolved live (host_subdomain split_host to_lower r.host proxy.domain)

  abbrev pub peer_of : Option String → Bool
  peer_of none = false
  peer_of (some host) = is_loopback host

  -- Whether the peer is a front on the same host.
  abbrev pub is_trusted : String → Bool
  is_trusted remote = peer_of (split_host remote)

  unfoldable pub trusted_forwarded_for : Request → Option (List String)
  trusted_forwarded_for r =
      if is_trusted r.peer then lookup (canonical forwarded_for) r.headers else none

  abbrev pub is_forwarded : String → Bool
  is_forwarded name = is_some (after_prefix (to_lower name) "x-forwarded-")

  -- The loop over the names that the map has.
  unfoldable pub strip_forwarded : Headers → Headers → Headers
  strip_forwarded [] h = h
  strip_forwarded ((name, values) ∷ names) h =
      strip_forwarded names (if is_forwarded name then delete (canonical name) h else h)

  unfoldable pub strip_names : List String → Headers → Headers
  strip_names [] h = h
  strip_names (name ∷ names) h = strip_names names (delete (canonical name) h)

  unfoldable pub strip_forwarding_aliases : Headers → Headers
  unfolding strip_forwarded strip_names
  strip_forwarding_aliases h = strip_names aliases (strip_forwarded h h)

  -- `out` has the outgoing headers that the standard proxy starts with.
  unfoldable pub rewrite : Proxy → Request → Headers → Headers
  unfolding trusted_forwarded_for strip_forwarding_aliases add_chain
  rewrite proxy r out =
      let chained = add_chain (trusted_forwarded_for r) (strip_forwarding_aliases out) in
      insert (canonical forwarded_proto) (proxy.forward ∷ []) (set_forwarded r.peer r.host chained)
