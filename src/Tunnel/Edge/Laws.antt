-- ===== src/Tunnel/Edge/Laws.antt =====
-- Where the edge of specimens/ingress-tunnel/internal/edge/proxy.go hands a request to.
use saas_reaper.Base.{
  String, ◌≡◌, refl, sym, ap, ◌∙◌, inl, inr, false, Option, none, some, List, Option-cases, ℕ,
}
use saas_reaper.Tunnel.Lifecycle.{presence_live}
use saas_reaper.Tunnel.Claim.{Claim}
use saas_reaper.Tunnel.Registry.{Registry, Link, lookup_link, presence}
use saas_reaper.Tunnel.Host.{host_subdomain}
use saas_reaper.Tunnel.Edge.{Net, Proxy, Request, proxied, serve, serve_resolved, serve_http}
use saas_reaper.Tunnel.Store.{Store}
use saas_reaper.Tunnel.Service.{Service}
use saas_reaper.Tunnel.Service.Runs.{Call, run, IsFresh, live_is_active}

module _ (net : Net) where
  open net use {to_lower, split_host}

  resolved :
      (live : Registry) (o : Option String) (d : String) (link : Link)
      → serve_resolved live o ≡ proxied d link
      → (o ≡ some d) × (lookup_link d live ≡ some link)
  unfolding serve_resolved serve
  resolved live none d link h = cc
  resolved live (some e) d link h = elim (Option-cases (lookup_link e live)) [
    | inl x ↦ let y = rw x at h in cc
    | inr (l, x) ↦
        let y = rw x at h in
        let same : e ≡ d = cc in
        let one : l ≡ link = cc in
        (ap some same, ap (λ e. lookup_link e live) (sym same) ∙ (x ∙ ap some one))
  ]

  presence_served :
      (d : String) (live : Registry) (link : Link)
      → lookup_link d live ≡ some link
      → presence d live ≡ presence_live
  unfolding presence
  presence_served d live link h = rw h refl

  module _ (durable : Store) (actor : String) (encode : List ℕ → String)
      (hash_token : String → String) where
    open durable use {claim_at}

    -- From a service just started over any store, after any calls, successful or not, in any order: a request
    -- that the edge hands on goes to the link that serves the tunnel of its host, and the claim of
    -- that tunnel is there and is not revoked.
    pub proxied_is_active :
        (s : Service durable) (calls : List Call)
        → IsFresh durable actor encode hash_token s
        → (proxy : Proxy) (r : Request) (d : String) (link : Link)
        → serve_http net proxy (run durable actor encode hash_token s calls).live r ≡ proxied d link
        → (host_subdomain split_host to_lower r.host proxy.domain ≡ some d)
          × (lookup_link d (run durable actor encode hash_token s calls).live ≡ some link)
          × ((c : Claim) × (claim_at (run durable actor encode hash_token s calls).store d ≡ some c)
              × (c.revoked ≡ false))
    unfolding serve_http
    proxied_is_active s calls fresh proxy r d link h =
        let live = (run durable actor encode hash_token s calls).live in
        let (named, served) = resolved live _ d link h in
        (
          named,
          served,
          live_is_active durable actor encode hash_token s calls fresh d
              (presence_served d live link served),
        )
