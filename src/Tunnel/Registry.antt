-- ===== src/Tunnel/Registry.antt =====
-- specimens/ingress-tunnel/internal/tunnel/registry.go: the routing table. A link is named by a
-- number. Each method holds the table's lock from beginning to end.
use saas_reaper.Base.{ℕ, String, Bool, true, false, [], ◌∷◌, Option, none, some, eqb, if◌then◌else◌}
use saas_reaper.Base.Map.{Map, lookup, insert, delete}
use saas_reaper.Tunnel.Lifecycle.{Presence, presence_absent, presence_live}
use mathlib.Core.Option

pub data CloseReason : Type 0 where
  close_superseded close_revoked close_shutdown : CloseReason

abbrev pub Link : Type 0
Link = ℕ

pub record Attachment : Type 0 where
  pub link : Link
  pub generation : ℕ

abbrev pub Registry : Type 0
Registry = Map Attachment

abbrev pub link_of : Attachment → Link
link_of a = a.link

-- The earlier link, if there was one, and the new table.
unfoldable pub attach : String → Link → ℕ → Registry → Option Link × Registry
attach subdomain link generation live = (
  Option.map link_of (lookup subdomain live),
  insert subdomain (record { link = link; generation = generation }) live,
)

abbrev pub has_generation : ℕ → Option Attachment → Bool
has_generation generation none = false
has_generation generation (some current) = eqb current.generation generation

unfoldable pub matches : String → ℕ → Registry → Bool
matches subdomain generation live = has_generation generation (lookup subdomain live)

unfoldable pub detach : String → ℕ → Registry → Bool × Registry
detach subdomain generation live =
    if has_generation generation (lookup subdomain live)
    then (true, delete subdomain live)
    else (false, live)

abbrev pub evict_found : String → Option Attachment → Registry → Option Link × Registry
evict_found subdomain none live = (none, live)
evict_found subdomain (some current) live = (some current.link, delete subdomain live)

unfoldable pub evict : String → Registry → Option Link × Registry
evict subdomain live = evict_found subdomain (lookup subdomain live) live

unfoldable pub lookup_link : String → Registry → Option Link
lookup_link subdomain live = Option.map link_of (lookup subdomain live)

abbrev presence_of : Option Link → Presence
presence_of none = presence_absent
presence_of (some link) = presence_live

unfoldable pub presence : String → Registry → Presence
unfolding lookup_link
presence subdomain live = presence_of (lookup_link subdomain live)

-- Live: the subdomains with a link, as a set.
live_subdomains : Registry → Map (Unit {0})
live_subdomains [] = []
live_subdomains ((subdomain, attached) ∷ live) = insert subdomain tt (live_subdomains live)
