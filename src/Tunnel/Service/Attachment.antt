-- ===== src/Tunnel/Service/Attachment.antt =====
-- specimens/ingress-tunnel/internal/tunnel/tunnels.go: Attach, which installs a link for a claim, and
-- Lost, which reports that a link is gone.
use saas_reaper.Base.{
  ℕ, ◌+◌, ◌%◌, ◌^◌, String, Option, none, some, List, ◌∷◌, ◌==◌, if◌then◌else◌, Result, ok, err,
  ◌>>=◌, ◌>>◌, guard,
}
use saas_reaper.Base.Map.{insert, delete}
use saas_reaper.Tunnel.Lifecycle.{
  Error, unauthorized, claim_active, presence_live, event_connect, event_link_lost, AuditKind,
  generation_detail, agent,
}
use saas_reaper.Tunnel.Claim.{Claim, state}
use saas_reaper.Tunnel.Registry.{
  close_superseded, Link, Registry, attach, matches, detach, presence,
}
use saas_reaper.Tunnel.Store.{Store}
use saas_reaper.Tunnel.Service.{Connection, Service, entries, decide, takeover_allowed}

module _ (durable : Store) where
  open durable use {State}

  -- Attach

  unfoldable pub attach_decided :
      ℕ → Claim → Service durable → Claim → Result Error (List AuditKind)
  attach_decided now claim s current = do
    guard (current.token_hash == claim.token_hash) unauthorized
    takeover_allowed durable now claim.subdomain s
    decide (state current) (presence claim.subdomain s.live) event_connect

  unfoldable pub attach_plan : ℕ → Claim → Service durable → Result Error (List AuditKind)
  unfolding attach_decided
  attach_plan now claim s =
      durable.claim_by_subdomain claim.subdomain s.store >>= attach_decided now claim s

  unfoldable pub replaced :
      ℕ → String → ℕ → Option Link × Registry → Service durable → Service durable
  replaced now subdomain generation (none, live) s = record s {
    generation = generation;
    live = live;
  }
  replaced now subdomain generation (some previous, live) s = record s {
    generation = generation;
    live = live;
    superseded = insert subdomain now s.superseded;
    closed = (previous, close_superseded) ∷ s.closed;
  }

  unfoldable pub attach_written :
      ℕ
      → String
      → Link
      → ℕ
      → Result Error (Unit {0}) × State
      → Service durable
      → Result Error Connection × Service durable
  unfolding replaced
  attach_written now subdomain link generation (err e, t) s = (err e, record s { store = t })
  attach_written now subdomain link generation (ok u, t) s = (
    ok (record { subdomain = subdomain; generation = generation }),
    replaced now subdomain generation (attach subdomain link generation s.live)
        (record s { store = t }),
  )

  -- uint64 addition
  unfoldable pub next_generation : ℕ → ℕ
  next_generation generation = (generation + 1) % 2 ^ 64

  unfoldable pub attach_planned :
      ℕ
      → ℕ
      → String
      → Link
      → Result Error (List AuditKind)
      → Service durable
      → Result Error Connection × Service durable
  unfolding attach_written next_generation
  attach_planned written now subdomain link (err e) s = (err e, s)
  attach_planned written now subdomain link (ok kinds) s =
      let generation = next_generation s.generation in
      attach_written now subdomain link generation
        (durable.append_audit
          (entries kinds subdomain written (agent subdomain) (generation_detail generation))
          s.store)
        s

  -- The three readings of the clock: for the cooldown, for the rows, for a takeover.
  unfoldable pub attach_link :
      ℕ → ℕ → ℕ → Claim → Link → Service durable → Result Error Connection × Service durable
  unfolding attach_planned
  attach_link checked written now claim link s =
      attach_planned written now claim.subdomain link (attach_plan checked claim s) s

  -- Connection.Lost

  unfoldable pub lost_written :
      Connection
      → Result Error (Unit {0}) × State
      → Service durable
      → Result Error (Unit {0}) × Service durable
  lost_written c (err e, t) s = (err e, record s { store = t })
  lost_written c (ok u, t) s = (
    ok tt,
    record s {
      store = t;
      live = (detach c.subdomain c.generation s.live).1;
      superseded = delete c.subdomain s.superseded;
    },
  )

  unfoldable pub lost_planned :
      ℕ
      → Connection
      → Result Error (List AuditKind)
      → Service durable
      → Result Error (Unit {0}) × Service durable
  unfolding lost_written
  lost_planned now c (err e) s = (err e, s)
  lost_planned now c (ok kinds) s =
      lost_written c
        (durable.append_audit
          (entries kinds c.subdomain now (agent c.subdomain) (generation_detail c.generation))
          s.store)
        s

  unfoldable pub lost : ℕ → Connection → Service durable → Result Error (Unit {0}) × Service durable
  unfolding lost_planned
  lost now c s =
      if matches c.subdomain c.generation s.live
      then lost_planned now c (decide claim_active presence_live event_link_lost) s
      else (ok tt, s)
