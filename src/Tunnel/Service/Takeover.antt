-- ===== src/Tunnel/Service/Takeover.antt =====
-- Takeovers: who may replace a live link, what it does to the earlier one, and what becomes of the
-- earlier one's report of its loss.
use saas_reaper.Base.{
  ℕ, ◌+◌, ◌^◌, ◌<◌, ◌≤◌, String, ◌≡◌, inl, inr, refl, false, Option, none, some, eq_refl, Result,
  ok, err, arith, Result-cases, eqb,
}
use saas_reaper.Base.Map.{lookup, insert, lookup-insert}
use saas_reaper.Tunnel.Lifecycle.{Error, agent, generation_detail}
use saas_reaper.Tunnel.Claim.{Claim}
use saas_reaper.Tunnel.Registry.{Link, Registry, link_of, attach, matches}
use saas_reaper.Tunnel.Store.{Store}
use saas_reaper.Tunnel.Service.{entries, Service, Connection}
use saas_reaper.Tunnel.Service.Attachment.{
  replaced, next_generation, attach_plan, attach_written, attach_planned, attach_link, lost,
}
use mathlib.Core.Option

module _ (durable : Store) where
  open durable use {State, claim_at, log}

  module _ (checked written now : ℕ) (claim : Claim) (link : Link) (s : Service durable) where
    abbrev outcome : Result Error Connection × Service durable
    outcome = attach_link durable checked written now claim link s

  replaced_live :
      (now : ℕ) (d : String) (generation : ℕ) (o : Option Link) (live : Registry)
      (s : Service durable)
      → (replaced durable now d generation (o, live) s).live ≡ live
  unfolding replaced
  replaced_live now d generation none live s = refl
  replaced_live now d generation (some previous) live s = refl

  -- What a recorded connect leaves.
  recorded :
      (now : ℕ) (d : String) (link : Link) (generation : ℕ) (s : Service durable)
      (r : Result Error (Unit {0})) (t : State) (c : Connection)
      → (attach_written durable now d link generation (r, t) s).0 ≡ ok c
      → (attach_written durable now d link generation (r, t) s).1.live
        ≡ insert d (record { link = link; generation = generation }) s.live
  unfolding attach_written attach
  recorded now d link generation s (ok u) t c h =
      replaced_live now d generation (Option.map link_of (lookup d s.live))
        (insert d (record { link = link; generation = generation }) s.live) (record s { store = t })
  recorded now d link generation s (err e) t c h = cc

  -- After a connect that succeeds, its link serves the subdomain, under the next generation, and
  -- the other subdomains are served as before.
  attached_live :
      (checked written now : ℕ) (claim : Claim) (link : Link) (s : Service durable) (c : Connection)
      → (attach_link durable checked written now claim link s).0 ≡ ok c
      → (attach_link durable checked written now claim link s).1.live
        ≡ insert claim.subdomain
            (record { link = link; generation = next_generation durable s.generation })
            s.live
  unfolding attach_link attach_planned
  attached_live checked written now claim link s c h =
      elim (Result-cases (attach_plan durable checked claim s)) [
        | inl (kinds, e) ↦
            let d = claim.subdomain in
            let g = next_generation durable s.generation in
            let w =
              durable.append_audit (entries kinds d written (agent d) (generation_detail g))
                s.store in
            rw e (recorded now d link g s w.0 w.1 c (let x = rw e at h in x))
        | inr (x, e) ↦ let y = rw e at h in cc
      ]

  next_is_new : (n m : ℕ) → n ≤ m → m + 1 < 2 ^ 64 → eqb (next_generation durable m) n ≡ false
  unfolding next_generation
  next_is_new n m h k = ground arith

  module _ (checked written now : ℕ) (claim : Claim) (link : Link) (s : Service durable)
      (c : Connection) where
    abbrev taken : Service durable
    taken = (attach_link durable checked written now claim link s).1

    -- When a connect succeeds, the report that any connection of an earlier generation on the same
    -- subdomain was lost is accepted and changes nothing: the new link stays, and no row is added.
    -- The generations before the last uint64 are meant.
    pub stale_loss :
        (later : ℕ) (earlier : Connection)
        → (attach_link durable checked written now claim link s).0 ≡ ok c
        → earlier.subdomain ≡ claim.subdomain
        → earlier.generation ≤ s.generation
        → s.generation + 1 < 2 ^ 64
        → lost durable later earlier taken ≡ (ok tt, taken)
    unfolding lost matches
    stale_loss later earlier h same old bound =
        rw
          (
            attached_live checked written now claim link s c h,
            lookup-insert claim.subdomain earlier.subdomain
                (record { link = link; generation = next_generation durable s.generation }) s.live,
            same,
            eq_refl claim.subdomain,
            next_is_new earlier.generation s.generation old bound,
          )
          refl
