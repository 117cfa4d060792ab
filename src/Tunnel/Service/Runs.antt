-- ===== src/Tunnel/Service/Runs.antt =====
-- Histories of calls of a tunnel service, in any order.
use saas_reaper.Base.{
  ℕ, String, ◌≡◌, ◌≢◌, inl, inr, refl, sym, ap, ◌∙◌, false, some, List, [], ◌∷◌, ◌++◌, Result, err,
  arith, Option-cases,
}
use saas_reaper.Base.Map.{lookup}
use saas_reaper.Base.Int64.{ℤ}
use saas_reaper.Tunnel.Lifecycle.{
  Error, panicked, ClaimState, claim_revoked, Presence, presence_absent, presence_live, Event,
  AuditEntry,
}
use saas_reaper.Tunnel.Claim.{Claim, state}
use saas_reaper.Tunnel.Registry.{Link, presence}
use saas_reaper.Tunnel.Store.{Store}
use mathlib.Core.List.{append-nil}
use saas_reaper.Tunnel.Service.{Service, Connection, decide, claim_tunnel, revoke}
use saas_reaper.Tunnel.Service.Attachment.{attach_link, lost}
use saas_reaper.Tunnel.Service.Invariant.{Inv, position, presence_lem, replayed}
use saas_reaper.Tunnel.Service.Claiming.{claim_tunnel-Inv}
use saas_reaper.Tunnel.Service.Revoking.{revoke-Inv}
use saas_reaper.Tunnel.Service.Attaching.{attach_link-Inv}
use saas_reaper.Tunnel.Service.Losing.{lost-Inv}

-- A call, with the clock readings and random bytes that it meets.
pub data Call : Type 0 where
  claim_call : ℕ → Result Error (List ℕ) → String → Call
  revoke_call : ℕ → String → ℤ → Call
  attach_call : ℕ → ℕ → ℕ → Claim → Link → Call
  lost_call : ℕ → Connection → Call

-- Only a revoked claim with a live link is a panic.
decide-panicked :
    (c : ClaimState) (p : Presence) (e : Event)
    → decide c p e ≡ err panicked
    → (c ≡ claim_revoked) × (p ≡ presence_live)
unfolding decide
decide-panicked c p e h = ground arith

state_revoked : (c : Claim) → state c ≡ claim_revoked → c.revoked ≡ false → ⊥
unfolding state
state_revoked c h k = ground arith

module _ (durable : Store) (actor : String) (encode : List ℕ → String)
    (hash_token : String → String) where
  open durable use {State, claim_at, log}

  -- The service after a call, whether it succeeds or fails.
  unfoldable pub after_call : Service durable → Call → Service durable
  unfolding claim_tunnel revoke attach_link lost
  after_call s (claim_call now raw d) = (claim_tunnel durable actor encode hash_token now raw d s).1
  after_call s (revoke_call now d expected) = (revoke durable actor now d expected s).1
  after_call s (attach_call checked written now claim link) =
      (attach_link durable checked written now claim link s).1
  after_call s (lost_call now c) = (lost durable now c s).1

  unfoldable pub run : Service durable → List Call → Service durable
  unfolding after_call
  run s [] = s
  run s (call ∷ calls) = run (after_call s call) calls

  after_call-Inv :
      (start : State) (s : Service durable) (call : Call)
      → Inv durable start s
      → Inv durable start (after_call s call)
  unfolding after_call
  after_call-Inv start s (claim_call now raw d) inv =
      claim_tunnel-Inv durable actor encode hash_token start now raw d s inv
  after_call-Inv start s (revoke_call now d expected) inv =
      revoke-Inv durable start actor now d expected s inv
  after_call-Inv start s (attach_call checked written now claim link) inv =
      attach_link-Inv durable start checked written now claim link s inv
  after_call-Inv start s (lost_call now c) inv = lost-Inv durable start now c s inv

  run-Inv :
      (start : State) (s : Service durable) (calls : List Call)
      → Inv durable start s
      → Inv durable start (run s calls)
  unfolding run
  run-Inv start s [] inv = inv
  run-Inv start s (call ∷ calls) inv =
      run-Inv start (after_call s call) calls (after_call-Inv start s call inv)

  -- A service that was just started, over any store: no link is there, and no takeover is remembered.
  pub record IsFresh (s : Service durable) : Type 0 where
    pub no_links : s.live ≡ []
    pub no_takeovers : s.superseded ≡ []

  IsFresh-Inv : (s : Service durable) → IsFresh s → Inv durable s.store s
  unfolding lookup
  IsFresh-Inv s fresh = record {
    live_active = λ d a h. let x = rw fresh.no_links at h in cc;
    superseded_live = λ d t h. let x = rw fresh.no_takeovers at h in cc;
    added = [];
    logged = sym (append-nil (log s.store));
    audited = λ d. rw fresh.no_links refl;
  }

  module _ (s : Service durable) (calls : List Call) (fresh : IsFresh s) where
    -- From a service just started over any store, after any calls, successful or not, in any order:
    -- the audit log is the one it started with, followed by rows which, read in order, lead each
    -- subdomain from its claim as it was, with no link, to the state of its claim and to whether a
    -- link serves it now.
    pub audit_replays :
        (rows : List AuditEntry) × ((log (run s calls).store ≡ log s.store ++ rows)
          × ((d : String)
              → replayed (position (claim_at s.store d) presence_absent) rows d
                ≡ position (claim_at (run s calls).store d) (presence d (run s calls).live)))
    audit_replays =
        let inv = run-Inv s.store s calls (IsFresh-Inv s fresh) in
        (
          inv.added,
          (
            inv.logged,
            λ d.
                inv.audited d
                ∙ ap (position (claim_at (run s calls).store d))
                    (sym (presence_lem d (run s calls).live)),
          ),
        )

    -- From a service just started over any store, after any calls, successful or not, in any order: a
    -- subdomain that a link serves has a claim that is not revoked.
    pub live_is_active :
        (d : String)
        → presence d (run s calls).live ≡ presence_live
        → (c : Claim) × (claim_at (run s calls).store d ≡ some c) × (c.revoked ≡ false)
    live_is_active d h = elim (Option-cases (lookup d (run s calls).live)) [
      | inl e ↦
          let x : presence_live ≡ presence_absent =
            sym h ∙ (presence_lem d (run s calls).live ∙ rw e refl) in
          cc
      | inr (a, e) ↦ (run-Inv s.store s calls (IsFresh-Inv s fresh)).live_active d a e
    ]

    -- From a service just started over any store, after any calls, in any order: no event that the
    -- service puts to the lifecycle table for a stored claim is one that the table panics on.
    pub no_panic :
        (d : String) (c : Claim) (event : Event)
        → claim_at (run s calls).store d ≡ some c
        → decide (state c) (presence d (run s calls).live) event ≢ err panicked
    no_panic d c event here h =
        let (revoked', live') = decide-panicked (state c) (presence d (run s calls).live) event h in
        let (c', there, alive) = live_is_active d live' in
        let same : c' ≡ c = cc in
        let x : c.revoked ≡ false = rw (← same) alive in state_revoked c revoked' x
