-- ===== src/Tunnel/Service.antt =====
-- specimens/ingress-tunnel/internal/tunnel/tunnels.go: the service that composes the store and the
-- routing table under the lifecycle table. Its mutex makes each call one step. What a call decides
-- before its first write is a function of its own, into a `Result`.
-- The readings of the clock, the random bytes, the codec and the hash are arguments.
pub mod Attachment
pub mod Invariant
pub mod Claiming
pub mod Revoking
pub mod Attaching
pub mod Losing
pub mod Runs
pub mod Takeover
use saas_reaper.Base.{
  ℕ, ◌+◌, ◌*◌, ◌%◌, ◌^◌, String, Bool, true, false, not, Option, none, some, List, [], ◌∷◌, ◌++◌,
  map, ◌==◌, leb, if◌then◌else◌, Result, ok, err, ◌>>=◌, ◌>>◌, guard,
}
use saas_reaper.Base.Map.{Map, lookup, insert, delete}
use saas_reaper.Base.Int64.{ℤ, pos, inc, eqb_ℤ}
use saas_reaper.Tunnel.Lifecycle.{
  Error, conflict, not_found, unauthorized, panicked, ClaimState, claim_active, Presence,
  presence_absent, presence_live, Event, event_connect, event_link_lost, event_revoke, AuditKind,
  audit_claimed, Status, Outcome, Detail, revision_detail, generation_detail, Actor, manager, agent,
  AuditEntry, transition,
}
use saas_reaper.Tunnel.Claim.{Claim, state, new_token, validate_subdomain, validate_token}
use saas_reaper.Tunnel.Registry.{
  CloseReason, close_superseded, close_revoked, Link, Registry, attach, matches, detach, evict,
  presence,
}
use saas_reaper.Tunnel.Store.{Store}

-- one minute
abbrev pub supersede_cooldown : ℕ
supersede_cooldown = 60000000000

pub record Issued : Type 0 where
  pub claim : Claim
  pub token : String

pub record Connection : Type 0 where
  pub subdomain : String
  pub generation : ℕ

pub record View : Type 0 where
  pub subdomain : String
  pub revision : ℤ
  pub state : ClaimState
  pub presence : Presence
  pub created_at : ℕ
  pub revoked_at : ℕ

unfoldable pub entries : List AuditKind → String → ℕ → Actor → Detail → List AuditEntry
entries [] subdomain at actor detail = []
entries (kind ∷ kinds) subdomain at actor detail =
    record { at = at; subdomain = subdomain; kind = kind; actor = actor; detail = detail }
    ∷ entries kinds subdomain at actor detail

settle : Option Outcome → Result Error (List AuditKind)
settle none = err panicked
settle (some o) = elim o.error [ none ↦ ok o.audit | some e ↦ err e ]

-- The rows of the transition, or the error that it is refused with.
unfoldable pub decide : ClaimState → Presence → Event → Result Error (List AuditKind)
unfolding settle transition
decide claim presence event =
    settle (transition (record { claim = claim; presence = presence }) event)

module _ (durable : Store) where
  open durable use {State}

  -- `closed` lists the links that were closed, the latest first.
  pub record Service : Type 0 where
    pub store : State
    pub live : Registry
    pub generation : ℕ
    pub superseded : Map ℕ
    pub closed : List (Link × CloseReason)

  cooled : ℕ → Option ℕ → Result Error (Unit {0})
  cooled now none = ok tt
  cooled now (some since) = guard (leb (since + supersede_cooldown) now) conflict

  takeover_of : ℕ → Presence → Option ℕ → Result Error (Unit {0})
  unfolding cooled
  takeover_of now presence_absent since = ok tt
  takeover_of now presence_live since = cooled now since

  unfoldable pub takeover_allowed : ℕ → String → Service → Result Error (Unit {0})
  unfolding takeover_of
  takeover_allowed now subdomain s =
      takeover_of now (presence subdomain s.live) (lookup subdomain s.superseded)

  -- Claim

  module _ (actor : String) (encode : List ℕ → String) (hash_token : String → String) where
    claim_of : ℕ → String → String → Claim
    claim_of now subdomain token = record {
      subdomain = subdomain;
      token_hash = hash_token token;
      revision = pos 1;
      revoked = false;
      created_at = now;
      revoked_at = 0;
    }

    claim_issued :
        Claim → String → Result Error (Unit {0}) × State → Service → Result Error Issued × Service
    claim_issued claim token (err e, t) s = (err e, record s { store = t })
    claim_issued claim token (ok u, t) s =
        (ok (record { claim = claim; token = token }), record s { store = t })

    claim_with : ℕ → String → Result Error String → Service → Result Error Issued × Service
    unfolding claim_issued claim_of
    claim_with now subdomain (err e) s = (err e, s)
    claim_with now subdomain (ok token) s =
        let claim = claim_of now subdomain token in
        claim_issued claim token
          (durable.insert_claim claim
            (record {
              at = now;
              subdomain = subdomain;
              kind = audit_claimed;
              actor = manager actor;
              detail = revision_detail (pos 1);
            })
            s.store)
          s

    pub claim_tunnel : ℕ → Result Error (List ℕ) → String → Service → Result Error Issued × Service
    unfolding claim_with
    claim_tunnel now raw subdomain s =
        claim_with now subdomain (do validate_subdomain subdomain; new_token encode raw) s

  -- Revoke

  revoke_decided : ℤ → String → Registry → Claim → Result Error (List AuditKind)
  revoke_decided expected subdomain live claim = do
    guard (eqb_ℤ claim.revision expected) conflict
    decide (state claim) (presence subdomain live) event_revoke

  revoke_plan : String → ℤ → Service → Result Error (Claim × List AuditKind)
  unfolding revoke_decided
  revoke_plan subdomain expected s = do
    claim ← durable.claim_by_subdomain subdomain s.store
    kinds ← revoke_decided expected subdomain s.live claim
    ok (claim, kinds)

  evicted : String → Option Link × Registry → Service → Service
  evicted subdomain (none, live) s = record s { live = live }
  evicted subdomain (some link, live) s = record s {
    live = live;
    superseded = delete subdomain s.superseded;
    closed = (link, close_revoked) ∷ s.closed;
  }

  revoke_written : String → Result Error Claim × State → Service → Result Error Claim × Service
  unfolding evicted
  revoke_written subdomain (err e, t) s = (err e, record s { store = t })
  revoke_written subdomain (ok claim, t) s =
      (ok claim, evicted subdomain (evict subdomain s.live) (record s { store = t }))

  revoke_planned :
      String
      → ℕ
      → String
      → ℤ
      → Result Error (Claim × List AuditKind)
      → Service
      → Result Error Claim × Service
  unfolding revoke_written
  revoke_planned actor now subdomain expected (err e) s = (err e, s)
  revoke_planned actor now subdomain expected (ok (claim, kinds)) s =
      revoke_written subdomain
        (durable.revoke_claim subdomain expected now
          (entries kinds subdomain now (manager actor) (revision_detail (inc claim.revision)))
          s.store)
        s

  pub revoke : String → ℕ → String → ℤ → Service → Result Error Claim × Service
  unfolding revoke_planned
  revoke actor now subdomain expected s =
      revoke_planned actor now subdomain expected (revoke_plan subdomain expected s) s

  -- Authenticate; an unknown token is unauthorized
  known : Result Error Claim → Result Error Claim
  known (ok claim) = ok claim
  known (err not_found) = err unauthorized
  known (err e) = err e

  unfoldable pub authenticate :
      (String → Option (List ℕ)) → (String → String) → ℕ → String → Service → Result Error Claim
  unfolding known
  authenticate decode hash_token now token s = do
    validate_token decode token
    claim ← known (durable.claim_by_token_hash (hash_token token) s.store)
    guard (not claim.revoked) unauthorized
    takeover_allowed now claim.subdomain s
    ok claim

  -- Tunnels

  view : Registry → Claim → View
  view live claim = record {
    subdomain = claim.subdomain;
    revision = claim.revision;
    state = state claim;
    presence = presence claim.subdomain live;
    created_at = claim.created_at;
    revoked_at = claim.revoked_at;
  }

  pub tunnels : Service → Result Error (List View)
  unfolding view
  tunnels s = do claims ← durable.list_claims s.store; ok (map (view s.live) claims)
