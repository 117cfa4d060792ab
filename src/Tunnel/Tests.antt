-- ===== src/Tunnel/Tests.antt =====
-- The theorems of tunnels at concrete inputs, over the tables: one subdomain, claimed and connected
-- to twice. The codec and the hash are stand-ins.
use Prim.Native.String
use saas_reaper.Base.{
  Option, ℕ, String, ◌≡◌, ◌≢◌, ◌↔◌, ◌⊎◌, refl, true, false, none, some, List, [], ◌∷◌, ◌++◌, ok,
  err, arith,
}
use saas_reaper.Base.Map.{lookup, insert, values, has}
use saas_reaper.Base.Int64.{ℤ, pos, inc, ◌<ℤ◌}
use saas_reaper.Tunnel.Lifecycle.{
  Error, panicked, transition, claim_active, claim_revoked, presence_absent, presence_live,
  event_connect, event_revoke, Outcome, AuditEntry, audit_claimed, audit_connected, agent,
  generation_detail,
}
use saas_reaper.Tunnel.Lifecycle.Replay.{at, advance_all, transition-replays}
use saas_reaper.Tunnel.Claim.{Claim, state, validate_label, validate_subdomain, new_token}
use saas_reaper.Tunnel.Claim.Grammar.{IsLabel, IsReserved, validate_subdomain_iff}
use saas_reaper.Tunnel.Registry.{presence, attach}
use saas_reaper.Tunnel.Database.{
  Database, insert_claim, claim_by_subdomain, append_audit, revoke_claim,
}
use saas_reaper.Tunnel.Database.Laws.{database}
use saas_reaper.Tunnel.Database.Transactions.{revoke_claim_atomic}
use saas_reaper.Tunnel.Reconnect.{
  default_reconnect_delays, Schedule, new_schedule, delay, delay-positive, parse_delays,
  parse_delays-new_schedule,
}
use saas_reaper.Tunnel.Host.{host_subdomain, host_name, domain_suffix, host_subdomain-some}
use saas_reaper.Tunnel.Service.{Service, Connection, entries, takeover_allowed, decide}
use saas_reaper.Tunnel.Service.Attachment.{attach_link, attach_plan, lost}
use saas_reaper.Tunnel.Service.Invariant.{position, replayed}
use saas_reaper.Tunnel.Service.Runs.{
  Call, claim_call, attach_call, run, IsFresh, audit_replays, live_is_active, no_panic,
}
use saas_reaper.Tunnel.Service.Takeover.{stale_loss}

abbrev pub empty_tables : Database
empty_tables = record {
  tables = record { claims = []; audit = [] };
  plans = [];
  unreadable = false;
}

abbrev pub fresh : Service database
fresh = record { store = empty_tables; live = []; generation = 0; superseded = []; closed = [] }

abbrev pub encode : List ℕ → String
encode bytes = "token"

abbrev pub hash : String → String
hash token = token

abbrev pub demo : Claim
demo = record {
  subdomain = "demo";
  token_hash = "rtk_token";
  revision = pos 1;
  revoked = false;
  created_at = 1;
  revoked_at = 0;
}

abbrev pub calls : List Call
calls = claim_call 1 (ok []) "demo" ∷ attach_call 2 2 2 demo 7 ∷ attach_call 3 3 3 demo 8 ∷ []

abbrev pub served : Service database
served = run database "ann" encode hash fresh calls

pub fresh-IsFresh : IsFresh database "ann" encode hash fresh
unfolding lookup
fresh-IsFresh = record { no_links = refl; no_takeovers = refl }

-- A store that another process left when it crashed: its log says that a link is there.
abbrev crashed : Service database
crashed = record {
  store = record {
    tables = record {
      claims = ("demo", demo) ∷ [];
      audit =
          entries (audit_claimed ∷ audit_connected ∷ []) "demo" 1 (agent "demo")
            (generation_detail 1);
    };
    plans = [];
    unreadable = false;
  };
  live = [];
  generation = 0;
  superseded = [];
  closed = [];
}

crashed-IsFresh : IsFresh database "ann" encode hash crashed
crashed-IsFresh = record { no_links = refl; no_takeovers = refl }

abbrev restarted : Service database
restarted = run database "ann" encode hash crashed (attach_call 2 2 2 demo 7 ∷ [])

audit_replays_example :
    (rows : List AuditEntry) × ((database.log restarted.store ≡ database.log crashed.store ++ rows)
      × ((d : String)
          → replayed (position (database.claim_at crashed.store d) presence_absent) rows d
            ≡ position (database.claim_at restarted.store d) (presence d restarted.live)))
audit_replays_example =
    audit_replays database "ann" encode hash crashed (attach_call 2 2 2 demo 7 ∷ []) crashed-IsFresh

-- What the service is after the calls.
pub served_lem :
    (presence "demo" served.live ≡ presence_live)
    × (database.claim_at served.store "demo" ≡ some demo)
    × (database.claim_by_subdomain "demo" served.store ≡ ok demo)
    × (lookup "demo" served.superseded ≡ some 3)
unfolding run attach_plan insert_claim claim_by_subdomain append_audit presence lookup insert has
    values validate_subdomain new_token takeover_allowed transition decide state entries attach
served_lem = (refl, refl, refl, refl)

live_is_active_example :
    (c : Claim) × (database.claim_at served.store "demo" ≡ some c) × (c.revoked ≡ false)
live_is_active_example =
    live_is_active database "ann" encode hash fresh calls fresh-IsFresh "demo" served_lem.0

no_panic_example : decide (state demo) (presence "demo" served.live) event_revoke ≢ err panicked
no_panic_example =
    no_panic database "ann" encode hash fresh calls fresh-IsFresh "demo" demo event_revoke
      served_lem.1

abbrev once : Service database
once =
    run database "ann" encode hash fresh
      (claim_call 1 (ok []) "demo" ∷ attach_call 2 2 2 demo 7 ∷ [])

abbrev first : Connection
first = record { subdomain = "demo"; generation = 1 }

abbrev second : Connection
second = record { subdomain = "demo"; generation = 2 }

once_lem : (once.generation ≡ 1) × ((attach_link database 3 3 3 demo 8 once).0 ≡ ok second)
unfolding run attach_link attach_plan insert_claim claim_by_subdomain append_audit presence lookup
    insert has values validate_subdomain new_token takeover_allowed transition decide state entries
    attach
once_lem = (refl, refl)

stale_loss_example :
    lost database 5 first (attach_link database 3 3 3 demo 8 once).1
    ≡ (ok tt, (attach_link database 3 3 3 demo 8 once).1)
stale_loss_example =
    stale_loss database 3 3 3 demo 8 once second 5 first once_lem.1 refl (omega (arith, once_lem.0))
      (omega (arith, once_lem.0))

validate_subdomain_iff_example :
    (validate_subdomain "demo" ≡ ok tt) ↔ (IsLabel "demo" × (¬ IsReserved "demo"))
validate_subdomain_iff_example = validate_subdomain_iff "demo"

transition-replays_example :
    ((claim_active ≡ claim_revoked)
      × (presence_live ≡ presence_live)
      × (transition (record { claim = claim_active; presence = presence_live }) event_connect
          ≡ none))
    ⊎ ((o : Outcome) × (transition
            (record { claim = claim_active; presence = presence_live })
            event_connect
          ≡ some o)
        × (advance_all (at claim_active presence_live) o.audit
            ≡ at o.status.claim o.status.presence)
        × (o.error ≢ none
            → (o.audit ≡ [])
              × (o.status ≡ record { claim = claim_active; presence = presence_live }))
        × ((o.status.claim ≡ claim_revoked) → (o.status.presence ≡ presence_absent)))
transition-replays_example = transition-replays claim_active presence_live event_connect

abbrev one_claim : Database
one_claim = record {
  tables = record { claims = ("demo", demo) ∷ []; audit = [] };
  plans = [];
  unreadable = false;
}

revoke_claim_atomic_example :
    ((e : Error) × ((revoke_claim "demo" (pos 1) 5 [] one_claim).0 ≡ err e)
      × ((revoke_claim "demo" (pos 1) 5 [] one_claim).1.tables ≡ one_claim.tables))
    ⊎ ((old c : Claim) × ((revoke_claim "demo" (pos 1) 5 [] one_claim).0 ≡ ok c)
        × (lookup "demo" one_claim.tables.claims ≡ some old)
        × (old.revoked ≡ false)
        × (old.revision ≡ pos 1)
        × (c ≡ record old { revoked = true; revision = inc (pos 1); revoked_at = 5 })
        × ((revoke_claim "demo" (pos 1) 5 [] one_claim).1.tables ≡ record {
          claims = insert "demo" c one_claim.tables.claims;
          audit = one_claim.tables.audit ++ [];
        }))
revoke_claim_atomic_example = revoke_claim_atomic "demo" (pos 1) 5 [] one_claim

abbrev pub reconnect_schedule : Schedule
reconnect_schedule = record { delays = default_reconnect_delays }

pub default_accepted : new_schedule default_reconnect_delays ≡ ok reconnect_schedule
unfolding new_schedule
default_accepted = refl

-- The ninth attempt, beyond the end of the schedule.
delay-positive_example : (d : ℤ) × (delay reconnect_schedule (pos 9) ≡ some d) × (pos 0 <ℤ d)
delay-positive_example =
    delay-positive default_reconnect_delays reconnect_schedule (pos 9) default_accepted

abbrev parse_one : String → Option ℤ
parse_one s = some (pos 1)

abbrev one_part : String → List String
one_part s = s ∷ []

parsed_one : parse_delays parse_one hash one_part "1ns" ≡ ok (pos 1 ∷ [])
unfolding parse_delays
parsed_one = refl

parse_delays-new_schedule_example : new_schedule (pos 1 ∷ []) ≡ ok (record { delays = pos 1 ∷ [] })
parse_delays-new_schedule_example =
    parse_delays-new_schedule parse_one hash one_part "1ns" (pos 1 ∷ []) refl parsed_one

abbrev no_port : String → Option String
no_port s = none

demo_host : host_subdomain no_port hash "demo.example.com" "example.com" ≡ some "demo"
unfolding host_subdomain validate_label
demo_host = refl

host_subdomain-some_example :
    IsLabel "demo"
    × (host_name no_port hash "demo.example.com"
        ≡ String.◌++◌ "demo" (domain_suffix no_port hash "example.com"))
host_subdomain-some_example =
    host_subdomain-some no_port hash "demo.example.com" "example.com" "demo" demo_host
