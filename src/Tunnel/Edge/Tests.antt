-- ===== src/Tunnel/Edge/Tests.antt =====
-- The theorems of the edge and of the agent at concrete inputs: a tunnel with a link, a visitor that
-- sends forged headers, and a run that loses a link and a dial.
use saas_reaper.Base.{
  String, ◌≡◌, ◌↔◌, refl, sym, ap, ◌∙◌, true, false, none, some, List, [], ◌∷◌, ◌==◌, eq_iff,
  or_empty, if◌then◌else◌, arith, All,
}
use saas_reaper.Base.Map.{lookup, insert, lookup-insert, has, values}
use saas_reaper.Base.Int64.{pos}
use saas_reaper.Tunnel.Lifecycle.{transition}
use saas_reaper.Tunnel.Claim.{Claim, state, validate_label, validate_subdomain, new_token}
use saas_reaper.Tunnel.Registry.{lookup_link, attach, presence}
use saas_reaper.Tunnel.Host.{host_subdomain}
use saas_reaper.Tunnel.Reconnect.{default_reconnect_delays}
use saas_reaper.Tunnel.Agent.{
  Round, linked, dial_error, panicked, IsRunning, IsTransient, run_ends_iff, IsPositive,
}
use saas_reaper.Tunnel.Agent
use saas_reaper.Tunnel.Service.{takeover_allowed, entries}
use saas_reaper.Tunnel.Service.Attachment.{attach_plan}
use saas_reaper.Tunnel.Service
use saas_reaper.Tunnel.Service.Runs.{run}
use saas_reaper.Tunnel.Database.{insert_claim, claim_by_subdomain, append_audit}
use saas_reaper.Tunnel.Database.Laws.{database}
use saas_reaper.Base.{◌%◌, ◌^◌, Bool, true}
use saas_reaper.Tunnel.Registry.{Link}
use saas_reaper.Tunnel.Edge.Observe.{Call, write_header, write, observe, answer_calls}
use saas_reaper.Tunnel.Edge.Observe.Recorded.{
  sent_status, bytes_written, or_zero, observation_is_sent,
}
use saas_reaper.Tunnel.Edge.{
  Net, Headers, Proxy, Request, proxied, serve_http, serve_resolved, serve, rewrite, forwarded_for,
}
use saas_reaper.Tunnel.Edge.Laws.{proxied_is_active}
use saas_reaper.Tunnel.Edge.Headers.{is_triple, visitor_cannot_forge, no_alias_passes}
use saas_reaper.Tunnel.Tests.{
  fresh, encode, hash, calls, served, fresh-IsFresh, default_accepted, reconnect_schedule,
}

abbrev lower : String → String
lower s = if s == forwarded_for then "x-forwarded-for" else s

abbrev chain_of : String → Headers → List String
chain_of peer h = peer ∷ or_empty (lookup forwarded_for h)

abbrev stamp : String → String → Headers → Headers
stamp peer host h = insert forwarded_for (chain_of peer h) h

stamp_chain :
    (peer host : String) (h k : Headers)
    → lookup forwarded_for h ≡ lookup forwarded_for k
    → lookup forwarded_for (stamp peer host h) ≡ lookup forwarded_for (stamp peer host k)
stamp_chain peer host h k e =
    lookup-insert forwarded_for forwarded_for (chain_of peer h) h
    ∙ (ap (λ o. some (peer ∷ or_empty o)) e
        ∙ sym (lookup-insert forwarded_for forwarded_for (chain_of peer k) k))

stamp_other :
    (peer host name : String) (h : Headers)
    → is_triple name ≡ false
    → lookup name (stamp peer host h) ≡ lookup name h
stamp_other peer host name h t =
    rw (lookup-insert forwarded_for name (chain_of peer h) h)
      (ground (arith, eq_iff forwarded_for name, eq_iff name forwarded_for))

abbrev net : Net
net = record {
  to_lower = lower;
  canonical = λ name. name;
  split_host = some;
  is_loopback = λ host. host == "127.0.0.1";
  set_forwarded = stamp;
  lower_for = refl;
  canonical_for = refl;
  canonical_proto = refl;
  set_chain = stamp_chain;
  set_other = stamp_other;
}

abbrev proxy : Proxy
proxy = record { domain = "example.com"; forward = "https" }

abbrev visit : Headers → Request
visit headers = record { host = "demo.example.com"; peer = "10.0.0.9"; headers = headers }

abbrev forged : Headers
forged = (forwarded_for, "1.2.3.4" ∷ []) ∷ ("X-Real-IP", "1.2.3.4" ∷ []) ∷ []

handed_on : serve_http net proxy served.live (visit forged) ≡ proxied "demo" 8
unfolding serve_http serve_resolved serve host_subdomain validate_label lookup_link run attach_plan
    insert_claim claim_by_subdomain append_audit lookup insert has values validate_subdomain
    new_token takeover_allowed transition state entries attach presence Service.decide
handed_on = refl

proxied_is_active_example :
    (host_subdomain some lower "demo.example.com" "example.com" ≡ some "demo")
    × (lookup_link "demo" served.live ≡ some 8)
    × ((c : Claim) × (database.claim_at served.store "demo" ≡ some c) × (c.revoked ≡ false))
proxied_is_active_example =
    proxied_is_active net database "ann" encode hash fresh calls fresh-IsFresh proxy (visit forged)
      "demo" 8 handed_on

visitor_cannot_forge_example :
    lookup forwarded_for (rewrite net proxy (visit forged) forged)
    ≡ lookup forwarded_for (rewrite net proxy (visit []) [])
visitor_cannot_forge_example =
    visitor_cannot_forge net proxy (visit forged) (visit []) forged [] refl refl refl

no_alias_passes_example : lookup "X-Real-IP" (rewrite net proxy (visit forged) forged) ≡ none
no_alias_passes_example = no_alias_passes net proxy (visit forged) forged "X-Real-IP" refl refl refl

abbrev rounds : List Round
rounds =
    record { is_done = false; dialed = linked false; waited = true }
    ∷ record { is_done = false; dialed = dial_error false; waited = true }
    ∷ record { is_done = false; dialed = dial_error true; waited = true }
    ∷ []

run_ends_iff_example :
    IsRunning (Agent.run reconnect_schedule (pos 0) rounds).1 ↔ All IsTransient rounds
run_ends_iff_example =
    run_ends_iff default_reconnect_delays reconnect_schedule (pos 0) rounds default_accepted

-- An early hint, the answer, and a copy that fails.
abbrev origin : Link → List Call × Bool
origin link = (write_header 103 ∷ write_header 201 ∷ write 5 ∷ [], true)

observation_is_sent_example :
    let seen = observe net proxy served.live origin 9 (visit forged) in
    (seen.status
      ≡ or_zero
          (sent_status (answer_calls origin 9 (serve_http net proxy served.live (visit forged))).0))
    × ((seen.bytes % 2 ^ 64
          ≡ bytes_written
              (answer_calls origin 9 (serve_http net proxy served.live (visit forged))).0
            % 2 ^ 64)
        × (seen.aborted
            ≡ (answer_calls origin 9 (serve_http net proxy served.live (visit forged))).1))
observation_is_sent_example = observation_is_sent net proxy served.live origin 9 (visit forged)
