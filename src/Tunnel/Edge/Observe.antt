-- ===== src/Tunnel/Edge/Observe.antt =====
-- specimens/ingress-tunnel/internal/edge/observe.go and proxy.go: what the edge records of an answer,
-- and the stream that a request is handed on over. The standard proxy is the calls that it makes of
-- the response, and whether it ends them by a panic.
pub mod Recorded
use saas_reaper.Base.{
  ℕ, zero, suc, ◌+◌, ◌^◌, ◌%◌, ◌≡◌, refl, sym, ◌∙◌, ap, Bool, true, false, not, ◌&&◌, ◌||◌, String,
  Option, none, some, List, [], ◌∷◌, ◌++◌, eqb, leb, ltb, if◌then◌else◌, inl, inr, Bool-cases,
  Result, ok, err, is_some, or_else, arith,
}
use saas_reaper.Tunnel.Registry.{Registry, Link}
use saas_reaper.Tunnel.Host.{host_subdomain}
use saas_reaper.Tunnel.Edge.{Net, Proxy, Request, Served, refuse, proxied, serve_resolved}

-- A call of the response; `write` is the number of bytes that were written, `hijack` whether it
-- succeeded.
pub data Call : Type 0 where
  write_header write : ℕ → Call
  flush : Call
  hijack : Bool → Call

-- The 64 bits of the count are kept as a number.
pub record Recorder : Type 0 where
  pub status : ℕ
  pub bytes : ℕ
  pub upgraded : Bool
  pub wrote : Bool

abbrev pub new_recorder : Recorder
new_recorder = record { status = 0; bytes = 0; upgraded = false; wrote = false }

unfoldable pub is_informational : ℕ → Bool
is_informational status = leb 100 status && ltb status 200 && not (eqb status 101)

abbrev pub settle : ℕ → Recorder → Recorder
settle status r = if r.wrote then r else record r { status = status; wrote = true }

unfoldable pub on_write_header : ℕ → Recorder → Recorder
on_write_header status r =
    if not r.wrote && not (is_informational status)
    then record r { status = status; wrote = true }
    else r

unfoldable pub on_write : ℕ → Recorder → Recorder
on_write n r = let settled = settle 200 r in record settled { bytes = (settled.bytes + n) % 2 ^ 64 }

unfoldable pub on_hijack : Bool → Recorder → Recorder
on_hijack false r = r
on_hijack true r = settle 101 (record r { upgraded = true })

unfoldable pub on_call : Call → Recorder → Recorder
on_call (write_header status) r = on_write_header status r
on_call (write n) r = on_write n r
on_call flush r = r
on_call (hijack done) r = on_hijack done r

unfoldable pub on_calls : List Call → Recorder → Recorder
on_calls [] r = r
on_calls (c ∷ calls) r = on_calls calls (on_call c r)

-- `length` is that of the encoded message.
abbrev pub refuse_calls : ℕ → ℕ → List Call
refuse_calls status length = write_header status ∷ write length ∷ []

-- Observation; the method of the request and the duration are left out.
pub record Observation : Type 0 where
  pub subdomain : String
  pub status : ℕ
  pub bytes : ℕ
  pub upgraded : Bool
  pub aborted : Bool
  pub peer : String

abbrev pub or_empty_text : Option String → String
or_empty_text none = ""
or_empty_text (some s) = s

-- Proxy.record, after the deferred recovery
unfoldable pub record_observation : Request → Option String → Recorder → Bool → Observation
record_observation r subdomain recorded aborted = record {
  subdomain = or_empty_text subdomain;
  status = recorded.status;
  bytes = recorded.bytes;
  upgraded = recorded.upgraded;
  aborted = aborted;
  peer = r.peer;
}

-- The calls that answer a request: the refusal, or those of the standard proxy over the link.
abbrev pub answer_calls : (Link → List Call × Bool) → ℕ → Served → List Call × Bool
answer_calls upstream length (refuse status) = (refuse_calls status length, false)
answer_calls upstream length (proxied subdomain link) = upstream link

unfoldable pub observe :
    Net → Proxy → Registry → (Link → List Call × Bool) → ℕ → Request → Observation
observe net proxy live upstream length r =
    let subdomain = host_subdomain net.split_host net.to_lower r.host proxy.domain in
    let (calls, aborted) = answer_calls upstream length (serve_resolved live subdomain) in
    record_observation r subdomain (on_calls calls new_recorder) aborted

-- Proxy.upstreamError: nothing is answered to a visitor who has gone.
abbrev pub upstream_error : (is_canceled : Bool) → ℕ → List Call
upstream_error true length = []
upstream_error false length = refuse_calls 502 length

-- StreamOpen, with whether it failed
pub record StreamOpen : Type 0 where
  pub subdomain : String
  pub failed : Bool

pub data DialError : Type 0 where
  no_route not_opened : DialError

abbrev pub opened_stream : {S : Type 0} → String → Option S → Result DialError S × List StreamOpen
opened_stream subdomain none =
    (err not_opened, record { subdomain = subdomain; failed = true } ∷ [])
opened_stream subdomain (some stream) =
    (ok stream, record { subdomain = subdomain; failed = false } ∷ [])

-- Proxy.dialRoute, with what the observer is told; `open_stream` is the link's Open.
unfoldable pub dial_route :
    {S : Type 0} → (Link → Option S) → Option (String × Link) → Result DialError S × List StreamOpen
dial_route open_stream none = (err no_route, [])
dial_route open_stream (some (subdomain, link)) = opened_stream subdomain (open_stream link)
