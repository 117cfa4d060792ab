-- ===== src/Tunnel/Edge/Observe/Recorded.antt =====
-- specimens/ingress-tunnel/internal/edge/observe.go: what is recorded is what the visitor was sent.
use saas_reaper.Base.{
  ℕ, ◌+◌, ◌^◌, ◌%◌, ◌≡◌, refl, ◌∙◌, ap, Bool, true, false, not, ◌||◌, Option, none, some, List, [],
  ◌∷◌, if◌then◌else◌, inl, inr, Bool-cases, or_else, eqb, leb, ltb, arith,
}
use saas_reaper.Tunnel.Registry.{Registry, Link}
use saas_reaper.Tunnel.Host.{host_subdomain}
use saas_reaper.Tunnel.Edge.{Net, Proxy, Request, serve_http, serve_resolved}
use saas_reaper.Tunnel.Edge.Observe.{
  Call, write_header, write, flush, hijack, Recorder, is_informational, on_write_header, on_write,
  on_hijack, on_call, on_calls, observe, record_observation, answer_calls,
}

-- What net/http documents of a status: the ones from 100 on and below 200 come before an answer, but
-- for 101, which is one.
abbrev pub is_answer : ℕ → Bool
is_answer status = eqb status 101 || ltb status 100 || leb 200 status

-- The status that a call sends to the visitor for good, if it does: the first such call decides,
-- a write sends 200, and the connection changes hands with 101.
abbrev pub final_status : Call → Option ℕ
final_status (write_header status) = if is_answer status then some status else none
final_status (write n) = some 200
final_status flush = none
final_status (hijack true) = some 101
final_status (hijack false) = none

abbrev pub sent_status : List Call → Option ℕ
sent_status [] = none
sent_status (c ∷ calls) = or_else (final_status c) (sent_status calls)

abbrev pub bytes_written : List Call → ℕ
bytes_written [] = 0
bytes_written (write n ∷ calls) = n + bytes_written calls
bytes_written (c ∷ calls) = bytes_written calls

abbrev pub or_zero : Option ℕ → ℕ
or_zero none = 0
or_zero (some n) = n

abbrev recorder : ℕ → ℕ → Bool → Bool → Recorder
recorder status bytes upgraded wrote = record {
  status = status;
  bytes = bytes;
  upgraded = upgraded;
  wrote = wrote;
}

informational_lem : (status : ℕ) → is_informational status ≡ not (is_answer status)
unfolding is_informational
informational_lem status = ground arith

header-informational :
    (status s b : ℕ) (u : Bool)
    → is_answer status ≡ false
    → on_write_header status (recorder s b u false) ≡ recorder s b u false
unfolding on_write_header
header-informational status s b u e = rw (on_write_header, informational_lem status, e) refl

header-final :
    (status s b : ℕ) (u : Bool)
    → is_answer status ≡ true
    → on_write_header status (recorder s b u false) ≡ recorder status b u true
unfolding on_write_header
header-final status s b u e = rw (on_write_header, informational_lem status, e) refl

-- A status that is settled stays.
settled-status :
    (calls : List Call) (s b : ℕ) (u : Bool) → (on_calls calls (recorder s b u true)).status ≡ s
unfolding on_calls on_call on_write_header on_write on_hijack
settled-status [] s b u = refl
settled-status (write_header status ∷ calls) s b u = settled-status calls s b u
settled-status (write n ∷ calls) s b u = settled-status calls s ((b + n) % 2 ^ 64) u
settled-status (flush ∷ calls) s b u = settled-status calls s b u
settled-status (hijack false ∷ calls) s b u = settled-status calls s b u
settled-status (hijack true ∷ calls) s b u = settled-status calls s b true

open-status :
    (calls : List Call) (b : ℕ) (u : Bool)
    → (on_calls calls (recorder 0 b u false)).status ≡ or_zero (sent_status calls)
unfolding on_calls on_call on_write_header on_write on_hijack
open-status [] b u = refl
open-status (flush ∷ calls) b u = open-status calls b u
open-status (hijack false ∷ calls) b u = open-status calls b u
open-status (hijack true ∷ calls) b u = settled-status calls 101 b true
open-status (write n ∷ calls) b u = settled-status calls 200 ((b + n) % 2 ^ 64) u
open-status (write_header status ∷ calls) b u = elim (Bool-cases (is_answer status)) [
  | inr e ↦
      ap (λ r. (on_calls calls r).status) (header-informational status 0 b u e)
      ∙ (open-status calls b u ∙ rw e refl)
  | inl e ↦
      ap (λ r. (on_calls calls r).status) (header-final status 0 b u e)
      ∙ (settled-status calls status b u ∙ rw e refl)
]

counted-bytes :
    (calls : List Call) (s b : ℕ) (u w : Bool)
    → (on_calls calls (recorder s b u w)).bytes % 2 ^ 64 ≡ (b + bytes_written calls) % 2 ^ 64
unfolding on_calls on_call on_write_header on_write on_hijack
counted-bytes [] s b u w = omega arith
counted-bytes (flush ∷ calls) s b u w = counted-bytes calls s b u w
counted-bytes (hijack false ∷ calls) s b u w = counted-bytes calls s b u w
counted-bytes (hijack true ∷ calls) s b u true = counted-bytes calls s b true true
counted-bytes (hijack true ∷ calls) s b u false = counted-bytes calls 101 b true true
counted-bytes (write n ∷ calls) s b u true =
    let rest = counted-bytes calls s ((b + n) % 2 ^ 64) u true in omega arith
counted-bytes (write n ∷ calls) s b u false =
    let rest = counted-bytes calls 200 ((b + n) % 2 ^ 64) u true in omega arith
counted-bytes (write_header status ∷ calls) s b u true = counted-bytes calls s b u true
counted-bytes (write_header status ∷ calls) s b u false = elim (Bool-cases (is_answer status)) [
  | inr e ↦
      ap (λ r. (on_calls calls r).bytes % 2 ^ 64) (header-informational status s b u e)
      ∙ counted-bytes calls s b u false
  | inl e ↦
      ap (λ r. (on_calls calls r).bytes % 2 ^ 64) (header-final status s b u e)
      ∙ counted-bytes calls status b u true
]

-- Whatever the standard proxy calls, and whether it ends by a panic: the status recorded of a
-- request is the one that the visitor was sent for good, or 0 if there was none; the bytes recorded
-- are those written, modulo 2 ^ 64; and the panic is recorded.
pub observation_is_sent :
    (net : Net) (proxy : Proxy) (live : Registry) (upstream : Link → List Call × Bool) (length : ℕ)
    (r : Request)
    → let served = serve_http net proxy live r in
      let seen = observe net proxy live upstream length r in
      (seen.status ≡ or_zero (sent_status (answer_calls upstream length served).0))
      × ((seen.bytes % 2 ^ 64 ≡ bytes_written (answer_calls upstream length served).0 % 2 ^ 64)
          × (seen.aborted ≡ (answer_calls upstream length served).1))
unfolding observe record_observation serve_http
observation_is_sent net proxy live upstream length r =
    let calls =
      (answer_calls upstream length
        (serve_resolved live (host_subdomain net.split_host net.to_lower r.host proxy.domain))).0 in
    (open-status calls 0 false, (let x = counted-bytes calls 0 0 false false in omega arith, refl))
