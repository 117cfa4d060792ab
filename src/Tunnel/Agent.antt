-- ===== src/Tunnel/Agent.antt =====
-- specimens/ingress-tunnel/internal/agent/agent.go: the loop of `Run`, which dials, serves the link
-- until it ends, and waits as the schedule says. What the world does in a round of the loop is data:
-- whether the context is done, how the dial and the link end, and whether the wait is canceled. Which
-- errors are permanent is decided by the link, so that a round has only the answer of `permanent`.
pub mod Target
use saas_reaper.Base.{
  ◌≡◌, ◌≢◌, ◌↔◌, refl, inl, inr, Bool, true, false, not, ◌&&◌, Option, none, some, List, [], ◌∷◌,
  if◌then◌else◌, ok, All, Bool-cases,
}
use saas_reaper.Base.Int64.{ℤ, pos, inc, ◌<ℤ◌}
use saas_reaper.Tunnel.Reconnect.{Schedule, delay, new_schedule, delay-positive}

-- How `Dial` ends: with an error, or with a link that is lost for a reason.
pub data Dialed : Type 0 where
  dial_error : (is_permanent : Bool) → Dialed
  linked : (is_permanent : Bool) → Dialed

pub record Round : Type 0 where
  pub is_done : Bool
  pub dialed : Dialed
  pub waited : Bool

-- How a run ends; it is still running when the rounds are used up. A panic is an index of the schedule
-- that is out of range.
pub data Ending : Type 0 where
  finished refused panicked : Ending
  still_running : (failures : ℤ) → Ending

-- The failures that the next pause is computed from, and whether the run must stop with the error.
abbrev pub attempt : ℤ → Dialed → ℤ × Bool
attempt failures (dial_error true) = (failures, true)
attempt failures (dial_error false) = (inc failures, false)
attempt failures (linked true) = (pos 0, true)
attempt failures (linked false) = (pos 1, false)

-- The delay that was waited, and what came after it unless the wait was canceled.
abbrev pub pause : Option ℤ → Bool → List ℤ × Ending → List ℤ × Ending
pause none waited rest = ([], panicked)
pause (some d) false rest = (d ∷ [], finished)
pause (some d) true rest = (d ∷ rest.0, rest.1)

-- The delays that are waited, and the ending.
pub run : Schedule → ℤ → List Round → List ℤ × Ending
run schedule failures [] = ([], still_running failures)
run schedule failures (r ∷ rounds) =
    let attempted = attempt failures r.dialed in
    let rest = run schedule attempted.0 rounds in
    if r.is_done
    then ([], finished)
    else if attempted.1
    then ([], refused)
    else pause (delay schedule attempted.0) r.waited rest

-- Whether the server refused the credential, or evicted the agent, for good.
abbrev pub is_refusal : Dialed → Bool
is_refusal (dial_error is_permanent) = is_permanent
is_refusal (linked is_permanent) = is_permanent

-- A round that only loses a link or a dial: nothing is canceled, and no refusal is permanent.
abbrev pub is_transient : Round → Bool
is_transient r = not r.is_done && not (is_refusal r.dialed) && r.waited

abbrev pub IsTransient : Round → Type 0
IsTransient r = is_transient r ≡ true

abbrev pub IsRunning : Ending → Type 0
IsRunning e = (failures : ℤ) × (e ≡ still_running failures)

abbrev pub IsPositive : ℤ → Type 0
IsPositive d = pos 0 <ℤ d

attempt-is_refusal : (f : ℤ) (d : Dialed) → (attempt f d).1 ≡ is_refusal d
attempt-is_refusal f (dial_error true) = refl
attempt-is_refusal f (dial_error false) = refl
attempt-is_refusal f (linked true) = refl
attempt-is_refusal f (linked false) = refl

module _ (delays : List ℤ) (schedule : Schedule) where
  -- With a schedule that was accepted: after any rounds the run is still going exactly if every one of
  -- them was transient. So a lost link or a failed dial never ends it, however often, and it ends in
  -- the first round that is canceled or refused for good.
  pub run_ends_iff :
      (failures : ℤ) (rounds : List Round)
      → new_schedule delays ≡ ok schedule
      → IsRunning (run schedule failures rounds).1 ↔ All IsTransient rounds
  unfolding run
  run_ends_iff failures [] h = (λ x. tt, λ x. (failures, refl))
  run_ends_iff failures (r ∷ rounds) h =
      let next = (attempt failures r.dialed).0 in
      let (d, e, p) = delay-positive delays schedule next h in
      let same = attempt-is_refusal failures r.dialed in
      let rest = run_ends_iff next rounds h in
      elim (Bool-cases r.is_done) [
        | inl x ↦ rw x (λ y. let z = y.1 in cc, λ y. let z = y.0 in cc)
        | inr x ↦ elim (Bool-cases (is_refusal r.dialed)) [
          | inl s ↦ rw (x, same, s) (λ y. let z = y.1 in cc, λ y. let z = y.0 in cc)
          | inr s ↦ elim (Bool-cases r.waited) [
            | inl w ↦ rw (x, same, s, e, w) (λ y. (refl, rest.0 y), λ y. rest.1 y.1)
            | inr w ↦ rw (x, same, s, e, w) (λ y. let z = y.1 in cc, λ y. let z = y.0 in cc)
          ]
        ]
      ]

  -- With a schedule that was accepted: whatever the rounds, every delay that is waited is positive, so
  -- that the loop never spins, and the run does not panic.
  run_paces :
      (failures : ℤ) (rounds : List Round)
      → new_schedule delays ≡ ok schedule
      → All IsPositive (run schedule failures rounds).0
        × ((run schedule failures rounds).1 ≢ panicked)
  unfolding run
  run_paces failures [] h = (tt, λ x. cc)
  run_paces failures (r ∷ rounds) h =
      let next = (attempt failures r.dialed).0 in
      let (d, e, p) = delay-positive delays schedule next h in
      let rest = run_paces next rounds h in
      elim (Bool-cases r.is_done) [
        | inl x ↦ rw x (tt, λ y. cc)
        | inr x ↦ elim (Bool-cases (attempt failures r.dialed).1) [
          | inl s ↦ rw (x, s) (tt, λ y. cc)
          | inr s ↦ elim (Bool-cases r.waited) [
            | inl w ↦ rw (x, s, e, w) ((p, rest.0), rest.1)
            | inr w ↦ rw (x, s, e, w) ((p, tt), λ y. cc)
          ]
        ]
      ]
