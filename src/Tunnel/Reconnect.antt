-- ===== src/Tunnel/Reconnect.antt =====
-- specimens/ingress-tunnel/internal/tunnel/reconnect.go: the schedule of an agent's reconnections.
-- `time.ParseDuration` is the parameter `parse`, `none` for its error.
use saas_reaper.Base.{
  ℕ, zero, suc, ◌-◌, ◌*◌, ◌≤◌, ◌<◌, ◌≡◌, subst, refl, inl, inr, String, false, not, Option, none,
  some, List, [], ◌∷◌, ◌==◌, ltb, length, is_empty, if◌then◌else◌, Result, ok, err, ◌>>=◌, ◌>>◌,
  guard, arith, Bool-cases, bind-then, guard-then, unit-then,
}
use saas_reaper.Base.Int64.{ℤ, pos, negsuc, leb_ℤ, ◌<ℤ◌}

-- The errors of this file, which have no class.
pub data Problem : Type 0 where
  no_delays not_positive padded malformed : Problem

-- nanoseconds
abbrev second : ℕ
second = 1000000000

abbrev pub default_reconnect_delays : List ℤ
default_reconnect_delays =
    pos second ∷ pos (2 * second) ∷ pos (5 * second) ∷ pos (10 * second) ∷ pos (30 * second) ∷ []

pub record Schedule : Type 0 where
  pub delays : List ℤ

check_positive : List ℤ → Result Problem (Unit {0})
check_positive [] = ok tt
check_positive (delay ∷ delays) = do
  guard (not (leb_ℤ delay (pos 0))) not_positive
  check_positive delays

unfoldable pub new_schedule : List ℤ → Result Problem Schedule
unfolding check_positive
new_schedule delays = do
  guard (not (is_empty delays)) no_delays
  check_positive delays
  ok (record { delays = delays })

-- s[i], `none` for the panic of an index out of range
abbrev at_index : ℕ → List ℤ → Option ℤ
at_index n [] = none
at_index zero (x ∷ xs) = some x
at_index (suc n) (x ∷ xs) = at_index n xs

-- From the clamped attempt on: the attempt is at least one.
delay_at : ℕ → List ℤ → Option ℤ
delay_at attempt delays =
    if ltb (length delays) attempt
    then at_index (length delays - 1) delays
    else at_index (attempt - 1) delays

pub delay : Schedule → ℤ → Option ℤ
unfolding delay_at
delay s (pos attempt) = delay_at (if ltb attempt 1 then 1 else attempt) s.delays
delay s (negsuc n) = delay_at 1 s.delays

module _ (parse : String → Option ℤ) (trim_space : String → String)
    (split : String → List String) where
  parsed : Option ℤ → Result Problem ℤ
  parsed none = err malformed
  parsed (some duration) = if leb_ℤ duration (pos 0) then err not_positive else ok duration

  parse_duration : String → Result Problem ℤ
  unfolding parsed
  parse_duration raw =
      if not (trim_space raw == raw)
      then err padded
      else if raw == ""
      then err padded
      else parsed (parse raw)

  parse_all : List String → Result Problem (List ℤ)
  unfolding parse_duration
  parse_all [] = ok []
  parse_all (part ∷ parts) = do
    duration ← parse_duration part
    durations ← parse_all parts
    ok (duration ∷ durations)

  -- `split` is `strings.Split` at the commas.
  unfoldable pub parse_delays : String → Result Problem (List ℤ)
  unfolding parse_all
  parse_delays raw = parse_all (split raw)

at_index-positive :
    (n : ℕ) (delays : List ℤ)
    → n < length delays
    → check_positive delays ≡ ok tt
    → (d : ℤ) × (at_index n delays ≡ some d) × (pos 0 <ℤ d)
unfolding check_positive
at_index-positive n [] h c = absurd (omega arith)
at_index-positive zero (x ∷ xs) h c =
    let (p, rest) = guard-then (not (leb_ℤ x (pos 0))) _ _ _ c in (x, refl, ground arith)
at_index-positive (suc n) (x ∷ xs) h c =
    let (p, rest) = guard-then (not (leb_ℤ x (pos 0))) _ _ _ c in
    at_index-positive n xs (omega arith) rest

delay_at-positive :
    (attempt : ℕ) (delays : List ℤ)
    → 1 ≤ attempt
    → is_empty delays ≡ false
    → check_positive delays ≡ ok tt
    → (d : ℤ) × (delay_at attempt delays ≡ some d) × (pos 0 <ℤ d)
unfolding delay_at
delay_at-positive attempt [] h e c = cc
delay_at-positive attempt (x ∷ xs) h e c = elim (Bool-cases (ltb (length (x ∷ xs)) attempt)) [
  | inl over ↦ rw over (at_index-positive (length (x ∷ xs) - 1) (x ∷ xs) (omega arith) c)
  | inr under ↦ rw under (at_index-positive (attempt - 1) (x ∷ xs) (ground arith) c)
]

delay_of :
    (attempt : ℤ) (s : Schedule)
    → is_empty s.delays ≡ false
    → check_positive s.delays ≡ ok tt
    → (d : ℤ) × (delay s attempt ≡ some d) × (pos 0 <ℤ d)
unfolding delay
delay_of (pos n) s e c = delay_at-positive (if ltb n 1 then 1 else n) s.delays (ground arith) e c
delay_of (negsuc n) s e c = delay_at-positive 1 s.delays (omega arith) e c

-- A schedule that was accepted has a delay for every attempt, also for one below one or beyond its
-- end, and the delay is positive: no index is out of range.
pub delay-positive :
    (delays : List ℤ) (s : Schedule) (attempt : ℤ)
    → new_schedule delays ≡ ok s
    → (d : ℤ) × (delay s attempt ≡ some d) × (pos 0 <ℤ d)
unfolding new_schedule delay
delay-positive delays s attempt h =
    let (full, rest) = guard-then (not (is_empty delays)) _ _ _ h in
    let (positive, made) = unit-then (check_positive delays) _ _ rest in
    let kept : delays ≡ s.delays = cc in
    delay_of attempt (record { delays = s.delays })
      (subst (λ ds. is_empty ds ≡ false) kept (ground arith))
      (subst (λ ds. check_positive ds ≡ ok tt) kept positive)

module _ (parse : String → Option ℤ) (trim_space : String → String)
    (split : String → List String) where
  parsed-positive :
      (o : Option ℤ) (d : ℤ) → parsed parse trim_space split o ≡ ok d → leb_ℤ d (pos 0) ≡ false
  unfolding parsed
  parsed-positive none d h = cc
  parsed-positive (some x) d h = elim (Bool-cases (leb_ℤ x (pos 0))) [
    | inl e ↦ let y = rw e at h in cc
    | inr e ↦
        let y = rw e at h in let same : x ≡ d = cc in subst (λ z. leb_ℤ z (pos 0) ≡ false) same e
  ]

  parse_duration-positive :
      (raw : String) (d : ℤ)
      → parse_duration parse trim_space split raw ≡ ok d
      → leb_ℤ d (pos 0) ≡ false
  unfolding parse_duration
  parse_duration-positive raw d h = elim (Bool-cases (trim_space raw == raw)) [
    | inl e ↦ elim (Bool-cases (raw == "")) [
      | inl f ↦ let y = rw (e, f) at h in cc
      | inr f ↦ parsed-positive (parse raw) d (rw (e, f) at h)
    ]
    | inr e ↦ let y = rw e at h in cc
  ]

  parse_all-positive :
      (parts : List String) (ds : List ℤ)
      → parse_all parse trim_space split parts ≡ ok ds
      → (is_empty ds ≡ is_empty parts) × (check_positive ds ≡ ok tt)
  unfolding parse_all check_positive
  parse_all-positive [] [] h = (refl, refl)
  parse_all-positive [] (d ∷ ds) h = cc
  parse_all-positive (part ∷ parts) ds h =
      let (d, one, rest) = bind-then (parse_duration parse trim_space split part) _ _ h in
      let (more, others, made) = bind-then (parse_all parse trim_space split parts) _ _ rest in
      let (size, positive) = parse_all-positive parts more others in
      let first = parse_duration-positive part d one in
      let same : d ∷ more ≡ ds = cc in
      subst (λ xs. (is_empty xs ≡ false) × (check_positive xs ≡ ok tt)) same
        (refl, rw (first, positive) refl)

  -- A schedule that was read from a setting, whose text splits into one part at least, is accepted
  -- as it stands.
  pub parse_delays-new_schedule :
      (raw : String) (ds : List ℤ)
      → is_empty (split raw) ≡ false
      → parse_delays parse trim_space split raw ≡ ok ds
      → new_schedule ds ≡ ok (record { delays = ds })
  unfolding parse_delays new_schedule
  parse_delays-new_schedule raw ds some_part h =
      let (size, positive) = parse_all-positive (split raw) ds h in
      rw (size, some_part, positive) refl
