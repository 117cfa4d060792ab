-- ===== src/Tunnel/Link/Handler/Sound.antt =====
-- specimens/ingress-tunnel/internal/link/accept.go: the wait group counts the links that are held.
use saas_reaper.Base.{
  ℕ, zero, suc, ◌+◌, ◌-◌, ◌≤◌, ◌≡◌, refl, sym, ◌∙◌, ap, Bool, true, false, List, [], ◌∷◌, ◌++◌,
  Option, none, some, if◌then◌else◌, arith,
}
use saas_reaper.Tunnel.Lifecycle.{Error}
use saas_reaper.Tunnel.Registry.{CloseReason}
use saas_reaper.Tunnel.Link.Handler.{
  Stage, opened, tracked, turned_away, rejected, attached, leaving, reported, returned, Session,
  Waiter, idle, draining, cutting, finished, Write, Handler, new_handler, session_at, put_session,
  close, tracking, untracking, track_at, attach_at, see_closing_at, see_done_at, untrack_at,
  leave_at,
}

-- Whether the goroutine of a link is between track and untrack, as a number.
abbrev pub held : Stage → ℕ
held opened = 0
held turned_away = 0
held returned = 0
held tracked = 1
held rejected = 1
held attached = 1
held leaving = 1
held reported = 1

abbrev pub held_links : List Session → ℕ
held_links [] = 0
held_links (s ∷ ss) = held s.stage + held_links ss

pub held_links-append :
    (ss : List Session) (s : Session) → held_links (ss ++ s ∷ []) ≡ held_links ss + held s.stage
held_links-append [] s = omega arith
held_links-append (t ∷ ss) s = omega (arith, held_links-append ss s)

pub held_links-put :
    (i : ℕ) (s t : Session) (ss : List Session)
    → session_at i ss ≡ some s
    → held_links (put_session i t ss) + held s.stage ≡ held_links ss + held t.stage
held_links-put zero s t [] h = cc
held_links-put (suc i) s t [] h = cc
held_links-put zero s t (r ∷ ss) h = let same : r ≡ s = cc in rw same (omega arith)
held_links-put (suc i) s t (r ∷ ss) h = let rest = held_links-put i s t ss h in omega arith

-- A held link is counted.
pub held_links-at :
    (i : ℕ) (s : Session) (ss : List Session)
    → session_at i ss ≡ some s
    → held s.stage ≤ held_links ss
held_links-at zero s [] h = cc
held_links-at (suc i) s [] h = cc
held_links-at zero s (r ∷ ss) h = let same : r ≡ s = cc in rw same (omega arith)
held_links-at (suc i) s (r ∷ ss) h = let rest = held_links-at i s ss h in omega arith

-- Once Shutdown waits the handler is closing, and it returns when no link is left.
abbrev pub IsWaiting : Waiter → Bool → ℕ → Type 0
IsWaiting idle closing links = Unit
IsWaiting draining closing links = closing ≡ true
IsWaiting cutting closing links = closing ≡ true
IsWaiting finished closing links = (closing ≡ true) × (links ≡ 0)

pub record IsSound (h : Handler) : Type 0 where
  pub counted : held_links h.sessions ≡ h.links
  pub waits : IsWaiting h.waiter h.closing h.links

pub new_handler-IsSound : IsSound new_handler
unfolding new_handler
new_handler-IsSound = record { counted = refl; waits = tt }

-- A step of a held or a free link that leaves its hold.
pub same_hold-IsSound :
    (i : ℕ) (s t : Session) (h : Handler)
    → session_at i h.sessions ≡ some s
    → held s.stage ≡ held t.stage
    → IsSound h
    → IsSound (record h { sessions = put_session i t h.sessions })
same_hold-IsSound i s t h at same sound = record {
  counted = (let x = held_links-put i s t h.sessions at in let y = sound.counted in omega arith);
  waits = sound.waits;
}

pub if_given :
    (b : Bool) (x y : Handler)
    → (b ≡ true → IsSound x)
    → (b ≡ false → IsSound y)
    → IsSound (if b then x else y)
if_given true x y t f = t refl
if_given false x y t f = f refl

-- Before the shutdown nothing waits, and the count may grow.
not_closing :
    (w : Waiter) (closing : Bool) (n m : ℕ)
    → closing ≡ false
    → IsWaiting w closing n
    → IsWaiting w closing m
not_closing idle closing n m c h = tt
not_closing draining closing n m c h = h
not_closing cutting closing n m c h = h
not_closing finished closing n m c h = let x = sym c ∙ h.0 in cc

-- The count may shrink.
fewer : (w : Waiter) (closing : Bool) (n : ℕ) → IsWaiting w closing n → IsWaiting w closing (n - 1)
fewer idle closing n h = tt
fewer draining closing n h = h
fewer cutting closing n h = h
fewer finished closing n h = (h.0, let x = h.1 in omega arith)

module _ (i : ℕ) (s : Session) (h : Handler) (at : session_at i h.sessions ≡ some s)
    (sound : IsSound h) where
  pub same-IsSound :
      (t : Session)
      → held s.stage ≡ held t.stage
      → IsSound (record h { sessions = put_session i t h.sessions })
  same-IsSound t same = same_hold-IsSound i s t h at same sound

  pub write-IsSound :
      (t : Session) (writes : List Write)
      → held s.stage ≡ held t.stage
      → IsSound (record h { sessions = put_session i t h.sessions; writes = writes })
  write-IsSound t writes same = record {
    counted = (same-IsSound t same).counted;
    waits = sound.waits;
  }

  pub close-stage : (reason : CloseReason) → (close reason s).stage ≡ s.stage
  close-stage reason = ground arith

  pub track_at-IsSound : (stage : Stage) → s.stage ≡ stage → IsSound (track_at i stage s h)
  unfolding tracking
  track_at-IsSound opened e =
      if_given h.closing _ _ (λ c. same-IsSound _ (rw e refl))
        (λ c. record {
          counted =
              (let x = held_links-put i s (record s { stage = tracked }) h.sessions at in
                let y = sound.counted in let z = ap held e in omega arith);
          waits = not_closing h.waiter h.closing h.links (suc h.links) c sound.waits;
        })
  track_at-IsSound tracked e = sound
  track_at-IsSound turned_away e = sound
  track_at-IsSound rejected e = sound
  track_at-IsSound attached e = sound
  track_at-IsSound leaving e = sound
  track_at-IsSound reported e = sound
  track_at-IsSound returned e = sound

  pub attach_at-IsSound :
      (stage : Stage) (r : Option Error) → s.stage ≡ stage → IsSound (attach_at i stage r s h)
  attach_at-IsSound tracked none e = write-IsSound _ _ (ap held e)
  attach_at-IsSound tracked (some r) e = write-IsSound _ _ (ap held e)
  attach_at-IsSound opened r e = sound
  attach_at-IsSound turned_away r e = sound
  attach_at-IsSound rejected r e = sound
  attach_at-IsSound attached r e = sound
  attach_at-IsSound leaving r e = sound
  attach_at-IsSound reported r e = sound
  attach_at-IsSound returned r e = sound

  pub see_closing_at-IsSound :
      (stage : Stage) → s.stage ≡ stage → IsSound (see_closing_at i stage s h)
  see_closing_at-IsSound attached e =
      if_given h.closing _ _ (λ c. same-IsSound _ (ap held e)) (λ c. sound)
  see_closing_at-IsSound opened e = sound
  see_closing_at-IsSound tracked e = sound
  see_closing_at-IsSound turned_away e = sound
  see_closing_at-IsSound rejected e = sound
  see_closing_at-IsSound leaving e = sound
  see_closing_at-IsSound reported e = sound
  see_closing_at-IsSound returned e = sound

  pub see_done_at-IsSound : (stage : Stage) → s.stage ≡ stage → IsSound (see_done_at i stage s h)
  see_done_at-IsSound attached e =
      if_given s.done _ _ (λ c. write-IsSound _ _ (ap held e)) (λ c. sound)
  see_done_at-IsSound leaving e =
      if_given s.done _ _ (λ c. write-IsSound _ _ (ap held e)) (λ c. sound)
  see_done_at-IsSound opened e = sound
  see_done_at-IsSound tracked e = sound
  see_done_at-IsSound turned_away e = sound
  see_done_at-IsSound rejected e = sound
  see_done_at-IsSound reported e = sound
  see_done_at-IsSound returned e = sound

  pub untracking-IsSound : held s.stage ≡ 1 → IsSound (untracking i s h)
  unfolding untracking
  untracking-IsSound e = record {
    counted =
        (let x = held_links-put i s (record s { stage = returned }) h.sessions at in
          let y = sound.counted in let z = held_links-at i s h.sessions at in omega arith);
    waits = fewer h.waiter h.closing h.links sound.waits;
  }

  pub untrack_at-IsSound : (stage : Stage) → s.stage ≡ stage → IsSound (untrack_at i stage s h)
  untrack_at-IsSound rejected e =
      if_given s.done _ _ (λ c. untracking-IsSound (ap held e)) (λ c. sound)
  untrack_at-IsSound reported e = untracking-IsSound (ap held e)
  untrack_at-IsSound opened e = sound
  untrack_at-IsSound tracked e = sound
  untrack_at-IsSound turned_away e = sound
  untrack_at-IsSound attached e = sound
  untrack_at-IsSound leaving e = sound
  untrack_at-IsSound returned e = sound

  pub leave_at-IsSound : (stage : Stage) → s.stage ≡ stage → IsSound (leave_at i stage s h)
  leave_at-IsSound turned_away e =
      if_given s.done _ _ (λ c. same-IsSound _ (ap held e)) (λ c. sound)
  leave_at-IsSound opened e = sound
  leave_at-IsSound tracked e = sound
  leave_at-IsSound rejected e = sound
  leave_at-IsSound attached e = sound
  leave_at-IsSound leaving e = sound
  leave_at-IsSound reported e = sound
  leave_at-IsSound returned e = sound
