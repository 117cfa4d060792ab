-- ===== src/Tunnel/Link/Handler/Drained.antt =====
-- specimens/ingress-tunnel/internal/link/accept.go: Shutdown returns once no link can write any more.
use saas_reaper.Base.{
  ℕ, ◌≡◌, refl, sym, ◌∙◌, ap, subst, Bool, true, false, List, [], ◌∷◌, Option, none, some, inl, inr,
  Option-cases, eqb, if◌then◌else◌, arith,
}
use saas_reaper.Tunnel.Lifecycle.{Error}
use saas_reaper.Tunnel.Link.Handler.{
  Stage, opened, Session, Waiter, idle, draining, cutting, finished, Handler, new_handler, Move,
  Step, by_session, move, open_session, track, untrack, attach, evict, end_session, see_closing,
  see_done, leave, shutdown, deadline, drained, session_at, close, cut, cut_all, tracking,
  untracking, track_at, attach_at, see_closing_at, see_done_at, untrack_at, leave_at, start_waiting,
  at_deadline, when_drained, step, steps,
}
use saas_reaper.Tunnel.Link.Handler.Sound.{
  if_given, held, held_links, held_links-append, held_links-put, held_links-at, IsSound, IsWaiting,
  new_handler-IsSound, track_at-IsSound, attach_at-IsSound, see_closing_at-IsSound,
  see_done_at-IsSound, untrack_at-IsSound, leave_at-IsSound, same-IsSound, close-stage,
}

-- A cut leaves each goroutine where it is.
held_links-cut_all :
    (live : List ℕ) (ss : List Session) → held_links (cut_all live ss) ≡ held_links ss
held_links-cut_all [] ss = refl
held_links-cut_all (i ∷ live) ss = elim (Option-cases (session_at i (cut_all live ss))) [
  | inl e ↦ rw e (held_links-cut_all live ss)
  | inr (s, e) ↦
      let x = held_links-put i s (cut s) (cut_all live ss) e in
      let y = held_links-cut_all live ss in rw e (omega arith)
]

move-IsSound :
    (m : Move) (i : ℕ) (s : Session) (h : Handler)
    → session_at i h.sessions ≡ some s
    → IsSound h
    → IsSound (move m i s h)
unfolding move
move-IsSound track i s h e sound = track_at-IsSound i s h e sound s.stage refl
move-IsSound (attach r) i s h e sound = attach_at-IsSound i s h e sound s.stage r refl
move-IsSound (evict reason) i s h e sound =
    same-IsSound i s h e sound (close reason s) (ap held (sym (close-stage i s h e sound reason)))
move-IsSound end_session i s h e sound = same-IsSound i s h e sound (record s { done = true }) refl
move-IsSound see_closing i s h e sound = see_closing_at-IsSound i s h e sound s.stage refl
move-IsSound see_done i s h e sound = see_done_at-IsSound i s h e sound s.stage refl
move-IsSound untrack i s h e sound = untrack_at-IsSound i s h e sound s.stage refl
move-IsSound leave i s h e sound = leave_at-IsSound i s h e sound s.stage refl

shutdown_waits :
    (w : Waiter) (closing : Bool) (links : ℕ)
    → IsWaiting w closing links
    → IsWaiting (start_waiting w) true links
shutdown_waits idle closing links h = refl
shutdown_waits draining closing links h = refl
shutdown_waits cutting closing links h = refl
shutdown_waits finished closing links h = (refl, h.1)

deadline-IsSound : (w : Waiter) (h : Handler) → h.waiter ≡ w → IsSound h → IsSound (at_deadline w h)
deadline-IsSound idle h e sound = sound
deadline-IsSound cutting h e sound = sound
deadline-IsSound finished h e sound = sound
deadline-IsSound draining h e sound = record {
  counted = held_links-cut_all h.live h.sessions ∙ sound.counted;
  waits = subst (λ w. IsWaiting w h.closing h.links) e sound.waits;
}

finished-IsSound :
    (h : Handler)
    → h.closing ≡ true
    → IsSound h
    → IsSound (if eqb h.links 0 then record h { waiter = finished } else h)
finished-IsSound h c sound =
    if_given (eqb h.links 0) _ _
      (λ e. record { counted = sound.counted; waits = (c, ground arith) }) (λ e. sound)

drained-IsSound : (w : Waiter) (h : Handler) → h.waiter ≡ w → IsSound h → IsSound (when_drained w h)
drained-IsSound idle h e sound = sound
drained-IsSound finished h e sound = sound
drained-IsSound draining h e sound =
    finished-IsSound h (subst (λ w. IsWaiting w h.closing h.links) e sound.waits) sound
drained-IsSound cutting h e sound =
    finished-IsSound h (subst (λ w. IsWaiting w h.closing h.links) e sound.waits) sound

pub step-IsSound : (s : Step) (h : Handler) → IsSound h → IsSound (step s h)
unfolding step
step-IsSound open_session h sound = record {
  counted =
      (let x =
          held_links-append h.sessions
            (record { stage = opened; told = none; closed = false; done = false }) in
        let y = sound.counted in omega arith);
  waits = sound.waits;
}
step-IsSound (by_session i m) h sound = elim (Option-cases (session_at i h.sessions)) [
  | inl e ↦ rw e sound
  | inr (s, e) ↦ rw e (move-IsSound m i s h e sound)
]
step-IsSound shutdown h sound = record {
  counted = sound.counted;
  waits = shutdown_waits h.waiter h.closing h.links sound.waits;
}
step-IsSound deadline h sound = deadline-IsSound h.waiter h refl sound
step-IsSound drained h sound = drained-IsSound h.waiter h refl sound

-- After Shutdown has returned, no step writes, and Shutdown has still returned.
abbrev HasReturned : Handler → Handler → Type 0
HasReturned h after = (after.writes ≡ h.writes) × (after.waiter ≡ finished)

module _ (i : ℕ) (s : Session) (h : Handler) (f : h.waiter ≡ finished) where
  track_at-HasReturned : (stage : Stage) → HasReturned h (track_at i stage s h)
  unfolding tracking
  track_at-HasReturned stage = ground arith

  attach_at-HasReturned :
      (stage : Stage) (r : Option Error) → held stage ≡ 0 → HasReturned h (attach_at i stage r s h)
  attach_at-HasReturned stage r free = ground arith

  see_closing_at-HasReturned : (stage : Stage) → HasReturned h (see_closing_at i stage s h)
  see_closing_at-HasReturned stage = ground arith

  see_done_at-HasReturned :
      (stage : Stage) → held stage ≡ 0 → HasReturned h (see_done_at i stage s h)
  see_done_at-HasReturned stage free = ground arith

  untrack_at-HasReturned : (stage : Stage) → HasReturned h (untrack_at i stage s h)
  unfolding untracking
  untrack_at-HasReturned stage = ground arith

  leave_at-HasReturned : (stage : Stage) → HasReturned h (leave_at i stage s h)
  leave_at-HasReturned stage = ground arith

  move-HasReturned : (m : Move) → held s.stage ≡ 0 → HasReturned h (move m i s h)
  unfolding move
  move-HasReturned track free = track_at-HasReturned s.stage
  move-HasReturned (attach r) free = attach_at-HasReturned s.stage r free
  move-HasReturned (evict reason) free = (refl, f)
  move-HasReturned end_session free = (refl, f)
  move-HasReturned see_closing free = see_closing_at-HasReturned s.stage
  move-HasReturned see_done free = see_done_at-HasReturned s.stage free
  move-HasReturned untrack free = untrack_at-HasReturned s.stage
  move-HasReturned leave free = leave_at-HasReturned s.stage

step-HasReturned :
    (s : Step) (h : Handler) → IsSound h → h.waiter ≡ finished → HasReturned h (step s h)
unfolding step
step-HasReturned open_session h sound f = (refl, f)
step-HasReturned shutdown h sound f = (refl, rw f refl)
step-HasReturned deadline h sound f = rw f (refl, refl)
step-HasReturned drained h sound f = rw f (refl, refl)
step-HasReturned (by_session i m) h sound f = elim (Option-cases (session_at i h.sessions)) [
  | inl e ↦ rw e (refl, f)
  | inr (s, e) ↦
      let waits : IsWaiting finished h.closing h.links =
        subst (λ w. IsWaiting w h.closing h.links) f sound.waits in
      let x = held_links-at i s h.sessions e in
      let y = sound.counted in let z = waits.1 in rw e (move-HasReturned i s h f m (omega arith))
]

steps-HasReturned :
    (rest : List Step) (h : Handler)
    → IsSound h
    → h.waiter ≡ finished
    → HasReturned h (steps rest h)
unfolding steps
steps-HasReturned [] h sound f = (refl, f)
steps-HasReturned (s ∷ rest) h sound f =
    let (w, g) = step-HasReturned s h sound f in
    let (x, k) = steps-HasReturned rest (step s h) (step-IsSound s h sound) g in (x ∙ w, k)

steps-IsSound : (rest : List Step) (h : Handler) → IsSound h → IsSound (steps rest h)
unfolding steps
steps-IsSound [] h sound = sound
steps-IsSound (s ∷ rest) h sound = steps-IsSound rest (step s h) (step-IsSound s h sound)

-- In a new handler, after any steps of the links, the agents and Shutdown in any order: once
-- Shutdown has returned, no link that was tracked is held any more, and whatever happens then, no
-- link asks for a write.
pub no_write_after_shutdown :
    (before after : List Step)
    → (steps before new_handler).waiter ≡ finished
    → (held_links (steps before new_handler).sessions ≡ 0)
      × ((steps after (steps before new_handler)).writes ≡ (steps before new_handler).writes)
no_write_after_shutdown before after f =
    let h = steps before new_handler in
    let sound = steps-IsSound before new_handler new_handler-IsSound in
    let waits : IsWaiting finished h.closing h.links =
      subst (λ w. IsWaiting w h.closing h.links) f sound.waits in
    (sound.counted ∙ waits.1, (steps-HasReturned after h sound f).0)
