-- ===== src/Tunnel/Link/Handler.antt =====
-- specimens/ingress-tunnel/internal/link/accept.go and link.go: the links that the handler holds, and
-- its shutdown. Each link has a goroutine in `serve`, so that the model is a state and the steps
-- that the goroutines, the agents and Shutdown take in any order; a step that its goroutine cannot
-- take yet does nothing. A session is named by its place.
pub mod Sound
pub mod Drained
use saas_reaper.Base.{
  ℕ, zero, suc, ◌+◌, ◌-◌, Bool, true, false, not, ◌&&◌, ◌||◌, Option, none, some, List, [], ◌∷◌,
  ◌++◌, eqb, if◌then◌else◌,
}
use saas_reaper.Tunnel.Lifecycle.{Error}
use saas_reaper.Tunnel.Registry.{CloseReason, close_shutdown}
use saas_reaper.Tunnel.Link.{close_reason_for}

-- Where `serve` is: before track, after it, refused by it or by Attach, attached, told to shut down,
-- after Lost, and returned.
pub data Stage : Type 0 where
  opened tracked turned_away rejected attached leaving reported returned : Stage

-- `told` is the reason of the first Close, `done` is the closed channel of the multiplexer.
pub record Session : Type 0 where
  pub stage : Stage
  pub told : Option CloseReason
  pub closed : Bool
  pub done : Bool

-- Where Shutdown is.
pub data Waiter : Type 0 where
  idle draining cutting finished : Waiter

-- What the handler asks the connector to write.
pub data Write : Type 0 where
  attaching losing : ℕ → Write

-- `links` is the count of the wait group.
pub record Handler : Type 0 where
  pub closing : Bool
  pub live : List ℕ
  pub links : ℕ
  pub sessions : List Session
  pub waiter : Waiter
  pub writes : List Write

unfoldable pub new_handler : Handler
new_handler = record {
  closing = false;
  live = [];
  links = 0;
  sessions = [];
  waiter = idle;
  writes = [];
}

-- What the goroutine of a session does next, or happens to its link.
pub data Move : Type 0 where
  track untrack : Move
  -- Attach, with its error
  attach : Option Error → Move
  -- Close, by the policy that takes the link over or revokes its claim
  evict : CloseReason → Move
  -- the link ends, by the agent or after the farewell
  end_session : Move
  -- `serve` sees that the handler is closing, and that the link has ended
  see_closing see_done : Move
  -- a session that was turned away returns
  leave : Move

pub data Step : Type 0 where
  -- newSession
  open_session : Step
  by_session : ℕ → Move → Step
  -- the call of Shutdown, its deadline, and the end of its wait
  shutdown deadline drained : Step

abbrev pub session_at : ℕ → List Session → Option Session
session_at i [] = none
session_at zero (s ∷ ss) = some s
session_at (suc i) (s ∷ ss) = session_at i ss

abbrev pub put_session : ℕ → Session → List Session → List Session
put_session i t [] = []
put_session zero t (s ∷ ss) = t ∷ ss
put_session (suc i) t (s ∷ ss) = s ∷ put_session i t ss

-- Session.Close: only the first reason is sent.
abbrev pub close : CloseReason → Session → Session
close reason s = if s.closed then s else record s { closed = true; told = some reason }

-- Session.cut
abbrev pub cut : Session → Session
cut s = record s { closed = true; done = true }

abbrev pub cut_at : ℕ → Option Session → List Session → List Session
cut_at i none ss = ss
cut_at i (some s) ss = put_session i (cut s) ss

abbrev pub cut_all : List ℕ → List Session → List Session
cut_all [] ss = ss
cut_all (i ∷ live) ss = let rest = cut_all live ss in cut_at i (session_at i rest) rest

abbrev pub without : ℕ → List ℕ → List ℕ
without i [] = []
without i (j ∷ live) = if eqb i j then without i live else j ∷ without i live

abbrev pub at_stage : ℕ → Session → Stage → Handler → Handler
at_stage i s stage h = record h { sessions = put_session i (record s { stage = stage }) h.sessions }

-- Handler.track, with what `serve` does when it is refused
unfoldable pub tracking : ℕ → Session → Handler → Handler
tracking i s h =
    if h.closing
    then at_stage i (close close_shutdown s) turned_away h
    else at_stage i s tracked (record h { live = i ∷ h.live; links = suc h.links })

abbrev pub attaching_to : ℕ → Session → Option Error → Handler → Handler
attaching_to i s none h = at_stage i s attached (record h { writes = h.writes ++ attaching i ∷ [] })
attaching_to i s (some e) h =
    at_stage i (close (close_reason_for e) s) rejected
      (record h { writes = h.writes ++ attaching i ∷ [] })

-- connection.Lost
abbrev pub reporting : ℕ → Session → Handler → Handler
reporting i s h = at_stage i s reported (record h { writes = h.writes ++ losing i ∷ [] })

unfoldable pub untracking : ℕ → Session → Handler → Handler
untracking i s h = at_stage i s returned (record h { live = without i h.live; links = h.links - 1 })

-- The next thing that the goroutine of a session does, if it is at that place.
abbrev pub track_at : ℕ → Stage → Session → Handler → Handler
track_at i opened s h = tracking i s h
track_at i _ s h = h

abbrev pub attach_at : ℕ → Stage → Option Error → Session → Handler → Handler
attach_at i tracked e s h = attaching_to i s e h
attach_at i _ e s h = h

abbrev pub see_closing_at : ℕ → Stage → Session → Handler → Handler
see_closing_at i attached s h =
    if h.closing then at_stage i (close close_shutdown s) leaving h else h
see_closing_at i _ s h = h

abbrev pub see_done_at : ℕ → Stage → Session → Handler → Handler
see_done_at i attached s h = if s.done then reporting i s h else h
see_done_at i leaving s h = if s.done then reporting i s h else h
see_done_at i _ s h = h

abbrev pub untrack_at : ℕ → Stage → Session → Handler → Handler
untrack_at i rejected s h = if s.done then untracking i s h else h
untrack_at i reported s h = untracking i s h
untrack_at i _ s h = h

abbrev pub leave_at : ℕ → Stage → Session → Handler → Handler
leave_at i turned_away s h = if s.done then at_stage i s returned h else h
leave_at i _ s h = h

unfoldable pub move : Move → ℕ → Session → Handler → Handler
move track i s h = track_at i s.stage s h
move (attach e) i s h = attach_at i s.stage e s h
move (evict reason) i s h = record h { sessions = put_session i (close reason s) h.sessions }
move end_session i s h = record h { sessions = put_session i (record s { done = true }) h.sessions }
move see_closing i s h = see_closing_at i s.stage s h
move see_done i s h = see_done_at i s.stage s h
move untrack i s h = untrack_at i s.stage s h
move leave i s h = leave_at i s.stage s h

abbrev pub for_session : Move → ℕ → Option Session → Handler → Handler
for_session m i none h = h
for_session m i (some s) h = move m i s h

-- The two waits of Shutdown; a further call of it finds the handler closing.
abbrev pub start_waiting : Waiter → Waiter
start_waiting idle = draining
start_waiting w = w

abbrev pub at_deadline : Waiter → Handler → Handler
at_deadline draining h = record h { sessions = cut_all h.live h.sessions; waiter = cutting }
at_deadline _ h = h

abbrev pub when_drained : Waiter → Handler → Handler
when_drained draining h = if eqb h.links 0 then record h { waiter = finished } else h
when_drained cutting h = if eqb h.links 0 then record h { waiter = finished } else h
when_drained _ h = h

unfoldable pub step : Step → Handler → Handler
step open_session h = record h {
  sessions =
      h.sessions ++ record { stage = opened; told = none; closed = false; done = false } ∷ [];
}
step (by_session i m) h = for_session m i (session_at i h.sessions) h
step shutdown h = record h { closing = true; waiter = start_waiting h.waiter }
step deadline h = at_deadline h.waiter h
step drained h = when_drained h.waiter h

unfoldable pub steps : List Step → Handler → Handler
steps [] h = h
steps (s ∷ rest) h = steps rest (step s h)
