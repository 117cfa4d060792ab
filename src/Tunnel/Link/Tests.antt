-- ===== src/Tunnel/Link/Tests.antt =====
-- The theorem of the handshake at a concrete request: a token that is not one of the tunnel's.
use saas_reaper.Base.{refl, ◌≡◌, none, List, [], ◌∷◌}
use saas_reaper.Tunnel.Link.Handler.{
  Step, open_session, by_session, track, untrack, attach, see_done, shutdown, deadline, drained,
  finished, new_handler, step, steps, move, tracking, untracking,
}
use saas_reaper.Tunnel.Link.Handler.Sound.{held_links}
use saas_reaper.Tunnel.Link.Handler.Drained.{no_write_after_shutdown}
use saas_reaper.Base.{ℕ, String, ◌≡◌, ◌↔◌, refl, true, false, Option, none, List}
use saas_reaper.Tunnel.Database.Laws.{database}
use saas_reaper.Tunnel.Tests.{served, hash}
use saas_reaper.Tunnel.Link.{rejected, bearer, permanent, serve_http}
use saas_reaper.Tunnel.Link.Handshake.{RefusesHeader, permanent_iff_refused}
use saas_reaper.Tunnel.Service
use saas_reaper.Tunnel.Claim

abbrev undecodable : String → Option (List ℕ)
undecodable s = none

turned_away : serve_http database undecodable hash 9 false "Bearer stranger" served ≡ rejected 401
unfolding serve_http Service.authenticate Claim.validate_token bearer
turned_away = refl

permanent_iff_refused_example :
    (permanent 401 ≡ true)
    ↔ RefusesHeader database undecodable hash 9 (bearer "Bearer stranger") served
permanent_iff_refused_example =
    permanent_iff_refused database undecodable hash 9 "Bearer stranger" 401 served turned_away

-- A link is served, Shutdown reaches its deadline, and another agent comes too late.
abbrev until_shutdown : List Step
until_shutdown =
    open_session
    ∷ by_session 0 track
    ∷ by_session 0 (attach none)
    ∷ shutdown
    ∷ deadline
    ∷ by_session 0 see_done
    ∷ by_session 0 untrack
    ∷ drained
    ∷ []

abbrev too_late : List Step
too_late = open_session ∷ by_session 1 track ∷ by_session 1 (attach none) ∷ []

shutdown_returned : (steps until_shutdown new_handler).waiter ≡ finished
unfolding steps step move new_handler tracking untracking
shutdown_returned = refl

no_write_after_shutdown_example :
    (held_links (steps until_shutdown new_handler).sessions ≡ 0)
    × ((steps too_late (steps until_shutdown new_handler)).writes
        ≡ (steps until_shutdown new_handler).writes)
no_write_after_shutdown_example = no_write_after_shutdown until_shutdown too_late shutdown_returned
