-- ===== src/Tunnel/Lifecycle/Replay.antt =====
-- Reading a tunnel's status back from its audit rows.
use saas_reaper.Base.{◌≡◌, refl, ◌≢◌, ◌⊎◌, inl, inr, none, some, List, [], ◌∷◌}
use saas_reaper.Tunnel.Lifecycle.{
  ClaimState, claim_active, claim_revoked, Presence, presence_absent, presence_live, Event,
  event_connect, event_link_lost, event_revoke, AuditKind, audit_claimed, audit_connected,
  audit_superseded, audit_disconnected, audit_revoked, Outcome, transition,
}

-- Where the rows of one subdomain lead: nothing is claimed yet, a status, or rows that contradict
-- those before them.
pub data Position : Type 0 where
  unclaimed : Position
  at : ClaimState → Presence → Position
  broken : Position

-- A connection begins where none is, and ends (lost or superseded) where one is; a claim is made
-- once, and revoked once, while no connection is there.
abbrev pub advance : Position → AuditKind → Position
advance unclaimed audit_claimed = at claim_active presence_absent
advance (at claim_active presence_absent) audit_connected = at claim_active presence_live
advance (at claim_active presence_live) audit_superseded = at claim_active presence_absent
advance (at claim_active presence_live) audit_disconnected = at claim_active presence_absent
advance (at claim_active presence_absent) audit_revoked = at claim_revoked presence_absent
advance _ _ = broken

abbrev pub advance_all : Position → List AuditKind → Position
advance_all p [] = p
advance_all p (k ∷ ks) = advance_all (advance p k) ks

-- Each transition that is not refused emits the rows that lead from the old status to the new one;
-- one that is refused emits none and changes nothing; and only a revoked claim with a live link,
-- which no transition leads to, is a panic.
pub transition-replays :
    (claim : ClaimState) (presence : Presence) (event : Event)
    → ((claim ≡ claim_revoked)
        × (presence ≡ presence_live)
        × (transition (record { claim = claim; presence = presence }) event ≡ none))
      ⊎ ((o : Outcome) × (transition (record { claim = claim; presence = presence }) event ≡ some o)
          × (advance_all (at claim presence) o.audit ≡ at o.status.claim o.status.presence)
          × (o.error ≢ none
              → (o.audit ≡ []) × (o.status ≡ record { claim = claim; presence = presence }))
          × ((o.status.claim ≡ claim_revoked) → (o.status.presence ≡ presence_absent)))
unfolding transition
transition-replays claim_revoked presence_live e = inl (refl, refl, refl)
transition-replays claim_revoked presence_absent event_connect =
    inr (_, refl, refl, λ h. (refl, refl), λ h. refl)
transition-replays claim_revoked presence_absent event_revoke =
    inr (_, refl, refl, λ h. (refl, refl), λ h. refl)
transition-replays claim_revoked presence_absent event_link_lost =
    inr (_, refl, refl, λ h. (refl, refl), λ h. refl)
transition-replays claim_active presence_absent event_connect =
    inr (_, refl, refl, λ h. absurd (h refl), λ h. cc)
transition-replays claim_active presence_live event_connect =
    inr (_, refl, refl, λ h. absurd (h refl), λ h. cc)
transition-replays claim_active presence_live event_link_lost =
    inr (_, refl, refl, λ h. absurd (h refl), λ h. refl)
transition-replays claim_active presence_absent event_link_lost =
    inr (_, refl, refl, λ h. absurd (h refl), λ h. refl)
transition-replays claim_active presence_live event_revoke =
    inr (_, refl, refl, λ h. absurd (h refl), λ h. refl)
transition-replays claim_active presence_absent event_revoke =
    inr (_, refl, refl, λ h. absurd (h refl), λ h. refl)
