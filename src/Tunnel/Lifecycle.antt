-- ===== src/Tunnel/Lifecycle.antt =====
-- specimens/ingress-tunnel/internal/tunnel/transition.go, errors.go and audit.go: the lifecycle
-- table of a tunnel, the error classes and the audit rows.
pub mod Replay
use saas_reaper.Base.{ℕ, String, Option, none, some, List, [], ◌∷◌}
use saas_reaper.Base.Int64.{ℤ}

-- The classes of errors.go; `panicked` stands for a panic, `other` for errors of no class.
pub data Error : Type 0 where
  invalid conflict not_found unauthorized revoked other panicked : Error

pub data ClaimState : Type 0 where
  claim_active claim_revoked : ClaimState

pub data Presence : Type 0 where
  presence_absent presence_live : Presence

pub data Event : Type 0 where
  event_connect event_link_lost event_revoke : Event

pub data AuditKind : Type 0 where
  audit_claimed audit_connected audit_superseded audit_disconnected audit_revoked : AuditKind

pub record Status : Type 0 where
  pub claim : ClaimState
  pub presence : Presence

pub record Outcome : Type 0 where
  pub status : Status
  pub audit : List AuditKind
  pub error : Option Error

-- The formatted detail of a row: "revision %d" or "generation %d".
pub data Detail : Type 0 where
  revision_detail : ℤ → Detail
  generation_detail : ℕ → Detail

-- A principal: the management actor, or `AgentActor` of a subdomain.
pub data Actor : Type 0 where
  manager : String → Actor
  agent : String → Actor

-- The sequence number is left out: it is the row's place in the log.
pub record AuditEntry : Type 0 where
  pub at : ℕ
  pub subdomain : String
  pub kind : AuditKind
  pub actor : Actor
  pub detail : Detail

abbrev status_of : ClaimState → Presence → Status
status_of claim presence = record { claim = claim; presence = presence }

abbrev moved : ClaimState → Presence → List AuditKind → Option Outcome
moved claim presence audit =
    some (record { status = status_of claim presence; audit = audit; error = none })

abbrev denied : Status → Error → Option Outcome
denied current error = some (record { status = current; audit = []; error = some error })

-- `none` is the panic.
revoked_transition : Presence → Event → Option Outcome
revoked_transition presence_live event = none
revoked_transition presence_absent event_connect =
    denied (status_of claim_revoked presence_absent) revoked
revoked_transition presence_absent event_revoke =
    denied (status_of claim_revoked presence_absent) conflict
revoked_transition presence_absent event_link_lost = moved claim_revoked presence_absent []

transition_of : ClaimState → Presence → Event → Option Outcome
unfolding revoked_transition
transition_of claim_revoked presence event = revoked_transition presence event
transition_of claim_active presence_absent event_connect =
    moved claim_active presence_live (audit_connected ∷ [])
transition_of claim_active presence_live event_connect =
    moved claim_active presence_live (audit_superseded ∷ audit_connected ∷ [])
transition_of claim_active presence_live event_link_lost =
    moved claim_active presence_absent (audit_disconnected ∷ [])
transition_of claim_active presence_absent event_link_lost = moved claim_active presence_absent []
transition_of claim_active presence_live event_revoke =
    moved claim_revoked presence_absent (audit_disconnected ∷ audit_revoked ∷ [])
transition_of claim_active presence_absent event_revoke =
    moved claim_revoked presence_absent (audit_revoked ∷ [])

unfoldable pub transition : Status → Event → Option Outcome
unfolding transition_of
transition current event = transition_of current.claim current.presence event
