-- ===== src/Council/Status.antt =====
-- internal/council/domain.go: the named states of a session and of a turn.
use agent_council.Common.{String, Bool, true, false}

pub data State : Type 0 where
  parked running archived : State

pub data SessionLifecycle : Type 0 where
  active archived : SessionLifecycle

-- A turn's status is a text; `unknown` stands for every text that is none of the constants.
pub data TurnStatus : Type 0 where
  pending running completed interrupted cancelling cancelled failed : TurnStatus
  unknown : String → TurnStatus

pub data ControllerConnection : Type 0 where
  connected disconnected : ControllerConnection

pub data ExecutionVisibility : Type 0 where
  reachable host_lost : ExecutionVisibility

abbrev pub is_parked : State → Bool
is_parked State.parked = true
is_parked _ = false

abbrev pub is_running : State → Bool
is_running State.running = true
is_running _ = false

abbrev pub is_archived : State → Bool
is_archived State.archived = true
is_archived _ = false

abbrev pub lifecycle_archived : SessionLifecycle → Bool
lifecycle_archived SessionLifecycle.archived = true
lifecycle_archived SessionLifecycle.active = false

abbrev pub is_disconnected : ControllerConnection → Bool
is_disconnected ControllerConnection.disconnected = true
is_disconnected ControllerConnection.connected = false

abbrev pub is_lost : ExecutionVisibility → Bool
is_lost ExecutionVisibility.host_lost = true
is_lost ExecutionVisibility.reachable = false

abbrev pub turn_running : TurnStatus → Bool
turn_running TurnStatus.running = true
turn_running _ = false

abbrev pub turn_cancelling : TurnStatus → Bool
turn_cancelling TurnStatus.cancelling = true
turn_cancelling _ = false

abbrev pub turn_completed : TurnStatus → Bool
turn_completed TurnStatus.completed = true
turn_completed _ = false

-- `completed`, `cancelled`, `failed` and `interrupted` end a turn.
abbrev pub is_terminal : TurnStatus → Bool
is_terminal TurnStatus.completed = true
is_terminal TurnStatus.cancelled = true
is_terminal TurnStatus.failed = true
is_terminal TurnStatus.interrupted = true
is_terminal _ = false

-- A turn that a worker may still be executing.
abbrev pub is_live : TurnStatus → Bool
is_live TurnStatus.running = true
is_live TurnStatus.cancelling = true
is_live _ = false
