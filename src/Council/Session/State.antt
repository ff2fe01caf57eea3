-- ===== src/Council/Session/State.antt =====
-- internal/council/domain.go: `TurnRecord`, `Session`, `NewSession` and `authorize`.
-- `Turns` and `ActiveTurn` hold pointers to one `TurnRecord`, so a turn lives in a heap of cells,
-- and both fields hold the number of its cell.
use agent_council.Common.{
  ℕ, String, not, ◌||◌, ◌==◌, Option, none, Dict, no_entries, text_eq, is_blank, if◌then◌else◌,
  Result, ok, ◌>>◌, fail_if,
}
use agent_council.Council.Contributor.{Contributor, valid_contributor}
use agent_council.Council.Status.{
  State, SessionLifecycle, TurnStatus, ControllerConnection, ExecutionVisibility, is_archived,
  lifecycle_archived, is_disconnected,
}

pub record TurnRecord : Type 0 where
  pub key : String
  pub prompt : String
  pub status : TurnStatus
  pub result : String

pub record Session : Type 0 where
  pub id : Contributor
  pub state : State
  pub lifecycle : SessionLifecycle
  pub controller_status : ControllerConnection
  pub visibility : ExecutionVisibility
  pub controller_lease : String
  pub pending : Dict String
  pub active : String
  pub active_turn : Option ℕ
  pub turns : Dict ℕ
  pub recovery_context : String
  pub recovery_generation : ℕ  -- uint64
  pub active_recovery_gen : ℕ  -- uint64
  pub cells : ℕ → TurnRecord
  pub next_cell : ℕ

-- Writes the cell `r`.
abbrev pub store : ℕ → TurnRecord → (ℕ → TurnRecord) → ℕ → TurnRecord
store r t cells i = if r == i then t else cells i

pub data SessionError : Type 0 where
  invalid_session lease_mismatch session_archived controller_disconnected : SessionError
  empty_prompt_or_key key_already_active turn_reused turn_retired duplicate_pending : SessionError
  host_lost cancellation_unresolved already_processing prompt_not_found : SessionError
  already_completed completion_mismatch nothing_to_cancel cancel_mismatch : SessionError
  interruption_mismatch failure_mismatch loss_on_inactive host_not_lost : SessionError
  empty_turn_identity stale_generation past_turn key_mismatch context_mismatch : SessionError
  invalid_target conflicts_with_terminal pending_target unknown_target : SessionError
  cannot_archive : SessionError

abbrev pub empty_turn : TurnRecord
empty_turn = record { key = ""; prompt = ""; status = TurnStatus.unknown ""; result = "" }

unfoldable pub new_session : Contributor → String → Result SessionError Session
unfolding valid_contributor
new_session id lease = do
  fail_if (not (valid_contributor id) || is_blank lease) SessionError.invalid_session
  ok (record {
    id = id;
    state = State.parked;
    lifecycle = SessionLifecycle.active;
    controller_status = ControllerConnection.connected;
    visibility = ExecutionVisibility.reachable;
    controller_lease = lease;
    pending = no_entries;
    active = "";
    active_turn = none;
    turns = no_entries;
    recovery_context = "";
    recovery_generation = 0;
    active_recovery_gen = 0;
    cells = λ _. empty_turn;
    next_cell = 0;
  })

unfoldable pub authorize : Session → String → Result SessionError (Unit {0})
authorize s lease = do
  fail_if (text_eq lease "" || not (text_eq lease s.controller_lease)) SessionError.lease_mismatch
  fail_if (lifecycle_archived s.lifecycle || is_archived s.state) SessionError.session_archived
  fail_if (is_disconnected s.controller_status) SessionError.controller_disconnected
