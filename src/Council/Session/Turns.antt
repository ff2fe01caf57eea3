-- ===== src/Council/Session/Turns.antt =====
-- internal/council/domain.go: `Release`, `Complete`, `CompleteWithResult`, `RequestCancel`,
-- `ConfirmCancel`, `Interrupt` and `Fail`.
use agent_council.Common.{
  ℕ, ◌+◌, String, Bool, false, ◌&&◌, ◌||◌, Option, none, some, put, delete, text_eq, not, Result,
  ok, ◌>>=◌, ◌>>◌, fail_if, or_fail,
}
use agent_council.Council.Status.{
  State, TurnStatus, is_parked, is_running, is_lost, turn_running, turn_cancelling, turn_completed,
}
use agent_council.Council.Session.State.{TurnRecord, Session, SessionError, store, authorize}

-- A test of the turn that a pointer shows; a nil pointer passes no test.
abbrev pub on_turn : Session → Option ℕ → (TurnStatus → Bool) → Bool
on_turn s none test = false
on_turn s (some r) test = test (s.cells r).status

abbrev released_turn : String → String → TurnRecord
released_turn key prompt = record {
  key = key;
  prompt = prompt;
  status = TurnStatus.running;
  result = "";
}

-- The session after a release of the pending `prompt` under `key`.
unfoldable pub start_turn : Session → String → String → Session
start_turn s key prompt = record s {
  pending = delete key s.pending;
  cells = store s.next_cell (released_turn key prompt) s.cells;
  next_cell = s.next_cell + 1;
  turns = put key s.next_cell s.turns;
  active_turn = some s.next_cell;
  active = key;
  state = State.running;
}

unfoldable pub release : Session → String → String → Result SessionError (String × Session)
unfolding authorize start_turn
release s lease key = do
  authorize s lease
  fail_if (is_lost s.visibility) SessionError.host_lost
  fail_if (on_turn s s.active_turn turn_cancelling) SessionError.cancellation_unresolved
  fail_if (not (is_parked s.state)) SessionError.already_processing
  prompt ← or_fail (s.pending key) SessionError.prompt_not_found
  ok (prompt, start_turn s key prompt)

-- Writes the ending of the turn in cell `r`, and parks the session.
unfoldable pub settle : Session → ℕ → TurnStatus → String → Session
settle s r status result = record s {
  cells = store r (record (s.cells r) { status = status; result = result }) s.cells;
  active = "";
  active_turn = none;
  state = State.parked;
}

unfoldable pub complete_with_result : Session → String → String → Result SessionError Session
unfolding settle
complete_with_result s key result = do
  fail_if (on_turn s (s.turns key) turn_completed) SessionError.already_completed
  fail_if (not (is_running s.state) || not (text_eq s.active key)) SessionError.completion_mismatch
  r ← or_fail s.active_turn SessionError.completion_mismatch
  ok (settle s r TurnStatus.completed result)

unfoldable pub complete : Session → String → Result SessionError Session
unfolding complete_with_result
complete s key = complete_with_result s key ""

unfoldable pub request_cancel : Session → String → Result SessionError Session
unfolding authorize
request_cancel s lease = do
  authorize s lease
  fail_if (not (is_running s.state)) SessionError.nothing_to_cancel
  r ← or_fail s.active_turn SessionError.nothing_to_cancel
  fail_if (not (turn_running (s.cells r).status)) SessionError.nothing_to_cancel
  ok (record s { cells = store r (record (s.cells r) { status = TurnStatus.cancelling }) s.cells })

unfoldable pub confirm_cancel : Session → String → Result SessionError Session
unfolding settle
confirm_cancel s key = do
  fail_if (not (text_eq s.active key)) SessionError.cancel_mismatch
  r ← or_fail s.active_turn SessionError.cancel_mismatch
  fail_if (not (turn_cancelling (s.cells r).status)) SessionError.cancel_mismatch
  ok (settle s r TurnStatus.cancelled (s.cells r).result)

unfoldable pub interrupt : Session → String → Result SessionError Session
unfolding settle
interrupt s key = do
  fail_if (not (text_eq s.active key)) SessionError.interruption_mismatch
  r ← or_fail s.active_turn SessionError.interruption_mismatch
  fail_if (not (turn_running (s.cells r).status) && not (turn_cancelling (s.cells r).status))
      SessionError.interruption_mismatch
  ok (settle s r TurnStatus.interrupted (s.cells r).result)

unfoldable pub fail : Session → String → String → Result SessionError Session
unfolding settle
fail s key reason = do
  fail_if (not (text_eq s.active key)) SessionError.failure_mismatch
  r ← or_fail s.active_turn SessionError.failure_mismatch
  ok (settle s r TurnStatus.failed reason)
