-- ===== src/Council/Session/Recovery.antt =====
-- internal/council/domain.go: `RecordHostLoss` and `ReconcileHost`.
use agent_council.Common.{
  ℕ, ◌+◌, ◌%◌, ◌^◌, String, ◌||◌, none, some, text_eq, not, is_some, ◌==◌, if◌then◌else◌, Result,
  ok, err, ◌>>◌, fail_if,
}
use agent_council.Council.Status.{
  State, TurnStatus, ExecutionVisibility, is_running, is_lost, turn_cancelling,
}
use agent_council.Council.Session.State.{Session, SessionError, store}
use agent_council.Council.Session.Turns.{settle}

-- `s.RecoveryGeneration++` on a uint64.
abbrev pub next_generation : ℕ → ℕ
next_generation g = (g + 1) % 2 ^ 64

unfoldable pub record_host_loss : Session → Result SessionError (ℕ × Session)
record_host_loss s =
    if is_lost s.visibility
    then ok (s.active_recovery_gen, s)
    else if not (is_running s.state) || not (is_some s.active_turn)
    then err SessionError.loss_on_inactive
    else let gen = next_generation s.recovery_generation in
      ok (
        gen,
        record s {
          recovery_generation = gen;
          active_recovery_gen = gen;
          visibility = ExecutionVisibility.host_lost;
          recovery_context = s.active;
        },
      )

-- Closes the recovery episode.
abbrev pub reachable_again : Session → Session
reachable_again s = record s {
  visibility = ExecutionVisibility.reachable;
  recovery_context = "";
  active_recovery_gen = 0;
}

-- The active turn goes on in cell `r`, with the status that the probe saw.
abbrev pub resume : Session → ℕ → TurnStatus → Session
resume s r status = record (reachable_again s) {
  cells = store r (record (s.cells r) { status = status }) s.cells;
  state = State.running;
}

-- The `switch` over the active turn in cell `r`. A requested cancellation is not forgotten.
reconcile_active : Session → ℕ → TurnStatus → String → Result SessionError Session
unfolding settle
reconcile_active s r TurnStatus.running result = ok (
    resume s r
      (if turn_cancelling (s.cells r).status then TurnStatus.cancelling else TurnStatus.running))
reconcile_active s r TurnStatus.cancelling result = ok (resume s r TurnStatus.cancelling)
reconcile_active s r TurnStatus.completed result =
    ok (reachable_again (settle s r TurnStatus.completed result))
reconcile_active s r TurnStatus.cancelled result =
    ok (reachable_again (settle s r TurnStatus.cancelled result))
reconcile_active s r TurnStatus.failed result =
    ok (reachable_again (settle s r TurnStatus.failed result))
reconcile_active s r TurnStatus.interrupted result =
    ok (reachable_again (settle s r TurnStatus.interrupted result))
reconcile_active s r _ result = err SessionError.invalid_target

-- The `switch` when the turn ended while the host was lost.
reconcile_ended : Session → TurnStatus → Result SessionError Session
reconcile_ended s TurnStatus.completed = ok (reachable_again s)
reconcile_ended s TurnStatus.cancelled = ok (reachable_again s)
reconcile_ended s TurnStatus.failed = ok (reachable_again s)
reconcile_ended s TurnStatus.interrupted = ok (reachable_again s)
reconcile_ended s TurnStatus.running = err SessionError.conflicts_with_terminal
reconcile_ended s TurnStatus.cancelling = err SessionError.conflicts_with_terminal
reconcile_ended s TurnStatus.pending = err SessionError.pending_target
reconcile_ended s (TurnStatus.unknown t) = err SessionError.unknown_target

-- The error for a key that the open episode does not name.
abbrev wrong_key : Session → String → SessionError → SessionError
wrong_key s key e = if is_some (s.turns key) then SessionError.past_turn else e

unfoldable pub reconcile_host :
    Session → String → ℕ → TurnStatus → String → Result SessionError Session
unfolding reconcile_active reconcile_ended
reconcile_host s key gen status result = do
  fail_if (not (is_lost s.visibility)) SessionError.host_not_lost
  fail_if (text_eq key "") SessionError.empty_turn_identity
  fail_if (gen == 0 || not (gen == s.active_recovery_gen)) SessionError.stale_generation
  elim s.active_turn [
    | some r ↦
        fail_if (not (text_eq key s.active)) (wrong_key s key SessionError.key_mismatch)
        >> reconcile_active s r status result
    | none ↦
        fail_if (not (text_eq key s.recovery_context))
          (wrong_key s key SessionError.context_mismatch)
        >> reconcile_ended s status
  ]
