-- ===== src/Council/Session/Change.antt =====
-- The changes that the methods of internal/council/domain.go make to a session, one constructor
-- for each kind of change, with the facts that its guards leave behind.
use agent_council.Common.{
  ℕ, String, ◌≡◌, true, false, none, some, put, delete, is_some, is_blank, arith,
}
use agent_council.Council.Status.{
  State, TurnStatus, ControllerConnection, ExecutionVisibility, SessionLifecycle, is_parked,
  is_running, is_lost, is_live, is_terminal, turn_cancelling,
}
use agent_council.Council.Session.State.{Session, store}
use agent_council.Council.Session.Prompts.{queue, discard, replace}
use agent_council.Council.Session.Turns.{
  start_turn, settle, release, complete, complete_with_result, request_cancel, confirm_cancel,
  interrupt, fail,
}
use agent_council.Council.Session.Recovery.{
  next_generation, reachable_again, resume, record_host_loss, reconcile_host,
}
use agent_council.Council.Session.Control.{disconnect_controller, reconnect_controller, archive}
use agent_council.Council.Session.Step.{
  Call, queues, replaces, releases, discards, completes_with, fails, completes, confirms_cancel,
  interrupts, requests_cancel, archives, reconnects, loses_host, disconnects, reconciles, after,
  after_with, step,
}

pub data Change (s : Session) : Session → Type 0 where
  keeps : Change s s
  queued :
      (k p : String)
      → is_blank k ≡ false
      → s.turns k ≡ none
      → s.pending k ≡ none
      → Change s (record s { pending = put k p s.pending })
  replaced :
      (k p : String)
      → is_some (s.pending k) ≡ true
      → Change s (record s { pending = put k p s.pending })
  discarded :
      (k : String)
      → is_some (s.pending k) ≡ true
      → Change s (record s { pending = delete k s.pending })
  started :
      (k p : String)
      → s.pending k ≡ some p
      → is_lost s.visibility ≡ false
      → is_parked s.state ≡ true
      → Change s (start_turn s k p)
  settled :
      (r : ℕ) (status : TurnStatus) (result : String)
      → s.active_turn ≡ some r
      → is_terminal status ≡ true
      → Change s (settle s r status result)
  cancels :
      (r : ℕ)
      → s.active_turn ≡ some r
      → Change s (record s {
        cells = store r (record (s.cells r) { status = TurnStatus.cancelling }) s.cells;
      })
  loses :
      (r : ℕ)
      → s.active_turn ≡ some r
      → is_running s.state ≡ true
      → is_lost s.visibility ≡ false
      → Change s (record s {
        recovery_generation = next_generation s.recovery_generation;
        active_recovery_gen = next_generation s.recovery_generation;
        visibility = ExecutionVisibility.host_lost;
        recovery_context = s.active;
      })
  resumes :
      (r : ℕ) (status : TurnStatus)
      → s.active_turn ≡ some r
      → is_live status ≡ true
      → (turn_cancelling (s.cells r).status ≡ true → status ≡ TurnStatus.cancelling)
      → Change s (resume s r status)
  closes :
      (r : ℕ) (status : TurnStatus) (result : String)
      → s.active_turn ≡ some r
      → is_terminal status ≡ true
      → Change s (reachable_again (settle s r status result))
  recovers : s.active_turn ≡ none → Change s (reachable_again s)
  connects : (c : ControllerConnection) → Change s (record s { controller_status = c })
  closes_session :
      s.active_turn ≡ none
      → is_running s.state ≡ false
      → is_lost s.visibility ≡ false
      → Change s (record s { state = State.archived; lifecycle = SessionLifecycle.archived })

queue-Change : (s : Session) (lease k p : String) → Change s (after s (queue s lease k p))
unfolding queue
queue-Change s lease k p = grind (arith, keeps, queued)

release-Change : (s : Session) (lease k : String) → Change s (after_with s (release s lease k))
unfolding release
release-Change s lease k = grind (arith, keeps, started)

request_cancel-Change : (s : Session) (lease : String) → Change s (after s (request_cancel s lease))
unfolding request_cancel
request_cancel-Change s lease = grind (arith, keeps, cancels)

replace-Change : (s : Session) (lease k p : String) → Change s (after s (replace s lease k p))
unfolding replace
replace-Change s lease k p = grind (arith, keeps, replaced)

discard-Change : (s : Session) (lease k : String) → Change s (after s (discard s lease k))
unfolding discard
discard-Change s lease k = grind (arith, keeps, discarded)

complete-Change :
    (s : Session) (k result : String) → Change s (after s (complete_with_result s k result))
unfolding complete_with_result
complete-Change s k result = grind (arith, keeps, settled)

confirm_cancel-Change : (s : Session) (k : String) → Change s (after s (confirm_cancel s k))
unfolding confirm_cancel
confirm_cancel-Change s k = grind (arith, keeps, settled)

interrupt-Change : (s : Session) (k : String) → Change s (after s (interrupt s k))
unfolding interrupt
interrupt-Change s k = grind (arith, keeps, settled)

fail-Change : (s : Session) (k reason : String) → Change s (after s (fail s k reason))
unfolding fail
fail-Change s k reason = grind (arith, keeps, settled)

record_host_loss-Change : (s : Session) → Change s (after_with s (record_host_loss s))
unfolding record_host_loss
record_host_loss-Change s = grind (arith, keeps, loses)

reconcile_host-Change :
    (s : Session) (k : String) (gen : ℕ) (status : TurnStatus) (result : String)
    → Change s (after s (reconcile_host s k gen status result))
unfolding reconcile_host
reconcile_host-Change s k gen TurnStatus.running result =
    grind (arith, keeps, resumes, closes, recovers)
reconcile_host-Change s k gen _ result = grind (arith, keeps, resumes, closes, recovers)

reconnect-Change :
    (s : Session) (lease : String) → Change s (after s (reconnect_controller s lease))
unfolding reconnect_controller
reconnect-Change s lease = grind (arith, keeps, connects)

archive-Change : (s : Session) (lease : String) → Change s (after s (archive s lease))
unfolding archive
archive-Change s lease = grind (arith, keeps, closes_session)

-- Every call of a method makes one of the changes.
pub step-Change : (s : Session) (c : Call) → Change s (step s c)
unfolding step complete disconnect_controller
step-Change s (queues lease k p) = queue-Change s lease k p
step-Change s (replaces lease k p) = replace-Change s lease k p
step-Change s (releases lease k) = release-Change s lease k
step-Change s (discards lease k) = discard-Change s lease k
step-Change s (completes_with k result) = complete-Change s k result
step-Change s (fails k reason) = fail-Change s k reason
step-Change s (completes k) = complete-Change s k ""
step-Change s (confirms_cancel k) = confirm_cancel-Change s k
step-Change s (interrupts k) = interrupt-Change s k
step-Change s (requests_cancel lease) = request_cancel-Change s lease
step-Change s (archives lease) = archive-Change s lease
step-Change s (reconnects lease) = reconnect-Change s lease
step-Change s loses_host = record_host_loss-Change s
step-Change s disconnects = connects ControllerConnection.disconnected
step-Change s (reconciles k gen status result) = reconcile_host-Change s k gen status result
