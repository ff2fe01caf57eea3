-- ===== src/Storage/Step.antt =====
-- The transitions of internal/storage as commands, and a history of commands. A command that fails
-- leaves the tables as they were, since its transaction is rolled back.
use agent_council.Common.{ℕ, String, List, [], ◌∷◌, Option, ok, err}
use agent_council.Council.Status.{TurnStatus, ControllerConnection}
use agent_council.Storage.Rows.{Phase, Receipt, Db, Env, Outcome}
use agent_council.Storage.Prompts.{queue_prompt, replace_pending_prompt, discard_pending_prompt}
use agent_council.Storage.Release.{ReleaseResult, release_turn}
use agent_council.Storage.Cancel.{request_cancel}
use agent_council.Storage.Terminal.{record_terminal_outcome}
use agent_council.Storage.HostLoss.{record_host_loss}
use agent_council.Storage.Control.{set_controller_connection, archive_session}
use agent_council.Storage.Dispatch.{record_dispatch_observation}
use agent_council.Storage.Observed.{
  record_observed_execution_outcome, record_observed_dispatch_acknowledgement,
}
use agent_council.Storage.Reconcile.{
  ExecutionRef, RecoveryRef, ReconciliationOutcome, reconcile_session,
}

-- The first text of a command is its operation id.
pub data Command : Type 0 where
  queues : (op lease session : String) → ℕ → (key prompt : String) → List String → Command
  replaces :
      (op lease session : String) → ℕ → (key prompt : String) → Option (List String) → Command
  discards : (op lease session : String) → ℕ → String → Command
  releases : (op lease session : String) → ℕ → String → Command
  cancels : (op lease session : String) → ℕ → String → Command
  ends : (op lease session : String) → ℕ → String → TurnStatus → String → Command
  loses_host : (op lease session : String) → ℕ → Command
  connects : (op lease session : String) → ℕ → ControllerConnection → Command
  archives : (op lease session : String) → ℕ → Command
  observes : (op lease session key : String) → Phase → Command
  observes_outcome : String → ExecutionRef → TurnStatus → String → Command
  acknowledges : String → ExecutionRef → Phase → Command
  reconciles : String → ExecutionRef → RecoveryRef → ReconciliationOutcome → Command

-- The operation's receipt inside a release's result.
abbrev pub operation_of : Outcome ReleaseResult → Outcome Receipt
operation_of (ok (r, db)) = ok (r.receipt.operation, db)
operation_of (err e) = err e

unfoldable pub execute : Env → Db → ℕ → Command → Outcome Receipt
execute env db now (queues op lease session expected key prompt tools) =
    queue_prompt env db now op lease session expected key prompt tools
execute env db now (replaces op lease session expected key prompt tools) =
    replace_pending_prompt env db now op lease session expected key prompt tools
execute env db now (discards op lease session expected key) =
    discard_pending_prompt env db now op lease session expected key
execute env db now (releases op lease session expected key) =
    operation_of (release_turn env db now op lease session expected key)
execute env db now (cancels op lease session expected key) =
    request_cancel env db now op lease session expected key
execute env db now (ends op lease session expected key status result) =
    record_terminal_outcome env db now op lease session expected key status result
execute env db now (loses_host op lease session expected) =
    record_host_loss env db now op lease session expected
execute env db now (connects op lease session expected status) =
    set_controller_connection env db now op lease session expected status
execute env db now (archives op lease session expected) =
    archive_session env db now op lease session expected
execute env db now (observes op lease session key phase) =
    record_dispatch_observation env db now op lease session key phase
execute env db now (observes_outcome op ref status result) =
    record_observed_execution_outcome env db now op ref status result
execute env db now (acknowledges op ref phase) =
    record_observed_dispatch_acknowledgement env db now op ref phase
execute env db now (reconciles op execution ref outcome) =
    reconcile_session env db now op execution ref outcome

unfoldable pub step : Env → Db → ℕ × Command → Db
step env db (now, c) = elim (execute env db now c) [ ok (r, db') ↦ db' | err e ↦ db ]

unfoldable pub run : Env → Db → List (ℕ × Command) → Db
unfolding step
run env db [] = db
run env db (c ∷ cs) = run env (step env db c) cs
