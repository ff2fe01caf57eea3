-- ===== src/Storage/Observed.antt =====
-- internal/storage/execution_outcomes.go: `RecordObservedExecutionOutcome` and
-- `RecordObservedDispatchAcknowledgement`, which the supervisor of the executions calls.
use Prim.Native.String.{◌++◌}
use agent_council.Common.{
  ◌+◌, ℕ, String, not, [], ◌∷◌, is_blank, update_at, decimal, if◌then◌else◌, err, ◌>>=◌, ◌>>◌,
  fail_if, or_fail,
}
use agent_council.Council.Status.{TurnStatus, is_terminal, lifecycle_archived}
use agent_council.Storage.Rows.{StoreError, SessionRow, TurnRow, Phase, Receipt, Db, Env, Outcome}
use agent_council.Storage.Journal.{compute_fingerprint}
use agent_council.Storage.Commands.{next_version, set_session, receipt_of, journaled, once}
use agent_council.Storage.Terminal.{
  status_text, end_turn, outcome_expected, parked_row, same_outcome,
}
use agent_council.Storage.Dispatch.{phase_text, is_resolved, is_observation}
use agent_council.Storage.Reconcile.{ExecutionRef, resolve_execution_ref}

-- `fmt.Sprintf("%s:issued_by_generation=%d", …)`.
abbrev issued_by : String → ℕ → String
issued_by t gen = t ++ (":issued_by_generation=" ++ decimal gen)

-- An exact duplicate is journaled; a conflicting outcome of an ended turn is refused.
unfoldable pub observed_row :
    Db
    → ℕ
    → ℕ
    → (op fp session key : String) → TurnStatus
    → String
    → SessionRow
    → TurnRow
    → Outcome Receipt
unfolding outcome_expected
observed_row db now gen op fp session key status result s t =
    if is_terminal t.status
    then (if same_outcome t status result
        then journaled db op "record_observed_execution_outcome" fp s.run_id session key
            ("turn_" ++ (status_text status ++ "_duplicate"))
            (receipt_of op "record_observed_execution_outcome" session key s.row_version now
              (status_text status ++ ":duplicate"))
            ""
        else err StoreError.conflicting_terminal_outcome)
    else if not (outcome_expected s key)
    then err StoreError.outcome_mismatch
    else do
      version ← next_version s.row_version
      journaled
          (end_turn session key status result (set_session session (parked_row s key version) db))
          op "record_observed_execution_outcome" fp s.run_id session key
          ("turn_" ++ (status_text status ++ "_observed"))
          (receipt_of op "record_observed_execution_outcome" session key version now
            (issued_by (status_text status) gen))
          ""

unfoldable pub observed_new :
    Db → ℕ → ℕ → (op fp : String) → ExecutionRef → TurnStatus → String → Outcome Receipt
observed_new db now gen op fp ref status result = do
  s ← or_fail (db.sessions ref.session_id) StoreError.query_session
  fail_if (lifecycle_archived s.lifecycle) StoreError.session_archived
  t ← or_fail (db.turns ref.session_id ref.turn_key) StoreError.turn_not_found
  observed_row db now gen op fp ref.session_id ref.turn_key status result s t

unfoldable pub record_observed_execution_outcome :
    Env → Db → ℕ → String → ExecutionRef → TurnStatus → String → Outcome Receipt
record_observed_execution_outcome env db now op ref status raw_result = do
  fail_if (is_blank op) StoreError.empty_parameter
  fail_if (not (is_terminal status)) StoreError.invalid_status
  let result = env.sanitize_text raw_result
  let fp = compute_fingerprint env (
      "record_observed_execution_outcome"
      ∷ ref.session_id
      ∷ ref.turn_key
      ∷ ref.attempt_id
      ∷ status_text status
      ∷ result
      ∷ [])
  once db op "record_observed_execution_outcome" fp (resolve_execution_ref db ref)
      (λ gen. observed_new db now gen op fp ref status result)

-- The row is counted up in SQL, which refuses no version: where SQLite would turn to a real number,
-- the model counts on.
unfoldable pub acknowledged_new :
    Db → ℕ → ℕ → (op fp : String) → ExecutionRef → Phase → Outcome Receipt
acknowledged_new db now gen op fp ref phase = do
  s ← or_fail (db.sessions ref.session_id) StoreError.query_session
  i ← or_fail (db.dispatch_intents ref.session_id ref.turn_key) StoreError.query_session
  fail_if (is_resolved i.phase) StoreError.intent_resolved
  let version = s.row_version + 1
  journaled
      (record (set_session ref.session_id (record s { row_version = version }) db) {
        dispatch_intents =
            update_at ref.session_id ref.turn_key (λ j. record j { phase = phase })
              db.dispatch_intents;
      })
      op "record_dispatch_observation" fp s.run_id ref.session_id ref.turn_key "dispatch_observed"
      (receipt_of op "record_dispatch_observation" ref.session_id ref.turn_key version now
        (issued_by (phase_text phase) gen))
      ""

unfoldable pub record_observed_dispatch_acknowledgement :
    Env → Db → ℕ → String → ExecutionRef → Phase → Outcome Receipt
record_observed_dispatch_acknowledgement env db now op ref phase = do
  fail_if (not (is_observation phase)) StoreError.invalid_phase
  fail_if (is_blank op) StoreError.empty_parameter
  let fp = compute_fingerprint env (
      "record_dispatch_observation"
      ∷ ref.session_id
      ∷ ref.turn_key
      ∷ ref.attempt_id
      ∷ phase_text phase
      ∷ [])
  once db op "record_dispatch_observation" fp (resolve_execution_ref db ref)
      (λ gen. acknowledged_new db now gen op fp ref phase)
