-- ===== src/Storage/Reconcile.antt =====
-- internal/storage/transitions.go: `ReconcileSession`, with the references of
-- internal/storage/execution_outcomes.go and the outcome of internal/adapter/types.go.
use agent_council.Common.{
  ℕ, ◌+◌, String, Bool, true, false, not, ◌&&◌, ◌||◌, ◌==◌, [], ◌∷◌, none, some, is_blank, text_eq,
  decimal, if◌then◌else◌, Result, ok, err, ◌>>=◌, ◌>>◌, fail_if, or_fail,
}
use agent_council.Council.Status.{
  State, TurnStatus, ExecutionVisibility, is_lost, is_live, is_terminal,
}
use agent_council.Storage.Rows.{StoreError, SessionRow, Receipt, Db, Env, Outcome}
use agent_council.Storage.Journal.{compute_fingerprint}
use agent_council.Storage.Authority.{query_session}
use agent_council.Storage.Commands.{
  is_set, text_of, check_version, set_session, receipt_of, journaled, once,
}
use agent_council.Storage.Terminal.{status_text, end_turn}

-- `RecoveryRef`, with its turn reference.
pub record RecoveryRef : Type 0 where
  pub session_id : String
  pub turn_key : String
  pub generation : ℕ

pub data ReconciliationStatus : Type 0 where
  reachable_active reachable_terminal definitively_missing uncertain : ReconciliationStatus
  other : String → ReconciliationStatus

pub record ReconciliationOutcome : Type 0 where
  pub ref : RecoveryRef
  pub reachability : ExecutionVisibility
  pub status : ReconciliationStatus
  pub observed : TurnStatus
  pub result : String

pub record ExecutionRef : Type 0 where
  pub session_id : String
  pub turn_key : String
  pub attempt_id : String

unfoldable pub validate_ref : RecoveryRef → Result StoreError (Unit {0})
validate_ref r = do
  fail_if (is_blank r.session_id) StoreError.invalid_reference
  fail_if (is_blank r.turn_key) StoreError.invalid_reference
  fail_if (r.generation == 0) StoreError.invalid_reference

abbrev is_failed : TurnStatus → Bool
is_failed TurnStatus.failed = true
is_failed _ = false

validate_status :
    ReconciliationStatus → ExecutionVisibility → TurnStatus → Result StoreError (Unit {0})
validate_status ReconciliationStatus.reachable_active v observed =
    fail_if (is_lost v || not (is_live observed)) StoreError.invalid_outcome
validate_status ReconciliationStatus.reachable_terminal v observed =
    fail_if (is_lost v || not (is_terminal observed)) StoreError.invalid_outcome
validate_status ReconciliationStatus.definitively_missing v observed =
    fail_if (is_lost v || not (is_failed observed)) StoreError.invalid_outcome
validate_status ReconciliationStatus.uncertain v observed =
    fail_if (not (is_lost v)) StoreError.invalid_outcome
validate_status (ReconciliationStatus.other t) v observed = err StoreError.invalid_outcome

-- `ReconciliationOutcome.Validate`.
unfoldable pub validate_outcome : ReconciliationOutcome → Result StoreError (Unit {0})
unfolding validate_status
validate_outcome o = do validate_ref o.ref; validate_status o.status o.reachability o.observed

-- The attempt of the accepted execution must be the one that the reference names.
unfoldable pub resolve_execution_ref : Db → ExecutionRef → Result StoreError ℕ
resolve_execution_ref db r = do
  fail_if (is_blank r.session_id || is_blank r.turn_key || is_blank r.attempt_id)
      StoreError.invalid_reference
  i ← or_fail (db.dispatch_intents r.session_id r.turn_key) StoreError.intent_not_found
  fail_if (not (text_eq i.attempt_id r.attempt_id)) StoreError.wrong_execution_attempt
  ok i.issuing_controller_generation

-- The episode is over.
abbrev pub reachable_row : SessionRow → ℕ → SessionRow
reachable_row s version = record s {
  visibility = ExecutionVisibility.reachable;
  active_recovery_gen = 0;
  recovery_context = some "";
  row_version = version;
}

abbrev pub parked_reachable : SessionRow → ℕ → SessionRow
parked_reachable s version = record (reachable_row s version) {
  active_key = none;
  state = State.parked;
}

-- The status that the turn ends with.
terminal_status : ReconciliationStatus → TurnStatus → Result StoreError TurnStatus
terminal_status ReconciliationStatus.reachable_terminal observed =
    if is_terminal observed then ok observed else err StoreError.invalid_status
terminal_status _ observed = ok TurnStatus.failed

-- The tables and the receipt's payload where the session still has its active turn.
unfoldable pub settle_active :
    Db
    → String
    → String
    → SessionRow
    → ℕ
    → ReconciliationStatus
    → TurnStatus
    → String
    → Result StoreError (String × Db)
unfolding end_turn terminal_status
settle_active db session key s version ReconciliationStatus.reachable_active observed result =
    ok ("reachable_active", set_session session (reachable_row s version) db)
settle_active db session key s version ReconciliationStatus.uncertain observed result =
    ok ("uncertain", set_session session (record s { row_version = version }) db)
settle_active db session key s version ReconciliationStatus.reachable_terminal observed result = do
  status ← terminal_status ReconciliationStatus.reachable_terminal observed
  ok (
    status_text status,
    end_turn session key status result (set_session session (parked_reachable s version) db),
  )
settle_active db session key s version ReconciliationStatus.definitively_missing observed result =
    ok (
      "failed",
      end_turn session key TurnStatus.failed result
          (set_session session (parked_reachable s version) db),
    )
settle_active db session key s version (ReconciliationStatus.other t) observed result =
    err StoreError.invalid_outcome

-- The same where the turn ended while the host was lost.
unfoldable pub settle_ended :
    Db → String → SessionRow → ℕ → ReconciliationStatus → Result StoreError (String × Db)
settle_ended db session s version ReconciliationStatus.reachable_terminal =
    ok ("reconciled_post_terminal", set_session session (reachable_row s version) db)
settle_ended db session s version ReconciliationStatus.definitively_missing =
    ok ("reconciled_post_terminal", set_session session (reachable_row s version) db)
settle_ended db session s version ReconciliationStatus.reachable_active =
    err StoreError.conflicts_with_terminal
settle_ended db session s version ReconciliationStatus.uncertain =
    ok ("uncertain", set_session session (record s { row_version = version }) db)
settle_ended db session s version (ReconciliationStatus.other t) = err StoreError.invalid_outcome

unfoldable pub reconcile_new :
    Env → Db → ℕ → (op fp : String) → RecoveryRef → ReconciliationOutcome → Outcome Receipt
reconcile_new env db now op fp ref outcome = do
  let session = ref.session_id
  s ← query_session db session
  fail_if (not (is_lost s.visibility)) StoreError.host_not_lost
  fail_if (ref.generation == 0 || not (s.active_recovery_gen == ref.generation))
      StoreError.stale_generation
  let version = s.row_version + 1
  let result = env.sanitize_text outcome.result
  (payload, db') ←
      (if is_set s.active_key
        then fail_if (not (text_eq (text_of s.active_key) ref.turn_key)) StoreError.key_mismatch
          >> settle_active db session ref.turn_key s version outcome.status outcome.observed result
        else fail_if (not (text_eq (text_of s.recovery_context) ref.turn_key))
            StoreError.context_mismatch
          >> settle_ended db session s version outcome.status)
  check_version version
  journaled db' op "reconcile_session" fp s.run_id session ref.turn_key "session_reconciled"
      (receipt_of op "reconcile_session" session ref.turn_key version now payload) ""

abbrev pub reconciliation_text : ReconciliationStatus → String
reconciliation_text ReconciliationStatus.reachable_active = "reachable_active"
reconciliation_text ReconciliationStatus.reachable_terminal = "reachable_terminal"
reconciliation_text ReconciliationStatus.definitively_missing = "definitively_missing"
reconciliation_text ReconciliationStatus.uncertain = "uncertain"
reconciliation_text (ReconciliationStatus.other t) = t

-- `outcome.Ref != ref`.
unfoldable pub same_ref : RecoveryRef → RecoveryRef → Bool
same_ref a b =
    text_eq a.session_id b.session_id
    && text_eq a.turn_key b.turn_key
    && (a.generation == b.generation)

unfoldable pub reconcile_session :
    Env → Db → ℕ → String → ExecutionRef → RecoveryRef → ReconciliationOutcome → Outcome Receipt
unfolding same_ref
reconcile_session env db now op execution ref outcome = do
  validate_outcome outcome
  validate_ref ref
  fail_if (not (same_ref outcome.ref ref)) StoreError.invalid_reference
  let fp = compute_fingerprint env (
      "reconcile_session"
      ∷ ref.session_id
      ∷ ref.turn_key
      ∷ execution.attempt_id
      ∷ decimal ref.generation
      ∷ reconciliation_text outcome.status
      ∷ status_text outcome.observed
      ∷ outcome.result
      ∷ [])
  fail_if
      (not (text_eq execution.session_id ref.session_id)
        || not (text_eq execution.turn_key ref.turn_key))
      StoreError.wrong_execution_attempt
  once db op "reconcile_session" fp (resolve_execution_ref db execution)
      (λ gen. reconcile_new env db now op fp ref outcome)
