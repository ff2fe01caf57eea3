-- ===== src/Storage/Terminal.antt =====
-- internal/storage/transitions.go: `RecordTerminalOutcome`.
use Prim.Native.String.{◌++◌}
use agent_council.Common.{
  ℕ, String, Bool, true, not, ◌&&◌, ◌||◌, [], ◌∷◌, none, some, is_blank, update_at, text_eq,
  if◌then◌else◌, err, ◌>>=◌, ◌>>◌, fail_if, or_fail,
}
use agent_council.Council.Status.{State, TurnStatus, is_running, is_lost, is_terminal}
use agent_council.Storage.Rows.{StoreError, SessionRow, TurnRow, Phase, Receipt, Db, Env, Outcome}
use agent_council.Storage.Journal.{compute_fingerprint}
use agent_council.Storage.Authority.{authorize_session_controller, query_session}
use agent_council.Storage.Commands.{
  holds, check_expected, check_row, next_version, set_session, receipt_of, journaled, once,
}

-- The four statuses that end a turn, as they are stored.
unfoldable pub status_text : TurnStatus → String
status_text TurnStatus.pending = "pending"
status_text TurnStatus.running = "running"
status_text TurnStatus.completed = "completed"
status_text TurnStatus.interrupted = "interrupted"
status_text TurnStatus.cancelling = "cancelling"
status_text TurnStatus.cancelled = "cancelled"
status_text TurnStatus.failed = "failed"
status_text (TurnStatus.unknown t) = t

-- The turn and its dispatch intent, ended.
unfoldable pub end_turn : String → String → TurnStatus → String → Db → Db
end_turn session key status result db = record db {
  turns = update_at session key (λ t. record t { status = status; result = result }) db.turns;
  dispatch_intents =
      update_at session key (λ i. record i { phase = Phase.resolved }) db.dispatch_intents;
}

-- Whether an outcome of the turn `key` is expected. A lost host may also deliver one for the turn
-- that its recovery episode names.
unfoldable pub outcome_expected : SessionRow → String → Bool
outcome_expected s key =
    if is_lost s.visibility
    then holds s.active_key key || holds s.recovery_context key
    else is_running s.state && holds s.active_key key

-- The parked session; a lost host keeps its recovery episode.
abbrev pub parked_row : SessionRow → String → ℕ → SessionRow
parked_row s key version = record s {
  active_key = none;
  state = State.parked;
  recovery_context = if is_lost s.visibility then some key else s.recovery_context;
  row_version = version;
}

unfoldable pub same_outcome : TurnRow → TurnStatus → String → Bool
same_outcome t status result =
    text_eq (status_text t.status) (status_text status) && text_eq t.result result

-- An exact duplicate is journaled; a conflicting outcome of an ended turn is refused.
unfoldable pub terminal_row :
    Db
    → ℕ
    → (op lease fp session key : String) → TurnStatus
    → String
    → SessionRow
    → TurnRow
    → Outcome Receipt
unfolding end_turn outcome_expected
terminal_row db now op lease fp session key status result s t =
    if is_terminal t.status
    then (if same_outcome t status result
        then journaled db op "record_terminal_outcome" fp s.run_id session key
            ("turn_" ++ (status_text status ++ "_duplicate"))
            (receipt_of op "record_terminal_outcome" session key s.row_version now
              (status_text status))
            lease
        else err StoreError.conflicting_terminal_outcome)
    else if not (outcome_expected s key)
    then err StoreError.outcome_mismatch
    else do
      version ← next_version s.row_version
      journaled
          (end_turn session key status result (set_session session (parked_row s key version) db))
          op "record_terminal_outcome" fp s.run_id session key ("turn_" ++ status_text status)
          (receipt_of op "record_terminal_outcome" session key version now (status_text status))
          lease

unfoldable pub terminal_new :
    Db → ℕ → (op lease fp session : String) → ℕ → String → TurnStatus → String → Outcome Receipt
terminal_new db now op lease fp session expected key status result = do
  s ← query_session db session
  check_row s expected
  t ← or_fail (db.turns session key) StoreError.turn_not_found
  terminal_row db now op lease fp session key status result s t

unfoldable pub record_terminal_outcome :
    Env → Db → ℕ → (op lease session : String) → ℕ → String → TurnStatus → String → Outcome Receipt
record_terminal_outcome env db now op lease session expected key status raw_result = do
  check_expected expected
  fail_if (is_blank key) StoreError.empty_turn_key
  fail_if (not (is_terminal status)) StoreError.invalid_status
  let result = env.sanitize_text raw_result
  let fp =
      compute_fingerprint env
        ("record_terminal_outcome" ∷ session ∷ key ∷ status_text status ∷ result ∷ [])
  once db op "record_terminal_outcome" fp (authorize_session_controller db session lease true)
      (λ gen. terminal_new db now op lease fp session expected key status result)
