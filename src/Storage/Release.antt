-- ===== src/Storage/Release.antt =====
-- internal/storage/transitions.go: `ReleaseTurn` and `FindCommittedRelease`.
use Prim.Native.String.{◌++◌}
use agent_council.Common.{
  ℕ, String, true, not, ◌||◌, [], ◌∷◌, Option, none, some, is_some, text_eq, is_blank, put, put_at,
  delete_at, decimal, if◌then◌else◌, Result, ok, err, ◌>>=◌, ◌>>◌, fail_if, or_fail,
}
use agent_council.Council.Status.{State, TurnStatus, is_parked, is_lost}
use agent_council.Storage.Rows.{
  StoreError, SessionRow, PendingRow, Phase, Receipt, Payload, JournalRow, Db, Env, Outcome,
}
use agent_council.Storage.Journal.{compute_fingerprint, find_entry, insert_entry, journal_row}
use agent_council.Storage.Authority.{
  authorize_session_controller, run_id_of_session, require_run_connected, query_session,
}
use agent_council.Storage.Commands.{
  is_set, check_expected, check_decision, next_version, receipt_of,
}

-- `ReleaseReceipt`; the embedded receipt has the same turn key.
pub record ReleaseReceipt : Type 0 where
  pub operation : Receipt
  pub sanitized_prompt : String
  pub turn_key : String
  pub attempt_id : String

pub data Disposition : Type 0 where
  new replayed : Disposition

pub record ReleaseResult : Type 0 where
  pub receipt : ReleaseReceipt
  pub disposition : Disposition

-- The JSON holds one "turn_key", which the outer field writes and reads; the embedded key is then
-- filled in from it.
abbrev pub decode_release : Payload → ReleaseReceipt
decode_release p = record {
  operation = p.receipt;
  sanitized_prompt = p.sanitized_prompt;
  turn_key = p.receipt.turn_key;
  attempt_id = p.attempt_id;
}

-- A row counts as a committed release if its payload names a turn.
unfoldable pub stored_release : Db → String → String → Result StoreError (Option ReleaseReceipt)
unfolding find_entry
stored_release db op fp = elim (find_entry op db.journal) [
  | none ↦ ok none
  | some e ↦
      if text_eq e.payload.receipt.turn_key ""
      then ok none
      else if not (text_eq e.command_type "release_turn") || not (text_eq e.command_fingerprint fp)
      then err StoreError.idempotency_conflict
      else ok (some (decode_release e.payload))
]

unfoldable pub find_committed_release :
    Env → Db → (op lease session key : String) → Result StoreError (Option ReleaseReceipt)
unfolding stored_release
find_committed_release env db op lease session key = do
  gen ← authorize_session_controller db session lease true
  stored_release db op (compute_fingerprint env ("release_turn" ∷ session ∷ key ∷ []))

-- `fmt.Sprintf("att_%d_%s", newVer, turnKey)`.
abbrev pub attempt_name : ℕ → String → String
attempt_name version key = "att_" ++ (decimal version ++ ("_" ++ key))

-- The tables after the release of the pending row `p`, before its journal entry.
unfoldable pub start_turn : Db → ℕ → String → String → SessionRow → ℕ → String → PendingRow → Db
start_turn db gen session key s version sanitized p =
    let attempt = attempt_name version key in
    record db {
      sessions =
          put session
            (record s { active_key = some key; state = State.running; row_version = version })
            db.sessions;
      pending_prompts = delete_at session key db.pending_prompts;
      turns =
          put_at session key
            (record {
              prompt = sanitized;
              status = TurnStatus.running;
              result = "";
              attempt_id = attempt;
            })
            db.turns;
      dispatch_intents =
          put_at session key
            (record {
              attempt_id = attempt;
              phase = Phase.intent_recorded;
              required_tools_json = p.required_tools_json;
              issuing_controller_generation = gen;
            })
            db.dispatch_intents;
    }

abbrev pub release_receipt : ℕ → (op session key : String) → ℕ → String → ReleaseReceipt
release_receipt now op session key version sanitized = record {
  operation = receipt_of op "release_turn" session key version now sanitized;
  sanitized_prompt = sanitized;
  turn_key = key;
  attempt_id = attempt_name version key;
}

-- The row of a release: its payload is a `releaseJournalPayload`.
abbrev pub release_row : (op fp run session key lease : String) → ReleaseReceipt → JournalRow
release_row op fp run session key lease r =
    record (journal_row op "release_turn" fp run session key "turn_released" r.operation lease) {
      payload = record {
        caller_lease = lease;
        receipt = r.operation;
        sanitized_prompt = r.sanitized_prompt;
        attempt_id = r.attempt_id;
      };
    }

-- The primary keys of `turns` and `dispatch_intents` refuse a second row.
check_fresh_turn : Db → String → String → Result StoreError (Unit {0})
check_fresh_turn db session key =
    fail_if (is_some (db.turns session key) || is_some (db.dispatch_intents session key))
      StoreError.constraint_failed

unfoldable pub release_new :
    Env → Db → ℕ → ℕ → (op lease fp session : String) → ℕ → String → Outcome ReleaseResult
unfolding check_fresh_turn
release_new env db now gen op lease fp session expected key = do
  require_run_connected db (run_id_of_session db session)
  s ← query_session db session
  check_decision s expected
  fail_if (is_lost s.visibility) StoreError.host_lost
  fail_if (not (is_parked s.state) || is_set s.active_key) StoreError.not_parked
  p ← or_fail (db.pending_prompts session key) StoreError.prompt_not_queued
  version ← next_version s.row_version
  check_fresh_turn db session key
  let sanitized = env.sanitize_text p.prompt
  let receipt = release_receipt now op session key version sanitized
  db' ←
      insert_entry (release_row op fp s.run_id session key lease receipt)
        (start_turn db gen session key s version sanitized p)
  ok (record { receipt = receipt; disposition = Disposition.new }, db')

unfoldable pub release_turn :
    Env → Db → ℕ → (op lease session : String) → ℕ → String → Outcome ReleaseResult
unfolding stored_release
release_turn env db now op lease session expected key = do
  check_expected expected
  fail_if (is_blank key) StoreError.empty_turn_key
  let fp = compute_fingerprint env ("release_turn" ∷ session ∷ key ∷ [])
  gen ← authorize_session_controller db session lease true
  found ← stored_release db op fp
  elim found [
    | some r ↦ ok (record { receipt = r; disposition = Disposition.replayed }, db)
    | none ↦ release_new env db now gen op lease fp session expected key
  ]
