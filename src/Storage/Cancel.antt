-- ===== src/Storage/Cancel.antt =====
-- internal/storage/transitions.go: `RequestCancel`.
use agent_council.Common.{
  ℕ, String, true, not, ◌||◌, [], ◌∷◌, is_blank, update_at, if◌then◌else◌, err, ◌>>=◌, ◌>>◌,
  fail_if, or_fail,
}
use agent_council.Council.Status.{TurnStatus, is_running, turn_running, turn_cancelling}
use agent_council.Storage.Rows.{StoreError, SessionRow, TurnRow, Receipt, Db, Env, Outcome}
use agent_council.Storage.Journal.{compute_fingerprint}
use agent_council.Storage.Authority.{
  authorize_session_controller, run_id_of_session, require_run_connected, query_session,
}
use agent_council.Storage.Commands.{
  holds, check_expected, check_decision, next_version, set_session, receipt_of, journaled, once,
}

-- The turn's row decides: a second request is journaled and changes nothing else.
cancel_row : Db → ℕ → (op lease fp session key : String) → SessionRow → TurnRow → Outcome Receipt
cancel_row db now op lease fp session key s t =
    if turn_cancelling t.status
    then journaled db op "request_cancel" fp s.run_id session key "cancel_noop"
        (receipt_of op "request_cancel" session key s.row_version now "cancelling") lease
    else if not (turn_running t.status)
    then err StoreError.cannot_cancel
    else do
      version ← next_version s.row_version
      journaled
          (record (set_session session (record s { row_version = version }) db) {
            turns =
                update_at session key (λ u. record u { status = TurnStatus.cancelling }) db.turns;
          })
          op "request_cancel" fp s.run_id session key "cancel_requested"
          (receipt_of op "request_cancel" session key version now "cancelling") lease

unfoldable pub cancel_new : Db → ℕ → (op lease fp session : String) → ℕ → String → Outcome Receipt
unfolding cancel_row
cancel_new db now op lease fp session expected key = do
  require_run_connected db (run_id_of_session db session)
  s ← query_session db session
  check_decision s expected
  fail_if (not (is_running s.state) || not (holds s.active_key key)) StoreError.nothing_to_cancel
  t ← or_fail (db.turns session key) StoreError.turn_not_found
  cancel_row db now op lease fp session key s t

unfoldable pub request_cancel :
    Env → Db → ℕ → (op lease session : String) → ℕ → String → Outcome Receipt
request_cancel env db now op lease session expected key = do
  check_expected expected
  fail_if (is_blank key) StoreError.empty_turn_key
  let fp = compute_fingerprint env ("request_cancel" ∷ session ∷ key ∷ [])
  once db op "request_cancel" fp (authorize_session_controller db session lease true)
      (λ gen. cancel_new db now op lease fp session expected key)
