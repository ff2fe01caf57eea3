-- ===== src/Storage/Control.antt =====
-- internal/storage/transitions.go: `SetControllerConnection` and `ArchiveSession`.
use agent_council.Common.{
  ℕ, String, Bool, true, false, not, ◌||◌, [], ◌∷◌, if◌then◌else◌, err, ◌>>=◌, ◌>>◌, fail_if, ◌==◌,
}
use agent_council.Council.Status.{
  State, SessionLifecycle, ControllerConnection, is_running, is_lost, lifecycle_archived,
}
use agent_council.Storage.Rows.{StoreError, Receipt, Db, Env, Outcome}
use agent_council.Storage.Journal.{compute_fingerprint}
use agent_council.Storage.Authority.{authorize_session_controller, query_session}
use agent_council.Storage.Commands.{
  is_set, check_expected, check_row, next_version, set_session, receipt_of, journaled, once,
}

unfoldable pub connection_text : ControllerConnection → String
connection_text ControllerConnection.connected = "connected"
connection_text ControllerConnection.disconnected = "disconnected"

abbrev pub same_connection : ControllerConnection → ControllerConnection → Bool
same_connection ControllerConnection.connected ControllerConnection.connected = true
same_connection ControllerConnection.disconnected ControllerConnection.disconnected = true
same_connection _ _ = false

unfoldable pub connection_new :
    Db → ℕ → (op lease fp session : String) → ℕ → ControllerConnection → Outcome Receipt
connection_new db now op lease fp session expected status = do
  s ← query_session db session
  check_row s expected
  if same_connection s.controller_status status
      then journaled db op "set_controller_connection" fp s.run_id session "" "connection_noop"
          (receipt_of op "set_controller_connection" session "" s.row_version now
            (connection_text status))
          lease
      else do
        version ← next_version s.row_version
        journaled
            (set_session session (record s { controller_status = status; row_version = version })
              db)
            op "set_controller_connection" fp s.run_id session "" "connection_updated"
            (receipt_of op "set_controller_connection" session "" version now
              (connection_text status))
            lease

-- The status is one of the two constants: the source refuses any other text first.
unfoldable pub set_controller_connection :
    Env → Db → ℕ → (op lease session : String) → ℕ → ControllerConnection → Outcome Receipt
set_controller_connection env db now op lease session expected status = do
  check_expected expected
  let fp =
      compute_fingerprint env ("set_controller_connection" ∷ session ∷ connection_text status ∷ [])
  once db op "set_controller_connection" fp (authorize_session_controller db session lease true)
      (λ gen. connection_new db now op lease fp session expected status)

-- An archived session is archived again as a no-op.
unfoldable pub archive_new : Db → ℕ → (op lease fp session : String) → ℕ → Outcome Receipt
archive_new db now op lease fp session expected = do
  s ← query_session db session
  fail_if (not (s.row_version == expected)) StoreError.stale_update
  if lifecycle_archived s.lifecycle
      then journaled db op "archive_session" fp s.run_id session "" "session_archived_noop"
          (receipt_of op "archive_session" session "" s.row_version now "") lease
      else if is_running s.state || is_set s.active_key || is_lost s.visibility
      then err StoreError.cannot_archive
      else do
        version ← next_version s.row_version
        journaled
            (set_session session
              (record s {
                lifecycle = SessionLifecycle.archived;
                state = State.archived;
                row_version = version;
              })
              db)
            op "archive_session" fp s.run_id session "" "session_archived"
            (receipt_of op "archive_session" session "" version now "") lease

-- The administrator's class of authority is enough.
unfoldable pub archive_session : Env → Db → ℕ → (op lease session : String) → ℕ → Outcome Receipt
archive_session env db now op lease session expected = do
  check_expected expected
  let fp = compute_fingerprint env ("archive_session" ∷ session ∷ [])
  once db op "archive_session" fp (authorize_session_controller db session lease false)
      (λ gen. archive_new db now op lease fp session expected)
