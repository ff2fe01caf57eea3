-- ===== src/Storage/HostLoss.antt =====
-- internal/storage/transitions.go: `RecordHostLoss`.
use agent_council.Common.{
  ℕ, ◌+◌, ◌^◌, String, true, not, ◌||◌, leb, [], ◌∷◌, some, decimal, if◌then◌else◌, Result, ok, err,
  ◌>>=◌, ◌>>◌,
}
use agent_council.Council.Status.{ExecutionVisibility, is_running, is_lost}
use agent_council.Storage.Rows.{StoreError, SessionRow, Receipt, Db, Env, Outcome}
use agent_council.Storage.Journal.{compute_fingerprint}
use agent_council.Storage.Authority.{authorize_session_controller, query_session}
use agent_council.Storage.Commands.{
  is_set, text_of, check_expected, check_row, next_version, set_session, receipt_of, journaled,
  once,
}

-- `recGen + 1`; the column's CHECK and the driver refuse what passes an int64.
unfoldable pub next_recovery_gen : ℕ → Result StoreError ℕ
next_recovery_gen g = if leb (2 ^ 63) (g + 1) then err StoreError.constraint_failed else ok (g + 1)

-- The row of a session whose host is lost, in the episode `gen`.
abbrev pub lost_row : SessionRow → ℕ → ℕ → SessionRow
lost_row s gen version = record s {
  recovery_gen = gen;
  active_recovery_gen = gen;
  visibility = ExecutionVisibility.host_lost;
  recovery_context = some (text_of s.active_key);
  row_version = version;
}

unfoldable pub host_loss_new : Db → ℕ → (op lease fp session : String) → ℕ → Outcome Receipt
host_loss_new db now op lease fp session expected = do
  s ← query_session db session
  check_row s expected
  if is_lost s.visibility
      then journaled db op "record_host_loss" fp s.run_id session (text_of s.active_key)
          "host_loss_noop"
          (receipt_of op "record_host_loss" session (text_of s.active_key) s.row_version now
            (decimal s.active_recovery_gen))
          lease
      else if not (is_running s.state) || not (is_set s.active_key)
      then err StoreError.loss_on_inactive
      else do
        gen ← next_recovery_gen s.recovery_gen
        version ← next_version s.row_version
        journaled (set_session session (lost_row s gen version) db) op "record_host_loss" fp
            s.run_id session (text_of s.active_key) "host_loss_recorded"
            (receipt_of op "record_host_loss" session (text_of s.active_key) version now
              (decimal gen))
            lease

unfoldable pub record_host_loss : Env → Db → ℕ → (op lease session : String) → ℕ → Outcome Receipt
record_host_loss env db now op lease session expected = do
  check_expected expected
  let fp = compute_fingerprint env ("record_host_loss" ∷ session ∷ [])
  once db op "record_host_loss" fp (authorize_session_controller db session lease true)
      (λ gen. host_loss_new db now op lease fp session expected)
