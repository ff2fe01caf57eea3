-- ===== src/Storage/Commands.antt =====
-- internal/storage: what the transitions share, their checks of a session row, their receipts and
-- their last step, which journals the receipt.
use agent_council.Common.{
  ℕ, ◌+◌, ◌^◌, String, Bool, false, not, ◌==◌, leb, Option, none, some, put, text_eq, Result, ok,
  ◌>>=◌, ◌>>◌, fail_if,
}
use agent_council.Council.Status.{lifecycle_archived, is_disconnected}
use agent_council.Storage.Rows.{StoreError, SessionRow, Receipt, Db, Outcome}
use agent_council.Storage.Journal.{check_idempotency, replay_or, record_journal_entry}

-- A nullable key: `key.Valid && key.String == k`.
abbrev pub holds : Option String → String → Bool
holds none k = false
holds (some j) k = text_eq j k

-- `key.Valid && key.String != ""`.
abbrev pub is_set : Option String → Bool
is_set none = false
is_set (some k) = not (text_eq k "")

-- `activeKey.String`.
abbrev pub text_of : Option String → String
text_of none = ""
text_of (some k) = k

-- `expectedVersion <= 0`: the model's 0 stands for every int64 that is not positive.
unfoldable pub check_expected : ℕ → Result StoreError (Unit {0})
check_expected expected = fail_if (expected == 0) StoreError.invalid_expected_version

-- The version and the lifecycle that every transition on a session row asks for.
unfoldable pub check_row : SessionRow → ℕ → Result StoreError (Unit {0})
check_row s expected = do
  fail_if (not (s.row_version == expected)) StoreError.stale_update
  fail_if (lifecycle_archived s.lifecycle) StoreError.session_archived

-- These, and the connection that a new decision asks for.
unfoldable pub check_decision : SessionRow → ℕ → Result StoreError (Unit {0})
unfolding check_row
check_decision s expected = do
  check_row s expected
  fail_if (is_disconnected s.controller_status) StoreError.controller_disconnected

-- A version past the range of an int64 wraps, and the CHECK on `row_version` refuses it.
unfoldable pub check_version : ℕ → Result StoreError (Unit {0})
check_version v = fail_if (leb (2 ^ 63) v) StoreError.constraint_failed

-- `currentVer + 1`.
unfoldable pub next_version : ℕ → Result StoreError ℕ
unfolding check_version
next_version v = check_version (v + 1) >> ok (v + 1)

abbrev pub set_session : String → SessionRow → Db → Db
set_session id s db = record db { sessions = put id s db.sessions }

abbrev pub receipt_of : (op cmd session turn : String) → ℕ → ℕ → String → Receipt
receipt_of op cmd session turn version now payload = record {
  op_id = op;
  command_type = cmd;
  session_id = session;
  turn_key = turn;
  committed_version = version;
  created_at = now;
  payload = payload;
}

-- Journals the receipt and commits.
unfoldable pub journaled :
    Db → (op cmd fp run session turn event : String) → Receipt → String → Outcome Receipt
unfolding record_journal_entry
journaled db op cmd fp run session turn event receipt lease = do
  db' ← record_journal_entry db op cmd fp run session turn event receipt lease
  ok (receipt, db')

-- The order that the transitions keep: the authority of the caller first, then the replay of a
-- committed operation, and only then a new decision.
unfoldable pub once :
    Db → (op cmd fp : String) → Result StoreError ℕ → (ℕ → Outcome Receipt) → Outcome Receipt
once db op cmd fp authority decide = do
  gen ← authority
  found ← check_idempotency db op cmd fp
  replay_or db found (decide gen)
