-- ===== src/Storage/Journal.antt =====
-- internal/storage/session_store.go: `computeFingerprint`, `checkOrRecordIdempotency` and
-- `recordJournalEntry`, over the append-only journal.
use Prim.Native.String.{◌++◌}
use agent_council.Common.{
  String, not, ◌||◌, List, [], ◌∷◌, Option, none, some, is_some, text_eq, if◌then◌else◌, Result, ok,
  err,
}
use agent_council.Storage.Rows.{StoreError, Receipt, JournalRow, Db, Env, Outcome}

-- What the hash of `computeFingerprint` is fed: each part, closed by a zero byte.
unfoldable pub preimage : List String → String
preimage [] = ""
preimage (p ∷ ps) = p ++ ("\0" ++ preimage ps)

unfoldable pub compute_fingerprint : Env → List String → String
compute_fingerprint env parts = env.sha256_hex (preimage parts)

-- `SELECT … FROM journal_entries WHERE op_id = ?`.
unfoldable pub find_entry : String → List JournalRow → Option JournalRow
find_entry op [] = none
find_entry op (e ∷ es) = if text_eq e.op_id op then some e else find_entry op es

unfoldable pub check_idempotency :
    Db → String → String → String → Result StoreError (Option Receipt)
check_idempotency db op cmd fp = elim (find_entry op db.journal) [
  | none ↦ ok none
  | some e ↦
      if not (text_eq e.command_type cmd) || not (text_eq e.command_fingerprint fp)
      then err StoreError.idempotency_conflict
      else ok (some e.payload.receipt)
]

-- The early return of the receipt that `op` has committed; `body` is the rest of the operation.
abbrev pub replay_or : Db → Option Receipt → Outcome Receipt → Outcome Receipt
replay_or db none body = body
replay_or db (some r) body = ok (r, db)

abbrev null_if_empty : String → Option String
null_if_empty s = if text_eq s "" then none else some s

-- The row that `recordJournalEntry` inserts.
abbrev pub journal_row : (op cmd fp run session turn event : String) → Receipt → String → JournalRow
journal_row op cmd fp run session turn event receipt lease = record {
  op_id = op;
  command_type = cmd;
  command_fingerprint = fp;
  run_id = run;
  session_id = null_if_empty session;
  turn_key = null_if_empty turn;
  event_kind = event;
  payload = record {
    caller_lease = lease;
    receipt = receipt;
    sanitized_prompt = "";
    attempt_id = "";
  };
}

-- `op_id` is UNIQUE.
unfoldable pub insert_entry : JournalRow → Db → Result StoreError Db
unfolding find_entry
insert_entry e db =
    if is_some (find_entry e.op_id db.journal)
    then err StoreError.duplicate_operation
    else ok (record db { journal = e ∷ db.journal })

unfoldable pub record_journal_entry :
    Db → (op cmd fp run session turn event : String) → Receipt → String → Result StoreError Db
unfolding insert_entry
record_journal_entry db op cmd fp run session turn event receipt lease =
    insert_entry (journal_row op cmd fp run session turn event receipt lease) db
