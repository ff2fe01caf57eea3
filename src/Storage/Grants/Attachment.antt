-- ===== src/Storage/Grants/Attachment.antt =====
-- internal/storage/controller_attachment.go: `ConnectRunController` and `DisconnectRunController`.
-- The attachment id that `newAttachmentID` draws is an argument. The two fields that a
-- `ConnectReceipt` adds to its receipt are written out in the receipt's payload and left out.
use Prim.Native.String.{◌++◌}
use agent_council.Common.{
  ℕ, ◌+◌, String, Bool, true, false, not, ◌&&◌, ◌||◌, ◌==◌, [], ◌∷◌, none, some, text_eq, is_blank,
  decimal, if◌then◌else◌, Result, ok, err, ◌>>=◌, ◌>>◌, fail_if, or_fail,
}
use agent_council.Council.Status.{ControllerConnection}
use agent_council.Storage.Rows.{StoreError, LeaseRow, Receipt, JournalRow, Db, Env, Outcome}
use agent_council.Storage.Journal.{compute_fingerprint, find_entry, record_journal_entry}
use agent_council.Storage.Authority.{classify_run_controller, find_lease, is_active}
use agent_council.Storage.Commands.{text_of, receipt_of}
use agent_council.Storage.Grants.Install.{update_leases, project_session_connection}
use agent_council.Storage.Grants.Revoke.{grant_at}

abbrev pub active_at : String → ℕ → LeaseRow → Bool
active_at run gen g = grant_at run gen g && is_active g.status

abbrev pub attach : (attachment instance_id : String) → LeaseRow → LeaseRow
attach attachment instance_id g = record g {
  connected = true;
  attachment_id = some attachment;
  instance_id = some instance_id;
  attachment_rev = g.attachment_rev + 1;
}

abbrev pub detach : LeaseRow → LeaseRow
detach g = record g { connected = false; attachment_id = none }

-- The replay of both operations compares the fingerprint only, which begins with the command.
unfoldable pub same_print : JournalRow → String → Result StoreError Receipt
same_print e fp =
    if not (text_eq e.command_fingerprint fp) || text_eq e.payload.receipt.op_id ""
    then err StoreError.idempotency_conflict
    else ok e.payload.receipt

unfoldable pub connect_new :
    Db → ℕ → (op run : String) → ℕ → (attachment instance_id fp : String) → Outcome Receipt
connect_new db now op run gen attachment instance_id fp = do
  let leases = update_leases (active_at run gen) (attach attachment instance_id) db.leases
  g ← or_fail (find_lease (active_at run gen) leases) StoreError.no_grant
  let receipt =
      receipt_of op "connect_run_controller" "" "" gen now
        ("attachment=" ++ (attachment ++ (":rev=" ++ decimal g.attachment_rev)))
  db' ←
      record_journal_entry
        (project_session_connection run ControllerConnection.connected
          (record db { leases = leases }))
        op "connect_run_controller" fp run "" "" "controller_connected" receipt ""
  ok (receipt, db')

unfoldable pub connect_run_controller :
    Env → Db → ℕ → (op run lease : String) → ℕ → (attachment instance_id : String) → Outcome Receipt
connect_run_controller env db now op run lease expected attachment instance_id = do
  fail_if (is_blank op) StoreError.empty_parameter
  let fp = compute_fingerprint env ("connect_run_controller" ∷ run ∷ decimal expected ∷ [])
  gen ← classify_run_controller db run lease
  fail_if (not (gen == expected)) StoreError.generation_mismatch
  elim (find_entry op db.journal) [
    | some e ↦ same_print e fp >>= λ r. ok (r, db)
    | none ↦ connect_new db now op run gen attachment instance_id fp
  ]

-- Only the current episode can be ended; a late disconnect of another one changes nothing.
unfoldable pub end_episode : Db → String → ℕ → String → LeaseRow → String × Db
end_episode db run gen attachment g =
    if g.connected && text_eq (text_of g.attachment_id) attachment
    then (
      "disconnected:attachment=" ++ attachment,
      project_session_connection run ControllerConnection.disconnected
          (record db { leases = update_leases (grant_at run gen) detach db.leases }),
    )
    else ("stale_attachment_ignored", db)

unfoldable pub disconnect_new :
    Db → ℕ → (op run : String) → ℕ → (attachment fp : String) → Outcome Receipt
disconnect_new db now op run gen attachment fp = do
  g ← or_fail (find_lease (active_at run gen) db.leases) StoreError.no_grant
  let (payload, db') = end_episode db run gen attachment g
  let receipt = receipt_of op "disconnect_run_controller" "" "" gen now payload
  db'' ←
      record_journal_entry db' op "disconnect_run_controller" fp run "" "" "controller_disconnected"
        receipt ""
  ok (receipt, db'')

unfoldable pub disconnect_run_controller :
    Env → Db → ℕ → (op run lease attachment : String) → ℕ → Outcome Receipt
disconnect_run_controller env db now op run lease attachment expected = do
  fail_if (is_blank op) StoreError.empty_parameter
  let fp =
      compute_fingerprint env
        ("disconnect_run_controller" ∷ run ∷ attachment ∷ decimal expected ∷ [])
  gen ← classify_run_controller db run lease
  fail_if (not (gen == expected)) StoreError.generation_mismatch
  elim (find_entry op db.journal) [
    | some e ↦ same_print e fp >>= λ r. ok (r, db)
    | none ↦ disconnect_new db now op run gen attachment fp
  ]
