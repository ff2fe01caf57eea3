-- ===== src/Storage/Grants/Revoke.antt =====
-- internal/storage/controller_leases.go: `RevokeController`, `RecoverControllerCredential` and
-- `resolveIssuanceForRecovery`.
use Prim.Native.String.{◌++◌}
use agent_council.Common.{
  ℕ, String, Bool, true, false, not, ◌&&◌, ◌||◌, ◌==◌, [], ◌∷◌, Option, none, some, text_eq,
  is_blank, decimal, if◌then◌else◌, Result, ok, err, ◌>>=◌, ◌>>◌, fail_if, or_fail,
}
use agent_council.Council.Status.{ControllerConnection}
use agent_council.Storage.Rows.{
  StoreError, RunRow, LeaseRow, LeaseStatus, Receipt, JournalRow, Db, Env, Outcome,
}
use agent_council.Storage.Journal.{compute_fingerprint, find_entry, record_journal_entry}
use agent_council.Storage.Authority.{classify_run_controller, find_lease, is_active}
use agent_council.Storage.Commands.{receipt_of}
use agent_council.Storage.Grants.Install.{
  GrantReceipt, update_leases, latest, project_session_connection,
}
use agent_council.Storage.Grants.Adopt.{OperatorRecovery, check_reason}

-- What a revocation is authorised by: its mode, the generation it ends and the part of its
-- fingerprint that names that generation.
pub record Revocation : Type 0 where
  pub mode : String
  pub target : ℕ
  pub named : String

unfoldable pub revocation :
    Env → Db → (run lease : String) → Option OperatorRecovery → Result StoreError Revocation
revocation env db run lease (some r) = ok (record {
  mode = "recovery:reason=" ++ env.sanitize_text r.reason;
  target = r.expected_generation;
  named = "recovery-gen=" ++ decimal r.expected_generation;
})
revocation env db run lease none = do
  gen ← classify_run_controller db run lease
  ok (record { mode = "controller"; target = gen; named = "controller-gen=" ++ decimal gen })

-- The receipt that `op` has committed, if it is the same command with a readable receipt.
unfoldable pub same_operation : JournalRow → (cmd fp : String) → Result StoreError Receipt
same_operation e cmd fp =
    if not (text_eq e.command_type cmd)
      || not (text_eq e.command_fingerprint fp)
      || text_eq e.payload.receipt.op_id ""
    then err StoreError.idempotency_conflict
    else ok e.payload.receipt

abbrev pub revocable_in : String → LeaseRow → Bool
revocable_in run g = text_eq g.run_id run && is_revocable g.status
  where
    is_revocable : LeaseStatus → Bool
    is_revocable LeaseStatus.legacy = true
    is_revocable LeaseStatus.active = true
    is_revocable _ = false

unfoldable pub check_target : Db → String → Option OperatorRecovery → Result StoreError (Unit {0})
check_target db run none = ok tt
check_target db run (some r) = do
  gen ← or_fail (latest (revocable_in run) db.leases) StoreError.no_grant
  fail_if (not (r.expected_generation == gen)) StoreError.generation_mismatch

abbrev pub grant_at : String → ℕ → LeaseRow → Bool
grant_at run gen g = text_eq g.run_id run && (g.generation == gen)

abbrev pub revoke_grant : LeaseRow → LeaseRow
revoke_grant g = record g { status = LeaseStatus.revoked; connected = false; attachment_id = none }

-- The adoption flag is cleared for an adopted grant only.
abbrev pub revoked_run : ℕ → RunRow → RunRow
revoked_run target r = record r {
  controller_lease = "";
  controller_adopted = if target == 0 then r.controller_adopted else false;
}

abbrev map_run : (RunRow → RunRow) → Option RunRow → Option RunRow
map_run f none = none
map_run f (some r) = some (f r)

-- The tables with the generation `target` of the run revoked.
unfoldable pub with_revoked : Db → String → ℕ → Db
unfolding project_session_connection
with_revoked db run target =
    project_session_connection run ControllerConnection.disconnected (record db {
      leases = update_leases (grant_at run target) revoke_grant db.leases;
      runs = λ id. if text_eq run id then map_run (revoked_run target) (db.runs id) else db.runs id;
    })

unfoldable pub revoke_new :
    Db → ℕ → (op run : String) → Option OperatorRecovery → Revocation → String → Outcome Receipt
revoke_new db now op run recovery v fp = do
  check_target db run recovery
  let receipt =
      receipt_of op "revoke_controller" "" "" v.target now
        ("revoked:generation=" ++ (decimal v.target ++ (":authorized_by=" ++ v.mode)))
  db' ←
      record_journal_entry (with_revoked db run v.target) op "revoke_controller" fp run "" ""
        "controller_revoked" receipt ""
  ok (receipt, db')

unfoldable pub revoke_controller :
    Env → Db → ℕ → (op run lease : String) → Option OperatorRecovery → Outcome Receipt
revoke_controller env db now op run lease recovery = do
  fail_if (is_blank op) StoreError.empty_parameter
  check_reason recovery
  v ← revocation env db run lease recovery
  let fp = compute_fingerprint env ("revoke_controller" ∷ run ∷ v.named ∷ v.mode ∷ [])
  elim (find_entry op db.journal) [
    | some e ↦ same_operation e "revoke_controller" fp >>= λ r. ok (r, db)
    | none ↦ revoke_new db now op run recovery v fp
  ]

abbrev granted_by : String → LeaseRow → Bool
granted_by op g = text_eq g.granted_by_op_id op

abbrev issued : ℕ → JournalRow → String → LeaseRow → GrantReceipt
issued now e source g = record {
  receipt =
      receipt_of source e.command_type "" "" g.generation now
        ("generation=" ++ decimal g.generation);
  generation = g.generation;
  lease_secret = g.lease;
  issuance_status = g.status;
  replayed_receipt = false;
}

unfoldable pub resolve_issuance :
    Db → ℕ → (run source : String) → ℕ → Result StoreError GrantReceipt
resolve_issuance db now run source expected = do
  e ← or_fail (find_entry source db.journal) StoreError.recovery_unavailable
  fail_if
      (not (text_eq e.command_type "adopt_controller")
        && not (text_eq e.command_type "handoff_controller"))
      StoreError.recovery_unavailable
  g ← or_fail (find_lease (granted_by source) db.leases) StoreError.recovery_unavailable
  fail_if (not (text_eq g.run_id run)) StoreError.recovery_unavailable
  fail_if (not (g.generation == expected)) StoreError.generation_mismatch
  fail_if (not (is_active g.status)) StoreError.recovery_unavailable
  ok (issued now e source g)

unfoldable pub recover_new : Db → ℕ → (op run source : String) → ℕ → String → Outcome GrantReceipt
recover_new db now op run source expected fp = do
  grant ← resolve_issuance db now run source expected
  let receipt =
      receipt_of op "recover_controller_credential" "" "" grant.generation now
        ("recovered:generation=" ++ (decimal grant.generation ++ (":source=" ++ source)))
  db' ←
      record_journal_entry db op "recover_controller_credential" fp run "" ""
        "controller_credential_recovered" receipt ""
  ok (grant, db')

-- The replay resolves the issuance again.
unfoldable pub recover_controller_credential :
    Env → Db → ℕ → (op run source : String) → ℕ → Outcome GrantReceipt
recover_controller_credential env db now op run source expected = do
  fail_if (is_blank op || is_blank source) StoreError.empty_parameter
  let fp =
      compute_fingerprint env
        ("recover_controller_credential" ∷ run ∷ source ∷ decimal expected ∷ [])
  elim (find_entry op db.journal) [
    | some e ↦
        if not (text_eq e.command_type "recover_controller_credential")
          || not (text_eq e.command_fingerprint fp)
        then err StoreError.idempotency_conflict
        else (resolve_issuance db now run source expected >>= λ grant. ok (grant, db))
    | none ↦ recover_new db now op run source expected fp
  ]
