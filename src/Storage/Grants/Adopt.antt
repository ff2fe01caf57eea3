-- ===== src/Storage/Grants/Adopt.antt =====
-- internal/storage/controller_leases.go: `AdoptController` and `HandoffController`.
use Prim.Native.String.{◌++◌}
use agent_council.Common.{
  ℕ, String, Bool, true, false, not, ◌&&◌, ◌==◌, [], ◌∷◌, Option, none, some, text_eq, is_blank,
  decimal, Result, ok, ◌>>=◌, ◌>>◌, fail_if, or_fail,
}
use agent_council.Council.Contributor.{Contributor, valid_contributor}
use agent_council.Council.Status.{ControllerConnection}
use agent_council.Storage.Rows.{StoreError, RunRow, LeaseRow, LeaseStatus, Db, Env, Outcome}
use agent_council.Storage.Journal.{compute_fingerprint}
use agent_council.Storage.Authority.{classify_run_controller, active_in}
use agent_council.Storage.Grants.Install.{
  GrantReceipt, contributor_text, update_leases, latest, project_session_connection,
  resolve_grant_replay, install_grant,
}

pub record OperatorRecovery : Type 0 where
  pub reason : String
  pub expected_generation : ℕ

abbrev pub check_reason : Option OperatorRecovery → Result StoreError (Unit {0})
check_reason none = ok tt
check_reason (some r) = fail_if (is_blank r.reason) StoreError.empty_parameter

-- What every grant asks of its input.
unfoldable pub check_grant :
    (op : String) → Contributor → (ref candidate : String) → Result StoreError (Unit {0})
check_grant op harness ref candidate = do
  fail_if (is_blank op) StoreError.empty_parameter
  fail_if (not (valid_contributor harness)) StoreError.invalid_harness
  fail_if (is_blank ref) StoreError.empty_parameter
  fail_if (is_blank candidate) StoreError.empty_parameter

abbrev adopt_mode : Env → Option OperatorRecovery → String
adopt_mode env none = "bootstrap"
adopt_mode env (some r) =
    "recovery:gen=" ++ (decimal r.expected_generation ++ (":reason=" ++ env.sanitize_text r.reason))

-- The rows that an operator's recovery may follow.
abbrev pub recoverable_in : String → LeaseRow → Bool
recoverable_in run g = text_eq g.run_id run && is_recoverable g.status
  where
    is_recoverable : LeaseStatus → Bool
    is_recoverable LeaseStatus.legacy = true
    is_recoverable LeaseStatus.revoked = true
    is_recoverable _ = false

-- The authority over an unadopted run: its bootstrap credential, or an operator who names the
-- latest generation.
unfoldable pub check_adoption :
    Db → String → RunRow → String → Option OperatorRecovery → Result StoreError (Unit {0})
check_adoption db run r bootstrap none =
    fail_if (not (text_eq bootstrap r.controller_lease)) StoreError.unauthorized_operation
check_adoption db run r bootstrap (some recovery) = do
  gen ← or_fail (latest (recoverable_in run) db.leases) StoreError.generation_mismatch
  fail_if (not (recovery.expected_generation == gen)) StoreError.generation_mismatch

unfoldable pub adopt_new :
    Env
    → Db
    → ℕ
    → (op run : String) → Contributor
    → (ref bootstrap : String) → Option OperatorRecovery
    → (candidate fp : String) → Outcome GrantReceipt
adopt_new env db now op run harness ref bootstrap recovery candidate fp = do
  r ← or_fail (db.runs run) StoreError.run_not_found
  fail_if r.controller_adopted StoreError.adoption_exists
  check_adoption db run r bootstrap recovery
  install_grant db now op run harness ref candidate "adopt_controller" fp "controller_adopted"
      (adopt_mode env recovery)

-- A committed grant answers the same command again; `body` is the new grant.
abbrev pub grant_or : Db → Option GrantReceipt → Outcome GrantReceipt → Outcome GrantReceipt
grant_or db none body = body
grant_or db (some g) body = ok (g, db)

unfoldable pub adopt_controller :
    Env
    → Db
    → ℕ
    → (op run : String) → Contributor
    → (ref bootstrap : String) → Option OperatorRecovery
    → String
    → Outcome GrantReceipt
adopt_controller env db now op run harness ref bootstrap recovery candidate = do
  check_grant op harness ref candidate
  check_reason recovery
  let fp =
      compute_fingerprint env
        ("adopt_controller" ∷ run ∷ contributor_text harness ∷ ref ∷ adopt_mode env recovery ∷ [])
  found ← resolve_grant_replay db op "adopt_controller" fp
  grant_or db found (adopt_new env db now op run harness ref bootstrap recovery candidate fp)

-- The retired grant also loses its attachment.
abbrev pub hand_over : LeaseRow → LeaseRow
hand_over g = record g { status = LeaseStatus.superseded; connected = false; attachment_id = none }

unfoldable pub handoff_new :
    Db
    → ℕ
    → (op run lease : String) → ℕ
    → Contributor
    → (ref candidate fp : String) → Outcome GrantReceipt
handoff_new db now op run lease expected harness ref candidate fp = do
  gen ← classify_run_controller db run lease
  fail_if (not (gen == expected)) StoreError.generation_mismatch
  install_grant
      (project_session_connection run ControllerConnection.disconnected
        (record db { leases = update_leases (active_in run) hand_over db.leases }))
      now op run harness ref candidate "handoff_controller" fp "controller_handed_off" "controller"

unfoldable pub handoff_controller :
    Env
    → Db
    → ℕ
    → (op run lease : String) → ℕ
    → Contributor
    → (ref candidate : String) → Outcome GrantReceipt
handoff_controller env db now op run lease expected harness ref candidate = do
  check_grant op harness ref candidate
  let fp =
      compute_fingerprint env
        ("handoff_controller" ∷ run ∷ contributor_text harness ∷ ref ∷ decimal expected ∷ [])
  found ← resolve_grant_replay db op "handoff_controller" fp
  grant_or db found (handoff_new db now op run lease expected harness ref candidate fp)
