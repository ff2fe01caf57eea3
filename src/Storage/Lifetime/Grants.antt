-- ===== src/Storage/Lifetime/Grants.antt =====
-- internal/storage: what an adoption and a handoff leave of the rows of a session.
use agent_council.Common.{
  ℕ, String, ◌≡◌, ◌⊎◌, inl, inr, Option, none, some, is_some, arith, ok, Bool-cases, Option-cases,
}
use agent_council.Council.Contributor.{Contributor}
use agent_council.Council.Status.{ControllerConnection}
use agent_council.Storage.Rows.{Db, Env}
use agent_council.Storage.Journal.{find_entry, record_journal_entry, insert_entry}
use agent_council.Storage.Sessions.Invariant.{Inv}
use agent_council.Storage.Create.Invariant.{Owned}
use agent_council.Storage.Authority.{active_grant}
use agent_council.Storage.Grants.Adopt.{
  OperatorRecovery, adopt_new, adopt_controller, handoff_new, handoff_controller,
}
use agent_council.Storage.Grants.Install.{GrantReceipt, install_grant, project_session_connection}

-- The tables with other runs, leases and journal, and with the connection of a run's sessions set
-- where one is given.
abbrev pub regranted : Db → Option (String × ControllerConnection) → Db → Db
regranted db none new = record db { runs = new.runs; leases = new.leases; journal = new.journal }
regranted db (some (run, c)) new = record (project_session_connection run c db) {
  runs = new.runs;
  leases = new.leases;
  journal = new.journal;
}

abbrev pub Regrant : Db → Db → Type 0
Regrant db db' = (p : Option (String × ControllerConnection)) × (db' ≡ regranted db p db')

abbrev pub Whole : Db → Type 0
Whole db = Inv db × Owned db

pub regranted-Whole :
    (db new : Db) (p : Option (String × ControllerConnection))
    → Inv db
    → Owned db
    → Whole (regranted db p new)
unfolding project_session_connection
regranted-Whole db new none v o = ((λ id k s e. ground (arith, v id k s)), o)
regranted-Whole db new (some (run, c)) v o = (
  λ id k s e. elim (Option-cases (db.sessions id)) [
    | inl absent ↦ absurd (ground arith)
    | inr (row, found) ↦ ground (arith, v id k row)
  ],
  λ id k e. elim (Option-cases (db.sessions id)) [
    | inl absent ↦ o id k absent
    | inr (row, found) ↦ absurd (ground arith)
  ],
)

install_grant-Regrant :
    (db db' : Db) (now : ℕ) (op run : String) (harness : Contributor)
    (ref lease cmd fp event mode : String) (r : GrantReceipt)
    → install_grant db now op run harness ref lease cmd fp event mode ≡ ok (r, db')
    → db' ≡ regranted db none db'
unfolding install_grant record_journal_entry insert_entry
install_grant-Regrant db db' now op run harness ref lease cmd fp event mode r h = ground (
  arith,
  Option-cases (db.runs run),
  Bool-cases (is_some (active_grant db run)),
  Bool-cases (is_some (find_entry op db.journal)),
)

adopt_new-Regrant :
    (env : Env) (db db' : Db) (now : ℕ) (op run : String) (harness : Contributor)
    (ref bootstrap : String) (recovery : Option OperatorRecovery) (candidate fp : String)
    (r : GrantReceipt)
    → adopt_new env db now op run harness ref bootstrap recovery candidate fp ≡ ok (r, db')
    → db' ≡ regranted db none db'
unfolding adopt_new
adopt_new-Regrant env db db' now op run harness ref bootstrap recovery candidate fp r h =
    grind (arith, install_grant-Regrant)

pub adopt_controller-Regrant :
    (env : Env) (db db' : Db) (now : ℕ) (op run : String) (harness : Contributor)
    (ref bootstrap : String) (recovery : Option OperatorRecovery) (candidate : String)
    (r : GrantReceipt)
    → adopt_controller env db now op run harness ref bootstrap recovery candidate ≡ ok (r, db')
    → Regrant db db'
unfolding adopt_controller
adopt_controller-Regrant env db db' now op run harness ref bootstrap recovery candidate r h =
    (none, grind (arith, adopt_new-Regrant))

handoff_new-Regrant :
    (db db' : Db) (now : ℕ) (op run lease : String) (expected : ℕ) (harness : Contributor)
    (ref candidate fp : String) (r : GrantReceipt)
    → handoff_new db now op run lease expected harness ref candidate fp ≡ ok (r, db')
    → db' ≡ regranted db (some (run, ControllerConnection.disconnected)) db'
unfolding handoff_new project_session_connection
handoff_new-Regrant db db' now op run lease expected harness ref candidate fp r h =
    grind (arith, install_grant-Regrant)

handoff_cases :
    (env : Env) (db db' : Db) (now : ℕ) (op run lease : String) (expected : ℕ)
    (harness : Contributor) (ref candidate : String) (r : GrantReceipt)
    → handoff_controller env db now op run lease expected harness ref candidate ≡ ok (r, db')
    → (db' ≡ regranted db none db')
      ⊎ (db' ≡ regranted db (some (run, ControllerConnection.disconnected)) db')
unfolding handoff_controller
handoff_cases env db db' now op run lease expected harness ref candidate r h =
    grind (arith, handoff_new-Regrant)

pub handoff_controller-Regrant :
    (env : Env) (db db' : Db) (now : ℕ) (op run lease : String) (expected : ℕ)
    (harness : Contributor) (ref candidate : String) (r : GrantReceipt)
    → handoff_controller env db now op run lease expected harness ref candidate ≡ ok (r, db')
    → Regrant db db'
handoff_controller-Regrant env db db' now op run lease expected harness ref candidate r h =
    elim (handoff_cases env db db' now op run lease expected harness ref candidate r h) [
      | inl same ↦ (none, same)
      | inr made ↦ (some (run, ControllerConnection.disconnected), made)
    ]
