-- ===== src/Storage/Grants/Fencing.antt =====
-- internal/storage: whom a run's grants let act, after a handoff.
use agent_council.Common.{
  ℕ, String, ◌≡◌, refl, ap, ◌∙◌, inl, inr, Bool, true, false, not, ◌==◌, ◌∷◌, some, is_some,
  text_eq, text_eq_refl, is_blank, Option-cases, arith, eq_iff, ok, err, >>=-eq-ok, >>-eq-ok,
  fail_if,
}
use agent_council.Council.Contributor.{Contributor}
use agent_council.Council.Status.{ControllerConnection, lifecycle_archived}
use agent_council.Storage.Rows.{StoreError, RunRow, LeaseRow, Receipt, Db}
use agent_council.Storage.Journal.{record_journal_entry, insert_entry}
use agent_council.Storage.Authority.{
  find_lease, active_in, retired_in, active_grant, is_active, classify_credential,
  classify_run_controller, require_run_connected,
}
use agent_council.Storage.Authorized.{classify_iff}
use agent_council.Storage.Grants.Install.{
  GrantReceipt, update_leases, next_grant, with_grant, new_grant, install_grant,
  project_session_connection,
}
use agent_council.Storage.Grants.Adopt.{handoff_new, hand_over}
use agent_council.Storage.Grants.Leases.{hand_over-retired, supersede-retired}

-- Where the holder of a lease stands in tables that have retired it.
pub superseded-refused :
    (db : Db) (run lease : String) (r : RunRow) (adopted : Bool)
    → is_blank lease ≡ false
    → db.runs run ≡ some r
    → lifecycle_archived r.lifecycle ≡ false
    → text_eq r.controller_lease lease ≡ false
    → is_some (find_lease (retired_in run lease) db.leases) ≡ true
    → classify_credential db run lease adopted ≡ err StoreError.lease_superseded
unfolding classify_credential
superseded-refused db run lease r adopted b f a n s = elim (Option-cases (active_grant db run)) [
  | inl none_active ↦ ground arith
  | inr (g, active) ↦ ground arith
]

with_grant-classify :
    (db : Db) (run lease : String) (r : RunRow) (g : LeaseRow)
    → is_blank lease ≡ false
    → g.lease ≡ lease
    → text_eq g.run_id run ≡ true
    → is_active g.status ≡ true
    → lifecycle_archived r.lifecycle ≡ false
    → classify_run_controller (with_grant db run r g) run lease ≡ ok g.generation
unfolding find_lease update_leases active_grant
with_grant-classify db run lease r g b e i a n =
    (classify_iff (with_grant db run r g) run lease g.generation).1 (record {
      r = record r { controller_lease = g.lease; controller_adopted = true };
      g = g;
      named = b;
      found = ground (arith, eq_iff run run);
      unarchived = n;
      adopted = refl;
      granted = ground (arith, eq_iff g.run_id run);
      presented = e;
      agreed = e;
      current = refl;
    })

pub record_journal_entry-tables :
    (db db' : Db) (op cmd fp run session turn event : String) (r : Receipt) (lease : String)
    → record_journal_entry db op cmd fp run session turn event r lease ≡ ok db'
    → db' ≡ record db { journal = db'.journal }
unfolding record_journal_entry insert_entry
record_journal_entry-tables db db' op cmd fp run session turn event r lease h = ground arith

-- The tables that an installed grant leaves, less the journal.
pub install_grant-tables :
    (db db' : Db) (now : ℕ) (op run : String) (harness : Contributor)
    (ref lease cmd fp event mode : String) (r : RunRow) (gr : GrantReceipt)
    → install_grant db now op run harness ref lease cmd fp event mode ≡ ok (gr, db')
    → db.runs run ≡ some r
    → (gr.generation ≡ next_grant db.leases run)
      × (db' ≡ record (with_grant db run r (new_grant run gr.generation harness ref lease op)) {
        journal = db'.journal;
      })
unfolding install_grant
install_grant-tables db db' now op run harness ref lease cmd fp event mode r gr h found =
    grind (arith, record_journal_entry-tables)

pub classify-journal :
    (db db' : Db) (run lease : String) (adopted : Bool)
    → db' ≡ record db { journal = db'.journal }
    → classify_credential db' run lease adopted ≡ classify_credential db run lease adopted
unfolding classify_credential active_grant
classify-journal db db' run lease adopted e = ap (λ d. classify_credential d run lease adopted) e

connected-journal :
    (db db' : Db) (run : String)
    → db' ≡ record db { journal = db'.journal }
    → require_run_connected db' run ≡ require_run_connected db run
unfolding require_run_connected active_grant
connected-journal db db' run e = ap (λ d. require_run_connected d run) e

with_grant-connected :
    (db : Db) (run : String) (r : RunRow) (g : LeaseRow)
    → text_eq g.run_id run ≡ true
    → is_active g.status ≡ true
    → g.connected ≡ false
    → require_run_connected (with_grant db run r g) run ≡ err StoreError.controller_disconnected
unfolding find_lease update_leases active_grant require_run_connected
with_grant-connected db run r g i a n = ground (arith, eq_iff g.run_id run)

with_grant-retired :
    (db : Db) (run lease : String) (r : RunRow) (g : LeaseRow)
    → is_some (find_lease (retired_in run lease) db.leases) ≡ true
    → is_some (find_lease (retired_in run lease) (with_grant db run r g).leases) ≡ true
unfolding find_lease
with_grant-retired db run lease r g h = supersede-retired (g ∷ db.leases) run lease (ground arith)

abbrev handed_over : Db → String → Db
handed_over db run =
    project_session_connection run ControllerConnection.disconnected
      (record db { leases = update_leases (active_in run) hand_over db.leases })

-- A handoff that is a new decision moves the control of the run: the new lease controls the run
-- with the new generation, the old lease is refused as superseded, and until the new controller
-- connects the run is not connected. Its conditions are that the new lease is not blank and is
-- not the old one.
pub handoff_fences :
    (db db' : Db) (now : ℕ) (op run lease : String) (expected : ℕ) (harness : Contributor)
    (ref candidate fp : String) (gr : GrantReceipt)
    → handoff_new db now op run lease expected harness ref candidate fp ≡ ok (gr, db')
    → is_blank candidate ≡ false
    → text_eq candidate lease ≡ false
    → (classify_run_controller db' run candidate ≡ ok gr.generation)
      × (classify_run_controller db' run lease ≡ err StoreError.lease_superseded)
      × (require_run_connected db' run ≡ err StoreError.controller_disconnected)
unfolding handoff_new project_session_connection classify_run_controller
handoff_fences db db' now op run lease expected harness ref candidate fp gr h named other =
    let (gen, authorized, h1) = >>=-eq-ok (classify_run_controller db run lease) _ h in
    let (_, h2) = >>-eq-ok (fail_if (not (gen == expected)) StoreError.generation_mismatch) _ h1 in
    let c = (classify_iff db run lease gen).0 authorized in
    let mid = handed_over db run in
    let g = new_grant run gr.generation harness ref candidate op in
    let (_, tables) =
      install_grant-tables mid db' now op run harness ref candidate _ fp _ _ c.r gr h2 c.found in
    let held = (eq_iff c.g.lease lease).1 c.presented in
    let kept = hand_over-retired db.leases run lease c.g c.granted held in
    let after = with_grant mid run c.r g in
    (
      classify-journal after db' run candidate true tables
          ∙ with_grant-classify mid run candidate c.r g named refl (text_eq_refl run) refl
              c.unarchived,
      classify-journal after db' run lease true tables
          ∙ superseded-refused after run lease
              (record c.r { controller_lease = candidate; controller_adopted = true }) true c.named
              (ground (arith, eq_iff run run)) c.unarchived other
              (with_grant-retired mid run lease c.r g kept),
      connected-journal after db' run tables
          ∙ with_grant-connected mid run c.r g (text_eq_refl run) refl refl,
    )
