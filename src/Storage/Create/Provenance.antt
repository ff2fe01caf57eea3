-- ===== src/Storage/Create/Provenance.antt =====
-- internal/storage/session_store.go: what the lease of a new run is good for.
use agent_council.Common.{
  ℕ, String, ◌≡◌, ◌||◌, true, false, none, is_some, is_blank, arith, eq_iff, Bool-cases, ok, err,
  List, [], ◌∷◌,
}
use agent_council.Storage.Rows.{StoreError, LeaseRow, JournalRow, Receipt, Db, Env}
use agent_council.Storage.Journal.{
  compute_fingerprint, find_entry, check_idempotency, record_journal_entry, insert_entry,
}
use agent_council.Storage.Authority.{
  find_lease, active_in, retired_in, active_grant, classify_credential, require_run_connected,
}
use agent_council.Storage.Commands.{journaled}
use agent_council.Storage.Grants.Install.{in_run}
use agent_council.Storage.Grants.Revoke.{grant_at}
use agent_council.Storage.Create.{create_run, insert_run, with_run}

unclaimed :
    (gs : List LeaseRow) (run lease : String)
    → find_lease (in_run run) gs ≡ none
    → (find_lease (active_in run) gs ≡ none) × (find_lease (retired_in run lease) gs ≡ none)
unfolding find_lease
unclaimed [] run lease h = ground arith
unclaimed (g ∷ gs) run lease h = ground (arith, unclaimed gs run lease)

-- The tables with the new run, whatever they have journaled.
abbrev created : Db → (op run lease : String) → List JournalRow → Db
created db op run lease journal = record (with_run db op run lease) { journal = journal }

created-classify :
    (db : Db) (op run lease : String) (journal : List JournalRow)
    → is_blank lease ≡ false
    → find_lease (in_run run) db.leases ≡ none
    → (classify_credential (created db op run lease journal) run lease true
        ≡ err StoreError.adoption_required)
      × (classify_credential (created db op run lease journal) run lease false ≡ ok 0)
      × (require_run_connected (created db op run lease journal) run
          ≡ err StoreError.adoption_required)
unfolding classify_credential active_grant require_run_connected find_lease
created-classify db op run lease journal b free =
    let (inactive, unretired) = unclaimed db.leases run lease free in
    ground (arith, eq_iff run run, eq_iff lease lease, inactive, unretired)

insert_run-created :
    (db db' : Db) (now : ℕ) (op run lease fp : String) (r : Receipt)
    → insert_run db now op run lease fp ≡ ok (r, db')
    → db' ≡ created db op run lease db'.journal
unfolding insert_run journaled record_journal_entry insert_entry
insert_run-created db db' now op run lease fp r h = ground (
  arith,
  Bool-cases (is_some (db.runs run)),
  Bool-cases (is_some (find_lease (grant_at run 0) db.leases)),
  Bool-cases (is_some (find_entry op db.journal)),
)

create_run-created :
    (env : Env) (db db' : Db) (now : ℕ) (op run brief source profile lease : String) (r : Receipt)
    → find_entry op db.journal ≡ none
    → create_run env db now op run brief source profile lease ≡ ok (r, db')
    → (is_blank lease ≡ false) × (db' ≡ created db op run lease db'.journal)
unfolding create_run check_idempotency
create_run-created env db db' now op run brief source profile lease r fresh h =
    let fp = compute_fingerprint env ("create_run" ∷ run ∷ brief ∷ source ∷ profile ∷ lease ∷ []) in
    ground (
      arith,
      Bool-cases
          (is_blank run || is_blank brief || is_blank source || is_blank profile || is_blank lease),
      insert_run-created db db' now op run lease fp r,
    )

-- The lease that a run is created with is no controller's. Where the operation id is new and the
-- run has no row in `controller_leases` yet, a run that is created has no connected controller;
-- its lease is refused, as one that has still to be adopted, for every command that asks for an
-- adopted controller; and it is accepted, as generation 0, for the commands of an administrator.
pub created_run_unadopted :
    (env : Env) (db db' : Db) (now : ℕ) (op run brief source profile lease : String) (r : Receipt)
    → find_entry op db.journal ≡ none
    → find_lease (in_run run) db.leases ≡ none
    → create_run env db now op run brief source profile lease ≡ ok (r, db')
    → (classify_credential db' run lease true ≡ err StoreError.adoption_required)
      × (classify_credential db' run lease false ≡ ok 0)
      × (require_run_connected db' run ≡ err StoreError.adoption_required)
created_run_unadopted env db db' now op run brief source profile lease r fresh free h =
    let (shown, made) =
      create_run-created env db db' now op run brief source profile lease r fresh h in
    rw made (created-classify db op run lease db'.journal shown free)
