-- ===== src/Storage/Grants/Episodes.antt =====
-- internal/storage: the episodes of a controller's connection.
use agent_council.Common.{
  ℕ, String, ◌≡◌, sym, ap, ◌∙◌, inl, inr, true, false, List, [], ◌∷◌, some, text_eq, Option-cases,
  arith, ok, >>=-eq-ok, or_fail,
}
use agent_council.Storage.Rows.{StoreError, LeaseRow, Receipt, Db, Env}
use agent_council.Storage.Journal.{find_entry}
use agent_council.Storage.Authority.{find_lease}
use agent_council.Storage.Grants.Install.{update_leases, project_session_connection}
use agent_council.Storage.Grants.Attachment.{
  active_at, attach, connect_new, disconnect_new, disconnect_run_controller, end_episode,
}
use agent_council.Storage.Grants.Fencing.{record_journal_entry-tables}

attach-found :
    (gs : List LeaseRow) (run : String) (gen : ℕ) (attachment instance_id : String) (g : LeaseRow)
    → find_lease
        (active_at run gen)
        (update_leases (active_at run gen) (attach attachment instance_id) gs)
      ≡ some g
    → (g.attachment_id ≡ some attachment) × (g.connected ≡ true)
unfolding find_lease update_leases
attach-found [] run gen attachment instance_id g h = cc
attach-found (x ∷ gs) run gen attachment instance_id g h =
    ground (arith, attach-found gs run gen attachment instance_id g)

connect_new-found :
    (db db' : Db) (now : ℕ) (op run : String) (gen : ℕ) (attachment instance_id fp : String)
    (r : Receipt)
    → connect_new db now op run gen attachment instance_id fp ≡ ok (r, db')
    → (g : LeaseRow) × (find_lease (active_at run gen) db'.leases ≡ some g)
      × (g.attachment_id ≡ some attachment)
      × (g.connected ≡ true)
unfolding connect_new project_session_connection
connect_new-found db db' now op run gen attachment instance_id fp r h =
    let leases = update_leases (active_at run gen) (attach attachment instance_id) db.leases in
    let (g, found, h1) =
      >>=-eq-ok (or_fail (find_lease (active_at run gen) leases) StoreError.no_grant) _ h in
    let (mid, logged, h2) = >>=-eq-ok _ _ h1 in
    let tables = record_journal_entry-tables _ mid _ _ _ _ _ _ _ _ _ logged in
    let same : mid ≡ db' = cc in
    let here : find_lease (active_at run gen) leases ≡ some g = ground arith in
    let (named, live) = attach-found db.leases run gen attachment instance_id g here in
    (g, ap (λ d. find_lease (active_at run gen) d.leases) (sym same ∙ tables) ∙ here, named, live)

disconnect_new-late :
    (db db' : Db) (now : ℕ) (op run : String) (gen : ℕ) (attachment attachment' fp : String)
    (g : LeaseRow) (r : Receipt)
    → find_lease (active_at run gen) db.leases ≡ some g
    → g.attachment_id ≡ some attachment
    → text_eq attachment attachment' ≡ false
    → disconnect_new db now op run gen attachment' fp ≡ ok (r, db')
    → (db'.leases ≡ db.leases) × (db'.sessions ≡ db.sessions)
unfolding disconnect_new end_episode
disconnect_new-late db db' now op run gen attachment attachment' fp g r found named differs h =
    let (_, found', h1) =
      >>=-eq-ok (or_fail (find_lease (active_at run gen) db.leases) StoreError.no_grant) _ h in
    grind (arith, record_journal_entry-tables)

-- In the tables that a new connect leaves, a disconnect for the same generation that succeeds and
-- names another attachment than the one just opened changes neither a lease row nor a session row,
-- whether it is new or replayed.
pub late_disconnect_ignored :
    (env : Env) (db db' db'' : Db) (now later : ℕ) (op run : String) (gen : ℕ)
    (attachment instance_id fp : String) (r : Receipt) (op' lease attachment' : String)
    (r' : Receipt)
    → connect_new db now op run gen attachment instance_id fp ≡ ok (r, db')
    → text_eq attachment attachment' ≡ false
    → disconnect_run_controller env db' later op' run lease attachment' gen ≡ ok (r', db'')
    → (db''.leases ≡ db'.leases) × (db''.sessions ≡ db'.sessions)
unfolding disconnect_run_controller
late_disconnect_ignored env db db' db'' now later op run gen attachment instance_id fp r op' lease
      attachment' r' connected differs h =
    let (g, found, named, _) =
      connect_new-found db db' now op run gen attachment instance_id fp r connected in
    elim (Option-cases (find_entry op' db'.journal)) [
      | inr (e, again) ↦ ground arith
      | inl fresh ↦ grind (arith, disconnect_new-late)
    ]
