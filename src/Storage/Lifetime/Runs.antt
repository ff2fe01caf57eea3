-- ===== src/Storage/Lifetime/Runs.antt =====
-- internal/storage: what the other operations on a run leave of the rows of a session.
use agent_council.Common.{
  ℕ, String, text_eq, ◌≡◌, inl, inr, ◌&&◌, Option, none, some, is_some, arith, ok, Bool-cases,
  Option-cases, Result-cases, [], ◌∷◌, decimal,
}
use agent_council.Council.Status.{ControllerConnection}
use agent_council.Storage.Rows.{LeaseRow, Receipt, Db, Env}
use agent_council.Storage.Journal.{
  compute_fingerprint, check_idempotency, find_entry, record_journal_entry, insert_entry,
}
use agent_council.Storage.Create.{create_run, insert_run}
use agent_council.Storage.Authority.{classify_run_controller, find_lease}
use agent_council.Storage.Commands.{journaled, text_of}
use agent_council.Storage.Grants.Adopt.{OperatorRecovery}
use agent_council.Storage.Grants.Revoke.{
  Revocation, check_target, with_revoked, revoke_new, revoke_controller, resolve_issuance,
  recover_controller_credential, recover_new,
}
use agent_council.Storage.Grants.Attachment.{
  active_at, attach, connect_new, connect_run_controller, disconnect_new, disconnect_run_controller,
  end_episode,
}
use agent_council.Storage.Grants.Install.{update_leases, GrantReceipt, project_session_connection}
use agent_council.Storage.Lifetime.Grants.{Regrant, regranted}

revoke_new-Regrant :
    (db db' : Db) (now : ℕ) (op run : String) (recovery : Option OperatorRecovery) (v : Revocation)
    (fp : String) (r : Receipt)
    → revoke_new db now op run recovery v fp ≡ ok (r, db')
    → db' ≡ regranted db (some (run, ControllerConnection.disconnected)) db'
unfolding revoke_new record_journal_entry insert_entry with_revoked
revoke_new-Regrant db db' now op run recovery v fp r h = ground (
  arith,
  Result-cases (check_target db run recovery),
  Bool-cases (is_some (find_entry op db.journal)),
)

connect_new-Regrant :
    (db db' : Db) (now : ℕ) (op run : String) (gen : ℕ) (attachment instance_id fp : String)
    (r : Receipt)
    → connect_new db now op run gen attachment instance_id fp ≡ ok (r, db')
    → db' ≡ regranted db (some (run, ControllerConnection.connected)) db'
unfolding connect_new record_journal_entry insert_entry project_session_connection
connect_new-Regrant db db' now op run gen attachment instance_id fp r h = ground (
  arith,
  Option-cases (
      find_lease (active_at run gen)
        (update_leases (active_at run gen) (attach attachment instance_id) db.leases)),
  Bool-cases (is_some (find_entry op db.journal)),
)

pub revoke_controller-Regrant :
    (env : Env) (db db' : Db) (now : ℕ) (op run lease : String) (recovery : Option OperatorRecovery)
    (r : Receipt)
    → revoke_controller env db now op run lease recovery ≡ ok (r, db')
    → Regrant db db'
unfolding revoke_controller
revoke_controller-Regrant env db db' now op run lease recovery r h =
    elim (Option-cases (find_entry op db.journal)) [
      | inr (e, found) ↦ (none, grind arith)
      | inl fresh ↦
          (some (run, ControllerConnection.disconnected), grind (arith, revoke_new-Regrant))
    ]

pub connect_run_controller-Regrant :
    (env : Env) (db db' : Db) (now : ℕ) (op run lease : String) (expected : ℕ)
    (attachment instance_id : String) (r : Receipt)
    → connect_run_controller env db now op run lease expected attachment instance_id ≡ ok (r, db')
    → Regrant db db'
unfolding connect_run_controller
connect_run_controller-Regrant env db db' now op run lease expected attachment instance_id r h =
    elim (Option-cases (find_entry op db.journal)) [
      | inr (e, found) ↦ (none, grind arith)
      | inl fresh ↦ (some (run, ControllerConnection.connected), grind (arith, connect_new-Regrant))
    ]

recover_new-Regrant :
    (db db' : Db) (now : ℕ) (op run source : String) (expected : ℕ) (fp : String) (r : GrantReceipt)
    → recover_new db now op run source expected fp ≡ ok (r, db')
    → db' ≡ regranted db none db'
unfolding recover_new record_journal_entry insert_entry
recover_new-Regrant db db' now op run source expected fp r h = ground (
  arith,
  Result-cases (resolve_issuance db now run source expected),
  Bool-cases (is_some (find_entry op db.journal)),
)

pub recover_controller_credential-Regrant :
    (env : Env) (db db' : Db) (now : ℕ) (op run source : String) (expected : ℕ) (r : GrantReceipt)
    → recover_controller_credential env db now op run source expected ≡ ok (r, db')
    → Regrant db db'
unfolding recover_controller_credential
recover_controller_credential-Regrant env db db' now op run source expected r h =
    (none, grind (arith, recover_new-Regrant))

end_episode-Regrant :
    (db : Db) (run : String) (gen : ℕ) (attachment : String) (g : LeaseRow)
    → Regrant db (end_episode db run gen attachment g).1
unfolding end_episode project_session_connection
end_episode-Regrant db run gen attachment g =
    elim (Bool-cases (g.connected && text_eq (text_of g.attachment_id) attachment)) [
      | inl current ↦ (some (run, ControllerConnection.disconnected), ground arith)
      | inr late ↦ (none, ground arith)
    ]

journaled-Regrant :
    (db mid db' : Db) (p : Option (String × ControllerConnection))
    → mid ≡ regranted db p mid
    → db' ≡ record mid { journal = db'.journal }
    → db' ≡ regranted db p db'
unfolding project_session_connection
journaled-Regrant db mid db' none h k = ground arith
journaled-Regrant db mid db' (some (run, c)) h k = ground arith

disconnect_new-journaled :
    (db db' : Db) (now : ℕ) (op run : String) (gen : ℕ) (attachment fp : String) (r : Receipt)
    → disconnect_new db now op run gen attachment fp ≡ ok (r, db')
    → (g : LeaseRow) × (db'
        ≡ record (end_episode db run gen attachment g).1 { journal = db'.journal })
unfolding disconnect_new record_journal_entry insert_entry
disconnect_new-journaled db db' now op run gen attachment fp r h =
    elim (Option-cases (find_lease (active_at run gen) db.leases)) [
      | inl absent ↦ absurd (ground arith)
      | inr (g, found) ↦ (
        g,
        ground (
          arith,
          Bool-cases (is_some (find_entry op (end_episode db run gen attachment g).1.journal)),
        ),
      )
    ]

disconnected :
    (env : Env) (db db' : Db) (now : ℕ) (op run lease attachment : String) (expected : ℕ)
    (r : Receipt)
    → find_entry op db.journal ≡ none
    → disconnect_run_controller env db now op run lease attachment expected ≡ ok (r, db')
    → (gen : ℕ) × (disconnect_new db now op run gen attachment (
          compute_fingerprint env
            ("disconnect_run_controller" ∷ run ∷ attachment ∷ decimal expected ∷ []))
        ≡ ok (r, db'))
unfolding disconnect_run_controller
disconnected env db db' now op run lease attachment expected r fresh h =
    elim (Result-cases (classify_run_controller db run lease)) [
      | inr (e, refused) ↦ absurd (ground arith)
      | inl (gen, allowed) ↦ (gen, ground arith)
    ]

pub disconnect_run_controller-Regrant :
    (env : Env) (db db' : Db) (now : ℕ) (op run lease attachment : String) (expected : ℕ)
    (r : Receipt)
    → disconnect_run_controller env db now op run lease attachment expected ≡ ok (r, db')
    → Regrant db db'
unfolding disconnect_run_controller
disconnect_run_controller-Regrant env db db' now op run lease attachment expected r h =
    elim (Option-cases (find_entry op db.journal)) [
      | inr (e, found) ↦ (none, grind arith)
      | inl fresh ↦
          let (gen, made) =
            disconnected env db db' now op run lease attachment expected r fresh h in
          let (g, logged) = disconnect_new-journaled db db' now op run gen attachment _ r made in
          let (p, mid) = end_episode-Regrant db run gen attachment g in
          (p, journaled-Regrant db (end_episode db run gen attachment g).1 db' p mid logged)
    ]

pub create_run-Regrant :
    (env : Env) (db db' : Db) (now : ℕ) (op run brief source profile lease : String) (r : Receipt)
    → create_run env db now op run brief source profile lease ≡ ok (r, db')
    → Regrant db db'
unfolding create_run check_idempotency insert_run journaled record_journal_entry insert_entry
create_run-Regrant env db db' now op run brief source profile lease r h = (none, grind arith)
