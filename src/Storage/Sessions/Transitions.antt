-- ===== src/Storage/Sessions/Transitions.antt =====
-- Every transition of internal/storage makes one of the changes: reconciliation, release, and the
-- transitions together.
use agent_council.Common.{
  ℕ, ◌+◌, String, ◌≡◌, refl, sym, inl, inr, true, false, some, text_eq, is_blank, Result-cases,
  arith, ok, >>-eq-ok, fail_if,
}
use agent_council.Council.Status.{is_terminal, is_lost, lifecycle_archived, TurnStatus}
use agent_council.Storage.Rows.{
  Phase, TurnRow, StoreError, SessionRow, Receipt, JournalRow, Db, Env,
}
use agent_council.Storage.Journal.{insert_entry}
use agent_council.Storage.Commands.{is_set, text_of, check_expected, check_decision}
use agent_council.Storage.Release.{ReleaseResult, release_new, release_turn}
use agent_council.Storage.Reconcile.{
  ExecutionRef, ReconciliationStatus, ReconciliationOutcome, RecoveryRef, settle_active,
  settle_ended, reconcile_new,
}
use agent_council.Storage.Observed.{observed_row, observed_new, acknowledged_new}
use agent_council.Storage.Dispatch.{is_observation}
use agent_council.Storage.Step.{
  observes_outcome, acknowledges, Command, queues, replaces, discards, releases, cancels, ends,
  loses_host, connects, archives, observes, reconciles, execute, step,
}
use agent_council.Storage.Replay.Requests.{valid}
use agent_council.Storage.Replay.Shape.{decide}
use agent_council.Storage.Replay.Growth.{release_turn-cases, execute-decided}
use agent_council.Storage.Sessions.Change.{
  ended, Change, keeps, started, closes, recovers, waits, Logged,
}
use agent_council.Storage.Sessions.Moves.{
  journaled-Logged, query_session-row, next_version-eq, queue_new-Logged, replace_new-Logged,
  discard_new-Logged, cancel_new-Logged, connection_new-Logged, archive_new-Logged,
  observe_new-Logged, host_loss_new-Logged, terminal_new-Logged,
}

settle_active-Change :
    (db mid : Db) (session key : String) (s : SessionRow) (status : ReconciliationStatus)
    (observed : TurnStatus) (result p : String)
    → db.sessions session ≡ some s
    → is_lost s.visibility ≡ true
    → is_set s.active_key ≡ true
    → text_eq (text_of s.active_key) key ≡ true
    → settle_active db session key s (s.row_version + 1) status observed result ≡ ok (p, mid)
    → Change db mid
unfolding settle_active
settle_active-Change db mid session key s ReconciliationStatus.uncertain o result p h l a k e =
    grind (arith, waits)
settle_active-Change db mid session key s _ o result p h l a k e = grind (arith, closes, recovers)

settle_ended-Change :
    (db mid : Db) (session : String) (s : SessionRow) (status : ReconciliationStatus) (p : String)
    → db.sessions session ≡ some s
    → is_lost s.visibility ≡ true
    → settle_ended db session s (s.row_version + 1) status ≡ ok (p, mid)
    → Change db mid
unfolding settle_ended
settle_ended-Change db mid session s ReconciliationStatus.uncertain p h l e = grind (arith, waits)
settle_ended-Change db mid session s _ p h l e = grind (arith, recovers)

reconcile_new-Logged :
    (env : Env) (db db' : Db) (now : ℕ) (op fp : String) (ref : RecoveryRef)
    (outcome : ReconciliationOutcome) (r : Receipt)
    → reconcile_new env db now op fp ref outcome ≡ ok (r, db')
    → Logged db db'
unfolding reconcile_new
reconcile_new-Logged env db db' now op fp ref outcome r h =
    grind (arith, journaled-Logged, query_session-row, settle_active-Change, settle_ended-Change)

observed_row-Logged :
    (db db' : Db) (now gen : ℕ) (op fp session key : String) (status : TurnStatus) (result : String)
    (s : SessionRow) (t : TurnRow) (r : Receipt)
    → db.sessions session ≡ some s
    → db.turns session key ≡ some t
    → is_terminal status ≡ true
    → lifecycle_archived s.lifecycle ≡ false
    → observed_row db now gen op fp session key status result s t ≡ ok (r, db')
    → Logged db db'
unfolding observed_row
observed_row-Logged db db' now gen op fp session key status result s t r row turn terminal live h =
    grind (arith, journaled-Logged, next_version-eq, keeps, ended)

observed_new-Logged :
    (db db' : Db) (now gen : ℕ) (op fp : String) (ref : ExecutionRef) (status : TurnStatus)
    (result : String) (r : Receipt)
    → is_terminal status ≡ true
    → observed_new db now gen op fp ref status result ≡ ok (r, db')
    → Logged db db'
unfolding observed_new
observed_new-Logged db db' now gen op fp ref status result r terminal h =
    grind (arith, observed_row-Logged)

acknowledged_new-Logged :
    (db db' : Db) (now gen : ℕ) (op fp : String) (ref : ExecutionRef) (phase : Phase) (r : Receipt)
    → is_observation phase ≡ true
    → acknowledged_new db now gen op fp ref phase ≡ ok (r, db')
    → Logged db db'
unfolding acknowledged_new
acknowledged_new-Logged db db' now gen op fp ref phase r observation h =
    grind (arith, journaled-Logged, Change.observes)

insert_entry-Logged :
    (db mid db' : Db) (e : JournalRow) → insert_entry e mid ≡ ok db' → Change db mid → Logged db db'
unfolding insert_entry
insert_entry-Logged db mid db' e h c = record { tables = mid; change = c; logged = ground arith }

check_decision-open :
    (s : SessionRow) (expected : ℕ)
    → check_decision s expected ≡ ok tt
    → lifecycle_archived s.lifecycle ≡ false
unfolding check_decision
check_decision-open s expected h = ground arith

release_new-Logged :
    (env : Env) (db db' : Db) (now gen : ℕ) (op lease fp session : String) (expected : ℕ)
    (key : String) (r : ReleaseResult)
    → is_blank key ≡ false
    → release_new env db now gen op lease fp session expected key ≡ ok (r, db')
    → Logged db db'
unfolding release_new
release_new-Logged env db db' now gen op lease fp session expected key r named h =
    grind
      (arith, insert_entry-Logged, query_session-row, next_version-eq, check_decision-open, started)

decide-Logged :
    (env : Env) (db db' : Db) (now : ℕ) (c : Command) (r : Receipt)
    → valid env c ≡ ok tt
    → decide env db now c ≡ ok (r, db')
    → Logged db db'
decide-Logged env db db' now (queues op lease session expected key prompt tools) r v h =
    queue_new-Logged db db' now op lease _ session expected key _ _ r h
decide-Logged env db db' now (replaces op lease session expected key prompt tools) r v h =
    replace_new-Logged env db db' now op lease _ session expected key _ tools r h
decide-Logged env db db' now (discards op lease session expected key) r v h =
    discard_new-Logged db db' now op lease _ session expected key r h
decide-Logged env db db' now (releases op lease session expected key) r v h = cc
decide-Logged env db db' now (cancels op lease session expected key) r v h =
    cancel_new-Logged db db' now op lease _ session expected key r h
decide-Logged env db db' now (ends op lease session expected key status result) r v h =
    let terminal : is_terminal status ≡ true = ground arith in
    terminal_new-Logged db db' now op lease _ session expected key status _ r terminal h
decide-Logged env db db' now (loses_host op lease session expected) r v h =
    host_loss_new-Logged db db' now op lease _ session expected r h
decide-Logged env db db' now (connects op lease session expected status) r v h =
    connection_new-Logged db db' now op lease _ session expected status r h
decide-Logged env db db' now (archives op lease session expected) r v h =
    archive_new-Logged db db' now op lease _ session expected r h
decide-Logged env db db' now (observes op lease session key phase) r v h =
    observe_new-Logged db db' now op lease _ session key phase r h
decide-Logged env db db' now (observes_outcome op ref status result) r v h =
    let terminal : is_terminal status ≡ true = ground arith in
    observed_new-Logged db db' now _ op _ ref status _ r terminal h
decide-Logged env db db' now (acknowledges op ref phase) r v h =
    let observation : is_observation phase ≡ true = ground arith in
    acknowledged_new-Logged db db' now _ op _ ref phase r observation h
decide-Logged env db db' now (reconciles op execution ref outcome) r v h =
    reconcile_new-Logged env db db' now op _ ref outcome r h

unchanged : (db : Db) → Logged db db
unchanged db = record { tables = db; change = keeps; logged = refl }

release_turn-named :
    (env : Env) (db db' : Db) (now : ℕ) (op lease session : String) (expected : ℕ) (key : String)
    (r : ReleaseResult)
    → release_turn env db now op lease session expected key ≡ ok (r, db')
    → is_blank key ≡ false
unfolding release_turn
release_turn-named env db db' now op lease session expected key r h =
    let (_, h') = >>-eq-ok (check_expected expected) _ h in
    let (named, _) = >>-eq-ok (fail_if (is_blank key) StoreError.empty_turn_key) _ h' in
    ground arith

release_turn-Logged :
    (env : Env) (db db' : Db) (now : ℕ) (op lease session : String) (expected : ℕ) (key : String)
    (r : ReleaseResult)
    → release_turn env db now op lease session expected key ≡ ok (r, db')
    → Logged db db'
release_turn-Logged env db db' now op lease session expected key r h =
    elim (release_turn-cases env db db' now op lease session expected key r h) [
      | inl (same, _, _) ↦ rw same (unchanged db)
      | inr (gen, _, _, new) ↦
          release_new-Logged env db db' now gen op lease _ session expected key r
            (release_turn-named env db db' now op lease session expected key r h) new
    ]

-- Every transition that succeeds makes one of the changes, and journals whatever it likes.
execute-Logged :
    (env : Env) (db db' : Db) (now : ℕ) (c : Command) (r : Receipt)
    → execute env db now c ≡ ok (r, db')
    → Logged db db'
unfolding execute
execute-Logged env db db' now (releases op lease session expected key) r h =
    elim (Result-cases (release_turn env db now op lease session expected key)) [
      | inr (x, refused) ↦ cc
      | inl ((x, db''), done) ↦
          let same : db'' ≡ db' = cc in
          rw (sym same) (release_turn-Logged env db db'' now op lease session expected key x done)
    ]
execute-Logged env db db' now c r h = elim (execute-decided env db db' now c r refl h) [
  | inl (same, _) ↦ rw same (unchanged db)
  | inr (ready, done) ↦ decide-Logged env db db' now c r ready done
]

-- Every command of a history makes one of the changes, or none where it fails.
pub step-Logged : (env : Env) (db : Db) (c : ℕ × Command) → Logged db (step env db c)
unfolding step
step-Logged env db (now, c) = elim (Result-cases (execute env db now c)) [
  | inl ((r, db'), e) ↦ rw (e, step) (execute-Logged env db db' now c r e)
  | inr (_, e) ↦ rw (e, step) (unchanged db)
]
