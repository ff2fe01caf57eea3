-- ===== src/Storage/Tests.antt =====
-- Runs of internal/storage on concrete tables.
use agent_council.Common.{
  ℕ, ◌≤◌, ◌≡◌, refl, ◌≢◌, ◌↔◌, inl, true, false, List, [], ◌∷◌, none, some, put, no_entries,
  is_blank, decimal, arith, eq_iff, ok, err, Bool, String, text_eq,
}
use agent_council.Council.Contributor.{claude, codex}
use agent_council.Council.Status.{
  State, SessionLifecycle, TurnStatus, ControllerConnection, ExecutionVisibility, is_disconnected,
}
use agent_council.Storage.Rows.{
  StoreError, LeaseRow, LeaseStatus, SessionRow, TurnRow, Receipt, Db, Env, Outcome,
}
use agent_council.Storage.Journal.{
  find_entry, check_idempotency, insert_entry, record_journal_entry,
}
use agent_council.Storage.Authority.{
  find_lease, active_grant, classify_credential, classify_run_controller,
  authorize_session_controller, require_run_connected, run_id_of_session, query_session,
}
use agent_council.Storage.Authorized.{Controls, classify_iff}
use agent_council.Storage.Commands.{check_expected, check_decision, next_version, journaled, once}
use agent_council.Storage.Prompts.{queue_prompt, queue_new}
use agent_council.Storage.Release.{
  ReleaseResult, Disposition, release_turn, release_new, stored_release, start_turn,
}
use agent_council.Storage.Step.{Command, queues, releases, discards, execute, step, run}
use agent_council.Storage.Replay.Requests.{kind, valid}
use agent_council.Storage.Replay.Laws.{committed_replays, reused_id_refused}
use agent_council.Storage.Replay.Releases.{release_replays}
use agent_council.Storage.Sessions.Invariant.{Inv, run_keeps_Inv}
use agent_council.Storage.Sessions.History.{Later, SameTurn, run_keeps_session, run_keeps_turn}
use agent_council.Storage.Grants.Install.{
  GrantReceipt, next_grant, latest, update_leases, project_session_connection, install_grant,
}
use agent_council.Storage.Grants.Adopt.{handoff_new}
use agent_council.Storage.Grants.Revoke.{grant_at, with_revoked}
use agent_council.Storage.Grants.Attachment.{
  connect_new, disconnect_new, disconnect_run_controller, end_episode,
}
use agent_council.Storage.Grants.Leases.{next_grant-fresh}
use agent_council.Storage.Grants.Fencing.{handoff_fences}
use agent_council.Storage.Grants.Revocation.{revocation_fences}
use agent_council.Storage.Grants.Revoke.{revoke_controller, revocation, revoke_new, check_target}
use agent_council.Storage.Commands.{receipt_of}
use agent_council.Storage.Grants.Episodes.{late_disconnect_ignored}
use agent_council.Protocol.{Step}
use agent_council.Protocol.Store.{phase, store_refines}

abbrev env : Env
env = record { sha256_hex = λ s. s; marshal_strings = λ ts. "[]"; sanitize_text = λ s. s }

abbrev grant : LeaseRow
grant = record {
  run_id = "r1";
  generation = 1;
  harness = some "claude";
  controller_ref = "ref";
  lease = "L";
  status = LeaseStatus.active;
  granted_by_op_id = "op0";
  attachment_id = some "a1";
  instance_id = some "i1";
  attachment_rev = 1;
  connected = true;
}

abbrev session : SessionRow
session = record {
  run_id = "r1";
  contributor = claude;
  is_active_contributor = true;
  state = State.parked;
  lifecycle = SessionLifecycle.active;
  controller_status = ControllerConnection.connected;
  visibility = ExecutionVisibility.reachable;
  active_key = none;
  recovery_context = none;
  recovery_gen = 0;
  active_recovery_gen = 0;
  row_version = 1;
}

-- A connected, adopted run with one session.
abbrev db0 : Db
db0 = record {
  runs =
      put "r1"
        (record {
          controller_lease = "L";
          lifecycle = SessionLifecycle.active;
          controller_adopted = true;
        })
        no_entries;
  leases = grant ∷ [];
  sessions = put "s1" session no_entries;
  session_ids = "s1" ∷ [];
  pending_prompts = λ id. no_entries;
  turns = λ id. no_entries;
  dispatch_intents = λ id. no_entries;
  journal = [];
}

abbrev db_in {ℓ} : {A : Type ℓ} → Outcome A → Db
db_in (ok (r, db)) = db
db_in (err e) = db0

abbrev queue1 : Command
queue1 = queues "op1" "L" "s1" 1 "k" "p" []

abbrev release1 : Command
release1 = releases "op2" "L" "s1" 2 "k"

abbrev db1 : Db
db1 = db_in (execute env db0 7 queue1)

abbrev receipt1 : Receipt
receipt1 = record {
  op_id = "op1";
  command_type = "queue_prompt";
  session_id = "s1";
  turn_key = "k";
  committed_version = 2;
  created_at = 7;
  payload = "p";
}

db0-Inv : Inv db0
db0-Inv id k s e = ground (arith, eq_iff "s1" id)

queue1-ok : execute env db0 7 queue1 ≡ ok (receipt1, db1)
unfolding execute queue_prompt queue_new is_blank check_expected once authorize_session_controller
    classify_credential active_grant find_lease check_idempotency find_entry require_run_connected
    run_id_of_session query_session check_decision next_version journaled
queue1-ok = refl

abbrev later : List (ℕ × Command)
later = (8, release1) ∷ []

later-authority : authorize_session_controller (run env db1 later) "s1" "L" true ≡ ok 1
unfolding execute queue_prompt queue_new is_blank check_expected once authorize_session_controller
    classify_credential active_grant find_lease check_idempotency find_entry require_run_connected
    run_id_of_session query_session check_decision next_version journaled run step release_turn
    stored_release release_new start_turn insert_entry decimal
later-authority = refl

committed_replays_example :
    execute env (run env db1 later) 9 queue1 ≡ ok (receipt1, run env db1 later)
committed_replays_example =
    committed_replays env db0 db1 7 9 queue1 receipt1 later 1 refl queue1-ok later-authority

abbrev discard1 : Command
discard1 = discards "op1" "L" "s1" 2 "k"

discard1-kind : kind discard1 ≢ kind queue1
discard1-kind h = ground (arith, eq_iff (kind discard1) (kind queue1))

discard1-valid : valid env discard1 ≡ ok tt
unfolding check_expected is_blank
discard1-valid = refl

reused_id_refused_example :
    execute env (run env db1 later) 9 discard1 ≡ err StoreError.idempotency_conflict
reused_id_refused_example =
    reused_id_refused env db0 db1 7 9 queue1 discard1 receipt1 later 1 refl refl refl
      (inl discard1-kind) queue1-ok discard1-valid later-authority

abbrev released : Outcome ReleaseResult
released = release_turn env db1 8 "op2" "L" "s1" 2 "k"

abbrev result_in : Outcome ReleaseResult → ReleaseResult
result_in (ok (r, db)) = r
result_in (err e) = record {
  receipt = record { operation = receipt1; sanitized_prompt = ""; turn_key = ""; attempt_id = "" };
  disposition = Disposition.new;
}

abbrev db2 : Db
db2 = db_in released

released-ok : released ≡ ok (result_in released, db2)
unfolding execute queue_prompt queue_new is_blank check_expected once authorize_session_controller
    classify_credential active_grant find_lease check_idempotency find_entry require_run_connected
    run_id_of_session query_session check_decision next_version journaled run step release_turn
    stored_release release_new start_turn insert_entry decimal
released-ok = refl

positive : check_expected 9 ≡ ok tt
unfolding check_expected
positive = refl

db2-authority : authorize_session_controller (run env db2 []) "s1" "L" true ≡ ok 1
unfolding execute queue_prompt queue_new is_blank check_expected once authorize_session_controller
    classify_credential active_grant find_lease check_idempotency find_entry require_run_connected
    run_id_of_session query_session check_decision next_version journaled run step release_turn
    stored_release release_new start_turn insert_entry decimal
db2-authority = refl

release_replays_example :
    release_turn env (run env db2 []) 9 "op2" "L" "s1" 9 "k"
    ≡ ok (
      record { receipt = (result_in released).receipt; disposition = Disposition.replayed },
      run env db2 [],
    )
release_replays_example =
    release_replays env db1 db2 8 9 "op2" "L" "L" "s1" 2 9 "k" (result_in released) [] 1 released-ok
      positive db2-authority

store_refines_example :
    Step
      (phase (run env db0 ((7, queue1) ∷ [])) "s1")
      (phase (step env (run env db0 ((7, queue1) ∷ [])) (8, release1)) "s1")
store_refines_example = store_refines env db0 ((7, queue1) ∷ []) (8, release1) db0-Inv "s1"

run_keeps_Inv_example : Inv (run env db0 ((7, queue1) ∷ later))
run_keeps_Inv_example = run_keeps_Inv env db0 ((7, queue1) ∷ later) db0-Inv

run_keeps_session_example :
    (s : SessionRow) × ((run env db0 ((7, queue1) ∷ later)).sessions "s1" ≡ some s)
    × Later session s
run_keeps_session_example = run_keeps_session env db0 ((7, queue1) ∷ later) "s1" session refl

abbrev turn1 : TurnRow
turn1 = record { prompt = "p"; status = TurnStatus.running; result = ""; attempt_id = "att_3_k" }

abbrev db3 : Db
db3 = run env db0 ((7, queue1) ∷ later)

db3-turn : db3.turns "s1" "k" ≡ some turn1
unfolding execute queue_prompt queue_new is_blank check_expected once authorize_session_controller
    classify_credential active_grant find_lease check_idempotency find_entry require_run_connected
    run_id_of_session query_session check_decision next_version journaled run step release_turn
    stored_release release_new start_turn insert_entry decimal
db3-turn = refl

run_keeps_turn_example :
    (u : TurnRow) × ((run env db3 ((9, queue1) ∷ [])).turns "s1" "k" ≡ some u) × SameTurn turn1 u
run_keeps_turn_example =
    run_keeps_turn env db3 ((9, queue1) ∷ []) "s1" "k" turn1
      (run_keeps_Inv env db0 ((7, queue1) ∷ later) db0-Inv) db3-turn

classify_iff_example : (classify_run_controller db0 "r1" "L" ≡ ok 1) ↔ Controls db0 "r1" "L" 1
classify_iff_example = classify_iff db0 "r1" "L" 1

two_free : next_grant db0.leases "r1" ≤ 2
unfolding next_grant latest
two_free = omega arith

next_grant-fresh_example : find_lease (grant_at "r1" 2) db0.leases ≡ none
next_grant-fresh_example = next_grant-fresh db0.leases "r1" 2 two_free

db0-controlled : classify_run_controller db0 "r1" "L" ≡ ok 1
unfolding classify_run_controller execute queue_prompt queue_new is_blank check_expected once
    authorize_session_controller classify_credential active_grant find_lease check_idempotency
    find_entry require_run_connected run_id_of_session query_session check_decision next_version
    journaled
db0-controlled = refl

abbrev revoked1 : Outcome Receipt
revoked1 = revoke_controller env db0 9 "op9" "r1" "L" none

abbrev revocation_receipt : Receipt
revocation_receipt =
    receipt_of "op9" "revoke_controller" "" "" 1 9 "revoked:generation=1:authorized_by=controller"

revoked1-ok : revoked1 ≡ ok (revocation_receipt, db_in revoked1)
unfolding revoke_controller revocation revoke_new check_target with_revoked update_leases
    project_session_connection classify_run_controller is_blank classify_credential active_grant
    find_lease find_entry record_journal_entry insert_entry decimal
revoked1-ok = refl

revocation_fences_example :
    (classify_run_controller db0 "r1" "L" ≡ ok 1)
    × ((adopted : Bool)
        → classify_credential (db_in revoked1) "r1" "L" adopted ≡ err StoreError.lease_superseded)
    × ((id : String) (s : SessionRow)
        → (db_in revoked1).sessions id ≡ some s
        → text_eq s.run_id "r1" ≡ true
        → is_disconnected s.controller_status ≡ true)
unfolding find_entry
revocation_fences_example =
    revocation_fences env db0 (db_in revoked1) 9 "op9" "r1" "L" revocation_receipt refl revoked1-ok

abbrev handed : Outcome GrantReceipt
handed = handoff_new db0 9 "op3" "r1" "L" 1 codex "ref2" "M" "fp"

abbrev grant_in : Outcome GrantReceipt → GrantReceipt
grant_in (ok (r, db)) = r
grant_in (err e) = record {
  receipt = receipt1;
  generation = 0;
  lease_secret = "";
  issuance_status = LeaseStatus.revoked;
  replayed_receipt = false;
}

handed-ok : handed ≡ ok (grant_in handed, db_in handed)
unfolding handoff_new classify_run_controller install_grant next_grant latest update_leases
    project_session_connection record_journal_entry insert_entry decimal execute queue_prompt
    queue_new is_blank check_expected once authorize_session_controller classify_credential
    active_grant find_lease check_idempotency find_entry require_run_connected run_id_of_session
    query_session check_decision next_version journaled
handed-ok = refl

new_lease-named : is_blank "M" ≡ false
unfolding is_blank
new_lease-named = refl

handoff_fences_example :
    (classify_run_controller (db_in handed) "r1" "M" ≡ ok (grant_in handed).generation)
    × (classify_run_controller (db_in handed) "r1" "L" ≡ err StoreError.lease_superseded)
    × (require_run_connected (db_in handed) "r1" ≡ err StoreError.controller_disconnected)
handoff_fences_example =
    handoff_fences db0 (db_in handed) 9 "op3" "r1" "L" 1 codex "ref2" "M" "fp" (grant_in handed)
      handed-ok new_lease-named refl

abbrev receipt_in : Outcome Receipt → Receipt
receipt_in (ok (r, db)) = r
receipt_in (err e) = receipt1

abbrev connected : Outcome Receipt
connected = connect_new db0 9 "op4" "r1" 1 "a2" "i1" "fp"

connected-ok : connected ≡ ok (receipt_in connected, db_in connected)
unfolding connect_new project_session_connection update_leases record_journal_entry insert_entry
    decimal find_lease find_entry
connected-ok = refl

abbrev disconnected : Outcome Receipt
disconnected = disconnect_run_controller env (db_in connected) 10 "op5" "r1" "L" "a1" 1

disconnected-ok : disconnected ≡ ok (receipt_in disconnected, db_in disconnected)
unfolding disconnect_run_controller disconnect_new end_episode classify_run_controller connect_new
    project_session_connection update_leases record_journal_entry insert_entry decimal execute
    queue_prompt queue_new is_blank check_expected once authorize_session_controller
    classify_credential active_grant find_lease check_idempotency find_entry require_run_connected
    run_id_of_session query_session check_decision next_version journaled
disconnected-ok = refl

late_disconnect_ignored_example :
    ((db_in disconnected).leases ≡ (db_in connected).leases)
    × ((db_in disconnected).sessions ≡ (db_in connected).sessions)
late_disconnect_ignored_example =
    late_disconnect_ignored env db0 (db_in connected) (db_in disconnected) 9 10 "op4" "r1" 1 "a2"
      "i1" "fp" (receipt_in connected) "op5" "L" "a1" (receipt_in disconnected) connected-ok refl
      disconnected-ok
