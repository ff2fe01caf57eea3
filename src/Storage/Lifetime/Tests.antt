-- ===== src/Storage/Lifetime/Tests.antt =====
-- A life of the tables of internal/storage: a run is created, adopted and connected; a session is
-- created, and a prompt is queued and released.
use agent_council.Common.{
  ℕ, ◌≡◌, refl, true, false, List, [], ◌∷◌, none, is_some, is_blank, ok, err, decimal,
}
use agent_council.Council.Contributor.{claude, valid_contributor}
use agent_council.Council.Status.{State, ExecutionVisibility}
use agent_council.Storage.Rows.{StoreError, Db, Env}
use agent_council.Storage.Journal.{
  check_idempotency, find_entry, record_journal_entry, insert_entry,
}
use agent_council.Storage.Authority.{
  classify_credential, require_run_connected, find_lease, active_grant, classify_run_controller,
  authorize_session_controller, run_id_of_session, query_session,
}
use agent_council.Storage.Prompts.{queue_prompt, queue_new}
use agent_council.Storage.Release.{release_turn, stored_release, release_new, start_turn}
use agent_council.Storage.Grants.Install.{
  resolve_grant_replay, install_grant, next_grant, latest, update_leases,
  project_session_connection,
}
use agent_council.Storage.Grants.Adopt.{adopt_controller, check_grant, adopt_new, check_adoption}
use agent_council.Storage.Grants.Attachment.{connect_run_controller, connect_new}
use agent_council.Storage.Commands.{
  receipt_of, journaled, once, check_expected, check_decision, next_version,
}
use agent_council.Storage.Step.{step, execute, queues, releases}
use agent_council.Storage.Sessions.Invariant.{Inv}
use agent_council.Storage.Create.{
  SessionRecord, create_run, insert_run, create_session, insert_session, check_session, has_speaker,
  run_connection,
}
use agent_council.Storage.Create.Invariant.{Owned}
use agent_council.Storage.Create.Provenance.{created_run_unadopted}
use agent_council.Storage.Lifetime.{
  Operation, creates_run, creates_session, adopts, connects_run, commands, committed, enact,
  live_on, empty_db, all_begin_idle,
}
use agent_council.Storage.Lifetime.Invariant.{life_keeps_Inv}

abbrev env : Env
env = record { sha256_hex = λ s. s; marshal_strings = λ ts. "[]"; sanitize_text = λ s. s }

abbrev asked : SessionRecord
asked = record {
  id = "s1";
  run_id = "r1";
  contributor = claude;
  is_active_contributor = true;
  state = State.parked;
  visibility = ExecutionVisibility.reachable;
  recovery_generation = 0;
}

abbrev life : List (ℕ × Operation)
life =
    (1, creates_run "op1" "r1" "brief" "source" "profile" "L0")
    ∷ (2, adopts "op2" "r1" claude "ref" "L0" none "L")
    ∷ (3, connects_run "op3" "r1" "L" 1 "a1" "i1")
    ∷ (4, creates_session "op4" "L" asked)
    ∷ (5, commands (queues "op5" "L" "s1" 1 "k" "p" []))
    ∷ (6, commands (releases "op6" "L" "s1" 2 "k"))
    ∷ []

life-idle : all_begin_idle life ≡ true
unfolding all_begin_idle
life-idle = refl

life_keeps_Inv_example : Inv (live_on env empty_db life) × Owned (live_on env empty_db life)
life_keeps_Inv_example = life_keeps_Inv env life life-idle

abbrev run1 : Db
run1 = committed empty_db (create_run env empty_db 1 "op1" "r1" "brief" "source" "profile" "L0")

run1-created :
    create_run env empty_db 1 "op1" "r1" "brief" "source" "profile" "L0"
    ≡ ok (receipt_of "op1" "create_run" "" "" 1 1 "", run1)
unfolding create_run insert_run is_blank check_idempotency find_entry find_lease journaled
    record_journal_entry insert_entry
run1-created = refl

created_run_unadopted_example :
    (classify_credential run1 "r1" "L0" true ≡ err StoreError.adoption_required)
    × (classify_credential run1 "r1" "L0" false ≡ ok 0)
    × (require_run_connected run1 "r1" ≡ err StoreError.adoption_required)
unfolding find_entry find_lease
created_run_unadopted_example =
    created_run_unadopted env empty_db run1 1 "op1" "r1" "brief" "source" "profile" "L0"
      (receipt_of "op1" "create_run" "" "" 1 1 "") refl refl run1-created

-- The prompt's turn runs in the end.
life-running : is_some ((live_on env empty_db life).turns "s1" "k") ≡ true
unfolding live_on enact create_run insert_run is_blank check_idempotency find_entry find_lease
    journaled record_journal_entry insert_entry adopt_controller check_grant valid_contributor
    resolve_grant_replay adopt_new check_adoption install_grant next_grant latest active_grant
    update_leases connect_run_controller classify_run_controller classify_credential connect_new
    project_session_connection create_session once insert_session check_session has_speaker
    run_connection step execute queue_prompt queue_new check_expected authorize_session_controller
    require_run_connected run_id_of_session query_session check_decision next_version release_turn
    stored_release release_new start_turn decimal
life-running = refl
