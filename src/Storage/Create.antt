-- ===== src/Storage/Create.antt =====
-- internal/storage/session_store.go: `CreateRun` and `CreateSession`. The frozen digests of a run
-- and its row of `run_profiles`, which no transition reads, are left out of the tables; the insert
-- of that row does nothing where it is there.
pub mod Provenance
pub mod Invariant
use agent_council.Common.{
  ℕ, String, Bool, true, false, not, ◌&&◌, ◌||◌, ◌==◌, List, [], ◌∷◌, Option, none, some, is_some,
  put, text_eq, is_blank, if◌then◌else◌, Result, ok, ◌>>=◌, ◌>>◌, fail_if, or_fail,
}
use agent_council.Council.Contributor.{Contributor, valid_contributor, same_contributor}
use agent_council.Council.Status.{
  State, SessionLifecycle, ControllerConnection, ExecutionVisibility,
}
use agent_council.Storage.Rows.{
  StoreError, RunRow, LeaseRow, LeaseStatus, SessionRow, Receipt, Db, Env, Outcome,
}
use agent_council.Storage.Journal.{compute_fingerprint, check_idempotency, replay_or}
use agent_council.Storage.Authority.{find_lease, active_grant, classify_credential}
use agent_council.Storage.Commands.{check_version, set_session, receipt_of, journaled, once}
use agent_council.Storage.Grants.Install.{contributor_text}
use agent_council.Storage.Grants.Revoke.{grant_at}

-- The generation-0 row that records the lease which a run was created with.
abbrev pub provenance : (op run lease : String) → LeaseRow
provenance op run lease = record {
  run_id = run;
  generation = 0;
  harness = none;
  controller_ref = "create-run-provenance";
  lease = lease;
  status = LeaseStatus.legacy;
  granted_by_op_id = op;
  attachment_id = none;
  instance_id = none;
  attachment_rev = 0;
  connected = false;
}

-- The tables with the new run.
abbrev pub with_run : Db → (op run lease : String) → Db
with_run db op run lease = record db {
  runs =
      put run
        (record {
          controller_lease = lease;
          lifecycle = SessionLifecycle.active;
          controller_adopted = false;
        })
        db.runs;
  leases = provenance op run lease ∷ db.leases;
}

-- The primary keys of `runs` and `controller_leases` refuse a second row.
unfoldable pub insert_run : Db → ℕ → (op run lease fp : String) → Outcome Receipt
insert_run db now op run lease fp = do
  fail_if (is_some (db.runs run)) StoreError.constraint_failed
  fail_if (is_some (find_lease (grant_at run 0) db.leases)) StoreError.constraint_failed
  journaled (with_run db op run lease) op "create_run" fp run "" "" "run_created"
      (receipt_of op "create_run" "" "" 1 now "") lease

unfoldable pub create_run :
    Env → Db → ℕ → (op run brief source profile lease : String) → Outcome Receipt
create_run env db now op run brief source profile lease = do
  fail_if (is_blank run || is_blank brief || is_blank source || is_blank profile || is_blank lease)
      StoreError.empty_parameter
  let fp = compute_fingerprint env ("create_run" ∷ run ∷ brief ∷ source ∷ profile ∷ lease ∷ [])
  found ← check_idempotency db op "create_run" fp
  replay_or db found (insert_run db now op run lease fp)

-- What `CreateSession` reads of a `SessionRecord`. A state or a visibility of any other text is
-- refused by the CHECK of its column, as is a contributor outside the roster.
pub record SessionRecord : Type 0 where
  pub id : String
  pub run_id : String
  pub contributor : Contributor
  pub is_active_contributor : Bool
  pub state : State
  pub visibility : ExecutionVisibility
  pub recovery_generation : ℕ

abbrev state_text : State → String
state_text State.parked = "parked"
state_text State.running = "running"
state_text State.archived = "archived"

abbrev visibility_text : ExecutionVisibility → String
visibility_text ExecutionVisibility.reachable = "reachable"
visibility_text ExecutionVisibility.host_lost = "host_lost"

abbrev pub session_parts : SessionRecord → List String
session_parts s =
    "create_session"
    ∷ s.id
    ∷ s.run_id
    ∷ contributor_text s.contributor
    ∷ (if s.is_active_contributor then "true" else "false")
    ∷ state_text s.state
    ∷ visibility_text s.visibility
    ∷ []

abbrev connection_of : Option LeaseRow → ControllerConnection
connection_of none = ControllerConnection.disconnected
connection_of (some g) =
    if g.connected then ControllerConnection.connected else ControllerConnection.disconnected

-- The connection of the run's active grant.
unfoldable pub run_connection : Db → String → ControllerConnection
run_connection db run = connection_of (active_grant db run)

abbrev pub created_row : SessionRecord → ControllerConnection → SessionRow
created_row s c = record {
  run_id = s.run_id;
  contributor = s.contributor;
  is_active_contributor = s.is_active_contributor;
  state = s.state;
  lifecycle = SessionLifecycle.active;
  controller_status = c;
  visibility = s.visibility;
  active_key = none;
  recovery_context = none;
  recovery_gen = s.recovery_generation;
  active_recovery_gen = s.recovery_generation;
  row_version = 1;
}

abbrev speaks_for : String → Contributor → Option SessionRow → Bool
speaks_for run c none = false
speaks_for run c (some s) =
    text_eq s.run_id run && same_contributor s.contributor c && s.is_active_contributor

-- `idx_sessions_active_contributor`, over the ids of the rows.
unfoldable pub has_speaker : Db → String → Contributor → List String → Bool
has_speaker db run c [] = false
has_speaker db run c (id ∷ ids) = speaks_for run c (db.sessions id) || has_speaker db run c ids

-- The CHECKs and the unique indexes of `sessions`.
unfoldable pub check_session : Db → SessionRecord → Result StoreError (Unit {0})
check_session db s = do
  fail_if (is_some (db.sessions s.id)) StoreError.constraint_failed
  fail_if (not (valid_contributor s.contributor)) StoreError.constraint_failed
  check_version s.recovery_generation
  fail_if (s.is_active_contributor && has_speaker db s.run_id s.contributor db.session_ids)
      StoreError.constraint_failed

-- The tables with the new session.
abbrev pub with_session : Db → SessionRecord → Db
with_session db s = record (set_session s.id (created_row s (run_connection db s.run_id)) db) {
  session_ids = s.id ∷ db.session_ids;
}

unfoldable pub insert_session : Db → ℕ → (op lease fp : String) → SessionRecord → Outcome Receipt
insert_session db now op lease fp s = do
  r ← or_fail (db.runs s.run_id) StoreError.run_not_found
  check_session db s
  journaled (with_session db s) op "create_session" fp s.run_id s.id "" "session_created"
      (receipt_of op "create_session" s.id "" 1 now "") lease

-- The authority of an administrator comes before the replay.
unfoldable pub create_session : Env → Db → ℕ → (op lease : String) → SessionRecord → Outcome Receipt
create_session env db now op lease s =
    let fp = compute_fingerprint env (session_parts s) in
    once db op "create_session" fp (classify_credential db s.run_id lease false)
      (λ gen. insert_session db now op lease fp s)
