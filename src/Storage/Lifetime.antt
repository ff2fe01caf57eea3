-- ===== src/Storage/Lifetime.antt =====
-- internal/storage: the whole life of the tables, from an empty database: runs and sessions are
-- created, control is granted, revoked, recovered, connected and disconnected, and commands are
-- given. An operation that fails leaves the tables as they were.
pub mod Grants
pub mod Runs
pub mod Invariant
mod Tests
use agent_council.Common.{
  ℕ, String, Bool, true, ◌&&◌, ◌==◌, not, List, [], ◌∷◌, Option, no_entries, ok, err,
}
use agent_council.Council.Contributor.{Contributor}
use agent_council.Council.Status.{is_parked, is_lost}
use agent_council.Storage.Rows.{Db, Env, Outcome}
use agent_council.Storage.Step.{Command, step}
use agent_council.Storage.Create.{SessionRecord, create_run, create_session}
use agent_council.Storage.Grants.Adopt.{OperatorRecovery, adopt_controller, handoff_controller}
use agent_council.Storage.Grants.Revoke.{revoke_controller, recover_controller_credential}
use agent_council.Storage.Grants.Attachment.{connect_run_controller, disconnect_run_controller}

-- The first text of an operation is its operation id.
pub data Operation : Type 0 where
  creates_run : (op run brief source profile lease : String) → Operation
  creates_session : (op lease : String) → SessionRecord → Operation
  adopts :
      (op run : String)
      → Contributor
      → (ref bootstrap : String) → Option OperatorRecovery
      → String
      → Operation
  hands_off : (op run lease : String) → ℕ → Contributor → (ref candidate : String) → Operation
  revokes : (op run lease : String) → Option OperatorRecovery → Operation
  recovers_lease : (op run source : String) → ℕ → Operation
  connects_run : (op run lease : String) → ℕ → (attachment instance_id : String) → Operation
  disconnects_run : (op run lease attachment : String) → ℕ → Operation
  commands : Command → Operation

-- The committed tables, or those before the transaction.
abbrev pub committed {ℓ} : {A : Type ℓ} → Db → Outcome A → Db
committed db (ok (r, db')) = db'
committed db (err e) = db

unfoldable pub enact : Env → Db → ℕ → Operation → Db
enact env db now (creates_run op run brief source profile lease) =
    committed db (create_run env db now op run brief source profile lease)
enact env db now (creates_session op lease s) = committed db (create_session env db now op lease s)
enact env db now (adopts op run harness ref bootstrap recovery candidate) =
    committed db (adopt_controller env db now op run harness ref bootstrap recovery candidate)
enact env db now (hands_off op run lease expected harness ref candidate) =
    committed db (handoff_controller env db now op run lease expected harness ref candidate)
enact env db now (revokes op run lease recovery) =
    committed db (revoke_controller env db now op run lease recovery)
enact env db now (recovers_lease op run source expected) =
    committed db (recover_controller_credential env db now op run source expected)
enact env db now (connects_run op run lease expected attachment instance_id) =
    committed db (connect_run_controller env db now op run lease expected attachment instance_id)
enact env db now (disconnects_run op run lease attachment expected) =
    committed db (disconnect_run_controller env db now op run lease attachment expected)
enact env db now (commands c) = step env db (now, c)

unfoldable pub live_on : Env → Db → List (ℕ × Operation) → Db
live_on env db [] = db
live_on env db ((now, o) ∷ os) = live_on env (enact env db now o) os

-- The tables of a new database.
abbrev pub empty_db : Db
empty_db = record {
  runs = no_entries;
  leases = [];
  sessions = no_entries;
  session_ids = [];
  pending_prompts = λ id. no_entries;
  turns = λ id. no_entries;
  dispatch_intents = λ id. no_entries;
  journal = [];
}

-- A session is asked for parked, reachable and in no recovery generation.
abbrev pub begins_idle : Operation → Bool
begins_idle (creates_session op lease s) =
    is_parked s.state && not (is_lost s.visibility) && (s.recovery_generation == 0)
begins_idle _ = true

unfoldable pub all_begin_idle : List (ℕ × Operation) → Bool
all_begin_idle [] = true
all_begin_idle ((now, o) ∷ os) = begins_idle o && all_begin_idle os
