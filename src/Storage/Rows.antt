-- ===== src/Storage/Rows.antt =====
-- internal/storage: schema.sql, schema_v2.go and types.go. A table is the function that looks a row
-- up by its key; the tables that are searched in other ways are lists, newest row first. The ids of
-- the rows of `sessions`, newest first, stand beside them, for the unique index. Columns that hold
-- a time are left out, except in a receipt: no operation of the model reads them.
use agent_council.Common.{ℕ, String, Bool, List, Option, Dict, Result}
use agent_council.Council.Contributor.{Contributor}
use agent_council.Council.Status.{
  State, SessionLifecycle, TurnStatus, ControllerConnection, ExecutionVisibility,
}

pub data StoreError : Type 0 where
  stale_update idempotency_conflict unauthorized_operation artifact_not_found : StoreError
  host_lost session_archived controller_disconnected prompt_not_queued : StoreError
  required_tools_immutable invalid_expected_version turn_already_exists : StoreError
  conflicting_terminal_outcome session_not_found adoption_exists adoption_required : StoreError
  generation_mismatch lease_superseded recovery_unavailable wrong_execution_attempt : StoreError
  run_not_found query_session unreadable_receipt duplicate_operation constraint_failed : StoreError
  empty_turn_key empty_prompt key_already_active turn_reused duplicate_pending : StoreError
  not_parked nothing_to_cancel cannot_cancel turn_not_found invalid_status : StoreError
  outcome_mismatch loss_on_inactive cannot_archive invalid_outcome invalid_reference : StoreError
  host_not_lost stale_generation key_mismatch context_mismatch conflicts_with_terminal : StoreError
  intent_not_found invalid_phase empty_parameter invalid_harness no_grant intent_resolved :
      StoreError

-- A row of `runs`, less the frozen digests.
pub record RunRow : Type 0 where
  pub controller_lease : String
  pub lifecycle : SessionLifecycle
  pub controller_adopted : Bool

pub data LeaseStatus : Type 0 where
  active legacy superseded revoked : LeaseStatus

-- A row of `controller_leases`.
pub record LeaseRow : Type 0 where
  pub run_id : String
  pub generation : ℕ
  pub harness : Option String
  pub controller_ref : String
  pub lease : String
  pub status : LeaseStatus
  pub granted_by_op_id : String
  pub attachment_id : Option String
  pub instance_id : Option String
  pub attachment_rev : ℕ
  pub connected : Bool

-- A row of `sessions`.
pub record SessionRow : Type 0 where
  pub run_id : String
  pub contributor : Contributor
  pub is_active_contributor : Bool
  pub state : State
  pub lifecycle : SessionLifecycle
  pub controller_status : ControllerConnection
  pub visibility : ExecutionVisibility
  pub active_key : Option String
  pub recovery_context : Option String
  pub recovery_gen : ℕ
  pub active_recovery_gen : ℕ
  pub row_version : ℕ

pub record PendingRow : Type 0 where
  pub prompt : String
  pub required_tools_json : String

pub record TurnRow : Type 0 where
  pub prompt : String
  pub status : TurnStatus
  pub result : String
  pub attempt_id : String

pub data Phase : Type 0 where
  intent_recorded receipt_acknowledged acceptance_unknown resolved : Phase

-- A row of `dispatch_intents`.
pub record IntentRow : Type 0 where
  pub attempt_id : String
  pub phase : Phase
  pub required_tools_json : String
  pub issuing_controller_generation : ℕ

-- `OperationReceipt`.
pub record Receipt : Type 0 where
  pub op_id : String
  pub command_type : String
  pub session_id : String
  pub turn_key : String
  pub committed_version : ℕ
  pub created_at : ℕ
  pub payload : String

-- The JSON of a journal payload: `journalPayload`, with the two fields that only a
-- `releaseJournalPayload` has and that read "" elsewhere.
pub record Payload : Type 0 where
  pub caller_lease : String
  pub receipt : Receipt
  pub sanitized_prompt : String
  pub attempt_id : String

pub record JournalRow : Type 0 where
  pub op_id : String
  pub command_type : String
  pub command_fingerprint : String
  pub run_id : String
  pub session_id : Option String
  pub turn_key : Option String
  pub event_kind : String
  pub payload : Payload

pub record Db : Type 0 where
  pub runs : Dict RunRow
  pub leases : List LeaseRow
  pub sessions : Dict SessionRow
  pub session_ids : List String
  pub pending_prompts : String → Dict PendingRow
  pub turns : String → Dict TurnRow
  pub dispatch_intents : String → Dict IntentRow
  pub journal : List JournalRow

-- What the operations take from outside the package: the SHA-256 digest in hexadecimal and the JSON
-- of a list of texts (the standard library's), and `SanitizeText` of redaction.go.
pub record Env : Type 0 where
  pub sha256_hex : String → String
  pub marshal_strings : List String → String
  pub sanitize_text : String → String

-- A transition returns its receipt and the committed tables; an error rolls the transaction back.
abbrev pub Outcome {ℓ} : Type ℓ → Type ℓ
Outcome A = Result StoreError (A × Db)
