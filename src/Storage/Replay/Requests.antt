-- ===== src/Storage/Replay/Requests.antt =====
-- What a command of internal/storage asks for: its operation id, its kind, its fingerprint, the
-- authority of its caller and the checks of its input.
use agent_council.Common.{
  ℕ, String, Bool, true, false, not, ◌||◌, List, [], ◌∷◌, is_blank, decimal, text_eq, Result, ok,
  ◌>>◌, fail_if,
}
use agent_council.Council.Status.{is_terminal}
use agent_council.Storage.Rows.{StoreError, Db, Env}
use agent_council.Storage.Journal.{compute_fingerprint}
use agent_council.Storage.Authority.{authorize_session_controller}
use agent_council.Storage.Commands.{check_expected}
use agent_council.Storage.Prompts.{queue_parts, replace_parts}
use agent_council.Storage.Terminal.{status_text}
use agent_council.Storage.Control.{connection_text}
use agent_council.Storage.Dispatch.{phase_text, is_observation}
use agent_council.Storage.Reconcile.{
  validate_outcome, validate_ref, same_ref, reconciliation_text, resolve_execution_ref,
}
use agent_council.Storage.Step.{
  observes_outcome, acknowledges, Command, queues, replaces, discards, releases, cancels, ends,
  loses_host, connects, archives, observes, reconciles,
}

-- A release has a receipt of its own form, and is replayed by its own rule.
abbrev pub is_release : Command → Bool
is_release (releases op lease session expected key) = true
is_release _ = false

abbrev pub op_of : Command → String
op_of (queues op lease session expected key prompt tools) = op
op_of (replaces op lease session expected key prompt tools) = op
op_of (discards op lease session expected key) = op
op_of (releases op lease session expected key) = op
op_of (cancels op lease session expected key) = op
op_of (ends op lease session expected key status result) = op
op_of (loses_host op lease session expected) = op
op_of (connects op lease session expected status) = op
op_of (archives op lease session expected) = op
op_of (observes op lease session key phase) = op
op_of (observes_outcome op ref status result) = op
op_of (acknowledges op ref phase) = op
op_of (reconciles op execution ref outcome) = op

abbrev pub kind : Command → String
kind (queues op lease session expected key prompt tools) = "queue_prompt"
kind (replaces op lease session expected key prompt tools) = "replace_pending_prompt"
kind (discards op lease session expected key) = "discard_pending_prompt"
kind (releases op lease session expected key) = "release_turn"
kind (cancels op lease session expected key) = "request_cancel"
kind (ends op lease session expected key status result) = "record_terminal_outcome"
kind (loses_host op lease session expected) = "record_host_loss"
kind (connects op lease session expected status) = "set_controller_connection"
kind (archives op lease session expected) = "archive_session"
kind (observes op lease session key phase) = "record_dispatch_observation"
kind (observes_outcome op ref status result) = "record_observed_execution_outcome"
kind (acknowledges op ref phase) = "record_dispatch_observation"
kind (reconciles op execution ref outcome) = "reconcile_session"

-- What a command is recognised by besides its id.
abbrev pub parts : Env → Command → List String
parts env (queues op lease session expected key prompt tools) =
    queue_parts env session key (env.sanitize_text prompt) tools
parts env (replaces op lease session expected key prompt tools) =
    replace_parts env session key (env.sanitize_text prompt) tools
parts env (discards op lease session expected key) = "discard_pending_prompt" ∷ session ∷ key ∷ []
parts env (releases op lease session expected key) = "release_turn" ∷ session ∷ key ∷ []
parts env (cancels op lease session expected key) = "request_cancel" ∷ session ∷ key ∷ []
parts env (ends op lease session expected key status result) =
    "record_terminal_outcome" ∷ session ∷ key ∷ status_text status ∷ env.sanitize_text result ∷ []
parts env (loses_host op lease session expected) = "record_host_loss" ∷ session ∷ []
parts env (connects op lease session expected status) =
    "set_controller_connection" ∷ session ∷ connection_text status ∷ []
parts env (archives op lease session expected) = "archive_session" ∷ session ∷ []
parts env (observes op lease session key phase) =
    "record_dispatch_observation" ∷ session ∷ key ∷ phase_text phase ∷ []
parts env (observes_outcome op ref status result) =
    "record_observed_execution_outcome"
    ∷ ref.session_id
    ∷ ref.turn_key
    ∷ ref.attempt_id
    ∷ status_text status
    ∷ env.sanitize_text result
    ∷ []
parts env (acknowledges op ref phase) =
    "record_dispatch_observation"
    ∷ ref.session_id
    ∷ ref.turn_key
    ∷ ref.attempt_id
    ∷ phase_text phase
    ∷ []
parts env (reconciles op execution ref outcome) =
    "reconcile_session"
    ∷ ref.session_id
    ∷ ref.turn_key
    ∷ execution.attempt_id
    ∷ decimal ref.generation
    ∷ reconciliation_text outcome.status
    ∷ status_text outcome.observed
    ∷ outcome.result
    ∷ []

abbrev pub fingerprint : Env → Command → String
fingerprint env c = compute_fingerprint env (parts env c)

-- The authority that a command is checked for before anything else is read.
abbrev pub authority : Db → Command → Result StoreError ℕ
authority db (queues op lease session expected key prompt tools) =
    authorize_session_controller db session lease true
authority db (replaces op lease session expected key prompt tools) =
    authorize_session_controller db session lease true
authority db (discards op lease session expected key) =
    authorize_session_controller db session lease true
authority db (releases op lease session expected key) =
    authorize_session_controller db session lease true
authority db (cancels op lease session expected key) =
    authorize_session_controller db session lease true
authority db (ends op lease session expected key status result) =
    authorize_session_controller db session lease true
authority db (loses_host op lease session expected) =
    authorize_session_controller db session lease true
authority db (connects op lease session expected status) =
    authorize_session_controller db session lease true
authority db (archives op lease session expected) =
    authorize_session_controller db session lease false
authority db (observes op lease session key phase) = ok 0
authority db (observes_outcome op ref status result) = resolve_execution_ref db ref
authority db (acknowledges op ref phase) = resolve_execution_ref db ref
authority db (reconciles op execution ref outcome) = resolve_execution_ref db execution

-- The checks of a command's input, before its transaction begins.
abbrev pub valid : Env → Command → Result StoreError (Unit {0})
valid env (queues op lease session expected key prompt tools) = do
  check_expected expected
  fail_if (is_blank key) StoreError.empty_turn_key
  fail_if (is_blank prompt) StoreError.empty_prompt
valid env (replaces op lease session expected key prompt tools) = do
  check_expected expected
  fail_if (is_blank key) StoreError.empty_turn_key
  fail_if (is_blank prompt) StoreError.empty_prompt
valid env (discards op lease session expected key) = do
  check_expected expected
  fail_if (is_blank key) StoreError.empty_turn_key
valid env (releases op lease session expected key) = do
  check_expected expected
  fail_if (is_blank key) StoreError.empty_turn_key
valid env (cancels op lease session expected key) = do
  check_expected expected
  fail_if (is_blank key) StoreError.empty_turn_key
valid env (ends op lease session expected key status result) = do
  check_expected expected
  fail_if (is_blank key) StoreError.empty_turn_key
  fail_if (not (is_terminal status)) StoreError.invalid_status
valid env (loses_host op lease session expected) = check_expected expected
valid env (connects op lease session expected status) = check_expected expected
valid env (archives op lease session expected) = check_expected expected
valid env (observes op lease session key phase) = ok tt
valid env (observes_outcome op ref status result) = do
  fail_if (is_blank op) StoreError.empty_parameter
  fail_if (not (is_terminal status)) StoreError.invalid_status
valid env (acknowledges op ref phase) = do
  fail_if (not (is_observation phase)) StoreError.invalid_phase
  fail_if (is_blank op) StoreError.empty_parameter
valid env (reconciles op execution ref outcome) = do
  validate_outcome outcome
  validate_ref ref
  fail_if (not (same_ref outcome.ref ref)) StoreError.invalid_reference
  fail_if
      (not (text_eq execution.session_id ref.session_id)
        || not (text_eq execution.turn_key ref.turn_key))
      StoreError.wrong_execution_attempt
