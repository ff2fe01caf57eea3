-- ===== src/Storage/Replay/Shape.antt =====
-- Every transition of internal/storage but `ReleaseTurn` has one shape: input checks, the authority
-- of the caller, the replay, the new decision.
use agent_council.Common.{
  >>-assoc, ◌∙◌, ap, refl, ℕ, String, ◌≡◌, false, not, is_blank, Result, ok, err, ◌>>◌, fail_if,
  arith,
}
use agent_council.Council.Status.{is_terminal}
use agent_council.Storage.Rows.{StoreError, Receipt, Db, Env, Outcome}
use agent_council.Storage.Commands.{once}
use agent_council.Storage.Prompts.{
  marshal_tools, queue_prompt, queue_new, replace_pending_prompt, replace_new,
  discard_pending_prompt, discard_new,
}
use agent_council.Storage.Cancel.{request_cancel, cancel_new}
use agent_council.Storage.Terminal.{record_terminal_outcome, terminal_new}
use agent_council.Storage.HostLoss.{record_host_loss, host_loss_new}
use agent_council.Storage.Control.{
  set_controller_connection, connection_new, archive_session, archive_new,
}
use agent_council.Storage.Dispatch.{is_observation, record_dispatch_observation, observe_new}
use agent_council.Storage.Observed.{
  observed_new, acknowledged_new, record_observed_execution_outcome,
  record_observed_dispatch_acknowledgement,
}
use agent_council.Storage.Reconcile.{resolve_execution_ref, reconcile_session, reconcile_new}
use agent_council.Storage.Step.{
  observes_outcome, acknowledges, Command, queues, replaces, discards, releases, cancels, ends,
  loses_host, connects, archives, observes, reconciles, execute,
}
use agent_council.Storage.Replay.Requests.{is_release, op_of, kind, fingerprint, authority, valid}

-- The generation that issued an accepted execution.
abbrev issued : Result StoreError ℕ → ℕ
issued (ok gen) = gen
issued (err e) = 0

once-issued :
    (db : Db) (op cmd fp : String) (a : Result StoreError ℕ) (body : ℕ → Outcome Receipt)
    → once db op cmd fp a body ≡ once db op cmd fp a (λ gen. body (issued a))
unfolding once
once-issued db op cmd fp (ok gen) body = refl
once-issued db op cmd fp (err e) body = refl

-- The new decision of a command.
abbrev pub decide : Env → Db → ℕ → Command → Outcome Receipt
decide env db now (queues op lease session expected key prompt tools) =
    queue_new db now op lease (fingerprint env (queues op lease session expected key prompt tools))
      session expected key (env.sanitize_text prompt) (marshal_tools env tools)
decide env db now (replaces op lease session expected key prompt tools) =
    replace_new env db now op lease
      (fingerprint env (replaces op lease session expected key prompt tools)) session expected key
      (env.sanitize_text prompt) tools
decide env db now (discards op lease session expected key) =
    discard_new db now op lease (fingerprint env (discards op lease session expected key)) session
      expected key
decide env db now (releases op lease session expected key) = err StoreError.constraint_failed
decide env db now (cancels op lease session expected key) =
    cancel_new db now op lease (fingerprint env (cancels op lease session expected key)) session
      expected key
decide env db now (ends op lease session expected key status result) =
    terminal_new db now op lease
      (fingerprint env (ends op lease session expected key status result)) session expected key
      status (env.sanitize_text result)
decide env db now (loses_host op lease session expected) =
    host_loss_new db now op lease (fingerprint env (loses_host op lease session expected)) session
      expected
decide env db now (connects op lease session expected status) =
    connection_new db now op lease (fingerprint env (connects op lease session expected status))
      session expected status
decide env db now (archives op lease session expected) =
    archive_new db now op lease (fingerprint env (archives op lease session expected)) session
      expected
decide env db now (observes op lease session key phase) =
    observe_new db now op lease (fingerprint env (observes op lease session key phase)) session key
      phase
decide env db now (observes_outcome op ref status result) =
    observed_new db now (issued (resolve_execution_ref db ref)) op
      (fingerprint env (observes_outcome op ref status result)) ref status
      (env.sanitize_text result)
decide env db now (acknowledges op ref phase) =
    acknowledged_new db now (issued (resolve_execution_ref db ref)) op
      (fingerprint env (acknowledges op ref phase)) ref phase
decide env db now (reconciles op execution ref outcome) =
    reconcile_new env db now op (fingerprint env (reconciles op execution ref outcome)) ref outcome

pub execute-once :
    (env : Env) (db : Db) (now : ℕ) (c : Command)
    → is_release c ≡ false
    → execute env db now c ≡ (
        valid env c
        >> once db
            (op_of c)
            (kind c)
            (fingerprint env c)
            (authority db c)
            (λ gen. decide env db now c))
unfolding execute queue_prompt replace_pending_prompt discard_pending_prompt request_cancel
    record_terminal_outcome record_host_loss set_controller_connection archive_session
    record_dispatch_observation reconcile_session record_observed_execution_outcome
    record_observed_dispatch_acknowledgement
execute-once env db now (queues op lease session expected key prompt tools) h = ground arith
execute-once env db now (releases op lease session expected key) h = cc
execute-once env db now (observes_outcome op ref status result) h =
    let c = observes_outcome op ref status result in
    let body : ℕ → Outcome Receipt =
      λ gen. observed_new db now gen op (fingerprint env c) ref status (env.sanitize_text result) in
    let asked = resolve_execution_ref db ref in
    >>-assoc (fail_if (is_blank op) StoreError.empty_parameter)
      (fail_if (not (is_terminal status)) StoreError.invalid_status)
      (once db op (kind c) (fingerprint env c) asked body)
    ∙ ap (λ m. valid env c >> m) (once-issued db op (kind c) (fingerprint env c) asked body)
execute-once env db now (acknowledges op ref phase) h =
    let c = acknowledges op ref phase in
    let body : ℕ → Outcome Receipt =
      λ gen. acknowledged_new db now gen op (fingerprint env c) ref phase in
    let asked = resolve_execution_ref db ref in
    >>-assoc (fail_if (not (is_observation phase)) StoreError.invalid_phase)
      (fail_if (is_blank op) StoreError.empty_parameter)
      (once db op (kind c) (fingerprint env c) asked body)
    ∙ ap (λ m. valid env c >> m) (once-issued db op (kind c) (fingerprint env c) asked body)
execute-once env db now _ h = ground arith
