-- ===== src/Storage/Prompts.antt =====
-- internal/storage/session_store.go: `QueuePrompt`, `ReplacePendingPrompt` and
-- `DiscardPendingPrompt`. Each is the checks and the replay first, then the new decision.
use agent_council.Common.{
  ℕ, String, true, not, ◌&&◌, List, [], ◌∷◌, Option, none, some, is_some, text_eq, is_blank, put_at,
  delete_at, update_at, if◌then◌else◌, Result, ok, err, ◌>>=◌, ◌>>◌, fail_if,
}
use agent_council.Storage.Rows.{StoreError, SessionRow, PendingRow, Receipt, Db, Env, Outcome}
use agent_council.Storage.Journal.{compute_fingerprint}
use agent_council.Storage.Authority.{
  authorize_session_controller, run_id_of_session, require_run_connected, query_session,
}
use agent_council.Storage.Commands.{
  holds, check_expected, check_decision, next_version, set_session, receipt_of, journaled, once,
}

-- `marshalStrings` of agy_state.go.
unfoldable pub marshal_tools : Env → List String → String
marshal_tools env [] = "[]"
marshal_tools env (t ∷ ts) = env.marshal_strings (t ∷ ts)

-- The tools join the fingerprint only when some are stated.
unfoldable pub queue_parts : Env → String → String → String → List String → List String
queue_parts env session key sanitized [] = "queue_prompt" ∷ session ∷ key ∷ sanitized ∷ []
queue_parts env session key sanitized (t ∷ ts) =
    "queue_prompt" ∷ session ∷ key ∷ sanitized ∷ env.marshal_strings (t ∷ ts) ∷ []

-- A key that no turn has used: a pending row with the same content is kept and journaled.
queue_row :
    Db → ℕ → (op lease fp session key sanitized tools : String) → SessionRow → Outcome Receipt
queue_row db now op lease fp session key sanitized tools s = elim (db.pending_prompts session key) [
  | some p ↦
      if text_eq p.prompt sanitized && text_eq p.required_tools_json tools
      then journaled db op "queue_prompt" fp s.run_id session key "prompt_identical_noop"
          (receipt_of op "queue_prompt" session key s.row_version now sanitized) lease
      else err StoreError.duplicate_pending
  | none ↦ do
    version ← next_version s.row_version
    journaled
        (record (set_session session (record s { row_version = version }) db) {
          pending_prompts =
              put_at session key (record { prompt = sanitized; required_tools_json = tools })
                db.pending_prompts;
        })
        op "queue_prompt" fp s.run_id session key "prompt_queued"
        (receipt_of op "queue_prompt" session key version now sanitized) lease
]

unfoldable pub queue_new :
    Db → ℕ → (op lease fp session : String) → ℕ → (key sanitized tools : String) → Outcome Receipt
unfolding queue_row
queue_new db now op lease fp session expected key sanitized tools = do
  require_run_connected db (run_id_of_session db session)
  s ← query_session db session
  check_decision s expected
  fail_if (holds s.active_key key) StoreError.key_already_active
  elim (db.turns session key) [
    | some t ↦
        if text_eq t.prompt sanitized
        then err StoreError.turn_already_exists
        else err StoreError.turn_reused
    | none ↦ queue_row db now op lease fp session key sanitized tools s
  ]

unfoldable pub queue_prompt :
    Env
    → Db
    → ℕ
    → (op lease session : String) → ℕ
    → (key prompt : String) → List String
    → Outcome Receipt
unfolding marshal_tools queue_parts
queue_prompt env db now op lease session expected key prompt tools = do
  check_expected expected
  fail_if (is_blank key) StoreError.empty_turn_key
  fail_if (is_blank prompt) StoreError.empty_prompt
  let sanitized = env.sanitize_text prompt
  let fp = compute_fingerprint env (queue_parts env session key sanitized tools)
  once db op "queue_prompt" fp (authorize_session_controller db session lease true)
      (λ gen. queue_new db now op lease fp session expected key sanitized (marshal_tools env tools))

-- A nil `RequiredTools` keeps the queued set and is not part of the fingerprint.
unfoldable pub replace_parts : Env → String → String → String → Option (List String) → List String
unfolding marshal_tools
replace_parts env session key sanitized none =
    "replace_pending_prompt" ∷ session ∷ key ∷ sanitized ∷ []
replace_parts env session key sanitized (some tools) =
    "replace_pending_prompt" ∷ session ∷ key ∷ sanitized ∷ marshal_tools env tools ∷ []

-- The stated set must be the queued one.
check_tools : Env → Option PendingRow → Option (List String) → Result StoreError (Unit {0})
unfolding marshal_tools
check_tools env row none = ok tt
check_tools env none (some tools) = err StoreError.prompt_not_queued
check_tools env (some p) (some tools) =
    fail_if (not (text_eq p.required_tools_json (marshal_tools env tools)))
      StoreError.required_tools_immutable

unfoldable pub replace_new :
    Env
    → Db
    → ℕ
    → (op lease fp session : String) → ℕ
    → (key sanitized : String) → Option (List String)
    → Outcome Receipt
unfolding check_tools
replace_new env db now op lease fp session expected key sanitized tools = do
  require_run_connected db (run_id_of_session db session)
  s ← query_session db session
  check_decision s expected
  check_tools env (db.pending_prompts session key) tools
  fail_if (not (is_some (db.pending_prompts session key))) StoreError.prompt_not_queued
  version ← next_version s.row_version
  journaled
      (record (set_session session (record s { row_version = version }) db) {
        pending_prompts =
            update_at session key (λ p. record p { prompt = sanitized }) db.pending_prompts;
      })
      op "replace_pending_prompt" fp s.run_id session key "pending_prompt_replaced"
      (receipt_of op "replace_pending_prompt" session key version now sanitized) lease

unfoldable pub replace_pending_prompt :
    Env
    → Db
    → ℕ
    → (op lease session : String) → ℕ
    → (key prompt : String) → Option (List String)
    → Outcome Receipt
unfolding replace_parts
replace_pending_prompt env db now op lease session expected key prompt tools = do
  check_expected expected
  fail_if (is_blank key) StoreError.empty_turn_key
  fail_if (is_blank prompt) StoreError.empty_prompt
  let sanitized = env.sanitize_text prompt
  let fp = compute_fingerprint env (replace_parts env session key sanitized tools)
  once db op "replace_pending_prompt" fp (authorize_session_controller db session lease true)
      (λ gen. replace_new env db now op lease fp session expected key sanitized tools)

unfoldable pub discard_new : Db → ℕ → (op lease fp session : String) → ℕ → String → Outcome Receipt
discard_new db now op lease fp session expected key = do
  require_run_connected db (run_id_of_session db session)
  s ← query_session db session
  check_decision s expected
  fail_if (not (is_some (db.pending_prompts session key))) StoreError.prompt_not_queued
  version ← next_version s.row_version
  journaled
      (record (set_session session (record s { row_version = version }) db) {
        pending_prompts = delete_at session key db.pending_prompts;
      })
      op "discard_pending_prompt" fp s.run_id session key "pending_prompt_discarded"
      (receipt_of op "discard_pending_prompt" session key version now "") lease

unfoldable pub discard_pending_prompt :
    Env → Db → ℕ → (op lease session : String) → ℕ → String → Outcome Receipt
discard_pending_prompt env db now op lease session expected key = do
  check_expected expected
  fail_if (is_blank key) StoreError.empty_turn_key
  let fp = compute_fingerprint env ("discard_pending_prompt" ∷ session ∷ key ∷ [])
  once db op "discard_pending_prompt" fp (authorize_session_controller db session lease true)
      (λ gen. discard_new db now op lease fp session expected key)
