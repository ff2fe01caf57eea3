-- ===== src/Storage/Dispatch.antt =====
-- internal/storage/transitions.go: `RecordDispatchObservation`.
use agent_council.Common.{
  ℕ, String, Bool, true, false, not, [], ◌∷◌, text_eq, update_at, if◌then◌else◌, ok, ◌>>=◌, ◌>>◌,
  fail_if, or_fail,
}
use agent_council.Storage.Rows.{StoreError, SessionRow, IntentRow, Phase, Receipt, Db, Env, Outcome}
use agent_council.Storage.Journal.{compute_fingerprint}
use agent_council.Storage.Commands.{next_version, set_session, receipt_of, journaled, once}

unfoldable pub phase_text : Phase → String
phase_text Phase.intent_recorded = "intent_recorded"
phase_text Phase.receipt_acknowledged = "receipt_acknowledged"
phase_text Phase.acceptance_unknown = "acceptance_unknown"
phase_text Phase.resolved = "resolved"

abbrev pub is_resolved : Phase → Bool
is_resolved Phase.resolved = true
is_resolved _ = false

-- The phases that an observation may report.
abbrev pub is_observation : Phase → Bool
is_observation Phase.receipt_acknowledged = true
is_observation Phase.acceptance_unknown = true
is_observation _ = false

unfoldable pub same_phase : Phase → Phase → Bool
same_phase p q = text_eq (phase_text p) (phase_text q)

-- An observation of a resolved intent comes late, and one that is recorded already says nothing new.
observe_row :
    Db → ℕ → (op lease fp session key : String) → Phase → SessionRow → IntentRow → Outcome Receipt
observe_row db now op lease fp session key phase s i =
    if is_resolved i.phase
    then journaled db op "record_dispatch_observation" fp s.run_id session key
        "dispatch_late_observation_ignored"
        (receipt_of op "record_dispatch_observation" session key s.row_version now
          "late_observation_ignored")
        lease
    else if same_phase i.phase phase
    then journaled db op "record_dispatch_observation" fp s.run_id session key
        "dispatch_observation_noop"
        (receipt_of op "record_dispatch_observation" session key s.row_version now
          (phase_text phase))
        lease
    else do
      version ← next_version s.row_version
      journaled
          (record (set_session session (record s { row_version = version }) db) {
            dispatch_intents =
                update_at session key (λ j. record j { phase = phase }) db.dispatch_intents;
          })
          op "record_dispatch_observation" fp s.run_id session key "dispatch_observed"
          (receipt_of op "record_dispatch_observation" session key version now (phase_text phase))
          lease

unfoldable pub observe_new : Db → ℕ → (op lease fp session key : String) → Phase → Outcome Receipt
unfolding observe_row
observe_new db now op lease fp session key phase = do
  s ← or_fail (db.sessions session) StoreError.query_session
  r ← or_fail (db.runs s.run_id) StoreError.query_session
  fail_if (not (text_eq r.controller_lease lease)) StoreError.unauthorized_operation
  i ← or_fail (db.dispatch_intents session key) StoreError.intent_not_found
  fail_if (not (is_observation phase)) StoreError.invalid_phase
  observe_row db now op lease fp session key phase s i

-- The phase is one of the four of the column; the source takes a text and refuses others too. Here
-- the replay comes before the comparison of the lease.
unfoldable pub record_dispatch_observation :
    Env → Db → ℕ → (op lease session key : String) → Phase → Outcome Receipt
record_dispatch_observation env db now op lease session key phase = do
  let fp =
      compute_fingerprint env
        ("record_dispatch_observation" ∷ session ∷ key ∷ phase_text phase ∷ [])
  once db op "record_dispatch_observation" fp (ok 0)
      (λ gen. observe_new db now op lease fp session key phase)
