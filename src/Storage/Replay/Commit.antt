-- ===== src/Storage/Replay/Commit.antt =====
-- What a new decision of internal/storage leaves in the journal.
use agent_council.Common.{
  ℕ, String, ◌≡◌, refl, inl, inr, not, List, ◌∷◌, none, some, arith, eq_iff, ok, >>=-eq-ok,
  if-eq-ok,
}
use agent_council.Council.Status.{is_terminal, TurnStatus}
use agent_council.Storage.Rows.{Receipt, JournalRow, SessionRow, TurnRow, Db, Env}
use agent_council.Storage.Journal.{find_entry, check_idempotency, journal_row}
use agent_council.Storage.Commands.{journaled, next_version}
use agent_council.Storage.Prompts.{queue_new, replace_new, discard_new}
use agent_council.Storage.Cancel.{cancel_new}
use agent_council.Storage.Terminal.{
  end_turn, same_outcome, outcome_expected, terminal_row, terminal_new,
}
use agent_council.Storage.HostLoss.{host_loss_new}
use agent_council.Storage.Control.{connection_new, archive_new}
use agent_council.Storage.Dispatch.{observe_new}
use agent_council.Storage.Reconcile.{
  ReconciliationStatus, settle_active, settle_ended, reconcile_new,
}
use agent_council.Storage.Observed.{observed_row, observed_new, acknowledged_new}
use agent_council.Storage.Step.{observes_outcome, Command, queues, releases, ends, reconciles}
use agent_council.Storage.Replay.Requests.{op_of, kind, fingerprint}
use agent_council.Storage.Replay.Shape.{decide}

-- The journal `j` has grown to that of `db` by one entry, under an id that was not in use, and the
-- entry answers the command.
pub record Commits (j : List JournalRow) (db : Db) (op cmd fp : String) (r : Receipt) : Type 0 where
  pub answered : check_idempotency db op cmd fp ≡ ok (some r)
  pub fresh : find_entry op j ≡ none
  pub grown : (e : JournalRow) × (e.op_id ≡ op) × (db.journal ≡ e ∷ j)

pub journaled-Commits :
    (db db' : Db) (op cmd fp run session turn event lease : String) (r r' : Receipt)
    → journaled db op cmd fp run session turn event r lease ≡ ok (r', db')
    → Commits db.journal db' op cmd fp r'
unfolding journaled check_idempotency
journaled-Commits db db' op cmd fp run session turn event lease r r' h = record {
  answered = ground (arith, eq_iff op op, eq_iff cmd cmd, eq_iff fp fp);
  fresh = ground arith;
  grown = (journal_row op cmd fp run session turn event r lease, refl, ground arith);
}

terminal_row-Commits :
    (db db' : Db) (now : ℕ) (op lease fp session key : String) (status : TurnStatus)
    (result : String) (s : SessionRow) (t : TurnRow) (r : Receipt)
    → terminal_row db now op lease fp session key status result s t ≡ ok (r, db')
    → Commits db.journal db' op "record_terminal_outcome" fp r
unfolding terminal_row end_turn
terminal_row-Commits db db' now op lease fp session key status result s t r h =
    elim (if-eq-ok (is_terminal t.status) _ _ h) [
      | inl (_, h') ↦ elim (if-eq-ok (same_outcome t status result) _ _ h') [
        | inl (_, done) ↦ journaled-Commits _ _ _ _ _ _ _ _ _ _ _ _ done
        | inr (_, refused) ↦ cc
      ]
      | inr (_, h') ↦ elim (if-eq-ok (not (outcome_expected s key)) _ _ h') [
        | inl (_, refused) ↦ cc
        | inr (_, h'') ↦
            let (version, _, done) = >>=-eq-ok (next_version s.row_version) _ h'' in
            journaled-Commits _ _ _ _ _ _ _ _ _ _ _ _ done
      ]
    ]

settle_active-journal :
    (db db' : Db) (session key : String) (s : SessionRow) (version : ℕ)
    (status : ReconciliationStatus) (observed : TurnStatus) (result p : String)
    → settle_active db session key s version status observed result ≡ ok (p, db')
    → db'.journal ≡ db.journal
unfolding settle_active end_turn
settle_active-journal db db' session key s version ReconciliationStatus.uncertain o result p h =
    ground arith
settle_active-journal db db' session key s version _ o result p h = ground arith

settle_ended-journal :
    (db db' : Db) (session : String) (s : SessionRow) (version : ℕ) (status : ReconciliationStatus)
    (p : String)
    → settle_ended db session s version status ≡ ok (p, db')
    → db'.journal ≡ db.journal
unfolding settle_ended
settle_ended-journal db db' session s version ReconciliationStatus.uncertain p h = ground arith
settle_ended-journal db db' session s version _ p h = ground arith

observed_row-Commits :
    (db db' : Db) (now gen : ℕ) (op fp session key : String) (status : TurnStatus) (result : String)
    (s : SessionRow) (t : TurnRow) (r : Receipt)
    → observed_row db now gen op fp session key status result s t ≡ ok (r, db')
    → Commits db.journal db' op "record_observed_execution_outcome" fp r
unfolding observed_row end_turn
observed_row-Commits db db' now gen op fp session key status result s t r h =
    elim (if-eq-ok (is_terminal t.status) _ _ h) [
      | inl (_, h') ↦ elim (if-eq-ok (same_outcome t status result) _ _ h') [
        | inl (_, done) ↦ journaled-Commits _ _ _ _ _ _ _ _ _ _ _ _ done
        | inr (_, refused) ↦ cc
      ]
      | inr (_, h') ↦ elim (if-eq-ok (not (outcome_expected s key)) _ _ h') [
        | inl (_, refused) ↦ cc
        | inr (_, h'') ↦
            let (version, _, done) = >>=-eq-ok (next_version s.row_version) _ h'' in
            journaled-Commits _ _ _ _ _ _ _ _ _ _ _ _ done
      ]
    ]

pub decide-Commits :
    (env : Env) (db db' : Db) (now : ℕ) (c : Command) (r : Receipt)
    → decide env db now c ≡ ok (r, db')
    → Commits db.journal db' (op_of c) (kind c) (fingerprint env c) r
unfolding queue_new replace_new discard_new cancel_new terminal_new host_loss_new connection_new
    archive_new observe_new reconcile_new observed_new acknowledged_new
decide-Commits env db db' now (queues op lease session expected key prompt tools) r h =
    grind (arith, journaled-Commits)
decide-Commits env db db' now (releases op lease session expected key) r h = cc
decide-Commits env db db' now (ends op lease session expected key status result) r h =
    grind (arith, terminal_row-Commits)
decide-Commits env db db' now (observes_outcome op ref status result) r h =
    grind (arith, observed_row-Commits)
decide-Commits env db db' now (reconciles op execution ref outcome) r h =
    grind (arith, settle_active-journal, settle_ended-journal, journaled-Commits)
decide-Commits env db db' now _ r h = grind (arith, journaled-Commits)
