-- ===== src/Storage/Sessions/Change.antt =====
-- The changes that the transitions of internal/storage make to the tables besides the journal, one
-- constructor for each kind of change, with the facts that its guards leave behind.
use agent_council.Common.{
  ℕ, ◌+◌, String, ◌≡◌, true, false, none, some, text_eq, is_blank, put_at, delete_at, update_at,
}
use agent_council.Council.Status.{
  State, SessionLifecycle, TurnStatus, ControllerConnection, is_parked, is_running, is_lost,
  is_terminal, turn_running, lifecycle_archived,
}
use agent_council.Storage.Rows.{SessionRow, PendingRow, TurnRow, IntentRow, Phase, Db}
use agent_council.Storage.Commands.{is_set, text_of, set_session}
use agent_council.Storage.Release.{start_turn}
use agent_council.Storage.Terminal.{end_turn, parked_row, outcome_expected}
use agent_council.Storage.HostLoss.{lost_row}
use agent_council.Storage.Dispatch.{is_observation, is_resolved}
use agent_council.Storage.Reconcile.{reachable_row, parked_reachable}

-- The same row, one version later.
abbrev pub next_row : SessionRow → SessionRow
next_row s = record s { row_version = s.row_version + 1 }

pub data Change (db : Db) : Db → Type 0 where
  keeps : Change db db
  queued :
      (id key : String) (s : SessionRow) (p : PendingRow)
      → db.sessions id ≡ some s
      → db.turns id key ≡ none
      → Change db (record (set_session id (next_row s) db) {
        pending_prompts = put_at id key p db.pending_prompts;
      })
  replaced :
      (id key prompt : String) (s : SessionRow)
      → db.sessions id ≡ some s
      → Change db (record (set_session id (next_row s) db) {
        pending_prompts = update_at id key (λ p. record p { prompt = prompt }) db.pending_prompts;
      })
  discarded :
      (id key : String) (s : SessionRow)
      → db.sessions id ≡ some s
      → Change db (record (set_session id (next_row s) db) {
        pending_prompts = delete_at id key db.pending_prompts;
      })
  started :
      (gen : ℕ) (id key sanitized : String) (s : SessionRow) (p : PendingRow)
      → db.sessions id ≡ some s
      → db.turns id key ≡ none
      → db.dispatch_intents id key ≡ none
      → is_blank key ≡ false
      → is_lost s.visibility ≡ false
      → is_parked s.state ≡ true
      → is_set s.active_key ≡ false
      → lifecycle_archived s.lifecycle ≡ false
      → db.pending_prompts id key ≡ some p
      → Change db (start_turn db gen id key s (s.row_version + 1) sanitized p)
  ended :
      (id key result : String) (status : TurnStatus) (s : SessionRow) (t : TurnRow)
      → db.sessions id ≡ some s
      → db.turns id key ≡ some t
      → is_terminal status ≡ true
      → is_terminal t.status ≡ false
      → outcome_expected s key ≡ true
      → lifecycle_archived s.lifecycle ≡ false
      → Change db
          (end_turn id key status result (set_session id (parked_row s key (s.row_version + 1)) db))
  closes :
      (id key result : String) (status : TurnStatus) (s : SessionRow)
      → db.sessions id ≡ some s
      → is_terminal status ≡ true
      → is_lost s.visibility ≡ true
      → is_set s.active_key ≡ true
      → text_eq (text_of s.active_key) key ≡ true
      → Change db (
          end_turn id key status result
            (set_session id (parked_reachable s (s.row_version + 1)) db))
  recovers :
      (id : String) (s : SessionRow)
      → db.sessions id ≡ some s
      → is_lost s.visibility ≡ true
      → Change db (set_session id (reachable_row s (s.row_version + 1)) db)
  waits :
      (id : String) (s : SessionRow)
      → db.sessions id ≡ some s
      → Change db (set_session id (next_row s) db)
  loses :
      (id : String) (s : SessionRow)
      → db.sessions id ≡ some s
      → is_lost s.visibility ≡ false
      → is_running s.state ≡ true
      → is_set s.active_key ≡ true
      → Change db (set_session id (lost_row s (s.recovery_gen + 1) (s.row_version + 1)) db)
  cancels :
      (id key : String) (s : SessionRow) (t : TurnRow)
      → db.sessions id ≡ some s
      → db.turns id key ≡ some t
      → turn_running t.status ≡ true
      → Change db (record (set_session id (next_row s) db) {
        turns = update_at id key (λ u. record u { status = TurnStatus.cancelling }) db.turns;
      })
  connects :
      (id : String) (s : SessionRow) (c : ControllerConnection)
      → db.sessions id ≡ some s
      → Change db (set_session id (record (next_row s) { controller_status = c }) db)
  closes_session :
      (id : String) (s : SessionRow)
      → db.sessions id ≡ some s
      → is_running s.state ≡ false
      → is_set s.active_key ≡ false
      → is_lost s.visibility ≡ false
      → Change db (
          set_session id
            (record (next_row s) { lifecycle = SessionLifecycle.archived; state = State.archived })
            db)
  observes :
      (id key : String) (phase : Phase) (s : SessionRow) (i : IntentRow)
      → db.sessions id ≡ some s
      → db.dispatch_intents id key ≡ some i
      → is_resolved i.phase ≡ false
      → is_observation phase ≡ true
      → Change db (record (set_session id (next_row s) db) {
        dispatch_intents = update_at id key (λ j. record j { phase = phase }) db.dispatch_intents;
      })

-- A change of the tables, and whatever it journals.
pub record Logged (db db' : Db) : Type 0 where
  pub tables : Db
  pub change : Change db tables
  pub logged : db' ≡ record tables { journal = db'.journal }
