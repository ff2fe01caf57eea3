-- ===== src/Storage/Create/Invariant.antt =====
-- internal/storage: the invariant of the session rows, from the creation of a session on.
use agent_council.Common.{
  ℕ, leb, ◌^◌, String, ◌≡◌, inl, inr, true, false, ◌&&◌, none, is_some, arith, eq_iff, ok,
  Bool-cases, Option-cases, Result-cases, List,
}
use agent_council.Council.Status.{is_parked, is_lost}
use agent_council.Storage.Rows.{JournalRow, Receipt, Db, Env}
use agent_council.Storage.Journal.{
  compute_fingerprint, find_entry, check_idempotency, record_journal_entry, insert_entry,
}
use agent_council.Storage.Authority.{classify_credential}
use agent_council.Storage.Commands.{journaled, once, check_version}
use agent_council.Storage.Sessions.Invariant.{Inv}
use agent_council.Storage.Create.{
  SessionRecord, session_parts, create_session, insert_session, check_session, with_session,
  has_speaker,
}
use agent_council.Council.Contributor.{valid_contributor}

-- No row of another table belongs to a session that is not there, which the foreign keys ask for.
abbrev pub Owned : Db → Type 0
Owned db =
    (id k : String)
    → db.sessions id ≡ none
    → (db.turns id k ≡ none) × (db.dispatch_intents id k ≡ none) × (db.pending_prompts id k ≡ none)

abbrev created : Db → SessionRecord → List JournalRow → Db
created db s journal = record (with_session db s) { journal = journal }

created-Inv :
    (db : Db) (s : SessionRecord) (journal : List JournalRow)
    → Inv db
    → Owned db
    → is_parked s.state ≡ true
    → is_lost s.visibility ≡ false
    → s.recovery_generation ≡ 0
    → db.sessions s.id ≡ none
    → Inv (created db s journal)
created-Inv db s journal v o p q g n id k row e =
    ground (arith, v id k row, o s.id k, eq_iff s.id id)

created-Owned :
    (db : Db) (s : SessionRecord) (journal : List JournalRow)
    → Owned db
    → Owned (created db s journal)
created-Owned db s journal o id k e = ground (arith, o id k, eq_iff s.id id)

insert_session-created :
    (db db' : Db) (now : ℕ) (op lease fp : String) (s : SessionRecord) (r : Receipt)
    → insert_session db now op lease fp s ≡ ok (r, db')
    → (db.sessions s.id ≡ none) × (db' ≡ created db s db'.journal)
unfolding insert_session check_session check_version journaled record_journal_entry insert_entry
insert_session-created db db' now op lease fp s r h = ground (
  arith,
  Option-cases (db.runs s.run_id),
  Option-cases (db.sessions s.id),
  Bool-cases (valid_contributor s.contributor),
  Bool-cases (s.is_active_contributor && has_speaker db s.run_id s.contributor db.session_ids),
  Bool-cases (leb (2 ^ 63) s.recovery_generation),
  Bool-cases (is_some (find_entry op db.journal)),
)

-- Where the tables have an owner for every row and satisfy the invariant of the session rows, so do
-- the tables that `CreateSession` leaves, whether it creates or replays, given that the session it
-- is asked for is parked, reachable and in no recovery generation.
pub create_session_keeps_Inv :
    (env : Env) (db db' : Db) (now : ℕ) (op lease : String) (s : SessionRecord) (r : Receipt)
    → Inv db
    → Owned db
    → is_parked s.state ≡ true
    → is_lost s.visibility ≡ false
    → s.recovery_generation ≡ 0
    → create_session env db now op lease s ≡ ok (r, db')
    → Inv db' × Owned db'
unfolding create_session once check_idempotency
create_session_keeps_Inv env db db' now op lease s r v o p q g h =
    elim (Result-cases (classify_credential db s.run_id lease false)) [
      | inr (e, refused) ↦ absurd (ground arith)
      | inl (gen, allowed) ↦ elim (Option-cases (find_entry op db.journal)) [
        | inr (e, found) ↦ let same : db' ≡ db = ground arith in rw same ((v, o))
        | inl fresh ↦
            let (free, made) =
              insert_session-created db db' now op lease (compute_fingerprint env (session_parts s))
                s r (ground arith) in
            rw made
              ((created-Inv db s db'.journal v o p q g free, created-Owned db s db'.journal o))
      ]
    ]
