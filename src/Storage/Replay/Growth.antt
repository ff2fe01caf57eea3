-- ===== src/Storage/Replay/Growth.antt =====
-- The journal of internal/storage only grows, and an answer is a replay or a new decision.
use agent_council.Common.{
  ℕ, String, ◌≡◌, refl, sym, ◌∙◌, ap, ◌⊎◌, inl, inr, true, false, List, [], ◌∷◌, Option, none, some,
  Result-cases, arith, eq_iff, Result, ok, >>=-eq-ok, >>-eq-ok, is_blank, fail_if,
}
use agent_council.Storage.Rows.{
  StoreError, Receipt, JournalRow, SessionRow, PendingRow, Db, Env, Outcome,
}
use agent_council.Storage.Journal.{
  compute_fingerprint, find_entry, check_idempotency, replay_or, insert_entry,
}
use agent_council.Storage.Authority.{authorize_session_controller}
use agent_council.Storage.Commands.{check_expected, once}
use agent_council.Storage.Release.{
  ReleaseReceipt, ReleaseResult, Disposition, stored_release, release_turn, release_new, start_turn,
}
use agent_council.Storage.Step.{Command, releases, execute, step, run}
use agent_council.Storage.Replay.Requests.{is_release, op_of, kind, fingerprint, authority, valid}
use agent_council.Storage.Replay.Shape.{decide, execute-once}
use agent_council.Storage.Replay.Commit.{Commits, decide-Commits}

-- The fingerprint of a release.
abbrev pub release_print : Env → String → String → String
release_print env session key = compute_fingerprint env ("release_turn" ∷ session ∷ key ∷ [])

-- The journal of `db'` still finds what the journal `j` finds.
abbrev pub Keeps : List JournalRow → Db → Type 0
Keeps j db' =
    (o : String) (e : JournalRow) → find_entry o j ≡ some e → find_entry o db'.journal ≡ some e

once-cases :
    (db db' : Db) (op cmd fp : String) (a : Result StoreError ℕ) (body : Outcome Receipt)
    (r : Receipt)
    → once db op cmd fp a (λ gen. body) ≡ ok (r, db')
    → ((db' ≡ db) × (check_idempotency db op cmd fp ≡ ok (some r))) ⊎ (body ≡ ok (r, db'))
unfolding once
once-cases db db' op cmd fp a body r h =
    let (gen, _, h') = >>=-eq-ok a _ h in
    let (found, checked, h'') = >>=-eq-ok (check_idempotency db op cmd fp) _ h' in
    replayed found checked h''
  where
    replayed :
        (found : Option Receipt)
        → check_idempotency db op cmd fp ≡ ok found
        → replay_or db found body ≡ ok (r, db')
        → ((db' ≡ db) × (check_idempotency db op cmd fp ≡ ok (some r))) ⊎ (body ≡ ok (r, db'))
    replayed none c done = inr done
    replayed (some r') c done = inl (cc, cc)

-- A success is a replay, which changes nothing, or a new decision on a valid input.
pub execute-decided :
    (env : Env) (db db' : Db) (now : ℕ) (c : Command) (r : Receipt)
    → is_release c ≡ false
    → execute env db now c ≡ ok (r, db')
    → ((db' ≡ db) × (check_idempotency db (op_of c) (kind c) (fingerprint env c) ≡ ok (some r)))
      ⊎ ((valid env c ≡ ok tt) × (decide env db now c ≡ ok (r, db')))
execute-decided env db db' now c r n h =
    let (ready, h') = >>-eq-ok (valid env c) _ (sym (execute-once env db now c n) ∙ h) in
    elim (once-cases db db' _ _ _ (authority db c) (decide env db now c) r h') [
      | inl again ↦ inl again
      | inr done ↦ inr (ready, done)
    ]

-- A success is a replay, which changes nothing, or a new entry of the journal.
pub execute-cases :
    (env : Env) (db db' : Db) (now : ℕ) (c : Command) (r : Receipt)
    → is_release c ≡ false
    → execute env db now c ≡ ok (r, db')
    → ((db' ≡ db) × (check_idempotency db (op_of c) (kind c) (fingerprint env c) ≡ ok (some r)))
      ⊎ Commits db.journal db' (op_of c) (kind c) (fingerprint env c) r
execute-cases env db db' now c r n h = elim (execute-decided env db db' now c r n h) [
  | inl again ↦ inl again
  | inr (_, done) ↦ inr (decide-Commits env db db' now c r done)
]

Keeps-grown :
    (j : List JournalRow) (db' : Db) (op : String) (e : JournalRow)
    → e.op_id ≡ op
    → find_entry op j ≡ none
    → db'.journal ≡ e ∷ j
    → Keeps j db'
unfolding find_entry
Keeps-grown j db' op e same fresh grown o e' found = rw grown (ground (arith, eq_iff e.op_id o))

insert_entry-find :
    (db db' : Db) (x e : JournalRow) (o : String)
    → insert_entry x db ≡ ok db'
    → find_entry o db.journal ≡ some e
    → find_entry o db'.journal ≡ some e
unfolding insert_entry
insert_entry-find db db' x e o h found =
    Keeps-grown db.journal db' x.op_id x refl (ground arith) (ground arith) o e found

start_turn-journal :
    (db : Db) (gen : ℕ) (session key : String) (s : SessionRow) (version : ℕ) (sanitized : String)
    (p : PendingRow)
    → (start_turn db gen session key s version sanitized p).journal ≡ db.journal
unfolding start_turn
start_turn-journal db gen session key s version sanitized p = refl

release_new-find :
    (env : Env) (db db' : Db) (now gen : ℕ) (op lease fp session : String) (expected : ℕ)
    (key : String) (r : ReleaseResult) (o : String) (e : JournalRow)
    → release_new env db now gen op lease fp session expected key ≡ ok (r, db')
    → find_entry o db.journal ≡ some e
    → find_entry o db'.journal ≡ some e
unfolding release_new
release_new-find env db db' now gen op lease fp session expected key r o e h found =
    grind (arith, insert_entry-find, start_turn-journal)

abbrev replayed_result : ReleaseReceipt → ReleaseResult
replayed_result x = record { receipt = x; disposition = Disposition.replayed }

-- A release that succeeds is a replay, which changes nothing, or a new release.
pub release_turn-cases :
    (env : Env) (db db' : Db) (now : ℕ) (op lease session : String) (expected : ℕ) (key : String)
    (r : ReleaseResult)
    → release_turn env db now op lease session expected key ≡ ok (r, db')
    → ((db' ≡ db)
        × (r.disposition ≡ Disposition.replayed)
        × (stored_release db op (release_print env session key) ≡ ok (some r.receipt)))
      ⊎ ((gen : ℕ) × (authorize_session_controller db session lease true ≡ ok gen)
          × (stored_release db op (release_print env session key) ≡ ok none)
          × (release_new env db now gen op lease
                (release_print env session key)
                session
                expected
                key
              ≡ ok (r, db')))
unfolding release_turn
release_turn-cases env db db' now op lease session expected key r h =
    let (_, h1) = >>-eq-ok (check_expected expected) _ h in
    let (_, h2) = >>-eq-ok (fail_if (is_blank key) StoreError.empty_turn_key) _ h1 in
    let (gen, authorized, h3) =
      >>=-eq-ok (authorize_session_controller db session lease true) _ h2 in
    let (found, stored, h4) =
      >>=-eq-ok (stored_release db op (release_print env session key)) _ h3 in
    settled gen authorized found stored h4
  where
    settled :
        (gen : ℕ)
        → authorize_session_controller db session lease true ≡ ok gen
        → (found : Option ReleaseReceipt)
        → stored_release db op (release_print env session key) ≡ ok found
        → elim found [
          | some x ↦ ok (replayed_result x, db)
          | none ↦
              release_new env db now gen op lease
                (release_print env session key)
                session
                expected
                key
        ]
          ≡ ok (r, db')
        → ((db' ≡ db)
            × (r.disposition ≡ Disposition.replayed)
            × (stored_release db op (release_print env session key) ≡ ok (some r.receipt)))
          ⊎ ((g : ℕ) × (authorize_session_controller db session lease true ≡ ok g)
              × (stored_release db op (release_print env session key) ≡ ok none)
              × (release_new env db now g op lease
                    (release_print env session key)
                    session
                    expected
                    key
                  ≡ ok (r, db')))
    settled gen authorized none stored h = inr (gen, authorized, stored, h)
    settled gen authorized (some x) stored h =
        let e : replayed_result x ≡ r = cc in
        inl (cc, ap (λ y. y.disposition) (sym e), stored ∙ ap (λ y. ok (some y.receipt)) e)

execute-Keeps :
    (env : Env) (db db' : Db) (now : ℕ) (c : Command) (r : Receipt)
    → execute env db now c ≡ ok (r, db')
    → Keeps db.journal db'
unfolding execute
execute-Keeps env db db' now (releases op lease session expected key) r h o e found =
    elim (Result-cases (release_turn env db now op lease session expected key)) [
      | inr (x, refused) ↦ cc
      | inl ((x, db''), done) ↦
          let same : db'' ≡ db' = cc in
          elim (release_turn-cases env db db'' now op lease session expected key x done) [
            | inl (kept, _, _) ↦ rw (sym same, kept) found
            | inr (gen, _, _, new) ↦ rw (sym same) (
                release_new-find env db db'' now gen op lease _ session expected key x o e new
                  found)
          ]
    ]
execute-Keeps env db db' now c r h o e found = elim (execute-cases env db db' now c r refl h) [
  | inl (same, _) ↦ rw same found
  | inr new ↦
      let (x, named, grown) = new.grown in
      Keeps-grown db.journal db' (op_of c) x named new.fresh grown o e found
]

step-Keeps : (env : Env) (db : Db) (c : ℕ × Command) → Keeps db.journal (step env db c)
unfolding step
step-Keeps env db (now, c) = elim (Result-cases (execute env db now c)) [
  | inl ((r, db'), e) ↦ rw (e, step) (λ o x found. execute-Keeps env db db' now c r e o x found)
  | inr (_, e) ↦ rw (e, step) (λ o x found. found)
]

-- No history loses an entry of the journal.
pub run-Keeps : (env : Env) (db : Db) (cs : List (ℕ × Command)) → Keeps db.journal (run env db cs)
unfolding run
run-Keeps env db [] o e found = found
run-Keeps env db (c ∷ cs) o e found =
    run-Keeps env (step env db c) cs o e (step-Keeps env db c o e found)
