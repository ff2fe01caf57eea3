-- ===== src/Storage/Replay/Laws.antt =====
-- A committed command of internal/storage stays answered, in every later state of the tables.
use agent_council.Common.{
  ℕ, String, ◌≡◌, refl, sym, ◌∙◌, ◌≢◌, ◌⊎◌, inl, inr, false, List, some, Option-cases, arith,
  eq_iff, Result, ok, err, >>-eq-ok,
}
use agent_council.Storage.Rows.{StoreError, Receipt, Db, Env, Outcome}
use agent_council.Storage.Journal.{find_entry, check_idempotency}
use agent_council.Storage.Commands.{once}
use agent_council.Storage.Step.{Command, execute, run}
use agent_council.Storage.Replay.Requests.{is_release, op_of, kind, fingerprint, authority, valid}
use agent_council.Storage.Replay.Shape.{decide, execute-once}
use agent_council.Storage.Replay.Growth.{Keeps, execute-cases, run-Keeps}

check-Keeps :
    (db db' : Db) (op cmd fp : String) (r : Receipt)
    → Keeps db.journal db'
    → check_idempotency db op cmd fp ≡ ok (some r)
    → check_idempotency db' op cmd fp ≡ ok (some r)
unfolding check_idempotency
check-Keeps db db' op cmd fp r keeps h = elim (Option-cases (find_entry op db.journal)) [
  | inl none_found ↦ ground arith
  | inr (e, found) ↦ ground (arith, keeps op e found)
]

once-again :
    (db : Db) (op cmd fp : String) (a : Result StoreError ℕ) (body : Outcome Receipt) (r : Receipt)
    (gen : ℕ)
    → a ≡ ok gen
    → check_idempotency db op cmd fp ≡ ok (some r)
    → once db op cmd fp a (λ g. body) ≡ ok (r, db)
unfolding once
once-again db op cmd fp a body r gen authorized answered = rw (authorized, answered) refl

answered_after :
    (env : Env) (db db' : Db) (now : ℕ) (c : Command) (r : Receipt)
    → is_release c ≡ false
    → execute env db now c ≡ ok (r, db')
    → check_idempotency db' (op_of c) (kind c) (fingerprint env c) ≡ ok (some r)
answered_after env db db' now c r n h = elim (execute-cases env db db' now c r n h) [
  | inl (same, again) ↦ rw same again
  | inr new ↦ new.answered
]

-- A command, not a release, that has committed is answered with its first receipt ever after:
-- whatever commands came between, the same command returns that receipt and changes nothing, as
-- long as its caller has the authority in the later tables.
pub committed_replays :
    (env : Env) (db db' : Db) (now later : ℕ) (c : Command) (r : Receipt) (cs : List (ℕ × Command))
    (gen : ℕ)
    → is_release c ≡ false
    → execute env db now c ≡ ok (r, db')
    → authority (run env db' cs) c ≡ ok gen
    → execute env (run env db' cs) later c ≡ ok (r, run env db' cs)
committed_replays env db db' now later c r cs gen n h authorized =
    let (checked, _) = >>-eq-ok (valid env c) _ (sym (execute-once env db now c n) ∙ h) in
    let answered : check_idempotency db' (op_of c) (kind c) (fingerprint env c) ≡ ok (some r) =
      answered_after env db db' now c r n h in
    let kept = check-Keeps db' (run env db' cs) _ _ _ r (run-Keeps env db' cs) answered in
    execute-once env (run env db' cs) later c n
    ∙ rw checked (
        once-again (run env db' cs) _ _ _ (authority (run env db' cs) c)
          (decide env (run env db' cs) later c) r gen authorized kept)

check-conflict :
    (db : Db) (op cmd fp cmd' fp' : String) (r : Receipt)
    → check_idempotency db op cmd fp ≡ ok (some r)
    → (cmd' ≢ cmd) ⊎ (fp' ≢ fp)
    → check_idempotency db op cmd' fp' ≡ err StoreError.idempotency_conflict
unfolding check_idempotency
check-conflict db op cmd fp cmd' fp' r h differs = elim (Option-cases (find_entry op db.journal)) [
  | inl none_found ↦ ground arith
  | inr (e, found) ↦ ground (
    arith,
    eq_iff e.command_type cmd,
    eq_iff e.command_type cmd',
    eq_iff e.command_fingerprint fp,
    eq_iff e.command_fingerprint fp',
  )
]

once-refused :
    (db : Db) (op cmd fp : String) (a : Result StoreError ℕ) (body : Outcome Receipt) (gen : ℕ)
    (x : StoreError)
    → a ≡ ok gen
    → check_idempotency db op cmd fp ≡ err x
    → once db op cmd fp a (λ g. body) ≡ err x
unfolding once
once-refused db op cmd fp a body gen x authorized refused = rw (authorized, refused) refl

-- An id is spent by its first command: after `c` has committed under an id, another command `d`
-- under the same id, of another kind or with another fingerprint, is answered with an idempotency
-- conflict in every later state. Neither command is a release, the input of `d` is valid, and its
-- caller has the authority in the later tables.
pub reused_id_refused :
    (env : Env) (db db' : Db) (now later : ℕ) (c d : Command) (r : Receipt)
    (cs : List (ℕ × Command)) (gen : ℕ)
    → is_release c ≡ false
    → is_release d ≡ false
    → op_of d ≡ op_of c
    → (kind d ≢ kind c) ⊎ (fingerprint env d ≢ fingerprint env c)
    → execute env db now c ≡ ok (r, db')
    → valid env d ≡ ok tt
    → authority (run env db' cs) d ≡ ok gen
    → execute env (run env db' cs) later d ≡ err StoreError.idempotency_conflict
reused_id_refused env db db' now later c d r cs gen n m same_id differs h ready authorized =
    let answered : check_idempotency db' (op_of c) (kind c) (fingerprint env c) ≡ ok (some r) =
      answered_after env db db' now c r n h in
    let kept = check-Keeps db' (run env db' cs) _ _ _ r (run-Keeps env db' cs) answered in
    let refused =
      check-conflict (run env db' cs) (op_of c) _ _ (kind d) (fingerprint env d) r kept differs in
    execute-once env (run env db' cs) later d m
    ∙ rw (ready, same_id)
        (once-refused (run env db' cs) (op_of c) (kind d) (fingerprint env d)
          (authority (run env db' cs) d) (decide env (run env db' cs) later d) gen
          StoreError.idempotency_conflict authorized refused)
