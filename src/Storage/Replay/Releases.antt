-- ===== src/Storage/Replay/Releases.antt =====
-- A committed release of internal/storage stays answered: `ReleaseTurn` and `FindCommittedRelease`.
use agent_council.Common.{
  ℕ, String, ◌≡◌, refl, inl, inr, true, false, List, some, text_eq_refl, is_blank, is_blank-empty,
  Option-cases, arith, eq_iff, ok,
}
use agent_council.Storage.Rows.{JournalRow, Db, Env}
use agent_council.Storage.Journal.{find_entry, insert_entry}
use agent_council.Storage.Authority.{authorize_session_controller}
use agent_council.Storage.Commands.{check_expected}
use agent_council.Storage.Release.{
  ReleaseReceipt, ReleaseResult, release_receipt, Disposition, release_row, stored_release,
  release_new, release_turn,
}
use agent_council.Storage.Step.{Command, run}
use agent_council.Storage.Replay.Growth.{release_print, release_turn-cases, run-Keeps}

insert_entry-found :
    (db db' : Db) (x : JournalRow)
    → insert_entry x db ≡ ok db'
    → find_entry x.op_id db'.journal ≡ some x
unfolding insert_entry find_entry
insert_entry-found db db' x h = ground (arith, eq_iff x.op_id x.op_id)

insert_entry-stored :
    (mid db' : Db) (now : ℕ) (op fp run_id session key lease : String) (version : ℕ)
    (sanitized : String)
    → insert_entry
        (release_row op fp run_id session key lease
          (release_receipt now op session key version sanitized))
        mid
      ≡ ok db'
    → is_blank key ≡ false
    → stored_release db' op fp ≡ ok (some (release_receipt now op session key version sanitized))
unfolding stored_release
insert_entry-stored mid db' now op fp run_id session key lease version sanitized h named =
    let found : find_entry op db'.journal
        ≡ some (
            release_row op fp run_id session key lease
              (release_receipt now op session key version sanitized)) =
      insert_entry-found mid db'
        (release_row op fp run_id session key lease
          (release_receipt now op session key version sanitized))
        h in
    rw (found, stored_release, is_blank-empty key named, text_eq_refl fp) refl

release_new-stored :
    (env : Env) (db db' : Db) (now gen : ℕ) (op lease fp session : String) (expected : ℕ)
    (key : String) (r : ReleaseResult)
    → is_blank key ≡ false
    → release_new env db now gen op lease fp session expected key ≡ ok (r, db')
    → stored_release db' op fp ≡ ok (some r.receipt)
unfolding release_new
release_new-stored env db db' now gen op lease fp session expected key r named h =
    grind (arith, insert_entry-stored)

stored-kept :
    (db db' : Db) (op fp : String) (r : ReleaseReceipt)
    → ((o : String) (e : JournalRow)
        → find_entry o db.journal ≡ some e
        → find_entry o db'.journal ≡ some e)
    → stored_release db op fp ≡ ok (some r)
    → stored_release db' op fp ≡ ok (some r)
unfolding stored_release
stored-kept db db' op fp r keeps h = elim (Option-cases (find_entry op db.journal)) [
  | inl none_found ↦ ground arith
  | inr (e, found) ↦ ground (arith, keeps op e found)
]

-- A release that has been answered is answered alike ever after: whatever commands came between,
-- `ReleaseTurn` under the same id for the same session and key, with an expected version that is
-- positive, returns the first receipt, as a replay, and changes nothing, as long as its caller
-- still has the authority.
pub release_replays :
    (env : Env) (db db' : Db) (now later : ℕ) (op lease lease' session : String)
    (expected expected' : ℕ) (key : String) (r : ReleaseResult) (cs : List (ℕ × Command)) (gen : ℕ)
    → release_turn env db now op lease session expected key ≡ ok (r, db')
    → check_expected expected' ≡ ok tt
    → authorize_session_controller (run env db' cs) session lease' true ≡ ok gen
    → release_turn env (run env db' cs) later op lease' session expected' key
      ≡ ok (record { receipt = r.receipt; disposition = Disposition.replayed }, run env db' cs)
unfolding release_turn
release_replays env db db' now later op lease lease' session expected expected' key r cs gen h
      positive authorized =
    let named : is_blank key ≡ false = ground arith in
    let stored : stored_release db' op (release_print env session key) ≡ ok (some r.receipt) =
      elim (release_turn-cases env db db' now op lease session expected key r h) [
        | inl (same, _, found) ↦ rw same found
        | inr (g, _, _, new) ↦
            release_new-stored env db db' now g op lease _ session expected key r named new
      ] in
    let kept = stored-kept db' (run env db' cs) op _ r.receipt (run-Keeps env db' cs) stored in
    rw (positive, named, authorized, kept) refl
