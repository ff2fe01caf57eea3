-- ===== src/Storage/Attempts/Agy.antt =====
-- internal/storage/agy_state.go: the attempts of agy turns and their launches. An int of Go is a
-- number of the model where the code only compares it.
pub mod Ledger
pub mod Shared
use agent_council.Common.{
  ℕ, suc, ◌+◌, ltb, ◌==◌, String, Bool, true, false, not, ◌&&◌, ◌||◌, text_eq, is_blank,
  if◌then◌else◌, Option, none, some, List, [], ◌∷◌, ◌++◌, Result, ok, err, ◌>>=◌, ◌>>◌, fail_if,
  or_fail,
}
use agent_council.Common.Int.{ℤ}
use agent_council.Storage.Attempts.Tables.{
  LedgerError, Observed, is_uncertain, is_missing, LaunchState, is_started, update_where, any_row,
  first_row,
}

pub record AgyExeIdentity : Type 0 where
  pub dev_ino : String
  pub digest : String

pub record AgyVerification : Type 0 where
  pub executed : List String
  pub missing_required : List String
  pub denied : List String
  pub ambiguous : List String
  pub unattributed : List String
  pub unmapped : List String
  pub incomplete : Bool

pub record AgyTurnAttempt : Type 0 where
  pub attempt_id : String
  pub session_id : String
  pub turn_key : String
  pub native_step_index : Option ℕ
  pub prompt_digest : String
  pub launch_count : ℕ
  pub accepted : Bool
  pub terminal : Bool
  pub result_payload : Option String
  pub result_usage : Option String
  pub required_tools : List String
  pub verification : Option AgyVerification
  pub observed_status : Observed
  pub uncertainty_disposition : Option String
  pub orphan_conversation_id : Option String
  pub transition_version : ℕ

pub record AgyLaunch : Type 0 where
  pub attempt_id : String
  pub reservation_seq : ℕ
  pub state : LaunchState
  pub executor_identity : String
  pub stdin_transmitted : Bool
  pub exit_code : Option ℤ
  pub exe : Option AgyExeIdentity

pub record AgyLedger : Type 0 where
  pub attempts : List AgyTurnAttempt
  pub launches : List AgyLaunch

abbrev of_attempt : String → AgyTurnAttempt → Bool
of_attempt id a = text_eq a.attempt_id id

abbrev bumped : AgyTurnAttempt → AgyTurnAttempt
bumped a = record a { transition_version = suc a.transition_version }

abbrev same_key : AgyTurnAttempt → AgyTurnAttempt → Bool
same_key a b =
    text_eq a.session_id b.session_id
    && text_eq a.turn_key b.turn_key
    && text_eq a.attempt_id b.attempt_id

-- The columns that the INSERT writes; the others have their defaults.
abbrev fresh_attempt : AgyTurnAttempt → AgyTurnAttempt
fresh_attempt a = record {
  attempt_id = a.attempt_id;
  session_id = a.session_id;
  turn_key = a.turn_key;
  native_step_index = none;
  prompt_digest = a.prompt_digest;
  launch_count = 0;
  accepted = false;
  terminal = false;
  result_payload = none;
  result_usage = none;
  required_tools = a.required_tools;
  verification = none;
  observed_status = Observed.uncertain;
  uncertainty_disposition = none;
  orphan_conversation_id = none;
  transition_version = 1;
}

unfoldable pub insert_agy_turn_attempt : AgyTurnAttempt → AgyLedger → Result LedgerError AgyLedger
insert_agy_turn_attempt a l = do
  fail_if (any_row (same_key a) l.attempts) LedgerError.constraint_failed
  ok (record l { attempts = l.attempts ++ (fresh_attempt a ∷ []) })

abbrev launches_of : String → AgyLaunch → Bool
launches_of id r = text_eq r.attempt_id id

-- `MAX(reservation_seq)`, and 0 where there is none.
max_seq : String → List AgyLaunch → ℕ
max_seq id [] = 0
max_seq id (r ∷ rows) =
    let rest = max_seq id rows in
    if launches_of id r && ltb rest r.reservation_seq then r.reservation_seq else rest

-- The CHECK of the schema on `launch_count`.
abbrev over_launched : AgyTurnAttempt → Bool
over_launched a = ltb 1 a.launch_count

abbrev launched_once : AgyTurnAttempt → AgyTurnAttempt
launched_once a = bumped (record a { launch_count = suc a.launch_count })

unfoldable pub reserve_agy_launch :
    (attempt_id executor : String) → AgyLedger → Result LedgerError (ℕ × AgyLedger)
unfolding max_seq
reserve_agy_launch attempt_id executor l = do
  a ← or_fail (first_row (of_attempt attempt_id) l.attempts) LedgerError.attempt_not_found
  fail_if (not (a.launch_count == 0)) LedgerError.launch_refused
  let seq = suc (max_seq attempt_id l.launches)
  let attempts = update_where (of_attempt attempt_id) launched_once l.attempts
  fail_if (any_row over_launched attempts) LedgerError.constraint_failed
  ok (
    seq,
    record {
      attempts = attempts;
      launches =
          l.launches
          ++ (record {
            attempt_id = attempt_id;
            reservation_seq = seq;
            state = LaunchState.reserved;
            executor_identity = executor;
            stdin_transmitted = false;
            exit_code = none;
            exe = none;
          }
              ∷ []);
    },
  )

-- `InsertAgyTurnAttemptAndReserveLaunch`, one transaction.
unfoldable pub insert_and_reserve :
    AgyTurnAttempt → String → AgyLedger → Result LedgerError (ℕ × AgyLedger)
insert_and_reserve a executor l = do
  l' ← insert_agy_turn_attempt a l
  reserve_agy_launch a.attempt_id executor l'

-- The states that `RecordAgyLaunchState` takes.
pub data LaunchReport : Type 0 where
  started : Option AgyExeIdentity → LaunchReport
  start_failed : LaunchReport
  dead : Option ℤ → LaunchReport
  other : String → LaunchReport

abbrev launch_at : String → ℕ → AgyLaunch → Bool
launch_at id seq r = text_eq r.attempt_id id && (r.reservation_seq == seq)

abbrev still_uncertain : String → AgyTurnAttempt → Bool
still_uncertain id a = of_attempt id a && is_uncertain a.observed_status

unfoldable pub record_agy_launch_state :
    String → ℕ → LaunchReport → AgyLedger → Result LedgerError AgyLedger
record_agy_launch_state id seq (LaunchReport.started exe) l = ok (record l {
  launches =
      update_where (launch_at id seq) (λ r. record r { state = LaunchState.started; exe = exe })
        l.launches;
})
record_agy_launch_state id seq LaunchReport.start_failed l = ok (record {
  launches =
      update_where (launch_at id seq) (λ r. record r { state = LaunchState.start_failed })
        l.launches;
  attempts =
      update_where (still_uncertain id) (λ a. record a { observed_status = Observed.missing })
        l.attempts;
})
record_agy_launch_state id seq (LaunchReport.dead code) l = ok (record l {
  launches =
      update_where (launch_at id seq) (λ r. record r { state = LaunchState.dead; exit_code = code })
        l.launches;
})
record_agy_launch_state id seq (LaunchReport.other s) l = err LedgerError.unknown_state

abbrev awaits_stdin : String → ℕ → AgyLaunch → Bool
awaits_stdin id seq r = launch_at id seq r && is_started r.state && not r.stdin_transmitted

unfoldable pub record_agy_stdin_transmitted : String → ℕ → AgyLedger → Result LedgerError AgyLedger
record_agy_stdin_transmitted id seq l = do
  fail_if (not (any_row (awaits_stdin id seq) l.launches)) LedgerError.no_started_launch
  ok (record l {
    launches =
        update_where (awaits_stdin id seq) (λ r. record r { stdin_transmitted = true }) l.launches;
  })

abbrev unset {ℓ} : {A : Type ℓ} → Option A → Bool
unset none = true
unset (some a) = false

abbrev equals_step : Option ℕ → ℕ → Bool
equals_step none i = false
equals_step (some j) i = j == i

abbrev equals_text : Option String → String → Bool
equals_text none t = false
equals_text (some s) t = text_eq s t

abbrev awaits_step : String → AgyTurnAttempt → Bool
awaits_step id a = of_attempt id a && unset a.native_step_index

unfoldable pub record_agy_native_step_index : String → ℕ → AgyLedger → Result LedgerError AgyLedger
record_agy_native_step_index id index l =
    if any_row (awaits_step id) l.attempts
    then ok (record l {
      attempts =
          update_where (awaits_step id)
            (λ a. bumped (record a { native_step_index = some index; accepted = true })) l.attempts;
    })
    else do
      a ← or_fail (first_row (of_attempt id) l.attempts) LedgerError.attempt_not_found
      fail_if (not (equals_step a.native_step_index index)) LedgerError.step_conflict
      ok l

unfoldable pub record_agy_orphan_conversation :
    (attempt_id conversation : String) → AgyLedger → Result LedgerError AgyLedger
record_agy_orphan_conversation id conversation l = do
  fail_if (is_blank id) LedgerError.empty_attempt_id
  a ← or_fail (first_row (of_attempt id) l.attempts) LedgerError.attempt_not_found
  if unset a.orphan_conversation_id
      then ok (record l {
        attempts =
            update_where (of_attempt id)
              (λ r. bumped (record r { orphan_conversation_id = some conversation })) l.attempts;
      })
      else (do
        fail_if (not (equals_text a.orphan_conversation_id conversation))
            LedgerError.orphan_conflict
        ok l)

abbrev open_attempt : String → AgyTurnAttempt → Bool
open_attempt id a = of_attempt id a && not a.terminal && is_uncertain a.observed_status

unfoldable pub set_agy_attempt_observed_status :
    String → Observed → AgyLedger → Result LedgerError AgyLedger
set_agy_attempt_observed_status id status l = do
  fail_if (not (is_missing status)) LedgerError.invalid_status
  if any_row (open_attempt id) l.attempts
      then ok (record l {
        attempts =
            update_where (open_attempt id) (λ a. bumped (record a { observed_status = status }))
              l.attempts;
      })
      else (do
        a ← or_fail (first_row (of_attempt id) l.attempts) LedgerError.attempt_not_found
        fail_if (a.terminal || not (is_missing a.observed_status)) LedgerError.not_uncertain
        ok l)

abbrev pub is_ended : Observed → Bool
is_ended Observed.completed = true
is_ended Observed.failed = true
is_ended Observed.cancelled = true
is_ended _ = false

unfoldable pub set_agy_attempt_terminal :
    String
    → Observed
    → (payload usage : String) → AgyVerification
    → AgyLedger
    → Result LedgerError AgyLedger
set_agy_attempt_terminal id status payload usage verification l = do
  fail_if (not (is_ended status)) LedgerError.invalid_status
  fail_if (not (any_row (open_attempt id) l.attempts)) LedgerError.already_terminal
  ok (record l {
    attempts =
        update_where (open_attempt id)
          (λ a. bumped (record a {
            terminal = true;
            result_payload = some payload;
            result_usage = some usage;
            observed_status = status;
            verification = some verification;
          }))
          l.attempts;
  })

-- The operations on the ledger.
pub data LedgerCall : Type 0 where
  inserts : AgyTurnAttempt → LedgerCall
  reserves : (attempt_id executor : String) → LedgerCall
  inserts_reserved : AgyTurnAttempt → (executor : String) → LedgerCall
  reports : String → ℕ → LaunchReport → LedgerCall
  transmits : String → ℕ → LedgerCall
  binds_step : String → ℕ → LedgerCall
  notes_orphan : (attempt_id conversation : String) → LedgerCall
  observes : String → Observed → LedgerCall
  ends : String → Observed → (payload usage : String) → AgyVerification → LedgerCall

abbrev after : AgyLedger → Result LedgerError AgyLedger → AgyLedger
after l (ok l') = l'
after l (err e) = l

abbrev after_seq : AgyLedger → Result LedgerError (ℕ × AgyLedger) → AgyLedger
after_seq l (ok (seq, l')) = l'
after_seq l (err e) = l

-- A call that fails changes nothing.
unfoldable pub step : LedgerCall → AgyLedger → AgyLedger
step (inserts a) l = after l (insert_agy_turn_attempt a l)
step (reserves id executor) l = after_seq l (reserve_agy_launch id executor l)
step (inserts_reserved a executor) l = after_seq l (insert_and_reserve a executor l)
step (reports id seq report) l = after l (record_agy_launch_state id seq report l)
step (transmits id seq) l = after l (record_agy_stdin_transmitted id seq l)
step (binds_step id index) l = after l (record_agy_native_step_index id index l)
step (notes_orphan id conversation) l = after l (record_agy_orphan_conversation id conversation l)
step (observes id status) l = after l (set_agy_attempt_observed_status id status l)
step (ends id status payload usage v) l =
    after l (set_agy_attempt_terminal id status payload usage v l)

unfoldable pub run : List LedgerCall → AgyLedger → AgyLedger
unfolding step
run [] l = l
run (c ∷ cs) l = run cs (step c l)

abbrev pub empty_ledger : AgyLedger
empty_ledger = record { attempts = []; launches = [] }
