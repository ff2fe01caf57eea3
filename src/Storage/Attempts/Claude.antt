-- ===== src/Storage/Attempts/Claude.antt =====
-- internal/storage/claude_state.go: the attempts of Claude turns and their launches. Columns of the
-- baseline, of the disposition and of time are left out: no operation of the model reads them.
pub mod Deaths
pub mod Redispatch
use agent_council.Common.{
  ℕ, suc, ◌+◌, ◌-◌, ltb, leb, ◌==◌, String, Bool, true, false, not, ◌&&◌, ◌||◌, text_eq, is_blank,
  decimal, if◌then◌else◌, Option, none, some, List, [], ◌∷◌, ◌++◌, Result, ok, err, ◌>>=◌, ◌>>◌,
  fail_if, or_fail,
}
use agent_council.Common.Int.{ℤ, pos, negsuc}
use agent_council.Storage.Attempts.Tables.{
  LedgerError, LaunchState, is_started, update_where, any_row, first_row,
}

-- `observed_status` is a text that the schema does not constrain.
pub record ClaudeTurnAttempt : Type 0 where
  pub attempt_id : String
  pub session_id : String
  pub turn_key : String
  pub native_id : String
  pub prompt_digest : String
  pub transcript_protection : String
  pub protection_attestation_id : String
  pub launch_count : ℕ
  pub absence_redispatch_consumed : Bool
  pub absence_verified : String
  pub accepted : Bool
  pub terminal : Bool
  pub result_payload : Option String
  pub result_usage : Option String
  pub observed_status : String
  pub transition_version : ℕ

pub record ClaudeLaunch : Type 0 where
  pub attempt_id : String
  pub reservation_seq : ℕ
  pub state : LaunchState
  pub executor_identity : String
  pub stdin_transmitted : Bool
  pub exit_code : Option String

-- `attestations` holds the keys of `claude_protection_attestations`.
pub record ClaudeLedger : Type 0 where
  pub attempts : List ClaudeTurnAttempt
  pub launches : List ClaudeLaunch
  pub attestations : String → Bool

abbrev of_attempt : String → ClaudeTurnAttempt → Bool
of_attempt id a = text_eq a.attempt_id id

abbrev bumped : ClaudeTurnAttempt → ClaudeTurnAttempt
bumped a = record a { transition_version = suc a.transition_version }

abbrev same_key : ClaudeTurnAttempt → ClaudeTurnAttempt → Bool
same_key a b =
    text_eq a.session_id b.session_id
    && text_eq a.turn_key b.turn_key
    && text_eq a.attempt_id b.attempt_id

abbrev fresh_attempt : ClaudeTurnAttempt → ClaudeTurnAttempt
fresh_attempt a = record a {
  launch_count = 0;
  absence_redispatch_consumed = false;
  absence_verified = "";
  accepted = false;
  terminal = false;
  result_payload = none;
  result_usage = none;
  observed_status = "uncertain";
  transition_version = 1;
}

unfoldable pub insert_claude_turn_attempt :
    ClaudeTurnAttempt → ClaudeLedger → Result LedgerError ClaudeLedger
insert_claude_turn_attempt a l = do
  fail_if (any_row (same_key a) l.attempts) LedgerError.constraint_failed
  ok (record l { attempts = l.attempts ++ (fresh_attempt a ∷ []) })

max_seq : String → List ClaudeLaunch → ℕ
max_seq id [] = 0
max_seq id (r ∷ rows) =
    let rest = max_seq id rows in
    if text_eq r.attempt_id id && ltb rest r.reservation_seq then r.reservation_seq else rest

abbrev ran : LaunchState → Bool
ran LaunchState.started = true
ran LaunchState.dead = true
ran _ = false

-- A launch of the attempt that has run: `priorDead >= 1`.
abbrev ran_before : String → ClaudeLaunch → Bool
ran_before id r = text_eq r.attempt_id id && ran r.state

-- What a second launch asks for.
redispatch : (String → Bool) → Bool → ClaudeTurnAttempt → Result LedgerError (Unit {0})
redispatch attestations prior_dead a = do
  fail_if (not ((a.launch_count == 1) && not a.absence_redispatch_consumed && prior_dead))
      LedgerError.launch_refused
  fail_if (not (text_eq a.transcript_protection "protected")) LedgerError.not_protected
  fail_if (is_blank a.protection_attestation_id) LedgerError.no_attestation
  fail_if (not (attestations a.protection_attestation_id)) LedgerError.no_attestation
  fail_if (not (text_eq a.absence_verified "verified")) LedgerError.absence_not_verified

abbrev consumed : Bool → ClaudeTurnAttempt → ClaudeTurnAttempt
consumed again a = record a { absence_redispatch_consumed = again || a.absence_redispatch_consumed }

-- The update of the redispatch, where there is one, and that of the launch count.
abbrev launched : Bool → ClaudeTurnAttempt → ClaudeTurnAttempt
launched again a = bumped (record (consumed again a) { launch_count = suc a.launch_count })

abbrev over_launched : ClaudeTurnAttempt → Bool
over_launched a = ltb 2 a.launch_count

unfoldable pub reserve_claude_launch :
    (attempt_id executor : String) → ClaudeLedger → Result LedgerError (ℕ × ClaudeLedger)
unfolding max_seq redispatch
reserve_claude_launch id executor l = do
  a ← or_fail (first_row (of_attempt id) l.attempts) LedgerError.attempt_not_found
  let again = not (a.launch_count == 0)
  if again then redispatch l.attestations (any_row (ran_before id) l.launches) a else ok tt
  let seq = suc (max_seq id l.launches)
  let attempts = update_where (of_attempt id) (launched again) l.attempts
  fail_if (any_row over_launched attempts) LedgerError.constraint_failed
  ok (
    seq,
    record l {
      attempts = attempts;
      launches =
          l.launches
          ++ (record {
            attempt_id = id;
            reservation_seq = seq;
            state = LaunchState.reserved;
            executor_identity = executor;
            stdin_transmitted = false;
            exit_code = none;
          }
              ∷ []);
    },
  )

pub data LaunchReport : Type 0 where
  started start_failed : LaunchReport
  dead : Option ℤ → LaunchReport
  other : String → LaunchReport

abbrev pub launch_at : String → ℕ → ClaudeLaunch → Bool
launch_at id seq r = text_eq r.attempt_id id && (r.reservation_seq == seq)

abbrev unstarted : String → ClaudeTurnAttempt → Bool
unstarted id a = of_attempt id a && ltb 0 a.launch_count && text_eq a.observed_status "uncertain"

-- A nullable int against an integer column.
abbrev is_seq : Option ℤ → ℕ → Bool
is_seq (some (pos n)) seq = n == seq
is_seq _ seq = false

-- The statement of a death binds `now, attemptID, seq, exitCode` to the columns known_dead_at,
-- exit_code, attempt_id and reservation_seq, in this order.
abbrev bound_dead : ℕ → Option ℤ → ClaudeLaunch → Bool
bound_dead seq code r = text_eq r.attempt_id (decimal seq) && is_seq code r.reservation_seq

unfoldable pub record_claude_launch_state :
    String → ℕ → LaunchReport → ClaudeLedger → Result LedgerError ClaudeLedger
record_claude_launch_state id seq LaunchReport.started l = ok (record l {
  launches =
      update_where (launch_at id seq) (λ r. record r { state = LaunchState.started }) l.launches;
})
record_claude_launch_state id seq LaunchReport.start_failed l = ok (record l {
  launches =
      update_where (launch_at id seq) (λ r. record r { state = LaunchState.start_failed })
        l.launches;
  attempts =
      update_where (unstarted id)
        (λ a. record a { launch_count = a.launch_count - 1; observed_status = "missing" })
        l.attempts;
})
record_claude_launch_state id seq (LaunchReport.dead code) l = ok (record l {
  launches =
      update_where (bound_dead seq code)
        (λ r. record r { state = LaunchState.dead; exit_code = some id }) l.launches;
})
record_claude_launch_state id seq (LaunchReport.other s) l = err LedgerError.unknown_state

abbrev awaits_stdin : String → ℕ → ClaudeLaunch → Bool
awaits_stdin id seq r = launch_at id seq r && is_started r.state && not r.stdin_transmitted

unfoldable pub record_claude_stdin_transmitted :
    String → ℕ → ClaudeLedger → Result LedgerError ClaudeLedger
record_claude_stdin_transmitted id seq l = do
  fail_if (not (any_row (awaits_stdin id seq) l.launches)) LedgerError.no_started_launch
  ok (record l {
    launches =
        update_where (awaits_stdin id seq) (λ r. record r { stdin_transmitted = true }) l.launches;
  })

abbrev absence_open : (String → Bool) → String → ClaudeTurnAttempt → Bool
absence_open attestations id a =
    of_attempt id a
    && text_eq a.transcript_protection "protected"
    && not (text_eq a.protection_attestation_id "")
    && text_eq a.absence_verified ""
    && attestations a.protection_attestation_id

unfoldable pub record_claude_absence_verified :
    String → ClaudeLedger → Result LedgerError ClaudeLedger
record_claude_absence_verified id l = do
  fail_if (not (any_row (absence_open l.attestations id) l.attempts)) LedgerError.absence_refused
  ok (record l {
    attempts =
        update_where (absence_open l.attestations id)
          (λ a. bumped (record a { absence_verified = "verified" })) l.attempts;
  })

unfoldable pub mark_claude_attempt_accepted : String → ClaudeLedger → ClaudeLedger
mark_claude_attempt_accepted id l = record l {
  attempts = update_where (of_attempt id) (λ a. bumped (record a { accepted = true })) l.attempts;
}

unfoldable pub set_claude_attempt_observed_status :
    (id status : String) → ClaudeLedger → ClaudeLedger
set_claude_attempt_observed_status id status l = record l {
  attempts =
      update_where (of_attempt id) (λ a. bumped (record a { observed_status = status })) l.attempts;
}

abbrev open_attempt : String → ClaudeTurnAttempt → Bool
open_attempt id a = of_attempt id a && not a.terminal

unfoldable pub set_claude_attempt_terminal :
    (id status payload usage : String) → ClaudeLedger → Result LedgerError ClaudeLedger
set_claude_attempt_terminal id status payload usage l = do
  fail_if (not (text_eq status "completed" || text_eq status "failed")) LedgerError.invalid_status
  fail_if (not (any_row (open_attempt id) l.attempts)) LedgerError.already_terminal
  ok (record l {
    attempts =
        update_where (open_attempt id)
          (λ a. bumped (record a {
            terminal = true;
            result_payload = some payload;
            result_usage = some usage;
            observed_status = status;
          }))
          l.attempts;
  })

pub data LedgerCall : Type 0 where
  inserts : ClaudeTurnAttempt → LedgerCall
  reserves : (attempt_id executor : String) → LedgerCall
  reports : String → ℕ → LaunchReport → LedgerCall
  transmits : String → ℕ → LedgerCall
  verifies_absence accepts : String → LedgerCall
  observes : (id status : String) → LedgerCall
  ends : (id status payload usage : String) → LedgerCall
  attests : String → LedgerCall

abbrev after : ClaudeLedger → Result LedgerError ClaudeLedger → ClaudeLedger
after l (ok l') = l'
after l (err e) = l

abbrev after_seq : ClaudeLedger → Result LedgerError (ℕ × ClaudeLedger) → ClaudeLedger
after_seq l (ok (seq, l')) = l'
after_seq l (err e) = l

-- An attestation is inserted by claude_attestation.go, and stays.
abbrev attest : String → ClaudeLedger → ClaudeLedger
attest id l = record l { attestations = λ j. text_eq id j || l.attestations j }

-- A call that fails changes nothing.
unfoldable pub step : LedgerCall → ClaudeLedger → ClaudeLedger
step (inserts a) l = after l (insert_claude_turn_attempt a l)
step (reserves id executor) l = after_seq l (reserve_claude_launch id executor l)
step (reports id seq report) l = after l (record_claude_launch_state id seq report l)
step (transmits id seq) l = after l (record_claude_stdin_transmitted id seq l)
step (verifies_absence id) l = after l (record_claude_absence_verified id l)
step (accepts id) l = mark_claude_attempt_accepted id l
step (observes id status) l = set_claude_attempt_observed_status id status l
step (ends id status payload usage) l =
    after l (set_claude_attempt_terminal id status payload usage l)
step (attests id) l = attest id l

unfoldable pub run : List LedgerCall → ClaudeLedger → ClaudeLedger
unfolding step
run [] l = l
run (c ∷ cs) l = run cs (step c l)

abbrev pub empty_ledger : ClaudeLedger
empty_ledger = record { attempts = []; launches = []; attestations = λ id. false }
