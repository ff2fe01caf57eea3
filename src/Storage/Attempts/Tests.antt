-- ===== src/Storage/Attempts/Tests.antt =====
-- Runs of the ledgers of internal/storage/agy_state.go and claude_state.go on concrete attempts.
use agent_council.Common.{
  ℕ, ◌≡◌, refl, ◌≢◌, String, true, false, All, none, some, List, [], ◌∷◌, ok, err, decimal, eq_iff,
  map, is_blank,
}
use agent_council.Common.Int.{pos}
use agent_council.Storage.Release.{attempt_name}
use agent_council.Storage.Attempts.Tables.{
  LedgerError, Observed, update_where, any_row, first_row, Keeps,
}
use agent_council.Storage.Attempts.Agy
use agent_council.Storage.Attempts.Agy.{
  AgyTurnAttempt, AgyVerification, AgyLedger, insert_agy_turn_attempt, reserve_agy_launch,
  insert_and_reserve, set_agy_attempt_terminal, record_agy_native_step_index,
}
use agent_council.Storage.Attempts.Agy.Ledger.{Kept, Sound, attempts_stay, columns_agree}
use agent_council.Storage.Attempts.Agy.Shared.{second_session_refused}
use agent_council.Storage.Attempts.Claude
use agent_council.Storage.Attempts.Claude.{
  ClaudeTurnAttempt, ClaudeLedger, LaunchReport, launch_at, record_claude_launch_state,
  insert_claude_turn_attempt, reserve_claude_launch, record_claude_absence_verified,
}
use agent_council.Storage.Attempts.Claude.Deaths.{death_is_lost}

-- The first release of a turn "t" of any session makes its attempt id from version 3.
abbrev agy_attempt : String → AgyTurnAttempt
agy_attempt session = record {
  attempt_id = attempt_name 3 "t";
  session_id = session;
  turn_key = "t";
  native_step_index = none;
  prompt_digest = "d";
  launch_count = 0;
  accepted = false;
  terminal = false;
  result_payload = none;
  result_usage = none;
  required_tools = [];
  verification = none;
  observed_status = Observed.uncertain;
  uncertainty_disposition = none;
  orphan_conversation_id = none;
  transition_version = 1;
}

abbrev verified : AgyVerification
verified = record {
  executed = [];
  missing_required = [];
  denied = [];
  ambiguous = [];
  unattributed = [];
  unmapped = [];
  incomplete = false;
}

abbrev agy_calls : List Agy.LedgerCall
agy_calls =
    Agy.inserts_reserved (agy_attempt "s-1") "agy"
    ∷ Agy.binds_step (attempt_name 3 "t") 4
    ∷ Agy.ends (attempt_name 3 "t") Observed.completed "done" "{}" verified
    ∷ Agy.observes (attempt_name 3 "t") Observed.missing
    ∷ []

abbrev launched : AgyLedger
launched = Agy.run (Agy.inserts_reserved (agy_attempt "s-1") "agy" ∷ []) Agy.empty_ledger

first_launch : insert_and_reserve (agy_attempt "s-1") "agy" Agy.empty_ledger ≡ ok (1, launched)
unfolding insert_and_reserve Agy.run insert_agy_turn_attempt reserve_agy_launch any_row first_row
    update_where decimal
first_launch = refl

attempts_stay_example : Keeps Kept launched.attempts (Agy.run agy_calls launched).attempts
attempts_stay_example = attempts_stay agy_calls launched

columns_agree_example : All Sound (Agy.run agy_calls Agy.empty_ledger).attempts
columns_agree_example = columns_agree agy_calls

second_session_refused_example :
    (e : LedgerError) × (insert_and_reserve (agy_attempt "s-2") "agy" (Agy.run agy_calls launched)
      ≡ err e)
second_session_refused_example =
    second_session_refused (agy_attempt "s-1") (agy_attempt "s-2") 3 "t" "agy" "agy"
      Agy.empty_ledger (1, launched) agy_calls refl refl first_launch

abbrev claude_attempt : ClaudeTurnAttempt
claude_attempt = record {
  attempt_id = "att_3_t";
  session_id = "s-1";
  turn_key = "t";
  native_id = "n-1";
  prompt_digest = "d";
  transcript_protection = "protected";
  protection_attestation_id = "cprot";
  launch_count = 0;
  absence_redispatch_consumed = false;
  absence_verified = "";
  accepted = false;
  terminal = false;
  result_payload = none;
  result_usage = none;
  observed_status = "uncertain";
  transition_version = 1;
}

-- The first launch runs, its absence is verified, and it is launched again.
abbrev claude_calls : List Claude.LedgerCall
claude_calls =
    Claude.attests "cprot"
    ∷ Claude.inserts claude_attempt
    ∷ Claude.reserves "att_3_t" "claude"
    ∷ Claude.reports "att_3_t" 1 LaunchReport.started
    ∷ Claude.verifies_absence "att_3_t"
    ∷ Claude.reserves "att_3_t" "claude"
    ∷ []

abbrev relaunched : ClaudeLedger
relaunched = Claude.run claude_calls Claude.empty_ledger

not_a_number : "att_3_t" ≢ decimal 1
unfolding decimal
not_a_number h = let same : false ≡ true = (eq_iff "att_3_t" (decimal 1)).1 h in cc

launched_twice : map (λ a. a.launch_count) relaunched.attempts ≡ 2 ∷ []
unfolding Claude.run insert_claude_turn_attempt reserve_claude_launch record_claude_launch_state
    record_claude_absence_verified any_row first_row update_where is_blank
launched_twice = refl

death_is_lost_example :
    (l' : ClaudeLedger) × (record_claude_launch_state "att_3_t" 1
        (LaunchReport.dead (some (pos 0)))
        relaunched
      ≡ ok l')
    × ((at : ℕ)
        → first_row (launch_at "att_3_t" at) l'.launches
          ≡ first_row (launch_at "att_3_t" at) relaunched.launches)
death_is_lost_example = death_is_lost "att_3_t" 1 (some (pos 0)) relaunched not_a_number
