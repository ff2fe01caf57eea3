-- ===== src/Storage/Attempts/Agy/Ledger.antt =====
-- What the ledger of internal/storage/agy_state.go keeps of an attempt, whatever is recorded later.
use agent_council.Common.{
  ℕ, ◌≤◌, String, Bool, true, false, ◌≡◌, inl, inr, All, All-append, arith, is_blank, Bool-cases,
  Option-cases, Result-cases, some, is_some, List, [], ◌∷◌, ◌++◌, ok, >>=-eq-ok, >>-eq-ok, or_fail,
  fail_if,
}
use agent_council.Storage.Attempts.Tables.{
  Observed, is_uncertain, update_where, any_row, first_row, Keeps, All-update_where, Keeps-refl,
  Keeps-trans, Keeps-update_where, Keeps-append,
}
use agent_council.Storage.Attempts.Agy.{
  AgyTurnAttempt, AgyVerification, AgyLedger, LedgerCall, LaunchReport, insert_agy_turn_attempt,
  reserve_agy_launch, insert_and_reserve, record_agy_launch_state, record_agy_stdin_transmitted,
  record_agy_native_step_index, record_agy_orphan_conversation, set_agy_attempt_observed_status,
  set_agy_attempt_terminal, is_ended, of_attempt, bumped, fresh_attempt, launched_once,
  over_launched, still_uncertain, awaits_step, open_attempt, inserts, reserves, inserts_reserved,
  reports, transmits, binds_step, notes_orphan, observes, ends, step, run, empty_ledger, unset,
}

-- What no later record changes in an attempt.
pub record Kept (a b : AgyTurnAttempt) : Type 0 where
  pub identity :
      (b.attempt_id ≡ a.attempt_id)
      × (b.session_id ≡ a.session_id)
      × (b.turn_key ≡ a.turn_key)
      × (b.prompt_digest ≡ a.prompt_digest)
      × (b.required_tools ≡ a.required_tools)
  pub launches : a.launch_count ≤ b.launch_count
  pub version : a.transition_version ≤ b.transition_version
  pub accepted : a.accepted ≡ true → b.accepted ≡ true
  pub step_index : unset a.native_step_index ≡ false → b.native_step_index ≡ a.native_step_index
  pub ended : a.terminal ≡ true → b.terminal ≡ true
  pub outcome :
      is_uncertain a.observed_status ≡ false
      → (b.observed_status ≡ a.observed_status)
        × (b.result_payload ≡ a.result_payload)
        × (b.result_usage ≡ a.result_usage)
        × (b.verification ≡ a.verification)

Kept-refl : (a : AgyTurnAttempt) → Kept a a
Kept-refl a = ground arith

Kept-trans : (a b c : AgyTurnAttempt) → Kept a b → Kept b c → Kept a c
Kept-trans a b c h k = ground arith

-- The columns of an attempt agree: it is launched once at most, and it has a result exactly when it
-- is terminal, which is when its status is an end.
pub record Sound (a : AgyTurnAttempt) : Type 0 where
  pub launches : a.launch_count ≤ 1
  pub ended : is_ended a.observed_status ≡ a.terminal
  pub answered : is_some a.result_payload ≡ a.terminal
  pub verified : is_some a.verification ≡ a.terminal

-- What an operation does to the attempts.
data Change : List AgyTurnAttempt → List AgyTurnAttempt → Type 0 where
  same : {rows : List AgyTurnAttempt} → Change rows rows
  added :
      {rows : List AgyTurnAttempt} (a : AgyTurnAttempt)
      → Change rows (rows ++ (fresh_attempt a ∷ []))
  launched :
      {rows : List AgyTurnAttempt} (id : String)
      → any_row over_launched (update_where (of_attempt id) launched_once rows) ≡ false
      → Change rows (update_where (of_attempt id) launched_once rows)
  updated :
      {rows : List AgyTurnAttempt} (test : AgyTurnAttempt → Bool)
      (f : AgyTurnAttempt → AgyTurnAttempt)
      → ((r : AgyTurnAttempt) → test r ≡ true → Kept r (f r))
      → ((r : AgyTurnAttempt) → test r ≡ true → Sound r → Sound (f r))
      → Change rows (update_where test f rows)
  both :
      {rows mid after : List AgyTurnAttempt}
      → Change rows mid
      → Change mid after
      → Change rows after

Change-Keeps : {rows after : List AgyTurnAttempt} → Change rows after → Keeps Kept rows after
Change-Keeps {rows} same = Keeps-refl Kept Kept-refl rows
Change-Keeps {rows} (added a) = Keeps-append Kept rows (fresh_attempt a ∷ []) Kept-refl
Change-Keeps {rows} (launched id few) =
    Keeps-update_where Kept (of_attempt id) launched_once rows Kept-refl (λ b hit. ground arith)
Change-Keeps {rows} (updated test f keep sound) = Keeps-update_where Kept test f rows Kept-refl keep
Change-Keeps {rows} {after} (both {mid} c d) =
    Keeps-trans Kept Kept-trans rows mid after (Change-Keeps c) (Change-Keeps d)

launched-Sound :
    (id : String) (rows : List AgyTurnAttempt)
    → any_row over_launched (update_where (of_attempt id) launched_once rows) ≡ false
    → All Sound rows
    → All Sound (update_where (of_attempt id) launched_once rows)
unfolding any_row update_where
launched-Sound id [] few v = tt
launched-Sound id (r ∷ rows) few v =
    (ground (arith, v.0), launched-Sound id rows (ground arith) v.1)

Change-Sound :
    {rows after : List AgyTurnAttempt} → Change rows after → All Sound rows → All Sound after
Change-Sound same v = v
Change-Sound {rows} (added a) v = All-append Sound rows (fresh_attempt a ∷ []) v (ground arith, tt)
Change-Sound {rows} (launched id few) v = launched-Sound id rows few v
Change-Sound {rows} (updated test f keep sound) v = All-update_where Sound test f rows sound v
Change-Sound (both c d) v = Change-Sound d (Change-Sound c v)

insert-Change :
    (a : AgyTurnAttempt) (l : AgyLedger) {l' : AgyLedger}
    → insert_agy_turn_attempt a l ≡ ok l'
    → Change l.attempts l'.attempts
unfolding insert_agy_turn_attempt
insert-Change a l {l'} h =
    let rows : l'.attempts ≡ l.attempts ++ (fresh_attempt a ∷ []) = ground arith in
    rw rows (added a)

reserve-Change :
    (id executor : String) (l : AgyLedger) {r : ℕ × AgyLedger}
    → reserve_agy_launch id executor l ≡ ok r
    → Change l.attempts r.1.attempts
unfolding reserve_agy_launch
reserve-Change id executor l {r} h =
    let (a, found, rest) = >>=-eq-ok (or_fail (first_row (of_attempt id) l.attempts) _) _ h in
    let rows : r.1.attempts ≡ update_where (of_attempt id) launched_once l.attempts =
      ground arith in
    rw rows (launched id (ground arith))

insert_and_reserve-Change :
    (a : AgyTurnAttempt) (executor : String) (l : AgyLedger) {r : ℕ × AgyLedger}
    → insert_and_reserve a executor l ≡ ok r
    → Change l.attempts r.1.attempts
unfolding insert_and_reserve
insert_and_reserve-Change a executor l {r} h =
    let (l', inserted, reserved) = >>=-eq-ok (insert_agy_turn_attempt a l) _ h in
    both (insert-Change a l inserted) (reserve-Change a.attempt_id executor l' reserved)

report-Change :
    (id : String) (seq : ℕ) (report : LaunchReport) (l : AgyLedger) {l' : AgyLedger}
    → record_agy_launch_state id seq report l ≡ ok l'
    → Change l.attempts l'.attempts
unfolding record_agy_launch_state
report-Change id seq (LaunchReport.started exe) l {l'} h =
    let rows : l'.attempts ≡ l.attempts = ground arith in rw rows same
report-Change id seq LaunchReport.start_failed l {l'} h =
    let rows : l'.attempts
        ≡ update_where (still_uncertain id) (λ a. record a { observed_status = Observed.missing })
            l.attempts =
      ground arith in
    rw rows (updated (still_uncertain id) _ (λ b hit. ground arith) (λ b hit v. ground arith))
report-Change id seq (LaunchReport.dead code) l {l'} h =
    let rows : l'.attempts ≡ l.attempts = ground arith in rw rows same
report-Change id seq (LaunchReport.other s) l h = cc

transmit-Change :
    (id : String) (seq : ℕ) (l : AgyLedger) {l' : AgyLedger}
    → record_agy_stdin_transmitted id seq l ≡ ok l'
    → Change l.attempts l'.attempts
unfolding record_agy_stdin_transmitted
transmit-Change id seq l {l'} h = let rows : l'.attempts ≡ l.attempts = ground arith in rw rows same

abbrev with_step : ℕ → AgyTurnAttempt → AgyTurnAttempt
with_step index a = bumped (record a { native_step_index = some index; accepted = true })

step_index-Change :
    (id : String) (index : ℕ) (l : AgyLedger) {l' : AgyLedger}
    → record_agy_native_step_index id index l ≡ ok l'
    → Change l.attempts l'.attempts
unfolding record_agy_native_step_index
step_index-Change id index l {l'} h = elim (Bool-cases (any_row (awaits_step id) l.attempts)) [
  | inl first ↦
      let rows : l'.attempts ≡ update_where (awaits_step id) (with_step index) l.attempts =
        ground arith in
      rw rows (
        updated (awaits_step id) (with_step index) (λ b hit. ground arith)
          (λ b hit v. ground arith))
  | inr again ↦
      let rows : l'.attempts ≡ l.attempts =
        ground (arith, Option-cases (first_row (of_attempt id) l.attempts)) in
      rw rows same
]

abbrev with_orphan : String → AgyTurnAttempt → AgyTurnAttempt
with_orphan conversation a = bumped (record a { orphan_conversation_id = some conversation })

orphan-Change :
    (id conversation : String) (l : AgyLedger) {l' : AgyLedger}
    → record_agy_orphan_conversation id conversation l ≡ ok l'
    → Change l.attempts l'.attempts
unfolding record_agy_orphan_conversation
orphan-Change id conversation l {l'} h =
    let named = >>-eq-ok (fail_if (is_blank id) _) _ h in
    let (a, found, rest) = >>=-eq-ok (or_fail (first_row (of_attempt id) l.attempts) _) _ named.1 in
    elim (Bool-cases (unset a.orphan_conversation_id)) [
      | inl first ↦
          let rows : l'.attempts
              ≡ update_where (of_attempt id) (with_orphan conversation) l.attempts =
            ground arith in
          rw rows (
            updated (of_attempt id) (with_orphan conversation) (λ b hit. ground arith)
              (λ b hit v. ground arith))
      | inr again ↦ let rows : l'.attempts ≡ l.attempts = ground arith in rw rows same
    ]

abbrev with_status : Observed → AgyTurnAttempt → AgyTurnAttempt
with_status status a = bumped (record a { observed_status = status })

observe-Change :
    (id : String) (status : Observed) (l : AgyLedger) {l' : AgyLedger}
    → set_agy_attempt_observed_status id status l ≡ ok l'
    → Change l.attempts l'.attempts
unfolding set_agy_attempt_observed_status
observe-Change id status l {l'} h = elim (Bool-cases (any_row (open_attempt id) l.attempts)) [
  | inl first ↦
      let rows : l'.attempts ≡ update_where (open_attempt id) (with_status status) l.attempts =
        ground arith in
      rw rows (
        updated (open_attempt id) (with_status status) (λ b hit. ground arith)
          (λ b hit v. ground arith))
  | inr again ↦
      let rows : l'.attempts ≡ l.attempts =
        ground (arith, Option-cases (first_row (of_attempt id) l.attempts)) in
      rw rows same
]

abbrev with_result :
    Observed → (payload usage : String) → AgyVerification → AgyTurnAttempt → AgyTurnAttempt
with_result status payload usage verification a = bumped (record a {
  terminal = true;
  result_payload = some payload;
  result_usage = some usage;
  observed_status = status;
  verification = some verification;
})

end-Change :
    (id : String) (status : Observed) (payload usage : String) (v : AgyVerification) (l : AgyLedger)
    {l' : AgyLedger}
    → set_agy_attempt_terminal id status payload usage v l ≡ ok l'
    → Change l.attempts l'.attempts
unfolding set_agy_attempt_terminal
end-Change id status payload usage v l {l'} h =
    let rows : l'.attempts
        ≡ update_where (open_attempt id) (with_result status payload usage v) l.attempts =
      ground arith in
    rw rows (
      updated (open_attempt id) (with_result status payload usage v) (λ b hit. ground arith)
        (λ b hit v. ground arith))

step-Change : (c : LedgerCall) (l : AgyLedger) → Change l.attempts (step c l).attempts
unfolding step
step-Change (inserts a) l = elim (Result-cases (insert_agy_turn_attempt a l)) [
  | inl (l', done) ↦ rw done (insert-Change a l done)
  | inr (e, failed) ↦ rw failed same
]
step-Change (reserves id executor) l = elim (Result-cases (reserve_agy_launch id executor l)) [
  | inl (r, done) ↦ rw done (reserve-Change id executor l done)
  | inr (e, failed) ↦ rw failed same
]
step-Change (inserts_reserved a executor) l =
    elim (Result-cases (insert_and_reserve a executor l)) [
      | inl (r, done) ↦ rw done (insert_and_reserve-Change a executor l done)
      | inr (e, failed) ↦ rw failed same
    ]
step-Change (reports id seq report) l =
    elim (Result-cases (record_agy_launch_state id seq report l)) [
      | inl (l', done) ↦ rw done (report-Change id seq report l done)
      | inr (e, failed) ↦ rw failed same
    ]
step-Change (transmits id seq) l = elim (Result-cases (record_agy_stdin_transmitted id seq l)) [
  | inl (l', done) ↦ rw done (transmit-Change id seq l done)
  | inr (e, failed) ↦ rw failed same
]
step-Change (binds_step id index) l =
    elim (Result-cases (record_agy_native_step_index id index l)) [
      | inl (l', done) ↦ rw done (step_index-Change id index l done)
      | inr (e, failed) ↦ rw failed same
    ]
step-Change (notes_orphan id conversation) l =
    elim (Result-cases (record_agy_orphan_conversation id conversation l)) [
      | inl (l', done) ↦ rw done (orphan-Change id conversation l done)
      | inr (e, failed) ↦ rw failed same
    ]
step-Change (observes id status) l =
    elim (Result-cases (set_agy_attempt_observed_status id status l)) [
      | inl (l', done) ↦ rw done (observe-Change id status l done)
      | inr (e, failed) ↦ rw failed same
    ]
step-Change (ends id status payload usage v) l =
    elim (Result-cases (set_agy_attempt_terminal id status payload usage v l)) [
      | inl (l', done) ↦ rw done (end-Change id status payload usage v l done)
      | inr (e, failed) ↦ rw failed same
    ]

run-Change : (cs : List LedgerCall) (l : AgyLedger) → Change l.attempts (run cs l).attempts
unfolding run
run-Change [] l = same
run-Change (c ∷ cs) l = both (step-Change c l) (run-Change cs (step c l))

-- An attempt's record is durable: whatever calls are made on a ledger, each attempt stays in its place
-- with its identity, prompt and required tools; its launches and version only grow; acceptance and
-- the native step index, once recorded, stay; and once its status is no longer uncertain, its status,
-- result and verification never change.
pub attempts_stay :
    (cs : List LedgerCall) (l : AgyLedger) → Keeps Kept l.attempts (run cs l).attempts
attempts_stay cs l = Change-Keeps (run-Change cs l)

-- After any calls on an empty ledger, every attempt has been launched once at most, has a result and
-- its verification exactly when it is terminal, and is terminal exactly when its status is completed,
-- failed or cancelled.
pub columns_agree : (cs : List LedgerCall) → All Sound (run cs empty_ledger).attempts
columns_agree cs = Change-Sound (run-Change cs empty_ledger) tt
