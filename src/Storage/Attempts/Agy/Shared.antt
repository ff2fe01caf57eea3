-- ===== src/Storage/Attempts/Agy/Shared.antt =====
-- internal/storage/agy_state.go looks an attempt up by its attempt id alone, and transitions.go makes
-- that id of the row version and the turn key: sessions share ids.
use agent_council.Common.{
  ℕ, ◌≤◌, String, ◌≡◌, sym, ◌∙◌, inl, inr, arith, Bool-cases, Result-cases, some, List, [], ◌∷◌,
  ◌++◌, ok, err, >>=-eq-ok, or_fail,
}
use agent_council.Storage.Release.{attempt_name}
use agent_council.Storage.Attempts.Tables.{LedgerError, update_where, first_row, Keeps}
use agent_council.Storage.Attempts.Agy.{
  AgyTurnAttempt, AgyLedger, LedgerCall, insert_agy_turn_attempt, reserve_agy_launch,
  insert_and_reserve, of_attempt, launched_once, fresh_attempt, run,
}
use agent_council.Storage.Attempts.Agy.Ledger.{Kept, attempts_stay}

-- The first row of the id has been launched.
abbrev Launched : String → List AgyTurnAttempt → Type 0
Launched id rows =
    (b : AgyTurnAttempt) × (first_row (of_attempt id) rows ≡ some b) × (1 ≤ b.launch_count)

Launched-update :
    (id : String) (rows : List AgyTurnAttempt) (b : AgyTurnAttempt)
    → first_row (of_attempt id) rows ≡ some b
    → Launched id (update_where (of_attempt id) launched_once rows)
unfolding first_row update_where
Launched-update id [] b h = absurd (cc)
Launched-update id (r ∷ rows) b h = elim (Bool-cases (of_attempt id r)) [
  | inl hit ↦ (launched_once r, ground arith, omega arith)
  | inr other ↦
      let (c, found, count) = Launched-update id rows b (ground arith) in (c, ground arith, count)
]

Launched-Keeps :
    (id : String) (rows after : List AgyTurnAttempt)
    → Keeps Kept rows after
    → Launched id rows
    → Launched id after
unfolding first_row
Launched-Keeps id [] after k (b, found, count) = absurd (cc)
Launched-Keeps id (r ∷ rows) [] k v = elim k [ ]
Launched-Keeps id (r ∷ rows) (s ∷ after) k (b, found, count) = elim (Bool-cases (of_attempt id r)) [
  | inl hit ↦ (s, ground (arith, k.0.identity), ground (arith, k.0.launches))
  | inr other ↦
      let (c, here, more) = Launched-Keeps id rows after k.1 (b, ground arith, count) in
      (c, ground (arith, k.0.identity), more)
]

Launched-append :
    (id : String) (rows new : List AgyTurnAttempt) → Launched id rows → Launched id (rows ++ new)
unfolding first_row
Launched-append id [] new (b, found, count) = absurd (cc)
Launched-append id (r ∷ rows) new (b, found, count) = elim (Bool-cases (of_attempt id r)) [
  | inl hit ↦ (b, ground arith, count)
  | inr other ↦
      let (c, here, more) = Launched-append id rows new (b, ground arith, count) in
      (c, ground arith, more)
]

reserve_refused :
    (id executor : String) (l : AgyLedger)
    → Launched id l.attempts
    → reserve_agy_launch id executor l ≡ err LedgerError.launch_refused
unfolding reserve_agy_launch
reserve_refused id executor l (b, found, count) = ground arith

reserve-Launched :
    (id executor : String) (l : AgyLedger) {r : ℕ × AgyLedger}
    → reserve_agy_launch id executor l ≡ ok r
    → Launched id r.1.attempts
unfolding reserve_agy_launch
reserve-Launched id executor l {r} h =
    let (b, found, rest) = >>=-eq-ok (or_fail (first_row (of_attempt id) l.attempts) _) _ h in
    let rows : r.1.attempts ≡ update_where (of_attempt id) launched_once l.attempts =
      ground arith in
    rw rows (Launched-update id l.attempts b (ground arith))

insert-Launched :
    (id : String) (c : AgyTurnAttempt) (l n : AgyLedger)
    → insert_agy_turn_attempt c l ≡ ok n
    → Launched id l.attempts
    → Launched id n.attempts
unfolding insert_agy_turn_attempt
insert-Launched id c l n h v =
    let rows : n.attempts ≡ l.attempts ++ (fresh_attempt c ∷ []) = ground arith in
    rw rows (Launched-append id l.attempts (fresh_attempt c ∷ []) v)

-- An attempt id is good for one launch: once an attempt has been inserted with its launch
-- reserved, then, after any later calls, no attempt with the same id, such as the one that another
-- session gets from a release at the same row version and turn key, can be inserted with a launch.
pub second_session_refused :
    (a c : AgyTurnAttempt) (version : ℕ) (key executor executor' : String) (l : AgyLedger)
    (r : ℕ × AgyLedger) (cs : List LedgerCall)
    → a.attempt_id ≡ attempt_name version key
    → c.attempt_id ≡ attempt_name version key
    → insert_and_reserve a executor l ≡ ok r
    → (e : LedgerError) × (insert_and_reserve c executor' (run cs r.1) ≡ err e)
unfolding insert_and_reserve
second_session_refused a c version key executor executor' l r cs ha hc h =
    let (m, inserted, reserved) = >>=-eq-ok (insert_agy_turn_attempt a l) _ h in
    let here = reserve-Launched a.attempt_id executor m reserved in
    let later =
      Launched-Keeps a.attempt_id r.1.attempts (run cs r.1).attempts (attempts_stay cs r.1) here in
    elim (Result-cases (insert_agy_turn_attempt c (run cs r.1))) [
      | inr (e, failed) ↦ (e, rw failed)
      | inl (n, done) ↦
          let kept = insert-Launched a.attempt_id c (run cs r.1) n done later in
          (
            LedgerError.launch_refused,
            rw done (reserve_refused c.attempt_id executor' n (rw (hc ∙ sym ha) kept)),
          )
    ]
