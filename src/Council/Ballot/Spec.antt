-- ===== src/Council/Ballot/Spec.antt =====
-- What `Tally` of internal/council/domain.go promises, said without its loop.
use agent_council.Common.{
  ℕ, ◌+◌, ◌≤◌, String, ◌≡◌, refl, ◌↔◌, inl, inr, Bool, true, false, not, suc, List, [], ◌∷◌,
  is_blank, length, All, ◌==◌, if◌then◌else◌, arith, eq_iff, ok, >>-eq-ok, ap, Bool-cases, fail_if,
}
use agent_council.Council.Contributor.{
  Contributor, open_code, claude, codex, agy, same_contributor, valid_contributor,
  same_contributor_refl, same_contributor_iff,
}
use agent_council.Council.Ballot.{
  Ballot, Counts, Seen, increment, mark, check, count_ballots, tally,
}

-- How many ballots show `c` in the field `f`.
abbrev pub occurrences : (Ballot → Contributor) → Contributor → List Ballot → ℕ
occurrences f c [] = 0
occurrences f c (b ∷ bs) =
    if same_contributor (f b) c then suc (occurrences f c bs) else occurrences f c bs

abbrev pub voter_of : Ballot → Contributor
voter_of b = b.voter

abbrev pub choice_of : Ballot → Contributor
choice_of b = b.choice

-- A ballot that can stand by itself.
pub record Valid (set : String) (b : Ballot) : Type 0 where
  pub known_voter : valid_contributor b.voter ≡ true
  pub known_choice : valid_contributor b.choice ≡ true
  pub no_self_vote : same_contributor b.voter b.choice ≡ false
  pub current : b.proposal_set ≡ set
  pub reasoned : is_blank b.reason ≡ false

-- The whole vote: four valid ballots, one from each contributor of the roster.
pub record Accepted (set : String) (bs : List Ballot) : Type 0 where
  pub named : is_blank set ≡ false
  pub four : length bs ≡ 4
  pub all_valid : All (Valid set) bs
  pub one_each : (c : Contributor) → valid_contributor c ≡ true → occurrences voter_of c bs ≡ 1

check_iff :
    (set : String) (seen : Seen) (b : Ballot)
    → (check set seen b ≡ ok tt) ↔ (Valid set b × (seen b.voter ≡ false))
unfolding check
check_iff set seen b =
    (λ h. ground (arith, eq_iff b.proposal_set set), λ v. ground (arith, eq_iff b.proposal_set set))

-- The counts are those of the choices, over what was counted before.
count_ballots-occurrences :
    (set : String) (seen : Seen) (out : Counts) (bs : List Ballot) {r : Counts}
    → count_ballots set seen out bs ≡ ok r
    → (c : Contributor) → r c ≡ out c + occurrences choice_of c bs
unfolding count_ballots
count_ballots-occurrences set seen out [] {r} h c =
    let same : out ≡ r = cc in omega (arith, ap (λ f. f c) same)
count_ballots-occurrences set seen out (b ∷ bs) {r} h c =
    let rest = (>>-eq-ok (check set seen b) _ h).1 in
    ground
      (arith, count_ballots-occurrences set (mark b.voter seen) (increment b.choice out) bs rest c)

abbrev bit : Bool → ℕ
bit true = 1
bit false = 0

-- No voter was seen before, and none votes twice.
abbrev Once : Seen → List Ballot → Type 0
Once seen bs = (c : Contributor) → bit (seen c) + occurrences voter_of c bs ≤ 1

count_ballots_sound :
    (set : String) (seen : Seen) (out : Counts) (bs : List Ballot) {r : Counts}
    → count_ballots set seen out bs ≡ ok r
    → All (Valid set) bs × Once seen bs
unfolding count_ballots
count_ballots_sound set seen out [] h = (tt, λ c. ground arith)
count_ballots_sound set seen out (b ∷ bs) h =
    let (checked, rest) = >>-eq-ok (check set seen b) _ h in
    let (valid, unseen) = (check_iff set seen b).0 checked in
    let (all, once) =
      count_ballots_sound set (mark b.voter seen) (increment b.choice out) bs rest in
    ((valid, all), λ c. ground (arith, once c, same_contributor_iff b.voter c))

count_ballots_complete :
    (set : String) (seen : Seen) (out : Counts) (bs : List Ballot)
    → All (Valid set) bs
    → Once seen bs
    → (r : Counts) × (count_ballots set seen out bs ≡ ok r)
unfolding count_ballots
count_ballots_complete set seen out [] all once = (out, refl)
count_ballots_complete set seen out (b ∷ bs) all once =
    let unseen : seen b.voter ≡ false =
      ground (arith, once b.voter, same_contributor_refl b.voter) in
    let (r, e) =
      count_ballots_complete set (mark b.voter seen) (increment b.choice out) bs all.1
        (λ c. ground (arith, once c, same_contributor_iff b.voter c)) in
    (r, rw ((check_iff set seen b).1 (all.0, unseen)) e)

-- Every valid ballot counts for one member of the roster.
roster_total :
    (f : Ballot → Contributor) (bs : List Ballot)
    → All (λ b. valid_contributor (f b) ≡ true) bs
    → occurrences f open_code bs
        + occurrences f claude bs
        + occurrences f codex bs
        + occurrences f agy bs
      ≡ length bs
unfolding valid_contributor same_contributor
roster_total f [] all = omega arith
roster_total f (b ∷ bs) all = ground (arith, roster_total f bs all.1)

All-voters :
    (set : String) (bs : List Ballot)
    → All (Valid set) bs
    → All (λ b. valid_contributor b.voter ≡ true) bs
All-voters set [] all = tt
All-voters set (b ∷ bs) all = (all.0.known_voter, All-voters set bs all.1)

All-choices :
    (set : String) (bs : List Ballot)
    → All (Valid set) bs
    → All (λ b. valid_contributor b.choice ≡ true) bs
All-choices set [] all = tt
All-choices set (b ∷ bs) all = (all.0.known_choice, All-choices set bs all.1)

-- Four voters of a roster of four, none twice, are all of them.
one_from_each :
    (bs : List Ballot)
    → All (λ b. valid_contributor b.voter ≡ true) bs
    → Once (λ _. false) bs
    → length bs ≡ 4
    → (c : Contributor) → valid_contributor c ≡ true
    → occurrences voter_of c bs ≡ 1
unfolding valid_contributor same_contributor
one_from_each bs all once four c k =
    ground (arith, roster_total voter_of bs all, once open_code, once claude, once codex, once agy)

not_a_voter :
    (bs : List Ballot)
    → All (λ b. valid_contributor b.voter ≡ true) bs
    → (c : Contributor) → valid_contributor c ≡ false
    → occurrences voter_of c bs ≡ 0
not_a_voter [] all c k = refl
not_a_voter (b ∷ bs) all c k =
    ground (arith, not_a_voter bs all.1 c k, same_contributor_iff b.voter c)

Accepted-Once : (set : String) (bs : List Ballot) → Accepted set bs → Once (λ _. false) bs
Accepted-Once set bs a c = elim (Bool-cases (valid_contributor c)) [
  | inl k ↦ omega (arith, a.one_each c k)
  | inr k ↦ omega (arith, not_a_voter bs (All-voters set bs a.all_valid) c k)
]

tally_complete :
    (bs : List Ballot) (set : String) → Accepted set bs → (r : Counts) × (tally bs set ≡ ok r)
unfolding tally
tally_complete bs set a =
    let (r, e) =
      count_ballots_complete set (λ _. false) (λ _. 0) bs a.all_valid (Accepted-Once set bs a) in
    (r, ground (arith, e))

tally_sound : (bs : List Ballot) (set : String) (r : Counts) → tally bs set ≡ ok r → Accepted set bs
unfolding tally
tally_sound bs set r h =
    let (named, h') = >>-eq-ok (fail_if (is_blank set) _) _ h in
    let (is_four, counted) = >>-eq-ok (fail_if (not (length bs == 4)) _) _ h' in
    let (all, once) = count_ballots_sound set (λ _. false) (λ _. 0) bs counted in
    let four : length bs ≡ 4 = ground arith in
    record {
      named = ground arith;
      four = four;
      all_valid = all;
      one_each = one_from_each bs (All-voters set bs all) once four;
    }

tally-occurrences :
    (bs : List Ballot) (set : String) (r : Counts)
    → tally bs set ≡ ok r
    → (c : Contributor) → r c ≡ occurrences choice_of c bs
unfolding tally
tally-occurrences bs set r h c =
    let (named, h') = >>-eq-ok (fail_if (is_blank set) _) _ h in
    let (is_four, counted) = >>-eq-ok (fail_if (not (length bs == 4)) _) _ h' in
    omega (arith, count_ballots-occurrences set (λ _. false) (λ _. 0) bs counted c)

-- `Tally` succeeds exactly on four valid ballots, one from each contributor of the roster, for a
-- named proposal set. A contributor's count is then the number of ballots that choose it, and the
-- counts of the roster add up to four.
pub tally_exact :
    (bs : List Ballot) (set : String)
    → (Accepted set bs → (r : Counts) × (tally bs set ≡ ok r))
      × ((r : Counts)
          → tally bs set ≡ ok r
          → Accepted set bs
            × ((c : Contributor) → r c ≡ occurrences choice_of c bs)
            × (r open_code + r claude + r codex + r agy ≡ 4))
tally_exact bs set = (
  tally_complete bs set,
  λ r h.
      let a = tally_sound bs set r h in
      let count = tally-occurrences bs set r h in
      (
        a,
        count,
        omega (
          arith,
          a.four,
          roster_total choice_of bs (All-choices set bs a.all_valid),
          count open_code,
          count claude,
          count codex,
          count agy,
        ),
      ),
)
