-- ===== src/Council/Ballot.antt =====
-- internal/council/domain.go: `Ballot` and `Tally`.
pub mod Spec
use agent_council.Common.{
  String, ℕ, ◌+◌, Bool, true, false, not, ◌||◌, List, [], ◌∷◌, text_eq, is_blank, length, ◌==◌,
  if◌then◌else◌, Result, ok, err, ◌>>=◌, ◌>>◌, fail_if,
}
use agent_council.Council.Contributor.{Contributor, same_contributor, valid_contributor}

pub record Ballot : Type 0 where
  pub voter : Contributor
  pub choice : Contributor
  pub proposal_set : String
  pub reason : String
  pub acceptable : Bool

pub data TallyError : Type 0 where
  missing_proposal_set not_four unknown_contributor self_vote duplicate stale no_reason : TallyError

-- `map[Contributor]int`: a missing key reads 0, as the zeroes that `Tally` writes for the roster.
abbrev pub Counts : Type 0
Counts = Contributor → ℕ

-- `map[Contributor]bool`.
abbrev pub Seen : Type 0
Seen = Contributor → Bool

abbrev pub increment : Contributor → Counts → Counts
increment c out d = if same_contributor c d then out d + 1 else out d

abbrev pub mark : Contributor → Seen → Seen
mark c seen d = if same_contributor c d then true else seen d

-- The checks of one round of the loop, in order.
unfoldable pub check : String → Seen → Ballot → Result TallyError (Unit {0})
unfolding valid_contributor same_contributor
check set seen b = do
  fail_if (not (valid_contributor b.voter) || not (valid_contributor b.choice)) unknown_contributor
  fail_if (same_contributor b.voter b.choice) self_vote
  fail_if (seen b.voter) duplicate
  fail_if (not (text_eq b.proposal_set set)) stale
  fail_if (is_blank b.reason) no_reason

unfoldable pub count_ballots : String → Seen → Counts → List Ballot → Result TallyError Counts
unfolding check
count_ballots set seen out [] = ok out
count_ballots set seen out (b ∷ bs) =
    let rest = count_ballots set (mark b.voter seen) (increment b.choice out) bs in
    check set seen b >> rest

unfoldable pub tally : List Ballot → String → Result TallyError Counts
unfolding count_ballots
tally ballots set = do
  fail_if (is_blank set) missing_proposal_set
  fail_if (not (length ballots == 4)) not_four
  count_ballots set (λ _. false) (λ _. 0) ballots
