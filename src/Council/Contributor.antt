-- ===== src/Council/Contributor.antt =====
-- internal/council/domain.go: `Contributor`, `Roster` and `ValidContributor`.
use agent_council.Common.{
  String, Bool, true, false, ◌||◌, List, [], ◌∷◌, ◌≡◌, refl, ap, ◌↔◌, text_eq, arith, eq_iff,
}

-- A contributor is a text; `other` stands for every text outside the roster.
pub data Contributor : Type 0 where
  open_code claude codex agy : Contributor
  other : String → Contributor

unfoldable pub roster : List Contributor
roster = open_code ∷ claude ∷ codex ∷ agy ∷ []

unfoldable pub same_contributor : Contributor → Contributor → Bool
same_contributor open_code open_code = true
same_contributor claude claude = true
same_contributor codex codex = true
same_contributor agy agy = true
same_contributor (other s) (other t) = text_eq s t
same_contributor _ _ = false

-- The loop of `ValidContributor`.
listed : Contributor → List Contributor → Bool
listed id [] = false
listed id (v ∷ vs) = same_contributor v id || listed id vs

unfoldable pub valid_contributor : Contributor → Bool
unfolding listed roster same_contributor
valid_contributor id = listed id roster

pub same_contributor_refl : (c : Contributor) → same_contributor c c ≡ true
unfolding same_contributor
same_contributor_refl open_code = refl
same_contributor_refl claude = refl
same_contributor_refl codex = refl
same_contributor_refl agy = refl
same_contributor_refl (other s) = ground (arith, eq_iff s s)

same_contributor-eq : (c d : Contributor) → same_contributor c d ≡ true → c ≡ d
unfolding same_contributor
same_contributor-eq (other s) (other t) h = ap other ((eq_iff s t).0 h)
same_contributor-eq open_code open_code h = refl
same_contributor-eq claude claude h = refl
same_contributor-eq codex codex h = refl
same_contributor-eq agy agy h = refl
same_contributor-eq _ _ h = cc

pub same_contributor_iff : (c d : Contributor) → (same_contributor c d ≡ true) ↔ (c ≡ d)
unfolding same_contributor
same_contributor_iff c d = (same_contributor-eq c d, λ e. rw (← e) (same_contributor_refl c))
