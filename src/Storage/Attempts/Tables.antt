-- ===== src/Storage/Attempts/Tables.antt =====
-- SQL on the ledgers of attempts of internal/storage. A table is the list of its rows in the order of
-- their insertion, in which SQLite walks it where no index serves.
use agent_council.Common.{
  Bool, true, false, ◌||◌, ◌≡◌, All, Bool-cases, inl, inr, if◌then◌else◌, Option, none, some, List,
  [], ◌∷◌, ◌++◌,
}

pub data LedgerError : Type 0 where
  constraint_failed attempt_not_found launch_refused unknown_state no_started_launch : LedgerError
  step_conflict orphan_conflict empty_attempt_id invalid_status not_uncertain : LedgerError
  already_terminal not_protected no_attestation absence_not_verified absence_refused : LedgerError

-- `observed_status`.
pub data Observed : Type 0 where
  completed failed cancelled missing uncertain : Observed

abbrev pub is_uncertain : Observed → Bool
is_uncertain uncertain = true
is_uncertain _ = false

abbrev pub is_missing : Observed → Bool
is_missing missing = true
is_missing _ = false

pub data LaunchState : Type 0 where
  reserved started start_failed dead : LaunchState

abbrev pub is_started : LaunchState → Bool
is_started started = true
is_started _ = false

module _ {ℓ} {A : Type ℓ} where
  -- `UPDATE … WHERE`.
  unfoldable pub update_where : (A → Bool) → (A → A) → List A → List A
  update_where test f [] = []
  update_where test f (r ∷ rows) = (if test r then f r else r) ∷ update_where test f rows

  -- Whether `UPDATE … WHERE` affects a row.
  unfoldable pub any_row : (A → Bool) → List A → Bool
  any_row test [] = false
  any_row test (r ∷ rows) = test r || any_row test rows

  -- `SELECT … WHERE`, the first row.
  unfoldable pub first_row : (A → Bool) → List A → Option A
  first_row test [] = none
  first_row test (r ∷ rows) = if test r then some r else first_row test rows

  pub All-update_where {κ} :
      (P : A → Type κ) (test : A → Bool) (f : A → A) (rows : List A)
      → ((r : A) → test r ≡ true → P r → P (f r))
      → All P rows
      → All P (update_where test f rows)
  unfolding update_where
  All-update_where P test f [] keep v = tt
  All-update_where P test f (r ∷ rows) keep v = (
    elim (Bool-cases (test r)) [ inl hit ↦ rw hit (keep r hit v.0) | inr other ↦ rw other v.0 ],
    All-update_where P test f rows keep v.1,
  )

  -- Rows stay, in their order, each in the relation `K` to what it was; rows are added at the end.
  abbrev pub Keeps : (A → A → Type 0) → List A → List A → Type 0
  Keeps K [] after = Unit
  Keeps K (r ∷ rows) [] = ⊥
  Keeps K (r ∷ rows) (s ∷ after) = K r s × Keeps K rows after

  module _ (K : A → A → Type 0) where
    pub Keeps-refl : ((r : A) → K r r) → (rows : List A) → Keeps K rows rows
    Keeps-refl same [] = tt
    Keeps-refl same (r ∷ rows) = (same r, Keeps-refl same rows)

    pub Keeps-trans :
        ((r s t : A) → K r s → K s t → K r t)
        → (rows mid after : List A) → Keeps K rows mid
        → Keeps K mid after
        → Keeps K rows after
    Keeps-trans chain [] mid after h k = tt
    Keeps-trans chain (r ∷ rows) [] after h k = elim h [ ]
    Keeps-trans chain (r ∷ rows) (s ∷ mid) [] h k = elim k [ ]
    Keeps-trans chain (r ∷ rows) (s ∷ mid) (t ∷ after) h k =
        (chain r s t h.0 k.0, Keeps-trans chain rows mid after h.1 k.1)

    pub Keeps-update_where :
        (test : A → Bool) (f : A → A) (rows : List A)
        → ((r : A) → K r r)
        → ((r : A) → test r ≡ true → K r (f r))
        → Keeps K rows (update_where test f rows)
    unfolding update_where
    Keeps-update_where test f [] same keep = tt
    Keeps-update_where test f (r ∷ rows) same keep = (
      elim (Bool-cases (test r)) [ inl hit ↦ rw hit (keep r hit) | inr other ↦ rw other (same r) ],
      Keeps-update_where test f rows same keep,
    )

    pub Keeps-append : (rows new : List A) → ((r : A) → K r r) → Keeps K rows (rows ++ new)
    Keeps-append [] new same = tt
    Keeps-append (r ∷ rows) new same = (same r, Keeps-append rows new same)
