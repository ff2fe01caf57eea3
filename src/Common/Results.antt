-- ===== src/Common/Results.antt =====
-- Results of fallible code, over the error type of each component.
use mathlib.Core.Path.{◌≡◌, refl}
use mathlib.Core.Bool.{Bool, true, false}
use mathlib.Core.Logic.{◌⊎◌, inl, inr}
use agent_council.Common.Tests.{if◌then◌else◌}
use mathlib.Core.Option.{Option, none, some}

pub data Result {ℓ κ} (E : Type κ) (A : Type ℓ) : Type (ℓ ⊔ κ) where
  err : E → Result E A
  ok : A → Result E A

module _ {κ} {E : Type κ} where
  infixl 5 ◌>>=◌ ◌>>◌
  -- `if b { return e }`.
  abbrev pub fail_if : (refuses : Bool) → E → Result E (Unit {0})
  fail_if false reason = ok tt
  fail_if true reason = err reason

  -- The entry of a map, or an error where it is missing.
  abbrev pub or_fail {ℓ} : {A : Type ℓ} → Option A → E → Result E A
  or_fail none reason = err reason
  or_fail (some entry) reason = ok entry

  -- `if err != nil { return err }`, and the rest of the function.
  abbrev pub ◌>>=◌ {ℓ ι} :
      {A : Type ℓ} {B : Type ι} (call : Result E A) (rest : A → Result E B) → Result E B
  err reason >>= rest = err reason
  ok value >>= rest = rest value

  abbrev pub ◌>>◌ {ℓ} : {B : Type ℓ} (call : Result E (Unit {0})) (rest : Result E B) → Result E B
  call >> rest = call >>= (λ done. rest)

  -- Where the function has not returned early, the call has succeeded.
  pub >>=-eq-ok {ι ℓ} :
      {B : Type ι} {A : Type ℓ} (call : Result E A) (rest : A → Result E B) {result : B}
      → (call >>= rest) ≡ ok result
      → (value : A) × (call ≡ ok value) × (rest value ≡ ok result)
  >>=-eq-ok (err reason) rest returned = cc
  >>=-eq-ok (ok value) rest returned = (value, refl, returned)

  pub >>-assoc {ℓ} :
      {A : Type ℓ} (m n : Result E (Unit {0})) (k : Result E A) → m >> (n >> k) ≡ (m >> n) >> k
  >>-assoc (err reason) n k = refl
  >>-assoc (ok tt) n k = refl

  pub >>-eq-ok {ℓ} :
      {B : Type ℓ} (m : Result E (Unit {0})) (k : Result E B) {b : B}
      → (m >> k) ≡ ok b
      → (m ≡ ok tt) × (k ≡ ok b)
  >>-eq-ok (ok tt) k h = (refl, h)
  >>-eq-ok (err e) k h = cc

  pub if-eq-ok {ℓ} :
      {A : Type ℓ} (b : Bool) (m n : Result E A) {a : A}
      → (if b then m else n) ≡ ok a
      → ((b ≡ true) × (m ≡ ok a)) ⊎ ((b ≡ false) × (n ≡ ok a))
  if-eq-ok true m n h = inl (refl, h)
  if-eq-ok false m n h = inr (refl, h)

  pub Result-cases {ℓ} :
      {A : Type ℓ} (m : Result E A) → ((a : A) × (m ≡ ok a)) ⊎ ((e : E) × (m ≡ err e))
  Result-cases (ok a) = inl (a, refl)
  Result-cases (err e) = inr (e, refl)
