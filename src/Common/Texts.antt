-- ===== src/Common/Texts.antt =====
-- Texts as keys: equality, the blank texts of `strings.TrimSpace`, and maps keyed by a text.
use Prim.Native.Nat.{ℕ, zero, suc, ◌%◌, ◌/◌}
use Prim.Native.Char.{Char, code}
use Prim.Native.String.{String, ◌++◌}
use mathlib.Core.Path.{◌≡◌, refl, sym, ap, ◌∙◌}
use mathlib.Core.Logic.{inl, inr}
use mathlib.Core.Bool.{Bool, true, false, ◌&&◌, ◌||◌}
use mathlib.Core.Option.{Option, none, some}
use text.Mathlib.Text.{◌==◌ as text_equal}
use text.Mathlib.TextEquality.{eq_iff}
use agent_council.Common.Tests.{Bool-cases, ltb, leb, ◌==◌, if◌then◌else◌}

abbrev pub text_eq : String → String → Bool
text_eq = text_equal

pub text_eq_refl : (s : String) → text_eq s s ≡ true
text_eq_refl s = (eq_iff s s).1 refl

-- `unicode.IsSpace`, on the code point.
pub is_space : Char → Bool
is_space c =
    let n = code c in
    (leb 9 n && leb n 13)
    || (n == 32)
    || (n == 0x85)
    || (n == 0xa0)
    || (n == 0x1680)
    || (leb 0x2000 n && leb n 0x200a)
    || (n == 0x2028)
    || (n == 0x2029)
    || (n == 0x202f)
    || (n == 0x205f)
    || (n == 0x3000)

-- `strings.TrimSpace(s) == ""`.
unfoldable pub is_blank : String → Bool
unfolding is_space
is_blank String.[] = true
is_blank (String.◌∷◌ c s) = is_space c && is_blank s

pub is_blank-empty : (k : String) → is_blank k ≡ false → text_eq k "" ≡ false
unfolding is_blank
is_blank-empty k h = elim (Bool-cases (text_eq k "")) [
  | inl same ↦
      let no_text : is_blank "" ≡ false = ap is_blank (sym ((eq_iff k "").0 same)) ∙ h in cc
  | inr other ↦ other
]

-- A Go map keyed by a text, as the function that looks a key up.
abbrev pub Dict {ℓ} : Type ℓ → Type ℓ
Dict V = String → Option V

module _ {ℓ} {V : Type ℓ} where
  abbrev pub no_entries : Dict V
  no_entries k = none

  abbrev pub put : String → V → Dict V → Dict V
  put k v m j = if text_eq k j then some v else m j

  abbrev pub delete : String → Dict V → Dict V
  delete k m j = if text_eq k j then none else m j

  -- A table with a key of two texts.
  abbrev pub put_at : String → String → V → (String → Dict V) → String → Dict V
  put_at a b v m i j = if text_eq a i && text_eq b j then some v else m i j

  abbrev pub delete_at : String → String → (String → Dict V) → String → Dict V
  delete_at a b m i j = if text_eq a i && text_eq b j then none else m i j

  abbrev map_entry : (V → V) → Option V → Option V
  map_entry f none = none
  map_entry f (some v) = some (f v)

  -- `UPDATE … WHERE`, which leaves a missing row missing.
  abbrev pub update_at : String → String → (V → V) → (String → Dict V) → String → Dict V
  update_at a b f m i j = if text_eq a i && text_eq b j then map_entry f (m i j) else m i j

-- The last decimal digit of a number.
digit : ℕ → String
digit n =
    let d = n % 10 in
    if d == 0
    then "0"
    else if d == 1
    then "1"
    else if d == 2
    then "2"
    else if d == 3
    then "3"
    else if d == 4
    then "4"
    else if d == 5
    then "5"
    else if d == 6
    then "6"
    else if d == 7
    then "7"
    else if d == 8
    then "8"
    else "9"

-- With `n` below `10 ^ fuel` no digit is lost; `n + 1` rounds are enough.
digits_text : ℕ → ℕ → String
unfolding digit
digits_text zero n = ""
digits_text (suc fuel) n =
    let more = digits_text fuel (n / 10) in if ltb n 10 then digit n else more ++ digit n

-- `fmt.Sprintf("%d", n)`.
unfoldable pub decimal : ℕ → String
unfolding digits_text
decimal n = digits_text (suc n) n
