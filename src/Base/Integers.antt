-- ===== src/Base/Integers.antt =====
-- Signed integers of 64 bits, and `strconv.Atoi` that reads one.
use Prim.Native.Nat.{ℕ, zero, suc, ◌-◌, ◌%◌, ◌^◌, ◌<◌}
use mathlib.Core.Path.{◌≡◌, refl, ap, ◌∙◌}
use mathlib.Core.Logic.{◌≢◌}
use mathlib.Core.Bool.{Bool, true, ◌&&◌}
use mathlib.Core.Option.{Option, none, some}
use mathlib.Core.List.{[], ◌∷◌}
use native.Mathlib.Omega.{arith}
use hellbox.Base.Tests.{ltb, ◌==◌, if◌then◌else◌}
use hellbox.Base.Texts.{Text}
use hellbox.Base.Lists.{All}
use hellbox.Base.Decimal.{
  decimal, decimal2, value_from, is_digit, value-decimal, value-decimal2, decimal-digits,
  decimal2-digits, decimal_nonempty, decimal2_nonempty,
}

pub data ℤ : Type 0 where
  pos negsuc : ℕ → ℤ

-- The integer that the low 64 bits of a number are.
unfoldable pub int64 : ℕ → ℤ
int64 n = let r = n % 2 ^ 64 in if ltb r (2 ^ 63) then pos r else negsuc (2 ^ 64 - 1 - r)

abbrev pub all_digits : Text → Bool
all_digits [] = true
all_digits (c ∷ s) = is_digit c && all_digits s

-- The number that one digit or more spell.
unfoldable pub magnitude : Text → Option ℕ
magnitude [] = none
magnitude (c ∷ s) = if is_digit c && all_digits s then some (value_from 0 (c ∷ s)) else none

abbrev pub positive : Option ℕ → Option ℤ
positive none = none
positive (some v) = if ltb v (2 ^ 63) then some (pos v) else none

abbrev pub negative : Option ℕ → Option ℤ
negative none = none
negative (some zero) = some (pos 0)
negative (some (suc v)) = if ltb v (2 ^ 63) then some (negsuc v) else none

-- `strconv.Atoi`
unfoldable pub atoi : Text → Option ℤ
unfolding magnitude
atoi [] = none
atoi (c ∷ s) =
    if c == b'-'
    then negative (magnitude s)
    else if c == b'+'
    then positive (magnitude s)
    else positive (magnitude (c ∷ s))

all_digits_of : (s : Text) → All (λ c. is_digit c ≡ true) s → all_digits s ≡ true
all_digits_of [] h = refl
all_digits_of (c ∷ s) h = ground (arith, all_digits_of s h.1, h.0)

atoi_digits :
    (c : ℕ) (s : Text)
    → All (λ d. is_digit d ≡ true) (c ∷ s)
    → value_from 0 (c ∷ s) < 2 ^ 63
    → atoi (c ∷ s) ≡ some (pos (value_from 0 (c ∷ s)))
unfolding atoi magnitude
atoi_digits c s h small = ground (arith, all_digits_of s h.1, h.0)

-- What a list of digits that is not empty reads as.
pub atoi_of_digits :
    (s : Text)
    → s ≢ []
    → All (λ d. is_digit d ≡ true) s
    → value_from 0 s < 2 ^ 63
    → atoi s ≡ some (pos (value_from 0 s))
atoi_of_digits [] some_digit h small = absurd (some_digit refl)
atoi_of_digits (c ∷ s) _ h small = atoi_digits c s h small

pub atoi-decimal : (n : ℕ) → n < 2 ^ 63 → atoi (decimal n) ≡ some (pos n)
atoi-decimal n small =
    atoi_of_digits (decimal n) (decimal_nonempty n) (decimal-digits n) (rw (value-decimal n) small)
    ∙ ap (λ v. some (pos v)) (value-decimal n)

pub atoi-decimal2 : (n : ℕ) → n < 2 ^ 63 → atoi (decimal2 n) ≡ some (pos n)
atoi-decimal2 n small =
    atoi_of_digits (decimal2 n) (decimal2_nonempty n) (decimal2-digits n)
      (rw (value-decimal2 n) small)
    ∙ ap (λ v. some (pos v)) (value-decimal2 n)
