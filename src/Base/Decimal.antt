-- ===== src/Base/Decimal.antt =====
-- Decimal numbers as `%d` and `%02d` of fmt print them, and the number that digits spell.
use Prim.Native.Nat.{ℕ, zero, suc, ◌+◌, ◌-◌, ◌*◌, ◌/◌, ◌%◌, ◌≤◌}
use mathlib.Core.Path.{◌≡◌, ap, ◌∙◌}
use mathlib.Core.Bool.{Bool, true, ◌&&◌}
use mathlib.Core.List.{[], ◌∷◌}
use mathlib.Core.Logic.{inl, inr, ◌≢◌}
use native.Mathlib.Omega.{arith}
use hellbox.Base.Tests.{ltb, leb, ◌==◌, if◌then◌else◌, Bool-cases}
use hellbox.Base.Texts.{Text}
use hellbox.Base.Lists.{All}

-- The digits of a number, before those already printed; as many rounds as the number are enough.
unfoldable pub digits_from : ℕ → ℕ → Text → Text
digits_from zero n out = out
digits_from (suc f) n out =
    let rest = digits_from f (n / 10) ((b'0' + n % 10) ∷ out) in if n == 0 then out else rest

-- `%d`
unfoldable pub decimal : ℕ → Text
unfolding digits_from
decimal n = if n == 0 then b'0' ∷ [] else digits_from n n []

-- `%02d`
unfoldable pub decimal2 : ℕ → Text
decimal2 n = if ltb n 10 then b'0' ∷ decimal n else decimal n

-- The number that digits spell after a number.
abbrev pub value_from : ℕ → Text → ℕ
value_from n [] = n
value_from n (c ∷ s) = value_from (n * 10 + (c - b'0')) s

abbrev pub is_digit : ℕ → Bool
is_digit c = leb b'0' c && leb c b'9'

digits_from-value :
    (f n : ℕ) (out : Text) → n ≤ f → value_from 0 (digits_from f n out) ≡ value_from n out
unfolding digits_from
digits_from-value zero n out h = ap (λ k. value_from k out) (omega arith)
digits_from-value (suc f) n out h = elim (Bool-cases (n == 0)) [
  | inl e ↦ rw e (ap (λ k. value_from k out) (ground arith))
  | inr e ↦ rw e (
      digits_from-value f (n / 10) ((b'0' + n % 10) ∷ out) (ground arith)
      ∙ ap (λ k. value_from k out) (omega arith))
]

pub value-decimal : (n : ℕ) → value_from 0 (decimal n) ≡ n
unfolding decimal
value-decimal n = ground (arith, digits_from-value n n [])

pub value-decimal2 : (n : ℕ) → value_from 0 (decimal2 n) ≡ n
unfolding decimal2
value-decimal2 n = ground (arith, value-decimal n)

digits_from-digits :
    (f n : ℕ) (out : Text)
    → All (λ c. is_digit c ≡ true) out
    → All (λ c. is_digit c ≡ true) (digits_from f n out)
unfolding digits_from
digits_from-digits zero n out h = h
digits_from-digits (suc f) n out h =
    ground (arith, digits_from-digits f (n / 10) ((b'0' + n % 10) ∷ out))

pub decimal-digits : (n : ℕ) → All (λ c. is_digit c ≡ true) (decimal n)
unfolding decimal
decimal-digits n = ground (arith, digits_from-digits n n [])

pub decimal2-digits : (n : ℕ) → All (λ c. is_digit c ≡ true) (decimal2 n)
unfolding decimal2
decimal2-digits n = ground (arith, decimal-digits n)

pub decimal_nonempty : (n : ℕ) → decimal n ≢ []
unfolding decimal
decimal_nonempty n e = elim (Bool-cases (n == 0)) [
  | inl z ↦ cc (rw z at e)
  | inr nz ↦
      ground (arith, ap (λ s. value_from 0 s) (rw nz at e), digits_from-value n n [] (omega arith))
]

pub decimal2_nonempty : (n : ℕ) → decimal2 n ≢ []
unfolding decimal2
decimal2_nonempty n = ground (arith, decimal_nonempty n)
