-- ===== src/Base/Bits.antt =====
-- Bits of native numbers: `bit_and` is non-zero exactly if the two numbers share a set bit.
use Prim.Native.Nat.{
  ℕ, zero, suc, ◌+◌, ◌*◌, ◌/◌, ◌%◌, ◌^◌, ◌≤◌, ◌<◌, min, bit_and, digits, bit_and-bitwise,
}
use mathlib.Core.Path.{◌≡◌, refl, sym, ap, ◌∙◌}
use mathlib.Core.Logic.{◌≢◌}
use mathlib.Core.Bool.{Bool, true, ◌&&◌}
use native.Mathlib.Nat.{div-div-eq-div-mul, pow-succ'}
use native.Mathlib.Decide.{ℕ_discrete}
use native.Mathlib.Omega.{arith}

-- Bit `i` of `a`, as 0 or 1.
abbrev pub bit : ℕ → ℕ → ℕ
bit a i = a / 2 ^ i % 2

pub bit-suc : (a i : ℕ) → bit a (suc i) ≡ bit (a / 2) i
bit-suc a i =
    ap (λ n. n % 2) (ap (λ p. a / p) (pow-succ' 2 i) ∙ sym (div-div-eq-div-mul a 2 (2 ^ i)))

-- Every value below a bound passes a test, by evaluation.
unfoldable pub every : ℕ → (ℕ → Bool) → Bool
every zero test = true
every (suc n) test = test n && every n test

pub every_sound : (n : ℕ) (test : ℕ → Bool) (x : ℕ) → every n test ≡ true → x < n → test x ≡ true
unfolding every
every_sound zero test x all h = absurd (omega arith)
every_sound (suc n) test x all h = ground (arith, every_sound n test x)

abbrev conjunction : ℕ → ℕ → ℕ → ℕ
conjunction count a b = digits (λ _. zero) min count a b

-- A larger count of digits changes nothing.
conjunction_count :
    (count more a b : ℕ) → a ≤ count → a ≤ more → conjunction count a b ≡ conjunction more a b
conjunction_count zero zero a b h k = refl
conjunction_count zero (suc more) zero b h k = refl
conjunction_count (suc count) zero zero b h k = refl
conjunction_count (suc count) (suc more) zero b h k = refl
conjunction_count (suc count) (suc more) (suc a) b h k =
    omega (arith, conjunction_count count more (suc a / 2) (b / 2) (omega arith) (omega arith))
conjunction_count zero (suc more) (suc a) b h k = absurd (omega arith)
conjunction_count _ zero (suc a) b h k = absurd (omega arith)

-- The conjunction, one digit at a time.
pub bit_and-halves : (a b : ℕ) → bit_and a b ≡ bit_and (a / 2) (b / 2) * 2 + min (a % 2) (b % 2)
bit_and-halves zero b = omega (arith, bit_and-bitwise 0 b, bit_and-bitwise 0 (b / 2))
bit_and-halves (suc a) b =
    let fewer = conjunction_count a (suc a / 2) (suc a / 2) (b / 2) (omega arith) (omega arith) in
    omega (arith, fewer, bit_and-bitwise (suc a) b, bit_and-bitwise (suc a / 2) (b / 2))

pub bit_and-shared : (i a b : ℕ) → bit a i ≡ 1 → bit b i ≡ 1 → bit_and a b ≢ 0
bit_and-shared zero a b p q e = omega (arith, bit_and-halves a b)
bit_and-shared (suc i) a b p q e =
    bit_and-shared i (a / 2) (b / 2) (sym (bit-suc a i) ∙ p) (sym (bit-suc b i) ∙ q)
      (omega (arith, bit_and-halves a b))

pub shared-bit_and :
    (n a b : ℕ) → a < 2 ^ n → bit_and a b ≢ 0 → (i : ℕ) × (i < n) × (bit a i ≡ 1) × (bit b i ≡ 1)
shared-bit_and zero a b h e = absurd (e (omega (arith, bit_and-bitwise 0 b, none_left)))
  where
    none_left : bit_and a b ≡ bit_and 0 b
    none_left = ap (λ (x : ℕ). bit_and x b) (omega arith)
shared-bit_and (suc n) a b h e = elim (ℕ_discrete (a % 2 + b % 2) 2) [
  | yes both ↦ (0, omega arith, omega arith, omega arith)
  | no lone ↦
      let size : 2 ^ suc n ≡ 2 * 2 ^ n = pow-succ' 2 n in
      let more : bit_and (a / 2) (b / 2) ≢ 0 = λ z. e (omega (arith, bit_and-halves a b)) in
      let (i, lt, p, q) = shared-bit_and n (a / 2) (b / 2) (omega arith) more in
      (suc i, omega arith, bit-suc a i ∙ p, bit-suc b i ∙ q)
]
