-- ===== src/MakeMkv/Durations.antt =====
-- internal/makemkv/robot.go: that `ParseDuration` reads a running time back, and the bounds of the
-- fraction that is reported.
use hellbox.Base.{
  ℕ, zero, suc, ◌+◌, ◌*◌, ◌%◌, ◌^◌, ◌≤◌, ◌<◌, true, false, ◌||◌, List, [], ◌∷◌, ◌++◌, some, ◌==◌,
  Text, ◌≡◌, refl, ap, ◌∙◌, arith, Bool-cases, inl, inr, All, All-append, All-map, ℤ, pos, negsuc,
  int64, atoi, atoi-decimal, atoi-decimal2, decimal, decimal2, decimal-digits, decimal2-digits,
  is_digit, Unicode, trim_left, trim_right, trim_space,
}
use hellbox.MakeMkv.Lines.{
  split_on, add_parts, parse_duration, Progress, fraction, bounded_quotient,
}

-- `H:MM:SS`
abbrev pub clock_text : ℕ → ℕ → ℕ → Text
clock_text h m s = decimal h ++ (b':' ∷ (decimal2 m ++ (b':' ∷ decimal2 s)))

-- Neither a digit nor a colon is a space.
abbrev pub ClockIsDense : Unicode → Type 0
ClockIsDense u = (c : ℕ) → (is_digit c || c == b':') ≡ true → u.is_space c ≡ false

abbrev Dense : Unicode → Text → Type 0
Dense u s = All (λ c. u.is_space c ≡ false) s

trim_right-Dense : (u : Unicode) (s : Text) → Dense u s → trim_right u s ≡ s
unfolding trim_right
trim_right-Dense u [] h = refl
trim_right-Dense u (c ∷ []) h = ground (arith, h.0)
trim_right-Dense u (c ∷ d ∷ s) h = rw (trim_right-Dense u (d ∷ s) h.1) refl

trim_left-Dense : (u : Unicode) (s : Text) → Dense u s → trim_left u s ≡ s
unfolding trim_left
trim_left-Dense u [] h = refl
trim_left-Dense u (c ∷ s) h = ground (arith, h.0)

trim_space-Dense : (u : Unicode) (s : Text) → Dense u s → trim_space u s ≡ s
unfolding trim_space
trim_space-Dense u s h = ap (trim_left u) (trim_right-Dense u s h) ∙ trim_left-Dense u s h

digits-Dense :
    (u : Unicode) (s : Text) → ClockIsDense u → All (λ c. is_digit c ≡ true) s → Dense u s
digits-Dense u s d h = All-map s (λ c e. d c (ground arith)) h

clock-Dense : (u : Unicode) (h m s : ℕ) → ClockIsDense u → Dense u (clock_text h m s)
clock-Dense u h m s d =
    All-append (λ c. u.is_space c ≡ false) (decimal h) (b':' ∷ (decimal2 m ++ (b':' ∷ decimal2 s)))
      (digits-Dense u (decimal h) d (decimal-digits h))
      (
        d b':' refl,
        All-append (λ c. u.is_space c ≡ false) (decimal2 m) (b':' ∷ decimal2 s)
            (digits-Dense u (decimal2 m) d (decimal2-digits m))
            (d b':' refl, digits-Dense u (decimal2 s) d (decimal2-digits s)),
      )

split_on_digits : (s : Text) → All (λ c. is_digit c ≡ true) s → split_on b':' s ≡ s ∷ []
unfolding split_on
split_on_digits [] h = refl
split_on_digits (c ∷ s) h = rw (split_on_digits s h.1) (ground (arith, h.0))

split_on_parts : (s : Text) → (p : Text) × (ps : List Text) × (split_on b':' s ≡ p ∷ ps)
unfolding split_on
split_on_parts [] = ([], [], refl)
split_on_parts (c ∷ s) =
    let (p, ps, e) = split_on_parts s in
    elim (Bool-cases (c == b':')) [
      | inl same ↦ ([], p ∷ ps, rw (e, same) refl)
      | inr other ↦ (c ∷ p, ps, rw (e, other) refl)
    ]

split_on-append :
    (s t : Text)
    → All (λ c. is_digit c ≡ true) s
    → split_on b':' (s ++ b':' ∷ t) ≡ s ∷ split_on b':' t
unfolding split_on
split_on-append [] t h = let (p, ps, e) = split_on_parts t in rw e refl
split_on-append (c ∷ s) t h = rw (split_on-append s t h.1) (ground (arith, h.0))

split_clock :
    (h m s : ℕ) → split_on b':' (clock_text h m s) ≡ decimal h ∷ decimal2 m ∷ decimal2 s ∷ []
split_clock h m s =
    split_on-append (decimal h) (decimal2 m ++ (b':' ∷ decimal2 s)) (decimal-digits h)
    ∙ ap (λ r. decimal h ∷ r)
        (split_on-append (decimal2 m) (decimal2 s) (decimal2-digits m)
          ∙ ap (λ r. decimal2 m ∷ r) (split_on_digits (decimal2 s) (decimal2-digits s)))

add_part_of :
    (total v : ℕ) (p : Text) (ps : List Text)
    → atoi p ≡ some (pos v)
    → total * 60 + v < 2 ^ 64
    → add_parts total (p ∷ ps) ≡ add_parts (total * 60 + v) ps
unfolding add_parts
add_part_of total v p ps e small =
    let kept : (total * 60 + v) % 2 ^ 64 ≡ total * 60 + v = omega arith in
    rw (e, add_parts) (ap (λ n. add_parts n ps) kept)

add_clock :
    (h m s : ℕ)
    → h * 3600 + m * 60 + s < 2 ^ 63
    → add_parts 0 (decimal h ∷ decimal2 m ∷ decimal2 s ∷ []) ≡ some (h * 3600 + m * 60 + s)
unfolding add_parts
add_clock h m s small =
    add_part_of 0 h (decimal h) (decimal2 m ∷ decimal2 s ∷ []) (atoi-decimal h (omega arith))
      (omega arith)
    ∙ add_part_of (0 * 60 + h) m (decimal2 m) (decimal2 s ∷ []) (atoi-decimal2 m (omega arith))
        (omega arith)
    ∙ add_part_of ((0 * 60 + h) * 60 + m) s (decimal2 s) [] (atoi-decimal2 s (omega arith))
        (omega arith)
    ∙ ap some (omega arith)

int64_small : (n : ℕ) → n < 2 ^ 63 → int64 n ≡ pos n
unfolding int64
int64_small n h = let e : n % 2 ^ 64 ≡ n = omega arith in rw e (ground arith)

-- A running time written `H:MM:SS` is read back as its seconds, when they fit in an int and neither a
-- digit nor a colon counts as a space.
pub parse_duration-clock_text :
    (u : Unicode) (h m s : ℕ)
    → ClockIsDense u
    → h * 3600 + m * 60 + s < 2 ^ 63
    → parse_duration u (clock_text h m s) ≡ pos (h * 3600 + m * 60 + s)
unfolding parse_duration
parse_duration-clock_text u h m s d small =
    rw
      (
        trim_space-Dense u (clock_text h m s) (clock-Dense u h m s d),
        split_clock h m s,
        add_clock h m s small,
      )
      (int64_small (h * 3600 + m * 60 + s) small)

quotient_bounds :
    (t m : ℤ)
    → (0 < (bounded_quotient t m).1) × ((bounded_quotient t m).0 ≤ (bounded_quotient t m).1)
unfolding bounded_quotient
quotient_bounds t (negsuc m) = (omega arith, omega arith)
quotient_bounds t (pos zero) = (omega arith, omega arith)
quotient_bounds (negsuc t) (pos (suc m)) = (omega arith, omega arith)
quotient_bounds (pos t) (pos (suc m)) = ground arith

-- The fraction reported of a rip lies between 0 and 1, whatever integers the line has.
pub fraction_bounds : (p : Progress) → (0 < (fraction p).1) × ((fraction p).0 ≤ (fraction p).1)
unfolding fraction bounded_quotient
fraction_bounds p = ground (arith, quotient_bounds p.total_val p.max)
