-- ===== src/Identity/Names.antt =====
-- internal/disc/disc.go: that a slug is a safe name.
use hellbox.Base.{
  ℕ, zero, suc, ◌≡◌, ◌≤◌, refl, Bool, true, false, ◌||◌, [], ◌∷◌, ltb, ◌==◌, arith, inl, inr,
  Bool-cases, All, length, take, length-take, Text, Unicode, lower, trim_space,
}
use hellbox.Identity.{
  is_slug_char, slug_from, trim_left_dashes, trim_right_dashes, trim_dashes, slug, before_trimmed,
}

-- Lower-case letters, digits and dashes.
abbrev pub is_name_char : ℕ → Bool
is_name_char c = is_slug_char c || c == b'-'

abbrev pub ends_in_dash : Text → Bool
ends_in_dash [] = false
ends_in_dash (c ∷ []) = c == b'-'
ends_in_dash (c ∷ d ∷ s) = ends_in_dash (d ∷ s)

abbrev pub starts_with_dash : Text → Bool
starts_with_dash [] = false
starts_with_dash (c ∷ s) = c == b'-'

abbrev Safe : Text → Type 0
Safe s = All (λ c. is_name_char c ≡ true) s

slug_from-Safe : (b : Bool) (s : Text) → Safe (slug_from b s)
unfolding slug_from
slug_from-Safe b [] = tt
slug_from-Safe true (c ∷ s) = elim (Bool-cases (is_slug_char c)) [
  | inl e ↦ rw (e, slug_from) (ground (arith, e), slug_from-Safe false s)
  | inr e ↦ rw (e, slug_from) (slug_from-Safe true s)
]
slug_from-Safe false (c ∷ s) = elim (Bool-cases (is_slug_char c)) [
  | inl e ↦ rw (e, slug_from) (ground (arith, e), slug_from-Safe false s)
  | inr e ↦ rw (e, slug_from) (refl, slug_from-Safe true s)
]

left-Safe : (s : Text) → Safe s → Safe (trim_left_dashes s)
unfolding trim_left_dashes
left-Safe [] h = tt
left-Safe (c ∷ s) h = ground (arith, left-Safe s h.1)

left-start : (s : Text) → starts_with_dash (trim_left_dashes s) ≡ false
unfolding trim_left_dashes
left-start [] = refl
left-start (c ∷ s) = ground (arith, left-start s)

left-length : (s : Text) → length (trim_left_dashes s) ≤ length s
unfolding trim_left_dashes
left-length [] = omega arith
left-length (c ∷ s) = ground (arith, left-length s)

before-Safe : (c : ℕ) (s : Text) → is_name_char c ≡ true → Safe s → Safe (before_trimmed c s)
before-Safe c [] e h = ground (arith, e)
before-Safe c (d ∷ s) e h = (e, h)

right-Safe : (s : Text) → Safe s → Safe (trim_right_dashes s)
unfolding trim_right_dashes
right-Safe [] h = tt
right-Safe (c ∷ s) h = before-Safe c (trim_right_dashes s) h.0 (right-Safe s h.1)

before-end : (c : ℕ) (s : Text) → ends_in_dash s ≡ false → ends_in_dash (before_trimmed c s) ≡ false
before-end c [] h = ground arith
before-end c (d ∷ s) h = h

right-end : (s : Text) → ends_in_dash (trim_right_dashes s) ≡ false
unfolding trim_right_dashes
right-end [] = refl
right-end (c ∷ s) = before-end c (trim_right_dashes s) (right-end s)

before-start :
    (c : ℕ) (s : Text) → (c == b'-') ≡ false → starts_with_dash (before_trimmed c s) ≡ false
before-start c [] h = ground (arith, h)
before-start c (d ∷ s) h = h

right-start :
    (s : Text) → starts_with_dash s ≡ false → starts_with_dash (trim_right_dashes s) ≡ false
unfolding trim_right_dashes
right-start [] h = refl
right-start (c ∷ s) h = before-start c (trim_right_dashes s) h

before-length : (c : ℕ) (s : Text) → length (before_trimmed c s) ≤ suc (length s)
before-length c [] = ground arith
before-length c (d ∷ s) = omega arith

right-length : (s : Text) → length (trim_right_dashes s) ≤ length s
unfolding trim_right_dashes
right-length [] = omega arith
right-length (c ∷ s) = omega (arith, before-length c (trim_right_dashes s), right-length s)

take-Safe : (n : ℕ) (s : Text) → Safe s → Safe (take n s)
take-Safe zero s h = tt
take-Safe (suc n) [] h = tt
take-Safe (suc n) (c ∷ s) h = (h.0, take-Safe n s h.1)

-- What a trimmed text has, at most as long as before.
abbrev Trimmed : ℕ → Text → Type 0
Trimmed n s = Safe s × (starts_with_dash s ≡ false) × (ends_in_dash s ≡ false) × (length s ≤ n)

trimmed : (s : Text) → Safe s → Trimmed (length s) (trim_dashes s)
trimmed s h = (
  right-Safe (trim_left_dashes s) (left-Safe s h),
  right-start (trim_left_dashes s) (left-start s),
  right-end (trim_left_dashes s),
  omega (arith, left-length s, right-length (trim_left_dashes s)),
)

-- A slug is a name that any file system takes, whatever the label is: at most forty characters, each a
-- lower-case letter of ASCII, a digit or a dash, and no dash at either end.
pub slug_is_safe :
    (u : Unicode) (s : Text)
    → All (λ c. is_name_char c ≡ true) (slug u s)
      × (starts_with_dash (slug u s) ≡ false)
      × (ends_in_dash (slug u s) ≡ false)
      × (length (slug u s) ≤ 40)
unfolding slug
slug_is_safe u s =
    let whole = slug_from true (lower u (trim_space u s)) in
    let (safe, start, end, _) = trimmed whole (slug_from-Safe true (lower u (trim_space u s))) in
    elim (Bool-cases (ltb 40 (length (trim_dashes whole)))) [
      | inr short ↦ rw short (safe, start, end, ground (arith, short))
      | inl long ↦
          let kept = take 40 (trim_dashes whole) in
          let (safe', start', end', bound) = trimmed kept (take-Safe 40 (trim_dashes whole) safe) in
          rw long (
            safe',
            start',
            end',
            omega (arith, bound, length-take 40 (trim_dashes whole) (ground (arith, long))),
          )
    ]
