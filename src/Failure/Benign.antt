-- ===== src/Failure/Benign.antt =====
-- internal/disc/failure.go: that harmless lines do not decide the group of a failure.
use hellbox.Base.{
  ◌≡◌, refl, sym, ap, ◌∙◌, Bool, true, false, List, [], ◌∷◌, ◌++◌, inl, inr, Bool-cases, All, Text,
  Unicode, ◌==◌, if◌then◌else◌, join_with, lower, has_part,
}
use hellbox.Failure.{
  FailureKind, other, is_benign, lines_of, onto_first, without_benign, strip_benign,
  classify_failure, failure_patterns, first_match,
}

-- Whether a text has no line feed.
abbrev pub is_line : Text → Bool
is_line [] = true
is_line (c ∷ s) = if c == 10 then false else is_line s

lines_of-line : (l : Text) → is_line l ≡ true → lines_of l ≡ l ∷ []
unfolding lines_of
lines_of-line [] h = refl
lines_of-line (c ∷ l) h = elim (Bool-cases (c == 10)) [
  | inl e ↦ cc (rw e at h)
  | inr e ↦ rw e (ap (onto_first c) (lines_of-line l (rw e at h)))
]

lines_of-append :
    (l rest : Text) → is_line l ≡ true → lines_of (l ++ (10 ∷ rest)) ≡ l ∷ lines_of rest
unfolding lines_of
lines_of-append [] rest h = refl
lines_of-append (c ∷ l) rest h = elim (Bool-cases (c == 10)) [
  | inl e ↦ cc (rw e at h)
  | inr e ↦ rw e (ap (onto_first c) (lines_of-append l rest (rw e at h)))
]

-- A message that is put together from lines has these lines.
lines_of-join :
    (l : Text) (ls : List Text)
    → All (λ x. is_line x ≡ true) (l ∷ ls)
    → lines_of (join_with 10 (l ∷ ls)) ≡ l ∷ ls
unfolding join_with
lines_of-join l [] h = lines_of-line l h.0
lines_of-join l (k ∷ ls) h =
    lines_of-append l (join_with 10 (k ∷ ls)) h.0 ∙ ap (λ r. l ∷ r) (lines_of-join k ls h.1)

-- Stripping a message that is put together from lines leaves out the harmless ones.
strip_benign-join :
    (u : Unicode) (ls : List Text)
    → All (λ x. is_line x ≡ true) ls
    → strip_benign u (join_with 10 ls) ≡ join_with 10 (without_benign u ls)
unfolding strip_benign is_benign lines_of join_with has_part
strip_benign-join u [] h = refl
strip_benign-join u (l ∷ ls) h = ap (λ x. join_with 10 (without_benign u x)) (lines_of-join l ls h)

without_noise :
    (u : Unicode) (xs ys : List Text) (noise : Text)
    → is_benign u noise ≡ true
    → without_benign u (xs ++ (noise ∷ ys)) ≡ without_benign u (xs ++ ys)
without_noise u [] ys noise h = rw h refl
without_noise u (x ∷ xs) ys noise h = elim (Bool-cases (is_benign u x)) [
  | inl e ↦ rw e (without_noise u xs ys noise h)
  | inr e ↦ rw e (ap (λ r. x ∷ r) (without_noise u xs ys noise h))
]

without-All :
    (u : Unicode) (ls : List Text) → All (λ x. is_benign u x ≡ true) ls → without_benign u ls ≡ []
without-All u [] h = refl
without-All u (l ∷ ls) h = rw h.0 (without-All u ls h.1)

lines_around :
    (xs ys : List Text) (noise : Text)
    → All (λ x. is_line x ≡ true) (xs ++ (noise ∷ ys))
    → All (λ x. is_line x ≡ true) (xs ++ ys)
lines_around [] ys noise h = h.1
lines_around (x ∷ xs) ys noise h = (h.0, lines_around xs ys noise h.1)

-- A harmless line does not change the group of a failure, wherever it stands in the message; and a
-- message of harmless lines alone is in no group.
pub noise_is_ignored :
    (u : Unicode) (xs ys : List Text) (noise : Text)
    → All (λ x. is_line x ≡ true) (xs ++ (noise ∷ ys))
    → is_benign u noise ≡ true
    → (classify_failure u (join_with 10 (xs ++ (noise ∷ ys)))
        ≡ classify_failure u (join_with 10 (xs ++ ys)))
      × (All (λ x. is_benign u x ≡ true) (xs ++ ys)
          → classify_failure u (join_with 10 (xs ++ (noise ∷ ys))) ≡ other)
unfolding classify_failure first_match has_part
noise_is_ignored u xs ys noise lines h =
    let stripped =
      strip_benign-join u (xs ++ (noise ∷ ys)) lines
      ∙ ap (join_with 10) (without_noise u xs ys noise h) in
    let group : Text → FailureKind = λ m. first_match failure_patterns (lower u m) in
    (
      ap group stripped
          ∙ ap group (sym (strip_benign-join u (xs ++ ys) (lines_around xs ys noise lines))),
      λ only. ap group (stripped ∙ ap (join_with 10) (without-All u (xs ++ ys) only)),
    )
