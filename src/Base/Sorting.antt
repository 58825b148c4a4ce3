-- ===== src/Base/Sorting.antt =====
-- Sorting by a Boolean test for what comes before, as `sort.Slice` and `ORDER BY` do where the test
-- tells all elements apart.
use mathlib.Core.Path.{◌≡◌}
use mathlib.Core.Bool.{Bool}
use mathlib.Core.List.{List, [], ◌∷◌}
use mathlib.Core.Logic.{◌⊎◌, inl, inr}
use hellbox.Base.Tests.{if◌then◌else◌, Bool-cases}
use hellbox.Base.Lists.{In, All}

module _ {A : Type 0} where
  unfoldable pub insert_by : (A → A → Bool) → A → List A → List A
  insert_by before x [] = x ∷ []
  insert_by before x (y ∷ ys) =
      let rest = insert_by before x ys in if before y x then y ∷ rest else x ∷ y ∷ ys

  unfoldable pub sort_by : (A → A → Bool) → List A → List A
  unfolding insert_by
  sort_by before [] = []
  sort_by before (x ∷ xs) = insert_by before x (sort_by before xs)

  pub In-insert_by :
      (before : A → A → Bool) (z x : A) (ys : List A)
      → (z ≡ x) ⊎ In z ys
      → In z (insert_by before x ys)
  unfolding insert_by
  In-insert_by before z x [] i = i
  In-insert_by before z x (y ∷ ys) i = elim (Bool-cases (before y x)) [
    | inr e ↦ rw e i
    | inl e ↦ rw e (elim i [
      | inl same ↦ inr (In-insert_by before z x ys (inl same))
      | inr (inl same) ↦ inl same
      | inr (inr j) ↦ inr (In-insert_by before z x ys (inr j))
    ])
  ]

  pub In-sort_by :
      (before : A → A → Bool) (z : A) (xs : List A) → In z xs → In z (sort_by before xs)
  unfolding sort_by
  In-sort_by before z [] i = i
  In-sort_by before z (x ∷ xs) (inl same) = In-insert_by before z x (sort_by before xs) (inl same)
  In-sort_by before z (x ∷ xs) (inr i) =
      In-insert_by before z x (sort_by before xs) (inr (In-sort_by before z xs i))

  pub All-insert_by {κ} :
      (P : A → Type κ) (before : A → A → Bool) (x : A) (ys : List A)
      → P x
      → All P ys
      → All P (insert_by before x ys)
  unfolding insert_by
  All-insert_by P before x [] p h = (p, tt)
  All-insert_by P before x (y ∷ ys) p h = elim (Bool-cases (before y x)) [
    | inl e ↦ rw e (h.0, All-insert_by P before x ys p h.1)
    | inr e ↦ rw e (p, h)
  ]

  pub All-sort_by {κ} :
      (P : A → Type κ) (before : A → A → Bool) (xs : List A) → All P xs → All P (sort_by before xs)
  unfolding sort_by
  All-sort_by P before [] h = tt
  All-sort_by P before (x ∷ xs) h =
      All-insert_by P before x (sort_by before xs) h.0 (All-sort_by P before xs h.1)
