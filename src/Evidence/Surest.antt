-- ===== src/Evidence/Surest.antt =====
-- internal/identify/identify.go: that the conclusion is as sure as each candidate.
use hellbox.Base.{
  ℕ, ◌≤◌, ◌≡◌, refl, sym, ap, ◌∙◌, true, ◌||◌, List, [], ◌∷◌, some, some_inj, arith, inl, inr, ◌⊎◌,
  Bool-cases, Option-cases, Unicode, Text, text_eq, text_eq_iff, any, only_right, length, In,
  filter-In, In-filter, All, All-map, In-All, All-filter, sort_by, insert_by, In-sort_by,
  All-sort_by, All-insert_by, ltb,
}
use hellbox.Evidence.{
  Candidate, key_of, order_from, group, surer, agreed, raised, detailed, with_details, merge_sorted,
  merge_group, merge_all, conclusion, resolve, distinct,
}

abbrev pub AtMost : ℕ → List Candidate → Type 0
AtMost n cs = All (λ c. c.confidence ≤ n) cs

-- No candidate of a list is surer than its first.
abbrev pub IsLed : List Candidate → Type 0
IsLed [] = Unit
IsLed (m ∷ ms) = AtMost m.confidence ms

insert-IsLed : (x : Candidate) (ys : List Candidate) → IsLed ys → IsLed (insert_by surer x ys)
unfolding insert_by
insert-IsLed x [] h = tt
insert-IsLed x (y ∷ ys) h = elim (Bool-cases (surer y x)) [
  | inl e ↦ rw e (All-insert_by (λ c. c.confidence ≤ y.confidence) surer x ys (ground arith) h)
  | inr e ↦
      let below : y.confidence ≤ x.confidence = ground arith in
      rw e (below, All-map ys (λ c k. omega arith) h)
]

sort-IsLed : (xs : List Candidate) → IsLed (sort_by surer xs)
unfolding sort_by
sort-IsLed [] = tt
sort-IsLed (x ∷ xs) = insert-IsLed x (sort_by surer xs) (sort-IsLed xs)

below_first :
    (c : Candidate) (ms : List Candidate)
    → IsLed ms
    → In c ms
    → c.confidence ≤ (conclusion ms).best.confidence
below_first c [] h i = absurd i
below_first c (m ∷ ms) h (inl same) = rw same (omega arith)
below_first c (m ∷ ms) h (inr i) = In-All (λ d. d.confidence ≤ m.confidence) c ms i h

detailed-confidence :
    (best : Candidate) (cs : List Candidate) → (detailed best cs).confidence ≡ best.confidence
unfolding detailed
detailed-confidence best [] = refl
detailed-confidence best (c ∷ cs) = detailed-confidence (with_details best c) cs

raised_least : (n nets : ℕ) → n ≤ 95 → n ≤ raised n nets
raised_least n nets h = ground arith

agreed_least :
    (best : Candidate) (g : List Candidate)
    → best.confidence ≤ 95
    → best.confidence ≤ (agreed best g).confidence
unfolding agreed
agreed_least best g h = elim (Bool-cases (ltb 1 (length (distinct [] g)))) [
  | inl e ↦ rw e (raised_least best.confidence (length (distinct [] g)) h)
  | inr e ↦ rw e (omega arith)
]

merge_sorted-least :
    (c : Candidate) (l : List Candidate)
    → IsLed l
    → AtMost 95 l
    → In c l
    → (m : Candidate) × (merge_sorted l ≡ some m) × (c.confidence ≤ m.confidence)
unfolding merge_sorted
merge_sorted-least c [] led most i = absurd i
merge_sorted-least c (best ∷ []) led most i = (best, refl, below_first c (best ∷ []) led i)
merge_sorted-least c (best ∷ d ∷ ds) led most i =
    let l = best ∷ d ∷ ds in
    let first : c.confidence ≤ best.confidence = below_first c l led i in
    let kept = detailed-confidence (agreed best l) (d ∷ ds) in
    let more = agreed_least best l most.0 in
    (detailed (agreed best l) (d ∷ ds), refl, rw kept (omega arith))

new_key :
    (k l : Text) (seen ks : List Text)
    → (text_eq k l || any (text_eq k) seen ≡ true) ⊎ In k ks
    → (any (text_eq k) seen ≡ true) ⊎ In k (l ∷ ks)
new_key k l seen ks (inr i) = inr (inr i)
new_key k l seen ks (inl h) = elim (Bool-cases (text_eq k l)) [
  | inl e ↦ inr (inl ((text_eq_iff k l).0 e))
  | inr e ↦ inl (rw e at h)
]

order-In :
    (u : Unicode) (seen : List Text) (cs : List Candidate) (c : Candidate)
    → In c cs
    → (any (text_eq (key_of u c)) seen ≡ true) ⊎ In (key_of u c) (order_from u seen cs)
unfolding order_from
order-In u seen [] c i = absurd i
order-In u seen (d ∷ ds) c (inl same) = elim (Bool-cases (any (text_eq (key_of u d)) seen)) [
  | inl e ↦ inl (ap (λ x. any (text_eq (key_of u x)) seen) same ∙ e)
  | inr e ↦ rw (e, order_from) (inr (inl (ap (key_of u) same)))
]
order-In u seen (d ∷ ds) c (inr i) = elim (Bool-cases (any (text_eq (key_of u d)) seen)) [
  | inl e ↦ rw (e, order_from) (order-In u seen ds c i)
  | inr e ↦
      rw (e, order_from)
        (new_key (key_of u c) (key_of u d) seen (order_from u (key_of u d ∷ seen) ds)
          (order-In u (key_of u d ∷ seen) ds c i))
]

merge_all-In :
    (u : Unicode) (cs : List Candidate) (ks : List Text) (k : Text) (m : Candidate)
    → In k ks
    → merge_group (group u cs k) ≡ some m
    → In m (merge_all u cs ks)
unfolding merge_all
merge_all-In u cs [] k m i e = absurd i
merge_all-In u cs (l ∷ ks) k m (inl same) e =
    rw (ap (λ x. merge_group (group u cs x)) (sym same) ∙ e, merge_all) (inl refl)
merge_all-In u cs (l ∷ ks) k m (inr i) e = elim (Option-cases (merge_group (group u cs l))) [
  | inl none_there ↦ rw (none_there, merge_all) (merge_all-In u cs ks k m i e)
  | inr (x, there) ↦ rw (there, merge_all) (inr (merge_all-In u cs ks k m i e))
]

-- The candidate stands for one of a list: it has its title.
abbrev pub Named : List Candidate → Candidate → Type 0
Named cs m = (d : Candidate) × In d cs × (m.title ≡ d.title)

detailed-title : (best : Candidate) (cs : List Candidate) → (detailed best cs).title ≡ best.title
unfolding detailed
detailed-title best [] = refl
detailed-title best (c ∷ cs) = detailed-title (with_details best c) cs

agreed-title : (best : Candidate) (g : List Candidate) → (agreed best g).title ≡ best.title
unfolding agreed
agreed-title best g = elim (Bool-cases (ltb 1 (length (distinct [] g)))) [
  | inl e ↦ rw e refl
  | inr e ↦ rw e refl
]

merge_sorted-Named :
    (cs l : List Candidate) (m : Candidate)
    → All (λ c. In c cs) l
    → merge_sorted l ≡ some m
    → Named cs m
unfolding merge_sorted
merge_sorted-Named cs [] m h e = absurd (cc)
merge_sorted-Named cs (best ∷ []) m h e = (best, h.0, ap (λ x. x.title) (sym (some_inj e)))
merge_sorted-Named cs (best ∷ d ∷ ds) m h e =
    let l = best ∷ d ∷ ds in
    (
      best,
      h.0,
      ap (λ x. x.title) (sym (some_inj e))
          ∙ detailed-title (agreed best l) (d ∷ ds)
          ∙ agreed-title best l,
    )

members : (cs ds : List Candidate) → ((c : Candidate) → In c ds → In c cs) → All (λ c. In c cs) ds
members cs [] f = tt
members cs (d ∷ ds) f = (f d (inl refl), members cs ds (λ c i. f c (inr i)))

merge_all-Named :
    (u : Unicode) (cs : List Candidate) (ks : List Text) → All (Named cs) (merge_all u cs ks)
unfolding merge_all
merge_all-Named u cs [] = tt
merge_all-Named u cs (k ∷ ks) =
    let g = group u cs k in
    let of_group : All (λ c. In c cs) g =
      members cs g (λ c i. (In-filter (λ d. text_eq (key_of u d) k) c cs i).0) in
    elim (Option-cases (merge_group g)) [
      | inl e ↦ rw (e, merge_all) (merge_all-Named u cs ks)
      | inr (m, e) ↦
          rw (e, merge_all)
            (
              merge_sorted-Named cs (sort_by surer g) m
                  (All-sort_by (λ c. In c cs) surer g of_group) e,
              merge_all-Named u cs ks,
            )
    ]

first_has :
    (P : Candidate → Type 0) (c : Candidate) (ms : List Candidate)
    → In c ms
    → All P ms
    → P (conclusion ms).best
first_has P c [] i h = absurd i
first_has P c (m ∷ ms) i h = h.0

-- If no candidate is surer than the ceiling of 95 hundredths that agreement has, then none is surer than the
-- best of the conclusion, however many nets agree on another; and the title of the best is that of a
-- candidate.
pub best_is_surest :
    (u : Unicode) (cs : List Candidate)
    → AtMost 95 cs
    → (c : Candidate) → In c cs
    → (c.confidence ≤ (resolve u cs).best.confidence) × Named cs (resolve u cs).best
unfolding resolve
best_is_surest u cs h c i =
    let k = key_of u c in
    let g = group u cs k in
    let mine : In c g = filter-In (λ d. text_eq (key_of u d) k) c cs ((text_eq_iff k k).1 refl) i in
    let here = In-sort_by surer c g mine in
    let most : AtMost 95 (sort_by surer g) =
      All-sort_by (λ d. d.confidence ≤ 95) surer g
        (All-map g (λ d both. both.0)
          (All-filter (λ d. d.confidence ≤ 95) (λ d. text_eq (key_of u d) k) cs h)) in
    let (m, e, least) = merge_sorted-least c (sort_by surer g) (sort-IsLed g) most here in
    let merged = merge_all u cs (order_from u [] cs) in
    let found : In m merged =
      merge_all-In u cs (order_from u [] cs) k m (only_right (order-In u [] cs c i)) e in
    let kept = In-sort_by surer m merged found in
    let below = below_first m (sort_by surer merged) (sort-IsLed merged) kept in
    (
      omega arith,
      first_has (Named cs) m (sort_by surer merged) kept
          (All-sort_by (Named cs) surer merged (merge_all-Named u cs (order_from u [] cs))),
    )
