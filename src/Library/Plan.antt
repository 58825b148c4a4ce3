-- ===== src/Library/Plan.antt =====
-- internal/library/library.go: that the plan of a disc has one place for each title, and that a link
-- replaces nothing.
use hellbox.Base.{
  ℕ, ◌+◌, ◌-◌, ◌*◌, ◌≡◌, refl, sym, ap, subst, ◌∙◌, Bool, true, false, List, [], ◌∷◌, ◌++◌, Option,
  none, some, some_inj, if◌then◌else◌, arith, inl, inr, ◌⊎◌, Bool-cases, All, In, length, drop,
  get_or, Text, codes, text_eq, text_eq_iff, ==_iff, is_digit, value_from, decimal2,
  decimal2-digits, value-decimal2, Unicode, sort_by,
}
use hellbox.Catalog.{Title, Disc}
use hellbox.Library.{Kind, movie, tv, unknown, longest_title}
use hellbox.Identity.{short}
use hellbox.Library.Naming.{
  name_of, Placement, by_index, numbered, is_feature, movie_elements, movie_placement, tv_placement,
  placements, plan, Files, file_at, Linked, linked, already_there, link_failed, link, link_steps,
}

-- The number at the start of a text.
read_number : ℕ → Text → ℕ
read_number n [] = n
read_number n (c ∷ s) = if is_digit c then read_number (n * 10 + (c - b'0')) s else n

read_number-digits :
    (n : ℕ) (s rest : Text)
    → All (λ c. is_digit c ≡ true) s
    → read_number n (s ++ (b'.' ∷ rest)) ≡ value_from n s
unfolding read_number
read_number-digits n [] rest h = refl
read_number-digits n (c ∷ s) rest h = rw h.0 (read_number-digits (n * 10 + (c - b'0')) s rest h.1)

append_cancel : (s : Text) {a b : Text} → s ++ a ≡ s ++ b → a ≡ b
append_cancel [] h = h
append_cancel (c ∷ s) h = append_cancel s (ap (drop 1) h)

numbered_inj : (stem : Text) (i j : ℕ) → numbered stem i ≡ numbered stem j → i ≡ j
unfolding numbered
numbered_inj stem i j h =
    let tails : decimal2 i ++ codes ".mkv" ≡ decimal2 j ++ codes ".mkv" =
      append_cancel (codes " - t") (append_cancel stem h) in
    sym (value-decimal2 i)
    ∙ sym (read_number-digits 0 (decimal2 i) (codes "mkv") (decimal2-digits i))
    ∙ ap (read_number 0) tails
    ∙ read_number-digits 0 (decimal2 j) (codes "mkv") (decimal2-digits j)
    ∙ value-decimal2 j

abbrev nth : ℕ → List Text → Text
nth n s = get_or s n []

elements_apart :
    (stem : Text) (i j : ℕ) (b c : Bool)
    → movie_elements stem i b ≡ movie_elements stem j c
    → ((b ≡ true) × (c ≡ true)) ⊎ (i ≡ j)
unfolding movie_elements
elements_apart stem i j true true h = inl (refl, refl)
elements_apart stem i j true false h = absurd (ground (arith, ap length h))
elements_apart stem i j false true h = absurd (ground (arith, ap length h))
elements_apart stem i j false false h = inr (numbered_inj stem i j (ap (nth 3) h))

feature_index : (o : Option ℕ) (i : ℕ) → is_feature o i ≡ true → o ≡ some i
feature_index none i e = absurd (cc)
feature_index (some b) i e = ap some (sym ((==_iff i b).0 e))

movie_apart :
    (stem : Text) (best : Option ℕ) (t v : Title)
    → (movie_placement stem best t).elements ≡ (movie_placement stem best v).elements
    → t.index ≡ v.index
unfolding movie_placement
movie_apart stem best t v h =
    elim (elements_apart stem t.index v.index (is_feature best t.index) (is_feature best v.index)
      h) [
        | inl (e, f) ↦ some_inj (sym (feature_index best t.index e) ∙ feature_index best v.index f)
        | inr same ↦ same
      ]

tv_apart :
    (stem print : Text) (t v : Title)
    → (tv_placement stem print t).elements ≡ (tv_placement stem print v).elements
    → t.index ≡ v.index
unfolding tv_placement
tv_apart stem print t v h =
    numbered_inj (stem ++ (codes " - " ++ print)) t.index v.index (ap (nth 2) h)

-- A placement of a plan is that of a title.
In-placements :
    (place : Title → Placement) (p : Placement) (ts : List Title)
    → In p (placements place ts)
    → (t : Title) × (p ≡ place t)
In-placements place p [] i = absurd i
In-placements place p (t ∷ ts) (inl same) = (t, same)
In-placements place p (t ∷ ts) (inr i) = In-placements place p ts i

placements_apart :
    (place : Title → Placement) (ts : List Title)
    → ((t v : Title) → (place t).elements ≡ (place v).elements → t.index ≡ v.index)
    → ((t : Title) → (place t).title_index ≡ t.index)
    → (p q : Placement) → In p (placements place ts)
    → In q (placements place ts)
    → p.elements ≡ q.elements
    → p.title_index ≡ q.title_index
placements_apart place ts apart index p q i j h =
    let (t, e) = In-placements place p ts i in
    let (v, f) = In-placements place q ts j in
    ap (λ (x : Placement). x.title_index) e
    ∙ index t
    ∙ apart t v
        (sym (ap (λ (x : Placement). x.elements) e) ∙ h ∙ ap (λ (x : Placement). x.elements) f)
    ∙ sym (index v)
    ∙ sym (ap (λ (x : Placement). x.title_index) f)

-- No two titles of a disc are planned for the same place in the library, whatever the disc is taken
-- for and whatever its label is.
pub plan_apart :
    (u : Unicode) (d : Disc) (kind : Kind) (p q : Placement)
    → In p (plan u d kind)
    → In q (plan u d kind)
    → p.elements ≡ q.elements
    → p.title_index ≡ q.title_index
unfolding plan movie_placement tv_placement
plan_apart u d movie =
    placements_apart _ (sort_by by_index d.titles)
      (movie_apart (name_of u d) (longest_title (sort_by by_index d.titles))) (λ t. refl)
plan_apart u d tv =
    placements_apart _ (sort_by by_index d.titles) (tv_apart (name_of u d) (short d.fingerprint))
      (λ t. refl)
plan_apart u d unknown =
    placements_apart _ (sort_by by_index d.titles) (tv_apart (name_of u d) (short d.fingerprint))
      (λ t. refl)

-- What a link makes of the files.
abbrev pub files_after : Files → Linked → Files
files_after fs (linked after) = after
files_after fs already_there = fs
files_after fs (link_failed e) = fs

linked_keeps :
    (path other : Text) (fs : Files) (n m : ℕ)
    → file_at path fs ≡ none
    → file_at other fs ≡ some n
    → file_at other ((path, m) ∷ fs) ≡ some n
unfolding file_at
linked_keeps path other fs n m free h = elim (Bool-cases (text_eq path other)) [
  | inl same ↦
      let e = (text_eq_iff path other).0 same in
      let free' : file_at other fs ≡ none = subst (λ x. file_at x fs ≡ none) e free in cc
  | inr differ ↦ rw differ h
]

steps_keep :
    (made : Option Text) (found : Option ℕ) (broken : Option Text) (file : Option ℕ) (fs : Files)
    (path other : Text) (n : ℕ)
    → file_at path fs ≡ found
    → file_at other fs ≡ some n
    → file_at other (files_after fs (link_steps made found broken file fs path)) ≡ some n
steps_keep (some e) found broken file fs path other n at h = h
steps_keep none (some m) broken file fs path other n at h = h
steps_keep none none (some e) file fs path other n at h = h
steps_keep none none none none fs path other n at h = h
steps_keep none none none (some m) fs path other n at h = linked_keeps path other fs n m at h

-- Linking a file into the library replaces nothing: every path that held a file holds it after.
pub link_keeps :
    (mkdir_error link_error : Text → Option Text) (fs : Files) (source path other : Text) (n : ℕ)
    → file_at other fs ≡ some n
    → file_at other (files_after fs (link mkdir_error link_error fs source path)) ≡ some n
unfolding link
link_keeps mkdir_error link_error fs source path other n h =
    steps_keep (mkdir_error path) (file_at path fs) (link_error path) (file_at source fs) fs path
      other n refl h
