-- ===== src/BluRay/Content.antt =====
-- internal/bluray/bluray.go: which playlists a Blu-ray is taken to hold.
use hellbox.Base.{
  ℕ, ◌≡◌, refl, ap, ◌∙◌, Bool, true, false, ◌||◌, List, [], ◌∷◌, arith, inl, inr, ◌⊎◌, Bool-cases,
  only_right, filter, any, In, filter-In, All, All-map, sort_by, In-sort_by, All-sort_by,
}
use hellbox.BluRay.{
  Playlist, Info, threshold, is_real, by_file, same_layout, dedupe_from, dedupe, content,
}

-- No two playlists of a list have the same layout.
abbrev pub AllApart : List Playlist → Type 0
AllApart [] = Unit
AllApart (p ∷ ps) = All (λ q. same_layout q p ≡ false) ps × AllApart ps

or_false : (a b : Bool) → (a || b) ≡ false → (a ≡ false) × (b ≡ false)
or_false a b h = ground arith

-- What the loop keeps has what all of the list have, and a layout not seen before.
dedupe-All :
    (P : Playlist → Type 0) (seen ps : List Playlist)
    → All P ps
    → All (λ q. P q × (any (same_layout q) seen ≡ false)) (dedupe_from seen ps)
unfolding dedupe_from
dedupe-All P seen [] h = tt
dedupe-All P seen (p ∷ ps) h = elim (Bool-cases (any (same_layout p) seen)) [
  | inl e ↦ rw (e, dedupe_from) (dedupe-All P seen ps h.1)
  | inr e ↦
      rw (e, dedupe_from)
        (
          (h.0, e),
          All-map (dedupe_from (p ∷ seen) ps)
              (λ q k. (k.0, (or_false (same_layout q p) (any (same_layout q) seen) k.1).1))
              (dedupe-All P (p ∷ seen) ps h.1),
        )
]

abbrev Anything : Playlist → Type 0
Anything p = Unit

All-units : (ps : List Playlist) → All Anything ps
All-units [] = tt
All-units (p ∷ ps) = (tt, All-units ps)

dedupe-AllApart : (seen ps : List Playlist) → AllApart (dedupe_from seen ps)
unfolding dedupe_from
dedupe-AllApart seen [] = tt
dedupe-AllApart seen (p ∷ ps) = elim (Bool-cases (any (same_layout p) seen)) [
  | inl e ↦ rw (e, dedupe_from) (dedupe-AllApart seen ps)
  | inr e ↦
      rw (e, dedupe_from)
        (
          All-map (dedupe_from (p ∷ seen) ps)
              (λ q k. (or_false (same_layout q p) (any (same_layout q) seen) k.1).0)
              (dedupe-All Anything (p ∷ seen) ps (All-units ps)),
          dedupe-AllApart (p ∷ seen) ps,
        )
]

-- A playlist of the same layout that is kept.
abbrev pub Kept : Playlist → List Playlist → Type 0
Kept x kept = (q : Playlist) × In q kept × (same_layout x q ≡ true)

same_layout_refl : (p : Playlist) → same_layout p p ≡ true
same_layout_refl p = ground arith

later-Kept :
    (x p : Playlist) (kept seen : List Playlist)
    → (same_layout x p || any (same_layout x) seen ≡ true) ⊎ Kept x kept
    → (any (same_layout x) seen ≡ true) ⊎ Kept x (p ∷ kept)
later-Kept x p kept seen (inr (q, i, e)) = inr (q, inr i, e)
later-Kept x p kept seen (inl h) = elim (Bool-cases (same_layout x p)) [
  | inl e ↦ inr (p, inl refl, e)
  | inr e ↦ inl (ground arith)
]

dedupe-Kept :
    (seen ps : List Playlist) (x : Playlist)
    → In x ps
    → (any (same_layout x) seen ≡ true) ⊎ Kept x (dedupe_from seen ps)
unfolding dedupe_from
dedupe-Kept seen [] x i = absurd i
dedupe-Kept seen (p ∷ ps) x (inl same) = elim (Bool-cases (any (same_layout p) seen)) [
  | inl e ↦ inl (ap (λ y. any (same_layout y) seen) same ∙ e)
  | inr e ↦
      rw (e, dedupe_from) (inr (p, inl refl, ap (λ y. same_layout y p) same ∙ same_layout_refl p))
]
dedupe-Kept seen (p ∷ ps) x (inr i) = elim (Bool-cases (any (same_layout p) seen)) [
  | inl e ↦ rw (e, dedupe_from) (dedupe-Kept seen ps x i)
  | inr e ↦
      rw (e, dedupe_from)
        (later-Kept x p (dedupe_from (p ∷ seen) ps) seen (dedupe-Kept (p ∷ seen) ps x i))
]

filter_passes : (p : Playlist → Bool) (xs : List Playlist) → All (λ x. p x ≡ true) (filter p xs)
filter_passes p [] = tt
filter_passes p (x ∷ xs) = elim (Bool-cases (p x)) [
  | inl e ↦ rw e (e, filter_passes p xs)
  | inr e ↦ rw e (filter_passes p xs)
]

-- The content of a Blu-ray is one playlist of each layout that a real one has: every playlist kept runs
-- for the threshold and has a track of audio, no two kept have the same layout, and every real one of
-- the disc has the layout of one that is kept.
pub content-is_real :
    (info : Info) (min_secs : ℕ)
    → All (λ p. is_real (threshold min_secs) p ≡ true) (content info min_secs)
      × AllApart (content info min_secs)
      × ((p : Playlist)
          → In p info.playlists
          → is_real (threshold min_secs) p ≡ true
          → (q : Playlist) × In q (content info min_secs) × (same_layout p q ≡ true))
unfolding content
content-is_real info min_secs =
    let real = filter (is_real (threshold min_secs)) info.playlists in
    let sorted = sort_by by_file real in
    (
      All-map (dedupe sorted) (λ q k. k.0)
          (dedupe-All (λ p. is_real (threshold min_secs) p ≡ true) [] sorted
            (All-sort_by (λ p. is_real (threshold min_secs) p ≡ true) by_file real
              (filter_passes (is_real (threshold min_secs)) info.playlists))),
      dedupe-AllApart [] sorted,
      λ p i r. only_right (
          dedupe-Kept [] sorted p (
            In-sort_by by_file p real
              (filter-In (is_real (threshold min_secs)) p info.playlists r i))),
    )
