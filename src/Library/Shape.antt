-- ===== src/Library/Shape.antt =====
-- internal/library/library.go: the rules by which a disc is told to be a film or episodes.
use hellbox.Base.{
  inl, inr, ◌⊎◌, In, All, ltb→lt, some, some_inj, ℕ, ◌≤◌, ◌<◌, ◌≡◌, refl, ◌∙◌, ap, Bool, true, ◌&&◌,
  List, [], ◌∷◌, arith, ltb, leb, length, filter, Bool-cases,
}
use mathlib.Core.List.{Permᴰ}
use hellbox.Catalog.{Title}
use hellbox.Library.{
  movie, tv, durations, insert, sort_down, median, within_spread, is_alike, looks_like_episodes,
  classify_sorted, longest_from, longest_title, classify, min_feature_secs, min_episode_secs,
}

insert_comm : (x y : ℕ) (zs : List ℕ) → insert x (insert y zs) ≡ insert y (insert x zs)
unfolding insert
insert_comm x y [] = ground arith
insert_comm x y (z ∷ zs) = ground (arith, insert_comm x y zs)

sort_down-swap : (x y : ℕ) (zs : List ℕ) → sort_down (x ∷ y ∷ zs) ≡ sort_down (y ∷ x ∷ zs)
unfolding sort_down
sort_down-swap x y zs = insert_comm x y (sort_down zs)

-- How many of the numbers pass a test does not depend on their order.
length-filter-insert :
    (p : ℕ → Bool) (x : ℕ) (xs : List ℕ)
    → length (filter p (insert x xs)) ≡ length (filter p (x ∷ xs))
unfolding insert
length-filter-insert p x [] = refl
length-filter-insert p x (y ∷ ys) = ground (arith, length-filter-insert p x ys)

length-filter-sort_down :
    (p : ℕ → Bool) (xs : List ℕ) → length (filter p (sort_down xs)) ≡ length (filter p xs)
unfolding sort_down
length-filter-sort_down p [] = refl
length-filter-sort_down p (x ∷ xs) =
    ground (arith, length-filter-insert p x (sort_down xs), length-filter-sort_down p xs)

sort_down-perm :
    {ts us : List Title} → Permᴰ ts us → sort_down (durations ts) ≡ sort_down (durations us)
unfolding sort_down
sort_down-perm Permᴰ.nil = refl
sort_down-perm (Permᴰ.cons {l₁ = l} {l₂ = m} e d) =
    ap (λ (t : Title). insert t.duration_secs (sort_down (durations l))) e
    ∙ ap (insert _) (sort_down-perm d)
sort_down-perm (Permᴰ.swap {a = a} {b = b} {a' = a'} {l = l} e f) =
    insert_comm a.duration_secs b.duration_secs (sort_down (durations l))
    ∙ ap (λ (t : Title). insert t.duration_secs (insert a.duration_secs (sort_down (durations l))))
        f
    ∙ ap (λ (t : Title). insert a'.duration_secs (insert t.duration_secs (sort_down (durations l))))
        e
sort_down-perm (Permᴰ.trans d f) = sort_down-perm d ∙ sort_down-perm f

-- The order in which a disc's titles are listed does not change what it is taken for.
pub classify_perm : (ts us : List Title) → Permᴰ ts us → classify ts ≡ classify us
unfolding classify
classify_perm ts us d = ap classify_sorted (sort_down-perm d)

-- A running time that an episode may have: from ten minutes to a quarter more than ninety.
unfoldable pub is_episode : ℕ → Bool
is_episode d = leb min_episode_secs d && leb d 6750

filter_le :
    (p q : ℕ → Bool) (xs : List ℕ)
    → ((x : ℕ) → p x ≡ true → q x ≡ true)
    → length (filter p xs) ≤ length (filter q xs)
filter_le p q [] h = omega arith
filter_le p q (x ∷ xs) h = ground (arith, h x, filter_le p q xs h)

alike-episode : (middle d : ℕ) → middle ≤ 5400 → is_alike middle d ≡ true → is_episode d ≡ true
unfolding is_alike within_spread is_episode
alike-episode middle d b h = ground arith

episodes_alike :
    (ds : List ℕ)
    → looks_like_episodes ds ≡ true
    → (median ds ≤ 5400) × (2 ≤ length (filter (is_alike (median ds)) ds))
unfolding looks_like_episodes
episodes_alike ds h = ground arith

episodes_count : (ds : List ℕ) → looks_like_episodes ds ≡ true → 2 ≤ length (filter is_episode ds)
episodes_count ds h =
    let (b, two) = episodes_alike ds h in
    let more =
      filter_le (is_alike (median ds)) is_episode ds (λ x t. alike-episode (median ds) x b t) in
    omega arith

classify_sorted-tv : (ds : List ℕ) → classify_sorted ds ≡ tv → 2 ≤ length (filter is_episode ds)
unfolding classify_sorted
classify_sorted-tv [] h = absurd (cc)
classify_sorted-tv (x ∷ []) h = absurd (ground arith)
classify_sorted-tv (x ∷ d ∷ ds) h =
    ground (arith, episodes_count (d ∷ ds), episodes_count (x ∷ d ∷ ds))

classify_sorted-movie :
    (ds : List ℕ) → classify_sorted ds ≡ movie → 1 ≤ length (filter (leb min_feature_secs) ds)
unfolding classify_sorted
classify_sorted-movie [] h = absurd (cc)
classify_sorted-movie (x ∷ []) h = ground arith
classify_sorted-movie (x ∷ d ∷ ds) h = ground arith

-- A disc that is taken for a television disc has two titles at least that run as an episode may:
-- from ten minutes to 6750 seconds, a quarter more than ninety minutes.
tv_has_episodes :
    (ts : List Title) → classify ts ≡ tv → 2 ≤ length (filter is_episode (durations ts))
unfolding classify
tv_has_episodes ts h =
    let same = length-filter-sort_down is_episode (durations ts) in
    let two = classify_sorted-tv (sort_down (durations ts)) h in omega arith

-- A disc that is taken for a film has a title of forty-five minutes at least.
movie_has_feature :
    (ts : List Title)
    → classify ts ≡ movie
    → 1 ≤ length (filter (leb min_feature_secs) (durations ts))
unfolding classify
movie_has_feature ts h =
    let same = length-filter-sort_down (leb min_feature_secs) (durations ts) in
    let one = classify_sorted-movie (sort_down (durations ts)) h in omega arith

-- The title that the loop ends with, when it starts with a title that runs `secs`.
longest_from-max :
    (best secs i : ℕ) (ts : List Title)
    → longest_from (some (best, secs)) ts ≡ some i
    → ((best ≡ i) × All (λ u. u.duration_secs ≤ secs) ts)
      ⊎ ((t : Title) × In t ts
          × (t.index ≡ i)
          × (secs < t.duration_secs)
          × All (λ u. u.duration_secs ≤ t.duration_secs) ts)
unfolding longest_from
longest_from-max best secs i [] h = inl (some_inj h, tt)
longest_from-max best secs i (t ∷ ts) h = elim (Bool-cases (ltb secs t.duration_secs)) [
  | inl e ↦ elim (longest_from-max t.index t.duration_secs i ts (rw (e, longest_from) at h)) [
    | inl (same, all) ↦ inr (t, inl refl, same, ltb→lt secs t.duration_secs e, (omega arith, all))
    | inr (u, j, same, more, all) ↦ inr (u, inr j, same, ground arith, (omega arith, all))
  ]
  | inr e ↦ elim (longest_from-max best secs i ts (rw (e, longest_from) at h)) [
    | inl (same, all) ↦ inl (same, (ground arith, all))
    | inr (u, j, same, more, all) ↦ inr (u, inr j, same, more, (ground arith, all))
  ]
]

-- The title that a film is filed by is a longest one of the disc.
pub longest_title_max :
    (ts : List Title) (i : ℕ)
    → longest_title ts ≡ some i
    → (t : Title) × In t ts × (t.index ≡ i) × All (λ u. u.duration_secs ≤ t.duration_secs) ts
unfolding longest_title longest_from
longest_title_max [] i h = absurd (cc)
longest_title_max (t ∷ ts) i h = elim (longest_from-max t.index t.duration_secs i ts h) [
  | inl (same, all) ↦ (t, inl refl, same, (omega arith, all))
  | inr (u, j, same, more, all) ↦ (u, inr j, same, (omega arith, all))
]
