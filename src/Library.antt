-- ===== src/Library.antt =====
-- internal/library/library.go: what a disc holds, told from the running times of its titles. The two
-- comparisons of floats are those of whole numbers, which they agree with below 2 ^ 40 seconds.
pub mod Shape
pub mod Naming
pub mod Plan
mod Tests
use hellbox.Base.{
  ℕ, ◌+◌, ◌*◌, ◌/◌, Bool, true, false, ◌&&◌, ◌||◌, List, [], ◌∷◌, ltb, leb, ◌==◌, if◌then◌else◌,
  length, filter, get_or, Option, none, some,
}
use hellbox.Catalog.{Title}

pub data Kind : Type 0 where
  movie tv unknown : Kind

abbrev pub min_feature_secs : ℕ
min_feature_secs = 45 * 60

abbrev pub min_episode_secs : ℕ
min_episode_secs = 10 * 60

abbrev pub max_episode_secs : ℕ
max_episode_secs = 90 * 60

abbrev pub durations : List Title → List ℕ
durations [] = []
durations (t ∷ ts) = t.duration_secs ∷ durations ts

-- `sort.Sort(sort.Reverse(sort.IntSlice(…)))`, whose result does not depend on the method.
unfoldable pub insert : ℕ → List ℕ → List ℕ
insert x [] = x ∷ []
insert x (y ∷ ys) = let rest = insert x ys in if leb y x then x ∷ y ∷ ys else y ∷ rest

unfoldable pub sort_down : List ℕ → List ℕ
sort_down [] = []
sort_down (x ∷ xs) = insert x (sort_down xs)

unfoldable pub median : List ℕ → ℕ
median ds = get_or ds (length ds / 2) 0

-- `withinSpread` with a spread of a quarter
unfoldable pub within_spread : ℕ → ℕ → Bool
within_spread value middle =
    ltb 0 middle && leb (4 * value) (5 * middle) && leb (3 * middle) (4 * value)

-- Whether a title is one of several alike episodes.
unfoldable pub is_alike : ℕ → ℕ → Bool
is_alike middle d = leb min_episode_secs d && within_spread d middle

-- `looksLikeEpisodes`
unfoldable pub looks_like_episodes : List ℕ → Bool
looks_like_episodes ds =
    let middle = median ds in
    let alike = length (filter (is_alike middle) ds) in
    if ltb (length ds) 2
    then false
    else if ltb middle min_episode_secs || ltb max_episode_secs middle
    then false
    else leb 2 alike && leb (length ds) (alike * 2)

-- `Classify` from the sorted running times on.
unfoldable pub classify_sorted : List ℕ → Kind
classify_sorted [] = unknown
classify_sorted (longest ∷ []) = if leb min_feature_secs longest then movie else unknown
classify_sorted (longest ∷ d ∷ ds) =
    if looks_like_episodes (d ∷ ds)
    then tv
    else if leb min_feature_secs longest && leb (2 * median (longest ∷ d ∷ ds)) longest
    then movie
    else if looks_like_episodes (longest ∷ d ∷ ds)
    then tv
    else unknown

-- `Classify`
unfoldable pub classify : List Title → Kind
classify ts = classify_sorted (sort_down (durations ts))

-- The loop of `longestTitle`, with the best title so far; -1 is `none`.
unfoldable pub longest_from : Option (ℕ × ℕ) → List Title → Option ℕ
longest_from none [] = none
longest_from (some (best, secs)) [] = some best
longest_from none (t ∷ ts) = longest_from (some (t.index, t.duration_secs)) ts
longest_from (some (best, secs)) (t ∷ ts) =
    let changed = longest_from (some (t.index, t.duration_secs)) ts in
    let kept = longest_from (some (best, secs)) ts in
    if ltb secs t.duration_secs then changed else kept

-- `longestTitle`
unfoldable pub longest_title : List Title → Option ℕ
longest_title ts = longest_from none ts
