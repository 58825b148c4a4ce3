-- ===== src/Library/Tests.antt =====
-- A film with a short extra, and three episodes.
use hellbox.Library.Naming.{
  Placement, by_index, name, name_of, kept_words, is_noise, is_word_of, is_numberish, title_case,
  movie_placement, plan,
}
use hellbox.Library.Plan.{plan_apart}
use hellbox.Base.{
  ℕ, inl, codes, text_eq, ascii, trim_left, trim_right, trim_space, fields, join_with, insert_by,
  sort_by, get_or, ◌≡◌, ◌≤◌, refl, some, List, [], ◌∷◌, In, All,
}
use mathlib.Core.List.{Permᴰ}
use hellbox.Catalog.{Title, Disc, type_dvd}
use hellbox.Library.{
  movie, tv, insert, sort_down, median, within_spread, is_alike, looks_like_episodes,
  classify_sorted, classify, longest_from, longest_title,
}
use hellbox.Library.Shape.{classify_perm, longest_title_max}

abbrev title : ℕ → ℕ → Title
title index secs = record {
  index = index;
  duration_secs = secs;
  chapters = 1;
  size_bytes = 0;
  source_file = [];
  output_file = [];
  streams = [];
}

abbrev film : List Title
film = title 0 300 ∷ title 1 7000 ∷ title 2 200 ∷ []

abbrev episodes : List Title
episodes = title 0 2600 ∷ title 1 2700 ∷ title 2 5400 ∷ []

film-movie : classify film ≡ movie
unfolding classify classify_sorted sort_down insert median looks_like_episodes
film-movie = refl

episodes-tv : classify episodes ≡ tv
unfolding classify classify_sorted sort_down insert median looks_like_episodes is_alike
    within_spread
episodes-tv = refl

film_feature : longest_title film ≡ some 1
unfolding longest_title longest_from
film_feature = refl

classify_perm_example : classify film ≡ classify (title 1 7000 ∷ title 0 300 ∷ title 2 200 ∷ [])
classify_perm_example =
    classify_perm film (title 1 7000 ∷ title 0 300 ∷ title 2 200 ∷ []) (Permᴰ.swap refl refl)

longest_title_max_example :
    (t : Title) × In t film × (t.index ≡ 1) × All (λ u. u.duration_secs ≤ t.duration_secs) film
longest_title_max_example = longest_title_max film 1 film_feature

abbrev disc : Disc
disc = record {
  fingerprint = codes "31181d14abe3ff";
  volume_label = codes "ROMAN_HOLIDAY_WS";
  kind = type_dvd;
  total_bytes = 0;
  titles = film;
}

holiday : name ascii disc.volume_label ≡ codes "Roman Holiday"
unfolding name kept_words is_noise is_word_of is_numberish title_case trim_space trim_left
    trim_right fields join_with text_eq
holiday = refl

abbrev places : List Title → Placement
places ts =
    movie_placement (name_of ascii disc) (longest_title (sort_by by_index film))
      (get_or ts 0 (title 0 0))

plan_apart_example : (places film).title_index ≡ (places film).title_index
unfolding plan sort_by insert_by movie_placement
plan_apart_example =
    plan_apart ascii disc movie (places film) (places film) (inl refl) (inl refl) refl
