-- ===== src/Identity/Tests.antt =====
-- The names and the fingerprint of a disc at concrete labels and titles.
use hellbox.Base.{
  ℕ, ◌≡◌, ◌≤◌, refl, true, false, [], ◌∷◌, All, length, codes, text_eq, ascii, trim_left,
  trim_right, trim_space, decimal, decimal2, digits_from, insert_by, sort_by,
}
use mathlib.Core.List.{Permᴰ}
use hellbox.Catalog.{Title}
use hellbox.Identity.{
  title_file_name, short, slug_from, trim_left_dashes, trim_right_dashes, slug, is_generic,
  dir_slug, dir_name, entries_text, fingerprint_text, compute_fingerprint,
}
use hellbox.Identity.Names.{is_name_char, starts_with_dash, ends_in_dash, slug_is_safe}
use hellbox.Identity.Prints.{fingerprint_perm}

abbrev title : ℕ → ℕ → ℕ → Title
title index secs bytes = record {
  index = index;
  duration_secs = secs;
  chapters = 1;
  size_bytes = bytes;
  source_file = [];
  output_file = [];
  streams = [];
}

third_file : title_file_name 3 ≡ codes "title_03.mkv"
unfolding title_file_name decimal2 decimal digits_from
third_file = refl

still_game : slug ascii (codes " STILL_GAME, Series 1_") ≡ codes "still-game-series-1"
unfolding slug trim_space trim_left trim_right slug_from trim_left_dashes trim_right_dashes
still_game = refl

unlabeled :
    dir_name ascii (codes "2026-08-09") (codes "DVD_VIDEO") [] (codes "31181d14abe3ff")
    ≡ codes "2026-08-09--unlabeled--31181d14abe3"
unfolding dir_name dir_slug is_generic short text_eq slug trim_space trim_left trim_right slug_from
    trim_left_dashes trim_right_dashes
unlabeled = refl

one_title : fingerprint_text ascii (codes "A ") (title 0 90 700 ∷ []) ≡ codes "A\01\090:700\0"
unfolding fingerprint_text trim_space trim_left trim_right decimal digits_from entries_text sort_by
    insert_by
one_title = refl

slug_is_safe_example :
    All (λ c. is_name_char c ≡ true) (slug ascii (codes "STILL_GAME"))
    × (starts_with_dash (slug ascii (codes "STILL_GAME")) ≡ false)
    × (ends_in_dash (slug ascii (codes "STILL_GAME")) ≡ false)
    × (length (slug ascii (codes "STILL_GAME")) ≤ 40)
slug_is_safe_example = slug_is_safe ascii (codes "STILL_GAME")

fingerprint_perm_example :
    compute_fingerprint (λ s. s) ascii (codes "A") (title 0 90 7 ∷ title 1 80 6 ∷ [])
    ≡ compute_fingerprint (λ s. s) ascii (codes "A") (title 1 80 6 ∷ title 0 90 7 ∷ [])
fingerprint_perm_example =
    fingerprint_perm (λ s. s) ascii (codes "A") (title 0 90 7 ∷ title 1 80 6 ∷ [])
      (title 1 80 6 ∷ title 0 90 7 ∷ []) (Permᴰ.swap refl refl)
