-- ===== src/Library/Naming.antt =====
-- internal/library/library.go: the name of a disc, where each of its titles belongs, and the link that
-- puts it there. Paths are joined by an argument; files are what each path holds.
use hellbox.Base.{
  ℕ, Bool, true, false, ◌&&◌, ◌||◌, List, [], ◌∷◌, ◌++◌, Option, none, some, ltb, ◌==◌,
  if◌then◌else◌, Text, codes, text_eq, any, decimal2, Unicode, lower, trim_space, fields, join_with,
  sort_by,
}
use hellbox.Catalog.{Title, Disc}
use hellbox.Library.{Kind, movie, tv, unknown, longest_title}
use hellbox.Identity.{short}

abbrev pub space_for : ℕ → ℕ
space_for c = if c == b'_' || c == b'.' || c == b'-' then 32 else c

-- The replacer of `Name`
abbrev pub spaced : Text → Text
spaced [] = []
spaced (c ∷ s) = space_for c ∷ spaced s

-- The table `formatMarkers`.
abbrev pub format_markers : List Text
format_markers = codes "lb" ∷ codes "ws" ∷ codes "fs" ∷ codes "ps" ∷ []

abbrev pub all_digits : Unicode → Text → Bool
all_digits u [] = true
all_digits u (c ∷ s) = u.is_digit c && all_digits u s

-- `isNumberish`
unfoldable pub is_numberish : Unicode → Text → Bool
unfolding trim_space
is_numberish u s = elim (trim_space u s) [ [] ↦ false | c ∷ r ↦ all_digits u (c ∷ r) ]

-- The words that a number may follow.
abbrev pub counted_words : List Text
counted_words = codes "disc" ∷ codes "disk" ∷ codes "dvd" ∷ codes "side" ∷ []

unfoldable pub is_word_of : List Text → Text → Bool
unfolding text_eq
is_word_of words w = any (text_eq w) words

-- What the loop of `Name` leaves out, of a word and the word before it.
unfoldable pub is_noise : Unicode → Option Text → Text → Bool
unfolding is_word_of is_numberish
is_noise u previous w =
    is_word_of format_markers (lower u w)
    || is_word_of counted_words (lower u w)
    || (is_numberish u w
        && elim previous [ none ↦ false | some p ↦ is_word_of counted_words (lower u p) ])

unfoldable pub kept_words : Unicode → Option Text → List Text → List Text
unfolding is_noise
kept_words u previous [] = []
kept_words u previous (w ∷ ws) =
    let rest = kept_words u (some w) ws in if is_noise u previous w then rest else w ∷ rest

abbrev pub upper_first : Unicode → Text → Text
upper_first u [] = []
upper_first u (c ∷ s) = u.to_upper c ∷ s

-- `titleCase`
unfoldable pub title_case : Unicode → Text → Text
title_case u w = if any u.is_lower w then w else upper_first u (lower u w)

abbrev pub title_cased : Unicode → List Text → List Text
title_cased u [] = []
title_cased u (w ∷ ws) = title_case u w ∷ title_cased u ws

abbrev pub words_or : List Text → List Text → List Text
words_or [] words = words
words_or (k ∷ ks) words = k ∷ ks

-- `Name`
unfoldable pub name : Unicode → Text → Text
unfolding trim_space fields kept_words title_case join_with
name u label = elim (trim_space u label) [
  | [] ↦ []
  | c ∷ s ↦
      let words = fields u (spaced (c ∷ s)) in
      join_with 32 (title_cased u (words_or (kept_words u none words) words))
]

-- What the plan takes for the name of a disc.
unfoldable pub name_of : Unicode → Disc → Text
unfolding name short
name_of u d = elim (name u d.volume_label) [
  | [] ↦ codes "Unlabeled " ++ short d.fingerprint
  | c ∷ s ↦ c ∷ s
]

pub record Placement : Type 0 where
  pub title_index : ℕ
  -- The elements that `filepath.Join` puts after the library's directory.
  pub elements : List Text
  pub feature : Bool

abbrev pub by_index : Title → Title → Bool
by_index t v = ltb t.index v.index

unfoldable pub numbered : Text → ℕ → Text
unfolding decimal2
numbered stem index = stem ++ (codes " - t" ++ (decimal2 index ++ codes ".mkv"))

abbrev pub is_feature : Option ℕ → ℕ → Bool
is_feature none index = false
is_feature (some best) index = index == best

-- Where a film's feature and its extras belong.
unfoldable pub movie_elements : Text → ℕ → Bool → List Text
unfolding numbered
movie_elements stem index true = codes "Movies" ∷ stem ∷ (stem ++ codes ".mkv") ∷ []
movie_elements stem index false = codes "Movies" ∷ stem ∷ codes "extras" ∷ numbered stem index ∷ []

unfoldable pub movie_placement : Text → Option ℕ → Title → Placement
unfolding movie_elements
movie_placement stem best t = record {
  title_index = t.index;
  elements = movie_elements stem t.index (is_feature best t.index);
  feature = is_feature best t.index;
}

unfoldable pub tv_placement : Text → Text → Title → Placement
unfolding numbered
tv_placement stem print t = record {
  title_index = t.index;
  elements = codes "TV" ∷ stem ∷ numbered (stem ++ (codes " - " ++ print)) t.index ∷ [];
  feature = false;
}

abbrev pub placements : (Title → Placement) → List Title → List Placement
placements place [] = []
placements place (t ∷ ts) = place t ∷ placements place ts

-- `Plan`
unfoldable pub plan : Unicode → Disc → Kind → List Placement
unfolding name_of sort_by longest_title movie_placement tv_placement short
plan u d kind =
    let titles = sort_by by_index d.titles in
    elim kind [
      | movie ↦ placements (movie_placement (name_of u d) (longest_title titles)) titles
      | tv ↦ placements (tv_placement (name_of u d) (short d.fingerprint)) titles
      | unknown ↦ placements (tv_placement (name_of u d) (short d.fingerprint)) titles
    ]

-- What the paths of the file system hold; a number is a file.
abbrev pub Files : Type 0
Files = List (Text × ℕ)

unfoldable pub file_at : Text → Files → Option ℕ
unfolding text_eq
file_at path [] = none
file_at path ((p, n) ∷ fs) = if text_eq p path then some n else file_at path fs

pub data Linked : Type 0 where
  linked : Files → Linked
  already_there : Linked
  link_failed : Text → Linked

-- The steps of `Link`: the error of `MkdirAll`, what `Lstat` finds, the error of `os.Link`, and the
-- file that the source is.
abbrev pub link_steps : Option Text → Option ℕ → Option Text → Option ℕ → Files → Text → Linked
link_steps (some e) found broken file fs path = link_failed e
link_steps none (some n) broken file fs path = already_there
link_steps none none (some e) file fs path = link_failed e
link_steps none none none none fs path = link_failed (codes "no such file or directory")
link_steps none none none (some n) fs path = linked ((path, n) ∷ fs)

-- `Link`, where `MkdirAll` and `os.Link` may fail at the destination.
unfoldable pub link : (Text → Option Text) → (Text → Option Text) → Files → Text → Text → Linked
unfolding file_at
link mkdir_error link_error fs source path =
    link_steps (mkdir_error path) (file_at path fs) (link_error path) (file_at source fs) fs path
