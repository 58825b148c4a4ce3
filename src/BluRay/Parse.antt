-- ===== src/BluRay/Parse.antt =====
-- internal/bluray/bluray.go: what is read from the output of bd_info and bd_list_titles. The two
-- regular expressions are lists of pieces; the output is given as its lines. Numbers are below 2 ^ 63.
use hellbox.Base.{
  ℕ, ◌+◌, ◌*◌, Bool, not, ◌&&◌, ◌||◌, List, [], ◌∷◌, Option, none, some, ◌==◌, if◌then◌else◌, Text,
  codes, drop, length, Unicode, trim_space, starts_with, is_digit, value_from,
}
use hellbox.BluRay.Playlists.{Playlist}

-- The pieces of a pattern: a literal, `\s*`, `\s+`, `(\d+)`, `(\d{2})`, and `([^\)]+?)`.
pub data Piece : Type 0 where
  literal : Text → Piece
  blanks some_blanks number two_digits words : Piece

abbrev pub is_blank : ℕ → Bool
is_blank c = c == 9 || c == 10 || c == 12 || c == 13 || c == 32

abbrev pub after_blanks : Text → Text
after_blanks [] = []
after_blanks (c ∷ s) = if is_blank c then after_blanks s else c ∷ s

-- The longest start of a text whose characters pass a test, and the rest.
abbrev pub span : (ℕ → Bool) → Text → Text × Text
span p [] = ([], [])
span p (c ∷ s) = let (a, b) = span p s in if p c then (c ∷ a, b) else ([], c ∷ s)

abbrev pub nonempty : Text × Text → Option (Text × Text)
nonempty ([], s) = none
nonempty (c ∷ a, s) = some (c ∷ a, s)

-- One piece at the start of a text: what it captures, if it does, and the rest.
unfoldable pub match_piece : Piece → Text → Option (Option Text × Text)
match_piece (literal l) s = if starts_with l s then some (none, drop (length l) s) else none
match_piece blanks s = some (none, after_blanks s)
match_piece some_blanks [] = none
match_piece some_blanks (c ∷ s) = if is_blank c then some (none, after_blanks s) else none
match_piece number s = elim (nonempty (span is_digit s)) [
  | none ↦ none
  | some (a, b) ↦ some (some a, b)
]
match_piece two_digits [] = none
match_piece two_digits (c ∷ []) = none
match_piece two_digits (c ∷ d ∷ s) =
    if is_digit c && is_digit d then some (some (c ∷ d ∷ []), s) else none
match_piece words s = elim (nonempty (span (λ c. not (c == b')')) s)) [
  | none ↦ none
  | some (a, b) ↦ some (some a, b)
]

abbrev pub captured : Option Text → List Text → List Text
captured none cs = cs
captured (some c) cs = c ∷ cs

-- A pattern at the start of a text: its captures.
unfoldable pub match_pieces : List Piece → Text → Option (List Text)
unfolding match_piece
match_pieces [] s = some []
match_pieces (p ∷ ps) s = elim (match_piece p s) [
  | none ↦ none
  | some (c, rest) ↦ elim (match_pieces ps rest) [ none ↦ none | some cs ↦ some (captured c cs) ]
]

-- The leftmost match.
unfoldable pub find_match : List Piece → Text → Option (List Text)
unfolding match_pieces
find_match ps [] = match_pieces ps []
find_match ps (c ∷ s) = elim (match_pieces ps (c ∷ s)) [
  | some cs ↦ some cs
  | none ↦ find_match ps s
]

-- `titleLine`
abbrev pub title_line : List Piece
title_line =
    literal (codes "index:")
    ∷ blanks
    ∷ number
    ∷ some_blanks
    ∷ literal (codes "duration:")
    ∷ blanks
    ∷ number
    ∷ literal (codes ":")
    ∷ two_digits
    ∷ literal (codes ":")
    ∷ two_digits
    ∷ some_blanks
    ∷ literal (codes "chapters:")
    ∷ blanks
    ∷ number
    ∷ some_blanks
    ∷ literal (codes "angles:")
    ∷ blanks
    ∷ number
    ∷ some_blanks
    ∷ literal (codes "clips:")
    ∷ blanks
    ∷ number
    ∷ some_blanks
    ∷ literal (codes "(playlist:")
    ∷ blanks
    ∷ words
    ∷ literal (codes ")")
    ∷ blanks
    ∷ literal (codes "V:")
    ∷ number
    ∷ some_blanks
    ∷ literal (codes "A:")
    ∷ number
    ∷ some_blanks
    ∷ literal (codes "PG:")
    ∷ number
    ∷ some_blanks
    ∷ literal (codes "IG:")
    ∷ number
    ∷ []

-- `mainTitleLine`, at the start of a line
abbrev pub main_title_line : List Piece
main_title_line = literal (codes "Main title:") ∷ blanks ∷ number ∷ []

abbrev pub value : Text → ℕ
value s = value_from 0 s

unfoldable pub playlist_of : Unicode → List Text → Option Playlist
unfolding trim_space
playlist_of u (index ∷ h ∷ m ∷ s ∷ chapters ∷ angles ∷ clips ∷ file ∷ v ∷ a ∷ pg ∷ ig ∷ []) =
    some (record {
      index = value index;
      file = trim_space u file;
      duration_secs = value h * 3600 + value m * 60 + value s;
      chapters = value chapters;
      angles = value angles;
      clips = value clips;
      video = value v;
      audio = value a;
      subtitles = value pg;
      overlays = value ig;
    })
playlist_of u _ = none
