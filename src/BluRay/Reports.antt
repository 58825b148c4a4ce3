-- ===== src/BluRay/Reports.antt =====
-- internal/bluray/bluray.go: `ParseTitles` and `ParseInfo`, over the lines that the scanner yields.
use hellbox.Base.{
  ℕ, ◌-◌, ◌^◌, Bool, true, false, not, ◌&&◌, List, [], ◌∷◌, ◌++◌, Option, none, some, ◌==◌,
  if◌then◌else◌, Text, codes, text_eq, Unicode, lower, trim_space, fold_text, starts_with, has_part,
  ltb, ◌⊎◌, inl, inr, ℤ, pos, negsuc, magnitude,
}
use hellbox.BluRay.Playlists.{Playlist, Info}
use hellbox.BluRay.Parse.{match_pieces, find_match, title_line, main_title_line, value, playlist_of}

-- What `strconv.Atoi` returns, its error ignored: zero for what is no number, and the nearest integer of
-- 64 bits for what is out of range.
abbrev pub clamped : Bool → Option ℕ → ℤ
clamped minus none = pos 0
clamped false (some n) = if ltb n (2 ^ 63) then pos n else pos (2 ^ 63 - 1)
clamped true (some n) =
    if n == 0 then pos 0 else if ltb (2 ^ 63) n then negsuc (2 ^ 63 - 1) else negsuc (n - 1)

abbrev pub signed : Text → ℤ
signed [] = pos 0
signed (c ∷ s) =
    if c == b'-'
    then clamped true (magnitude s)
    else if c == b'+'
    then clamped false (magnitude s)
    else clamped false (magnitude (c ∷ s))

-- `atoi`
unfoldable pub atoi : Unicode → Text → ℤ
unfolding trim_space magnitude
atoi u s = signed (trim_space u s)

abbrev pub first_number : List Text → ℤ
first_number [] = pos 0
first_number (n ∷ ns) = pos (value n)

abbrev pub with_playlist : Option Playlist → List Playlist → List Playlist
with_playlist none ps = ps
with_playlist (some p) ps = p ∷ ps

abbrev pub playlist_at : Unicode → Option (List Text) → Option Playlist
playlist_at u none = none
playlist_at u (some cs) = playlist_of u cs

-- `ParseTitles`, from the main title that has been found so far.
unfoldable pub titles_from : Unicode → ℤ → List Text → ℤ × List Playlist
unfolding trim_space match_pieces find_match playlist_of
titles_from u main [] = (main, [])
titles_from u main (line ∷ lines) = elim (match_pieces main_title_line (trim_space u line)) [
  | some cs ↦ titles_from u (first_number cs) lines
  | none ↦
      let (m, ps) = titles_from u main lines in
      (m, with_playlist (playlist_at u (find_match title_line line)) ps)
]

unfoldable pub parse_titles : Unicode → List Text → ℤ × List Playlist
unfolding titles_from
parse_titles u lines = titles_from u (negsuc 0) lines

-- The text before the first colon and the text after it.
abbrev pub cut_at_colon : Text → Option (Text × Text)
cut_at_colon [] = none
cut_at_colon (c ∷ s) =
    if c == b':'
    then some ([], s)
    else elim (cut_at_colon s) [ none ↦ none | some (a, b) ↦ some (c ∷ a, b) ]

abbrev pub field_of : Unicode → Option (Text × Text) → Option (Text × Text)
field_of u none = none
field_of u (some (k, v)) = elim (lower u (trim_space u k)) [
  | [] ↦ none
  | c ∷ key ↦ some (c ∷ key, trim_space u v)
]

-- `splitField`
unfoldable pub split_field : Unicode → Text → Option (Text × Text)
unfolding trim_space
split_field u line = field_of u (cut_at_colon line)

-- `isYes`
unfoldable pub is_yes : Unicode → Text → Bool
unfolding trim_space text_eq
is_yes u s = text_eq (fold_text u (trim_space u s)) (fold_text u (codes "yes"))

-- The switch of `ParseInfo` on a key; the flag is `inThumbs`.
unfoldable pub with_field : Unicode → Text → Text → Info → Info × Bool
unfolding text_eq is_yes atoi
with_field u key v info =
    let p = info.protection in
    let is = λ (k : Text). text_eq key k in
    if is (codes "volume identifier")
    then (record info { volume_label = v }, false)
    else if is (codes "disc name")
    then (record info { disc_name = v }, false)
    else if is (codes "aacs detected")
    then (record info { protection = record p { aacs = is_yes u v } }, false)
    else if is (codes "aacs handled")
    then (record info { protection = record p { aacs_handled = is_yes u v } }, false)
    else if is (codes "bd+ detected")
    then (record info { protection = record p { bdplus = is_yes u v } }, false)
    else if is (codes "bd+ handled")
    then (record info { protection = record p { bdplus_handled = is_yes u v } }, false)
    else if is (codes "bd-j detected")
    then (record info { protection = record p { bdj = is_yes u v } }, false)
    else if is (codes "disc id")
    then (record info { protection = record p { disc_id = v } }, false)
    else if is (codes "aacs mkb version")
    then (record info { protection = record p { mkb_version = atoi u v } }, false)
    else if is (codes "thumbnail count")
    then (info, true)
    else (info, false)

abbrev pub with_split : Unicode → Option (Text × Text) → Info → Info × Bool
with_split u none info = (info, false)
with_split u (some (key, v)) info = with_field u key v info

abbrev pub indented : Text → Bool
indented raw = starts_with (9 ∷ []) raw

abbrev pub is_thumbnail : Text → Text → Bool
is_thumbnail raw line = not (text_eq line []) && not (has_part (codes ":") line) && indented raw

-- A line of bd_info
unfoldable pub info_line : Unicode → Text → Info × Bool → Info × Bool
unfolding trim_space has_part text_eq split_field with_field
info_line u raw (info, in_thumbs) =
    let line = trim_space u raw in
    if in_thumbs && is_thumbnail raw line
    then (record info { thumbnails = info.thumbnails ++ line ∷ [] }, true)
    else if in_thumbs && indented raw
    then (info, true)
    else with_split u (split_field u line) info

unfoldable pub info_lines : Unicode → List Text → Info × Bool → Info × Bool
unfolding info_line
info_lines u [] state = state
info_lines u (l ∷ ls) state = info_lines u ls (info_line u l state)

abbrev pub no_info : Info
no_info = record {
  volume_label = [];
  disc_name = [];
  thumbnails = [];
  protection = record {
    aacs = false;
    bdplus = false;
    aacs_handled = false;
    bdplus_handled = false;
    bdj = false;
    disc_id = [];
    mkb_version = pos 0;
  };
  main_title = pos 0;
  playlists = [];
}

-- `ParseInfo`
unfoldable pub parse_info : Unicode → List Text → Info
unfolding info_lines
parse_info u lines = (info_lines u lines (no_info, false)).0

-- `Enumerate`, from the outputs of the two tools; the second may fail.
unfoldable pub enumerate : Unicode → Text ⊎ List Text → Text ⊎ List Text → Option Info × Option Text
unfolding parse_info parse_titles
enumerate u (inl e) titles_out = (none, some (codes "bd_info: " ++ e))
enumerate u (inr lines) (inl e) = (some (parse_info u lines), some (codes "bd_list_titles: " ++ e))
enumerate u (inr lines) (inr titles) =
    let (main, ps) = parse_titles u titles in
    (some (record (parse_info u lines) { main_title = main; playlists = ps }), none)
