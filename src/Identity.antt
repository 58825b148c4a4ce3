-- ===== src/Identity.antt =====
-- internal/disc/disc.go: what a disc is known by, its fingerprint and the names of its directory and
-- its files. The hash, the tables of Unicode and the words of a date are arguments.
pub mod Names
pub mod Prints
mod Tests
use hellbox.Base.{
  ℕ, ◌-◌, Bool, true, false, not, ◌&&◌, ◌||◌, List, [], ◌∷◌, ◌++◌, ltb, leb, ◌==◌, if◌then◌else◌,
  Text, codes, text_eq, length, take, any, decimal, decimal2, Unicode, lower, trim_space, is_digit,
  sort_by,
}
use hellbox.Catalog.{Title}

-- `TitleFileName`
unfoldable pub title_file_name : ℕ → Text
unfolding decimal2
title_file_name index = codes "title_" ++ (decimal2 index ++ codes ".mkv")

-- `Short`
unfoldable pub short : Text → Text
short fingerprint = if ltb (length fingerprint) 12 then fingerprint else take 12 fingerprint

abbrev pub is_slug_char : ℕ → Bool
is_slug_char c = (leb b'a' c && leb c b'z') || is_digit c

-- The loop of `Slug`, with `lastDash`.
unfoldable pub slug_from : Bool → Text → Text
slug_from last_dash [] = []
slug_from last_dash (c ∷ s) = elim (is_slug_char c) [
  | true ↦ c ∷ slug_from false s
  | false ↦ elim last_dash [ true ↦ slug_from true s | false ↦ b'-' ∷ slug_from true s ]
]

-- `strings.Trim` with "-"
unfoldable pub trim_left_dashes : Text → Text
trim_left_dashes [] = []
trim_left_dashes (c ∷ s) = if c == b'-' then trim_left_dashes s else c ∷ s

abbrev pub before_trimmed : ℕ → Text → Text
before_trimmed c [] = if c == b'-' then [] else c ∷ []
before_trimmed c (d ∷ r) = c ∷ d ∷ r

unfoldable pub trim_right_dashes : Text → Text
trim_right_dashes [] = []
trim_right_dashes (c ∷ s) = before_trimmed c (trim_right_dashes s)

abbrev pub trim_dashes : Text → Text
trim_dashes s = trim_right_dashes (trim_left_dashes s)

-- `Slug`
unfoldable pub slug : Unicode → Text → Text
unfolding trim_space slug_from trim_left_dashes trim_right_dashes
slug u s =
    let out = trim_dashes (slug_from true (lower u (trim_space u s))) in
    if ltb 40 (length out) then trim_dashes (take 40 out) else out

-- The table `genericLabels`.
abbrev pub generic_labels : List Text
generic_labels =
    []
    ∷ codes "dvd_video"
    ∷ codes "dvdvideo"
    ∷ codes "logical_volume_id"
    ∷ codes "unknown"
    ∷ codes "untitled"
    ∷ codes "new_volume"
    ∷ codes "bd_rom"
    ∷ codes "bluray"
    ∷ []

unfoldable pub is_generic : Unicode → Text → Bool
unfolding trim_space text_eq
is_generic u label = any (text_eq (lower u (trim_space u label))) generic_labels

-- The fragment by which `DirName` names a disc, from its label and its own name.
unfoldable pub dir_slug : Unicode → Text → Text → Text
unfolding slug is_generic text_eq
dir_slug u label disc_name =
    if is_generic u label || text_eq (slug u label) []
    then if not (text_eq (slug u disc_name) []) && not (is_generic u disc_name)
      then slug u disc_name
      else codes "unlabeled"
    else slug u label

-- `DirName`, for a date in words
unfoldable pub dir_name : Unicode → Text → Text → Text → Text → Text
unfolding dir_slug short
dir_name u date label disc_name fingerprint =
    date ++ (codes "--" ++ (dir_slug u label disc_name ++ (codes "--" ++ short fingerprint)))

-- The entries of `ComputeFingerprint` and their order.
abbrev pub entries : List Title → List (ℕ × ℕ)
entries [] = []
entries (t ∷ ts) = (t.duration_secs, t.size_bytes) ∷ entries ts

abbrev pub entry_before : ℕ × ℕ → ℕ × ℕ → Bool
entry_before (d, s) (e, r) = if d == e then ltb s r else ltb d e

unfoldable pub entries_text : List (ℕ × ℕ) → Text
unfolding decimal
entries_text [] = []
entries_text ((d, s) ∷ es) = decimal d ++ (b':' ∷ (decimal s ++ (0 ∷ entries_text es)))

-- What `ComputeFingerprint` gives to the hash.
unfoldable pub fingerprint_text : Unicode → Text → List Title → Text
unfolding trim_space decimal entries_text sort_by
fingerprint_text u label titles =
    trim_space u label
    ++ (0 ∷ (decimal (length titles) ++ (0 ∷ entries_text (sort_by entry_before (entries titles)))))

-- `ComputeFingerprint`, for a hash in hexadecimal digits
unfoldable pub compute_fingerprint : (Text → Text) → Unicode → Text → List Title → Text
unfolding fingerprint_text
compute_fingerprint hash u label titles = hash (fingerprint_text u label titles)
