-- ===== src/MakeMkv/Messages.antt =====
-- internal/makemkv/makemkv.go: what the program tells from the messages of makemkvcon: the version, the
-- state of the registration key, and why a command failed.
use hellbox.Base.{
  ℕ, suc, Bool, true, false, ◌&&◌, ◌||◌, List, [], ◌∷◌, ◌++◌, Option, none, some, ◌==◌,
  if◌then◌else◌, Text, codes, length, drop, take, pos, negsuc, Unicode, lower, trim_space,
  fold_text, starts_with, has_part, is_digit,
}
use hellbox.MakeMkv.Lines.{Message}

abbrev pub is_code : ℕ → Message → Bool
is_code n m = elim (m.code) [ pos c ↦ c == n | negsuc _ ↦ false ]

abbrev pub msg_title_added : ℕ
msg_title_added = 3028

abbrev pub msg_key_invalid : ℕ
msg_key_invalid = 5020

abbrev pub msg_key_required : ℕ
msg_key_required = 5021

-- `announcedTitles`
unfoldable pub announced_titles : List Message → ℕ
announced_titles [] = 0
announced_titles (m ∷ ms) =
    let n = announced_titles ms in if is_code msg_title_added m then suc n else n

pub record KeyStatus : Type 0 where
  pub present : Bool
  pub expired : Bool
  pub detail : Text
  pub version_too_old : Bool

-- A pattern `(?i)` of one literal.
abbrev pub mentions : Unicode → Text → Text → Bool
mentions u part s = has_part (fold_text u part) (fold_text u s)

abbrev pub mentions_any : Unicode → List Text → Text → Bool
mentions_any u [] s = false
mentions_any u (p ∷ ps) s = mentions u p s || mentions_any u ps s

abbrev pub rest_of_line : Text → Text
rest_of_line [] = []
rest_of_line (c ∷ s) = if c == 10 then [] else c ∷ rest_of_line s

-- `(?i)enter.*key`, both words and the text folded
unfoldable pub enter_then_key : Text → Text → Text → Bool
unfolding has_part
enter_then_key enter key [] = false
enter_then_key enter key (c ∷ s) =
    (starts_with enter (c ∷ s) && has_part key (rest_of_line (drop (length enter) (c ∷ s))))
    || enter_then_key enter key s

-- `versionTooOldRE`
abbrev pub says_too_old : Unicode → Text → Bool
says_too_old u s =
    mentions_any u (codes "version is too old" ∷ codes "download the latest version" ∷ []) s

-- `keyExpiredRE`
abbrev pub says_expired : Unicode → Text → Bool
says_expired u s =
    mentions_any u
      (codes "expired"
        ∷ codes "evaluation period"
        ∷ codes "out of date"
        ∷ codes "too old"
        ∷ codes "no longer valid"
        ∷ [])
      s

-- `keyMissingRE`
abbrev pub says_missing : Unicode → Text → Bool
says_missing u s =
    mentions_any u
      (codes "registration key"
        ∷ codes "activation key"
        ∷ codes "not registered"
        ∷ codes "invalid key"
        ∷ codes "shareware"
        ∷ [])
      s
    || enter_then_key (fold_text u (codes "enter")) (fold_text u (codes "key")) (fold_text u s)

abbrev pub is_key_code : Message → Bool
is_key_code m = is_code msg_key_invalid m || is_code msg_key_required m

-- The first loop of `keyStatusFromMessages`
unfoldable pub status_by_code : Unicode → List Message → Option KeyStatus
status_by_code u [] = none
status_by_code u (m ∷ ms) =
    if is_key_code m
    then some (record {
      present = true;
      expired = true;
      detail = m.text;
      version_too_old = says_too_old u m.text;
    })
    else status_by_code u ms

-- The second loop
unfoldable pub status_by_prose : Unicode → List Message → KeyStatus
status_by_prose u [] = record {
  present = true;
  expired = false;
  detail = [];
  version_too_old = false;
}
status_by_prose u (m ∷ ms) =
    if says_expired u m.text
    then record { present = true; expired = true; detail = m.text; version_too_old = false }
    else if says_missing u m.text
    then record { present = false; expired = false; detail = m.text; version_too_old = false }
    else status_by_prose u ms

-- `keyStatusFromMessages`
unfoldable pub key_status_from_messages : Unicode → List Message → KeyStatus
unfolding status_by_code status_by_prose
key_status_from_messages u ms = elim (status_by_code u ms) [
  | some status ↦ status
  | none ↦ status_by_prose u ms
]

-- `\s`
abbrev pub is_blank : ℕ → Bool
is_blank c = c == 9 || c == 10 || c == 12 || c == 13 || c == 32

abbrev pub skip_blanks : Text → Text
skip_blanks [] = []
skip_blanks (c ∷ s) = if is_blank c then skip_blanks s else c ∷ s

abbrev pub version_chars : Text → Text
version_chars [] = []
version_chars (c ∷ s) = if is_digit c || c == b'.' then c ∷ version_chars s else []

-- `\s+v([0-9][0-9.]*)` at the start of a text
abbrev pub version_number : Text → Option Text
version_number [] = none
version_number (v ∷ []) = none
version_number (v ∷ d ∷ s) = if v == b'v' && is_digit d then some (d ∷ version_chars s) else none

abbrev pub version_after : Text → Option Text
version_after [] = none
version_after (c ∷ s) = if is_blank c then version_number (skip_blanks s) else none

-- `versionRE`, the leftmost match
unfoldable pub find_version : Text → Option Text
find_version [] = none
find_version (c ∷ s) =
    let later = find_version s in
    if starts_with (codes "MakeMKV") (c ∷ s)
    then elim (version_after (drop 7 (c ∷ s))) [ some v ↦ some v | none ↦ later ]
    else later

-- `versionFromMessages`
unfoldable pub version_from_messages : List Message → Text
unfolding find_version
version_from_messages [] = []
version_from_messages (m ∷ ms) = elim (find_version m.text) [
  | some v ↦ v
  | none ↦ version_from_messages ms
]

abbrev pub explains : Unicode → Text → Bool
explains u t =
    has_part (codes "fail") (lower u t)
    || has_part (codes "error") (lower u t)
    || has_part (codes "unable") (lower u t)

-- The first loop of `summarise`
unfoldable pub explanations : Unicode → List Message → List Text
unfolding trim_space
explanations u [] = []
explanations u (m ∷ ms) =
    let rest = explanations u ms in
    elim (trim_space u m.text) [
      | [] ↦ rest
      | c ∷ s ↦ if explains u (c ∷ s) then (c ∷ s) ∷ rest else rest
    ]

unfoldable pub said : Unicode → List Message → List Text
unfolding trim_space
said u [] = []
said u (m ∷ ms) =
    let rest = said u ms in elim (trim_space u m.text) [ [] ↦ rest | c ∷ s ↦ (c ∷ s) ∷ rest ]

abbrev pub back_to_front : List Text → List Text → List Text
back_to_front [] out = out
back_to_front (t ∷ ts) out = back_to_front ts (t ∷ out)

-- The second loop: the last two texts, the last one first
unfoldable pub last_two : Unicode → List Message → List Text
unfolding said
last_two u ms = take 2 (back_to_front (said u ms) [])

abbrev pub or_else : List Text → List Text → List Text
or_else [] ys = ys
or_else (x ∷ xs) ys = x ∷ xs

-- `strings.Join` with "; "
abbrev pub joined : List Text → Text
joined [] = []
joined (t ∷ []) = t
joined (t ∷ v ∷ ts) = t ++ codes "; " ++ joined (v ∷ ts)

-- `summarise`
unfoldable pub summarise : Unicode → List Message → Text
unfolding explanations last_two
summarise u ms = elim (take 4 (or_else (explanations u ms) (last_two u ms))) [
  | [] ↦ codes "no diagnostic output"
  | t ∷ ts ↦ joined (t ∷ ts)
]
