-- ===== src/MakeMkv/Lines.antt =====
-- internal/makemkv/robot.go: the lines of makemkvcon's robot output and their fields.
use hellbox.Base.{
  ℕ, zero, suc, ◌+◌, ◌*◌, ◌%◌, ◌^◌, Bool, true, false, not, ◌&&◌, ◌||◌, List, [], ◌∷◌, ◌++◌, Option,
  none, some, ltb, leb, ◌==◌, if◌then◌else◌, Text, get_or, length, filter, ℤ, pos, negsuc, int64,
  atoi, Unicode, trim_space, is_digit,
}

pub record Line : Type 0 where
  pub kind : Text
  pub fields : List Text
  pub raw : Text

abbrev pub head? : Text → Option ℕ
head? [] = none
head? (c ∷ s) = some c

abbrev pub is_at : ℕ → Option ℕ → Bool
is_at c none = false
is_at c (some d) = d == c

-- The cases of the switch of `splitFields`.
pub data Case : Type 0 where
  doubled toggled escaped comma plain : Case

unfoldable pub case_of : Bool → ℕ → Option ℕ → Case
case_of quoted c next =
    if c == b'"'
    then if quoted && is_at b'"' next then doubled else toggled
    else if c == b'\\' && quoted && is_at b'"' next
    then escaped
    else if c == b',' && not quoted
    then comma
    else plain

-- The loop of `splitFields`: whether it is inside quotes, whether `i++` passes over the byte, and
-- the field so far.
unfoldable pub split_from : Bool → Bool → Text → Text → List Text
unfolding case_of
split_from quoted skip buf [] = buf ∷ []
split_from quoted true buf (c ∷ s) = split_from quoted false buf s
split_from quoted false buf (c ∷ s) = elim (case_of quoted c (head? s)) [
  | doubled ↦ split_from quoted true (buf ++ b'"' ∷ []) s
  | toggled ↦ split_from (not quoted) false buf s
  | escaped ↦ split_from quoted true (buf ++ b'"' ∷ []) s
  | comma ↦ buf ∷ split_from quoted false [] s
  | plain ↦ split_from quoted false (buf ++ c ∷ []) s
]

-- `splitFields`
unfoldable pub split_fields : Text → List Text
unfolding split_from
split_fields s = split_from false false [] s

abbrev pub is_newline : ℕ → Bool
is_newline c = c == 13 || c == 10

-- `strings.TrimRight(raw, "\r\n")`
unfoldable pub trim_newlines : Text → Text
trim_newlines [] = []
trim_newlines (c ∷ s) = elim (trim_newlines s) [
  | [] ↦ if is_newline c then [] else c ∷ []
  | d ∷ r ↦ c ∷ d ∷ r
]

-- The text before the first colon and the text after it.
unfoldable pub cut_colon : Text → Option (Text × Text)
cut_colon [] = none
cut_colon (c ∷ s) =
    if c == b':'
    then some ([], s)
    else elim (cut_colon s) [ none ↦ none | some (before, after) ↦ some (c ∷ before, after) ]

abbrev pub is_kind_char : ℕ → Bool
is_kind_char c = (leb b'A' c && leb c b'Z') || is_digit c || c == b'_'

abbrev pub all_kind_chars : Text → Bool
all_kind_chars [] = true
all_kind_chars (c ∷ s) = is_kind_char c && all_kind_chars s

abbrev pub line_of : Text → Option (Text × Text) → Option Line
line_of raw none = none
line_of raw (some ([], rest)) = none
line_of raw (some (c ∷ kind, rest)) =
    if all_kind_chars (c ∷ kind)
    then some (record { kind = c ∷ kind; fields = split_fields rest; raw = raw })
    else none

-- `ParseLine`
unfoldable pub parse_line : Text → Option Line
unfolding trim_newlines cut_colon split_fields
parse_line raw = let s = trim_newlines raw in line_of s (cut_colon s)

-- `Line.field`
abbrev pub field : Line → ℕ → Text
field l n = get_or l.fields n []

abbrev pub int_or_zero : Option ℤ → ℤ
int_or_zero none = pos 0
int_or_zero (some v) = v

-- `Line.intField`
unfoldable pub int_field : Unicode → Line → ℕ → ℤ
unfolding trim_space atoi
int_field u l n = int_or_zero (atoi (trim_space u (field l n)))

-- `strings.Split` with a separator of one byte
unfoldable pub split_on : ℕ → Text → List Text
split_on sep [] = [] ∷ []
split_on sep (c ∷ s) = elim (split_on sep s) [
  | [] ↦ []
  | p ∷ ps ↦ if c == sep then [] ∷ p ∷ ps else (c ∷ p) ∷ ps
]

-- The loop of `ParseDuration` over the parts, on the low 64 bits of the total.
abbrev pub add_part : ℕ → Option ℤ → Option ℕ
add_part total none = none
add_part total (some (negsuc v)) = none
add_part total (some (pos v)) = some ((total * 60 + v) % 2 ^ 64)

unfoldable pub add_parts : ℕ → List Text → Option ℕ
unfolding atoi
add_parts total [] = some total
add_parts total (p ∷ ps) = elim (add_part total (atoi p)) [
  | none ↦ none
  | some next ↦ add_parts next ps
]

abbrev pub seconds_of : Option ℕ → ℤ
seconds_of none = pos 0
seconds_of (some total) = int64 total

-- `ParseDuration`
unfoldable pub parse_duration : Unicode → Text → ℤ
unfolding trim_space split_on add_parts int64
parse_duration u s =
    let parts = split_on b':' (trim_space u s) in
    if ltb (length parts) 2 || ltb 3 (length parts) then pos 0 else seconds_of (add_parts 0 parts)

-- `parseBytes`
unfoldable pub parse_bytes : Text → ℤ
unfolding atoi
parse_bytes s = int_or_zero (atoi (filter is_digit s))

pub record Message : Type 0 where
  pub code : ℤ
  pub flags : ℤ
  pub text : Text

-- `parseMessage`
unfoldable pub parse_message : Unicode → Line → Message
unfolding int_field
parse_message u l = record { code = int_field u l 0; flags = int_field u l 1; text = field l 3 }

pub record DriveLine : Type 0 where
  pub index : ℤ
  pub visible : ℤ
  pub enabled : ℤ
  pub flags : ℤ
  pub drive_name : Text
  pub disc_name : Text
  pub device_path : Text

-- `parseDriveLine`
unfoldable pub parse_drive_line : Unicode → Line → DriveLine
unfolding int_field
parse_drive_line u l = record {
  index = int_field u l 0;
  visible = int_field u l 1;
  enabled = int_field u l 2;
  flags = int_field u l 3;
  drive_name = field l 4;
  disc_name = field l 5;
  device_path = field l 6;
}

pub record Progress : Type 0 where
  pub current : Text
  pub total : Text
  pub value : ℤ
  pub total_val : ℤ
  pub max : ℤ
  pub has_values : Bool

-- A quotient of two integers as `Progress.Fraction` bounds it, as a numerator and a denominator.
unfoldable pub bounded_quotient : ℤ → ℤ → ℕ × ℕ
bounded_quotient total (negsuc m) = (0, 1)
bounded_quotient total (pos zero) = (0, 1)
bounded_quotient (negsuc t) (pos (suc m)) = (0, 1)
bounded_quotient (pos t) (pos (suc m)) = if ltb (suc m) t then (1, 1) else (t, suc m)

-- `Progress.Fraction`
unfoldable pub fraction : Progress → ℕ × ℕ
unfolding bounded_quotient
fraction p = if p.has_values then bounded_quotient p.total_val p.max else (0, 1)
