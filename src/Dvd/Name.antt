-- ===== src/Dvd/Name.antt =====
-- internal/dvd/ifo.go: the name that a Video Manager and its Text Data Manager hold.
use hellbox.Base.{
  ℕ, ◌+◌, ◌*◌, Bool, true, not, ◌&&◌, ◌||◌, List, [], ◌∷◌, Option, none, some, ltb, leb, ◌==◌,
  if◌then◌else◌, Text, codes, text_eq, length, take, any, filter, starts_with, Unicode, lower,
  trim_space,
}
use hellbox.Dvd.Vmg.{
  vmg_magic, provider_offset, provider_len, sector_size, read_at, find_vmg_sector, first_vmg,
  Source, nothing_there, directory, bytes, read_vmg, text_sector,
}

-- `readVMGFile`, of which a directory has one candidate less
unfoldable pub read_vmg_file : Source → Option (List ℕ)
read_vmg_file nothing_there = none
read_vmg_file (directory candidates) = first_vmg (take 3 candidates)
read_vmg_file (bytes regular b) = if starts_with vmg_magic b then some b else none

-- The sectors of the Text Data Manager on a raw disc
abbrev pub text_on_disc : List ℕ → ℕ → Option ℕ → Option (List ℕ)
text_on_disc b sector none = none
text_on_disc b sector (some base) =
    some (read_at b (sector_size * 2) ((base + sector) * sector_size))

-- The same in a file that has been read whole, or else what is found otherwise
abbrev pub text_in_file : Option (List ℕ) → ℕ → Option (List ℕ) → Option (List ℕ)
text_in_file none sector otherwise = otherwise
text_in_file (some raw) sector otherwise =
    if ltb (sector * sector_size) (length raw)
    then some (read_at raw (sector_size * 2) (sector * sector_size))
    else otherwise

-- `readTextData`
unfoldable pub read_text_data : Source → ℕ → Option (List ℕ)
read_text_data nothing_there sector = none
read_text_data (directory candidates) sector =
    text_in_file (read_vmg_file (directory candidates)) sector none
read_text_data (bytes regular b) sector =
    let on_disc = text_on_disc b sector (find_vmg_sector b) in
    if regular then text_in_file (read_vmg_file (bytes regular b)) sector on_disc else on_disc

abbrev pub is_readable : ℕ → Bool
is_readable c = (leb 32 c && leb c 126) || c == 9

-- The longest start of readable bytes.
abbrev pub readable_start : List ℕ → List ℕ
readable_start [] = []
readable_start (c ∷ s) = if is_readable c then c ∷ readable_start s else []

-- `printableRun`, the leftmost match; a run that is too short is passed over byte by byte.
unfoldable pub printable_run : List ℕ → Option (List ℕ)
printable_run [] = none
printable_run (c ∷ s) =
    let later = printable_run s in
    let run = readable_start (c ∷ s) in if ltb (length run) 6 then later else some run

abbrev pub without_equals : Text → Text
without_equals [] = []
without_equals (c ∷ s) = if c == b'=' then s else c ∷ s

abbrev pub up_to_tab : Text → Text
up_to_tab [] = []
up_to_tab (c ∷ s) = if c == 9 then [] else c ∷ up_to_tab s

abbrev pub before_nul : ℕ → List ℕ → List ℕ
before_nul c [] = if c == 0 then [] else c ∷ []
before_nul c (d ∷ r) = c ∷ d ∷ r

-- `bytes.TrimRight(raw, "\x00")`
unfoldable pub trim_nuls : List ℕ → List ℕ
trim_nuls [] = []
trim_nuls (c ∷ s) = before_nul c (trim_nuls s)

-- The table `genericProviders`
abbrev pub generic_providers : List Text
generic_providers =
    codes "dvd_video"
    ∷ codes "dvdvideo"
    ∷ codes "dvd video"
    ∷ codes "dvd"
    ∷ codes "video_ts"
    ∷ codes "untitled"
    ∷ codes "unnamed"
    ∷ codes "unknown"
    ∷ codes "default"
    ∷ codes "none"
    ∷ codes "copyright"
    ∷ codes "generic"
    ∷ codes "sony dvd video"
    ∷ codes "dvd authoring"
    ∷ []

-- `isGenericProvider`
unfoldable pub is_generic_provider : Unicode → Text → Bool
is_generic_provider u s = any (text_eq (lower u (trim_space u s))) generic_providers

-- `utf8Printable`
unfoldable pub utf8_printable : Unicode → Text → Bool
utf8_printable u [] = true
utf8_printable u (c ∷ s) = not (c == 65533) && (u.is_print c || c == 32) && utf8_printable u s

-- What `strings.Map` keeps
abbrev pub is_kept : Unicode → ℕ → Bool
is_kept u c = not (c == 0 || (u.is_control c && not (c == 9)))

-- The text that `cleanProvider` judges, for a decoding of UTF-8
unfoldable pub provider_text : Unicode → (List ℕ → Text) → List ℕ → Text
provider_text u decode raw =
    trim_space u (filter (is_kept u) (trim_space u (decode (trim_nuls raw))))

-- Whether `cleanProvider` takes a text for a name.
unfoldable pub is_name : Unicode → Text → Bool
is_name u s =
    leb 3 (length s)
    && utf8_printable u s
    && leb (length s) (length (filter u.is_letter s) * 2)
    && not (is_generic_provider u s)

-- `cleanProvider`
unfoldable pub clean_provider : Unicode → (List ℕ → Text) → List ℕ → Text
clean_provider u decode raw = let s = provider_text u decode raw in if is_name u s then s else []

abbrev pub title_in : Unicode → (List ℕ → Text) → Option (List ℕ) → Text
title_in u decode none = []
title_in u decode (some run) =
    clean_provider u decode (trim_space u (up_to_tab (without_equals (trim_space u run))))

abbrev pub run_in : Option (List ℕ) → Option (List ℕ)
run_in none = none
run_in (some blob) = printable_run blob

-- `textDataTitle`
unfoldable pub text_data_title : Unicode → (List ℕ → Text) → Source → List ℕ → Text
text_data_title u decode source vmg =
    let sector = text_sector vmg in
    if sector == 0 then [] else title_in u decode (run_in (read_text_data source sector))

abbrev pub provider_field : List ℕ → List ℕ
provider_field raw = read_at raw provider_len provider_offset

abbrev pub is_long : List ℕ → Bool
is_long raw = leb (provider_offset + provider_len) (length raw)

abbrev pub text_or : Text → Text → Text
text_or [] other = other
text_or (c ∷ s) other = c ∷ s

abbrev pub title_of : Unicode → (List ℕ → Text) → Source → Option (List ℕ) → Option Text
title_of u decode source none = none
title_of u decode source (some raw) = some (
    text_or (text_data_title u decode source raw)
      (if is_long raw then clean_provider u decode (provider_field raw) else []))

-- `DiscTitle`; `none` is an error
unfoldable pub disc_title : Unicode → (List ℕ → Text) → Source → Option Text
disc_title u decode source = title_of u decode source (read_vmg source)

abbrev pub provider_of : Unicode → (List ℕ → Text) → Option (List ℕ) → Option Text
provider_of u decode none = none
provider_of u decode (some raw) =
    if is_long raw then some (clean_provider u decode (provider_field raw)) else none

-- `ProviderID`
unfoldable pub provider_id : Unicode → (List ℕ → Text) → Source → Option Text
provider_id u decode source = provider_of u decode (read_vmg source)
