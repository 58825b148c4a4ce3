-- ===== src/Dvd/Vmg.antt =====
-- internal/dvd/ifo.go: the search for the Video Manager.
use hellbox.Base.{
  ℕ, zero, suc, ◌+◌, ◌*◌, ◌^◌, Bool, not, ◌&&◌, List, [], ◌∷◌, Option, none, some, ltb,
  if◌then◌else◌, Text, codes, text_eq, length, get_or, take, drop, starts_with,
}

-- `vmgMagic`
abbrev pub vmg_magic : Text
vmg_magic = codes "DVDVIDEO-VMG"

abbrev pub provider_offset : ℕ
provider_offset = 64

abbrev pub provider_len : ℕ
provider_len = 32

abbrev pub sector_size : ℕ
sector_size = 2048

abbrev pub scan_sectors : ℕ
scan_sectors = 4096

-- `ReadAt` of a buffer: the bytes that are there, fewer than asked for where an error ends the read.
abbrev pub read_at : List ℕ → ℕ → ℕ → List ℕ
read_at source count offset = take count (drop offset source)

-- The loop of `scanForVMG` over the sectors from one on
unfoldable pub scan_from : List ℕ → ℕ → ℕ → Option (List ℕ)
scan_from source zero s = none
scan_from source (suc left) s =
    let buf = read_at source sector_size (s * sector_size) in
    let later = scan_from source left (s + 1) in
    if ltb (length buf) (provider_offset + provider_len)
    then none
    else if starts_with vmg_magic buf
    then some buf
    else if ltb (length buf) sector_size
    then none
    else later

-- `scanForVMG`
unfoldable pub scan_for_vmg : List ℕ → Option (List ℕ)
scan_for_vmg source = scan_from source scan_sectors 0

-- The loop of `findVMGSector`
unfoldable pub find_from : List ℕ → ℕ → ℕ → Option ℕ
unfolding text_eq
find_from source zero s = none
find_from source (suc left) s =
    let buf = read_at source (length vmg_magic) (s * sector_size) in
    let later = find_from source left (s + 1) in
    if ltb (length buf) (length vmg_magic)
    then none
    else if text_eq buf vmg_magic
    then some s
    else later

-- `findVMGSector`
unfoldable pub find_vmg_sector : List ℕ → Option ℕ
find_vmg_sector source = find_from source scan_sectors 0

-- The first of the four candidates of a directory that can be read and begins with the magic
unfoldable pub first_vmg : List (Option (List ℕ)) → Option (List ℕ)
first_vmg [] = none
first_vmg (none ∷ rest) = first_vmg rest
first_vmg (some b ∷ rest) = if starts_with vmg_magic b then some b else first_vmg rest

-- What a source is: nothing, a directory with its candidates, or a file or device with its bytes, and
-- whether it is a regular file.
pub data Source : Type 0 where
  nothing_there : Source
  directory : List (Option (List ℕ)) → Source
  bytes : Bool → List ℕ → Source

-- The head of a file, if it could be read in full and begins with the magic, or what is found otherwise.
abbrev pub head_or : List ℕ → Option (List ℕ) → Option (List ℕ)
head_or head found =
    if not (ltb (length head) (provider_offset + provider_len)) && starts_with vmg_magic head
    then some head
    else found

-- `readVMG`
unfoldable pub read_vmg : Source → Option (List ℕ)
read_vmg nothing_there = none
read_vmg (directory candidates) = first_vmg candidates
read_vmg (bytes regular b) = head_or (read_at b (provider_offset + provider_len) 0) (scan_for_vmg b)

abbrev pub txtdt_offset : ℕ
txtdt_offset = 212

-- `binary.BigEndian.Uint32`
abbrev pub big_endian : List ℕ → ℕ
big_endian b = get_or b 0 0 * 2 ^ 24 + get_or b 1 0 * 2 ^ 16 + get_or b 2 0 * 2 ^ 8 + get_or b 3 0

-- The sector of the Text Data Manager that `textDataTitle` reads of a Video Manager; zero is none.
unfoldable pub text_sector : List ℕ → ℕ
text_sector vmg =
    if ltb (length vmg) (txtdt_offset + 4) then 0 else big_endian (drop txtdt_offset vmg)
