-- ===== src/Drive/Sense.antt =====
-- internal/drive/sense.go and `Status` of internal/drive/drive.go: sense data, and the state of the
-- tray that it stands for.
pub mod Statuses
use hellbox.Base.{ℕ, ◌%◌, Bool, true, false, ◌||◌, List, ltb, ◌==◌, if◌then◌else◌, length, get_or}

-- `Status`, in the order of the constants.
pub data Status : Type 0 where
  unknown no_disc tray_open not_ready disc_ok incompatible : Status

-- `senseResult`
pub record SenseResult : Type 0 where
  pub good : Bool
  pub sense_key : ℕ
  pub asc : ℕ
  pub ascq : ℕ

-- A `senseResult` that is not good, with its three codes.
abbrev pub sense : ℕ → ℕ → ℕ → SenseResult
sense key asc ascq = record { good = false; sense_key = key; asc = asc; ascq = ascq }

-- `parseSense`; the masks 0x7f and 0x0f keep the low seven and four bits.
unfoldable pub parse_sense : List ℕ → SenseResult
parse_sense b =
    if ltb (length b) 3
    then sense 0 0 0
    else if at 0 % 128 == 0x72 || at 0 % 128 == 0x73
    then (if ltb (length b) 4 then sense 0 0 0 else sense (at 1 % 16) (at 2) (at 3))
    else if ltb (length b) 14
    then sense (at 2 % 16) 0 0
    else sense (at 2 % 16) (at 12) (at 13)
  where
    at : ℕ → ℕ
    at i = get_or b i 0

abbrev pub asc_not_ready : ℕ
asc_not_ready = 0x04

abbrev pub asc_incompatible_media : ℕ
asc_incompatible_media = 0x30

abbrev pub asc_medium_not_present : ℕ
asc_medium_not_present = 0x3a

-- `statusFromSense`
unfoldable pub status_from_sense : SenseResult → Status
status_from_sense r =
    if r.good
    then disc_ok
    else if r.asc == asc_medium_not_present
    then (if r.ascq == 0x02 then tray_open else no_disc)
    else if r.asc == asc_incompatible_media
    then incompatible
    else if r.asc == asc_not_ready
    then not_ready
    else if r.sense_key == 0x02
    then not_ready
    else unknown
