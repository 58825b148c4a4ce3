-- ===== src/Drive/Sense/Statuses.antt =====
-- internal/drive/sense.go: which sense data each status of the tray comes from.
use hellbox.Base.{ℕ, ◌%◌, ◌≤◌, ◌≡◌, ◌≢◌, ◌↔◌, ◌⊎◌, List, arith, length, get_or}
use hellbox.Drive.Sense.{disc_ok, tray_open, incompatible, parse_sense, status_from_sense}

-- The additional sense code and its qualifier satisfy `P`, where they stand: in bytes 2 and 3 of
-- descriptor-format data, in bytes 12 and 13 of fixed-format data.
abbrev pub CodesSatisfy : (ℕ → ℕ → Type 0) → List ℕ → Type 0
CodesSatisfy P b =
    (((get_or b 0 0 % 128 ≡ 0x72) ⊎ (get_or b 0 0 % 128 ≡ 0x73))
      × (4 ≤ length b)
      × P (get_or b 2 0) (get_or b 3 0))
    ⊎ ((get_or b 0 0 % 128 ≢ 0x72)
        × (get_or b 0 0 % 128 ≢ 0x73)
        × (14 ≤ length b)
        × P (get_or b 12 0) (get_or b 13 0))

abbrev pub IsTrayOpenCode : ℕ → ℕ → Type 0
IsTrayOpenCode asc ascq = (asc ≡ 0x3a) × (ascq ≡ 0x02)

abbrev pub IsIncompatibleCode : ℕ → ℕ → Type 0
IsIncompatibleCode asc ascq = asc ≡ 0x30

-- Sense data that `parseSense` decodes never reads as a readable disc. It reads as an open tray
-- exactly if it carries code 0x3a with qualifier 0x02, in the place that its format has for them,
-- and as an unreadable disc exactly if it carries code 0x30 there.
status_of_sense_bytes :
    (b : List ℕ)
    → (status_from_sense (parse_sense b) ≢ disc_ok)
      × ((status_from_sense (parse_sense b) ≡ tray_open) ↔ CodesSatisfy IsTrayOpenCode b)
      × ((status_from_sense (parse_sense b) ≡ incompatible) ↔ CodesSatisfy IsIncompatibleCode b)
unfolding status_from_sense parse_sense
status_of_sense_bytes b =
    (never, (λ h. ground arith, λ h. ground arith), (λ h. ground arith, λ h. ground arith))
  where
    never : status_from_sense (parse_sense b) ≢ disc_ok
    never h = ground arith
