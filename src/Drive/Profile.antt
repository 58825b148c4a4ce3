-- ===== src/Drive/Profile.antt =====
-- internal/drive/profile.go: the kind of a disc, from its MMC profile number.
use hellbox.Base.{
  ℕ, ◌+◌, ◌*◌, ◌^◌, List, [], ◌∷◌, Option, none, some, ltb, ◌==◌, if◌then◌else◌, length, get_or,
}

pub data DiscKind : Type 0 where
  disc_none disc_cd disc_dvd disc_bluray disc_unknown : DiscKind

-- The table `profiles`.
unfoldable pub profiles : List (ℕ × DiscKind)
profiles =
    (0x0000, disc_none)
    ∷ (0x0008, disc_cd)
    ∷ (0x0009, disc_cd)
    ∷ (0x000A, disc_cd)
    ∷ (0x0010, disc_dvd)
    ∷ (0x0011, disc_dvd)
    ∷ (0x0012, disc_dvd)
    ∷ (0x0013, disc_dvd)
    ∷ (0x0014, disc_dvd)
    ∷ (0x0015, disc_dvd)
    ∷ (0x0016, disc_dvd)
    ∷ (0x0017, disc_dvd)
    ∷ (0x001A, disc_dvd)
    ∷ (0x001B, disc_dvd)
    ∷ (0x002A, disc_dvd)
    ∷ (0x002B, disc_dvd)
    ∷ (0x0040, disc_bluray)
    ∷ (0x0041, disc_bluray)
    ∷ (0x0042, disc_bluray)
    ∷ (0x0043, disc_bluray)
    ∷ (0x0050, disc_bluray)
    ∷ []

unfoldable pub profile_lookup : ℕ → List (ℕ × DiscKind) → Option DiscKind
profile_lookup p [] = none
profile_lookup p ((q, k) ∷ rest) = if q == p then some k else profile_lookup p rest

-- `kindFromConfig`; `none` is the error for a short response, which comes with `DiscUnknown`.
unfoldable pub kind_from_config : List ℕ → Option (DiscKind × ℕ)
unfolding profiles profile_lookup
kind_from_config b =
    if ltb (length b) 8
    then none
    else (let p = get_or b 6 0 * 2 ^ 8 + get_or b 7 0 in
        elim (profile_lookup p profiles) [ some k ↦ some (k, p) | none ↦ some (disc_unknown, p) ])
