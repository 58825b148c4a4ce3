-- ===== src/Drive/Tests.antt =====
-- Captured bytes and short histories of a drive.
use hellbox.Base.{
  ℕ, ◌*◌, ◌-◌, ◌≤◌, ◌≡◌, ◌≢◌, ◌⊎◌, ◌↔◌, refl, true, List, [], ◌∷◌, some, none, arith, codes,
}
use hellbox.Drive.Sense.{no_disc, tray_open, not_ready, parse_sense, status_from_sense}
use hellbox.Drive.Profile.{disc_bluray, disc_unknown, kind_from_config}
use hellbox.Drive.Region.{
  Region, Protection, rpc2, region_list, allowed_regions, playable_in, parse_rpc_state,
  parse_copyright,
}
use hellbox.Drive.Region.Playable.{HaveCommonRegion, playable_iff}
use hellbox.Drive.Monitor.{Monitor, second, read, History, polled, tick, status_eq}
use hellbox.Drive.Monitor.Settle.{Chained, Believed, Streak, polled_reports, transient_settles}

-- Fixed-format sense data of a drive with its tray open.
abbrev open_tray : List ℕ
open_tray = 0x70 ∷ 0 ∷ 2 ∷ 0 ∷ 0 ∷ 0 ∷ 0 ∷ 10 ∷ 0 ∷ 0 ∷ 0 ∷ 0 ∷ 0x3a ∷ 0x02 ∷ []

open_tray_read : status_from_sense (parse_sense open_tray) ≡ tray_open
unfolding parse_sense status_from_sense
open_tray_read = refl

-- A Blu-ray in the drive, and a profile that the table does not list.
kinds :
    (kind_from_config (0 ∷ 0 ∷ 0 ∷ 4 ∷ 0 ∷ 0 ∷ 0 ∷ 0x40 ∷ []) ≡ some (disc_bluray, 0x40))
    × (kind_from_config (0 ∷ 0 ∷ 0 ∷ 4 ∷ 0 ∷ 0 ∷ 1 ∷ 0x40 ∷ []) ≡ some (disc_unknown, 0x140))
unfolding kind_from_config
kinds = (refl, refl)

-- An RPC-2 drive set to region 1, and a CSS disc for regions 1, 3 and 4.
abbrev region_one : Region
region_one = record { scheme = 1; type_code = 1; mask = 0xfe; user_changes = 4; vendor_resets = 4 }

abbrev three_regions : Protection
three_regions = record { system = 1; region_mask = 0xf2 }

decoded :
    (parse_rpc_state (0 ∷ 6 ∷ 0 ∷ 0 ∷ 0x64 ∷ 0xfe ∷ 1 ∷ 0 ∷ []) ≡ region_one)
    × (parse_copyright (0 ∷ 6 ∷ 0 ∷ 0 ∷ 1 ∷ 0xf2 ∷ 0 ∷ 0 ∷ []) ≡ three_regions)
    × (region_list region_one ≡ 1 ∷ [])
    × (allowed_regions three_regions ≡ 1 ∷ 3 ∷ 4 ∷ [])
unfolding parse_rpc_state parse_copyright region_list allowed_regions
decoded = (refl, refl, refl, refl)

playable_iff_example : (playable_in three_regions region_one ≡ true) ↔ (
    (three_regions.system ≡ 0)
    ⊎ (region_one.scheme ≢ rpc2)
    ⊎ HaveCommonRegion three_regions region_one)
playable_iff_example = playable_iff three_regions region_one (omega arith) (omega arith)

abbrev monitor : Monitor
monitor = record {
  device = record {
    stable_id = codes "id";
    device_path = codes "/dev/sr0";
    vendor = [];
    model = [];
  };
  interval = 2 * second;
  settle = 3 * second;
}

-- Newest first: empty, then a tray that closes for four seconds.
abbrev closing : History
closing =
    (6 * second, read not_ready) ∷ (4 * second, read not_ready) ∷ (2 * second, read no_disc) ∷ []

polled_reports_example :
    Chained (polled monitor closing).0.current (polled monitor closing).1
    × (closing ≢ [] → (polled monitor closing).1 ≢ [])
    × Believed closing (polled monitor closing).0.current
polled_reports_example = polled_reports monitor closing

transient_settles_example : (t : ℕ) × Streak not_ready t closing × (monitor.settle ≤ 8 * second - t)
unfolding polled tick status_eq
transient_settles_example =
    transient_settles monitor closing (8 * second) not_ready
      {ev = record {
        device = monitor.device;
        from = no_disc;
        to = not_ready;
        at = 8 * second;
        error = none;
      }}
      (λ e. cc) refl refl
