-- ===== src/Config.antt =====
-- internal/config/config.go: the settings that Validate reads, and its checks in their order. Reading the
-- file is not modelled. A duration is its nanoseconds; an int may be negative.
pub mod Bounds
mod Tests
use hellbox.Base.{
  ℕ, zero, suc, ◌*◌, ◌^◌, Bool, true, false, not, ◌&&◌, ◌||◌, List, [], ◌∷◌, Option, none, some,
  ltb, ◌==◌, if◌then◌else◌, Text, codes, text_eq, ℤ, pos, negsuc, starts_with,
}

pub record DriveConfig : Type 0 where
  pub stable_id : Text
  pub label : Text
  pub disabled : Bool

pub record Config : Type 0 where
  pub rips_dir : Text
  pub library_dir : Text
  pub transcoded_dir : Text
  pub state_path : Text
  pub socket_path : Text
  pub min_title_seconds : ℤ
  pub max_rip_attempts : ℤ
  pub scan_attempts : ℤ
  pub scan_retry_delay : ℤ
  pub scan_timeout : ℤ
  pub rip_stall_timeout : ℤ
  pub file_to_library : Bool
  pub transcode : Bool
  pub transcode_max_height : ℤ
  pub transcode_max_kbps : ℤ
  pub transcode_quality : ℤ
  pub poll_interval : ℤ
  pub auto_refresh_key : Bool
  pub key_refresh_interval : ℤ
  pub makemkv_settings_path : Text
  pub drives : List DriveConfig

-- `Default`, of these settings
unfoldable pub defaults : Config
defaults = record {
  rips_dir = codes "/srv/media/rips";
  library_dir = codes "/srv/media/library";
  transcoded_dir = codes "/srv/media/transcoded";
  state_path = codes "/var/lib/hellbox/state.db";
  socket_path = codes "/run/hellbox/hellbox.sock";
  min_title_seconds = pos 60;
  max_rip_attempts = pos 2;
  scan_attempts = pos 3;
  scan_retry_delay = pos (15 * 10 ^ 9);
  scan_timeout = pos 0;
  rip_stall_timeout = pos (600 * 10 ^ 9);
  file_to_library = false;
  transcode = true;
  transcode_max_height = pos 0;
  transcode_max_kbps = pos 6000;
  transcode_quality = pos 20;
  poll_interval = pos (2 * 10 ^ 9);
  auto_refresh_key = true;
  key_refresh_interval = pos (21600 * 10 ^ 9);
  makemkv_settings_path = [];
  drives = [];
}

-- What is wrong with a setting, by its name
pub data Fault : Type 0 where
  must_be_set not_absolute negative not_positive out_of_range : Text → Fault

-- `filepath.IsAbs`, on Linux
abbrev pub is_abs : Text → Bool
is_abs path = starts_with (b'/' ∷ []) path

abbrev pub is_negative : ℤ → Bool
is_negative (pos n) = false
is_negative (negsuc n) = true

-- Whether an integer is at least one.
abbrev pub is_positive : ℤ → Bool
is_positive (pos n) = ltb 0 n
is_positive (negsuc n) = false

-- Whether an integer is above a natural number.
abbrev pub is_above : ℕ → ℤ → Bool
is_above k (pos n) = ltb k n
is_above k (negsuc n) = false

abbrev pub path_fault : Text → Text → Option Fault
path_fault name value =
    if text_eq value []
    then some (must_be_set name)
    else if is_abs value
    then none
    else some (not_absolute name)

abbrev pub fault_if : Bool → Fault → Option Fault
fault_if true f = some f
fault_if false f = none

-- The first fault of a list of checks
abbrev pub first_fault : List (Option Fault) → Option Fault
first_fault [] = none
first_fault (some f ∷ rest) = some f
first_fault (none ∷ rest) = first_fault rest

abbrev pub needs_path : Text → Bool
needs_path dir = text_eq dir [] || not (is_abs dir)

-- The checks of `Validate`, in their order
unfoldable pub checks : Config → List (Option Fault)
unfolding text_eq
checks c =
    (path_fault (codes "rips_dir") c.rips_dir
      ∷ path_fault (codes "state_path") c.state_path
      ∷ path_fault (codes "socket_path") c.socket_path
      ∷ fault_if (is_negative c.min_title_seconds) (negative (codes "min_title_seconds"))
      ∷ fault_if (not (is_positive c.max_rip_attempts)) (not_positive (codes "max_rip_attempts"))
      ∷ fault_if (not (is_positive c.scan_attempts)) (not_positive (codes "scan_attempts"))
      ∷ fault_if (is_above 1 c.scan_attempts && not (is_positive c.scan_retry_delay))
          (not_positive (codes "scan_retry_delay"))
      ∷ fault_if (is_negative c.scan_timeout) (negative (codes "scan_timeout"))
      ∷ fault_if (is_negative c.rip_stall_timeout) (negative (codes "rip_stall_timeout"))
      ∷ fault_if (c.file_to_library && needs_path c.library_dir)
          (not_absolute (codes "library_dir"))
      ∷ fault_if (c.transcode && needs_path c.transcoded_dir)
          (not_absolute (codes "transcoded_dir"))
      ∷ fault_if (c.transcode && is_negative c.transcode_max_height)
          (negative (codes "transcode_max_height"))
      ∷ fault_if (c.transcode && is_negative c.transcode_max_kbps)
          (negative (codes "transcode_max_kbps"))
      ∷ fault_if
          (c.transcode && (is_negative c.transcode_quality || is_above 51 c.transcode_quality))
          (out_of_range (codes "transcode_quality"))
      ∷ fault_if (not (is_positive c.poll_interval)) (not_positive (codes "poll_interval"))
      ∷ fault_if (c.auto_refresh_key && not (is_positive c.key_refresh_interval))
          (not_positive (codes "key_refresh_interval"))
      ∷ fault_if (not (text_eq c.makemkv_settings_path []) && not (is_abs c.makemkv_settings_path))
          (not_absolute (codes "makemkv_settings_path"))
      ∷ [])

-- `Validate`
unfoldable pub validate : Config → Option Fault
unfolding checks
validate c = first_fault (checks c)

-- The loop of `DriveFor`
unfoldable pub drive_in : Text → List DriveConfig → Option DriveConfig
unfolding text_eq
drive_in id [] = none
drive_in id (d ∷ ds) = if text_eq d.stable_id id then some d else drive_in id ds

-- `DriveFor`
unfoldable pub drive_for : Config → Text → Option DriveConfig
unfolding drive_in
drive_for c id = drive_in id c.drives
