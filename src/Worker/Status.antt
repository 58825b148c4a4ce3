-- ===== src/Worker/Status.antt =====
-- internal/proto/drive.go and internal/daemon/state.go: the states of a drive, and what a worker
-- shows of it. A fraction stands for the float in its place; the estimate of the time left, which
-- float arithmetic on the wall clock gives, is an argument.
use hellbox.Base.{
  ℕ, ◌+◌, Bool, true, false, ◌||◌, [], Option, none, some, ◌==◌, if◌then◌else◌, Text,
}
use hellbox.Catalog.{Problem}

pub data DriveState : Type 0 where
  absent empty tray_open loading incompatible queued scanning decrypting ripping verifying :
      DriveState
  complete duplicate failed cancelled ejecting : DriveState

-- `Terminal`
unfoldable pub is_terminal : DriveState → Bool
is_terminal complete = true
is_terminal duplicate = true
is_terminal failed = true
is_terminal incompatible = true
is_terminal cancelled = true
is_terminal _ = false

-- `Busy`
unfoldable pub is_busy : DriveState → Bool
is_busy queued = true
is_busy scanning = true
is_busy decrypting = true
is_busy ripping = true
is_busy verifying = true
is_busy ejecting = true
is_busy _ = false

-- The states in which `setState` clears what it shows of a disc.
unfoldable pub is_rest : DriveState → Bool
is_rest empty = true
is_rest tray_open = true
is_rest absent = true
is_rest _ = false

abbrev pub code_of : DriveState → ℕ
code_of absent = 0
code_of empty = 1
code_of tray_open = 2
code_of loading = 3
code_of incompatible = 4
code_of queued = 5
code_of scanning = 6
code_of decrypting = 7
code_of ripping = 8
code_of verifying = 9
code_of complete = 10
code_of duplicate = 11
code_of failed = 12
code_of cancelled = 13
code_of ejecting = 14

-- `DriveSnapshot`, with the counters of `driveStatus`.
pub record Status : Type 0 where
  pub state : DriveState
  pub since : ℕ
  pub disc_label : Text
  pub fingerprint : Text
  pub rip_dir : Text
  pub title_count : ℕ
  pub titles_done : ℕ
  pub current_title : ℕ
  pub fraction : ℕ
  pub operation : Text
  pub eta_seconds : ℕ
  pub error : Option Problem
  pub attempt : ℕ
  pub rip_started : Option ℕ
  pub secs_done : ℕ
  pub secs_total : ℕ

unfoldable pub new_status : ℕ → Status
new_status now = record {
  state = empty;
  since = now;
  disc_label = [];
  fingerprint = [];
  rip_dir = [];
  title_count = 0;
  titles_done = 0;
  current_title = 0;
  fraction = 0;
  operation = [];
  eta_seconds = 0;
  error = none;
  attempt = 0;
  rip_started = none;
  secs_done = 0;
  secs_total = 0;
}

abbrev pub cleared : Status → Status
cleared s = record s {
  disc_label = [];
  fingerprint = [];
  rip_dir = [];
  title_count = 0;
  titles_done = 0;
  current_title = 0;
  fraction = 0;
  operation = [];
  eta_seconds = 0;
  error = none;
  attempt = 0;
  secs_done = 0;
  secs_total = 0;
}

-- `setState`: staying in a state changes nothing.
unfoldable pub set_state : Status → DriveState → ℕ → Status
set_state s to now =
    let moved = record s { state = to; since = now } in
    if code_of s.state == code_of to then s else if is_rest to then cleared moved else moved

-- `beginRip`
unfoldable pub begin_rip : Status → ℕ → ℕ → Status
begin_rip s total now = record s { rip_started = some now; secs_total = total; secs_done = 0 }

abbrev pub is_none {ℓ} : {A : Type ℓ} → Option A → Bool
is_none none = true
is_none (some a) = false

-- `titleDone`; `estimate` is the new estimate, `none` where the rate is not positive.
unfoldable pub title_done : Status → ℕ → Option ℕ → Status
title_done s duration estimate =
    let moved = record s {
      secs_done = s.secs_done + duration;
      titles_done = s.titles_done + 1;
      fraction = 0;
      operation = [];
    } in
    if moved.secs_done == 0 || moved.secs_total == 0 || is_none s.rip_started
    then moved
    else elim estimate [ none ↦ moved | some eta ↦ record moved { eta_seconds = eta } ]

-- `setProgress`
unfoldable pub set_progress : Status → ℕ → ℕ → Text → Status
set_progress s title fraction operation = record s {
  current_title = title;
  fraction = fraction;
  operation = operation;
}
