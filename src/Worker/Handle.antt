-- ===== src/Worker/Handle.antt =====
-- internal/daemon/worker.go: `handleDisc`, which takes a disc from its insertion to an open tray,
-- and `handleEvent`. A log line has no part in the model.
pub mod Tray
pub mod Attempts
pub mod Cancelled
use hellbox.Base.{
  ℕ, ◌+◌, Bool, true, false, not, ◌&&◌, ◌||◌, [], ◌∷◌, Option, none, some, leb, if◌then◌else◌,
  length, Text, codes,
}
use hellbox.Catalog.{
  JobState, Problem, incompatible_disc, attempts_used, was_cancelled, reported, in_step, Disc,
  DiscRow, Catalog, is_ripped, or_else, find_disc, save_disc, attempts_for_disc, create_job,
  set_job_state,
}
use hellbox.Drive.Sense.{Status}
use hellbox.Drive.Monitor.{Event}
use hellbox.Drive.Profile.{disc_bluray}
use hellbox.Worker.Status.{DriveState, is_busy, ejecting, queued, scanning, is_none}
use hellbox.Worker.World.{
  World, Worker, Result, ok, err, ScanResult, find_call, save_call, attempts_call, create_call,
  complete_call, failed_call, cancelled_call, tray_opened, published, handed_on, emit, to_state,
  run_sql,
}
use hellbox.Worker.Scan.{is_gone, is_cancellation, is_context_end, scan_with_retry}
use hellbox.Worker.Rip.{rip}

-- `ejectNow`
unfoldable pub eject_now : World → Worker → Worker
eject_now env w =
    let ejecting_worker = to_state env w ejecting in
    if not env.config.eject_on_success then w else elim (env.eject_error) [
      | some e ↦ ejecting_worker
      | none ↦ to_state env (emit ejecting_worker tray_opened) DriveState.tray_open
    ]

abbrev pub with_error : Worker → Problem → Worker
with_error w p = record w { status = record w.status { error = some p } }

-- `fail`
unfoldable pub fail : World → Worker → Problem → Worker
fail env w p =
    let failed = to_state env (with_error w p) DriveState.failed in
    if env.config.eject_on_failure then eject_now env failed else failed

-- `Eject`: refused while the drive is busy.
unfoldable pub eject : World → Worker → Option Problem × Worker
eject env w =
    if is_busy w.status.state
    then (some (reported (codes "busy; cancel the rip first")), w)
    else elim (env.eject_error) [ some e ↦ (some e, w) | none ↦ (none, emit w tray_opened) ]

-- `Cancel`: whether there is anything to cancel.
unfoldable pub cancel : Worker → Option Problem
cancel w = if w.cancellable then none else some (reported (codes "not doing anything to cancel"))

-- `takeDiscSlot`: whether the disc may be handled.
unfoldable pub take_disc_slot : World → Worker → Bool × Worker
take_disc_slot env w =
    let waiting = to_state env w queued in
    if not env.has_slot
    then (true, w)
    else if env.is_slot_free
    then (true, record w { holds_slot = true })
    else if env.is_slot_given
    then (true, record waiting { holds_slot = true })
    else (false, waiting)

-- `releaseDiscSlot`
unfoldable pub release_disc_slot : Worker → Worker
release_disc_slot w = record w { holds_slot = false }

-- The end of `handleDisc` after the rip; the disc it publishes is the one the drive described.
unfoldable pub finish : World → Worker → ℕ → ℕ → Disc → Result Disc → Worker
finish env w job disc d (ok ripped) =
    let recorded =
      run_sql env w complete_call (set_job_state w.catalog job JobState.complete none env.clock) in
    let shown = to_state env recorded DriveState.complete in
    let told = emit shown (published (codes "ripped") d.titles shown.status.rip_dir) in
    eject_now env (emit told (handed_on disc shown.status.rip_dir ripped.titles))
finish env w job disc d (err e) =
    let stopped = run_sql env w cancelled_call (
      set_job_state w.catalog job JobState.cancelled (some (reported (codes "cancelled")))
        env.clock) in
    let lost =
      run_sql env w failed_call (set_job_state w.catalog job JobState.failed (some e) env.clock) in
    if is_cancellation e then to_state env stopped DriveState.cancelled else fail env lost e

unfoldable pub run_job : World → Worker → ℕ → ℕ → Disc → Text → Worker
run_job env w job disc d raw =
    let (result, w') = rip env w job disc d raw in finish env w' job disc d result

abbrev pub with_attempt : Worker → ℕ → Worker
with_attempt w n = record w { status = record w.status { attempt = n } }

-- The attempts that the disc has had; 0 if they cannot be counted.
unfoldable pub attempts_had : World → Worker → ℕ → ℕ
attempts_had env w disc = elim (env.sql_error attempts_call) [
  | none ↦ attempts_for_disc w.catalog disc
  | some e ↦ 0
]

-- A job is opened and run, unless it cannot be recorded.
unfoldable pub open_created : World → Worker → ℕ → Disc → Text → ℕ → Option Problem → Worker
open_created env w disc d raw n (some e) = fail env w (in_step (codes "could not open a job") e)
open_created env w disc d raw n none =
    let (job, tables) = create_job w.catalog disc env.drive_id (n + 1) env.clock in
    run_job env (with_attempt (record w { catalog = tables }) (n + 1)) job disc d raw

-- The attempts are counted, and are enough or not.
unfoldable pub open_job : World → Worker → ℕ → Disc → Text → Worker
open_job env w disc d raw =
    let n = attempts_had env w disc in
    let refused = fail env (with_attempt w n) (attempts_used n) in
    let opened = open_created env w disc d raw n (env.sql_error create_call) in
    if leb env.config.max_rip_attempts n then refused else opened

-- The scan is saved, unless it cannot be.
unfoldable pub save_or_fail : World → Worker → Disc → Text → Option Problem → Worker
save_or_fail env w d raw (some e) = fail env w (in_step (codes "could not record disc") e)
save_or_fail env w d raw none =
    let (disc, tables) = save_disc w.catalog d raw env.clock in
    open_job env (record w { catalog = tables }) disc d raw

abbrev pub save : World → Worker → Disc → Text → Worker
save env w d raw = save_or_fail env w d raw (env.sql_error save_call)

unfoldable pub greet_duplicate : World → Worker → DiscRow → Worker
greet_duplicate env w known =
    let shown = record w { status = record w.status { rip_dir = or_else known.rip_dir [] } } in
    eject_now env (to_state env shown DriveState.duplicate)

-- What follows a `FindDisc` without an error.
unfoldable pub after_find : World → Worker → Disc → Text → Option DiscRow → Worker
after_find env w d raw none = save env w d raw
after_find env w d raw (some known) =
    let greeted = greet_duplicate env w known in
    let saved = save env w d raw in if is_ripped known then greeted else saved

unfoldable pub look_up_or_fail : World → Worker → Disc → Text → Option Problem → Worker
look_up_or_fail env w d raw (some e) =
    fail env w (in_step (codes "could not check for a previous rip") e)
look_up_or_fail env w d raw none = after_find env w d raw (find_disc w.catalog d.fingerprint)

abbrev pub look_up : World → Worker → Disc → Text → Worker
look_up env w d raw = look_up_or_fail env w d raw (env.sql_error find_call)

-- What follows a scan that has read the disc.
unfoldable pub identify : World → Worker → Disc → Text → Worker
identify env w d raw =
    let shown = record w {
      status = record w.status {
        disc_label = d.volume_label;
        fingerprint = d.fingerprint;
        title_count = length d.titles;
      };
    } in
    look_up env (emit shown (published (codes "enumerated") d.titles [])) d raw

-- What follows a scan that has failed.
unfoldable pub scan_failed : World → Worker → Problem → Worker
scan_failed env w e =
    if is_gone e
    then w
    else if is_cancellation e || is_context_end e || env.is_stopped_after_scan
    then to_state env w DriveState.cancelled
    else fail env w (in_step (codes "scan failed") e)

-- A scan without an attempt, which the configuration forbids, would have no result.
unfoldable pub after_scan : World → Worker → Option (Result ScanResult) → Worker
after_scan env w none = w
after_scan env w (some (ok s)) = identify env w s.disc s.raw
after_scan env w (some (err e)) = scan_failed env w e

-- `handleDisc` for a disc that is no Blu-ray.
unfoldable pub handle_dvd : World → Worker → Worker
handle_dvd env w =
    let w' = record (to_state env w scanning) { cancellable = true } in
    record (after_scan env w' (scan_with_retry env)) { cancellable = false }

unfoldable pub route : World → Worker → Worker
route env w = elim (env.disc_kind) [
  | err e ↦ handle_dvd env w
  | ok disc_bluray ↦ env.blu_ray w
  | ok _ ↦ handle_dvd env w
]

-- `handleDisc`
unfoldable pub handle_disc : World → Worker → Worker
handle_disc env w =
    let (given, w') = take_disc_slot env w in if given then release_disc_slot (route env w') else w'

-- `handleIncompatible`
unfoldable pub handle_incompatible : World → Worker → Worker
handle_incompatible env w = to_state env (with_error w incompatible_disc) DriveState.incompatible

-- The state that a status other than those of a disc stands for.
unfoldable pub handle_status : World → Worker → Status → Worker
handle_status env w Status.tray_open = to_state env w DriveState.tray_open
handle_status env w Status.no_disc = to_state env w DriveState.empty
handle_status env w Status.not_ready = to_state env w DriveState.loading
handle_status env w Status.incompatible = handle_incompatible env w
handle_status env w Status.disc_ok = handle_disc env w
handle_status env w Status.unknown = w

-- `handleEvent`
unfoldable pub handle_event : World → Worker → Event → Worker
handle_event env w ev = elim (ev.error) [
  | some e ↦ to_state env w DriveState.absent
  | none ↦ handle_status env w ev.to
]

-- Whether a disc that `FindDisc` gives is ripped.
unfoldable pub already_ripped : Option DiscRow → Bool
already_ripped none = false
already_ripped (some known) = is_ripped known
