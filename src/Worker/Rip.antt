-- ===== src/Worker/Rip.antt =====
-- internal/daemon/worker.go: `rip`, which writes and verifies every title of a disc.
pub mod Tables
pub mod Done
pub mod Marks
pub mod Whole
pub mod Trays
use hellbox.Base.{
  ℕ, ◌+◌, true, List, [], ◌∷◌, Option, none, some, if◌then◌else◌, length, Text, codes,
}
use hellbox.Catalog.{
  Problem, partial_copy, cancelled_during, in_title, in_step, Disc, Title, ripping, cancelled,
  save_disc, set_rip_dir, mark_title_ripped, set_job_state, set_job_progress,
}
use hellbox.Worker.Status.{DriveState, verifying, begin_rip, title_done, set_progress}
use hellbox.Worker.World.{
  World, Worker, Result, ok, err, ScanResult, RipResult, TitleRip, resave_call, rip_dir_call,
  ripping_call, progress_call, mark_call, abandoned_call, copy_discarded, described, emit, to_state,
  run_sql, and_then,
}
use hellbox.Worker.Source.{
  Source, device, folder, total_secs, deduped_secs, is_partial, rip_source, make_rip_dir,
  verify_output,
}

-- What ends a loop early, if anything does, and the worker after it.
abbrev pub Step : Type 0
Step = Option Problem × Worker

abbrev pub then_do : Step → (Worker → Step) → Step
then_do (some e, w) f = (some e, w)
then_do (none, w) f = f w

-- The titles of a copy take the place of the drive's, unless it holds too little of the disc; a copy
-- without titles is no copy.
unfoldable pub use_copy :
    World → Worker → Disc → Text → Text → List Title → Result (Disc × Text) × Worker
use_copy env w d raw copy_raw [] = (ok (d, raw), w)
use_copy env w d raw copy_raw (t ∷ ts) =
    let copy = t ∷ ts in
    let reread_disc : Disc = record d { titles = copy } in
    let shown = record w { status = record w.status { title_count = length copy } } in
    let (id, tables) = save_disc w.catalog reread_disc copy_raw env.clock in
    if is_partial copy d.titles
    then (err (partial_copy (total_secs copy) (deduped_secs d.titles)), w)
    else (ok (reread_disc, copy_raw), run_sql env shown resave_call tables)

-- What a scan of the copy leads to; one that fails leaves what the drive reported.
unfoldable pub after_rescan :
    World → Worker → Disc → Text → Result ScanResult → Result (Disc × Text) × Worker
after_rescan env w d raw (err e) = (ok (d, raw), w)
after_rescan env w d raw (ok r) = use_copy env w d raw r.raw r.disc.titles

-- The titles and the scan text that are ripped: a decrypted copy is scanned again.
unfoldable pub reread : World → Worker → Source → Disc → Text → Result (Disc × Text) × Worker
reread env w device d raw = (ok (d, raw), w)
reread env w folder d raw = after_rescan env w d raw env.rescan

-- A rip of a title that failed.
unfoldable pub broken_off : World → Worker → ℕ → ℕ → TitleRip → Problem → Step
broken_off env w job index r e =
    if r.is_stopped
    then (
      some (cancelled_during index),
      run_sql env w (abandoned_call index)
          (set_job_state w.catalog job cancelled (some cancelled_words) env.clock),
    )
    else (some (in_title index e), w)
  where
    cancelled_words : Problem
    cancelled_words = Problem.reported (codes "cancelled")

-- The check of the measured duration, on the native path alone.
abbrev pub duration_check : World → TitleRip → Option Problem
duration_check env r = if env.config.native_dvd then r.duration_problem else none

-- What follows once a title has been written and verified; the position counts from 0.
unfoldable pub recorded : World → Worker → ℕ → ℕ → ℕ → ℕ → Title → TitleRip → RipResult → Step
recorded env w job disc total i t r out =
    let w' = to_state env w DriveState.ripping in
    let marked = record w' {
      catalog = mark_title_ripped w'.catalog disc t.index out.size_bytes true;
      status = title_done w'.status t.duration_secs r.estimate;
    } in
    elim (env.sql_error (mark_call t.index)) [
      | some e ↦ (some (in_step (codes "record title") e), w')
      | none ↦ (
        none,
        run_sql env marked (progress_call (i + 1))
            (set_job_progress marked.catalog job (i + 1) total),
      )
    ]

unfoldable pub verified : World → Worker → ℕ → ℕ → ℕ → ℕ → Title → TitleRip → RipResult → Step
verified env w job disc total i t r out =
    let w' = to_state env w verifying in
    elim (verify_output out.output env.config.min_output_bytes) [
      | some e ↦ (some (in_title t.index e), w')
      | none ↦ elim (duration_check env r) [
        | some e ↦ (some (in_title t.index e), w')
        | none ↦ recorded env w' job disc total i t r out
      ]
    ]

-- One round of the loop over the titles.
unfoldable pub rip_title : World → Worker → ℕ → ℕ → ℕ → ℕ → Title → Step
rip_title env w job disc total i t =
    let shown = record w { status = set_progress w.status t.index 0 (codes "title") } in
    elim ((env.title i t).result) [
      | err e ↦ broken_off env shown job t.index (env.title i t) e
      | ok out ↦ verified env shown job disc total i t (env.title i t) out
    ]

unfoldable pub rip_titles : World → Worker → ℕ → ℕ → ℕ → ℕ → List Title → Step
rip_titles env w job disc total i [] = (none, w)
rip_titles env w job disc total i (t ∷ ts) =
    then_do (rip_title env w job disc total i t) (λ w'. rip_titles env w' job disc total (i + 1) ts)

-- The status and the job when the first title is about to be ripped.
unfoldable pub begun : World → Worker → ℕ → List Title → Worker
begun env w job ts =
    let w' = to_state env w DriveState.ripping in
    let timed = record w' { status = begin_rip w'.status (total_secs ts) env.clock } in
    let counted =
      run_sql env timed (progress_call 0) (set_job_progress timed.catalog job 0 (length ts)) in
    run_sql env counted ripping_call (set_job_state counted.catalog job ripping none env.clock)

-- The disc is recorded as ripped once the loop over its titles has come to its end.
unfoldable pub record_rip : World → ℕ → Disc → Text → Source → Step → Result Disc × Worker
record_rip env disc d dir src (some e, w) = (err e, w)
record_rip env disc d dir src (none, w) =
    let done = record w { catalog = set_rip_dir w.catalog disc dir } in
    elim (env.sql_error rip_dir_call) [
      | some e ↦ (err (in_step (codes "record rip directory") e), w)
      | none ↦ (ok d, elim src [ device ↦ done | folder ↦ emit done copy_discarded ])
    ]

-- `rip` from `writeDiscJSON` on; the description is on the disk before a byte is ripped.
unfoldable pub rip_from : World → ℕ → ℕ → Text → Source → Disc → Worker → Result Disc × Worker
rip_from env job disc dir src d w =
    let written = emit w (described d.titles) in
    elim (env.disc_json_error) [
      | some e ↦ (err (in_step (codes "disc.json") e), w)
      | none ↦ elim (env.info_error) [
        | some e ↦ (err (in_step (codes "write makemkv-info.txt") e), written)
        | none ↦
            record_rip env disc d dir src (
              rip_titles env (begun env written job d.titles) job disc (length d.titles) 0 d.titles)
      ]
    ]

unfoldable pub rip_source_from :
    World → ℕ → ℕ → Disc → Text → Text → Source → Worker → Result Disc × Worker
rip_source_from env job disc d raw dir src w =
    and_then (reread env w src d raw) (λ p w'. rip_from env job disc dir src p.0 w')

-- `rip` once there is a directory for the disc, or none could be made.
unfoldable pub rip_into : World → Worker → ℕ → ℕ → Disc → Text → Result Text → Result Disc × Worker
rip_into env w job disc d raw (err e) = (err e, w)
rip_into env w job disc d raw (ok dir) =
    let shown = record w { status = record w.status { rip_dir = dir } } in
    elim (env.log_error) [
      | some e ↦ (err (in_step (codes "create rip.log") e), shown)
      | none ↦ and_then (rip_source env shown) (rip_source_from env job disc d raw dir)
    ]

-- `rip`
unfoldable pub rip : World → Worker → ℕ → ℕ → Disc → Text → Result Disc × Worker
rip env w job disc d raw = rip_into env w job disc d raw (make_rip_dir env d)
