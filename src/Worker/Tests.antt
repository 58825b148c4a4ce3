-- ===== src/Worker/Tests.antt =====
-- A disc with one title, whose first scan fails; a rip of it that is cancelled.
use hellbox.Base.{
  inl, ℕ, ◌<◌, ◌≡◌, ◌⊎◌, refl, true, false, [], ◌∷◌, none, some, arith, codes, text_eq,
  if◌then◌else◌, ◌==◌,
}
use hellbox.Config.{defaults, checks, validate}
use hellbox.Config.Bounds.{valid_scan_gives, defaults_with}
use hellbox.Catalog.{
  reported, TitleRow, title_key, is_ripped, Disc, Title, DiscRow, type_dvd, find_disc, find_row,
  RipJob, JobState, attempts_for_disc, counts_as_attempt, forgotten_after,
}
use hellbox.Catalog.Rows.{Known, Ripped}
use hellbox.Drive.Profile.{disc_dvd}
use hellbox.Worker.Status.{DriveState, new_status}
use hellbox.Worker.World.{
  World, Worker, Config, ok, err, Result, ScanResult, ScanTry, TitleRip, made, published,
}
use hellbox.Worker.Scan.{after_failure, has_left, scan_from, scan_with_retry}
use hellbox.Worker.Scan.Retry.{SucceedsAfter, GivenBy, scan_retries}
use hellbox.Worker.Source.{
  ebml_magic, is_partial, verify_output, rip_source, decrypt_needed, make_rip_dir, next_dir,
}
use hellbox.Worker.Rip.{
  rip, rip_into, rip_source_from, reread, rip_from, begun, rip_titles, rip_title, record_rip,
  verified, recorded,
}
use hellbox.Worker.Rip.Done.{AllWritten}
use hellbox.Worker.Rip.Whole.{NamesAreSet, rip_is_whole}
use hellbox.Worker.Rip.Trays.{trays}
use hellbox.Worker.Handle.{handle_dvd, run_job, already_ripped}
use hellbox.Worker.Handle.Tray.{opened_means_ripped}
use hellbox.Worker.Handle.Attempts.{IsExhausted, exhausted_is_refused}
use hellbox.Worker.Handle.Cancelled.{ReachesTitles, cancelled_title_fails}
use hellbox.Worker.Rip.Marks.{HaveRows, AreMarked}

abbrev title : Title
title = record {
  index = 0;
  duration_secs = 6000;
  chapters = 20;
  size_bytes = 4000000;
  source_file = [];
  output_file = codes "title_00.mkv";
  streams = [];
}

abbrev disc : Disc
disc = record {
  fingerprint = codes "abc";
  volume_label = codes "STNG";
  kind = type_dvd;
  total_bytes = 4000000;
  titles = title ∷ [];
}

abbrev given : ScanResult
given = record { disc = disc; raw = [] }

abbrev config : Config
config = record {
  max_rip_attempts = 2;
  scan_attempts = 3;
  eject_on_success = true;
  eject_on_failure = false;
  native_dvd = false;
  decrypt_fallback = true;
  min_output_bytes = 100;
}

-- The first scan fails, the others do not.
abbrev scan : ℕ → ScanTry
scan n = record {
  result = if n == 1 then err (reported (codes "not ready")) else ok given;
  is_stopped = false;
  left = ok false;
  is_stopped_waiting = false;
}

abbrev ripped_title : TitleRip
ripped_title = record {
  result = ok (record {
    output = record { stat = ok 4000; open_error = none; header = ok ebml_magic };
    size_bytes = 4000;
  });
  is_stopped = false;
  duration_problem = none;
  estimate = none;
}

abbrev stopped_title : TitleRip
stopped_title = record ripped_title { result = err (reported (codes "killed")); is_stopped = true }

abbrev world : TitleRip → World
world t = record {
  config = config;
  drive_id = 1;
  has_slot = false;
  is_slot_free = true;
  is_slot_given = true;
  disc_kind = ok disc_dvd;
  blu_ray = λ w. w;
  scan = scan;
  is_stopped_after_scan = false;
  sql_error = λ c. none;
  clock = 50;
  base_dir = λ d. codes "/rips/a";
  directory = λ n base. codes "/rips/b";
  mkdir = λ dir. made;
  is_empty_dir = λ dir. true;
  log_error = none;
  region = err (reported []);
  protection = err (reported []);
  decrypter_error = none;
  has_copy = false;
  mirror_error = none;
  is_stopped_in_mirror = false;
  rescan = ok given;
  disc_json_error = none;
  info_error = none;
  title = λ i x. t;
  eject_error = none;
}

abbrev row : DiscRow
row = record {
  id = 1;
  fingerprint = codes "abc";
  volume_label = codes "STNG";
  disc_type = type_dvd;
  title_count = 1;
  total_bytes = 4000000;
  first_seen = 10;
  rip_dir = none;
  makemkv_info = [];
  forgotten_after_job = none;
}

abbrev worker : Worker
worker = record {
  status = new_status 0;
  catalog = record { discs = row ∷ []; titles = []; streams = []; jobs = [] };
  holds_slot = false;
  cancellable = false;
  effects = [];
}

world-NamesAreSet : (t : TitleRip) → NamesAreSet (world t)
unfolding text_eq
world-NamesAreSet t = record { base = λ d. refl; numbered = λ n base. refl }

scan_retries_example :
    ((k : ℕ)
      → k < 3
      → SucceedsAfter (world ripped_title) 1 k given
      → scan_with_retry (world ripped_title) ≡ some (ok given))
    × (scan_with_retry (world ripped_title) ≡ some (ok given)
        → GivenBy (world ripped_title) 3 1 given)
scan_retries_example = scan_retries (world ripped_title) given

-- The worker with the disc's title saved.
abbrev title_row : TitleRow
title_row = record {
  id = 1;
  disc_id = 1;
  title_index = 0;
  duration_secs = 6000;
  chapters = 20;
  size_bytes = 4000000;
  source_file = [];
  output_file = codes "title_00.mkv";
  ripped = false;
  verified = false;
}

abbrev saved : Worker
saved = record worker { catalog = record worker.catalog { titles = title_row ∷ [] } }

ripped_whole : (rip (world ripped_title) saved 1 1 disc []).0 ≡ ok disc
unfolding rip rip_into make_rip_dir next_dir rip_source decrypt_needed rip_source_from reread
    rip_from begun rip_titles rip_title verified verify_output recorded record_rip text_eq
ripped_whole = refl

knows : Known (codes "abc") 1 (row ∷ [])
unfolding find_row text_eq
knows = (row, refl, refl)

disc-HaveRows : HaveRows 1 disc.titles saved.catalog.titles
unfolding title_key HaveRows
disc-HaveRows = ((title_row, inl refl, refl), tt)

rip_is_whole_example :
    AllWritten (world ripped_title) 0 disc.titles
    × AreMarked 1 disc.titles (rip (world ripped_title) saved 1 1 disc []).1.catalog.titles
    × (disc.fingerprint ≡ disc.fingerprint)
    × ((disc.titles ≡ disc.titles) ⊎ (is_partial disc.titles disc.titles ≡ false))
    × Ripped (codes "abc") (rip (world ripped_title) saved 1 1 disc []).1.catalog.discs
rip_is_whole_example =
    rip_is_whole (world ripped_title) saved 1 1 disc disc [] (world-NamesAreSet ripped_title) knows
      disc-HaveRows refl ripped_whole

opened_means_ripped_example :
    (trays (handle_dvd (world ripped_title) worker).effects ≡ 0)
    ⊎ ((s : ScanResult) × (scan_with_retry (world ripped_title) ≡ some (ok s))
        × (already_ripped
              (find_disc (handle_dvd (world ripped_title) worker).catalog s.disc.fingerprint)
            ≡ true))
opened_means_ripped_example =
    opened_means_ripped (world ripped_title) worker (world-NamesAreSet ripped_title) refl

-- A disc that has had its two attempts.
abbrev tried_job : ℕ → RipJob
tried_job id = record {
  id = id;
  disc_id = 1;
  drive_id = 1;
  state = JobState.failed;
  attempt = 1;
  created_at = 20;
  started_at = some 20;
  ended_at = some 30;
  error = none;
  titles_total = 0;
  titles_done = 0;
}

abbrev tried : Worker
tried = record worker { catalog = record worker.catalog { jobs = tried_job 1 ∷ tried_job 2 ∷ [] } }

two_attempts : IsExhausted (world ripped_title) 1 tried.catalog
unfolding attempts_for_disc counts_as_attempt forgotten_after
two_attempts = omega arith

scans : scan_with_retry (world ripped_title) ≡ some (ok given)
unfolding scan_with_retry scan_from after_failure has_left
scans = refl

not_ripped : already_ripped (find_disc tried.catalog (codes "abc")) ≡ false
unfolding already_ripped find_disc find_row text_eq is_ripped
not_ripped = refl

exhausted_is_refused_example :
    ((handle_dvd (world ripped_title) tried).status.state ≡ DriveState.failed)
    × ((handle_dvd (world ripped_title) tried).effects
        ≡ published (codes "enumerated") disc.titles [] ∷ [])
    × ((handle_dvd (world ripped_title) tried).catalog.jobs ≡ tried.catalog.jobs)
exhausted_is_refused_example =
    exhausted_is_refused (world ripped_title) refl refl tried 1 given scans knows not_ripped
      two_attempts

stopped-ReachesTitles : ReachesTitles (world stopped_title) disc
unfolding make_rip_dir next_dir decrypt_needed
stopped-ReachesTitles = record {
  dir = codes "/rips/a";
  makes_dir = refl;
  logs = refl;
  reads = refl;
  describes = refl;
  informs = refl;
}

none_before : AllWritten (world stopped_title) 0 []
unfolding AllWritten
none_before = tt

cancelled_title_fails_example :
    (run_job (world stopped_title) worker 1 1 disc []).status.state ≡ DriveState.failed
cancelled_title_fails_example =
    cancelled_title_fails (world stopped_title) worker 1 1 disc [] [] [] title
      (reported (codes "killed")) refl stopped-ReachesTitles refl none_before refl refl

valid_scan_gives_example : (r : Result ScanResult) × (scan_with_retry (world ripped_title) ≡ some r)
unfolding validate checks text_eq defaults
valid_scan_gives_example =
    valid_scan_gives (defaults_with config.max_rip_attempts config.scan_attempts)
      (world ripped_title) refl refl refl
