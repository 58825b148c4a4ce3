-- ===== src/Runner/Tests.antt =====
-- A disc of two titles in the queue, an encoder that takes one second, and a library.
use hellbox.Base.{
  ℕ, ◌+◌, ◌≡◌, refl, true, false, ◌||◌, List, [], ◌∷◌, Option, none, some, arith, inr, All, Text,
  codes, text_eq, ascii, trim_left, trim_right, trim_space, fields, insert_by, sort_by, join_with,
}
use hellbox.Catalog.{Catalog, TitleRow, type_dvd}
use hellbox.Transcodes.{
  Job, State, pending, complete, running, Claim, claimable, find_link, find_disc, is_unfiled,
  unfiled_transcodes,
}
use hellbox.Library.{
  classify, classify_sorted, sort_down, insert, median, looks_like_episodes, longest_title,
  longest_from,
}
use hellbox.Library.Naming.{
  Files, file_at, plan, name_of, name, kept_words, is_noise, is_word_of, is_numberish, title_case,
  movie_placement, movie_elements,
}
use hellbox.Runner.{
  Settings, Daemon, Paths, Disk, Moment, Encoder, drained, drain, store_of, disc_by_id, ripped_rows,
  disc_with_titles, find_placement, placement_in, file_unfiled, transcode_one, encode,
  max_transcode_attempts,
}
use hellbox.Runner.Drain.{left, drain_ends}
use hellbox.Runner.Ends.{end_state, transcode_one_ends}
use hellbox.Runner.Filing.{file_unfiled_keeps}
use hellbox.Runner.Catching.{IsWorking, library_catches_up}

abbrev job : ℕ → ℕ → State → Option Text → Job
job id title state output = record {
  id = id;
  disc_id = 7;
  title_index = title;
  state = state;
  profile = codes "default";
  source_path = codes "/rips/a/title_00.mkv";
  output_path = output;
  size_bytes = 0;
  attempt = 0;
  hardware = false;
  created_at = 100;
  started_at = none;
  ended_at = none;
  error = none;
}

abbrev row : ℕ → ℕ → TitleRow
row index secs = record {
  id = index + 1;
  disc_id = 7;
  title_index = index;
  duration_secs = secs;
  chapters = 0;
  size_bytes = 0;
  source_file = [];
  output_file = [];
  ripped = true;
  verified = true;
}

abbrev catalog : Catalog
catalog = record {
  discs =
      record {
        id = 7;
        fingerprint = codes "31181d14abe3ff";
        volume_label = codes "ROMAN_HOLIDAY";
        disc_type = type_dvd;
        title_count = 2;
        total_bytes = 0;
        first_seen = 1;
        rip_dir = some (codes "/rips/a");
        makemkv_info = [];
        forgotten_after_job = none;
      }
      ∷ [];
  titles = row 0 7000 ∷ row 1 300 ∷ [];
  streams = [];
  jobs = [];
}

abbrev daemon : List Job → Files → Daemon
daemon jobs files = record {
  catalog = catalog;
  jobs = jobs;
  links = [];
  files = files;
  transcodes = record {
    running = false;
    disc = [];
    title_index = 0;
    hardware = false;
    pending = 0;
    failed = 0;
  };
  woken = false;
}

abbrev settings : Settings
settings = record {
  transcode = true;
  file_to_library = true;
  transcoded_dir = codes "/t";
  library_dir = codes "/l";
  transcode_quality = 20;
  transcode_max_kbps = 6000;
  transcode_max_height = 0;
  preferred_language = codes "eng";
  audio_kbps = 640;
  software_preset = codes "medium";
}

abbrev paths : Paths
paths = record { join = join_with b'/'; dir = λ _. codes "/rips/a"; base = λ _. codes "a" }

abbrev encoder : Encoder
encoder = record {
  hardware = true;
  probe = λ _. none;
  transcode =
      λ source out profile duration. inr (record { path = out; size_bytes = 5; hardware = true });
}

abbrev disk : Disk
disk = record {
  mkdir_error = λ _. none;
  link_error = λ _. none;
  unfiled_fails = false;
  disc_fails = λ _. false;
  record_fails = false;
  ended = λ _ _. false;
  now = 300;
}

abbrev moment : Moment
moment = record {
  encoder = encoder;
  writes = λ files. files;
  cancelled = false;
  stopped = false;
  stopped_after = false;
  queue_fails = false;
  duration_fails = false;
  requeue_fails = false;
  fail_fails = false;
  finish_fails = false;
  disk = disk;
  now = 200;
}

abbrev queued : Daemon
queued = daemon (job 1 0 pending none ∷ job 2 1 pending none ∷ []) []

abbrev rounds : List Moment
rounds = moment ∷ moment ∷ moment ∷ []

two_left : left queued ≡ 2
unfolding claimable find_disc
two_left = refl

drain_ends_example :
    ((drain ascii settings paths rounds queued).0 ≡ drained)
    × All
        (λ j.
          claimable (store_of (drain ascii settings paths rounds queued).1) max_transcode_attempts j
          ≡ false)
        (drain ascii settings paths rounds queued).1.jobs
unfolding claimable find_disc
drain_ends_example = drain_ends ascii settings paths rounds queued refl (omega arith)

abbrev claimed : Claim
claimed = record {
  id = 1;
  disc_id = 7;
  title_index = 0;
  state = running;
  profile = codes "default";
  source_path = codes "/rips/a/title_00.mkv";
  attempt = 1;
  volume_label = codes "ROMAN_HOLIDAY";
}

transcode_one_ends_example :
    All
      (λ (j : Job).
        j.id ≡ claimed.id
        → j.state
          ≡ end_state
              (moment.cancelled || moment.stopped)
              (encode settings paths moment queued claimed))
      (transcode_one ascii settings paths moment queued claimed).jobs
transcode_one_ends_example =
    transcode_one_ends ascii settings paths moment queued claimed refl refl refl

abbrev output : Text
output = codes "/t/a/title_00.mkv"

abbrev done : Daemon
done = daemon (job 1 0 complete (some output) ∷ []) ((output, 11) ∷ [])

file_unfiled_keeps_example :
    file_at output (file_unfiled ascii settings paths disk done).files ≡ some 11
unfolding file_at text_eq
file_unfiled_keeps_example = file_unfiled_keeps ascii settings paths disk done output 11 refl

disk_works : IsWorking disk
disk_works = record {
  makes = λ _. refl;
  links = λ _. refl;
  records = refl;
  lists = refl;
  reads = λ _. refl;
  goes_on = λ _ _. refl;
}

feature_place :
    placement_in ascii 0 (disc_with_titles catalog 7)
    ≡ some (record {
      title_index = 0;
      elements = codes "Movies" ∷ codes "Roman Holiday" ∷ codes "Roman Holiday.mkv" ∷ [];
      feature = true;
    })
unfolding placement_in disc_with_titles disc_by_id ripped_rows find_placement plan classify
    classify_sorted sort_down insert median looks_like_episodes longest_title longest_from name_of
    name kept_words is_noise is_word_of is_numberish title_case movie_placement movie_elements
    trim_space trim_left trim_right fields join_with insert_by sort_by text_eq
feature_place = refl

library_catches_up_example :
    unfiled_transcodes (store_of (file_unfiled ascii settings paths disk done)) ≡ []
unfolding unfiled_transcodes is_unfiled find_link file_at text_eq
library_catches_up_example =
    library_catches_up ascii settings paths disk done refl disk_works
      ((output, 11, _, refl, refl, feature_place), tt)
