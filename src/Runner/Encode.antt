-- ===== src/Runner/Encode.antt =====
-- internal/daemon/transcode.go: the encode of one title, and the loop that drains the queue.
use hellbox.Base.{
  ℕ, ◌*◌, ◌^◌, Bool, true, false, not, ◌&&◌, ◌||◌, List, [], ◌∷◌, ◌++◌, Option, none, some, ◌==◌,
  if◌then◌else◌, Text, codes, ◌⊎◌, inl, inr, Unicode, decimal,
}
use hellbox.Catalog.{Catalog}
use hellbox.Transcodes.{
  Store, Claim, next_transcode, requeue_transcode, fail_transcode, finish_transcode,
  transcode_queue, reclaim_running,
}
use hellbox.Identity.{title_file_name}
use hellbox.Runner.Tables.{
  Settings, Daemon, Paths, Probed, Profile, Encoded, Disk, Moment, store_of, with_store,
  title_duration,
}
use hellbox.Runner.File.{file_title, file_unfiled}

abbrev pub max_transcode_attempts : ℕ
max_transcode_attempts = 2

-- `transcodeOutputPath`
unfoldable pub transcode_output_path : Settings → Paths → Claim → Text
unfolding title_file_name
transcode_output_path cfg paths c =
    paths.join (
      cfg.transcoded_dir
      ∷ paths.base (paths.dir c.source_path)
      ∷ title_file_name c.title_index
      ∷ [])

abbrev pub label_or_id : Claim → Text
label_or_id c = elim (c.volume_label) [ [] ↦ codes "disc " ++ decimal c.disc_id | x ∷ s ↦ x ∷ s ]

-- The empty `transcode.Source` of a file that cannot be probed
abbrev pub probed_or_empty : Option Probed → Probed
probed_or_empty (some p) = p
probed_or_empty none = record { duration = 0; interlaced = false; height = 0; streams = [] }

-- The duration of the probe, or that of the scan.
unfoldable pub encode_duration : Catalog → Moment → Claim → Probed → ℕ
unfolding title_duration
encode_duration catalog m c p =
    if p.duration == 0 && not m.duration_fails
    then title_duration catalog c.disc_id c.title_index * 10 ^ 9
    else p.duration

abbrev pub profile_for : Settings → Claim → Probed → Profile
profile_for cfg c p = record {
  name = c.profile;
  quality = cfg.transcode_quality;
  max_kbps = cfg.transcode_max_kbps;
  max_height = cfg.transcode_max_height;
  source_height = p.height;
  streams = p.streams;
  language = cfg.preferred_language;
  audio_kbps = cfg.audio_kbps;
  preset = cfg.software_preset;
  interlaced = p.interlaced;
}

-- What the encode returns.
unfoldable pub encode : Settings → Paths → Moment → Daemon → Claim → Text ⊎ Encoded
unfolding transcode_output_path encode_duration
encode cfg paths m d c =
    let p = probed_or_empty (m.encoder.probe c.source_path) in
    m.encoder.transcode c.source_path (transcode_output_path cfg paths c) (profile_for cfg c p)
      (encode_duration d.catalog m c p)

-- What `transcodeOne` does with the end of the encode: whether it was cancelled, and its result.
unfoldable pub settle :
    Unicode → Settings → Paths → Moment → Daemon → Claim → Bool → Text ⊎ Encoded → Daemon
unfolding requeue_transcode fail_transcode finish_transcode file_title
settle u cfg paths m d c true res =
    if m.requeue_fails then d else with_store d (requeue_transcode (store_of d) c.id)
settle u cfg paths m d c false (inl e) =
    if m.fail_fails then d else with_store d (fail_transcode (store_of d) c.id e m.now)
settle u cfg paths m d c false (inr r) =
    let finished =
      if m.finish_fails
      then d
      else with_store d (finish_transcode (store_of d) c.id r.path r.size_bytes r.hardware m.now) in
    file_title u cfg paths m.disk finished c.disc_id c.title_index r.path

abbrev pub begun : Moment → Daemon → Claim → Daemon
begun m d c = record d {
  transcodes = record d.transcodes {
    running = true;
    disc = label_or_id c;
    title_index = c.title_index;
    hardware = m.encoder.hardware;
  };
}

-- `clearCurrent`
unfoldable pub clear_current : Daemon → Daemon
clear_current d = record d {
  transcodes = record d.transcodes {
    running = false;
    disc = [];
    title_index = 0;
    hardware = false;
  };
}

-- `transcodeOne`
unfoldable pub transcode_one : Unicode → Settings → Paths → Moment → Daemon → Claim → Daemon
unfolding encode settle clear_current
transcode_one u cfg paths m d c =
    let d' = begun m d c in
    clear_current (
      settle u cfg paths m (record d' { files = m.writes d'.files }) c (m.cancelled || m.stopped)
        (encode cfg paths m d c))

-- How the inner loop of `runTranscodes` ends: with an empty queue, one that cannot be read, the end of
-- the daemon, or not within the rounds that are given.
pub data Outcome : Type 0 where
  drained unreadable shut_down unfinished : Outcome

-- What a round of the inner loop does with what `NextTranscode` returns, and what follows it.
unfoldable pub drain_next :
    Unicode
    → Settings
    → Paths
    → Moment
    → Daemon
    → Option Claim × Store
    → (Daemon → Outcome × Daemon)
    → Outcome × Daemon
unfolding transcode_one
drain_next u cfg paths m d (none, s) rest = (drained, d)
drain_next u cfg paths m d (some c, s) rest =
    let d' = transcode_one u cfg paths m (with_store d s) c in
    if m.stopped || m.stopped_after then (shut_down, d') else rest d'

-- The inner loop of `runTranscodes`
unfoldable pub drain : Unicode → Settings → Paths → List Moment → Daemon → Outcome × Daemon
unfolding next_transcode drain_next
drain u cfg paths [] d = (unfinished, d)
drain u cfg paths (m ∷ ms) d =
    if m.queue_fails
    then (unreadable, d)
    else drain_next u cfg paths m d (next_transcode (store_of d) max_transcode_attempts m.now)
        (λ d'. drain u cfg paths ms d')

-- `refreshTranscodeCounts`
unfoldable pub refresh_transcode_counts : Bool → Daemon → Daemon
unfolding transcode_queue
refresh_transcode_counts fails d =
    let (pending, failed) = transcode_queue (store_of d) max_transcode_attempts in
    if fails
    then d
    else record d { transcodes = record d.transcodes { pending = pending; failed = failed } }

-- What follows the inner loop, unless the daemon has been stopped.
unfoldable pub after_drain :
    Unicode → Settings → Paths → Bool → Disk → Outcome × Daemon → Outcome × Daemon
unfolding refresh_transcode_counts file_unfiled
after_drain u cfg paths counts_fail k (shut_down, d) = (shut_down, d)
after_drain u cfg paths counts_fail k (o, d) =
    (o, file_unfiled u cfg paths k (refresh_transcode_counts counts_fail d))

-- The start of `runTranscodes`, where SQLite may refuse
unfoldable pub reclaimed : Bool → Daemon → Daemon
unfolding reclaim_running
reclaimed fails d = if fails then d else with_store d (reclaim_running (store_of d)).1
