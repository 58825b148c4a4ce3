-- ===== src/Runner/Tables.antt =====
-- internal/daemon/transcode.go and internal/daemon/library.go: the state that the runner of the
-- transcode queue works on, and what is outside of it: the encoder, the disk, the clock, the end of a
-- context, and the statements that SQLite refuses.
use hellbox.Base.{
  ℕ, Bool, List, [], ◌∷◌, Option, none, some, ltb, ◌==◌, if◌then◌else◌, filter, Text, ◌⊎◌, ◌&&◌,
  sort_by,
}
use hellbox.Catalog.{Catalog, Title, TitleRow, DiscRow, Disc, type_unknown}
use hellbox.Transcodes
use hellbox.Transcodes.{Job, Link, Store}
use hellbox.Select.{Stream}
use hellbox.Library.Naming.{Files}

-- What the configuration says of the queue and the library.
pub record Settings : Type 0 where
  pub transcode : Bool
  pub file_to_library : Bool
  pub transcoded_dir : Text
  pub library_dir : Text
  pub transcode_quality : ℕ
  pub transcode_max_kbps : ℕ
  pub transcode_max_height : ℕ
  pub preferred_language : Text
  pub audio_kbps : ℕ
  pub software_preset : Text

-- `proto.TranscodeSnapshot`, without the two floats of the encode in flight
pub record TranscodeSnapshot : Type 0 where
  pub running : Bool
  pub disc : Text
  pub title_index : ℕ
  pub hardware : Bool
  pub pending : ℕ
  pub failed : ℕ

pub record Daemon : Type 0 where
  pub catalog : Catalog
  pub jobs : List Job
  pub links : List Link
  pub files : Files
  pub transcodes : TranscodeSnapshot
  pub woken : Bool

-- The functions of the package filepath that the runner calls.
pub record Paths : Type 0 where
  pub join : List Text → Text
  pub dir : Text → Text
  pub base : Text → Text

-- `transcode.Source`, as a probe gives it; the duration is in nanoseconds.
pub record Probed : Type 0 where
  pub duration : ℕ
  pub interlaced : Bool
  pub height : ℕ
  pub streams : List Stream

-- `transcode.Profile`
pub record Profile : Type 0 where
  pub name : Text
  pub quality : ℕ
  pub max_kbps : ℕ
  pub max_height : ℕ
  pub source_height : ℕ
  pub streams : List Stream
  pub language : Text
  pub audio_kbps : ℕ
  pub preset : Text
  pub interlaced : Bool

-- `transcode.Result`
pub record Encoded : Type 0 where
  pub path : Text
  pub size_bytes : ℕ
  pub hardware : Bool

pub record Encoder : Type 0 where
  pub hardware : Bool
  pub probe : Text → Option (Probed)
  pub transcode : Text → Text → Profile → ℕ → Text ⊎ Encoded

-- What the disk and SQLite answer while titles are filed: the errors of the two calls that `Link` makes,
-- whether the list of what is unfiled, a disc with its titles or the record of a link is refused, and
-- whether the context has ended when a title is come to.
pub record Disk : Type 0 where
  pub mkdir_error : Text → Option Text
  pub link_error : Text → Option Text
  pub unfiled_fails : Bool
  pub disc_fails : ℕ → Bool
  pub record_fails : Bool
  pub ended : ℕ → ℕ → Bool
  pub now : ℕ

-- One round of the inner loop: the encoder and what it writes, whether the encode is cancelled, whether
-- the daemon is stopped by the time of the check after it, and what SQLite refuses.
pub record Moment : Type 0 where
  pub encoder : Encoder
  pub writes : Files → Files
  pub cancelled : Bool
  pub stopped : Bool
  pub stopped_after : Bool
  pub queue_fails : Bool
  pub duration_fails : Bool
  pub requeue_fails : Bool
  pub fail_fails : Bool
  pub finish_fails : Bool
  pub disk : Disk
  pub now : ℕ

abbrev pub disc_rows : List DiscRow → List Transcodes.DiscRow
disc_rows [] = []
disc_rows (d ∷ ds) = record { id = d.id; volume_label = some d.volume_label } ∷ disc_rows ds

-- The tables as the queue sees them.
abbrev pub store_of : Daemon → Store
store_of d = record { discs = disc_rows d.catalog.discs; jobs = d.jobs; links = d.links }

abbrev pub with_store : Daemon → Store → Daemon
with_store d s = record d { jobs = s.jobs; links = s.links }

unfoldable pub disc_by_id : ℕ → List DiscRow → Option DiscRow
disc_by_id id [] = none
disc_by_id id (d ∷ ds) = if d.id == id then some d else disc_by_id id ds

abbrev pub is_ripped_title : ℕ → TitleRow → Bool
is_ripped_title disc r = r.disc_id == disc && r.ripped

abbrev pub by_title_index : TitleRow → TitleRow → Bool
by_title_index a b = ltb a.title_index b.title_index

unfoldable pub ripped_rows : Catalog → ℕ → List TitleRow
unfolding sort_by
ripped_rows c disc = sort_by by_title_index (filter (is_ripped_title disc) c.titles)

abbrev pub titles_of : List TitleRow → List Title
titles_of [] = []
titles_of (r ∷ rs) =
    record {
      index = r.title_index;
      duration_secs = r.duration_secs;
      chapters = 0;
      size_bytes = r.size_bytes;
      source_file = [];
      output_file = [];
      streams = [];
    }
    ∷ titles_of rs

abbrev pub indices_of : List TitleRow → List ℕ
indices_of [] = []
indices_of (r ∷ rs) = r.title_index ∷ indices_of rs

-- `RippedTitles`
unfoldable pub ripped_titles : Catalog → ℕ → List ℕ
unfolding ripped_rows
ripped_titles c disc = indices_of (ripped_rows c disc)

abbrev pub disc_of_row : Option DiscRow → List TitleRow → Option Disc
disc_of_row none rows = none
disc_of_row (some d) rows = some (record {
  fingerprint = d.fingerprint;
  volume_label = d.volume_label;
  kind = type_unknown;
  total_bytes = 0;
  titles = titles_of rows;
})

-- `DiscWithTitles`; `none` where there is no such disc
unfoldable pub disc_with_titles : Catalog → ℕ → Option Disc
unfolding disc_by_id ripped_rows
disc_with_titles c disc = disc_of_row (disc_by_id disc c.discs) (ripped_rows c disc)

unfoldable pub duration_of : ℕ → ℕ → List TitleRow → ℕ
duration_of disc index [] = 0
duration_of disc index (r ∷ rs) =
    if r.disc_id == disc && r.title_index == index
    then r.duration_secs
    else duration_of disc index rs

-- `TitleDuration`
unfoldable pub title_duration : Catalog → ℕ → ℕ → ℕ
unfolding duration_of
title_duration c disc index = duration_of disc index c.titles
