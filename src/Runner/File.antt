-- ===== src/Runner/File.antt =====
-- internal/daemon/library.go: the filing of finished transcodes.
use hellbox.Base.{
  ℕ, Bool, ◌&&◌, ◌||◌, List, [], ◌∷◌, Option, none, some, ltb, ◌==◌, if◌then◌else◌, Text, Unicode,
  sort_by,
}
use hellbox.Catalog.{Disc, Catalog}
use hellbox.Transcodes.{Job, record_library_link, unfiled_transcodes}
use hellbox.Library.{classify}
use hellbox.Library.Naming.{
  Placement, plan, file_at, Linked, linked, already_there, link_failed, link,
}
use hellbox.Runner.Tables.{Settings, Daemon, Paths, Disk, store_of, with_store, disc_with_titles}

-- The loop of `fileTitle` over the plan
unfoldable pub find_placement : ℕ → List Placement → Option Placement
find_placement index [] = none
find_placement index (p ∷ ps) = if p.title_index == index then some p else find_placement index ps

-- `RecordLibraryLink`, which SQLite may refuse
unfoldable pub record_link : Disk → Daemon → ℕ → ℕ → Text → Daemon
unfolding record_library_link
record_link k d disc index path =
    if k.record_fails
    then d
    else with_store d (record_library_link (store_of d) disc index path k.now)

-- What `fileTitle` does with what `Link` says.
unfoldable pub after_link : Disk → Daemon → ℕ → ℕ → Text → Linked → Daemon
unfolding record_link
after_link k d disc index path (linked files) =
    record_link k (record d { files = files }) disc index path
after_link k d disc index path already_there = record_link k d disc index path
after_link k d disc index path (link_failed e) = d

abbrev pub path_of : Settings → Paths → Placement → Text
path_of cfg paths p = paths.join (cfg.library_dir ∷ p.elements)

unfoldable pub file_at_placement :
    Settings → Paths → Disk → Daemon → ℕ → ℕ → Text → Option Placement → Daemon
unfolding link after_link
file_at_placement cfg paths k d disc index source none = d
file_at_placement cfg paths k d disc index source (some p) =
    after_link k d disc index (path_of cfg paths p)
      (link k.mkdir_error k.link_error d.files source (path_of cfg paths p))

unfoldable pub placement_in : Unicode → ℕ → Option Disc → Option Placement
unfolding find_placement plan classify
placement_in u index none = none
placement_in u index (some rec) = find_placement index (plan u rec (classify rec.titles))

-- `DiscWithTitles`, which SQLite may refuse.
unfoldable pub read_disc : Disk → Catalog → ℕ → Option Disc
unfolding disc_with_titles
read_disc k c disc = if k.disc_fails disc then none else disc_with_titles c disc

-- `fileTitle`
unfoldable pub file_title : Unicode → Settings → Paths → Disk → Daemon → ℕ → ℕ → Text → Daemon
unfolding file_at_placement placement_in read_disc
file_title u cfg paths k d disc index source =
    if cfg.file_to_library
    then file_at_placement cfg paths k d disc index source
        (placement_in u index (read_disc k d.catalog disc))
    else d

-- The order of `UnfiledTranscodes`
abbrev pub by_disc_and_title : Job → Job → Bool
by_disc_and_title a b =
    ltb a.disc_id b.disc_id || (a.disc_id == b.disc_id && ltb a.title_index b.title_index)

-- A job whose output is still on disk is filed.
unfoldable pub file_output : Unicode → Settings → Paths → Disk → Daemon → Job → Option Text → Daemon
unfolding file_at file_title
file_output u cfg paths k d j none = d
file_output u cfg paths k d j (some output) = elim (file_at output d.files) [
  | none ↦ d
  | some n ↦ file_title u cfg paths k d j.disc_id j.title_index output
]

-- The loop of `fileUnfiled`
unfoldable pub file_each : Unicode → Settings → Paths → Disk → Daemon → List Job → Daemon
unfolding file_output
file_each u cfg paths k d [] = d
file_each u cfg paths k d (j ∷ js) =
    let rest = file_each u cfg paths k (file_output u cfg paths k d j j.output_path) js in
    if k.ended j.disc_id j.title_index then d else rest

-- `UnfiledTranscodes`, which SQLite may refuse; there is nothing to file then.
unfoldable pub read_unfiled : Disk → Daemon → List Job
unfolding unfiled_transcodes sort_by
read_unfiled k d =
    if k.unfiled_fails then [] else sort_by by_disc_and_title (unfiled_transcodes (store_of d))

-- `fileUnfiled`
unfoldable pub file_unfiled : Unicode → Settings → Paths → Disk → Daemon → Daemon
unfolding file_each read_unfiled
file_unfiled u cfg paths k d =
    if cfg.file_to_library then file_each u cfg paths k d (read_unfiled k d) else d
