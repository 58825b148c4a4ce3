-- ===== src/Catalog.antt =====
-- internal/store/store.go and schema.sql: the discs, titles, streams and rip jobs of the state
-- database. A table is a list of rows in the order of their ids; NULL is `none`; the time is an
-- argument. A statement that SQLite refuses is the caller's to model: here they all succeed.
pub mod Rows
pub mod Attempts
pub mod Marks
mod Tests
mod Tables
unfoldable pub use Tables.*
use hellbox.Base.{
  ℕ, ◌+◌, Bool, true, false, not, ◌&&◌, ◌||◌, List, [], ◌∷◌, Option, none, some, ltb, ◌==◌,
  if◌then◌else◌, length, filter, Text, text_eq,
}

-- `DiscRecord.Ripped`
unfoldable pub is_ripped : DiscRow → Bool
is_ripped d = elim (d.rip_dir) [ none ↦ false | some dir ↦ not (text_eq dir []) ]

unfoldable pub find_row : Text → List DiscRow → Option DiscRow
find_row fp [] = none
find_row fp (d ∷ ds) = if text_eq d.fingerprint fp then some d else find_row fp ds

-- `FindDisc`
unfoldable pub find_disc : Catalog → Text → Option DiscRow
find_disc c fp = find_row fp c.discs

-- The rows that `SaveDisc` writes for a stream of a title.
unfoldable pub save_stream : ℕ → List StreamRow → Stream → List StreamRow
save_stream title rows s =
    let new : StreamRow = record { title_id = title; stream = s } in
    put (λ (r : StreamRow). r.title_id == title && r.stream.index == s.index)
      (λ (r : StreamRow). record r { stream = s }) new rows

unfoldable pub save_streams : ℕ → List StreamRow → List Stream → List StreamRow
save_streams title rows [] = rows
save_streams title rows (s ∷ ss) = save_streams title (save_stream title rows s) ss

unfoldable pub title_key : ℕ → ℕ → TitleRow → Bool
title_key disc index r = r.disc_id == disc && r.title_index == index

unfoldable pub title_id : ℕ → ℕ → List TitleRow → ℕ
title_id disc index [] = 0
title_id disc index (r ∷ rs) = if title_key disc index r then r.id else title_id disc index rs

-- One round of the loop of `SaveDisc` over the titles.
unfoldable pub save_title : ℕ → Catalog → Title → Catalog
save_title disc c t =
    let new : TitleRow = record {
      id = next_id (λ (r : TitleRow). r.id) c.titles;
      disc_id = disc;
      title_index = t.index;
      duration_secs = t.duration_secs;
      chapters = t.chapters;
      size_bytes = t.size_bytes;
      source_file = t.source_file;
      output_file = t.output_file;
      ripped = false;
      verified = false;
    } in
    let change = λ (r : TitleRow). record r {
      duration_secs = t.duration_secs;
      chapters = t.chapters;
      size_bytes = t.size_bytes;
      source_file = t.source_file;
      output_file = t.output_file;
    } in
    let titles = put (title_key disc t.index) change new c.titles in
    record c {
      titles = titles;
      streams = save_streams (title_id disc t.index titles) c.streams t.streams;
    }

unfoldable pub save_titles : ℕ → Catalog → List Title → Catalog
save_titles disc c [] = c
save_titles disc c (t ∷ ts) = save_titles disc (save_title disc c t) ts

-- The first statement of `SaveDisc`.
unfoldable pub put_disc : Disc → Text → ℕ → List DiscRow → List DiscRow
put_disc d raw now rows =
    let new : DiscRow = record {
      id = next_id (λ (r : DiscRow). r.id) rows;
      fingerprint = d.fingerprint;
      volume_label = d.volume_label;
      disc_type = d.kind;
      title_count = length d.titles;
      total_bytes = d.total_bytes;
      first_seen = now;
      rip_dir = none;
      makemkv_info = raw;
      forgotten_after_job = none;
    } in
    let change = λ (r : DiscRow). record r {
      volume_label = d.volume_label;
      disc_type = d.kind;
      title_count = length d.titles;
      total_bytes = d.total_bytes;
      makemkv_info = raw;
    } in
    put (λ (r : DiscRow). text_eq r.fingerprint d.fingerprint) change new rows

unfoldable pub id_of : Option DiscRow → ℕ
id_of none = 0
id_of (some d) = d.id

-- `SaveDisc`: the disc's id, and the tables after the transaction.
unfoldable pub save_disc : Catalog → Disc → Text → ℕ → ℕ × Catalog
save_disc c d raw now =
    let discs = put_disc d raw now c.discs in
    let id = id_of (find_row d.fingerprint discs) in
    (id, save_titles id (record c { discs = discs }) d.titles)

-- `SetDiscRipDir`
unfoldable pub set_rip_dir : Catalog → ℕ → Text → Catalog
set_rip_dir c id dir = record c {
  discs =
      update_rows (λ (d : DiscRow). d.id == id) (λ (d : DiscRow). record d { rip_dir = some dir })
        c.discs;
}

-- `SELECT MAX(id) FROM jobs WHERE disc_id = ?`, 0 for none.
unfoldable pub last_job : ℕ → List RipJob → ℕ
last_job disc [] = 0
last_job disc (j ∷ js) =
    let n = last_job disc js in if j.disc_id == disc && ltb n j.id then j.id else n

-- `ForgetDisc`; a fingerprint that no disc has is an error.
unfoldable pub forget_disc : Catalog → Text → Option Catalog
forget_disc c fp = elim (find_row fp c.discs) [
  | none ↦ none
  | some d ↦ some (record c {
    discs =
        update_rows (λ (r : DiscRow). r.id == d.id)
          (λ (r : DiscRow). record r {
            rip_dir = none;
            forgotten_after_job = some (last_job d.id c.jobs);
          })
          c.discs;
  })
]

-- `MarkTitleRipped`
unfoldable pub mark_title_ripped : Catalog → ℕ → ℕ → ℕ → Bool → Catalog
mark_title_ripped c disc index size verified = record c {
  titles =
      update_rows (title_key disc index)
        (λ (r : TitleRow). record r { ripped = true; verified = verified; size_bytes = size })
        c.titles;
}

-- `CreateJob`
unfoldable pub create_job : Catalog → ℕ → ℕ → ℕ → ℕ → ℕ × Catalog
create_job c disc drive attempt now =
    let id = next_id (λ (j : RipJob). j.id) c.jobs in
    let new : RipJob = record {
      id = id;
      disc_id = disc;
      drive_id = drive;
      state = pending;
      attempt = attempt;
      created_at = now;
      started_at = some now;
      ended_at = none;
      error = none;
      titles_total = 0;
      titles_done = 0;
    } in
    (id, record c { jobs = append c.jobs new })

-- `SetJobState`: the terminal states stamp the end time.
unfoldable pub set_job_state : Catalog → ℕ → JobState → Option Problem → ℕ → Catalog
set_job_state c id state error now = record c {
  jobs =
      update_rows (λ (j : RipJob). j.id == id)
        (λ (j : RipJob).
          if is_terminal state
          then record j { state = state; error = error; ended_at = some now }
          else record j { state = state; error = error })
        c.jobs;
}

-- `SetJobProgress`
unfoldable pub set_job_progress : Catalog → ℕ → ℕ → ℕ → Catalog
set_job_progress c id done total = record c {
  jobs =
      update_rows (λ (j : RipJob). j.id == id)
        (λ (j : RipJob). record j { titles_done = done; titles_total = total }) c.jobs;
}

-- `COALESCE((SELECT forgotten_after_job FROM discs WHERE id = ?), 0)`
unfoldable pub forgotten_after : ℕ → List DiscRow → ℕ
forgotten_after id [] = 0
forgotten_after id (d ∷ ds) =
    if d.id == id
    then elim (d.forgotten_after_job) [ none ↦ 0 | some n ↦ n ]
    else forgotten_after id ds

unfoldable pub counts_as_attempt : ℕ → ℕ → RipJob → Bool
counts_as_attempt disc after j =
    j.disc_id == disc && not (is_cancelled_job j.state) && ltb after j.id

-- `AttemptsForDisc`
unfoldable pub attempts_for_disc : Catalog → ℕ → ℕ
attempts_for_disc c disc =
    length (filter (counts_as_attempt disc (forgotten_after disc c.discs)) c.jobs)

-- `ReclaimUnfinishedJobs`: the count of rows changed, and the new tables.
unfoldable pub reclaim_unfinished : Catalog → ℕ → ℕ × Catalog
reclaim_unfinished c now = (
  length (filter (λ (j : RipJob). is_unfinished j.state) c.jobs),
  record c {
    jobs =
        update_rows (λ (j : RipJob). is_unfinished j.state)
          (λ (j : RipJob). record j {
            state = cancelled;
            ended_at = some (or_else j.ended_at now);
            error = some (or_else j.error interrupted);
          })
          c.jobs;
  },
)
