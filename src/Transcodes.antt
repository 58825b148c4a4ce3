-- ===== src/Transcodes.antt =====
-- internal/store/transcode.go: the transcode queue. The tables that its statements read and write
-- are lists of rows, in the order of their ids; NULL is `none`; the time is an argument.
pub mod Rows
pub mod Tries
pub mod Claims
pub mod Budget
mod Tests
mod Tables
unfoldable pub use Tables.*
use hellbox.Base.{
  ℕ, zero, suc, ◌+◌, ◌-◌, Bool, true, false, not, ◌&&◌, ◌||◌, List, [], ◌∷◌, ◌++◌, Option, none,
  some, ltb, leb, ◌==◌, if◌then◌else◌, length, filter, any, Text,
}

-- `QueueTranscode`
unfoldable pub queue_transcode : Store → ℕ → ℕ → Text → Text → ℕ → Store
queue_transcode s disc title profile source now =
    let new : Job = record {
      id = fresh_id s.jobs;
      disc_id = disc;
      title_index = title;
      state = pending;
      profile = profile;
      source_path = source;
      output_path = none;
      size_bytes = 0;
      attempt = 0;
      hardware = false;
      created_at = now;
      started_at = none;
      ended_at = none;
      error = none;
    } in
    let change = λ (j : Job). record j {
      state = pending;
      profile = profile;
      source_path = source;
      created_at = now;
      started_at = none;
      ended_at = none;
      error = none;
    } in
    record s { jobs = upsert new change s.jobs }

-- `RecordTranscode`
unfoldable pub record_transcode : Store → ℕ → ℕ → Text → Text → Text → ℕ → Bool → ℕ → Store
record_transcode s disc title profile source output size hardware now =
    let new : Job = record {
      id = fresh_id s.jobs;
      disc_id = disc;
      title_index = title;
      state = complete;
      profile = profile;
      source_path = source;
      output_path = some output;
      size_bytes = size;
      attempt = 0;
      hardware = hardware;
      created_at = now;
      started_at = some now;
      ended_at = some now;
      error = none;
    } in
    let change = λ (j : Job). record j {
      state = complete;
      profile = profile;
      source_path = source;
      output_path = some output;
      size_bytes = size;
      hardware = hardware;
      ended_at = some now;
      error = none;
    } in
    record s { jobs = upsert new change s.jobs }

-- The `WHERE` of `NextTranscode`, with its join on `discs`.
unfoldable pub claimable : Store → ℕ → Job → Bool
claimable s max j = is_pending j.state && ltb j.attempt max && is_some (find_disc j.disc_id s.discs)

-- `ORDER BY t.created_at, t.title_index`; of equal rows the one with the lower id comes first.
abbrev pub comes_before : Job → Job → Bool
comes_before a b =
    ltb a.created_at b.created_at
    || (a.created_at == b.created_at && ltb a.title_index b.title_index)

abbrev pub earlier_of : Job → Option Job → Job
earlier_of j none = j
earlier_of j (some k) = if comes_before k j then k else j

unfoldable pub oldest : List Job → Option Job
oldest [] = none
oldest (j ∷ js) = some (earlier_of j (oldest js))

-- What `NextTranscode` returns of a job, besides its new state.
pub record Claim : Type 0 where
  pub id : ℕ
  pub disc_id : ℕ
  pub title_index : ℕ
  pub state : State
  pub profile : Text
  pub source_path : Text
  pub attempt : ℕ
  pub volume_label : Text

-- `COALESCE(d.volume_label, '')`
abbrev pub label_of : Option DiscRow → Text
label_of none = []
label_of (some d) = elim (d.volume_label) [ none ↦ [] | some l ↦ l ]

abbrev pub has_id : ℕ → Job → Bool
has_id id j = j.id == id

unfoldable pub claim : Store → ℕ → Job → Claim × Store
claim s now j =
    let tried = j.attempt + 1 in
    (
      record {
        id = j.id;
        disc_id = j.disc_id;
        title_index = j.title_index;
        state = running;
        profile = j.profile;
        source_path = j.source_path;
        attempt = tried;
        volume_label = label_of (find_disc j.disc_id s.discs);
      },
      record s {
        jobs =
            update_where (has_id j.id)
              (λ (r : Job). record r {
                state = running;
                attempt = tried;
                started_at = some now;
                error = none;
              })
              s.jobs;
      },
    )

-- `NextTranscode`
unfoldable pub next_transcode : Store → ℕ → ℕ → Option Claim × Store
next_transcode s max now = elim (oldest (filter (claimable s max) s.jobs)) [
  | none ↦ (none, s)
  | some j ↦ let (c, s') = claim s now j in (some c, s')
]

abbrev pub update_id : Store → ℕ → (Job → Job) → Store
update_id s id change = record s { jobs = update_where (has_id id) change s.jobs }

-- `FinishTranscode`
unfoldable pub finish_transcode : Store → ℕ → Text → ℕ → Bool → ℕ → Store
finish_transcode s id output size hardware now = update_id s id (λ (j : Job). record j {
  state = complete;
  output_path = some output;
  size_bytes = size;
  hardware = hardware;
  ended_at = some now;
  error = none;
})

-- `FailTranscode`
unfoldable pub fail_transcode : Store → ℕ → Text → ℕ → Store
fail_transcode s id reason now =
    update_id s id
      (λ (j : Job). record j { state = failed; ended_at = some now; error = some reason })

-- `RequeueTranscode`; `MAX(attempt - 1, 0)` is the truncated difference.
unfoldable pub requeue_transcode : Store → ℕ → Store
requeue_transcode s id = update_id s id (λ (j : Job). record j {
  state = pending;
  started_at = none;
  ended_at = none;
  attempt = j.attempt - 1;
})

-- `TranscodeQueue`: how many jobs wait, and how many have been given up on.
unfoldable pub transcode_queue : Store → ℕ → ℕ × ℕ
transcode_queue s max = (
  length (filter (λ (j : Job). is_pending j.state && ltb j.attempt max) s.jobs),
  length
      (filter (λ (j : Job). is_failed j.state || (is_pending j.state && leb max j.attempt)) s.jobs),
)

-- `ReclaimRunningTranscodes`: the count of rows changed, and the new tables.
unfoldable pub reclaim_running : Store → ℕ × Store
reclaim_running s = (
  length (filter (λ (j : Job). is_running j.state) s.jobs),
  record s {
    jobs =
        update_where (λ (j : Job). is_running j.state)
          (λ (j : Job). record j { state = pending; started_at = none; attempt = j.attempt - 1 })
          s.jobs;
  },
)

-- `ResetTranscodeAttempts`
unfoldable pub reset_attempts : Store → ℕ → Store
reset_attempts s id = update_id s id (λ (j : Job). record j {
  state = pending;
  attempt = 0;
  started_at = none;
  ended_at = none;
  error = none;
})

-- `RecordLibraryLink`
unfoldable pub record_library_link : Store → ℕ → ℕ → Text → ℕ → Store
record_library_link s disc title path now =
    let new : Link = record {
      disc_id = disc;
      title_index = title;
      path = path;
      created_at = now;
    } in
    record s { links = put_link new s.links }

-- `LibraryLink`: where a title was filed, if it ever was.
unfoldable pub library_link : Store → ℕ → ℕ → Option Text
library_link s disc title = find_link disc title s.links

-- `UnfiledTranscodes`, without its `ORDER BY`: the finished jobs with an output and no link.
unfoldable pub is_unfiled : Store → Job → Bool
is_unfiled s j =
    is_complete j.state
    && is_some j.output_path
    && not (is_some (find_link j.disc_id j.title_index s.links))

unfoldable pub unfiled_transcodes : Store → List Job
unfolding is_unfiled
unfiled_transcodes s = filter (is_unfiled s) s.jobs
