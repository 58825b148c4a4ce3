-- ===== src/Catalog/Tables.antt =====
-- internal/disc/disc.go and internal/store/schema.sql: what a scan says of a disc, the rows of the
-- tables, and what an `UPDATE` and an `INSERT … ON CONFLICT DO UPDATE` do to them.
use hellbox.Base.{
  ℕ, ◌+◌, Bool, true, false, List, [], ◌∷◌, Option, none, some, ltb, if◌then◌else◌, any, Text,
}

-- The fields of a stream that the database keeps.
pub record Stream : Type 0 where
  pub index : ℕ
  pub kind : Text
  pub codec : Text
  pub language : Text
  pub channels : ℕ
  pub resolution : Text
  pub frame_rate : Text
  pub flags : Text

pub record Title : Type 0 where
  pub index : ℕ
  pub duration_secs : ℕ
  pub chapters : ℕ
  pub size_bytes : ℕ
  pub source_file : Text
  pub output_file : Text
  pub streams : List Stream

pub data DiscType : Type 0 where
  type_dvd type_blu_ray type_unknown : DiscType

pub record Disc : Type 0 where
  pub fingerprint : Text
  pub volume_label : Text
  pub kind : DiscType
  pub total_bytes : ℕ
  pub titles : List Title

-- What can be wrong, for the messages that the code formats: the constructor says which message it
-- is and carries what the message quotes, or the error that it wraps.
pub data Problem : Type 0 where
  disc_gone : Problem
  was_cancelled : Problem
  context_canceled : Problem
  interrupted : Problem
  incompatible_disc : Problem
  attempts_used : ℕ → Problem
  too_many_directories : Problem
  fallback_off : Problem
  partial_copy : ℕ → ℕ → Problem
  cancelled_during : ℕ → Problem
  reported : Text → Problem
  after_attempts : Problem → ℕ → Problem
  in_title : ℕ → Problem → Problem
  in_step : Text → Problem → Problem

pub data JobState : Type 0 where
  pending scanning ripping verifying complete failed duplicate cancelled : JobState

-- The terminal states of `SetJobState`.
abbrev pub is_terminal : JobState → Bool
is_terminal complete = true
is_terminal failed = true
is_terminal duplicate = true
is_terminal cancelled = true
is_terminal _ = false

abbrev pub is_cancelled_job : JobState → Bool
is_cancelled_job cancelled = true
is_cancelled_job _ = false

-- The states that `ReclaimUnfinishedJobs` takes for abandoned.
abbrev pub is_unfinished : JobState → Bool
is_unfinished pending = true
is_unfinished scanning = true
is_unfinished ripping = true
is_unfinished verifying = true
is_unfinished _ = false

pub record DiscRow : Type 0 where
  pub id : ℕ
  pub fingerprint : Text
  pub volume_label : Text
  pub disc_type : DiscType
  pub title_count : ℕ
  pub total_bytes : ℕ
  pub first_seen : ℕ
  pub rip_dir : Option Text
  pub makemkv_info : Text
  pub forgotten_after_job : Option ℕ

pub record TitleRow : Type 0 where
  pub id : ℕ
  pub disc_id : ℕ
  pub title_index : ℕ
  pub duration_secs : ℕ
  pub chapters : ℕ
  pub size_bytes : ℕ
  pub source_file : Text
  pub output_file : Text
  pub ripped : Bool
  pub verified : Bool

pub record StreamRow : Type 0 where
  pub title_id : ℕ
  pub stream : Stream

pub record RipJob : Type 0 where
  pub id : ℕ
  pub disc_id : ℕ
  pub drive_id : ℕ
  pub state : JobState
  pub attempt : ℕ
  pub created_at : ℕ
  pub started_at : Option ℕ
  pub ended_at : Option ℕ
  pub error : Option Problem
  pub titles_total : ℕ
  pub titles_done : ℕ

pub record Catalog : Type 0 where
  pub discs : List DiscRow
  pub titles : List TitleRow
  pub streams : List StreamRow
  pub jobs : List RipJob

abbrev pub or_else {ℓ} : {A : Type ℓ} → Option A → A → A
or_else none d = d
or_else (some a) d = a

abbrev pub append {ℓ} : {A : Type ℓ} → List A → A → List A
append [] new = new ∷ []
append (r ∷ rs) new = r ∷ append rs new

-- `UPDATE … SET … WHERE …`
unfoldable pub update_rows {ℓ} : {A : Type ℓ} → (A → Bool) → (A → A) → List A → List A
update_rows test change [] = []
update_rows test change (r ∷ rs) = (if test r then change r else r) ∷ update_rows test change rs

-- `INSERT … ON CONFLICT … DO UPDATE SET …`, for the row that the key's test finds.
unfoldable pub put {ℓ} : {A : Type ℓ} → (A → Bool) → (A → A) → A → List A → List A
put test change new rows = if any test rows then update_rows test change rows else append rows new

-- The id of a new row: one more than the largest.
unfoldable pub next_id {ℓ} : {A : Type ℓ} → (A → ℕ) → List A → ℕ
next_id id [] = 1
next_id id (r ∷ rs) = let n = next_id id rs in if ltb (id r) n then n else id r + 1
