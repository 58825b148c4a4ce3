-- ===== src/Transcodes/Tables.antt =====
-- internal/store/transcode.go and schema.sql: the rows of the tables that the queue uses, and what
-- its `UPDATE` and `INSERT` statements do to a list of them.
use hellbox.Base.{
  ℕ, ◌+◌, Bool, true, false, ◌&&◌, List, [], ◌∷◌, ◌++◌, Option, none, some, ltb, ◌==◌,
  if◌then◌else◌, any, Text,
}

-- The states of a job.
pub data State : Type 0 where
  pending running complete failed : State

abbrev pub is_pending : State → Bool
is_pending pending = true
is_pending _ = false

abbrev pub is_running : State → Bool
is_running running = true
is_running _ = false

abbrev pub is_failed : State → Bool
is_failed failed = true
is_failed _ = false

abbrev pub is_complete : State → Bool
is_complete complete = true
is_complete _ = false

-- A row of the table `transcodes`.
pub record Job : Type 0 where
  pub id : ℕ
  pub disc_id : ℕ
  pub title_index : ℕ
  pub state : State
  pub profile : Text
  pub source_path : Text
  pub output_path : Option Text
  pub size_bytes : ℕ
  pub attempt : ℕ
  pub hardware : Bool
  pub created_at : ℕ
  pub started_at : Option ℕ
  pub ended_at : Option ℕ
  pub error : Option Text

-- A row of the table `discs`, as far as the queue reads it.
pub record DiscRow : Type 0 where
  pub id : ℕ
  pub volume_label : Option Text

-- A row of the table `library_links`.
pub record Link : Type 0 where
  pub disc_id : ℕ
  pub title_index : ℕ
  pub path : Text
  pub created_at : ℕ

pub record Store : Type 0 where
  pub discs : List DiscRow
  pub jobs : List Job
  pub links : List Link

-- `UPDATE transcodes SET … WHERE …`
unfoldable pub update_where : (Job → Bool) → (Job → Job) → List Job → List Job
update_where test change [] = []
update_where test change (j ∷ js) = (if test j then change j else j) ∷ update_where test change js

-- The id of a new row: one more than the largest.
unfoldable pub fresh_id : List Job → ℕ
fresh_id [] = 1
fresh_id (j ∷ js) = let n = fresh_id js in if ltb j.id n then n else j.id + 1

-- The conflict target `(disc_id, title_index)`.
abbrev pub has_key : ℕ → ℕ → Job → Bool
has_key disc title j = j.disc_id == disc && j.title_index == title

-- `INSERT … ON CONFLICT(disc_id, title_index) DO UPDATE`
abbrev pub upsert : Job → (Job → Job) → List Job → List Job
upsert new change js =
    if any (has_key new.disc_id new.title_index) js
    then update_where (has_key new.disc_id new.title_index) change js
    else js ++ (new ∷ [])

unfoldable pub find_disc : ℕ → List DiscRow → Option DiscRow
find_disc id [] = none
find_disc id (d ∷ ds) = if d.id == id then some d else find_disc id ds

abbrev pub is_some {ℓ} : {A : Type ℓ} → Option A → Bool
is_some none = false
is_some (some a) = true

-- The link of a title, and the `INSERT … ON CONFLICT … DO UPDATE` of one.
unfoldable pub find_link : ℕ → ℕ → List Link → Option Text
find_link disc title [] = none
find_link disc title (l ∷ ls) =
    if l.disc_id == disc && l.title_index == title then some l.path else find_link disc title ls

unfoldable pub put_link : Link → List Link → List Link
put_link new [] = new ∷ []
put_link new (l ∷ ls) =
    if l.disc_id == new.disc_id && l.title_index == new.title_index
    then record l { path = new.path; created_at = new.created_at } ∷ ls
    else l ∷ put_link new ls
