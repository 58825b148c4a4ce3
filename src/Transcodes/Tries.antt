-- ===== src/Transcodes/Tries.antt =====
-- internal/store/transcode.go: how often a job is claimed, against the attempts that its row counts.
pub mod Counted
use hellbox.Base.{
  ℕ, ◌+◌, ◌≤◌, ◌<◌, ◌≡◌, refl, sym, ap, ◌∙◌, Bool, true, false, List, [], ◌∷◌, ◌++◌, Option, none,
  some, arith, inl, inr, ◌⊎◌, Bool-cases, Option-cases, filter, any, In, In-All, All, All-map,
  All-append, In-filter, ◌==◌, if◌then◌else◌,
}
use hellbox.Transcodes.Claims.{oldest-In}
use hellbox.Transcodes.Rows.{
  IsValid, Statement, queue, record_done, next, finish, fail, requeue, reclaim, reset, link,
  execute, execute_all, execute-IsValid, execute_all-IsValid, fresh_id-above, KeepsKey,
}
use hellbox.Transcodes.{
  Job, Store, Claim, update_where, fresh_id, has_key, has_id, upsert, queue_transcode,
  record_transcode, oldest, claimable, claim, next_transcode, finish_transcode, fail_transcode,
  requeue_transcode, reclaim_running, reset_attempts, record_library_link,
}

-- Whether what `NextTranscode` returned is this job.
unfoldable pub is_claim_of : ℕ → Option Claim → ℕ
is_claim_of id none = 0
is_claim_of id (some c) = if c.id == id then 1 else 0

-- How many times one statement claims a job.
unfoldable pub claimed : ℕ → ℕ → Store → Statement → ℕ
unfolding is_claim_of
claimed id max s (queue d t p src now) = 0
claimed id max s (record_done d t p src out n hw now) = 0
claimed id max s (next now) = is_claim_of id (next_transcode s max now).0
claimed id max s (finish i out n hw now) = 0
claimed id max s (fail i reason now) = 0
claimed id max s (requeue i) = 0
claimed id max s reclaim = 0
claimed id max s (reset i) = 0
claimed id max s (link d t path now) = 0

-- How many times a run of statements claims a job.
unfoldable pub claims : ℕ → ℕ → Store → List Statement → ℕ
unfolding claimed
claims id max s [] = 0
claims id max s (st ∷ sts) = claimed id max s st + claims id max (execute max s st) sts

-- How many attempts a statement gives back to a job: one where it is put back, all where it is reset.
unfoldable pub given_back : ℕ → ℕ → Statement → ℕ
given_back id max (requeue i) = if i == id then 1 else 0
given_back id max reclaim = 1
given_back id max (reset i) = if i == id then max else 0
given_back id max (queue d t p src now) = 0
given_back id max (record_done d t p src out n hw now) = 0
given_back id max (next now) = 0
given_back id max (finish i out n hw now) = 0
given_back id max (fail i reason now) = 0
given_back id max (link d t path now) = 0

unfoldable pub all_given_back : ℕ → ℕ → List Statement → ℕ
unfolding given_back
all_given_back id max [] = 0
all_given_back id max (st ∷ sts) = given_back id max st + all_given_back id max sts

abbrev pub HasJob : ℕ → List Job → Type 0
HasJob id js = (j : Job) × In j js × (j.id ≡ id)

-- The row of a job counts all but so many of its claims.
abbrev pub Counts : ℕ → ℕ → ℕ → Job → Type 0
Counts id n back j = j.id ≡ id → n ≤ j.attempt + back

pub All-update {κ} :
    (P Q : Job → Type κ) (test : Job → Bool) (change : Job → Job) (js : List Job)
    → ((j : Job) → test j ≡ true → P j → Q (change j))
    → ((j : Job) → test j ≡ false → P j → Q j)
    → All P js
    → All Q (update_where test change js)
unfolding update_where
All-update P Q test change [] yes_case no_case h = tt
All-update P Q test change (j ∷ js) yes_case no_case h =
    let rest = All-update P Q test change js yes_case no_case h.1 in
    elim (Bool-cases (test j)) [
      | inl e ↦ rw e (yes_case j e h.0, rest)
      | inr e ↦ rw e (no_case j e h.0, rest)
    ]

pub update-HasJob :
    (id : ℕ) (test : Job → Bool) (change : Job → Job) (js : List Job)
    → ((j : Job) → (change j).id ≡ j.id)
    → HasJob id js
    → HasJob id (update_where test change js)
unfolding update_where
update-HasJob id test change [] keep (j, i, e) = absurd i
update-HasJob id test change (k ∷ js) keep (j, inl same, e) = (
  if test k then change k else k,
  inl refl,
  ground (arith, keep k, ap (λ (x : Job). x.id) same, e),
)
update-HasJob id test change (k ∷ js) keep (j, inr i, e) =
    let (j', i', e') = update-HasJob id test change js keep (j, i, e) in (j', inr i', e')

append-HasJob : (id : ℕ) (js : List Job) (new : Job) → HasJob id js → HasJob id (js ++ (new ∷ []))
append-HasJob id [] new (j, i, e) = absurd i
append-HasJob id (k ∷ js) new (j, inl same, e) = (j, inl same, e)
append-HasJob id (k ∷ js) new (j, inr i, e) =
    let (j', i', e') = append-HasJob id js new (j, i, e) in (j', inr i', e')

pub upsert-HasJob :
    (id : ℕ) (new : Job) (change : Job → Job) (js : List Job)
    → ((j : Job) → (change j).id ≡ j.id)
    → HasJob id js
    → HasJob id (upsert new change js)
upsert-HasJob id new change js keep h =
    elim (Bool-cases (any (has_key new.disc_id new.title_index) js)) [
      | inl e ↦ rw e (update-HasJob id _ change js keep h)
      | inr e ↦ rw e (append-HasJob id js new h)
    ]

-- A new row is of no job that is there.
pub upsert-Counts :
    (id n back : ℕ) (new : Job) (change : Job → Job) (js : List Job)
    → ((j : Job) → ((change j).id ≡ j.id) × ((change j).attempt ≡ j.attempt))
    → new.id ≡ fresh_id js
    → HasJob id js
    → All (Counts id n back) js
    → All (Counts id n back) (upsert new change js)
upsert-Counts id n back new change js keep fresh (j, i, e) h =
    let below = In-All (λ (k : Job). k.id < fresh_id js) j js i (fresh_id-above js) in
    elim (Bool-cases (any (has_key new.disc_id new.title_index) js)) [
      | inl t ↦ rw t (
          All-update (Counts id n back) (Counts id n back) _ change js
            (λ k t c same. let (ids, tries) = keep k in rw tries (c (sym ids ∙ same))) (λ k t c. c)
            h)
      | inr t ↦ rw t (
          All-append (Counts id n back) js (new ∷ []) h
            (λ same. absurd (ground (arith, below, e, same, fresh)), tt))
    ]
