-- ===== src/Transcodes/Rows.antt =====
-- internal/store/transcode.go: every statement keeps the ids and the keys of the jobs unique, and
-- the attempts that a row counts within the bound.
use hellbox.Base.{
  ℕ, ◌≤◌, ◌<◌, ◌≡◌, ◌≢◌, refl, Bool, true, false, List, [], ◌∷◌, ◌++◌, arith, inl, inr, Bool-cases,
  Option-cases, filter, any, All, All-map, All-append, In-filter, Text, if◌then◌else◌,
}
use hellbox.Transcodes.Claims.{oldest-In}
use hellbox.Transcodes.{
  Job, Store, update_where, fresh_id, has_key, has_id, upsert, queue_transcode, record_transcode,
  oldest, claimable, claim, next_transcode, finish_transcode, fail_transcode, requeue_transcode,
  reclaim_running, reset_attempts, record_library_link,
}

-- Two rows with different ids and different keys.
abbrev pub Distinct : Job → Job → Type 0
Distinct j k = (j.id ≢ k.id) × (has_key j.disc_id j.title_index k ≡ false)

abbrev pub Unique : List Job → Type 0
Unique [] = Unit
Unique (j ∷ js) = All (Distinct j) js × Unique js

-- A change of a row that keeps its id and its key.
abbrev pub KeepsKey : (Job → Job) → Type 0
KeepsKey change =
    (j : Job)
    → ((change j).id ≡ j.id)
      × ((change j).disc_id ≡ j.disc_id)
      × ((change j).title_index ≡ j.title_index)

All-update {ℓ} :
    (P : Job → Type ℓ) (test : Job → Bool) (change : Job → Job) (js : List Job)
    → ((j : Job) → P j → P (change j))
    → All P js
    → All P (update_where test change js)
unfolding update_where
All-update P test change [] keep h = tt
All-update P test change (j ∷ js) keep h = elim (Bool-cases (test j)) [
  | inl e ↦ rw e (keep j h.0, All-update P test change js keep h.1)
  | inr e ↦ rw e (h.0, All-update P test change js keep h.1)
]

update-Unique :
    (test : Job → Bool) (change : Job → Job) (js : List Job)
    → KeepsKey change
    → Unique js
    → Unique (update_where test change js)
unfolding update_where
update-Unique test change [] keep h = tt
update-Unique test change (j ∷ js) keep h = (
  All-update (Distinct j') test change js (λ k d. ground (arith, keep k))
      (All-map js (λ k d. same k d) h.0),
  update-Unique test change js keep h.1,
)
  where
    j' : Job
    j' = if test j then change j else j

    same : (k : Job) → Distinct j k → Distinct j' k
    same k d = elim (Bool-cases (test j)) [ inl e ↦ rw e (ground (arith, keep j)) | inr e ↦ rw e d ]

pub fresh_id-above : (js : List Job) → All (λ (j : Job). j.id < fresh_id js) js
unfolding fresh_id
fresh_id-above [] = tt
fresh_id-above (j ∷ js) = (ground arith, All-map js (λ k h. ground arith) (fresh_id-above js))

any-false {ℓ} :
    {A : Type ℓ} (test : A → Bool) (xs : List A)
    → any test xs ≡ false
    → All (λ x. test x ≡ false) xs
any-false test [] h = tt
any-false test (x ∷ xs) h = elim (Bool-cases (test x)) [
  | inl e ↦ absurd (cc (rw e at h))
  | inr e ↦ (e, any-false test xs (rw e at h))
]

Unique-append :
    (js : List Job) (new : Job)
    → Unique js
    → All (λ (j : Job). j.id < new.id) js
    → All (λ (j : Job). has_key new.disc_id new.title_index j ≡ false) js
    → Unique (js ++ new ∷ [])
Unique-append [] new u lower other = (tt, tt)
Unique-append (j ∷ js) new u lower other = (
  All-append (Distinct j) js (new ∷ []) u.0 (ground (arith, lower.0, other.0), tt),
  Unique-append js new u.1 lower.1 other.1,
)

-- What a sequence of statements keeps, whatever `max` the claims are made with.
pub record IsValid (max : ℕ) (js : List Job) : Type 0 where
  pub unique : Unique js
  pub bounded : All (λ (j : Job). j.attempt ≤ max) js

update-IsValid :
    {max : ℕ} (test : Job → Bool) (change : Job → Job) (js : List Job)
    → KeepsKey change
    → ((j : Job) → j.attempt ≤ max → (change j).attempt ≤ max)
    → IsValid max js
    → IsValid max (update_where test change js)
update-IsValid {max} test change js keep less v = record {
  unique = update-Unique test change js keep v.unique;
  bounded = All-update (λ (j : Job). j.attempt ≤ max) test change js less v.bounded;
}

upsert-IsValid :
    {max : ℕ} (new : Job) (change : Job → Job) (js : List Job)
    → KeepsKey change
    → ((j : Job) → j.attempt ≤ max → (change j).attempt ≤ max)
    → new.id ≡ fresh_id js
    → new.attempt ≤ max
    → IsValid max js
    → IsValid max (upsert new change js)
upsert-IsValid {max} new change js keep less fresh small v =
    elim (Bool-cases (any (has_key new.disc_id new.title_index) js)) [
      | inl e ↦ rw e (update-IsValid (has_key new.disc_id new.title_index) change js keep less v)
      | inr e ↦ rw e (record {
        unique =
            Unique-append js new v.unique (rw fresh (fresh_id-above js))
              (any-false (has_key new.disc_id new.title_index) js e);
        bounded = All-append (λ (j : Job). j.attempt ≤ max) js (new ∷ []) v.bounded (small, tt);
      })
    ]

claimable-lt : (s : Store) (max : ℕ) (j : Job) → claimable s max j ≡ true → j.attempt < max
unfolding claimable
claimable-lt s max j h = ground arith

next_transcode-IsValid :
    (s : Store) (max now : ℕ) → IsValid max s.jobs → IsValid max (next_transcode s max now).1.jobs
unfolding next_transcode claim
next_transcode-IsValid s max now v =
    elim (Option-cases (oldest (filter (claimable s max) s.jobs))) [
      | inl e ↦ rw (e, next_transcode) v
      | inr (j, e) ↦
          let (i, t) =
            In-filter (claimable s max) j s.jobs (oldest-In (filter (claimable s max) s.jobs) e) in
          let lt = claimable-lt s max j t in
          rw (e, next_transcode)
            (update-IsValid (has_id j.id) _ s.jobs (λ k. (refl, refl, refl)) (λ k h. omega arith) v)
    ]

-- The statements that the daemon runs on the queue, each with its arguments and its time; the
-- claims are all made with the same bound.
pub data Statement : Type 0 where
  queue : ℕ → ℕ → Text → Text → ℕ → Statement
  record_done : ℕ → ℕ → Text → Text → Text → ℕ → Bool → ℕ → Statement
  next : ℕ → Statement
  finish : ℕ → Text → ℕ → Bool → ℕ → Statement
  fail : ℕ → Text → ℕ → Statement
  requeue : ℕ → Statement
  reclaim : Statement
  reset : ℕ → Statement
  link : ℕ → ℕ → Text → ℕ → Statement

unfoldable pub execute : ℕ → Store → Statement → Store
execute max s (queue d t p src now) = queue_transcode s d t p src now
execute max s (record_done d t p src out n hw now) = record_transcode s d t p src out n hw now
execute max s (next now) = (next_transcode s max now).1
execute max s (finish id out n hw now) = finish_transcode s id out n hw now
execute max s (fail id reason now) = fail_transcode s id reason now
execute max s (requeue id) = requeue_transcode s id
execute max s reclaim = (reclaim_running s).1
execute max s (reset id) = reset_attempts s id
execute max s (link d t path now) = record_library_link s d t path now

unfoldable pub execute_all : ℕ → Store → List Statement → Store
unfolding execute
execute_all max s [] = s
execute_all max s (st ∷ sts) = execute_all max (execute max s st) sts

pub execute-IsValid :
    (max : ℕ) (s : Store) (st : Statement)
    → IsValid max s.jobs
    → IsValid max (execute max s st).jobs
unfolding execute queue_transcode record_transcode finish_transcode fail_transcode requeue_transcode
    reclaim_running reset_attempts record_library_link
execute-IsValid max s (queue d t p src now) v =
    upsert-IsValid _ _ s.jobs (λ j. (refl, refl, refl)) (λ j h. h) refl (omega arith) v
execute-IsValid max s (record_done d t p src out n hw now) v =
    upsert-IsValid _ _ s.jobs (λ j. (refl, refl, refl)) (λ j h. h) refl (omega arith) v
execute-IsValid max s (next now) v = next_transcode-IsValid s max now v
execute-IsValid max s (finish id out n hw now) v =
    update-IsValid (has_id id) _ s.jobs (λ j. (refl, refl, refl)) (λ j h. h) v
execute-IsValid max s (fail id reason now) v =
    update-IsValid (has_id id) _ s.jobs (λ j. (refl, refl, refl)) (λ j h. h) v
execute-IsValid max s (requeue id) v =
    update-IsValid (has_id id) _ s.jobs (λ j. (refl, refl, refl)) (λ j h. omega arith) v
execute-IsValid max s reclaim v =
    update-IsValid _ _ s.jobs (λ j. (refl, refl, refl)) (λ j h. omega arith) v
execute-IsValid max s (reset id) v =
    update-IsValid (has_id id) _ s.jobs (λ j. (refl, refl, refl)) (λ j h. omega arith) v
execute-IsValid max s (link d t path now) v = v

-- Whatever statements the daemon runs, one after the other, on tables whose jobs are numbered and
-- keyed uniquely with no more attempts counted in a row than the bound: the jobs stay so.
pub execute_all-IsValid :
    (max : ℕ) (s : Store) (sts : List Statement)
    → IsValid max s.jobs
    → IsValid max (execute_all max s sts).jobs
unfolding execute_all
execute_all-IsValid max s [] v = v
execute_all-IsValid max s (st ∷ sts) v =
    execute_all-IsValid max (execute max s st) sts (execute-IsValid max s st v)
