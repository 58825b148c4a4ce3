-- ===== src/Transcodes/Tries/Counted.antt =====
-- internal/store/transcode.go: that each statement counts the claims of a job in its row.
use hellbox.Base.{
  ℕ, ◌+◌, ◌≤◌, ◌≡◌, refl, sym, ◌∙◌, Bool, List, [], ◌∷◌, arith, inl, inr, Option-cases, filter,
  In-All, All, All-map, In-filter, ◌==◌, if◌then◌else◌,
}
use hellbox.Transcodes.Claims.{oldest-In}
use hellbox.Transcodes.Rows.{
  IsValid, Statement, queue, record_done, next, finish, fail, requeue, reclaim, reset, link,
  execute, execute_all, execute-IsValid, execute_all-IsValid,
}
use hellbox.Transcodes.{
  Job, Store, update_where, has_id, queue_transcode, record_transcode, oldest, claimable, claim,
  next_transcode, finish_transcode, fail_transcode, requeue_transcode, reclaim_running,
  reset_attempts, record_library_link,
}
use hellbox.Transcodes.Tries.{
  is_claim_of, claimed, claims, given_back, all_given_back, HasJob, Counts, All-update,
  update-HasJob, upsert-HasJob, upsert-Counts,
}

unchanged-Counts :
    (id n back : ℕ) (js : List Job)
    → All (Counts id n back) js
    → All (Counts id (n + 0) (back + 0)) js
unchanged-Counts id n back js h =
    All-map js (λ (k : Job) (c : Counts id n back k) same. let m = c same in omega arith) h

claim_tries :
    (id n back : ℕ) (s : Store) (now : ℕ) (j : Job)
    → (j.id ≡ id → n ≤ j.attempt + back)
    → All (Counts id n back) s.jobs
    → All (Counts id (n + (if j.id == id then 1 else 0)) (back + 0)) (claim s now j).1.jobs
unfolding claim
claim_tries id n back s now j cj h =
    All-update (Counts id n back) (Counts id (n + (if j.id == id then 1 else 0)) (back + 0))
      (has_id j.id) _ s.jobs (λ k t c same. ground (arith, cj, t, same))
      (λ k t c same. let m = c same in ground (arith, t, m, same)) h

next-Counts :
    (id n back max now : ℕ) (s : Store)
    → All (Counts id n back) s.jobs
    → All
        (Counts id (n + is_claim_of id (next_transcode s max now).0) (back + 0))
        (next_transcode s max now).1.jobs
unfolding next_transcode is_claim_of claim
next-Counts id n back max now s h = elim (Option-cases (oldest (filter (claimable s max) s.jobs))) [
  | inl e ↦ rw (e, next_transcode) (unchanged-Counts id n back s.jobs h)
  | inr (j, e) ↦
      let (i, t) =
        In-filter (claimable s max) j s.jobs (oldest-In (filter (claimable s max) s.jobs) e) in
      let cj = In-All (Counts id n back) j s.jobs i h in
      rw (e, next_transcode) (claim_tries id n back s now j cj h)
]

same_tries :
    (id n back : ℕ) (test : Job → Bool) (change : Job → Job) (js : List Job)
    → ((j : Job) → ((change j).id ≡ j.id) × ((change j).attempt ≡ j.attempt))
    → All (Counts id n back) js
    → All (Counts id (n + 0) (back + 0)) (update_where test change js)
same_tries id n back test change js keep h =
    All-update (Counts id n back) (Counts id (n + 0) (back + 0)) test change js
      (λ j t c same. let (ids, tries) = keep j in let m = c (sym ids ∙ same) in omega arith)
      (λ j t c same. let m = c same in omega arith) h

All-both : (P Q : Job → Type 0) (js : List Job) → All P js → All Q js → All (λ j. P j × Q j) js
All-both P Q [] h k = tt
All-both P Q (j ∷ js) h k = ((h.0, k.0), All-both P Q js h.1 k.1)

reset_tries :
    (id n back max i : ℕ) (change : Job → Job) (js : List Job)
    → ((j : Job) → (change j).id ≡ j.id)
    → All (λ (j : Job). j.attempt ≤ max) js
    → All (Counts id n back) js
    → All
        (Counts id (n + 0) (back + (if i == id then max else 0)))
        (update_where (has_id i) change js)
reset_tries id n back max i change js keep bounded h =
    All-update (λ j. Counts id n back j × (j.attempt ≤ max)) _ (has_id i) change js
      (λ j t c same.
        let ids = keep j in let m = c.0 (sym ids ∙ same) in ground (arith, t, m, ids, same, c.1))
      (λ j t c same. let m = c.0 same in ground (arith, m))
      (All-both (Counts id n back) (λ (j : Job). j.attempt ≤ max) js h bounded)

-- One statement: what it claims of a job and what it gives back are in the job's row.
execute-Counts :
    (id n back max : ℕ) (s : Store) (st : Statement)
    → IsValid max s.jobs
    → HasJob id s.jobs
    → All (Counts id n back) s.jobs
    → All
        (Counts id (n + claimed id max s st) (back + given_back id max st))
        (execute max s st).jobs
unfolding execute claimed given_back queue_transcode record_transcode finish_transcode
    fail_transcode requeue_transcode reclaim_running reset_attempts record_library_link
execute-Counts id n back max s (queue d t p src now) v j h =
    unchanged-Counts id n back _ (upsert-Counts id n back _ _ s.jobs (λ k. (refl, refl)) refl j h)
execute-Counts id n back max s (record_done d t p src out m hw now) v j h =
    unchanged-Counts id n back _ (upsert-Counts id n back _ _ s.jobs (λ k. (refl, refl)) refl j h)
execute-Counts id n back max s (next now) v j h = next-Counts id n back max now s h
execute-Counts id n back max s (finish i out m hw now) v j h =
    same_tries id n back (has_id i) _ s.jobs (λ k. (refl, refl)) h
execute-Counts id n back max s (fail i reason now) v j h =
    same_tries id n back (has_id i) _ s.jobs (λ k. (refl, refl)) h
execute-Counts id n back max s (requeue i) v j h =
    All-update (Counts id n back) _ (has_id i) _ s.jobs
      (λ k t c same. let m = c same in ground (arith, t, m, same))
      (λ k t c same. let m = c same in ground (arith, m)) h
execute-Counts id n back max s reclaim v j h =
    All-update (Counts id n back) _ _ _ s.jobs (λ k t c same. let m = c same in omega arith)
      (λ k t c same. let m = c same in omega arith) h
execute-Counts id n back max s (reset i) v j h =
    reset_tries id n back max i _ s.jobs (λ k. refl) v.bounded h
execute-Counts id n back max s (link d t path now) v j h = unchanged-Counts id n back s.jobs h

next-HasJob :
    (id max now : ℕ) (s : Store) → HasJob id s.jobs → HasJob id (next_transcode s max now).1.jobs
unfolding next_transcode claim
next-HasJob id max now s h = elim (Option-cases (oldest (filter (claimable s max) s.jobs))) [
  | inl e ↦ rw (e, next_transcode) h
  | inr (j, e) ↦ rw (e, next_transcode) (update-HasJob id (has_id j.id) _ s.jobs (λ k. refl) h)
]

execute-HasJob :
    (id max : ℕ) (s : Store) (st : Statement) → HasJob id s.jobs → HasJob id (execute max s st).jobs
unfolding execute queue_transcode record_transcode finish_transcode fail_transcode requeue_transcode
    reclaim_running reset_attempts record_library_link
execute-HasJob id max s (queue d t p src now) h = upsert-HasJob id _ _ s.jobs (λ k. refl) h
execute-HasJob id max s (record_done d t p src out n hw now) h =
    upsert-HasJob id _ _ s.jobs (λ k. refl) h
execute-HasJob id max s (next now) h = next-HasJob id max now s h
execute-HasJob id max s (finish i out n hw now) h = update-HasJob id _ _ s.jobs (λ k. refl) h
execute-HasJob id max s (fail i reason now) h = update-HasJob id _ _ s.jobs (λ k. refl) h
execute-HasJob id max s (requeue i) h = update-HasJob id _ _ s.jobs (λ k. refl) h
execute-HasJob id max s reclaim h = update-HasJob id _ _ s.jobs (λ k. refl) h
execute-HasJob id max s (reset i) h = update-HasJob id _ _ s.jobs (λ k. refl) h
execute-HasJob id max s (link d t path now) h = h

claims_counted :
    (id n back max : ℕ) (s : Store) (sts : List Statement)
    → IsValid max s.jobs
    → HasJob id s.jobs
    → All (Counts id n back) s.jobs
    → n + claims id max s sts ≤ max + (back + all_given_back id max sts)
unfolding claims all_given_back
claims_counted id n back max s [] v (j, i, e) h =
    let counted = In-All (Counts id n back) j s.jobs i h e in
    let small = In-All (λ (k : Job). k.attempt ≤ max) j s.jobs i v.bounded in omega arith
claims_counted id n back max s (st ∷ sts) v j h =
    let rest =
      claims_counted id (n + claimed id max s st) (back + given_back id max st) max
        (execute max s st) sts (execute-IsValid max s st v) (execute-HasJob id max s st j)
        (execute-Counts id n back max s st v j h) in
    omega arith

-- The budget of a job, whatever statements run one after the other on valid tables: a job that is there is
-- claimed no more often than the bound and what the run gives back to it, one attempt for each time
-- it is put back or running jobs are reclaimed, and the bound for each time it is reset. The
-- tables stay valid: ids and keys unique, and no row counting more attempts than the bound.
pub claims_within_budget :
    (id max : ℕ) (s : Store) (sts : List Statement)
    → IsValid max s.jobs
    → HasJob id s.jobs
    → (claims id max s sts ≤ max + all_given_back id max sts)
      × IsValid max (execute_all max s sts).jobs
claims_within_budget id max s sts v j =
    let none_yet : All (Counts id 0 0) s.jobs =
      All-map s.jobs (λ (k : Job) h same. omega arith) v.bounded in
    let bound = claims_counted id 0 0 max s sts v j none_yet in
    (omega arith, execute_all-IsValid max s sts v)
