-- ===== src/Transcodes/Tests.antt =====
-- A queue of two titles of one disc.
use hellbox.Base.{
  inl, ◌≤◌, ℕ, ◌+◌, ◌≡◌, ◌≢◌, refl, true, false, List, [], ◌∷◌, none, some, arith, All, In, codes,
}
use hellbox.Transcodes.{
  State, pending, running, complete, Job, Store, Claim, has_key, find_disc, update_where, oldest,
  claimable, claim, next_transcode, queue_transcode, requeue_transcode, reclaim_running, is_running,
}
use hellbox.Transcodes.Rows.{IsValid, Statement, queue, next, fail, requeue, reset, execute_all}
use hellbox.Transcodes.Claims.{IsNext, IsClaimedAs, next_transcode_claims}
use hellbox.Transcodes.Tries.{claims, all_given_back}
use hellbox.Transcodes.Tries.Counted.{claims_within_budget}
use hellbox.Transcodes.Budget.{attempts, interruption_is_free, requeued_exhausted}

abbrev job : ℕ → ℕ → State → ℕ → Job
job id title state attempt = record {
  id = id;
  disc_id = 7;
  title_index = title;
  state = state;
  profile = codes "default";
  source_path = codes "/rips/a";
  output_path = none;
  size_bytes = 0;
  attempt = attempt;
  hardware = false;
  created_at = 100;
  started_at = none;
  ended_at = none;
  error = none;
}

abbrev store : List Job → Store
store jobs = record {
  discs = record { id = 7; volume_label = some (codes "STNG") } ∷ [];
  jobs = jobs;
  links = [];
}

abbrev two : Store
two = store (job 1 1 pending 0 ∷ job 2 0 pending 1 ∷ [])

abbrev two_with : State → ℕ → State → ℕ → Store
two_with a n b k = store (job 1 1 a n ∷ job 2 0 b k ∷ [])

abbrev claim_of : ℕ → ℕ → ℕ → Claim
claim_of id title attempt = record {
  id = id;
  disc_id = 7;
  title_index = title;
  state = running;
  profile = codes "default";
  source_path = codes "/rips/a";
  attempt = attempt;
  volume_label = codes "STNG";
}

-- The tables after title 0 has been claimed, and then title 1.
abbrev one_claimed : Store
one_claimed = store (job 1 1 pending 0 ∷ record (job 2 0 running 2) { started_at = some 200 } ∷ [])

abbrev both_claimed : Store
both_claimed = store (
    record (job 1 1 running 1) { started_at = some 201 }
    ∷ record (job 2 0 running 2) { started_at = some 200 }
    ∷ [])

claims_title_zero : next_transcode two 2 200 ≡ (some (claim_of 2 0 2), one_claimed)
unfolding next_transcode oldest claimable claim find_disc update_where
claims_title_zero = refl

claims_title_one : next_transcode one_claimed 2 201 ≡ (some (claim_of 1 1 1), both_claimed)
unfolding next_transcode oldest claimable claim find_disc update_where
claims_title_one = refl

next_transcode_claims_example :
    ((next_transcode two 2 200).0 ≡ none
      → ((next_transcode two 2 200).1 ≡ two) × All (λ k. claimable two 2 k ≡ false) two.jobs)
    × ((c : Claim)
        → (next_transcode two 2 200).0 ≡ some c
        → (j : Job) × IsNext two 2 j
          × (c.id ≡ j.id)
          × (c.attempt ≡ j.attempt + 1)
          × All (IsClaimedAs c) (next_transcode two 2 200).1.jobs
          × All (λ k. k.id ≢ c.id → In k (next_transcode two 2 200).1.jobs) two.jobs)
next_transcode_claims_example = next_transcode_claims two 2 200

abbrev day : List Statement
day =
    queue 7 2 (codes "default") (codes "/rips/a") 300
    ∷ next 301
    ∷ fail 2 (codes "ffmpeg") 302
    ∷ next 303
    ∷ requeue 1
    ∷ reset 2
    ∷ []

two-IsValid : IsValid 2 two.jobs
two-IsValid = ground arith

claims_within_budget_example :
    (claims 1 2 two day ≤ 2 + all_given_back 1 2 day) × IsValid 2 (execute_all 2 two day).jobs
claims_within_budget_example = claims_within_budget 1 2 two day two-IsValid (_, inl refl, refl)

interruption_is_free_example :
    (attempts (requeue_transcode one_claimed 2).jobs ≡ attempts two.jobs)
    × (All (λ k. is_running k.state ≡ false) two.jobs
        → attempts (reclaim_running one_claimed).1.jobs ≡ attempts two.jobs)
interruption_is_free_example =
    interruption_is_free two one_claimed 2 200 (claim_of 2 0 2) (two-IsValid.unique)
      claims_title_zero

-- A title encoded twice over, queued a third time.
abbrev done_twice : Store
done_twice = store (job 1 1 complete 2 ∷ [])

requeued_exhausted_example :
    All
      (λ k. has_key 7 1 k ≡ true → (k.state ≡ pending) × (claimable done_twice 2 k ≡ false))
      (queue_transcode done_twice 7 1 (codes "default") (codes "/rips/a") 400).jobs
requeued_exhausted_example =
    requeued_exhausted done_twice 2 7 1 400 (codes "default") (codes "/rips/a") refl
      ((λ _. omega arith), tt)
