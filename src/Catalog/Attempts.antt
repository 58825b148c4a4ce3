-- ===== src/Catalog/Attempts.antt =====
-- internal/store/store.go: which jobs count as attempts to rip a disc.
use hellbox.Base.{
  inl, inr, ℕ, ◌+◌, ◌<◌, ◌≤◌, ◌≡◌, refl, ◌∙◌, ap, Bool, true, false, List, [], ◌∷◌, Option, none,
  some, arith, some_inj, if◌then◌else◌, Text, any, ==_iff, ◌==◌, filter, length, All, All-map,
  Option-cases,
}
use hellbox.Catalog.Rows.{find_row-update_rows}
use hellbox.Catalog.{
  Problem, DiscRow, RipJob, JobState, Catalog, is_cancelled_job, is_terminal, is_ripped, append,
  update_rows, next_id, find_row, find_disc, create_job, set_job_state, counts_as_attempt,
  forgotten_after, attempts_for_disc, last_job, forget_disc, id_of,
}

-- Every id is below the next one.
next_id-bounds : (js : List RipJob) → All (λ j. j.id < next_id (λ (r : RipJob). r.id) js) js
unfolding next_id
next_id-bounds [] = tt
next_id-bounds (j ∷ js) =
    let n = next_id (λ (r : RipJob). r.id) js in
    (ground arith, All-map js (λ k h. ground arith) (next_id-bounds js))

-- The attempts among the jobs, with one more job whose state has been set.
count_set :
    (disc after id : ℕ) (change : RipJob → RipJob) (new : RipJob) (js : List RipJob)
    → All (λ j. j.id < id) js
    → new.id ≡ id
    → length (
        filter
          (counts_as_attempt disc after)
          (update_rows (λ (j : RipJob). j.id == id) change (append js new)))
      ≡ length (filter (counts_as_attempt disc after) js)
        + (if counts_as_attempt disc after (change new) then 1 else 0)
unfolding update_rows
count_set disc after id change new [] h e = ground arith
count_set disc after id change new (j ∷ js) (b, h) e =
    ground (arith, count_set disc after id change new js h e)

-- The new job with a state that has been set.
new_counts :
    (disc after : ℕ) (state : JobState) (b : Bool) (x y : RipJob)
    → x.disc_id ≡ disc
    → y.disc_id ≡ disc
    → after < x.id
    → after < y.id
    → x.state ≡ state
    → y.state ≡ state
    → ◌≡◌ {A = ℕ}
        (if counts_as_attempt disc after (if b then x else y) then 1 else 0)
        (if is_cancelled_job state then 0 else 1)
unfolding counts_as_attempt
new_counts disc after state true x y dx dy ix iy sx sy =
    ground (arith, dx, sx, ix, ==_iff x.disc_id disc)
new_counts disc after state false x y dx dy ix iy sx sy =
    ground (arith, dy, sy, iy, ==_iff y.disc_id disc)

-- What an attempt counts for. A job that is opened for a disc and set to a state, with whatever
-- error and time, adds one to the disc's attempts, unless the state is cancelled: then the count is
-- what it was before. (The disc was not forgotten after a job that is yet to come.)
pub attempt_counts :
    (c : Catalog) (disc drive attempt now later : ℕ) (state : JobState) (e : Option Problem)
    → forgotten_after disc c.discs < (create_job c disc drive attempt now).0
    → attempts_for_disc
        (set_job_state
          (create_job c disc drive attempt now).1
          (create_job c disc drive attempt now).0
          state
          e
          later)
        disc
      ≡ attempts_for_disc c disc + (if is_cancelled_job state then 0 else 1)
unfolding attempts_for_disc set_job_state create_job counts_as_attempt
attempt_counts c disc drive attempt now later state e h =
    let counted =
      count_set disc (forgotten_after disc c.discs) (next_id (λ (r : RipJob). r.id) c.jobs) _ _
        c.jobs (next_id-bounds c.jobs) refl in
    counted
    ∙ ap (λ n. attempts_for_disc c disc + n)
        (new_counts disc (forgotten_after disc c.discs) state (is_terminal state) _ _ refl refl h h
          refl refl)

last_job-bounds :
    (disc : ℕ) (js : List RipJob)
    → All (λ j. (j.disc_id == disc) ≡ true → j.id ≤ last_job disc js) js
unfolding last_job
last_job-bounds disc [] = tt
last_job-bounds disc (j ∷ js) =
    (ground arith, All-map js (λ k h t. ground arith) (last_job-bounds disc js))

count_none :
    (disc after : ℕ) (js : List RipJob)
    → All (λ j. (j.disc_id == disc) ≡ true → j.id ≤ after) js
    → length (filter (counts_as_attempt disc after) js) ≡ 0
unfolding counts_as_attempt
count_none disc after [] h = refl
count_none disc after (j ∷ js) (b, h) = ground (arith, count_none disc after js h)

forgotten_after-update_rows :
    (id n : ℕ) (change : DiscRow → DiscRow) (ds : List DiscRow)
    → ((d : DiscRow) → ((change d).id ≡ d.id) × ((change d).forgotten_after_job ≡ some n))
    → any (λ (d : DiscRow). d.id == id) ds ≡ true
    → forgotten_after id (update_rows (λ (d : DiscRow). d.id == id) change ds) ≡ n
unfolding forgotten_after update_rows
forgotten_after-update_rows id n change [] h a = absurd (cc)
forgotten_after-update_rows id n change (d ∷ ds) h a =
    ground (arith, h d, forgotten_after-update_rows id n change ds h)

find_row-id :
    (fp : Text) (ds : List DiscRow) (d : DiscRow)
    → find_row fp ds ≡ some d
    → any (λ (r : DiscRow). r.id == d.id) ds ≡ true
unfolding find_row id_of
find_row-id fp [] d h = absurd (cc)
find_row-id fp (r ∷ ds) d h = ground (arith, find_row-id fp ds d, ap id_of h)

find_row-forgotten :
    (fp : Text) (id : ℕ) (change : DiscRow → DiscRow) (ds : List DiscRow)
    → ((d : DiscRow) → ((change d).fingerprint ≡ d.fingerprint) × (is_ripped (change d) ≡ false))
    → (d : DiscRow) → find_row fp ds ≡ some d
    → d.id ≡ id
    → (r : DiscRow) × (find_row fp (update_rows (λ (x : DiscRow). x.id == id) change ds) ≡ some r)
      × (is_ripped r ≡ false)
find_row-forgotten fp id change ds h d f e =
    let found =
      find_row-update_rows fp (λ (x : DiscRow). x.id == id) change ds d (λ x. (h x).0) f in
    (change d, found ∙ rw ((==_iff d.id id).1 e) refl, (h d).1)

-- Forgetting means that the disc is tried again: a disc that is known and forgotten has no attempts
-- any more and is not ripped.
pub forgotten_is_retried :
    (c c' : Catalog) (fp : Text)
    → forget_disc c fp ≡ some c'
    → (d : DiscRow) × (find_disc c fp ≡ some d)
      × (attempts_for_disc c' d.id ≡ 0)
      × ((r : DiscRow) × (find_disc c' fp ≡ some r) × (is_ripped r ≡ false))
unfolding forget_disc find_disc attempts_for_disc is_ripped
forgotten_is_retried c c' fp h = elim (Option-cases (find_row fp c.discs)) [
  | inl q ↦ absurd (cc (rw (q, forget_disc) at h))
  | inr (d, q) ↦
      let n = last_job d.id c.jobs in
      let change = λ (r : DiscRow). record r { rip_dir = none; forgotten_after_job = some n } in
      let same = some_inj (rw (q, forget_disc) at h) in
      let after =
        forgotten_after-update_rows d.id n change c.discs (λ r. (refl, refl))
          (find_row-id fp c.discs d q) in
      (
        d,
        q,
        rw (← same) (rw after (count_none d.id n c.jobs (last_job-bounds d.id c.jobs))),
        rw (← same) (find_row-forgotten fp d.id change c.discs (λ r. (refl, refl)) d q refl),
      )
]
