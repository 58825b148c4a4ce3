-- ===== src/Transcodes/Budget.antt =====
-- internal/store/transcode.go: what interruptions and re-queueing do to the attempts of a job.
use hellbox.Base.{
  ℕ, ◌+◌, ◌-◌, ◌≤◌, ◌≡◌, refl, sym, ap, ◌∙◌, Bool, true, false, List, [], ◌∷◌, none, some, arith,
  inl, inr, Bool-cases, any, All, All-map, In, In-All, Text, pair_inj,
}
use hellbox.Transcodes.{
  Job, Store, State, pending, running, is_running, Claim, update_where, has_id, has_key, claim,
  claimable, next_transcode, requeue_transcode, reclaim_running, queue_transcode,
}
use hellbox.Transcodes.Rows.{Distinct, Unique}
use hellbox.Transcodes.Claims.{next_transcode-some}

-- The jobs with their attempts and their states.
abbrev pub attempts : List Job → List (ℕ × ℕ × State)
attempts [] = []
attempts (j ∷ js) = (j.id, j.attempt, j.state) ∷ attempts js

-- The rows with an id all have these attempts and wait.
abbrev Waits : ℕ → ℕ → Job → Type 0
Waits id a k = k.id ≡ id → (k.attempt ≡ a) × (k.state ≡ pending)

Unique-Waits :
    (j : Job) (js : List Job)
    → Unique js
    → In j js
    → j.state ≡ pending
    → All (Waits j.id j.attempt) js
Unique-Waits j [] u i p = tt
Unique-Waits j (k ∷ js) u (inl e) p = (
  λ _. (ap (λ (x : Job). x.attempt) (sym e), ap (λ (x : Job). x.state) (sym e) ∙ p),
  All-map js (λ x d same. absurd (d.0 (ap (λ (x : Job). x.id) (sym e) ∙ sym same))) u.0,
)
Unique-Waits j (k ∷ js) u (inr i) p =
    (λ same. absurd ((In-All (Distinct k) j js i u.0).0 same), Unique-Waits j js u.1 i p)

-- The row of a claim, and what puts it back.
abbrev claimed_row : ℕ → ℕ → Job → Job
claimed_row a now r = record r {
  state = running;
  attempt = a + 1;
  started_at = some now;
  error = none;
}

abbrev requeued_row : Job → Job
requeued_row r = record r {
  state = pending;
  started_at = none;
  ended_at = none;
  attempt = r.attempt - 1;
}

abbrev reclaimed_row : Job → Job
reclaimed_row r = record r { state = pending; started_at = none; attempt = r.attempt - 1 }

requeue_claimed :
    (js : List Job) (id a now : ℕ)
    → All (Waits id a) js
    → attempts
        (update_where (has_id id) requeued_row (update_where (has_id id) (claimed_row a now) js))
      ≡ attempts js
unfolding update_where
requeue_claimed [] id a now h = refl
requeue_claimed (k ∷ js) id a now h = ground (arith, h.0, requeue_claimed js id a now h.1)

reclaim_claimed :
    (js : List Job) (id a now : ℕ)
    → All (Waits id a) js
    → All (λ k. is_running k.state ≡ false) js
    → attempts (
        update_where
          (λ (k : Job). is_running k.state)
          reclaimed_row
          (update_where (has_id id) (claimed_row a now) js))
      ≡ attempts js
unfolding update_where
reclaim_claimed [] id a now h r = refl
reclaim_claimed (k ∷ js) id a now h r =
    ground (arith, h.0, r.0, reclaim_claimed js id a now h.1 r.1)

claimable-pending : (s : Store) (max : ℕ) (j : Job) → claimable s max j ≡ true → j.state ≡ pending
unfolding claimable
claimable-pending s max j h = ground arith

claim-row :
    (s : Store) (now : ℕ) (j : Job) {c : Claim} {s' : Store}
    → claim s now j ≡ (c, s')
    → (c.id ≡ j.id) × (s'.jobs ≡ update_where (has_id j.id) (claimed_row j.attempt now) s.jobs)
unfolding claim
claim-row s now j h =
    let (q, r) = pair_inj h in
    (ap (λ (x : Claim). x.id) (sym q), ap (λ (t : Store). t.jobs) (sym r))

-- An interrupted encode costs no attempt. If a job is claimed and then put back, by
-- `RequeueTranscode` when it is cancelled, or by `ReclaimRunningTranscodes` at the next start with
-- no other job running, then every job has the attempts and the state that it had before.
pub interruption_is_free :
    (s s' : Store) (max now : ℕ) (c : Claim)
    → Unique s.jobs
    → next_transcode s max now ≡ (some c, s')
    → (attempts (requeue_transcode s' c.id).jobs ≡ attempts s.jobs)
      × (All (λ k. is_running k.state ≡ false) s.jobs
          → attempts (reclaim_running s').1.jobs ≡ attempts s.jobs)
unfolding requeue_transcode reclaim_running
interruption_is_free s s' max now c u h =
    let (j, (i, t, first), e) = next_transcode-some s max now h in
    let waits = Unique-Waits j s.jobs u i (claimable-pending s max j t) in
    let (same, rows) = claim-row s now j e in
    (
      rw (same, rows) (requeue_claimed s.jobs j.id j.attempt now waits),
      λ none_running. rw rows (reclaim_claimed s.jobs j.id j.attempt now waits none_running),
    )

update-attempts :
    (test : Job → Bool) (change : Job → Job) (js : List Job) (max : ℕ)
    → ((j : Job) → (change j).attempt ≡ j.attempt)
    → All (λ k. test k ≡ true → max ≤ k.attempt) js
    → ((j : Job) → test (change j) ≡ test j)
    → ((j : Job) → (change j).state ≡ pending)
    → All
        (λ k. test k ≡ true → (k.state ≡ pending) × (max ≤ k.attempt))
        (update_where test change js)
unfolding update_where
update-attempts test change [] max same h t p = tt
update-attempts test change (k ∷ js) max same h t p = elim (Bool-cases (test k)) [
  | inl e ↦
      rw e ((λ _. (p k, rw (same k) (h.0 e))), update-attempts test change js max same h.1 t p)
  | inr e ↦ rw e ((λ e'. absurd (cc)), update-attempts test change js max same h.1 t p)
]

-- Queueing a title again does not give it another try once its attempts are used up: its job goes
-- back to pending with the attempts that it had, and so cannot be claimed, whatever its state was
-- before, also if it was complete.
pub requeued_exhausted :
    (s : Store) (max disc title now : ℕ) (profile source : Text)
    → any (has_key disc title) s.jobs ≡ true
    → All (λ k. has_key disc title k ≡ true → max ≤ k.attempt) s.jobs
    → All
        (λ k. has_key disc title k ≡ true → (k.state ≡ pending) × (claimable s max k ≡ false))
        (queue_transcode s disc title profile source now).jobs
unfolding queue_transcode claimable
requeued_exhausted s max disc title now profile source known used = rw known (
    All-map _ (λ k h e. let (p, m) = h e in (p, ground arith))
      (update-attempts (has_key disc title) _ s.jobs max (λ j. refl) used (λ j. refl) (λ j. refl)))
