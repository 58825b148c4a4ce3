-- ===== src/Transcodes/Claims.antt =====
-- internal/store/transcode.go: what `NextTranscode` claims.
use hellbox.Base.{
  ℕ, ◌+◌, ◌≡◌, ◌≢◌, refl, sym, ap, ◌∙◌, Bool, true, false, List, [], ◌∷◌, Option, none, some,
  some_inj, pair_inj, arith, inl, inr, Bool-cases, Option-cases, filter, All, All-map, In, In-All,
  In-filter, filter-All,
}
use mathlib.Core.Path.{subst}
use hellbox.Transcodes.{
  Job, Store, pending, running, Claim, update_where, has_id, oldest, comes_before, claimable, claim,
  next_transcode,
}

pub oldest-In : (js : List Job) {j : Job} → oldest js ≡ some j → In j js
unfolding oldest
oldest-In [] h = absurd (cc)
oldest-In (k ∷ js) {j} h = elim (Option-cases (oldest js)) [
  | inl e ↦ inl (sym (some_inj (rw e at h)))
  | inr (b, e) ↦ elim (Bool-cases (comes_before b k)) [
    | inl t ↦
        let h' : some b ≡ some j = rw (e, t) at h in
        inr (subst (λ x. In x js) (some_inj h') (oldest-In js e))
    | inr f ↦ let h' : some k ≡ some j = rw (e, f) at h in inl (sym (some_inj h'))
  ]
]

before_irrefl : (j : Job) → comes_before j j ≡ false
before_irrefl j = ground arith

before-asym : (j k : Job) → comes_before j k ≡ true → comes_before k j ≡ false
before-asym j k h = ground arith

before_trans :
    (x b k : Job) → comes_before x b ≡ false → comes_before b k ≡ false → comes_before x k ≡ false
before_trans x b k h h' = ground arith

abbrev NoneBefore : Job → List Job → Type 0
NoneBefore j = All (λ k. comes_before k j ≡ false)

oldest-none : (js : List Job) → oldest js ≡ none → js ≡ []
unfolding oldest
oldest-none [] h = refl
oldest-none (j ∷ js) h = absurd (cc)

-- None of the rows comes before the oldest.
oldest-first : (js : List Job) {j : Job} → oldest js ≡ some j → NoneBefore j js
unfolding oldest
oldest-first [] h = tt
oldest-first (k ∷ js) {j} h = elim (Option-cases (oldest js)) [
  | inl e ↦
      let same : k ≡ j = some_inj (rw e at h) in
      subst (λ x. NoneBefore x (k ∷ js)) same (before_irrefl k, rw (oldest-none js e) tt)
  | inr (b, e) ↦ elim (Bool-cases (comes_before b k)) [
    | inl t ↦
        let same : some b ≡ some j = rw (e, t) at h in
        subst (λ x. NoneBefore x (k ∷ js)) (some_inj same) (before-asym b k t, oldest-first js e)
    | inr f ↦
        let same : some k ≡ some j = rw (e, f) at h in
        subst (λ x. NoneBefore x (k ∷ js)) (some_inj same)
          (before_irrefl k, All-map js (λ x n. before_trans x b k n f) (oldest-first js e))
  ]
]

-- A job that may be claimed next: no claimable job comes before it.
abbrev pub IsNext : Store → ℕ → Job → Type 0
IsNext s max j =
    In j s.jobs
    × (claimable s max j ≡ true)
    × All (λ k. claimable s max k ≡ true → comes_before k j ≡ false) s.jobs

pub next_transcode-some :
    (s : Store) (max now : ℕ) {c : Claim} {s' : Store}
    → next_transcode s max now ≡ (some c, s')
    → (j : Job) × IsNext s max j × (claim s now j ≡ (c, s'))
unfolding next_transcode
next_transcode-some s max now {c} {s'} h =
    elim (Option-cases (oldest (filter (claimable s max) s.jobs))) [
      | inl e ↦ absurd (cc (rw (e, next_transcode) at h))
      | inr (j, e) ↦
          let (i, t) =
            In-filter (claimable s max) j s.jobs (oldest-In (filter (claimable s max) s.jobs) e) in
          let first =
            filter-All (λ k. comes_before k j ≡ false) (claimable s max) s.jobs
              (oldest-first (filter (claimable s max) s.jobs) e) in
          let h' : ◌≡◌ {A = Option Claim × Store} (some (claim s now j).0, (claim s now j).1)
              (some c, s') =
            rw (e, next_transcode) at h in
          let (q, r) = pair_inj h' in (j, (i, t, first), λ n. (some_inj q n, r n))
    ]

pub next_transcode-none :
    (s : Store) (max now : ℕ)
    → (next_transcode s max now).0 ≡ none
    → ((next_transcode s max now).1 ≡ s) × All (λ k. claimable s max k ≡ false) s.jobs
unfolding next_transcode
next_transcode-none s max now h = elim (Option-cases (oldest (filter (claimable s max) s.jobs))) [
  | inl e ↦
      let nothing = oldest-none (filter (claimable s max) s.jobs) e in
      (rw (e, next_transcode), none_claimable s.jobs nothing)
  | inr (j, e) ↦ absurd (cc (rw (e, next_transcode) at h))
]
  where
    none_claimable :
        (js : List Job) → filter (claimable s max) js ≡ [] → All (λ k. claimable s max k ≡ false) js
    none_claimable [] h = tt
    none_claimable (k ∷ js) h = elim (Bool-cases (claimable s max k)) [
      | inl t ↦ absurd (cc (rw t at h))
      | inr f ↦ (f, none_claimable js (rw f at h))
    ]

-- What an update makes of the rows that it hits, and that it leaves the others.
pub update-hit {κ} :
    (P : Job → Type κ) (test : Job → Bool) (change : Job → Job) (js : List Job)
    → ((j : Job) → (test j ≡ true) → P (change j))
    → ((j : Job) → (test j ≡ false) → P j)
    → All P (update_where test change js)
unfolding update_where
update-hit P test change [] hit miss = tt
update-hit P test change (j ∷ js) hit miss = elim (Bool-cases (test j)) [
  | inl e ↦ rw e (hit j e, update-hit P test change js hit miss)
  | inr e ↦ rw e (miss j e, update-hit P test change js hit miss)
]

pub update-miss :
    (test : Job → Bool) (change : Job → Job) (js : List Job)
    → All (λ k. test k ≡ false → In k (update_where test change js)) js
unfolding update_where
update-miss test change [] = tt
update-miss test change (j ∷ js) =
    (λ e. rw e (inl refl), All-map js (λ k later e. inr (later e)) (update-miss test change js))

-- A claimed job is running, with the attempt counted.
abbrev pub IsClaimedAs : Claim → Job → Type 0
IsClaimedAs c k = k.id ≡ c.id → (k.state ≡ running) × (k.attempt ≡ c.attempt)

claim-rows :
    (s : Store) (now : ℕ) (j : Job) {c : Claim} {s' : Store}
    → claim s now j ≡ (c, s')
    → (c.id ≡ j.id)
      × (c.attempt ≡ j.attempt + 1)
      × All (IsClaimedAs c) s'.jobs
      × All (λ k. k.id ≢ c.id → In k s'.jobs) s.jobs
unfolding claim
claim-rows s now j {c} {s'} h =
    let (q, r) = pair_inj h in
    let rows = ap (λ (t : Store). t.jobs) r in
    let id : j.id ≡ c.id = ap (λ (x : Claim). x.id) q in
    let attempt : j.attempt + 1 ≡ c.attempt = ap (λ (x : Claim). x.attempt) q in
    (
      sym id,
      sym attempt,
      subst (All (IsClaimedAs c)) rows (
          update-hit (IsClaimedAs c) (has_id j.id) _ s.jobs (λ k e t. (refl, attempt))
            (λ k e t. ground arith)),
      subst (λ js. All (λ k. k.id ≢ c.id → In k js) s.jobs) rows
          (All-map s.jobs (λ k stays n. stays (ground arith)) (update-miss (has_id j.id) _ s.jobs)),
    )

-- `NextTranscode` claims a job exactly if one may be claimed: if it returns none, the tables are
-- unchanged and no job is pending with attempts left and a disc; if it returns a claim, it is of
-- a job that was so and that no other such job comes before, by the time of queueing and then the
-- title; the job is then running with one attempt more, and every other row is as it was.
pub next_transcode_claims :
    (s : Store) (max now : ℕ)
    → ((next_transcode s max now).0 ≡ none
        → ((next_transcode s max now).1 ≡ s) × All (λ k. claimable s max k ≡ false) s.jobs)
      × ((c : Claim)
          → (next_transcode s max now).0 ≡ some c
          → (j : Job) × IsNext s max j
            × (c.id ≡ j.id)
            × (c.attempt ≡ j.attempt + 1)
            × All (IsClaimedAs c) (next_transcode s max now).1.jobs
            × All (λ k. k.id ≢ c.id → In k (next_transcode s max now).1.jobs) s.jobs)
next_transcode_claims s max now = (next_transcode-none s max now, claims)
  where
    claims :
        (c : Claim)
        → (next_transcode s max now).0 ≡ some c
        → (j : Job) × IsNext s max j
          × (c.id ≡ j.id)
          × (c.attempt ≡ j.attempt + 1)
          × All (IsClaimedAs c) (next_transcode s max now).1.jobs
          × All (λ k. k.id ≢ c.id → In k (next_transcode s max now).1.jobs) s.jobs
    claims c h =
        let (j, first, e) =
          next_transcode-some s max now {s' = (next_transcode s max now).1}
            (λ i. (h i, (next_transcode s max now).1)) in
        let (id, attempt, hits, others) = claim-rows s now j e in
        (j, first, id, attempt, hits, others)

claimable-pending : (s : Store) (max : ℕ) (j : Job) → claimable s max j ≡ true → j.state ≡ pending
unfolding claimable
claimable-pending s max j h = ground arith

-- Two runners never hold the same job: a claim made from the tables that another claim left is of
-- a different job.
claims_differ :
    (s s' s'' : Store) (max now later : ℕ) (c c' : Claim)
    → next_transcode s max now ≡ (some c, s')
    → next_transcode s' max later ≡ (some c', s'')
    → c'.id ≢ c.id
claims_differ s s' s'' max now later c c' h h' same =
    let (j, first, e) = next_transcode-some s max now h in
    let (j', first', e') = next_transcode-some s' max later h' in
    let (id, attempt, hits, others) = claim-rows s now j e in
    let (id', attempt', hits', others') = claim-rows s' later j' e' in
    let (is_running, counted) = In-All (IsClaimedAs c) j' s'.jobs first'.0 hits (sym id' ∙ same) in
    absurd (cc (is_running, claimable-pending s' max j' first'.1))
