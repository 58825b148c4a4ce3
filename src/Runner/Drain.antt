-- ===== src/Runner/Drain.antt =====
-- internal/daemon/transcode.go: that the inner loop of the runner ends with nothing left to encode.
use hellbox.Base.{
  ℕ, ◌≤◌, ◌<◌, ◌≡◌, refl, sym, ap, subst, ◌∙◌, Bool, true, false, not, ◌&&◌, ◌||◌, List, [], ◌∷◌,
  Option, none, some, arith, inl, inr, ◌⊎◌, Bool-cases, filter, length, All, In, Text, Unicode,
  if◌then◌else◌, ==_iff,
}
use hellbox.Catalog.{Catalog}
use hellbox.Transcodes.{
  Job, Store, Claim, update_where, has_id, claimable, claim, next_transcode, fail_transcode,
  finish_transcode, record_library_link,
}
use hellbox.Transcodes.Claims.{next_transcode-some, next_transcode-none}
use hellbox.Library.Naming.{Placement, Linked, linked, already_there, link_failed}
use hellbox.Runner.{
  disc_rows, drain_next, shut_down, unreadable, Settings, Daemon, Paths, Disk, Moment, Encoded,
  store_of, with_store, record_link, after_link, file_at_placement, file_title, settle,
  transcode_one, Outcome, drained, drain, max_transcode_attempts, begun, clear_current, encode,
}

-- An update that makes no row pass a test leaves at most as many that do, and fewer if it hits one.
update_fewer :
    (p test : Job → Bool) (change : Job → Job) (js : List Job)
    → ((j : Job) → p (change j) ≡ false)
    → length (filter p (update_where test change js)) ≤ length (filter p js)
unfolding update_where
update_fewer p test change [] h = omega arith
update_fewer p test change (j ∷ js) h = ground (arith, h j, update_fewer p test change js h)

update_less :
    (p test : Job → Bool) (change : Job → Job) (j : Job) (js : List Job)
    → ((k : Job) → p (change k) ≡ false)
    → In j js
    → p j ≡ true
    → test j ≡ true
    → length (filter p (update_where test change js)) < length (filter p js)
unfolding update_where
update_less p test change j [] h i passes hit = absurd i
update_less p test change j (k ∷ js) h (inl same) passes hit =
    let t : test k ≡ true = ap test (sym same) ∙ hit in
    let q : p k ≡ true = ap p (sym same) ∙ passes in
    rw (t, q, h k) (omega (arith, update_fewer p test change js h))
update_less p test change j (k ∷ js) h (inr i) passes hit =
    ground (arith, h k, update_less p test change j js h i passes hit)

-- How many jobs can be claimed.
abbrev pub waiting : Store → ℕ
waiting s = length (filter (claimable s max_transcode_attempts) s.jobs)

claimed_less :
    (s : Store) (now : ℕ) (j : Job)
    → In j s.jobs
    → claimable s max_transcode_attempts j ≡ true
    → (length (filter (claimable s max_transcode_attempts) ((claim s now j).1).jobs) < waiting s)
      × (((claim s now j).1).discs ≡ s.discs)
unfolding claim claimable
claimed_less s now j i t = (
  update_less (claimable s max_transcode_attempts) (has_id j.id) _ j s.jobs (λ k. refl) i t
      ((==_iff j.id j.id).1 refl),
  refl,
)

-- A claim leaves fewer jobs that can be claimed.
claim_less :
    (s : Store) (now : ℕ) {c : Claim} {s' : Store}
    → next_transcode s max_transcode_attempts now ≡ (some c, s')
    → (length (filter (claimable s max_transcode_attempts) s'.jobs) < waiting s)
      × (s'.discs ≡ s.discs)
claim_less s now e =
    let (j, (i, t, first), same) = next_transcode-some s max_transcode_attempts now e in
    subst
      (λ x.
        (length (filter (claimable s max_transcode_attempts) x.jobs) < waiting s)
        × (x.discs ≡ s.discs))
      (ap (λ p. p.1) same) (claimed_less s now j i t)

-- Filing changes neither the jobs nor the catalog.
abbrev pub Kept : Daemon → Daemon → Type 0
Kept d e = (e.jobs ≡ d.jobs) × (e.catalog ≡ d.catalog)

record_link-Kept :
    (k : Disk) (d : Daemon) (disc i : ℕ) (path : Text) → Kept d (record_link k d disc i path)
unfolding record_link record_library_link
record_link-Kept k d disc i path = ground arith

after_link-Kept :
    (k : Disk) (d : Daemon) (disc i : ℕ) (path : Text) (l : Linked)
    → Kept d (after_link k d disc i path l)
unfolding after_link
after_link-Kept k d disc i path (linked fs) =
    record_link-Kept k (record d { files = fs }) disc i path
after_link-Kept k d disc i path already_there = record_link-Kept k d disc i path
after_link-Kept k d disc i path (link_failed e) = (refl, refl)

placed-Kept :
    (cfg : Settings) (paths : Paths) (k : Disk) (d : Daemon) (disc i : ℕ) (source : Text)
    (o : Option Placement)
    → Kept d (file_at_placement cfg paths k d disc i source o)
unfolding file_at_placement
placed-Kept cfg paths k d disc i source none = (refl, refl)
placed-Kept cfg paths k d disc i source (some p) = after_link-Kept k d disc i _ _

pub file_title-Kept :
    (u : Unicode) (cfg : Settings) (paths : Paths) (k : Disk) (d : Daemon) (disc i : ℕ)
    (source : Text)
    → Kept d (file_title u cfg paths k d disc i source)
unfolding file_title
file_title-Kept u cfg paths k d disc i source = elim (Bool-cases cfg.file_to_library) [
  | inl e ↦ rw e (placed-Kept cfg paths k d disc i source _)
  | inr e ↦ rw e (refl, refl)
]

-- How many jobs can be claimed from the daemon's tables.
abbrev pub left : Daemon → ℕ
left d = waiting (store_of d)

-- The same, of the catalog and the jobs that it depends on.
abbrev open_jobs : Catalog → List Job → ℕ
open_jobs c js = length (
    filter
      (claimable (record { discs = disc_rows c.discs; jobs = js; links = [] })
        max_transcode_attempts)
      js)

left_open : (d : Daemon) → left d ≡ open_jobs d.catalog d.jobs
unfolding claimable
left_open d = refl

Kept-left : (d e : Daemon) → Kept d e → left e ≡ left d
Kept-left d e (jobs, catalog) =
    left_open e ∙ (λ i. open_jobs (catalog i) (jobs i)) ∙ sym (left_open d)

failed_left :
    (d : Daemon) (id : ℕ) (reason : Text) (now : ℕ)
    → left (with_store d (fail_transcode (store_of d) id reason now)) ≤ left d
unfolding fail_transcode claimable
failed_left d id reason now =
    update_fewer (claimable (store_of d) max_transcode_attempts) (has_id id) _ d.jobs (λ k. refl)

finished_left :
    (d : Daemon) (id : ℕ) (path : Text) (size : ℕ) (hardware : Bool) (now : ℕ)
    → left (with_store d (finish_transcode (store_of d) id path size hardware now)) ≤ left d
unfolding finish_transcode claimable
finished_left d id path size hardware now =
    update_fewer (claimable (store_of d) max_transcode_attempts) (has_id id) _ d.jobs (λ k. refl)

either_left : (b : Bool) (d e : Daemon) → left e ≤ left d → left (if b then d else e) ≤ left d
either_left true d e h = omega arith
either_left false d e h = h

settle_left :
    (u : Unicode) (cfg : Settings) (paths : Paths) (m : Moment) (d : Daemon) (c : Claim)
    (res : Text ⊎ Encoded)
    → left (settle u cfg paths m d c false res) ≤ left d
unfolding settle
settle_left u cfg paths m d c (inl e) = either_left m.fail_fails d _ (failed_left d c.id e m.now)
settle_left u cfg paths m d c (inr r) =
    let done =
      with_store d (finish_transcode (store_of d) c.id r.path r.size_bytes r.hardware m.now) in
    let finished = if m.finish_fails then d else done in
    omega (
      arith,
      either_left m.finish_fails d done (finished_left d c.id r.path r.size_bytes r.hardware m.now),
      Kept-left finished (file_title u cfg paths m.disk finished c.disc_id c.title_index r.path)
          (file_title-Kept u cfg paths m.disk finished c.disc_id c.title_index r.path),
    )

settled_left :
    (u : Unicode) (cfg : Settings) (paths : Paths) (m : Moment) (d : Daemon) (c : Claim) (b : Bool)
    (res : Text ⊎ Encoded)
    → b ≡ false
    → left (settle u cfg paths m d c b res) ≤ left d
settled_left u cfg paths m d c true res e = absurd (cc)
settled_left u cfg paths m d c false res e = settle_left u cfg paths m d c res

-- An encode that is not cancelled leaves no more jobs to claim than there were after its claim.
one_left :
    (u : Unicode) (cfg : Settings) (paths : Paths) (m : Moment) (d : Daemon) (c : Claim)
    → (m.cancelled || m.stopped) ≡ false
    → left (transcode_one u cfg paths m d c) ≤ left d
unfolding transcode_one clear_current
one_left u cfg paths m d c quiet = omega (
  arith,
  settled_left u cfg paths m (record (begun m d c) { files = m.writes d.files }) c
      (m.cancelled || m.stopped) (encode cfg paths m d c) quiet,
)

-- A round in which the queue can be read and neither the encode is cancelled nor the daemon stopped.
abbrev pub is_quiet : Moment → Bool
is_quiet m =
    not m.queue_fails && not (m.cancelled || m.stopped) && not (m.stopped || m.stopped_after)

abbrev pub all_quiet : List Moment → Bool
all_quiet [] = true
all_quiet (m ∷ ms) = is_quiet m && all_quiet ms

abbrev Drained : Outcome × Daemon → Type 0
Drained x =
    (x.0 ≡ drained) × All (λ j. claimable (store_of x.1) max_transcode_attempts j ≡ false) x.1.jobs

claimed_left :
    (d : Daemon) (now : ℕ) {c : Claim} {s : Store}
    → next_transcode (store_of d) max_transcode_attempts now ≡ (some c, s)
    → left (with_store d s) < left d
unfolding claimable
claimed_left d now e = (claim_less (store_of d) now e).0

next_Drained :
    (u : Unicode) (cfg : Settings) (paths : Paths) (m : Moment) (d : Daemon)
    (r : Option Claim × Store) (rest : Daemon → Outcome × Daemon)
    → next_transcode (store_of d) max_transcode_attempts m.now ≡ r
    → is_quiet m ≡ true
    → ((e : Daemon) → left e < left d → Drained (rest e))
    → Drained (drain_next u cfg paths m d r rest)
unfolding drain_next
next_Drained u cfg paths m d (none, s) rest e quiet later =
    (refl, (next_transcode-none (store_of d) max_transcode_attempts m.now (ap (λ p. p.0) e)).1)
next_Drained u cfg paths m d (some c, s) rest e quiet later =
    let on : (m.stopped || m.stopped_after) ≡ false = ground arith in
    let run : (m.cancelled || m.stopped) ≡ false = ground arith in
    let after = transcode_one u cfg paths m (with_store d s) c in
    subst Drained (ap (λ b. if b then (shut_down, after) else rest after) (sym on)) (
      later after
        (omega (arith, one_left u cfg paths m (with_store d s) c run, claimed_left d m.now e)))

-- The queue drains: if the rounds given are more than the jobs that can be claimed, none of them is
-- cancelled or stopped and the queue can be read in each, then the loop ends with an empty queue, and
-- no job is left that can be claimed.
pub drain_ends :
    (u : Unicode) (cfg : Settings) (paths : Paths) (ms : List Moment) (d : Daemon)
    → all_quiet ms ≡ true
    → left d < length ms
    → ((drain u cfg paths ms d).0 ≡ drained)
      × All
          (λ j. claimable (store_of (drain u cfg paths ms d).1) max_transcode_attempts j ≡ false)
          (drain u cfg paths ms d).1.jobs
unfolding drain
drain_ends u cfg paths [] d quiet few = absurd (omega arith)
drain_ends u cfg paths (m ∷ ms) d quiet few =
    let readable : m.queue_fails ≡ false = ground arith in
    let later : all_quiet ms ≡ true = ground arith in
    let found = next_transcode (store_of d) max_transcode_attempts m.now in
    let rest : Daemon → Outcome × Daemon = λ e. drain u cfg paths ms e in
    subst Drained
      (ap (λ b. if b then (unreadable, d) else drain_next u cfg paths m d found rest)
        (sym readable))
      (next_Drained u cfg paths m d found rest refl (ground arith)
        (λ e less. drain_ends u cfg paths ms e later (omega arith)))
