-- ===== src/Worker/Handle/Attempts.antt =====
-- internal/daemon/worker.go: the bound on attempts.
use hellbox.Base.{
  inl, inr, true, length, Option, none, some, subst, codes, ℕ, ◌≤◌, ◌≡◌, refl, ◌∙◌, sym, ap, false,
  arith, Text, get_or, [], ◌∷◌, ==_iff, ◌==◌, Bool-cases,
}
use hellbox.Catalog.{
  Problem, Disc, DiscRow, Catalog, attempts_used, in_step, find_disc, save_disc, attempts_for_disc,
}
use hellbox.Catalog.Rows.{Known, save_disc-id, save_disc-jobs, save_disc-attempts}
use hellbox.Worker.Status.{DriveState, scanning, Status, set_state, code_of}
use hellbox.Worker.World.{
  World, Worker, ScanResult, ok, published, find_call, save_call, attempts_call, to_state, emit,
}
use hellbox.Worker.Scan.{scan_with_retry}
use hellbox.Worker.Handle.{
  fail, attempts_had, open_job, save_or_fail, after_find, look_up_or_fail, identify, after_scan,
  handle_dvd, already_ripped, with_attempt, with_error,
}

state_of : ℕ → DriveState
state_of n =
    get_or
      (DriveState.absent ∷ DriveState.empty ∷ DriveState.tray_open ∷ DriveState.loading
        ∷ DriveState.incompatible ∷ DriveState.queued ∷ DriveState.scanning ∷ DriveState.decrypting
        ∷ DriveState.ripping ∷ DriveState.verifying ∷ DriveState.complete ∷ DriveState.duplicate
        ∷ DriveState.failed ∷ DriveState.cancelled ∷ [])
      n DriveState.ejecting

state_of-code_of : (s : DriveState) → state_of (code_of s) ≡ s
unfolding state_of
state_of-code_of DriveState.absent = refl
state_of-code_of DriveState.empty = refl
state_of-code_of DriveState.tray_open = refl
state_of-code_of DriveState.loading = refl
state_of-code_of DriveState.incompatible = refl
state_of-code_of DriveState.queued = refl
state_of-code_of DriveState.scanning = refl
state_of-code_of DriveState.decrypting = refl
state_of-code_of DriveState.ripping = refl
state_of-code_of DriveState.verifying = refl
state_of-code_of DriveState.complete = refl
state_of-code_of DriveState.duplicate = refl
state_of-code_of DriveState.failed = refl
state_of-code_of DriveState.cancelled = refl
state_of-code_of DriveState.ejecting = refl

code_of_inj : (s t : DriveState) → code_of s ≡ code_of t → s ≡ t
code_of_inj s t h = sym (state_of-code_of s) ∙ ap state_of h ∙ state_of-code_of t

-- Whatever the state was, it is the one that is set.
set_state-state : (s : Status) (to : DriveState) (now : ℕ) → (set_state s to now).state ≡ to
unfolding set_state
set_state-state s to now = elim (Bool-cases (code_of s.state == code_of to)) [
  | inl e ↦ rw e (code_of_inj s.state to ((==_iff (code_of s.state) (code_of to)).0 e))
  | inr e ↦ rw e (ground arith)
]

pub fail-failed :
    (env : World) (w : Worker) (p : Problem)
    → env.config.eject_on_failure ≡ false
    → ((fail env w p).status.state ≡ DriveState.failed)
      × ((fail env w p).effects ≡ w.effects)
      × ((fail env w p).catalog ≡ w.catalog)
unfolding fail to_state
fail-failed env w p h =
    let shown = set_state-state (with_error w p).status DriveState.failed env.clock in
    ground (arith, shown)

-- What a refusal is: the drive shows that it failed, no job is opened, and the outside is as it was.
abbrev IsRefused : Worker → Worker → Type 0
IsRefused w w' =
    (w'.status.state ≡ DriveState.failed)
    × (w'.effects ≡ w.effects)
    × (w'.catalog.jobs ≡ w.catalog.jobs)

fail-IsRefused :
    (env : World) (w : Worker) (p : Problem)
    → env.config.eject_on_failure ≡ false
    → IsRefused w (fail env w p)
fail-IsRefused env w p h =
    let (state, effects, catalog) = fail-failed env w p h in
    (state, effects, ap (λ (c : Catalog). c.jobs) catalog)

-- A disc that has had its attempts, as they are counted from the table of jobs.
abbrev pub IsExhausted : World → ℕ → Catalog → Type 0
IsExhausted env id c = env.config.max_rip_attempts ≤ attempts_for_disc c id

module _ (env : World) (shut : env.config.eject_on_failure ≡ false)
    (counted : env.sql_error attempts_call ≡ none) where
  open_job-IsRefused :
      (w : Worker) (id : ℕ) (d : Disc) (raw : Text)
      → IsExhausted env id w.catalog
      → IsRefused w (open_job env w id d raw)
  unfolding open_job attempts_had
  open_job-IsRefused w id d raw full =
      let n = attempts_had env w id in
      let refused = fail-IsRefused env (with_attempt w n) (attempts_used n) shut in
      ground (arith, counted, refused)

  save-IsRefused :
      (w : Worker) (id : ℕ) (d : Disc) (raw : Text) (o : Option Problem)
      → Known d.fingerprint id w.catalog.discs
      → IsExhausted env id w.catalog
      → IsRefused w (save_or_fail env w d raw o)
  unfolding save_or_fail
  save-IsRefused w id d raw (some e) k full =
      fail-IsRefused env w (in_step (codes "could not record disc") e) shut
  save-IsRefused w id d raw none k full =
      let (disc, tables) = save_disc w.catalog d raw env.clock in
      let same = save_disc-id w.catalog d raw env.clock id k in
      let count = save_disc-attempts w.catalog d raw env.clock id id k in
      let saved : IsExhausted env disc tables =
        subst (λ n. IsExhausted env n tables) (sym same) (rw count full) in
      let (state, effects, jobs) =
        open_job-IsRefused (record w { catalog = tables }) disc d raw saved in
      (state, effects, jobs ∙ save_disc-jobs w.catalog d raw env.clock)

  found-IsRefused :
      (w : Worker) (id : ℕ) (d : Disc) (raw : Text) (o : Option DiscRow)
      → already_ripped o ≡ false
      → Known d.fingerprint id w.catalog.discs
      → IsExhausted env id w.catalog
      → IsRefused w (after_find env w d raw o)
  unfolding after_find already_ripped
  found-IsRefused w id d raw none h k full =
      save-IsRefused w id d raw (env.sql_error save_call) k full
  found-IsRefused w id d raw (some r) h k full =
      rw h (save-IsRefused w id d raw (env.sql_error save_call) k full)

  look_up-IsRefused :
      (w : Worker) (id : ℕ) (d : Disc) (raw : Text) (o : Option Problem)
      → already_ripped (find_disc w.catalog d.fingerprint) ≡ false
      → Known d.fingerprint id w.catalog.discs
      → IsExhausted env id w.catalog
      → IsRefused w (look_up_or_fail env w d raw o)
  unfolding look_up_or_fail
  look_up-IsRefused w id d raw (some e) h k full =
      fail-IsRefused env w (in_step (codes "could not check for a previous rip") e) shut
  look_up-IsRefused w id d raw none h k full =
      found-IsRefused w id d raw (find_disc w.catalog d.fingerprint) h k full

  -- A disc that has had its attempts is refused. If the scan reads a disc that is known and not ripped, and
  -- the catalog, before the disc is handled, counts the configured number of attempts or more for it,
  -- then handling it leaves the table of jobs as it was and the drive in the state failed, and does
  -- nothing to the outside but to publish what was scanned: nothing is ripped, and the tray
  -- stays shut. The tray is not to be opened on a failure, and SQLite must be able to count the
  -- attempts; what else it refuses changes nothing.
  pub exhausted_is_refused :
      (w : Worker) (id : ℕ) (s : ScanResult)
      → scan_with_retry env ≡ some (ok s)
      → Known s.disc.fingerprint id w.catalog.discs
      → already_ripped (find_disc w.catalog s.disc.fingerprint) ≡ false
      → IsExhausted env id w.catalog
      → ((handle_dvd env w).status.state ≡ DriveState.failed)
        × ((handle_dvd env w).effects ≡ published (codes "enumerated") s.disc.titles [] ∷ w.effects)
        × ((handle_dvd env w).catalog.jobs ≡ w.catalog.jobs)
  unfolding handle_dvd after_scan identify to_state
  exhausted_is_refused w id s scanned k unripped full =
      let started = record (to_state env w scanning) { cancellable = true } in
      let shown = record started {
        status = record started.status {
          disc_label = s.disc.volume_label;
          fingerprint = s.disc.fingerprint;
          title_count = length s.disc.titles;
        };
      } in
      let told = emit shown (published (codes "enumerated") s.disc.titles []) in
      let refused =
        look_up-IsRefused told id s.disc s.raw (env.sql_error find_call) unripped k full in
      rw (scanned, handle_dvd) refused
