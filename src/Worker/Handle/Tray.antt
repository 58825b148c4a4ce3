-- ===== src/Worker/Handle/Tray.antt =====
-- internal/daemon/worker.go: when `handleDisc` opens the tray.
use hellbox.Base.{
  inl, inr, ℕ, ◌≡◌, ◌⊎◌, refl, ◌∙◌, sym, ap, Bool, true, false, Option, none, some, arith,
  if◌then◌else◌, subst, Text, Bool-cases, leb, codes,
}
use hellbox.Catalog.{
  Problem, Disc, DiscRow, Catalog, is_ripped, find_disc, find_row, save_disc, create_job,
  set_job_state, attempts_used, in_step, JobState,
}
use hellbox.Catalog.Rows.{Known, Ripped, save_disc_keeps}
use hellbox.Worker.World.{
  World, Worker, Result, ok, err, ScanResult, Result-cases, after_sql, run_sql, to_state, find_call,
  save_call, create_call, complete_call, failed_call,
}
use hellbox.Worker.Scan.{scan_with_retry}
use hellbox.Worker.Rip.{rip}
use hellbox.Worker.Rip.Trays.{trays, rip-trays}
use hellbox.Worker.Rip.Whole.{NamesAreSet, rip-Ripped}
use hellbox.Worker.Handle.{
  eject_now, fail, finish, run_job, with_attempt, attempts_had, save_or_fail, after_find,
  look_up_or_fail, already_ripped, open_created, open_job, greet_duplicate, identify, scan_failed,
  after_scan, handle_dvd,
}

fail-trays :
    (env : World) (w : Worker) (p : Problem)
    → env.config.eject_on_failure ≡ false
    → trays (fail env w p).effects ≡ trays w.effects
unfolding fail to_state
fail-trays env w p h = ground arith

eject_now-catalog : (env : World) (w : Worker) → (eject_now env w).catalog ≡ w.catalog
unfolding eject_now to_state
eject_now-catalog env w = ground arith

-- The tray has not been opened, or the disc is recorded as ripped.
pub Honest : Text → Worker → Worker → Type 0
Honest fp w w' = (trays w'.effects ≡ trays w.effects) ⊎ Ripped fp w'.catalog.discs

after_sql-discs :
    (o : Option Problem) (w : Worker) (c : Catalog)
    → c.discs ≡ w.catalog.discs
    → (after_sql o w c).catalog.discs ≡ w.catalog.discs
after_sql-discs none w c h = h
after_sql-discs (some e) w c h = refl

finish-discs :
    (env : World) (w : Worker) (job id : ℕ) (d r : Disc)
    → (finish env w job id d (ok r)).catalog.discs ≡ w.catalog.discs
unfolding finish run_sql set_job_state to_state
finish-discs env w job id d r =
    ap (λ (c : Catalog). c.discs) (eject_now-catalog env _)
    ∙ after_sql-discs (env.sql_error complete_call) w
        (set_job_state w.catalog job JobState.complete none env.clock) refl

finish-ok :
    (env : World) (w : Worker) (job id : ℕ) (d r : Disc) (fp : Text)
    → Ripped fp w.catalog.discs
    → Ripped fp (finish env w job id d (ok r)).catalog.discs
finish-ok env w job id d r fp h = subst (Ripped fp) (sym (finish-discs env w job id d r)) h

finish-err :
    (env : World) (w : Worker) (job id : ℕ) (d : Disc) (e : Problem)
    → env.config.eject_on_failure ≡ false
    → trays (finish env w job id d (err e)).effects ≡ trays w.effects
unfolding finish run_sql to_state
finish-err env w job id d e h =
    let lost =
      run_sql env w failed_call (set_job_state w.catalog job JobState.failed (some e) env.clock) in
    ground (arith, fail-trays env lost e h)

if_Honest :
    (fp : Text) (w x y : Worker) (b : Bool)
    → Honest fp w x
    → Honest fp w y
    → Honest fp w (if b then x else y)
if_Honest fp w x y true h g = h
if_Honest fp w x y false h g = g

module _ (env : World) (names : NamesAreSet env) (shut : env.config.eject_on_failure ≡ false) where
  -- The result of a rip, told apart.
  run_job-Honest :
      (w : Worker) (job id : ℕ) (d : Disc) (raw : Text)
      → Known d.fingerprint id w.catalog.discs
      → Honest d.fingerprint w (run_job env w job id d raw)
  unfolding run_job Honest
  run_job-Honest w job id d raw k =
      let v = (rip env w job id d raw).1 in
      elim (Result-cases ((rip env w job id d raw).0)) [
        | inl (e, q) ↦ inl (
            ap (λ r. trays (finish env v job id d r).effects) q
            ∙ finish-err env v job id d e shut
            ∙ rip-trays env w job id d raw)
        | inr (d', q) ↦
            let filed = rip-Ripped env w job id d d' raw names k q in
            inr (
              subst (λ r. Ripped d.fingerprint (finish env v job id d r).catalog.discs) (sym q)
                (finish-ok env v job id d d' d.fingerprint filed))
      ]

  open_created-Honest :
      (o : Option Problem) (w : Worker) (id n : ℕ) (d : Disc) (raw : Text)
      → Known d.fingerprint id w.catalog.discs
      → Honest d.fingerprint w (open_created env w id d raw n o)
  unfolding open_created Honest create_job
  open_created-Honest (some e) w id n d raw k =
      inl (fail-trays env w (in_step (codes "could not open a job") e) shut)
  open_created-Honest none w id n d raw k = run_job-Honest _ _ id d raw k

  open_job-Honest :
      (w : Worker) (id : ℕ) (d : Disc) (raw : Text)
      → Known d.fingerprint id w.catalog.discs
      → Honest d.fingerprint w (open_job env w id d raw)
  unfolding open_job Honest
  open_job-Honest w id d raw k =
      let n = attempts_had env w id in
      let full = fail-trays env (with_attempt w n) (attempts_used n) shut in
      if_Honest d.fingerprint w (fail env (with_attempt w n) (attempts_used n)) _
        (leb env.config.max_rip_attempts n) (inl full)
        (open_created-Honest (env.sql_error create_call) w id n d raw k)

  save-Honest :
      (o : Option Problem) (w : Worker) (d : Disc) (raw : Text)
      → Honest d.fingerprint w (save_or_fail env w d raw o)
  unfolding save_or_fail Honest
  save-Honest (some e) w d raw = inl (fail-trays env w _ shut)
  save-Honest none w d raw =
      let (id, tables) = save_disc w.catalog d raw env.clock in
      open_job-Honest (record w { catalog = tables }) id d raw
        (save_disc_keeps w.catalog d raw env.clock).0

  greet-Honest :
      (w : Worker) (fp : Text) (known : DiscRow)
      → Ripped fp w.catalog.discs
      → Honest fp w (greet_duplicate env w known)
  unfolding greet_duplicate Honest to_state
  greet-Honest w fp known h =
      inr (subst (Ripped fp) (sym (ap (λ (c : Catalog). c.discs) (eject_now-catalog env _))) h)

  after_find-Honest :
      (w : Worker) (d : Disc) (raw : Text) (o : Option DiscRow)
      → find_row d.fingerprint w.catalog.discs ≡ o
      → Honest d.fingerprint w (after_find env w d raw o)
  unfolding after_find
  after_find-Honest w d raw none f = save-Honest (env.sql_error save_call) w d raw
  after_find-Honest w d raw (some known) f = elim (Bool-cases (is_ripped known)) [
    | inl e ↦ rw e (greet-Honest w d.fingerprint known (known, f, e))
    | inr e ↦ rw e (save-Honest (env.sql_error save_call) w d raw)
  ]

  look_up-Honest :
      (o : Option Problem) (w : Worker) (d : Disc) (raw : Text)
      → Honest d.fingerprint w (look_up_or_fail env w d raw o)
  unfolding look_up_or_fail find_disc Honest
  look_up-Honest (some e) w d raw = inl (fail-trays env w _ shut)
  look_up-Honest none w d raw =
      after_find-Honest w d raw (find_row d.fingerprint w.catalog.discs) refl

  scan_failed-trays :
      (w : Worker) (e : Problem) → trays (scan_failed env w e).effects ≡ trays w.effects
  unfolding scan_failed to_state
  scan_failed-trays w e = ground (arith, fail-trays env w (in_step (codes "scan failed") e) shut)

  after_scan-Honest :
      (w : Worker) (o : Option (Result ScanResult))
      → (trays (after_scan env w o).effects ≡ trays w.effects)
        ⊎ ((s : ScanResult) × (o ≡ some (ok s))
            × Ripped s.disc.fingerprint (after_scan env w o).catalog.discs)
  unfolding after_scan identify Honest
  after_scan-Honest w none = inl refl
  after_scan-Honest w (some (err e)) = inl (scan_failed-trays w e)
  after_scan-Honest w (some (ok s)) =
      elim (look_up-Honest (env.sql_error find_call) _ s.disc s.raw) [
        | inl same ↦ inl same
        | inr filed ↦ inr (s, refl, filed)
      ]

-- An open tray means that the disc is done. Where the tray is not to be opened on a failure and the
-- names of directories are not empty, a disc that is no Blu-ray is handled without opening the
-- tray, or its scan gave a disc that the tables now show as ripped.
pub opened_means_ripped :
    (env : World) (w : Worker)
    → NamesAreSet env
    → env.config.eject_on_failure ≡ false
    → (trays (handle_dvd env w).effects ≡ trays w.effects)
      ⊎ ((s : ScanResult) × (scan_with_retry env ≡ some (ok s))
          × (already_ripped (find_disc (handle_dvd env w).catalog s.disc.fingerprint) ≡ true))
unfolding handle_dvd to_state find_disc already_ripped
opened_means_ripped env w names shut =
    elim (after_scan-Honest env names shut _ (scan_with_retry env)) [
      | inl same ↦ inl same
      | inr (s, scanned, (row, found, filed)) ↦ inr (s, scanned, rw found filed)
    ]
