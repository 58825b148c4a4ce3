-- ===== src/Worker/Handle/Cancelled.antt =====
-- internal/daemon/worker.go: what a cancellation during a title looks like.
use hellbox.Base.{
  ℕ, ◌+◌, ◌≡◌, refl, ◌∙◌, sym, ap, true, false, List, [], ◌∷◌, ◌++◌, none, some, arith, Text,
  length,
}
use hellbox.Catalog.{Problem, Disc, Title, cancelled_during}
use hellbox.Worker.Status.{DriveState}
use hellbox.Worker.World.{World, Worker, Result, and_then, ok, err, emit, described}
use hellbox.Worker.Scan.{is_cancellation}
use hellbox.Worker.Source.{decrypt_needed, make_rip_dir, rip_source, device}
use hellbox.Worker.Rip.{
  rip, rip_into, rip_source_from, reread, rip_from, record_rip, begun, broken_off, recorded,
  verified, rip_title, rip_titles, Step, then_do,
}
use hellbox.Worker.Rip.Done.{IsWritten, AllWritten}
use hellbox.Worker.Handle.{finish, run_job}
use hellbox.Worker.Handle.Attempts.{fail-failed}

verified-passes :
    (env : World) (w : Worker) (job disc total i : ℕ) (t : Title) (h : IsWritten env i t)
    → (verified env w job disc total i t (env.title i t) h.out).0 ≡ none
unfolding verified recorded
verified-passes env w job disc total i t h = ground (arith, h.verified, h.full_length, h.marked)

rip_title-passes :
    (env : World) (w : Worker) (job disc total i : ℕ) (t : Title)
    → IsWritten env i t
    → (rip_title env w job disc total i t).0 ≡ none
unfolding rip_title
rip_title-passes env w job disc total i t h =
    rw (h.ripped, rip_title) (verified-passes env _ job disc total i t h)

rip_title-stopped :
    (env : World) (w : Worker) (job disc total i : ℕ) (t : Title) (e : Problem)
    → (env.title i t).result ≡ err e
    → (env.title i t).is_stopped ≡ true
    → (rip_title env w job disc total i t).0 ≡ some (cancelled_during t.index)
unfolding rip_title broken_off
rip_title-stopped env w job disc total i t e failed stopped = rw (failed, stopped, rip_title) refl

then_do-goes_on : (s : Step) (f : Worker → Step) → s.0 ≡ none → then_do s f ≡ f s.1
then_do-goes_on (none, w) f h = refl
then_do-goes_on (some e, w) f h = absurd (cc)

then_do-ends :
    (s : Step) (f : Worker → Step) (e : Problem) → s.0 ≡ some e → (then_do s f).0 ≡ some e
then_do-ends (none, w) f e h = absurd (cc)
then_do-ends (some x, w) f e h = h

rip_titles-stopped :
    (env : World) (w : Worker) (job disc total i k : ℕ) (before after : List Title) (t : Title)
    (e : Problem)
    → k ≡ i + length before
    → AllWritten env i before
    → (env.title k t).result ≡ err e
    → (env.title k t).is_stopped ≡ true
    → (rip_titles env w job disc total i (before ++ (t ∷ after))).0
      ≡ some (cancelled_during t.index)
unfolding rip_titles AllWritten
rip_titles-stopped env w job disc total i k [] after t e at h failed stopped =
    let here : k ≡ i = omega arith in
    then_do-ends (rip_title env w job disc total i t) _ (cancelled_during t.index) (
      rip_title-stopped env w job disc total i t e
        (ap (λ n. (env.title n t).result) (sym here) ∙ failed)
        (ap (λ n. (env.title n t).is_stopped) (sym here) ∙ stopped))
rip_titles-stopped env w job disc total i k (b ∷ bs) after t e at h failed stopped =
    let first = rip_title env w job disc total i b in
    ap (λ (s : Step). s.0)
      (then_do-goes_on first (λ w'. rip_titles env w' job disc total (i + 1) (bs ++ (t ∷ after)))
        (rip_title-passes env w job disc total i b h.0))
    ∙ rip_titles-stopped env first.1 job disc total (i + 1) k bs after t e (omega arith) h.1 failed
        stopped

-- A rip of a disc that the drive can read comes to its titles.
pub record ReachesTitles (env : World) (d : Disc) : Type 0 where
  pub dir : Text
  pub makes_dir : make_rip_dir env d ≡ ok dir
  pub logs : env.log_error ≡ none
  pub reads : decrypt_needed env ≡ false
  pub describes : env.disc_json_error ≡ none
  pub informs : env.info_error ≡ none

record_rip-err :
    (env : World) (disc : ℕ) (d : Disc) (dir : Text) (s : Step) (e : Problem)
    → s.0 ≡ some e
    → (record_rip env disc d dir device s).0 ≡ err e
unfolding record_rip
record_rip-err env disc d dir (none, w) e h = absurd (cc)
record_rip-err env disc d dir (some x, w) e h = ground arith

rip_from-reaches :
    (env : World) (job id : ℕ) (d : Disc) (dir : Text) (w : Worker)
    → env.disc_json_error ≡ none
    → env.info_error ≡ none
    → rip_from env job id dir device d w
      ≡ record_rip env id d dir device (
          rip_titles env
            (begun env (emit w (described d.titles)) job d.titles)
            job
            id
            (length d.titles)
            0
            d.titles)
unfolding rip_from
rip_from-reaches env job id d dir w h k = ground (arith, h, k)

rip_source-device :
    (env : World) (w : Worker) → decrypt_needed env ≡ false → rip_source env w ≡ (ok device, w)
unfolding rip_source
rip_source-device env w h = ground (arith, h)

logged :
    (env : World) (w : Worker) (job id : ℕ) (d : Disc) (raw dir : Text)
    → env.log_error ≡ none
    → rip_into env w job id d raw (ok dir)
      ≡ and_then
          (rip_source env (record w { status = record w.status { rip_dir = dir } }))
          (rip_source_from env job id d raw dir)
unfolding rip_into
logged env w job id d raw dir h = ground (arith, h)

rip-reaches :
    (env : World) (w : Worker) (job id : ℕ) (d : Disc) (raw : Text) (r : ReachesTitles env d)
    → rip env w job id d raw
      ≡ rip_from env job id r.dir device d
          (record w { status = record w.status { rip_dir = r.dir } })
unfolding rip rip_source_from reread
rip-reaches env w job id d raw r =
    let w' = record w { status = record w.status { rip_dir = r.dir } } in
    ap (rip_into env w job id d raw) r.makes_dir
    ∙ logged env w job id d raw r.dir r.logs
    ∙ ap (λ s. and_then s (rip_source_from env job id d raw r.dir))
        (rip_source-device env w' r.reads)

rip-stopped :
    (env : World) (w : Worker) (job id : ℕ) (d : Disc) (raw : Text) (before after : List Title)
    (t : Title) (e : Problem)
    → ReachesTitles env d
    → d.titles ≡ before ++ (t ∷ after)
    → AllWritten env 0 before
    → (env.title (length before) t).result ≡ err e
    → (env.title (length before) t).is_stopped ≡ true
    → (rip env w job id d raw).0 ≡ err (cancelled_during t.index)
rip-stopped env w job id d raw before after t e r titles h failed stopped =
    let w' = record w { status = record w.status { rip_dir = r.dir } } in
    let v = begun env (emit w' (described d.titles)) job d.titles in
    let n = length d.titles in
    ap (λ (z : Result Disc × Worker). z.0)
      (rip-reaches env w job id d raw r
        ∙ rip_from-reaches env job id d r.dir w' r.describes r.informs)
    ∙ record_rip-err env id d r.dir (rip_titles env v job id n 0 d.titles)
        (cancelled_during t.index)
        (ap (λ ts. (rip_titles env v job id n 0 ts).0) titles
          ∙ rip_titles-stopped env v job id n 0 (length before) before after t e (omega arith) h
              failed stopped)

finish-cancelled_during :
    (env : World) (w : Worker) (job id i : ℕ) (d : Disc)
    → env.config.eject_on_failure ≡ false
    → (finish env w job id d (err (cancelled_during i))).status.state ≡ DriveState.failed
unfolding finish is_cancellation
finish-cancelled_during env w job id i d shut = (fail-failed env _ (cancelled_during i) shut).0

-- A cancellation during a title is shown as a failure. If the rip of a disc that the drive can read has
-- come to a title, all before it being written, and the rip of this title breaks off after the work was
-- cancelled, then the drive is left in the state failed, not cancelled, even though the tray is not
-- to be opened on a failure.
pub cancelled_title_fails :
    (env : World) (w : Worker) (job id : ℕ) (d : Disc) (raw : Text) (before after : List Title)
    (t : Title) (e : Problem)
    → env.config.eject_on_failure ≡ false
    → ReachesTitles env d
    → d.titles ≡ before ++ (t ∷ after)
    → AllWritten env 0 before
    → (env.title (length before) t).result ≡ err e
    → (env.title (length before) t).is_stopped ≡ true
    → (run_job env w job id d raw).status.state ≡ DriveState.failed
unfolding run_job
cancelled_title_fails env w job id d raw before after t e shut r titles h failed stopped =
    let rest = (rip env w job id d raw).1 in
    ap (λ x. (finish env rest job id d x).status.state)
      (rip-stopped env w job id d raw before after t e r titles h failed stopped)
    ∙ finish-cancelled_during env rest job id t.index d shut
