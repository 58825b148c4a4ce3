-- ===== src/Worker/Rip/Marks.antt =====
-- internal/daemon/worker.go: what a rip that succeeds has recorded of its titles.
use hellbox.Base.{
  inl, inr, ℕ, ◌+◌, ◌≡◌, refl, ◌∙◌, sym, ap, subst, true, List, [], ◌∷◌, none, some, arith, length,
  Text, All, All-map, Bool-cases, codes,
}
use hellbox.Catalog.{
  Disc, Title, TitleRow, mark_title_ripped, save_disc, set_rip_dir, set_job_state, set_job_progress,
}
use hellbox.Catalog.Rows.{Known}
use hellbox.Catalog.Marks.{
  HasRow, IsMarked, Grows, grow_refl, grow_trans, mark_title_ripped-IsMarked,
  mark_title_ripped-Grows, save_disc-HasRow,
}
use hellbox.Worker.Status.{set_progress, DriveState}
use hellbox.Worker.World.{
  World, Worker, Result, ok, err, ScanResult, RipResult, TitleRip, emit, described, resave_call,
  to_state, run_sql, Result-cases,
}
use hellbox.Worker.Source.{Source, device, folder, is_partial, mirrored, rip_source}
use hellbox.Worker.Rip.{
  Step, then_do, recorded, verified, broken_off, rip_title, rip_titles, begun, record_rip, rip_from,
  use_copy, after_rescan, reread,
}
use hellbox.Worker.Rip.Done.{ok_inj, then_do-none, rip_from-loop, loop_of}

-- Every title of a list has a row, of a disc.
unfoldable pub HaveRows : ℕ → List Title → List TitleRow → Type 0
HaveRows disc ts rows = All (λ (t : Title). HasRow disc t.index rows) ts

-- Every title of a list is marked, of a disc.
unfoldable pub AreMarked : ℕ → List Title → List TitleRow → Type 0
AreMarked disc ts rows = All (λ (t : Title). IsMarked disc t.index rows) ts

-- A title that is written leaves the table as `MarkTitleRipped` does.
abbrev MarkedBy : ℕ → ℕ → Worker → Worker → Type 0
MarkedBy disc index w w' =
    (size : ℕ) × (w'.catalog.titles ≡ (mark_title_ripped w.catalog disc index size true).titles)

recorded-MarkedBy :
    (env : World) (w : Worker) (job disc total i : ℕ) (t : Title) (r : TitleRip) (out : RipResult)
    → (recorded env w job disc total i t r out).0 ≡ none
    → (recorded env w job disc total i t r out).1.catalog.titles
      ≡ (mark_title_ripped w.catalog disc t.index out.size_bytes true).titles
unfolding recorded run_sql to_state mark_title_ripped set_job_progress
recorded-MarkedBy env w job disc total i t r out h = ground arith

verified-MarkedBy :
    (env : World) (w : Worker) (job disc total i : ℕ) (t : Title) (r : TitleRip) (out : RipResult)
    → (verified env w job disc total i t r out).0 ≡ none
    → (verified env w job disc total i t r out).1.catalog.titles
      ≡ (mark_title_ripped w.catalog disc t.index out.size_bytes true).titles
unfolding verified to_state mark_title_ripped
verified-MarkedBy env w job disc total i t r out h =
    ground
      (arith, recorded-MarkedBy env (to_state env w DriveState.verifying) job disc total i t r out)

rip_title-MarkedBy :
    (env : World) (w : Worker) (job disc total i : ℕ) (t : Title)
    → (rip_title env w job disc total i t).0 ≡ none
    → MarkedBy disc t.index w (rip_title env w job disc total i t).1
unfolding rip_title broken_off mark_title_ripped
rip_title-MarkedBy env w job disc total i t h = elim (Result-cases ((env.title i t).result)) [
  | inl (e, q) ↦ absurd (ground arith)
  | inr (out, q) ↦
      rw (q, rip_title)
        (
          out.size_bytes,
          verified-MarkedBy env
              (record w { status = set_progress w.status t.index 0 (codes "title") }) job disc total
              i t (env.title i t) out (rw (q, rip_title) at h),
        )
]

then_do-worker : (s : Step) (f : Worker → Step) → s.0 ≡ none → (then_do s f).1 ≡ (f s.1).1
then_do-worker (none, w) f h = refl
then_do-worker (some e, w) f h = absurd (cc)

rip_titles-AreMarked :
    (env : World) (w : Worker) (job disc total i : ℕ) (ts : List Title)
    → (rip_titles env w job disc total i ts).0 ≡ none
    → HaveRows disc ts w.catalog.titles
    → AreMarked disc ts (rip_titles env w job disc total i ts).1.catalog.titles
      × Grows w.catalog.titles (rip_titles env w job disc total i ts).1.catalog.titles
unfolding rip_titles HaveRows AreMarked
rip_titles-AreMarked env w job disc total i [] h rows = (tt, grow_refl w.catalog.titles)
rip_titles-AreMarked env w job disc total i (t ∷ ts) h rows =
    let s = rip_title env w job disc total i t in
    let next : Worker → Step = λ w'. rip_titles env w' job disc total (i + 1) ts in
    let (first, rest) = then_do-none s next h in
    let (size, now) = rip_title-MarkedBy env w job disc total i t first in
    let marked =
      subst (IsMarked disc t.index) (sym now)
        (mark_title_ripped-IsMarked w.catalog disc t.index size rows.0) in
    let grown =
      subst (Grows w.catalog.titles) (sym now)
        (mark_title_ripped-Grows w.catalog disc t.index size) in
    let (later, grows) =
      rip_titles-AreMarked env s.1 job disc total (i + 1) ts rest
        (All-map ts (λ u h. grown.rows disc u.index h) rows.1) in
    subst
      (λ (v : Worker).
        AreMarked disc (t ∷ ts) v.catalog.titles × Grows w.catalog.titles v.catalog.titles)
      (sym (then_do-worker s next first))
      ((grows.marks disc t.index marked, later), grow_trans grown grows)

begun-titles :
    (env : World) (w : Worker) (job : ℕ) (ts : List Title)
    → (begun env w job ts).catalog.titles ≡ w.catalog.titles
unfolding begun run_sql to_state set_job_state set_job_progress
begun-titles env w job ts = ground arith

pub rip_source-titles :
    (env : World) (w : Worker) → (rip_source env w).1.catalog.titles ≡ w.catalog.titles
unfolding rip_source mirrored to_state
rip_source-titles env w = ground arith

record_rip-titles :
    (env : World) (disc : ℕ) (d d' : Disc) (dir : Text) (src : Source) (s : Step)
    → (record_rip env disc d dir src s).0 ≡ ok d'
    → (s.0 ≡ none) × ((record_rip env disc d dir src s).1.catalog.titles ≡ s.1.catalog.titles)
unfolding record_rip set_rip_dir
record_rip-titles env disc d d' dir src (some e, w) h = absurd (cc)
record_rip-titles env disc d d' dir device (none, w) h = ground arith
record_rip-titles env disc d d' dir folder (none, w) h = ground arith

pub rip_from-AreMarked :
    (env : World) (job disc : ℕ) (dir : Text) (src : Source) (d d' : Disc) (w : Worker)
    → (rip_from env job disc dir src d w).0 ≡ ok d'
    → HaveRows disc d.titles w.catalog.titles
    → AreMarked disc d.titles (rip_from env job disc dir src d w).1.catalog.titles
rip_from-AreMarked env job disc dir src d d' w h rows =
    let same = rip_from-loop env job disc dir src d d' w h in
    let v = begun env (emit w (described d.titles)) job d.titles in
    let s = loop_of env job disc d w in
    let (over, kept) =
      record_rip-titles env disc d d' dir src s
        (sym (ap (λ (z : Result Disc × Worker). z.0) same) ∙ h) in
    let (marked, grows) = rip_titles-AreMarked env v job disc (length d.titles) 0 d.titles over (
      subst (HaveRows disc d.titles)
        (sym (begun-titles env (emit w (described d.titles)) job d.titles)) rows) in
    subst (λ (z : Result Disc × Worker). AreMarked disc d.titles z.1.catalog.titles) (sym same)
      (subst (AreMarked disc d.titles) (sym kept) marked)

unchanged-HaveRows :
    (w : Worker) (d : Disc) (raw : Text) (p : Disc × Text) (id : ℕ)
    → ◌≡◌ {A = Result (Disc × Text)} (ok (d, raw)) (ok p)
    → HaveRows id d.titles w.catalog.titles
    → HaveRows id p.0.titles w.catalog.titles
unchanged-HaveRows w d raw p id h rows =
    subst (λ (z : Disc × Text). HaveRows id z.0.titles w.catalog.titles) (ok_inj h) rows

use_copy-HaveRows :
    (env : World) (w : Worker) (d : Disc) (raw copy_raw : Text) (ts : List Title) (p : Disc × Text)
    (id : ℕ)
    → (use_copy env w d raw copy_raw ts).0 ≡ ok p
    → env.sql_error resave_call ≡ none
    → Known d.fingerprint id w.catalog.discs
    → HaveRows id d.titles w.catalog.titles
    → HaveRows id p.0.titles (use_copy env w d raw copy_raw ts).1.catalog.titles
unfolding use_copy run_sql HaveRows
use_copy-HaveRows env w d raw copy_raw [] p id h saved k rows =
    unchanged-HaveRows w d raw p id h rows
use_copy-HaveRows env w d raw copy_raw (t ∷ ts) p id h saved k rows =
    elim (Bool-cases (is_partial (t ∷ ts) d.titles)) [
      | inl e ↦ absurd (cc (rw e at h))
      | inr e ↦
          let same = ok_inj (rw e at h) in
          let copy : Disc = record d { titles = t ∷ ts } in
          rw (e, saved)
            (subst
              (λ (z : Disc × Text).
                HaveRows id z.0.titles (save_disc w.catalog copy copy_raw env.clock).1.titles)
              same (save_disc-HasRow w.catalog copy copy_raw env.clock id k))
    ]

after_rescan-HaveRows :
    (env : World) (w : Worker) (d : Disc) (raw : Text) (r : Result ScanResult) (p : Disc × Text)
    (id : ℕ)
    → (after_rescan env w d raw r).0 ≡ ok p
    → env.sql_error resave_call ≡ none
    → Known d.fingerprint id w.catalog.discs
    → HaveRows id d.titles w.catalog.titles
    → HaveRows id p.0.titles (after_rescan env w d raw r).1.catalog.titles
unfolding after_rescan
after_rescan-HaveRows env w d raw (err e) p id h saved k rows =
    unchanged-HaveRows w d raw p id h rows
after_rescan-HaveRows env w d raw (ok r) p id h saved k rows =
    use_copy-HaveRows env w d raw r.raw r.disc.titles p id h saved k rows

pub reread-HaveRows :
    (env : World) (w : Worker) (src : Source) (d : Disc) (raw : Text) (p : Disc × Text) (id : ℕ)
    → (reread env w src d raw).0 ≡ ok p
    → env.sql_error resave_call ≡ none
    → Known d.fingerprint id w.catalog.discs
    → HaveRows id d.titles w.catalog.titles
    → HaveRows id p.0.titles (reread env w src d raw).1.catalog.titles
unfolding reread
reread-HaveRows env w device d raw p id h saved k rows = unchanged-HaveRows w d raw p id h rows
reread-HaveRows env w folder d raw p id h saved k rows =
    after_rescan-HaveRows env w d raw env.rescan p id h saved k rows
