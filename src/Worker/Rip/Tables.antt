-- ===== src/Worker/Rip/Tables.antt =====
-- internal/daemon/worker.go: the steps of a rip, compared with the worker before them in the table
-- of discs and in the effects.
use hellbox.Base.{inl, inr, ℕ, ◌+◌, ◌≡◌, refl, ◌∙◌, List, [], ◌∷◌, none, some, arith, codes}
use hellbox.Catalog.{Catalog, Problem, Title, mark_title_ripped, set_job_state, set_job_progress}
use hellbox.Worker.Status.{DriveState, set_progress}
use hellbox.Worker.World.{World, Worker, RipResult, TitleRip, to_state, run_sql, Call, Result-cases}
use hellbox.Worker.Source.{mirrored, rip_source}
use hellbox.Worker.Rip.{Step, then_do, broken_off, recorded, verified, rip_title, rip_titles, begun}

-- The table of discs and the effects are as they were.
pub record Keeps (w w' : Worker) : Type 0 where
  pub discs : w'.catalog.discs ≡ w.catalog.discs
  pub effects : w'.effects ≡ w.effects

pub keep_trans : {a b c : Worker} → Keeps a b → Keeps b c → Keeps a c
keep_trans p q = record { discs = q.discs ∙ p.discs; effects = q.effects ∙ p.effects }

pub run_sql-Keeps :
    (env : World) (w : Worker) (call : Call) (c : Catalog)
    → c.discs ≡ w.catalog.discs
    → Keeps w (run_sql env w call c)
unfolding run_sql
run_sql-Keeps env w call c h = ground arith

broken_off-Keeps :
    (env : World) (w : Worker) (job index : ℕ) (r : TitleRip) (e : Problem)
    → Keeps w (broken_off env w job index r e).1
unfolding broken_off run_sql set_job_state
broken_off-Keeps env w job index r e = ground arith

recorded-Keeps :
    (env : World) (w : Worker) (job disc total i : ℕ) (t : Title) (r : TitleRip) (out : RipResult)
    → Keeps w (recorded env w job disc total i t r out).1
unfolding recorded run_sql to_state mark_title_ripped set_job_progress
recorded-Keeps env w job disc total i t r out = ground arith

verified-Keeps :
    (env : World) (w : Worker) (job disc total i : ℕ) (t : Title) (r : TitleRip) (out : RipResult)
    → Keeps w (verified env w job disc total i t r out).1
unfolding verified to_state
verified-Keeps env w job disc total i t r out =
    ground
      (arith, recorded-Keeps env (to_state env w DriveState.verifying) job disc total i t r out)

rip_title-Keeps :
    (env : World) (w : Worker) (job disc total i : ℕ) (t : Title)
    → Keeps w (rip_title env w job disc total i t).1
unfolding rip_title
rip_title-Keeps env w job disc total i t =
    let shown = record w { status = set_progress w.status t.index 0 (codes "title") } in
    elim (Result-cases ((env.title i t).result)) [
      | inl (e, q) ↦
          rw (q, rip_title)
            (let k = broken_off-Keeps env shown job t.index (env.title i t) e in
              record { discs = k.discs; effects = k.effects })
      | inr (out, q) ↦
          rw (q, rip_title)
            (let k = verified-Keeps env shown job disc total i t (env.title i t) out in
              record { discs = k.discs; effects = k.effects })
    ]

then_do-Keeps :
    (w : Worker) (s : Step) (f : Worker → Step)
    → Keeps w s.1
    → ((v : Worker) → Keeps v (f v).1)
    → Keeps w (then_do s f).1
then_do-Keeps w (none, v) f k h = keep_trans k (h v)
then_do-Keeps w (some e, v) f k h = k

pub rip_titles-Keeps :
    (env : World) (w : Worker) (job disc total i : ℕ) (ts : List Title)
    → Keeps w (rip_titles env w job disc total i ts).1
unfolding rip_titles
rip_titles-Keeps env w job disc total i [] = record { discs = refl; effects = refl }
rip_titles-Keeps env w job disc total i (t ∷ ts) =
    then_do-Keeps w (rip_title env w job disc total i t)
      (λ v. rip_titles env v job disc total (i + 1) ts) (rip_title-Keeps env w job disc total i t)
      (λ v. rip_titles-Keeps env v job disc total (i + 1) ts)

pub begun-Keeps :
    (env : World) (w : Worker) (job : ℕ) (ts : List Title) → Keeps w (begun env w job ts)
unfolding begun run_sql to_state set_job_state set_job_progress
begun-Keeps env w job ts = ground arith

pub rip_source-Keeps : (env : World) (w : Worker) → Keeps w (rip_source env w).1
unfolding rip_source mirrored to_state
rip_source-Keeps env w = ground arith
