-- ===== src/Worker/Rip/Done.antt =====
-- internal/daemon/worker.go: what a rip that succeeds has done.
use hellbox.Base.{
  inl, inr, ℕ, ◌+◌, ◌≡◌, ◌⊎◌, refl, ◌∙◌, sym, ap, false, List, [], ◌∷◌, Option, none, some, arith,
  subst, length, Text, Bool-cases,
}
use hellbox.Catalog.{Catalog, Problem, Disc, Title, save_disc, set_rip_dir}
use hellbox.Catalog.Rows.{Known, save_disc-Known}
use hellbox.Worker.World.{
  World, Worker, Result, ok, err, ScanResult, RipResult, TitleRip, emit, run_sql, after_sql,
  Result-cases, resave_call, mark_call, described,
}
use hellbox.Worker.Source.{Source, device, folder, is_partial, verify_output}
use hellbox.Worker.Rip.{
  Step, then_do, duration_check, reread, after_rescan, use_copy, broken_off, recorded, verified,
  rip_title, rip_titles, begun, record_rip, rip_from,
}
use hellbox.Worker.Rip.Tables.{rip_titles-Keeps, begun-Keeps}

-- A title of which a file was written that passes the checks, and whose record SQLite does not refuse.
pub record IsWritten (env : World) (i : ℕ) (t : Title) : Type 0 where
  pub out : RipResult
  pub ripped : (env.title i t).result ≡ ok out
  pub verified : verify_output out.output env.config.min_output_bytes ≡ none
  pub full_length : duration_check env (env.title i t) ≡ none
  pub marked : env.sql_error (mark_call t.index) ≡ none

pub ok_inj {ℓ} : {A : Type ℓ} {a b : A} → ◌≡◌ {A = Result A} (ok a) (ok b) → a ≡ b
ok_inj h = cc

unfoldable pub AllWritten : World → ℕ → List Title → Type 0
AllWritten env i [] = Unit
AllWritten env i (t ∷ ts) = IsWritten env i t × AllWritten env (i + 1) ts

verified-none :
    (env : World) (w : Worker) (job disc total i : ℕ) (t : Title) (r : TitleRip) (out : RipResult)
    → (verified env w job disc total i t r out).0 ≡ none
    → (verify_output out.output env.config.min_output_bytes ≡ none)
      × (duration_check env r ≡ none)
      × (env.sql_error (mark_call t.index) ≡ none)
unfolding verified recorded
verified-none env w job disc total i t r out h = ground arith

rip_title-none :
    (env : World) (w : Worker) (job disc total i : ℕ) (t : Title)
    → (rip_title env w job disc total i t).0 ≡ none
    → IsWritten env i t
unfolding rip_title broken_off
rip_title-none env w job disc total i t h = elim (Result-cases ((env.title i t).result)) [
  | inl (e, q) ↦ absurd (ground arith)
  | inr (out, q) ↦
      let (v, d, m) =
        verified-none env _ job disc total i t (env.title i t) out (rw (q, rip_title) at h) in
      record { out = out; ripped = q; verified = v; full_length = d; marked = m }
]

pub then_do-none :
    (s : Step) (f : Worker → Step) → (then_do s f).0 ≡ none → (s.0 ≡ none) × ((f s.1).0 ≡ none)
then_do-none (none, v) f h = (refl, h)
then_do-none (some e, v) f h = absurd (cc)

rip_titles-none :
    (env : World) (w : Worker) (job disc total i : ℕ) (ts : List Title)
    → (rip_titles env w job disc total i ts).0 ≡ none
    → AllWritten env i ts
unfolding rip_titles AllWritten
rip_titles-none env w job disc total i [] h = tt
rip_titles-none env w job disc total i (t ∷ ts) h =
    let (first, rest) = then_do-none (rip_title env w job disc total i t) _ h in
    (
      rip_title-none env w job disc total i t first,
      rip_titles-none env (rip_title env w job disc total i t).1 job disc total (i + 1) ts rest,
    )

set_rip_dir-discs :
    (c c' : Catalog) (id : ℕ) (dir : Text)
    → c'.discs ≡ c.discs
    → (set_rip_dir c' id dir).discs ≡ (set_rip_dir c id dir).discs
unfolding set_rip_dir
set_rip_dir-discs c c' id dir h = rw h refl

record_rip-ok :
    (env : World) (disc : ℕ) (d d' : Disc) (dir : Text) (src : Source) (s : Step)
    → (record_rip env disc d dir src s).0 ≡ ok d'
    → (s.0 ≡ none)
      × (d ≡ d')
      × ((record_rip env disc d dir src s).1.catalog.discs
          ≡ (set_rip_dir s.1.catalog disc dir).discs)
unfolding record_rip
record_rip-ok env disc d d' dir src (some e, w) h = absurd (cc)
record_rip-ok env disc d d' dir device (none, w) h = ground arith
record_rip-ok env disc d d' dir folder (none, w) h = ground arith

-- What a rip with a source and a list of titles has done if it succeeds.
unfoldable pub IsDone : World → ℕ → Text → Disc → Worker → Disc → Worker → Type 0
IsDone env disc dir d w d' w' =
    (d ≡ d')
    × AllWritten env 0 d.titles
    × (w'.catalog.discs ≡ (set_rip_dir w.catalog disc dir).discs)

rip_loop-IsDone :
    (env : World) (job disc : ℕ) (dir : Text) (src : Source) (d d' : Disc) (w v : Worker)
    → v.catalog.discs ≡ w.catalog.discs
    → (record_rip env disc d dir src (rip_titles env v job disc (length d.titles) 0 d.titles)).0
      ≡ ok d'
    → IsDone env disc dir d w d'
        (record_rip env disc d dir src (rip_titles env v job disc (length d.titles) 0 d.titles)).1
unfolding IsDone
rip_loop-IsDone env job disc dir src d d' w v k h =
    let loop = rip_titles env v job disc (length d.titles) 0 d.titles in
    let (over, same, filed) = record_rip-ok env disc d d' dir src loop h in
    let kept = (rip_titles-Keeps env v job disc (length d.titles) 0 d.titles).discs ∙ k in
    (
      same,
      rip_titles-none env v job disc (length d.titles) 0 d.titles over,
      filed ∙ set_rip_dir-discs w.catalog loop.1.catalog disc dir kept,
    )

abbrev pub loop_of : World → ℕ → ℕ → Disc → Worker → Step
loop_of env job disc d w =
    rip_titles env (begun env (emit w (described d.titles)) job d.titles) job disc (length d.titles)
      0 d.titles

pub rip_from-loop :
    (env : World) (job disc : ℕ) (dir : Text) (src : Source) (d d' : Disc) (w : Worker)
    → (rip_from env job disc dir src d w).0 ≡ ok d'
    → rip_from env job disc dir src d w ≡ record_rip env disc d dir src (loop_of env job disc d w)
unfolding rip_from
rip_from-loop env job disc dir src d d' w h = ground arith

pub rip_from-IsDone :
    (env : World) (job disc : ℕ) (dir : Text) (src : Source) (d d' : Disc) (w : Worker)
    → (rip_from env job disc dir src d w).0 ≡ ok d'
    → IsDone env disc dir d w d' (rip_from env job disc dir src d w).1
rip_from-IsDone env job disc dir src d d' w h =
    let began = begun-Keeps env (emit w (described d.titles)) job d.titles in
    let same = rip_from-loop env job disc dir src d d' w h in
    subst (λ (z : Result Disc × Worker). IsDone env disc dir d w d' z.1) (sym same)
      (rip_loop-IsDone env job disc dir src d d' w
        (begun env (emit w (described d.titles)) job d.titles) began.discs
        (sym (ap (λ (z : Result Disc × Worker). z.0) same) ∙ h))

-- The disc that is ripped: that of the drive, or one whose titles are those of a copy that holds
-- enough of it.
unfoldable pub Accepted : Disc → Disc → Type 0
Accepted d d' =
    (d'.fingerprint ≡ d.fingerprint)
    × ((d'.titles ≡ d.titles) ⊎ (is_partial d'.titles d.titles ≡ false))

after_sql-Known :
    (o : Option Problem) (w : Worker) (c : Catalog) (fp : Text) (id : ℕ)
    → Known fp id w.catalog.discs
    → Known fp id c.discs
    → Known fp id (after_sql o w c).catalog.discs
after_sql-Known none w c fp id h k = k
after_sql-Known (some e) w c fp id h k = h

-- A copy is ripped only if it holds enough of the disc, and the disc stays known.
unfoldable pub KeepsDisc : ℕ → Disc → Worker → Disc → Worker → Type 0
KeepsDisc id d w d' w' =
    Known d.fingerprint id w.catalog.discs → Accepted d d' × Known d.fingerprint id w'.catalog.discs

unchanged-KeepsDisc :
    (w : Worker) (d : Disc) (raw : Text) (p : Disc × Text) (id : ℕ)
    → ◌≡◌ {A = Result (Disc × Text)} (ok (d, raw)) (ok p)
    → KeepsDisc id d w p.0 w
unfolding Accepted KeepsDisc
unchanged-KeepsDisc w d raw p id h k =
    let same = ok_inj h in
    (
      (
        ap (λ (z : Disc × Text). z.0.fingerprint) (sym same),
        inl (ap (λ (z : Disc × Text). z.0.titles) (sym same)),
      ),
      k,
    )

use_copy-KeepsDisc :
    (env : World) (w : Worker) (d : Disc) (raw copy_raw : Text) (ts : List Title) (p : Disc × Text)
    (id : ℕ)
    → (use_copy env w d raw copy_raw ts).0 ≡ ok p
    → KeepsDisc id d w p.0 (use_copy env w d raw copy_raw ts).1
unfolding use_copy Accepted KeepsDisc run_sql
use_copy-KeepsDisc env w d raw copy_raw [] p id h k = unchanged-KeepsDisc w d raw p id h k
use_copy-KeepsDisc env w d raw copy_raw (t ∷ ts) p id h k =
    elim (Bool-cases (is_partial (t ∷ ts) d.titles)) [
      | inl e ↦ absurd (cc (rw e at h))
      | inr e ↦
          let same = ok_inj (rw e at h) in
          let copy : Disc = record d { titles = t ∷ ts } in
          let shown = record w { status = record w.status { title_count = length (t ∷ ts) } } in
          (
            (
              ap (λ (z : Disc × Text). z.0.fingerprint) (sym same),
              inr (ap (λ (z : Disc × Text). is_partial z.0.titles d.titles) (sym same) ∙ e),
            ),
            rw e (
                after_sql-Known (env.sql_error resave_call) shown
                  (save_disc w.catalog copy copy_raw env.clock).1 d.fingerprint id k
                  (save_disc-Known w.catalog copy copy_raw env.clock id k)),
          )
    ]

after_rescan-KeepsDisc :
    (env : World) (w : Worker) (d : Disc) (raw : Text) (r : Result ScanResult) (p : Disc × Text)
    (id : ℕ)
    → (after_rescan env w d raw r).0 ≡ ok p
    → KeepsDisc id d w p.0 (after_rescan env w d raw r).1
unfolding after_rescan
after_rescan-KeepsDisc env w d raw (err e) p id h = unchanged-KeepsDisc w d raw p id h
after_rescan-KeepsDisc env w d raw (ok r) p id h =
    use_copy-KeepsDisc env w d raw r.raw r.disc.titles p id h

pub reread-KeepsDisc :
    (env : World) (w : Worker) (src : Source) (d : Disc) (raw : Text) (p : Disc × Text) (id : ℕ)
    → (reread env w src d raw).0 ≡ ok p
    → KeepsDisc id d w p.0 (reread env w src d raw).1
unfolding reread
reread-KeepsDisc env w device d raw p id h = unchanged-KeepsDisc w d raw p id h
reread-KeepsDisc env w folder d raw p id h = after_rescan-KeepsDisc env w d raw env.rescan p id h
