-- ===== src/Worker/Rip/Whole.antt =====
-- internal/daemon/worker.go: what a whole rip that succeeds has done, from the choice of its
-- directory to the record of the disc.
use hellbox.Base.{
  inl, inr, ℕ, zero, suc, ◌-◌, ◌≡◌, ◌⊎◌, refl, ◌∙◌, sym, ap, false, List, [], arith, subst, Text,
  text_eq, none,
}
use hellbox.Catalog.{Disc, DiscRow, TitleRow}
use hellbox.Catalog.Rows.{Known, Ripped, set_rip_dir-Ripped}
use hellbox.Worker.World.{World, Worker, Result, ok, err, resave_call, and_then, Result-cases}
use hellbox.Worker.Source.{Source, is_partial, rip_source, make_rip_dir, next_dir}
use hellbox.Worker.Rip.{reread, rip_from, rip_source_from, rip_into, rip}
use hellbox.Worker.Rip.Done.{
  AllWritten, IsDone, Accepted, KeepsDisc, reread-KeepsDisc, rip_from-IsDone,
}
use hellbox.Worker.Rip.Tables.{rip_source-Keeps}
use hellbox.Worker.Rip.Marks.{
  HaveRows, AreMarked, rip_source-titles, rip_from-AreMarked, reread-HaveRows,
}

-- A step whose successor succeeds has succeeded.
and_then-ok {ℓ κ} :
    {A : Type ℓ} {B : Type κ} (s : Result A × Worker) (f : A → Worker → Result B × Worker) (b : B)
    → (and_then s f).0 ≡ ok b
    → (a : A) × (s.0 ≡ ok a) × (and_then s f ≡ f a s.1)
and_then-ok (err e, w) f b h = absurd (cc)
and_then-ok (ok a, w) f b h = (a, refl, refl)

-- The titles that are ripped are marked, if the disc's have rows and those of a copy are saved.
MarksAll : World → ℕ → Disc → List TitleRow → Disc → List TitleRow → Type 0
MarksAll env id d rows d' rows' =
    env.sql_error resave_call ≡ none → HaveRows id d.titles rows → AreMarked id d'.titles rows'

-- What a rip that succeeds has done, from a worker and a directory on.
RipDone : World → ℕ → Text → Disc → Worker → Disc → Worker → Type 0
RipDone env id dir d w d' w' =
    Known d.fingerprint id w.catalog.discs
    → AllWritten env 0 d'.titles
      × MarksAll env id d w.catalog.titles d' w'.catalog.titles
      × Accepted d d'
      × (text_eq dir [] ≡ false → Ripped d.fingerprint w'.catalog.discs)

rip_source_from-RipDone :
    (env : World) (job id : ℕ) (d d' : Disc) (raw dir : Text) (src : Source) (w : Worker)
    → (rip_source_from env job id d raw dir src w).0 ≡ ok d'
    → RipDone env id dir d w d' (rip_source_from env job id d raw dir src w).1
unfolding RipDone MarksAll rip_source_from KeepsDisc IsDone
rip_source_from-RipDone env job id d d' raw dir src w h k =
    let (p, read, same) =
      and_then-ok (reread env w src d raw) (λ p w'. rip_from env job id dir src p.0 w') d' h in
    let w' = (reread env w src d raw).1 in
    let (accepted, known) = reread-KeepsDisc env w src d raw p id read k in
    let done = sym (ap (λ (z : Result Disc × Worker). z.0) same) ∙ h in
    let (disc, written, filed) = rip_from-IsDone env job id dir src p.0 d' w' done in
    (
      subst (λ (z : Disc). AllWritten env 0 z.titles) disc written,
      λ saved rows.
          let marked =
            rip_from-AreMarked env job id dir src p.0 d' w' done
              (reread-HaveRows env w src d raw p id read saved k rows) in
          subst (λ (z : Result Disc × Worker). AreMarked id d'.titles z.1.catalog.titles) (sym same)
            (subst
              (λ (z : Disc).
                AreMarked id z.titles (rip_from env job id dir src p.0 w').1.catalog.titles)
              disc marked),
      subst (λ (z : Disc). Accepted d z) disc accepted,
      λ named.
          subst (λ (z : Result Disc × Worker). Ripped d.fingerprint z.1.catalog.discs) (sym same)
            (subst (λ (z : List DiscRow). Ripped d.fingerprint z) (sym filed)
              (set_rip_dir-Ripped w'.catalog d.fingerprint id dir known named)),
    )

-- The names of directories are not empty.
pub record NamesAreSet (env : World) : Type 0 where
  pub base : (d : Disc) → text_eq (env.base_dir d) [] ≡ false
  pub numbered : (n : ℕ) (base : Text) → text_eq (env.directory n base) [] ≡ false

next_dir-named :
    (env : World) (base : Text) (n : ℕ) (candidate dir : Text)
    → NamesAreSet env
    → text_eq candidate [] ≡ false
    → next_dir env base n candidate ≡ ok dir
    → text_eq dir [] ≡ false
unfolding next_dir
next_dir-named env base zero candidate dir names named h = ground arith
next_dir-named env base (suc n) candidate dir names named h =
    let later =
      next_dir-named env base n (env.directory (50 - n) base) dir names
        (names.numbered (50 - n) base) in
    ground (arith, later)

rip-source :
    (env : World) (w : Worker) (job id : ℕ) (d d' : Disc) (raw dir : Text)
    → make_rip_dir env d ≡ ok dir
    → (rip env w job id d raw).0 ≡ ok d'
    → rip env w job id d raw
      ≡ and_then
          (rip_source env (record w { status = record w.status { rip_dir = dir } }))
          (rip_source_from env job id d raw dir)
unfolding rip rip_into
rip-source env w job id d d' raw dir e h = ground arith

rip-RipDone :
    (env : World) (w : Worker) (job id : ℕ) (d d' : Disc) (raw : Text)
    → (rip env w job id d raw).0 ≡ ok d'
    → (dir : Text) × (make_rip_dir env d ≡ ok dir)
      × RipDone env id dir d w d' (rip env w job id d raw).1
unfolding RipDone rip rip_into
rip-RipDone env w job id d d' raw h = elim (Result-cases (make_rip_dir env d)) [
  | inl (e, q) ↦ absurd (cc (rw (q, rip) at h))
  | inr (dir, q) ↦
      let shown = record w { status = record w.status { rip_dir = dir } } in
      let whole = rip-source env w job id d d' raw dir q h in
      let (src, sourced, same) =
        and_then-ok (rip_source env shown) (rip_source_from env job id d raw dir) d'
          (sym (ap (λ (z : Result Disc × Worker). z.0) whole) ∙ h) in
      let w' = (rip_source env shown).1 in
      let kept = rip_source-Keeps env shown in
      let last = whole ∙ same in
      (
        dir,
        q,
        λ k.
            let (written, marked, accepted, filed) =
              rip_source_from-RipDone env job id d d' raw dir src w'
                (sym (ap (λ (z : Result Disc × Worker). z.0) last) ∙ h)
                (subst (λ (z : List DiscRow). Known d.fingerprint id z) (sym kept.discs) k) in
            subst
              (λ (z : Result Disc × Worker).
                AllWritten env 0 d'.titles
                × MarksAll env id d w.catalog.titles d' z.1.catalog.titles
                × Accepted d d'
                × (text_eq dir [] ≡ false → Ripped d.fingerprint z.1.catalog.discs))
              (sym last)
              (
                written,
                subst
                    (λ rows.
                      MarksAll env id d rows d'
                        (rip_source_from env job id d raw dir src w').1.catalog.titles)
                    (rip_source-titles env shown) marked,
                accepted,
                filed,
              ),
      )
]

-- The disc of a rip that succeeds is recorded as ripped.
pub rip-Ripped :
    (env : World) (w : Worker) (job id : ℕ) (d d' : Disc) (raw : Text)
    → NamesAreSet env
    → Known d.fingerprint id w.catalog.discs
    → (rip env w job id d raw).0 ≡ ok d'
    → Ripped d.fingerprint (rip env w job id d raw).1.catalog.discs
unfolding RipDone make_rip_dir
rip-Ripped env w job id d d' raw names k h =
    let (dir, made, whole) = rip-RipDone env w job id d d' raw h in
    let (written, marked, accepted, filed) = whole k in
    filed (next_dir-named env (env.base_dir d) 49 (env.base_dir d) dir names (names.base d) made)

-- A rip that succeeds is whole. If it is of a disc that is known under its id and whose titles have rows,
-- the names of directories are not empty, and SQLite does not refuse to save the titles of a copy,
-- then every title has a file that passed all checks and a row in the table that says it is ripped and
-- verified, the titles are the drive's or those of a copy that holds enough of the disc, and the disc
-- is recorded as ripped.
pub rip_is_whole :
    (env : World) (w : Worker) (job id : ℕ) (d d' : Disc) (raw : Text)
    → NamesAreSet env
    → Known d.fingerprint id w.catalog.discs
    → HaveRows id d.titles w.catalog.titles
    → env.sql_error resave_call ≡ none
    → (rip env w job id d raw).0 ≡ ok d'
    → AllWritten env 0 d'.titles
      × AreMarked id d'.titles (rip env w job id d raw).1.catalog.titles
      × (d'.fingerprint ≡ d.fingerprint)
      × ((d'.titles ≡ d.titles) ⊎ (is_partial d'.titles d.titles ≡ false))
      × Ripped d.fingerprint (rip env w job id d raw).1.catalog.discs
unfolding RipDone MarksAll Accepted
rip_is_whole env w job id d d' raw names k rows saved h =
    let (dir, made, whole) = rip-RipDone env w job id d d' raw h in
    let (written, marked, (same, titles), filed) = whole k in
    (written, marked saved rows, same, titles, rip-Ripped env w job id d d' raw names k h)
