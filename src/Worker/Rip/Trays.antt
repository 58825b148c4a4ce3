-- ===== src/Worker/Rip/Trays.antt =====
-- internal/daemon/worker.go: how often the tray is opened during a rip.
use hellbox.Base.{
  ℕ, suc, ◌≡◌, refl, ◌∙◌, ap, Bool, true, false, List, [], ◌∷◌, Option, none, some, arith,
  if◌then◌else◌, length, Text,
}
use hellbox.Catalog.{Problem, Disc, Title, Catalog}
use hellbox.Worker.World.{
  World, Worker, Result, ok, err, emit, run_sql, and_then, after_sql, Effect, tray_opened,
  described,
}
use hellbox.Worker.Source.{Source, device, folder, rip_source, make_rip_dir}
use hellbox.Worker.Rip.{
  Step, reread, after_rescan, use_copy, rip_titles, begun, record_rip, rip_from, rip_source_from,
  rip_into, rip,
}
use hellbox.Worker.Rip.Tables.{rip_titles-Keeps, begun-Keeps, rip_source-Keeps}

abbrev pub is_tray : Effect → Bool
is_tray tray_opened = true
is_tray _ = false

-- How often the tray has been opened.
abbrev pub trays : List Effect → ℕ
trays [] = 0
trays (e ∷ es) = let n = trays es in if is_tray e then suc n else n

after_sql-effects :
    (o : Option Problem) (w : Worker) (c : Catalog) → (after_sql o w c).effects ≡ w.effects
after_sql-effects none w c = refl
after_sql-effects (some e) w c = refl

use_copy-effects :
    (env : World) (w : Worker) (d : Disc) (raw copy_raw : Text) (ts : List Title)
    → (use_copy env w d raw copy_raw ts).1.effects ≡ w.effects
unfolding use_copy run_sql
use_copy-effects env w d raw copy_raw [] = refl
use_copy-effects env w d raw copy_raw (t ∷ ts) = ground arith

reread-effects :
    (env : World) (w : Worker) (src : Source) (d : Disc) (raw : Text)
    → (reread env w src d raw).1.effects ≡ w.effects
unfolding reread after_rescan
reread-effects env w device d raw = refl
reread-effects env w folder d raw =
    elim (env.rescan) as (λ r. (after_rescan env w d raw r).1.effects ≡ w.effects) [
      | err e ↦ refl
      | ok r ↦ use_copy-effects env w d raw r.raw r.disc.titles
    ]

record_rip-trays :
    (env : World) (disc : ℕ) (d : Disc) (dir : Text) (src : Source) (s : Step)
    → trays (record_rip env disc d dir src s).1.effects ≡ trays s.1.effects
unfolding record_rip
record_rip-trays env disc d dir src (some e, w) = refl
record_rip-trays env disc d dir device (none, w) = ground arith
record_rip-trays env disc d dir folder (none, w) = ground arith

rip_from-trays :
    (env : World) (job disc : ℕ) (dir : Text) (src : Source) (d : Disc) (w : Worker)
    → trays (rip_from env job disc dir src d w).1.effects ≡ trays w.effects
unfolding rip_from
rip_from-trays env job disc dir src d w =
    let written = emit w (described d.titles) in
    let began = begun env written job d.titles in
    let loop = rip_titles env began job disc (length d.titles) 0 d.titles in
    let kept =
      (rip_titles-Keeps env began job disc (length d.titles) 0 d.titles).effects
      ∙ (begun-Keeps env written job d.titles).effects in
    let same = record_rip-trays env disc d dir src loop ∙ ap trays kept in ground (arith, same)

and_then-trays {ℓ κ} :
    {A : Type ℓ} {B : Type κ} (w : Worker) (s : Result A × Worker)
    (f : A → Worker → Result B × Worker)
    → trays s.1.effects ≡ trays w.effects
    → ((a : A) (v : Worker) → trays (f a v).1.effects ≡ trays v.effects)
    → trays (and_then s f).1.effects ≡ trays w.effects
and_then-trays w (err e, v) f h g = h
and_then-trays w (ok a, v) f h g = g a v ∙ h

rip_source_from-trays :
    (env : World) (job disc : ℕ) (d : Disc) (raw dir : Text) (src : Source) (w : Worker)
    → trays (rip_source_from env job disc d raw dir src w).1.effects ≡ trays w.effects
unfolding rip_source_from
rip_source_from-trays env job disc d raw dir src w =
    and_then-trays w (reread env w src d raw) _ (ap trays (reread-effects env w src d raw))
      (λ p v. rip_from-trays env job disc dir src p.0 v)

rip_into-trays :
    (env : World) (w : Worker) (job disc : ℕ) (d : Disc) (raw : Text) (r : Result Text)
    → trays (rip_into env w job disc d raw r).1.effects ≡ trays w.effects
unfolding rip_into
rip_into-trays env w job disc d raw (err e) = refl
rip_into-trays env w job disc d raw (ok dir) =
    let shown = record w { status = record w.status { rip_dir = dir } } in
    let whole =
      and_then-trays shown (rip_source env shown) (rip_source_from env job disc d raw dir)
        (ap trays (rip_source-Keeps env shown).effects)
        (λ src v. rip_source_from-trays env job disc d raw dir src v) in
    ground (arith, whole)

pub rip-trays :
    (env : World) (w : Worker) (job disc : ℕ) (d : Disc) (raw : Text)
    → trays (rip env w job disc d raw).1.effects ≡ trays w.effects
unfolding rip
rip-trays env w job disc d raw = rip_into-trays env w job disc d raw (make_rip_dir env d)
