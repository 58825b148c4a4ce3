-- ===== src/MakeMkv/Silence.antt =====
-- internal/makemkv: that `RipTitle` reports a stall if a rip shows no progress for the timeout, and
-- only then; and how often the watchdog looks.
use hellbox.Base.{
  ℕ, ◌+◌, ◌-◌, ◌*◌, ◌≤◌, ◌<◌, Bool, true, false, List, [], ◌∷◌, ◌++◌, none, some, if◌then◌else◌,
  ◌≡◌, refl, sym, subst, ap, ◌∙◌, arith, inl, inr, ◌⊎◌, ◌↔◌, Unicode,
}
use hellbox.MakeMkv.Messages.{summarise}
use hellbox.MakeMkv.Stall.{StallTimer, expired, check_interval, a_second}
use hellbox.MakeMkv.Rip.{
  Ripping, started_at, on_line, on_tick, stopped, Happening, line_at, tick_at, handle, handle_all,
  Ending, moved, single_mkv, conclude, rip_title, RipError, no_progress, command_failed,
}
use hellbox.MakeMkv.Watch.{all_stale, Waiting, all_wait, all_ended, tick_ends, line_fired}

handle_all-append :
    (u : Unicode) (title : ℕ) (r : Ripping) (hs ks : List Happening)
    → handle_all u title r (hs ++ ks) ≡ handle_all u title (handle_all u title r hs) ks
unfolding handle_all
handle_all-append u title r [] ks = refl
handle_all-append u title r (h ∷ hs) ks = handle_all-append u title (handle u title r h) hs ks

-- The watchdog runs until it has ended the rip, and the timeout stays.
abbrev Watched : ℕ → Ripping → Type 0
Watched timeout r = (r.stall.timeout ≡ timeout) × ((r.watched ≡ true) ⊎ (r.stall.fired ≡ true))

all-Watched :
    (u : Unicode) (title timeout : ℕ) (r : Ripping) (hs : List Happening)
    → Watched timeout r
    → Watched timeout (handle_all u title r hs)
unfolding handle_all
all-Watched u title timeout r [] w = w
all-Watched u title timeout r (line_at line now ∷ hs) (same, w) =
    let (f, t, kept) = line_fired u title r line now in
    all-Watched u title timeout (on_line u title r line now) hs
      (t ∙ same, elim w [ inl on ↦ inl (kept ∙ on) | inr ended ↦ inr (f ∙ ended) ])
all-Watched u title timeout r (tick_at now ∷ hs) (same, w) =
    all-Watched u title timeout (on_tick r now) hs (elim (tick_ends r now) [
      | inl (kept, on) ↦ (
        ap (λ x. x.timeout) kept ∙ same,
        elim w [ inl was ↦ inl (on ∙ was) | inr ended ↦ inr (ap (λ x. x.fired) kept ∙ ended) ],
      )
      | inr (f, t, _, _) ↦ (t ∙ same, inr f)
    ])

fires_late :
    (s : StallTimer) (now : ℕ)
    → 0 < s.timeout
    → s.timeout ≤ now - s.last
    → ((expired s now).1.fired ≡ true) × ((expired s now).1.timeout ≡ s.timeout)
unfolding expired
fires_late s now enabled passed = ground arith

tick_expires :
    (r : Ripping) (now : ℕ) → r.watched ≡ true → (on_tick r now).stall ≡ (expired r.stall now).1
unfolding on_tick
tick_expires r now on = go r.watched (expired r.stall now) on
  where
    go : (b : Bool) (x : Bool × StallTimer) → b ≡ true → (if b then stopped r x else r).stall ≡ x.1
    go true (true, s) h = refl
    go true (false, s) h = refl
    go false x h = cc

tick_fires :
    (s : StallTimer) (r : Ripping) (now : ℕ)
    → 0 < s.timeout
    → s.timeout ≤ now - s.last
    → Waiting s r
    → ((on_tick r now).stall.fired ≡ true) × ((on_tick r now).stall.timeout ≡ s.timeout)
tick_fires s r now enabled passed (inl (fired, same)) = elim (tick_ends r now) [
  | inl (kept, on) ↦ (ap (λ x. x.fired) kept ∙ fired, ap (λ x. x.timeout) kept ∙ same)
  | inr (f, t, _, _) ↦ (f, t ∙ same)
]
tick_fires s r now enabled passed (inr (on, same)) =
    let e = tick_expires r now on ∙ ap (λ x. (expired x now).1) same in
    let (f, t) = fires_late s now enabled passed in
    (ap (λ x. x.fired) e ∙ f, ap (λ x. x.timeout) e ∙ t)

-- The state of a rip after what has happened so far.
abbrev pub so_far : Unicode → ℕ → ℕ → ℕ → List Happening → Ripping
so_far u title timeout start hs = handle_all u title (started_at timeout start) hs

after_silence :
    (u : Unicode) (title timeout : ℕ) (r : Ripping) (silence after : List Happening) (now : ℕ)
    → 0 < timeout
    → Watched timeout r
    → all_stale u r.stall silence ≡ true
    → r.stall.last + timeout ≤ now
    → ((handle_all u title r (silence ++ tick_at now ∷ after)).stall.fired ≡ true)
      × ((handle_all u title r (silence ++ tick_at now ∷ after)).stall.timeout ≡ timeout)
unfolding handle_all
after_silence u title timeout r silence after now enabled (same, w) stale passed =
    let waits : Waiting r.stall r = elim w [
      | inl on ↦ inr (on, refl)
      | inr ended ↦ inl (ended, refl)
    ] in
    let mid = handle_all u title r silence in
    let fires =
      tick_fires r.stall mid now (omega (arith, same)) (omega (arith, same))
        (all_wait u title r.stall r silence stale waits) in
    subst (λ x. (x.stall.fired ≡ true) × (x.stall.timeout ≡ timeout))
      (sym (handle_all-append u title r silence (tick_at now ∷ after)))
      (all_ended u title timeout (on_tick mid now) after (fires.0, fires.1 ∙ same))

conclude_fired :
    (u : Unicode) (r : Ripping) (end : Ending) (timeout : ℕ)
    → r.stall.fired ≡ true
    → r.stall.timeout ≡ timeout
    → conclude u r end ≡ inl (no_progress timeout (summarise u r.messages))
unfolding conclude
conclude_fired u r end timeout f t = go r.stall.fired f
  where
    go :
        (b : Bool)
        → b ≡ true
        → (if b
            then inl (no_progress r.stall.timeout (summarise u r.messages))
            else elim (end.run_error) [
              | some e ↦ inl (command_failed e (summarise u r.messages))
              | none ↦ moved end (single_mkv u (summarise u r.messages) end.staging)
            ])
          ≡ inl (no_progress timeout (summarise u r.messages))
    go true h = ap (λ n. inl (no_progress n (summarise u r.messages))) t
    go false h = cc

-- A rip that shows no progress ends: whatever was before, if from then on no line has values other
-- than the last ones and a tick comes a timeout or more after these, the rip is reported as stalled,
-- whatever follows and however the command ends.
pub silence_ends_rip :
    (u : Unicode) (title timeout start : ℕ) (before silence after : List Happening) (now : ℕ)
    (end : Ending)
    → 0 < timeout
    → all_stale u (so_far u title timeout start before).stall silence ≡ true
    → (so_far u title timeout start before).stall.last + timeout ≤ now
    → rip_title u title timeout start (before ++ (silence ++ tick_at now ∷ after)) end
      ≡ inl (
          no_progress timeout (
            summarise u
              (so_far u title timeout start (before ++ (silence ++ tick_at now ∷ after))).messages))
unfolding rip_title
silence_ends_rip u title timeout start before silence after now end enabled stale passed =
    let r = so_far u title timeout start before in
    let whole =
      handle_all-append u title (started_at timeout start) before
        (silence ++ tick_at now ∷ after) in
    let (f, t) =
      after_silence u title timeout r silence after now enabled
        (all-Watched u title timeout (started_at timeout start) before (refl, inl refl)) stale
        passed in
    conclude_fired u (so_far u title timeout start (before ++ (silence ++ tick_at now ∷ after))) end
      timeout (ap (λ x. x.stall.fired) whole ∙ f) (ap (λ x. x.stall.timeout) whole ∙ t)

-- The moment at which the watchdog ends a rip, if it does.
abbrev Cause : Unicode → ℕ → ℕ → Ripping → List Happening → Type 0
Cause u title timeout r hs =
    (before : List Happening) × (now : ℕ) × (after : List Happening) × (hs
      ≡ before ++ tick_at now ∷ after)
    × (0 < timeout)
    × (timeout ≤ now - (handle_all u title r before).stall.last)

abbrev is_stall : RipError ⊎ ℕ → Bool
is_stall (inl (no_progress timeout summary)) = true
is_stall (inl _) = false
is_stall (inr n) = false

-- The watchdog looks for a stall only where there is a timeout, then between every second and every
-- thirty seconds, and, of a timeout of ten seconds or more, at least ten times before it is over.
check_interval_bounds :
    (s : StallTimer)
    → ((check_interval s ≡ 0) ↔ (s.timeout ≡ 0))
      × (0 < s.timeout → (a_second ≤ check_interval s) × (check_interval s ≤ 30 * a_second))
      × (10 * a_second ≤ s.timeout → 10 * check_interval s ≤ s.timeout)
unfolding check_interval
check_interval_bounds s = ground arith
