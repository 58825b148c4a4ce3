-- ===== src/MakeMkv/Watch.antt =====
-- internal/makemkv: that the watchdog ends a rip without progress, and no other.
use hellbox.Base.{
  ℕ, ◌-◌, ◌≤◌, ◌<◌, Bool, true, false, not, ◌&&◌, ◌||◌, List, [], ◌∷◌, Option, none, some, ltb,
  ◌==◌, if◌then◌else◌, Text, codes, text_eq, ◌≡◌, refl, sym, subst, pair_inj, ap, ◌∙◌, arith,
  Bool-cases, inl, inr, ◌⊎◌, Unicode,
}
use hellbox.MakeMkv.Lines.{Line, parse_line}
use hellbox.MakeMkv.Stall.{StallTimer, observe, expired, same_marker}
use hellbox.MakeMkv.Rip.{
  Ripping, readings, with_values, heed, on_line, on_tick, stopped, Happening, line_at, tick_at,
  handle, handle_all,
}

-- A line that shows no progress: it is no line of values, or it repeats those that the timer has.
abbrev pub repeats : Unicode → StallTimer → Option Line → Bool
repeats u s none = true
repeats u s (some l) =
    not (text_eq l.kind (codes "PRGV")) || (s.seen && same_marker (readings u l) s.marker)

abbrev pub is_stale : Unicode → StallTimer → Happening → Bool
is_stale u s (line_at line now) = repeats u s (parse_line line)
is_stale u s (tick_at now) = true

-- A rip that the watchdog has ended, or that it watches by a timer.
abbrev pub Waiting : StallTimer → Ripping → Type 0
Waiting s r =
    ((r.stall.fired ≡ true) × (r.stall.timeout ≡ s.timeout)) ⊎ ((r.watched ≡ true) × (r.stall ≡ s))

heed_fired :
    (u : Unicode) (title : ℕ) (r : Ripping) (now : ℕ) (l : Option Line)
    → ((heed u title r now l).stall.fired ≡ r.stall.fired)
      × ((heed u title r now l).stall.timeout ≡ r.stall.timeout)
      × ((heed u title r now l).watched ≡ r.watched)
unfolding heed with_values observe
heed_fired u title r now none = (refl, refl, refl)
heed_fired u title r now (some l) = ground arith

heed_stale :
    (u : Unicode) (title : ℕ) (r : Ripping) (now : ℕ) (l : Option Line)
    → repeats u r.stall l ≡ true
    → (heed u title r now l).stall ≡ r.stall
unfolding heed with_values observe
heed_stale u title r now none h = refl
heed_stale u title r now (some l) h = ground arith

-- What a check of the timer yields: nothing, or the end, the timeout having passed since the last
-- progress.
abbrev Checked : StallTimer → ℕ → Bool × StallTimer → Type 0
Checked s now x =
    (x ≡ (false, s))
    ⊎ ((x.0 ≡ true)
        × (x.1.fired ≡ true)
        × (x.1.timeout ≡ s.timeout)
        × (0 < s.timeout)
        × (s.timeout ≤ now - s.last))

expired_checks : (s : StallTimer) (now : ℕ) → Checked s now (expired s now)
unfolding expired
expired_checks s now = elim (Bool-cases (s.timeout == 0)) [
  | inl z ↦ inl (rw z refl)
  | inr nz ↦ elim (Bool-cases (s.fired || ltb (now - s.last) s.timeout)) [
    | inl early ↦ inl (rw (nz, early) refl)
    | inr late ↦ inr (rw (nz, late) (refl, refl, refl, ground arith, ground arith))
  ]
]

-- What a tick does to a rip: nothing that is kept here, or its end.
abbrev pub Ticked : Ripping → ℕ → Ripping → Type 0
Ticked r now t =
    ((t.stall ≡ r.stall) × (t.watched ≡ r.watched))
    ⊎ ((t.stall.fired ≡ true)
        × (t.stall.timeout ≡ r.stall.timeout)
        × (0 < r.stall.timeout)
        × (r.stall.timeout ≤ now - r.stall.last))

stopped_ticks :
    (r : Ripping) (now : ℕ) (x : Bool × StallTimer)
    → Checked r.stall now x
    → Ticked r now (stopped r x)
stopped_ticks r now (false, s) (inl e) = inl ((pair_inj e).1, refl)
stopped_ticks r now (true, s) (inl e) = cc
stopped_ticks r now (false, s) (inr (fires, f, t, p, o)) = cc
stopped_ticks r now (true, s) (inr (fires, f, t, p, o)) = inr (f, t, p, o)

pub tick_ends : (r : Ripping) (now : ℕ) → Ticked r now (on_tick r now)
unfolding on_tick
tick_ends r now = go r.watched (expired r.stall now) (expired_checks r.stall now)
  where
    go :
        (b : Bool) (x : Bool × StallTimer)
        → Checked r.stall now x
        → Ticked r now (if b then stopped r x else r)
    go true x h = stopped_ticks r now x h
    go false x h = inl (refl, refl)

pub line_fired :
    (u : Unicode) (title : ℕ) (r : Ripping) (line : Text) (now : ℕ)
    → ((on_line u title r line now).stall.fired ≡ r.stall.fired)
      × ((on_line u title r line now).stall.timeout ≡ r.stall.timeout)
      × ((on_line u title r line now).watched ≡ r.watched)
unfolding on_line
line_fired u title r line now = heed_fired u title _ now (parse_line line)

step_waits :
    (u : Unicode) (title : ℕ) (s : StallTimer) (r : Ripping) (h : Happening)
    → is_stale u s h ≡ true
    → Waiting s r
    → Waiting s (handle u title r h)
unfolding on_line
step_waits u title s r (line_at line now) stale (inl (fired, same)) =
    let (f, t, w) = line_fired u title r line now in inl (f ∙ fired, t ∙ same)
step_waits u title s r (line_at line now) stale (inr (on, same)) =
    let (f, t, w) = line_fired u title r line now in
    inr (
      w ∙ on,
      heed_stale u title _ now (parse_line line)
            (subst (λ x. repeats u x (parse_line line) ≡ true) (sym same) stale)
          ∙ same,
    )
step_waits u title s r (tick_at now) stale h = elim h [
  | inl (fired, same) ↦ elim (tick_ends r now) [
    | inl (kept, w) ↦ inl (ap (λ x. x.fired) kept ∙ fired, ap (λ x. x.timeout) kept ∙ same)
    | inr (f, t, _, _) ↦ inl (f, t ∙ same)
  ]
  | inr (on, same) ↦ elim (tick_ends r now) [
    | inl (kept, w) ↦ inr (w ∙ on, kept ∙ same)
    | inr (f, t, _, _) ↦ inl (f, t ∙ ap (λ x. x.timeout) same)
  ]
]

abbrev pub all_stale : Unicode → StallTimer → List Happening → Bool
all_stale u s [] = true
all_stale u s (h ∷ hs) = is_stale u s h && all_stale u s hs

pub all_wait :
    (u : Unicode) (title : ℕ) (s : StallTimer) (r : Ripping) (hs : List Happening)
    → all_stale u s hs ≡ true
    → Waiting s r
    → Waiting s (handle_all u title r hs)
unfolding handle_all
all_wait u title s r [] stale w = w
all_wait u title s r (h ∷ hs) stale w =
    all_wait u title s (handle u title r h) hs (ground arith)
      (step_waits u title s r h (ground arith) w)

-- A rip that has been ended stays so.
pub all_ended :
    (u : Unicode) (title timeout : ℕ) (r : Ripping) (hs : List Happening)
    → (r.stall.fired ≡ true) × (r.stall.timeout ≡ timeout)
    → ((handle_all u title r hs).stall.fired ≡ true)
      × ((handle_all u title r hs).stall.timeout ≡ timeout)
unfolding handle_all
all_ended u title timeout r [] e = e
all_ended u title timeout r (line_at line now ∷ hs) e =
    let (f, t, w) = line_fired u title r line now in
    all_ended u title timeout (on_line u title r line now) hs (f ∙ e.0, t ∙ e.1)
all_ended u title timeout r (tick_at now ∷ hs) e = elim (tick_ends r now) [
  | inl (kept, w) ↦
      all_ended u title timeout (on_tick r now) hs
        (ap (λ x. x.fired) kept ∙ e.0, ap (λ x. x.timeout) kept ∙ e.1)
  | inr (f, t, _, _) ↦ all_ended u title timeout (on_tick r now) hs (f, t ∙ e.1)
]
