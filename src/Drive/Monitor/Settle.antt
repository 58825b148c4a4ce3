-- ===== src/Drive/Monitor/Settle.antt =====
-- internal/drive/monitor.go: what the events of a monitor tell, whatever the drive answers.
use hellbox.Base.{ℕ, ◌-◌, ◌≤◌, ◌≡◌, ◌≢◌, ◌⊎◌, refl, true, false, List, [], ◌∷◌, some, arith}
use hellbox.Drive.Sense.{Status, unknown}
use hellbox.Drive.Monitor.{
  Reading, read, failed, Event, Monitor, Poll, is_transient, tick, History, polled, cons?,
  status_eq_iff,
}

-- Each event starts from where the one before it ended, the first from `unknown`; all but the
-- first are a change; and the last ended in the status `s`.
abbrev pub Chained : Status → List Event → Type 0
Chained s [] = s ≡ unknown
Chained s (ev ∷ []) = (ev.to ≡ s) × (ev.from ≡ unknown)
Chained s (ev ∷ before ∷ evs) = (ev.to ≡ s) × (ev.from ≢ ev.to) × Chained ev.from (before ∷ evs)

record Inv (m : Monitor) (p : Poll) (h : History) (evs : List Event) : Type 0 where
  chained : Chained p.current evs
  begun : p.started ≡ false → evs ≡ []
  sent : p.started ≡ true → evs ≢ []

tick-Chained :
    (m : Monitor) (p : Poll) (h : History) (evs : List Event) (now : ℕ) (r : Reading)
    → Inv m p h evs
    → Inv m (tick m p now r).0 ((now, r) ∷ h) (cons? (tick m p now r).1 evs)
unfolding tick
tick-Chained m p h [] now (failed e) v = ground (arith, status_eq_iff p.current unknown)
tick-Chained m p h [] now (read s) v = ground (arith, status_eq_iff s p.current)
tick-Chained m p h (ev ∷ evs) now (failed e) v = ground (arith, status_eq_iff p.current unknown)
tick-Chained m p h (ev ∷ evs) now (read s) v = ground (arith, status_eq_iff s p.current)

polled-Inv : (m : Monitor) (h : History) → Inv m (polled m h).0 h (polled m h).1
unfolding polled
polled-Inv m [] = record { chained = refl; begun = λ _. refl; sent = λ e. absurd (cc) }
polled-Inv m ((now, r) ∷ h) = tick-Chained m (polled m h).0 h (polled m h).1 now r (polled-Inv m h)

-- What the newest reading of a history says of the current status: an error makes it unknown, and
-- a status that is not transient is believed at once.
abbrev pub Believed : History → Status → Type 0
Believed [] s = s ≡ unknown
Believed ((now, failed e) ∷ h) s = s ≡ unknown
Believed ((now, read new) ∷ h) s = is_transient new ≡ false → s ≡ new

tick-Believed :
    (m : Monitor) (p : Poll) (h : History) (now : ℕ) (r : Reading)
    → Believed ((now, r) ∷ h) (tick m p now r).0.current
unfolding tick
tick-Believed m p h now (failed e) = ground (arith, status_eq_iff p.current unknown)
tick-Believed m p h now (read s) = ground (arith, status_eq_iff s p.current)

polled-Believed : (m : Monitor) (h : History) → Believed h (polled m h).0.current
unfolding polled
polled-Believed m [] = refl
polled-Believed m ((now, r) ∷ h) = tick-Believed m (polled m h).0 h now r

tick-started : (m : Monitor) (p : Poll) (now : ℕ) (r : Reading) → (tick m p now r).0.started ≡ true
unfolding tick
tick-started m p now (failed e) = ground arith
tick-started m p now (read s) = ground arith

polled-started : (m : Monitor) (h : History) → h ≢ [] → (polled m h).0.started ≡ true
unfolding polled
polled-started m [] e = absurd (e refl)
polled-started m ((now, r) ∷ h) e = tick-started m (polled m h).0 now r

-- A client that follows the events of a monitor knows the drive: after every history of readings
-- the events chain from `unknown` to the monitor's current status, all but the first of them a
-- change; the first reading already sends one; and the current status is unknown if the newest
-- reading is an error, and the one read if that is not a transient status.
pub polled_reports :
    (m : Monitor) (h : History)
    → Chained (polled m h).0.current (polled m h).1
      × (h ≢ [] → (polled m h).1 ≢ [])
      × Believed h (polled m h).0.current
polled_reports m h =
    let v = polled-Inv m h in (v.chained, λ e. v.sent (polled-started m h e), polled-Believed m h)

-- The newest readings of a history all have the status `s`, back to one at the time `t`.
abbrev pub Streak : Status → ℕ → History → Type 0
Streak s t [] = ⊥
Streak s t ((now, r) ∷ h) = (r ≡ read s) × ((now ≡ t) ⊎ Streak s t h)

abbrev IsPendingSince : Poll → History → Type 0
IsPendingSince p h =
    is_transient p.pending ≡ true → p.pending ≢ p.current → Streak p.pending p.pending_at h

tick-IsPendingSince :
    (m : Monitor) (p : Poll) (h : History) (now : ℕ) (r : Reading)
    → IsPendingSince p h
    → IsPendingSince (tick m p now r).0 ((now, r) ∷ h)
unfolding tick
tick-IsPendingSince m p h now (failed e) v = ground (arith, status_eq_iff p.current unknown)
tick-IsPendingSince m p h now (read s) v =
    ground (arith, status_eq_iff s p.current, status_eq_iff p.pending s)

polled-IsPendingSince : (m : Monitor) (h : History) → IsPendingSince (polled m h).0 h
unfolding polled
polled-IsPendingSince m [] = λ t n. absurd (n refl)
polled-IsPendingSince m ((now, r) ∷ h) =
    tick-IsPendingSince m (polled m h).0 h now r (polled-IsPendingSince m h)

tick_transient :
    (m : Monitor) (p : Poll) (h : History) (now : ℕ) (s : Status) {ev : Event}
    → IsPendingSince p h
    → p.started ≡ true
    → is_transient s ≡ true
    → (tick m p now (read s)).1 ≡ some ev
    → Streak s p.pending_at h × (m.settle ≤ now - p.pending_at)
unfolding tick
tick_transient m p h now s v st t e =
    ground (arith, status_eq_iff s p.current, status_eq_iff p.pending s)

-- A transient status is reported only when it has lasted: if a reading of it, other than the very
-- first reading, sends an event, then the readings before it were of that status without a break
-- since some time at least `settle` before.
pub transient_settles :
    (m : Monitor) (earlier : History) (now : ℕ) (s : Status) {ev : Event}
    → earlier ≢ []
    → is_transient s ≡ true
    → (tick m (polled m earlier).0 now (read s)).1 ≡ some ev
    → (t : ℕ) × Streak s t earlier × (m.settle ≤ now - t)
transient_settles m earlier now s n t e =
    let p = (polled m earlier).0 in
    let (streak, long) =
      tick_transient m p earlier now s (polled-IsPendingSince m earlier)
        (polled-started m earlier n) t e in
    (p.pending_at, streak, long)
