-- ===== src/Drive/Monitor.antt =====
-- internal/drive/monitor.go: the polling loop. Its variables are a record, one round of the loop is
-- `tick`, and time is a number of nanoseconds. A history lists the rounds, the newest first.
pub mod Settle
use hellbox.Base.{
  ℕ, ◌+◌, ◌-◌, ◌*◌, Bool, true, false, not, ◌&&◌, ◌||◌, List, [], ◌∷◌, Option, none, some, ltb, leb,
  ◌==◌, if◌then◌else◌, Text, ◌≡◌, ◌↔◌, arith,
}
use hellbox.Drive.Sense.{Status, unknown, no_disc, tray_open, not_ready, disc_ok, incompatible}

-- `Drive` of internal/drive/drive.go.
pub record Device : Type 0 where
  pub stable_id : Text
  pub device_path : Text
  pub vendor : Text
  pub model : Text

-- The constant that a status is, and the comparison of two.
status_code : Status → ℕ
status_code unknown = 0
status_code no_disc = 1
status_code tray_open = 2
status_code not_ready = 3
status_code disc_ok = 4
status_code incompatible = 5

unfoldable pub status_eq : Status → Status → Bool
unfolding status_code
status_eq s t = status_code s == status_code t

pub status_eq_iff : (s t : Status) → (status_eq s t ≡ true) ↔ (s ≡ t)
unfolding status_eq
status_eq_iff s t = (λ h. ground arith, λ h. ground arith)

-- What `drive.Status()` answers: a status, or an error with its message.
pub data Reading : Type 0 where
  read : Status → Reading
  failed : Text → Reading

pub record Event : Type 0 where
  pub device : Device
  pub from : Status
  pub to : Status
  pub at : ℕ
  pub error : Option Text

pub record Monitor : Type 0 where
  pub device : Device
  pub interval : ℕ
  pub settle : ℕ

abbrev pub second : ℕ
second = 1000000000

-- `NewMonitor`; an interval that is not positive selects two seconds.
unfoldable pub new_monitor : Device → ℕ → Monitor
new_monitor d interval = record {
  device = d;
  interval = if interval == 0 then 2 * second else interval;
  settle = 3 * second;
}

-- The variables of the loop.
pub record Poll : Type 0 where
  pub current : Status
  pub pending : Status
  pub pending_at : ℕ
  pub started : Bool

abbrev pub initial : Poll
initial = record { current = unknown; pending = unknown; pending_at = 0; started = false }

-- A status through which a drive passes while a tray closes and a disc spins up.
abbrev pub is_transient : Status → Bool
is_transient not_ready = true
is_transient unknown = true
is_transient _ = false

-- `emit`
abbrev emit : Monitor → Poll → ℕ → Status → Option Text → Poll × Option Event
emit m p now to error = (
  record p { current = to },
  some (record { device = m.device; from = p.current; to = to; at = now; error = error }),
)

-- The end of a round that believes the status.
abbrev believe : Monitor → Poll → ℕ → Status → Poll × Option Event
believe m p now s = emit m (record p { pending = s }) now s none

-- One round of the loop in `Run`, at the time `now`.
unfoldable pub tick : Monitor → Poll → ℕ → Reading → Poll × Option Event
tick m p now (failed e) =
    if not (status_eq p.current unknown) || not p.started
    then emit m (record p { started = true; pending = unknown }) now unknown (some e)
    else (record p { pending = unknown }, none)
tick m p now (read s) =
    if not p.started
    then emit m (record p { started = true; current = unknown; pending = s }) now s none
    else if status_eq s p.current
    then (record p { pending = s }, none)
    else if is_transient s
    then (if not (status_eq p.pending s)
        then (record p { pending = s; pending_at = now }, none)
        else if ltb (now - p.pending_at) m.settle
        then (p, none)
        else believe m p now s)
    else believe m p now s

abbrev pub History : Type 0
History = List (ℕ × Reading)

abbrev pub cons? : Option Event → List Event → List Event
cons? none evs = evs
cons? (some ev) evs = ev ∷ evs

-- The loop after the rounds of a history: its variables, and the events sent, newest first.
unfoldable pub polled : Monitor → History → Poll × List Event
polled m [] = (initial, [])
polled m ((now, r) ∷ earlier) =
    let (p, evs) = polled m earlier in let (p', ev) = tick m p now r in (p', cons? ev evs)
