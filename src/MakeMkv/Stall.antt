-- ===== src/MakeMkv/Stall.antt =====
-- internal/makemkv/stall.go: the timer of a rip. Times and durations are nanoseconds; the mutex makes
-- each operation one step.
use hellbox.Base.{
  ℕ, ◌-◌, ◌*◌, ◌/◌, ◌^◌, Bool, true, false, ◌&&◌, ◌||◌, ltb, ◌==◌, if◌then◌else◌, ℤ, pos, negsuc,
}

pub record StallTimer : Type 0 where
  pub timeout : ℕ
  pub last : ℕ
  pub fired : Bool
  pub marker : ℤ × ℤ × ℤ
  pub seen : Bool

-- `newStallTimer`
abbrev pub new_stall_timer : ℕ → ℕ → StallTimer
new_stall_timer timeout now = record {
  timeout = timeout;
  last = now;
  fired = false;
  marker = (pos 0, pos 0, pos 0);
  seen = false;
}

unfoldable pub same_int : ℤ → ℤ → Bool
same_int (pos a) (pos b) = a == b
same_int (pos a) (negsuc b) = false
same_int (negsuc a) (pos b) = false
same_int (negsuc a) (negsuc b) = a == b

abbrev pub same_marker : ℤ × ℤ × ℤ → ℤ × ℤ × ℤ → Bool
same_marker (a, b, c) (x, y, z) = same_int a x && same_int b y && same_int c z

-- `stallTimer.observe`
unfoldable pub observe : StallTimer → ℤ × ℤ × ℤ → ℕ → StallTimer
unfolding same_int
observe s m now =
    if s.seen && same_marker m s.marker then s else record s { marker = m; seen = true; last = now }

-- `stallTimer.expired`
unfoldable pub expired : StallTimer → ℕ → Bool × StallTimer
expired s now =
    if s.timeout == 0
    then (false, s)
    else if s.fired || ltb (now - s.last) s.timeout
    then (false, s)
    else (true, record s { fired = true })

abbrev pub a_second : ℕ
a_second = 10 ^ 9

-- `stallTimer.checkInterval`
unfoldable pub check_interval : StallTimer → ℕ
check_interval s =
    if s.timeout == 0
    then 0
    else if ltb (s.timeout / 10) (30 * a_second)
    then if ltb (s.timeout / 10) a_second then a_second else s.timeout / 10
    else 30 * a_second
