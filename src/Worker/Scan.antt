-- ===== src/Worker/Scan.antt =====
-- internal/daemon/worker.go: `scanWithRetry`, and the errors that it tells apart.
pub mod Retry
use hellbox.Base.{
  ℕ, zero, suc, ◌+◌, Bool, true, false, Option, none, some, ltb, ◌==◌, if◌then◌else◌,
}
use hellbox.Catalog.{
  Problem, disc_gone, was_cancelled, context_canceled, after_attempts, in_title, in_step,
}
use hellbox.Worker.World.{World, ScanTry, ScanResult, Result, ok, err}

-- `errors.Is` with each of the errors that are told apart: it looks through the errors that wrap.
unfoldable pub is_gone : Problem → Bool
is_gone disc_gone = true
is_gone (after_attempts p n) = is_gone p
is_gone (in_title i p) = is_gone p
is_gone (in_step s p) = is_gone p
is_gone _ = false

unfoldable pub is_cancellation : Problem → Bool
is_cancellation was_cancelled = true
is_cancellation (after_attempts p n) = is_cancellation p
is_cancellation (in_title i p) = is_cancellation p
is_cancellation (in_step s p) = is_cancellation p
is_cancellation _ = false

unfoldable pub is_context_end : Problem → Bool
is_context_end context_canceled = true
is_context_end (after_attempts p n) = is_context_end p
is_context_end (in_title i p) = is_context_end p
is_context_end (in_step s p) = is_context_end p
is_context_end _ = false

-- What `discGone` answers; an error is not an answer that the disc has left.
unfoldable pub has_left : Result Bool → Bool
has_left (ok b) = b
has_left (err e) = false

-- The error after the last attempt.
unfoldable pub give_up : World → Problem → Problem
give_up env e =
    if ltb 1 env.config.scan_attempts then after_attempts e env.config.scan_attempts else e

-- What follows a failed attempt with `left` attempts to come.
unfoldable pub after_failure :
    World → ScanTry → ℕ → Problem → Option (Result ScanResult) → Option (Result ScanResult)
after_failure env t left e later =
    if t.is_stopped
    then some (err was_cancelled)
    else if has_left t.left
    then some (err disc_gone)
    else if left == 0
    then some (err (give_up env e))
    else if t.is_stopped_waiting
    then some (err e)
    else later

-- The loop of `scanWithRetry` from an attempt on; `none` is a loop that makes no attempt.
unfoldable pub scan_from : World → ℕ → ℕ → Option (Result ScanResult)
scan_from env zero n = none
scan_from env (suc left) n =
    let later = scan_from env left (n + 1) in
    elim ((env.scan n).result) [
      | ok r ↦ some (ok r)
      | err e ↦ after_failure env (env.scan n) left e later
    ]

-- `scanWithRetry`, and with it `scanDisc`
unfoldable pub scan_with_retry : World → Option (Result ScanResult)
scan_with_retry env = scan_from env env.config.scan_attempts 1
