-- ===== src/Worker/Scan/Retry.antt =====
-- internal/daemon/worker.go: how many times a disc is scanned, and which attempt counts.
use hellbox.Base.{
  ℕ, zero, suc, ◌+◌, ◌<◌, ◌≡◌, refl, ◌∙◌, false, Option, some, arith, some_inj, inl, inr, ◌⊎◌,
}
use hellbox.Catalog.{Problem}
use hellbox.Worker.World.{World, ScanTry, ScanResult, Result, ok, err, Result-cases}
use hellbox.Worker.Scan.{has_left, after_failure, scan_from, scan_with_retry}

-- An attempt that failed while the disc was there and nobody stopped the work.
pub record IsRetryable (t : ScanTry) : Type 0 where
  pub problem : Problem
  pub failed : t.result ≡ err problem
  pub not_stopped : t.is_stopped ≡ false
  pub not_left : has_left t.left ≡ false
  pub not_stopped_waiting : t.is_stopped_waiting ≡ false

-- The attempts from the `n`-th on fail `k` times like that, and the next one gives a disc.
pub SucceedsAfter : World → ℕ → ℕ → ScanResult → Type 0
SucceedsAfter env n zero s = (env.scan n).result ≡ ok s
SucceedsAfter env n (suc k) s = IsRetryable (env.scan n) × SucceedsAfter env (n + 1) k s

after_failure-later :
    (t : ScanTry) (left : ℕ) (e : Problem) (later : Option (Result ScanResult))
    → IsRetryable t
    → 0 < left
    → (env : World) → after_failure env t left e later ≡ later
unfolding after_failure
after_failure-later t left e later r h env =
    ground (arith, r.not_stopped, r.not_left, r.not_stopped_waiting)

scan_from-first :
    (env : World) (k left n : ℕ) (s : ScanResult)
    → k < left
    → SucceedsAfter env n k s
    → scan_from env left n ≡ some (ok s)
unfolding scan_from SucceedsAfter
scan_from-first env k zero n s h f = absurd (omega arith)
scan_from-first env zero (suc left) n s h f = rw (f, scan_from) refl
scan_from-first env (suc k) (suc left) n s h (r, f) =
    let later = scan_from-first env k left (n + 1) s (omega arith) f in
    let try_again =
      after_failure-later (env.scan n) left r.problem (scan_from env left (n + 1)) r
        (omega arith) in
    rw (r.failed, scan_from) (try_again env ∙ later)

-- Some attempt of the next `left` ones from the `n`-th on gave the disc.
pub GivenBy : World → ℕ → ℕ → ScanResult → Type 0
GivenBy env zero n s = ⊥
GivenBy env (suc left) n s = ((env.scan n).result ≡ ok s) ⊎ GivenBy env left (n + 1) s

after_failure-ok :
    (env : World) (t : ScanTry) (left : ℕ) (e : Problem) (later : Option (Result ScanResult))
    (s : ScanResult)
    → after_failure env t left e later ≡ some (ok s)
    → later ≡ some (ok s)
unfolding after_failure
after_failure-ok env t left e later s h = ground arith

scan_from-given :
    (env : World) (left n : ℕ) (s : ScanResult)
    → scan_from env left n ≡ some (ok s)
    → GivenBy env left n s
unfolding scan_from GivenBy
scan_from-given env zero n s h = absurd (cc)
scan_from-given env (suc left) n s h = elim (Result-cases ((env.scan n).result)) [
  | inl (e, q) ↦ inr (
      scan_from-given env left (n + 1) s (
        after_failure-ok env (env.scan n) left e (scan_from env left (n + 1)) s
          (rw (q, scan_from) at h)))
  | inr (r, q) ↦ inl (q ∙ some_inj (rw (q, scan_from) at h))
]

-- A disc that can be read is read. If the attempts before some attempt within the configured number
-- fail with the disc in the drive and the work not stopped, and that attempt succeeds, its result
-- is the scan's; and a scan that gives a disc has it from an attempt within that number.
pub scan_retries :
    (env : World) (s : ScanResult)
    → ((k : ℕ)
        → k < env.config.scan_attempts
        → SucceedsAfter env 1 k s
        → scan_with_retry env ≡ some (ok s))
      × (scan_with_retry env ≡ some (ok s) → GivenBy env env.config.scan_attempts 1 s)
unfolding scan_with_retry
scan_retries env s = (
  λ k h f. scan_from-first env k env.config.scan_attempts 1 s h f,
  λ h. scan_from-given env env.config.scan_attempts 1 s h,
)
