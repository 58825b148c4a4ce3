-- ===== src/Config/Bounds.antt =====
-- internal/config/config.go with internal/daemon/worker.go: what a configuration that has been validated
-- gives the worker.
use hellbox.Base.{
  ℕ, zero, suc, ◌+◌, ◌<◌, ◌≡◌, refl, subst, Bool, true, false, not, List, [], ◌∷◌, Option, none,
  some, arith, inl, inr, ◌⊎◌, pos, ltb, ◌==◌, if◌then◌else◌, codes,
}
use hellbox.Catalog.{Problem, disc_gone, was_cancelled}
use hellbox.Config.{
  Config, defaults, Fault, checks, validate, first_fault, fault_if, is_positive, not_positive,
}
use hellbox.Worker.World.{World, ScanTry, ScanResult, Result, err, Result-cases}
use hellbox.Worker.Scan.{has_left, give_up, after_failure, scan_from, scan_with_retry}

-- No check of the list has a fault.
abbrev AllClear : List (Option Fault) → Type 0
AllClear [] = Unit
AllClear (o ∷ os) = (o ≡ none) × AllClear os

first_fault-none : (os : List (Option Fault)) → first_fault os ≡ none → AllClear os
first_fault-none [] h = tt
first_fault-none (some f ∷ os) h = absurd (cc)
first_fault-none (none ∷ os) h = (refl, first_fault-none os h)

positive_of : (n : ℕ) (f : Fault) → fault_if (not (ltb 0 n)) f ≡ none → 0 < n
positive_of n f h = ground arith

-- A validated configuration allows at least one attempt of a rip and of a scan.
valid_attempts :
    (c : Config) (rips scans : ℕ)
    → validate c ≡ none
    → c.max_rip_attempts ≡ pos rips
    → c.scan_attempts ≡ pos scans
    → (0 < rips) × (0 < scans)
unfolding validate checks
valid_attempts c rips scans h r s =
    let (_, (_, (_, (_, (rip, (scan, _)))))) : AllClear (checks c) =
      first_fault-none (checks c) h in
    (
      positive_of rips _ (
          subst
            (λ z. fault_if (not (is_positive z)) (not_positive (codes "max_rip_attempts")) ≡ none) r
            rip),
      positive_of scans _ (
          subst (λ z. fault_if (not (is_positive z)) (not_positive (codes "scan_attempts")) ≡ none)
            s scan),
    )

abbrev Given : Option (Result ScanResult) → Type 0
Given o = (r : Result ScanResult) × (o ≡ some r)

after_failure-Given :
    (env : World) (t : ScanTry) (left : ℕ) (e : Problem) (later : Option (Result ScanResult))
    → (left ≡ 0) ⊎ Given later
    → Given (after_failure env t left e later)
unfolding after_failure
after_failure-Given env t left e later h =
    go t.is_stopped (has_left t.left) (left == 0) t.is_stopped_waiting
      (elim h [ inl z ↦ inl (ground (arith, z)) | inr g ↦ inr g ])
  where
    go :
        (a b c d : Bool)
        → (c ≡ true) ⊎ Given later
        → Given (
            if a
            then some (err was_cancelled)
            else if b
            then some (err disc_gone)
            else if c
            then some (err (give_up env e))
            else if d
            then some (err e)
            else later)
    go true b c d h = (_, refl)
    go false true c d h = (_, refl)
    go false false true d h = (_, refl)
    go false false false true h = (_, refl)
    go false false false false (inl z) = absurd (cc)
    go false false false false (inr g) = g

scan_from-Given : (env : World) (left n : ℕ) → 0 < left → Given (scan_from env left n)
unfolding scan_from
scan_from-Given env zero n h = absurd (omega arith)
scan_from-Given env (suc zero) n h = elim (Result-cases (env.scan n).result) [
  | inr (s, e) ↦ rw (e, scan_from) (_, refl)
  | inl (p, e) ↦ rw (e, scan_from) (after_failure-Given env (env.scan n) 0 p none (inl refl))
]
scan_from-Given env (suc (suc left)) n h =
    let later = scan_from-Given env (suc left) (n + 1) (omega arith) in
    elim (Result-cases (env.scan n).result) [
      | inr (s, e) ↦ rw (e, scan_from) (_, refl)
      | inl (p, e) ↦
          rw (e, scan_from)
            (after_failure-Given env (env.scan n) (suc left) p (scan_from env (suc left) (n + 1))
              (inr later))
    ]

-- With a configuration that has been validated, scanning a disc always ends with a result, a disc or an
-- error: the loop of attempts is never empty.
pub valid_scan_gives :
    (c : Config) (env : World)
    → validate c ≡ none
    → c.scan_attempts ≡ pos env.config.scan_attempts
    → c.max_rip_attempts ≡ pos env.config.max_rip_attempts
    → (r : Result ScanResult) × (scan_with_retry env ≡ some r)
unfolding scan_with_retry
valid_scan_gives c env h scans rips =
    scan_from-Given env env.config.scan_attempts 1
      (valid_attempts c env.config.max_rip_attempts env.config.scan_attempts h rips scans).1

-- The defaults with other numbers of attempts.
abbrev pub defaults_with : ℕ → ℕ → Config
defaults_with rips scans = record defaults {
  max_rip_attempts = pos rips;
  scan_attempts = pos scans;
}
