-- ===== src/Verify.antt =====
-- internal/verify/verify.go: whether a file is what the disc said it would be. The tolerance is a quotient
-- of whole numbers; its product with a whole number of seconds is exact here and rounded in the code.
pub mod Lengths
mod Tests
use hellbox.Base.{
  ℕ, ◌+◌, ◌-◌, ◌*◌, Bool, true, false, not, ◌&&◌, ◌||◌, List, [], ◌∷◌, ◌++◌, Option, none, some,
  ltb, leb, ◌==◌, if◌then◌else◌, Text, codes, text_eq, filter, length, ◌⊎◌, inl, inr,
}

-- A tolerance, as a numerator and a denominator.
pub record Tolerance : Type 0 where
  pub over : ℕ
  pub under : ℕ

-- `DefaultTolerance`
abbrev pub default_tolerance : Tolerance
default_tolerance = record { over = 2; under = 100 }

-- `Verifier.tolerance`
abbrev pub tolerance_or_default : Tolerance → Tolerance
tolerance_or_default t = if t.over == 0 then default_tolerance else t

abbrev pub min_tolerance_secs : ℕ
min_tolerance_secs = 5

pub record Expectation : Type 0 where
  pub duration_secs : ℕ
  pub video : ℕ
  pub audio : ℕ
  pub subtitles : ℕ
  pub min_bytes : ℕ

-- What `checkMagic` reports.
pub data MagicError : Type 0 where
  not_opened : Text → MagicError
  unreadable : Text → MagicError
  not_matroska : MagicError

-- The problems that `Title` and `Disc` report, with the numbers that they quote.
pub data Problem : Type 0 where
  no_output_file : Problem
  below_floor : ℕ → ℕ → Problem
  bad_start : MagicError → Problem
  not_probed : Text → Problem
  too_short too_long : ℕ → ℕ → Problem
  streams_missing : Text → ℕ → ℕ → Problem
  across_disc : Problem → Problem

pub record Verdict : Type 0 where
  pub is_ok : Bool
  pub problems : List Problem
  pub duration_secs : ℕ
  pub size_bytes : ℕ

-- The difference of two durations.
abbrev pub apart : ℕ → ℕ → ℕ
apart a b = (a - b) + (b - a)

-- `diff <= allowed`, for the larger of the fraction and the fixed tolerance
abbrev pub is_within : Tolerance → ℕ → ℕ → Bool
is_within t got want =
    leb (apart got want * t.under) (want * t.over) || leb (apart got want) min_tolerance_secs

-- `durationProblem`
unfoldable pub duration_problem : Tolerance → ℕ → ℕ → Option Problem
duration_problem t got want =
    if is_within t got want
    then none
    else if ltb got want
    then some (too_short got want)
    else some (too_long got want)

-- What a probe finds: the duration in seconds and the kinds of the streams.
pub record Probe : Type 0 where
  pub duration_secs : ℕ
  pub kinds : List Text

-- `probeOut.counts`, of one kind
unfoldable pub count_of : Text → Probe → ℕ
unfolding text_eq
count_of kind p = length (filter (text_eq kind) p.kinds)

-- What there is at the path: the size, the error of opening it, what the first read gives, at most four
-- bytes, and the probe.
pub record Output : Type 0 where
  pub size_bytes : ℕ
  pub open_error : Option Text
  pub first_read : Text ⊎ List ℕ
  pub probe : Text ⊎ Probe

abbrev pub ebml_magic : List ℕ
ebml_magic = 0x1a ∷ 0x45 ∷ 0xdf ∷ 0xa3 ∷ []

-- The loop of `checkMagic`; what the read did not fill of the buffer is zero.
unfoldable pub has_magic : List ℕ → List ℕ → Bool
has_magic [] bytes = true
has_magic (m ∷ ms) [] = m == 0 && has_magic ms []
has_magic (m ∷ ms) (b ∷ bytes) = m == b && has_magic ms bytes

-- `checkMagic`
unfoldable pub check_magic : Output → Option MagicError
unfolding has_magic
check_magic o = elim (o.open_error) [
  | some e ↦ some (not_opened e)
  | none ↦ elim (o.first_read) [
    | inl e ↦ some (unreadable e)
    | inr bytes ↦ if has_magic ebml_magic bytes then none else some not_matroska
  ]
]

abbrev pub with_problem : Option Problem → List Problem → List Problem
with_problem none ps = ps
with_problem (some p) ps = p ∷ ps

-- The check of the count of one kind of stream
abbrev pub stream_problem : Text → ℕ → ℕ → Option Problem
stream_problem kind want got =
    if ltb 0 want && ltb got want then some (streams_missing kind want got) else none

-- The checks of what has been probed, all of them
unfoldable pub probe_problems : Tolerance → Expectation → Probe → List Problem
unfolding duration_problem count_of
probe_problems t want p =
    with_problem
      (if ltb 0 want.duration_secs
        then duration_problem t p.duration_secs want.duration_secs
        else none)
      (with_problem (stream_problem (codes "video") want.video (count_of (codes "video") p)) (
        with_problem (stream_problem (codes "audio") want.audio (count_of (codes "audio") p)) (
          with_problem
            (stream_problem (codes "subtitle") want.subtitles (count_of (codes "subtitle") p)) [])))

abbrev pub has_none : List Problem → Bool
has_none [] = true
has_none (p ∷ ps) = false

abbrev pub verdict_of : ℕ → Text ⊎ Probe → (Probe → List Problem) → Verdict
verdict_of size (inl e) check = record {
  is_ok = false;
  problems = not_probed e ∷ [];
  duration_secs = 0;
  size_bytes = size;
}
verdict_of size (inr p) check = record {
  is_ok = has_none (check p);
  problems = check p;
  duration_secs = p.duration_secs;
  size_bytes = size;
}

abbrev pub rejected : ℕ → Problem → Verdict
rejected size p = record { is_ok = false; problems = p ∷ []; duration_secs = 0; size_bytes = size }

abbrev pub after_magic : Tolerance → Expectation → Output → Option MagicError → Verdict
after_magic t want o (some e) = rejected o.size_bytes (bad_start e)
after_magic t want o none = verdict_of o.size_bytes o.probe (probe_problems t want)

-- `Verifier.Title`
unfoldable pub title : Tolerance → Expectation → Option Output → Verdict
unfolding probe_problems check_magic
title t want none = rejected 0 no_output_file
title t want (some o) =
    if ltb 0 want.min_bytes && ltb o.size_bytes want.min_bytes
    then rejected o.size_bytes (below_floor o.size_bytes want.min_bytes)
    else after_magic (tolerance_or_default t) want o (check_magic o)

abbrev pub total_secs : List Verdict → ℕ
total_secs [] = 0
total_secs (v ∷ vs) = v.duration_secs + total_secs vs

abbrev pub across : Option Problem → List Problem
across none = []
across (some p) = across_disc p ∷ []

-- `Verifier.Disc`
unfoldable pub disc : Tolerance → List Verdict → ℕ → List Problem
unfolding duration_problem
disc t results want =
    if ltb 0 want
    then across (duration_problem (tolerance_or_default t) (total_secs results) want)
    else []
