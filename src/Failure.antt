-- ===== src/Failure.antt =====
-- internal/disc/failure.go: the reading of a failure's message into a group. A message is one text whose
-- lines end with a line feed; lower case is that of a table of Unicode.
pub mod Benign
mod Tests
use hellbox.Base.{
  ℕ, Bool, true, false, List, [], ◌∷◌, ◌++◌, ◌==◌, if◌then◌else◌, any, Text, codes, Unicode, lower,
  has_part, join_with,
}

pub data FailureKind : Type 0 where
  aacs_key bd_plus region unreadable stalled no_space tooling : FailureKind
  cancelled title_mismatch other : FailureKind

-- The table `failurePatterns`, in its order
abbrev pub failure_patterns : List (FailureKind × Text)
failure_patterns =
    (cancelled, codes "cancelled")
    ∷ (cancelled, codes "context canceled")
    ∷ (aacs_key, codes "aacs")
    ∷ (aacs_key, codes "no valid processing key")
    ∷ (aacs_key, codes "unit key")
    ∷ (aacs_key, codes "vuk")
    ∷ (bd_plus, codes "bd+")
    ∷ (bd_plus, codes "bdplus")
    ∷ (region, codes "region")
    ∷ (region, codes "scrambled sector")
    ∷ (region, codes "css")
    ∷ (stalled, codes "no progress for")
    ∷ (stalled, codes "did not finish within")
    ∷ (no_space, codes "no space left")
    ∷ (no_space, codes "disk full")
    ∷ (tooling, codes "failed to execute external program")
    ∷ (tooling, codes "not on path")
    ∷ (tooling, codes "executable file not found")
    ∷ (tooling, codes "no such file or directory")
    ∷ (unreadable, codes "the disc is probably damaged")
    ∷ (unreadable, codes "a dvd vob cannot exceed")
    ∷ (unreadable, codes "medium not present")
    ∷ (unreadable, codes "input/output error")
    ∷ (unreadable, codes "failed to open disc")
    ∷ (unreadable, codes "no titles found")
    ∷ (unreadable, codes "cannot read")
    ∷ (unreadable, codes "unreadable")
    ∷ (title_mismatch, codes "refusing to rip a partial disc")
    ∷ (title_mismatch, codes "produced no output file")
    ∷ (title_mismatch, codes "titles saved, 1 failed")
    ∷ (title_mismatch, codes "was therefore skipped")
    ∷ []

-- The table `benignFragments`
abbrev pub benign_fragments : List Text
benign_fragments =
    codes "error cracking css key"
    ∷ codes "can't read name block"
    ∷ codes "probably not a dvd-rom device"
    ∷ codes "bd-j check: failed to load jvm"
    ∷ codes "vm configuration not found"
    ∷ []

-- `IsBenign`
unfoldable pub is_benign : Unicode → Text → Bool
unfolding has_part
is_benign u line = any (λ f. has_part f (lower u line)) benign_fragments

abbrev pub onto_first : ℕ → List Text → List Text
onto_first c [] = (c ∷ []) ∷ []
onto_first c (l ∷ ls) = (c ∷ l) ∷ ls

-- `strings.Split` at line feeds
unfoldable pub lines_of : Text → List Text
lines_of [] = [] ∷ []
lines_of (c ∷ s) = let rest = lines_of s in if c == 10 then [] ∷ rest else onto_first c rest

abbrev pub without_benign : Unicode → List Text → List Text
without_benign u [] = []
without_benign u (l ∷ ls) = if is_benign u l then without_benign u ls else l ∷ without_benign u ls

-- `StripBenign`
unfoldable pub strip_benign : Unicode → Text → Text
unfolding is_benign lines_of join_with
strip_benign u message = join_with 10 (without_benign u (lines_of message))

-- The loop of `ClassifyFailure`
unfoldable pub first_match : List (FailureKind × Text) → Text → FailureKind
unfolding has_part
first_match [] m = other
first_match ((kind, fragment) ∷ ps) m = if has_part fragment m then kind else first_match ps m

-- `ClassifyFailure`
unfoldable pub classify_failure : Unicode → Text → FailureKind
unfolding strip_benign first_match
classify_failure u message = first_match failure_patterns (lower u (strip_benign u message))

-- `FailureAdvice`
unfoldable pub failure_advice : FailureKind → Text
failure_advice aacs_key = codes "the disc is not in the AACS key database; try a newer KEYDB.cfg"
failure_advice bd_plus = codes "the disc uses BD+, which libbdplus handles incompletely"
failure_advice region = codes "the drive has no region set, so it will not decrypt this disc"
failure_advice no_space = codes "free some space and try again"
failure_advice tooling = codes "a program hellbox depends on is missing"
failure_advice stalled = codes "the disc stopped being read; it may be damaged"
failure_advice unreadable = codes "the drive could not read the disc; it may be dirty or damaged"
failure_advice title_mismatch = codes "the scan and the ripped source disagreed about the titles"
failure_advice cancelled = codes "stopped deliberately; nothing is wrong with the disc"
failure_advice other = []
