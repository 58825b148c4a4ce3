-- ===== src/Verify/Lengths.antt =====
-- internal/verify/verify.go: what a verdict says of a file and of a disc.
use hellbox.Base.{
  ℕ, ◌+◌, ◌*◌, ◌≤◌, ◌<◌, [], ◌∷◌, All, Option-cases, starts_with, ◌≡◌, refl, Bool, true, false,
  ◌&&◌, List, Option, none, some, arith, inl, inr, ◌⊎◌, Bool-cases, Text, codes, ltb, leb,
  if◌then◌else◌,
}
use hellbox.Verify.{
  MagicError, ebml_magic, has_magic, check_magic, default_tolerance, Expectation, Output, Probe,
  Problem, duration_problem, is_within, count_of, probe_problems, title, after_magic, verdict_of,
  stream_problem, with_problem, has_none, rejected, below_floor,
}

Sum-cases : {A B : Type 0} (s : A ⊎ B) → ((a : A) × (s ≡ inl a)) ⊎ ((b : B) × (s ≡ inr b))
Sum-cases (inl a) = inl (a, refl)
Sum-cases (inr b) = inr (b, refl)

duration_ok :
    (got want : ℕ)
    → duration_problem default_tolerance got want ≡ none
    → (want * 98 ≤ got * 100) ⊎ (want ≤ got + 5)
unfolding duration_problem
duration_ok got want h = elim (Bool-cases (is_within default_tolerance got want)) [
  | inr e ↦ absurd (ground arith)
  | inl e ↦ elim (Bool-cases (leb got want)) [
    | inl less ↦ elim (Bool-cases (leb want (got + 5))) [
      | inl near ↦ inr (ground arith)
      | inr far ↦ inl (ground arith)
    ]
    | inr more ↦ inr (ground arith)
  ]
]

none_with :
    (o : Option Problem) (ps : List Problem)
    → has_none (with_problem o ps) ≡ true
    → (o ≡ none) × (has_none ps ≡ true)
none_with none ps h = (refl, h)
none_with (some p) ps h = cc

stream_ok : (kind : Text) (want got : ℕ) → stream_problem kind want got ≡ none → want ≤ got
stream_ok kind want got h = ground arith

-- What a file is, of which a probe finds no problem.
abbrev pub IsWhole : Expectation → Probe → Type 0
IsWhole want p =
    ((want.duration_secs * 98 ≤ p.duration_secs * 100) ⊎ (want.duration_secs ≤ p.duration_secs + 5))
    × (want.video ≤ count_of (codes "video") p)
    × (want.audio ≤ count_of (codes "audio") p)
    × (want.subtitles ≤ count_of (codes "subtitle") p)

duration_checked :
    (got want : ℕ)
    → (if ltb 0 want then duration_problem default_tolerance got want else none) ≡ none
    → (want * 98 ≤ got * 100) ⊎ (want ≤ got + 5)
duration_checked got want h = elim (Bool-cases (ltb 0 want)) [
  | inl e ↦ duration_ok got want (rw e at h)
  | inr e ↦ inl (ground arith)
]

probe_ok :
    (want : Expectation) (p : Probe)
    → has_none (probe_problems default_tolerance want p) ≡ true
    → IsWhole want p
unfolding probe_problems
probe_ok want p h =
    let (d, h1) = none_with _ _ h in
    let (v, h2) = none_with _ _ h1 in
    let (a, h3) = none_with _ _ h2 in
    let (s, h4) = none_with _ _ h3 in
    (
      duration_checked p.duration_secs want.duration_secs d,
      stream_ok (codes "video") want.video (count_of (codes "video") p) v,
      stream_ok (codes "audio") want.audio (count_of (codes "audio") p) a,
      stream_ok (codes "subtitle") want.subtitles (count_of (codes "subtitle") p) s,
    )

magic_ok :
    (want : Expectation) (o : Output) (m : Option MagicError)
    → (after_magic default_tolerance want o m).is_ok ≡ true
    → (m ≡ none) × ((p : Probe) × (o.probe ≡ inr p) × IsWhole want p)
magic_ok want o (some e) h = cc
magic_ok want o none h = (refl, go o.probe h)
  where
    go :
        (x : Text ⊎ Probe)
        → (verdict_of o.size_bytes x (probe_problems default_tolerance want)).is_ok ≡ true
        → (p : Probe) × (x ≡ inr p) × IsWhole want p
    go (inl e) h = cc
    go (inr p) h = (p, refl, probe_ok want p h)

-- A file can be opened, and the bytes that its first read gives begin with the magic.
abbrev pub StartsAsMatroska : Output → Type 0
StartsAsMatroska o =
    (o.open_error ≡ none)
    × ((bytes : List ℕ) × (o.first_read ≡ inr bytes) × (starts_with ebml_magic bytes ≡ true))

-- What the zeros of a short read cannot stand for has been read.
has_magic-starts_with :
    (magic bytes : List ℕ)
    → All (λ m. 0 < m) magic
    → has_magic magic bytes ≡ true
    → starts_with magic bytes ≡ true
unfolding has_magic
has_magic-starts_with [] bytes h k = refl
has_magic-starts_with (m ∷ ms) [] h k = absurd (ground (arith, h.0))
has_magic-starts_with (m ∷ ms) (b ∷ bs) h k = ground (arith, has_magic-starts_with ms bs h.1)

magic_positive : All (λ m. 0 < m) ebml_magic
magic_positive = (omega arith, (omega arith, (omega arith, (omega arith, tt))))

magic_checked : (o : Output) → check_magic o ≡ none → StartsAsMatroska o
unfolding check_magic
magic_checked o h = elim (Option-cases o.open_error) [
  | inr (e, q) ↦ absurd (cc (rw (q, check_magic) at h))
  | inl q ↦ elim (Sum-cases o.first_read) [
    | inl (e, r) ↦ absurd (cc (rw (q, r, check_magic) at h))
    | inr (bytes, r) ↦
        let all : has_magic ebml_magic bytes ≡ true = ground (arith, rw (q, r, check_magic) at h) in
        (q, (bytes, r, has_magic-starts_with ebml_magic bytes magic_positive all))
  ]
]

-- A file that passes at the default tolerance is whole: it is there, not below its floor, begins with
-- the magic of Matroska, can be probed, runs for 98 per cent of what the disc said or at most five seconds less,
-- and has at least the streams of each kind that were asked for.
pub passed-IsWhole :
    (want : Expectation) (o : Option Output)
    → (title default_tolerance want o).is_ok ≡ true
    → (out : Output) × (p : Probe) × (o ≡ some out)
      × (want.min_bytes ≤ out.size_bytes)
      × StartsAsMatroska out
      × (out.probe ≡ inr p)
      × IsWhole want p
unfolding title
passed-IsWhole want none h = cc
passed-IsWhole want (some out) h =
    go (ltb 0 want.min_bytes && ltb out.size_bytes want.min_bytes) refl h
  where
    go :
        (b : Bool)
        → (ltb 0 want.min_bytes && ltb out.size_bytes want.min_bytes) ≡ b
        → (if b
            then rejected out.size_bytes (below_floor out.size_bytes want.min_bytes)
            else after_magic default_tolerance want out (check_magic out)).is_ok
          ≡ true
        → (o : Output) × (p : Probe) × (some out ≡ some o)
          × (want.min_bytes ≤ o.size_bytes)
          × StartsAsMatroska o
          × (o.probe ≡ inr p)
          × IsWhole want p
    go true e k = cc
    go false e k =
        let (m, (p, same, whole)) = magic_ok want out (check_magic out) k in
        (out, p, refl, ground arith, magic_checked out m, same, whole)
