-- ===== src/Worker/Source.antt =====
-- internal/daemon/worker.go: where the titles of a disc are read from, and the directory and the
-- checks of a rip.
use hellbox.Base.{
  ℕ, zero, suc, ◌+◌, ◌-◌, ◌*◌, Bool, false, not, ◌&&◌, List, [], ◌∷◌, Option, none, some, ltb, ◌==◌,
  if◌then◌else◌, any, Text, codes, text_eq,
}
use hellbox.Catalog.{
  Problem, was_cancelled, fallback_off, too_many_directories, reported, in_step, Disc, Title,
}
use hellbox.Drive.Region.{playable_in}
use hellbox.Worker.Status.{decrypting, set_progress}
use hellbox.Worker.World.{World, Worker, Result, ok, err, Output, made, exists, refused, to_state}

-- `totalSecs`
unfoldable pub total_secs : List Title → ℕ
total_secs [] = 0
total_secs (t ∷ ts) = t.duration_secs + total_secs ts

-- The loop of `dedupedSecs`, with the durations seen so far.
unfoldable pub deduped_from : List ℕ → List Title → ℕ
deduped_from seen [] = 0
deduped_from seen (t ∷ ts) =
    let skipped = deduped_from seen ts in
    let counted = t.duration_secs + deduped_from (t.duration_secs ∷ seen) ts in
    if any (λ d. d == t.duration_secs) seen then skipped else counted

-- `dedupedSecs`
unfoldable pub deduped_secs : List Title → ℕ
deduped_secs ts = deduped_from [] ts

abbrev pub min_kept_percent : ℕ
min_kept_percent = 60

-- The test of `rip` that refuses a copy which holds too little of the disc.
unfoldable pub is_partial : List Title → List Title → Bool
is_partial copy disc =
    ltb 0 (deduped_secs disc) && ltb (total_secs copy * 100) (deduped_secs disc * min_kept_percent)

-- `decryptNeeded`: a drive that does not answer is taken for one that can read the disc.
unfoldable pub decrypt_needed : World → Bool
decrypt_needed env = elim (env.region) [
  | err e ↦ false
  | ok r ↦ elim (env.protection) [ err e ↦ false | ok p ↦ not (playable_in p r) ]
]

pub data Source : Type 0 where
  device folder : Source

unfoldable pub mirrored : World → Worker → Result Source × Worker
mirrored env w =
    let w' = to_state env w decrypting in
    let shown = record w' { status = set_progress w'.status 0 0 (codes "decrypting") } in
    elim (env.mirror_error) [
      | none ↦ (ok folder, shown)
      | some e ↦
          if env.is_stopped_in_mirror
          then (err was_cancelled, shown)
          else (err (in_step (codes "decrypting the disc to disk") e), shown)
    ]

-- `ripSource`
unfoldable pub rip_source : World → Worker → Result Source × Worker
rip_source env w =
    if env.config.native_dvd
    then (ok device, w)
    else if not (decrypt_needed env)
    then (ok device, w)
    else if not env.config.decrypt_fallback
    then (err fallback_off, w)
    else elim (env.decrypter_error) [
      | some e ↦ (err (in_step (codes "cannot be decrypted to disk either") e), w)
      | none ↦ if env.has_copy then (ok folder, w) else mirrored env w
    ]

-- The loop of `makeRipDir` with a candidate, and as many more names to try.
unfoldable pub next_dir : World → Text → ℕ → Text → Result Text
next_dir env base zero candidate = elim (env.mkdir candidate) [
  | made ↦ ok candidate
  | refused e ↦ err (in_step (codes "create rip directory") e)
  | exists ↦ if env.is_empty_dir candidate then ok candidate else err too_many_directories
]
next_dir env base (suc n) candidate =
    let later = next_dir env base n (env.directory (50 - n) base) in
    elim (env.mkdir candidate) [
      | made ↦ ok candidate
      | refused e ↦ err (in_step (codes "create rip directory") e)
      | exists ↦ if env.is_empty_dir candidate then ok candidate else later
    ]

-- `makeRipDir`: the names that it tries are the base and those numbered 2 to 50.
unfoldable pub make_rip_dir : World → Disc → Result Text
make_rip_dir env d = next_dir env (env.base_dir d) 49 (env.base_dir d)

abbrev pub ebml_magic : List ℕ
ebml_magic = 0x1a ∷ 0x45 ∷ 0xdf ∷ 0xa3 ∷ []

-- `verifyOutput` of verify.go
unfoldable pub verify_output : Output → ℕ → Option Problem
verify_output o least = elim (o.stat) [
  | err e ↦ some (in_step (codes "output missing") e)
  | ok size ↦
      if ltb size least
      then some (reported (codes "output is below the floor for a real title"))
      else elim (o.open_error) [
        | some e ↦ some (in_step (codes "open output") e)
        | none ↦ elim (o.header) [
          | err e ↦ some (in_step (codes "read output header") e)
          | ok bytes ↦
              if text_eq bytes ebml_magic
              then none
              else some (reported (codes "output is not a Matroska file"))
        ]
      ]
]
