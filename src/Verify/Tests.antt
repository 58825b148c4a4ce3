-- ===== src/Verify/Tests.antt =====
-- An episode that is whole, and a disc of which one is missing.
use hellbox.Base.{◌≡◌, ◌≤◌, refl, true, [], ◌∷◌, none, some, inr, codes, text_eq}
use hellbox.Verify.{
  ebml_magic, has_magic, check_magic, not_matroska, default_tolerance, Expectation, Output, Probe,
  duration_problem, count_of, probe_problems, title, disc, across_disc, too_short,
}
use hellbox.Verify.Lengths.{IsWhole, StartsAsMatroska, passed-IsWhole}

abbrev wanted : Expectation
wanted = record { duration_secs = 2600; video = 1; audio = 2; subtitles = 0; min_bytes = 1000 }

abbrev probed : Probe
probed = record { duration_secs = 2590; kinds = codes "video" ∷ codes "audio" ∷ codes "audio" ∷ [] }

abbrev output : Output
output = record {
  size_bytes = 700000;
  open_error = none;
  first_read = inr ebml_magic;
  probe = inr probed;
}

-- A file whose last byte of the magic is missing.
short_read :
    check_magic (record output { first_read = inr (0x1a ∷ 0x45 ∷ 0xdf ∷ []) }) ≡ some not_matroska
unfolding check_magic has_magic
short_read = refl

output_passes : (title default_tolerance wanted (some output)).is_ok ≡ true
unfolding title check_magic has_magic probe_problems duration_problem count_of text_eq
output_passes = refl

one_of_four_missing :
    disc default_tolerance
      (title default_tolerance wanted (some output)
        ∷ title default_tolerance wanted (some output)
        ∷ title default_tolerance wanted (some output)
        ∷ [])
      10400
    ≡ across_disc (too_short 7770 10400) ∷ []
unfolding disc title check_magic has_magic probe_problems duration_problem count_of text_eq
one_of_four_missing = refl

passed-IsWhole_example :
    (out : Output) × (p : Probe) × (some output ≡ some out)
    × (wanted.min_bytes ≤ out.size_bytes)
    × StartsAsMatroska out
    × (out.probe ≡ inr p)
    × IsWhole wanted p
passed-IsWhole_example = passed-IsWhole wanted (some output) output_passes
