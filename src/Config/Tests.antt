-- ===== src/Config/Tests.antt =====
-- The defaults, and what is wrong with two changes of them.
use hellbox.Base.{◌≡◌, refl, none, some, codes, text_eq, pos}
use hellbox.Config.{defaults, checks, validate, not_positive, out_of_range}

defaults_are_valid : validate defaults ≡ none
unfolding validate checks text_eq defaults
defaults_are_valid = refl

no_scan :
    validate (record defaults { scan_attempts = pos 0 })
    ≡ some (not_positive (codes "scan_attempts"))
unfolding validate checks text_eq defaults
no_scan = refl

bad_quality :
    validate (record defaults { transcode_quality = pos 52 })
    ≡ some (out_of_range (codes "transcode_quality"))
unfolding validate checks text_eq defaults
bad_quality = refl
