-- ===== src/Failure/Tests.antt =====
-- A message with a line of noise.
use hellbox.Base.{◌≡◌, refl, true, [], ◌∷◌, ◌++◌, All, codes, ascii, has_part, join_with}
use hellbox.Failure.{
  region, other, is_benign, lines_of, strip_benign, first_match, classify_failure,
}
use hellbox.Failure.Benign.{noise_is_ignored}

css : classify_failure ascii (codes "scrambled sector") ≡ region
unfolding classify_failure strip_benign is_benign lines_of has_part first_match join_with
css = refl

noise_is_ignored_example :
    (classify_failure ascii (
        join_with 10
          (codes "Input/output error" ∷ [] ++ (codes "libdvdread: Error cracking CSS key" ∷ [])))
      ≡ classify_failure ascii (join_with 10 (codes "Input/output error" ∷ [] ++ [])))
    × (All (λ x. is_benign ascii x ≡ true) (codes "Input/output error" ∷ [] ++ [])
        → classify_failure ascii (
            join_with 10 (
              codes "Input/output error" ∷ [] ++ (codes "libdvdread: Error cracking CSS key" ∷ [])))
          ≡ other)
unfolding is_benign has_part
noise_is_ignored_example =
    noise_is_ignored ascii (codes "Input/output error" ∷ []) []
      (codes "libdvdread: Error cracking CSS key") (refl, (refl, tt)) refl
