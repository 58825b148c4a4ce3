-- ===== src/Select/Tests.antt =====
-- A film with a stereo default, a wider track in the language, and a commentary.
use hellbox.Base.{
  inl, ◌⊎◌, ℕ, ◌≡◌, ◌≤◌, refl, Bool, true, false, List, [], ◌∷◌, some, All, In, Text, codes,
}
use hellbox.Select.{
  Stream, subtitle, extra_video, described, is_video, is_audio, is_subtitle, select, audio,
  candidates, pick_audio,
}
use hellbox.Select.Audio.{pick_audio_widest}
use hellbox.Select.Accounts.{select_accounts}

abbrev track : ℕ → ℕ → Text → Text → Bool → Stream
track index channels language title is_default = record {
  index = index;
  kind = audio;
  codec = codes "ac3";
  channels = channels;
  language = language;
  title = title;
  is_default = is_default;
}

abbrev stereo : Stream
stereo = track 1 2 (codes "eng") [] true

abbrev others : List Stream
others = track 2 6 (codes "eng") [] false ∷ track 3 8 (codes "eng") (codes "director") false ∷ []

abbrev same : Text → Text
same t = t

pick_audio_widest_example :
    (s : Stream) × (pick_audio same same (stereo ∷ others) (codes "en") ≡ some s)
    × In s (stereo ∷ others)
    × In s (candidates same same (stereo ∷ others) (codes "en"))
    × All (λ u. u.channels ≤ s.channels) (candidates same same (stereo ∷ others) (codes "en"))
pick_audio_widest_example = pick_audio_widest same same stereo others (codes "en")

select_accounts_example :
    (is_video stereo ≡ true
      → In 1 (select same same (stereo ∷ others) (codes "en")).maps
        ⊎ In (extra_video 1) (select same same (stereo ∷ others) (codes "en")).dropped)
    × (is_audio stereo ≡ true
        → In 1 (select same same (stereo ∷ others) (codes "en")).maps
          ⊎ In (described audio stereo) (select same same (stereo ∷ others) (codes "en")).dropped)
    × (is_subtitle stereo ≡ true
        → In 1 (select same same (stereo ∷ others) (codes "en")).maps
          ⊎ In
              (described subtitle stereo)
              (select same same (stereo ∷ others) (codes "en")).dropped)
select_accounts_example = select_accounts same same (stereo ∷ others) (codes "en") stereo (inl refl)
