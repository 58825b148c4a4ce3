-- ===== src/BluRay/Tests.antt =====
-- Lines of libbluray's tools, and a disc with a decoy and a stub.
use hellbox.Base.{
  ℕ, ◌≡◌, refl, true, [], ◌∷◌, All, In, Text, codes, text_eq, ascii, trim_left, trim_right,
  trim_space, insert_by, sort_by, has_part, pos,
}
use hellbox.BluRay.{
  Playlist, Info, threshold, is_real, same_layout, dedupe_from, content, match_piece, match_pieces,
  find_match, playlist_of, titles_from, parse_titles, split_field, is_yes, atoi, with_field,
  info_line, info_lines, no_info, parse_info,
}
use hellbox.BluRay.Content.{AllApart, content-is_real}

abbrev playlist : Text → ℕ → ℕ → Playlist
playlist file secs audio = record {
  index = 0;
  file = file;
  duration_secs = secs;
  chapters = 3;
  angles = 1;
  clips = 1;
  video = 1;
  audio = audio;
  subtitles = 6;
  overlays = 0;
}

read_line :
    parse_titles ascii (
      codes "Main title: 4"
      ∷ codes
          "index:   7 duration: 00:42:43 chapters:  3 angles:  1 clips:   1 (playlist: 00002.mpls) V:1 A:5  PG:6  IG:0  SV:0 SA:0"
      ∷ [])
    ≡ (pos 4, record (playlist (codes "00002.mpls") 2563 5) { index = 7 } ∷ [])
unfolding parse_titles titles_from match_pieces match_piece find_match playlist_of trim_space
    trim_left trim_right
read_line = refl

read_name :
    (parse_info ascii
      (codes "Disc name   : FIREFLY: DISC 1" ∷ codes "BD+ detected : yes" ∷ [])).disc_name
    ≡ codes "FIREFLY: DISC 1"
unfolding parse_info info_lines info_line split_field with_field is_yes atoi text_eq has_part
    trim_space trim_left trim_right
read_name = refl

abbrev firefly : Info
firefly = record no_info {
  playlists =
      playlist (codes "00008") 2500 5
      ∷ playlist (codes "00002") 2600 5
      ∷ playlist (codes "00003") 2500 5
      ∷ playlist (codes "00009") 9 0
      ∷ [];
}

firefly-content :
    content firefly 0 ≡ playlist (codes "00002") 2600 5 ∷ playlist (codes "00003") 2500 5 ∷ []
unfolding content sort_by insert_by dedupe_from
firefly-content = refl

content-is_real_example :
    All (λ p. is_real (threshold 0) p ≡ true) (content firefly 0)
    × AllApart (content firefly 0)
    × ((p : Playlist)
        → In p firefly.playlists
        → is_real (threshold 0) p ≡ true
        → (q : Playlist) × In q (content firefly 0) × (same_layout p q ≡ true))
content-is_real_example = content-is_real firefly 0
