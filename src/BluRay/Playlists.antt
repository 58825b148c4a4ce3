-- ===== src/BluRay/Playlists.antt =====
-- internal/bluray/bluray.go: what a Blu-ray holds, and which of its playlists are titles.
use hellbox.Base.{
  ℕ, zero, suc, ◌+◌, Bool, true, false, not, ◌&&◌, ◌||◌, List, [], ◌∷◌, ◌++◌, ltb, ◌==◌,
  if◌then◌else◌, filter, any, Text, codes, Unicode, sort_by, ℤ,
}
use hellbox.Catalog.{Stream, Title, Disc, type_blu_ray}
use hellbox.Identity.{title_file_name, compute_fingerprint}

pub record Protection : Type 0 where
  pub aacs : Bool
  pub bdplus : Bool
  pub aacs_handled : Bool
  pub bdplus_handled : Bool
  pub bdj : Bool
  pub disc_id : Text
  pub mkb_version : ℤ

-- `NeedsMakeMKV`
abbrev pub needs_makemkv : Protection → Bool
needs_makemkv p = p.bdplus && not p.bdplus_handled

-- `Describe`
unfoldable pub describe : Protection → Text
describe p =
    if p.bdplus && not p.bdplus_handled
    then codes "BD+ (not handled — needs MakeMKV)"
    else if p.bdplus
    then codes "AACS + BD+"
    else if p.aacs && p.aacs_handled
    then codes "AACS"
    else if p.aacs
    then codes "AACS (not handled)"
    else codes "none"

pub record Playlist : Type 0 where
  pub index : ℕ
  pub file : Text
  pub duration_secs : ℕ
  pub chapters : ℕ
  pub angles : ℕ
  pub clips : ℕ
  pub video : ℕ
  pub audio : ℕ
  pub subtitles : ℕ
  pub overlays : ℕ

pub record Info : Type 0 where
  pub volume_label : Text
  pub disc_name : Text
  pub thumbnails : List Text
  pub protection : Protection
  pub main_title : ℤ
  pub playlists : List Playlist

abbrev pub min_real_secs : ℕ
min_real_secs = 60

-- The threshold of `Content`; one below zero counts as zero.
abbrev pub threshold : ℕ → ℕ
threshold min_secs = if min_secs == 0 then min_real_secs else min_secs

abbrev pub is_real : ℕ → Playlist → Bool
is_real secs p = not (ltb p.duration_secs secs || ltb p.audio 1)

-- `<` on strings
abbrev pub text_before : Text → Text → Bool
text_before [] [] = false
text_before [] (d ∷ t) = true
text_before (c ∷ s) [] = false
text_before (c ∷ s) (d ∷ t) = ltb c d || (c == d && text_before s t)

abbrev pub by_file : Playlist → Playlist → Bool
by_file p q = text_before p.file q.file

-- Whether the keys that `dedupe` prints of two playlists agree.
abbrev pub same_layout : Playlist → Playlist → Bool
same_layout p q =
    p.duration_secs == q.duration_secs
    && p.chapters == q.chapters
    && p.video == q.video
    && p.audio == q.audio
    && p.subtitles == q.subtitles

-- The loop of `dedupe`, with the playlists whose keys have been seen.
unfoldable pub dedupe_from : List Playlist → List Playlist → List Playlist
dedupe_from seen [] = []
dedupe_from seen (p ∷ ps) = elim (any (same_layout p) seen) [
  | true ↦ dedupe_from seen ps
  | false ↦ p ∷ dedupe_from (p ∷ seen) ps
]

-- `dedupe`
abbrev pub dedupe : List Playlist → List Playlist
dedupe ps = dedupe_from [] ps

-- `Content`
unfoldable pub content : Info → ℕ → List Playlist
unfolding sort_by dedupe_from
content info min_secs =
    dedupe (sort_by by_file (filter (is_real (threshold min_secs)) info.playlists))

abbrev pub bare_stream : Text → ℕ → Stream
bare_stream kind index = record {
  index = index;
  kind = kind;
  codec = [];
  language = [];
  channels = 0;
  resolution = [];
  frame_rate = [];
  flags = [];
}

-- The function `add` of `placeholderStreams`, from an index on
abbrev pub streams_of : Text → ℕ → ℕ → List Stream
streams_of kind index zero = []
streams_of kind index (suc n) = bare_stream kind index ∷ streams_of kind (index + 1) n

-- `placeholderStreams`
unfoldable pub placeholder_streams : Playlist → List Stream
placeholder_streams p =
    streams_of (codes "video") 0 p.video
    ++ (streams_of (codes "audio") p.video p.audio
        ++ streams_of (codes "subtitle") (p.video + p.audio) p.subtitles)

unfoldable pub numbered_titles : ℕ → List Playlist → List Title
unfolding title_file_name placeholder_streams
numbered_titles n [] = []
numbered_titles n (p ∷ ps) =
    record {
      index = n;
      duration_secs = p.duration_secs;
      chapters = p.chapters;
      size_bytes = 0;
      source_file = p.file;
      output_file = title_file_name n;
      streams = placeholder_streams p;
    }
    ∷ numbered_titles (n + 1) ps

-- `Titles`
unfoldable pub titles : Info → ℕ → List Title
unfolding content numbered_titles
titles info min_secs = numbered_titles 0 (content info min_secs)

-- `Disc`, for a hash in hexadecimal digits
unfoldable pub disc : (Text → Text) → Unicode → Info → ℕ → Disc
unfolding titles compute_fingerprint
disc hash u info min_secs =
    let ts = titles info min_secs in
    record {
      fingerprint = compute_fingerprint hash u info.volume_label ts;
      volume_label = info.volume_label;
      kind = type_blu_ray;
      total_bytes = 0;
      titles = ts;
    }
