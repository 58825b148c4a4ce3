-- ===== src/Select.antt =====
-- internal/transcode/select.go and probe.go: which streams of a ripped title reach the encode.
-- `strings.ToLower` and `strings.TrimSpace` are arguments; a note for the log is a constructor.
pub mod Audio
pub mod Accounts
mod Tests
use hellbox.Base.{
  ℕ, ◌+◌, Bool, true, false, not, ◌&&◌, ◌||◌, List, [], ◌∷◌, ◌++◌, Option, none, some, ltb, ◌==◌,
  if◌then◌else◌, any, filter, Text, codes, text_eq,
}

pub data StreamKind : Type 0 where
  video audio subtitle other : StreamKind

pub record Stream : Type 0 where
  pub index : ℕ
  pub kind : StreamKind
  pub codec : Text
  pub channels : ℕ
  pub language : Text
  pub title : Text
  pub is_default : Bool

pub data Note : Type 0 where
  extra_video : ℕ → Note
  described : StreamKind → Stream → Note

-- A map argument `0:n` is the number n.
pub record Selection : Type 0 where
  pub maps : List ℕ
  pub transcode_audio : Bool
  pub dropped : List Note
  pub kept : List Note

-- `strings.HasPrefix`
unfoldable pub has_prefix : Text → Text → Bool
has_prefix s [] = true
has_prefix [] (y ∷ ys) = false
has_prefix (x ∷ xs) (y ∷ ys) = x == y && has_prefix xs ys

-- `strings.Contains`
unfoldable pub contains_text : Text → Text → Bool
contains_text [] w = has_prefix [] w
contains_text (x ∷ xs) w = has_prefix (x ∷ xs) w || contains_text xs w

abbrev pub commentary_words : List Text
commentary_words =
    codes "comment" ∷ codes "director" ∷ codes "cast" ∷ codes "crew" ∷ codes "isolated score" ∷ []

-- The table `losslessAudio`.
abbrev pub lossless_audio : List Text
lossless_audio =
    codes "truehd"
    ∷ codes "dts"
    ∷ codes "flac"
    ∷ codes "mlp"
    ∷ codes "pcm_bluray"
    ∷ codes "pcm_dvd"
    ∷ codes "pcm_s16le"
    ∷ codes "pcm_s24le"
    ∷ []

-- `matching` for one stream: either tag may be a prefix of the other.
unfoldable pub matches : Text → Stream → Bool
matches language s =
    not (text_eq s.language [])
    && (text_eq s.language language
        || has_prefix language s.language
        || has_prefix s.language language)

-- `matching`
abbrev pub matching : List Stream → Text → List Stream
matching streams language = filter (matches language) streams

-- The streams, or all of them where a filter leaves none.
abbrev pub or_all : List Stream → List Stream → List Stream
or_all [] all = all
or_all (s ∷ ss) all = s ∷ ss

-- `filterByLanguage`
unfoldable pub filter_by_language : List Stream → Text → List Stream
filter_by_language streams language =
    if text_eq language [] then streams else or_all (matching streams language) streams

-- One round of the loop of `pickAudio`.
unfoldable pub better : Stream → Stream → Stream
better best s =
    if ltb best.channels s.channels
    then s
    else if s.channels == best.channels && s.is_default && not best.is_default
    then s
    else best

unfoldable pub best_from : Stream → List Stream → Stream
best_from best [] = best
best_from best (s ∷ ss) = best_from (better best s) ss

-- `contains`
unfoldable pub contains : List Stream → ℕ → Bool
contains streams index = any (λ (s : Stream). s.index == index) streams

abbrev pub is_video : Stream → Bool
is_video s = elim (s.kind) [ video ↦ true | _ ↦ false ]

abbrev pub is_audio : Stream → Bool
is_audio s = elim (s.kind) [ audio ↦ true | _ ↦ false ]

abbrev pub is_subtitle : Stream → Bool
is_subtitle s = elim (s.kind) [ subtitle ↦ true | _ ↦ false ]

-- The notes of the streams with an index other than those kept.
unfoldable pub left_out : StreamKind → (ℕ → Bool) → List Stream → List Note
left_out kind keeps [] = []
left_out kind keeps (s ∷ ss) =
    let rest = left_out kind keeps ss in if keeps s.index then rest else described kind s ∷ rest

abbrev pub indices : List Stream → List ℕ
indices [] = []
indices (s ∷ ss) = s.index ∷ indices ss

abbrev pub notes : StreamKind → List Stream → List Note
notes kind [] = []
notes kind (s ∷ ss) = described kind s ∷ notes kind ss

abbrev pub extra_videos : List Stream → List Note
extra_videos [] = []
extra_videos (s ∷ ss) = extra_video s.index ∷ extra_videos ss

-- The first video is kept.
unfoldable pub select_video : List Stream → Selection
select_video [] = record { maps = []; transcode_audio = false; dropped = []; kept = [] }
select_video (v ∷ vs) = record {
  maps = v.index ∷ [];
  transcode_audio = false;
  dropped = extra_videos vs;
  kept = described video v ∷ [];
}

module _ (lower trim : Text → Text) where
  -- `isCommentary`
  unfoldable pub is_commentary : Stream → Bool
  is_commentary s = any (contains_text (lower s.title)) commentary_words

  -- `Lossless`
  unfoldable pub is_lossless : Stream → Bool
  is_lossless s = any (text_eq (lower s.codec)) lossless_audio

  -- The tracks among which `pickAudio` takes the best: no commentary, in the language, unless that
  -- leaves none.
  unfoldable pub candidates : List Stream → Text → List Stream
  unfolding filter_by_language
  candidates streams language =
      filter_by_language (or_all (filter (λ s. not (is_commentary s)) streams) streams) language

  unfoldable pub best_of : List Stream → Option Stream
  best_of [] = none
  best_of (s ∷ ss) = some (best_from s ss)

  -- `pickAudio`
  unfoldable pub pick_audio : List Stream → Text → Option Stream
  pick_audio [] language = none
  pick_audio (s ∷ ss) language = best_of (candidates (s ∷ ss) language)

  unfoldable pub add_audio : Selection → List Stream → Option Stream → Selection
  add_audio sel tracks none = sel
  add_audio sel tracks (some chosen) = record sel {
    maps = sel.maps ++ (chosen.index ∷ []);
    transcode_audio = is_lossless chosen;
    dropped = sel.dropped ++ left_out audio (λ i. i == chosen.index) tracks;
    kept = sel.kept ++ (described audio chosen ∷ []);
  }

  unfoldable pub add_subtitles : Selection → List Stream → List Stream → Selection
  add_subtitles sel subs chosen = record sel {
    maps = sel.maps ++ indices chosen;
    dropped = sel.dropped ++ left_out subtitle (contains chosen) subs;
    kept = sel.kept ++ notes subtitle chosen;
  }

  -- `Select`
  unfoldable pub select : List Stream → Text → Selection
  select streams preferred =
      let language = lower (trim preferred) in
      let tracks = filter is_audio streams in
      let subs = filter is_subtitle streams in
      let sel = select_video (filter is_video streams) in
      add_subtitles (add_audio sel tracks (pick_audio tracks language)) subs
        (filter_by_language subs language)
