-- ===== src/Select/Accounts.antt =====
-- internal/transcode/select.go: what the result of `Select` says of the streams of a title.
use hellbox.Base.{
  inl, inr, ℕ, ◌≡◌, ◌⊎◌, ◌∙◌, sym, ap, Bool, true, List, [], ◌∷◌, ◌++◌, Option, none, some, filter,
  In, filter-In, Text, Bool-cases, ◌==◌, ==_iff,
}
use hellbox.Select.{
  Stream, StreamKind, Selection, Note, described, extra_video, audio, subtitle, left_out, contains,
  indices, extra_videos, select_video, is_audio, is_subtitle, is_video, select, add_audio,
  add_subtitles, pick_audio, filter_by_language,
}
use hellbox.Select.Audio.{pick_audio_widest}

module _ {A : Type 0} where
  In-append_left : (x : A) (xs ys : List A) → In x xs → In x (xs ++ ys)
  In-append_left x [] ys i = absurd i
  In-append_left x (z ∷ xs) ys (inl e) = inl e
  In-append_left x (z ∷ xs) ys (inr i) = inr (In-append_left x xs ys i)

  In-append_right : (x : A) (xs ys : List A) → In x ys → In x (xs ++ ys)
  In-append_right x [] ys i = i
  In-append_right x (z ∷ xs) ys i = inr (In-append_right x xs ys i)

left_out-In :
    (kind : StreamKind) (keeps : ℕ → Bool) (xs : List Stream) (s : Stream)
    → In s xs
    → (keeps s.index ≡ true) ⊎ In (described kind s) (left_out kind keeps xs)
unfolding left_out
left_out-In kind keeps [] s i = absurd i
left_out-In kind keeps (x ∷ xs) s (inl e) = elim (Bool-cases (keeps x.index)) [
  | inl q ↦ inl (ap (λ (z : Stream). keeps z.index) e ∙ q)
  | inr q ↦ inr (rw q (inl (ap (described kind) e)))
]
left_out-In kind keeps (x ∷ xs) s (inr i) = elim (left_out-In kind keeps xs s i) [
  | inl k ↦ inl k
  | inr j ↦ elim (Bool-cases (keeps x.index)) [ inl q ↦ inr (rw q j) | inr q ↦ inr (rw q (inr j)) ]
]

contains-indices : (xs : List Stream) (i : ℕ) → contains xs i ≡ true → In i (indices xs)
unfolding contains
contains-indices [] i h = absurd (cc)
contains-indices (x ∷ xs) i h = elim (Bool-cases (x.index == i)) [
  | inl e ↦ inl (sym ((==_iff x.index i).0 e))
  | inr e ↦ inr (contains-indices xs i (rw e at h))
]

extra_videos-In :
    (xs : List Stream) (s : Stream) → In s xs → In (extra_video s.index) (extra_videos xs)
extra_videos-In [] s i = absurd i
extra_videos-In (x ∷ xs) s (inl e) = inl (ap (λ (z : Stream). extra_video z.index) e)
extra_videos-In (x ∷ xs) s (inr i) = inr (extra_videos-In xs s i)

-- The stream is mapped, or a note says that it is not.
Accounted : Stream → Note → Selection → Type 0
Accounted s note sel = In s.index sel.maps ⊎ In note sel.dropped

video-Accounted :
    (xs : List Stream) (s : Stream) → In s xs → Accounted s (extra_video s.index) (select_video xs)
unfolding select_video Accounted
video-Accounted [] s i = absurd i
video-Accounted (x ∷ xs) s (inl e) = inl (inl (ap (λ (z : Stream). z.index) e))
video-Accounted (x ∷ xs) s (inr i) = inr (extra_videos-In xs s i)

module _ (lower trim : Text → Text) where
  audio_keeps :
      (sel : Selection) (tracks : List Stream) (o : Option Stream) (s : Stream) (note : Note)
      → Accounted s note sel
      → Accounted s note (add_audio lower trim sel tracks o)
  unfolding add_audio Accounted
  audio_keeps sel tracks none s note h = h
  audio_keeps sel tracks (some c) s note (inl i) = inl (In-append_left _ _ _ i)
  audio_keeps sel tracks (some c) s note (inr i) = inr (In-append_left _ _ _ i)

  chosen-Accounted :
      (sel : Selection) (tracks : List Stream) (c s : Stream)
      → In s tracks
      → Accounted s (described audio s) (add_audio lower trim sel tracks (some c))
  unfolding add_audio Accounted
  chosen-Accounted sel tracks c s i = elim (left_out-In audio (λ n. n == c.index) tracks s i) [
    | inl k ↦
        inl (In-append_right s.index sel.maps (c.index ∷ []) (inl ((==_iff s.index c.index).0 k)))
    | inr j ↦ inr (
        In-append_right (described audio s) sel.dropped (left_out audio (λ n. n == c.index) tracks)
          j)
  ]

  audio-Accounted :
      (sel : Selection) (tracks : List Stream) (language : Text) (s : Stream)
      → In s tracks
      → Accounted s
          (described audio s)
          (add_audio lower trim sel tracks (pick_audio lower trim tracks language))
  audio-Accounted sel [] language s i = absurd i
  audio-Accounted sel (t ∷ ts) language s i =
      let (c, picked, among, candidate, widest) = pick_audio_widest lower trim t ts language in
      rw picked (chosen-Accounted sel (t ∷ ts) c s i)

  subtitles_keep :
      (sel : Selection) (subs chosen : List Stream) (s : Stream) (note : Note)
      → Accounted s note sel
      → Accounted s note (add_subtitles lower trim sel subs chosen)
  unfolding add_subtitles Accounted
  subtitles_keep sel subs chosen s note (inl i) = inl (In-append_left _ _ _ i)
  subtitles_keep sel subs chosen s note (inr i) = inr (In-append_left _ _ _ i)

  subtitle-Accounted :
      (sel : Selection) (subs chosen : List Stream) (s : Stream)
      → In s subs
      → Accounted s (described subtitle s) (add_subtitles lower trim sel subs chosen)
  unfolding add_subtitles Accounted
  subtitle-Accounted sel subs chosen s i = elim (left_out-In subtitle (contains chosen) subs s i) [
    | inl k ↦ inl (In-append_right _ _ _ (contains-indices chosen s.index k))
    | inr j ↦ inr (In-append_right _ _ _ j)
  ]

-- Nothing is left behind silently: every video, audio and subtitle stream of a title is mapped into
-- the output by its index, or the list of what was dropped has a note of it.
pub select_accounts :
    (lower trim : Text → Text) (streams : List Stream) (language : Text) (s : Stream)
    → In s streams
    → (is_video s ≡ true
        → In s.index (select lower trim streams language).maps
          ⊎ In (extra_video s.index) (select lower trim streams language).dropped)
      × (is_audio s ≡ true
          → In s.index (select lower trim streams language).maps
            ⊎ In (described audio s) (select lower trim streams language).dropped)
      × (is_subtitle s ≡ true
          → In s.index (select lower trim streams language).maps
            ⊎ In (described subtitle s) (select lower trim streams language).dropped)
unfolding select Accounted
select_accounts lower trim streams language s i =
    let preferred = lower (trim language) in
    let tracks = filter is_audio streams in
    let subs = filter is_subtitle streams in
    let sel = select_video (filter is_video streams) in
    let heard = add_audio lower trim sel tracks (pick_audio lower trim tracks preferred) in
    let chosen = filter_by_language subs preferred in
    (
      λ v. subtitles_keep lower trim heard subs chosen s (extra_video s.index) (
          audio_keeps lower trim sel tracks (pick_audio lower trim tracks preferred) s
            (extra_video s.index)
            (video-Accounted (filter is_video streams) s (filter-In is_video s streams v i))),
      λ a.
          subtitles_keep lower trim heard subs chosen s (described audio s)
            (audio-Accounted lower trim sel tracks preferred s (filter-In is_audio s streams a i)),
      λ t. subtitle-Accounted lower trim heard subs chosen s (filter-In is_subtitle s streams t i),
    )
