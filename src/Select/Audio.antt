-- ===== src/Select/Audio.antt =====
-- internal/transcode/select.go: the audio track that is kept, and what the filters leave.
use hellbox.Base.{
  inl, inr, ◌≤◌, ◌≡◌, ◌⊎◌, refl, ◌∙◌, Bool, true, false, not, ◌&&◌, List, [], ◌∷◌, some, arith,
  if◌then◌else◌, filter, All, In, In-filter, Text, text_eq, Bool-cases, ltb, ◌==◌,
}
use hellbox.Select.{
  Stream, matches, or_all, filter_by_language, better, best_from, best_of, candidates, pick_audio,
  is_commentary,
}

-- A list that has an element.
NonEmpty : List Stream → Type 0
NonEmpty xs = (x : Stream) × (rest : List Stream) × (xs ≡ x ∷ rest)

or_all-NonEmpty : (xs ys : List Stream) → NonEmpty ys → NonEmpty (or_all xs ys)
unfolding NonEmpty
or_all-NonEmpty [] ys h = h
or_all-NonEmpty (x ∷ xs) ys h = (x, xs, refl)

or_all-In : (xs ys : List Stream) (s : Stream) → (In s xs → In s ys) → In s (or_all xs ys) → In s ys
or_all-In [] ys s h i = i
or_all-In (x ∷ xs) ys s h i = h i

filter_by_language-NonEmpty :
    (xs : List Stream) (language : Text) → NonEmpty xs → NonEmpty (filter_by_language xs language)
unfolding filter_by_language
filter_by_language-NonEmpty xs language h = elim (Bool-cases (text_eq language [])) [
  | inl e ↦ rw e h
  | inr e ↦ rw e (or_all-NonEmpty (filter (matches language) xs) xs h)
]

filter_by_language-In :
    (xs : List Stream) (language : Text) (s : Stream)
    → In s (filter_by_language xs language)
    → In s xs
unfolding filter_by_language
filter_by_language-In xs language s i = elim (Bool-cases (text_eq language [])) [
  | inl e ↦ rw e at i
  | inr e ↦
      or_all-In (filter (matches language) xs) xs s (λ j. (In-filter (matches language) s xs j).0)
        (rw e at i)
]

if_choice : (P : Stream → Type 0) (c : Bool) (x y : Stream) → P x → P y → P (if c then x else y)
if_choice P true x y p q = p
if_choice P false x y p q = q

better-cases : (b s : Stream) → (better b s ≡ b) ⊎ (better b s ≡ s)
unfolding better
better-cases b s =
    let P = λ (z : Stream). (z ≡ b) ⊎ (z ≡ s) in
    if_choice P (ltb b.channels s.channels) s _ (inr refl) (
      if_choice P (s.channels == b.channels && s.is_default && not b.is_default) s b (inr refl)
        (inl refl))

better-channels :
    (b s : Stream) → (b.channels ≤ (better b s).channels) × (s.channels ≤ (better b s).channels)
unfolding better
better-channels b s = ground arith

best_from-In : (b : Stream) (ss : List Stream) → In (best_from b ss) (b ∷ ss)
unfolding best_from
best_from-In b [] = inl refl
best_from-In b (s ∷ ss) = elim (best_from-In (better b s) ss) [
  | inr i ↦ inr (inr i)
  | inl e ↦ elim (better-cases b s) [ inl q ↦ inl (e ∙ q) | inr q ↦ inr (inl (e ∙ q)) ]
]

best_from-widest :
    (b : Stream) (ss : List Stream) → All (λ t. t.channels ≤ (best_from b ss).channels) (b ∷ ss)
unfolding best_from
best_from-widest b [] = (omega arith, tt)
best_from-widest b (s ∷ ss) =
    let (top, rest) = best_from-widest (better b s) ss in
    let (from, to) = better-channels b s in (omega arith, (omega arith, rest))

module _ (lower trim : Text → Text) where
  candidates-NonEmpty :
      (xs : List Stream) (language : Text)
      → NonEmpty xs
      → NonEmpty (candidates lower trim xs language)
  unfolding candidates
  candidates-NonEmpty xs language h =
      filter_by_language-NonEmpty _ language
        (or_all-NonEmpty (filter (λ s. not (is_commentary lower trim s)) xs) xs h)

  candidates-In :
      (xs : List Stream) (language : Text) (s : Stream)
      → In s (candidates lower trim xs language)
      → In s xs
  unfolding candidates
  candidates-In xs language s i =
      let plain = λ (t : Stream). not (is_commentary lower trim t) in
      or_all-In (filter plain xs) xs s (λ j. (In-filter plain s xs j).0)
        (filter_by_language-In (or_all (filter plain xs) xs) language s i)

  best_of-widest :
      (xs : List Stream)
      → NonEmpty xs
      → (s : Stream) × (best_of lower trim xs ≡ some s)
        × In s xs
        × All (λ t. t.channels ≤ s.channels) xs
  unfolding best_of NonEmpty
  best_of-widest [] (x, rest, e) = absurd (cc)
  best_of-widest (x ∷ xs) h = (best_from x xs, refl, best_from-In x xs, best_from-widest x xs)

-- A title with audio never loses it: whatever the tags, `pickAudio` keeps one of its tracks, which is
-- among the candidates and has at least as many channels as every candidate.
pub pick_audio_widest :
    (lower trim : Text → Text) (t : Stream) (ts : List Stream) (language : Text)
    → (s : Stream) × (pick_audio lower trim (t ∷ ts) language ≡ some s)
      × In s (t ∷ ts)
      × In s (candidates lower trim (t ∷ ts) language)
      × All (λ u. u.channels ≤ s.channels) (candidates lower trim (t ∷ ts) language)
unfolding pick_audio NonEmpty
pick_audio_widest lower trim t ts language =
    let some_left = candidates-NonEmpty lower trim (t ∷ ts) language (t, ts, refl) in
    let (s, picked, i, widest) =
      best_of-widest lower trim (candidates lower trim (t ∷ ts) language) some_left in
    (s, picked, candidates-In lower trim (t ∷ ts) language s i, i, widest)
