-- ===== src/Hub/Replay.antt =====
-- internal/api/hub.go: what `Since` returns, against the whole history of published events.
use hellbox.Base.{
  ℕ, zero, suc, ◌+◌, ◌-◌, ◌%◌, ◌^◌, ◌≤◌, ◌<◌, ◌≡◌, ◌↔◌, refl, sym, ap, ◌∙◌, true, false, List, [],
  ◌∷◌, ◌++◌, some, arith, ltb, leb, length, drop, filter, length-append, length-drop, Text,
  drop_all, dec_lt,
}
use mathlib.Core.Path.{subst}
use native.Mathlib.Nat.{zero-add}
use hellbox.Hub.{
  Event, Hub, Channel, Reach, started, published, subscribed, release_stepped, received, new_hub,
  append, publish, ordered, since, since_in, subscribe, release_step, receive,
}
use hellbox.Hub.Ring.{Holds, last, append-Holds, ordered-Holds}

module _ {ℓ} {A : Type ℓ} where
  -- What `Publish` changes: the id, the ring and the channels.
  publish_effect :
      (size : ℕ) (h : Hub A) (kind : Text) (now : ℕ) (payload : A) {ev : Event A} {h' : Hub A}
      → publish size h kind now payload ≡ some (ev, h')
      → (cs : List (Channel A)) × (h'
          ≡ record (append size (record h { next_id = ev.id }) ev) { channels = cs })
        × (ev.id ≡ (h.next_id + 1) % 2 ^ 64)
        × (h'.next_id ≡ ev.id)
  unfolding publish append
  publish_effect size h kind now payload {h' = h'} e =
      (h'.channels, ground arith, ground arith, ground arith)

  -- Two hubs with the same ring and last id.
  abbrev SameRing : Hub A → Hub A → Type ℓ
  SameRing h' h =
      (h'.ring ≡ h.ring) × (h'.start ≡ h.start) × (h'.full ≡ h.full) × (h'.next_id ≡ h.next_id)

  Holds-frame :
      {size : ℕ} {h h' : Hub A} {history : List (Event A)}
      → (h'.ring ≡ h.ring) × (h'.start ≡ h.start) × (h'.full ≡ h.full)
      → Holds size h history
      → Holds size h' history
  Holds-frame (r, s, f) v = record {
    fits = rw r v.fits;
    ring_wrapped = rw (r, f) v.ring_wrapped;
    start_in = rw s v.start_in;
    ring_rotated = rw (r, s) v.ring_rotated;
    ring_growing = rw (r, s) v.ring_growing;
    start_fresh = rw (s, f) v.start_fresh;
  }

  subscribe-SameRing : (h : Hub A) → SameRing (subscribe h).1 h
  unfolding subscribe
  subscribe-SameRing h = (refl, refl, refl, refl)

  release-SameRing : (h : Hub A) (k : ℕ) → SameRing (release_step h k) h
  unfolding release_step
  release-SameRing h k = ground arith

  receive-SameRing : (h : Hub A) (k : ℕ) → SameRing (receive h k) h
  unfolding receive
  receive-SameRing h k = ground arith

  -- Events numbered one by one, the first of them `k + 1`.
  abbrev pub Numbered : ℕ → List (Event A) → Type 0
  Numbered k [] = Unit
  Numbered k (ev ∷ evs) = (ev.id ≡ suc k) × Numbered (suc k) evs

  Numbered-append :
      (k : ℕ) (evs : List (Event A)) (ev : Event A)
      → Numbered k evs
      → ev.id ≡ suc (k + length evs)
      → Numbered k (evs ++ ev ∷ [])
  Numbered-append k [] ev n e = (omega arith, tt)
  Numbered-append k (x ∷ evs) ev n e = (n.0, Numbered-append (suc k) evs ev n.1 (omega arith))

  Numbered-drop :
      (k n : ℕ) (evs : List (Event A))
      → n ≤ length evs
      → Numbered k evs
      → Numbered (k + n) (drop n evs)
  Numbered-drop k zero evs h v = subst (λ j. Numbered j evs) (omega arith) v
  Numbered-drop k (suc n) [] h v = absurd (omega arith)
  Numbered-drop k (suc n) (x ∷ evs) h v =
      subst (λ j. Numbered j (drop n evs)) (omega arith)
        (Numbered-drop (suc k) n evs (omega arith) v.1)

  -- The events after an id are the end of the list.
  filter-Numbered :
      (id k : ℕ) (evs : List (Event A))
      → Numbered k evs
      → filter (λ (ev : Event A). ltb id ev.id) evs ≡ drop (id - k) evs
  filter-Numbered id k [] v = sym (drop_all (id - k) [] (omega arith))
  filter-Numbered id k (x ∷ evs) v = elim (dec_lt k id) [
    | yes p ↦
        let step : id - k ≡ suc (id - suc k) = omega arith in
        let test : ltb id x.id ≡ false = ground (arith, v.0) in
        rw (test, step) (filter-Numbered id (suc k) evs v.1)
    | no p ↦
        let step : id - k ≡ 0 = omega arith in
        let here : id - suc k ≡ 0 = omega arith in
        let test : ltb id x.id ≡ true = ground (arith, v.0) in
        rw (test, step)
          (ap (λ r. x ∷ r) (filter-Numbered id (suc k) evs v.1 ∙ ap (λ j. drop j evs) here))
  ]

  -- What `Since` answers over a ring that holds the events numbered from `m + 1` up to `n`.
  since_in-Numbered :
      (l : List (Event A)) (m n id : ℕ)
      → Numbered m l
      → m + length l ≡ n
      → (l ≡ [] → n ≡ 0)
      → n < 2 ^ 64
      → id ≤ n
      → ((since_in l n id).0 ≡ drop (id - m) l) × ((since_in l n id).1 ≡ leb m id)
  unfolding since_in
  since_in-Numbered [] m n id v len empty small h =
      let z = empty refl in (sym (drop_all (id - m) [] (omega arith)), ground arith)
  since_in-Numbered (x ∷ l) m n id v len empty small h =
      (filter-Numbered id m (x ∷ l) v, ground (arith, v.0))

-- What every reachable hub satisfies: the ring holds the end of the history, and the events are
-- numbered from 1 on, as long as the counter has not wrapped.
pub record Inv {ℓ} {A : Type ℓ} (size : ℕ) (h : Hub A) (history : List (Event A)) : Type ℓ where
  pub ring : Holds size h history
  pub counted : length history < 2 ^ 64 → h.next_id ≡ length history
  pub numbered : length history < 2 ^ 64 → Numbered 0 history

module _ {ℓ} {A : Type ℓ} (size : ℕ) (positive : 0 < size) where
  new_hub-Inv : Inv {A = A} size new_hub []
  unfolding new_hub
  new_hub-Inv = record {
    ring = record {
      fits = omega arith;
      ring_wrapped = λ e. cc;
      start_in = positive;
      ring_rotated = sym (drop_all (0 - size) [] (omega arith));
      ring_growing = λ _. (refl, refl);
      start_fresh = λ _. refl;
    };
    counted = λ _. refl;
    numbered = λ _. tt;
  }

  publish-Inv :
      {h h' : Hub A} {history : List (Event A)} {ev : Event A} (kind : Text) (now : ℕ) (payload : A)
      → Inv size h history
      → publish size h kind now payload ≡ some (ev, h')
      → Inv size h' (history ++ ev ∷ [])
  publish-Inv {h} {h' = h'} {history} {ev} kind now payload v e =
      let (cs, shape, number, counter) = publish_effect size h kind now payload e in
      let h₁ : Hub A = record h { next_id = ev.id } in
      let held = append-Holds size h₁ history ev (Holds-frame (refl, refl, refl) v.ring) in
      let len = length-append history (ev ∷ []) in
      record {
        ring = rw shape (Holds-frame (refl, refl, refl) held);
        counted = λ s. counter ∙ number ∙ omega (arith, v.counted (omega arith));
        numbered = λ s.
            Numbered-append 0 history ev (v.numbered (omega arith))
              (number ∙ omega (arith, v.counted (omega arith)));
      }

  frame-Inv :
      {h h' : Hub A} {history : List (Event A)}
      → SameRing h' h
      → Inv size h history
      → Inv size h' history
  frame-Inv (r, s, f, n) v = record {
    ring = Holds-frame (r, s, f) v.ring;
    counted = rw n v.counted;
    numbered = v.numbered;
  }

  pub Reach-Inv : {h : Hub A} {history : List (Event A)} → Reach size h history → Inv size h history
  Reach-Inv started = new_hub-Inv
  Reach-Inv (published kind now payload r e) = publish-Inv kind now payload (Reach-Inv r) e
  Reach-Inv (subscribed {h} r) = frame-Inv (subscribe-SameRing h) (Reach-Inv r)
  Reach-Inv (release_stepped {h} k r) = frame-Inv (release-SameRing h k) (Reach-Inv r)
  Reach-Inv (received {h} k r) = frame-Inv (receive-SameRing h k) (Reach-Inv r)

  -- Read oldest first, the ring holds exactly the last `size` events ever published, in the order
  -- of their publication, in every hub that a daemon can reach.
  pub ordered-last :
      {h : Hub A} {history : List (Event A)} → Reach size h history → ordered h ≡ last size history
  ordered-last {h} r = ordered-Holds h (Reach-Inv r).ring

  drop-drop : (a b : ℕ) (xs : List (Event A)) → drop a (drop b xs) ≡ drop (b + a) xs
  drop-drop a zero xs = ap (λ k. drop k xs) (omega arith)
  drop-drop a (suc b) [] = drop_all a [] (omega arith) ∙ sym (drop_all (suc b + a) [] (omega arith))
  drop-drop a (suc b) (x ∷ xs) =
      drop-drop a b xs ∙ ap (λ k. drop k (x ∷ xs)) {x = suc (b + a)} (omega arith)

  -- What `Since` answers for an id that the hub has given out, or 0, in every reachable hub whose
  -- counter has not wrapped: of the last `size` events those after the id, and as the second
  -- result whether the ring still reaches back to the id.
  pub since-Reach :
      {h : Hub A} {history : List (Event A)} (id : ℕ)
      → Reach size h history
      → length history < 2 ^ 64
      → id ≤ length history
      → ((since h id).0 ≡ drop (id - (length history - size)) (last size history))
        × ((since h id).1 ≡ leb (length history - size) id)
  unfolding since
  since-Reach {h} {history} id r small le =
      let v = Reach-Inv r in
      let m : ℕ = length history - size in
      let len = length-drop m history in
      rw (ordered-Holds h v.ring, v.counted small)
        (since_in-Numbered (drop m history) m (length history) id
          (rw zero-add at (Numbered-drop 0 m history (omega arith) (v.numbered small)))
          (omega arith) (λ e. omega (arith, ap length e)) small le)

  -- The second result of `Since` is true exactly if nothing was missed: for an id that the hub has
  -- given out, or 0, in every reachable hub whose counter has not wrapped, it is true if and only
  -- if the events returned are all the events published after that id.
  pub since_complete_iff :
      {h : Hub A} {history : List (Event A)} (id : ℕ)
      → Reach size h history
      → length history < 2 ^ 64
      → id ≤ length history
      → ((since h id).1 ≡ true) ↔ ((since h id).0 ≡ filter (λ (ev : Event A). ltb id ev.id) history)
  since_complete_iff {h} {history} id r small le =
      let m : ℕ = length history - size in
      let (evs, complete) = since-Reach id r small le in
      let all = filter-Numbered id 0 history ((Reach-Inv r).numbered small) in
      let held = drop-drop (id - m) m history in
      (
        λ c. evs ∙ held ∙ ap (λ k. drop k history) {y = id - 0} (ground arith) ∙ sym all,
        λ e. ground (
          arith,
          ap length (sym evs ∙ e ∙ all),
          length-drop (id - m) (drop m history),
          length-drop m history,
          length-drop (id - 0) history,
        ),
      )
