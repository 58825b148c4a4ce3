-- ===== src/Hub/Ring.antt =====
-- internal/api/hub.go: what the ring holds. Read oldest first it is the end of the history.
use hellbox.Base.{
  ℕ, zero, suc, ◌+◌, ◌-◌, ◌%◌, ◌≤◌, ◌<◌, ◌≡◌, refl, sym, ap, ◌∙◌, true, false, List, [], ◌∷◌, ◌++◌,
  append-nil, append_assoc, arith, inl, inr, Bool-cases, ltb, length, set, take, drop,
  length-append, length-set, length-drop, length-take, ltb→lt, drop_all, take_all, drop-append,
  dec_lt,
}
use native.Mathlib.Nat.{mod-eq_of_lt, mod_self}
use hellbox.Hub.{Event, Hub, append, ordered}

module _ {ℓ} {A : Type ℓ} where
  -- The last `n` elements, or all if there are fewer.
  abbrev pub last : ℕ → List A → List A
  last n xs = drop (length xs - n) xs

  -- A circular buffer read from index `k` on.
  abbrev pub rotate : ℕ → List A → List A
  rotate k xs = drop k xs ++ take k xs

  drop-suc-set : (xs : List A) (k : ℕ) (v : A) → drop (suc k) (set xs k v) ≡ drop (suc k) xs
  drop-suc-set [] k v = refl
  drop-suc-set (x ∷ xs) zero v = refl
  drop-suc-set (x ∷ xs) (suc k) v = drop-suc-set xs k v

  take-suc-set :
      (xs : List A) (k : ℕ) (v : A)
      → k < length xs
      → take (suc k) (set xs k v) ≡ take k xs ++ v ∷ []
  take-suc-set [] k v h = absurd (omega arith)
  take-suc-set (x ∷ xs) zero v h = refl
  take-suc-set (x ∷ xs) (suc k) v h = ap (λ r. x ∷ r) (take-suc-set xs k v (omega arith))

  drop_one-append :
      (xs ys : List A) (k : ℕ) → k < length xs → drop 1 (drop k xs ++ ys) ≡ drop (suc k) xs ++ ys
  drop_one-append [] ys k h = absurd (omega arith)
  drop_one-append (x ∷ xs) ys zero h = refl
  drop_one-append (x ∷ xs) ys (suc k) h = drop_one-append xs ys k (omega arith)

  drop_one-drop : (xs : List A) (k : ℕ) → drop 1 (drop k xs) ≡ drop (suc k) xs
  drop_one-drop [] zero = refl
  drop_one-drop [] (suc k) = refl
  drop_one-drop (x ∷ xs) zero = refl
  drop_one-drop (x ∷ xs) (suc k) = drop_one-drop xs k

  -- Writing over the oldest and stepping on drops it, and puts the new element last.
  rotate-set :
      (xs : List A) (k : ℕ) (v : A)
      → k < length xs
      → rotate ((k + 1) % length xs) (set xs k v) ≡ drop 1 (rotate k xs) ++ v ∷ []
  rotate-set xs k v h = elim (dec_lt (k + 1) (length xs)) [
    | yes p ↦
        let e : (k + 1) % length xs ≡ suc k = mod-eq_of_lt p ∙ omega arith in
        rw (
          e,
          drop-suc-set xs k v,
          take-suc-set xs k v h,
          drop_one-append xs (take k xs) k h,
          append_assoc,
        )
    | no p ↦
        let len : k + 1 ≡ length xs = omega arith in
        let e : (k + 1) % length xs ≡ 0 = rw len (mod_self (length xs)) in
        let whole : set xs k v ≡ take k xs ++ v ∷ [] =
          sym (take_all (suc k) (set xs k v) (omega (arith, length-set xs k v)))
          ∙ take-suc-set xs k v h in
        rw (
          e,
          append-nil,
          whole,
          drop_one-append xs (take k xs) k h,
          drop_all (suc k) xs (omega arith),
        )
  ]

  last-append_short :
      (n : ℕ) (xs : List A) (v : A) → length xs < n → last n (xs ++ v ∷ []) ≡ xs ++ v ∷ []
  last-append_short n xs v h =
      ap (λ k. drop k (xs ++ v ∷ [])) {y = 0} (omega (arith, length-append xs (v ∷ [])))

  last-append_long :
      (n : ℕ) (xs : List A) (v : A)
      → 0 < n
      → n ≤ length xs
      → last n (xs ++ v ∷ []) ≡ drop 1 (last n xs) ++ v ∷ []
  last-append_long n xs v p h =
      ap (λ k. drop k (xs ++ v ∷ [])) {y = suc (length xs - n)}
        (omega (arith, length-append xs (v ∷ [])))
      ∙ drop-append (suc (length xs - n)) xs (v ∷ []) (omega arith)
      ∙ ap (λ r. r ++ v ∷ []) (sym (drop_one-drop xs (length xs - n)))

module _ {ℓ} {A : Type ℓ} where
  length-rotate : (xs : List A) (k : ℕ) → k ≤ length xs → length (rotate k xs) ≡ length xs
  length-rotate xs k h =
      omega (arith, length-append (drop k xs) (take k xs), length-drop k xs, length-take k xs h)

  grow_rotated :
      (size start : ℕ) (ring history : List A) (v : A)
      → start ≡ 0
      → ring ≡ history
      → length ring < size
      → rotate start (ring ++ v ∷ []) ≡ last size (history ++ v ∷ [])
  grow_rotated size start ring history v z e h =
      ap (λ k. rotate k (ring ++ v ∷ [])) z
      ∙ append-nil (ring ++ v ∷ [])
      ∙ ap (λ r. r ++ v ∷ []) e
      ∙ sym (last-append_short size history v (rw (← e) h))

  wrap_rotated :
      (size start : ℕ) (ring history : List A) (v : A)
      → start < size
      → length ring ≡ size
      → rotate start ring ≡ last size history
      → rotate ((start + 1) % size) (set ring start v) ≡ last size (history ++ v ∷ [])
  wrap_rotated size start ring history v h len e =
      ap (λ n. rotate ((start + 1) % n) (set ring start v)) (sym len)
      ∙ rotate-set ring start v (omega arith)
      ∙ ap (λ r. drop 1 r ++ v ∷ []) e
      ∙ sym (last-append_long size history v (omega arith) enough)
    where
      enough : size ≤ length history
      enough = omega (
        arith,
        ap length e,
        length-rotate ring start (omega arith),
        length-drop (length history - size) history,
      )

-- The ring of `h` holds the last `size` events of `history`.
pub record Holds {ℓ} {A : Type ℓ} (size : ℕ) (h : Hub A) (history : List (Event A)) : Type ℓ where
  pub fits : length h.ring ≤ size
  pub ring_wrapped : h.full ≡ true → length h.ring ≡ size
  pub start_in : h.start < size
  pub ring_rotated : rotate h.start h.ring ≡ last size history
  pub ring_growing : length h.ring < size → (h.start ≡ 0) × (h.ring ≡ history)
  pub start_fresh : h.full ≡ false → h.start ≡ 0

module _ {ℓ} {A : Type ℓ} where
  pub append-Holds :
      (size : ℕ) (h : Hub A) (history : List (Event A)) (ev : Event A)
      → Holds size h history
      → Holds size (append size h ev) (history ++ ev ∷ [])
  unfolding append
  append-Holds size h history ev v = elim (Bool-cases (ltb (length h.ring) size)) [
    | inl small ↦
        let lt = ltb→lt (length h.ring) size small in
        let (z, e) = v.ring_growing lt in
        let len = length-append h.ring (ev ∷ []) in
        rw small (record {
          fits = omega arith;
          ring_wrapped = λ f. absurd (omega (arith, v.ring_wrapped f));
          start_in = v.start_in;
          ring_rotated = grow_rotated size h.start h.ring history ev z e lt;
          ring_growing = λ _. (z, ap (λ r. r ++ ev ∷ []) e);
          start_fresh = λ _. z;
        })
    | inr large ↦
        let len : length h.ring ≡ size = ground (arith, v.fits) in
        let same = length-set h.ring h.start ev in
        rw large (record {
          fits = omega arith;
          ring_wrapped = λ _. same ∙ len;
          start_in = omega (arith, v.start_in);
          ring_rotated = wrap_rotated size h.start h.ring history ev v.start_in len v.ring_rotated;
          ring_growing = λ p. absurd (omega arith);
          start_fresh = λ p. cc;
        })
  ]

  pub ordered-Holds :
      {size : ℕ} (h : Hub A) {history : List (Event A)}
      → Holds size h history
      → ordered h ≡ last size history
  unfolding ordered
  ordered-Holds h v = elim (Bool-cases h.full) [
    | inl f ↦ rw f v.ring_rotated
    | inr f ↦ rw f (
        sym (append-nil h.ring)
        ∙ ap (λ k. rotate k h.ring) (sym (v.start_fresh f))
        ∙ v.ring_rotated)
  ]
