-- ===== src/Drive/Region/Playable.antt =====
-- internal/drive/region.go and protection.go: a drive plays a disc exactly if the rules say so.
use Prim.Native.Nat.{bit_and}
use hellbox.Base.{
  ℕ, zero, suc, ◌+◌, ◌-◌, ◌^◌, ◌≤◌, ◌<◌, ◌≡◌, ◌≢◌, ◌↔◌, ◌⊎◌, inl, inr, refl, sym, ◌∙◌, Bool, true,
  not, List, arith, ◌==◌, ==_iff, if◌then◌else◌, any, Bool-cases, bit, every, every_sound,
  bit_and-shared, shared-bit_and, ℕ_discrete,
}
use hellbox.Drive.Region.{
  Region, Protection, rpc2, is_set, clear_regions, region_list, allowed_regions, playable_in,
}

-- Whether a number is in a list.
abbrev pub contains : ℕ → List ℕ → Bool
contains k = any (λ j. j == k)

-- Over a byte, the mask of bit `i` is zero exactly if the complement has the bit.
abbrev agrees : Bool → Bool → Bool
agrees a b = if a then b else not b

agrees_eq : (a b : Bool) → agrees a b ≡ true → a ≡ b
agrees_eq a b h = ground arith

clear_table :
    every 8 (λ i. every 256 (λ m. agrees (bit_and m (2 ^ i) == 0) (bit (255 - m) i == 1))) ≡ true
unfolding every
clear_table = refl

clear-eq-bit : (i m : ℕ) → i < 8 → m < 256 → (bit_and m (2 ^ i) == 0) ≡ (bit (255 - m) i == 1)
clear-eq-bit i m hi hm = agrees_eq _ _ (every_sound 256 _ m (every_sound 8 _ i clear_table hi) hm)

-- The loop lists the number after each index whose bit is clear.
clear_regions_sound :
    (m n i k : ℕ)
    → contains k (clear_regions m n i) ≡ true
    → (j : ℕ) × (j < i + n) × (k ≡ j + 1) × ((bit_and m (2 ^ j) == 0) ≡ true)
unfolding clear_regions
clear_regions_sound m zero i k h = absurd (cc)
clear_regions_sound m (suc n) i k h = elim (Bool-cases (bit_and m (2 ^ i) == 0)) [
  | inl clear ↦ elim (Bool-cases (i + 1 == k)) [
    | inl here ↦ (i, omega arith, ground arith, clear)
    | inr other ↦
        let (j, lt, e, c) = clear_regions_sound m n (i + 1) k (rw (clear, other) at h) in
        (j, omega arith, e, c)
  ]
  | inr taken ↦
      let (j, lt, e, c) = clear_regions_sound m n (i + 1) k (rw taken at h) in
      (j, omega arith, e, c)
]

clear_regions_complete :
    (m n i j : ℕ)
    → i ≤ j
    → j < i + n
    → (bit_and m (2 ^ j) == 0) ≡ true
    → contains (j + 1) (clear_regions m n i) ≡ true
unfolding clear_regions
clear_regions_complete m zero i j h lt c = absurd (omega arith)
clear_regions_complete m (suc n) i j h lt c = elim (ℕ_discrete i j) [
  | yes p ↦ let here : (bit_and m (2 ^ i) == 0) ≡ true = rw p c in rw here (ground arith)
  | no p ↦
      let later = clear_regions_complete m n (i + 1) j (omega arith) (omega arith) c in
      elim (Bool-cases (bit_and m (2 ^ i) == 0)) [
        | inl clear ↦ rw clear (ground (arith, later))
        | inr taken ↦ rw taken later
      ]
]

-- Two masks leave a common bit exactly if some region is in both lists.
shared-common :
    (m m' : ℕ)
    → m < 256
    → m' < 256
    → bit_and (255 - m) (255 - m') ≢ 0
    → (k : ℕ) × (contains k (clear_regions m 8 0) ≡ true)
      × (contains k (clear_regions m' 8 0) ≡ true)
shared-common m m' h h' e =
    let (i, lt, p, q) = shared-bit_and 8 (255 - m) (255 - m') (omega arith) e in
    (
      i + 1,
      clear_regions_complete m 8 0 i (omega arith) lt (clear-eq-bit i m lt h ∙ (==_iff _ 1).1 p),
      clear_regions_complete m' 8 0 i (omega arith) lt (clear-eq-bit i m' lt h' ∙ (==_iff _ 1).1 q),
    )

common-shared :
    (m m' k : ℕ)
    → m < 256
    → m' < 256
    → contains k (clear_regions m 8 0) ≡ true
    → contains k (clear_regions m' 8 0) ≡ true
    → bit_and (255 - m) (255 - m') ≢ 0
common-shared m m' k h h' c c' =
    let (i, lt, e, p) = clear_regions_sound m 8 0 k c in
    let (j, lt', e', q) = clear_regions_sound m' 8 0 k c' in
    let same : j ≡ i = omega arith in
    let p' = (==_iff _ 1).0 (sym (clear-eq-bit i m (omega arith) h) ∙ p) in
    let q' = (==_iff _ 1).0 (sym (clear-eq-bit j m' (omega arith) h') ∙ q) in
    bit_and-shared i (255 - m) (255 - m') p' (rw same at q')

full_table : every 256 (λ m. bit_and 255 (255 - m) == 255 - m) ≡ true
unfolding every
full_table = refl

-- A drive and a disc have a region in common.
abbrev pub HaveCommonRegion : Protection → Region → Type 0
HaveCommonRegion p r =
    (k : ℕ) × (contains k (allowed_regions p) ≡ true) × (contains k (region_list r) ≡ true)

region_list-set : (r : Region) → is_set r ≡ true → region_list r ≡ clear_regions r.mask 8 0
unfolding region_list
region_list-set r e = rw e

-- An RPC-2 drive plays a protected disc only if it is set and a bit is left in both masks.
playable_rpc2 :
    (p : Protection) (r : Region)
    → r.mask < 256
    → p.system ≢ 0
    → r.scheme ≡ rpc2
    → playable_in p r ≡ true
    → (is_set r ≡ true) × (bit_and (255 - p.region_mask) (255 - r.mask) ≢ 0)
unfolding playable_in is_set
playable_rpc2 p r h s c e = (ground arith, shared)
  where
    shared : bit_and (255 - p.region_mask) (255 - r.mask) ≢ 0
    shared = elim (ℕ_discrete p.region_mask 0) [
      | yes free ↦
          let full = (==_iff _ _).0 (every_sound 256 _ r.mask full_table h) in
          let unset : r.mask ≢ 255 = ground arith in rw (free, full) (omega arith)
      | no coded ↦ ground arith
    ]

HaveCommonRegion-is_set : (p : Protection) (r : Region) → HaveCommonRegion p r → is_set r ≡ true
unfolding region_list
HaveCommonRegion-is_set p r (k, c, c') = elim (Bool-cases (is_set r)) [
  | inl e ↦ e
  | inr e ↦ absurd (cc (rw e at c'))
]

-- `PlayableIn` against the region lists that `Regions` shows: with byte masks, a drive plays a
-- disc exactly if the disc is not protected, or the drive is not RPC-2, or some region is both
-- among those the disc allows and among those the drive is set to play.
pub playable_iff :
    (p : Protection) (r : Region)
    → p.region_mask < 256
    → r.mask < 256
    → (playable_in p r ≡ true) ↔ ((p.system ≡ 0) ⊎ (r.scheme ≢ rpc2) ⊎ HaveCommonRegion p r)
playable_iff p r h h' = (there, back)
  where
    there : playable_in p r ≡ true → (p.system ≡ 0) ⊎ (r.scheme ≢ rpc2) ⊎ HaveCommonRegion p r
    there e = elim (ℕ_discrete p.system 0) [
      | yes plain ↦ inl plain
      | no coded ↦ elim (ℕ_discrete r.scheme rpc2) [
        | no other ↦ inr (inl other)
        | yes same ↦
            let (s, bits) = playable_rpc2 p r h' coded same e in
            let (k, c, c') = shared-common p.region_mask r.mask h h' bits in
            inr (inr (k, unfold allowed_regions in c, rw (region_list-set r s) c'))
      ]
    ]

    back : (p.system ≡ 0) ⊎ (r.scheme ≢ rpc2) ⊎ HaveCommonRegion p r → playable_in p r ≡ true
    back (inl plain) = unfold playable_in in ground arith
    back (inr (inl other)) = unfold playable_in in ground arith
    back (inr (inr common)) =
        let s = HaveCommonRegion-is_set p r common in
        let c' = rw (region_list-set r s) at (common.2) in
        let bits =
          common-shared p.region_mask r.mask common.0 h h' (unfold allowed_regions in common.1)
            c' in
        unfold playable_in in ground arith
