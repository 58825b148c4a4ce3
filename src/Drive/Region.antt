-- ===== src/Drive/Region.antt =====
-- internal/drive/region.go and internal/drive/protection.go: the region state of a drive, the copy
-- protection of a disc, and whether the one can read the other. All fields are bytes.
pub mod Playable
use Prim.Native.Nat.{bit_and}
use hellbox.Base.{
  ℕ, zero, suc, ◌+◌, ◌-◌, ◌/◌, ◌%◌, ◌^◌, Bool, true, false, not, ◌&&◌, ◌||◌, List, [], ◌∷◌, ltb,
  ◌==◌, if◌then◌else◌, length, get_or,
}

abbrev pub rpc2 : ℕ
rpc2 = 1

pub record Region : Type 0 where
  pub scheme : ℕ
  pub type_code : ℕ
  pub mask : ℕ
  pub user_changes : ℕ
  pub vendor_resets : ℕ

-- `Region.IsSet`
unfoldable pub is_set : Region → Bool
is_set r = not (r.type_code == 0) && not (r.mask == 0xff)

-- The loop `for i := 0; i < 8; i++`, with `n` rounds left: the regions whose bit is clear.
unfoldable pub clear_regions : ℕ → ℕ → ℕ → List ℕ
clear_regions mask zero i = []
clear_regions mask (suc n) i =
    let rest = clear_regions mask n (i + 1) in
    if bit_and mask (2 ^ i) == 0 then (i + 1) ∷ rest else rest

-- `Region.Regions`
unfoldable pub region_list : Region → List ℕ
unfolding clear_regions is_set
region_list r = if not (is_set r) then [] else clear_regions r.mask 8 0

-- `Region.CanDecryptCSS`
unfoldable pub can_decrypt_css : Region → Bool
unfolding is_set
can_decrypt_css r = not (r.scheme == rpc2) || is_set r

-- `parseRPCState`; shifts and masks of a byte are `/` and `%` by powers of two.
unfoldable pub parse_rpc_state : List ℕ → Region
parse_rpc_state b =
    if ltb (length b) 7
    then record { scheme = 0; type_code = 0; mask = 0; user_changes = 0; vendor_resets = 0 }
    else record {
      type_code = at 4 / 2 ^ 6 % 4;
      vendor_resets = at 4 / 2 ^ 3 % 8;
      user_changes = at 4 % 8;
      mask = at 5;
      scheme = at 6;
    }
  where
    at : ℕ → ℕ
    at i = get_or b i 0

pub record Protection : Type 0 where
  pub system : ℕ
  pub region_mask : ℕ

-- `Protection.Protected`
unfoldable pub is_protected : Protection → Bool
is_protected p = not (p.system == 0)

-- `Protection.RegionFree`
unfoldable pub region_free : Protection → Bool
region_free p = p.region_mask == 0

-- `Protection.Regions`
unfoldable pub allowed_regions : Protection → List ℕ
unfolding clear_regions
allowed_regions p = clear_regions p.region_mask 8 0

-- `Protection.PlayableIn`; `^m` of a byte is `255 - m`.
unfoldable pub playable_in : Protection → Region → Bool
unfolding is_protected region_free can_decrypt_css
playable_in p r =
    if not (is_protected p)
    then true
    else if not (can_decrypt_css r)
    then false
    else if region_free p || not (r.scheme == rpc2)
    then true
    else not (bit_and (255 - p.region_mask) (255 - r.mask) == 0)

-- `parseCopyright`
unfoldable pub parse_copyright : List ℕ → Protection
parse_copyright b =
    if ltb (length b) 6
    then record { system = 0; region_mask = 0 }
    else record { system = get_or b 4 0; region_mask = get_or b 5 0 }
