-- ===== src/Dvd/Search.antt =====
-- internal/dvd/ifo.go: what of a file that is itself a Video Manager is read.
use hellbox.Base.{
  ℕ, zero, suc, ◌+◌, ◌*◌, ◌≤◌, ◌≡◌, refl, sym, ap, ◌∙◌, Unicode, Text, text_eq, Bool, true, false,
  List, [], ◌∷◌, Option, some, arith, inl, inr, Bool-cases, length, take, drop, length-take, ltb,
  if◌then◌else◌, starts_with, some_inj,
}
use hellbox.Dvd.{
  Source, bytes, read_vmg, read_at, vmg_magic, provider_offset, provider_len, scan_for_vmg,
  scan_from, find_from, sector_size, scan_sectors, find_vmg_sector, disc_title, provider_id,
  title_of, provider_of, text_data_title, head_or, text_sector,
}

head_kept :
    (head : List ℕ) (found : Option (List ℕ))
    → length head ≡ provider_offset + provider_len
    → starts_with vmg_magic head ≡ true
    → head_or head found ≡ some head
head_kept head found size magic = rw (size, magic) refl

-- Of ninety-six bytes of a Video Manager only the provider is read.
provider_only :
    (u : Unicode) (decode : List ℕ → Text) (source : Source) (raw : List ℕ)
    → length raw ≡ 96
    → title_of u decode source (some raw) ≡ provider_of u decode (some raw)
unfolding text_data_title text_sector
provider_only u decode source raw size = rw size refl

-- Of a file that is itself a Video Manager, `DiscTitle` gives what `ProviderID` gives: the title in its Text
-- Data Manager is never read, whatever the file holds.
pub file_title_is_provider :
    (u : Unicode) (decode : List ℕ → Text) (regular : Bool) (b : List ℕ)
    → starts_with vmg_magic (read_at b (provider_offset + provider_len) 0) ≡ true
    → provider_offset + provider_len ≤ length b
    → disc_title u decode (bytes regular b) ≡ provider_id u decode (bytes regular b)
unfolding disc_title provider_id read_vmg
file_title_is_provider u decode regular b magic long =
    let size : length (take 96 b) ≡ 96 = length-take 96 b long in
    let head = head_kept (take 96 b) (scan_for_vmg b) size magic in
    ap (title_of u decode (bytes regular b)) head
    ∙ provider_only u decode (bytes regular b) (take 96 b) size
    ∙ ap (provider_of u decode) (sym head)

take_le : (n : ℕ) (xs : List ℕ) → length (take n xs) ≤ length xs
take_le zero xs = omega arith
take_le (suc n) [] = omega arith
take_le (suc n) (x ∷ xs) = omega (arith, take_le n xs)

starts_with-take :
    (m : Text) (n : ℕ) (xs : List ℕ)
    → length m ≤ n
    → starts_with m (take n xs) ≡ text_eq (take (length m) xs) m
unfolding text_eq
starts_with-take [] n xs h = refl
starts_with-take (c ∷ m) zero xs h = absurd (omega arith)
starts_with-take (c ∷ m) (suc n) [] h = refl
starts_with-take (c ∷ m) (suc n) (x ∷ xs) h = ground (arith, starts_with-take m n xs (omega arith))

-- A sector's bytes as the two searches read them.
abbrev sector : List ℕ → ℕ → List ℕ
sector source s = drop (s * sector_size) source

sector_read :
    (source : List ℕ) (s : ℕ)
    → 96 ≤ length (read_at source sector_size (s * sector_size))
    → (length (read_at source (length vmg_magic) (s * sector_size)) ≡ 12)
      × (text_eq (read_at source (length vmg_magic) (s * sector_size)) vmg_magic
          ≡ starts_with vmg_magic (read_at source sector_size (s * sector_size)))
sector_read source s h = (
  length-take 12 (sector source s) (omega (arith, take_le sector_size (sector source s))),
  sym (starts_with-take vmg_magic sector_size (sector source s) (omega arith)),
)

-- A round of the second search, where twelve bytes are there.
find_round :
    (source : List ℕ) (left s : ℕ)
    → length (read_at source (length vmg_magic) (s * sector_size)) ≡ 12
    → find_from source (suc left) s ≡ (
        if text_eq (read_at source (length vmg_magic) (s * sector_size)) vmg_magic
        then some s
        else find_from source left (s + 1))
unfolding find_from
find_round source left s size = rw size refl

not_less : (a b : ℕ) → ltb a b ≡ false → b ≤ a
not_less a b h = ground arith

searches_agree :
    (source : List ℕ) (left s : ℕ) (vmg : List ℕ)
    → scan_from source left s ≡ some vmg
    → (found : ℕ) × (find_from source left s ≡ some found)
      × (vmg ≡ read_at source sector_size (found * sector_size))
      × (starts_with vmg_magic vmg ≡ true)
unfolding scan_from
searches_agree source zero s vmg h = cc
searches_agree source (suc left) s vmg h =
    elim (Bool-cases (ltb (length (read_at source sector_size (s * sector_size))) 96)) [
      | inl short ↦ cc (rw short at h)
      | inr long ↦
          let (size, same) = sector_read source s (not_less _ 96 long) in
          elim (Bool-cases (starts_with vmg_magic (read_at source sector_size (s * sector_size)))) [
            | inl magic ↦
                let e = some_inj (rw (long, magic) at h) in
                (
                  s,
                  find_round source left s size
                      ∙ ap (λ b. if b then some s else find_from source left (s + 1))
                          (same ∙ magic),
                  sym e,
                  ap (starts_with vmg_magic) (sym e) ∙ magic,
                )
            | inr plain ↦
                let next =
                  find_round source left s size
                  ∙ ap (λ b. if b then some s else find_from source left (s + 1)) (same ∙ plain) in
                elim (Bool-cases
                  (ltb (length (read_at source sector_size (s * sector_size))) sector_size)) [
                    | inl last ↦ cc (rw (long, plain, last) at h)
                    | inr full ↦
                        let (found, e, same_bytes, magic) =
                          searches_agree source left (s + 1) vmg (rw (long, plain, full) at h) in
                        (found, next ∙ e, same_bytes, magic)
                  ]
          ]
    ]

-- The two searches of a raw disc agree: where the one gives the start of a Video Manager, the other gives
-- the sector of these bytes, and they begin with the magic.
pub scan_for_vmg-find_vmg_sector :
    (source : List ℕ) (vmg : List ℕ)
    → scan_for_vmg source ≡ some vmg
    → (found : ℕ) × (find_vmg_sector source ≡ some found)
      × (vmg ≡ read_at source sector_size (found * sector_size))
      × (starts_with vmg_magic vmg ≡ true)
unfolding scan_for_vmg find_vmg_sector
scan_for_vmg-find_vmg_sector source vmg h = searches_agree source scan_sectors 0 vmg h
