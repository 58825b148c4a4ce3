-- ===== src/Dvd/Tests.antt =====
-- A Video Manager in a file, and one in the second sector of a disc.
use hellbox.Base.{
  ℕ, zero, suc, ◌*◌, ◌≡◌, refl, true, List, [], ◌∷◌, ◌++◌, some, arith, codes, ascii, starts_with,
  text_eq, trim_left, trim_right, trim_space,
}
use hellbox.Dvd.{
  bytes, read_at, sector_size, vmg_magic, scan_for_vmg, scan_from, find_vmg_sector, disc_title,
  provider_id, clean_provider, provider_text, is_name, is_generic_provider, utf8_printable,
  trim_nuls,
}
use hellbox.Dvd.Search.{file_title_is_provider, scan_for_vmg-find_vmg_sector}

abbrev nuls : ℕ → List ℕ
nuls zero = []
nuls (suc n) = 0 ∷ nuls n

abbrev manager : List ℕ
manager = vmg_magic ++ nuls 52 ++ codes "The Karate Kid" ++ nuls 150

kid : clean_provider ascii (λ b. b) (codes "The Karate Kid" ++ nuls 18) ≡ codes "The Karate Kid"
unfolding clean_provider provider_text is_name is_generic_provider utf8_printable trim_nuls
    trim_space trim_left trim_right text_eq
kid = refl

file_title_is_provider_example :
    disc_title ascii (λ b. b) (bytes true manager) ≡ provider_id ascii (λ b. b) (bytes true manager)
file_title_is_provider_example =
    file_title_is_provider ascii (λ b. b) true manager refl (omega arith)

-- A disc with nothing in its first sector.
abbrev disc : List ℕ
disc = nuls sector_size ++ manager

scan_for_vmg-find_vmg_sector_example :
    (found : ℕ) × (find_vmg_sector disc ≡ some found)
    × (manager ≡ read_at disc sector_size (found * sector_size))
    × (starts_with vmg_magic manager ≡ true)
unfolding scan_for_vmg scan_from
scan_for_vmg-find_vmg_sector_example = scan_for_vmg-find_vmg_sector disc manager refl
