-- ===== src/Iso/Tests.antt =====
-- src/fs/iso9660.rs: a run of the search in a catalog.
use crab_efi.Prelude.{ℕ, List, ◌∷◌, ◌++◌, ◌≡◌, refl, replicate}
use crab_efi.Disk.{ok}
use crab_efi.Iso.{scan_catalog, search_sections, search_entries}
use crab_efi.Iso.Catalog.{FromEntry, scan_catalog-FromEntry}

-- A validation entry for the PC, an empty default entry, and one section with one image for EFI: 8
-- sectors at 20.
abbrev catalog : List ℕ
catalog =
    (1 ∷ 0 ∷ replicate 28 0)
    ++ (0x55 ∷ 0xAA ∷ replicate 32 0)
    ++ (0x91 ∷ 0xEF ∷ 1 ∷ 0 ∷ replicate 28 0)
    ++ (0x88 ∷ 0 ∷ 0 ∷ 0 ∷ 0 ∷ 0 ∷ 8 ∷ 0 ∷ 20 ∷ 0 ∷ 0 ∷ 0 ∷ replicate 1940 0)

test_scan_catalog :
    scan_catalog catalog 4
    ≡ ok (record { start_sector = 80; sector_count = 32; size_bytes = 16384 })
unfolding scan_catalog search_sections search_entries
test_scan_catalog = refl

scan_catalog-FromEntry_example : FromEntry catalog 4 (scan_catalog catalog 4)
scan_catalog-FromEntry_example = scan_catalog-FromEntry catalog 4
