-- ===== src/Allocator/Importing.antt =====
-- src/efi/allocator.rs: the memory map that `init_from_coreboot` builds.
use crab_efi.Prelude.{
  ℕ, ◌+◌, ◌-◌, ◌/◌, ◌%◌, ◌≤◌, ◌<◌, ◌&&◌, Option, none, some, List, [], ◌∷◌, ◌++◌, append_assoc,
  append-nil, map, ◌≡◌, refl, ap, sym, ◌∙◌, ◌⊎◌, leb, ltb, if◌then◌else◌, length, length-append,
  length-map, u64_max, le_trans, arith, true, checked_add,
}
use crab_efi.Allocator.Types.{
  Descriptor, MemoryAllocator, new_descriptor, page_size, max_memory_entries, efi_memory_wb, to_u32,
}
use crab_efi.Allocator.Entries.{push_unchecked, sort_by_start, sort_entries, merge_entries}
use crab_efi.Allocator.Import.{
  CbMemoryType, MemoryRegion, cb_to_efi_memory_type, default_attribute, import_rounded,
  import_regions, init_from_coreboot,
}
use crab_efi.Allocator.Chain.{IsWell, stop, region_at}
use crab_efi.Allocator.Carving.{Valid}
use crab_efi.Allocator.Merging.{merge_list-Chain, region_at-merge_list, length-merge_list}
use crab_efi.Allocator.Scattered.{AllApart, Scattered, sort-Scattered, region_at-sort, length-sort}

-- Regions as coreboot describes them: whole pages, at least one, inside the address space, and no two
-- sharing an address.
pub record WellRegion (r : MemoryRegion) : Type 0 where
  pub start_aligned : r.start % page_size ≡ 0
  pub size_aligned : r.size % page_size ≡ 0
  pub nonempty : 0 < r.size
  pub fits : r.start + r.size ≤ u64_max

abbrev pub AllBeside : MemoryRegion → List MemoryRegion → Type 0
AllBeside r [] = Unit {0}
AllBeside r (q ∷ qs) =
    ((r.start + r.size ≤ q.start) ⊎ (q.start + q.size ≤ r.start)) × AllBeside r qs

abbrev pub Regions : List MemoryRegion → Type 0
Regions [] = Unit {0}
Regions (r ∷ rs) = WellRegion r × AllBeside r rs × Regions rs

-- The type and attributes of the memory at an address, as the regions give them.
unfoldable pub described_at : List MemoryRegion → ℕ → Option (ℕ × ℕ)
described_at [] a = none
described_at (r ∷ rs) a =
    if leb r.start a && ltb a (r.start + r.size)
    then some (to_u32 (cb_to_efi_memory_type r.region_type), efi_memory_wb)
    else described_at rs a

abbrev describe : MemoryRegion → Descriptor
describe r =
    new_descriptor (cb_to_efi_memory_type r.region_type) r.start (r.size / page_size) efi_memory_wb

wb_attribute : (t : CbMemoryType) → default_attribute (cb_to_efi_memory_type t) ≡ efi_memory_wb
wb_attribute CbMemoryType.ram = refl
wb_attribute CbMemoryType.reserved = refl
wb_attribute CbMemoryType.acpi_reclaimable = refl
wb_attribute CbMemoryType.acpi_nvs = refl
wb_attribute CbMemoryType.unusable = refl
wb_attribute CbMemoryType.table = refl

known_type : (t : CbMemoryType) → to_u32 (cb_to_efi_memory_type t) < 15
known_type CbMemoryType.ram = omega arith
known_type CbMemoryType.reserved = omega arith
known_type CbMemoryType.acpi_reclaimable = omega arith
known_type CbMemoryType.acpi_nvs = omega arith
known_type CbMemoryType.unusable = omega arith
known_type CbMemoryType.table = omega arith

stop-describe : (r : MemoryRegion) → WellRegion r → stop (describe r) ≡ r.start + r.size
stop-describe r w = omega (arith, w.size_aligned)

describe-IsWell : (r : MemoryRegion) → WellRegion r → IsWell (describe r)
describe-IsWell r w = record {
  aligned = w.start_aligned;
  nonempty = omega (arith, w.size_aligned, w.nonempty);
  fits = omega (arith, w.size_aligned, w.fits);
  known = known_type r.region_type;
}

describe-AllApart :
    (r : MemoryRegion) (rs : List MemoryRegion)
    → WellRegion r
    → AllBeside r rs
    → Regions rs
    → AllApart (describe r) (map describe rs)
describe-AllApart r [] w k s = tt
describe-AllApart r (q ∷ qs) w k s =
    let left = stop-describe r w in
    let right = stop-describe q s.0 in (rw (left, right) k.0, describe-AllApart r qs w k.1 s.2)

describe-Scattered : (rs : List MemoryRegion) → Regions rs → Scattered (map describe rs)
describe-Scattered [] s = tt
describe-Scattered (r ∷ rs) s =
    (describe-IsWell r s.0, describe-AllApart r rs s.0 s.1 s.2, describe-Scattered rs s.2)

region_at-describe :
    (rs : List MemoryRegion) (a : ℕ)
    → Regions rs
    → region_at (map describe rs) a ≡ described_at rs a
unfolding region_at described_at
region_at-describe [] a s = refl
region_at-describe (r ∷ rs) a s = ground (arith, stop-describe r s.0, region_at-describe rs a s.2)

-- The rounded size of a region of whole pages is its size.
import_rounded-describe :
    (r : MemoryRegion) (ds : List Descriptor)
    → WellRegion r
    → length ds < max_memory_entries
    → import_rounded r ds (checked_add r.size (page_size - 1)) ≡ ds ++ (describe r ∷ [])
unfolding push_unchecked
import_rounded-describe r ds w room =
    let rounded : checked_add r.size (page_size - 1) ≡ some (r.size + (page_size - 1)) =
      ground (arith, w.size_aligned, w.fits) in
    let pages : (r.size + (page_size - 1)) / page_size ≡ r.size / page_size =
      omega (arith, w.size_aligned) in
    let fits : ltb (length ds) max_memory_entries ≡ true = ground (arith, room) in
    rw (rounded, pages, fits, wb_attribute r.region_type) refl

import_regions-describe :
    (rs : List MemoryRegion) (ds : List Descriptor)
    → Regions rs
    → length ds + length rs ≤ max_memory_entries
    → import_regions ds rs ≡ ds ++ map describe rs
unfolding import_regions
import_regions-describe [] ds s h = sym (append-nil ds)
import_regions-describe (r ∷ rs) ds s h =
    ap (λ x. import_regions x rs) (import_rounded-describe r ds s.0 (omega (arith, h)))
    ∙ import_regions-describe rs (ds ++ (describe r ∷ [])) s.2
        (omega (arith, h, length-append ds (describe r ∷ [])))
    ∙ append_assoc ds (describe r ∷ []) (map describe rs)

-- For at most 512 regions in any order, of whole pages and at least one, inside the address space, no
-- two of them sharing an address: the map that is built is valid, gives every address the type of its
-- region and the write-back attribute, whatever that type is, and gives nothing to an address of no region.
pub init_from_coreboot_lem :
    (m : MemoryAllocator) (rs : List MemoryRegion)
    → Regions rs
    → length rs ≤ max_memory_entries
    → Valid (init_from_coreboot m rs)
      × ((a : ℕ) → region_at (init_from_coreboot m rs).entries a ≡ described_at rs a)
unfolding init_from_coreboot sort_entries merge_entries
init_from_coreboot_lem m rs s h =
    let ds = map describe rs in
    let scattered = describe-Scattered rs s in
    let chain = sort-Scattered ds scattered in
    let imported = import_regions-describe rs [] s (omega (arith, h)) in
    rw imported (
      record {
        chain = merge_list-Chain 0 u64_max (sort_by_start ds) chain;
        within =
            le_trans (length-merge_list (sort_by_start ds))
              (rw (length-sort ds, length-map rs describe) h);
      },
      λ a.
          region_at-merge_list 0 u64_max (sort_by_start ds) a chain
          ∙ region_at-sort ds a scattered
          ∙ region_at-describe rs a s,
    )
