-- ===== src/Allocator/Search.antt =====
-- src/efi/allocator.rs: `find_free_pages` and `is_region_free`.
use crab_efi.Prelude.{
  ℕ, Bool, false, not, ◌&&◌, ◌||◌, Option, none, some, List, [], ◌∷◌, leb, ltb, min, if◌then◌else◌,
  add64, sub64, checked_add, checked_mul, align_down, reverse,
}
use crab_efi.Allocator.Types.{
  Descriptor, MemoryAllocator, conventional_memory, max_identity_mapped_address, page_size,
  get_memory_type, is_type, end,
}
use crab_efi.Allocator.Entries.{any}
use crab_efi.Allocator.Carve.{covers_free}

-- One entry of the search: the highest page-aligned place for `size` bytes that ends at or below
-- `max_addr`.
unfoldable pub fit_entry : ℕ → ℕ → ℕ → Descriptor → Option ℕ
fit_entry num_pages size max_addr d =
    let usable_end = min max_addr (end d) in
    let below_limit = align_down (sub64 usable_end size) page_size in
    let at_end = sub64 (end d) size in
    if not (is_type (get_memory_type d) conventional_memory) || leb max_addr d.physical_start
    then none
    else if ltb max_addr (end d)
    then (if leb (add64 d.physical_start size) usable_end && leb d.physical_start below_limit
        then some below_limit
        else none)
    else if leb num_pages d.number_of_pages && leb d.physical_start at_end
    then some at_end
    else none

abbrev pub or_else {ℓ} : {A : Type ℓ} → Option A → Option A → Option A
or_else none o = o
or_else (some a) o = some a

unfoldable pub find_first : (Descriptor → Option ℕ) → List Descriptor → Option ℕ
find_first f [] = none
find_first f (d ∷ ds) = or_else (f d) (find_first f ds)

abbrev find_of_size : MemoryAllocator → ℕ → ℕ → Option ℕ → Option ℕ
find_of_size m num_pages max_addr none = none
find_of_size m num_pages max_addr (some size) =
    find_first (fit_entry num_pages size (min max_addr max_identity_mapped_address))
      (reverse m.entries)

unfoldable pub find_free_pages : MemoryAllocator → ℕ → ℕ → Option ℕ
find_free_pages m num_pages max_addr =
    find_of_size m num_pages max_addr (checked_mul num_pages page_size)

abbrev is_range_free : MemoryAllocator → ℕ → Option ℕ → Bool
is_range_free m start none = false
is_range_free m start (some stop) = any (covers_free start stop) m.entries

unfoldable pub is_region_free : MemoryAllocator → ℕ → ℕ → Bool
is_region_free m start size = is_range_free m start (checked_add start size)
