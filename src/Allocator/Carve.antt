-- ===== src/Allocator/Carve.antt =====
-- src/efi/allocator.rs: the operations that cut a range out of an entry: `carve_out`,
-- `try_reallocate_loader_region`, `mark_as_acpi_reclaim`, and `force_add_region`, which adds one.
use crab_efi.Prelude.{
  ℕ, ◌+◌, ◌-◌, ◌/◌, Bool, true, false, not, ◌&&◌, ◌||◌, Option, none, some, List, leb, ltb,
  if◌then◌else◌, length, bit_and, bit_or, u64_max, add64, sub64, checked_add, checked_mul,
}
use crab_efi.Status.{invalid_parameter, not_found, out_of_resources, Result, ok, err}
use crab_efi.Allocator.Types.{
  Descriptor, MemoryAllocator, MemoryType, conventional_memory, loader_code, loader_data,
  reserved_memory_type, runtime_services_code, runtime_services_data, max_memory_entries, page_size,
  new_descriptor, get_memory_type, is_type, eq_type, end, efi_memory_xp, efi_memory_runtime,
}
use crab_efi.Allocator.Entries.{push_unchecked, remove, position, sort_entries, merge_entries}

-- The attributes of a new runtime region: `EFI_MEMORY_RUNTIME`, and `EFI_MEMORY_XP` on data only.
unfoldable pub runtime_attribute : MemoryType → ℕ → ℕ
runtime_attribute t attribute =
    if eq_type t runtime_services_code
    then bit_and (bit_or attribute efi_memory_runtime) (u64_max - efi_memory_xp)
    else if eq_type t runtime_services_data
    then bit_or (bit_or attribute efi_memory_runtime) efi_memory_xp
    else attribute

abbrev pub covers : ℕ → ℕ → Descriptor → Bool
covers addr stop d = leb d.physical_start addr && leb stop (end d)

abbrev pub covers_free : ℕ → ℕ → Descriptor → Bool
covers_free addr stop d = is_type (get_memory_type d) conventional_memory && covers addr stop d

abbrev pub is_loader : Descriptor → Bool
is_loader d = is_type (get_memory_type d) loader_code || is_type (get_memory_type d) loader_data

abbrev pub covers_loader : ℕ → ℕ → Descriptor → Bool
covers_loader addr stop d = is_loader d && covers addr stop d

abbrev as_count : Bool → ℕ
as_count true = 1
as_count false = 0

-- `new_entries_needed`
abbrev pub entries_needed : Descriptor → ℕ → ℕ → ℕ
entries_needed entry addr stop =
    1 + as_count (ltb entry.physical_start addr) + as_count (ltb stop (end entry))

-- The check for space before a split: merge if the list would outgrow its 512 places, and then
-- check again. The flag says whether there is room.
unfoldable pub make_room : MemoryAllocator → ℕ → MemoryAllocator × Bool
make_room m needed =
    let merged = merge_entries m in
    let fits = not (ltb max_memory_entries (length merged.entries + needed - 1)) in
    if ltb max_memory_entries (length m.entries + needed - 1) then (merged, fits) else (m, true)

-- Entry `idx` gives way to what lies before the range, the range, and what lies behind it.
unfoldable pub split_entry :
    List Descriptor → ℕ → Descriptor → Descriptor → MemoryType → ℕ → List Descriptor
split_entry ds idx entry carved kept stop =
    let addr = carved.physical_start in
    let removed = remove idx ds in
    let before =
      new_descriptor kept entry.physical_start (sub64 addr entry.physical_start / page_size)
        entry.attribute in
    let with_before =
      if ltb entry.physical_start addr then push_unchecked removed before else removed in
    let with_carved = push_unchecked with_before carved in
    let after = new_descriptor kept stop (sub64 (end entry) stop / page_size) entry.attribute in
    if ltb stop (end entry) then push_unchecked with_carved after else with_carved

-- `map_key += 1; sort_entries(); merge_entries()` on a changed list
abbrev pub commit : MemoryAllocator → List Descriptor → MemoryAllocator
commit m ds = merge_entries (sort_entries (record m { entries = ds; map_key = add64 m.map_key 1 }))

-- `carve_out` once entry `idx` is found. The index is not looked up again after `make_room`.
unfoldable pub carve_at :
    MemoryAllocator → ℕ → ℕ → MemoryType → ℕ → ℕ → Descriptor → MemoryAllocator × Result (Unit {0})
carve_at m addr num_pages t stop idx entry =
    let (room, fits) = make_room m (entries_needed entry addr stop) in
    let carved = new_descriptor t addr num_pages (runtime_attribute t entry.attribute) in
    if fits
    then (commit room (split_entry room.entries idx entry carved conventional_memory stop), ok tt)
    else (room, err out_of_resources)

-- `addr + num_pages * PAGE_SIZE`, checked
abbrev pub range_end : ℕ → Option ℕ → Option ℕ
range_end addr none = none
range_end addr (some size) = checked_add addr size

unfoldable pub carve_range :
    MemoryAllocator → ℕ → ℕ → MemoryType → ℕ → MemoryAllocator × Result (Unit {0})
carve_range m addr num_pages t stop = elim (position (covers_free addr stop) m.entries) [
  | none ↦ (m, err not_found)
  | some (idx, entry) ↦ carve_at m addr num_pages t stop idx entry
]

unfoldable pub carve_out :
    MemoryAllocator → ℕ → ℕ → MemoryType → MemoryAllocator × Result (Unit {0})
carve_out m addr num_pages t = elim (range_end addr (checked_mul num_pages page_size)) [
  | none ↦ (m, err invalid_parameter)
  | some stop ↦ carve_range m addr num_pages t stop
]

-- `reserve_region`
unfoldable pub reserve_region :
    MemoryAllocator → ℕ → ℕ → MemoryType → MemoryAllocator × Result (Unit {0})
reserve_region = carve_out

-- `try_reallocate_loader_region` once entry `idx` is found.
unfoldable pub reallocate_at :
    MemoryAllocator → ℕ → ℕ → MemoryType → ℕ → ℕ → Descriptor → MemoryType → MemoryAllocator × Bool
reallocate_at m addr num_pages t stop idx entry original =
    let (room, fits) = make_room m (entries_needed entry addr stop) in
    let carved = new_descriptor t addr num_pages entry.attribute in
    if eq_type original t
    then (m, true)
    else if fits
    then (commit room (split_entry room.entries idx entry carved original stop), true)
    else (room, false)

-- The `unwrap` of the type cannot fail, since the search asked for a loader type.
abbrev pub unwrap_type : Option MemoryType → MemoryType
unwrap_type none = reserved_memory_type
unwrap_type (some t) = t

unfoldable pub reallocate_range : MemoryAllocator → ℕ → ℕ → MemoryType → ℕ → MemoryAllocator × Bool
reallocate_range m addr num_pages t stop = elim (position (covers_loader addr stop) m.entries) [
  | none ↦ (m, false)
  | some (idx, entry) ↦
      reallocate_at m addr num_pages t stop idx entry (unwrap_type (get_memory_type entry))
]

unfoldable pub try_reallocate_loader_region :
    MemoryAllocator → ℕ → ℕ → MemoryType → MemoryAllocator × Bool
try_reallocate_loader_region m addr num_pages t =
    elim (range_end addr (checked_mul num_pages page_size)) [
      | none ↦ (m, false)
      | some stop ↦ reallocate_range m addr num_pages t stop
    ]
