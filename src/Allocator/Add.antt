-- ===== src/Allocator/Add.antt =====
-- src/efi/allocator.rs: `force_add_region` and `mark_as_acpi_reclaim`, which change the list
-- through pushes that may fail.
use crab_efi.Prelude.{
  ℕ, ◌/◌, Bool, true, false, ◌&&◌, ◌||◌, Option, none, some, List, ltb, if◌then◌else◌, add64, sub64,
  checked_mul,
}
use crab_efi.Status.{invalid_parameter, out_of_resources, Result, ok, err}
use crab_efi.Allocator.Types.{
  Descriptor, MemoryAllocator, MemoryType, reserved_memory_type, acpi_reclaim_memory,
  acpi_memory_nvs, page_size, new_descriptor, get_memory_type, eq_type, end, efi_memory_wb,
}
use crab_efi.Allocator.Entries.{push, remove, position, any, sort_entries}
use crab_efi.Allocator.Carve.{runtime_attribute, covers, range_end}

-- `map_key += 1; sort_entries()`, with no merge
abbrev pub commit_unmerged : MemoryAllocator → List Descriptor → MemoryAllocator
commit_unmerged m ds = sort_entries (record m { entries = ds; map_key = add64 m.map_key 1 })

-- A push, and `OUT_OF_RESOURCES` on a full list.
abbrev add_entry : MemoryAllocator → Option (List Descriptor) → MemoryAllocator × Result (Unit {0})
add_entry m none = (m, err out_of_resources)
add_entry m (some ds) = (commit_unmerged m ds, ok tt)

unfoldable pub force_add_region :
    MemoryAllocator → ℕ → ℕ → MemoryType → MemoryAllocator × Result (Unit {0})
force_add_region m physical_start num_pages t =
    add_entry m (
      push m.entries
        (new_descriptor t physical_start num_pages (runtime_attribute t efi_memory_wb)))

abbrev overlaps : ℕ → ℕ → Descriptor → Bool
overlaps addr stop d = ltb addr (end d) && ltb d.physical_start stop

-- The range lies in no entry: it is added if it overlaps none.
unfoldable pub mark_new : MemoryAllocator → ℕ → ℕ → ℕ → MemoryAllocator × Result (Unit {0})
mark_new m addr num_pages stop =
    if any (overlaps addr stop) m.entries
    then (m, err invalid_parameter)
    else add_entry m
        (push m.entries (new_descriptor acpi_reclaim_memory addr num_pages efi_memory_wb))

-- `if cond { if entries.push(desc).is_err() { return Err(OUT_OF_RESOURCES) } }`: the list so far,
-- and whether the call goes on.
abbrev push_if : Bool → Descriptor → List Descriptor × Bool → List Descriptor × Bool
push_if true d (ds, true) = elim (push ds d) [ none ↦ (ds, false) | some es ↦ (es, true) ]
push_if _ d r = r

abbrev or_reserved : Option MemoryType → MemoryType
or_reserved none = reserved_memory_type
or_reserved (some t) = t

abbrev settle : MemoryAllocator → List Descriptor × Bool → MemoryAllocator × Result (Unit {0})
settle m (ds, true) = (commit_unmerged m ds, ok tt)
settle m (ds, false) = (record m { entries = ds }, err out_of_resources)

-- The range lies in entry `idx`. Where a push fails the entry is gone and the rest is not sorted.
unfoldable pub mark_at :
    MemoryAllocator → ℕ → ℕ → ℕ → ℕ → Descriptor → MemoryAllocator × Result (Unit {0})
mark_at m addr num_pages stop idx entry =
    let original = or_reserved (get_memory_type entry) in
    let start = entry.physical_start in
    let before = new_descriptor original start (sub64 addr start / page_size) entry.attribute in
    let acpi = new_descriptor acpi_reclaim_memory addr num_pages entry.attribute in
    let after = new_descriptor original stop (sub64 (end entry) stop / page_size) entry.attribute in
    let pushed =
      push_if (ltb stop (end entry)) after
        (push_if true acpi (push_if (ltb start addr) before (remove idx m.entries, true))) in
    if eq_type original acpi_reclaim_memory || eq_type original acpi_memory_nvs
    then (m, ok tt)
    else settle m pushed

unfoldable pub mark_range : MemoryAllocator → ℕ → ℕ → ℕ → MemoryAllocator × Result (Unit {0})
mark_range m addr num_pages stop = elim (position (covers addr stop) m.entries) [
  | none ↦ mark_new m addr num_pages stop
  | some (idx, entry) ↦ mark_at m addr num_pages stop idx entry
]

unfoldable pub mark_as_acpi_reclaim : MemoryAllocator → ℕ → ℕ → MemoryAllocator × Result (Unit {0})
mark_as_acpi_reclaim m addr num_pages = elim (range_end addr (checked_mul num_pages page_size)) [
  | none ↦ (m, err invalid_parameter)
  | some stop ↦ mark_range m addr num_pages stop
]
