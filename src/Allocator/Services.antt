-- ===== src/Allocator/Services.antt =====
-- src/efi/allocator.rs: AllocatePages, FreePages, GetMemoryMap, ExitBootServices and the query of
-- a type by address.
use crab_efi.Prelude.{
  ℕ, ◌*◌, ◌%◌, Bool, true, false, not, ◌&&◌, ◌||◌, Option, none, some, List, map, ◌==◌, leb, ltb,
  min, if◌then◌else◌, length, take, set, add64, checked_mul, u64_max,
}
use crab_efi.Status.{
  Status, success, invalid_parameter, unsupported, not_found, out_of_resources, buffer_too_small,
  Result, ok, err,
}
use crab_efi.Allocator.Types.{
  Descriptor, MemoryAllocator, MemoryType, conventional_memory, AllocateType, allocate_any_pages,
  allocate_max_address, allocate_address, page_size, get_memory_type, from_u32, to_u32,
  is_boot_services, eq_type, end,
}
use crab_efi.Allocator.Entries.{position, merge_entries}
use crab_efi.Allocator.Carve.{carve_out, try_reallocate_loader_region}
use crab_efi.Allocator.Search.{find_free_pages, is_region_free}

-- The state after a call, its status, and what it leaves in `*memory`.
abbrev pub Allocated : Type 0
Allocated = MemoryAllocator × Status × ℕ

abbrev report : ℕ → ℕ → MemoryAllocator × Result (Unit {0}) → Allocated
report memory addr (m, ok _) = (m, success, addr)
report memory addr (m, err s) = (m, s, memory)

unfoldable pub allocate_below : MemoryAllocator → MemoryType → ℕ → ℕ → ℕ → Allocated
allocate_below m t num_pages max_addr memory = elim (find_free_pages m num_pages max_addr) [
  | none ↦ (m, out_of_resources, memory)
  | some addr ↦ report memory addr (carve_out m addr num_pages t)
]

abbrev report_reallocated : ℕ → MemoryAllocator × Bool → Allocated
report_reallocated memory (m, true) = (m, success, memory)
report_reallocated memory (m, false) = (m, not_found, memory)

unfoldable pub allocate_at : MemoryAllocator → MemoryType → ℕ → ℕ → ℕ → Allocated
allocate_at m t num_pages size memory =
    if not (memory % page_size == 0)
    then (m, invalid_parameter, memory)
    else if is_region_free m memory size
    then report memory memory (carve_out m memory num_pages t)
    else report_reallocated memory (try_reallocate_loader_region m memory num_pages t)

abbrev allocate_sized : MemoryAllocator → AllocateType → MemoryType → ℕ → ℕ → Option ℕ → Allocated
allocate_sized m a t num_pages memory none = (m, out_of_resources, memory)
allocate_sized m allocate_any_pages t num_pages memory (some size) =
    allocate_below m t num_pages u64_max memory
allocate_sized m allocate_max_address t num_pages memory (some size) =
    allocate_below m t num_pages memory memory
allocate_sized m allocate_address t num_pages memory (some size) =
    allocate_at m t num_pages size memory

unfoldable pub allocate_pages : MemoryAllocator → AllocateType → MemoryType → ℕ → ℕ → Allocated
allocate_pages m a t num_pages memory =
    if num_pages == 0
    then (m, invalid_parameter, memory)
    else if m.boot_services_exited
    then (m, unsupported, memory)
    else allocate_sized m a t num_pages memory (checked_mul num_pages page_size)

abbrev can_free : Option MemoryType → Bool
can_free none = false
can_free (some t) = is_boot_services t || eq_type t conventional_memory

abbrev pub is_allocation : ℕ → ℕ → Descriptor → Bool
is_allocation memory num_pages d =
    d.physical_start == memory && d.number_of_pages == num_pages && can_free (get_memory_type d)

abbrev pub set_free : Descriptor → Descriptor
set_free d = record d { memory_type = to_u32 conventional_memory }

unfoldable pub free_at : MemoryAllocator → ℕ → Descriptor → MemoryAllocator
free_at m idx d =
    merge_entries
      (record m { entries = set m.entries idx (set_free d); map_key = add64 m.map_key 1 })

unfoldable pub free_found : MemoryAllocator → Option (ℕ × Descriptor) → MemoryAllocator × Status
free_found m none = (m, not_found)
free_found m (some (idx, d)) = (free_at m idx d, success)

unfoldable pub free_pages : MemoryAllocator → ℕ → ℕ → MemoryAllocator × Status
free_pages m memory num_pages =
    if not (memory % page_size == 0) || num_pages == 0
    then (m, invalid_parameter)
    else if m.boot_services_exited
    then (m, unsupported)
    else free_found m (position (is_allocation memory num_pages) m.entries)

-- `size_of::<MemoryDescriptor>()`: two `u32` and four `u64`.
abbrev pub descriptor_bytes : ℕ
descriptor_bytes = 40

-- What `get_memory_map` leaves behind its out parameters, and the copied part of the buffer.
pub record MapReply : Type 0 where
  pub status : Status
  pub memory_map_size : ℕ
  pub memory_map : Option (List Descriptor)
  pub map_key : ℕ
  pub descriptor_size : ℕ
  pub descriptor_version : ℕ

-- A buffer is given by its length in descriptors; the reply holds what is copied to its front.
unfoldable pub get_memory_map : MemoryAllocator → Option ℕ → MapReply
get_memory_map m none = record {
  status = buffer_too_small;
  memory_map_size = length m.entries * descriptor_bytes;
  memory_map = none;
  map_key = m.map_key;
  descriptor_size = descriptor_bytes;
  descriptor_version = 1;
}
get_memory_map m (some places) =
    let required = length m.entries * descriptor_bytes in
    let small = ltb (places * descriptor_bytes) required in
    record {
      status = if small then buffer_too_small else success;
      memory_map_size = required;
      memory_map = if small then none else some (take (min (length m.entries) places) m.entries);
      map_key = m.map_key;
      descriptor_size = descriptor_bytes;
      descriptor_version = 1;
    }

abbrev is_boot_type : Option MemoryType → Bool
is_boot_type none = false
is_boot_type (some t) = is_boot_services t

-- One round of the loop of `exit_boot_services`.
unfoldable pub release_boot : Descriptor → Descriptor
release_boot d = if is_boot_type (get_memory_type d) then set_free d else d

unfoldable pub exit_boot_services : MemoryAllocator → ℕ → MemoryAllocator × Status
exit_boot_services m provided_map_key =
    let exited = record m {
      entries = map release_boot m.entries;
      map_key = add64 m.map_key 1;
      boot_services_exited = true;
    } in
    if not (provided_map_key == m.map_key)
    then (m, invalid_parameter)
    else (merge_entries exited, success)

abbrev pub holds : ℕ → Descriptor → Bool
holds address d = leb d.physical_start address && ltb address (end d)

abbrev pub type_of_found : Option (ℕ × Descriptor) → Option MemoryType
type_of_found none = none
type_of_found (some (_, d)) = from_u32 d.memory_type

unfoldable pub get_memory_type_at : MemoryAllocator → ℕ → Option MemoryType
get_memory_type_at m address = type_of_found (position (holds address) m.entries)
