-- ===== src/Allocator/Types.antt =====
-- src/efi/allocator.rs: memory types, attributes, descriptors and the allocator's state.
use crab_efi.Prelude.{
  ℕ, Bool, true, false, Option, none, some, List, [], ◌==◌, if◌then◌else◌, u64_max, checked_add,
  checked_mul,
}

-- `MAX_MEMORY_ENTRIES`, `PAGE_SIZE`, `MAX_IDENTITY_MAPPED_ADDRESS`
abbrev pub max_memory_entries : ℕ
max_memory_entries = 512

abbrev pub page_size : ℕ
page_size = 4096

abbrev pub max_identity_mapped_address : ℕ
max_identity_mapped_address = 0x1000000000

pub data AllocateType : Type 0 where
  allocate_any_pages allocate_max_address allocate_address : AllocateType

pub data MemoryType : Type 0 where
  reserved_memory_type loader_code loader_data boot_services_code : MemoryType
  boot_services_data runtime_services_code runtime_services_data : MemoryType
  conventional_memory unusable_memory acpi_reclaim_memory acpi_memory_nvs : MemoryType
  memory_mapped_io memory_mapped_io_port_space pal_code persistent_memory : MemoryType

-- `memory_type as u32`
abbrev pub to_u32 : MemoryType → ℕ
to_u32 reserved_memory_type = 0
to_u32 loader_code = 1
to_u32 loader_data = 2
to_u32 boot_services_code = 3
to_u32 boot_services_data = 4
to_u32 runtime_services_code = 5
to_u32 runtime_services_data = 6
to_u32 conventional_memory = 7
to_u32 unusable_memory = 8
to_u32 acpi_reclaim_memory = 9
to_u32 acpi_memory_nvs = 10
to_u32 memory_mapped_io = 11
to_u32 memory_mapped_io_port_space = 12
to_u32 pal_code = 13
to_u32 persistent_memory = 14

unfoldable pub from_u32 : ℕ → Option MemoryType
from_u32 value =
    if value == 0
    then some reserved_memory_type
    else if value == 1
    then some loader_code
    else if value == 2
    then some loader_data
    else if value == 3
    then some boot_services_code
    else if value == 4
    then some boot_services_data
    else if value == 5
    then some runtime_services_code
    else if value == 6
    then some runtime_services_data
    else if value == 7
    then some conventional_memory
    else if value == 8
    then some unusable_memory
    else if value == 9
    then some acpi_reclaim_memory
    else if value == 10
    then some acpi_memory_nvs
    else if value == 11
    then some memory_mapped_io
    else if value == 12
    then some memory_mapped_io_port_space
    else if value == 13
    then some pal_code
    else if value == 14
    then some persistent_memory
    else none

-- The derived `==` of the enum, by discriminant.
abbrev pub eq_type : MemoryType → MemoryType → Bool
eq_type a b = to_u32 a == to_u32 b

abbrev pub is_boot_services : MemoryType → Bool
is_boot_services boot_services_code = true
is_boot_services boot_services_data = true
is_boot_services loader_code = true
is_boot_services loader_data = true
is_boot_services _ = false

-- The attribute bits that the allocator sets or clears.
abbrev pub efi_memory_uc : ℕ
efi_memory_uc = 0x1

abbrev pub efi_memory_wb : ℕ
efi_memory_wb = 0x8

abbrev pub efi_memory_xp : ℕ
efi_memory_xp = 0x4000

abbrev pub efi_memory_runtime : ℕ
efi_memory_runtime = 0x8000000000000000

-- `MemoryDescriptor`
pub record Descriptor : Type 0 where
  pub memory_type : ℕ
  pub padding : ℕ
  pub physical_start : ℕ
  pub virtual_start : ℕ
  pub number_of_pages : ℕ
  pub attribute : ℕ

-- `MemoryDescriptor::new`
abbrev pub new_descriptor : MemoryType → ℕ → ℕ → ℕ → Descriptor
new_descriptor memory_type physical_start number_of_pages attribute = record {
  memory_type = to_u32 memory_type;
  padding = 0;
  physical_start = physical_start;
  virtual_start = 0;
  number_of_pages = number_of_pages;
  attribute = attribute;
}

abbrev unwrap_or_max : Option ℕ → ℕ
unwrap_or_max none = u64_max
unwrap_or_max (some e) = e

abbrev end_of_size : ℕ → Option ℕ → Option ℕ
end_of_size start none = none
end_of_size start (some size) = checked_add start size

-- `MemoryDescriptor::end`, exclusive; u64::MAX where it would overflow
unfoldable pub end : Descriptor → ℕ
end d = unwrap_or_max (end_of_size d.physical_start (checked_mul d.number_of_pages page_size))

-- `MemoryDescriptor::get_memory_type`
abbrev pub get_memory_type : Descriptor → Option MemoryType
get_memory_type d = from_u32 d.memory_type

-- `get_memory_type() == Some(t)`
abbrev pub is_type : Option MemoryType → MemoryType → Bool
is_type none t = false
is_type (some s) t = eq_type s t

-- `MemoryAllocator`
pub record MemoryAllocator : Type 0 where
  pub entries : List Descriptor
  pub map_key : ℕ
  pub boot_services_exited : Bool

-- `MemoryAllocator::new`
abbrev pub new_allocator : MemoryAllocator
new_allocator = record { entries = []; map_key = 1; boot_services_exited = false }
