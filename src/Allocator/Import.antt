-- ===== src/Allocator/Import.antt =====
-- src/efi/allocator.rs: `init_from_coreboot`, the import of the coreboot memory map.
use crab_efi.Prelude.{ℕ, ◌-◌, ◌/◌, Option, none, some, List, [], ◌∷◌, checked_add}
use crab_efi.Allocator.Types.{
  Descriptor, MemoryAllocator, MemoryType, conventional_memory, acpi_reclaim_memory,
  reserved_memory_type, acpi_memory_nvs, unusable_memory, boot_services_data, memory_mapped_io,
  memory_mapped_io_port_space, page_size, new_descriptor, efi_memory_wb, efi_memory_uc,
}
use crab_efi.Allocator.Entries.{push_unchecked, sort_entries, merge_entries}

-- coreboot/memory.rs: `MemoryType` and `MemoryRegion`
pub data CbMemoryType : Type 0 where
  ram reserved acpi_reclaimable acpi_nvs unusable table : CbMemoryType

pub record MemoryRegion : Type 0 where
  pub start : ℕ
  pub size : ℕ
  pub region_type : CbMemoryType

abbrev pub cb_to_efi_memory_type : CbMemoryType → MemoryType
cb_to_efi_memory_type ram = conventional_memory
cb_to_efi_memory_type reserved = reserved_memory_type
cb_to_efi_memory_type acpi_reclaimable = acpi_reclaim_memory
cb_to_efi_memory_type acpi_nvs = acpi_memory_nvs
cb_to_efi_memory_type unusable = unusable_memory
cb_to_efi_memory_type table = boot_services_data

abbrev pub default_attribute : MemoryType → ℕ
default_attribute memory_mapped_io = efi_memory_uc
default_attribute memory_mapped_io_port_space = efi_memory_uc
default_attribute _ = efi_memory_wb

-- One round of the import loop: a region whose rounded size overflows is skipped, and so is one
-- that finds the list full.
abbrev pub import_rounded : MemoryRegion → List Descriptor → Option ℕ → List Descriptor
import_rounded r ds none = ds
import_rounded r ds (some rounded) =
    let t = cb_to_efi_memory_type r.region_type in
    push_unchecked ds (new_descriptor t r.start (rounded / page_size) (default_attribute t))

unfoldable pub import_regions : List Descriptor → List MemoryRegion → List Descriptor
import_regions ds [] = ds
import_regions ds (r ∷ rs) =
    import_regions (import_rounded r ds (checked_add r.size (page_size - 1))) rs

unfoldable pub init_from_coreboot : MemoryAllocator → List MemoryRegion → MemoryAllocator
init_from_coreboot m regions =
    merge_entries (sort_entries (record m { entries = import_regions [] regions; map_key = 1 }))
