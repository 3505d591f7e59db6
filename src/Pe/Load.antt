-- ===== src/Pe/Load.antt =====
-- src/pe/mod.rs: `load_image` behind its header checks, and `unload_image`.
use crab_efi.Prelude.{
  ℕ, zero, suc, ◌+◌, ◌-◌, ◌*◌, ◌/◌, ◌&&◌, ◌||◌, Option, none, some, List, ◌==◌, ltb, min,
  if◌then◌else◌, length, add64, sub64,
}
use crab_efi.Status.{Status, success, invalid_parameter, Result, ok, err}
use crab_efi.Bytes.{Memory, byte, le32, fill_zero, copy_in}
use crab_efi.Allocator.Types.{MemoryAllocator, loader_code, allocate_any_pages, page_size}
use crab_efi.Allocator.Services.{Allocated, allocate_pages, free_pages}
use crab_efi.Pe.{
  Headers, parse_headers, section_header_size, optional_header_size, data_directory_size,
}
use crab_efi.Pe.Relocate.{Relocated, continue_with, apply_relocations}

-- The allocator and the memory.
pub record Firmware : Type 0 where
  pub allocator : MemoryAllocator
  pub memory : Memory

pub record LoadedImage : Type 0 where
  pub image_base : ℕ
  pub image_size : ℕ
  pub entry_point : ℕ
  pub num_pages : ℕ

-- One section: the two sizes and the two places that its header gives. A section that the file does
-- not hold is left out. The sums of `u32` values do not overflow a `usize`.
unfoldable pub copy_section : List ℕ → ℕ → ℕ → Memory → ℕ → Relocated
copy_section bytes image_size load_addr mem offset =
    let virt_size = le32 (byte bytes) (offset + 8) in
    let virt_addr = le32 (byte bytes) (offset + 12) in
    let raw_size = le32 (byte bytes) (offset + 16) in
    let raw_ptr = le32 (byte bytes) (offset + 20) in
    let copy_size = min raw_size virt_size in
    if raw_size == 0 || raw_ptr == 0
    then (mem, ok tt)
    else if ltb (length bytes) (raw_ptr + copy_size)
    then (mem, ok tt)
    else if ltb image_size (virt_addr + copy_size)
    then (mem, err invalid_parameter)
    else (copy_in mem bytes raw_ptr (load_addr + virt_addr) copy_size, ok tt)

-- The loop over so many section headers, from an offset in the file on.
unfoldable pub copy_sections : List ℕ → ℕ → ℕ → ℕ → Memory → ℕ → Relocated
copy_sections bytes image_size load_addr zero mem offset = (mem, ok tt)
copy_sections bytes image_size load_addr (suc n) mem offset =
    let (mem', result) = copy_section bytes image_size load_addr mem offset in
    elim result [
      | ok _ ↦ copy_sections bytes image_size load_addr n mem' (offset + section_header_size)
      | err e ↦ (mem', err e)
    ]

-- The entry for base relocations in the data directory, and what is done by it.
unfoldable pub relocate_image : List ℕ → Headers → ℕ → Memory → Option Relocated
relocate_image bytes h load_addr mem =
    let delta = sub64 load_addr h.optional.image_base in
    let data_dirs_offset = h.coff.opt_offset + optional_header_size in
    let data_dirs_end = data_dirs_offset + h.optional.num_data_dirs * data_directory_size in
    let reloc_rva = le32 (byte bytes) (data_dirs_offset + 5 * data_directory_size) in
    let reloc_size = le32 (byte bytes) (data_dirs_offset + 5 * data_directory_size + 4) in
    if delta == 0
    then some (mem, ok tt)
    else if ltb (length bytes) data_dirs_end
    then some (mem, err invalid_parameter)
    else if ltb 5 h.optional.num_data_dirs && ltb 0 reloc_rva && ltb 0 reloc_size
    then apply_relocations load_addr h.optional.image_size delta mem reloc_rva reloc_size
    else some (mem, ok tt)

-- The zeroed image with the headers in it.
abbrev pub with_headers : List ℕ → Headers → ℕ → Memory → Memory
with_headers bytes h load_addr mem =
    copy_in (fill_zero mem load_addr h.optional.image_size) bytes 0 load_addr
      h.optional.size_of_headers

unfoldable pub fill_image : List ℕ → Headers → ℕ → Memory → Option Relocated
fill_image bytes h load_addr mem =
    continue_with
      (copy_sections bytes h.optional.image_size load_addr h.coff.num_sections
        (with_headers bytes h load_addr mem) h.sections_offset)
      (relocate_image bytes h load_addr)

abbrev pub image_pages : Headers → ℕ
image_pages h = (h.optional.image_size + (page_size - 1)) / page_size

-- The image, or its pages given back.
abbrev pub finish : Headers → MemoryAllocator → ℕ → Relocated → Firmware × Result LoadedImage
finish h m load_addr (mem, ok _) = (
  record { allocator = m; memory = mem },
  ok (record {
    image_base = load_addr;
    image_size = h.optional.image_size;
    entry_point = add64 load_addr h.optional.entry_point_rva;
    num_pages = image_pages h;
  }),
)
finish h m load_addr (mem, err e) =
    (record { allocator = (free_pages m load_addr (image_pages h)).0; memory = mem }, err e)

abbrev pub finish_run :
    Headers → MemoryAllocator → ℕ → Option Relocated → Option (Firmware × Result LoadedImage)
finish_run h m load_addr none = none
finish_run h m load_addr (some r) = some (finish h m load_addr r)

abbrev pub load_allocated :
    List ℕ → Headers → Memory → Allocated → Option (Firmware × Result LoadedImage)
load_allocated bytes h mem (m, success, load_addr) =
    finish_run h m load_addr (fill_image bytes h load_addr mem)
load_allocated bytes h mem (m, s, load_addr) = some (record { allocator = m; memory = mem }, err s)

abbrev pub load_parsed : Firmware → List ℕ → Result Headers → Option (Firmware × Result LoadedImage)
load_parsed f bytes (err e) = some (f, err e)
load_parsed f bytes (ok h) =
    load_allocated bytes h f.memory
      (allocate_pages f.allocator allocate_any_pages loader_code (image_pages h) 0)

-- `none` would be a run out of fuel.
unfoldable pub load_image : Firmware → List ℕ → Option (Firmware × Result LoadedImage)
load_image f bytes = load_parsed f bytes (parse_headers bytes)

unfoldable pub unload_image : Firmware → LoadedImage → Firmware × Status
unload_image f image =
    let (m, s) = free_pages f.allocator image.image_base image.num_pages in
    (record f { allocator = m }, s)
