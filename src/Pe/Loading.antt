-- ===== src/Pe/Loading.antt =====
-- src/pe/mod.rs: what `load_image` leaves in the allocator and in memory.
use crab_efi.Prelude.{
  Option, none, some, ℕ, zero, suc, ◌+◌, ◌*◌, ◌==◌, ◌&&◌, ◌≤◌, ◌<◌, List, length, arith, refl, ◌≡◌,
  u64_mod, sub64, Option, some, ◌%◌, ◌⊎◌, inl, Bool-cases, ◌^◌, inr,
}
use crab_efi.Bytes.{Memory, Outside, fill_zero, copy_in, le32, byte}
use crab_efi.Pe.{
  Headers, CoffHeader, OptionalHeader, parse_headers, parse_optional, parse_coff, parse_dos,
  max_image_size, ok, section_header_size, Result, false, err, optional_header_size,
  data_directory_size, ltb,
}
use crab_efi.Pe.Writing.{
  fill_zero-Outside, copy_in-Outside, Outside-trans, apply_relocations-Ends, continue_with-Ends,
  Ends, stays-Ends, ends,
}
use crab_efi.Status.{bind_inverted, success, result-cases}
use crab_efi.Pe.Load.{
  copy_section, copy_sections, relocate_image, with_headers, fill_image, Firmware, load_image,
  LoadedImage, load_parsed, image_pages, finish_run,
}
use crab_efi.Allocator.Types.{
  MemoryAllocator, allocate_any_pages, loader_code, page_size, max_identity_mapped_address,
}
use crab_efi.Allocator.Carving.{Valid}
use crab_efi.Allocator.Services.{allocate_pages, free_pages}
use crab_efi.Allocator.CarveOut.{HasRoom, Carved}
use crab_efi.Allocator.Allocate.{allocate_pages_search}
use crab_efi.Pe.Relocate.{Relocated}

-- What the checks leave of the fields that are used later.
pub record IsChecked (bytes : List ℕ) (o : OptionalHeader) : Type 0 where
  pub nonempty : 0 < o.image_size
  pub small : o.image_size ≤ max_image_size
  pub entry : o.entry_point_rva < o.image_size
  pub headers_fit : o.size_of_headers ≤ o.image_size
  pub headers_read : o.size_of_headers ≤ length bytes

parse_optional-IsChecked :
    (bytes : List ℕ) (coff : CoffHeader) (o : OptionalHeader)
    → parse_optional bytes coff ≡ ok o
    → IsChecked bytes o
unfolding parse_optional
parse_optional-IsChecked bytes coff o e = ground arith

parse_headers-IsChecked :
    (bytes : List ℕ) (h : Headers) → parse_headers bytes ≡ ok h → IsChecked bytes h.optional
unfolding parse_headers
parse_headers-IsChecked bytes h e =
    let (pe_offset, _, after_dos) = bind_inverted (parse_dos bytes) _ e in
    let (coff, _, after_coff) = bind_inverted (parse_coff bytes pe_offset) _ after_dos in
    let (o, parsed, rest) = bind_inverted (parse_optional bytes coff) _ after_coff in
    let same : h.optional ≡ o = ground (arith, rest) in
    rw same (parse_optional-IsChecked bytes coff o parsed)

module _ (bytes : List ℕ) (image_size load_addr : ℕ) (fits : load_addr + image_size ≤ u64_mod) where
  copy_section-Inside :
      (mem : Memory) (offset : ℕ)
      → Outside load_addr image_size mem (copy_section bytes image_size load_addr mem offset).0
  unfolding copy_section copy_in
  copy_section-Inside mem offset a out = ground (arith, out)

  copy_sections-Inside :
      (n : ℕ) (mem : Memory) (offset : ℕ)
      → Outside load_addr image_size mem (copy_sections bytes image_size load_addr n mem offset).0
  unfolding copy_sections
  copy_sections-Inside zero mem offset a out = refl
  copy_sections-Inside (suc n) mem offset a out =
      let step = copy_section bytes image_size load_addr mem offset in
      ground (
        arith,
        copy_section-Inside mem offset a out,
        copy_sections-Inside n step.0 (offset + section_header_size) a out,
      )

module _ (bytes : List ℕ) (h : Headers) (load_addr : ℕ) (checked : IsChecked bytes h.optional)
    (fits : load_addr + h.optional.image_size ≤ u64_mod) where
  abbrev size : ℕ
  size = h.optional.image_size

  relocate_image-Ends :
      (mem : Memory)
      → Ends load_addr size
          (sub64 load_addr h.optional.image_base)
          fits
          mem
          (relocate_image bytes h load_addr mem)
  unfolding relocate_image
  relocate_image-Ends mem =
      let delta = sub64 load_addr h.optional.image_base in
      let stays = stays-Ends load_addr size delta fits mem in
      let dirs = h.coff.opt_offset + optional_header_size in
      let reloc_rva = le32 (byte bytes) (dirs + 5 * data_directory_size) in
      let reloc_size = le32 (byte bytes) (dirs + 5 * data_directory_size + 4) in
      let beyond = ltb (length bytes) (dirs + h.optional.num_data_dirs * data_directory_size) in
      let has_table = ltb 5 h.optional.num_data_dirs && ltb 0 reloc_rva && ltb 0 reloc_size in
      elim (Bool-cases (delta == 0)) [
        | inl same ↦ rw same (stays _)
        | inr moved ↦ elim (Bool-cases beyond) [
          | inl short ↦ rw (moved, short) (stays _)
          | inr long ↦ elim (Bool-cases has_table) [
            | inl table ↦
                rw (moved, long, table)
                  (apply_relocations-Ends load_addr size delta fits mem reloc_rva reloc_size)
            | inr no_table ↦ rw (moved, long, no_table) (stays _)
          ]
        ]
      ]

  with_headers-Inside :
      (mem : Memory) → Outside load_addr size mem (with_headers bytes h load_addr mem)
  with_headers-Inside mem =
      Outside-trans load_addr size mem (fill_zero mem load_addr size)
        (with_headers bytes h load_addr mem) (fill_zero-Outside mem load_addr size)
        (copy_in-Outside (fill_zero mem load_addr size) bytes 0 load_addr h.optional.size_of_headers
          load_addr size (omega arith) (omega (arith, checked.headers_fit)))

  fill_image-Ends :
      (mem : Memory)
      → Ends load_addr size
          (sub64 load_addr h.optional.image_base)
          fits
          mem
          (fill_image bytes h load_addr mem)
  unfolding fill_image
  fill_image-Ends mem =
      continue_with-Ends load_addr size (sub64 load_addr h.optional.image_base) fits mem
        (copy_sections bytes size load_addr h.coff.num_sections (with_headers bytes h load_addr mem)
          h.sections_offset)
        (relocate_image bytes h load_addr)
        (Outside-trans load_addr size mem (with_headers bytes h load_addr mem) _
          (with_headers-Inside mem)
          (copy_sections-Inside bytes size load_addr fits h.coff.num_sections
            (with_headers bytes h load_addr mem) h.sections_offset))
        relocate_image-Ends

-- The pages of an image that is loaded, or was.
pub record LoadedAt (f : Firmware) (m : MemoryAllocator) (load_addr num_pages : ℕ) : Type 0 where
  pub allocated :
      allocate_pages f.allocator allocate_any_pages loader_code num_pages 0
      ≡ (m, success, load_addr)
  pub carved : Carved f.allocator m load_addr num_pages loader_code
  pub aligned : load_addr % page_size ≡ 0
  pub mapped : load_addr + num_pages * page_size ≤ max_identity_mapped_address

-- The outcomes of `load_image`. The image lies in fresh pages with its entry point inside; nothing
-- but the image is written to; where the load fails behind the allocation, the pages go to FreePages.
abbrev pub Loads : Firmware → Option (Firmware × Result LoadedImage) → Type 0
Loads f none = ⊥
Loads f (some (f', ok image)) =
    LoadedAt f f'.allocator image.image_base image.num_pages
    × (image.image_size ≤ image.num_pages * page_size)
    × (image.image_base ≤ image.entry_point)
    × (image.entry_point < image.image_base + image.image_size)
    × Outside image.image_base image.image_size f.memory f'.memory
Loads f (some (f', err e)) =
    (f' ≡ f)
    ⊎ ((m : MemoryAllocator) × (load_addr : ℕ) × (num_pages : ℕ) × LoadedAt f m load_addr num_pages
        × (f'.allocator ≡ (free_pages m load_addr num_pages).0)
        × Outside load_addr (num_pages * page_size) f.memory f'.memory)

module _ (f : Firmware) (bytes : List ℕ) (h : Headers) (checked : IsChecked bytes h.optional) where
  -- The pages that are asked for hold the image.
  pages_enough :
      (h.optional.image_size ≤ image_pages h * page_size)
      × (0 < image_pages h)
      × (image_pages h * page_size ≤ 2 ^ 63)
  pages_enough = omega (arith, checked.nonempty, checked.small)

  module _ (m : MemoryAllocator) (load_addr : ℕ) (at : LoadedAt f m load_addr (image_pages h)) where
    image_fits : load_addr + h.optional.image_size ≤ u64_mod
    image_fits = omega (arith, at.mapped, pages_enough)

    finish-Loads :
        (o : Option Relocated)
        → Ends load_addr h.optional.image_size
            (sub64 load_addr h.optional.image_base)
            image_fits
            f.memory
            o
        → Loads f (finish_run h m load_addr o)
    finish-Loads o (ends (mem, ok _) inside) = (
      at,
      pages_enough.0,
      omega (arith, image_fits, checked.entry),
      omega (arith, image_fits, checked.entry),
      inside,
    )
    finish-Loads o (ends (mem, err e) inside) = inr (
      m,
      load_addr,
      image_pages h,
      at,
      refl,
      (λ a out. inside a (ground (arith, out, pages_enough))),
    )

  load_parsed-Loads :
      Valid f.allocator
      → HasRoom f.allocator
      → f.allocator.boot_services_exited ≡ false
      → Loads f (load_parsed f bytes (ok h))
  load_parsed-Loads v room before =
      elim (allocate_pages_search f.allocator allocate_any_pages loader_code (image_pages h) 0 v
        room before (λ e. cc) pages_enough.1 pages_enough.2) [
          | inl (m, load_addr, done, carved, aligned, mapped) ↦
              let at : LoadedAt f m load_addr (image_pages h) = record {
                allocated = done;
                carved = carved;
                aligned = aligned;
                mapped = omega (arith, mapped);
              } in
              rw done (
                finish-Loads m load_addr at (fill_image bytes h load_addr f.memory)
                  (fill_image-Ends bytes h load_addr checked (image_fits m load_addr at) f.memory))
          | inr (full, _) ↦ rw full (inl refl)
        ]

-- In a valid map with room for two more entries, before ExitBootServices: `load_image` ends for every
-- file. It succeeds with an image in fresh pages that contain its entry point, and no address outside
-- the image is written; or it fails and changes nothing, or fails having written inside the pages
-- that it took and having handed them to FreePages.
pub load_image-Loads :
    (f : Firmware) (bytes : List ℕ)
    → Valid f.allocator
    → HasRoom f.allocator
    → f.allocator.boot_services_exited ≡ false
    → Loads f (load_image f bytes)
unfolding load_image
load_image-Loads f bytes v room before = elim (result-cases (parse_headers bytes)) [
  | inl (e, bad) ↦ rw bad (inl refl)
  | inr (h, good) ↦
      rw good (load_parsed-Loads f bytes h (parse_headers-IsChecked bytes h good) v room before)
]
