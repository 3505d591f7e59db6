-- ===== src/Pe/Relocate.antt =====
-- src/pe/mod.rs: `apply_relocations`. The table is read from the image in memory, so an entry that
-- changes the table is seen by what is read later.
use crab_efi.Prelude.{
  ℕ, zero, suc, ◌+◌, ◌-◌, ◌/◌, ◌%◌, ◌^◌, ◌||◌, ◌==◌, leb, ltb, if◌then◌else◌, add64, Option, none,
  some, checked_add32,
}
use crab_efi.Status.{invalid_parameter, Result, ok, err}
use crab_efi.Bytes.{Memory, le16, le32, le64, write64}

abbrev pub image_rel_based_absolute : ℕ
image_rel_based_absolute = 0

abbrev pub image_rel_based_dir64 : ℕ
image_rel_based_dir64 = 10

abbrev pub base_relocation_header_size : ℕ
base_relocation_header_size = 8

-- The memory after a step, and whether it went well.
abbrev pub Relocated : Type 0
Relocated = Memory × Result (Unit {0})

-- What follows a step that went well.
abbrev pub continue_with : Relocated → (Memory → Option Relocated) → Option Relocated
continue_with (mem, ok _) f = f mem
continue_with (mem, err e) f = some (mem, err e)

module _ (image_base image_size delta : ℕ) where
  -- The value at the target, moved by `delta`.
  abbrev pub move_at : Memory → ℕ → Memory
  move_at mem target =
      let addr = add64 image_base target in write64 mem addr (add64 (le64 mem addr) delta)

  abbrev pub relocate_bounded : Memory → ℕ → Option ℕ → Relocated
  relocate_bounded mem target none = (mem, err invalid_parameter)
  relocate_bounded mem target (some target_end) =
      if ltb image_size target_end
      then (mem, err invalid_parameter)
      else (move_at mem target, ok tt)

  abbrev pub relocate_target : Memory → Option ℕ → Relocated
  relocate_target mem none = (mem, err invalid_parameter)
  relocate_target mem (some target) = relocate_bounded mem target (checked_add32 target 8)

  -- One entry: the type is in its upper four bits, the offset in the other twelve.
  unfoldable pub relocate_entry : Memory → ℕ → ℕ → Relocated
  relocate_entry mem block_rva entry =
      let reloc_type = entry / 2 ^ 12 in
      if reloc_type == image_rel_based_absolute
      then (mem, ok tt)
      else if reloc_type == image_rel_based_dir64
      then relocate_target mem (checked_add32 block_rva (entry % 2 ^ 12))
      else (mem, ok tt)

  -- The entries of a block, from an address on.
  unfoldable pub relocate_entries : ℕ → Memory → ℕ → ℕ → Relocated
  relocate_entries zero mem block_rva addr = (mem, ok tt)
  relocate_entries (suc n) mem block_rva addr =
      let (mem', result) = relocate_entry mem block_rva (le16 mem addr) in
      elim result [ ok _ ↦ relocate_entries n mem' block_rva (addr + 2) | err e ↦ (mem', err e) ]

  -- The blocks, from an offset in the table on; `none` when the fuel is used up.
  unfoldable pub relocate_blocks : ℕ → Memory → ℕ → ℕ → ℕ → Option Relocated
  relocate_blocks zero mem table reloc_size offset = none
  relocate_blocks (suc fuel) mem table reloc_size offset =
      let remaining = reloc_size - offset in
      let block_rva = le32 mem (table + offset) in
      let block_size = le32 mem (table + offset + 4) in
      let entries =
        relocate_entries ((block_size - base_relocation_header_size) / 2) mem block_rva
          (table + offset + base_relocation_header_size) in
      let rest =
        continue_with entries
          (λ mem'. relocate_blocks fuel mem' table reloc_size (offset + block_size)) in
      if leb reloc_size offset || ltb remaining base_relocation_header_size || block_size == 0
      then some (mem, ok tt)
      else if ltb block_size base_relocation_header_size || ltb remaining block_size
      then some (mem, err invalid_parameter)
      else rest

  abbrev pub relocate_table : Memory → ℕ → ℕ → Option ℕ → Option Relocated
  relocate_table mem reloc_rva reloc_size none = some (mem, err invalid_parameter)
  relocate_table mem reloc_rva reloc_size (some reloc_end) =
      if ltb image_size reloc_end
      then some (mem, err invalid_parameter)
      else relocate_blocks (suc reloc_size) mem (add64 image_base reloc_rva) reloc_size 0

  -- The fuel is one more than the size of the table: a block takes at least eight bytes of it.
  unfoldable pub apply_relocations : Memory → ℕ → ℕ → Option Relocated
  apply_relocations mem reloc_rva reloc_size =
      relocate_table mem reloc_rva reloc_size (checked_add32 reloc_rva reloc_size)
