-- ===== src/Pe/Writing.antt =====
-- src/pe/mod.rs: every write of the loader stays inside the image.
use crab_efi.Prelude.{
  checked_add32, ℕ, zero, suc, ◌+◌, ◌-◌, ◌/◌, ◌%◌, ◌^◌, ◌≤◌, ◌<◌, ◌||◌, Option, some, List, ◌≡◌,
  refl, ◌⊎◌, inl, inr, ◌∙◌, ◌==◌, leb, ltb, add64, arith, Bool-cases, Option-cases, u64_mod,
}
use crab_efi.Status.{Result, ok, err}
use crab_efi.Bytes.{Memory, le16, le32, le64, fill_zero, copy_in, write64, Outside}
use crab_efi.Pe.Relocate.{
  Relocated, relocate_entry, relocate_entries, relocate_blocks, apply_relocations, move_at,
  continue_with, base_relocation_header_size,
}

pub fill_zero-Outside :
    (mem : Memory) (start size : ℕ) → Outside start size mem (fill_zero mem start size)
unfolding fill_zero
fill_zero-Outside mem start size a out = ground (arith, out)

-- A copy to a part of the range.
pub copy_in-Outside :
    (mem : Memory) (bytes : List ℕ) (source dest n start size : ℕ)
    → start ≤ dest
    → dest + n ≤ start + size
    → Outside start size mem (copy_in mem bytes source dest n)
unfolding copy_in
copy_in-Outside mem bytes source dest n start size lo hi a out = ground (arith, out)

write64-Outside :
    (mem : Memory) (dest v start size : ℕ)
    → start ≤ dest
    → dest + 8 ≤ start + size
    → Outside start size mem (write64 mem dest v)
unfolding write64
write64-Outside mem dest v start size lo hi a out = ground (arith, out)

pub Outside-refl : (mem : Memory) (start size : ℕ) → Outside start size mem mem
Outside-refl mem start size a out = refl

pub Outside-trans :
    (start size : ℕ) (mem mem' mem'' : Memory)
    → Outside start size mem mem'
    → Outside start size mem' mem''
    → Outside start size mem mem''
Outside-trans start size mem mem' mem'' p q a out = q a out ∙ p a out

module _ (image_base image_size delta : ℕ) (fits : image_base + image_size ≤ u64_mod) where
  abbrev Inside : Memory → Memory → Type 0
  Inside mem mem' = Outside image_base image_size mem mem'

  move_at-eq :
      (mem : Memory) (target a : ℕ)
      → (a < image_base) ⊎ (image_base + image_size ≤ a)
      → target + 8 ≤ image_size
      → move_at image_base image_size delta mem target a ≡ mem a
  move_at-eq mem target a out h =
      let addr : add64 image_base target ≡ image_base + target = omega (arith, fits) in
      write64-Outside mem (add64 image_base target)
        (add64 (le64 mem (add64 image_base target)) delta) image_base image_size
        (omega (arith, addr)) (omega (arith, addr, h)) a out

  pub relocate_entry-Inside :
      (mem : Memory) (block_rva entry : ℕ)
      → Inside mem (relocate_entry image_base image_size delta mem block_rva entry).0
  unfolding relocate_entry
  relocate_entry-Inside mem block_rva entry a out =
      ground (arith, move_at-eq mem (block_rva + entry % 2 ^ 12) a out)

  relocate_entries-Inside :
      (n : ℕ) (mem : Memory) (block_rva addr : ℕ)
      → Inside mem (relocate_entries image_base image_size delta n mem block_rva addr).0
  unfolding relocate_entries
  relocate_entries-Inside zero mem block_rva addr a out = refl
  relocate_entries-Inside (suc n) mem block_rva addr a out =
      let step = relocate_entry image_base image_size delta mem block_rva (le16 mem addr) in
      ground (
        arith,
        relocate_entry-Inside mem block_rva (le16 mem addr) a out,
        relocate_entries-Inside n step.0 block_rva (addr + 2) a out,
      )

  -- The run ends, and writes inside the image only.
  pub data Ends (mem : Memory) : Option Relocated → Type 0 where
    ends : (r : Relocated) → Inside mem r.0 → Ends mem (some r)

  -- A step that writes nothing.
  pub stays-Ends : (mem : Memory) (r : Result (Unit {0})) → Ends mem (some (mem, r))
  stays-Ends mem r = ends (mem, r) (Outside-refl mem image_base image_size)

  Ends-trans :
      (mem mem' : Memory) (o : Option Relocated) → Inside mem mem' → Ends mem' o → Ends mem o
  Ends-trans mem mem' o p (ends r q) = ends r (Outside-trans image_base image_size mem mem' r.0 p q)

  pub continue_with-Ends :
      (mem : Memory) (r : Relocated) (f : Memory → Option Relocated)
      → Inside mem r.0
      → ((mem' : Memory) → Ends mem' (f mem'))
      → Ends mem (continue_with r f)
  continue_with-Ends mem (mem', ok _) f p q = Ends-trans mem mem' (f mem') p (q mem')
  continue_with-Ends mem (mem', err e) f p q = ends (mem', err e) p

  relocate_blocks-Ends :
      (fuel : ℕ) (mem : Memory) (table reloc_size offset : ℕ)
      → offset ≤ reloc_size
      → reloc_size < offset + fuel
      → Ends mem (relocate_blocks image_base image_size delta fuel mem table reloc_size offset)
  unfolding relocate_blocks
  relocate_blocks-Ends zero mem table reloc_size offset g h = absurd (omega (arith, g, h))
  relocate_blocks-Ends (suc fuel) mem table reloc_size offset g h =
      let block_size = le32 mem (table + offset + 4) in
      let stops =
        leb reloc_size offset
        || ltb (reloc_size - offset) base_relocation_header_size
        || block_size == 0 in
      let bad =
        ltb block_size base_relocation_header_size || ltb (reloc_size - offset) block_size in
      elim (Bool-cases stops) [
        | inl stop ↦ rw stop (stays-Ends mem _)
        | inr more ↦ elim (Bool-cases bad) [
          | inl broken ↦ rw (more, broken) (stays-Ends mem _)
          | inr good ↦
              rw (more, good)
                (continue_with-Ends mem
                  (relocate_entries image_base image_size delta
                    ((block_size - base_relocation_header_size) / 2) mem (le32 mem (table + offset))
                    (table + offset + base_relocation_header_size))
                  (λ mem'.
                    relocate_blocks image_base image_size delta fuel mem' table reloc_size
                      (offset + block_size))
                  (relocate_entries-Inside ((block_size - base_relocation_header_size) / 2) mem
                    (le32 mem (table + offset)) (table + offset + base_relocation_header_size))
                  (λ mem'.
                    relocate_blocks-Ends fuel mem' table reloc_size (offset + block_size)
                      (ground (arith, good, g)) (ground (arith, good, h))))
        ]
      ]

  pub apply_relocations-Ends :
      (mem : Memory) (reloc_rva reloc_size : ℕ)
      → Ends mem (apply_relocations image_base image_size delta mem reloc_rva reloc_size)
  unfolding apply_relocations
  apply_relocations-Ends mem reloc_rva reloc_size =
      elim (Option-cases (checked_add32 reloc_rva reloc_size)) [
        | inl over ↦ rw over (stays-Ends mem _)
        | inr (reloc_end, fine) ↦ elim (Bool-cases (ltb image_size reloc_end)) [
          | inl beyond ↦ rw (fine, beyond) (stays-Ends mem _)
          | inr inside ↦
              rw (fine, inside)
                (relocate_blocks-Ends (suc reloc_size) mem (add64 image_base reloc_rva) reloc_size 0
                  (omega arith) (omega arith))
        ]
      ]
