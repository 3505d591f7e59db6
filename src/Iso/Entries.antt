-- ===== src/Iso/Entries.antt =====
-- src/fs/iso9660.rs: what a boot catalog holds, and the search through the entries of one section.
use crab_efi.Prelude.{
  ℕ, zero, suc, ◌+◌, ◌*◌, ◌<◌, ◌≤◌, ◌&&◌, ◌⊎◌, List, ◌≡◌, ◌==◌, ltb, Bool-cases, arith, inl, inr,
  le_refl, false, ap, ◌∙◌, sym,
}
use crab_efi.Bytes.{byte, le16, le32}
use crab_efi.Iso.{
  EfiBootImage, Search, found_at, behind, search_entries, iso_sector_size, platform_efi,
}

-- The validation entry: its number, and the two bytes of its key.
abbrev pub IsValidation : List ℕ → Type 0
IsValidation buffer = (byte buffer 0 ≡ 1) × (byte buffer 30 ≡ 0x55) × (byte buffer 31 ≡ 0xAA)

-- The default entry is for EFI, and marked as bootable.
abbrev pub IsDefault : List ℕ → Type 0
IsDefault buffer = (byte buffer 1 ≡ 0xEF) × (byte buffer 32 ≡ 0x88)

-- One of the entries that the section header at an offset counts, whole in the catalog and marked as
-- bootable, where the section is for EFI.
pub record IsEntry (buffer : List ℕ) (header offset : ℕ) : Type 0 where
  pub indicator : (byte buffer header ≡ 0x90) ⊎ (byte buffer header ≡ 0x91)
  pub for_efi : byte buffer (header + 1) ≡ 0xEF
  pub index : ℕ
  pub listed : index < le16 (byte buffer) (header + 2)
  pub place : offset ≡ header + 32 + 32 * index
  pub whole : offset + 32 ≤ 2048
  pub bootable : byte buffer offset ≡ 0x88

-- An entry of the section at an offset, or of one behind it: there is a next section where the header has
-- 0x90, and it stands behind the entries that the header counts.
pub data EntryFrom (buffer : List ℕ) (offset : ℕ) : ℕ → Type 0 where
  here : {header : ℕ} → IsEntry buffer header offset → EntryFrom buffer offset header
  later :
      {header : ℕ}
      → byte buffer header ≡ 0x90
      → EntryFrom buffer offset (header + 32 + 32 * le16 (byte buffer) (header + 2))
      → EntryFrom buffer offset header

-- The image that an entry describes, in blocks of the device.
abbrev pub IsImage : List ℕ → ℕ → ℕ → EfiBootImage → Type 0
IsImage buffer parts offset image =
    (image.start_sector ≡ le32 (byte buffer) (offset + 8) * parts)
    × (image.sector_count ≡ le16 (byte buffer) (offset + 6) * parts)
    × (image.size_bytes ≡ le16 (byte buffer) (offset + 6) * 2048)

-- An entry marked as bootable among so many from an offset on.
pub record Bootable (buffer : List ℕ) (platform n start offset : ℕ) : Type 0 where
  pub platform_is : platform ≡ 0xEF
  pub index : ℕ
  pub listed : index < n
  pub place : offset ≡ start + 32 * index
  pub whole : offset + 32 ≤ 2048
  pub mark : byte buffer offset ≡ 0x88

abbrev pub Searched : List ℕ → ℕ → ℕ → ℕ → Search → Type 0
Searched buffer platform n start (found_at offset) = Bootable buffer platform n start offset
Searched buffer platform n start (behind offset) =
    (start ≤ offset)
    × ((offset ≡ start + 32 * n) ⊎ (2048 < offset + 32 × offset ≤ start + 32 * n))
    × ((o : ℕ) → Bootable buffer platform n start o → ⊥)

Bootable-suc :
    (buffer : List ℕ) (platform n start o : ℕ)
    → Bootable buffer platform n (start + 32) o
    → Bootable buffer platform (suc n) start o
Bootable-suc buffer platform n start o b = record {
  platform_is = b.platform_is;
  index = suc b.index;
  listed = omega (arith, b.listed);
  place = omega (arith, b.place);
  whole = b.whole;
  mark = b.mark;
}

-- An entry is the first one, or one of the others.
Bootable-cases :
    (buffer : List ℕ) (platform n start o : ℕ)
    → Bootable buffer platform (suc n) start o
    → (o ≡ start) ⊎ Bootable buffer platform n (start + 32) o
Bootable-cases buffer platform n start o b = split b.index b.listed b.place
  where
    split :
        (j : ℕ)
        → j < suc n
        → o ≡ start + 32 * j
        → (o ≡ start) ⊎ Bootable buffer platform n (start + 32) o
    split zero l e = inl (omega (arith, e))
    split (suc j) l e = inr (record {
      platform_is = b.platform_is;
      index = j;
      listed = omega (arith, l);
      place = omega (arith, e);
      whole = b.whole;
      mark = b.mark;
    })

module _ (buffer : List ℕ) (platform : ℕ) where
  Searched-suc :
      (n start : ℕ) (r : Search)
      → ((platform == platform_efi && byte buffer start == 0x88) ≡ false)
      → Searched buffer platform n (start + 32) r
      → Searched buffer platform (suc n) start r
  Searched-suc n start (found_at o) not_this b = Bootable-suc buffer platform n start o b
  Searched-suc n start (behind o) not_this (after, reach, no_other) = (
    omega (arith, after),
    elim reach [ inl e ↦ inl (omega (arith, e)) | inr e ↦ inr (e.0, omega (arith, e.1)) ],
    λ x b. elim (Bootable-cases buffer platform n start x b) [
      | inl first ↦
          let mark : byte buffer start ≡ 0x88 = ap (byte buffer) (sym first) ∙ b.mark in
          ground (arith, not_this, mark, b.platform_is)
      | inr other ↦ no_other x other
    ],
  )

  pub search_entries-Searched :
      (n start : ℕ) → Searched buffer platform n start (search_entries buffer platform n start)
  unfolding search_entries
  search_entries-Searched zero start =
      (le_refl start, inl (omega arith), λ o b. omega (arith, b.listed))
  search_entries-Searched (suc n) start = elim (Bool-cases (ltb iso_sector_size (start + 32))) [
    | inl out ↦ rw out (
      le_refl start,
      inr (ground (arith, out), omega arith),
      λ o b. ground (arith, out, b.place, b.whole),
    )
    | inr inside ↦ elim (Bool-cases (platform == platform_efi && byte buffer start == 0x88)) [
      | inl boots ↦
          rw (inside, boots)
            (record {
              platform_is = ground (arith, boots);
              index = 0;
              listed = omega arith;
              place = omega arith;
              whole = ground (arith, inside);
              mark = ground (arith, boots);
            })
      | inr not_this ↦
          rw (inside, not_this)
            (Searched-suc n start (search_entries buffer platform n (start + 32)) not_this
              (search_entries-Searched n (start + 32)))
    ]
  ]

-- An entry stands behind the header from which it is reached.
pub EntryFrom-fits :
    (buffer : List ℕ) (offset header : ℕ) → EntryFrom buffer offset header → header + 64 ≤ 2048
EntryFrom-fits buffer offset header (here e) = omega (arith, e.place, e.whole)
EntryFrom-fits buffer offset header (later more rest) =
    omega (
      arith,
      EntryFrom-fits buffer offset (header + 32 + 32 * le16 (byte buffer) (header + 2)) rest,
    )
