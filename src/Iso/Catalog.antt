-- ===== src/Iso/Catalog.antt =====
-- src/fs/iso9660.rs: which image is found.
use crab_efi.Prelude.{
  ℕ, zero, suc, ◌+◌, ◌*◌, ◌<◌, ◌≤◌, ◌&&◌, ◌||◌, ◌⊎◌, List, ◌≡◌, refl, ◌==◌, leb, Bool-cases, arith,
  inl, inr, true, false, subst, sym,
}
use crab_efi.Bytes.{byte, le16}
use crab_efi.Disk.{Fallible, ok, err}
use crab_efi.Iso.{
  IsoError, error, EfiBootImage, Search, found_at, behind, Fault, search_entries, after_section,
  search_sections, scan_catalog, iso_sector_size, platform_efi,
}
use crab_efi.Iso.Entries.{
  IsValidation, IsDefault, IsEntry, EntryFrom, here, later, IsImage, Bootable, Searched,
  search_entries-Searched, EntryFrom-fits,
}

-- The image of an entry from a header on, or the error for none, where there is none.
abbrev FromHeader : List ℕ → ℕ → ℕ → Fallible Fault EfiBootImage → Type 0
FromHeader buffer parts header (err (error IsoError.no_efi_entry)) =
    (offset : ℕ) → EntryFrom buffer offset header → ⊥
FromHeader buffer parts header (err _) = ⊥
FromHeader buffer parts header (ok image) =
    (offset : ℕ) × EntryFrom buffer offset header × IsImage buffer parts offset image

-- What the search of a catalog gives.
abbrev pub FromEntry : List ℕ → ℕ → Fallible Fault EfiBootImage → Type 0
FromEntry buffer parts (err (error IsoError.invalid_catalog)) = IsValidation buffer → ⊥
FromEntry buffer parts (err (error IsoError.no_efi_entry)) =
    IsValidation buffer × (IsDefault buffer → ⊥) × ((offset : ℕ) → EntryFrom buffer offset 64 → ⊥)
FromEntry buffer parts (err _) = ⊥
FromEntry buffer parts (ok image) =
    IsValidation buffer
    × ((IsDefault buffer × IsImage buffer parts 32 image)
        ⊎ ((IsDefault buffer → ⊥)
            × ((offset : ℕ) × EntryFrom buffer offset 64 × IsImage buffer parts offset image)))

module _ (buffer : List ℕ) (parts : ℕ) where
  abbrev entries_of : ℕ → ℕ
  entries_of header = le16 (byte buffer) (header + 2)

  abbrev behind_entries : ℕ → ℕ
  behind_entries header = header + 32 + 32 * entries_of header

  -- The entries of the section at a header, searched.
  abbrev SearchedAt : ℕ → Search → Type 0
  SearchedAt header r =
      Searched buffer (byte buffer (header + 1)) (entries_of header) (header + 32) r

  IsEntry-Bootable :
      (header o : ℕ)
      → IsEntry buffer header o
      → Bootable buffer (byte buffer (header + 1)) (entries_of header) (header + 32) o
  IsEntry-Bootable header o e = record {
    platform_is = e.for_efi;
    index = e.index;
    listed = e.listed;
    place = e.place;
    whole = e.whole;
    mark = e.bootable;
  }

  -- From a header whose section has no such entry, an entry can only be in the sections behind.
  no_entry_here :
      (header o : ℕ)
      → ((x : ℕ)
          → Bootable buffer (byte buffer (header + 1)) (entries_of header) (header + 32) x
          → ⊥)
      → EntryFrom buffer o header
      → (byte buffer header ≡ 0x90) × EntryFrom buffer o (behind_entries header)
  no_entry_here header o none_here (here e) = absurd (none_here o (IsEntry-Bootable header o e))
  no_entry_here header o none_here (later more rest) = (more, rest)

  -- No entry stands behind something that is no header.
  no_header :
      (header o : ℕ)
      → byte buffer header == 0x90 || byte buffer header == 0x91 ≡ false
      → EntryFrom buffer o header
      → ⊥
  no_header header o h (here e) = ground (arith, h, e.indicator)
  no_header header o h (later more rest) = ground (arith, h, more)

  later_image :
      (header o : ℕ) (r : Fallible Fault EfiBootImage)
      → byte buffer header ≡ 0x90
      → ((x : ℕ)
          → Bootable buffer (byte buffer (header + 1)) (entries_of header) (header + 32) x
          → ⊥)
      → (o ≡ behind_entries header) ⊎ (2048 < o + 32 × o ≤ behind_entries header)
      → FromHeader buffer parts o r
      → FromHeader buffer parts header r
  later_image header o (err (error IsoError.no_efi_entry)) more none_here reach f = λ x e.
      let (_, rest) = no_entry_here header x none_here e in
      elim reach [
        | inl same ↦ f x (subst (EntryFrom buffer x) (sym same) rest)
        | inr past ↦
            omega (arith, past.0, past.1, EntryFrom-fits buffer x (behind_entries header) rest)
      ]
  later_image header o (err _) more none_here reach f = absurd f
  later_image header o (ok image) more none_here reach (x, e, describes) = elim reach [
    | inl same ↦ (x, later more (subst (EntryFrom buffer x) same e), describes)
    | inr past ↦ absurd (omega (arith, past.0, EntryFrom-fits buffer x o e))
  ]

  after_section-FromHeader :
      (header : ℕ) (next : ℕ → Fallible Fault EfiBootImage) (r : Search)
      → byte buffer header == 0x90 || byte buffer header == 0x91 ≡ true
      → SearchedAt header r
      → ((o : ℕ) → header + 32 ≤ o → FromHeader buffer parts o (next o))
      → FromHeader buffer parts header (after_section buffer parts (byte buffer header) next r)
  after_section-FromHeader header next (found_at o) h b more = (
    o,
    here (record {
      indicator = ground (arith, h);
      for_efi = b.platform_is;
      index = b.index;
      listed = b.listed;
      place = b.place;
      whole = b.whole;
      bootable = b.mark;
    }),
    (refl, refl, refl),
  )
  after_section-FromHeader header next (behind o) h (after, reach, none_here) more =
      elim (Bool-cases (byte buffer header == 0x91)) [
        | inl last ↦
            rw last (λ x e.
              let stays = no_entry_here header x none_here e in ground (arith, last, stays.0))
        | inr other ↦ rw other (
            later_image header o (next o) (ground (arith, h, other)) none_here reach (more o after))
      ]

  search_sections-FromHeader :
      (fuel header : ℕ)
      → 0 < fuel
      → iso_sector_size < header + 32 * fuel
      → FromHeader buffer parts header (search_sections fuel buffer parts header)
  unfolding search_sections
  search_sections-FromHeader zero header some_fuel enough = absurd (omega arith)
  search_sections-FromHeader (suc fuel) header some_fuel enough =
      let entries =
        search_entries buffer (byte buffer (header + 1)) (entries_of header) (header + 32) in
      elim (Bool-cases (leb (header + 32) iso_sector_size)) [
        | inr past ↦ rw past (λ o e. ground (arith, past, EntryFrom-fits buffer o header e))
        | inl inside ↦
            elim (Bool-cases (byte buffer header == 0x90 || byte buffer header == 0x91)) [
              | inr not_one ↦ rw (inside, not_one) (λ o e. no_header header o not_one e)
              | inl is_one ↦
                  rw (inside, is_one)
                    (after_section-FromHeader header (λ o. search_sections fuel buffer parts o)
                      entries is_one
                      (search_entries-Searched buffer (byte buffer (header + 1)) (entries_of header)
                        (header + 32))
                      (λ o beyond.
                        search_sections-FromHeader fuel o (ground (arith, enough, inside))
                          (omega (arith, beyond, enough))))
            ]
      ]

from_sections :
    (buffer : List ℕ) (parts : ℕ) (r : Fallible Fault EfiBootImage)
    → IsValidation buffer
    → (IsDefault buffer → ⊥)
    → FromHeader buffer parts 64 r
    → FromEntry buffer parts r
from_sections buffer parts (err (error IsoError.no_efi_entry)) v d f = (v, d, f)
from_sections buffer parts (err _) v d f = absurd f
from_sections buffer parts (ok image) v d f = (v, inr (d, f))

-- Whatever is in the catalog: the search of it ends. It gives the error for the catalog where the
-- validation entry is not valid. Otherwise it gives the image of an entry for EFI that is marked as
-- bootable: of the default entry where that is one, and else of an entry, whole in the 2048 bytes, that a
-- section header with an indicator of 0x90 or 0x91 counts, in the sections that follow one another from
-- byte 64 on as long as the indicator is 0x90. And it gives the error for none only where neither the
-- default entry nor any entry of these sections is one.
pub scan_catalog-FromEntry :
    (buffer : List ℕ) (parts : ℕ) → FromEntry buffer parts (scan_catalog buffer parts)
unfolding scan_catalog
scan_catalog-FromEntry buffer parts =
    elim (Bool-cases (byte buffer 0 == 1 && byte buffer 30 == 0x55 && byte buffer 31 == 0xAA)) [
      | inr invalid ↦ rw invalid (λ v. ground (arith, invalid, v.0, v.1, v.2))
      | inl valid ↦
          let validation : IsValidation buffer =
            (ground (arith, valid), ground (arith, valid), ground (arith, valid)) in
          elim (Bool-cases (byte buffer 1 == platform_efi && byte buffer 32 == 0x88)) [
            | inl boots ↦
                rw (valid, boots)
                  (
                    validation,
                    inl ((ground (arith, boots), ground (arith, boots)), (refl, refl, refl)),
                  )
            | inr sections ↦
                rw (valid, sections)
                  (from_sections buffer parts (search_sections 64 buffer parts 64) validation
                    (λ d. ground (arith, sections, d.0, d.1))
                    (search_sections-FromHeader buffer parts 64 64 (omega arith) (omega arith)))
          ]
    ]
