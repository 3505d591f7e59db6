-- ===== src/Allocator/CarveOut.antt =====
-- src/efi/allocator.rs: `carve_out`, `try_reallocate_loader_region` and `allocate_pages` against
-- the memory map as a function of addresses.
use crab_efi.Prelude.{
  ℕ, suc, ◌+◌, ◌*◌, ◌%◌, ◌≤◌, ◌<◌, Bool, true, false, none, some, List, [], ◌∷◌, ◌≡◌, refl, sym,
  ◌∙◌, inl, inr, length, u64_max, arith, Bool-cases,
}
use crab_efi.Status.{ok}
use crab_efi.Allocator.Types.{
  Descriptor, MemoryAllocator, MemoryType, get_memory_type, from_u32, to_u32, conventional_memory,
  reserved_memory_type, is_type, page_size, new_descriptor, max_memory_entries,
}
use crab_efi.Allocator.Entries.{any, position}
use crab_efi.Allocator.Carve.{
  covers, covers_free, carve_out, carve_range, carve_at, make_room, entries_needed,
  runtime_attribute, commit, split_entry,
}
use crab_efi.Allocator.Search.{is_region_free}
use crab_efi.Allocator.Chain.{
  stop, end-stop, Chain, Chain-unappend, region_at, region_at-append, region_at_above,
}
use crab_efi.Allocator.Sorting.{Found, position-Found}
use crab_efi.Allocator.Cutting.{Fits}
use crab_efi.Allocator.Carving.{Valid, Cut, split-Cut, found-IsWell}
use crab_efi.Allocator.Searching.{is_region_free-any}

-- Two free places are enough for any split.
abbrev pub HasRoom : MemoryAllocator → Type 0
HasRoom m = length m.entries + 2 ≤ max_memory_entries

pub make_room_lem :
    (m : MemoryAllocator) (entry : Descriptor) (addr stop : ℕ)
    → HasRoom m
    → make_room m (entries_needed entry addr stop) ≡ (m, true)
unfolding make_room
make_room_lem m entry addr stop room = ground arith

pub position-any :
    (p : Descriptor → Bool) (ds : List Descriptor)
    → any p ds ≡ true
    → (i : ℕ) × (d : Descriptor) × (position p ds ≡ some (i, d))
unfolding any position
position-any p [] e = cc
position-any p (d ∷ ds) e = elim (Bool-cases (p d)) [
  | inl hit ↦ (0, d, rw hit)
  | inr miss ↦ let (i, x, rest) = position-any p ds (ground arith) in (suc i, x, rw (miss, rest))
]

pub position-none :
    (p : Descriptor → Bool) (ds : List Descriptor) → any p ds ≡ false → position p ds ≡ none
unfolding any position
position-none p [] e = refl
position-none p (d ∷ ds) e = ground (arith, position-none p ds)

type_of_free :
    (d : Descriptor) → is_type (get_memory_type d) conventional_memory ≡ true → d.memory_type ≡ 7
unfolding from_u32
type_of_free d h = ground arith

type-lt : (t : MemoryType) → to_u32 t < 15
type-lt reserved_memory_type = omega arith
type-lt _ = omega arith

-- A range of whole pages.
pub record IsRange (addr num_pages : ℕ) : Type 0 where
  pub aligned : addr % page_size ≡ 0
  pub nonempty : 0 < num_pages
  pub fits : addr + num_pages * page_size ≤ u64_max

carve_range-eq :
    (m : MemoryAllocator) (addr num_pages : ℕ) (t : MemoryType)
    → IsRange addr num_pages
    → carve_out m addr num_pages t ≡ carve_range m addr num_pages t (addr + num_pages * page_size)
unfolding carve_out
carve_range-eq m addr num_pages t r = ground arith

-- The descriptor that a range of type `t` gets where the entry had these attributes.
abbrev pub carved_as : ℕ → ℕ → MemoryType → ℕ → Descriptor
carved_as addr num_pages t attribute =
    new_descriptor t addr num_pages (runtime_attribute t attribute)

carve_at-eq :
    (m : MemoryAllocator) (addr num_pages : ℕ) (t : MemoryType) (stop : ℕ) (idx : ℕ)
    (entry : Descriptor)
    → HasRoom m
    → carve_at m addr num_pages t stop idx entry ≡ (
      commit m (
          split_entry m.entries idx entry
            (carved_as addr num_pages t entry.attribute)
            conventional_memory
            stop),
      ok tt,
    )
unfolding carve_at
carve_at-eq m addr num_pages t stop idx entry room = rw (make_room_lem m entry addr stop room)

-- `m'` is `m` with the range given type `t`, and attributes that come from those of a free entry
-- that held the range.
pub record Carved (m m' : MemoryAllocator) (addr num_pages : ℕ) (t : MemoryType) : Type 0 where
  pub attribute : ℕ
  pub was_free : region_at m.entries addr ≡ some (to_u32 conventional_memory, attribute)
  pub cut : Cut m m' (carved_as addr num_pages t attribute)

pub region_at-Found :
    (p : Descriptor → Bool) (ds : List Descriptor) {idx : ℕ} {entry : Descriptor} (lo hi a : ℕ)
    → Chain lo hi ds
    → Found p ds idx entry
    → entry.physical_start ≤ a
    → a < stop entry
    → region_at ds a ≡ some (entry.memory_type, entry.attribute)
unfolding region_at
region_at-Found p ds {idx} {entry} lo hi a c f h k =
    let (mid, l, r) = Chain-unappend lo hi f.pre (entry ∷ f.post) (rw f.splits at c) in
    rw f.splits (
      region_at-append f.pre (entry ∷ f.post) a
      ∙ ground (arith, region_at_above lo mid a f.pre l, r.0))

module _ (m : MemoryAllocator) (addr num_pages : ℕ) (t : MemoryType) (v : Valid m)
    (room : HasRoom m) (r : IsRange addr num_pages) where
  abbrev range_stop : ℕ
  range_stop = addr + num_pages * page_size

  -- The new entry fits in any entry of the map that covers the range.
  pub Fits-covers :
      (p : Descriptor → Bool) (idx attribute : ℕ) (entry : Descriptor) (kept : MemoryType)
      → Found p m.entries idx entry
      → covers addr range_stop entry ≡ true
      → to_u32 kept ≡ entry.memory_type
      → Fits entry (new_descriptor t addr num_pages attribute) kept
  Fits-covers p idx attribute entry kept f c k =
      let carved = new_descriptor t addr num_pages attribute in
      record {
        entry_well = found-IsWell m idx p entry carved kept v f room;
        carved_well = record {
          aligned = r.aligned;
          nonempty = r.nonempty;
          fits = r.fits;
          known = type-lt t;
        };
        starts = ground arith;
        ends = ground arith;
        keeps = k;
      }

  carve_found :
      (idx : ℕ) (entry : Descriptor)
      → position (covers_free addr range_stop) m.entries ≡ some (idx, entry)
      → (m' : MemoryAllocator) × (carve_out m addr num_pages t ≡ (m', ok tt))
        × Carved m m' addr num_pages t
  unfolding carve_range
  carve_found idx entry found =
      let p = covers_free addr range_stop in
      let f = position-Found p m.entries found in
      let carved = carved_as addr num_pages t entry.attribute in
      let free : to_u32 conventional_memory ≡ entry.memory_type =
        sym (type_of_free entry (ground (arith, f.passes))) in
      let fits =
        Fits-covers p idx carved.attribute entry conventional_memory f (ground (arith, f.passes))
          free in
      (
        _,
        carve_range-eq m addr num_pages t r
            ∙ rw (found, carve_range) (carve_at-eq m addr num_pages t range_stop idx entry room),
        record {
          attribute = entry.attribute;
          was_free = rw free (
              region_at-Found p m.entries 0 u64_max addr v.chain f fits.starts
                (ground (arith, fits.ends, end-stop entry fits.entry_well, r.nonempty)));
          cut = split-Cut m idx p entry carved conventional_memory v f room fits;
        },
      )

  -- In a valid map with room for two more entries, a range of whole pages that is free in one
  -- entry is carved out of it: the range gets the type, and nothing else on the map changes.
  pub carve_out-Carved :
      is_region_free m addr (num_pages * page_size) ≡ true
      → (m' : MemoryAllocator) × (carve_out m addr num_pages t ≡ (m', ok tt))
        × Carved m m' addr num_pages t
  carve_out-Carved free =
      let (idx, entry, found) =
        position-any (covers_free addr range_stop) m.entries
          (sym (is_region_free-any m addr (num_pages * page_size) r.fits) ∙ free) in
      carve_found idx entry found
