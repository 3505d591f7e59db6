-- ===== src/Allocator/Reallocate.antt =====
-- src/efi/allocator.rs: AllocateAddress, with its fallback on loader memory.
use crab_efi.Prelude.{
  ℕ, ◌+◌, ◌*◌, Bool, true, false, some, ◌≡◌, ◌≢◌, sym, ◌∙◌, ◌⊎◌, inl, inr, if◌then◌else◌, arith,
  Bool-cases, ℕ_discrete,
}
use crab_efi.Status.{success, not_found}
use crab_efi.Allocator.Types.{
  Descriptor, MemoryAllocator, MemoryType, allocate_address, get_memory_type, from_u32, to_u32,
  page_size, new_descriptor,
}
use crab_efi.Allocator.Entries.{any, position}
use crab_efi.Allocator.Carve.{
  is_loader, covers_loader, commit, split_entry, try_reallocate_loader_region, reallocate_range,
  reallocate_at, unwrap_type,
}
use crab_efi.Allocator.Search.{is_region_free}
use crab_efi.Allocator.Services.{Allocated, allocate_pages, allocate_at}
use crab_efi.Allocator.Chain.{stop}
use crab_efi.Allocator.Sorting.{position-Found}
use crab_efi.Allocator.Carving.{Valid, Cut, split-Cut}
use crab_efi.Allocator.CarveOut.{
  HasRoom, IsRange, Carved, Fits-covers, make_room_lem, position-any, position-none,
}
use crab_efi.Allocator.Allocate.{allocate_at_free}

type_of_loader :
    (d : Descriptor) → is_loader d ≡ true → to_u32 (unwrap_type (get_memory_type d)) ≡ d.memory_type
unfolding from_u32
type_of_loader d h = ground arith

reallocate_at_same :
    (m : MemoryAllocator) (addr num_pages : ℕ) (t : MemoryType) (stop idx : ℕ) (entry : Descriptor)
    (original : MemoryType)
    → to_u32 original ≡ to_u32 t
    → reallocate_at m addr num_pages t stop idx entry original ≡ (m, true)
unfolding reallocate_at
reallocate_at_same m addr num_pages t stop idx entry original e = ground arith

reallocate_at_other :
    (m : MemoryAllocator) (addr num_pages : ℕ) (t : MemoryType) (stop idx : ℕ) (entry : Descriptor)
    (original : MemoryType)
    → HasRoom m
    → to_u32 original ≢ to_u32 t
    → reallocate_at m addr num_pages t stop idx entry original ≡ (
      commit m (
          split_entry m.entries idx entry
            (new_descriptor t addr num_pages entry.attribute)
            original
            stop),
      true,
    )
unfolding reallocate_at
reallocate_at_other m addr num_pages t stop idx entry original room ne =
    rw (make_room_lem m entry addr stop room) (ground arith)

-- The range already has the wanted type and nothing changes, or it gets it and keeps the
-- attributes that it had as loader memory.
abbrev Reallocated :
    MemoryAllocator → MemoryType → ℕ → ℕ → Descriptor → MemoryAllocator × Bool → Type 0
Reallocated m t addr num_pages entry r =
    ((entry.memory_type ≡ to_u32 t) × (r ≡ (m, true)))
    ⊎ ((m' : MemoryAllocator) × (r ≡ (m', true))
        × Cut m m' (new_descriptor t addr num_pages entry.attribute))

-- The range is free, lies in one entry of loader memory, or neither.
abbrev pub AtAddress : MemoryAllocator → ℕ → ℕ → MemoryType → Allocated → Type 0
AtAddress m addr num_pages t out =
    let free = is_region_free m addr (num_pages * page_size) in
    let in_loader = covers_loader addr (addr + num_pages * page_size) in
    ((free ≡ true)
      × (m' : MemoryAllocator) × (out ≡ (m', success, addr))
      × Carved m m' addr num_pages t)
    ⊎ ((free ≡ false)
        × (idx : ℕ) × (entry : Descriptor) × (position in_loader m.entries ≡ some (idx, entry))
        × (((entry.memory_type ≡ to_u32 t) × (out ≡ (m, success, addr)))
            ⊎ ((m' : MemoryAllocator) × (out ≡ (m', success, addr))
                × Cut m m' (new_descriptor t addr num_pages entry.attribute))))
    ⊎ ((free ≡ false) × (any in_loader m.entries ≡ false) × (out ≡ (m, not_found, addr)))

address-allocate_at :
    (m : MemoryAllocator) (addr num_pages : ℕ) (t : MemoryType)
    → IsRange addr num_pages
    → m.boot_services_exited ≡ false
    → allocate_pages m allocate_address t num_pages addr
      ≡ allocate_at m t num_pages (num_pages * page_size) addr
unfolding allocate_pages
address-allocate_at m addr num_pages t r e = ground (arith, r.nonempty, r.fits)

module _ (m : MemoryAllocator) (addr num_pages : ℕ) (t : MemoryType) (v : Valid m)
    (room : HasRoom m) (r : IsRange addr num_pages) where
  abbrev range_stop : ℕ
  range_stop = addr + num_pages * page_size

  try_reallocate-range :
      try_reallocate_loader_region m addr num_pages t
      ≡ reallocate_range m addr num_pages t range_stop
  unfolding try_reallocate_loader_region
  try_reallocate-range = ground (arith, r.fits)

  reallocate_found :
      (idx : ℕ) (entry : Descriptor)
      → position (covers_loader addr range_stop) m.entries ≡ some (idx, entry)
      → Reallocated m t addr num_pages entry (try_reallocate_loader_region m addr num_pages t)
  unfolding reallocate_range
  reallocate_found idx entry found =
      let p = covers_loader addr range_stop in
      let f = position-Found p m.entries found in
      let original = unwrap_type (get_memory_type entry) in
      let kept = type_of_loader entry (ground (arith, f.passes)) in
      let fits =
        Fits-covers m addr num_pages t v room r p idx entry.attribute entry original f
          (ground (arith, f.passes)) kept in
      let carved = new_descriptor t addr num_pages entry.attribute in
      elim (ℕ_discrete (to_u32 original) (to_u32 t)) [
        | yes same ↦ inl (
          sym kept ∙ same,
          try_reallocate-range
              ∙ rw (found, reallocate_range)
                  (reallocate_at_same m addr num_pages t range_stop idx entry original same),
        )
        | no other ↦ inr (
          _,
          try_reallocate-range
              ∙ rw (found, reallocate_range)
                  (reallocate_at_other m addr num_pages t range_stop idx entry original room other),
          split-Cut m idx p entry carved original v f room fits,
        )
      ]

  reallocate_missed :
      any (covers_loader addr range_stop) m.entries ≡ false
      → try_reallocate_loader_region m addr num_pages t ≡ (m, false)
  unfolding reallocate_range
  reallocate_missed none_found =
      try_reallocate-range
      ∙ rw (position-none (covers_loader addr range_stop) m.entries none_found, reallocate_range)

  allocate_at_taken :
      is_region_free m addr (num_pages * page_size) ≡ false
      → {m' : MemoryAllocator} {done : Bool}
      → try_reallocate_loader_region m addr num_pages t ≡ (m', done)
      → allocate_at m t num_pages (num_pages * page_size) addr
        ≡ (m', (if done then success else not_found), addr)
  unfolding allocate_at
  allocate_at_taken taken {m'} {done} e = ground (arith, r.aligned)

  -- The range is not free, and entry `idx` holds it as loader memory.
  allocate_at_loader :
      (idx : ℕ) (entry : Descriptor)
      → is_region_free m addr (num_pages * page_size) ≡ false
      → position (covers_loader addr range_stop) m.entries ≡ some (idx, entry)
      → AtAddress m addr num_pages t (allocate_at m t num_pages (num_pages * page_size) addr)
  allocate_at_loader idx entry taken found = inr (
      inl (
        taken,
        idx,
        entry,
        found,
        elim (reallocate_found idx entry found) [
          | inl (same, e) ↦ inl (same, allocate_at_taken taken e)
          | inr (m', e, cut) ↦ inr (m', allocate_at_taken taken e, cut)
        ],
      ))

  allocate_at_lem :
      AtAddress m addr num_pages t (allocate_at m t num_pages (num_pages * page_size) addr)
  allocate_at_lem = elim (Bool-cases (is_region_free m addr (num_pages * page_size))) [
    | inl free ↦
        let (m', e, carved) = allocate_at_free m t num_pages addr v room r free in
        inl (free, m', e, carved)
    | inr taken ↦ elim (Bool-cases (any (covers_loader addr range_stop) m.entries)) [
      | inl loader ↦
          let (idx, entry, found) = position-any (covers_loader addr range_stop) m.entries loader in
          allocate_at_loader idx entry taken found
      | inr none_found ↦
          inr (inr (taken, none_found, allocate_at_taken taken (reallocate_missed none_found)))
    ]
  ]

-- In a valid map with room for two more entries, before ExitBootServices, AllocateAddress at a
-- page-aligned range that does not overflow has one of four outcomes. If the range is free in one
-- entry, it gets the type and nothing else on the map changes. If it is not, and lies in an entry
-- of loader memory, it has the type already and nothing changes, or it gets the type with the
-- entry's attributes. Otherwise the call returns NOT_FOUND and changes nothing. The three
-- successes leave a map.
pub allocate_pages_address :
    (m : MemoryAllocator) (addr num_pages : ℕ) (t : MemoryType)
    → Valid m
    → HasRoom m
    → IsRange addr num_pages
    → m.boot_services_exited ≡ false
    → AtAddress m addr num_pages t (allocate_pages m allocate_address t num_pages addr)
allocate_pages_address m addr num_pages t v room r e =
    rw (address-allocate_at m addr num_pages t r e) (allocate_at_lem m addr num_pages t v room r)
