-- ===== src/Allocator/Allocate.antt =====
-- src/efi/allocator.rs: what `allocate_pages` does, for each allocation type and on each branch.
use crab_efi.Prelude.{
  ℕ, ◌+◌, ◌*◌, ◌^◌, ◌%◌, ◌≤◌, ◌<◌, true, false, some, ◌≡◌, ◌≢◌, refl, ◌⊎◌, inl, inr, min, u64_max,
  arith, Option-cases,
}
use crab_efi.Status.{Status, success, invalid_parameter, unsupported, out_of_resources}
use crab_efi.Allocator.Types.{
  MemoryAllocator, MemoryType, AllocateType, allocate_any_pages, allocate_max_address,
  allocate_address, page_size, max_identity_mapped_address,
}
use crab_efi.Allocator.Search.{find_free_pages, is_region_free}
use crab_efi.Allocator.Services.{Allocated, allocate_pages, allocate_below, allocate_at}
use crab_efi.Allocator.Carving.{Valid}
use crab_efi.Allocator.Searching.{AllWell-Chain, find_free_pages_sound, find_free_pages_complete}
use crab_efi.Allocator.CarveOut.{HasRoom, IsRange, Carved, carve_out-Carved}

-- The search has found a range: it is taken.
abbrev pub Taken : MemoryAllocator → MemoryType → ℕ → ℕ → Allocated → Type 0
Taken m t num_pages limit r =
    (m' : MemoryAllocator) × (addr : ℕ) × (r ≡ (m', success, addr))
    × Carved m m' addr num_pages t
    × (addr % page_size ≡ 0)
    × (addr + num_pages * page_size ≤ min limit max_identity_mapped_address)

-- Nothing changes, and no free entry holds such a range below the limit.
abbrev pub NoneFree : MemoryAllocator → ℕ → ℕ → ℕ → Allocated → Type 0
NoneFree m num_pages limit memory r =
    (r ≡ (m, out_of_resources, memory))
    × ((a : ℕ)
        → a + num_pages * page_size ≤ min limit max_identity_mapped_address
        → is_region_free m a (num_pages * page_size) ≡ false)

module _ (m : MemoryAllocator) (t : MemoryType) (num_pages memory : ℕ) (v : Valid m)
    (room : HasRoom m) (pos : 0 < num_pages) (small : num_pages * page_size ≤ 2 ^ 63) where
  allocate_found :
      (limit addr : ℕ)
      → find_free_pages m num_pages limit ≡ some addr
      → Taken m t num_pages limit (allocate_below m t num_pages limit memory)
  unfolding allocate_below
  allocate_found limit addr e =
      let (free, aligned, below) =
        find_free_pages_sound m num_pages limit addr (AllWell-Chain 0 u64_max m.entries v.chain)
          small e in
      let (m', done, carved) =
        carve_out-Carved m addr num_pages t v room
          (record { aligned = aligned; nonempty = pos; fits = omega arith }) free in
      (m', addr, rw (e, allocate_below) (rw done), carved, aligned, below)

  allocate_below_lem :
      (limit : ℕ)
      → Taken m t num_pages limit (allocate_below m t num_pages limit memory)
        ⊎ NoneFree m num_pages limit memory (allocate_below m t num_pages limit memory)
  unfolding allocate_below
  allocate_below_lem limit = elim (Option-cases (find_free_pages m num_pages limit)) [
    | inl e ↦ inr (
      rw (e, allocate_below),
      λ a.
          find_free_pages_complete m num_pages limit a (AllWell-Chain 0 u64_max m.entries v.chain)
            pos e,
    )
    | inr (addr, e) ↦ inl (allocate_found limit addr e)
  ]

-- The address up to which the two searching allocation types look.
abbrev pub search_limit : AllocateType → ℕ → ℕ
search_limit allocate_any_pages memory = u64_max
search_limit _ memory = memory

allocate_pages-allocate_below :
    (m : MemoryAllocator) (a : AllocateType) (t : MemoryType) (num_pages memory : ℕ)
    → m.boot_services_exited ≡ false
    → a ≢ allocate_address
    → 0 < num_pages
    → num_pages * page_size ≤ u64_max
    → allocate_pages m a t num_pages memory
      ≡ allocate_below m t num_pages (search_limit a memory) memory
unfolding allocate_pages
allocate_pages-allocate_below m allocate_any_pages t num_pages memory e ne pos small = ground arith
allocate_pages-allocate_below m allocate_max_address t num_pages memory e ne pos small =
    ground arith
allocate_pages-allocate_below m allocate_address t num_pages memory e ne pos small =
    absurd (ne refl)

-- In a valid map with room for two more entries, before ExitBootServices, AllocateAnyPages and
-- AllocateMaxAddress with at least one page and up to 2^63 bytes either take a page-aligned free
-- range that ends at or below the limit and inside the identity-mapped memory, change only what
-- the map says of it, and leave a map; or change nothing, and then no entry has such a free
-- range.
pub allocate_pages_search :
    (m : MemoryAllocator) (a : AllocateType) (t : MemoryType) (num_pages memory : ℕ)
    → Valid m
    → HasRoom m
    → m.boot_services_exited ≡ false
    → a ≢ allocate_address
    → 0 < num_pages
    → num_pages * page_size ≤ 2 ^ 63
    → let limit = search_limit a memory in
      let r = allocate_pages m a t num_pages memory in
      Taken m t num_pages limit r ⊎ NoneFree m num_pages limit memory r
allocate_pages_search m a t num_pages memory v room open' ne pos small =
    rw (allocate_pages-allocate_below m a t num_pages memory open' ne pos (omega arith))
      (allocate_below_lem m t num_pages memory v room pos small (search_limit a memory))

-- AllocateAddress at a free range.
pub allocate_at_free :
    (m : MemoryAllocator) (t : MemoryType) (num_pages memory : ℕ)
    → Valid m
    → HasRoom m
    → IsRange memory num_pages
    → is_region_free m memory (num_pages * page_size) ≡ true
    → (m' : MemoryAllocator) × (allocate_at m t num_pages (num_pages * page_size) memory
        ≡ (m', success, memory))
      × Carved m m' memory num_pages t
unfolding allocate_at
allocate_at_free m t num_pages memory v room r free =
    let (m', done, carved) = carve_out-Carved m memory num_pages t v room r free in
    (m', rw (free, done) (ground (arith, r.aligned)), carved)

-- The calls that are refused before any search, each with its status.
pub data Refusal (m : MemoryAllocator) (num_pages memory : ℕ) : AllocateType → Status → Type 0 where
  no_pages : {a : AllocateType} → num_pages ≡ 0 → Refusal m num_pages memory a invalid_parameter
  exited :
      {a : AllocateType}
      → 0 < num_pages
      → m.boot_services_exited ≡ true
      → Refusal m num_pages memory a unsupported
  inside_page :
      0 < num_pages
      → m.boot_services_exited ≡ false
      → num_pages * page_size ≤ u64_max
      → memory % page_size ≢ 0
      → Refusal m num_pages memory allocate_address invalid_parameter

-- A call with no pages is refused with INVALID_PARAMETER; any other call after ExitBootServices
-- with UNSUPPORTED; and before it, AllocateAddress at an address inside a page with
-- INVALID_PARAMETER. None of them changes anything.
pub allocate_pages_refused :
    (m : MemoryAllocator) (t : MemoryType) {a : AllocateType} {s : Status} (num_pages memory : ℕ)
    → Refusal m num_pages memory a s
    → allocate_pages m a t num_pages memory ≡ (m, s, memory)
unfolding allocate_pages allocate_at
allocate_pages_refused m t num_pages memory (no_pages e) = ground arith
allocate_pages_refused m t num_pages memory (exited p e) = ground arith
allocate_pages_refused m t num_pages memory (inside_page p e small ne) = ground arith
