-- ===== src/Allocator/Exit.antt =====
-- src/efi/allocator.rs: ExitBootServices, and the queries of the memory map.
use crab_efi.Prelude.{
  ℕ, Bool, true, ◌&&◌, Option, none, some, List, [], ◌∷◌, ◌≡◌, ◌≢◌, refl, ◌∙◌, leb, ◌==◌, map,
  length-map, if◌then◌else◌, u64_max, add64, arith, le_trans,
}
use crab_efi.Status.{success, invalid_parameter}
use crab_efi.Allocator.Types.{
  Descriptor, MemoryAllocator, MemoryType, AllocateType, from_u32, to_u32, conventional_memory,
}
use crab_efi.Allocator.Entries.{bump, position, merge_entries}
use crab_efi.Allocator.Services.{
  exit_boot_services, release_boot, get_memory_type_at, allocate_pages, free_pages, type_of_found,
  holds,
}
use crab_efi.Allocator.Chain.{Chain, IsWell, stop, end-stop, region_at}
use crab_efi.Allocator.Merging.{merge_list-Chain, region_at-merge_list, length-merge_list}
use crab_efi.Allocator.Carving.{Valid}

-- Loader and boot services memory, by type number: 1 to 4.
abbrev pub is_boot_number : ℕ → Bool
is_boot_number n = leb 1 n && leb n 4

-- What becomes of the type and attributes at an address.
abbrev pub released : Option (ℕ × ℕ) → Option (ℕ × ℕ)
released none = none
released (some (t, attribute)) =
    some ((if is_boot_number t then to_u32 conventional_memory else t), attribute)

key_eq : (k : ℕ) → (k == k) ≡ true
key_eq k = ground arith

release_boot_lem :
    (d : Descriptor)
    → release_boot d ≡ record d {
      memory_type =
          if is_boot_number d.memory_type then to_u32 conventional_memory else d.memory_type;
    }
unfolding release_boot from_u32
release_boot_lem d = ground arith

release_boot-IsWell : (d : Descriptor) → IsWell d → IsWell (release_boot d)
release_boot-IsWell d w = rw (release_boot_lem d) (record {
  aligned = w.aligned;
  nonempty = w.nonempty;
  fits = w.fits;
  known = ground (arith, w.known);
})

release-Chain :
    (lo hi : ℕ) (ds : List Descriptor) → Chain lo hi ds → Chain lo hi (map release_boot ds)
release-Chain lo hi [] c = c
release-Chain lo hi (d ∷ ds) c =
    rw (release_boot_lem d) (
      c.0,
      rw (release_boot_lem d) at (release_boot-IsWell d c.1),
      release-Chain (stop d) hi ds c.2,
    )

region_at-release :
    (ds : List Descriptor) (a : ℕ) → region_at (map release_boot ds) a ≡ released (region_at ds a)
unfolding region_at
region_at-release [] a = refl
region_at-release (d ∷ ds) a = rw (release_boot_lem d) (ground (arith, region_at-release ds a))

-- ExitBootServices on a valid map with the current key: from then on boot services are over, the
-- key is a new one, loader and boot services memory is free, every other address keeps its type,
-- attributes never change, and the result is a map.
pub exit_boot_services_lem :
    (m : MemoryAllocator)
    → Valid m
    → let (m', status) = exit_boot_services m m.map_key in
      (status ≡ success)
      × (m'.boot_services_exited ≡ true)
      × (m'.map_key ≡ add64 m.map_key 1)
      × ((a : ℕ) → region_at m'.entries a ≡ released (region_at m.entries a))
      × Valid m'
unfolding exit_boot_services merge_entries
exit_boot_services_lem m v =
    let whole = release-Chain 0 u64_max m.entries v.chain in
    let freed = map release_boot m.entries in
    let same_length = length-map m.entries release_boot in
    rw (key_eq m.map_key) (
      refl,
      refl,
      refl,
      (λ a. region_at-merge_list 0 u64_max freed a whole ∙ region_at-release m.entries a),
      record {
        chain = merge_list-Chain 0 u64_max freed whole;
        within = le_trans (length-merge_list freed) (omega (arith, same_length, v.within));
      },
    )

-- A stale or wrong key is refused and changes nothing.
pub exit_boot_services_refused :
    (m : MemoryAllocator) (key : ℕ)
    → key ≢ m.map_key
    → exit_boot_services m key ≡ (m, invalid_parameter)
unfolding exit_boot_services
exit_boot_services_refused m key ne = ground arith

-- After ExitBootServices no call allocates or frees: the allocator never changes again.
pub exited_frozen :
    (m : MemoryAllocator) (a : AllocateType) (t : MemoryType) (num_pages memory : ℕ)
    → m.boot_services_exited ≡ true
    → ((allocate_pages m a t num_pages memory).0 ≡ m) × ((free_pages m memory num_pages).0 ≡ m)
unfolding allocate_pages free_pages
exited_frozen m a t num_pages memory e = ground arith

abbrev pub type_of_region : Option (ℕ × ℕ) → Option MemoryType
type_of_region none = none
type_of_region (some (t, _)) = from_u32 t

bumped : (o : Option (ℕ × Descriptor)) → type_of_found (bump o) ≡ type_of_found o
bumped none = refl
bumped (some (i, d)) = refl

type_of_found-position :
    (lo hi a : ℕ) (ds : List Descriptor)
    → Chain lo hi ds
    → type_of_found (position (holds a) ds) ≡ type_of_region (region_at ds a)
unfolding position region_at
type_of_found-position lo hi a [] c = refl
type_of_found-position lo hi a (d ∷ ds) c = ground (
  arith,
  end-stop d c.1,
  bumped (position (holds a) ds),
  type_of_found-position (stop d) hi a ds c.2,
)

-- On a valid map, the query by address answers from the map.
pub get_memory_type_at-region_at :
    (m : MemoryAllocator) (address : ℕ)
    → Valid m
    → get_memory_type_at m address ≡ type_of_region (region_at m.entries address)
unfolding get_memory_type_at
get_memory_type_at-region_at m address v =
    type_of_found-position 0 u64_max address m.entries v.chain
