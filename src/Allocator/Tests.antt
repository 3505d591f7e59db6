-- ===== src/Allocator/Tests.antt =====
-- Runs of the allocator on a small map, and the theorems at concrete inputs.
use crab_efi.Prelude.{
  get_elem?, List, inl, inr, ◌≤◌, ℕ, ◌+◌, ◌*◌, true, false, some, [], ◌∷◌, ◌≡◌, refl, ◌⊎◌, arith,
}
use crab_efi.Status.{success, not_found, ok}
use crab_efi.Allocator.Types.{
  Descriptor, MemoryAllocator, conventional_memory, loader_data, boot_services_data,
  runtime_services_data, allocate_any_pages, allocate_max_address, allocate_address, new_descriptor,
  end, from_u32, page_size,
}
use crab_efi.Allocator.Entries.{
  any, remove, push_unchecked, position, sort_entries, sort_by_start, insert_by_start,
  merge_entries, merge_list, merge_from,
}
use crab_efi.Allocator.Carve.{
  carve_out, carve_at, carve_range, make_room, split_entry, runtime_attribute,
}
use crab_efi.Allocator.Search.{is_region_free, find_free_pages, find_first, fit_entry}
use crab_efi.Allocator.Services.{
  allocate_below, free_found, free_at, allocate_pages, free_pages, exit_boot_services, set_free,
}
use crab_efi.Allocator.Chain.{region_at}
use crab_efi.Allocator.Carving.{Valid, Cut, merge_entries_lem}
use crab_efi.Allocator.Merging.{IsMerged}
use crab_efi.Allocator.CarveOut.{IsRange, Carved, carve_out-Carved}
use crab_efi.Allocator.Allocate.{Taken, NoneFree, allocate_pages_search}
use crab_efi.Allocator.Reallocate.{AtAddress, allocate_pages_address}
use crab_efi.Allocator.Freeable.{IsAllocation}
use crab_efi.Allocator.Free.{free_pages_lem, free_pages_merged}
use crab_efi.Allocator.Pool.{Pool, header_size, allocate_pool, free_pool}
use crab_efi.Allocator.Pooling.{free_pool-allocate_pool}
use crab_efi.Allocator.Import.{MemoryRegion, ram, reserved, init_from_coreboot}
use crab_efi.Allocator.Importing.{described_at, init_from_coreboot_lem}
use crab_efi.Allocator.Exit.{released, exit_boot_services_lem}

-- 16 free pages at 1 MiB, 4 pages of loader data behind them, 256 free pages at 2 MiB.
abbrev demo : MemoryAllocator
demo = record {
  entries =
      new_descriptor conventional_memory 0x100000 16 8
      ∷ new_descriptor loader_data 0x110000 4 8
      ∷ new_descriptor conventional_memory 0x200000 256 8
      ∷ [];
  map_key = 7;
  boot_services_exited = false;
}

abbrev exited : MemoryAllocator
exited = record demo { boot_services_exited = true }

demo-Valid : Valid demo
demo-Valid = omega arith

two_pages : IsRange 0x112000 2
two_pages = omega arith

run_any : allocate_pages demo allocate_any_pages boot_services_data 2 0 ≡ (
  record {
    entries =
        new_descriptor conventional_memory 0x100000 16 8
        ∷ new_descriptor loader_data 0x110000 4 8
        ∷ new_descriptor conventional_memory 0x200000 254 8
        ∷ new_descriptor boot_services_data 0x2fe000 2 8
        ∷ [];
    map_key = 8;
    boot_services_exited = false;
  },
  success,
  0x2fe000,
)
unfolding allocate_pages allocate_below find_free_pages find_first fit_entry carve_out carve_range
    carve_at make_room split_entry remove push_unchecked runtime_attribute position sort_entries
    sort_by_start insert_by_start merge_entries merge_list merge_from end from_u32
run_any = refl

-- A page range given back is merged with its free neighbour.
run_free :
    free_pages
      (record demo {
        entries =
            new_descriptor conventional_memory 0x100000 16 8
            ∷ new_descriptor loader_data 0x110000 4 8
            ∷ [];
      })
      0x110000
      4
    ≡ (
      record demo { entries = new_descriptor conventional_memory 0x100000 20 8 ∷ []; map_key = 8 },
      success,
    )
unfolding free_pages free_found free_at position merge_entries merge_list merge_from end from_u32
run_free = refl

allocate_pages_search_example :
    let r = allocate_pages demo allocate_max_address boot_services_data 2 0x180000 in
    Taken demo boot_services_data 2 0x180000 r ⊎ NoneFree demo 2 0x180000 0x180000 r
allocate_pages_search_example =
    allocate_pages_search demo allocate_max_address boot_services_data 2 0x180000 demo-Valid
      (omega arith) refl (λ e. cc) (omega arith) (omega arith)

allocate_pages_address_example :
    AtAddress demo 0x112000 2 boot_services_data
      (allocate_pages demo allocate_address boot_services_data 2 0x112000)
allocate_pages_address_example =
    allocate_pages_address demo 0x112000 2 boot_services_data demo-Valid (omega arith) two_pages
      refl

free_in_demo : is_region_free demo 0x101000 (2 * page_size) ≡ true
unfolding is_region_free any end from_u32
free_in_demo = refl

carve_out-Carved_example :
    (m' : MemoryAllocator) × (carve_out demo 0x101000 2 runtime_services_data ≡ (m', ok tt))
    × Carved demo m' 0x101000 2 runtime_services_data
carve_out-Carved_example =
    carve_out-Carved demo 0x101000 2 runtime_services_data demo-Valid (omega arith) (omega arith)
      free_in_demo

free_pages_lem_example :
    ((m' : MemoryAllocator) × (d : Descriptor) × (free_pages demo 0x110000 4 ≡ (m', success))
      × ((idx : ℕ) × (get_elem? demo.entries idx ≡ some d))
      × IsAllocation 0x110000 4 d
      × (region_at demo.entries 0x110000 ≡ some (d.memory_type, d.attribute))
      × Cut demo m' (set_free d))
    ⊎ (((i : ℕ) (d : Descriptor)
          → get_elem? demo.entries i ≡ some d
          → IsAllocation 0x110000 4 d
          → ⊥)
        × (free_pages demo 0x110000 4 ≡ (demo, not_found)))
free_pages_lem_example = free_pages_lem demo 0x110000 4 demo-Valid (omega arith) refl

demo-IsMerged : IsMerged demo.entries
unfolding end
demo-IsMerged = (refl, (refl, tt))

goes_on : region_at demo.entries 0x110000 ≡ region_at demo.entries (0x110000 + 2 * page_size)
unfolding region_at
goes_on = refl

-- Two pages of the four that were allocated as two times two.
free_pages_merged_example : free_pages demo 0x110000 2 ≡ (demo, not_found)
free_pages_merged_example =
    free_pages_merged demo 0x110000 2 demo-Valid demo-IsMerged (omega arith) refl goes_on

exit_boot_services_lem_example :
    let (m', status) = exit_boot_services demo 7 in
    (status ≡ success)
    × (m'.boot_services_exited ≡ true)
    × (m'.map_key ≡ 8)
    × ((a : ℕ) → region_at m'.entries a ≡ released (region_at demo.entries a))
    × Valid m'
exit_boot_services_lem_example = exit_boot_services_lem demo demo-Valid

merge_entries_lem_example :
    let m' = merge_entries demo in
    Valid m' × ((a : ℕ) → region_at m'.entries a ≡ region_at demo.entries a) × IsMerged m'.entries
merge_entries_lem_example = merge_entries_lem demo demo-Valid

abbrev demo_pool : Pool
demo_pool = record { allocator = demo; headers = λ _. record { num_pages = 0; magic = 0 } }

abbrev after_pool : Pool
after_pool = (allocate_pool demo_pool loader_data 100).0

free_pool-allocate_pool_example :
    (num_pages addr : ℕ) × (allocate_pages demo allocate_any_pages loader_data num_pages 0
      ≡ (after_pool.allocator, success, addr))
    × (0x2ff010 ≡ addr + header_size)
    × (100 + header_size ≤ num_pages * page_size)
    × (free_pool after_pool 0x2ff010 ≡ (
      record after_pool { allocator = (free_pages after_pool.allocator addr num_pages).0 },
      (free_pages after_pool.allocator addr num_pages).1,
    ))
free_pool-allocate_pool_example =
    free_pool-allocate_pool demo_pool after_pool loader_data 100 0x2ff010
      (unfold allocate_pool allocate_pages allocate_below find_free_pages find_first fit_entry
          carve_out carve_range carve_at make_room split_entry remove push_unchecked
          runtime_attribute position sort_entries sort_by_start insert_by_start merge_entries
          merge_list merge_from end from_u32 in
        refl)
      (omega arith)

-- Two regions of RAM with a reserved one between them, not in order.
abbrev three_regions : List MemoryRegion
three_regions =
    record { start = 0x200000; size = 0x100000; region_type = ram }
    ∷ record { start = 0x100000; size = 0x10000; region_type = ram }
    ∷ record { start = 0x110000; size = 0x1000; region_type = reserved }
    ∷ []

init_from_coreboot_lem_example :
    Valid (init_from_coreboot demo three_regions)
    × ((a : ℕ)
        → region_at (init_from_coreboot demo three_regions).entries a
          ≡ described_at three_regions a)
init_from_coreboot_lem_example =
    init_from_coreboot_lem demo three_regions
      (
        record {
          start_aligned = refl;
          size_aligned = refl;
          nonempty = omega arith;
          fits = omega arith;
        },
        (inr (omega arith), (inr (omega arith), tt)),
        (
          record {
            start_aligned = refl;
            size_aligned = refl;
            nonempty = omega arith;
            fits = omega arith;
          },
          (inl (omega arith), tt),
          (
            record {
              start_aligned = refl;
              size_aligned = refl;
              nonempty = omega arith;
              fits = omega arith;
            },
            tt,
            tt,
          ),
        ),
      )
      (omega arith)
