-- ===== src/Allocator/Free.antt =====
-- src/efi/allocator.rs: `free_pages` against the memory map, and which allocations it cannot find.
use crab_efi.Prelude.{
  ℕ, ◌+◌, ◌*◌, Bool, false, ◌&&◌, some, List, [], ◌∷◌, ◌++◌, ◌≡◌, ◌≢◌, refl, sym, ap, ◌∙◌, ◌⊎◌,
  get_elem?, inl, inr, ltb, leb, length, set, length-set, if◌then◌else◌, u64_max, arith,
  Option-cases, le_trans,
}
use crab_efi.Status.{success, not_found}
use crab_efi.Allocator.Types.{Descriptor, MemoryAllocator, to_u32, conventional_memory, page_size}
use crab_efi.Allocator.Entries.{position, merge_entries}
use crab_efi.Allocator.Services.{free_pages, free_at, free_found, is_allocation, set_free}
use crab_efi.Allocator.Chain.{
  Chain, Chain-append, Chain-unappend, IsWell, stop, end-stop, region_at, region_at-append,
  region_at_above, region_at_below,
}
use crab_efi.Allocator.Sorting.{Found, position-Found}
use crab_efi.Allocator.Freeable.{
  IsAllocation, is_allocation-IsAllocation, IsAllocation-is_allocation, position-none,
  Found-get_elem?,
}
use crab_efi.Allocator.Merging.{merge_list-Chain, region_at-merge_list, length-merge_list, IsMerged}
use crab_efi.Allocator.Carving.{Valid, Cut}
use crab_efi.Allocator.CarveOut.{IsRange, region_at-Found}

set-append :
    (pre post : List Descriptor) (d e : Descriptor)
    → set (pre ++ (d ∷ post)) (length pre) e ≡ pre ++ (e ∷ post)
set-append [] post d e = refl
set-append (x ∷ pre) post d e = ap (◌∷◌ x) (set-append pre post d e)

set_free-IsWell : (d : Descriptor) → IsWell d → IsWell (set_free d)
set_free-IsWell d w = record {
  aligned = w.aligned;
  nonempty = w.nonempty;
  fits = w.fits;
  known = omega arith;
}

module _ (lo hi : ℕ) (pre post : List Descriptor) (d : Descriptor)
    (c : Chain lo hi (pre ++ (d ∷ post))) where
  freed-Chain : Chain lo hi (pre ++ (set_free d ∷ post))
  freed-Chain =
      let (mid, l, r) = Chain-unappend lo hi pre (d ∷ post) c in
      Chain-append lo mid hi pre (set_free d ∷ post) l (r.0, set_free-IsWell d r.1, r.2)

  region_at-freed :
      (a : ℕ)
      → region_at (pre ++ (set_free d ∷ post)) a ≡ (
          if leb d.physical_start a && ltb a (stop d)
          then some (to_u32 conventional_memory, d.attribute)
          else region_at (pre ++ (d ∷ post)) a)
  unfolding region_at
  region_at-freed a =
      let (mid, l, r) = Chain-unappend lo hi pre (d ∷ post) c in
      ground (
        arith,
        region_at-append pre (set_free d ∷ post) a,
        region_at-append pre (d ∷ post) a,
        region_at_above lo mid a pre l,
        r.0,
      )

-- The state after a successful free: entry `d` is free memory, under a new key.
free_at-Cut :
    (m : MemoryAllocator) (p : Descriptor → Bool) {idx : ℕ} (d : Descriptor)
    → Valid m
    → Found p m.entries idx d
    → Cut m (free_at m idx d) (set_free d)
unfolding free_at merge_entries
free_at-Cut m p {idx} d v f =
    let freed = f.pre ++ (set_free d ∷ f.post) in
    let c = rw f.splits at v.chain in
    let whole = freed-Chain 0 u64_max f.pre f.post d c in
    let changed : set m.entries idx (set_free d) ≡ freed =
      rw (f.splits, f.index) (set-append f.pre f.post d (set_free d)) in
    let same_length = length-set m.entries idx (set_free d) in
    record {
      valid = record {
        chain = rw changed (merge_list-Chain 0 u64_max freed whole);
        within =
            le_trans (length-merge_list (set m.entries idx (set_free d)))
              (omega (arith, same_length, v.within));
      };
      maps = λ a. rw changed (
          region_at-merge_list 0 u64_max freed a whole
          ∙ region_at-freed 0 u64_max f.pre f.post d c a
          ∙ rw f.splits);
      key = refl;
      exited = refl;
    }

free_pages-free_found :
    (m : MemoryAllocator) (memory num_pages : ℕ)
    → IsRange memory num_pages
    → m.boot_services_exited ≡ false
    → free_pages m memory num_pages
      ≡ free_found m (position (is_allocation memory num_pages) m.entries)
unfolding free_pages
free_pages-free_found m memory num_pages r e = ground (arith, r.aligned, r.nonempty)

-- In a valid map, before ExitBootServices, freeing a page-aligned range either finds an entry of
-- the map with that start and length and a type that can be freed: then the range becomes free memory
-- with its attributes, under a new key, nothing else on the map changes, and the result is a map. Or
-- the map has no such entry: the call returns NOT_FOUND and changes nothing.
pub free_pages_lem :
    (m : MemoryAllocator) (memory num_pages : ℕ)
    → Valid m
    → IsRange memory num_pages
    → m.boot_services_exited ≡ false
    → ((m' : MemoryAllocator) × (d : Descriptor) × (free_pages m memory num_pages ≡ (m', success))
        × ((idx : ℕ) × (get_elem? m.entries idx ≡ some d))
        × IsAllocation memory num_pages d
        × (region_at m.entries memory ≡ some (d.memory_type, d.attribute))
        × Cut m m' (set_free d))
      ⊎ (((i : ℕ) (d : Descriptor)
            → get_elem? m.entries i ≡ some d
            → IsAllocation memory num_pages d
            → ⊥)
          × (free_pages m memory num_pages ≡ (m, not_found)))
unfolding free_found
free_pages_lem m memory num_pages v r e =
    let p = is_allocation memory num_pages in
    let step = free_pages-free_found m memory num_pages r e in
    elim (Option-cases (position p m.entries)) [
      | inl missed ↦ inr (
        (λ i d at a.
            position-none p m.entries i d missed at
              (IsAllocation-is_allocation memory num_pages d a)),
        step ∙ rw (missed, free_found),
      )
      | inr ((idx, d), found) ↦
          let f = position-Found p m.entries found in
          let starts : d.physical_start ≡ memory = ground (arith, f.passes) in
          let pages : d.number_of_pages ≡ num_pages = ground (arith, f.passes) in
          inl (
            free_at m idx d,
            d,
            step ∙ rw (found, free_found),
            (idx, Found-get_elem? p m.entries f),
            is_allocation-IsAllocation memory num_pages d f.passes,
            region_at-Found p m.entries 0 u64_max memory v.chain f (omega arith)
                (omega (arith, r.nonempty)),
            free_at-Cut m p d v f,
          )
    ]

IsMerged-suffix :
    (pre : List Descriptor) (d : Descriptor) (post : List Descriptor)
    → IsMerged (pre ++ (d ∷ post))
    → IsMerged (d ∷ post)
IsMerged-suffix [] d post h = h
IsMerged-suffix (x ∷ []) d post h = h.1
IsMerged-suffix (x ∷ y ∷ pre) d post h = IsMerged-suffix (y ∷ pre) d post h.1

-- In a merged list the memory right behind `d` differs from it.
ends_differently :
    (lo hi : ℕ) (d : Descriptor) (post : List Descriptor)
    → Chain lo hi (d ∷ post)
    → IsMerged (d ∷ post)
    → region_at (d ∷ post) (stop d) ≢ some (d.memory_type, d.attribute)
unfolding region_at
ends_differently lo hi d [] c m e = ground arith
ends_differently lo hi d (x ∷ post) c m e =
    ground (arith, end-stop d c.1, region_at_below (stop x) hi (stop d) post c.2.2, c.2.1.nonempty)

Found-ends_differently :
    (m : MemoryAllocator) (p : Descriptor → Bool) {idx : ℕ} (d : Descriptor)
    → Valid m
    → IsMerged m.entries
    → Found p m.entries idx d
    → region_at m.entries (stop d) ≢ some (d.memory_type, d.attribute)
Found-ends_differently m p d v merged f e =
    let (mid, l, r) = Chain-unappend 0 u64_max f.pre (d ∷ f.post) (rw f.splits at v.chain) in
    let well = r.1 in
    ends_differently mid u64_max d f.post r (IsMerged-suffix f.pre d f.post (rw f.splits at merged))
      (ground (
        arith,
        f.splits,
        region_at-append f.pre (d ∷ f.post) (stop d),
        region_at_above 0 mid (stop d) f.pre l,
        r.0,
      ))

-- In a valid map, before ExitBootServices: where the memory behind a range goes on with the type
-- and attributes of the range's start, and the entries are merged, as they are after every
-- allocation, the range cannot be freed: its entry, if there was one, has been merged with what
-- follows.
pub free_pages_merged :
    (m : MemoryAllocator) (memory num_pages : ℕ)
    → Valid m
    → IsMerged m.entries
    → IsRange memory num_pages
    → m.boot_services_exited ≡ false
    → region_at m.entries memory ≡ region_at m.entries (memory + num_pages * page_size)
    → free_pages m memory num_pages ≡ (m, not_found)
unfolding free_found
free_pages_merged m memory num_pages v merged r e same =
    let p = is_allocation memory num_pages in
    elim (Option-cases (position p m.entries)) [
      | inl missed ↦ free_pages-free_found m memory num_pages r e ∙ rw (missed, free_found)
      | inr ((idx, d), found) ↦
          let f = position-Found p m.entries found in
          let starts : d.physical_start ≡ memory = ground (arith, f.passes) in
          let ends : stop d ≡ memory + num_pages * page_size = ground (arith, f.passes) in
          let at_start =
            region_at-Found p m.entries 0 u64_max memory v.chain f (omega arith)
              (omega (arith, r.nonempty)) in
          absurd (Found-ends_differently m p d v merged f (rw ends (sym same ∙ at_start)))
    ]
