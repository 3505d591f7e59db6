-- ===== src/Allocator/Carving.antt =====
-- src/efi/allocator.rs: what `carve_out` and `try_reallocate_loader_region` do to the memory map.
use crab_efi.Prelude.{
  ℕ, suc, ◌+◌, ◌≤◌, Bool, ◌&&◌, some, List, ◌∷◌, ◌++◌, ◌≡◌, refl, ap, ◌∙◌, ltb, leb, if◌then◌else◌,
  length, length-append, le_trans, u64_max, add64, arith,
}
use crab_efi.Allocator.Types.{Descriptor, MemoryAllocator, MemoryType, max_memory_entries}
use crab_efi.Allocator.Entries.{remove, sort_entries, sort_by_start, merge_entries}
use crab_efi.Allocator.Carve.{split_entry, commit}
use crab_efi.Allocator.Chain.{Chain, IsWell, stop, region_at}
use crab_efi.Allocator.Sorting.{Found, remove-append}
use crab_efi.Allocator.Merging.{
  IsMerged, merge_list-IsMerged, merge_list-Chain, region_at-merge_list, length-merge_list,
}
use crab_efi.Allocator.Cutting.{
  Fits, pieces, length-pieces, split_entry-pieces, entry-IsWell, replaced-Chain, region_at-replaced,
  sort_pieces,
}

-- The allocator holds a memory map that fits its 512 places.
pub record Valid (m : MemoryAllocator) : Type 0 where
  pub chain : Chain 0 u64_max m.entries
  pub within : length m.entries ≤ max_memory_entries

-- `m'` is `m` with the memory of `c` given the type and attributes of `c`, under a new key.
pub record Cut (m m' : MemoryAllocator) (c : Descriptor) : Type 0 where
  pub valid : Valid m'
  pub maps :
      (a : ℕ)
      → region_at m'.entries a ≡ (
          if leb c.physical_start a && ltb a (stop c)
          then some (c.memory_type, c.attribute)
          else region_at m.entries a)
  pub key : m'.map_key ≡ add64 m.map_key 1
  pub exited : m'.boot_services_exited ≡ m.boot_services_exited

length-Found :
    (p : Descriptor → Bool) (ds : List Descriptor) (idx : ℕ) (entry : Descriptor)
    (f : Found p ds idx entry)
    → (remove idx ds ≡ f.pre ++ f.post) × (length ds ≡ suc (length (f.pre ++ f.post)))
length-Found p ds idx entry f = (
  rw (f.splits, f.index) (remove-append f.pre f.post entry),
  rw f.splits (omega (arith, length-append f.pre (entry ∷ f.post), length-append f.pre f.post)),
)

module _ (m : MemoryAllocator) (idx : ℕ) (p : Descriptor → Bool) (entry carved : Descriptor)
    (kept : MemoryType) (v : Valid m) (f : Found p m.entries idx entry)
    (room : length m.entries + 2 ≤ max_memory_entries) where
  abbrev replaced : List Descriptor
  replaced = f.pre ++ (pieces entry carved kept ++ f.post)

  Chain-found : Chain 0 u64_max (f.pre ++ (entry ∷ f.post))
  Chain-found = rw f.splits at v.chain

  pub found-IsWell : IsWell entry
  found-IsWell = entry-IsWell 0 u64_max f.pre f.post entry carved kept Chain-found

  module _ (fits : Fits entry carved kept) where
    sort_split :
        sort_by_start (split_entry m.entries idx entry carved kept (stop carved)) ≡ replaced
    sort_split =
        let (removed, shorter) = length-Found p m.entries idx entry f in
        ap sort_by_start (
          split_entry-pieces m.entries idx entry carved kept (rw removed (ground (arith, shorter))))
        ∙ rw removed (sort_pieces 0 u64_max f.pre f.post entry carved kept Chain-found fits)

    replaced-within : length replaced ≤ max_memory_entries
    replaced-within =
        let (removed, shorter) = length-Found p m.entries idx entry f in
        ground (
          arith,
          shorter,
          length-append f.pre (pieces entry carved kept ++ f.post),
          length-append (pieces entry carved kept) f.post,
          length-append f.pre f.post,
          length-pieces entry carved kept,
        )

    pub split-Cut :
        Cut m (commit m (split_entry m.entries idx entry carved kept (stop carved))) carved
    unfolding sort_entries merge_entries
    split-Cut =
        let whole = replaced-Chain 0 u64_max f.pre f.post entry carved kept Chain-found fits in
        record {
          valid = record {
            chain = rw sort_split (merge_list-Chain 0 u64_max replaced whole);
            within = rw sort_split (le_trans (length-merge_list replaced) replaced-within);
          };
          maps = λ a. rw sort_split (
              region_at-merge_list 0 u64_max replaced a whole
              ∙ region_at-replaced 0 u64_max f.pre f.post entry carved kept Chain-found fits a
              ∙ rw f.splits);
          key = refl;
          exited = refl;
        }

-- Merging a valid map leaves a map that says the same of every address, and merges all that it
-- can.
pub merge_entries_lem :
    (m : MemoryAllocator)
    → Valid m
    → let m' = merge_entries m in
      Valid m' × ((a : ℕ) → region_at m'.entries a ≡ region_at m.entries a) × IsMerged m'.entries
unfolding merge_entries
merge_entries_lem m v = (
  record {
    chain = merge_list-Chain 0 u64_max m.entries v.chain;
    within = le_trans (length-merge_list m.entries) v.within;
  },
  (λ a. region_at-merge_list 0 u64_max m.entries a v.chain),
  merge_list-IsMerged m.entries,
)
