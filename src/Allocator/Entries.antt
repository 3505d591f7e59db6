-- ===== src/Allocator/Entries.antt =====
-- src/efi/allocator.rs: the entry list. `heapless::Vec::push` and `remove`, `iter().position`,
-- `sort_entries` and `merge_entries`.
use crab_efi.Prelude.{
  ℕ, zero, suc, ◌&&◌, Bool, true, false, Option, none, some, List, [], ◌∷◌, ◌++◌, ◌==◌, leb, ltb,
  if◌then◌else◌, length, add64,
}
use crab_efi.Allocator.Types.{Descriptor, MemoryAllocator, max_memory_entries, end}

-- `entries.push(desc)`: `none` when the 512 places are taken.
unfoldable pub push : List Descriptor → Descriptor → Option (List Descriptor)
push ds d = if ltb (length ds) max_memory_entries then some (ds ++ d ∷ []) else none

-- `let _ = entries.push(desc)`: a full vector is left as it is.
unfoldable pub push_unchecked : List Descriptor → Descriptor → List Descriptor
push_unchecked ds d = if ltb (length ds) max_memory_entries then ds ++ d ∷ [] else ds

-- `entries.remove(i)`
unfoldable pub remove : ℕ → List Descriptor → List Descriptor
remove i [] = []
remove zero (d ∷ ds) = ds
remove (suc i) (d ∷ ds) = d ∷ remove i ds

abbrev pub bump : Option (ℕ × Descriptor) → Option (ℕ × Descriptor)
bump none = none
bump (some (i, d)) = some (suc i, d)

-- `entries.iter().position(p)` with the entry that stands there, `entries[idx]`
unfoldable pub position : (Descriptor → Bool) → List Descriptor → Option (ℕ × Descriptor)
position p [] = none
position p (d ∷ ds) = if p d then some (0, d) else bump (position p ds)

-- `entries.iter().any(p)`
unfoldable pub any : (Descriptor → Bool) → List Descriptor → Bool
any p [] = false
any p (d ∷ ds) = if p d then true else any p ds

unfoldable pub insert_by_start : Descriptor → List Descriptor → List Descriptor
insert_by_start d [] = d ∷ []
insert_by_start d (e ∷ es) =
    if leb d.physical_start e.physical_start then d ∷ e ∷ es else e ∷ insert_by_start d es

-- `sort_unstable_by_key` on `physical_start`
unfoldable pub sort_by_start : List Descriptor → List Descriptor
sort_by_start [] = []
sort_by_start (d ∷ ds) = insert_by_start d (sort_by_start ds)

unfoldable pub sort_entries : MemoryAllocator → MemoryAllocator
sort_entries m = record m { entries = sort_by_start m.entries }

-- The loop's test: adjacent, of one type and with the same attributes.
abbrev pub mergeable : Descriptor → Descriptor → Bool
mergeable d e =
    (end d == e.physical_start) && (d.memory_type == e.memory_type) && (d.attribute == e.attribute)

abbrev pub absorb : Descriptor → Descriptor → Descriptor
absorb d e = record d { number_of_pages = add64 d.number_of_pages e.number_of_pages }

-- The `while` loop at index `i`, with entry `i` and those behind it: it absorbs entry `i + 1` and
-- stays, or goes on to it.
unfoldable pub merge_from : Descriptor → List Descriptor → List Descriptor
merge_from d [] = d ∷ []
merge_from d (e ∷ es) =
    let kept = merge_from e es in
    let absorbed = merge_from (absorb d e) es in if mergeable d e then absorbed else d ∷ kept

unfoldable pub merge_list : List Descriptor → List Descriptor
merge_list [] = []
merge_list (d ∷ ds) = merge_from d ds

unfoldable pub merge_entries : MemoryAllocator → MemoryAllocator
merge_entries m = record m { entries = merge_list m.entries }
