-- ===== src/Allocator/Freeable.antt =====
-- src/efi/allocator.rs: the entries that `free_pages` takes for an allocation.
use crab_efi.Prelude.{
  ℕ, zero, suc, Bool, true, Option, none, some, List, [], ◌∷◌, ◌++◌, ◌≡◌, refl, ap, ◌⊎◌, inl, inr,
  length, get_elem?, arith, Bool-cases,
}
use crab_efi.Allocator.Types.{Descriptor, from_u32}
use crab_efi.Allocator.Entries.{bump, position}
use crab_efi.Allocator.Services.{is_allocation}
use crab_efi.Allocator.Sorting.{Found}

get_elem?-append :
    (pre post : List Descriptor) (d : Descriptor)
    → get_elem? (pre ++ (d ∷ post)) (length pre) ≡ some d
get_elem?-append [] post d = refl
get_elem?-append (x ∷ pre) post d = get_elem?-append pre post d

-- The types that can be freed: the code and data of the loader and of boot services, and free memory.
abbrev pub IsFreeable : ℕ → Type 0
IsFreeable t = (t ≡ 1) ⊎ ((t ≡ 2) ⊎ ((t ≡ 3) ⊎ ((t ≡ 4) ⊎ (t ≡ 7))))

-- An entry that has this start and this length, and a type that can be freed.
pub record IsAllocation (memory num_pages : ℕ) (d : Descriptor) : Type 0 where
  pub starts : d.physical_start ≡ memory
  pub pages : d.number_of_pages ≡ num_pages
  pub freeable : IsFreeable d.memory_type

pub is_allocation-IsAllocation :
    (memory num_pages : ℕ) (d : Descriptor)
    → is_allocation memory num_pages d ≡ true
    → IsAllocation memory num_pages d
unfolding from_u32
is_allocation-IsAllocation memory num_pages d h = record {
  starts = ground (arith, h);
  pages = ground (arith, h);
  freeable = ground (arith, h);
}

pub IsAllocation-is_allocation :
    (memory num_pages : ℕ) (d : Descriptor)
    → IsAllocation memory num_pages d
    → is_allocation memory num_pages d ≡ true
unfolding from_u32
IsAllocation-is_allocation memory num_pages d a = ground (arith, a.starts, a.pages, a.freeable)

bump-eq-none : (o : Option (ℕ × Descriptor)) → bump o ≡ none → o ≡ none
bump-eq-none none e = refl
bump-eq-none (some (i, d)) e = cc

pub position-none :
    (p : Descriptor → Bool) (ds : List Descriptor) (i : ℕ) (d : Descriptor)
    → position p ds ≡ none
    → get_elem? ds i ≡ some d
    → p d ≡ true
    → ⊥
unfolding position
position-none p [] i d missed at hit = cc
position-none p (x ∷ ds) zero d missed at hit =
    let same : p x ≡ p d = ap p (ground (arith, at)) in ground (arith, missed, same, hit)
position-none p (x ∷ ds) (suc i) d missed at hit = elim (Bool-cases (p x)) [
  | inl found ↦ ground (arith, missed, found)
  | inr other ↦
      position-none p ds i d (bump-eq-none (position p ds) (ground (arith, missed, other))) at hit
]

pub Found-get_elem? :
    (p : Descriptor → Bool) (ds : List Descriptor) {idx : ℕ} {d : Descriptor}
    → Found p ds idx d
    → get_elem? ds idx ≡ some d
Found-get_elem? p ds {idx} {d} f = rw (f.splits, f.index) (get_elem?-append f.pre f.post d)
