-- ===== src/Allocator/Merging.antt =====
-- src/efi/allocator.rs: `merge_entries` keeps a memory map a map, and what it says.
use crab_efi.Prelude.{
  ℕ, suc, ◌≤◌, true, false, List, [], ◌∷◌, ◌≡◌, refl, ◌∙◌, inl, inr, length, arith, Bool-cases,
}
use crab_efi.Allocator.Types.{Descriptor}
use crab_efi.Allocator.Entries.{mergeable, absorb, merge_from, merge_list}
use crab_efi.Allocator.Chain.{Chain, IsWell, stop, end-stop, region_at, region_at-cons}

-- The entry that absorbs its neighbour reaches from its start to the neighbour's end.
absorb-IsWell :
    (d e : Descriptor)
    → IsWell d
    → IsWell e
    → stop d ≡ e.physical_start
    → IsWell (absorb d e) × (stop (absorb d e) ≡ stop e)
absorb-IsWell d e w v h = (
  record {
    aligned = w.aligned;
    nonempty = omega (arith, v.fits, w.nonempty, h);
    fits = omega (arith, v.fits, h);
    known = w.known;
  },
  omega (arith, v.fits, h),
)

merge_from-true :
    (d e : Descriptor) (es : List Descriptor)
    → mergeable d e ≡ true
    → merge_from d (e ∷ es) ≡ merge_from (absorb d e) es
unfolding merge_from
merge_from-true d e es m = rw m

merge_from-false :
    (d e : Descriptor) (es : List Descriptor)
    → mergeable d e ≡ false
    → merge_from d (e ∷ es) ≡ d ∷ merge_from e es
unfolding merge_from
merge_from-false d e es m = rw m

adjacent : (d e : Descriptor) → IsWell d → mergeable d e ≡ true → stop d ≡ e.physical_start
adjacent d e w m = ground (arith, end-stop d w)

absorb-Chain :
    (lo hi : ℕ) (d e : Descriptor) (es : List Descriptor)
    → Chain lo hi (d ∷ e ∷ es)
    → mergeable d e ≡ true
    → Chain lo hi (absorb d e ∷ es)
absorb-Chain lo hi d e es c m =
    let (well, same) = absorb-IsWell d e c.1 c.2.1 (adjacent d e c.1 m) in
    (c.0, well, rw same c.2.2)

merge_from-Chain :
    (lo hi : ℕ) (d : Descriptor) (ds : List Descriptor)
    → Chain lo hi (d ∷ ds)
    → Chain lo hi (merge_from d ds)
merge_from-Chain lo hi d [] c = unfold merge_from in c
merge_from-Chain lo hi d (e ∷ es) c = elim (Bool-cases (mergeable d e)) [
  | inl m ↦
      rw (merge_from-true d e es m)
        (merge_from-Chain lo hi (absorb d e) es (absorb-Chain lo hi d e es c m))
  | inr m ↦ rw (merge_from-false d e es m) (c.0, c.1, merge_from-Chain (stop d) hi e es c.2)
]

pub merge_list-Chain :
    (lo hi : ℕ) (ds : List Descriptor) → Chain lo hi ds → Chain lo hi (merge_list ds)
unfolding merge_list
merge_list-Chain lo hi [] c = c
merge_list-Chain lo hi (d ∷ ds) c = merge_from-Chain lo hi d ds c

region_at-absorb :
    (d e : Descriptor) (es : List Descriptor) (a : ℕ)
    → IsWell d
    → IsWell e
    → mergeable d e ≡ true
    → region_at (absorb d e ∷ es) a ≡ region_at (d ∷ e ∷ es) a
unfolding region_at
region_at-absorb d e es a w v m =
    let near = adjacent d e w m in ground (arith, near, (absorb-IsWell d e w v near).1)

region_at-merge_from :
    (lo hi : ℕ) (d : Descriptor) (ds : List Descriptor) (a : ℕ)
    → Chain lo hi (d ∷ ds)
    → region_at (merge_from d ds) a ≡ region_at (d ∷ ds) a
region_at-merge_from lo hi d [] a c = unfold merge_from in refl
region_at-merge_from lo hi d (e ∷ es) a c = elim (Bool-cases (mergeable d e)) [
  | inl m ↦ rw (merge_from-true d e es m) (
      region_at-merge_from lo hi (absorb d e) es a (absorb-Chain lo hi d e es c m)
      ∙ region_at-absorb d e es a c.1 c.2.1 m)
  | inr m ↦
      rw (merge_from-false d e es m) (
        region_at-cons d (merge_from e es) (e ∷ es) a (region_at-merge_from (stop d) hi e es a c.2))
]

pub region_at-merge_list :
    (lo hi : ℕ) (ds : List Descriptor) (a : ℕ)
    → Chain lo hi ds
    → region_at (merge_list ds) a ≡ region_at ds a
unfolding merge_list
region_at-merge_list lo hi [] a c = refl
region_at-merge_list lo hi (d ∷ ds) a c = region_at-merge_from lo hi d ds a c

length-merge_from :
    (d : Descriptor) (ds : List Descriptor) → length (merge_from d ds) ≤ suc (length ds)
length-merge_from d [] = unfold merge_from in omega arith
length-merge_from d (e ∷ es) = elim (Bool-cases (mergeable d e)) [
  | inl m ↦ rw (merge_from-true d e es m) (omega (arith, length-merge_from (absorb d e) es))
  | inr m ↦ rw (merge_from-false d e es m) (omega (arith, length-merge_from e es))
]

pub length-merge_list : (ds : List Descriptor) → length (merge_list ds) ≤ length ds
unfolding merge_list
length-merge_list [] = omega arith
length-merge_list (d ∷ ds) = length-merge_from d ds

-- No two neighbours could be merged.
abbrev pub IsMerged : List Descriptor → Type 0
IsMerged [] = Unit {0}
IsMerged (d ∷ []) = Unit {0}
IsMerged (d ∷ e ∷ es) = (mergeable d e ≡ false) × IsMerged (e ∷ es)

abbrev Starts : Descriptor → List Descriptor → Type 0
Starts d [] = ⊥
Starts d (e ∷ es) =
    (d.physical_start ≡ e.physical_start)
    × (d.memory_type ≡ e.memory_type)
    × (d.attribute ≡ e.attribute)

merge_from-Starts : (d : Descriptor) (ds : List Descriptor) → Starts d (merge_from d ds)
merge_from-Starts d [] = unfold merge_from in (refl, refl, refl)
merge_from-Starts d (e ∷ es) = elim (Bool-cases (mergeable d e)) [
  | inl m ↦ rw (merge_from-true d e es m) (merge_from-Starts (absorb d e) es)
  | inr m ↦ rw (merge_from-false d e es m) (refl, refl, refl)
]

IsMerged-cons :
    (d e : Descriptor) (es : List Descriptor)
    → mergeable d e ≡ false
    → Starts e es
    → IsMerged es
    → IsMerged (d ∷ es)
IsMerged-cons d e [] m s h = tt
IsMerged-cons d e (x ∷ es) m s h = (ground arith, h)

merge_from-IsMerged : (d : Descriptor) (ds : List Descriptor) → IsMerged (merge_from d ds)
merge_from-IsMerged d [] = unfold merge_from in tt
merge_from-IsMerged d (e ∷ es) = elim (Bool-cases (mergeable d e)) [
  | inl m ↦ rw (merge_from-true d e es m) (merge_from-IsMerged (absorb d e) es)
  | inr m ↦
      rw (merge_from-false d e es m)
        (IsMerged-cons d e (merge_from e es) m (merge_from-Starts e es) (merge_from-IsMerged e es))
]

-- One pass merges all that can be merged.
pub merge_list-IsMerged : (ds : List Descriptor) → IsMerged (merge_list ds)
unfolding merge_list
merge_list-IsMerged [] = tt
merge_list-IsMerged (d ∷ ds) = merge_from-IsMerged d ds
