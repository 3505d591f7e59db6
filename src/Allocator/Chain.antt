-- ===== src/Allocator/Chain.antt =====
-- src/efi/allocator.rs: when an entry list is a memory map (well-formed entries, ascending, with no
-- overlap), and the map as a function from addresses to type and attributes.
use crab_efi.Prelude.{
  ℕ, ◌+◌, ◌*◌, ◌%◌, ◌≤◌, ◌<◌, ◌&&◌, Option, none, some, List, [], ◌∷◌, ◌++◌, ◌≡◌, refl, ltb, leb,
  if◌then◌else◌, u64_max, arith,
}
use crab_efi.Allocator.Types.{Descriptor, end, page_size}

-- The exclusive end of an entry that does not overflow.
abbrev pub stop : Descriptor → ℕ
stop d = d.physical_start + d.number_of_pages * page_size

pub record IsWell (d : Descriptor) : Type 0 where
  pub aligned : d.physical_start % page_size ≡ 0
  pub nonempty : 0 < d.number_of_pages
  pub fits : stop d ≤ u64_max
  pub known : d.memory_type < 15

-- Well-formed entries between `lo` and `hi`, in order, no two sharing an address.
abbrev pub Chain : ℕ → ℕ → List Descriptor → Type 0
Chain lo hi [] = lo ≤ hi
Chain lo hi (d ∷ ds) = (lo ≤ d.physical_start) × IsWell d × Chain (stop d) hi ds

-- The type and attributes of the memory at an address, as the map gives them.
unfoldable pub region_at : List Descriptor → ℕ → Option (ℕ × ℕ)
region_at [] a = none
region_at (d ∷ ds) a =
    if leb d.physical_start a && ltb a (stop d)
    then some (d.memory_type, d.attribute)
    else region_at ds a

pub end-stop : (d : Descriptor) → IsWell d → end d ≡ stop d
unfolding end
end-stop d w = ground arith

pub Chain-le : (lo hi : ℕ) (ds : List Descriptor) → Chain lo hi ds → lo ≤ hi
Chain-le lo hi [] c = c
Chain-le lo hi (d ∷ ds) c = omega (arith, Chain-le (stop d) hi ds c.2)

pub Chain-lower :
    (lo lo' hi : ℕ) (ds : List Descriptor) → lo' ≤ lo → Chain lo hi ds → Chain lo' hi ds
Chain-lower lo lo' hi [] h c = omega arith
Chain-lower lo lo' hi (d ∷ ds) h c = (omega arith, c.1, c.2)

pub Chain-raise :
    (lo hi hi' : ℕ) (ds : List Descriptor) → hi ≤ hi' → Chain lo hi ds → Chain lo hi' ds
Chain-raise lo hi hi' [] h c = omega arith
Chain-raise lo hi hi' (d ∷ ds) h c = (c.0, c.1, Chain-raise (stop d) hi hi' ds h c.2)

pub Chain-append :
    (lo mid hi : ℕ) (xs ys : List Descriptor)
    → Chain lo mid xs
    → Chain mid hi ys
    → Chain lo hi (xs ++ ys)
Chain-append lo mid hi [] ys c k = Chain-lower mid lo hi ys c k
Chain-append lo mid hi (x ∷ xs) ys c k = (c.0, c.1, Chain-append (stop x) mid hi xs ys c.2 k)

pub Chain-unappend :
    (lo hi : ℕ) (xs ys : List Descriptor)
    → Chain lo hi (xs ++ ys)
    → (mid : ℕ) × Chain lo mid xs × Chain mid hi ys
Chain-unappend lo hi [] ys c = (lo, omega arith, c)
Chain-unappend lo hi (x ∷ xs) ys c =
    let (mid, l, r) = Chain-unappend (stop x) hi xs ys c.2 in (mid, (c.0, c.1, l), r)

abbrev pub or_region : Option (ℕ × ℕ) → Option (ℕ × ℕ) → Option (ℕ × ℕ)
or_region none r = r
or_region (some v) r = some v

pub region_at-append :
    (xs ys : List Descriptor) (a : ℕ)
    → region_at (xs ++ ys) a ≡ or_region (region_at xs a) (region_at ys a)
unfolding region_at
region_at-append [] ys a = refl
region_at-append (x ∷ xs) ys a = ground (arith, region_at-append xs ys a)

pub region_at-cons :
    (d : Descriptor) (xs ys : List Descriptor) (a : ℕ)
    → region_at xs a ≡ region_at ys a
    → region_at (d ∷ xs) a ≡ region_at (d ∷ ys) a
unfolding region_at
region_at-cons d xs ys a e = rw e

pub region_at_below :
    (lo hi a : ℕ) (ds : List Descriptor) → Chain lo hi ds → a < lo → region_at ds a ≡ none
unfolding region_at
region_at_below lo hi a [] c h = refl
region_at_below lo hi a (d ∷ ds) c h = ground (arith, region_at_below (stop d) hi a ds c.2)

pub region_at_above :
    (lo hi a : ℕ) (ds : List Descriptor) → Chain lo hi ds → hi ≤ a → region_at ds a ≡ none
unfolding region_at
region_at_above lo hi a [] c h = refl
region_at_above lo hi a (d ∷ ds) c h =
    ground (arith, region_at_above (stop d) hi a ds c.2, Chain-le (stop d) hi ds c.2)

-- Exchanging the middle of a map changes what it says inside the middle's span only.
pub region_at_middle :
    (lo s e hi a : ℕ) (pre mid post : List Descriptor)
    → Chain lo s pre
    → Chain s e mid
    → Chain e hi post
    → region_at (pre ++ (mid ++ post)) a
      ≡ (if leb s a && ltb a e then region_at mid a else region_at (pre ++ post) a)
region_at_middle lo s e hi a pre mid post p m q = ground (
  arith,
  region_at-append pre (mid ++ post) a,
  region_at-append mid post a,
  region_at-append pre post a,
  region_at_above lo s a pre p,
  region_at_below s e a mid m,
  region_at_above s e a mid m,
  region_at_below e hi a post q,
)
