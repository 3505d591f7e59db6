-- ===== src/Allocator/Searching.antt =====
-- src/efi/allocator.rs: the search for free pages finds a free, aligned range below the limit, and
-- finds one if there is one.
use crab_efi.Prelude.{
  ℕ, ◌+◌, ◌*◌, ◌^◌, ◌%◌, ◌≤◌, ◌<◌, Bool, true, false, ◌||◌, Option, none, some, List, [], ◌∷◌, ◌++◌,
  reverse, ◌≡◌, ◌≢◌, refl, sym, ◌∙◌, inl, inr, min, u64_max, arith, Option-cases,
}
use mathlib.Core.List.{reverse-cons}
use crab_efi.Allocator.Types.{Descriptor, MemoryAllocator, page_size, max_identity_mapped_address}
use crab_efi.Allocator.Entries.{any}
use crab_efi.Allocator.Carve.{covers_free}
use crab_efi.Allocator.Search.{fit_entry, find_first, or_else, find_free_pages, is_region_free}
use crab_efi.Allocator.Chain.{IsWell, stop, end-stop, Chain}

-- Of an entry of at most 2^63 bytes below a limit in the mapped range.
fit_entry_sound :
    (num_pages limit : ℕ) (d : Descriptor) {a : ℕ}
    → IsWell d
    → num_pages * page_size ≤ 2 ^ 63
    → limit ≤ max_identity_mapped_address
    → fit_entry num_pages (num_pages * page_size) limit d ≡ some a
    → (covers_free a (a + num_pages * page_size) d ≡ true)
      × (a % page_size ≡ 0)
      × (a + num_pages * page_size ≤ limit)
unfolding fit_entry
fit_entry_sound num_pages limit d {a} w small low e =
    ground (arith, end-stop d w, w.aligned, w.fits)

fit_entry_complete :
    (num_pages limit a : ℕ) (d : Descriptor)
    → IsWell d
    → 0 < num_pages
    → covers_free a (a + num_pages * page_size) d ≡ true
    → a + num_pages * page_size ≤ limit
    → fit_entry num_pages (num_pages * page_size) limit d ≢ none
unfolding fit_entry
fit_entry_complete num_pages limit a d w pos c h = ground (arith, end-stop d w, w.aligned, w.fits)

abbrev pub AllWell : List Descriptor → Type 0
AllWell [] = Unit {0}
AllWell (d ∷ ds) = IsWell d × AllWell ds

pub AllWell-Chain : (lo hi : ℕ) (ds : List Descriptor) → Chain lo hi ds → AllWell ds
AllWell-Chain lo hi [] c = tt
AllWell-Chain lo hi (d ∷ ds) c = (c.1, AllWell-Chain (stop d) hi ds c.2)

AllWell-append : (xs ys : List Descriptor) → AllWell xs → AllWell ys → AllWell (xs ++ ys)
AllWell-append [] ys p q = q
AllWell-append (x ∷ xs) ys p q = (p.0, AllWell-append xs ys p.1 q)

AllWell-reverse : (ds : List Descriptor) → AllWell ds → AllWell (reverse ds)
AllWell-reverse [] w = tt
AllWell-reverse (d ∷ ds) w =
    rw (reverse-cons d ds) (AllWell-append (reverse ds) (d ∷ []) (AllWell-reverse ds w.1) (w.0, tt))

any-append :
    (p : Descriptor → Bool) (xs ys : List Descriptor) → any p (xs ++ ys) ≡ (any p xs || any p ys)
unfolding any
any-append p [] ys = refl
any-append p (x ∷ xs) ys = ground (arith, any-append p xs ys)

any-reverse : (p : Descriptor → Bool) (ds : List Descriptor) → any p (reverse ds) ≡ any p ds
unfolding any
any-reverse p [] = refl
any-reverse p (d ∷ ds) =
    rw (reverse-cons d ds) (ground (arith, any-append p (reverse ds) (d ∷ []), any-reverse p ds))

find_first-any :
    (f : Descriptor → Option ℕ) (p : Descriptor → Bool) (a : ℕ) (ds : List Descriptor)
    → ((d : Descriptor) → IsWell d → f d ≡ some a → p d ≡ true)
    → AllWell ds
    → find_first f ds ≡ some a
    → any p ds ≡ true
unfolding find_first any
find_first-any f p a [] h w e = cc
find_first-any f p a (d ∷ ds) h w e = ground (arith, h d w.0, find_first-any f p a ds h w.1)

-- What holds of each entry's answer holds of the first answer.
find_first_all {ℓ} :
    (f : Descriptor → Option ℕ) (P : ℕ → Type ℓ) (ds : List Descriptor) {a : ℕ}
    → ((d : Descriptor) → IsWell d → f d ≡ some a → P a)
    → AllWell ds
    → find_first f ds ≡ some a
    → P a
unfolding find_first
find_first_all f P [] h w e = cc
find_first_all f P (d ∷ ds) h w e = elim (Option-cases (f d)) [
  | inl miss ↦ find_first_all f P ds h w.1 (rw (miss, or_else) at e)
  | inr (b, hit) ↦ h d w.0 (hit ∙ rw (hit, or_else) at e)
]

find_first-none :
    (f : Descriptor → Option ℕ) (p : Descriptor → Bool) (ds : List Descriptor)
    → ((d : Descriptor) → IsWell d → p d ≡ true → f d ≢ none)
    → AllWell ds
    → find_first f ds ≡ none
    → any p ds ≡ false
unfolding find_first any
find_first-none f p [] h w e = refl
find_first-none f p (d ∷ ds) h w e = ground (arith, h d w.0, find_first-none f p ds h w.1)

find_free_pages-find_first :
    (m : MemoryAllocator) (num_pages limit : ℕ)
    → num_pages * page_size ≤ u64_max
    → find_free_pages m num_pages limit
      ≡ find_first
          (fit_entry num_pages (num_pages * page_size) (min limit max_identity_mapped_address))
          (reverse m.entries)
unfolding find_free_pages
find_free_pages-find_first m num_pages limit h = ground arith

pub is_region_free-any :
    (m : MemoryAllocator) (a size : ℕ)
    → a + size ≤ u64_max
    → is_region_free m a size ≡ any (covers_free a (a + size)) m.entries
unfolding is_region_free
is_region_free-any m a size h = ground arith

-- An address that the search returns starts a free range of the wanted size, is page-aligned, and
-- the range ends at or below the limit and inside the identity-mapped memory.
pub find_free_pages_sound :
    (m : MemoryAllocator) (num_pages limit a : ℕ)
    → AllWell m.entries
    → num_pages * page_size ≤ 2 ^ 63
    → find_free_pages m num_pages limit ≡ some a
    → (is_region_free m a (num_pages * page_size) ≡ true)
      × (a % page_size ≡ 0)
      × (a + num_pages * page_size ≤ min limit max_identity_mapped_address)
find_free_pages_sound m num_pages limit a w small e =
    let size = num_pages * page_size in
    let top = min limit max_identity_mapped_address in
    let low : top ≤ max_identity_mapped_address = omega arith in
    let search = fit_entry num_pages size top in
    let ws = AllWell-reverse m.entries w in
    let found = sym (find_free_pages-find_first m num_pages limit (omega arith)) ∙ e in
    let facts =
      find_first_all search (λ b. (b % page_size ≡ 0) × (b + size ≤ top)) (reverse m.entries)
        (λ d v h. let r = fit_entry_sound num_pages top d v small low h in (r.1, r.2)) ws found in
    (
      is_region_free-any m a size (omega arith)
          ∙ sym (any-reverse (covers_free a (a + size)) m.entries)
          ∙ find_first-any search (covers_free a (a + size)) a (reverse m.entries)
              (λ d v h. (fit_entry_sound num_pages top d v small low h).0) ws found,
      facts.0,
      facts.1,
    )

-- If the search returns nothing, no range of the wanted size that ends at or below the limit, and
-- inside the identity-mapped memory, is free in one entry.
pub find_free_pages_complete :
    (m : MemoryAllocator) (num_pages limit a : ℕ)
    → AllWell m.entries
    → 0 < num_pages
    → find_free_pages m num_pages limit ≡ none
    → a + num_pages * page_size ≤ min limit max_identity_mapped_address
    → is_region_free m a (num_pages * page_size) ≡ false
find_free_pages_complete m num_pages limit a w pos e h =
    let size = num_pages * page_size in
    let top = min limit max_identity_mapped_address in
    is_region_free-any m a size (omega arith)
    ∙ sym (any-reverse (covers_free a (a + size)) m.entries)
    ∙ find_first-none (fit_entry num_pages size top) (covers_free a (a + size)) (reverse m.entries)
        (λ d v c. fit_entry_complete num_pages top a d v pos c h) (AllWell-reverse m.entries w)
        (sym (find_free_pages-find_first m num_pages limit (omega arith)) ∙ e)
