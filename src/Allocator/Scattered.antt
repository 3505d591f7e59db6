-- ===== src/Allocator/Scattered.antt =====
-- src/efi/allocator.rs: `sort_entries` on entries in any order that share no address.
use crab_efi.Prelude.{
  ℕ, suc, ◌≤◌, List, [], ◌∷◌, ◌≡◌, refl, ap, ◌∙◌, ◌⊎◌, inl, inr, leb, length, u64_max, arith,
  Bool-cases,
}
use crab_efi.Allocator.Types.{Descriptor}
use crab_efi.Allocator.Entries.{insert_by_start, sort_by_start}
use crab_efi.Allocator.Chain.{Chain, IsWell, stop, region_at}

-- Entries that share no address.
abbrev pub Apart : Descriptor → Descriptor → Type 0
Apart d e = (stop d ≤ e.physical_start) ⊎ (stop e ≤ d.physical_start)

abbrev pub AllApart : Descriptor → List Descriptor → Type 0
AllApart d [] = Unit {0}
AllApart d (e ∷ es) = Apart d e × AllApart d es

abbrev pub Scattered : List Descriptor → Type 0
Scattered [] = Unit {0}
Scattered (d ∷ ds) = IsWell d × AllApart d ds × Scattered ds

insert-AllApart :
    (x d : Descriptor) (es : List Descriptor)
    → Apart x d
    → AllApart x es
    → AllApart x (insert_by_start d es)
unfolding insert_by_start
insert-AllApart x d [] h k = (h, tt)
insert-AllApart x d (e ∷ es) h k = elim (Bool-cases (leb d.physical_start e.physical_start)) [
  | inl before ↦ rw before (h, (k.0, k.1))
  | inr behind ↦ rw behind (k.0, insert-AllApart x d es h k.1)
]

sort-AllApart :
    (x : Descriptor) (ds : List Descriptor) → AllApart x ds → AllApart x (sort_by_start ds)
unfolding sort_by_start
sort-AllApart x [] k = tt
sort-AllApart x (d ∷ ds) k = insert-AllApart x d (sort_by_start ds) k.0 (sort-AllApart x ds k.1)

insert-Chain :
    (d : Descriptor) (lo hi : ℕ) (es : List Descriptor)
    → IsWell d
    → lo ≤ d.physical_start
    → stop d ≤ hi
    → AllApart d es
    → Chain lo hi es
    → Chain lo hi (insert_by_start d es)
unfolding insert_by_start
insert-Chain d lo hi [] w low high k c = (low, w, high)
insert-Chain d lo hi (e ∷ es) w low high k c =
    let start : stop d ≤ e.physical_start ⊎ stop e ≤ d.physical_start = k.0 in
    elim (Bool-cases (leb d.physical_start e.physical_start)) [
      | inl before ↦
          rw before (low, w, (ground (arith, before, start, w.nonempty, c.1.nonempty), c.1, c.2))
      | inr behind ↦ rw behind (
        c.0,
        c.1,
        insert-Chain d (stop e) hi es w (ground (arith, behind, start, w.nonempty)) high k.1 c.2,
      )
    ]

region_at-insert :
    (d : Descriptor) (es : List Descriptor) (a : ℕ)
    → AllApart d es
    → region_at (insert_by_start d es) a ≡ region_at (d ∷ es) a
unfolding insert_by_start region_at
region_at-insert d [] a k = refl
region_at-insert d (e ∷ es) a k =
    let start : stop d ≤ e.physical_start ⊎ stop e ≤ d.physical_start = k.0 in
    ground (arith, start, region_at-insert d es a k.1)

pub sort-Scattered : (ds : List Descriptor) → Scattered ds → Chain 0 u64_max (sort_by_start ds)
unfolding sort_by_start
sort-Scattered [] s = omega arith
sort-Scattered (d ∷ ds) s =
    insert-Chain d 0 u64_max (sort_by_start ds) s.0 (omega arith) s.0.fits (sort-AllApart d ds s.1)
      (sort-Scattered ds s.2)

pub region_at-sort :
    (ds : List Descriptor) (a : ℕ) → Scattered ds → region_at (sort_by_start ds) a ≡ region_at ds a
unfolding sort_by_start region_at
region_at-sort [] a s = refl
region_at-sort (d ∷ ds) a s =
    region_at-insert d (sort_by_start ds) a (sort-AllApart d ds s.1)
    ∙ ground (arith, region_at-sort ds a s.2)

length-insert :
    (d : Descriptor) (es : List Descriptor) → length (insert_by_start d es) ≡ suc (length es)
unfolding insert_by_start
length-insert d [] = refl
length-insert d (e ∷ es) = ground (arith, length-insert d es)

pub length-sort : (ds : List Descriptor) → length (sort_by_start ds) ≡ length ds
unfolding sort_by_start
length-sort [] = refl
length-sort (d ∷ ds) = length-insert d (sort_by_start ds) ∙ ap suc (length-sort ds)
