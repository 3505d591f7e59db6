-- ===== src/Allocator/Sorting.antt =====
-- src/efi/allocator.rs: what `position`, `remove` and `sort_entries` do to a memory map.
use crab_efi.Prelude.{
  ℕ, suc, ◌≤◌, Bool, true, Option, none, some, List, [], ◌∷◌, ◌++◌, append_assoc, append-nil, ◌≡◌,
  refl, ap, ◌∙◌, inl, inr, length, arith, Bool-cases,
}
use crab_efi.Allocator.Types.{Descriptor}
use crab_efi.Allocator.Entries.{bump, position, remove, insert_by_start, sort_by_start}
use crab_efi.Allocator.Chain.{Chain, stop, Chain-le, Chain-lower, Chain-raise, Chain-append}

-- Where `position` finds an entry.
pub record Found (p : Descriptor → Bool) (ds : List Descriptor) (i : ℕ) (d : Descriptor)
    : Type 0 where
  pub pre : List Descriptor
  pub post : List Descriptor
  pub splits : ds ≡ pre ++ (d ∷ post)
  pub index : i ≡ length pre
  pub passes : p d ≡ true

Found-cons :
    {p : Descriptor → Bool} {ds : List Descriptor} {i : ℕ} {d : Descriptor} (x : Descriptor)
    → Found p ds i d
    → Found p (x ∷ ds) (suc i) d
Found-cons x f = record {
  pre = x ∷ f.pre;
  post = f.post;
  splits = ap (◌∷◌ x) f.splits;
  index = ap suc f.index;
  passes = f.passes;
}

bump-eq-some :
    (o : Option (ℕ × Descriptor)) {i : ℕ} {d : Descriptor}
    → bump o ≡ some (i, d)
    → (j : ℕ) × (i ≡ suc j) × (o ≡ some (j, d))
bump-eq-some none e = cc
bump-eq-some (some (j, x)) e = (j, ground arith, ground arith)

pub position-Found :
    (p : Descriptor → Bool) (ds : List Descriptor) {i : ℕ} {d : Descriptor}
    → position p ds ≡ some (i, d)
    → Found p ds i d
unfolding position
position-Found p [] e = cc
position-Found p (x ∷ ds) {i} {d} e = elim (Bool-cases (p x)) [
  | inl hit ↦ record {
    pre = [];
    post = ds;
    splits = ground arith;
    index = ground arith;
    passes = ground arith;
  }
  | inr miss ↦
      let (j, index, rest) = bump-eq-some (position p ds) {i = i} {d = d} (ground arith) in
      rw index (Found-cons x (position-Found p ds rest))
]

pub remove-append :
    (pre post : List Descriptor) (d : Descriptor)
    → remove (length pre) (pre ++ (d ∷ post)) ≡ pre ++ post
unfolding remove
remove-append [] post d = refl
remove-append (x ∷ pre) post d = ap (◌∷◌ x) (remove-append pre post d)

-- An entry before all of a map is inserted in front.
insert_front :
    (d : Descriptor) (lo hi : ℕ) (ds : List Descriptor)
    → d.physical_start ≤ lo
    → Chain lo hi ds
    → insert_by_start d ds ≡ d ∷ ds
unfolding insert_by_start
insert_front d lo hi [] h c = refl
insert_front d lo hi (e ∷ es) h c = ground arith

-- An entry behind all of a map is inserted behind it.
insert_behind :
    (d : Descriptor) (lo : ℕ) (xs ys : List Descriptor)
    → Chain lo d.physical_start xs
    → insert_by_start d (xs ++ ys) ≡ xs ++ insert_by_start d ys
unfolding insert_by_start
insert_behind d lo [] ys c = refl
insert_behind d lo (x ∷ xs) ys c =
    ground (arith, insert_behind d (stop x) xs ys c.2, Chain-le (stop x) d.physical_start xs c.2)

pub sort-Chain : (lo hi : ℕ) (ds : List Descriptor) → Chain lo hi ds → sort_by_start ds ≡ ds
unfolding sort_by_start
sort-Chain lo hi [] c = refl
sort-Chain lo hi (d ∷ ds) c =
    rw (sort-Chain (stop d) hi ds c.2) (insert_front d (stop d) hi ds (omega arith) c.2)

-- Entries pushed behind a map that belong before it are sorted to its front.
sort_rotated :
    (lo mid hi : ℕ) (xs ys : List Descriptor)
    → Chain lo mid ys
    → Chain mid hi xs
    → sort_by_start (xs ++ ys) ≡ ys ++ xs
unfolding sort_by_start
sort_rotated lo mid hi [] ys c k = rw append-nil (sort-Chain lo mid ys c)
sort_rotated lo mid hi (x ∷ xs) ys c k =
    ap (insert_by_start x)
      (sort_rotated lo mid hi xs ys c (Chain-lower (stop x) mid hi xs (omega arith) k.2))
    ∙ insert_behind x lo ys xs (Chain-raise lo mid x.physical_start ys k.0 c)
    ∙ ap (◌++◌ ys) (insert_front x (stop x) hi xs (omega arith) k.2)

sort_prefix :
    (lo mid hi : ℕ) (xs ys zs : List Descriptor)
    → Chain lo mid xs
    → Chain mid hi zs
    → sort_by_start ys ≡ zs
    → sort_by_start (xs ++ ys) ≡ xs ++ zs
unfolding sort_by_start
sort_prefix lo mid hi [] ys zs c k e = e
sort_prefix lo mid hi (x ∷ xs) ys zs c k e =
    ap (insert_by_start x) (sort_prefix (stop x) mid hi xs ys zs c.2 k e)
    ∙ insert_front x (stop x) hi (xs ++ zs) (omega arith) (Chain-append (stop x) mid hi xs zs c.2 k)

-- An entry taken out of a map, and new ones for its place pushed at the end: sorting puts them
-- where the entry stood.
pub sort_replaced :
    (lo s e hi : ℕ) (pre post new : List Descriptor)
    → Chain lo s pre
    → Chain s e new
    → Chain e hi post
    → sort_by_start ((pre ++ post) ++ new) ≡ pre ++ (new ++ post)
sort_replaced lo s e hi pre post new p n q = rw append_assoc (
    sort_prefix lo s hi pre (post ++ new) (new ++ post) p (Chain-append s e hi new post n q)
      (sort_rotated s e hi post new n q))
