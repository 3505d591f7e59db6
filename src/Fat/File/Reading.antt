-- ===== src/Fat/File/Reading.antt =====
-- src/fs/fat.rs: `read_file` reads from the bytes of the file's chain of clusters.
use crab_efi.Prelude.{
  ℕ, zero, suc, ◌+◌, ◌-◌, ◌*◌, ◌/◌, ◌%◌, ◌≤◌, ◌<◌, ◌≡◌, refl, arith, ap, sym, ◌∙◌, none, some, true,
  false, ◌||◌, Bool-cases, inl, inr, ltb, leb, u32_mod, List, [], ◌++◌, min, length, take, drop,
  take-append, drop-append, take_all, drop_all, append-nil, append_assoc, length-append,
  length-take, length-drop, ◌⊎◌, take-prefix, take-min, drop_nil, take_nil, drop-drop,
}
use native.Mathlib.Nat.{
  lt-div-mul-add, zero-mul, suc-mul, div-mul-le_self, div-eq-sub-div, mod-lt, div-add-mod',
}
use crab_efi.Bytes.Agree.{bytes_at-slice}
use crab_efi.Disk.{Fallible, ok}
use crab_efi.Fat.{FatFilesystem, cluster_bytes}
use crab_efi.Fat.Chain.{next_cluster}
use crab_efi.Fat.Cluster.{read_cluster, Fault}
use crab_efi.Fat.Directory.{DirectoryEntry, is_directory, first_cluster}
use crab_efi.Fat.File.{
  read_file, read_first, read_full, read_last, skip, read_buffered, full_clusters,
}

-- The bytes of the clusters from one on, to the end of its chain; each is read, and has its link.
pub data Chained (fs : FatFilesystem) : ℕ → List ℕ → Type 0 where
  last :
      (c : ℕ) (xs : List ℕ)
      → read_cluster fs (cluster_bytes fs) c ≡ ok xs
      → length xs ≡ cluster_bytes fs
      → next_cluster fs c ≡ ok none
      → Chained fs c xs
  link :
      (c d : ℕ) (xs ys : List ℕ)
      → read_cluster fs (cluster_bytes fs) c ≡ ok xs
      → length xs ≡ cluster_bytes fs
      → next_cluster fs c ≡ ok (some d)
      → Chained fs d ys
      → Chained fs c (xs ++ ys)

-- A quotient that is zero, and one that is not.
none_more : (rem s : ℕ) → 0 < s → 0 ≡ rem / s → rem < s
none_more rem s pos e = omega (arith, lt-div-mul-add {a = rem} pos, ap (λ x. x * s) e)

one_more : (n rem s : ℕ) → 0 < s → suc n ≡ rem / s → (s ≤ rem) × (n ≡ (rem - s) / s)
one_more n rem s pos e =
    let more : s ≤ rem = omega (arith, ap (λ x. x * s) e, suc-mul n s, div-mul-le_self rem s) in
    (more, omega (arith, e, div-eq-sub-div {n = rem} pos more))

module _ (fs : FatFilesystem) (positive : 0 < cluster_bytes fs)
    (small : cluster_bytes fs ≤ 65536) where
  abbrev size : ℕ
  size = cluster_bytes fs

  read_buffered-read : (c : ℕ) → read_buffered fs c ≡ read_cluster fs size c
  read_buffered-read c = let fits : leb size 65536 ≡ true = ground (arith, small) in rw fits refl

  -- The first cluster, and the chain behind it, if there is one.
  abbrev Behind : ℕ → List ℕ → Type 0
  Behind c ys =
      ((next_cluster fs c ≡ ok none) × (ys ≡ []))
      ⊎ ((d : ℕ) × (next_cluster fs c ≡ ok (some d)) × Chained fs d ys)

  abbrev Split : ℕ → List ℕ → Type 0
  Split c bytes =
      (xs : List ℕ) × (ys : List ℕ) × (read_cluster fs size c ≡ ok xs)
      × (length xs ≡ size)
      × (bytes ≡ xs ++ ys)
      × Behind c ys

  Chained-cases : (c : ℕ) (bytes : List ℕ) → Chained fs c bytes → Split c bytes
  Chained-cases c bytes (last _ xs reads len no_more) =
      (xs, [], reads, len, sym (append-nil xs), inl (no_more, refl))
  Chained-cases c bytes (link _ d xs ys reads len next rest) =
      (xs, ys, reads, len, refl, inr (d, next, rest))

  -- The last cluster, of which less than all of it is wanted.
  read_last-take :
      (want : ℕ) (read : List ℕ) (c : ℕ) (bytes : List ℕ)
      → length read ≤ want
      → want - length read < size
      → Split c bytes
      → read_last fs want read c ≡ ok (read ++ take (want - length read) bytes)
  unfolding read_last
  read_last-take want read c bytes le lt (xs, ys, reads, len, e, behind) =
      elim (Bool-cases (ltb (length read) want)) [
        | inl more ↦
            let short : want - length read ≤ length xs = omega (arith, len, lt) in
            rw (more, read_buffered-read c, reads, e, take-prefix (want - length read) xs ys short)
              (ap (λ zs. ok (read ++ zs))
                (bytes_at-slice 0 (want - length read) xs (omega (arith, len, lt))))
        | inr done ↦
            let none_left : want - length read ≡ 0 = ground (arith, done) in
            rw (done, none_left) (ap ok (sym (append-nil read)))
      ]

  read_full-take :
      (n want : ℕ) (read : List ℕ) (c : ℕ) (bytes : List ℕ)
      → length read ≤ want
      → n ≡ (want - length read) / size
      → Chained fs c bytes
      → read_full fs n want read c ≡ ok (read ++ take (want - length read) bytes)
  unfolding read_full
  read_full-take zero want read c bytes le e chain =
      read_last-take want read c bytes le (none_more (want - length read) size positive e)
        (Chained-cases c bytes chain)
  read_full-take (suc n) want read c bytes le e chain =
      let rem = want - length read in
      let (more, count) = one_more n rem size positive e in
      let (xs, ys, reads, len, split, behind) = Chained-cases c bytes chain in
      elim behind [
        | inl (end, none_left) ↦
            let all : length (xs ++ ys) ≤ rem =
              rw (none_left, append-nil xs) (omega (arith, len, more)) in
            rw (reads, end, split, take_all rem (xs ++ ys) all, none_left, append-nil xs) refl
        | inr (d, next, rest) ↦
            let longer : length (read ++ xs) ≡ length read + size =
              omega (arith, length-append read xs, len) in
            let left : want - length (read ++ xs) ≡ rem - length xs = omega (arith, longer, len) in
            let tail =
              read_full-take n want (read ++ xs) d ys (omega (arith, longer, le, more))
                (count ∙ ap (λ x. x / size) (omega (arith, longer))) rest in
            let whole = take_all rem xs (omega (arith, len, more)) in
            rw (reads, next, split, tail, take-append rem xs ys, whole, left)
              (ap ok (append_assoc read xs (take (rem - length xs) ys)))
      ]

  take-across :
      (want offset : ℕ) (xs ys : List ℕ) (n : ℕ)
      → length xs ≡ size
      → offset < size
      → n ≡ min want (size - offset)
      → take want (drop offset (xs ++ ys))
        ≡ take n (drop offset xs) ++ take (want - length (take n (drop offset xs))) ys
  take-across want offset xs ys n len inside e =
      let behind : offset - length xs ≡ 0 = omega (arith, len, inside) in
      let end = length-drop offset xs in
      let left : want - length (drop offset xs) ≡ want - length (take n (drop offset xs)) =
        omega (arith, length-take n (drop offset xs), end, len, e) in
      let cut : take want (drop offset xs) ≡ take n (drop offset xs) =
        sym (take-min want (size - offset) (drop offset xs) (omega (arith, end, len)))
        ∙ ap (λ k. take k (drop offset xs)) (sym e) in
      rw (drop-append offset xs ys, behind, take-append want (drop offset xs) ys, cut)
        (ap (λ k. take n (drop offset xs) ++ take k ys) left)

  read_first-take :
      (offset want c : ℕ) (bytes : List ℕ)
      → offset < size
      → Chained fs c bytes
      → read_first fs offset want c ≡ ok (take want (drop offset bytes))
  unfolding read_first
  read_first-take offset want c bytes inside chain =
      elim (Bool-cases (ltb 0 offset || ltb want size)) [
        | inr whole ↦
            let at_start : offset ≡ 0 = ground (arith, whole) in
            let same : want - 0 ≡ want = omega arith in
            rw (whole, at_start)
              (read_full-take (full_clusters fs want []) want [] c bytes (omega arith) refl chain
                ∙ ap (λ n. ok (take n bytes)) same)
        | inl part ↦
            let (xs, ys, reads, len, split, behind) = Chained-cases c bytes chain in
            let n = min want (size - offset) in
            let slice = bytes_at-slice offset n xs (omega (arith, len, inside)) in
            let cut : take n (drop offset xs) ≡ take want (drop offset xs) =
              take-min want (size - offset) (drop offset xs)
                (omega (arith, length-drop offset xs, len)) in
            elim behind [
              | inl (end, none_left) ↦
                  rw (part, read_buffered-read c, reads, end, split, none_left, append-nil xs)
                    (ap ok (slice ∙ cut))
              | inr (d, next, rest) ↦
                  let first = take n (drop offset xs) in
                  let few : length first ≤ want = omega (arith, length-take n (drop offset xs)) in
                  rw (part, read_buffered-read c, reads, next, split, slice)
                    (read_full-take (full_clusters fs want first) want first d ys few refl rest
                      ∙ ap ok (sym (take-across want offset xs ys n len inside refl)))
            ]
      ]

  skip-drop :
      (n c : ℕ) (bytes : List ℕ) (next : ℕ → Fallible Fault (List ℕ)) (F : List ℕ → List ℕ)
      → ((d : ℕ) (ys : List ℕ) → Chained fs d ys → next d ≡ ok (F ys))
      → F [] ≡ []
      → Chained fs c bytes
      → skip fs n c next ≡ ok (F (drop (n * size) bytes))
  unfolding skip
  skip-drop zero c bytes next F goes nothing chain =
      goes c bytes chain ∙ ap (λ n. ok (F (drop n bytes))) (sym (zero-mul size))
  skip-drop (suc n) c bytes next F goes nothing chain =
      let (xs, ys, reads, len, split, behind) = Chained-cases c bytes chain in
      elim behind [
        | inl (end, none_left) ↦
            let all : length (xs ++ ys) ≤ suc n * size =
              rw (none_left, append-nil xs) (omega (arith, len, suc-mul n size)) in
            rw (end, split, drop_all (suc n * size) (xs ++ ys) all, nothing) refl
        | inr (d, onwards, rest) ↦
            let over : drop (suc n * size) xs ≡ [] =
              drop_all (suc n * size) xs (omega (arith, len, suc-mul n size)) in
            let left : suc n * size - length xs ≡ n * size = omega (arith, len, suc-mul n size) in
            rw (onwards, split, drop-append (suc n * size) xs ys, over, left)
              (skip-drop n d ys next F goes nothing rest)
      ]

-- Where each cluster of the file's chain is read and has its link, and a cluster has at most 65536
-- bytes: `read_file` gives the bytes of the chain from the offset on, as many as the buffer and the
-- size of the file allow.
pub read_file-Chained :
    (fs : FatFilesystem) (entry : DirectoryEntry) (offset len : ℕ) (bytes : List ℕ)
    → 0 < cluster_bytes fs
    → cluster_bytes fs ≤ 65536
    → is_directory entry ≡ false
    → Chained fs (first_cluster entry) bytes
    → read_file fs entry offset len
      ≡ ok (take (min (len % u32_mod) (entry.file_size - offset)) (drop offset bytes))
unfolding read_file
read_file-Chained fs entry offset len bytes positive small file chain =
    let size = cluster_bytes fs in
    let want = min (len % u32_mod) (entry.file_size - offset) in
    let r = offset % size in
    elim (Bool-cases (leb entry.file_size offset)) [
      | inl beyond ↦
          let nothing : want ≡ 0 = ground (arith, beyond) in rw (file, beyond, nothing) refl
      | inr inside ↦
          rw (file, inside)
            (skip-drop fs positive small (offset / size) (first_cluster entry) bytes
                (read_first fs r want) (λ xs. take want (drop r xs))
                (λ d ys rest.
                  read_first-take fs positive small r want d ys (mod-lt offset positive) rest)
                (rw (drop_nil r) (take_nil want)) chain
              ∙ ap (λ xs. ok (take want xs))
                  (drop-drop (offset / size * size) r bytes
                    ∙ ap (λ k. drop k bytes) (div-add-mod' offset size)))
    ]
