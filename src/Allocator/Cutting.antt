-- ===== src/Allocator/Cutting.antt =====
-- src/efi/allocator.rs: replacing an entry by the pieces of it, as `carve_out` and
-- `try_reallocate_loader_region` do.
use crab_efi.Prelude.{
  ℕ, ◌+◌, ◌/◌, ◌≤◌, ◌<◌, ◌&&◌, none, some, List, [], ◌∷◌, ◌++◌, append_assoc, ◌≡◌, inl, inr, ltb,
  leb, if◌then◌else◌, length, length-append, ltb→lt, le_refl, le_of_eq, sub64, arith, Bool-cases,
}
use crab_efi.Allocator.Types.{
  Descriptor, MemoryType, to_u32, end, page_size, new_descriptor, max_memory_entries,
}
use crab_efi.Allocator.Entries.{push_unchecked, remove, sort_by_start}
use crab_efi.Allocator.Carve.{entries_needed, split_entry}
use crab_efi.Allocator.Chain.{
  Chain, IsWell, stop, end-stop, region_at, region_at_middle, region_at-append, Chain-append,
  Chain-unappend, Chain-raise,
}
use crab_efi.Allocator.Sorting.{sort_replaced}

module _ (entry carved : Descriptor) (kept : MemoryType) where
  abbrev pub before : Descriptor
  before =
      new_descriptor kept entry.physical_start
        (sub64 carved.physical_start entry.physical_start / page_size) entry.attribute

  abbrev pub after : Descriptor
  after =
      new_descriptor kept (stop carved) (sub64 (end entry) (stop carved) / page_size)
        entry.attribute

  abbrev pub front : List Descriptor
  front = if ltb entry.physical_start carved.physical_start then before ∷ [] else []

  abbrev pub back : List Descriptor
  back = if ltb (stop carved) (end entry) then after ∷ [] else []

  pub pieces : List Descriptor
  pieces = front ++ (carved ∷ back)

-- What the code has checked when it splits `entry`.
pub record Fits (entry carved : Descriptor) (kept : MemoryType) : Type 0 where
  pub entry_well : IsWell entry
  pub carved_well : IsWell carved
  pub starts : entry.physical_start ≤ carved.physical_start
  pub ends : stop carved ≤ end entry
  pub keeps : to_u32 kept ≡ entry.memory_type

module _ (entry carved : Descriptor) (kept : MemoryType) (f : Fits entry carved kept) where
  -- The part in front ends where the new range starts, the part behind ends with the entry.
  before_lem :
      entry.physical_start < carved.physical_start
      → IsWell (before entry carved kept)
        × (stop (before entry carved kept) ≡ carved.physical_start)
  before_lem h = omega (
    arith, f.entry_well.aligned, f.entry_well.known, f.carved_well.aligned, f.carved_well.fits,
    f.keeps,
  )

  after_lem :
      stop carved < end entry
      → IsWell (after entry carved kept) × (stop (after entry carved kept) ≡ stop entry)
  after_lem h = omega (
    arith,
    end-stop entry f.entry_well,
    f.entry_well.aligned,
    f.entry_well.fits,
    f.entry_well.known,
    f.carved_well.aligned,
    f.carved_well.fits,
    f.keeps,
  )

  front-Chain : Chain entry.physical_start carved.physical_start (front entry carved kept)
  front-Chain = elim (Bool-cases (ltb entry.physical_start carved.physical_start)) [
    | inl h ↦ let (w, e) = before_lem (ltb→lt _ _ h) in rw h (le_refl _, w, le_of_eq e)
    | inr h ↦ rw h f.starts
  ]

  back-Chain : Chain (stop carved) (stop entry) (back entry carved kept)
  back-Chain = elim (Bool-cases (ltb (stop carved) (end entry))) [
    | inl h ↦ let (w, e) = after_lem (ltb→lt _ _ h) in rw h (le_refl _, w, le_of_eq e)
    | inr h ↦ rw h (omega (arith, end-stop entry f.entry_well, f.ends))
  ]

  pieces-Chain : Chain entry.physical_start (stop entry) (pieces entry carved kept)
  unfolding pieces
  pieces-Chain =
      Chain-append _ _ _ (front entry carved kept) (carved ∷ back entry carved kept) front-Chain
        (le_refl _, f.carved_well, back-Chain)

  region_at-front :
      (a : ℕ)
      → region_at (front entry carved kept) a ≡ (
          if leb entry.physical_start a && ltb a carved.physical_start
          then some (entry.memory_type, entry.attribute)
          else none)
  unfolding region_at
  region_at-front a = elim (Bool-cases (ltb entry.physical_start carved.physical_start)) [
    | inl h ↦ rw h (ground (arith, f.keeps, before_lem (ltb→lt _ _ h)))
    | inr h ↦ rw h (ground (arith, f.starts))
  ]

  region_at-back :
      (a : ℕ)
      → region_at (back entry carved kept) a ≡ (
          if leb (stop carved) a && ltb a (stop entry)
          then some (entry.memory_type, entry.attribute)
          else none)
  unfolding region_at
  region_at-back a = elim (Bool-cases (ltb (stop carved) (end entry))) [
    | inl h ↦ rw h (ground (arith, f.keeps, after_lem (ltb→lt _ _ h)))
    | inr h ↦ rw h (ground (arith, end-stop entry f.entry_well, f.ends))
  ]

  -- The pieces say of the entry's span what the entry said, but for the new range.
  region_at-pieces :
      (a : ℕ)
      → region_at (pieces entry carved kept) a ≡ (
          if leb carved.physical_start a && ltb a (stop carved)
          then some (carved.memory_type, carved.attribute)
          else region_at (entry ∷ []) a)
  unfolding pieces region_at
  region_at-pieces a = ground (
    arith,
    region_at-append (front entry carved kept) (carved ∷ back entry carved kept) a,
    region_at-front a,
    region_at-back a,
    end-stop entry f.entry_well,
    f.starts,
    f.ends,
  )

pub length-pieces :
    (entry carved : Descriptor) (kept : MemoryType)
    → length (pieces entry carved kept) ≡ entries_needed entry carved.physical_start (stop carved)
unfolding pieces
length-pieces entry carved kept = ground arith

push_unchecked_lem :
    (ds : List Descriptor) (d : Descriptor)
    → length ds < max_memory_entries
    → push_unchecked ds d ≡ ds ++ (d ∷ [])
unfolding push_unchecked
push_unchecked_lem ds d h = ground arith

-- With room for the pieces no push is dropped.
pub split_entry-pieces :
    (ds : List Descriptor) (idx : ℕ) (entry carved : Descriptor) (kept : MemoryType)
    → length (remove idx ds) + entries_needed entry carved.physical_start (stop carved)
      ≤ max_memory_entries
    → split_entry ds idx entry carved kept (stop carved) ≡ remove idx ds ++ pieces entry carved kept
unfolding split_entry pieces
split_entry-pieces ds idx entry carved kept h =
    let removed = remove idx ds in
    let b = before entry carved kept in
    let a = after entry carved kept in
    ground (
      arith,
      push_unchecked_lem removed b,
      push_unchecked_lem removed carved,
      push_unchecked_lem (removed ++ (b ∷ [])) carved,
      push_unchecked_lem (removed ++ (carved ∷ [])) a,
      push_unchecked_lem ((removed ++ (b ∷ [])) ++ (carved ∷ [])) a,
      length-append removed (b ∷ []),
      length-append removed (carved ∷ []),
      length-append (removed ++ (b ∷ [])) (carved ∷ []),
      append_assoc removed (b ∷ []) (carved ∷ []),
      append_assoc removed (carved ∷ []) (a ∷ []),
      append_assoc removed (b ∷ []) (carved ∷ a ∷ []),
      append_assoc (removed ++ (b ∷ [])) (carved ∷ []) (a ∷ []),
    )

-- The list of a map with `entry` replaced by its pieces.
module _ (lo hi : ℕ) (pre post : List Descriptor) (entry carved : Descriptor) (kept : MemoryType)
    (c : Chain lo hi (pre ++ (entry ∷ post))) where
  pub entry-IsWell : IsWell entry
  entry-IsWell = let (mid, l, r) = Chain-unappend lo hi pre (entry ∷ post) c in r.1

  pre-Chain : Chain lo entry.physical_start pre
  pre-Chain =
      let (mid, l, r) = Chain-unappend lo hi pre (entry ∷ post) c in
      Chain-raise lo mid entry.physical_start pre r.0 l

  post-Chain : Chain (stop entry) hi post
  post-Chain = let (mid, l, r) = Chain-unappend lo hi pre (entry ∷ post) c in r.2

  module _ (f : Fits entry carved kept) where
    pub replaced-Chain : Chain lo hi (pre ++ (pieces entry carved kept ++ post))
    replaced-Chain = Chain-append lo _ hi pre (pieces entry carved kept ++ post) pre-Chain (
        Chain-append _ _ hi (pieces entry carved kept) post (pieces-Chain entry carved kept f)
          post-Chain)

    pub region_at-replaced :
        (a : ℕ)
        → region_at (pre ++ (pieces entry carved kept ++ post)) a ≡ (
            if leb carved.physical_start a && ltb a (stop carved)
            then some (carved.memory_type, carved.attribute)
            else region_at (pre ++ (entry ∷ post)) a)
    region_at-replaced a = ground (
      arith,
      region_at_middle lo entry.physical_start (stop entry) hi a pre (pieces entry carved kept) post
          pre-Chain (pieces-Chain entry carved kept f) post-Chain,
      region_at_middle lo entry.physical_start (stop entry) hi a pre (entry ∷ []) post pre-Chain
          (le_refl _, entry-IsWell, le_refl _) post-Chain,
      region_at-pieces entry carved kept f a,
      f.starts,
      f.ends,
      end-stop entry entry-IsWell,
    )

    pub sort_pieces :
        sort_by_start ((pre ++ post) ++ pieces entry carved kept)
        ≡ pre ++ (pieces entry carved kept ++ post)
    sort_pieces =
        sort_replaced lo entry.physical_start (stop entry) hi pre post (pieces entry carved kept)
          pre-Chain (pieces-Chain entry carved kept f) post-Chain
