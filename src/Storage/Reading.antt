-- ===== src/Storage/Reading.antt =====
-- src/efi/protocols/block_io.rs: which sectors a read is of.
use crab_efi.Prelude.{
  ℕ, zero, suc, ◌+◌, ◌-◌, ◌*◌, ◌/◌, ◌^◌, ◌<◌, ◌≤◌, Bool, true, false, ◌||◌, none, some, [], ◌==◌,
  ◌≡◌, refl, ap, ◌≢◌, ltb, if◌then◌else◌, add64, Bool-cases, arith, le_refl, inl, inr,
}
use native.Mathlib.Nat.{mul-mod_left, mul-div_cancel}
use crab_efi.Status.{invalid_parameter, bad_buffer_size, media_changed}
use crab_efi.Storage.{StorageRegistry, Drivers, ReadResult, read_sectors}
use crab_efi.Storage.BlockIo.{
  BlockIoContext, BlockIo, is_multiple_of, read_each, read_counted, read_context,
  block_io_read_blocks, and_rest,
}
use crab_efi.Storage.Partition.{context_of}

read_each-agree :
    (read read' : ℕ → ReadResult) (base i n : ℕ)
    → ((j : ℕ) → i ≤ j → j < i + n → read (add64 base j) ≡ read' (add64 base j))
    → read_each read base i n ≡ read_each read' base i n
read_each-agree read read' base i zero same = refl
read_each-agree read read' base i (suc n) same =
    let rest =
      read_each-agree read read' base (i + 1) n (λ j lo hi. same j (omega arith) (omega arith)) in
    rw (rest)
      (ap (λ x. and_rest x (read_each read' base (i + 1) n)) (same i (le_refl i) (omega arith)))

-- The sectors of the loop, where no sum wraps.
in_partition :
    (start num lba n j : ℕ)
    → start + num ≤ 2 ^ 64
    → lba + n < 2 ^ 64
    → ltb num (add64 lba n) ≡ false
    → j < n
    → (start ≤ add64 (add64 start lba) j) × (add64 (add64 start lba) j < start + num)
in_partition start num lba n j fits plain inside below = ground arith

read_counted-agree :
    (r : StorageRegistry) (d d' : Drivers) (ctx : BlockIoContext) (lba n : ℕ)
    → ctx.start_lba + ctx.num_blocks ≤ 2 ^ 64
    → lba + n < 2 ^ 64
    → ((block : ℕ)
        → ctx.start_lba ≤ block
        → block < ctx.start_lba + ctx.num_blocks
        → read_sectors r d ctx.storage_device_id block ctx.block_size
          ≡ read_sectors r d' ctx.storage_device_id block ctx.block_size)
    → read_counted r d ctx lba n ≡ read_counted r d' ctx lba n
read_counted-agree r d d' ctx lba n fits plain same =
    elim (Bool-cases (ltb ctx.num_blocks (add64 lba n))) [
      | inl out ↦ rw out refl
      | inr inside ↦
          let agree =
            read_each-agree (λ block. read_sectors r d ctx.storage_device_id block ctx.block_size)
              (λ block. read_sectors r d' ctx.storage_device_id block ctx.block_size)
              (add64 ctx.start_lba lba) 0 n
              (λ j lo hi.
                let at =
                  in_partition ctx.start_lba ctx.num_blocks lba n j fits plain inside
                    (omega (arith, hi)) in
                same (add64 (add64 ctx.start_lba lba) j) at.0 at.1) in
          rw inside agree
    ]

read_context-agree :
    (r : StorageRegistry) (d d' : Drivers) (ctx : BlockIoContext) (media_id lba size : ℕ)
    → read_counted r d ctx lba (size / ctx.block_size)
      ≡ read_counted r d' ctx lba (size / ctx.block_size)
    → read_context r d ctx media_id lba size ≡ read_context r d' ctx media_id lba size
read_context-agree r d d' ctx media_id lba size same =
    ap
      (λ reply.
        if media_id == ctx.media_id
        then if is_multiple_of size ctx.block_size
          then if ctx.block_size == 0 then none else some reply
          else some (bad_buffer_size, [])
        else some (media_changed, []))
      same

-- A read through a protocol depends on no sector outside of its partition, where the partition ends
-- below 2 ^ 64 and the sum of the block's number and the count does not wrap: two sets of drivers that
-- agree on the sectors of the partition give the same status and the same bytes.
pub read_blocks-isolated :
    (r : StorageRegistry) (d d' : Drivers) (io : BlockIo) (ctx : BlockIoContext)
    (this media_id lba size : ℕ) (buffer_is_null : Bool)
    → context_of io this ≡ some ctx
    → ctx.start_lba + ctx.num_blocks ≤ 2 ^ 64
    → lba + size / ctx.block_size < 2 ^ 64
    → ((block : ℕ)
        → ctx.start_lba ≤ block
        → block < ctx.start_lba + ctx.num_blocks
        → read_sectors r d ctx.storage_device_id block ctx.block_size
          ≡ read_sectors r d' ctx.storage_device_id block ctx.block_size)
    → block_io_read_blocks r d io this media_id lba size buffer_is_null
      ≡ block_io_read_blocks r d' io this media_id lba size buffer_is_null
unfolding block_io_read_blocks
read_blocks-isolated r d d' io ctx this media_id lba size buffer_is_null owner fits plain same =
    let counted = read_counted-agree r d d' ctx lba (size / ctx.block_size) fits plain same in
    rw owner (
      ap (λ reply. if this == 0 || buffer_is_null then some (invalid_parameter, []) else reply)
        (read_context-agree r d d' ctx media_id lba size counted))

wrapped_start :
    (start k : ℕ) → k ≤ start → start < 2 ^ 64 → 0 < k → add64 start (2 ^ 64 - k) ≡ start - k
wrapped_start start k before small some_k = omega arith

wrapped_bound :
    (num n k : ℕ)
    → 0 < k
    → k ≤ n
    → n ≤ num + k
    → num + k < 2 ^ 64
    → ltb num (add64 (2 ^ 64 - k) n) ≡ false
wrapped_bound num n k some_k over short small = ground arith

whole_blocks :
    (n size : ℕ)
    → 0 < size
    → (is_multiple_of (n * size) size ≡ true) × ((size == 0) ≡ false) × (n * size / size ≡ n)
whole_blocks n zero h = absurd (omega (arith, h))
whole_blocks n (suc size) h =
    let rest = mul-mod_left n (suc size) in
    let count = mul-div_cancel n h in (ground arith, ground arith, count)

-- The check of the bounds wraps: through a protocol that has a context, with its media number and
-- blocks of at least one byte, a read of n blocks from k blocks before 2 ^ 64 on, where k is at
-- most n and at most the start of the partition and n - k blocks are in it, reads n blocks from k
-- sectors before the partition on.
pub read_blocks-wrapped :
    (r : StorageRegistry) (d : Drivers) (io : BlockIo) (ctx : BlockIoContext) (this k n : ℕ)
    → context_of io this ≡ some ctx
    → this ≢ 0
    → 0 < ctx.block_size
    → 0 < k
    → k ≤ n
    → k ≤ ctx.start_lba
    → n ≤ ctx.num_blocks + k
    → ctx.start_lba < 2 ^ 64
    → ctx.num_blocks + k < 2 ^ 64
    → block_io_read_blocks r d io this ctx.media_id (2 ^ 64 - k) (n * ctx.block_size) false
      ≡ some (
          read_each
            (λ block. read_sectors r d ctx.storage_device_id block ctx.block_size)
            (ctx.start_lba - k)
            0
            n)
unfolding block_io_read_blocks
read_blocks-wrapped r d io ctx this k n owner real sized some_k over before short small fits =
    let (whole, not_zero, count) = whole_blocks n ctx.block_size sized in
    let start = wrapped_start ctx.start_lba k before small some_k in
    let bound = wrapped_bound ctx.num_blocks n k some_k over short fits in
    let known : (this == 0) ≡ false = ground arith in
    let media : (ctx.media_id == ctx.media_id) ≡ true = ground arith in
    rw (known, owner, media, whole, not_zero, count, bound, start) refl
