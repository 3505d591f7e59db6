-- ===== src/Gpt/Ending.antt =====
-- src/fs/gpt.rs: the scan of the partition table ends.
use crab_efi.Prelude.{
  ℕ, zero, suc, ◌+◌, ◌-◌, ◌*◌, ◌/◌, ◌%◌, ◌≤◌, ◌<◌, ◌&&◌, Option, some, List, ◌≡◌, refl, leb, ltb,
  length, arith, Bool-cases, inl, inr, add64, ◌⊎◌, length-append, ◌∷◌, max, u64_mod,
}
use native.Mathlib.Nat.{mod-lt}
use crab_efi.Disk.{BlockDevice, Fallible, ok, err, BlockError}
use crab_efi.Bytes.{byte}
use crab_efi.Gpt.{
  GptHeader, entry_at, Partition, GptPartitionEntry, entry_bytes, max_block_size, GptError, [],
  no_partitions, from_block_error, min, min_block_size,
}
use crab_efi.Gpt.Scan.{
  Progress, Step, stop, go_on, take_entry, scan_block, scan_blocks, skip_block, read_partitions,
  after_block, after_read, Partitions, max_partitions, partition_of, or_none_found, or_read_error,
  start,
}

-- What a scan of entries leaves: no more than sixteen partitions; and if the index has moved, so has
-- the count of bytes.
abbrev Moves : Progress → Step → Type 0
Moves s (stop ps) = length ps ≤ max_partitions
Moves s (go_on s') =
    (length s'.partitions ≤ max_partitions)
    × (((s'.entry_index ≡ s.entry_index) × (s'.bytes_read ≡ s.bytes_read))
        ⊎ ((s.entry_index < s'.entry_index) × (s.bytes_read < s'.bytes_read)))

pub step-cases :
    (r : Step) → ((ps : List Partition) × (r ≡ stop ps)) ⊎ ((s : Progress) × (r ≡ go_on s))
step-cases (stop ps) = inl (ps, refl)
step-cases (go_on s) = inr (s, refl)

take_entry-Moves :
    (block_size entry_size : ℕ) (s : Progress) (e : GptPartitionEntry)
    → length s.partitions ≤ max_partitions
    → 0 < entry_size
    → Moves s (take_entry block_size entry_size s e)
unfolding take_entry
take_entry-Moves block_size entry_size s e few pos =
    ground (arith, few, pos, length-append {0} s.partitions (partition_of block_size e ∷ []))

Moves-trans : (s s' : Progress) (r : Step) → Moves s (go_on s') → Moves s' r → Moves s r
Moves-trans s s' (stop ps) m n = n
Moves-trans s s' (go_on s'') m n = ground (arith, m, n)

scan_block-Moves :
    (left : ℕ) (h : GptHeader) (block_size : ℕ) (buffer : ℕ → ℕ) (pos : ℕ) (s : Progress)
    → length s.partitions ≤ max_partitions
    → 0 < h.partition_entry_size
    → Moves s (scan_block left h block_size buffer pos s)
unfolding scan_block
scan_block-Moves zero h block_size buffer pos s few size = (few, inl (refl, refl))
scan_block-Moves (suc left) h block_size buffer pos s few size =
    elim (Bool-cases
      (leb (pos + h.partition_entry_size) block_size && leb (pos + entry_bytes) max_block_size)) [
        | inl fits ↦
            rw fits
              (elim (step-cases
                (take_entry block_size h.partition_entry_size s (entry_at buffer pos))) [
                  | inl (ps, e) ↦ rw e (
                      rw e at (
                        take_entry-Moves block_size h.partition_entry_size s (entry_at buffer pos)
                          few size))
                  | inr (s', e) ↦
                      let m = rw e at (
                        take_entry-Moves block_size h.partition_entry_size s (entry_at buffer pos)
                          few size) in
                      rw e (
                        Moves-trans s s' _ m (
                          scan_block-Moves left h block_size buffer (pos + h.partition_entry_size)
                            s' m.0 size))
                ])
        | inr over ↦ rw over (few, inl (refl, refl))
      ]

positive_size : (a b n : ℕ) → n < a * b → 0 < b
positive_size a zero n h = omega (arith, h)
positive_size a (suc b) n h = omega arith

-- A scan that ends, with at most sixteen partitions.
pub data Ends : Option Partitions → Type 0 where
  found : (ps : List Partition) → 0 < length ps → length ps ≤ max_partitions → Ends (some (ok ps))
  failed : (e : GptError) → Ends (some (err e))

or_none_found-Ends :
    (ps : List Partition) → length ps ≤ max_partitions → Ends (some (or_none_found ps))
or_none_found-Ends [] few = failed no_partitions
or_none_found-Ends (p ∷ ps) few = found (p ∷ ps) (omega arith) few

or_read_error-Ends :
    (ps : List Partition) (e : BlockError)
    → length ps ≤ max_partitions
    → Ends (some (or_read_error ps e))
or_read_error-Ends [] e few = failed (from_block_error e)
or_read_error-Ends (p ∷ ps) e few = found (p ∷ ps) (omega arith) few

-- A block that is scanned brings the count of bytes on.
skip_block-Moves :
    (block_size offset : ℕ) (s s' : Progress)
    → Moves s (go_on s')
    → offset < block_size
    → s.bytes_read < (skip_block block_size offset s s').bytes_read
skip_block-Moves block_size offset s s' m below = ground (arith, m, below)

skip_block-few :
    (block_size offset : ℕ) (s s' : Progress)
    → Moves s (go_on s')
    → length (skip_block block_size offset s s').partitions ≤ max_partitions
skip_block-few block_size offset s s' m = ground (arith, m.0)

module _ (device : BlockDevice) (h : GptHeader) (block_size base : ℕ) (real : 0 < block_size) where
  abbrev total : ℕ
  total = h.num_partition_entries * h.partition_entry_size

  module _ (next : Progress → Option Partitions) (offset : ℕ) (s : Progress)
      (few : length s.partitions ≤ max_partitions) (size : 0 < h.partition_entry_size)
      (below : offset < block_size)
      (rest : (s' : Progress)
        → length s'.partitions ≤ max_partitions
        → s.bytes_read < s'.bytes_read
        → Ends (next s')) where
    after_block-Ends :
        (r : Step) → Moves s r → Ends (after_block device h block_size base next offset s r)
    after_block-Ends (stop ps) m = or_none_found-Ends ps m
    after_block-Ends (go_on s') m =
        rest (skip_block block_size offset s s') (skip_block-few block_size offset s s' m)
          (skip_block-Moves block_size offset s s' m below)

    after_read-Ends :
        (r : Fallible BlockError (List ℕ))
        → Ends (after_read device h block_size base next offset s r)
    after_read-Ends (err e) = or_read_error-Ends s.partitions e few
    after_read-Ends (ok buffer) =
        after_block-Ends
          (scan_block (h.num_partition_entries - s.entry_index) h block_size (byte buffer) offset s)
          (scan_block-Moves (h.num_partition_entries - s.entry_index) h block_size (byte buffer)
            offset s few size)

  scan_blocks-Ends :
      (fuel : ℕ) (s : Progress)
      → length s.partitions ≤ max_partitions
      → total - s.bytes_read < fuel
      → Ends (scan_blocks device h block_size base fuel s)
  unfolding scan_blocks
  scan_blocks-Ends zero s few enough = absurd (omega (arith, enough))
  scan_blocks-Ends (suc fuel) s few enough = elim (Bool-cases (ltb s.bytes_read total)) [
    | inl more ↦
        let unread : s.bytes_read < total = ground (arith, more) in
        let offset = add64 base s.bytes_read % block_size in
        rw more (
          after_read-Ends (scan_blocks device h block_size base fuel) offset s few
            (positive_size h.num_partition_entries h.partition_entry_size s.bytes_read unread)
            (mod-lt (add64 base s.bytes_read) real)
            (λ s' few' further.
              scan_blocks-Ends fuel s' few' (omega (arith, unread, further, enough)))
            (device.read_block (add64 base s.bytes_read / block_size) block_size))
    | inr over ↦ rw over (or_none_found-Ends s.partitions few)
  ]

-- Whatever the device answers and whatever the header says: the scan of the partition table ends,
-- with an error or with at least one and at most sixteen partitions.
pub read_partitions-Ends : (device : BlockDevice) (h : GptHeader) → Ends (read_partitions device h)
unfolding read_partitions
read_partitions-Ends device h =
    scan_blocks-Ends device h (min (max device.block_size min_block_size) max_block_size)
      (h.partition_entry_lba * min_block_size % u64_mod) (omega arith)
      (suc (h.num_partition_entries * h.partition_entry_size)) start (omega arith) (omega arith)
