-- ===== src/Gpt/Reading.antt =====
-- src/fs/gpt.rs: on a disk of 512-byte blocks with entries of 128 bytes, the scan block by block is a
-- scan of the table's entries.
use crab_efi.Prelude.{
  ℕ, zero, suc, ◌+◌, ◌-◌, ◌*◌, ◌/◌, ◌%◌, ◌≤◌, ◌<◌, true, false, Option, some, [], ◌≡◌, refl, ◌==◌,
  ltb, arith, add64, u64_mod, ap, sym, ◌∙◌, max,
}
use crab_efi.Disk.{BlockDevice, Holds}
use crab_efi.Gpt.{GptHeader, min_block_size, max_block_size, min}
use crab_efi.Gpt.Scan.{
  Progress, Step, stop, go_on, start, scan_blocks, read_partitions, after_block, Partitions,
  or_none_found,
}
use crab_efi.Gpt.Table.{table_entries, select, Agrees, scan_block-Agrees}

module _ (device : BlockDevice) (content : ℕ → ℕ) (disk : Holds device min_block_size content)
    (h : GptHeader) (usual : h.partition_entry_size ≡ 128) (base : ℕ) (aligned : base % 128 ≡ 0)
    (below : base + 128 * h.num_partition_entries < u64_mod) where
  -- What the scan gives from a point on.
  abbrev selected : ℕ → Progress → Option Partitions
  selected n s = some (
      or_none_found
        (select (table_entries content (base + s.bytes_read) n) s.consecutive_empty s.partitions))

  module _ (s : Progress) (n : ℕ) (next : Progress → Option Partitions) (lba offset : ℕ)
      (address : lba * 512 + offset ≡ base + s.bytes_read) (inside : offset + 128 ≤ 512)
      (some_left : 0 < n)
      (rest : (s' : Progress) (k m : ℕ)
        → 0 < k
        → k + m ≡ n
        → s'.entry_index ≡ s.entry_index + k
        → s'.bytes_read ≡ s.bytes_read + 128 * k
        → next s' ≡ selected m s') where
    after_block-selected :
        (r : Step)
        → Agrees content h usual (disk.block lba) (lba * 512) (disk.held lba) offset n s r
        → after_block device h min_block_size base next offset s r ≡ selected n s
    after_block-selected (stop ps) agrees =
        ap (λ qs. some (or_none_found qs)) (sym (rw address at agrees))
    after_block-selected (go_on s') (k, m, sum, index, bytes, on, far) =
        let moved = far some_left inside in
        let different : (s.entry_index == s'.entry_index) ≡ false = ground (arith, index, moved) in
        let there : base + s.bytes_read + 128 * k ≡ base + s'.bytes_read = omega (arith, bytes) in
        rw different (
          rest s' k m moved sum index bytes
          ∙ ap
              (λ a. some (
                or_none_found
                  (select (table_entries content a m) s'.consecutive_empty s'.partitions)))
              (sym there)
          ∙ ap (λ qs. some (or_none_found qs)) (sym (rw address at on)))

  scan_blocks-selected :
      (fuel n : ℕ) (s : Progress)
      → s.bytes_read ≡ 128 * s.entry_index
      → s.entry_index + n ≡ h.num_partition_entries
      → 128 * n < fuel
      → scan_blocks device h min_block_size base fuel s ≡ selected n s
  unfolding scan_blocks select table_entries
  scan_blocks-selected zero n s bytes index enough = absurd (omega (arith, enough))
  scan_blocks-selected (suc fuel) zero s bytes index enough =
      let over : ltb s.bytes_read (h.num_partition_entries * h.partition_entry_size) ≡ false =
        rw usual (ground (arith, bytes, index)) in
      rw over refl
  scan_blocks-selected (suc fuel) (suc n) s bytes index enough =
      let more : ltb s.bytes_read (h.num_partition_entries * h.partition_entry_size) ≡ true =
        rw usual (ground (arith, bytes, index)) in
      let count : h.num_partition_entries - s.entry_index ≡ suc n = omega (arith, index) in
      let current : add64 base s.bytes_read ≡ base + s.bytes_read =
        omega (arith, below, bytes, index) in
      let lba = add64 base s.bytes_read / 512 in
      rw (more, disk.reads lba, count)
        (after_block-selected s (suc n) (scan_blocks device h min_block_size base fuel) lba
          (add64 base s.bytes_read % 512) (omega (arith, current))
          (omega (arith, current, bytes, aligned)) (omega arith)
          (λ s' k m moved sum index' bytes'.
            scan_blocks-selected fuel m s' (omega (arith, bytes, bytes', index'))
              (omega (arith, index, index', sum)) (omega (arith, enough, sum, moved)))
          _
          (scan_block-Agrees content h usual (disk.block lba) (lba * 512) (disk.held lba) (suc n)
            (add64 base s.bytes_read % 512) s))

-- On a device of 512-byte blocks that answers every read with what it holds, with entries of 128
-- bytes: the scan block by block gives the partitions that a selection from the table's entries
-- gives, in their order, or the error for none.
pub read_partitions-select :
    (device : BlockDevice) (content : ℕ → ℕ) (h : GptHeader)
    → Holds device min_block_size content
    → h.partition_entry_size ≡ 128
    → h.partition_entry_lba * 512 + 128 * h.num_partition_entries < u64_mod
    → read_partitions device h
      ≡ some (
          or_none_found (
            select
              (table_entries content (h.partition_entry_lba * 512) h.num_partition_entries)
              0
              []))
unfolding read_partitions
read_partitions-select device content h disk usual below =
    let base = h.partition_entry_lba * 512 in
    let size : min (max device.block_size min_block_size) max_block_size ≡ 512 =
      rw (disk.sized) refl in
    let start_at : base % u64_mod ≡ base = omega (arith, below) in
    rw (size, start_at)
      (scan_blocks-selected device content disk h usual base (omega arith) (omega (arith, below))
          (suc (h.num_partition_entries * h.partition_entry_size)) h.num_partition_entries start
          refl (omega arith) (omega (arith, ap (λ x. h.num_partition_entries * x) usual))
        ∙ ap
            (λ a.
              some (or_none_found (select (table_entries content a h.num_partition_entries) 0 [])))
            (omega arith))
