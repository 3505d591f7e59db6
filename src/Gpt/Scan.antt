-- ===== src/Gpt/Scan.antt =====
-- src/fs/gpt.rs: `read_partitions` and `find_esp`.
use crab_efi.Prelude.{
  ℕ, zero, suc, ◌+◌, ◌-◌, ◌*◌, ◌/◌, ◌%◌, Bool, true, false, ◌&&◌, Option, none, some, List, [], ◌∷◌,
  ◌++◌, ◌==◌, leb, ltb, if◌then◌else◌, length, min, max, add64, u64_mod,
}
use crab_efi.Bytes.{byte}
use crab_efi.Disk.{BlockError, BlockDevice, Fallible, ok, err}
use crab_efi.Gpt.{
  GptHeader, GptError, from_block_error, no_partitions, no_esp, read_gpt_header, max_block_size,
  min_block_size, GptPartitionEntry, entry_at, entry_bytes, is_empty, is_esp, Partition,
}

-- The capacity of the list.
abbrev pub max_partitions : ℕ
max_partitions = 16

-- The variables of the loop.
pub record Progress : Type 0 where
  pub bytes_read : ℕ
  pub entry_index : ℕ
  pub consecutive_empty : ℕ
  pub partitions : List Partition

abbrev pub start : Progress
start = record { bytes_read = 0; entry_index = 0; consecutive_empty = 0; partitions = [] }

-- The LBAs of a hybrid image count blocks of 512 bytes.
abbrev pub device_lba : ℕ → ℕ → ℕ
device_lba block_size lba =
    if ltb min_block_size block_size then lba * min_block_size % u64_mod / block_size else lba

abbrev pub partition_of : ℕ → GptPartitionEntry → Partition
partition_of block_size e = record {
  type_guid = e.type_guid;
  partition_guid = e.partition_guid;
  first_lba = device_lba block_size e.first_lba;
  last_lba = device_lba block_size e.last_lba;
  attributes = e.attributes;
  is_esp = is_esp e;
  block_size = block_size;
}

abbrev pub has_some : List Partition → Bool
has_some [] = false
has_some (_ ∷ _) = true

-- `break 'outer`, or on to what follows.
pub data Step : Type 0 where
  stop : List Partition → Step
  go_on : Progress → Step

-- What is done with an entry; the counters move on if the scan does.
unfoldable pub take_entry : ℕ → ℕ → Progress → GptPartitionEntry → Step
take_entry block_size entry_size s e =
    let next : Progress = record s {
      bytes_read = s.bytes_read + entry_size;
      entry_index = s.entry_index + 1;
    } in
    if is_empty e
    then (if leb 8 (s.consecutive_empty + 1) && has_some s.partitions
        then stop s.partitions
        else go_on (record next { consecutive_empty = s.consecutive_empty + 1 }))
    else if leb max_partitions (length s.partitions)
    then stop s.partitions
    else go_on (record next {
      consecutive_empty = 0;
      partitions = s.partitions ++ (partition_of block_size e ∷ []);
    })

-- The entries of one block, from a position on, where so many entries are left to be read.
unfoldable pub scan_block : ℕ → GptHeader → ℕ → (ℕ → ℕ) → ℕ → Progress → Step
scan_block zero h block_size buffer pos s = go_on s
scan_block (suc left) h block_size buffer pos s =
    let rest : Step = elim (take_entry block_size h.partition_entry_size s (entry_at buffer pos)) [
      | stop ps ↦ stop ps
      | go_on s' ↦ scan_block left h block_size buffer (pos + h.partition_entry_size) s'
    ] in
    if leb (pos + h.partition_entry_size) block_size && leb (pos + entry_bytes) max_block_size
    then rest
    else go_on s

-- A block in which no entry is processed is skipped: the position has not moved just when the index
-- has not, since a table with entries of no bytes is not scanned.
abbrev pub skip_block : ℕ → ℕ → Progress → Progress → Progress
skip_block block_size offset before after =
    if before.entry_index == after.entry_index
    then record after { bytes_read = after.bytes_read + (block_size - offset) }
    else after

abbrev pub Partitions : Type 0
Partitions = Fallible GptError (List Partition)

abbrev pub or_none_found : List Partition → Partitions
or_none_found [] = err no_partitions
or_none_found (p ∷ ps) = ok (p ∷ ps)

-- A read error ends the scan; it is an error if nothing was found before.
abbrev pub or_read_error : List Partition → BlockError → Partitions
or_read_error [] e = err (from_block_error e)
or_read_error (p ∷ ps) e = ok (p ∷ ps)

module _ (device : BlockDevice) (h : GptHeader) (block_size entries_byte_offset : ℕ) where
  abbrev pub after_block : (Progress → Option Partitions) → ℕ → Progress → Step → Option Partitions
  after_block next offset before (stop ps) = some (or_none_found ps)
  after_block next offset before (go_on s) = next (skip_block block_size offset before s)

  abbrev pub after_read :
      (Progress → Option Partitions)
      → ℕ
      → Progress
      → Fallible BlockError (List ℕ)
      → Option Partitions
  after_read next offset s (err e) = some (or_read_error s.partitions e)
  after_read next offset s (ok buffer) =
      after_block next offset s
        (scan_block (h.num_partition_entries - s.entry_index) h block_size (byte buffer) offset s)

  -- The blocks; `none` when the fuel is used up.
  unfoldable pub scan_blocks : ℕ → Progress → Option Partitions
  scan_blocks zero s = none
  scan_blocks (suc fuel) s =
      let current = add64 entries_byte_offset s.bytes_read in
      let offset = current % block_size in
      if ltb s.bytes_read (h.num_partition_entries * h.partition_entry_size)
      then after_read (scan_blocks fuel) offset s
          (device.read_block (current / block_size) block_size)
      else some (or_none_found s.partitions)

-- A block size is at least 512 and at most 4096. The fuel is one more than the bytes of the table.
unfoldable pub read_partitions : BlockDevice → GptHeader → Option Partitions
read_partitions device h =
    let block_size = min (max device.block_size min_block_size) max_block_size in
    let entries_byte_offset = h.partition_entry_lba * min_block_size % u64_mod in
    scan_blocks device h block_size entries_byte_offset
      (suc (h.num_partition_entries * h.partition_entry_size)) start

unfoldable pub first_esp : List Partition → Fallible GptError Partition
first_esp [] = err no_esp
first_esp (p ∷ ps) = if p.is_esp then ok p else first_esp ps

abbrev pub esp_of : Option Partitions → Option (Fallible GptError Partition)
esp_of none = none
esp_of (some (err e)) = some (err e)
esp_of (some (ok ps)) = some (first_esp ps)

abbrev pub esp_by : BlockDevice → Fallible GptError GptHeader → Option (Fallible GptError Partition)
esp_by device (err e) = some (err e)
esp_by device (ok h) = esp_of (read_partitions device h)

unfoldable pub find_esp : BlockDevice → Option (Fallible GptError Partition)
find_esp device = esp_by device (read_gpt_header device)
