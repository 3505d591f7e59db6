-- ===== src/Gpt/Tests.antt =====
-- A small disk, and the theorems on the partition table at it.
use crab_efi.Prelude.{
  ℕ, ◌*◌, ◌+◌, ◌%◌, ◌<◌, List, [], ◌∷◌, ◌++◌, ◌≡◌, refl, replicate, arith, some, ◌*◌, ◌+◌, ◌%◌, ap,
}
use crab_efi.Bytes.{byte}
use crab_efi.Disk.{BlockDevice, Holds, ok}
use crab_efi.Gpt.{GptHeader, min_block_size}
use crab_efi.Gpt.Scan.{read_partitions, or_none_found}
use crab_efi.Gpt.Ending.{Ends, read_partitions-Ends}
use crab_efi.Gpt.Table.{select, table_entries}
use crab_efi.Gpt.Reading.{read_partitions-select}

-- Every block of the disk is the same: one entry of type 7 for blocks 2 to 3, and an empty one.
abbrev block : List ℕ
block =
    replicate 16 7
    ++ (replicate 16 1 ++ ((2 ∷ replicate 7 0) ++ ((3 ∷ replicate 7 0) ++ replicate 464 0)))

abbrev disk_bytes : ℕ → ℕ
disk_bytes a = byte block (a % 512)

abbrev device : BlockDevice
device = record { block_size = 512; read_block = λ lba size. ok block }

same_byte : (lba i : ℕ) → i < min_block_size → byte block i ≡ disk_bytes (lba * 512 + i)
same_byte lba i below =
    let same : i ≡ (lba * 512 + i) % 512 = omega (arith, below) in ap (byte block) same

device-Holds : Holds device min_block_size disk_bytes
device-Holds = record {
  sized = refl;
  block = λ lba. block;
  reads = λ lba. refl;
  length_block = λ lba. refl;
  held = same_byte;
}

abbrev table : GptHeader
table = record {
  signature = 0x5452415020494645;
  partition_entry_lba = 2;
  num_partition_entries = 2;
  partition_entry_size = 128;
}

read_partitions-Ends_example : Ends (read_partitions device table)
read_partitions-Ends_example = read_partitions-Ends device table

read_partitions-select_example :
    read_partitions device table
    ≡ some (or_none_found (select (table_entries disk_bytes (2 * 512) 2) 0 []))
read_partitions-select_example =
    read_partitions-select device disk_bytes table device-Holds refl (omega arith)
