-- ===== src/Fat/Sample.antt =====
-- A small file system, for the tests.
use crab_efi.Prelude.{
  ℕ, ◌*◌, ◌+◌, ◌/◌, ◌%◌, ◌<◌, ◌≤◌, ◌==◌, List, [], ◌∷◌, ◌++◌, ◌≡◌, refl, replicate, arith, length,
  ap, if◌then◌else◌, inl, inr, ◌∙◌, Bool-cases,
}
use crab_efi.Bytes.{byte}
use crab_efi.Disk.{BlockDevice, Holds, ok}
use crab_efi.Fat.{FatFilesystem, FatType, new_fat, check_bpb, contains}
use crab_efi.Fat.Chain.{link_of, link}
use crab_efi.Fat.File.OnDisk.{Listed, Linked, Readable, bytes_of, linked, end_of_chain}

-- The table, in which cluster 2 is followed by cluster 3, which is the last one.
abbrev pub table_block : List ℕ
table_block = replicate 4 255 ++ ((3 ∷ 0 ∷ 255 ∷ 255 ∷ []) ++ replicate 504 0)

-- Cluster 2: an entry of the name `A`, a deleted one, and the mark of the end; cluster 3 is full of
-- the same byte.
abbrev pub entry_a : List ℕ
entry_a = 0x41 ∷ (replicate 7 0x20 ++ (replicate 3 0x20 ++ replicate 21 0))

abbrev pub block_2 : List ℕ
block_2 = entry_a ++ (0xE5 ∷ replicate 479 0)

abbrev pub block_3 : List ℕ
block_3 = replicate 512 9

-- The root directory: a file `B` of 700 bytes that starts with cluster 2.
abbrev pub root_block : List ℕ
root_block =
    0x42
    ∷ (replicate 10 0x20
        ++ (replicate 15 0 ++ ((2 ∷ 0 ∷ 0xBC ∷ 2 ∷ 0 ∷ 0 ∷ []) ++ replicate 480 0)))

-- Sectors of 512 bytes, clusters of one, one reserved sector, one table of one sector, 16 entries in
-- the root directory, 5003 sectors.
abbrev pub boot_block : List ℕ
boot_block =
    replicate 11 0
    ++ ((0 ∷ 2 ∷ 1 ∷ 1 ∷ 0 ∷ 1 ∷ 16 ∷ 0 ∷ 0x8B ∷ 0x13 ∷ 0 ∷ 1 ∷ 0 ∷ []) ++ replicate 488 0)

abbrev pub block_at : ℕ → List ℕ
block_at lba =
    if lba == 10
    then boot_block
    else if lba == 11
    then table_block
    else if lba == 12
    then root_block
    else if lba == 13
    then block_2
    else block_3

abbrev pub disk_bytes : ℕ → ℕ
disk_bytes a = byte (block_at (a / 512)) (a % 512)

abbrev pub device : BlockDevice
device = record { block_size = 512; read_block = λ lba size. ok (block_at lba) }

abbrev pub small_fat : FatFilesystem
small_fat = record {
  device = device;
  partition_start = 10;
  fat_type = FatType.fat16;
  bytes_per_sector = 512;
  device_block_size = 512;
  sectors_per_cluster = 1;
  fat_start = 1;
  sectors_per_fat = 1;
  data_start = 3;
  root_cluster = 0;
  root_dir_start = 2;
  root_dir_sectors = 1;
  data_clusters = 5000;
}

same_byte : (lba i : ℕ) → i < 512 → byte (block_at lba) i ≡ disk_bytes (lba * 512 + i)
same_byte lba i below =
    let block : lba ≡ (lba * 512 + i) / 512 = omega (arith, below) in
    let place : i ≡ (lba * 512 + i) % 512 = omega (arith, below) in
    ap (λ b. byte (block_at b) i) block ∙ ap (byte (block_at ((lba * 512 + i) / 512))) place

length_block : (lba : ℕ) → length (block_at lba) ≡ 512
length_block lba = elim (Bool-cases (lba == 10)) [
  | inl boot ↦ rw boot refl
  | inr rest ↦ elim (Bool-cases (lba == 11)) [
    | inl table ↦ rw (rest, table) refl
    | inr more ↦ elim (Bool-cases (lba == 12)) [
      | inl root ↦ rw (rest, more, root) refl
      | inr other ↦ elim (Bool-cases (lba == 13)) [
        | inl second ↦ rw (rest, more, other, second) refl
        | inr third ↦ rw (rest, more, other, third) refl
      ]
    ]
  ]
]

pub device-Holds : Holds device 512 disk_bytes
device-Holds = record {
  sized = refl;
  block = block_at;
  reads = λ lba. refl;
  length_block = length_block;
  held = same_byte;
}

pub listed : (c : ℕ) → 2 ≤ c → c < 4 → Listed small_fat c
listed c low high = record {
  data_cluster = record {
    first = low;
    last = omega (arith, low, high);
    sectors = omega (arith, high);
    blocks = omega (arith, high);
  };
  entry_block = omega (arith, high);
}

pub small_fat-Readable : Readable small_fat disk_bytes
small_fat-Readable = record {
  disk = device-Holds;
  four = omega arith;
  positive = omega arith;
  small = omega arith;
  sizes = inl (omega arith);
}

pub small_chain :
    Linked small_fat disk_bytes 2
      (bytes_of small_fat disk_bytes 2 ++ bytes_of small_fat disk_bytes 3)
unfolding link_of link
small_chain =
    linked 2 3 (bytes_of small_fat disk_bytes 3) (listed 2 (omega arith) (omega arith)) refl
      (end_of_chain 3 (listed 3 (omega arith) (omega arith)) refl)

pub new_fat_small : new_fat device 10 ≡ ok small_fat
unfolding new_fat check_bpb contains
new_fat_small = refl
