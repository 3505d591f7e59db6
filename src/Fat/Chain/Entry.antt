-- ===== src/Fat/Chain/Entry.antt =====
-- src/fs/fat.rs: the entry that `next_cluster` reads is that of the table, also where it lies in two
-- blocks.
use crab_efi.Prelude.{
  ℕ, ◌+◌, ◌-◌, ◌*◌, ◌/◌, ◌%◌, ◌≤◌, ◌<◌, ◌≡◌, refl, arith, ap, ◌∙◌, Bool-cases, inl, inr, ltb,
  u64_mod, add64, List,
}
use native.Mathlib.Nat.{mod-lt, add-mul, div-add-mod'}
use crab_efi.Bytes.{byte, le16, le32}
use crab_efi.Bytes.Agree.{le32-agree}
use crab_efi.Disk.{Holds, ok}
use crab_efi.Fat.{FatFilesystem, FatType, false}
use crab_efi.Fat.Chain.{
  two_bytes, four_bytes, entry_bytes, link_of, next_cluster, entry_byte_offset, spliced,
  read_device,
}

-- The entry of a cluster in the table, where the partition's bytes are given.
abbrev pub value_at : (ℕ → ℕ) → ℕ → FatType → ℕ
value_at content a FatType.fat32 = le32 content a
value_at content a _ = le16 content a

abbrev pub table_entry : FatFilesystem → (ℕ → ℕ) → ℕ → ℕ
table_entry fs content cluster =
    value_at content (fs.partition_start * fs.device_block_size + entry_byte_offset fs cluster)
      fs.fat_type

-- The address of a byte of a partition is its block and its place in that.
pub block_address : (start at size : ℕ) → (start + at / size) * size + at % size ≡ start * size + at
block_address start at size = omega (arith, add-mul start (at / size) size, div-add-mod' at size)

module _ (fs : FatFilesystem) (content : ℕ → ℕ)
    (disk : Holds fs.device fs.device_block_size content) where
  abbrev held_block : ℕ → List ℕ
  held_block = disk.block

  module _ (block offset : ℕ) (inside : offset < fs.device_block_size)
      (below : block + 1 < u64_mod) where
    abbrev address : ℕ
    address = block * fs.device_block_size + offset

    next_block :
        (block + 1) * fs.device_block_size ≡ block * fs.device_block_size + fs.device_block_size
    next_block = omega (arith, add-mul block 1 fs.device_block_size)

    read-next : read_device fs (add64 block 1) ≡ ok (disk.block (block + 1))
    read-next =
        let e : add64 block 1 ≡ block + 1 = omega (arith, below) in
        rw (e, disk.reads (block + 1)) refl

    in_first :
        (i : ℕ)
        → offset + i < fs.device_block_size
        → byte (disk.block block) (offset + i) ≡ content (address + i)
    in_first i h = disk.held block (offset + i) h ∙ ap content (omega arith)

    in_next :
        (i j : ℕ)
        → offset + i ≡ fs.device_block_size + j
        → j < fs.device_block_size
        → byte (disk.block (block + 1)) j ≡ content (address + i)
    in_next i j e h = disk.held (block + 1) j h ∙ ap content (omega (arith, next_block, e))

    first_byte : byte (disk.block block) offset ≡ content address
    first_byte = disk.held block offset inside

    two_bytes-content : two_bytes fs block offset (disk.block block) ≡ ok (le16 content address)
    unfolding two_bytes
    two_bytes-content = elim (Bool-cases (ltb (offset + 1) fs.device_block_size)) [
      | inl one ↦ let second = in_first 1 (ground (arith, one)) in rw (one, first_byte, second) refl
      | inr two ↦
          let second = in_next 1 0 (ground (arith, two, inside)) (omega (arith, inside)) in
          rw (two, read-next, first_byte, second) refl
    ]

    spliced-content :
        (i : ℕ)
        → i < 4
        → 4 ≤ fs.device_block_size
        → spliced
            (disk.block block)
            offset
            (fs.device_block_size - offset)
            (disk.block (block + 1))
            i
          ≡ content (address + i)
    spliced-content i h four = elim (Bool-cases (ltb i (fs.device_block_size - offset))) [
      | inl here ↦ rw here (in_first i (ground (arith, here, inside)))
      | inr there ↦
          let past : fs.device_block_size ≤ offset + i = ground (arith, there, inside) in
          rw there (
            in_next i (i - (fs.device_block_size - offset)) (omega (arith, past, inside))
              (omega (arith, four, h, inside)))
    ]

    four_bytes-content :
        4 ≤ fs.device_block_size
        → four_bytes fs block offset (disk.block block) ≡ ok (le32 content address)
    unfolding four_bytes
    four_bytes-content four = elim (Bool-cases (ltb (offset + 3) fs.device_block_size)) [
      | inl one ↦ rw one (
          ap ok (
            le32-agree (byte (disk.block block)) content offset address 4
              (λ i h. in_first i (ground (arith, one, h))) 0 offset address (omega arith)
              (omega arith) (omega arith)))
      | inr two ↦
          rw (two, read-next)
            (ap ok (
              le32-agree
                (spliced (disk.block block) offset (fs.device_block_size - offset)
                  (disk.block (block + 1)))
                content 0 address 4
                (λ i h. spliced-content (0 + i) (omega arith) four ∙ ap content (omega arith)) 0 0
                address refl (omega arith) (omega arith)))
    ]

    entry_bytes-content :
        (t : FatType)
        → 4 ≤ fs.device_block_size
        → entry_bytes fs block offset (disk.block block) t ≡ ok (value_at content address t)
    entry_bytes-content FatType.fat12 four = two_bytes-content
    entry_bytes-content FatType.fat16 four = two_bytes-content
    entry_bytes-content FatType.fat32 four = four_bytes-content four

-- On a device that answers every read with what it holds: `next_cluster` gives the link of the
-- cluster's entry in the table, whether or not the entry goes on in the next block. The blocks have
-- at least four bytes, and their numbers stay below 2 ^ 64.
pub next_cluster-table_entry :
    (fs : FatFilesystem) (content : ℕ → ℕ) (cluster : ℕ)
    → Holds fs.device fs.device_block_size content
    → 4 ≤ fs.device_block_size
    → 2 ≤ cluster
    → fs.partition_start + entry_byte_offset fs cluster / fs.device_block_size + 1 < u64_mod
    → next_cluster fs cluster ≡ link_of fs.fat_type cluster (table_entry fs content cluster)
unfolding next_cluster
next_cluster-table_entry fs content cluster disk four two below =
    let at = entry_byte_offset fs cluster in
    let block = fs.partition_start + at / fs.device_block_size in
    let offset = at % fs.device_block_size in
    let number : add64 fs.partition_start (at / fs.device_block_size) ≡ block =
      omega (arith, below) in
    let real : ltb cluster 2 ≡ false = ground (arith, two) in
    let inside : offset < fs.device_block_size = mod-lt at (omega (arith, four)) in
    rw (real, number, disk.reads block)
      (rw
        (
          entry_bytes-content fs content disk block offset inside below fs.fat_type four,
          block_address fs.partition_start at fs.device_block_size,
        )
        refl)
