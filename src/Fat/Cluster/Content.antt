-- ===== src/Fat/Cluster/Content.antt =====
-- src/fs/fat.rs: `read_cluster` gives the bytes of the cluster.
use crab_efi.Prelude.{
  ℕ, zero, suc, ◌+◌, ◌-◌, ◌*◌, ◌/◌, ◌%◌, ◌≤◌, ◌<◌, ◌≡◌, refl, arith, ap, sym, ◌∙◌, some, Bool-cases,
  inl, inr, ltb, leb, u64_mod, u32_mod, add64, [], min, ◌⊎◌, true, ◌==◌,
}
use native.Mathlib.Nat.{
  mod-lt, add-mul, mul-add-div_right, div-eq_of_lt, zero-mul, suc-mul, mul-div_cancel,
}
use crab_efi.Bytes.{byte, bytes_at}
use crab_efi.Bytes.Agree.{bytes_at-agree, bytes_at-append}
use crab_efi.Disk.{Holds, ok}
use crab_efi.Fat.{FatFilesystem, cluster_bytes, cluster_to_device_block, div_ceil, false}
use crab_efi.Fat.Cluster.{read_cluster, copy_blocks, read_blocks}
use crab_efi.Fat.Chain.Entry.{block_address}

-- Where a cluster lies, in bytes: on the partition, and on the device.
abbrev pub cluster_sector : FatFilesystem → ℕ → ℕ
cluster_sector fs cluster = fs.data_start + (cluster - 2) * fs.sectors_per_cluster

abbrev pub cluster_offset : FatFilesystem → ℕ → ℕ
cluster_offset fs cluster = cluster_sector fs cluster * fs.bytes_per_sector

abbrev pub cluster_address : FatFilesystem → ℕ → ℕ
cluster_address fs cluster = fs.partition_start * fs.device_block_size + cluster_offset fs cluster

-- A cluster of the data region. The numbers of its sectors fit, and so do those of its blocks.
pub record DataCluster (fs : FatFilesystem) (cluster : ℕ) : Type 0 where
  pub first : 2 ≤ cluster
  pub last : cluster - 2 < fs.data_clusters
  pub sectors : cluster_sector fs cluster < u32_mod
  pub blocks :
      fs.partition_start
        + cluster_offset fs cluster / fs.device_block_size
        + fs.sectors_per_cluster
        + 2
      < u64_mod

module _ (fs : FatFilesystem) (content : ℕ → ℕ)
    (disk : Holds fs.device fs.device_block_size content) (real : 0 < fs.device_block_size) where
  abbrev size : ℕ
  size = fs.device_block_size

  -- Bytes of one block.
  bytes_at-block :
      (block offset n a : ℕ)
      → offset + n ≤ size
      → block * size + offset ≡ a
      → bytes_at (byte (disk.block block)) offset n ≡ bytes_at content a n
  bytes_at-block block offset n a inside e =
      bytes_at-agree (byte (disk.block block)) content offset a n
        (λ i h.
          disk.held block (offset + i) (omega (arith, inside, h)) ∙ ap content (omega (arith, e)))
        n 0 offset a (omega arith) (omega arith) (omega arith)

  module _ (a : ℕ) (small : cluster_bytes fs ≤ size) (positive : 0 < cluster_bytes fs) where
    copy_blocks-stop :
        (fuel k block offset : ℕ)
        → k ≡ cluster_bytes fs
        → copy_blocks fs (suc fuel) (bytes_at content a k) k block offset
          ≡ ok (bytes_at content a (cluster_bytes fs))
    unfolding copy_blocks
    copy_blocks-stop fuel k block offset e =
        let over : ltb k (cluster_bytes fs) ≡ false = ground (arith, e) in
        rw over (ap (λ n. ok (bytes_at content a n)) e)

    copy_blocks-step :
        (fuel k n block offset : ℕ)
        → k < cluster_bytes fs
        → n ≡ min (size - offset) (cluster_bytes fs - k)
        → offset < size
        → block + 1 < u64_mod
        → block * size + offset ≡ a + k
        → copy_blocks fs (suc fuel) (bytes_at content a k) k block offset
          ≡ copy_blocks fs fuel (bytes_at content a (k + n)) (k + n) (block + 1) 0
    unfolding copy_blocks
    copy_blocks-step fuel k n block offset more e inside below at =
        let go : ltb k (cluster_bytes fs) ≡ true = ground (arith, more) in
        let next : add64 block 1 ≡ block + 1 = omega (arith, below) in
        let bytes = bytes_at-block block offset n (a + k) (omega (arith, e, inside)) at in
        rw (go, disk.reads block, next, sym e, bytes, bytes_at-append content n k a) refl

    copy_blocks-cluster :
        (block offset : ℕ)
        → offset < size
        → block + 2 < u64_mod
        → block * size + offset ≡ a
        → copy_blocks fs 3 [] 0 block offset ≡ ok (bytes_at content a (cluster_bytes fs))
    copy_blocks-cluster block offset inside below at =
        elim (Bool-cases (leb (cluster_bytes fs) (size - offset))) [
          | inl one ↦
              let n = cluster_bytes fs in
              let whole : n ≡ min (size - offset) (n - 0) = ground (arith, one) in
              copy_blocks-step 2 0 n block offset positive whole inside (omega (arith, below))
                (omega (arith, at))
              ∙ copy_blocks-stop 1 (0 + n) (block + 1) 0 (omega arith)
          | inr two ↦
              let n = size - offset in
              let m = cluster_bytes fs - (0 + n) in
              let part : n ≡ min (size - offset) (cluster_bytes fs - 0) = ground (arith, two) in
              let rest : m ≡ min (size - 0) (cluster_bytes fs - (0 + n)) = omega (arith, small) in
              copy_blocks-step 2 0 n block offset positive part inside (omega (arith, below))
                (omega (arith, at))
              ∙ copy_blocks-step 1 (0 + n) m (block + 1) 0 (ground (arith, two)) rest real
                  (omega (arith, below)) (omega (arith, add-mul block 1 size, at, inside))
              ∙ copy_blocks-stop 0 (0 + n + m) (block + 1 + 1) 0 (ground (arith, two))
        ]

  module _ (a block : ℕ) (at : block * size ≡ a) where
    -- So many blocks from the i-th on, up to the end of the cluster.
    read_blocks-content :
        (n i : ℕ)
        → (i + n) * size ≡ cluster_bytes fs
        → block + i + n < u64_mod
        → read_blocks fs n block i ≡ ok (bytes_at content (a + i * size) (n * size))
    unfolding read_blocks
    read_blocks-content zero i whole below = rw (zero-mul size) refl
    read_blocks-content (suc n) i whole below =
        let number : add64 block i ≡ block + i = omega (arith, below) in
        let left : min size (cluster_bytes fs - i * size) ≡ size =
          omega (arith, whole, add-mul i (suc n) size, suc-mul n size) in
        let here : (block + i) * size + 0 ≡ a + i * size =
          omega (arith, at, add-mul block i size) in
        let there : a + (i + 1) * size ≡ a + i * size + size = omega (arith, add-mul i 1 size) in
        let rest =
          read_blocks-content n (i + 1) (ap (λ x. x * size) (omega arith) ∙ whole)
            (omega (arith, below)) in
        let bytes = bytes_at-block (block + i) 0 size (a + i * size) (omega arith) here in
        let count : size + n * size ≡ suc n * size = omega (arith, suc-mul n size) in
        rw (number, left, disk.reads (block + i), rest, bytes, there)
          (ap ok (
            bytes_at-append content (n * size) size (a + i * size)
            ∙ ap (bytes_at content (a + i * size)) count))

-- The block and the offset of a cluster.
record Located (fs : FatFilesystem) (cluster : ℕ) : Type 0 where
  pub block : ℕ
  pub offset : ℕ
  pub located : cluster_to_device_block fs cluster ≡ some (block, offset)
  pub position : block * fs.device_block_size + offset ≡ cluster_address fs cluster
  pub inside : offset < fs.device_block_size
  pub below : block + fs.sectors_per_cluster + 2 < u64_mod
  pub aligned : fs.bytes_per_sector ≡ fs.device_block_size → offset ≡ 0

cluster_to_device_block-Located :
    (fs : FatFilesystem) (cluster : ℕ)
    → DataCluster fs cluster
    → 0 < fs.device_block_size
    → Located fs cluster
unfolding cluster_to_device_block
cluster_to_device_block-Located fs cluster valid real =
    let size = fs.device_block_size in
    let sector = cluster_sector fs cluster in
    let b = cluster_offset fs cluster / size in
    let first : ltb cluster 2 ≡ false = ground (arith, valid.first) in
    let last : leb fs.data_clusters (cluster - 2) ≡ false = ground (arith, valid.last) in
    let small : ltb ((cluster - 2) * fs.sectors_per_cluster) u32_mod ≡ true =
      ground (arith, valid.sectors) in
    let fits : ltb sector u32_mod ≡ true = ground (arith, valid.sectors) in
    elim (Bool-cases (fs.bytes_per_sector == size)) [
      | inl same ↦
          let e : fs.bytes_per_sector ≡ size = ground (arith, same) in
          let whole : b ≡ sector = ap (λ x. sector * x / size) e ∙ mul-div_cancel sector real in
          let number : ltb (fs.partition_start + sector) u64_mod ≡ true =
            ground (arith, valid.blocks, whole) in
          record {
            block = fs.partition_start + sector;
            offset = 0;
            located = rw (first, last, small, fits, same, number) refl;
            position =
                omega (arith, add-mul fs.partition_start sector size, ap (λ x. sector * x) e);
            inside = real;
            below = omega (arith, valid.blocks, whole);
            aligned = λ e. refl;
          }
      | inr other ↦
          let number : ltb (fs.partition_start + b) u64_mod ≡ true = ground (arith, valid.blocks) in
          record {
            block = fs.partition_start + b;
            offset = cluster_offset fs cluster % size;
            located = rw (first, last, small, fits, other, number) refl;
            position = block_address fs.partition_start (cluster_offset fs cluster) size;
            inside = mod-lt (cluster_offset fs cluster) real;
            below = valid.blocks;
            aligned = λ e. absurd (ground (arith, other, e));
          }
    ]

whole_blocks :
    (fs : FatFilesystem)
    → fs.bytes_per_sector ≡ fs.device_block_size
    → 0 < fs.device_block_size
    → div_ceil (cluster_bytes fs) fs.device_block_size ≡ fs.sectors_per_cluster
whole_blocks fs e real =
    let none_left : (fs.device_block_size - 1) / fs.device_block_size ≡ 0 =
      div-eq_of_lt (omega (arith, real)) in
    ap (λ x. div_ceil (fs.sectors_per_cluster * x) fs.device_block_size) e
    ∙ mul-add-div_right real fs.sectors_per_cluster (fs.device_block_size - 1)
    ∙ omega (arith, none_left)

-- On a device that answers every read with what it holds: a cluster of the data region is read as the
-- bytes from its address on, if it is not larger than a block of the device, or if the blocks are the
-- sectors of the file system.
pub read_cluster-content :
    (fs : FatFilesystem) (content : ℕ → ℕ) (cluster len : ℕ)
    → Holds fs.device fs.device_block_size content
    → 0 < cluster_bytes fs
    → 0 < fs.device_block_size
    → DataCluster fs cluster
    → (cluster_bytes fs ≤ fs.device_block_size) ⊎ (fs.bytes_per_sector ≡ fs.device_block_size)
    → cluster_bytes fs ≤ len
    → read_cluster fs len cluster
      ≡ ok (bytes_at content (cluster_address fs cluster) (cluster_bytes fs))
unfolding read_cluster
read_cluster-content fs content cluster len disk positive real valid sizes room =
    let found = cluster_to_device_block-Located fs cluster valid real in
    let a = cluster_address fs cluster in
    let enough : ltb len (cluster_bytes fs) ≡ false = ground (arith, room) in
    rw (enough, found.located)
      (elim (Bool-cases (leb (cluster_bytes fs) fs.device_block_size)) [
        | inl small ↦ rw small (
            copy_blocks-cluster fs content disk real a (ground (arith, small)) positive found.block
              found.offset found.inside (omega (arith, found.below)) found.position)
        | inr large ↦
            let e : fs.bytes_per_sector ≡ fs.device_block_size = ground (arith, large, sizes) in
            let blocks = whole_blocks fs e real in
            rw (large, blocks)
              (read_blocks-content fs content disk real a found.block
                  (omega (arith, found.position, found.aligned e)) fs.sectors_per_cluster 0
                  (ap (λ x. (0 + fs.sectors_per_cluster) * x) (sym e)
                    ∙ ap (λ x. x * fs.bytes_per_sector) (omega arith))
                  (omega (arith, found.below))
                ∙ ap ok (
                    ap (λ x. bytes_at content x (fs.sectors_per_cluster * fs.device_block_size))
                      (omega arith)
                    ∙ ap (λ x. bytes_at content a (fs.sectors_per_cluster * x)) (sym e)))
      ])
