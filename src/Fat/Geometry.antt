-- ===== src/Fat/Geometry.antt =====
-- src/fs/fat.rs: what `new` accepts.
use crab_efi.Prelude.{
  ℕ, ◌*◌, ◌%◌, ◌≤◌, ◌<◌, ◌≡◌, refl, arith, Bool, true, false, ◌||◌, not, inl, inr, ltb, List, ◌==◌,
  ◌⊎◌, min,
}
use crab_efi.Bytes.{byte}
use crab_efi.Disk.{BlockDevice, Fallible, ok, err, guard, ◌>>◌, ◌>>=◌, map_err, BlockError}
use crab_efi.Fat.{
  FatFilesystem, FatError, contains, valid_sector_sizes, powers_of_two, type_of_clusters,
  cluster_bytes, new_fat, max_block_size, of_bpb, bpb_at, ebr_at, BiosParameterBlock, Fat32Ebr,
  check_bpb,
}

-- The geometry of a file system that is read.
pub record IsMounted (fs : FatFilesystem) : Type 0 where
  pub sector :
      (fs.bytes_per_sector ≡ 512)
      ⊎ ((fs.bytes_per_sector ≡ 1024)
          ⊎ ((fs.bytes_per_sector ≡ 2048) ⊎ (fs.bytes_per_sector ≡ 4096)))
  pub power : contains powers_of_two fs.sectors_per_cluster ≡ true
  pub some_sectors : 0 < fs.sectors_per_cluster
  pub positive : 0 < cluster_bytes fs
  pub whole : cluster_bytes fs % 512 ≡ 0
  pub bounded : cluster_bytes fs ≤ 128 * 4096
  pub behind_boot : 0 < fs.fat_start
  pub typed : fs.fat_type ≡ type_of_clusters fs.data_clusters
  pub blocks : fs.device_block_size ≤ max_block_size

-- An error, or a file system of such a geometry.
pub data Mounts : Fallible FatError FatFilesystem → Type 0 where
  mounted : (fs : FatFilesystem) → IsMounted fs → Mounts (ok fs)
  refused : (e : FatError) → Mounts (err e)

sector_sizes :
    (n : ℕ)
    → contains valid_sector_sizes n ≡ true
    → (n ≡ 512) ⊎ ((n ≡ 1024) ⊎ ((n ≡ 2048) ⊎ (n ≡ 4096)))
unfolding contains
sector_sizes n h = ground (arith, h)

cluster_sectors :
    (n : ℕ)
    → not (n == 0 || ltb 128 n || not (contains powers_of_two n)) ≡ true
    → (0 < n) × (n ≤ 128) × (contains powers_of_two n ≡ true)
cluster_sectors n h = ground (arith, h)

-- A test that is passed.
guard-Mounts :
    (b : Bool) (e : FatError) (k : Fallible FatError FatFilesystem)
    → (b ≡ true → Mounts k)
    → Mounts (guard b e >> k)
guard-Mounts true e k next = next refl
guard-Mounts false e k next = refused e

cluster_sizes :
    (s n : ℕ)
    → (n ≡ 512) ⊎ ((n ≡ 1024) ⊎ ((n ≡ 2048) ⊎ (n ≡ 4096)))
    → 0 < s
    → s ≤ 128
    → (0 < s * n) × (s * n % 512 ≡ 0) × (s * n ≤ 128 * 4096)
cluster_sizes s n (inl e) pos le = rw e (omega arith, omega arith, omega arith)
cluster_sizes s n (inr (inl e)) pos le = rw e (omega arith, omega arith, omega arith)
cluster_sizes s n (inr (inr (inl e))) pos le = rw e (omega arith, omega arith, omega arith)
cluster_sizes s n (inr (inr (inr e))) pos le = rw e (omega arith, omega arith, omega arith)

check_bpb-Mounts :
    (device : BlockDevice) (partition_start block_size : ℕ) (bpb : BiosParameterBlock)
    (ebr : Fat32Ebr)
    → block_size ≤ max_block_size
    → Mounts (check_bpb device partition_start block_size bpb ebr)
unfolding check_bpb
check_bpb-Mounts device partition_start block_size bpb ebr le =
    guard-Mounts (contains valid_sector_sizes bpb.bytes_per_sector) _ _ (λ a.
      guard-Mounts
        (not (
          bpb.sectors_per_cluster == 0
          || ltb 128 bpb.sectors_per_cluster
          || not (contains powers_of_two bpb.sectors_per_cluster)))
        _ _
        (λ b. guard-Mounts (not (bpb.num_fats == 0 || ltb 2 bpb.num_fats)) _ _ (λ c.
          guard-Mounts (not (bpb.reserved_sectors == 0)) _ _ (λ d.
            let sizes = sector_sizes bpb.bytes_per_sector a in
            let (pos, few, power) = cluster_sectors bpb.sectors_per_cluster b in
            let (positive, whole, bounded) =
              cluster_sizes bpb.sectors_per_cluster bpb.bytes_per_sector sizes pos few in
            mounted (of_bpb device partition_start block_size bpb ebr) (record {
              sector = sizes;
              power = power;
              some_sectors = pos;
              positive = positive;
              whole = whole;
              bounded = bounded;
              behind_boot = ground (arith, d);
              typed = refl;
              blocks = le;
            })))))

-- Whatever the device answers: `new` gives an error, or a file system with sectors of 512, 1024, 2048
-- or 4096 bytes, with a power of two of them in a cluster, with clusters that are multiples of 512
-- bytes and of at most 524288 bytes, a table behind the boot sector, and the type that the count of
-- clusters calls for.
pub new_fat-Mounts :
    (device : BlockDevice) (partition_start : ℕ) → Mounts (new_fat device partition_start)
unfolding new_fat
new_fat-Mounts device partition_start =
    checked (device.read_block partition_start (min device.block_size max_block_size))
  where
    checked :
        (r : Fallible BlockError (List ℕ))
        → Mounts (
            map_err (λ _. FatError.read_error) r >>= λ buffer.
            check_bpb device partition_start
              (min device.block_size max_block_size)
              (bpb_at (byte buffer))
              (ebr_at (byte buffer)))
    checked (err e) = refused FatError.read_error
    checked (ok buffer) =
        check_bpb-Mounts device partition_start (min device.block_size max_block_size)
          (bpb_at (byte buffer)) (ebr_at (byte buffer)) (omega arith)
