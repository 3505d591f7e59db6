-- ===== src/Fat/Cluster.antt =====
-- src/fs/fat.rs: `read_cluster`.
pub mod Content
use crab_efi.Prelude.{
  ℕ, zero, suc, ◌+◌, ◌-◌, Option, none, some, leb, ltb, if◌then◌else◌, min, add64, List, [], ◌++◌,
  ◌*◌,
}
use crab_efi.Bytes.{byte, bytes_at}
use crab_efi.Disk.{Fallible, ok, err, map_err, ◌>>=◌}
use crab_efi.Fat.{FatFilesystem, FatError, cluster_to_device_block, cluster_bytes, div_ceil}
use crab_efi.Fat.Chain.{read_device}

-- What ends a call: an error, a panic of a slice out of range, or a loop that has used up its fuel.
pub data Fault : Type 0 where
  error : FatError → Fault
  panic out_of_fuel : Fault

abbrev pub lift : {A : Type 0} → Fallible FatError A → Fallible Fault A
lift = map_err Fault.error

-- The bytes of a cluster that is no larger than a block, block by block: those that are copied by
-- now, and so on.
unfoldable pub copy_blocks : FatFilesystem → ℕ → List ℕ → ℕ → ℕ → ℕ → Fallible Fault (List ℕ)
copy_blocks fs zero copied bytes_copied block offset = err Fault.out_of_fuel
copy_blocks fs (suc fuel) copied bytes_copied block offset =
    let cluster_size = cluster_bytes fs in
    let bytes_to_copy = min (fs.device_block_size - offset) (cluster_size - bytes_copied) in
    let rest : List ℕ → Fallible Fault (List ℕ) = λ temp_buffer.
      copy_blocks fs fuel (copied ++ bytes_at (byte temp_buffer) offset bytes_to_copy)
        (bytes_copied + bytes_to_copy) (add64 block 1) 0 in
    if ltb bytes_copied cluster_size then (lift (read_device fs block) >>= rest) else ok copied

-- The blocks of a larger cluster, so many of them from the i-th on.
unfoldable pub read_blocks : FatFilesystem → ℕ → ℕ → ℕ → Fallible Fault (List ℕ)
read_blocks fs zero block i = ok []
read_blocks fs (suc n) block i =
    let buf_offset = i * fs.device_block_size in
    let read_size = min fs.device_block_size (cluster_bytes fs - buf_offset) in
    let rest = read_blocks fs n block (i + 1) in
    lift (map_err (λ _. FatError.read_error) (fs.device.read_block (add64 block i) read_size))
    >>= λ bytes. rest >>= λ more. ok (bytes_at (byte bytes) 0 read_size ++ more)

abbrev pub read_at : FatFilesystem → Option (ℕ × ℕ) → Fallible Fault (List ℕ)
read_at fs none = err (Fault.error FatError.invalid_cluster)
read_at fs (some (block, offset)) =
    if leb (cluster_bytes fs) fs.device_block_size
    then copy_blocks fs 3 [] 0 block offset
    else read_blocks fs (div_ceil (cluster_bytes fs) fs.device_block_size) block 0

-- The bytes that are in the buffer then, where it has the length.
unfoldable pub read_cluster : FatFilesystem → ℕ → ℕ → Fallible Fault (List ℕ)
read_cluster fs len cluster =
    if ltb len (cluster_bytes fs)
    then err (Fault.error FatError.buffer_too_small)
    else read_at fs (cluster_to_device_block fs cluster)
