-- ===== src/Fat/File.antt =====
-- src/fs/fat.rs: `find_file`, `read_file` and `read_file_all`.
pub mod Reading
pub mod OnDisk
use crab_efi.Prelude.{
  ℕ, zero, suc, ◌+◌, ◌-◌, ◌*◌, ◌/◌, ◌%◌, Bool, true, false, not, ◌&&◌, ◌||◌, Option, none, some,
  List, [], ◌∷◌, ◌++◌, ◌==◌, leb, ltb, if◌then◌else◌, length, min, u32_mod,
}
use crab_efi.Bytes.{byte, bytes_at}
use crab_efi.Disk.{Fallible, ok, err, ◌>>=◌, ◌>>◌, guard}
use crab_efi.Fat.{FatFilesystem, FatType, FatError, cluster_bytes}
use crab_efi.Fat.Chain.{next_cluster}
use crab_efi.Fat.Cluster.{Fault, lift, read_cluster}
use crab_efi.Fat.Directory.{DirectoryEntry, is_directory, first_cluster, find_in_directory}

-- `/` and `\`
abbrev pub is_separator : ℕ → Bool
is_separator c = c == 0x2F || c == 0x5C

-- The parts of a path that are not empty: so the separators that `find_file` trims at first make no
-- difference. The second argument is the part that is being read.
unfoldable pub split_path : List ℕ → List ℕ → List (List ℕ)
split_path [] [] = []
split_path [] (b ∷ bs) = (b ∷ bs) ∷ []
split_path (c ∷ cs) part =
    let longer = split_path cs (part ++ (c ∷ [])) in
    let next = split_path cs [] in
    if is_separator c then (if length part == 0 then next else part ∷ next) else longer

-- The loop over the parts.
unfoldable pub find_parts : ℕ → FatFilesystem → ℕ → List (List ℕ) → Fallible Fault DirectoryEntry
find_parts fuel fs cluster [] = err (Fault.error FatError.not_found)
find_parts fuel fs cluster (part ∷ []) = find_in_directory fuel fs cluster part
find_parts fuel fs cluster (part ∷ next ∷ parts) =
    let rest : DirectoryEntry → Fallible Fault DirectoryEntry =
      λ entry. find_parts fuel fs (first_cluster entry) (next ∷ parts) in
    find_in_directory fuel fs cluster part >>= λ entry.
    (guard (is_directory entry) (Fault.error FatError.not_a_directory) >> rest entry)

abbrev pub first_directory : FatFilesystem → ℕ
first_directory fs = elim fs.fat_type [ FatType.fat32 ↦ fs.root_cluster | _ ↦ 0 ]

-- The parts are collected in a vector of this capacity.
abbrev pub max_parts : ℕ
max_parts = 16

-- A part that finds the vector full is a panic.
unfoldable pub find_file : ℕ → FatFilesystem → List ℕ → Fallible Fault DirectoryEntry
find_file fuel fs path =
    let parts = split_path path [] in
    if ltb max_parts (length parts)
    then err Fault.panic
    else find_parts fuel fs (first_directory fs) parts

-- The bytes of a file that are read, in the order of the reads.
abbrev pub Bytes : Type 0
Bytes = Fallible Fault (List ℕ)

-- `Some(next) => cluster = next`, or a return of the bytes that were read.
abbrev pub or_done : (ℕ → Bytes) → List ℕ → Option ℕ → Bytes
or_done next read none = ok read
or_done next read (some cluster) = next cluster

module _ (fs : FatFilesystem) where
  -- The buffer of a cluster has 65536 bytes: a longer slice of it panics.
  abbrev pub read_buffered : ℕ → Bytes
  read_buffered cluster =
      guard (leb (cluster_bytes fs) 65536) Fault.panic >> read_cluster fs (cluster_bytes fs) cluster

  -- The last cluster, where bytes are missing.
  unfoldable pub read_last : ℕ → List ℕ → ℕ → Bytes
  read_last bytes_to_read read cluster =
      let remaining = bytes_to_read - length read in
      if ltb (length read) bytes_to_read
      then (read_buffered cluster >>= λ buffer. ok (read ++ bytes_at (byte buffer) 0 remaining))
      else ok read

  -- So many whole clusters, then the last one.
  unfoldable pub read_full : ℕ → ℕ → List ℕ → ℕ → Bytes
  read_full zero bytes_to_read read cluster = read_last bytes_to_read read cluster
  read_full (suc n) bytes_to_read read cluster =
      let rest : List ℕ → ℕ → Bytes = λ more c. read_full n bytes_to_read more c in
      read_cluster fs (cluster_bytes fs) cluster >>= λ buffer.
      (lift (next_cluster fs cluster) >>= or_done (rest (read ++ buffer)) (read ++ buffer))

  abbrev pub full_clusters : ℕ → List ℕ → ℕ
  full_clusters bytes_to_read read = (bytes_to_read - length read) / cluster_bytes fs

  abbrev pub from_cluster : ℕ → List ℕ → ℕ → Bytes
  from_cluster bytes_to_read read cluster =
      read_full (full_clusters bytes_to_read read) bytes_to_read read cluster

  -- The first cluster, if it is not read whole.
  unfoldable pub read_first : ℕ → ℕ → ℕ → Bytes
  read_first cluster_offset bytes_to_read cluster =
      let copy_len = min bytes_to_read (cluster_bytes fs - cluster_offset) in
      if ltb 0 cluster_offset || ltb bytes_to_read (cluster_bytes fs)
      then (read_buffered cluster >>= λ buffer.
          let read = bytes_at (byte buffer) cluster_offset copy_len in
          lift (next_cluster fs cluster) >>= or_done (from_cluster bytes_to_read read) read)
      else from_cluster bytes_to_read [] cluster

  -- So many clusters are skipped.
  unfoldable pub skip : ℕ → ℕ → (ℕ → Bytes) → Bytes
  skip zero cluster next = next cluster
  skip (suc n) cluster next = lift (next_cluster fs cluster) >>= or_done (λ c. skip n c next) []

  -- The bytes that `read_file` puts into a buffer of the length; their number is what it returns.
  -- `buffer.len() as u32` cuts the length to 32 bits.
  unfoldable pub read_file : DirectoryEntry → ℕ → ℕ → Bytes
  read_file entry offset len =
      let bytes_to_read = min (len % u32_mod) (entry.file_size - offset) in
      if is_directory entry
      then err (Fault.error FatError.not_a_file)
      else if leb entry.file_size offset
      then ok []
      else skip (offset / cluster_bytes fs) (first_cluster entry)
          (read_first (offset % cluster_bytes fs) bytes_to_read)

  unfoldable pub read_file_all : ℕ → List ℕ → ℕ → Bytes
  read_file_all fuel path len = find_file fuel fs path >>= λ entry.
      (guard (leb entry.file_size len) (Fault.error FatError.buffer_too_small)
        >> read_file entry 0 len)

  -- `FatFilesystem::file_size`
  unfoldable pub file_size_of : ℕ → List ℕ → Fallible Fault ℕ
  file_size_of fuel path = find_file fuel fs path >>= λ entry. ok entry.file_size
