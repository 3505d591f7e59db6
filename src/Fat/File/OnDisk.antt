-- ===== src/Fat/File/OnDisk.antt =====
-- src/fs/fat.rs: a file is read as the table and the data region on the disk say.
use crab_efi.Prelude.{
  ℕ, ◌+◌, ◌-◌, ◌/◌, ◌%◌, ◌≤◌, ◌<◌, ◌≡◌, arith, ◌∙◌, none, some, false, ◌⊎◌, List, ◌++◌, take, drop,
  min, u32_mod, u64_mod,
}
use crab_efi.Bytes.{bytes_at}
use crab_efi.Bytes.Agree.{length-bytes_at}
use crab_efi.Disk.{Holds, ok}
use crab_efi.Fat.{FatFilesystem, cluster_bytes}
use crab_efi.Fat.Chain.{link_of, entry_byte_offset, next_cluster}
use crab_efi.Fat.Chain.Entry.{table_entry, next_cluster-table_entry}
use crab_efi.Fat.Cluster.{read_cluster}
use crab_efi.Fat.Cluster.Content.{DataCluster, cluster_address, read_cluster-content}
use crab_efi.Fat.Directory.{DirectoryEntry, is_directory, first_cluster}
use crab_efi.Fat.File.{read_file}
use crab_efi.Fat.File.Reading.{Chained, last, link, read_file-Chained}

abbrev pub bytes_of : FatFilesystem → (ℕ → ℕ) → ℕ → List ℕ
bytes_of fs content cluster = bytes_at content (cluster_address fs cluster) (cluster_bytes fs)

-- A cluster of the data region whose entry in the table can be read.
pub record Listed (fs : FatFilesystem) (cluster : ℕ) : Type 0 where
  pub data_cluster : DataCluster fs cluster
  pub entry_block :
      fs.partition_start + entry_byte_offset fs cluster / fs.device_block_size + 1 < u64_mod

-- The bytes of the clusters that the table on the disk links, from one on.
pub data Linked (fs : FatFilesystem) (content : ℕ → ℕ) : ℕ → List ℕ → Type 0 where
  end_of_chain :
      (c : ℕ)
      → Listed fs c
      → link_of fs.fat_type c (table_entry fs content c) ≡ ok none
      → Linked fs content c (bytes_of fs content c)
  linked :
      (c d : ℕ) (bytes : List ℕ)
      → Listed fs c
      → link_of fs.fat_type c (table_entry fs content c) ≡ ok (some d)
      → Linked fs content d bytes
      → Linked fs content c (bytes_of fs content c ++ bytes)

-- A geometry for which clusters are read from the place where they lie.
pub record Readable (fs : FatFilesystem) (content : ℕ → ℕ) : Type 0 where
  pub disk : Holds fs.device fs.device_block_size content
  pub four : 4 ≤ fs.device_block_size
  pub positive : 0 < cluster_bytes fs
  pub small : cluster_bytes fs ≤ 65536
  pub sizes :
      (cluster_bytes fs ≤ fs.device_block_size) ⊎ (fs.bytes_per_sector ≡ fs.device_block_size)

module _ (fs : FatFilesystem) (content : ℕ → ℕ) (r : Readable fs content) where
  reads : (c : ℕ) → Listed fs c → read_cluster fs (cluster_bytes fs) c ≡ ok (bytes_of fs content c)
  reads c l =
      read_cluster-content fs content c (cluster_bytes fs) r.disk r.positive (omega (arith, r.four))
        l.data_cluster r.sizes (omega arith)

  links :
      (c : ℕ) → Listed fs c → next_cluster fs c ≡ link_of fs.fat_type c (table_entry fs content c)
  links c l = next_cluster-table_entry fs content c r.disk r.four l.data_cluster.first l.entry_block

  Linked-Chained : (c : ℕ) (bytes : List ℕ) → Linked fs content c bytes → Chained fs c bytes
  Linked-Chained c bytes (end_of_chain _ l stop) =
      last c (bytes_of fs content c) (reads c l)
        (length-bytes_at content (cluster_bytes fs) (cluster_address fs c)) (links c l ∙ stop)
  Linked-Chained c bytes (linked _ d rest l next chain) =
      link c d (bytes_of fs content c) rest (reads c l)
        (length-bytes_at content (cluster_bytes fs) (cluster_address fs c)) (links c l ∙ next)
        (Linked-Chained d rest chain)

-- On a device that answers every read with what it holds, with clusters no larger than a block or with
-- blocks that are the sectors, and no larger than 65536 bytes: `read_file` gives the bytes of the
-- clusters that the table on the disk links from the file's first one on, from the offset on, as many
-- as the buffer and the size of the file allow.
pub read_file-Linked :
    (fs : FatFilesystem) (content : ℕ → ℕ) (entry : DirectoryEntry) (offset len : ℕ)
    (bytes : List ℕ)
    → Readable fs content
    → is_directory entry ≡ false
    → Linked fs content (first_cluster entry) bytes
    → read_file fs entry offset len
      ≡ ok (take (min (len % u32_mod) (entry.file_size - offset)) (drop offset bytes))
read_file-Linked fs content entry offset len bytes r file chain =
    read_file-Chained fs entry offset len bytes r.positive r.small file
      (Linked-Chained fs content r (first_cluster entry) bytes chain)
