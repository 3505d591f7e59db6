-- ===== src/Fat/Tests.antt =====
-- The theorems on the FAT file system at a small one.
use crab_efi.Prelude.{
  ◌%◌, [], ◌∷◌, ◌++◌, ◌≡◌, refl, replicate, arith, take, drop, min, u32_mod, ◌-◌,
}
use crab_efi.Disk.{ok}
use crab_efi.Fat.{FatType, new_fat, cluster_to_device_block}
use crab_efi.Fat.Geometry.{Mounts, new_fat-Mounts}
use crab_efi.Fat.Chain.{next_cluster, two_bytes, link_of, link}
use crab_efi.Fat.Chain.Entry.{next_cluster-table_entry, table_entry}
use crab_efi.Fat.Cluster.{read_cluster, copy_blocks}
use crab_efi.Fat.Cluster.Content.{DataCluster}
use crab_efi.Fat.Directory.{DirectoryEntry, find_in_directory, or_not_found}
use crab_efi.Fat.Directory.Listing.{first_named, listing, entries_of}
use crab_efi.Fat.Directory.Finding.{find_in_directory-listing}
use crab_efi.Fat.File.OnDisk.{bytes_of, read_file-Linked}
use crab_efi.Fat.Sample.{
  block_2, block_3, disk_bytes, device, small_fat, device-Holds, small_fat-Readable, small_chain,
}
use crab_efi.Fat.File.{read_file}
use crab_efi.Fat.File.Reading.{Chained}

new_fat-Mounts_example : Mounts (new_fat device 0)
new_fat-Mounts_example = new_fat-Mounts device 0

next_cluster-table_entry_example :
    next_cluster small_fat 2 ≡ link_of FatType.fat16 2 (table_entry small_fat disk_bytes 2)
next_cluster-table_entry_example =
    next_cluster-table_entry small_fat disk_bytes 2 device-Holds (omega arith) (omega arith)
      (omega arith)

cluster_2 : DataCluster small_fat 2
cluster_2 = record {
  first = omega arith;
  last = omega arith;
  sectors = omega arith;
  blocks = omega arith;
}

chain_2 : Chained small_fat 2 (block_2 ++ block_3)
unfolding read_cluster copy_blocks next_cluster two_bytes link_of link cluster_to_device_block
chain_2 = Chained.link 2 3 block_2 block_3 refl refl refl (Chained.last 3 block_3 refl refl refl)

abbrev file_2 : DirectoryEntry
file_2 = record {
  name = replicate 8 0x41;
  ext = replicate 3 0x20;
  attr = 0;
  first_cluster_hi = 0;
  first_cluster_lo = 2;
  file_size = 700;
}

read_file-Linked_example :
    read_file small_fat file_2 510 300
    ≡ ok (
        take
          (min (300 % u32_mod) (700 - 510))
          (drop 510 (bytes_of small_fat disk_bytes 2 ++ bytes_of small_fat disk_bytes 3)))
read_file-Linked_example =
    read_file-Linked small_fat disk_bytes file_2 510 300
      (bytes_of small_fat disk_bytes 2 ++ bytes_of small_fat disk_bytes 3) small_fat-Readable refl
      small_chain

find_in_directory-listing_example :
    find_in_directory 2 small_fat 2 (0x61 ∷ [])
    ≡ or_not_found (first_named (0x61 ∷ []) (listing (entries_of (block_2 ++ block_3))))
find_in_directory-listing_example =
    find_in_directory-listing small_fat 2 2 (0x61 ∷ []) (block_2 ++ block_3) (omega arith)
      (omega arith) refl refl (omega arith) chain_2
