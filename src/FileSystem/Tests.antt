-- ===== src/FileSystem/Tests.antt =====
-- A file of the sample disk, and the theorems on the Simple File System protocol at it.
use crab_efi.Prelude.{ℕ, true, false, some, List, [], ◌∷◌, ◌++◌, ◌≡◌, refl, take, replicate, arith}
use crab_efi.Disk.{ok}
use crab_efi.Status.{success}
use crab_efi.Fat.{new_fat, check_bpb, contains}
use crab_efi.Fat.Directory.{
  DirectoryEntry, find_in_directory, visit_directory, visit_root, visit_block, visit, is_end,
  dir_entry_at, is_free, is_lfn, is_volume_id, matches_name, short_name, push_name, same_letters,
}
use crab_efi.Fat.File.{find_file, find_parts, split_path}
use crab_efi.Fat.File.OnDisk.{bytes_of}
use crab_efi.Fat.Sample.{
  device, small_fat, disk_bytes, small_fat-Readable, small_chain, new_fat_small,
}
use crab_efi.FileSystem.{
  FileHandle, FileSystem, new_file_system, init, sfs_open_volume, free_handle, empty_handle,
}
use crab_efi.FileSystem.Path.{build_full_path, to_utf8}
use crab_efi.FileSystem.Calls.{file_open}
use crab_efi.FileSystem.Sequence.{Op, seek, read, cursor, run}
use crab_efi.FileSystem.Opening.{Found, open-run}

-- Below a directory `EFI`.
builds_path :
    build_full_path (b'E' ∷ b'F' ∷ b'I' ∷ []) (b'B' ∷ 0x5C ∷ b'x' ∷ [])
    ≡ b'E' ∷ b'F' ∷ b'I' ∷ b'/' ∷ b'B' ∷ b'/' ∷ b'x' ∷ []
unfolding build_full_path
builds_path = refl

-- The root directory by its own name has the empty path.
builds_root : build_full_path [] (0x5C ∷ []) ≡ []
unfolding build_full_path
builds_root = refl

abbrev root : FileHandle
root = record {
  in_use = true;
  path = [];
  position = 0;
  file_size = 0;
  first_cluster = 0;
  is_directory = true;
}

abbrev ready : FileSystem
ready = record {
  handles = root ∷ replicate 31 empty_handle;
  filesystem =
      some
        (record { partition_start = 10; fat_type = 16; device_block_size = 512; root_cluster = 0 });
  block_device = some device;
}

-- What `init` and `sfs_open_volume` lead to.
starts_ready : (sfs_open_volume (init new_file_system device 10).0 false).0 ≡ ready
unfolding init sfs_open_volume free_handle new_fat check_bpb contains
starts_ready = refl

abbrev entry_b : DirectoryEntry
entry_b = record {
  name = 0x42 ∷ replicate 7 0x20;
  ext = replicate 3 0x20;
  attr = 0;
  first_cluster_hi = 0;
  first_cluster_lo = 2;
  file_size = 700;
}

finds_b : find_file 1 small_fat (b'B' ∷ []) ≡ ok entry_b
unfolding find_file find_parts split_path find_in_directory visit_directory visit_root visit_block
    visit is_end dir_entry_at is_free is_lfn is_volume_id matches_name short_name push_name
    same_letters
finds_b = refl

abbrev bytes_b : List ℕ
bytes_b = bytes_of small_fat disk_bytes 2 ++ bytes_of small_fat disk_bytes 3

abbrev name_b : List ℕ
name_b = b'B' ∷ 0 ∷ []

b_Found : Found 1 ready root name_b entry_b bytes_b
unfolding build_full_path to_utf8
b_Found = record {
  mount = record { partition_start = 10; fat_type = 16; device_block_size = 512; root_cluster = 0 };
  device = device;
  fat = small_fat;
  content = disk_bytes;
  mount_known = refl;
  device_known = refl;
  fat_known = new_fat_small;
  found = finds_b;
  readable = small_fat-Readable;
  chain = small_chain;
  regular = refl;
  cluster_small = omega arith;
  size_small = omega arith;
  enough = omega arith;
}

abbrev some_ops : List Op
some_ops = read 510 ∷ read 10 ∷ seek 690 ∷ read 100 ∷ []

slot_1 : free_handle ready.handles ≡ some 1
unfolding free_handle
slot_1 = refl

open-run_example :
    (s' : FileSystem) × (file_open 1 ready false 0 name_b 1 ≡ ok (s', success, some 1))
    × (run 80 36 1 1 s' some_ops ≡ ok (cursor (take 700 bytes_b) 0 some_ops))
open-run_example =
    open-run 80 36 1 ready 0 root name_b entry_b bytes_b some_ops {i = 1} refl b_Found slot_1
