-- ===== src/FileSystem.antt =====
-- src/efi/protocols/simple_file_system.rs: the Simple File System protocol and its files. A pointer
-- to a file's protocol is the number of its slot, and a pointer elsewhere a number that has no slot.
-- A pointer that may be null is a flag or an Option.
pub mod Path
pub mod Calls
pub mod Directory
pub mod Cursor
pub mod Sequence
pub mod Opening
mod Tests
use crab_efi.Prelude.{
  ℕ, zero, suc, ◌+◌, Bool, true, false, Option, none, some, List, [], ◌∷◌, if◌then◌else◌, replicate,
  set, get_elem?, min,
}
use crab_efi.Disk.{BlockDevice, Fallible, ok, err}
use crab_efi.Fat.{FatFilesystem, FatType, new_fat, FatError}
use crab_efi.Fat.Cluster.{Fault}
use crab_efi.Status.{Status, success, invalid_parameter, out_of_resources, not_ready, unsupported}

abbrev pub max_path_len : ℕ
max_path_len = 256

abbrev pub max_file_handles : ℕ
max_file_handles = 32

-- The path is the bytes before its length.
pub record FileHandle : Type 0 where
  pub in_use : Bool
  pub path : List ℕ
  pub position : ℕ
  pub file_size : ℕ
  pub first_cluster : ℕ
  pub is_directory : Bool

-- `FileHandle::empty`
abbrev pub empty_handle : FileHandle
empty_handle = record {
  in_use = false;
  path = [];
  position = 0;
  file_size = 0;
  first_cluster = 0;
  is_directory = false;
}

-- The fields that are not constants.
pub record FilesystemState : Type 0 where
  pub partition_start : ℕ
  pub fat_type : ℕ
  pub device_block_size : ℕ
  pub root_cluster : ℕ

-- `FILE_HANDLES`, and the fields of `EfiState` that `init` sets.
pub record FileSystem : Type 0 where
  pub handles : List FileHandle
  pub filesystem : Option FilesystemState
  pub block_device : Option BlockDevice

abbrev pub new_file_system : FileSystem
new_file_system = record {
  handles = replicate max_file_handles empty_handle;
  filesystem = none;
  block_device = none;
}

abbrev pub type_number : FatType → ℕ
type_number FatType.fat12 = 12
type_number FatType.fat16 = 16
type_number FatType.fat32 = 32

abbrev pub init_with :
    FileSystem → BlockDevice → ℕ → Fallible FatError FatFilesystem → FileSystem × Bool
init_with s device partition_start (err failure) = (s, false)
init_with s device partition_start (ok fat) = (
  record s {
    filesystem = some (record {
      partition_start = partition_start;
      fat_type = type_number fat.fat_type;
      device_block_size = device.block_size;
      root_cluster = fat.root_cluster;
    });
    block_device = some device;
  },
  true,
)

-- `init`; false is the null pointer.
pub init : FileSystem → BlockDevice → ℕ → FileSystem × Bool
init s device partition_start = init_with s device partition_start (new_fat device partition_start)

abbrev pub next_handle : Option ℕ → Option ℕ
next_handle none = none
next_handle (some i) = some (suc i)

-- `position(|h| !h.in_use)`
pub free_handle : List FileHandle → Option ℕ
free_handle [] = none
free_handle (h ∷ hs) = let rest = free_handle hs in if h.in_use then next_handle rest else some 0

abbrev pub if_in_use : Option FileHandle → Option FileHandle
if_in_use none = none
if_in_use (some h) = if h.in_use then some h else none

-- `find_handle_index_unlocked`, and the handle there.
abbrev pub open_handle : FileSystem → ℕ → Option FileHandle
open_handle s this = if_in_use (get_elem? s.handles this)

abbrev pub with_handle : FileSystem → ℕ → FileHandle → FileSystem
with_handle s i h = record s { handles = set s.handles i h }

-- The status, and the pointer that is written.
abbrev pub Opened : Type 0
Opened = FileSystem × Status × Option ℕ

abbrev pub open_root : FileSystem → Option ℕ → Option FilesystemState → Opened
open_root s none filesystem = (s, out_of_resources, none)
open_root s (some i) none = (s, not_ready, none)
open_root s (some i) (some f) = (
  with_handle s i (record {
    in_use = true;
    path = [];
    position = 0;
    file_size = 0;
    first_cluster = f.root_cluster;
    is_directory = true;
  }),
  success,
  some i,
)

pub sfs_open_volume : FileSystem → Bool → Opened
sfs_open_volume s root_is_null =
    if root_is_null
    then (s, invalid_parameter, none)
    else open_root s (free_handle s.handles) s.filesystem
