-- ===== src/FileSystem/Calls.antt =====
-- src/efi/protocols/simple_file_system.rs: opening, closing and reading files. A panic of the file
-- system, and a directory that is a cycle, which the source searches for ever, are results of their
-- own; every other failure of the file system is a status.
use crab_efi.Prelude.{
  ℕ, ◌+◌, ◌-◌, ◌/◌, ◌%◌, ◌^◌, Bool, true, false, not, ◌&&◌, Option, none, some, List, [], ◌==◌, leb,
  ltb, if◌then◌else◌, length, min, replicate, u64_max, u32_mod,
}
use crab_efi.Disk.{BlockDevice, Fallible, ok, err, ◌>>=◌}
use crab_efi.Status.{
  Status, success, invalid_parameter, out_of_resources, not_ready, not_found, unsupported,
  device_error,
}
use crab_efi.Fat.{FatFilesystem, new_fat}
use crab_efi.Fat.Cluster.{Fault, lift}
use crab_efi.Fat.Directory.{DirectoryEntry, first_cluster, is_directory}
use crab_efi.Fat.File.{find_file, read_file}
use crab_efi.FileSystem.{
  FileHandle, FilesystemState, FileSystem, Opened, free_handle, open_handle, with_handle,
}
use crab_efi.FileSystem.Path.{utf16_to_utf8, build_full_path}

-- `FILE_MODE_READ`
abbrev pub file_mode_read : ℕ
file_mode_read = 1

-- `map_err(|_| ())`: an error of the file system is none.
abbrev pub or_failed : {A : Type 0} → Fallible Fault A → Fallible Fault (Option A)
or_failed (ok a) = ok (some a)
or_failed (err (Fault.error failure)) = ok none
or_failed (err Fault.panic) = err Fault.panic
or_failed (err Fault.out_of_fuel) = err Fault.out_of_fuel

-- `with_block_device_mut`, with the mount: the first Option is whether there is a device.
abbrev pub mounted :
    {A : Type 0}
    → Option BlockDevice
    → ℕ
    → (FatFilesystem → Fallible Fault A)
    → Fallible Fault (Option (Option A))
mounted none partition_start use_fat = ok none
mounted (some device) partition_start use_fat =
    or_failed (lift (new_fat device partition_start) >>= use_fat) >>= λ a. ok (some a)

-- The handle that `file_open` fills.
abbrev pub opened_file : List ℕ → DirectoryEntry → FileHandle
opened_file path entry = record {
  in_use = true;
  path = path;
  position = 0;
  file_size = entry.file_size;
  first_cluster = first_cluster entry;
  is_directory = is_directory entry;
}

abbrev pub open_found : FileSystem → List ℕ → DirectoryEntry → Option ℕ → Opened
open_found s path entry none = (s, out_of_resources, none)
open_found s path entry (some i) = (with_handle s i (opened_file path entry), success, some i)

abbrev pub open_entry : FileSystem → List ℕ → Option (Option DirectoryEntry) → Opened
open_entry s path none = (s, not_ready, none)
open_entry s path (some none) = (s, not_found, none)
open_entry s path (some (some entry)) = open_found s path entry (free_handle s.handles)

abbrev pub open_path : ℕ → FileSystem → List ℕ → Option FilesystemState → Fallible Fault Opened
open_path fuel s path none = ok (s, not_ready, none)
open_path fuel s path (some f) =
    mounted s.block_device f.partition_start (λ fat. find_file fuel fat path) >>= λ found.
    ok (open_entry s path found)

abbrev pub open_under : ℕ → FileSystem → List ℕ → Option FileHandle → Fallible Fault Opened
open_under fuel s name none = ok (s, invalid_parameter, none)
open_under fuel s name (some parent) =
    open_path fuel s (build_full_path parent.path (utf16_to_utf8 name)) s.filesystem

-- The flag is whether one of the pointers is null. The fuel is for the search of directories.
unfoldable pub file_open : ℕ → FileSystem → Bool → ℕ → List ℕ → ℕ → Fallible Fault Opened
file_open fuel s any_null this file_name open_mode =
    if any_null
    then ok (s, invalid_parameter, none)
    else if not (open_mode == file_mode_read)
    then ok (s, unsupported, none)
    else open_under fuel s file_name (open_handle s this)

abbrev pub close_found : FileSystem → ℕ → Option FileHandle → FileSystem × Status
close_found s this none = (s, invalid_parameter)
close_found s this (some h) =
    (with_handle s this (record h { in_use = false; path = []; position = 0 }), success)

unfoldable pub file_close : FileSystem → ℕ → FileSystem × Status
file_close s this = close_found s this (open_handle s this)

-- What a read leaves: the status, what `*buffer_size` holds, and the bytes in the buffer.
pub record Reply : Type 0 where
  pub state : FileSystem
  pub status : Status
  pub size : ℕ
  pub bytes : List ℕ

abbrev pub refuse : FileSystem → Status → ℕ → Reply
refuse s status size = record { state = s; status = status; size = size; bytes = [] }

-- `create_file_entry`
abbrev pub create_file_entry : ℕ → ℕ → DirectoryEntry
create_file_entry first_cluster file_size = record {
  name = replicate 8 0;
  ext = replicate 3 0;
  attr = 0;
  first_cluster_hi = first_cluster / 2 ^ 16 % 2 ^ 16;
  first_cluster_lo = first_cluster % 2 ^ 16;
  file_size = file_size % u32_mod;
}

abbrev pub read_done : FileSystem → ℕ → FileHandle → ℕ → Option (Option (List ℕ)) → Reply
read_done s this h size none = refuse s not_ready size
read_done s this h size (some none) = refuse s device_error size
read_done s this h size (some (some bytes)) = record {
  state = with_handle s this (record h { position = h.position + length bytes });
  status = success;
  size = length bytes;
  bytes = bytes;
}

abbrev pub read_mounted :
    FileSystem → ℕ → FileHandle → ℕ → ℕ → Option FilesystemState → Fallible Fault Reply
read_mounted s this h size bytes_to_read none = ok (refuse s not_ready size)
read_mounted s this h size bytes_to_read (some f) =
    let entry = create_file_entry h.first_cluster (h.file_size % u32_mod) in
    mounted s.block_device f.partition_start
      (λ fat. read_file fat entry (h.position % u32_mod) bytes_to_read)
    >>= λ result. ok (read_done s this h size result)

-- `file_read` of a file that is not a directory.
abbrev pub read_regular : FileSystem → ℕ → FileHandle → ℕ → Bool → Fallible Fault Reply
read_regular s this h size buffer_is_null =
    if buffer_is_null && ltb 0 size
    then ok (refuse s invalid_parameter size)
    else if leb h.file_size h.position
    then ok (refuse s success 0)
    else if min size (h.file_size - h.position) == 0
    then ok (refuse s success 0)
    else read_mounted s this h size (min size (h.file_size - h.position)) s.filesystem

-- The status and the position that is written.
abbrev pub get_position_of : Option FileHandle → Status × Option ℕ
get_position_of none = (invalid_parameter, none)
get_position_of (some h) =
    if h.is_directory then (unsupported, none) else (success, some h.position)

unfoldable pub file_get_position : FileSystem → Bool → ℕ → Status × Option ℕ
file_get_position s any_null this =
    if any_null then (invalid_parameter, none) else get_position_of (open_handle s this)

abbrev pub set_position_of : FileSystem → ℕ → ℕ → Option FileHandle → FileSystem × Status
set_position_of s this position none = (s, invalid_parameter)
set_position_of s this position (some h) =
    if h.is_directory
    then if position == 0
      then (with_handle s this (record h { position = 0 }), success)
      else (s, unsupported)
    else if position == u64_max
    then (with_handle s this (record h { position = h.file_size }), success)
    else (with_handle s this (record h { position = position }), success)

unfoldable pub file_set_position : FileSystem → ℕ → ℕ → FileSystem × Status
file_set_position s this position = set_position_of s this position (open_handle s this)
