-- ===== src/FileSystem/Directory.antt =====
-- src/efi/protocols/simple_file_system.rs: reads, of directories too, and what is told of a file. The
-- sizes of the two structures of the `r_efi` library are parameters. A name is the bytes of its UTF-8
-- form, as the source counts it.
use crab_efi.Prelude.{
  ℕ, ◌+◌, ◌*◌, Bool, Option, none, some, List, [], ◌∷◌, ◌++◌, ltb, if◌then◌else◌, length,
}
use crab_efi.Disk.{Fallible, ok, ◌>>=◌}
use crab_efi.Status.{
  Status, success, invalid_parameter, not_ready, unsupported, device_error, buffer_too_small,
}
use crab_efi.Fat.Cluster.{Fault}
use crab_efi.Fat.Directory.{
  DirectoryEntry, short_name, is_directory, get_directory_entry_at_position,
}
use crab_efi.Fat.File.{is_separator}
use crab_efi.FileSystem.{FileHandle, FilesystemState, FileSystem, open_handle, with_handle}
use crab_efi.FileSystem.Calls.{mounted, read_regular, Reply}

-- What `EFI_FILE_INFO` holds behind its size.
pub record Info : Type 0 where
  pub file_size : ℕ
  pub in_directory : Bool
  pub name : List ℕ

-- The status, what `*buffer_size` holds, and what is written into the buffer.
pub record Told (A : Type 0) : Type 0 where
  pub state : FileSystem
  pub status : Status
  pub size : ℕ
  pub info : Option A

abbrev pub tell_none : {A : Type 0} → FileSystem → Status → ℕ → Told A
tell_none s status size = record { state = s; status = status; size = size; info = none }

-- A structure of that size, where the buffer has room for it.
abbrev pub tell : {A : Type 0} → FileSystem → FileSystem → A → ℕ → ℕ → Bool → Told A
tell s after info required_size size buffer_is_null =
    if ltb size required_size
    then tell_none s buffer_too_small required_size
    else if buffer_is_null
    then tell_none s invalid_parameter size
    else record { state = after; status = success; size = required_size; info = some info }

-- The last part of a path; the second argument is the part so far.
abbrev pub last_part : List ℕ → List ℕ → List ℕ
last_part [] part = part
last_part (c ∷ cs) part =
    let next = last_part cs [] in
    let longer = last_part cs (part ++ c ∷ []) in if is_separator c then next else longer

abbrev pub info_of_entry : DirectoryEntry → Info
info_of_entry e = record {
  file_size = e.file_size;
  in_directory = is_directory e;
  name = short_name e;
}

pub data InfoType : Type 0 where
  file_info file_system_info other_info : InfoType

-- What is written of the file system: its block size.
pub data FileInfo : Type 0 where
  of_file : Info → FileInfo
  of_system : ℕ → FileInfo

abbrev pub system_label : List ℕ
system_label = b'E' ∷ b'F' ∷ b'I' ∷ []

-- A read gives bytes of a file, or an entry of a directory.
pub data Read : Type 0 where
  refused : FileSystem → Status → ℕ → Read
  of_bytes : Reply → Read
  of_entry : Told Info → Read

module _ (info_size system_info_size : ℕ) where
  abbrev pub required : ℕ → List ℕ → ℕ
  required struct_size name = struct_size + (length name + 1) * 2

  abbrev pub after_entry :
      FileSystem → ℕ → FileHandle → ℕ → Bool → Option (Option (Option DirectoryEntry)) → Told Info
  after_entry s this h size buffer_is_null (some (some (some e))) =
      tell s (with_handle s this (record h { position = h.position + 1 })) (info_of_entry e)
        (required info_size (short_name e)) size buffer_is_null
  after_entry s this h size buffer_is_null (some (some none)) = tell_none s success 0
  after_entry s this h size buffer_is_null (some none) = tell_none s device_error size
  after_entry s this h size buffer_is_null none = tell_none s device_error size

  unfoldable pub read_directory :
      ℕ
      → FileSystem
      → ℕ
      → FileHandle
      → ℕ
      → Bool
      → Option FilesystemState
      → Fallible Fault (Told Info)
  read_directory fuel s this h size buffer_is_null none = ok (tell_none s not_ready size)
  read_directory fuel s this h size buffer_is_null (some f) =
      mounted s.block_device f.partition_start
        (λ fat. get_directory_entry_at_position fuel fat h.first_cluster h.position)
      >>= λ found. ok (after_entry s this h size buffer_is_null found)

  abbrev pub read_handle : ℕ → FileSystem → ℕ → ℕ → Bool → Option FileHandle → Fallible Fault Read
  read_handle fuel s this size buffer_is_null none = ok (refused s invalid_parameter size)
  read_handle fuel s this size buffer_is_null (some h) =
      if h.is_directory
      then (read_directory fuel s this h size buffer_is_null s.filesystem >>= λ t. ok (of_entry t))
      else (read_regular s this h size buffer_is_null >>= λ r. ok (of_bytes r))

  -- The first flag is whether `this` or `buffer_size` is null.
  unfoldable pub file_read : ℕ → FileSystem → Bool → ℕ → ℕ → Bool → Fallible Fault Read
  file_read fuel s any_null this size buffer_is_null =
      if any_null
      then ok (refused s invalid_parameter size)
      else read_handle fuel s this size buffer_is_null (open_handle s this)

  abbrev pub system_info : FileSystem → ℕ → Bool → Option FilesystemState → Told FileInfo
  system_info s size buffer_is_null filesystem =
      if ltb size (required system_info_size system_label)
      then tell_none s buffer_too_small (required system_info_size system_label)
      else if buffer_is_null
      then tell_none s invalid_parameter size
      else elim filesystem [
        | none ↦ tell_none s not_ready size
        | some f ↦ record {
          state = s;
          status = success;
          size = required system_info_size system_label;
          info = some (of_system f.device_block_size);
        }
      ]

  abbrev pub info_of_handle : FileSystem → InfoType → ℕ → Bool → Option FileHandle → Told FileInfo
  info_of_handle s info_type size buffer_is_null none = tell_none s invalid_parameter size
  info_of_handle s other_info size buffer_is_null (some h) = tell_none s unsupported size
  info_of_handle s file_system_info size buffer_is_null (some h) =
      system_info s size buffer_is_null s.filesystem
  info_of_handle s file_info size buffer_is_null (some h) =
      let name = last_part h.path [] in
      tell s s
        (of_file (record { file_size = h.file_size; in_directory = h.is_directory; name = name }))
        (required info_size name) size buffer_is_null

  unfoldable pub file_get_info : FileSystem → Bool → ℕ → InfoType → ℕ → Bool → Told FileInfo
  file_get_info s any_null this info_type size buffer_is_null =
      if any_null
      then tell_none s invalid_parameter size
      else info_of_handle s info_type size buffer_is_null (open_handle s this)

-- `file_delete`, `file_write`, `file_set_info` and the four calls with a token.
abbrev pub file_unsupported : FileSystem → FileSystem × Status
file_unsupported s = (s, unsupported)

abbrev pub file_flush : FileSystem → FileSystem × Status
file_flush s = (s, success)
