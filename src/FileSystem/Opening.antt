-- ===== src/FileSystem/Opening.antt =====
-- src/efi/protocols/simple_file_system.rs: opening a file and what is read from it.
use crab_efi.Prelude.{
  ℕ, suc, ◌^◌, ◌<◌, ◌≤◌, Bool, false, Option, none, some, List, [], ◌∷◌, ◌≡◌, sym, ap, ◌∙◌,
  if◌then◌else◌, length, take, get_elem?-set_self, Bool-cases, Option-cases, arith, inl, inr,
}
use crab_efi.Disk.{BlockDevice, ok, ◌>>=◌}
use crab_efi.Status.{success}
use crab_efi.Fat.{FatFilesystem, new_fat}
use crab_efi.Fat.Directory.{DirectoryEntry, first_cluster, is_directory}
use crab_efi.Fat.File.{find_file}
use crab_efi.Fat.File.OnDisk.{Linked, Readable}
use crab_efi.FileSystem.{
  FileHandle, FilesystemState, FileSystem, free_handle, open_handle, with_handle, if_in_use,
  next_handle,
}
use crab_efi.FileSystem.Path.{build_full_path, utf16_to_utf8}
use crab_efi.FileSystem.Calls.{
  opened_file, open_entry, open_path, open_under, file_open, open_found,
}
use crab_efi.FileSystem.Cursor.{OnDisk, mounted_ok}
use crab_efi.FileSystem.Sequence.{Op, run, cursor, run-cursor}

-- The path that a name names below a directory.
abbrev pub path_of : FileHandle → List ℕ → List ℕ
path_of parent name = build_full_path parent.path (utf16_to_utf8 name)

-- A file that can be found from an open directory, on a mounted disk.
pub record Found (fuel : ℕ) (s : FileSystem) (parent : FileHandle) (name : List ℕ)
    (entry : DirectoryEntry) (bytes : List ℕ) : Type 0 where
  pub mount : FilesystemState
  pub device : BlockDevice
  pub fat : FatFilesystem
  pub content : ℕ → ℕ
  pub mount_known : s.filesystem ≡ some mount
  pub device_known : s.block_device ≡ some device
  pub fat_known : new_fat device mount.partition_start ≡ ok fat
  pub found : find_file fuel fat (path_of parent name) ≡ ok entry
  pub readable : Readable fat content
  pub chain : Linked fat content (first_cluster entry) bytes
  pub regular : is_directory entry ≡ false
  pub cluster_small : first_cluster entry < 2 ^ 32
  pub size_small : entry.file_size < 2 ^ 32
  pub enough : entry.file_size ≤ length bytes

free_handle-inside : (hs : List FileHandle) {i : ℕ} → free_handle hs ≡ some i → i < length hs
unfolding free_handle
free_handle-inside [] e = cc
free_handle-inside (h ∷ hs) {i = i} e =
    let choose : Bool → Option ℕ = λ b. if b then next_handle (free_handle hs) else some 0 in
    elim (Bool-cases h.in_use) [
      | inl on ↦
          let later : next_handle (free_handle hs) ≡ some i = sym (ap choose on) ∙ e in
          elim (Option-cases (free_handle hs)) [
            | inl full ↦ let no : none ≡ some i = sym (ap next_handle full) ∙ later in cc
            | inr (j, free) ↦
                let next : some (suc j) ≡ some i = sym (ap next_handle free) ∙ later in
                let at : suc j ≡ i = cc in omega (arith, at, free_handle-inside hs free)
          ]
      | inr off ↦
          let here : some 0 ≡ some i = sym (ap choose off) ∙ e in
          let at : 0 ≡ i = cc in omega (arith, at)
    ]

file_open-opened :
    (fuel : ℕ) (s : FileSystem) (this : ℕ) (parent : FileHandle) (name : List ℕ)
    (entry : DirectoryEntry) (bytes : List ℕ) {i : ℕ}
    → open_handle s this ≡ some parent
    → Found fuel s parent name entry bytes
    → free_handle s.handles ≡ some i
    → file_open fuel s false this name 1
      ≡ ok (with_handle s i (opened_file (path_of parent name) entry), success, some i)
unfolding file_open
file_open-opened fuel s this parent name entry bytes {i = i} opened f free =
    let path = path_of parent name in
    let looked_up =
      mounted_ok s.block_device f.device f.mount.partition_start f.fat
        (λ fat. find_file fuel fat path) f.device_known f.fat_known f.found in
    ap (open_under fuel s name) opened
    ∙ ap (open_path fuel s path) f.mount_known
    ∙ ap (λ r. r >>= λ found. ok (open_entry s path found)) looked_up
    ∙ ap (λ o. ok (open_found s path entry o)) free

-- On a mounted disk that answers every read with what it holds, with clusters no larger than a
-- block or with blocks that are the sectors, and no larger than 65536 bytes: opening a file that
-- the file system finds, with a free handle, succeeds, and any sequence of reads and moves in it
-- then succeeds and gives what a position gives, from 0 on, in as many bytes as the entry says of
-- the clusters that the table on the disk links from the first one on. The entry has no more bytes
-- than these.
pub open-run :
    (info_size system_info_size fuel : ℕ) (s : FileSystem) (this : ℕ) (parent : FileHandle)
    (name : List ℕ) (entry : DirectoryEntry) (bytes : List ℕ) (ops : List Op) {i : ℕ}
    → open_handle s this ≡ some parent
    → Found fuel s parent name entry bytes
    → free_handle s.handles ≡ some i
    → (s' : FileSystem) × (file_open fuel s false this name 1 ≡ ok (s', success, some i))
      × (run info_size system_info_size fuel i s' ops
          ≡ ok (cursor (take entry.file_size bytes) 0 ops))
open-run info_size system_info_size fuel s this parent name entry bytes ops {i = i} opened f free =
    let path = path_of parent name in
    let h = opened_file path entry in
    let s' = with_handle s i h in
    let at : open_handle s' i ≡ some h =
      ap if_in_use (get_elem?-set_self s.handles i h (free_handle-inside s.handles free)) in
    let disk : OnDisk s' h bytes = record {
      mount = f.mount;
      device = f.device;
      fat = f.fat;
      content = f.content;
      mount_known = f.mount_known;
      device_known = f.device_known;
      fat_known = f.fat_known;
      readable = f.readable;
      chain = f.chain;
      cluster_small = f.cluster_small;
      size_small = f.size_small;
      enough = f.enough;
    } in
    (
      s',
      file_open-opened fuel s this parent name entry bytes opened f free,
      run-cursor info_size system_info_size fuel i ops s' h bytes disk at f.regular,
    )
