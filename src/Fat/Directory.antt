-- ===== src/Fat/Directory.antt =====
-- src/fs/fat.rs: directory entries, and the search of a directory.
pub mod Listing
pub mod Scanning
pub mod Finding
pub mod Root
use crab_efi.Prelude.{
  ℕ, zero, suc, ◌+◌, ◌-◌, ◌*◌, ◌/◌, ◌%◌, ◌^◌, Bool, true, false, not, ◌&&◌, ◌||◌, Option, none,
  some, List, [], ◌∷◌, ◌++◌, ◌==◌, leb, ltb, if◌then◌else◌, length, add64, bit_and,
}
use crab_efi.Bytes.{byte, le16, le32, bytes_at}
use crab_efi.Disk.{Fallible, ok, err, ◌>>=◌, ◌>>◌, guard}
use crab_efi.Fat.{FatFilesystem, FatType, FatError, cluster_bytes}
use crab_efi.Fat.Chain.{read_device, next_cluster}
use crab_efi.Fat.Cluster.{Fault, lift, read_cluster}

pub record DirectoryEntry : Type 0 where
  pub name : List ℕ
  pub ext : List ℕ
  pub attr : ℕ
  pub first_cluster_hi : ℕ
  pub first_cluster_lo : ℕ
  pub file_size : ℕ

-- `read_from_prefix(&buffer[pos..])`
unfoldable pub dir_entry_at : (ℕ → ℕ) → ℕ → DirectoryEntry
dir_entry_at at pos = record {
  name = bytes_at at pos 8;
  ext = bytes_at at (pos + 8) 3;
  attr = at (pos + 11);
  first_cluster_hi = le16 at (pos + 20);
  first_cluster_lo = le16 at (pos + 26);
  file_size = le32 at (pos + 28);
}

abbrev pub first_cluster : DirectoryEntry → ℕ
first_cluster e = e.first_cluster_hi * 2 ^ 16 + e.first_cluster_lo

abbrev pub is_directory : DirectoryEntry → Bool
is_directory e = not (bit_and e.attr 0x10 == 0)

unfoldable pub is_volume_id : DirectoryEntry → Bool
is_volume_id e = not (bit_and e.attr 0x08 == 0)

unfoldable pub is_lfn : DirectoryEntry → Bool
is_lfn e = bit_and e.attr 0x0F == 0x0F

abbrev pub is_file : DirectoryEntry → Bool
is_file e = not (is_directory e) && not (is_volume_id e) && not (is_lfn e)

unfoldable pub is_free : DirectoryEntry → Bool
is_free e = byte e.name 0 == 0 || byte e.name 0 == 0xE5

unfoldable pub is_end : DirectoryEntry → Bool
is_end e = byte e.name 0 == 0

-- A byte as a character, in UTF-8.
abbrev pub utf8 : ℕ → List ℕ
utf8 c = if ltb c 0x80 then c ∷ [] else (0xC0 + c / 64) ∷ (0x80 + c % 64) ∷ []

-- `push` on a string of capacity 12: a character that does not fit is dropped.
abbrev pub push_char : List ℕ → ℕ → List ℕ
push_char s c = if leb (length s + length (utf8 c)) 12 then s ++ utf8 c else s

-- The characters up to the first space.
unfoldable pub push_name : List ℕ → List ℕ → List ℕ
push_name s [] = s
push_name s (c ∷ cs) = let rest = push_name (push_char s c) cs in if c == 0x20 then s else rest

unfoldable pub short_name : DirectoryEntry → List ℕ
short_name e =
    let s = push_name [] e.name in
    if byte e.ext 0 == 0x20 then s else push_name (push_char s 0x2E) e.ext

abbrev pub to_lower : ℕ → ℕ
to_lower c = if leb 0x41 c && leb c 0x5A then c + 32 else c

-- `eq_ignore_ascii_case`, byte by byte.
unfoldable pub same_letters : List ℕ → List ℕ → Bool
same_letters (a ∷ as') (b ∷ bs) = to_lower a == to_lower b && same_letters as' bs
same_letters _ _ = true

unfoldable pub matches_name : DirectoryEntry → List ℕ → Bool
matches_name e name = length (short_name e) == length name && same_letters (short_name e) name

-- What a loop over entries does at an entry: return it, return at the mark of the end, or go on.
pub data Visit (S : Type 0) : Type 0 where
  return : DirectoryEntry → Visit S
  ended : Visit S
  on : S → Visit S

module _ (fs : FatFilesystem) where
  abbrev pub root_dir_bytes : ℕ
  root_dir_bytes = fs.root_dir_sectors * fs.bytes_per_sector

  abbrev pub root_byte_start : ℕ
  root_byte_start = fs.root_dir_start * fs.bytes_per_sector

  -- A block in which no entry is visited is skipped.
  abbrev pub advance : ℕ → ℕ → ℕ → ℕ
  advance bytes_processed device_block zero =
      (device_block + 1) * fs.device_block_size - root_byte_start
  advance bytes_processed device_block (suc k) = bytes_processed + 32 * suc k

  abbrev pub fixed_root : ℕ → Bool
  fixed_root cluster = cluster == 0 && elim fs.fat_type [ FatType.fat32 ↦ false | _ ↦ true ]

-- The loops of `find_in_directory` and of `get_directory_entry_at_position` differ in what they do
-- at an entry in use.
module _ {S : Type 0} (live : S → DirectoryEntry → Visit S) where
  unfoldable pub visit : S → DirectoryEntry → Visit S
  visit s e =
      if is_end e then ended else if is_free e || is_lfn e || is_volume_id e then on s else live s e

  -- So many entries, from a position in the buffer on.
  unfoldable pub visit_entries : (ℕ → ℕ) → ℕ → ℕ → S → Visit S
  visit_entries buffer zero pos s = on s
  visit_entries buffer (suc n) pos s = elim (visit s (dir_entry_at buffer pos)) [
    | return e ↦ return e
    | ended ↦ ended
    | on s' ↦ visit_entries buffer n (pos + 32) s'
  ]

  -- The chain of clusters: an entry, or none at the end of the directory.
  abbrev pub after_cluster :
      (S → Fallible Fault (Option DirectoryEntry))
      → Visit S
      → Fallible Fault (Option DirectoryEntry)
  after_cluster next (return e) = ok (some e)
  after_cluster next ended = ok none
  after_cluster next (on s) = next s

  abbrev pub after_link :
      (ℕ → Fallible Fault (Option DirectoryEntry))
      → Option ℕ
      → Fallible Fault (Option DirectoryEntry)
  after_link next none = ok none
  after_link next (some cluster) = next cluster

  -- The buffer has 65536 bytes: a longer slice of it panics.
  unfoldable pub visit_chain : FatFilesystem → ℕ → ℕ → S → Fallible Fault (Option DirectoryEntry)
  visit_chain fs zero cluster s = err Fault.out_of_fuel
  visit_chain fs (suc fuel) cluster s =
      let rest : S → ℕ → Fallible Fault (Option DirectoryEntry) =
        λ s' c. visit_chain fs fuel c s' in
      guard (leb (cluster_bytes fs) 65536) Fault.panic
      >> (read_cluster fs (cluster_bytes fs) cluster >>= λ buffer.
          after_cluster (λ s'. lift (next_cluster fs cluster) >>= after_link (rest s'))
            (visit_entries (byte buffer) (cluster_bytes fs / 32) 0 s))

  -- The entries of a block of the root directory, of which so many are left: the count of entries
  -- that were visited, behind the count before.
  unfoldable pub visit_block : ℕ → (ℕ → ℕ) → ℕ → ℕ → ℕ → S → Visit (S × ℕ)
  visit_block block_size buffer zero pos k s = on (s, k)
  visit_block block_size buffer (suc left) pos k s =
      let rest : Visit (S × ℕ) = elim (visit s (dir_entry_at buffer pos)) [
        | return e ↦ return e
        | ended ↦ ended
        | on s' ↦ visit_block block_size buffer left (pos + 32) (suc k) s'
      ] in
      if leb (pos + 32) block_size then rest else on (s, k)

  module _ (fs : FatFilesystem) where
    abbrev pub after_root_block :
        (ℕ → S → Fallible Fault (Option DirectoryEntry))
        → ℕ
        → ℕ
        → Visit (S × ℕ)
        → Fallible Fault (Option DirectoryEntry)
    after_root_block next bytes_processed device_block (return e) = ok (some e)
    after_root_block next bytes_processed device_block ended = ok none
    after_root_block next bytes_processed device_block (on (s, k)) =
        next (advance fs bytes_processed device_block k) s

    -- The root directory of FAT12 and FAT16, in its place.
    unfoldable pub visit_root : ℕ → ℕ → S → Fallible Fault (Option DirectoryEntry)
    visit_root zero bytes_processed s = err Fault.out_of_fuel
    visit_root (suc fuel) bytes_processed s =
        let position = root_byte_start fs + bytes_processed in
        let device_block = position / fs.device_block_size in
        let left = (root_dir_bytes fs - bytes_processed + 31) / 32 in
        let rest : List ℕ → Fallible Fault (Option DirectoryEntry) = λ buffer.
          after_root_block (visit_root fuel) bytes_processed device_block (
            visit_block fs.device_block_size (byte buffer) left (position % fs.device_block_size) 0
              s) in
        if ltb bytes_processed (root_dir_bytes fs)
        then (lift (read_device fs (add64 fs.partition_start device_block)) >>= rest)
        else ok none

    -- The fuel of the chain is the caller's; that of the root directory is its bytes and one.
    unfoldable pub visit_directory : ℕ → ℕ → S → Fallible Fault (Option DirectoryEntry)
    visit_directory fuel cluster s =
        if fixed_root fs cluster
        then visit_root (suc (root_dir_bytes fs)) 0 s
        else visit_chain fs fuel cluster s

abbrev pub live_named : List ℕ → Unit {0} → DirectoryEntry → Visit (Unit {0})
live_named name s e = if matches_name e name then return e else on s

abbrev pub live_counted : ℕ → ℕ → DirectoryEntry → Visit ℕ
live_counted position n e = if n == position then return e else on (n + 1)

abbrev pub or_not_found : Option DirectoryEntry → Fallible Fault DirectoryEntry
or_not_found none = err (Fault.error FatError.not_found)
or_not_found (some e) = ok e

unfoldable pub find_in_directory : ℕ → FatFilesystem → ℕ → List ℕ → Fallible Fault DirectoryEntry
find_in_directory fuel fs cluster name =
    visit_directory (live_named name) fs fuel cluster tt >>= or_not_found

unfoldable pub get_directory_entry_at_position :
    ℕ → FatFilesystem → ℕ → ℕ → Fallible Fault (Option DirectoryEntry)
get_directory_entry_at_position fuel fs cluster position =
    visit_directory (live_counted position) fs fuel cluster 0
