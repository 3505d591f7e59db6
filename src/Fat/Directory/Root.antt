-- ===== src/Fat/Directory/Root.antt =====
-- src/fs/fat.rs: the search of the fixed root directory of FAT12 and FAT16 ends.
use crab_efi.Prelude.{
  ℕ, zero, suc, ◌+◌, ◌-◌, ◌*◌, ◌/◌, ◌%◌, ◌<◌, ◌≡◌, arith, Option, none, some, true, Bool-cases, inl,
  inr, ltb, List, add64,
}
use native.Mathlib.Nat.{lt-div-mul-add, add-mul}
use crab_efi.Bytes.{byte}
use crab_efi.Disk.{Fallible, ok, err, ◌>>=◌, BlockError, map_err}
use crab_efi.Fat.{FatFilesystem, FatError}
use crab_efi.Fat.Cluster.{Fault, lift}
use crab_efi.Fat.Directory.{
  DirectoryEntry, Visit, return, ended, on, visit_block, visit_root, visit_directory, advance,
  after_root_block, root_dir_bytes, root_byte_start, fixed_root, or_not_found, live_named,
  find_in_directory,
}

-- An answer, or an error of the file system: neither a panic nor fuel that is used up.
pub data Answers {A : Type 0} : Fallible Fault A → Type 0 where
  found : (a : A) → Answers (ok a)
  refused : (e : FatError) → Answers (err (Fault.error e))

past_block : (p start size : ℕ) → 0 < size → p < ((start + p) / size + 1) * size - start
past_block p start size real =
    omega (arith, lt-div-mul-add {a = start + p} real, add-mul ((start + p) / size) 1 size)

advance-more :
    (fs : FatFilesystem) (p k : ℕ)
    → 0 < fs.device_block_size
    → p < advance fs p ((root_byte_start fs + p) / fs.device_block_size) k
advance-more fs p zero real = past_block p (root_byte_start fs) fs.device_block_size real
advance-more fs p (suc k) real = omega arith

less_left : (total p q fuel : ℕ) → p < total → p < q → total - p < suc fuel → total - q < fuel
less_left total p q fuel unread further enough = omega (arith, unread, further, enough)

module _ {S : Type 0} (live : S → DirectoryEntry → Visit S) (fs : FatFilesystem)
    (real : 0 < fs.device_block_size) where
  after_root_block-Answers :
      (next : ℕ → S → Fallible Fault (Option DirectoryEntry)) (p : ℕ) (v : Visit (S × ℕ))
      → ((q : ℕ) (s : S) → p < q → Answers (next q s))
      → Answers
          (after_root_block live fs next p ((root_byte_start fs + p) / fs.device_block_size) v)
  after_root_block-Answers next p (return e) rest = found (some e)
  after_root_block-Answers next p ended rest = found none
  after_root_block-Answers next p (on (s, k)) rest = rest _ s (advance-more fs p k real)

  read-Answers :
      (r : Fallible BlockError (List ℕ)) (next : List ℕ → Fallible Fault (Option DirectoryEntry))
      → ((buffer : List ℕ) → Answers (next buffer))
      → Answers (lift (map_err (λ _. FatError.read_error) r) >>= next)
  read-Answers (ok buffer) next rest = rest buffer
  read-Answers (err e) next rest = refused FatError.read_error

  visit_root-Answers :
      (fuel p : ℕ) (s : S) → root_dir_bytes fs - p < fuel → Answers (visit_root live fs fuel p s)
  unfolding visit_root
  visit_root-Answers zero p s enough = absurd (omega (arith, enough))
  visit_root-Answers (suc fuel) p s enough = elim (Bool-cases (ltb p (root_dir_bytes fs))) [
    | inl more ↦
        let size = fs.device_block_size in
        let block = (root_byte_start fs + p) / size in
        let unread : p < root_dir_bytes fs = ground (arith, more) in
        rw more (
          read-Answers (fs.device.read_block (add64 fs.partition_start block) size) _ (λ buffer.
            after_root_block-Answers (visit_root live fs fuel) p
              (visit_block live size (byte buffer) ((root_dir_bytes fs - p + 31) / 32)
                ((root_byte_start fs + p) % size) 0 s)
              (λ q s' further.
                visit_root-Answers fuel q s'
                  (less_left (root_dir_bytes fs) p q fuel unread further enough))))
    | inr over ↦ rw over (found none)
  ]

or_not_found-Answers :
    (r : Fallible Fault (Option DirectoryEntry)) → Answers r → Answers (r >>= or_not_found)
or_not_found-Answers r (found none) = refused FatError.not_found
or_not_found-Answers r (found (some e)) = found e
or_not_found-Answers r (refused e) = refused e

-- Whatever the device answers: the search of the fixed root directory ends, with an entry or with an
-- error of the file system.
pub find_in_directory-Answers :
    (fs : FatFilesystem) (fuel cluster : ℕ) (name : List ℕ)
    → 0 < fs.device_block_size
    → fixed_root fs cluster ≡ true
    → Answers (find_in_directory fuel fs cluster name)
unfolding find_in_directory visit_directory
find_in_directory-Answers fs fuel cluster name real root = rw root (
    or_not_found-Answers (visit_root (live_named name) fs (suc (root_dir_bytes fs)) 0 tt)
      (visit_root-Answers (live_named name) fs real (suc (root_dir_bytes fs)) 0 tt (omega arith)))
