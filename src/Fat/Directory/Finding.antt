-- ===== src/Fat/Directory/Finding.antt =====
-- src/fs/fat.rs: the searches of a directory that is a chain of clusters go through the list of its
-- entries.
use crab_efi.Prelude.{ℕ, ◌-◌, ◌*◌, ◌%◌, ◌≤◌, ◌<◌, ◌≡◌, refl, arith, false, List, length, get_elem?}
use crab_efi.Disk.{ok}
use crab_efi.Fat.{FatFilesystem, cluster_bytes}
use crab_efi.Fat.Directory.{
  live_named, live_counted, or_not_found, find_in_directory, get_directory_entry_at_position,
  fixed_root, visit_directory,
}
use crab_efi.Fat.File.Reading.{Chained}
use crab_efi.Fat.Directory.Listing.{listing, first_named, entries_of}
use crab_efi.Fat.Directory.Scanning.{visit_chain-scan, scan-live_named, scan-live_counted}

-- For clusters of one or more whole entries of 32 bytes and of at most 65536 bytes, in a directory that is not the
-- fixed root, where each cluster of its chain is read and has its link, and the fuel is enough for the
-- chain: `find_in_directory` gives the first entry of that name in use before the mark of the end, or
-- the error for none.
pub find_in_directory-listing :
    (fs : FatFilesystem) (fuel cluster : ℕ) (name bytes : List ℕ)
    → 0 < cluster_bytes fs
    → cluster_bytes fs ≤ 65536
    → cluster_bytes fs % 32 ≡ 0
    → fixed_root fs cluster ≡ false
    → length bytes ≤ fuel * cluster_bytes fs
    → Chained fs cluster bytes
    → find_in_directory fuel fs cluster name
      ≡ or_not_found (first_named name (listing (entries_of bytes)))
unfolding find_in_directory visit_directory
find_in_directory-listing fs fuel cluster name bytes positive small whole in_chain enough chain =
    rw
      (
        in_chain,
        visit_chain-scan (live_named name) fs positive small whole fuel cluster bytes tt enough
            chain,
        scan-live_named name (entries_of bytes),
      )
      refl

-- Under the same conditions: `get_directory_entry_at_position` gives the entry in use that has the
-- position, and none behind the last one.
pub get_directory_entry_at_position-listing :
    (fs : FatFilesystem) (fuel cluster position : ℕ) (bytes : List ℕ)
    → 0 < cluster_bytes fs
    → cluster_bytes fs ≤ 65536
    → cluster_bytes fs % 32 ≡ 0
    → fixed_root fs cluster ≡ false
    → length bytes ≤ fuel * cluster_bytes fs
    → Chained fs cluster bytes
    → get_directory_entry_at_position fuel fs cluster position
      ≡ ok (get_elem? (listing (entries_of bytes)) position)
unfolding get_directory_entry_at_position visit_directory
get_directory_entry_at_position-listing fs fuel cluster position bytes positive small whole in_chain
      enough chain =
    let same : position - 0 ≡ position = omega arith in
    rw
      (
        in_chain,
        visit_chain-scan (live_counted position) fs positive small whole fuel cluster bytes 0 enough
            chain,
        scan-live_counted position 0 (entries_of bytes) (omega arith),
        same,
      )
      refl
