-- ===== src/Fat/Directory/Listing.antt =====
-- src/fs/fat.rs: the list of the entries that the bytes of a directory hold.
use crab_efi.Prelude.{
  ℕ, zero, suc, ◌+◌, ◌*◌, ◌/◌, ◌<◌, ◌≡◌, refl, arith, ap, ◌∙◌, Option, none, some, Bool, not, ◌||◌,
  ◌==◌, bit_and, List, [], ◌∷◌, ◌++◌, length, if◌then◌else◌, length-append,
}
use crab_efi.Bytes.{byte}
use crab_efi.Bytes.Agree.{bytes_at-agree, le32-agree, le16-agree, byte-append, byte-append_left}
use crab_efi.Fat.Directory.{
  DirectoryEntry, dir_entry_at, is_end, is_free, is_lfn, is_volume_id, matches_name,
}

-- So many entries, from a position on.
unfoldable pub entries_at : (ℕ → ℕ) → ℕ → ℕ → List DirectoryEntry
entries_at at pos zero = []
entries_at at pos (suc n) = dir_entry_at at pos ∷ entries_at at (pos + 32) n

-- The first byte of the name is 0xE5 for a deleted entry. The attributes are 0x0F for a part of a long
-- name, and have 0x08 for the label of the volume. Other entries are in use.
abbrev pub is_unused : DirectoryEntry → Bool
is_unused e = byte e.name 0 == 0xE5 || bit_and e.attr 0x0F == 0x0F || not (bit_and e.attr 0x08 == 0)

-- The entries in use before the mark of the end, a name whose first byte is 0.
unfoldable pub listing : List DirectoryEntry → List DirectoryEntry
listing [] = []
listing (e ∷ es) =
    let rest = listing es in
    if byte e.name 0 == 0 then [] else if is_unused e then rest else e ∷ rest

-- By the tests of the code, the first of which has been passed before the others are made.
pub listing_cons :
    (e : DirectoryEntry) (es : List DirectoryEntry)
    → listing (e ∷ es) ≡ (
        if is_end e
        then []
        else if is_free e || is_lfn e || is_volume_id e
        then listing es
        else e ∷ listing es)
unfolding listing is_end is_free is_lfn is_volume_id
listing_cons e es = ground arith

-- The first entry of the name.
unfoldable pub first_named : List ℕ → List DirectoryEntry → Option DirectoryEntry
first_named name [] = none
first_named name (e ∷ es) =
    let rest = first_named name es in if matches_name e name then some e else rest

dir_entry_at-agree :
    (at at' : ℕ → ℕ) (p q : ℕ)
    → ((i : ℕ) → i < 32 → at (p + i) ≡ at' (q + i))
    → dir_entry_at at p ≡ dir_entry_at at' q
unfolding dir_entry_at
dir_entry_at-agree at at' p q agree =
    let name =
      bytes_at-agree at at' p q 32 agree 8 0 p q (omega arith) (omega arith) (omega arith) in
    let ext = bytes_at-agree at at' p q 32 agree 3 8 (p + 8) (q + 8) refl refl (omega arith) in
    let attr = agree 11 (omega arith) in
    let hi = le16-agree at at' p q 32 agree 20 (p + 20) (q + 20) refl refl (omega arith) in
    let lo = le16-agree at at' p q 32 agree 26 (p + 26) (q + 26) refl refl (omega arith) in
    let file_size = le32-agree at at' p q 32 agree 28 (p + 28) (q + 28) refl refl (omega arith) in
    λ j. record {
      name = name j;
      ext = ext j;
      attr = attr j;
      first_cluster_hi = hi j;
      first_cluster_lo = lo j;
      file_size = file_size j;
    }

entries_at-agree :
    (at at' : ℕ → ℕ) (n p q : ℕ)
    → ((i : ℕ) → i < 32 * n → at (p + i) ≡ at' (q + i))
    → entries_at at p n ≡ entries_at at' q n
unfolding entries_at
entries_at-agree at at' zero p q agree = refl
entries_at-agree at at' (suc n) p q agree =
    let head = dir_entry_at-agree at at' p q (λ i h. agree i (omega (arith, h))) in
    let tail =
      entries_at-agree at at' n (p + 32) (q + 32)
        (λ i h. ap at (omega arith) ∙ agree (32 + i) (omega (arith, h)) ∙ ap at' (omega arith)) in
    rw (head, tail) refl

entries_at-append :
    (at : ℕ → ℕ) (n m p : ℕ)
    → entries_at at p (n + m) ≡ entries_at at p n ++ entries_at at (p + 32 * n) m
unfolding entries_at
entries_at-append at zero m p =
    ap (λ k. entries_at at p k) (omega arith) ∙ ap (λ q. entries_at at q m) (omega arith)
entries_at-append at (suc n) m p =
    let count : suc n + m ≡ suc (n + m) = omega arith in
    let place : p + 32 + 32 * n ≡ p + 32 * suc n = omega arith in
    rw count (
      ap (λ es. dir_entry_at at p ∷ es)
        (entries_at-append at n m (p + 32)
          ∙ ap (λ q. entries_at at (p + 32) n ++ entries_at at q m) place))

-- The entries of bytes, and of bytes behind others.
abbrev pub entries_of : List ℕ → List DirectoryEntry
entries_of bytes = entries_at (byte bytes) 0 (length bytes / 32)

pub entries_of-append :
    (k m : ℕ) (xs ys : List ℕ)
    → length xs ≡ 32 * k
    → length ys ≡ 32 * m
    → entries_of (xs ++ ys) ≡ entries_of xs ++ entries_of ys
entries_of-append k m xs ys e f =
    let first : length xs / 32 ≡ k = omega (arith, e) in
    let second : length ys / 32 ≡ m = omega (arith, f) in
    let both : length (xs ++ ys) / 32 ≡ k + m = omega (arith, e, f, length-append xs ys) in
    let left =
      entries_at-agree (byte (xs ++ ys)) (byte xs) k 0 0
        (λ i h. byte-append_left xs ys (0 + i) (omega (arith, h, e))) in
    let right =
      entries_at-agree (byte (xs ++ ys)) (byte ys) m (0 + 32 * k) 0
        (λ i h. ap (byte (xs ++ ys)) (omega (arith, e)) ∙ byte-append xs ys (0 + i)) in
    rw (both, first, second, entries_at-append (byte (xs ++ ys)) k m 0, left, right) refl
