-- ===== src/Bytes.antt =====
-- Byte slices and memory. A slice is the list of its bytes; memory is a function from addresses. The
-- structures that `zerocopy` reads are packed and little-endian: a field is read at its offset.
pub mod Agree
use crab_efi.Prelude.{
  zero, suc, [], ◌∷◌, ◌==◌, ℕ, ◌+◌, ◌-◌, ◌*◌, ◌/◌, ◌%◌, ◌^◌, ◌≤◌, ◌<◌, Bool, true, false, ◌&&◌,
  List, ◌≡◌, ◌⊎◌, leb, ltb, if◌then◌else◌, get_or, arith, [], suc, ◌∷◌, ◌==◌,
}

abbrev pub byte : List ℕ → ℕ → ℕ
byte bs i = get_or bs i 0

abbrev pub combine : ℕ → ℕ → ℕ
combine lo hi = lo + 256 * hi

-- A number of two, four or eight bytes, where a function gives the bytes.
abbrev pub le16 : (ℕ → ℕ) → ℕ → ℕ
le16 at i = combine (at i) (at (i + 1))

abbrev pub le32 : (ℕ → ℕ) → ℕ → ℕ
le32 at i = le16 at i + 2 ^ 16 * le16 at (i + 2)

abbrev pub le64 : (ℕ → ℕ) → ℕ → ℕ
le64 at i = le32 at i + 2 ^ 32 * le32 at (i + 4)

abbrev pub Memory : Type 0
Memory = ℕ → ℕ

abbrev pub within : ℕ → ℕ → ℕ → Bool
within start size a = leb start a && ltb a (start + size)

-- `slice.fill(0)` and `copy_nonoverlapping`.
unfoldable pub fill_zero : Memory → ℕ → ℕ → Memory
fill_zero mem start size a = if within start size a then 0 else mem a

unfoldable pub copy_in : Memory → List ℕ → ℕ → ℕ → ℕ → Memory
copy_in mem bs source dest size a =
    if within dest size a then byte bs (source + (a - dest)) else mem a

-- `write_unaligned` of a `u64`.
unfoldable pub write64 : Memory → ℕ → ℕ → Memory
write64 mem dest v a = if within dest 8 a then v / 256 ^ (a - dest) % 256 else mem a

-- Two memories that agree outside a range.
abbrev pub Outside : ℕ → ℕ → Memory → Memory → Type 0
Outside start size mem mem' = (a : ℕ) → (a < start) ⊎ (start + size ≤ a) → mem' a ≡ mem a

-- A field that is an array of bytes, and the comparison of two.
abbrev pub bytes_at : (ℕ → ℕ) → ℕ → ℕ → List ℕ
bytes_at at i zero = []
bytes_at at i (suc n) = at i ∷ bytes_at at (i + 1) n

unfoldable pub bytes_eq : List ℕ → List ℕ → Bool
bytes_eq [] [] = true
bytes_eq (a ∷ as') (b ∷ bs) = a == b && bytes_eq as' bs
bytes_eq _ _ = false
