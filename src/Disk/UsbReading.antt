-- ===== src/Disk/UsbReading.antt =====
-- src/drivers/block.rs: reads of a USB device, one block after the other.
use crab_efi.Prelude.{
  ℕ, zero, suc, ◌+◌, ◌-◌, ◌*◌, ◌≤◌, ◌<◌, ◌≡◌, refl, ap, sym, ◌∙◌, arith, false, List, [], ◌∷◌, ◌++◌,
  ltb, length, take, drop, take_all, drop_all, drop-drop, length-drop, length-append, append_assoc,
  subst, add64, u64_mod,
}
use native.Mathlib.Nat.{add-mul, zero-mul, mul-le-mul_right}
use crab_efi.Prelude.{ok}
use crab_efi.Disk.Devices.{
  Controllers, AnyBlockDevice, put_bytes, read_slice, read_others, device_read_blocks,
  UsbBlockDevice,
}
use crab_efi.Disk.Transfer.{blocks_of, blocks_of-append}
use crab_efi.Disk.Serving.{IsRead, put_bytes-IsRead, length-blocks_of}

-- A device that answers the reads of blocks below a limit, into slices of a block at least, with what the
-- medium holds.
abbrev pub UsbAnswers : Controllers → ℕ → ℕ → (ℕ → ℕ) → Type 0
UsbAnswers c size limit content =
    (lba slice : ℕ)
    → lba < limit
    → size ≤ slice
    → c.usb_read lba slice ≡ ok (blocks_of content size lba 1)

-- The buffer after some blocks: they are in front, and behind them is what was there.
abbrev holding : (ℕ → ℕ) → ℕ → ℕ → ℕ → List ℕ → List ℕ
holding content size lba n buffer = blocks_of content size lba n ++ drop (n * size) buffer

split_at :
    (o : ℕ) (xs ys : List ℕ) → length xs ≡ o → (take o (xs ++ ys) ≡ xs) × (drop o (xs ++ ys) ≡ ys)
split_at zero [] ys e = (refl, refl)
split_at zero (x ∷ xs) ys e = absurd (omega (arith, e))
split_at (suc o) [] ys e = absurd (omega (arith, e))
split_at (suc o) (x ∷ xs) ys e =
    let (front, back) = split_at o xs ys (omega (arith, e)) in (ap (λ zs. x ∷ zs) front, back)

read_slice-holding :
    (c : Controllers) (content : ℕ → ℕ) (size limit lba n : ℕ) (buffer : List ℕ)
    → UsbAnswers c size limit content
    → lba + n < limit
    → (n + 1) * size ≤ length buffer
    → read_slice c (lba + n) (n * size) (holding content size lba n buffer)
      ≡ ok (holding content size lba (n + 1) buffer)
read_slice-holding c content size limit lba n buffer answers below room =
    let front = blocks_of content size lba n in
    let rest = drop (n * size) buffer in
    let bytes = blocks_of content size (lba + n) 1 in
    let (taken, dropped) = split_at (n * size) front rest (length-blocks_of content size lba n) in
    let whole = add-mul n 1 size in
    let left = length-drop (n * size) buffer in
    let all : length (front ++ rest) ≡ length buffer =
      length-append front rest
      ∙ omega (arith, left, room, whole, length-blocks_of content size lba n) in
    let inside : ltb (length (front ++ rest)) (n * size) ≡ false =
      ground (arith, all, room, whole) in
    let answered =
      answers (lba + n) (length (front ++ rest) - n * size) below
        (omega (arith, all, room, whole)) in
    let count = length-blocks_of content size (lba + n) 1 in
    let fits = take_all (length rest) bytes (omega (arith, count, left, room, whole)) in
    let behind = drop-drop (n * size) (1 * size) buffer ∙ ap (λ k. drop k buffer) (sym whole) in
    let joined =
      sym (append_assoc front bytes (drop ((n + 1) * size) buffer))
      ∙ ap (λ xs. xs ++ drop ((n + 1) * size) buffer) (blocks_of-append content size lba n 1) in
    rw (inside, answered, taken, dropped, fits, count, behind) (ap ok joined)

read_others-holding :
    (c : Controllers) (content : ℕ → ℕ) (size limit lba n i : ℕ) (buffer : List ℕ)
    → UsbAnswers c size limit content
    → limit < u64_mod
    → lba + (i + n) ≤ limit
    → (i + n) * size ≤ length buffer
    → read_others c size lba n i (holding content size lba i buffer)
      ≡ ok (holding content size lba (i + n) buffer)
unfolding read_others
read_others-holding c content size limit lba zero i buffer answers limited below room =
    let same : i + 0 ≡ i = omega arith in rw same refl
read_others-holding c content size limit lba (suc n) i buffer answers limited below room =
    let number : add64 lba i ≡ lba + i = omega (arith, limited, below) in
    let same : i + suc n ≡ i + 1 + n = omega arith in
    let one_more : (i + 1) * size ≤ (i + suc n) * size = mul-le-mul_right size (omega arith) in
    rw
      (
        number,
        read_slice-holding c content size limit lba i buffer answers (omega (arith, below))
            (omega (arith, one_more, room)),
        same,
      )
      (read_others-holding c content size limit lba n (i + 1) buffer answers limited
        (omega (arith, below)) (subst (λ k. k * size ≤ length buffer) same room))

put_bytes-holding :
    (content : ℕ → ℕ) (size lba n : ℕ) (buffer : List ℕ)
    → n * size ≤ length buffer
    → record { buffer = holding content size lba n buffer; behind = [] }
      ≡ put_bytes buffer (blocks_of content size lba n)
put_bytes-holding content size lba n buffer room =
    let bytes = blocks_of content size lba n in
    let count = length-blocks_of content size lba n in
    let fits = take_all (length buffer) bytes (omega (arith, count, room)) in
    let none_behind = drop_all (length buffer) bytes (omega (arith, count, room)) in
    rw (fits, none_behind, count) refl

-- Reads of a USB device that answers the reads of blocks below a limit, into slices of a block at least,
-- with what the medium holds: into a buffer that is large enough, any number of blocks is read as the
-- medium holds it, one after the other, and the rest of the buffer stays as it is.
pub usb_read_blocks_lem :
    (c : Controllers) (device : UsbBlockDevice) (content : ℕ → ℕ) (limit lba n : ℕ)
    (buffer : List ℕ)
    → UsbAnswers c device.info.block_size limit content
    → limit < u64_mod
    → 1 ≤ n
    → lba + n ≤ limit
    → n * device.info.block_size ≤ length buffer
    → IsRead content device.info.block_size lba n buffer
        (device_read_blocks c (AnyBlockDevice.usb device) lba n buffer)
unfolding device_read_blocks
usb_read_blocks_lem c device content limit lba n buffer answers limited some_read below room =
    let size = device.info.block_size in
    let whole : holding content size lba 0 buffer ≡ buffer = rw (zero-mul size) refl in
    let one_fits = mul-le-mul_right size some_read in
    let here : lba + 0 ≡ lba = omega arith in
    let front = zero-mul size in
    let same : read_slice c lba 0 buffer
        ≡ read_slice c (lba + 0) (0 * size) (holding content size lba 0 buffer) =
      rw (whole, here, front) refl in
    let first =
      same
      ∙ read_slice-holding c content size limit lba 0 buffer answers
          (omega (arith, some_read, below)) (omega (arith, one_fits, room)) in
    let all : 1 + (n - 1) ≡ n = omega (arith, some_read) in
    let others =
      read_others-holding c content size limit lba (n - 1) 1 buffer answers limited
        (omega (arith, all, below)) (rw all room) in
    rw (first, others, all, put_bytes-holding content size lba n buffer room)
      (put_bytes-IsRead content size lba n buffer)
