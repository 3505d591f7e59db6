-- ===== src/Disk/Commands.antt =====
-- src/drivers/usb/mass_storage.rs: the READ commands ask for the blocks that are wanted.
use crab_efi.Prelude.{
  ℕ, ◌+◌, ◌*◌, ◌%◌, ◌^◌, ◌≤◌, ◌<◌, ◌≡◌, refl, arith, inl, inr, Bool-cases, false, Option, none,
  some, List, [], ◌∷◌, ◌==◌, if◌then◌else◌, ltb, leb, add64, u64_mod, drop, take,
}
use crab_efi.Prelude.{ok}
use crab_efi.Disk.Usb.{
  UsbMassStorage, be16, be32, be64, read_10_command, read_16_command, read_sectors_generic,
}
use crab_efi.Disk.Transfer.{blocks_of}

-- A number from its bytes, the highest first.
abbrev pub big_endian : ℕ → List ℕ → ℕ
big_endian high [] = high
big_endian high (b ∷ bs) = big_endian (high * 2 ^ 8 + b) bs

-- What a READ command asks for: the first block, and how many.
abbrev pub decode_read : List ℕ → Option (ℕ × ℕ)
decode_read [] = none
decode_read (code ∷ rest) =
    if code == 0x28
    then some (big_endian 0 (take 4 (drop 1 rest)), big_endian 0 (take 2 (drop 6 rest)))
    else if code == 0x88
    then some (big_endian 0 (take 8 (drop 1 rest)), big_endian 0 (take 4 (drop 9 rest)))
    else none

decode_read-read_10_command :
    (lba n : ℕ) → lba < 2 ^ 32 → n < 2 ^ 16 → decode_read (read_10_command lba n) ≡ some (lba, n)
decode_read-read_10_command lba n lba_fits n_fits =
    let block : big_endian 0 (be32 lba) ≡ lba = omega arith in
    let count : big_endian 0 (be16 n) ≡ n = omega arith in rw (block, count) refl

decode_read-read_16_command :
    (lba n : ℕ) → lba < 2 ^ 64 → n < 2 ^ 32 → decode_read (read_16_command lba n) ≡ some (lba, n)
decode_read-read_16_command lba n lba_fits n_fits =
    let block : big_endian 0 (be64 lba) ≡ lba = omega arith in
    let count : big_endian 0 (be32 n) ≡ n = omega arith in rw (block, count) refl

-- A device that answers the READ commands for blocks below a limit with what it holds.
abbrev pub ScsiAnswers : UsbMassStorage → ℕ → (ℕ → ℕ) → Type 0
ScsiAnswers device limit content =
    (command : List ℕ) (lba n : ℕ)
    → decode_read command ≡ some (lba, n)
    → lba + n ≤ limit
    → device.scsi_command command (n * device.block_size)
      ≡ ok (blocks_of content device.block_size lba n)

-- A read of fewer than 2 ^ 32 blocks, into a buffer that is large enough, of a device that answers the
-- READ commands for blocks below a limit with what it holds: all blocks are read as the device holds
-- them, where their end is past 0xFFFFFFFF, or are fewer than 65536. Of more blocks that
-- end no later only the remainder by 65536 is read, and the call succeeds too.
pub read_sectors_generic_lem :
    (device : UsbMassStorage) (limit lba n size : ℕ) (content : ℕ → ℕ)
    → ScsiAnswers device limit content
    → limit < u64_mod
    → lba + n ≤ limit
    → n < 2 ^ 32
    → n * device.block_size ≤ size
    → read_sectors_generic device lba n size
      ≡ ok (
          blocks_of content device.block_size lba
            (if leb (lba + n) 0xFFFFFFFF then n % 2 ^ 16 else n))
unfolding read_sectors_generic
read_sectors_generic_lem device limit lba n size content answers limited below counted room =
    let fits : ltb size (n * device.block_size) ≡ false = ground (arith, room) in
    let stop : add64 lba n ≡ lba + n = omega (arith, limited, below) in
    elim (Bool-cases (leb (lba + n) 0xFFFFFFFF)) [
      | inl short ↦
          let small : lba + n ≤ 0xFFFFFFFF = ground (arith, short) in
          let cast : lba % 2 ^ 32 ≡ lba = omega (arith, small) in
          rw (fits, stop, short, cast)
            (answers (read_10_command lba (n % 2 ^ 16)) lba (n % 2 ^ 16)
              (decode_read-read_10_command lba (n % 2 ^ 16) (omega (arith, small)) (omega arith))
              (omega (arith, below)))
      | inr long ↦
          rw (fits, stop, long)
            (answers (read_16_command lba n) lba n
              (decode_read-read_16_command lba n (omega (arith, below, limited)) counted) below)
    ]
