-- ===== src/Disk/Serving.antt =====
-- src/drivers/block.rs: the devices give the file systems what their media hold.
use crab_efi.Prelude.{
  ℕ, zero, suc, ◌+◌, ◌*◌, ◌≤◌, ◌<◌, ◌≡◌, ◌≢◌, refl, ap, sym, ◌∙◌, arith, some, List, [], get_or,
  length, replicate, length-replicate, length-drop, take_all, drop_all, get_elem?, u64_mod,
  append-nil, subst,
}
use crab_efi.Prelude.{Fallible, ok, err, map_err, ◌>>=◌}
use crab_efi.Bytes.{bytes_at}
use crab_efi.Bytes.Agree.{length-bytes_at}
use crab_efi.Disk.{BlockDevice, BlockError, Holds}
use crab_efi.Disk.Nvme.{NvmeController, NvmeNamespace, dma_size, get_namespace}
use crab_efi.Disk.Devices.{
  Controllers, AnyBlockDevice, BlockFault, error, Written, put_bytes, device_read_blocks,
  device_read_block, info_of, NvmeBlockDevice, new_nvme,
}
use crab_efi.Disk.Borrowed.{create_nvme_device}
use crab_efi.Disk.Transfer.{
  blocks_of, NvmeAnswers, nvme_read_sectors-blocks_of, nvme_read_sectors_one,
}

pub length-blocks_of :
    (content : ℕ → ℕ) (size lba n : ℕ) → length (blocks_of content size lba n) ≡ n * size
length-blocks_of content size lba n = length-bytes_at content (n * size) (lba * size)

-- A buffer that is written over as a whole.
abbrev pub filled : List ℕ → Written
filled bytes = record { buffer = bytes; behind = [] }

-- Nothing is written behind a buffer that has the length of the bytes, and the bytes fill it.
pub put_bytes_exact :
    (buffer bytes : List ℕ) → length buffer ≡ length bytes → put_bytes buffer bytes ≡ filled bytes
put_bytes_exact buffer bytes same =
    let all = take_all (length buffer) bytes (omega (arith, same)) in
    let rest = drop_all (length bytes) buffer (omega (arith, same)) in
    let none_behind = drop_all (length buffer) bytes (omega (arith, same)) in
    rw (all, rest, none_behind, append-nil bytes) refl

-- A read of blocks from a medium into a buffer. The buffer holds them, and what it held behind them; what
-- does not fit is written behind the buffer.
pub record IsRead (content : ℕ → ℕ) (size lba n : ℕ) (buffer : List ℕ)
    (result : Fallible BlockFault Written) : Type 0 where
  pub reads : result ≡ ok (put_bytes buffer (blocks_of content size lba n))
  pub inside :
      n * size ≤ length buffer → (put_bytes buffer (blocks_of content size lba n)).behind ≡ []
  pub overrun :
      length buffer < n * size → (put_bytes buffer (blocks_of content size lba n)).behind ≢ []

pub put_bytes-IsRead :
    (content : ℕ → ℕ) (size lba n : ℕ) (buffer : List ℕ)
    → IsRead content size lba n buffer (ok (put_bytes buffer (blocks_of content size lba n)))
put_bytes-IsRead content size lba n buffer =
    let bytes = blocks_of content size lba n in
    let count = length-blocks_of content size lba n in
    let left = length-drop (length buffer) bytes in
    record {
      reads = refl;
      inside = λ h. drop_all (length buffer) bytes (omega (arith, count, h));
      overrun = λ h none_behind. omega (arith, count, h, left, ap length none_behind);
    }

-- The device that is made of a namespace that a controller lists.
create_nvme_device-new_nvme :
    (c : Controllers) (controller : NvmeController) (ns : NvmeNamespace) (device : NvmeBlockDevice)
    (controller_id nsid media_id : ℕ)
    → get_elem? c.nvme controller_id ≡ some controller
    → get_namespace controller nsid ≡ some ns
    → create_nvme_device c controller_id nsid media_id ≡ some device
    → new_nvme controller_id nsid ns.num_blocks ns.block_size media_id ≡ device
unfolding create_nvme_device
create_nvme_device-new_nvme c controller ns device controller_id nsid media_id found listed made =
    ground (arith, found, listed, made)

-- Reads of an NVMe device that was made of a namespace with blocks of at most a page, where the
-- controller answers the reads of blocks below a limit with what the medium holds: any number of blocks,
-- in one command or page by page, is read as the medium holds it. A buffer that is too short is written
-- over: what does not fit is written behind it.
pub nvme_read_blocks_lem :
    (c : Controllers) (controller : NvmeController) (ns : NvmeNamespace) (device : NvmeBlockDevice)
    (controller_id nsid media_id limit lba n : ℕ) (content : ℕ → ℕ) (buffer : List ℕ)
    → get_elem? c.nvme controller_id ≡ some controller
    → NvmeAnswers controller nsid limit ns content
    → limit < u64_mod
    → ns.block_size ≤ dma_size
    → create_nvme_device c controller_id nsid media_id ≡ some device
    → 1 ≤ n
    → lba + n ≤ limit
    → IsRead content ns.block_size lba n buffer
        (device_read_blocks c (AnyBlockDevice.nvme device) lba n buffer)
unfolding device_read_blocks
nvme_read_blocks_lem c controller ns device controller_id nsid media_id limit lba n content buffer
      found medium limited paged made some_read below =
    let same =
      create_nvme_device-new_nvme c controller ns device controller_id nsid media_id found
        medium.listed made in
    rw
      (
        ← same,
        found,
        nvme_read_sectors-blocks_of controller nsid limit ns content lba n medium limited paged
            some_read below,
      )
      (put_bytes-IsRead content ns.block_size lba n buffer)

-- The device of the file systems that answers as a block device does, in buffers of one block.
pub record Serves (c : Controllers) (device : AnyBlockDevice) (d : BlockDevice) : Type 0 where
  pub sized : d.block_size ≡ (info_of device).block_size
  pub serves :
      (lba : ℕ) (buffer : List ℕ)
      → length buffer ≡ (info_of device).block_size
      → device_read_block c device lba buffer ≡ (
          map_err error (d.read_block lba (info_of device).block_size) >>= λ bytes.
          ok (filled bytes))

served_block :
    (r : Fallible BlockError (List ℕ)) (bytes : List ℕ)
    → ok (filled bytes) ≡ (map_err error r >>= λ b. ok (filled b))
    → r ≡ ok bytes
served_block (err e) bytes h = cc
served_block (ok b) bytes h = ground (arith, h)

get_or-bytes_at :
    (content : ℕ → ℕ) (n i a : ℕ) → i < n → get_or (bytes_at content a n) i 0 ≡ content (a + i)
get_or-bytes_at content zero i a h = absurd (omega (arith, h))
get_or-bytes_at content (suc n) zero a h = ap content (omega arith)
get_or-bytes_at content (suc n) (suc i) a h =
    get_or-bytes_at content n i (a + 1) (omega (arith, h)) ∙ ap content (omega arith)

-- One block of an NVMe device into a buffer of its size.
pub device_read_block-filled :
    (c : Controllers) (controller : NvmeController) (ns : NvmeNamespace)
    (controller_id nsid media_id lba : ℕ) (content : ℕ → ℕ) (buffer : List ℕ)
    → get_elem? c.nvme controller_id ≡ some controller
    → NvmeAnswers controller nsid (lba + 1) ns content
    → ns.block_size ≤ dma_size
    → length buffer ≡ ns.block_size
    → let made = new_nvme controller_id nsid ns.num_blocks ns.block_size media_id in
      device_read_block c (AnyBlockDevice.nvme made) lba buffer
      ≡ ok (filled (blocks_of content ns.block_size lba 1))
unfolding device_read_blocks
device_read_block-filled c controller ns controller_id nsid media_id lba content buffer found medium
      paged size =
    let bytes = blocks_of content ns.block_size lba 1 in
    let one =
      nvme_read_sectors_one controller nsid (lba + 1) ns content lba medium paged (omega arith) in
    let exact =
      put_bytes_exact buffer bytes
        (omega (arith, size, length-blocks_of content ns.block_size lba 1)) in
    rw (found, one) (ap ok exact)

-- The interface of the file systems is filled by an NVMe namespace with blocks of at most a page: where
-- the controller answers every read with what the medium holds, a device that answers as the block
-- device made of the namespace does, holds that content and answers every read of a block.
pub create_nvme_device-Holds :
    (c : Controllers) (controller : NvmeController) (ns : NvmeNamespace) (device : NvmeBlockDevice)
    (d : BlockDevice) (controller_id nsid media_id : ℕ) (content : ℕ → ℕ)
    → get_elem? c.nvme controller_id ≡ some controller
    → ((limit : ℕ) → NvmeAnswers controller nsid limit ns content)
    → ns.block_size ≤ dma_size
    → create_nvme_device c controller_id nsid media_id ≡ some device
    → Serves c (AnyBlockDevice.nvme device) d
    → Holds d ns.block_size content
create_nvme_device-Holds c controller ns device d controller_id nsid media_id content found medium
      paged made server =
    let size = ns.block_size in
    let same =
      create_nvme_device-new_nvme c controller ns device controller_id nsid media_id found
        (medium 0).listed made in
    let sized : (info_of (AnyBlockDevice.nvme device)).block_size ≡ size = rw (← same) refl in
    record {
      sized = server.sized ∙ sized;
      block = λ lba. blocks_of content size lba 1;
      reads = λ lba.
          let zeros = replicate size 0 in
          let ours : device_read_block c (AnyBlockDevice.nvme device) lba zeros
              ≡ ok (filled (blocks_of content size lba 1)) =
            rw (← same) (
              device_read_block-filled c controller ns controller_id nsid media_id lba content zeros
                found (medium (lba + 1)) paged (length-replicate size 0)) in
          let theirs =
            subst
              (λ k.
                length zeros ≡ k
                → device_read_block c (AnyBlockDevice.nvme device) lba zeros
                  ≡ (map_err error (d.read_block lba k) >>= λ b. ok (filled b)))
              sized (server.serves lba zeros) (length-replicate size 0) in
          served_block (d.read_block lba size) (blocks_of content size lba 1) (sym ours ∙ theirs);
      length_block = λ lba. length-blocks_of content size lba 1 ∙ omega arith;
      held = λ lba i h. get_or-bytes_at content (1 * size) i (lba * size) (omega (h, arith));
    }
