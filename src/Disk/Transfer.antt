-- ===== src/Disk/Transfer.antt =====
-- src/drivers/nvme/mod.rs and src/drivers/sdhci/mod.rs: a large transfer, page by page, reads what one
-- read would.
use crab_efi.Prelude.{
  ℕ, zero, suc, ◌+◌, ◌-◌, ◌*◌, ◌/◌, ◌%◌, ◌^◌, ◌≤◌, ◌<◌, ◌≡◌, refl, arith, inl, inr, Bool-cases,
  some, true, false, List, ◌++◌, ◌==◌, ltb, min, take, add64, u64_mod,
}
use native.Mathlib.Nat.{add-mul, zero-mul, le-div_iff_mul-le, le-mul_of_pos_right}
use crab_efi.Prelude.{Fallible, ok, err}
use crab_efi.Bytes.{bytes_at}
use crab_efi.Bytes.Agree.{bytes_at-append}
use crab_efi.Disk.Nvme.{
  NvmeController, NvmeNamespace, endless, get_namespace, read_sectors_internal, dma_size,
  read_pages, nvme_read_sectors,
}
use crab_efi.Disk.Sdhci.{
  SdhciController, sd_block_size, argument, sd_read_internal, sdhci_read_sectors,
}

-- The bytes of so many blocks.
abbrev pub blocks_of : (ℕ → ℕ) → ℕ → ℕ → ℕ → List ℕ
blocks_of content size lba n = bytes_at content (lba * size) (n * size)

pub blocks_of-append :
    (content : ℕ → ℕ) (size lba n m : ℕ)
    → blocks_of content size lba n ++ blocks_of content size (lba + n) m
      ≡ blocks_of content size lba (n + m)
blocks_of-append content size lba n m =
    rw (add-mul lba n size, add-mul n m size)
      (bytes_at-append content (m * size) (n * size) (lba * size))

module _ {E : Type 0} (read : ℕ → ℕ → Fallible E (List ℕ)) (content : ℕ → ℕ)
    (size per_page limit : ℕ) (some_fit : 1 ≤ per_page) (limited : limit < u64_mod)
    (reads : (lba n : ℕ)
      → 1 ≤ n
      → n ≤ per_page
      → lba + n ≤ limit
      → read lba n ≡ ok (blocks_of content size lba n)) where
  pub read_pages-blocks_of :
      (fuel lba remaining : ℕ)
      → remaining ≤ fuel
      → lba + remaining ≤ limit
      → read_pages read per_page fuel lba remaining ≡ ok (blocks_of content size lba remaining)
  unfolding read_pages
  read_pages-blocks_of zero lba remaining enough below =
      let done : remaining ≡ 0 = omega arith in rw (done, zero-mul size) refl
  read_pages-blocks_of (suc fuel) lba remaining enough below = elim (Bool-cases (remaining == 0)) [
    | inl done ↦ let none_left : remaining ≡ 0 = ground arith in rw (none_left, zero-mul size) refl
    | inr more ↦
        let n = min remaining per_page in
        let left : 1 ≤ remaining = ground arith in
        let next : add64 lba n ≡ lba + n = omega arith in
        let all : n + (remaining - n) ≡ remaining = omega arith in
        rw
          (
            more,
            reads lba n (omega arith) (omega arith) (omega arith),
            next,
            read_pages-blocks_of fuel (lba + n) (remaining - n) (omega arith) (omega arith),
            blocks_of-append content size lba n (remaining - n),
            all,
          )
          refl
  ]

-- A namespace of a controller that answers the reads of blocks below a limit, of a page at most, with
-- what the medium holds.
pub record NvmeAnswers (controller : NvmeController) (nsid limit : ℕ) (ns : NvmeNamespace)
    (content : ℕ → ℕ) : Type 0 where
  pub listed : get_namespace controller nsid ≡ some ns
  pub sized : 1 ≤ ns.block_size
  pub answers :
      (lba n : ℕ)
      → 1 ≤ n
      → n * ns.block_size ≤ dma_size
      → lba + n ≤ limit
      → (dma : List ℕ) × (controller.read_command nsid lba (n - 1) ≡ ok dma)
        × (take (n * ns.block_size) dma ≡ blocks_of content ns.block_size lba n)

read_internal-blocks_of :
    (controller : NvmeController) (nsid limit : ℕ) (ns : NvmeNamespace) (content : ℕ → ℕ)
    (lba n : ℕ)
    → NvmeAnswers controller nsid limit ns content
    → 1 ≤ n
    → n * ns.block_size ≤ dma_size
    → lba + n ≤ limit
    → read_sectors_internal controller nsid lba n ≡ ok (blocks_of content ns.block_size lba n)
read_internal-blocks_of controller nsid limit ns content lba n medium some_read fits below =
    let (dma, answered, held) = medium.answers lba n some_read fits below in
    let few = le-mul_of_pos_right n medium.sized in
    let last : (n + (2 ^ 32 - 1)) % 2 ^ 32 ≡ n - 1 = omega (arith, few, fits, some_read) in
    let bytes : (n * ns.block_size) % 2 ^ 32 ≡ n * ns.block_size = omega (arith, fits) in
    rw (medium.listed, last, answered, bytes, held) refl

-- One block needs no loop.
pub nvme_read_sectors_one :
    (controller : NvmeController) (nsid limit : ℕ) (ns : NvmeNamespace) (content : ℕ → ℕ) (lba : ℕ)
    → NvmeAnswers controller nsid limit ns content
    → ns.block_size ≤ dma_size
    → lba + 1 ≤ limit
    → nvme_read_sectors controller nsid lba 1 ≡ ok (blocks_of content ns.block_size lba 1)
unfolding nvme_read_sectors
nvme_read_sectors_one controller nsid limit ns content lba medium paged below =
    let small : ltb dma_size (1 * ns.block_size) ≡ false = ground (arith, paged) in
    rw
      (
        medium.listed,
        small,
        read_internal-blocks_of controller nsid limit ns content lba 1 medium (omega arith)
            (omega (arith, paged)) below,
      )
      refl

-- A namespace with blocks of at most a page: any number of blocks of it is read as the medium holds them,
-- in one command or page by page.
pub nvme_read_sectors-blocks_of :
    (controller : NvmeController) (nsid limit : ℕ) (ns : NvmeNamespace) (content : ℕ → ℕ)
    (lba n : ℕ)
    → NvmeAnswers controller nsid limit ns content
    → limit < u64_mod
    → ns.block_size ≤ dma_size
    → 1 ≤ n
    → lba + n ≤ limit
    → nvme_read_sectors controller nsid lba n ≡ ok (blocks_of content ns.block_size lba n)
unfolding nvme_read_sectors
nvme_read_sectors-blocks_of controller nsid limit ns content lba n medium limited paged some_read
      below =
    let given : (n == 0) ≡ false = ground (arith, some_read) in
    let size = ns.block_size in
    elim (Bool-cases (ltb dma_size (n * size))) [
      | inl large ↦
          rw (medium.listed, given, large)
            (read_pages-blocks_of (read_sectors_internal controller nsid) content size
              (dma_size / size) limit ((le-div_iff_mul-le medium.sized).1 (omega (arith, paged)))
              limited
              (λ l k some_k fit in_limit.
                read_internal-blocks_of controller nsid limit ns content l k medium some_k
                  ((le-div_iff_mul-le medium.sized).0 fit) in_limit)
              n lba n (omega arith) below)
      | inr small ↦
          rw
            (
              medium.listed,
              given,
              small,
              read_internal-blocks_of controller nsid limit ns content lba n medium some_read
                  (ground (arith, small)) below,
            )
            refl
    ]

-- With blocks larger than a page the loop of a large transfer does not end, whatever the fuel.
pub read_pages-endless :
    {E : Type 0} (read : ℕ → ℕ → Fallible E (List ℕ)) (bytes : ℕ → List ℕ) (fuel lba n : ℕ)
    → 1 ≤ n
    → ((l : ℕ) → read l 0 ≡ ok (bytes l))
    → read_pages read 0 fuel lba n ≡ err endless
unfolding read_pages
read_pages-endless read bytes zero lba n some_left reads = ground (arith, some_left)
read_pages-endless read bytes (suc fuel) lba n some_left reads =
    let left : (n == 0) ≡ false = ground (arith, some_left) in
    let none_taken : min n 0 ≡ 0 = omega arith in
    let same : n - 0 ≡ n = omega arith in
    rw
      (
        left,
        none_taken,
        reads lba,
        same,
        read_pages-endless read bytes fuel (add64 lba 0) n some_left reads,
      )
      refl

-- A card that answers the reads of blocks below a limit, of a page at most, with what it holds.
pub record CardAnswers (controller : SdhciController) (limit : ℕ) (content : ℕ → ℕ) : Type 0 where
  pub initialized : controller.card_initialized ≡ true
  pub answers :
      (lba n : ℕ)
      → 1 ≤ n
      → n ≤ 8
      → lba + n ≤ limit
      → (dma : List ℕ) × (controller.read_command (argument controller lba) n ≡ ok dma)
        × (take (n * sd_block_size) dma ≡ blocks_of content sd_block_size lba n)

sd_read_internal-blocks_of :
    (controller : SdhciController) (limit : ℕ) (content : ℕ → ℕ) (lba n : ℕ)
    → CardAnswers controller limit content
    → 1 ≤ n
    → n ≤ 8
    → lba + n ≤ limit
    → sd_read_internal controller lba n ≡ ok (blocks_of content sd_block_size lba n)
sd_read_internal-blocks_of controller limit content lba n card some_read fits below =
    let (dma, answered, held) = card.answers lba n some_read fits below in
    let counted : n % 2 ^ 16 ≡ n = omega (arith, fits) in rw (counted, answered, held) refl

-- Any number of blocks of an SD card is read as the card holds them, in one command or page by page.
pub sdhci_read_sectors-blocks_of :
    (controller : SdhciController) (limit : ℕ) (content : ℕ → ℕ) (lba n : ℕ)
    → CardAnswers controller limit content
    → limit < u64_mod
    → 1 ≤ n
    → lba + n ≤ limit
    → sdhci_read_sectors controller lba n ≡ ok (blocks_of content sd_block_size lba n)
unfolding sdhci_read_sectors
sdhci_read_sectors-blocks_of controller limit content lba n card limited some_read below =
    let given : (n == 0) ≡ false = ground (arith, some_read) in
    elim (Bool-cases (ltb dma_size (n * sd_block_size))) [
      | inl large ↦
          rw (card.initialized, given, large)
            (read_pages-blocks_of (sd_read_internal controller) content sd_block_size 8 limit
              (omega arith) limited
              (λ l k some_k fit in_limit.
                sd_read_internal-blocks_of controller limit content l k card some_k fit in_limit)
              n lba n (omega arith) below)
      | inr small ↦
          rw
            (
              card.initialized,
              given,
              small,
              sd_read_internal-blocks_of controller limit content lba n card some_read
                  (ground (arith, small)) below,
            )
            refl
    ]
