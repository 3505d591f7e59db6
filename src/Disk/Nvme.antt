-- ===== src/Disk/Nvme.antt =====
-- src/drivers/nvme/mod.rs: the reads of a controller. The command itself is a parameter: what the DMA
-- buffer holds after it.
use crab_efi.Prelude.{
  ℕ, zero, suc, ◌+◌, ◌-◌, ◌*◌, ◌/◌, ◌%◌, ◌^◌, Option, none, some, List, [], ◌∷◌, ◌++◌, ◌==◌, ltb,
  min, if◌then◌else◌, take, add64,
}
use crab_efi.Prelude.{Fallible, ok, err, ◌>>=◌, map_err}

pub data NvmeError : Type 0 where
  not_ready : NvmeError
  command_failed : ℕ → ℕ → NvmeError
  timeout no_namespaces invalid_namespace allocation_failed invalid_parameter : NvmeError

-- An error, or a loop that does not end.
pub data TransferFault (E : Type 0) : Type 0 where
  failed : E → TransferFault E
  endless : TransferFault E

pub record NvmeNamespace : Type 0 where
  pub nsid : ℕ
  pub num_blocks : ℕ
  pub block_size : ℕ

-- The command takes the namespace, the first block, and the number of blocks less one.
pub record NvmeController : Type 0 where
  pub namespaces : List NvmeNamespace
  pub read_command : ℕ → ℕ → ℕ → Fallible NvmeError (List ℕ)

unfoldable pub find_namespace : ℕ → List NvmeNamespace → Option NvmeNamespace
find_namespace nsid [] = none
find_namespace nsid (ns ∷ rest) = if ns.nsid == nsid then some ns else find_namespace nsid rest

abbrev pub get_namespace : NvmeController → ℕ → Option NvmeNamespace
get_namespace controller nsid = find_namespace nsid controller.namespaces

-- `ok_or_error`
abbrev pub ok_or_error {ℓ} : {E : Type 0} {A : Type ℓ} → Option A → E → Fallible E A
ok_or_error none e = err e
ok_or_error (some a) e = ok a

abbrev pub dma_size : ℕ
dma_size = 4096

-- `num_sectors - 1` wraps at 0.
abbrev pub read_namespace : NvmeController → ℕ → ℕ → ℕ → NvmeNamespace → Fallible NvmeError (List ℕ)
read_namespace controller nsid start_lba num_sectors ns =
    controller.read_command nsid start_lba ((num_sectors + (2 ^ 32 - 1)) % 2 ^ 32) >>= λ dma.
    ok (take ((num_sectors * ns.block_size) % 2 ^ 32) dma)

-- What is written from the caller's pointer on. What a read that fails has written is left out.
abbrev pub read_sectors_internal : NvmeController → ℕ → ℕ → ℕ → Fallible NvmeError (List ℕ)
read_sectors_internal controller nsid start_lba num_sectors =
    ok_or_error (get_namespace controller nsid) NvmeError.invalid_namespace
    >>= read_namespace controller nsid start_lba num_sectors

-- The loop over the pages of a large transfer, which is the same for NVMe and for SD cards. With no
-- sectors in a page it does not end.
unfoldable pub read_pages :
    {E : Type 0}
    → (ℕ → ℕ → Fallible E (List ℕ))
    → ℕ
    → ℕ
    → ℕ
    → ℕ
    → Fallible (TransferFault E) (List ℕ)
read_pages read sectors_per_page zero current_lba remaining =
    if remaining == 0 then ok [] else err endless
read_pages read sectors_per_page (suc fuel) current_lba remaining =
    let sectors = min remaining sectors_per_page in
    let rest =
      read_pages read sectors_per_page fuel (add64 current_lba sectors) (remaining - sectors) in
    if remaining == 0
    then ok []
    else (map_err failed (read current_lba sectors) >>= λ bytes.
        (rest >>= λ more. ok (bytes ++ more)))

abbrev pub read_large :
    NvmeController → ℕ → ℕ → ℕ → NvmeNamespace → Fallible (TransferFault NvmeError) (List ℕ)
read_large controller nsid start_lba num_sectors ns =
    if num_sectors == 0
    then err (failed NvmeError.invalid_parameter)
    else if ltb dma_size (num_sectors * ns.block_size)
    then read_pages (read_sectors_internal controller nsid) (dma_size / ns.block_size) num_sectors
        start_lba num_sectors
    else map_err failed (read_sectors_internal controller nsid start_lba num_sectors)

-- A page with a sector in it brings the loop on, so the sectors are enough fuel.
unfoldable pub nvme_read_sectors :
    NvmeController → ℕ → ℕ → ℕ → Fallible (TransferFault NvmeError) (List ℕ)
nvme_read_sectors controller nsid start_lba num_sectors =
    ok_or_error (get_namespace controller nsid) (failed NvmeError.invalid_namespace)
    >>= read_large controller nsid start_lba num_sectors
