-- ===== src/Allocator/Pool.antt =====
-- src/efi/allocator.rs: `allocate_pool` and `free_pool`, with the headers that they keep in memory.
use crab_efi.Prelude.{ℕ, ◌+◌, ◌-◌, ◌/◌, Option, none, some, ◌==◌, if◌then◌else◌, sub64, checked_add}
use crab_efi.Status.{Status, success, invalid_parameter, out_of_resources, Result, ok, err}
use crab_efi.Allocator.Types.{MemoryAllocator, MemoryType, allocate_any_pages, page_size}
use crab_efi.Allocator.Services.{Allocated, allocate_pages, free_pages}

pub record PoolHeader : Type 0 where
  pub num_pages : ℕ
  pub magic : ℕ

abbrev pub pool_magic : ℕ
pool_magic = 0x504F4F4C48445200

-- `size_of::<PoolHeader>()`
abbrev pub header_size : ℕ
header_size = 16

-- The allocator, and what the memory holds at an address, read as a header.
pub record Pool : Type 0 where
  pub allocator : MemoryAllocator
  pub headers : ℕ → PoolHeader

abbrev pub write_header : (ℕ → PoolHeader) → ℕ → PoolHeader → ℕ → PoolHeader
write_header headers addr h a = if a == addr then h else headers a

-- The header is written at the start of the pages, and the pointer behind it is returned.
abbrev pub pool_of : Pool → ℕ → Allocated → Pool × Result ℕ
pool_of p num_pages (m, success, addr) = (
  record {
    allocator = m;
    headers = write_header p.headers addr (record { num_pages = num_pages; magic = pool_magic });
  },
  ok (addr + header_size),
)
pool_of p num_pages (m, s, addr) = (record p { allocator = m }, err s)

abbrev pub allocate_rounded : Pool → MemoryType → Option ℕ → Pool × Result ℕ
allocate_rounded p t none = (p, err out_of_resources)
allocate_rounded p t (some rounded) =
    let num_pages = rounded / page_size in
    pool_of p num_pages (allocate_pages p.allocator allocate_any_pages t num_pages 0)

abbrev pub allocate_total : Pool → MemoryType → Option ℕ → Pool × Result ℕ
allocate_total p t none = (p, err out_of_resources)
allocate_total p t (some total) = allocate_rounded p t (checked_add total (page_size - 1))

unfoldable pub allocate_pool : Pool → MemoryType → ℕ → Pool × Result ℕ
allocate_pool p t size =
    if size == 0
    then (p, err invalid_parameter)
    else allocate_total p t (checked_add size header_size)

abbrev pub free_header : Pool → ℕ → PoolHeader → Pool × Status
free_header p addr h =
    let (m, s) = free_pages p.allocator addr h.num_pages in
    if h.magic == pool_magic then (record p { allocator = m }, s) else (p, invalid_parameter)

-- A null buffer is 0. The header stands right before the buffer.
unfoldable pub free_pool : Pool → ℕ → Pool × Status
free_pool p buffer =
    let addr = sub64 buffer header_size in
    if buffer == 0 then (p, invalid_parameter) else free_header p addr (p.headers addr)
