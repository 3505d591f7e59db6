-- ===== src/Allocator/Pooling.antt =====
-- src/efi/allocator.rs: FreePool of what AllocatePool returned.
use crab_efi.Prelude.{
  ℕ, ◌+◌, ◌-◌, ◌*◌, ◌/◌, ◌≤◌, ◌<◌, ◌≡◌, refl, ◌==◌, sub64, checked_add, arith, Bool-cases,
  Option-cases, inl, inr, ap, ◌∙◌, u64_mod, sym, false,
}
use crab_efi.Status.{success, Result, ok, err}
use crab_efi.Allocator.Types.{MemoryType, allocate_any_pages, page_size}
use crab_efi.Allocator.Services.{Allocated, allocate_pages, free_pages}
use crab_efi.Allocator.Pool.{
  Pool, PoolHeader, pool_magic, header_size, write_header, pool_of, allocate_rounded,
  allocate_total, allocate_pool, free_pool,
}

-- The pages are written down before the buffer, whose size they hold.
record Pooled (p q : Pool) (t : MemoryType) (size b : ℕ) : Type 0 where
  num_pages : ℕ
  addr : ℕ
  allocated :
      allocate_pages p.allocator allocate_any_pages t num_pages 0 ≡ (q.allocator, success, addr)
  buffer : b ≡ addr + header_size
  enough : size + header_size ≤ num_pages * page_size
  header : q.headers addr ≡ record { num_pages = num_pages; magic = pool_magic }

write_header_self :
    (headers : ℕ → PoolHeader) (addr : ℕ) (h : PoolHeader) → write_header headers addr h addr ≡ h
write_header_self headers addr h = ground arith

abbrev header_of : ℕ → PoolHeader
header_of n = record { num_pages = n; magic = pool_magic }

abbrev ok_value : Result ℕ → ℕ
ok_value (ok a) = a
ok_value (err _) = 0

pool_of-ok :
    (p q : Pool) (n b : ℕ) (r : Allocated)
    → pool_of p n r ≡ (q, ok b)
    → (r ≡ (q.allocator, success, r.2)) × (b ≡ r.2 + header_size) × (q.headers r.2 ≡ header_of n)
pool_of-ok p q n b (m, success, addr) e =
    let left : (pool_of p n (m, success, addr)).0 ≡ q = ap (λ r. r.0) e in
    let right : addr + header_size ≡ b = ap (λ r. ok_value r.1) e in
    (
      ap (λ r. (r.allocator, success, addr)) left,
      sym right,
      ap (λ r. r.headers addr) (sym left) ∙ write_header_self p.headers addr (header_of n),
    )
pool_of-ok p q n b (m, _, addr) e = cc

allocate_rounded-Pooled :
    (p q : Pool) (t : MemoryType) (size b : ℕ)
    → allocate_rounded p t (checked_add (size + header_size) (page_size - 1)) ≡ (q, ok b)
    → Pooled p q t size b
allocate_rounded-Pooled p q t size b e =
    elim (Option-cases (checked_add (size + header_size) (page_size - 1))) [
      | inl over ↦ ground (arith, over, e)
      | inr (rounded, fits) ↦
          let n = rounded / page_size in
          let sum : rounded ≡ size + header_size + (page_size - 1) = ground (arith, fits) in
          let made : pool_of p n (allocate_pages p.allocator allocate_any_pages t n 0) ≡ (q, ok b) =
            ap (allocate_rounded p t) (sym fits) ∙ e in
          let (done, buffer, header) =
            pool_of-ok p q n b (allocate_pages p.allocator allocate_any_pages t n 0) made in
          record {
            num_pages = n;
            addr = (allocate_pages p.allocator allocate_any_pages t n 0).2;
            allocated = done;
            buffer = buffer;
            enough = omega (arith, sum);
            header = header;
          }
    ]

allocate_pool-Pooled :
    (p q : Pool) (t : MemoryType) (size b : ℕ)
    → allocate_pool p t size ≡ (q, ok b)
    → Pooled p q t size b
unfolding allocate_pool
allocate_pool-Pooled p q t size b e = elim (Bool-cases (size == 0)) [
  | inl empty ↦ ground (arith, empty, e)
  | inr some_bytes ↦ elim (Option-cases (checked_add size header_size)) [
    | inl over ↦ ground (arith, some_bytes, over, e)
    | inr (total, fits) ↦
        let sum : total ≡ size + header_size = ground (arith, fits) in
        allocate_rounded-Pooled p q t size b (
          ap (λ x. allocate_rounded p t (checked_add x (page_size - 1))) (sym sum)
          ∙ ap (allocate_total p t) (sym fits)
          ∙ ground (arith, some_bytes, e))
  ]
]

free_pool-Pooled :
    (p q : Pool) (t : MemoryType) (size b : ℕ) (a : Pooled p q t size b)
    → b < u64_mod
    → free_pool q b ≡ (
      record q { allocator = (free_pages q.allocator a.addr a.num_pages).0 },
      (free_pages q.allocator a.addr a.num_pages).1,
    )
unfolding free_pool
free_pool-Pooled p q t size b a small =
    let start : sub64 b header_size ≡ a.addr = omega (arith, a.buffer, small) in
    let nonzero : (b == 0) ≡ false = ground (arith, a.buffer) in rw (nonzero, start, a.header) refl

-- What AllocatePool returns with success lies 16 bytes behind pages that AllocatePages gave and that
-- hold the header and the size asked for. If that address is below 2^64, FreePool of it is FreePages
-- of exactly those pages.
pub free_pool-allocate_pool :
    (p q : Pool) (t : MemoryType) (size b : ℕ)
    → allocate_pool p t size ≡ (q, ok b)
    → b < u64_mod
    → (num_pages addr : ℕ) × (allocate_pages p.allocator allocate_any_pages t num_pages 0
        ≡ (q.allocator, success, addr))
      × (b ≡ addr + header_size)
      × (size + header_size ≤ num_pages * page_size)
      × (free_pool q b ≡ (
        record q { allocator = (free_pages q.allocator addr num_pages).0 },
        (free_pages q.allocator addr num_pages).1,
      ))
free_pool-allocate_pool p q t size b e small =
    let a = allocate_pool-Pooled p q t size b e in
    (a.num_pages, a.addr, a.allocated, a.buffer, a.enough, free_pool-Pooled p q t size b a small)
