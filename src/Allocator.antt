-- ===== src/Allocator.antt =====
-- src/efi/allocator.rs: the page allocator behind AllocatePages, FreePages, GetMemoryMap and
-- ExitBootServices, and the pool allocator on top of it.
pub mod Types
pub mod Entries
pub mod Carve
pub mod Add
pub mod Import
pub mod Scattered
pub mod Importing
pub mod Search
pub mod Services
pub mod Pool
pub mod Pooling
pub mod Chain
pub mod Sorting
pub mod Merging
pub mod Cutting
pub mod Carving
pub mod Searching
pub mod CarveOut
pub mod Allocate
pub mod Reallocate
pub mod Freeable
pub mod Free
pub mod Exit
mod Tests
