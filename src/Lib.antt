-- ===== src/Lib.antt =====
-- CrabEFI is a UEFI implementation that coreboot starts as its payload (README.md). It builds a
-- memory map from the coreboot tables, offers boot and runtime services to a boot loader, and loads
-- it from a disk. This development models the parts that keep the state behind those services, and
-- those that find a file on a disk and load it.
--
-- The parts, their files, and how they interact:
--
-- - Allocator: src/efi/allocator.rs, the page allocator over a table of at most 512 descriptors, and
--   the types of src/coreboot/memory.rs that it imports. Types and Entries hold the descriptors and the
--   table's own operations, Carve is carve_out and try_reallocate_loader_region, Add and Import fill
--   the table, Search is find_free_pages, Services has the calls of the boot services, and Pool is
--   allocate_pool and free_pool, which ask the page allocator for whole pages. The other child modules
--   hold the proofs: Chain, Sorting, Merging, Cutting and Carving on the table, Scattered and
--   Importing on the import, Searching, CarveOut, Allocate, Reallocate, Freeable, Free and Exit on the calls, and
--   Pooling on the pool.
-- - Protocols: the handle database of src/efi/boot_services.rs and src/state.rs. Locate has the calls
--   that search it; locate_handle_buffer takes its array from Allocator.Pool. DevicePath is the search
--   by device path, and FirstDevice its proofs.
-- - Variables: the variable store of src/efi/runtime_services.rs and src/state.rs.
-- - Events: the event table of src/efi/boot_services.rs and src/state.rs.
-- - Collation: src/efi/protocols/unicode_collation.rs.
-- - Pe: the PE loader of src/pe/mod.rs, which takes the pages of an image from the allocator. Pe has the
--   header checks, Relocate apply_relocations, and Load load_image and unload_image over the allocator
--   and a memory of bytes; Writing and Loading hold the proofs.
-- - Gpt: the partition table, src/fs/gpt.rs: Scan has read_partitions and find_esp; Ending, Table and
--   Reading hold the proofs.
-- - Fat: the FAT file system, src/fs/fat.rs. Fat has the file system's record and new, Chain
--   next_cluster, Cluster read_cluster, Directory the search of a directory, and File find_file and
--   the reads of a file. The proofs are in Geometry, Chain/Entry, Cluster/Content, Directory/Listing,
--   Directory/Scanning, Directory/Finding, Directory/Root, File/Reading and File/OnDisk, which puts
--   the table, the clusters and the reads together.
-- - Keyboard: src/drivers/usb/hid_keyboard.rs, src/drivers/keyboard.rs and the time outs of src/time.rs.
--   Timer is a time out, Layout the translation of key codes, Hid the state of a USB keyboard with its
--   reports, repeats and polls, and Ps2 the scan codes and try_read_key, which asks the USB keyboard
--   first. Queueing, Reporting, Repeating, Typing, Reached, Pairs and Polling hold the proofs on Hid,
--   Scanning those on Ps2, and Keys those on both.
-- - Storage: the registry of src/drivers/storage.rs, and in BlockIo the protocols of
--   src/efi/protocols/block_io.rs, which read through it. Registered, Partition and Reading hold the
--   proofs.
-- - FileSystem: src/efi/protocols/simple_file_system.rs over Fat: the handles and open_volume, Path the
--   paths, Calls the calls of a file, and Directory the reads of a handle and what is told of it. Cursor,
--   Sequence and Opening hold the proofs.
-- - Iso: src/fs/iso9660.rs, the boot image of an ISO 9660 image; Entries says what a boot
--   catalog holds, and Catalog has the proofs on its search.
-- - Disk: the interface of src/drivers/block.rs through which Gpt, Fat and Iso read. A device is a parameter:
--   its block size and an answer for each read. Holds says that a device answers every read of a block
--   with its part of a given content; a proof that needs no such device does not ask for one.
--   Devices and Borrowed are the devices of that file, and Nvme, Sdhci and Usb the reads of
--   src/drivers/nvme/mod.rs, src/drivers/sdhci/mod.rs and src/drivers/usb/mass_storage.rs below them, with
--   the commands to the hardware as parameters. Transfer, Serving, CardReading, UsbReading and Commands
--   hold the proofs; Serving fills the interface with an NVMe device.
-- - Prelude, Status and Bytes: names, lists, machine words, the status codes that all parts use, and
--   fields of packed structures in byte slices and in memory.
--
-- How state and operations correspond. EfiState is one global structure; each part here is the group
-- of its fields that the part uses, and each operation is a function from that group to the group
-- after the call, the status, and what is written through the caller's pointers. Function names are
-- those of the source; a helper that is a span of a function has a comment that says which. A pointer
-- that may be null is an Option or a flag, and a comment says where it is assumed not to be null. A
-- handle, a GUID and an address are numbers. A fixed array with a count is a list with the source's
-- test of the capacity; heapless::Vec is taken as such a list, whose push fails when it is full.
--
-- A pointer to a file's protocol is the number of its slot. The time stamp counter is a function that
-- gives the n-th reading in a call, and the ports of the PS/2 controller hold one status and one byte
-- per call.
--
-- Machine words: u64 sums and differences wrap at 2^64 as they do in a release build (add64, sub64),
-- checked_add and checked_mul give an Option. The masks of the page size are division and
-- multiplication. sort_unstable_by_key is insertion sort: the starts are distinct in a valid table.
--
-- Loops are recursion on the list or the count that they run over, where there is one. Walk takes the
-- number of calls of GetNextVariableName, and one more than there are variables is enough.
-- wait_for_event takes the passes of its loop as a list, each with the table and what the devices
-- answer; it may wait for ever, so a list that is too short gives none. The other loops take fuel.
-- The blocks of relocations take one more than the bytes of their table, since each takes at least
-- eight of them, and the blocks of a partition table one more than its bytes, since each brings the
-- count of bytes on. A cluster that is no larger than a block lies in two blocks at most, so
-- copy_blocks has fuel for two and the end. The chain of clusters of a directory may be cyclic, and
-- then the source searches for ever: the fuel is the caller's there, and out_of_fuel is a result of
-- its own. The fixed root directory takes one more than its bytes, since each block brings the count
-- on. A device path in memory may have no end, so walk_to_end takes the caller's fuel too. A page of
-- a large transfer brings at least one block, so read_pages has fuel for the blocks; with no block in
-- a page it gives endless. The sections of a boot catalog take 64, as each is at least 32 of its 2048
-- bytes. A slice out of range is the result panic.
--
-- Not modelled: logging; memory that a caller's pointer reaches, but for what a call writes there;
-- the devices behind wait_for_event (its passes hold their answers), the commands and control
-- transfers that set a keyboard up, the registers and rings of the storage and USB controllers; the
-- jump to an image's entry point and the image calls of the boot services; coreboot tables, consoles,
-- device paths and controllers.
pub mod Prelude
pub mod Status
pub mod Bytes
pub mod Disk
pub mod Allocator
pub mod Protocols
pub mod Variables
pub mod Events
pub mod Collation
pub mod Pe
pub mod Gpt
pub mod Fat
pub mod Keyboard
pub mod Storage
pub mod FileSystem
pub mod Iso
