-- ===== src/Storage/BlockIo.antt =====
-- src/efi/protocols/block_io.rs: Block I/O protocols over the registry. A pointer to a protocol is
-- its address, and null is 0; the addresses that the pool gives are parameters. The result none is
-- the panic of a division by zero.
use crab_efi.Prelude.{
  ℕ, zero, suc, ◌+◌, ◌-◌, ◌/◌, ◌%◌, Bool, true, false, ◌||◌, Option, none, some, List, [], ◌∷◌,
  ◌++◌, ◌==◌, ltb, if◌then◌else◌, ok, err, get_or, replicate, set, add64,
}
use crab_efi.Status.{
  Status, success, invalid_parameter, media_changed, bad_buffer_size, device_error, write_protected,
}
use crab_efi.Storage.{StorageRegistry, Drivers, ReadResult, free_slot, read_sectors}

pub record BlockIoMedia : Type 0 where
  pub media_id : ℕ
  pub logical_partition : Bool
  pub block_size : ℕ
  pub last_block : ℕ

pub record BlockIoContext : Type 0 where
  pub media_id : ℕ
  pub storage_device_id : ℕ
  pub start_lba : ℕ
  pub num_blocks : ℕ
  pub block_size : ℕ

abbrev pub max_block_io_instances : ℕ
max_block_io_instances = 16

-- The two static arrays.
pub record BlockIo : Type 0 where
  pub contexts : List (Option BlockIoContext)
  pub protocols : List (Option ℕ)

abbrev pub new_block_io : BlockIo
new_block_io = record {
  contexts = replicate max_block_io_instances none;
  protocols = replicate max_block_io_instances none;
}

abbrev pub is_protocol : Option ℕ → ℕ → Bool
is_protocol none protocol = false
is_protocol (some p) protocol = p == protocol

unfoldable pub find_context_index : List (Option ℕ) → ℕ → Option ℕ
find_context_index [] protocol = none
find_context_index (p ∷ ps) protocol =
    let rest = find_context_index ps protocol in
    if is_protocol p protocol then some 0 else elim rest [ none ↦ none | some i ↦ some (suc i) ]

-- The end of the loop at an error, and where the rest of the loop is known.
abbrev pub and_rest : ReadResult → Status × List ℕ → Status × List ℕ
and_rest (err failure) rest = (device_error, [])
and_rest (ok bytes) rest = (rest.0, bytes ++ rest.1)

-- The loop over the blocks from the i-th on: the status, and the bytes that are in the buffer then.
abbrev pub read_each : (ℕ → ReadResult) → ℕ → ℕ → ℕ → Status × List ℕ
read_each read base i zero = (success, [])
read_each read base i (suc n) = and_rest (read (add64 base i)) (read_each read base (i + 1) n)

abbrev pub read_counted : StorageRegistry → Drivers → BlockIoContext → ℕ → ℕ → Status × List ℕ
read_counted r drivers ctx lba num_blocks =
    if ltb ctx.num_blocks (add64 lba num_blocks)
    then (invalid_parameter, [])
    else read_each (λ block. read_sectors r drivers ctx.storage_device_id block ctx.block_size)
        (add64 ctx.start_lba lba) 0 num_blocks

-- `is_multiple_of`
abbrev pub is_multiple_of : ℕ → ℕ → Bool
is_multiple_of a zero = a == 0
is_multiple_of a (suc b) = a % suc b == 0

abbrev pub read_context :
    StorageRegistry → Drivers → BlockIoContext → ℕ → ℕ → ℕ → Option (Status × List ℕ)
read_context r drivers ctx media_id lba buffer_size =
    if media_id == ctx.media_id
    then if is_multiple_of buffer_size ctx.block_size
      then if ctx.block_size == 0
        then none
        else some (read_counted r drivers ctx lba (buffer_size / ctx.block_size))
      else some (bad_buffer_size, [])
    else some (media_changed, [])

abbrev pub read_found :
    StorageRegistry → Drivers → Option BlockIoContext → ℕ → ℕ → ℕ → Option (Status × List ℕ)
read_found r drivers none media_id lba buffer_size = some (invalid_parameter, [])
read_found r drivers (some ctx) media_id lba buffer_size =
    read_context r drivers ctx media_id lba buffer_size

-- `BLOCK_IO_CONTEXTS[ctx_idx]`
abbrev pub context_at : BlockIo → Option ℕ → Option BlockIoContext
context_at io none = none
context_at io (some i) = get_or io.contexts i none

unfoldable pub block_io_read_blocks :
    StorageRegistry → Drivers → BlockIo → ℕ → ℕ → ℕ → ℕ → Bool → Option (Status × List ℕ)
block_io_read_blocks r drivers io this media_id lba buffer_size buffer_is_null =
    if this == 0 || buffer_is_null
    then some (invalid_parameter, [])
    else read_found r drivers (context_at io (find_context_index io.protocols this)) media_id lba
        buffer_size

abbrev pub block_io_write_blocks : ℕ → ℕ → ℕ → ℕ → Status
block_io_write_blocks this media_id lba buffer_size = write_protected

abbrev pub block_io_reset : ℕ → Bool → Status
block_io_reset this extended_verification = success

abbrev pub block_io_flush_blocks : ℕ → Status
block_io_flush_blocks this = success

-- The media that a new protocol points at; the fields that are the same for all are left out.
abbrev pub media_of : ℕ → ℕ → ℕ → Bool → BlockIoMedia
media_of media_id num_blocks block_size is_partition = record {
  media_id = media_id;
  logical_partition = is_partition;
  block_size = block_size;
  last_block = num_blocks - 1;
}

abbrev pub create_at :
    BlockIo → BlockIoContext → Bool → ℕ → ℕ → Option ℕ → BlockIo × ℕ × Option BlockIoMedia
create_at io ctx is_partition media_ptr protocol_ptr none = (io, 0, none)
create_at io ctx is_partition media_ptr protocol_ptr (some i) =
    if media_ptr == 0 || protocol_ptr == 0 then (io, 0, none) else (
      record {
        contexts = set io.contexts i (some ctx);
        protocols = set io.protocols i (some protocol_ptr);
      },
      protocol_ptr,
      some (media_of ctx.media_id ctx.num_blocks ctx.block_size is_partition),
    )

-- The arguments that fill the context come as one. The pool gives the two addresses.
unfoldable pub create_block_io_internal :
    BlockIo → BlockIoContext → Bool → ℕ → ℕ → BlockIo × ℕ × Option BlockIoMedia
create_block_io_internal io ctx is_partition media_ptr protocol_ptr =
    create_at io ctx is_partition media_ptr protocol_ptr (free_slot io.contexts)

abbrev pub create_disk_block_io : BlockIo → ℕ → ℕ → ℕ → ℕ → ℕ → BlockIo × ℕ × Option BlockIoMedia
create_disk_block_io io storage_device_id num_blocks block_size =
    create_block_io_internal io
      (record {
        media_id = 0;
        storage_device_id = storage_device_id;
        start_lba = 0;
        num_blocks = num_blocks;
        block_size = block_size;
      })
      false

abbrev pub create_partition_block_io :
    BlockIo → ℕ → ℕ → ℕ → ℕ → ℕ → ℕ → ℕ → BlockIo × ℕ × Option BlockIoMedia
create_partition_block_io io storage_device_id partition_num start_lba num_blocks block_size =
    create_block_io_internal io
      (record {
        media_id = partition_num;
        storage_device_id = storage_device_id;
        start_lba = start_lba;
        num_blocks = num_blocks;
        block_size = block_size;
      })
      true
