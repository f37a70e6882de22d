-- ===== src/Storage/MemBlock.antt =====
-- The RAM disk: src/storage/memblk.c. A disk's private data stands at its device's address.
pub mod Laws
use purevisor.Base.{
  ℕ, ◌+◌, ◌*◌, ◌/◌, ◌^◌, Bool, true, false, List, [], ◌∷◌, Option, none, some, if◌then◌else◌, ltb,
  ◌==◌, add64, mul64, update, length, take, replicate, write_at, slice,
}
use purevisor.Storage.Block.{
  Request, Reply, Status, done, failed, BlockOp, read, write, flush, discard, write_zeroes, Device,
}

-- `mem_block_device_t`: the memory it was given, and the size it believes in.
pub record MemDisk : Type 0 where
  pub memory : List ℕ
  pub mem_size : ℕ

-- The completion callback, if the request has one, is given the status.
abbrev pub complete : {S : Type 0} → Request → Status → S → List ℕ → Reply S
complete req st s buf = record {
  state = s;
  buffer = buf;
  status = st;
  completed = if req.has_completion then some st else none;
  ret = st;
}

-- The `switch` of `mem_submit`: the disk's memory, the request's buffer and the status.
abbrev pub perform : Request → List ℕ → List ℕ × (List ℕ × Status)
perform req mem = elim req.op [
  | read ↦ (mem, (write_at req.buffer 0 (slice mem req.offset req.length), done))
  | write ↦ (write_at mem req.offset (take req.length req.buffer), (req.buffer, done))
  | flush ↦ (mem, (req.buffer, done))
  | write_zeroes ↦ (write_at mem req.offset (replicate req.length 0), (req.buffer, done))
  | discard ↦ (mem, (req.buffer, failed))
]

unfoldable pub mem_submit : (ℕ → MemDisk) → ℕ → Request → Reply (ℕ → MemDisk)
mem_submit disks dev req =
    let (mem, (buf, st)) = perform req (disks dev).memory in
    if ltb (disks dev).mem_size (add64 req.offset req.length)
    then complete req failed disks req.buffer
    else complete req st (update disks dev (record (disks dev) { memory = mem })) buf

-- The pages that a disk of `size` bytes needs, and the order that it asks of the page allocator.
abbrev pub pages_for : ℕ → ℕ
pages_for size = add64 size 4095 / 4096

abbrev pub order_for : ℕ → ℕ
order_for size = if ltb 10 (pages_for size) then 10 else pages_for size

-- The bytes that the page allocator hands over for that order.
abbrev pub granted : ℕ → ℕ
granted size = 2 ^ order_for size * 4096

-- The disk and its device that `mem_block_create` fills in when both allocations succeed. The `memset`
-- clears `mem_size` bytes; what of those lies past the memory granted is not the disk's.
pub mem_block_create : List ℕ → ℕ → MemDisk × Device
mem_block_create name size = (
  record { memory = replicate (granted size) 0; mem_size = mul64 (pages_for size) 4096 },
  record {
    name = take 63 name;
    uuid = [];
    id = 0;
    size = mul64 (pages_for size) 4096;
    block_size = 4096;
    num_blocks = mul64 (pages_for size) 4096 / 4096;
    readonly = false;
    online = false;
    has_ops = true;
    has_submit = true;
    has_flush = true;
    read_ops = 0;
    write_ops = 0;
    read_bytes = 0;
    write_bytes = 0;
    errors = 0;
    queue_depth = 0;
    max_queue_depth = 32;
  },
)

-- The order that `mem_block_destroy` gives back to the page allocator.
abbrev pub mem_block_destroy_order : MemDisk → ℕ
mem_block_destroy_order d = order_for d.mem_size
