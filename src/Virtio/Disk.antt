-- ===== src/Virtio/Disk.antt =====
-- The virtual block device of src/virtio/virtio_blk.c, over include/virtio/virtio_blk.h, with its memory
-- backend. The guest's memory is bytes by physical address, the descriptor table among them; what the
-- available and the used ring hold stands beside it.
pub mod Chains
pub mod Requests
pub mod Ends
pub mod Table
use purevisor.Base.{
  ℕ, zero, suc, ◌+◌, ◌-◌, ◌*◌, ◌/◌, ◌%◌, ◌^◌, Bool, true, false, ◌&&◌, ◌||◌, not, List, [], ◌∷◌,
  ◌++◌, Option, none, some, if◌then◌else◌, ltb, leb, ◌==◌, add32, add64, mul64, take, length,
  get_or, slice, write_at, replicate,
}
use purevisor.Storage.Distributed.{from_le, le_bytes}
use purevisor.Virtio.Queue.{
  Desc, Rings, Virtqueue, low_bit, virtq_pop, virtq_get_desc, virtq_push, virtq_should_notify,
}
use purevisor.Virtio.Device.{VirtioDevice, virtio_pci_init, virtio_add_queue, virtio_set_config}

-- `blk_backend_t` of memory: the bytes it was given, and the size that it believes in.
pub record Backend : Type 0 where
  pub size : ℕ
  pub sector_size : ℕ
  pub readonly : Bool
  pub id : List ℕ
  pub bytes : List ℕ

-- `none` is the return value -1.
abbrev pub memory_read : Backend → ℕ → ℕ → Option (List ℕ)
memory_read be offset len =
    if ltb be.size (add64 offset len) then none else some (slice be.bytes offset len)

abbrev pub memory_write : Backend → ℕ → List ℕ → ℕ → Option Backend
memory_write be offset buf len =
    if be.readonly || ltb be.size (add64 offset len)
    then none
    else some (record be { bytes = write_at be.bytes offset (take len buf) })

-- The pages of a disk, and the order that it asks of the page allocator.
abbrev pub disk_pages : ℕ → ℕ
disk_pages size = add64 size 4095 / 4096

abbrev pub disk_order : ℕ → ℕ
disk_order size = if ltb 10 (disk_pages size) then 10 else disk_pages size

-- "PureVisor-RAMDisk", and what the `kzalloc` leaves behind it.
abbrev pub disk_id : List ℕ
disk_id =
    80 ∷ 117 ∷ 114 ∷ 101 ∷ 86 ∷ 105 ∷ 115 ∷ 111 ∷ 114 ∷ 45 ∷ 82 ∷ 65 ∷ 77 ∷ 68 ∷ 105 ∷ 115 ∷ 107 ∷ 0
    ∷ 0 ∷ 0 ∷ []

-- When both allocations succeed; the bytes are those that the page allocator granted.
abbrev pub blk_backend_create_memory : ℕ → Backend
blk_backend_create_memory size = record {
  size = mul64 (disk_pages size) 4096;
  sector_size = 512;
  readonly = false;
  id = disk_id;
  bytes = replicate (2 ^ disk_order size * 4096) 0;
}

abbrev pub read_mem : (ℕ → ℕ) → ℕ → ℕ → List ℕ
read_mem mem a zero = []
read_mem mem a (suc n) = mem a ∷ read_mem mem (a + 1) n

abbrev pub write_mem : (ℕ → ℕ) → ℕ → List ℕ → ℕ → ℕ
write_mem mem a bs x = if leb a x && ltb x (a + length bs) then get_or bs (x - a) 0 else mem x

-- Entry `i` of the descriptor table at `table`, in the bytes of `virtq_desc_t`.
unfoldable pub load_desc : (ℕ → ℕ) → ℕ → ℕ → Desc
load_desc mem table i = record {
  addr = from_le (read_mem mem (table + i * 16) 8);
  len = from_le (read_mem mem (table + i * 16 + 8) 4);
  flags = from_le (read_mem mem (table + i * 16 + 12) 2);
  next = from_le (read_mem mem (table + i * 16 + 14) 2);
}

-- The rings of the queue, with the descriptors that the memory holds by now.
abbrev pub rings_in : Virtqueue → Rings → (ℕ → ℕ) → Rings
rings_in vq m mem = record m { desc = load_desc mem vq.desc_addr }

-- flags & VIRTQ_DESC_F_WRITE
abbrev pub is_writable : Desc → Bool
is_writable d = low_bit (d.flags / 2)

-- The locals of `process_request` with the memory and the disk that it works on.
pub record Work : Type 0 where
  pub mem : ℕ → ℕ
  pub backend : Backend
  pub status : ℕ
  pub written : ℕ
  pub sector : ℕ

abbrev pub put_status : Work → Desc → Work
put_status w d = record w { mem = write_mem w.mem d.addr (w.status ∷ []); written = 1 }

abbrev pub data_in : Work → Desc → Option (List ℕ) → Work
data_in w d none = record w {
  status = 1;
  sector = add64 w.sector (d.len / 512);
  written = add32 w.written d.len;
}
data_in w d (some bs) = record w {
  mem = write_mem w.mem d.addr bs;
  sector = add64 w.sector (d.len / 512);
  written = add32 w.written d.len;
}

-- The bodies of the loops over the chain, each with whether it breaks the loop.
unfoldable pub body_in : Work → Desc → Bool × Work
body_in w d = (
  false,
  if is_writable d
      then (if d.len == 1
          then put_status w d
          else data_in w d (memory_read w.backend (mul64 w.sector 512) d.len))
      else w,
)

abbrev pub data_out : Work → Desc → Option Backend → Work
data_out w d none = record w { status = 1; sector = add64 w.sector (d.len / 512) }
data_out w d (some be) = record w { backend = be; sector = add64 w.sector (d.len / 512) }

unfoldable pub body_out : Work → Desc → Bool × Work
body_out w d = (
  false,
  if is_writable d
      then put_status w d
      else if ltb 1 d.len
      then data_out w d
          (memory_write w.backend (mul64 w.sector 512) (read_mem w.mem d.addr d.len) d.len)
      else w,
)

unfoldable pub body_id : Work → Desc → Bool × Work
body_id w d =
    let len = if ltb d.len 20 then d.len else 20 in
    (
      false,
      if is_writable d
          then (if d.len == 1 then put_status w d else record w {
            mem = write_mem w.mem d.addr (take len w.backend.id);
            written = add32 w.written len;
          })
          else w,
    )

-- The search for the status descriptor.
unfoldable pub body_status : Work → Desc → Bool × Work
body_status w d = if is_writable d && (d.len == 1) then (true, put_status w d) else (false, w)

-- while (has_next), with the rounds left; `none` when they are used up. Each round reads its descriptor
-- from the memory that the rounds before it left.
unfoldable pub walk :
    (Work → Desc → Bool × Work) → Virtqueue → Rings → Bool → ℕ → Work → ℕ → Option Work
walk body vq m false next w n = some w
walk body vq m true next w zero = none
walk body vq m true next w (suc n) = elim (virtq_get_desc vq (rings_in vq m w.mem) next) [
  | none ↦ some w
  | some d ↦
      let rest = walk body vq m (low_bit d.flags) d.next (body w d).1 n in
      if (body w d).0 then some (body w d).1 else rest
]

-- VIRTIO_BLK_T_IN and the three others that are served.
pub data Request : Type 0 where
  read_data write_data flush get_id other : Request

abbrev pub request_of : ℕ → Request
request_of type' =
    if type' == 0
    then read_data
    else if type' == 1
    then write_data
    else if type' == 4
    then flush
    else if type' == 8
    then get_id
    else other

abbrev pub body_of : Request → Work → Desc → Bool × Work
body_of read_data = body_in
body_of write_data = body_out
body_of flush = body_status
body_of get_id = body_id
body_of other = body_status

-- `status` at the start of the loop: the memory backend's flush succeeds.
abbrev pub status_of : Request → ℕ
status_of read_data = 0
status_of write_data = 0
status_of flush = 0
status_of get_id = 0
status_of other = 2

-- The guest's memory and rings, with the queue and the disk. The descriptors are those in `mem`.
pub record Guest : Type 0 where
  pub mem : ℕ → ℕ
  pub rings : Rings
  pub queue : Virtqueue
  pub backend : Backend

abbrev pub desc_of : Guest → ℕ → Desc
desc_of g i = load_desc g.mem g.queue.desc_addr i

abbrev pub request_at : (ℕ → ℕ) → Desc → Request
request_at mem d = request_of (from_le (read_mem mem d.addr 4))

abbrev pub start_work : Guest → Desc → Work
start_work g d = record {
  mem = g.mem;
  backend = g.backend;
  status = status_of (request_at g.mem d);
  written = 0;
  sector = from_le (read_mem g.mem (d.addr + 8) 8);
}

abbrev pub push_work : Guest → ℕ → Option Work → Option Guest
push_work g head none = none
push_work g head (some w) = some (record g {
  mem = w.mem;
  backend = w.backend;
  queue = (virtq_push g.queue g.rings head w.written).0;
  rings = (virtq_push g.queue g.rings head w.written).1;
})

abbrev pub serve_head : ℕ → Guest → ℕ → Option Desc → Option Guest
serve_head n g head none = some g
serve_head n g head (some d) = push_work g head (
    walk (body_of (request_at g.mem d)) g.queue g.rings (low_bit d.flags) d.next (start_work g d) n)

-- `n` bounds the rounds of the loop over the chain; `none` when they are used up.
unfoldable pub process_request : ℕ → Guest → ℕ → Option Guest
process_request n g head =
    serve_head n g head (virtq_get_desc g.queue (rings_in g.queue g.rings g.mem) head)

-- while (virtq_pop(vq, &head) > 0), with the rounds left.
unfoldable pub serve_all : ℕ → ℕ → Guest → Option Guest
serve_all n zero g = none
serve_all n (suc k) g = elim (virtq_pop g.queue (rings_in g.queue g.rings g.mem)).0 [
  | none ↦ some g
  | some (head, count) ↦
      elim (process_request n
        (record g { queue = (virtq_pop g.queue (rings_in g.queue g.rings g.mem)).1 }) head) [
          | none ↦ none
          | some g' ↦ serve_all n k g'
        ]
]

-- isr_status |= 1
abbrev pub raise : VirtioDevice → VirtioDevice
raise dev = record dev {
  isr_status = dev.isr_status - dev.isr_status % 2 + 1;
  pci = record dev.pci { interrupt_pending = true };
}

-- The queue that is notified is the guest's; `none` when the rounds are used up.
unfoldable pub blk_queue_notify :
    ℕ → ℕ → VirtioDevice → Guest → ℕ → Option (Bool × (VirtioDevice × Guest))
blk_queue_notify n k dev g queue =
    if leb dev.num_queues queue then some (false, (dev, g)) else elim (serve_all n k g) [
      | none ↦ none
      | some g' ↦
          some (true, (if virtq_should_notify g'.queue g'.rings then raise dev else dev, g'))
    ]

-- `virtio_blk_config_t`, as bytes.
abbrev pub blk_config : Backend → List ℕ
blk_config be =
    le_bytes 8 (be.size / 512)
    ++ (le_bytes 4 4096
        ++ (le_bytes 4 128
            ++ (replicate 4 0
                ++ (le_bytes 4 be.sector_size
                    ++ (replicate 10 0 ++ (le_bytes 2 1 ++ replicate 24 0))))))

-- The device that `virtio_blk_create` fills in when `kmalloc` gave memory.
abbrev pub virtio_blk_create : Backend → VirtioDevice
virtio_blk_create be =
    let dev = virtio_pci_init 2 in
    let dev' =
      (virtio_add_queue
        (virtio_set_config
          (record dev {
            host_features = dev.host_features + 4 + 64 + 512 + (if be.readonly then 32 else 0);
          })
          (blk_config be))
        256).1 in
    record dev' { has_notify = true; has_reset = true }
