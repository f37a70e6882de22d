-- ===== src/Virtio/Queue.antt =====
-- The virtqueue of src/virtio/virtio.c, over include/virtio/virtio.h. The rings are the guest's memory
-- at the addresses that the queue was given; the guest fills them too.
pub mod Fifo
use purevisor.Base.{
  ℕ, zero, suc, ◌+◌, ◌-◌, ◌*◌, ◌/◌, ◌%◌, ◌^◌, Bool, true, false, ◌&&◌, ◌||◌, not, Option, none,
  some, if◌then◌else◌, ltb, leb, ◌==◌, add64, update,
}

-- `virtq_desc_t`.
pub record Desc : Type 0 where
  pub addr : ℕ
  pub len : ℕ
  pub flags : ℕ
  pub next : ℕ

-- `virtq_used_elem_t`.
pub record UsedElem : Type 0 where
  pub id : ℕ
  pub len : ℕ

-- What stands at the addresses of a queue: the descriptor table, `virtq_avail_t` with `used_event` behind
-- its ring, and `virtq_used_t`.
pub record Rings : Type 0 where
  pub desc : ℕ → Desc
  pub avail_flags : ℕ
  pub avail_idx : ℕ
  pub avail_ring : ℕ → ℕ
  pub used_flags : ℕ
  pub used_idx : ℕ
  pub used_ring : ℕ → UsedElem

-- `virtqueue_t`, less the fields that nothing reads; 0 is NULL.
pub record Virtqueue : Type 0 where
  pub num : ℕ
  pub index : ℕ
  pub enabled : Bool
  pub event_idx : Bool
  pub desc_addr : ℕ
  pub avail_addr : ℕ
  pub used_addr : ℕ
  pub desc : ℕ
  pub avail : ℕ
  pub used : ℕ
  pub last_avail_idx : ℕ
  pub last_used_idx : ℕ

-- (uint16_t)a
abbrev pub u16 : ℕ → ℕ
u16 a = a % 65536

-- a & 1
abbrev pub low_bit : ℕ → Bool
low_bit a = a % 2 == 1

abbrev pub phys_to_virt : ℕ → ℕ
phys_to_virt paddr = add64 paddr 18446603336221196288

abbrev pub virtq_init : ℕ → ℕ → Virtqueue
virtq_init index size = record {
  num = size;
  index = index;
  enabled = false;
  event_idx = false;
  desc_addr = 0;
  avail_addr = 0;
  used_addr = 0;
  desc = 0;
  avail = 0;
  used = 0;
  last_avail_idx = 0;
  last_used_idx = 0;
}

abbrev pub virtq_set_addr : Virtqueue → ℕ → ℕ → ℕ → Virtqueue
virtq_set_addr vq desc avail used = record vq {
  desc_addr = desc;
  avail_addr = avail;
  used_addr = used;
  desc = phys_to_virt desc;
  avail = phys_to_virt avail;
  used = phys_to_virt used;
  enabled = true;
}

-- How many descriptors the chain from `idx` has, counted up to the rounds left. The table is read
-- wherever the guest's `next` leads.
unfoldable pub chain_count : Rings → ℕ → ℕ → ℕ
chain_count m idx zero = 0
chain_count m idx (suc n) =
    let rest = chain_count m (m.desc idx).next n in
    if low_bit (m.desc idx).flags then suc rest else 1

-- `none` is the return value 0 of an empty or disabled queue; else the head and the count. A queue of
-- size 0 divides by 0.
unfoldable pub virtq_pop : Virtqueue → Rings → Option (ℕ × ℕ) × Virtqueue
virtq_pop vq m =
    if not vq.enabled || (vq.avail == 0)
    then (none, vq)
    else if vq.last_avail_idx == m.avail_idx
    then (none, vq)
    else (
      some (
        m.avail_ring (vq.last_avail_idx % vq.num),
        chain_count m (m.avail_ring (vq.last_avail_idx % vq.num)) vq.num,
      ),
      record vq { last_avail_idx = u16 (vq.last_avail_idx + 1) },
    )

-- `none` is the return value -1.
unfoldable pub virtq_get_desc : Virtqueue → Rings → ℕ → Option Desc
virtq_get_desc vq m index = if not vq.enabled || leb vq.num index then none else some (m.desc index)

unfoldable pub virtq_push : Virtqueue → Rings → ℕ → ℕ → Virtqueue × Rings
virtq_push vq m head len = if not vq.enabled || (vq.used == 0) then (vq, m) else (
  record vq { last_used_idx = u16 (vq.last_used_idx + 1) },
  record m {
    used_ring = update m.used_ring (m.used_idx % vq.num) (record { id = head; len = len });
    used_idx = u16 (m.used_idx + 1);
  },
)

-- The comparison is of `int`s, which may be negative: both sides stand 131072 higher here.
unfoldable pub virtq_should_notify : Virtqueue → Rings → Bool
virtq_should_notify vq m =
    let used_event = m.avail_ring vq.num in
    let old_idx = u16 (vq.last_used_idx + 65535) in
    if not vq.enabled || (vq.avail == 0)
    then false
    else if low_bit m.avail_flags
    then false
    else if vq.event_idx
    then ltb (m.used_idx + 131072 - used_event - 1) (m.used_idx + 131072 - old_idx)
    else true

abbrev pub virtq_enable_notify : Virtqueue → Rings → Rings
virtq_enable_notify vq m =
    if vq.used == 0 then m else record m { used_flags = m.used_flags - m.used_flags % 2 }

abbrev pub virtq_disable_notify : Virtqueue → Rings → Rings
virtq_disable_notify vq m =
    if vq.used == 0 then m else record m { used_flags = m.used_flags - m.used_flags % 2 + 1 }
