-- ===== src/Virtio/Tests.antt =====
-- The theorems on virtual devices at a queue of four places and a disk of one sector.
use purevisor.Base.{
  subst, sym, suc, zero, inl, true, List, ◌++◌, ℕ, ◌≡◌, refl, false, [], ◌∷◌, some, none, arith,
  replicate, if◌then◌else◌, ◌==◌,
}
use purevisor.Virtio.Queue.{
  Desc, Rings, UsedElem, Virtqueue, virtq_init, virtq_set_addr, virtq_pop, virtq_get_desc,
  chain_count, low_bit,
}
use purevisor.Virtio.Queue.Fifo.{
  IsRing, add, take, run_ring, run_queue, pending, run_ring-run_queue,
}
use purevisor.Virtio.Device.{VirtioDevice, virtio_pci_init, virtio_add_queue}
use purevisor.Virtio.Device.Registers.{register, WasReset, reset-WasReset}
use purevisor.Storage.Distributed.{le_bytes}
use purevisor.Virtio.Disk.{
  Backend, Guest, disk_id, process_request, read_mem, write_mem, load_desc, desc_of, rings_in, walk,
  body_in,
}
use mathlib.Core.Bool.{false≢true}
use purevisor.Virtio.Disk.Ends.{ClearTable, request_ends, IsLoop, request_loops}
use purevisor.Virtio.Disk.Chains.{IsChain, disk_with}
use purevisor.Virtio.Disk.Requests.{read_after_write_request}

abbrev no_elem : UsedElem
no_elem = record { id = 0; len = 0 }

-- A header, a buffer of two bytes and a status byte; `flags` are those of the buffer.
abbrev three_descs : ℕ → ℕ → Desc
three_descs flags i =
    if i == 0
    then record { addr = 0; len = 16; flags = 1; next = 1 }
    else if i == 1
    then record { addr = 32; len = 2; flags = flags; next = 2 }
    else record { addr = 64; len = 1; flags = 2; next = 0 }

abbrev small_rings : ℕ → Rings
small_rings flags = record {
  desc = three_descs flags;
  avail_flags = 0;
  avail_idx = 1;
  avail_ring = λ i. 0;
  used_flags = 0;
  used_idx = 0;
  used_ring = λ i. no_elem;
}

abbrev small_queue : Virtqueue
small_queue = virtq_set_addr (virtq_init 0 4) 4096 4160 8192

small_queue-IsRing : IsRing small_queue (small_rings 1)
small_queue-IsRing = record {
  enabled = refl;
  mapped = λ e. absurd (omega (arith, e));
  size = refl;
  last = omega arith;
  idx = omega arith;
  fits = omega arith;
}

run_ring-run_queue_example :
    run_ring small_queue (small_rings 1) (add 2 ∷ take ∷ take ∷ take ∷ [])
    ≡ run_queue 4 (pending small_queue (small_rings 1)) (add 2 ∷ take ∷ take ∷ take ∷ [])
run_ring-run_queue_example =
    run_ring-run_queue small_queue (small_rings 1) (add 2 ∷ take ∷ take ∷ take ∷ [])
      small_queue-IsRing (omega arith)

-- The head that waits, the one that is added, and then none.
fifo_order :
    run_queue 4 (pending small_queue (small_rings 1)) (add 2 ∷ take ∷ take ∷ take ∷ [])
    ≡ some 0 ∷ some 2 ∷ none ∷ []
fifo_order = refl

-- A block device with one queue, and callbacks that do nothing.
abbrev one_queue : VirtioDevice
one_queue = (virtio_add_queue (virtio_pci_init 2) 256).1

abbrev no_notify : ℕ → VirtioDevice → ℕ → ℕ × VirtioDevice
no_notify e d q = (e, d)

abbrev no_write : ℕ → VirtioDevice → ℕ → ℕ → ℕ → ℕ × VirtioDevice
no_write e d offset size v = (e, d)

abbrev no_reset : ℕ → VirtioDevice → ℕ × VirtioDevice
no_reset e d = (e, d)

reset-WasReset_example :
    WasReset one_queue (register no_notify no_write no_reset 0 one_queue 18 0).1
reset-WasReset_example = reset-WasReset no_notify no_write no_reset 0 one_queue (λ d v. refl)

abbrev small_backend : Backend
small_backend = record {
  size = 512;
  sector_size = 512;
  readonly = false;
  id = disk_id;
  bytes = replicate 512 0;
}

-- A descriptor as the guest writes it.
abbrev desc_bytes : Desc → List ℕ
desc_bytes d = le_bytes 8 d.addr ++ (le_bytes 4 d.len ++ (le_bytes 2 d.flags ++ le_bytes 2 d.next))

-- Memory of zeroes but for the header's type, the buffer and the descriptor table at 4096.
abbrev guest_memory : ℕ → ℕ → ℕ → ℕ → ℕ
guest_memory type' b flags =
    write_mem (λ a. if a == 0 then type' else if a == 32 then b else 0) 4096
      (desc_bytes (three_descs flags 0)
        ++ (desc_bytes (three_descs flags 1) ++ desc_bytes (three_descs flags 2)))

abbrev writer : Guest
writer = record {
  mem = guest_memory 1 9 1;
  rings = small_rings 1;
  queue = small_queue;
  backend = small_backend;
}

abbrev reader : Guest
reader = record {
  mem = guest_memory 0 0 3;
  rings = small_rings 3;
  queue = small_queue;
  backend = disk_with small_backend 0 (9 ∷ 0 ∷ []);
}

writer-IsChain : IsChain writer 0 1 2 0 2
unfolding load_desc
writer-IsChain = record {
  enabled = refl;
  head_in = omega arith;
  data_in = omega arith;
  stat_in = omega arith;
  at_sector = refl;
  head_more = refl;
  head_next = refl;
  data_more = refl;
  data_next = refl;
  data_len = refl;
  real = omega arith;
  stat_last = refl;
  stat_writable = refl;
  stat_len = refl;
  fits = omega arith;
  small = omega arith;
}

reader-IsChain : IsChain reader 0 1 2 0 2
unfolding load_desc
reader-IsChain = record {
  enabled = refl;
  head_in = omega arith;
  data_in = omega arith;
  stat_in = omega arith;
  at_sector = refl;
  head_more = refl;
  head_next = refl;
  data_more = refl;
  data_next = refl;
  data_len = refl;
  real = omega arith;
  stat_last = refl;
  stat_writable = refl;
  stat_len = refl;
  fits = omega arith;
  small = omega arith;
}

read_after_write_request_example :
    (g' g2' : Guest) × (process_request 2 writer 0 ≡ some g')
    × (g'.backend ≡ disk_with writer.backend 0 (9 ∷ 0 ∷ []))
    × (process_request 2 reader 0 ≡ some g2')
    × (read_mem g2'.mem 32 2 ≡ 9 ∷ 0 ∷ [])
    × (g2'.mem 64 ≡ 0)
    × (g2'.rings.used_ring 0 ≡ record { id = 0; len = 1 })
unfolding load_desc
read_after_write_request_example =
    read_after_write_request writer reader 0 1 2 0 1 2 0 2 writer-IsChain refl refl refl
      (omega arith) reader-IsChain refl refl (λ k l. λ e. absurd (omega (arith, e, l)))
      (inl (omega arith)) (λ e. absurd (omega (arith, e))) refl

writer-ClearTable : ClearTable writer
unfolding load_desc
writer-ClearTable zero l w = absurd (false≢true w)
writer-ClearTable (suc zero) l w = absurd (false≢true w)
writer-ClearTable (suc (suc zero)) l w = (inl (omega arith), inl (omega arith))
writer-ClearTable (suc (suc (suc zero))) l w = absurd (false≢true w)
writer-ClearTable (suc (suc (suc (suc i)))) l w = absurd (omega (arith, l))

request_ends_example : (g' : Guest) × (process_request 3 writer 0 ≡ some g')
unfolding virtq_pop chain_count load_desc
request_ends_example = request_ends writer 0 3 writer-ClearTable refl (omega arith)

-- A header that is its own next descriptor.
abbrev circle : Guest
circle = record writer {
  mem = write_mem (λ a. 0) 4096 (desc_bytes (record { addr = 0; len = 16; flags = 1; next = 0 }));
}

circle-IsLoop : IsLoop circle (λ i. i ≡ 0)
unfolding load_desc
circle-IsLoop = record {
  enabled = refl;
  inside = λ i e. omega (arith, e);
  more = λ i e. subst (λ k. low_bit (desc_of circle k).flags ≡ true) (sym e) refl;
  stays = λ i e. subst (λ k. (desc_of circle k).next ≡ 0) (sym e) refl;
}

circle-ClearTable : ClearTable circle
unfolding load_desc
circle-ClearTable zero l w = absurd (false≢true w)
circle-ClearTable (suc zero) l w = absurd (false≢true w)
circle-ClearTable (suc (suc zero)) l w = absurd (false≢true w)
circle-ClearTable (suc (suc (suc zero))) l w = absurd (false≢true w)
circle-ClearTable (suc (suc (suc (suc i)))) l w = absurd (omega (arith, l))

request_loops_example : process_request 100 circle 0 ≡ none
unfolding load_desc
request_loops_example =
    request_loops circle (λ i. i ≡ 0) 0 100 circle-ClearTable circle-IsLoop refl refl

-- A read whose buffer lies over the descriptor of its status byte: what it brings there is a descriptor
-- that is its own next, so the loop does not end although the chain was counted as three descriptors.
abbrev relinked : Guest
relinked = record reader {
  mem =
      write_mem (λ a. 0) 4096
        (desc_bytes (record { addr = 0; len = 16; flags = 1; next = 1 })
          ++ (desc_bytes (record { addr = 4128; len = 16; flags = 3; next = 2 })
              ++ desc_bytes (record { addr = 64; len = 1; flags = 2; next = 0 })));
  backend =
      disk_with small_backend 0
        (desc_bytes (record { addr = 4128; len = 16; flags = 1; next = 2 }));
}

relinked_counted :
    (virtq_pop relinked.queue (rings_in relinked.queue relinked.rings relinked.mem)).0 ≡ some (0, 3)
unfolding virtq_pop chain_count load_desc
relinked_counted = refl

relinked_unended : process_request 50 relinked 0 ≡ none
unfolding process_request walk body_in virtq_get_desc load_desc
relinked_unended = refl
