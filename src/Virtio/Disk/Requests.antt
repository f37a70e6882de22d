-- ===== src/Virtio/Disk/Requests.antt =====
-- A request to write and a request to read, `process_request` of src/virtio/virtio_blk.c: a header, one
-- buffer and the status byte.
use purevisor.Base.{
  ℕ, ◌+◌, ◌*◌, ◌%◌, ◌≡◌, ◌≢◌, ◌<◌, ◌≤◌, refl, ap, ap₂, ◌∙◌, true, false, List, [], ◌∷◌, some, arith,
  mul64, length, slice, drop, inl, inr, write_at, slice-write_at, subst,
}
use purevisor.Virtio.Queue.{virtq_push}
use purevisor.Virtio.Disk.Table.{AreDisjoint, length-take-le, load_desc-write_mem}
use purevisor.Virtio.Disk.{
  memory_read, memory_write, read_mem, write_mem, load_desc, desc_of, is_writable, Work, Guest,
  read_data, write_data, body_of, body_in, body_out, request_at, start_work, push_work,
  process_request, put_status, status_of, data_in, data_out,
}
use purevisor.Virtio.Disk.Chains.{
  IsChain, process_chain, length-read_mem, take-read_mem, read_mem-of, disk_with, buffer_of,
  out_buffer, out_stat, out_goes_on, in_buffer, in_stat, in_goes_on, memory_write-some,
  memory_read-some,
}

-- What the loop leaves of a request to write.
abbrev wrote : Guest → ℕ → ℕ → ℕ → ℕ → ℕ → Work
wrote g head data' stat sector len =
    put_status
      (data_out (start_work g (desc_of g head)) (desc_of g data')
        (some (disk_with g.backend sector (buffer_of g data' len))))
      (desc_of g stat)

write_work :
    (g : Guest) (head data' stat sector len : ℕ)
    → IsChain g head data' stat sector len
    → request_at g.mem (desc_of g head) ≡ write_data
    → is_writable (desc_of g data') ≡ false
    → g.backend.readonly ≡ false
    → process_request 2 g head ≡ push_work g head (some (wrote g head data' stat sector len))
write_work g head data' stat sector len v q ro rd =
    let d = desc_of g data' in
    let s = desc_of g stat in
    let w = start_work g (desc_of g head) in
    let stored : memory_write w.backend (mul64 w.sector 512) (read_mem w.mem d.addr d.len) d.len
        ≡ some (disk_with g.backend sector (buffer_of g data' len)) =
      ap₂ (λ k n. memory_write g.backend (mul64 k 512) (read_mem g.mem d.addr n) n) v.at_sector
        v.data_len
      ∙ memory_write-some g.backend sector len (read_mem g.mem d.addr len) rd v.fits v.small
      ∙ ap (λ l. some (disk_with g.backend sector l)) (take-read_mem g.mem d.addr len) in
    let put = out_buffer w d _ ro (omega (arith, v.data_len, v.real)) stored in
    process_chain body_out g head data' stat sector len out_goes_on (ap body_of q)
      (ap (λ x. load_desc x.mem g.queue.desc_addr stat) put) v
    ∙ ap (λ x. push_work g head (some x))
        (out_stat _ s v.stat_writable ∙ ap (λ x. put_status x s) put)

-- What the loop leaves of a request to read.
abbrev gave : Guest → ℕ → ℕ → ℕ → ℕ → ℕ → Work
gave g head data' stat sector len =
    put_status
      (data_in (start_work g (desc_of g head)) (desc_of g data')
        (some (slice g.backend.bytes (sector * 512) len)))
      (desc_of g stat)

shorter : (a n k b : ℕ) → k ≤ n → AreDisjoint a n b 16 → AreDisjoint a k b 16
shorter a n k b l (inl h) = inl (omega (arith, l, h))
shorter a n k b l (inr h) = inr h

read_work :
    (g : Guest) (head data' stat sector len : ℕ)
    → IsChain g head data' stat sector len
    → request_at g.mem (desc_of g head) ≡ read_data
    → is_writable (desc_of g data') ≡ true
    → AreDisjoint (desc_of g data').addr len (g.queue.desc_addr + stat * 16) 16
    → process_request 2 g head ≡ push_work g head (some (gave g head data' stat sector len))
read_work g head data' stat sector len v q wr off =
    let d = desc_of g data' in
    let s = desc_of g stat in
    let w = start_work g (desc_of g head) in
    let found : memory_read w.backend (mul64 w.sector 512) d.len
        ≡ some (slice g.backend.bytes (sector * 512) len) =
      ap₂ (λ k n. memory_read g.backend (mul64 k 512) n) v.at_sector v.data_len
      ∙ memory_read-some g.backend sector len v.fits v.small in
    let put = in_buffer w d _ wr (omega (arith, v.data_len, v.real)) found in
    let bs = slice g.backend.bytes (sector * 512) len in
    let short : length bs ≤ len = length-take-le len (drop (sector * 512) g.backend.bytes) in
    process_chain body_in g head data' stat sector len in_goes_on (ap body_of q)
      (ap (λ x. load_desc x.mem g.queue.desc_addr stat) put
        ∙ load_desc-write_mem g.mem d.addr bs g.queue.desc_addr stat
            (shorter d.addr len (length bs) (g.queue.desc_addr + stat * 16) short off))
      v
    ∙ ap (λ x. push_work g head (some x))
        (in_stat _ s v.stat_writable v.stat_len ∙ ap (λ x. put_status x s) put)

write_mem_one : (mem : ℕ → ℕ) (a v : ℕ) → write_mem mem a (v ∷ []) a ≡ v
write_mem_one mem a v = ground arith

-- A completion in the used ring, with a length of 1.
used_one :
    (g : Guest) (head : ℕ) (w : Work)
    → g.queue.enabled ≡ true
    → g.queue.used ≢ 0
    → w.written ≡ 1
    → (virtq_push g.queue g.rings head w.written).1.used_ring (g.rings.used_idx % g.queue.num)
      ≡ record { id = head; len = 1 }
unfolding virtq_push
used_one g head w e u n = ground (arith, e, u, n)

-- The buffer that a request to read filled.
gave_bytes :
    (g : Guest) (head data' stat sector len : ℕ) (bs : List ℕ)
    → slice g.backend.bytes (sector * 512) len ≡ bs
    → length bs ≡ len
    → ((k : ℕ) → k < len → (desc_of g data').addr + k ≢ (desc_of g stat).addr)
    → read_mem (gave g head data' stat sector len).mem (desc_of g data').addr len ≡ bs
gave_bytes g head data' stat sector len bs e n apart =
    let w = gave g head data' stat sector len in
    let a = (desc_of g data').addr in
    subst (λ k. read_mem w.mem a k ≡ bs) n
      (read_mem-of w.mem bs a (λ k l. ground (arith, apart k (omega (arith, l, n)), l, e)))

-- What a guest writes to sectors of the disk it reads back from there: a request to write one buffer
-- ends with that buffer on the disk, and a request to read as many bytes from the same sector, whatever
-- the guest's memory and rings are by then, ends with the same bytes in its own buffer and the status
-- byte 0. The length that the used ring gives for it is 1 all the same, without the bytes of the
-- buffer. Each request is a chain of a header, one buffer of more than one byte and a status byte; the
-- buffer that is read into covers neither the status byte nor its descriptor in the table; the sectors are on the disk, the disk can be written and has its memory.
pub read_after_write_request :
    (g g2 : Guest) (head data' stat head2 data2 stat2 sector len : ℕ)
    → IsChain g head data' stat sector len
    → request_at g.mem (desc_of g head) ≡ write_data
    → is_writable (desc_of g data') ≡ false
    → g.backend.readonly ≡ false
    → sector * 512 + len ≤ length g.backend.bytes
    → IsChain g2 head2 data2 stat2 sector len
    → request_at g2.mem (desc_of g2 head2) ≡ read_data
    → is_writable (desc_of g2 data2) ≡ true
    → ((k : ℕ) → k < len → (desc_of g2 data2).addr + k ≢ (desc_of g2 stat2).addr)
    → AreDisjoint (desc_of g2 data2).addr len (g2.queue.desc_addr + stat2 * 16) 16
    → g2.queue.used ≢ 0
    → g2.backend ≡ disk_with g.backend sector (buffer_of g data' len)
    → (g' g2' : Guest) × (process_request 2 g head ≡ some g')
      × (g'.backend ≡ disk_with g.backend sector (buffer_of g data' len))
      × (process_request 2 g2 head2 ≡ some g2')
      × (read_mem g2'.mem (desc_of g2 data2).addr len ≡ buffer_of g data' len)
      × (g2'.mem (desc_of g2 stat2).addr ≡ 0)
      × (g2'.rings.used_ring (g2.rings.used_idx % g2.queue.num) ≡ record { id = head2; len = 1 })
read_after_write_request g g2 head data' stat head2 data2 stat2 sector len v q ro rd room v2 q2 wr
      apart off used same =
    let n = length-read_mem g.mem (desc_of g data').addr len in
    let kept : slice g2.backend.bytes (sector * 512) len ≡ buffer_of g data' len =
      ap (λ be. slice be.bytes (sector * 512) len) same
      ∙ subst
          (λ k.
            slice (write_at g.backend.bytes (sector * 512) (buffer_of g data' len)) (sector * 512) k
            ≡ buffer_of g data' len)
          n
          (slice-write_at g.backend.bytes (sector * 512) (buffer_of g data' len)
            (omega (arith, room, n))) in
    (
      _,
      _,
      write_work g head data' stat sector len v q ro rd,
      refl,
      read_work g2 head2 data2 stat2 sector len v2 q2 wr off,
      gave_bytes g2 head2 data2 stat2 sector len (buffer_of g data' len) kept n apart,
      write_mem_one
            (write_mem g2.mem (desc_of g2 data2).addr (slice g2.backend.bytes (sector * 512) len))
            (desc_of g2 stat2).addr (status_of (request_at g2.mem (desc_of g2 head2)))
          ∙ ap status_of q2,
      used_one g2 head2 (gave g2 head2 data2 stat2 sector len) v2.enabled used refl,
    )
