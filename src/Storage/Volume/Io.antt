-- ===== src/Storage/Volume/Io.antt =====
-- Reads and writes through a volume: `volume_submit` of src/storage/pool.c over RAM disks.
use purevisor.Base.{
  ℕ, ◌+◌, ◌/◌, ◌%◌, ◌≡◌, ◌≢◌, ◌<◌, ◌≤◌, refl, ap, ◌∙◌, true, false, List, u32, add64, length, arith,
}
use purevisor.Storage.Block.{Bank, Request, done, read, write, returned, block_read, block_write}
use purevisor.Storage.MemBlock.{mem_submit}
use purevisor.Storage.MemBlock.Laws.{IsDisk, Disks, bytes_of, Written, mem_write_lem, mem_read_lem}
use purevisor.Storage.Pool.{is_offline, extent_size}
use purevisor.Storage.Volume.{
  Depot, served, resolve, serve, perform_io, write_replicas, volume_submit, count_pool_read,
  count_pool_write,
}

abbrev pub write_request : ℕ → List ℕ → Request
write_request offset data' = record {
  op = write;
  offset = offset;
  length = length data';
  buffer = data';
  has_completion = true;
}

abbrev pub read_request : ℕ → List ℕ → Request
read_request offset buf = record {
  op = read;
  offset = offset;
  length = length buf;
  buffer = buf;
  has_completion = true;
}

-- The disk and the offset on it that byte `offset` of a volume resolves to.
abbrev pub extent_at : Depot Disks → ℕ → ℕ → ℕ
extent_at d vol offset = (d.volume vol).extent_map (u32 (offset / extent_size))

abbrev pub disk_at : Depot Disks → ℕ → ℕ
disk_at d e = d.pool.devices (d.pool.extents e).device_id

abbrev pub place_at : Depot Disks → ℕ → ℕ → ℕ
place_at d e offset = (d.pool.extents e).device_offset + offset % extent_size

-- The volume is served and the `len` bytes at `offset` lie in an extent that stands on a disk and has no
-- replica.
pub record IsMapped (d : Depot Disks) (vol offset len : ℕ) : Type 0 where
  pub online : (d.volume vol).online ≡ true
  pub pool_online : is_offline d.pool.state ≡ false
  pub in_range : u32 (offset / extent_size) < (d.volume vol).num_extents
  pub mapped : extent_at d vol offset ≢ 0
  pub alone : (d.pool.extents (extent_at d vol offset)).replica_count ≡ 0
  pub disk : IsDisk d.bank (disk_at d (extent_at d vol offset))
  pub fits :
      place_at d (extent_at d vol offset) offset + len
      ≤ (d.bank.below (disk_at d (extent_at d vol offset))).mem_size

serve_write :
    (d : Depot Disks) (vol offset : ℕ) (data' : List ℕ)
    → IsMapped d vol offset (length data')
    → volume_submit mem_submit (λ k. true) d vol (write_request offset data')
      ≡ perform_io mem_submit
          (λ k. true)
          d
          (extent_at d vol offset)
          (offset % extent_size)
          (write_request offset data')
unfolding volume_submit serve resolve
serve_write d vol offset data' v = ground (arith, v.online, v.pool_online, v.in_range, v.mapped)

serve_read :
    (d : Depot Disks) (vol offset : ℕ) (buf : List ℕ)
    → IsMapped d vol offset (length buf)
    → volume_submit mem_submit (λ k. true) d vol (read_request offset buf)
      ≡ perform_io mem_submit
          (λ k. true)
          d
          (extent_at d vol offset)
          (offset % extent_size)
          (read_request offset buf)
unfolding volume_submit serve resolve
serve_read d vol offset buf v = ground (arith, v.online, v.pool_online, v.in_range, v.mapped)

abbrev pub after_volume_write : Depot Disks → Bank Disks → ℕ → Depot Disks
after_volume_write d b len = record d { bank = b; pool = count_pool_write d.pool len }

abbrev after_volume_read : Depot Disks → Bank Disks → ℕ → Depot Disks
after_volume_read d b len = record d { bank = b; pool = count_pool_read d.pool len }

pub io_write :
    (d : Depot Disks) (e within : ℕ) (data' : List ℕ) (offset : ℕ) (b : Bank Disks)
    → (d.pool.extents e).replica_count ≡ 0
    → block_write mem_submit true d.bank
        (disk_at d e)
        (add64 (d.pool.extents e).device_offset within)
        data'
        (length data')
      ≡ returned done data' b
    → perform_io mem_submit (λ k. true) d e within (write_request offset data')
      ≡ served done data' (after_volume_write d b (length data'))
unfolding perform_io write_replicas
io_write d e within data' offset b n h = rw (h, perform_io) (rw (n, write_replicas) refl)

io_read :
    (d : Depot Disks) (e within : ℕ) (buf out : List ℕ) (offset : ℕ) (b : Bank Disks)
    → block_read mem_submit true d.bank
        (disk_at d e)
        (add64 (d.pool.extents e).device_offset within)
        buf
        (length buf)
      ≡ returned done out b
    → perform_io mem_submit (λ k. true) d e within (read_request offset buf)
      ≡ served done out (after_volume_read d b (length buf))
unfolding perform_io
io_read d e within buf out offset b h = rw (h, perform_io) refl

-- Where a range of a volume that is online lies in a mapped extent without replicas, on a RAM disk
-- that holds it, a write goes to the place of that extent on its disk, and nowhere else on any
-- disk.
pub volume_write_lem :
    (d : Depot Disks) (vol offset : ℕ) (data' : List ℕ)
    → IsMapped d vol offset (length data')
    → let e = extent_at d vol offset in
      (b : Bank Disks) × (volume_submit mem_submit (λ k. true) d vol (write_request offset data')
        ≡ served done data' (after_volume_write d b (length data')))
      × Written d.bank b (disk_at d e) (place_at d e offset) data'
volume_write_lem d vol offset data' v =
    let e = extent_at d vol offset in
    let (b, h, w) = mem_write_lem d.bank (disk_at d e) (place_at d e offset) data' v.disk v.fits in
    (
      b,
      serve_write d vol offset data' v
          ∙ io_write d e (offset % extent_size) data' offset b v.alone (
              ap (λ k. block_write mem_submit true d.bank (disk_at d e) k data' (length data'))
                (omega (arith, v.fits, v.disk.small))
              ∙ h),
      w,
    )

-- The same range is still mapped after it.
write-IsMapped :
    (d : Depot Disks) (vol offset : ℕ) (data' buf : List ℕ) (b : Bank Disks)
    → IsMapped d vol offset (length data')
    → let e = extent_at d vol offset in
      Written d.bank b (disk_at d e) (place_at d e offset) data'
      → length buf ≡ length data'
      → IsMapped (after_volume_write d b (length data')) vol offset (length buf)
write-IsMapped d vol offset data' buf b v w l = record {
  online = v.online;
  pool_online = v.pool_online;
  in_range = v.in_range;
  mapped = v.mapped;
  alone = v.alone;
  disk = w.still;
  fits = omega (arith, v.fits, w.same_size, l);
}

-- A read of a mapped extent gives the bytes at the place of that extent on its disk.
pub volume_read_lem :
    (d : Depot Disks) (vol offset : ℕ) (buf : List ℕ)
    → IsMapped d vol offset (length buf)
    → let e = extent_at d vol offset in
      (d' : Depot Disks) × (volume_submit mem_submit (λ k. true) d vol (read_request offset buf)
        ≡ served done (bytes_of d.bank (disk_at d e) (place_at d e offset) (length buf)) d')
      × ((i : ℕ) → d'.bank.below i ≡ d.bank.below i)
volume_read_lem d vol offset buf v =
    let e = extent_at d vol offset in
    let (b, h, same) = mem_read_lem d.bank (disk_at d e) (place_at d e offset) buf v.disk v.fits in
    (
      after_volume_read d b (length buf),
      serve_read d vol offset buf v
          ∙ io_read d e (offset % extent_size) buf _ offset b (
              ap (λ k. block_read mem_submit true d.bank (disk_at d e) k buf (length buf))
                (omega (arith, v.fits, v.disk.small))
              ∙ h),
      same,
    )

-- Where a range of a volume that is online lies in a mapped extent without replicas, on a RAM disk
-- that holds it, what is written to it is read back, whatever the buffer held.
pub read_after_write :
    (d : Depot Disks) (vol offset : ℕ) (data' buf : List ℕ)
    → IsMapped d vol offset (length data')
    → length buf ≡ length data'
    → (d' d'' : Depot Disks) × (volume_submit mem_submit
          (λ k. true)
          d
          vol
          (write_request offset data')
        ≡ served done data' d')
      × (volume_submit mem_submit (λ k. true) d' vol (read_request offset buf)
          ≡ served done data' d'')
read_after_write d vol offset data' buf v l =
    let e = extent_at d vol offset in
    let (b, w, wr) = volume_write_lem d vol offset data' v in
    let d' = after_volume_write d b (length data') in
    let (d'', r, _) =
      volume_read_lem d' vol offset buf (write-IsMapped d vol offset data' buf b v wr l) in
    let eq : bytes_of b (disk_at d e) (place_at d e offset) (length buf) ≡ data' =
      ap (bytes_of b (disk_at d e) (place_at d e offset)) l ∙ wr.stored in
    (d', d'', w, r ∙ ap (λ x. served done x d'') eq)
