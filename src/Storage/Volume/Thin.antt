-- ===== src/Storage/Volume/Thin.antt =====
-- Thin volumes: what `volume_submit` of src/storage/pool.c allocates on a first write.
use purevisor.Base.{
  ℕ, ◌+◌, ◌/◌, ◌%◌, ◌≡◌, ◌≢◌, ◌<◌, ◌≤◌, ap, ◌∙◌, true, false, List, some, u32, add64, update,
  write_at, replicate, length, arith,
}
use purevisor.Storage.Block.{done, block_write}
use purevisor.Storage.MemBlock.{mem_submit}
use purevisor.Storage.MemBlock.Laws.{IsDisk, Disks, bytes_of, mem_write_lem}
use purevisor.Storage.Pool.{Pool, is_offline, free_at, extent_size, pool_alloc_extent, claim}
use purevisor.Storage.Pool.Extents.{IsCounted, first_extent_is_zero}
use purevisor.Storage.Volume.{Depot, served, resolve, serve, perform_io, volume_submit}
use purevisor.Storage.Volume.Io.{
  IsMapped, read_request, write_request, extent_at, disk_at, place_at, read_after_write, io_write,
  after_volume_write,
}

-- Extent `e` of pool `q` has been given to the extent of the volume that byte `offset` lies in.
abbrev pub mapped_to : Depot Disks → ℕ → ℕ → ℕ → Pool → Depot Disks
mapped_to d vol offset e q = record d {
  pool = q;
  volume = update d.volume vol (record (d.volume vol) {
    extent_map = update (d.volume vol).extent_map (u32 (offset / extent_size)) e;
    allocated = add64 (d.volume vol).allocated extent_size;
  });
}

-- The volume is served, and nothing is allocated for byte `offset`.
pub record IsUnmapped (d : Depot Disks) (vol offset : ℕ) : Type 0 where
  pub online : (d.volume vol).online ≡ true
  pub pool_online : is_offline d.pool.state ≡ false
  pub in_range : u32 (offset / extent_size) < (d.volume vol).num_extents
  pub unmapped : extent_at d vol offset ≡ 0

first_write :
    (d : Depot Disks) (vol offset e : ℕ) (q : Pool) (data' : List ℕ)
    → IsUnmapped d vol offset
    → pool_alloc_extent d.pool ≡ some (e, q)
    → volume_submit mem_submit (λ k. true) d vol (write_request offset data')
      ≡ perform_io mem_submit
          (λ k. true)
          (mapped_to d vol offset e q)
          e
          (offset % extent_size)
          (write_request offset data')
unfolding volume_submit serve resolve
first_write d vol offset e q data' u h =
    ground (arith, u.online, u.pool_online, u.in_range, u.unmapped, h)

-- A first write allocates an extent and then behaves as a write to it.
first_write_mapped :
    (d : Depot Disks) (vol offset e : ℕ) (q : Pool) (data' : List ℕ)
    → IsUnmapped d vol offset
    → pool_alloc_extent d.pool ≡ some (e, q)
    → e ≢ 0
    → is_offline q.state ≡ false
    → volume_submit mem_submit (λ k. true) d vol (write_request offset data')
      ≡ volume_submit mem_submit
          (λ k. true)
          (mapped_to d vol offset e q)
          vol
          (write_request offset data')
unfolding volume_submit serve resolve
first_write_mapped d vol offset e q data' u h ne on =
    ground (arith, u.online, u.pool_online, u.in_range, u.unmapped, h, on)

unmapped_read :
    (d : Depot Disks) (vol offset : ℕ) (buf : List ℕ)
    → IsUnmapped d vol offset
    → volume_submit mem_submit (λ k. true) d vol (read_request offset buf)
      ≡ served done (write_at buf 0 (replicate (length buf) 0)) d
unfolding volume_submit serve resolve
unmapped_read d vol offset buf u = ground (arith, u.online, u.pool_online, u.in_range, u.unmapped)

-- What is first written to a range of a thin volume for which another extent than 0 is allocated
-- is read back, where that extent has no replicas and stands on a RAM disk that holds the range.
pub thin_read_after_write :
    (d : Depot Disks) (vol offset e : ℕ) (q : Pool) (data' buf : List ℕ)
    → IsUnmapped d vol offset
    → pool_alloc_extent d.pool ≡ some (e, q)
    → e ≢ 0
    → IsMapped (mapped_to d vol offset e q) vol offset (length data')
    → length buf ≡ length data'
    → (d' d'' : Depot Disks) × (volume_submit mem_submit
          (λ k. true)
          d
          vol
          (write_request offset data')
        ≡ served done data' d')
      × (volume_submit mem_submit (λ k. true) d' vol (read_request offset buf)
          ≡ served done data' d'')
thin_read_after_write d vol offset e q data' buf u h ne m l =
    let (d', d'', w, r) = read_after_write (mapped_to d vol offset e q) vol offset data' buf m l in
    (d', d'', first_write_mapped d vol offset e q data' u h ne m.pool_online ∙ w, r)

-- The first write of all to a pool's extents, through a thin volume with nothing allocated for the
-- range: where extent 0 has no replicas and stands on a RAM disk that holds the range, the write
-- reports success and its bytes stand on the disk, but a read of the same range gives zeros.
pub first_write_is_lost :
    (d : Depot Disks) (vol offset : ℕ) (data' buf : List ℕ)
    → IsUnmapped d vol offset
    → IsCounted d.pool
    → d.pool.next_extent ≡ 0
    → 0 < d.pool.total_extents
    → free_at d.pool 0 ≡ true
    → (d.pool.extents 0).replica_count ≡ 0
    → IsDisk d.bank (disk_at d 0)
    → place_at d 0 offset + length data' ≤ (d.bank.below (disk_at d 0)).mem_size
    → (d' : Depot Disks) × (volume_submit mem_submit (λ k. true) d vol (write_request offset data')
        ≡ served done data' d')
      × (bytes_of d'.bank (disk_at d 0) (place_at d 0 offset) (length data') ≡ data')
      × (volume_submit mem_submit (λ k. true) d' vol (read_request offset buf)
          ≡ served done (write_at buf 0 (replicate (length buf) 0)) d')
first_write_is_lost d vol offset data' buf u c cur tot f alone v fits =
    let d1 = mapped_to d vol offset 0 (claim d.pool 0) in
    let (b, h, w) = mem_write_lem d.bank (disk_at d 0) (place_at d 0 offset) data' v fits in
    let d' = after_volume_write d1 b (length data') in
    (
      d',
      first_write d vol offset 0 (claim d.pool 0) data' u (first_extent_is_zero d.pool c cur tot f)
          ∙ io_write d1 0 (offset % extent_size) data' offset b alone (
              ap (λ k. block_write mem_submit true d.bank (disk_at d 0) k data' (length data'))
                (omega (arith, fits, v.small))
              ∙ h),
      w.stored,
      unmapped_read d' vol offset buf (record {
        online = ground (arith, u.online);
        pool_online = u.pool_online;
        in_range = ground (arith, u.in_range);
        unmapped = ground (arith, u.unmapped);
      }),
    )
