-- ===== src/Storage/Tests.antt =====
-- The theorems on storage at a small pool: two extents, and a RAM disk of sixteen bytes.
use purevisor.Base.{
  ℕ, ◌≡◌, ◌≤◌, ◌<◌, ◌+◌, ◌*◌, ◌⊎◌, ◌↔◌, inl, refl, true, false, List, [], ◌∷◌, some, none, arith,
  length, replicate, write_at, count_below, ◌==◌, first_from, if◌then◌else◌,
}
use purevisor.Storage.Block.{Bank, Device, done}
use purevisor.Storage.MemBlock.{MemDisk, mem_submit, mem_block_create}
use purevisor.Storage.MemBlock.Laws.{IsDisk, Disks, bytes_of, mem_block_create_backed}
use purevisor.Storage.Pool.{
  Pool, allocated, online, no_extent, free_at, extent_size, claim, pool_alloc_extent,
  pool_free_extent, pool_alloc_replicated_extent, pool_add_device,
}
use purevisor.Storage.Pool.Extents.{IsCounted, Claimed, alloc_extent_lem, double_free_miscounts}
use purevisor.Storage.Pool.Replicas.{Attempt, alloc_replicated_lem}
use purevisor.Storage.Pool.Devices.{IsLaidOut, add_device-IsLaidOut}
use purevisor.Storage.Volume.{Volume, Depot, served, volume_submit}
use purevisor.Storage.Volume.Manage.{volume_snapshot, pool_destroy}
use purevisor.Storage.Volume.Io.{
  IsMapped, write_request, read_request, disk_at, place_at, read_after_write,
}
use purevisor.Storage.Volume.Thin.{
  IsUnmapped, mapped_to, thin_read_after_write, first_write_is_lost,
}
use purevisor.Storage.Volume.Lifetime.{pool_destroy_empties, snapshot_shares}

abbrev small_device : Device
small_device = record {
  name = 109 ∷ [];
  uuid = [];
  id = 1;
  size = 16;
  block_size = 4096;
  num_blocks = 0;
  readonly = false;
  online = true;
  has_ops = true;
  has_submit = true;
  has_flush = true;
  read_ops = 0;
  write_ops = 0;
  read_bytes = 0;
  write_bytes = 0;
  errors = 0;
  queue_depth = 0;
  max_queue_depth = 32;
}

abbrev small_disk : MemDisk
small_disk = record { memory = replicate 16 0; mem_size = 16 }

abbrev small_bank : Bank Disks
small_bank = record {
  device = λ a. small_device;
  devices = 7 ∷ [];
  device_count = 1;
  next_device_id = 2;
  initialized = true;
  below = λ a. small_disk;
}

-- A pool of two free extents; extent 1 stands at byte 8 of the disk at address 7.
abbrev small_pool : Pool
small_pool = record {
  name = 112 ∷ [];
  id = 1;
  state = online;
  total_size = 16;
  free_size = 16;
  used_size = 0;
  devices = λ d. if d == 0 then 7 else 8;
  device_count = 2;
  extents = λ e. record no_extent { device_offset = 8 * e };
  total_extents = 2;
  free_extents = 2;
  next_extent = 0;
  volumes = 5 ∷ [];
  volume_count = 1;
  read_ops = 0;
  write_ops = 0;
  read_bytes = 0;
  write_bytes = 0;
}

abbrev small_volume : Volume
small_volume = record {
  name = 118 ∷ [];
  id = 1;
  size = extent_size;
  allocated = 0;
  replication = 0;
  thin_provisioned = true;
  online = true;
  extent_map = λ i. 0;
  num_extents = 1;
}

-- The volume at address 5, with nothing allocated.
abbrev depot : Depot Disks
depot = record {
  bank = small_bank;
  pool = small_pool;
  volume = λ a. small_volume;
  next_volume_id = 2;
}

-- The same, with the volume's extent at the pool's extent 1.
abbrev mapped_depot : Depot Disks
mapped_depot = record depot { volume = λ a. record small_volume { extent_map = λ i. 1 } }

-- The same as the first, after an allocation has left extent 0 behind.
abbrev used_depot : Depot Disks
used_depot = record depot { pool = claim small_pool 0 }

small_bank-IsDisk : IsDisk small_bank 7
small_bank-IsDisk = record {
  nonnull = omega arith;
  driven = refl;
  writable = refl;
  sized = refl;
  backed = omega arith;
  small = omega arith;
}

small_pool-IsCounted : IsCounted small_pool
small_pool-IsCounted = record { counted = refl; cursor = omega arith; total_fits = omega arith }

mapped_depot-IsMapped : IsMapped mapped_depot 5 2 3
mapped_depot-IsMapped = record {
  online = refl;
  pool_online = refl;
  in_range = omega arith;
  mapped = omega arith;
  alone = refl;
  disk = small_bank-IsDisk;
  fits = omega arith;
}

depot-IsUnmapped : IsUnmapped depot 5 2
depot-IsUnmapped = record {
  online = refl;
  pool_online = refl;
  in_range = omega arith;
  unmapped = refl;
}

abbrev three_bytes : List ℕ
three_bytes = 1 ∷ 2 ∷ 3 ∷ []

abbrev blank_bytes : List ℕ
blank_bytes = 9 ∷ 9 ∷ 9 ∷ []

read_after_write_example :
    (d' d'' : Depot Disks) × (volume_submit mem_submit
        (λ k. true)
        mapped_depot
        5
        (write_request 2 three_bytes)
      ≡ served done three_bytes d')
    × (volume_submit mem_submit (λ k. true) d' 5 (read_request 2 blank_bytes)
        ≡ served done three_bytes d'')
read_after_write_example =
    read_after_write mapped_depot 5 2 three_bytes blank_bytes mapped_depot-IsMapped refl

first_write_is_lost_example :
    (d' : Depot Disks) × (volume_submit mem_submit (λ k. true) depot 5 (write_request 2 three_bytes)
      ≡ served done three_bytes d')
    × (bytes_of d'.bank (disk_at depot 0) (place_at depot 0 2) 3 ≡ three_bytes)
    × (volume_submit mem_submit (λ k. true) d' 5 (read_request 2 blank_bytes)
        ≡ served done (write_at blank_bytes 0 (replicate 3 0)) d')
first_write_is_lost_example =
    first_write_is_lost depot 5 2 three_bytes blank_bytes depot-IsUnmapped small_pool-IsCounted refl
      (omega arith) refl refl small_bank-IsDisk (omega arith)

used_depot-IsUnmapped : IsUnmapped used_depot 5 2
used_depot-IsUnmapped = record {
  online = refl;
  pool_online = refl;
  in_range = omega arith;
  unmapped = refl;
}

second-IsMapped : IsMapped (mapped_to used_depot 5 2 1 (claim (claim small_pool 0) 1)) 5 2 3
second-IsMapped = record {
  online = refl;
  pool_online = refl;
  in_range = omega arith;
  mapped = omega arith;
  alone = refl;
  disk = small_bank-IsDisk;
  fits = omega arith;
}

thin_read_after_write_example :
    (d' d'' : Depot Disks) × (volume_submit mem_submit
        (λ k. true)
        used_depot
        5
        (write_request 2 three_bytes)
      ≡ served done three_bytes d')
    × (volume_submit mem_submit (λ k. true) d' 5 (read_request 2 blank_bytes)
        ≡ served done three_bytes d'')
unfolding pool_alloc_extent first_from
thin_read_after_write_example =
    thin_read_after_write used_depot 5 2 1 (claim (claim small_pool 0) 1) three_bytes blank_bytes
      used_depot-IsUnmapped refl (omega arith) second-IsMapped refl

alloc_extent_lem_example :
    ((i : ℕ) × (q : Pool) × (pool_alloc_extent small_pool ≡ some (i, q)) × Claimed small_pool i q)
    ⊎ ((pool_alloc_extent small_pool ≡ none)
        × ((i : ℕ) → i < 2 → (0 < i) ⊎ (small_pool.next_extent ≡ 0) → free_at small_pool i ≡ false))
alloc_extent_lem_example = alloc_extent_lem small_pool small_pool-IsCounted

-- The pool with both extents handed out.
abbrev full_pool : Pool
full_pool = record small_pool {
  extents = λ e. record no_extent { state = allocated };
  free_extents = 0;
  next_extent = 2;
}

full_pool-IsCounted : IsCounted full_pool
full_pool-IsCounted = record { counted = refl; cursor = omega arith; total_fits = omega arith }

double_free_miscounts_example :
    let q = pool_free_extent small_pool 1 in
    q.free_extents ≡ count_below (free_at q) q.total_extents + 1
double_free_miscounts_example =
    double_free_miscounts small_pool 1 small_pool-IsCounted (omega arith) (omega arith) refl
      (omega arith)

alloc_replicated_lem_example : Attempt small_pool 2 (pool_alloc_replicated_extent small_pool 1)
alloc_replicated_lem_example = alloc_replicated_lem small_pool 1 small_pool-IsCounted

-- A pool of two extents, each on a disk of its own.
abbrev wide_pool : Pool
wide_pool = record small_pool {
  devices = λ k. k + 1;
  extents = λ e. record no_extent { device_id = e };
}

wide_pool-IsLaidOut : IsLaidOut wide_pool
wide_pool-IsLaidOut = record {
  on_device = λ i l. l;
  apart = λ i j l m ne. inl (λ e. ne (ground (arith, e)));
}

add_device-IsLaidOut_example : IsLaidOut (pool_add_device true wide_pool 6 9000000).1
add_device-IsLaidOut_example =
    add_device-IsLaidOut true wide_pool 6 9000000 wide_pool-IsLaidOut (λ k l. ground (arith, l))
      (omega arith) (omega arith)

mem_block_create_backed_example :
    ((mem_block_create [] 5000000).0.mem_size ≤ length (mem_block_create [] 5000000).0.memory)
    ↔ (5000000 ≤ 1024 * 4096)
mem_block_create_backed_example = mem_block_create_backed [] 5000000 (omega arith)

pool_destroy_empties_example :
    (pool_destroy (record { pools = 3 ∷ []; pool_count = 1 }) depot 3).1.pool.volumes ≡ []
pool_destroy_empties_example =
    pool_destroy_empties (record { pools = 3 ∷ []; pool_count = 1 }) depot 3 (omega arith)
      (omega arith, tt)

snapshot_shares_example :
    (d' : Depot Disks) × (volume_snapshot 6 true [] mapped_depot 5 [] ≡ (true, d'))
    × ((i : ℕ) → i < 1 → (d'.volume 6).extent_map i ≡ 1)
    × (d'.pool.extents ≡ small_pool.extents)
snapshot_shares_example =
    snapshot_shares 6 [] mapped_depot 5 [] refl (omega arith) (omega arith) (omega arith)
