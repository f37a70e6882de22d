-- ===== src/Storage/Volume/Manage.antt =====
-- Creating, resizing, snapshotting and destroying volumes and pools: src/storage/pool.c, `volume_create`
-- to its end, and `pool_destroy`.
use purevisor.Base.{
  ℕ, zero, suc, ◌+◌, ◌/◌, Bool, true, false, ◌&&◌, not, List, [], ◌∷◌, Option, none, some,
  if◌then◌else◌, ltb, ◌==◌, u32, mul32, add32, sub32, add64, sub64, mul64, update, take, get_or,
  length, unlink, linked,
}
use purevisor.Storage.Block.{Device, Status, done, failed, block_register, block_unregister}
use purevisor.Storage.Pool.{
  Pool, is_offline, extent_size, pool_free_extent, pool_alloc_replicated_extent,
}
use purevisor.Storage.Volume.{Volume, Depot}

-- pool->extents[e].volume_id and .volume_offset of the volume's `i`-th extent
abbrev pub mark : Pool → ℕ → ℕ → ℕ → Pool
mark p e id i = record p {
  extents =
      update p.extents e
        (record (p.extents e) { volume_id = id; volume_offset = mul64 i extent_size });
}

-- for (j = 0; j < n; j++) pool_free_extent(pool, extent_map[j]);
unfoldable pub free_map : Pool → (ℕ → ℕ) → ℕ → ℕ → Pool
free_map p m j zero = p
free_map p m j (suc n) = free_map (pool_free_extent p (m j)) m (j + 1) n

-- The loop that fills a thick volume's map, from its `i`-th extent on; `none` after the rollback.
unfoldable pub fill_map : Pool → (ℕ → ℕ) → ℕ → ℕ → ℕ → ℕ → Pool × Option (ℕ → ℕ)
fill_map p m id replication i zero = (p, some m)
fill_map p m id replication i (suc n) =
    let (q, got) = pool_alloc_replicated_extent p replication in
    elim got [
      | none ↦ (free_map q m 0 i, none)
      | some ids ↦
          fill_map (mark q (get_or ids 0 0) id i) (update m i (get_or ids 0 0)) id replication
            (i + 1) n
    ]

-- The extents of a volume of `size` bytes, in 32 bits.
abbrev pub extents_for : ℕ → ℕ
extents_for size = u32 (sub64 (add64 size extent_size) 1 / extent_size)

abbrev pub charge : Pool → ℕ → Pool
charge p size = record p { used_size = add64 p.used_size size; free_size = sub64 p.free_size size }

-- The block device that `volume_create` sets up.
abbrev pub volume_device : List ℕ → List ℕ → ℕ → Device
volume_device name uuid size = record {
  name = take 63 name;
  uuid = uuid;
  id = 0;
  size = size;
  block_size = 4096;
  num_blocks = size / 4096;
  readonly = false;
  online = false;
  has_ops = true;
  has_submit = true;
  has_flush = true;
  read_ops = 0;
  write_ops = 0;
  read_bytes = 0;
  write_bytes = 0;
  errors = 0;
  queue_depth = 0;
  max_queue_depth = 0;
}

-- From the extent map to the end: `allocated` is the volume's, `m` its map.
unfoldable pub finish_volume :
    {S : Type 0} → Depot S → ℕ → List ℕ → List ℕ → ℕ → ℕ → Bool → ℕ → (ℕ → ℕ) → Depot S
finish_volume d vol name uuid num replication thin allocated m =
    let b = record d.bank {
      device = update d.bank.device vol (volume_device name uuid (mul64 num extent_size));
    } in
    record d {
      bank = (block_register b vol uuid).1;
      pool = record d.pool {
        volumes = vol ∷ d.pool.volumes;
        volume_count = add32 d.pool.volume_count 1;
      };
      volume = update d.volume vol (record {
        name = take 63 name;
        id = d.next_volume_id;
        size = mul64 num extent_size;
        allocated = allocated;
        replication = replication;
        thin_provisioned = thin;
        online = true;
        extent_map = m;
        num_extents = num;
      });
      next_volume_id = add32 d.next_volume_id 1;
    }

-- A thick volume, given what `fill_map` left.
unfoldable pub finish_thick :
    {S : Type 0} → Depot S → ℕ → List ℕ → List ℕ → ℕ → ℕ → Pool × Option (ℕ → ℕ) → Bool × Depot S
finish_thick d vol name uuid num replication (p, none) =
    (false, record d { pool = p; next_volume_id = add32 d.next_volume_id 1 })
finish_thick d vol name uuid num replication (p, some m) = (
  true,
  finish_volume (record d { pool = charge p (mul64 num extent_size) }) vol name uuid num replication
      false (mul64 num extent_size) m,
)

-- `vol` is the address that `kmalloc` gives, 0 for none; `got_map` whether the map finds memory; `uuid`
-- what `block_generate_uuid` writes. `false` is the return value NULL.
unfoldable pub volume_create :
    {S : Type 0} → ℕ → Bool → List ℕ → Depot S → List ℕ → ℕ → ℕ → Bool → Bool × Depot S
volume_create vol got_map uuid d name size replication thin =
    if is_offline d.pool.state
    then (false, d)
    else if not thin && ltb d.pool.free_extents (mul32 (extents_for size) (add32 replication 1))
    then (false, d)
    else if vol == 0
    then (false, d)
    else if not got_map
    then (false, record d { next_volume_id = add32 d.next_volume_id 1 })
    else if thin
    then (true, finish_volume d vol name uuid (extents_for size) replication true 0 (λ i. 0))
    else finish_thick d vol name uuid (extents_for size) replication
        (fill_map d.pool (λ i. 0) d.next_volume_id replication 0 (extents_for size))

-- for (r = 0; r < ext->replica_count; r++) pool_free_extent(pool, ext->replica_extents[r]);
unfoldable pub free_replicas : Pool → ℕ → ℕ → ℕ → Pool
free_replicas p e r zero = p
free_replicas p e r (suc n) =
    free_replicas (pool_free_extent p ((p.extents e).replica_extents r)) e (r + 1) n

-- The loop of `volume_destroy` over the map, from index `i` on.
unfoldable pub free_volume : Pool → (ℕ → ℕ) → ℕ → ℕ → Pool
free_volume p m i zero = p
free_volume p m i (suc n) =
    let q =
      if m i == 0
      then p
      else pool_free_extent (free_replicas p (m i) 0 (p.extents (m i)).replica_count) (m i) in
    free_volume q m (i + 1) n

abbrev pub drop_volume : Pool → ℕ → ℕ → Pool
drop_volume p vol allocated = record p {
  used_size = sub64 p.used_size allocated;
  free_size = add64 p.free_size allocated;
  volumes = unlink vol p.volumes;
  volume_count = if linked vol p.volumes then sub32 p.volume_count 1 else p.volume_count;
}

unfoldable pub volume_destroy : {S : Type 0} → Depot S → ℕ → Depot S
volume_destroy d vol = if vol == 0 then d else record d {
  bank = block_unregister d.bank vol;
  pool =
      drop_volume (free_volume d.pool (d.volume vol).extent_map 0 (d.volume vol).num_extents) vol
        (d.volume vol).allocated;
}

abbrev pub grown_map : Volume → ℕ → ℕ
grown_map v i = if ltb i v.num_extents then v.extent_map i else 0

unfoldable pub volume_resize : {S : Type 0} → Bool → Depot S → ℕ → ℕ → Status × Depot S
volume_resize got_map d vol new_size =
    let v = d.volume vol in
    let n = extents_for new_size in
    let size = mul64 n extent_size in
    if vol == 0
    then (failed, d)
    else if n == v.num_extents
    then (done, d)
    else if ltb n v.num_extents
    then (failed, d)
    else if not got_map
    then (failed, d)
    else (
      done,
      record d {
        volume =
            update d.volume vol
              (record v { extent_map = grown_map v; num_extents = n; size = size });
        bank = record d.bank {
          device =
              update d.bank.device vol
                (record (d.bank.device vol) { size = size; num_blocks = size / 4096 });
        };
      },
    )

-- memcpy(snap->extent_map, vol->extent_map, num_extents * 4), for a snapshot that was created.
abbrev pub copy_map : {S : Type 0} → ℕ → ℕ → Bool × Depot S → Bool × Depot S
copy_map snap vol (false, d) = (false, d)
copy_map snap vol (true, d) = (
  true,
  record d {
    volume = update d.volume snap (record (d.volume snap) {
      extent_map = λ i.
          if ltb i (d.volume vol).num_extents
          then (d.volume vol).extent_map i
          else (d.volume snap).extent_map i;
    });
  },
)

unfoldable pub volume_snapshot :
    {S : Type 0} → ℕ → Bool → List ℕ → Depot S → ℕ → List ℕ → Bool × Depot S
volume_snapshot snap got_map uuid d vol name =
    if vol == 0
    then (false, d)
    else copy_map snap vol
        (volume_create snap got_map uuid d name (d.volume vol).size (d.volume vol).replication true)

abbrev pub volume_get_block_device : ℕ → ℕ
volume_get_block_device vol = if vol == 0 then 0 else vol

-- while (pool->volumes) volume_destroy(pool->volumes);
unfoldable pub destroy_volumes : {S : Type 0} → Depot S → ℕ → Depot S
destroy_volumes d zero = d
destroy_volumes d (suc n) = elim d.pool.volumes [
  | [] ↦ d
  | vol ∷ _ ↦ destroy_volumes (volume_destroy d vol) n
]

-- `pools` and `pool_count`.
pub record Pools : Type 0 where
  pub pools : List ℕ
  pub pool_count : ℕ

-- `pool` is the pool's address; its memory is not looked at again.
unfoldable pub pool_destroy : {S : Type 0} → Pools → Depot S → ℕ → Pools × Depot S
pool_destroy g d pool = if pool == 0 then (g, d) else (
  record g {
    pools = unlink pool g.pools;
    pool_count = if linked pool g.pools then sub32 g.pool_count 1 else g.pool_count;
  },
  destroy_volumes d (length d.pool.volumes),
)
