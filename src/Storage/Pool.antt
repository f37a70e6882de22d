-- ===== src/Storage/Pool.antt =====
-- Storage pools and their extents: src/storage/pool.c, over include/storage/pool.h.
-- The pool's arrays are functions of the index; no operation reads past their length.
pub mod Extents
pub mod Devices
pub mod Replicas
use purevisor.Base.{
  ℕ, zero, suc, ◌+◌, ◌-◌, ◌*◌, ◌/◌, ◌^◌, Bool, true, false, ◌&&◌, not, List, [], ◌∷◌, ◌++◌, Option,
  none, some, if◌then◌else◌, ltb, leb, ◌==◌, add32, sub32, u32, add64, sub64, mul64, update,
  first_from, take,
}

-- EXTENT_FREE and the two others.
pub data ExtentState : Type 0 where
  free allocated reserved : ExtentState

abbrev pub is_free : ExtentState → Bool
is_free free = true
is_free _ = false

abbrev pub is_allocated : ExtentState → Bool
is_allocated allocated = true
is_allocated _ = false

-- `extent_info_t`.
pub record Extent : Type 0 where
  pub state : ExtentState
  pub volume_id : ℕ
  pub volume_offset : ℕ
  pub device_id : ℕ
  pub device_offset : ℕ
  pub replica_count : ℕ
  pub replica_extents : ℕ → ℕ

-- POOL_STATE_OFFLINE and the three others.
pub data PoolState : Type 0 where
  offline degraded online rebuilding : PoolState

abbrev pub is_offline : PoolState → Bool
is_offline offline = true
is_offline _ = false

-- `storage_pool_t`: devices and volumes by address.
pub record Pool : Type 0 where
  pub name : List ℕ
  pub id : ℕ
  pub state : PoolState
  pub total_size : ℕ
  pub free_size : ℕ
  pub used_size : ℕ
  pub devices : ℕ → ℕ
  pub device_count : ℕ
  pub extents : ℕ → Extent
  pub total_extents : ℕ
  pub free_extents : ℕ
  pub next_extent : ℕ
  pub volumes : List ℕ
  pub volume_count : ℕ
  pub read_ops : ℕ
  pub write_ops : ℕ
  pub read_bytes : ℕ
  pub write_bytes : ℕ

-- POOL_EXTENT_SIZE, 4 MB
abbrev pub extent_size : ℕ
extent_size = 4194304

abbrev pub no_extent : Extent
no_extent = record {
  state = free;
  volume_id = 0;
  volume_offset = 0;
  device_id = 0;
  device_offset = 0;
  replica_count = 0;
  replica_extents = λ r. 0;
}

-- The pool that `pool_create` fills in when `kmalloc` gave memory.
abbrev pub pool_create : ℕ → List ℕ → Pool
pool_create next_pool_id name = record {
  name = take 63 name;
  id = next_pool_id;
  state = offline;
  total_size = 0;
  free_size = 0;
  used_size = 0;
  devices = λ d. 0;
  device_count = 0;
  extents = λ e. no_extent;
  total_extents = 0;
  free_extents = 0;
  next_extent = 0;
  volumes = [];
  volume_count = 0;
  read_ops = 0;
  write_ops = 0;
  read_bytes = 0;
  write_bytes = 0;
}

abbrev pub free_at : Pool → ℕ → Bool
free_at p i = is_free (p.extents i).state

-- What both loops of `pool_alloc_extent` do at the extent that they find.
abbrev pub claim : Pool → ℕ → Pool
claim p i = record p {
  extents = update p.extents i (record (p.extents i) { state = allocated });
  free_extents = sub32 p.free_extents 1;
  next_extent = add32 i 1;
}

-- From the cursor to the end, then from extent 1 to the cursor.
abbrev pub search_extent : Pool → Option ℕ
search_extent p = elim (first_from (free_at p) p.next_extent (p.total_extents - p.next_extent)) [
  | some i ↦ some i
  | none ↦ first_from (free_at p) 1 (p.next_extent - 1)
]

abbrev pub claim_found : Pool → Option ℕ → Option (ℕ × Pool)
claim_found p none = none
claim_found p (some i) = some (i, claim p i)

-- `none` is the return value -1, which leaves the pool as it was.
unfoldable pub pool_alloc_extent : Pool → Option (ℕ × Pool)
pool_alloc_extent p = if p.free_extents == 0 then none else claim_found p (search_extent p)

abbrev pub release : Pool → ℕ → Pool
release p i = record p {
  extents = update p.extents i (record (p.extents i) { state = free; volume_id = 0 });
  free_extents = add32 p.free_extents 1;
}

-- Extent 0 is never freed.
unfoldable pub pool_free_extent : Pool → ℕ → Pool
pool_free_extent p i = if ltb 0 i && ltb i p.total_extents then release p i else p

-- for (i = 0; i < r; i++) pool_free_extent(pool, extent_ids[i]);
unfoldable pub free_all : Pool → List ℕ → Pool
free_all p [] = p
free_all p (i ∷ is) = free_all (pool_free_extent p i) is

-- pool->extents[primary].replica_extents[r - 1] = replica;
abbrev pub link_replica : Pool → ℕ → ℕ → ℕ → Pool
link_replica p primary r replica = record p {
  extents = update p.extents primary (record (p.extents primary) {
    replica_extents = update (p.extents primary).replica_extents r replica;
  });
}

abbrev pub set_replica_count : Pool → ℕ → ℕ → Pool
set_replica_count p primary n = record p {
  extents = update p.extents primary (record (p.extents primary) { replica_count = n });
}

-- The loop over the replicas: `ids` is `extent_ids` so far, `r` the index of the next link, and the
-- last number the rounds left.
unfoldable pub alloc_replicas : Pool → ℕ → List ℕ → ℕ → ℕ → Pool × Option (List ℕ)
alloc_replicas p primary ids r zero = (p, some ids)
alloc_replicas p primary ids r (suc n) = elim (pool_alloc_extent p) [
  | none ↦ (free_all p ids, none)
  | some (e, q) ↦ alloc_replicas (link_replica q primary r e) primary (ids ++ (e ∷ [])) (r + 1) n
]

abbrev pub count_replicas : ℕ → ℕ → Pool × Option (List ℕ) → Pool × Option (List ℕ)
count_replicas primary n (p, none) = (p, none)
count_replicas primary n (p, some ids) = (set_replica_count p primary n, some ids)

-- The primary's and the replicas' identifiers; `none` is the return value -1.
unfoldable pub pool_alloc_replicated_extent : Pool → ℕ → Pool × Option (List ℕ)
pool_alloc_replicated_extent p replication =
    if ltb p.free_extents (add32 replication 1) then (p, none) else elim (pool_alloc_extent p) [
      | none ↦ (p, none)
      | some (e, q) ↦ count_replicas e replication (alloc_replicas q e (e ∷ []) 0 replication)
    ]

-- The extents that a device adds, from index `old` on.
abbrev pub fresh_extents : (ℕ → Extent) → ℕ → ℕ → ℕ → Extent
fresh_extents extents old dev i =
    if ltb i old
    then extents i
    else record no_extent { device_id = dev; device_offset = mul64 (i - old) extent_size }

-- The pool with the device and its extents.
abbrev pub extended : Pool → ℕ → ℕ → Pool
extended p dev size = record p {
  devices = update p.devices p.device_count dev;
  device_count = add32 p.device_count 1;
  extents = fresh_extents p.extents p.total_extents p.device_count;
  total_extents = u32 (p.total_extents + size / extent_size);
  free_extents = u32 (p.free_extents + size / extent_size);
  total_size = add64 p.total_size (mul64 (size / extent_size) extent_size);
  free_size = mul64 (u32 (p.free_extents + size / extent_size)) extent_size;
  state = if is_offline p.state then online else p.state;
}

-- `size` is the device's, `dev` its address; `got_array` says whether `kmalloc` found memory for the
-- new array. `false` is the return value -1.
unfoldable pub pool_add_device : Bool → Pool → ℕ → ℕ → Bool × Pool
pool_add_device got_array p dev size =
    if dev == 0
    then (false, p)
    else if leb 16 p.device_count
    then (false, p)
    else if got_array
    then (true, extended p dev size)
    else (false, record p { devices = update p.devices p.device_count dev })

-- devices[i] = devices[i + 1] from the removed index on
abbrev pub shift_down : (ℕ → ℕ) → ℕ → ℕ → ℕ → ℕ
shift_down devices from last i = if leb from i && ltb i last then devices (i + 1) else devices i

abbrev pub in_use_on : Pool → ℕ → ℕ → Bool
in_use_on p d i = ((p.extents i).device_id == d) && is_allocated (p.extents i).state

abbrev pub drop_device : Pool → ℕ → Option ℕ → Bool × Pool
drop_device p d (some i) = (false, p)
drop_device p d none = (
  true,
  record p {
    devices = shift_down p.devices d (p.device_count - 1);
    device_count = sub32 p.device_count 1;
  },
)

abbrev pub remove_found : Pool → Option ℕ → Bool × Pool
remove_found p none = (false, p)
remove_found p (some d) = drop_device p d (first_from (in_use_on p d) 0 p.total_extents)

pub pool_remove_device : Pool → ℕ → Bool × Pool
pool_remove_device p dev = remove_found p (first_from (λ i. p.devices i == dev) 0 p.device_count)

abbrev pub pool_get_status : Pool → PoolState
pool_get_status p = p.state
