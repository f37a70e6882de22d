-- ===== src/Storage/Volume.antt =====
-- Volumes over a pool: the second half of src/storage/pool.c, and the driver `volume_ops` at its head.
-- The devices below the pool are driven by `submit`; `got` says which of the request allocations of a
-- call find memory. The block device of a volume stands at the volume's address.
pub mod Manage
pub mod Io
pub mod Thin
pub mod Lifetime
use purevisor.Base.{
  ℕ, zero, suc, ◌+◌, ◌-◌, ◌*◌, ◌/◌, ◌%◌, Bool, true, false, ◌&&◌, ◌||◌, not, List, [], ◌∷◌, Option,
  none, some, if◌then◌else◌, ltb, leb, ◌==◌, u32, mul32, add32, sub32, add64, sub64, mul64, update,
  take, replicate, write_at, get_or, length, unlink, linked,
}
use purevisor.Storage.Block.{
  Bank, Device, Request, Reply, Status, done, failed, BlockOp, read, write, flush, discard,
  write_zeroes, Outcome, returned, spins, block_read, block_write, block_flush, block_register,
  block_unregister,
}
use purevisor.Storage.Pool.{
  Pool, Extent, is_offline, extent_size, pool_alloc_extent, pool_free_extent,
  pool_alloc_replicated_extent,
}

-- `storage_volume_t`.
pub record Volume : Type 0 where
  pub name : List ℕ
  pub id : ℕ
  pub size : ℕ
  pub allocated : ℕ
  pub replication : ℕ
  pub thin_provisioned : Bool
  pub online : Bool
  pub extent_map : ℕ → ℕ
  pub num_extents : ℕ

-- A pool with its volumes, by address, and the block layer that they and its devices stand in.
pub record Depot (S : Type 0) : Type 0 where
  pub bank : Bank S
  pub pool : Pool
  pub volume : ℕ → Volume
  pub next_volume_id : ℕ

-- What `volume_submit` leaves: the request's buffer, and the status that it writes, gives to the
-- completion and returns. `hangs` is a wait for one of the devices below that never ends.
pub data Served (S : Type 0) : Type 0 where
  served : Status → List ℕ → Depot S → Served S
  hangs : Served S

-- The extent that a request meets: the pool's, 0 for none, and the depot with what was allocated for
-- it; `none` where the allocation fails.
unfoldable pub resolve : {S : Type 0} → Depot S → ℕ → ℕ → BlockOp → Option (ℕ × Depot S)
resolve d vol idx op =
    if ((d.volume vol).extent_map idx == 0) && (elim op [
      | write ↦ true
      | read ↦ false
      | flush ↦ false
      | discard ↦ false
      | write_zeroes ↦ false
    ])
    then elim (pool_alloc_extent d.pool) [
      | none ↦ none
      | some (e, p) ↦ some (
        e,
        record d {
          pool = p;
          volume = update d.volume vol (record (d.volume vol) {
            extent_map = update (d.volume vol).extent_map idx e;
            allocated = add64 (d.volume vol).allocated extent_size;
          });
        },
      )
    ]
    else some ((d.volume vol).extent_map idx, d)

abbrev pub count_pool_read : Pool → ℕ → Pool
count_pool_read p len = record p {
  read_ops = add64 p.read_ops 1;
  read_bytes = add64 p.read_bytes len;
}

abbrev pub count_pool_write : Pool → ℕ → Pool
count_pool_write p len = record p {
  write_ops = add64 p.write_ops 1;
  write_bytes = add64 p.write_bytes len;
}

module _ {S : Type 0} (submit : S → ℕ → Request → Reply S) where
  -- The loop over the replicas of `e` from the `r`-th on; the last number is the rounds left.
  unfoldable pub write_replicas :
      (ℕ → Bool) → Pool → ℕ → ℕ → ℕ → Bank S → List ℕ → ℕ → ℕ → Option (Bank S × List ℕ)
  write_replicas got p e within len b buf r zero = some (b, buf)
  write_replicas got p e within len b buf r (suc n) =
      let rep = p.extents ((p.extents e).replica_extents r) in
      elim (block_write submit (got (r + 1)) b (p.devices rep.device_id)
        (add64 rep.device_offset within) buf len) [
          | spins ↦ none
          | returned _ buf' b' ↦ write_replicas got p e within len b' buf' (r + 1) n
        ]

  -- The I/O on pool extent `e`, at the offset `within` it.
  unfoldable pub perform_io : (ℕ → Bool) → Depot S → ℕ → ℕ → Request → Served S
  perform_io got d e within req =
      let ext = d.pool.extents e in
      let phys_dev = d.pool.devices ext.device_id in
      let phys_offset = add64 ext.device_offset within in
      elim req.op [
        | read ↦
            elim (block_read submit (got 0) d.bank phys_dev phys_offset req.buffer req.length) [
              | spins ↦ hangs
              | returned st buf b ↦
                  served st buf (record d { bank = b; pool = count_pool_read d.pool req.length })
            ]
        | write ↦
            elim (block_write submit (got 0) d.bank phys_dev phys_offset req.buffer req.length) [
              | spins ↦ hangs
              | returned st buf b ↦
                  elim (write_replicas got d.pool e within req.length b buf 0 ext.replica_count) [
                    | none ↦ hangs
                    | some (b', buf') ↦
                        served st buf'
                          (record d { bank = b'; pool = count_pool_write d.pool req.length })
                  ]
            ]
        | flush ↦ served done req.buffer d
        | discard ↦ served done req.buffer d
        | write_zeroes ↦ served done req.buffer d
      ]

  -- From `if (pool_extent == 0 && req->op == BLOCK_OP_READ)` on.
  unfoldable pub serve : (ℕ → Bool) → ℕ → Request → Option (ℕ × Depot S) → Depot S → Served S
  serve got within req none d = served failed req.buffer d
  serve got within req (some (e, d')) d = elim req.op [
    | read ↦
        if e == 0
        then served done (write_at req.buffer 0 (replicate req.length 0)) d'
        else perform_io got d' e within req
    | write ↦ perform_io got d' e within req
    | flush ↦ perform_io got d' e within req
    | discard ↦ perform_io got d' e within req
    | write_zeroes ↦ perform_io got d' e within req
  ]

  unfoldable pub volume_submit : (ℕ → Bool) → Depot S → ℕ → Request → Served S
  volume_submit got d vol req =
      if not (d.volume vol).online || is_offline d.pool.state
      then served failed req.buffer d
      else if leb (d.volume vol).num_extents (u32 (req.offset / extent_size))
      then served failed req.buffer d
      else serve got (req.offset % extent_size) req
          (resolve d vol (u32 (req.offset / extent_size)) req.op) d

-- for (i = 0; i < device_count; i++) block_flush(devices[i]);  the results are not looked at.
abbrev pub flush_devices : {S : Type 0} → (S → ℕ → Status × S) → Pool → Bank S → ℕ → ℕ → Bank S
flush_devices fl p b i zero = b
flush_devices fl p b i (suc n) = flush_devices fl p (block_flush fl b (p.devices i)).1 (i + 1) n

abbrev pub volume_flush : {S : Type 0} → (S → ℕ → Status × S) → Depot S → Status × Depot S
volume_flush fl d = (done, record d { bank = flush_devices fl d.pool d.bank 0 d.pool.device_count })
