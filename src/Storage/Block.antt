-- ===== src/Storage/Block.antt =====
-- The block layer, src/storage/block.c and include/storage/block.h: requests, devices, and the
-- synchronous calls that hand a request to a driver and wait for its completion.
-- The driver is the parameter `submit`; what lies below it is a state of type `S`.
use purevisor.Base.{
  ℕ, ◌/◌, Bool, true, false, ◌||◌, not, Option, none, some, List, [], ◌∷◌, if◌then◌else◌, ltb, ◌==◌,
  add32, sub32, add64, update, unlink, linked, find_first, str_eq,
}

-- An `int` status of this code: 0 or -1.
pub data Status : Type 0 where
  done failed : Status

abbrev pub is_done : Status → Bool
is_done done = true
is_done failed = false

-- BLOCK_OP_READ and the four others.
pub data BlockOp : Type 0 where
  read write flush discard write_zeroes : BlockOp

-- `block_request_t`: the bytes of `buffer`, and whether a completion is registered.
pub record Request : Type 0 where
  pub op : BlockOp
  pub offset : ℕ
  pub length : ℕ
  pub buffer : List ℕ
  pub has_completion : Bool

-- What a driver leaves: its state, the buffer, `req->status`, the status given to the completion
-- callback if that was called, and what `submit` returned.
pub record Reply (S : Type 0) : Type 0 where
  pub state : S
  pub buffer : List ℕ
  pub status : Status
  pub completed : Option Status
  pub ret : Status

-- `block_device_t`, by the fields that the block layer reads or writes: `has_submit` is `ops` and its
-- `submit`, neither NULL.
pub record Device : Type 0 where
  pub name : List ℕ
  pub uuid : List ℕ
  pub id : ℕ
  pub size : ℕ
  pub block_size : ℕ
  pub num_blocks : ℕ
  pub readonly : Bool
  pub online : Bool
  pub has_ops : Bool
  pub has_submit : Bool
  pub has_flush : Bool
  pub read_ops : ℕ
  pub write_ops : ℕ
  pub read_bytes : ℕ
  pub write_bytes : ℕ
  pub errors : ℕ
  pub queue_depth : ℕ
  pub max_queue_depth : ℕ

-- The block layer: the devices by address, the list `block_devices` newest first, and below it the
-- drivers' own state. A device of address 0 is NULL.
pub record Bank (S : Type 0) : Type 0 where
  pub device : ℕ → Device
  pub devices : List ℕ
  pub device_count : ℕ
  pub next_device_id : ℕ
  pub initialized : Bool
  pub below : S

-- What a synchronous call leaves. `spins` is the loop `while (!sync_complete)` with a driver that
-- returned 0 and never completed the request.
pub data Outcome (S : Type 0) : Type 0 where
  returned : Status → List ℕ → Bank S → Outcome S
  spins : Outcome S

module _ {S : Type 0} (submit : S → ℕ → Request → Reply S) where
  -- How `block_read` counts the outcome at the device.
  pub count_read : Device → ℕ → Status → Device
  count_read d len done = record d {
    read_ops = add64 d.read_ops 1;
    read_bytes = add64 d.read_bytes len;
  }
  count_read d len failed = record d { errors = add64 d.errors 1 }

  pub count_write : Device → ℕ → Status → Device
  count_write d len done = record d {
    write_ops = add64 d.write_ops 1;
    write_bytes = add64 d.write_bytes len;
  }
  count_write d len failed = record d { errors = add64 d.errors 1 }

  -- From `ret = dev->ops->submit(dev, req)` to the end of the call.
  pub await : (Device → ℕ → Status → Device) → Bank S → ℕ → ℕ → Reply S → Outcome S
  await count b dev len r = elim r.ret [
    | failed ↦ returned failed r.buffer (record b { below = r.state })
    | done ↦ elim r.completed [
      | none ↦ spins
      | some s ↦
          returned s r.buffer (record b {
            device = update b.device dev (count (b.device dev) len s);
            below = r.state;
          })
    ]
  ]

  -- `allocated` says whether `block_alloc_request` found memory. A device of address 0 is NULL.
  unfoldable pub block_read : Bool → Bank S → ℕ → ℕ → List ℕ → ℕ → Outcome S
  unfolding await count_read
  block_read allocated b dev offset buf len =
      if dev == 0 || not (b.device dev).has_submit
      then returned failed buf b
      else if ltb (b.device dev).size (add64 offset len)
      then returned failed buf b
      else if allocated
      then await count_read b dev len (submit b.below dev request)
      else returned failed buf b
    where
      request : Request
      request = record {
        op = read;
        offset = offset;
        length = len;
        buffer = buf;
        has_completion = true;
      }

  unfoldable pub block_write : Bool → Bank S → ℕ → ℕ → List ℕ → ℕ → Outcome S
  unfolding await count_write
  block_write allocated b dev offset buf len =
      if dev == 0 || not (b.device dev).has_submit
      then returned failed buf b
      else if (b.device dev).readonly
      then returned failed buf b
      else if ltb (b.device dev).size (add64 offset len)
      then returned failed buf b
      else if allocated
      then await count_write b dev len (submit b.below dev request)
      else returned failed buf b
    where
      request : Request
      request = record {
        op = write;
        offset = offset;
        length = len;
        buffer = buf;
        has_completion = true;
      }

  -- `block_submit_async`; the request is not NULL.
  pub block_submit_async : Bank S → ℕ → Request → Status × Bank S
  block_submit_async b dev req =
      if dev == 0 || not (b.device dev).has_submit
      then (failed, b)
      else let r = submit b.below dev req in (r.ret, record b { below = r.state })

abbrev pub block_init : {S : Type 0} → Bank S → Bank S
block_init g =
    if g.initialized
    then g
    else record g { devices = []; device_count = 0; next_device_id = 1; initialized = true }

-- What `block_register` makes of the device: `uuid` is what `block_generate_uuid` gives, and opening
-- the device is the driver's affair.
pub registered : ℕ → Device → List ℕ → Device
registered id d uuid = record d {
  id = id;
  uuid = elim d.uuid [ [] ↦ uuid | c ∷ cs ↦ c ∷ cs ];
  num_blocks = if ltb 0 d.block_size then d.size / d.block_size else d.num_blocks;
  queue_depth = 0;
  max_queue_depth = if d.max_queue_depth == 0 then 32 else d.max_queue_depth;
  online = true;
}

unfoldable pub block_register : {S : Type 0} → Bank S → ℕ → List ℕ → Status × Bank S
unfolding registered
block_register g dev uuid = if not g.initialized || dev == 0 then (failed, g) else (
  done,
  record g {
    device = update g.device dev (registered g.next_device_id (g.device dev) uuid);
    next_device_id = add32 g.next_device_id 1;
    devices = dev ∷ g.devices;
    device_count = add32 g.device_count 1;
  },
)

unfoldable pub block_unregister : {S : Type 0} → Bank S → ℕ → Bank S
block_unregister g dev = if dev == 0 then g else record g {
  device = update g.device dev (record (g.device dev) { online = false });
  devices = unlink dev g.devices;
  device_count = if linked dev g.devices then sub32 g.device_count 1 else g.device_count;
}

-- The address of the device found, or 0.
abbrev pub block_find_by_name : {S : Type 0} → Bank S → List ℕ → ℕ
block_find_by_name g name = find_first (λ d. str_eq (g.device d).name name) g.devices

abbrev pub block_find_by_uuid : {S : Type 0} → Bank S → List ℕ → ℕ
block_find_by_uuid g uuid = find_first (λ d. str_eq (g.device d).uuid uuid) g.devices

-- `flush` is the driver's operation, for a device that has one.
unfoldable pub block_flush : {S : Type 0} → (S → ℕ → Status × S) → Bank S → ℕ → Status × Bank S
block_flush fl b dev =
    if dev == 0 || not (b.device dev).has_ops
    then (failed, b)
    else if (b.device dev).has_flush
    then ((fl b.below dev).0, record b { below = (fl b.below dev).1 })
    else (done, b)
