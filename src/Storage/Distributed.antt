-- ===== src/Storage/Distributed.antt =====
-- Storage replicated by consensus: the second part of src/storage/distributed.c. The driver of the
-- volumes is the parameter `submit`; a volume's block device stands at the volume's address.
pub mod Encoding
pub mod Replay
use purevisor.Base.{
  ℕ, zero, suc, ◌+◌, ◌-◌, ◌*◌, ◌/◌, ◌%◌, Bool, true, false, ◌&&◌, ◌||◌, not, List, [], ◌∷◌, ◌++◌,
  Option, none, some, if◌then◌else◌, ltb, leb, ◌==◌, add32, add64, take, drop, length, find_first,
  str_eq, replicate,
}
use purevisor.Storage.Block.{
  Bank, Request, Reply, Status, done, failed, is_done, Outcome, returned, spins, block_read,
  block_write,
}
use purevisor.Storage.Pool.{Pool}
use purevisor.Storage.Volume.{Volume}
use purevisor.Storage.Raft.{
  Raft, Role, LogEntry, EntryKind, noop, write, config, snapshot, raft_init, raft_add_node,
  raft_submit, raft_is_leader,
}

-- `dist_storage_t` with what it reaches: the local pool, its volumes by address, the block layer; and
-- the static `next_remote` of `dist_storage_join`.
pub record Dist (S : Type 0) : Type 0 where
  pub bank : Bank S
  pub local_pool : Pool
  pub volume : ℕ → Volume
  pub raft : Raft
  pub cluster_name : List ℕ
  pub cluster_uuid : List ℕ
  pub initialized : Bool
  pub is_primary : Bool
  pub replicated_writes : ℕ
  pub consensus_ops : ℕ
  pub next_remote : ℕ

-- A number of `n` bytes in memory, the low byte first.
abbrev pub le_bytes : ℕ → ℕ → List ℕ
le_bytes zero v = []
le_bytes (suc n) v = v % 256 ∷ le_bytes n (v / 256)

abbrev pub from_le : List ℕ → ℕ
from_le [] = 0
from_le (b ∷ bs) = b + 256 * from_le bs

-- The string that starts at the first byte.
abbrev pub c_string : List ℕ → List ℕ
c_string [] = []
c_string (b ∷ bs) = if b == 0 then [] else b ∷ c_string bs

-- strncpy into `n` bytes: the copy, and zeroes after it.
abbrev pub padded : ℕ → List ℕ → List ℕ
padded zero s = []
padded (suc n) [] = 0 ∷ padded n []
padded (suc n) (b ∷ s) = b ∷ padded n s

-- [volume_name(64)][offset(8)][len(4)][data], the name cut at 63 bytes.
abbrev pub write_entry : List ℕ → ℕ → ℕ → List ℕ → List ℕ
write_entry name offset len data' =
    padded 64 (take 63 name) ++ (le_bytes 8 offset ++ (le_bytes 4 len ++ data'))

abbrev pub is_write : EntryKind → Bool
is_write noop = false
is_write write = true
is_write config = false
is_write snapshot = false

abbrev pub is_null : List ℕ → Bool
is_null [] = true
is_null (b ∷ bs) = false

-- The first volume of the local pool of that name, or 0.
abbrev pub volume_named : {S : Type 0} → Dist S → List ℕ → ℕ
volume_named ds name = find_first (λ v. str_eq (ds.volume v).name name) ds.local_pool.volumes

-- `log_found` says whether `kmalloc` has memory for the log, `uuid` is what `block_generate_uuid` gives.
unfoldable pub dist_storage_init :
    {S : Type 0} → Bool → Bank S → Pool → (ℕ → Volume) → ℕ → ℕ → List ℕ → ℕ → Status × Dist S
dist_storage_init log_found bank pool volume node_id tsc uuid next_remote =
    let ds : Dist _ = record {
      bank = bank;
      local_pool = pool;
      volume = volume;
      raft = record (raft_init node_id tsc) { election_timeout = 0 };
      cluster_name = [];
      cluster_uuid = [];
      initialized = false;
      is_primary = false;
      replicated_writes = 0;
      consensus_ops = 0;
      next_remote = next_remote;
    } in
    if not log_found then (failed, ds) else (
      done,
      record ds {
        raft = record (raft_init node_id tsc) { has_apply = true };
        cluster_uuid = uuid;
        cluster_name =
            112 ∷ 117 ∷ 114 ∷ 101 ∷ 118 ∷ 105 ∷ 115 ∷ 111 ∷ 114 ∷ 45 ∷ 99 ∷ 108 ∷ 117 ∷ 115 ∷ 116
            ∷ 101 ∷ 114 ∷ [];
        initialized = true;
      },
    )

abbrev pub dist_storage_join : {S : Type 0} → Dist S → List ℕ → ℕ → Status × Dist S
dist_storage_join ds address port =
    let (st, r) = raft_add_node ds.raft ds.next_remote address port in
    (st, record ds { raft = r; next_remote = add32 ds.next_remote 1 })

abbrev pub entry_length : ℕ → ℕ
entry_length len = add32 76 len

abbrev pub submitted : {S : Type 0} → Dist S → Status × Raft → Status × Dist S
submitted ds (done, r) =
    (done, record ds { raft = r; replicated_writes = add64 ds.replicated_writes 1 })
submitted ds (failed, r) = (failed, record ds { raft = r })

-- `entry_found` and `copy_found` say whether the entry and its copy for the log find memory. A length
-- that wraps in `entry_len` leaves a copy that is cut.
unfoldable pub dist_storage_write :
    {S : Type 0} → Bool → Bool → Dist S → List ℕ → ℕ → List ℕ → ℕ → Status × Dist S
dist_storage_write entry_found copy_found ds name offset data' len =
    if not ds.initialized
    then (failed, ds)
    else if not (raft_is_leader ds.raft)
    then (failed, ds)
    else if not entry_found
    then (failed, ds)
    else submitted ds (
        raft_submit copy_found ds.raft write
          (take (entry_length len) (write_entry name offset len (take len data'))))

abbrev pub dist_storage_get_status : {S : Type 0} → Dist S → Option Role
dist_storage_get_status ds = if ds.initialized then some ds.raft.state else none

-- What a call into the block layer leaves of the storage.
abbrev pub put_back : {S : Type 0} → Dist S → Outcome S → Option (Dist S)
put_back ds spins = none
put_back ds (returned st buf b) = some (record ds { bank = b })

module _ {S : Type 0} (submit : S → ℕ → Request → Reply S) where
  -- `got` says whether the request finds memory.
  unfoldable pub dist_storage_read : Bool → Dist S → List ℕ → ℕ → List ℕ → ℕ → Outcome S
  dist_storage_read got ds name offset buf len =
      if not ds.initialized
      then returned failed buf ds.bank
      else if volume_named ds name == 0
      then returned failed buf ds.bank
      else block_read submit got ds.bank (volume_named ds name) offset buf len

  -- The volume is found by the string at the start of the entry. `none` is a wait for the volume's
  -- driver that never ends; bytes past the end of the entry are taken as none.
  unfoldable pub apply_storage_entry : Bool → Dist S → LogEntry → Option (Dist S)
  apply_storage_entry got ds e =
      let vol = volume_named ds (c_string e.payload) in
      let offset = from_le (take 8 (drop 64 e.payload)) in
      let len = from_le (take 4 (drop 72 e.payload)) in
      if is_write e.kind && not (is_null e.payload)
      then (if vol == 0
          then some ds
          else elim (block_write submit got ds.bank vol offset (drop 76 e.payload) len) [
            | spins ↦ none
            | returned st buf b ↦ some (record ds { bank = b })
          ])
      else some ds
