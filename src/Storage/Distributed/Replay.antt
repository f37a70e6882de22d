-- ===== src/Storage/Distributed/Replay.antt =====
-- A write that is replicated, from the call to the local volume: `dist_storage_write` and
-- `apply_storage_entry` of src/storage/distributed.c.
use purevisor.Base.{
  ℕ, ◌+◌, ◌-◌, ◌^◌, ◌≡◌, ◌≢◌, ◌<◌, ◌≤◌, refl, ap, ◌∙◌, Bool, true, false, List, [], ◌∷◌, ◌==◌,
  length, All, arith, add64, subst,
}
use purevisor.Storage.Block.{Request, Reply, done, block_write}
use purevisor.Storage.Raft.{
  Raft, LogEntry, write, is_full, appended, new_entry, is_leader, raft_submit, append_log_entry,
}
use purevisor.Storage.Raft.Handlers.{Reaches}
use purevisor.Storage.Raft.Order.{IsOrdered, appended-Grows}
use purevisor.Storage.Raft.Steps.{Reaches-Grows}
use purevisor.Storage.Distributed.{
  Dist, write_entry, volume_named, dist_storage_write, apply_storage_entry, put_back, is_null,
  entry_length,
}
use purevisor.Storage.Distributed.Encoding.{
  take_all, entry_name, entry_offset, entry_len, entry_data, entry_fits,
}

-- The entry in the log of a leader that took a write.
abbrev pub logged : Raft → List ℕ → ℕ → List ℕ → LogEntry
logged r name offset data' =
    new_entry true (r.last_index + 1) r.current_term write
      (write_entry name offset (length data') data')

-- The storage after it.
abbrev accepted : {S : Type 0} → Dist S → List ℕ → Dist S
accepted ds payload = record ds {
  raft = appended true ds.raft ds.raft.current_term write payload;
  replicated_writes = add64 ds.replicated_writes 1;
}

write_accepted :
    {S : Type 0}
    → (ds : Dist S) (name : List ℕ) (offset : ℕ) (data' : List ℕ) → ds.initialized ≡ true
    → is_leader ds.raft.state ≡ true
    → is_full ds.raft ≡ false
    → length data' < 2 ^ 32 - 76
    → dist_storage_write true true ds name offset data' (length data')
      ≡ (done, accepted ds (write_entry name offset (length data') data'))
unfolding dist_storage_write raft_submit append_log_entry
write_accepted ds name offset data' i l f m =
    let n = length data' in
    let whole = take_all n data' (omega arith) in
    let fits : length (write_entry name offset n data') ≤ entry_length n =
      omega (arith, entry_fits name offset n data', m) in
    let cut = take_all (entry_length n) (write_entry name offset n data') fits in
    rw (i, l, f, whole, cut) refl

-- The entry is where the leader's log says it is.
logged_lem :
    (r : Raft) (name : List ℕ) (offset : ℕ) (data' : List ℕ)
    → IsOrdered r
    → (appended true r r.current_term write (write_entry name offset (length data') data')).log
        (r.last_index + 1)
      ≡ logged r name offset data'
logged_lem r name offset data' v = ground (arith, v.first, v.fits)

entry_real :
    (name : List ℕ) (offset len : ℕ) (data' : List ℕ)
    → is_null (write_entry name offset len data') ≡ false
entry_real [] offset len data' = refl
entry_real (b ∷ name) offset len data' = refl

apply-logged :
    {S : Type 0}
    → (submit : S → ℕ → Request → Reply S) (got : Bool) (d : Dist S) (r : Raft) (name : List ℕ)
      (offset : ℕ) (data' : List ℕ)
    → volume_named d name ≢ 0
    → length name < 64
    → All (λ b. b ≢ 0) name
    → offset < 2 ^ 64
    → length data' < 2 ^ 32 - 76
    → apply_storage_entry submit got d (logged r name offset data')
      ≡ put_back d (block_write submit got d.bank (volume_named d name) offset data' (length data'))
unfolding apply_storage_entry
apply-logged submit got d r name offset data' vol l z o m =
    let n = length data' in
    let found : (volume_named d name == 0) ≡ false = ground (arith, vol) in
    rw
      (
        entry_name name offset n data' l z,
        entry_offset name offset n data' o,
        entry_len name offset n data' (omega (arith, m)),
        entry_data name offset n data',
        entry_real name offset n data',
        found,
      )
      refl

-- A leader with room in its log takes a write: the call succeeds, and from then on, whatever messages
-- arrive and however the clock ticks, that entry of its log applied to any state of the storage is
-- the write that was asked for, as `block_write` does it on the volume of that name, with the same
-- offset, bytes and length. The storage is initialised, memory is found, the name has less than 64
-- bytes, none of them 0, the volume exists, offset and length are such that neither wraps, and the
-- indices of the log are in order.
pub write-applied :
    {S : Type 0}
    → (submit : S → ℕ → Request → Reply S) (ds : Dist S) (name : List ℕ) (offset : ℕ)
      (data' : List ℕ) (q : Raft) (got : Bool) (d : Dist S)
    → ds.initialized ≡ true
    → is_leader ds.raft.state ≡ true
    → is_full ds.raft ≡ false
    → IsOrdered ds.raft
    → length name < 64
    → All (λ b. b ≢ 0) name
    → offset < 2 ^ 64
    → length data' < 2 ^ 32 - 76
    → Reaches (dist_storage_write true true ds name offset data' (length data')).1.raft q
    → volume_named d name ≢ 0
    → ((dist_storage_write true true ds name offset data' (length data')).0 ≡ done)
      × (apply_storage_entry submit got d (q.log (ds.raft.last_index + 1))
          ≡ put_back d
              (block_write submit got d.bank (volume_named d name) offset data' (length data')))
write-applied submit ds name offset data' q got d i l f v n z o m path vol =
    let p = write_entry name offset (length data') data' in
    let r = appended true ds.raft ds.raft.current_term write p in
    let took = write_accepted ds name offset data' i l f m in
    let (v', e) = appended-Grows true ds.raft ds.raft.current_term write p f v in
    let onward : Reaches r q = subst (λ s. Reaches s.1.raft q) took path in
    let kept : q.log (ds.raft.last_index + 1) ≡ r.log (ds.raft.last_index + 1) =
      (Reaches-Grows r onward v').1.kept (ds.raft.last_index + 1) (omega (arith, v.fits)) in
    (
      ap (λ s. s.0) took,
      ap (apply_storage_entry submit got d) (kept ∙ logged_lem ds.raft name offset data' v)
          ∙ apply-logged submit got d ds.raft name offset data' vol n z o m,
    )
