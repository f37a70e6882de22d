-- ===== src/Storage/MemBlock/Laws.antt =====
-- RAM disks keep what is written, through the block layer: src/storage/memblk.c under
-- src/storage/block.c.
use purevisor.Base.{
  ℕ, zero, suc, ◌+◌, ◌*◌, ◌^◌, ◌≤◌, ◌<◌, ◌≡◌, ◌≢◌, ◌⊎◌, ◌↔◌, refl, ap, ◌∙◌, Bool, true, false, List,
  [], ◌∷◌, arith, length, take, add64, slice, write_at, slice-write_at, slice-write_at_apart,
  length-write_at, length-take, length-drop, length-replicate, drop, lt→ltb, update, update_self,
  update_ne,
}
use native.Mathlib.Nat.{pow-suc}
use native.Mathlib.Decide.{dec_lt}
use purevisor.Storage.Block.{Bank, returned, done, failed, block_read, block_write}
use purevisor.Storage.MemBlock.{MemDisk, mem_submit, mem_block_create, pages_for, granted}

abbrev pub Disks : Type 0
Disks = ℕ → MemDisk

-- The device is the disk's: it takes requests, and neither its size nor the size that the driver
-- checks goes past the memory.
pub record IsDisk (b : Bank Disks) (dev : ℕ) : Type 0 where
  pub nonnull : dev ≢ 0
  pub driven : (b.device dev).has_submit ≡ true
  pub writable : (b.device dev).readonly ≡ false
  pub sized : (b.device dev).size ≡ (b.below dev).mem_size
  pub backed : (b.below dev).mem_size ≤ length (b.below dev).memory
  pub small : (b.below dev).mem_size < 2 ^ 63

-- the bytes of a disk
abbrev pub bytes_of : Bank Disks → ℕ → ℕ → ℕ → List ℕ
bytes_of b dev offset len = slice (b.below dev).memory offset len

-- A write within the disk succeeds; the disk then holds the data at the offset, and any range apart
-- from it as before, and so does every other disk.
pub record Written (b b' : Bank Disks) (dev offset : ℕ) (data' : List ℕ) : Type 0 where
  pub stored : bytes_of b' dev offset (length data') ≡ data'
  pub apart :
      (o n : ℕ)
      → (o + n ≤ offset) ⊎ (offset + length data' ≤ o)
      → bytes_of b' dev o n ≡ bytes_of b dev o n
  pub others : (d : ℕ) → d ≢ dev → b'.below d ≡ b.below d
  pub same_size : (b'.below dev).mem_size ≡ (b.below dev).mem_size
  pub still : IsDisk b' dev

take_all : (xs : List ℕ) → take (length xs) xs ≡ xs
take_all [] = refl
take_all (x ∷ xs) = ap (λ l. x ∷ l) (take_all xs)

-- The disk after a write of all of `data'`.
abbrev filled : Bank Disks → ℕ → ℕ → List ℕ → MemDisk
filled b dev offset data' = record (b.below dev) {
  memory = write_at (b.below dev).memory offset (take (length data') data');
}

-- The bank after a write of all of `data'`.
abbrev after_write : Bank Disks → ℕ → ℕ → List ℕ → Bank Disks
after_write b dev offset data' = record b {
  device = update b.device dev (record (b.device dev) {
    write_ops = add64 (b.device dev).write_ops 1;
    write_bytes = add64 (b.device dev).write_bytes (length data');
  });
  below = update b.below dev (filled b dev offset data');
}

write_result :
    (b : Bank Disks) (dev offset : ℕ) (data' : List ℕ)
    → IsDisk b dev
    → offset + length data' ≤ (b.below dev).mem_size
    → block_write mem_submit true b dev offset data' (length data')
      ≡ returned done data' (after_write b dev offset data')
unfolding block_write mem_submit
write_result b dev offset data' v h = ground arith

after_write-Written :
    (b : Bank Disks) (dev offset : ℕ) (data' : List ℕ)
    → IsDisk b dev
    → offset + length data' ≤ (b.below dev).mem_size
    → Written b (after_write b dev offset data') dev offset data'
after_write-Written b dev offset data' v h =
    let mem = (b.below dev).memory in
    let here = update_self b.below dev (filled b dev offset data') in
    let eq = ap (λ (d : MemDisk). d.memory) here ∙ ap (write_at mem offset) (take_all data') in
    record {
      stored =
          ap (λ m. slice m offset (length data')) eq
          ∙ slice-write_at mem offset data' (omega (arith, v.backed));
      apart = λ o n away. ap (λ m. slice m o n) eq ∙ slice-write_at_apart mem offset data' o n away;
      others = λ d ne. update_ne b.below dev d _ ne;
      same_size = ap (λ (d : MemDisk). d.mem_size) here;
      still = record {
        nonnull = v.nonnull;
        driven = ground arith;
        writable = ground arith;
        sized = ground arith;
        backed = rw here (rw (take_all data', length-write_at mem offset data') v.backed);
        small = rw here v.small;
      };
    }

-- A write within a RAM disk succeeds: the disk then holds the data at the offset and any range
-- apart from it as before, every other disk is as before, and the disk stays well-formed.
pub mem_write_lem :
    (b : Bank Disks) (dev offset : ℕ) (data' : List ℕ)
    → IsDisk b dev
    → offset + length data' ≤ (b.below dev).mem_size
    → (b' : Bank Disks) × (block_write mem_submit true b dev offset data' (length data')
        ≡ returned done data' b')
      × Written b b' dev offset data'
mem_write_lem b dev offset data' v h = (
  after_write b dev offset data',
  write_result b dev offset data' v h,
  after_write-Written b dev offset data' v h,
)

-- The bank after a read of `len` bytes.
abbrev after_read : Bank Disks → ℕ → ℕ → Bank Disks
after_read b dev len = record b {
  device = update b.device dev (record (b.device dev) {
    read_ops = add64 (b.device dev).read_ops 1;
    read_bytes = add64 (b.device dev).read_bytes len;
  });
  below = update b.below dev (b.below dev);
}

read_result :
    (b : Bank Disks) (dev offset : ℕ) (buf : List ℕ)
    → IsDisk b dev
    → offset + length buf ≤ (b.below dev).mem_size
    → block_read mem_submit true b dev offset buf (length buf)
      ≡ returned done
          (write_at buf 0 (bytes_of b dev offset (length buf)))
          (after_read b dev (length buf))
unfolding block_read mem_submit
read_result b dev offset buf v h = ground arith

write_at_whole : (xs ys : List ℕ) → length ys ≡ length xs → write_at xs 0 ys ≡ ys
write_at_whole [] [] e = refl
write_at_whole [] (y ∷ ys) e = absurd (omega arith)
write_at_whole (x ∷ xs) [] e = absurd (omega arith)
write_at_whole (x ∷ xs) (y ∷ ys) e = ap (λ l. y ∷ l) (write_at_whole xs ys (omega arith))

length-slice : (xs : List ℕ) (off len : ℕ) → off + len ≤ length xs → length (slice xs off len) ≡ len
length-slice xs off len h = omega (arith, length-take len (drop off xs), length-drop off xs)

-- A read within a disk fills the buffer with the bytes stored there, and changes no disk.
pub mem_read_lem :
    (b : Bank Disks) (dev offset : ℕ) (buf : List ℕ)
    → IsDisk b dev
    → offset + length buf ≤ (b.below dev).mem_size
    → (b' : Bank Disks) × (block_read mem_submit true b dev offset buf (length buf)
        ≡ returned done (bytes_of b dev offset (length buf)) b')
      × ((d : ℕ) → b'.below d ≡ b.below d)
mem_read_lem b dev offset buf v h = (
  after_read b dev (length buf),
  read_result b dev offset buf v h
      ∙ ap (λ l. returned done l (after_read b dev (length buf)))
          (write_at_whole buf (bytes_of b dev offset (length buf))
            (length-slice (b.below dev).memory offset (length buf) (omega (arith, v.backed)))),
  λ d. ground (arith, ap b.below {x = d} {y = dev}),
)

-- A request that passes the end of the device is refused, and nothing changes.
pub mem_write_past_end :
    (allocated : Bool) (b : Bank Disks) (dev offset len : ℕ) (buf : List ℕ)
    → (b.device dev).size < offset + len
    → offset + len < 2 ^ 64
    → block_write mem_submit allocated b dev offset buf len ≡ returned failed buf b
unfolding block_write
mem_write_past_end allocated b dev offset len buf h f = ground arith

le_two_pow : (n : ℕ) → n + 1 ≤ 2 ^ n
le_two_pow zero = omega arith
le_two_pow (suc n) = omega (arith, le_two_pow n, pow-suc 2 n)

granted_pages : (size : ℕ) → pages_for size ≤ 10 → pages_for size * 4096 ≤ granted size
granted_pages size h = ground (arith, le_two_pow (pages_for size))

granted_capped : (size : ℕ) → 10 < pages_for size → granted size ≡ 1024 * 4096
granted_capped size h = rw (lt→ltb _ _ h)

-- A RAM disk, of a size that fits 64 bits when rounded up, is no larger than its memory exactly if
-- it has at most 1024 pages: the order asked of the page allocator stops at 10.
pub mem_block_create_backed :
    (name : List ℕ) (size : ℕ)
    → size + 4095 < 2 ^ 64
    → ((mem_block_create name size).0.mem_size ≤ length (mem_block_create name size).0.memory)
      ↔ (size ≤ 1024 * 4096)
unfolding mem_block_create
mem_block_create_backed name size h =
    rw (length-replicate {A = ℕ} (granted size) 0) (elim (dec_lt 10 (pages_for size)) [
      | yes big ↦ (
        (λ k. omega (arith, granted_capped size big)),
        (λ k. omega (arith, granted_capped size big)),
      )
      | no small ↦ ((λ k. omega arith), (λ k. omega (arith, granted_pages size (omega arith))))
    ])
