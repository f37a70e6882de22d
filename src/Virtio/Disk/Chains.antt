-- ===== src/Virtio/Disk/Chains.antt =====
-- A chain of a header, one buffer and a status byte, and what the loops of src/virtio/virtio_blk.c do
-- with it.
use purevisor.Base.{
  ℕ, zero, suc, ◌+◌, ◌*◌, ◌^◌, ◌≡◌, ◌<◌, ◌≤◌, refl, ap, ap₂, ◌∙◌, Bool, true, false, List, [], ◌∷◌,
  some, ltb, ◌==◌, arith, add64, mul64, take, length, get_or, slice, write_at,
}
use purevisor.Virtio.Queue.{Desc, low_bit}
use purevisor.Virtio.Disk.{
  Backend, memory_read, memory_write, read_mem, load_desc, rings_in, desc_of, is_writable, Work,
  walk, Guest, body_of, body_in, body_out, request_at, start_work, push_work, serve_head,
  process_request, put_status, data_in, data_out,
}
use purevisor.Virtio.Disk.Table.{get_desc-some}
use purevisor.Virtio.Disk.Ends.{walk-next}
use purevisor.Storage.Distributed.{from_le}

-- The chain of three descriptors: a header for the sector, a buffer and a status byte.
pub record IsChain (g : Guest) (head data' stat sector len : ℕ) : Type 0 where
  pub enabled : g.queue.enabled ≡ true
  pub head_in : head < g.queue.num
  pub data_in : data' < g.queue.num
  pub stat_in : stat < g.queue.num
  pub at_sector : from_le (read_mem g.mem ((desc_of g head).addr + 8) 8) ≡ sector
  pub head_more : low_bit (desc_of g head).flags ≡ true
  pub head_next : (desc_of g head).next ≡ data'
  pub data_more : low_bit (desc_of g data').flags ≡ true
  pub data_next : (desc_of g data').next ≡ stat
  pub data_len : (desc_of g data').len ≡ len
  pub real : 1 < len
  pub stat_last : low_bit (desc_of g stat).flags ≡ false
  pub stat_writable : is_writable (desc_of g stat) ≡ true
  pub stat_len : (desc_of g stat).len ≡ 1
  pub fits : sector * 512 + len ≤ g.backend.size
  pub small : g.backend.size < 2 ^ 64

-- What the round on the buffer leaves.
abbrev pub first_round : (Work → Desc → Bool × Work) → Guest → ℕ → ℕ → Work
first_round body g head data' = (body (start_work g (desc_of g head)) (desc_of g data')).1

-- The loop over the buffer and the status byte, whose descriptor the buffer does not reach.
walk_two :
    (body : Work → Desc → Bool × Work) (g : Guest) (head data' stat sector len : ℕ)
    → ((v : Work) (d : Desc) → (body v d).0 ≡ false)
    → load_desc (first_round body g head data').mem g.queue.desc_addr stat ≡ desc_of g stat
    → IsChain g head data' stat sector len
    → walk body g.queue g.rings true data' (start_work g (desc_of g head)) 2
      ≡ some (body (first_round body g head data') (desc_of g stat)).1
unfolding walk
walk_two body g head data' stat sector len o k v =
    let d = desc_of g data' in
    let s = desc_of g stat in
    let w = start_work g (desc_of g head) in
    let w' = first_round body g head data' in
    walk-next body g.queue g.rings data' 1 w d
      (get_desc-some g.queue (rings_in g.queue g.rings g.mem) data' v.enabled v.data_in) (o w d)
    ∙ ap₂ (λ b i. walk body g.queue g.rings b i w' 1) v.data_more v.data_next
    ∙ walk-next body g.queue g.rings stat 0 w' s
        (get_desc-some g.queue (rings_in g.queue g.rings w'.mem) stat v.enabled v.stat_in
          ∙ ap some k)
        (o w' s)
    ∙ ap (λ b. walk body g.queue g.rings b s.next (body w' s).1 0) v.stat_last

-- A request of this form, up to the push.
pub process_chain :
    (body : Work → Desc → Bool × Work) (g : Guest) (head data' stat sector len : ℕ)
    → ((v : Work) (d : Desc) → (body v d).0 ≡ false)
    → body_of (request_at g.mem (desc_of g head)) ≡ body
    → load_desc (first_round body g head data').mem g.queue.desc_addr stat ≡ desc_of g stat
    → IsChain g head data' stat sector len
    → process_request 2 g head
      ≡ push_work g head (some (body (first_round body g head data') (desc_of g stat)).1)
unfolding process_request
process_chain body g head data' stat sector len o q k v =
    let d = desc_of g head in
    ap (serve_head 2 g head)
      (get_desc-some g.queue (rings_in g.queue g.rings g.mem) head v.enabled v.head_in)
    ∙ ap
        (λ f. push_work g head (walk f g.queue g.rings (low_bit d.flags) d.next (start_work g d) 2))
        q
    ∙ ap₂ (λ b i. push_work g head (walk body g.queue g.rings b i (start_work g d) 2)) v.head_more
        v.head_next
    ∙ ap (push_work g head) (walk_two body g head data' stat sector len o k v)

pub length-read_mem : (mem : ℕ → ℕ) (a n : ℕ) → length (read_mem mem a n) ≡ n
length-read_mem mem a zero = refl
length-read_mem mem a (suc n) = ap suc (length-read_mem mem (a + 1) n)

pub take-read_mem : (mem : ℕ → ℕ) (a n : ℕ) → take n (read_mem mem a n) ≡ read_mem mem a n
take-read_mem mem a zero = refl
take-read_mem mem a (suc n) = ap (λ l. mem a ∷ l) (take-read_mem mem (a + 1) n)

pub read_mem-of :
    (mem : ℕ → ℕ) (bs : List ℕ) (a : ℕ)
    → ((k : ℕ) → k < length bs → mem (a + k) ≡ get_or bs k 0)
    → read_mem mem a (length bs) ≡ bs
read_mem-of mem [] a h = refl
read_mem-of mem (b ∷ bs) a h =
    ap₂ (λ x l. x ∷ l) (ap mem (omega arith) ∙ h 0 (omega arith))
      (read_mem-of mem bs (a + 1) (λ k l. ap mem (omega arith) ∙ h (suc k) (omega (arith, l))))

-- The disk after a write.
abbrev pub disk_with : Backend → ℕ → List ℕ → Backend
disk_with be sector bs = record be { bytes = write_at be.bytes (sector * 512) bs }

-- The bytes of the buffer.
abbrev pub buffer_of : Guest → ℕ → ℕ → List ℕ
buffer_of g data' len = read_mem g.mem (desc_of g data').addr len

pub out_buffer :
    (w : Work) (d : Desc) (be : Backend)
    → is_writable d ≡ false
    → 1 < d.len
    → memory_write w.backend (mul64 w.sector 512) (read_mem w.mem d.addr d.len) d.len ≡ some be
    → (body_out w d).1 ≡ data_out w d (some be)
unfolding body_out
out_buffer w d be r l e =
    let more : ltb 1 d.len ≡ true = ground (arith, l) in rw (r, more) (ap (data_out w d) e)

pub out_stat : (w : Work) (d : Desc) → is_writable d ≡ true → (body_out w d).1 ≡ put_status w d
unfolding body_out
out_stat w d e = rw e refl

pub out_goes_on : (w : Work) (d : Desc) → (body_out w d).0 ≡ false
unfolding body_out
out_goes_on w d = refl

pub in_buffer :
    (w : Work) (d : Desc) (bs : List ℕ)
    → is_writable d ≡ true
    → 1 < d.len
    → memory_read w.backend (mul64 w.sector 512) d.len ≡ some bs
    → (body_in w d).1 ≡ data_in w d (some bs)
unfolding body_in
in_buffer w d bs r l e =
    let more : (d.len == 1) ≡ false = ground (arith, l) in rw (r, more) (ap (data_in w d) e)

pub in_stat :
    (w : Work) (d : Desc) → is_writable d ≡ true → d.len ≡ 1 → (body_in w d).1 ≡ put_status w d
unfolding body_in
in_stat w d e l = rw (e, l) refl

pub in_goes_on : (w : Work) (d : Desc) → (body_in w d).0 ≡ false
unfolding body_in
in_goes_on w d = refl

pub memory_write-some :
    (be : Backend) (sector len : ℕ) (buf : List ℕ)
    → be.readonly ≡ false
    → sector * 512 + len ≤ be.size
    → be.size < 2 ^ 64
    → memory_write be (mul64 sector 512) buf len ≡ some (disk_with be sector (take len buf))
memory_write-some be sector len buf r l s =
    let start : mul64 sector 512 ≡ sector * 512 = omega (arith, l, s) in
    let inside : ltb be.size (add64 (sector * 512) len) ≡ false = ground (arith, l, s) in
    rw (start, r, inside) refl

pub memory_read-some :
    (be : Backend) (sector len : ℕ)
    → sector * 512 + len ≤ be.size
    → be.size < 2 ^ 64
    → memory_read be (mul64 sector 512) len ≡ some (slice be.bytes (sector * 512) len)
memory_read-some be sector len l s =
    let start : mul64 sector 512 ≡ sector * 512 = omega (arith, l, s) in
    let inside : ltb be.size (add64 (sector * 512) len) ≡ false = ground (arith, l, s) in
    rw (start, inside) refl
