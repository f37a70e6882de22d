-- ===== src/Virtio/Disk/Ends.antt =====
-- When `process_request` of src/virtio/virtio_blk.c ends.
use purevisor.Base.{
  ℕ, zero, suc, ◌-◌, ◌≡◌, ◌<◌, inl, inr, refl, ap, ◌∙◌, Bool, true, false, none, some, arith,
  Bool-cases, subst,
}
use purevisor.Virtio.Queue.{Desc, Rings, Virtqueue, low_bit, chain_count, virtq_get_desc, virtq_pop}
use purevisor.Virtio.Disk.{
  Work, walk, Guest, Request, desc_of, load_desc, rings_in, is_writable, read_data, write_data,
  flush, get_id, other, body_of, body_in, body_out, body_id, request_at, start_work, push_work,
  serve_head, process_request,
}
use purevisor.Virtio.Disk.Table.{
  get_desc-some, get_desc-cases, IsClear, SameTable, body-Stores, Stores-SameTable,
}

-- No buffer of an entry of the table lies over the table.
abbrev pub ClearTable : Guest → Type 0
ClearTable g =
    (i : ℕ) → i < g.queue.num → is_writable (desc_of g i) ≡ true → IsClear g.queue (desc_of g i)

walk-out :
    (body : Work → Desc → Bool × Work) (vq : Virtqueue) (m : Rings) (i n : ℕ) (w : Work)
    → virtq_get_desc vq (rings_in vq m w.mem) i ≡ none
    → walk body vq m true i w (suc n) ≡ some w
unfolding walk
walk-out body vq m i n w e = rw (e, walk) refl

pub walk-next :
    (body : Work → Desc → Bool × Work) (vq : Virtqueue) (m : Rings) (i n : ℕ) (w : Work) (d : Desc)
    → virtq_get_desc vq (rings_in vq m w.mem) i ≡ some d
    → (body w d).0 ≡ false
    → walk body vq m true i w (suc n) ≡ walk body vq m (low_bit d.flags) d.next (body w d).1 n
unfolding walk
walk-next body vq m i n w d e g = rw (e, walk) (rw g refl)

walk-stop :
    (body : Work → Desc → Bool × Work) (vq : Virtqueue) (m : Rings) (i n : ℕ) (w : Work) (d : Desc)
    → virtq_get_desc vq (rings_in vq m w.mem) i ≡ some d
    → (body w d).0 ≡ true
    → walk body vq m true i w (suc n) ≡ some (body w d).1
unfolding walk
walk-stop body vq m i n w d e g = rw (e, walk) (rw g refl)

-- The descriptor of a round, where no round before it touched the table.
kept_desc :
    (g : Guest) (w : Work) (i : ℕ)
    → SameTable g.queue g.mem w.mem
    → i < g.queue.num
    → virtq_get_desc g.queue (rings_in g.queue g.rings w.mem) i
      ≡ some (load_desc w.mem g.queue.desc_addr i)
    → virtq_get_desc g.queue (rings_in g.queue g.rings w.mem) i ≡ some (desc_of g i)
kept_desc g w i s l e = e ∙ ap some (s i l)

-- A round leaves the table as it was.
next_table :
    (q : Request) (g : Guest) (w : Work) (i : ℕ)
    → ClearTable g
    → SameTable g.queue g.mem w.mem
    → i < g.queue.num
    → SameTable g.queue g.mem (body_of q w (desc_of g i)).1.mem
next_table q g w i clear s l j k =
    let d = desc_of g i in
    Stores-SameTable g.queue w (body_of q w d).1 d (clear i l) (body-Stores q w d) j k ∙ s j k

-- The loop ends where the chain does.
walk_ends :
    (q : Request) (g : Guest) (b : Bool) (i n : ℕ) (w : Work)
    → ClearTable g
    → SameTable g.queue g.mem w.mem
    → (b ≡ true → chain_count (rings_in g.queue g.rings g.mem) i n < n)
    → (w' : Work) × (walk (body_of q) g.queue g.rings b i w n ≡ some w')
unfolding walk chain_count
walk_ends q g false i n w clear s h = (w, refl)
walk_ends q g true i zero w clear s h = absurd (omega (arith, h refl))
walk_ends q g true i (suc n) w clear s h =
    elim (get_desc-cases g.queue (rings_in g.queue g.rings w.mem) i) [
      | inl e ↦ (w, walk-out (body_of q) g.queue g.rings i n w e)
      | inr (l, e) ↦
          let d = desc_of g i in
          let e' = kept_desc g w i s l e in
          elim (Bool-cases (body_of q w d).0) [
            | inl t ↦ ((body_of q w d).1, walk-stop (body_of q) g.queue g.rings i n w d e' t)
            | inr f ↦
                let (w', k) =
                  walk_ends q g (low_bit d.flags) d.next n (body_of q w d).1 clear
                    (next_table q g w i clear s l) (λ c. ground (arith, h refl, c)) in
                (w', walk-next (body_of q) g.queue g.rings i n w d e' f ∙ k)
          ]
    ]

serve-ends :
    (n : ℕ) (g : Guest) (head : ℕ)
    → ClearTable g
    → chain_count (rings_in g.queue g.rings g.mem) head (suc n) < suc n
    → (g' : Guest) × (process_request n g head ≡ some g')
unfolding process_request chain_count
serve-ends n g head clear h = elim (get_desc-cases g.queue (rings_in g.queue g.rings g.mem) head) [
  | inl e ↦ (g, ap (serve_head n g head) e)
  | inr (l, e) ↦
      let d = desc_of g head in
      let (w, k) =
        walk_ends (request_at g.mem d) g (low_bit d.flags) d.next n (start_work g d) clear
          (λ i l. refl) (λ c. ground (arith, h, c)) in
      (_, ap (serve_head n g head) e ∙ ap (push_work g head) k)
]

pop_count :
    (vq : Virtqueue) (m : Rings) (head count : ℕ)
    → (virtq_pop vq m).0 ≡ some (head, count)
    → count ≡ chain_count m head vq.num
unfolding virtq_pop
pop_count vq m head count e = ground (arith, e)

-- Where `virtq_pop` counts fewer descriptors in a chain than the queue has places, the loop of
-- `process_request` over that chain ends, after no more rounds than the queue has places less one. No
-- buffer that a descriptor of the queue lets the device write covers a part of the descriptor table, nor
-- does the byte at its address.
pub request_ends :
    (g : Guest) (head count : ℕ)
    → ClearTable g
    → (virtq_pop g.queue (rings_in g.queue g.rings g.mem)).0 ≡ some (head, count)
    → count < g.queue.num
    → (g' : Guest) × (process_request (g.queue.num - 1) g head ≡ some g')
request_ends g head count clear e l =
    let m = rings_in g.queue g.rings g.mem in
    let c = pop_count g.queue m head count e in
    let n : g.queue.num ≡ suc (g.queue.num - 1) = omega (arith, l) in
    serve-ends (g.queue.num - 1) g head clear
      (subst (λ k. chain_count m head k < k) n (omega (arith, c, l)))

-- The requests whose loop no descriptor breaks.
abbrev pub is_open : Request → Bool
is_open read_data = true
is_open write_data = true
is_open flush = false
is_open get_id = true
is_open other = false

open_body : (q : Request) (w : Work) (d : Desc) → is_open q ≡ true → (body_of q w d).0 ≡ false
unfolding body_in body_out body_id
open_body read_data w d h = refl
open_body write_data w d h = refl
open_body flush w d h = absurd (ground (arith, h))
open_body get_id w d h = refl
open_body other w d h = absurd (ground (arith, h))

-- The descriptors of a set that their `next` never leaves.
pub record IsLoop (g : Guest) (P : ℕ → Type 0) : Type 0 where
  pub enabled : g.queue.enabled ≡ true
  pub inside : (i : ℕ) → P i → i < g.queue.num
  pub more : (i : ℕ) → P i → low_bit (desc_of g i).flags ≡ true
  pub stays : (i : ℕ) → P i → P (desc_of g i).next

walk_loops :
    (q : Request) (g : Guest) (P : ℕ → Type 0) (i n : ℕ) (w : Work)
    → is_open q ≡ true
    → ClearTable g
    → IsLoop g P
    → P i
    → SameTable g.queue g.mem w.mem
    → walk (body_of q) g.queue g.rings true i w n ≡ none
unfolding walk
walk_loops q g P i zero w o clear v p s = refl
walk_loops q g P i (suc n) w o clear v p s =
    let d = desc_of g i in
    let w' = (body_of q w d).1 in
    let l = v.inside i p in
    walk-next (body_of q) g.queue g.rings i n w d
      (kept_desc g w i s l (get_desc-some g.queue (rings_in g.queue g.rings w.mem) i v.enabled l))
      (open_body q w d o)
    ∙ ap (λ b. walk (body_of q) g.queue g.rings b d.next w' n) (v.more i p)
    ∙ walk_loops q g P d.next n w' o clear v (v.stays i p) (next_table q g w i clear s l)

-- A guest that links descriptors in a circle keeps the host in the loop of `process_request` for ever:
-- for a request to read, to write or for the disk's name whose head is in the circle, no number of
-- rounds is enough. No buffer that a descriptor of the queue lets the device write covers a part of the
-- descriptor table, nor does the byte at its address.
pub request_loops :
    (g : Guest) (P : ℕ → Type 0) (head n : ℕ)
    → ClearTable g
    → IsLoop g P
    → P head
    → is_open (request_at g.mem (desc_of g head)) ≡ true
    → process_request n g head ≡ none
unfolding process_request
request_loops g P head n clear v p o =
    let d = desc_of g head in
    let q = request_at g.mem d in
    ap (serve_head n g head)
      (get_desc-some g.queue (rings_in g.queue g.rings g.mem) head v.enabled (v.inside head p))
    ∙ ap (λ b. push_work g head (walk (body_of q) g.queue g.rings b d.next (start_work g d) n))
        (v.more head p)
    ∙ ap (push_work g head)
        (walk_loops q g P d.next n (start_work g d) o clear v (v.stays head p) (λ i l. refl))
