-- ===== src/Virtio/Queue/Fifo.antt =====
-- The available ring of src/virtio/virtio.c as a queue: what the guest adds is popped in that order.
use purevisor.Base.{
  ℕ, zero, suc, ◌+◌, ◌-◌, ◌*◌, ◌/◌, ◌%◌, ◌≡◌, ◌≢◌, ◌⊎◌, ◌<◌, ◌≤◌, refl, sym, ap, inl, inr, ◌∙◌,
  true, List, [], ◌∷◌, ◌++◌, if◌then◌else◌, arith, update, update_ne, update_self, length, ap₂,
  subst, ltb, Bool-cases, Option, none, some,
}
use native.Mathlib.Nat.{
  dvd-sub, le_of_dvd, mod-mod_of_dvd, dvd-mul_right, dvd_of_mod-eq-zero, div-add-mod,
}
use purevisor.Virtio.Queue.{Rings, Virtqueue, u16, chain_count, virtq_pop}

-- The heads in the ring from position `i` on.
abbrev pub heads_from : ℕ → (ℕ → ℕ) → ℕ → ℕ → List ℕ
heads_from num ring i zero = []
heads_from num ring i (suc n) = ring (i % num) ∷ heads_from num ring (u16 (i + 1)) n

-- How many the guest added and the host did not pop.
abbrev pub backlog : Virtqueue → Rings → ℕ
backlog vq m = u16 (m.avail_idx + 65536 - vq.last_avail_idx)

-- The queue that the ring stands for.
abbrev pub pending : Virtqueue → Rings → List ℕ
pending vq m = heads_from vq.num m.avail_ring vq.last_avail_idx (backlog vq m)

-- A guest's driver adds a chain: its head in the ring, then the index.
abbrev pub offer : Virtqueue → Rings → ℕ → Rings
offer vq m head = record m {
  avail_ring = update m.avail_ring (m.avail_idx % vq.num) head;
  avail_idx = u16 (m.avail_idx + 1);
}

pub record IsRing (vq : Virtqueue) (m : Rings) : Type 0 where
  pub enabled : vq.enabled ≡ true
  pub mapped : vq.avail ≢ 0
  pub size : 65536 % vq.num ≡ 0
  pub last : vq.last_avail_idx < 65536
  pub idx : m.avail_idx < 65536
  pub fits : backlog vq m ≤ vq.num

add_mod_distinct : (a k m n : ℕ) → k < m → m < k + n → (a + k) % n ≢ (a + m) % n
add_mod_distinct a k m n l h e =
    let p = n * ((a + m) / n) in
    let q = n * ((a + k) / n) in
    let x : p + (a + m) % n ≡ a + m = div-add-mod (a + m) n in
    let y : q + (a + k) % n ≡ a + k = div-add-mod (a + k) n in
    let d : p - q ≡ m - k = gap p q ((a + m) % n) ((a + k) % n) x y e in
    absurd (
      omega (
        arith,
        le_of_dvd (omega (arith, d, l))
            (dvd-sub n (dvd-mul_right n ((a + m) / n)) (dvd-mul_right n ((a + k) / n))),
        d,
        l,
        h,
      ))
  where
    gap : (p q r s : ℕ) → p + r ≡ a + m → q + s ≡ a + k → s ≡ r → p - q ≡ m - k
    gap p q r s x y z = omega (arith, x, y, z, l)

-- The ring with `h` written behind `n` heads.
heads_from-snoc :
    (num : ℕ) (ring : ℕ → ℕ) (h i n : ℕ)
    → 65536 % num ≡ 0
    → i < 65536
    → n < num
    → heads_from num (update ring (u16 (i + n) % num) h) i (suc n)
      ≡ heads_from num ring i n ++ (h ∷ [])
heads_from-snoc num ring h i zero d l b =
    let e : u16 (i + 0) ≡ i = omega (arith, l) in
    rw e (ap (λ x. x ∷ []) (update_self ring (i % num) h))
heads_from-snoc num ring h i (suc n) d l b =
    let apart : i % num ≢ u16 (i + suc n) % num = λ e.
      add_mod_distinct i 0 (suc n) num (omega arith) (omega (arith, b)) (
        ap (λ k. k % num) (omega arith)
        ∙ e
        ∙ mod-mod_of_dvd num (i + suc n) (dvd_of_mod-eq-zero num d)) in
    let step : u16 (i + suc n) ≡ u16 (u16 (i + 1) + n) = omega arith in
    ap₂ (λ x xs. x ∷ xs) (update_ne ring (u16 (i + suc n) % num) (i % num) h apart)
      (subst
        (λ k.
          heads_from num (update ring (k % num) h) (u16 (i + 1)) (suc n)
          ≡ heads_from num ring (u16 (i + 1)) n ++ (h ∷ []))
        (sym step) (heads_from-snoc num ring h (u16 (i + 1)) n d (omega arith) (omega (arith, b))))

offer-pending :
    (vq : Virtqueue) (m : Rings) (h : ℕ)
    → IsRing vq m
    → backlog vq m < vq.num
    → vq.num ≤ 65535
    → (pending vq (offer vq m h) ≡ pending vq m ++ (h ∷ [])) × IsRing vq (offer vq m h)
offer-pending vq m h v l small =
    let n = backlog vq m in
    let more : backlog vq (offer vq m h) ≡ suc n = omega (arith, v.last, v.idx, l, small) in
    let place : m.avail_idx ≡ u16 (vq.last_avail_idx + n) = omega (arith, v.last, v.idx) in
    (
      ap (heads_from vq.num (update m.avail_ring (m.avail_idx % vq.num) h) vq.last_avail_idx) more
          ∙ ap
              (λ i.
                heads_from vq.num (update m.avail_ring (i % vq.num) h) vq.last_avail_idx (suc n))
              place
          ∙ heads_from-snoc vq.num m.avail_ring h vq.last_avail_idx n v.size v.last l,
      record {
        enabled = v.enabled;
        mapped = v.mapped;
        size = v.size;
        last = v.last;
        idx = omega arith;
        fits = omega (arith, more, l);
      },
    )

abbrev popped : Virtqueue → Virtqueue
popped vq = record vq { last_avail_idx = u16 (vq.last_avail_idx + 1) }

pop-empty :
    (vq : Virtqueue) (m : Rings) → IsRing vq m → backlog vq m ≡ 0 → virtq_pop vq m ≡ (none, vq)
unfolding virtq_pop
pop-empty vq m v z =
    let e : vq.last_avail_idx ≡ m.avail_idx = omega (arith, v.last, v.idx, z) in
    ground (arith, v.enabled, v.mapped, e)

pop-head :
    (vq : Virtqueue) (m : Rings) (n : ℕ)
    → IsRing vq m
    → backlog vq m ≡ suc n
    → (virtq_pop vq m ≡ (
      some (
        m.avail_ring (vq.last_avail_idx % vq.num),
        chain_count m (m.avail_ring (vq.last_avail_idx % vq.num)) vq.num,
      ),
      popped vq,
    ))
      × (backlog (popped vq) m ≡ n)
      × IsRing (popped vq) m
unfolding virtq_pop
pop-head vq m n v z =
    let ne : vq.last_avail_idx ≢ m.avail_idx = λ e. absurd (omega (arith, v.last, v.idx, z, e)) in
    let less : backlog (popped vq) m ≡ n = omega (arith, v.last, v.idx, z) in
    (
      ground (arith, v.enabled, v.mapped, ne),
      less,
      record {
        enabled = v.enabled;
        mapped = v.mapped;
        size = v.size;
        last = omega arith;
        idx = v.idx;
        fits = omega (arith, less, v.fits, z);
      },
    )

-- What happens at a ring: the guest's driver adds a chain, which it does where fewer than `num` wait, or
-- the host asks for one.
pub data RingOp : Type 0 where
  add : ℕ → RingOp
  take : RingOp

abbrev pub head_of : Option (ℕ × ℕ) → Option ℕ
head_of none = none
head_of (some (h, n)) = some h

-- What the host is given, for each time that it asks.
abbrev pub run_ring : Virtqueue → Rings → List RingOp → List (Option ℕ)
run_ring vq m [] = []
run_ring vq m (add h ∷ ops) =
    run_ring vq (if ltb (backlog vq m) vq.num then offer vq m h else m) ops
run_ring vq m (take ∷ ops) = let (r, vq') = virtq_pop vq m in head_of r ∷ run_ring vq' m ops

-- The same on a list that holds at most `num`.
abbrev pub first_of : List ℕ → Option ℕ
first_of [] = none
first_of (h ∷ q) = some h

abbrev pub rest_of : List ℕ → List ℕ
rest_of [] = []
rest_of (h ∷ q) = q

abbrev pub run_queue : ℕ → List ℕ → List RingOp → List (Option ℕ)
run_queue num q [] = []
run_queue num q (add h ∷ ops) = run_queue num (if ltb (length q) num then q ++ (h ∷ []) else q) ops
run_queue num q (take ∷ ops) = first_of q ∷ run_queue num (rest_of q) ops

zero_or_suc : (n : ℕ) → (n ≡ 0) ⊎ ((k : ℕ) × (n ≡ suc k))
zero_or_suc zero = inl refl
zero_or_suc (suc n) = inr (n, refl)

length-heads_from : (num : ℕ) (ring : ℕ → ℕ) (i n : ℕ) → length (heads_from num ring i n) ≡ n
length-heads_from num ring i zero = refl
length-heads_from num ring i (suc n) = ap suc (length-heads_from num ring (u16 (i + 1)) n)

-- Whatever chains a guest's driver adds to the available ring and whenever the host asks, in any order
-- and over any number of rounds of the ring and of its 16-bit indices, `virtq_pop` gives the heads that a
-- first-in, first-out queue of `num` places gives. The queue is enabled, its size divides 2^16 and is
-- below it, and the driver does not have more than `num` chains wait.
pub run_ring-run_queue :
    (vq : Virtqueue) (m : Rings) (ops : List RingOp)
    → IsRing vq m
    → vq.num ≤ 65535
    → run_ring vq m ops ≡ run_queue vq.num (pending vq m) ops
run_ring-run_queue vq m [] v s = refl
run_ring-run_queue vq m (add h ∷ ops) v s =
    let n = length-heads_from vq.num m.avail_ring vq.last_avail_idx (backlog vq m) in
    elim (Bool-cases (ltb (backlog vq m) vq.num)) [
      | inl t ↦
          let (e, w) = offer-pending vq m h v (ground (arith, t)) s in
          rw (n, t)
            (run_ring-run_queue vq (offer vq m h) ops w s ∙ ap (λ q. run_queue vq.num q ops) e)
      | inr f ↦ rw (n, f) (run_ring-run_queue vq m ops v s)
    ]
run_ring-run_queue vq m (take ∷ ops) v s = elim (zero_or_suc (backlog vq m)) [
  | inl z ↦
      rw (pop-empty vq m v z, z)
        (ap (λ l. none ∷ l)
          (run_ring-run_queue vq m ops v s
            ∙ ap (λ k. run_queue vq.num (heads_from vq.num m.avail_ring vq.last_avail_idx k) ops)
                z))
  | inr (n, z) ↦
      let (e, less, w) = pop-head vq m n v z in
      rw (e, z)
        (ap (λ l. some (m.avail_ring (vq.last_avail_idx % vq.num)) ∷ l)
          (run_ring-run_queue (popped vq) m ops w s
            ∙ ap
                (λ k.
                  run_queue vq.num (heads_from vq.num m.avail_ring (u16 (vq.last_avail_idx + 1)) k)
                    ops)
                less))
]
