-- ===== src/Virtio/Disk/Table.antt =====
-- The descriptor table in the guest's memory, and which of its entries the loops of
-- src/virtio/virtio_blk.c leave as they are.
use purevisor.Base.{
  ℕ, zero, suc, ◌+◌, ◌*◌, ◌≡◌, ◌<◌, ◌≤◌, ◌⊎◌, inl, inr, refl, ap, ap₂, ◌∙◌, true, not, ◌&&◌, ◌||◌,
  List, [], ◌∷◌, none, some, leb, ltb, ◌==◌, arith, Bool-cases, drop, take, length, slice, add64,
  mul64,
}
use purevisor.Storage.Distributed.{from_le}
use purevisor.Virtio.Queue.{Desc, Rings, Virtqueue, virtq_get_desc}
use purevisor.Virtio.Disk.{
  read_mem, write_mem, load_desc, is_writable, Work, Request, read_data, write_data, flush, get_id,
  other, body_of, body_in, body_out, body_id, body_status,
}

pub get_desc-some :
    (vq : Virtqueue) (m : Rings) (i : ℕ)
    → vq.enabled ≡ true
    → i < vq.num
    → virtq_get_desc vq m i ≡ some (m.desc i)
unfolding virtq_get_desc
get_desc-some vq m i e l = ground (arith, e, l)

pub get_desc-cases :
    (vq : Virtqueue) (m : Rings) (i : ℕ)
    → (virtq_get_desc vq m i ≡ none) ⊎ ((i < vq.num) × (virtq_get_desc vq m i ≡ some (m.desc i)))
unfolding virtq_get_desc
get_desc-cases vq m i = elim (Bool-cases (not vq.enabled || leb vq.num i)) [
  | inl t ↦ rw t (inl refl)
  | inr f ↦ rw f (inr (ground (arith, f), refl))
]

-- `n` bytes at `a` share none with `k` bytes at `b`.
abbrev pub AreDisjoint : ℕ → ℕ → ℕ → ℕ → Type 0
AreDisjoint a n b k = (a + n ≤ b) ⊎ (b + k ≤ a)

read_mem-write_mem :
    (mem : ℕ → ℕ) (a : ℕ) (bs : List ℕ) (b k : ℕ)
    → AreDisjoint a (length bs) b k
    → read_mem (write_mem mem a bs) b k ≡ read_mem mem b k
read_mem-write_mem mem a bs b zero h = refl
read_mem-write_mem mem a bs b (suc k) h =
    ap₂ (λ x l. x ∷ l) (ground (arith, h))
      (read_mem-write_mem mem a bs (b + 1) k (ground (arith, h)))

-- A descriptor of the bytes of its fields.
abbrev packed : List ℕ → List ℕ → List ℕ → List ℕ → Desc
packed a l f n = record { addr = from_le a; len = from_le l; flags = from_le f; next = from_le n }

-- An entry that the bytes written share none with.
pub load_desc-write_mem :
    (mem : ℕ → ℕ) (a : ℕ) (bs : List ℕ) (table i : ℕ)
    → AreDisjoint a (length bs) (table + i * 16) 16
    → load_desc (write_mem mem a bs) table i ≡ load_desc mem table i
unfolding load_desc
load_desc-write_mem mem a bs table i h =
    let p = table + i * 16 in
    let new = write_mem mem a bs in
    ap₂ (λ x y. packed x y (read_mem new (p + 12) 2) (read_mem new (p + 14) 2))
      (read_mem-write_mem mem a bs p 8 (ground (arith, h)))
      (read_mem-write_mem mem a bs (p + 8) 4 (ground (arith, h)))
    ∙ ap₂ (λ x y. packed (read_mem mem p 8) (read_mem mem (p + 8) 4) x y)
        (read_mem-write_mem mem a bs (p + 12) 2 (ground (arith, h)))
        (read_mem-write_mem mem a bs (p + 14) 2 (ground (arith, h)))

pub length-take-le : (n : ℕ) (bs : List ℕ) → length (take n bs) ≤ n
length-take-le zero bs = omega arith
length-take-le (suc n) [] = omega arith
length-take-le (suc n) (b ∷ bs) = omega (arith, length-take-le n bs)

-- What a round does to the memory: nothing, or a write to the buffer of its descriptor, of a status byte
-- or of no more bytes than the buffer has.
pub data Stores (w w' : Work) (d : Desc) : Type 0 where
  same : w'.mem ≡ w.mem → Stores w w' d
  stored :
      (bs : List ℕ)
      → is_writable d ≡ true
      → (length bs ≤ d.len) ⊎ (length bs ≡ 1)
      → w'.mem ≡ write_mem w.mem d.addr bs
      → Stores w w' d

in-Stores : (w : Work) (d : Desc) → Stores w (body_in w d).1 d
unfolding body_in
in-Stores w d = elim (Bool-cases (is_writable d)) [
  | inr f ↦ rw f (same refl)
  | inl t ↦ elim (Bool-cases (d.len == 1)) [
    | inl s ↦ rw (t, s) (stored (w.status ∷ []) t (inr refl) refl)
    | inr s ↦ elim (Bool-cases (ltb w.backend.size (add64 (mul64 w.sector 512) d.len))) [
      | inl b ↦ rw (t, s, b) (same refl)
      | inr b ↦
          rw (t, s, b)
            (stored (slice w.backend.bytes (mul64 w.sector 512) d.len) t
              (inl (length-take-le d.len (drop (mul64 w.sector 512) w.backend.bytes))) refl)
    ]
  ]
]

out-Stores : (w : Work) (d : Desc) → Stores w (body_out w d).1 d
unfolding body_out
out-Stores w d = elim (Bool-cases (is_writable d)) [
  | inl t ↦ rw t (stored (w.status ∷ []) t (inr refl) refl)
  | inr f ↦ elim (Bool-cases (ltb 1 d.len)) [
    | inr s ↦ rw (f, s) (same refl)
    | inl s ↦
        elim (Bool-cases
          (w.backend.readonly || ltb w.backend.size (add64 (mul64 w.sector 512) d.len))) [
            | inl b ↦ rw (f, s, b) (same refl)
            | inr b ↦ rw (f, s, b) (same refl)
          ]
  ]
]

id-Stores : (w : Work) (d : Desc) → Stores w (body_id w d).1 d
unfolding body_id
id-Stores w d = elim (Bool-cases (is_writable d)) [
  | inr f ↦ rw f (same refl)
  | inl t ↦ elim (Bool-cases (d.len == 1)) [
    | inl s ↦ rw (t, s) (stored (w.status ∷ []) t (inr refl) refl)
    | inr s ↦ elim (Bool-cases (ltb d.len 20)) [
      | inl b ↦
          rw (t, s, b)
            (stored (take d.len w.backend.id) t (inl (length-take-le d.len w.backend.id)) refl)
      | inr b ↦
          rw (t, s, b)
            (stored (take 20 w.backend.id) t
              (inl (ground (arith, b, length-take-le 20 w.backend.id))) refl)
    ]
  ]
]

status-Stores : (w : Work) (d : Desc) → Stores w (body_status w d).1 d
unfolding body_status
status-Stores w d = elim (Bool-cases (is_writable d && (d.len == 1))) [
  | inl t ↦ rw t (stored (w.status ∷ []) (ground (arith, t)) (inr refl) refl)
  | inr f ↦ rw f (same refl)
]

pub body-Stores : (q : Request) (w : Work) (d : Desc) → Stores w (body_of q w d).1 d
body-Stores read_data w d = in-Stores w d
body-Stores write_data w d = out-Stores w d
body-Stores flush w d = status-Stores w d
body-Stores get_id w d = id-Stores w d
body-Stores other w d = status-Stores w d

-- The buffer of a descriptor, and the byte at its address, share no byte with the descriptor table.
abbrev pub IsClear : Virtqueue → Desc → Type 0
IsClear vq d =
    AreDisjoint d.addr d.len vq.desc_addr (vq.num * 16)
    × AreDisjoint d.addr 1 vq.desc_addr (vq.num * 16)

-- The entries of the table in a memory are those in another.
abbrev pub SameTable : Virtqueue → (ℕ → ℕ) → (ℕ → ℕ) → Type 0
SameTable vq mem mem' =
    (i : ℕ) → i < vq.num → load_desc mem' vq.desc_addr i ≡ load_desc mem vq.desc_addr i

-- A round whose buffer is clear of the table leaves every entry.
pub Stores-SameTable :
    (vq : Virtqueue) (w w' : Work) (d : Desc)
    → (is_writable d ≡ true → IsClear vq d)
    → Stores w w' d
    → SameTable vq w.mem w'.mem
Stores-SameTable vq w w' d clear (same e) i l = ap (λ m. load_desc m vq.desc_addr i) e
Stores-SameTable vq w w' d clear (stored bs t n e) i l =
    let (c, c1) = clear t in
    ap (λ m. load_desc m vq.desc_addr i) e
    ∙ load_desc-write_mem w.mem d.addr bs vq.desc_addr i (apart c c1 n)
  where
    apart :
        AreDisjoint d.addr d.len vq.desc_addr (vq.num * 16)
        → AreDisjoint d.addr 1 vq.desc_addr (vq.num * 16)
        → (length bs ≤ d.len) ⊎ (length bs ≡ 1)
        → AreDisjoint d.addr (length bs) (vq.desc_addr + i * 16) 16
    apart (inl a) b (inl k) = inl (omega (arith, a, k))
    apart (inr a) b (inl k) = inr (omega (arith, a, l))
    apart a (inl b) (inr k) = inl (omega (arith, b, k))
    apart a (inr b) (inr k) = inr (omega (arith, b, l))
