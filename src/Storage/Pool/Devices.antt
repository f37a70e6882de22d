-- ===== src/Storage/Pool/Devices.antt =====
-- Adding and removing a pool's devices: `pool_add_device` and `pool_remove_device` of src/storage/pool.c.
use purevisor.Base.{
  ℕ, zero, suc, ◌+◌, ◌-◌, ◌/◌, ◌^◌, ◌<◌, ◌≤◌, ◌≡◌, ◌≢◌, ◌==◌, ◌⊎◌, inl, inr, refl, sym, ap, ◌∙◌,
  Bool, true, none, some, arith, Bool-cases, update, leb, count_below, count_below-ext,
  count_below-le, first_from, mul64, u32,
}
use native.Mathlib.Numerals.{unary_clauses}
use native.Mathlib.Decide.{dec_lt}
use purevisor.Storage.Pool.{
  Pool, Extent, is_free, free_at, extent_size, fresh_extents, extended, pool_add_device,
  pool_remove_device, in_use_on, shift_down,
}
use purevisor.Storage.Pool.Extents.{IsCounted}

-- The device that extent `i` stands on.
abbrev pub device_of : Pool → ℕ → ℕ
device_of p i = p.devices (p.extents i).device_id

-- Extents `i` and `j` share no byte of a device.
abbrev pub AreApart : Pool → ℕ → ℕ → Type 0
AreApart p i j =
    (device_of p i ≢ device_of p j)
    ⊎ (((p.extents i).device_offset + extent_size ≤ (p.extents j).device_offset)
        ⊎ ((p.extents j).device_offset + extent_size ≤ (p.extents i).device_offset))

-- Every extent stands on a device of the pool, and no two share a byte.
pub record IsLaidOut (p : Pool) : Type 0 where
  pub on_device : (i : ℕ) → i < p.total_extents → (p.extents i).device_id < p.device_count
  pub apart : (i j : ℕ) → i < p.total_extents → j < p.total_extents → i ≢ j → AreApart p i j

count_below-extend :
    (f g : ℕ → Bool) (t n : ℕ)
    → ((i : ℕ) → i < t → g i ≡ f i)
    → ((i : ℕ) → t ≤ i → g i ≡ true)
    → count_below g (t + n) ≡ count_below f t + n
count_below-extend f g t zero old new = simp unary_clauses (count_below-ext g f t (λ i l. old i l))
count_below-extend f g t (suc n) old new =
    simp unary_clauses
      (rw (new (t + n) (omega arith)) (omega (arith, count_below-extend f g t n old new)))

fresh_old :
    (p : Pool) (d i : ℕ)
    → i < p.total_extents
    → fresh_extents p.extents p.total_extents d i ≡ p.extents i
fresh_old p d i l = ground arith

fresh_free :
    (p : Pool) (d i : ℕ)
    → p.total_extents ≤ i
    → is_free (fresh_extents p.extents p.total_extents d i).state ≡ true
fresh_free p d i l = ground arith

fresh_place :
    (p : Pool) (d i : ℕ)
    → p.total_extents ≤ i
    → ((fresh_extents p.extents p.total_extents d i).device_id ≡ d)
      × ((fresh_extents p.extents p.total_extents d i).device_offset
          ≡ mul64 (i - p.total_extents) extent_size)
fresh_place p d i l = (ground arith, ground arith)

-- A property of all that adding a device may leave.
add_device-cases {κ} :
    (P : Pool → Type κ) (got : Bool) (p : Pool) (dev size : ℕ)
    → P p
    → P (record p { devices = update p.devices p.device_count dev })
    → (p.device_count < 16 → P (extended p dev size))
    → P (pool_add_device got p dev size).1
unfolding pool_add_device
add_device-cases P got p dev size same lost added = elim (Bool-cases (dev == 0)) [
  | inl z ↦ rw z same
  | inr z ↦ rw z (elim (Bool-cases (leb 16 p.device_count)) [
    | inl f ↦ rw f same
    | inr f ↦
        rw f (elim (Bool-cases got) [ inl g ↦ rw g (added (ground arith)) | inr g ↦ rw g lost ])
  ])
]

extended-IsCounted :
    (p : Pool) (dev size : ℕ)
    → IsCounted p
    → p.total_extents + size / extent_size < 2 ^ 32
    → IsCounted (extended p dev size)
extended-IsCounted p dev size v room = record {
  counted = omega (
    arith,
    v,
    room,
    more,
    count_below-le (free_at p) p.total_extents,
    ap (count_below (free_at (extended p dev size))) whole,
  );
  cursor = omega (arith, v, room);
  total_fits = omega arith;
}
  where
    whole : u32 (p.total_extents + size / extent_size) ≡ p.total_extents + size / extent_size
    whole = omega (arith, room)

    more :
        count_below (free_at (extended p dev size)) (p.total_extents + size / extent_size)
        ≡ count_below (free_at p) p.total_extents + size / extent_size
    more =
        count_below-extend (free_at p) (free_at (extended p dev size)) p.total_extents
          (size / extent_size)
          (λ i l. ap (λ (x : Extent). is_free x.state) (fresh_old p p.device_count i l))
          (λ i l. fresh_free p p.device_count i l)

extended-IsLaidOut :
    (p : Pool) (dev size : ℕ)
    → IsLaidOut p
    → ((k : ℕ) → k < p.device_count → p.devices k ≢ dev)
    → p.device_count < 16
    → size < 2 ^ 64
    → p.total_extents + size / extent_size < 2 ^ 32
    → IsLaidOut (extended p dev size)
extended-IsLaidOut p dev size v fresh few small room = record {
  on_device = λ i l. ground (arith, v.on_device i);
  apart = λ i j li lj ne. elim (dec_lt i p.total_extents) [
    | yes i' ↦ elim (dec_lt j p.total_extents) [
      | yes j' ↦ old_old i j i' j' ne
      | no j' ↦ inl (λ e. new_ne i j i' (omega arith) e)
    ]
    | no i' ↦ elim (dec_lt j p.total_extents) [
      | yes j' ↦ inl (λ e. new_ne j i j' (omega arith) (sym e))
      | no j' ↦ inr (new_new i j li lj ne (omega arith) (omega arith))
    ]
  ];
}
  where
    old_device : (i : ℕ) → i < p.total_extents → device_of (extended p dev size) i ≡ device_of p i
    old_device i l = ground (arith, v.on_device i l)

    new_device : (j : ℕ) → p.total_extents ≤ j → device_of (extended p dev size) j ≡ dev
    new_device j l = ground (arith, l)

    old_old :
        (i j : ℕ)
        → i < p.total_extents
        → j < p.total_extents
        → i ≢ j
        → AreApart (extended p dev size) i j
    old_old i j li lj ne = elim (v.apart i j li lj ne) [
      | inl d ↦ inl (λ e. d (sym (old_device i li) ∙ e ∙ old_device j lj))
      | inr a ↦ inr (ground (arith, a))
    ]

    new_ne :
        (i j : ℕ)
        → i < p.total_extents
        → p.total_extents ≤ j
        → device_of (extended p dev size) i ≢ device_of (extended p dev size) j
    new_ne i j li lj e =
        fresh (p.extents i).device_id (v.on_device i li)
          (sym (old_device i li) ∙ e ∙ new_device j lj)

    new_new :
        (i j : ℕ)
        → i < (extended p dev size).total_extents
        → j < (extended p dev size).total_extents
        → i ≢ j
        → p.total_extents ≤ i
        → p.total_extents ≤ j
        → (((extended p dev size).extents i).device_offset + extent_size
            ≤ ((extended p dev size).extents j).device_offset)
          ⊎ (((extended p dev size).extents j).device_offset + extent_size
              ≤ ((extended p dev size).extents i).device_offset)
    new_new i j li lj ne ni nj =
        grind (arith, (fresh_place p p.device_count i ni).1, (fresh_place p p.device_count j nj).1)

-- Adding a device keeps the count of free extents right, on every branch: its extents are then counted
-- as free, as long as the pool's extents fit 32 bits.
pub add_device-IsCounted :
    (got : Bool) (p : Pool) (dev size : ℕ)
    → IsCounted p
    → p.total_extents + size / extent_size < 2 ^ 32
    → IsCounted (pool_add_device got p dev size).1
add_device-IsCounted got p dev size v room =
    add_device-cases IsCounted got p dev size v
      (record { counted = v.counted; cursor = v.cursor; total_fits = v.total_fits })
      (λ few. extended-IsCounted p dev size v room)

lost-IsLaidOut :
    (p : Pool) (dev : ℕ)
    → IsLaidOut p
    → IsLaidOut (record p { devices = update p.devices p.device_count dev })
lost-IsLaidOut p dev v = record {
  on_device = v.on_device;
  apart = λ i j li lj ne. elim (v.apart i j li lj ne) [
    | inl d ↦ inl (λ e. d (sym (kept i li) ∙ e ∙ kept j lj))
    | inr a ↦ inr a
  ];
}
  where
    kept :
        (i : ℕ)
        → i < p.total_extents
        → update p.devices p.device_count dev (p.extents i).device_id ≡ device_of p i
    kept i l = ground (arith, v.on_device i l)

-- Adding a device that is not in the pool keeps every extent on a device of the pool and no two of them
-- on a byte of the same device, on every branch, as long as the device's size fits 64 bits and the pool's
-- extents fit 32 bits.
pub add_device-IsLaidOut :
    (got : Bool) (p : Pool) (dev size : ℕ)
    → IsLaidOut p
    → ((k : ℕ) → k < p.device_count → p.devices k ≢ dev)
    → size < 2 ^ 64
    → p.total_extents + size / extent_size < 2 ^ 32
    → IsLaidOut (pool_add_device got p dev size).1
add_device-IsLaidOut got p dev size v fresh small room =
    add_device-cases IsLaidOut got p dev size v (lost-IsLaidOut p dev v)
      (λ few. extended-IsLaidOut p dev size v fresh few small room)

-- Removing a device that has one after it, and of whose extents none is allocated, leaves its
-- extents in the pool, and each of them then names the device after it.
pub removed_extents_remain :
    (p : Pool) (dev d i : ℕ)
    → first_from (λ k. p.devices k == dev) 0 p.device_count ≡ some d
    → first_from (in_use_on p d) 0 p.total_extents ≡ none
    → d + 1 < p.device_count
    → (p.extents i).device_id ≡ d
    → let (st, q) = pool_remove_device p dev in
      (st ≡ true)
      × (q.extents ≡ p.extents)
      × (q.total_extents ≡ p.total_extents)
      × (q.free_extents ≡ p.free_extents)
      × (q.devices (q.extents i).device_id ≡ p.devices (d + 1))
unfolding pool_remove_device
removed_extents_remain p dev d i found unused next here = rw found (
    rw unused (
      refl,
      refl,
      refl,
      refl,
      ground (
        arith,
        ap (shift_down p.devices d (p.device_count - 1)) {x = (p.extents i).device_id} {y = d},
      ),
    ))
