-- ===== src/Storage/Pool/Extents.antt =====
-- The extent allocator of src/storage/pool.c.
use purevisor.Base.{
  ℕ, suc, ◌+◌, ◌-◌, ◌≤◌, ◌<◌, ◌^◌, ◌≡◌, ◌≢◌, ◌==◌, ◌⊎◌, inl, inr, refl, sym, ap, ◌∙◌, true, false,
  none, some, arith, Bool-cases, Option-cases, ltb, ◌&&◌, count_below, count_below-drop,
  count_below-ext, count_below-le, count_below-pos, first_from, first_from-some, first_from-none,
  first_from-here,
}
use purevisor.Storage.Pool.{
  Pool, Extent, allocated, is_free, free_at, claim, search_extent, pool_alloc_extent,
  pool_free_extent, release,
}

-- The count of free extents is the number of extents that are free, and the cursor stays within the
-- array.
pub record IsCounted (p : Pool) : Type 0 where
  pub counted : p.free_extents ≡ count_below (free_at p) p.total_extents
  pub cursor : p.next_extent ≤ p.total_extents
  pub total_fits : p.total_extents < 2 ^ 32

-- Extent `i` of `p` was free and is now handed out, and no other extent has changed.
pub record Claimed (p : Pool) (i : ℕ) (q : Pool) : Type 0 where
  pub in_range : i < p.total_extents
  pub was_free : free_at p i ≡ true
  pub now : (q.extents i).state ≡ allocated
  pub others : (j : ℕ) → j ≢ i → q.extents j ≡ p.extents j
  pub one_fewer : q.free_extents + 1 ≡ p.free_extents
  pub same_total : q.total_extents ≡ p.total_extents
  pub cursor_at : q.next_extent ≡ i + 1

claim-Claimed :
    (p : Pool) (i : ℕ)
    → IsCounted p
    → i < p.total_extents
    → free_at p i ≡ true
    → Claimed p i (claim p i)
claim-Claimed p i v l f = record {
  in_range = l;
  was_free = f;
  now = ground arith;
  others = λ j ne. ground arith;
  one_fewer = omega (
    arith,
    count_below-pos (free_at p) p.total_extents i l f,
    count_below-le (free_at p) p.total_extents,
    v,
  );
  same_total = refl;
  cursor_at = omega (arith, v);
}

pub Claimed-IsCounted : (p q : Pool) (i : ℕ) → IsCounted p → Claimed p i q → IsCounted q
Claimed-IsCounted p q i v c = record {
  counted = omega (arith, v, c, drop);
  cursor = omega (arith, v, c);
  total_fits = omega (arith, v, c);
}
  where
    drop : count_below (free_at p) p.total_extents ≡ suc (count_below (free_at q) q.total_extents)
    drop =
        ap (λ t. count_below (free_at p) t) (sym c.same_total)
        ∙ count_below-drop (free_at p) (free_at q) q.total_extents i (omega (arith, c)) c.was_free
            (ap is_free c.now) (λ j ne. ap (λ (e : Extent). is_free e.state) (sym (c.others j ne)))

search_found :
    (p : Pool) (i : ℕ)
    → IsCounted p
    → search_extent p ≡ some i
    → (free_at p i ≡ true) × (i < p.total_extents)
search_found p i v e = ground (
  arith,
  first_from-some (free_at p) p.next_extent (p.total_extents - p.next_extent) i,
  first_from-some (free_at p) 1 (p.next_extent - 1) i,
)

search_missed :
    (p : Pool) (i : ℕ)
    → IsCounted p
    → search_extent p ≡ none
    → i < p.total_extents
    → (0 < i) ⊎ (p.next_extent ≡ 0)
    → free_at p i ≡ false
search_missed p i v e l h = ground (
  arith,
  first_from-none (free_at p) p.next_extent (p.total_extents - p.next_extent) i,
  first_from-none (free_at p) 1 (p.next_extent - 1) i,
)

-- In a pool whose count of free extents is right, an allocation hands out one extent that was
-- free, and changes no other; or it fails, and then no extent is free, but for extent 0 once the
-- cursor has left it.
pub alloc_extent_lem :
    (p : Pool)
    → IsCounted p
    → ((i : ℕ) × (q : Pool) × (pool_alloc_extent p ≡ some (i, q)) × Claimed p i q)
      ⊎ ((pool_alloc_extent p ≡ none)
          × ((i : ℕ) → i < p.total_extents → (0 < i) ⊎ (p.next_extent ≡ 0) → free_at p i ≡ false))
unfolding pool_alloc_extent
alloc_extent_lem p v = elim (Bool-cases (p.free_extents == 0)) [
  | inl z ↦ rw z (inr (refl, λ i l h. none_free i l (ground arith)))
  | inr z ↦ rw z (elim (Option-cases (search_extent p)) [
    | inl e ↦ rw e (inr (refl, λ i l h. search_missed p i v e l h))
    | inr (i, e) ↦
        let f = search_found p i v e in rw e (inl (i, claim p i, refl, claim-Claimed p i v f.1 f.0))
  ])
]
  where
    none_free : (i : ℕ) → i < p.total_extents → p.free_extents ≡ 0 → free_at p i ≡ false
    none_free i l z = elim (Bool-cases (free_at p i)) [
      | inr f ↦ f
      | inl t ↦ absurd (omega (arith, count_below-pos (free_at p) p.total_extents i l t, v))
    ]

-- Extent `i` of `p` was not free and is now, and no other extent has changed.
pub record Released (p : Pool) (i : ℕ) (q : Pool) : Type 0 where
  pub now_free : free_at q i ≡ true
  pub others : (j : ℕ) → j ≢ i → q.extents j ≡ p.extents j
  pub one_more : q.free_extents ≡ p.free_extents + 1
  pub same_total : q.total_extents ≡ p.total_extents
  pub counts : IsCounted q

release-Released :
    (p : Pool) (i : ℕ)
    → IsCounted p
    → i < p.total_extents
    → free_at p i ≡ false
    → Released p i (release p i)
release-Released p i v l f = record {
  now_free = ground arith;
  others = λ j ne. ground arith;
  one_more = omega (arith, rise, count_below-le (free_at (release p i)) p.total_extents, v);
  same_total = refl;
  counts = record {
    counted = omega (arith, rise, count_below-le (free_at (release p i)) p.total_extents, v);
    cursor = v.cursor;
    total_fits = v.total_fits;
  };
}
  where
    rise :
        count_below (free_at (release p i)) p.total_extents
        ≡ suc (count_below (free_at p) p.total_extents)
    rise =
        count_below-drop (free_at (release p i)) (free_at p) p.total_extents i l (ground arith) f
          (λ j ne. ground arith)

-- In a pool whose count of free extents is right, freeing an extent that was handed out makes it
-- free, counts it, and touches no other; extent 0 and what lies past the array are left alone.
pub free_extent_lem :
    (p : Pool) (i : ℕ)
    → IsCounted p
    → free_at p i ≡ false
    → ((0 < i) × (i < p.total_extents) × Released p i (pool_free_extent p i))
      ⊎ (((i ≡ 0) ⊎ (p.total_extents ≤ i)) × (pool_free_extent p i ≡ p))
unfolding pool_free_extent
free_extent_lem p i v f = elim (Bool-cases (ltb 0 i && ltb i p.total_extents)) [
  | inl t ↦ rw t (inl (ground arith, ground arith, release-Released p i v (ground arith) f))
  | inr o ↦ rw o (inr (ground arith, refl))
]

-- Freeing an extent other than 0 that is free already is not noticed: the count of free extents,
-- right before, is then one more than the extents that are free.
pub double_free_miscounts :
    (p : Pool) (i : ℕ)
    → IsCounted p
    → 0 < i
    → i < p.total_extents
    → free_at p i ≡ true
    → p.total_extents + 1 < 2 ^ 32
    → let q = pool_free_extent p i in q.free_extents ≡ count_below (free_at q) q.total_extents + 1
unfolding pool_free_extent
double_free_miscounts p i v pos l f room =
    ground (arith, same, count_below-le (free_at p) p.total_extents, v)
  where
    same :
        count_below (free_at (release p i)) p.total_extents
        ≡ count_below (free_at p) p.total_extents
    same =
        count_below-ext (free_at (release p i)) (free_at p) p.total_extents
          (λ j l'. ground (arith, ap (free_at p) {x = j} {y = i}))

-- The first allocation of a pool that has never allocated hands out extent 0, the value by which an
-- extent map says that nothing is allocated.
pub first_extent_is_zero :
    (p : Pool)
    → IsCounted p
    → p.next_extent ≡ 0
    → 0 < p.total_extents
    → free_at p 0 ≡ true
    → pool_alloc_extent p ≡ some (0, claim p 0)
unfolding pool_alloc_extent
first_extent_is_zero p v c t f =
    ground (arith, count_below-pos (free_at p) p.total_extents 0 t f, v, start)
  where
    start : first_from (free_at p) p.next_extent (p.total_extents - p.next_extent) ≡ some 0
    start = rw c (first_from-here (free_at p) 0 (p.total_extents - 0) (omega arith) f)
