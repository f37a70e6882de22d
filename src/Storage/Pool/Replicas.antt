-- ===== src/Storage/Pool/Replicas.antt =====
-- Replicated allocation, with its rollback: `pool_alloc_replicated_extent` of src/storage/pool.c.
use purevisor.Base.{
  ◌≤◌, Bool, subst, ℕ, zero, suc, ◌+◌, ◌<◌, ◌≡◌, ◌≢◌, ◌==◌, ◌⊎◌, ◌∙◌, inl, inr, refl, sym, ap, true,
  false, List, [], ◌∷◌, ◌++◌, Option, none, some, arith, Bool-cases, ltb, add32, length,
  length-append, All, All-map, All-zip, Distinct, count_below, count_below-ext,
}
use mathlib.Core.Bool.{false≢true}
use purevisor.Storage.Pool.{
  Pool, Extent, is_free, free_at, pool_alloc_extent, pool_free_extent, free_all, link_replica,
  set_replica_count, alloc_replicas, count_replicas, pool_alloc_replicated_extent,
}
use purevisor.Storage.Pool.Extents.{
  IsCounted, Claimed, Claimed-IsCounted, alloc_extent_lem, free_extent_lem,
}

-- The extents `ids` were free in `p`, are handed out in `q`, and are the only ones to be so.
pub record Taken (p : Pool) (ids : List ℕ) (q : Pool) : Type 0 where
  pub counts : IsCounted q
  pub same_total : q.total_extents ≡ p.total_extents
  pub were_free : All (λ i. (i < p.total_extents) × (free_at p i ≡ true)) ids
  pub now_taken : All (λ i. free_at q i ≡ false) ids
  pub distinct : Distinct ids
  pub fewer : q.free_extents + length ids ≡ p.free_extents
  pub still_free : (j : ℕ) → free_at q j ≡ true → free_at p j ≡ true
  pub untouched : (j : ℕ) → All (λ i. i ≢ j) ids → free_at q j ≡ free_at p j

-- Writing a link or a replica count changes no extent's state.
relink-IsCounted :
    (p q : Pool)
    → IsCounted p
    → ((j : ℕ) → free_at q j ≡ free_at p j)
    → q.free_extents ≡ p.free_extents
    → q.total_extents ≡ p.total_extents
    → q.next_extent ≡ p.next_extent
    → IsCounted q
relink-IsCounted p q v same fr tot cur = record {
  counted =
      fr
      ∙ v.counted
      ∙ sym (count_below-ext (free_at q) (free_at p) p.total_extents (λ j _. same j))
      ∙ ap (count_below (free_at q)) (sym tot);
  cursor = omega (arith, v);
  total_fits = omega (arith, v);
}

link-free_at : (p : Pool) (primary r e j : ℕ) → free_at (link_replica p primary r e) j ≡ free_at p j
link-free_at p primary r e j = ground (arith, ap (free_at p) {x = j} {y = primary})

count-free_at :
    (p : Pool) (primary n j : ℕ) → free_at (set_replica_count p primary n) j ≡ free_at p j
count-free_at p primary n j = ground (arith, ap (free_at p) {x = j} {y = primary})

All-append {κ} : (P : ℕ → Type κ) (xs : List ℕ) (y : ℕ) → All P xs → P y → All P (xs ++ (y ∷ []))
All-append P [] y h p = (p, tt)
All-append P (x ∷ xs) y h p = (h.0, All-append P xs y h.1 p)

All-split {κ} : (P : ℕ → Type κ) (xs : List ℕ) (y : ℕ) → All P (xs ++ (y ∷ [])) → All P xs × P y
All-split P [] y h = (tt, h.0)
All-split P (x ∷ xs) y h = let (a, b) = All-split P xs y h.1 in ((h.0, a), b)

Distinct-append :
    (xs : List ℕ) (y : ℕ) → Distinct xs → All (λ x. x ≢ y) xs → Distinct (xs ++ (y ∷ []))
Distinct-append [] y d h = (tt, tt)
Distinct-append (x ∷ xs) y d h =
    (All-append (λ z. x ≢ z) xs y d.0 h.0, Distinct-append xs y d.1 h.1)

-- One more allocation, and its link.
take_one :
    (p q q' : Pool) (ids : List ℕ) (primary r e : ℕ)
    → Taken p ids q
    → Claimed q e q'
    → Taken p (ids ++ (e ∷ [])) (link_replica q' primary r e)
take_one p q q' ids primary r e t c = record {
  counts =
      relink-IsCounted q' (link_replica q' primary r e) (Claimed-IsCounted q q' e t.counts c)
        (link-free_at q' primary r e) refl refl refl;
  same_total = c.same_total ∙ t.same_total;
  were_free =
      All-append _ ids e t.were_free
        (omega (arith, c.in_range, t.same_total), t.still_free e c.was_free);
  now_taken =
      All-append _ ids e (All-map (λ i h. taken i h) ids t.now_taken)
        (link-free_at q' primary r e e ∙ ap is_free c.now);
  distinct = Distinct-append ids e t.distinct (All-map (λ i h. apart i h) ids t.now_taken);
  fewer = omega (arith, t.fewer, c.one_fewer, length-append {0} ids (e ∷ []));
  still_free = λ j h. t.still_free j (before j (sym (link-free_at q' primary r e j) ∙ h));
  untouched = λ j h.
      let (h', ne) = All-split _ ids e h in
      link-free_at q' primary r e j
      ∙ ap (λ (x : Extent). is_free x.state) (c.others j (λ w. ne (sym w)))
      ∙ t.untouched j h';
}
  where
    before : (j : ℕ) → free_at q' j ≡ true → free_at q j ≡ true
    before j h = elim (Bool-cases (j == e)) [
      | inl s ↦ let s' : j ≡ e = ground arith in ap (free_at q) s' ∙ c.was_free
      | inr n ↦ ap (λ (x : Extent). is_free x.state) (sym (c.others j (ground arith))) ∙ h
    ]

    apart : (i : ℕ) → free_at q i ≡ false → i ≢ e
    apart i h same = false≢true (sym h ∙ ap (free_at q) same ∙ c.was_free)

    taken : (i : ℕ) → free_at q i ≡ false → free_at (link_replica q' primary r e) i ≡ false
    taken i h =
        link-free_at q' primary r e i
        ∙ ap (λ (x : Extent). is_free x.state) (c.others i (apart i h))
        ∙ h

-- The rollback keeps the count of free extents.
pub free_all-IsCounted :
    (p : Pool) (ids : List ℕ)
    → IsCounted p
    → All (λ i. free_at p i ≡ false) ids
    → Distinct ids
    → IsCounted (free_all p ids)
unfolding free_all
free_all-IsCounted p [] v t d = v
free_all-IsCounted p (i ∷ is) v t d = elim (free_extent_lem p i v t.0) [
  | inr (_, e) ↦ rw e (free_all-IsCounted p is v t.1 d.1)
  | inl (_, _, rel) ↦
      free_all-IsCounted (pool_free_extent p i) is rel.counts
        (All-map
          (λ j h. ap (λ (x : Extent). is_free x.state) (rel.others j (λ e. h.0 (sym e))) ∙ h.1) is
          (All-zip _ _ is d.0 t.1))
        d.1
]

-- The rollback makes free again what `ids` took, but for extent 0: `was` says what was free before.
free_all_restores :
    (was : ℕ → Bool) (q : Pool) (ids : List ℕ)
    → IsCounted q
    → All (λ i. free_at q i ≡ false) ids
    → Distinct ids
    → All (λ i. (i < q.total_extents) × (was i ≡ true)) ids
    → ((j : ℕ) → 0 < j → All (λ i. i ≢ j) ids → free_at q j ≡ was j)
    → (j : ℕ) → 0 < j
    → free_at (free_all q ids) j ≡ was j
unfolding free_all
free_all_restores was q [] v t d r same = λ j pos. same j pos tt
free_all_restores was q (i ∷ is) v t d r same = elim (free_extent_lem q i v t.0) [
  | inr (out, e) ↦
      rw (e, free_all)
        (free_all_restores was q is v t.1 d.1 r.1 (λ j pos h. same j pos (zero_apart j out pos, h)))
  | inl (_, _, rel) ↦
      free_all_restores was (pool_free_extent q i) is rel.counts
        (All-map
          (λ j h. ap (λ (x : Extent). is_free x.state) (rel.others j (λ e. h.0 (sym e))) ∙ h.1) is
          (All-zip _ _ is d.0 t.1))
        d.1 (All-map (λ j h. (omega (arith, h.0, rel.same_total), h.1)) is r.1)
        (λ j pos h. elim (Bool-cases (j == i)) [
          | inl s ↦
              let s' : j ≡ i = ground arith in
              ap (free_at (pool_free_extent q i)) s' ∙ rel.now_free ∙ sym (r.0.1) ∙ ap was (sym s')
          | inr n ↦
              let n' : j ≢ i = ground arith in
              ap (λ (x : Extent). is_free x.state) (rel.others j n')
              ∙ same j pos ((λ w. n' (sym w)), h)
        ])
]
  where
    zero_apart : (j : ℕ) → (i ≡ 0) ⊎ (q.total_extents ≤ i) → 0 < j → i ≢ j
    zero_apart j out pos same' = ground (arith, out, pos, r.0.0, same')

-- How an allocation of `n` extents out of `p` ends.
abbrev pub Attempt : Pool → ℕ → Pool × Option (List ℕ) → Type 0
Attempt p n (q, some ids) = Taken p ids q × (length ids ≡ n)
Attempt p n (q, none) = IsCounted q × ((j : ℕ) → 0 < j → free_at q j ≡ free_at p j)

alloc_replicas_end :
    (q : Pool) (primary : ℕ) (ids : List ℕ) (r : ℕ)
    → alloc_replicas q primary ids r 0 ≡ (q, some ids)
unfolding alloc_replicas
alloc_replicas_end q primary ids r = refl

alloc_replicas_stop :
    (q : Pool) (primary : ℕ) (ids : List ℕ) (r n : ℕ)
    → pool_alloc_extent q ≡ none
    → alloc_replicas q primary ids r (suc n) ≡ (free_all q ids, none)
unfolding alloc_replicas
alloc_replicas_stop q primary ids r n e = rw (e, alloc_replicas) refl

alloc_replicas_step :
    (q q' : Pool) (primary : ℕ) (ids : List ℕ) (r n e : ℕ)
    → pool_alloc_extent q ≡ some (e, q')
    → alloc_replicas q primary ids r (suc n)
      ≡ alloc_replicas (link_replica q' primary r e) primary (ids ++ (e ∷ [])) (r + 1) n
unfolding alloc_replicas
alloc_replicas_step q q' primary ids r n e h = rw (h, alloc_replicas) refl

alloc_replicas-Attempt :
    (p q : Pool) (primary : ℕ) (ids : List ℕ) (r n : ℕ)
    → Taken p ids q
    → Attempt p (length ids + n) (alloc_replicas q primary ids r n)
alloc_replicas-Attempt p q primary ids r zero t =
    let u : Attempt p (length ids + 0) (q, some ids) = (t, omega arith) in
    subst (Attempt p (length ids + 0)) (sym (alloc_replicas_end q primary ids r)) u
alloc_replicas-Attempt p q primary ids r (suc n) t = elim (alloc_extent_lem q t.counts) [
  | inr (e, _) ↦
      subst (Attempt p (length ids + suc n)) (sym (alloc_replicas_stop q primary ids r n e)) (
        free_all-IsCounted q ids t.counts t.now_taken t.distinct,
        free_all_restores (free_at p) q ids t.counts t.now_taken t.distinct
            (All-map (λ i h. (omega (arith, h.0, t.same_total), h.1)) ids t.were_free)
            (λ j pos h. t.untouched j h),
      )
  | inl (i, q', e, c) ↦
      subst (Attempt p (length ids + suc n)) (sym (alloc_replicas_step q q' primary ids r n i e)) (
        subst
          (λ k.
            Attempt p k
              (alloc_replicas (link_replica q' primary r i) primary (ids ++ (i ∷ [])) (r + 1) n))
          (omega (arith, length-append {0} ids (i ∷ [])))
          (alloc_replicas-Attempt p (link_replica q' primary r i) primary (ids ++ (i ∷ [])) (r + 1)
            n (take_one p q q' ids primary r i t c)))
]

first-Taken : (p q : Pool) (i : ℕ) → IsCounted p → Claimed p i q → Taken p (i ∷ []) q
first-Taken p q i v c = record {
  counts = Claimed-IsCounted p q i v c;
  same_total = c.same_total;
  were_free = ((c.in_range, c.was_free), tt);
  now_taken = (ap is_free c.now, tt);
  distinct = (tt, tt);
  fewer = omega (arith, c.one_fewer);
  still_free = before;
  untouched = λ j h. ap (λ (x : Extent). is_free x.state) (c.others j (λ w. h.0 (sym w)));
}
  where
    before : (j : ℕ) → free_at q j ≡ true → free_at p j ≡ true
    before j h = elim (Bool-cases (j == i)) [
      | inl s ↦ let s' : j ≡ i = ground arith in ap (free_at p) s' ∙ c.was_free
      | inr n ↦ ap (λ (x : Extent). is_free x.state) (sym (c.others j (ground arith))) ∙ h
    ]

count_replicas-Attempt :
    (p : Pool) (n primary m : ℕ) (o : Pool × Option (List ℕ))
    → Attempt p n o
    → Attempt p n (count_replicas primary m o)
count_replicas-Attempt p n primary m (q, none) h = h
count_replicas-Attempt p n primary m (q, some ids) (t, l) = (
  record {
    counts =
        relink-IsCounted q (set_replica_count q primary m) t.counts (count-free_at q primary m) refl
          refl refl;
    same_total = t.same_total;
    were_free = t.were_free;
    now_taken = All-map (λ i h. count-free_at q primary m i ∙ h) ids t.now_taken;
    distinct = t.distinct;
    fewer = t.fewer;
    still_free = λ j h. t.still_free j (sym (count-free_at q primary m j) ∙ h);
    untouched = λ j h. count-free_at q primary m j ∙ t.untouched j h;
  },
  l,
)

-- What it computes to on each branch.
replicated_stop :
    (p : Pool) (replication : ℕ)
    → (ltb p.free_extents (add32 replication 1) ≡ true) ⊎ (pool_alloc_extent p ≡ none)
    → pool_alloc_replicated_extent p replication ≡ (p, none)
unfolding pool_alloc_replicated_extent
replicated_stop p replication (inl t) = rw t refl
replicated_stop p replication (inr e) = ground (arith, e)

replicated_step :
    (p q : Pool) (replication i : ℕ)
    → ltb p.free_extents (add32 replication 1) ≡ false
    → pool_alloc_extent p ≡ some (i, q)
    → pool_alloc_replicated_extent p replication
      ≡ count_replicas i replication (alloc_replicas q i (i ∷ []) 0 replication)
unfolding pool_alloc_replicated_extent
replicated_step p q replication i f e = rw f (rw e refl)

-- In a pool whose count of free extents is right, a replicated allocation that succeeds hands out
-- exactly one extent more than the replication asks for, all different, all free before, and no
-- other changes hands; one that fails gives back all that it took but extent 0. The count of free
-- extents is right in either case.
pub alloc_replicated_lem :
    (p : Pool) (replication : ℕ)
    → IsCounted p
    → Attempt p (1 + replication) (pool_alloc_replicated_extent p replication)
alloc_replicated_lem p replication v =
    elim (Bool-cases (ltb p.free_extents (add32 replication 1))) [
      | inl t ↦
          subst (Attempt p (1 + replication)) (sym (replicated_stop p replication (inl t)))
            (v, λ j pos. refl)
      | inr f ↦ elim (alloc_extent_lem p v) [
        | inr (e, _) ↦
            subst (Attempt p (1 + replication)) (sym (replicated_stop p replication (inr e)))
              (v, λ j pos. refl)
        | inl (i, q, e, c) ↦
            subst (Attempt p (1 + replication)) (sym (replicated_step p q replication i f e)) (
              count_replicas-Attempt p (1 + replication) i replication
                (alloc_replicas q i (i ∷ []) 0 replication)
                (alloc_replicas-Attempt p q i (i ∷ []) 0 replication (first-Taken p q i v c)))
      ]
    ]
