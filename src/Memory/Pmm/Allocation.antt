-- ===== src/Memory/Pmm/Allocation.antt =====
-- What an allocation of pages leaves: `pmm_alloc_pages` of src/mm/pmm.c.
use purevisor.Base.{
  subst, ℕ, zero, suc, ◌+◌, ◌-◌, ◌*◌, ◌^◌, ◌≡◌, ◌<◌, ◌≤◌, ◌⊎◌, inl, inr, refl, sym, ap, ◌∙◌, List,
  [], ◌∷◌, none, some, ltb, ◌==◌, add64, arith, Bool-cases, Option-cases,
}
use purevisor.Memory.Pmm.{
  Pmm, Zone, in_use, max_order, free_list_remove, first_block, find_block, in_zone, take_block,
  take_found, pmm_alloc_pages,
}
use purevisor.Memory.Pmm.Accounts.{pages, SameElsewhere, split-SameElsewhere, take-pages}

List-cases : (xs : List ℕ) → (xs ≡ []) ⊎ ((x : ℕ) × ((ys : List ℕ) × (xs ≡ x ∷ ys)))
List-cases [] = inl refl
List-cases (x ∷ ys) = inr (x, (ys, refl))

pub first_block_skip :
    (z : Zone) (o n : ℕ) → z.list o ≡ [] → first_block z (o + 1) n ≡ first_block z o (suc n)
unfolding first_block
first_block_skip z o n h = rw (h, first_block) refl

-- A block that the search finds is not smaller than what is asked for.
first_block-le : (z : Zone) (o n : ℕ) (r b : ℕ) → first_block z o n ≡ some (r, b) → o ≤ r
unfolding first_block
first_block-le z o zero r b e = ground arith
first_block-le z o (suc n) r b e = elim (List-cases (z.list o)) [
  | inl h ↦ ground (arith, first_block-le z (o + 1) n r b (first_block_skip z o n h ∙ e))
  | inr (x, (xs, h)) ↦ ground (arith, h, e)
]

-- A search that finds nothing has seen every list empty.
first_block-none :
    (z : Zone) (o n : ℕ) → first_block z o n ≡ none → (i : ℕ) → o ≤ i → i < o + n → z.list i ≡ []
unfolding first_block
first_block-none z o zero e i l u = absurd (omega (arith, l, u))
first_block-none z o (suc n) e i l u = elim (List-cases (z.list o)) [
  | inl h ↦ elim (Bool-cases (i == o)) [
    | inl s ↦ let s' : i ≡ o = ground arith in ap z.list s' ∙ h
    | inr d ↦
        first_block-none z (o + 1) n (first_block_skip z o n h ∙ e) i (ground arith) (ground arith)
  ]
  | inr (x, (xs, h)) ↦ ground (arith, h, e)
]

-- What an allocation of a block of `order` from zone `z` leaves.
pub record Granted (p q : Pmm) (order a z : ℕ) : Type 0 where
  pub block : ℕ
  pub address : a ≡ block * 4096
  pub marked : q.page block ≡ record { flags = in_use; order = order; refcount = 1 }
  pub counted : add64 (pages q z) (2 ^ order) ≡ pages p z
  pub elsewhere : SameElsewhere p q z

take-Granted :
    (p : Pmm) (z o b order : ℕ)
    → pages p z < 2 ^ 64
    → order ≤ o
    → Granted p (take_block p z o b order) order (b * 4096) z
unfolding take_block free_list_remove
take-Granted p z o b order l h = record {
  block = b;
  address = refl;
  marked = ground arith;
  counted = take-pages p z o b order l h;
  elsewhere = λ y ne.
      split-SameElsewhere (free_list_remove p z b o) z b order (o - order) y ne ∙ ground arith;
}

-- How an allocation may end.
abbrev pub Ends : Pmm → ℕ → ℕ × Pmm → Type 0
Ends p order (a, q) =
    ((a ≡ 0)
      × (q ≡ p)
      × ((max_order < order)
          ⊎ ((i : ℕ)
              → order ≤ i
              → i ≤ max_order
              → ((p.zone 0).list i ≡ []) × ((p.zone 1).list i ≡ []))))
    ⊎ ((z : ℕ) × Granted p q order a z)

found_normal :
    (p : Pmm) (order : ℕ) (r : ℕ × ℕ)
    → first_block (p.zone 1) order (max_order + 1 - order) ≡ some r
    → find_block p order ≡ some (1, r)
unfolding find_block
found_normal p order r e = rw (e, find_block) refl

pub found_dma :
    (p : Pmm) (order : ℕ)
    → first_block (p.zone 1) order (max_order + 1 - order) ≡ none
    → find_block p order ≡ in_zone 0 (first_block (p.zone 0) order (max_order + 1 - order))
unfolding find_block
found_dma p order e = rw (e, find_block) refl

search-Ends :
    (p : Pmm) (order : ℕ)
    → pages p 0 < 2 ^ 64
    → pages p 1 < 2 ^ 64
    → order ≤ max_order
    → Ends p order (take_found p order (find_block p order))
search-Ends p order l0 l1 h =
    elim (Option-cases (first_block (p.zone 1) order (max_order + 1 - order))) [
      | inr ((o, b), e) ↦
          subst (λ r. Ends p order (take_found p order r)) (sym (found_normal p order (o, b) e))
            (inr (1, take-Granted p 1 o b order l1 (first_block-le (p.zone 1) order _ o b e)))
      | inl e ↦ elim (Option-cases (first_block (p.zone 0) order (max_order + 1 - order))) [
        | inr ((o, b), e') ↦
            subst (λ r. Ends p order (take_found p order r))
              (sym (found_dma p order e ∙ ap (in_zone 0) e'))
              (inr (0, take-Granted p 0 o b order l0 (first_block-le (p.zone 0) order _ o b e')))
        | inl e' ↦
            subst (λ r. Ends p order (take_found p order r))
              (sym (found_dma p order e ∙ ap (in_zone 0) e'))
              (inl (
                refl,
                refl,
                inr (λ i lo hi. (
                  first_block-none (p.zone 0) order _ e' i lo (omega (arith, lo, hi, h)),
                  first_block-none (p.zone 1) order _ e i lo (omega (arith, lo, hi, h)),
                )),
              ))
      ]
    ]

-- Where the counts of zones 0 and 1 fit 64 bits, an allocation takes exactly the pages of its
-- order, modulo 2^64, from the count of one zone, whatever the size of the block that it splits,
-- and marks the block; or it changes nothing and returns 0, and then the order is too large or
-- neither of these zones has a free block of that order or above.
pub alloc_pages-Ends :
    (p : Pmm) (order : ℕ)
    → pages p 0 < 2 ^ 64
    → pages p 1 < 2 ^ 64
    → Ends p order (pmm_alloc_pages p order)
unfolding pmm_alloc_pages
alloc_pages-Ends p order l0 l1 = elim (Bool-cases (ltb max_order order)) [
  | inl t ↦ rw t (inl (refl, refl, inl (ground arith)))
  | inr f ↦ rw f (search-Ends p order l0 l1 (ground arith))
]
