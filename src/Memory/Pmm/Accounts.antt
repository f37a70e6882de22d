-- ===== src/Memory/Pmm/Accounts.antt =====
-- Pages are neither lost nor invented: `free_pages` of the zones across the calls of src/mm/pmm.c.
use purevisor.Base.{
  ℕ, zero, suc, ◌+◌, ◌-◌, ◌^◌, ◌≡◌, ◌≢◌, ◌<◌, ◌≤◌, inl, inr, refl, ap, ◌∙◌, add64, sub64, arith,
  Bool-cases,
}
use native.Mathlib.Nat.{pow-suc}
use native.Mathlib.Numerals.{unary_clauses}
use purevisor.Memory.Pmm.{
  Pmm, free_list_add, free_list_remove, buddy_of, get_buddy, joins, lower, split_block,
  coalesce_buddies, take_block,
}

abbrev pub pages : Pmm → ℕ → ℕ
pages p z = (p.zone z).free_pages

pow_step : (n : ℕ) → 2 ^ (n + 1) ≡ 2 ^ n + 2 ^ n
pow_step n = simp unary_clauses (omega (arith, pow-suc 2 n))

add-pages :
    (p : Pmm) (z page o : ℕ) → pages (free_list_add p z page o) z ≡ add64 (pages p z) (2 ^ o)
unfolding free_list_add
add-pages p z page o = ground arith

remove-pages :
    (p : Pmm) (z page o : ℕ) → pages (free_list_remove p z page o) z ≡ sub64 (pages p z) (2 ^ o)
unfolding free_list_remove
remove-pages p z page o = ground arith

-- Splitting hands back all of a block but a part of the target order.
split-pages :
    (p : Pmm) (z page target n : ℕ)
    → pages p z < 2 ^ 64
    → add64 (pages (split_block p z page target n) z) (2 ^ target)
      ≡ add64 (pages p z) (2 ^ (target + n))
unfolding split_block
split-pages p z page target zero l = simp unary_clauses refl
split-pages p z page target (suc n) l =
    let q = free_list_add p z (page + 2 ^ (target + n)) (target + n) in
    let a = add-pages p z (page + 2 ^ (target + n)) (target + n) in
    split-pages q z page target n (omega (arith, a))
    ∙ simp unary_clauses (omega (arith, a, pow-suc 2 (target + n)))

-- Merging a block with its buddies counts its own pages, and theirs once.
pub coalesce-pages :
    (p : Pmm) (z page order n : ℕ)
    → pages p z < 2 ^ 64
    → pages (coalesce_buddies p z page order n) z ≡ add64 (pages p z) (2 ^ order)
unfolding coalesce_buddies
coalesce-pages p z page order zero l = add-pages p z page order
coalesce-pages p z page order (suc n) l =
    elim (Bool-cases (joins p order (get_buddy p page order))) [
      | inl t ↦
          let b = buddy_of page order in
          let q = free_list_remove p z b order in
          let r = remove-pages p z b order in
          rw (t, coalesce_buddies)
            (coalesce-pages q z (lower page b) (order + 1) n (omega (arith, r))
              ∙ omega (arith, r, pow_step order))
      | inr f ↦ rw (f, coalesce_buddies) (add-pages p z page order)
    ]

-- The zones other than `z` keep everything.
abbrev pub SameElsewhere : Pmm → Pmm → ℕ → Type 0
SameElsewhere p q z = (y : ℕ) → y ≢ z → q.zone y ≡ p.zone y

pub split-SameElsewhere :
    (p : Pmm) (z page target n : ℕ) → SameElsewhere p (split_block p z page target n) z
unfolding split_block free_list_add
split-SameElsewhere p z page target zero y ne = refl
split-SameElsewhere p z page target (suc n) y ne =
    let q = free_list_add p z (page + 2 ^ (target + n)) (target + n) in
    split-SameElsewhere q z page target n y ne ∙ ground arith

pub coalesce-SameElsewhere :
    (p : Pmm) (z page order n : ℕ) → SameElsewhere p (coalesce_buddies p z page order n) z
unfolding coalesce_buddies free_list_add free_list_remove
coalesce-SameElsewhere p z page order zero y ne = ground arith
coalesce-SameElsewhere p z page order (suc n) y ne =
    elim (Bool-cases (joins p order (get_buddy p page order))) [
      | inl t ↦
          let b = buddy_of page order in
          let q = free_list_remove p z b order in
          rw (t, coalesce_buddies)
            (coalesce-SameElsewhere q z (lower page b) (order + 1) n y ne ∙ ground arith)
      | inr f ↦ rw (f, coalesce_buddies) (ground arith)
    ]

pub take-pages :
    (p : Pmm) (z o b order : ℕ)
    → pages p z < 2 ^ 64
    → order ≤ o
    → add64 (pages (take_block p z o b order) z) (2 ^ order) ≡ pages p z
unfolding take_block
take-pages p z o b order l h =
    let q = free_list_remove p z b o in
    let r = remove-pages p z b o in
    split-pages q z b order (o - order) (omega (arith, r))
    ∙ omega (arith, r, l, ap (λ k. 2 ^ k) {x = order + (o - order)} {y = o} (omega (arith, h)))
