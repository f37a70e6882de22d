-- ===== src/Memory/Pmm/Freeing.antt =====
-- What freeing pages leaves: `pmm_free_pages` of src/mm/pmm.c.
use purevisor.Base.{
  ◌%◌, ℕ, zero, suc, ◌+◌, ◌-◌, ◌/◌, ◌^◌, ◌≡◌, ◌≢◌, ◌<◌, ◌≤◌, ◌⊎◌, inl, inr, ap, ◌∙◌, true, false,
  add64, arith, Bool-cases,
}
use purevisor.Memory.Pmm.{
  Pmm, Page, is_free, max_order, get_zone, free_list_add, free_list_remove, buddy_of, get_buddy,
  joins, lower, coalesce_buddies, pmm_free_pages, count_free,
}
use purevisor.Memory.Pmm.Accounts.{pages, SameElsewhere, coalesce-pages, coalesce-SameElsewhere}

freed :
    (p : Pmm) (addr order : ℕ)
    → addr ≢ 0
    → order ≤ max_order
    → addr / 4096 < p.page_count
    → is_free (p.page (addr / 4096)).flags ≡ false
    → pmm_free_pages p addr order
      ≡ coalesce_buddies
          (count_free p order)
          (get_zone addr)
          (addr / 4096)
          order
          (max_order - order)
unfolding pmm_free_pages
freed p addr order ne o r f = ground (arith, ne, o, r, f)

already_free :
    (p : Pmm) (addr order : ℕ)
    → is_free (p.page (addr / 4096)).flags ≡ true
    → pmm_free_pages p addr order ≡ p
unfolding pmm_free_pages
already_free p addr order f = ground (arith, f)

-- Freeing a block of a valid order and address gives its pages back, modulo 2^64, to the count of
-- the zone it lies in, however many buddies it merges with, and touches no other zone; where its
-- first page is marked free nothing changes.
pub free_pages_lem :
    (p : Pmm) (addr order : ℕ)
    → addr ≢ 0
    → order ≤ max_order
    → addr / 4096 < p.page_count
    → pages p (get_zone addr) < 2 ^ 64
    → let q = pmm_free_pages p addr order in
      ((is_free (p.page (addr / 4096)).flags ≡ true) × (q ≡ p))
      ⊎ ((is_free (p.page (addr / 4096)).flags ≡ false)
          × (pages q (get_zone addr) ≡ add64 (pages p (get_zone addr)) (2 ^ order))
          × SameElsewhere p q (get_zone addr))
free_pages_lem p addr order ne o r l = elim (Bool-cases (is_free (p.page (addr / 4096)).flags)) [
  | inl t ↦ inl (t, already_free p addr order t)
  | inr f ↦
      let c = count_free p order in
      let z = get_zone addr in
      let e = freed p addr order ne o r f in
      inr (
        f,
        ap (λ q. pages q z) e ∙ coalesce-pages c z (addr / 4096) order (max_order - order) l,
        λ y ny.
            ap (λ (q : Pmm). q.zone y) e
            ∙ coalesce-SameElsewhere c z (addr / 4096) order (max_order - order) y ny,
      )
]

-- Merging writes nothing above the page that it starts from.
coalesce-above :
    (p : Pmm) (z page order n x : ℕ)
    → page < x
    → (coalesce_buddies p z page order n).page x ≡ p.page x
unfolding coalesce_buddies free_list_add free_list_remove
coalesce-above p z page order zero x l = ground arith
coalesce-above p z page order (suc n) x l =
    elim (Bool-cases (joins p order (get_buddy p page order))) [
      | inl t ↦
          let b = buddy_of page order in
          rw (t, coalesce_buddies)
            (coalesce-above (free_list_remove p z b order) z (lower page b) (order + 1) n x
              (ground arith))
      | inr f ↦ rw (f, coalesce_buddies) (ground arith)
    ]

coalesce_lower :
    (p : Pmm) (z page order n : ℕ)
    → joins p order (get_buddy p page order) ≡ true
    → buddy_of page order < page
    → (coalesce_buddies p z page order (suc n)).page page ≡ p.page page
unfolding coalesce_buddies free_list_remove
coalesce_lower p z page order n t l =
    let b = buddy_of page order in
    rw (t, coalesce_buddies)
      (coalesce-above (free_list_remove p z b order) z (lower page b) (order + 1) n page
        (ground (arith, l)))

-- A page in use with an odd number that is freed into its lower buddy is not marked free, so that
-- freeing it once more is not refused.
pub merged_page_unmarked :
    (p : Pmm) (addr : ℕ)
    → addr ≢ 0
    → addr / 4096 < p.page_count
    → (addr / 4096 / 2 ^ 0) % 2 ≡ 1
    → is_free (p.page (addr / 4096)).flags ≡ false
    → joins p 0 (get_buddy p (addr / 4096) 0) ≡ true
    → is_free ((pmm_free_pages p addr 0).page (addr / 4096)).flags ≡ false
merged_page_unmarked p addr ne r odd f j =
    ap (λ (q : Pmm). is_free (q.page (addr / 4096)).flags) (freed p addr 0 ne (omega arith) r f)
    ∙ ap (λ (x : Page). is_free x.flags)
        (coalesce_lower (count_free p 0) (get_zone addr) (addr / 4096) 0 10 j
          (below (addr / 4096) odd))
    ∙ f
  where
    below : (n : ℕ) → (n / 2 ^ 0) % 2 ≡ 1 → buddy_of n 0 < n
    below n h = ground arith
