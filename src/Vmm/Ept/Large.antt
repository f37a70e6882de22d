-- ===== src/Vmm/Ept/Large.antt =====
-- A small page mapped inside a large one, `ept_map_page` of src/vmm/ept.c.
use purevisor.Base.{
  ℕ, ◌+◌, ◌*◌, ◌/◌, ◌%◌, ◌^◌, ◌≡◌, ◌≢◌, ◌<◌, refl, ap, ◌∙◌, Bool, true, false, some, arith, add64,
}
use purevisor.Vmm.Ept.{
  Ept, is_present, is_large, address_of, pml4_index, pdpt_index, pd_index, pt_index, at_pt, at_pd,
  at_pdpt, ept_walk, page_of, leaf, put_leaf, ept_map_page,
}
use purevisor.Vmm.Ept.Bits.{bit_or_entry}
use purevisor.Vmm.Ept.Translate.{
  descend_present, at_pdpt_small, at_pd_small, changed, changed_other, changed_self,
}

-- The tables above a page of 2 MB that `g` lies in.
pub record IsLargePath (e : Ept) (g pdpt pd : ℕ) : Type 0 where
  pub in_pml4 : is_present (e.tables e.pml4 (pml4_index g)) ≡ true
  pub to_pdpt : address_of (e.tables e.pml4 (pml4_index g)) ≡ pdpt
  pub small_pdpt : is_large (e.tables pdpt (pdpt_index g)) ≡ false
  pub in_pdpt : is_present (e.tables pdpt (pdpt_index g)) ≡ true
  pub to_pd : address_of (e.tables pdpt (pdpt_index g)) ≡ pd
  pub large : is_large (e.tables pd (pd_index g)) ≡ true

at_pd_large :
    (create : Bool) (g : ℕ) (e : Ept) (pd : ℕ)
    → is_large (e.tables pd (pd_index g)) ≡ true
    → at_pd create g (some pd, e) ≡ (some (record { table = pd; index = pd_index g; level = 2 }), e)
at_pd_large create g e pd h = rw h refl

-- The walk as far as the directory.
walk_to_pd :
    (create : Bool) (e : Ept) (g pdpt pd : ℕ)
    → is_present (e.tables e.pml4 (pml4_index g)) ≡ true
    → address_of (e.tables e.pml4 (pml4_index g)) ≡ pdpt
    → is_large (e.tables pdpt (pdpt_index g)) ≡ false
    → is_present (e.tables pdpt (pdpt_index g)) ≡ true
    → address_of (e.tables pdpt (pdpt_index g)) ≡ pd
    → ept_walk e g create ≡ at_pd create g (some pd, e)
unfolding ept_walk
walk_to_pd create e g pdpt pd a b c d f =
    ap (at_pdpt create g) (descend_present create e e.pml4 (pml4_index g) pdpt a b)
    ∙ at_pdpt_small create g e pdpt c
    ∙ ap (at_pd create g) (descend_present create e pdpt (pdpt_index g) pd d f)

leaf_fields :
    (h perm memtype : ℕ)
    → perm % 2 ≡ 1
    → perm < 8
    → memtype < 8
    → h < 2 ^ 52
    → (is_present (leaf (page_of h) perm memtype) ≡ true)
      × (is_large (leaf (page_of h) perm memtype) ≡ false)
      × (address_of (leaf (page_of h) perm memtype) ≡ page_of h)
leaf_fields h perm memtype r p m b =
    let page : page_of h % 4096 ≡ 0 = omega arith in
    let e = bit_or_entry (page_of h) perm memtype page p m in
    let v = page_of h + perm + memtype * 8 in
    let there : is_present v ≡ true = ground (arith, r, page) in
    let bit : v / 128 % 2 ≡ 0 = omega (arith, p, m, page) in
    let small : is_large v ≡ false = ground (arith, bit) in
    (ap is_present e ∙ there, ap is_large e ∙ small, ap address_of e ∙ omega (arith, p, m, b, page))

map_large_path :
    (e : Ept) (g h perm memtype pdpt pd : ℕ)
    → IsLargePath e g pdpt pd
    → ept_map_page e g h perm memtype
      ≡ (true, changed e pd (pd_index g) (leaf (page_of h) perm memtype) (add64 e.mapped_pages 1))
unfolding ept_map_page
map_large_path e g h perm memtype pdpt pd w =
    let q = page_of g in
    let four : pml4_index q ≡ pml4_index g = omega arith in
    let three : pdpt_index q ≡ pdpt_index g = omega arith in
    let two : pd_index q ≡ pd_index g = omega arith in
    ap (put_leaf (leaf (page_of h) perm memtype)) (
      walk_to_pd true e q pdpt pd (ap (λ i. is_present (e.tables e.pml4 i)) four ∙ w.in_pml4)
        (ap (λ i. address_of (e.tables e.pml4 i)) four ∙ w.to_pdpt)
        (ap (λ i. is_large (e.tables pdpt i)) three ∙ w.small_pdpt)
        (ap (λ i. is_present (e.tables pdpt i)) three ∙ w.in_pdpt)
        (ap (λ i. address_of (e.tables pdpt i)) three ∙ w.to_pd)
      ∙ at_pd_large true q e pd (ap (λ i. is_large (e.tables pd i)) two ∙ w.large))
    ∙ ap
        (λ k.
          put_leaf (leaf (page_of h) perm memtype)
            (some (record { table = pd; index = k; level = 2 }), e))
        two

-- Mapping a page of 4 KB inside one of 2 MB succeeds and replaces the entry of the whole 2 MB by one that
-- is not large: from then on the walk for that address reads the host's page that was mapped as a page
-- table. The tables above are there and the directory is none of them; the page can be read, permissions
-- and memory type are below 8, and the host's address is below 2^52.
pub map_page_in_large :
    (e : Ept) (g h perm memtype pdpt pd : ℕ)
    → IsLargePath e g pdpt pd
    → e.pml4 ≢ pd
    → pdpt ≢ pd
    → perm % 2 ≡ 1
    → perm < 8
    → memtype < 8
    → h < 2 ^ 52
    → ((ept_map_page e g h perm memtype).0 ≡ true)
      × ((ept_walk (ept_map_page e g h perm memtype).1 g false).0
          ≡ some (record { table = page_of h; index = pt_index g; level = 1 }))
map_page_in_large e g h perm memtype pdpt pd w n4 n3 r p m b =
    let v = leaf (page_of h) perm memtype in
    let n = add64 e.mapped_pages 1 in
    let e' = changed e pd (pd_index g) v n in
    let mapped = map_large_path e g h perm memtype pdpt pd w in
    let (there, small, base) = leaf_fields h perm memtype r p m b in
    let four = changed_other e pd (pd_index g) v n e.pml4 (pml4_index g) n4 in
    let three = changed_other e pd (pd_index g) v n pdpt (pdpt_index g) n3 in
    let here = changed_self e pd (pd_index g) v n in
    (
      ap (λ x. x.0) mapped,
      ap (λ x. (ept_walk x.1 g false).0) mapped
          ∙ ap (λ x. x.0)
              (walk_to_pd false e' g pdpt pd (ap is_present four ∙ w.in_pml4)
                  (ap address_of four ∙ w.to_pdpt) (ap is_large three ∙ w.small_pdpt)
                  (ap is_present three ∙ w.in_pdpt) (ap address_of three ∙ w.to_pd)
                ∙ at_pd_small false g e' pd (ap is_large here ∙ small)
                ∙ ap (at_pt g) (
                    descend_present false e' pd (pd_index g) (page_of h)
                      (ap is_present here ∙ there) (ap address_of here ∙ base))),
    )
