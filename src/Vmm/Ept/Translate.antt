-- ===== src/Vmm/Ept/Translate.antt =====
-- What a guest's address translates to, `ept_get_host_phys` of src/vmm/ept.c, after a page is mapped.
use Prim.Native.Nat.{bit_or}
use purevisor.Base.{
  ℕ, ◌+◌, ◌*◌, ◌/◌, ◌%◌, ◌^◌, ◌≡◌, ◌≢◌, ◌<◌, ◌⊎◌, inl, inr, refl, sym, ap, ◌∙◌, Bool, true, false,
  some, if◌then◌else◌, arith, update, update_ne, update_self, add64,
}
use purevisor.Vmm.Ept.{
  Ept, is_present, is_large, address_of, pml4_index, pdpt_index, pd_index, pt_index, set_entry,
  descend, Slot, at_pt, at_pd, at_pdpt, ept_walk, page_of, leaf, put_leaf, ept_map_page, host_found,
  ept_get_host_phys,
}
use purevisor.Vmm.Ept.Bits.{bit_or_page, bit_or_entry}

-- The tables that an address leads to, one below the other, with no large page on the way.
pub record IsPath (e : Ept) (g pdpt pd pt : ℕ) : Type 0 where
  pub in_pml4 : is_present (e.tables e.pml4 (pml4_index g)) ≡ true
  pub to_pdpt : address_of (e.tables e.pml4 (pml4_index g)) ≡ pdpt
  pub small_pdpt : is_large (e.tables pdpt (pdpt_index g)) ≡ false
  pub in_pdpt : is_present (e.tables pdpt (pdpt_index g)) ≡ true
  pub to_pd : address_of (e.tables pdpt (pdpt_index g)) ≡ pd
  pub small_pd : is_large (e.tables pd (pd_index g)) ≡ false
  pub in_pd : is_present (e.tables pd (pd_index g)) ≡ true
  pub to_pt : address_of (e.tables pd (pd_index g)) ≡ pt

pub descend_present :
    (create : Bool) (e : Ept) (t i n : ℕ)
    → is_present (e.tables t i) ≡ true
    → address_of (e.tables t i) ≡ n
    → descend create e t i ≡ (some n, e)
unfolding descend
descend_present create e t i n p a = rw (p, descend) (ap (λ x. (some x, e)) a)

abbrev pt_slot : ℕ → ℕ → Slot
pt_slot pt g = record { table = pt; index = pt_index g; level = 1 }

pub at_pd_small :
    (create : Bool) (g : ℕ) (e : Ept) (pd : ℕ)
    → is_large (e.tables pd (pd_index g)) ≡ false
    → at_pd create g (some pd, e) ≡ at_pt g (descend create e pd (pd_index g))
at_pd_small create g e pd h = rw h refl

pub at_pdpt_small :
    (create : Bool) (g : ℕ) (e : Ept) (pdpt : ℕ)
    → is_large (e.tables pdpt (pdpt_index g)) ≡ false
    → at_pdpt create g (some pdpt, e) ≡ at_pd create g (descend create e pdpt (pdpt_index g))
at_pdpt_small create g e pdpt h = rw h refl

walk_path :
    (create : Bool) (e : Ept) (g pdpt pd pt : ℕ)
    → IsPath e g pdpt pd pt
    → ept_walk e g create ≡ (some (pt_slot pt g), e)
unfolding ept_walk
walk_path create e g pdpt pd pt v =
    ap (at_pdpt create g) (descend_present create e e.pml4 (pml4_index g) pdpt v.in_pml4 v.to_pdpt)
    ∙ at_pdpt_small create g e pdpt v.small_pdpt
    ∙ ap (at_pd create g) (descend_present create e pdpt (pdpt_index g) pd v.in_pdpt v.to_pd)
    ∙ at_pd_small create g e pd v.small_pd
    ∙ ap (at_pt g) (descend_present create e pd (pd_index g) pt v.in_pd v.to_pt)

-- A change of one entry of a table that is not above `g`.
abbrev pub changed : Ept → ℕ → ℕ → ℕ → ℕ → Ept
changed e t i v n = record (set_entry e t i v) { mapped_pages = n }

pub changed_other :
    (e : Ept) (t i v n x j : ℕ) → x ≢ t → (changed e t i v n).tables x j ≡ e.tables x j
changed_other e t i v n x j h = ap (λ f. f j) (update_ne e.tables t x (update (e.tables t) i v) h)

changed-IsPath :
    (e : Ept) (g pdpt pd pt t i v n : ℕ)
    → e.pml4 ≢ t
    → pdpt ≢ t
    → pd ≢ t
    → IsPath e g pdpt pd pt
    → IsPath (changed e t i v n) g pdpt pd pt
changed-IsPath e g pdpt pd pt t i v n a b c w =
    let four = changed_other e t i v n e.pml4 (pml4_index g) a in
    let three = changed_other e t i v n pdpt (pdpt_index g) b in
    let two = changed_other e t i v n pd (pd_index g) c in
    record {
      in_pml4 = ap is_present four ∙ w.in_pml4;
      to_pdpt = ap address_of four ∙ w.to_pdpt;
      small_pdpt = ap is_large three ∙ w.small_pdpt;
      in_pdpt = ap is_present three ∙ w.in_pdpt;
      to_pd = ap address_of three ∙ w.to_pd;
      small_pd = ap is_large two ∙ w.small_pd;
      in_pd = ap is_present two ∙ w.in_pd;
      to_pt = ap address_of two ∙ w.to_pt;
    }

-- Addresses of one page have the same path.
pub same_page-IsPath :
    (e : Ept) (g a pdpt pd pt : ℕ)
    → a / 4096 ≡ g / 4096
    → IsPath e g pdpt pd pt
    → IsPath e a pdpt pd pt × (pt_index a ≡ pt_index g)
same_page-IsPath e g a pdpt pd pt h w =
    let four : pml4_index a ≡ pml4_index g = omega (arith, h) in
    let three : pdpt_index a ≡ pdpt_index g = omega (arith, h) in
    let two : pd_index a ≡ pd_index g = omega (arith, h) in
    (
      record {
        in_pml4 = ap (λ i. is_present (e.tables e.pml4 i)) four ∙ w.in_pml4;
        to_pdpt = ap (λ i. address_of (e.tables e.pml4 i)) four ∙ w.to_pdpt;
        small_pdpt = ap (λ i. is_large (e.tables pdpt i)) three ∙ w.small_pdpt;
        in_pdpt = ap (λ i. is_present (e.tables pdpt i)) three ∙ w.in_pdpt;
        to_pd = ap (λ i. address_of (e.tables pdpt i)) three ∙ w.to_pd;
        small_pd = ap (λ i. is_large (e.tables pd i)) two ∙ w.small_pd;
        in_pd = ap (λ i. is_present (e.tables pd i)) two ∙ w.in_pd;
        to_pt = ap (λ i. address_of (e.tables pd i)) two ∙ w.to_pt;
      },
      ap (λ p. p % 512) h,
    )

-- What an entry of a page table says of an address.
abbrev page_host : ℕ → ℕ → ℕ
page_host v a = if is_present v then bit_or (address_of v) (a % 4096) else 0

pub host_path :
    (e : Ept) (g pdpt pd pt : ℕ)
    → IsPath e g pdpt pd pt
    → ept_get_host_phys e g ≡ page_host (e.tables pt (pt_index g)) g
unfolding ept_get_host_phys
host_path e g pdpt pd pt w = ap (λ r. host_found e g r.0) (walk_path false e g pdpt pd pt w)

map_path :
    (e : Ept) (g h perm memtype pdpt pd pt : ℕ)
    → IsPath e g pdpt pd pt
    → ept_map_page e g h perm memtype
      ≡ (true, changed e pt (pt_index g) (leaf (page_of h) perm memtype) (add64 e.mapped_pages 1))
unfolding ept_map_page
map_path e g h perm memtype pdpt pd pt w =
    let (w', i) = same_page-IsPath e g (page_of g) pdpt pd pt (omega arith) w in
    ap (put_leaf (leaf (page_of h) perm memtype)) (walk_path true e (page_of g) pdpt pd pt w')
    ∙ ap
        (λ k.
          put_leaf (leaf (page_of h) perm memtype)
            (some (record { table = pt; index = k; level = 1 }), e))
        i

pub changed_self : (e : Ept) (t i v n : ℕ) → (changed e t i v n).tables t i ≡ v
changed_self e t i v n =
    ap (λ f. f i) (update_self e.tables t (update (e.tables t) i v)) ∙ update_self (e.tables t) i v

leaf_host :
    (h perm memtype a : ℕ)
    → perm % 2 ≡ 1
    → perm < 8
    → memtype < 8
    → h < 2 ^ 52
    → page_host (leaf (page_of h) perm memtype) a ≡ page_of h + a % 4096
leaf_host h perm memtype a r p m b =
    let page : page_of h % 4096 ≡ 0 = omega arith in
    let e = bit_or_entry (page_of h) perm memtype page p m in
    let v = page_of h + perm + memtype * 8 in
    let there : is_present v ≡ true = ground (arith, r, page) in
    let base : address_of v ≡ page_of h = omega (arith, p, m, b, page) in
    ap (λ x. page_host x a) e
    ∙ rw (there, base) (bit_or_page (page_of h) (a % 4096) page (omega arith))

entry_kept :
    (e : Ept) (t i v n x j : ℕ) → (x ≢ t) ⊎ (j ≢ i) → (changed e t i v n).tables x j ≡ e.tables x j
entry_kept e t i v n x j (inl h) = changed_other e t i v n x j h
entry_kept e t i v n x j (inr h) = ground (arith, h)

-- After a guest's page is mapped, every address of that page translates to the same place in the host's
-- page, and every address whose own entry of a page table is another one translates as before. The
-- tables on the way to both are there, with no large page among them, and the page table that is written
-- is none of the tables above; the page can be read, permissions and memory type are below 8, and the
-- host's address is below 2^52.
pub map_page-translates :
    (e : Ept) (g h perm memtype a pdpt pd pt g2 pdpt2 pd2 pt2 : ℕ)
    → IsPath e g pdpt pd pt
    → e.pml4 ≢ pt
    → pdpt ≢ pt
    → pd ≢ pt
    → perm % 2 ≡ 1
    → perm < 8
    → memtype < 8
    → h < 2 ^ 52
    → a / 4096 ≡ g / 4096
    → IsPath e g2 pdpt2 pd2 pt2
    → pdpt2 ≢ pt
    → pd2 ≢ pt
    → (pt2 ≢ pt) ⊎ (pt_index g2 ≢ pt_index g)
    → ((ept_map_page e g h perm memtype).0 ≡ true)
      × (ept_get_host_phys (ept_map_page e g h perm memtype).1 a ≡ page_of h + a % 4096)
      × (ept_get_host_phys (ept_map_page e g h perm memtype).1 g2 ≡ ept_get_host_phys e g2)
map_page-translates e g h perm memtype a pdpt pd pt g2 pdpt2 pd2 pt2 w n4 n3 n2 r p m b same w2 o3
      o2 apart =
    let v = leaf (page_of h) perm memtype in
    let n = add64 e.mapped_pages 1 in
    let e' = changed e pt (pt_index g) v n in
    let mapped = map_path e g h perm memtype pdpt pd pt w in
    let (wa, i) = same_page-IsPath e g a pdpt pd pt same w in
    let wa' = changed-IsPath e a pdpt pd pt pt (pt_index g) v n n4 n3 n2 wa in
    let w2' = changed-IsPath e g2 pdpt2 pd2 pt2 pt (pt_index g) v n n4 o3 o2 w2 in
    (
      ap (λ x. x.0) mapped,
      ap (λ x. ept_get_host_phys x.1 a) mapped
          ∙ host_path e' a pdpt pd pt wa'
          ∙ ap (λ k. page_host (e'.tables pt k) a) i
          ∙ ap (λ x. page_host x a) (changed_self e pt (pt_index g) v n)
          ∙ leaf_host h perm memtype a r p m b,
      ap (λ x. ept_get_host_phys x.1 g2) mapped
          ∙ host_path e' g2 pdpt2 pd2 pt2 w2'
          ∙ ap (λ x. page_host x g2) (entry_kept e pt (pt_index g) v n pt2 (pt_index g2) apart)
          ∙ sym (host_path e g2 pdpt2 pd2 pt2 w2),
    )
