-- ===== src/Vmm/Ept/Walk.antt =====
-- The walk of src/vmm/ept.c that makes tables, and what every address translates to.
use purevisor.Base.{
  ◌==◌, ℕ, suc, ◌≡◌, inl, inr, refl, sym, ap, ◌∙◌, true, false, List, [], ◌∷◌, Option, none, some,
  if◌then◌else◌, update, update_self, subst, Bool-cases,
}
use purevisor.Vmm.Ept.{
  Ept, is_present, is_large, address_of, pml4_index, pdpt_index, pd_index, pt_index,
  ept_alloc_table, grow, descend, at_pt, at_pd, at_pdpt, ept_walk, host_found, ept_get_host_phys,
}
use purevisor.Vmm.Ept.Tree.{
  stops, host_of, look, IsTree, look-grown, raised, raised_used, grown-IsTree,
}

-- What a change of the tables keeps.
pub record Keeps (e e' : Ept) (height : ℕ → ℕ) : Type 0 where
  pub height' : ℕ → ℕ
  pub tree : IsTree e' height'
  pub root : e'.pml4 ≡ e.pml4
  pub heights : (x k : ℕ) → height x ≡ suc k → height' x ≡ suc k
  pub looks : (k x g : ℕ) → height x ≡ suc k → look k e' x g ≡ look k e x g

Keeps-trans :
    (e e1 e2 : Ept) (height : ℕ → ℕ) (f : Keeps e e1 height)
    → Keeps e1 e2 f.height'
    → Keeps e e2 height
Keeps-trans e e1 e2 height f g = record {
  height' = g.height';
  tree = g.tree;
  root = g.root ∙ f.root;
  heights = λ x k h. g.heights x k (f.heights x k h);
  looks = λ k x a h. g.looks k x a (f.heights x k h) ∙ f.looks k x a h;
}

-- Going down one level keeps the tree and every translation, and leads one level down.
abbrev Leads : Ept → (ℕ → ℕ) → ℕ → Option ℕ × Ept → Type 0
Leads e height h (none, e') = Keeps e e' height
Leads e height h (some y, e') = (f : Keeps e e' height) × (f.height' y ≡ suc h)

alloc_none : (e : Ept) → e.supply ≡ [] → ept_alloc_table e ≡ none
unfolding ept_alloc_table
alloc_none e q = rw q refl

alloc_null :
    (e : Ept) (n : ℕ) (ts : List ℕ) → e.supply ≡ n ∷ ts → (n == 0) ≡ true → ept_alloc_table e ≡ none
unfolding ept_alloc_table
alloc_null e n ts q z = rw (q, z) refl

alloc_some :
    (e : Ept) (n : ℕ) (ts : List ℕ)
    → e.supply ≡ n ∷ ts
    → (n == 0) ≡ false
    → ept_alloc_table e ≡ some (n, record e { tables = update e.tables n (λ j. 0); supply = ts })
unfolding ept_alloc_table
alloc_some e n ts q z = rw (q, z) refl

same-Keeps : (e : Ept) (height : ℕ → ℕ) → IsTree e height → Keeps e e height
same-Keeps e height v = record {
  height' = height;
  tree = v;
  root = refl;
  heights = λ x k b. b;
  looks = λ k x g b. refl;
}

grow-Leads :
    (e : Ept) (height : ℕ → ℕ) (t i h : ℕ) (l : List ℕ)
    → IsTree e height
    → height t ≡ suc (suc h)
    → e.supply ≡ l
    → is_present (e.tables t i) ≡ false
    → Leads e height h (grow t i (ept_alloc_table e) e)
grow-Leads e height t i h [] v a q p =
    subst (λ r. Leads e height h (grow t i r e)) (sym (alloc_none e q)) (same-Keeps e height v)
grow-Leads e height t i h (n ∷ ts) v a q p = elim (Bool-cases (n == 0)) [
  | inl z ↦
      subst (λ r. Leads e height h (grow t i r e)) (sym (alloc_null e n ts q z))
        (same-Keeps e height v)
  | inr z ↦
      subst (λ r. Leads e height h (grow t i r e)) (sym (alloc_some e n ts q z))
        (
          record {
            height' = raised e height t i n ts h v q a p;
            tree = grown-IsTree e height t i n ts h v q a p;
            root = refl;
            heights = raised_used e height t i n ts h v q a p;
            looks = look-grown e height t i n ts h v q a p;
          },
          update_self height n (suc h),
        )
]

descend-Leads :
    (e : Ept) (height : ℕ → ℕ) (t i h : ℕ)
    → IsTree e height
    → height t ≡ suc (suc h)
    → stops (suc h) (e.tables t i) ≡ false
    → Leads e height h (descend true e t i)
unfolding descend
descend-Leads e height t i h v a s = elim (Bool-cases (is_present (e.tables t i))) [
  | inl p ↦
      rw (p, descend)
        (
          record {
            height' = height;
            tree = v;
            root = refl;
            heights = λ x k b. b;
            looks = λ k x g b. refl;
          },
          v.links h t i a s p,
        )
  | inr p ↦ rw (p, descend) (grow-Leads e height t i h e.supply v a refl p)
]

host_at_pt :
    (e : Ept) (g pd : ℕ)
    → let v = e.tables pd (pd_index g) in
      host_found e g (at_pt g (descend false e pd (pd_index g))).0
      ≡ (if is_present v then host_of 0 (e.tables (address_of v) (pt_index g)) g else 0)
unfolding descend
host_at_pt e g pd = elim (Bool-cases (is_present (e.tables pd (pd_index g)))) [
  | inl p ↦ rw (p, descend) refl
  | inr p ↦ rw (p, descend) refl
]

host_at_pd : (e : Ept) (g pd : ℕ) → host_found e g (at_pd false g (some pd, e)).0 ≡ look 1 e pd g
host_at_pd e g pd = elim (Bool-cases (is_large (e.tables pd (pd_index g)))) [
  | inl t ↦ rw t refl
  | inr f ↦ rw f (host_at_pt e g pd)
]

host_below_pdpt :
    (e : Ept) (g pdpt : ℕ)
    → let v = e.tables pdpt (pdpt_index g) in
      host_found e g (at_pd false g (descend false e pdpt (pdpt_index g))).0
      ≡ (if is_present v then look 1 e (address_of v) g else 0)
unfolding descend
host_below_pdpt e g pdpt = elim (Bool-cases (is_present (e.tables pdpt (pdpt_index g)))) [
  | inl p ↦ rw (p, descend) (host_at_pd e g (address_of (e.tables pdpt (pdpt_index g))))
  | inr p ↦ rw (p, descend) refl
]

host_at_pdpt :
    (e : Ept) (g pdpt : ℕ) → host_found e g (at_pdpt false g (some pdpt, e)).0 ≡ look 2 e pdpt g
host_at_pdpt e g pdpt = elim (Bool-cases (is_large (e.tables pdpt (pdpt_index g)))) [
  | inl t ↦ rw t refl
  | inr f ↦ rw f (host_below_pdpt e g pdpt)
]

-- A walk with no table made, as a translation table by table.
pub host-look : (e : Ept) (g : ℕ) → ept_get_host_phys e g ≡ look 3 e e.pml4 g
unfolding ept_get_host_phys ept_walk descend
host-look e g = elim (Bool-cases (is_present (e.tables e.pml4 (pml4_index g)))) [
  | inl p ↦ rw (p, descend) (host_at_pdpt e g (address_of (e.tables e.pml4 (pml4_index g))))
  | inr p ↦ rw (p, descend) refl
]

-- The rest of the walk from a table on.
pd-Keeps :
    (e : Ept) (height : ℕ → ℕ) (g : ℕ) (r : Option ℕ × Ept)
    → Leads e height 0 r
    → Keeps e (at_pt g r).1 height
pd-Keeps e height g (none, e') f = f
pd-Keeps e height g (some y, e') (f, d) = f

pdpt-Keeps :
    (e : Ept) (height : ℕ → ℕ) (g : ℕ) (r : Option ℕ × Ept)
    → Leads e height 1 r
    → Keeps e (at_pd true g r).1 height
pdpt-Keeps e height g (none, e') f = f
pdpt-Keeps e height g (some y, e') (f, d) =
    elim (Bool-cases (is_large (e'.tables y (pd_index g)))) [
      | inl b ↦ rw b f
      | inr b ↦ rw b (
          Keeps-trans e e' _ height f (
            pd-Keeps e' f.height' g (descend true e' y (pd_index g))
              (descend-Leads e' f.height' y (pd_index g) 0 f.tree d b)))
    ]

pml4-Keeps :
    (e : Ept) (height : ℕ → ℕ) (g : ℕ) (r : Option ℕ × Ept)
    → Leads e height 2 r
    → Keeps e (at_pdpt true g r).1 height
pml4-Keeps e height g (none, e') f = f
pml4-Keeps e height g (some y, e') (f, d) =
    elim (Bool-cases (is_large (e'.tables y (pdpt_index g)))) [
      | inl b ↦ rw b f
      | inr b ↦ rw b (
          Keeps-trans e e' _ height f (
            pdpt-Keeps e' f.height' g (descend true e' y (pdpt_index g))
              (descend-Leads e' f.height' y (pdpt_index g) 1 f.tree d b)))
    ]

-- Making the tables on the way to an address, whether it succeeds or runs out of pages half way, keeps
-- the tables a tree and changes no translation of any address. The tables are a tree before, and the
-- pages of the allocator are distinct, page-aligned, below 2^52 and not in use.
pub walk-Keeps :
    (e : Ept) (height : ℕ → ℕ) (g a : ℕ)
    → IsTree e height
    → (height' : ℕ → ℕ) × IsTree (ept_walk e g true).1 height'
      × (ept_get_host_phys (ept_walk e g true).1 a ≡ ept_get_host_phys e a)
unfolding ept_walk
walk-Keeps e height g a v =
    let f =
      pml4-Keeps e height g (descend true e e.pml4 (pml4_index g))
        (descend-Leads e height e.pml4 (pml4_index g) 2 v v.root refl) in
    let e' = (ept_walk e g true).1 in
    (
      f.height',
      f.tree,
      host-look e' a
          ∙ ap (λ t. look 3 e' t a) f.root
          ∙ f.looks 3 e.pml4 a v.root
          ∙ sym (host-look e a),
    )
