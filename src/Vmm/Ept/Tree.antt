-- ===== src/Vmm/Ept/Tree.antt =====
-- The page tables of src/vmm/ept.c as a tree, a translation table by table, and a table that is added.
use Prim.Native.Nat.{bit_or}
use mathlib.Core.Bool.{false≢true}
use purevisor.Base.{
  ℕ, zero, suc, ◌+◌, ◌/◌, ◌%◌, ◌^◌, ◌≡◌, ◌≢◌, ◌<◌, ◌⊎◌, inl, inr, refl, sym, ap, ap₂, ◌∙◌, Bool,
  true, false, List, [], ◌∷◌, if◌then◌else◌, ◌==◌, ◌&&◌, arith, update, update_ne, update_self,
  subst, Bool-cases, All, Distinct,
}
use purevisor.Vmm.Ept.{
  Ept, is_present, is_large, address_of, pml4_index, pdpt_index, pd_index, pt_index, set_entry,
  table_entry, offset_in,
}
use purevisor.Vmm.Ept.Bits.{bit_or_page}

-- The index of an address in a table, from the page tables, at height 0, up.
abbrev pub index_at : ℕ → ℕ → ℕ
index_at zero g = pt_index g
index_at (suc zero) g = pd_index g
index_at (suc (suc zero)) g = pdpt_index g
index_at (suc (suc (suc k))) g = pml4_index g

-- Whether the walk stops at an entry above the page tables.
abbrev pub stops : ℕ → ℕ → Bool
stops zero v = false
stops (suc zero) v = is_large v
stops (suc (suc zero)) v = is_large v
stops (suc (suc (suc k))) v = false

abbrev pub host_of : ℕ → ℕ → ℕ → ℕ
host_of k v g = if is_present v then bit_or (address_of v) (offset_in (suc k) g) else 0

abbrev pub look_from : ℕ → ℕ → ℕ → ℕ → ℕ
look_from k v g below = if stops k v then host_of k v g else if is_present v then below else 0

-- Translation, table by table.
abbrev pub look : ℕ → Ept → ℕ → ℕ → ℕ
look zero e t g = host_of 0 (e.tables t (pt_index g)) g
look (suc k) e t g =
    let v = e.tables t (index_at (suc k) g) in look_from (suc k) v g (look k e (address_of v) g)

-- Every table has a height, one more than those that it points at; pages that are not used have height 0.
pub record IsTree (e : Ept) (height : ℕ → ℕ) : Type 0 where
  pub root : height e.pml4 ≡ 4
  pub links :
      (k t i : ℕ)
      → height t ≡ suc (suc k)
      → stops (suc k) (e.tables t i) ≡ false
      → is_present (e.tables t i) ≡ true
      → height (address_of (e.tables t i)) ≡ suc k
  pub spare : All (λ t. (height t ≡ 0) × (t % 4096 ≡ 0) × (t < 2 ^ 52)) e.supply
  pub distinct : Distinct e.supply

stops-small : (k v : ℕ) → is_large v ≡ false → stops k v ≡ false
stops-small zero v h = refl
stops-small (suc zero) v h = h
stops-small (suc (suc zero)) v h = h
stops-small (suc (suc (suc k))) v h = refl

look_from-ext :
    (k v g a b : ℕ)
    → (stops k v ≡ false → is_present v ≡ true → a ≡ b)
    → look_from k v g a ≡ look_from k v g b
look_from-ext k v g a b h = elim (Bool-cases (stops k v)) [
  | inl t ↦ rw t refl
  | inr f ↦ rw f (elim (Bool-cases (is_present v)) [ inl p ↦ rw p (h f p) | inr p ↦ rw p refl ])
]

look_from-absent : (k v g a : ℕ) → is_present v ≡ false → look_from k v g a ≡ 0
look_from-absent k v g a h =
    rw h (elim (Bool-cases (stops k v)) [ inl t ↦ rw t refl | inr f ↦ rw f refl ])

-- The context with the page `n` made a table and pointed at from the entry `i` of `t`.
abbrev pub grown : Ept → ℕ → ℕ → ℕ → List ℕ → Ept
grown e t i n ts =
    set_entry (record e { tables = update e.tables n (λ j. 0); supply = ts }) t i (table_entry n)

module _ (e : Ept) (height : ℕ → ℕ) (t i n : ℕ) (ts : List ℕ) (h : ℕ) (tree : IsTree e height)
    (given : e.supply ≡ n ∷ ts) (above : height t ≡ suc (suc h))
    (absent : is_present (e.tables t i) ≡ false) where
  new_page : (height n ≡ 0) × (n % 4096 ≡ 0) × (n < 2 ^ 52)
  new_page = (subst (All (λ t. (height t ≡ 0) × (t % 4096 ≡ 0) × (t < 2 ^ 52))) given tree.spare).0

  kept : (x j : ℕ) → x ≢ n → (x ≢ t) ⊎ (j ≢ i) → (grown e t i n ts).tables x j ≡ e.tables x j
  kept x j a (inl b) = ground (arith, a, b)
  kept x j a (inr b) = ground (arith, a, b)

  set_here : (grown e t i n ts).tables t i ≡ table_entry n
  set_here = ground arith

  apart : n ≢ t
  apart q = absurd (omega (arith, ap height q, new_page.0, above))

  empty : (j : ℕ) → (grown e t i n ts).tables n j ≡ 0
  empty j = ground (arith, apart)

  entry_sum : table_entry n ≡ n + 7
  entry_sum = bit_or_page n 7 new_page.1 (omega arith)

  entry_present : is_present (table_entry n) ≡ true
  entry_present = ap is_present entry_sum ∙ ground (arith, new_page.1)

  entry_small : is_large (table_entry n) ≡ false
  entry_small =
      let bit : (n + 7) / 128 % 2 ≡ 0 = omega (arith, new_page.1) in
      ap is_large entry_sum ∙ ground (arith, bit)

  entry_address : address_of (table_entry n) ≡ n
  entry_address = ap address_of entry_sum ∙ omega (arith, new_page.1, new_page.2)

  look-empty : (k g : ℕ) → look k (grown e t i n ts) n g ≡ 0
  look-empty zero g = ap (λ v. host_of 0 v g) (empty (pt_index g))
  look-empty (suc k) g =
      let below =
        look k (grown e t i n ts) (address_of ((grown e t i n ts).tables n (index_at (suc k) g)))
          g in
      ap (λ v. look_from (suc k) v g below) (empty (index_at (suc k) g))
      ∙ look_from-absent (suc k) 0 g below refl

  pointed : (k g : ℕ) → look_from (suc k) (table_entry n) g 0 ≡ 0
  pointed k g = rw (stops-small (suc k) (table_entry n) entry_small, entry_present) refl

  used : (x k : ℕ) → height x ≡ suc k → x ≢ n
  used x k hx q = absurd (omega (arith, ap height q, new_page.0, hx))

  pub look-grown : (k x g : ℕ) → height x ≡ suc k → look k (grown e t i n ts) x g ≡ look k e x g
  look-grown zero x g hx =
      ap (λ v. host_of 0 v g)
        (kept x (pt_index g) (used x 0 hx)
          (inl (λ q. absurd (omega (arith, ap height q, above, hx)))))
  look-grown (suc k) x g hx = elim (Bool-cases (x == t)) [
    | inr a ↦ moved (λ y hy. look-grown k y g hy) (inl (ground (arith, a)))
    | inl a ↦ elim (Bool-cases (index_at (suc k) g == i)) [
      | inr b ↦ moved (λ y hy. look-grown k y g hy) (inr (ground (arith, b)))
      | inl b ↦
          let x' : x ≡ t = ground (arith, a) in
          let i' : index_at (suc k) g ≡ i = ground (arith, b) in now_empty x' i'
    ]
  ]
    where
      moved :
          ((y : ℕ) → height y ≡ suc k → look k (grown e t i n ts) y g ≡ look k e y g)
          → (x ≢ t) ⊎ (index_at (suc k) g ≢ i)
          → look (suc k) (grown e t i n ts) x g ≡ look (suc k) e x g
      moved below d =
          let v = e.tables x (index_at (suc k) g) in
          ap (λ v. look_from (suc k) v g (look k (grown e t i n ts) (address_of v) g))
            (kept x (index_at (suc k) g) (used x (suc k) hx) d)
          ∙ look_from-ext (suc k) v g (look k (grown e t i n ts) (address_of v) g)
              (look k e (address_of v) g)
              (λ s p. below (address_of v) (tree.links k x (index_at (suc k) g) hx s p))

      now_empty :
          x ≡ t → index_at (suc k) g ≡ i → look (suc k) (grown e t i n ts) x g ≡ look (suc k) e x g
      now_empty q r =
          let was : is_present (e.tables x (index_at (suc k) g)) ≡ false =
            ap₂ (λ y j. is_present (e.tables y j)) q r ∙ absent in
          let is_now : (grown e t i n ts).tables x (index_at (suc k) g) ≡ table_entry n =
            ap₂ (λ y j. (grown e t i n ts).tables y j) q r ∙ set_here in
          ap (λ v. look_from (suc k) v g (look k (grown e t i n ts) (address_of v) g)) is_now
          ∙ ap (λ y. look_from (suc k) (table_entry n) g (look k (grown e t i n ts) y g))
              entry_address
          ∙ ap (look_from (suc k) (table_entry n) g) (look-empty k g)
          ∙ pointed k g
          ∙ sym (
              look_from-absent (suc k) (e.tables x (index_at (suc k) g)) g
                (look k e (address_of (e.tables x (index_at (suc k) g))) g) was)

All-zip :
    (P Q R : ℕ → Type 0) (xs : List ℕ)
    → ((x : ℕ) → P x → Q x → R x)
    → All P xs
    → All Q xs
    → All R xs
All-zip P Q R [] f p q = tt
All-zip P Q R (x ∷ xs) f p q = (f x p.0 q.0, All-zip P Q R xs f p.1 q.1)

module _ (e : Ept) (height : ℕ → ℕ) (t i n : ℕ) (ts : List ℕ) (h : ℕ) (tree : IsTree e height)
    (given : e.supply ≡ n ∷ ts) (above : height t ≡ suc (suc h))
    (absent : is_present (e.tables t i) ≡ false) where
  abbrev pub raised : ℕ → ℕ
  raised = update height n (suc h)

  pub raised_used : (x k : ℕ) → height x ≡ suc k → raised x ≡ suc k
  raised_used x k hx =
      update_ne height n x (suc h) (used e height t i n ts h tree given above absent x k hx) ∙ hx

  grown-links :
      (k x j : ℕ)
      → raised x ≡ suc (suc k)
      → stops (suc k) ((grown e t i n ts).tables x j) ≡ false
      → is_present ((grown e t i n ts).tables x j) ≡ true
      → raised (address_of ((grown e t i n ts).tables x j)) ≡ suc k
  grown-links k x j hx s p = elim (Bool-cases (x == n)) [
    | inl a ↦
        let a' : x ≡ n = ground (arith, a) in
        let z : is_present ((grown e t i n ts).tables x j) ≡ false =
          ap (λ y. is_present ((grown e t i n ts).tables y j)) a'
          ∙ ap is_present (empty e height t i n ts h tree given above absent j) in
        absurd (false≢true (sym z ∙ p))
    | inr a ↦
        let a' : x ≢ n = ground (arith, a) in
        let hx' : height x ≡ suc (suc k) = sym (update_ne height n x (suc h) a') ∙ hx in
        elim (Bool-cases ((x == t) && (j == i))) [
          | inl b ↦
              let q : x ≡ t = ground (arith, b) in
              let r : j ≡ i = ground (arith, b) in
              let now : (grown e t i n ts).tables x j ≡ table_entry n =
                ap₂ (λ y o. (grown e t i n ts).tables y o) q r
                ∙ set_here e height t i n ts h tree given above absent in
              ap (λ v. raised (address_of v)) now
              ∙ ap raised (entry_address e height t i n ts h tree given above absent)
              ∙ update_self height n (suc h)
              ∙ omega (arith, ap height q, above, hx')
          | inr b ↦
              let same = kept e height t i n ts h tree given above absent x j a' (differs x j b) in
              ap (λ v. raised (address_of v)) same
              ∙ raised_used (address_of (e.tables x j)) k (
                  tree.links k x j hx' (sym (ap (stops (suc k)) same) ∙ s)
                    (sym (ap is_present same) ∙ p))
        ]
  ]
    where
      differs : (x j : ℕ) → ((x == t) && (j == i)) ≡ false → (x ≢ t) ⊎ (j ≢ i)
      differs x j b = elim (Bool-cases (x == t)) [
        | inl c ↦ inr (ground (arith, b, c))
        | inr c ↦ inl (ground (arith, c))
      ]

  pub grown-IsTree : IsTree (grown e t i n ts) raised
  grown-IsTree = record {
    root = raised_used e.pml4 3 tree.root;
    links = grown-links;
    spare =
        All-zip (λ y. n ≢ y) (λ y. (height y ≡ 0) × (y % 4096 ≡ 0) × (y < 2 ^ 52))
          (λ y. (raised y ≡ 0) × (y % 4096 ≡ 0) × (y < 2 ^ 52)) ts
          (λ y a b. (update_ne height n y (suc h) (λ q. a (sym q)) ∙ b.0, b.1, b.2))
          (subst Distinct given tree.distinct).0
          (subst (All (λ y. (height y ≡ 0) × (y % 4096 ≡ 0) × (y < 2 ^ 52))) given tree.spare).1;
    distinct = (subst Distinct given tree.distinct).1;
  }
