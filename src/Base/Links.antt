-- ===== src/Base/Links.antt =====
-- Linked lists of objects, as the list of their addresses: NULL is 0, and is no member.
use Prim.Native.Nat.{ℕ, suc, ◌≤◌, ◌<◌}
use mathlib.Core.Path.{◌≡◌, refl, ap, subst, sym}
use mathlib.Core.Logic.{◌≢◌, inl, inr}
use mathlib.Core.Bool.{Bool, true, false}
use mathlib.Core.List.{List, [], ◌∷◌}
use native.Mathlib.Omega.{arith}
use purevisor.Base.Tests.{◌==◌, if◌then◌else◌, Bool-cases}
use purevisor.Base.Lists.{length, All, Member, Distinct}
use purevisor.Base.Store.{update}

-- while (*pp) { if (*pp == a) { *pp = a->next; break; } pp = &(*pp)->next; }
abbrev pub unlink : ℕ → List ℕ → List ℕ
unlink a [] = []
unlink a (x ∷ xs) = if x == a then xs else x ∷ unlink a xs

-- whether that loop meets `a`
abbrev pub linked : ℕ → List ℕ → Bool
linked a [] = false
linked a (x ∷ xs) = if x == a then true else linked a xs

-- while (x) { if (p(x)) return x; x = x->next; } return NULL;
abbrev pub find_first : (ℕ → Bool) → List ℕ → ℕ
find_first p [] = 0
find_first p (x ∷ xs) = if p x then x else find_first p xs

-- how many objects of the list pass the test
abbrev pub tally : (ℕ → Bool) → List ℕ → ℕ
tally p [] = 0
tally p (x ∷ xs) = if p x then suc (tally p xs) else tally p xs

pub length-unlink :
    (a : ℕ) (xs : List ℕ) → linked a xs ≡ true → suc (length (unlink a xs)) ≡ length xs
length-unlink a [] h = absurd (ground arith)
length-unlink a (x ∷ xs) h = ground (arith, length-unlink a xs)

pub unlink-absent : (a : ℕ) (xs : List ℕ) → linked a xs ≡ false → unlink a xs ≡ xs
unlink-absent a [] h = refl
unlink-absent a (x ∷ xs) h = ground (arith, unlink-absent a xs)

pub length-linked : (a : ℕ) (xs : List ℕ) → linked a xs ≡ true → 0 < length xs
length-linked a [] h = absurd (ground arith)
length-linked a (x ∷ xs) h = omega arith

pub unlink-All {κ} : (P : ℕ → Type κ) (a : ℕ) (xs : List ℕ) → All P xs → All P (unlink a xs)
unlink-All P a [] h = tt
unlink-All P a (x ∷ xs) h = elim (Bool-cases (x == a)) [
  | inl e ↦ rw e h.1
  | inr e ↦ rw e (h.0, unlink-All P a xs h.1)
]

pub unlink-Distinct : (a : ℕ) (xs : List ℕ) → Distinct xs → Distinct (unlink a xs)
unlink-Distinct a [] h = tt
unlink-Distinct a (x ∷ xs) h = elim (Bool-cases (x == a)) [
  | inl e ↦ rw e h.1
  | inr e ↦ rw e (unlink-All _ a xs h.0, unlink-Distinct a xs h.1)
]

-- A distinct list holds what it linked no more.
pub unlink-All_ne : (a : ℕ) (xs : List ℕ) → Distinct xs → All (λ y. a ≢ y) (unlink a xs)
unlink-All_ne a [] h = tt
unlink-All_ne a (x ∷ xs) h = elim (Bool-cases (x == a)) [
  | inl e ↦ let e' : x ≡ a = ground arith in rw (e, ← e') h.0
  | inr e ↦ rw e (ground arith, unlink-All_ne a xs h.1)
]

pub tally-le : (p : ℕ → Bool) (xs : List ℕ) → tally p xs ≤ length xs
tally-le p [] = omega arith
tally-le p (x ∷ xs) = ground (arith, tally-le p xs)

-- Two tests that agree on the members count the same.
pub tally-ext : (p q : ℕ → Bool) (xs : List ℕ) → All (λ x. p x ≡ q x) xs → tally p xs ≡ tally q xs
tally-ext p q [] h = refl
tally-ext p q (x ∷ xs) h = ground (arith, h.0, tally-ext p q xs h.1)

pub All-map {ℓ κ} :
    {P : ℕ → Type ℓ} {Q : ℕ → Type κ} (f : (x : ℕ) → P x → Q x) (xs : List ℕ) → All P xs → All Q xs
All-map f [] h = tt
All-map f (x ∷ xs) h = (f x h.0, All-map f xs h.1)

-- A change at one address, seen by a predicate on the members.
pub All-write {ℓ κ} :
    (P : ℕ → Type ℓ) (Q : ℕ → Type κ) (a : ℕ)
    → Q a
    → ((x : ℕ) → x ≢ a → P x → Q x)
    → (xs : List ℕ) → All P xs
    → All Q xs
All-write P Q a here other [] h = tt
All-write P Q a here other (x ∷ xs) h = (
  elim (Bool-cases (x == a)) [
    | inl e ↦ let e' : x ≡ a = ground arith in subst Q (sym e') here
    | inr e ↦ other x (ground arith) h.0
  ],
  All-write P Q a here other xs h.1,
)

pub All-zip {ℓ κ} :
    (P : ℕ → Type ℓ) (Q : ℕ → Type κ) (xs : List ℕ) → All P xs → All Q xs → All (λ x. P x × Q x) xs
All-zip P Q [] h k = tt
All-zip P Q (x ∷ xs) h k = ((h.0, k.0), All-zip P Q xs h.1 k.1)

pub All-of {κ} : {P : ℕ → Type κ} (h : (x : ℕ) → P x) (xs : List ℕ) → All P xs
All-of h [] = tt
All-of h (x ∷ xs) = (h x, All-of h xs)

-- An update of the test at an address that is no member is not seen.
pub tally-update_ne :
    (p : ℕ → Bool) (a : ℕ) (b : Bool) (xs : List ℕ)
    → All (λ y. a ≢ y) xs
    → tally (update p a b) xs ≡ tally p xs
tally-update_ne p a b xs h = tally-ext (update p a b) p xs (All-map (λ x ne. ground arith) xs h)

pub tally-unlink :
    (p : ℕ → Bool) (a : ℕ) (xs : List ℕ)
    → linked a xs ≡ true
    → tally p xs ≡ (if p a then suc (tally p (unlink a xs)) else tally p (unlink a xs))
tally-unlink p a [] h = absurd (ground arith)
tally-unlink p a (x ∷ xs) h = elim (Bool-cases (x == a)) [
  | inl e ↦ let e' : x ≡ a = ground arith in rw (e, e')
  | inr e ↦ ground (arith, tally-unlink p a xs)
]

-- Changing the test at one member moves the count by one.
pub tally-update :
    (p : ℕ → Bool) (a : ℕ) (b : Bool) (xs : List ℕ)
    → Distinct xs
    → linked a xs ≡ true
    → (if b then suc (tally p xs) else tally p xs)
      ≡ (if p a then suc (tally (update p a b) xs) else tally (update p a b) xs)
tally-update p a b [] d h = absurd (ground arith)
tally-update p a b (x ∷ xs) d h = elim (Bool-cases (x == a)) [
  | inl e ↦
      let e' : x ≡ a = ground arith in
      ground (arith, ap p e', tally-update_ne p a b xs (subst (λ k. All (λ y. k ≢ y) xs) e' d.0))
  | inr e ↦ ground (arith, tally-update p a b xs d.1)
]

pub linked-Member : (a : ℕ) (xs : List ℕ) → linked a xs ≡ true → Member a xs
linked-Member a [] h = absurd (ground arith)
linked-Member a (x ∷ xs) h = elim (Bool-cases (x == a)) [
  | inl e ↦ inl (ground arith)
  | inr e ↦ inr (linked-Member a xs (ground arith))
]

pub Member-linked : (a : ℕ) (xs : List ℕ) → Member a xs → linked a xs ≡ true
Member-linked a [] h = elim h [ ]
Member-linked a (x ∷ xs) (inl e) = ground arith
Member-linked a (x ∷ xs) (inr m) = ground (arith, Member-linked a xs m)

pub All-Member {κ} : (P : ℕ → Type κ) (xs : List ℕ) → All P xs → (a : ℕ) → Member a xs → P a
All-Member P [] h a m = elim m [ ]
All-Member P (x ∷ xs) h a (inl e) = subst P (sym e) h.0
All-Member P (x ∷ xs) h a (inr m) = All-Member P xs h.1 a m

pub All-linked {κ} : (P : ℕ → Type κ) (xs : List ℕ) → All P xs → (a : ℕ) → linked a xs ≡ true → P a
All-linked P xs h a l = All-Member P xs h a (linked-Member a xs l)

pub find_first-some :
    (p : ℕ → Bool) (xs : List ℕ) (k : ℕ)
    → find_first p xs ≡ k
    → k ≢ 0
    → (p k ≡ true) × (linked k xs ≡ true)
find_first-some p [] k e n = absurd (n (sym e))
find_first-some p (x ∷ xs) k e n = ground (arith, find_first-some p xs k, ap p {x = x} {y = k})

pub find_first-none :
    (p : ℕ → Bool) (xs : List ℕ)
    → All (λ x. 0 < x) xs
    → find_first p xs ≡ 0
    → All (λ x. p x ≡ false) xs
find_first-none p [] h n = tt
find_first-none p (x ∷ xs) h n = elim (Bool-cases (p x)) [
  | inl e ↦ absurd (ground arith)
  | inr e ↦ (e, find_first-none p xs h.1 (ground arith))
]
