-- ===== src/Base/Store.antt =====
-- Arrays and objects by address, as functions, and how often a test passes below a bound.
use Prim.Native.Nat.{ℕ, zero, suc, ◌+◌, ◌≤◌, ◌<◌}
use mathlib.Core.Path.{◌≡◌, refl, ap}
use mathlib.Core.Logic.{◌≢◌, inl, inr}
use mathlib.Core.Bool.{Bool, true, false}
use mathlib.Core.Option.{Option, none, some}
use native.Mathlib.Omega.{arith}
use purevisor.Base.Tests.{◌==◌, if◌then◌else◌, Bool-cases}

abbrev pub update {ℓ} : {A : Type ℓ} → (ℕ → A) → ℕ → A → ℕ → A
update f k v j = if j == k then v else f j

pub update_self {ℓ} : {A : Type ℓ} (f : ℕ → A) (k : ℕ) (v : A) → update f k v k ≡ v
update_self f k v = ground arith

pub update_ne {ℓ} : {A : Type ℓ} (f : ℕ → A) (k j : ℕ) (v : A) → j ≢ k → update f k v j ≡ f j
update_ne f k j v h = ground arith

-- how many indices below the bound pass the test
abbrev pub count_below : (ℕ → Bool) → ℕ → ℕ
count_below p zero = 0
count_below p (suc n) = if p n then suc (count_below p n) else count_below p n

pub count_below-ext :
    (p q : ℕ → Bool) (n : ℕ) → ((i : ℕ) → i < n → p i ≡ q i) → count_below p n ≡ count_below q n
count_below-ext p q zero h = refl
count_below-ext p q (suc n) h =
    ground (arith, h n (omega arith), count_below-ext p q n (λ i l. h i (omega arith)))

pub count_below-le : (p : ℕ → Bool) (n : ℕ) → count_below p n ≤ n
count_below-le p zero = omega arith
count_below-le p (suc n) = ground (arith, count_below-le p n)

-- Two tests that differ at one index below the bound, where only the first passes.
pub count_below-drop :
    (p q : ℕ → Bool) (n k : ℕ)
    → k < n
    → p k ≡ true
    → q k ≡ false
    → ((i : ℕ) → i ≢ k → p i ≡ q i)
    → count_below p n ≡ suc (count_below q n)
count_below-drop p q zero k l hp hq h = absurd (omega arith)
count_below-drop p q (suc n) k l hp hq h = elim (Bool-cases (n == k)) [
  | inl e ↦
      let e' : n ≡ k = ground arith in
      ground (arith, ap p e', ap q e', count_below-ext p q n (λ i b. h i (omega arith)))
  | inr e ↦
      let ne : n ≢ k = ground arith in
      ground (arith, h n ne, count_below-drop p q n k (omega arith) hp hq h)
]

pub count_below-pos : (p : ℕ → Bool) (n k : ℕ) → k < n → p k ≡ true → 0 < count_below p n
count_below-pos p zero k l e = absurd (omega arith)
count_below-pos p (suc n) k l e = elim (Bool-cases (n == k)) [
  | inl d ↦ let d' : n ≡ k = ground arith in ground (arith, ap p d')
  | inr d ↦ ground (arith, count_below-pos p n k)
]

-- for (i = from; i < from + n; i++) if (p i) return i;
unfoldable pub first_from : (ℕ → Bool) → ℕ → ℕ → Option ℕ
first_from p i zero = none
first_from p i (suc n) = if p i then some i else first_from p (i + 1) n

pub first_from-some :
    (p : ℕ → Bool) (i n k : ℕ) → first_from p i n ≡ some k → (p k ≡ true) × (i ≤ k) × (k < i + n)
unfolding first_from
first_from-some p i zero k e = absurd (ground arith)
first_from-some p i (suc n) k e =
    ground (arith, first_from-some p (i + 1) n k, ap p {x = i} {y = k})

pub first_from-none :
    (p : ℕ → Bool) (i n k : ℕ) → first_from p i n ≡ none → i ≤ k → k < i + n → p k ≡ false
unfolding first_from
first_from-none p i zero k e l h = absurd (omega arith)
first_from-none p i (suc n) k e l h = elim (Bool-cases (i == k)) [
  | inl d ↦ let d' : i ≡ k = ground arith in ground (arith, ap p d')
  | inr d ↦ ground (arith, first_from-none p (i + 1) n k)
]

pub first_from-here : (p : ℕ → Bool) (i n : ℕ) → 0 < n → p i ≡ true → first_from p i n ≡ some i
unfolding first_from
first_from-here p i zero h e = absurd (omega arith)
first_from-here p i (suc n) h e = rw e
