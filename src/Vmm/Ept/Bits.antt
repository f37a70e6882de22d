-- ===== src/Vmm/Ept/Bits.antt =====
-- The `|` of two numbers whose bits do not meet, as the entries of src/vmm/ept.c are put together.
use Prim.Native.Nat.{bit_or, bit_or-bitwise, digits, max}
use purevisor.Base.{ℕ, zero, suc, ◌+◌, ◌*◌, ◌/◌, ◌%◌, ◌≡◌, ◌<◌, ◌≤◌, refl, sym, ap, ◌∙◌, arith}

abbrev or_digits : ℕ → ℕ → ℕ → ℕ
or_digits n a b = digits (λ y. y) max n a b

-- More rounds than digits change nothing.
enough_digits : (k j a b : ℕ) → a ≤ k → a ≤ j → or_digits k a b ≡ or_digits j a b
enough_digits zero zero a b h l = refl
enough_digits zero (suc j) zero b h l = refl
enough_digits zero (suc j) (suc a) b h l = absurd (omega (arith, h))
enough_digits (suc k) zero zero b h l = refl
enough_digits (suc k) zero (suc a) b h l = absurd (omega (arith, l))
enough_digits (suc k) (suc j) zero b h l = refl
enough_digits (suc k) (suc j) (suc a) b h l =
    ap (λ d. d * 2 + max (suc a % 2) (b % 2))
      (enough_digits k j (suc a / 2) (b / 2) (omega (arith, h)) (omega (arith, l)))

bit_or_step : (a b : ℕ) → bit_or a b ≡ bit_or (a / 2) (b / 2) * 2 + max (a % 2) (b % 2)
bit_or_step zero b =
    let e : bit_or 0 b ≡ b = bit_or-bitwise 0 b in
    let f : bit_or 0 (b / 2) ≡ b / 2 = bit_or-bitwise 0 (b / 2) in omega (arith, e, f)
bit_or_step (suc a) b =
    (bit_or-bitwise (suc a) b)
    ∙ ap (λ d. d * 2 + max (suc a % 2) (b % 2))
        (enough_digits a (suc a / 2) (suc a / 2) (b / 2) (omega arith) (omega arith)
          ∙ sym (bit_or-bitwise (suc a / 2) (b / 2)))

bit_or-zero_below : (n a : ℕ) → a ≤ n → bit_or a 0 ≡ a
bit_or-zero_below zero zero h = refl
bit_or-zero_below zero (suc a) h = absurd (omega (arith, h))
bit_or-zero_below (suc n) zero h = refl
bit_or-zero_below (suc n) (suc a) h =
    omega (arith, bit_or_step (suc a) 0, bit_or-zero_below n (suc a / 2) (omega (arith, h)))

bit_or-zero : (a : ℕ) → bit_or a 0 ≡ a
bit_or-zero a = bit_or-zero_below a a (omega arith)

-- `c` with `k` zero bits behind it.
abbrev shifted : ℕ → ℕ → ℕ
shifted zero c = c
shifted (suc k) c = 2 * shifted k c

bit_or-shifted : (k c b : ℕ) → b < shifted k 1 → bit_or (shifted k c) b ≡ shifted k c + b
bit_or-shifted zero c zero h = bit_or-zero c ∙ omega arith
bit_or-shifted zero c (suc b) h = absurd (omega (arith, h))
bit_or-shifted (suc k) c b h =
    let x = shifted k c in
    let half : 2 * x / 2 ≡ x = omega arith in
    let next = bit_or-shifted k c (b / 2) (omega (arith, h)) in
    omega (arith, bit_or_step (2 * x) b, ap (λ y. bit_or y (b / 2)) half, next)

pub bit_or_page : (a b : ℕ) → a % 4096 ≡ 0 → b < 4096 → bit_or a b ≡ a + b
bit_or_page a b h l =
    let e : a ≡ shifted 12 (a / 4096) = omega (arith, h) in
    ap (λ x. bit_or x b) e ∙ bit_or-shifted 12 (a / 4096) b (omega (arith, l)) ∙ omega (arith, h)

pub bit_or_low : (a b : ℕ) → a < 8 → bit_or (b * 8) a ≡ b * 8 + a
bit_or_low a b l =
    let e : b * 8 ≡ shifted 3 b = omega arith in
    ap (λ x. bit_or x a) e ∙ bit_or-shifted 3 b a (omega (arith, l)) ∙ omega arith

-- The three low digits pass through, where the other number has none.
bit_or_three : (x m : ℕ) → bit_or x (m * 8) ≡ bit_or (x / 8) m * 8 + x % 8
bit_or_three x m =
    let a : m * 8 / 2 ≡ m * 4 = omega arith in
    let b : m * 4 / 2 ≡ m * 2 = omega arith in
    let c : m * 2 / 2 ≡ m = omega arith in
    let d : x / 2 / 2 / 2 ≡ x / 8 = omega arith in
    omega (
      arith,
      bit_or_step x (m * 8),
      ap (bit_or (x / 2)) a,
      bit_or_step (x / 2) (m * 4),
      ap (bit_or (x / 2 / 2)) b,
      bit_or_step (x / 2 / 2) (m * 2),
      ap (bit_or (x / 2 / 2 / 2)) c,
      ap (λ y. bit_or y m) d,
    )

-- A page, permissions below 8 and a memory type below 8 make an entry without overlap.
pub bit_or_entry :
    (host perm memtype : ℕ)
    → host % 4096 ≡ 0
    → perm < 8
    → memtype < 8
    → bit_or (bit_or host perm) (memtype * 8) ≡ host + perm + memtype * 8
bit_or_entry host perm memtype a p m =
    let x = host + perm in
    let e : x / 8 ≡ shifted 9 (host / 4096) = omega (arith, a, p) in
    ap (λ y. bit_or y (memtype * 8)) (bit_or_page host perm a (omega (arith, p)))
    ∙ bit_or_three x memtype
    ∙ ap (λ y. bit_or y memtype * 8 + x % 8) e
    ∙ ap (λ y. y * 8 + x % 8) (bit_or-shifted 9 (host / 4096) memtype (omega (arith, m)))
    ∙ omega (arith, a, p)
