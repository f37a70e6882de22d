-- ===== src/Base/Bytes.antt =====
-- Strings and buffers as lists of bytes: `strcmp` and the copies of src/lib/string.c.
-- A string is the list of its bytes before the NUL.
use Prim.Native.Nat.{ℕ, zero, suc, ◌+◌, ◌≤◌}
use mathlib.Core.Path.{◌≡◌, refl, ap}
use mathlib.Core.Logic.{◌⊎◌, inl, inr}
use mathlib.Core.Bool.{Bool, true, false}
use mathlib.Core.List.{List, [], ◌∷◌}
use native.Mathlib.Omega.{arith}
use purevisor.Base.Tests.{◌==◌, if◌then◌else◌}
use purevisor.Base.Lists.{length, take, drop}

-- strcmp(a, b) == 0
abbrev pub str_eq : List ℕ → List ℕ → Bool
str_eq [] [] = true
str_eq [] (b ∷ bs) = false
str_eq (a ∷ as') [] = false
str_eq (a ∷ as') (b ∷ bs) = if a == b then str_eq as' bs else false

pub str_eq_refl : (xs : List ℕ) → str_eq xs xs ≡ true
str_eq_refl [] = refl
str_eq_refl (x ∷ xs) = ground (arith, str_eq_refl xs)

pub str_eq→eq : (xs ys : List ℕ) → str_eq xs ys ≡ true → xs ≡ ys
str_eq→eq [] [] h = refl
str_eq→eq [] (y ∷ ys) h = cc
str_eq→eq (x ∷ xs) [] h = cc
str_eq→eq (x ∷ xs) (y ∷ ys) h = ground (arith, str_eq→eq xs ys)

-- memcpy(memory + offset, src, length(src)); bytes past the end of the memory are dropped.
abbrev pub write_at : List ℕ → ℕ → List ℕ → List ℕ
write_at [] off src = []
write_at (x ∷ xs) zero [] = x ∷ xs
write_at (x ∷ xs) zero (s ∷ ss) = s ∷ write_at xs zero ss
write_at (x ∷ xs) (suc off) src = x ∷ write_at xs off src

-- the `len` bytes at `off`
abbrev pub slice : List ℕ → ℕ → ℕ → List ℕ
slice xs off len = take len (drop off xs)

pub length-write_at :
    (xs : List ℕ) (off : ℕ) (src : List ℕ) → length (write_at xs off src) ≡ length xs
length-write_at [] off src = refl
length-write_at (x ∷ xs) zero [] = refl
length-write_at (x ∷ xs) zero (s ∷ ss) = ap suc (length-write_at xs zero ss)
length-write_at (x ∷ xs) (suc off) src = ap suc (length-write_at xs off src)

-- What was written is read back.
pub slice-write_at :
    (xs : List ℕ) (off : ℕ) (src : List ℕ)
    → off + length src ≤ length xs
    → slice (write_at xs off src) off (length src) ≡ src
slice-write_at [] zero [] h = refl
slice-write_at [] zero (s ∷ ss) h = absurd (omega arith)
slice-write_at [] (suc off) src h = absurd (omega arith)
slice-write_at (x ∷ xs) zero [] h = refl
slice-write_at (x ∷ xs) zero (s ∷ ss) h = ap (λ l. s ∷ l) (slice-write_at xs zero ss (omega arith))
slice-write_at (x ∷ xs) (suc off) src h = slice-write_at xs off src (omega arith)

take_before :
    (n : ℕ) (xs : List ℕ) (off : ℕ) (src : List ℕ)
    → n ≤ off
    → take n (write_at xs off src) ≡ take n xs
take_before zero xs off src h = refl
take_before (suc n) [] off src h = refl
take_before (suc n) (x ∷ xs) zero src h = absurd (omega arith)
take_before (suc n) (x ∷ xs) (suc off) src h =
    ap (λ l. x ∷ l) (take_before n xs off src (omega arith))

drop_after :
    (o : ℕ) (xs : List ℕ) (off : ℕ) (src : List ℕ)
    → off + length src ≤ o
    → drop o (write_at xs off src) ≡ drop o xs
drop_after o [] off src h = refl
drop_after zero (x ∷ xs) zero [] h = refl
drop_after zero (x ∷ xs) zero (s ∷ ss) h = absurd (omega arith)
drop_after zero (x ∷ xs) (suc off) src h = absurd (omega arith)
drop_after (suc o) (x ∷ xs) zero [] h = refl
drop_after (suc o) (x ∷ xs) zero (s ∷ ss) h = drop_after o xs zero ss (omega arith)
drop_after (suc o) (x ∷ xs) (suc off) src h = drop_after o xs off src (omega arith)

-- A range that the write does not meet is unchanged.
pub slice-write_at_apart :
    (xs : List ℕ) (off : ℕ) (src : List ℕ) (o len : ℕ)
    → (o + len ≤ off) ⊎ (off + length src ≤ o)
    → slice (write_at xs off src) o len ≡ slice xs o len
slice-write_at_apart xs off src o len (inr h) = ap (take len) (drop_after o xs off src h)
slice-write_at_apart [] off src o len (inl h) = refl
slice-write_at_apart (x ∷ xs) off src zero len (inl h) =
    take_before len (x ∷ xs) off src (omega arith)
slice-write_at_apart (x ∷ xs) zero src (suc o) len (inl h) = absurd (omega arith)
slice-write_at_apart (x ∷ xs) (suc off) src (suc o) len (inl h) =
    slice-write_at_apart xs off src o len (inl (omega arith))
