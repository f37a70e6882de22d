-- ===== src/Storage/Distributed/Encoding.antt =====
-- The bytes of a write in the log, `dist_storage_write` and `apply_storage_entry` of
-- src/storage/distributed.c, part by part.
use purevisor.Base.{
  ℕ, zero, suc, ◌+◌, ◌/◌, ◌^◌, ◌≡◌, ◌≢◌, ◌<◌, ◌≤◌, refl, ap, ◌∙◌, List, [], ◌∷◌, ◌++◌, take, drop,
  length, All, arith, subst, length-append,
}
use purevisor.Storage.Distributed.{le_bytes, from_le, c_string, padded, write_entry}

take_append : (xs ys : List ℕ) → take (length xs) (xs ++ ys) ≡ xs
take_append [] ys = refl
take_append (x ∷ xs) ys = ap (λ l. x ∷ l) (take_append xs ys)

drop_append : (xs ys : List ℕ) → drop (length xs) (xs ++ ys) ≡ ys
drop_append [] ys = refl
drop_append (x ∷ xs) ys = drop_append xs ys

-- The same with the length given.
take_front : (n : ℕ) (xs ys : List ℕ) → length xs ≡ n → take n (xs ++ ys) ≡ xs
take_front n xs ys e = subst (λ k. take k (xs ++ ys) ≡ xs) e (take_append xs ys)

drop_front : (n : ℕ) (xs ys : List ℕ) → length xs ≡ n → drop n (xs ++ ys) ≡ ys
drop_front n xs ys e = subst (λ k. drop k (xs ++ ys) ≡ ys) e (drop_append xs ys)

append_assoc : (xs ys zs : List ℕ) → xs ++ (ys ++ zs) ≡ (xs ++ ys) ++ zs
append_assoc [] ys zs = refl
append_assoc (x ∷ xs) ys zs = ap (λ l. x ∷ l) (append_assoc xs ys zs)

drop_two : (k : ℕ) (xs ys zs : List ℕ) → length xs + length ys ≡ k → drop k (xs ++ (ys ++ zs)) ≡ zs
drop_two k xs ys zs e =
    ap (drop k) (append_assoc xs ys zs)
    ∙ drop_front k (xs ++ ys) zs (omega (arith, length-append xs ys, e))

from_le-le_bytes : (n v : ℕ) → v < 256 ^ n → from_le (le_bytes n v) ≡ v
from_le-le_bytes zero v h = omega (arith, h)
from_le-le_bytes (suc n) v h = omega (arith, from_le-le_bytes n (v / 256) (omega (arith, h)), h)

length-le_bytes : (n v : ℕ) → length (le_bytes n v) ≡ n
length-le_bytes zero v = refl
length-le_bytes (suc n) v = ap suc (length-le_bytes n (v / 256))

length-padded : (n : ℕ) (s : List ℕ) → length (padded n s) ≡ n
length-padded zero s = refl
length-padded (suc n) [] = ap suc (length-padded n [])
length-padded (suc n) (b ∷ s) = ap suc (length-padded n s)

c_string-padded :
    (n : ℕ) (s rest : List ℕ)
    → length s < n
    → All (λ b. b ≢ 0) s
    → c_string (padded n s ++ rest) ≡ s
c_string-padded zero s rest l h = absurd (omega (arith, l))
c_string-padded (suc n) [] rest l h = refl
c_string-padded (suc n) (b ∷ s) rest l h =
    ground (arith, h.0, c_string-padded n s rest (omega (arith, l)) h.1)

pub take_all : (n : ℕ) (xs : List ℕ) → length xs ≤ n → take n xs ≡ xs
take_all zero [] h = refl
take_all zero (x ∷ xs) h = absurd (omega (arith, h))
take_all (suc n) [] h = refl
take_all (suc n) (x ∷ xs) h = ap (λ l. x ∷ l) (take_all n xs (omega (arith, h)))

-- What the entry of a write holds, part by part.
module _ (name : List ℕ) (offset len : ℕ) (data' : List ℕ) where
  pub entry_name :
      length name < 64 → All (λ b. b ≢ 0) name → c_string (write_entry name offset len data') ≡ name
  entry_name l h =
      let e = take_all 63 name (omega (arith, l)) in
      ap (λ s. c_string (padded 64 s ++ (le_bytes 8 offset ++ (le_bytes 4 len ++ data')))) e
      ∙ c_string-padded 64 name (le_bytes 8 offset ++ (le_bytes 4 len ++ data')) l h

  pub entry_offset :
      offset < 2 ^ 64 → from_le (take 8 (drop 64 (write_entry name offset len data'))) ≡ offset
  entry_offset l =
      ap (λ b. from_le (take 8 b))
        (drop_front 64 (padded 64 (take 63 name)) (le_bytes 8 offset ++ (le_bytes 4 len ++ data'))
          (length-padded 64 (take 63 name)))
      ∙ ap from_le
          (take_front 8 (le_bytes 8 offset) (le_bytes 4 len ++ data') (length-le_bytes 8 offset))
      ∙ from_le-le_bytes 8 offset l

  pub entry_len :
      len < 2 ^ 32 → from_le (take 4 (drop 72 (write_entry name offset len data'))) ≡ len
  entry_len l =
      ap (λ b. from_le (take 4 b))
        (drop_two 72 (padded 64 (take 63 name)) (le_bytes 8 offset) (le_bytes 4 len ++ data')
          (omega (arith, length-padded 64 (take 63 name), length-le_bytes 8 offset)))
      ∙ ap from_le (take_front 4 (le_bytes 4 len) data' (length-le_bytes 4 len))
      ∙ from_le-le_bytes 4 len l

  head_of : List ℕ
  head_of = padded 64 (take 63 name) ++ le_bytes 8 offset

  head_length : length head_of ≡ 72
  unfolding head_of
  head_length = omega (
    arith,
    length-append (padded 64 (take 63 name)) (le_bytes 8 offset),
    length-padded 64 (take 63 name),
    length-le_bytes 8 offset,
  )

  pub entry_data : drop 76 (write_entry name offset len data') ≡ data'
  unfolding head_of
  entry_data =
      ap (drop 76)
        (append_assoc (padded 64 (take 63 name)) (le_bytes 8 offset) (le_bytes 4 len ++ data'))
      ∙ drop_two 76 head_of (le_bytes 4 len) data'
          (omega (arith, head_length, length-le_bytes 4 len))

  pub entry_fits : length (write_entry name offset len data') ≡ 76 + length data'
  entry_fits = omega (
    arith,
    length-append (padded 64 (take 63 name)) (le_bytes 8 offset ++ (le_bytes 4 len ++ data')),
    length-append (le_bytes 8 offset) (le_bytes 4 len ++ data'),
    length-append (le_bytes 4 len) data',
    length-padded 64 (take 63 name),
    length-le_bytes 8 offset,
    length-le_bytes 4 len,
  )
