-- ===== src/Bignum/Multiply/Long.antt =====
-- `bn_multiply_long` of ios/Classes/bignum.c is the product.
use ether_flutter_plugin.Prelude.{
  ℕ, zero, suc, ◌+◌, ◌-◌, ◌*◌, ◌%◌, ◌^◌, ◌<◌, ◌≤◌, ◌≡◌, ◌∙◌, refl, subst, ap, ap₂, List, [], ◌∷◌,
  bit_and, u64, ◌>>>◌, ltb, if◌then◌else◌, get_or, length, arith,
}
use ether_flutter_plugin.Prelude.Bits.{bit_and_mask}
use native.Mathlib.Nat.{mul-le-mul, mul-add, add-mul, mod-eq_of_lt}
use ether_flutter_plugin.Bignum.Value.{
  Bignum256, value, IsNormalized, capacity, capacity_pos, value-lt-capacity, emit_limb, limb_small,
}
use ether_flutter_plugin.Bignum.Multiply.{column, long_limbs, bn_multiply_long}

-- The sum that a column adds, with no bound.
abbrev column_sum : Bignum256 → Bignum256 → ℕ → ℕ → ℕ → ℕ
column_sum k x i zero j = 0
column_sum k x i (suc left) j = get_or k j 0 * get_or x (i - j) 0 + column_sum k x i left (j + 1)

get_or-lt : (xs : Bignum256) (i : ℕ) → IsNormalized xs → get_or xs i 0 < 2 ^ 30
get_or-lt [] i h = omega arith
get_or-lt (x ∷ xs) zero h = h.0
get_or-lt (x ∷ xs) (suc i) h = get_or-lt xs i h.1

column_sum-le :
    (k x : Bignum256) (i left j : ℕ)
    → IsNormalized k
    → IsNormalized x
    → column_sum k x i left j ≤ left * 2 ^ 60
column_sum-le k x i zero j hk hx = omega arith
column_sum-le k x i (suc left) j hk hx =
    let product : get_or k j 0 * get_or x (i - j) 0 ≤ 2 ^ 30 * 2 ^ 30 =
      mul-le-mul {n₂ = 2 ^ 30} {m₂ = 2 ^ 30} (omega (arith, get_or-lt k j hk))
        (omega (arith, get_or-lt x (i - j) hx)) in
    omega (arith, product, column_sum-le k x i left (j + 1) hk hx)

-- No 64-bit sum of a column wraps.
column-column_sum :
    (k x : Bignum256) (i left j temp : ℕ)
    → IsNormalized k
    → IsNormalized x
    → temp + left * 2 ^ 60 < 2 ^ 64
    → column k x i left j temp ≡ temp + column_sum k x i left j
unfolding column
column-column_sum k x i zero j temp hk hx h = omega arith
column-column_sum k x i (suc left) j temp hk hx h =
    let product : get_or k j 0 * get_or x (i - j) 0 ≤ 2 ^ 30 * 2 ^ 30 =
      mul-le-mul {n₂ = 2 ^ 30} {m₂ = 2 ^ 30} (omega (arith, get_or-lt k j hk))
        (omega (arith, get_or-lt x (i - j) hx)) in
    let exact : u64 (temp + u64 (get_or k j 0 * get_or x (i - j) 0))
        ≡ temp + get_or k j 0 * get_or x (i - j) 0 =
      omega arith in
    ap (column k x i left (j + 1)) exact
    ∙ column-column_sum k x i left (j + 1) (temp + get_or k j 0 * get_or x (i - j) 0) hk hx
        (omega arith)
    ∙ omega arith

-- Carrying a list of column sums.
abbrev carry_columns : ℕ → List ℕ → List ℕ
carry_columns temp [] = bit_and temp 0x3FFFFFFF ∷ []
carry_columns temp (c ∷ cs) = bit_and (temp + c) 0x3FFFFFFF ∷ carry_columns ((temp + c) >>> 30) cs

carry_columns-value :
    (temp : ℕ) (cs : List ℕ)
    → (value (carry_columns temp cs) ≡ (temp + value cs) % capacity (suc (length cs)))
      × IsNormalized (carry_columns temp cs)
carry_columns-value temp [] = (omega (arith, bit_and_mask 30 temp), (limb_small temp, tt))
carry_columns-value temp (c ∷ cs) =
    let t : ℕ = temp + c in
    let rest = carry_columns-value (t >>> 30) cs in
    (
      emit_limb t (value cs) (capacity (suc (length cs))) (temp + value (c ∷ cs)) _
          (capacity_pos (suc (length cs))) (omega arith) rest.0,
      (limb_small t, rest.1),
    )

abbrev column_sums : Bignum256 → Bignum256 → ℕ → ℕ → List ℕ
column_sums k x zero i = []
column_sums k x (suc left) i =
    column_sum k x i (if ltb i 9 then i + 1 else 17 - i) (i - 8) ∷ column_sums k x left (i + 1)

long_limbs-carry_columns :
    (k x : Bignum256) (left i temp : ℕ)
    → IsNormalized k
    → IsNormalized x
    → left + i ≡ 17
    → temp ≤ 2 ^ 34
    → long_limbs k x left i temp ≡ carry_columns temp (column_sums k x left i)
unfolding long_limbs
long_limbs-carry_columns k x zero i temp hk hx e h = refl
long_limbs-carry_columns k x (suc left) i temp hk hx e h =
    let n : ℕ = if ltb i 9 then i + 1 else 17 - i in
    let few : n ≤ 9 = ground arith in
    let sum : column_sum k x i n (i - 8) ≤ n * 2 ^ 60 = column_sum-le k x i n (i - 8) hk hx in
    let exact : column k x i n (i - 8) temp ≡ temp + column_sum k x i n (i - 8) =
      column-column_sum k x i n (i - 8) temp hk hx (omega arith) in
    ap (λ (t : ℕ). bit_and t 0x3FFFFFFF ∷ long_limbs k x left (i + 1) (t >>> 30)) exact
    ∙ ap (λ ls. bit_and (temp + column_sum k x i n (i - 8)) 0x3FFFFFFF ∷ ls)
        (long_limbs-carry_columns k x left (i + 1) ((temp + column_sum k x i n (i - 8)) >>> 30) hk
          hx (omega arith) (omega arith))

-- The schoolbook product: a row for each limb of k.
abbrev scale : ℕ → List ℕ → List ℕ
scale k [] = []
scale k (x ∷ xs) = k * x ∷ scale k xs

abbrev add_columns : List ℕ → List ℕ → List ℕ
add_columns [] ys = ys
add_columns (x ∷ xs) [] = x ∷ xs
add_columns (x ∷ xs) (y ∷ ys) = (x + y) ∷ add_columns xs ys

abbrev zero_columns : List ℕ → List ℕ
zero_columns [] = []
zero_columns (x ∷ xs) = 0 ∷ zero_columns xs

abbrev columns : List ℕ → List ℕ → List ℕ
columns [] [] = []
columns [] (x ∷ xs) = zero_columns xs
columns (k ∷ ks) xs = add_columns (scale k xs) (0 ∷ columns ks xs)

scale-value : (k : ℕ) (xs : List ℕ) → value (scale k xs) ≡ k * value xs
scale-value k [] = omega arith
scale-value k (x ∷ xs) = omega (arith, scale-value k xs, mul-add k x (2 ^ 30 * value xs), swap)
  where
    swap : k * (2 ^ 30 * value xs) ≡ 2 ^ 30 * (k * value xs)
    swap = grind arith

add_columns-value : (xs ys : List ℕ) → value (add_columns xs ys) ≡ value xs + value ys
add_columns-value [] ys = omega arith
add_columns-value (x ∷ xs) [] = omega arith
add_columns-value (x ∷ xs) (y ∷ ys) = omega (arith, add_columns-value xs ys)

zero_columns-value : (xs : List ℕ) → value (zero_columns xs) ≡ 0
zero_columns-value [] = omega arith
zero_columns-value (x ∷ xs) = omega (arith, zero_columns-value xs)

columns-value : (ks xs : List ℕ) → value (columns ks xs) ≡ value ks * value xs
columns-value [] [] = omega arith
columns-value [] (x ∷ xs) = omega (arith, zero_columns-value xs)
columns-value (k ∷ ks) xs =
    let rest = columns-value ks xs in
    let distribute : (k + 2 ^ 30 * value ks) * value xs
        ≡ k * value xs + 2 ^ 30 * value ks * value xs =
      add-mul k (2 ^ 30 * value ks) (value xs) in
    let group : 2 ^ 30 * value ks * value xs ≡ 2 ^ 30 * (value ks * value xs) = grind arith in
    add_columns-value (scale k xs) (0 ∷ columns ks xs)
    ∙ omega (arith, scale-value k xs, rest, distribute, group)

column_sums-columns :
    (k x : Bignum256) → length k ≡ 9 → length x ≡ 9 → column_sums k x 17 0 ≡ columns k x
column_sums-columns (k0 ∷ k1 ∷ k2 ∷ k3 ∷ k4 ∷ k5 ∷ k6 ∷ k7 ∷ k8 ∷ [])
      (x0 ∷ x1 ∷ x2 ∷ x3 ∷ x4 ∷ x5 ∷ x6 ∷ x7 ∷ x8 ∷ []) ek ex =
    refl
column_sums-columns k x ek ex = absurd (omega arith)

length-carry_columns : (temp : ℕ) (cs : List ℕ) → length (carry_columns temp cs) ≡ suc (length cs)
length-carry_columns temp [] = refl
length-carry_columns temp (c ∷ cs) = ap suc (length-carry_columns ((temp + c) >>> 30) cs)

carried :
    (cs res : List ℕ) (v : ℕ)
    → res ≡ carry_columns 0 cs
    → length cs ≡ 17
    → value cs ≡ v
    → v < 2 ^ 540
    → (value res ≡ v) × IsNormalized res × (length res ≡ 18)
carried cs res v e len sum small =
    let out = carry_columns-value 0 cs in
    let sum' : 0 + value cs ≡ v = omega (arith, sum) in
    let cap : capacity (suc (length cs)) ≡ 2 ^ 540 = ap (λ (n : ℕ). capacity (suc n)) len in
    rw e (
      out.0 ∙ ap₂ (λ (a b : ℕ). a % b) sum' cap ∙ mod-eq_of_lt small,
      out.1,
      length-carry_columns 0 cs ∙ ap suc len,
    )

product-lt :
    (k x : Bignum256)
    → length k ≡ 9
    → length x ≡ 9
    → IsNormalized k
    → IsNormalized x
    → value k * value x < 2 ^ 540
product-lt k x ek ex hk hx =
    let bk : value k < 2 ^ 270 =
      subst (λ (n : ℕ). value k < capacity n) ek (value-lt-capacity k hk) in
    let bx : value x < 2 ^ 270 =
      subst (λ (n : ℕ). value x < capacity n) ex (value-lt-capacity x hx) in
    let product : value k * value x ≤ (2 ^ 270 - 1) * (2 ^ 270 - 1) =
      mul-le-mul {n₂ = 2 ^ 270 - 1} {m₂ = 2 ^ 270 - 1} (omega arith) (omega arith) in
    omega arith

carried_long :
    (k x : Bignum256)
    → IsNormalized k
    → IsNormalized x
    → bn_multiply_long k x ≡ carry_columns 0 (column_sums k x 17 0)
unfolding bn_multiply_long
carried_long k x hk hx = long_limbs-carry_columns k x 17 0 0 hk hx (omega arith) (omega arith)

-- For nine normalized limbs each, `bn_multiply_long` is the exact product in eighteen normalized
-- limbs.
pub bn_multiply_long-value :
    (k x : Bignum256)
    → length k ≡ 9
    → length x ≡ 9
    → IsNormalized k
    → IsNormalized x
    → (value (bn_multiply_long k x) ≡ value k * value x)
      × IsNormalized (bn_multiply_long k x)
      × (length (bn_multiply_long k x) ≡ 18)
bn_multiply_long-value k x ek ex hk hx =
    carried (column_sums k x 17 0) (bn_multiply_long k x) (value k * value x)
      (carried_long k x hk hx) refl (ap value (column_sums-columns k x ek ex) ∙ columns-value k x)
      (product-lt k x ek ex hk hx)
