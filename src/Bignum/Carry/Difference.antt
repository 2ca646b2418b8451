-- ===== src/Bignum/Carry/Difference.antt =====
-- What the subtractions compute.
use ether_flutter_plugin.Prelude.{
  ℕ, ◌+◌, ◌-◌, ◌*◌, ◌%◌, ◌^◌, ◌<◌, ◌≤◌, ◌≡◌, ◌∙◌, ap, [], ◌∷◌, length, arith, u32, ◌>>>◌,
}
use native.Mathlib.Nat.{mod-eq_of_lt, add-mod_right}
use ether_flutter_plugin.Bignum.Value.{
  Bignum256, value, IsNormalized, capacity, capacity_pos, value-lt-capacity, emit_limb, limb_small,
}
use ether_flutter_plugin.Bignum.Carry.{
  add_limbs, bn_add, bn_subi, subtract_limbs, bn_subtract, subtractmod_limbs, bn_subtractmod,
}
use ether_flutter_plugin.Bignum.Carry.Sum.{add_limbs_lem}

-- The subtrahend enters as its complement in `capacity - 1`, and the carry starts as 1.
pub subtract_limbs_lem :
    (tmp : ℕ) (a b : Bignum256)
    → length a ≡ length b
    → IsNormalized a
    → IsNormalized b
    → tmp ≤ 1
    → (value (subtract_limbs tmp a b)
        ≡ (value a + (capacity (length a) - 1 - value b) + tmp) % capacity (length a))
      × IsNormalized (subtract_limbs tmp a b)
unfolding subtract_limbs
subtract_limbs_lem tmp [] b e ha hb h = (omega arith, tt)
subtract_limbs_lem tmp (x ∷ xs) [] e ha hb h = absurd (omega arith)
subtract_limbs_lem tmp (x ∷ xs) (y ∷ ys) e ha hb h =
    let t : ℕ = u32 (tmp + u32 (0x3FFFFFFF + x + 2 ^ 32 - y)) in
    let exact : t ≡ tmp + 0x3FFFFFFF + x - y = omega arith in
    let m : ℕ = capacity (length xs) in
    let len : length xs ≡ length ys = omega arith in
    let below : value ys < m = rw len (value-lt-capacity ys hb.1) in
    let rest = subtract_limbs_lem (t >>> 30) xs ys len ha.1 hb.1 (omega arith) in
    (
      emit_limb t (value xs + (m - 1 - value ys)) m _ _ (capacity_pos (length xs)) (omega arith)
          (rest.0 ∙ ap (λ (n : ℕ). n % m) (omega arith)),
      (limb_small t, rest.1),
    )

-- For normalized numbers of the same count of limbs, `bn_subtract` is a - b modulo what the limbs
-- hold, normalized: the exact difference where b is at most a, and that and the capacity otherwise.
pub bn_subtract-value :
    (a b : Bignum256)
    → length a ≡ length b
    → IsNormalized a
    → IsNormalized b
    → (value (bn_subtract a b) ≡ (value a + capacity (length a) - value b) % capacity (length a))
      × IsNormalized (bn_subtract a b)
unfolding bn_subtract
bn_subtract-value a b e ha hb =
    let m : ℕ = capacity (length a) in
    let diff = subtract_limbs_lem 1 a b e ha hb (omega arith) in
    let below : value b < m = rw e (value-lt-capacity b hb) in
    (diff.0 ∙ ap (λ (n : ℕ). n % m) (omega arith), diff.1)

-- The case without a borrow out of the highest limb.
pub bn_subtract-exact :
    (a b : Bignum256)
    → length a ≡ length b
    → IsNormalized a
    → IsNormalized b
    → value b ≤ value a
    → (value (bn_subtract a b) ≡ value a - value b) × IsNormalized (bn_subtract a b)
unfolding bn_subtract
bn_subtract-exact a b e ha hb le =
    let m : ℕ = capacity (length a) in
    let diff = subtract_limbs_lem 1 a b e ha hb (omega arith) in
    let small : value a < m = value-lt-capacity a ha in
    let whole : value a + (m - 1 - value b) + 1 ≡ value a - value b + m = omega arith in
    (
      diff.0
          ∙ ap (λ (n : ℕ). n % m) whole
          ∙ add-mod_right (value a - value b) m
          ∙ mod-eq_of_lt (omega arith),
      diff.1,
    )

-- The carry of `bn_subtractmod` is at most 3, so that no 32-bit sum wraps.
pub subtractmod_limbs_lem :
    (temp : ℕ) (a b p : Bignum256)
    → length a ≡ length b
    → length a ≡ length p
    → IsNormalized a
    → IsNormalized b
    → IsNormalized p
    → temp ≤ 3
    → (value (subtractmod_limbs temp a b p)
        ≡ (value a + 2 * value p + (capacity (length a) - 1 - value b) + temp)
          % capacity (length a))
      × IsNormalized (subtractmod_limbs temp a b p)
unfolding subtractmod_limbs
subtractmod_limbs_lem temp [] b p e f ha hb hp h = (omega arith, tt)
subtractmod_limbs_lem temp (x ∷ xs) [] p e f ha hb hp h = absurd (omega arith)
subtractmod_limbs_lem temp (x ∷ xs) (y ∷ ys) [] e f ha hb hp h = absurd (omega arith)
subtractmod_limbs_lem temp (x ∷ xs) (y ∷ ys) (z ∷ zs) e f ha hb hp h =
    let t : ℕ = u32 (temp + u32 (0x3FFFFFFF + x + 2 * z + 2 ^ 32 - y)) in
    let exact : t ≡ temp + 0x3FFFFFFF + x + 2 * z - y = omega arith in
    let m : ℕ = capacity (length xs) in
    let len : length xs ≡ length ys = omega arith in
    let below : value ys < m = rw len (value-lt-capacity ys hb.1) in
    let rest =
      subtractmod_limbs_lem (t >>> 30) xs ys zs len (omega arith) ha.1 hb.1 hp.1 (omega arith) in
    (
      emit_limb t (value xs + 2 * value zs + (m - 1 - value ys)) m _ _ (capacity_pos (length xs))
          (omega arith) (rest.0 ∙ ap (λ (n : ℕ). n % m) (omega arith)),
      (limb_small t, rest.1),
    )

-- For normalized numbers of the same count of limbs, `bn_subtractmod` is `a + 2 * prime - b` exactly,
-- normalized, where that is not negative and fits the limbs.
pub bn_subtractmod-value :
    (a b p : Bignum256)
    → length a ≡ length b
    → length a ≡ length p
    → IsNormalized a
    → IsNormalized b
    → IsNormalized p
    → value b ≤ value a + 2 * value p
    → value a + 2 * value p - value b < capacity (length a)
    → (value (bn_subtractmod a b p) ≡ value a + 2 * value p - value b)
      × IsNormalized (bn_subtractmod a b p)
unfolding bn_subtractmod
bn_subtractmod-value a b p e f ha hb hp le fits =
    let m : ℕ = capacity (length a) in
    let diff = subtractmod_limbs_lem 1 a b p e f ha hb hp (omega arith) in
    let below : value b < m = rw e (value-lt-capacity b hb) in
    let whole : value a + 2 * value p + (m - 1 - value b) + 1
        ≡ value a + 2 * value p - value b + m =
      omega arith in
    (
      diff.0
          ∙ ap (λ (n : ℕ). n % m) whole
          ∙ add-mod_right (value a + 2 * value p - value b) m
          ∙ mod-eq_of_lt fits,
      diff.1,
    )

-- For normalized numbers of the same count of limbs and b up to the lowest limb of the prime,
-- `bn_subi` is `a + prime - b` modulo what the limbs hold, normalized, though `val[0] - b` may wrap.
pub bn_subi-value :
    (x b z : ℕ) (xs zs : Bignum256)
    → length xs ≡ length zs
    → IsNormalized (x ∷ xs)
    → IsNormalized (z ∷ zs)
    → b ≤ z
    → (value (bn_subi (x ∷ xs) b (z ∷ zs))
        ≡ (value (x ∷ xs) + value (z ∷ zs) - b) % capacity (length (x ∷ xs)))
      × IsNormalized (bn_subi (x ∷ xs) b (z ∷ zs))
unfolding bn_subi bn_add add_limbs
bn_subi-value x b z xs zs e ha hz le =
    let t : ℕ = u32 (0 + u32 (u32 (x + 2 ^ 32 - b) + z)) in
    let exact : t ≡ x + z - b = omega arith in
    let rest = add_limbs_lem (t >>> 30) xs zs e ha.1 hz.1 (omega arith) in
    (
      emit_limb t (value xs + value zs) (capacity (length xs)) _ _ (capacity_pos (length xs))
          (omega arith) (rest.0 ∙ ap (λ (n : ℕ). n % capacity (length xs)) (omega arith)),
      (limb_small t, rest.1),
    )
