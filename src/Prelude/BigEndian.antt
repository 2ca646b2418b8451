-- ===== src/Prelude/BigEndian.antt =====
-- Byte strings against the numbers that they stand for, the highest byte first.
use Prim.Native.Nat.{ℕ, ◌+◌, ◌*◌, ◌/◌, ◌^◌, ◌<◌, ◌≤◌}
use mathlib.Core.Path.{◌≡◌, refl, sym, ap, ap₂, ◌∙◌}
use mathlib.Core.List.{List, [], ◌∷◌}
use native.Mathlib.Omega.{arith}
use native.Mathlib.Nat.{pow-zero, pow-suc, mul-le-mul, add-mul-div_right, div-eq_of_lt, one-le-pow}
use ether_flutter_plugin.Prelude.Lists.{length}
use ether_flutter_plugin.Prelude.Bytes.{IsBytes, be_value, be_bytes}

pub be_value-ge : (acc : ℕ) (bytes : List ℕ) → acc ≤ be_value acc bytes
be_value-ge acc [] = omega arith
be_value-ge acc (b ∷ bytes) = omega (arith, be_value-ge (256 * acc + b) bytes)

pub be_value-lt_pow :
    (acc : ℕ) (bytes : List ℕ) → IsBytes bytes → be_value acc bytes < (acc + 1) * 256 ^ length bytes
be_value-lt_pow acc [] h = omega (arith, pow-zero 256)
be_value-lt_pow acc (b ∷ bytes) h =
    let rest = be_value-lt_pow (256 * acc + b) bytes h.1 in
    let p : ℕ = 256 ^ length bytes in
    let grow : (256 * acc + b + 1) * p ≤ (256 * acc + 256) * p =
      mul-le-mul {n₂ = 256 * acc + 256} {m₂ = p} (omega (arith, h.0)) (omega arith) in
    omega (arith, rest, grow, ap (λ (t : ℕ). (acc + 1) * t) (pow-suc 256 (length bytes)))

pub be_value_split :
    (acc : ℕ) (bytes : List ℕ) → be_value acc bytes ≡ acc * 256 ^ length bytes + be_value 0 bytes
be_value_split acc [] = omega (arith, pow-zero 256, ap (λ (t : ℕ). acc * t) (pow-zero 256))
be_value_split acc (b ∷ bytes) =
    let p : ℕ = 256 ^ length bytes in
    omega (
      arith,
      be_value_split (256 * acc + b) bytes,
      be_value_split (256 * 0 + b) bytes,
      ap (λ (t : ℕ). acc * t) (pow-suc 256 (length bytes)),
    )

-- The bytes of the number of a byte string, whatever stands before it.
pub be_bytes-be_value :
    (acc : ℕ) (bytes : List ℕ)
    → IsBytes bytes
    → be_bytes (length bytes) (be_value acc bytes) ≡ bytes
be_bytes-be_value acc [] h = refl
be_bytes-be_value acc (b ∷ bytes) h =
    let p : ℕ = 256 ^ length bytes in
    let pos : 0 < p = one-le-pow (length bytes) 256 (omega arith) in
    let small : be_value 0 bytes < p = omega (arith, be_value-lt_pow 0 bytes h.1) in
    let split : be_value (256 * acc + b) bytes ≡ be_value 0 bytes + (256 * acc + b) * p =
      omega (arith, be_value_split (256 * acc + b) bytes) in
    let quot : be_value (256 * acc + b) bytes / p ≡ 256 * acc + b =
      ap (λ (t : ℕ). t / p) split
      ∙ add-mul-div_right (be_value 0 bytes) (256 * acc + b) pos
      ∙ omega (arith, div-eq_of_lt small) in
    ap₂ (λ x xs. x ∷ xs) (omega (arith, quot, h.0)) (be_bytes-be_value (256 * acc + b) bytes h.1)

-- Bytes of the same number, as many of them.
pub be_bytes_unique :
    (n v : ℕ) (bytes : List ℕ)
    → IsBytes bytes
    → length bytes ≡ n
    → be_value 0 bytes ≡ v
    → be_bytes n v ≡ bytes
be_bytes_unique n v bytes h len e = sym (ap₂ be_bytes len e) ∙ be_bytes-be_value 0 bytes h
