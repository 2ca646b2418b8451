-- ===== src/Prelude/Masks.antt =====
-- Masks of neighbouring bits that do not begin at the lowest.
use Prim.Native.Nat.{ℕ, ◌+◌, ◌-◌, ◌*◌, ◌/◌, ◌%◌, ◌^◌, bit_and}
use mathlib.Core.Path.{◌≡◌, ap₂, ◌∙◌, sym}
use native.Mathlib.Omega.{arith}
use native.Mathlib.Nat.{div-add-mod', mod-lt}
use ether_flutter_plugin.Prelude.Bits.{bit_and_fields, bit_and_mask, bit_and-zero, pow_pos}

-- The m bits from bit k on.
pub bit_and_high : (k m t : ℕ) → bit_and t ((2 ^ m - 1) * 2 ^ k) ≡ t / 2 ^ k % 2 ^ m * 2 ^ k
bit_and_high k m t =
    let low : ℕ = t % 2 ^ k in
    let split : t ≡ t / 2 ^ k * 2 ^ k + low = sym (div-add-mod' t (2 ^ k)) in
    let padded : (2 ^ m - 1) * 2 ^ k ≡ (2 ^ m - 1) * 2 ^ k + 0 = omega arith in
    ap₂ bit_and split padded
    ∙ bit_and_fields k (t / 2 ^ k) (2 ^ m - 1) low 0 (mod-lt t (pow_pos k)) (pow_pos k)
    ∙ ap₂ (λ (a b : ℕ). a * 2 ^ k + b) (bit_and_mask m (t / 2 ^ k)) (bit_and-zero low)
    ∙ omega arith
