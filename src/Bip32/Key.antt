-- ===== src/Bip32/Key.antt =====
-- The keys that ios/Classes/bip32.c accepts and computes, as numbers.
use ether_flutter_plugin.Prelude.{
  ℕ, ◌+◌, ◌%◌, ◌^◌, ◌<◌, ◌≤◌, ◌≡◌, ◌≢◌, ◌⊎◌, inl, inr, ◌∙◌, refl, sym, ap, Bool, true, false, List,
  none, some, Bool-cases, length, take, arith, length-take,
}
use native.Mathlib.Nat.{mod-lt}
use ether_flutter_plugin.Prelude.Bytes.{IsBytes, be_value, be_bytes, IsBytes-take}
use ether_flutter_plugin.Prelude.BigEndian.{be_bytes_unique}
use ether_flutter_plugin.Sha2.Digest.{length-sha512_final, get_or-sha512_final}
use ether_flutter_plugin.Hmac.{hmac_sha512, hmac_sha512_init, hmac_sha512_update, hmac_sha512_final}
use ether_flutter_plugin.Sha2.Sha512.{Sha512Context, sha512_init, sha512_update, sha512_final}
use ether_flutter_plugin.Base58.Check.Passes.{IsBytes-each}
use ether_flutter_plugin.Bignum.Value.{Bignum256, value, IsNormalized}
use ether_flutter_plugin.Bignum.Bytes.{bn_read_be, bn_write_be}
use ether_flutter_plugin.Bignum.Bytes.Read.{bn_read_be-value}
use ether_flutter_plugin.Bignum.Bytes.Write.{bn_write_be-value, length-bn_read_be}
use ether_flutter_plugin.Bignum.Compare.{bn_is_zero, bn_is_less}
use ether_flutter_plugin.Bignum.Compare.Order.{bn_is_less_iff}
use ether_flutter_plugin.Bignum.Compare.Select.{bn_is_zero_iff}
use ether_flutter_plugin.Bignum.Reduce.{bn_mod, bn_addmod}
use ether_flutter_plugin.Bignum.Reduce.Lengths.{length-bn_addmod, length-bn_mod}
use ether_flutter_plugin.Bignum.Reduce.FastMod.{IsModulus}
use ether_flutter_plugin.Bignum.Reduce.Modular.{bn_mod-value, bn_addmod-value}
use ether_flutter_plugin.Bip32.{EcdsaCurve, secp256k1, child_key}

abbrev outer_context : List ℕ → List ℕ → Sha512Context
outer_context key msg =
    let c = hmac_sha512_update (hmac_sha512_init key) msg in
    sha512_update (sha512_update sha512_init c.o_key_pad) (sha512_final c.ctx)

pub length-hmac_sha512 : (key msg : List ℕ) → length (hmac_sha512 key msg) ≡ 64
unfolding hmac_sha512 hmac_sha512_final
length-hmac_sha512 key msg = length-sha512_final (outer_context key msg)

pub hmac_sha512-IsBytes : (key msg : List ℕ) → IsBytes (hmac_sha512 key msg)
unfolding hmac_sha512 hmac_sha512_final
hmac_sha512-IsBytes key msg =
    IsBytes-each (hmac_sha512 key msg) (get_or-sha512_final (outer_context key msg))

pub secp256k1-IsModulus : IsModulus secp256k1.order
unfolding secp256k1
secp256k1-IsModulus = record {
  limbs = refl;
  normal = omega arith;
  lower = omega arith;
  upper = omega arith;
}

-- The sum of two numbers modulo the order, as the code computes it.
record IsSum (n s : ℕ) (sum : Bignum256) : Type 0 where
  limbs : length sum ≡ 9
  normal : IsNormalized sum
  exact : value sum ≡ s % n

sum_lem :
    (p : EcdsaCurve) (a b : Bignum256)
    → IsModulus p.order
    → length a ≡ 9
    → length b ≡ 9
    → IsNormalized a
    → IsNormalized b
    → IsSum (value p.order) (value b + value a) (bn_mod (bn_addmod b a p.order) p.order)
sum_lem p a b hp ea eb ha hb =
    let n = p.order in
    let s = bn_addmod-value b a n eb ea hb ha hp in
    let len : length (bn_addmod b a n) ≡ 9 =
      omega (arith, length-bn_addmod b a n (omega (arith, hp.limbs)), hp.limbs) in
    let m = bn_mod-value (bn_addmod b a n) n len hp.limbs s.1 hp.normal s.2 in
    record {
      limbs = length-bn_mod (bn_addmod b a n) n (omega (arith, hp.limbs)) ∙ hp.limbs;
      normal = m.1;
      exact = m.0 ∙ s.0;
    }

pub not_true {ℓ} : {P : Type ℓ} {t : Bool} → (t ≡ true → P) → ¬ P → t ≡ false
not_true {t = true} f h = absurd (h (f refl))
not_true {t = false} f h = refl

-- A digest half below the order with a sum that is not 0 gives the sum modulo the order, in 32 bytes.
pub child_key-some :
    (p : EcdsaCurve) (a b : Bignum256)
    → IsModulus p.order
    → length a ≡ 9
    → length b ≡ 9
    → IsNormalized a
    → IsNormalized b
    → value b < value p.order
    → (value b + value a) % value p.order ≢ 0
    → child_key p a b ≡ some (be_bytes 32 ((value b + value a) % value p.order))
unfolding child_key
child_key-some p a b hp ea eb ha hb less ne =
    let s = sum_lem p a b hp ea eb ha hb in
    let sum = bn_mod (bn_addmod b a p.order) p.order in
    let below : bn_is_less b p.order ≡ true =
      (bn_is_less_iff b p.order (omega (arith, hp.limbs)) (omega arith) hb hp.normal).1 less in
    let nonzero : bn_is_zero sum ≡ false =
      not_true (bn_is_zero_iff sum).0 (λ z. ne (omega (arith, s.exact))) in
    let small : value sum < 2 ^ 256 =
      omega
        (arith, s.exact, hp.upper, mod-lt (value b + value a) {m = value p.order} (omega arith)) in
    let w = bn_write_be-value sum s.limbs s.normal small in
    rw (below, nonzero)
      (ap some (
        sym (
          be_bytes_unique 32 ((value b + value a) % value p.order) (bn_write_be sum) w.1 w.2
            (w.0 ∙ s.exact))))

-- Otherwise the round fails.
pub child_key-none :
    (p : EcdsaCurve) (a b : Bignum256)
    → IsModulus p.order
    → length a ≡ 9
    → length b ≡ 9
    → IsNormalized a
    → IsNormalized b
    → (value p.order ≤ value b) ⊎ ((value b + value a) % value p.order ≡ 0)
    → child_key p a b ≡ none
unfolding child_key
child_key-none p a b hp ea eb ha hb (inl above) =
    let less = bn_is_less_iff b p.order (omega (arith, hp.limbs)) (omega arith) hb hp.normal in
    let over : bn_is_less b p.order ≡ false = not_true less.0 (λ h. omega arith) in rw over refl
child_key-none p a b hp ea eb ha hb (inr zero_sum) =
    let s = sum_lem p a b hp ea eb ha hb in
    let sum = bn_mod (bn_addmod b a p.order) p.order in
    let nothing : bn_is_zero sum ≡ true = (bn_is_zero_iff sum).1 (s.exact ∙ zero_sum) in
    elim (Bool-cases (bn_is_less b p.order)) [
      | inl below ↦ rw (below, nothing) refl
      | inr over ↦ rw over refl
    ]

-- The first half of a digest as the numbers of `bignum256`.
pub record IsHalf (digest : List ℕ) : Type 0 where
  pub limbs : length (bn_read_be (take 32 digest)) ≡ 9
  pub normal : IsNormalized (bn_read_be (take 32 digest))
  pub exact : value (bn_read_be (take 32 digest)) ≡ be_value 0 (take 32 digest)

pub half_lem : (digest : List ℕ) → length digest ≡ 64 → IsBytes digest → IsHalf digest
half_lem digest e h =
    let read =
      bn_read_be-value (take 32 digest) (length-take 32 digest ∙ omega arith)
        (IsBytes-take 32 digest h) in
    record { limbs = length-bn_read_be (take 32 digest); normal = read.1; exact = read.0 }
