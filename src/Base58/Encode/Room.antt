-- ===== src/Base58/Encode/Room.antt =====
-- The buffer of `b58enc` in ios/Classes/base58.c has enough digits: 138 / 100 is above
-- log 256 / log 58.
use ether_flutter_plugin.Prelude.{
  ℕ, zero, suc, ◌+◌, ◌*◌, ◌/◌, ◌%◌, ◌^◌, ◌<◌, ◌≤◌, ◌≡◌, refl, sym, ap, subst, List, length,
  replicate, Bool, true, leb, ◌&&◌, leb_iff, ◌==◌, ==_iff, Bool-cases, inl, inr, false, arith,
}
use ether_flutter_plugin.Prelude.Bytes.{IsBytes, be_value, AllBelow}
use ether_flutter_plugin.Prelude.Powers.{pow_add}
use native.Mathlib.Nat.{mul-le-mul, pow-suc}
use ether_flutter_plugin.Prelude.BigEndian.{be_value-lt_pow}
use ether_flutter_plugin.Base58.Encode.Carry.{room, ZeroFrom}

pub room-replicate : (n : ℕ) → room (replicate n 0) ≡ 58 ^ n
room-replicate zero = refl
room-replicate (suc n) = omega (arith, room-replicate n, pow-suc 58 n)

pub zeros-AllBelow : (n : ℕ) → AllBelow 58 (replicate n 0)
zeros-AllBelow zero = tt
zeros-AllBelow (suc n) = (omega arith, zeros-AllBelow n)

pub zeros-ZeroFrom : (n : ℕ) → ZeroFrom 0 (replicate n 0)
zeros-ZeroFrom zero = tt
zeros-ZeroFrom (suc n) = (refl, zeros-ZeroFrom n)

-- The number of digits for n bytes.
abbrev pub digits_for : ℕ → ℕ
digits_for n = n * 138 / 100 + 1

all_fit : ℕ → Bool
all_fit zero = true
all_fit (suc n) = leb (256 ^ n) (58 ^ digits_for n) && all_fit n

all_fit-le : (n r : ℕ) → all_fit n ≡ true → r < n → 256 ^ r ≤ 58 ^ digits_for r
unfolding all_fit
all_fit-le zero r h lt = absurd (omega arith)
all_fit-le (suc n) r h lt =
    let parts = both (leb (256 ^ n) (58 ^ digits_for n)) (all_fit n) h in
    elim (Bool-cases (r == n)) [
      | inl last ↦
          subst (λ k. 256 ^ k ≤ 58 ^ digits_for k) (sym ((==_iff r n).0 last))
            ((leb_iff (256 ^ n) (58 ^ digits_for n)).0 parts.0)
      | inr before ↦ all_fit-le n r parts.1 (smaller before)
    ]
  where
    both : (a b : Bool) → (a && b) ≡ true → (a ≡ true) × (b ≡ true)
    both a b e = ground arith

    smaller : (r == n) ≡ false → r < n
    smaller e = ground arith

first_fifty : all_fit 50 ≡ true
unfolding all_fit
first_fifty = refl

-- 50 bytes more need 69 digits more.
fifty_more : (k r : ℕ) → r < 50 → 256 ^ (50 * k + r) ≤ 58 ^ digits_for (50 * k + r)
fifty_more zero r h =
    subst (λ k. 256 ^ k ≤ 58 ^ digits_for k) {x = r} {y = 50 * 0 + r} (omega arith)
      (all_fit-le 50 r first_fifty h)
fifty_more (suc k) r h =
    let n : ℕ = 50 * k + r in
    let fits : 256 ^ n * 256 ^ 50 ≤ 58 ^ digits_for n * 58 ^ 69 =
      mul-le-mul {n₂ = 58 ^ digits_for n} {m₂ = 58 ^ 69} (fifty_more k r h) (omega arith) in
    omega (
      arith,
      fits,
      pow_add 256 n 50,
      pow_add 58 (digits_for n) 69,
      ap (λ (t : ℕ). 256 ^ t) {x = 50 * suc k + r} {y = n + 50} (omega arith),
      ap (λ (t : ℕ). 58 ^ t) {x = digits_for (50 * suc k + r)} {y = digits_for n + 69}
          (omega arith),
    )

-- The number of n bytes has no more than `digits_for n` digits.
pub be_value-lt_digits :
    (bytes : List ℕ) → IsBytes bytes → be_value 0 bytes < 58 ^ digits_for (length bytes)
be_value-lt_digits bytes h =
    let n : ℕ = length bytes in
    let split : 50 * (n / 50) + n % 50 ≡ n = omega arith in
    let fits = fifty_more (n / 50) (n % 50) (omega arith) in
    let same : 256 ^ (50 * (n / 50) + n % 50) ≡ 256 ^ n = ap (λ (t : ℕ). 256 ^ t) split in
    let digits : 58 ^ digits_for (50 * (n / 50) + n % 50) ≡ 58 ^ digits_for n =
      ap (λ (t : ℕ). 58 ^ digits_for t) split in
    omega (arith, be_value-lt_pow 0 bytes h, fits, same, digits)
