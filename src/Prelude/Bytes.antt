-- ===== src/Prelude/Bytes.antt =====
-- Byte strings and the numbers that they stand for.
use Prim.Native.Nat.{ℕ, zero, suc, ◌+◌, ◌*◌, ◌/◌, ◌%◌, ◌^◌, ◌<◌}
use mathlib.Core.Path.{◌≡◌, refl}
use mathlib.Core.List.{List, [], ◌∷◌, ◌++◌}
use native.Mathlib.Omega.{arith}
use ether_flutter_plugin.Prelude.Lists.{length, take, drop, replicate}

abbrev pub IsBytes : List ℕ → Type 0
IsBytes [] = Unit {0}
IsBytes (b ∷ bs) = (b < 256) × IsBytes bs

-- A byte string as a number, the highest byte first: `acc` stands before it.
abbrev pub be_value : ℕ → List ℕ → ℕ
be_value acc [] = acc
be_value acc (b ∷ bs) = be_value (256 * acc + b) bs

-- The lowest byte first.
abbrev pub le_value : List ℕ → ℕ
le_value [] = 0
le_value (b ∷ bs) = b + 256 * le_value bs

-- The n lowest bytes of a number, the highest first.
abbrev pub be_bytes : ℕ → ℕ → List ℕ
be_bytes zero w = []
be_bytes (suc n) w = w / 256 ^ n % 256 ∷ be_bytes n w

-- `count` words of n bytes each.
abbrev pub be_words : ℕ → ℕ → List ℕ → List ℕ
be_words n zero bytes = []
be_words n (suc count) bytes = be_value 0 (take n bytes) ∷ be_words n count (drop n bytes)

abbrev pub AllBelow : ℕ → List ℕ → Type 0
AllBelow m [] = Unit {0}
AllBelow m (x ∷ xs) = (x < m) × AllBelow m xs

pub IsBytes-take : (n : ℕ) (bs : List ℕ) → IsBytes bs → IsBytes (take n bs)
IsBytes-take zero bs h = tt
IsBytes-take (suc n) [] h = tt
IsBytes-take (suc n) (b ∷ bs) h = (h.0, IsBytes-take n bs h.1)

pub IsBytes-drop : (n : ℕ) (bs : List ℕ) → IsBytes bs → IsBytes (drop n bs)
IsBytes-drop zero bs h = h
IsBytes-drop (suc n) [] h = tt
IsBytes-drop (suc n) (b ∷ bs) h = IsBytes-drop n bs h.1

pub IsBytes-append : (xs ys : List ℕ) → IsBytes xs → IsBytes ys → IsBytes (xs ++ ys)
IsBytes-append [] ys h k = k
IsBytes-append (x ∷ xs) ys h k = (h.0, IsBytes-append xs ys h.1 k)

pub IsBytes-replicate : (n b : ℕ) → b < 256 → IsBytes (replicate n b)
IsBytes-replicate zero b h = tt
IsBytes-replicate (suc n) b h = (h, IsBytes-replicate n b h)

pub IsBytes-be_bytes : (n w : ℕ) → IsBytes (be_bytes n w)
IsBytes-be_bytes zero w = tt
IsBytes-be_bytes (suc n) w = (omega arith, IsBytes-be_bytes n w)

pub length-be_bytes : (n w : ℕ) → length (be_bytes n w) ≡ n
length-be_bytes zero w = refl
length-be_bytes (suc n) w = omega (arith, length-be_bytes n w)
