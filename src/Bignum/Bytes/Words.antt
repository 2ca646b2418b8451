-- ===== src/Bignum/Bytes/Words.antt =====
-- `read_be`, `write_be` and their little-endian kin, and the numbers that byte strings stand for.
use ether_flutter_plugin.Prelude.{
  ℕ, zero, suc, get_or, ◌+◌, ◌*◌, ◌/◌, ◌^◌, ◌<◌, ◌≡◌, ◌∙◌, refl, List, [], ◌∷◌, ◌++◌, arith, bit_or,
  u8, u32, ◌<<<◌,
}
use ether_flutter_plugin.Prelude.Bits.{bit_or_sum}
pub use ether_flutter_plugin.Prelude.Bytes.{IsBytes, be_value, le_value}
use ether_flutter_plugin.Bignum.Bytes.{read_be, write_be, read_le, write_le}

-- Four bytes into a word, the highest first.
join :
    (a b c d : ℕ)
    → a < 256
    → b < 256
    → c < 256
    → d < 256
    → bit_or (bit_or (bit_or (u32 (a <<< 24)) (u32 (b <<< 16))) (u32 (c <<< 8))) d
      ≡ ((a * 256 + b) * 256 + c) * 256 + d
join a b c d ha hb hc hd =
    let two =
      bit_or_sum 24 a (b * 2 ^ 16) {x = u32 (a <<< 24)} {y = u32 (b <<< 16)} (omega arith)
        (omega arith) (omega arith) in
    let three =
      bit_or_sum 16 (a * 256 + b) (c * 2 ^ 8) {y = u32 (c <<< 8)} (two ∙ omega arith) (omega arith)
        (omega arith) in
    bit_or_sum 8 ((a * 256 + b) * 256 + c) d (three ∙ omega arith) refl (omega arith) ∙ omega arith

-- `read_be` reads the first four bytes, `read_le` the same bytes the other way round.
pub read_be-value :
    (a b c d : ℕ) (rest : List ℕ)
    → IsBytes (a ∷ b ∷ c ∷ d ∷ [])
    → read_be (a ∷ b ∷ c ∷ d ∷ rest) ≡ be_value 0 (a ∷ b ∷ c ∷ d ∷ [])
unfolding read_be
read_be-value a b c d rest h =
    join a b c d (omega arith) (omega arith) (omega arith) (omega arith) ∙ omega arith

pub read_le-value :
    (a b c d : ℕ) (rest : List ℕ)
    → IsBytes (a ∷ b ∷ c ∷ d ∷ [])
    → read_le (a ∷ b ∷ c ∷ d ∷ rest) ≡ le_value (a ∷ b ∷ c ∷ d ∷ [])
unfolding read_le
read_le-value a b c d rest h =
    join d c b a (omega arith) (omega arith) (omega arith) (omega arith) ∙ omega arith

-- `write_be` and `write_le` store a word, and reading gives it back.
pub write_be-value : (w : ℕ) → w < 2 ^ 32 → (be_value 0 (write_be w) ≡ w) × IsBytes (write_be w)
unfolding write_be
write_be-value w h = omega arith

pub write_le-value : (w : ℕ) → w < 2 ^ 32 → (le_value (write_le w) ≡ w) × IsBytes (write_le w)
unfolding write_le
write_le-value w h = omega arith

-- For a 32-bit word, `read_be` of what `write_be` stores is the word, whatever follows in memory.
pub read_be-write_be : (w : ℕ) (rest : List ℕ) → w < 2 ^ 32 → read_be (write_be w ++ rest) ≡ w
unfolding write_be
read_be-write_be w rest h =
    read_be-value (u8 (w / 2 ^ 24)) (u8 (w / 2 ^ 16)) (u8 (w / 2 ^ 8)) (u8 w) rest (omega arith)
    ∙ omega arith

-- For a 32-bit word, `read_le` of what `write_le` stores is the word, whatever follows in memory.
pub read_le-write_le : (w : ℕ) (rest : List ℕ) → w < 2 ^ 32 → read_le (write_le w ++ rest) ≡ w
unfolding write_le
read_le-write_le w rest h =
    read_le-value (u8 w) (u8 (w / 2 ^ 8)) (u8 (w / 2 ^ 16)) (u8 (w / 2 ^ 24)) rest (omega arith)
    ∙ omega arith

get_or-byte : (i : ℕ) (bs : List ℕ) → IsBytes bs → get_or bs i 0 < 256
get_or-byte i [] h = omega arith
get_or-byte zero (b ∷ bs) h = h.0
get_or-byte (suc i) (b ∷ bs) h = get_or-byte i bs h.1

-- What `read_be` and `read_le` return is a uint32_t, whatever the bytes are.
pub read_be-lt : (bs : List ℕ) → IsBytes bs → read_be bs < 2 ^ 32
unfolding read_be
read_be-lt bs h = omega (
  arith,
  join (get_or bs 0 0) (get_or bs 1 0) (get_or bs 2 0) (get_or bs 3 0),
  get_or-byte 0 bs h,
  get_or-byte 1 bs h,
  get_or-byte 2 bs h,
  get_or-byte 3 bs h,
)

pub read_le-lt : (bs : List ℕ) → IsBytes bs → read_le bs < 2 ^ 32
unfolding read_le
read_le-lt bs h = omega (
  arith,
  join (get_or bs 3 0) (get_or bs 2 0) (get_or bs 1 0) (get_or bs 0 0),
  get_or-byte 0 bs h,
  get_or-byte 1 bs h,
  get_or-byte 2 bs h,
  get_or-byte 3 bs h,
)
