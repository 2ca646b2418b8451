-- ===== src/Base58/Digits.antt =====
-- The digits of ios/Classes/base58.c and the numbers that they stand for.
use ether_flutter_plugin.Prelude.{
  ℕ, suc, ◌+◌, ◌*◌, List, [], ◌∷◌, Option, none, some, ◌==◌, if◌then◌else◌, get_or, bit_and,
}

-- -1 is `none`.
unfoldable pub b58digits_map : List (Option ℕ)
b58digits_map =
    none
    ∷ none
    ∷ none
    ∷ none
    ∷ none
    ∷ none
    ∷ none
    ∷ none
    ∷ none
    ∷ none
    ∷ none
    ∷ none
    ∷ none
    ∷ none
    ∷ none
    ∷ none
    ∷ none
    ∷ none
    ∷ none
    ∷ none
    ∷ none
    ∷ none
    ∷ none
    ∷ none
    ∷ none
    ∷ none
    ∷ none
    ∷ none
    ∷ none
    ∷ none
    ∷ none
    ∷ none
    ∷ none
    ∷ none
    ∷ none
    ∷ none
    ∷ none
    ∷ none
    ∷ none
    ∷ none
    ∷ none
    ∷ none
    ∷ none
    ∷ none
    ∷ none
    ∷ none
    ∷ none
    ∷ none
    ∷ none
    ∷ some 0
    ∷ some 1
    ∷ some 2
    ∷ some 3
    ∷ some 4
    ∷ some 5
    ∷ some 6
    ∷ some 7
    ∷ some 8
    ∷ none
    ∷ none
    ∷ none
    ∷ none
    ∷ none
    ∷ none
    ∷ none
    ∷ some 9
    ∷ some 10
    ∷ some 11
    ∷ some 12
    ∷ some 13
    ∷ some 14
    ∷ some 15
    ∷ some 16
    ∷ none
    ∷ some 17
    ∷ some 18
    ∷ some 19
    ∷ some 20
    ∷ some 21
    ∷ none
    ∷ some 22
    ∷ some 23
    ∷ some 24
    ∷ some 25
    ∷ some 26
    ∷ some 27
    ∷ some 28
    ∷ some 29
    ∷ some 30
    ∷ some 31
    ∷ some 32
    ∷ none
    ∷ none
    ∷ none
    ∷ none
    ∷ none
    ∷ none
    ∷ some 33
    ∷ some 34
    ∷ some 35
    ∷ some 36
    ∷ some 37
    ∷ some 38
    ∷ some 39
    ∷ some 40
    ∷ some 41
    ∷ some 42
    ∷ some 43
    ∷ none
    ∷ some 44
    ∷ some 45
    ∷ some 46
    ∷ some 47
    ∷ some 48
    ∷ some 49
    ∷ some 50
    ∷ some 51
    ∷ some 52
    ∷ some 53
    ∷ some 54
    ∷ some 55
    ∷ some 56
    ∷ some 57
    ∷ none
    ∷ none
    ∷ none
    ∷ none
    ∷ none
    ∷ []

unfoldable pub b58digits_ordered : List ℕ
b58digits_ordered =
    b'1' ∷ b'2' ∷ b'3' ∷ b'4' ∷ b'5' ∷ b'6' ∷ b'7' ∷ b'8' ∷ b'9' ∷ b'A' ∷ b'B' ∷ b'C' ∷ b'D' ∷ b'E'
    ∷ b'F' ∷ b'G' ∷ b'H' ∷ b'J' ∷ b'K' ∷ b'L' ∷ b'M' ∷ b'N' ∷ b'P' ∷ b'Q' ∷ b'R' ∷ b'S' ∷ b'T'
    ∷ b'U' ∷ b'V' ∷ b'W' ∷ b'X' ∷ b'Y' ∷ b'Z' ∷ b'a' ∷ b'b' ∷ b'c' ∷ b'd' ∷ b'e' ∷ b'f' ∷ b'g'
    ∷ b'h' ∷ b'i' ∷ b'j' ∷ b'k' ∷ b'm' ∷ b'n' ∷ b'o' ∷ b'p' ∷ b'q' ∷ b'r' ∷ b's' ∷ b't' ∷ b'u'
    ∷ b'v' ∷ b'w' ∷ b'x' ∷ b'y' ∷ b'z' ∷ []

-- The digit of a character: none if its high bit is set or the map has -1.
unfoldable pub digit_of : ℕ → Option ℕ
unfolding b58digits_map
digit_of c = if bit_and c 0x80 == 0 then get_or b58digits_map c none else none

unfoldable pub char_of : ℕ → ℕ
unfolding b58digits_ordered
char_of d = get_or b58digits_ordered d 0

-- The number of elements at the front that are `a`, and the list behind them.
unfoldable pub count_front : ℕ → List ℕ → ℕ
count_front a [] = 0
count_front a (x ∷ xs) = if x == a then suc (count_front a xs) else 0

unfoldable pub skip_front : ℕ → List ℕ → List ℕ
skip_front a [] = []
skip_front a (x ∷ xs) = if x == a then skip_front a xs else x ∷ xs

-- Digits in base 58, the highest first: `acc` stands before them.
abbrev pub value58 : ℕ → List ℕ → ℕ
value58 acc [] = acc
value58 acc (d ∷ ds) = value58 (58 * acc + d) ds
