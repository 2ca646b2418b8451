-- ===== src/Bip39/Words.antt =====
-- The word list is in order, so that a word is found at its own index; its words are short and
-- hold no space.
use ether_flutter_plugin.Prelude.{
  ℕ, zero, suc, ◌+◌, ◌<◌, ◌≡◌, ◌∙◌, refl, ap, Bool, true, false, ◌&&◌, not, List, [], ◌∷◌, some,
  ltb, leb, ◌==◌, if◌then◌else◌, get_or, length, arith,
}
use ether_flutter_plugin.Bip39.Wordlist.{wordlist}
use ether_flutter_plugin.Bip39.Decode.{same_word, find_word}

-- The order of a dictionary.
abbrev before : List ℕ → List ℕ → Bool
before xs [] = false
before [] (y ∷ ys) = true
before (x ∷ xs) (y ∷ ys) = if ltb x y then true else (x == y && before xs ys)

before_trans : (xs ys zs : List ℕ) → before xs ys ≡ true → before ys zs ≡ true → before xs zs ≡ true
before_trans xs [] zs h k = cc
before_trans xs (y ∷ ys) [] h k = cc
before_trans [] (y ∷ ys) (z ∷ zs) h k = refl
before_trans (x ∷ xs) (y ∷ ys) (z ∷ zs) h k = ground (arith, before_trans xs ys zs)

same_word_refl : (xs : List ℕ) → same_word xs xs ≡ true
unfolding same_word
same_word_refl [] = refl
same_word_refl (x ∷ xs) = ground (arith, same_word_refl xs)

before_differs : (xs ys : List ℕ) → before ys xs ≡ true → same_word xs ys ≡ false
unfolding same_word
before_differs [] ys h = cc
before_differs (x ∷ xs) [] h = refl
before_differs (x ∷ xs) (y ∷ ys) h = ground (arith, before_differs xs ys)

abbrev in_order : List ℕ → List (List ℕ) → Bool
in_order v [] = true
in_order v (w ∷ ws) = before v w && in_order w ws

in_order-before :
    (v : List ℕ) (ws : List (List ℕ)) (i : ℕ)
    → in_order v ws ≡ true
    → i < length ws
    → before v (get_or ws i []) ≡ true
in_order-before v [] i h k = absurd (omega arith)
in_order-before v (w ∷ ws) zero h k = ground arith
in_order-before v (w ∷ ws) (suc i) h k =
    before_trans v w (get_or ws i []) (ground arith)
      (in_order-before w ws i (ground arith) (omega arith))

-- In an ordered list the search finds a word at its own index.
find_word-get :
    (ws : List (List ℕ)) (v : List ℕ) (i k : ℕ)
    → in_order v ws ≡ true
    → i < length (v ∷ ws)
    → find_word (get_or (v ∷ ws) i []) (v ∷ ws) k ≡ some (k + i)
unfolding find_word
find_word-get ws v zero k h e = rw (same_word_refl v) (ap some (omega arith))
find_word-get [] v (suc i) k h e = absurd (omega arith)
find_word-get (w ∷ ws) v (suc i) k h e =
    rw (before_differs (get_or (w ∷ ws) i []) v (in_order-before v (w ∷ ws) i h (omega arith)))
      (find_word-get ws w i (k + 1) (ground arith) (omega arith) ∙ ap some (omega arith))

-- At most 8 characters and at least one, none of them a space.
abbrev pub no_spaces : List ℕ → Bool
no_spaces [] = true
no_spaces (c ∷ cs) = not (c == b' ') && no_spaces cs

abbrev pub plain_word : List ℕ → Bool
plain_word w = (ltb 0 (length w) && leb (length w) 8) && no_spaces w

abbrev all_plain : List (List ℕ) → Bool
all_plain [] = true
all_plain (w ∷ ws) = plain_word w && all_plain ws

all_plain-get :
    (ws : List (List ℕ)) (i : ℕ)
    → all_plain ws ≡ true
    → i < length ws
    → plain_word (get_or ws i []) ≡ true
all_plain-get [] i h k = absurd (omega arith)
all_plain-get (w ∷ ws) zero h k = ground arith
all_plain-get (w ∷ ws) (suc i) h k = all_plain-get ws i (ground arith) (omega arith)

abbrev ordered : List (List ℕ) → Bool
ordered [] = true
ordered (w ∷ ws) = in_order w ws

wordlist-ordered : ordered wordlist ≡ true
unfolding wordlist
wordlist-ordered = refl

all_plain-wordlist : all_plain wordlist ≡ true
unfolding wordlist
all_plain-wordlist = refl

pub length-wordlist : length wordlist ≡ 2048
unfolding wordlist
length-wordlist = refl

find_in :
    (ws : List (List ℕ)) (i : ℕ)
    → ordered ws ≡ true
    → i < length ws
    → find_word (get_or ws i []) ws 0 ≡ some i
find_in [] i h k = absurd (omega arith)
find_in (w ∷ ws) i h k = find_word-get ws w i 0 h k ∙ ap some (omega arith)

-- For an index below 2048, the search finds the word at that index of the word list there.
pub find_word-wordlist : (i : ℕ) → i < 2048 → find_word (get_or wordlist i []) wordlist 0 ≡ some i
find_word-wordlist i h = find_in wordlist i wordlist-ordered (omega (arith, length-wordlist))

pub wordlist-plain : (i : ℕ) → i < 2048 → plain_word (get_or wordlist i []) ≡ true
wordlist-plain i h = all_plain-get wordlist i all_plain-wordlist (omega (arith, length-wordlist))
