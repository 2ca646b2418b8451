-- ===== src/Bip39/Wordlist.antt =====
-- `wordlist` of ios/Classes/bip39_english.h: the 2048 English words, each as its character codes.
pub mod AToB
pub mod CToD
pub mod EToH
pub mod IToP
pub mod QToS
pub mod TToZ
use Prim.Native.Char.{code}
use Prim.Native.String.{String}
use mathlib.Core.List.{map, flatten}
use ether_flutter_plugin.Prelude.{ℕ, List, [], ◌∷◌}
use AToB.{words_a, words_b}
use CToD.{words_c_low, words_c_high, words_d}
use EToH.{words_e, words_f, words_g, words_h}
use IToP.{words_i, words_j, words_k, words_l, words_m, words_n, words_o, words_p}
use QToS.{words_q, words_r, words_s_low, words_s_high}
use TToZ.{words_t, words_u, words_v, words_w, words_y, words_z}

-- The characters of a C string before its terminating zero.
abbrev pub codes : String → List ℕ
codes String.[] = []
codes (String.◌∷◌ c s) = code c ∷ codes s

unfoldable pub wordlist : List (List ℕ)
unfolding flatten words_a words_b words_c_low words_c_high words_d words_e words_f words_g words_h
    words_i words_j words_k words_l words_m words_n words_o words_p words_q words_r words_s_low
    words_s_high words_t words_u words_v words_w words_y words_z
wordlist = map codes (
    flatten (
      words_a ∷ words_b ∷ words_c_low ∷ words_c_high ∷ words_d ∷ words_e ∷ words_f ∷ words_g
      ∷ words_h ∷ words_i ∷ words_j ∷ words_k ∷ words_l ∷ words_m ∷ words_n ∷ words_o ∷ words_p
      ∷ words_q ∷ words_r ∷ words_s_low ∷ words_s_high ∷ words_t ∷ words_u ∷ words_v ∷ words_w
      ∷ words_y ∷ words_z ∷ []))
