-- ===== src/Sha2/Pieces.antt =====
-- The two algorithms keep the streaming invariant.
use ether_flutter_plugin.Prelude.{
  ℕ, zero, suc, ◌+◌, ◌*◌, ◌^◌, ◌<◌, ◌≡◌, ◌∙◌, refl, ap, List, [], ◌∷◌, ◌++◌, length, length-append,
  length-map, arith, replicate, subst, sym, append-nil, append_assoc,
}
use ether_flutter_plugin.Sha2.Memory.{store_word, store_words, load_words, reverse32, reverse64}
use ether_flutter_plugin.Sha2.Constants.{sha256_initial_hash_value, sha512_initial_hash_value}
use ether_flutter_plugin.Sha2.Stream.{IsEngine}
use ether_flutter_plugin.Sha2.Stream.Absorb.{Absorbed, absorb, update-Absorbed}
use ether_flutter_plugin.Sha2.Sha256.{
  reversed_words256, engine256, Sha256Context, sha256_init, sha256_update,
}
use ether_flutter_plugin.Sha2.Sha512.{
  reversed_words512, engine512, Sha512Context, sha512_init, sha512_update,
}

length-store_word : (n w : ℕ) → length (store_word n w) ≡ n
unfolding store_word
length-store_word zero w = refl
length-store_word (suc n) w = ap suc (length-store_word n _)

pub length-store_words : (n : ℕ) (ws : List ℕ) → length (store_words n ws) ≡ n * length ws
unfolding store_words
length-store_words n [] = omega arith
length-store_words n (w ∷ ws) =
    length-append (store_word n w) (store_words n ws)
    ∙ omega (arith, length-store_word n w, length-store_words n ws)

length-load_words : (n count : ℕ) (bytes : List ℕ) → length (load_words n count bytes) ≡ count
unfolding load_words
length-load_words n zero bytes = refl
length-load_words n (suc count) bytes = ap suc (length-load_words n count _)

pub engine256-IsEngine : IsEngine engine256
unfolding engine256
engine256-IsEngine = record {
  block_pos = omega arith;
  used-start = λ n h. omega arith;
  add-add = λ m n h. omega arith;
  length-reversed = λ b h.
      length-store_words 4 (reversed_words256 b)
      ∙ ap (λ (n : ℕ). 4 * n) (length-map (load_words 4 16 b) reverse32 ∙ length-load_words 4 16 b);
}

pub engine512-IsEngine : IsEngine engine512
unfolding engine512
engine512-IsEngine = record {
  block_pos = omega arith;
  used-start = λ n h. omega arith;
  add-add = λ m n h. ground arith;
  length-reversed = λ b h.
      length-store_words 8 (reversed_words512 b)
      ∙ ap (λ (n : ℕ). 8 * n) (length-map (load_words 8 16 b) reverse64 ∙ length-load_words 8 16 b);
}

sha256_init-Absorbed : Absorbed engine256 sha256_initial_hash_value [] sha256_init
unfolding sha256_init engine256 absorb
sha256_init-Absorbed = record {
  blocks = 0;
  full = [];
  rest = [];
  stale = replicate 64 0;
  split = refl;
  length-full = refl;
  short = omega arith;
  state_lem = refl;
  count_lem = refl;
  buffer_lem = refl;
  length-buffer = refl;
}

sha512_init-Absorbed : Absorbed engine512 sha512_initial_hash_value [] sha512_init
unfolding sha512_init engine512 absorb
sha512_init-Absorbed = record {
  blocks = 0;
  full = [];
  rest = [];
  stale = replicate 128 0;
  split = refl;
  length-full = refl;
  short = omega arith;
  state_lem = refl;
  count_lem = refl;
  buffer_lem = refl;
  length-buffer = refl;
}

-- The pieces one after the other.
abbrev pub joined : List (List ℕ) → List ℕ
joined [] = []
joined (p ∷ ps) = p ++ joined ps

-- The pieces are passed to `sha256_update` in order.
abbrev pub feed256 : Sha256Context → List (List ℕ) → Sha256Context
feed256 c [] = c
feed256 c (p ∷ ps) = feed256 (sha256_update c p) ps

abbrev pub feed512 : Sha512Context → List (List ℕ) → Sha512Context
feed512 c [] = c
feed512 c (p ∷ ps) = feed512 (sha512_update c p) ps

feed256-Absorbed :
    (ps : List (List ℕ)) (input : List ℕ) (c : Sha256Context)
    → Absorbed engine256 sha256_initial_hash_value input c
    → length input + length (joined ps) < 2 ^ 61
    → Absorbed engine256 sha256_initial_hash_value (input ++ joined ps) (feed256 c ps)
unfolding sha256_update
feed256-Absorbed [] input c a h =
    subst (λ i. Absorbed engine256 sha256_initial_hash_value i c) (sym (append-nil input)) a
feed256-Absorbed (p ∷ ps) input c a h =
    let sizes = length-append p (joined ps) in
    let next =
      update-Absorbed engine256 engine256-IsEngine sha256_initial_hash_value input p c a
        (omega arith) in
    let rest =
      feed256-Absorbed ps (input ++ p) (sha256_update c p) next
        (omega (arith, length-append input p)) in
    subst (λ i. Absorbed engine256 sha256_initial_hash_value i (feed256 (sha256_update c p) ps))
      (append_assoc input p (joined ps)) rest

feed512-Absorbed :
    (ps : List (List ℕ)) (input : List ℕ) (c : Sha512Context)
    → Absorbed engine512 sha512_initial_hash_value input c
    → length input + length (joined ps) < 2 ^ 61
    → Absorbed engine512 sha512_initial_hash_value (input ++ joined ps) (feed512 c ps)
unfolding sha512_update
feed512-Absorbed [] input c a h =
    subst (λ i. Absorbed engine512 sha512_initial_hash_value i c) (sym (append-nil input)) a
feed512-Absorbed (p ∷ ps) input c a h =
    let sizes = length-append p (joined ps) in
    let next =
      update-Absorbed engine512 engine512-IsEngine sha512_initial_hash_value input p c a
        (omega arith) in
    let rest =
      feed512-Absorbed ps (input ++ p) (sha512_update c p) next
        (omega (arith, length-append input p)) in
    subst (λ i. Absorbed engine512 sha512_initial_hash_value i (feed512 (sha512_update c p) ps))
      (append_assoc input p (joined ps)) rest

-- However a message below 2^61 bytes is cut into pieces, after `sha256_init` and a `sha256_update`
-- for each piece in order the state is what the full 64-byte blocks of the message make of the
-- initial hash value, the buffer begins with the bytes behind them, and the counter counts the
-- bits of the message.
pub feed256-sha256_init :
    (pieces : List (List ℕ))
    → length (joined pieces) < 2 ^ 61
    → Absorbed engine256 sha256_initial_hash_value (joined pieces) (feed256 sha256_init pieces)
feed256-sha256_init pieces h =
    feed256-Absorbed pieces [] sha256_init sha256_init-Absorbed (omega arith)

-- However a message below 2^61 bytes is cut into pieces, after `sha512_init` and a `sha512_update`
-- for each piece in order the state is what the full 128-byte blocks of the message make of the
-- initial hash value, the buffer begins with the bytes behind them, and the counter counts the
-- bits of the message.
pub feed512-sha512_init :
    (pieces : List (List ℕ))
    → length (joined pieces) < 2 ^ 61
    → Absorbed engine512 sha512_initial_hash_value (joined pieces) (feed512 sha512_init pieces)
feed512-sha512_init pieces h =
    feed512-Absorbed pieces [] sha512_init sha512_init-Absorbed (omega arith)
