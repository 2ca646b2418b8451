-- ===== src/Sha2/Rounds.antt =====
-- The compression functions `sha256_Transform` and `sha512_Transform` of ios/Classes/sha2.c. They
-- differ in the word size, the four sigma functions and the constants, which are parameters here.
use ether_flutter_plugin.Prelude.{
  ℕ, ◌+◌, ◌-◌, ◌%◌, ◌^◌, List, [], ◌∷◌, bit_and, bit_or, bit_xor, ◌<<<◌, ◌>>>◌, get_or, set, take,
  drop,
}
use ether_flutter_plugin.Sha2.Constants.{k256, k512}

-- S32 and S64: rotate x right by b in a word of `width` bits.
unfoldable pub rotate : ℕ → ℕ → ℕ → ℕ
rotate width b x = bit_or (x >>> b) ((x <<< (width - b)) % 2 ^ width)

unfoldable pub ch : ℕ → ℕ → ℕ → ℕ → ℕ
ch width x y z = bit_xor (bit_and x y) (bit_and (2 ^ width - 1 - x) z)

unfoldable pub maj : ℕ → ℕ → ℕ → ℕ
maj x y z = bit_xor (bit_xor (bit_and x y) (bit_and x z)) (bit_and y z)

-- The word size and the logical functions of one of the two algorithms.
pub record Logic : Type 0 where
  pub width : ℕ
  pub upper_sigma0 : ℕ → ℕ
  pub upper_sigma1 : ℕ → ℕ
  pub lower_sigma0 : ℕ → ℕ
  pub lower_sigma1 : ℕ → ℕ

unfoldable pub logic256 : Logic
unfolding rotate
logic256 = record {
  width = 32;
  upper_sigma0 = λ x. bit_xor (bit_xor (rotate 32 2 x) (rotate 32 13 x)) (rotate 32 22 x);
  upper_sigma1 = λ x. bit_xor (bit_xor (rotate 32 6 x) (rotate 32 11 x)) (rotate 32 25 x);
  lower_sigma0 = λ x. bit_xor (bit_xor (rotate 32 7 x) (rotate 32 18 x)) (x >>> 3);
  lower_sigma1 = λ x. bit_xor (bit_xor (rotate 32 17 x) (rotate 32 19 x)) (x >>> 10);
}

unfoldable pub logic512 : Logic
unfolding rotate
logic512 = record {
  width = 64;
  upper_sigma0 = λ x. bit_xor (bit_xor (rotate 64 28 x) (rotate 64 34 x)) (rotate 64 39 x);
  upper_sigma1 = λ x. bit_xor (bit_xor (rotate 64 14 x) (rotate 64 18 x)) (rotate 64 41 x);
  lower_sigma0 = λ x. bit_xor (bit_xor (rotate 64 1 x) (rotate 64 8 x)) (x >>> 7);
  lower_sigma1 = λ x. bit_xor (bit_xor (rotate 64 19 x) (rotate 64 61 x)) (x >>> 6);
}

-- The local variables a to h.
pub record Registers : Type 0 where
  pub a : ℕ
  pub b : ℕ
  pub c : ℕ
  pub d : ℕ
  pub e : ℕ
  pub f : ℕ
  pub g : ℕ
  pub h : ℕ

module _ (l : Logic) where
  word : ℕ → ℕ
  word n = n % 2 ^ l.width

  -- One round with the constant k and the schedule word w.
  unfoldable pub round : ℕ → ℕ → Registers → Registers
  unfolding word ch maj
  round k w r =
      let t1 = word (r.h + l.upper_sigma1 r.e + ch l.width r.e r.f r.g + k + w) in
      let t2 = word (l.upper_sigma0 r.a + maj r.a r.b r.c) in
      record {
        a = word (t1 + t2);
        b = r.a;
        c = r.b;
        d = r.c;
        e = word (r.d + t1);
        f = r.e;
        g = r.f;
        h = r.g;
      }

  -- Rounds 0 to 15 take the words of the block in order.
  unfoldable pub first_rounds : List ℕ → List ℕ → Registers → Registers
  unfolding round
  first_rounds [] ws r = r
  first_rounds (k ∷ ks) [] r = r
  first_rounds (k ∷ ks) (w ∷ ws) r = first_rounds ks ws (round k w r)

  -- The new schedule word of round j; `schedule` is the ring W256 or W512.
  unfoldable pub expand : ℕ → List ℕ → ℕ
  unfolding word
  expand j schedule =
      let s0 = l.lower_sigma0 (get_or schedule (bit_and (j + 1) 0x0f) 0) in
      let s1 = l.lower_sigma1 (get_or schedule (bit_and (j + 14) 0x0f) 0) in
      word (get_or schedule (bit_and j 0x0f) 0 + s1 + get_or schedule (bit_and (j + 9) 0x0f) 0 + s0)

  -- The rounds from j on, one for each remaining constant.
  unfoldable pub later_rounds : List ℕ → ℕ → List ℕ → Registers → Registers
  unfolding round expand
  later_rounds [] j schedule r = r
  later_rounds (k ∷ ks) j schedule r =
      let w = expand j schedule in
      later_rounds ks (j + 1) (set schedule (bit_and j 0x0f) w) (round k w r)

  -- The state words are read into the registers and the results added to them.
  unfoldable pub transform : List ℕ → List ℕ → List ℕ → List ℕ
  unfolding first_rounds later_rounds word
  transform ks state_in block =
      let at = λ (i : ℕ). get_or state_in i 0 in
      let start : Registers = record {
        a = at 0;
        b = at 1;
        c = at 2;
        d = at 3;
        e = at 4;
        f = at 5;
        g = at 6;
        h = at 7;
      } in
      let r =
        later_rounds (drop 16 ks) 16 (take 16 block) (first_rounds (take 16 ks) block start) in
      word (at 0 + r.a)
      ∷ word (at 1 + r.b)
      ∷ word (at 2 + r.c)
      ∷ word (at 3 + r.d)
      ∷ word (at 4 + r.e)
      ∷ word (at 5 + r.f)
      ∷ word (at 6 + r.g)
      ∷ word (at 7 + r.h)
      ∷ []

unfoldable pub sha256_transform : List ℕ → List ℕ → List ℕ
unfolding transform logic256
sha256_transform state_in block = transform logic256 k256 state_in block

unfoldable pub sha512_transform : List ℕ → List ℕ → List ℕ
unfolding transform logic512
sha512_transform state_in block = transform logic512 k512 state_in block
