-- ===== src/Sha2/Stream/Absorb.antt =====
-- The streaming invariant: however the bytes are cut into pieces, the context has hashed the full
-- blocks of all that came in, and keeps the rest in its buffer.
use ether_flutter_plugin.Prelude.{
  ℕ, zero, suc, ◌+◌, ◌-◌, ◌*◌, ◌^◌, ◌<◌, ◌≤◌, ◌%◌, ◌≡◌, ◌∙◌, refl, sym, ap, ap₂, subst, Bool, true,
  false, List, [], ◌∷◌, ◌++◌, length, take, drop, arith, length-append, length-take, length-drop,
  take-append_le, drop-append_le, take-append, drop-append, drop_all, take_all, append_assoc,
  append-nil, ◌<<<◌, leb, leb_iff, ltb, ltb_iff, ◌==◌, if◌then◌else◌, Bool-cases, inl, inr,
  take-append-drop,
}
use ether_flutter_plugin.Sha2.Memory.{overlay}
use ether_flutter_plugin.Sha2.Stream.{
  Engine, IsEngine, Context, run_block, blocks_loop, fill, update,
}
use native.Mathlib.Nat.{mul-add-mod_self_right, mod-eq_of_lt}

pub overlay-append :
    (rest stale more : List ℕ)
    → overlay (rest ++ stale) (length rest) more ≡ rest ++ (more ++ drop (length more) stale)
unfolding overlay
overlay-append rest stale more =
    ap₂ (λ a b. a ++ (more ++ b)) (take-append (length rest) rest stale refl)
      (drop-append (length rest + length more) rest stale (length more) refl)

module _ (g : Engine) where
  open g use {block, process}

  -- The specification: n blocks of `block` bytes, one after the other.
  unfoldable pub absorb : ℕ → List ℕ → List ℕ → List ℕ
  absorb zero state bytes = state
  absorb (suc n) state bytes = absorb n (process state (take block bytes)) (drop block bytes)

  pub absorb-snoc :
      (n : ℕ) (state bytes last : List ℕ)
      → length bytes ≡ n * block
      → length last ≡ block
      → absorb (suc n) state (bytes ++ last) ≡ process (absorb n state bytes) last
  unfolding absorb
  absorb-snoc zero state [] last e h = ap (process state) (take_all block last (omega arith))
  absorb-snoc zero state (b ∷ bytes) last e h = absurd (omega arith)
  absorb-snoc (suc n) state bytes last e h =
      let enough : block ≤ length bytes = omega arith in
      ap₂ (λ b r. absorb (suc n) (process state b) r) (take-append_le block bytes last enough)
        (drop-append_le block bytes last enough)
      ∙ absorb-snoc n (process state (take block bytes)) (drop block bytes) last
          (length-drop block bytes ∙ omega arith) h

  -- `c` is what the bytes `input` make of a context that starts in `initial`.
  pub record Absorbed (initial : List ℕ) (input : List ℕ) (c : Context g) : Type 0 where
    pub blocks : ℕ
    pub full : List ℕ
    pub rest : List ℕ
    pub stale : List ℕ
    pub split : input ≡ full ++ rest
    pub length-full : length full ≡ blocks * block
    pub short : length rest < block
    pub state_lem : c.state ≡ absorb blocks initial full
    pub count_lem : c.bitcount ≡ g.add_bits g.start (length input <<< 3)
    pub buffer_lem : c.buffer ≡ rest ++ stale
    pub length-buffer : length c.buffer ≡ block

module _ (g : Engine) (laws : IsEngine g) (initial : List ℕ) where
  open g use {block, process}

  pub used-Absorbed :
      {input : List ℕ} {c : Context g} (s : Absorbed g initial input c)
      → length input < 2 ^ 61
      → g.used c.bitcount ≡ length s.rest
  used-Absorbed {input} {c} s h =
      let len : length input ≡ s.blocks * block + length s.rest =
        ap length s.split ∙ length-append s.full s.rest ∙ omega (arith, s.length-full) in
      ap g.used s.count_lem
      ∙ laws.used-start (length input) h
      ∙ ap (λ (n : ℕ). n % block) len
      ∙ mul-add-mod_self_right s.blocks block (length s.rest)
      ∙ mod-eq_of_lt s.short

  counted :
      (input more : List ℕ) (c : Context g)
      → c.bitcount ≡ g.add_bits g.start (length input <<< 3)
      → length input + length more < 2 ^ 61
      → g.add_bits c.bitcount (length more <<< 3)
        ≡ g.add_bits g.start (length (input ++ more) <<< 3)
  counted input more c e h =
      ap (λ n. g.add_bits n (length more <<< 3)) e
      ∙ laws.add-add (length input) (length more) h
      ∙ ap (λ (n : ℕ). g.add_bits g.start (n <<< 3)) (sym (length-append input more))

  -- Bytes that leave room in the buffer are only stored.
  store-Absorbed :
      (input more : List ℕ) (k : ℕ) (c : Context g) (s : Absorbed g initial input c)
      → length input + length more < 2 ^ 61
      → k ≡ length s.rest
      → length s.rest + length more < block
      → Absorbed g initial (input ++ more) (record c {
        bitcount = g.add_bits c.bitcount (length more <<< 3);
        buffer = overlay c.buffer k more;
      })
  store-Absorbed input more k c s h ek room =
      let total : length (s.rest ++ more) ≡ length s.rest + length more =
        length-append s.rest more in
      let buf : overlay c.buffer k more ≡ (s.rest ++ more) ++ drop (length more) s.stale =
        ap₂ (λ b i. overlay b i more) s.buffer_lem ek
        ∙ overlay-append s.rest s.stale more
        ∙ sym (append_assoc s.rest more (drop (length more) s.stale)) in
      let stale_len : length s.stale ≡ block - length s.rest =
        omega (arith, length-append s.rest s.stale, ap length s.buffer_lem, s.length-buffer) in
      record {
        blocks = s.blocks;
        full = s.full;
        rest = s.rest ++ more;
        stale = drop (length more) s.stale;
        split = ap (λ t. t ++ more) s.split ∙ append_assoc s.full s.rest more;
        length-full = s.length-full;
        short = omega arith;
        state_lem = s.state_lem;
        count_lem = counted input more c s.count_lem h;
        buffer_lem = buf;
        length-buffer =
            ap length buf
            ∙ omega (
              arith,
              length-append (s.rest ++ more) (drop (length more) s.stale),
              length-drop (length more) s.stale,
            );
      }

  -- Bytes that fill the buffer exactly are hashed with what it held.
  run_block-Absorbed :
      (input more : List ℕ) (k n : ℕ) (c : Context g) (s : Absorbed g initial input c)
      → length input + length more < 2 ^ 61
      → k ≡ length s.rest
      → length s.rest + length more ≡ block
      → n ≡ length more
      → (t : Absorbed g initial (input ++ more) (run_block g c (overlay c.buffer k more) n))
        × (t.rest ≡ [])
  unfolding run_block
  run_block-Absorbed input more k n c s h ek exact en =
      let stale_len : length s.stale ≡ length more =
        omega (arith, length-append s.rest s.stale, ap length s.buffer_lem, s.length-buffer) in
      let buf : overlay c.buffer k more ≡ s.rest ++ more =
        ap₂ (λ b i. overlay b i more) s.buffer_lem ek
        ∙ overlay-append s.rest s.stale more
        ∙ ap (λ t. s.rest ++ (more ++ t)) (drop_all (length more) s.stale (omega arith))
        ∙ ap (λ t. s.rest ++ t) (append-nil more) in
      let last : length (s.rest ++ more) ≡ block = length-append s.rest more ∙ exact in
      (
        record {
          blocks = suc s.blocks;
          full = s.full ++ (s.rest ++ more);
          rest = [];
          stale = g.reversed (overlay c.buffer k more);
          split =
              ap (λ t. t ++ more) s.split
              ∙ append_assoc s.full s.rest more
              ∙ sym (append-nil (s.full ++ (s.rest ++ more)));
          length-full = length-append s.full (s.rest ++ more) ∙ omega (arith, s.length-full, last);
          short = laws.block_pos;
          state_lem =
              ap₂ process s.state_lem buf
              ∙ sym (absorb-snoc g s.blocks initial s.full (s.rest ++ more) s.length-full last);
          count_lem =
              ap (λ (i : ℕ). g.add_bits c.bitcount (i <<< 3)) en
              ∙ counted input more c s.count_lem h;
          buffer_lem = refl;
          length-buffer = laws.length-reversed _ (ap length buf ∙ last);
        },
        refl,
      )

  length-nil : (xs : List ℕ) → xs ≡ [] → length xs ≡ 0
  length-nil xs e = ap length e

  take-drop-append :
      (input more : List ℕ) (k : ℕ) → (input ++ take k more) ++ drop k more ≡ input ++ more
  take-drop-append input more k =
      append_assoc input (take k more) (drop k more)
      ∙ ap (λ t. input ++ t) (take-append-drop k more)

  joined :
      (input more : List ℕ) (k : ℕ) (c : Context g)
      → Absorbed g initial ((input ++ take k more) ++ drop k more) c
      → Absorbed g initial (input ++ more) c
  joined input more k c s = subst (λ i. Absorbed g initial i c) (take-drop-append input more k) s

  not_full : {b : Bool} {m n : ℕ} → b ≡ false → (m ≤ n → b ≡ true) → n < m
  not_full e f = ground arith

  left_over-Absorbed :
      (input more : List ℕ) (c : Context g) (s : Absorbed g initial input c)
      → s.rest ≡ []
      → length input + length more < 2 ^ 61
      → length more < block
      → Absorbed g initial (input ++ more) (
          if ltb 0 (length more)
          then record c {
            bitcount = g.add_bits c.bitcount (length more <<< 3);
            buffer = overlay c.buffer 0 more;
          }
          else c)
  left_over-Absorbed input [] c s empty h few =
      subst (λ i. Absorbed g initial i c) (sym (append-nil input)) s
  left_over-Absorbed input (b ∷ more) c s empty h few =
      let none_held : length s.rest ≡ 0 = length-nil s.rest empty in
      let some_left : ltb 0 (length (b ∷ more)) ≡ true =
        (ltb_iff 0 (length (b ∷ more))).1 (omega arith) in
      rw some_left (store-Absorbed input (b ∷ more) 0 c s h (omega arith) (omega arith))

  -- The loop on whole blocks and the left-overs, from an empty buffer.
  blocks_loop-Absorbed :
      (fuel : ℕ) (input more : List ℕ) (c : Context g) (s : Absorbed g initial input c)
      → s.rest ≡ []
      → length input + length more < 2 ^ 61
      → length more < fuel
      → Absorbed g initial (input ++ more) (blocks_loop g fuel c more)
  unfolding blocks_loop
  blocks_loop-Absorbed zero input more c s empty h enough = absurd (omega arith)
  blocks_loop-Absorbed (suc fuel) input more c s empty h enough =
      let none_held : length s.rest ≡ 0 = length-nil s.rest empty in
      elim (Bool-cases (leb block (length more))) [
        | inl whole ↦
            let enough_bytes : block ≤ length more = (leb_iff block (length more)).0 whole in
            let first : length (take block more) ≡ block = length-take block more ∙ omega arith in
            let step =
              run_block-Absorbed input (take block more) 0 block c s (omega arith) (omega arith)
                (omega arith) (omega arith) in
            let after =
              blocks_loop-Absorbed fuel (input ++ take block more) (drop block more) _ step.0 step.1
                (omega (arith, length-append input (take block more), length-drop block more))
                (omega (arith, length-drop block more, laws.block_pos)) in
            rw (whole, blocks_loop) (joined input more block _ after)
        | inr part ↦
            let few : length more < block = not_full part (leb_iff block (length more)).1 in
            rw (part, blocks_loop) (left_over-Absorbed input more c s empty h few)
      ]

  fill-Absorbed :
      (input more : List ℕ) (k : ℕ) (c : Context g) (s : Absorbed g initial input c)
      → length input + length more < 2 ^ 61
      → k ≡ length s.rest
      → Absorbed g initial (input ++ more) (fill g c k more)
  unfolding fill
  fill-Absorbed input more k c s h ek =
      let free : ℕ = block - k in
      let held : k < block = omega (arith, s.short) in
      elim (Bool-cases (leb free (length more))) [
        | inl whole ↦
            let enough_bytes : free ≤ length more = (leb_iff free (length more)).0 whole in
            let first : length (take free more) ≡ free = length-take free more ∙ omega arith in
            let step =
              run_block-Absorbed input (take free more) k free c s (omega arith) ek (omega arith)
                (omega arith) in
            let after =
              blocks_loop-Absorbed (suc (length more)) (input ++ take free more) (drop free more) _
                step.0 step.1
                (omega (arith, length-append input (take free more), length-drop free more))
                (omega (arith, length-drop free more)) in
            rw whole (joined input more free _ after)
        | inr part ↦ rw part (
            store-Absorbed input more k c s h ek
              (omega (arith, not_full part (leb_iff free (length more)).1)))
      ]

  empty_list : (xs : List ℕ) → length xs ≡ 0 → xs ≡ []
  empty_list [] e = refl
  empty_list (x ∷ xs) e = absurd (omega arith)

  not_above : {b : Bool} {m n : ℕ} → b ≡ false → (m < n → b ≡ true) → n ≤ m
  not_above e f = ground arith

  -- `update` appends the bytes of `more` to what the context has hashed, for any two pieces that
  -- together stay below 2^61 bytes.
  pub update-Absorbed :
      (input more : List ℕ) (c : Context g)
      → Absorbed g initial input c
      → length input + length more < 2 ^ 61
      → Absorbed g initial (input ++ more) (update g c more)
  unfolding update
  update-Absorbed input [] c s h = subst (λ i. Absorbed g initial i c) (sym (append-nil input)) s
  update-Absorbed input (b ∷ more) c s h =
      let held = used-Absorbed s (omega arith) in
      let nonempty : (length (b ∷ more) == 0) ≡ false = ground arith in
      elim (Bool-cases (ltb 0 (g.used c.bitcount))) [
        | inl partly ↦
            rw (nonempty, partly) (fill-Absorbed input (b ∷ more) (g.used c.bitcount) c s h held)
        | inr fresh ↦
            rw (nonempty, fresh)
              (blocks_loop-Absorbed (suc (length (b ∷ more))) input (b ∷ more) c s
                (empty_list s.rest
                  (omega (arith, not_above fresh (ltb_iff 0 (g.used c.bitcount)).1)))
                h (omega arith))
      ]
