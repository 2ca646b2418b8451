-- ===== src/Sha2/Padding.antt =====
-- The common shape of `sha256_Final` and `sha512_Last` of ios/Classes/sha2.c: what is hashed last is
-- the rest of the message, a 1 bit, pad and the length.
use ether_flutter_plugin.Prelude.{
  ℕ, suc, ◌+◌, ◌-◌, ◌^◌, ◌<◌, ◌≤◌, ◌≡◌, ◌∙◌, refl, sym, ap, ap₂, true, false, List, [], ◌∷◌, ◌++◌,
  length, drop, replicate, ltb, if◌then◌else◌, arith, length-append, length-drop, length-replicate,
  append_assoc, append-nil, drop_all, replicate_add,
}
use ether_flutter_plugin.Sha2.Memory.{overlay}
use ether_flutter_plugin.Sha2.Stream.{Engine, IsEngine, Context}
use ether_flutter_plugin.Sha2.Stream.Absorb.{
  absorb, absorb-snoc, Absorbed, used-Absorbed, overlay-append,
}

module _ (g : Engine) (short : ℕ) (last : List ℕ → g.Count → List ℕ → List ℕ)
    (trailer : g.Count → List ℕ) (Fine : g.Count → Type 0) where
  open g use {Count, block, process, reversed}

  -- The code, with `short` the place of the length and `last` the transform that puts it there.
  abbrev pub finish_at : List ℕ → Count → List ℕ → ℕ → List ℕ
  finish_at state count buffer used =
      let marked = overlay buffer used (0x80 ∷ []) in
      if ltb short (used + 1)
      then (let filled = overlay marked (used + 1) (replicate (block - (used + 1)) 0) in
          last (process state filled) count (overlay (reversed filled) 0 (replicate short 0)))
      else last state count (overlay marked (used + 1) (replicate (short - (used + 1)) 0))

  abbrev pub finish : Context g → List ℕ
  finish c = finish_at c.state c.bitcount c.buffer (g.used c.bitcount)

  -- The length stands behind `short` bytes, whatever the buffer holds there.
  pub record PutsLength : Type 0 where
    pub short_lem : short < block
    pub length-trailer : (n : Count) → length (trailer n) ≡ block - short
    pub last_lem :
        (state : List ℕ) (n : Count) (bytes stale : List ℕ)
        → length bytes ≡ short
        → Fine n
        → last state n (bytes ++ stale) ≡ process state (bytes ++ trailer n)

  -- The bytes behind the rest of the message.
  abbrev pub padding : ℕ → Count → List ℕ
  padding pad n = 0x80 ∷ replicate pad 0 ++ trailer n

  marked_zeros :
      (rest stale : List ℕ) (pad : ℕ)
      → overlay
          (overlay (rest ++ stale) (length rest) (0x80 ∷ []))
          (length rest + 1)
          (replicate pad 0)
        ≡ (rest ++ (0x80 ∷ replicate pad 0)) ++ drop pad (drop 1 stale)
  marked_zeros rest stale pad =
      ap (λ b. overlay b (length rest + 1) (replicate pad 0))
        (overlay-append rest stale (0x80 ∷ []))
      ∙ ap₂ (λ b i. overlay b i (replicate pad 0))
          (sym (append_assoc rest (0x80 ∷ []) (drop 1 stale)))
          (sym (length-append rest (0x80 ∷ [])))
      ∙ overlay-append (rest ++ (0x80 ∷ [])) (drop 1 stale) (replicate pad 0)
      ∙ append_assoc rest (0x80 ∷ [])
          (replicate pad 0 ++ drop (length (replicate pad 0)) (drop 1 stale))
      ∙ ap (λ n. rest ++ (0x80 ∷ (replicate pad 0 ++ drop n (drop 1 stale))))
          (length-replicate {A = ℕ} pad 0)
      ∙ sym (append_assoc rest (0x80 ∷ replicate pad 0) (drop pad (drop 1 stale)))

  two_blocks :
      (rest : List ℕ) (fill pad : ℕ) (n : Count)
      → pad ≡ fill + short
      → (rest ++ (0x80 ∷ replicate fill 0)) ++ (replicate short 0 ++ trailer n)
        ≡ rest ++ padding pad n
  two_blocks rest fill pad n e =
      append_assoc rest (0x80 ∷ replicate fill 0) (replicate short 0 ++ trailer n)
      ∙ ap (λ t. rest ++ (0x80 ∷ t))
          (sym (append_assoc (replicate fill 0) (replicate short 0) (trailer n))
            ∙ ap (λ t. t ++ trailer n)
                (sym (replicate_add fill short 0) ∙ ap (λ k. replicate k 0) (sym e)))

  fits_branch :
      (state : List ℕ) (n : Count) (buffer : List ℕ) (used : ℕ)
      → used + 1 ≤ short
      → finish_at state n buffer used
        ≡ last state n (
            overlay (overlay buffer used (0x80 ∷ [])) (used + 1) (replicate (short - (used + 1)) 0))
  fits_branch state n buffer used h =
      let test : ltb short (used + 1) ≡ false = ground arith in rw test refl

  full_branch :
      (state : List ℕ) (n : Count) (buffer filled : List ℕ) (used : ℕ)
      → short < used + 1
      → filled
        ≡ overlay (overlay buffer used (0x80 ∷ [])) (used + 1) (replicate (block - (used + 1)) 0)
      → finish_at state n buffer used
        ≡ last (process state filled) n (overlay (reversed filled) 0 (replicate short 0))
  full_branch state n buffer filled used h e =
      let test : ltb short (used + 1) ≡ true = ground arith in
      rw test
        (ap (λ b. last (process state b) n (overlay (reversed b) 0 (replicate short 0))) (sym e))

  -- The finish starts from what the streaming invariant says.
  finish-Absorbed :
      (laws : IsEngine g) (initial input : List ℕ) (c : Context g) (s : Absorbed g initial input c)
      → length input < 2 ^ 61
      → finish c ≡ finish_at c.state c.bitcount (s.rest ++ s.stale) (length s.rest)
  finish-Absorbed laws initial input c s h =
      ap₂ (λ b u. finish_at c.state c.bitcount b u) s.buffer_lem (used-Absorbed g laws initial s h)

  module _ (laws : IsEngine g) (puts : PutsLength) (initial : List ℕ) where
    -- The length fits behind the rest.
    pub finish_one :
        (input : List ℕ) (c : Context g) (s : Absorbed g initial input c) (pad : ℕ)
        → length input < 2 ^ 61
        → Fine c.bitcount
        → length s.rest + 1 + pad ≡ short
        → finish c ≡ absorb g (suc s.blocks) initial (input ++ padding pad c.bitcount)
    finish_one input c s pad h fine fits =
        let r : ℕ = length s.rest in
        let body : List ℕ = s.rest ++ (0x80 ∷ replicate pad 0) in
        let size : length body ≡ short =
          length-append s.rest (0x80 ∷ replicate pad 0)
          ∙ omega (arith, length-replicate {A = ℕ} pad 0) in
        let whole : length (body ++ trailer c.bitcount) ≡ block =
          length-append body (trailer c.bitcount)
          ∙ omega (arith, puts.length-trailer c.bitcount, puts.short_lem) in
        finish-Absorbed laws initial input c s h
        ∙ fits_branch c.state c.bitcount (s.rest ++ s.stale) r (omega arith)
        ∙ ap
            (λ k.
              last c.state c.bitcount
                (overlay (overlay (s.rest ++ s.stale) r (0x80 ∷ [])) (r + 1) (replicate k 0)))
            {x = short - (r + 1)} {y = pad} (omega arith)
        ∙ ap (last c.state c.bitcount) (marked_zeros s.rest s.stale pad)
        ∙ puts.last_lem c.state c.bitcount body (drop pad (drop 1 s.stale)) size fine
        ∙ ap (λ t. process t (body ++ trailer c.bitcount)) s.state_lem
        ∙ sym
            (absorb-snoc g s.blocks initial s.full (body ++ trailer c.bitcount) s.length-full whole)
        ∙ ap (absorb g (suc s.blocks) initial) (
            ap (λ t. s.full ++ t)
              (append_assoc s.rest (0x80 ∷ replicate pad 0) (trailer c.bitcount))
            ∙ sym (append_assoc s.full s.rest (padding pad c.bitcount))
            ∙ ap (λ t. t ++ padding pad c.bitcount) (sym s.split))

    -- The length takes a block of its own.
    pub finish_two :
        (input : List ℕ) (c : Context g) (s : Absorbed g initial input c) (pad : ℕ)
        → length input < 2 ^ 61
        → Fine c.bitcount
        → length s.rest + 1 + pad ≡ block + short
        → short ≤ length s.rest
        → finish c ≡ absorb g (suc (suc s.blocks)) initial (input ++ padding pad c.bitcount)
    unfolding overlay
    finish_two input c s pad h fine fits full =
        let r : ℕ = length s.rest in
        let fill : ℕ = block - (r + 1) in
        let body : List ℕ = s.rest ++ (0x80 ∷ replicate fill 0) in
        let tail : List ℕ = replicate short 0 ++ trailer c.bitcount in
        let room : short < block = puts.short_lem in
        let size : length body ≡ block =
          length-append s.rest (0x80 ∷ replicate fill 0)
          ∙ omega (arith, length-replicate {A = ℕ} fill 0, s.short) in
        let tail_size : length tail ≡ block =
          length-append (replicate short 0) (trailer c.bitcount)
          ∙ omega (arith, puts.length-trailer c.bitcount, length-replicate {A = ℕ} short 0) in
        let stale_size : length s.stale ≡ block - r =
          omega (arith, length-append s.rest s.stale, ap length s.buffer_lem, s.length-buffer) in
        let no_stale : drop fill (drop 1 s.stale) ≡ [] =
          drop_all fill (drop 1 s.stale) (omega (arith, length-drop 1 s.stale)) in
        let filled : body
            ≡ overlay (overlay (s.rest ++ s.stale) r (0x80 ∷ [])) (r + 1) (replicate fill 0) =
          sym (marked_zeros s.rest s.stale fill ∙ ap (λ t. body ++ t) no_stale ∙ append-nil body) in
        finish-Absorbed laws initial input c s h
        ∙ full_branch c.state c.bitcount (s.rest ++ s.stale) body r (omega arith) filled
        ∙ puts.last_lem (process c.state body) c.bitcount (replicate short 0)
            (drop (0 + length (replicate short 0)) (reversed body))
            (length-replicate {A = ℕ} short 0) fine
        ∙ ap (λ t. process (process t body) tail) s.state_lem
        ∙ ap (λ t. process t tail)
            (sym (absorb-snoc g s.blocks initial s.full body s.length-full size))
        ∙ sym (
            absorb-snoc g (suc s.blocks) initial (s.full ++ body) tail
              (length-append s.full body ∙ omega (arith, s.length-full, size)) tail_size)
        ∙ ap (absorb g (suc (suc s.blocks)) initial) (
            append_assoc s.full body tail
            ∙ ap (λ t. s.full ++ t) (two_blocks s.rest fill pad c.bitcount (omega arith))
            ∙ sym (append_assoc s.full s.rest (padding pad c.bitcount))
            ∙ ap (λ t. t ++ padding pad c.bitcount) (sym s.split))
