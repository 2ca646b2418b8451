-- ===== src/Sha2/Stream.antt =====
-- `sha256_Update` and `sha512_Update` of ios/Classes/sha2.c: bytes arrive in pieces of any size and
-- are hashed block by block. The two differ in the block length, the transform and the counter.
use ether_flutter_plugin.Prelude.{
  ℕ, zero, suc, ◌+◌, ◌-◌, ◌*◌, ◌^◌, ◌<◌, ◌%◌, ◌≡◌, Bool, true, false, List, length, take, drop, ltb,
  leb, ◌==◌, if◌then◌else◌, ◌<<<◌,
}
use ether_flutter_plugin.Sha2.Memory.{overlay}
pub mod Absorb

-- What differs between the two algorithms. `process` is the transform of a buffer of bytes, and
-- `reversed` what the byte reversal before it leaves in the buffer.
pub record Engine : Type 1 where
  pub Count : Type 0
  pub block : ℕ
  pub start : Count
  pub add_bits : Count → ℕ → Count
  pub used : Count → ℕ
  pub process : List ℕ → List ℕ → List ℕ
  pub reversed : List ℕ → List ℕ

-- `bitcount` counts bits and is read in bytes modulo the block; 2^61 bytes fill a 64-bit counter.
pub record IsEngine (g : Engine) : Type 0 where
  pub block_pos : 0 < g.block
  pub used-start : (n : ℕ) → n < 2 ^ 61 → g.used (g.add_bits g.start (n <<< 3)) ≡ n % g.block
  pub add-add :
      (m n : ℕ)
      → m + n < 2 ^ 61
      → g.add_bits (g.add_bits g.start (m <<< 3)) (n <<< 3) ≡ g.add_bits g.start ((m + n) <<< 3)
  pub length-reversed : (b : List ℕ) → length b ≡ g.block → length (g.reversed b) ≡ g.block

module _ (g : Engine) where
  open g use {Count, block, add_bits, used, process, reversed}

  pub record Context : Type 0 where
    pub state : List ℕ
    pub bitcount : Count
    pub buffer : List ℕ

  -- A full buffer is reversed in place and transformed; n bytes more have come in.
  unfoldable pub run_block : Context → List ℕ → ℕ → Context
  run_block c full n = record {
    state = process c.state full;
    bitcount = add_bits c.bitcount (n <<< 3);
    buffer = reversed full;
  }

  -- `while (len >= BLOCK_LENGTH)`, then the left-overs. Each round takes a block, so `length rest`
  -- rounds are enough fuel.
  unfoldable pub blocks_loop : ℕ → Context → List ℕ → Context
  unfolding run_block overlay
  blocks_loop zero c rest = c
  blocks_loop (suc fuel) c rest = elim (leb block (length rest)) [
    | true ↦
        blocks_loop fuel (run_block c (overlay c.buffer 0 (take block rest)) block)
          (drop block rest)
    | false ↦
        if ltb 0 (length rest)
        then record c {
          bitcount = add_bits c.bitcount (length rest <<< 3);
          buffer = overlay c.buffer 0 rest;
        }
        else c
  ]

  -- The branch for a buffer that holds `usedspace` bytes already.
  unfoldable pub fill : Context → ℕ → List ℕ → Context
  unfolding run_block overlay blocks_loop
  fill c usedspace input =
      let freespace = block - usedspace in
      if leb freespace (length input)
      then blocks_loop (suc (length input))
          (run_block c (overlay c.buffer usedspace (take freespace input)) freespace)
          (drop freespace input)
      else record c {
        bitcount = add_bits c.bitcount (length input <<< 3);
        buffer = overlay c.buffer usedspace input;
      }

  unfoldable pub update : Context → List ℕ → Context
  unfolding fill blocks_loop
  update c input =
      if length input == 0
      then c
      else if ltb 0 (used c.bitcount)
      then fill c (used c.bitcount) input
      else blocks_loop (suc (length input)) c input
