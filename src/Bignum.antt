-- ===== src/Bignum.antt =====
-- ios/Classes/bignum.c and bignum.h: 256-bit numbers as nine 30-bit limbs, lowest first.
-- A loop over the limbs is a recursion on the list of limbs, with the carry as its accumulator.
pub mod Value
pub mod Compare
pub mod Carry
pub mod Shift
pub mod Reduce
pub mod Bytes
pub mod Divide
pub mod Multiply
pub mod Power
mod Examples
