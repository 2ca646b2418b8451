-- ===== src/Base58.antt =====
-- ios/Classes/base58.c: base 58 with and without a checksum. A string is the list of its characters,
-- without the final 0.
pub mod Digits
pub mod Encode
pub mod Decode
pub mod Check
mod Examples
