-- ===== src/Bip39.antt =====
-- ios/Classes/bip39.c: mnemonic sentences.
pub mod Wordlist
pub mod Encode
pub mod Decode
pub mod Bits
pub mod Words
pub mod Sentence
pub mod Checksum
pub mod RoundTrip
pub mod Recover
pub mod Seed
mod Examples
