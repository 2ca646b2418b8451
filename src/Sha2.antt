-- ===== src/Sha2.antt =====
-- ios/Classes/sha2.c and sha2.h: SHA-256 and SHA-512 on a little-endian machine, the transform loop
-- not unrolled (SHA2_UNROLL_TRANSFORM is not defined).
pub mod Constants
pub mod Rounds
pub mod Memory
pub mod Stream
pub mod Sha256
pub mod Sha512
pub mod Pieces
pub mod Digest
pub mod Padding
pub mod Reverse
pub mod BigEndian
pub mod Spec
mod Examples
