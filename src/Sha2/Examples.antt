-- ===== src/Sha2/Examples.antt =====
-- The theorems on ios/Classes/sha2.c at the message "abc", cut in two, and its SHA-256 digest.
use ether_flutter_plugin.Prelude.{ℕ, ◌≡◌, refl, List, [], ◌∷◌, take, arith}
use ether_flutter_plugin.Sha2.Sha256.{sha256_init, sha256_final, sha256_raw}
use ether_flutter_plugin.Sha2.Sha512.{sha512_init, sha512_final, sha512_raw}
use ether_flutter_plugin.Sha2.Pieces.{joined, feed256, feed512}
use ether_flutter_plugin.Sha2.Spec.{spec256, spec512}
use ether_flutter_plugin.Sha2.Spec.Refine256.{sha256_final-spec256}
use ether_flutter_plugin.Sha2.Spec.Refine512.{sha512_final-spec512}

abbrev pieces : List (List ℕ)
pieces = (b'a' ∷ []) ∷ (b'b' ∷ b'c' ∷ []) ∷ []

abbrev abc : List ℕ
abc = b'a' ∷ b'b' ∷ b'c' ∷ []

sha256_final-spec256_example : sha256_final (feed256 sha256_init pieces) ≡ spec256 (joined pieces)
sha256_final-spec256_example = sha256_final-spec256 pieces (omega arith) (omega arith)

sha512_final-spec512_example : sha512_final (feed512 sha512_init pieces) ≡ spec512 (joined pieces)
sha512_final-spec512_example = sha512_final-spec512 pieces (omega arith) (omega arith)

-- The test vector of FIPS 180 begins with ba7816bf.
sha256_abc : take 4 (sha256_raw abc) ≡ 0xba ∷ 0x78 ∷ 0x16 ∷ 0xbf ∷ []
unfolding sha256_raw
sha256_abc = refl

-- And that of SHA-512 with ddaf35a1.
sha512_abc : take 4 (sha512_raw abc) ≡ 0xdd ∷ 0xaf ∷ 0x35 ∷ 0xa1 ∷ []
unfolding sha512_raw
sha512_abc = refl
