-- ===== src/Lib.antt =====
-- A model of the C code under ios/Classes, the key derivation of the plugin, and what is proved of
-- it. The Swift side makes a sentence from random bytes or takes one from the user, checks it,
-- stretches it to a seed and derives keys from the seed; this library has the parts below that chain
-- stands on.
--
-- * Bignum models ios/Classes/bignum.c and bignum.h. A `bignum256` is the list of its limbs, lowest
--   first; `value` is the number they stand for. A function that writes through a pointer gives the
--   new number back. A loop over the limbs is a recursion on the list with the carry as an argument,
--   so that most theorems hold for every count of limbs, and 9 where the code fixes it. Each file
--   has the functions of one kind: Bytes (bn_read_be to bn_write_uint64), Compare (bn_is_zero,
--   bn_is_less, bn_is_equal, bn_cmov), Carry (bn_add, bn_addi, bn_normalize, bn_subtract,
--   bn_subtractmod, bn_subi), Shift (bn_lshift, bn_rshift, bn_mult_half), Reduce (bn_fast_mod,
--   bn_mod, bn_addmod, bn_mult_k), Multiply (bn_multiply_long, bn_multiply_reduce_step,
--   bn_multiply_reduce, bn_multiply), Power (bn_sqrt, and the bn_inverse that is compiled where
--   USE_INVERSE_FAST is 0), Divide (bn_divmod58, bn_divmod1000). Their child modules have the
--   theorems. The primes are those of `IsModulus`, between 2^256 - 2^224 and 2^256; only that is
--   used of them.
-- * Sha2 models ios/Classes/sha2.c and sha2.h on a little-endian machine: Constants (K256, K512, the
--   initial hash values), Rounds (sha256_Transform, sha512_Transform without unrolling), Memory
--   (REVERSE32, REVERSE64, memcpy, words in byte arrays), Stream (the update functions; the two
--   algorithms are two values of the record Engine), Sha256 and Sha512 (the public functions). The
--   names are those of the code, in lower case. Stream/Absorb has the invariant `Absorbed` of a
--   context, Pieces applies it to the two algorithms. Spec states the digests as FIPS 180-4 does,
--   over the compression functions of Rounds.
-- * Bip39 models ios/Classes/bip39.c with the word list of bip39_english.h (Wordlist): Encode
--   (mnemonic_from_data, mnemonic_from_data_indexes, mnemonic_generate, mnemonic_generate_indexes)
--   and Decode (data_from_mnemonic, mnemonic_check). A string is the list of its characters, without
--   the final 0. A null pointer is `none`. The hash is an argument there, and `Sha2.Sha256.sha256_raw`
--   in Recover.
--   Seed has mnemonic_to_seed with its cache: the static variables are a record `SeedCache` that goes
--   in and out of the function. The arrays of the salt and of an entry have their sizes: a write behind
--   one, as by a passphrase of more than 256 characters, is `none`. The lengths are converted to int.
-- * Hmac models ios/Classes/hmac.c and Pbkdf2 ios/Classes/pbkdf2.c on the contexts of Sha2. The
--   buffer of the hash context that the init functions of pbkdf2.c leave unset is an argument.
-- * Base58 models ios/Classes/base58.c: Digits (b58digits_map, b58digits_ordered), Encode (b58enc),
--   Decode (b58tobin), Check (b58check, base58_encode_check, base58_decode_check over the model of
--   sha256_Raw). The buffers are lists from the last element down, as the loops run. A read or write
--   outside an array is `fault`, or `none` in the loop of b58enc.
-- * Bip32 models ios/Classes/bip32.c on secp256k1 (its order from secp256k1.c): the nodes from seeds
--   and keys, hdnode_private_ckd, hdnode_fill_public_key; Cache has hdnode_private_ckd_cached, Serialize
--   hdnode_serialize and hdnode_deserialize. It uses Hmac, Bignum and Base58 as the code does. A public
--   key comes from the argument `ecdsa_get_public_key33`. Key, Seed and Child have the theorems, with
--   numbers modulo the order; the children of Cache and Serialize have theirs.
-- * Prelude has the lemmas on lists, words and bits that the parts share.
--
-- Machine words are natural numbers; `u8`, `u32` and `u64` write the wrap-around out. Bounds: the
-- loop of the update functions has the length of the message plus one as fuel, and each round takes
-- a block; the parser of sentences has the length of the sentence, and each round takes a character.
--
-- The loops of bip32.c that hash until a key is valid have their count of rounds as fuel; the
-- theorems name the round at which they end.
--
-- Not modelled: the bn_inverse of the default build (USE_INVERSE_FAST = 1) and bn_bitcount of
-- bignum.c, the hexadecimal functions of sha2.c, the progress callback of mnemonic_to_seed, the
-- test for a null sentence in data_from_mnemonic, the padding bytes that memcmp compares in
-- hdnode_private_ckd_cached, the Graphene forms of base58.c, which are not compiled; the
-- functions of bip32.c that compute with points, sign or make addresses; ecdsa.c, sha3.c and
-- ripemd160.c, which stand below those; rand.c, whose bytes are an argument; the AES files,
-- which nothing calls; the bn_print functions; the Swift, Kotlin and Dart code.
pub mod Prelude
pub mod Bignum
pub mod Sha2
pub mod Hmac
pub mod Pbkdf2
pub mod Bip32
pub mod Bip39
pub mod Base58
