-- ===== src/Tests/Hashes.antt =====
-- Examples of the theorems on sha256.cpp and crypto.cpp, and test vectors of the standards.
use backup_system.Base.{
  ℕ, not, is_empty, ◌||◌, ◌≡◌, refl, true, [], ◌∷◌, ◌++◌, length, take, drop, leb, ◌==◌, replicate,
  All, ◌-◌, if◌then◌else◌, arith,
}
use backup_system.Base.Outcome.{ok, err}
use backup_system.Stream.{Bytes, IsByte}
use backup_system.Format.{EncryptionAlgorithm}
use backup_system.Sha256.{
  new, update, update_loop, absorb_part, transform, rounds, round, schedule, load_words,
  round_constants, majority, choose, rotr, add32, store_length, word_digest, digest, close_block,
  finish, sha256,
}
use backup_system.Sha256.Blocks.{message_digest}
use backup_system.Sha256.Parts.{concat, update_all, finish-update_all}
use backup_system.Sha256.Digest.{sha256-eq}
use backup_system.Sha256.Hmac.{
  hmac, hmac_sha256, hmac_file, hmac_sha256-eq, hmac_file-eq, new_hmac, update_hmac, finish_hmac,
  key_block,
}
use backup_system.Sha256.Ranges
use backup_system.Sha256.Ranges.{sha_file_range, sha_file_range-eq}
use backup_system.Crypto
use backup_system.Crypto.{crypt_stage}
use backup_system.Crypto.Stage.{crypt_stage-crypt_stage}
use backup_system.Crypto.Keystream.{xor_at, xor_bytes}
use backup_system.Crypto.ChaCha20.{
  chacha20_block, chacha20_xor, serialize, double_rounds, double_round, quarter_round, xor_rotate,
  add_to, load_all, load32le, rotl32,
}
use backup_system.Crypto.ChaCha20.Xor.{chacha20_stream, chacha20_xor-eq}
use backup_system.Crypto.Aes256.{
  aes256_expand_key, aes256_ctr_xor, aes256_encrypt_block, aes_rounds, aes_add_round_key,
  aes_sub_bytes, aes_shift_rows, aes_mix_columns, mix_column, xtime, sub_byte, aes_s_box,
  schedule_word, expand_loop,
}
use backup_system.Crypto.Aes256.Counter.{ctr_stream, aes256_ctr_xor-eq}

abbrev abc : Bytes
abc = b'a' ∷ b'b' ∷ b'c' ∷ []

-- The example of FIPS 180-4.
sha256-abc :
    sha256 abc
    ≡ 0xba ∷ 0x78 ∷ 0x16 ∷ 0xbf ∷ 0x8f ∷ 0x01 ∷ 0xcf ∷ 0xea ∷ 0x41 ∷ 0x41 ∷ 0x40 ∷ 0xde ∷ 0x5d
      ∷ 0xae ∷ 0x22 ∷ 0x23 ∷ 0xb0 ∷ 0x03 ∷ 0x61 ∷ 0xa3 ∷ 0x96 ∷ 0x17 ∷ 0x7a ∷ 0x9c ∷ 0xb4 ∷ 0x10
      ∷ 0xff ∷ 0x61 ∷ 0xf2 ∷ 0x00 ∷ 0x15 ∷ 0xad ∷ []
unfolding sha256 finish update update_loop absorb_part transform rounds round schedule load_words
    round_constants majority choose rotr add32 store_length word_digest digest close_block
sha256-abc = refl

-- The numbers from 0 to 31.
abbrev counting_key : Bytes
counting_key =
    0 ∷ 1 ∷ 2 ∷ 3 ∷ 4 ∷ 5 ∷ 6 ∷ 7 ∷ 8 ∷ 9 ∷ 10 ∷ 11 ∷ 12 ∷ 13 ∷ 14 ∷ 15 ∷ 16 ∷ 17 ∷ 18 ∷ 19 ∷ 20
    ∷ 21 ∷ 22 ∷ 23 ∷ 24 ∷ 25 ∷ 26 ∷ 27 ∷ 28 ∷ 29 ∷ 30 ∷ 31 ∷ []

abbrev sample_nonce : Bytes
sample_nonce = 0 ∷ 0 ∷ 0 ∷ 9 ∷ 0 ∷ 0 ∷ 0 ∷ 0x4a ∷ 0 ∷ 0 ∷ 0 ∷ 0 ∷ []

-- The start of the block of RFC 8439, 2.3.2.
chacha20_block_vector :
    take 8 (chacha20_block counting_key sample_nonce 1)
    ≡ 0x10 ∷ 0xf1 ∷ 0xe7 ∷ 0xe4 ∷ 0xd1 ∷ 0x3b ∷ 0x59 ∷ 0x15 ∷ []
unfolding chacha20_block serialize double_rounds double_round quarter_round xor_rotate add_to
    load_all load32le rotl32
chacha20_block_vector = refl

-- The example of FIPS 197, C.3.
aes256_block_vector :
    aes256_encrypt_block (aes256_expand_key counting_key) (
      0x00 ∷ 0x11 ∷ 0x22 ∷ 0x33 ∷ 0x44 ∷ 0x55 ∷ 0x66 ∷ 0x77 ∷ 0x88 ∷ 0x99 ∷ 0xaa ∷ 0xbb ∷ 0xcc
      ∷ 0xdd ∷ 0xee ∷ 0xff ∷ [])
    ≡ 0x8e ∷ 0xa2 ∷ 0xb7 ∷ 0xca ∷ 0x51 ∷ 0x67 ∷ 0x45 ∷ 0xbf ∷ 0xea ∷ 0xfc ∷ 0x49 ∷ 0x90 ∷ 0x4b
      ∷ 0x49 ∷ 0x60 ∷ 0x89 ∷ []
unfolding aes256_encrypt_block aes256_expand_key aes_rounds aes_add_round_key aes_sub_bytes
    aes_shift_rows aes_mix_columns mix_column xtime sub_byte aes_s_box schedule_word expand_loop
    xor_bytes
aes256_block_vector = refl

-- The first test of RFC 4231.
hmac_sha256_vector :
    take 8
      (hmac_sha256 (replicate 20 0x0b) (b'H' ∷ b'i' ∷ b' ' ∷ b'T' ∷ b'h' ∷ b'e' ∷ b'r' ∷ b'e' ∷ []))
    ≡ 0xb0 ∷ 0x34 ∷ 0x4c ∷ 0x61 ∷ 0xd8 ∷ 0xdb ∷ 0x38 ∷ 0x53 ∷ []
unfolding hmac_sha256 new_hmac update_hmac finish_hmac key_block sha256 finish update update_loop
    absorb_part transform rounds round schedule load_words round_constants majority choose rotr
    add32 store_length word_digest digest close_block
hmac_sha256_vector = refl

finish-update_all_example :
    finish (update_all new ((b'a' ∷ []) ∷ [] ∷ (b'b' ∷ b'c' ∷ []) ∷ []))
    ≡ sha256 (concat ((b'a' ∷ []) ∷ [] ∷ (b'b' ∷ b'c' ∷ []) ∷ []))
finish-update_all_example = finish-update_all ((b'a' ∷ []) ∷ [] ∷ (b'b' ∷ b'c' ∷ []) ∷ [])

sha256-eq_example : sha256 abc ≡ message_digest abc
sha256-eq_example = sha256-eq abc

hmac_sha256-eq_example : hmac_sha256 counting_key abc ≡ hmac counting_key abc
hmac_sha256-eq_example = hmac_sha256-eq counting_key abc

hmac_file-eq_example : hmac_file counting_key 2 abc ≡ (
    if leb 2 3
    then ok (hmac counting_key (take 2 abc))
    else err "truncated or unreadable input stream")
hmac_file-eq_example = hmac_file-eq counting_key 2 abc

sha_file_range-eq_example : sha_file_range abc 1 2 ≡ (
    if leb 1 3
    then if 2 == Ranges.to_end
      then ok (sha256 (drop 1 abc))
      else if leb 2 (3 - 1)
      then ok (sha256 (take 2 (drop 1 abc)))
      else err "SHA-256 range exceeds file size"
    else err "SHA-256 offset exceeds file size")
sha_file_range-eq_example = sha_file_range-eq abc 1 2

with_password :
    (Crypto.is_none EncryptionAlgorithm.chacha20 || not (is_empty {A = ℕ} (b'p' ∷ []))) ≡ true
unfolding Crypto.is_none
with_password = refl

crypt_stage-crypt_stage_example :
    (cipher : Bytes) × (crypt_stage EncryptionAlgorithm.chacha20
        (b'p' ∷ [])
        (replicate 16 7)
        abc
        0
        Crypto.to_end
      ≡ ok cipher)
    × (length cipher ≡ 3)
    × (crypt_stage EncryptionAlgorithm.chacha20
          (b'p' ∷ [])
          (replicate 16 7)
          ((1 ∷ 2 ∷ []) ++ (cipher ++ 9 ∷ []))
          2
          (length cipher)
        ≡ ok abc)
crypt_stage-crypt_stage_example =
    crypt_stage-crypt_stage EncryptionAlgorithm.chacha20 (b'p' ∷ []) (replicate 16 7) (1 ∷ 2 ∷ [])
      abc (9 ∷ []) with_password (λ c. omega arith) (omega arith)

chacha20_xor-eq_example :
    chacha20_xor counting_key sample_nonce 63 abc
    ≡ ok (xor_at (chacha20_stream counting_key sample_nonce) 63 abc)
chacha20_xor-eq_example = chacha20_xor-eq counting_key sample_nonce 63 abc (omega arith)

top_bytes : All IsByte (replicate 16 255)
top_bytes = omega arith

aes256_ctr_xor-eq_example :
    aes256_ctr_xor counting_key (replicate 16 255) 15 abc
    ≡ xor_at (ctr_stream counting_key (replicate 16 255)) 15 abc
aes256_ctr_xor-eq_example = aes256_ctr_xor-eq counting_key (replicate 16 255) 15 abc refl top_bytes
