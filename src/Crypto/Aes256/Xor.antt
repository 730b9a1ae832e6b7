-- ===== src/Crypto/Aes256/Xor.antt =====
-- aes256CtrXor of crypto.cpp against the keystream read byte by byte.
use backup_system.Base.{
  ℕ, zero, suc, ◌+◌, ◌-◌, ◌*◌, ◌/◌, ◌%◌, ◌≤◌, ◌<◌, min, ◌≡◌, refl, ap, ◌∙◌, [], ◌∷◌, ◌++◌, length,
  length-drop, get_or, take, drop, arith,
}
use backup_system.Stream.{Bytes}
use backup_system.Crypto.Keystream.{xor_bytes, xor_at, block_step}
use backup_system.Crypto.Aes256.{
  aes_shift_rows, aes_sub_bytes, aes_add_round_key, aes_rounds, aes256_encrypt_block,
  aes256_expand_key, add_counter, aes256_loop, aes256_ctr_xor,
}

length-xor_bytes : (xs ks : Bytes) → length (xor_bytes xs ks) ≡ length xs
unfolding xor_bytes
length-xor_bytes [] ks = refl
length-xor_bytes (x ∷ xs) [] = refl
length-xor_bytes (x ∷ xs) (k ∷ ks) = ap suc (length-xor_bytes xs ks)

pub length-aes256_encrypt_block :
    (keys input : Bytes) → length (aes256_encrypt_block keys input) ≡ 16
unfolding aes256_encrypt_block aes_add_round_key aes_shift_rows
length-aes256_encrypt_block keys input =
    length-xor_bytes
      (aes_shift_rows (aes_sub_bytes (aes_rounds 13 1 keys (aes_add_round_key keys 0 input))))
      (take 16 (drop (14 * 16) keys))

-- The byte of the keystream at a position, in the block that add_counter makes for it.
unfoldable pub aes256_blocks : Bytes → Bytes → ℕ → ℕ
aes256_blocks keys counter position =
    get_or (aes256_encrypt_block keys (add_counter 16 (position / 16) counter)) (position % 16) 0

stream_at :
    (keys counter : Bytes) (index offset j : ℕ)
    → j < 16 - offset
    → get_or (aes256_encrypt_block keys (add_counter 16 index counter)) (offset + j) 0
      ≡ aes256_blocks keys counter (index * 16 + offset + j)
unfolding aes256_blocks
stream_at keys counter index offset j h =
    let block : (index * 16 + offset + j) / 16 ≡ index = omega arith in
    let place : (index * 16 + offset + j) % 16 ≡ offset + j = omega arith in rw (block, place)

aes256_loop-eq :
    (fuel : ℕ) (keys counter : Bytes) (index offset : ℕ) (input : Bytes)
    → length input ≤ fuel
    → offset < 16
    → aes256_loop fuel keys counter index offset input
      ≡ xor_at (aes256_blocks keys counter) (index * 16 + offset) input
unfolding aes256_loop xor_at
aes256_loop-eq zero keys counter index offset [] enough inside = refl
aes256_loop-eq zero keys counter index offset (x ∷ xs) enough inside = absurd (omega arith)
aes256_loop-eq (suc fuel) keys counter index offset [] enough inside = refl
aes256_loop-eq (suc fuel) keys counter index offset (x ∷ xs) enough inside =
    let input = x ∷ xs in
    let n = min (length input) (16 - offset) in
    let block = aes256_encrypt_block keys (add_counter 16 index counter) in
    let size : length (drop n input) ≡ length input - n = length-drop n input in
    ap (λ t. xor_bytes (take n input) (drop offset block) ++ t)
      (aes256_loop-eq fuel keys counter (index + 1) 0 (drop n input) (omega (arith, size))
        (omega arith))
    ∙ block_step (aes256_blocks keys counter) block 16 offset (index * 16 + offset)
        ((index + 1) * 16 + 0) input
        (length-aes256_encrypt_block keys (add_counter 16 index counter)) inside
        (stream_at keys counter index offset) (omega arith)

pub aes256_ctr_xor-loop :
    (key counter : Bytes) (position : ℕ) (input : Bytes)
    → aes256_ctr_xor key counter position input
      ≡ xor_at (aes256_blocks (aes256_expand_key key) counter) position input
unfolding aes256_ctr_xor
aes256_ctr_xor-loop key counter position input =
    aes256_loop-eq (length input) (aes256_expand_key key) counter (position / 16) (position % 16)
      input (omega arith) (omega arith)
    ∙ ap (λ p. xor_at (aes256_blocks (aes256_expand_key key) counter) p input) (omega arith)
