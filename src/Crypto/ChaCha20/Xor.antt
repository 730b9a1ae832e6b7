-- ===== src/Crypto/ChaCha20/Xor.antt =====
-- chacha20Xor of crypto.cpp against the keystream read byte by byte.
use backup_system.Base.{
  ℕ, zero, suc, ◌+◌, ◌-◌, ◌*◌, ◌/◌, ◌%◌, ◌^◌, ◌≤◌, ◌<◌, min, ◌≡◌, refl, ap, ◌∙◌, true, List, [],
  ◌∷◌, ◌++◌, length, length-set, length-drop, get_or, take, drop, leb, le→leb, arith,
}
use backup_system.Base.Outcome
use backup_system.Base.Outcome.{Result, ok, err}
use backup_system.Stream.{Bytes}
use backup_system.Crypto.Keystream.{xor_bytes, xor_at, block_step}
use backup_system.Crypto.ChaCha20.{
  add_to, xor_rotate, quarter_round, double_round, double_rounds, load_all, serialize,
  chacha20_block, chacha20_loop, chacha20_xor,
}

length-quarter_round : (a b c d : ℕ) (w : List ℕ) → length (quarter_round a b c d w) ≡ length w
unfolding quarter_round add_to xor_rotate
length-quarter_round a b c d w = simp length-set

length-double_rounds : (n : ℕ) (w : List ℕ) → length (double_rounds n w) ≡ length w
unfolding double_rounds double_round
length-double_rounds zero w = refl
length-double_rounds (suc n) w = length-double_rounds n (double_round w) ∙ simp length-quarter_round

length-serialize : (ws ss : List ℕ) → length (serialize ws ss) ≡ min (length ws) (length ss) * 4
unfolding serialize
length-serialize [] ss = omega arith
length-serialize (w ∷ ws) [] = omega arith
length-serialize (w ∷ ws) (s ∷ ss) = omega (arith, length-serialize ws ss)

pub length-chacha20_block :
    (key nonce : Bytes) (counter : ℕ) → length (chacha20_block key nonce counter) ≡ 64
unfolding chacha20_block load_all
length-chacha20_block key nonce counter =
    let state =
      0x61707865 ∷ 0x3320646e ∷ 0x79622d32 ∷ 0x6b206574 ∷ load_all 8 0 key
      ++ (counter ∷ load_all 3 0 nonce) in
    omega (arith, length-serialize (double_rounds 10 state) state, length-double_rounds 10 state)

-- The byte of the keystream at a position.
unfoldable pub chacha20_stream : Bytes → Bytes → ℕ → ℕ
chacha20_stream key nonce position =
    get_or (chacha20_block key nonce (position / 64)) (position % 64) 0

stream_at :
    (key nonce : Bytes) (index offset j : ℕ)
    → j < 64 - offset
    → get_or (chacha20_block key nonce index) (offset + j) 0
      ≡ chacha20_stream key nonce (index * 64 + offset + j)
unfolding chacha20_stream
stream_at key nonce index offset j h =
    let block : (index * 64 + offset + j) / 64 ≡ index = omega arith in
    let place : (index * 64 + offset + j) % 64 ≡ offset + j = omega arith in rw (block, place)

chacha20_loop-step :
    (fuel : ℕ) (key nonce : Bytes) (index offset x : ℕ) (xs : Bytes)
    → leb index (2 ^ 32 - 1) ≡ true
    → chacha20_loop (suc fuel) key nonce index offset (x ∷ xs) ≡ (
        let n = min (length (x ∷ xs)) (64 - offset) in
        Outcome.◌>>=◌ (chacha20_loop fuel key nonce (index + 1) 0 (drop n (x ∷ xs))) λ done.
          ok (xor_bytes (take n (x ∷ xs)) (drop offset (chacha20_block key nonce index)) ++ done))
unfolding chacha20_loop
chacha20_loop-step fuel key nonce index offset x xs fits = rw (fits, chacha20_loop)

chacha20_loop-eq :
    (fuel : ℕ) (key nonce : Bytes) (index offset : ℕ) (input : Bytes)
    → length input ≤ fuel
    → offset < 64
    → index * 64 + offset + length input ≤ 2 ^ 38
    → chacha20_loop fuel key nonce index offset input
      ≡ ok (xor_at (chacha20_stream key nonce) (index * 64 + offset) input)
unfolding chacha20_loop xor_at
chacha20_loop-eq zero key nonce index offset [] enough inside small = refl
chacha20_loop-eq zero key nonce index offset (x ∷ xs) enough inside small = absurd (omega arith)
chacha20_loop-eq (suc fuel) key nonce index offset [] enough inside small = refl
chacha20_loop-eq (suc fuel) key nonce index offset (x ∷ xs) enough inside small =
    let input = x ∷ xs in
    let n = min (length input) (64 - offset) in
    let fits : leb index (2 ^ 32 - 1) ≡ true = le→leb index (2 ^ 32 - 1) (omega arith) in
    let block = chacha20_block key nonce index in
    let size : length (drop n input) ≡ length input - n = length-drop n input in
    chacha20_loop-step fuel key nonce index offset x xs fits
    ∙ ap (λ r. Outcome.◌>>=◌ r λ done. ok (xor_bytes (take n input) (drop offset block) ++ done))
        (chacha20_loop-eq fuel key nonce (index + 1) 0 (drop n input) (omega (arith, size))
          (omega arith) (omega (arith, size)))
    ∙ ap ok (
        block_step (chacha20_stream key nonce) block 64 offset (index * 64 + offset)
          ((index + 1) * 64 + 0) input (length-chacha20_block key nonce index) inside
          (stream_at key nonce index offset) (omega arith))

-- Up to the 2^38 bytes of the block counter, the bytes are XORed with the keystream, each at its
-- own position.
pub chacha20_xor-eq :
    (key nonce : Bytes) (position : ℕ) (input : Bytes)
    → position + length input ≤ 2 ^ 38
    → chacha20_xor key nonce position input ≡ ok (xor_at (chacha20_stream key nonce) position input)
unfolding chacha20_xor
chacha20_xor-eq key nonce position input small =
    chacha20_loop-eq (length input) key nonce (position / 64) (position % 64) input (omega arith)
      (omega arith) (omega arith)
    ∙ ap (λ p. ok (xor_at (chacha20_stream key nonce) p input)) (omega arith)
