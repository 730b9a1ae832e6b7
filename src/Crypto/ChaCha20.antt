-- ===== src/Crypto/ChaCha20.antt =====
-- DataBackup/core/crypto.cpp, ChaCha20: the block function and the XOR with its keystream.
-- The sixteen words of the state are a list; `a += b` and the like update it in place.
pub mod Xor
use backup_system.Base.{
  ℕ, zero, suc, ◌+◌, ◌-◌, ◌*◌, ◌/◌, ◌%◌, ◌^◌, min, bit_or, bit_xor, Bool, true, false, List, [],
  ◌∷◌, ◌++◌, length, get_or, set, take, drop, leb,
}
use backup_system.Base.Outcome
use backup_system.Base.Outcome.{Result, ok, err}
use backup_system.Stream.{Bytes}
use backup_system.Crypto.Keystream.{xor_bytes}

unfoldable pub rotl32 : ℕ → ℕ → ℕ
rotl32 v n = bit_or (v * 2 ^ n % 2 ^ 32) (v / 2 ^ (32 - n))

-- `w[i] += w[j]`
unfoldable pub add_to : ℕ → ℕ → List ℕ → List ℕ
add_to i j w = set w i ((get_or w i 0 + get_or w j 0) % 2 ^ 32)

-- `w[i] ^= w[j]; w[i] = rotl32(w[i], n)`
unfoldable pub xor_rotate : ℕ → ℕ → ℕ → List ℕ → List ℕ
xor_rotate i j n w = set w i (rotl32 (bit_xor (get_or w i 0) (get_or w j 0)) n)

unfoldable pub quarter_round : ℕ → ℕ → ℕ → ℕ → List ℕ → List ℕ
quarter_round a b c d w =
    let w = xor_rotate d a 16 (add_to a b w) in
    let w = xor_rotate b c 12 (add_to c d w) in
    let w = xor_rotate d a 8 (add_to a b w) in xor_rotate b c 7 (add_to c d w)

unfoldable pub double_round : List ℕ → List ℕ
double_round w =
    let w = quarter_round 0 4 8 12 w in
    let w = quarter_round 1 5 9 13 w in
    let w = quarter_round 2 6 10 14 w in
    let w = quarter_round 3 7 11 15 w in
    let w = quarter_round 0 5 10 15 w in
    let w = quarter_round 1 6 11 12 w in
    let w = quarter_round 2 7 8 13 w in quarter_round 3 4 9 14 w

unfoldable pub double_rounds : ℕ → List ℕ → List ℕ
double_rounds zero w = w
double_rounds (suc n) w = double_rounds n (double_round w)

unfoldable pub load32le : Bytes → ℕ → ℕ
load32le p i =
    bit_or
      (bit_or (bit_or (get_or p i 0) (get_or p (i + 1) 0 * 2 ^ 8 % 2 ^ 32))
        (get_or p (i + 2) 0 * 2 ^ 16 % 2 ^ 32))
      (get_or p (i + 3) 0 * 2 ^ 24 % 2 ^ 32)

-- `load32le(p + i * 4)` for the next `n` indices.
unfoldable pub load_all : ℕ → ℕ → Bytes → List ℕ
load_all zero i p = []
load_all (suc n) i p = load32le p (i * 4) ∷ load_all n (i + 1) p

-- `working[i] + state[i]`, each in four bytes from the lowest.
unfoldable pub serialize : List ℕ → List ℕ → Bytes
serialize [] ss = []
serialize (w ∷ ws) [] = []
serialize (w ∷ ws) (s ∷ ss) =
    let word = (w + s) % 2 ^ 32 in
    word % 2 ^ 8
    ∷ word / 2 ^ 8 % 2 ^ 8
    ∷ word / 2 ^ 16 % 2 ^ 8
    ∷ word / 2 ^ 24 % 2 ^ 8
    ∷ serialize ws ss

unfoldable pub chacha20_block : Bytes → Bytes → ℕ → Bytes
chacha20_block key nonce counter =
    let state =
      0x61707865 ∷ 0x3320646e ∷ 0x79622d32 ∷ 0x6b206574 ∷ load_all 8 0 key
      ++ (counter ∷ load_all 3 0 nonce) in
    serialize (double_rounds 10 state) state

-- The loop of chacha20Xor: `input` is the data from `done` on.
unfoldable pub chacha20_loop : ℕ → Bytes → Bytes → ℕ → ℕ → Bytes → Result Bytes
chacha20_loop zero key nonce index offset input = ok []
chacha20_loop (suc fuel) key nonce index offset [] = ok []
chacha20_loop (suc fuel) key nonce index offset (x ∷ xs) =
    let n = min (length (x ∷ xs)) (64 - offset) in
    let rest = chacha20_loop fuel key nonce (index + 1) 0 (drop n (x ∷ xs)) in
    elim (leb index (2 ^ 32 - 1)) [
      | true ↦ Outcome.◌>>=◌ rest λ done.
          ok (xor_bytes (take n (x ∷ xs)) (drop offset (chacha20_block key nonce index)) ++ done)
      | false ↦ err "archive exceeds the ChaCha20 counter range"
    ]

-- Each round does a byte at least.
unfoldable pub chacha20_xor : Bytes → Bytes → ℕ → Bytes → Result Bytes
chacha20_xor key nonce position input =
    chacha20_loop (length input) key nonce (position / 64) (position % 64) input
