-- ===== src/Crypto/Aes256.antt =====
-- DataBackup/core/crypto.cpp, AES-256: the key schedule, the block cipher, and the XOR with its
-- CTR keystream. The array of round keys is the list of the bytes written so far.
pub mod Xor
pub mod Counter
use backup_system.Base.{
  ℕ, zero, suc, ◌+◌, ◌-◌, ◌*◌, ◌/◌, ◌%◌, ◌^◌, min, bit_and, bit_xor, Bool, true, false, List, [],
  ◌∷◌, ◌++◌, length, map, get_or, set, take, drop, ◌==◌, if◌then◌else◌,
}
use backup_system.Stream.{Bytes}
use backup_system.Crypto.Keystream.{xor_bytes}

unfoldable pub aes_s_box : List ℕ
aes_s_box =
    0x63 ∷ 0x7c ∷ 0x77 ∷ 0x7b ∷ 0xf2 ∷ 0x6b ∷ 0x6f ∷ 0xc5 ∷ 0x30 ∷ 0x01 ∷ 0x67 ∷ 0x2b ∷ 0xfe ∷ 0xd7
    ∷ 0xab ∷ 0x76 ∷ 0xca ∷ 0x82 ∷ 0xc9 ∷ 0x7d ∷ 0xfa ∷ 0x59 ∷ 0x47 ∷ 0xf0 ∷ 0xad ∷ 0xd4 ∷ 0xa2
    ∷ 0xaf ∷ 0x9c ∷ 0xa4 ∷ 0x72 ∷ 0xc0 ∷ 0xb7 ∷ 0xfd ∷ 0x93 ∷ 0x26 ∷ 0x36 ∷ 0x3f ∷ 0xf7 ∷ 0xcc
    ∷ 0x34 ∷ 0xa5 ∷ 0xe5 ∷ 0xf1 ∷ 0x71 ∷ 0xd8 ∷ 0x31 ∷ 0x15 ∷ 0x04 ∷ 0xc7 ∷ 0x23 ∷ 0xc3 ∷ 0x18
    ∷ 0x96 ∷ 0x05 ∷ 0x9a ∷ 0x07 ∷ 0x12 ∷ 0x80 ∷ 0xe2 ∷ 0xeb ∷ 0x27 ∷ 0xb2 ∷ 0x75 ∷ 0x09 ∷ 0x83
    ∷ 0x2c ∷ 0x1a ∷ 0x1b ∷ 0x6e ∷ 0x5a ∷ 0xa0 ∷ 0x52 ∷ 0x3b ∷ 0xd6 ∷ 0xb3 ∷ 0x29 ∷ 0xe3 ∷ 0x2f
    ∷ 0x84 ∷ 0x53 ∷ 0xd1 ∷ 0x00 ∷ 0xed ∷ 0x20 ∷ 0xfc ∷ 0xb1 ∷ 0x5b ∷ 0x6a ∷ 0xcb ∷ 0xbe ∷ 0x39
    ∷ 0x4a ∷ 0x4c ∷ 0x58 ∷ 0xcf ∷ 0xd0 ∷ 0xef ∷ 0xaa ∷ 0xfb ∷ 0x43 ∷ 0x4d ∷ 0x33 ∷ 0x85 ∷ 0x45
    ∷ 0xf9 ∷ 0x02 ∷ 0x7f ∷ 0x50 ∷ 0x3c ∷ 0x9f ∷ 0xa8 ∷ 0x51 ∷ 0xa3 ∷ 0x40 ∷ 0x8f ∷ 0x92 ∷ 0x9d
    ∷ 0x38 ∷ 0xf5 ∷ 0xbc ∷ 0xb6 ∷ 0xda ∷ 0x21 ∷ 0x10 ∷ 0xff ∷ 0xf3 ∷ 0xd2 ∷ 0xcd ∷ 0x0c ∷ 0x13
    ∷ 0xec ∷ 0x5f ∷ 0x97 ∷ 0x44 ∷ 0x17 ∷ 0xc4 ∷ 0xa7 ∷ 0x7e ∷ 0x3d ∷ 0x64 ∷ 0x5d ∷ 0x19 ∷ 0x73
    ∷ 0x60 ∷ 0x81 ∷ 0x4f ∷ 0xdc ∷ 0x22 ∷ 0x2a ∷ 0x90 ∷ 0x88 ∷ 0x46 ∷ 0xee ∷ 0xb8 ∷ 0x14 ∷ 0xde
    ∷ 0x5e ∷ 0x0b ∷ 0xdb ∷ 0xe0 ∷ 0x32 ∷ 0x3a ∷ 0x0a ∷ 0x49 ∷ 0x06 ∷ 0x24 ∷ 0x5c ∷ 0xc2 ∷ 0xd3
    ∷ 0xac ∷ 0x62 ∷ 0x91 ∷ 0x95 ∷ 0xe4 ∷ 0x79 ∷ 0xe7 ∷ 0xc8 ∷ 0x37 ∷ 0x6d ∷ 0x8d ∷ 0xd5 ∷ 0x4e
    ∷ 0xa9 ∷ 0x6c ∷ 0x56 ∷ 0xf4 ∷ 0xea ∷ 0x65 ∷ 0x7a ∷ 0xae ∷ 0x08 ∷ 0xba ∷ 0x78 ∷ 0x25 ∷ 0x2e
    ∷ 0x1c ∷ 0xa6 ∷ 0xb4 ∷ 0xc6 ∷ 0xe8 ∷ 0xdd ∷ 0x74 ∷ 0x1f ∷ 0x4b ∷ 0xbd ∷ 0x8b ∷ 0x8a ∷ 0x70
    ∷ 0x3e ∷ 0xb5 ∷ 0x66 ∷ 0x48 ∷ 0x03 ∷ 0xf6 ∷ 0x0e ∷ 0x61 ∷ 0x35 ∷ 0x57 ∷ 0xb9 ∷ 0x86 ∷ 0xc1
    ∷ 0x1d ∷ 0x9e ∷ 0xe1 ∷ 0xf8 ∷ 0x98 ∷ 0x11 ∷ 0x69 ∷ 0xd9 ∷ 0x8e ∷ 0x94 ∷ 0x9b ∷ 0x1e ∷ 0x87
    ∷ 0xe9 ∷ 0xce ∷ 0x55 ∷ 0x28 ∷ 0xdf ∷ 0x8c ∷ 0xa1 ∷ 0x89 ∷ 0x0d ∷ 0xbf ∷ 0xe6 ∷ 0x42 ∷ 0x68
    ∷ 0x41 ∷ 0x99 ∷ 0x2d ∷ 0x0f ∷ 0xb0 ∷ 0x54 ∷ 0xbb ∷ 0x16 ∷ []

unfoldable pub sub_byte : ℕ → ℕ
sub_byte x = get_or aes_s_box x 0

unfoldable pub xtime : ℕ → ℕ
xtime x = bit_xor (x * 2) (if bit_and x 0x80 == 0 then 0x00 else 0x1b) % 2 ^ 8

abbrev pub rcon : List ℕ
rcon = 0x00 ∷ 0x01 ∷ 0x02 ∷ 0x04 ∷ 0x08 ∷ 0x10 ∷ 0x20 ∷ 0x40 ∷ []

-- `temp` of the key schedule for word `i`, from the word before.
unfoldable pub schedule_word : ℕ → Bytes → Bytes
schedule_word i temp =
    if i % 8 == 0
    then bit_xor (sub_byte (get_or temp 1 0)) (get_or rcon (i / 8) 0)
      ∷ sub_byte (get_or temp 2 0)
      ∷ sub_byte (get_or temp 3 0)
      ∷ sub_byte (get_or temp 0 0)
      ∷ []
    else if i % 8 == 4
    then map sub_byte temp
    else temp

-- The next `n` words from word `i` on.
unfoldable pub expand_loop : ℕ → ℕ → Bytes → Bytes
expand_loop zero i keys = keys
expand_loop (suc n) i keys =
    let temp = schedule_word i (take 4 (drop ((i - 1) * 4) keys)) in
    expand_loop n (i + 1) (keys ++ xor_bytes (take 4 (drop ((i - 8) * 4) keys)) temp)

unfoldable pub aes256_expand_key : Bytes → Bytes
aes256_expand_key key = expand_loop 52 8 key

unfoldable pub aes_add_round_key : Bytes → ℕ → Bytes → Bytes
aes_add_round_key keys round state = xor_bytes state (take 16 (drop (round * 16) keys))

unfoldable pub aes_sub_bytes : Bytes → Bytes
aes_sub_bytes state = map sub_byte state

unfoldable pub aes_shift_rows : Bytes → Bytes
aes_shift_rows state =
    let at : ℕ → ℕ = λ i. get_or state i 0 in
    at 0
    ∷ at 5
    ∷ at 10
    ∷ at 15
    ∷ at 4
    ∷ at 9
    ∷ at 14
    ∷ at 3
    ∷ at 8
    ∷ at 13
    ∷ at 2
    ∷ at 7
    ∷ at 12
    ∷ at 1
    ∷ at 6
    ∷ at 11
    ∷ []

unfoldable pub mix_column : ℕ → ℕ → ℕ → ℕ → Bytes
mix_column a0 a1 a2 a3 =
    bit_xor (bit_xor (bit_xor (xtime a0) (bit_xor (xtime a1) a1)) a2) a3
    ∷ bit_xor (bit_xor (bit_xor a0 (xtime a1)) (bit_xor (xtime a2) a2)) a3
    ∷ bit_xor (bit_xor (bit_xor a0 a1) (xtime a2)) (bit_xor (xtime a3) a3)
    ∷ bit_xor (bit_xor (bit_xor (bit_xor (xtime a0) a0) a1) a2) (xtime a3)
    ∷ []

unfoldable pub aes_mix_columns : Bytes → Bytes
aes_mix_columns (a0 ∷ a1 ∷ a2 ∷ a3 ∷ state) = mix_column a0 a1 a2 a3 ++ aes_mix_columns state
aes_mix_columns state = []

-- The next `n` full rounds from `round` on.
unfoldable pub aes_rounds : ℕ → ℕ → Bytes → Bytes → Bytes
aes_rounds zero round keys state = state
aes_rounds (suc n) round keys state =
    aes_rounds n (round + 1) keys
      (aes_add_round_key keys round (aes_mix_columns (aes_shift_rows (aes_sub_bytes state))))

unfoldable pub aes256_encrypt_block : Bytes → Bytes → Bytes
aes256_encrypt_block keys input =
    let state = aes_rounds 13 1 keys (aes_add_round_key keys 0 input) in
    aes_add_round_key keys 14 (aes_shift_rows (aes_sub_bytes state))

-- The loop that adds the block index to the counter, on the bytes below `n`, the last one first.
unfoldable pub add_counter : ℕ → ℕ → Bytes → Bytes
add_counter zero carry block = block
add_counter (suc i) carry block =
    let sum = get_or block i 0 + carry % 256 in
    let rest = add_counter i (carry / 2 ^ 8 + sum / 2 ^ 8) (set block i (sum % 2 ^ 8)) in
    if carry == 0 then block else rest

-- The loop of aes256CtrXor: `input` is the data from `done` on.
unfoldable pub aes256_loop : ℕ → Bytes → Bytes → ℕ → ℕ → Bytes → Bytes
aes256_loop zero keys counter index offset input = []
aes256_loop (suc fuel) keys counter index offset [] = []
aes256_loop (suc fuel) keys counter index offset (x ∷ xs) =
    let n = min (length (x ∷ xs)) (16 - offset) in
    xor_bytes (take n (x ∷ xs))
      (drop offset (aes256_encrypt_block keys (add_counter 16 index counter)))
    ++ aes256_loop fuel keys counter (index + 1) 0 (drop n (x ∷ xs))

-- Each round does a byte at least.
unfoldable pub aes256_ctr_xor : Bytes → Bytes → ℕ → Bytes → Bytes
aes256_ctr_xor key counter position input =
    aes256_loop (length input) (aes256_expand_key key) counter (position / 16) (position % 16) input
