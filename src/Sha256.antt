-- ===== src/Sha256.antt =====
-- DataBackup/core/sha256.cpp: the streaming SHA-256 object, HMAC on it, and the one-shot functions.
-- A uint32_t is a number below 2^32 with the wrap-around written out. `block` is the whole array
-- block_ of 64 bytes, the stale ones after `used` included.
pub mod Blocks
pub mod Streaming
pub mod Digest
pub mod Parts
pub mod Hmac
pub mod Ranges
use backup_system.Base.{
  ℕ, zero, suc, ◌+◌, ◌-◌, ◌*◌, ◌/◌, ◌%◌, ◌^◌, min, bit_and, bit_or, bit_xor, Bool, true, false,
  List, [], ◌∷◌, ◌++◌, length, get_or, set, take, drop, replicate, ltb, ◌==◌, if◌then◌else◌,
}
use backup_system.Stream.{Bytes}

-- The eight words of state_, and the working variables of a transform.
pub record Words : Type 0 where
  pub a : ℕ
  pub b : ℕ
  pub c : ℕ
  pub d : ℕ
  pub e : ℕ
  pub f : ℕ
  pub g : ℕ
  pub h : ℕ

pub record Sha256 : Type 0 where
  pub state : Words
  pub block : Bytes
  pub used : ℕ
  pub total : ℕ

unfoldable pub add32 : ℕ → ℕ → ℕ
add32 x y = (x + y) % 2 ^ 32

unfoldable pub rotr : ℕ → ℕ → ℕ
rotr v n = bit_or (v / 2 ^ n) (v * 2 ^ (32 - n) % 2 ^ 32)

unfoldable pub choose : ℕ → ℕ → ℕ → ℕ
choose e f g = bit_xor (bit_and e f) (bit_and (2 ^ 32 - 1 - e) g)

unfoldable pub majority : ℕ → ℕ → ℕ → ℕ
majority a b c = bit_xor (bit_xor (bit_and a b) (bit_and a c)) (bit_and b c)

unfoldable pub round_constants : List ℕ
round_constants =
    0x428a2f98 ∷ 0x71374491 ∷ 0xb5c0fbcf ∷ 0xe9b5dba5 ∷ 0x3956c25b ∷ 0x59f111f1 ∷ 0x923f82a4
    ∷ 0xab1c5ed5 ∷ 0xd807aa98 ∷ 0x12835b01 ∷ 0x243185be ∷ 0x550c7dc3 ∷ 0x72be5d74 ∷ 0x80deb1fe
    ∷ 0x9bdc06a7 ∷ 0xc19bf174 ∷ 0xe49b69c1 ∷ 0xefbe4786 ∷ 0x0fc19dc6 ∷ 0x240ca1cc ∷ 0x2de92c6f
    ∷ 0x4a7484aa ∷ 0x5cb0a9dc ∷ 0x76f988da ∷ 0x983e5152 ∷ 0xa831c66d ∷ 0xb00327c8 ∷ 0xbf597fc7
    ∷ 0xc6e00bf3 ∷ 0xd5a79147 ∷ 0x06ca6351 ∷ 0x14292967 ∷ 0x27b70a85 ∷ 0x2e1b2138 ∷ 0x4d2c6dfc
    ∷ 0x53380d13 ∷ 0x650a7354 ∷ 0x766a0abb ∷ 0x81c2c92e ∷ 0x92722c85 ∷ 0xa2bfe8a1 ∷ 0xa81a664b
    ∷ 0xc24b8b70 ∷ 0xc76c51a3 ∷ 0xd192e819 ∷ 0xd6990624 ∷ 0xf40e3585 ∷ 0x106aa070 ∷ 0x19a4c116
    ∷ 0x1e376c08 ∷ 0x2748774c ∷ 0x34b0bcb5 ∷ 0x391c0cb3 ∷ 0x4ed8aa4a ∷ 0x5b9cca4f ∷ 0x682e6ff3
    ∷ 0x748f82ee ∷ 0x78a5636f ∷ 0x84c87814 ∷ 0x8cc70208 ∷ 0x90befffa ∷ 0xa4506ceb ∷ 0xbef9a3f7
    ∷ 0xc67178f2 ∷ []

abbrev pub initial : Words
initial = record {
  a = 0x6a09e667;
  b = 0xbb67ae85;
  c = 0x3c6ef372;
  d = 0xa54ff53a;
  e = 0x510e527f;
  f = 0x9b05688c;
  g = 0x1f83d9ab;
  h = 0x5be0cd19;
}

-- A new object: `reset` on the zeroed fields.
abbrev pub new : Sha256
new = record { state = initial; block = replicate 64 0; used = 0; total = 0 }

-- `w[i]` for the next `n` indices up to 16, big-endian.
unfoldable pub load_words : ℕ → ℕ → Bytes → List ℕ
load_words zero i chunk = []
load_words (suc n) i chunk =
    bit_or
      (bit_or
        (bit_or (get_or chunk (i * 4) 0 * 2 ^ 24 % 2 ^ 32)
          (get_or chunk (i * 4 + 1) 0 * 2 ^ 16 % 2 ^ 32))
        (get_or chunk (i * 4 + 2) 0 * 2 ^ 8 % 2 ^ 32))
      (get_or chunk (i * 4 + 3) 0)
    ∷ load_words n (i + 1) chunk

-- The next `n` words of the message schedule, from index `i`.
unfoldable pub schedule : ℕ → ℕ → List ℕ → List ℕ
schedule zero i w = w
schedule (suc n) i w =
    let x = get_or w (i - 15) 0 in
    let y = get_or w (i - 2) 0 in
    let s0 = bit_xor (bit_xor (rotr x 7) (rotr x 18)) (x / 2 ^ 3) in
    let s1 = bit_xor (bit_xor (rotr y 17) (rotr y 19)) (y / 2 ^ 10) in
    let v = add32 (add32 (add32 (get_or w (i - 16) 0) s0) (get_or w (i - 7) 0)) s1 in
    schedule n (i + 1) (set w i v)

unfoldable pub round : Words → ℕ → ℕ → Words
round v k w =
    let s1 = bit_xor (bit_xor (rotr v.e 6) (rotr v.e 11)) (rotr v.e 25) in
    let t1 = add32 (add32 (add32 (add32 v.h s1) (choose v.e v.f v.g)) k) w in
    let s0 = bit_xor (bit_xor (rotr v.a 2) (rotr v.a 13)) (rotr v.a 22) in
    let t2 = add32 s0 (majority v.a v.b v.c) in
    record {
      a = add32 t1 t2;
      b = v.a;
      c = v.b;
      d = v.c;
      e = add32 v.d t1;
      f = v.e;
      g = v.f;
      h = v.g;
    }

-- The rounds over the constants and the schedule, which have 64 words each.
unfoldable pub rounds : List ℕ → List ℕ → Words → Words
rounds (k ∷ ks) (w ∷ ws) v = rounds ks ws (round v k w)
rounds [] ws v = v
rounds (k ∷ ks) [] v = v

unfoldable pub transform : Words → Bytes → Words
transform s chunk =
    let w = schedule 48 16 (load_words 16 0 chunk ++ replicate 48 0) in
    let v = rounds round_constants w s in
    record {
      a = add32 s.a v.a;
      b = add32 s.b v.b;
      c = add32 s.c v.c;
      d = add32 s.d v.d;
      e = add32 s.e v.e;
      f = add32 s.f v.f;
      g = add32 s.g v.g;
      h = add32 s.h v.h;
    }

-- `memcpy(block + at, data, length data)`, or `fill` with equal bytes, inside the block.
abbrev pub copy_into : Bytes → ℕ → Bytes → Bytes
copy_into block at chunk = take at block ++ (chunk ++ drop (at + length chunk) block)

-- One round of the loop of `update`, with `n` bytes.
unfoldable pub absorb_part : Sha256 → Bytes → Sha256
absorb_part s part =
    let block = copy_into s.block s.used part in
    let used = s.used + length part in
    elim (used == 64) [
      | true ↦ record s { state = transform s.state block; block = block; used = 0 }
      | false ↦ record s { block = block; used = used }
    ]

unfoldable pub update_loop : ℕ → Sha256 → Bytes → Sha256
update_loop zero s input = s
update_loop (suc fuel) s [] = s
update_loop (suc fuel) s (x ∷ xs) =
    let n = min (length (x ∷ xs)) (64 - s.used) in
    update_loop fuel (absorb_part s (take n (x ∷ xs))) (drop n (x ∷ xs))

-- Each round takes a byte at least.
unfoldable pub update : Sha256 → Bytes → Sha256
update s input =
    update_loop (length input) (record s { total = (s.total + length input) % 2 ^ 64 }) input

-- `block[last - i] = bits >> (i * 8)` for the next `n` indices.
unfoldable pub store_length : ℕ → ℕ → ℕ → ℕ → Bytes → Bytes
store_length zero i last bits block = block
store_length (suc n) i last bits block =
    store_length n (i + 1) last bits (set block (last - i) (bits / 2 ^ (i * 8) % 2 ^ 8))

unfoldable pub word_digest : ℕ → Bytes
word_digest w = w / 2 ^ 24 % 2 ^ 8 ∷ w / 2 ^ 16 % 2 ^ 8 ∷ w / 2 ^ 8 % 2 ^ 8 ∷ w % 2 ^ 8 ∷ []

unfoldable pub digest : Words → Bytes
digest s =
    word_digest s.a
    ++ (word_digest s.b
        ++ (word_digest s.c
            ++ (word_digest s.d
                ++ (word_digest s.e ++ (word_digest s.f ++ (word_digest s.g ++ word_digest s.h))))))

-- The padding that does not fit into the block starts another.
unfoldable pub close_block : Words → Bytes → ℕ → Words × Bytes × ℕ
close_block state block used = elim (ltb 56 used) [
  | true ↦
      let full = copy_into block used (replicate (64 - used) 0) in (transform state full, full, 0)
  | false ↦ (state, block, used)
]

unfoldable pub finish : Sha256 → Bytes
finish s =
    let bits = s.total * 8 % 2 ^ 64 in
    let (state, block, used) = close_block s.state (set s.block s.used 0x80) (s.used + 1) in
    let block = copy_into block used (replicate (56 - used) 0) in
    digest (transform state (store_length 8 0 63 bits block))

unfoldable pub sha256 : Bytes → Bytes
sha256 input = finish (update new input)
