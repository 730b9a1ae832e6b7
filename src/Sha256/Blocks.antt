-- ===== src/Sha256/Blocks.antt =====
-- The specification of sha256.cpp: SHA-256 of a whole message, padded and cut into blocks.
use backup_system.Base.{
  ℕ, zero, suc, ◌+◌, ◌-◌, ◌*◌, ◌/◌, ◌%◌, ◌^◌, ◌≡◌, ◌≤◌, sym, ap, ap₂, ◌∙◌, length-zero, length-drop,
  take-append, drop-append, take_all, [], ◌∷◌, ◌++◌, length, take, drop, replicate, arith,
}
use Prim.Native.Nat.add
use backup_system.Stream.{Bytes}
use backup_system.Sha256.{Words, initial, transform, digest}

-- `k` blocks of 64 bytes.
unfoldable pub absorb : ℕ → Words → Bytes → Words
absorb zero state message = state
absorb (suc k) state message = absorb k (transform state (take 64 message)) (drop 64 message)

-- A 64-bit number with its highest byte first.
unfoldable pub big_endian : ℕ → Bytes
big_endian n =
    n / 2 ^ 56 % 2 ^ 8
    ∷ n / 2 ^ 48 % 2 ^ 8
    ∷ n / 2 ^ 40 % 2 ^ 8
    ∷ n / 2 ^ 32 % 2 ^ 8
    ∷ n / 2 ^ 24 % 2 ^ 8
    ∷ n / 2 ^ 16 % 2 ^ 8
    ∷ n / 2 ^ 8 % 2 ^ 8
    ∷ n % 2 ^ 8
    ∷ []

-- A one bit, zeros up to 56 bytes of a block, and the length in bits.
unfoldable pub padding : ℕ → Bytes
padding n = 0x80 ∷ replicate ((119 - n % 64) % 64) 0 ++ big_endian (n * 8 % 2 ^ 64)

abbrev pub padded : Bytes → Bytes
padded message = message ++ padding (length message)

unfoldable pub message_digest : Bytes → Bytes
message_digest message = digest (absorb (length (padded message) / 64) initial (padded message))

-- A part of whole blocks comes first.
pub absorb-append :
    (k m : ℕ) (state : Words) (xs ys : Bytes)
    → length xs ≡ k * 64
    → absorb (k + m) state (xs ++ ys) ≡ absorb m (absorb k state xs) ys
unfolding absorb
absorb-append zero m state xs ys h = rw (add.zero m, length-zero xs h)
absorb-append (suc k) m state xs ys h =
    let inside : 64 ≤ length xs = omega arith in
    let left : length (drop 64 xs) ≡ k * 64 = omega (arith, length-drop 64 xs) in
    rw (add.suc k m) (
      ap₂ (λ block rest. absorb (k + m) (transform state block) rest) (take-append 64 xs ys inside)
        (drop-append 64 xs ys inside)
      ∙ absorb-append k m (transform state (take 64 xs)) (drop 64 xs) ys left)

-- One block more at the end.
pub absorb-block :
    (k : ℕ) (state : Words) (xs block : Bytes)
    → length xs ≡ k * 64
    → length block ≡ 64
    → absorb (k + 1) state (xs ++ block) ≡ transform (absorb k state xs) block
unfolding absorb
absorb-block k state xs block h size =
    absorb-append k 1 state xs block h
    ∙ ap (transform (absorb k state xs)) (take_exact 64 block size)
  where
    take_exact : (n : ℕ) (ys : Bytes) → length ys ≡ n → take n ys ≡ ys
    take_exact n ys e = rw (sym e) (take_all ys)
