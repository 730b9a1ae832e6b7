-- ===== src/Crypto/Keystream.antt =====
-- Keystreams as crypto.cpp uses them: the XOR of bytes with a stream that is read at a position.
use backup_system.Base.{
  ℕ, zero, suc, ◌+◌, ◌^◌, ◌<◌, ◌≤◌, bit_xor, ◌≡◌, refl, sym, ap, ap₂, ◌∙◌, [], ◌∷◌, ◌++◌, length,
  get_or, take, drop, arith, min, ◌-◌, length-take, length-drop, length-zero, take-append-drop, ltb,
  ltb→lt, Bool-cases, inl, inr, get_or-drop,
}
use native.Mathlib.Nat.{pow-le-pow_right}
use backup_system.Base.Bits.{bit_xor-bit_xor}
use backup_system.Stream.{Bytes}

-- `data[i] ^= block[i]` for each byte of the data.
unfoldable pub xor_bytes : Bytes → Bytes → Bytes
xor_bytes [] ks = []
xor_bytes (x ∷ xs) [] = x ∷ xs
xor_bytes (x ∷ xs) (k ∷ ks) = bit_xor x k ∷ xor_bytes xs ks

-- The specification: each byte with the byte of the stream at its own position.
unfoldable pub xor_at : (ℕ → ℕ) → ℕ → Bytes → Bytes
xor_at stream position [] = []
xor_at stream position (x ∷ xs) = bit_xor x (stream position) ∷ xor_at stream (position + 1) xs

lt_pow : (n : ℕ) → n < 2 ^ n
lt_pow zero = omega arith
lt_pow (suc n) = omega (arith, lt_pow n)

pub bit_xor_twice : (a b : ℕ) → bit_xor (bit_xor a b) b ≡ a
bit_xor_twice a b =
    bit_xor-bit_xor (a + b) a b (lt-le (lt_pow a) (pow-le-pow_right (omega arith) (omega arith)))
      (lt-le (lt_pow b) (pow-le-pow_right (omega arith) (omega arith)))
  where
    lt-le : {x y z : ℕ} → x < y → y ≤ z → x < z
    lt-le h k = omega arith

pub xor_at-append :
    (stream : ℕ → ℕ) (position : ℕ) (xs ys : Bytes)
    → xor_at stream position (xs ++ ys)
      ≡ xor_at stream position xs ++ xor_at stream (position + length xs) ys
unfolding xor_at
xor_at-append stream position [] ys = ap (λ p. xor_at stream p ys) (omega arith)
xor_at-append stream position (x ∷ xs) ys =
    ap (λ t. bit_xor x (stream position) ∷ t)
      (xor_at-append stream (position + 1) xs ys
        ∙ ap (λ p. xor_at stream (position + 1) xs ++ xor_at stream p ys) (omega arith))

pub length-xor_at :
    (stream : ℕ → ℕ) (position : ℕ) (xs : Bytes) → length (xor_at stream position xs) ≡ length xs
unfolding xor_at
length-xor_at stream position [] = refl
length-xor_at stream position (x ∷ xs) = ap suc (length-xor_at stream (position + 1) xs)

pub xor_at-xor_at :
    (stream : ℕ → ℕ) (position : ℕ) (xs : Bytes)
    → xor_at stream position (xor_at stream position xs) ≡ xs
unfolding xor_at
xor_at-xor_at stream position [] = refl
xor_at-xor_at stream position (x ∷ xs) =
    ap₂ (λ y ys. y ∷ ys) (bit_xor_twice x (stream position))
      (xor_at-xor_at stream (position + 1) xs)

-- A part of a block is the stream at its place.
pub xor_bytes-xor_at :
    (stream : ℕ → ℕ) (position : ℕ) (xs ks : Bytes)
    → length xs ≤ length ks
    → ((i : ℕ) → i < length xs → get_or ks i 0 ≡ stream (position + i))
    → xor_bytes xs ks ≡ xor_at stream position xs
unfolding xor_bytes xor_at
xor_bytes-xor_at stream position [] ks h same = refl
xor_bytes-xor_at stream position (x ∷ xs) [] h same = absurd (omega arith)
xor_bytes-xor_at stream position (x ∷ xs) (k ∷ ks) h same =
    ap₂ (λ y ys. y ∷ ys) (ap (bit_xor x) (same 0 (omega arith) ∙ ap stream (omega arith)))
      (xor_bytes-xor_at stream (position + 1) xs ks (omega arith)
        (λ i lt. same (suc i) (omega arith) ∙ ap stream (omega arith)))

-- One block of a keystream, from `offset` on, and what follows it: the step of both loops.
pub block_step :
    (stream : ℕ → ℕ) (block : Bytes) (w offset start next : ℕ) (input : Bytes)
    → length block ≡ w
    → offset < w
    → ((j : ℕ) → j < w - offset → get_or block (offset + j) 0 ≡ stream (start + j))
    → next ≡ start + (w - offset)
    → (let n = min (length input) (w - offset) in
        xor_bytes (take n input) (drop offset block) ++ xor_at stream next (drop n input)
        ≡ xor_at stream start input)
block_step stream block w offset start next input size inside same e =
    let n = min (length input) (w - offset) in
    let part = take n input in
    let rest = drop n input in
    let part_size : length part ≡ n = omega (arith, length-take n input) in
    ap₂ (λ a b. a ++ b)
      (xor_bytes-xor_at stream start part (drop offset block)
        (omega (arith, length-take n input, length-drop offset block))
        (λ i lt. get_or-drop offset i block 0 ∙ same i (omega (arith, part_size))))
      (elim (Bool-cases (ltb (length input) (w - offset))) [
        | inl all ↦
            let none : rest ≡ [] =
              length-zero rest (omega (arith, length-drop n input, ltb→lt _ _ all)) in
            ap (xor_at stream next) none
            ∙ nothing
            ∙ ap (xor_at stream (start + length part)) (sym none)
        | inr more ↦ ap (λ p. xor_at stream p rest) (ground (arith, part_size))
      ])
    ∙ sym (xor_at-append stream start part rest)
    ∙ ap (xor_at stream start) (take-append-drop n input)
  where
    nothing :
        xor_at stream next []
        ≡ xor_at stream (start + length (take (min (length input) (w - offset)) input)) []
    nothing = unfold xor_at in refl
