-- ===== src/Crypto/Aes256/Counter.antt =====
-- aes256CtrXor of crypto.cpp against the counter mode of NIST SP 800-38A: the block at index i of the
-- keystream is the encryption of the initial counter, a big-endian number of 128 bits, plus i.
use backup_system.Base.{
  ℕ, zero, suc, ◌+◌, ◌*◌, ◌/◌, ◌%◌, bit_xor, ◌≡◌, refl, sym, ap, ap₂, ◌∙◌, inl, inr, [], ◌∷◌, ◌++◌,
  append_assoc, append-nil, length, length-zero, get_or, set, ◌==◌, ==_iff, Bool-cases, All,
  All-split, arith,
}
use backup_system.Stream.{Bytes, IsByte}
use backup_system.Crypto.Keystream.{xor_at}
use backup_system.Crypto.Aes256.{
  aes256_encrypt_block, aes256_expand_key, add_counter, aes256_ctr_xor,
}
use backup_system.Crypto.Aes256.Xor.{aes256_blocks, aes256_ctr_xor-loop}

-- The number that bytes say, the highest first, after `high`.
unfoldable pub be_value : ℕ → Bytes → ℕ
be_value high [] = high
be_value high (b ∷ bs) = be_value (high * 256 + b) bs

-- The lowest `n` bytes of a number, the highest first.
unfoldable pub be_bytes : ℕ → ℕ → Bytes
be_bytes zero v = []
be_bytes (suc n) v = be_bytes n (v / 256) ++ (v % 256 ∷ [])

-- The counter block at an index, modulo 2 ^ 128.
unfoldable pub counter_block : Bytes → ℕ → Bytes
counter_block counter index = be_bytes 16 (be_value 0 counter + index)

-- The byte of the keystream of counter mode at a position.
unfoldable pub ctr_stream : Bytes → Bytes → ℕ → ℕ
ctr_stream key counter position =
    get_or (aes256_encrypt_block (aes256_expand_key key) (counter_block counter (position / 16)))
      (position % 16) 0

be_value-snoc :
    (high : ℕ) (xs : Bytes) (x : ℕ) → be_value high (xs ++ (x ∷ [])) ≡ be_value high xs * 256 + x
unfolding be_value
be_value-snoc high [] x = refl
be_value-snoc high (b ∷ bs) x = be_value-snoc (high * 256 + b) bs x

snoc_cases :
    (n : ℕ) (xs : Bytes)
    → length xs ≡ suc n
    → (front : Bytes) × (x : ℕ) × (xs ≡ front ++ (x ∷ [])) × (length front ≡ n)
snoc_cases n [] h = absurd (omega (arith, h))
snoc_cases zero (x ∷ xs) h =
    let none : xs ≡ [] = length-zero xs (omega (arith, h)) in ([], x, ap (λ t. x ∷ t) none, refl)
snoc_cases (suc n) (x ∷ xs) h =
    let (front, y, e, size) = snoc_cases n xs (omega (arith, h)) in
    (x ∷ front, y, ap (λ t. x ∷ t) e, ap suc size)

be_bytes-be_value :
    (n : ℕ) (xs : Bytes) → length xs ≡ n → All IsByte xs → be_bytes n (be_value 0 xs) ≡ xs
unfolding be_bytes
be_bytes-be_value zero xs size bytes = sym (length-zero xs size)
be_bytes-be_value (suc n) xs size bytes =
    let (front, x, e, shorter) = snoc_cases n xs size in
    let (small, (byte, _)) = All-split IsByte front (x ∷ []) (rw e at bytes) in
    let value : be_value 0 xs ≡ be_value 0 front * 256 + x =
      ap (λ t. be_value 0 t) e ∙ be_value-snoc 0 front x in
    let high : be_value 0 xs / 256 ≡ be_value 0 front = omega (arith, value) in
    let low : be_value 0 xs % 256 ≡ x = omega (arith, value) in
    ap₂ (λ a b. a ++ (b ∷ []))
      (ap (λ t. be_bytes n t) high ∙ be_bytes-be_value n front shorter small) low
    ∙ sym e

get_or-middle : (front ys : Bytes) (x : ℕ) → get_or (front ++ x ∷ ys) (length front) 0 ≡ x
get_or-middle [] ys x = refl
get_or-middle (b ∷ front) ys x = get_or-middle front ys x

set-middle : (front ys : Bytes) (x v : ℕ) → set (front ++ x ∷ ys) (length front) v ≡ front ++ v ∷ ys
set-middle [] ys x v = refl
set-middle (b ∷ front) ys x v = ap (λ t. b ∷ t) (set-middle front ys x v)

-- The carry loop adds the index to the number that the bytes say.
add_counter-be_bytes :
    (n carry : ℕ) (xs ys : Bytes)
    → length xs ≡ n
    → All IsByte xs
    → add_counter n carry (xs ++ ys) ≡ be_bytes n (be_value 0 xs + carry) ++ ys
unfolding add_counter be_bytes
add_counter-be_bytes zero carry xs ys size bytes = ap (λ t. t ++ ys) (length-zero xs size)
add_counter-be_bytes (suc n) carry xs ys size bytes =
    let (front, x, e, shorter) = snoc_cases n xs size in
    let (small, (byte, _)) = All-split IsByte front (x ∷ []) (rw e at bytes) in
    let value : be_value 0 xs ≡ be_value 0 front * 256 + x =
      ap (λ t. be_value 0 t) e ∙ be_value-snoc 0 front x in
    let whole : xs ++ ys ≡ front ++ x ∷ ys = ap (λ t. t ++ ys) e ∙ append_assoc front (x ∷ []) ys in
    let sum = x + carry % 256 in
    let read : get_or (xs ++ ys) n 0 ≡ x =
      ap₂ (λ t i. get_or t i 0) whole (sym shorter) ∙ get_or-middle front ys x in
    let written : set (xs ++ ys) n (sum % 256) ≡ front ++ (sum % 256) ∷ ys =
      ap₂ (λ t i. set t i (sum % 256)) whole (sym shorter) ∙ set-middle front ys x (sum % 256) in
    let high : be_value 0 front + (carry / 256 + sum / 256) ≡ (be_value 0 xs + carry) / 256 =
      omega (arith, value) in
    let low : sum % 256 ≡ (be_value 0 xs + carry) % 256 = omega (arith, value) in
    elim (Bool-cases (carry == 0)) [
      | inl zeroed ↦
          let same : be_value 0 xs + carry ≡ be_value 0 xs =
            omega (arith, (==_iff carry 0).0 zeroed) in
          rw (zeroed, same) (ap (λ t. t ++ ys) (sym (be_bytes-be_value (suc n) xs size bytes)))
      | inr some ↦
          rw (some, read)
            (ap (λ t. add_counter n (carry / 256 + sum / 256) t) written
              ∙ add_counter-be_bytes n (carry / 256 + sum / 256) front ((sum % 256) ∷ ys) shorter
                  small
              ∙ ap₂ (λ a b. be_bytes n a ++ b ∷ ys) high low
              ∙ sym (
                  append_assoc (be_bytes n ((be_value 0 xs + carry) / 256))
                    ((be_value 0 xs + carry) % 256 ∷ []) ys))
    ]

xor_at-same :
    (f g : ℕ → ℕ)
    → ((p : ℕ) → f p ≡ g p)
    → (position : ℕ) (input : Bytes) → xor_at f position input ≡ xor_at g position input
unfolding xor_at
xor_at-same f g same position [] = refl
xor_at-same f g same position (x ∷ xs) =
    ap₂ (λ a b. bit_xor x a ∷ b) (same position) (xor_at-same f g same (position + 1) xs)

same_block :
    (key counter : Bytes) (position : ℕ)
    → length counter ≡ 16
    → All IsByte counter
    → aes256_blocks (aes256_expand_key key) counter position ≡ ctr_stream key counter position
unfolding aes256_blocks ctr_stream counter_block
same_block key counter position size bytes =
    let added : add_counter 16 (position / 16) counter
        ≡ be_bytes 16 (be_value 0 counter + position / 16) =
      ap (λ t. add_counter 16 (position / 16) t) (sym (append-nil counter))
      ∙ add_counter-be_bytes 16 (position / 16) counter [] size bytes
      ∙ append-nil (be_bytes 16 (be_value 0 counter + position / 16)) in
    ap (λ t. get_or (aes256_encrypt_block (aes256_expand_key key) t) (position % 16) 0) added

-- The bytes are XORed with the keystream of counter mode, each at its own position: the block at an
-- index is the encryption of the counter, a big-endian number of 16 bytes, plus the index, modulo
-- 2 ^ 128.
pub aes256_ctr_xor-eq :
    (key counter : Bytes) (position : ℕ) (input : Bytes)
    → length counter ≡ 16
    → All IsByte counter
    → aes256_ctr_xor key counter position input ≡ xor_at (ctr_stream key counter) position input
aes256_ctr_xor-eq key counter position input size bytes =
    aes256_ctr_xor-loop key counter position input
    ∙ xor_at-same (aes256_blocks (aes256_expand_key key) counter) (ctr_stream key counter)
        (λ p. same_block key counter p size bytes) position input
