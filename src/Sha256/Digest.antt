-- ===== src/Sha256/Digest.antt =====
-- The digest of sha256.cpp: `finish` pads what was read and gives the specified digest.
use backup_system.Base.{
  ℕ, zero, suc, ◌+◌, ◌-◌, ◌*◌, ◌/◌, ◌%◌, ◌^◌, ◌≤◌, ◌<◌, ◌≡◌, refl, sym, ap, ap₂, ◌∙◌, true, false,
  Bool-cases, inl, inr, [], ◌∷◌, ◌++◌, append_assoc, append-nil, length, length-append, length-take,
  length-drop, length-set, length-zero, length-replicate, replicate-append, take, drop, set,
  set-append, replicate, ltb, ltb→lt, arith,
}
use Prim.Native.Nat.add
use backup_system.Stream.{Bytes}
use backup_system.Sha256.{
  Sha256, new, initial, transform, copy_into, close_block, finish, store_length, digest, update,
  sha256,
}
use backup_system.Sha256.Blocks.{absorb, absorb-block, big_endian, padding, padded, message_digest}
use backup_system.Sha256.Streaming.{Absorbed, HasRead, new-HasRead, update-HasRead, take-copy_into}

-- The loop that stores the length writes behind the first part of the block.
store_length-append :
    (n i last bits : ℕ) (xs ys : Bytes)
    → i + n ≤ last + 1
    → store_length n i (length xs + last) bits (xs ++ ys) ≡ xs ++ store_length n i last bits ys
unfolding store_length
store_length-append zero i last bits xs ys h = refl
store_length-append (suc n) i last bits xs ys h =
    let at : length xs + last - i ≡ length xs + (last - i) = omega arith in
    let v = bits / 2 ^ (i * 8) % 2 ^ 8 in
    ap (λ j. store_length n (i + 1) (length xs + last) bits (set (xs ++ ys) j v)) at
    ∙ ap (store_length n (i + 1) (length xs + last) bits) (set-append xs ys (last - i) v)
    ∙ store_length-append n (i + 1) last bits xs (set ys (last - i) v) (omega arith)

store_length-eq :
    (bits : ℕ) (ys : Bytes)
    → length ys ≡ 8
    → bits < 2 ^ 64
    → store_length 8 0 7 bits ys ≡ big_endian bits
unfolding store_length big_endian
store_length-eq bits (a ∷ b ∷ c ∷ d ∷ e ∷ f ∷ g ∷ h ∷ []) size small =
    let whole : bits / 2 ^ 0 ≡ bits = omega arith in rw whole
store_length-eq bits ys size small = absurd (omega arith)

-- A block of which all but the last eight bytes are known.
store_length-block :
    (bits : ℕ) (xs ys : Bytes)
    → length xs ≡ 56
    → length ys ≡ 8
    → bits < 2 ^ 64
    → store_length 8 0 63 bits (xs ++ ys) ≡ xs ++ big_endian bits
store_length-block bits xs ys hx hy small =
    ap (λ n. store_length 8 0 n bits (xs ++ ys)) (omega arith)
    ∙ store_length-append 8 0 7 bits xs ys (omega arith)
    ∙ ap (λ t. xs ++ t) (store_length-eq bits ys hy small)

length-big_endian : (n : ℕ) → length (big_endian n) ≡ 8
unfolding big_endian
length-big_endian n = refl

set-copy_into :
    (block : Bytes) (i v : ℕ) → i < length block → set block i v ≡ copy_into block i (v ∷ [])
set-copy_into [] i v h = absurd (omega arith)
set-copy_into (x ∷ xs) zero v h = refl
set-copy_into (x ∷ xs) (suc i) v h =
    rw (add.suc i 1) (ap (λ t. x ∷ t) (set-copy_into xs i v (omega arith)))

message_digest-eq :
    (k : ℕ) (message xs : Bytes)
    → padded message ≡ xs
    → length xs ≡ k * 64
    → message_digest message ≡ digest (absorb k initial xs)
unfolding message_digest
message_digest-eq k message xs e size =
    ap (λ t. digest (absorb (length t / 64) initial t)) e
    ∙ ap (λ n. digest (absorb n initial xs)) (omega arith)

-- What `finish` computes where the padding needs a block more, and where it does not.
finish-full :
    (s : Sha256)
    → ltb 56 (s.used + 1) ≡ true
    → finish s ≡ (
        let full =
          copy_into (set s.block s.used 0x80) (s.used + 1) (replicate (64 - (s.used + 1)) 0) in
        digest (
          transform
            (transform s.state full)
            (store_length 8 0 63 (s.total * 8 % 2 ^ 64) (copy_into full 0 (replicate (56 - 0) 0)))))
unfolding finish close_block
finish-full s h = rw (h, finish, close_block)

finish-last :
    (s : Sha256)
    → ltb 56 (s.used + 1) ≡ false
    → finish s
      ≡ digest (
          transform s.state (
            store_length 8 0 63
              (s.total * 8 % 2 ^ 64)
              (copy_into (set s.block s.used 0x80) (s.used + 1) (replicate (56 - (s.used + 1)) 0))))
unfolding finish close_block
finish-last s h = rw (h, finish, close_block)

-- The block with the one bit: what was pending, the bit, and stale bytes.
one_bit :
    (s : Sha256) (message : Bytes)
    → Absorbed s message
    → (take (s.used + 1) (set s.block s.used 0x80) ≡ take s.used s.block ++ 0x80 ∷ [])
      × (length (set s.block s.used 0x80) ≡ 64)
one_bit s message h = (
  ap (take (s.used + 1))
        (set-copy_into s.block s.used 0x80 (omega (arith, h.used_lt, h.block_size)))
      ∙ take-copy_into s.block s.used (0x80 ∷ []) (omega (arith, h.used_lt, h.block_size)),
  length-set s.block s.used 0x80 ∙ h.block_size,
)

-- The padded message of an object, `z` zeros being due.
padded-eq :
    (s : Sha256) (message : Bytes) (z : ℕ)
    → (h : HasRead s message) → (119 - s.used) % 64 ≡ z
    → padded message
      ≡ h.absorbed.full
        ++ ((take s.used s.block ++ 0x80 ∷ [])
            ++ (replicate z 0 ++ big_endian (s.total * 8 % 2 ^ 64)))
unfolding padding
padded-eq s message z h due =
    let a = h.absorbed in
    let pending = take s.used s.block in
    let size : length message % 64 ≡ s.used = omega (
      arith,
      ap length a.split,
      length-append a.full pending,
      length-take s.used s.block,
      a.whole,
      a.used_lt,
      a.block_size,
    ) in
    let bits : length message * 8 % 2 ^ 64 ≡ s.total * 8 % 2 ^ 64 = omega (arith, h.counted) in
    let zeros : (119 - length message % 64) % 64 ≡ z = omega (arith, size, due) in
    ap₂ (λ n m. message ++ 0x80 ∷ (replicate n 0 ++ big_endian m)) zeros bits
    ∙ ap (λ t. t ++ 0x80 ∷ (replicate z 0 ++ big_endian (s.total * 8 % 2 ^ 64))) a.split
    ∙ simp append_assoc

-- What is pending, the one bit, and zeros up to the place `end` of the block.
ended : Sha256 → ℕ → Bytes
ended s end = (take s.used s.block ++ 0x80 ∷ []) ++ replicate (end - (s.used + 1)) 0

fill_to :
    (s : Sha256) (message : Bytes) (end : ℕ)
    → Absorbed s message
    → s.used + 1 ≤ end
    → (copy_into (set s.block s.used 0x80) (s.used + 1) (replicate (end - (s.used + 1)) 0)
        ≡ ended s end ++ drop end (set s.block s.used 0x80))
      × (length (ended s end) ≡ end)
unfolding ended
fill_to s message end a h =
    let zeros = replicate (end - (s.used + 1)) 0 in
    let marked = set s.block s.used 0x80 in
    let pending = take s.used s.block in
    let count : length zeros ≡ end - (s.used + 1) = length-replicate (end - (s.used + 1)) 0 in
    let place : s.used + 1 + length zeros ≡ end = omega (arith, count) in
    (
      ap₂ (λ front n. front ++ (zeros ++ drop n marked)) (one_bit s message a).0 place
          ∙ sym (append_assoc (pending ++ 0x80 ∷ []) zeros (drop end marked)),
      omega (
        arith,
        length-append (pending ++ 0x80 ∷ []) zeros,
        length-append pending (0x80 ∷ []),
        length-take s.used s.block,
        a.block_size,
        a.used_lt,
        count,
      ),
    )

finish-short :
    (s : Sha256) (message : Bytes)
    → HasRead s message
    → ltb 56 (s.used + 1) ≡ false
    → finish s ≡ message_digest message
unfolding ended
finish-short s message h short =
    let a = h.absorbed in
    let used_le : s.used + 1 ≤ 56 = ground arith in
    let (filled, start_size) = fill_to s message 56 a used_le in
    let bits = s.total * 8 % 2 ^ 64 in
    let small : bits < 2 ^ 64 = omega arith in
    let tail = drop 56 (set s.block s.used 0x80) in
    let tail_size : length tail ≡ 8 =
      omega (arith, length-drop 56 (set s.block s.used 0x80), (one_bit s message a).1) in
    let last = ended s 56 ++ big_endian bits in
    let last_size : length last ≡ 64 =
      omega
        (arith, length-append (ended s 56) (big_endian bits), start_size, length-big_endian bits) in
    finish-last s short
    ∙ ap (λ t. digest (transform s.state (store_length 8 0 63 bits t))) filled
    ∙ ap (λ t. digest (transform s.state t))
        (store_length-block bits (ended s 56) tail start_size tail_size small)
    ∙ ap (λ t. digest (transform t last)) a.state_is
    ∙ ap digest (sym (absorb-block a.blocks initial a.full last a.whole last_size))
    ∙ sym (
        message_digest-eq (a.blocks + 1) message (a.full ++ last)
          (padded-eq s message (56 - (s.used + 1)) h (omega (arith, used_le)) ∙ simp append_assoc)
          (omega (arith, length-append a.full last, a.whole, last_size)))

zeros_split :
    (xs ys : Bytes) (n m : ℕ) (end : Bytes)
    → xs ++ (ys ++ (replicate (n + m) 0 ++ end))
      ≡ (xs ++ (ys ++ replicate n 0)) ++ (replicate m 0 ++ end)
zeros_split xs ys n m end = rw (sym (replicate-append {A = ℕ} n m 0)) (simp append_assoc)

finish-long :
    (s : Sha256) (message : Bytes)
    → HasRead s message
    → ltb 56 (s.used + 1) ≡ true
    → finish s ≡ message_digest message
unfolding ended
finish-long s message h long =
    let a = h.absorbed in
    let used_ge : 56 < s.used + 1 = ltb→lt 56 (s.used + 1) long in
    let used_le : s.used + 1 ≤ 64 = omega (arith, a.used_lt) in
    let marked = set s.block s.used 0x80 in
    let (filled, full_size) = fill_to s message 64 a used_le in
    let nothing : drop 64 marked ≡ [] =
      length-zero (drop 64 marked)
        (omega (arith, length-drop 64 marked, (one_bit s message a).1)) in
    let full = ended s 64 in
    let full_is : copy_into marked (s.used + 1) (replicate (64 - (s.used + 1)) 0) ≡ full =
      filled ∙ ap (λ t. full ++ t) nothing ∙ append-nil full in
    let bits = s.total * 8 % 2 ^ 64 in
    let small : bits < 2 ^ 64 = omega arith in
    let last = replicate 56 0 ++ big_endian bits in
    let last_size : length last ≡ 64 = omega (arith, length-big_endian bits) in
    let z = 64 - (s.used + 1) + 56 in
    finish-full s long
    ∙ ap
        (λ t. digest (
          transform (transform s.state t)
            (store_length 8 0 63 bits (copy_into t 0 (replicate (56 - 0) 0)))))
        full_is
    ∙ ap (λ t. digest (transform (transform s.state full) t))
        (store_length-block bits (replicate 56 0) (drop 56 full) refl
          (omega (arith, length-drop 56 full, full_size)) small)
    ∙ ap (λ t. digest (transform (transform t full) last)) a.state_is
    ∙ ap (λ t. digest (transform t last))
        (sym (absorb-block a.blocks initial a.full full a.whole full_size))
    ∙ ap digest (
        sym (
          absorb-block (a.blocks + 1) initial (a.full ++ full) last
            (omega (arith, length-append a.full full, a.whole, full_size)) last_size))
    ∙ sym (
        message_digest-eq (a.blocks + 1 + 1) message ((a.full ++ full) ++ last)
          (padded-eq s message z h (omega (arith, used_ge, a.used_lt))
            ∙ zeros_split a.full (take s.used s.block ++ 0x80 ∷ []) (64 - (s.used + 1)) 56
                (big_endian bits))
          (omega (
            arith,
            length-append (a.full ++ full) last,
            length-append a.full full,
            a.whole,
            full_size,
            last_size,
          )))

-- The digest of an object that has read `message`, in however many parts, is the specified one.
pub finish-HasRead :
    (s : Sha256) (message : Bytes) → HasRead s message → finish s ≡ message_digest message
finish-HasRead s message h = elim (Bool-cases (ltb 56 (s.used + 1))) [
  | inl long ↦ finish-long s message h long
  | inr short ↦ finish-short s message h short
]

-- The one-shot function gives the digest of the whole message, padded and taken block by block.
pub sha256-eq : (message : Bytes) → sha256 message ≡ message_digest message
unfolding sha256
sha256-eq message =
    finish-HasRead (update new message) message (update-HasRead new [] message new-HasRead)
