-- ===== src/Stream/Words.antt =====
-- Little-endian words: what was written reads back, and what is read fits the width.
use Prim.Native.Nat.add
use backup_system.Base.{
  ℕ, zero, suc, ◌+◌, ◌*◌, ◌/◌, ◌%◌, ◌^◌, ◌≤◌, ◌<◌, bit_or, ◌≡◌, refl, sym, ap, ap₂, ◌∙◌, [], ◌∷◌,
  ◌++◌, length, length-append, length-take, take_front, drop_front, take-append-drop, le→leb, All,
  arith,
}
use backup_system.Base.Bits.{bit_or_low, mod_unique}
use backup_system.Base.Outcome.{ok}
use backup_system.Stream.{
  Bytes, IsByte, read_exact, word_bytes, or_bytes, write_u8, write_u16, write_u32, write_u64,
  read_word, read_u8, read_u16, read_u32, read_u64,
}
use native.Mathlib.Nat.{
  one-le-pow, div-add-mod, mod-lt, mod-eq_of_lt, div-div-eq-div-mul, pow-le-pow_right, mul_comm,
  add-zero,
}
use native.Mathlib.Numerals.{towards_suc}

pub length-word_bytes : (n i v : ℕ) → length (word_bytes n i v) ≡ n
unfolding word_bytes
length-word_bytes zero i v = refl
length-word_bytes (suc n) i v = ap suc (length-word_bytes n (i + 1) v)

pub word_bytes-IsByte : (n i v : ℕ) → All IsByte (word_bytes n i v)
unfolding word_bytes
word_bytes-IsByte zero i v = tt
word_bytes-IsByte (suc n) i v = (omega arith, word_bytes-IsByte n (i + 1) v)

eight_up : (k : ℕ) → 2 ^ (k + 8) ≡ 256 * 2 ^ k
eight_up k = simp towards_suc (omega arith)

byte_up : (i : ℕ) → 2 ^ ((i + 1) * 8) ≡ 256 * 2 ^ (i * 8)
byte_up i = let e : (i + 1) * 8 ≡ i * 8 + 8 = omega arith in rw e (eight_up (i * 8))

byte_suc : (n : ℕ) → 2 ^ (suc n * 8) ≡ 256 * 2 ^ (n * 8)
byte_suc n = let e : suc n * 8 ≡ n * 8 + 8 = omega arith in rw e (eight_up (n * 8))

-- The lowest byte of `x` modulo `n + 1` bytes, and the rest.
mod_bytes : (n x : ℕ) → x % 2 ^ (suc n * 8) ≡ x % 256 + 256 * (x / 256 % 2 ^ (n * 8))
mod_bytes n x =
    mod_unique x (2 ^ (suc n * 8)) (x / 256 / 2 ^ (n * 8)) _
      (omega (
        arith,
        div-add-mod (x / 256) (2 ^ (n * 8)),
        ap (λ (t : ℕ). x / 256 / 2 ^ (n * 8) * t) (byte_suc n),
      ))
      (omega (arith, byte_suc n, mod-lt (x / 256) (one-le-pow (n * 8) 2 (omega arith))))

-- Adding a byte at its place is what `|=` does.
or_byte :
    (w i v b : ℕ)
    → v < 2 ^ (i * 8)
    → (i + 1) * 8 ≤ w
    → b < 256
    → (bit_or v (b * 2 ^ (i * 8) % 2 ^ w) ≡ v + b * 2 ^ (i * 8))
      × (v + b * 2 ^ (i * 8) < 2 ^ ((i + 1) * 8))
or_byte w i v b h fits byte = (rw (mod-eq_of_lt room) (bit_or_low (i * 8) v b h), below)
  where
    scaled : (b + 1) * 2 ^ (i * 8) ≤ 256 * 2 ^ (i * 8)
    scaled = grind arith

    below : v + b * 2 ^ (i * 8) < 2 ^ ((i + 1) * 8)
    below = omega (arith, byte_up i, scaled)

    room : b * 2 ^ (i * 8) < 2 ^ w
    room = omega (arith, below, pow-le-pow_right {n = 2} (omega arith) fits)

-- The digits of `x` from byte `i` on are put back at their place.
or_bytes-word_bytes :
    (w n i v x : ℕ)
    → v < 2 ^ (i * 8)
    → (i + n) * 8 ≤ w
    → or_bytes w i v (word_bytes n i x) ≡ v + x / 2 ^ (i * 8) % 2 ^ (n * 8) * 2 ^ (i * 8)
unfolding or_bytes word_bytes
or_bytes-word_bytes w zero i v x h fits =
    let none_left : x / 2 ^ (i * 8) % 2 ^ (0 * 8) ≡ 0 = omega arith in rw none_left (omega arith)
or_bytes-word_bytes w (suc n) i v x h fits =
    let p = 2 ^ (i * 8) in
    let b = x / p % 256 in
    let placed = or_byte w i v b h (omega arith) (omega arith) in
    ap (λ (t : ℕ). or_bytes w (i + 1) t (word_bytes n (i + 1) x)) placed.0
    ∙ or_bytes-word_bytes w n (i + 1) (v + b * p) x placed.1 (omega arith)
    ∙ omega (
      arith,
      ap (λ (t : ℕ). t * p) (mod_bytes n (x / p)),
      ap (λ (t : ℕ). t % 2 ^ (n * 8) * 2 ^ ((i + 1) * 8)) quotient,
      ap (λ (t : ℕ). x / p / 256 % 2 ^ (n * 8) * t) (byte_up i),
    )
  where
    quotient : x / 2 ^ ((i + 1) * 8) ≡ x / 2 ^ (i * 8) / 256
    quotient =
        ap (λ (t : ℕ). x / t) (byte_up i ∙ mul_comm 256 (2 ^ (i * 8)))
        ∙ sym (div-div-eq-div-mul x (2 ^ (i * 8)) 256)

-- Reading `n` bytes gives a number of that width.
or_bytes-lt :
    (w i v : ℕ) (bs : Bytes)
    → v < 2 ^ (i * 8)
    → (i + length bs) * 8 ≤ w
    → All IsByte bs
    → or_bytes w i v bs < 2 ^ ((i + length bs) * 8)
unfolding or_bytes
or_bytes-lt w i v [] h fits bytes = rw (add-zero i) h
or_bytes-lt w i v (b ∷ bs) h fits (hb, bytes) =
    let placed = or_byte w i v b h (omega arith) hb in
    let e : i + suc (length bs) ≡ i + 1 + length bs = omega arith in
    rw (placed.0, e) (or_bytes-lt w (i + 1) (v + b * 2 ^ (i * 8)) bs placed.1 (omega arith) bytes)

pub or_bytes_width :
    (n : ℕ) (b : Bytes) → length b ≡ n → All IsByte b → or_bytes (n * 8) 0 0 b < 2 ^ (n * 8)
or_bytes_width n b size bytes =
    rw (← size)
      (rw add.zero at (or_bytes-lt (length b * 8) 0 0 b (omega arith) (omega arith) bytes))

pub read_exact-append :
    (n : ℕ) (xs rest : Bytes) → n ≡ length xs → read_exact n (xs ++ rest) ≡ ok (xs, rest)
unfolding read_exact
read_exact-append n xs rest e = rw e (
    rw (le→leb (length xs) (length (xs ++ rest)) (omega (arith, length-append xs rest)))
      (rw (take_front xs rest, drop_front xs rest)))

pub read_exact-eq-ok :
    (n : ℕ) (input : Bytes) {xs rest : Bytes}
    → read_exact n input ≡ ok (xs, rest)
    → (input ≡ xs ++ rest) × (length xs ≡ n)
unfolding read_exact
read_exact-eq-ok n input h = ground (arith, sym (take-append-drop n input), length-take n input)

pub or_bytes-digits : (n v : ℕ) → v < 2 ^ (n * 8) → or_bytes (n * 8) 0 0 (word_bytes n 0 v) ≡ v
or_bytes-digits n v h =
    rw (or_bytes-word_bytes (n * 8) n 0 0 v (omega arith) (omega arith))
      (rw (mod-eq_of_lt {n = v / 2 ^ (0 * 8)} {m = 2 ^ (n * 8)} (omega arith)) (omega arith))

-- A word that fits `n` bytes, written from the lowest byte on, reads back, whatever follows it.
pub read_word-word_bytes :
    (n v : ℕ) (rest : Bytes)
    → v < 2 ^ (n * 8)
    → read_word n (word_bytes n 0 v ++ rest) ≡ ok (v, rest)
unfolding read_word
read_word-word_bytes n v rest h =
    rw (read_exact-append n (word_bytes n 0 v) rest (sym (length-word_bytes n 0 v)))
      (ap (λ (t : ℕ). ok (t, rest)) (or_bytes-digits n v h))

pub read_u8-write_u8 :
    (v : ℕ) (rest : Bytes) → v < 2 ^ 8 → read_u8 (write_u8 v ++ rest) ≡ ok (v, rest)
unfolding read_u8 write_u8
read_u8-write_u8 v rest h = read_word-word_bytes 1 v rest h

pub read_u16-write_u16 :
    (v : ℕ) (rest : Bytes) → v < 2 ^ 16 → read_u16 (write_u16 v ++ rest) ≡ ok (v, rest)
unfolding read_u16 write_u16
read_u16-write_u16 v rest h = read_word-word_bytes 2 v rest h

pub read_u32-write_u32 :
    (v : ℕ) (rest : Bytes) → v < 2 ^ 32 → read_u32 (write_u32 v ++ rest) ≡ ok (v, rest)
unfolding read_u32 write_u32
read_u32-write_u32 v rest h = read_word-word_bytes 4 v rest h

pub read_u64-write_u64 :
    (v : ℕ) (rest : Bytes) → v < 2 ^ 64 → read_u64 (write_u64 v ++ rest) ≡ ok (v, rest)
unfolding read_u64 write_u64
read_u64-write_u64 v rest h = read_word-word_bytes 8 v rest h

next_multiple : (p b c : ℕ) → b < c → (b + 1) * p ≤ c * p
next_multiple p b c h = grind arith

-- The digits below and at a place.
digit_unique : (p v v' b c : ℕ) → v < p → v' < p → v + b * p ≡ v' + c * p → (v ≡ v') × (b ≡ c)
digit_unique p v v' b c h h' e =
    let same : b ≡ c = ground (arith, next_multiple p b c, next_multiple p c b) in
    (omega (arith, ap (λ (t : ℕ). t * p) same), same)

-- Different bytes are different words.
or_bytes_injective :
    (w i v v' : ℕ) (bs cs : Bytes)
    → v < 2 ^ (i * 8)
    → v' < 2 ^ (i * 8)
    → length bs ≡ length cs
    → (i + length bs) * 8 ≤ w
    → All IsByte bs
    → All IsByte cs
    → or_bytes w i v bs ≡ or_bytes w i v' cs
    → (v ≡ v') × (bs ≡ cs)
unfolding or_bytes
or_bytes_injective w i v v' [] [] h h' size fits bytes bytes' e = (e, refl)
or_bytes_injective w i v v' [] (c ∷ cs) h h' size fits bytes bytes' e = absurd (omega arith)
or_bytes_injective w i v v' (b ∷ bs) [] h h' size fits bytes bytes' e = absurd (omega arith)
or_bytes_injective w i v v' (b ∷ bs) (c ∷ cs) h h' size fits (hb, bytes) (hc, bytes') e =
    let p = 2 ^ (i * 8) in
    let (same, lt) = or_byte w i v b h (omega arith) hb in
    let (same', lt') = or_byte w i v' c h' (omega arith) hc in
    let (low, tails) =
      or_bytes_injective w (i + 1) (v + b * p) (v' + c * p) bs cs lt lt' (omega arith) (omega arith)
        bytes bytes'
        (ap (λ (t : ℕ). or_bytes w (i + 1) t bs) (sym same)
          ∙ e
          ∙ ap (λ (t : ℕ). or_bytes w (i + 1) t cs) same') in
    let (rests, heads) = digit_unique p v v' b c h h' low in
    (rests, ap₂ (λ x xs. x ∷ xs) heads tails)

-- A word that was read is written as the bytes it was read from.
pub word_bytes-or_bytes :
    (n : ℕ) (b : Bytes) → length b ≡ n → All IsByte b → word_bytes n 0 (or_bytes (n * 8) 0 0 b) ≡ b
word_bytes-or_bytes n b size bytes =
    let x = or_bytes (n * 8) 0 0 b in
    (or_bytes_injective (n * 8) 0 0 0 (word_bytes n 0 x) b (omega arith) (omega arith)
      (length-word_bytes n 0 x ∙ sym size) (omega (arith, length-word_bytes n 0 x))
      (word_bytes-IsByte n 0 x) bytes (or_bytes-digits n x (or_bytes_width n b size bytes))).1
