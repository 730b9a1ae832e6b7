-- ===== src/Network/Wire.antt =====
-- Words and strings of the wire: what was put in reads back.
use Prim.Native.Nat.add
use backup_system.Base.{
  ℕ, zero, suc, ◌+◌, ◌*◌, ◌/◌, ◌%◌, ◌^◌, ◌≤◌, ◌<◌, bit_or, ◌≡◌, refl, sym, ap, ap₂, ◌∙◌, String,
  true, [], ◌∷◌, ◌++◌, append_assoc, length, length-append, take_front, take-append-drop,
  length-take, drop_front, le→leb, All, arith,
}
use backup_system.Base.Bits.{bit_or_high, mod_unique}
use backup_system.Base.Outcome.{ok}
use backup_system.Stream.{Bytes, IsByte, no_nul}
use backup_system.Network.{
  put_word, put_u16, put_u32, put_u64, put_string, shift_in, take_bytes, get_word, get_u16, get_u32,
  get_u64, get_string,
}
use native.Mathlib.Nat.{one-le-pow, div-add-mod, mod-lt, mod-eq_of_lt, pow-le-pow_right}
use native.Mathlib.Numerals.{towards_suc}

pub length-put_word : (n v : ℕ) → length (put_word n v) ≡ n
unfolding put_word
length-put_word zero v = refl
length-put_word (suc n) v = ap suc (length-put_word n v)

pub put_word-IsByte : (n v : ℕ) → All IsByte (put_word n v)
unfolding put_word
put_word-IsByte zero v = tt
put_word-IsByte (suc n) v = (omega arith, put_word-IsByte n v)

eight_up : (k : ℕ) → 2 ^ (k + 8) ≡ 256 * 2 ^ k
eight_up k = simp towards_suc (omega arith)

byte_suc : (n : ℕ) → 2 ^ (suc n * 8) ≡ 256 * 2 ^ (n * 8)
byte_suc n = let e : suc n * 8 ≡ n * 8 + 8 = omega arith in rw e (eight_up (n * 8))

-- The highest byte of `x` modulo `n + 1` bytes, and the rest.
mod_high : (n x : ℕ) → x % 2 ^ (suc n * 8) ≡ x / 2 ^ (n * 8) % 256 * 2 ^ (n * 8) + x % 2 ^ (n * 8)
mod_high n x =
    let p = 2 ^ (n * 8) in
    let high = x / p % 256 in
    let scaled : (high + 1) * p ≤ 256 * p = grind arith in
    mod_unique x (2 ^ (suc n * 8)) (x / p / 256) _
      (omega (
        arith,
        div-add-mod x p,
        ap (λ (t : ℕ). x / p / 256 * t) (byte_suc n),
        ap (λ (t : ℕ). t * p) (div-add-mod (x / p) 256),
      ))
      (omega (arith, byte_suc n, scaled, mod-lt x (one-le-pow (n * 8) 2 (omega arith))))

-- One byte more at the low end.
shift_byte :
    (w m v b : ℕ)
    → v < 2 ^ (m * 8)
    → suc m * 8 ≤ w
    → b < 256
    → (bit_or (v * 2 ^ 8 % 2 ^ w) b ≡ v * 256 + b) × (v * 256 + b < 2 ^ (suc m * 8))
shift_byte w m v b h fits byte = (rw (mod-eq_of_lt room) (bit_or_high 8 v b byte), below)
  where
    below : v * 256 + b < 2 ^ (suc m * 8)
    below = omega (arith, byte_suc m)

    room : v * 2 ^ 8 < 2 ^ w
    room = omega (arith, below, pow-le-pow_right {n = 2} (omega arith) fits)

shift_in-put_word :
    (w m n v x : ℕ)
    → v < 2 ^ (m * 8)
    → (m + n) * 8 ≤ w
    → shift_in w v (put_word n x) ≡ v * 2 ^ (n * 8) + x % 2 ^ (n * 8)
unfolding shift_in put_word
shift_in-put_word w m zero v x h fits = omega arith
shift_in-put_word w m (suc n) v x h fits =
    let p = 2 ^ (n * 8) in
    let b = x / p % 256 in
    let placed = shift_byte w m v b h (omega arith) (omega arith) in
    ap (λ (t : ℕ). shift_in w t (put_word n x)) placed.0
    ∙ shift_in-put_word w (suc m) n (v * 256 + b) x placed.1 (omega arith)
    ∙ omega (arith, mod_high n x, ap (λ (t : ℕ). v * t) (byte_suc n))

-- What was read fits the width.
shift_in-lt :
    (w m v : ℕ) (bs : Bytes)
    → v < 2 ^ (m * 8)
    → (m + length bs) * 8 ≤ w
    → All IsByte bs
    → shift_in w v bs < 2 ^ ((m + length bs) * 8)
unfolding shift_in
shift_in-lt w m v [] h fits bytes = let e : (m + 0) * 8 ≡ m * 8 = omega arith in rw e h
shift_in-lt w m v (b ∷ bs) h fits (hb, bytes) =
    let placed = shift_byte w m v b h (omega arith) hb in
    let e : m + suc (length bs) ≡ suc m + length bs = omega arith in
    rw (placed.0, e) (shift_in-lt w (suc m) (v * 256 + b) bs placed.1 (omega arith) bytes)

pub shift_in_width :
    (n : ℕ) (b : Bytes) → length b ≡ n → All IsByte b → shift_in (n * 8) 0 b < 2 ^ (n * 8)
shift_in_width n b size bytes =
    rw (← size)
      (rw add.zero at (shift_in-lt (length b * 8) 0 0 b (omega arith) (omega arith) bytes))

-- Different bytes are different words.
shift_in_injective :
    (w m v v' : ℕ) (bs cs : Bytes)
    → v < 2 ^ (m * 8)
    → v' < 2 ^ (m * 8)
    → length bs ≡ length cs
    → (m + length bs) * 8 ≤ w
    → All IsByte bs
    → All IsByte cs
    → shift_in w v bs ≡ shift_in w v' cs
    → (v ≡ v') × (bs ≡ cs)
unfolding shift_in
shift_in_injective w m v v' [] [] h h' size fits bytes bytes' e = (e, refl)
shift_in_injective w m v v' [] (c ∷ cs) h h' size fits bytes bytes' e = absurd (omega arith)
shift_in_injective w m v v' (b ∷ bs) [] h h' size fits bytes bytes' e = absurd (omega arith)
shift_in_injective w m v v' (b ∷ bs) (c ∷ cs) h h' size fits (hb, bytes) (hc, bytes') e =
    let (same, lt) = shift_byte w m v b h (omega arith) hb in
    let (same', lt') = shift_byte w m v' c h' (omega arith) hc in
    let (heads, tails) =
      shift_in_injective w (suc m) (v * 256 + b) (v' * 256 + c) bs cs lt lt' (omega arith)
        (omega arith) bytes bytes'
        (ap (λ (t : ℕ). shift_in w t bs) (sym same) ∙ e ∙ ap (λ (t : ℕ). shift_in w t cs) same') in
    (omega arith, ap₂ (λ x xs. x ∷ xs) (omega arith) tails)

-- A word that was read is written as the bytes it was read from.
pub put_word-shift_in :
    (n : ℕ) (b : Bytes) → length b ≡ n → All IsByte b → put_word n (shift_in (n * 8) 0 b) ≡ b
put_word-shift_in n b size bytes =
    let x = shift_in (n * 8) 0 b in
    let back : shift_in (n * 8) 0 (put_word n x) ≡ x =
      shift_in-put_word (n * 8) 0 n 0 x (omega arith) (omega arith)
      ∙ omega (arith, mod-eq_of_lt {n = x} {m = 2 ^ (n * 8)} (shift_in_width n b size bytes)) in
    (shift_in_injective (n * 8) 0 0 0 (put_word n x) b (omega arith) (omega arith)
      (length-put_word n x ∙ sym size) (omega (arith, length-put_word n x)) (put_word-IsByte n x)
      bytes back).1

pub take_bytes-eq-ok :
    (message : String) (n : ℕ) (input : Bytes) {xs rest : Bytes}
    → take_bytes message n input ≡ ok (xs, rest)
    → (input ≡ xs ++ rest) × (length xs ≡ n)
unfolding take_bytes
take_bytes-eq-ok message n input h =
    ground (arith, sym (take-append-drop n input), length-take n input)

pub take_bytes-append :
    (message : String) (n : ℕ) (xs rest : Bytes)
    → n ≡ length xs
    → take_bytes message n (xs ++ rest) ≡ ok (xs, rest)
unfolding take_bytes
take_bytes-append message n xs rest e = rw e (
    rw (le→leb (length xs) (length (xs ++ rest)) (omega (arith, length-append xs rest)))
      (rw (take_front xs rest, drop_front xs rest)))

-- A word that fits `n` bytes, put highest byte first, reads back, whatever follows it.
pub get_word-put_word :
    (n v : ℕ) (rest : Bytes) → v < 2 ^ (n * 8) → get_word n (put_word n v ++ rest) ≡ ok (v, rest)
unfolding get_word
get_word-put_word n v rest h =
    rw (take_bytes-append _ n (put_word n v) rest (sym (length-put_word n v)))
      (ap (λ (t : ℕ). ok (t, rest)) value)
  where
    value : shift_in (n * 8) 0 (put_word n v) ≡ v
    value =
        rw (shift_in-put_word (n * 8) 0 n 0 v (omega arith) (omega arith))
          (rw (mod-eq_of_lt {n = v} {m = 2 ^ (n * 8)} h) (omega arith))

pub get_u16-put_u16 :
    (v : ℕ) (rest : Bytes) → v < 2 ^ 16 → get_u16 (put_u16 v ++ rest) ≡ ok (v, rest)
unfolding get_u16 put_u16
get_u16-put_u16 v rest h = get_word-put_word 2 v rest h

pub get_u32-put_u32 :
    (v : ℕ) (rest : Bytes) → v < 2 ^ 32 → get_u32 (put_u32 v ++ rest) ≡ ok (v, rest)
unfolding get_u32 put_u32
get_u32-put_u32 v rest h = get_word-put_word 4 v rest h

pub get_u64-put_u64 :
    (v : ℕ) (rest : Bytes) → v < 2 ^ 64 → get_u64 (put_u64 v ++ rest) ≡ ok (v, rest)
unfolding get_u64 put_u64
get_u64-put_u64 v rest h = get_word-put_word 8 v rest h

pub put_string-eq : (s : Bytes) → length s ≤ 65535 → put_string s ≡ ok (put_u16 (length s) ++ s)
unfolding put_string
put_string-eq s h = rw (le→leb (length s) 65535 h)

pub get_string-put_string :
    (s rest : Bytes)
    → length s ≤ 65535
    → no_nul s ≡ true
    → get_string ((put_u16 (length s) ++ s) ++ rest) ≡ ok (s, rest)
unfolding get_string
get_string-put_string s rest h clean = rw (append_assoc (put_u16 (length s)) s rest) (
    rw (get_u16-put_u16 (length s) (s ++ rest) (omega arith))
      (rw (take_bytes-append _ (length s) s rest refl) (rw clean)))
