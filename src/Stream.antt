-- ===== src/Stream.antt =====
-- DataBackup/core/common.cpp: exact reads and writes, little-endian words, length-prefixed strings.
-- An input stream is the list of bytes not read yet; a writer returns the bytes that it appends to
-- the output stream. A std::string is the list of its bytes.
pub mod Words
pub mod Text
pub mod Consumed
pub mod Equal
pub mod Copy
pub mod Post
pub mod Readers
use backup_system.Base.{
  ℕ, zero, suc, ◌+◌, ◌-◌, ◌*◌, ◌/◌, ◌%◌, ◌^◌, ◌<◌, min, bit_or, String, Bool, true, false, ◌&&◌,
  List, [], ◌∷◌, ◌++◌, length, take, drop, leb, ltb, ◌==◌, if◌then◌else◌,
}
use backup_system.Base.Outcome
use backup_system.Base.Outcome.{Result, ok, err, out_of_fuel}

abbrev pub Bytes : Type 0
Bytes = List ℕ

abbrev pub IsByte : ℕ → Type 0
IsByte b = b < 256

-- Reading from a std::istream: the value, and the bytes that are left.
abbrev pub Reader {ℓ} : Type ℓ → Type ℓ
Reader A = Bytes → Result (A × Bytes)

infixl 5 ◌>>=◌ ◌>>◌
abbrev pub ◌>>=◌ {ℓ κ} : {A : Type ℓ} {B : Type κ} → Reader A → (A → Reader B) → Reader B
◌>>=◌ m f = λ input. Outcome.◌>>=◌ (m input) λ (a, rest). f a rest

abbrev pub ◌>>◌ {ℓ κ} : {A : Type ℓ} {B : Type κ} → Reader A → Reader B → Reader B
m >> k = m >>= λ _. k

abbrev pub pure {ℓ} : {A : Type ℓ} → A → Reader A
pure a input = ok (a, input)

abbrev pub ensure : Bool → String → Reader (Unit {0})
ensure true message input = ok (tt, input)
ensure false message input = err message

-- `in.peek() == eof`, or the message.
unfoldable pub at_end : String → Reader (Unit {0})
at_end message [] = ok (tt, [])
at_end message (b ∷ bs) = err message

-- The value of a reader that has read all that it wants.
abbrev pub run {ℓ} : {A : Type ℓ} → Reader A → Bytes → Result A
run m input = Outcome.◌>>=◌ (m input) λ (a, rest). ok a

-- `==` on two arrays of bytes.
unfoldable pub bytes_eq : Bytes → Bytes → Bool
bytes_eq [] [] = true
bytes_eq (x ∷ xs) (y ∷ ys) = x == y && bytes_eq xs ys
bytes_eq [] (y ∷ ys) = false
bytes_eq (x ∷ xs) [] = false

abbrev pub buffer_size : ℕ
buffer_size = 1024 * 1024

abbrev pub max_string : ℕ
max_string = 1024 * 1024

unfoldable pub read_exact : ℕ → Reader Bytes
read_exact size input =
    if leb size (length input)
    then ok (take size input, drop size input)
    else err "truncated or unreadable input stream"

-- `b[i] = static_cast<uint8_t>(value >> (i * 8))` for the next `n` indices from `i` on.
unfoldable pub word_bytes : ℕ → ℕ → ℕ → Bytes
word_bytes zero i value = []
word_bytes (suc n) i value = (value / 2 ^ (i * 8) % 2 ^ 8) ∷ word_bytes n (i + 1) value

-- `v |= static_cast<uintW_t>(b[i]) << (i * 8)` over the bytes from index `i` on.
unfoldable pub or_bytes : ℕ → ℕ → ℕ → Bytes → ℕ
or_bytes w i v [] = v
or_bytes w i v (b ∷ bs) = or_bytes w (i + 1) (bit_or v (b * 2 ^ (i * 8) % 2 ^ w)) bs

unfoldable pub write_u8 : ℕ → Bytes
write_u8 value = word_bytes 1 0 value

unfoldable pub write_u16 : ℕ → Bytes
write_u16 value = word_bytes 2 0 value

unfoldable pub write_u32 : ℕ → Bytes
write_u32 value = word_bytes 4 0 value

unfoldable pub write_u64 : ℕ → Bytes
write_u64 value = word_bytes 8 0 value

-- One word of `n` bytes.
unfoldable pub read_word : ℕ → Reader ℕ
read_word n = do b ← read_exact n; pure (or_bytes (n * 8) 0 0 b)

unfoldable pub read_u8 : Reader ℕ
read_u8 = read_word 1

unfoldable pub read_u16 : Reader ℕ
read_u16 = read_word 2

unfoldable pub read_u32 : Reader ℕ
read_u32 = read_word 4

unfoldable pub read_u64 : Reader ℕ
read_u64 = read_word 8

unfoldable pub write_string : Bytes → Result Bytes
write_string value =
    if leb (length value) max_string
    then ok (write_u32 (length value) ++ value)
    else err "archive string is too long"

-- `value.find('\0') == std::string::npos`
unfoldable pub no_nul : Bytes → Bool
no_nul [] = true
no_nul (b ∷ bs) = let rest = no_nul bs in if b == 0 then false else rest

-- An empty string reads nothing more; `read_exact 0` does the same.
unfoldable pub read_string : Reader Bytes
read_string = do
  size ← read_u32
  ensure (leb size max_string) "archive string length exceeds safety limit"
  value ← read_exact size
  ensure (no_nul value) "archive path contains NUL"
  pure value

-- The loop of copyBytes; `done` bytes are copied so far.
unfoldable pub copy_loop : ℕ → ℕ → ℕ → Bytes → Reader Bytes
copy_loop zero count done output input = if ltb done count then out_of_fuel else ok (output, input)
copy_loop (suc fuel) count done output input = elim (ltb done count) [
  | true ↦
      let wanted = min buffer_size (count - done) in
      elim (leb wanted (length input)) [
        | true ↦
            copy_loop fuel count (done + wanted) (output ++ take wanted input) (drop wanted input)
        | false ↦ err "truncated input while copying data"
      ]
  | false ↦ ok (output, input)
]

-- Each round copies a byte at least, so `count` rounds are enough.
unfoldable pub copy_bytes : ℕ → Reader Bytes
unfolding copy_loop
copy_bytes count = copy_loop count count 0 []
