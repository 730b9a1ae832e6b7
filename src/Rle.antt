-- ===== src/Rle.antt =====
-- DataBackup/core/compress_rle.cpp: run-length coding.
-- The encoder reads its input in buffers of 1 MiB and keeps its state across them, so the buffers
-- are read here as one list of bytes.
pub mod Blocks
pub mod Encode
pub mod RoundTrip
use backup_system.Base.{
  ℕ, zero, suc, ◌+◌, ◌-◌, ◌≤◌, ◌<◌, ◌^◌, bit_and, bit_or, String, Bool, true, false, ◌&&◌, not,
  List, [], ◌∷◌, ◌++◌, length, is_empty, replicate, leb, ltb, ◌==◌, if◌then◌else◌,
}
use backup_system.Base.Outcome.{Result, ok, err, out_of_fuel}
use backup_system.Stream.{
  Bytes, Reader, ◌>>=◌, ◌>>◌, pure, ensure, run, at_end, bytes_eq, read_exact, read_u8, read_u64,
  write_u8, write_u64,
}

abbrev pub rle_magic : Bytes
rle_magic = b'R' ∷ b'L' ∷ b'E' ∷ b'1' ∷ []

-- The variables that rleCompress and its lambdas share: what was written after the header, the
-- literals not written yet, and the current run.
pub record RleState : Type 0 where
  pub out : Bytes
  pub literals : Bytes
  pub have_run : Bool
  pub run_byte : ℕ
  pub run_length : ℕ

abbrev pub rle_start : RleState
rle_start = record { out = []; literals = []; have_run = false; run_byte = 0; run_length = 0 }

pub flush_literals : RleState → RleState
flush_literals s =
    if is_empty s.literals
    then s
    else record s { out = s.out ++ (write_u8 (length s.literals - 1) ++ s.literals); literals = [] }

pub add_literal : RleState → ℕ → RleState
add_literal s value =
    let s' = record s { literals = s.literals ++ value ∷ [] } in
    if length s'.literals == 128 then flush_literals s' else s'

-- `for (size_t i = 0; i < count; ++i) addLiteral(value);`
pub add_literals : RleState → ℕ → ℕ → RleState
add_literals s value zero = s
add_literals s value (suc count) = add_literals (add_literal s value) value count

pub flush_run : RleState → ℕ → ℕ → RleState
flush_run s value count =
    if leb 3 count
    then (let s' = flush_literals s in
        record s' { out = s'.out ++ (write_u8 (bit_or 0x80 (count - 1)) ++ write_u8 value) })
    else add_literals s value count

-- One input byte.
pub rle_byte : RleState → ℕ → RleState
rle_byte s value =
    if not s.have_run
    then record s { have_run = true; run_byte = value; run_length = 1 }
    else if value == s.run_byte && ltb s.run_length 128
    then record s { run_length = s.run_length + 1 }
    else record (flush_run s s.run_byte s.run_length) { run_byte = value; run_length = 1 }

pub rle_bytes : RleState → Bytes → RleState
rle_bytes s [] = s
rle_bytes s (value ∷ rest) = rle_bytes (rle_byte s value) rest

pub rle_finish : RleState → RleState
rle_finish s = flush_literals (if s.have_run then flush_run s s.run_byte s.run_length else s)

unfoldable pub rle_compress : Bytes → Bytes
rle_compress input =
    rle_magic ++ (write_u64 (length input) ++ (rle_finish (rle_bytes rle_start input)).out)

-- The bytes of one block, after its control byte.
unfoldable pub rle_block : ℕ → ℕ → Reader Bytes
rle_block control count =
    if bit_and control 0x80 == 0
    then read_exact count
    else (do value ← read_u8; pure (replicate count value))

-- `while (produced < originalSize)`: `produced` is the length of `out`.
unfoldable pub rle_loop : ℕ → ℕ → Bytes → Reader Bytes
rle_loop zero expected out input =
    if ltb (length out) expected then out_of_fuel else ok (out, input)
rle_loop (suc fuel) expected out input = elim (ltb (length out) expected) [
  | true ↦
      (do
        control ← read_u8
        let count = bit_and control 0x7f + 1
        ensure (leb count (expected - length out)) "RLE block exceeds output size limit"
        block ← rle_block control count
        rle_loop fuel expected (out ++ block))
        input
  | false ↦ ok (out, input)
]

-- Each round produces a byte at least, so `expected` rounds are enough.
unfoldable pub rle_decompress : Bytes → ℕ → Result Bytes
rle_decompress input expected =
    run
      (do
        magic ← read_exact 4
        ensure (bytes_eq magic rle_magic) "invalid RLE header"
        original ← read_u64
        ensure (original == expected) "RLE declared output size does not match archive header"
        out ← rle_loop expected expected []
        at_end "RLE stream has trailing data"
        pure out)
      input
