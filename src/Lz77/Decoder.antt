-- ===== src/Lz77/Decoder.antt =====
-- decodeBlock of compress_lz77.cpp. The reader's input is what `read` has not reached; the bytes
-- produced so far are an argument, so `produced` is their number.
pub mod Counts
pub mod RoundTrip
use backup_system.Base.{
  ℕ, zero, suc, ◌+◌, ◌-◌, ◌*◌, ◌/◌, ◌^◌, bit_and, bit_or, Bool, true, false, ◌&&◌, not, List, [],
  ◌∷◌, ◌++◌, length, take, drop, get_or, leb, ltb, ◌==◌, if◌then◌else◌,
}
use backup_system.Base.Outcome.{Result, ok, err, out_of_fuel}
use backup_system.Stream.{Bytes, Reader, ◌>>=◌, ◌>>◌, pure, ensure, run, at_end}
use backup_system.Lz77.{min_match, byte_at}

unfoldable pub read_byte : Reader ℕ
read_byte [] = err "truncated LZ77 token stream"
read_byte (b ∷ rest) = ok (b, rest)

-- The loop of readLength. A round that goes on adds 255 to a value bounded by the size.
unfoldable pub read_length : ℕ → ℕ → ℕ → Reader ℕ
read_length zero output_size value = λ input. out_of_fuel
read_length (suc fuel) output_size value = do
  ensure (leb value output_size) "LZ77 length exceeds block size"
  byte ← read_byte
  ensure (leb (value + byte) output_size) "LZ77 length exceeds block size"
  λ input. elim (byte == 255) [
    | true ↦ read_length fuel output_size (value + byte) input
    | false ↦ ok (value + byte, input)
  ]

-- A count in a nibble of the token; 15 goes on in extension bytes.
unfoldable pub read_count : ℕ → ℕ → Reader ℕ
read_count output_size nibble =
    if nibble == 15 then read_length (suc output_size) output_size 15 else pure nibble

-- `memcpy(output + produced, input + read, literalCount)`
unfoldable pub copy_literals : ℕ → ℕ → Bytes → Reader Bytes
copy_literals output_size count out input =
    if leb count (length input)
    then if leb count (output_size - length out)
      then ok (out ++ take count input, drop count input)
      else err "LZ77 literal run exceeds block size"
    else err "truncated LZ77 literal run"

unfoldable pub read_distance : Reader ℕ
read_distance (low ∷ high ∷ rest) = ok (bit_or low (high * 2 ^ 8), rest)
read_distance _ = err "truncated LZ77 match distance"

-- The byte-wise copy: source and destination may overlap.
unfoldable pub copy_match : ℕ → ℕ → Bytes → Bytes
copy_match zero distance out = out
copy_match (suc n) distance out =
    copy_match n distance (out ++ byte_at out (length out - distance) ∷ [])

unfoldable pub decode_match : ℕ → ℕ → Bytes → Reader Bytes
decode_match output_size token out = do
  code ← read_count output_size (bit_and token 0x0f)
  let match_length = code + min_match
  distance ← read_distance
  ensure (not (distance == 0) && leb distance (length out)) "invalid LZ77 match distance"
  ensure (leb match_length (output_size - length out)) "LZ77 match exceeds block size"
  pure (copy_match match_length distance out)

unfoldable pub decode_loop : ℕ → ℕ → Bytes → Reader Bytes
decode_loop zero output_size out input = out_of_fuel
decode_loop (suc fuel) output_size out input = elim (length out == output_size) [
  | true ↦ (do at_end "LZ77 block has trailing data"; pure out) input
  | false ↦
      (do
        token ← read_byte
        count ← read_count output_size (token / 2 ^ 4)
        out₁ ← copy_literals output_size count out
        λ rest. elim (length out₁ == output_size) [
          | true ↦ (do at_end "LZ77 block has trailing data"; pure out₁) rest
          | false ↦
              (do out₂ ← decode_match output_size token out₁; decode_loop fuel output_size out₂)
                rest
        ])
        input
]

-- A round that does not return produces three bytes at least.
unfoldable pub decode_block : Bytes → ℕ → Result Bytes
decode_block input output_size = run (decode_loop (suc output_size) output_size []) input
