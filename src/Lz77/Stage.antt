-- ===== src/Lz77/Stage.antt =====
-- lz77Compress and lz77Decompress of compress_lz77.cpp.
pub mod RoundTrip
use backup_system.Base.{
  ℕ, zero, suc, ◌+◌, ◌-◌, ◌<◌, Bool, true, false, ◌&&◌, ◌||◌, List, [], ◌∷◌, ◌++◌, length, is_empty,
  take, drop, leb, ltb, ◌==◌, if◌then◌else◌,
}
use backup_system.Base.Outcome
use backup_system.Base.Outcome.{Result, ok, err, out_of_fuel}
use backup_system.Stream.{
  Bytes, Reader, ◌>>=◌, ◌>>◌, pure, ensure, run, at_end, bytes_eq, read_exact, read_u8, read_u32,
  read_u64, write_u8, write_u32, write_u64,
}
use backup_system.Lz77.{lz77_magic, lz77_block_size, token_block, stored_block, no_position}
use backup_system.Lz77.Encoder.{Lz77Encoder, encode}
use backup_system.Lz77.Decoder.{decode_block}

-- What is written for the block `raw` when the encoder pushed `encoded`.
unfoldable pub block_bytes : Bytes → Bytes → Bytes
block_bytes raw encoded =
    if leb (length raw) (length encoded)
    then write_u8 stored_block ++ (write_u32 (length raw) ++ (write_u32 (length raw) ++ raw))
    else write_u8 token_block ++ (write_u32 (length raw) ++ (write_u32 (length encoded) ++ encoded))

-- `while (completed < originalSize)`: `input` is what is not completed. One encoder serves all blocks.
unfoldable pub compress_loop : ℕ → Lz77Encoder → Bytes → Result Bytes
compress_loop zero e input = if is_empty input then ok [] else out_of_fuel
compress_loop (suc fuel) e input = elim (is_empty input) [
  | true ↦ ok []
  | false ↦
      let raw = take lz77_block_size input in
      Outcome.◌>>=◌ (encode e raw) λ (encoded, e').
        Outcome.◌>>=◌ (compress_loop fuel e' (drop lz77_block_size input))
          λ rest. ok (block_bytes raw encoded ++ rest)
]

abbrev pub new_encoder : Lz77Encoder
new_encoder = record { head = λ _. no_position; previous = λ _. 0 }

-- A round takes a byte at least, so as many rounds as bytes are enough.
unfoldable pub lz77_compress : Bytes → Result Bytes
lz77_compress input =
    Outcome.◌>>=◌ (compress_loop (length input) new_encoder input)
      λ blocks. ok (lz77_magic ++ (write_u64 (length input) ++ blocks))

-- The payload of a block whose header was accepted.
unfoldable pub read_payload : ℕ → ℕ → ℕ → Reader Bytes
read_payload flags raw_length encoded_length =
    if flags == stored_block then read_exact raw_length else (do
      encoded ← read_exact encoded_length
      λ input. Outcome.◌>>=◌ (decode_block encoded raw_length) λ raw. ok (raw, input))

unfoldable pub read_block : ℕ → Reader Bytes
read_block room = do
  flags ← read_u8
  raw_length ← read_u32
  encoded_length ← read_u32
  ensure (flags == token_block || flags == stored_block) "invalid LZ77 block flags"
  ensure (ltb 0 raw_length && leb raw_length lz77_block_size) "invalid LZ77 block size"
  ensure (leb raw_length room) "LZ77 block exceeds output size limit"
  ensure
      (if flags == stored_block
        then encoded_length == raw_length
        else ltb encoded_length raw_length)
      "invalid LZ77 block payload size"
  read_payload flags raw_length encoded_length

-- `while (produced < expectedSize)`: `produced` is the length of `out`.
unfoldable pub decompress_loop : ℕ → ℕ → Bytes → Reader Bytes
decompress_loop zero expected out input =
    if ltb (length out) expected then out_of_fuel else ok (out, input)
decompress_loop (suc fuel) expected out input = elim (ltb (length out) expected) [
  | true ↦
      (do raw ← read_block (expected - length out); decompress_loop fuel expected (out ++ raw))
        input
  | false ↦ ok (out, input)
]

-- A block has a byte at least, so `expected` rounds are enough.
unfoldable pub lz77_decompress : Bytes → ℕ → Result Bytes
lz77_decompress input expected =
    run
      (do
        magic ← read_exact 4
        ensure (bytes_eq magic lz77_magic) "invalid LZ77 header"
        original ← read_u64
        ensure (original == expected) "LZ77 declared output size does not match archive header"
        out ← decompress_loop expected expected []
        at_end "LZ77 stream has trailing data"
        pure out)
      input
