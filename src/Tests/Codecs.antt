-- ===== src/Tests/Codecs.antt =====
-- Examples of the theorems on compress_rle.cpp and compress_lz77.cpp.
use backup_system.Base.{
  ℕ, zero, suc, ◌+◌, String, All, ◌<◌, ◌≡◌, refl, ◌⊎◌, [], ◌∷◌, ◌++◌, length, take, bit_or,
  replicate, arith,
}
use backup_system.Base.Outcome.{Result, ok, err}
use backup_system.Stream.{Bytes, IsByte, write_u8}
use backup_system.Stream.Post.{IsBlock}
use backup_system.Format.{CompressionAlgorithm}
use backup_system.Compression.{compress_stage, decompress_stage}
use backup_system.Compression.RoundTrip.{decompress_stage-compress_stage}
use backup_system.Rle.{rle_start, rle_bytes, rle_finish, rle_loop, rle_compress, rle_decompress}
use backup_system.Rle.Blocks.{Encodes, none_left, run_of, rle_loop-Encodes}
use backup_system.Rle.Encode.{rle_blocks-Encodes}
use backup_system.Rle.RoundTrip.{rle_decompress-rle_compress, rle_decompress_total}
use backup_system.Lz77.{byte_at}
use backup_system.Lz77.Encoder.{Lz77Encoder, encode, search_match}
use backup_system.Lz77.Encoder.Search.{IsMatch, search_match-IsMatch}
use backup_system.Lz77.Encoder.Sequences.{Sequences, encode-Covers}
use backup_system.Lz77.Decoder.{decode_block, copy_match}
use backup_system.Lz77.Decoder.RoundTrip.{copy_match-take, decode_block-encode}
use backup_system.Lz77.Stage.{new_encoder, lz77_compress, lz77_decompress}
use backup_system.Lz77.Stage.RoundTrip.{lz77_decompress-lz77_compress}

-- "abababab"
abbrev repeated : Bytes
repeated = b'a' ∷ b'b' ∷ b'a' ∷ b'b' ∷ b'a' ∷ b'b' ∷ b'a' ∷ b'b' ∷ []

-- "xaaaa"
abbrev run_bytes : Bytes
run_bytes = b'x' ∷ b'a' ∷ b'a' ∷ b'a' ∷ b'a' ∷ []

run_bytes-IsByte : All IsByte run_bytes
run_bytes-IsByte = (omega arith, (omega arith, (omega arith, (omega arith, (omega arith, tt)))))

repeats_before : (i : ℕ) → i < 3 → byte_at run_bytes (1 + i) ≡ byte_at run_bytes (2 + i)
repeats_before zero h = refl
repeats_before (suc zero) h = refl
repeats_before (suc (suc zero)) h = refl
repeats_before (suc (suc (suc i))) h = absurd (omega arith)

lz77_decompress-lz77_compress_example :
    (bs : Bytes) × (lz77_compress repeated ≡ ok bs)
    × (lz77_decompress bs (length repeated) ≡ ok repeated)
lz77_decompress-lz77_compress_example = lz77_decompress-lz77_compress repeated (omega arith)

rle_decompress-rle_compress_example :
    rle_decompress (rle_compress run_bytes) (length run_bytes) ≡ ok run_bytes
rle_decompress-rle_compress_example =
    rle_decompress-rle_compress run_bytes run_bytes-IsByte (omega arith)

decode_block-encode_example :
    (bs : Bytes) × (e' : Lz77Encoder) × (encode new_encoder repeated ≡ ok (bs, e'))
    × (decode_block bs (length repeated) ≡ ok repeated)
decode_block-encode_example = decode_block-encode new_encoder repeated (omega arith)

rle_decompress_total_example :
    ((out : Bytes) × (rle_decompress run_bytes 3 ≡ ok out) × IsBlock 3 out)
    ⊎ ((e : String) × (rle_decompress run_bytes 3 ≡ err e))
rle_decompress_total_example = rle_decompress_total run_bytes 3 run_bytes-IsByte

search_match-IsMatch_example :
    IsMatch repeated 2 (search_match new_encoder repeated (length repeated) 2)
search_match-IsMatch_example = search_match-IsMatch repeated 2 (omega arith) new_encoder

encode-Covers_example :
    (bs : Bytes) × (e : Lz77Encoder) × (encode new_encoder repeated ≡ ok (bs, e))
    × Sequences repeated 0 bs
encode-Covers_example = encode-Covers new_encoder repeated (omega arith)

-- A run of four, then a byte that is no part of the blocks.
rle_loop-Encodes_example :
    rle_loop 4 4 [] ((write_u8 (bit_or 0x80 3) ++ (write_u8 7 ++ [])) ++ 9 ∷ [])
    ≡ ok ([] ++ (replicate 4 7 ++ []), 9 ∷ [])
rle_loop-Encodes_example =
    rle_loop-Encodes 4 4 [] (9 ∷ []) (run_of 3 7 (omega arith) (omega arith) none_left)
      (omega arith) (omega arith)

rle_blocks-Encodes_example : Encodes (rle_finish (rle_bytes rle_start run_bytes)).out run_bytes
rle_blocks-Encodes_example = rle_blocks-Encodes run_bytes run_bytes-IsByte

-- "xaaaa": three bytes that repeat the byte before them.
copy_match-take_example : copy_match 3 1 (take 2 run_bytes) ≡ take 5 run_bytes
copy_match-take_example =
    copy_match-take run_bytes 3 1 2 (omega arith) (omega arith) (omega arith) repeats_before

-- The codec that is not used stores its input.
abbrev stored_compress : Bytes → Result Bytes
stored_compress input = ok input

abbrev stored_decompress : Bytes → ℕ → Result Bytes
stored_decompress input expected = ok input

decompress_stage-compress_stage_example :
    (bs : Bytes) × (compress_stage stored_compress stored_decompress CompressionAlgorithm.rle
        run_bytes
      ≡ ok bs)
    × (decompress_stage stored_compress stored_decompress CompressionAlgorithm.rle 5 bs
        ≡ ok run_bytes)
decompress_stage-compress_stage_example =
    decompress_stage-compress_stage stored_compress stored_decompress CompressionAlgorithm.rle
      run_bytes (λ e. cc) run_bytes-IsByte (omega arith)
