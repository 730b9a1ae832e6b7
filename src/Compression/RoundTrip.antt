-- ===== src/Compression/RoundTrip.antt =====
-- Decompressing what the compression stage wrote.
use backup_system.Base.{
  ℕ, ◌^◌, ◌<◌, ◌≡◌, ◌≢◌, refl, ap, length, take_all, All, le→leb, ==_iff, arith,
}
use backup_system.Base.Outcome.{Result, ok}
use backup_system.Stream.{Bytes, IsByte}
use backup_system.Stream.Copy.{copy_bytes-eq}
use backup_system.Format.{CompressionAlgorithm}
use backup_system.Format.CompressionAlgorithm.{none, rle, huffman, lz77}
use backup_system.Rle.{rle_compress}
use backup_system.Rle.RoundTrip.{rle_decompress-rle_compress}
use backup_system.Lz77.Stage.RoundTrip.{lz77_decompress-lz77_compress}
use backup_system.Compression.{copy_file_stage, compress_stage, decompress_stage}

copy_file_stage-eq : (input : Bytes) → copy_file_stage input ≡ ok input
unfolding copy_file_stage
copy_file_stage-eq input =
    rw (copy_bytes-eq (length input) input)
      (rw (le→leb (length input) (length input) (omega arith)) (ap ok (take_all input)))

module _ (huffman_compress : Bytes → Result Bytes)
    (huffman_decompress : Bytes → ℕ → Result Bytes) where
  -- A file of bytes, of fewer than 2^64, is compressed with every algorithm but Huffman, and
  -- decompressing the result with the same algorithm and the file's size gives the file back.
  pub decompress_stage-compress_stage :
      (algorithm : CompressionAlgorithm) (input : Bytes)
      → algorithm ≢ huffman
      → All IsByte input
      → length input < 2 ^ 64
      → (bs : Bytes) × (compress_stage huffman_compress huffman_decompress algorithm input ≡ ok bs)
        × (decompress_stage huffman_compress huffman_decompress algorithm (length input) bs
            ≡ ok input)
  unfolding compress_stage decompress_stage
  decompress_stage-compress_stage none input other bytes small = (
    input,
    copy_file_stage-eq input,
    rw ((==_iff (length input) (length input)).1 refl) (copy_file_stage-eq input),
  )
  decompress_stage-compress_stage rle input other bytes small =
      (rle_compress input, refl, rle_decompress-rle_compress input bytes small)
  decompress_stage-compress_stage huffman input other bytes small = absurd (other refl)
  decompress_stage-compress_stage lz77 input other bytes small =
      lz77_decompress-lz77_compress input small
