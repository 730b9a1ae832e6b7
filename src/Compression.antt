-- ===== src/Compression.antt =====
-- compressStage, decompressStage and copyFileStage of DataBackup/core/compress_rle.cpp: the choice
-- of the codec. The Huffman codec is a parameter.
pub mod RoundTrip
use backup_system.Base.{ℕ, length, ◌==◌}
use backup_system.Base.Outcome.{Result, ok, ◌>>◌, ensure}
use backup_system.Stream.{Bytes, run, copy_bytes}
use backup_system.Format.{CompressionAlgorithm}
use backup_system.Format.CompressionAlgorithm.{none, rle, huffman, lz77}
use backup_system.Rle.{rle_compress, rle_decompress}
use backup_system.Lz77.Stage.{lz77_compress, lz77_decompress}

unfoldable pub copy_file_stage : Bytes → Result Bytes
copy_file_stage input = run (copy_bytes (length input)) input

module _ (huffman_compress : Bytes → Result Bytes)
    (huffman_decompress : Bytes → ℕ → Result Bytes) where
  -- The enumeration has no other algorithm to refuse.
  unfoldable pub compress_stage : CompressionAlgorithm → Bytes → Result Bytes
  compress_stage none input = copy_file_stage input
  compress_stage rle input = ok (rle_compress input)
  compress_stage huffman input = huffman_compress input
  compress_stage lz77 input = lz77_compress input

  unfoldable pub decompress_stage : CompressionAlgorithm → ℕ → Bytes → Result Bytes
  decompress_stage none expected input = do
    ensure (length input == expected)
        "decoded packed size mismatch (wrong password or damaged archive)"
    copy_file_stage input
  decompress_stage rle expected input = rle_decompress input expected
  decompress_stage huffman expected input = huffman_decompress input expected
  decompress_stage lz77 expected input = lz77_decompress input expected
