-- ===== src/Format.antt =====
-- The enumerations and records of libs/core.hpp that an archive stores, with their identifiers.
use backup_system.Base.{ℕ, if◌then◌else◌, ◌==◌}
use backup_system.Stream.{Bytes}

pub data PackAlgorithm : Type 0 where
  stream index : PackAlgorithm

pub data CompressionAlgorithm : Type 0 where
  none rle huffman lz77 : CompressionAlgorithm

pub data EncryptionAlgorithm : Type 0 where
  none chacha20 aes256 : EncryptionAlgorithm

-- `static_cast<uint8_t>`
unfoldable pub pack_id : PackAlgorithm → ℕ
pack_id stream = 1
pack_id index = 2

unfoldable pub compression_id : CompressionAlgorithm → ℕ
compression_id CompressionAlgorithm.none = 0
compression_id rle = 1
compression_id huffman = 2
compression_id lz77 = 3

unfoldable pub encryption_id : EncryptionAlgorithm → ℕ
encryption_id EncryptionAlgorithm.none = 0
encryption_id chacha20 = 3
encryption_id aes256 = 4

-- The casts back; they are made only after the identifier was checked.
unfoldable pub pack_of : ℕ → PackAlgorithm
pack_of id = if id == 1 then stream else index

unfoldable pub compression_of : ℕ → CompressionAlgorithm
compression_of id =
    if id == 0
    then CompressionAlgorithm.none
    else if id == 1
    then rle
    else if id == 2
    then huffman
    else lz77

unfoldable pub encryption_of : ℕ → EncryptionAlgorithm
encryption_of id =
    if id == 0 then EncryptionAlgorithm.none else if id == 3 then chacha20 else aes256

pub record ArchiveInfo : Type 0 where
  pub version : ℕ
  pub pack : PackAlgorithm
  pub compression : CompressionAlgorithm
  pub encryption : EncryptionAlgorithm
  pub packed_size : ℕ
  pub encoded_size : ℕ
  pub packed_digest : Bytes
  pub encoded_digest : Bytes
