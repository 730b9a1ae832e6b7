-- ===== src/Engine.antt =====
-- DataBackup/core/engine.cpp and archive.cpp: the stages that make an archive of a packed file, and
-- those that take it apart again. A file is its bytes; the temporary files of the stages are values.
-- Progress, cancelling and the errors of the file system are left out.
pub mod Stages
pub mod Created
pub mod RoundTrip
use backup_system.Base.{
  ℕ, ◌+◌, bit_or, bit_xor, Bool, true, false, not, ◌&&◌, ◌||◌, List, [], ◌∷◌, ◌++◌, length, drop,
  ◌==◌, if◌then◌else◌, is_empty,
}
use backup_system.Base.Outcome.{Result, ok, err, ◌>>=◌, ◌>>◌, ensure}
use backup_system.Stream.{Bytes, bytes_eq, run, copy_bytes, read_exact}
use backup_system.Format.{PackAlgorithm, CompressionAlgorithm, EncryptionAlgorithm, ArchiveInfo}
use backup_system.Archive.{
  archive_header_size, archive_tag_size, archive_version_authenticated, archive_version_for,
  write_archive_header, ParsedHeader, read_archive_file,
}
use backup_system.Compression.{compress_stage, decompress_stage}
use backup_system.Crypto.{crypt_stage, derive_key, is_none}
use backup_system.Sha256.Hmac.{hmac_sha256, hmac_file}
use backup_system.Sha256.Ranges.{sha_file_range, to_end}

-- "BKP2-v4-authentication"
abbrev pub authentication_label : Bytes
authentication_label =
    b'B' ∷ b'K' ∷ b'P' ∷ b'2' ∷ b'-' ∷ b'v' ∷ b'4' ∷ b'-' ∷ b'a' ∷ b'u' ∷ b't' ∷ b'h' ∷ b'e' ∷ b'n'
    ∷ b't' ∷ b'i' ∷ b'c' ∷ b'a' ∷ b't' ∷ b'i' ∷ b'o' ∷ b'n' ∷ []

unfoldable pub authentication_key : Bytes → Bytes → Bytes
authentication_key password salt = hmac_sha256 (derive_key password salt) authentication_label

unfoldable pub archive_authentication : Bytes → ℕ → Bytes → Bytes → Result Bytes
archive_authentication file size password salt =
    hmac_file (authentication_key password salt) size file

-- `compression == CompressionAlgorithm::None`
unfoldable pub uncompressed : CompressionAlgorithm → Bool
uncompressed CompressionAlgorithm.none = true
uncompressed CompressionAlgorithm.rle = false
uncompressed CompressionAlgorithm.huffman = false
uncompressed CompressionAlgorithm.lz77 = false

-- The fields of BackupOptions and of RestoreOptions that the stages read.
pub record CreateOptions : Type 0 where
  pub pack : PackAlgorithm
  pub compression : CompressionAlgorithm
  pub encryption : EncryptionAlgorithm
  pub password : Bytes

pub record RestoreOptions : Type 0 where
  pub password : Bytes
  pub allow_legacy_encryption : Bool

unfoldable pub version_for : CompressionAlgorithm → EncryptionAlgorithm → ℕ
version_for compression encryption =
    if is_none encryption then archive_version_for compression else archive_version_authenticated

-- The digest of a whole file, or the one that is known where the file did not change.
unfoldable pub digest_of : Bool → Bytes → Bytes → Result Bytes
digest_of true known file = ok known
digest_of false known file = sha_file_range file 0 to_end

unfoldable pub encrypt_payload : CreateOptions → Bytes → Bytes → Result Bytes
encrypt_payload options salt payload =
    if is_none options.encryption
    then ok payload
    else crypt_stage options.encryption options.password salt payload 0 to_end

-- The tag behind an archive of version 4.
unfoldable pub append_tag : Bool → CreateOptions → Bytes → Bytes → ℕ → Result Bytes
append_tag false options salt file size = ok file
append_tag true options salt file size =
    archive_authentication file size options.password salt >>= λ tag. ok (file ++ tag)

-- The header, the payload and the tag.
unfoldable pub finish_archive : CreateOptions → Bytes → ArchiveInfo → Bytes → Result Bytes
finish_archive options salt info encoded = do
  payload ← run (copy_bytes info.encoded_size) encoded
  append_tag (info.version == archive_version_authenticated) options salt
      (write_archive_header info salt ++ payload) (archive_header_size + info.encoded_size)

-- The checks of withDecodedArchive before it reads the payload.
unfoldable pub check_password : RestoreOptions → ArchiveInfo → Result (Unit {0})
check_password options info = if is_none info.encryption then ok tt else do
  ensure (not (is_empty options.password)) "archive is encrypted; a password is required"
  ensure (info.version == archive_version_authenticated || options.allow_legacy_encryption)
      "legacy encrypted archive has no authentication; explicit opt-in required"

-- The private copy: the header again where the payload is encrypted, the payload and the tag.
unfoldable pub snapshot : ParsedHeader → Bytes → Result Bytes
snapshot header archive = do
  copied ←
      run
        (copy_bytes (
          header.info.encoded_size
          + (if header.info.version == archive_version_authenticated then archive_tag_size else 0)))
        (drop archive_header_size archive)
  ok (
      (if is_none header.info.encryption then [] else write_archive_header header.info header.salt)
      ++ copied)

-- `different |= actual[index] ^ expected[index]`
unfoldable pub differences : ℕ → Bytes → Bytes → ℕ
differences d [] expected = d
differences d (a ∷ actual) [] = d
differences d (a ∷ actual) (e ∷ expected) = differences (bit_or d (bit_xor a e)) actual expected

unfoldable pub check_tag : Bool → RestoreOptions → ParsedHeader → Bytes → Result (Unit {0})
check_tag false options header copy = ok tt
check_tag true options header copy = do
  let size = archive_header_size + header.info.encoded_size
  actual ← archive_authentication copy size options.password header.salt
  expected ← run (read_exact 32) (drop size copy)
  ensure (differences 0 actual expected == 0)
      "archive authentication failed (wrong password or tampered archive)"

unfoldable pub payload_offset : ArchiveInfo → ℕ
payload_offset info = if is_none info.encryption then 0 else archive_header_size

unfoldable pub check_payload : ParsedHeader → Bytes → Result (Unit {0})
check_payload header copy = do
  digest ← sha_file_range copy (payload_offset header.info) header.info.encoded_size
  ensure (bytes_eq digest header.info.encoded_digest) "archive payload checksum mismatch"

unfoldable pub decrypt_payload : RestoreOptions → ParsedHeader → Bytes → Result Bytes
decrypt_payload options header copy =
    if is_none header.info.encryption
    then ok copy
    else crypt_stage header.info.encryption options.password header.salt copy
        (payload_offset header.info) header.info.encoded_size

unfoldable pub check_packed : ParsedHeader → Bytes → Result (Unit {0})
check_packed header packed = do
  ensure (length packed == header.info.packed_size)
      "decoded packed size mismatch (wrong password or damaged archive)"
  digest ←
      digest_of (is_none header.info.encryption && uncompressed header.info.compression)
        header.info.encoded_digest packed
  ensure (bytes_eq digest header.info.packed_digest)
      "decoded checksum mismatch (wrong password or damaged archive)"

module _ (huffman_compress : Bytes → Result Bytes)
    (huffman_decompress : Bytes → ℕ → Result Bytes) where
  unfoldable pub compress_payload : CreateOptions → Bytes → Result Bytes
  compress_payload options packed =
      if uncompressed options.compression
      then ok packed
      else compress_stage huffman_compress huffman_decompress options.compression packed

  -- BackupEngine::create from the packed file on, with the random salt.
  unfoldable pub encode_archive : CreateOptions → Bytes → Bytes → Result Bytes
  encode_archive options salt packed = do
    packed_digest ← sha_file_range packed 0 to_end
    payload ← compress_payload options packed
    encoded ← encrypt_payload options salt payload
    encoded_digest ←
        digest_of (uncompressed options.compression && is_none options.encryption) packed_digest
          encoded
    finish_archive options salt
        (record {
          version = version_for options.compression options.encryption;
          pack = options.pack;
          compression = options.compression;
          encryption = options.encryption;
          packed_size = length packed;
          encoded_size = length encoded;
          packed_digest = packed_digest;
          encoded_digest = encoded_digest;
        })
        encoded

  unfoldable pub decompress_payload : ParsedHeader → Bytes → Result Bytes
  decompress_payload header payload =
      if uncompressed header.info.compression
      then ok payload
      else decompress_stage huffman_compress huffman_decompress header.info.compression
          header.info.packed_size payload

  -- withDecodedArchive, up to the packed file.
  unfoldable pub decode_archive : RestoreOptions → Bytes → Result (ParsedHeader × Bytes)
  decode_archive options archive = do
    header ← read_archive_file archive
    check_password options header.info
    copy ← snapshot header archive
    check_tag (header.info.version == archive_version_authenticated) options header copy
    check_payload header copy
    payload ← decrypt_payload options header copy
    packed ← decompress_payload header payload
    check_packed header packed
    ok (header, packed)
