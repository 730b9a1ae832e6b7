-- ===== src/Archive.antt =====
-- The 112-byte header of an archive: writeArchiveHeader and readArchiveHeader of
-- DataBackup/core/archive.cpp.
pub mod Fields
pub mod RoundTrip
pub mod Accepted
use backup_system.Base.{
  ℕ, ◌-◌, ◌^◌, ◌+◌, ◌<◌, bit_and, bit_or, Bool, true, false, not, ◌&&◌, ◌||◌, List, [], ◌∷◌, ◌++◌,
  length, leb, ltb, ◌==◌, if◌then◌else◌,
}
use backup_system.Base.Outcome
use backup_system.Base.Outcome.{Result, ok, err}
use backup_system.Stream.{
  Bytes, Reader, ◌>>=◌, ◌>>◌, pure, ensure, run, bytes_eq, read_exact, read_u8, read_u16, read_u32,
  read_u64, write_u8, write_u16, write_u32, write_u64,
}
use backup_system.Format.{
  PackAlgorithm, CompressionAlgorithm, EncryptionAlgorithm, pack_id, compression_id, encryption_id,
  pack_of, compression_of, encryption_of, ArchiveInfo,
}

abbrev pub archive_version : ℕ
archive_version = 2

abbrev pub archive_version_lz77 : ℕ
archive_version_lz77 = 3

abbrev pub archive_version_authenticated : ℕ
archive_version_authenticated = 4

abbrev pub archive_header_size : ℕ
archive_header_size = 112

abbrev pub archive_tag_size : ℕ
archive_tag_size = 32

abbrev pub archive_magic : Bytes
archive_magic = b'B' ∷ b'K' ∷ b'P' ∷ b'2' ∷ []

unfoldable pub archive_version_for : CompressionAlgorithm → ℕ
archive_version_for compression =
    if compression_id compression == 3 then archive_version_lz77 else archive_version

-- The flag word: bit 0 is always set, bit 1 says compressed, bit 2 says encrypted.
unfoldable pub header_flags : CompressionAlgorithm → EncryptionAlgorithm → ℕ
header_flags compression encryption =
    let flags : ℕ = 1 in
    let flags₁ = if not (compression_id compression == 0) then bit_or flags 2 else flags in
    if not (encryption_id encryption == 0) then bit_or flags₁ 4 else flags₁

unfoldable pub write_archive_header : ArchiveInfo → Bytes → Bytes
write_archive_header info salt =
    archive_magic
    ++ (write_u16 info.version
        ++ (write_u16 archive_header_size
            ++ (write_u32 (header_flags info.compression info.encryption)
                ++ (write_u8 (pack_id info.pack)
                    ++ (write_u8 (compression_id info.compression)
                        ++ (write_u8 (encryption_id info.encryption)
                            ++ (write_u8 0
                                ++ (write_u64 info.packed_size
                                    ++ (write_u64 info.encoded_size
                                        ++ (salt
                                            ++ (info.packed_digest ++ info.encoded_digest)))))))))))

pub record ParsedHeader : Type 0 where
  pub info : ArchiveInfo
  pub salt : Bytes

unfoldable pub known_version : ℕ → Bool
known_version version =
    version == 1
    || version == archive_version
    || version == archive_version_lz77
    || version == archive_version_authenticated

-- `a == b` on two conditions.
unfoldable pub same : Bool → Bool → Bool
same true b = b
same false b = not b

unfoldable pub flags_match : ℕ → ℕ → ℕ → Bool
flags_match flags compression encryption =
    not (bit_and flags 1 == 0)
    && same (not (bit_and flags 2 == 0)) (not (compression == 0))
    && same (not (bit_and flags 4 == 0)) (not (encryption == 0))
    && bit_and flags (2 ^ 32 - 8) == 0

-- The algorithm identifiers, up to the flags: the three bytes and the checks on them.
unfoldable pub check_algorithms : ℕ → ℕ → ℕ → ℕ → ℕ → Reader (Unit {0})
check_algorithms version flags pack compression encryption = do
  ensure (pack == 1 || pack == 2) "invalid pack algorithm identifier"
  ensure (leb compression 3 && (encryption == 0 || encryption == 3 || encryption == 4))
      "invalid transform algorithm identifier"
  ensure (leb archive_version_lz77 version || not (compression == 3))
      "LZ77 compression requires archive version 3"
  ensure (not (encryption == 1) && not (encryption == 2))
      "legacy XOR/Vigenere archives are no longer supported"
  ensure (not (version == archive_version_authenticated) || not (encryption == 0))
      "authenticated archives require encryption"
  ensure (flags_match flags compression encryption)
      "archive flags do not match algorithm identifiers"

-- The sizes, the salt and the digests.
unfoldable pub read_header_tail : ℕ → ℕ → ℕ → ℕ → Reader ParsedHeader
read_header_tail version pack compression encryption = do
  packed_size ← read_u64
  encoded_size ← read_u64
  salt ← read_exact 16
  packed_digest ← read_exact 32
  encoded_digest ← read_exact 32
  pure (record {
    info = record {
      version = version;
      pack = pack_of pack;
      compression = compression_of compression;
      encryption = encryption_of encryption;
      packed_size = packed_size;
      encoded_size = encoded_size;
      packed_digest = packed_digest;
      encoded_digest = encoded_digest;
    };
    salt = salt;
  })

unfoldable pub read_archive_header : Reader ParsedHeader
read_archive_header = do
  magic ← read_exact 4
  ensure (bytes_eq magic archive_magic) "invalid archive magic; expected BKP2"
  version ← read_u16
  ensure (known_version version) "unsupported archive version"
  header_size ← read_u16
  ensure (header_size == archive_header_size) "unsupported archive header size"
  flags ← read_u32
  pack ← read_u8
  compression ← read_u8
  encryption ← read_u8
  reserved ← read_u8
  ensure (reserved == 0) "non-zero archive reserved byte"
  check_algorithms version flags pack compression encryption
  read_header_tail version pack compression encryption

unfoldable pub header_overhead : ArchiveInfo → ℕ
header_overhead info =
    archive_header_size
    + (if info.version == archive_version_authenticated then archive_tag_size else 0)

unfoldable pub check_archive_size : ℕ → ParsedHeader → Result ParsedHeader
check_archive_size size parsed =
    if leb (header_overhead parsed.info) size
      && parsed.info.encoded_size == size - header_overhead parsed.info
    then ok parsed
    else err "archive payload size does not match header"

-- The overload on a path: the header of the file whose bytes are `file`, and its size checked.
unfoldable pub read_archive_file : Bytes → Result ParsedHeader
read_archive_file file =
    Outcome.◌>>=◌ (run read_archive_header file) (check_archive_size (length file))
