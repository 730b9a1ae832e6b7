-- ===== src/Archive/RoundTrip.antt =====
-- Reading the header that was written.
use backup_system.Base.{
  ℕ, ◌^◌, ◌<◌, ◌≡◌, refl, sym, true, ◌++◌, append_assoc, length, length-append, arith,
}
use backup_system.Base.Outcome.{ok}
use backup_system.Stream.{Bytes, bytes_eq, write_u8, write_u16, write_u32, write_u64}
use backup_system.Stream.Words.{
  read_exact-append, length-word_bytes, read_u8-write_u8, read_u16-write_u16, read_u32-write_u32,
  read_u64-write_u64,
}
use backup_system.Format.{pack_id, compression_id, encryption_id, ArchiveInfo}
use backup_system.Archive.{
  archive_magic, known_version, header_flags, write_archive_header, read_header_tail,
  read_archive_header,
}
use backup_system.Archive.Fields.{
  pack_of-pack_id, compression_of-compression_id, encryption_of-encryption_id, ids-lt,
  header_flags-lt, VersionFits, check_algorithms-pass,
}

-- A header that the program writes: a version that it knows and that covers the algorithms, sizes of
-- 64 bits, and arrays of their lengths.
pub record IsHeader (info : ArchiveInfo) (salt : Bytes) : Type 0 where
  pub version : known_version info.version ≡ true
  pub version_fits : VersionFits info.version info.compression info.encryption
  pub packed : info.packed_size < 2 ^ 64
  pub encoded : info.encoded_size < 2 ^ 64
  pub salt_size : length salt ≡ 16
  pub packed_digest_size : length info.packed_digest ≡ 32
  pub encoded_digest_size : length info.encoded_digest ≡ 32

header_tail : ArchiveInfo → Bytes → Bytes → Bytes
header_tail info salt rest =
    write_u64 info.packed_size
    ++ (write_u64 info.encoded_size
        ++ (salt ++ (info.packed_digest ++ (info.encoded_digest ++ rest))))

read_header_tail-header_tail :
    (info : ArchiveInfo) (salt rest : Bytes)
    → IsHeader info salt
    → read_header_tail info.version
        (pack_id info.pack)
        (compression_id info.compression)
        (encryption_id info.encryption)
        (header_tail info salt rest)
      ≡ ok (record { info = info; salt = salt }, rest)
unfolding read_header_tail header_tail
read_header_tail-header_tail info salt rest h =
    let digests = info.packed_digest ++ (info.encoded_digest ++ rest) in
    rw
      (read_u64-write_u64 info.packed_size (write_u64 info.encoded_size ++ (salt ++ digests))
        h.packed)
      (rw (read_u64-write_u64 info.encoded_size (salt ++ digests) h.encoded) (
        rw (read_exact-append 16 salt digests (sym h.salt_size)) (
          rw
            (read_exact-append 32 info.packed_digest (info.encoded_digest ++ rest)
              (sym h.packed_digest_size))
            (rw (read_exact-append 32 info.encoded_digest rest (sym h.encoded_digest_size)) (
              rw (
                pack_of-pack_id info.pack,
                compression_of-compression_id info.compression,
                encryption_of-encryption_id info.encryption,
              ))))))

known_version-lt : (v : ℕ) → known_version v ≡ true → v < 2 ^ 16
unfolding known_version
known_version-lt v h = ground arith

-- The bytes of a header with what follows, as the reader meets them.
header_bytes :
    (info : ArchiveInfo) (salt rest : Bytes)
    → write_archive_header info salt ++ rest
      ≡ archive_magic
        ++ (write_u16 info.version
            ++ (write_u16 112
                ++ (write_u32 (header_flags info.compression info.encryption)
                    ++ (write_u8 (pack_id info.pack)
                        ++ (write_u8 (compression_id info.compression)
                            ++ (write_u8 (encryption_id info.encryption)
                                ++ (write_u8 0 ++ header_tail info salt rest)))))))
unfolding write_archive_header header_tail
header_bytes info salt rest = simp append_assoc

-- Reading the header that was written for valid contents gives them back, whatever follows it.
pub read_archive_header-write_archive_header :
    (info : ArchiveInfo) (salt rest : Bytes)
    → IsHeader info salt
    → read_archive_header (write_archive_header info salt ++ rest)
      ≡ ok (record { info = info; salt = salt }, rest)
read_archive_header-write_archive_header info salt rest h = rw (header_bytes info salt rest) (
    unfold read_archive_header bytes_eq in
    rw (read_exact-append 4 archive_magic _ refl) (
      rw (read_u16-write_u16 info.version _ (known_version-lt info.version h.version)) (
        rw h.version (
          rw (read_u16-write_u16 112 _ (omega arith)) (
            rw (read_u32-write_u32 flags _ (header_flags-lt info.compression info.encryption)) (
              rw (read_u8-write_u8 (pack_id info.pack) _ ids.0) (
                rw (read_u8-write_u8 (compression_id info.compression) _ ids.1) (
                  rw (read_u8-write_u8 (encryption_id info.encryption) _ ids.2) (
                    rw (read_u8-write_u8 0 _ (omega arith)) (
                      rw
                        (check_algorithms-pass info.version info.pack info.compression
                          info.encryption (header_tail info salt rest) h.version_fits)
                        (read_header_tail-header_tail info salt rest h)))))))))))
  where
    flags : ℕ
    flags = header_flags info.compression info.encryption

    ids :
        (pack_id info.pack < 2 ^ 8)
        × (compression_id info.compression < 2 ^ 8)
        × (encryption_id info.encryption < 2 ^ 8)
    ids = ids-lt info.pack info.compression info.encryption

-- The header for valid contents takes 112 bytes.
pub length-write_archive_header :
    (info : ArchiveInfo) (salt : Bytes)
    → IsHeader info salt
    → length (write_archive_header info salt) ≡ 112
unfolding write_archive_header write_u8 write_u16 write_u32 write_u64
length-write_archive_header info salt h =
    simp
      (length-append, length-word_bytes, h.salt_size, h.packed_digest_size, h.encoded_digest_size)
      (omega arith)
