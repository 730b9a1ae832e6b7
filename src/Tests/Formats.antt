-- ===== src/Tests/Formats.antt =====
-- Examples of the theorems on common.cpp, archive.cpp and entry.cpp.
use backup_system.Base.{
  All, List, ◌<◌, ◌≤◌, String, ◌+◌, ◌≡◌, refl, ◌⊎◌, true, [], ◌∷◌, ◌++◌, length, take, drop,
  replicate, leb, if◌then◌else◌, arith,
}
use backup_system.Base.Outcome.{ok, err}
use backup_system.Stream.{
  run, Bytes, no_nul, word_bytes, read_word, read_string, write_string, copy_bytes,
}
use backup_system.Stream.Words.{read_word-word_bytes}
use backup_system.Stream.Text.{read_string-write_string}
use backup_system.Stream.Copy.{copy_bytes-eq}
use backup_system.Format.{PackAlgorithm, CompressionAlgorithm, EncryptionAlgorithm, ArchiveInfo}
use backup_system.Archive.{
  ParsedHeader, known_version, write_archive_header, read_archive_header, read_archive_file,
  header_overhead,
}
use backup_system.Archive.RoundTrip.{IsHeader, read_archive_header-write_archive_header}
use backup_system.Archive.Accepted.{read_archive_file_total}
use backup_system.Entry.{
  Entry, EntryType, entry_type_id, has_type, write_entry_metadata, read_entry_metadata, stored,
}
use backup_system.Entry.Accepted.{read_entry_metadata_total}
use backup_system.Entry.Rules.{max_entries}
use backup_system.Pack.{read_stream_entries}
use backup_system.Pack.Accepted.{Inside, read_stream_entries_total}
use backup_system.Entry.RoundTrip.{IsEntry, read_entry_metadata-write_entry_metadata}

-- An encrypted archive with LZ77 compression.
abbrev sample_info : ArchiveInfo
sample_info = record {
  version = 4;
  pack = PackAlgorithm.stream;
  compression = CompressionAlgorithm.lz77;
  encryption = EncryptionAlgorithm.aes256;
  packed_size = 300;
  encoded_size = 200;
  packed_digest = replicate 32 1;
  encoded_digest = replicate 32 2;
}

abbrev sample_salt : Bytes
sample_salt = replicate 16 3

sample-IsHeader : IsHeader sample_info sample_salt
unfolding known_version
sample-IsHeader = record {
  version = refl;
  version_fits = record { lz77_late = λ e. omega arith; encrypted = λ e f. (cc) };
  packed = omega arith;
  encoded = omega arith;
  salt_size = refl;
  packed_digest_size = refl;
  encoded_digest_size = refl;
}

read_archive_header-write_archive_header_example :
    read_archive_header (write_archive_header sample_info sample_salt ++ 5 ∷ [])
    ≡ ok (record { info = sample_info; salt = sample_salt }, 5 ∷ [])
read_archive_header-write_archive_header_example =
    read_archive_header-write_archive_header sample_info sample_salt (5 ∷ []) sample-IsHeader

read_archive_file_total_example :
    ((parsed : ParsedHeader) × (read_archive_file (b'B' ∷ b'K' ∷ []) ≡ ok parsed)
      × IsHeader parsed.info parsed.salt
      × ((rest : Bytes) × (b'B' ∷ b'K' ∷ [] ≡ write_archive_header parsed.info parsed.salt ++ rest))
      × (header_overhead parsed.info + parsed.info.encoded_size ≡ 2))
    ⊎ ((e : String) × (read_archive_file (b'B' ∷ b'K' ∷ []) ≡ err e))
read_archive_file_total_example =
    read_archive_file_total (b'B' ∷ b'K' ∷ []) (omega arith, (omega arith, tt))

-- The symbolic link "a" to "b".
abbrev sample_entry : Entry
sample_entry = record {
  path = b'a' ∷ [];
  entry_type = EntryType.symlink;
  mode = 511;
  uid = 1000;
  gid = 1000;
  size = 0;
  atime_sec = 1;
  atime_nsec = 999_999_999;
  mtime_sec = 2;
  mtime_nsec = 5;
  ctime_sec = 3;
  ctime_nsec = 6;
  link_target = b'b' ∷ [];
  device = 0;
  content_offset = 77;
  source_device = 8;
  source_inode = 9;
  source_size = 1;
}

sample_entry-IsEntry : IsEntry sample_entry
unfolding no_nul has_type entry_type_id
sample_entry-IsEntry = record {
  path_short = omega arith;
  path_clean = refl;
  mode_fits = omega arith;
  mode_bits = refl;
  uid_fits = omega arith;
  gid_fits = omega arith;
  size_fits = omega arith;
  atime_fits = omega arith;
  mtime_fits = omega arith;
  ctime_fits = omega arith;
  atime_nsec_fits = omega arith;
  mtime_nsec_fits = omega arith;
  ctime_nsec_fits = omega arith;
  link_short = omega arith;
  link_clean = refl;
  device_fits = omega arith;
  offset_fits = omega arith;
  size_kind = refl;
  link_kind = refl;
  device_kind = refl;
}

read_entry_metadata-write_entry_metadata_example :
    (bs : Bytes) × (write_entry_metadata sample_entry true ≡ ok bs)
    × (read_entry_metadata true (bs ++ 5 ∷ []) ≡ ok (stored sample_entry true, 5 ∷ []))
read_entry_metadata-write_entry_metadata_example =
    read_entry_metadata-write_entry_metadata sample_entry true (5 ∷ []) sample_entry-IsEntry

a_clean : no_nul (b'a' ∷ []) ≡ true
unfolding no_nul
a_clean = refl

read_string-write_string_example :
    (bytes : Bytes) × (write_string (b'a' ∷ []) ≡ ok bytes)
    × (read_string (bytes ++ 5 ∷ []) ≡ ok (b'a' ∷ [], 5 ∷ []))
read_string-write_string_example =
    read_string-write_string (b'a' ∷ []) (5 ∷ []) (omega arith) a_clean

read_word-word_bytes_example :
    read_word 4 (word_bytes 4 0 0x01020304 ++ 5 ∷ []) ≡ ok (0x01020304, 5 ∷ [])
read_word-word_bytes_example = read_word-word_bytes 4 0x01020304 (5 ∷ []) (omega arith)

copy_bytes-eq_example : copy_bytes 2 (1 ∷ 2 ∷ 3 ∷ []) ≡ (
    if leb 2 3
    then ok (take 2 (1 ∷ 2 ∷ 3 ∷ []), drop 2 (1 ∷ 2 ∷ 3 ∷ []))
    else err "truncated input while copying data")
copy_bytes-eq_example = copy_bytes-eq 2 (1 ∷ 2 ∷ 3 ∷ [])

read_entry_metadata_total_example :
    ((e : Entry) × (run (read_entry_metadata true) (1 ∷ 2 ∷ []) ≡ ok e)
      × ((xs : Bytes) × (rest : Bytes) × ((1 ∷ 2 ∷ []) ≡ xs ++ rest)
          × (IsEntry e × (write_entry_metadata e true ≡ ok xs))))
    ⊎ ((m : String) × (run (read_entry_metadata true) (1 ∷ 2 ∷ []) ≡ err m))
read_entry_metadata_total_example =
    read_entry_metadata_total true (1 ∷ 2 ∷ []) (omega arith, (omega arith, tt))

read_stream_entries_total_example :
    ((es : List Entry) × (read_stream_entries (1 ∷ 2 ∷ []) ≡ ok es)
      × ((0 < length es) × (length es ≤ max_entries) × All (Inside 2) es))
    ⊎ ((e : String) × (read_stream_entries (1 ∷ 2 ∷ []) ≡ err e))
read_stream_entries_total_example =
    read_stream_entries_total (1 ∷ 2 ∷ []) (omega arith, (omega arith, tt))
