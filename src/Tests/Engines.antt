-- ===== src/Tests/Engines.antt =====
-- Examples of the theorems on engine.cpp, archive.cpp and the rules for entries.
use backup_system.Base.{
  ℕ, ◌^◌, ◌<◌, ◌≡◌, ◌≢◌, refl, subst, true, false, not, ◌||◌, is_empty, [], ◌∷◌, ◌++◌, length, All,
  arith, replicate,
}
use backup_system.Base.Outcome.{Result, ok, err, ok-injective}
use backup_system.Stream.{
  Bytes, IsByte, bytes_eq, no_nul, read_exact, read_word, read_u8, read_u32, read_u64, or_bytes,
  read_string,
}
use backup_system.Entry.{
  Entry, EntryType, read_entry_metadata, read_offset, check_entry, entry_type_of, entry_type_id,
  has_type,
}
use backup_system.Entry.Rules.{
  validate_entries, check_each, check_kind, safe_archive_path, all_safe, safe_part, path_parts,
  add_front, has_path, check_prefix, check_hierarchy, check_parents, parents, parents_of,
}
use backup_system.Entry.Rules.Shape.{IsTree}
use backup_system.Pack.{
  stream_magic, read_packed_entries, read_layout, read_stream_entries, read_stream,
  read_stream_loop,
}
use backup_system.Pack.Accepted.{read_packed_entries-IsTree}
use backup_system.Format.{PackAlgorithm, CompressionAlgorithm, EncryptionAlgorithm, huffman}
use backup_system.Archive.{ParsedHeader}
use backup_system.Crypto.{is_none, is_chacha20}
use backup_system.Sha256.Ranges.{to_end}
use backup_system.Engine.{
  CreateOptions, RestoreOptions, uncompressed, compress_payload, encode_archive, decode_archive,
}
use backup_system.Engine.RoundTrip.{Fits, decode_archive-encode_archive}

abbrev no_codec : Bytes → Result Bytes
no_codec input = err "no Huffman codec"

abbrev no_decoder : Bytes → ℕ → Result Bytes
no_decoder input size = err "no Huffman codec"

abbrev secret_options : CreateOptions
secret_options = record {
  pack = PackAlgorithm.stream;
  compression = CompressionAlgorithm.none;
  encryption = EncryptionAlgorithm.chacha20;
  password = b'p' ∷ b'w' ∷ [];
}

abbrev secret_restore : RestoreOptions
secret_restore = record { password = b'p' ∷ b'w' ∷ []; allow_legacy_encryption = false }

abbrev packed_bytes : Bytes
packed_bytes = 1 ∷ 2 ∷ 3 ∷ []

secret_options-Fits : Fits no_codec no_decoder secret_options packed_bytes
unfolding compress_payload uncompressed
secret_options-Fits payload h =
    subst
      (λ t.
        (length t < to_end) × (is_chacha20 EncryptionAlgorithm.chacha20 ≡ true → length t < 2 ^ 38))
      (ok-injective h) (omega arith, λ _. omega arith)

packed_bytes-IsByte : All IsByte packed_bytes
packed_bytes-IsByte = (omega arith, (omega arith, (omega arith, tt)))

password_given :
    (is_none EncryptionAlgorithm.chacha20 || not (is_empty {A = ℕ} (b'p' ∷ b'w' ∷ []))) ≡ true
unfolding is_none
password_given = refl

not_huffman : CompressionAlgorithm.none ≢ huffman
not_huffman e = cc

decode_archive-encode_archive_example :
    (file : Bytes) × (header : ParsedHeader) × (encode_archive no_codec no_decoder secret_options
        (replicate 16 9)
        packed_bytes
      ≡ ok file)
    × (decode_archive no_codec no_decoder secret_restore file ≡ ok (header, packed_bytes))
decode_archive-encode_archive_example =
    decode_archive-encode_archive no_codec no_decoder secret_options secret_restore (replicate 16 9)
      packed_bytes not_huffman packed_bytes-IsByte refl (omega arith) refl password_given
      secret_options-Fits

-- A stream archive of one empty directory "d".
abbrev one_directory : Bytes
one_directory =
    stream_magic
    ++ (1 ∷ 0 ∷ 0 ∷ 0 ∷ 0x45 ∷ 0x4e ∷ 0x54 ∷ 0x52 ∷ 1 ∷ 0 ∷ 0 ∷ 0 ∷ b'd' ∷ 2 ∷ replicate 68 0)

abbrev the_directory : Entry
the_directory = record {
  path = b'd' ∷ [];
  entry_type = EntryType.directory;
  mode = 0;
  uid = 0;
  gid = 0;
  size = 0;
  atime_sec = 0;
  atime_nsec = 0;
  mtime_sec = 0;
  mtime_nsec = 0;
  ctime_sec = 0;
  ctime_nsec = 0;
  link_target = [];
  device = 0;
  content_offset = length one_directory;
  source_device = 0;
  source_inode = 0;
  source_size = 0;
}

directory_read : read_packed_entries PackAlgorithm.stream one_directory ≡ ok (the_directory ∷ [])
unfolding read_packed_entries read_layout read_stream_entries read_stream read_stream_loop
    read_entry_metadata read_offset check_entry entry_type_of entry_type_id has_type read_exact
    read_word read_u8 read_u32 read_u64 or_bytes read_string no_nul bytes_eq validate_entries
    check_each check_kind safe_archive_path all_safe safe_part path_parts add_front has_path
    check_prefix check_hierarchy check_parents parents parents_of
directory_read = refl

read_packed_entries-IsTree_example : IsTree (length one_directory) (the_directory ∷ [])
read_packed_entries-IsTree_example =
    read_packed_entries-IsTree PackAlgorithm.stream one_directory (the_directory ∷ [])
      directory_read
