-- ===== src/Pack.antt =====
-- DataBackup/core/pack.cpp: the two layouts of the packed entries, written and read.
-- The data of a regular file and the check of a hard link come from the file system: they are
-- parameters of the writers. A packed file is the list of its bytes, and tellg is what is read of it.
pub mod Accepted
use backup_system.Base.{
  ℕ, zero, suc, ◌+◌, ◌-◌, ◌/◌, min, Bool, true, false, ◌&&◌, List, [], ◌∷◌, ◌++◌, length, drop, leb,
  ltb, ◌==◌, if◌then◌else◌,
}
use backup_system.Base.Outcome
use backup_system.Base.Outcome.{Result, ok, err}
use backup_system.Format.{PackAlgorithm}
use backup_system.Stream.{
  Bytes, Reader, ◌>>=◌, ◌>>◌, pure, ensure, bytes_eq, run, read_exact, read_u32, read_u64,
  write_u32, write_u64,
}
use backup_system.Entry.Rules.{max_entries, validate_entries}
use backup_system.Entry.{Entry, EntryType, has_type, write_entry_metadata, read_entry_metadata}

abbrev pub stream_magic : Bytes
stream_magic = b'S' ∷ b'T' ∷ b'R' ∷ b'M' ∷ b'P' ∷ b'K' ∷ b'1' ∷ 0 ∷ []

abbrev pub index_magic : Bytes
index_magic = b'I' ∷ b'N' ∷ b'D' ∷ b'X' ∷ b'P' ∷ b'K' ∷ b'1' ∷ 0 ∷ []

abbrev pub central_magic : Bytes
central_magic = b'C' ∷ b'D' ∷ b'I' ∷ b'R' ∷ b'V' ∷ b'1' ∷ 0 ∷ 0 ∷ []

abbrev pub index_end_magic : Bytes
index_end_magic = b'I' ∷ b'D' ∷ b'X' ∷ b'E' ∷ b'N' ∷ b'D' ∷ b'1' ∷ 0 ∷ []

abbrev pub minimum_entry_size : ℕ
minimum_entry_size = 74

abbrev pub entry_marker : ℕ
entry_marker = 0x52544E45

module _ (validate_source_hardlink : Entry → Result (Unit {0}))
    (copy_source_file : Entry → Result Bytes) where
  unfoldable pub check_hardlink : Entry → Result (Unit {0})
  check_hardlink e =
      if has_type e.entry_type EntryType.hardlink then validate_source_hardlink e else ok tt

  unfoldable pub file_data : Entry → Result Bytes
  file_data e = if has_type e.entry_type EntryType.regular then copy_source_file e else ok []

  unfoldable pub pack_stream_loop : List Entry → Result Bytes
  pack_stream_loop [] = ok []
  pack_stream_loop (e ∷ es) = Outcome.◌>>◌ (check_hardlink e) (
      Outcome.◌>>=◌ (write_entry_metadata e false) λ metadata.
        Outcome.◌>>=◌ (file_data e) λ content.
          Outcome.◌>>=◌ (pack_stream_loop es)
            λ rest. ok (write_u32 entry_marker ++ (metadata ++ (content ++ rest))))

  unfoldable pub pack_stream : List Entry → Result Bytes
  pack_stream entries =
      Outcome.◌>>=◌ (pack_stream_loop entries)
        λ body. ok (stream_magic ++ (write_u32 (length entries) ++ body))

  -- The data of the entries from `position` on, and the entries with their offsets.
  unfoldable pub pack_data : ℕ → List Entry → Result (Bytes × List Entry)
  pack_data position [] = ok ([], [])
  pack_data position (e ∷ es) = Outcome.◌>>◌ (check_hardlink e) (
      Outcome.◌>>=◌ (file_data e) λ content.
        Outcome.◌>>=◌ (pack_data (position + length content) es)
          λ (rest, placed). ok (content ++ rest, record e { content_offset = position } ∷ placed))

  unfoldable pub central_directory : List Entry → Result Bytes
  central_directory [] = ok []
  central_directory (e ∷ es) =
      Outcome.◌>>=◌ (write_entry_metadata e true)
        λ metadata. Outcome.◌>>=◌ (central_directory es) λ rest. ok (metadata ++ rest)

  unfoldable pub pack_index : List Entry → Result Bytes
  pack_index entries = Outcome.◌>>=◌ (pack_data 8 entries) λ (body, placed).
      Outcome.◌>>=◌ (central_directory placed) λ directory.
        let count = write_u32 (length entries) in
        let central = central_magic ++ (count ++ directory) in
        ok (
          index_magic
          ++ (body
              ++ (central
                  ++ (index_end_magic
                      ++ (write_u64 (8 + length body)
                          ++ (write_u64 (length central) ++ (count ++ write_u32 0)))))))

-- `in.tellg()` in a file of `size` bytes.
abbrev pub tell : ℕ → Reader ℕ
tell size input = ok (size - length input, input)

-- `in.seekg(count, std::ios::cur)`
abbrev pub skip : ℕ → Reader (Unit {0})
skip count input = ok (tt, drop count input)

-- The next `count` entries of a file of `size` bytes.
unfoldable pub read_stream_loop : ℕ → ℕ → Reader (List Entry)
read_stream_loop zero size = pure []
read_stream_loop (suc count) size = do
  marker ← read_u32
  ensure (marker == entry_marker) "invalid sequential entry marker"
  e ← read_entry_metadata false
  position ← tell size
  ensure (leb e.size (size - min size position)) "truncated sequential entry"
  skip e.size
  rest ← read_stream_loop count size
  pure (record e { content_offset = position } ∷ rest)

unfoldable pub read_stream : ℕ → Reader (List Entry)
read_stream size = do
  magic ← read_exact 8
  ensure (bytes_eq magic stream_magic) "invalid sequential pack magic"
  count ← read_u32
  ensure (ltb 0 count && leb count max_entries) "invalid sequential pack entry count"
  ensure (leb 12 size && leb count ((size - 12) / (4 + minimum_entry_size)))
      "entry count exceeds packed bounds"
  entries ← read_stream_loop count size
  position ← tell size
  ensure (position == size) "sequential pack has trailing data"
  pure entries

unfoldable pub read_stream_entries : Bytes → Result (List Entry)
read_stream_entries file = run (read_stream (length file)) file

-- The next `count` entries of the central directory that stands at `central_offset`.
unfoldable pub read_index_loop : ℕ → ℕ → Reader (List Entry)
read_index_loop zero central_offset = pure []
read_index_loop (suc count) central_offset = do
  e ← read_entry_metadata true
  ensure
      (if has_type e.entry_type EntryType.regular
        then leb 8 e.content_offset
          && leb e.content_offset central_offset
          && leb e.size (central_offset - e.content_offset)
        else true)
      "indexed file data overlaps the central directory"
  rest ← read_index_loop count central_offset
  pure (e ∷ rest)

-- The trailer: offset and size of the central directory, and the count.
unfoldable pub read_trailer : ℕ → Reader (ℕ × ℕ × ℕ)
read_trailer size = do
  end_magic ← read_exact 8
  ensure (bytes_eq end_magic index_end_magic) "invalid indexed pack trailer"
  central_offset ← read_u64
  central_size ← read_u64
  trailer_count ← read_u32
  reserved ← read_u32
  ensure (reserved == 0) "non-zero indexed trailer reserved field"
  ensure
      (leb 8 central_offset
        && leb central_offset (size - 32)
        && leb central_size (size - 32 - central_offset))
      "invalid central directory bounds"
  ensure (central_offset + central_size == size - 32)
      "central directory size does not reach the indexed trailer"
  pure (central_offset, central_size, trailer_count)

unfoldable pub read_central : ℕ → ℕ → ℕ → ℕ → Reader (List Entry)
read_central size central_offset central_size trailer_count = do
  magic ← read_exact 8
  ensure (bytes_eq magic central_magic) "invalid central directory magic"
  count ← read_u32
  ensure (count == trailer_count && ltb 0 count && leb count max_entries)
      "invalid central directory count"
  ensure (leb 12 central_size && leb count ((central_size - 12) / (minimum_entry_size + 8)))
      "entry count exceeds packed bounds"
  entries ← read_index_loop count central_offset
  position ← tell size
  ensure (position == central_offset + central_size)
      "central directory size does not match its entries"
  pure entries

unfoldable pub read_index_entries : Bytes → Result (List Entry)
read_index_entries file =
    let size = length file in
    Outcome.◌>>◌ (Outcome.ensure (leb 40 size) "indexed pack is too small") (
      Outcome.◌>>=◌ (run (read_exact 8) file) λ magic.
        Outcome.◌>>◌ (Outcome.ensure (bytes_eq magic index_magic) "invalid indexed pack magic") (
          Outcome.◌>>=◌ (run (read_trailer size) (drop (size - 32) file))
            λ (central_offset, central_size, count).
              run (read_central size central_offset central_size count) (drop central_offset file)))

-- The readers by the layout.
unfoldable pub read_layout : PackAlgorithm → Bytes → Result (List Entry)
read_layout PackAlgorithm.stream packed = read_stream_entries packed
read_layout PackAlgorithm.index packed = read_index_entries packed

unfoldable pub read_packed_entries : PackAlgorithm → Bytes → Result (List Entry)
read_packed_entries algorithm packed =
    Outcome.◌>>=◌ (read_layout algorithm packed)
      λ entries. Outcome.◌>>◌ (validate_entries entries (length packed)) (ok entries)
