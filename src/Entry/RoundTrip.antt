-- ===== src/Entry/RoundTrip.antt =====
-- Reading the metadata that was written.
use backup_system.Base.{
  ℕ, ◌^◌, ◌≤◌, ◌<◌, bit_and, ◌≡◌, refl, Bool, true, false, not, ◌&&◌, [], ◌++◌, append_assoc,
  length, is_empty, lt→ltb, le→leb, ◌==◌, if◌then◌else◌, arith,
}
use backup_system.Base.Outcome.{ok}
use backup_system.Stream.{Bytes, max_string, no_nul, write_u8, write_u32, write_u64}
use backup_system.Stream.Words.{read_u8-write_u8, read_u32-write_u32, read_u64-write_u64}
use backup_system.Stream.Text.{write_string-eq, read_string-append}
use backup_system.Entry.{
  EntryType, Entry, regular, symlink, hardlink, character, block, entry_type_id, entry_type_of,
  has_type, write_entry_metadata, read_entry_metadata, check_entry, read_offset, stored, mode_mask,
  nsec_limit,
}

-- What a stored entry satisfies: the ranges of its fields, and the checks of readEntryMetadata.
pub record IsEntry (e : Entry) : Type 0 where
  pub path_short : length e.path ≤ max_string
  pub path_clean : no_nul e.path ≡ true
  pub mode_fits : e.mode < 2 ^ 32
  pub mode_bits : (bit_and e.mode mode_mask == 0) ≡ true
  pub uid_fits : e.uid < 2 ^ 32
  pub gid_fits : e.gid < 2 ^ 32
  pub size_fits : e.size < 2 ^ 64
  pub atime_fits : e.atime_sec < 2 ^ 64
  pub mtime_fits : e.mtime_sec < 2 ^ 64
  pub ctime_fits : e.ctime_sec < 2 ^ 64
  pub atime_nsec_fits : e.atime_nsec < nsec_limit
  pub mtime_nsec_fits : e.mtime_nsec < nsec_limit
  pub ctime_nsec_fits : e.ctime_nsec < nsec_limit
  pub link_short : length e.link_target ≤ max_string
  pub link_clean : no_nul e.link_target ≡ true
  pub device_fits : e.device < 2 ^ 64
  pub offset_fits : e.content_offset < 2 ^ 64
  pub size_kind : (if has_type e.entry_type regular then true else e.size == 0) ≡ true
  pub link_kind :
      (if not (has_type e.entry_type symlink) && not (has_type e.entry_type hardlink)
        then is_empty e.link_target
        else true)
      ≡ true
  pub device_kind :
      (if not (has_type e.entry_type character) && not (has_type e.entry_type block)
        then e.device == 0
        else true)
      ≡ true

pub entry_type_of-entry_type_id :
    (t : EntryType)
    → (entry_type_of (entry_type_id t) ≡ t) × (1 ≤ entry_type_id t) × (entry_type_id t ≤ 8)
unfolding entry_type_of entry_type_id
entry_type_of-entry_type_id regular = (refl, omega arith, omega arith)
entry_type_of-entry_type_id _ = (refl, omega arith, omega arith)

nsec-lt : (n : ℕ) → n < nsec_limit → n < 2 ^ 32
nsec-lt n h = omega arith

pub check_entry-pass : (e : Entry) (rest : Bytes) → IsEntry e → check_entry e rest ≡ ok (tt, rest)
unfolding check_entry
check_entry-pass e rest h =
    rw
      (
        lt→ltb e.atime_nsec nsec_limit h.atime_nsec_fits,
        lt→ltb e.mtime_nsec nsec_limit h.mtime_nsec_fits,
        lt→ltb e.ctime_nsec nsec_limit h.ctime_nsec_fits,
      )
      (rw h.mode_bits (rw h.size_kind (rw h.link_kind (rw h.device_kind))))

-- The bytes after the link target.
device_tail : Entry → Bool → Bytes → Bytes
device_tail e with_offset rest =
    write_u64 e.device ++ ((if with_offset then write_u64 e.content_offset else []) ++ rest)

-- The bytes of an entry with what follows, as the reader meets them.
entry_bytes : Entry → Bool → Bytes → Bytes
entry_bytes e with_offset rest =
    (write_u32 (length e.path) ++ e.path)
    ++ (write_u8 (entry_type_id e.entry_type)
        ++ (write_u32 e.mode
            ++ (write_u32 e.uid
                ++ (write_u32 e.gid
                    ++ (write_u64 e.size
                        ++ (write_u64 e.atime_sec
                            ++ (write_u32 e.atime_nsec
                                ++ (write_u64 e.mtime_sec
                                    ++ (write_u32 e.mtime_nsec
                                        ++ (write_u64 e.ctime_sec
                                            ++ (write_u32 e.ctime_nsec
                                                ++ ((write_u32 (length e.link_target)
                                                      ++ e.link_target)
                                                    ++ device_tail e with_offset rest))))))))))))

write_entry_metadata-eq :
    (e : Entry) (with_offset : Bool)
    → IsEntry e
    → (bs : Bytes) × (write_entry_metadata e with_offset ≡ ok bs)
      × ((rest : Bytes) → bs ++ rest ≡ entry_bytes e with_offset rest)
unfolding write_entry_metadata entry_bytes device_tail
write_entry_metadata-eq e with_offset h =
    rw (write_string-eq e.path h.path_short)
      (rw (write_string-eq e.link_target h.link_short) (_, refl, λ rest. simp append_assoc))

read_offset-eq :
    (e : Entry) (with_offset : Bool) (rest : Bytes)
    → e.content_offset < 2 ^ 64
    → read_offset with_offset ((if with_offset then write_u64 e.content_offset else []) ++ rest)
      ≡ ok ((if with_offset then e.content_offset else 0), rest)
unfolding read_offset
read_offset-eq e true rest h = read_u64-write_u64 e.content_offset rest h
read_offset-eq e false rest h = refl

check_entry-stored :
    (e : Entry) (with_offset : Bool) (rest : Bytes)
    → IsEntry e
    → check_entry (stored e with_offset) rest ≡ ok (tt, rest)
unfolding check_entry
check_entry-stored e with_offset rest h = check_entry-pass e rest h

read_entry_metadata-entry_bytes :
    (e : Entry) (with_offset : Bool) (rest : Bytes)
    → IsEntry e
    → read_entry_metadata with_offset (entry_bytes e with_offset rest)
      ≡ ok (stored e with_offset, rest)
unfolding read_entry_metadata entry_bytes device_tail
read_entry_metadata-entry_bytes e with_offset rest h =
    let (kind, low, high) = entry_type_of-entry_type_id e.entry_type in
    let id = entry_type_id e.entry_type in
    rw (read_string-append e.path _ h.path_short h.path_clean) (
      rw (read_u8-write_u8 (entry_type_id e.entry_type) _ (omega (arith, high))) (
        rw (le→leb 1 (entry_type_id e.entry_type) low, le→leb (entry_type_id e.entry_type) 8 high)
          (rw (read_u32-write_u32 e.mode _ h.mode_fits) (
            rw (read_u32-write_u32 e.uid _ h.uid_fits) (
              rw (read_u32-write_u32 e.gid _ h.gid_fits) (
                rw (read_u64-write_u64 e.size _ h.size_fits) (
                  rw (read_u64-write_u64 e.atime_sec _ h.atime_fits) (
                    rw (read_u32-write_u32 e.atime_nsec _ (nsec-lt e.atime_nsec h.atime_nsec_fits))
                      (rw (read_u64-write_u64 e.mtime_sec _ h.mtime_fits) (
                        rw
                          (read_u32-write_u32 e.mtime_nsec _
                            (nsec-lt e.mtime_nsec h.mtime_nsec_fits))
                          (rw (read_u64-write_u64 e.ctime_sec _ h.ctime_fits) (
                            rw
                              (read_u32-write_u32 e.ctime_nsec _
                                (nsec-lt e.ctime_nsec h.ctime_nsec_fits))
                              (rw (read_string-append e.link_target _ h.link_short h.link_clean) (
                                rw (read_u64-write_u64 e.device _ h.device_fits) (
                                  rw (read_offset-eq e with_offset rest h.offset_fits) (
                                    rw kind
                                      (rw (check_entry-stored e with_offset rest h))))))))))))))))))

-- The metadata of an entry that meets the format's checks is written, and it reads back as it is
-- stored: with its offset in an index archive, without it elsewhere, whatever follows it.
pub read_entry_metadata-write_entry_metadata :
    (e : Entry) (with_offset : Bool) (rest : Bytes)
    → IsEntry e
    → (bs : Bytes) × (write_entry_metadata e with_offset ≡ ok bs)
      × (read_entry_metadata with_offset (bs ++ rest) ≡ ok (stored e with_offset, rest))
read_entry_metadata-write_entry_metadata e with_offset rest h =
    let (bs, written, bytes) = write_entry_metadata-eq e with_offset h in
    (bs, written, rw (bytes rest) (read_entry_metadata-entry_bytes e with_offset rest h))
