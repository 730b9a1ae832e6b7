-- ===== src/Entry.antt =====
-- DataBackup/core/entry.cpp: the metadata record of an archive entry, written and read.
-- A signed time is the 64-bit pattern that its cast to uint64_t stores. sourcePath is left out: it
-- names a file on this machine and is never stored.
pub mod RoundTrip
pub mod Accepted
pub mod Rules
use backup_system.Base.{
  ℕ, ◌-◌, ◌^◌, ◌*◌, bit_and, Bool, true, false, not, ◌&&◌, List, [], ◌∷◌, ◌++◌, length, is_empty,
  leb, ltb, ◌==◌, if◌then◌else◌,
}
use backup_system.Base.Outcome
use backup_system.Base.Outcome.{Result, ok, err}
use backup_system.Stream.{
  Bytes, Reader, ◌>>=◌, ◌>>◌, pure, ensure, read_u8, read_u32, read_u64, read_string, write_u8,
  write_u32, write_u64, write_string,
}

pub data EntryType : Type 0 where
  regular directory symlink fifo character block socket hardlink : EntryType

unfoldable pub entry_type_id : EntryType → ℕ
entry_type_id regular = 1
entry_type_id directory = 2
entry_type_id symlink = 3
entry_type_id fifo = 4
entry_type_id character = 5
entry_type_id block = 6
entry_type_id socket = 7
entry_type_id hardlink = 8

-- `static_cast<EntryType>(rawType)`, made only after the range check.
unfoldable pub entry_type_of : ℕ → EntryType
entry_type_of id =
    if id == 1
    then regular
    else if id == 2
    then directory
    else if id == 3
    then symlink
    else if id == 4
    then fifo
    else if id == 5
    then character
    else if id == 6
    then block
    else if id == 7
    then socket
    else hardlink

pub record Entry : Type 0 where
  pub path : Bytes
  pub entry_type : EntryType
  pub mode : ℕ
  pub uid : ℕ
  pub gid : ℕ
  pub size : ℕ
  pub atime_sec : ℕ
  pub atime_nsec : ℕ
  pub mtime_sec : ℕ
  pub mtime_nsec : ℕ
  pub ctime_sec : ℕ
  pub ctime_nsec : ℕ
  pub link_target : Bytes
  pub device : ℕ
  pub content_offset : ℕ
  pub source_device : ℕ
  pub source_inode : ℕ
  pub source_size : ℕ

unfoldable pub write_entry_metadata : Entry → Bool → Result Bytes
write_entry_metadata e with_offset = Outcome.◌>>=◌ (write_string e.path) λ path.
    Outcome.◌>>=◌ (write_string e.link_target) λ link_target. ok (
      path
      ++ (write_u8 (entry_type_id e.entry_type)
          ++ (write_u32 e.mode
              ++ (write_u32 e.uid
                  ++ (write_u32 e.gid
                      ++ (write_u64 e.size
                          ++ (write_u64 e.atime_sec
                              ++ (write_u32 e.atime_nsec
                                  ++ (write_u64 e.mtime_sec
                                      ++ (write_u32 e.mtime_nsec
                                          ++ (write_u64 e.ctime_sec
                                              ++ (write_u32 e.ctime_nsec
                                                  ++ (link_target
                                                      ++ (write_u64 e.device
                                                          ++ (if with_offset
                                                            then write_u64 e.content_offset
                                                            else [])))))))))))))))

unfoldable pub has_type : EntryType → EntryType → Bool
has_type t u = entry_type_id t == entry_type_id u

-- The permission bits 07777.
abbrev pub mode_mask : ℕ
mode_mask = 2 ^ 32 - 4096

abbrev pub nsec_limit : ℕ
nsec_limit = 1_000_000_000

-- The checks that close readEntryMetadata.
unfoldable pub check_entry : Entry → Reader (Unit {0})
check_entry e = do
  ensure (ltb e.atime_nsec nsec_limit && ltb e.mtime_nsec nsec_limit && ltb e.ctime_nsec nsec_limit)
      "invalid nanosecond metadata"
  ensure (bit_and e.mode mode_mask == 0) "invalid archive permission bits"
  ensure (if has_type e.entry_type regular then true else e.size == 0)
      "non-regular entry has file data"
  ensure
      (if not (has_type e.entry_type symlink) && not (has_type e.entry_type hardlink)
        then is_empty e.link_target
        else true)
      "non-symlink entry has a link target"
  ensure
      (if not (has_type e.entry_type character) && not (has_type e.entry_type block)
        then e.device == 0
        else true)
      "non-device entry has a device number"

-- The offset is read in index archives; elsewhere it keeps its initial value.
unfoldable pub read_offset : Bool → Reader ℕ
read_offset with_offset = if with_offset then read_u64 else pure 0

unfoldable pub read_entry_metadata : Bool → Reader Entry
read_entry_metadata with_offset = do
  path ← read_string
  raw_type ← read_u8
  ensure (leb 1 raw_type && leb raw_type 8) "invalid archive entry type"
  mode ← read_u32
  uid ← read_u32
  gid ← read_u32
  size ← read_u64
  atime_sec ← read_u64
  atime_nsec ← read_u32
  mtime_sec ← read_u64
  mtime_nsec ← read_u32
  ctime_sec ← read_u64
  ctime_nsec ← read_u32
  link_target ← read_string
  device ← read_u64
  content_offset ← read_offset with_offset
  let e : Entry = record {
    path = path;
    entry_type = entry_type_of raw_type;
    mode = mode;
    uid = uid;
    gid = gid;
    size = size;
    atime_sec = atime_sec;
    atime_nsec = atime_nsec;
    mtime_sec = mtime_sec;
    mtime_nsec = mtime_nsec;
    ctime_sec = ctime_sec;
    ctime_nsec = ctime_nsec;
    link_target = link_target;
    device = device;
    content_offset = content_offset;
    source_device = 0;
    source_inode = 0;
    source_size = 0;
  }
  check_entry e
  pure e

-- What an archive keeps of an entry.
abbrev pub stored : Entry → Bool → Entry
stored e with_offset = record e {
  content_offset = if with_offset then e.content_offset else 0;
  source_device = 0;
  source_inode = 0;
  source_size = 0;
}
