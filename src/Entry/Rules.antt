-- ===== src/Entry/Rules.antt =====
-- safeArchivePath and validateEntries of DataBackup/core/entry.cpp. A path is split at each '/': on
-- POSIX, std::filesystem drops empty parts when it iterates and keeps one slash in generic_string, so
-- the function refuses a path with an empty part. Messages leave out the path that the source appends.
pub mod Paths
pub mod Shape
pub mod Tree
use backup_system.Base.{
  ℕ, ◌-◌, Bool, true, false, not, ◌&&◌, Option, none, some, List, [], ◌∷◌, ◌++◌, length, leb, ◌==◌,
  if◌then◌else◌, is_empty,
}
use backup_system.Base.Outcome.{Result, ok, err, ◌>>=◌, ◌>>◌, ensure}
use backup_system.Stream.{Bytes, bytes_eq, no_nul}
use backup_system.Entry.{Entry, EntryType, regular, directory, hardlink, has_type}

abbrev pub max_entries : ℕ
max_entries = 1000000

unfoldable pub add_front : ℕ → List Bytes → List Bytes
add_front b [] = (b ∷ []) ∷ []
add_front b (part ∷ parts) = (b ∷ part) ∷ parts

-- What stands between the slashes.
unfoldable pub path_parts : Bytes → List Bytes
path_parts [] = [] ∷ []
path_parts (b ∷ bs) = let rest = path_parts bs in if b == 0x2f then [] ∷ rest else add_front b rest

-- Neither empty nor "." nor "..".
unfoldable pub safe_part : Bytes → Bool
safe_part part =
    not (is_empty part) && not (bytes_eq part (0x2e ∷ [])) && not (bytes_eq part (0x2e ∷ 0x2e ∷ []))

unfoldable pub all_safe : List Bytes → Bool
all_safe [] = true
all_safe (part ∷ parts) = let rest = all_safe parts in if safe_part part then rest else false

unfoldable pub safe_archive_path : Bytes → Bool
safe_archive_path value = not (is_empty value) && no_nul value && all_safe (path_parts value)

unfoldable pub has_path : Bytes → List Entry → Bool
has_path path [] = false
has_path path (e ∷ entries) =
    let rest = has_path path entries in if bytes_eq e.path path then true else rest

-- The regular file of that path in `originals`.
unfoldable pub original_at : Bytes → List Entry → Option Entry
original_at path [] = none
original_at path (e ∷ originals) =
    let rest = original_at path originals in if bytes_eq e.path path then some e else rest

unfoldable pub same_metadata : Entry → Entry → Bool
same_metadata e target =
    e.mode == target.mode
    && e.uid == target.uid
    && e.gid == target.gid
    && e.mtime_sec == target.mtime_sec
    && e.mtime_nsec == target.mtime_nsec
    && e.atime_sec == target.atime_sec
    && e.atime_nsec == target.atime_nsec

unfoldable pub check_target : Entry → Option Entry → Result (Unit {0})
check_target e none = err "hardlink must target an earlier regular file"
check_target e (some target) = do
  ensure (safe_archive_path e.link_target) "hardlink must target an earlier regular file"
  ensure (same_metadata e target) "hardlink metadata differs from its target"

unfoldable pub check_kind : List Entry → Entry → ℕ → Result (Unit {0})
check_kind originals e packed_size =
    if has_type e.entry_type regular
    then ensure (leb e.content_offset packed_size && leb e.size (packed_size - e.content_offset))
        "archive entry data is outside packed stream"
    else if has_type e.entry_type hardlink
    then check_target e (original_at e.link_target originals)
    else ok tt

-- The first loop; `seen` and `originals` are the entries and the regular files before.
unfoldable pub check_each : List Entry → List Entry → List Entry → ℕ → Result (Unit {0})
check_each seen originals [] packed_size = ok tt
check_each seen originals (e ∷ entries) packed_size = do
  ensure (safe_archive_path e.path) "unsafe archive path"
  ensure (not (has_path e.path seen)) "duplicate archive path"
  check_kind originals e packed_size
  check_each (e ∷ seen) (if has_type e.entry_type regular then e ∷ originals else originals) entries
      packed_size

-- `value.rfind(prefix, 0) == 0`
unfoldable pub starts_with : Bytes → Bytes → Bool
starts_with [] value = true
starts_with (p ∷ prefix) [] = false
starts_with (p ∷ prefix) (b ∷ value) =
    let rest = starts_with prefix value in if p == b then rest else false

unfoldable pub check_prefix : Bytes → List Entry → Result (Unit {0})
check_prefix prefix [] = ok tt
check_prefix prefix (e ∷ entries) = do
  ensure (starts_with prefix e.path) "archive entry escapes the top-level directory"
  check_prefix prefix entries

-- The paths above a path, the longest first; `before` is what was read of it.
unfoldable pub parents_of : Bytes → Bytes → List Bytes
parents_of before [] = []
parents_of before (b ∷ bs) =
    let rest = parents_of (before ++ (b ∷ [])) bs in
    if b == 0x2f then rest ++ (before ∷ []) else rest

unfoldable pub parents : Bytes → List Bytes
parents path = parents_of [] path

-- The lookup in `hierarchy`, which has the first entry of each path.
unfoldable pub type_at : Bytes → List Entry → Option EntryType
type_at path [] = none
type_at path (e ∷ entries) =
    let rest = type_at path entries in if bytes_eq e.path path then some e.entry_type else rest

unfoldable pub check_directory : Option EntryType → Result (Unit {0})
check_directory none = err "archive entry has a missing parent"
check_directory (some kind) =
    ensure (has_type kind directory) "archive entry is nested below a non-directory"

unfoldable pub check_parents : List Entry → List Bytes → Result (Unit {0})
check_parents entries [] = ok tt
check_parents entries (path ∷ paths) = do
  check_directory (type_at path entries)
  check_parents entries paths

unfoldable pub check_hierarchy : List Entry → List Entry → Result (Unit {0})
check_hierarchy entries [] = ok tt
check_hierarchy entries (e ∷ rest) = do
  check_parents entries (parents e.path)
  check_hierarchy entries rest

unfoldable pub validate_entries : List Entry → ℕ → Result (Unit {0})
validate_entries [] packed_size = err "archive contains no entries"
validate_entries (root ∷ rest) packed_size = do
  ensure (leb (length (root ∷ rest)) max_entries) "archive contains too many entries"
  check_each [] [] (root ∷ rest) packed_size
  ensure (length (path_parts root.path) == 1 && has_type root.entry_type directory)
      "archive does not begin with a single top-level directory"
  check_prefix (root.path ++ (0x2f ∷ [])) rest
  check_hierarchy (root ∷ rest) (root ∷ rest)
