-- ===== src/Entry/Rules/Shape.antt =====
-- The entries of an archive as one tree, said without the code that tests it.
use backup_system.Base.{ℕ, ◌+◌, ◌≤◌, ◌≡◌, ◌≢◌, List, [], ◌∷◌, ◌++◌, length, All}
use backup_system.Stream.{Bytes}
use backup_system.Entry.{Entry, regular, directory, hardlink}
use backup_system.Entry.Rules.{max_entries}
use backup_system.Entry.Rules.Paths.{IsSafePath}

-- One of the entries.
abbrev pub Among : Entry → List Entry → Type 0
Among e entries = (front : List Entry) × (back : List Entry) × (entries ≡ front ++ e ∷ back)

-- The metadata that a hard link and its target share.
pub record SameMetadata (e target : Entry) : Type 0 where
  pub mode : e.mode ≡ target.mode
  pub uid : e.uid ≡ target.uid
  pub gid : e.gid ≡ target.gid
  pub mtime_sec : e.mtime_sec ≡ target.mtime_sec
  pub mtime_nsec : e.mtime_nsec ≡ target.mtime_nsec
  pub atime_sec : e.atime_sec ≡ target.atime_sec
  pub atime_nsec : e.atime_nsec ≡ target.atime_nsec

-- After the entries `seen`: the path is safe and none of theirs; the data of a regular file lies in the
-- packed file; a hard link has the metadata of a regular file among them, whose path is its target.
pub record IsPlaced (seen : List Entry) (size : ℕ) (e : Entry) : Type 0 where
  pub safe : IsSafePath e.path
  pub new : All (λ f. f.path ≢ e.path) seen
  pub inside : e.entry_type ≡ regular → e.content_offset + e.size ≤ size
  pub linked :
      e.entry_type ≡ hardlink
      → (target : Entry) × Among target seen
        × (target.path ≡ e.link_target)
        × (target.entry_type ≡ regular)
        × IsSafePath e.link_target
        × SameMetadata e target

-- Each entry is placed after the ones before it.
abbrev pub Placed : List Entry → ℕ → List Entry → Type 0
Placed seen size [] = Unit {0}
Placed seen size (e ∷ entries) = IsPlaced seen size e × Placed (e ∷ seen) size entries

-- Each stretch of a path before a slash is the path of a directory among the entries.
abbrev pub HasParents : List Entry → Entry → Type 0
HasParents entries e =
    (front back : Bytes)
    → e.path ≡ front ++ 0x2f ∷ back
    → (d : Entry) × Among d entries × (d.path ≡ front) × (d.entry_type ≡ directory)

-- The entries are a root, which is a directory whose path has no slash, and what is below it.
pub record IsTree (size : ℕ) (entries : List Entry) : Type 0 where
  pub root : Entry
  pub others : List Entry
  pub split : entries ≡ root ∷ others
  pub count_fits : length entries ≤ max_entries
  pub placed : Placed [] size entries
  pub root_part : All (λ b. b ≢ 0x2f) root.path
  pub root_directory : root.entry_type ≡ directory
  pub below : All (λ e. (tail : Bytes) × (e.path ≡ root.path ++ 0x2f ∷ tail)) others
  pub parents_directories : All (HasParents entries) entries
