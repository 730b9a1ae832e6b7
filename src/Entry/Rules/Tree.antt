-- ===== src/Entry/Rules/Tree.antt =====
-- What validateEntries makes sure of: the entries are one tree below one directory.
use backup_system.Base.{
  ℕ, ◌-◌, ◌≡◌, ◌≢◌, refl, sym, ap, ap₂, ◌∙◌, subst, String, Bool, true, false, not, ◌&&◌,
  Bool-cases, inl, inr, Option, none, some, List, [], ◌∷◌, ◌++◌, append_assoc, length, leb, leb→le,
  ◌==◌, ==_iff, All, and_both, if◌then◌else◌, arith,
}
use backup_system.Base.Outcome.{ok, ensure, bind-eq-ok, ensure-eq-ok}
use backup_system.Stream.{Bytes, bytes_eq}
use backup_system.Stream.Equal.{bytes_eq_refl, bytes_eq→≡, bytes_eq_cases}
use backup_system.Entry.{
  Entry, EntryType, regular, directory, hardlink, has_type, entry_type_id, entry_type_of,
}
use backup_system.Entry.RoundTrip.{entry_type_of-entry_type_id}
use backup_system.Entry.Rules.{
  max_entries, path_parts, safe_archive_path, has_path, original_at, same_metadata, check_target,
  check_kind, check_each, starts_with, check_prefix, parents, type_at, check_directory,
  check_parents, check_hierarchy, validate_entries,
}
use backup_system.Entry.Rules.Paths.{
  IsSafePath, safe_archive_path-IsSafePath, one_part-no_slash, parents-All,
}
use backup_system.Entry.Rules.Shape.{Among, SameMetadata, IsPlaced, Placed, HasParents, IsTree}

pub has_type-eq : (t u : EntryType) → has_type t u ≡ true → t ≡ u
unfolding has_type entry_type_id
has_type-eq t u h =
    sym (entry_type_of-entry_type_id t).0
    ∙ ap entry_type_of ((==_iff (entry_type_id t) (entry_type_id u)).0 h)
    ∙ (entry_type_of-entry_type_id u).0

has_type-same : (t : EntryType) → has_type t t ≡ true
unfolding has_type
has_type-same t = (==_iff (entry_type_id t) (entry_type_id t)).1 refl

hardlink-other : has_type hardlink regular ≡ false
unfolding has_type entry_type_id
hardlink-other = refl

ensure-eq-tt : (b : Bool) (message : String) → ensure b message ≡ ok tt → b ≡ true
ensure-eq-tt true message h = refl
ensure-eq-tt false message h = absurd (cc)

has_path-All :
    (path : Bytes) (seen : List Entry) → has_path path seen ≡ false → All (λ f. f.path ≢ path) seen
unfolding has_path
has_path-All path [] h = tt
has_path-All path (f ∷ seen) h = elim (bytes_eq_cases f.path path) [
  | inl same ↦
      let found : bytes_eq f.path path ≡ true = rw same (bytes_eq_refl path) in
      let no = rw found at h in absurd (cc)
  | inr (differ, test) ↦ (differ, has_path-All path seen (rw test at h))
]

-- The regular files that are kept are among the entries before.
abbrev Kept : List Entry → List Entry → Type 0
Kept seen originals = All (λ t. Among t seen × (t.entry_type ≡ regular)) originals

Among-cons : (x t : Entry) (seen : List Entry) → Among t seen → Among t (x ∷ seen)
Among-cons x t seen (front, back, e) = (x ∷ front, back, ap (λ l. x ∷ l) e)

Kept-cons :
    (x : Entry) (seen originals : List Entry) → Kept seen originals → Kept (x ∷ seen) originals
Kept-cons x seen [] h = tt
Kept-cons x seen (t ∷ originals) ((among, kind), h) =
    ((Among-cons x t seen among, kind), Kept-cons x seen originals h)

original_at-Among :
    (path : Bytes) (seen originals : List Entry) (target : Entry)
    → Kept seen originals
    → original_at path originals ≡ some target
    → Among target seen × (target.path ≡ path) × (target.entry_type ≡ regular)
unfolding original_at
original_at-Among path seen [] target kept h = absurd (cc)
original_at-Among path seen (t ∷ originals) target ((among, kind), kept) h =
    elim (Bool-cases (bytes_eq t.path path)) [
      | inl same ↦
          let e : t ≡ target = some_injective (rw same at h) in
          subst (λ x. Among x seen × (x.path ≡ path) × (x.entry_type ≡ regular)) e
            (among, bytes_eq→≡ t.path path same, kind)
      | inr other ↦ original_at-Among path seen originals target kept (rw other at h)
    ]
  where
    some_injective : {x y : Entry} → some x ≡ some y → x ≡ y
    some_injective e = cc

same_metadata-eq : (e target : Entry) → same_metadata e target ≡ true → SameMetadata e target
unfolding same_metadata
same_metadata-eq e target h = record {
  mode = ground arith;
  uid = ground arith;
  gid = ground arith;
  mtime_sec = ground arith;
  mtime_nsec = ground arith;
  atime_sec = ground arith;
  atime_nsec = ground arith;
}

check_target-eq :
    (e : Entry) (o : Option Entry)
    → check_target e o ≡ ok tt
    → (target : Entry) × (o ≡ some target) × IsSafePath e.link_target × SameMetadata e target
unfolding check_target
check_target-eq e none h = absurd (cc)
check_target-eq e (some target) h =
    let (safe, h1) = ensure-eq-ok (safe_archive_path e.link_target) _ h in
    (
      target,
      refl,
      safe_archive_path-IsSafePath e.link_target safe,
      same_metadata-eq e target (ensure-eq-tt (same_metadata e target) _ h1),
    )

check_kind-IsPlaced :
    (seen originals : List Entry) (e : Entry) (size : ℕ)
    → Kept seen originals
    → IsSafePath e.path
    → All (λ f. f.path ≢ e.path) seen
    → check_kind originals e size ≡ ok tt
    → IsPlaced seen size e
unfolding check_kind
check_kind-IsPlaced seen originals e size kept safe new h = record {
  safe = safe;
  new = new;
  inside = λ kind.
      let plain : has_type e.entry_type regular ≡ true = rw kind (has_type-same regular) in
      let fits =
        ensure-eq-tt (leb e.content_offset size && leb e.size (size - e.content_offset)) _
          (rw plain at h) in
      ground arith;
  linked = λ kind.
      let other : has_type e.entry_type regular ≡ false = rw kind hardlink-other in
      let link : has_type e.entry_type hardlink ≡ true = rw kind (has_type-same hardlink) in
      let checked = rw other at h in
      let (target, found, clean, same) =
        check_target-eq e (original_at e.link_target originals) (rw link at checked) in
      let (among, path, regular_file) =
        original_at-Among e.link_target seen originals target kept found in
      (target, among, path, regular_file, clean, same);
}

starts_with-split :
    (prefix value : Bytes)
    → starts_with prefix value ≡ true
    → (tail : Bytes) × (value ≡ prefix ++ tail)
unfolding starts_with
starts_with-split [] value h = (value, refl)
starts_with-split (p ∷ prefix) [] h = absurd (cc)
starts_with-split (p ∷ prefix) (b ∷ value) h = elim (Bool-cases (p == b)) [
  | inl same ↦
      let (tail, e) = starts_with-split prefix value (rw same at h) in
      (tail, ap₂ (λ x xs. x ∷ xs) (sym ((==_iff p b).0 same)) e)
  | inr differ ↦ let no = rw differ at h in absurd (cc)
]

keep-Kept :
    (e : Entry) (seen originals : List Entry)
    → Kept seen originals
    → Kept (e ∷ seen) (if has_type e.entry_type regular then e ∷ originals else originals)
keep-Kept e seen originals kept = elim (Bool-cases (has_type e.entry_type regular)) [
  | inl plain ↦
      rw plain (
        (([], seen, refl), has_type-eq e.entry_type regular plain),
        Kept-cons e seen originals kept,
      )
  | inr other ↦ rw other (Kept-cons e seen originals kept)
]

check_each-Placed :
    (seen originals entries : List Entry) (size : ℕ)
    → Kept seen originals
    → check_each seen originals entries size ≡ ok tt
    → Placed seen size entries
unfolding check_each
check_each-Placed seen originals [] size kept h = tt
check_each-Placed seen originals (e ∷ entries) size kept h =
    let (safe, h1) = ensure-eq-ok (safe_archive_path e.path) _ h in
    let (new, h2) = ensure-eq-ok (not (has_path e.path seen)) _ h1 in
    let (_, kind, h3) = bind-eq-ok (check_kind originals e size) h2 in
    (
      check_kind-IsPlaced seen originals e size kept (safe_archive_path-IsSafePath e.path safe)
          (has_path-All e.path seen (ground arith)) kind,
      check_each-Placed (e ∷ seen)
          (if has_type e.entry_type regular then e ∷ originals else originals) entries size
          (keep-Kept e seen originals kept) h3,
    )

check_prefix-below :
    (path : Bytes) (entries : List Entry)
    → check_prefix (path ++ (0x2f ∷ [])) entries ≡ ok tt
    → All (λ e. (tail : Bytes) × (e.path ≡ path ++ 0x2f ∷ tail)) entries
unfolding check_prefix
check_prefix-below path [] h = tt
check_prefix-below path (e ∷ entries) h =
    let (starts, h1) = ensure-eq-ok (starts_with (path ++ (0x2f ∷ [])) e.path) _ h in
    let (tail, split) = starts_with-split (path ++ (0x2f ∷ [])) e.path starts in
    ((tail, split ∙ append_assoc path (0x2f ∷ []) tail), check_prefix-below path entries h1)

check_directory-eq : (o : Option EntryType) → check_directory o ≡ ok tt → o ≡ some directory
unfolding check_directory
check_directory-eq none h = absurd (cc)
check_directory-eq (some kind) h = elim (Bool-cases (has_type kind directory)) [
  | inl same ↦ ap (λ t. some t) (has_type-eq kind directory same)
  | inr differ ↦ let no = rw differ at h in absurd (cc)
]

type_at-Among :
    (path : Bytes) (entries : List Entry) (kind : EntryType)
    → type_at path entries ≡ some kind
    → (d : Entry) × Among d entries × (d.path ≡ path) × (d.entry_type ≡ kind)
unfolding type_at
type_at-Among path [] kind h = absurd (cc)
type_at-Among path (x ∷ entries) kind h = elim (Bool-cases (bytes_eq x.path path)) [
  | inl same ↦ let found = rw same at h in (x, ([], entries, refl), bytes_eq→≡ x.path path same, cc)
  | inr other ↦
      let (d, among, path_same, kind_same) = type_at-Among path entries kind (rw other at h) in
      (d, Among-cons x d entries among, path_same, kind_same)
]

-- A directory of that path is among the entries.
abbrev IsDirectory : List Entry → Bytes → Type 0
IsDirectory entries p = (d : Entry) × Among d entries × (d.path ≡ p) × (d.entry_type ≡ directory)

check_parents-All :
    (entries : List Entry) (paths : List Bytes)
    → check_parents entries paths ≡ ok tt
    → All (IsDirectory entries) paths
unfolding check_parents
check_parents-All entries [] h = tt
check_parents-All entries (path ∷ paths) h =
    let (_, found, h1) = bind-eq-ok (check_directory (type_at path entries)) h in
    (
      type_at-Among path entries directory (check_directory-eq (type_at path entries) found),
      check_parents-All entries paths h1,
    )

check_hierarchy-All :
    (entries rest : List Entry)
    → check_hierarchy entries rest ≡ ok tt
    → All (HasParents entries) rest
unfolding check_hierarchy
check_hierarchy-All entries [] h = tt
check_hierarchy-All entries (e ∷ rest) h =
    let (_, found, h1) = bind-eq-ok (check_parents entries (parents e.path)) h in
    (
      (λ front back split.
          parents-All (IsDirectory entries) e.path front back
            (check_parents-All entries (parents e.path) found) split),
      check_hierarchy-All entries rest h1,
    )

-- Entries that validateEntries accepts are one tree: at most a million entries, the first a directory
-- whose path has no slash, every other below it, no path twice, each path safe, each stretch of a path
-- before a slash the path of a directory among them, the data of regular files inside the packed file,
-- and each hard link with the metadata of a regular file before it.
pub validate_entries-IsTree :
    (entries : List Entry) (size : ℕ) → validate_entries entries size ≡ ok tt → IsTree size entries
unfolding validate_entries
validate_entries-IsTree [] size h = absurd (cc)
validate_entries-IsTree (root ∷ others) size h =
    let entries = root ∷ others in
    let (few, h1) = ensure-eq-ok (leb (length entries) max_entries) _ h in
    let (_, each, h2) = bind-eq-ok (check_each [] [] entries size) h1 in
    let (top, h3) =
      ensure-eq-ok (length (path_parts root.path) == 1 && has_type root.entry_type directory) _
        h2 in
    let (_, prefixed, h4) = bind-eq-ok (check_prefix (root.path ++ (0x2f ∷ [])) others) h3 in
    let (one, kind) = and_both (length (path_parts root.path) == 1) _ top in
    record {
      root = root;
      others = others;
      split = refl;
      count_fits = leb→le (length entries) max_entries few;
      placed = check_each-Placed [] [] entries size tt each;
      root_part = one_part-no_slash root.path ((==_iff (length (path_parts root.path)) 1).0 one);
      root_directory = has_type-eq root.entry_type directory kind;
      below = check_prefix-below root.path others prefixed;
      parents_directories = check_hierarchy-All entries entries h4;
    }
