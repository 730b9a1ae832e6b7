-- ===== src/Pack/Accepted.antt =====
-- The entries that readStreamEntries accepts, on every input.
use backup_system.Base.{
  ℕ, zero, suc, ◌+◌, ◌-◌, ◌/◌, ◌≤◌, ◌<◌, min, ◌≡◌, refl, ap, String, true, false, ◌&&◌, ◌⊎◌, List,
  ◌∷◌, length, All, All-drop, leb, leb→le, ltb, ◌==◌, arith,
}
use backup_system.Base.Outcome.{ok, err, bind-eq-ok, ok-injective}
use backup_system.Format.{PackAlgorithm}
use backup_system.Stream.{Bytes, IsByte, bytes_eq}
use backup_system.Stream.Post.{
  Reads, accepted, Reads-pure, Reads-bind, Reads-ensure, Reads-read_exact, Reads-read_u32,
  run-cases,
}
use backup_system.Entry.{Entry}
use backup_system.Entry.Accepted.{read_entry_metadata-Reads}
use backup_system.Entry.Rules.{max_entries, validate_entries}
use backup_system.Entry.Rules.Shape.{IsTree}
use backup_system.Entry.Rules.Tree.{validate_entries-IsTree}
use backup_system.Pack.{
  tell, skip, read_stream_loop, read_stream, read_stream_entries, stream_magic, entry_marker,
  minimum_entry_size, read_layout, read_packed_entries,
}

-- The data of the entry lie in a file of `size` bytes.
abbrev pub Inside : ℕ → Entry → Type 0
Inside size e = e.content_offset + e.size ≤ size

tell-Reads : (size : ℕ) → Reads (λ position. position ≤ size) (tell size)
tell-Reads size = record { at = λ input bytes. accepted (omega arith) bytes }

skip-Reads : (count : ℕ) → Reads (λ _. Unit {0}) (skip count)
skip-Reads count = record { at = λ input bytes. accepted tt (All-drop IsByte count input bytes) }

inside_file :
    (size position n : ℕ)
    → position ≤ size
    → leb n (size - min size position) ≡ true
    → position + n ≤ size
inside_file size position n h fits = omega (arith, leb→le n (size - min size position) fits)

read_stream_loop-Reads :
    (count size : ℕ)
    → Reads (λ es. (length es ≡ count) × All (Inside size) es) (read_stream_loop count size)
unfolding read_stream_loop
read_stream_loop-Reads zero size = Reads-pure (refl, tt)
read_stream_loop-Reads (suc count) size = Reads-bind Reads-read_u32 λ marker _.
    Reads-bind (Reads-ensure (marker == entry_marker) "invalid sequential entry marker") λ _ _.
      Reads-bind (read_entry_metadata-Reads false) λ e _. Reads-bind (tell-Reads size) λ position h.
        Reads-bind
          (Reads-ensure (leb e.size (size - min size position)) "truncated sequential entry")
          λ _ fits. Reads-bind (skip-Reads e.size) λ _ _.
            Reads-bind (read_stream_loop-Reads count size) λ rest (n, inside).
              Reads-pure {a = record e { content_offset = position } ∷ rest}
                (ap suc n, (inside_file size position e.size h fits, inside))

counted :
    (count n : ℕ)
    → (ltb 0 count && leb count max_entries) ≡ true
    → n ≡ count
    → (0 < n) × (n ≤ max_entries)
counted count n some e = ground arith

read_stream-Reads :
    (size : ℕ)
    → Reads
        (λ es. (0 < length es) × (length es ≤ max_entries) × All (Inside size) es)
        (read_stream size)
unfolding read_stream
read_stream-Reads size = Reads-bind (Reads-read_exact 8) λ magic _.
    Reads-bind (Reads-ensure (bytes_eq magic stream_magic) "invalid sequential pack magic") λ _ _.
      Reads-bind Reads-read_u32 λ count _.
        Reads-bind
          (Reads-ensure (ltb 0 count && leb count max_entries)
            "invalid sequential pack entry count")
          λ _ some.
            Reads-bind
              (Reads-ensure (leb 12 size && leb count ((size - 12) / (4 + minimum_entry_size)))
                "entry count exceeds packed bounds")
              λ _ _. Reads-bind (read_stream_loop-Reads count size) λ es (n, inside).
                Reads-bind (tell-Reads size) λ position _.
                  Reads-bind (Reads-ensure (position == size) "sequential pack has trailing data")
                    λ _ _.
                      let (low, high) = counted count (length es) some n in
                      Reads-pure (low, high, inside)

-- On any bytes the entries of a sequential pack are read, or an error is thrown. Where they are
-- read there is one at least and a million at most, and the data of each lie in the file.
pub read_stream_entries_total :
    (file : Bytes)
    → All IsByte file
    → ((es : List Entry) × (read_stream_entries file ≡ ok es)
        × ((0 < length es) × (length es ≤ max_entries) × All (Inside (length file)) es))
      ⊎ ((e : String) × (read_stream_entries file ≡ err e))
unfolding read_stream_entries
read_stream_entries_total file bytes =
    run-cases (read_stream (length file)) file (read_stream-Reads (length file)) bytes

-- The entries of a packed file that readPackedEntries accepts, in either layout, are one tree: at most
-- a million entries, the first a directory whose path has no slash, every other below it, no path
-- twice, each path made of names with a slash between them, none of them empty, "." or "..", and
-- with no byte that is 0, each stretch of a path before a slash the path of a directory among them, the
-- data of regular files inside the packed file, and each hard link with the mode, owner, group and the
-- times of modification and access of a regular file before it, whose path is its target.
pub read_packed_entries-IsTree :
    (algorithm : PackAlgorithm) (packed : Bytes) (entries : List Entry)
    → read_packed_entries algorithm packed ≡ ok entries
    → IsTree (length packed) entries
unfolding read_packed_entries
read_packed_entries-IsTree algorithm packed entries h =
    let (read, _, h1) = bind-eq-ok (read_layout algorithm packed) h in
    let (_, valid, h2) = bind-eq-ok (validate_entries read (length packed)) h1 in
    rw (← ok-injective h2) (validate_entries-IsTree read (length packed) valid)
