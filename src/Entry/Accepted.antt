-- ===== src/Entry/Accepted.antt =====
-- The bytes that readEntryMetadata accepts.
use backup_system.Base.{
  ℕ, String, ◌⊎◌, All, ◌^◌, ◌<◌, bit_and, ◌≡◌, refl, sym, ◌∙◌, ap, Bool, true, false, not, ◌&&◌,
  is_empty, [], ◌++◌, append-nil, leb, ltb, ltb→lt, ◌==◌, and_both, if◌then◌else◌, arith,
}
use backup_system.Base.Outcome.{ok, err}
use backup_system.Stream.{
  Bytes, IsByte, run, word_bytes, write_u8, write_u32, write_u64, write_string,
}
use backup_system.Stream.Consumed.{
  Takes, Takes-pure, Takes-bind, Takes-ensure, Takes-map, Takes-test, run-front,
}
use backup_system.Stream.Readers.{Takes-read_u8, Takes-read_u32, Takes-read_u64, Takes-read_string}
use backup_system.Stream.Post.{Reads, Reads-Takes}
use backup_system.Entry.{
  Entry, entry_type_id, entry_type_of, has_type, check_entry, read_offset, read_entry_metadata,
  write_entry_metadata, mode_mask, nsec_limit,
}
use backup_system.Entry.EntryType.{regular, symlink, hardlink, character, block}
use backup_system.Entry.RoundTrip.{IsEntry}

-- What the checks of an entry establish.
record Checked (e : Entry) : Type 0 where
  nsec :
      (ltb e.atime_nsec nsec_limit && ltb e.mtime_nsec nsec_limit && ltb e.ctime_nsec nsec_limit)
      ≡ true
  mode_bits : (bit_and e.mode mode_mask == 0) ≡ true
  size_kind : (if has_type e.entry_type regular then true else e.size == 0) ≡ true
  link_kind :
      (if not (has_type e.entry_type symlink) && not (has_type e.entry_type hardlink)
        then is_empty e.link_target
        else true)
      ≡ true
  device_kind :
      (if not (has_type e.entry_type character) && not (has_type e.entry_type block)
        then e.device == 0
        else true)
      ≡ true

Takes-check_entry : (e : Entry) → Takes false (λ _ xs. (xs ≡ []) × Checked e) (check_entry e)
unfolding check_entry
Takes-check_entry e =
    Takes-ensure
      (ltb e.atime_nsec nsec_limit && ltb e.mtime_nsec nsec_limit && ltb e.ctime_nsec nsec_limit) _
      λ nsec. Takes-ensure (bit_and e.mode mode_mask == 0) _ λ bits.
        Takes-ensure (if has_type e.entry_type regular then true else e.size == 0) _ λ size.
          Takes-ensure
            (if not (has_type e.entry_type symlink) && not (has_type e.entry_type hardlink)
              then is_empty e.link_target
              else true)
            _
            λ link.
              Takes-map
                (Takes-test
                  (if not (has_type e.entry_type character) && not (has_type e.entry_type block)
                    then e.device == 0
                    else true)
                  _)
                λ _ xs (none, device). (
                  none,
                  record {
                    nsec = nsec;
                    mode_bits = bits;
                    size_kind = size;
                    link_kind = link;
                    device_kind = device;
                  },
                )

abbrev IsOffset : Bool → ℕ → Bytes → Type 0
IsOffset with_offset v xs = (xs ≡ (if with_offset then write_u64 v else [])) × (v < 2 ^ 64)

Takes-read_offset :
    (with_offset : Bool) → Takes false (IsOffset with_offset) (read_offset with_offset)
unfolding read_offset write_u64
Takes-read_offset true = Takes-read_u64
Takes-read_offset false = Takes-pure (refl, omega arith)

type-same : (id : ℕ) → (leb 1 id && leb id 8) ≡ true → entry_type_id (entry_type_of id) ≡ id
unfolding entry_type_id entry_type_of
type-same id h = ground arith

-- The bytes of an entry in front, in the order of the record.
abbrev pub IsWritten : Bool → Entry → Bytes → Type 0
IsWritten with_offset e xs = IsEntry e × (write_entry_metadata e with_offset ≡ ok xs)

written_whole :
    (e : Entry) (with_offset : Bool) (path link : Bytes)
    → write_string e.path ≡ ok path
    → write_string e.link_target ≡ ok link
    → write_entry_metadata e with_offset
      ≡ ok (
          path
          ++ (word_bytes 1 0 (entry_type_id e.entry_type)
              ++ (word_bytes 4 0 e.mode
                  ++ (word_bytes 4 0 e.uid
                      ++ (word_bytes 4 0 e.gid
                          ++ (word_bytes 8 0 e.size
                              ++ (word_bytes 8 0 e.atime_sec
                                  ++ (word_bytes 4 0 e.atime_nsec
                                      ++ (word_bytes 8 0 e.mtime_sec
                                          ++ (word_bytes 4 0 e.mtime_nsec
                                              ++ (word_bytes 8 0 e.ctime_sec
                                                  ++ (word_bytes 4 0 e.ctime_nsec
                                                      ++ (link
                                                          ++ (word_bytes 8 0 e.device
                                                            ++ (if with_offset
                                                            then write_u64 e.content_offset
                                                            else [])))))))))))))))
unfolding write_entry_metadata write_u8 write_u32 write_u64
written_whole e with_offset path link h k = rw (h, k) refl

pub Takes-read_entry_metadata :
    (with_offset : Bool) → Takes false (IsWritten with_offset) (read_entry_metadata with_offset)
unfolding read_entry_metadata
Takes-read_entry_metadata with_offset = Takes-bind Takes-read_string λ path xs (short, clean, x).
    Takes-bind Takes-read_u8 λ raw_type ts (t, _).
      Takes-ensure (leb 1 raw_type && leb raw_type 8) _ λ known.
        Takes-bind Takes-read_u32 λ mode ms (m, mode_lt).
          Takes-bind Takes-read_u32 λ uid us (u, uid_lt).
            Takes-bind Takes-read_u32 λ gid gs (g, gid_lt).
              Takes-bind Takes-read_u64 λ size ss (s, size_lt).
                Takes-bind Takes-read_u64 λ atime ats (a, atime_lt).
                  Takes-bind Takes-read_u32 λ atime_nsec ans (an, _).
                    Takes-bind Takes-read_u64 λ mtime mts (mt, mtime_lt).
                      Takes-bind Takes-read_u32 λ mtime_nsec mns (mn, _).
                        Takes-bind Takes-read_u64 λ ctime cs (c, ctime_lt).
                          Takes-bind Takes-read_u32 λ ctime_nsec cns (cn, _).
                            Takes-bind Takes-read_string λ link ls (link_short, link_clean, l).
                              Takes-bind Takes-read_u64 λ device ds (d, device_lt).
                                Takes-bind (Takes-read_offset with_offset)
                                  λ offset os (o, offset_lt).
                                    Takes-bind (Takes-check_entry _) λ _ ns (n, h). Takes-pure (
                                      let (n12, n3) = and_both _ _ h.nsec in
                                      let (n1, n2) = and_both _ _ n12 in
                                      (
                                        record {
                                          path_short = short;
                                          path_clean = clean;
                                          mode_fits = mode_lt;
                                          mode_bits = h.mode_bits;
                                          uid_fits = uid_lt;
                                          gid_fits = gid_lt;
                                          size_fits = size_lt;
                                          atime_fits = atime_lt;
                                          mtime_fits = mtime_lt;
                                          ctime_fits = ctime_lt;
                                          atime_nsec_fits = ltb→lt _ _ n1;
                                          mtime_nsec_fits = ltb→lt _ _ n2;
                                          ctime_nsec_fits = ltb→lt _ _ n3;
                                          link_short = link_short;
                                          link_clean = link_clean;
                                          device_fits = device_lt;
                                          offset_fits = offset_lt;
                                          size_kind = h.size_kind;
                                          link_kind = h.link_kind;
                                          device_kind = h.device_kind;
                                        },
                                        rw
                                            (
                                              append-nil ns,
                                              n,
                                              append-nil os,
                                              t
                                                  ∙ ap (word_bytes 1 0)
                                                      (sym (type-same raw_type known)),
                                              m,
                                              u,
                                              g,
                                              s,
                                              a,
                                              an,
                                              mt,
                                              mn,
                                              c,
                                              cn,
                                              d,
                                              o,
                                            )
                                            (written_whole _ with_offset xs ls x l),
                                      ))

pub read_entry_metadata-Reads :
    (with_offset : Bool) → Reads IsEntry (read_entry_metadata with_offset)
read_entry_metadata-Reads with_offset =
    Reads-Takes (Takes-read_entry_metadata with_offset) λ e xs h. h.0

-- On any bytes the metadata of an entry is read, or an error is thrown. Where it is read, the input
-- begins with the very bytes that writeEntryMetadata writes for what was read, which is within the
-- ranges of its fields and passes the checks of its kind.
pub read_entry_metadata_total :
    (with_offset : Bool) (input : Bytes)
    → All IsByte input
    → ((e : Entry) × (run (read_entry_metadata with_offset) input ≡ ok e)
        × ((xs : Bytes) × (rest : Bytes) × (input ≡ xs ++ rest) × IsWritten with_offset e xs))
      ⊎ ((m : String) × (run (read_entry_metadata with_offset) input ≡ err m))
read_entry_metadata_total with_offset input bytes =
    run-front (read_entry_metadata with_offset) input (Takes-read_entry_metadata with_offset) bytes
