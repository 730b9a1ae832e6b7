-- ===== src/Archive/Accepted.antt =====
-- The bytes that readArchiveHeader accepts.
use backup_system.Base.{
  ℕ, ◌+◌, ◌-◌, ◌^◌, ◌<◌, ◌≡◌, refl, ap, ◌∙◌, ◌⊎◌, inl, inr, String, true, false, not, ◌&&◌, ◌||◌,
  Bool-cases, [], ◌++◌, append-nil, length, All, leb, ◌==◌, ==_iff, and_both, arith,
}
use backup_system.Base.Outcome.{ok, err}
use backup_system.Stream.{
  Bytes, IsByte, bytes_eq, word_bytes, write_u8, write_u16, write_u32, write_u64,
}
use backup_system.Stream.Consumed.{
  Takes, Takes-pure, Takes-bind, Takes-ensure, Takes-map, Takes-test, run-front,
}
use backup_system.Stream.Equal.{bytes_eq→≡}
use backup_system.Stream.Readers.{
  Takes-read_exact, Takes-read_u8, Takes-read_u16, Takes-read_u32, Takes-read_u64,
}
use backup_system.Format.{
  pack_id, compression_id, encryption_id, pack_of, compression_of, encryption_of,
}
use backup_system.Archive.{
  archive_magic, archive_version_lz77, archive_version_authenticated, archive_header_size,
  known_version, flags_match, ParsedHeader, check_algorithms, write_archive_header,
  read_header_tail, read_archive_header, header_overhead, check_archive_size, read_archive_file,
}
use backup_system.Archive.Fields.{
  VersionFits, pack_id-pack_of, compression_id-compression_of, encryption_id-encryption_of,
  flags_match-eq,
}
use backup_system.Archive.RoundTrip.{IsHeader}

-- What the checks on the identifiers leave.
record Coded (version flags pack compression encryption : ℕ) : Type 0 where
  fits : VersionFits version (compression_of compression) (encryption_of encryption)
  pack_same : pack_id (pack_of pack) ≡ pack
  compression_same : compression_id (compression_of compression) ≡ compression
  encryption_same : encryption_id (encryption_of encryption) ≡ encryption
  flags_right : flags_match flags compression encryption ≡ true

checked-VersionFits :
    (version compression encryption : ℕ)
    → (leb compression 3 && (encryption == 0 || encryption == 3 || encryption == 4)) ≡ true
    → (leb archive_version_lz77 version || not (compression == 3)) ≡ true
    → (not (version == archive_version_authenticated) || not (encryption == 0)) ≡ true
    → VersionFits version (compression_of compression) (encryption_of encryption)
unfolding compression_of encryption_of
checked-VersionFits version compression encryption known late encrypted = record {
  lz77_late = λ e. ground arith;
  encrypted = λ v e. ground arith;
}

abbrev IsCoded : ℕ → ℕ → ℕ → ℕ → ℕ → Unit {0} → Bytes → Type 0
IsCoded version flags pack compression encryption _ xs =
    (xs ≡ []) × Coded version flags pack compression encryption

Takes-check_algorithms :
    (version flags pack compression encryption : ℕ)
    → Takes false
        (IsCoded version flags pack compression encryption)
        (check_algorithms version flags pack compression encryption)
unfolding check_algorithms
Takes-check_algorithms version flags pack compression encryption =
    Takes-ensure (pack == 1 || pack == 2) _ λ packs.
      Takes-ensure (leb compression 3 && (encryption == 0 || encryption == 3 || encryption == 4)) _
        λ known. Takes-ensure (leb archive_version_lz77 version || not (compression == 3)) _ λ late.
          Takes-ensure (not (encryption == 1) && not (encryption == 2)) _ λ _.
            Takes-ensure (not (version == archive_version_authenticated) || not (encryption == 0)) _
              λ encrypted.
                Takes-map (Takes-test (flags_match flags compression encryption) _)
                  λ _ xs (none, right).
                    let (few, ciphers) = and_both (leb compression 3) _ known in
                    (
                      none,
                      record {
                        fits =
                            checked-VersionFits version compression encryption known late encrypted;
                        pack_same = pack_id-pack_of pack packs;
                        compression_same = compression_id-compression_of compression few;
                        encryption_same = encryption_id-encryption_of encryption ciphers;
                        flags_right = right;
                      },
                    )

-- The bytes of the tail, and the parsed header that goes with them.
record IsTail (version pack compression encryption : ℕ) (parsed : ParsedHeader) (xs : Bytes)
    : Type 0 where
  version_same : parsed.info.version ≡ version
  pack_same : parsed.info.pack ≡ pack_of pack
  compression_same : parsed.info.compression ≡ compression_of compression
  encryption_same : parsed.info.encryption ≡ encryption_of encryption
  packed : parsed.info.packed_size < 2 ^ 64
  encoded : parsed.info.encoded_size < 2 ^ 64
  salt_size : length parsed.salt ≡ 16
  packed_digest_size : length parsed.info.packed_digest ≡ 32
  encoded_digest_size : length parsed.info.encoded_digest ≡ 32
  bytes :
      xs
      ≡ word_bytes 8 0 parsed.info.packed_size
        ++ (word_bytes 8 0 parsed.info.encoded_size
            ++ (parsed.salt ++ (parsed.info.packed_digest ++ parsed.info.encoded_digest)))

Takes-read_header_tail :
    (version pack compression encryption : ℕ)
    → Takes false
        (IsTail version pack compression encryption)
        (read_header_tail version pack compression encryption)
unfolding read_header_tail
Takes-read_header_tail version pack compression encryption =
    Takes-bind Takes-read_u64 λ packed ps (p, hp). Takes-bind Takes-read_u64 λ encoded es (e, he).
      Takes-bind (Takes-read_exact 16) λ salt ss (s, hs, _).
        Takes-bind (Takes-read_exact 32) λ packed_digest ds (d, hd, _).
          Takes-bind (Takes-read_exact 32) λ encoded_digest gs (g, hg, _). Takes-pure (record {
            version_same = refl;
            pack_same = refl;
            compression_same = refl;
            encryption_same = refl;
            packed = hp;
            encoded = he;
            salt_size = hs;
            packed_digest_size = hd;
            encoded_digest_size = hg;
            bytes = rw (append-nil gs, p, e, s, d, g) refl;
          })

abbrev IsParsed : ParsedHeader → Bytes → Type 0
IsParsed parsed xs =
    IsHeader parsed.info parsed.salt × (xs ≡ write_archive_header parsed.info parsed.salt)

-- The fields before the tail and the tail make up the header.
header_whole :
    (version flags pack compression encryption : ℕ) (parsed : ParsedHeader) (ys : Bytes)
    → known_version version ≡ true
    → flags < 2 ^ 32
    → Coded version flags pack compression encryption
    → IsTail version pack compression encryption parsed ys
    → IsParsed parsed (
        archive_magic
        ++ (word_bytes 2 0 version
            ++ (word_bytes 2 0 archive_header_size
                ++ (word_bytes 4 0 flags
                    ++ (word_bytes 1 0 pack
                        ++ (word_bytes 1 0 compression
                            ++ (word_bytes 1 0 encryption ++ (word_bytes 1 0 0 ++ ys))))))))
unfolding write_archive_header write_u8 write_u16 write_u32 write_u64
header_whole version flags pack compression encryption parsed ys known small coded tail =
    let right =
      flags_match-eq flags (compression_of compression) (encryption_of encryption) small
        (rw (coded.compression_same, coded.encryption_same) coded.flags_right) in
    (
      record {
        version = rw tail.version_same known;
        version_fits =
            rw (tail.version_same, tail.compression_same, tail.encryption_same) coded.fits;
        packed = tail.packed;
        encoded = tail.encoded;
        salt_size = tail.salt_size;
        packed_digest_size = tail.packed_digest_size;
        encoded_digest_size = tail.encoded_digest_size;
      },
      rw
          (
            tail.version_same,
            tail.pack_same,
            tail.compression_same,
            tail.encryption_same,
            coded.pack_same,
            coded.compression_same,
            coded.encryption_same,
            ← right,
            tail.bytes,
          )
          refl,
    )

Takes-read_archive_header : Takes false IsParsed read_archive_header
unfolding read_archive_header
Takes-read_archive_header = Takes-bind (Takes-read_exact 4) λ magic ms (m, _, _).
    Takes-ensure (bytes_eq magic archive_magic) _ λ right.
      Takes-bind Takes-read_u16 λ version vs (v, _). Takes-ensure (known_version version) _ λ known.
        Takes-bind Takes-read_u16 λ size ss (s, _).
          Takes-ensure (size == archive_header_size) _ λ sized.
            Takes-bind Takes-read_u32 λ flags fs (f, small).
              Takes-bind Takes-read_u8 λ pack ps (p, _).
                Takes-bind Takes-read_u8 λ compression cs (c, _).
                  Takes-bind Takes-read_u8 λ encryption es (e, _).
                    Takes-bind Takes-read_u8 λ reserved rs (r, _).
                      Takes-ensure (reserved == 0) _ λ zeroed.
                        Takes-bind
                          (Takes-check_algorithms version flags pack compression encryption)
                          λ _ ns (n, coded).
                            Takes-map (Takes-read_header_tail version pack compression encryption)
                              λ parsed ys tail.
                                rw
                                  (
                                    m ∙ bytes_eq→≡ magic archive_magic right,
                                    v,
                                    s ∙ ap (word_bytes 2 0) ((==_iff size 112).0 sized),
                                    f,
                                    p,
                                    c,
                                    e,
                                    r ∙ ap (word_bytes 1 0) ((==_iff reserved 0).0 zeroed),
                                    n,
                                  )
                                  (header_whole version flags pack compression encryption parsed ys
                                    known small coded tail)

-- On any bytes, readArchiveHeader throws, or the file begins with the very bytes that
-- writeArchiveHeader writes for the header that was read: magic, sizes, flags, identifiers and all. The
-- version is known and covers the algorithms, and the payload that is declared is the rest of the file.
pub read_archive_file_total :
    (file : Bytes)
    → All IsByte file
    → ((parsed : ParsedHeader) × (read_archive_file file ≡ ok parsed)
        × IsHeader parsed.info parsed.salt
        × ((rest : Bytes) × (file ≡ write_archive_header parsed.info parsed.salt ++ rest))
        × (header_overhead parsed.info + parsed.info.encoded_size ≡ length file))
      ⊎ ((e : String) × (read_archive_file file ≡ err e))
unfolding read_archive_file check_archive_size
read_archive_file_total file bytes =
    elim (run-front read_archive_header file Takes-read_archive_header bytes) [
      | inr (e, failed) ↦ inr (e, rw failed)
      | inl (parsed, e, (front, rest, split, (valid, whole))) ↦
          elim (Bool-cases (
            leb (header_overhead parsed.info) (length file)
            && parsed.info.encoded_size == length file - header_overhead parsed.info)) [
              | inl fits ↦ inl (
                parsed,
                rw (e, fits),
                valid,
                (rest, split ∙ ap (λ t. t ++ rest) whole),
                ground arith,
              )
              | inr off ↦ inr ("archive payload size does not match header", rw (e, off))
            ]
    ]
