-- ===== src/Engine/Stages.antt =====
-- What each stage does with an archive: a header, a payload, and a tag at version 4.
use backup_system.Base.{
  ℕ, ◌+◌, ◌-◌, ◌<◌, ◌≡◌, refl, sym, ap, ◌∙◌, true, false, [], ◌∷◌, ◌++◌, append_assoc, append-nil,
  length, length-append, take, drop, take_front, drop_front, take_all, leb, le→leb, ◌==◌,
  if◌then◌else◌, arith,
}
use backup_system.Base.Bits.{bit_xor_same}
use backup_system.Base.Outcome.{ok}
use backup_system.Stream.{Bytes, read_exact}
use backup_system.Stream.Equal.{bytes_eq_refl}
use backup_system.Stream.Copy.{copy_bytes-eq}
use backup_system.Stream.Words.{read_exact-append}
use backup_system.Format.{ArchiveInfo}
use backup_system.Archive.{
  archive_header_size, archive_tag_size, archive_version_authenticated, write_archive_header,
  ParsedHeader, read_archive_file, check_archive_size, header_overhead,
}
use backup_system.Archive.RoundTrip.{
  IsHeader, read_archive_header-write_archive_header, length-write_archive_header,
}
use backup_system.Crypto.{is_none}
use backup_system.Sha256.{sha256, finish, digest, word_digest}
use backup_system.Sha256.Hmac.{hmac, hmac_file-eq}
use backup_system.Sha256.Ranges.{sha_file_range, sha_file_range-eq, to_end}
use backup_system.Engine.{
  authentication_key, archive_authentication, RestoreOptions, snapshot, differences, check_tag,
  payload_offset, check_payload,
}

pub length-sha256 : (x : Bytes) → length (sha256 x) ≡ 32
unfolding sha256 finish digest word_digest
length-sha256 x = refl

pub length-hmac : (key message : Bytes) → length (hmac key message) ≡ 32
unfolding hmac
length-hmac key message = length-sha256 _

pub whole_digest : (file : Bytes) → sha_file_range file 0 to_end ≡ ok (sha256 file)
whole_digest file = sha_file_range-eq file 0 to_end ∙ rw (le→leb 0 (length file) (omega arith)) refl

-- The digest of a part in the middle of a file.
middle_digest :
    (pre body post : Bytes)
    → length body < to_end
    → sha_file_range (pre ++ (body ++ post)) (length pre) (length body) ≡ ok (sha256 body)
middle_digest pre body post small =
    let file = pre ++ (body ++ post) in
    let sized = length-append pre (body ++ post) in
    let rest = length-append body post in
    let inside : leb (length pre) (length file) ≡ true =
      le→leb (length pre) (length file) (omega arith) in
    let other : (length body == to_end) ≡ false = ground arith in
    let fits : leb (length body) (length file - length pre) ≡ true =
      le→leb (length body) (length file - length pre) (omega arith) in
    sha_file_range-eq file (length pre) (length body)
    ∙ rw (inside, other)
        (rw fits (
          ap (λ t. ok (sha256 t))
            (ap (λ t. take (length body) t) (drop_front pre (body ++ post))
              ∙ take_front body post)))

-- The tag of an archive is the HMAC of what stands in front of it.
pub authentication-eq :
    (file rest : Bytes) (size : ℕ) (password salt : Bytes)
    → size ≡ length file
    → archive_authentication (file ++ rest) size password salt
      ≡ ok (hmac (authentication_key password salt) file)
unfolding archive_authentication
authentication-eq file rest size password salt e =
    let fits : leb (length file) (length (file ++ rest)) ≡ true =
      le→leb (length file) (length (file ++ rest)) (omega (arith, length-append file rest)) in
    rw e (
      hmac_file-eq (authentication_key password salt) (length file) (file ++ rest)
      ∙ rw fits (ap (λ t. ok (hmac (authentication_key password salt) t)) (take_front file rest)))

differences_self : (xs : Bytes) → differences 0 xs xs ≡ 0
unfolding differences
differences_self [] = refl
differences_self (x ∷ xs) = rw (bit_xor_same x) (differences_self xs)

-- The size of the tag.
abbrev pub IsTag : ArchiveInfo → Bytes → Type 0
IsTag info tag =
    length tag ≡ (if info.version == archive_version_authenticated then archive_tag_size else 0)

module _ (info : ArchiveInfo) (salt body tag : Bytes) (h : IsHeader info salt)
    (sized : info.encoded_size ≡ length body) where
  abbrev pub parsed : ParsedHeader
  parsed = record { info = info; salt = salt }

  abbrev pub archive : Bytes
  archive = write_archive_header info salt ++ (body ++ tag)

  pub read_archive_file-archive : IsTag info tag → read_archive_file archive ≡ ok parsed
  unfolding read_archive_file
  read_archive_file-archive tagged =
      rw (read_archive_header-write_archive_header info salt (body ++ tag) h) sizes
    where
      sizes : check_archive_size (length archive) parsed ≡ ok parsed
      sizes =
          let total = length-append (write_archive_header info salt) (body ++ tag) in
          let inner = length-append body tag in
          let front = length-write_archive_header info salt h in
          unfold check_archive_size header_overhead in ground arith

  -- The private copy has a header of its own where the payload is encrypted.
  pub snapshot-archive :
      IsTag info tag
      → snapshot parsed archive
        ≡ ok (
            (if is_none info.encryption then [] else write_archive_header info salt)
            ++ (body ++ tag))
  unfolding snapshot
  snapshot-archive tagged =
      let front = length-write_archive_header info salt h in
      let n =
        info.encoded_size
        + (if info.version == archive_version_authenticated then archive_tag_size else 0) in
      let whole : n ≡ length (body ++ tag) = omega (arith, length-append body tag, tagged) in
      let left : drop archive_header_size archive ≡ body ++ tag =
        ap (λ t. drop t archive) (sym front)
        ∙ drop_front (write_archive_header info salt) (body ++ tag) in
      let fits : leb (length (body ++ tag)) (length (body ++ tag)) ≡ true =
        le→leb (length (body ++ tag)) (length (body ++ tag)) (omega arith) in
      rw (left, whole)
        (rw (copy_bytes-eq (length (body ++ tag)) (body ++ tag))
          (rw (fits, take_all (body ++ tag))))

  -- The tag over the header and the payload passes.
  pub check_tag-archive :
      (restore : RestoreOptions)
      → tag
        ≡ hmac (authentication_key restore.password salt) (write_archive_header info salt ++ body)
      → check_tag true restore parsed archive ≡ ok tt
  unfolding check_tag
  check_tag-archive restore tagged =
      let front = write_archive_header info salt ++ body in
      let split = append_assoc (write_archive_header info salt) body tag in
      let size : archive_header_size + info.encoded_size ≡ length front = omega (
        arith,
        length-append (write_archive_header info salt) body,
        length-write_archive_header info salt h,
      ) in
      let key = authentication_key restore.password salt in
      let long : 32 ≡ length tag = sym (ap (λ t. length t) tagged ∙ length-hmac key front) in
      let actual =
        authentication-eq front tag (archive_header_size + info.encoded_size) restore.password salt
          size in
      let rest : drop (archive_header_size + info.encoded_size) (front ++ tag) ≡ tag =
        ap (λ n. drop n (front ++ tag)) size ∙ drop_front front tag in
      let expected : read_exact 32 tag ≡ ok (tag, []) =
        rw append-nil at (read_exact-append 32 tag [] long) in
      let same : differences 0 (hmac key front) tag ≡ 0 =
        ap (λ t. differences 0 (hmac key front) t) tagged ∙ differences_self (hmac key front) in
      rw (← split) (rw (actual, rest) (rw (expected, same)))

  -- So does the digest of the payload, from where it stands in the copy.
  pub check_payload-copy :
      (pre post : Bytes)
      → payload_offset info ≡ length pre
      → length body < to_end
      → info.encoded_digest ≡ sha256 body
      → check_payload parsed (pre ++ (body ++ post)) ≡ ok tt
  unfolding check_payload
  check_payload-copy pre post offset small digested =
      rw (offset, sized)
        (rw (middle_digest pre body post small) (rw (digested, bytes_eq_refl (sha256 body))))
