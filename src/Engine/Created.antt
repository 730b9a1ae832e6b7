-- ===== src/Engine/Created.antt =====
-- The parts of a new archive: its header, its payload and its tag.
use backup_system.Base.{
  ◌+◌, ◌^◌, ◌<◌, ◌≡◌, refl, sym, ap, ◌∙◌, Bool, true, false, not, ◌&&◌, ◌||◌, Bool-cases, inl, inr,
  [], ◌++◌, append_assoc, append-nil, length, length-append, take_all, leb, le→leb, ◌==◌, ==_iff,
  if◌then◌else◌, is_empty, arith,
}
use backup_system.Base.Outcome.{ok, ok-injective}
use backup_system.Stream.{Bytes, run, copy_bytes}
use backup_system.Stream.Equal.{bytes_eq_refl}
use backup_system.Stream.Copy.{copy_bytes-eq}
use backup_system.Format.{CompressionAlgorithm, EncryptionAlgorithm, ArchiveInfo, compression_id}
use backup_system.Archive.{
  archive_header_size, archive_version_authenticated, archive_version_for, known_version,
  write_archive_header,
}
use backup_system.Archive.Fields.{VersionFits}
use backup_system.Archive.RoundTrip.{IsHeader, length-write_archive_header}
use backup_system.Crypto.{crypt_stage, is_none, is_chacha20}
use backup_system.Crypto.Stage.{crypt_stage-crypt_stage}
use backup_system.Sha256.{sha256}
use backup_system.Sha256.Hmac.{hmac}
use backup_system.Sha256.Ranges.{to_end}
use backup_system.Engine.{
  CreateOptions, authentication_key, archive_authentication, uncompressed, version_for, digest_of,
  encrypt_payload, append_tag, finish_archive, check_packed,
}
use backup_system.Engine.Stages.{length-sha256, whole_digest, authentication-eq}

-- The header of a new archive.
abbrev pub info_of : CreateOptions → Bytes → Bytes → ArchiveInfo
info_of options packed encoded = record {
  version = version_for options.compression options.encryption;
  pack = options.pack;
  compression = options.compression;
  encryption = options.encryption;
  packed_size = length packed;
  encoded_size = length encoded;
  packed_digest = sha256 packed;
  encoded_digest = sha256 encoded;
}

pub version_known :
    (c : CompressionAlgorithm) (e : EncryptionAlgorithm)
    → (known_version (version_for c e) ≡ true) × VersionFits (version_for c e) c e
unfolding version_for known_version is_none archive_version_for compression_id
version_known c e = (
  ground arith,
  record {
    lz77_late = λ late. rw late (ground arith);
    encrypted = λ four plain.
        let four' : version_for c EncryptionAlgorithm.none ≡ 4 = rw plain at four in ground arith;
  },
)

pub authenticated_version :
    (c : CompressionAlgorithm) (e : EncryptionAlgorithm)
    → (version_for c e == archive_version_authenticated) ≡ not (is_none e)
unfolding version_for is_none archive_version_for compression_id
authenticated_version c e = ground arith

pub info_of-IsHeader :
    (options : CreateOptions) (salt packed encoded : Bytes)
    → length salt ≡ 16
    → length packed < to_end
    → length encoded < to_end
    → IsHeader (info_of options packed encoded) salt
info_of-IsHeader options salt packed encoded salted small small' =
    let (known, fits) = version_known options.compression options.encryption in
    record {
      version = known;
      version_fits = fits;
      packed = omega arith;
      encoded = omega arith;
      salt_size = salted;
      packed_digest_size = length-sha256 packed;
      encoded_digest_size = length-sha256 encoded;
    }

pub digest_of-eq :
    (unchanged : Bool) (known : Bytes) (file : Bytes)
    → (unchanged ≡ true → known ≡ sha256 file)
    → digest_of unchanged known file ≡ ok (sha256 file)
unfolding digest_of
digest_of-eq true known file h = ap ok (h refl)
digest_of-eq false known file h = whole_digest file

-- The tag of an archive, or nothing.
abbrev pub tag_of : CreateOptions → Bytes → Bytes → Bytes
tag_of options salt file =
    if is_none options.encryption then [] else hmac (authentication_key options.password salt) file

pub finish_archive-eq :
    (options : CreateOptions) (salt packed encoded : Bytes)
    → IsHeader (info_of options packed encoded) salt
    → finish_archive options salt (info_of options packed encoded) encoded ≡ (
        let front = write_archive_header (info_of options packed encoded) salt in
        ok (front ++ (encoded ++ tag_of options salt (front ++ encoded))))
unfolding finish_archive
finish_archive-eq options salt packed encoded h =
    let info = info_of options packed encoded in
    let front = write_archive_header info salt in
    let fits : leb (length encoded) (length encoded) ≡ true =
      le→leb (length encoded) (length encoded) (omega arith) in
    let copied : run (copy_bytes (length encoded)) encoded ≡ ok encoded =
      rw (copy_bytes-eq (length encoded) encoded) (rw (fits, take_all encoded)) in
    let version = authenticated_version options.compression options.encryption in
    rw (copied, version)
      (elim (Bool-cases (is_none options.encryption)) [
        | inl plain ↦
            rw plain (unfold append_tag in ap (λ t. ok (front ++ t)) (sym (append-nil encoded)))
        | inr cipher ↦
            rw cipher (unfold append_tag in rw tagged (ap ok (append_assoc front encoded _)))
      ])
  where
    front : Bytes
    front = write_archive_header (info_of options packed encoded) salt

    size : archive_header_size + length encoded ≡ length (front ++ encoded)
    size =
        let sized = length-write_archive_header (info_of options packed encoded) salt h in
        omega (arith, length-append front encoded, sized)

    tagged :
        archive_authentication
          (front ++ encoded)
          (archive_header_size + length encoded)
          options.password
          salt
        ≡ ok (hmac (authentication_key options.password salt) (front ++ encoded))
    tagged = rw (append-nil (front ++ encoded)) at (
        authentication-eq (front ++ encoded) [] (archive_header_size + length encoded)
          options.password salt size)

-- What the encryption stage makes of a payload, and that the other direction gives it back.
pub encrypted :
    (options : CreateOptions) (salt payload : Bytes)
    → (is_none options.encryption || not (is_empty options.password)) ≡ true
    → (is_chacha20 options.encryption ≡ true → length payload < 2 ^ 38)
    → length payload < to_end
    → (encoded : Bytes) × (encrypt_payload options salt payload ≡ ok encoded)
      × (length encoded ≡ length payload)
      × ((is_none options.encryption ≡ true → encoded ≡ payload)
          × (is_none options.encryption ≡ false
              → (pre post : Bytes)
              → crypt_stage options.encryption options.password salt
                  (pre ++ (encoded ++ post))
                  (length pre)
                  (length encoded)
                ≡ ok payload))
unfolding encrypt_payload
encrypted options salt payload given small bounded =
    elim (Bool-cases (is_none options.encryption)) [
      | inl plain ↦ (payload, rw plain, refl, ((λ _. refl), λ cipher. absurd (cc)))
      | inr secret ↦
          let (cipher, makes, same, _) =
            crypt_stage-crypt_stage options.encryption options.password salt [] payload [] given
              small bounded in
          (
            cipher,
            rw secret makes,
            same,
            (
              (λ plain. absurd (cc)),
              λ _ pre post.
                  let (cipher', makes', _, back) =
                    crypt_stage-crypt_stage options.encryption options.password salt pre payload
                      post given small bounded in
                  rw (ok-injective (sym makes ∙ makes')) back,
            ),
          )
    ]

pub check_packed-eq :
    (options : CreateOptions) (salt packed encoded : Bytes)
    → ((is_none options.encryption && uncompressed options.compression) ≡ true → encoded ≡ packed)
    → check_packed (record { info = info_of options packed encoded; salt = salt }) packed ≡ ok tt
unfolding check_packed
check_packed-eq options salt packed encoded same =
    rw ((==_iff (length packed) (length packed)).1 refl) (
      rw
        (digest_of-eq (is_none options.encryption && uncompressed options.compression)
          (sha256 encoded) packed (λ e. ap (λ t. sha256 t) (same e)))
        (rw (bytes_eq_refl (sha256 packed))))
