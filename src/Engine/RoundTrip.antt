-- ===== src/Engine/RoundTrip.antt =====
-- Taking apart an archive that the program made.
use backup_system.Base.{
  ℕ, ◌^◌, ◌<◌, ◌≡◌, ◌≢◌, refl, sym, ap, ◌∙◌, true, false, not, ◌&&◌, ◌||◌, Bool-cases, inl, inr, [],
  ◌++◌, append-nil, length, ◌==◌, is_empty, All, and_both, arith,
}
use backup_system.Base.Outcome.{Result, ok}
use backup_system.Stream.{Bytes, IsByte}
use backup_system.Format.{ArchiveInfo, huffman}
use backup_system.Archive.{archive_version_authenticated, write_archive_header, ParsedHeader}
use backup_system.Archive.RoundTrip.{IsHeader, length-write_archive_header}
use backup_system.Compression.RoundTrip.{decompress_stage-compress_stage}
use backup_system.Crypto.{crypt_stage, is_none, is_chacha20}
use backup_system.Sha256.{sha256}
use backup_system.Sha256.Hmac.{hmac}
use backup_system.Sha256.Ranges.{to_end}
use backup_system.Engine.{
  CreateOptions, RestoreOptions, authentication_key, uncompressed, encrypt_payload, check_password,
  snapshot, check_tag, payload_offset, check_payload, decrypt_payload, check_packed,
  compress_payload, encode_archive, decompress_payload, decode_archive,
}
use backup_system.Engine.Stages.{
  length-hmac, whole_digest, IsTag, read_archive_file-archive, snapshot-archive, check_tag-archive,
  check_payload-copy,
}
use backup_system.Engine.Created.{
  info_of, authenticated_version, info_of-IsHeader, digest_of-eq, tag_of, finish_archive-eq,
  encrypted, check_packed-eq,
}

module _ (huffman_compress : Bytes → Result Bytes)
    (huffman_decompress : Bytes → ℕ → Result Bytes) where
  compressed :
      (options : CreateOptions) (packed : Bytes)
      → options.compression ≢ huffman
      → All IsByte packed
      → length packed < to_end
      → (payload : Bytes) × (compress_payload huffman_compress huffman_decompress options packed
          ≡ ok payload)
        × ((salt encoded : Bytes)
            → decompress_payload huffman_compress huffman_decompress
                (record { info = info_of options packed encoded; salt = salt })
                payload
              ≡ ok packed)
        × (uncompressed options.compression ≡ true → payload ≡ packed)
  unfolding compress_payload decompress_payload
  compressed options packed other bytes small =
      elim (Bool-cases (uncompressed options.compression)) [
        | inl same ↦ (packed, rw same, (λ salt encoded. rw same), λ _. refl)
        | inr changed ↦
            let (payload, compresses, back) =
              decompress_stage-compress_stage huffman_compress huffman_decompress
                options.compression packed other bytes (omega arith) in
            (payload, rw changed compresses, (λ salt encoded. rw changed back), λ same. absurd (cc))
      ]

  -- The limits on what the stages make of a packed file.
  abbrev pub Fits : CreateOptions → Bytes → Type 0
  Fits options packed =
      (payload : Bytes)
      → compress_payload huffman_compress huffman_decompress options packed ≡ ok payload
      → (length payload < to_end)
        × (is_chacha20 options.encryption ≡ true → length payload < 2 ^ 38)

  module _ (options : CreateOptions) (restore : RestoreOptions) (salt packed encoded : Bytes)
      (h : IsHeader (info_of options packed encoded) salt) (small : length encoded < to_end)
      (password : restore.password ≡ options.password)
      (given : (is_none options.encryption || not (is_empty options.password)) ≡ true) where
    abbrev info : ArchiveInfo
    info = info_of options packed encoded

    abbrev front : Bytes
    front = write_archive_header info salt

    abbrev header : ParsedHeader
    header = record { info = info; salt = salt }

    password_checks : check_password restore info ≡ ok tt
    unfolding check_password
    password_checks =
        let version = authenticated_version options.compression options.encryption in
        elim (Bool-cases (is_none options.encryption)) [
          | inl plain ↦ rw plain
          | inr secret ↦
              let asked : not (is_empty restore.password) ≡ true =
                rw password (rw secret at given) in
              rw (secret, asked, version) (rw secret)
        ]

    decoded_plain :
        is_none options.encryption ≡ true
        → decompress_payload huffman_compress huffman_decompress header encoded ≡ ok packed
        → check_packed header packed ≡ ok tt
        → decode_archive huffman_compress huffman_decompress restore (front ++ (encoded ++ []))
          ≡ ok (header, packed)
    unfolding decode_archive check_tag decrypt_payload
    decoded_plain plain decompresses checks =
        let version : (info.version == archive_version_authenticated) ≡ false =
          authenticated_version options.compression options.encryption ∙ ap not plain in
        let tagged : IsTag info [] = rw version refl in
        let copy : snapshot header (front ++ (encoded ++ [])) ≡ ok (encoded ++ []) =
          rw plain at (snapshot-archive info salt encoded [] h refl tagged) in
        let payload : check_payload header (encoded ++ []) ≡ ok tt =
          check_payload-copy info salt encoded [] h refl [] [] (unfold payload_offset in rw plain)
            small refl in
        rw (read_archive_file-archive info salt encoded [] h refl tagged, password_checks)
          (rw (copy, version)
            (rw (payload, plain) (rw (append-nil encoded) (rw (decompresses, checks)))))

    decoded_secret :
        (tag payload : Bytes)
        → is_none options.encryption ≡ false
        → tag ≡ hmac (authentication_key options.password salt) (front ++ encoded)
        → crypt_stage options.encryption options.password salt
            (front ++ (encoded ++ tag))
            (length front)
            (length encoded)
          ≡ ok payload
        → decompress_payload huffman_compress huffman_decompress header payload ≡ ok packed
        → check_packed header packed ≡ ok tt
        → decode_archive huffman_compress huffman_decompress restore (front ++ (encoded ++ tag))
          ≡ ok (header, packed)
    unfolding decode_archive decrypt_payload
    decoded_secret tag payload secret tagged decrypts decompresses checks =
        let version : (info.version == archive_version_authenticated) ≡ true =
          authenticated_version options.compression options.encryption ∙ ap not secret in
        let long = length-hmac (authentication_key options.password salt) (front ++ encoded) in
        let tagged' : IsTag info tag = rw version (ap (λ t. length t) tagged ∙ long) in
        let copy : snapshot header (front ++ (encoded ++ tag)) ≡ ok (front ++ (encoded ++ tag)) =
          rw secret at (snapshot-archive info salt encoded tag h refl tagged') in
        let offset : payload_offset info ≡ length front =
          unfold payload_offset in rw secret (sym (length-write_archive_header info salt h)) in
        let tag_right : check_tag true restore header (front ++ (encoded ++ tag)) ≡ ok tt =
          check_tag-archive info salt encoded tag h refl restore (rw password tagged) in
        let right : check_payload header (front ++ (encoded ++ tag)) ≡ ok tt =
          check_payload-copy info salt encoded tag h refl front tag offset small refl in
        rw (read_archive_file-archive info salt encoded tag h refl tagged', password_checks)
          (rw (copy, version)
            (rw (tag_right, right)
              (rw (secret, password) (rw (offset, decrypts) (rw (decompresses, checks))))))

  encode_archive-eq :
      (options : CreateOptions) (salt packed payload encoded : Bytes)
      → IsHeader (info_of options packed encoded) salt
      → compress_payload huffman_compress huffman_decompress options packed ≡ ok payload
      → encrypt_payload options salt payload ≡ ok encoded
      → ((uncompressed options.compression && is_none options.encryption) ≡ true → encoded ≡ packed)
      → encode_archive huffman_compress huffman_decompress options salt packed ≡ (
          let front = write_archive_header (info_of options packed encoded) salt in
          ok (front ++ (encoded ++ tag_of options salt (front ++ encoded))))
  unfolding encode_archive
  encode_archive-eq options salt packed payload encoded h compresses encrypts same =
      let digest =
        digest_of-eq (uncompressed options.compression && is_none options.encryption)
          (sha256 packed) encoded (λ e. ap (λ t. sha256 t) (sym (same e))) in
      rw (whole_digest packed, compresses)
        (rw (encrypts, digest) (finish_archive-eq options salt packed encoded h))

  -- A packed file of bytes is made into an archive with every compression but Huffman's and with every
  -- encryption, and taking the archive apart with the same password gives the packed file back, where
  -- an encryption has a password that is not empty and the sizes are below the limits of the formats.
  pub decode_archive-encode_archive :
      (options : CreateOptions) (restore : RestoreOptions) (salt packed : Bytes)
      → options.compression ≢ huffman
      → All IsByte packed
      → length salt ≡ 16
      → length packed < to_end
      → restore.password ≡ options.password
      → (is_none options.encryption || not (is_empty options.password)) ≡ true
      → Fits options packed
      → (file : Bytes) × (header : ParsedHeader) × (encode_archive huffman_compress
            huffman_decompress options salt packed
          ≡ ok file)
        × (decode_archive huffman_compress huffman_decompress restore file ≡ ok (header, packed))
  decode_archive-encode_archive options restore salt packed other bytes salted small password given
        fits =
      let (payload, compresses, back, unchanged) = compressed options packed other bytes small in
      let (bounded, chacha) = fits payload compresses in
      let (encoded, encrypts, same, (plain_same, decrypts)) =
        encrypted options salt payload given chacha bounded in
      let small' : length encoded < to_end = omega arith in
      let h = info_of-IsHeader options salt packed encoded salted small small' in
      let info = info_of options packed encoded in
      let header : ParsedHeader = record { info = info; salt = salt } in
      let front = write_archive_header info salt in
      let tag = tag_of options salt (front ++ encoded) in
      let checks =
        check_packed-eq options salt packed encoded
          (λ e. let (p, q) = and_both _ _ e in plain_same p ∙ unchanged q) in
      (
        front ++ (encoded ++ tag),
        header,
        encode_archive-eq options salt packed payload encoded h compresses encrypts
            (λ e. let (p, q) = and_both _ _ e in plain_same q ∙ unchanged p),
        elim (Bool-cases (is_none options.encryption)) [
          | inl plain ↦
              let no_tag : tag ≡ [] = rw plain refl in
              rw no_tag (
                decoded_plain options restore salt packed encoded h small' password given plain
                  (ap (λ t. decompress_payload huffman_compress huffman_decompress header t)
                      (plain_same plain)
                    ∙ back salt encoded)
                  checks)
          | inr secret ↦
              let tagged : tag
                  ≡ hmac (authentication_key options.password salt) (front ++ encoded) =
                rw secret refl in
              decoded_secret options restore salt packed encoded h small' password given tag payload
                secret tagged (decrypts secret front tag) (back salt encoded) checks
        ],
      )
