-- ===== src/Network/Accounts/Meta.antt =====
-- writeMeta and readMeta.
use backup_system.Base.{
  ◌%◌, ◌^◌, ◌≤◌, ◌<◌, ◌≡◌, refl, sym, ap₂, ◌∙◌, true, ◌&&◌, ◌⊎◌, String, [], ◌++◌, append-nil,
  length, take_all, leb, le→leb, leb→le, All, arith,
}
use backup_system.Base.Outcome.{ok, err}
use backup_system.Stream.{Bytes, IsByte, at_end, bytes_eq, word_bytes, write_u16, write_u64, no_nul}
use backup_system.Stream.Equal.{bytes_eq_refl, bytes_eq→≡}
use backup_system.Stream.Consumed.{
  Takes, Takes-pure, Takes-bind, Takes-ensure, Takes-at_end, run-whole,
}
use backup_system.Network.{take_bytes}
use backup_system.Network.Wire.{take_bytes-append}
use backup_system.Network.Accepted.{Takes-take_bytes}
use backup_system.Network.Accounts.{
  RemoteBackupEntry, all_of, is_xdigit, meta_magic, write_meta, meta_fields, read_meta,
}
use backup_system.Network.Accounts.Database.{take_word-word_bytes, Takes-take_word}

pub record IsMeta (e : RemoteBackupEntry) : Type 0 where
  pub name_fits : length e.name ≤ 256
  pub name_clean : no_nul e.name ≡ true
  pub timestamp_fits : e.timestamp < 2 ^ 64
  pub size_fits : e.size < 2 ^ 64
  pub digest_size : length e.digest ≡ 64
  pub digest_hex : all_of is_xdigit e.digest ≡ true

write_meta-eq :
    (e : RemoteBackupEntry)
    → length e.name ≤ 256
    → write_meta e
      ≡ meta_magic
        ++ (write_u16 (length e.name)
            ++ (e.name ++ (write_u64 e.timestamp ++ (write_u64 e.size ++ e.digest))))
unfolding write_meta
write_meta-eq e h =
    let small : length e.name % 2 ^ 16 ≡ length e.name = omega arith in rw (small, take_all e.name)

meta_fields-write :
    (e : RemoteBackupEntry)
    → IsMeta e
    → meta_fields e.id (
        meta_magic
        ++ (word_bytes 2 0 (length e.name)
            ++ (e.name ++ (word_bytes 8 0 e.timestamp ++ (word_bytes 8 0 e.size ++ e.digest)))))
      ≡ ok (e, [])
unfolding meta_fields at_end
meta_fields-write e h =
    let last : take_bytes "truncated backup metadata" 64 e.digest ≡ ok (e.digest, []) =
      rw append-nil at
        (take_bytes-append "truncated backup metadata" 64 e.digest [] (sym h.digest_size)) in
    rw (take_bytes-append "invalid backup metadata" 4 meta_magic _ refl, bytes_eq_refl meta_magic)
      (rw
        (
          take_word-word_bytes "invalid backup metadata name length" 2 (length e.name) _
              (omega (arith, h.name_fits)),
          le→leb (length e.name) 256 h.name_fits,
        )
        (rw
          (
            take_bytes-append "truncated backup metadata" (length e.name) e.name _ refl,
            take_word-word_bytes "truncated backup metadata" 8 e.timestamp _ h.timestamp_fits,
          )
          (rw (take_word-word_bytes "truncated backup metadata" 8 e.size e.digest h.size_fits, last)
            (rw (h.name_clean, h.digest_hex)))))

-- The metadata that writeMeta writes is read back under its identifier, where the name has at most 256
-- bytes and none that is 0, the time and the size fit 64 bits, and the digest is 64 hexadecimal digits.
pub read_meta-write_meta : (e : RemoteBackupEntry) → IsMeta e → read_meta (write_meta e) e.id ≡ ok e
unfolding read_meta write_u16 write_u64
read_meta-write_meta e h = rw (write_meta-eq e h.name_fits, meta_fields-write e h)

abbrev IsReadMeta : Bytes → RemoteBackupEntry → Bytes → Type 0
IsReadMeta id e xs = (e.id ≡ id) × IsMeta e × (xs ≡ write_meta e)

Takes-meta_fields : (id : Bytes) → Takes true (IsReadMeta id) (meta_fields id)
unfolding meta_fields write_u16 write_u64
Takes-meta_fields id = Takes-bind (Takes-take_bytes _ 4) λ magic ms (m, _, _).
    Takes-ensure (bytes_eq magic meta_magic) _ λ right.
      Takes-bind (Takes-take_word _ 2) λ n ns (size, _). Takes-ensure (leb n 256) _ λ small.
        Takes-bind (Takes-take_bytes _ n) λ name xs (x, named, _).
          Takes-bind (Takes-take_word _ 8) λ timestamp ts (t, early).
            Takes-bind (Takes-take_word _ 8) λ total ss (s, fits).
              Takes-bind (Takes-take_bytes _ 64) λ digest ds (d, digested, _).
                Takes-ensure (no_nul name && all_of is_xdigit digest) _ λ clean.
                  let e : RemoteBackupEntry = record {
                    id = id;
                    name = name;
                    timestamp = timestamp;
                    size = total;
                    digest = digest;
                  } in
                  let short : length name ≤ 256 = omega (arith, leb→le n 256 small) in
                  let whole : ms ++ (ns ++ (xs ++ (ts ++ (ss ++ (ds ++ []))))) ≡ write_meta e =
                    rw (write_meta-eq e short, append-nil ds, named)
                      (ap₂ (λ a b. a ++ b) (m ∙ bytes_eq→≡ magic meta_magic right)
                        (ap₂ (λ a b. a ++ b) size
                          (ap₂ (λ a b. a ++ b) x
                            (ap₂ (λ a b. a ++ b) t (ap₂ (λ a b. a ++ b) s d))))) in
                  Takes-at_end _ (
                    Takes-pure {a = e} (
                      refl,
                      record {
                        name_fits = short;
                        name_clean = ground arith;
                        timestamp_fits = early;
                        size_fits = fits;
                        digest_size = digested;
                        digest_hex = ground arith;
                      },
                      whole,
                    ))

-- On any file, readMeta throws, or the entry it returns has the identifier asked for, is within the
-- limits, and is what writeMeta writes as that file.
pub read_meta_cases :
    (file id : Bytes)
    → All IsByte file
    → ((e : RemoteBackupEntry) × (read_meta file id ≡ ok e)
        × ((e.id ≡ id) × IsMeta e × (file ≡ write_meta e)))
      ⊎ ((x : String) × (read_meta file id ≡ err x))
unfolding read_meta
read_meta_cases file id bytes = run-whole (meta_fields id) file (Takes-meta_fields id) bytes
