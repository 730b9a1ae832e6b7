-- ===== src/Network/Session/Metadata.antt =====
-- The metadata of a new backup, written by writeMeta and read by readMeta.
use backup_system.Base.{
  ℕ, ◌*◌, ◌/◌, ◌%◌, ◌^◌, ◌≤◌, ◌<◌, ◌≡◌, refl, ap, ◌∙◌, true, false, Bool-cases, inl, inr, [], ◌∷◌,
  ◌++◌, length, ◌==◌, ==_iff, All, All-append, and_both, is_empty, if◌then◌else◌, arith,
}
use backup_system.Base.Outcome.{ok}
use backup_system.Stream.{Bytes, IsByte, no_nul}
use backup_system.Network.Accounts.{valid_backup_id, all_of, is_xdigit, read_meta, write_meta}
use backup_system.Network.Accounts.Meta.{read_meta-write_meta}
use backup_system.Network.Session.{Upload, hex_digit, hex_digest}
use backup_system.Network.Session.Uploads.{new_entry}
use backup_system.Sha256.{Words, sha256, finish, digest, word_digest}
use backup_system.Engine.Stages.{length-sha256}

hex_digit-is_xdigit : (n : ℕ) → n < 16 → is_xdigit (hex_digit n) ≡ true
unfolding is_xdigit hex_digit
hex_digit-is_xdigit n h = ground arith

length-hex_digest : (x : Bytes) → length (hex_digest x) ≡ 2 * length x
unfolding hex_digest
length-hex_digest [] = refl
length-hex_digest (b ∷ bs) = omega (arith, length-hex_digest bs)

hex_digest-is_xdigit : (x : Bytes) → All IsByte x → all_of is_xdigit (hex_digest x) ≡ true
unfolding hex_digest all_of
hex_digest-is_xdigit [] h = refl
hex_digest-is_xdigit (b ∷ bs) (small, h) =
    rw (hex_digit-is_xdigit (b / 16) (omega arith), hex_digit-is_xdigit (b % 16) (omega arith))
      (hex_digest-is_xdigit bs h)

word_digest-IsByte : (w : ℕ) → All IsByte (word_digest w)
unfolding word_digest
word_digest-IsByte w = (omega arith, (omega arith, (omega arith, (omega arith, tt))))

with_word : (w : ℕ) (rest : Bytes) → All IsByte rest → All IsByte (word_digest w ++ rest)
with_word w rest h = All-append IsByte (word_digest w) rest (word_digest-IsByte w) h

digest-IsByte : (s : Words) → All IsByte (digest s)
unfolding digest
digest-IsByte s = with_word s.a _ (
    with_word s.b _ (
      with_word s.c _ (
        with_word s.d _
          (with_word s.e _ (with_word s.f _ (with_word s.g _ (word_digest-IsByte s.h)))))))

pub sha256-IsByte : (x : Bytes) → All IsByte (sha256 x)
unfolding sha256 finish
sha256-IsByte x = digest-IsByte _

xdigit-positive : (c : ℕ) → is_xdigit c ≡ true → (c == 0) ≡ false
unfolding is_xdigit
xdigit-positive c h = ground arith

no_nul-xdigits : (x : Bytes) → all_of is_xdigit x ≡ true → no_nul x ≡ true
unfolding all_of no_nul
no_nul-xdigits [] h = refl
no_nul-xdigits (b ∷ bs) h = elim (Bool-cases (is_xdigit b)) [
  | inl good ↦ rw (xdigit-positive b good) (no_nul-xdigits bs (rw good at h))
  | inr bad ↦ let no = rw bad at h in absurd (cc)
]

-- The name that handleUpload chooses.
entry_name-fits :
    (name id : Bytes)
    → (length name ≤ 256) × (no_nul name ≡ true)
    → valid_backup_id id ≡ true
    → (length (if is_empty name then id else name) ≤ 256)
      × (no_nul (if is_empty name then id else name) ≡ true)
unfolding valid_backup_id
entry_name-fits [] id h valid =
    let (sized, digits) = and_both (length id == 32) (all_of is_xdigit id) valid in
    (omega (arith, (==_iff (length id) 32).0 sized), no_nul-xdigits id digits)
entry_name-fits (b ∷ bs) id h valid = h

-- The metadata of a finished upload is read back as it was written.
pub new_entry-read :
    (u : Upload) (now : ℕ) (archive : Bytes)
    → (length u.name ≤ 256) × (no_nul u.name ≡ true)
    → (u.size < 2 ^ 64) × (now < 2 ^ 64)
    → valid_backup_id u.id ≡ true
    → u.digest ≡ sha256 archive
    → read_meta (write_meta (new_entry u now)) u.id ≡ ok (new_entry u now)
new_entry-read u now archive named (sized, timed) valid digested =
    let (short, clean) = entry_name-fits u.name u.id named valid in
    read_meta-write_meta (new_entry u now) (record {
      name_fits = short;
      name_clean = clean;
      timestamp_fits = timed;
      size_fits = sized;
      digest_size =
          length-hex_digest u.digest
          ∙ ap (λ t. 2 * length t) digested
          ∙ ap (λ t. 2 * t) (length-sha256 archive);
      digest_hex = rw digested (hex_digest-is_xdigit (sha256 archive) (sha256-IsByte archive));
    })
