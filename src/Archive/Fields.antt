-- ===== src/Archive/Fields.antt =====
-- The identifiers and flags of the header.
use backup_system.Base.{
  ℕ, ◌*◌, ◌/◌, ◌%◌, ◌-◌, ◌^◌, ◌≤◌, ◌<◌, bit_and, ◌≡◌, ◌≢◌, refl, true, ◌||◌, leb, ◌==◌, arith,
}
use backup_system.Base.Bits.{bit_and-halves, bit_and_low}
use backup_system.Base.Outcome.{ok}
use backup_system.Stream.{Bytes}
use backup_system.Format.{
  PackAlgorithm, CompressionAlgorithm, EncryptionAlgorithm, stream, index, rle, huffman, lz77,
  chacha20, aes256, pack_id, compression_id, encryption_id, pack_of, compression_of, encryption_of,
}
use backup_system.Archive.{header_flags, flags_match, same, check_algorithms}

pub pack_of-pack_id : (p : PackAlgorithm) → pack_of (pack_id p) ≡ p
unfolding pack_of pack_id
pack_of-pack_id stream = refl
pack_of-pack_id index = refl

pub compression_of-compression_id :
    (c : CompressionAlgorithm) → compression_of (compression_id c) ≡ c
unfolding compression_of compression_id
compression_of-compression_id CompressionAlgorithm.none = refl
compression_of-compression_id rle = refl
compression_of-compression_id huffman = refl
compression_of-compression_id lz77 = refl

pub encryption_of-encryption_id : (e : EncryptionAlgorithm) → encryption_of (encryption_id e) ≡ e
unfolding encryption_of encryption_id
encryption_of-encryption_id EncryptionAlgorithm.none = refl
encryption_of-encryption_id chacha20 = refl
encryption_of-encryption_id aes256 = refl

pub ids-lt :
    (p : PackAlgorithm) (c : CompressionAlgorithm) (e : EncryptionAlgorithm)
    → (pack_id p < 2 ^ 8) × (compression_id c < 2 ^ 8) × (encryption_id e < 2 ^ 8)
unfolding pack_id compression_id encryption_id
ids-lt stream CompressionAlgorithm.none EncryptionAlgorithm.none = omega arith
ids-lt p c e = ground arith

pub header_flags-lt :
    (c : CompressionAlgorithm) (e : EncryptionAlgorithm) → header_flags c e < 2 ^ 32
unfolding header_flags compression_id encryption_id
header_flags-lt CompressionAlgorithm.none EncryptionAlgorithm.none = omega arith
header_flags-lt c e = ground arith

-- What the version allows: LZ77 from version 3 on, and encryption at version 4.
pub record VersionFits (version : ℕ) (c : CompressionAlgorithm) (e : EncryptionAlgorithm)
    : Type 0 where
  pub lz77_late : c ≡ lz77 → 3 ≤ version
  pub encrypted : version ≡ 4 → e ≢ EncryptionAlgorithm.none

-- The checks pass on what a header of that version holds.
pub check_algorithms-pass :
    (version : ℕ) (p : PackAlgorithm) (c : CompressionAlgorithm) (e : EncryptionAlgorithm)
    (rest : Bytes)
    → VersionFits version c e
    → check_algorithms version
        (header_flags c e)
        (pack_id p)
        (compression_id c)
        (encryption_id e)
        rest
      ≡ ok (tt, rest)
unfolding check_algorithms header_flags flags_match same pack_id compression_id encryption_id
check_algorithms-pass version stream CompressionAlgorithm.none EncryptionAlgorithm.none rest h =
    ground (arith, h.encrypted)
check_algorithms-pass version p c e rest h = ground (arith, h.lz77_late, h.encrypted)

pub pack_id-pack_of : (id : ℕ) → (id == 1 || id == 2) ≡ true → pack_id (pack_of id) ≡ id
unfolding pack_id pack_of
pack_id-pack_of id h = ground arith

pub compression_id-compression_of :
    (id : ℕ) → leb id 3 ≡ true → compression_id (compression_of id) ≡ id
unfolding compression_id compression_of
compression_id-compression_of id h = ground arith

pub encryption_id-encryption_of :
    (id : ℕ) → (id == 0 || id == 3 || id == 4) ≡ true → encryption_id (encryption_of id) ≡ id
unfolding encryption_id encryption_of
encryption_id-encryption_of id h = ground arith

-- The bits that the flag test reads.
low_bits :
    (x : ℕ)
    → (bit_and x 1 ≡ x % 2)
      × (bit_and x 2 ≡ x / 2 % 2 * 2)
      × (bit_and x 4 ≡ x / 4 % 2 * 4)
      × (bit_and x (2 ^ 32 - 8) ≡ x / 8 % 2 ^ 29 * 8)
low_bits x = (
  bit_and_low 1 x,
  omega (arith, bit_and-halves x 2, bit_and_low 1 (x / 2)),
  omega (arith, bit_and-halves x 4, bit_and-halves (x / 2) 2, bit_and_low 1 (x / 2 / 2)),
  omega (
    arith,
    bit_and-halves x (2 ^ 32 - 8),
    bit_and-halves (x / 2) (2 ^ 31 - 4),
    bit_and-halves (x / 2 / 2) (2 ^ 30 - 2),
    bit_and_low 29 (x / 2 / 2 / 2),
  ),
)

-- The flags that pass the test are the ones that the writer sets.
pub flags_match-eq :
    (flags : ℕ) (c : CompressionAlgorithm) (e : EncryptionAlgorithm)
    → flags < 2 ^ 32
    → flags_match flags (compression_id c) (encryption_id e) ≡ true
    → flags ≡ header_flags c e
unfolding flags_match same header_flags compression_id encryption_id
flags_match-eq flags CompressionAlgorithm.none EncryptionAlgorithm.none h match =
    let (b1, b2, b4, b8) = low_bits flags in ground (arith, b1, b2, b4, b8)
flags_match-eq flags c e h match =
    let (b1, b2, b4, b8) = low_bits flags in ground (arith, b1, b2, b4, b8)
