-- ===== src/Lz77.antt =====
-- DataBackup/core/compress_lz77.cpp: LZ77 with hash chains, one block of at most 1 MiB at a time.
-- The vectors head_ and previous_ are functions from an index to the number stored there.
pub mod Encoder
pub mod Decoder
pub mod Stage
use backup_system.Base.{
  ℕ, ◌*◌, ◌/◌, ◌%◌, ◌+◌, ◌-◌, ◌^◌, bit_and, bit_or, zero, suc, min, ◌<◌, List, [], ◌∷◌, ◌++◌, leb,
  if◌then◌else◌, length, get_or, take, drop, ◌==◌, true, false,
}
use backup_system.Stream.{Bytes}

abbrev pub lz77_block_size : ℕ
lz77_block_size = 1024 * 1024

abbrev pub min_match : ℕ
min_match = 3

abbrev pub window : ℕ
window = 0xffff

abbrev pub max_match : ℕ
max_match = 0xffff

abbrev pub max_chain : ℕ
max_chain = 64

abbrev pub hash_bits : ℕ
hash_bits = 16

abbrev pub no_position : ℕ
no_position = 2 ^ 32 - 1

abbrev pub token_block : ℕ
token_block = 0

abbrev pub stored_block : ℕ
stored_block = 1

abbrev pub lz77_magic : Bytes
lz77_magic = b'L' ∷ b'Z' ∷ b'7' ∷ b'7' ∷ []

pub record Lz77Match : Type 0 where
  pub length : ℕ
  pub distance : ℕ

-- `data[i]`
abbrev pub byte_at : Bytes → ℕ → ℕ
byte_at input i = get_or input i 0

-- The bytes from index `p` up to index `q`.
abbrev pub slice : Bytes → ℕ → ℕ → Bytes
slice input p q = take (q - p) (drop p input)

-- `lz77Hash(data + position)`
unfoldable pub lz77_hash : Bytes → ℕ → ℕ
lz77_hash input position =
    let high = byte_at input position * 2 ^ 16 % 2 ^ 32 in
    let middle = byte_at input (position + 1) * 2 ^ 8 % 2 ^ 32 in
    let value = bit_or (bit_or high middle) (byte_at input (position + 2)) in
    value * 2654435761 % 2 ^ 32 / 2 ^ (32 - hash_bits)

-- The bytes that appendExtension pushes. A round takes 255 off, so `extra` rounds are enough.
unfoldable pub extension_loop : ℕ → ℕ → Bytes
extension_loop zero extra = (extra % 2 ^ 8) ∷ []
extension_loop (suc fuel) extra = elim (leb 255 extra) [
  | true ↦ 255 ∷ extension_loop fuel (extra - 255)
  | false ↦ (extra % 2 ^ 8) ∷ []
]

unfoldable pub append_extension : ℕ → Bytes
append_extension extra = extension_loop extra extra

-- The extension that follows a count of which the token holds at most 15.
unfoldable pub extension_of : ℕ → Bytes
extension_of count = if leb 15 count then append_extension (count - 15) else []

unfoldable pub match_code : ℕ → ℕ
match_code match_length = if match_length == 0 then 0 else match_length - min_match

unfoldable pub sequence_token : ℕ → ℕ → ℕ
sequence_token literal_count match_length =
    bit_or (min literal_count 15 * 2 ^ 4) (min (match_code match_length) 15) % 2 ^ 8

-- What follows the literals.
unfoldable pub sequence_match : ℕ → ℕ → Bytes
sequence_match match_length distance =
    if match_length == 0
    then []
    else extension_of (match_code match_length)
      ++ (bit_and distance 0xff % 2 ^ 8) ∷ (distance / 2 ^ 8 % 2 ^ 8) ∷ []

-- The bytes that appendSequence pushes.
unfoldable pub append_sequence : Bytes → ℕ → ℕ → Bytes
append_sequence literals match_length distance =
    sequence_token (length literals) match_length
    ∷ (extension_of (length literals) ++ (literals ++ sequence_match match_length distance))
