-- ===== src/Crypto.antt =====
-- DataBackup/core/crypto.cpp: key derivation and the encryption stage of an archive.
pub mod Keystream
pub mod ChaCha20
pub mod Aes256
pub mod Stage
use backup_system.Base.{
  ℕ, zero, suc, ◌+◌, ◌-◌, ◌^◌, min, Bool, true, false, not, ◌&&◌, ◌||◌, List, [], ◌∷◌, ◌++◌, length,
  is_empty, take, drop, leb, ltb, ◌==◌, if◌then◌else◌,
}
use backup_system.Base.Outcome.{Result, ok, err, out_of_fuel, ensure, ◌>>◌, ◌>>=◌}
use backup_system.Stream.{Bytes, buffer_size, copy_bytes, run}
use backup_system.Format.{EncryptionAlgorithm}
use backup_system.Format.EncryptionAlgorithm.{none, chacha20, aes256}
use backup_system.Sha256.{sha256}
use backup_system.Crypto.ChaCha20.{chacha20_xor}
use backup_system.Crypto.Aes256.{aes256_ctr_xor}

unfoldable pub derive_rounds : ℕ → Bytes → Bytes → Bytes
derive_rounds zero salt digest = digest
derive_rounds (suc n) salt digest = derive_rounds n salt (sha256 (digest ++ salt))

unfoldable pub derive_key : Bytes → Bytes → Bytes
derive_key password salt = derive_rounds 4096 salt (sha256 (password ++ salt))

-- One buffer at its position in the stage.
unfoldable pub crypt_buffer : EncryptionAlgorithm → Bytes → Bytes → ℕ → Bytes → Result Bytes
crypt_buffer none key salt position buffer = ok buffer
crypt_buffer chacha20 key salt position buffer = chacha20_xor key (take 12 salt) position buffer
crypt_buffer aes256 key salt position buffer = ok (aes256_ctr_xor key salt position buffer)

-- The loop of cryptStage; `input` is what is not read yet.
unfoldable pub crypt_loop : ℕ → EncryptionAlgorithm → Bytes → Bytes → ℕ → ℕ → Bytes → Result Bytes
crypt_loop zero algorithm key salt position total input =
    if ltb position total then out_of_fuel else ok []
crypt_loop (suc fuel) algorithm key salt position total input = elim (ltb position total) [
  | true ↦
      let wanted = min buffer_size (total - position) in
      elim (leb wanted (length input)) [
        | true ↦ do
          piece ← crypt_buffer algorithm key salt position (take wanted input)
          rest ← crypt_loop fuel algorithm key salt (position + wanted) total (drop wanted input)
          ok (piece ++ rest)
        | false ↦ err "cannot read complete encryption input"
      ]
  | false ↦ ok []
]

-- `UINT64_MAX`: up to the end of the input.
abbrev pub to_end : ℕ
to_end = 2 ^ 64 - 1

unfoldable pub is_none : EncryptionAlgorithm → Bool
is_none none = true
is_none chacha20 = false
is_none aes256 = false

unfoldable pub is_chacha20 : EncryptionAlgorithm → Bool
is_chacha20 none = false
is_chacha20 chacha20 = true
is_chacha20 aes256 = false

-- The enumeration has no other algorithm to refuse. Each round does a byte at least.
unfoldable pub crypt_stage : EncryptionAlgorithm → Bytes → Bytes → Bytes → ℕ → ℕ → Result Bytes
crypt_stage algorithm password salt input offset size = do
  ensure (is_none algorithm || not (is_empty password)) "an encryption password is required"
  ensure (leb offset (length input) && (size == to_end || leb size (length input - offset)))
      "encryption range exceeds input"
  let total = if size == to_end then length input - offset else size
  let rest = drop offset input
  if is_none algorithm then run (copy_bytes total) rest else do
    ensure (not (is_chacha20 algorithm) || ltb total (2 ^ 38))
        "archive exceeds the ChaCha20 size limit"
    crypt_loop total algorithm (derive_key password salt) salt 0 total rest
