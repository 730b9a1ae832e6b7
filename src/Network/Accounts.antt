-- ===== src/Network/Accounts.antt =====
-- DataBackup/network/auth_store.cpp: names, password proofs, the user database and the metadata of a
-- stored backup. A file is its bytes, and none where there is no such file. Writing a file means that
-- its temporary replaced it; the errors of the file system are left out.
pub mod Database
pub mod Meta
use backup_system.Base.{
  ℕ, zero, suc, ◌*◌, ◌%◌, ◌^◌, String, Bool, true, false, not, ◌&&◌, ◌||◌, Option, none, some, List,
  [], ◌∷◌, ◌++◌, length, take, leb, ltb, ◌==◌, if◌then◌else◌,
}
use backup_system.Base.Outcome
use backup_system.Base.Outcome.{Result, ok, err}
use backup_system.Stream.{
  Bytes, Reader, ◌>>=◌, ◌>>◌, pure, ensure, at_end, bytes_eq, no_nul, run, or_bytes, write_u16,
  write_u32, write_u64,
}
use backup_system.Network.{take_bytes}
use backup_system.Sha256.{sha256}

pub record UserRecord : Type 0 where
  pub name : Bytes
  pub salt : Bytes
  pub verifier : Bytes

-- RemoteBackupEntry of libs/network.hpp.
pub record RemoteBackupEntry : Type 0 where
  pub id : Bytes
  pub name : Bytes
  pub timestamp : ℕ
  pub size : ℕ
  pub digest : Bytes

-- The loop of verifierFor.
unfoldable pub verifier_rounds : ℕ → Bytes → Bytes → Bytes
verifier_rounds zero salt digest = digest
verifier_rounds (suc n) salt digest = verifier_rounds n salt (sha256 (digest ++ salt))

unfoldable pub verifier_for : Bytes → Bytes → Bytes
verifier_for password salt = verifier_rounds 4096 salt (sha256 (password ++ salt))

unfoldable pub proof_for : Bytes → Bytes → Bytes
proof_for verifier nonce = sha256 (verifier ++ nonce)

-- `std::all_of`
unfoldable pub all_of : (ℕ → Bool) → Bytes → Bool
all_of test [] = true
all_of test (b ∷ bs) = let rest = all_of test bs in if test b then rest else false

abbrev between : ℕ → ℕ → ℕ → Bool
between low high c = leb low c && leb c high

-- `std::isalnum` and `std::isxdigit` of the "C" locale.
unfoldable pub is_alnum : ℕ → Bool
is_alnum c = between 0x30 0x39 c || between 0x41 0x5a c || between 0x61 0x7a c

unfoldable pub is_xdigit : ℕ → Bool
is_xdigit c = between 0x30 0x39 c || between 0x41 0x46 c || between 0x61 0x66 c

-- A letter, a digit, '_', '-' or '.'.
unfoldable pub name_char : ℕ → Bool
name_char c = is_alnum c || c == 0x5f || c == 0x2d || c == 0x2e

unfoldable pub valid_username : Bytes → Bool
valid_username value =
    if length value == 0 || ltb 64 (length value) then false else all_of name_char value

unfoldable pub valid_backup_id : Bytes → Bool
valid_backup_id value = length value == 32 && all_of is_xdigit value

-- "USR1"
abbrev pub users_magic : Bytes
users_magic = 0x55 ∷ 0x53 ∷ 0x52 ∷ 0x31 ∷ []

abbrev pub max_users : ℕ
max_users = 100000

-- A little-endian word, or the message.
unfoldable pub take_word : String → ℕ → Reader ℕ
take_word message n = do b ← take_bytes message n; pure (or_bytes (n * 8) 0 0 b)

-- The reads before a test of `in.good()` fail with the message of that test.
unfoldable pub read_user : Reader UserRecord
read_user = do
  n ← take_word "truncated user database" 2
  ensure (ltb 0 n && leb n 64) "invalid user database name length"
  name ← take_bytes "invalid user database record" n
  salt ← take_bytes "invalid user database record" 16
  verifier ← take_bytes "invalid user database record" 32
  ensure (valid_username name) "invalid user database record"
  pure (record { name = name; salt = salt; verifier = verifier })

unfoldable pub has_name : Bytes → List UserRecord → Bool
has_name name [] = false
has_name name (u ∷ users) =
    let rest = has_name name users in if bytes_eq u.name name then true else rest

-- `names` are the names read so far; here the users that have them, the last one first.
unfoldable pub read_users : ℕ → List UserRecord → Reader (List UserRecord)
read_users zero names = pure []
read_users (suc count) names = do
  u ← read_user
  ensure (not (has_name u.name names)) "duplicate user database record"
  users ← read_users count (u ∷ names)
  pure (u ∷ users)

unfoldable pub user_database : Reader (List UserRecord)
user_database = do
  magic ← take_bytes "invalid user database" 4
  ensure (bytes_eq magic users_magic) "invalid user database"
  count ← take_word "truncated user database" 4
  ensure (leb count max_users) "user database count exceeds limit"
  users ← read_users count []
  at_end "user database has trailing or unreadable data"
  pure users

unfoldable pub load_users : Option Bytes → Result (List UserRecord)
load_users none = ok []
load_users (some file) = run user_database file

unfoldable pub write_user : UserRecord → Bytes
write_user u =
    let n = length u.name % 2 ^ 16 in write_u16 n ++ (take n u.name ++ (u.salt ++ u.verifier))

unfoldable pub write_users : List UserRecord → Bytes
write_users [] = []
write_users (u ∷ users) = write_user u ++ write_users users

-- The new contents of the file.
unfoldable pub save_users : List UserRecord → Result Bytes
save_users users =
    if leb (length users) max_users
    then ok (users_magic ++ (write_u32 (length users) ++ write_users users))
    else err "user database count exceeds limit"

-- The search of findUser.
unfoldable pub user_named : Bytes → List UserRecord → Option UserRecord
user_named name [] = none
user_named name (u ∷ users) =
    let rest = user_named name users in if bytes_eq u.name name then some u else rest

unfoldable pub find_user : Option Bytes → Bytes → Result (Option UserRecord)
find_user file name = Outcome.◌>>=◌ (load_users file) λ users. ok (user_named name users)

-- "MET1"
abbrev pub meta_magic : Bytes
meta_magic = 0x4d ∷ 0x45 ∷ 0x54 ∷ 0x31 ∷ []

unfoldable pub write_meta : RemoteBackupEntry → Bytes
write_meta entry =
    let n = length entry.name % 2 ^ 16 in
    meta_magic
    ++ (write_u16 n
        ++ (take n entry.name
            ++ (write_u64 entry.timestamp ++ (write_u64 entry.size ++ entry.digest))))

unfoldable pub meta_fields : Bytes → Reader RemoteBackupEntry
meta_fields id = do
  magic ← take_bytes "invalid backup metadata" 4
  ensure (bytes_eq magic meta_magic) "invalid backup metadata"
  n ← take_word "invalid backup metadata name length" 2
  ensure (leb n 256) "invalid backup metadata name length"
  name ← take_bytes "truncated backup metadata" n
  timestamp ← take_word "truncated backup metadata" 8
  size ← take_word "truncated backup metadata" 8
  digest ← take_bytes "truncated backup metadata" 64
  ensure (no_nul name && all_of is_xdigit digest) "invalid backup metadata name or checksum"
  at_end "backup metadata has trailing or unreadable data"
  pure (record { id = id; name = name; timestamp = timestamp; size = size; digest = digest })

unfoldable pub read_meta : Bytes → Bytes → Result RemoteBackupEntry
read_meta file id = run (meta_fields id) file
