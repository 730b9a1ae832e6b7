-- ===== src/Network/Session.antt =====
-- DataBackup/network/session.cpp: the connections of the server, their accounts and backups.
-- One storage directory; `active` holds the counts of activeSessions, 0 for a name that is not in the
-- map. Reading and writing the storage, and sending, do not fail here.
pub mod Uploads
pub mod Dispatch
pub mod Effects
pub mod Handled
pub mod Accounting
pub mod Invariant
pub mod Safety
pub mod Kept
pub mod Metadata
pub mod Received
pub mod Transfer
use backup_system.Base.{
  ℕ, zero, suc, ◌+◌, ◌-◌, ◌/◌, ◌%◌, Bool, true, false, not, ◌&&◌, String, Option, none, some, List,
  [], ◌∷◌, ◌++◌, length, ◌==◌, if◌then◌else◌, is_empty,
}
use backup_system.Base.Outcome.{Result, ok, err, ◌>>=◌, ◌>>◌, ensure}
use backup_system.Stream.{Bytes, bytes_eq, run}
use backup_system.Network.{Frame, message_end}
use backup_system.Network.MessageType
use backup_system.Network.Messages.{registration, one_string}
use backup_system.Network.Accounts.{
  UserRecord, valid_username, proof_for, has_name, load_users, save_users, user_named, find_user,
}
use backup_system.Sha256.{sha256}

-- A backup in the directory of a user: its identifier, and the bytes of its `.meta` and `.bak` files.
pub record Stored : Type 0 where
  pub id : Bytes
  pub metadata : Bytes
  pub archive : Bytes

-- `stores` gives the backups in the directory with that name.
pub record Server : Type 0 where
  pub users_file : Option Bytes
  pub active : Bytes → ℕ
  pub stores : Bytes → List Stored

-- The variables of handleUpload between two frames; `base` is none where the upload is not incremental.
pub record Upload : Type 0 where
  pub request_id : ℕ
  pub id : Bytes
  pub name : Bytes
  pub size : ℕ
  pub digest : Bytes
  pub base : Option Bytes
  pub received : Bytes

-- The variables of handleSession. An empty authenticated_user is none; `key` is the name in key_.
pub record Connection : Type 0 where
  pub authenticated_user : Bytes
  pub key : Option Bytes
  pub pending_user : Option UserRecord
  pub pending_nonce : Bytes
  pub challenge_request : ℕ
  pub upload : Option Upload
  pub finished : Bool

-- What the outside decides: random bytes, the identifiers drawn one after the other, the clock.
pub record Chances : Type 0 where
  pub nonce : Bytes
  pub ids : List Bytes
  pub now : ℕ

-- After a frame: the new states and the frames sent.
pub record Step : Type 0 where
  pub server : Server
  pub connection : Connection
  pub replies : List Frame

abbrev pub new_connection : Connection
new_connection = record {
  authenticated_user = [];
  key = none;
  pending_user = none;
  pending_nonce = [];
  challenge_request = 0;
  upload = none;
  finished = false;
}

abbrev pub reply : ℕ → Frame → Bytes → Frame
reply kind request payload = record {
  kind = kind;
  request_id = request.request_id;
  payload = payload;
}

-- Two lower case digits for each byte.
unfoldable pub hex_digit : ℕ → ℕ
hex_digit n = elim (n / 10) [ zero ↦ 0x30 + n | suc _ ↦ 0x57 + n ]

unfoldable pub hex_digest : Bytes → Bytes
hex_digest [] = []
hex_digest (b ∷ bs) = hex_digit (b / 16) ∷ hex_digit (b % 16) ∷ hex_digest bs

unfoldable pub user_directory : Bytes → Bytes
user_directory name = hex_digest (sha256 name)

-- `f` with another value at `name`.
unfoldable pub put_at {ℓ} : {A : Type ℓ} → (Bytes → A) → Bytes → A → Bytes → A
put_at f name value other = if bytes_eq name other then value else f other

unfoldable pub register : Server → Connection → Frame → Result Step
register s c frame = do
  (name, salt, verifier) ← run registration frame.payload
  ensure (valid_username name) "invalid username"
  users ← load_users s.users_file
  ensure (not (has_name name users)) "username already exists"
  file ← save_users (users ++ (record { name = name; salt = salt; verifier = verifier } ∷ []))
  ok (record {
    server = record s { users_file = some file };
    connection = c;
    replies = reply MessageType.register_response frame (0 ∷ []) ∷ [];
  })

-- The challenge for a user that was found.
unfoldable pub challenge : Server → Connection → Frame → Bytes → Option UserRecord → Result Step
challenge s c frame nonce none = err "invalid username or password"
challenge s c frame nonce (some user) = ok (record {
  server = s;
  connection = record c {
    pending_user = some user;
    pending_nonce = nonce;
    challenge_request = frame.request_id;
  };
  replies = reply MessageType.login_challenge frame (user.salt ++ nonce) ∷ [];
})

unfoldable pub login_start : Server → Connection → Frame → Bytes → Result Step
login_start s c frame nonce = do
  name ← run one_string frame.payload
  ensure (valid_username name) "invalid username"
  found ← find_user s.users_file name
  challenge s c frame nonce found

-- The test of `acquire`: the account of the challenge is in the database as it was.
unfoldable pub has_record : UserRecord → List UserRecord → Bool
has_record user [] = false
has_record user (u ∷ users) =
    let rest = has_record user users in
    if bytes_eq u.name user.name && bytes_eq u.salt user.salt && bytes_eq u.verifier user.verifier
    then true
    else rest

unfoldable pub no_value {ℓ} : {A : Type ℓ} → Option A → Bool
no_value none = true
no_value (some a) = false

-- AuthenticatedSession::acquire.
unfoldable pub acquire : Server → Connection → UserRecord → Result (Server × Connection)
acquire s c user = do
  ensure (no_value c.key) "connection is already authenticated"
  users ← load_users s.users_file
  ensure (has_record user users) "account changed during login; retry"
  ok (
    record s { active = put_at s.active user.name (s.active user.name + 1) },
    record c { key = some user.name },
  )

unfoldable pub prove : Server → Connection → Frame → Option UserRecord → Result Step
prove s c frame none = err "login proof has no matching challenge"
prove s c frame (some user) = do
  ensure (frame.request_id == c.challenge_request) "login proof has no matching challenge"
  ensure (length frame.payload == 32) "invalid login proof size"
  ensure (bytes_eq (proof_for user.verifier c.pending_nonce) frame.payload)
      "invalid username or password"
  (s', c') ← acquire s (record c { authenticated_user = user.name }) user
  ok (record {
    server = s';
    connection = record c' { pending_user = none; pending_nonce = [] };
    replies = reply MessageType.login_response frame (0 ∷ []) ∷ [];
  })

unfoldable pub login_proof : Server → Connection → Frame → Result Step
login_proof s c frame = prove s c frame c.pending_user

-- `users.erase` of the first record with that name.
unfoldable pub without : Bytes → List UserRecord → List UserRecord
without name [] = []
without name (u ∷ users) =
    let rest = without name users in if bytes_eq u.name name then users else u ∷ rest

-- AuthenticatedSession::deleteAccount, with the new contents of the database.
unfoldable pub delete_account : Server → Option Bytes → Result Bytes
delete_account s none = err "账户正在使用，请稍后重试"
delete_account s (some name) = do
  ensure (s.active name == 1) "账户正在使用，请稍后重试"
  users ← load_users s.users_file
  ensure (has_name name users) "account no longer exists"
  ensure (is_empty (s.stores (user_directory name))) "账户有云端备份，不能注销"
  save_users (without name users)

unfoldable pub delete_request : Server → Connection → Frame → Result Step
delete_request s c frame = do
  run message_end frame.payload
  file ← delete_account s c.key
  ok (record {
    server = record s { users_file = some file };
    connection = record c { finished = true };
    replies = reply MessageType.delete_account_response frame (0 ∷ []) ∷ [];
  })

-- The destructor of AuthenticatedSession.
unfoldable pub release_key : Server → Option Bytes → Server
release_key s none = s
release_key s (some name) = record s { active = put_at s.active name (s.active name - 1) }

unfoldable pub release : Server → Connection → Server
release s c = release_key s c.key
