-- ===== src/Tests/Wire.antt =====
-- Examples of the theorems on network/io.cpp and network/auth_store.cpp.
use backup_system.Base.{
  ◌≡◌, refl, ◌⊎◌, String, none, some, List, [], ◌∷◌, ◌++◌, All, arith, replicate,
}
use backup_system.Base.Outcome.{ok, err}
use backup_system.Stream.{Bytes, IsByte, bytes_eq, no_nul}
use backup_system.Network.{Frame, send_frame, receive_frame}
use backup_system.Network.MessageType
use backup_system.Network.Frames.{IsFrame, receive_frame-send_frame}
use backup_system.Network.Accepted.{receive_frame_cases}
use backup_system.Network.Accounts.{
  UserRecord, RemoteBackupEntry, load_users, save_users, write_meta, read_meta, valid_username,
  all_of, name_char, is_alnum, is_xdigit, has_name,
}
use backup_system.Network.Accounts.Database.{IsDatabase, load_users-save_users, load_users_cases}
use backup_system.Network.Accounts.Meta.{IsMeta, read_meta-write_meta, read_meta_cases}

abbrev greeting : Frame
greeting = record { kind = MessageType.login_start; request_id = 7; payload = 0 ∷ 1 ∷ b'a' ∷ [] }

greeting-IsFrame : IsFrame greeting
greeting-IsFrame = record {
  kind_fits = omega arith;
  request_fits = omega arith;
  payload_fits = omega arith;
}

receive_frame-send_frame_example :
    (bytes : Bytes) × (send_frame greeting ≡ ok bytes)
    × (receive_frame (bytes ++ (1 ∷ [])) ≡ ok (some greeting, 1 ∷ []))
receive_frame-send_frame_example = receive_frame-send_frame greeting (1 ∷ []) greeting-IsFrame

abbrev some_bytes : Bytes
some_bytes = b'U' ∷ b'S' ∷ b'R' ∷ b'1' ∷ []

some_bytes-IsByte : All IsByte some_bytes
some_bytes-IsByte = (omega arith, (omega arith, (omega arith, (omega arith, tt))))

receive_frame_cases_example :
    ((some_bytes ≡ []) × (receive_frame some_bytes ≡ ok (none, [])))
    ⊎ (((f : Frame) × (rest : Bytes) × (bytes : Bytes) × (receive_frame some_bytes
            ≡ ok (some f, rest))
          × IsFrame f
          × (send_frame f ≡ ok bytes)
          × (some_bytes ≡ bytes ++ rest))
        ⊎ ((e : String) × (receive_frame some_bytes ≡ err e)))
receive_frame_cases_example = receive_frame_cases some_bytes some_bytes-IsByte

abbrev alice : UserRecord
alice = record { name = b'a' ∷ b'l' ∷ []; salt = replicate 16 1; verifier = replicate 32 2 }

abbrev bob : UserRecord
bob = record { name = b'b' ∷ b'o' ∷ b'b' ∷ []; salt = replicate 16 3; verifier = replicate 32 4 }

accounts-IsDatabase : IsDatabase (alice ∷ bob ∷ [])
unfolding valid_username all_of name_char is_alnum has_name bytes_eq
accounts-IsDatabase = record {
  all_users = (
    record { name_valid = refl; salt_size = refl; verifier_size = refl },
    (record { name_valid = refl; salt_size = refl; verifier_size = refl }, tt),
  );
  distinct = (refl, (refl, tt));
  count_fits = omega arith;
}

load_users-save_users_example :
    (file : Bytes) × (save_users (alice ∷ bob ∷ []) ≡ ok file)
    × (load_users (some file) ≡ ok (alice ∷ bob ∷ []))
load_users-save_users_example = load_users-save_users (alice ∷ bob ∷ []) accounts-IsDatabase

load_users_cases_example :
    ((users : List UserRecord) × (load_users (some some_bytes) ≡ ok users)
      × (IsDatabase users × (save_users users ≡ ok some_bytes)))
    ⊎ ((e : String) × (load_users (some some_bytes) ≡ err e))
load_users_cases_example = load_users_cases some_bytes some_bytes-IsByte

abbrev backup : RemoteBackupEntry
backup = record {
  id = replicate 32 b'a';
  name = b'd' ∷ b'o' ∷ b'c' ∷ [];
  timestamp = 1700000000;
  size = 5;
  digest = replicate 64 b'0';
}

backup-IsMeta : IsMeta backup
unfolding no_nul all_of is_xdigit
backup-IsMeta = record {
  name_fits = omega arith;
  name_clean = refl;
  timestamp_fits = omega arith;
  size_fits = omega arith;
  digest_size = refl;
  digest_hex = refl;
}

read_meta-write_meta_example : read_meta (write_meta backup) (replicate 32 b'a') ≡ ok backup
read_meta-write_meta_example = read_meta-write_meta backup backup-IsMeta

read_meta_cases_example :
    ((e : RemoteBackupEntry) × (read_meta some_bytes [] ≡ ok e)
      × ((e.id ≡ []) × IsMeta e × (some_bytes ≡ write_meta e)))
    ⊎ ((x : String) × (read_meta some_bytes [] ≡ err x))
read_meta_cases_example = read_meta_cases some_bytes [] some_bytes-IsByte
