-- ===== src/Tests/Sessions.antt =====
-- Examples of the theorems on the sessions of the server, network/session.cpp.
use backup_system.Base.{
  ◌≡◌, refl, inr, true, none, some, List, [], ◌∷◌, ◌++◌, length, replicate, ◌==◌, ==_iff, arith,
}
use backup_system.Base.Outcome.{ok, err}
use backup_system.Stream.{Bytes, bytes_eq, run, no_nul, at_end}
use backup_system.Stream.Equal.{bytes_eq_refl}
use backup_system.Network.{
  Frame, put_string, put_u16, put_u32, put_u64, put_word, get_string, get_u16, get_word, take_bytes,
  shift_in,
}
use backup_system.Network.MessageType
use backup_system.Network.Messages.{one_string, list_payload, entries_payload, entry_payload}
use backup_system.Network.Accounts.{
  UserRecord, load_users, save_users, proof_for, has_name, valid_username, all_of, name_char,
  is_alnum, valid_backup_id, is_xdigit,
}
use backup_system.Network.Accounts.Database.{IsUser, IsDatabase, load_users-save_users}
use backup_system.Network.Session.{
  Server, Stored, Connection, Step, Upload, Chances, new_connection, has_record, put_at, reply,
  login_proof, prove, acquire, no_value, hex_digest, hex_digit,
}
use backup_system.Network.Session.Uploads.{
  list_entries, read_entries, sort_entries, stored_with, new_entry,
}
use backup_system.Network.Session.Dispatch.{
  world, connects, here, further, handle, handle_with, dispatch,
}
use backup_system.Network.Session.Accounting.{count_keys}
use backup_system.Network.Session.Invariant.{IsOpen, IsWorld, starting}
use backup_system.Network.Session.Safety.{
  reachable-IsWorld, login_needs_proof, delete_in_use_refused,
}
use backup_system.Network.Session.Received.{handle_all, upload_frames, with_upload, finishing}
use backup_system.Network.Session.Transfer.{Sends, download-upload}
use backup_system.Engine.Stages.{length-sha256}
use backup_system.Sha256.{
  sha256, finish, update, update_loop, absorb_part, transform, rounds, round, schedule, load_words,
  round_constants, majority, choose, rotr, add32, store_length, word_digest, digest, close_block,
}

abbrev no_backups : Bytes → List Stored
no_backups directory = []

abbrev no_accounts : Server
no_accounts = record { users_file = none; active = λ _. 0; stores = no_backups }

empty-IsDatabase : IsDatabase []
empty-IsDatabase = record { all_users = tt; distinct = tt; count_fits = omega arith }

no_file-loads : load_users none ≡ ok []
unfolding load_users
no_file-loads = refl

reachable-IsWorld_example : IsWorld (world no_accounts (new_connection ∷ []))
reachable-IsWorld_example =
    reachable-IsWorld none no_backups [] (world no_accounts (new_connection ∷ [])) no_file-loads
      empty-IsDatabase (further (here (starting none no_backups)) (connects no_accounts []))

abbrev chances : Chances
chances = record { nonce = replicate 16 5; ids = []; now = 1700000000 }

abbrev carol : UserRecord
carol = record { name = b'c' ∷ b'a' ∷ []; salt = replicate 16 1; verifier = replicate 32 2 }

carol-IsUser : IsUser carol
unfolding valid_username all_of name_char is_alnum
carol-IsUser = record { name_valid = refl; salt_size = refl; verifier_size = refl }

carol-IsDatabase : IsDatabase (carol ∷ [])
unfolding has_name
carol-IsDatabase = record {
  all_users = (carol-IsUser, tt);
  distinct = (refl, tt);
  count_fits = omega arith;
}

abbrev holder : Connection
holder = record new_connection { authenticated_user = carol.name; key = some carol.name }

carol_file :
    (file : Bytes) × (save_users (carol ∷ []) ≡ ok file)
    × (load_users (some file) ≡ ok (carol ∷ []))
carol_file = load_users-save_users (carol ∷ []) carol-IsDatabase

abbrev busy_server : Server
busy_server = record {
  users_file = some carol_file.0;
  active = λ name. count_keys name (holder ∷ holder ∷ []);
  stores = no_backups;
}

holder-IsOpen : IsOpen (carol ∷ []) holder
unfolding has_name bytes_eq
holder-IsOpen = record {
  session = inr (refl, refl, refl);
  challenged = λ u e. absurd (cc);
  uploading = λ u e. absurd (cc);
}

busy-IsWorld : IsWorld (world busy_server (holder ∷ holder ∷ []))
busy-IsWorld = record {
  users = carol ∷ [];
  loaded = carol_file.2;
  database = carol-IsDatabase;
  sessions = ((λ _. holder-IsOpen), ((λ _. holder-IsOpen), tt));
  counted = λ name. refl;
}

abbrev delete_frame : Frame
delete_frame = record { kind = MessageType.delete_account_request; request_id = 2; payload = [] }

delete_in_use_refused_example : handle busy_server holder delete_frame chances ≡ err "账户正在使用，请稍后重试"
delete_in_use_refused_example =
    delete_in_use_refused busy_server [] (holder ∷ []) holder [] [] holder delete_frame chances
      carol.name busy-IsWorld refl refl refl refl refl refl refl

abbrev login_server : Server
login_server = record { users_file = some carol_file.0; active = λ _. 0; stores = no_backups }

abbrev challenged_connection : Connection
challenged_connection = record new_connection {
  pending_user = some carol;
  pending_nonce = replicate 16 5;
  challenge_request = 3;
}

abbrev proof_frame : Frame
proof_frame = record {
  kind = MessageType.login_proof;
  request_id = 3;
  payload = proof_for carol.verifier (replicate 16 5);
}

abbrev logged_in : Step
logged_in = record {
  server = record login_server { active = put_at (λ _. 0) carol.name 1 };
  connection = record challenged_connection {
    authenticated_user = carol.name;
    key = some carol.name;
    pending_user = none;
    pending_nonce = [];
  };
  replies = reply MessageType.login_response proof_frame (0 ∷ []) ∷ [];
}

carol_known : has_record carol (carol ∷ []) ≡ true
unfolding has_record bytes_eq
carol_known = refl

proof_sized : (length (proof_for carol.verifier (replicate 16 5)) == 32) ≡ true
unfolding proof_for
proof_sized = (==_iff _ 32).1 (length-sha256 _)

logs_in : handle login_server challenged_connection proof_frame chances ≡ ok logged_in
unfolding handle handle_with dispatch login_proof prove acquire no_value
logs_in =
    rw (proof_sized, bytes_eq_refl (proof_for carol.verifier (replicate 16 5)))
      (rw (carol_file.2, carol_known) refl)

login_needs_proof_example :
    (u : UserRecord) × (some carol ≡ some u)
    × (u.name ≡ carol.name)
    × (proof_frame.kind ≡ MessageType.login_proof)
    × ((before : List UserRecord) × (after : List UserRecord) × ((carol ∷ [])
          ≡ before ++ u ∷ after))
    × (proof_frame.request_id ≡ challenged_connection.challenge_request)
    × (proof_for carol.verifier (replicate 16 5) ≡ proof_for u.verifier (replicate 16 5))
login_needs_proof_example =
    login_needs_proof (carol ∷ []) login_server challenged_connection proof_frame chances logged_in
      carol.name (λ u e. absurd (cc)) carol_file.2 logs_in refl refl

abbrev uploader : Connection
uploader = record new_connection { authenticated_user = carol.name; key = some carol.name }

abbrev pending_upload : Upload
pending_upload = record {
  request_id = 4;
  id = replicate 32 b'a';
  name = b'd' ∷ b'o' ∷ b'c' ∷ [];
  size = 3;
  digest = sha256 (1 ∷ 2 ∷ 3 ∷ []);
  base = none;
  received = [];
}

abbrev request_frame : Frame
request_frame = record {
  kind = MessageType.download_request;
  request_id = 5;
  payload = 0 ∷ 32 ∷ replicate 32 b'a';
}

abc_id-valid : valid_backup_id (replicate 32 b'a') ≡ true
unfolding valid_backup_id all_of is_xdigit
abc_id-valid = refl

none_listed : list_entries [] ≡ ok []
unfolding list_entries read_entries sort_entries
none_listed = refl

not_stored : stored_with (replicate 32 b'a') [] ≡ none
unfolding stored_with
not_stored = refl

id_put : put_string (replicate 32 b'a') ≡ ok (0 ∷ 32 ∷ replicate 32 b'a')
unfolding put_string put_u16 put_word
id_put = refl

id_asked : run one_string (0 ∷ 32 ∷ replicate 32 b'a') ≡ ok (replicate 32 b'a')
unfolding one_string get_string get_u16 get_word take_bytes shift_in no_nul at_end
id_asked = refl

name_clean : no_nul pending_upload.name ≡ true
unfolding no_nul
name_clean = refl

listed : (listing : Bytes) × (list_payload (new_entry pending_upload 1700000000 ∷ []) ≡ ok listing)
unfolding list_payload entries_payload entry_payload put_string put_u16 put_u32 put_u64 put_word
    hex_digest hex_digit sha256 finish update update_loop absorb_part transform rounds round
    schedule load_words round_constants majority choose rotr add32 store_length word_digest digest
    close_block
listed = (_, refl)

abbrev filled_upload : Upload
filled_upload = record pending_upload { received = 1 ∷ 2 ∷ 3 ∷ [] }

abbrev filled : Connection
filled = with_upload uploader filled_upload

abbrev one_session : Server
one_session = record {
  users_file = some carol_file.0;
  active = λ name. count_keys name (filled ∷ []);
  stores = no_backups;
}

abbrev finished_step : Step
finished_step = finishing one_session uploader filled_upload 1700000000 (0 ∷ 32 ∷ replicate 32 b'a')

abbrev one_backup : Bytes → List Stored
one_backup directory = record { id = replicate 32 b'a'; metadata = 1 ∷ []; archive = 2 ∷ [] } ∷ []

abbrev with_backup : Server
with_backup = record { users_file = none; active = λ _. 0; stores = one_backup }

download-upload_example :
    (s' : Server) × (c' : Connection) × (step : Step) × (handle_all login_server
        (with_upload uploader pending_upload)
        (upload_frames 4 ((1 ∷ 2 ∷ []) ∷ (3 ∷ []) ∷ []))
        chances
      ≡ ok (s', c'))
    × (handle s' c' request_frame chances ≡ ok step)
    × Sends request_frame (1 ∷ 2 ∷ 3 ∷ []) step.replies
download-upload_example =
    download-upload login_server uploader pending_upload ((1 ∷ 2 ∷ []) ∷ (3 ∷ []) ∷ [])
      request_frame chances [] listed.0 (0 ∷ 32 ∷ replicate 32 b'a') refl refl refl refl
      (omega arith, name_clean) (omega arith, omega arith) abc_id-valid not_stored none_listed
      listed.1 id_put refl id_asked
