-- ===== src/Network/Session/Uploads.antt =====
-- handleUpload and handleDownload of session.cpp, and listEntries of auth_store.cpp.
use backup_system.Base.{
  ℕ, zero, suc, ◌+◌, ◌-◌, ◌/◌, ◌%◌, min, Bool, true, false, ◌&&◌, Option, none, some, List, [], ◌∷◌,
  ◌++◌, map, length, take, drop, leb, ltb, ◌==◌, if◌then◌else◌, is_empty,
}
use backup_system.Base.Outcome.{Result, ok, err, out_of_fuel, ◌>>=◌, ◌>>◌, ensure}
use backup_system.Stream.{Bytes, bytes_eq, run}
use backup_system.Network.{Frame, chunk_size, put_u64, put_string}
use backup_system.Network.MessageType
use backup_system.Network.Messages.{upload_request, block_reference, one_string, list_payload}
use backup_system.Network.Accounts.{RemoteBackupEntry, valid_backup_id, read_meta, write_meta}
use backup_system.Network.Session.{
  Server, Connection, Step, Stored, Upload, reply, hex_digest, user_directory, put_at,
}
use backup_system.Sha256.{sha256}
use backup_system.Sha256.Ranges.{sha_file_range, to_end}

-- `std::sort` by the timestamp, the newest first; here entries of one time keep their order.
unfoldable pub insert_entry : RemoteBackupEntry → List RemoteBackupEntry → List RemoteBackupEntry
insert_entry e [] = e ∷ []
insert_entry e (x ∷ xs) =
    let rest = insert_entry e xs in if ltb x.timestamp e.timestamp then e ∷ x ∷ xs else x ∷ rest

unfoldable pub sort_entries : List RemoteBackupEntry → List RemoteBackupEntry
sort_entries [] = []
sort_entries (e ∷ es) = insert_entry e (sort_entries es)

-- The metadata of the backups of a directory, of which `count` are read so far. A file whose name is
-- no identifier is passed over.
unfoldable pub read_entries : ℕ → List Stored → Result (List RemoteBackupEntry)
read_entries count [] = ok []
read_entries count (b ∷ stored) =
    let skipped = read_entries count stored in
    let others = read_entries (count + 1) stored in
    elim (valid_backup_id b.id) [
      | true ↦ do
        ensure (ltb count 4096) "backup list exceeds protocol limit"
        e ← read_meta b.metadata b.id
        es ← others
        ok (e ∷ es)
      | false ↦ skipped
    ]

unfoldable pub list_entries : List Stored → Result (List RemoteBackupEntry)
list_entries stored = do entries ← read_entries 0 stored; ok (sort_entries entries)

-- The backup in a directory with an identifier.
unfoldable pub stored_with : Bytes → List Stored → Option Stored
stored_with id [] = none
stored_with id (b ∷ stored) =
    let rest = stored_with id stored in if bytes_eq b.id id then some b else rest

-- randomId until the directory has no such backup; the model gives up when no identifier is left.
unfoldable pub fresh_id : List Bytes → List Stored → Result Bytes
fresh_id [] stored = out_of_fuel
fresh_id (id ∷ ids) stored =
    let others = fresh_id ids stored in
    elim (stored_with id stored) [ none ↦ ok id | some _ ↦ others ]

unfoldable pub base_of : Option Stored → Result (Option Bytes)
base_of none = err "cannot read backup metadata"
base_of (some b) = do _ ← read_meta b.metadata b.id; ok (some b.archive)

unfoldable pub upload_base : Bool → Bytes → List Stored → Result (Option Bytes)
upload_base false id stored = ok none
upload_base true id stored = do
  ensure (valid_backup_id id) "invalid incremental base identifier"
  base_of (stored_with id stored)

unfoldable pub flush_hashes : Bytes → List Bytes
flush_hashes [] = []
flush_hashes (h ∷ hs) = (h ∷ hs) ∷ []

-- The loop over the blocks of the base; `hashes` are not sent yet.
unfoldable pub hash_loop : ℕ → Bytes → Bytes → List Bytes
hash_loop zero base hashes = flush_hashes hashes
hash_loop (suc blocks) [] hashes = flush_hashes hashes
hash_loop (suc blocks) (b ∷ bs) hashes =
    let rest = drop chunk_size (b ∷ bs) in
    let more = hashes ++ sha256 (take chunk_size (b ∷ bs)) in
    elim (length more == 4096) [
      | true ↦ more ∷ hash_loop blocks rest []
      | false ↦ hash_loop blocks rest more
    ]

unfoldable pub hash_blocks : ℕ → ℕ
hash_blocks size = min 1048576 (size / chunk_size + (if size % chunk_size == 0 then 0 else 1))

unfoldable pub base_frames : Frame → ℕ → Option Bytes → List Frame
base_frames frame size none = []
base_frames frame size (some base) =
    map (reply MessageType.upload_base_hashes frame) (hash_loop (hash_blocks size) base [])
    ++ (reply MessageType.upload_base_end frame [] ∷ [])

-- Up to the loop that receives frames.
unfoldable pub upload_start : Server → Connection → Frame → List Bytes → Result Step
upload_start s c frame ids = do
  let incremental = frame.kind == MessageType.upload_delta_start
  request ← run (upload_request incremental) frame.payload
  ensure (leb (length request.name) 256) "backup display name is too long"
  let stored = s.stores (user_directory c.authenticated_user)
  base ← upload_base incremental request.base_id stored
  id ← fresh_id ids stored
  ready ← put_string id
  ok (record {
    server = s;
    connection = record c {
      upload = some (record {
        request_id = frame.request_id;
        id = id;
        name = request.name;
        size = request.size;
        digest = request.digest;
        base = base;
        received = [];
      });
    };
    replies = reply MessageType.upload_ready frame ready ∷ base_frames frame request.size base;
  })

-- The bytes of the base that an UploadCopy names.
unfoldable pub copied_block : Upload → ℕ → ℕ → Option Bytes → Result Bytes
copied_block u offset count none = err "invalid incremental block reference"
copied_block u offset count (some base) = do
  ensure
      (ltb 0 count
        && leb count chunk_size
        && leb offset (length base)
        && leb count (length base - offset)
        && leb count (u.size - length u.received))
      "invalid incremental block reference"
  ok (take count (drop offset base))

-- The bytes that a frame adds.
unfoldable pub upload_data : Upload → Frame → Result Bytes
upload_data u frame = elim (frame.kind == MessageType.upload_copy) [
  | true ↦
      run block_reference frame.payload >>= λ (offset, count). copied_block u offset count u.base
  | false ↦
      ensure (frame.kind == MessageType.upload_chunk) "unexpected message during upload"
      >> ok frame.payload
]

unfoldable pub upload_more : Server → Connection → Upload → Frame → Result Step
upload_more s c u frame = do
  data_bytes ← upload_data u frame
  ensure (leb (length data_bytes) (u.size - length u.received)) "upload exceeds declared size"
  ok (record {
    server = s;
    connection = record c { upload = some (record u { received = u.received ++ data_bytes }) };
    replies = [];
  })

abbrev pub new_entry : Upload → ℕ → RemoteBackupEntry
new_entry u now = record {
  id = u.id;
  name = if is_empty u.name then u.id else u.name;
  timestamp = now;
  size = u.size;
  digest = hex_digest u.digest;
}

-- From UploadEnd on: the tests, and the publication under the lock.
unfoldable pub upload_finish : Server → Connection → Upload → Frame → ℕ → Result Step
upload_finish s c u frame now = do
  ensure (is_empty frame.payload) "upload end has trailing data"
  ensure (length u.received == u.size) "uploaded size does not match declaration"
  digest ← sha_file_range u.received 0 to_end
  ensure (bytes_eq digest u.digest) "uploaded SHA-256 does not match declaration"
  let directory = user_directory c.authenticated_user
  let stored = s.stores directory
  entries ← list_entries stored
  listing ← list_payload (entries ++ (new_entry u now ∷ []))
  result ← put_string u.id
  ok (record {
    server = record s {
      stores = put_at s.stores directory (
          stored
          ++ (record { id = u.id; metadata = write_meta (new_entry u now); archive = u.received }
              ∷ []));
    };
    connection = record c { upload = none };
    replies = reply MessageType.upload_result frame result ∷ [];
  })

-- One frame of the loop of handleUpload.
unfoldable pub upload_frame : Server → Connection → Upload → Frame → ℕ → Result Step
upload_frame s c u frame now = do
  ensure (frame.request_id == u.request_id) "upload request identifier changed"
  elim (frame.kind == MessageType.upload_end) [
    | true ↦ upload_finish s c u frame now
    | false ↦ upload_more s c u frame
  ]

-- The chunks of the archive that is sent; each has a byte at least.
unfoldable pub chunk_loop : ℕ → Bytes → List Bytes
chunk_loop zero archive = []
chunk_loop (suc fuel) [] = []
chunk_loop (suc fuel) (b ∷ bs) =
    take chunk_size (b ∷ bs) ∷ chunk_loop fuel (drop chunk_size (b ∷ bs))

unfoldable pub download_stored : Server → Connection → Frame → Option Stored → Result Step
download_stored s c frame none = err "backup was not found for this user"
download_stored s c frame (some b) = do
  entry ← read_meta b.metadata b.id
  digest ← sha_file_range b.archive 0 to_end
  ensure (bytes_eq (hex_digest digest) entry.digest) "stored backup checksum mismatch"
  ok (record {
    server = s;
    connection = c;
    replies =
        reply MessageType.download_start frame (put_u64 entry.size ++ digest)
        ∷ (map (reply MessageType.download_chunk frame) (chunk_loop (length b.archive) b.archive)
            ++ (reply MessageType.download_end frame [] ∷ []));
  })

unfoldable pub download : Server → Connection → Frame → Result Step
download s c frame = do
  id ← run one_string frame.payload
  ensure (valid_backup_id id) "invalid backup identifier"
  download_stored s c frame (stored_with id (s.stores (user_directory c.authenticated_user)))
