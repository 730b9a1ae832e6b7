-- ===== src/Network/Messages.antt =====
-- The payloads of the requests and of the answers in DataBackup/network/session.cpp.
use backup_system.Base.{ℕ, Bool, List, [], ◌∷◌, ◌++◌, length, leb, if◌then◌else◌}
use backup_system.Base.Outcome
use backup_system.Base.Outcome.{Result, ok, err}
use backup_system.Stream.{Bytes, Reader, ◌>>=◌, ◌>>◌, pure}
use backup_system.Network.{
  max_payload, put_u32, put_u64, put_string, get_bytes, get_u32, get_u64, get_string, message_end,
}
use backup_system.Network.Accounts.{RemoteBackupEntry}

-- The name, the salt and the verifier of a RegisterRequest.
unfoldable pub registration : Reader (Bytes × Bytes × Bytes)
registration = do
  name ← get_string
  salt ← get_bytes 16
  verifier ← get_bytes 32
  message_end
  pure (name, salt, verifier)

-- One string: the name of a LoginStart, the identifier of a DownloadRequest.
unfoldable pub one_string : Reader Bytes
one_string = do value ← get_string; message_end; pure value

pub record UploadRequest : Type 0 where
  pub name : Bytes
  pub size : ℕ
  pub digest : Bytes
  pub base_id : Bytes

-- UploadStart, and UploadDeltaStart with the identifier of the base.
unfoldable pub upload_request : Bool → Reader UploadRequest
upload_request incremental = do
  name ← get_string
  size ← get_u64
  digest ← get_bytes 32
  base_id ← if incremental then get_string else pure []
  message_end
  pure (record { name = name; size = size; digest = digest; base_id = base_id })

-- The offset and the count of an UploadCopy.
unfoldable pub block_reference : Reader (ℕ × ℕ)
block_reference = do offset ← get_u64; count ← get_u32; message_end; pure (offset, count)

unfoldable pub entry_payload : RemoteBackupEntry → Result Bytes
entry_payload e = Outcome.◌>>=◌ (put_string e.id) λ id. Outcome.◌>>=◌ (put_string e.name) λ name.
    Outcome.◌>>=◌ (put_string e.digest)
      λ digest. ok (id ++ (name ++ (put_u64 e.timestamp ++ (put_u64 e.size ++ digest))))

-- The loop of listPayload; `payload` is what is written so far.
unfoldable pub entries_payload : Bytes → List RemoteBackupEntry → Result Bytes
entries_payload payload [] = ok payload
entries_payload payload (e ∷ entries) = Outcome.◌>>=◌ (entry_payload e) λ bytes.
    Outcome.◌>>◌
      (Outcome.ensure (leb (length (payload ++ bytes)) max_payload)
        "backup list exceeds frame size limit")
      (entries_payload (payload ++ bytes) entries)

unfoldable pub list_payload : List RemoteBackupEntry → Result Bytes
list_payload entries =
    Outcome.◌>>◌ (Outcome.ensure (leb (length entries) 4096) "backup list exceeds protocol limit")
      (entries_payload (put_u32 (length entries)) entries)
