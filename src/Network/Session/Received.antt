-- ===== src/Network/Session/Received.antt =====
-- The frames of an upload, and what is stored when all have been received.
use backup_system.Base.{
  ℕ, ◌+◌, ◌-◌, ◌≤◌, ◌≡◌, refl, sym, ap, ap₂, ◌∙◌, true, none, some, List, [], ◌∷◌, ◌++◌,
  append_assoc, append-nil, map, length, length-append, leb, le→leb, ==_iff, arith,
}
use backup_system.Base.Outcome.{Result, ok, ◌>>=◌}
use backup_system.Stream.{Bytes, bytes_eq}
use backup_system.Stream.Equal.{bytes_eq_refl}
use backup_system.Network.{Frame, put_string}
use backup_system.Network.MessageType
use backup_system.Network.Messages.{list_payload}
use backup_system.Network.Accounts.{RemoteBackupEntry, write_meta}
use backup_system.Network.Session.{
  Server, Stored, Connection, Step, Upload, Chances, reply, user_directory, put_at,
}
use backup_system.Network.Session.Uploads.{
  upload_data, upload_more, upload_finish, upload_frame, list_entries, new_entry,
}
use backup_system.Network.Session.Dispatch.{handle_with, handle}
use backup_system.Sha256.{sha256}
use backup_system.Sha256.Ranges.{sha_file_range, to_end, sha_file_range-eq}

-- The frames of one connection, one after the other, with the clock of the last one.
unfoldable pub handle_all :
    Server → Connection → List Frame → Chances → Result (Server × Connection)
handle_all s c [] chances = ok (s, c)
handle_all s c (f ∷ frames) chances =
    handle s c f chances >>= λ step. handle_all step.server step.connection frames chances

abbrev pub concat : List Bytes → Bytes
concat [] = []
concat (x ∷ xs) = x ++ concat xs

handle_all-cons :
    (s : Server) (c : Connection) (f : Frame) (frames : List Frame) (chances : Chances)
    (step : Step)
    → handle s c f chances ≡ ok step
    → handle_all s c (f ∷ frames) chances ≡ handle_all step.server step.connection frames chances
unfolding handle_all
handle_all-cons s c f frames chances step e = rw e

abbrev pub chunk_frame : ℕ → Bytes → Frame
chunk_frame request chunk = record {
  kind = MessageType.upload_chunk;
  request_id = request;
  payload = chunk;
}

abbrev pub end_frame : ℕ → Frame
end_frame request = record { kind = MessageType.upload_end; request_id = request; payload = [] }

-- The frames of a client that sends these chunks.
abbrev pub upload_frames : ℕ → List Bytes → List Frame
upload_frames request chunks = map (chunk_frame request) chunks ++ (end_frame request ∷ [])

abbrev pub with_upload : Connection → Upload → Connection
with_upload c u = record c { upload = some u }

chunk_received :
    (s : Server) (c : Connection) (u : Upload) (chunk : Bytes) (chances : Chances)
    → length u.received + length chunk ≤ u.size
    → (step : Step) × (handle s (with_upload c u) (chunk_frame u.request_id chunk) chances
        ≡ ok step)
      × (step.server ≡ s)
      × (step.connection ≡ with_upload c (record u { received = u.received ++ chunk }))
unfolding handle handle_with upload_frame upload_more upload_data
chunk_received s c u chunk chances fits =
    let room : leb (length chunk) (u.size - length u.received) ≡ true =
      le→leb (length chunk) (u.size - length u.received) (omega arith) in
    (
      record {
        server = s;
        connection = with_upload c (record u { received = u.received ++ chunk });
        replies = [];
      },
      rw ((==_iff u.request_id u.request_id).1 refl, room),
      refl,
      refl,
    )

chunks_received :
    (s : Server) (c : Connection) (u : Upload) (chunks : List Bytes) (frames : List Frame)
    (chances : Chances)
    → length (u.received ++ concat chunks) ≤ u.size
    → handle_all s (with_upload c u) (map (chunk_frame u.request_id) chunks ++ frames) chances
      ≡ handle_all s
          (with_upload c (record u { received = u.received ++ concat chunks }))
          frames
          chances
chunks_received s c u [] frames chances fits =
    ap (λ t. handle_all s (with_upload c (record u { received = t })) frames chances)
      (sym (append-nil u.received))
chunks_received s c u (x ∷ xs) frames chances fits =
    let size = length-append u.received (x ++ concat xs) in
    let (step, e, es, ec) =
      chunk_received s c u x chances (omega (arith, length-append x (concat xs))) in
    let whole = append_assoc u.received x (concat xs) in
    handle_all-cons s (with_upload c u) (chunk_frame u.request_id x)
      (map (chunk_frame u.request_id) xs ++ frames) chances step e
    ∙ ap₂ (λ a b. handle_all a b (map (chunk_frame u.request_id) xs ++ frames) chances) es ec
    ∙ chunks_received s c (record u { received = u.received ++ x }) xs frames chances
        (rw whole fits)
    ∙ ap (λ t. handle_all s (with_upload c (record u { received = t })) frames chances) whole

pub whole_digest : (file : Bytes) → sha_file_range file 0 to_end ≡ ok (sha256 file)
whole_digest file = sha_file_range-eq file 0 to_end ∙ rw (le→leb 0 (length file) (omega arith)) refl

-- What is stored for an upload that received these bytes.
abbrev pub stored_upload : Upload → Bytes → ℕ → Stored
stored_upload u archive now = record {
  id = u.id;
  metadata = write_meta (new_entry (record u { received = archive }) now);
  archive = archive;
}

abbrev pub with_stored : Server → Bytes → Stored → Server
with_stored s user b =
    let directory = user_directory user in
    record s { stores = put_at s.stores directory (s.stores directory ++ (b ∷ [])) }

-- The answer to UploadEnd, when all has been received.
abbrev pub finishing : Server → Connection → Upload → ℕ → Bytes → Step
finishing s c u now result = record {
  server = with_stored s c.authenticated_user (stored_upload u u.received now);
  connection = record c { upload = none };
  replies = reply MessageType.upload_result (end_frame u.request_id) result ∷ [];
}

pub upload_finished :
    (s : Server) (c : Connection) (u : Upload) (chances : Chances)
    (entries : List RemoteBackupEntry) (listing result : Bytes)
    → length u.received ≡ u.size
    → u.digest ≡ sha256 u.received
    → list_entries (s.stores (user_directory c.authenticated_user)) ≡ ok entries
    → list_payload (entries ++ (new_entry u chances.now ∷ [])) ≡ ok listing
    → put_string u.id ≡ ok result
    → handle s (with_upload c u) (end_frame u.request_id) chances
      ≡ ok (finishing s c u chances.now result)
unfolding handle handle_with upload_frame upload_finish
upload_finished s c u chances entries listing result sized digested listed fits named =
    rw ((==_iff u.request_id u.request_id).1 refl, (==_iff (length u.received) u.size).1 sized)
      (rw (whole_digest u.received, right) (rw listed (rw (fits, named))))
  where
    right : bytes_eq (sha256 u.received) u.digest ≡ true
    right = rw digested (bytes_eq_refl (sha256 u.received))

finished_upload :
    (s : Server) (c : Connection) (u : Upload) (chances : Chances)
    (entries : List RemoteBackupEntry) (listing result : Bytes)
    → length u.received ≡ u.size
    → u.digest ≡ sha256 u.received
    → list_entries (s.stores (user_directory c.authenticated_user)) ≡ ok entries
    → list_payload (entries ++ (new_entry u chances.now ∷ [])) ≡ ok listing
    → put_string u.id ≡ ok result
    → handle_all s (with_upload c u) (end_frame u.request_id ∷ []) chances
      ≡ ok (
        with_stored s c.authenticated_user (stored_upload u u.received chances.now),
        record c { upload = none },
      )
unfolding handle_all
finished_upload s c u chances entries listing result sized digested listed fits named =
    handle_all-cons s (with_upload c u) (end_frame u.request_id) [] chances
      (finishing s c u chances.now result)
      (upload_finished s c u chances entries listing result sized digested listed fits named)

-- A client that sends an archive in chunks, of the size and the digest that it declared, has it stored
-- as it is, under the identifier of the upload, where the list of the user's backups still fits a frame.
pub upload_stores :
    (s : Server) (c : Connection) (u : Upload) (chunks : List Bytes) (chances : Chances)
    (entries : List RemoteBackupEntry) (listing result : Bytes)
    → u.received ≡ []
    → length (concat chunks) ≡ u.size
    → u.digest ≡ sha256 (concat chunks)
    → list_entries (s.stores (user_directory c.authenticated_user)) ≡ ok entries
    → list_payload (entries ++ (new_entry u chances.now ∷ [])) ≡ ok listing
    → put_string u.id ≡ ok result
    → handle_all s (with_upload c u) (upload_frames u.request_id chunks) chances
      ≡ ok (
        with_stored s c.authenticated_user (stored_upload u (concat chunks) chances.now),
        record c { upload = none },
      )
upload_stores s c u chunks chances entries listing result fresh sized digested listed fits named =
    let full = record u { received = u.received ++ concat chunks } in
    let all : u.received ++ concat chunks ≡ concat chunks = ap (λ t. t ++ concat chunks) fresh in
    chunks_received s c u chunks (end_frame u.request_id ∷ []) chances
      (omega (arith, ap (λ t. length t) all))
    ∙ finished_upload s c full chances entries listing result (ap (λ t. length t) all ∙ sized)
        (digested ∙ ap (λ t. sha256 t) (sym all)) listed fits named
    ∙ ap
        (λ t. ok (
          with_stored s c.authenticated_user (stored_upload u t chances.now),
          record c { upload = none },
        ))
        all
