-- ===== src/Network/Session/Transfer.antt =====
-- The download of a backup, and of what an upload stored.
use backup_system.Base.{
  ℕ, zero, suc, ◌^◌, ◌≤◌, ◌<◌, ◌≡◌, refl, sym, ap, ◌∙◌, true, false, inl, inr, none, some, List, [],
  ◌∷◌, ◌++◌, map, length, length-drop, length-take, take, drop, take-append-drop, is_empty, All,
  arith,
}
use backup_system.Base.Outcome.{ok}
use backup_system.Stream.{Bytes, bytes_eq, no_nul, run}
use backup_system.Stream.Equal.{bytes_eq_refl, bytes_eq_cases}
use backup_system.Network.{Frame, chunk_size, put_u64, put_string}
use backup_system.Network.MessageType
use backup_system.Network.Messages.{one_string, list_payload}
use backup_system.Network.Accounts.{RemoteBackupEntry, valid_backup_id, read_meta}
use backup_system.Network.Session.{
  Server, Stored, Connection, Step, Upload, Chances, reply, user_directory, put_at, hex_digest,
}
use backup_system.Network.Session.Uploads.{
  list_entries, new_entry, chunk_loop, stored_with, download, download_stored,
}
use backup_system.Network.Session.Metadata.{new_entry-read}
use backup_system.Network.Session.Dispatch.{command, dispatch, handle_with, handle}
use backup_system.Sha256.{sha256}
use backup_system.Network.Session.Received.{
  handle_all, concat, upload_frames, with_upload, whole_digest, stored_upload, with_stored,
  upload_stores,
}

-- The chunks of a download.
chunk_loop-concat :
    (fuel : ℕ) (archive : Bytes)
    → length archive ≤ fuel
    → (concat (chunk_loop fuel archive) ≡ archive)
      × All (λ chunk. length chunk ≤ chunk_size) (chunk_loop fuel archive)
unfolding chunk_loop
chunk_loop-concat zero [] h = (refl, tt)
chunk_loop-concat zero (b ∷ bs) h = absurd (omega arith)
chunk_loop-concat (suc fuel) [] h = (refl, tt)
chunk_loop-concat (suc fuel) (b ∷ bs) h =
    let rest = drop chunk_size (b ∷ bs) in
    let (joined, small) =
      chunk_loop-concat fuel rest (omega (arith, length-drop chunk_size (b ∷ bs))) in
    (
      ap (λ t. take chunk_size (b ∷ bs) ++ t) joined ∙ take-append-drop chunk_size (b ∷ bs),
      (omega (arith, length-take chunk_size (b ∷ bs)), small),
    )

-- A backup whose digest is right is sent back in chunks that make up its archive.
pub download_stored-eq :
    (s : Server) (c : Connection) (frame : Frame) (b : Stored) (e : RemoteBackupEntry)
    → read_meta b.metadata b.id ≡ ok e
    → e.digest ≡ hex_digest (sha256 b.archive)
    → (step : Step) × (chunks : List Bytes) × (download_stored s c frame (some b) ≡ ok step)
      × (step.replies
          ≡ reply MessageType.download_start frame (put_u64 e.size ++ sha256 b.archive)
            ∷ (map (reply MessageType.download_chunk frame) chunks
                ++ (reply MessageType.download_end frame [] ∷ [])))
      × (concat chunks ≡ b.archive)
      × All (λ chunk. length chunk ≤ chunk_size) chunks
unfolding download_stored
download_stored-eq s c frame b e readable digested =
    let (joined, small) = chunk_loop-concat (length b.archive) b.archive (omega arith) in
    (
      record { server = s; connection = c; replies = _ },
      chunk_loop (length b.archive) b.archive,
      rw (readable, whole_digest b.archive) (rw right),
      refl,
      joined,
      small,
    )
  where
    right : bytes_eq (hex_digest (sha256 b.archive)) e.digest ≡ true
    right = rw digested (bytes_eq_refl (hex_digest (sha256 b.archive)))

stored_with-last :
    (stored : List Stored) (b : Stored)
    → stored_with b.id stored ≡ none
    → stored_with b.id (stored ++ (b ∷ [])) ≡ some b
unfolding stored_with
stored_with-last [] b h = rw (bytes_eq_refl b.id)
stored_with-last (x ∷ xs) b h = elim (bytes_eq_cases x.id b.id) [
  | inl same ↦ let seen = rw same at h in let found = rw (bytes_eq_refl b.id) at seen in absurd (cc)
  | inr (_, differ) ↦ rw differ (stored_with-last xs b (rw differ at h))
]

-- The answer to a DownloadRequest, in chunks that make up the archive.
abbrev pub Sends : Frame → Bytes → List Frame → Type 0
Sends frame archive replies =
    (chunks : List Bytes) × (replies
      ≡ reply MessageType.download_start frame (put_u64 (length archive) ++ sha256 archive)
        ∷ (map (reply MessageType.download_chunk frame) chunks
            ++ (reply MessageType.download_end frame [] ∷ [])))
    × (concat chunks ≡ archive)
    × All (λ chunk. length chunk ≤ chunk_size) chunks

download-stored :
    (s : Server) (c : Connection) (frame : Frame) (chances : Chances) (b : Stored)
    (e : RemoteBackupEntry)
    → is_empty c.authenticated_user ≡ false
    → stored_with b.id (s.stores (user_directory c.authenticated_user)) ≡ none
    → valid_backup_id b.id ≡ true
    → read_meta b.metadata b.id ≡ ok e
    → e.digest ≡ hex_digest (sha256 b.archive)
    → e.size ≡ length b.archive
    → frame.kind ≡ MessageType.download_request
    → run one_string frame.payload ≡ ok b.id
    → (step : Step) × (handle
          (with_stored s c.authenticated_user b)
          (record c { upload = none })
          frame
          chances
        ≡ ok step)
      × Sends frame b.archive step.replies
unfolding handle handle_with dispatch command download put_at
download-stored s c frame chances b e known absent valid readable digested sized kind asked =
    let directory = user_directory c.authenticated_user in
    let s' = with_stored s c.authenticated_user b in
    let c' = record c { upload = none } in
    let (step, chunks, sends, replies, joined, small) =
      download_stored-eq s' c' frame b e readable digested in
    (
      step,
      simp
          (
            kind,
            known,
            asked,
            valid,
            bytes_eq_refl directory,
            stored_with-last (s.stores directory) b absent,
          )
          sends,
      (chunks, rw (← sized) replies, joined, small),
    )

-- A backup that a client uploads in chunks, of the size and digest that it declared and under an
-- identifier that is new and valid, is what the same user then downloads, chunk by chunk: its metadata
-- is written to a file and read back. The name has at most 256 bytes and none that is 0, the size and
-- the time fit 64 bits, and the list of the user's backups still fits a frame.
pub download-upload :
    (s : Server) (c : Connection) (u : Upload) (chunks : List Bytes) (frame : Frame)
    (chances : Chances) (entries : List RemoteBackupEntry) (listing result : Bytes)
    → is_empty c.authenticated_user ≡ false
    → u.received ≡ []
    → length (concat chunks) ≡ u.size
    → u.digest ≡ sha256 (concat chunks)
    → (length u.name ≤ 256) × (no_nul u.name ≡ true)
    → (u.size < 2 ^ 64) × (chances.now < 2 ^ 64)
    → valid_backup_id u.id ≡ true
    → stored_with u.id (s.stores (user_directory c.authenticated_user)) ≡ none
    → list_entries (s.stores (user_directory c.authenticated_user)) ≡ ok entries
    → list_payload (entries ++ (new_entry u chances.now ∷ [])) ≡ ok listing
    → put_string u.id ≡ ok result
    → frame.kind ≡ MessageType.download_request
    → run one_string frame.payload ≡ ok u.id
    → (s' : Server) × (c' : Connection) × (step : Step) × (handle_all s
          (with_upload c u)
          (upload_frames u.request_id chunks)
          chances
        ≡ ok (s', c'))
      × (handle s' c' frame chances ≡ ok step)
      × Sends frame (concat chunks) step.replies
download-upload s c u chunks frame chances entries listing result known fresh sized digested
      named_well fits_word valid absent listed fits named kind asked =
    let b = stored_upload u (concat chunks) chances.now in
    let e = new_entry (record u { received = concat chunks }) chances.now in
    let readable : read_meta b.metadata b.id ≡ ok e =
      new_entry-read (record u { received = concat chunks }) chances.now (concat chunks) named_well
        fits_word valid digested in
    let (step, handles, sends) =
      download-stored s c frame chances b e known absent valid readable
        (ap (λ t. hex_digest t) digested) (sym sized) kind asked in
    (
      with_stored s c.authenticated_user b,
      record c { upload = none },
      step,
      upload_stores s c u chunks chances entries listing result fresh sized digested listed fits
          named,
      handles,
      sends,
    )
