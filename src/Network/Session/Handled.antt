-- ===== src/Network/Session/Handled.antt =====
-- The effect of a frame that is handled without an error, whatever it is.
use backup_system.Base.{
  ==_iff, ℕ, ◌-◌, ◌≤◌, ◌≡◌, refl, sym, ap, ◌∙◌, subst, true, false, Bool-cases, ◌||◌, ◌⊎◌, inl, inr,
  Option, none, some, List, [], ◌∷◌, ◌++◌, length, length-append, leb, leb→le, ◌==◌, is_empty,
  arith,
}
use backup_system.Base.Outcome.{ok, err, bind-eq-ok, ensure-eq-ok, ok-injective}
use backup_system.Stream.{Bytes, bytes_eq, run}
use backup_system.Stream.Equal.{bytes_eq_refl, bytes_eq_cases}
use backup_system.Network.{Frame, put_string, message_end}
use backup_system.Network.MessageType
use backup_system.Network.Messages.{upload_request, one_string, list_payload}
use backup_system.Network.Accounts.{UserRecord, valid_backup_id, load_users, read_meta, write_meta}
use backup_system.Network.Session.{
  put_at, Server, Connection, Step, Stored, Upload, Chances, user_directory, hex_digest,
}
use backup_system.Network.Session.Uploads.{
  upload_start, upload_base, fresh_id, upload_data, upload_more, upload_finish, upload_frame,
  download, download_stored, stored_with, list_entries, new_entry,
}
use backup_system.Network.Session.Dispatch.{list_request, command, dispatch, handle_with, handle}
use backup_system.Network.Session.Effects.{
  Effect, Grows, quiet, Quiet, register-Effect, login_start-Effect, login_proof-Effect,
  delete_request-Effect,
}
use backup_system.Sha256.Ranges.{sha_file_range, to_end}

pub some_injective {ℓ} : {A : Type ℓ} {a b : A} → some a ≡ some b → a ≡ b
some_injective h = cc

-- The connection is as before, or its upload is over.
answered :
    (users : List UserRecord) (s : Server) (c : Connection) (step : Step)
    → step.server.users_file ≡ s.users_file
    → step.server.active ≡ s.active
    → Grows s c step
    → (step.connection ≡ c) ⊎ (step.connection ≡ record c { upload = none })
    → Quiet users s c step
answered users s c step file active grows (inl e) = record {
  same_file = file;
  same_active = active;
  grows = grows;
  same_key = ap (λ t. t.key) e;
  same_user = ap (λ t. t.authenticated_user) e;
  same_end = ap (λ t. t.finished) e;
  challenged = λ u e'. inl (ap (λ t. t.pending_user) (sym e) ∙ e');
  uploading = λ u e'. inl (ap (λ t. t.upload) (sym e) ∙ e');
}
answered users s c step file active grows (inr e) = record {
  same_file = file;
  same_active = active;
  grows = grows;
  same_key = ap (λ t. t.key) e;
  same_user = ap (λ t. t.authenticated_user) e;
  same_end = ap (λ t. t.finished) e;
  challenged = λ u e'. inl (ap (λ t. t.pending_user) (sym e) ∙ e');
  uploading = λ u e'. let gone : none ≡ some u = ap (λ t. t.upload) (sym e) ∙ e' in absurd (cc);
}

-- A backup at the end of the directory of the user.
put_at-Grows :
    (s : Server) (c : Connection) (b : Stored) (directory : Bytes)
    → (let own = user_directory c.authenticated_user in
        let stores = put_at s.stores own (s.stores own ++ (b ∷ [])) in
        (stores directory ≡ s.stores directory)
        ⊎ ((directory ≡ own)
            × ((b' : Stored) × (stores directory ≡ s.stores directory ++ (b' ∷ [])))))
unfolding put_at
put_at-Grows s c b directory =
    let own = user_directory c.authenticated_user in
    elim (bytes_eq_cases own directory) [
      | inl same ↦
          let found : bytes_eq own directory ≡ true = rw same (bytes_eq_refl directory) in
          inr (sym same, (b, rw found (ap (λ t. s.stores t ++ (b ∷ [])) same)))
      | inr (_, other) ↦ inl (rw other refl)
    ]

module _ (users : List UserRecord) (s : Server) (c : Connection) (frame : Frame) where
  download_stored-Quiet :
      (o : Option Stored) (step : Step)
      → download_stored s c frame o ≡ ok step
      → Quiet users s c step
  unfolding download_stored
  download_stored-Quiet none step h = absurd (cc)
  download_stored-Quiet (some b) step h =
      let (entry, _, h0) = bind-eq-ok (read_meta b.metadata b.id) h in
      let (digest, _, h1) = bind-eq-ok (sha_file_range b.archive 0 to_end) h0 in
      let (_, h2) = ensure-eq-ok (bytes_eq (hex_digest digest) entry.digest) _ h1 in
      subst (λ t. Quiet users s c t) (ok-injective h2)
        (answered users s c _ refl refl (λ directory. inl refl) (inl refl))

  download-Quiet : (step : Step) → download s c frame ≡ ok step → Quiet users s c step
  unfolding download
  download-Quiet step h =
      let (id, _, h1) = bind-eq-ok (run one_string frame.payload) h in
      let (_, h2) = ensure-eq-ok (valid_backup_id id) _ h1 in
      download_stored-Quiet (stored_with id (s.stores (user_directory c.authenticated_user))) step
        h2

  list_request-Quiet : (step : Step) → list_request s c frame ≡ ok step → Quiet users s c step
  unfolding list_request
  list_request-Quiet step h =
      let (_, _, h1) = bind-eq-ok (run message_end frame.payload) h in
      let (entries, _, h2) =
        bind-eq-ok (list_entries (s.stores (user_directory c.authenticated_user))) h1 in
      let (payload, _, h3) = bind-eq-ok (list_payload entries) h2 in
      subst (λ t. Quiet users s c t) (ok-injective h3)
        (answered users s c _ refl refl (λ directory. inl refl) (inl refl))

  upload_finish-Quiet :
      (u : Upload) (now : ℕ) (step : Step)
      → upload_finish s c u frame now ≡ ok step
      → Quiet users s c step
  unfolding upload_finish
  upload_finish-Quiet u now step h =
      let stored = s.stores (user_directory c.authenticated_user) in
      let (_, h1) = ensure-eq-ok (is_empty frame.payload) _ h in
      let (_, h2) = ensure-eq-ok (length u.received == u.size) _ h1 in
      let (digest, _, h3) = bind-eq-ok (sha_file_range u.received 0 to_end) h2 in
      let (_, h4) = ensure-eq-ok (bytes_eq digest u.digest) _ h3 in
      let (entries, _, h5) = bind-eq-ok (list_entries stored) h4 in
      let (_, _, h6) = bind-eq-ok (list_payload (entries ++ (new_entry u now ∷ []))) h5 in
      let (_, _, h7) = bind-eq-ok (put_string u.id) h6 in
      subst (λ t. Quiet users s c t) (ok-injective h7)
        (answered users s c _ refl refl
          (put_at-Grows s c
            (record { id = u.id; metadata = write_meta (new_entry u now); archive = u.received }))
          (inr refl))

  module _ (known : is_empty c.authenticated_user ≡ false) where
    received_more :
        (u : Upload) (step : Step)
        → step.server ≡ s
        → step.connection ≡ record c { upload = some u }
        → length u.received ≤ u.size
        → Quiet users s c step
    received_more u step e e' fits = record {
      same_file = ap (λ t. t.users_file) e;
      grows = λ directory. inl (ap (λ t. t.stores directory) e);
      same_active = ap (λ t. t.active) e;
      same_key = ap (λ t. t.key) e';
      same_user = ap (λ t. t.authenticated_user) e';
      same_end = ap (λ t. t.finished) e';
      challenged = λ u' e''. inl (ap (λ t. t.pending_user) (sym e') ∙ e'');
      uploading = λ u' e''.
          let same : some u ≡ some u' = ap (λ t. t.upload) (sym e') ∙ e'' in
          inr (subst (λ t. length t.received ≤ t.size) (some_injective same) fits, known);
    }

    upload_more-Quiet :
        (u : Upload) (step : Step)
        → length u.received ≤ u.size
        → upload_more s c u frame ≡ ok step
        → Quiet users s c step
    unfolding upload_more
    upload_more-Quiet u step fits h =
        let (data_bytes, _, h1) = bind-eq-ok (upload_data u frame) h in
        let (small, h2) =
          ensure-eq-ok (leb (length data_bytes) (u.size - length u.received)) _ h1 in
        received_more (record u { received = u.received ++ data_bytes }) step
          (ap (λ t. t.server) (sym (ok-injective h2)))
          (ap (λ t. t.connection) (sym (ok-injective h2)))
          (omega (
            arith,
            length-append u.received data_bytes,
            leb→le (length data_bytes) (u.size - length u.received) small,
          ))

    upload_frame-Quiet :
        (u : Upload) (now : ℕ) (step : Step)
        → length u.received ≤ u.size
        → upload_frame s c u frame now ≡ ok step
        → Quiet users s c step
    unfolding upload_frame
    upload_frame-Quiet u now step fits h =
        let (_, h1) = ensure-eq-ok (frame.request_id == u.request_id) _ h in
        elim (Bool-cases (frame.kind == MessageType.upload_end)) [
          | inl end ↦ upload_finish-Quiet u now step (rw end at h1)
          | inr more ↦ upload_more-Quiet u step fits (rw more at h1)
        ]

    upload_start-Quiet :
        (ids : List Bytes) (step : Step)
        → upload_start s c frame ids ≡ ok step
        → Quiet users s c step
    unfolding upload_start
    upload_start-Quiet ids step h =
        let incremental = frame.kind == MessageType.upload_delta_start in
        let stored = s.stores (user_directory c.authenticated_user) in
        let (request, _, h1) = bind-eq-ok (run (upload_request incremental) frame.payload) h in
        let (_, h2) = ensure-eq-ok (leb (length request.name) 256) _ h1 in
        let (base, _, h3) = bind-eq-ok (upload_base incremental request.base_id stored) h2 in
        let (id, _, h4) = bind-eq-ok (fresh_id ids stored) h3 in
        let (ready, _, h5) = bind-eq-ok (put_string id) h4 in
        received_more _ step (ap (λ t. t.server) (sym (ok-injective h5)))
          (ap (λ t. t.connection) (sym (ok-injective h5))) (omega arith)

    command-Effect :
        (chances : Chances) (step : Step)
        → load_users s.users_file ≡ ok users
        → command s c frame chances ≡ ok step
        → Effect users s c frame step
    unfolding command
    command-Effect chances step loaded h =
        elim (Bool-cases (
          frame.kind == MessageType.upload_start || frame.kind == MessageType.upload_delta_start)) [
            | inl starts ↦ quiet (upload_start-Quiet chances.ids step (rw starts at h))
            | inr more ↦
                let h1 = rw more at h in
                elim (Bool-cases (frame.kind == MessageType.list_request)) [
                  | inl lists ↦ quiet (list_request-Quiet step (rw lists at h1))
                  | inr more ↦
                      let h2 = rw more at h1 in
                      elim (Bool-cases (frame.kind == MessageType.download_request)) [
                        | inl sends ↦ quiet (download-Quiet step (rw sends at h2))
                        | inr more ↦
                            let h3 = rw more at h2 in
                            elim (Bool-cases (frame.kind == MessageType.delete_account_request)) [
                              | inl deletes ↦
                                  delete_request-Effect users s c frame loaded step
                                    (rw deletes at h3)
                              | inr more ↦
                                  let refused : err "unsupported network command" ≡ ok step =
                                    rw more at h3 in
                                  absurd (cc)
                            ]
                      ]
                ]
          ]

  dispatch-Effect :
      (chances : Chances) (step : Step)
      → load_users s.users_file ≡ ok users
      → dispatch s c frame chances ≡ ok step
      → Effect users s c frame step
  unfolding dispatch
  dispatch-Effect chances step loaded h =
      elim (Bool-cases (frame.kind == MessageType.register_request)) [
        | inl registers ↦ register-Effect users s c frame loaded step (rw registers at h)
        | inr more ↦
            let h1 = rw more at h in
            elim (Bool-cases (frame.kind == MessageType.login_start)) [
              | inl starts ↦
                  login_start-Effect users s c frame loaded chances.nonce step (rw starts at h1)
              | inr more ↦
                  let h2 = rw more at h1 in
                  elim (Bool-cases (frame.kind == MessageType.login_proof)) [
                    | inl proves ↦
                        login_proof-Effect users s c frame loaded step
                          ((==_iff frame.kind MessageType.login_proof).0 proves) (rw proves at h2)
                    | inr more ↦
                        let h3 = rw more at h2 in
                        elim (Bool-cases (is_empty c.authenticated_user)) [
                          | inl unknown ↦
                              let refused : err "authentication is required" ≡ ok step =
                                rw unknown at h3 in
                              absurd (cc)
                          | inr known ↦ command-Effect known chances step loaded (rw known at h3)
                        ]
                  ]
            ]
      ]

-- An upload that is under way belongs to an authenticated user and has received no more than its size.
abbrev pub UploadFits : Connection → Type 0
UploadFits c =
    (u : Upload)
    → c.upload ≡ some u
    → (length u.received ≤ u.size) × (is_empty c.authenticated_user ≡ false)

handle_with-Effect :
    (users : List UserRecord) (s : Server) (c : Connection) (frame : Frame) (chances : Chances)
    (step : Step) (o : Option Upload)
    → c.upload ≡ o
    → UploadFits c
    → load_users s.users_file ≡ ok users
    → handle_with o s c frame chances ≡ ok step
    → Effect users s c frame step
unfolding handle_with
handle_with-Effect users s c frame chances step none e fits loaded h =
    dispatch-Effect users s c frame chances step loaded h
handle_with-Effect users s c frame chances step (some u) e fits loaded h =
    let (small, known) = fits u e in
    quiet (upload_frame-Quiet users s c frame known u chances.now step small h)

pub handle-Effect :
    (users : List UserRecord) (s : Server) (c : Connection) (frame : Frame) (chances : Chances)
    (step : Step)
    → UploadFits c
    → load_users s.users_file ≡ ok users
    → handle s c frame chances ≡ ok step
    → Effect users s c frame step
unfolding handle
handle-Effect users s c frame chances step fits loaded h =
    handle_with-Effect users s c frame chances step c.upload refl fits loaded h
