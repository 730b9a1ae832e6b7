-- ===== src/Network/Session/Effects.antt =====
-- What the handlers of a frame can do to the accounts, to the counts and to the connection.
use backup_system.Base.{
  ◌+◌, ◌≤◌, ◌≡◌, refl, sym, ap, ◌∙◌, subst, true, false, not, ◌⊎◌, inl, inr, Option, none, some,
  List, [], ◌∷◌, ◌++◌, length, ◌==◌, ==_iff, is_empty, arith,
}
use backup_system.Base.Outcome.{ok, bind-eq-ok, ensure-eq-ok, ok-injective}
use backup_system.Stream.{Bytes, bytes_eq, run, at_end}
use backup_system.Stream.Equal.{bytes_eq→≡}
use backup_system.Network.{Frame, get_string, take_bytes, message_end}
use backup_system.Network.MessageType
use backup_system.Network.Wire.{take_bytes-eq-ok}
use backup_system.Network.Messages.{registration, one_string}
use backup_system.Network.Accounts.{
  UserRecord, valid_username, proof_for, has_name, load_users, save_users, user_named, find_user,
}
use backup_system.Network.Session.{
  Server, Connection, Step, Stored, Upload, put_at, user_directory, no_value, register, challenge,
  login_start, has_record, acquire, prove, login_proof, without, delete_account, delete_request,
}

-- The backups stay as they are, but for one that is added at the end of the directory of the user.
abbrev pub Grows : Server → Connection → Step → Type 0
Grows s c step =
    (directory : Bytes)
    → (step.server.stores directory ≡ s.stores directory)
      ⊎ ((directory ≡ user_directory c.authenticated_user)
          × ((b : Stored) × (step.server.stores directory ≡ s.stores directory ++ (b ∷ []))))

-- The accounts, the session and the end of the connection are as before. A challenge that is new is
-- one of an account; an upload that is under way has received no more than its size.
pub record Quiet (users : List UserRecord) (s : Server) (c : Connection) (step : Step)
    : Type 0 where
  pub same_file : step.server.users_file ≡ s.users_file
  pub same_active : step.server.active ≡ s.active
  pub grows : Grows s c step
  pub same_key : step.connection.key ≡ c.key
  pub same_user : step.connection.authenticated_user ≡ c.authenticated_user
  pub same_end : step.connection.finished ≡ c.finished
  pub challenged :
      (u : UserRecord)
      → step.connection.pending_user ≡ some u
      → (c.pending_user ≡ some u) ⊎ ((name : Bytes) × (user_named name users ≡ some u))
  pub uploading :
      (u : Upload)
      → step.connection.upload ≡ some u
      → (c.upload ≡ some u)
        ⊎ ((length u.received ≤ u.size) × (is_empty c.authenticated_user ≡ false))

-- The four things that a frame can do.
pub data Effect (users : List UserRecord) (s : Server) (c : Connection) (frame : Frame)
    : Step → Type 0 where
  quiet : {step : Step} → Quiet users s c step → Effect users s c frame step
  registered :
      {step : Step} (u : UserRecord) (file : Bytes)
      → valid_username u.name ≡ true
      → (length u.salt ≡ 16) × (length u.verifier ≡ 32)
      → has_name u.name users ≡ false
      → save_users (users ++ (u ∷ [])) ≡ ok file
      → step.server ≡ record s { users_file = some file }
      → step.connection ≡ c
      → Effect users s c frame step
  authenticated :
      {step : Step} (u : UserRecord)
      → frame.kind ≡ MessageType.login_proof
      → c.pending_user ≡ some u
      → c.key ≡ none
      → has_record u users ≡ true
      → frame.request_id ≡ c.challenge_request
      → frame.payload ≡ proof_for u.verifier c.pending_nonce
      → step.server ≡ record s { active = put_at s.active u.name (s.active u.name + 1) }
      → step.connection ≡ record c {
        authenticated_user = u.name;
        key = some u.name;
        pending_user = none;
        pending_nonce = [];
      }
      → Effect users s c frame step
  deleted :
      {step : Step} (name file : Bytes)
      → c.key ≡ some name
      → s.active name ≡ 1
      → save_users (without name users) ≡ ok file
      → step.server ≡ record s { users_file = some file }
      → step.connection ≡ record c { finished = true }
      → Effect users s c frame step

-- The salt and the verifier of a RegisterRequest have their sizes.
registration-sizes :
    (payload name salt verifier : Bytes)
    → run registration payload ≡ ok (name, salt, verifier)
    → (length salt ≡ 16) × (length verifier ≡ 32)
unfolding registration at_end
registration-sizes payload name salt verifier h =
    let ((out, left), h0, e0) = bind-eq-ok (registration payload) h in
    let ((n, after_name), e1, h1) = bind-eq-ok (get_string payload) h0 in
    let ((a, after_salt), e2, h2) =
      bind-eq-ok (take_bytes "truncated network message" 16 after_name) h1 in
    let ((b, after), e3, h3) =
      bind-eq-ok (take_bytes "truncated network message" 32 after_salt) h2 in
    let ((_, nothing), e4, h4) = bind-eq-ok (message_end after) h3 in
    let same : (n, a, b) ≡ (name, salt, verifier) =
      ap (λ t. t.0) (ok-injective h4) ∙ ok-injective e0 in
    (
      ap (λ t. length t.1) (sym same) ∙ (take_bytes-eq-ok _ 16 after_name e2).1,
      ap (λ t. length t.2) (sym same) ∙ (take_bytes-eq-ok _ 32 after_salt e3).1,
    )

no_value-eq {ℓ} : {A : Type ℓ} (o : Option A) → no_value o ≡ true → o ≡ none
unfolding no_value
no_value-eq none h = refl
no_value-eq (some a) h = absurd (cc)

module _ (users : List UserRecord) (s : Server) (c : Connection) (frame : Frame)
    (loaded : load_users s.users_file ≡ ok users) where
  pub register-Effect : (step : Step) → register s c frame ≡ ok step → Effect users s c frame step
  unfolding register
  register-Effect step h =
      let ((name, salt, verifier), parsed, h1) = bind-eq-ok (run registration frame.payload) h in
      let (valid, h2) = ensure-eq-ok (valid_username name) "invalid username" h1 in
      let (new, h3) =
        ensure-eq-ok (not (has_name name users)) "username already exists" (rw loaded at h2) in
      let u : UserRecord = record { name = name; salt = salt; verifier = verifier } in
      let (file, saved, h4) = bind-eq-ok (save_users (users ++ (u ∷ []))) h3 in
      subst (λ t. Effect users s c frame t) (ok-injective h4)
        (registered u file valid (registration-sizes frame.payload name salt verifier parsed)
          (ground arith) saved refl refl)

  challenge-Effect :
      (nonce name : Bytes) (o : Option UserRecord) (step : Step)
      → user_named name users ≡ o
      → challenge s c frame nonce o ≡ ok step
      → Effect users s c frame step
  unfolding challenge
  challenge-Effect nonce name none step e h = absurd (cc)
  challenge-Effect nonce name (some user) step e h =
      subst (λ t. Effect users s c frame t) (ok-injective h)
        (quiet (record {
          same_file = refl;
          same_active = refl;
          grows = λ directory. inl refl;
          same_key = refl;
          same_user = refl;
          same_end = refl;
          challenged = λ u e'. inr (name, e ∙ e');
          uploading = λ u e'. inl e';
        }))

  pub login_start-Effect :
      (nonce : Bytes) (step : Step)
      → login_start s c frame nonce ≡ ok step
      → Effect users s c frame step
  unfolding login_start find_user
  login_start-Effect nonce step h =
      let (name, parsed, h1) = bind-eq-ok (run one_string frame.payload) h in
      let (valid, h2) = ensure-eq-ok (valid_username name) "invalid username" h1 in
      challenge-Effect nonce name (user_named name users) step refl (rw loaded at h2)

  prove-Effect :
      (o : Option UserRecord) (step : Step)
      → frame.kind ≡ MessageType.login_proof
      → c.pending_user ≡ o
      → prove s c frame o ≡ ok step
      → Effect users s c frame step
  unfolding prove acquire
  prove-Effect none step kind e h = absurd (cc)
  prove-Effect (some user) step kind e h =
      let (answers, h1) = ensure-eq-ok (frame.request_id == c.challenge_request) _ h in
      let (_, h2) = ensure-eq-ok (length frame.payload == 32) _ h1 in
      let (proved, h3) =
        ensure-eq-ok (bytes_eq (proof_for user.verifier c.pending_nonce) frame.payload) _ h2 in
      let ((s', c'), acquired, h4) =
        bind-eq-ok (acquire s (record c { authenticated_user = user.name }) user) h3 in
      let (free, h5) = ensure-eq-ok (no_value c.key) _ acquired in
      let (known, h6) = ensure-eq-ok (has_record user users) _ (rw loaded at h5) in
      subst (λ t. Effect users s c frame t) (ok-injective (rw (← ok-injective h6) at h4))
        (authenticated user kind e (no_value-eq c.key free) known
          ((==_iff frame.request_id c.challenge_request).0 answers)
          (sym (bytes_eq→≡ (proof_for user.verifier c.pending_nonce) frame.payload proved)) refl
          refl)

  delete-Effect :
      (o : Option Bytes) (file : Bytes)
      → c.key ≡ o
      → delete_account s o ≡ ok file
      → (name : Bytes) × (c.key ≡ some name)
        × (s.active name ≡ 1)
        × (save_users (without name users) ≡ ok file)
  unfolding delete_account
  delete-Effect none file e h = absurd (cc)
  delete-Effect (some name) file e h =
      let (alone, h1) = ensure-eq-ok (s.active name == 1) _ h in
      let (known, h2) = ensure-eq-ok (has_name name users) _ (rw loaded at h1) in
      let (_, h3) = ensure-eq-ok (is_empty (s.stores (user_directory name))) _ h2 in
      (name, e, (==_iff (s.active name) 1).0 alone, h3)

  pub delete_request-Effect :
      (step : Step) → delete_request s c frame ≡ ok step → Effect users s c frame step
  unfolding delete_request
  delete_request-Effect step h =
      let (_, parsed, h1) = bind-eq-ok (run message_end frame.payload) h in
      let (file, deletes, h2) = bind-eq-ok (delete_account s c.key) h1 in
      let (name, held, alone, saved) = delete-Effect c.key file refl deletes in
      subst (λ t. Effect users s c frame t) (ok-injective h2)
        (deleted name file held alone saved refl refl)

  pub login_proof-Effect :
      (step : Step)
      → frame.kind ≡ MessageType.login_proof
      → login_proof s c frame ≡ ok step
      → Effect users s c frame step
  unfolding login_proof
  login_proof-Effect step kind h = prove-Effect c.pending_user step kind refl h
