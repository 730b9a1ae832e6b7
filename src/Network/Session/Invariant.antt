-- ===== src/Network/Session/Invariant.antt =====
-- The invariant of a server and its connections, and that every move keeps it.
use backup_system.Base.{
  ◌+◌, ◌≤◌, ◌<◌, ◌≡◌, ◌≢◌, refl, sym, ap, ◌∙◌, true, false, ◌⊎◌, inl, inr, Option, none, some, List,
  [], ◌∷◌, ◌++◌, length, is_empty, All, arith,
}
use backup_system.Base.Outcome.{ok, ok-injective}
use backup_system.Stream.{Bytes}
use backup_system.Stream.Equal.{bytes_eq_refl}
use backup_system.Network.{Frame}
use backup_system.Network.Accounts.{UserRecord, has_name, load_users, save_users, max_users}
use backup_system.Network.Accounts.Database.{
  IsUser, IsDatabase, load_users-save_users, valid_username-length,
}
use backup_system.Network.Session.{
  Server, Stored, Connection, Step, put_at, without, has_record, release, new_connection,
}
use backup_system.Network.Session.Dispatch.{
  World, world, Moves, connects, serves, fails, closes, Reaches, here, further,
}
use backup_system.Network.Session.Effects.{Effect, Quiet, quiet, registered, authenticated, deleted}
use backup_system.Network.Session.Handled.{UploadFits, handle-Effect}
use backup_system.Network.Session.Accounting.{
  add-IsDatabase, without-IsDatabase, has_name-add, has_name-without, has_record-has_name,
  user_named-eq-some, holds, count_keys, count_keys-split, count_keys-zero, release_key-active,
  release_key-file, take_key-active, All-middle, All-insert, All-map, All-both,
}

-- A connection that is open: it has logged in to an account that exists and holds its key, or it has
-- not logged in and holds none. A challenge under way is one of a well-formed account.
pub record IsOpen (users : List UserRecord) (c : Connection) : Type 0 where
  pub session :
      ((c.key ≡ none) × (is_empty c.authenticated_user ≡ true))
      ⊎ ((c.key ≡ some c.authenticated_user)
          × (is_empty c.authenticated_user ≡ false)
          × (has_name c.authenticated_user users ≡ true))
  pub challenged : (u : UserRecord) → c.pending_user ≡ some u → IsUser u
  pub uploading : UploadFits c

abbrev pub Open : List UserRecord → Connection → Type 0
Open users c = c.finished ≡ false → IsOpen users c

-- The file of the accounts is a database, every open connection is in order, and activeSessions
-- counts the connections that hold a key.
pub record IsWorld (w : World) : Type 0 where
  pub users : List UserRecord
  pub loaded : load_users w.server.users_file ≡ ok users
  pub database : IsDatabase users
  pub sessions : All (Open users) w.connections
  pub counted : (name : Bytes) → w.server.active name ≡ count_keys name w.connections

connects-IsWorld :
    (s : Server) (cs : List Connection)
    → IsWorld (world s cs)
    → IsWorld (world s (new_connection ∷ cs))
connects-IsWorld s cs h = record {
  users = h.users;
  loaded = h.loaded;
  database = h.database;
  sessions = (
    λ _. record {
      session = inl (refl, refl);
      challenged = λ u e. absurd (cc);
      uploading = λ u e. absurd (cc);
    },
    h.sessions,
  );
  counted = λ name. unfold count_keys holds in omega (arith, h.counted name);
}

save_users-length :
    (users : List UserRecord) (file : Bytes) → save_users users ≡ ok file → length users ≤ max_users
unfolding save_users
save_users-length users file h = ground arith

saved_loads :
    (users : List UserRecord) (file : Bytes)
    → IsDatabase users
    → save_users users ≡ ok file
    → load_users (some file) ≡ ok users
saved_loads users file h saved =
    let (file', saved', loads) = load_users-save_users users h in
    rw (ok-injective (sym saved ∙ saved')) loads

is_empty-length : (name : Bytes) → 0 < length name → is_empty name ≡ false
is_empty-length [] h = absurd (omega arith)
is_empty-length (b ∷ bs) h = refl

still-IsOpen :
    (users users' : List UserRecord) (c : Connection)
    → ((name : Bytes) → has_name name users ≡ true → has_name name users' ≡ true)
    → IsOpen users c
    → IsOpen users' c
still-IsOpen users users' c stays h = record {
  session = elim h.session [
    | inl free ↦ inl free
    | inr (keyed, named, known) ↦ inr (keyed, named, stays c.authenticated_user known)
  ];
  challenged = h.challenged;
  uploading = h.uploading;
}

-- The connections of other accounts stay open.
still-IsOpen-without :
    (name : Bytes) (users : List UserRecord) (c : Connection)
    → c.key ≢ some name
    → IsOpen users c
    → IsOpen (without name users) c
still-IsOpen-without name users c differs h = record {
  session = elim h.session [
    | inl free ↦ inl free
    | inr (keyed, named, known) ↦ inr (
      keyed,
      named,
      has_name-without name c.authenticated_user users (λ e. differs (keyed ∙ ap (λ t. some t) e))
          known,
    )
  ];
  challenged = h.challenged;
  uploading = h.uploading;
}

-- One connection and the server change; the others stay as they are.
module _ (s : Server) (before : List Connection) (c : Connection) (after : List Connection)
    (h : IsWorld (world s (before ++ c ∷ after))) where
  others : All (Open h.users) (before ++ after)
  others = (All-middle (Open h.users) before c after h.sessions).1

  replaced :
      (s' : Server) (c' : Connection) (users : List UserRecord)
      → load_users s'.users_file ≡ ok users
      → IsDatabase users
      → All (Open users) (before ++ after)
      → Open users c'
      → ((name : Bytes) → s'.active name + holds name c.key ≡ s.active name + holds name c'.key)
      → IsWorld (world s' (before ++ c' ∷ after))
  replaced s' c' users loaded database rest changed counts = record {
    users = users;
    loaded = loaded;
    database = database;
    sessions = All-insert (Open users) before c' after changed rest;
    counted = λ name. omega (
      arith,
      counts name,
      h.counted name,
      count_keys-split name before c after,
      count_keys-split name before c' after,
    );
  }

  Quiet-IsWorld :
      (step : Step)
      → c.finished ≡ false
      → Quiet h.users s c step
      → IsWorld (world step.server (before ++ step.connection ∷ after))
  Quiet-IsWorld step running q =
      let opened = (All-middle (Open h.users) before c after h.sessions).0 running in
      replaced step.server step.connection h.users (rw q.same_file h.loaded) h.database others
        (λ _. record {
          session = rw (q.same_key, q.same_user) opened.session;
          challenged = λ u e. elim (q.challenged u e) [
            | inl old ↦ opened.challenged u old
            | inr (name, found) ↦ user_named-eq-some name h.users u h.database.all_users found
          ];
          uploading = λ u e. elim (q.uploading u e) [
            | inl old ↦ rw q.same_user (opened.uploading u old)
            | inr fits ↦ rw q.same_user fits
          ];
        })
        (λ name. rw (q.same_active, q.same_key) refl)

  fails-IsWorld : IsWorld (world s (before ++ record c { finished = true } ∷ after))
  fails-IsWorld =
      replaced s (record c { finished = true }) h.users h.loaded h.database others
        (λ e. absurd (cc)) (λ name. refl)

  closes-IsWorld : IsWorld (world (release s c) (before ++ after))
  unfolding release
  closes-IsWorld = record {
    users = h.users;
    loaded = rw (release_key-file s c.key) h.loaded;
    database = h.database;
    sessions = others;
    counted = λ name.
        let total = h.counted name ∙ count_keys-split name before c after in
        omega (arith, release_key-active s c.key name (omega (arith, total)), total);
  }

  registered-IsWorld :
      (u : UserRecord) (file : Bytes)
      → IsUser u
      → has_name u.name h.users ≡ false
      → save_users (h.users ++ (u ∷ [])) ≡ ok file
      → IsWorld (world (record s { users_file = some file }) (before ++ c ∷ after))
  registered-IsWorld u file hu new saved =
      let users = h.users ++ (u ∷ []) in
      let database =
        add-IsDatabase h.users u h.database hu new (save_users-length users file saved) in
      let more : (c : Connection) → Open h.users c → Open users c = λ c opened running.
        still-IsOpen h.users users c (λ name e. has_name-add name h.users u e) (opened running) in
      replaced (record s { users_file = some file }) c users (saved_loads users file database saved)
        database (All-map (Open h.users) (Open users) (before ++ after) more others)
        (more c (All-middle (Open h.users) before c after h.sessions).0) (λ name. refl)

  authenticated-IsWorld :
      (u : UserRecord) (nonce : Bytes)
      → c.finished ≡ false
      → c.pending_user ≡ some u
      → c.key ≡ none
      → has_record u h.users ≡ true
      → IsWorld (
          world
            (record s { active = put_at s.active u.name (s.active u.name + 1) })
            (before
              ++ record c {
                authenticated_user = u.name;
                key = some u.name;
                pending_user = none;
                pending_nonce = nonce;
              }
                ∷ after))
  authenticated-IsWorld u nonce running pending free known =
      let opened = (All-middle (Open h.users) before c after h.sessions).0 running in
      let named =
        is_empty-length u.name
          (valid_username-length u.name (opened.challenged u pending).name_valid).0 in
      replaced (record s { active = put_at s.active u.name (s.active u.name + 1) })
        (record c {
          authenticated_user = u.name;
          key = some u.name;
          pending_user = none;
          pending_nonce = nonce;
        })
        h.users h.loaded h.database others
        (λ _. record {
          session = inr (refl, named, has_record-has_name u h.users known);
          challenged = λ v e. absurd (cc);
          uploading = λ v e. ((opened.uploading v e).0, named);
        })
        (λ name. rw free (unfold holds in take_key-active s.active u.name name))

  deleted-IsWorld :
      (name file : Bytes)
      → c.key ≡ some name
      → s.active name ≡ 1
      → save_users (without name h.users) ≡ ok file
      → IsWorld (
          world
            (record s { users_file = some file })
            (before ++ record c { finished = true } ∷ after))
  deleted-IsWorld name file held alone saved =
      let users = without name h.users in
      let database = without-IsDatabase name h.users h.database in
      let total = h.counted name ∙ count_keys-split name before c after in
      let one : holds name c.key ≡ 1 = unfold holds in rw held (rw (bytes_eq_refl name)) in
      let free = count_keys-zero name (before ++ after) (omega arith) in
      replaced (record s { users_file = some file }) (record c { finished = true }) users
        (saved_loads users file database saved) database
        (All-map (λ c. (c.key ≢ some name) × Open h.users c) (Open users) (before ++ after)
          (λ c (differs, opened) running.
            still-IsOpen-without name h.users c differs (opened running))
          (All-both (λ c. c.key ≢ some name) (Open h.users) (before ++ after) free others))
        (λ e. absurd (cc)) (λ name. refl)

  serves-IsWorld :
      (frame : Frame) (step : Step)
      → c.finished ≡ false
      → Effect h.users s c frame step
      → IsWorld (world step.server (before ++ step.connection ∷ after))
  serves-IsWorld frame step running (quiet q) = Quiet-IsWorld step running q
  serves-IsWorld frame step running (registered u file valid (salted, verified) new saved e e') =
      rw (e, e')
        (registered-IsWorld u file
          (record { name_valid = valid; salt_size = salted; verifier_size = verified }) new saved)
  serves-IsWorld frame step running (authenticated u _ pending free known _ _ e e') =
      rw (e, e') (authenticated-IsWorld u [] running pending free known)
  serves-IsWorld frame step running (deleted name file held alone saved e e') =
      rw (e, e') (deleted-IsWorld name file held alone saved)

-- Every move keeps the invariant.
pub Moves-IsWorld : {v w : World} → Moves v w → IsWorld v → IsWorld w
Moves-IsWorld (connects s cs) h = connects-IsWorld s cs h
Moves-IsWorld (serves s before c after frame chances step running handles) h =
    let opened = (All-middle (Open h.users) before c after h.sessions).0 running in
    serves-IsWorld s before c after h frame step running
      (handle-Effect h.users s c frame chances step opened.uploading h.loaded handles)
Moves-IsWorld (fails s before c after frame chances message running handles) h =
    fails-IsWorld s before c after h
Moves-IsWorld (closes s before c after) h = closes-IsWorld s before c after h

pub Reaches-IsWorld : {v w : World} → Reaches v w → IsWorld v → IsWorld w
Reaches-IsWorld (here w) h = h
Reaches-IsWorld (further path move) h = Moves-IsWorld move (Reaches-IsWorld path h)

-- A server that starts on a database of accounts, with no connection.
abbrev pub starting : Option Bytes → (Bytes → List Stored) → World
starting file stores = world (record { users_file = file; active = λ _. 0; stores = stores }) []

pub starting-IsWorld :
    (file : Option Bytes) (stores : Bytes → List Stored) (users : List UserRecord)
    → load_users file ≡ ok users
    → IsDatabase users
    → IsWorld (starting file stores)
starting-IsWorld file stores users loaded database = record {
  users = users;
  loaded = loaded;
  database = database;
  sessions = tt;
  counted = λ name. unfold count_keys in refl;
}
