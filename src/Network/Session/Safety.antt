-- ===== src/Network/Session/Safety.antt =====
-- What the clients of a server can rely on: accounts, logins and refusals.
use backup_system.Base.{
  ◌≤◌, ◌≡◌, ◌≢◌, sym, ap, ◌∙◌, false, Option, none, some, List, [], ◌∷◌, ◌++◌, is_empty, ne→==,
  arith,
}
use backup_system.Base.Outcome.{ok, err}
use backup_system.Stream.{Bytes, at_end}
use backup_system.Stream.Equal.{bytes_eq_refl}
use backup_system.Network.{Frame}
use backup_system.Network.MessageType
use backup_system.Network.Accounts.{UserRecord, load_users, proof_for}
use backup_system.Network.Accounts.Database.{IsDatabase}
use backup_system.Network.Session.{
  Server, Stored, Connection, Step, Chances, delete_account, delete_request,
}
use backup_system.Network.Session.Dispatch.{
  World, Reaches, command, dispatch, handle_with, handle, world,
}
use backup_system.Network.Session.Effects.{quiet, registered, authenticated, deleted}
use backup_system.Network.Session.Handled.{handle-Effect, UploadFits, some_injective}
use backup_system.Network.Session.Accounting.{holds, count_keys, count_keys-split, has_record-split}
use backup_system.Network.Session.Invariant.{IsWorld, starting, starting-IsWorld, Reaches-IsWorld}

-- From a start on a database of accounts, whatever clients send and however their frames interleave,
-- the file of the accounts stays a database, each open connection that has logged in holds the key of
-- an account of it, and activeSessions counts for each name the connections that hold its key.
pub reachable-IsWorld :
    (file : Option Bytes) (stores : Bytes → List Stored) (users : List UserRecord) (w : World)
    → load_users file ≡ ok users
    → IsDatabase users
    → Reaches (starting file stores) w
    → IsWorld w
reachable-IsWorld file stores users w loaded database path =
    Reaches-IsWorld path (starting-IsWorld file stores users loaded database)

-- A connection gets the key of an account only by a LoginProof that answers its own challenge with the
-- proof of the account's verifier and the challenge's nonce, for an account whose record, name, salt
-- and verifier as they were at the challenge, is one of the database.
pub login_needs_proof :
    (users : List UserRecord) (s : Server) (c : Connection) (frame : Frame) (chances : Chances)
    (step : Step) (name : Bytes)
    → UploadFits c
    → load_users s.users_file ≡ ok users
    → handle s c frame chances ≡ ok step
    → c.key ≡ none
    → step.connection.key ≡ some name
    → (u : UserRecord) × (c.pending_user ≡ some u)
      × (u.name ≡ name)
      × (frame.kind ≡ MessageType.login_proof)
      × ((before : List UserRecord) × (after : List UserRecord) × (users ≡ before ++ u ∷ after))
      × (frame.request_id ≡ c.challenge_request)
      × (frame.payload ≡ proof_for u.verifier c.pending_nonce)
login_needs_proof users s c frame chances step name fits loaded handles free keyed =
    elim (handle-Effect users s c frame chances step fits loaded handles) [
      | quiet q ↦ let gone : none ≡ some name = sym free ∙ sym q.same_key ∙ keyed in absurd (cc)
      | registered u file _ _ _ _ _ e ↦
          let gone : none ≡ some name = sym free ∙ ap (λ t. t.key) (sym e) ∙ keyed in absurd (cc)
      | authenticated u kind pending _ known answers proved _ e ↦ (
        u,
        pending,
        some_injective (ap (λ t. t.key) (sym e) ∙ keyed),
        kind,
        has_record-split u users known,
        answers,
        proved,
      )
      | deleted name' _ held _ _ _ _ ↦ let gone : none ≡ some name' = sym free ∙ held in absurd (cc)
    ]

delete_account-busy :
    (s : Server) (name : Bytes)
    → s.active name ≢ 1
    → delete_account s (some name) ≡ err "账户正在使用，请稍后重试"
unfolding delete_account
delete_account-busy s name busy = rw (ne→== (s.active name) 1 busy)

delete_request-busy :
    (s : Server) (c : Connection) (frame : Frame) (name : Bytes)
    → frame.payload ≡ []
    → c.key ≡ some name
    → s.active name ≢ 1
    → delete_request s c frame ≡ err "账户正在使用，请稍后重试"
unfolding delete_request at_end
delete_request-busy s c frame name empty held busy =
    rw (empty, held) (rw (delete_account-busy s name busy))

-- While another connection holds the key of the same account, a request to delete it is refused.
pub delete_in_use_refused :
    (s : Server) (before after : List Connection) (c : Connection) (front back : List Connection)
    (d : Connection) (frame : Frame) (chances : Chances) (name : Bytes)
    → IsWorld (world s (before ++ c ∷ after))
    → before ++ after ≡ front ++ d ∷ back
    → c.key ≡ some name
    → d.key ≡ some name
    → c.upload ≡ none
    → is_empty c.authenticated_user ≡ false
    → frame.kind ≡ MessageType.delete_account_request
    → frame.payload ≡ []
    → handle s c frame chances ≡ err "账户正在使用，请稍后重试"
unfolding handle handle_with dispatch command
delete_in_use_refused s before after c front back d frame chances name h others held held' idle
      known kind empty =
    let one : holds name c.key ≡ 1 = unfold holds in rw held (rw (bytes_eq_refl name)) in
    let two : holds name d.key ≡ 1 = unfold holds in rw held' (rw (bytes_eq_refl name)) in
    let total = h.counted name in
    let busy : 2 ≤ s.active name = omega (
      arith,
      total,
      count_keys-split name before c after,
      ap (λ t. count_keys name t) others,
      count_keys-split name front d back,
      one,
      two,
    ) in
    simp (idle, kind)
      (simp known (delete_request-busy s c frame name empty held (λ e. absurd (omega arith))))
