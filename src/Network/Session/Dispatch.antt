-- ===== src/Network/Session/Dispatch.antt =====
-- The loop of handleSession, one frame at a time, and the connections of a server side by side.
use backup_system.Base.{
  String, true, false, ◌||◌, ◌≡◌, Option, none, some, List, [], ◌∷◌, ◌++◌, ◌==◌, if◌then◌else◌,
  is_empty,
}
use backup_system.Base.Outcome.{Result, ok, err, ◌>>=◌, ◌>>◌}
use backup_system.Stream.{run}
use backup_system.Network.{Frame, message_end}
use backup_system.Network.MessageType
use backup_system.Network.Messages.{list_payload}
use backup_system.Network.Session.{
  Server, Connection, Step, Upload, Chances, reply, user_directory, register, login_start,
  login_proof, delete_request, release, new_connection,
}
use backup_system.Network.Session.Uploads.{upload_start, upload_frame, download, list_entries}

unfoldable pub list_request : Server → Connection → Frame → Result Step
list_request s c frame = do
  run message_end frame.payload
  entries ← list_entries (s.stores (user_directory c.authenticated_user))
  payload ← list_payload entries
  ok (record {
    server = s;
    connection = c;
    replies = reply MessageType.list_response frame payload ∷ [];
  })

-- The commands that need an authenticated user.
unfoldable pub command : Server → Connection → Frame → Chances → Result Step
command s c frame chances =
    if frame.kind == MessageType.upload_start || frame.kind == MessageType.upload_delta_start
    then upload_start s c frame chances.ids
    else if frame.kind == MessageType.list_request
    then list_request s c frame
    else if frame.kind == MessageType.download_request
    then download s c frame
    else if frame.kind == MessageType.delete_account_request
    then delete_request s c frame
    else err "unsupported network command"

unfoldable pub dispatch : Server → Connection → Frame → Chances → Result Step
dispatch s c frame chances =
    if frame.kind == MessageType.register_request
    then register s c frame
    else if frame.kind == MessageType.login_start
    then login_start s c frame chances.nonce
    else if frame.kind == MessageType.login_proof
    then login_proof s c frame
    else if is_empty c.authenticated_user
    then err "authentication is required"
    else command s c frame chances

-- A frame goes to the upload that is under way, or to the loop.
unfoldable pub handle_with : Option Upload → Server → Connection → Frame → Chances → Result Step
handle_with none s c frame chances = dispatch s c frame chances
handle_with (some u) s c frame chances = upload_frame s c u frame chances.now

unfoldable pub handle : Server → Connection → Frame → Chances → Result Step
handle s c frame chances = handle_with c.upload s c frame chances

-- The server and its connections.
pub record World : Type 0 where
  pub server : Server
  pub connections : List Connection

abbrev pub world : Server → List Connection → World
world s cs = record { server = s; connections = cs }

-- What can happen next: a client connects; a connection handles a frame, or ends on an error, which
-- sends an Error frame; a connection is closed, at whatever time, and its session released.
pub data Moves : World → World → Type 0 where
  connects :
      (s : Server) (cs : List Connection) → Moves (world s cs) (world s (new_connection ∷ cs))
  serves :
      (s : Server) (before : List Connection) (c : Connection) (after : List Connection)
      (frame : Frame) (chances : Chances) (step : Step)
      → c.finished ≡ false
      → handle s c frame chances ≡ ok step
      → Moves
          (world s (before ++ c ∷ after))
          (world step.server (before ++ step.connection ∷ after))
  fails :
      (s : Server) (before : List Connection) (c : Connection) (after : List Connection)
      (frame : Frame) (chances : Chances) (message : String)
      → c.finished ≡ false
      → handle s c frame chances ≡ err message
      → Moves
          (world s (before ++ c ∷ after))
          (world s (before ++ record c { finished = true } ∷ after))
  closes :
      (s : Server) (before : List Connection) (c : Connection) (after : List Connection)
      → Moves (world s (before ++ c ∷ after)) (world (release s c) (before ++ after))

-- Any number of moves.
pub data Reaches : World → World → Type 0 where
  here : (w : World) → Reaches w w
  further : {u v w : World} → Reaches u v → Moves v w → Reaches u w
