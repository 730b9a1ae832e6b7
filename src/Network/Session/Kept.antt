-- ===== src/Network/Session/Kept.antt =====
-- What happens to the backups of the users of a server, whatever clients send.
use backup_system.Base.{◌≡◌, List, ◌++◌}
use backup_system.Stream.{Bytes}
use backup_system.Network.Session.{Server, Stored}

-- Nothing is lost from one state of the server to another.
abbrev Extends : Server → Server → Type 0
Extends s t =
    (directory : Bytes) → (added : List Stored) × (t.stores directory ≡ s.stores directory ++ added)
