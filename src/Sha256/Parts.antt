-- ===== src/Sha256/Parts.antt =====
-- The object of sha256.cpp fed in parts.
use backup_system.Base.{◌≡◌, sym, ◌∙◌, List, [], ◌∷◌, ◌++◌, append_assoc, append-nil, subst}
use backup_system.Stream.{Bytes}
use backup_system.Sha256.{Sha256, new, update, finish, sha256}
use backup_system.Sha256.Streaming.{HasRead, new-HasRead, update-HasRead}
use backup_system.Sha256.Digest.{finish-HasRead, sha256-eq}

unfoldable pub concat : List Bytes → Bytes
concat [] = []
concat (p ∷ ps) = p ++ concat ps

unfoldable pub update_all : Sha256 → List Bytes → Sha256
update_all s [] = s
update_all s (p ∷ ps) = update_all (update s p) ps

pub update_all-HasRead :
    (s : Sha256) (message : Bytes) (parts : List Bytes)
    → HasRead s message
    → HasRead (update_all s parts) (message ++ concat parts)
unfolding update_all concat
update_all-HasRead s message [] h = rw (append-nil message) h
update_all-HasRead s message (p ∷ ps) h =
    subst (HasRead (update_all (update s p) ps)) (append_assoc message p (concat ps))
      (update_all-HasRead (update s p) (message ++ p) ps (update-HasRead s message p h))

-- The digest does not depend on how a message is cut into parts, empty ones included: it is the
-- digest of the one-shot function on the whole.
pub finish-update_all : (parts : List Bytes) → finish (update_all new parts) ≡ sha256 (concat parts)
finish-update_all parts =
    finish-HasRead (update_all new parts) (concat parts)
      (update_all-HasRead new [] parts new-HasRead)
    ∙ sym (sha256-eq (concat parts))
