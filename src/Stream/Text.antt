-- ===== src/Stream/Text.antt =====
-- writeString and readString of common.cpp.
use backup_system.Base.{◌≤◌, ◌≡◌, refl, true, ◌++◌, append_assoc, length, le→leb, arith}
use backup_system.Base.Outcome.{ok}
use backup_system.Stream.{Bytes, max_string, write_u32, write_string, read_string, no_nul}
use backup_system.Stream.Words.{read_u32-write_u32, read_exact-append}

pub write_string-eq :
    (s : Bytes) → length s ≤ max_string → write_string s ≡ ok (write_u32 (length s) ++ s)
unfolding write_string
write_string-eq s h = rw (le→leb (length s) max_string h)

pub read_string-append :
    (s rest : Bytes)
    → length s ≤ max_string
    → no_nul s ≡ true
    → read_string ((write_u32 (length s) ++ s) ++ rest) ≡ ok (s, rest)
read_string-append s rest h clean = rw (append_assoc (write_u32 (length s)) s rest) (
    unfold read_string in
    rw (read_u32-write_u32 (length s) (s ++ rest) (omega arith)) (
      rw (le→leb (length s) max_string h)
        (rw (read_exact-append (length s) s rest refl) (rw clean))))

-- A string within the limit and with no NUL byte is written, and what writeString wrote reads back,
-- whatever follows it.
pub read_string-write_string :
    (s rest : Bytes)
    → length s ≤ max_string
    → no_nul s ≡ true
    → (bytes : Bytes) × (write_string s ≡ ok bytes) × (read_string (bytes ++ rest) ≡ ok (s, rest))
read_string-write_string s rest h clean =
    (write_u32 (length s) ++ s, write_string-eq s h, read_string-append s rest h clean)
