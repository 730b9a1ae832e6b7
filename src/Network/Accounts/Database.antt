-- ===== src/Network/Accounts/Database.antt =====
-- loadUsers and saveUsers: what makes a list of accounts a database, and its file.
use backup_system.Base.{
  ℕ, zero, suc, ◌*◌, ◌%◌, ◌^◌, ◌≤◌, ◌<◌, ◌≡◌, refl, sym, ap, ap₂, ◌∙◌, true, false, not, ◌&&◌,
  String, ◌⊎◌, some, List, [], ◌∷◌, ◌++◌, append_assoc, append-nil, length, take_all, leb, ltb,
  le→leb, leb→le, All, arith,
}
use backup_system.Base.Outcome.{ok, err}
use backup_system.Stream.{Bytes, IsByte, at_end, bytes_eq, word_bytes, write_u16, write_u32}
use backup_system.Stream.Words.{
  length-word_bytes, or_bytes-digits, or_bytes_width, word_bytes-or_bytes,
}
use backup_system.Stream.Equal.{bytes_eq_refl, bytes_eq→≡}
use backup_system.Stream.Readers.{IsDigits}
use backup_system.Stream.Consumed.{
  Takes, Takes-pure, Takes-bind, Takes-ensure, Takes-at_end, run-whole,
}
use backup_system.Network.Wire.{take_bytes-append}
use backup_system.Network.Accepted.{Takes-take_bytes}
use backup_system.Network.Accounts.{
  UserRecord, valid_username, users_magic, max_users, take_word, read_user, has_name, read_users,
  user_database, load_users, write_user, write_users, save_users,
}

pub record IsUser (u : UserRecord) : Type 0 where
  pub name_valid : valid_username u.name ≡ true
  pub salt_size : length u.salt ≡ 16
  pub verifier_size : length u.verifier ≡ 32

-- No user has the name of one before it or of one in `names`.
abbrev pub Distinct : List UserRecord → List UserRecord → Type 0
Distinct names [] = Unit {0}
Distinct names (u ∷ users) = (has_name u.name names ≡ false) × Distinct (u ∷ names) users

pub record IsDatabase (users : List UserRecord) : Type 0 where
  pub all_users : All IsUser users
  pub distinct : Distinct [] users
  pub count_fits : length users ≤ max_users

pub valid_username-length :
    (name : Bytes) → valid_username name ≡ true → (0 < length name) × (length name ≤ 64)
unfolding valid_username
valid_username-length name h = ground arith

pub take_word-word_bytes :
    (message : String) (n v : ℕ) (rest : Bytes)
    → v < 2 ^ (n * 8)
    → take_word message n (word_bytes n 0 v ++ rest) ≡ ok (v, rest)
unfolding take_word
take_word-word_bytes message n v rest h =
    rw (take_bytes-append message n (word_bytes n 0 v) rest (sym (length-word_bytes n 0 v)))
      (ap (λ (t : ℕ). ok (t, rest)) (or_bytes-digits n v h))

-- The word that was read, and its bytes.
pub Takes-take_word : (message : String) (n : ℕ) → Takes false (IsDigits n) (take_word message n)
unfolding take_word
Takes-take_word message n = Takes-bind (Takes-take_bytes message n) λ v xs (same, size, bytes).
    Takes-pure (
      rw append-nil (rw same (sym (word_bytes-or_bytes n v size bytes))),
      or_bytes_width n v size bytes,
    )

-- A user on the file.
write_user-eq :
    (u : UserRecord)
    → IsUser u
    → write_user u ≡ write_u16 (length u.name) ++ (u.name ++ (u.salt ++ u.verifier))
unfolding write_user
write_user-eq u h =
    let small : length u.name % 2 ^ 16 ≡ length u.name =
      omega (arith, valid_username-length u.name h.name_valid) in
    rw (small, take_all u.name)

read_user-write_user :
    (u : UserRecord) (rest : Bytes) → IsUser u → read_user (write_user u ++ rest) ≡ ok (u, rest)
unfolding read_user write_u16
read_user-write_user u rest h =
    let (some_name, short) = valid_username-length u.name h.name_valid in
    let range : (ltb 0 (length u.name) && leb (length u.name) 64) ≡ true = ground arith in
    rw (write_user-eq u h, append_assoc (write_u16 (length u.name)), append_assoc u.name)
      (rw
        (
          append_assoc u.salt,
          take_word-word_bytes "truncated user database" 2 (length u.name) _ (omega arith),
        )
        (rw (range, take_bytes-append "invalid user database record" (length u.name) u.name _ refl)
          (rw
            (take_bytes-append "invalid user database record" 16 u.salt (u.verifier ++ rest)
              (sym h.salt_size))
            (rw
              (take_bytes-append "invalid user database record" 32 u.verifier rest
                (sym h.verifier_size))
              (rw h.name_valid)))))

user_bytes :
    (u : UserRecord) (n : ℕ)
    → IsUser u
    → length u.name ≡ n
    → (ns xs ss vs : Bytes) → ns ≡ word_bytes 2 0 n
    → xs ≡ u.name
    → ss ≡ u.salt
    → vs ≡ u.verifier
    → ns ++ (xs ++ (ss ++ (vs ++ []))) ≡ write_user u
unfolding write_u16
user_bytes u n h named ns xs ss vs size x s v =
    rw (write_user-eq u h, append-nil vs, named)
      (ap₂ (λ a b. a ++ b) size (ap₂ (λ a b. a ++ b) x (ap₂ (λ a b. a ++ b) s v)))

abbrev IsReadUser : UserRecord → Bytes → Type 0
IsReadUser u xs = IsUser u × (xs ≡ write_user u)

Takes-read_user : Takes false IsReadUser read_user
unfolding read_user
Takes-read_user = Takes-bind (Takes-take_word _ 2) λ n ns (size, fits).
    Takes-ensure (ltb 0 n && leb n 64) _ λ range.
      Takes-bind (Takes-take_bytes _ n) λ name xs (x, named, _).
        Takes-bind (Takes-take_bytes _ 16) λ salt ss (s, salted, _).
          Takes-bind (Takes-take_bytes _ 32) λ verifier vs (v, verified, _).
            Takes-ensure (valid_username name) _ λ valid.
              let u : UserRecord = record { name = name; salt = salt; verifier = verifier } in
              let h : IsUser u = record {
                name_valid = valid;
                salt_size = salted;
                verifier_size = verified;
              } in
              Takes-pure {a = u} (h, user_bytes u n h named ns xs ss vs size x s v)

read_users-write_users :
    (names users : List UserRecord) (rest : Bytes)
    → All IsUser users
    → Distinct names users
    → read_users (length users) names (write_users users ++ rest) ≡ ok (users, rest)
unfolding read_users write_users
read_users-write_users names [] rest h fresh = refl
read_users-write_users names (u ∷ users) rest (hu, h) (new, fresh) =
    rw (append_assoc (write_user u) (write_users users) rest) (
      rw (read_user-write_user u (write_users users ++ rest) hu, new)
        (rw (read_users-write_users (u ∷ names) users rest h fresh)))

abbrev IsReadUsers : List UserRecord → ℕ → List UserRecord → Bytes → Type 0
IsReadUsers names count users xs =
    (length users ≡ count) × All IsUser users × Distinct names users × (xs ≡ write_users users)

Takes-read_users :
    (count : ℕ) (names : List UserRecord)
    → Takes false (IsReadUsers names count) (read_users count names)
unfolding read_users write_users
Takes-read_users zero names = Takes-pure (refl, tt, tt, refl)
Takes-read_users (suc count) names = Takes-bind Takes-read_user λ u xs (hu, same).
    Takes-ensure (not (has_name u.name names)) _ λ new.
      Takes-bind (Takes-read_users count (u ∷ names)) λ users ys (size, h, fresh, same').
        Takes-pure {a = u ∷ users} (
          ap suc size,
          (hu, h),
          (ground (arith), fresh),
          rw append-nil (ap₂ (λ a b. a ++ b) same same'),
        )

save_users-eq :
    (users : List UserRecord)
    → length users ≤ max_users
    → save_users users ≡ ok (users_magic ++ (write_u32 (length users) ++ write_users users))
unfolding save_users
save_users-eq users h = rw (le→leb (length users) max_users h)

-- Accounts of which each has a valid name, a salt of 16 bytes and a verifier of 32 bytes, no two the
-- same name, and at most 100,000 in all, are written by saveUsers, and loadUsers reads them back.
pub load_users-save_users :
    (users : List UserRecord)
    → IsDatabase users
    → (file : Bytes) × (save_users users ≡ ok file) × (load_users (some file) ≡ ok users)
unfolding load_users user_database write_u32 at_end
load_users-save_users users h =
    let listed = write_u32 (length users) ++ write_users users in
    let body : read_users (length users) [] (write_users users) ≡ ok (users, []) =
      rw append-nil at (read_users-write_users [] users [] h.all_users h.distinct) in
    (
      users_magic ++ listed,
      save_users-eq users h.count_fits,
      rw
          (
            take_bytes-append "invalid user database" 4 users_magic listed refl,
            bytes_eq_refl users_magic,
          )
          (rw
            (
              take_word-word_bytes "truncated user database" 4 (length users) (write_users users)
                  (omega (arith, h.count_fits)),
              le→leb (length users) max_users h.count_fits,
            )
            (rw body)),
    )

abbrev IsReadDatabase : List UserRecord → Bytes → Type 0
IsReadDatabase users xs = IsDatabase users × (save_users users ≡ ok xs)

Takes-user_database : Takes true IsReadDatabase user_database
unfolding user_database write_u32
Takes-user_database = Takes-bind (Takes-take_bytes _ 4) λ magic ms (m, _, _).
    Takes-ensure (bytes_eq magic users_magic) _ λ right.
      Takes-bind (Takes-take_word _ 4) λ count cs (c, _).
        Takes-ensure (leb count max_users) _ λ small.
          Takes-bind (Takes-read_users count []) λ users xs (size, h, fresh, same).
            let fits : length users ≤ max_users = omega (arith, leb→le count max_users small) in
            let whole : ms ++ (cs ++ (xs ++ []))
                ≡ users_magic ++ (write_u32 (length users) ++ write_users users) =
              rw (append-nil xs, size)
                (ap₂ (λ a b. a ++ b) (m ∙ bytes_eq→≡ magic users_magic right)
                  (ap₂ (λ a b. a ++ b) c same)) in
            Takes-at_end _ (
              Takes-pure {a = users} (
                record { all_users = h; distinct = fresh; count_fits = fits },
                save_users-eq users fits ∙ ap (λ t. ok t) (sym whole),
              ))

-- On any file, loadUsers throws, or it returns a database that saveUsers writes as that file.
pub load_users_cases :
    (file : Bytes)
    → All IsByte file
    → ((users : List UserRecord) × (load_users (some file) ≡ ok users)
        × (IsDatabase users × (save_users users ≡ ok file)))
      ⊎ ((e : String) × (load_users (some file) ≡ err e))
unfolding load_users
load_users_cases file bytes = run-whole user_database file Takes-user_database bytes
