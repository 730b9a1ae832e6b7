-- ===== src/Network/Session/Accounting.antt =====
-- Accounts by name: adding one, erasing one, and the counts of the sessions that hold one.
use backup_system.Base.{
  ℕ, ◌+◌, ◌≤◌, ◌≡◌, ◌≢◌, refl, ◌∙◌, subst, true, false, inl, inr, Option, none, some, List, [], ◌∷◌,
  ◌++◌, length, All, if◌then◌else◌, arith, Bool-cases, ◌&&◌, and_both, ap,
}
use backup_system.Stream.{Bytes, bytes_eq}
use backup_system.Stream.Equal.{bytes_eq_refl, bytes_eq→≡, bytes_eq_cases}
use backup_system.Network.Accounts.{UserRecord, has_name, user_named, max_users}
use backup_system.Network.Accounts.Database.{IsUser, Distinct, IsDatabase}
use backup_system.Network.Session.Handled.{some_injective}
use backup_system.Network.Session.{Server, Connection, put_at, without, has_record, release_key}

pub has_name-add :
    (name : Bytes) (users : List UserRecord) (u : UserRecord)
    → has_name name users ≡ true
    → has_name name (users ++ (u ∷ [])) ≡ true
unfolding has_name
has_name-add name [] u h = absurd (cc)
has_name-add name (x ∷ xs) u h = ground (arith, has_name-add name xs u)

Distinct-add :
    (names users : List UserRecord) (u : UserRecord)
    → has_name u.name names ≡ false
    → has_name u.name users ≡ false
    → Distinct names users
    → Distinct names (users ++ (u ∷ []))
unfolding has_name
Distinct-add names [] u new new' h = (new, tt)
Distinct-add names (x ∷ users) u new new' (hx, h) =
    (hx, Distinct-add (x ∷ names) users u (ground arith) (ground arith) h)

All-add {ℓ κ} :
    {A : Type ℓ} (P : A → Type κ) (xs : List A) (a : A) → All P xs → P a → All P (xs ++ (a ∷ []))
All-add P [] a h ha = (ha, tt)
All-add P (x ∷ xs) a (hx, h) ha = (hx, All-add P xs a h ha)

-- A new account with a name that is free keeps a database, where there is room for it.
pub add-IsDatabase :
    (users : List UserRecord) (u : UserRecord)
    → IsDatabase users
    → IsUser u
    → has_name u.name users ≡ false
    → length (users ++ (u ∷ [])) ≤ max_users
    → IsDatabase (users ++ (u ∷ []))
add-IsDatabase users u h hu new room = record {
  all_users = All-add IsUser users u h.all_users hu;
  distinct = Distinct-add [] users u (unfold has_name in refl) new h.distinct;
  count_fits = room;
}

-- Fewer names before.
Distinct-fewer :
    (names more users : List UserRecord)
    → ((name : Bytes) → has_name name more ≡ false → has_name name names ≡ false)
    → Distinct more users
    → Distinct names users
unfolding has_name
Distinct-fewer names more [] h d = tt
Distinct-fewer names more (u ∷ users) h (new, d) =
    (h u.name new, Distinct-fewer (u ∷ names) (u ∷ more) users (fewer u h) d)
  where
    fewer :
        (u : UserRecord)
        → ((name : Bytes) → has_name name more ≡ false → has_name name names ≡ false)
        → (name : Bytes) → has_name name (u ∷ more) ≡ false
        → has_name name (u ∷ names) ≡ false
    fewer u h name e = ground (arith, h name)

has_name-tail :
    (u : UserRecord) (names : List UserRecord) (name : Bytes)
    → has_name name (u ∷ names) ≡ false
    → has_name name names ≡ false
unfolding has_name
has_name-tail u names name e = ground arith

Distinct-without :
    (name : Bytes) (names users : List UserRecord)
    → Distinct names users
    → Distinct names (without name users)
unfolding without
Distinct-without name names [] h = tt
Distinct-without name names (u ∷ users) (new, h) = elim (Bool-cases (bytes_eq u.name name)) [
  | inl same ↦ rw same (Distinct-fewer names (u ∷ names) users (has_name-tail u names) h)
  | inr other ↦ rw other (new, Distinct-without name (u ∷ names) users h)
]

All-without {κ} :
    (P : UserRecord → Type κ) (name : Bytes) (users : List UserRecord)
    → All P users
    → All P (without name users)
unfolding without
All-without P name [] h = tt
All-without P name (u ∷ users) (hu, h) = elim (Bool-cases (bytes_eq u.name name)) [
  | inl same ↦ rw same h
  | inr other ↦ rw other (hu, All-without P name users h)
]

length-without :
    (name : Bytes) (users : List UserRecord) → length (without name users) ≤ length users
unfolding without
length-without name [] = omega arith
length-without name (u ∷ users) = ground (arith, length-without name users)

pub without-IsDatabase :
    (name : Bytes) (users : List UserRecord) → IsDatabase users → IsDatabase (without name users)
without-IsDatabase name users h = record {
  all_users = All-without IsUser name users h.all_users;
  distinct = Distinct-without name [] users h.distinct;
  count_fits = omega (arith, length-without name users, h.count_fits);
}

-- The other accounts stay.
pub has_name-without :
    (name other : Bytes) (users : List UserRecord)
    → other ≢ name
    → has_name other users ≡ true
    → has_name other (without name users) ≡ true
unfolding without has_name
has_name-without name other [] differ h = h
has_name-without name other (u ∷ users) differ h = ground (
  arith,
  has_name-without name other users differ,
  bytes_eq→≡ u.name name,
  bytes_eq→≡ u.name other,
)

same_record :
    (x u : UserRecord)
    → (bytes_eq x.name u.name && bytes_eq x.salt u.salt && bytes_eq x.verifier u.verifier) ≡ true
    → x ≡ u
same_record x u h =
    let (front, verifiers) =
      and_both (bytes_eq x.name u.name && bytes_eq x.salt u.salt) (bytes_eq x.verifier u.verifier)
        h in
    let (names, salts) = and_both (bytes_eq x.name u.name) (bytes_eq x.salt u.salt) front in
    ap (λ n. record x { name = n }) (bytes_eq→≡ x.name u.name names)
    ∙ ap (λ n. record u { salt = n; verifier = x.verifier }) (bytes_eq→≡ x.salt u.salt salts)
    ∙ ap (λ n. record u { verifier = n }) (bytes_eq→≡ x.verifier u.verifier verifiers)

-- The record that has_record finds is one of the database.
pub has_record-split :
    (u : UserRecord) (users : List UserRecord)
    → has_record u users ≡ true
    → (before : List UserRecord) × (after : List UserRecord) × (users ≡ before ++ u ∷ after)
unfolding has_record
has_record-split u [] h = absurd (cc)
has_record-split u (x ∷ users) h =
    elim (Bool-cases
      (bytes_eq x.name u.name && bytes_eq x.salt u.salt && bytes_eq x.verifier u.verifier)) [
        | inl same ↦ ([], users, ap (λ t. t ∷ users) (same_record x u same))
        | inr other ↦
            let (before, after, e) = has_record-split u users (rw other at h) in
            (x ∷ before, after, ap (λ t. x ∷ t) e)
      ]

pub has_record-has_name :
    (u : UserRecord) (users : List UserRecord)
    → has_record u users ≡ true
    → has_name u.name users ≡ true
unfolding has_record has_name
has_record-has_name u [] h = absurd (cc)
has_record-has_name u (x ∷ users) h = ground (arith, has_record-has_name u users)

-- The user that was found is one of the database's, with that name.
pub user_named-eq-some :
    (name : Bytes) (users : List UserRecord) (u : UserRecord)
    → All IsUser users
    → user_named name users ≡ some u
    → IsUser u
unfolding user_named
user_named-eq-some name [] u h e = absurd (cc)
user_named-eq-some name (x ∷ users) u (hx, h) e = elim (Bool-cases (bytes_eq x.name name)) [
  | inl same ↦ subst IsUser (some_injective (rw same at e)) hx
  | inr other ↦ user_named-eq-some name users u h (rw other at e)
]

-- One where the session has the key, as in activeSessions.
unfoldable pub holds : Bytes → Option Bytes → ℕ
holds name none = 0
holds name (some key) = if bytes_eq key name then 1 else 0

unfoldable pub count_keys : Bytes → List Connection → ℕ
count_keys name [] = 0
count_keys name (c ∷ cs) = holds name c.key + count_keys name cs

pub count_keys-split :
    (name : Bytes) (before : List Connection) (c : Connection) (after : List Connection)
    → count_keys name (before ++ c ∷ after) ≡ holds name c.key + count_keys name (before ++ after)
unfolding count_keys
count_keys-split name [] c after = refl
count_keys-split name (x ∷ before) c after = omega (arith, count_keys-split name before c after)

-- A count of one that a session holds leaves none for the others.
pub count_keys-zero :
    (name : Bytes) (cs : List Connection) → count_keys name cs ≡ 0 → All (λ c. c.key ≢ some name) cs
unfolding count_keys holds
count_keys-zero name [] h = tt
count_keys-zero name (c ∷ cs) h = (
  λ e. let one : holds name c.key ≡ 1 = rw e (rw (bytes_eq_refl name)) in absurd (omega arith),
  count_keys-zero name cs (omega arith),
)

-- The element in the middle, and the others.
pub All-middle {ℓ κ} :
    {A : Type ℓ} (P : A → Type κ) (before : List A) (a : A) (after : List A)
    → All P (before ++ a ∷ after)
    → P a × All P (before ++ after)
All-middle P [] a after (ha, h) = (ha, h)
All-middle P (x ∷ before) a after (hx, h) =
    let (ha, rest) = All-middle P before a after h in (ha, (hx, rest))

pub All-insert {ℓ κ} :
    {A : Type ℓ} (P : A → Type κ) (before : List A) (a : A) (after : List A)
    → P a
    → All P (before ++ after)
    → All P (before ++ a ∷ after)
All-insert P [] a after ha h = (ha, h)
All-insert P (x ∷ before) a after ha (hx, h) = (hx, All-insert P before a after ha h)

pub All-map {ℓ κ κ'} :
    {A : Type ℓ} (P : A → Type κ) (Q : A → Type κ') (xs : List A)
    → ((a : A) → P a → Q a)
    → All P xs
    → All Q xs
All-map P Q [] f h = tt
All-map P Q (x ∷ xs) f (hx, h) = (f x hx, All-map P Q xs f h)

pub All-both {ℓ κ κ'} :
    {A : Type ℓ} (P : A → Type κ) (Q : A → Type κ') (xs : List A)
    → All P xs
    → All Q xs
    → All (λ a. P a × Q a) xs
All-both P Q [] h k = tt
All-both P Q (x ∷ xs) (hx, h) (kx, k) = ((hx, kx), All-both P Q xs h k)

-- Taking and releasing a key changes the counts as it changes who holds a key.
pub release_key-active :
    (s : Server) (o : Option Bytes) (name : Bytes)
    → holds name o ≤ s.active name
    → (release_key s o).active name + holds name o ≡ s.active name
unfolding release_key put_at holds
release_key-active s none name h = omega arith
release_key-active s (some key) name h = elim (bytes_eq_cases key name) [
  | inl same ↦ rw same (rw (bytes_eq_refl name) (omega (arith, held same h)))
  | inr (_, differ) ↦ rw differ (omega arith)
]
  where
    held : key ≡ name → holds name (some key) ≤ s.active name → 1 ≤ s.active name
    held same h = rw (same, bytes_eq_refl name) at h

pub release_key-file : (s : Server) (o : Option Bytes) → (release_key s o).users_file ≡ s.users_file
unfolding release_key
release_key-file s none = refl
release_key-file s (some key) = refl

pub take_key-active :
    (active : Bytes → ℕ) (key name : Bytes)
    → put_at active key (active key + 1) name + 0 ≡ active name + holds name (some key)
unfolding put_at holds
take_key-active active key name = elim (bytes_eq_cases key name) [
  | inl same ↦ rw same (rw (bytes_eq_refl name) (omega arith))
  | inr (_, differ) ↦ rw differ refl
]
