-- ===== src/Entry/Rules/Paths.antt =====
-- Safe paths, said without the code that tests them.
use backup_system.Base.{
  ℕ, ◌≡◌, ◌≢◌, refl, sym, ap, ◌∙◌, true, false, not, ◌&&◌, Bool-cases, inl, inr, List, [], ◌∷◌,
  ◌++◌, append_assoc, append-nil, length, ◌==◌, ==_iff, is_empty, All, All-split, and_both, arith,
}
use backup_system.Stream.{Bytes, bytes_eq, no_nul}
use backup_system.Stream.Equal.{bytes_eq_refl}
use backup_system.Entry.Rules.{
  add_front, path_parts, safe_part, all_safe, safe_archive_path, parents_of, parents,
}

-- The parts with a slash between them.
unfoldable pub join : List Bytes → Bytes
join [] = []
join (part ∷ []) = part
join (part ∷ next ∷ parts) = part ++ 0x2f ∷ join (next ∷ parts)

-- A name: neither empty nor "." nor "..", and with no slash in it.
pub record IsName (part : Bytes) : Type 0 where
  pub some : part ≢ []
  pub not_dot : part ≢ 0x2e ∷ []
  pub not_dots : part ≢ 0x2e ∷ 0x2e ∷ []
  pub no_slash : All (λ b. b ≢ 0x2f) part

-- Names with a slash between them, and no byte that is 0.
pub record IsSafePath (path : Bytes) : Type 0 where
  pub names : List Bytes
  pub joined : path ≡ join names
  pub all_names : All IsName names
  pub nonempty : path ≢ []
  pub no_zero : All (λ b. b ≢ 0) path

path_parts-cons :
    (path : Bytes) → (part : Bytes) × (parts : List Bytes) × (path_parts path ≡ part ∷ parts)
unfolding path_parts add_front
path_parts-cons [] = ([], [], refl)
path_parts-cons (b ∷ bs) =
    let (part, parts, e) = path_parts-cons bs in
    elim (Bool-cases (b == 0x2f)) [
      | inl slash ↦ rw slash ([], path_parts bs, refl)
      | inr other ↦ rw (other, e) (b ∷ part, parts, refl)
    ]

join-front :
    (b : ℕ) (part : Bytes) (parts : List Bytes)
    → join ((b ∷ part) ∷ parts) ≡ b ∷ join (part ∷ parts)
unfolding join
join-front b part [] = refl
join-front b part (next ∷ parts) = refl

join-path_parts : (path : Bytes) → join (path_parts path) ≡ path
unfolding join path_parts add_front
join-path_parts [] = refl
join-path_parts (b ∷ bs) =
    let (part, parts, e) = path_parts-cons bs in
    let rest : join (part ∷ parts) ≡ bs = ap join (sym e) ∙ join-path_parts bs in
    elim (Bool-cases (b == 0x2f)) [
      | inl slash ↦
          rw (slash, e) (ap (λ t. 0x2f ∷ t) rest ∙ ap (λ t. t ∷ bs) (sym ((==_iff b 0x2f).0 slash)))
      | inr other ↦ rw (other, e) (join-front b part parts ∙ ap (λ t. b ∷ t) rest)
    ]

not_slash : (b : ℕ) → (b == 0x2f) ≡ false → b ≢ 0x2f
not_slash b h e = ground arith

path_parts-no_slash : (path : Bytes) → All (λ part. All (λ b. b ≢ 0x2f) part) (path_parts path)
unfolding path_parts add_front
path_parts-no_slash [] = (tt, tt)
path_parts-no_slash (b ∷ bs) =
    let (part, parts, e) = path_parts-cons bs in
    let rest = path_parts-no_slash bs in
    elim (Bool-cases (b == 0x2f)) [
      | inl slash ↦ rw slash (tt, rest)
      | inr other ↦
          let (here, there) = rw e at rest in rw (other, e) ((not_slash b other, here), there)
    ]

safe_part-IsName : (part : Bytes) → safe_part part ≡ true → All (λ b. b ≢ 0x2f) part → IsName part
unfolding safe_part
safe_part-IsName part h clean =
    let (front, dots) =
      and_both (not (is_empty part) && not (bytes_eq part (0x2e ∷ [])))
        (not (bytes_eq part (0x2e ∷ 0x2e ∷ []))) h in
    let (some, dot) = and_both (not (is_empty part)) (not (bytes_eq part (0x2e ∷ []))) front in
    record {
      some = λ e. let no : false ≡ true = rw e at some in absurd (cc);
      not_dot = λ e. differs part (0x2e ∷ []) dot e;
      not_dots = λ e. differs part (0x2e ∷ 0x2e ∷ []) dots e;
      no_slash = clean;
    }
  where
    differs : (x y : Bytes) → not (bytes_eq x y) ≡ true → x ≢ y
    differs x y test e =
        let same : bytes_eq x y ≡ true = rw e (bytes_eq_refl y) in
        let no : false ≡ true = ap not (sym same) ∙ test in absurd (cc)

all_safe-IsName :
    (parts : List Bytes)
    → all_safe parts ≡ true
    → All (λ part. All (λ b. b ≢ 0x2f) part) parts
    → All IsName parts
unfolding all_safe
all_safe-IsName [] h clean = tt
all_safe-IsName (part ∷ parts) h (here, there) = elim (Bool-cases (safe_part part)) [
  | inl safe ↦ (safe_part-IsName part safe here, all_safe-IsName parts (rw safe at h) there)
  | inr not_safe ↦ let no = rw not_safe at h in absurd (cc)
]

no_nul-All : (value : Bytes) → no_nul value ≡ true → All (λ b. b ≢ 0) value
unfolding no_nul
no_nul-All [] h = tt
no_nul-All (b ∷ bs) h = elim (Bool-cases (b == 0)) [
  | inl zeroed ↦ let no = rw zeroed at h in absurd (cc)
  | inr other ↦ ((λ e. ground arith), no_nul-All bs (rw other at h))
]

pub safe_archive_path-IsSafePath : (path : Bytes) → safe_archive_path path ≡ true → IsSafePath path
unfolding safe_archive_path
safe_archive_path-IsSafePath path h =
    let (front, safe) =
      and_both (not (is_empty path) && no_nul path) (all_safe (path_parts path)) h in
    let (some, clean) = and_both (not (is_empty path)) (no_nul path) front in
    record {
      names = path_parts path;
      joined = sym (join-path_parts path);
      all_names = all_safe-IsName (path_parts path) safe (path_parts-no_slash path);
      nonempty = λ e. let no : false ≡ true = rw e at some in absurd (cc);
      no_zero = no_nul-All path clean;
    }

-- A path of one part has no slash.
pub one_part-no_slash : (path : Bytes) → length (path_parts path) ≡ 1 → All (λ b. b ≢ 0x2f) path
unfolding path_parts add_front
one_part-no_slash [] h = tt
one_part-no_slash (b ∷ bs) h =
    let (part, parts, e) = path_parts-cons bs in
    elim (Bool-cases (b == 0x2f)) [
      | inl slash ↦ let two = rw (slash, e) at h in absurd (omega (arith, two))
      | inr other ↦
          let one = rw (other, e) at h in
          (not_slash b other, one_part-no_slash bs (ap (λ t. length t) e ∙ one))
    ]

-- What holds of all the paths above a path holds of what stands before each of its slashes.
parents_of-All {κ} :
    (P : Bytes → Type κ) (before front back : Bytes)
    → All P (parents_of before (front ++ 0x2f ∷ back))
    → P (before ++ front)
unfolding parents_of
parents_of-All P before [] back h =
    let (_, (last, _)) = All-split P (parents_of (before ++ (0x2f ∷ [])) back) (before ∷ []) h in
    rw (append-nil before) last
parents_of-All P before (x ∷ xs) back h =
    let more : All P (parents_of (before ++ (x ∷ [])) (xs ++ 0x2f ∷ back)) =
      elim (Bool-cases (x == 0x2f)) [
        | inl slash ↦ (All-split P _ (before ∷ []) (rw slash at h)).0
        | inr other ↦ rw other at h
      ] in
    rw (append_assoc before (x ∷ []) xs) at (parents_of-All P (before ++ (x ∷ [])) xs back more)

pub parents-All {κ} :
    (P : Bytes → Type κ) (path front back : Bytes)
    → All P (parents path)
    → path ≡ front ++ 0x2f ∷ back
    → P front
unfolding parents
parents-All P path front back h e = parents_of-All P [] front back (rw e at h)
