-- ===== src/Stream/Post.antt =====
-- Postconditions of readers, on every input of bytes. A reader that meets one returns a value or
-- throws: it does not run out of fuel.
use backup_system.Base.{
  ℕ, ◌*◌, ◌^◌, ◌<◌, ◌≡◌, refl, String, Bool, true, false, Bool-cases, ◌⊎◌, inl, inr, [], ◌∷◌,
  length, take, drop, All, All-split, leb,
}
use backup_system.Base.Outcome
use backup_system.Base.Outcome.{Result, ok, err, out_of_fuel}
use backup_system.Stream.{
  Bytes, IsByte, Reader, ◌>>=◌, pure, ensure, at_end, run, read_exact, read_word, read_u8, read_u32,
  read_u64,
}
use backup_system.Stream.Consumed
use backup_system.Stream.Words.{read_exact-eq-ok, or_bytes_width}

pub data Post {ℓ κ} {A : Type ℓ} (P : A → Type κ) : Result (A × Bytes) → Type (ℓ ⊔ κ) where
  accepted : {a : A} {rest : Bytes} → P a → All IsByte rest → Post P (ok (a, rest))
  rejected : {e : String} → Post P (err e)

pub record Reads {ℓ κ} {A : Type ℓ} (P : A → Type κ) (m : Reader A) : Type (ℓ ⊔ κ) where
  pub at : (input : Bytes) → All IsByte input → Post P (m input)

module _ {ℓ κ κ'} {A : Type ℓ} {P : A → Type κ} {R : A → Bytes → Type κ'} where
  Post-Taken :
      {whole : Bool} {input : Bytes} {r : Result (A × Bytes)}
      → Consumed.Taken whole R input r
      → ((a : A) (xs : Bytes) → R a xs → P a)
      → Post P r
  Post-Taken (Consumed.accepted {a} xs rest h split end bytes) f = accepted (f a xs h) bytes
  Post-Taken Consumed.rejected f = rejected

  -- What a reader accepts, without the bytes that it takes.
  pub Reads-Takes :
      {whole : Bool} {m : Reader A}
      → Consumed.Takes whole R m
      → ((a : A) (xs : Bytes) → R a xs → P a)
      → Reads P m
  Reads-Takes h f = record { at = λ input bytes. Post-Taken (h.at input bytes) f }

module _ {ℓ κ} {A : Type ℓ} {P : A → Type κ} where
  pub Reads-pure : {a : A} → P a → Reads P (pure a)
  Reads-pure h = record { at = λ input bytes. accepted h bytes }

  -- What `run` makes of a reader that meets a postcondition.
  pub run-cases :
      (m : Reader A) (input : Bytes)
      → Reads P m
      → All IsByte input
      → ((a : A) × (run m input ≡ ok a) × P a) ⊎ ((e : String) × (run m input ≡ err e))
  run-cases m input h bytes = go (m input) refl (h.at input bytes)
    where
      go :
          (r : Result (A × Bytes))
          → m input ≡ r
          → Post P r
          → ((a : A) × (run m input ≡ ok a) × P a) ⊎ ((e : String) × (run m input ≡ err e))
      go (ok (a, rest)) e (accepted p _) = inl (a, rw e, p)
      go (err x) e rejected = inr (x, rw e)
      go out_of_fuel e p = elim p [ ]

module _ {ℓ κ ℓ' κ'} {A : Type ℓ} {B : Type ℓ'} {P : A → Type κ} {Q : B → Type κ'} where
  Post-bind :
      {r : Result (A × Bytes)} (f : A → Reader B)
      → Post P r
      → ((a : A) → P a → Reads Q (f a))
      → Post Q (Outcome.◌>>=◌ r λ (a, rest). f a rest)
  Post-bind f (accepted {a} {rest} h bytes) k = (k a h).at rest bytes
  Post-bind f rejected k = rejected

  pub Reads-bind :
      {m : Reader A} {f : A → Reader B}
      → Reads P m
      → ((a : A) → P a → Reads Q (f a))
      → Reads Q (m >>= f)
  Reads-bind {f} h k = record { at = λ input bytes. Post-bind f (h.at input bytes) k }

pub Reads-ensure : (b : Bool) (message : String) → Reads (λ _. b ≡ true) (ensure b message)
Reads-ensure true message = record { at = λ input bytes. accepted refl bytes }
Reads-ensure false message = record { at = λ input bytes. rejected }

-- A weaker postcondition.
pub Reads-map {ℓ κ κ'} :
    {A : Type ℓ} {P : A → Type κ} {Q : A → Type κ'} {m : Reader A}
    → Reads P m
    → ((a : A) → P a → Q a)
    → Reads Q m
Reads-map {A} {P} {Q} {m} h k = record { at = λ input bytes. weaken (h.at input bytes) }
  where
    weaken : {r : Result (A × Bytes)} → Post P r → Post Q r
    weaken (accepted {a} p bytes) = accepted (k a p) bytes
    weaken rejected = rejected

exact_or_err :
    (n : ℕ) (input : Bytes)
    → ((p : Bytes × Bytes) × (read_exact n input ≡ ok p))
      ⊎ ((e : String) × (read_exact n input ≡ err e))
unfolding read_exact
exact_or_err n input = elim (Bool-cases (leb n (length input))) [
  | inl fits ↦ inl ((take n input, drop n input), rw fits)
  | inr short ↦ inr ("truncated or unreadable input stream", rw short)
]

abbrev pub IsBlock : ℕ → Bytes → Type 0
IsBlock n xs = (length xs ≡ n) × All IsByte xs

pub Reads-read_exact : (n : ℕ) → Reads (IsBlock n) (read_exact n)
Reads-read_exact n = record {
  at = λ input bytes. elim (exact_or_err n input) [
    | inl ((xs, rest), e) ↦
        let (split, size) = read_exact-eq-ok n input e in
        let (hx, hr) = All-split IsByte xs rest (rw split at bytes) in rw e (accepted (size, hx) hr)
    | inr (x, e) ↦ rw e rejected
  ];
}

pub Reads-read_word : (n : ℕ) → Reads (λ v. v < 2 ^ (n * 8)) (read_word n)
unfolding read_word
Reads-read_word n =
    Reads-bind (Reads-read_exact n) λ b (size, bytes). Reads-pure (or_bytes_width n b size bytes)

pub Reads-read_u8 : Reads (λ v. v < 2 ^ 8) read_u8
unfolding read_u8
Reads-read_u8 = Reads-read_word 1

pub Reads-read_u32 : Reads (λ v. v < 2 ^ 32) read_u32
unfolding read_u32
Reads-read_u32 = Reads-read_word 4

pub Reads-read_u64 : Reads (λ v. v < 2 ^ 64) read_u64
unfolding read_u64
Reads-read_u64 = Reads-read_word 8

pub Reads-at_end : (message : String) → Reads (λ _. Unit {0}) (at_end message)
unfolding at_end
Reads-at_end message = record { at = at_end-Post message }
  where
    at_end-Post :
        (message : String) (input : Bytes)
        → All IsByte input
        → Post (λ _. Unit {0}) (at_end message input)
    at_end-Post message [] bytes = accepted tt tt
    at_end-Post message (b ∷ bs) bytes = rejected
