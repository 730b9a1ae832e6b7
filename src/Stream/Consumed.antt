-- ===== src/Stream/Consumed.antt =====
-- What a reader accepts, together with the bytes that it takes from the front of the input.
use backup_system.Base.{
  ◌≡◌, refl, sym, ap, ◌∙◌, subst, String, Bool, true, false, ◌⊎◌, inl, inr, [], ◌∷◌, ◌++◌,
  append_assoc, append-nil, All,
}
use backup_system.Base.Outcome
use backup_system.Base.Outcome.{Result, ok, err, out_of_fuel}
use backup_system.Stream.{Bytes, IsByte, Reader, ◌>>=◌, pure, ensure, at_end, run}

-- The outcome on an input: a value related to the bytes taken, or a message. Where `whole` holds,
-- nothing is left.
pub data Taken {ℓ κ} (whole : Bool) {A : Type ℓ} (R : A → Bytes → Type κ) (input : Bytes)
    : Result (A × Bytes) → Type (ℓ ⊔ κ) where
  accepted :
      {a : A} (xs rest : Bytes)
      → R a xs
      → input ≡ xs ++ rest
      → (whole ≡ true → rest ≡ [])
      → All IsByte rest
      → Taken whole R input (ok (a, rest))
  rejected : {e : String} → Taken whole R input (err e)

pub record Takes {ℓ κ} (whole : Bool) {A : Type ℓ} (R : A → Bytes → Type κ) (m : Reader A)
    : Type (ℓ ⊔ κ) where
  pub at : (input : Bytes) → All IsByte input → Taken whole R input (m input)

module _ {ℓ κ} {A : Type ℓ} {R : A → Bytes → Type κ} where
  pub Takes-pure : {a : A} → R a [] → Takes false R (pure a)
  Takes-pure h = record { at = λ input bytes. accepted [] input h refl (λ e. absurd (cc)) bytes }

  -- A reader that leaves nothing has taken the whole input.
  pub run-whole :
      (m : Reader A) (input : Bytes)
      → Takes true R m
      → All IsByte input
      → ((a : A) × (run m input ≡ ok a) × R a input) ⊎ ((e : String) × (run m input ≡ err e))
  run-whole m input h bytes = go (m input) refl (h.at input bytes)
    where
      go :
          (r : Result (A × Bytes))
          → m input ≡ r
          → Taken true R input r
          → ((a : A) × (run m input ≡ ok a) × R a input) ⊎ ((e : String) × (run m input ≡ err e))
      go (ok (a, left)) e (accepted xs rest p split none_left _) =
          let all : input ≡ xs = split ∙ ap (λ t. xs ++ t) (none_left refl) ∙ append-nil xs in
          inl (a, rw e, subst (λ t. R a t) (sym all) p)
      go (err x) e rejected = inr (x, rw e)
      go out_of_fuel e p = elim p [ ]

module _ {ℓ κ κ'} {A : Type ℓ} {R : A → Bytes → Type κ} {S : A → Bytes → Type κ'} where
  Taken-map :
      {whole : Bool} {input : Bytes} {r : Result (A × Bytes)}
      → Taken whole R input r
      → ((a : A) (xs : Bytes) → R a xs → S a xs)
      → Taken whole S input r
  Taken-map (accepted {a} xs rest h split end bytes) f = accepted xs rest (f a xs h) split end bytes
  Taken-map rejected f = rejected

  pub Takes-map :
      {whole : Bool} {m : Reader A}
      → Takes whole R m
      → ((a : A) (xs : Bytes) → R a xs → S a xs)
      → Takes whole S m
  Takes-map h f = record { at = λ input bytes. Taken-map (h.at input bytes) f }

-- A test by itself takes nothing.
pub Takes-test :
    (b : Bool) (message : String) → Takes false (λ _ xs. (xs ≡ []) × (b ≡ true)) (ensure b message)
Takes-test true message = record {
  at = λ input bytes. accepted [] input (refl, refl) refl (λ e. absurd (cc)) bytes;
}
Takes-test false message = record { at = λ input bytes. rejected }

-- A reader that leaves something has taken the front of the input.
pub run-front {ℓ κ} :
    {A : Type ℓ} {R : A → Bytes → Type κ} (m : Reader A) (input : Bytes)
    → Takes false R m
    → All IsByte input
    → ((a : A) × (run m input ≡ ok a)
        × ((xs : Bytes) × (rest : Bytes) × (input ≡ xs ++ rest) × R a xs))
      ⊎ ((e : String) × (run m input ≡ err e))
run-front {A} {R} m input h bytes = go (m input) refl (h.at input bytes)
  where
    go :
        (r : Result (A × Bytes))
        → m input ≡ r
        → Taken false R input r
        → ((a : A) × (run m input ≡ ok a)
            × ((xs : Bytes) × (rest : Bytes) × (input ≡ xs ++ rest) × R a xs))
          ⊎ ((e : String) × (run m input ≡ err e))
    go (ok (a, left)) e (accepted xs rest p split _ _) = inl (a, rw e, (xs, left, split, p))
    go (err x) e rejected = inr (x, rw e)
    go out_of_fuel e p = elim p [ ]

Taken-more {ℓ κ} :
    {whole : Bool} {B : Type ℓ} {S : B → Bytes → Type κ} {input : Bytes} {r : Result (B × Bytes)}
    (xs rest : Bytes)
    → input ≡ xs ++ rest
    → Taken whole (λ b ys. S b (xs ++ ys)) rest r
    → Taken whole S input r
Taken-more xs rest split (accepted ys left s split' end bytes) =
    accepted (xs ++ ys) left s (split ∙ ap (λ t. xs ++ t) split' ∙ sym (append_assoc xs ys left))
      end bytes
Taken-more xs rest split rejected = rejected

module _ {ℓ κ ℓ' κ'} {A : Type ℓ} {B : Type ℓ'} {R : A → Bytes → Type κ} {S : B → Bytes → Type κ'}
    {whole : Bool} where
  Taken-bind :
      {input : Bytes} {r : Result (A × Bytes)} (f : A → Reader B)
      → Taken false R input r
      → ((a : A) (xs : Bytes) → R a xs → Takes whole (λ b ys. S b (xs ++ ys)) (f a))
      → Taken whole S input (Outcome.◌>>=◌ r λ (a, rest). f a rest)
  Taken-bind f (accepted {a} xs rest h split _ bytes) k =
      Taken-more xs rest split ((k a xs h).at rest bytes)
  Taken-bind f rejected k = rejected

  pub Takes-bind :
      {m : Reader A} {f : A → Reader B}
      → Takes false R m
      → ((a : A) (xs : Bytes) → R a xs → Takes whole (λ b ys. S b (xs ++ ys)) (f a))
      → Takes whole S (m >>= f)
  Takes-bind {f} h k = record { at = λ input bytes. Taken-bind f (h.at input bytes) k }

module _ {ℓ κ} {A : Type ℓ} {R : A → Bytes → Type κ} where
  pub Takes-ensure :
      {whole : Bool} (b : Bool) (message : String) {k : Reader A}
      → (b ≡ true → Takes whole R k)
      → Takes whole R (ensure b message >>= λ _. k)
  Takes-ensure true message h = h refl
  Takes-ensure false message h = record { at = λ input bytes. rejected }

  nothing-Taken : {r : Result (A × Bytes)} → Taken false R [] r → Taken true R [] r
  nothing-Taken (accepted [] rest h split _ bytes) = accepted [] rest h split (λ _. sym split) bytes
  nothing-Taken (accepted (x ∷ xs) rest h split _ bytes) = absurd (cc)
  nothing-Taken rejected = rejected

  -- Nothing is left after the end.
  pub Takes-at_end :
      (message : String) {k : Reader A} → Takes false R k → Takes true R (at_end message >>= λ _. k)
  unfolding at_end
  Takes-at_end message {k} h = record { at = at_end-Taken }
    where
      at_end-Taken :
          (input : Bytes)
          → All IsByte input
          → Taken true R input (Outcome.◌>>=◌ (at_end message input) λ (u, rest). k rest)
      at_end-Taken [] bytes = nothing-Taken (h.at [] tt)
      at_end-Taken (b ∷ bs) bytes = rejected
