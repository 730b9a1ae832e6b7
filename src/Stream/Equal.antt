-- ===== src/Stream/Equal.antt =====
-- The comparison of two byte arrays is equality.
use backup_system.Base.{
  ==_iff, ◌≡◌, ◌≢◌, ◌↔◌, ◌⊎◌, inl, inr, refl, true, false, [], ◌∷◌, arith, Bool-cases,
}
use backup_system.Stream.{Bytes, bytes_eq}

pub bytes_eq_refl : (xs : Bytes) → bytes_eq xs xs ≡ true
unfolding bytes_eq
bytes_eq_refl [] = refl
bytes_eq_refl (x ∷ xs) = rw ((==_iff x x).1 refl, bytes_eq_refl xs)

pub bytes_eq→≡ : (xs ys : Bytes) → bytes_eq xs ys ≡ true → xs ≡ ys
unfolding bytes_eq
bytes_eq→≡ [] [] h = refl
bytes_eq→≡ [] (y ∷ ys) h = absurd (cc)
bytes_eq→≡ (x ∷ xs) [] h = absurd (cc)
bytes_eq→≡ (x ∷ xs) (y ∷ ys) h = ground (arith, bytes_eq→≡ xs ys)

pub bytes_eq_iff : (xs ys : Bytes) → (bytes_eq xs ys ≡ true) ↔ (xs ≡ ys)
bytes_eq_iff xs ys = (bytes_eq→≡ xs ys, λ e. rw e (bytes_eq_refl ys))

pub bytes_eq_cases : (xs ys : Bytes) → (xs ≡ ys) ⊎ ((xs ≢ ys) × (bytes_eq xs ys ≡ false))
bytes_eq_cases xs ys = elim (Bool-cases (bytes_eq xs ys)) [
  | inl same ↦ inl (bytes_eq→≡ xs ys same)
  | inr differ ↦ inr ((λ e. ground (arith, (bytes_eq_iff xs ys).1 e)), differ)
]
