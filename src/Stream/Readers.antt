-- ===== src/Stream/Readers.antt =====
-- The readers of common.cpp, each with the bytes that it takes.
use backup_system.Base.{
  ℕ, ◌*◌, ◌^◌, ◌<◌, ◌≤◌, ◌≡◌, refl, sym, ap, ap₂, ◌∙◌, true, false, inl, inr, ◌++◌, append-nil,
  length, length-take, take, drop, take-append-drop, leb, leb→le, All, All-take, All-drop,
  Bool-cases, arith,
}
use backup_system.Base.Outcome.{ok}
use backup_system.Stream.{
  Bytes, IsByte, max_string, no_nul, read_exact, read_word, read_u8, read_u16, read_u32, read_u64,
  read_string, word_bytes, write_u32, write_string,
}
use backup_system.Stream.Consumed.{Takes, accepted, rejected, Takes-pure, Takes-bind, Takes-ensure}
use backup_system.Stream.Words.{word_bytes-or_bytes, or_bytes_width}
use backup_system.Stream.Text.{write_string-eq}

-- The bytes taken are `v` itself.
abbrev pub IsTaken : ℕ → Bytes → Bytes → Type 0
IsTaken n v xs = (xs ≡ v) × (length v ≡ n) × All IsByte v

-- The bytes taken are the little-endian word `v`.
abbrev pub IsDigits : ℕ → ℕ → Bytes → Type 0
IsDigits n v xs = (xs ≡ word_bytes n 0 v) × (v < 2 ^ (n * 8))

pub Takes-read_exact : (n : ℕ) → Takes false (IsTaken n) (read_exact n)
unfolding read_exact
Takes-read_exact n = record {
  at = λ input bytes. elim (Bool-cases (leb n (length input))) [
    | inl enough ↦ rw enough (
        accepted (take n input) (drop n input)
          (
            refl,
            omega (arith, leb→le n (length input) enough, length-take n input),
            All-take IsByte n input bytes,
          )
          (sym (take-append-drop n input)) (λ e. absurd (cc)) (All-drop IsByte n input bytes))
    | inr few ↦ rw few rejected
  ];
}

pub Takes-read_word : (n : ℕ) → Takes false (IsDigits n) (read_word n)
unfolding read_word
Takes-read_word n = Takes-bind (Takes-read_exact n) λ v xs (same, size, bytes). Takes-pure (
  rw append-nil (rw same (sym (word_bytes-or_bytes n v size bytes))),
  or_bytes_width n v size bytes,
)

pub Takes-read_u8 : Takes false (IsDigits 1) read_u8
unfolding read_u8
Takes-read_u8 = Takes-read_word 1

pub Takes-read_u16 : Takes false (IsDigits 2) read_u16
unfolding read_u16
Takes-read_u16 = Takes-read_word 2

pub Takes-read_u32 : Takes false (IsDigits 4) read_u32
unfolding read_u32
Takes-read_u32 = Takes-read_word 4

pub Takes-read_u64 : Takes false (IsDigits 8) read_u64
unfolding read_u64
Takes-read_u64 = Takes-read_word 8

-- The bytes taken are those of writeString, for a string within the limit and with no NUL byte.
abbrev pub IsString : Bytes → Bytes → Type 0
IsString s xs = (length s ≤ max_string) × (no_nul s ≡ true) × (write_string s ≡ ok xs)

pub Takes-read_string : Takes false IsString read_string
unfolding read_string write_u32
Takes-read_string = Takes-bind Takes-read_u32 λ n ns (size, _).
    Takes-ensure (leb n max_string) _ λ small.
      Takes-bind (Takes-read_exact n) λ s xs (same, sized, _). Takes-ensure (no_nul s) _ λ clean.
        let short : length s ≤ max_string = omega (arith, leb→le n max_string small) in
        Takes-pure (
          short,
          clean,
          write_string-eq s short
              ∙ ap ok (
                  ap₂ (λ a b. a ++ b) (ap (λ t. word_bytes 4 0 t) sized ∙ sym size)
                    (sym same ∙ sym (append-nil xs))),
        )
