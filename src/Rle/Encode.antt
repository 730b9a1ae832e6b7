-- ===== src/Rle/Encode.antt =====
-- The encoder's state stands for the input read so far, and it writes RLE blocks.
use backup_system.Base.{
  ℕ, zero, suc, ◌+◌, ◌-◌, ◌≤◌, ◌<◌, bit_or, ◌≡◌, refl, sym, ap, ap₂, ◌∙◌, inl, inr, Bool, false,
  ◌&&◌, Bool-cases, [], ◌∷◌, ◌++◌, append_assoc, append-nil, length, length-append, replicate,
  replicate-append, All, arith, leb, ltb, ◌==◌,
}
use backup_system.Stream.{Bytes, IsByte, write_u8}
use backup_system.Rle.{
  RleState, rle_start, flush_literals, add_literal, add_literals, flush_run, rle_byte, rle_bytes,
  rle_finish,
}
use backup_system.Rle.Blocks.{Encodes, none_left, run_of, verbatim, Encodes-append}

-- What was written and the pending literals make up `xs`.
pub record Emits (s : RleState) (xs : Bytes) : Type 0 where
  pub emitted : Bytes
  pub written : Encodes s.out emitted
  pub total : emitted ++ s.literals ≡ xs
  pub pending : length s.literals < 128

-- One block more at the end.
Encodes-verbatim :
    (out em ls : Bytes) (n : ℕ)
    → Encodes out em
    → length ls ≡ suc n
    → n < 128
    → Encodes (out ++ (write_u8 n ++ ls)) (em ++ ls)
Encodes-verbatim out em ls n h size few =
    Encodes-append (write_u8 n ++ ls) ls h (rw append-nil at single)
  where
    single : Encodes (write_u8 n ++ (ls ++ [])) (ls ++ [])
    single = verbatim n ls few size none_left

Encodes-run :
    (out em : Bytes) (n value : ℕ)
    → Encodes out em
    → n < 128
    → value < 256
    → Encodes (out ++ (write_u8 (bit_or 0x80 n) ++ write_u8 value)) (em ++ replicate (suc n) value)
Encodes-run out em n value h few byte =
    Encodes-append (write_u8 (bit_or 0x80 n) ++ write_u8 value) (replicate (suc n) value) h
      (rw (append-nil (write_u8 value), append-nil (replicate (suc n) value)) at single)
  where
    single :
        Encodes (write_u8 (bit_or 0x80 n) ++ (write_u8 value ++ [])) (replicate (suc n) value ++ [])
    single = run_of n value few byte none_left

-- Flushing writes the pending literals, whatever they are.
flushed :
    (out em ls : Bytes) (b : Bool) (v n : ℕ)
    → Encodes out em
    → length ls ≤ 128
    → let s : RleState = record {
      out = out;
      literals = ls;
      have_run = b;
      run_byte = v;
      run_length = n;
    } in
      Encodes (flush_literals s).out (em ++ ls)
      × ((flush_literals s).literals ≡ [])
      × ((flush_literals s).have_run ≡ b)
unfolding flush_literals
flushed out em [] b v n h few = (rw append-nil h, refl, refl)
flushed out em (x ∷ ls) b v n h few =
    let size : length ls ≡ suc (length ls) - 1 = omega arith in
    (rw (← size) (Encodes-verbatim out em (x ∷ ls) (length ls) h refl (omega arith)), refl, refl)

flush_literals_lem :
    (s : RleState) (em : Bytes)
    → Encodes s.out em
    → length s.literals ≤ 128
    → Encodes (flush_literals s).out (em ++ s.literals)
      × ((flush_literals s).literals ≡ [])
      × ((flush_literals s).have_run ≡ s.have_run)
flush_literals_lem s em h few = flushed s.out em s.literals s.have_run s.run_byte s.run_length h few

add_literal-Emits :
    (s : RleState) (xs : Bytes) (value : ℕ)
    → Emits s xs
    → Emits (add_literal s value) (xs ++ value ∷ [])
unfolding add_literal
add_literal-Emits s xs value e = elim (Bool-cases (length s'.literals == 128)) [
  | inl full ↦
      let (written, empty, _) = flush_literals_lem s' e.emitted e.written (omega (arith, size)) in
      rw full (record {
        emitted = e.emitted ++ s'.literals;
        written = written;
        total = rw empty (append-nil (e.emitted ++ s'.literals) ∙ total);
        pending = rw empty (omega arith);
      })
  | inr short ↦ rw short (record {
    emitted = e.emitted;
    written = e.written;
    total = total;
    pending = ground (arith, size);
  })
]
  where
    s' : RleState
    s' = record s { literals = s.literals ++ value ∷ [] }

    size : length s'.literals ≡ length s.literals + 1
    size = omega (arith, length-append s.literals (value ∷ []))

    total : e.emitted ++ s'.literals ≡ xs ++ value ∷ []
    total = sym (append_assoc e.emitted s.literals (value ∷ [])) ∙ ap (λ t. t ++ value ∷ []) e.total

add_literals-Emits :
    (s : RleState) (xs : Bytes) (value count : ℕ)
    → Emits s xs
    → Emits (add_literals s value count) (xs ++ replicate count value)
unfolding add_literals
add_literals-Emits s xs value zero e = rw (append-nil xs) e
add_literals-Emits s xs value (suc count) e =
    rw (append_assoc xs (value ∷ []) (replicate count value)) at (
      add_literals-Emits (add_literal s value) (xs ++ value ∷ []) value count
        (add_literal-Emits s xs value e))

suc-sub_one : (n : ℕ) → suc n - 1 ≡ n
suc-sub_one n = omega arith

flush_run-Emits :
    (s : RleState) (xs : Bytes) (value count : ℕ)
    → Emits s xs
    → value < 256
    → count ≤ 128
    → Emits (flush_run s value count) (xs ++ replicate count value)
unfolding flush_run
flush_run-Emits s xs value zero e byte few = add_literals-Emits s xs value 0 e
flush_run-Emits s xs value (suc n) e byte few = elim (Bool-cases (leb 3 (suc n))) [
  | inl long ↦
      let (written, empty, _) = flush_literals_lem s e.emitted e.written (omega arith) in
      rw long (record {
        emitted = (e.emitted ++ s.literals) ++ replicate (suc n) value;
        written = rw (suc-sub_one n) (
            Encodes-run (flush_literals s).out (e.emitted ++ s.literals) n value written
              (omega arith) byte);
        total =
            rw (empty, append-nil ((e.emitted ++ s.literals) ++ replicate (suc n) value), e.total);
        pending = rw empty (omega arith);
      })
  | inr short ↦ rw short (add_literals-Emits s xs value (suc n) e)
]

add_literal-have_run : (s : RleState) (value : ℕ) → (add_literal s value).have_run ≡ s.have_run
unfolding add_literal flush_literals
add_literal-have_run s value = ground arith

add_literals-have_run :
    (s : RleState) (value count : ℕ) → (add_literals s value count).have_run ≡ s.have_run
unfolding add_literals
add_literals-have_run s value zero = refl
add_literals-have_run s value (suc count) =
    add_literals-have_run (add_literal s value) value count ∙ add_literal-have_run s value

flush_run-have_run :
    (s : RleState) (value count : ℕ) → (flush_run s value count).have_run ≡ s.have_run
unfolding flush_run flush_literals
flush_run-have_run s value count = ground (arith, add_literals-have_run s value count)

-- The whole state after reading `xs`: the current run is not written yet.
pub record HasRead (s : RleState) (xs : Bytes) : Type 0 where
  pub before : Bytes
  pub emits : Emits s before
  pub total : before ++ replicate s.run_length s.run_byte ≡ xs
  pub byte : s.run_byte < 256
  pub bound : s.run_length ≤ 128
  pub idle : s.have_run ≡ false → s.run_length ≡ 0

nothing_pending :
    (s : RleState) {xs : Bytes} (r : HasRead s xs) → s.have_run ≡ false → r.before ≡ xs
nothing_pending s r free =
    sym (append-nil r.before)
    ∙ ap (λ (n : ℕ). r.before ++ replicate n s.run_byte) (sym (r.idle free))
    ∙ r.total

rle_byte-HasRead :
    (s : RleState) (xs : Bytes) (value : ℕ)
    → value < 256
    → HasRead s xs
    → HasRead (rle_byte s value) (xs ++ value ∷ [])
unfolding rle_byte
rle_byte-HasRead s xs value h r = elim (Bool-cases s.have_run) [
  | inl busy ↦ elim (Bool-cases (value == s.run_byte && ltb s.run_length 128)) [
    | inl same ↦
        rw (busy, same)
          (record {
            before = r.before;
            emits = record {
              emitted = r.emits.emitted;
              written = r.emits.written;
              total = r.emits.total;
              pending = r.emits.pending;
            };
            total =
                ap (λ t. r.before ++ t) (sym (replicate-append s.run_length 1 s.run_byte))
                ∙ sym (append_assoc r.before (replicate s.run_length s.run_byte) (s.run_byte ∷ []))
                ∙ ap₂ (λ t v. t ++ v ∷ []) r.total (ground arith);
            byte = r.byte;
            bound = ground arith;
            idle = λ e. ground arith;
          })
    | inr other ↦
        let e = flush_run-Emits s r.before s.run_byte s.run_length r.emits r.byte r.bound in
        let kept = flush_run-have_run s s.run_byte s.run_length in
        simp (busy, other)
          (record {
            before = xs;
            emits = record {
              emitted = e.emitted;
              written = e.written;
              total = e.total ∙ r.total;
              pending = e.pending;
            };
            total = refl;
            byte = h;
            bound = omega arith;
            idle = λ idle. cc (kept, busy, idle);
          })
  ]
  | inr free ↦ rw free (record {
    before = r.before;
    emits = record {
      emitted = r.emits.emitted;
      written = r.emits.written;
      total = r.emits.total;
      pending = r.emits.pending;
    };
    total = ap (λ t. t ++ value ∷ []) (nothing_pending s r free);
    byte = h;
    bound = omega arith;
    idle = λ e. cc;
  })
]

pub rle_bytes-HasRead :
    (s : RleState) (xs ys : Bytes)
    → All IsByte ys
    → HasRead s xs
    → HasRead (rle_bytes s ys) (xs ++ ys)
unfolding rle_bytes
rle_bytes-HasRead s xs [] h r = rw (append-nil xs) r
rle_bytes-HasRead s xs (y ∷ ys) (hy, h) r =
    rw (append_assoc xs (y ∷ []) ys) at
      (rle_bytes-HasRead (rle_byte s y) (xs ++ y ∷ []) ys h (rle_byte-HasRead s xs y hy r))

pub rle_finish-Encodes : (s : RleState) (xs : Bytes) → HasRead s xs → Encodes (rle_finish s).out xs
unfolding rle_finish
rle_finish-Encodes s xs r = elim (Bool-cases s.have_run) [
  | inl busy ↦
      let e = flush_run-Emits s r.before s.run_byte s.run_length r.emits r.byte r.bound in
      let s' = flush_run s s.run_byte s.run_length in
      let (written, _, _) = flush_literals_lem s' e.emitted e.written (omega arith) in
      simp busy (rw (e.total, r.total) at written)
  | inr free ↦
      let (written, _, _) = flush_literals_lem s r.emits.emitted r.emits.written (omega arith) in
      simp free (rw (r.emits.total, nothing_pending s r free) at written)
]

rle_start-HasRead : HasRead rle_start []
rle_start-HasRead = record {
  before = [];
  emits = record { emitted = []; written = none_left; total = refl; pending = omega arith };
  total = refl;
  byte = omega arith;
  bound = omega arith;
  idle = λ e. refl;
}

-- What the encoder writes after the header is a sequence of blocks of one to 128 bytes that stand
-- for its input, which is any list of bytes.
pub rle_blocks-Encodes :
    (xs : Bytes) → All IsByte xs → Encodes (rle_finish (rle_bytes rle_start xs)).out xs
rle_blocks-Encodes xs h =
    rle_finish-Encodes (rle_bytes rle_start xs) xs
      (rle_bytes-HasRead rle_start [] xs h rle_start-HasRead)
