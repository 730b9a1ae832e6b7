-- ===== src/Lz77/Encoder/Sequences.antt =====
-- The encoder ends, and what it pushes is a chain of sequences that covers its input.
use backup_system.Base.{
  ℕ, zero, suc, ◌+◌, ◌%◌, ◌^◌, ◌≤◌, ◌<◌, ◌≡◌, inl, inr, false, Bool-cases, [], ◌++◌, length, drop,
  leb, ltb, ltb→lt, leb→le, if◌then◌else◌, arith,
}
use backup_system.Base.Outcome.{Result, ok}
use backup_system.Stream.{Bytes}
use backup_system.Lz77.{Lz77Match, min_match, no_position, slice, append_sequence}
use backup_system.Lz77.Encoder.{Lz77Encoder, insert, search_match, skips, encode_loop, encode}
use backup_system.Lz77.Encoder.Search.{IsMatch, search_match-IsMatch}

-- `Sequences input p bs`: the sequences `bs` encode `input` from index `p` on.
pub data Sequences (input : Bytes) : ℕ → Bytes → Type 0 where
  covered : {p : ℕ} → p ≡ length input → Sequences input p []
  literals_only :
      {p : ℕ} → p < length input → Sequences input p (append_sequence (drop p input) 0 0)
  then_match :
      {p : ℕ} {bs : Bytes} (q : ℕ) (m : Lz77Match)
      → p ≤ q
      → 3 ≤ m.length
      → IsMatch input q m
      → Sequences input (q + m.length) bs
      → Sequences input p (append_sequence (slice input p q) m.length m.distance ++ bs)

abbrev Covers : Bytes → ℕ → Result (Bytes × Lz77Encoder) → Type 0
Covers input p r = (bs : Bytes) × (e : Lz77Encoder) × (r ≡ ok (bs, e)) × Sequences input p bs

last_sequence :
    (input : Bytes) (p : ℕ)
    → p ≤ length input
    → Sequences input p (if ltb p (length input) then append_sequence (drop p input) 0 0 else [])
last_sequence input p h = elim (Bool-cases (ltb p (length input))) [
  | inl some ↦ rw some (literals_only (ltb→lt p (length input) some))
  | inr none ↦ rw none (covered (ground arith))
]

not_skipped :
    (e : Lz77Encoder) (input : Bytes) (size position : ℕ) (found : Lz77Match)
    → skips e input size position found ≡ false
    → 3 ≤ found.length
unfolding skips
not_skipped e input size position found h = ground arith

encode_loop-Covers :
    (fuel : ℕ) (e : Lz77Encoder) (input : Bytes) (p q : ℕ)
    → p ≤ q
    → q ≤ length input
    → length input < q + fuel
    → Covers input p (encode_loop fuel e input (length input) p q)
unfolding encode_loop
encode_loop-Covers zero e input p q h g enough = absurd (omega arith)
encode_loop-Covers (suc fuel) e input p q h g enough =
    let e' = insert e input q in
    let found = search_match e' input (length input) q in
    elim (Bool-cases (leb (q + min_match) (length input))) [
      | inl more ↦
          let room = leb→le (q + min_match) (length input) more in
          elim (Bool-cases (skips e' input (length input) q found)) [
            | inl skip ↦
                rw (more, skip, encode_loop)
                  (encode_loop-Covers fuel e' input p (q + 1) (omega arith) (omega arith)
                    (omega arith))
            | inr take ↦
                let long = not_skipped e' input (length input) q found take in
                let valid = search_match-IsMatch input q g e' in
                let next = q + found.length in
                let (bs, last, e₁, rest) =
                  encode_loop-Covers fuel e' input next next (omega arith) valid.inside
                    (omega arith) in
                let small : found.distance % 2 ^ 16 ≡ found.distance =
                  omega (arith, valid.near (omega arith)) in
                (
                  append_sequence (slice input p q) found.length (found.distance % 2 ^ 16) ++ bs,
                  last,
                  rw (more, take, encode_loop) (rw e₁),
                  rw small (then_match q found h long valid rest),
                )
          ]
      | inr done ↦ (_, e, rw (done, encode_loop), last_sequence input p (omega arith))
    ]

-- Encoding a block that is not empty ends, and what it writes are sequences of literals and valid
-- matches that cover the block.
pub encode-Covers :
    (e : Lz77Encoder) (input : Bytes) → 0 < length input → Covers input 0 (encode e input)
unfolding encode
encode-Covers e input h = elim (Bool-cases (ltb (length input) min_match)) [
  | inl short ↦ (append_sequence input 0 0, e, rw short, literals_only h)
  | inr long ↦ rw long (
      encode_loop-Covers (suc (length input)) (record e { head = λ _. no_position }) input 0 0
        (omega arith) (omega arith) (omega arith))
]
