-- ===== src/Lz77/Decoder/RoundTrip.antt =====
-- The decoder on a chain of sequences produces the block that they encode.
use backup_system.Base.{
  ℕ, zero, suc, ◌+◌, ◌-◌, ◌/◌, ◌%◌, ◌^◌, ◌≤◌, ◌<◌, min, bit_and, ◌≡◌, refl, ap, ◌∙◌, [], ◌∷◌, ◌++◌,
  append_assoc, append-nil, length, length-append, length-take, length-drop, take, drop, take-add,
  take-append-drop, take_front, drop_front, take_all, take-suc, get_or-take, arith,
}
use backup_system.Base.Outcome.{ok}
use native.Mathlib.Nat.{add-zero}
use backup_system.Stream.{Bytes, at_end}
use backup_system.Lz77.{
  byte_at, slice, match_code, sequence_token, sequence_match, append_sequence, extension_of,
}
use backup_system.Lz77.Encoder.{Lz77Encoder, encode}
use backup_system.Lz77.Encoder.Sequences.{
  Sequences, covered, literals_only, then_match, encode-Covers,
}
use backup_system.Lz77.Decoder.{
  read_byte, copy_literals, copy_match, decode_match, decode_loop, decode_block,
}
use backup_system.Lz77.Decoder.Counts.{
  read_count-extension_of, sequence_token-parts, read_distance-bytes,
}

copy_literals-append :
    (n : ℕ) (out ls rest : Bytes)
    → length out + length ls ≤ n
    → copy_literals n (length ls) out (ls ++ rest) ≡ ok (out ++ ls, rest)
unfolding copy_literals
copy_literals-append n out ls rest h =
    ground (arith, length-append ls rest, take_front ls rest, drop_front ls rest)

-- Where `k` bytes of the block repeat what stands `d` before them, copying byte by byte from `d`
-- back makes the part of the block before them longer by these `k` bytes, also where the two
-- ranges overlap.
pub copy_match-take :
    (input : Bytes) (k d r : ℕ)
    → 1 ≤ d
    → d ≤ r
    → r + k ≤ length input
    → ((i : ℕ) → i < k → byte_at input (r - d + i) ≡ byte_at input (r + i))
    → copy_match k d (take r input) ≡ take (r + k) input
unfolding copy_match
copy_match-take input zero d r low high fits same = rw (add-zero r)
copy_match-take input (suc k) d r low high fits same =
    rw (size, get_or-take r (r - d) input 0 (omega arith), first, take-suc r input 0 (omega arith))
      (copy_match-take input k d (r + 1) low (omega arith) (omega arith) shifted
        ∙ ap (λ (t : ℕ). take t input) (omega arith))
  where
    size : length (take r input) ≡ r
    size = omega (arith, length-take r input)

    first : byte_at input (r - d) ≡ byte_at input r
    first = rw (add-zero (r - d), add-zero r) at (same 0 (omega arith))

    shifted : (i : ℕ) → i < k → byte_at input (r + 1 - d + i) ≡ byte_at input (r + 1 + i)
    shifted i h =
        let e : r + 1 - d + i ≡ r - d + suc i = omega arith in
        let f : r + 1 + i ≡ r + suc i = omega arith in rw (e, f) (same (suc i) (omega arith))

match_code-long : (ml : ℕ) → 3 ≤ ml → match_code ml + 3 ≡ ml
unfolding match_code
match_code-long ml h = ground arith

decode_match-sequence_match :
    (n token ml d : ℕ) (out rest : Bytes)
    → bit_and token 0x0f ≡ min (match_code ml) 15
    → 3 ≤ ml
    → length out + ml ≤ n
    → 1 ≤ d
    → d ≤ 0xffff
    → d ≤ length out
    → decode_match n token out (sequence_match ml d ++ rest) ≡ ok (copy_match ml d out, rest)
unfolding decode_match sequence_match
decode_match-sequence_match n token ml d out rest code long fits low near back =
    let bytes : Bytes = (bit_and d 0xff % 2 ^ 8) ∷ (d / 2 ^ 8 % 2 ^ 8) ∷ [] in
    ground (
      arith,
      append_assoc (extension_of (match_code ml)) bytes rest,
      match_code-long ml long,
      read_count-extension_of n (match_code ml) (bytes ++ rest),
      read_distance-bytes d rest near,
    )

-- One round on literals and a match.
decode_loop-then_match :
    (fuel n ml d : ℕ) (out ls rest : Bytes)
    → length out + length ls + ml ≤ n
    → 3 ≤ ml
    → 1 ≤ d
    → d ≤ 0xffff
    → d ≤ length out + length ls
    → decode_loop (suc fuel) n out (append_sequence ls ml d ++ rest)
      ≡ decode_loop fuel n (copy_match ml d (out ++ ls)) rest
unfolding decode_loop append_sequence read_byte
decode_loop-then_match fuel n ml d out ls rest fits long low near back =
    let token = sequence_token (length ls) ml in
    let tail : Bytes = sequence_match ml d in
    ground (
      arith,
      sequence_token-parts (length ls) ml,
      append_assoc (extension_of (length ls)) (ls ++ tail) rest,
      append_assoc ls tail rest,
      length-append out ls,
      read_count-extension_of n (length ls) (ls ++ (tail ++ rest)),
      copy_literals-append n out ls (tail ++ rest),
      decode_match-sequence_match n token ml d (out ++ ls) rest,
    )

-- The last round: literals alone fill the block.
decode_loop-literals_only :
    (fuel n : ℕ) (out ls : Bytes)
    → length out + length ls ≡ n
    → 0 < length ls
    → decode_loop (suc fuel) n out (append_sequence ls 0 0) ≡ ok (out ++ ls, [])
unfolding decode_loop append_sequence read_byte sequence_match at_end
decode_loop-literals_only fuel n out ls full some = ground (
  arith,
  sequence_token-parts (length ls) 0,
  append-nil ls,
  length-append out ls,
  read_count-extension_of n (length ls) ls,
  copy_literals-append n out ls [],
)

decode_loop-full :
    (fuel n : ℕ) (out : Bytes) → length out ≡ n → decode_loop (suc fuel) n out [] ≡ ok (out, [])
unfolding decode_loop at_end
decode_loop-full fuel n out full = ground arith

take-slice : (input : Bytes) (p q : ℕ) → p ≤ q → take p input ++ slice input p q ≡ take q input
take-slice input p q h = take-add p (q - p) input ∙ ap (λ (t : ℕ). take t input) (omega arith)

-- From index `p` on, with the bytes before it produced.
decode_loop-Sequences :
    (fuel p : ℕ) (input bs : Bytes)
    → Sequences input p bs
    → p ≤ length input
    → length input < p + fuel
    → decode_loop fuel (length input) (take p input) bs ≡ ok (input, [])
decode_loop-Sequences zero p input bs s h enough = absurd (omega arith)
decode_loop-Sequences (suc fuel) p input bs (covered e) h enough =
    rw (e, take_all input) (decode_loop-full fuel (length input) input refl)
decode_loop-Sequences (suc fuel) p input bs (literals_only more) h enough =
    let whole = take-append-drop p input in
    rw whole at (
      decode_loop-literals_only fuel (length input) (take p input) (drop p input)
        (omega (arith, length-take p input, length-drop p input))
        (omega (arith, length-drop p input)))
decode_loop-Sequences (suc fuel) p input bs (then_match {bs = rest} q m low long valid more) h
      enough =
    let front = length-take p input in
    let lits : length (slice input p q) ≡ q - p =
      omega (arith, length-take (q - p) (drop p input), length-drop p input, valid.inside) in
    let inside = valid.inside in
    let (d_low, d_near, d_back) = valid.near (omega arith) in
    decode_loop-then_match fuel (length input) m.length m.distance (take p input) (slice input p q)
      rest (omega arith) long d_low d_near (omega arith)
    ∙ rw
        (
          take-slice input p q low,
          copy_match-take input m.length m.distance q d_low d_back inside valid.same,
        )
        (decode_loop-Sequences fuel (q + m.length) input rest more inside (omega arith))

-- Decoding the encoding of a block that is not empty gives the block, from any encoder state.
pub decode_block-encode :
    (e : Lz77Encoder) (input : Bytes)
    → 0 < length input
    → (bs : Bytes) × (e' : Lz77Encoder) × (encode e input ≡ ok (bs, e'))
      × (decode_block bs (length input) ≡ ok input)
unfolding decode_block
decode_block-encode e input h =
    let (bs, e', run, sequences) = encode-Covers e input h in
    (
      bs,
      e',
      run,
      rw (
          decode_loop-Sequences (suc (length input)) 0 input bs sequences (omega arith)
            (omega arith)),
    )
