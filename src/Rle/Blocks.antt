-- ===== src/Rle/Blocks.antt =====
-- The language of RLE blocks, and the decoder on it.
use backup_system.Base.{
  ℕ, zero, suc, ◌+◌, ◌≤◌, ◌<◌, ◌%◌, bit_and, bit_or, ◌≡◌, sym, ap, ◌∙◌, [], ◌++◌, append_assoc,
  append-nil, length, length-append, length-replicate, replicate, arith,
}
use backup_system.Base.Bits.{bit_or_high, bit_and_low, bit_and_top}
use backup_system.Base.Outcome.{ok}
use backup_system.Stream.{Bytes, write_u8}
use backup_system.Stream.Words.{read_exact-append, read_u8-write_u8}
use backup_system.Rle.{rle_block, rle_loop}

-- `Encodes bs xs`: the blocks `bs` stand for the bytes `xs`.
pub data Encodes : Bytes → Bytes → Type 0 where
  none_left : Encodes [] []
  run_of :
      (n value : ℕ) {bs xs : Bytes}
      → n < 128
      → value < 256
      → Encodes bs xs
      → Encodes (write_u8 (bit_or 0x80 n) ++ (write_u8 value ++ bs)) (replicate (suc n) value ++ xs)
  verbatim :
      (n : ℕ) (ls : Bytes) {bs xs : Bytes}
      → n < 128
      → length ls ≡ suc n
      → Encodes bs xs
      → Encodes (write_u8 n ++ (ls ++ bs)) (ls ++ xs)

-- Block sequences are concatenated.
pub Encodes-append :
    {cs xs : Bytes} (bs ys : Bytes) → Encodes cs xs → Encodes bs ys → Encodes (cs ++ bs) (xs ++ ys)
Encodes-append bs ys none_left e = e
Encodes-append bs ys (run_of n value {bs = cs} {xs = xs} h g rest) e =
    rw
      (
        append_assoc (write_u8 (bit_or 0x80 n)) (write_u8 value ++ cs) bs,
        append_assoc (write_u8 value) cs bs,
        append_assoc (replicate (suc n) value) xs ys,
      )
      (run_of n value h g (Encodes-append bs ys rest e))
Encodes-append bs ys (verbatim n ls {bs = cs} {xs = xs} h g rest) e =
    rw (append_assoc (write_u8 n) (ls ++ cs) bs, append_assoc ls cs bs, append_assoc ls xs ys)
      (verbatim n ls h g (Encodes-append bs ys rest e))

control_run : (n : ℕ) → n < 128 → bit_or 0x80 n ≡ 128 + n
control_run n h = bit_or_high 7 1 n h

rle_block-run :
    (n value : ℕ) (rest : Bytes)
    → n < 128
    → value < 256
    → rle_block (128 + n) (suc n) (write_u8 value ++ rest) ≡ ok (replicate (suc n) value, rest)
unfolding rle_block
rle_block-run n value rest h g =
    let top : bit_and (128 + n) 0x80 ≡ 128 = omega (arith, bit_and_top (128 + n) (omega arith)) in
    rw (top, read_u8-write_u8 value rest g)

rle_block-verbatim :
    (n : ℕ) (ls rest : Bytes)
    → n < 128
    → length ls ≡ suc n
    → rle_block n (suc n) (ls ++ rest) ≡ ok (ls, rest)
unfolding rle_block
rle_block-verbatim n ls rest h g =
    let top : bit_and n 0x80 ≡ 0 = omega (arith, bit_and_top n (omega arith)) in
    rw (top, read_exact-append (suc n) ls rest (sym g))

-- One round of the decoder on a block whose control byte and body are known.
rle_loop-block :
    (fuel expected control n : ℕ) (out tail rest block : Bytes)
    → control < 256
    → control % 128 ≡ n
    → rle_block control (suc n) tail ≡ ok (block, rest)
    → length out + suc n ≤ expected
    → rle_loop (suc fuel) expected out (write_u8 control ++ tail)
      ≡ rle_loop fuel expected (out ++ block) rest
unfolding rle_loop
rle_loop-block fuel expected control n out tail rest block h e body room =
    ground (arith, read_u8-write_u8 control tail h, bit_and_low 7 control, body)

rle_loop-done :
    (fuel expected : ℕ) (out rest : Bytes)
    → length out ≡ expected
    → rle_loop fuel expected out rest ≡ ok (out, rest)
unfolding rle_loop
rle_loop-done zero expected out rest h = ground arith
rle_loop-done (suc fuel) expected out rest h = ground arith

-- On blocks that stand for the bytes still wanted the decoder, given fuel for each byte, reads
-- exactly the blocks and appends exactly these bytes, whatever follows.
pub rle_loop-Encodes :
    {bs xs : Bytes} (fuel expected : ℕ) (out rest : Bytes)
    → Encodes bs xs
    → length out + length xs ≡ expected
    → length xs ≤ fuel
    → rle_loop fuel expected out (bs ++ rest) ≡ ok (out ++ xs, rest)
rle_loop-Encodes fuel expected out rest none_left total enough =
    rw (append-nil out) (rle_loop-done fuel expected out rest (omega arith))
rle_loop-Encodes zero expected out rest (run_of n value h g more) total enough =
    absurd (omega arith)
rle_loop-Encodes (suc fuel) expected out rest (run_of n value {bs = bs} {xs = xs} h g more) total
      enough =
    let block : Bytes = replicate (suc n) value in
    let inner = length-append block xs in
    let outer = length-append out block in
    let run = length-replicate n value in
    rw
      (
        control_run n h,
        append_assoc (write_u8 (128 + n)) (write_u8 value ++ bs) rest,
        append_assoc (write_u8 value) bs rest,
      )
      (rle_loop-block fuel expected (128 + n) n out (write_u8 value ++ (bs ++ rest)) (bs ++ rest)
          block (omega arith) (omega arith) (rle_block-run n value (bs ++ rest) h g) (omega arith)
        ∙ rle_loop-Encodes fuel expected (out ++ block) rest more (omega arith) (omega arith)
        ∙ ap (λ t. ok (t, rest)) (append_assoc out block xs))
rle_loop-Encodes zero expected out rest (verbatim n ls {xs = xs} h g more) total enough =
    absurd (omega (arith, length-append ls xs))
rle_loop-Encodes (suc fuel) expected out rest (verbatim n ls {bs = bs} {xs = xs} h g more) total
      enough =
    let inner = length-append ls xs in
    let outer = length-append out ls in
    rw (append_assoc (write_u8 n) (ls ++ bs) rest, append_assoc ls bs rest)
      (rle_loop-block fuel expected n n out (ls ++ (bs ++ rest)) (bs ++ rest) ls (omega arith)
          (omega arith) (rle_block-verbatim n ls (bs ++ rest) h g) (omega arith)
        ∙ rle_loop-Encodes fuel expected (out ++ ls) rest more (omega arith) (omega arith)
        ∙ ap (λ t. ok (t, rest)) (append_assoc out ls xs))
