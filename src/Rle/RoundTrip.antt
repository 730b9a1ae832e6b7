-- ===== src/Rle/RoundTrip.antt =====
-- rleDecompress on what rleCompress wrote, and on any input.
use backup_system.Base.{
  ℕ, zero, suc, ◌+◌, ◌-◌, ◌≤◌, ◌<◌, ◌^◌, ◌≡◌, refl, ◌⊎◌, inl, inr, Bool-cases, [], ◌++◌, append-nil,
  length, length-append, length-replicate, All-replicate, All-append, not-ltb, bit_and, String, All,
  arith, leb, ltb, leb→le, ◌==◌, ==_iff,
}
use backup_system.Base.Outcome.{ok, err}
use backup_system.Stream.{Bytes, ◌>>=◌, ◌>>◌, ensure, IsByte, bytes_eq, at_end, read_u8, write_u64}
use backup_system.Stream.Words.{read_exact-append, read_u64-write_u64}
use backup_system.Stream.Post.{
  Reads, accepted, IsBlock, run-cases, Reads-bind, Reads-pure, Reads-ensure, Reads-read_exact,
  Reads-read_u8, Reads-read_u64, Reads-at_end,
}
use backup_system.Rle.{
  rle_magic, rle_start, rle_bytes, rle_finish, rle_compress, rle_block, rle_loop, rle_decompress,
}
use backup_system.Rle.Blocks.{rle_loop-Encodes}
use backup_system.Rle.Encode.{rle_blocks-Encodes}

-- Decompressing a compressed file of bytes, of fewer than 2^64, with its true size gives the file
-- back.
pub rle_decompress-rle_compress :
    (xs : Bytes)
    → All IsByte xs
    → length xs < 2 ^ 64
    → rle_decompress (rle_compress xs) (length xs) ≡ ok xs
unfolding rle_decompress rle_compress bytes_eq at_end
rle_decompress-rle_compress xs bytes small =
    let n = length xs in
    let blocks = (rle_finish (rle_bytes rle_start xs)).out in
    rw (read_exact-append 4 rle_magic (write_u64 n ++ blocks) refl)
      (rw (read_u64-write_u64 n blocks small) (rw ((==_iff n n).1 refl) (rw decoded refl)))
  where
    decoded :
        rle_loop (length xs) (length xs) [] (rle_finish (rle_bytes rle_start xs)).out ≡ ok (xs, [])
    decoded = rw append-nil at (
        rle_loop-Encodes (length xs) (length xs) [] [] (rle_blocks-Encodes xs bytes) (omega arith)
          (omega arith))

-- A block is as long as its control byte says.
rle_block-Reads : (control count : ℕ) → Reads (IsBlock count) (rle_block control count)
unfolding rle_block
rle_block-Reads control count = elim (Bool-cases (bit_and control 0x80 == 0)) [
  | inl literal ↦ rw literal (Reads-read_exact count)
  | inr repeated ↦ rw repeated (
      Reads-bind Reads-read_u8
        λ value h. Reads-pure (length-replicate count value, All-replicate IsByte count value h))
]

-- The body of one round, given what the rest of the loop does.
rle_round :
    (fuel expected : ℕ) (out : Bytes)
    → All IsByte out
    → ((block : Bytes)
        → expected ≤ length (out ++ block) + fuel
        → length (out ++ block) ≤ expected
        → All IsByte (out ++ block)
        → Reads (IsBlock expected) (rle_loop fuel expected (out ++ block)))
    → length out ≤ expected
    → expected ≤ length out + suc fuel
    → Reads (IsBlock expected) (
        read_u8 >>= λ control.
        ensure
          (leb (bit_and control 0x7f + 1) (expected - length out))
          "RLE block exceeds output size limit"
        >> (rle_block control (bit_and control 0x7f + 1) >>= λ block.
            rle_loop fuel expected (out ++ block)))
rle_round fuel expected out bytes rest low high = Reads-bind Reads-read_u8 λ control _.
    Reads-bind (Reads-ensure (leb (bit_and control 0x7f + 1) (expected - length out)) _) λ _ fits.
      Reads-bind (rle_block-Reads control (bit_and control 0x7f + 1)) λ block (size, hb).
        let total = length-append out block in
        let room = leb→le (bit_and control 0x7f + 1) (expected - length out) fits in
        rest block (omega arith) (omega arith) (All-append IsByte out block bytes hb)

-- Whatever the input, the loop ends within its fuel, and a normal end is at the expected size.
rle_loop-Reads :
    (fuel expected : ℕ) (out : Bytes)
    → length out ≤ expected
    → expected ≤ length out + fuel
    → All IsByte out
    → Reads (IsBlock expected) (rle_loop fuel expected out)
unfolding rle_loop
rle_loop-Reads zero expected out low high bytes = record {
  at =
      λ input h. rw (not-ltb (length out) expected (omega arith)) (accepted (omega arith, bytes) h);
}
rle_loop-Reads (suc fuel) expected out low high bytes =
    elim (Bool-cases (ltb (length out) expected)) [
      | inl more ↦ record {
        at = λ input h.
            rw (more, rle_loop)
              ((rle_round fuel expected out bytes
                  (λ block enough fits hb.
                    rle_loop-Reads fuel expected (out ++ block) fits enough hb)
                  low high).at
                input h);
      }
      | inr done ↦ record { at = λ input h. rw (done, rle_loop) (accepted (ground arith, bytes) h) }
    ]

-- On any input of bytes the decoder ends: it returns exactly `expected` bytes, or throws.
pub rle_decompress_total :
    (input : Bytes) (expected : ℕ)
    → All IsByte input
    → ((out : Bytes) × (rle_decompress input expected ≡ ok out) × IsBlock expected out)
      ⊎ ((e : String) × (rle_decompress input expected ≡ err e))
unfolding rle_decompress
rle_decompress_total input expected bytes =
    run-cases _ input
      (Reads-bind (Reads-read_exact 4) λ magic _.
        Reads-bind (Reads-ensure (bytes_eq magic rle_magic) "invalid RLE header") λ _ _.
          Reads-bind Reads-read_u64 λ original _.
            Reads-bind
              (Reads-ensure (original == expected)
                "RLE declared output size does not match archive header")
              λ _ _.
                Reads-bind (rle_loop-Reads expected expected [] (omega arith) (omega arith) tt)
                  λ out block. Reads-bind (Reads-at_end _) λ _ _. Reads-pure block)
      bytes
