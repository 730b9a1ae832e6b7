-- ===== src/Lz77/Stage/RoundTrip.antt =====
-- Decompressing what lz77Compress wrote.
use backup_system.Base.{
  ℕ, zero, suc, ◌+◌, ◌-◌, ◌≤◌, ◌<◌, ◌^◌, ◌≡◌, refl, ap, ◌∙◌, inl, inr, Bool-cases, [], ◌∷◌, ◌++◌,
  append_assoc, append-nil, length, length-append, length-take, length-drop, take, drop,
  take-append-drop, leb, lt→ltb, ==_iff, arith,
}
use backup_system.Base.Outcome.{ok}
use backup_system.Stream.{Bytes, at_end, bytes_eq, write_u8, write_u32, write_u64}
use backup_system.Stream.Words.{
  read_exact-append, read_u8-write_u8, read_u32-write_u32, read_u64-write_u64,
}
use backup_system.Lz77.{lz77_magic, lz77_block_size}
use backup_system.Lz77.Encoder.{Lz77Encoder}
use backup_system.Lz77.Decoder.{decode_block}
use backup_system.Lz77.Decoder.RoundTrip.{decode_block-encode}
use backup_system.Lz77.Stage.{
  block_bytes, compress_loop, new_encoder, lz77_compress, read_payload, read_block, decompress_loop,
  lz77_decompress,
}

-- A block reads back, stored or encoded.
read_block-block_bytes :
    (room : ℕ) (raw encoded rest : Bytes)
    → 0 < length raw
    → length raw ≤ lz77_block_size
    → length raw ≤ room
    → decode_block encoded (length raw) ≡ ok raw
    → read_block room (block_bytes raw encoded ++ rest) ≡ ok (raw, rest)
unfolding read_block block_bytes read_payload
read_block-block_bytes room raw encoded rest some small fits decodes =
    elim (Bool-cases (leb (length raw) (length encoded))) [
      | inl stored ↦
          let n = length raw in
          rw
            (
              stored,
              append_assoc (write_u8 1) (write_u32 n ++ (write_u32 n ++ raw)) rest,
              append_assoc (write_u32 n) (write_u32 n ++ raw) rest,
              append_assoc (write_u32 n) raw rest,
            )
            (ground (
              arith,
              read_u8-write_u8 1 (write_u32 n ++ (write_u32 n ++ (raw ++ rest))),
              read_u32-write_u32 n (write_u32 n ++ (raw ++ rest)),
              read_u32-write_u32 n (raw ++ rest),
              read_exact-append n raw rest,
            ))
      | inr shorter ↦
          let n = length raw in
          let k = length encoded in
          rw
            (
              shorter,
              append_assoc (write_u8 0) (write_u32 n ++ (write_u32 k ++ encoded)) rest,
              append_assoc (write_u32 n) (write_u32 k ++ encoded) rest,
              append_assoc (write_u32 k) encoded rest,
            )
            (ground (
              arith,
              read_u8-write_u8 0 (write_u32 n ++ (write_u32 k ++ (encoded ++ rest))),
              read_u32-write_u32 n (write_u32 k ++ (encoded ++ rest)),
              read_u32-write_u32 k (encoded ++ rest),
              read_exact-append k encoded rest,
            ))
    ]

decompress_loop-done :
    (k expected : ℕ) (out rest : Bytes)
    → length out ≡ expected
    → decompress_loop k expected out rest ≡ ok (out, rest)
unfolding decompress_loop
decompress_loop-done zero expected out rest h = ground arith
decompress_loop-done (suc k) expected out rest h = ground arith

decompress_loop-block :
    (k expected : ℕ) (out raw input rest : Bytes)
    → length out < expected
    → read_block (expected - length out) input ≡ ok (raw, rest)
    → decompress_loop (suc k) expected out input ≡ decompress_loop k expected (out ++ raw) rest
unfolding decompress_loop
decompress_loop-block k expected out raw input rest h e =
    rw (lt→ltb (length out) expected h, decompress_loop, e)

-- `bs` are blocks that the decoder turns into `input`, wherever it stands in its output.
abbrev Restores : Bytes → Bytes → Type 0
Restores bs input =
    (k expected : ℕ) (out : Bytes)
    → length out + length input ≡ expected
    → length input ≤ k
    → decompress_loop k expected out bs ≡ ok (out ++ input, [])

Restores-nil : Restores [] []
Restores-nil k expected out total enough =
    rw append-nil (decompress_loop-done k expected out [] (omega arith))

-- One block in front, for the first bytes of `input`.
Restores-block :
    (input bs encoded : Bytes)
    → 0 < length input
    → decode_block encoded (length (take lz77_block_size input)) ≡ ok (take lz77_block_size input)
    → Restores bs (drop lz77_block_size input)
    → Restores (block_bytes (take lz77_block_size input) encoded ++ bs) input
Restores-block input bs encoded some decodes more zero expected out total enough =
    absurd (omega arith)
Restores-block input bs encoded some decodes more (suc k) expected out total enough =
    let raw = take lz77_block_size input in
    let rest = drop lz77_block_size input in
    let front = length-take lz77_block_size input in
    let back = length-drop lz77_block_size input in
    let joined = length-append out raw in
    let block =
      read_block-block_bytes (expected - length out) raw encoded bs (omega arith) (omega arith)
        (omega arith) decodes in
    decompress_loop-block k expected out raw _ bs (omega arith) block
    ∙ more k expected (out ++ raw) (omega arith) (omega arith)
    ∙ ap (λ t. ok (t, []))
        (append_assoc out raw rest ∙ ap (λ t. out ++ t) (take-append-drop lz77_block_size input))

compress_loop-Restores :
    (fuel : ℕ) (e : Lz77Encoder) (input : Bytes)
    → length input ≤ fuel
    → (bs : Bytes) × (compress_loop fuel e input ≡ ok bs) × Restores bs input
unfolding compress_loop
compress_loop-Restores zero e [] enough = ([], refl, Restores-nil)
compress_loop-Restores zero e (x ∷ xs) enough = absurd (omega arith)
compress_loop-Restores (suc fuel) e [] enough = ([], refl, Restores-nil)
compress_loop-Restores (suc fuel) e (x ∷ xs) enough =
    let raw = take lz77_block_size (x ∷ xs) in
    let rest = drop lz77_block_size (x ∷ xs) in
    let front = length-take lz77_block_size (x ∷ xs) in
    let back = length-drop lz77_block_size (x ∷ xs) in
    let (encoded, e', run, decodes) = decode_block-encode e raw (omega arith) in
    let (bs, more, restores) = compress_loop-Restores fuel e' rest (omega arith) in
    (
      block_bytes raw encoded ++ bs,
      rw (compress_loop, run) (rw more),
      Restores-block (x ∷ xs) bs encoded (omega arith) decodes restores,
    )

-- Compressing a file of fewer than 2^64 bytes ends, and decompressing the result with the file's
-- size gives the file back.
pub lz77_decompress-lz77_compress :
    (input : Bytes)
    → length input < 2 ^ 64
    → (bs : Bytes) × (lz77_compress input ≡ ok bs) × (lz77_decompress bs (length input) ≡ ok input)
unfolding lz77_compress lz77_decompress bytes_eq at_end
lz77_decompress-lz77_compress input small =
    let n = length input in
    let (blocks, run, restores) = compress_loop-Restores n new_encoder input (omega arith) in
    (
      lz77_magic ++ (write_u64 n ++ blocks),
      rw run,
      rw (read_exact-append 4 lz77_magic (write_u64 n ++ blocks) refl) (
          rw (read_u64-write_u64 n blocks small)
            (rw ((==_iff n n).1 refl) (rw (restores n n [] (omega arith) (omega arith))))),
    )
