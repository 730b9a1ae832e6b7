-- ===== src/Lz77/Decoder/Counts.antt =====
-- The counts that the encoder writes read back.
use backup_system.Base.{
  ℕ, zero, suc, ◌+◌, ◌-◌, ◌/◌, ◌%◌, ◌^◌, ◌≤◌, ◌<◌, min, bit_and, ◌≡◌, ap, ◌∷◌, ◌++◌, arith,
}
use backup_system.Base.Bits.{bit_or_high, bit_or_low, bit_and_low}
use backup_system.Base.Outcome.{ok}
use backup_system.Stream.{Bytes}
use backup_system.Lz77.{extension_loop, append_extension, extension_of, match_code, sequence_token}
use backup_system.Lz77.Decoder.{read_byte, read_length, read_count, read_distance}

read_length-extension :
    (k fuel n value extra : ℕ) (rest : Bytes)
    → extra ≤ k
    → extra < fuel
    → value + extra ≤ n
    → read_length fuel n value (extension_loop k extra ++ rest) ≡ ok (value + extra, rest)
unfolding read_length extension_loop read_byte
read_length-extension k zero n value extra rest h enough fits = absurd (omega arith)
read_length-extension zero (suc fuel) n value extra rest h enough fits = ground arith
read_length-extension (suc k) (suc fuel) n value extra rest h enough fits =
    ground (arith, read_length-extension k fuel n (value + 255) (extra - 255) rest)

pub read_count-extension_of :
    (n count : ℕ) (rest : Bytes)
    → count ≤ n
    → read_count n (min count 15) (extension_of count ++ rest) ≡ ok (count, rest)
unfolding read_count extension_of append_extension
read_count-extension_of n count rest h =
    ground (arith, read_length-extension (count - 15) (suc n) n 15 (count - 15) rest)

pub sequence_token-parts :
    (count match_length : ℕ)
    → (sequence_token count match_length / 2 ^ 4 ≡ min count 15)
      × (bit_and (sequence_token count match_length) 0x0f ≡ min (match_code match_length) 15)
unfolding sequence_token
sequence_token-parts count match_length =
    let code = min (match_code match_length) 15 in
    let joined = bit_or_high 4 (min count 15) code (omega arith) in
    (omega arith, omega (arith, bit_and_low 4 (sequence_token count match_length)))

pub read_distance-bytes :
    (d : ℕ) (rest : Bytes)
    → d ≤ 0xffff
    → read_distance ((bit_and d 0xff % 2 ^ 8) ∷ (d / 2 ^ 8 % 2 ^ 8) ∷ rest) ≡ ok (d, rest)
unfolding read_distance
read_distance-bytes d rest h =
    ap (λ (t : ℕ). ok (t, rest))
      (omega (
        arith,
        bit_and_low 8 d,
        bit_or_low 8 (bit_and d 0xff % 2 ^ 8) (d / 2 ^ 8 % 2 ^ 8) (omega arith),
      ))
