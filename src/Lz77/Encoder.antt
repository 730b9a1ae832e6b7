-- ===== src/Lz77/Encoder.antt =====
-- class Lz77Encoder.
pub mod Search
pub mod Sequences
use backup_system.Base.{
  ℕ, zero, suc, ◌+◌, ◌-◌, ◌%◌, ◌^◌, min, Bool, true, false, ◌&&◌, List, [], ◌∷◌, ◌++◌, length, drop,
  leb, ltb, ◌==◌, if◌then◌else◌,
}
use backup_system.Base.Outcome.{Result, ok, err, out_of_fuel, ◌>>=◌}
use backup_system.Stream.{Bytes}
use backup_system.Lz77.{
  Lz77Match, min_match, window, max_match, max_chain, no_position, byte_at, slice, lz77_hash,
  append_sequence,
}

pub record Lz77Encoder : Type 0 where
  pub head : ℕ → ℕ
  pub previous : ℕ → ℕ

-- A store into a vector.
unfoldable pub store : (ℕ → ℕ) → ℕ → ℕ → ℕ → ℕ
store vector i value j = if i == j then value else vector j

unfoldable pub insert : Lz77Encoder → Bytes → ℕ → Lz77Encoder
insert e input position =
    let hash = lz77_hash input position in
    record { head = store e.head hash position; previous = store e.previous position (e.head hash) }

-- `while (length < limit && data[candidate + length] == data[position + length]) ++length;`
-- with `left` = limit - length.
unfoldable pub extend_match : Bytes → ℕ → ℕ → ℕ → ℕ → ℕ
extend_match input candidate position zero length = length
extend_match input candidate position (suc left) length =
    elim (byte_at input (candidate + length) == byte_at input (position + length)) [
      | true ↦ extend_match input candidate position left (length + 1)
      | false ↦ length
    ]

-- One candidate: the best match now, and whether the walk breaks off.
unfoldable pub consider : Bytes → ℕ → ℕ → ℕ → Lz77Match → Lz77Match × Bool
consider input size position candidate best =
    if ltb candidate position && leb (position - candidate) window
    then (let limit = min (size - position) max_match in
        let length = extend_match input candidate position limit 0 in
        if ltb best.length length
        then (record { length = length; distance = position - candidate }, length == limit)
        else (best, false))
    else (best, false)

-- The walk along the chain, `steps` candidates at most.
unfoldable pub search_loop : ℕ → Lz77Encoder → Bytes → ℕ → ℕ → ℕ → Lz77Match → Lz77Match
search_loop zero e input size position candidate best = best
search_loop (suc steps) e input size position candidate best = elim (candidate == no_position) [
  | true ↦ best
  | false ↦
      let (best', stop) = consider input size position candidate best in
      elim stop [
        | true ↦ best'
        | false ↦ search_loop steps e input size position (e.previous candidate) best'
      ]
]

unfoldable pub search_match : Lz77Encoder → Bytes → ℕ → ℕ → Lz77Match
search_match e input size position =
    search_loop max_chain e input size position (e.head (lz77_hash input position))
      (record { length = 0; distance = 0 })

-- The match at `position` is not taken: it is too short, or the next position starts a longer one.
unfoldable pub skips : Lz77Encoder → Bytes → ℕ → ℕ → Lz77Match → Bool
skips e input size position found =
    if ltb found.length min_match
    then true
    else leb (position + 1 + min_match) size
      && ltb found.length (search_match e input size (position + 1)).length

-- The loop of encode: what it pushes from here on, and the encoder at the end.
unfoldable pub encode_loop : ℕ → Lz77Encoder → Bytes → ℕ → ℕ → ℕ → Result (Bytes × Lz77Encoder)
encode_loop zero e input size literal_start position = out_of_fuel
encode_loop (suc fuel) e input size literal_start position =
    elim (leb (position + min_match) size) [
      | true ↦
          let e' = insert e input position in
          let found = search_match e' input size position in
          elim (skips e' input size position found) [
            | true ↦ encode_loop fuel e' input size literal_start (position + 1)
            | false ↦
                let next = position + found.length in
                encode_loop fuel e' input size next next >>= λ (rest, last). ok (
                  append_sequence (slice input literal_start position) found.length
                        (found.distance % 2 ^ 16)
                      ++ rest,
                  last,
                )
          ]
      | false ↦
          ok (
            if ltb literal_start size then append_sequence (drop literal_start input) 0 0 else [],
            e,
          )
    ]

-- Each round moves on by a byte at least, so `size` rounds and one more are enough.
unfoldable pub encode : Lz77Encoder → Bytes → Result (Bytes × Lz77Encoder)
encode e input =
    let size = length input in
    if ltb size min_match
    then ok (append_sequence input 0 0, e)
    else encode_loop (suc size) (record e { head = λ _. no_position }) input size 0 0
