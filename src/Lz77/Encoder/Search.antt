-- ===== src/Lz77/Encoder/Search.antt =====
-- Whatever the hash chains hold, a match that the search returns is one.
use backup_system.Base.{
  ℕ, zero, suc, ◌+◌, ◌-◌, ◌≤◌, ◌<◌, min, ◌≡◌, inl, inr, ◌&&◌, Bool-cases, length, leb, ltb, ◌==◌,
  arith,
}
use backup_system.Stream.{Bytes}
use backup_system.Lz77.{Lz77Match, window, max_match, no_position, byte_at}
use backup_system.Lz77.Encoder.{Lz77Encoder, extend_match, consider, search_loop, search_match}

-- `m` is empty, or repeats the bytes that stand `m.distance` before `position`.
pub record IsMatch (input : Bytes) (position : ℕ) (m : Lz77Match) : Type 0 where
  pub inside : position + m.length ≤ length input
  pub long : m.length ≤ 0xffff
  pub near : 0 < m.length → (1 ≤ m.distance) × (m.distance ≤ 0xffff) × (m.distance ≤ position)
  pub same :
      (i : ℕ)
      → i < m.length
      → byte_at input (position - m.distance + i) ≡ byte_at input (position + i)

abbrev pub Agree : Bytes → ℕ → ℕ → ℕ → Type 0
Agree input c p n = (i : ℕ) → i < n → byte_at input (c + i) ≡ byte_at input (p + i)

extend_match-Agree :
    (input : Bytes) (c p left n : ℕ)
    → Agree input c p n
    → Agree input c p (extend_match input c p left n) × (extend_match input c p left n ≤ n + left)
unfolding extend_match
extend_match-Agree input c p zero n h = (h, omega arith)
extend_match-Agree input c p (suc left) n h =
    elim (Bool-cases (byte_at input (c + n) == byte_at input (p + n))) [
      | inl same ↦
          let longer : Agree input c p (n + 1) = λ i small. grind (arith, h i) in
          let (agree, bound) = extend_match-Agree input c p left (n + 1) longer in
          rw (same, extend_match) (agree, omega arith)
      | inr other ↦ rw (other, extend_match) (h, omega arith)
    ]

module _ (input : Bytes) (position : ℕ) (here : position ≤ length input) where
  candidate-IsMatch :
      (c n : ℕ)
      → c < position
      → position - c ≤ 0xffff
      → n ≤ min (length input - position) max_match
      → Agree input c position n
      → IsMatch input position (record { length = n; distance = position - c })
  candidate-IsMatch c n below close small agree = record {
    inside = omega arith;
    long = omega arith;
    near = λ pos. omega arith;
    same = λ i h. rw back (agree i h);
  }
    where
      back : position - (position - c) ≡ c
      back = omega arith

  consider-IsMatch :
      (c : ℕ) (best : Lz77Match)
      → IsMatch input position best
      → IsMatch input position (consider input (length input) position c best).0
  unfolding consider
  consider-IsMatch c best h = elim (Bool-cases (ltb c position && leb (position - c) window)) [
    | inl good ↦ elim (Bool-cases (ltb best.length found)) [
      | inl longer ↦
          rw (good, longer)
            (candidate-IsMatch c found (ground arith) (ground arith) (omega (arith, ext.1)) ext.0)
      | inr shorter ↦ rw (good, shorter) h
    ]
    | inr bad ↦ rw bad h
  ]
    where
      found : ℕ
      found = extend_match input c position (min (length input - position) max_match) 0

      ext : Agree input c position found × (found ≤ 0 + min (length input - position) max_match)
      ext =
          extend_match-Agree input c position (min (length input - position) max_match) 0
            (λ i h. absurd (omega arith))

  search_loop-IsMatch :
      (steps : ℕ) (e : Lz77Encoder) (c : ℕ) (best : Lz77Match)
      → IsMatch input position best
      → IsMatch input position (search_loop steps e input (length input) position c best)
  unfolding search_loop
  search_loop-IsMatch zero e c best h = h
  search_loop-IsMatch (suc steps) e c best h = elim (Bool-cases (c == no_position)) [
    | inl end ↦ rw (end, search_loop) h
    | inr more ↦
        let next = consider input (length input) position c best in
        let found = consider-IsMatch c best h in
        elim (Bool-cases next.1) [
          | inl stop ↦ rw (more, stop, search_loop) found
          | inr on ↦
              rw (more, on, search_loop) (search_loop-IsMatch steps e (e.previous c) next.0 found)
        ]
  ]

  -- Whatever the tables of the encoder hold, the match that the search returns is empty, or it
  -- repeats bytes of the block that stand before the position, within the window and the block.
  pub search_match-IsMatch :
      (e : Lz77Encoder) → IsMatch input position (search_match e input (length input) position)
  unfolding search_match
  search_match-IsMatch e = search_loop-IsMatch _ e _ _ (record {
    inside = omega arith;
    long = omega arith;
    near = λ h. absurd (omega arith);
    same = λ i h. absurd (omega arith);
  })
