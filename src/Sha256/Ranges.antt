-- ===== src/Sha256/Ranges.antt =====
-- shaFileRange of sha256.cpp: the digest of a part of a file.
use backup_system.Base.{
  ℕ, zero, suc, ◌+◌, ◌-◌, ◌^◌, ◌≤◌, min, ◌≡◌, refl, sym, ap, ◌∙◌, subst, Bool-cases, true, false,
  ◌||◌, inl, inr, [], ◌++◌, append_assoc, append-nil, length, length-drop, take, drop, take-add,
  take_all, leb, ltb, ◌==◌, ltb→lt, le→leb, if◌then◌else◌, arith,
}
use backup_system.Base.Outcome
use backup_system.Base.Outcome.{Result, ok, err, out_of_fuel, ensure}
use backup_system.Stream.{Bytes, buffer_size}
use backup_system.Sha256.{Sha256, new, update, finish, sha256}
use backup_system.Sha256.Streaming.{HasRead, new-HasRead, update-HasRead}
use backup_system.Sha256.Digest.{finish-HasRead, sha256-eq}

-- `UINT64_MAX`: up to the end of the file.
abbrev pub to_end : ℕ
to_end = 2 ^ 64 - 1

-- The loop over `count` bytes, of which `done` are read.
unfoldable pub range_loop : ℕ → ℕ → ℕ → Sha256 → Bytes → Result Sha256
range_loop zero count done s input = if ltb done count then out_of_fuel else ok s
range_loop (suc fuel) count done s input = elim (ltb done count) [
  | true ↦
      let part = min buffer_size (count - done) in
      elim (leb part (length input)) [
        | true ↦ range_loop fuel count (done + part) (update s (take part input)) (drop part input)
        | false ↦ err "truncated or unreadable input stream"
      ]
  | false ↦ ok s
]

unfoldable pub sha_file_range : Bytes → ℕ → ℕ → Result Bytes
sha_file_range file offset size =
    Outcome.◌>>◌ (ensure (leb offset (length file)) "SHA-256 offset exceeds file size") (
      let available = length file - offset in
      let count = if size == to_end then available else min size available in
      Outcome.◌>>◌ (ensure (size == to_end || leb size available) "SHA-256 range exceeds file size")
        (Outcome.◌>>=◌ (range_loop count count 0 new (drop offset file)) λ s. ok (finish s)))

range_loop-step :
    (fuel count done : ℕ) (s : Sha256) (input : Bytes)
    → ltb done count ≡ true
    → leb (min buffer_size (count - done)) (length input) ≡ true
    → range_loop (suc fuel) count done s input ≡ (
        let part = min buffer_size (count - done) in
        range_loop fuel count (done + part) (update s (take part input)) (drop part input))
unfolding range_loop
range_loop-step fuel count done s input more room = rw (more, room, range_loop)

range_loop-stop :
    (fuel count done : ℕ) (s : Sha256) (input : Bytes)
    → ltb done count ≡ false
    → range_loop (suc fuel) count done s input ≡ ok s
unfolding range_loop
range_loop-stop fuel count done s input stop = rw (stop, range_loop)

range_loop-HasRead :
    (fuel count done : ℕ) (s : Sha256) (message input : Bytes)
    → HasRead s message
    → count - done ≤ fuel
    → done ≤ count
    → count - done ≤ length input
    → (t : Sha256) × (range_loop fuel count done s input ≡ ok t)
      × HasRead t (message ++ take (count - done) input)
unfolding range_loop
range_loop-HasRead zero count done s message input h enough le fits =
    let none : count - done ≡ 0 = omega arith in
    let stop : ltb done count ≡ false = ground arith in
    rw (none, stop) (s, refl, rw (append-nil message) h)
range_loop-HasRead (suc fuel) count done s message input h enough le fits =
    elim (Bool-cases (ltb done count)) [
      | inl more ↦
          let n = min buffer_size (count - done) in
          let part = take n input in
          let left = drop n input in
          let room : leb n (length input) ≡ true = le→leb n (length input) (omega arith) in
          let all : n + (count - (done + n)) ≡ count - done = omega arith in
          let (t, runs, read) =
            range_loop-HasRead fuel count (done + n) (update s part) (message ++ part) left
              (update-HasRead s message part h) (omega (arith, ltb→lt done count more))
              (omega arith) (omega (arith, length-drop n input)) in
          (
            t,
            range_loop-step fuel count done s input more room ∙ runs,
            subst (HasRead t)
                (append_assoc message part (take (count - (done + n)) left)
                  ∙ ap (λ x. message ++ x)
                      (take-add n (count - (done + n)) input ∙ ap (λ k. take k input) all))
                read,
          )
      | inr stop ↦
          let none : count - done ≡ 0 = ground arith in
          rw none (s, range_loop-stop fuel count done s input stop, rw (append-nil message) h)
    ]

-- The loop on a range that lies in the file.
range_loop-eq :
    (count : ℕ) (input : Bytes)
    → count ≤ length input
    → Outcome.◌>>=◌ (range_loop count count 0 new input) (λ s. ok (finish s))
      ≡ ok (sha256 (take count input))
range_loop-eq count input fits =
    let (t, runs, read) =
      range_loop-HasRead count count 0 new [] input new-HasRead (omega arith) (omega arith)
        (omega arith) in
    let whole : count - 0 ≡ count = omega arith in
    ap (λ r. Outcome.◌>>=◌ r (λ s. ok (finish s))) runs
    ∙ ap ok (
        finish-HasRead t (take (count - 0) input) read
        ∙ sym (sha256-eq (take (count - 0) input))
        ∙ ap (λ n. sha256 (take n input)) whole)

take_rest :
    (file : Bytes) (offset : ℕ) → take (length file - offset) (drop offset file) ≡ drop offset file
take_rest file offset =
    ap (λ n. take n (drop offset file)) (sym (length-drop offset file))
    ∙ take_all (drop offset file)

-- The digest of a range is that of its bytes; a range that does not lie in the file is refused, and
-- UINT64_MAX asks for all that follows the offset.
pub sha_file_range-eq :
    (file : Bytes) (offset size : ℕ)
    → sha_file_range file offset size ≡ (
        if leb offset (length file)
        then if size == to_end
          then ok (sha256 (drop offset file))
          else if leb size (length file - offset)
          then ok (sha256 (take size (drop offset file)))
          else err "SHA-256 range exceeds file size"
        else err "SHA-256 offset exceeds file size")
unfolding sha_file_range
sha_file_range-eq file offset size =
    let rest = drop offset file in
    let available = length file - offset in
    let room : length rest ≡ available = length-drop offset file in
    ground
      (arith, range_loop-eq available rest, range_loop-eq size rest, take_rest file offset, room)
