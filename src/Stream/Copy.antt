-- ===== src/Stream/Copy.antt =====
-- copyBytes of common.cpp: the buffered loop against one exact read.
use backup_system.Base.{
  ℕ, zero, suc, ◌+◌, ◌-◌, ◌≤◌, min, ◌≡◌, [], ◌++◌, append_assoc, append-nil, length, take, drop,
  leb, if◌then◌else◌, take-add, drop-drop, length-drop, arith,
}
use backup_system.Base.Outcome.{ok, err}
use backup_system.Stream.{Bytes, buffer_size, copy_loop, copy_bytes}

copy_loop-eq :
    (fuel count done : ℕ) (output input : Bytes)
    → done ≤ count
    → count - done ≤ fuel
    → copy_loop fuel count done output input ≡ (
        if leb (count - done) (length input)
        then ok (output ++ take (count - done) input, drop (count - done) input)
        else err "truncated input while copying data")
unfolding copy_loop
copy_loop-eq zero count done output input h enough =
    let e : count - done ≡ 0 = omega arith in rw e (ground (arith, append-nil output))
copy_loop-eq (suc fuel) count done output input h enough =
    let wanted = min buffer_size (count - done) in
    let left = count - (done + wanted) in
    let whole : wanted + left ≡ count - done = omega arith in
    ground (
      arith,
      append-nil output,
      whole,
      copy_loop-eq fuel count (done + wanted) (output ++ take wanted input) (drop wanted input),
      length-drop wanted input,
      append_assoc output (take wanted input) (take left (drop wanted input)),
      take-add wanted left input,
      drop-drop wanted left input,
    )

-- copyBytes hands on the next `count` bytes and leaves the others, or it throws where there are
-- fewer.
pub copy_bytes-eq :
    (count : ℕ) (input : Bytes)
    → copy_bytes count input ≡ (
        if leb count (length input)
        then ok (take count input, drop count input)
        else err "truncated input while copying data")
unfolding copy_bytes
copy_bytes-eq count input =
    let none : count - 0 ≡ count = omega arith in
    simp none at (copy_loop-eq count count 0 [] input (omega arith) (omega arith))
