-- ===== src/Sha256/Streaming.antt =====
-- The streaming object of sha256.cpp against the specification on whole messages.
use backup_system.Base.{
  ℕ, zero, suc, ◌+◌, ◌-◌, ◌*◌, ◌%◌, ◌^◌, ◌≤◌, ◌<◌, min, ◌≡◌, refl, sym, ap, ◌∙◌, Bool-cases, true,
  false, subst, inl, inr, [], ◌∷◌, ◌++◌, append_assoc, append-nil, length, length-append,
  length-take, length-drop, length-zero, take, drop, take_front, take-append-drop, ◌==◌, ==_iff,
  arith,
}
use backup_system.Stream.{Bytes}
use backup_system.Sha256.{
  Sha256, new, initial, transform, copy_into, absorb_part, update_loop, update,
}
use backup_system.Sha256.Blocks.{absorb, absorb-block}

-- The object has read `message`: whole blocks are in the state, the rest is in the block.
pub record Absorbed (s : Sha256) (message : Bytes) : Type 0 where
  pub blocks : ℕ
  pub full : Bytes
  pub split : message ≡ full ++ take s.used s.block
  pub whole : length full ≡ blocks * 64
  pub state_is : s.state ≡ absorb blocks initial full
  pub used_lt : s.used < 64
  pub block_size : length s.block ≡ 64

pub take_exact : (n : ℕ) (xs ys : Bytes) → length xs ≡ n → take n (xs ++ ys) ≡ xs
take_exact n xs ys h = rw (sym h) (take_front xs ys)

pub length-copy_into :
    (block : Bytes) (at : ℕ) (chunk : Bytes)
    → at + length chunk ≤ length block
    → length (copy_into block at chunk) ≡ length block
length-copy_into block at chunk h = omega (
  arith,
  length-append (take at block) (chunk ++ drop (at + length chunk) block),
  length-append chunk (drop (at + length chunk) block),
  length-take at block,
  length-drop (at + length chunk) block,
)

pub take-copy_into :
    (block : Bytes) (at : ℕ) (chunk : Bytes)
    → at ≤ length block
    → take (at + length chunk) (copy_into block at chunk) ≡ take at block ++ chunk
take-copy_into block at chunk h =
    rw (sym (append_assoc (take at block) chunk (drop (at + length chunk) block))) (
      take_exact (at + length chunk) (take at block ++ chunk) _
        (omega (arith, length-append (take at block) chunk, length-take at block)))

-- A copy that fills the block leaves nothing of it.
pub copy_into_end :
    (block : Bytes) (at : ℕ) (chunk : Bytes)
    → at + length chunk ≡ length block
    → copy_into block at chunk ≡ take at block ++ chunk
copy_into_end block at chunk h =
    rw
      (length-zero (drop (at + length chunk) block)
        (omega (arith, length-drop (at + length chunk) block)))
      (ap (λ t. take at block ++ t) (append-nil chunk))

absorb_part-full :
    (s : Sha256) (part : Bytes)
    → (s.used + length part == 64) ≡ true
    → absorb_part s part ≡ (
        let block = copy_into s.block s.used part in
        record s { state = transform s.state block; block = block; used = 0 })
unfolding absorb_part
absorb_part-full s part h = rw (h, absorb_part)

absorb_part-more :
    (s : Sha256) (part : Bytes)
    → (s.used + length part == 64) ≡ false
    → absorb_part s part
      ≡ record s { block = copy_into s.block s.used part; used = s.used + length part }
unfolding absorb_part
absorb_part-more s part h = rw (h, absorb_part)

absorb_part-Absorbed :
    (s : Sha256) (message part : Bytes)
    → Absorbed s message
    → s.used + length part ≤ 64
    → Absorbed (absorb_part s part) (message ++ part)
absorb_part-Absorbed s message part h fits = elim (Bool-cases (s.used + length part == 64)) [
  | inl done ↦
      let end : s.used + length part ≡ 64 = (==_iff _ _).0 done in
      let block = copy_into s.block s.used part in
      let whole_block : block ≡ take s.used s.block ++ part =
        copy_into_end s.block s.used part (end ∙ sym h.block_size) in
      let size : length block ≡ 64 =
        length-copy_into s.block s.used part (omega (arith, h.block_size)) ∙ h.block_size in
      rw (absorb_part-full s part done) (record {
        blocks = h.blocks + 1;
        full = h.full ++ block;
        split =
            ap (λ t. t ++ part) h.split
            ∙ append_assoc h.full (take s.used s.block) part
            ∙ ap (λ t. h.full ++ t) (sym whole_block)
            ∙ sym (append-nil (h.full ++ block));
        whole = omega (arith, length-append h.full block, h.whole, size);
        state_is =
            ap (λ t. transform t block) h.state_is
            ∙ sym (absorb-block h.blocks initial h.full block h.whole size);
        used_lt = omega arith;
        block_size = size;
      })
  | inr more ↦
      let size : length (copy_into s.block s.used part) ≡ 64 =
        length-copy_into s.block s.used part (omega (arith, h.block_size)) ∙ h.block_size in
      rw (absorb_part-more s part more) (record {
        blocks = h.blocks;
        full = h.full;
        split =
            ap (λ t. t ++ part) h.split
            ∙ append_assoc h.full (take s.used s.block) part
            ∙ ap (λ t. h.full ++ t)
                (sym (take-copy_into s.block s.used part (omega (arith, h.block_size, h.used_lt))));
        whole = h.whole;
        state_is = h.state_is;
        used_lt = ground arith;
        block_size = size;
      })
]

update_loop-Absorbed :
    (fuel : ℕ) (s : Sha256) (message input : Bytes)
    → Absorbed s message
    → length input ≤ fuel
    → Absorbed (update_loop fuel s input) (message ++ input)
unfolding update_loop
update_loop-Absorbed zero s message input h enough =
    rw (length-zero input (omega arith), append-nil message) h
update_loop-Absorbed (suc fuel) s message [] h enough = rw (append-nil message) h
update_loop-Absorbed (suc fuel) s message (x ∷ xs) h enough =
    let input = x ∷ xs in
    let n = min (length input) (64 - s.used) in
    let part = take n input in
    let room : s.used + length part ≤ 64 = omega (arith, length-take n input, h.used_lt) in
    let left : length (drop n input) ≤ fuel = omega (arith, length-drop n input, h.used_lt) in
    subst (λ m. Absorbed (update_loop fuel (absorb_part s part) (drop n input)) m)
      (append_assoc message part (drop n input) ∙ ap (λ t. message ++ t) (take-append-drop n input))
      (update_loop-Absorbed fuel (absorb_part s part) (message ++ part) (drop n input)
        (absorb_part-Absorbed s message part h room) left)

-- The count of bytes read, which wraps around.
total-absorb_part : (s : Sha256) (part : Bytes) → (absorb_part s part).total ≡ s.total
unfolding absorb_part
total-absorb_part s part = ground arith

total-update_loop :
    (fuel : ℕ) (s : Sha256) (input : Bytes) → (update_loop fuel s input).total ≡ s.total
unfolding update_loop
total-update_loop zero s input = refl
total-update_loop (suc fuel) s [] = refl
total-update_loop (suc fuel) s (x ∷ xs) =
    let n = min (length (x ∷ xs)) (64 - s.used) in
    total-update_loop fuel (absorb_part s (take n (x ∷ xs))) (drop n (x ∷ xs))
    ∙ total-absorb_part s (take n (x ∷ xs))

-- The object has read `message`, and has counted it.
pub record HasRead (s : Sha256) (message : Bytes) : Type 0 where
  pub absorbed : Absorbed s message
  pub counted : s.total ≡ length message % 2 ^ 64

pub new-HasRead : HasRead new []
unfolding absorb
new-HasRead = record {
  absorbed = record {
    blocks = 0;
    full = [];
    split = refl;
    whole = refl;
    state_is = refl;
    used_lt = omega arith;
    block_size = refl;
  };
  counted = refl;
}

-- `update` reads on, from any state that the object can be in.
pub update-HasRead :
    (s : Sha256) (message input : Bytes)
    → HasRead s message
    → HasRead (update s input) (message ++ input)
unfolding update
update-HasRead s message input h =
    let start : Sha256 = record s { total = (s.total + length input) % 2 ^ 64 } in
    let ready : Absorbed start message = record {
      blocks = h.absorbed.blocks;
      full = h.absorbed.full;
      split = h.absorbed.split;
      whole = h.absorbed.whole;
      state_is = h.absorbed.state_is;
      used_lt = h.absorbed.used_lt;
      block_size = h.absorbed.block_size;
    } in
    record {
      absorbed = update_loop-Absorbed (length input) start message input ready (omega arith);
      counted =
          total-update_loop (length input) start input
          ∙ omega (arith, h.counted, length-append message input);
    }
