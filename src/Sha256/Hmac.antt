-- ===== src/Sha256/Hmac.antt =====
-- HmacSha256, hmacSha256 and hmacFile of sha256.cpp.
use backup_system.Base.{
  ℕ, zero, suc, ◌+◌, ◌-◌, ◌≤◌, min, bit_xor, ◌≡◌, refl, sym, ap, ◌∙◌, subst, Bool-cases, true,
  false, inl, inr, [], ◌++◌, map, append_assoc, append-nil, length, length-drop, take, drop,
  take-add, replicate, leb, ltb, if◌then◌else◌, ltb→lt, le→leb, leb→le, ◌<◌, arith,
}
use backup_system.Base.Outcome.{Result, ok, err, out_of_fuel}
use backup_system.Stream.{Bytes, buffer_size}
use backup_system.Sha256.{Sha256, new, update, finish, sha256, copy_into}
use backup_system.Sha256.Streaming.{HasRead, new-HasRead, update-HasRead}
use backup_system.Sha256.Digest.{finish-HasRead, sha256-eq}

pub record HmacSha256 : Type 0 where
  pub inner : Sha256
  pub outer : Sha256

-- The key in a block of 64 bytes; a longer one is hashed.
unfoldable pub key_block : Bytes → Bytes
key_block key = copy_into (replicate 64 0) 0 (if ltb 64 (length key) then sha256 key else key)

unfoldable pub new_hmac : Bytes → HmacSha256
new_hmac key =
    let block = key_block key in
    record {
      inner = update new (map (λ b. bit_xor b 0x36) block);
      outer = update new (map (λ b. bit_xor b 0x5c) block);
    }

unfoldable pub update_hmac : HmacSha256 → Bytes → HmacSha256
update_hmac s input = record s { inner = update s.inner input }

unfoldable pub finish_hmac : HmacSha256 → Bytes
finish_hmac s = finish (update s.outer (finish s.inner))

unfoldable pub hmac_sha256 : Bytes → Bytes → Bytes
hmac_sha256 key input = finish_hmac (update_hmac (new_hmac key) input)

-- The loop of hmacFile: `size` bytes are left to read.
unfoldable pub hmac_loop : ℕ → ℕ → HmacSha256 → Bytes → Result HmacSha256
hmac_loop zero size s input = if ltb 0 size then out_of_fuel else ok s
hmac_loop (suc fuel) size s input = elim (ltb 0 size) [
  | true ↦
      let count = min size buffer_size in
      elim (leb count (length input)) [
        | true ↦ hmac_loop fuel (size - count) (update_hmac s (take count input)) (drop count input)
        | false ↦ err "truncated or unreadable input stream"
      ]
  | false ↦ ok s
]

-- `input` is the file; each round reads a byte at least.
unfoldable pub hmac_file : Bytes → ℕ → Bytes → Result Bytes
hmac_file key size input = elim (hmac_loop size size (new_hmac key) input) [
  | ok s ↦ ok (finish_hmac s)
  | err e ↦ err e
  | out_of_fuel ↦ out_of_fuel
]

-- RFC 2104: a key of at most 64 bytes, or the digest of a longer one, with zeros up to 64 bytes.
unfoldable pub short_key : Bytes → Bytes
short_key key = if leb (length key) 64 then key else sha256 key

unfoldable pub padded_key : Bytes → Bytes
padded_key key = short_key key ++ replicate (64 - length (short_key key)) 0

-- RFC 2104 on the one-shot hash.
unfoldable pub hmac : Bytes → Bytes → Bytes
hmac key message = sha256 (
    map (λ b. bit_xor b 0x5c) (padded_key key)
    ++ sha256 (map (λ b. bit_xor b 0x36) (padded_key key) ++ message))

drop_zeros : (n m : ℕ) → drop {A = ℕ} n (replicate m 0) ≡ replicate (m - n) 0
drop_zeros zero m = let e : m ≡ m - 0 = omega arith in ap (λ k. replicate k 0) e
drop_zeros (suc n) zero = let e : 0 ≡ 0 - suc n = omega arith in ap (λ k. replicate k 0) e
drop_zeros (suc n) (suc m) =
    let e : m - n ≡ suc m - suc n = omega arith in drop_zeros n m ∙ ap (λ k. replicate k 0) e

copy_into-zeros : (x : Bytes) → copy_into (replicate 64 0) 0 x ≡ x ++ replicate (64 - length x) 0
copy_into-zeros x =
    let start : 0 + length x ≡ length x = omega arith in
    ap (λ t. x ++ t) (ap (λ k. drop k (replicate 64 0)) start ∙ drop_zeros (length x) 64)

key_block-padded_key : (key : Bytes) → key_block key ≡ padded_key key
unfolding key_block padded_key short_key
key_block-padded_key key = elim (Bool-cases (leb (length key) 64)) [
  | inl short ↦
      let few : ltb 64 (length key) ≡ false = ground arith in rw (few, short) (copy_into-zeros key)
  | inr long ↦
      let many : ltb 64 (length key) ≡ true = ground arith in
      rw (many, long) (copy_into-zeros (sha256 key))
]

-- The object has read `message` under the key.
record IsHmac (key : Bytes) (s : HmacSha256) (message : Bytes) : Type 0 where
  inner_read : HasRead s.inner (map (λ b. bit_xor b 0x36) (key_block key) ++ message)
  outer_read : HasRead s.outer (map (λ b. bit_xor b 0x5c) (key_block key))

new_hmac-IsHmac : (key : Bytes) → IsHmac key (new_hmac key) []
unfolding new_hmac
new_hmac-IsHmac key =
    let block = key_block key in
    record {
      inner_read =
          subst (HasRead (update new (map (λ b. bit_xor b 0x36) block)))
            (sym (append-nil (map (λ b. bit_xor b 0x36) block)))
            (update-HasRead new [] (map (λ b. bit_xor b 0x36) block) new-HasRead);
      outer_read = update-HasRead new [] (map (λ b. bit_xor b 0x5c) block) new-HasRead;
    }

update_hmac-IsHmac :
    (key : Bytes) (s : HmacSha256) (message input : Bytes)
    → IsHmac key s message
    → IsHmac key (update_hmac s input) (message ++ input)
unfolding update_hmac
update_hmac-IsHmac key s message input h = record {
  inner_read =
      subst (HasRead (update s.inner input))
        (append_assoc (map (λ b. bit_xor b 0x36) (key_block key)) message input)
        (update-HasRead s.inner (map (λ b. bit_xor b 0x36) (key_block key) ++ message) input
          h.inner_read);
  outer_read = h.outer_read;
}

finish_hmac-IsHmac :
    (key : Bytes) (s : HmacSha256) (message : Bytes)
    → IsHmac key s message
    → finish_hmac s ≡ hmac key message
unfolding finish_hmac hmac
finish_hmac-IsHmac key s message h =
    let inner = map (λ b. bit_xor b 0x36) (key_block key) ++ message in
    let outer = map (λ b. bit_xor b 0x5c) (key_block key) in
    rw (← key_block-padded_key key) (
      ap (λ t. finish (update s.outer t))
        (finish-HasRead s.inner inner h.inner_read ∙ sym (sha256-eq inner))
      ∙ finish-HasRead (update s.outer (sha256 inner)) (outer ++ sha256 inner)
          (update-HasRead s.outer outer (sha256 inner) h.outer_read)
      ∙ sym (sha256-eq (outer ++ sha256 inner)))

-- hmacSha256 is HMAC of RFC 2104 on the one-shot hash: the two digests under the key with zeros up to
-- 64 bytes, a key of more than 64 bytes being hashed first.
pub hmac_sha256-eq : (key message : Bytes) → hmac_sha256 key message ≡ hmac key message
unfolding hmac_sha256
hmac_sha256-eq key message =
    finish_hmac-IsHmac key (update_hmac (new_hmac key) message) message
      (update_hmac-IsHmac key (new_hmac key) [] message (new_hmac-IsHmac key))

hmac_loop-step :
    (fuel size : ℕ) (s : HmacSha256) (input : Bytes)
    → ltb 0 size ≡ true
    → leb (min size buffer_size) (length input) ≡ true
    → hmac_loop (suc fuel) size s input ≡ (
        let count = min size buffer_size in
        hmac_loop fuel (size - count) (update_hmac s (take count input)) (drop count input))
unfolding hmac_loop
hmac_loop-step fuel size s input more room = rw (more, room, hmac_loop)

-- What the loop of hmacFile does with an object under the key.
hmac_loop-IsHmac :
    (key : Bytes) (fuel size : ℕ) (s : HmacSha256) (message input : Bytes)
    → IsHmac key s message
    → size ≤ fuel
    → size ≤ length input
    → (t : HmacSha256) × (hmac_loop fuel size s input ≡ ok t)
      × IsHmac key t (message ++ take size input)
unfolding hmac_loop
hmac_loop-IsHmac key zero size s message input h enough fits =
    let none : size ≡ 0 = omega arith in rw none (s, refl, rw (append-nil message) h)
hmac_loop-IsHmac key (suc fuel) size s message input h enough fits =
    elim (Bool-cases (ltb 0 size)) [
      | inl more ↦
          let count = min size buffer_size in
          let part = take count input in
          let left = drop count input in
          let room : leb count (length input) ≡ true = le→leb count (length input) (omega arith) in
          let all : count + (size - count) ≡ size = omega arith in
          let (t, runs, read) =
            hmac_loop-IsHmac key fuel (size - count) (update_hmac s part) (message ++ part) left
              (update_hmac-IsHmac key s message part h) (omega (arith, ltb→lt 0 size more))
              (omega (arith, length-drop count input)) in
          (
            t,
            hmac_loop-step fuel size s input more room ∙ runs,
            subst (IsHmac key t)
                (append_assoc message part (take (size - count) left)
                  ∙ ap (λ x. message ++ x)
                      (take-add count (size - count) input ∙ ap (λ n. take n input) all))
                read,
          )
      | inr done ↦
          let none : size ≡ 0 = ground arith in rw none (s, refl, rw (append-nil message) h)
    ]

hmac_loop-short :
    (fuel size : ℕ) (s : HmacSha256) (input : Bytes)
    → size ≤ fuel
    → length input < size
    → hmac_loop fuel size s input ≡ err "truncated or unreadable input stream"
unfolding hmac_loop
hmac_loop-short zero size s input enough short = absurd (omega arith)
hmac_loop-short (suc fuel) size s input enough short =
    let count = min size buffer_size in
    ground (
      arith,
      length-drop count input,
      hmac_loop-short fuel (size - count) (update_hmac s (take count input)) (drop count input),
    )

-- hmacFile gives the HMAC of the first `size` bytes of the file, or it throws where the file has
-- fewer.
pub hmac_file-eq :
    (key : Bytes) (size : ℕ) (input : Bytes)
    → hmac_file key size input ≡ (
        if leb size (length input)
        then ok (hmac key (take size input))
        else err "truncated or unreadable input stream")
unfolding hmac_file
hmac_file-eq key size input = elim (Bool-cases (leb size (length input))) [
  | inl fits ↦
      let (t, runs, read) =
        hmac_loop-IsHmac key size size (new_hmac key) [] input (new_hmac-IsHmac key) (omega arith)
          (leb→le size (length input) fits) in
      ap closed runs ∙ ap ok (finish_hmac-IsHmac key t (take size input) read) ∙ rw fits
  | inr short ↦
      ap closed (hmac_loop-short size size (new_hmac key) input (omega arith) (ground arith))
      ∙ rw short
]
  where
    closed : Result HmacSha256 → Result Bytes
    closed r = elim r [ ok s ↦ ok (finish_hmac s) | err e ↦ err e | out_of_fuel ↦ out_of_fuel ]
