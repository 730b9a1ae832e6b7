-- ===== src/Crypto/Stage.antt =====
-- cryptStage of crypto.cpp: the encryption stage, and its inverse.
use backup_system.Base.{
  ℕ, zero, suc, ◌+◌, ◌-◌, ◌^◌, ◌≤◌, ◌<◌, min, ◌≡◌, refl, sym, ap, ap₂, ◌∙◌, true, false, Bool-cases,
  inl, inr, not, ◌&&◌, ◌||◌, [], ◌++◌, append-nil, length, length-append, length-take, length-drop,
  is_empty, take, drop, take-add, take_front, drop_front, leb, ltb, ltb→lt, lt→ltb, le→leb, not-ltb,
  ◌==◌, if◌then◌else◌, arith,
}
use backup_system.Base.Outcome.{ok, ◌>>=◌}
use backup_system.Stream.{Bytes, buffer_size}
use backup_system.Stream.Copy.{copy_bytes-eq}
use backup_system.Format.{EncryptionAlgorithm}
use backup_system.Format.EncryptionAlgorithm.{none, chacha20, aes256}
use backup_system.Crypto.Keystream.{xor_at, xor_at-append, xor_at-xor_at, length-xor_at}
use backup_system.Crypto.ChaCha20.Xor.{chacha20_stream, chacha20_xor-eq}
use backup_system.Crypto.Aes256.{aes256_expand_key}
use backup_system.Crypto.Aes256.Xor.{aes256_blocks, aes256_ctr_xor-loop}
use backup_system.Crypto.{
  derive_key, crypt_buffer, crypt_loop, crypt_stage, is_none, is_chacha20, to_end,
}

-- The keystream of an algorithm.
unfoldable pub stream_of : EncryptionAlgorithm → Bytes → Bytes → ℕ → ℕ
stream_of none key salt = λ position. 0
stream_of chacha20 key salt = chacha20_stream key (take 12 salt)
stream_of aes256 key salt = aes256_blocks (aes256_expand_key key) salt

crypt_buffer-eq :
    (a : EncryptionAlgorithm) (key salt : Bytes) (position : ℕ) (buffer : Bytes)
    → is_none a ≡ false
    → (is_chacha20 a ≡ true → position + length buffer ≤ 2 ^ 38)
    → crypt_buffer a key salt position buffer ≡ ok (xor_at (stream_of a key salt) position buffer)
unfolding crypt_buffer stream_of is_none is_chacha20
crypt_buffer-eq none key salt position buffer cipher small = cc
crypt_buffer-eq chacha20 key salt position buffer cipher small =
    chacha20_xor-eq key (take 12 salt) position buffer (small refl)
crypt_buffer-eq aes256 key salt position buffer cipher small =
    ap ok (aes256_ctr_xor-loop key salt position buffer)

crypt_loop-step :
    (fuel : ℕ) (a : EncryptionAlgorithm) (key salt : Bytes) (position total : ℕ) (input : Bytes)
    → ltb position total ≡ true
    → leb (min buffer_size (total - position)) (length input) ≡ true
    → crypt_loop (suc fuel) a key salt position total input ≡ (
        let wanted = min buffer_size (total - position) in
        crypt_buffer a key salt position (take wanted input) >>= λ piece.
        crypt_loop fuel a key salt (position + wanted) total (drop wanted input) >>= λ rest.
        ok (piece ++ rest))
unfolding crypt_loop
crypt_loop-step fuel a key salt position total input more room = rw (more, room, crypt_loop)

crypt_loop-stop :
    (fuel : ℕ) (a : EncryptionAlgorithm) (key salt : Bytes) (position total : ℕ) (input : Bytes)
    → ltb position total ≡ false
    → crypt_loop fuel a key salt position total input ≡ ok []
unfolding crypt_loop
crypt_loop-stop zero a key salt position total input stop = rw (stop, crypt_loop)
crypt_loop-stop (suc fuel) a key salt position total input stop = rw (stop, crypt_loop)

crypt_loop-eq :
    (fuel : ℕ) (a : EncryptionAlgorithm) (key salt : Bytes) (position total : ℕ) (input : Bytes)
    → is_none a ≡ false
    → (is_chacha20 a ≡ true → total ≤ 2 ^ 38)
    → total - position ≤ fuel
    → position ≤ total
    → total - position ≤ length input
    → crypt_loop fuel a key salt position total input
      ≡ ok (xor_at (stream_of a key salt) position (take (total - position) input))
unfolding xor_at
crypt_loop-eq zero a key salt position total input cipher small enough le fits =
    let none : 0 ≡ total - position = omega arith in
    crypt_loop-stop zero a key salt position total input (not-ltb position total (omega arith))
    ∙ ap (λ n. ok (xor_at (stream_of a key salt) position (take n input))) none
crypt_loop-eq (suc fuel) a key salt position total input cipher small enough le fits =
    elim (Bool-cases (ltb position total)) [
      | inl more ↦
          let n = min buffer_size (total - position) in
          let part = take n input in
          let left = drop n input in
          let stream = stream_of a key salt in
          let size : length part ≡ n = omega (arith, length-take n input) in
          let room : leb n (length input) ≡ true = le→leb n (length input) (omega arith) in
          let rest = total - (position + n) in
          let all : n + rest ≡ total - position = omega arith in
          crypt_loop-step fuel a key salt position total input more room
          ∙ ap₂ (λ p r. p >>= λ piece. r >>= λ rest. ok (piece ++ rest))
              (crypt_buffer-eq a key salt position part cipher (λ c. omega (arith, size, small c)))
              (crypt_loop-eq fuel a key salt (position + n) total left cipher small
                (omega (arith, ltb→lt position total more)) (omega arith)
                (omega (arith, length-drop n input)))
          ∙ ap ok (
              ap (λ k. xor_at stream position part ++ xor_at stream k (take rest left))
                (omega (arith, size))
              ∙ sym (xor_at-append stream position part (take rest left))
              ∙ ap (xor_at stream position) (take-add n rest input ∙ ap (λ k. take k input) all))
      | inr stop ↦
          let none : 0 ≡ total - position = ground arith in
          crypt_loop-stop (suc fuel) a key salt position total input stop
          ∙ ap (λ n. ok (xor_at (stream_of a key salt) position (take n input))) none
    ]

-- What the stage makes of its part of the input.
unfoldable pub crypted : EncryptionAlgorithm → Bytes → Bytes → Bytes → Bytes
crypted a key salt body = if is_none a then body else xor_at (stream_of a key salt) 0 body

sub_zero : (n : ℕ) → n - 0 ≡ n
sub_zero n = omega arith

within_limit :
    (a : EncryptionAlgorithm) (n : ℕ)
    → (is_chacha20 a ≡ true → n < 2 ^ 38)
    → (not (is_chacha20 a) || ltb n (2 ^ 38)) ≡ true
unfolding is_chacha20
within_limit none n small = refl
within_limit chacha20 n small = lt→ltb n (2 ^ 38) (small refl)
within_limit aes256 n small = refl

crypt_stage-body :
    (a : EncryptionAlgorithm) (password salt input body post : Bytes) (offset size : ℕ)
    → (is_none a || not (is_empty password)) ≡ true
    → (is_chacha20 a ≡ true → length body < 2 ^ 38)
    → (leb offset (length input) && (size == to_end || leb size (length input - offset))) ≡ true
    → (if size == to_end then length input - offset else size) ≡ length body
    → drop offset input ≡ body ++ post
    → crypt_stage a password salt input offset size
      ≡ ok (crypted a (derive_key password salt) salt body)
unfolding crypt_stage crypted
crypt_stage-body a password salt input body post offset size given small range total rest =
    let fits : leb (length body) (length (body ++ post)) ≡ true =
      le→leb (length body) (length (body ++ post)) (omega (arith, length-append body post)) in
    let whole : take (length body - 0) (body ++ post) ≡ body =
      ap (λ n. take n (body ++ post)) (sub_zero (length body)) ∙ take_front body post in
    rw (given, range, total, rest, crypt_stage)
      (elim (Bool-cases (is_none a)) [
        | inl plain ↦
            rw plain
              (rw (copy_bytes-eq (length body) (body ++ post)) (rw (fits, take_front body post)))
        | inr cipher ↦ rw cipher (
            rw (within_limit a (length body) small) (
              crypt_loop-eq (length body) a (derive_key password salt) salt 0 (length body)
                (body ++ post) cipher (λ c. omega (arith, small c)) (omega arith) (omega arith)
                (omega (arith, length-append body post))
              ∙ ap (λ t. ok (xor_at (stream_of a (derive_key password salt) salt) 0 t)) whole))
      ])

length-crypted :
    (a : EncryptionAlgorithm) (key salt body : Bytes)
    → length (crypted a key salt body) ≡ length body
unfolding crypted
length-crypted a key salt body = elim (Bool-cases (is_none a)) [
  | inl plain ↦ rw plain refl
  | inr cipher ↦ rw cipher (length-xor_at (stream_of a key salt) 0 body)
]

crypted-crypted :
    (a : EncryptionAlgorithm) (key salt body : Bytes)
    → crypted a key salt (crypted a key salt body) ≡ body
unfolding crypted
crypted-crypted a key salt body = elim (Bool-cases (is_none a)) [
  | inl plain ↦ rw plain refl
  | inr cipher ↦ rw cipher (xor_at-xor_at (stream_of a key salt) 0 body)
]

-- A body below the size that means "to the end", and below 2^38 bytes for ChaCha20, is encrypted to
-- as many bytes, with a password that is not empty where there is an algorithm; and the stage with
-- the same password and salt gives the body back from where its encryption stands in a file.
pub crypt_stage-crypt_stage :
    (a : EncryptionAlgorithm) (password salt pre body post : Bytes)
    → (is_none a || not (is_empty password)) ≡ true
    → (is_chacha20 a ≡ true → length body < 2 ^ 38)
    → length body < to_end
    → (cipher : Bytes) × (crypt_stage a password salt body 0 to_end ≡ ok cipher)
      × (length cipher ≡ length body)
      × (crypt_stage a password salt (pre ++ (cipher ++ post)) (length pre) (length cipher)
          ≡ ok body)
crypt_stage-crypt_stage a password salt pre body post given small bounded =
    let key = derive_key password salt in
    let cipher = crypted a key salt body in
    let same = length-crypted a key salt body in
    let sized : (length cipher == to_end) ≡ false = ground (arith, same) in
    let archive = pre ++ (cipher ++ post) in
    let range : (leb (length pre) (length archive)
          && (length cipher == to_end || leb (length cipher) (length archive - length pre)))
        ≡ true =
      ground (arith, length-append pre (cipher ++ post), length-append cipher post) in
    (
      cipher,
      crypt_stage-body a password salt body body [] 0 to_end given small (ground arith)
          (sub_zero (length body)) (sym (append-nil body)),
      same,
      crypt_stage-body a password salt (pre ++ (cipher ++ post)) cipher post (length pre)
            (length cipher) given (λ c. omega (arith, small c, same)) range (rw sized)
            (drop_front pre (cipher ++ post))
          ∙ ap ok (crypted-crypted a key salt body),
    )
