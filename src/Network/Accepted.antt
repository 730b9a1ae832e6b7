-- ===== src/Network/Accepted.antt =====
-- What receiveFrame makes of any bytes.
use backup_system.Base.{
  ℕ, ◌*◌, ◌^◌, ◌≤◌, ◌<◌, ◌≡◌, refl, sym, ap, ap₂, ◌∙◌, String, Bool, true, false, Bool-cases, ◌⊎◌,
  inl, inr, none, some, [], ◌∷◌, ◌++◌, append_assoc, append-nil, length, take, drop,
  take-append-drop, leb, ◌==◌, ==_iff, leb→le, All, All-split, All-take, All-drop, length-take,
  length-drop, arith,
}
use backup_system.Base.Outcome.{ok, err}
use backup_system.Stream.{Bytes, IsByte}
use backup_system.Stream.Equal.{bytes_eq_cases}
use backup_system.Stream.Readers.{IsTaken}
use backup_system.Stream.Consumed.{
  Takes, accepted, rejected, Takes-pure, Takes-bind, Takes-ensure, Takes-at_end, run-whole,
}
use backup_system.Network.{
  Frame, protocol_version, max_payload, frame_magic, put_u16, put_u32, get_u16, get_u32, get_word,
  put_word, take_bytes, receive_all, send_frame, frame_fields, receive_payload, receive_rest,
  receive_frame,
}
use backup_system.Network.Wire.{put_word-shift_in, shift_in_width, take_bytes-eq-ok}
use backup_system.Network.Frames.{IsFrame, header_fields, send_frame-eq, receive_frame-header}

take_bytes_cases :
    (message : String) (n : ℕ) (input : Bytes)
    → ((p : Bytes × Bytes) × (take_bytes message n input ≡ ok p))
      ⊎ ((e : String) × (take_bytes message n input ≡ err e))
unfolding take_bytes
take_bytes_cases message n input = elim (Bool-cases (leb n (length input))) [
  | inl fits ↦ inl ((take n input, drop n input), rw fits)
  | inr short ↦ inr (message, rw short)
]

-- The word that was read, and its bytes.
abbrev pub IsWord : ℕ → ℕ → Bytes → Type 0
IsWord n v xs = (xs ≡ put_word n v) × (v < 2 ^ (n * 8))

-- A block of bytes is what was taken.
pub Takes-take_bytes : (message : String) (n : ℕ) → Takes false (IsTaken n) (take_bytes message n)
Takes-take_bytes message n = record {
  at = λ input bytes. elim (take_bytes_cases message n input) [
    | inl ((xs, rest), e) ↦
        let (split, size) = take_bytes-eq-ok message n input e in
        let (hx, hr) = All-split IsByte xs rest (rw split at bytes) in
        rw e (accepted xs rest (refl, size, hx) split (λ e. absurd (cc)) hr)
    | inr (x, e) ↦ rw e rejected
  ];
}

pub Takes-get_word : (n : ℕ) → Takes false (IsWord n) (get_word n)
unfolding get_word
Takes-get_word n = Takes-bind (Takes-take_bytes _ n) λ v xs (same, size, bytes). Takes-pure (
  rw append-nil (rw same (sym (put_word-shift_in n v size bytes))),
  shift_in_width n v size bytes,
)

pub Takes-get_u16 : Takes false (IsWord 2) get_u16
unfolding get_u16
Takes-get_u16 = Takes-get_word 2

pub Takes-get_u32 : Takes false (IsWord 4) get_u32
unfolding get_u32
Takes-get_u32 = Takes-get_word 4

abbrev IsFields : ℕ × ℕ × ℕ → Bytes → Type 0
IsFields (kind, request_id, size) xs =
    (xs ≡ header_fields kind request_id size)
    × (kind < 2 ^ 16)
    × (request_id < 2 ^ 32)
    × (size ≤ max_payload)

Takes-frame_fields : Takes true IsFields frame_fields
unfolding frame_fields put_u16 put_u32
Takes-frame_fields = Takes-bind Takes-get_u16 λ version vs (v, _).
    Takes-ensure (version == protocol_version) _ λ same. Takes-bind Takes-get_u16 λ kind ks (k, hk).
      Takes-bind Takes-get_u32 λ request rs (r, hr). Takes-bind Takes-get_u32 λ size ss (s, hs).
        Takes-at_end _ (
          Takes-ensure (leb size max_payload) _ λ small. Takes-pure (
            rw append-nil (
                ap₂ (λ a b. a ++ b) (v ∙ ap (put_word 2) ((==_iff version protocol_version).0 same))
                  (ap₂ (λ a b. a ++ b) k (ap₂ (λ a b. a ++ b) r s))),
            hk,
            hr,
            leb→le size max_payload small,
          ))

receive_all_cases :
    (size : ℕ) (clean : Bool) (input : Bytes)
    → ((size ≤ length input)
        × (receive_all size clean input ≡ ok (some (take size input), drop size input)))
      ⊎ (((clean ≡ true) × (input ≡ []) × (receive_all size clean input ≡ ok (none, [])))
          ⊎ ((e : String) × (receive_all size clean input ≡ err e)))
unfolding receive_all
receive_all_cases size clean input = elim (Bool-cases (leb size (length input))) [
  | inl fits ↦ inl (leb→le size (length input) fits, rw fits)
  | inr short ↦ nothing clean input short
]
  where
    nothing :
        (clean : Bool) (input : Bytes)
        → leb size (length input) ≡ false
        → ((size ≤ length input)
            × (receive_all size clean input ≡ ok (some (take size input), drop size input)))
          ⊎ (((clean ≡ true) × (input ≡ []) × (receive_all size clean input ≡ ok (none, [])))
              ⊎ ((e : String) × (receive_all size clean input ≡ err e)))
    nothing true [] short = inr (inl (refl, refl, rw short))
    nothing false input short = inr (inr ("network connection closed unexpectedly", rw short))
    nothing true (b ∷ bs) short = inr (inr ("network connection closed unexpectedly", rw short))

receive_payload-cases :
    (kind request_id size : ℕ) (input : Bytes)
    → ((size ≤ length input)
        × (receive_payload kind request_id size input
            ≡ ok (
              some (record { kind = kind; request_id = request_id; payload = take size input }),
              drop size input,
            )))
      ⊎ ((e : String) × (receive_payload kind request_id size input ≡ err e))
receive_payload-cases kind request_id size input = elim (receive_all_cases size false input) [
  | inl (fits, e) ↦ inl (fits, unfold receive_payload in rw (e, receive_payload))
  | inr (inl (f, _, _)) ↦ absurd (cc)
  | inr (inr (x, e)) ↦ inr (x, unfold receive_payload in rw (e, receive_payload))
]

receive_rest-cases :
    (fields input : Bytes)
    → All IsByte fields
    → length fields ≡ 12
    → ((f : Frame) × (rest : Bytes) × (receive_rest fields input ≡ ok (some f, rest))
        × (input ≡ f.payload ++ rest)
        × IsFrame f
        × (fields ≡ header_fields f.kind f.request_id (length f.payload)))
      ⊎ ((e : String) × (receive_rest fields input ≡ err e))
unfolding receive_rest
receive_rest-cases fields input bytes size =
    elim (run-whole frame_fields fields Takes-frame_fields bytes) [
      | inr (x, e) ↦ inr (x, rw e)
      | inl ((kind, request_id, n), e, (same, hk, hr, hn)) ↦
          elim (receive_payload-cases kind request_id n input) [
            | inr (x, e') ↦ inr (x, rw e e')
            | inl (fits, e') ↦
                let size : length (take n input) ≡ n = omega (arith, length-take n input) in
                inl (
                  record { kind = kind; request_id = request_id; payload = take n input },
                  drop n input,
                  rw e e',
                  sym (take-append-drop n input),
                  record { kind_fits = hk; request_fits = hr; payload_fits = omega arith },
                  rw size same,
                )
          ]
    ]

framed :
    (f : Frame) (header rest input : Bytes)
    → header ≡ frame_magic ++ header_fields f.kind f.request_id (length f.payload)
    → input ≡ header ++ (f.payload ++ rest)
    → (IsFrame f)
    → (bytes : Bytes) × (send_frame f ≡ ok bytes) × (input ≡ bytes ++ rest)
framed f header rest input e split h = (
  (frame_magic ++ header_fields f.kind f.request_id (length f.payload)) ++ f.payload,
  send_frame-eq f h.payload_fits,
  split ∙ sym (append_assoc header f.payload rest) ∙ ap (λ t. (t ++ f.payload) ++ rest) e,
)

-- On any bytes, receiveFrame reports the end of a connection that has nothing left, or it throws, or
-- it takes exactly the bytes that sendFrame writes for the frame it returns, and leaves the rest.
pub receive_frame_cases :
    (input : Bytes)
    → All IsByte input
    → ((input ≡ []) × (receive_frame input ≡ ok (none, [])))
      ⊎ (((f : Frame) × (rest : Bytes) × (bytes : Bytes) × (receive_frame input ≡ ok (some f, rest))
            × IsFrame f
            × (send_frame f ≡ ok bytes)
            × (input ≡ bytes ++ rest))
          ⊎ ((e : String) × (receive_frame input ≡ err e)))
receive_frame_cases input bytes = elim (receive_all_cases 16 true input) [
  | inr (inl (_, empty, e)) ↦ inl (empty, unfold receive_frame in rw (e, receive_frame))
  | inr (inr (x, e)) ↦ inr (inr (x, unfold receive_frame in rw (e, receive_frame)))
  | inl (fits, e) ↦
      let header = take 16 input in
      let tail = drop 16 input in
      elim (bytes_eq_cases frame_magic (take 4 header)) [
        | inr (_, differs) ↦ inr (
            inr (
              "invalid network frame magic",
              unfold receive_frame in rw (e, receive_frame) (rw differs),
            ))
        | inl magic ↦
            let e' : receive_all 16 true input ≡ ok (some (frame_magic ++ drop 4 header), tail) =
              e
              ∙ ap (λ t. ok (some t, tail))
                  (sym (take-append-drop 4 header) ∙ ap (λ t. t ++ drop 4 header) (sym magic)) in
            elim (receive_rest-cases (drop 4 header) tail
              (All-drop IsByte 4 header (All-take IsByte 16 input bytes))
              (omega (arith, length-drop 4 header, length-take 16 input))) [
                | inr (x, e'') ↦
                    inr (inr (x, receive_frame-header input (drop 4 header) tail e' ∙ e''))
                | inl (f, rest, e'', split, h, same) ↦
                    let (sent, sends, whole) =
                      framed f header rest input
                        (sym (take-append-drop 4 header) ∙ ap₂ (λ a b. a ++ b) (sym magic) same)
                        (sym (take-append-drop 16 input) ∙ ap (λ t. header ++ t) split) h in
                    inr (
                      inl (
                        f,
                        rest,
                        sent,
                        receive_frame-header input (drop 4 header) tail e' ∙ e'',
                        h,
                        sends,
                        whole,
                      ))
              ]
      ]
]
