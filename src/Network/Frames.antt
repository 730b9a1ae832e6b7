-- ===== src/Network/Frames.antt =====
-- sendFrame and receiveFrame: frames that were sent are received, and nothing else is.
use backup_system.Base.{
  ℕ, ◌^◌, ◌≤◌, ◌<◌, ◌≡◌, sym, ap, ◌∙◌, Bool, true, false, some, [], ◌++◌, append_assoc, append-nil,
  length, length-append, take_front, drop_front, le→leb, arith,
}
use backup_system.Base.Outcome.{ok}
use backup_system.Stream.{Bytes, at_end, bytes_eq, run}
use backup_system.Network.{
  Frame, protocol_version, max_payload, frame_magic, put_u16, put_u32, get_u32, receive_all,
  send_frame, frame_fields, receive_payload, receive_rest, receive_frame,
}
use backup_system.Network.Wire.{length-put_word, get_u16-put_u16, get_u32-put_u32}

-- The fields fit their widths and the payload fits a frame.
pub record IsFrame (f : Frame) : Type 0 where
  pub kind_fits : f.kind < 2 ^ 16
  pub request_fits : f.request_id < 2 ^ 32
  pub payload_fits : length f.payload ≤ max_payload

-- The 16 bytes in front of the payload.
abbrev pub header_fields : ℕ → ℕ → ℕ → Bytes
header_fields kind request_id size =
    put_u16 protocol_version ++ (put_u16 kind ++ (put_u32 request_id ++ put_u32 size))

pub length-header_fields :
    (kind request_id size : ℕ) → length (header_fields kind request_id size) ≡ 12
unfolding put_u16 put_u32
length-header_fields kind request_id size = omega (
  arith,
  length-append (put_u16 protocol_version) (put_u16 kind ++ (put_u32 request_id ++ put_u32 size)),
  length-append (put_u16 kind) (put_u32 request_id ++ put_u32 size),
  length-append (put_u32 request_id) (put_u32 size),
  length-put_word 2 protocol_version,
  length-put_word 2 kind,
  length-put_word 4 request_id,
  length-put_word 4 size,
)

-- What a frame is on the wire.
pub send_frame-eq :
    (f : Frame)
    → length f.payload ≤ max_payload
    → send_frame f
      ≡ ok ((frame_magic ++ header_fields f.kind f.request_id (length f.payload)) ++ f.payload)
unfolding send_frame
send_frame-eq f h = rw (le→leb (length f.payload) max_payload h) (
    ap (λ t. ok (frame_magic ++ t))
      (ap (λ t. put_u16 protocol_version ++ t)
          (ap (λ t. put_u16 f.kind ++ t)
              (sym (append_assoc (put_u32 f.request_id) (put_u32 (length f.payload)) f.payload))
            ∙ sym (
                append_assoc (put_u16 f.kind) (put_u32 f.request_id ++ put_u32 (length f.payload))
                  f.payload))
        ∙ sym (
            append_assoc (put_u16 protocol_version)
              (put_u16 f.kind ++ (put_u32 f.request_id ++ put_u32 (length f.payload))) f.payload)))

frame_fields-header :
    (kind request_id size : ℕ)
    → kind < 2 ^ 16
    → request_id < 2 ^ 32
    → size ≤ max_payload
    → run frame_fields (header_fields kind request_id size) ≡ ok (kind, request_id, size)
unfolding frame_fields at_end
frame_fields-header kind request_id size hk hr hs =
    let last : get_u32 (put_u32 size) ≡ ok (size, []) =
      rw append-nil at (get_u32-put_u32 size [] (omega arith)) in
    rw (get_u16-put_u16 protocol_version _ (omega arith), get_u16-put_u16 kind _ hk)
      (rw (get_u32-put_u32 request_id (put_u32 size) hr, last) (rw (le→leb size max_payload hs)))

receive_all-front :
    (xs rest : Bytes) (clean : Bool)
    → receive_all (length xs) clean (xs ++ rest) ≡ ok (some xs, rest)
unfolding receive_all
receive_all-front xs rest clean =
    rw (le→leb (length xs) (length (xs ++ rest)) (omega (arith, length-append xs rest)))
      (rw (take_front xs rest, drop_front xs rest))

receive_rest-header :
    (f : Frame) (rest : Bytes)
    → IsFrame f
    → receive_rest (header_fields f.kind f.request_id (length f.payload)) (f.payload ++ rest)
      ≡ ok (some f, rest)
unfolding receive_rest receive_payload
receive_rest-header f rest h =
    rw
      (frame_fields-header f.kind f.request_id (length f.payload) h.kind_fits h.request_fits
        h.payload_fits)
      (rw (receive_all-front f.payload rest false, receive_payload))

pub receive_frame-header :
    (input fields rest : Bytes)
    → receive_all 16 true input ≡ ok (some (frame_magic ++ fields), rest)
    → receive_frame input ≡ receive_rest fields rest
unfolding receive_frame bytes_eq
receive_frame-header input fields rest e = rw (e, receive_frame)

-- A frame within the limits is sent, and receiveFrame gives it back and leaves what follows it.
pub receive_frame-send_frame :
    (f : Frame) (rest : Bytes)
    → IsFrame f
    → (bytes : Bytes) × (send_frame f ≡ ok bytes)
      × (receive_frame (bytes ++ rest) ≡ ok (some f, rest))
receive_frame-send_frame f rest h =
    let fields = header_fields f.kind f.request_id (length f.payload) in
    let size : 16 ≡ length (frame_magic ++ fields) =
      omega (arith, length-header_fields f.kind f.request_id (length f.payload)) in
    let front : receive_all 16 true ((frame_magic ++ fields) ++ (f.payload ++ rest))
        ≡ ok (some (frame_magic ++ fields), f.payload ++ rest) =
      rw size (receive_all-front (frame_magic ++ fields) (f.payload ++ rest) true) in
    (
      (frame_magic ++ fields) ++ f.payload,
      send_frame-eq f h.payload_fits,
      rw (append_assoc (frame_magic ++ fields) f.payload rest) (
          receive_frame-header ((frame_magic ++ fields) ++ (f.payload ++ rest)) fields
            (f.payload ++ rest) front
          ∙ receive_rest-header f rest h),
    )
