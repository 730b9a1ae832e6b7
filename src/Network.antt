-- ===== src/Network.antt =====
-- DataBackup/network/io.cpp and internal.hpp: the words, strings and frames of the wire.
-- A connection is the list of bytes that the peer has sent and that are not received yet, up to the
-- end of the stream; a std::string is the list of its bytes. Timeouts, cancelling and TLS are left out.
pub mod MessageType
pub mod Messages
pub mod Session
pub mod Wire
pub mod Frames
pub mod Accepted
pub mod Accounts
use backup_system.Base.{
  ℕ, zero, suc, ◌*◌, ◌/◌, ◌%◌, ◌^◌, bit_or, String, Bool, true, false, ◌&&◌, Option, none, some,
  List, [], ◌∷◌, ◌++◌, length, take, drop, leb, ltb, ◌==◌, if◌then◌else◌, is_empty,
}
use backup_system.Base.Outcome
use backup_system.Network.MessageType
use backup_system.Base.Outcome.{Result, ok, err}
use backup_system.Stream.{Bytes, Reader, ◌>>=◌, ◌>>◌, pure, ensure, at_end, bytes_eq, no_nul, run}

abbrev pub protocol_version : ℕ
protocol_version = 1

abbrev pub max_payload : ℕ
max_payload = 1024 * 1024

abbrev pub chunk_size : ℕ
chunk_size = 512 * 1024

-- "NBKP"
abbrev pub frame_magic : Bytes
frame_magic = 0x4e ∷ 0x42 ∷ 0x4b ∷ 0x50 ∷ []

-- `kind` is the type field, any value of uint16_t.
pub record Frame : Type 0 where
  pub kind : ℕ
  pub request_id : ℕ
  pub payload : Bytes

-- The next `n` bytes of `value`, from the highest on: `value >> (i * 8)` for `i` from `n - 1` to 0.
unfoldable pub put_word : ℕ → ℕ → Bytes
put_word zero value = []
put_word (suc n) value = (value / 2 ^ (n * 8) % 2 ^ 8) ∷ put_word n value

unfoldable pub put_u16 : ℕ → Bytes
put_u16 value = put_word 2 value

unfoldable pub put_u32 : ℕ → Bytes
put_u32 value = put_word 4 value

unfoldable pub put_u64 : ℕ → Bytes
put_u64 value = put_word 8 value

unfoldable pub put_string : Bytes → Result Bytes
put_string value =
    if leb (length value) 65535
    then ok (put_u16 (length value) ++ value)
    else err "network string is too long"

-- `v = (v << 8) | byte` over the bytes, in a word of `w` bits.
unfoldable pub shift_in : ℕ → ℕ → Bytes → ℕ
shift_in w v [] = v
shift_in w v (b ∷ bs) = shift_in w (bit_or (v * 2 ^ 8 % 2 ^ w) b) bs

-- `n` bytes, or the message.
unfoldable pub take_bytes : String → ℕ → Reader Bytes
take_bytes message n input =
    if leb n (length input) then ok (take n input, drop n input) else err message

-- Reader::need and the bytes asked for; the state is the part of the message after offset_.
abbrev pub get_bytes : ℕ → Reader Bytes
get_bytes n = take_bytes "truncated network message" n

unfoldable pub get_word : ℕ → Reader ℕ
get_word n = do b ← get_bytes n; pure (shift_in (n * 8) 0 b)

unfoldable pub get_u16 : Reader ℕ
get_u16 = get_word 2

unfoldable pub get_u32 : Reader ℕ
get_u32 = get_word 4

unfoldable pub get_u64 : Reader ℕ
get_u64 = get_word 8

unfoldable pub get_string : Reader Bytes
get_string = do
  n ← get_u16
  v ← get_bytes n
  ensure (no_nul v) "network string contains NUL"
  pure v

abbrev pub message_end : Reader (Unit {0})
message_end = at_end "network message has trailing data"

-- receiveAll: none where the peer closed the connection before the first byte and that is allowed.
unfoldable pub receive_all : ℕ → Bool → Bytes → Result (Option Bytes × Bytes)
receive_all size clean input =
    if leb size (length input)
    then ok (some (take size input), drop size input)
    else if clean && is_empty input
    then ok (none, [])
    else err "network connection closed unexpectedly"

-- The bytes that sendFrame hands to sendAll.
unfoldable pub send_frame : Frame → Result Bytes
send_frame frame =
    if leb (length frame.payload) max_payload
    then ok (
        frame_magic
        ++ (put_u16 protocol_version
            ++ (put_u16 frame.kind
                ++ (put_u32 frame.request_id
                    ++ (put_u32 (length frame.payload) ++ frame.payload)))))
    else err "network frame exceeds size limit"

-- The fields after the magic: the type, the identifier and the size of the payload.
unfoldable pub frame_fields : Reader (ℕ × ℕ × ℕ)
frame_fields = do
  version ← get_u16
  ensure (version == protocol_version) "network protocol version mismatch"
  kind ← get_u16
  request_id ← get_u32
  size ← get_u32
  message_end
  ensure (leb size max_payload) "network payload exceeds size limit"
  pure (kind, request_id, size)

-- A payload of no bytes receives nothing more; `receive_all 0` does the same.
unfoldable pub receive_payload : ℕ → ℕ → ℕ → Bytes → Result (Option Frame × Bytes)
receive_payload kind request_id size input = elim (receive_all size false input) [
  | ok (some payload, rest) ↦
      ok (some (record { kind = kind; request_id = request_id; payload = payload }), rest)
  | ok (none, rest) ↦ err "network connection closed unexpectedly"
  | err e ↦ err e
  | Outcome.out_of_fuel ↦ Outcome.out_of_fuel
]

-- The header's fields, and then the payload.
unfoldable pub receive_rest : Bytes → Bytes → Result (Option Frame × Bytes)
receive_rest fields rest =
    Outcome.◌>>=◌ (run frame_fields fields)
      λ (kind, request_id, size). receive_payload kind request_id size rest

unfoldable pub receive_frame : Bytes → Result (Option Frame × Bytes)
receive_frame input = elim (receive_all 16 true input) [
  | ok (none, rest) ↦ ok (none, rest)
  | ok (some header, rest) ↦
      if bytes_eq frame_magic (take 4 header)
      then receive_rest (drop 4 header) rest
      else err "invalid network frame magic"
  | err e ↦ err e
  | Outcome.out_of_fuel ↦ Outcome.out_of_fuel
]

-- sendError and errorFromFrame.
unfoldable pub send_error : ℕ → Bytes → Result Bytes
send_error request_id message = Outcome.◌>>=◌ (put_string message) λ payload.
    send_frame (record { kind = MessageType.error; request_id = request_id; payload = payload })

unfoldable pub error_from_frame : Frame → Result Bytes
error_from_frame frame = run (get_string >>= λ value. message_end >> pure value) frame.payload
