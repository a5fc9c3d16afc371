-- ===== src/Frame.antt =====
-- service/frame.py and service/heartbeat.py: cutting the first frame from the buffer.
pub mod Progress
pub mod Layout
use mock_amqp_server.Prelude.{
  ℕ, ◌+◌, ◌-◌, not, Option, none, some, [], ◌∷◌, length, take, ltb, nat_eq, ◌==◌, str_keys,
  if◌then◌else◌,
}
use mock_amqp_server.Python.{
  Bytes, Result, ok, err, struct_error, invalid_frame_error, slice, big_endian,
}
use mock_amqp_server.Python.Results.{◌>>=◌}
use mock_amqp_server.Serialization.{Codec}
use mock_amqp_server.Method.{Method, Header, Body}
use mock_amqp_server.Method.Decode.{new_method}
use mock_amqp_server.Method.NewHeader.{new_header}

abbrev pub frame_header_size : ℕ
frame_header_size = 7

abbrev pub frame_end_size : ℕ
frame_end_size = 1

abbrev pub frame_end : Bytes
frame_end = 0xce ∷ []

abbrev pub frame_method : ℕ
frame_method = 1

abbrev pub frame_header : ℕ
frame_header = 2

abbrev pub frame_body : ℕ
frame_body = 3

abbrev pub frame_heartbeat : ℕ
frame_heartbeat = 8

pub record HeartBeat : Type 0 where
  pub size : ℕ

pub data Frame : Type 0 where
  method : Method → Frame
  header : Header → Frame
  body : Body → Frame

pub data FrameValue : Type 0 where
  heart_beat : HeartBeat → FrameValue
  frame : Frame → FrameValue

abbrev pub size_of : FrameValue → ℕ
size_of (heart_beat h) = h.size
size_of (frame (method m)) = m.size
size_of (frame (header h)) = h.size
size_of (frame (body b)) = b.size

-- `struct.unpack('>BHL', b)`
unfoldable pub unpack_frame_header : Bytes → Result (ℕ × ℕ × ℕ)
unpack_frame_header b =
    if nat_eq (length b) 7
    then ok (big_endian (slice 0 1 b), big_endian (slice 1 3 b), big_endian (slice 3 7 b))
    else err struct_error

-- `struct.unpack_from('>I', payload)[0]`
unfoldable pub unpack_method_id : Bytes → Result ℕ
unpack_method_id payload =
    if ltb (length payload) 4 then err struct_error else ok (big_endian (slice 0 4 payload))

-- `struct.unpack('>HHQH', b)`, less the weight, which is not used
unfoldable pub unpack_content_header : Bytes → Result (ℕ × ℕ × ℕ)
unpack_content_header b =
    if nat_eq (length b) 14
    then ok (big_endian (slice 0 2 b), big_endian (slice 4 12 b), big_endian (slice 12 14 b))
    else err struct_error

module _ ⦃codec : Codec⦄ where
  -- the end of `read_frame`, by the frame's type
  unfoldable pub read_payload : ℕ → ℕ → ℕ → Bytes → Result (Option FrameValue)
  read_payload frame_type channel_number frame_size payload =
      if nat_eq frame_type frame_method
      then (do
        method_id ← unpack_method_id payload
        m ← new_method channel_number frame_size method_id payload
        ok (some (frame (method m))))
      else if nat_eq frame_type frame_heartbeat
      then ok (some (heart_beat (record { size = frame_size })))
      else if nat_eq frame_type frame_header
      then (do
        (class_id, body_size, property_flags) ← unpack_content_header (take 14 payload)
        h ← new_header channel_number frame_size class_id body_size property_flags payload
        ok (some (frame (header h))))
      else if nat_eq frame_type frame_body
      then ok (
          some (
            frame (
              body (record {
                channel_number = channel_number;
                size = frame_size;
                content = payload;
              }))))
      else ok none

  -- the middle of `read_frame`, once the seven bytes of the frame's header are there
  unfoldable pub read_sized : Bytes → ℕ × ℕ × ℕ → Result (Option FrameValue)
  read_sized data_in (frame_type, channel_number, payload_size) =
      let frame_size = frame_header_size + payload_size + frame_end_size in
      if ltb (length data_in) frame_size
      then ok none
      else if not (slice (frame_size - 1) frame_size data_in == frame_end)
      then err invalid_frame_error
      else read_payload frame_type channel_number frame_size
          (slice frame_header_size (frame_size - 1) data_in)

  -- `except struct.error: return None`
  abbrev pub read_unpacked : Bytes → Result (ℕ × ℕ × ℕ) → Result (Option FrameValue)
  read_unpacked data_in (err e) = ok none
  read_unpacked data_in (ok fields) = read_sized data_in fields

  unfoldable pub read_frame : Bytes → Result (Option FrameValue)
  read_frame data_in = read_unpacked data_in (unpack_frame_header (slice 0 7 data_in))
