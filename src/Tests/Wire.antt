-- ===== src/Tests/Wire.antt =====
-- Frames on the wire: what the server writes, and what it reads.
use mock_amqp_server.Prelude.{
  ◌+◌, ◌≤◌, ◌≡◌, ◌≢◌, refl, false, Option, none, some, [], ◌∷◌, ◌++◌, length, arith, str_eq,
}
use mock_amqp_server.Python.{Bytes, Result, ok, err, value_error, text}
use mock_amqp_server.Frame.{
  FrameValue, frame, body, size_of, read_frame, read_payload, read_sized, unpack_frame_header,
}
use mock_amqp_server.Frame.Layout.{layout, read_frame-layout}
use mock_amqp_server.Frame.Progress.{size-read_frame, read_frame-append}
use mock_amqp_server.Sender.Transport.{Transport}
use mock_amqp_server.Sender.Replies.{
  Reply, queue_declare_ok, channel_open_ok, arguments_of, send, Writes, send-Writes,
  send-wide_channel,
}
use mock_amqp_server.Tests.Samples.{sample_codec, sample_runtime, sample_dumps}

abbrev idle : Transport
idle = record { calls = []; closing = false }

abbrev content : Bytes
content = 1 ∷ 2 ∷ 3 ∷ []

read_frame-layout_example :
    read_frame (layout 3 1 content ++ (8 ∷ [])) ≡ read_payload 3 1 (7 + 3 + 1) content
read_frame-layout_example = read_frame-layout 3 1 content (8 ∷ []) (omega arith) (omega arith)

abbrev body_value : FrameValue
body_value = frame (body (record { channel_number = 1; size = 11; content = content }))

read-body_frame : read_frame (layout 3 1 content) ≡ ok (some body_value)
unfolding read_frame read_sized read_payload unpack_frame_header str_eq
read-body_frame = refl

size-read_frame_example :
    (8 ≤ size_of body_value) × (size_of body_value ≤ length (layout 3 1 content))
size-read_frame_example = size-read_frame (layout 3 1 content) read-body_frame

read_frame-append_example :
    read_frame (layout 3 1 content ++ (9 ∷ 9 ∷ [])) ≡ read_frame (layout 3 1 content)
read_frame-append_example = read_frame-append (layout 3 1 content) (9 ∷ 9 ∷ []) not_none
  where
    not_none : read_frame (layout 3 1 content) ≢ ok none
    not_none h = absurd (differ (rw read-body_frame at h))
      where
        differ : ◌≡◌ {A = Result (Option FrameValue)} (ok (some body_value)) (ok none) → ⊥
        differ e = cc

abbrev declared : Reply
declared = queue_declare_ok 1 (text "q") 0 0

abbrev declared_arguments : Bytes
declared_arguments = 1 ∷ 113 ∷ 0 ∷ 0 ∷ 0 ∷ 0 ∷ 0 ∷ 0 ∷ 0 ∷ 0 ∷ []

declared_dumps : arguments_of declared ≡ ok declared_arguments
unfolding sample_dumps
declared_dumps = refl

send-Writes_example :
    Writes (send declared) idle (layout 1 1 (0 ∷ 50 ∷ 0 ∷ 11 ∷ declared_arguments))
send-Writes_example =
    send-Writes declared idle declared_arguments (omega arith) declared_dumps (omega arith)

opened_dumps : arguments_of (channel_open_ok 300 (text "42")) ≡ ok (0 ∷ 0 ∷ 0 ∷ 2 ∷ 52 ∷ 50 ∷ [])
unfolding sample_dumps
opened_dumps = refl

send-wide_channel_example : send (channel_open_ok 300 (text "42")) idle ≡ (err value_error, idle)
send-wide_channel_example =
    send-wide_channel (channel_open_ok 300 (text "42")) idle _ (omega arith) opened_dumps
