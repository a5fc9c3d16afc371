-- ===== src/Protocol/Connections.antt =====
-- service/protocol.py: the handshake of a connection, and the loop over the frames in its buffer.
use mock_amqp_server.Prelude.{
  ℕ, zero, suc, Bool, true, false, Option, none, some, List, [], ◌∷◌, ◌++◌, not, ◌||◌, length, drop,
  ltb, nat_eq, ◌==◌, str_keys, if◌then◌else◌,
}
use mock_amqp_server.Python.{
  Str, Bytes, Result, ok, err, key_error, value_error, attribute_error, out_of_fuel, text, Exec,
  pure, lift, gets, modify, ◌>>=◌, ◌>>◌,
}
use mock_amqp_server.Python.Sets.{Runtime}
use mock_amqp_server.Python.Texts.{split, encode}
use mock_amqp_server.Serialization.{Format, octet, short_str, long_str, Codec}
use mock_amqp_server.Method.{StartOk, start_ok}
use mock_amqp_server.Method.MethodIds
use mock_amqp_server.Frame.{
  Frame, method, header, body, FrameValue, heart_beat, frame, size_of, read_frame,
}
use mock_amqp_server.State.{check_credentials}
use mock_amqp_server.Sender.Connection.{
  send_heartbeat, send_connection_start, send_connection_close_ok, send_connection_tune,
  send_connection_ok,
}
use mock_amqp_server.Protocol.{
  Session, ConnectionState, on_transport, on_state, close_transport, method_id_is,
  channel_number_of,
}
use mock_amqp_server.Protocol.Channels.{upsert_channel, treat_channel_frame}

abbrev pub protocol_header : Bytes
protocol_header = b'A' ∷ b'M' ∷ b'Q' ∷ b'P' ∷ 0 ∷ 0 ∷ 9 ∷ 1 ∷ []

abbrev pub set_buffer : Bytes → Exec Session (Unit {0})
set_buffer b = modify (λ s. record s { buffer = b })

abbrev pub set_parser_state : ConnectionState → Exec Session (Unit {0})
set_parser_state p = modify (λ s. record s { parser_state = p })

unfoldable pub check_protocol_header : Exec Session Bool
check_protocol_header = do
  buffer ← gets (λ s. s.buffer)
  if ltb (length buffer) (length protocol_header)
      then pure false
      else if not (buffer == protocol_header)
      then (do close_transport; set_buffer []; pure false)
      else (do set_buffer []; pure true)

-- `method.properties['mechanism']` and `method.properties['response']`: a body frame has no
-- properties, and no name of `Header.PROPERTIES` is 'mechanism'.
abbrev pub start_ok_of : Frame → Result StartOk
start_ok_of (method m) = elim m.properties [ start_ok p ↦ ok p | _ ↦ err key_error ]
start_ok_of (header h) = err key_error
start_ok_of (body b) = err attribute_error

-- `_, username, password = parts`
abbrev pub plain_parts : List Str → Result (Str × Str)
plain_parts (first ∷ username ∷ password ∷ []) = ok (username, password)
plain_parts parts = err value_error

abbrev pub amqplain_format : List Format
amqplain_format = short_str ∷ octet ∷ long_str ∷ short_str ∷ octet ∷ long_str ∷ []

module _ ⦃codec : Codec⦄ where
  open codec use {loads}

  unfoldable pub credentials_of : StartOk → Exec Session (Str × Str)
  credentials_of p =
      if p.mechanism == text "PLAIN" then lift (plain_parts (split 0 3 p.response)) else (do
        response ← lift (encode p.response)
        (values, decoded) ← lift (loads amqplain_format response 0)
        pure (values.1.1.0, values.1.1.1.1.1.0))

  unfoldable pub check_start_ok : Frame → Exec Session Bool
  check_start_ok f = do
    p ← lift (start_ok_of f)
    if not (p.mechanism == text "PLAIN" || p.mechanism == text "AMQPLAIN") then pure false else do
      (username, password) ← credentials_of p
      on_state (check_credentials username password)

  -- The handlers of `data_received` answer whether its loop goes on.
  abbrev pub after_credentials : Bool → Exec Session Bool
  after_credentials false = do close_transport; pure false
  after_credentials true = do
    on_transport send_connection_tune
    set_parser_state ConnectionState.waiting_tune_ok
    pure false

  unfoldable pub on_start_ok : Frame → Exec Session Bool
  on_start_ok f = do correct_credentials ← check_start_ok f; after_credentials correct_credentials

  unfoldable pub on_tune_ok : Frame → Exec Session Bool
  on_tune_ok f =
      if not (method_id_is MethodIds.tune_ok f)
      then (do close_transport; pure false)
      else (do set_parser_state ConnectionState.waiting_open; pure true)

  -- `_check_open` is true
  unfoldable pub on_open : Frame → Exec Session Bool
  on_open f =
      if not (method_id_is MethodIds.connection_open f)
      then (do close_transport; pure false)
      else (do on_transport send_connection_ok; set_parser_state ConnectionState.opened; pure true)

  unfoldable pub on_close : Exec Session Bool
  on_close = do on_transport send_connection_close_ok; close_transport; pure false

  abbrev pub by_parser_state : ConnectionState → Frame → Exec Session Bool
  by_parser_state ConnectionState.waiting_start_ok f = on_start_ok f
  by_parser_state ConnectionState.waiting_tune_ok f = on_tune_ok f
  by_parser_state ConnectionState.waiting_open f = on_open f
  by_parser_state p f = pure true

  -- a frame of channel 0
  unfoldable pub treat_connection_frame : Frame → Exec Session Bool
  treat_connection_frame f =
      if method_id_is MethodIds.close f
      then on_close
      else (do parser_state ← gets (λ s. s.parser_state); by_parser_state parser_state f)

module _ ⦃codec : Codec⦄ ⦃runtime : Runtime⦄ where
  -- the body of the loop of `data_received`
  unfoldable pub treat_frame : FrameValue → Exec Session Bool
  treat_frame (heart_beat h) = do on_transport send_heartbeat; pure true
  treat_frame (frame f) =
      if not (nat_eq (channel_number_of f) 0)
      then (do
        modify (upsert_channel (channel_number_of f))
        treat_channel_frame (channel_number_of f) f
        pure true)
      else treat_connection_frame f

  -- `while len(self._buffer) > 0`, a round in three steps; `again` is the rest of the loop
  abbrev pub after_frame :
      Exec Session (Unit {0}) → Result Bool × Session → Result (Unit {0}) × Session
  after_frame again (ok true, s) = again s
  after_frame again (ok false, s) = (ok tt, s)
  after_frame again (err e, s) = (err e, s)

  abbrev pub after_read :
      Exec Session (Unit {0}) → Result (Option FrameValue) → Exec Session (Unit {0})
  after_read again (err e) s = (err e, s)
  after_read again (ok none) s = (ok tt, s)
  after_read again (ok (some value)) s =
      after_frame again (treat_frame value (record s { buffer = drop (size_of value) s.buffer }))

  abbrev pub loop_round : Exec Session (Unit {0}) → Bytes → Exec Session (Unit {0})
  loop_round again [] s = (ok tt, s)
  loop_round again (b ∷ bs) s = after_read again (read_frame (b ∷ bs)) s

  unfoldable pub frame_loop : ℕ → Exec Session (Unit {0})
  frame_loop zero s = (err out_of_fuel, s)
  frame_loop (suc fuel) s = loop_round (frame_loop fuel) s.buffer s

  -- the bytes before the protocol header is seen
  unfoldable pub greet : Exec Session (Unit {0})
  greet = do
    protocol_ok ← check_protocol_header
    if not protocol_ok then pure tt else (do
      on_transport send_connection_start
      set_parser_state ConnectionState.waiting_start_ok)

  abbrev pub by_handshake : ConnectionState → Exec Session (Unit {0})
  by_handshake ConnectionState.waiting_protocol_header = greet
  by_handshake p = do fuel ← gets (λ s. suc (length s.buffer)); frame_loop fuel

  unfoldable pub data_received : Bytes → Exec Session (Unit {0})
  data_received received = do
    modify (λ s. record s { buffer = s.buffer ++ received })
    parser_state ← gets (λ s. s.parser_state)
    by_handshake parser_state
