-- ===== src/Protocol/Greeting.antt =====
-- service/protocol.py: the first bytes of a connection.
use mock_amqp_server.Prelude.{
  ◌<◌, ◌≤◌, ◌≡◌, ◌≢◌, refl, true, false, [], ◌∷◌, ◌++◌, arith, length, lt→ltb, le→ltb, ◌==◌,
  str_keys, str_eq, str_eq_iff,
}
use mock_amqp_server.Python.{Bytes, ok, ◌>>◌}
use mock_amqp_server.Python.Sets.{Runtime}
use mock_amqp_server.Serialization.{Codec}
use mock_amqp_server.Sender.Transport.{Transport, close_call}
use mock_amqp_server.Sender.Connection.{send_connection_start}
use mock_amqp_server.Protocol.{Session, ConnectionState, on_transport}
use mock_amqp_server.Protocol.Connections.{
  data_received, greet, check_protocol_header, protocol_header, set_parser_state,
}

abbrev pub with_buffer : Bytes → Session → Session
with_buffer b s = record s { buffer = b }

abbrev pub closed : Transport → Transport
closed t = record t { calls = t.calls ++ (close_call ∷ []); closing = true }

differs : (b : Bytes) → b ≢ protocol_header → (b == protocol_header) ≡ false
differs b h = ground (arith, h, str_eq_iff b protocol_header)

same : (b : Bytes) → b ≡ protocol_header → (b == protocol_header) ≡ true
same b h = (str_eq_iff b protocol_header).1 h

module _ ⦃codec : Codec⦄ ⦃runtime : Runtime⦄ where
  greet-short : (s : Session) → length s.buffer < 8 → greet s ≡ (ok tt, s)
  unfolding greet check_protocol_header
  greet-short s h = rw (lt→ltb (length s.buffer) 8 h) refl

  greet-header :
      (s : Session)
      → s.buffer ≡ protocol_header
      → greet s
        ≡ (do on_transport send_connection_start; set_parser_state ConnectionState.waiting_start_ok)
            (with_buffer [] s)
  unfolding greet check_protocol_header str_eq
  greet-header s e = rw e refl

  greet-other :
      (s : Session)
      → 8 ≤ length s.buffer
      → s.buffer ≢ protocol_header
      → greet s ≡ (ok tt, record s { buffer = []; transport = closed s.transport })
  unfolding greet check_protocol_header
  greet-other s long_enough other =
      rw (le→ltb (length s.buffer) 8 long_enough, differs s.buffer other) refl

  data_received-greet :
      (received : Bytes) (s : Session)
      → s.parser_state ≡ ConnectionState.waiting_protocol_header
      → data_received received s ≡ greet (with_buffer (s.buffer ++ received) s)
  unfolding data_received
  data_received-greet received s e = rw e refl

  -- Before the protocol header is seen, `data_received` does one of three things with the bytes it
  -- has got so far. Fewer than eight are kept, and nothing else happens. Exactly the header of AMQP
  -- 0.9.1 is dropped, `connection.start` is sent and `start-ok` awaited. All else, be it the header
  -- with bytes behind it, is dropped and the transport closed.
  pub data_received-waiting_protocol_header :
      (received : Bytes) (s : Session)
      → s.parser_state ≡ ConnectionState.waiting_protocol_header
      → (length (s.buffer ++ received) < 8
          → data_received received s ≡ (ok tt, with_buffer (s.buffer ++ received) s))
        × (s.buffer ++ received ≡ protocol_header
            → data_received received s
              ≡ (do
                on_transport send_connection_start
                set_parser_state ConnectionState.waiting_start_ok)
                  (with_buffer [] s))
        × (8 ≤ length (s.buffer ++ received)
            → s.buffer ++ received ≢ protocol_header
            → data_received received s
              ≡ (ok tt, record s { buffer = []; transport = closed s.transport }))
  data_received-waiting_protocol_header received s e = rw (data_received-greet received s e) (
    λ h. greet-short (with_buffer (s.buffer ++ received) s) h,
    λ h. greet-header (with_buffer (s.buffer ++ received) s) h,
    λ h k. greet-other (with_buffer (s.buffer ++ received) s) h k,
  )
