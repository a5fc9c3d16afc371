-- ===== src/Protocol/Handshake.antt =====
-- Predicates on a session, under the frames of channel 0 and the loop of `data_received`.
use mock_amqp_server.Prelude.{
  nat_keys, str_keys, ℕ, zero, suc, Bool, true, false, Option, ◌≡◌, refl, none, some, [], ◌∷◌, ◌++◌,
  length, drop,
}
use mock_amqp_server.Python.{Str, Bytes, Result, ok, err, Exec}
use mock_amqp_server.Python.Sets.{Runtime}
use mock_amqp_server.Python.Keeps.{Keeps, keeps_rules, Keeps-pure}
use mock_amqp_server.Serialization.{Codec}
use mock_amqp_server.Method.{StartOk}
use mock_amqp_server.State.{check_credentials}
use mock_amqp_server.Frame.{Frame, FrameValue, frame, heart_beat, size_of, read_frame}
use mock_amqp_server.Protocol.{Session, ConnectionState}
use mock_amqp_server.Protocol.Connections.{
  check_start_ok, after_credentials, credentials_of, on_start_ok, on_tune_ok, on_open, on_close,
  treat_connection_frame, treat_frame, frame_loop, data_received, check_protocol_header,
  by_handshake, after_frame, after_read, loop_round, set_buffer, greet, set_parser_state,
  by_parser_state,
}
use mock_amqp_server.Protocol.Closed.{
  KeptBy, Closed, session_rules, treat_channel_frame-Keeps, upsert_channel-Keeps,
}

-- The states behind the login.
abbrev pub IsPastLogin : ConnectionState → Type 0
IsPastLogin ConnectionState.waiting_protocol_header = ⊥
IsPastLogin ConnectionState.waiting_start_ok = ⊥
IsPastLogin _ = Unit {0}

module _ ⦃codec : Codec⦄ ⦃runtime : Runtime⦄ {P : Session → Type 0} (c : Closed P)
    (parser : (s : Session) (p : ConnectionState)
      → IsPastLogin p
      → P s
      → P (record s { parser_state = p })) where
  Keeps-waiting_tune_ok : Keeps P (set_parser_state ConnectionState.waiting_tune_ok)
  Keeps-waiting_tune_ok = record { at = λ s h. parser s ConnectionState.waiting_tune_ok tt h }

  Keeps-waiting_open : Keeps P (set_parser_state ConnectionState.waiting_open)
  Keeps-waiting_open = record { at = λ s h. parser s ConnectionState.waiting_open tt h }

  Keeps-opened : Keeps P (set_parser_state ConnectionState.opened)
  Keeps-opened = record { at = λ s h. parser s ConnectionState.opened tt h }

  ruleset handshake_rules = (session_rules, Keeps-waiting_tune_ok, Keeps-waiting_open, Keeps-opened)

  pub after_credentials-Keeps : (b : Bool) → Keeps P (after_credentials b)
  after_credentials-Keeps false = search session_rules
  after_credentials-Keeps true = search handshake_rules

  pub on_tune_ok-Keeps : (f : Frame) → Keeps P (on_tune_ok f)
  unfolding on_tune_ok
  on_tune_ok-Keeps f = search handshake_rules

  pub on_open-Keeps : (f : Frame) → Keeps P (on_open f)
  unfolding on_open
  on_open-Keeps f = search handshake_rules

module _ ⦃codec : Codec⦄ ⦃runtime : Runtime⦄ {P : Session → Type 0} (c : Closed P) where
  pub on_close-Keeps : Keeps P on_close
  unfolding on_close
  on_close-Keeps = search session_rules

module _ ⦃codec : Codec⦄ {P : Session → Type 0} where
  pub credentials_of-Keeps : (p : StartOk) → Keeps P (credentials_of p)
  unfolding credentials_of
  credentials_of-Keeps p = search keeps_rules depth 7

module _ ⦃codec : Codec⦄ ⦃runtime : Runtime⦄ {P : Session → Type 0} (c : Closed P)
    (credentials : (u p : Str) → KeptBy P (λ g. (check_credentials u p g).1)) where
  pub check_start_ok-Keeps : (f : Frame) → Keeps P (check_start_ok f)
  unfolding check_start_ok
  check_start_ok-Keeps f = search (session_rules, credentials_of-Keeps, credentials) depth 7

module _ ⦃codec : Codec⦄ ⦃runtime : Runtime⦄ {P : Session → Type 0} (c : Closed P)
    (credentials : (u p : Str) → KeptBy P (λ g. (check_credentials u p g).1))
    (parser : (s : Session) (p : ConnectionState)
      → IsPastLogin p
      → P s
      → P (record s { parser_state = p })) where
  on_start_ok-Keeps : (f : Frame) → Keeps P (on_start_ok f)
  unfolding on_start_ok
  on_start_ok-Keeps f =
      search (handshake_rules, check_start_ok-Keeps, after_credentials-Keeps, credentials)

  by_parser_state-Keeps : (p : ConnectionState) (f : Frame) → Keeps P (by_parser_state p f)
  by_parser_state-Keeps ConnectionState.waiting_start_ok f = on_start_ok-Keeps f
  by_parser_state-Keeps ConnectionState.waiting_tune_ok f = on_tune_ok-Keeps c parser f
  by_parser_state-Keeps ConnectionState.waiting_open f = on_open-Keeps c parser f
  by_parser_state-Keeps p f = Keeps-pure true

  treat_connection_frame-Keeps : (f : Frame) → Keeps P (treat_connection_frame f)
  unfolding treat_connection_frame
  treat_connection_frame-Keeps f = search (handshake_rules, on_close-Keeps, by_parser_state-Keeps)

  -- A predicate that every primitive action keeps is kept by every frame.
  pub treat_frame-Keeps : (value : FrameValue) → Keeps P (treat_frame value)
  unfolding treat_frame
  treat_frame-Keeps (heart_beat h) = search handshake_rules
  treat_frame-Keeps (frame f) =
      search
        (
          handshake_rules, treat_channel_frame-Keeps, upsert_channel-Keeps,
          treat_connection_frame-Keeps,
        )
        depth 7

-- The rounds of the loop keep what each frame keeps, if it does not read the buffer.
module _ ⦃codec : Codec⦄ ⦃runtime : Runtime⦄ {P : Session → Type 0}
    (frames : (value : FrameValue) → Keeps P (treat_frame value))
    (buffers : (s : Session) (b : Bytes) → P s → P (record s { buffer = b })) where
  after_frame-keeps :
      (again : Exec Session (Unit {0})) (r : Result Bool × Session)
      → ((t : Session) → P t → P (again t).1)
      → P r.1
      → P (after_frame again r).1
  after_frame-keeps again (ok true, s) k h = k s h
  after_frame-keeps again (ok false, s) k h = h
  after_frame-keeps again (err e, s) k h = h

  after_read-keeps :
      (again : Exec Session (Unit {0})) (r : Result (Option FrameValue)) (s : Session)
      → ((t : Session) → P t → P (again t).1)
      → P s
      → P (after_read again r s).1
  after_read-keeps again (err e) s k h = h
  after_read-keeps again (ok none) s k h = h
  after_read-keeps again (ok (some value)) s k h =
      after_frame-keeps again _ k
        ((frames value).at _ (buffers s (drop (size_of value) s.buffer) h))

  loop_round-keeps :
      (again : Exec Session (Unit {0})) (b : Bytes) (s : Session)
      → ((t : Session) → P t → P (again t).1)
      → P s
      → P (loop_round again b s).1
  loop_round-keeps again [] s k h = h
  loop_round-keeps again (b ∷ bs) s k h = after_read-keeps again (read_frame (b ∷ bs)) s k h

  frame_loop-Keeps : (fuel : ℕ) → Keeps P (frame_loop fuel)
  unfolding frame_loop
  frame_loop-Keeps zero = record { at = λ s h. h }
  frame_loop-Keeps (suc fuel) = record {
    at = λ s h. loop_round-keeps (frame_loop fuel) s.buffer s (frame_loop-Keeps fuel).at h;
  }

  module _
      (greeting : (s : Session)
        → s.parser_state ≡ ConnectionState.waiting_protocol_header
        → P s
        → P (greet s).1) where
    by_handshake-keeps :
        (p : ConnectionState) (s : Session) → s.parser_state ≡ p → P s → P (by_handshake p s).1
    by_handshake-keeps ConnectionState.waiting_protocol_header s e h = greeting s e h
    by_handshake-keeps _ s e h = (frame_loop-Keeps (suc (length s.buffer))).at s h

    pub data_received-Keeps : (received : Bytes) → Keeps P (data_received received)
    unfolding data_received
    data_received-Keeps received = record {
      at = λ s h.
          by_handshake-keeps s.parser_state (record s { buffer = s.buffer ++ received }) refl
            (buffers s (s.buffer ++ received) h);
    }

module _ ⦃codec : Codec⦄ ⦃runtime : Runtime⦄ {P : Session → Type 0} (c : Closed P)
    (buffers : (s : Session) (b : Bytes) → P s → P (record s { buffer = b })) where
  Keeps-buffer : (b : Bytes) → Keeps P (set_buffer b)
  Keeps-buffer b = record { at = λ s h. buffers s b h }

  pub check_protocol_header-Keeps : Keeps P check_protocol_header
  unfolding check_protocol_header
  check_protocol_header-Keeps = search (session_rules, Keeps-buffer) depth 7

  -- Only one state is set before the protocol header is seen.
  module _
      (next : (s : Session)
        → P s
        → P (record s { parser_state = ConnectionState.waiting_start_ok })) where
    set_next : Keeps P (set_parser_state ConnectionState.waiting_start_ok)
    set_next = record { at = next }

    pub greet-Keeps : Keeps P greet
    unfolding greet
    greet-Keeps = search (session_rules, check_protocol_header-Keeps, set_next) depth 7
