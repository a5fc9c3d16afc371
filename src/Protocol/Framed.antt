-- ===== src/Protocol/Framed.antt =====
-- service/protocol.py: the handlers of frames, and the buffer with the bytes behind the frame.
use mock_amqp_server.Prelude.{
  nat_keys, ℕ, Bool, true, false, ◌≡◌, refl, if◌then◌else◌, Bool-cases, inl, inr,
}
use mock_amqp_server.Dict.{get, contains, remove}
use mock_amqp_server.Python.{
  Bytes, Result, ok, err, Exec, modify, pure, lift, gets, continue, ◌>>=◌,
}
use mock_amqp_server.Python.Sets.{Runtime}
use mock_amqp_server.Serialization.{Codec}
use mock_amqp_server.State.{State}
use mock_amqp_server.Sender.Transport.{Transport}
use mock_amqp_server.Method.{StartOk, Properties}
use mock_amqp_server.Frame.{Frame, FrameValue, method, header, body, frame, heart_beat}
use mock_amqp_server.Protocol.{
  Session, Channel, ChannelState, ConnectionState, on_transport, on_state,
}
use mock_amqp_server.Protocol.Channels.{
  upsert_channel, set_channel, on_exchange_declare, on_queue_declare, on_queue_bind,
  on_basic_publish, on_basic_consume, on_basic_ack, on_basic_nack, on_basic_cancel, on_opened,
  on_waiting_open, on_channel_close, on_waiting_body, on_waiting_header, treat_channel_frame,
  by_state, when_not,
}
use mock_amqp_server.Protocol.Connections.{
  check_start_ok, credentials_of, after_credentials, on_start_ok, on_tune_ok, on_open, on_close,
  by_parser_state, treat_connection_frame, treat_frame, set_parser_state,
}
use mock_amqp_server.Protocol.Greeting.{with_buffer}

-- `m` does the same whatever the buffer holds, and leaves the buffer as it is.
pub record Framed {A : Type 0} (m : Exec Session A) : Type 0 where
  pub at : (b : Bytes) (s : Session) → m (with_buffer b s) ≡ ((m s).0, with_buffer b (m s).1)

module _ {A : Type 0} where
  Framed-pure : (a : A) → Framed (pure a)
  Framed-pure a = record { at = λ b s. refl }

  Framed-lift : (r : Result A) → Framed (lift r)
  Framed-lift r = record { at = λ b s. refl }

  Framed-if : (c : Bool) (m n : Exec Session A) → Framed m → Framed n → Framed (if c then m else n)
  Framed-if true m n km kn = km
  Framed-if false m n km kn = kn

  Framed-transport : (m : Exec Transport A) → Framed (on_transport m)
  Framed-transport m = record { at = λ b s. refl }

  Framed-state : (m : State → A × State) → Framed (on_state m)
  Framed-state m = record { at = λ b s. refl }

module _ {A B : Type 0} where
  Framed-continue :
      (r : Result A) (f : A → Exec Session B)
      → ((a : A) → Framed (f a))
      → (b : Bytes) (s : Session)
      → continue r f (with_buffer b s) ≡ ((continue r f s).0, with_buffer b (continue r f s).1)
  Framed-continue (ok a) f kf b s = (kf a).at b s
  Framed-continue (err e) f kf b s = refl

  Framed-bind :
      (m : Exec Session A) (f : A → Exec Session B)
      → Framed m
      → ((a : A) → Framed (f a))
      → Framed (m >>= f)
  Framed-bind m f km kf = record {
    at = λ b s. rw (km.at b s) (Framed-continue (m s).0 f kf b (m s).1);
  }

Framed-channel : (n : ℕ) (c : Channel) → Framed (set_channel n c)
Framed-channel n c = record { at = λ b s. refl }

Framed-id : Framed (gets (λ s. s.id))
Framed-id = record { at = λ b s. refl }

Framed-get : (n : ℕ) → Framed (gets (λ s. get n s.channels))
Framed-get n = record { at = λ b s. refl }

Framed-parser_state : Framed (gets (λ s. s.parser_state))
Framed-parser_state = record { at = λ b s. refl }

Framed-set_parser_state : (p : ConnectionState) → Framed (set_parser_state p)
Framed-set_parser_state p = record { at = λ b s. refl }

Framed-removal : (n : ℕ) → Framed (modify (λ s. record s { channels = remove n s.channels }))
Framed-removal n = record { at = λ b s. refl }

Framed-upsert : (n : ℕ) → Framed (modify (upsert_channel n))
unfolding upsert_channel
Framed-upsert n = record {
  at = λ b s. elim (Bool-cases (contains n s.channels)) [ inl e ↦ rw e refl | inr e ↦ rw e refl ];
}

Framed-when_not : (c : Bool) (m : Exec Session (Unit {0})) → Framed m → Framed (when_not c m)
Framed-when_not true m k = Framed-pure tt
Framed-when_not false m k = k

ruleset framed_rules = (
  Framed-pure, Framed-lift, Framed-if, Framed-transport, Framed-state, Framed-bind, Framed-channel,
  Framed-id, Framed-get, Framed-parser_state, Framed-set_parser_state, Framed-removal,
  Framed-upsert, Framed-when_not,
)

module _ ⦃codec : Codec⦄ where
  on_exchange_declare-Framed : (n : ℕ) (p : Properties) → Framed (on_exchange_declare n p)
  unfolding on_exchange_declare
  on_exchange_declare-Framed n p = search framed_rules depth 7

  on_queue_declare-Framed : (n : ℕ) (p : Properties) → Framed (on_queue_declare n p)
  unfolding on_queue_declare
  on_queue_declare-Framed n p = search framed_rules depth 7

  on_queue_bind-Framed : (n : ℕ) (p : Properties) → Framed (on_queue_bind n p)
  unfolding on_queue_bind
  on_queue_bind-Framed n p = search framed_rules depth 7

  on_basic_publish-Framed : (n : ℕ) (c : Channel) (p : Properties) → Framed (on_basic_publish n c p)
  unfolding on_basic_publish
  on_basic_publish-Framed n c p = search framed_rules depth 7

  on_basic_consume-Framed : (n : ℕ) (p : Properties) → Framed (on_basic_consume n p)
  unfolding on_basic_consume
  on_basic_consume-Framed n p = search framed_rules depth 7

  on_basic_ack-Framed : (p : Properties) → Framed (on_basic_ack p)
  unfolding on_basic_ack
  on_basic_ack-Framed p = search framed_rules depth 7

  on_basic_nack-Framed : (p : Properties) → Framed (on_basic_nack p)
  unfolding on_basic_nack
  on_basic_nack-Framed p = search framed_rules depth 7

  on_basic_cancel-Framed : (n : ℕ) (p : Properties) → Framed (on_basic_cancel n p)
  unfolding on_basic_cancel
  on_basic_cancel-Framed n p = search framed_rules depth 7

  on_opened-Framed : (n : ℕ) (c : Channel) (f : Frame) → Framed (on_opened n c f)
  unfolding on_opened
  on_opened-Framed n c (method m) =
      search
        (
          framed_rules, on_exchange_declare-Framed, on_queue_declare-Framed, on_queue_bind-Framed,
          on_basic_publish-Framed, on_basic_consume-Framed, on_basic_ack-Framed,
          on_basic_nack-Framed, on_basic_cancel-Framed,
        )
        depth 12
  on_opened-Framed n c f = Framed-pure tt

  on_waiting_open-Framed : (n : ℕ) (c : Channel) (f : Frame) → Framed (on_waiting_open n c f)
  unfolding on_waiting_open
  on_waiting_open-Framed n c f = search framed_rules depth 7

  on_channel_close-Framed : (n : ℕ) → Framed (on_channel_close n)
  unfolding on_channel_close
  on_channel_close-Framed n = search framed_rules depth 7

module _ ⦃runtime : Runtime⦄ where
  on_waiting_body-Framed : (n : ℕ) (c : Channel) (f : Frame) → Framed (on_waiting_body n c f)
  unfolding on_waiting_body
  on_waiting_body-Framed n c (body b) = search framed_rules depth 9
  on_waiting_body-Framed n c f = Framed-pure tt

  on_waiting_header-Framed : (n : ℕ) (c : Channel) (f : Frame) → Framed (on_waiting_header n c f)
  unfolding on_waiting_header
  on_waiting_header-Framed n c (header h) = search (framed_rules, on_waiting_body-Framed)
  on_waiting_header-Framed n c f = Framed-pure tt

module _ ⦃codec : Codec⦄ ⦃runtime : Runtime⦄ where
  by_state-Framed :
      (state : ChannelState) (n : ℕ) (c : Channel) (f : Frame) → Framed (by_state state n c f)
  by_state-Framed ChannelState.waiting_open n c f = on_waiting_open-Framed n c f
  by_state-Framed ChannelState.opened n c f = on_opened-Framed n c f
  by_state-Framed ChannelState.waiting_header n c f = on_waiting_header-Framed n c f
  by_state-Framed ChannelState.waiting_body n c f = on_waiting_body-Framed n c f

  treat_channel_frame-Framed : (n : ℕ) (f : Frame) → Framed (treat_channel_frame n f)
  unfolding treat_channel_frame
  treat_channel_frame-Framed n f =
      search (framed_rules, on_channel_close-Framed, by_state-Framed) depth 7

module _ ⦃codec : Codec⦄ where
  credentials_of-Framed : (p : StartOk) → Framed (credentials_of p)
  unfolding credentials_of
  credentials_of-Framed p = search framed_rules depth 7

  check_start_ok-Framed : (f : Frame) → Framed (check_start_ok f)
  unfolding check_start_ok
  check_start_ok-Framed f = search (framed_rules, credentials_of-Framed) depth 7

  after_credentials-Framed : (c : Bool) → Framed (after_credentials c)
  after_credentials-Framed false = search framed_rules depth 7
  after_credentials-Framed true = search framed_rules depth 7

  on_start_ok-Framed : (f : Frame) → Framed (on_start_ok f)
  unfolding on_start_ok
  on_start_ok-Framed f =
      search (framed_rules, check_start_ok-Framed, after_credentials-Framed) depth 7

  on_tune_ok-Framed : (f : Frame) → Framed (on_tune_ok f)
  unfolding on_tune_ok
  on_tune_ok-Framed f = search framed_rules depth 7

  on_open-Framed : (f : Frame) → Framed (on_open f)
  unfolding on_open
  on_open-Framed f = search framed_rules depth 7

  on_close-Framed : Framed on_close
  unfolding on_close
  on_close-Framed = search framed_rules depth 7

  by_parser_state-Framed : (p : ConnectionState) (f : Frame) → Framed (by_parser_state p f)
  by_parser_state-Framed ConnectionState.waiting_start_ok f = on_start_ok-Framed f
  by_parser_state-Framed ConnectionState.waiting_tune_ok f = on_tune_ok-Framed f
  by_parser_state-Framed ConnectionState.waiting_open f = on_open-Framed f
  by_parser_state-Framed p f = Framed-pure true

  treat_connection_frame-Framed : (f : Frame) → Framed (treat_connection_frame f)
  unfolding treat_connection_frame
  treat_connection_frame-Framed f =
      search (framed_rules, on_close-Framed, by_parser_state-Framed) depth 7

module _ ⦃codec : Codec⦄ ⦃runtime : Runtime⦄ where
  pub treat_frame-Framed : (value : FrameValue) → Framed (treat_frame value)
  unfolding treat_frame
  treat_frame-Framed (heart_beat h) = search framed_rules depth 7
  treat_frame-Framed (frame f) =
      search (framed_rules, treat_channel_frame-Framed, treat_connection_frame-Framed) depth 7
