-- ===== src/Protocol/Closed.antt =====
-- Predicates on a session that the primitive actions of service/protocol.py keep, and the frames of a
-- channel.
use mock_amqp_server.Prelude.{nat_keys, ℕ, Bool, true, false, if◌then◌else◌}
use mock_amqp_server.Dict.{Dict, contains, put, remove}
use mock_amqp_server.Python.{Str, Exec, modify}
use mock_amqp_server.Python.Sets.{Runtime}
use mock_amqp_server.Python.Keeps.{
  Keeps, keeps_rules, Keeps-pure, Keeps-bind, Keeps-lift, Keeps-if, Keeps-gets,
}
use mock_amqp_server.Serialization.{Value, Codec}
use mock_amqp_server.State.{
  State, declare_exchange, declare_queue, bind_queue, register_consumer, message_ack, message_nack,
  store_message,
}
use mock_amqp_server.Sender.Transport.{Transport}
use mock_amqp_server.Method.{Properties}
use mock_amqp_server.Frame.{Frame, method, header, body}
use mock_amqp_server.Protocol.{Session, Channel, ChannelState, on_transport, on_state}
use mock_amqp_server.Protocol.Channels.{
  upsert_channel, new_channel, set_channel, on_exchange_declare, on_queue_declare, on_queue_bind,
  on_basic_publish, on_basic_consume, on_basic_ack, on_basic_nack, on_basic_cancel, on_opened,
  on_waiting_open, on_channel_close, on_waiting_body, on_waiting_header, treat_channel_frame,
  by_state, when_not,
}

-- An operation of the broker's state keeps `P`.
abbrev pub KeptBy : (Session → Type 0) → (State → State) → Type 0
KeptBy P f = (s : Session) → P s → P (record s { global_state = f s.global_state })

pub record Closed ⦃runtime : Runtime⦄ (P : Session → Type 0) : Type 0 where
  pub transport : (s : Session) (t : Transport) → P s → P (record s { transport = t })
  pub channels : (s : Session) (c : Dict ℕ Channel) → P s → P (record s { channels = c })
  pub exchange : (x type : Str) → KeptBy P (λ g. (declare_exchange x type g).1)
  pub queue : (q : Str) → KeptBy P (λ g. (declare_queue q g).1)
  pub bind : (q x : Str) → KeptBy P (λ g. (bind_queue q x g).1)
  pub consumer : (id : ℕ) (tag q : Str) (n : ℕ) → KeptBy P (λ g. (register_consumer id tag q n g).1)
  pub ack : (tag : ℕ) → KeptBy P (message_ack tag)
  pub nack : (tag : ℕ) (requeue : Bool) → KeptBy P (message_nack tag requeue)
  pub store : (x : Str) (headers body : Value) → KeptBy P (λ g. (store_message x headers body g).1)

module _ ⦃codec : Codec⦄ ⦃runtime : Runtime⦄ {P : Session → Type 0} (c : Closed P) where
  pub Keeps-transport : {A : Type 0} (m : Exec Transport A) → Keeps P (on_transport m)
  Keeps-transport m = record { at = λ s h. c.transport s (m s.transport).1 h }

  pub Keeps-channel : (n : ℕ) (channel : Channel) → Keeps P (set_channel n channel)
  Keeps-channel n channel = record { at = λ s h. c.channels s _ h }

  pub Keeps-state :
      {A : Type 0} (m : State → A × State) → KeptBy P (λ g. (m g).1) → Keeps P (on_state m)
  Keeps-state m k = record { at = λ s h. k s h }

  pub when_not-Keeps : (b : Bool) (m : Exec Session (Unit {0})) → Keeps P m → Keeps P (when_not b m)
  when_not-Keeps true m k = Keeps-pure tt
  when_not-Keeps false m k = k

  pub ruleset session_rules =
      (keeps_rules, Keeps-transport, Keeps-channel, Keeps-state, when_not-Keeps)

  on_exchange_declare-Keeps : (n : ℕ) (p : Properties) → Keeps P (on_exchange_declare n p)
  unfolding on_exchange_declare
  on_exchange_declare-Keeps n p = search (session_rules, c.exchange)

  on_queue_declare-Keeps : (n : ℕ) (p : Properties) → Keeps P (on_queue_declare n p)
  unfolding on_queue_declare
  on_queue_declare-Keeps n p = search (session_rules, c.queue)

  on_queue_bind-Keeps : (n : ℕ) (p : Properties) → Keeps P (on_queue_bind n p)
  unfolding on_queue_bind
  on_queue_bind-Keeps n p = search (session_rules, c.bind)

  on_basic_publish-Keeps :
      (n : ℕ) (channel : Channel) (p : Properties) → Keeps P (on_basic_publish n channel p)
  unfolding on_basic_publish
  on_basic_publish-Keeps n channel p = search session_rules

  on_basic_consume-Keeps : (n : ℕ) (p : Properties) → Keeps P (on_basic_consume n p)
  unfolding on_basic_consume
  on_basic_consume-Keeps n p = search (session_rules, c.consumer)

  on_basic_ack-Keeps : (p : Properties) → Keeps P (on_basic_ack p)
  unfolding on_basic_ack
  on_basic_ack-Keeps p = search (session_rules, c.ack)

  on_basic_nack-Keeps : (p : Properties) → Keeps P (on_basic_nack p)
  unfolding on_basic_nack
  on_basic_nack-Keeps p = search (session_rules, c.nack)

  on_basic_cancel-Keeps : (n : ℕ) (p : Properties) → Keeps P (on_basic_cancel n p)
  unfolding on_basic_cancel
  on_basic_cancel-Keeps n p = search session_rules

  on_opened-Keeps : (n : ℕ) (channel : Channel) (f : Frame) → Keeps P (on_opened n channel f)
  unfolding on_opened
  on_opened-Keeps n channel (method m) =
      search
        (
          session_rules, on_exchange_declare-Keeps, on_queue_declare-Keeps, on_queue_bind-Keeps,
          on_basic_publish-Keeps, on_basic_consume-Keeps, on_basic_ack-Keeps, on_basic_nack-Keeps,
          on_basic_cancel-Keeps,
        )
        depth 12
  on_opened-Keeps n channel f = Keeps-pure tt

  on_waiting_open-Keeps :
      (n : ℕ) (channel : Channel) (f : Frame) → Keeps P (on_waiting_open n channel f)
  unfolding on_waiting_open
  on_waiting_open-Keeps n channel f = search session_rules

  Keeps-removal : (n : ℕ) → Keeps P (modify (λ s. record s { channels = remove n s.channels }))
  Keeps-removal n = record { at = λ s h. c.channels s (remove n s.channels) h }

  on_channel_close-Keeps : (n : ℕ) → Keeps P (on_channel_close n)
  unfolding on_channel_close
  on_channel_close-Keeps n = search (session_rules, Keeps-removal)

  on_waiting_body-Keeps :
      (n : ℕ) (channel : Channel) (f : Frame) → Keeps P (on_waiting_body n channel f)
  unfolding on_waiting_body
  on_waiting_body-Keeps n channel (body b) = search (session_rules, c.store) depth 9
  on_waiting_body-Keeps n channel f = Keeps-pure tt

  on_waiting_header-Keeps :
      (n : ℕ) (channel : Channel) (f : Frame) → Keeps P (on_waiting_header n channel f)
  unfolding on_waiting_header
  on_waiting_header-Keeps n channel (header h) = search (session_rules, on_waiting_body-Keeps)
  on_waiting_header-Keeps n channel f = Keeps-pure tt

  by_state-Keeps :
      (state : ChannelState) (n : ℕ) (channel : Channel) (f : Frame)
      → Keeps P (by_state state n channel f)
  by_state-Keeps ChannelState.waiting_open n channel f = on_waiting_open-Keeps n channel f
  by_state-Keeps ChannelState.opened n channel f = on_opened-Keeps n channel f
  by_state-Keeps ChannelState.waiting_header n channel f = on_waiting_header-Keeps n channel f
  by_state-Keeps ChannelState.waiting_body n channel f = on_waiting_body-Keeps n channel f

  -- A predicate that every primitive action keeps is kept by every frame of a channel.
  pub treat_channel_frame-Keeps : (n : ℕ) (f : Frame) → Keeps P (treat_channel_frame n f)
  unfolding treat_channel_frame
  treat_channel_frame-Keeps n f = search (session_rules, on_channel_close-Keeps, by_state-Keeps)

  pub upsert_channel-Keeps : (n : ℕ) → Keeps P (modify (upsert_channel n))
  unfolding upsert_channel
  upsert_channel-Keeps n = record { at = λ s h. kept s h (contains n s.channels) }
    where
      kept :
          (s : Session)
          → P s
          → (b : Bool) → P (if b then s else record s { channels = put n new_channel s.channels })
      kept s h true = h
      kept s h false = c.channels s (put n new_channel s.channels) h
