-- ===== src/Protocol/Channels.antt =====
-- service/protocol.py: the frames of a channel.
use mock_amqp_server.Prelude.{
  ℕ, Bool, true, false, Option, none, some, not, ◌&&◌, if◌then◌else◌, nat_keys,
}
use mock_amqp_server.Dict.{get, put, remove, contains}
use mock_amqp_server.Python.{
  Result, ok, err, key_error, text, Exec, pure, lift, gets, modify, ◌>>=◌, ◌>>◌,
}
use mock_amqp_server.Python.Sets.{Runtime}
use mock_amqp_server.Serialization.{obj, bytes, Codec}
use mock_amqp_server.Method.{
  Properties, ExchangeDeclare, BasicPublish, BasicConsume, QueueDeclare, QueueBind, BasicAck,
  BasicNack, BasicCancel, exchange_declare, queue_declare, queue_bind, basic_publish, basic_consume,
  basic_ack, basic_nack, basic_cancel,
}
use mock_amqp_server.Method.MethodIds
use mock_amqp_server.Frame.{Frame, method, header, body}
use mock_amqp_server.Message
use mock_amqp_server.State.{
  declare_exchange as state_declare_exchange, declare_queue, bind_queue, register_consumer,
  message_ack, message_nack, store_message,
}
use mock_amqp_server.Sender.Channel.{
  send_basic_cancel_ok, send_channel_open_ok, send_channel_close_ok, send_exchange_declare_ok,
  send_queue_declare_ok, send_queue_bind_ok, send_basic_qos_ok, send_basic_consume_ok,
}
use mock_amqp_server.Protocol.{
  Session, Channel, ChannelState, on_transport, on_state, close_transport, method_id_is,
}

abbrev pub new_channel : Channel
new_channel = record {
  state = ChannelState.waiting_open;
  exchange = none;
  routing_key = none;
  on_going_message = none;
}

-- `_upsert_channel`
unfoldable pub upsert_channel : ℕ → Session → Session
upsert_channel channel_number s =
    if contains channel_number s.channels
    then s
    else record s { channels = put channel_number new_channel s.channels }

-- assignments to the keys of a channel's dictionary
abbrev pub set_channel : ℕ → Channel → Exec Session (Unit {0})
set_channel channel_number channel s =
    (ok tt, record s { channels = put channel_number channel s.channels })

-- `d[key]`
abbrev pub item {ℓ} : {A : Type ℓ} → Option A → Result A
item none = err key_error
item (some a) = ok a

-- `frame_value.properties[...]` for a key that only one method has
abbrev exchange_declare_of : Properties → Result ExchangeDeclare
exchange_declare_of (exchange_declare p) = ok p
exchange_declare_of p = err key_error

abbrev queue_declare_of : Properties → Result QueueDeclare
queue_declare_of (queue_declare p) = ok p
queue_declare_of p = err key_error

abbrev queue_bind_of : Properties → Result QueueBind
queue_bind_of (queue_bind p) = ok p
queue_bind_of p = err key_error

abbrev basic_publish_of : Properties → Result BasicPublish
basic_publish_of (basic_publish p) = ok p
basic_publish_of p = err key_error

abbrev basic_consume_of : Properties → Result BasicConsume
basic_consume_of (basic_consume p) = ok p
basic_consume_of p = err key_error

abbrev basic_ack_of : Properties → Result BasicAck
basic_ack_of (basic_ack p) = ok p
basic_ack_of p = err key_error

abbrev basic_nack_of : Properties → Result BasicNack
basic_nack_of (basic_nack p) = ok p
basic_nack_of p = err key_error

abbrev basic_cancel_of : Properties → Result BasicCancel
basic_cancel_of (basic_cancel p) = ok p
basic_cancel_of p = err key_error

abbrev pub when_not : Bool → Exec Session (Unit {0}) → Exec Session (Unit {0})
when_not true m = pure tt
when_not false m = m

module _ ⦃codec : Codec⦄ where
  unfoldable pub on_exchange_declare : ℕ → Properties → Exec Session (Unit {0})
  on_exchange_declare channel_number properties = do
    p ← lift (exchange_declare_of properties)
    done ← on_state (state_declare_exchange p.exchange_name p.type)
    when_not done close_transport
    on_transport (send_exchange_declare_ok channel_number)

  unfoldable pub on_queue_declare : ℕ → Properties → Exec Session (Unit {0})
  on_queue_declare channel_number properties = do
    p ← lift (queue_declare_of properties)
    (done, message_count, consumer_count) ← on_state (declare_queue p.queue_name)
    when_not done close_transport
    on_transport (send_queue_declare_ok channel_number p.queue_name message_count consumer_count)

  unfoldable pub on_queue_bind : ℕ → Properties → Exec Session (Unit {0})
  on_queue_bind channel_number properties = do
    p ← lift (queue_bind_of properties)
    done ← on_state (bind_queue p.queue_name p.exchange_name)
    if done then on_transport (send_queue_bind_ok channel_number) else close_transport

  unfoldable pub on_basic_publish : ℕ → Channel → Properties → Exec Session (Unit {0})
  on_basic_publish channel_number channel properties = do
    p ← lift (basic_publish_of properties)
    set_channel channel_number (record channel {
      state = ChannelState.waiting_header;
      exchange = some p.exchange_name;
      routing_key = some p.routing_key;
    })

  unfoldable pub on_basic_consume : ℕ → Properties → Exec Session (Unit {0})
  on_basic_consume channel_number properties = do
    p ← lift (basic_consume_of properties)
    id ← gets (λ s. s.id)
    done ← on_state (register_consumer id p.consumer_tag p.queue_name channel_number)
    on_transport (send_basic_consume_ok channel_number p.consumer_tag)

  unfoldable pub on_basic_ack : Properties → Exec Session (Unit {0})
  on_basic_ack properties = do
    p ← lift (basic_ack_of properties)
    on_state (λ g. (tt, message_ack p.delivery_tag g))

  unfoldable pub on_basic_nack : Properties → Exec Session (Unit {0})
  on_basic_nack properties = do
    p ← lift (basic_nack_of properties)
    on_state (λ g. (tt, message_nack p.delivery_tag p.requeue g))

  unfoldable pub on_basic_cancel : ℕ → Properties → Exec Session (Unit {0})
  on_basic_cancel channel_number properties = do
    p ← lift (basic_cancel_of properties)
    on_transport (send_basic_cancel_ok channel_number p.consumer_tag)

  -- the branches of an open channel, by the method
  unfoldable pub on_opened : ℕ → Channel → Frame → Exec Session (Unit {0})
  on_opened channel_number channel (method m) =
      if method_id_is MethodIds.exchange_declare (method m)
      then on_exchange_declare channel_number m.properties
      else if method_id_is MethodIds.queue_declare (method m)
      then on_queue_declare channel_number m.properties
      else if method_id_is MethodIds.queue_bind (method m)
      then on_queue_bind channel_number m.properties
      else if method_id_is MethodIds.basic_qos (method m)
      then on_transport (send_basic_qos_ok channel_number)
      else if method_id_is MethodIds.basic_publish (method m)
      then on_basic_publish channel_number channel m.properties
      else if method_id_is MethodIds.basic_consume (method m)
      then on_basic_consume channel_number m.properties
      else if method_id_is MethodIds.basic_ack (method m)
      then on_basic_ack m.properties
      else if method_id_is MethodIds.basic_nack (method m)
      then on_basic_nack m.properties
      else if method_id_is MethodIds.basic_cancel (method m)
      then on_basic_cancel channel_number m.properties
      else pure tt
  on_opened channel_number channel f = pure tt

  -- `_treat_channel_frame` while the channel waits for its opening; `_check_channel_open` is true
  unfoldable pub on_waiting_open : ℕ → Channel → Frame → Exec Session (Unit {0})
  on_waiting_open channel_number channel f =
      if not (method_id_is MethodIds.channel_open f) then close_transport else (do
        on_transport (send_channel_open_ok channel_number (text "42"))
        set_channel channel_number (record channel { state = ChannelState.opened }))

  unfoldable pub on_channel_close : ℕ → Exec Session (Unit {0})
  on_channel_close channel_number = do
    modify (λ s. record s { channels = remove channel_number s.channels })
    on_transport (send_channel_close_ok channel_number)
    close_transport

module _ ⦃runtime : Runtime⦄ where
  -- the end of `_treat_channel_frame`: a body frame of a message
  unfoldable pub on_waiting_body : ℕ → Channel → Frame → Exec Session (Unit {0})
  on_waiting_body channel_number channel (body b) = do
    old ← lift (item channel.on_going_message)
    let message = Message.add_content b.content old
    let grown : Channel = record channel { on_going_message = some message }
    set_channel channel_number grown
    if not (Message.is_complete message) then pure tt else do
      exchange ← lift (item channel.exchange)
      answer ←
          on_state (store_message exchange (obj message.headers.properties) (bytes message.content))
      done ← lift answer
      if not done
          then close_transport
          else set_channel channel_number
              (record grown { on_going_message = none; state = ChannelState.opened })
  on_waiting_body channel_number channel f = pure tt

  -- a header frame makes the channel wait for the body, and falls through to that test
  unfoldable pub on_waiting_header : ℕ → Channel → Frame → Exec Session (Unit {0})
  on_waiting_header channel_number channel (header h) =
      let waiting : Channel = record channel {
        on_going_message = some (Message.new_message h);
        state = ChannelState.waiting_body;
      } in
      do set_channel channel_number waiting; on_waiting_body channel_number waiting (header h)
  on_waiting_header channel_number channel f = pure tt

module _ ⦃codec : Codec⦄ ⦃runtime : Runtime⦄ where
  abbrev pub by_state : ChannelState → ℕ → Channel → Frame → Exec Session (Unit {0})
  by_state ChannelState.waiting_open n channel f = on_waiting_open n channel f
  by_state ChannelState.opened n channel f = on_opened n channel f
  by_state ChannelState.waiting_header n channel f = on_waiting_header n channel f
  by_state ChannelState.waiting_body n channel f = on_waiting_body n channel f

  abbrev pub is_waiting_open : ChannelState → Bool
  is_waiting_open ChannelState.waiting_open = true
  is_waiting_open c = false

  unfoldable pub treat_channel_frame : ℕ → Frame → Exec Session (Unit {0})
  treat_channel_frame channel_number f = do
    found ← gets (λ s. get channel_number s.channels)
    channel ← lift (item found)
    if not (is_waiting_open channel.state) && method_id_is MethodIds.channel_close f
        then on_channel_close channel_number
        else by_state channel.state channel_number channel f
