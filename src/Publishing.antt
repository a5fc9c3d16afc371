-- ===== src/Publishing.antt =====
-- service/state.py: publishing to consumers, and `push_message` of service/protocol.py. A consumer is
-- the object of its connection, so the world holds the transport of every connection.
pub mod Consumers
pub mod InQueue
pub mod Exchanges
pub mod Reachable
pub mod Reading
use mock_amqp_server.Prelude.{
  ℕ, suc, ◌+◌, ◌^◌, Bool, true, false, Option, none, some, List, [], ◌∷◌, ◌++◌, length, nat_eq,
  str_keys, if◌then◌else◌,
}
use mock_amqp_server.Dict.{Dict, get, put, remove}
use mock_amqp_server.Python.{
  Str, Bytes, Result, ok, err, key_error, type_error, attribute_error, text, Exec, pure, raise,
  lift, gets, modify, ◌>>=◌, ◌>>◌,
}
use mock_amqp_server.Python.Sets.{Runtime}
use mock_amqp_server.Python.Texts.{encode}
use mock_amqp_server.Serialization.{
  Value, str, bytes, arr, obj, Items, nil, cons, Fields, end, field, Codec,
}
use mock_amqp_server.State.{
  State, Message, Exchange, Queue, Consumer, bound_queues, append_to_exchange,
}
use mock_amqp_server.Sender.Transport.{Transport, write_array, write_size}
use mock_amqp_server.Sender.Channel.{send_basic_deliver}
use mock_amqp_server.Sender.Content.{send_content_header, send_content_body}

-- `draws` counts the calls of `randint`.
pub record World : Type 0 where
  pub global_state : State
  pub transports : ℕ → Transport
  pub draws : ℕ

-- `len(value)`
unfoldable pub count_items : Items → ℕ
count_items nil = 0
count_items (cons v vs) = suc (count_items vs)

unfoldable pub count_fields : Fields → ℕ
count_fields end = 0
count_fields (field k v rest) = suc (count_fields rest)

unfoldable pub len : Value → Result ℕ
unfolding count_items count_fields
len (bytes b) = ok (length b)
len (str s) = ok (length s)
len (arr vs) = ok (count_items vs)
len (obj d) = ok (count_fields d)
len v = err type_error

-- `send_content_body(transport, channel_number, value)`: a transport writes bytes only
unfoldable pub send_body_of : ℕ → Value → Exec Transport (Unit {0})
unfolding len
send_body_of channel_number (bytes b) = send_content_body channel_number b
send_body_of channel_number v = do
  write_array (3 ∷ 0 ∷ channel_number ∷ [])
  size ← lift (len v)
  write_size size
  raise type_error

-- `message_data.encode('utf8') if not is_binary else message_data`
unfoldable pub payload_of : Bool → Value → Result Value
payload_of true v = ok v
payload_of false (str s) = elim (encode s) [ ok b ↦ ok (bytes b) | err e ↦ err e ]
payload_of false v = err attribute_error

module _ ⦃codec : Codec⦄ where
  unfoldable pub push_message : Value → Value → ℕ → Str → ℕ → Str → Exec Transport (Unit {0})
  push_message headers message channel_number consumer_tag delivery_tag exchange_name = do
    send_basic_deliver channel_number consumer_tag delivery_tag false exchange_name []
    size ← lift (len message)
    send_content_header channel_number headers size
    send_body_of channel_number message

-- an action on the transport of a connection
abbrev pub set_transport : ℕ → Transport → (ℕ → Transport) → ℕ → Transport
set_transport id t transports i = if nat_eq i id then t else transports i

abbrev pub on_protocol : {A : Type 0} → ℕ → Exec Transport A → Exec World A
on_protocol id m w =
    let (r, t) = m (w.transports id) in
    (r, record w { transports = set_transport id t w.transports })

-- What is published: headers, body, `is_binary`, and the exchange named to the consumer.
pub record Publication : Type 0 where
  pub headers : Value
  pub message_data : Value
  pub is_binary : Bool
  pub exchange_name : Str

abbrev pub message_of : Publication → Message
message_of p = record { headers = p.headers; body = p.message_data }

module _ ⦃codec : Codec⦄ ⦃runtime : Runtime⦄ where
  open runtime use {randint, iterate}

  -- `randint(1, 2**31)`
  abbrev pub draw : Exec World ℕ
  draw w = (ok (randint w.draws), record w { draws = suc w.draws })

  -- The loop over the consumers: the delivery tag, and the tags of the consumers found dead.
  unfoldable pub serve :
      Publication → Dict Str Consumer → List Str → Option ℕ → Exec World (Option ℕ × List Str)
  unfolding payload_of push_message
  serve p [] dead_consumers delivery_tag = pure (delivery_tag, dead_consumers)
  serve p ((consumer_tag, consumer) ∷ rest) dead_consumers delivery_tag = do
    tag ← draw
    closing ← gets (λ w. (w.transports consumer.protocol).closing)
    if closing then serve p rest (dead_consumers ++ (consumer_tag ∷ [])) (some tag) else do
      payload ← lift (payload_of p.is_binary p.message_data)
      on_protocol consumer.protocol
          (push_message p.headers payload consumer.channel_number consumer_tag tag p.exchange_name)
      pure (some tag, dead_consumers)

  -- `for consumer_tag in dead_consumers: del consumers[consumer_tag]`
  abbrev pub remove_all : List Str → Dict Str Consumer → Dict Str Consumer
  remove_all [] consumers = consumers
  remove_all (tag ∷ tags) consumers = remove_all tags (remove tag consumers)

  abbrev pub clean : Str → Queue → List Str → World → World
  clean queue_name queue dead_consumers w = record w {
    global_state = record w.global_state {
      queues =
          put queue_name (record queue { consumers = remove_all dead_consumers queue.consumers })
            w.global_state.queues;
    };
  }

  -- the consumers of one queue, from `consumers = self._queues[queue_name]['consumers']` on
  unfoldable pub serve_queue : Publication → Str → Exec World (Option ℕ)
  unfolding serve
  serve_queue p queue_name w = elim (get queue_name w.global_state.queues) [
    | none ↦ (err key_error, w)
    | some queue ↦
        (do
          (delivery_tag, dead_consumers) ← serve p queue.consumers [] none
          modify (clean queue_name queue dead_consumers)
          pure delivery_tag)
          w
  ]

  -- the loop over the bound queues returns in its first round
  abbrev pub serve_first : Publication → List Str → Exec World (Option ℕ)
  serve_first p [] = pure none
  serve_first p (queue_name ∷ others) = serve_queue p queue_name

  unfoldable pub publish_message : Publication → Exec World (Option ℕ)
  unfolding serve_queue
  publish_message p w = elim (get p.exchange_name w.global_state.exchanges) [
    | none ↦ (ok none, w)
    | some exchange ↦
        let stored = append_to_exchange p.exchange_name exchange (message_of p) w.global_state in
        serve_first p (iterate (bound_queues p.exchange_name stored))
          (record w { global_state = stored })
  ]

  -- `queue['messages'].append(message)`
  abbrev pub append_to_queue : Str → Queue → Message → State → State
  append_to_queue queue_name queue message s = record s {
    queues = put queue_name (record queue { messages = queue.messages ++ (message ∷ []) }) s.queues;
  }

  unfoldable pub publish_message_in_queue : Str → Value → Value → Bool → Exec World (Option ℕ)
  unfolding serve_queue
  publish_message_in_queue queue_name headers message_data is_binary w =
      elim (get queue_name w.global_state.queues) [
        | none ↦ (ok none, w)
        | some queue ↦
            let p : Publication = record {
              headers = headers;
              message_data = message_data;
              is_binary = is_binary;
              exchange_name = text "dummy-exchange";
            } in
            serve_queue p queue_name (record w {
              global_state = append_to_queue queue_name queue (message_of p) w.global_state;
            })
      ]
