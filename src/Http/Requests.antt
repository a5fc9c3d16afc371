-- ===== src/Http/Requests.antt =====
-- service/http_protocol.py: the methods `_on_get`, `_on_post`, `_on_put` and `_on_delete`.
use mock_amqp_server.Prelude.{ℕ, Option, none, some, List, map, str_keys, ◌==◌, if◌then◌else◌}
use mock_amqp_server.Python.{Str, Bytes, Result, ok, err, text, Exec, lift, gets, ◌>>=◌, ◌>>◌}
use mock_amqp_server.Python.Sets.{Runtime}
use mock_amqp_server.Python.Texts.{starts_with, encode}
use mock_amqp_server.Python.Utf8.{decode}
use mock_amqp_server.Python.Decimals.{str_of}
use mock_amqp_server.Serialization.{arr, Codec}
use mock_amqp_server.State.{
  State, Message, declare_exchange, declare_queue, delete_messages_of_queue,
  delete_messages_of_exchange,
}
use mock_amqp_server.State.Reading.{get_messages_of_queue, get_messages_of_exchange, message_value}
use mock_amqp_server.State.Json.{Json, items_of, to_json}
use mock_amqp_server.Publishing.{publish_message, publish_message_in_queue}
use mock_amqp_server.Http.{
  Headers, H11, Clock, authentication, acknowledged, not_acknowledged, requeued, HttpSession,
  on_world, on_broker, send_http_response_no_content, send_http_response_with_json_body,
  send_http_response_not_found, send_http_response_ok,
}
use mock_amqp_server.Http.Messages.{build_message, item, binary_of}
use mock_amqp_server.Http.Futures.{segment, ensure_future, on_get_tag, on_get_bound}

module _ ⦃json : Json⦄ where
  -- `json.dumps(messages).encode('utf-8')`
  abbrev pub messages_body : List Message → Result Bytes
  messages_body messages = elim (json.dumps (arr (items_of (map message_value messages)))) [
    | err e ↦ err e
    | ok s ↦ encode s
  ]

module _ {C : Type 0} ⦃h11 : H11 C⦄ ⦃clock : Clock⦄ ⦃json : Json⦄ where
  abbrev pub answer_messages : Option (List Message) → Exec (HttpSession C) (Unit {0})
  answer_messages none = send_http_response_not_found
  answer_messages (some messages) = do
    body ← lift (messages_body messages)
    send_http_response_ok body

  abbrev pub answer_tag : Option ℕ → Exec (HttpSession C) (Unit {0})
  answer_tag none = send_http_response_not_found
  answer_tag (some delivery_tag) = do
    body ← lift (encode (str_of delivery_tag))
    send_http_response_ok body

  -- the two GETs of messages
  unfoldable pub on_get_messages :
      (Str → State → Result (Option (List Message))) → Bytes → Exec (HttpSession C) (Unit {0})
  on_get_messages get_messages target = do
    part ← lift (segment 2 2 target)
    name ← lift (decode part)
    s ← gets (λ s. s.world.global_state)
    messages ← lift (get_messages name s)
    answer_messages messages

module _ {C : Type 0} ⦃h11 : H11 C⦄ ⦃clock : Clock⦄ ⦃json : Json⦄ ⦃runtime : Runtime⦄ where
  unfoldable pub on_get : Bytes → Exec (HttpSession C) (Unit {0})
  unfolding on_get_tag on_get_bound on_get_messages send_http_response_not_found
      send_http_response_with_json_body to_json starts_with
  on_get target =
      if target == text "/"
      then (do
        s ← gets (λ s. s.world.global_state)
        state_text ← lift (to_json s)
        body ← lift (encode state_text)
        send_http_response_with_json_body 200 body)
      else if starts_with (text "/authentification-done-with-success-on/") target
      then (do username ← lift (segment 2 2 target); ensure_future (authentication username))
      else if starts_with (text "/messages-acknowledged/") target
      then on_get_tag acknowledged target
      else if starts_with (text "/messages-not-acknowledged/") target
      then on_get_tag not_acknowledged target
      else if starts_with (text "/messages-requeued/") target
      then on_get_tag requeued target
      else if starts_with (text "/messages-in-queue/") target
      then on_get_messages get_messages_of_queue target
      else if starts_with (text "/messages-in-exchange/") target
      then on_get_messages get_messages_of_exchange target
      else if starts_with (text "/queue-bound-to-exchange/") target
      then on_get_bound target
      else send_http_response_not_found

module _ {C : Type 0} ⦃h11 : H11 C⦄ ⦃clock : Clock⦄ where
  unfoldable pub on_delete : Bytes → Exec (HttpSession C) (Unit {0})
  unfolding send_http_response_not_found send_http_response_no_content starts_with
      delete_messages_of_queue delete_messages_of_exchange
  on_delete target =
      if starts_with (text "/messages-in-queue/") target
      then (do
        part ← lift (segment 2 2 target)
        queue_name ← lift (decode part)
        on_broker (delete_messages_of_queue queue_name)
        send_http_response_no_content)
      else if starts_with (text "/messages-in-exchange/") target
      then (do
        part ← lift (segment 2 2 target)
        queue_name ← lift (decode part)
        on_broker (delete_messages_of_exchange queue_name)
        send_http_response_no_content)
      else send_http_response_not_found

  unfoldable pub on_put : Bytes → Bytes → Exec (HttpSession C) (Unit {0})
  unfolding send_http_response_not_found
  on_put target received = send_http_response_not_found

module _ {C : Type 0} ⦃h11 : H11 C⦄ ⦃clock : Clock⦄ ⦃json : Json⦄ ⦃codec : Codec⦄
    ⦃runtime : Runtime⦄ where
  -- `add-message-on`
  unfoldable pub on_post_exchange_message :
      Bytes → Bytes → Headers → Exec (HttpSession C) (Unit {0})
  unfolding publish_message send_http_response_ok send_http_response_not_found build_message item
      binary_of
  on_post_exchange_message target received headers = do
    exchange ← lift (segment 2 2 target)
    full_message ← lift (build_message received headers)
    exchange_name ← lift (decode exchange)
    message_headers ← lift (item (text "headers") full_message)
    body ← lift (item (text "body") full_message)
    delivery_tag ← on_world (
        publish_message (record {
          headers = message_headers;
          message_data = body;
          is_binary = binary_of full_message;
          exchange_name = exchange_name;
        }))
    answer_tag delivery_tag

  -- `add-message-in-queue`
  unfoldable pub on_post_queue_message : Bytes → Bytes → Headers → Exec (HttpSession C) (Unit {0})
  unfolding publish_message_in_queue send_http_response_ok send_http_response_not_found
      build_message item binary_of
  on_post_queue_message target received headers = do
    queue ← lift (segment 2 2 target)
    full_message ← lift (build_message received headers)
    queue_name ← lift (decode queue)
    message_headers ← lift (item (text "headers") full_message)
    body ← lift (item (text "body") full_message)
    delivery_tag ←
        on_world (publish_message_in_queue queue_name message_headers body (binary_of full_message))
    answer_tag delivery_tag

  -- `create-exchange`; the answer of `declare_exchange` is not looked at
  unfoldable pub on_post_create_exchange : Bytes → Exec (HttpSession C) (Unit {0})
  unfolding declare_exchange send_http_response_ok
  on_post_create_exchange target = do
    exchange_name ← lift (segment 3 2 target)
    exchange_type ← lift (segment 3 3 target)
    name ← lift (decode exchange_name)
    type ← lift (decode exchange_type)
    on_broker (λ s. (declare_exchange name type s).1)
    send_http_response_ok (text "ok")

  -- `create-queue`
  unfoldable pub on_post_create_queue : Bytes → Exec (HttpSession C) (Unit {0})
  unfolding declare_queue send_http_response_ok
  on_post_create_queue target = do
    queue ← lift (segment 2 2 target)
    queue_name ← lift (decode queue)
    on_broker (λ s. (declare_queue queue_name s).1)
    send_http_response_ok (text "ok")

  unfoldable pub on_post : Bytes → Bytes → Headers → Exec (HttpSession C) (Unit {0})
  unfolding on_post_exchange_message on_post_queue_message on_post_create_exchange
      on_post_create_queue send_http_response_not_found starts_with
  on_post target received headers =
      if starts_with (text "/add-message-on/") target
      then on_post_exchange_message target received headers
      else if starts_with (text "/add-message-in-queue/") target
      then on_post_queue_message target received headers
      else if starts_with (text "/create-exchange/") target
      then on_post_create_exchange target
      else if starts_with (text "/create-queue/") target
      then on_post_create_queue target
      else send_http_response_not_found
