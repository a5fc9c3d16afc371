-- ===== src/Http/Handling.antt =====
-- service/http_protocol.py: what all handlers keep, of the broker and of the parser.
use mock_amqp_server.Prelude.{ℕ, Option, none, some, List, str_keys}
use mock_amqp_server.Python.{Str, Bytes, Result}
use mock_amqp_server.Python.Decimals.{ℤ}
use mock_amqp_server.Python.Sets.{Runtime}
use mock_amqp_server.Python.Keeps.{Keeps, keeps_rules}
use mock_amqp_server.Serialization.{Codec}
use mock_amqp_server.State.{State, Message}
use mock_amqp_server.State.Json.{Json}
use mock_amqp_server.Publishing.{World}
use mock_amqp_server.Publishing.Reachable.{
  reset_step, exchange_step, queue_step, delete_queue_step, delete_exchange_step,
}
use mock_amqp_server.Http.{
  Headers, H11, Clock, Event, request_event, data_event, end_of_message, need_data, other_event,
  RequestState, waiting_headers, waiting_body, Request, Wait,
}
use mock_amqp_server.Http.Requests.{
  on_get, on_get_messages, on_delete, on_put, on_post, on_post_exchange_message,
  on_post_queue_message, on_post_create_exchange, on_post_create_queue, answer_messages, answer_tag,
}
use mock_amqp_server.Http.Futures.{on_get_tag, on_get_bound}
use mock_amqp_server.Http.Received.{
  on_request, on_data, on_event, on_event_in, set_request, set_state,
}
use mock_amqp_server.Http.Keeping.{
  Property, Of, Kept, Keeps-ensure_future, Keeps-on_broker, Keeps-publish, Keeps-publish_in_queue,
  Keeps-no_content, Keeps-with_json_body, Keeps-not_found, Keeps-ok,
}

module _ {C : Type 0} ⦃h11 : H11 C⦄ ⦃clock : Clock⦄ ⦃json : Json⦄ ⦃codec : Codec⦄
    ⦃runtime : Runtime⦄ {Q : Property C} (kept : Kept Q) where
  Keeps-get_tag :
      (coroutine : ℤ → Wait) (target : Bytes) → Keeps (Of Q) (on_get_tag coroutine target)
  unfolding on_get_tag
  Keeps-get_tag coroutine target = search (keeps_rules, Keeps-ensure_future) depth 9

  Keeps-get_bound : (target : Bytes) → Keeps (Of Q) (on_get_bound target)
  unfolding on_get_bound
  Keeps-get_bound target = search (keeps_rules, Keeps-ensure_future) depth 9

  Keeps-answer_messages : (found : Option (List Message)) → Keeps (Of Q) (answer_messages found)
  Keeps-answer_messages none = Keeps-not_found kept
  Keeps-answer_messages (some messages) = search (keeps_rules, Keeps-ok) depth 9

  Keeps-answer_tag : (found : Option ℕ) → Keeps (Of Q) (answer_tag found)
  Keeps-answer_tag none = Keeps-not_found kept
  Keeps-answer_tag (some tag) = search (keeps_rules, Keeps-ok) depth 9

  Keeps-get_messages :
      (get_messages : Str → State → Result (Option (List Message))) (target : Bytes)
      → Keeps (Of Q) (on_get_messages get_messages target)
  unfolding on_get_messages
  Keeps-get_messages get_messages target = search (keeps_rules, Keeps-answer_messages) depth 12

  Keeps-get : (target : Bytes) → Keeps (Of Q) (on_get target)
  unfolding on_get
  Keeps-get target =
      search
        (
          keeps_rules, Keeps-with_json_body, Keeps-ensure_future, Keeps-get_tag, Keeps-get_messages,
          Keeps-get_bound, Keeps-not_found,
        )
        depth 16

  Keeps-delete : (target : Bytes) → Keeps (Of Q) (on_delete target)
  unfolding on_delete
  Keeps-delete target =
      search
        (
          keeps_rules, Keeps-no_content, Keeps-not_found, Keeps-on_broker, delete_queue_step,
          delete_exchange_step,
        )
        depth 12

  Keeps-put : (target received : Bytes) → Keeps (Of Q) (on_put target received)
  unfolding on_put
  Keeps-put target received = Keeps-not_found kept

  Keeps-exchange_message :
      (target received : Bytes) (headers : Headers)
      → Keeps (Of Q) (on_post_exchange_message target received headers)
  unfolding on_post_exchange_message
  Keeps-exchange_message target received headers =
      search (keeps_rules, Keeps-publish, Keeps-answer_tag) depth 16

  Keeps-queue_message :
      (target received : Bytes) (headers : Headers)
      → Keeps (Of Q) (on_post_queue_message target received headers)
  unfolding on_post_queue_message
  Keeps-queue_message target received headers =
      search (keeps_rules, Keeps-publish_in_queue, Keeps-answer_tag) depth 16

  Keeps-create_exchange : (target : Bytes) → Keeps (Of Q) (on_post_create_exchange target)
  unfolding on_post_create_exchange
  Keeps-create_exchange target =
      search (keeps_rules, Keeps-on_broker, exchange_step, Keeps-ok) depth 14

  Keeps-create_queue : (target : Bytes) → Keeps (Of Q) (on_post_create_queue target)
  unfolding on_post_create_queue
  Keeps-create_queue target = search (keeps_rules, Keeps-on_broker, queue_step, Keeps-ok) depth 12

  pub Keeps-post :
      (target received : Bytes) (headers : Headers) → Keeps (Of Q) (on_post target received headers)
  unfolding on_post
  Keeps-post target received headers =
      search
        (
          keeps_rules, Keeps-exchange_message, Keeps-queue_message, Keeps-create_exchange,
          Keeps-create_queue, Keeps-not_found,
        )
        depth 9

  module _
      (moved : (w : World) (c : C) (state state' : RequestState) (r r' : Option Request)
        → Q w c state r
        → Q w c state' r') where
    Keeps-set_request : (r : Option Request) → Keeps (Of Q) (set_request r)
    Keeps-set_request r = record { at = λ s h. moved s.world s.http_parser s.state _ s.request _ h }

    Keeps-set_state : (r : RequestState) → Keeps (Of Q) (set_state r)
    Keeps-set_state r = record { at = λ s h. moved s.world s.http_parser s.state _ s.request _ h }

    Keeps-request :
        (method target : Bytes) (headers : Headers)
        → Keeps (Of Q) (on_request method target headers)
    unfolding on_request
    Keeps-request method target headers =
        search
          (
            keeps_rules, Keeps-set_request, Keeps-set_state, Keeps-on_broker, reset_step,
            Keeps-no_content, Keeps-get, Keeps-delete,
          )
          depth 12

    Keeps-data : (r : Option Request) (received : Bytes) → Keeps (Of Q) (on_data r received)
    unfolding on_data
    Keeps-data none received = search keeps_rules
    Keeps-data (some r) received = search (keeps_rules, Keeps-post, Keeps-put) depth 9

    Keeps-event_in :
        (state : RequestState) (r : Option Request) (event : Event)
        → Keeps (Of Q) (on_event_in state r event)
    Keeps-event_in waiting_headers r (request_event method target headers) =
        Keeps-request method target headers
    Keeps-event_in waiting_body r (data_event received) = Keeps-data r received
    Keeps-event_in waiting_headers r end_of_message =
        search (keeps_rules, Keeps-set_request, Keeps-set_state)
    Keeps-event_in waiting_body r end_of_message =
        search (keeps_rules, Keeps-set_request, Keeps-set_state)
    Keeps-event_in waiting_body r (request_event method target headers) = search keeps_rules
    Keeps-event_in waiting_headers r (data_event received) = search keeps_rules
    Keeps-event_in waiting_headers r need_data = search keeps_rules
    Keeps-event_in waiting_headers r other_event = search keeps_rules
    Keeps-event_in waiting_body r need_data = search keeps_rules
    Keeps-event_in waiting_body r other_event = search keeps_rules

    pub Keeps-event : (event : Event) → Keeps (Of Q) (on_event event)
    unfolding on_event
    Keeps-event event = record { at = λ s h. (Keeps-event_in s.state s.request event).at s h }
