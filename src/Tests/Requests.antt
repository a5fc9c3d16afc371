-- ===== src/Tests/Requests.antt =====
-- The handlers of the HTTP side, and what an inspector reads, at concrete requests.
use mock_amqp_server.Prelude.{
  ℕ, zero, suc, ◌<◌, ◌≡◌, refl, All, arith, true, false, none, some, List, [], ◌∷◌, ◌++◌, nat_eq,
  str_eq, str_keys, nat_keys, if◌then◌else◌,
}
use mock_amqp_server.Dict.{get, contains}
use mock_amqp_server.Python.{
  Str, Bytes, Error, ok, err, text, value_error, type_error, unicode_error, name_error,
  attribute_error, wait_timeout,
}
use mock_amqp_server.Python.Utf8.{decode}
use mock_amqp_server.Python.Texts.{split, encode}
use mock_amqp_server.Python.Decimals.{pos, str_of, int_of}
use mock_amqp_server.Serialization.{str, bytes, obj, end}
use mock_amqp_server.State.{
  State, init, declare_queue, declare_exchange, check_credentials, delete_messages_of_queue,
  delete_messages_of_exchange,
}
use mock_amqp_server.State.Wait.{wait_authentication_performed_on}
use mock_amqp_server.State.Logins.{wait_authentication_performed_on_lem}
use mock_amqp_server.State.Reading.{get_messages_of_queue, get_messages_of_exchange}
use mock_amqp_server.Publishing.{Publication, publish_message, publish_message_in_queue}
use mock_amqp_server.Publishing.Reading.{get_messages_of_exchange-publish_message}
use mock_amqp_server.Http.{
  content, Event, request_event, authentication, acknowledged, not_acknowledged, requeued,
  queue_bound, HttpSession, connection_made, send_http_response_ok, send_http_response_no_content,
}
use mock_amqp_server.Http.Requests.{on_get, on_post, on_delete, answer_tag}
use mock_amqp_server.Http.Posts.{
  changed, binary_message, octet_stream, AnswersTag, on_post_lem, on_delete_lem,
}
use mock_amqp_server.Http.Gets.{started, AnswersMessages, on_get_lem, on_get-answer_tag}
use mock_amqp_server.Http.Bodies.{
  for_each, in_body, end_request, post_request, bodies, on_event-post,
}
use mock_amqp_server.Http.Received.{on_event, receive_events, http_data_received}
use mock_amqp_server.Http.Failures.{error_body, error_head, answered, http_data_received-raises}
use mock_amqp_server.Tests.Samples.{sample_codec, sample_runtime}
use mock_amqp_server.Tests.Inspections.{
  sample_h11, sample_clock, sample_json, broker, script, send_of_script,
}

abbrev mail : Str
mail = text "mail"

abbrev fanout : Str
fanout = text "fanout"

abbrev idle : HttpSession (List Event)
idle = script [] init

mail_decodes : decode mail ≡ ok mail
unfolding decode
mail_decodes = refl

fanout_decodes : decode fanout ≡ ok fanout
unfolding decode
fanout_decodes = refl

on_post_lem_example :
    (on_post (text "/create-queue/" ++ mail) (text "x") [] idle
      ≡ send_http_response_ok (text "ok") (changed (λ t. (declare_queue mail t).1) idle))
    × (All (λ c. nat_eq c 47 ≡ false) mail
        → on_post (text "/create-exchange/" ++ mail ++ 47 ∷ fanout) (text "x") [] idle
          ≡ send_http_response_ok
              (text "ok")
              (changed (λ t. (declare_exchange mail fanout t).1) idle))
    × AnswersTag
        (publish_message (binary_message (text "x") mail) idle.world)
        idle
        (on_post (text "/add-message-on/" ++ mail) (text "x") octet_stream idle)
    × AnswersTag
        (publish_message_in_queue mail (obj end) (bytes (text "x")) true idle.world)
        idle
        (on_post (text "/add-message-in-queue/" ++ mail) (text "x") octet_stream idle)
on_post_lem_example =
    on_post_lem mail fanout (text "x") mail fanout [] idle mail_decodes fanout_decodes

on_delete_lem_example :
    (on_delete (text "/messages-in-queue/" ++ mail) idle
      ≡ send_http_response_no_content (changed (delete_messages_of_queue mail) idle))
    × (on_delete (text "/messages-in-exchange/" ++ mail) idle
        ≡ send_http_response_no_content (changed (delete_messages_of_exchange mail) idle))
    × (get_messages_of_queue mail (delete_messages_of_queue mail idle.world.global_state)
        ≡ ok (if contains mail idle.world.global_state.queues then some [] else none))
    × (get_messages_of_exchange mail (delete_messages_of_exchange mail idle.world.global_state)
        ≡ ok (if contains mail idle.world.global_state.exchanges then some [] else none))
on_delete_lem_example = on_delete_lem mail mail idle mail_decodes

on_get_lem_example :
    AnswersMessages
      (get_messages_of_queue mail idle.world.global_state)
      idle
      (on_get (text "/messages-in-queue/" ++ mail) idle)
    × AnswersMessages
        (get_messages_of_exchange mail idle.world.global_state)
        idle
        (on_get (text "/messages-in-exchange/" ++ mail) idle)
    × (on_get (text "/authentification-done-with-success-on/" ++ mail) idle
        ≡ started (authentication mail) idle)
    × (All (λ c. nat_eq c 47 ≡ false) mail
        → on_get (text "/queue-bound-to-exchange/" ++ mail ++ 47 ∷ fanout) idle
          ≡ started (queue_bound mail fanout) idle)
    × ((q : Str)
        → contains q idle.world.global_state.queues ≡ true
        → on_get (text "/") idle ≡ (err type_error, idle))
on_get_lem_example = on_get_lem mail fanout mail fanout idle mail_decodes fanout_decodes

on_get-answer_tag_example :
    (answer_tag (some 42) idle ≡ send_http_response_ok (str_of 42) idle)
    × (on_get (text "/messages-acknowledged/" ++ str_of 42) idle
        ≡ started (acknowledged (pos 42)) idle)
    × (on_get (text "/messages-not-acknowledged/" ++ str_of 42) idle
        ≡ started (not_acknowledged (pos 42)) idle)
    × (on_get (text "/messages-requeued/" ++ str_of 42) idle ≡ started (requeued (pos 42)) idle)
on_get-answer_tag_example = on_get-answer_tag 42 idle

-- two events of one body, for a route that publishes
abbrev chunks : List Bytes
chunks = text "a" ∷ text "b" ∷ []

on_event-post_example :
    for_each on_event
      (request_event (text "POST") (text "/add-message-on/") octet_stream ∷ bodies chunks)
      idle
    ≡ end_request (
        for_each
          (λ received. on_post (text "/add-message-on/") received octet_stream)
          chunks
          (in_body (post_request (text "/add-message-on/") octet_stream) idle))
unfolding connection_made
on_event-post_example = on_event-post (text "/add-message-on/") octet_stream chunks idle refl

abbrev wrong_tag : HttpSession (List Event)
wrong_tag = script (request_event (text "GET") (text "/messages-requeued/x") [] ∷ []) init

abbrev public_message : Publication
public_message = binary_message (text "hi") []

get_messages_of_exchange-publish_message_example :
    ((b : Bytes) (t : Str)
      → public_message.message_data ≡ bytes b
      → decode b ≡ ok t
      → get_messages_of_exchange [] (publish_message public_message (broker init)).1.global_state
        ≡ ok (some ([] ++ record { headers = obj end; body = str t } ∷ [])))
    × ((t : Str)
        → public_message.message_data ≡ str t
        → get_messages_of_exchange [] (publish_message public_message (broker init)).1.global_state
          ≡ err attribute_error)
    × ((b : Bytes)
        → public_message.message_data ≡ bytes b
        → decode b ≡ err unicode_error
        → get_messages_of_exchange [] (publish_message public_message (broker init)).1.global_state
          ≡ err name_error)
unfolding get_messages_of_exchange init get str_eq
get_messages_of_exchange-publish_message_example =
    get_messages_of_exchange-publish_message public_message (broker init) [] refl

-- the login comes between the first look and the second
abbrev login : ℕ → State
login zero = init
login (suc k) = (check_credentials mail fanout init).1

mail_encodes : encode mail ≡ ok mail
unfolding encode
mail_encodes = refl

wait_authentication_performed_on_example :
    ((i : ℕ) (password : Str) (s : State)
      → i < 10
      → ((j : ℕ) → j < i → get mail (login j).authentication_tried_on ≡ none)
      → login i ≡ (check_credentials mail password s).1
      → wait_authentication_performed_on mail 10 login ≡ ok (check_credentials mail password s).0)
    × (((j : ℕ) → j < 10 → get mail (login j).authentication_tried_on ≡ none)
        → wait_authentication_performed_on mail 10 login ≡ err wait_timeout)
wait_authentication_performed_on_example =
    wait_authentication_performed_on_lem mail mail 10 login (omega arith) mail_encodes

abbrev refused : HttpSession (List Event)
refused = record wrong_tag {
  http_parser = [];
  request =
      some (record { method = text "GET"; target = text "/messages-requeued/x"; headers = [] });
}

tag_refused : receive_events 9 [] wrong_tag ≡ some (err value_error, refused)
unfolding receive_events connection_made str_eq split decode int_of
tag_refused = refl

http_data_received-raises_example :
    ((head body : Bytes) (c d : List Event)
      → send_of_script (error_head (text "now")) [] ≡ (ok head, c)
      → send_of_script (content error_body) c ≡ (ok body, d)
      → http_data_received 9 [] wrong_tag
        ≡ some (
          err value_error,
          record refused {
            http_parser = d;
            transport = answered head body refused.transport;
            moments = suc refused.moments;
          },
        ))
    × ((x : Error) (c : List Event)
        → send_of_script (error_head (text "now")) [] ≡ (err x, c)
        → http_data_received 9 [] wrong_tag
          ≡ some (err x, record refused { http_parser = c; moments = suc refused.moments }))
http_data_received-raises_example =
    http_data_received-raises 9 [] wrong_tag refused value_error tag_refused
