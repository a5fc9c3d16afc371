-- ===== src/Tests/Inspections.antt =====
-- Requests of an inspector, event by event.
use mock_amqp_server.Prelude.{
  ℕ, ◌≡◌, length, str_eq, refl, false, Option, none, some, List, [], ◌∷◌, ◌++◌,
}
use mock_amqp_server.Python.{Bytes, Result, ok, text, Exec}
use mock_amqp_server.Serialization.{str, obj, field, end}
use mock_amqp_server.State.{State, init}
use mock_amqp_server.State.Json.{Json}
use mock_amqp_server.Sender.Transport.{Transport, Call, write_call, close_call}
use mock_amqp_server.Publishing.{World}
use mock_amqp_server.Http.{
  H11, Clock, Event, request_event, data_event, end_of_message, need_data, other_event, Outgoing,
  response, content, HttpSession, connection_made,
}
use mock_amqp_server.Http.Received.{http_data_received}
use mock_amqp_server.State.Reading.{get_messages_of_queue}
use mock_amqp_server.Dict.{get, put}
use mock_amqp_server.Python.Texts.{split, encode}
use mock_amqp_server.Python.Utf8.{decode}
use mock_amqp_server.Python.Decimals.{int_of}
use mock_amqp_server.State.Delivery.{messages_in_exchange}
use mock_amqp_server.Tests.Samples.{sample_codec, sample_runtime}

-- an h11 that plays a script of events, stays at PAUSED, and writes of a response its status alone
abbrev pub next_of_script : Exec (List Event) Event
next_of_script [] = (ok need_data, [])
next_of_script (other_event ∷ events) = (ok other_event, other_event ∷ events)
next_of_script (event ∷ events) = (ok event, events)

abbrev pub send_of_script : Outgoing → Exec (List Event) Bytes
send_of_script (response status headers) events = (ok (status ∷ []), events)
send_of_script (content b) events = (ok b, events)

instance abbrev pub sample_h11 : H11 (List Event)
sample_h11 = record {
  receive_data = λ b events. (ok tt, events);
  next_event = next_of_script;
  send = send_of_script;
}

instance abbrev pub sample_clock : Clock
sample_clock = record { format_date_time = λ n. text "now" }

instance abbrev pub sample_json : Json
sample_json = record {
  loads = λ s. ok (obj (field (text "headers") (obj end) (field (text "body") (str s) end)));
  dumps = λ v. ok (text "{}");
}

abbrev pub quiet : Transport
quiet = record { calls = []; closing = false }

abbrev pub broker : State → World
broker s = record { global_state = s; transports = λ id. quiet; draws = 0 }

abbrev pub script : List Event → State → HttpSession (List Event)
script events s = connection_made (broker s) events quiet

abbrev pub post_mail : List Event
post_mail =
    request_event (text "POST") (text "/create-queue/mail") []
    ∷ data_event (text "x")
    ∷ end_of_message
    ∷ request_event (text "GET") (text "/messages-in-queue/mail") []
    ∷ end_of_message
    ∷ need_data
    ∷ []

-- what is written for a run
abbrev calls_of : Option (Result (Unit {0}) × HttpSession (List Event)) → List Call
calls_of none = []
calls_of (some (r, s)) = s.transport.calls

-- a queue is created, and its messages are read
create_and_read : calls_of (http_data_received 9 (text "x") (script post_mail init)) ≡ (
    write_call (200 ∷ [])
    ∷ write_call (text "ok" ++ 10 ∷ [])
    ∷ write_call (200 ∷ [])
    ∷ write_call (text "{}" ++ 10 ∷ [])
    ∷ [])
unfolding http_data_received connection_made init str_eq split get_messages_of_queue get put encode
create_and_read = refl

-- the messages of the default exchange behind a run
abbrev stored_by : Option (Result (Unit {0}) × HttpSession (List Event)) → ℕ
stored_by none = 0
stored_by (some (r, s)) = length (messages_in_exchange [] s.world.global_state)

abbrev in_pieces : List Event
in_pieces =
    request_event (text "POST") (text "/add-message-on/")
      ((text "content-type", text "application/octet-stream") ∷ [])
    ∷ data_event (text "hel")
    ∷ data_event (text "lo")
    ∷ end_of_message
    ∷ []

-- one body that comes in two events is published as two messages
published_in_pieces : stored_by (http_data_received 9 [] (script in_pieces init)) ≡ 2
unfolding http_data_received connection_made init str_eq split get put decode
published_in_pieces = refl

-- a body that is empty declares nothing, and is not answered
empty_body :
    calls_of (
      http_data_received 9 [] (
        script
          (request_event (text "POST") (text "/create-queue/mail") [] ∷ end_of_message ∷ [])
          init))
    ≡ []
unfolding http_data_received connection_made str_eq
empty_body = refl

-- a tag that is no number is answered 500, and the connection is closed
bad_tag :
    calls_of (
      http_data_received 9 []
        (script (request_event (text "GET") (text "/messages-requeued/x") [] ∷ []) init))
    ≡ (write_call (500 ∷ [])
        ∷ write_call (text "internal server error" ++ 10 ∷ [])
        ∷ close_call
        ∷ [])
unfolding http_data_received connection_made str_eq split decode int_of
bad_tag = refl

-- one request, and another one that waits behind it
abbrev second_request : List Event
second_request =
    request_event (text "GET") (text "/messages-in-queue/mail") []
    ∷ end_of_message
    ∷ other_event
    ∷ []

never_ended : http_data_received 99 (text "x") (script second_request init) ≡ none
unfolding http_data_received connection_made init str_eq split get_messages_of_queue get put encode
never_ended = refl

abbrev ending_of :
    Option (Result (Unit {0}) × HttpSession (List Event))
    → Result (Unit {0}) × HttpSession (List Event)
ending_of none = (ok tt, script [] init)
ending_of (some ending) = ending

pub finished :
    (ending : Result (Unit {0}) × HttpSession (List Event)) × (http_data_received 9
        (text "x")
        (script post_mail init)
      ≡ some ending)
unfolding http_data_received connection_made init str_eq split get_messages_of_queue get put encode
finished = (ending_of (http_data_received 9 (text "x") (script post_mail init)), refl)
