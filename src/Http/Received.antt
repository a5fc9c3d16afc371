-- ===== src/Http/Received.antt =====
-- service/http_protocol.py: `data_received`. The loop asks h11 for events until NEED_DATA; it takes
-- fuel, and `none` means that the fuel ran out.
use mock_amqp_server.Prelude.{
  ℕ, zero, suc, Bool, true, false, ◌||◌, Option, none, some, str_keys, ◌==◌, if◌then◌else◌,
}
use mock_amqp_server.Python.{
  Bytes, Error, Result, ok, err, text, Exec, pure, raise, modify, ◌>>=◌, ◌>>◌,
}
use mock_amqp_server.Python.Sets.{Runtime}
use mock_amqp_server.Serialization.{Codec}
use mock_amqp_server.State.{reset}
use mock_amqp_server.State.Json.{Json}
use mock_amqp_server.Sender.Transport.{close}
use mock_amqp_server.Http.{
  Headers, H11, Clock, Event, request_event, data_event, end_of_message, need_data, RequestState,
  waiting_headers, waiting_body, Request, HttpSession, on_broker, on_parser, on_http_transport,
  send_http_response_no_content, send_http_internal_server_error,
}
use mock_amqp_server.Http.Requests.{on_get, on_post, on_put, on_delete}

abbrev pub is_need_data : Event → Bool
is_need_data need_data = true
is_need_data event = false

module _ {C : Type 0} where
  abbrev pub set_request : Option Request → Exec (HttpSession C) (Unit {0})
  set_request request = modify (λ s. record s { request = request })

  abbrev pub set_state : RequestState → Exec (HttpSession C) (Unit {0})
  set_state state = modify (λ s. record s { state = state })

module _ {C : Type 0} ⦃h11 : H11 C⦄ ⦃clock : Clock⦄ ⦃json : Json⦄ ⦃codec : Codec⦄
    ⦃runtime : Runtime⦄ where
  -- an `h11.Request` in WAITING_HEADERS
  unfoldable pub on_request : Bytes → Bytes → Headers → Exec (HttpSession C) (Unit {0})
  unfolding on_get on_delete send_http_response_no_content reset
  on_request method target headers = do
    set_request (some (record { method = method; target = target; headers = headers }))
    if method == text "MOCK_FLUSH"
        then (do on_broker reset; send_http_response_no_content)
        else if method == text "GET"
        then on_get target
        else if method == text "DELETE"
        then on_delete target
        else if method == text "POST" || method == text "PUT"
        then set_state waiting_body
        else pure tt

  -- an `h11.Data` in WAITING_BODY
  unfoldable pub on_data : Option Request → Bytes → Exec (HttpSession C) (Unit {0})
  unfolding on_post on_put
  on_data none received = pure tt
  on_data (some request) received =
      if request.method == text "POST"
      then on_post request.target received request.headers
      else if request.method == text "PUT"
      then on_put request.target received
      else pure tt

  -- the body of the loop, for an event
  abbrev pub on_event_in : RequestState → Option Request → Event → Exec (HttpSession C) (Unit {0})
  on_event_in waiting_headers request (request_event method target headers) =
      on_request method target headers
  on_event_in waiting_body request (data_event received) = on_data request received
  on_event_in state request end_of_message = do set_state waiting_headers; set_request none
  on_event_in state request event = pure tt

  unfoldable pub on_event : Event → Exec (HttpSession C) (Unit {0})
  unfolding on_request on_data
  on_event event s = on_event_in s.state s.request event s

  -- one round of the loop; the answer says that it was the last
  unfoldable pub http_round : Exec (HttpSession C) Bool
  unfolding on_event
  http_round = do event ← on_parser h11.next_event; on_event event; pure (is_need_data event)

  abbrev pub after_round :
      Result Bool × HttpSession C
      → (HttpSession C → Option (Result (Unit {0}) × HttpSession C))
      → Option (Result (Unit {0}) × HttpSession C)
  after_round (ok true, s) rest = some (ok tt, s)
  after_round (ok false, s) rest = rest s
  after_round (err e, s) rest = some (err e, s)

  unfoldable pub http_loop : ℕ → HttpSession C → Option (Result (Unit {0}) × HttpSession C)
  unfolding http_round
  http_loop zero s = none
  http_loop (suc fuel) s = after_round (http_round s) (http_loop fuel)

  abbrev pub after_receive :
      ℕ → Result (Unit {0}) × HttpSession C → Option (Result (Unit {0}) × HttpSession C)
  after_receive fuel (ok u, s) = http_loop fuel s
  after_receive fuel (err e, s) = some (err e, s)

  -- `_data_received`
  unfoldable pub receive_events :
      ℕ → Bytes → HttpSession C → Option (Result (Unit {0}) × HttpSession C)
  unfolding http_loop
  receive_events fuel received s = after_receive fuel (on_parser (h11.receive_data received) s)

  -- `except Exception as e`
  abbrev pub on_exception : Error → Exec (HttpSession C) (Unit {0})
  on_exception e = do send_http_internal_server_error; on_http_transport close; raise e

  abbrev pub recover : Result (Unit {0}) × HttpSession C → Result (Unit {0}) × HttpSession C
  recover (ok u, s) = (ok u, s)
  recover (err e, s) = on_exception e s

  abbrev pub recover_ending :
      Option (Result (Unit {0}) × HttpSession C) → Option (Result (Unit {0}) × HttpSession C)
  recover_ending none = none
  recover_ending (some ending) = some (recover ending)

  unfoldable pub http_data_received :
      ℕ → Bytes → HttpSession C → Option (Result (Unit {0}) × HttpSession C)
  unfolding receive_events send_http_internal_server_error
  http_data_received fuel received s = recover_ending (receive_events fuel received s)
