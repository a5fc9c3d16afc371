-- ===== src/Http.antt =====
-- service/http_protocol.py: the object of a connection of the inspector, and its responses. h11 is
-- a parameter: an object of its own that is given bytes and answers with events, and that turns a
-- response into bytes.
pub mod Messages
pub mod Futures
pub mod Requests
pub mod Received
pub mod Keeping
pub mod Handling
pub mod Reached
pub mod Ends
pub mod Posts
pub mod Gets
pub mod Waits
pub mod Bodies
pub mod Failures
use mock_amqp_server.Prelude.{ℕ, suc, Option, none, some, List, [], ◌∷◌, ◌++◌, length}
use mock_amqp_server.Python.{Str, Bytes, Result, ok, err, text, Exec, ◌>>=◌, ◌>>◌}
use mock_amqp_server.Python.Decimals.{ℤ, str_of}
use mock_amqp_server.Sender.Transport.{Transport, write, close}
use mock_amqp_server.State.{State}
use mock_amqp_server.Publishing.{World}

abbrev pub Headers : Type 0
Headers = List (Bytes × Bytes)

-- What `next_event` answers; `other_event` is any event that the source does not ask for.
pub data Event : Type 0 where
  request_event : Bytes → Bytes → Headers → Event
  data_event : Bytes → Event
  end_of_message need_data other_event : Event

-- `h11.Response` and `h11.Data`
pub data Outgoing : Type 0 where
  response : ℕ → Headers → Outgoing
  content : Bytes → Outgoing

-- `h11.Connection(h11.SERVER)`, with the exceptions that its methods raise
pub record H11 (C : Type 0) : Type 0 where
  pub receive_data : Bytes → Exec C (Unit {0})
  pub next_event : Exec C Event
  pub send : Outgoing → Exec C Bytes

-- `format_date_time(None).encode("ascii")`, the n-th time that it is called
pub record Clock : Type 0 where
  pub format_date_time : ℕ → Bytes

-- `_RequestState`
pub data RequestState : Type 0 where
  waiting_headers waiting_body : RequestState

-- `_method`, `_target` and `_headers`, which are set together and reset to None together
pub record Request : Type 0 where
  pub method : Bytes
  pub target : Bytes
  pub headers : Headers

-- The coroutines that `_on_get` hands to `asyncio.ensure_future`.
pub data Wait : Type 0 where
  authentication : Bytes → Wait
  acknowledged not_acknowledged requeued : ℤ → Wait
  queue_bound : Str → Str → Wait

-- `world` holds the broker's state, which the connections share. `futures` are the coroutines that
-- this connection has started.
pub record HttpSession (C : Type 0) : Type 0 where
  pub world : World
  pub http_parser : C
  pub transport : Transport
  pub state : RequestState
  pub request : Option Request
  pub futures : List Wait
  pub moments : ℕ

module _ {C : Type 0} where
  -- `__init__`, and `connection_made` with the transport
  unfoldable pub connection_made : World → C → Transport → HttpSession C
  connection_made w c t = record {
    world = w;
    http_parser = c;
    transport = t;
    state = waiting_headers;
    request = none;
    futures = [];
    moments = 0;
  }

  abbrev pub on_world : {A : Type 0} → Exec World A → Exec (HttpSession C) A
  on_world m s = let (r, w) = m s.world in (r, record s { world = w })

  abbrev pub on_broker : (State → State) → Exec (HttpSession C) (Unit {0})
  on_broker f s =
      (ok tt, record s { world = record s.world { global_state = f s.world.global_state } })

  abbrev pub on_parser : {A : Type 0} → Exec C A → Exec (HttpSession C) A
  on_parser m s = let (r, c) = m s.http_parser in (r, record s { http_parser = c })

  abbrev pub on_http_transport : Exec Transport (Unit {0}) → Exec (HttpSession C) (Unit {0})
  on_http_transport m s = let (r, t) = m s.transport in (r, record s { transport = t })

-- with a newline at the end
abbrev pub line : Str → Bytes
line s = s ++ (10 ∷ [])

module _ {C : Type 0} ⦃h11 : H11 C⦄ ⦃clock : Clock⦄ where
  open clock use {format_date_time}

  abbrev pub read_date : Exec (HttpSession C) Bytes
  read_date s = (ok (format_date_time s.moments), record s { moments = suc s.moments })

  unfoldable pub send_http_response_no_content : Exec (HttpSession C) (Unit {0})
  send_http_response_no_content = do
    date ← read_date
    head ← on_parser (
        h11.send (
          response 204 (
            (text "Date", date)
            ∷ (text "Server", text "whatever")
            ∷ (text "Content-Length", text "0")
            ∷ (text "Connection", text "close")
            ∷ [])))
    on_http_transport (write head)

  unfoldable pub send_http_response_with_body : ℕ → Bytes → Exec (HttpSession C) (Unit {0})
  send_http_response_with_body status_code body = do
    date ← read_date
    head ← on_parser (
        h11.send (
          response status_code (
            (text "Date", date)
            ∷ (text "Server", text "whatever")
            ∷ (text "Content-Length", str_of (length body))
            ∷ (text "Connection", text "close")
            ∷ [])))
    body_data ← on_parser (h11.send (content body))
    on_http_transport (write head)
    on_http_transport (write body_data)

  unfoldable pub send_http_response_with_json_body : ℕ → Bytes → Exec (HttpSession C) (Unit {0})
  send_http_response_with_json_body status_code body = do
    date ← read_date
    head ← on_parser (
        h11.send (
          response status_code (
            (text "Date", date)
            ∷ (text "Server", text "whatever")
            ∷ (text "Content-Length", str_of (length body))
            ∷ (text "Content-Type", text "application/json")
            ∷ (text "Connection", text "close")
            ∷ [])))
    body_data ← on_parser (h11.send (content body))
    on_http_transport (write head)
    on_http_transport (write body_data)

  unfoldable pub send_http_response_forbidden : Exec (HttpSession C) (Unit {0})
  unfolding send_http_response_with_body
  send_http_response_forbidden = send_http_response_with_body 403 (line (text "forbidden"))

  unfoldable pub send_http_response_timeout : Exec (HttpSession C) (Unit {0})
  unfolding send_http_response_with_body
  send_http_response_timeout = send_http_response_with_body 504 (line (text "timeout"))

  unfoldable pub send_http_response_not_found : Exec (HttpSession C) (Unit {0})
  unfolding send_http_response_with_body
  send_http_response_not_found = send_http_response_with_body 404 (line (text "not found"))

  unfoldable pub send_http_response_ok : Bytes → Exec (HttpSession C) (Unit {0})
  unfolding send_http_response_with_body
  send_http_response_ok body = send_http_response_with_body 200 (line body)

  unfoldable pub send_http_internal_server_error : Exec (HttpSession C) (Unit {0})
  unfolding send_http_response_with_body
  send_http_internal_server_error =
      send_http_response_with_body 500 (line (text "internal server error"))
