-- ===== src/Http/Keeping.antt =====
-- service/http_protocol.py: what the responses and the calls of the broker keep.
use mock_amqp_server.Prelude.{true, false, ℕ, Bool, Option, str_keys}
use mock_amqp_server.Python.{Bytes, Exec, Result, Str, err, ok, raise, text}
use mock_amqp_server.Python.Sets.{Runtime}
use mock_amqp_server.Python.Keeps.{Keeps, Keeps-if, keeps_rules}
use mock_amqp_server.Serialization.{Value, Codec}
use mock_amqp_server.State.{State}
use mock_amqp_server.State.Json.{Json}
use mock_amqp_server.Sender.Transport.{Transport}
use mock_amqp_server.Publishing.{World, Publication, publish_message, publish_message_in_queue}
use mock_amqp_server.Publishing.Reachable.{Step, publish_step, publish_in_queue_step}
use mock_amqp_server.Http.{
  H11, Clock, Outgoing, RequestState, Request, Wait, HttpSession, on_world, on_broker, on_parser,
  on_http_transport, line, read_date, send_http_response_no_content, send_http_response_with_body,
  send_http_response_with_json_body, send_http_response_not_found, send_http_response_ok,
  send_http_internal_server_error, send_http_response_forbidden, send_http_response_timeout,
}
use mock_amqp_server.Http.Futures.{on_get_done, is_wait_timeout, ensure_future}

-- A property of the broker, of the parser and of where the connection is in a request.
abbrev pub Property : Type 0 → Type 1
Property C = World → C → RequestState → Option Request → Type 0

abbrev pub Of : {C : Type 0} → Property C → HttpSession C → Type 0
Of Q s = Q s.world s.http_parser s.state s.request

-- What a handler may do to them keeps the property.
pub record Kept {C : Type 0} ⦃h11 : H11 C⦄ ⦃codec : Codec⦄ ⦃runtime : Runtime⦄ (Q : Property C)
    : Type 0 where
  pub sent :
      (o : Outgoing) (w : World) (c : C) (state : RequestState) (r : Option Request)
      → Q w c state r
      → Q w (h11.send o c).1 state r
  pub stepped :
      (w u : World) (c : C) (state : RequestState) (r : Option Request)
      → Step w u
      → Q w c state r
      → Q u c state r

module _ {C : Type 0} ⦃h11 : H11 C⦄ ⦃clock : Clock⦄ ⦃json : Json⦄ ⦃codec : Codec⦄
    ⦃runtime : Runtime⦄ {Q : Property C} (kept : Kept Q) where
  pub Keeps-send : (o : Outgoing) → Keeps (Of Q) (on_parser (h11.send o))
  Keeps-send o = record { at = λ s h. kept.sent o s.world s.http_parser s.state s.request h }

  pub Keeps-http_transport : (m : Exec Transport (Unit {0})) → Keeps (Of Q) (on_http_transport m)
  Keeps-http_transport m = record { at = λ s h. h }

  pub Keeps-date : Keeps (Of Q) read_date
  Keeps-date = record { at = λ s h. h }

  pub Keeps-ensure_future : (w : Wait) → Keeps (Of Q) (ensure_future w)
  Keeps-ensure_future w = record { at = λ s h. h }

  pub Keeps-on_broker :
      (f : State → State)
      → ((w : World) → Step w (record w { global_state = f w.global_state }))
      → Keeps (Of Q) (on_broker f)
  Keeps-on_broker f step = record {
    at = λ s h. kept.stepped s.world _ s.http_parser s.state s.request (step s.world) h;
  }

  pub Keeps-publish : (p : Publication) → Keeps (Of Q) (on_world (publish_message p))
  Keeps-publish p = record {
    at = λ s h. kept.stepped s.world _ s.http_parser s.state s.request (publish_step p s.world) h;
  }

  pub Keeps-publish_in_queue :
      (q : Str) (headers body : Value) (binary : Bool)
      → Keeps (Of Q) (on_world (publish_message_in_queue q headers body binary))
  Keeps-publish_in_queue q headers body binary = record {
    at = λ s h.
        kept.stepped s.world _ s.http_parser s.state s.request
          (publish_in_queue_step q headers body binary s.world) h;
  }

  pub Keeps-no_content : Keeps (Of Q) send_http_response_no_content
  unfolding send_http_response_no_content
  Keeps-no_content = search (keeps_rules, Keeps-send, Keeps-http_transport, Keeps-date) depth 9

  pub Keeps-with_body :
      (status : ℕ) (body : Bytes) → Keeps (Of Q) (send_http_response_with_body status body)
  unfolding send_http_response_with_body
  Keeps-with_body status body =
      search (keeps_rules, Keeps-send, Keeps-http_transport, Keeps-date) depth 12

  pub Keeps-with_json_body :
      (status : ℕ) (body : Bytes) → Keeps (Of Q) (send_http_response_with_json_body status body)
  unfolding send_http_response_with_json_body
  Keeps-with_json_body status body =
      search (keeps_rules, Keeps-send, Keeps-http_transport, Keeps-date) depth 12

  pub Keeps-not_found : Keeps (Of Q) send_http_response_not_found
  unfolding send_http_response_not_found
  Keeps-not_found = Keeps-with_body 404 (line (text "not found"))

  pub Keeps-ok : (body : Bytes) → Keeps (Of Q) (send_http_response_ok body)
  unfolding send_http_response_ok
  Keeps-ok body = Keeps-with_body 200 (line body)

  pub Keeps-internal_server_error : Keeps (Of Q) send_http_internal_server_error
  unfolding send_http_internal_server_error
  Keeps-internal_server_error = Keeps-with_body 500 (line (text "internal server error"))

  pub Keeps-get_done : (r : Result Bool) → Keeps (Of Q) (on_get_done r)
  unfolding on_get_done send_http_response_forbidden send_http_response_timeout
  Keeps-get_done (ok false) = Keeps-with_body 403 (line (text "forbidden"))
  Keeps-get_done (ok true) = Keeps-no_content
  Keeps-get_done (err e) =
      Keeps-if (is_wait_timeout e) _ (raise e) (Keeps-with_body 504 (line (text "timeout")))
        (record { at = λ s h. h })
