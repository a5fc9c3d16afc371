-- ===== src/Http/Failures.antt =====
-- service/http_protocol.py: what `data_received` does with an exception.
use mock_amqp_server.Prelude.{ℕ, suc, ◌≡◌, refl, true, some, [], ◌∷◌, ◌++◌, length, append_assoc}
use mock_amqp_server.Python.{Bytes, Error, ok, err, text}
use mock_amqp_server.Python.Sets.{Runtime}
use mock_amqp_server.Python.Decimals.{str_of}
use mock_amqp_server.Serialization.{Codec}
use mock_amqp_server.State.Json.{Json}
use mock_amqp_server.Sender.Transport.{Transport, write_call, close_call}
use mock_amqp_server.Http.{H11, Clock, Outgoing, response, content, HttpSession, line}
use mock_amqp_server.Http.Received.{receive_events, http_data_received}

-- the head and the body of the answer to an exception
abbrev pub error_body : Bytes
error_body = line (text "internal server error")

abbrev pub error_head : Bytes → Outgoing
error_head date = response 500 (
    (text "Date", date)
    ∷ (text "Server", text "whatever")
    ∷ (text "Content-Length", str_of (length error_body))
    ∷ (text "Connection", text "close")
    ∷ [])

-- the transport behind the answer and `close()`
abbrev pub answered : Bytes → Bytes → Transport → Transport
answered head body t = record {
  calls = t.calls ++ (write_call head ∷ write_call body ∷ close_call ∷ []);
  closing = true;
}

module _ {C : Type 0} ⦃h11 : H11 C⦄ ⦃clock : Clock⦄ ⦃json : Json⦄ ⦃codec : Codec⦄
    ⦃runtime : Runtime⦄ where
  open clock use {format_date_time}

  -- When h11 or a handler raises, with the session `t` left, the connection answers 500, is closed,
  -- and the exception is raised again; the broker, the request and the state are left as they were
  -- at the exception, the coroutines too. If h11 refuses to send the head of this answer, as it does
  -- behind another answer, then its own exception is raised, nothing is written and the connection
  -- is not closed.
  pub http_data_received-raises :
      (fuel : ℕ) (received : Bytes) (s t : HttpSession C) (e : Error)
      → receive_events fuel received s ≡ some (err e, t)
      → ((head body : Bytes) (c d : C)
          → h11.send (error_head (format_date_time t.moments)) t.http_parser ≡ (ok head, c)
          → h11.send (content error_body) c ≡ (ok body, d)
          → http_data_received fuel received s
            ≡ some (
              err e,
              record t {
                http_parser = d;
                transport = answered head body t.transport;
                moments = suc t.moments;
              },
            ))
        × ((x : Error) (c : C)
            → h11.send (error_head (format_date_time t.moments)) t.http_parser ≡ (err x, c)
            → http_data_received fuel received s
              ≡ some (err x, record t { http_parser = c; moments = suc t.moments }))
  unfolding http_data_received
  http_data_received-raises fuel received s t e raised = (
    λ head body c d sent sent'. rw raised (rw sent (rw sent' (simp append_assoc))),
    λ x c refused. rw raised (rw refused refl),
  )
