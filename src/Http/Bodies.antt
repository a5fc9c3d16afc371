-- ===== src/Http/Bodies.antt =====
-- service/http_protocol.py: the body of a POST, which h11 gives in as many events as it came in.
use mock_amqp_server.Prelude.{◌≡◌, refl, none, some, List, [], ◌∷◌, ◌++◌, str_keys, str_eq, map}
use mock_amqp_server.Python.{Bytes, Result, ok, err, text, Exec, pure, continue, ◌>>◌}
use mock_amqp_server.Python.Sets.{Runtime}
use mock_amqp_server.Serialization.{Codec}
use mock_amqp_server.State.Json.{Json}
use mock_amqp_server.Http.{
  Headers, H11, Clock, Event, request_event, data_event, end_of_message, waiting_headers,
  waiting_body, Request, HttpSession,
}
use mock_amqp_server.Http.Requests.{on_post}
use mock_amqp_server.Http.Received.{on_event, on_request}
use mock_amqp_server.Http.Handling.{Keeps-post}

-- the handler for each of the items in turn, until one raises
abbrev pub for_each :
    {C A : Type 0}
    → (A → Exec (HttpSession C) (Unit {0}))
    → List A
    → Exec (HttpSession C) (Unit {0})
for_each handle [] = pure tt
for_each handle (x ∷ xs) = do handle x; for_each handle xs

-- a connection at rest, and one that waits for the body of a request
abbrev pub at_rest : {C : Type 0} → HttpSession C → HttpSession C
at_rest s = record s { state = waiting_headers; request = none }

abbrev pub in_body : {C : Type 0} → Request → HttpSession C → HttpSession C
in_body request s = record s { state = waiting_body; request = some request }

-- a request that is read: an answer is the session that is left
abbrev pub end_request :
    {C : Type 0} → Result (Unit {0}) × HttpSession C → Result (Unit {0}) × HttpSession C
end_request (ok u, s) = (ok tt, at_rest s)
end_request (err e, s) = (err e, s)

abbrev pub post_request : Bytes → Headers → Request
post_request target headers = record { method = text "POST"; target = target; headers = headers }

-- the events of a body and its end
abbrev pub bodies : List Bytes → List Event
bodies chunks = map data_event chunks ++ end_of_message ∷ []

module _ {C : Type 0} ⦃h11 : H11 C⦄ ⦃clock : Clock⦄ ⦃json : Json⦄ ⦃codec : Codec⦄
    ⦃runtime : Runtime⦄ (target : Bytes) (headers : Headers) where
  abbrev InBody : HttpSession C → Type 0
  InBody s = (s.state ≡ waiting_body) × (s.request ≡ some (post_request target headers))

  data-step :
      (received : Bytes) (s : HttpSession C)
      → InBody s
      → on_event (data_event received) s ≡ on_post target received headers s
  unfolding on_event str_eq
  data-step received s h = rw (h.0, h.1, on_event) refl

  post-InBody :
      (received : Bytes) (s : HttpSession C)
      → InBody s
      → InBody (on_post target received headers s).1
  post-InBody received s h =
      (Keeps-post
          {Q = λ w c state r. (state ≡ waiting_body) × (r ≡ some (post_request target headers))}
          (record { sent = λ o w c state r h. h; stepped = λ w u c state r step h. h }) target
          received headers).at
        s h

  end-step : (s : HttpSession C) → InBody s → on_event end_of_message s ≡ (ok tt, at_rest s)
  unfolding on_event
  end-step s h = rw (h.0, on_event) refl

  next_chunk :
      (chunks : List Bytes) (out : Result (Unit {0}) × HttpSession C)
      → ((s : HttpSession C)
          → InBody s
          → for_each on_event (bodies chunks) s
            ≡ end_request (for_each (λ received. on_post target received headers) chunks s))
      → InBody out.1
      → continue out.0 (λ _. for_each on_event (bodies chunks)) out.1
        ≡ end_request (
            continue out.0
              (λ _. for_each (λ received. on_post target received headers) chunks)
              out.1)
  next_chunk chunks (ok u, s) rest h = rest s h
  next_chunk chunks (err e, s) rest h = refl

  each_chunk :
      (chunks : List Bytes) (s : HttpSession C)
      → InBody s
      → for_each on_event (bodies chunks) s
        ≡ end_request (for_each (λ received. on_post target received headers) chunks s)
  each_chunk [] s h = rw (end-step s h) refl
  each_chunk (received ∷ chunks) s h = rw (data-step received s h) (
      next_chunk chunks (on_post target received headers s) (each_chunk chunks)
        (post-InBody received s h))

  request-step :
      (s : HttpSession C)
      → s.state ≡ waiting_headers
      → on_event (request_event (text "POST") target headers) s
        ≡ (ok tt, in_body (post_request target headers) s)
  unfolding on_event on_request str_eq
  request-step s e = rw (e, on_event) refl

  -- A POST that comes to a connection at rest calls the handler of its route once for each event
  -- with bytes of its body, and with these bytes alone. So the handler is not called at all if the
  -- body is empty, and called several times if the body comes in several events. A call that raises
  -- is the last; else the connection is at rest again at the end of the request.
  pub on_event-post :
      (chunks : List Bytes) (s : HttpSession C)
      → s.state ≡ waiting_headers
      → for_each on_event (request_event (text "POST") target headers ∷ bodies chunks) s
        ≡ end_request (
            for_each
              (λ received. on_post target received headers)
              chunks
              (in_body (post_request target headers) s))
  on_event-post chunks s e =
      rw (request-step s e)
        (each_chunk chunks (in_body (post_request target headers) s) (refl, refl))
