-- ===== src/Http/Posts.antt =====
-- service/http_protocol.py: the routes of POST and DELETE, and what they do to the broker.
use mock_amqp_server.Prelude.{
  ℕ, ◌≡◌, refl, ap, All, str_eq, nat_eq_iff, true, false, Option, none, some, Option-cases, inl,
  inr, List, [], ◌∷◌, ◌++◌, str_keys, nat_eq, if◌then◌else◌,
}
use mock_amqp_server.Python.{Str, Bytes, Error, Result, ok, err, text, continue}
use mock_amqp_server.Python.Sets.{Runtime}
use mock_amqp_server.Python.Texts.{split}
use mock_amqp_server.Python.Utf8.{decode}
use mock_amqp_server.Python.Decimals.{str_of, str_of-IsAscii, encode-ascii}
use mock_amqp_server.Serialization.{Codec, bytes, obj, end}
use mock_amqp_server.State.{
  State, Exchange, Queue, declare_exchange, declare_queue, delete_messages_of_queue,
  delete_messages_of_exchange,
}
use mock_amqp_server.Dict.{get, put, contains, get-put, eq_refl}
use mock_amqp_server.State.Reading.{get_messages_of_queue, get_messages_of_exchange}
use mock_amqp_server.State.Json.{Json}
use mock_amqp_server.Publishing.{World, Publication, publish_message, publish_message_in_queue}
use mock_amqp_server.Http.{
  Headers, H11, Clock, HttpSession, send_http_response_no_content, send_http_response_not_found,
  send_http_response_ok,
}
use mock_amqp_server.Http.Requests.{answer_tag, on_post, on_delete}

pub split-zero : (sep : ℕ) (s : Bytes) → split sep 0 s ≡ s ∷ []
unfolding split
split-zero sep [] = refl
split-zero sep (c ∷ s) = refl

queue-emptied :
    (q : Str) (s : State)
    → get_messages_of_queue q (delete_messages_of_queue q s)
      ≡ ok (if contains q s.queues then some [] else none)
unfolding get_messages_of_queue delete_messages_of_queue
queue-emptied q s = elim (Option-cases (get q s.queues)) [
  | inl e ↦ rw (e, delete_messages_of_queue, contains) (rw (e, get_messages_of_queue) refl)
  | inr (queue, e) ↦
      let fresh : Queue = record queue { messages = [] } in
      let back : get q (put q fresh s.queues) ≡ some fresh =
        rw (get-put q q fresh s.queues, eq_refl q) refl in
      rw (e, delete_messages_of_queue, contains) (rw (back, get_messages_of_queue) refl)
]

exchange-emptied :
    (x : Str) (s : State)
    → get_messages_of_exchange x (delete_messages_of_exchange x s)
      ≡ ok (if contains x s.exchanges then some [] else none)
unfolding get_messages_of_exchange delete_messages_of_exchange
exchange-emptied x s = elim (Option-cases (get x s.exchanges)) [
  | inl e ↦ rw (e, delete_messages_of_exchange, contains) (rw (e, get_messages_of_exchange) refl)
  | inr (exchange, e) ↦
      let fresh : Exchange = record exchange { messages = [] } in
      let back : get x (put x fresh s.exchanges) ≡ some fresh =
        rw (get-put x x fresh s.exchanges, eq_refl x) refl in
      rw (e, delete_messages_of_exchange, contains) (rw (back, get_messages_of_exchange) refl)
]

-- the broker's state behind `f`
abbrev pub changed : {C : Type 0} → (State → State) → HttpSession C → HttpSession C
changed f s = record s { world = record s.world { global_state = f s.world.global_state } }

pub split-one :
    (sep : ℕ) (name rest : Bytes)
    → All (λ c. nat_eq c sep ≡ false) name
    → split sep 1 (name ++ sep ∷ rest) ≡ name ∷ rest ∷ []
unfolding split
split-one sep [] rest h =
    rw ((nat_eq_iff sep sep).1 refl, split)
      (ap (λ (parts : List Bytes). [] ∷ parts) (split-zero sep rest))
split-one sep (c ∷ name) rest h = rw (h.0, split) (rw (split-one sep name rest h.1) refl)

-- the headers of a request with a binary body
abbrev pub octet_stream : Headers
octet_stream = (text "content-type", text "application/octet-stream") ∷ []

-- what such a request publishes
abbrev pub binary_message : Bytes → Str → Publication
binary_message received exchange_name = record {
  headers = obj end;
  message_data = bytes received;
  is_binary = true;
  exchange_name = exchange_name;
}

-- the answer to a publication
abbrev pub AnswersTag :
    {C : Type 0} ⦃h11 : H11 C⦄ ⦃clock : Clock⦄ ⦃json : Json⦄
    → Result (Option ℕ) × World
    → HttpSession C
    → Result (Unit {0}) × HttpSession C
    → Type 0
AnswersTag out s answer =
    ((tag : ℕ)
      → out.0 ≡ ok (some tag)
      → answer ≡ send_http_response_ok (str_of tag) (record s { world = out.1 }))
    × (out.0 ≡ ok none → answer ≡ send_http_response_not_found (record s { world = out.1 }))
    × ((e : Error) → out.0 ≡ err e → answer ≡ (err e, record s { world = out.1 }))

module _ {C : Type 0} ⦃h11 : H11 C⦄ ⦃clock : Clock⦄ ⦃json : Json⦄ ⦃codec : Codec⦄
    ⦃runtime : Runtime⦄ where
  post-create_queue :
      (name received : Bytes) (q : Str) (headers : Headers) (s : HttpSession C)
      → decode name ≡ ok q
      → on_post (text "/create-queue/" ++ name) received headers s
        ≡ send_http_response_ok (text "ok") (changed (λ t. (declare_queue q t).1) s)
  unfolding on_post split
  post-create_queue name received q headers s e = rw (split-zero 47 name) (rw e refl)

  post-create_exchange :
      (name kind received : Bytes) (x type : Str) (headers : Headers) (s : HttpSession C)
      → All (λ c. nat_eq c 47 ≡ false) name
      → decode name ≡ ok x
      → decode kind ≡ ok type
      → on_post (text "/create-exchange/" ++ name ++ 47 ∷ kind) received headers s
        ≡ send_http_response_ok (text "ok") (changed (λ t. (declare_exchange x type t).1) s)
  unfolding on_post split
  post-create_exchange name kind received x type headers s plain e f =
      rw (split-one 47 name kind plain) (rw (e, f) refl)

  answer_tag-AnswersTag :
      (out : Result (Option ℕ) × World) (s : HttpSession C)
      → AnswersTag out s (continue out.0 answer_tag (record s { world = out.1 }))
  answer_tag-AnswersTag out s = (
    λ tag e. rw e (rw (encode-ascii (str_of tag) (str_of-IsAscii tag)) refl),
    λ e. rw e refl,
    λ x e. rw e refl,
  )

  post-exchange_message :
      (name received : Bytes) (x : Str) (s : HttpSession C)
      → decode name ≡ ok x
      → on_post (text "/add-message-on/" ++ name) received octet_stream s ≡ (
          let out = publish_message (binary_message received x) s.world in
          continue out.0 answer_tag (record s { world = out.1 }))
  unfolding on_post split str_eq
  post-exchange_message name received x s e = rw (split-zero 47 name) (rw e refl)

  post-queue_message :
      (name received : Bytes) (q : Str) (s : HttpSession C)
      → decode name ≡ ok q
      → on_post (text "/add-message-in-queue/" ++ name) received octet_stream s ≡ (
          let out = publish_message_in_queue q (obj end) (bytes received) true s.world in
          continue out.0 answer_tag (record s { world = out.1 }))
  unfolding on_post split str_eq
  post-queue_message name received q s e = rw (split-zero 47 name) (rw e refl)

  -- A POST whose target is one of the four routes, with names that are UTF-8, does what the route
  -- says. `/create-queue/` declares the queue and `/create-exchange/` the exchange, whose name has
  -- no slash, with the type behind the next slash; both answer 200, also if an exchange of another
  -- type is there. The two routes for a message, if the only header gives the content type
  -- octet-stream, publish the bytes of the body to the exchange or into the queue; they answer 200
  -- with the delivery tag in decimals, 404 if there is none, and raise what the publication raises.
  pub on_post_lem :
      (name kind received : Bytes) (n type : Str) (headers : Headers) (s : HttpSession C)
      → decode name ≡ ok n
      → decode kind ≡ ok type
      → (on_post (text "/create-queue/" ++ name) received headers s
          ≡ send_http_response_ok (text "ok") (changed (λ t. (declare_queue n t).1) s))
        × (All (λ c. nat_eq c 47 ≡ false) name
            → on_post (text "/create-exchange/" ++ name ++ 47 ∷ kind) received headers s
              ≡ send_http_response_ok (text "ok") (changed (λ t. (declare_exchange n type t).1) s))
        × AnswersTag
            (publish_message (binary_message received n) s.world)
            s
            (on_post (text "/add-message-on/" ++ name) received octet_stream s)
        × AnswersTag
            (publish_message_in_queue n (obj end) (bytes received) true s.world)
            s
            (on_post (text "/add-message-in-queue/" ++ name) received octet_stream s)
  on_post_lem name kind received n type headers s e f = (
    post-create_queue name received n headers s e,
    λ plain. post-create_exchange name kind received n type headers s plain e f,
    rw (post-exchange_message name received n s e)
        (answer_tag-AnswersTag (publish_message (binary_message received n) s.world) s),
    rw (post-queue_message name received n s e) (
        answer_tag-AnswersTag (publish_message_in_queue n (obj end) (bytes received) true s.world)
          s),
  )

  -- A DELETE with a name that is UTF-8 empties the messages of the queue or of the exchange, as its
  -- target says, and answers 204. The inspector then reads no message of it if it is there, and
  -- still None if it is not: the answer is 204 all the same.
  pub on_delete_lem :
      (name : Bytes) (n : Str) (s : HttpSession C)
      → decode name ≡ ok n
      → (on_delete (text "/messages-in-queue/" ++ name) s
          ≡ send_http_response_no_content (changed (delete_messages_of_queue n) s))
        × (on_delete (text "/messages-in-exchange/" ++ name) s
            ≡ send_http_response_no_content (changed (delete_messages_of_exchange n) s))
        × (get_messages_of_queue n (delete_messages_of_queue n s.world.global_state)
            ≡ ok (if contains n s.world.global_state.queues then some [] else none))
        × (get_messages_of_exchange n (delete_messages_of_exchange n s.world.global_state)
            ≡ ok (if contains n s.world.global_state.exchanges then some [] else none))
  unfolding on_delete split
  on_delete_lem name n s e = (
    rw (split-zero 47 name) (rw e refl),
    rw (split-zero 47 name) (rw e refl),
    queue-emptied n s.world.global_state,
    exchange-emptied n s.world.global_state,
  )
