-- ===== src/Http/Gets.antt =====
-- service/http_protocol.py: the routes of GET, and the answers to the waits.
use mock_amqp_server.Prelude.{
  ℕ, ◌≡◌, refl, true, false, All, Option, none, some, List, [], ◌∷◌, ◌++◌, arith, nat_eq, str_eq,
  str_keys, nat_keys,
}
use mock_amqp_server.Dict.{Dict, contains, get}
use mock_amqp_server.Python.{Str, Bytes, Error, Result, ok, err, text, type_error, continue}
use mock_amqp_server.Python.Sets.{Runtime}
use mock_amqp_server.Python.Texts.{split}
use mock_amqp_server.Python.Utf8.{decode, IsText, decode-encode}
use mock_amqp_server.Python.Decimals.{
  pos, str_of, str_of-IsAscii, encode-ascii, IsAscii, int_of-str_of,
}
use mock_amqp_server.State.{Queue, Message}
use mock_amqp_server.State.Reading.{get_messages_of_queue, get_messages_of_exchange}
use mock_amqp_server.State.Json.{Json, to_json, queues_value}
use mock_amqp_server.Http.{
  H11, Clock, Wait, authentication, acknowledged, not_acknowledged, requeued, queue_bound,
  HttpSession, send_http_response_not_found, send_http_response_ok,
}
use mock_amqp_server.Http.Requests.{on_get, answer_tag, answer_messages, messages_body}
use mock_amqp_server.Http.Posts.{split-zero, split-one}

IsAscii-IsText : (s : Str) → IsAscii s → IsText s
IsAscii-IsText [] a = tt
IsAscii-IsText (c ∷ s) a = ((omega arith), IsAscii-IsText s a.1)

-- the coroutine is started, and no answer is written yet
abbrev pub started : {C : Type 0} → Wait → HttpSession C → Result (Unit {0}) × HttpSession C
started wait s = (ok tt, record s { futures = s.futures ++ (wait ∷ []) })

decode-str_of : (n : ℕ) → decode (str_of n) ≡ ok (str_of n)
decode-str_of n =
    decode-encode (str_of n) (str_of n) (IsAscii-IsText (str_of n) (str_of-IsAscii n))
      (encode-ascii (str_of n) (str_of-IsAscii n))

deque_not_json :
    (q : Str) (d : Dict Str Queue) → contains q d ≡ true → queues_value d ≡ err type_error
unfolding get
deque_not_json q [] h = cc
deque_not_json q (entry ∷ d) h = refl

module _ {C : Type 0} ⦃h11 : H11 C⦄ ⦃clock : Clock⦄ ⦃json : Json⦄ ⦃runtime : Runtime⦄ where
  -- The decimals that a POST answers with for a delivery tag, put behind one of the three routes
  -- that wait for a message, are read as that tag: the coroutine that is started waits for it.
  pub on_get-answer_tag :
      (n : ℕ) (s : HttpSession C)
      → (answer_tag (some n) s ≡ send_http_response_ok (str_of n) s)
        × (on_get (text "/messages-acknowledged/" ++ str_of n) s ≡ started (acknowledged (pos n)) s)
        × (on_get (text "/messages-not-acknowledged/" ++ str_of n) s
            ≡ started (not_acknowledged (pos n)) s)
        × (on_get (text "/messages-requeued/" ++ str_of n) s ≡ started (requeued (pos n)) s)
  unfolding on_get split str_eq
  on_get-answer_tag n s = (
    rw (encode-ascii (str_of n) (str_of-IsAscii n)) refl,
    rw (split-zero 47 (str_of n)) (rw (decode-str_of n) (rw (int_of-str_of n) refl)),
    rw (split-zero 47 (str_of n)) (rw (decode-str_of n) (rw (int_of-str_of n) refl)),
    rw (split-zero 47 (str_of n)) (rw (decode-str_of n) (rw (int_of-str_of n) refl)),
  )

  get-authentication :
      (name : Bytes) (s : HttpSession C)
      → on_get (text "/authentification-done-with-success-on/" ++ name) s
        ≡ started (authentication name) s
  unfolding on_get split str_eq
  get-authentication name s = rw (split-zero 47 name) refl

  get-queue_bound :
      (queue exchange : Bytes) (q x : Str) (s : HttpSession C)
      → All (λ c. nat_eq c 47 ≡ false) queue
      → decode queue ≡ ok q
      → decode exchange ≡ ok x
      → on_get (text "/queue-bound-to-exchange/" ++ queue ++ 47 ∷ exchange) s
        ≡ started (queue_bound q x) s
  unfolding on_get split str_eq
  get-queue_bound queue exchange q x s plain e f =
      rw (split-one 47 queue exchange plain) (rw (e, f) refl)

  -- what is answered to a reading of messages
  abbrev pub AnswersMessages :
      Result (Option (List Message)) → HttpSession C → Result (Unit {0}) × HttpSession C → Type 0
  AnswersMessages read s answer =
      ((ms : List Message) (body : Bytes)
        → read ≡ ok (some ms)
        → messages_body ms ≡ ok body
        → answer ≡ send_http_response_ok body s)
      × (read ≡ ok none → answer ≡ send_http_response_not_found s)
      × ((e : Error) → read ≡ err e → answer ≡ (err e, s))

  get-messages :
      (read : Result (Option (List Message))) (s : HttpSession C)
      → AnswersMessages read s (continue read answer_messages s)
  get-messages read s = (λ ms body e f. rw e (rw f refl), λ e. rw e refl, λ x e. rw e refl)

  get-debug :
      (q : Str) (s : HttpSession C)
      → contains q s.world.global_state.queues ≡ true
      → on_get (text "/") s ≡ (err type_error, s)
  unfolding on_get str_eq to_json
  get-debug q s h = rw (deque_not_json q s.world.global_state.queues h) refl

  -- A GET with a name that is UTF-8 reads the messages of the queue or the exchange, as its target
  -- says: it answers 200 with their JSON form, where they have one, and 404 if the queue or the
  -- exchange is not there, and raises what the reading raises; nothing else is changed. The routes
  -- for a login and for a binding, whose queue has no slash in its name and whose exchange stands
  -- behind the next one, start a wait for these names and answer nothing yet. The view of the
  -- whole state raises TypeError as soon as a queue is there, since its messages are a deque,
  -- which has no JSON form.
  pub on_get_lem :
      (name other : Bytes) (n m : Str) (s : HttpSession C)
      → decode name ≡ ok n
      → decode other ≡ ok m
      → AnswersMessages
          (get_messages_of_queue n s.world.global_state)
          s
          (on_get (text "/messages-in-queue/" ++ name) s)
        × AnswersMessages
            (get_messages_of_exchange n s.world.global_state)
            s
            (on_get (text "/messages-in-exchange/" ++ name) s)
        × (on_get (text "/authentification-done-with-success-on/" ++ name) s
            ≡ started (authentication name) s)
        × (All (λ c. nat_eq c 47 ≡ false) name
            → on_get (text "/queue-bound-to-exchange/" ++ name ++ 47 ∷ other) s
              ≡ started (queue_bound n m) s)
        × ((q : Str)
            → contains q s.world.global_state.queues ≡ true
            → on_get (text "/") s ≡ (err type_error, s))
  unfolding on_get split str_eq
  on_get_lem name other n m s e f = (
    rw (split-zero 47 name) (rw e (get-messages (get_messages_of_queue n s.world.global_state) s)),
    rw (split-zero 47 name)
        (rw e (get-messages (get_messages_of_exchange n s.world.global_state) s)),
    get-authentication name s,
    λ plain. get-queue_bound name other n m s plain e f,
    λ q there. get-debug q s there,
  )
