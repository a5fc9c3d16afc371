-- ===== src/State/Reading.antt =====
-- service/state.py: what the inspector reads of the messages.
use mock_amqp_server.Prelude.{◌≡◌, refl, Option, none, some, List, [], ◌∷◌, ◌++◌, sym, str_keys}
use mock_amqp_server.Dict.{get}
use mock_amqp_server.Python.{Str, Result, ok, err, name_error, unicode_error, attribute_error, text}
use mock_amqp_server.Python.Results.{◌>>=◌}
use mock_amqp_server.Python.Utf8.{decode}
use mock_amqp_server.Serialization.{Value, str, bytes, obj, field, end}
use mock_amqp_server.State.{State, Message}

-- `except UnicodeDecodeError`: the module base64, which the handler needs, is not imported
abbrev pub or_base64 : Result Str → Result Value
or_base64 (ok s) = ok (str s)
or_base64 (err unicode_error) = err name_error
or_base64 (err e) = err e

-- `message['body'].decode('utf-8')`; only bytes can be decoded
abbrev pub text_of : Value → Result Value
text_of (bytes b) = or_base64 (decode b)
text_of v = err attribute_error

-- the deep copy of the messages, with the bodies as texts
unfoldable pub base64encode_message_in_list_when_appliable : List Message → Result (List Message)
base64encode_message_in_list_when_appliable [] = ok []
base64encode_message_in_list_when_appliable (message ∷ messages) = do
  body ← text_of message.body
  rest ← base64encode_message_in_list_when_appliable messages
  ok (record message { body = body } ∷ rest)

unfoldable pub get_messages_of_queue : Str → State → Result (Option (List Message))
unfolding base64encode_message_in_list_when_appliable
get_messages_of_queue queue_name s = elim (get queue_name s.queues) [
  | none ↦ ok none
  | some queue ↦ (do
    messages ← base64encode_message_in_list_when_appliable queue.messages
    ok (some messages))
]

unfoldable pub get_messages_of_exchange : Str → State → Result (Option (List Message))
unfolding base64encode_message_in_list_when_appliable
get_messages_of_exchange exchange_name s = elim (get exchange_name s.exchanges) [
  | none ↦ ok none
  | some exchange ↦ (do
    messages ← base64encode_message_in_list_when_appliable exchange.messages
    ok (some messages))
]

-- a message is the dictionary of its two fields
abbrev pub message_value : Message → Value
message_value message =
    obj (field (text "headers") message.headers (field (text "body") message.body end))

-- Reading is message by message.
abbrev pub joined : Result (List Message) → Result (List Message) → Result (List Message)
joined r q = do front ← r; rest ← q; ok (front ++ rest)

joined-nil : (q : Result (List Message)) → joined (ok []) q ≡ q
joined-nil (ok m) = refl
joined-nil (err e) = refl

abbrev before : Message → Value → Result (List Message) → Result (List Message)
before x body r = do rest ← r; ok (record x { body = body } ∷ rest)

joined-before :
    (x : Message) (body : Value) (r q : Result (List Message))
    → before x body (joined r q) ≡ joined (before x body r) q
joined-before x body (ok l) (ok m) = refl
joined-before x body (ok l) (err e) = refl
joined-before x body (err e) q = refl

joined-text :
    (x : Message) (b : Result Value) (r q : Result (List Message))
    → (do body ← b; before x body (joined r q)) ≡ joined (do body ← b; before x body r) q
joined-text x (ok body) r q = joined-before x body r q
joined-text x (err e) r q = refl

pub read-append :
    (l m : List Message)
    → base64encode_message_in_list_when_appliable (l ++ m)
      ≡ joined
          (base64encode_message_in_list_when_appliable l)
          (base64encode_message_in_list_when_appliable m)
unfolding base64encode_message_in_list_when_appliable
read-append [] m = sym (joined-nil (base64encode_message_in_list_when_appliable m))
read-append (x ∷ l) m = rw (read-append l m) (
    joined-text x (text_of x.body) (base64encode_message_in_list_when_appliable l)
      (base64encode_message_in_list_when_appliable m))

pub read-one :
    (m : Message)
    → base64encode_message_in_list_when_appliable (m ∷ [])
      ≡ (do body ← text_of m.body; ok (record m { body = body } ∷ []))
unfolding base64encode_message_in_list_when_appliable
read-one m = refl
