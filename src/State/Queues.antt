-- ===== src/State/Queues.antt =====
-- service/state.py: the messages and the consumers of a queue.
use mock_amqp_server.Prelude.{
  ℕ, ◌≡◌, Option, none, some, [], ◌∷◌, ◌++◌, arith, append-nil, str_keys, str_eq_iff, ◌&&◌, ◌==◌,
  if◌then◌else◌, refl, Option-cases, inl, inr,
}
use mock_amqp_server.Dict.{Dict, get, put, contains, get-put}
use mock_amqp_server.Python.{Str}
use mock_amqp_server.Serialization.{Value}
use mock_amqp_server.State.{
  State, Message, Queue, Exchange, Consumer, delete_messages_of_queue, delete_messages_of_exchange,
  store_message_in_queue, register_consumer,
}
use mock_amqp_server.State.Answers.{type_of_exchange}
use mock_amqp_server.State.Delivery.{messages_in_queue, messages_in_exchange}

abbrev pub consumers_of : Str → State → Dict Str Consumer
consumers_of q s = elim (get q s.queues) [ none ↦ [] | some queue ↦ queue.consumers ]

abbrev with_message : Message → Option Queue → Queue
with_message m none = record { messages = m ∷ []; consumers = [] }
with_message m (some queue) = record queue { messages = queue.messages ++ (m ∷ []) }

abbrev without_messages : Option Queue → Queue
without_messages none = record { messages = []; consumers = [] }
without_messages (some queue) = record queue { messages = [] }

messages-store :
    (q r : Str) (headers body : Value) (s : State)
    → messages_in_queue r (store_message_in_queue q headers body s).1 ≡ (
        messages_in_queue r s
        ++ (if q == r && contains q s.queues
            then record { headers = headers; body = body } ∷ []
            else []))
unfolding store_message_in_queue
messages-store q r headers body s = ground (
  arith,
  get-put q r (with_message (record { headers = headers; body = body }) (get q s.queues)) s.queues,
  str_eq_iff q r,
  append-nil (messages_in_queue r s),
)

consumers-store :
    (q r : Str) (headers body : Value) (s : State)
    → consumers_of r (store_message_in_queue q headers body s).1 ≡ consumers_of r s
unfolding store_message_in_queue
consumers-store q r headers body s = ground (
  arith,
  get-put q r (with_message (record { headers = headers; body = body }) (get q s.queues)) s.queues,
  str_eq_iff q r,
)

answer-store :
    (q : Str) (headers body : Value) (s : State)
    → (store_message_in_queue q headers body s).0 ≡ contains q s.queues
unfolding store_message_in_queue
answer-store q headers body s = ground arith

-- `store_message_in_queue` answers whether the queue is there. If it is, the message is appended to
-- its messages; no other queue's messages and no consumers change.
pub store_message_in_queue_lem :
    (q : Str) (headers body : Value) (s : State)
    → ((store_message_in_queue q headers body s).0 ≡ contains q s.queues)
      × ((r : Str)
          → messages_in_queue r (store_message_in_queue q headers body s).1 ≡ (
              messages_in_queue r s
              ++ (if q == r && contains q s.queues
                  then record { headers = headers; body = body } ∷ []
                  else [])))
      × ((r : Str) → consumers_of r (store_message_in_queue q headers body s).1 ≡ consumers_of r s)
store_message_in_queue_lem q headers body s = (
  answer-store q headers body s,
  λ r. messages-store q r headers body s,
  λ r. consumers-store q r headers body s,
)

messages-delete :
    (q r : Str) (s : State)
    → messages_in_queue r (delete_messages_of_queue q s)
      ≡ (if q == r then [] else messages_in_queue r s)
unfolding delete_messages_of_queue
messages-delete q r s =
    ground (arith, get-put q r (without_messages (get q s.queues)) s.queues, str_eq_iff q r)

consumers-delete :
    (q r : Str) (s : State) → consumers_of r (delete_messages_of_queue q s) ≡ consumers_of r s
unfolding delete_messages_of_queue
consumers-delete q r s =
    ground (arith, get-put q r (without_messages (get q s.queues)) s.queues, str_eq_iff q r)

abbrev emptied : Option Exchange → Exchange
emptied none = record { type = []; messages = [] }
emptied (some exchange) = record exchange { messages = [] }

exchange-delete :
    (x y : Str) (s : State)
    → messages_in_exchange y (delete_messages_of_exchange x s)
      ≡ (if x == y then [] else messages_in_exchange y s)
unfolding delete_messages_of_exchange
exchange-delete x y s =
    ground (arith, get-put x y (emptied (get x s.exchanges)) s.exchanges, str_eq_iff x y)

type-delete :
    (x y : Str) (s : State)
    → type_of_exchange y (delete_messages_of_exchange x s) ≡ type_of_exchange y s
unfolding delete_messages_of_exchange
type-delete x y s =
    ground (arith, get-put x y (emptied (get x s.exchanges)) s.exchanges, str_eq_iff x y)

-- what a deletion leaves alone
queues_only :
    (q : Str) (s : State)
    → delete_messages_of_queue q s ≡ record s { queues = (delete_messages_of_queue q s).queues }
unfolding delete_messages_of_queue
queues_only q s = elim (Option-cases (get q s.queues)) [
  | inl e ↦ rw (e, delete_messages_of_queue) refl
  | inr (queue, e) ↦ rw (e, delete_messages_of_queue) refl
]

exchanges_only :
    (x : Str) (s : State)
    → delete_messages_of_exchange x s
      ≡ record s { exchanges = (delete_messages_of_exchange x s).exchanges }
unfolding delete_messages_of_exchange
exchanges_only x s = elim (Option-cases (get x s.exchanges)) [
  | inl e ↦ rw (e, delete_messages_of_exchange) refl
  | inr (exchange, e) ↦ rw (e, delete_messages_of_exchange) refl
]

-- A deletion leaves no message in the queue or the exchange that it names, whether that is there or
-- not. The deletion in a queue changes the messages of no other queue and the consumers of none,
-- and nothing of the broker's state but its queues. The deletion in an exchange changes the
-- messages of no other exchange and the type of none, and nothing of the broker's state but its
-- exchanges.
pub delete_messages_lem :
    (q x : Str) (s : State)
    → ((r : Str)
        → messages_in_queue r (delete_messages_of_queue q s)
          ≡ (if q == r then [] else messages_in_queue r s))
      × ((r : Str) → consumers_of r (delete_messages_of_queue q s) ≡ consumers_of r s)
      × (delete_messages_of_queue q s ≡ record s { queues = (delete_messages_of_queue q s).queues })
      × ((y : Str)
          → messages_in_exchange y (delete_messages_of_exchange x s)
            ≡ (if x == y then [] else messages_in_exchange y s))
      × ((y : Str) → type_of_exchange y (delete_messages_of_exchange x s) ≡ type_of_exchange y s)
      × (delete_messages_of_exchange x s
          ≡ record s { exchanges = (delete_messages_of_exchange x s).exchanges })
delete_messages_lem q x s = (
  λ r. messages-delete q r s,
  λ r. consumers-delete q r s,
  queues_only q s,
  λ y. exchange-delete x y s,
  λ y. type-delete x y s,
  exchanges_only x s,
)

abbrev with_consumer : Str → Consumer → Option Queue → Queue
with_consumer tag c none = record { messages = []; consumers = [] }
with_consumer tag c (some queue) = record queue { consumers = put tag c queue.consumers }

consumers-register :
    (id : ℕ) (tag q r t : Str) (n : ℕ) (s : State)
    → get t (consumers_of r (register_consumer id tag q n s).1) ≡ (
        if contains q s.queues && (q == r && tag == t)
        then some (record { protocol = id; channel_number = n })
        else get t (consumers_of r s))
unfolding register_consumer
consumers-register id tag q r t n s = ground (
  arith,
  get-put q r (with_consumer tag (record { protocol = id; channel_number = n }) (get q s.queues))
      s.queues,
  get-put tag t (record { protocol = id; channel_number = n }) (consumers_of q s),
  str_eq_iff q r,
)

messages-register :
    (id : ℕ) (tag q r : Str) (n : ℕ) (s : State)
    → messages_in_queue r (register_consumer id tag q n s).1 ≡ messages_in_queue r s
unfolding register_consumer
messages-register id tag q r n s = ground (
  arith,
  get-put q r (with_consumer tag (record { protocol = id; channel_number = n }) (get q s.queues))
      s.queues,
  str_eq_iff q r,
)

-- If the queue is there, `register_consumer` makes the connection and its channel the consumer of
-- that queue under the tag, in place of an earlier one; all other consumers, and the messages of
-- all queues, stay.
pub register_consumer_lem :
    (id : ℕ) (tag q : Str) (n : ℕ) (s : State)
    → ((r t : Str)
        → get t (consumers_of r (register_consumer id tag q n s).1) ≡ (
            if contains q s.queues && (q == r && tag == t)
            then some (record { protocol = id; channel_number = n })
            else get t (consumers_of r s)))
      × ((r : Str) → messages_in_queue r (register_consumer id tag q n s).1 ≡ messages_in_queue r s)
register_consumer_lem id tag q n s =
    (λ r t. consumers-register id tag q r t n s, λ r. messages-register id tag q r n s)
