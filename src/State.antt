-- ===== src/State.antt =====
-- service/state.py: the broker's state and the methods that touch nothing else.
pub mod Invariant
pub mod Transfer
pub mod Delivery
pub mod Answers
pub mod Wait
pub mod Logins
pub mod Queues
pub mod Reading
pub mod Json
use mock_amqp_server.Prelude.{
  ℕ, Bool, true, false, Option, none, some, List, [], ◌∷◌, ◌++◌, ◌==◌, str_keys, nat_keys,
  if◌then◌else◌,
}
use mock_amqp_server.Dict.{Dict, get, put, contains}
use mock_amqp_server.Python.{Str, Result, ok, err, key_error, text}
use mock_amqp_server.Python.Sets.{Runtime, add}
use mock_amqp_server.Serialization.{Value}

-- `{'headers': headers, 'body': message_data}`
pub record Message : Type 0 where
  pub headers : Value
  pub body : Value

pub record Exchange : Type 0 where
  pub type : Str
  pub messages : List Message

-- `protocol` is the number of the connection that consumes.
pub record Consumer : Type 0 where
  pub protocol : ℕ
  pub channel_number : ℕ

pub record Queue : Type 0 where
  pub messages : List Message
  pub consumers : Dict Str Consumer

pub record State : Type 0 where
  pub users : Dict Str Str
  pub exchanges : Dict Str Exchange
  pub queues : Dict Str Queue
  pub queues_bound_exchanges : Dict Str (List Str)
  pub authentication_tried_on : Dict Str Bool
  pub message_acknowledged : List ℕ
  pub message_not_acknowledged : List ℕ
  pub message_requeued : List ℕ

module _ ⦃runtime : Runtime⦄ where
  -- `State()`
  unfoldable pub init : State
  init = record {
    users = (runtime.default_user, runtime.default_password) ∷ [];
    exchanges = ([], record { type = text "direct"; messages = [] }) ∷ [];
    queues = [];
    queues_bound_exchanges = [];
    authentication_tried_on = [];
    message_acknowledged = [];
    message_not_acknowledged = [];
    message_requeued = [];
  }

  unfoldable pub reset : State → State
  reset s = record s {
    users = (runtime.default_user, runtime.default_password) ∷ [];
    exchanges = ([], record { type = text "direct"; messages = [] }) ∷ [];
    queues = [];
    queues_bound_exchanges = [];
    authentication_tried_on = [];
    message_acknowledged = [];
    message_not_acknowledged = [];
    message_requeued = [];
  }

-- `self._users.get(username, None) == password`
abbrev pub is_password : Option Str → Str → Bool
is_password none password = false
is_password (some expected) password = expected == password

unfoldable pub check_credentials : Str → Str → State → Bool × State
check_credentials username password s =
    let is_authenticated = is_password (get username s.users) password in
    (
      is_authenticated,
      record s {
        authentication_tried_on = put username is_authenticated s.authentication_tried_on;
      },
    )

unfoldable pub declare_exchange : Str → Str → State → Bool × State
declare_exchange exchange_name exchange_type s = elim (get exchange_name s.exchanges) [
  | none ↦ (
    true,
    record s {
      exchanges = put exchange_name (record { type = exchange_type; messages = [] }) s.exchanges;
    },
  )
  | some exchange ↦ (exchange.type == exchange_type, s)
]

-- the set of the queues bound to an exchange, with one more
abbrev pub bound_with : Str → Option (List Str) → List Str
bound_with queue none = queue ∷ []
bound_with queue (some queues) = add queue queues

unfoldable pub bind_queue : Str → Str → State → Bool × State
bind_queue queue with_exchange s =
    if contains with_exchange s.exchanges
    then if contains queue s.queues
      then (
        true,
        record s {
          queues_bound_exchanges =
              put with_exchange (bound_with queue (get with_exchange s.queues_bound_exchanges))
                s.queues_bound_exchanges;
        },
      )
      else (false, s)
    else (false, s)

-- the answer is (ok, message count, consumer count)
unfoldable pub declare_queue : Str → State → (Bool × ℕ × ℕ) × State
unfolding bind_queue
declare_queue queue_name s =
    if contains queue_name s.queues
    then ((true, 0, 0), s)
    else let queues' = put queue_name (record { messages = []; consumers = [] }) s.queues in
      let (bound, s') = bind_queue queue_name [] (record s { queues = queues' }) in
      ((true, 0, 0), s')

unfoldable pub register_consumer : ℕ → Str → Str → ℕ → State → Bool × State
register_consumer consumer consumer_tag queue_name channel_number s =
    elim (get queue_name s.queues) [
      | none ↦ (false, s)
      | some queue ↦ (
        true,
        record s {
          queues =
              put queue_name
                (record queue {
                  consumers =
                      put consumer_tag
                        (record { protocol = consumer; channel_number = channel_number })
                        queue.consumers;
                })
                s.queues;
        },
      )
    ]

unfoldable pub delete_messages_of_queue : Str → State → State
delete_messages_of_queue queue_name s = elim (get queue_name s.queues) [
  | none ↦ s
  | some queue ↦ record s { queues = put queue_name (record queue { messages = [] }) s.queues }
]

unfoldable pub delete_messages_of_exchange : Str → State → State
delete_messages_of_exchange exchange_name s = elim (get exchange_name s.exchanges) [
  | none ↦ s
  | some exchange ↦ record s {
    exchanges = put exchange_name (record exchange { messages = [] }) s.exchanges;
  }
]

-- `self._queues[queue_name]['messages'].append(message)` for each name
unfoldable pub append_to_queues : Message → List Str → State → Result (Unit {0}) × State
append_to_queues message [] s = (ok tt, s)
append_to_queues message (queue_name ∷ rest) s = elim (get queue_name s.queues) [
  | none ↦ (err key_error, s)
  | some queue ↦ append_to_queues message rest (record s {
    queues = put queue_name (record queue { messages = queue.messages ++ (message ∷ []) }) s.queues;
  })
]

-- `self._queues_bound_exchanges.get(exchange_name, set())`
abbrev pub bound_queues : Str → State → List Str
bound_queues exchange_name s = elim (get exchange_name s.queues_bound_exchanges) [
  | none ↦ []
  | some queues ↦ queues
]

-- `self._exchanges[exchange_name]['messages'].append(message)`
abbrev pub append_to_exchange : Str → Exchange → Message → State → State
append_to_exchange exchange_name exchange message s = record s {
  exchanges =
      put exchange_name (record exchange { messages = exchange.messages ++ (message ∷ []) })
        s.exchanges;
}

abbrev pub finish : Bool → Result (Unit {0}) × State → Result Bool × State
finish answer (ok u, s) = (ok answer, s)
finish answer (err e, s) = (err e, s)

module _ ⦃runtime : Runtime⦄ where
  open runtime use {iterate}

  unfoldable pub store_message : Str → Value → Value → State → Result Bool × State
  store_message exchange_name headers message_data s = elim (get exchange_name s.exchanges) [
    | none ↦ (ok false, s)
    | some exchange ↦
        let message : Message = record { headers = headers; body = message_data } in
        let stored = append_to_exchange exchange_name exchange message s in
        finish true (append_to_queues message (iterate (bound_queues exchange_name stored)) stored)
  ]

unfoldable pub store_message_in_queue : Str → Value → Value → State → Bool × State
store_message_in_queue queue_name headers message_data s = elim (get queue_name s.queues) [
  | none ↦ (false, s)
  | some queue ↦ (
    true,
    record s {
      queues =
          put queue_name
            (record queue {
              messages = queue.messages ++ (record { headers = headers; body = message_data } ∷ []);
            })
            s.queues;
    },
  )
]

unfoldable pub message_ack : ℕ → State → State
message_ack delivery_tag s = record s {
  message_acknowledged = add delivery_tag s.message_acknowledged;
}

unfoldable pub message_nack : ℕ → Bool → State → State
message_nack delivery_tag requeue s =
    if requeue
    then record s { message_requeued = add delivery_tag s.message_requeued }
    else record s { message_not_acknowledged = add delivery_tag s.message_not_acknowledged }
