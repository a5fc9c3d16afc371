-- ===== src/State/Transfer.antt =====
-- service/state.py: the operations that keep the keys of the dictionaries, the bindings and the logins.
use mock_amqp_server.Prelude.{
  ℕ, Bool, true, false, ◌≡◌, refl, some, List, [], ◌∷◌, ◌++◌, str_keys, ◌∙◌, Option-cases, inl, inr,
  sym,
}
use mock_amqp_server.Dict.{get, put, contains, contains-put_same}
use mock_amqp_server.Python.{Str, Result, ok, err}
use mock_amqp_server.Python.Sets.{Runtime}
use mock_amqp_server.Serialization.{Value}
use mock_amqp_server.State.{
  State, Message, Exchange, Queue, register_consumer, delete_messages_of_queue,
  delete_messages_of_exchange, append_to_queues, append_to_exchange, bound_queues, store_message,
  store_message_in_queue, message_ack, message_nack, finish,
}
use mock_amqp_server.State.Invariant.{WellFormed}

-- `t` has the exchanges, the queues, the bindings and the recorded logins of `s`.
pub record SameKeys (s t : State) : Type 0 where
  pub exchanges : (x : Str) → contains x t.exchanges ≡ contains x s.exchanges
  pub queues : (q : Str) → contains q t.queues ≡ contains q s.queues
  pub bindings : t.queues_bound_exchanges ≡ s.queues_bound_exchanges
  pub tried : t.authentication_tried_on ≡ s.authentication_tried_on

pub SameKeys-refl : (s : State) → SameKeys s s
SameKeys-refl s = record {
  exchanges = λ x. refl;
  queues = λ q. refl;
  bindings = refl;
  tried = refl;
}

pub SameKeys-trans : {s t u : State} → SameKeys s t → SameKeys t u → SameKeys s u
SameKeys-trans a b = record {
  exchanges = λ x. b.exchanges x ∙ a.exchanges x;
  queues = λ q. b.queues q ∙ a.queues q;
  bindings = b.bindings ∙ a.bindings;
  tried = b.tried ∙ a.tried;
}

pub SameKeys-WellFormed : {s t : State} → SameKeys s t → WellFormed s → WellFormed t
SameKeys-WellFormed {s} {t} k w = record {
  default_exchange = k.exchanges [] ∙ w.default_exchange;
  bound_exchange = λ x h. k.exchanges x ∙ w.bound_exchange x (rw k.bindings at h);
  bound_queue = λ x q h. k.queues q ∙ w.bound_queue x q (rw k.bindings at h);
  bound_once = λ x q. rw k.bindings (w.bound_once x q);
  default_binding = λ q h. rw k.bindings (w.default_binding q (sym (k.queues q) ∙ h));
}

pub SameKeys-queue :
    (q : Str) (old new : Queue) (s : State)
    → get q s.queues ≡ some old
    → SameKeys s (record s { queues = put q new s.queues })
SameKeys-queue q old new s h = record {
  exchanges = λ x. refl;
  queues = λ p. contains-put_same q p new old s.queues h;
  bindings = refl;
  tried = refl;
}

pub SameKeys-exchange :
    (x : Str) (old new : Exchange) (s : State)
    → get x s.exchanges ≡ some old
    → SameKeys s (record s { exchanges = put x new s.exchanges })
SameKeys-exchange x old new s h = record {
  exchanges = λ y. contains-put_same x y new old s.exchanges h;
  queues = λ p. refl;
  bindings = refl;
  tried = refl;
}

pub append_to_queues-SameKeys :
    (m : Message) (names : List Str) (s : State) → SameKeys s (append_to_queues m names s).1
unfolding append_to_queues
append_to_queues-SameKeys m [] s = SameKeys-refl s
append_to_queues-SameKeys m (q ∷ names) s = elim (Option-cases (get q s.queues)) [
  | inl e ↦ rw (e, append_to_queues) (SameKeys-refl s)
  | inr (queue, e) ↦
      let new : Queue = record queue { messages = queue.messages ++ (m ∷ []) } in
      rw (e, append_to_queues)
        (SameKeys-trans (SameKeys-queue q queue new s e)
          (append_to_queues-SameKeys m names (record s { queues = put q new s.queues })))
]

pub register_consumer-SameKeys :
    (id : ℕ) (tag q : Str) (n : ℕ) (s : State) → SameKeys s (register_consumer id tag q n s).1
unfolding register_consumer
register_consumer-SameKeys id tag q n s = elim (Option-cases (get q s.queues)) [
  | inl e ↦ rw (e, register_consumer) (SameKeys-refl s)
  | inr (queue, e) ↦ rw (e, register_consumer) (SameKeys-queue q queue _ s e)
]

pub store_message_in_queue-SameKeys :
    (q : Str) (headers body : Value) (s : State)
    → SameKeys s (store_message_in_queue q headers body s).1
unfolding store_message_in_queue
store_message_in_queue-SameKeys q headers body s = elim (Option-cases (get q s.queues)) [
  | inl e ↦ rw (e, store_message_in_queue) (SameKeys-refl s)
  | inr (queue, e) ↦ rw (e, store_message_in_queue) (SameKeys-queue q queue _ s e)
]

pub delete_messages_of_queue-SameKeys :
    (q : Str) (s : State) → SameKeys s (delete_messages_of_queue q s)
unfolding delete_messages_of_queue
delete_messages_of_queue-SameKeys q s = elim (Option-cases (get q s.queues)) [
  | inl e ↦ rw (e, delete_messages_of_queue) (SameKeys-refl s)
  | inr (queue, e) ↦ rw (e, delete_messages_of_queue) (SameKeys-queue q queue _ s e)
]

pub delete_messages_of_exchange-SameKeys :
    (x : Str) (s : State) → SameKeys s (delete_messages_of_exchange x s)
unfolding delete_messages_of_exchange
delete_messages_of_exchange-SameKeys x s = elim (Option-cases (get x s.exchanges)) [
  | inl e ↦ rw (e, delete_messages_of_exchange) (SameKeys-refl s)
  | inr (exchange, e) ↦ rw (e, delete_messages_of_exchange) (SameKeys-exchange x exchange _ s e)
]

pub finish-state : (b : Bool) (r : Result (Unit {0}) × State) → (finish b r).1 ≡ r.1
finish-state b (ok u, s) = refl
finish-state b (err e, s) = refl

module _ ⦃runtime : Runtime⦄ where
  pub store_message-SameKeys :
      (x : Str) (headers body : Value) (s : State) → SameKeys s (store_message x headers body s).1
  unfolding store_message
  store_message-SameKeys x headers body s = elim (Option-cases (get x s.exchanges)) [
    | inl e ↦ rw (e, store_message) (SameKeys-refl s)
    | inr (exchange, e) ↦
        let m : Message = record { headers = headers; body = body } in
        let stored = append_to_exchange x exchange m s in
        rw (e, store_message, finish-state true)
          (SameKeys-trans (SameKeys-exchange x exchange _ s e)
            (append_to_queues-SameKeys m (runtime.iterate (bound_queues x stored)) stored))
  ]

pub message_ack-SameKeys : (tag : ℕ) (s : State) → SameKeys s (message_ack tag s)
unfolding message_ack
message_ack-SameKeys tag s = record {
  exchanges = λ x. refl;
  queues = λ q. refl;
  bindings = refl;
  tried = refl;
}

pub message_nack-SameKeys :
    (tag : ℕ) (requeue : Bool) (s : State) → SameKeys s (message_nack tag requeue s)
unfolding message_nack
message_nack-SameKeys tag true s = record {
  exchanges = λ x. refl;
  queues = λ q. refl;
  bindings = refl;
  tried = refl;
}
message_nack-SameKeys tag false s = record {
  exchanges = λ x. refl;
  queues = λ q. refl;
  bindings = refl;
  tried = refl;
}
