-- ===== src/Publishing/Reachable.antt =====
-- service/state.py: all methods as steps, and the states that they reach.
use mock_amqp_server.Prelude.{
  ℕ, ◌≡◌, refl, Bool, Option, none, some, List, [], ◌∷◌, str_keys, Option-cases, inl, inr,
}
use mock_amqp_server.Dict.{get}
use mock_amqp_server.Python.{Str, Result, ok, err, continue, pure, modify, ◌>>◌}
use mock_amqp_server.Python.Sets.{Runtime}
use mock_amqp_server.Serialization.{Value, Codec}
use mock_amqp_server.State.{
  State, Queue, init, reset, check_credentials, declare_exchange, declare_queue, bind_queue,
  register_consumer, delete_messages_of_queue, delete_messages_of_exchange, store_message,
  store_message_in_queue, message_ack, message_nack, append_to_exchange, bound_queues,
}
use mock_amqp_server.State.Invariant.{
  WellFormed, init-WellFormed, check_credentials-WellFormed, declare_exchange-WellFormed,
  declare_queue-WellFormed, bind_queue-WellFormed,
}
use mock_amqp_server.State.Transfer.{
  SameKeys, SameKeys-refl, SameKeys-trans, SameKeys-WellFormed, SameKeys-queue, SameKeys-exchange,
  register_consumer-SameKeys, delete_messages_of_queue-SameKeys,
  delete_messages_of_exchange-SameKeys, store_message-SameKeys, store_message_in_queue-SameKeys,
  message_ack-SameKeys, message_nack-SameKeys,
}
use mock_amqp_server.Sender.Transport.{Transport}
use mock_amqp_server.Publishing.{
  World, Publication, message_of, serve, clean, serve_queue, serve_first, publish_message,
  publish_message_in_queue,
}
use mock_amqp_server.Publishing.Exchanges.{serve-state, publish_message-step, publish_message-none}
use mock_amqp_server.Publishing.InQueue.{in_queue, appended, publish_message_in_queue-step}

module _ ⦃codec : Codec⦄ ⦃runtime : Runtime⦄ where
  open runtime use {iterate}

  after_serve-SameKeys :
      (q : Str) (queue : Queue) (out : Result (Option ℕ × List Str) × World) (s : State)
      → get q s.queues ≡ some queue
      → out.1.global_state ≡ s
      → SameKeys s
          (continue out.0
            (λ (found : Option ℕ × List Str). modify (clean q queue found.1) >> pure found.0)
            out.1).1.global_state
  after_serve-SameKeys q queue (ok (tag, dead), w) s e same =
      rw⁻¹ same (SameKeys-queue q queue _ w.global_state (rw same e))
  after_serve-SameKeys q queue (err x, w) s e same = rw same (SameKeys-refl s)

  serve_queue-SameKeys :
      (p : Publication) (q : Str) (w : World)
      → SameKeys w.global_state (serve_queue p q w).1.global_state
  unfolding serve_queue
  serve_queue-SameKeys p q w = elim (Option-cases (get q w.global_state.queues)) [
    | inl e ↦ rw (e, serve_queue) (SameKeys-refl w.global_state)
    | inr (queue, e) ↦
        rw (e, serve_queue)
          (after_serve-SameKeys q queue (serve p queue.consumers [] none w) w.global_state e
            (serve-state queue.consumers p [] none w))
  ]

  serve_first-SameKeys :
      (p : Publication) (qs : List Str) (w : World)
      → SameKeys w.global_state (serve_first p qs w).1.global_state
  serve_first-SameKeys p [] w = SameKeys-refl w.global_state
  serve_first-SameKeys p (q ∷ qs) w = serve_queue-SameKeys p q w

  pub publish_message-SameKeys :
      (p : Publication) (w : World) → SameKeys w.global_state (publish_message p w).1.global_state
  publish_message-SameKeys p w =
      elim (Option-cases (get p.exchange_name w.global_state.exchanges)) [
        | inl e ↦ rw (publish_message-none p w e) (SameKeys-refl w.global_state)
        | inr (exchange, e) ↦
            let stored =
              append_to_exchange p.exchange_name exchange (message_of p) w.global_state in
            rw (publish_message-step p exchange w e) (
              SameKeys-trans (SameKeys-exchange p.exchange_name exchange _ w.global_state e) (
                serve_first-SameKeys p (iterate (bound_queues p.exchange_name stored))
                  (record w { global_state = stored })))
      ]

  publish_message_in_queue-none :
      (q : Str) (headers value : Value) (binary : Bool) (w : World)
      → get q w.global_state.queues ≡ none
      → publish_message_in_queue q headers value binary w ≡ (ok none, w)
  unfolding publish_message_in_queue
  publish_message_in_queue-none q headers value binary w e = rw (e, publish_message_in_queue) refl

  publish_message_in_queue-SameKeys :
      (q : Str) (headers value : Value) (binary : Bool) (w : World)
      → SameKeys w.global_state (publish_message_in_queue q headers value binary w).1.global_state
  publish_message_in_queue-SameKeys q headers value binary w =
      elim (Option-cases (get q w.global_state.queues)) [
        | inl e ↦
            rw (publish_message_in_queue-none q headers value binary w e)
              (SameKeys-refl w.global_state)
        | inr (queue, e) ↦
            let p = in_queue headers value binary in
            rw (publish_message_in_queue-step q headers value binary queue w e) (
              SameKeys-trans (SameKeys-queue q queue _ w.global_state e)
                (serve_queue-SameKeys p q (appended q queue (message_of p) w)))
      ]

  abbrev pub on_global_state : (State → State) → World → World
  on_global_state f w = record w { global_state = f w.global_state }

  -- One call of a method of the broker's state, or a change of some transport.
  pub data Step : World → World → Type 0 where
    reset_step : (w : World) → Step w (on_global_state reset w)
    credentials_step :
        (u p : Str) (w : World) → Step w (on_global_state (λ s. (check_credentials u p s).1) w)
    exchange_step :
        (x type : Str) (w : World) → Step w (on_global_state (λ s. (declare_exchange x type s).1) w)
    queue_step : (q : Str) (w : World) → Step w (on_global_state (λ s. (declare_queue q s).1) w)
    bind_step : (q x : Str) (w : World) → Step w (on_global_state (λ s. (bind_queue q x s).1) w)
    consumer_step :
        (id : ℕ) (tag q : Str) (n : ℕ) (w : World)
        → Step w (on_global_state (λ s. (register_consumer id tag q n s).1) w)
    delete_queue_step :
        (q : Str) (w : World) → Step w (on_global_state (delete_messages_of_queue q) w)
    delete_exchange_step :
        (x : Str) (w : World) → Step w (on_global_state (delete_messages_of_exchange x) w)
    store_step :
        (x : Str) (headers body : Value) (w : World)
        → Step w (on_global_state (λ s. (store_message x headers body s).1) w)
    store_in_queue_step :
        (q : Str) (headers body : Value) (w : World)
        → Step w (on_global_state (λ s. (store_message_in_queue q headers body s).1) w)
    publish_step : (p : Publication) (w : World) → Step w (publish_message p w).1
    publish_in_queue_step :
        (q : Str) (headers value : Value) (binary : Bool) (w : World)
        → Step w (publish_message_in_queue q headers value binary w).1
    ack_step : (tag : ℕ) (w : World) → Step w (on_global_state (message_ack tag) w)
    nack_step :
        (tag : ℕ) (requeue : Bool) (w : World)
        → Step w (on_global_state (message_nack tag requeue) w)
    transport_step : (t : ℕ → Transport) (w : World) → Step w (record w { transports = t })

  -- The worlds that are reached from a start of the server.
  pub data Reachable : World → Type 0 where
    start :
        (t : ℕ → Transport) → Reachable (record { global_state = init; transports = t; draws = 0 })
    next : {w u : World} → Reachable w → Step w u → Reachable u

  reset-init : (s : State) → reset s ≡ init
  unfolding reset init
  reset-init s = refl

  Step-WellFormed : {w u : World} → Step w u → WellFormed w.global_state → WellFormed u.global_state
  Step-WellFormed (reset_step w) h = rw (reset-init w.global_state) init-WellFormed
  Step-WellFormed (credentials_step u p w) h = check_credentials-WellFormed h u p
  Step-WellFormed (exchange_step x type w) h = declare_exchange-WellFormed h x type
  Step-WellFormed (queue_step q w) h = declare_queue-WellFormed h q
  Step-WellFormed (bind_step q x w) h = bind_queue-WellFormed h q x
  Step-WellFormed (consumer_step id tag q n w) h =
      SameKeys-WellFormed (register_consumer-SameKeys id tag q n w.global_state) h
  Step-WellFormed (delete_queue_step q w) h =
      SameKeys-WellFormed (delete_messages_of_queue-SameKeys q w.global_state) h
  Step-WellFormed (delete_exchange_step x w) h =
      SameKeys-WellFormed (delete_messages_of_exchange-SameKeys x w.global_state) h
  Step-WellFormed (store_step x headers body w) h =
      SameKeys-WellFormed (store_message-SameKeys x headers body w.global_state) h
  Step-WellFormed (store_in_queue_step q headers body w) h =
      SameKeys-WellFormed (store_message_in_queue-SameKeys q headers body w.global_state) h
  Step-WellFormed (publish_step p w) h = SameKeys-WellFormed (publish_message-SameKeys p w) h
  Step-WellFormed (publish_in_queue_step q headers value binary w) h =
      SameKeys-WellFormed (publish_message_in_queue-SameKeys q headers value binary w) h
  Step-WellFormed (ack_step tag w) h =
      SameKeys-WellFormed (message_ack-SameKeys tag w.global_state) h
  Step-WellFormed (nack_step tag requeue w) h =
      SameKeys-WellFormed (message_nack-SameKeys tag requeue w.global_state) h
  Step-WellFormed (transport_step t w) h = h

  -- In whatever order clients and inspectors call the methods of the broker's state, and whether
  -- these return or raise, the state that is reached from the start of the server is well formed:
  -- the default exchange is there, every binding names an exchange and queues that are there, no
  -- queue is bound twice to one exchange, and every queue is bound to the default exchange.
  pub Reachable-WellFormed : {w : World} → Reachable w → WellFormed w.global_state
  Reachable-WellFormed (start t) = init-WellFormed
  Reachable-WellFormed (next r step) = Step-WellFormed step (Reachable-WellFormed r)
