-- ===== src/Tests/Broker.antt =====
-- The broker's state at work: a queue with a second binding, logins, exchanges, acknowledgements.
use mock_amqp_server.Prelude.{
  ℕ, zero, suc, ◌≡◌, ◌↔◌, refl, Bool, true, false, some, List, [], ◌∷◌, ◌&&◌, ◌||◌, ◌==◌, not,
  str_keys, nat_keys, str_eq, if◌then◌else◌,
}
use mock_amqp_server.Dict.{get, put, contains}
use mock_amqp_server.Python.{Str, text}
use mock_amqp_server.Python.Sets.{member, add}
use mock_amqp_server.Serialization.{bytes, obj, end}
use mock_amqp_server.State.{
  State, init, declare_queue, bind_queue, bound_queues, declare_exchange, check_credentials,
}
use mock_amqp_server.State.Invariant.{
  WellFormed, init-WellFormed, declare_queue-WellFormed, declare_exchange-WellFormed,
  bind_queue-WellFormed,
}
use mock_amqp_server.State.Delivery.{Delivered, store_message-delivers}
use mock_amqp_server.State.Answers.{
  Settlement, ack, nack, settle, acked, nacked, type_of_exchange, declare_exchange_lem,
  check_credentials_lem, settle_lem,
}
use mock_amqp_server.State.Wait.{
  AnswersBy, wait_message_acknowledged, wait_message_not_acknowledged, wait_message_requeued,
  wait_queue_bound, wait_lem,
}
use mock_amqp_server.Tests.Samples.{sample_codec, sample_runtime}

abbrev logs_queue : Str
logs_queue = text "logs"

abbrev audit_queue : Str
audit_queue = text "audit"

abbrev events_exchange : Str
events_exchange = text "events"

-- Two queues, and one of them bound to an exchange of its own.
unfoldable with_exchange : State
unfolding declare_exchange declare_queue bind_queue init get put member add str_eq
with_exchange =
    (declare_exchange events_exchange (text "fanout")
      (declare_queue audit_queue (declare_queue logs_queue init).1).1).1

unfoldable with_binding : State
unfolding with_exchange declare_exchange declare_queue bind_queue init get put member add str_eq
with_binding = (bind_queue logs_queue events_exchange with_exchange).1

with_exchange-WellFormed : WellFormed with_exchange
unfolding with_exchange
with_exchange-WellFormed =
    declare_exchange-WellFormed
      (declare_queue-WellFormed (declare_queue-WellFormed init-WellFormed logs_queue) audit_queue)
      events_exchange (text "fanout")

with_binding-WellFormed : WellFormed with_binding
unfolding with_binding
with_binding-WellFormed = bind_queue-WellFormed with_exchange-WellFormed logs_queue events_exchange

store_message-delivers_example :
    Delivered events_exchange (obj end) (bytes (1 ∷ 2 ∷ [])) with_binding
store_message-delivers_example =
    store_message-delivers events_exchange (obj end) (bytes (1 ∷ 2 ∷ [])) with_binding
      with_binding-WellFormed (unfold with_binding with_exchange get str_eq in refl)

declare_exchange_example :
    ((y : Str)
      → get y (declare_exchange events_exchange (text "direct") with_exchange).1.exchanges ≡ (
          if events_exchange == y && not (contains events_exchange with_exchange.exchanges)
          then some (record { type = text "direct"; messages = [] })
          else get y with_exchange.exchanges))
    × (((declare_exchange events_exchange (text "direct") with_exchange).0 ≡ true) ↔ (
        type_of_exchange events_exchange
          (declare_exchange events_exchange (text "direct") with_exchange).1
        ≡ some (text "direct")))
    × ((declare_exchange events_exchange (text "direct") with_exchange).0 ≡ true
        → declare_exchange events_exchange
            (text "direct")
            (declare_exchange events_exchange (text "direct") with_exchange).1
          ≡ (true, (declare_exchange events_exchange (text "direct") with_exchange).1))
declare_exchange_example = declare_exchange_lem events_exchange (text "direct") with_exchange

abbrev login : Bool × State
login = check_credentials (text "guest") (text "guest") with_exchange

check_credentials_example :
    ((login.0 ≡ true) ↔ (get (text "guest") with_exchange.users ≡ some (text "guest")))
    × ((v : Str)
        → get v login.1.authentication_tried_on ≡ (
            if text "guest" == v
            then some login.0
            else get v with_exchange.authentication_tried_on))
    × (login.1 ≡ record with_exchange { authentication_tried_on = login.1.authentication_tried_on })
check_credentials_example = check_credentials_lem (text "guest") (text "guest") with_exchange

abbrev events : List Settlement
events = ack 5 ∷ nack 6 true ∷ nack 7 false ∷ ack 5 ∷ []

settle_example :
    (member 7 (settle events with_exchange).message_acknowledged
      ≡ (acked 7 events || member 7 with_exchange.message_acknowledged))
    × (member 7 (settle events with_exchange).message_requeued
        ≡ (nacked true 7 events || member 7 with_exchange.message_requeued))
    × (member 7 (settle events with_exchange).message_not_acknowledged
        ≡ (nacked false 7 events || member 7 with_exchange.message_not_acknowledged))
settle_example = settle_lem events 7 with_exchange

-- The broker second by second: a binding and an ack come at the third look.
abbrev seconds : ℕ → State
seconds zero = with_exchange
seconds (suc zero) = with_exchange
seconds (suc (suc i)) = settle (ack 5 ∷ []) with_binding

wait_example :
    AnswersBy
      (λ s. member 5 s.message_acknowledged)
      4
      seconds
      (wait_message_acknowledged 5 4 seconds)
    × AnswersBy
        (λ s. member 5 s.message_not_acknowledged)
        4
        seconds
        (wait_message_not_acknowledged 5 4 seconds)
    × AnswersBy (λ s. member 5 s.message_requeued) 4 seconds (wait_message_requeued 5 4 seconds)
    × AnswersBy
        (λ s. member logs_queue (bound_queues events_exchange s))
        4
        seconds
        (wait_queue_bound logs_queue events_exchange 4 seconds)
wait_example = wait_lem 5 4 logs_queue events_exchange seconds
