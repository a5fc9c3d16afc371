-- ===== src/Tests/Inspector.antt =====
-- The inspector's methods on a broker with one queue.
use mock_amqp_server.Prelude.{◌≡◌, some, [], ◌∷◌, ◌++◌, str_keys, ◌&&◌, ◌==◌, if◌then◌else◌}
use mock_amqp_server.Dict.{get, contains}
use mock_amqp_server.Python.{Str, text}
use mock_amqp_server.Serialization.{str, obj, end}
use mock_amqp_server.State.{
  State, init, declare_queue, register_consumer, store_message_in_queue, delete_messages_of_queue,
  delete_messages_of_exchange,
}
use mock_amqp_server.State.Invariant.{WellFormed}
use mock_amqp_server.State.Answers.{type_of_exchange}
use mock_amqp_server.State.Delivery.{messages_in_queue, messages_in_exchange}
use mock_amqp_server.State.Queues.{
  consumers_of, store_message_in_queue_lem, delete_messages_lem, register_consumer_lem,
}
use mock_amqp_server.Publishing.{World, publish_message}
use mock_amqp_server.Publishing.Reachable.{
  Reachable, start, next, queue_step, consumer_step, publish_step, Reachable-WellFormed,
  on_global_state,
}
use mock_amqp_server.Tests.Samples.{sample_codec, sample_runtime}
use mock_amqp_server.Tests.Consumers.{greeting, transport_of}

abbrev mail : Str
mail = text "mail"

abbrev with_mail : State
with_mail = (declare_queue mail init).1

abbrev stored : State
stored = (store_message_in_queue mail (obj end) (str (text "hi")) with_mail).1

store_message_in_queue_example :
    ((store_message_in_queue mail (obj end) (str (text "hi")) with_mail).0
      ≡ contains mail with_mail.queues)
    × ((r : Str)
        → messages_in_queue r stored ≡ (
            messages_in_queue r with_mail
            ++ (if mail == r && contains mail with_mail.queues
                then record { headers = obj end; body = str (text "hi") } ∷ []
                else [])))
    × ((r : Str) → consumers_of r stored ≡ consumers_of r with_mail)
store_message_in_queue_example =
    store_message_in_queue_lem mail (obj end) (str (text "hi")) with_mail

delete_messages_example :
    ((r : Str)
      → messages_in_queue r (delete_messages_of_queue mail stored)
        ≡ (if mail == r then [] else messages_in_queue r stored))
    × ((r : Str) → consumers_of r (delete_messages_of_queue mail stored) ≡ consumers_of r stored)
    × (delete_messages_of_queue mail stored
        ≡ record stored { queues = (delete_messages_of_queue mail stored).queues })
    × ((y : Str)
        → messages_in_exchange y (delete_messages_of_exchange [] stored)
          ≡ (if [] == y then [] else messages_in_exchange y stored))
    × ((y : Str)
        → type_of_exchange y (delete_messages_of_exchange [] stored) ≡ type_of_exchange y stored)
    × (delete_messages_of_exchange [] stored
        ≡ record stored { exchanges = (delete_messages_of_exchange [] stored).exchanges })
delete_messages_example = delete_messages_lem mail [] stored

register_consumer_example :
    ((r t : Str)
      → get t (consumers_of r (register_consumer 2 (text "b") mail 1 stored).1) ≡ (
          if contains mail stored.queues && (mail == r && text "b" == t)
          then some (record { protocol = 2; channel_number = 1 })
          else get t (consumers_of r stored)))
    × ((r : Str)
        → messages_in_queue r (register_consumer 2 (text "b") mail 1 stored).1
          ≡ messages_in_queue r stored)
register_consumer_example = register_consumer_lem 2 (text "b") mail 1 stored

abbrev started : World
started = record { global_state = init; transports = transport_of; draws = 0 }

abbrev consumed : World
consumed =
    on_global_state (λ s. (register_consumer 2 (text "b") mail 1 s).1)
      (on_global_state (λ s. (declare_queue mail s).1) started)

reached : Reachable (publish_message greeting consumed).1
reached =
    next
      (next (next (start transport_of) (queue_step mail started)) (
        consumer_step 2 (text "b") mail 1
          (on_global_state (λ s. (declare_queue mail s).1) started)))
      (publish_step greeting consumed)

Reachable-WellFormed_example : WellFormed (publish_message greeting consumed).1.global_state
Reachable-WellFormed_example = Reachable-WellFormed reached
