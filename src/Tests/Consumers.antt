-- ===== src/Tests/Consumers.antt =====
-- Publishing to a queue with a dead consumer and one that is alive.
use mock_amqp_server.Prelude.{
  ℕ, ◌≡◌, refl, false, Option, some, [], ◌∷◌, ◌++◌, nat_eq, str_keys, str_eq, ◌&&◌, ◌==◌,
  if◌then◌else◌,
}
use mock_amqp_server.Dict.{get, contains}
use mock_amqp_server.Python.{Str, Result, ok, text, pack_uint}
use mock_amqp_server.Python.Texts.{encode, utf8_point}
use mock_amqp_server.Serialization.{str, bytes, obj, end}
use mock_amqp_server.State.{Queue, Consumer, init}
use mock_amqp_server.State.Delivery.{messages_in_queue, messages_in_exchange}
use mock_amqp_server.Sender.Transport.{Transport}
use mock_amqp_server.Sender.Channel.{send_basic_deliver}
use mock_amqp_server.Sender.Content.{
  send_content_header, send_content_body, choose_all, property, lookup_field,
}
use mock_amqp_server.Publishing.{
  World, Publication, message_of, payload_of, push_message, send_body_of, len, set_transport,
  publish_message, publish_message_in_queue, remove_all,
}
use mock_amqp_server.Publishing.Consumers.{push_to}
use mock_amqp_server.Publishing.InQueue.{
  in_queue, publish_message_in_queue-live, publish_message_in_queue-dead,
}
use mock_amqp_server.Publishing.Exchanges.{publish_message-stores}
use mock_amqp_server.Tests.Samples.{sample_codec, sample_runtime, sample_dumps}

abbrev consumer : ℕ → Consumer
consumer id = record { protocol = id; channel_number = 1 }

abbrev dead : Str × Consumer
dead = (text "a", consumer 1)

abbrev tasks_queue : Queue
tasks_queue = record { messages = []; consumers = dead ∷ (text "b", consumer 2) ∷ [] }

abbrev abandoned_queue : Queue
abandoned_queue = record { messages = []; consumers = dead ∷ [] }

abbrev pub transport_of : ℕ → Transport
transport_of n = record { calls = []; closing = nat_eq n 1 }

abbrev world : World
world = record {
  global_state = record init {
    queues = (text "tasks", tasks_queue) ∷ (text "abandoned", abandoned_queue) ∷ [];
    queues_bound_exchanges = ([], text "tasks" ∷ []) ∷ [];
  };
  transports = transport_of;
  draws = 0;
}

abbrev task : Publication
task = in_queue (obj end) (str (text "go")) false

abbrev after_dead : World
after_dead = record world { draws = 1 }

task-pushed :
    push_to task (bytes (103 ∷ 111 ∷ [])) (text "b") (consumer 2) after_dead
    ≡ (ok tt, (push_to task (bytes (103 ∷ 111 ∷ [])) (text "b") (consumer 2) after_dead).1)
unfolding push_message send_basic_deliver send_content_header send_content_body send_body_of len
    sample_dumps choose_all property lookup_field pack_uint
task-pushed = refl

abbrev task_out : Result (Option ℕ) × World
task_out = publish_message_in_queue (text "tasks") (obj end) (str (text "go")) false world

publish_message_in_queue-live_example :
    (task_out.0 ≡ ok (some (sample_runtime.randint 1)))
    × (task_out.1.transports
        ≡ set_transport 2
            (push_to task (bytes (103 ∷ 111 ∷ [])) (text "b") (consumer 2) after_dead).1
            transport_of)
    × ((r : Str)
        → get r task_out.1.global_state.queues ≡ (
            if text "tasks" == r
            then some (record {
              messages = record { headers = obj end; body = str (text "go") } ∷ [];
              consumers = remove_all (text "a" ∷ []) tasks_queue.consumers;
            })
            else get r world.global_state.queues))
publish_message_in_queue-live_example =
    publish_message_in_queue-live (text "tasks") (obj end) (str (text "go")) false tasks_queue
      (dead ∷ []) [] (text "b") (consumer 2) (bytes (103 ∷ 111 ∷ [])) _ world
      (unfold get str_eq in refl) refl (refl, tt) refl (unfold payload_of encode utf8_point in refl)
      task-pushed

abbrev lost_out : Result (Option ℕ) × World
lost_out = publish_message_in_queue (text "abandoned") (obj end) (str (text "go")) false world

publish_message_in_queue-dead_example :
    (lost_out.0 ≡ ok (some (sample_runtime.randint 0)))
    × (lost_out.1.transports ≡ transport_of)
    × ((r : Str)
        → get r lost_out.1.global_state.queues ≡ (
            if text "abandoned" == r
            then some (record {
              messages = record { headers = obj end; body = str (text "go") } ∷ [];
              consumers = [];
            })
            else get r world.global_state.queues))
publish_message_in_queue-dead_example =
    publish_message_in_queue-dead (text "abandoned") (obj end) (str (text "go")) false
      abandoned_queue dead [] world (unfold get str_eq in refl) refl (refl, tt)

abbrev pub greeting : Publication
greeting = record {
  headers = obj end;
  message_data = str (text "hi");
  is_binary = false;
  exchange_name = [];
}

publish_message-stores_example :
    ((y : Str)
      → messages_in_exchange y (publish_message greeting world).1.global_state
        ≡ messages_in_exchange y world.global_state
          ++ (if [] == y && contains [] world.global_state.exchanges
              then message_of greeting ∷ []
              else []))
    × ((r : Str)
        → messages_in_queue r (publish_message greeting world).1.global_state
          ≡ messages_in_queue r world.global_state)
publish_message-stores_example = publish_message-stores greeting world
