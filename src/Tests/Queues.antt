-- ===== src/Tests/Queues.antt =====
-- A client declares a queue and binds it.
use mock_amqp_server.Prelude.{◌≡◌, refl, false, [], ◌∷◌, ◌++◌, str_keys, nat_keys, arith}
use mock_amqp_server.Dict.{get}
use mock_amqp_server.Python.{Result, Bytes, ok, text, pack_uint}
use mock_amqp_server.Serialization.{end}
use mock_amqp_server.Method.{QueueDeclare, QueueBind}
use mock_amqp_server.Frame.Layout.{layout}
use mock_amqp_server.State.{declare_queue}
use mock_amqp_server.Sender.Transport.{written}
use mock_amqp_server.Sender.Replies.{queue_declare_ok, arguments_of}
use mock_amqp_server.Protocol.{Session}
use mock_amqp_server.Protocol.Channels.{treat_channel_frame}
use mock_amqp_server.Protocol.Answers.{queue_declare_frame, queue_bind_frame, queue_declare-answers}
use mock_amqp_server.Tests.Samples.{sample_codec, sample_runtime, sample_dumps}
use mock_amqp_server.Tests.Sessions.{working, open_channel, with_jobs}

abbrev declaration : QueueDeclare
declaration = record {
  reserved_1 = 0;
  queue_name = text "q";
  passive = false;
  durable = false;
  exclusive = false;
  auto_delete = false;
  no_wait = false;
  arguments = end;
}

abbrev q_arguments : Bytes
q_arguments = 1 ∷ 113 ∷ 0 ∷ 0 ∷ 0 ∷ 0 ∷ 0 ∷ 0 ∷ 0 ∷ 0 ∷ []

abbrev declared : Result (Unit {0}) × Session
declared = treat_channel_frame 1 (queue_declare_frame 1 20 declaration) working

q_dumps : arguments_of (queue_declare_ok 1 (text "q") 0 0) ≡ ok q_arguments
unfolding sample_dumps pack_uint
q_dumps = refl

queue_declare-answers_example :
    (declared.0 ≡ ok tt)
    × (written declared.1.transport.calls
        ≡ written working.transport.calls ++ layout 1 1 (0 ∷ 50 ∷ 0 ∷ 11 ∷ q_arguments))
    × (declared.1.transport.closing ≡ working.transport.closing)
    × (declared.1.global_state ≡ (declare_queue (text "q") with_jobs).1)
queue_declare-answers_example =
    queue_declare-answers 1 20 open_channel declaration working q_arguments (unfold get in refl)
      refl (omega arith) q_dumps (omega arith)

abbrev binding : QueueBind
binding = record {
  reserved_1 = 0;
  queue_name = text "jobs";
  exchange_name = text "missing";
  routing_key = [];
  no_wait = false;
  arguments = end;
}

abbrev bound : Result (Unit {0}) × Session
bound = treat_channel_frame 1 (queue_bind_frame 1 20 binding) working
