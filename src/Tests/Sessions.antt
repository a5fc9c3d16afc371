-- ===== src/Tests/Sessions.antt =====
-- Connections at work: a greeting, a login, a message, a stream in parts.
use mock_amqp_server.Prelude.{
  ℕ, ◌+◌, ◌<◌, ◌≤◌, ◌≡◌, ◌≢◌, refl, false, none, some, [], ◌∷◌, ◌++◌, length, arith, str_keys,
  nat_keys, str_eq, ◌⊎◌, if◌then◌else◌,
}
use mock_amqp_server.Dict.{get, put}
use mock_amqp_server.Python.{Str, Bytes, Result, ok, text, bytes_of, ◌>>◌}
use mock_amqp_server.Python.Sets.{member, add}
use mock_amqp_server.Serialization.{bytes, obj, end}
use mock_amqp_server.Method.MethodIds
use mock_amqp_server.Method.{Header, Body, BasicPublish}
use mock_amqp_server.Frame.{header}
use mock_amqp_server.Message
use mock_amqp_server.State.{State, init, bound_queues, declare_queue, bind_queue}
use mock_amqp_server.State.Invariant.{WellFormed, init-WellFormed, declare_queue-WellFormed}
use mock_amqp_server.State.Delivery.{messages_in_queue}
use mock_amqp_server.Sender.Connection.{send_connection_start}
use mock_amqp_server.Protocol.{Session, Channel, ConnectionState, ChannelState, on_transport}
use mock_amqp_server.Protocol.Connections.{
  protocol_header, data_received, loop_round, set_parser_state,
}
use mock_amqp_server.Protocol.Publish.{
  publish_frame, published, awaiting_body, treat_all, body_frames, publish-delivers,
}
use mock_amqp_server.Protocol.Empty.{empty_message_lem}
use mock_amqp_server.Protocol.Greeting.{with_buffer, closed, data_received-waiting_protocol_header}
use mock_amqp_server.Protocol.Endings.{Drains, Stops}
use mock_amqp_server.Protocol.Loop.{run, run_unrolls}
use mock_amqp_server.Protocol.Segments.{data_received-append}
use mock_amqp_server.Protocol.Authentication.{IsAuthenticated, data_received-IsAuthenticated}
use mock_amqp_server.Protocol.Broker.{data_received-WellFormed}
use mock_amqp_server.Tests.Samples.{sample_codec, sample_runtime}
use mock_amqp_server.Tests.Runs.{fresh, method_frame, start_ok_frame}

abbrev pub jobs : Str
jobs = text "jobs"

abbrev pub open_channel : Channel
open_channel = record {
  state = ChannelState.opened;
  exchange = none;
  routing_key = none;
  on_going_message = none;
}

unfoldable pub with_jobs : State
unfolding declare_queue bind_queue init get put member add str_eq
with_jobs = (declare_queue jobs init).1

with_jobs-WellFormed : WellFormed with_jobs
unfolding with_jobs
with_jobs-WellFormed = declare_queue-WellFormed init-WellFormed jobs

abbrev pub working : Session
working = record fresh {
  parser_state = ConnectionState.opened;
  channels = (1, open_channel) ∷ [];
  global_state = with_jobs;
}

abbrev to_jobs : BasicPublish
to_jobs = record {
  reserved_1 = 0;
  exchange_name = [];
  routing_key = jobs;
  mandatory = false;
  immediate = false;
}

abbrev announced : ℕ → Header
announced n = record {
  channel_number = 1;
  size = 22;
  class_id = 60;
  body_size = n;
  properties = end;
}

abbrev part : Bytes → Body
part b = record { channel_number = 1; size = length b + 8; content = b }

abbrev parts_out : Result (Unit {0}) × Session
parts_out =
    treat_all 1
      (publish_frame 1 20 to_jobs
        ∷ header (announced 3)
        ∷ body_frames (part (1 ∷ 2 ∷ []) ∷ part (3 ∷ []) ∷ []))
      working

publish-delivers_example :
    (parts_out.0 ≡ ok tt)
    × (get 1 parts_out.1.channels ≡ some (published [] jobs))
    × (parts_out.1.transport ≡ fresh.transport)
    × ((q : Str)
        → messages_in_queue q parts_out.1.global_state ≡ (
            messages_in_queue q with_jobs
            ++ (if member q (bound_queues [] with_jobs)
                then record { headers = obj end; body = bytes (1 ∷ 2 ∷ 3 ∷ []) } ∷ []
                else [])))
unfolding get
publish-delivers_example =
    publish-delivers 1 20 open_channel to_jobs (announced 3) (part (1 ∷ 2 ∷ []))
      (part (3 ∷ []) ∷ []) working with_jobs-WellFormed refl refl
      (unfold with_jobs get str_eq in refl) (omega arith, (omega arith, tt)) refl

abbrev empty_out : Result (Unit {0}) × Session
empty_out =
    treat_all 1
      (publish_frame 1 20 to_jobs ∷ header (announced 0) ∷ publish_frame 1 20 to_jobs ∷ []) working

empty_message_example :
    (empty_out.0 ≡ ok tt)
    × (empty_out.1.global_state ≡ with_jobs)
    × (empty_out.1.transport ≡ fresh.transport)
    × (get 1 empty_out.1.channels
        ≡ some (awaiting_body [] jobs (Message.new_message (announced 0))))
unfolding get
empty_message_example =
    empty_message_lem 1 20 open_channel to_jobs (announced 0) (publish_frame 1 20 to_jobs ∷ [])
      working refl refl refl ((refl, refl), tt)

abbrev pipelined : Bytes
pipelined = protocol_header ++ start_ok_frame

data_received-waiting_protocol_header_example :
    (length pipelined < 8 → data_received pipelined fresh ≡ (ok tt, with_buffer pipelined fresh))
    × (pipelined ≡ protocol_header
        → data_received pipelined fresh
          ≡ (do
            on_transport send_connection_start
            set_parser_state ConnectionState.waiting_start_ok)
              (with_buffer [] fresh))
    × (8 ≤ length pipelined
        → pipelined ≢ protocol_header
        → data_received pipelined fresh
          ≡ (ok tt, record fresh { buffer = []; transport = closed fresh.transport }))
unfolding fresh
data_received-waiting_protocol_header_example =
    data_received-waiting_protocol_header pipelined fresh refl

run_unrolls_example : run working ≡ loop_round run [] working
unfolding fresh
run_unrolls_example = run_unrolls working

abbrev pub greeted : Session
greeted = record fresh { parser_state = ConnectionState.waiting_start_ok }

data_received-IsAuthenticated_example : IsAuthenticated (data_received start_ok_frame greeted).1
unfolding fresh
data_received-IsAuthenticated_example =
    data_received-IsAuthenticated start_ok_frame greeted (λ past. absurd past)

data_received-WellFormed_example : WellFormed (data_received start_ok_frame working).1.global_state
data_received-WellFormed_example =
    data_received-WellFormed start_ok_frame working with_jobs-WellFormed

abbrev pub tune_ok_frame : Bytes
tune_ok_frame =
    method_frame 0 MethodIds.tune_ok (bytes_of 2 100 ++ (bytes_of 4 4096 ++ bytes_of 2 0))

-- A client that sends its tune-ok without waiting for the server's tune.
data_received-append_example :
    ((t : Session) × Drains (with_buffer start_ok_frame greeted) t
      × (data_received start_ok_frame greeted ≡ (ok tt, t))
      × (data_received (start_ok_frame ++ tune_ok_frame) greeted ≡ data_received tune_ok_frame t))
    ⊎ ((r : Result (Unit {0})) × (t : Session) × Stops (with_buffer start_ok_frame greeted) r t
        × (data_received start_ok_frame greeted ≡ (r, t))
        × (data_received (start_ok_frame ++ tune_ok_frame) greeted
            ≡ (r, with_buffer (t.buffer ++ tune_ok_frame) t)))
unfolding fresh
data_received-append_example =
    data_received-append start_ok_frame tune_ok_frame greeted (λ h. absurd (greeted_there h))
  where
    greeted_there : ConnectionState.waiting_start_ok ≡ ConnectionState.waiting_protocol_header → ⊥
    greeted_there h = cc
