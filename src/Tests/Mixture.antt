-- ===== src/Tests/Mixture.antt =====
-- A client and an inspector of one server.
use mock_amqp_server.Prelude.{ℕ, ◌<◌, ◌≡◌, refl, arith, true, false, none, List, [], ◌∷◌, nat_keys}
use mock_amqp_server.Dict.{get}
use mock_amqp_server.Python.{text}
use mock_amqp_server.Python.Decimals.{pos}
use mock_amqp_server.Python.Sets.{member}
use mock_amqp_server.Method.{BasicAck, BasicNack}
use mock_amqp_server.State.{State, init}
use mock_amqp_server.State.Invariant.{WellFormed}
use mock_amqp_server.Protocol.{Session, Channel, ChannelState, new_session}
use mock_amqp_server.Protocol.Channels.{treat_channel_frame}
use mock_amqp_server.Protocol.Connections.{data_received}
use mock_amqp_server.Publishing.Reachable.{Reachable}
use mock_amqp_server.Http.{
  Event, HttpSession, acknowledged, connection_made, send_http_response_no_content,
  send_http_response_timeout,
}
use mock_amqp_server.Http.Futures.{outcome, on_get_done}
use mock_amqp_server.Server.{
  Server, Served, started, then_step, start_server, accept_client, accept_inspector, after_client,
  after_inspector, shared_by_client, client_made, inspector_made, client_data, inspector_data,
}
use mock_amqp_server.Server.Mixed.{Served-WellFormed}
use mock_amqp_server.Server.Settled.{ack_frame, nack_frame, refusal, on_get_done-settled}
use mock_amqp_server.Tests.Samples.{sample_codec, sample_runtime}
use mock_amqp_server.Tests.Inspections.{
  sample_h11, sample_clock, sample_json, quiet, script, post_mail, finished,
}

abbrev empty_server : Server (List Event)
empty_server = start_server (λ id. quiet)

abbrev with_inspector : Server (List Event)
with_inspector = accept_inspector 0 post_mail quiet empty_server

-- the inspector has created a queue and read its messages
abbrev inspected : Server (List Event)
inspected = after_inspector 0 finished.0.1 with_inspector

abbrev with_client : Server (List Event)
with_client = accept_client 7 quiet inspected

-- a client that comes then, and sends something that is no AMQP
abbrev client : Session
client = new_session 7 quiet inspected.world.global_state

abbrev disturbed : Server (List Event)
disturbed =
    after_client 7 (data_received (text "GET") (shared_by_client 7 client with_client.world)).1
      with_client

served : Served disturbed
unfolding start_server accept_inspector accept_client connection_made
served =
    then_step
      (then_step
        (then_step
          (then_step (started (λ id. quiet)) (inspector_made 0 post_mail quiet empty_server))
          (inspector_data 0 9 (text "x") (script post_mail init) finished.0 with_inspector refl
            finished.1))
        (client_made 7 quiet inspected))
      (client_data 7 (text "GET") client with_client refl)

Served-WellFormed_example : Reachable disturbed.world × WellFormed disturbed.world.global_state
Served-WellFormed_example = Served-WellFormed served

abbrev open_channel : Channel
open_channel = record {
  state = ChannelState.opened;
  exchange = none;
  routing_key = none;
  on_going_message = none;
}

-- a client with an open channel, which acknowledges the message 42
abbrev worker : Session
worker = record client { channels = (1, open_channel) ∷ [] }

abbrev ack_42 : BasicAck
ack_42 = record { delivery_tag = 42; multiple = false }

abbrev nack_42 : BasicNack
nack_42 = record { delivery_tag = 42; multiple = false; requeue = true }

abbrev settled : ℕ → State
settled i = (treat_channel_frame 1 (ack_frame 1 20 ack_42) worker).1.global_state

abbrev waiting : HttpSession (List Event)
waiting = script [] init

on_get_done-settled_example :
    (settled 3 ≡ (treat_channel_frame 1 (ack_frame 1 20 ack_42) worker).1.global_state
      → on_get_done (outcome (acknowledged (pos 42)) settled) waiting
        ≡ send_http_response_no_content waiting)
    × (settled 3 ≡ (treat_channel_frame 1 (nack_frame 1 20 nack_42) worker).1.global_state
        → on_get_done (outcome (refusal true (pos 42)) settled) waiting
          ≡ send_http_response_no_content waiting)
    × (((j : ℕ) → j < 10 → member {A = ℕ} 42 (settled j).message_acknowledged ≡ false)
        → on_get_done (outcome (acknowledged (pos 42)) settled) waiting
          ≡ send_http_response_timeout waiting)
unfolding get
on_get_done-settled_example =
    on_get_done-settled 1 20 3 open_channel worker ack_42 nack_42 settled waiting refl refl
      (omega arith)
