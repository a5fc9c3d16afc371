-- ===== src/Protocol/Broker.antt =====
-- service/protocol.py: the invariant of the broker's state under `data_received`.
use mock_amqp_server.Python.{Bytes, Str}
use mock_amqp_server.Python.Sets.{Runtime}
use mock_amqp_server.Serialization.{Codec}
use mock_amqp_server.State.Invariant.{
  WellFormed, check_credentials-WellFormed, declare_exchange-WellFormed, declare_queue-WellFormed,
  bind_queue-WellFormed,
}
use mock_amqp_server.State.Transfer.{
  SameKeys-WellFormed, register_consumer-SameKeys, message_ack-SameKeys, message_nack-SameKeys,
  store_message-SameKeys,
}
use mock_amqp_server.State.{check_credentials}
use mock_amqp_server.Protocol.{Session}
use mock_amqp_server.Protocol.Connections.{data_received}
use mock_amqp_server.Protocol.Closed.{Closed, KeptBy}
use mock_amqp_server.Protocol.Handshake.{treat_frame-Keeps, data_received-Keeps, greet-Keeps}

module _ ⦃codec : Codec⦄ ⦃runtime : Runtime⦄ where
  WellFormed-Closed : Closed (λ s. WellFormed s.global_state)
  WellFormed-Closed = record {
    transport = λ s t w. w;
    channels = λ s c w. w;
    exchange = λ x type s w. declare_exchange-WellFormed w x type;
    queue = λ q s w. declare_queue-WellFormed w q;
    bind = λ q x s w. bind_queue-WellFormed w q x;
    consumer = λ id tag q n s w.
        SameKeys-WellFormed (register_consumer-SameKeys id tag q n s.global_state) w;
    ack = λ tag s w. SameKeys-WellFormed (message_ack-SameKeys tag s.global_state) w;
    nack =
        λ tag requeue s w. SameKeys-WellFormed (message_nack-SameKeys tag requeue s.global_state) w;
    store = λ x headers body s w.
        SameKeys-WellFormed (store_message-SameKeys x headers body s.global_state) w;
  }

  -- Whatever bytes arrive, and whether or not an exception ends the call, `data_received` keeps
  -- the broker's state well formed: the default exchange is there, every binding names an
  -- exchange and queues that are there, no queue is bound twice to one exchange, and every queue
  -- is bound to the default exchange.
  pub data_received-WellFormed :
      (received : Bytes) (s : Session)
      → WellFormed s.global_state
      → WellFormed (data_received received s).1.global_state
  data_received-WellFormed received s w =
      (data_received-Keeps (treat_frame-Keeps WellFormed-Closed credentials (λ t p i h. h))
          (λ t b h. h)
          (λ t e h. (greet-Keeps WellFormed-Closed (λ t' b h'. h') (λ t' h'. h')).at t h)
          received).at
        s w
    where
      credentials :
          (u p : Str) → KeptBy (λ s'. WellFormed s'.global_state) (λ g. (check_credentials u p g).1)
      credentials u p t h = check_credentials-WellFormed h u p
