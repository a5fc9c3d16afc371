-- ===== src/Server/Mixed.antt =====
-- service/__main__.py: what holds of the broker, however the connections are mixed.
use mock_amqp_server.Prelude.{ℕ}
use mock_amqp_server.Python.{Bytes}
use mock_amqp_server.Python.Sets.{Runtime}
use mock_amqp_server.Serialization.{Codec}
use mock_amqp_server.State.{State}
use mock_amqp_server.State.Json.{Json}
use mock_amqp_server.State.Invariant.{WellFormed}
use mock_amqp_server.Sender.Transport.{Transport}
use mock_amqp_server.Protocol.{Session}
use mock_amqp_server.Protocol.Closed.{Closed}
use mock_amqp_server.Protocol.Connections.{data_received}
use mock_amqp_server.Protocol.Handshake.{treat_frame-Keeps, data_received-Keeps, greet-Keeps}
use mock_amqp_server.Publishing.{World, set_transport}
use mock_amqp_server.Publishing.Reachable.{
  Reachable, start, next, transport_step, credentials_step, exchange_step, queue_step, bind_step,
  consumer_step, ack_step, nack_step, store_step, Reachable-WellFormed,
}
use mock_amqp_server.Http.{H11, Clock}
use mock_amqp_server.Http.Keeping.{Keeps-get_done}
use mock_amqp_server.Http.Futures.{outcome}
use mock_amqp_server.Http.Reached.{Reachable-Kept, http_data_received-Reachable}
use mock_amqp_server.Server.{
  Server, ServerStep, client_made, inspector_made, client_data, inspector_data, transports_changed,
  Served, started, then_step, shared_by_client, wait_done, accept_client, accept_inspector,
  start_server,
}

module _ ⦃codec : Codec⦄ ⦃runtime : Runtime⦄ (draws : ℕ) (transports : ℕ → Transport) where
  -- the broker beside a client, whose own transport is kept apart
  abbrev beside : State → World
  beside g = record { global_state = g; transports = transports; draws = draws }

  abbrev Beside : Session → Type 0
  Beside s = Reachable (beside s.global_state)

  Beside-Closed : Closed Beside
  Beside-Closed = record {
    transport = λ s t h. h;
    channels = λ s c h. h;
    exchange = λ x type s h. next h (exchange_step x type _);
    queue = λ q s h. next h (queue_step q _);
    bind = λ q x s h. next h (bind_step q x _);
    consumer = λ id tag q n s h. next h (consumer_step id tag q n _);
    ack = λ tag s h. next h (ack_step tag _);
    nack = λ tag requeue s h. next h (nack_step tag requeue _);
    store = λ x headers body s h. next h (store_step x headers body _);
  }

  data_received-Beside :
      (received : Bytes) (s : Session) → Beside s → Beside (data_received received s).1
  data_received-Beside received s h =
      (data_received-Keeps
          (treat_frame-Keeps Beside-Closed (λ u p t h. next h (credentials_step u p _))
            (λ t p i h. h))
          (λ t b h. h) (λ t e h. (greet-Keeps Beside-Closed (λ t' b h'. h') (λ t' h'. h')).at t h)
          received).at
        s h

module _ {C : Type 0} ⦃h11 : H11 C⦄ ⦃clock : Clock⦄ ⦃json : Json⦄ ⦃codec : Codec⦄
    ⦃runtime : Runtime⦄ where
  ServerStep-Reachable : {v u : Server C} → ServerStep v u → Reachable v.world → Reachable u.world
  unfolding accept_client accept_inspector
  ServerStep-Reachable (client_made id transport v) h =
      next h (transport_step (set_transport id transport v.world.transports) v.world)
  ServerStep-Reachable (inspector_made id parser transport v) h = h
  ServerStep-Reachable (client_data id received s v e) h =
      let out = (data_received received (shared_by_client id s v.world)).1 in
      next
        (data_received-Beside v.world.draws v.world.transports received
          (shared_by_client id s v.world) h)
        (transport_step (set_transport id out.transport v.world.transports) _)
  ServerStep-Reachable (inspector_data id fuel received s ending v e f) h =
      http_data_received-Reachable fuel received (record s { world = v.world }) ending h f
  ServerStep-Reachable (wait_done id wait looks s v e) h =
      (Keeps-get_done Reachable-Kept (outcome wait looks)).at (record s { world = v.world }) h
  ServerStep-Reachable (transports_changed transports v) h =
      next h (transport_step transports v.world)

  Served-Reachable : {v : Server C} → Served v → Reachable v.world
  unfolding start_server
  Served-Reachable (started transports) = start transports
  Served-Reachable (then_step served step) = ServerStep-Reachable step (Served-Reachable served)

  -- However clients and inspectors come, and in whatever pieces and order their bytes arrive, with
  -- exceptions or without, the broker goes through calls of its methods only, and between any two
  -- events of the loop its state is well formed.
  pub Served-WellFormed :
      {v : Server C} → Served v → Reachable v.world × WellFormed v.world.global_state
  Served-WellFormed served =
      (Served-Reachable served, Reachable-WellFormed (Served-Reachable served))
