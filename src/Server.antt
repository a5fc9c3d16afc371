-- ===== src/Server.antt =====
-- service/__main__.py: the server, that is one state of the broker and the connections of two kinds
-- that share it. The event loop gives the bytes of one connection at a time to its `data_received`.
pub mod Mixed
pub mod Settled
use mock_amqp_server.Prelude.{ℕ, ◌≡◌, Option, none, some, nat_eq, if◌then◌else◌}
use mock_amqp_server.Python.{Bytes, Result}
use mock_amqp_server.Python.Sets.{Runtime}
use mock_amqp_server.Serialization.{Codec}
use mock_amqp_server.State.{State, init}
use mock_amqp_server.State.Json.{Json}
use mock_amqp_server.Sender.Transport.{Transport}
use mock_amqp_server.Protocol.{Session, new_session}
use mock_amqp_server.Protocol.Connections.{data_received}
use mock_amqp_server.Publishing.{World, set_transport}
use mock_amqp_server.Http.{H11, Clock, Wait, HttpSession, connection_made}
use mock_amqp_server.Http.Futures.{outcome, on_get_done}
use mock_amqp_server.Http.Received.{http_data_received}

-- `world` holds the state and the transports of the clients, by number; `clients` and `inspectors`
-- are the protocol objects, whose own copies of the world are not looked at.
pub record Server (C : Type 0) : Type 0 where
  pub world : World
  pub clients : ℕ → Option Session
  pub inspectors : ℕ → Option (HttpSession C)

abbrev pub set_entry : {A : Type 0} → ℕ → A → (ℕ → Option A) → ℕ → Option A
set_entry id a table i = if nat_eq i id then some a else table i

-- a client's object with what it shares
abbrev pub shared_by_client : ℕ → Session → World → Session
shared_by_client id s w = record s { global_state = w.global_state; transport = w.transports id }

module _ {C : Type 0} ⦃runtime : Runtime⦄ where
  -- `_main`, up to `run_forever`; no connection has been made
  unfoldable pub start_server : (ℕ → Transport) → Server C
  start_server transports = record {
    world = record { global_state = init; transports = transports; draws = 0 };
    clients = λ id. none;
    inspectors = λ id. none;
  }

module _ {C : Type 0} where
  -- `TrackerProtocol(global_state)` and its `connection_made`
  unfoldable pub accept_client : ℕ → Transport → Server C → Server C
  accept_client id transport v = record v {
    world = record v.world { transports = set_transport id transport v.world.transports };
    clients = set_entry id (new_session id transport v.world.global_state) v.clients;
  }

  -- `HTTPProtocol(global_state)` and its `connection_made`
  unfoldable pub accept_inspector : ℕ → C → Transport → Server C → Server C
  accept_inspector id parser transport v = record v {
    inspectors = set_entry id (connection_made v.world parser transport) v.inspectors;
  }

  abbrev pub after_client : ℕ → Session → Server C → Server C
  after_client id s v = record v {
    world = record v.world {
      global_state = s.global_state;
      transports = set_transport id s.transport v.world.transports;
    };
    clients = set_entry id s v.clients;
  }

  abbrev pub after_inspector : ℕ → HttpSession C → Server C → Server C
  after_inspector id s v = record v { world = s.world; inspectors = set_entry id s v.inspectors }

module _ {C : Type 0} ⦃h11 : H11 C⦄ ⦃clock : Clock⦄ ⦃json : Json⦄ ⦃codec : Codec⦄
    ⦃runtime : Runtime⦄ where
  -- What the event loop does next. An exception leaves what was changed before it.
  pub data ServerStep : Server C → Server C → Type 0 where
    client_made :
        (id : ℕ) (transport : Transport) (v : Server C)
        → ServerStep v (accept_client id transport v)
    inspector_made :
        (id : ℕ) (parser : C) (transport : Transport) (v : Server C)
        → ServerStep v (accept_inspector id parser transport v)
    client_data :
        (id : ℕ) (received : Bytes) (s : Session) (v : Server C)
        → v.clients id ≡ some s
        → ServerStep v
            (after_client id (data_received received (shared_by_client id s v.world)).1 v)
    inspector_data :
        (id fuel : ℕ) (received : Bytes) (s : HttpSession C)
        (ending : Result (Unit {0}) × HttpSession C) (v : Server C)
        → v.inspectors id ≡ some s
        → http_data_received fuel received (record s { world = v.world }) ≡ some ending
        → ServerStep v (after_inspector id ending.1 v)
    -- a coroutine that a GET has started is done; `looks` are the states that it has seen
    wait_done :
        (id : ℕ) (wait : Wait) (looks : ℕ → State) (s : HttpSession C) (v : Server C)
        → v.inspectors id ≡ some s
        → ServerStep v (
            after_inspector id
              (on_get_done (outcome wait looks) (record s { world = v.world })).1
              v)
    -- a peer is gone, or a transport is full, or closed
    transports_changed :
        (transports : ℕ → Transport) (v : Server C)
        → ServerStep v (record v { world = record v.world { transports = transports } })

  pub data Served : Server C → Type 0 where
    started : (transports : ℕ → Transport) → Served (start_server transports)
    then_step : {v u : Server C} → Served v → ServerStep v u → Served u
