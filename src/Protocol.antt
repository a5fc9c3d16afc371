-- ===== src/Protocol.antt =====
-- service/protocol.py: the AMQP side of a connection. A method is an action on the session, which
-- is the connection's own state beside the broker's.
pub mod Channels
pub mod Connections
pub mod Closed
pub mod Handshake
pub mod Loop
pub mod Broker
pub mod Authentication
pub mod Publish
pub mod Login
pub mod Answers
pub mod Greeting
pub mod Framed
pub mod Endings
pub mod Segments
pub mod Empty
use mock_amqp_server.Prelude.{ℕ, Bool, Option, none, some, [], ◌≡◌, refl, nat_eq}
use mock_amqp_server.Dict.{Dict, get, put}
use mock_amqp_server.Python.{Str, Bytes, Result, ok, err, key_error, Exec}
use mock_amqp_server.Method.{Method}
use mock_amqp_server.Frame.{Frame, method, header, body}
use mock_amqp_server.Message
use mock_amqp_server.State.{State}
use mock_amqp_server.Sender.Transport.{Transport}
use mock_amqp_server.Sender.Transport

-- `_ConnectionState`
pub data ConnectionState : Type 0 where
  waiting_protocol_header waiting_start_ok waiting_tune_ok waiting_open : ConnectionState
  opened waiting_other : ConnectionState

-- `_ChannelState`
pub data ChannelState : Type 0 where
  waiting_open opened waiting_header waiting_body : ChannelState

-- The dictionary of a channel, whose number is its key. A key that is not there yet is `none`.
pub record Channel : Type 0 where
  pub state : ChannelState
  pub exchange : Option Str
  pub routing_key : Option Str
  pub on_going_message : Option Message.Message

-- `self` and the global state; `id` is the object itself, as consumers refer to it.
pub record Session : Type 0 where
  pub id : ℕ
  pub transport : Transport
  pub buffer : Bytes
  pub parser_state : ConnectionState
  pub channels : Dict ℕ Channel
  pub global_state : State

-- `TrackerProtocol(global_state)`, and `connection_made`
unfoldable pub new_session : ℕ → Transport → State → Session
new_session id transport global_state = record {
  id = id;
  transport = transport;
  buffer = [];
  parser_state = ConnectionState.waiting_protocol_header;
  channels = [];
  global_state = global_state;
}

-- an action on the transport, and one on the broker's state, as an action on the session
abbrev pub on_transport : {A : Type 0} → Exec Transport A → Exec Session A
on_transport m s = let (r, t) = m s.transport in (r, record s { transport = t })

abbrev pub on_state : {A : Type 0} → (State → A × State) → Exec Session A
on_state m s = let (a, g) = m s.global_state in (ok a, record s { global_state = g })

abbrev pub close_transport : Exec Session (Unit {0})
close_transport = on_transport Transport.close

-- `frame_value.method_id == id`
abbrev pub method_id_is : ℕ → Frame → Bool
method_id_is id (method m) = nat_eq m.method_id id
method_id_is id f = Bool.false

abbrev pub channel_number_of : Frame → ℕ
channel_number_of (method m) = m.channel_number
channel_number_of (header h) = h.channel_number
channel_number_of (body b) = b.channel_number
