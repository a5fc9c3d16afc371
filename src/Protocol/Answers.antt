-- ===== src/Protocol/Answers.antt =====
-- service/protocol.py: the declaration and the binding of a queue on an open channel.
use mock_amqp_server.Prelude.{
  ℕ, ◌+◌, ◌<◌, ◌^◌, ◌≡◌, refl, true, some, ◌∷◌, ◌++◌, length, nat_keys, str_keys, Bool-cases, inl,
  inr,
}
use mock_amqp_server.Dict.{get, contains}
use mock_amqp_server.Python.{Str, Bytes, ok}
use mock_amqp_server.Python.Sets.{Runtime}
use mock_amqp_server.Serialization.{Codec}
use mock_amqp_server.Method.{QueueDeclare, QueueBind, queue_declare, queue_bind}
use mock_amqp_server.Method.MethodIds
use mock_amqp_server.Frame.{Frame, method}
use mock_amqp_server.Frame.Layout.{layout}
use mock_amqp_server.State.{State, declare_queue}
use mock_amqp_server.Sender.Transport.{written}
use mock_amqp_server.Sender.Replies.{queue_declare_ok, arguments_of, send, send-Writes}
use mock_amqp_server.Protocol.{Session, Channel, ChannelState, on_transport}
use mock_amqp_server.Protocol.Channels.{treat_channel_frame, on_opened, on_queue_declare}

declare_queue-answer : (q : Str) (s : State) → (declare_queue q s).0 ≡ (true, 0, 0)
unfolding declare_queue
declare_queue-answer q s = elim (Bool-cases (contains q s.queues)) [
  | inl e ↦ rw e refl
  | inr e ↦ rw e refl
]

abbrev pub queue_declare_frame : ℕ → ℕ → QueueDeclare → Frame
queue_declare_frame n size p = method (record {
  channel_number = n;
  size = size;
  method_id = MethodIds.queue_declare;
  properties = queue_declare p;
})

abbrev pub queue_bind_frame : ℕ → ℕ → QueueBind → Frame
queue_bind_frame n size p = method (record {
  channel_number = n;
  size = size;
  method_id = MethodIds.queue_bind;
  properties = queue_bind p;
})

abbrev with_state : State → Session → Session
with_state g s = record s { global_state = g }

module _ ⦃codec : Codec⦄ ⦃runtime : Runtime⦄ where
  declare_step :
      (n size : ℕ) (c : Channel) (p : QueueDeclare) (s : Session)
      → get n s.channels ≡ some c
      → c.state ≡ ChannelState.opened
      → treat_channel_frame n (queue_declare_frame n size p) s
        ≡ on_transport
            (send (queue_declare_ok n p.queue_name 0 0))
            (with_state (declare_queue p.queue_name s.global_state).1 s)
  unfolding treat_channel_frame on_opened on_queue_declare
  declare_step n size c p s e opened =
      rw (e, opened, declare_queue-answer p.queue_name s.global_state) refl

  -- `queue.declare` on an open channel below 256 declares the queue and writes one frame, the
  -- `queue.declare-ok` of that channel with the queue's name and the counts 0 and 0, if `dumps`
  -- accepts these and the payload is below 2 ^ 32 bytes. Nothing is raised or closed.
  pub queue_declare-answers :
      (n size : ℕ) (c : Channel) (p : QueueDeclare) (s : Session) (arguments : Bytes)
      → get n s.channels ≡ some c
      → c.state ≡ ChannelState.opened
      → n < 256
      → arguments_of (queue_declare_ok n p.queue_name 0 0) ≡ ok arguments
      → 4 + length arguments < 2 ^ 32
      → let out = treat_channel_frame n (queue_declare_frame n size p) s in
        (out.0 ≡ ok tt)
        × (written out.1.transport.calls
            ≡ written s.transport.calls ++ layout 1 n (0 ∷ 50 ∷ 0 ∷ 11 ∷ arguments))
        × (out.1.transport.closing ≡ s.transport.closing)
        × (out.1.global_state ≡ (declare_queue p.queue_name s.global_state).1)
  queue_declare-answers n size c p s arguments e opened hn dumped short =
      let w =
        send-Writes (queue_declare_ok n p.queue_name 0 0) s.transport arguments hn dumped short in
      rw (declare_step n size c p s e opened) (w.returns, w.bytes, w.still, refl)
