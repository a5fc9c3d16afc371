-- ===== src/Protocol/Empty.antt =====
-- service/protocol.py: a channel that waits for the body of a message.
use mock_amqp_server.Prelude.{ℕ, ◌≡◌, refl, Bool, true, false, some, List, [], ◌∷◌, All, nat_keys}
use mock_amqp_server.Dict.{get}
use mock_amqp_server.Python.{ok}
use mock_amqp_server.Python.Sets.{Runtime}
use mock_amqp_server.Serialization.{Codec}
use mock_amqp_server.Method.{Header, BasicPublish}
use mock_amqp_server.Method.MethodIds
use mock_amqp_server.Frame.{Frame, method, header, body}
use mock_amqp_server.Message
use mock_amqp_server.Protocol.{Session, Channel, ChannelState, method_id_is}
use mock_amqp_server.Protocol.Channels.{treat_channel_frame, on_waiting_body}
use mock_amqp_server.Protocol.Publish.{
  publish_frame, awaiting_header, awaiting_body, with_channel, treat_all, publish_step, header_step,
  get-put_same,
}

abbrev pub is_body : Frame → Bool
is_body (body b) = true
is_body f = false

-- A frame that is neither a body nor `channel.close`.
abbrev pub IsIdle : Frame → Type 0
IsIdle f = (is_body f ≡ false) × (method_id_is MethodIds.channel_close f ≡ false)

module _ ⦃codec : Codec⦄ ⦃runtime : Runtime⦄ where
  on_waiting_body-idle :
      (n : ℕ) (c : Channel) (f : Frame) (s : Session)
      → is_body f ≡ false
      → on_waiting_body n c f s ≡ (ok tt, s)
  unfolding on_waiting_body
  on_waiting_body-idle n c (method m) s e = refl
  on_waiting_body-idle n c (header h) s e = refl
  on_waiting_body-idle n c (body b) s e = cc

  idle_step :
      (n : ℕ) (c : Channel) (f : Frame) (s : Session)
      → get n s.channels ≡ some c
      → c.state ≡ ChannelState.waiting_body
      → IsIdle f
      → treat_channel_frame n f s ≡ (ok tt, s)
  unfolding treat_channel_frame
  idle_step n c f s e waiting idle =
      rw (e, waiting, idle.1)
        (on_waiting_body-idle n (record c { state = ChannelState.waiting_body }) f s idle.0)

  -- A channel that waits for the body of a message ignores, without an error or an answer, any
  -- sequence of frames in which there is no body and no `channel.close`.
  pub treat_all-idle :
      (fs : List Frame) (n : ℕ) (c : Channel) (s : Session)
      → get n s.channels ≡ some c
      → c.state ≡ ChannelState.waiting_body
      → All IsIdle fs
      → treat_all n fs s ≡ (ok tt, s)
  treat_all-idle [] n c s e waiting idle = refl
  treat_all-idle (f ∷ fs) n c s e waiting idle =
      rw (idle_step n c f s e waiting idle.0) (treat_all-idle fs n c s e waiting idle.1)

  -- A message that is published on an open channel with an empty body, which AMQP sends without
  -- a body frame, is never stored: the broker's state stays as it was, and the channel, which
  -- keeps waiting for a body, answers none of the frames that follow, up to a body or
  -- `channel.close`.
  pub empty_message_lem :
      (n size : ℕ) (c : Channel) (p : BasicPublish) (h : Header) (fs : List Frame) (s : Session)
      → get n s.channels ≡ some c
      → c.state ≡ ChannelState.opened
      → h.body_size ≡ 0
      → All IsIdle fs
      → let out = treat_all n (publish_frame n size p ∷ header h ∷ fs) s in
        (out.0 ≡ ok tt)
        × (out.1.global_state ≡ s.global_state)
        × (out.1.transport ≡ s.transport)
        × (get n out.1.channels
            ≡ some (awaiting_body p.exchange_name p.routing_key (Message.new_message h)))
  empty_message_lem n size c p h fs s e opened none_sent idle =
      rw
        (
          publish_step n size c p s e opened,
          header_step n p.exchange_name p.routing_key c.on_going_message h named
              (get-put_same n _ s.channels),
          treat_all-idle fs n waiting (with_channel n waiting named)
              (get-put_same n waiting named.channels) refl idle,
        )
        (refl, refl, refl, get-put_same n waiting named.channels)
    where
      named : Session
      named = with_channel n (awaiting_header p.exchange_name p.routing_key c.on_going_message) s

      waiting : Channel
      waiting = awaiting_body p.exchange_name p.routing_key (Message.new_message h)
