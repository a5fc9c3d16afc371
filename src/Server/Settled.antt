-- ===== src/Server/Settled.antt =====
-- service/protocol.py, service/state.py and service/http_protocol.py together: a client settles a
-- message, and the inspector that waits for that is answered.
use mock_amqp_server.Prelude.{
  ℕ, ◌<◌, ◌≡◌, refl, ap, ◌∙◌, Bool, true, false, some, [], arith, nat_keys,
}
use mock_amqp_server.Dict.{get, eq_refl}
use mock_amqp_server.Python.Decimals.{ℤ, pos}
use mock_amqp_server.Python.Sets.{Runtime, member, member-add}
use mock_amqp_server.Serialization.{Codec}
use mock_amqp_server.Method.{BasicAck, BasicNack, basic_ack, basic_nack}
use mock_amqp_server.Method.MethodIds
use mock_amqp_server.Frame.{Frame, method}
use mock_amqp_server.State.{State, message_ack, message_nack}
use mock_amqp_server.Protocol.{Session, Channel, ChannelState}
use mock_amqp_server.Protocol.Channels.{treat_channel_frame, on_opened, on_basic_ack, on_basic_nack}
use mock_amqp_server.Http.{
  H11, Clock, Wait, acknowledged, not_acknowledged, requeued, HttpSession,
  send_http_response_no_content, send_http_response_timeout,
}
use mock_amqp_server.Http.Futures.{outcome, on_get_done, default_timeout}
use mock_amqp_server.Http.Waits.{on_get_done-outcome}

abbrev pub ack_frame : ℕ → ℕ → BasicAck → Frame
ack_frame n size p = method (record {
  channel_number = n;
  size = size;
  method_id = MethodIds.basic_ack;
  properties = basic_ack p;
})

abbrev pub nack_frame : ℕ → ℕ → BasicNack → Frame
nack_frame n size p = method (record {
  channel_number = n;
  size = size;
  method_id = MethodIds.basic_nack;
  properties = basic_nack p;
})

-- the wait that a refusal ends
abbrev pub refusal : Bool → ℤ → Wait
refusal true = requeued
refusal false = not_acknowledged

ack-member : (tag : ℕ) (g : State) → member tag (message_ack tag g).message_acknowledged ≡ true
unfolding message_ack
ack-member tag g = ground (arith, member-add tag tag g.message_acknowledged, eq_refl tag)

requeue-member :
    (tag : ℕ) (g : State) → member tag (message_nack tag true g).message_requeued ≡ true
unfolding message_nack
requeue-member tag g = ground (arith, member-add tag tag g.message_requeued, eq_refl tag)

refuse-member :
    (tag : ℕ) (g : State) → member tag (message_nack tag false g).message_not_acknowledged ≡ true
unfolding message_nack
refuse-member tag g = ground (arith, member-add tag tag g.message_not_acknowledged, eq_refl tag)

module _ ⦃codec : Codec⦄ ⦃runtime : Runtime⦄ (n size : ℕ) (c : Channel) (s : Session)
    (there : get n s.channels ≡ some c) (opened : c.state ≡ ChannelState.opened) where
  ack_step :
      (p : BasicAck)
      → (treat_channel_frame n (ack_frame n size p) s).1.global_state
        ≡ message_ack p.delivery_tag s.global_state
  unfolding treat_channel_frame on_opened on_basic_ack
  ack_step p = rw (there, opened) refl

  nack_step :
      (p : BasicNack)
      → (treat_channel_frame n (nack_frame n size p) s).1.global_state
        ≡ message_nack p.delivery_tag p.requeue s.global_state
  unfolding treat_channel_frame on_opened on_basic_nack
  nack_step p = rw (there, opened) refl

module _ {C : Type 0} ⦃h11 : H11 C⦄ ⦃clock : Clock⦄ (world : ℕ → State) (i : ℕ)
    (early : i < default_timeout) (h : HttpSession C) where
  acknowledged-answer :
      (tag : ℕ) (g : State)
      → world i ≡ message_ack tag g
      → on_get_done (outcome (acknowledged (pos tag)) world) h ≡ send_http_response_no_content h
  acknowledged-answer tag g seen =
      (on_get_done-outcome world h tag [] []).0.0 i early
        (ap (λ (t : State). member tag t.message_acknowledged) seen ∙ ack-member tag g)

  refusal-answer :
      (tag : ℕ) (requeue : Bool) (g : State)
      → world i ≡ message_nack tag requeue g
      → on_get_done (outcome (refusal requeue (pos tag)) world) h ≡ send_http_response_no_content h
  refusal-answer tag true g seen =
      (on_get_done-outcome world h tag [] []).2.0 i early
        (ap (λ (t : State). member tag t.message_requeued) seen ∙ requeue-member tag g)
  refusal-answer tag false g seen =
      (on_get_done-outcome world h tag [] []).1.0 i early
        (ap (λ (t : State). member tag t.message_not_acknowledged) seen ∙ refuse-member tag g)

-- A client sends `basic.ack` or `basic.nack` on an open channel, and the inspector waits for the
-- delivery tag that it names: for the acknowledgement, for the requeueing if the client asks for
-- it, else for the refusal. If one of the ten looks of the wait finds the broker as the frame has
-- left it, the inspector is answered 204. If the tag is acknowledged at none of the looks, the wait
-- for the acknowledgement is answered 504. Whether the frame says `multiple` makes no difference.
pub on_get_done-settled :
    {C : Type 0} ⦃h11 : H11 C⦄ ⦃clock : Clock⦄ ⦃codec : Codec⦄ ⦃runtime : Runtime⦄ (n size i : ℕ)
    (c : Channel) (s : Session) (a : BasicAck) (r : BasicNack) (world : ℕ → State)
    (h : HttpSession C)
    → get n s.channels ≡ some c
    → c.state ≡ ChannelState.opened
    → i < default_timeout
    → (world i ≡ (treat_channel_frame n (ack_frame n size a) s).1.global_state
        → on_get_done (outcome (acknowledged (pos a.delivery_tag)) world) h
          ≡ send_http_response_no_content h)
      × (world i ≡ (treat_channel_frame n (nack_frame n size r) s).1.global_state
          → on_get_done (outcome (refusal r.requeue (pos r.delivery_tag)) world) h
            ≡ send_http_response_no_content h)
      × (((j : ℕ)
            → j < default_timeout
            → member a.delivery_tag (world j).message_acknowledged ≡ false)
          → on_get_done (outcome (acknowledged (pos a.delivery_tag)) world) h
            ≡ send_http_response_timeout h)
on_get_done-settled n size i c s a r world h there opened early = (
  λ seen.
      acknowledged-answer world i early h a.delivery_tag s.global_state
        (seen ∙ ack_step n size c s there opened a),
  λ seen.
      refusal-answer world i early h r.delivery_tag r.requeue s.global_state
        (seen ∙ nack_step n size c s there opened r),
  (on_get_done-outcome world h a.delivery_tag [] []).0.1,
)
