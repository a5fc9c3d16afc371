-- ===== src/Protocol/Publish.antt =====
-- service/protocol.py: a published message, which arrives as a method frame, a header frame and body
-- frames.
use mock_amqp_server.Prelude.{
  ℕ, ◌+◌, ◌<◌, ◌≡◌, refl, ◌∙◌, Bool, true, false, Option, none, some, List, [], ◌∷◌, ◌++◌, arith,
  append_assoc, append-nil, length, length-append, All, nat_eq, nat_keys, str_keys, if◌then◌else◌,
}
use mock_amqp_server.Dict.{Dict, get, put, contains, get-put, eq_refl}
use mock_amqp_server.Python.{Str, Bytes, Result, ok, err, Exec, pure, ◌>>◌}
use mock_amqp_server.Python.Sets.{Runtime, member}
use mock_amqp_server.Serialization.{obj, bytes, Codec}
use mock_amqp_server.Method.{Header, Body, BasicPublish, basic_publish}
use mock_amqp_server.Method.MethodIds
use mock_amqp_server.Frame.{Frame, method, header, body}
use mock_amqp_server.Message
use mock_amqp_server.State.{State, store_message, bound_queues}
use mock_amqp_server.State.Invariant.{WellFormed}
use mock_amqp_server.State.Delivery.{messages_in_queue, Delivered, store_message-delivers}
use mock_amqp_server.Protocol.{Session, Channel, ChannelState}
use mock_amqp_server.Protocol.Channels.{
  treat_channel_frame, on_waiting_body, on_waiting_header, on_basic_publish, on_opened,
}

abbrev pub contents : List Body → Bytes
contents [] = []
contents (b ∷ bs) = b.content ++ contents bs

abbrev pub publish_frame : ℕ → ℕ → BasicPublish → Frame
publish_frame n size p = method (record {
  channel_number = n;
  size = size;
  method_id = MethodIds.basic_publish;
  properties = basic_publish p;
})

-- The channel after `basic.publish`, while `m` is arriving, and after the message.
abbrev pub awaiting_header : Str → Str → Option Message.Message → Channel
awaiting_header x key old = record {
  state = ChannelState.waiting_header;
  exchange = some x;
  routing_key = some key;
  on_going_message = old;
}

abbrev pub awaiting_body : Str → Str → Message.Message → Channel
awaiting_body x key m = record {
  state = ChannelState.waiting_body;
  exchange = some x;
  routing_key = some key;
  on_going_message = some m;
}

abbrev pub published : Str → Str → Channel
published x key = record {
  state = ChannelState.opened;
  exchange = some x;
  routing_key = some key;
  on_going_message = none;
}

abbrev pub with_channel : ℕ → Channel → Session → Session
with_channel n c s = record s { channels = put n c s.channels }

module _ ⦃codec : Codec⦄ ⦃runtime : Runtime⦄ where
  -- The frames of one channel, in their order.
  abbrev pub treat_all : ℕ → List Frame → Exec Session (Unit {0})
  treat_all n [] = pure tt
  treat_all n (f ∷ fs) = do treat_channel_frame n f; treat_all n fs

  abbrev pub body_frames : List Body → List Frame
  body_frames [] = []
  body_frames (b ∷ bs) = body b ∷ body_frames bs

  -- A body frame that leaves the message incomplete.
  more_content :
      (n : ℕ) (x key : Str) (m : Message.Message) (b : Body) (s : Session)
      → get n s.channels ≡ some (awaiting_body x key m)
      → Message.is_complete (Message.add_content b.content m) ≡ false
      → treat_channel_frame n (body b) s
        ≡ (ok tt, with_channel n (awaiting_body x key (Message.add_content b.content m)) s)
  unfolding treat_channel_frame on_waiting_body
  more_content n x key m b s e incomplete = rw (e, incomplete) refl

  -- The body frame that completes the message.
  last_content :
      (n : ℕ) (x key : Str) (m : Message.Message) (b : Body) (s : Session) (g : State)
      → get n s.channels ≡ some (awaiting_body x key m)
      → Message.is_complete (Message.add_content b.content m) ≡ true
      → store_message x (obj m.headers.properties) (bytes (m.content ++ b.content)) s.global_state
        ≡ (ok true, g)
      → treat_channel_frame n (body b) s ≡ (
        ok tt,
        with_channel n (published x key) (
            with_channel n
              (awaiting_body x key (Message.add_content b.content m))
              (record s { global_state = g })),
      )
  unfolding treat_channel_frame on_waiting_body Message.add_content
  last_content n x key m b s g e complete stored = rw (e, complete, stored) refl

  -- What the body frames of a message leave behind.
  record Stored (n : ℕ) (x key : Str) (g : State) (s : Session) (out : Result (Unit {0}) × Session)
      : Type 0 where
    returns : out.0 ≡ ok tt
    channel : get n out.1.channels ≡ some (published x key)
    state : out.1.global_state ≡ g
    transport : out.1.transport ≡ s.transport
    parser_state : out.1.parser_state ≡ s.parser_state

  pub get-put_same : (n : ℕ) (c : Channel) (d : Dict ℕ Channel) → get n (put n c d) ≡ some c
  get-put_same n c d = ground (arith, get-put n n c d, eq_refl n)

  is_complete_lem :
      (m : Message.Message) (content : Bytes)
      → Message.is_complete (Message.add_content content m)
        ≡ nat_eq m.headers.body_size (length m.content + length content)
  unfolding Message.is_complete Message.add_content
  is_complete_lem m content = rw (length-append m.content content) refl

  chunks-Stored :
      (bs : List Body) (n : ℕ) (x key : Str) (m : Message.Message) (b : Body) (s : Session)
      (g : State)
      → get n s.channels ≡ some (awaiting_body x key m)
      → All (λ c. 0 < length c.content) (b ∷ bs)
      → m.headers.body_size ≡ length m.content + length (contents (b ∷ bs))
      → store_message x
          (obj m.headers.properties)
          (bytes (m.content ++ contents (b ∷ bs)))
          s.global_state
        ≡ (ok true, g)
      → Stored n x key g s (treat_all n (body_frames (b ∷ bs)) s)
  unfolding Message.add_content
  chunks-Stored [] n x key m b s g e sizes whole stored =
      rw
        (last_content n x key m b s g e
          (is_complete_lem m b.content ∙ ground (arith, append-nil b.content))
          (rw (append-nil b.content) at stored))
        (record {
          returns = refl;
          channel = get-put_same n (published x key) _;
          state = refl;
          transport = refl;
          parser_state = refl;
        })
  chunks-Stored (c ∷ bs) n x key m b s g e sizes whole stored =
      let rest =
        chunks-Stored bs n x key grown c next g
          (get-put_same n (awaiting_body x key grown) s.channels) sizes.1 shorter
          (rw (append_assoc m.content b.content (contents (c ∷ bs))) stored) in
      rw (more_content n x key m b s e (is_complete_lem m b.content ∙ incomplete)) (record {
        returns = rest.returns;
        channel = rest.channel;
        state = rest.state;
        transport = rest.transport;
        parser_state = rest.parser_state;
      })
    where
      grown : Message.Message
      grown = Message.add_content b.content m

      next : Session
      next = with_channel n (awaiting_body x key grown) s

      incomplete : nat_eq m.headers.body_size (length m.content + length b.content) ≡ false
      incomplete = ground (
        arith,
        sizes.1.0,
        length-append b.content (contents (c ∷ bs)),
        length-append c.content (contents bs),
      )

      shorter : grown.headers.body_size ≡ length grown.content + length (contents (c ∷ bs))
      shorter =
          unfold Message.add_content in
          ground (
            arith,
            whole,
            length-append m.content b.content,
            length-append b.content (contents (c ∷ bs)),
          )

  pub publish_step :
      (n size : ℕ) (c : Channel) (p : BasicPublish) (s : Session)
      → get n s.channels ≡ some c
      → c.state ≡ ChannelState.opened
      → treat_channel_frame n (publish_frame n size p) s ≡ (
        ok tt,
        with_channel n (awaiting_header p.exchange_name p.routing_key c.on_going_message) s,
      )
  unfolding treat_channel_frame on_opened on_basic_publish
  publish_step n size c p s e opened = rw (e, opened) refl

  pub header_step :
      (n : ℕ) (x key : Str) (old : Option Message.Message) (h : Header) (s : Session)
      → get n s.channels ≡ some (awaiting_header x key old)
      → treat_channel_frame n (header h) s
        ≡ (ok tt, with_channel n (awaiting_body x key (Message.new_message h)) s)
  unfolding treat_channel_frame on_waiting_header on_waiting_body
  header_step n x key old h s e = rw e refl

  answered : (out : Result Bool × State) → out.0 ≡ ok true → out ≡ (ok true, out.1)
  answered (ok true, g) e = refl
  answered (ok false, g) e = cc
  answered (err e', g) e = cc

  -- On a well formed state and an open channel, `basic.publish` to an exchange that is there, a
  -- header frame and body frames that carry exactly the announced number of bytes, none of them
  -- empty, raise nothing and write nothing to the client. The channel is open again, and each
  -- queue bound to the exchange, and no other, has got one message, with the header's properties
  -- and the joined content.
  pub publish-delivers :
      (n size : ℕ) (c : Channel) (p : BasicPublish) (h : Header) (b : Body) (bs : List Body)
      (s : Session)
      → WellFormed s.global_state
      → get n s.channels ≡ some c
      → c.state ≡ ChannelState.opened
      → contains p.exchange_name s.global_state.exchanges ≡ true
      → All (λ k. 0 < length k.content) (b ∷ bs)
      → h.body_size ≡ length (contents (b ∷ bs))
      → let out = treat_all n (publish_frame n size p ∷ header h ∷ body_frames (b ∷ bs)) s in
        (out.0 ≡ ok tt)
        × (get n out.1.channels ≡ some (published p.exchange_name p.routing_key))
        × (out.1.transport ≡ s.transport)
        × ((q : Str)
            → messages_in_queue q out.1.global_state ≡ (
                messages_in_queue q s.global_state
                ++ (if member q (bound_queues p.exchange_name s.global_state)
                    then record { headers = obj h.properties; body = bytes (contents (b ∷ bs)) }
                      ∷ []
                    else [])))
  unfolding Message.new_message
  publish-delivers n size c p h b bs s w e opened there sizes whole =
      rw
        (
          publish_step n size c p s e opened,
          header_step n x p.routing_key c.on_going_message h
              (with_channel n (awaiting_header x p.routing_key c.on_going_message) s)
              (get-put_same n _ s.channels),
        )
        (chunks.returns, chunks.channel, chunks.transport, λ q. rw chunks.state (delivered.1 q))
    where
      x : Str
      x = p.exchange_name

      content : Bytes
      content = contents (b ∷ bs)

      delivered : Delivered x (obj h.properties) (bytes content) s.global_state
      delivered = store_message-delivers x (obj h.properties) (bytes content) s.global_state w there

      next : Session
      next =
          with_channel n (awaiting_body x p.routing_key (Message.new_message h))
            (with_channel n (awaiting_header x p.routing_key c.on_going_message) s)

      chunks :
          Stored n x p.routing_key
            (store_message x (obj h.properties) (bytes content) s.global_state).1
            next
            (treat_all n (body_frames (b ∷ bs)) next)
      chunks =
          chunks-Stored bs n x p.routing_key (Message.new_message h) b next _ (get-put_same n _ _)
            sizes (ground (arith, whole))
            (answered (store_message x (obj h.properties) (bytes content) s.global_state)
              delivered.0)
