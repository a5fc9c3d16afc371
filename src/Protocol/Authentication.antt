-- ===== src/Protocol/Authentication.antt =====
-- service/protocol.py: the login, over all the bytes that `data_received` may get.
use mock_amqp_server.Prelude.{
  ℕ, ◌≡◌, refl, ◌∙◌, Bool, true, false, some, arith, str_keys, if◌then◌else◌,
}
use mock_amqp_server.Dict.{Dict, get, get-put, eq_refl}
use mock_amqp_server.Python.{Str, Bytes, Result, ok, err, Exec, continue, pure, modify, gets, ◌>>=◌}
use mock_amqp_server.Python.Sets.{Runtime}
use mock_amqp_server.Python.Keeps.{Keeps, keeps_rules}
use mock_amqp_server.Serialization.{Codec}
use mock_amqp_server.State.{
  State, is_password, check_credentials, declare_exchange, declare_queue, bind_queue,
}
use mock_amqp_server.State.Transfer.{
  register_consumer-SameKeys, message_ack-SameKeys, message_nack-SameKeys, store_message-SameKeys,
}
use mock_amqp_server.Frame.{Frame, FrameValue, frame, heart_beat}
use mock_amqp_server.Sender.Connection.{send_heartbeat}
use mock_amqp_server.Protocol.{Session, ConnectionState, on_transport, on_state}
use mock_amqp_server.Protocol.Channels.{treat_channel_frame, upsert_channel}
use mock_amqp_server.Protocol.Connections.{
  check_start_ok, after_credentials, on_start_ok, on_tune_ok, on_open, on_close, by_parser_state,
  treat_connection_frame, treat_frame, data_received, greet,
}
use mock_amqp_server.Protocol.Closed.{
  Keeps-transport, Closed, treat_channel_frame-Keeps, upsert_channel-Keeps,
}
use mock_amqp_server.Protocol.Handshake.{
  after_credentials-Keeps, on_tune_ok-Keeps, on_open-Keeps, on_close-Keeps, check_start_ok-Keeps,
  data_received-Keeps, greet-Keeps, IsPastLogin,
}

-- Some user's last recorded attempt was good.
abbrev pub HasLogin : Session → Type 0
HasLogin s = (u : Str) × (get u s.global_state.authentication_tried_on ≡ some true)

abbrev pub IsAuthenticated : Session → Type 0
IsAuthenticated s = IsPastLogin s.parser_state → HasLogin s

tried-declare_exchange :
    (x type : Str) (g : State)
    → (declare_exchange x type g).1.authentication_tried_on ≡ g.authentication_tried_on
unfolding declare_exchange
tried-declare_exchange x type g = ground arith

tried-bind_queue :
    (q x : Str) (g : State)
    → (bind_queue q x g).1.authentication_tried_on ≡ g.authentication_tried_on
unfolding bind_queue
tried-bind_queue q x g = ground arith

tried-declare_queue :
    (q : Str) (g : State)
    → (declare_queue q g).1.authentication_tried_on ≡ g.authentication_tried_on
unfolding declare_queue
tried-declare_queue q g = ground arith

module _ ⦃codec : Codec⦄ ⦃runtime : Runtime⦄ where
  -- The connection's state and the recorded logins, which no frame of a channel touches.
  login-Closed :
      (p : ConnectionState) (tried : Dict Str Bool)
      → Closed (λ s. (s.parser_state ≡ p) × (s.global_state.authentication_tried_on ≡ tried))
  login-Closed p tried = record {
    transport = λ s t h. h;
    channels = λ s c h. h;
    exchange = λ x type s h. (h.0, tried-declare_exchange x type s.global_state ∙ h.1);
    queue = λ q s h. (h.0, tried-declare_queue q s.global_state ∙ h.1);
    bind = λ q x s h. (h.0, tried-bind_queue q x s.global_state ∙ h.1);
    consumer =
        λ id tag q n s h. (h.0, (register_consumer-SameKeys id tag q n s.global_state).tried ∙ h.1);
    ack = λ tag s h. (h.0, (message_ack-SameKeys tag s.global_state).tried ∙ h.1);
    nack = λ tag requeue s h. (h.0, (message_nack-SameKeys tag requeue s.global_state).tried ∙ h.1);
    store = λ x headers value s h.
        (h.0, (store_message-SameKeys x headers value s.global_state).tried ∙ h.1);
  }

  -- What keeps both keeps the invariant.
  IsAuthenticated-same :
      (s t : Session)
      → (t.parser_state ≡ s.parser_state)
        × (t.global_state.authentication_tried_on ≡ s.global_state.authentication_tried_on)
      → IsAuthenticated s
      → IsAuthenticated t
  IsAuthenticated-same s t (ep, et) h past = rw et (h (rw ep at past))

  kept :
      {A : Type 0} (m : Exec Session A)
      → ((p : ConnectionState) (d : Dict Str Bool)
          → Keeps (λ s. (s.parser_state ≡ p) × (s.global_state.authentication_tried_on ≡ d)) m)
      → Keeps IsAuthenticated m
  kept m k = record {
    at = λ s h.
        IsAuthenticated-same s (m s).1
          ((k s.parser_state s.global_state.authentication_tried_on).at s (refl, refl)) h;
  }

  channel_frame-IsAuthenticated :
      (n : ℕ) (f : Frame) → Keeps IsAuthenticated (treat_channel_frame n f)
  channel_frame-IsAuthenticated n f =
      kept (treat_channel_frame n f) (λ p d. treat_channel_frame-Keeps (login-Closed p d) n f)

  -- The recorded logins alone.
  tried-Closed :
      (tried : Dict Str Bool) → Closed (λ s. s.global_state.authentication_tried_on ≡ tried)
  tried-Closed tried = record {
    transport = λ s t h. h;
    channels = λ s c h. h;
    exchange = λ x type s h. tried-declare_exchange x type s.global_state ∙ h;
    queue = λ q s h. tried-declare_queue q s.global_state ∙ h;
    bind = λ q x s h. tried-bind_queue q x s.global_state ∙ h;
    consumer = λ id tag q n s h. (register_consumer-SameKeys id tag q n s.global_state).tried ∙ h;
    ack = λ tag s h. (message_ack-SameKeys tag s.global_state).tried ∙ h;
    nack = λ tag requeue s h. (message_nack-SameKeys tag requeue s.global_state).tried ∙ h;
    store =
        λ x headers value s h. (store_message-SameKeys x headers value s.global_state).tried ∙ h;
  }

  -- An action that keeps the recorded logins keeps a login.
  HasLogin-same :
      {A : Type 0} (m : Exec Session A)
      → ((d : Dict Str Bool) → Keeps (λ s. s.global_state.authentication_tried_on ≡ d) m)
      → (s : Session) → HasLogin s
      → HasLogin (m s).1
  HasLogin-same m k s (u, e) = (u, rw ((k s.global_state.authentication_tried_on).at s refl) e)

-- `m` answers True only where a good login is on record.
record Records (m : Exec Session Bool) : Type 0 where
  at : (s : Session) → (m s).0 ≡ ok true → HasLogin (m s).1

Records-false : Records (pure false)
Records-false = record { at = λ s h. cc }

Records-if :
    (b : Bool) (m n : Exec Session Bool) → Records m → Records n → Records (if b then m else n)
Records-if true m n km kn = km
Records-if false m n km kn = kn

Records-continue :
    {A : Type 0} (r : Result A) (f : A → Exec Session Bool)
    → ((a : A) → Records (f a))
    → (s : Session) → (continue r f s).0 ≡ ok true
    → HasLogin (continue r f s).1
Records-continue (ok a) f kf s h = (kf a).at s h
Records-continue (err e) f kf s h = cc

Records-bind :
    {A : Type 0} (m : Exec Session A) (f : A → Exec Session Bool)
    → ((a : A) → Records (f a))
    → Records (m >>= f)
Records-bind m f kf = record { at = λ s h. Records-continue (m s).0 f kf (m s).1 h }

check_credentials-Records : (u p : Str) → Records (on_state (check_credentials u p))
unfolding check_credentials
check_credentials-Records u p = record {
  at =
      λ s h. (u, rw (get-put, eq_refl u) (recorded (is_password (get u s.global_state.users) p) h));
}
  where
    recorded : (b : Bool) → ◌≡◌ {A = Result Bool} (ok b) (ok true) → some b ≡ some true
    recorded b h = cc

module _ ⦃codec : Codec⦄ ⦃runtime : Runtime⦄ where
  check_start_ok-Records : (f : Frame) → Records (check_start_ok f)
  unfolding check_start_ok
  check_start_ok-Records f =
      search (Records-false, Records-if, Records-bind, check_credentials-Records) depth 7

  after_check :
      (r : Result Bool) (s : Session)
      → s.parser_state ≡ ConnectionState.waiting_start_ok
      → (r ≡ ok true → HasLogin s)
      → IsAuthenticated (continue r after_credentials s).1
  after_check (ok true) s e h past =
      HasLogin-same (after_credentials true)
        (λ d. after_credentials-Keeps (tried-Closed d) (λ t p i k. k) true) s (h refl)
  after_check (ok false) s e h past = absurd (rw e at past)
  after_check (err x) s e h past = absurd (rw e at past)

  parser-Closed : (p : ConnectionState) → Closed (λ s. s.parser_state ≡ p)
  parser-Closed p = record {
    transport = λ s t h. h;
    channels = λ s c h. h;
    exchange = λ x type s h. h;
    queue = λ q s h. h;
    bind = λ q x s h. h;
    consumer = λ id tag q n s h. h;
    ack = λ tag s h. h;
    nack = λ tag requeue s h. h;
    store = λ x headers value s h. h;
  }

  on_start_ok-IsAuthenticated :
      (f : Frame) (s : Session)
      → s.parser_state ≡ ConnectionState.waiting_start_ok
      → IsAuthenticated (on_start_ok f s).1
  unfolding on_start_ok
  on_start_ok-IsAuthenticated f s e =
      after_check (check_start_ok f s).0 (check_start_ok f s).1
        ((check_start_ok-Keeps (parser-Closed ConnectionState.waiting_start_ok) (λ u p t h. h) f).at
          s e)
        ((check_start_ok-Records f).at s)

  by_parser_state-IsAuthenticated :
      (p : ConnectionState) (f : Frame) (s : Session)
      → s.parser_state ≡ p
      → IsAuthenticated s
      → IsAuthenticated (by_parser_state p f s).1
  by_parser_state-IsAuthenticated ConnectionState.waiting_start_ok f s e h =
      on_start_ok-IsAuthenticated f s e
  by_parser_state-IsAuthenticated ConnectionState.waiting_tune_ok f s e h = λ past.
      HasLogin-same (on_tune_ok f) (λ d. on_tune_ok-Keeps (tried-Closed d) (λ t p i k. k) f) s
        (h (rw e tt))
  by_parser_state-IsAuthenticated ConnectionState.waiting_open f s e h = λ past.
      HasLogin-same (on_open f) (λ d. on_open-Keeps (tried-Closed d) (λ t p i k. k) f) s
        (h (rw e tt))
  by_parser_state-IsAuthenticated _ f s e h = h

  dispatch-IsAuthenticated :
      (f : Frame) → Keeps IsAuthenticated (gets (λ s. s.parser_state) >>= λ p. by_parser_state p f)
  dispatch-IsAuthenticated f = record {
    at = λ s h. by_parser_state-IsAuthenticated s.parser_state f s refl h;
  }

  on_close-IsAuthenticated : Keeps IsAuthenticated on_close
  on_close-IsAuthenticated = kept on_close (λ p d. on_close-Keeps (login-Closed p d))

  heartbeat-IsAuthenticated : Keeps IsAuthenticated (on_transport send_heartbeat)
  heartbeat-IsAuthenticated =
      kept (on_transport send_heartbeat) (λ p d. Keeps-transport (login-Closed p d) send_heartbeat)

  upsert-IsAuthenticated : (n : ℕ) → Keeps IsAuthenticated (modify (upsert_channel n))
  upsert-IsAuthenticated n =
      kept (modify (upsert_channel n)) (λ p d. upsert_channel-Keeps (login-Closed p d) n)

  frame-IsAuthenticated : (value : FrameValue) → Keeps IsAuthenticated (treat_frame value)
  unfolding treat_frame treat_connection_frame
  frame-IsAuthenticated (heart_beat h) = search (keeps_rules, heartbeat-IsAuthenticated)
  frame-IsAuthenticated (frame f) =
      search
        (
          keeps_rules, channel_frame-IsAuthenticated, on_close-IsAuthenticated,
          dispatch-IsAuthenticated, upsert-IsAuthenticated,
        )
        depth 7

  before-Closed : Closed (λ s. IsPastLogin s.parser_state → ⊥)
  before-Closed = record {
    transport = λ s t h. h;
    channels = λ s c h. h;
    exchange = λ x type s h. h;
    queue = λ q s h. h;
    bind = λ q x s h. h;
    consumer = λ id tag q n s h. h;
    ack = λ tag s h. h;
    nack = λ tag requeue s h. h;
    store = λ x headers value s h. h;
  }

  greet-IsAuthenticated :
      (s : Session)
      → s.parser_state ≡ ConnectionState.waiting_protocol_header
      → IsAuthenticated (greet s).1
  greet-IsAuthenticated s e past =
      absurd ((greet-Keeps before-Closed (λ t b h. h) (λ t h k. k)).at s (λ k. rw e at k) past)

  -- Whatever bytes a client sends, `data_received` keeps this invariant, also when an exception
  -- ends it: if the connection is past the login, the broker has a good attempt on record for
  -- some user.
  pub data_received-IsAuthenticated :
      (received : Bytes) (s : Session)
      → IsAuthenticated s
      → IsAuthenticated (data_received received s).1
  data_received-IsAuthenticated received s h =
      (data_received-Keeps frame-IsAuthenticated (λ t b k. k) (λ t e k. greet-IsAuthenticated t e)
          received).at
        s h
