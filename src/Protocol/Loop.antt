-- ===== src/Protocol/Loop.antt =====
-- service/protocol.py: the fuel of the loop of `data_received`.
use mock_amqp_server.Prelude.{
  ap, ℕ, zero, suc, ◌<◌, ◌≡◌, refl, Bool, true, false, Option, none, some, [], ◌∷◌, arith, length,
  drop, length-drop,
}
use mock_amqp_server.Python.{Bytes, Result, ok, err, Exec}
use mock_amqp_server.Python.Sets.{Runtime}
use mock_amqp_server.Serialization.{Codec}
use mock_amqp_server.Frame.{FrameValue, size_of, read_frame}
use mock_amqp_server.Frame.Progress.{size-read_frame}
use mock_amqp_server.Protocol.{Session}
use mock_amqp_server.Protocol.Connections.{
  treat_frame, frame_loop, after_frame, after_read, loop_round,
}
use mock_amqp_server.Protocol.Closed.{Closed}
use mock_amqp_server.Protocol.Handshake.{treat_frame-Keeps}

module _ ⦃codec : Codec⦄ ⦃runtime : Runtime⦄ where
  buffer-Closed : (b : Bytes) → Closed (λ s. s.buffer ≡ b)
  buffer-Closed b = record {
    transport = λ s t h. h;
    channels = λ s c h. h;
    exchange = λ x type s h. h;
    queue = λ q s h. h;
    bind = λ q x s h. h;
    consumer = λ id tag q n s h. h;
    ack = λ tag s h. h;
    nack = λ tag requeue s h. h;
    store = λ x headers body s h. h;
  }

  pub buffer-treat_frame :
      (value : FrameValue) (s : Session) → (treat_frame value s).1.buffer ≡ s.buffer
  buffer-treat_frame value s =
      (treat_frame-Keeps (buffer-Closed s.buffer) (λ u p t h. h) (λ t p i h. h) value).at s refl

  -- Two rests of the loop that agree on shorter buffers.
  Agree : ℕ → Exec Session (Unit {0}) → Exec Session (Unit {0}) → Type 0
  Agree n a b = (t : Session) → length t.buffer < n → a t ≡ b t

  after_frame-Agree :
      (a b : Exec Session (Unit {0})) (r : Result Bool × Session) (n : ℕ)
      → Agree n a b
      → length r.1.buffer < n
      → after_frame a r ≡ after_frame b r
  unfolding Agree
  after_frame-Agree a b (ok true, s) n h l = h s l
  after_frame-Agree a b (ok false, s) n h l = refl
  after_frame-Agree a b (err e, s) n h l = refl

  after_read-Agree :
      (a b : Exec Session (Unit {0})) (r : Result (Option FrameValue)) (s : Session)
      → Agree (length s.buffer) a b
      → read_frame s.buffer ≡ r
      → after_read a r s ≡ after_read b r s
  after_read-Agree a b (err e) s h e' = refl
  after_read-Agree a b (ok none) s h e' = refl
  after_read-Agree a b (ok (some value)) s h e' =
      let taken = record s { buffer = drop (size_of value) s.buffer } in
      after_frame-Agree a b (treat_frame value taken) (length s.buffer) h (
        omega (
          arith,
          ap length (buffer-treat_frame value taken),
          length-drop (size_of value) s.buffer,
          size-read_frame s.buffer e',
        ))

  loop_round-Agree :
      (a b : Exec Session (Unit {0})) (bytes : Bytes) (s : Session)
      → bytes ≡ s.buffer
      → Agree (length s.buffer) a b
      → loop_round a bytes s ≡ loop_round b bytes s
  loop_round-Agree a b [] s e h = refl
  loop_round-Agree a b (x ∷ xs) s e h = after_read-Agree a b (read_frame (x ∷ xs)) s h (rw e)

  -- Any two amounts of fuel above the length of the buffer give the same run.
  pub frame_loop_enough :
      (f g : ℕ) (s : Session)
      → length s.buffer < f
      → length s.buffer < g
      → frame_loop f s ≡ frame_loop g s
  unfolding frame_loop Agree
  frame_loop_enough zero g s hf hg = absurd (omega arith)
  frame_loop_enough (suc f) zero s hf hg = absurd (omega arith)
  frame_loop_enough (suc f) (suc g) s hf hg =
      loop_round-Agree (frame_loop f) (frame_loop g) s.buffer s refl
        (λ t l. frame_loop_enough f g t (omega arith) (omega arith))

  -- The run that `data_received` makes.
  abbrev pub run : Exec Session (Unit {0})
  run s = frame_loop (suc (length s.buffer)) s

  -- The loop with the fuel that `data_received` gives it is the loop of the source: on every
  -- session it is one round followed by the loop itself, so the fuel never cuts it short.
  pub run_unrolls : (s : Session) → run s ≡ loop_round run s.buffer s
  unfolding frame_loop
  run_unrolls s = loop_round-Agree (frame_loop (length s.buffer)) run s.buffer s refl (
      unfold Agree in
      λ t l. frame_loop_enough (length s.buffer) (suc (length t.buffer)) t l (omega arith))
