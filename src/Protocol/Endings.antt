-- ===== src/Protocol/Endings.antt =====
-- service/protocol.py: the ways in which the loop of `data_received` ends.
use mock_amqp_server.Prelude.{
  ap, ℕ, zero, suc, ◌<◌, ◌≡◌, refl, ◌∙◌, Bool, true, false, Option, none, some, [], ◌∷◌, drop,
  arith, length, length-drop, inl, inr, ◌⊎◌,
}
use mock_amqp_server.Python.{Bytes, Error, Result, ok, err, Exec}
use mock_amqp_server.Python.Sets.{Runtime}
use mock_amqp_server.Serialization.{Codec}
use mock_amqp_server.Frame.{FrameValue, size_of, read_frame, unpack_frame_header}
use mock_amqp_server.Frame.Progress.{size-read_frame}
use mock_amqp_server.Protocol.{Session}
use mock_amqp_server.Protocol.Connections.{treat_frame, after_read, loop_round}
use mock_amqp_server.Protocol.Loop.{run, run_unrolls, buffer-treat_frame}
use mock_amqp_server.Protocol.Greeting.{with_buffer}

module _ ⦃codec : Codec⦄ ⦃runtime : Runtime⦄ where
  -- The loop goes from `s` to `t` when it treats the frames that are whole, each of whose handlers
  -- lets it go on, and stops since what is left in the buffer is no whole frame.
  pub data Drains : Session → Session → Type 0 where
    stuck : (s : Session) → read_frame s.buffer ≡ ok none → Drains s s
    round :
        (value : FrameValue) (s t u : Session)
        → read_frame s.buffer ≡ ok (some value)
        → treat_frame value (with_buffer (drop (size_of value) s.buffer) s) ≡ (ok true, t)
        → Drains t u
        → Drains s u

  loop_round-read :
      (again : Exec Session (Unit {0})) (b : Bytes) (s : Session)
      → loop_round again b s ≡ after_read again (read_frame b) s
  unfolding read_frame unpack_frame_header
  loop_round-read again [] s = refl
  loop_round-read again (x ∷ xs) s = refl

  run-read : (s : Session) → run s ≡ after_read run (read_frame s.buffer) s
  run-read s = run_unrolls s ∙ loop_round-read run s.buffer s

  run-stuck : (s : Session) → read_frame s.buffer ≡ ok none → run s ≡ (ok tt, s)
  run-stuck s e = run-read s ∙ rw e refl

  pub run-round :
      (value : FrameValue) (s t : Session)
      → read_frame s.buffer ≡ ok (some value)
      → treat_frame value (with_buffer (drop (size_of value) s.buffer) s) ≡ (ok true, t)
      → run s ≡ run t
  run-round value s t e treated = run-read s ∙ rw (e, treated) refl

  pub run-Drains : {s t : Session} → Drains s t → run s ≡ (ok tt, t)
  run-Drains (stuck s e) = run-stuck s e
  run-Drains (round value s t u e treated rest) = run-round value s t e treated ∙ run-Drains rest

  -- The loop ends in `t` at a frame behind which it does not look for another: the handler of the
  -- frame says so or raises, or the frame cannot be read.
  pub data Stops : Session → Result (Unit {0}) → Session → Type 0 where
    unread : (e : Error) (s : Session) → read_frame s.buffer ≡ err e → Stops s (err e) s
    last :
        (value : FrameValue) (s t : Session)
        → read_frame s.buffer ≡ ok (some value)
        → treat_frame value (with_buffer (drop (size_of value) s.buffer) s) ≡ (ok false, t)
        → Stops s (ok tt) t
    raised :
        (value : FrameValue) (e : Error) (s t : Session)
        → read_frame s.buffer ≡ ok (some value)
        → treat_frame value (with_buffer (drop (size_of value) s.buffer) s) ≡ (err e, t)
        → Stops s (err e) t
    behind :
        (value : FrameValue) (r : Result (Unit {0})) (s t u : Session)
        → read_frame s.buffer ≡ ok (some value)
        → treat_frame value (with_buffer (drop (size_of value) s.buffer) s) ≡ (ok true, t)
        → Stops t r u
        → Stops s r u

  -- Every run of the loop ends in one of the two ways.
  abbrev pub Ended : Session → Type 0
  Ended s = ((t : Session) × Drains s t) ⊎ ((r : Result (Unit {0})) × (t : Session) × Stops s r t)

  Ended-treated :
      (value : FrameValue) (s : Session) (out : Result Bool × Session)
      → read_frame s.buffer ≡ ok (some value)
      → treat_frame value (with_buffer (drop (size_of value) s.buffer) s) ≡ out
      → Ended out.1
      → Ended s
  Ended-treated value s (err e, t) read treated rest =
      inr (err e, t, raised value e s t read treated)
  Ended-treated value s (ok false, t) read treated rest =
      inr (ok tt, t, last value s t read treated)
  Ended-treated value s (ok true, t) read treated (inl (u, drains)) =
      inl (u, round value s t u read treated drains)
  Ended-treated value s (ok true, t) read treated (inr (r, u, stops)) =
      inr (r, u, behind value r s t u read treated stops)

  Ended-read :
      (r : Result (Option FrameValue)) (s : Session)
      → read_frame s.buffer ≡ r
      → ((t : Session) → length t.buffer < length s.buffer → Ended t)
      → Ended s
  Ended-read (err e) s read shorter = inr (err e, s, unread e s read)
  Ended-read (ok none) s read shorter = inl (s, stuck s read)
  Ended-read (ok (some value)) s read shorter =
      let taken = with_buffer (drop (size_of value) s.buffer) s in
      Ended-treated value s (treat_frame value taken) read refl (
        shorter (treat_frame value taken).1 (
          omega (
            arith,
            ap length (buffer-treat_frame value taken),
            length-drop (size_of value) s.buffer,
            size-read_frame s.buffer read,
          )))

  pub Ended-below : (n : ℕ) (s : Session) → length s.buffer < n → Ended s
  Ended-below zero s h = absurd (omega arith)
  Ended-below (suc n) s h =
      Ended-read (read_frame s.buffer) s refl (λ t less. Ended-below n t (omega arith))

  pub run-Stops : {s t : Session} {r : Result (Unit {0})} → Stops s r t → run s ≡ (r, t)
  run-Stops (unread e s read) = run-read s ∙ rw read refl
  run-Stops (last value s t read treated) = run-read s ∙ rw (read, treated) refl
  run-Stops (raised value e s t read treated) = run-read s ∙ rw (read, treated) refl
  run-Stops (behind value r s t u read treated rest) =
      run-round value s t read treated ∙ run-Stops rest
