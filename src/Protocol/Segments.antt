-- ===== src/Protocol/Segments.antt =====
-- service/protocol.py: a stream that `data_received` gets in parts.
use mock_amqp_server.Prelude.{
  ap, ◌≡◌, ◌≢◌, refl, sym, ◌∙◌, Bool, true, none, some, ◌++◌, append_assoc, drop, drop-append_le,
  suc, arith, length, Option, inl, inr, ◌⊎◌, false,
}
use mock_amqp_server.Python.{Bytes, Result, ok, err}
use mock_amqp_server.Python.Sets.{Runtime}
use mock_amqp_server.Serialization.{Codec}
use mock_amqp_server.Frame.{FrameValue, size_of, read_frame}
use mock_amqp_server.Frame.Progress.{size-read_frame, read_frame-append}
use mock_amqp_server.Protocol.{Session, ConnectionState}
use mock_amqp_server.Protocol.Connections.{treat_frame, by_handshake, data_received}
use mock_amqp_server.Protocol.Loop.{run, buffer-treat_frame}
use mock_amqp_server.Protocol.Endings.{
  Drains, stuck, round, Stops, unread, last, raised, behind, run-round, run-Drains, run-Stops,
  Ended-below,
}
use mock_amqp_server.Protocol.Closed.{Closed}
use mock_amqp_server.Protocol.Greeting.{with_buffer}
use mock_amqp_server.Protocol.Framed.{treat_frame-Framed}
use mock_amqp_server.Protocol.Handshake.{treat_frame-Keeps, IsPastLogin}

module _ ⦃codec : Codec⦄ ⦃runtime : Runtime⦄ where
  -- The first frame of a longer buffer, and what its handler leaves.
  treated-append :
      (value : FrameValue) (r : Result Bool) (s t : Session) (more : Bytes)
      → read_frame s.buffer ≡ ok (some value)
      → treat_frame value (with_buffer (drop (size_of value) s.buffer) s) ≡ (r, t)
      → treat_frame value (with_buffer (drop (size_of value) (s.buffer ++ more)) s)
        ≡ (r, with_buffer (t.buffer ++ more) t)
  treated-append value r s t more e treated =
      rw
        (
          drop-append_le (size_of value) s.buffer more (size-read_frame s.buffer e).1,
          (treat_frame-Framed value).at (drop (size_of value) s.buffer ++ more)
              (with_buffer (drop (size_of value) s.buffer) s),
          treated,
        )
        (ap (λ (b : Bytes). (r, with_buffer (b ++ more) t)) (sym left))
    where
      left : t.buffer ≡ drop (size_of value) s.buffer
      left =
          ap (λ (out : Result Bool × Session). out.1.buffer) (sym treated)
          ∙ buffer-treat_frame value (with_buffer (drop (size_of value) s.buffer) s)

  -- What is read from the buffer is read from a longer one too.
  read-append :
      (r : Result (Option FrameValue)) (s : Session) (more : Bytes)
      → read_frame s.buffer ≡ r
      → r ≢ ok none
      → read_frame (s.buffer ++ more) ≡ r
  read-append r s more e found = read_frame-append s.buffer more (λ h. found (sym e ∙ h)) ∙ e

  run-append :
      {s t : Session} (more : Bytes)
      → Drains s t
      → run (with_buffer (s.buffer ++ more) s) ≡ run (with_buffer (t.buffer ++ more) t)
  run-append more (stuck s e) = refl
  run-append more (round value s t u e treated rest) =
      run-round value (with_buffer (s.buffer ++ more) s) (with_buffer (t.buffer ++ more) t)
        (read-append (ok (some value)) s more e (λ h. cc))
        (treated-append value (ok true) s t more e treated)
      ∙ run-append more rest

  -- A loop that stops leaves what comes behind the frame in the buffer.
  Stops-append :
      {s t : Session} {r : Result (Unit {0})} (more : Bytes)
      → Stops s r t
      → Stops (with_buffer (s.buffer ++ more) s) r (with_buffer (t.buffer ++ more) t)
  Stops-append more (unread e s read) =
      unread e (with_buffer (s.buffer ++ more) s) (read-append (err e) s more read (λ h. cc))
  Stops-append more (last value s t read treated) =
      last value (with_buffer (s.buffer ++ more) s) (with_buffer (t.buffer ++ more) t)
        (read-append (ok (some value)) s more read (λ h. cc))
        (treated-append value (ok false) s t more read treated)
  Stops-append more (raised value e s t read treated) =
      raised value e (with_buffer (s.buffer ++ more) s) (with_buffer (t.buffer ++ more) t)
        (read-append (ok (some value)) s more read (λ h. cc))
        (treated-append value (err e) s t more read treated)
  Stops-append more (behind value r s t u read treated rest) =
      behind value r (with_buffer (s.buffer ++ more) s) (with_buffer (t.buffer ++ more) t)
        (with_buffer (u.buffer ++ more) u) (read-append (ok (some value)) s more read (λ h. cc))
        (treated-append value (ok true) s t more read treated) (Stops-append more rest)

  -- The protocol header has been seen.
  abbrev pub IsGreeted : Session → Type 0
  IsGreeted s = s.parser_state ≢ ConnectionState.waiting_protocol_header

  past_login : (p : ConnectionState) → IsPastLogin p → p ≢ ConnectionState.waiting_protocol_header
  past_login p i e = rw e at i

  IsGreeted-Closed : Closed IsGreeted
  IsGreeted-Closed = record {
    transport = λ s t h. h;
    channels = λ s c h. h;
    exchange = λ x type s h. h;
    queue = λ q s h. h;
    bind = λ q x s h. h;
    consumer = λ id tag q n s h. h;
    ack = λ tag s h. h;
    nack = λ tag requeue s h. h;
    store = λ x headers body s h. h;
  }

  Drains-IsGreeted : {s t : Session} → Drains s t → IsGreeted s → IsGreeted t
  Drains-IsGreeted (stuck s e) h = h
  Drains-IsGreeted (round value s t u e treated rest) h = Drains-IsGreeted rest (rw treated at kept)
    where
      kept : IsGreeted (treat_frame value (with_buffer (drop (size_of value) s.buffer) s)).1
      kept =
          (treat_frame-Keeps IsGreeted-Closed (λ u p t k. k) (λ t p i k. past_login p i) value).at
            (with_buffer (drop (size_of value) s.buffer) s) h

  by_handshake-run :
      (p : ConnectionState) (s : Session)
      → p ≢ ConnectionState.waiting_protocol_header
      → by_handshake p s ≡ run s
  by_handshake-run ConnectionState.waiting_protocol_header s h = absurd (h refl)
  by_handshake-run _ s h = refl

  data_received-run :
      (received : Bytes) (s : Session)
      → IsGreeted s
      → data_received received s ≡ run (with_buffer (s.buffer ++ received) s)
  unfolding data_received
  data_received-run received s h =
      by_handshake-run s.parser_state (with_buffer (s.buffer ++ received) s) h

  received-Drains :
      (first second : Bytes) (s t : Session)
      → IsGreeted s
      → Drains (with_buffer (s.buffer ++ first) s) t
      → (data_received first s ≡ (ok tt, t))
        × (data_received (first ++ second) s ≡ data_received second t)
  received-Drains first second s t h drains = (
    data_received-run first s h ∙ run-Drains drains,
    data_received-run (first ++ second) s h
        ∙ rw⁻¹ (append_assoc s.buffer first second) (run-append second drains)
        ∙ sym (data_received-run second t (Drains-IsGreeted drains h)),
  )

  received-Stops :
      (first second : Bytes) (s t : Session) (r : Result (Unit {0}))
      → IsGreeted s
      → Stops (with_buffer (s.buffer ++ first) s) r t
      → (data_received first s ≡ (r, t))
        × (data_received (first ++ second) s ≡ (r, with_buffer (t.buffer ++ second) t))
  received-Stops first second s t r h stops = (
    data_received-run first s h ∙ run-Stops stops,
    data_received-run (first ++ second) s h
        ∙ rw⁻¹ (append_assoc s.buffer first second) (run-Stops (Stops-append second stops)),
  )

  -- Once the protocol header has been seen, a stream that comes at once is compared with the same
  -- stream in two parts, and one of two things holds. Either the loop treats all whole frames of
  -- the first part, each of whose handlers lets it go on: then `data_received` returns there, and
  -- the second part gives what both parts give at once, the same result or exception, the same
  -- calls of the transport, the same state of the connection and the broker. Or it stops at a frame
  -- of the first part, whose handler says so or raises or which cannot be read: then both parts at
  -- once give what the first part gives alone, and the second is only kept, unread, in the buffer.
  pub data_received-append :
      (first second : Bytes) (s : Session)
      → IsGreeted s
      → ((t : Session) × Drains (with_buffer (s.buffer ++ first) s) t
          × (data_received first s ≡ (ok tt, t))
          × (data_received (first ++ second) s ≡ data_received second t))
        ⊎ ((r : Result (Unit {0})) × (t : Session) × Stops (with_buffer (s.buffer ++ first) s) r t
            × (data_received first s ≡ (r, t))
            × (data_received (first ++ second) s ≡ (r, with_buffer (t.buffer ++ second) t)))
  data_received-append first second s h =
      elim (Ended-below (suc (length joined.buffer)) joined (omega arith)) [
        | inl (t, drains) ↦
            let (alone, both) = received-Drains first second s t h drains in
            inl (t, drains, alone, both)
        | inr (r, t, stops) ↦
            let (alone, both) = received-Stops first second s t r h stops in
            inr (r, t, stops, alone, both)
      ]
    where
      joined : Session
      joined = with_buffer (s.buffer ++ first) s
