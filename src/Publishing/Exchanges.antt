-- ===== src/Publishing/Exchanges.antt =====
-- service/state.py: `publish_message` and the messages that are kept.
use mock_amqp_server.Prelude.{
  ℕ, suc, ◌≡◌, refl, Option, none, some, List, [], ◌∷◌, ◌++◌, arith, append-nil, str_keys,
  str_eq_iff, ◌&&◌, ◌==◌, if◌then◌else◌, Option-cases, inl, inr,
}
use mock_amqp_server.Dict.{Dict, get, contains, get-put}
use mock_amqp_server.Python.{Str, Result, ok, err, Exec, continue, pure, modify, ◌>>◌}
use mock_amqp_server.Python.Sets.{Runtime}
use mock_amqp_server.Python.Keeps.{Keeps, keeps_rules, Keeps-pure}
use mock_amqp_server.Serialization.{Codec}
use mock_amqp_server.State.{State, Queue, Consumer, Exchange, bound_queues, append_to_exchange}
use mock_amqp_server.State.Delivery.{
  messages_in_queue, messages_in_exchange, messages-append_to_exchange,
}
use mock_amqp_server.Sender.Transport.{Transport}
use mock_amqp_server.Publishing.{
  World, Publication, message_of, draw, on_protocol, serve, remove_all, clean, serve_queue,
  serve_first, publish_message,
}

module _ ⦃codec : Codec⦄ ⦃runtime : Runtime⦄ {P : World → Type 0}
    (draws : (w : World) (n : ℕ) → P w → P (record w { draws = n }))
    (transports : (w : World) (t : ℕ → Transport) → P w → P (record w { transports = t })) where
  Keeps-draw : Keeps P draw
  Keeps-draw = record { at = λ w h. draws w (suc w.draws) h }

  Keeps-protocol : {A : Type 0} (id : ℕ) (m : Exec Transport A) → Keeps P (on_protocol id m)
  Keeps-protocol id m = record { at = λ w h. transports w _ h }

  -- What draws and writes keep is kept by the loop over the consumers.
  serve-Keeps :
      (cs : Dict Str Consumer) (p : Publication) (dead : List Str) (tag : Option ℕ)
      → Keeps P (serve p cs dead tag)
  unfolding serve
  serve-Keeps [] p dead tag = Keeps-pure (tag, dead)
  serve-Keeps ((t, c) ∷ cs) p dead tag =
      search (keeps_rules, Keeps-draw, Keeps-protocol, serve-Keeps cs) depth 9

abbrev cleaned : ⦃codec : Codec⦄ ⦃runtime : Runtime⦄ → Queue → List Str → Queue
cleaned queue dead = record queue { consumers = remove_all dead queue.consumers }

-- Two states with the same exchanges and the same messages in each queue.
abbrev pub SameMessages : State → State → Type 0
SameMessages s t =
    (t.exchanges ≡ s.exchanges) × ((r : Str) → messages_in_queue r t ≡ messages_in_queue r s)

module _ ⦃codec : Codec⦄ ⦃runtime : Runtime⦄ where
  open runtime use {iterate}

  pub serve-state :
      (cs : Dict Str Consumer) (p : Publication) (dead : List Str) (tag : Option ℕ) (w : World)
      → (serve p cs dead tag w).1.global_state ≡ w.global_state
  serve-state cs p dead tag w =
      (serve-Keeps {P = λ u. u.global_state ≡ w.global_state} (λ u n h. h) (λ u t h. h) cs p dead
          tag).at
        w refl

  clean-SameMessages :
      (q : Str) (queue : Queue) (dead : List Str) (w : World)
      → get q w.global_state.queues ≡ some queue
      → SameMessages w.global_state (clean q queue dead w).global_state
  clean-SameMessages q queue dead w e = (
    refl,
    λ r. ground (arith, get-put q r (cleaned queue dead) w.global_state.queues, str_eq_iff q r),
  )

  after_serve-SameMessages :
      (q : Str) (queue : Queue) (out : Result (Option ℕ × List Str) × World) (s : State)
      → get q s.queues ≡ some queue
      → out.1.global_state ≡ s
      → SameMessages s
          (continue out.0
            (λ (found : Option ℕ × List Str). modify (clean q queue found.1) >> pure found.0)
            out.1).1.global_state
  after_serve-SameMessages q queue (ok (tag, dead), w) s e same =
      rw⁻¹ same (clean-SameMessages q queue dead w (rw same e))
  after_serve-SameMessages q queue (err x, w) s e same = rw same (refl, λ r. refl)

  serve_queue-SameMessages :
      (p : Publication) (q : Str) (w : World)
      → SameMessages w.global_state (serve_queue p q w).1.global_state
  unfolding serve_queue
  serve_queue-SameMessages p q w = elim (Option-cases (get q w.global_state.queues)) [
    | inl e ↦ rw (e, serve_queue) (refl, λ r. refl)
    | inr (queue, e) ↦
        rw (e, serve_queue)
          (after_serve-SameMessages q queue (serve p queue.consumers [] none w) w.global_state e
            (serve-state queue.consumers p [] none w))
  ]

  serve_first-SameMessages :
      (p : Publication) (qs : List Str) (w : World)
      → SameMessages w.global_state (serve_first p qs w).1.global_state
  serve_first-SameMessages p [] w = (refl, λ r. refl)
  serve_first-SameMessages p (q ∷ qs) w = serve_queue-SameMessages p q w

  pub publish_message-step :
      (p : Publication) (exchange : Exchange) (w : World)
      → get p.exchange_name w.global_state.exchanges ≡ some exchange
      → publish_message p w ≡ (
          let stored = append_to_exchange p.exchange_name exchange (message_of p) w.global_state in
          serve_first p
            (iterate (bound_queues p.exchange_name stored))
            (record w { global_state = stored }))
  unfolding publish_message
  publish_message-step p exchange w e = rw (e, publish_message) refl

  pub publish_message-none :
      (p : Publication) (w : World)
      → get p.exchange_name w.global_state.exchanges ≡ none
      → publish_message p w ≡ (ok none, w)
  unfolding publish_message
  publish_message-none p w e = rw (e, publish_message) refl

  -- Whatever becomes of the delivery, an exception in a push included, `publish_message` appends
  -- the message to the messages of its exchange, if that is there, and changes the messages of no
  -- other exchange and of no queue.
  pub publish_message-stores :
      (p : Publication) (w : World)
      → ((y : Str)
          → messages_in_exchange y (publish_message p w).1.global_state
            ≡ messages_in_exchange y w.global_state
              ++ (if p.exchange_name == y && contains p.exchange_name w.global_state.exchanges
                  then message_of p ∷ []
                  else []))
        × ((r : Str)
            → messages_in_queue r (publish_message p w).1.global_state
              ≡ messages_in_queue r w.global_state)
  publish_message-stores p w = elim (Option-cases (get p.exchange_name w.global_state.exchanges)) [
    | inl e ↦
        rw (publish_message-none p w e)
          (λ y. ground (arith, append-nil (messages_in_exchange y w.global_state)), λ r. refl)
    | inr (exchange, e) ↦
        let stored = append_to_exchange p.exchange_name exchange (message_of p) w.global_state in
        let served =
          serve_first-SameMessages p (iterate (bound_queues p.exchange_name stored))
            (record w { global_state = stored }) in
        rw (publish_message-step p exchange w e) (
          λ y.
              rw (served.0, messages_in_exchange)
                (ground (
                  arith,
                  messages-append_to_exchange (message_of p) p.exchange_name y exchange
                      w.global_state e,
                )),
          served.1,
        )
  ]
