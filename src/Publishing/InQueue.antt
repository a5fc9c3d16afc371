-- ===== src/Publishing/InQueue.antt =====
-- service/state.py: `publish_message_in_queue`, with consumers that are alive and with none.
use mock_amqp_server.Prelude.{
  ℕ, suc, ◌+◌, ◌≡◌, refl, ap, ◌∙◌, Bool, true, false, Option, none, some, List, [], ◌∷◌, ◌++◌,
  arith, All, length, str_keys, not, ◌&&◌, str_eq_iff, ◌==◌, if◌then◌else◌,
}
use mock_amqp_server.Dict.{Dict, get, put, remove, get-put, eq_refl}
use mock_amqp_server.Python.{Str, ok, text}
use mock_amqp_server.Python.Sets.{Runtime, member}
use mock_amqp_server.Serialization.{Value, Codec}
use mock_amqp_server.State.{Message, Queue, Consumer}
use mock_amqp_server.Sender.Transport.{Transport}
use mock_amqp_server.Publishing.{
  World, Publication, message_of, payload_of, set_transport, remove_all, clean, serve_queue,
  append_to_queue, publish_message_in_queue,
}
use mock_amqp_server.Publishing.Consumers.{
  IsDead, tags, last_tag, plus_zero, push_to, serve_queue-live, serve_queue-none,
}

module _ ⦃codec : Codec⦄ ⦃runtime : Runtime⦄ where
  open runtime use {randint}

  abbrev pub in_queue : Value → Value → Bool → Publication
  in_queue headers message_data is_binary = record {
    headers = headers;
    message_data = message_data;
    is_binary = is_binary;
    exchange_name = text "dummy-exchange";
  }

  abbrev pub appended : Str → Queue → Message → World → World
  appended q queue m w = record w { global_state = append_to_queue q queue m w.global_state }

  pub publish_message_in_queue-step :
      (q : Str) (headers value : Value) (binary : Bool) (queue : Queue) (w : World)
      → get q w.global_state.queues ≡ some queue
      → publish_message_in_queue q headers value binary w ≡ (
          let p = in_queue headers value binary in
          serve_queue p q (appended q queue (message_of p) w))
  unfolding publish_message_in_queue
  publish_message_in_queue-step q headers value binary queue w e =
      rw (e, publish_message_in_queue) refl

  abbrev grown_queue : Queue → Message → Queue
  grown_queue queue m = record queue { messages = queue.messages ++ (m ∷ []) }

  queues-clean :
      (q r : Str) (queue : Queue) (m : Message) (dead : List Str) (w : World)
      → get r (clean q (grown_queue queue m) dead (appended q queue m w)).global_state.queues ≡ (
          if q == r
          then some (record {
            messages = queue.messages ++ (m ∷ []);
            consumers = remove_all dead queue.consumers;
          })
          else get r w.global_state.queues)
  queues-clean q r queue m dead w = ground (
    arith,
    get-put q r (grown_queue queue m) w.global_state.queues,
    get-put q r (record (grown_queue queue m) { consumers = remove_all dead queue.consumers })
        (put q (grown_queue queue m) w.global_state.queues),
    str_eq_iff q r,
  )

  -- A publication to a queue whose first consumers are dead and whose next is alive is appended to
  -- that queue's messages and to no other's, and pushed to that consumer, if the push succeeds,
  -- once, under the tag that is answered, and written to no other connection. The dead consumers
  -- before it are removed.
  pub publish_message_in_queue-live :
      (q : Str) (headers value : Value) (binary : Bool) (queue : Queue)
      (cs rest : Dict Str Consumer) (ct : Str) (c : Consumer) (payload : Value) (t : Transport)
      (w : World)
      → get q w.global_state.queues ≡ some queue
      → queue.consumers ≡ cs ++ ((ct, c) ∷ rest)
      → All (IsDead w.transports) cs
      → (w.transports c.protocol).closing ≡ false
      → payload_of binary value ≡ ok payload
      → push_to
          (in_queue headers value binary)
          payload
          ct
          c
          (record w { draws = w.draws + length cs })
        ≡ (ok tt, t)
      → let out = publish_message_in_queue q headers value binary w in
        (out.0 ≡ ok (some (randint (w.draws + length cs))))
        × (out.1.transports ≡ set_transport c.protocol t w.transports)
        × ((r : Str)
            → get r out.1.global_state.queues ≡ (
                if q == r
                then some (record {
                  messages = queue.messages ++ (record { headers = headers; body = value } ∷ []);
                  consumers = remove_all (tags cs) queue.consumers;
                })
                else get r w.global_state.queues))
  publish_message_in_queue-live q headers value binary queue cs rest ct c payload t w e split dead
        alive encoded pushed =
      rw
        (
          publish_message_in_queue-step q headers value binary queue w e,
          serve_queue-live p q (grown_queue queue m) cs rest ct c payload t (appended q queue m w)
              (ground (arith, get-put q q (grown_queue queue m) w.global_state.queues, eq_refl q))
              split dead alive encoded pushed,
        )
        (refl, refl, λ r. queues-clean q r queue m (tags cs) w)
    where
      p : Publication
      p = in_queue headers value binary

      m : Message
      m = message_of p

  tags-remove :
      (t k : Str) (d : Dict Str Consumer)
      → member k (tags (remove t d)) ≡ (not (t == k) && member k (tags d))
  unfolding remove member
  tags-remove t k [] = ground arith
  tags-remove t k ((j, c) ∷ d) =
      ground (arith, tags-remove t k d, str_eq_iff t k, str_eq_iff j t, str_eq_iff j k)

  remove_all-covered :
      (ts : List Str) (d : Dict Str Consumer)
      → ((k : Str) → member k (tags d) ≡ true → member k ts ≡ true)
      → remove_all ts d ≡ []
  unfolding member
  remove_all-covered [] [] h = refl
  remove_all-covered [] ((j, c) ∷ d) h = absurd (ground (arith, h j, str_eq_iff j j))
  remove_all-covered (t ∷ ts) d h = remove_all-covered ts (remove t d) still
    where
      still : (k : Str) → member k (tags (remove t d)) ≡ true → member k ts ≡ true
      still k hk = ground (arith, tags-remove t k d, h k)

  remove_all-all : (d : Dict Str Consumer) → remove_all (tags d) d ≡ []
  remove_all-all d = remove_all-covered (tags d) d (λ k h. h)

  last_tag-some :
      (cs : Dict Str Consumer) (c : Str × Consumer) (draws : ℕ) (tag : Option ℕ)
      → last_tag draws (c ∷ cs) tag ≡ some (randint (draws + length cs))
  last_tag-some [] c draws tag = rw (plus_zero draws) refl
  last_tag-some (d ∷ cs) c draws tag =
      last_tag-some cs d (suc draws) (some (randint draws)) ∙ rw (more draws (length cs)) refl
    where
      more : (a b : ℕ) → suc a + b ≡ a + suc b
      more a b = omega arith

  -- If all consumers of a queue are dead, and there are some, a publication to the queue answers a
  -- delivery tag as if it had been delivered, though nothing is written to any connection. The
  -- message is appended to the queue, and all its consumers are removed.
  pub publish_message_in_queue-dead :
      (q : Str) (headers value : Value) (binary : Bool) (queue : Queue) (c : Str × Consumer)
      (cs : Dict Str Consumer) (w : World)
      → get q w.global_state.queues ≡ some queue
      → queue.consumers ≡ c ∷ cs
      → All (IsDead w.transports) (c ∷ cs)
      → let out = publish_message_in_queue q headers value binary w in
        (out.0 ≡ ok (some (randint (w.draws + length cs))))
        × (out.1.transports ≡ w.transports)
        × ((r : Str)
            → get r out.1.global_state.queues ≡ (
                if q == r
                then some (record {
                  messages = queue.messages ++ (record { headers = headers; body = value } ∷ []);
                  consumers = [];
                })
                else get r w.global_state.queues))
  publish_message_in_queue-dead q headers value binary queue c cs w e split dead =
      rw
        (
          publish_message_in_queue-step q headers value binary queue w e,
          serve_queue-none p q (grown_queue queue m) (appended q queue m w)
              (ground (arith, get-put q q (grown_queue queue m) w.global_state.queues, eq_refl q))
              (rw split dead),
        )
        (
          ap ok (rw split (last_tag-some cs c w.draws none)),
          refl,
          λ r.
              queues-clean q r queue m (tags queue.consumers) w
              ∙ rw (remove_all-all queue.consumers) refl,
        )
    where
      p : Publication
      p = in_queue headers value binary

      m : Message
      m = message_of p
