-- ===== src/Publishing/Consumers.antt =====
-- service/state.py: the loop over the consumers of a queue.
use mock_amqp_server.Prelude.{
  ℕ, suc, ◌+◌, ◌≡◌, refl, ◌∙◌, true, false, Option, none, some, List, [], ◌∷◌, ◌++◌, arith, All,
  length, append_assoc, append-nil, str_keys,
}
use mock_amqp_server.Dict.{Dict, get}
use mock_amqp_server.Python.{Str, Result, ok}
use mock_amqp_server.Python.Sets.{Runtime}
use mock_amqp_server.Serialization.{Value, Codec}
use mock_amqp_server.State.{Queue, Consumer}
use mock_amqp_server.Sender.Transport.{Transport}
use mock_amqp_server.Publishing.{
  World, Publication, push_message, payload_of, set_transport, serve, clean, serve_queue,
}

abbrev pub IsDead : (ℕ → Transport) → Str × Consumer → Type 0
IsDead transports (tag, consumer) = (transports consumer.protocol).closing ≡ true

abbrev pub tags : Dict Str Consumer → List Str
tags [] = []
tags ((tag, consumer) ∷ rest) = tag ∷ tags rest

pub plus_zero : (a : ℕ) → a + 0 ≡ a
plus_zero a = omega arith

module _ ⦃codec : Codec⦄ ⦃runtime : Runtime⦄ where
  open runtime use {randint}

  -- the tag that is left after the draws for `cs`
  abbrev pub last_tag : ℕ → Dict Str Consumer → Option ℕ → Option ℕ
  last_tag draws [] tag = tag
  last_tag draws (c ∷ cs) tag = last_tag (suc draws) cs (some (randint draws))

  serve-dead_step :
      (p : Publication) (c : Str × Consumer) (rest : Dict Str Consumer) (dead : List Str)
      (tag : Option ℕ) (w : World)
      → IsDead w.transports c
      → serve p (c ∷ rest) dead tag w
        ≡ serve p rest
            (dead ++ (c.0 ∷ []))
            (some (randint w.draws))
            (record w { draws = suc w.draws })
  unfolding serve
  serve-dead_step p (consumer_tag, consumer) rest dead tag w h = rw h refl

  serve-dead :
      (cs rest : Dict Str Consumer) (p : Publication) (dead : List Str) (tag : Option ℕ) (w : World)
      → All (IsDead w.transports) cs
      → serve p (cs ++ rest) dead tag w
        ≡ serve p rest
            (dead ++ tags cs)
            (last_tag w.draws cs tag)
            (record w { draws = w.draws + length cs })
  serve-dead [] rest p dead tag w h = rw (append-nil dead, plus_zero w.draws) refl
  serve-dead (c ∷ cs) rest p dead tag w h =
      serve-dead_step p c (cs ++ rest) dead tag w h.0
      ∙ serve-dead cs rest p (dead ++ (c.0 ∷ [])) (some (randint w.draws))
          (record w { draws = suc w.draws }) h.1
      ∙ rw (append_assoc dead (c.0 ∷ []) (tags cs), more w.draws (length cs)) refl
    where
      more : (a b : ℕ) → suc a + b ≡ a + suc b
      more a b = omega arith

  -- The push to a consumer that is alive.
  abbrev pub push_to : Publication → Value → Str → Consumer → World → Result (Unit {0}) × Transport
  push_to p payload tag consumer w =
      push_message p.headers payload consumer.channel_number tag (randint w.draws) p.exchange_name
        (w.transports consumer.protocol)

  serve-live :
      (p : Publication) (consumer_tag : Str) (consumer : Consumer) (rest : Dict Str Consumer)
      (dead : List Str) (tag : Option ℕ) (payload : Value) (t : Transport) (w : World)
      → (w.transports consumer.protocol).closing ≡ false
      → payload_of p.is_binary p.message_data ≡ ok payload
      → push_to p payload consumer_tag consumer w ≡ (ok tt, t)
      → serve p ((consumer_tag, consumer) ∷ rest) dead tag w ≡ (
        ok (some (randint w.draws), dead),
        record w {
          transports = set_transport consumer.protocol t w.transports;
          draws = suc w.draws;
        },
      )
  unfolding serve
  serve-live p consumer_tag consumer rest dead tag payload t w alive encoded pushed =
      rw (alive, encoded, pushed) refl

  serve_queue-step :
      (p : Publication) (q : Str) (queue : Queue) (w u : World) (tag : Option ℕ) (dead : List Str)
      → get q w.global_state.queues ≡ some queue
      → serve p queue.consumers [] none w ≡ (ok (tag, dead), u)
      → serve_queue p q w ≡ (ok tag, clean q queue dead u)
  unfolding serve_queue
  serve_queue-step p q queue w u tag dead e served = rw (e, serve_queue, served) refl

  pub serve_queue-live :
      (p : Publication) (q : Str) (queue : Queue) (cs rest : Dict Str Consumer) (ct : Str)
      (c : Consumer) (payload : Value) (t : Transport) (w : World)
      → get q w.global_state.queues ≡ some queue
      → queue.consumers ≡ cs ++ ((ct, c) ∷ rest)
      → All (IsDead w.transports) cs
      → (w.transports c.protocol).closing ≡ false
      → payload_of p.is_binary p.message_data ≡ ok payload
      → push_to p payload ct c (record w { draws = w.draws + length cs }) ≡ (ok tt, t)
      → serve_queue p q w ≡ (
        ok (some (randint (w.draws + length cs))),
        clean q queue (tags cs) (record w {
          transports = set_transport c.protocol t w.transports;
          draws = suc (w.draws + length cs);
        }),
      )
  serve_queue-live p q queue cs rest ct c payload t w e split dead alive encoded pushed =
      serve_queue-step p q queue w served (some (randint (w.draws + length cs))) (tags cs) e (
        rw split (
          serve-dead cs ((ct, c) ∷ rest) p [] none w dead
          ∙ serve-live p ct c rest (tags cs) (last_tag w.draws cs none) payload t
              (record w { draws = w.draws + length cs }) alive encoded pushed))
    where
      served : World
      served = record w {
        transports = set_transport c.protocol t w.transports;
        draws = suc (w.draws + length cs);
      }

  serve-dead_only :
      (p : Publication) (cs : Dict Str Consumer) (w : World)
      → All (IsDead w.transports) cs
      → serve p cs [] none w
        ≡ (ok (last_tag w.draws cs none, tags cs), record w { draws = w.draws + length cs })
  unfolding serve
  serve-dead_only p cs w dead = rw (append-nil cs) at (serve-dead cs [] p [] none w dead)

  pub serve_queue-none :
      (p : Publication) (q : Str) (queue : Queue) (w : World)
      → get q w.global_state.queues ≡ some queue
      → All (IsDead w.transports) queue.consumers
      → serve_queue p q w ≡ (
        ok (last_tag w.draws queue.consumers none),
        clean q queue
            (tags queue.consumers)
            (record w { draws = w.draws + length queue.consumers }),
      )
  serve_queue-none p q queue w e dead =
      serve_queue-step p q queue w (record w { draws = w.draws + length queue.consumers })
        (last_tag w.draws queue.consumers none) (tags queue.consumers) e
        (serve-dead_only p queue.consumers w dead)
