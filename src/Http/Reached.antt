-- ===== src/Http/Reached.antt =====
-- service/http_protocol.py: how `data_received` changes the broker.
use mock_amqp_server.Prelude.{ℕ, zero, suc, ◌≡◌, Bool, true, false, Option, none, some}
use mock_amqp_server.Python.{Bytes, Error, Result, ok, err, raise}
use mock_amqp_server.Sender.Transport.{close}
use mock_amqp_server.Python.Sets.{Runtime}
use mock_amqp_server.Python.Keeps.{Keeps, keeps_rules}
use mock_amqp_server.Serialization.{Codec}
use mock_amqp_server.State.Json.{Json}
use mock_amqp_server.Publishing.Reachable.{Reachable, next}
use mock_amqp_server.Http.{H11, Clock, HttpSession, on_parser, on_http_transport}
use mock_amqp_server.Http.Received.{
  http_round, http_loop, after_round, after_receive, receive_events, recover, recover_ending,
  on_exception, http_data_received,
}
use mock_amqp_server.Http.Keeping.{Kept, Keeps-internal_server_error}
use mock_amqp_server.Http.Handling.{Keeps-event}

module _ {C : Type 0} ⦃h11 : H11 C⦄ ⦃clock : Clock⦄ ⦃json : Json⦄ ⦃codec : Codec⦄
    ⦃runtime : Runtime⦄ where
  pub Reachable-Kept : Kept (λ w (c : C) state r. Reachable w)
  Reachable-Kept = record {
    sent = λ o w c state r h. h;
    stepped = λ w u c state r step h. next h step;
  }

  Reaches : HttpSession C → Type 0
  Reaches s = Reachable s.world

  Keeps-asked : Keeps Reaches (on_parser h11.next_event)
  unfolding Reaches
  Keeps-asked = record { at = λ s h. h }

  Keeps-close : Keeps Reaches (on_http_transport close)
  unfolding Reaches
  Keeps-close = record { at = λ s h. h }

  Keeps-raised : (e : Error) → Keeps {A = Unit {0}} Reaches (raise e)
  Keeps-raised e = record { at = λ s h. h }

  Keeps-round : Keeps Reaches http_round
  unfolding http_round Reaches
  Keeps-round =
      search (keeps_rules, Keeps-asked, Keeps-event Reachable-Kept (λ w c state state' r r' h. h))

  -- what holds of the session that is left, if the loop ends
  abbrev IfEnds : Option (Result (Unit {0}) × HttpSession C) → Type 0
  IfEnds none = Unit {0}
  IfEnds (some ending) = Reaches ending.1

  IfEnds-after :
      (out : Result Bool × HttpSession C)
      (rest : HttpSession C → Option (Result (Unit {0}) × HttpSession C))
      → ((s : HttpSession C) → Reaches s → IfEnds (rest s))
      → Reaches out.1
      → IfEnds (after_round out rest)
  IfEnds-after (ok true, s) rest step h = h
  IfEnds-after (ok false, s) rest step h = step s h
  IfEnds-after (err x, s) rest step h = h

  IfEnds-loop : (fuel : ℕ) (s : HttpSession C) → Reaches s → IfEnds (http_loop fuel s)
  unfolding http_loop
  IfEnds-loop zero s h = tt
  IfEnds-loop (suc fuel) s h =
      IfEnds-after (http_round s) (http_loop fuel) (IfEnds-loop fuel) (Keeps-round.at s h)

  IfEnds-receive :
      (fuel : ℕ) (out : Result (Unit {0}) × HttpSession C)
      → Reaches out.1
      → IfEnds (after_receive fuel out)
  IfEnds-receive fuel (ok u, s) h = IfEnds-loop fuel s h
  IfEnds-receive fuel (err e, s) h = h

  Keeps-exception : (e : Error) → Keeps Reaches (on_exception e)
  unfolding Reaches
  Keeps-exception e =
      search (keeps_rules, Keeps-internal_server_error Reachable-Kept, Keeps-close, Keeps-raised)

  Reaches-recover :
      (out : Result (Unit {0}) × HttpSession C) → Reaches out.1 → Reaches (recover out).1
  Reaches-recover (ok u, s) h = h
  Reaches-recover (err e, s) h = (Keeps-exception e).at s h

  Reaches-ending :
      (out : Option (Result (Unit {0}) × HttpSession C))
      (ending : Result (Unit {0}) × HttpSession C)
      → IfEnds out
      → recover_ending out ≡ some ending
      → Reaches ending.1
  Reaches-ending none ending h e = cc
  Reaches-ending (some out) ending h e =
      let same : recover out ≡ ending = cc in rw⁻¹ same (Reaches-recover out h)

  -- However the bytes of an inspector are cut and whatever they hold, when `data_received` is done,
  -- with an exception or without, the broker has gone through calls of its methods only: from a
  -- world that the server reaches it has come to one that the server reaches.
  pub http_data_received-Reachable :
      (fuel : ℕ) (received : Bytes) (s : HttpSession C) (ending : Result (Unit {0}) × HttpSession C)
      → Reachable s.world
      → http_data_received fuel received s ≡ some ending
      → Reachable ending.1.world
  unfolding http_data_received receive_events Reaches
  http_data_received-Reachable fuel received s ending h e =
      Reaches-ending (receive_events fuel received s) ending
        (IfEnds-receive fuel (on_parser (h11.receive_data received) s) h) e
