-- ===== src/Http/Ends.antt =====
-- service/http_protocol.py: where the loop of `data_received` ends, and where it never does.
use mock_amqp_server.Prelude.{ℕ, suc, ◌≤◌, ◌<◌, ◌≡◌, refl, ◌⊎◌, Bool, true, false, Option, some}
use mock_amqp_server.Python.{Result, ok}
use mock_amqp_server.Python.Sets.{Runtime}
use mock_amqp_server.Serialization.{Codec}
use mock_amqp_server.State.Json.{Json}
use mock_amqp_server.Http.{H11, Clock, Event, need_data, other_event, Outgoing, HttpSession}
use mock_amqp_server.Http.Received.{http_round, http_loop, after_round}

-- the events that h11 makes of bytes it has got, or of the end of a message
abbrev pub is_progress : Event → Bool
is_progress need_data = false
is_progress other_event = false
is_progress event = true

-- What h11 documents: with a request, a piece of a body or the end of a message less remains to be
-- read, and what is sent does not add to it. PAUSED, an `other_event`, takes nothing: it is answered
-- to a request behind the first one of the connection, and again and again until `start_next_cycle`
-- is called, which the source never does.
pub record Documented (C : Type 0) (h11 : H11 C) (remaining : C → ℕ) : Type 0 where
  pub progress :
      (c d : C) (event : Event)
      → h11.next_event c ≡ (ok event, d)
      → is_progress event ≡ true
      → remaining d < remaining c
  pub stays :
      (c d : C) → h11.next_event c ≡ (ok other_event, d) → h11.next_event d ≡ (ok other_event, d)
  pub send_keeps : (o : Outgoing) (c : C) → remaining (h11.send o c).1 ≤ remaining c

module _ {C : Type 0} ⦃h11 : H11 C⦄ ⦃clock : Clock⦄ ⦃json : Json⦄ ⦃codec : Codec⦄
    ⦃runtime : Runtime⦄ where
  -- After some rounds of the loop, each of which goes on to the next, h11 answers PAUSED.
  pub data Pauses : HttpSession C → Type 0 where
    paused :
        (c : C) (s : HttpSession C) → h11.next_event s.http_parser ≡ (ok other_event, c) → Pauses s
    later : (s t : HttpSession C) → http_round s ≡ (ok false, t) → Pauses t → Pauses s

  loop-round :
      (n : ℕ) (s : HttpSession C) → http_loop (suc n) s ≡ after_round (http_round s) (http_loop n)
  unfolding http_loop
  loop-round n s = refl

module _ {C : Type 0} ⦃h11 : H11 C⦄ ⦃clock : Clock⦄ ⦃json : Json⦄ ⦃codec : Codec⦄
    ⦃runtime : Runtime⦄ (remaining : C → ℕ) (law : Documented C h11 remaining) where
  Ends : Option (Result (Unit {0}) × HttpSession C) → Type 0
  Ends out = (ending : Result (Unit {0}) × HttpSession C) × (out ≡ some ending)

  -- The loop ends with this fuel, or comes to the answer PAUSED.
  Decided : ℕ → HttpSession C → Type 0
  Decided fuel s = Ends (http_loop fuel s) ⊎ Pauses s
