-- ===== src/Publishing/Reading.antt =====
-- service/state.py: what is published and then read by the inspector.
use mock_amqp_server.Prelude.{
  ◌≡◌, refl, ◌∙◌, ap, Option, some, List, [], ◌∷◌, ◌++◌, arith, true, str_keys, Option-cases, inl,
  inr, sym,
}
use mock_amqp_server.Dict.{get, contains, eq_refl}
use mock_amqp_server.Python.{
  Str, Bytes, Result, ok, err, name_error, unicode_error, attribute_error,
}
use mock_amqp_server.Python.Results.{◌>>=◌}
use mock_amqp_server.Python.Sets.{Runtime}
use mock_amqp_server.Python.Utf8.{decode}
use mock_amqp_server.Serialization.{Value, Codec, str, bytes}
use mock_amqp_server.State.{State, Message}
use mock_amqp_server.State.Delivery.{messages_in_exchange}
use mock_amqp_server.State.Reading.{
  base64encode_message_in_list_when_appliable, get_messages_of_exchange, text_of, read-append,
  read-one, joined,
}
use mock_amqp_server.Publishing.{World, Publication, message_of, publish_message}
use mock_amqp_server.Publishing.Exchanges.{publish_message-stores}
use mock_amqp_server.Publishing.Reachable.{publish_message-SameKeys}

abbrev found : Result (List Message) → Result (Option (List Message))
found r = do messages ← r; ok (some messages)

read-present :
    (x : Str) (s : State)
    → contains x s.exchanges ≡ true
    → get_messages_of_exchange x s
      ≡ found (base64encode_message_in_list_when_appliable (messages_in_exchange x s))
unfolding get_messages_of_exchange
read-present x s h = elim (Option-cases (get x s.exchanges)) [
  | inl e ↦ absurd (ground arith)
  | inr (exchange, e) ↦ rw (e, get_messages_of_exchange, messages_in_exchange) refl
]

present_if_read :
    (x : Str) (s : State) (ms : List Message)
    → get_messages_of_exchange x s ≡ ok (some ms)
    → contains x s.exchanges ≡ true
unfolding get_messages_of_exchange
present_if_read x s ms h = elim (Option-cases (get x s.exchanges)) [
  | inl e ↦ absurd (ground arith)
  | inr (exchange, e) ↦ rw (e, contains) refl
]

found-some : (r : Result (List Message)) (ms : List Message) → found r ≡ ok (some ms) → r ≡ ok ms
found-some (ok l) ms h = cc
found-some (err e) ms h = cc

abbrev with_body : Publication → List Message → Result Value → Result (Option (List Message))
with_body p ms r = do body ← r; ok (some (ms ++ record { headers = p.headers; body = body } ∷ []))

abbrev last_read : Publication → Result Value → Result (List Message)
last_read p r = do body ← r; ok (record { headers = p.headers; body = body } ∷ [])

found-joined :
    (p : Publication) (ms : List Message) (r : Result Value)
    → found (joined (ok ms) (last_read p r)) ≡ with_body p ms r
found-joined p ms (ok body) = refl
found-joined p ms (err e) = refl

module _ ⦃codec : Codec⦄ ⦃runtime : Runtime⦄ (p : Publication) (w : World) (ms : List Message)
    (before : get_messages_of_exchange p.exchange_name w.global_state ≡ ok (some ms)) where
  there : contains p.exchange_name w.global_state.exchanges ≡ true
  there = present_if_read p.exchange_name w.global_state ms before

  stored_last :
      messages_in_exchange p.exchange_name (publish_message p w).1.global_state
      ≡ messages_in_exchange p.exchange_name w.global_state ++ message_of p ∷ []
  stored_last =
      (publish_message-stores p w).0 p.exchange_name ∙ rw (there, eq_refl p.exchange_name) refl

  read_before :
      base64encode_message_in_list_when_appliable
        (messages_in_exchange p.exchange_name w.global_state)
      ≡ ok ms
  read_before = found-some _ ms (sym (read-present p.exchange_name w.global_state there) ∙ before)

  -- the reading behind the publication, from the body alone
  read-publish_message :
      get_messages_of_exchange p.exchange_name (publish_message p w).1.global_state
      ≡ with_body p ms (text_of p.message_data)
  read-publish_message =
      read-present p.exchange_name (publish_message p w).1.global_state
        ((publish_message-SameKeys p w).exchanges p.exchange_name ∙ there)
      ∙ ap (λ (l : List Message). found (base64encode_message_in_list_when_appliable l)) stored_last
      ∙ ap found
          (read-append (messages_in_exchange p.exchange_name w.global_state) (message_of p ∷ []))
      ∙ ap
          (λ (r : Result (List Message)).
            found (joined r (base64encode_message_in_list_when_appliable (message_of p ∷ []))))
          read_before
      ∙ ap (λ (r : Result (List Message)). found (joined (ok ms) r)) (read-one (message_of p))
      ∙ found-joined p ms (text_of p.message_data)

  -- A message is published to an exchange whose messages the inspector could read, whatever becomes
  -- of its delivery to the consumers. If its body is the UTF-8 of a text, the inspector then reads
  -- the same messages and behind them this one, with the text as its body. If its body is a text
  -- already, as the JSON form of a POST gives it, the exchange cannot be read, but AttributeError is
  -- raised. If its body is bytes that are no UTF-8, NameError is raised, for want of the module
  -- base64.
  pub get_messages_of_exchange-publish_message :
      ((b : Bytes) (t : Str)
        → p.message_data ≡ bytes b
        → decode b ≡ ok t
        → get_messages_of_exchange p.exchange_name (publish_message p w).1.global_state
          ≡ ok (some (ms ++ record { headers = p.headers; body = str t } ∷ [])))
      × ((t : Str)
          → p.message_data ≡ str t
          → get_messages_of_exchange p.exchange_name (publish_message p w).1.global_state
            ≡ err attribute_error)
      × ((b : Bytes)
          → p.message_data ≡ bytes b
          → decode b ≡ err unicode_error
          → get_messages_of_exchange p.exchange_name (publish_message p w).1.global_state
            ≡ err name_error)
  get_messages_of_exchange-publish_message = (
    λ b t body decoded. read-publish_message ∙ rw body (rw decoded refl),
    λ t body. read-publish_message ∙ rw body refl,
    λ b body broken. read-publish_message ∙ rw body (rw broken refl),
  )
