-- ===== src/State/Json.antt =====
-- service/state.py: `to_json`. The module json is a parameter, on the values that it can be given:
-- a deque or a set is none of these, and `json.dumps` raises TypeError at it.
use mock_amqp_server.Prelude.{ℕ, List, [], ◌∷◌, map}
use mock_amqp_server.Dict.{Dict}
use mock_amqp_server.Python.{Str, Result, ok, err, type_error, text}
use mock_amqp_server.Python.Results.{◌>>=◌}
use mock_amqp_server.Python.Sets.{Runtime}
use mock_amqp_server.Serialization.{
  Value, bool, int, str, arr, obj, pos, Items, nil, cons, Fields, end, field,
}
use mock_amqp_server.State.{State, Exchange, Queue}
use mock_amqp_server.State.Reading.{message_value}

-- `json.loads` and `json.dumps`
pub record Json : Type 0 where
  pub loads : Str → Result Value
  pub dumps : Value → Result Str

abbrev pub items_of : List Value → Items
items_of [] = nil
items_of (v ∷ vs) = cons v (items_of vs)

abbrev pub fields_of {ℓ} : {A : Type ℓ} → (A → Value) → Dict Str A → Fields
fields_of f [] = end
fields_of f ((k, a) ∷ d) = field k (f a) (fields_of f d)

abbrev pub exchange_value : Exchange → Value
exchange_value exchange = obj (
    field (text "type") (str exchange.type)
      (field (text "messages") (arr (items_of (map message_value exchange.messages))) end))

-- each queue holds a deque
abbrev pub queues_value : Dict Str Queue → Result Value
queues_value [] = ok (obj end)
queues_value (entry ∷ queues) = err type_error

-- each exchange of the bindings holds a set
abbrev pub bindings_value : Dict Str (List Str) → Result Value
bindings_value [] = ok (obj end)
bindings_value (entry ∷ bindings) = err type_error

abbrev pub tags_value : List ℕ → Value
tags_value tags = arr (items_of (map (λ tag. int (pos tag)) tags))

module _ ⦃json : Json⦄ ⦃runtime : Runtime⦄ where
  open runtime use {iterate_tags}

  unfoldable pub to_json : State → Result Str
  to_json s = do
    queues ← queues_value s.queues
    bindings ← bindings_value s.queues_bound_exchanges
    json.dumps (
        obj (
          field (text "users") (obj (fields_of str s.users)) (
            field (text "exchanges") (obj (fields_of exchange_value s.exchanges)) (
              field (text "queues") queues (
                field (text "queues_bound_exchanges") bindings (
                  field (text "authentication_tried_on")
                    (obj (fields_of bool s.authentication_tried_on))
                    (field (text "messages_acknowledged")
                      (tags_value (iterate_tags s.message_acknowledged))
                      (field (text "messages_not_acknowledged")
                        (tags_value (iterate_tags s.message_not_acknowledged))
                        (field (text "messages_requeued")
                          (tags_value (iterate_tags s.message_requeued)) end)))))))))
