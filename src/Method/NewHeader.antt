-- ===== src/Method/NewHeader.antt =====
-- service/method.py: the constructor of `Header`, which decodes the properties that its flags name.
use mock_amqp_server.Prelude.{ℕ, ◌^◌, List, [], ◌∷◌, map, nat_eq, if◌then◌else◌}
use mock_amqp_server.Python.{Str, Bytes, Result, ok, text}
use mock_amqp_server.Python.Results.{◌>>=◌}
use mock_amqp_server.Serialization.{
  Value, Fields, end, field, Format, octet, long_long, short_str, table, Codec, to_values,
}
use mock_amqp_server.Method.{Header}
use Prim.Native.Nat.{bit_and}

-- `Header.PROPERTIES`
abbrev pub properties_table : List (Str × Format × ℕ)
properties_table =
    (text "content_type", short_str, 2 ^ 15)
    ∷ (text "content_encoding", short_str, 2 ^ 14)
    ∷ (text "application_headers", table, 2 ^ 13)
    ∷ (text "delivery_mode", octet, 2 ^ 12)
    ∷ (text "priority", octet, 2 ^ 11)
    ∷ (text "correlation_id", short_str, 2 ^ 10)
    ∷ (text "reply_to", short_str, 2 ^ 9)
    ∷ (text "expiration", short_str, 2 ^ 8)
    ∷ (text "message_id", short_str, 2 ^ 7)
    ∷ (text "timestamp", long_long, 2 ^ 6)
    ∷ (text "type", short_str, 2 ^ 5)
    ∷ (text "user_id", short_str, 2 ^ 4)
    ∷ (text "app_id", short_str, 2 ^ 3)
    ∷ (text "cluster_id", short_str, 2 ^ 2)
    ∷ []

-- The loop of `Header.__init__`: the keys and the letters whose bit is set.
unfoldable pub flagged : ℕ → List (Str × Format × ℕ) → List (Str × Format)
flagged property_flags [] = []
flagged property_flags ((key, parse_type, mask) ∷ rest) =
    let others = flagged property_flags rest in
    if nat_eq (bit_and property_flags mask) 0 then others else (key, parse_type) ∷ others

-- `dict(zip(keys, values))`; the keys are distinct
unfoldable pub zip_fields : List Str → List Value → Fields
zip_fields [] vs = end
zip_fields (k ∷ ks) [] = end
zip_fields (k ∷ ks) (v ∷ vs) = field k v (zip_fields ks vs)

module _ ⦃codec : Codec⦄ where
  open codec use {loads}

  unfoldable pub new_header : ℕ → ℕ → ℕ → ℕ → ℕ → Bytes → Result Header
  new_header channel_number size class_id body_size property_flags payload =
      let chosen = flagged property_flags properties_table in
      let parse_string = map (λ (p : Str × Format). p.1) chosen in
      do
        (values, offset) ← loads parse_string payload 14
        ok (record {
          channel_number = channel_number;
          size = size;
          class_id = class_id;
          body_size = body_size;
          properties =
              zip_fields (map (λ (p : Str × Format). p.0) chosen) (to_values parse_string values);
        })
