-- ===== src/Sender/Content.antt =====
-- service/sender.py: the content header and the content body.
use mock_amqp_server.Prelude.{
  ℕ, ◌+◌, ◌^◌, Bool, true, false, Option, none, some, List, [], ◌∷◌, ◌++◌, ◌||◌, length, nat_eq,
  ◌==◌, str_keys, if◌then◌else◌,
}
use mock_amqp_server.Python.{Str, Bytes, Result, ok, err, type_error, Exec, lift, text, ◌>>=◌, ◌>>◌}
use mock_amqp_server.Serialization.{
  Value, int, str, arr, obj, pos, Items, nil, cons, Fields, end, field, Format, octet, short,
  long_long, short_str, table, Codec,
}
use mock_amqp_server.Sender.Transport.{Transport, write, write_array, write_size, frame_end}

-- `PROPERTIES`
abbrev pub properties_table : List (Str × Format × ℕ)
properties_table =
    (text "content_type", short_str, 2 ^ 15)
    ∷ (text "content_encoding", short_str, 2 ^ 14)
    ∷ (text "application_headers", table, 2 ^ 13)
    ∷ (text "delivery_mode", octet, 2 ^ 12)
    ∷ (text "priority", octet, 2 ^ 11)
    ∷ (text "correlation_id", short_str, 2 ^ 10)
    ∷ (text "reply_to", short_str, 2 ^ 9)
    ∷ (text "expiration", short_str, 2 ^ 8)
    ∷ (text "message_id", short_str, 2 ^ 7)
    ∷ (text "timestamp", long_long, 2 ^ 6)
    ∷ (text "type", short_str, 2 ^ 5)
    ∷ (text "user_id", short_str, 2 ^ 4)
    ∷ (text "app_id", short_str, 2 ^ 3)
    ∷ (text "cluster_id", short_str, 2 ^ 2)
    ∷ []

unfoldable pub lookup_field : Str → Fields → Option Value
lookup_field name end = none
lookup_field name (field k v rest) = if k == name then some v else lookup_field name rest

unfoldable pub starts_with : Str → Str → Bool
starts_with [] s = true
starts_with (c ∷ p) [] = false
starts_with (c ∷ p) (d ∷ s) = if nat_eq c d then starts_with p s else false

unfoldable pub is_substring : Str → Str → Bool
unfolding starts_with
is_substring p [] = starts_with p []
is_substring p (c ∷ s) = starts_with p (c ∷ s) || is_substring p s

abbrev is_text : Str → Value → Bool
is_text name (str s) = s == name
is_text name v = false

unfoldable pub has_item : Str → Items → Bool
has_item name nil = false
has_item name (cons v vs) = is_text name v || has_item name vs

-- `name not in properties` and `properties[name]`: a text or a list that contains the name cannot
-- be indexed by it.
unfoldable pub property : Str → Value → Result (Option Value)
unfolding lookup_field is_substring has_item
property name (obj fields) = ok (lookup_field name fields)
property name (str s) = if is_substring name s then err type_error else ok none
property name (arr vs) = if has_item name vs then err type_error else ok none
property name v = err type_error

abbrev pub Chosen : Type 0
Chosen = ℕ × List Format × List Value

-- the loop over PROPERTIES of `send_content_header`
abbrev pub choose : Format → ℕ → Option Value → Chosen → Chosen
choose format bit none chosen = chosen
choose format bit (some v) (flags, formats, values) =
    (flags + bit, formats ++ (format ∷ []), values ++ (v ∷ []))

unfoldable pub choose_all : Value → List (Str × Format × ℕ) → Chosen → Result Chosen
choose_all properties [] chosen = ok chosen
choose_all properties ((name, format, bit) ∷ rest) chosen = elim (property name properties) [
  | err e ↦ err e
  | ok found ↦ choose_all properties rest (choose format bit found chosen)
]

module _ ⦃codec : Codec⦄ where
  open codec use {dumps}

  unfoldable pub send_content_header : ℕ → Value → ℕ → Exec Transport (Unit {0})
  send_content_header channel_number properties body_size = do
    write_array (2 ∷ 0 ∷ channel_number ∷ [])
    (property_flags, formats, property_values) ←
        lift (choose_all properties properties_table (0, [], []))
    arguments ← lift (
        dumps (short ∷ short ∷ long_long ∷ short ∷ formats) (
          int (pos 60)
          ∷ int (pos 0)
          ∷ int (pos body_size)
          ∷ int (pos property_flags)
          ∷ property_values))
    write_size (length arguments)
    write arguments
    write frame_end

unfoldable pub send_content_body : ℕ → Bytes → Exec Transport (Unit {0})
send_content_body channel_number body = do
  write_array (3 ∷ 0 ∷ channel_number ∷ [])
  write_size (length body)
  write body
  write frame_end
