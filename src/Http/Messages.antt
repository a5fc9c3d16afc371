-- ===== src/Http/Messages.antt =====
-- service/http_protocol.py: `_build_message`, and the fields of the message that it builds.
use mock_amqp_server.Prelude.{
  ◌^◌, Bool, true, false, not, ◌||◌, ◌&&◌, Option, none, some, [], ◌∷◌, nat_eq, str_keys, ◌==◌,
  if◌then◌else◌,
}
use mock_amqp_server.Python.{Str, Bytes, Result, ok, err, key_error, type_error, text}
use mock_amqp_server.Python.Results.{◌>>=◌}
use mock_amqp_server.Python.Texts.{starts_with, delete}
use mock_amqp_server.Python.Utf8.{decode}
use mock_amqp_server.Serialization.{
  Value, null, bool, int, float, str, bytes, decimal, datetime, arr, obj, pos, negsuc, nil, cons,
  Fields, end, field,
}
use mock_amqp_server.State.Json.{Json}
use mock_amqp_server.Http.{Headers}

-- `d.get(k)` and `d[k] = v` on the dictionaries of a value
unfoldable pub find_field : Str → Fields → Option Value
find_field k end = none
find_field k (field j v d) = if j == k then some v else find_field k d

unfoldable pub set_field : Str → Value → Fields → Fields
set_field k v end = field k v end
set_field k v (field j w d) = if j == k then field j v d else field j w (set_field k v d)

-- one header; the accumulator is (has_octet_stream, kept_headers)
unfoldable pub keep_header : Bytes → Bytes → Bool × Fields → Result (Bool × Fields)
unfolding starts_with delete decode set_field
keep_header type value (has_octet_stream, kept_headers) =
    if type == text "content-type" && value == text "application/octet-stream"
    then ok (true, kept_headers)
    else if starts_with (text "amqp_header_") type
    then (do
      v ← decode value
      name ← decode (delete (text "amqp_header_") type)
      ok (has_octet_stream, set_field name (str v) kept_headers))
    else ok (has_octet_stream, kept_headers)

unfoldable pub keep_headers : Headers → Bool × Fields → Result (Bool × Fields)
unfolding keep_header
keep_headers [] kept = ok kept
keep_headers ((type, value) ∷ headers) kept = do
  kept' ← keep_header type value kept
  keep_headers headers kept'

module _ ⦃json : Json⦄ where
  unfoldable pub build_message : Bytes → Headers → Result Value
  unfolding keep_headers decode
  build_message received headers = do
    (has_octet_stream, kept_headers) ← keep_headers headers (false, end)
    if has_octet_stream
        then ok (
            obj (
              field (text "body") (bytes received) (
                field (text "headers") (obj kept_headers) (field (text "binary") (bool true) end))))
        else (do s ← decode received; json.loads s)

-- `full_message[k]`
unfoldable pub item : Str → Value → Result Value
unfolding find_field
item k (obj d) = elim (find_field k d) [ none ↦ err key_error | some v ↦ ok v ]
item k v = err type_error

-- the truth value of what json.loads returns, which is neither bytes, a decimal nor a datetime
abbrev pub truthy : Value → Bool
truthy null = false
truthy (bool b) = b
truthy (int (pos n)) = not (nat_eq n 0)
truthy (int (negsuc n)) = true
truthy (float bits) = not (nat_eq bits 0 || nat_eq bits (2 ^ 63))
truthy (str []) = false
truthy (str (c ∷ s)) = true
truthy (bytes []) = false
truthy (bytes (b ∷ s)) = true
truthy (decimal d n) = true
truthy (datetime n) = true
truthy (arr nil) = false
truthy (arr (cons v vs)) = true
truthy (obj end) = false
truthy (obj (field k v d)) = true

abbrev pub is_true : Option Value → Bool
is_true none = false
is_true (some v) = truthy v

-- `'binary' in full_message and full_message['binary']`, of a dictionary
unfoldable pub binary_of : Value → Bool
unfolding find_field
binary_of (obj d) = is_true (find_field (text "binary") d)
binary_of v = false
