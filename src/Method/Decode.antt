-- ===== src/Method/Decode.antt =====
-- service/method.py: the decoders of the methods' arguments, and `_ID_TO_METHOD`.
use mock_amqp_server.Prelude.{ℕ, Option, none, some, List, [], ◌∷◌, nat_eq, if◌then◌else◌}
use mock_amqp_server.Python.{Bytes, Result, ok, err, key_error}
use mock_amqp_server.Python.Results.{◌>>=◌}
use mock_amqp_server.Serialization.{
  Format, bit, short, long, long_long, short_str, long_str, table, Codec,
}
use mock_amqp_server.Method.MethodIds
use mock_amqp_server.Method.{
  Properties, Method, close, start_ok, tune_ok, connection_open, channel_open, channel_close,
  basic_qos, exchange_declare, basic_publish, basic_consume, queue_declare, queue_bind, basic_ack,
  basic_nack, basic_cancel,
}

abbrev pub start_ok_format : List Format
start_ok_format = table ∷ short_str ∷ long_str ∷ short_str ∷ []

abbrev pub tune_ok_format : List Format
tune_ok_format = short ∷ long ∷ short ∷ []

abbrev pub connection_open_format : List Format
connection_open_format = short_str ∷ short_str ∷ bit ∷ []

abbrev pub channel_open_format : List Format
channel_open_format = short_str ∷ []

abbrev pub channel_close_format : List Format
channel_close_format = short ∷ short_str ∷ short ∷ short ∷ []

abbrev pub basic_qos_format : List Format
basic_qos_format = long ∷ short ∷ bit ∷ []

abbrev pub exchange_declare_format : List Format
exchange_declare_format = short ∷ short_str ∷ short_str ∷ bit ∷ bit ∷ bit ∷ bit ∷ bit ∷ table ∷ []

abbrev pub basic_publish_format : List Format
basic_publish_format = short ∷ short_str ∷ short_str ∷ bit ∷ bit ∷ []

abbrev pub basic_consume_format : List Format
basic_consume_format = short ∷ short_str ∷ short_str ∷ bit ∷ bit ∷ bit ∷ bit ∷ table ∷ []

abbrev pub queue_declare_format : List Format
queue_declare_format = short ∷ short_str ∷ bit ∷ bit ∷ bit ∷ bit ∷ bit ∷ table ∷ []

abbrev pub queue_bind_format : List Format
queue_bind_format = short ∷ short_str ∷ short_str ∷ short_str ∷ bit ∷ table ∷ []

abbrev pub basic_ack_format : List Format
basic_ack_format = long_long ∷ bit ∷ []

abbrev pub basic_nack_format : List Format
basic_nack_format = long_long ∷ bit ∷ bit ∷ []

abbrev pub basic_cancel_format : List Format
basic_cancel_format = short_str ∷ bit ∷ []

module _ ⦃codec : Codec⦄ where
  open codec use {loads}

  unfoldable pub decode_start_ok : Bytes → Result Properties
  decode_start_ok payload = do
    (values, offset) ← loads start_ok_format payload 4
    ok (
        start_ok (record {
          peer_properties = values.0;
          mechanism = values.1.0;
          response = values.1.1.0;
          locale = values.1.1.1.0;
        }))

  unfoldable pub decode_tune_ok : Bytes → Result Properties
  decode_tune_ok payload = do
    (values, offset) ← loads tune_ok_format payload 4
    ok (
        tune_ok
          (record { channel_max = values.0; frame_max = values.1.0; heartbeat = values.1.1.0 }))

  unfoldable pub decode_connection_open : Bytes → Result Properties
  decode_connection_open payload = do
    (values, offset) ← loads connection_open_format payload 4
    ok (
        connection_open
          (record { vhost = values.0; capabilities = values.1.0; insist = values.1.1.0 }))

  unfoldable pub decode_close : Bytes → Result Properties
  decode_close payload = ok close

  unfoldable pub decode_channel_open : Bytes → Result Properties
  decode_channel_open payload = do
    (values, offset) ← loads channel_open_format payload 4
    ok (channel_open (record { reserved_1 = values.0 }))

  unfoldable pub decode_channel_close : Bytes → Result Properties
  decode_channel_close payload = do
    (values, offset) ← loads channel_close_format payload 4
    ok (
        channel_close (record {
          reply_code = values.0;
          reply_text = values.1.0;
          class_id = values.1.1.0;
          method_id = values.1.1.1.0;
        }))

  unfoldable pub decode_basic_qos : Bytes → Result Properties
  decode_basic_qos payload = do
    (values, offset) ← loads basic_qos_format payload 4
    ok (
        basic_qos
          (record { prefetch_size = values.0; prefetch_count = values.1.0; global = values.1.1.0 }))

  unfoldable pub decode_exchange_declare : Bytes → Result Properties
  decode_exchange_declare payload = do
    (values, offset) ← loads exchange_declare_format payload 4
    ok (
        exchange_declare (record {
          reserved_1 = values.0;
          exchange_name = values.1.0;
          type = values.1.1.0;
          passive = values.1.1.1.0;
          durable = values.1.1.1.1.0;
          auto_delete = values.1.1.1.1.1.0;
          internal = values.1.1.1.1.1.1.0;
          no_wait = values.1.1.1.1.1.1.0;
          arguments = values.1.1.1.1.1.1.1.0;
        }))

  unfoldable pub decode_basic_publish : Bytes → Result Properties
  decode_basic_publish payload = do
    (values, offset) ← loads basic_publish_format payload 4
    ok (
        basic_publish (record {
          reserved_1 = values.0;
          exchange_name = values.1.0;
          routing_key = values.1.1.0;
          mandatory = values.1.1.1.0;
          immediate = values.1.1.1.1.0;
        }))

  unfoldable pub decode_basic_consume : Bytes → Result Properties
  decode_basic_consume payload = do
    (values, offset) ← loads basic_consume_format payload 4
    ok (
        basic_consume (record {
          reserved_1 = values.0;
          queue_name = values.1.0;
          consumer_tag = values.1.1.0;
          no_local = values.1.1.1.0;
          no_ack = values.1.1.1.1.0;
          exclusive = values.1.1.1.1.1.0;
          no_wait = values.1.1.1.1.1.1.0;
          arguments = values.1.1.1.1.1.1.1.0;
        }))

  unfoldable pub decode_queue_declare : Bytes → Result Properties
  decode_queue_declare payload = do
    (values, offset) ← loads queue_declare_format payload 4
    ok (
        queue_declare (record {
          reserved_1 = values.0;
          queue_name = values.1.0;
          passive = values.1.1.0;
          durable = values.1.1.1.0;
          exclusive = values.1.1.1.1.0;
          auto_delete = values.1.1.1.1.1.0;
          no_wait = values.1.1.1.1.1.1.0;
          arguments = values.1.1.1.1.1.1.1.0;
        }))

  unfoldable pub decode_queue_bind : Bytes → Result Properties
  decode_queue_bind payload = do
    (values, offset) ← loads queue_bind_format payload 4
    ok (
        queue_bind (record {
          reserved_1 = values.0;
          queue_name = values.1.0;
          exchange_name = values.1.1.0;
          routing_key = values.1.1.1.0;
          no_wait = values.1.1.1.1.0;
          arguments = values.1.1.1.1.1.0;
        }))

  unfoldable pub decode_basic_ack : Bytes → Result Properties
  decode_basic_ack payload = do
    (values, offset) ← loads basic_ack_format payload 4
    ok (basic_ack (record { delivery_tag = values.0; multiple = values.1.0 }))

  unfoldable pub decode_basic_nack : Bytes → Result Properties
  decode_basic_nack payload = do
    (values, offset) ← loads basic_nack_format payload 4
    ok (
        basic_nack
          (record { delivery_tag = values.0; multiple = values.1.0; requeue = values.1.1.0 }))

  unfoldable pub decode_basic_cancel : Bytes → Result Properties
  decode_basic_cancel payload = do
    (values, offset) ← loads basic_cancel_format payload 4
    ok (basic_cancel (record { consumer_tag = values.0; no_wait = values.1.0 }))

  unfoldable pub id_to_method : ℕ → Option (Bytes → Result Properties)
  id_to_method id =
      if nat_eq id MethodIds.start_ok
      then some decode_start_ok
      else if nat_eq id MethodIds.tune_ok
      then some decode_tune_ok
      else if nat_eq id MethodIds.connection_open
      then some decode_connection_open
      else if nat_eq id MethodIds.close
      then some decode_close
      else if nat_eq id MethodIds.channel_open
      then some decode_channel_open
      else if nat_eq id MethodIds.channel_close
      then some decode_channel_close
      else if nat_eq id MethodIds.basic_qos
      then some decode_basic_qos
      else if nat_eq id MethodIds.basic_publish
      then some decode_basic_publish
      else if nat_eq id MethodIds.basic_consume
      then some decode_basic_consume
      else if nat_eq id MethodIds.basic_ack
      then some decode_basic_ack
      else if nat_eq id MethodIds.basic_nack
      then some decode_basic_nack
      else if nat_eq id MethodIds.basic_cancel
      then some decode_basic_cancel
      else if nat_eq id MethodIds.exchange_declare
      then some decode_exchange_declare
      else if nat_eq id MethodIds.queue_declare
      then some decode_queue_declare
      else if nat_eq id MethodIds.queue_bind
      then some decode_queue_bind
      else none

  -- `Method(channel_number, size, method_id, payload)`
  unfoldable pub new_method : ℕ → ℕ → ℕ → Bytes → Result Method
  new_method channel_number size method_id payload = elim (id_to_method method_id) [
    | none ↦ err key_error
    | some decode_method ↦ do
      properties ← decode_method payload
      ok (record {
        channel_number = channel_number;
        size = size;
        method_id = method_id;
        properties = properties;
      })
  ]
