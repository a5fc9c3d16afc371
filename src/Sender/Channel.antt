-- ===== src/Sender/Channel.antt =====
-- service/sender.py: the methods of a channel.
use mock_amqp_server.Prelude.{ℕ, ◌+◌, Bool, [], ◌∷◌, length}
use mock_amqp_server.Python.{Str, Exec, lift, ◌>>=◌, ◌>>◌}
use mock_amqp_server.Serialization.{
  bool, int, pos, str, bit, long, long_long, short_str, long_str, Codec,
}
use mock_amqp_server.Sender.Transport.{Transport, write, write_array, write_size, frame_end}

module _ ⦃codec : Codec⦄ where
  open codec use {dumps}

  unfoldable pub send_basic_cancel_ok : ℕ → Str → Exec Transport (Unit {0})
  send_basic_cancel_ok channel_number consumer_tag = do
    arguments ← lift (dumps (short_str ∷ []) (str consumer_tag ∷ []))
    write_array (1 ∷ 0 ∷ channel_number ∷ [])
    write_size (4 + length arguments)
    write_array (0 ∷ 60 ∷ 0 ∷ 31 ∷ [])
    write arguments
    write frame_end

  unfoldable pub send_channel_open_ok : ℕ → Str → Exec Transport (Unit {0})
  send_channel_open_ok channel_number channel_id = do
    arguments ← lift (dumps (long_str ∷ []) (str channel_id ∷ []))
    write_array (1 ∷ 0 ∷ channel_number ∷ [])
    write_size (4 + length arguments)
    write_array (0 ∷ 20 ∷ 0 ∷ 11 ∷ [])
    write arguments
    write frame_end

  unfoldable pub send_channel_close_ok : ℕ → Exec Transport (Unit {0})
  send_channel_close_ok channel_number = do
    write_array (1 ∷ 0 ∷ channel_number ∷ [])
    write_size 4
    write_array (0 ∷ 20 ∷ 0 ∷ 41 ∷ [])
    write frame_end

  unfoldable pub send_exchange_declare_ok : ℕ → Exec Transport (Unit {0})
  send_exchange_declare_ok channel_number = do
    write_array (1 ∷ 0 ∷ channel_number ∷ [])
    write_size 4
    write_array (0 ∷ 40 ∷ 0 ∷ 11 ∷ [])
    write frame_end

  unfoldable pub send_queue_declare_ok : ℕ → Str → ℕ → ℕ → Exec Transport (Unit {0})
  send_queue_declare_ok channel_number queue_name message_count consumer_count = do
    arguments ← lift (
        dumps (short_str ∷ long ∷ long ∷ [])
          (str queue_name ∷ int (pos message_count) ∷ int (pos consumer_count) ∷ []))
    write_array (1 ∷ 0 ∷ channel_number ∷ [])
    write_size (4 + length arguments)
    write_array (0 ∷ 50 ∷ 0 ∷ 11 ∷ [])
    write arguments
    write frame_end

  unfoldable pub send_queue_bind_ok : ℕ → Exec Transport (Unit {0})
  send_queue_bind_ok channel_number = do
    write_array (1 ∷ 0 ∷ channel_number ∷ [])
    write_size 4
    write_array (0 ∷ 50 ∷ 0 ∷ 21 ∷ [])
    write frame_end

  unfoldable pub send_basic_qos_ok : ℕ → Exec Transport (Unit {0})
  send_basic_qos_ok channel_number = do
    write_array (1 ∷ 0 ∷ channel_number ∷ [])
    write_size 4
    write_array (0 ∷ 60 ∷ 0 ∷ 11 ∷ [])
    write frame_end

  unfoldable pub send_basic_consume_ok : ℕ → Str → Exec Transport (Unit {0})
  send_basic_consume_ok channel_number consumer_tag = do
    arguments ← lift (dumps (short_str ∷ []) (str consumer_tag ∷ []))
    write_array (1 ∷ 0 ∷ channel_number ∷ [])
    write_size (4 + length arguments)
    write_array (0 ∷ 60 ∷ 0 ∷ 21 ∷ [])
    write arguments
    write frame_end

  unfoldable pub send_basic_deliver : ℕ → Str → ℕ → Bool → Str → Str → Exec Transport (Unit {0})
  send_basic_deliver channel_number consumer_tag delivery_tag redelivered exchange_name
        routing_key =
      do
        arguments ← lift (
            dumps (short_str ∷ long_long ∷ bit ∷ short_str ∷ short_str ∷ []) (
              str consumer_tag
              ∷ int (pos delivery_tag)
              ∷ bool redelivered
              ∷ str exchange_name
              ∷ str routing_key
              ∷ []))
        write_array (1 ∷ 0 ∷ channel_number ∷ [])
        write_size (4 + length arguments)
        write_array (0 ∷ 60 ∷ 0 ∷ 60 ∷ [])
        write arguments
        write frame_end
