-- ===== src/Sender/Connection.antt =====
-- service/sender.py: the methods of the connection, on channel 0.
use mock_amqp_server.Prelude.{◌+◌, true, [], ◌∷◌, length}
use mock_amqp_server.Python.{Exec, lift, text, ◌>>=◌, ◌>>◌}
use mock_amqp_server.Serialization.{
  bool, int, pos, str, obj, Fields, end, field, octet, short, long, short_str, long_str, table,
  Codec,
}
use mock_amqp_server.Sender.Transport.{Transport, write, write_array, write_size, frame_end}

-- dumped from the peer-properties of a RabbitMQ 3.7.4 server
abbrev pub capabilities : Fields
capabilities = field (text "authentication_failure_close") (bool true) (
    field (text "consumer_priorities") (bool true) (
      field (text "exchange_exchange_bindings") (bool true) (
        field (text "direct_reply_to") (bool true) (
          field (text "per_consumer_qos") (bool true) (
            field (text "basic.nack") (bool true) (
              field (text "publisher_confirms") (bool true) (
                field (text "consumer_cancel_notify") (bool true)
                  (field (text "connection.blocked") (bool true) end))))))))

abbrev pub peer_properties : Fields
peer_properties = field (text "capabilities") (obj capabilities) (
    field (text "information") (str (text "Licensed under the MPL.  See http://www.rabbitmq.com/"))
      (field (text "cluster_name") (str (text "rabbit@60b584cb4c1b")) (
        field (text "product") (str (text "RabbitMQ")) (
          field (text "version") (str (text "3.7.4")) (
            field (text "copyright") (str (text "Copyright (C) 2007-2018 Pivotal Software, Inc."))
              (field (text "platform") (str (text "Erlang/OTP 20.2.4")) end))))))

module _ ⦃codec : Codec⦄ where
  open codec use {dumps}

  unfoldable pub send_heartbeat : Exec Transport (Unit {0})
  send_heartbeat = do write_array (8 ∷ 0 ∷ 0 ∷ []); write_size 0; write frame_end

  unfoldable pub send_connection_start : Exec Transport (Unit {0})
  send_connection_start = do
    arguments ← lift (
        dumps (octet ∷ octet ∷ table ∷ long_str ∷ long_str ∷ []) (
          int (pos 0)
          ∷ int (pos 9)
          ∷ obj peer_properties
          ∷ str (text "PLAIN AMQPLAIN")
          ∷ str (text "en_US")
          ∷ []))
    write_array (1 ∷ 0 ∷ 0 ∷ [])
    write_size (4 + length arguments)
    write_array (0 ∷ 10 ∷ 0 ∷ 10 ∷ [])
    write arguments
    write frame_end

  unfoldable pub send_connection_close_ok : Exec Transport (Unit {0})
  send_connection_close_ok = do
    write_array (1 ∷ 0 ∷ 0 ∷ [])
    write_size 4
    write_array (0 ∷ 10 ∷ 0 ∷ 51 ∷ [])
    write frame_end

  unfoldable pub send_connection_tune : Exec Transport (Unit {0})
  send_connection_tune = do
    arguments ←
        lift
          (dumps (short ∷ long ∷ short ∷ []) (int (pos 0) ∷ int (pos 131072) ∷ int (pos 10) ∷ []))
    write_array (1 ∷ 0 ∷ 0 ∷ [])
    write_size (4 + length arguments)
    write_array (0 ∷ 10 ∷ 0 ∷ 30 ∷ [])
    write arguments
    write frame_end

  unfoldable pub send_connection_ok : Exec Transport (Unit {0})
  send_connection_ok = do
    arguments ← lift (dumps (short_str ∷ []) (str [] ∷ []))
    write_array (1 ∷ 0 ∷ 0 ∷ [])
    write_size (4 + length arguments)
    write_array (0 ∷ 10 ∷ 0 ∷ 41 ∷ [])
    write arguments
    write frame_end
