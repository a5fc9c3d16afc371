-- ===== src/Method/MethodIds.antt =====
-- service/method.py: the enumeration `MethodIDs`.
use mock_amqp_server.Prelude.{ℕ}

abbrev pub start_ok : ℕ
start_ok = 0x000a000b

abbrev pub tune_ok : ℕ
tune_ok = 0x000a001f

abbrev pub heart_beat : ℕ
heart_beat = 0x000a001f

abbrev pub connection_open : ℕ
connection_open = 0x000a0028

abbrev pub close : ℕ
close = 0x000a0032

abbrev pub channel_open : ℕ
channel_open = 0x0014000a

abbrev pub channel_close : ℕ
channel_close = 0x00140028

abbrev pub basic_cancel : ℕ
basic_cancel = 0x003c001e

abbrev pub basic_qos : ℕ
basic_qos = 0x003c000a

abbrev pub basic_publish : ℕ
basic_publish = 0x003c0028

abbrev pub basic_consume : ℕ
basic_consume = 0x003c0014

abbrev pub basic_ack : ℕ
basic_ack = 0x003c0050

abbrev pub basic_nack : ℕ
basic_nack = 0x003c0078

abbrev pub exchange_declare : ℕ
exchange_declare = 0x0028000a

abbrev pub queue_declare : ℕ
queue_declare = 0x0032000a

abbrev pub queue_bind : ℕ
queue_bind = 0x00320014
