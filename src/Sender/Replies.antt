-- ===== src/Sender/Replies.antt =====
-- service/sender.py: one description of all the methods that the server sends, with the class, the
-- method, the channel and the arguments.
use mock_amqp_server.Prelude.{
  ℕ, ◌+◌, ◌^◌, ◌/◌, ◌%◌, ◌≤◌, ◌<◌, ◌≡◌, refl, Bool, List, [], ◌∷◌, ◌++◌, arith, length,
  append_assoc, append-nil, lt→ltb, le→ltb, suc,
}
use mock_amqp_server.Python.{
  Str, Bytes, Result, ok, err, value_error, text, Exec, lift, pack_uint, ◌>>=◌, ◌>>◌,
}
use mock_amqp_server.Serialization.{
  bool, int, pos, str, obj, bit, octet, short, long, long_long, short_str, long_str, table, Codec,
}
use mock_amqp_server.Frame.Layout.{layout}
use mock_amqp_server.Sender.Transport.{
  Transport, Call, write_call, close_call, written, write, write_array, write_size, frame_end,
}
use mock_amqp_server.Sender.Connection.{
  peer_properties, send_connection_start, send_connection_close_ok, send_connection_tune,
  send_connection_ok,
}
use mock_amqp_server.Sender.Channel.{
  send_basic_cancel_ok, send_channel_open_ok, send_channel_close_ok, send_exchange_declare_ok,
  send_queue_declare_ok, send_queue_bind_ok, send_basic_qos_ok, send_basic_consume_ok,
  send_basic_deliver,
}

pub data Reply : Type 0 where
  connection_start connection_close_ok connection_tune connection_ok : Reply
  basic_cancel_ok : ℕ → Str → Reply
  channel_open_ok : ℕ → Str → Reply
  channel_close_ok exchange_declare_ok queue_bind_ok basic_qos_ok : ℕ → Reply
  queue_declare_ok : ℕ → Str → ℕ → ℕ → Reply
  basic_consume_ok : ℕ → Str → Reply
  basic_deliver : ℕ → Str → ℕ → Bool → Str → Str → Reply

abbrev pub channel_of : Reply → ℕ
channel_of (basic_cancel_ok n tag) = n
channel_of (channel_open_ok n id) = n
channel_of (channel_close_ok n) = n
channel_of (exchange_declare_ok n) = n
channel_of (queue_bind_ok n) = n
channel_of (basic_qos_ok n) = n
channel_of (queue_declare_ok n name messages consumers) = n
channel_of (basic_consume_ok n tag) = n
channel_of (basic_deliver n tag delivery redelivered exchange key) = n
channel_of r = 0

-- the numbers of AMQP 0.9.1 for the class and the method
abbrev pub class_method : Reply → ℕ × ℕ
class_method connection_start = (10, 10)
class_method connection_close_ok = (10, 51)
class_method connection_tune = (10, 30)
class_method connection_ok = (10, 41)
class_method (basic_cancel_ok n tag) = (60, 31)
class_method (channel_open_ok n id) = (20, 11)
class_method (channel_close_ok n) = (20, 41)
class_method (exchange_declare_ok n) = (40, 11)
class_method (queue_bind_ok n) = (50, 21)
class_method (basic_qos_ok n) = (60, 11)
class_method (queue_declare_ok n name messages consumers) = (50, 11)
class_method (basic_consume_ok n tag) = (60, 21)
class_method (basic_deliver n tag delivery redelivered exchange key) = (60, 60)

module _ ⦃codec : Codec⦄ where
  open codec use {dumps}

  -- what stands behind the class and the method
  abbrev pub arguments_of : Reply → Result Bytes
  arguments_of connection_start = dumps (octet ∷ octet ∷ table ∷ long_str ∷ long_str ∷ []) (
      int (pos 0)
      ∷ int (pos 9)
      ∷ obj peer_properties
      ∷ str (text "PLAIN AMQPLAIN")
      ∷ str (text "en_US")
      ∷ [])
  arguments_of connection_tune =
      dumps (short ∷ long ∷ short ∷ []) (int (pos 0) ∷ int (pos 131072) ∷ int (pos 10) ∷ [])
  arguments_of connection_ok = dumps (short_str ∷ []) (str [] ∷ [])
  arguments_of (basic_cancel_ok n tag) = dumps (short_str ∷ []) (str tag ∷ [])
  arguments_of (channel_open_ok n id) = dumps (long_str ∷ []) (str id ∷ [])
  arguments_of (queue_declare_ok n name messages consumers) =
      dumps (short_str ∷ long ∷ long ∷ [])
        (str name ∷ int (pos messages) ∷ int (pos consumers) ∷ [])
  arguments_of (basic_consume_ok n tag) = dumps (short_str ∷ []) (str tag ∷ [])
  arguments_of (basic_deliver n tag delivery redelivered exchange key) =
      dumps (short_str ∷ long_long ∷ bit ∷ short_str ∷ short_str ∷ [])
        (str tag ∷ int (pos delivery) ∷ bool redelivered ∷ str exchange ∷ str key ∷ [])
  arguments_of r = ok []

  abbrev pub send : Reply → Exec Transport (Unit {0})
  send connection_start = send_connection_start
  send connection_close_ok = send_connection_close_ok
  send connection_tune = send_connection_tune
  send connection_ok = send_connection_ok
  send (basic_cancel_ok n tag) = send_basic_cancel_ok n tag
  send (channel_open_ok n id) = send_channel_open_ok n id
  send (channel_close_ok n) = send_channel_close_ok n
  send (exchange_declare_ok n) = send_exchange_declare_ok n
  send (queue_bind_ok n) = send_queue_bind_ok n
  send (basic_qos_ok n) = send_basic_qos_ok n
  send (queue_declare_ok n name messages consumers) =
      send_queue_declare_ok n name messages consumers
  send (basic_consume_ok n tag) = send_basic_consume_ok n tag
  send (basic_deliver n tag delivery redelivered exchange key) =
      send_basic_deliver n tag delivery redelivered exchange key

pub written-append : (xs ys : List Call) → written (xs ++ ys) ≡ written xs ++ written ys
written-append [] ys = refl
written-append (write_call b ∷ xs) ys = rw (written-append xs ys, append_assoc)
written-append (close_call ∷ xs) ys = written-append xs ys

-- The writes of a method's frame, with its arguments and without.
method_writes : ℕ → ℕ → ℕ → Bytes → Exec Transport (Unit {0})
method_writes n class_id method_id arguments = do
  write_array (1 ∷ 0 ∷ n ∷ [])
  write_size (4 + length arguments)
  write_array (0 ∷ class_id ∷ 0 ∷ method_id ∷ [])
  write arguments
  write frame_end

bare_writes : ℕ → ℕ → ℕ → Exec Transport (Unit {0})
bare_writes n class_id method_id = do
  write_array (1 ∷ 0 ∷ n ∷ [])
  write_size 4
  write_array (0 ∷ class_id ∷ 0 ∷ method_id ∷ [])
  write frame_end

-- The bytes `b` join what was written, and nothing is raised.
pub record Writes (m : Exec Transport (Unit {0})) (t : Transport) (b : Bytes) : Type 0 where
  pub returns : (m t).0 ≡ ok tt
  pub bytes : written (m t).1.calls ≡ written t.calls ++ b
  pub still : (m t).1.closing ≡ t.closing

pub single_channel : (n : ℕ) → n < 256 → (n / 256 ≡ 0) × (n % 256 ≡ n)
single_channel n h = omega arith

module _ (n class_id method_id : ℕ) (t : Transport) (hn : n < 256) (hc : class_id < 256)
    (hm : method_id < 256) where
  method_writes_lem :
      (arguments : Bytes)
      → 4 + length arguments < 2 ^ 32
      → Writes
          (method_writes n class_id method_id arguments)
          t
          (layout 1 n (0 ∷ class_id ∷ 0 ∷ method_id ∷ arguments))
  unfolding method_writes pack_uint
  method_writes_lem arguments h =
      rw
        (
          lt→ltb n 256 hn,
          lt→ltb class_id 256 hc,
          lt→ltb method_id 256 hm,
          lt→ltb (4 + length arguments) (2 ^ 32) h,
        )
        (record {
          returns = refl;
          bytes =
              rw ((single_channel n hn).0, (single_channel n hn).1, four arguments)
                (simp (written-append, append_assoc, append-nil));
          still = refl;
        })
    where
      four : (b : Bytes) → suc (suc (suc (suc (length b)))) ≡ 4 + length b
      four b = omega arith

  with_arguments :
      (dumped : Result Bytes) (arguments : Bytes)
      → dumped ≡ ok arguments
      → 4 + length arguments < 2 ^ 32
      → Writes
          (lift dumped >>= method_writes n class_id method_id)
          t
          (layout 1 n (0 ∷ class_id ∷ 0 ∷ method_id ∷ arguments))
  with_arguments dumped arguments e h = rw e (method_writes_lem arguments h)

  bare_writes_lem :
      (arguments : Bytes)
      → ◌≡◌ {A = Result Bytes} (ok []) (ok arguments)
      → Writes
          (bare_writes n class_id method_id)
          t
          (layout 1 n (0 ∷ class_id ∷ 0 ∷ method_id ∷ arguments))
  unfolding bare_writes pack_uint
  bare_writes_lem [] e =
      rw (lt→ltb n 256 hn, lt→ltb class_id 256 hc, lt→ltb method_id 256 hm)
        (record {
          returns = refl;
          bytes =
              rw ((single_channel n hn).0, (single_channel n hn).1)
                (simp (written-append, append_assoc, append-nil));
          still = refl;
        })
  bare_writes_lem (b ∷ bs) e = cc

module _ ⦃codec : Codec⦄ where
  -- Every method that the server sends, on a channel below 256, with arguments that `dumps`
  -- accepts and a payload below 2 ^ 32 bytes, is one frame on the wire: of type 1, on its
  -- channel, with the size of its payload, the AMQP numbers of its class and method, its
  -- arguments and the end mark. Nothing is raised.
  pub send-Writes :
      (r : Reply) (t : Transport) (arguments : Bytes)
      → channel_of r < 256
      → arguments_of r ≡ ok arguments
      → 4 + length arguments < 2 ^ 32
      → Writes
          (send r)
          t
          (layout 1 (channel_of r) (0 ∷ (class_method r).0 ∷ 0 ∷ (class_method r).1 ∷ arguments))
  unfolding send_connection_start send_connection_close_ok send_connection_tune send_connection_ok
      send_basic_cancel_ok send_channel_open_ok send_channel_close_ok send_exchange_declare_ok
      send_queue_declare_ok send_queue_bind_ok send_basic_qos_ok send_basic_consume_ok
      send_basic_deliver method_writes bare_writes
  send-Writes connection_start t a hn e h =
      with_arguments 0 10 10 t hn (omega arith) (omega arith) (arguments_of connection_start) a e h
  send-Writes connection_close_ok t a hn e h =
      bare_writes_lem 0 10 51 t hn (omega arith) (omega arith) a e
  send-Writes connection_tune t a hn e h =
      with_arguments 0 10 30 t hn (omega arith) (omega arith) (arguments_of connection_tune) a e h
  send-Writes connection_ok t a hn e h =
      with_arguments 0 10 41 t hn (omega arith) (omega arith) (arguments_of connection_ok) a e h
  send-Writes (basic_cancel_ok n tag) t a hn e h =
      with_arguments n 60 31 t hn (omega arith) (omega arith) (arguments_of (basic_cancel_ok n tag))
        a e h
  send-Writes (channel_open_ok n id) t a hn e h =
      with_arguments n 20 11 t hn (omega arith) (omega arith) (arguments_of (channel_open_ok n id))
        a e h
  send-Writes (channel_close_ok n) t a hn e h =
      bare_writes_lem n 20 41 t hn (omega arith) (omega arith) a e
  send-Writes (exchange_declare_ok n) t a hn e h =
      bare_writes_lem n 40 11 t hn (omega arith) (omega arith) a e
  send-Writes (queue_bind_ok n) t a hn e h =
      bare_writes_lem n 50 21 t hn (omega arith) (omega arith) a e
  send-Writes (basic_qos_ok n) t a hn e h =
      bare_writes_lem n 60 11 t hn (omega arith) (omega arith) a e
  send-Writes (queue_declare_ok n name messages consumers) t a hn e h =
      with_arguments n 50 11 t hn (omega arith) (omega arith)
        (arguments_of (queue_declare_ok n name messages consumers)) a e h
  send-Writes (basic_consume_ok n tag) t a hn e h =
      with_arguments n 60 21 t hn (omega arith) (omega arith)
        (arguments_of (basic_consume_ok n tag)) a e h
  send-Writes (basic_deliver n tag delivery redelivered exchange key) t a hn e h =
      with_arguments n 60 60 t hn (omega arith) (omega arith)
        (arguments_of (basic_deliver n tag delivery redelivered exchange key)) a e h

module _ (n class_id method_id : ℕ) (t : Transport) (wide : 256 ≤ n) where
  method_writes-wide :
      (dumped : Result Bytes) (arguments : Bytes)
      → dumped ≡ ok arguments
      → (lift dumped >>= method_writes n class_id method_id) t ≡ (err value_error, t)
  unfolding method_writes
  method_writes-wide dumped arguments e = rw (e, le→ltb n 256 wide)

  bare_writes-wide : bare_writes n class_id method_id t ≡ (err value_error, t)
  unfolding bare_writes
  bare_writes-wide = rw (le→ltb n 256 wide)

module _ ⦃codec : Codec⦄ where
  -- On a channel from 256 on, which AMQP allows, every answer raises ValueError before anything is
  -- written, once its arguments are accepted by `dumps`.
  pub send-wide_channel :
      (r : Reply) (t : Transport) (arguments : Bytes)
      → 256 ≤ channel_of r
      → arguments_of r ≡ ok arguments
      → send r t ≡ (err value_error, t)
  unfolding send_basic_cancel_ok send_channel_open_ok send_channel_close_ok send_exchange_declare_ok
      send_queue_declare_ok send_queue_bind_ok send_basic_qos_ok send_basic_consume_ok
      send_basic_deliver method_writes bare_writes
  send-wide_channel connection_start t a wide e = absurd (omega arith)
  send-wide_channel connection_close_ok t a wide e = absurd (omega arith)
  send-wide_channel connection_tune t a wide e = absurd (omega arith)
  send-wide_channel connection_ok t a wide e = absurd (omega arith)
  send-wide_channel (basic_cancel_ok n tag) t a wide e =
      method_writes-wide n 60 31 t wide (arguments_of (basic_cancel_ok n tag)) a e
  send-wide_channel (channel_open_ok n id) t a wide e =
      method_writes-wide n 20 11 t wide (arguments_of (channel_open_ok n id)) a e
  send-wide_channel (channel_close_ok n) t a wide e = bare_writes-wide n 20 41 t wide
  send-wide_channel (exchange_declare_ok n) t a wide e = bare_writes-wide n 40 11 t wide
  send-wide_channel (queue_bind_ok n) t a wide e = bare_writes-wide n 50 21 t wide
  send-wide_channel (basic_qos_ok n) t a wide e = bare_writes-wide n 60 11 t wide
  send-wide_channel (queue_declare_ok n name messages consumers) t a wide e =
      method_writes-wide n 50 11 t wide (arguments_of (queue_declare_ok n name messages consumers))
        a e
  send-wide_channel (basic_consume_ok n tag) t a wide e =
      method_writes-wide n 60 21 t wide (arguments_of (basic_consume_ok n tag)) a e
  send-wide_channel (basic_deliver n tag delivery redelivered exchange key) t a wide e =
      method_writes-wide n 60 60 t wide
        (arguments_of (basic_deliver n tag delivery redelivered exchange key)) a e
