-- ===== src/Method.antt =====
-- service/method.py: the decoded frames, and the decoders of the methods' arguments.
pub mod MethodIds
pub mod Decode
pub mod NewHeader
use mock_amqp_server.Prelude.{
  ℕ, ◌^◌, Bool, Option, none, some, List, [], ◌∷◌, nat_eq, if◌then◌else◌,
}
use mock_amqp_server.Python.{Str, Bytes, Result, ok, err, key_error, text}
use mock_amqp_server.Python.Results.{◌>>=◌}
use mock_amqp_server.Serialization.{
  Value, Fields, end, field, Format, bit, octet, short, long, long_long, short_str, long_str, table,
  Codec, to_values,
}
use Prim.Native.Nat.{bit_and}

pub record StartOk : Type 0 where
  pub peer_properties : Fields
  pub mechanism : Str
  pub response : Str
  pub locale : Str

pub record TuneOk : Type 0 where
  pub channel_max : ℕ
  pub frame_max : ℕ
  pub heartbeat : ℕ

pub record ConnectionOpen : Type 0 where
  pub vhost : Str
  pub capabilities : Str
  pub insist : Bool

pub record ChannelOpen : Type 0 where
  pub reserved_1 : Str

pub record ChannelClose : Type 0 where
  pub reply_code : ℕ
  pub reply_text : Str
  pub class_id : ℕ
  pub method_id : ℕ

pub record BasicQos : Type 0 where
  pub prefetch_size : ℕ
  pub prefetch_count : ℕ
  pub global : Bool

-- `arguments` holds what the source stores under that key: a bit.
pub record ExchangeDeclare : Type 0 where
  pub reserved_1 : ℕ
  pub exchange_name : Str
  pub type : Str
  pub passive : Bool
  pub durable : Bool
  pub auto_delete : Bool
  pub internal : Bool
  pub no_wait : Bool
  pub arguments : Bool

pub record BasicPublish : Type 0 where
  pub reserved_1 : ℕ
  pub exchange_name : Str
  pub routing_key : Str
  pub mandatory : Bool
  pub immediate : Bool

pub record BasicConsume : Type 0 where
  pub reserved_1 : ℕ
  pub queue_name : Str
  pub consumer_tag : Str
  pub no_local : Bool
  pub no_ack : Bool
  pub exclusive : Bool
  pub no_wait : Bool
  pub arguments : Fields

pub record QueueDeclare : Type 0 where
  pub reserved_1 : ℕ
  pub queue_name : Str
  pub passive : Bool
  pub durable : Bool
  pub exclusive : Bool
  pub auto_delete : Bool
  pub no_wait : Bool
  pub arguments : Fields

pub record QueueBind : Type 0 where
  pub reserved_1 : ℕ
  pub queue_name : Str
  pub exchange_name : Str
  pub routing_key : Str
  pub no_wait : Bool
  pub arguments : Fields

pub record BasicAck : Type 0 where
  pub delivery_tag : ℕ
  pub multiple : Bool

pub record BasicNack : Type 0 where
  pub delivery_tag : ℕ
  pub multiple : Bool
  pub requeue : Bool

pub record BasicCancel : Type 0 where
  pub consumer_tag : Str
  pub no_wait : Bool

-- The dictionaries that the decoders return.
pub data Properties : Type 0 where
  start_ok : StartOk → Properties
  tune_ok : TuneOk → Properties
  connection_open : ConnectionOpen → Properties
  close : Properties
  channel_open : ChannelOpen → Properties
  channel_close : ChannelClose → Properties
  basic_qos : BasicQos → Properties
  exchange_declare : ExchangeDeclare → Properties
  basic_publish : BasicPublish → Properties
  basic_consume : BasicConsume → Properties
  queue_declare : QueueDeclare → Properties
  queue_bind : QueueBind → Properties
  basic_ack : BasicAck → Properties
  basic_nack : BasicNack → Properties
  basic_cancel : BasicCancel → Properties

pub record Method : Type 0 where
  pub channel_number : ℕ
  pub size : ℕ
  pub method_id : ℕ
  pub properties : Properties

pub record Header : Type 0 where
  pub channel_number : ℕ
  pub size : ℕ
  pub class_id : ℕ
  pub body_size : ℕ
  pub properties : Fields

pub record Body : Type 0 where
  pub channel_number : ℕ
  pub size : ℕ
  pub content : Bytes
