-- ===== src/Message.antt =====
-- service/message.py: a message whose body is still arriving.
use mock_amqp_server.Prelude.{Bool, [], ◌++◌, length, nat_eq}
use mock_amqp_server.Python.{Bytes}
use mock_amqp_server.Method.{Header}

pub record Message : Type 0 where
  pub headers : Header
  pub content : Bytes

unfoldable pub new_message : Header → Message
new_message headers = record { headers = headers; content = [] }

unfoldable pub add_content : Bytes → Message → Message
add_content content message = record message { content = message.content ++ content }

unfoldable pub is_complete : Message → Bool
is_complete message = nat_eq message.headers.body_size (length message.content)
