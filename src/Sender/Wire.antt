-- ===== src/Sender/Wire.antt =====
-- service/sender.py: the content body, and the frame parser.
use mock_amqp_server.Sender.Transport.{Transport}
