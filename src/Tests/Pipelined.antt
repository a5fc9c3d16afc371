-- ===== src/Tests/Pipelined.antt =====
-- A client that sends its tune-ok without waiting for the server's tune.
use mock_amqp_server.Prelude.{◌≡◌, refl, ◌++◌, str_eq}
use mock_amqp_server.Dict.{get, put}
use mock_amqp_server.Frame.{
  read_frame, read_sized, read_payload, unpack_frame_header, unpack_method_id,
}
use mock_amqp_server.Method.Decode.{new_method, id_to_method, decode_start_ok, decode_tune_ok}
use mock_amqp_server.State.{check_credentials}
use mock_amqp_server.Python.{pack_uint}
use mock_amqp_server.Python.Texts.{split}
use mock_amqp_server.Python.Sets.{add}
use mock_amqp_server.Sender.Connection.{send_connection_tune}
use mock_amqp_server.Protocol.{ConnectionState}
use mock_amqp_server.Protocol.Connections.{
  data_received, frame_loop, treat_frame, treat_connection_frame, on_start_ok, check_start_ok,
  credentials_of, on_tune_ok,
}
use mock_amqp_server.Tests.Samples.{sample_codec, sample_runtime, sample_loads, sample_dumps}
use mock_amqp_server.Tests.Runs.{fresh, start_ok_frame}
use mock_amqp_server.Tests.Sessions.{greeted, tune_ok_frame}

tuned_apart :
    (data_received tune_ok_frame (data_received start_ok_frame greeted).1).1.parser_state
    ≡ ConnectionState.waiting_open
unfolding data_received frame_loop fresh read_frame unpack_frame_header read_sized str_eq
    read_payload unpack_method_id new_method id_to_method decode_start_ok decode_tune_ok
    sample_loads treat_frame treat_connection_frame on_start_ok check_start_ok credentials_of
    check_credentials on_tune_ok split add send_connection_tune sample_dumps get put pack_uint
tuned_apart = refl

not_tuned_at_once :
    (data_received (start_ok_frame ++ tune_ok_frame) greeted).1.parser_state
    ≡ ConnectionState.waiting_tune_ok
unfolding data_received frame_loop fresh read_frame unpack_frame_header read_sized str_eq
    read_payload unpack_method_id new_method id_to_method decode_start_ok decode_tune_ok
    sample_loads treat_frame treat_connection_frame on_start_ok check_start_ok credentials_of
    check_credentials on_tune_ok split add send_connection_tune sample_dumps get put pack_uint
not_tuned_at_once = refl
