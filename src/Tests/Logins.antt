-- ===== src/Tests/Logins.antt =====
-- The default user logs in.
use mock_amqp_server.Prelude.{◌≡◌, ◌≢◌, refl, true, false, some, str_keys}
use mock_amqp_server.Dict.{get}
use mock_amqp_server.Python.{ok, text, pure, ◌>>◌}
use mock_amqp_server.Serialization.{end}
use mock_amqp_server.Method.{Method, StartOk, start_ok}
use mock_amqp_server.Method.MethodIds
use mock_amqp_server.Frame.{method}
use mock_amqp_server.Sender.Connection.{send_connection_tune}
use mock_amqp_server.Protocol.{Session, ConnectionState, on_transport}
use mock_amqp_server.Protocol.Connections.{on_start_ok, set_parser_state}
use mock_amqp_server.Protocol.Greeting.{closed}
use mock_amqp_server.Protocol.Login.{plain_response, logged, on_start_ok-plain}
use mock_amqp_server.Tests.Samples.{sample_codec, sample_runtime}
use mock_amqp_server.Tests.Runs.{fresh}

abbrev guest_login : StartOk
guest_login = record {
  peer_properties = end;
  mechanism = text "PLAIN";
  response = plain_response (text "guest") (text "guest");
  locale = text "en_US";
}

abbrev guest_start_ok : Method
guest_start_ok = record {
  channel_number = 0;
  size = 40;
  method_id = MethodIds.start_ok;
  properties = start_ok guest_login;
}

abbrev waiting : Session
waiting = record fresh { parser_state = ConnectionState.waiting_start_ok }

on_start_ok-plain_example :
    (get (text "guest") waiting.global_state.users ≡ some (text "guest")
      → on_start_ok (method guest_start_ok) waiting
        ≡ (do
          on_transport send_connection_tune
          set_parser_state ConnectionState.waiting_tune_ok
          pure false)
            (logged (text "guest") true waiting))
    × (get (text "guest") waiting.global_state.users ≢ some (text "guest")
        → on_start_ok (method guest_start_ok) waiting ≡ (
          ok false,
          record (logged (text "guest") false waiting) { transport = closed waiting.transport },
        ))
on_start_ok-plain_example =
    on_start_ok-plain guest_start_ok guest_login (text "guest") (text "guest") waiting refl refl
      refl (refl, (refl, (refl, (refl, (refl, tt))))) (refl, (refl, (refl, (refl, (refl, tt)))))
