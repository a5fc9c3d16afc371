-- ===== src/Tests/Runs.antt =====
-- A new connection, and the frame of a login.
use mock_amqp_server.Prelude.{ℕ, false, [], ◌∷◌, ◌++◌, length}
use mock_amqp_server.Python.{Bytes, text, bytes_of}
use mock_amqp_server.Method.MethodIds
use mock_amqp_server.State.{init}
use mock_amqp_server.Protocol.{Session, new_session}
use mock_amqp_server.Tests.Samples.{sample_codec, sample_runtime}

abbrev pub raw_frame : ℕ → ℕ → Bytes → Bytes
raw_frame frame_type channel payload =
    bytes_of 1 frame_type
    ++ (bytes_of 2 channel ++ (bytes_of 4 (length payload) ++ (payload ++ (0xce ∷ []))))

abbrev pub method_frame : ℕ → ℕ → Bytes → Bytes
method_frame channel id arguments = raw_frame 1 channel (bytes_of 4 id ++ arguments)

abbrev pub short_text : Bytes → Bytes
short_text s = bytes_of 1 (length s) ++ s

abbrev pub long_text : Bytes → Bytes
long_text s = bytes_of 4 (length s) ++ s

unfoldable pub fresh : Session
unfolding new_session init
fresh = new_session 7 (record { calls = []; closing = false }) init

abbrev pub start_ok_frame : Bytes
start_ok_frame = method_frame 0 MethodIds.start_ok (
    bytes_of 4 0
    ++ (short_text (text "PLAIN")
        ++ (long_text (0 ∷ (text "guest" ++ (0 ∷ text "guest"))) ++ short_text (text "en_US"))))
