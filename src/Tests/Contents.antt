-- ===== src/Tests/Contents.antt =====
-- The flags of a content header.
use mock_amqp_server.Prelude.{ℕ, ◌^◌, ◌<◌, ◌≡◌, []}
use mock_amqp_server.Python.{Bytes, ok, text}
use mock_amqp_server.Serialization.{Decoded, to_values, str, int, obj, pos, Fields, field, end}
use mock_amqp_server.Sender.Content.{Chosen, choose_all}
use mock_amqp_server.Sender.Content
use mock_amqp_server.Method.NewHeader.{flagged, new_header}
use mock_amqp_server.Method.NewHeader
use mock_amqp_server.Sender.Flags.{formats_of, known_fields, new_header-choose_all}
use mock_amqp_server.Tests.Samples.{sample_codec}

-- two properties of AMQP, and one that it does not know
abbrev urgent : Fields
urgent = field (text "priority") (int (pos 9)) (
    field (text "color") (str (text "red"))
      (field (text "content_type") (str (text "text/plain")) end))

new_header-choose_all_example :
    (chosen : Chosen) × (choose_all (obj urgent) Content.properties_table (0, [], []) ≡ ok chosen)
    × (chosen.0 < 2 ^ 16)
    × (chosen.1 ≡ formats_of (flagged chosen.0 NewHeader.properties_table))
    × ((channel size class_id body_size : ℕ) (payload : Bytes) (offset : ℕ)
          (d : Decoded (formats_of (flagged chosen.0 NewHeader.properties_table)))
        → sample_codec.loads (formats_of (flagged chosen.0 NewHeader.properties_table)) payload 14
          ≡ ok (d, offset)
        → to_values (formats_of (flagged chosen.0 NewHeader.properties_table)) d ≡ chosen.2
        → new_header channel size class_id body_size chosen.0 payload
          ≡ ok (record {
            channel_number = channel;
            size = size;
            class_id = class_id;
            body_size = body_size;
            properties = known_fields urgent NewHeader.properties_table;
          }))
new_header-choose_all_example = new_header-choose_all urgent
