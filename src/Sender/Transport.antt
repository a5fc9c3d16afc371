-- ===== src/Sender/Transport.antt =====
-- The transport of a connection (asyncio) as the record of the calls that it has seen, and the
-- writes of service/sender.py.
use mock_amqp_server.Prelude.{ℕ, Bool, true, List, [], ◌∷◌, ◌++◌, ◌&&◌, ltb, if◌then◌else◌}
use mock_amqp_server.Python.{Bytes, Result, ok, err, value_error, Exec, lift, ◌>>=◌, pack_uint}

pub data Call : Type 0 where
  write_call : Bytes → Call
  close_call : Call

-- `closing` is what `is_closing()` answers: `close()` was called, or the peer has gone.
pub record Transport : Type 0 where
  pub calls : List Call
  pub closing : Bool

-- The bytes of all writes.
abbrev pub written : List Call → Bytes
written [] = []
written (write_call b ∷ calls) = b ++ written calls
written (close_call ∷ calls) = written calls

abbrev pub write : Bytes → Exec Transport (Unit {0})
write b t = (ok tt, record t { calls = t.calls ++ (write_call b ∷ []) })

abbrev pub close : Exec Transport (Unit {0})
close t = (ok tt, record t { calls = t.calls ++ (close_call ∷ []); closing = true })

-- `bytearray([...])`
abbrev pub all_bytes : List ℕ → Bool
all_bytes [] = true
all_bytes (n ∷ ns) = ltb n 256 && all_bytes ns

abbrev pub bytearray : List ℕ → Result Bytes
bytearray ns = if all_bytes ns then ok ns else err value_error

-- `transport.write(bytearray([...]))` and `transport.write(pack('>I', size))`
abbrev pub write_array : List ℕ → Exec Transport (Unit {0})
write_array ns = do b ← lift (bytearray ns); write b

abbrev pub write_size : ℕ → Exec Transport (Unit {0})
write_size size = do b ← lift (pack_uint 4 size); write b

abbrev pub frame_end : Bytes
frame_end = 0xce ∷ []
