-- ===== src/Tests/Samples.antt =====
-- A codec and a run time for the tests: ASCII texts, and tables that are read as empty.
use mock_amqp_server.Prelude.{
  ℕ, ◌+◌, ◌/◌, ◌%◌, refl, Option, none, some, List, [], ◌∷◌, ◌++◌, length, nat_eq, if◌then◌else◌,
}
use mock_amqp_server.Python.{
  Bytes, Result, ok, err, struct_error, type_error, text, slice, big_endian, pack_uint,
}
use mock_amqp_server.Python.Results.{◌>>=◌}
use mock_amqp_server.Python.Sets.{Runtime}
use mock_amqp_server.Serialization.{
  Value, bool, int, str, obj, pos, end, Format, bit, octet, short, long, long_long, short_str,
  long_str, table, Decoded, Codec,
}

uint_at : ℕ → Bytes → ℕ → Result ℕ
uint_at width buf offset =
    let window = slice offset (offset + width) buf in
    if nat_eq (length window) width then ok (big_endian window) else err struct_error

-- the last argument holds the bits that are left of the current byte
unfoldable pub sample_loads :
    (format : List Format) → Bytes → ℕ → Option ℕ → Result (Decoded format × ℕ)
unfolding uint_at
sample_loads [] buf offset bits = ok (tt, offset)
sample_loads (bit ∷ fs) buf offset none = do
  b ← uint_at 1 buf offset
  (rest, o) ← sample_loads fs buf (offset + 1) (some (b / 2))
  ok ((nat_eq (b % 2) 1, rest), o)
sample_loads (bit ∷ fs) buf offset (some b) = do
  (rest, o) ← sample_loads fs buf offset (some (b / 2))
  ok ((nat_eq (b % 2) 1, rest), o)
sample_loads (octet ∷ fs) buf offset bits = do
  n ← uint_at 1 buf offset
  (rest, o) ← sample_loads fs buf (offset + 1) none
  ok ((n, rest), o)
sample_loads (short ∷ fs) buf offset bits = do
  n ← uint_at 2 buf offset
  (rest, o) ← sample_loads fs buf (offset + 2) none
  ok ((n, rest), o)
sample_loads (long ∷ fs) buf offset bits = do
  n ← uint_at 4 buf offset
  (rest, o) ← sample_loads fs buf (offset + 4) none
  ok ((n, rest), o)
sample_loads (long_long ∷ fs) buf offset bits = do
  n ← uint_at 8 buf offset
  (rest, o) ← sample_loads fs buf (offset + 8) none
  ok ((n, rest), o)
sample_loads (short_str ∷ fs) buf offset bits = do
  n ← uint_at 1 buf offset
  (rest, o) ← sample_loads fs buf (offset + 1 + n) none
  ok ((slice (offset + 1) (offset + 1 + n) buf, rest), o)
sample_loads (long_str ∷ fs) buf offset bits = do
  n ← uint_at 4 buf offset
  (rest, o) ← sample_loads fs buf (offset + 4 + n) none
  ok ((slice (offset + 4) (offset + 4 + n) buf, rest), o)
sample_loads (table ∷ fs) buf offset bits = do
  n ← uint_at 4 buf offset
  (rest, o) ← sample_loads fs buf (offset + 4 + n) none
  ok ((end, rest), o)

sample_dump : Format → Value → Result Bytes
sample_dump octet (int (pos n)) = pack_uint 1 n
sample_dump short (int (pos n)) = pack_uint 2 n
sample_dump long (int (pos n)) = pack_uint 4 n
sample_dump long_long (int (pos n)) = pack_uint 8 n
sample_dump bit (bool b) = ok ((if b then 1 else 0) ∷ [])
sample_dump short_str (str s) = do n ← pack_uint 1 (length s); ok (n ++ s)
sample_dump long_str (str s) = do n ← pack_uint 4 (length s); ok (n ++ s)
sample_dump table (obj d) = pack_uint 4 0
sample_dump f v = err type_error

unfoldable pub sample_dumps : List Format → List Value → Result Bytes
unfolding sample_dump pack_uint
sample_dumps (f ∷ fs) (v ∷ vs) = do b ← sample_dump f v; rest ← sample_dumps fs vs; ok (b ++ rest)
sample_dumps fs vs = ok []

instance abbrev pub sample_codec : Codec
sample_codec = record {
  loads = λ format buf offset. sample_loads format buf offset none;
  dumps = sample_dumps;
}

instance abbrev pub sample_runtime : Runtime
sample_runtime = record {
  default_user = text "guest";
  default_password = text "guest";
  iterate = λ s. s;
  iterate_same = λ s x. refl;
  iterate_tags = λ s. s;
  iterate_tags_same = λ s x. refl;
  randint = λ k. k + 1;
}
