-- ===== src/Python/Struct.antt =====
-- Slices of byte strings, and the big-endian integers of the `struct` module.
use mock_amqp_server.Prelude.{
  ℕ, zero, suc, ◌+◌, ◌*◌, ◌/◌, ◌%◌, ◌^◌, ◌<◌, ◌≡◌, [], ◌∷◌, arith, take, drop, ltb, if◌then◌else◌,
}
use mock_amqp_server.Python.Actions.{Bytes, Result, ok, err, struct_error}

-- `b[lo:hi]`
abbrev pub slice : ℕ → ℕ → Bytes → Bytes
slice lo hi b = drop lo (take hi b)

abbrev big_endian_from : ℕ → Bytes → ℕ
big_endian_from acc [] = acc
big_endian_from acc (b ∷ bs) = big_endian_from (acc * 256 + b) bs

abbrev pub big_endian : Bytes → ℕ
big_endian = big_endian_from 0

abbrev pub bytes_of : ℕ → ℕ → Bytes
bytes_of zero v = []
bytes_of (suc width) v = (v / 256 ^ width % 256) ∷ bytes_of width v

-- `pack('>B' / '>H' / '>I' / '>Q', v)` at the width in bytes
unfoldable pub pack_uint : ℕ → ℕ → Result Bytes
pack_uint width v = if ltb v (256 ^ width) then ok (bytes_of width v) else err struct_error

pub big_endian-bytes_of_four : (v : ℕ) → v < 256 ^ 4 → big_endian (bytes_of 4 v) ≡ v
big_endian-bytes_of_four v h = omega arith

pub pack_uint-length : (width v : ℕ) {b : Bytes} → pack_uint width v ≡ ok b → b ≡ bytes_of width v
unfolding pack_uint
pack_uint-length width v h = ground arith
