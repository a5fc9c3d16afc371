-- ===== src/Frame/Progress.antt =====
-- service/frame.py: the size of a frame that is read, and the bytes behind it.
use mock_amqp_server.Prelude.{
  ℕ, ◌+◌, ◌-◌, ◌≤◌, ◌≡◌, refl, ◌≢◌, ◌++◌, none, some, arith, length, ltb, take-append_le,
  length-append, Bool-cases, inl, inr, false, nat_eq, length-take,
}
use mock_amqp_server.Python.{Bytes, Result, ok, err, slice}
use mock_amqp_server.Serialization.{Codec}
use mock_amqp_server.Method.Decode.{new_method}
use mock_amqp_server.Method.NewHeader.{new_header}
use mock_amqp_server.Method.{Method, Header}
use mock_amqp_server.Frame.{
  FrameValue, size_of, unpack_frame_header, read_unpacked, read_payload, read_sized, read_frame,
}

-- A slice within the first part does not see the second.
slice-append :
    (lo hi : ℕ) (b more : Bytes) → hi ≤ length b → slice lo hi (b ++ more) ≡ slice lo hi b
slice-append lo hi b more h = rw (take-append_le hi b more h)

module _ ⦃codec : Codec⦄ where
  size-new_method :
      (channel size id : ℕ) (payload : Bytes) (m : Method)
      → new_method channel size id payload ≡ ok m
      → m.size ≡ size
  unfolding new_method
  size-new_method channel size id payload m h = ground arith

  size-new_header :
      (channel size class_id body_size flags : ℕ) (payload : Bytes) (m : Header)
      → new_header channel size class_id body_size flags payload ≡ ok m
      → m.size ≡ size
  unfolding new_header
  size-new_header channel size class_id body_size flags payload m h = ground arith

  size-read_payload :
      (frame_type channel size : ℕ) (payload : Bytes) (v : FrameValue)
      → read_payload frame_type channel size payload ≡ ok (some v)
      → size_of v ≡ size
  unfolding read_payload
  size-read_payload frame_type channel size payload v h =
      grind (arith, size-new_method, size-new_header)

  size-read_sized :
      (data_in : Bytes) (fields : ℕ × ℕ × ℕ) {v : FrameValue}
      → read_sized data_in fields ≡ ok (some v)
      → (8 ≤ size_of v) × (size_of v ≤ length data_in)
  unfolding read_sized
  size-read_sized data_in (t, c, n) {v} h =
      ground (arith, size-read_payload t c (7 + n + 1) (slice 7 (7 + n + 1 - 1) data_in) v)

  size-read_unpacked :
      (data_in : Bytes) (r : Result (ℕ × ℕ × ℕ)) {v : FrameValue}
      → read_unpacked data_in r ≡ ok (some v)
      → (8 ≤ size_of v) × (size_of v ≤ length data_in)
  size-read_unpacked data_in (ok fields) h = size-read_sized data_in fields h
  size-read_unpacked data_in (err e) h = cc

  -- The size of a frame that `read_frame` returns is eight at least, and no more than the
  -- buffer's length.
  pub size-read_frame :
      (data_in : Bytes) {v : FrameValue}
      → read_frame data_in ≡ ok (some v)
      → (8 ≤ size_of v) × (size_of v ≤ length data_in)
  unfolding read_frame
  size-read_frame data_in h = size-read_unpacked data_in (unpack_frame_header (slice 0 7 data_in)) h

  -- Once the frame is whole, more bytes change nothing.
  read_sized-append :
      (data_in more : Bytes) (fields : ℕ × ℕ × ℕ)
      → read_sized data_in fields ≢ ok none
      → read_sized (data_in ++ more) fields ≡ read_sized data_in fields
  unfolding read_sized
  read_sized-append data_in more (t, c, n) h =
      elim (Bool-cases (ltb (length data_in) (7 + n + 1))) [
        | inl short ↦ absurd (h (rw short))
        | inr enough ↦ rw (
          enough,
          whole enough,
          slice-append (7 + n + 1 - 1) (7 + n + 1) data_in more (fits enough),
          slice-append 7 (7 + n + 1 - 1) data_in more (omega (arith, fits enough)),
        )
      ]
    where
      fits : ltb (length data_in) (7 + n + 1) ≡ false → 7 + n + 1 ≤ length data_in
      fits e = ground arith

      whole :
          ltb (length data_in) (7 + n + 1) ≡ false
          → ltb (length (data_in ++ more)) (7 + n + 1) ≡ false
      whole e = ground (arith, length-append data_in more)

  header_there : (data_in : Bytes) → read_frame data_in ≢ ok none → 7 ≤ length data_in
  unfolding read_frame unpack_frame_header
  header_there data_in h = elim (Bool-cases (nat_eq (length (slice 0 7 data_in)) 7)) [
    | inl e ↦ ground (arith, length-take 7 data_in)
    | inr e ↦ absurd (h (rw e))
  ]

  read_unpacked-append :
      (data_in more : Bytes) (r : Result (ℕ × ℕ × ℕ))
      → read_unpacked data_in r ≢ ok none
      → read_unpacked (data_in ++ more) r ≡ read_unpacked data_in r
  read_unpacked-append data_in more (ok fields) h = read_sized-append data_in more fields h
  read_unpacked-append data_in more (err e) h = refl

  -- Bytes that arrive behind the first frame do not change what is read: whatever `read_frame`
  -- answers, a frame or an exception, it answers on the longer buffer too.
  pub read_frame-append :
      (data_in more : Bytes)
      → read_frame data_in ≢ ok none
      → read_frame (data_in ++ more) ≡ read_frame data_in
  unfolding read_frame
  read_frame-append data_in more h =
      rw (slice-append 0 7 data_in more (header_there data_in h))
        (read_unpacked-append data_in more (unpack_frame_header (slice 0 7 data_in)) h)
