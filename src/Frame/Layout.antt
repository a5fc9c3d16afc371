-- ===== src/Frame/Layout.antt =====
-- service/frame.py: frames in their layout on the wire.
use mock_amqp_server.Prelude.{
  ℕ, ◌+◌, ◌-◌, ◌^◌, ◌<◌, ◌≡◌, refl, [], ◌∷◌, ◌++◌, arith, length, ltb, length-append, take-length,
  append_assoc, ◌/◌, ◌%◌, ap, false, str_eq,
}
use mock_amqp_server.Python.{Bytes, ok, slice, bytes_of}
use Prim.Native.Nat.add
use mock_amqp_server.Serialization.{Codec}
use mock_amqp_server.Frame.{unpack_frame_header, read_payload, read_sized, read_frame}

-- type, channel, size of the payload, payload, end mark
abbrev pub layout : ℕ → ℕ → Bytes → Bytes
layout frame_type channel payload =
    frame_type
    ∷ channel / 256
    ∷ channel % 256
    ∷ (bytes_of 4 (length payload) ++ (payload ++ (0xce ∷ [])))

-- The middle of three parts.
slice_middle :
    (front middle back : Bytes)
    → slice (length front) (length front + length middle) (front ++ (middle ++ back)) ≡ middle
slice_middle [] middle back = rw (add.zero (length middle)) (take-length middle back)
slice_middle (b ∷ front) middle back =
    rw (add.suc (length front) (length middle)) (slice_middle front middle back)

slice_at :
    (lo hi : ℕ) (b front middle back : Bytes)
    → b ≡ front ++ (middle ++ back)
    → lo ≡ length front
    → hi ≡ length front + length middle
    → slice lo hi b ≡ middle
slice_at lo hi b front middle back e el eh = rw (e, el, eh) (slice_middle front middle back)

-- the bytes before the payload
abbrev prefix : ℕ → ℕ → ℕ → Bytes
prefix frame_type channel n = frame_type ∷ channel / 256 ∷ channel % 256 ∷ bytes_of 4 n

unpack-layout :
    (frame_type channel n : ℕ) (rest : Bytes)
    → channel < 2 ^ 16
    → n < 2 ^ 32
    → unpack_frame_header (slice 0 7 (prefix frame_type channel n ++ rest))
      ≡ ok (frame_type, channel, n)
unfolding unpack_frame_header
unpack-layout frame_type channel n rest hc hn = ground arith

module _ ⦃codec : Codec⦄ where
  read_sized-layout :
      (frame_type channel : ℕ) (payload rest : Bytes)
      → read_sized (layout frame_type channel payload ++ rest) (frame_type, channel, length payload)
        ≡ read_payload frame_type channel (7 + length payload + 1) payload
  unfolding read_sized str_eq
  read_sized-layout frame_type channel payload rest = rw (long_enough, end_mark, middle)
    where
      n : ℕ
      n = length payload

      bytes : Bytes
      bytes = layout frame_type channel payload ++ rest

      parts : (payload ++ (0xce ∷ [])) ++ rest ≡ payload ++ (0xce ∷ rest)
      parts = append_assoc payload (0xce ∷ []) rest

      long_enough : ltb (length bytes) (7 + n + 1) ≡ false
      long_enough =
          ground
            (arith, length-append (payload ++ (0xce ∷ [])) rest, length-append payload (0xce ∷ []))

      end_mark : slice (7 + n + 1 - 1) (7 + n + 1) bytes ≡ 0xce ∷ []
      end_mark =
          slice_at (7 + n + 1 - 1) (7 + n + 1) bytes (prefix frame_type channel n ++ payload)
            (0xce ∷ []) rest (ap (λ (x : Bytes). prefix frame_type channel n ++ x) parts)
            (omega arith) (omega arith)

      middle : slice 7 (7 + n + 1 - 1) bytes ≡ payload
      middle =
          slice_at 7 (7 + n + 1 - 1) bytes (prefix frame_type channel n) payload (0xce ∷ rest)
            (ap (λ (x : Bytes). prefix frame_type channel n ++ x) parts) refl (omega arith)

  -- From a frame in its layout at the head of the buffer, with a channel below 2 ^ 16 and a
  -- payload below 2 ^ 32 bytes, `read_frame` reads that type, channel and payload, and nothing
  -- behind it.
  pub read_frame-layout :
      (frame_type channel : ℕ) (payload rest : Bytes)
      → channel < 2 ^ 16
      → length payload < 2 ^ 32
      → read_frame (layout frame_type channel payload ++ rest)
        ≡ read_payload frame_type channel (7 + length payload + 1) payload
  unfolding read_frame
  read_frame-layout frame_type channel payload rest hc hn =
      rw
        (unpack-layout frame_type channel (length payload) ((payload ++ (0xce ∷ [])) ++ rest) hc hn)
        (read_sized-layout frame_type channel payload rest)
