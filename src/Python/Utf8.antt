-- ===== src/Python/Utf8.antt =====
-- `bytes.decode('utf-8')`, and that it reads back what `str.encode` writes.
use mock_amqp_server.Prelude.{
  ℕ, zero, suc, ◌+◌, ◌-◌, ◌*◌, ◌/◌, ◌%◌, ◌<◌, ◌≤◌, ◌≡◌, refl, false, ◌&&◌, [], ◌∷◌, ◌++◌, All, ltb,
  leb, nat_eq, if◌then◌else◌, arith, Bool-cases, inl, inr, ◌∙◌,
}
use mock_amqp_server.Python.Actions.{Str, Bytes, Result, ok, err, unicode_error, value_error}
use mock_amqp_server.Python.Results.{◌>>=◌}
use mock_amqp_server.Python.Texts.{utf8_point, encode}

-- Inside a code point: how many bytes are missing, the bits read so far, and the range of the next
-- byte, which is narrower where a longer form than needed, a surrogate or too large a code point
-- would follow.
pub record Pending : Type 0 where
  pub more : ℕ
  pub point : ℕ
  pub low : ℕ
  pub high : ℕ

abbrev pub pending : ℕ → ℕ → ℕ → ℕ → Pending
pending more point low high = record { more = more; point = point; low = low; high = high }

abbrev pub between : Pending
between = pending 0 0 0 0

-- the first byte of a code point
unfoldable pub first_byte : ℕ → Result (Str × Pending)
first_byte b =
    if ltb b 0x80
    then ok (b ∷ [], between)
    else if ltb b 0xc2
    then err unicode_error
    else if ltb b 0xe0
    then ok ([], pending 1 (b - 0xc0) 0x80 0xbf)
    else if ltb b 0xf0
    then ok (
      [],
      pending 2 (b - 0xe0) (if nat_eq b 0xe0 then 0xa0 else 0x80)
          (if nat_eq b 0xed then 0x9f else 0xbf),
    )
    else if ltb b 0xf5
    then ok (
      [],
      pending 3 (b - 0xf0) (if nat_eq b 0xf0 then 0x90 else 0x80)
          (if nat_eq b 0xf4 then 0x8f else 0xbf),
    )
    else err unicode_error

-- a further byte; `more` bytes follow behind it
unfoldable pub next_byte : ℕ → Pending → ℕ → Result (Str × Pending)
next_byte more p b =
    let point = p.point * 64 + (b - 0x80) in
    if leb p.low b && leb b p.high
    then if nat_eq more 0 then ok (point ∷ [], between) else ok ([], pending more point 0x80 0xbf)
    else err unicode_error

abbrev byte_step : ℕ → Pending → ℕ → Result (Str × Pending)
byte_step zero p b = first_byte b
byte_step (suc more) p b = next_byte more p b

unfoldable pub decode_from : Pending → Bytes → Result Str
unfolding first_byte next_byte
decode_from p [] = if nat_eq p.more 0 then ok [] else err unicode_error
decode_from p (b ∷ s) = do
  (out, p') ← byte_step p.more p b
  rest ← decode_from p' s
  ok (out ++ rest)

unfoldable pub decode : Bytes → Result Str
unfolding decode_from
decode s = decode_from between s

-- The code points of Python's texts.
abbrev pub IsText : Str → Type 0
IsText = All (λ c. c < 0x110000)

-- what is read behind a code point
abbrev behind : ℕ → Bytes → Result Str
behind c s = do rest ← decode_from between s; ok (c ∷ rest)

decode-quiet :
    (p p' : Pending) (b : ℕ) (s : Bytes)
    → byte_step p.more p b ≡ ok ([], p')
    → decode_from p (b ∷ s) ≡ (do rest ← decode_from p' s; ok rest)
unfolding decode_from
decode-quiet p p' b s e = rw (e, decode_from) refl

ok_again : (r : Result Str) → (do rest ← r; ok rest) ≡ r
ok_again (ok a) = refl
ok_again (err e) = refl

decode-skip :
    (p p' : Pending) (b : ℕ) (s : Bytes)
    → byte_step p.more p b ≡ ok ([], p')
    → decode_from p (b ∷ s) ≡ decode_from p' s
decode-skip p p' b s e = decode-quiet p p' b s e ∙ ok_again (decode_from p' s)

decode-emit :
    (p : Pending) (b c : ℕ) (s : Bytes)
    → byte_step p.more p b ≡ ok (c ∷ [], between)
    → decode_from p (b ∷ s) ≡ behind c s
unfolding decode_from
decode-emit p b c s e = rw (e, decode_from) refl

-- a middle byte and a last byte
module _ (point low high b : ℕ) (over : low ≤ b) (under : b ≤ high) where
  middle_byte :
      (n : ℕ)
      → next_byte (suc n) (pending (suc (suc n)) point low high) b
        ≡ ok ([], pending (suc n) (point * 64 + (b - 0x80)) 0x80 0xbf)
  unfolding next_byte
  middle_byte n = ground arith

  last_byte :
      (c : ℕ)
      → point * 64 + (b - 0x80) ≡ c
      → next_byte 0 (pending 1 point low high) b ≡ ok (c ∷ [], between)
  unfolding next_byte
  last_byte c e = ground arith

-- What the first byte of a longer form leaves pending.
abbrev from_two : ℕ → Pending
from_two c = pending 1 (c / 64) 0x80 0xbf

abbrev from_three : ℕ → Pending
from_three c =
    pending 2 (c / 4096) (if nat_eq (c / 4096) 0 then 0xa0 else 0x80)
      (if nat_eq (c / 4096) 13 then 0x9f else 0xbf)

abbrev from_four : ℕ → Pending
from_four c =
    pending 3 (c / 262144) (if nat_eq (c / 262144) 0 then 0x90 else 0x80)
      (if nat_eq (c / 262144) 4 then 0x8f else 0xbf)

first_of_two : (c : ℕ) → 0x80 ≤ c → c < 0x800 → first_byte (0xc0 + c / 64) ≡ ok ([], from_two c)
unfolding first_byte
first_of_two c h k = ground arith

first_of_three :
    (c : ℕ) → 0x800 ≤ c → c < 0x10000 → first_byte (0xe0 + c / 4096) ≡ ok ([], from_three c)
unfolding first_byte
first_of_three c h k = ground arith

first_of_four :
    (c : ℕ) → 0x10000 ≤ c → c < 0x110000 → first_byte (0xf0 + c / 262144) ≡ ok ([], from_four c)
unfolding first_byte
first_of_four c h k = ground arith

decode-two :
    (c : ℕ) (s : Bytes)
    → 0x80 ≤ c
    → c < 0x800
    → decode_from between ((0xc0 + c / 64) ∷ (0x80 + c % 64) ∷ s) ≡ behind c s
decode-two c s h k =
    decode-skip between (from_two c) (0xc0 + c / 64) _ (first_of_two c h k)
    ∙ decode-emit (from_two c) (0x80 + c % 64) c s
        (last_byte (c / 64) 0x80 0xbf (0x80 + c % 64) (omega arith) (omega arith) c (omega arith))

decode-three :
    (c : ℕ) (s : Bytes)
    → 0x800 ≤ c
    → c < 0x10000
    → (leb 0xd800 c && leb c 0xdfff) ≡ false
    → decode_from between ((0xe0 + c / 4096) ∷ (0x80 + c / 64 % 64) ∷ (0x80 + c % 64) ∷ s)
      ≡ behind c s
decode-three c s h k whole =
    let p = from_three c in
    let q = pending 1 (c / 4096 * 64 + (0x80 + c / 64 % 64 - 0x80)) 0x80 0xbf in
    decode-skip between p (0xe0 + c / 4096) _ (first_of_three c h k)
    ∙ decode-skip p q (0x80 + c / 64 % 64) _
        (middle_byte (c / 4096) p.low p.high (0x80 + c / 64 % 64) (ground arith) (ground arith) 0)
    ∙ decode-emit q (0x80 + c % 64) c s
        (last_byte q.point 0x80 0xbf (0x80 + c % 64) (omega arith) (omega arith) c (omega arith))

decode-four :
    (c : ℕ) (s : Bytes)
    → 0x10000 ≤ c
    → c < 0x110000
    → decode_from between
        ((0xf0 + c / 262144) ∷ (0x80 + c / 4096 % 64) ∷ (0x80 + c / 64 % 64) ∷ (0x80 + c % 64) ∷ s)
      ≡ behind c s
decode-four c s h k =
    let p = from_four c in
    let q = pending 2 (c / 262144 * 64 + (0x80 + c / 4096 % 64 - 0x80)) 0x80 0xbf in
    let r = pending 1 (q.point * 64 + (0x80 + c / 64 % 64 - 0x80)) 0x80 0xbf in
    decode-skip between p (0xf0 + c / 262144) _ (first_of_four c h k)
    ∙ decode-skip p q (0x80 + c / 4096 % 64) _ (
        middle_byte (c / 262144) p.low p.high (0x80 + c / 4096 % 64) (ground arith) (ground arith)
          1)
    ∙ decode-skip q r (0x80 + c / 64 % 64) _
        (middle_byte q.point 0x80 0xbf (0x80 + c / 64 % 64) (omega arith) (omega arith) 0)
    ∙ decode-emit r (0x80 + c % 64) c s
        (last_byte r.point 0x80 0xbf (0x80 + c % 64) (omega arith) (omega arith) c (omega arith))

decode-one : (c : ℕ) (s : Bytes) → c < 0x80 → decode_from between (c ∷ s) ≡ behind c s
unfolding first_byte
decode-one c s h = decode-emit between c c s (ground arith)

decode-same :
    (c : ℕ) (a b s : Bytes)
    → ok a ≡ ok b
    → decode_from between (a ++ s) ≡ behind c s
    → decode_from between (b ++ s) ≡ behind c s
decode-same c a b s e h = let same : a ≡ b = cc in rw⁻¹ same h

decode-point :
    (c : ℕ) (b s : Bytes)
    → c < 0x110000
    → utf8_point c ≡ ok b
    → decode_from between (b ++ s) ≡ behind c s
unfolding utf8_point
decode-point c b s valid e = elim (Bool-cases (ltb c 0x80)) [
  | inl below ↦ decode-same c _ b s (rw below at e) (decode-one c s (ground arith))
  | inr not_one ↦ elim (Bool-cases (ltb c 0x800)) [
    | inl below ↦
        decode-same c _ b s (rw (not_one, below) at e)
          (decode-two c s (ground arith) (ground arith))
    | inr not_two ↦ elim (Bool-cases (leb 0xd800 c && leb c 0xdfff)) [
      | inl surrogate ↦
          let never : err value_error ≡ ok b = rw (not_one, not_two, surrogate) at e in cc
      | inr whole ↦ elim (Bool-cases (ltb c 0x10000)) [
        | inl below ↦
            decode-same c _ b s (rw (not_one, not_two, whole, below) at e)
              (decode-three c s (ground arith) (ground arith) whole)
        | inr not_three ↦
            decode-same c _ b s (rw (not_one, not_two, whole, not_three) at e)
              (decode-four c s (ground arith) valid)
      ]
    ]
  ]
]

encode-parts :
    (r q : Result Bytes) (b : Bytes)
    → (do front ← r; rest ← q; ok (front ++ rest)) ≡ ok b
    → (front : Bytes) × (rest : Bytes) × (r ≡ ok front) × (q ≡ ok rest) × (front ++ rest ≡ b)
encode-parts (ok front) (ok rest) b e = (front, rest, refl, refl, (cc))
encode-parts (ok front) (err x) b e = cc
encode-parts (err x) q b e = cc

pub decode-encode : (s : Str) (b : Bytes) → IsText s → encode s ≡ ok b → decode b ≡ ok s
unfolding decode encode decode_from
decode-encode [] b valid e = let same : [] ≡ b = cc in rw⁻¹ same refl
decode-encode (c ∷ s) b valid e =
    let (front, rest, r, q, same) = encode-parts (utf8_point c) (encode s) b e in
    rw⁻¹ same (rw (decode-point c front rest valid.0 r) (rw (decode-encode s rest valid.1 q) refl))
