-- ===== src/Python/Decimals.antt =====
-- `str(n)` and `int(s)`. The digits are the ASCII ones: `int` also takes the decimal digits of other
-- scripts, which raise here.
use mock_amqp_server.Prelude.{
  ℕ, zero, suc, ◌+◌, ◌-◌, ◌*◌, ◌/◌, ◌%◌, ◌<◌, ◌≤◌, ◌≡◌, refl, Bool, true, false, ◌&&◌, ◌||◌, [],
  ◌∷◌, All, ltb, leb, nat_eq, if◌then◌else◌, arith, Bool-cases, inl, inr, ◌∙◌,
}
use mock_amqp_server.Python.Actions.{Str, Result, ok, err, value_error}
use mock_amqp_server.Python.Results.{◌>>=◌}
use mock_amqp_server.Python.Texts.{encode, utf8_point}

-- A signed integer; `negsuc n` is -(n + 1).
pub data ℤ : Type 0 where
  pos : ℕ → ℤ
  negsuc : ℕ → ℤ

-- the digits of `n` in front of `s`
unfoldable pub digits_before : ℕ → ℕ → Str → Str
digits_before zero n s = s
digits_before (suc fuel) n s =
    let more = digits_before fuel (n / 10) ((48 + n % 10) ∷ s) in
    if ltb n 10 then (48 + n) ∷ s else more

-- `str(n)`
unfoldable pub str_of : ℕ → Str
unfolding digits_before
str_of n = digits_before (suc n) n []

-- `c.isspace()`
abbrev pub is_space : ℕ → Bool
is_space c =
    (leb 9 c && leb c 13)
    || (leb 28 c && leb c 32)
    || nat_eq c 0x85
    || nat_eq c 0xa0
    || nat_eq c 0x1680
    || (leb 0x2000 c && leb c 0x200a)
    || nat_eq c 0x2028
    || nat_eq c 0x2029
    || nat_eq c 0x202f
    || nat_eq c 0x205f
    || nat_eq c 0x3000

abbrev pub all_space : Str → Bool
all_space [] = true
all_space (c ∷ s) = is_space c && all_space s

abbrev pub is_digit : ℕ → Bool
is_digit c = leb 48 c && leb c 57

-- Digits, with single underscores between them, and space behind them. `after` says that the last
-- character was a digit.
unfoldable pub digits_value : ℕ → Bool → Str → Result ℕ
digits_value n after [] = if after then ok n else err value_error
digits_value n after (c ∷ s) =
    let digit = digits_value (n * 10 + (c - 48)) true s in
    let underscore = digits_value n false s in
    if is_digit c
    then digit
    else if after && nat_eq c 95
    then underscore
    else if after && all_space (c ∷ s)
    then ok n
    else err value_error

abbrev pub negative : ℕ → ℤ
negative zero = pos 0
negative (suc n) = negsuc n

-- behind the leading space
abbrev pub signed_value : Str → Result ℤ
signed_value [] = err value_error
signed_value (c ∷ s) =
    if nat_eq c 45
    then (do n ← digits_value 0 false s; ok (negative n))
    else if nat_eq c 43
    then (do n ← digits_value 0 false s; ok (pos n))
    else (do n ← digits_value 0 false (c ∷ s); ok (pos n))

-- `int(s)`
unfoldable pub int_of : Str → Result ℤ
unfolding digits_value
int_of [] = err value_error
int_of (c ∷ s) = let rest = int_of s in if is_space c then rest else signed_value (c ∷ s)

digits_value-digits :
    (fuel n : ℕ) (after : Bool) (s : Str)
    → n < fuel
    → digits_value 0 after (digits_before fuel n s) ≡ digits_value n true s
unfolding digits_before digits_value
digits_value-digits zero n after s h = absurd (omega arith)
digits_value-digits (suc fuel) n after s h = elim (Bool-cases (ltb n 10)) [
  | inl last ↦ ground arith
  | inr more ↦
      rw more (
        digits_value-digits fuel (n / 10) after ((48 + n % 10) ∷ s) (ground arith) ∙ (ground arith))
]

StartsByDigit : Str → Type 0
StartsByDigit s = (c : ℕ) × (rest : Str) × (48 ≤ c) × (c < 58) × (s ≡ c ∷ rest)

digits_before-StartsByDigit :
    (fuel n : ℕ) (s : Str) → n < fuel → StartsByDigit (digits_before fuel n s)
unfolding digits_before StartsByDigit
digits_before-StartsByDigit zero n s h = absurd (omega arith)
digits_before-StartsByDigit (suc fuel) n s h = elim (Bool-cases (ltb n 10)) [
  | inl last ↦ (48 + n, s, (omega arith), (ground arith), rw last refl)
  | inr more ↦
      rw more (digits_before-StartsByDigit fuel (n / 10) ((48 + n % 10) ∷ s) (ground arith))
]

int_of-digit :
    (c : ℕ) (s : Str)
    → 48 ≤ c
    → c < 58
    → int_of (c ∷ s) ≡ (do n ← digits_value 0 false (c ∷ s); ok (pos n))
unfolding int_of
int_of-digit c s low high = ground arith

int_of-starts : (s : Str) → StartsByDigit s → int_of s ≡ (do n ← digits_value 0 false s; ok (pos n))
unfolding StartsByDigit
int_of-starts s (c, rest, low, high, e) = rw e (int_of-digit c rest low high)

-- A number is read back from its digits.
pub int_of-str_of : (n : ℕ) → int_of (str_of n) ≡ ok (pos n)
unfolding str_of digits_value
int_of-str_of n =
    int_of-starts (str_of n) (digits_before-StartsByDigit (suc n) n [] (omega arith))
    ∙ rw (digits_value-digits (suc n) n false [] (omega arith)) refl

abbrev pub IsAscii : Str → Type 0
IsAscii = All (λ c. c < 0x80)

digits_before-IsAscii :
    (fuel n : ℕ) (s : Str) → n < fuel → IsAscii s → IsAscii (digits_before fuel n s)
unfolding digits_before
digits_before-IsAscii zero n s h a = a
digits_before-IsAscii (suc fuel) n s h a = elim (Bool-cases (ltb n 10)) [
  | inl last ↦ rw last ((ground arith), a)
  | inr more ↦
      rw more
        (digits_before-IsAscii fuel (n / 10) ((48 + n % 10) ∷ s) (ground arith) ((omega arith), a))
]

pub str_of-IsAscii : (n : ℕ) → IsAscii (str_of n)
unfolding str_of
str_of-IsAscii n = digits_before-IsAscii (suc n) n [] (omega arith) tt

utf8_point-ascii : (c : ℕ) → c < 0x80 → utf8_point c ≡ ok (c ∷ [])
unfolding utf8_point
utf8_point-ascii c h = ground arith

-- An ASCII text is its own UTF-8 form.
pub encode-ascii : (s : Str) → IsAscii s → encode s ≡ ok s
unfolding encode
encode-ascii [] a = refl
encode-ascii (c ∷ s) a = rw (utf8_point-ascii c a.0) (rw (encode-ascii s a.1) refl)
