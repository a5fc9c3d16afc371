-- ===== src/Python/Actions.antt =====
-- Texts, exceptions, and methods that mutate an object and may raise. What was written before a
-- raise stays written, so the state comes back beside the error too.
use Prim.Native.Char.{code}
use Prim.Native.String.{String}
use mock_amqp_server.Prelude.{ℕ, List, [], ◌∷◌}

-- A `str` is the list of its code points, a `bytes` the list of its bytes.
abbrev pub Str : Type 0
Str = List ℕ

abbrev pub Bytes : Type 0
Bytes = List ℕ

abbrev pub text : String → Str
text String.[] = []
text (String.◌∷◌ c s) = code c ∷ text s

-- The exceptions that reach the event loop. `unicode_error` is UnicodeDecodeError, `protocol_error`
-- what h11 raises. `out_of_fuel` is none of Python's: a loop of the model used up its rounds.
pub data Error : Type 0 where
  struct_error key_error value_error type_error attribute_error : Error
  index_error name_error unicode_error protocol_error : Error
  invalid_frame_error frame_syntax_error wait_timeout out_of_fuel : Error

pub data Result {ℓ} (A : Type ℓ) : Type ℓ where
  ok : A → Result A
  err : Error → Result A

abbrev pub Exec {ℓ} : Type ℓ → Type ℓ → Type ℓ
Exec S A = S → Result A × S

module _ {ℓ} {S A : Type ℓ} where
  abbrev pub pure : A → Exec S A
  pure a s = (ok a, s)

  abbrev pub raise : Error → Exec S A
  raise e s = (err e, s)

  abbrev pub lift : Result A → Exec S A
  lift r s = (r, s)

  abbrev pub gets : (S → A) → Exec S A
  gets f s = (ok (f s), s)

module _ {ℓ} {S : Type ℓ} where
  abbrev pub modify : (S → S) → Exec S (Unit {ℓ})
  modify f s = (ok tt, f s)

module _ {ℓ} {S A B : Type ℓ} where
  abbrev pub continue : Result A → (A → Exec S B) → Exec S B
  continue (ok a) f s = f a s
  continue (err e) f s = (err e, s)

  infixl 10 ◌>>=◌ ◌>>◌
  abbrev pub ◌>>=◌ : Exec S A → (A → Exec S B) → Exec S B
  ◌>>=◌ m f s = continue (m s).0 f (m s).1

  abbrev pub ◌>>◌ : Exec S A → Exec S B → Exec S B
  m >> n = m >>= λ _. n
