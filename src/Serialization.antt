-- ===== src/Serialization.antt =====
-- service/serialization.py is a copy of py-amqp's module of that name. It is a parameter here: the
-- Python values, the field types of a format, and the two functions that the sources call.
use mock_amqp_server.Prelude.{ℕ, Bool, List, [], ◌∷◌}
use mock_amqp_server.Python.{Str, Bytes, Result}
pub use mock_amqp_server.Python.Decimals.{ℤ, pos, negsuc}

-- The values of a property, a table or a JSON text. A float is its bit pattern, a datetime its
-- seconds since the epoch.
mutual
  pub data Value : Type 0 where
    null : Value
    bool : Bool → Value
    int : ℤ → Value
    float : ℕ → Value
    str : Str → Value
    bytes : Bytes → Value
    decimal : ℤ → ℕ → Value
    datetime : ℕ → Value
    arr : Items → Value
    obj : Fields → Value

  pub data Items : Type 0 where
    nil : Items
    cons : Value → Items → Items

  pub data Fields : Type 0 where
    end : Fields
    field : Str → Value → Fields → Fields

-- The letters of a format: b o B l L s S F.
pub data Format : Type 0 where
  bit octet short long long_long short_str long_str table : Format

abbrev pub Field : Format → Type 0
Field bit = Bool
Field octet = ℕ
Field short = ℕ
Field long = ℕ
Field long_long = ℕ
Field short_str = Str
Field long_str = Str
Field table = Fields

-- What `loads` returns for a format: a value for each letter.
abbrev pub Decoded : List Format → Type 0
Decoded [] = Unit
Decoded (f ∷ fs) = Field f × Decoded fs

abbrev pub to_value : (f : Format) → Field f → Value
to_value bit b = bool b
to_value octet n = int (pos n)
to_value short n = int (pos n)
to_value long n = int (pos n)
to_value long_long n = int (pos n)
to_value short_str s = str s
to_value long_str s = str s
to_value table d = obj d

abbrev pub to_values : (format : List Format) → Decoded format → List Value
to_values [] d = []
to_values (f ∷ fs) (x, d) = to_value f x ∷ to_values fs d

-- `loads(format, buf, offset)` and `dumps(format, values)`.
pub record Codec : Type 0 where
  pub loads : (format : List Format) → Bytes → ℕ → Result (Decoded format × ℕ)
  pub dumps : List Format → List Value → Result Bytes
