-- ===== src/Python/Results.antt =====
-- Functions that may raise and change no object.
use mock_amqp_server.Python.Actions.{Result, ok, err}

infixl 10 ◌>>=◌
abbrev pub ◌>>=◌ {ℓ κ} : {A : Type ℓ} {B : Type κ} → Result A → (A → Result B) → Result B
ok a >>= f = f a
err e >>= f = err e
