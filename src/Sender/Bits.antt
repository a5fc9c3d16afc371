-- ===== src/Sender/Bits.antt =====
-- The bits of the property flags: laws of `bit_and` with a power of two, at every number.
use mock_amqp_server.Prelude.{ℕ, zero, suc, ◌+◌, ◌*◌, ◌/◌, ◌%◌, ◌<◌, ◌≤◌, ◌≡◌, refl, arith}
use Prim.Native.Nat.{bit_and, min, digits, bit_and-bitwise}

-- The recursion by which `bit_and` is defined does not depend on its fuel.
abbrev common_bits : ℕ → ℕ → ℕ → ℕ
common_bits fuel x y = digits (λ rest. zero) min fuel x y

common_bits_enough :
    (fuel more x y : ℕ) → x ≤ fuel → x ≤ more → common_bits fuel x y ≡ common_bits more x y
common_bits_enough zero zero x y h k = refl
common_bits_enough zero (suc more) zero y h k = refl
common_bits_enough zero (suc more) (suc x) y h k = absurd (omega arith)
common_bits_enough (suc fuel) zero zero y h k = refl
common_bits_enough (suc fuel) zero (suc x) y h k = absurd (omega arith)
common_bits_enough (suc fuel) (suc more) zero y h k = refl
common_bits_enough (suc fuel) (suc more) (suc x) y h k =
    omega (arith, common_bits_enough fuel more (suc x / 2) (y / 2) (omega arith) (omega arith))

bit_and_halves : (x y : ℕ) → bit_and x y ≡ min (x % 2) (y % 2) + 2 * bit_and (x / 2) (y / 2)
bit_and_halves zero y = omega (arith, bit_and-bitwise 0 y, bit_and-bitwise 0 (y / 2))
bit_and_halves (suc x) y = omega (
  arith,
  bit_and-bitwise (suc x) y,
  bit_and-bitwise (suc x / 2) (y / 2),
  common_bits_enough x (suc x / 2) (suc x / 2) (y / 2) (omega arith) (omega arith),
)

-- `x` in front of `k` bits
abbrev pub shifted : ℕ → ℕ → ℕ
shifted zero x = x
shifted (suc k) x = 2 * shifted k x

bit_and-none : (fuel x : ℕ) → x ≤ fuel → bit_and x 0 ≡ 0
bit_and-none zero zero h = refl
bit_and-none zero (suc x) h = absurd (omega arith)
bit_and-none (suc fuel) zero h = refl
bit_and-none (suc fuel) (suc x) h =
    omega (arith, bit_and_halves (suc x) 0, bit_and-none fuel (suc x / 2) (omega arith))

bit_and_halved :
    (x y u v : ℕ) → x / 2 ≡ u → y / 2 ≡ v → bit_and x y ≡ min (x % 2) (y % 2) + 2 * bit_and u v
bit_and_halved x y u v p q = rw⁻¹ p (rw⁻¹ q (bit_and_halves x y))

bit_and-double : (a rest b : ℕ) → bit_and (2 * a + rest) (2 * b) ≡ 2 * bit_and (a + rest / 2) b
bit_and-double a rest b =
    omega
      (arith, bit_and_halved (2 * a + rest) (2 * b) (a + rest / 2) b (omega arith) (omega arith))

-- The bit k of a number is the lowest bit of what stands above its k lowest bits.
pub bit_and-shifted :
    (k x rest : ℕ)
    → rest < shifted k 1
    → bit_and (shifted k x + rest) (shifted k 1) ≡ shifted k (x % 2)
bit_and-shifted zero x rest h = omega (
  arith,
  bit_and_halves (x + rest) 1,
  bit_and-none ((x + rest) / 2) ((x + rest) / 2) (omega arith),
)
bit_and-shifted (suc k) x rest h = omega (
  arith,
  bit_and-double (shifted k x) rest (shifted k 1),
  bit_and-shifted k x (rest / 2) (omega arith),
)

pub shifted_pos : (k : ℕ) → 0 < shifted k 1
shifted_pos zero = omega arith
shifted_pos (suc k) = omega (arith, shifted_pos k)

pub shifted-succ : (k x : ℕ) → shifted k (x + 1) ≡ shifted k x + shifted k 1
shifted-succ zero x = refl
shifted-succ (suc k) x = omega (arith, shifted-succ k x)

pub shifted-double : (k x : ℕ) → shifted (suc k) x ≡ shifted k (2 * x)
shifted-double zero x = refl
shifted-double (suc k) x = omega (arith, shifted-double k x)

pub shifted-zero : (k : ℕ) → shifted k 0 ≡ 0
shifted-zero zero = refl
shifted-zero (suc k) = omega (arith, shifted-zero k)
