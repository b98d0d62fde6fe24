-- ===== src/Base/Xor.antt =====
-- `^` on machine words: it is its own inverse, and keeps the width of a byte. The native operation
-- is a recursion on binary digits with fuel; here it is one equation for the lowest digit.
use Prim.Native.Nat.{
  ◌^◌, ℕ, zero, suc, ◌+◌, ◌*◌, ◌/◌, ◌%◌, ◌≤◌, ◌<◌, bit_xor, digits, differ, bit_xor-bitwise,
}
use native.Mathlib.Nat.{pow-suc}
use mathlib.Core.Path.{◌≡◌, refl, ◌∙◌}
use native.Mathlib.Omega.{arith}

abbrev xor_digits : ℕ → ℕ → ℕ → ℕ
xor_digits n a b = digits (λ b. b) differ n a b

xor_digits_fuel : (n m a b : ℕ) → a ≤ n → a ≤ m → xor_digits n a b ≡ xor_digits m a b
xor_digits_fuel zero zero a b p q = refl
xor_digits_fuel zero (suc m) zero b p q = refl
xor_digits_fuel zero (suc m) (suc a) b p q = absurd (omega arith)
xor_digits_fuel (suc n) zero zero b p q = refl
xor_digits_fuel (suc n) zero (suc a) b p q = absurd (omega arith)
xor_digits_fuel (suc n) (suc m) zero b p q = refl
xor_digits_fuel (suc n) (suc m) (suc a) b p q =
    rw (xor_digits_fuel n m (suc a / 2) (b / 2) (omega arith) (omega arith))

pub zero-bit_xor : (b : ℕ) → bit_xor 0 b ≡ b
zero-bit_xor b = bit_xor-bitwise 0 b

differ_bits : (a b : ℕ) → a < 2 → b < 2 → differ a b ≡ (a + b) % 2
differ_bits zero b p q = omega arith
differ_bits (suc zero) zero p q = omega arith
differ_bits (suc zero) (suc zero) p q = omega arith
differ_bits (suc zero) (suc (suc b)) p q = absurd (omega arith)
differ_bits (suc (suc a)) b p q = absurd (omega arith)

bit_xor_step : (a b : ℕ) → bit_xor a b ≡ bit_xor (a / 2) (b / 2) * 2 + (a % 2 + b % 2) % 2
bit_xor_step zero b = omega (arith, zero-bit_xor b, zero-bit_xor (b / 2))
bit_xor_step (suc a) b = omega (
  arith,
  bit_xor-bitwise (suc a) b,
  bit_xor-bitwise (suc a / 2) (b / 2),
  xor_digits_fuel a (suc a / 2) (suc a / 2) (b / 2) (omega arith) (omega arith),
  differ_bits (suc a % 2) (b % 2) (omega arith) (omega arith),
)

xor_undo_fuel : (n a b : ℕ) → a ≤ n → b ≤ n → bit_xor (bit_xor a b) b ≡ a
xor_undo_fuel zero zero zero p q = refl
xor_undo_fuel zero zero (suc b) p q = absurd (omega arith)
xor_undo_fuel zero (suc a) b p q = absurd (omega arith)
xor_undo_fuel (suc n) a b p q =
    let x = bit_xor a b in
    let half : x / 2 ≡ bit_xor (a / 2) (b / 2) = omega (arith, bit_xor_step a b) in
    let low : x % 2 ≡ (a + b) % 2 = omega (arith, bit_xor_step a b) in
    let rest : bit_xor (x / 2) (b / 2) ≡ a / 2 =
      rw half (xor_undo_fuel n (a / 2) (b / 2) (omega arith) (omega arith)) in
    omega (arith, bit_xor_step x b, rest, low)

pub bit_xor_undo : (a b : ℕ) → bit_xor (bit_xor a b) b ≡ a
bit_xor_undo a b = xor_undo_fuel (a + b) a b (omega arith) (omega arith)

xor_comm_fuel : (n a b : ℕ) → a ≤ n → b ≤ n → bit_xor a b ≡ bit_xor b a
xor_comm_fuel zero zero zero p q = refl
xor_comm_fuel zero zero (suc b) p q = absurd (omega arith)
xor_comm_fuel zero (suc a) b p q = absurd (omega arith)
xor_comm_fuel (suc n) a b p q = omega (
  arith,
  bit_xor_step a b,
  bit_xor_step b a,
  xor_comm_fuel n (a / 2) (b / 2) (omega arith) (omega arith),
)

pub bit_xor_comm : (a b : ℕ) → bit_xor a b ≡ bit_xor b a
bit_xor_comm a b = xor_comm_fuel (a + b) a b (omega arith) (omega arith)

pub bit_xor_undo_left : (a b : ℕ) → bit_xor a (bit_xor a b) ≡ b
bit_xor_undo_left a b = bit_xor_comm a (bit_xor a b) ∙ rw (bit_xor_comm a b) (bit_xor_undo b a)

bit_xor-lt_fuel : (k a b : ℕ) → a < 2 ^ k → b < 2 ^ k → bit_xor a b < 2 ^ k
bit_xor-lt_fuel zero a b p q =
    let za : a ≡ 0 = omega arith in let zb : b ≡ 0 = omega arith in rw (za, zb) (omega arith)
bit_xor-lt_fuel (suc k) a b p q = omega (
  arith,
  pow-suc 2 k,
  bit_xor_step a b,
  bit_xor-lt_fuel k (a / 2) (b / 2) (omega (arith, pow-suc 2 k)) (omega (arith, pow-suc 2 k)),
)

-- The exclusive or of two bytes is a byte.
pub bit_xor-lt : (a b : ℕ) → a < 256 → b < 256 → bit_xor a b < 256
bit_xor-lt a b p q = bit_xor-lt_fuel 8 a b p q
