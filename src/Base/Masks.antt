-- ===== src/Base/Masks.antt =====
-- Masks of low ones, and `|` with the low part second.
use Prim.Native.Nat.{
  ℕ, zero, suc, ◌+◌, ◌*◌, ◌/◌, ◌%◌, ◌^◌, ◌≤◌, ◌<◌, min, bit_and, bit_or, digits, bit_and-bitwise,
}
use mathlib.Core.Path.{◌≡◌, refl, sym, ◌∙◌}
use native.Mathlib.Omega.{arith}
use typeway.Base.Bits.{bit_or_step, bit_or-zero, zero-bit_or, bit_or_shifted}

abbrev and_rounds : ℕ → ℕ → ℕ → ℕ
and_rounds n x y = digits (λ d. 0) min n x y

-- More rounds than digits change nothing.
and_rounds_enough : (x y n m : ℕ) → x ≤ n → x ≤ m → and_rounds n x y ≡ and_rounds m x y
and_rounds_enough zero y zero zero hn hm = refl
and_rounds_enough zero y zero (suc m) hn hm = refl
and_rounds_enough zero y (suc n) zero hn hm = refl
and_rounds_enough zero y (suc n) (suc m) hn hm = refl
and_rounds_enough (suc x) y zero m hn hm = absurd (omega arith)
and_rounds_enough (suc x) y (suc n) zero hn hm = absurd (omega arith)
and_rounds_enough (suc x) y (suc n) (suc m) hn hm =
    omega (arith, and_rounds_enough (suc x / 2) (y / 2) n m (omega arith) (omega arith))

no_digits : (y : ℕ) → bit_and 0 y ≡ 0
no_digits y = bit_and-bitwise 0 y

bit_and_halves : (x y : ℕ) → bit_and x y ≡ bit_and (x / 2) (y / 2) * 2 + min (x % 2) (y % 2)
bit_and_halves zero y = omega (arith, no_digits y, no_digits (y / 2))
bit_and_halves (suc x) y =
    let here = bit_and-bitwise (suc x) y in
    let later = bit_and-bitwise (suc x / 2) (y / 2) in
    omega (
      arith,
      here,
      later,
      and_rounds_enough (suc x / 2) (y / 2) x (suc x / 2) (omega arith) (omega arith),
    )

bit_and_nothing : (n x : ℕ) → x ≤ n → bit_and x 0 ≡ 0
bit_and_nothing n zero h = refl
bit_and_nothing zero (suc x) h = absurd (omega arith)
bit_and_nothing (suc n) (suc x) h =
    omega (arith, bit_and_halves (suc x) 0, bit_and_nothing n (suc x / 2) (omega arith))

-- Masks of 0, 2, 4 and 6 ones.
pub bit_and_0 : (x : ℕ) → bit_and x 0 ≡ 0
bit_and_0 x = bit_and_nothing x x (omega arith)

pub bit_and_3 : (x : ℕ) → bit_and x 3 ≡ x % 4
bit_and_3 x = omega (arith, bit_and_halves x 3, bit_and_halves (x / 2) 1, bit_and_0 (x / 2 / 2))

pub bit_and_15 : (x : ℕ) → bit_and x 15 ≡ x % 16
bit_and_15 x = omega (arith, bit_and_halves x 15, bit_and_halves (x / 2) 7, bit_and_3 (x / 2 / 2))

pub bit_and_63 : (x : ℕ) → bit_and x 63 ≡ x % 64
bit_and_63 x = omega (arith, bit_and_halves x 63, bit_and_halves (x / 2) 31, bit_and_15 (x / 2 / 2))

pub bit_and_127 : (x : ℕ) → bit_and x 127 ≡ x % 128
bit_and_127 x = omega (arith, bit_and_halves x 127, bit_and_63 (x / 2))

pub bit_and_7 : (x : ℕ) → bit_and x 7 ≡ x % 8
bit_and_7 x = omega (arith, bit_and_halves x 7, bit_and_3 (x / 2))

bit_or_comm_below : (n x y : ℕ) → x ≤ n → y ≤ n → bit_or x y ≡ bit_or y x
bit_or_comm_below n zero zero hx hy = refl
bit_or_comm_below n zero (suc y) hx hy = zero-bit_or (suc y) ∙ sym (bit_or-zero (suc y))
bit_or_comm_below n (suc x) zero hx hy = bit_or-zero (suc x) ∙ sym (zero-bit_or (suc x))
bit_or_comm_below zero (suc x) (suc y) hx hy = absurd (omega arith)
bit_or_comm_below (suc n) (suc x) (suc y) hx hy = omega (
  arith,
  bit_or_step (suc x) (suc y),
  bit_or_step (suc y) (suc x),
  bit_or_comm_below n (suc x / 2) (suc y / 2) (omega arith) (omega arith),
)

pub bit_or_comm : (x y : ℕ) → bit_or x y ≡ bit_or y x
bit_or_comm x y = bit_or_comm_below (x + y) x y (omega arith) (omega arith)

-- `(x << s) | y` with room for `y`.
pub bit_or_low : (s x y : ℕ) → y < 2 ^ s → bit_or (x * 2 ^ s) y ≡ x * 2 ^ s + y
bit_or_low s x y h = bit_or_comm (x * 2 ^ s) y ∙ bit_or_shifted s y x h ∙ omega arith
