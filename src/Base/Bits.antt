-- ===== src/Base/Bits.antt =====
-- What the bit operations of the program are in plain arithmetic: masks on one byte by tables, and
-- `|` of two numbers with no common digit by the recursion on the digits.
use Prim.Native.Nat.{
  ℕ, zero, suc, ◌+◌, ◌-◌, ◌*◌, ◌/◌, ◌%◌, ◌^◌, ◌≤◌, ◌<◌, max, bit_and, bit_or, digits,
  bit_or-bitwise, bit_xor, bit_xor-bitwise, differ,
}
use mathlib.Core.Path.{◌≡◌, refl, sym, ap, ap₂, ◌∙◌}
use mathlib.Core.Bool.{Bool, true, ◌&&◌}
use native.Mathlib.Omega.{arith}
use native.Mathlib.Nat.{pow-suc, one-le-pow}
use native.Mathlib.Numerals.{towards_suc}
use typeway.Base.Tests.{◌==◌}

-- Checks an equation of two functions at each number below a bound.
unfoldable pub agree : (f g : ℕ → ℕ) → ℕ → Bool
agree f g zero = true
agree f g (suc n) = f n == g n && agree f g n

pub agree_sound : (f g : ℕ → ℕ) (n x : ℕ) → agree f g n ≡ true → x < n → f x ≡ g x
unfolding agree
agree_sound f g zero x e h = absurd (omega arith)
agree_sound f g (suc n) x e h = ground (arith, agree_sound f g n x)

pub bit_and_7f : (b : ℕ) → b < 256 → bit_and b 0x7F ≡ b % 128
unfolding agree
bit_and_7f b = agree_sound (λ x. bit_and x 0x7F) (λ x. x % 128) 256 b refl

pub bit_or_80 : (b : ℕ) → b < 128 → bit_or b 0x80 ≡ b + 128
unfolding agree
bit_or_80 b = agree_sound (λ x. bit_or x 0x80) (λ x. x + 128) 128 b refl

-- `(v as u8 & 0x7F) | 0x80`
pub low_group : (v : ℕ) → bit_or (bit_and (v % 256) 0x7F) 0x80 ≡ v % 128 + 128
low_group v =
    rw (bit_and_7f (v % 256) (omega arith), bit_or_80 (v % 256 % 128) (omega arith)) (omega arith)

abbrev or_digits : ℕ → ℕ → ℕ → ℕ
or_digits n a b = digits (λ d. d) max n a b

or_digits_fuel : (n m a b : ℕ) → a ≤ n → a ≤ m → or_digits n a b ≡ or_digits m a b
or_digits_fuel zero zero a b p q = refl
or_digits_fuel zero (suc m) zero b p q = refl
or_digits_fuel zero (suc m) (suc a) b p q = absurd (omega arith)
or_digits_fuel (suc n) zero zero b p q = refl
or_digits_fuel (suc n) zero (suc a) b p q = absurd (omega arith)
or_digits_fuel (suc n) (suc m) zero b p q = refl
or_digits_fuel (suc n) (suc m) (suc a) b p q =
    omega (arith, or_digits_fuel n m (suc a / 2) (b / 2) (omega arith) (omega arith))

pub zero-bit_or : (b : ℕ) → bit_or 0 b ≡ b
zero-bit_or b = bit_or-bitwise 0 b

pub bit_or_step : (a b : ℕ) → bit_or a b ≡ bit_or (a / 2) (b / 2) * 2 + max (a % 2) (b % 2)
bit_or_step zero b = omega (arith, zero-bit_or b, zero-bit_or (b / 2))
bit_or_step (suc a) b = omega (
  arith,
  bit_or-bitwise (suc a) b,
  bit_or-bitwise (suc a / 2) (b / 2),
  or_digits_fuel a (suc a / 2) (suc a / 2) (b / 2) (omega arith) (omega arith),
)

-- Digits above those of `x` join it by addition.
pub bit_or_shifted : (s x y : ℕ) → x < 2 ^ s → bit_or x (y * 2 ^ s) ≡ x + y * 2 ^ s
bit_or_shifted zero zero y h = zero-bit_or (y * 1) ∙ omega arith
bit_or_shifted zero (suc x) y h = absurd (omega arith)
bit_or_shifted (suc s) x y h = omega (
  arith,
  bit_or_step x (y * 2 ^ suc s),
  pow-suc 2 s,
  ap (λ (t : ℕ). y * t) (pow-suc 2 s),
  halves,
  bit_or_shifted s (x / 2) y (omega (arith, pow-suc 2 s)),
)
  where
    even : y * 2 ^ suc s ≡ 2 * (y * 2 ^ s)
    even = omega (arith, ap (λ (t : ℕ). y * t) (pow-suc 2 s))

    halves : bit_or (x / 2) (y * 2 ^ suc s / 2) ≡ bit_or (x / 2) (y * 2 ^ s)
    halves = ap (bit_or (x / 2)) (omega (arith, even))

bit_or-zero_fuel : (n a : ℕ) → a ≤ n → bit_or a 0 ≡ a
bit_or-zero_fuel n zero h = refl
bit_or-zero_fuel zero (suc a) h = absurd (omega arith)
bit_or-zero_fuel (suc n) (suc a) h =
    omega (arith, bit_or_step (suc a) 0, bit_or-zero_fuel n (suc a / 2) (omega arith))

pub bit_or-zero : (a : ℕ) → bit_or a 0 ≡ a
bit_or-zero a = bit_or-zero_fuel a a (omega arith)

-- Setting the lowest digit makes a number odd.
pub bit_or-one : (a : ℕ) → bit_or a 1 ≡ a / 2 * 2 + 1
bit_or-one a = omega (arith, bit_or_step a 1, bit_or-zero (a / 2))

pub pow_seven : (s : ℕ) → 2 ^ (s + 7) ≡ 128 * 2 ^ s
pow_seven s = simp towards_suc (omega arith)

bit_or_double : (a b : ℕ) → b < 2 → bit_or (a * 2) b ≡ a * 2 + b
bit_or_double a b h = omega (arith, bit_or_step (a * 2) b, halves)
  where
    halves : bit_or (a * 2 / 2) (b / 2) ≡ a
    halves = ap₂ bit_or (omega arith) (omega arith) ∙ bit_or-zero a

bit_or_even : (a b : ℕ) → bit_or (a * 2) b ≡ bit_or a (b / 2) * 2 + b % 2
bit_or_even a b = omega (arith, bit_or_step (a * 2) b, halves)
  where
    halves : bit_or (a * 2 / 2) (b / 2) ≡ bit_or a (b / 2)
    halves = ap (λ x. bit_or x (b / 2)) (omega arith)

-- `a << 3 | b` with three free digits.
pub bit_or_three : (a b : ℕ) → b < 8 → bit_or (a * 2 ^ 3) b ≡ a * 8 + b
bit_or_three a b h =
    let e : a * 2 ^ 3 ≡ a * 2 * 2 * 2 = omega arith in
    rw e (
      omega (
        arith,
        bit_or_even (a * 2 * 2) b,
        bit_or_even (a * 2) (b / 2),
        bit_or_double a (b / 2 / 2),
      ))

abbrev xor_digits : ℕ → ℕ → ℕ → ℕ
xor_digits n a b = digits (λ d. d) differ n a b

xor_digits_fuel : (n m a b : ℕ) → a ≤ n → a ≤ m → xor_digits n a b ≡ xor_digits m a b
xor_digits_fuel zero zero a b p q = refl
xor_digits_fuel zero (suc m) zero b p q = refl
xor_digits_fuel zero (suc m) (suc a) b p q = absurd (omega arith)
xor_digits_fuel (suc n) zero zero b p q = refl
xor_digits_fuel (suc n) zero (suc a) b p q = absurd (omega arith)
xor_digits_fuel (suc n) (suc m) zero b p q = refl
xor_digits_fuel (suc n) (suc m) (suc a) b p q =
    ap (λ t. t * 2 + differ (suc a % 2) (b % 2))
      (xor_digits_fuel n m (suc a / 2) (b / 2) (omega arith) (omega arith))

zero-bit_xor : (b : ℕ) → bit_xor 0 b ≡ b
zero-bit_xor b = bit_xor-bitwise 0 b

bit_xor_step : (a b : ℕ) → bit_xor a b ≡ bit_xor (a / 2) (b / 2) * 2 + differ (a % 2) (b % 2)
bit_xor_step zero b = rw (zero-bit_xor b, zero-bit_xor (b / 2)) (omega arith)
bit_xor_step (suc a) b =
    bit_xor-bitwise (suc a) b
    ∙ ap (λ t. t * 2 + differ (suc a % 2) (b % 2))
        (xor_digits_fuel a (suc a / 2) (suc a / 2) (b / 2) (omega arith) (omega arith)
          ∙ sym (bit_xor-bitwise (suc a / 2) (b / 2)))

differ-one : (d : ℕ) → d < 2 → differ d 1 ≡ 1 - d
differ-one zero h = refl
differ-one (suc zero) h = refl
differ-one (suc (suc d)) h = absurd (omega arith)

differ-zero : (d : ℕ) → differ d 0 ≡ d
differ-zero zero = refl
differ-zero (suc d) = refl

bit_xor-zero_fuel : (n a : ℕ) → a ≤ n → bit_xor a 0 ≡ a
bit_xor-zero_fuel n zero h = zero-bit_xor 0
bit_xor-zero_fuel zero (suc a) h = absurd (omega arith)
bit_xor-zero_fuel (suc n) (suc a) h = omega (
  arith,
  bit_xor_step (suc a) 0,
  bit_xor-zero_fuel n (suc a / 2) (omega arith),
  differ-zero (suc a % 2),
)

pub bit_xor-zero : (a : ℕ) → bit_xor a 0 ≡ a
bit_xor-zero a = bit_xor-zero_fuel a a (omega arith)

-- Exclusive or with `s` ones is the complement to `2 ^ s - 1`.
pub bit_xor-ones : (s a : ℕ) → a < 2 ^ s → bit_xor a (2 ^ s - 1) ≡ 2 ^ s - 1 - a
bit_xor-ones zero zero h = zero-bit_xor 0
bit_xor-ones zero (suc a) h = absurd (omega arith)
bit_xor-ones (suc s) a h =
    let p : 2 ^ suc s ≡ 2 ^ s * 2 = pow-suc 2 s in
    let half : (2 ^ suc s - 1) / 2 ≡ 2 ^ s - 1 = omega (arith, one-le-pow s 2) in
    let odd : (2 ^ suc s - 1) % 2 ≡ 1 = omega (arith, one-le-pow s 2) in
    bit_xor_step a (2 ^ suc s - 1)
    ∙ ap₂ (λ x y. bit_xor (a / 2) x * 2 + differ (a % 2) y) half odd
    ∙ omega (arith, bit_xor-ones s (a / 2) (omega arith), differ-one (a % 2), one-le-pow s 2)

-- A test that holds at each number below a bound.
unfoldable pub every : (ℕ → Bool) → ℕ → Bool
every p zero = true
every p (suc n) = p n && every p n

pub every_sound : (p : ℕ → Bool) (n x : ℕ) → every p n ≡ true → x < n → p x ≡ true
unfolding every
every_sound p zero x e h = absurd (omega arith)
every_sound p (suc n) x e h = ground (arith, every_sound p n x)
