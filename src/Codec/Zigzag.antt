-- ===== src/Codec/Zigzag.antt =====
-- ZigZag coding of codec.rs. An i64 is its 64-bit pattern: `value << 1` drops the top bit, and the
-- arithmetic shift `value >> 63` fills the word with the sign. `value & 1` is `value % 2`.
pub mod Signed
use typeway.Base.{ℕ, ◌+◌, ◌-◌, ◌*◌, ◌/◌, ◌%◌, ◌^◌, ltb, if◌then◌else◌, bit_xor}

abbrev pub ones : ℕ
ones = 2 ^ 64 - 1

-- `value >> 63` on an i64
unfoldable pub sign_fill : ℕ → ℕ
sign_fill value = if ltb value (2 ^ 63) then 0 else ones

-- `-x` on an i64, for the pattern `x`
unfoldable pub negate : ℕ → ℕ
negate x = (2 ^ 64 - x) % 2 ^ 64

unfoldable pub tw_zigzag_encode : ℕ → ℕ
unfolding sign_fill
tw_zigzag_encode value = bit_xor (value * 2 % 2 ^ 64) (sign_fill value)

unfoldable pub tw_zigzag_decode : ℕ → ℕ
unfolding negate
tw_zigzag_decode value = bit_xor (value / 2) (negate (value % 2))
