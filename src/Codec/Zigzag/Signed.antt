-- ===== src/Codec/Zigzag/Signed.antt =====
-- ZigZag coding against the integers that the 64-bit patterns stand for.
use typeway.Base.{
  ℕ, ◌+◌, ◌-◌, ◌*◌, ◌/◌, ◌%◌, ◌^◌, ◌<◌, ◌≤◌, ◌≡◌, ap, ◌∙◌, ltb, lt→ltb, not-ltb, if◌then◌else◌,
  arith, dec_lt,
}
use typeway.Base.Int.{ℤ, pos, negsuc}
use typeway.Base.Bits.{bit_xor-zero, bit_xor-ones}
use typeway.Codec.Varint.{IsU64}
use typeway.Codec.Zigzag.{tw_zigzag_encode, tw_zigzag_decode}

-- The integer of a two's complement pattern.
abbrev pub signed64 : ℕ → ℤ
signed64 w = if ltb w (2 ^ 63) then pos w else negsuc (2 ^ 64 - 1 - w)

-- 0, -1, 1, -2, 2, … are numbered in this order.
abbrev pub zigzag : ℤ → ℕ
zigzag (pos n) = 2 * n
zigzag (negsuc n) = 2 * n + 1

encode_pos : (w : ℕ) → w < 2 ^ 63 → tw_zigzag_encode w ≡ 2 * w
unfolding tw_zigzag_encode
encode_pos w h = rw (lt→ltb w (2 ^ 63) h, bit_xor-zero (w * 2 % 2 ^ 64)) (omega arith)

encode_neg : (w : ℕ) → 2 ^ 63 ≤ w → IsU64 w → tw_zigzag_encode w ≡ 2 * (2 ^ 64 - 1 - w) + 1
unfolding tw_zigzag_encode
encode_neg w h u =
    rw (not-ltb w (2 ^ 63) h, bit_xor-ones 64 (w * 2 % 2 ^ 64) (omega arith)) (omega arith)

-- The encoder numbers the integers of an i64 by growing distance from 0.
pub tw_zigzag_encode-zigzag : (w : ℕ) → IsU64 w → tw_zigzag_encode w ≡ zigzag (signed64 w)
tw_zigzag_encode-zigzag w u = elim (dec_lt w (2 ^ 63)) [
  | yes h ↦ rw (lt→ltb w (2 ^ 63) h) (encode_pos w h)
  | no h ↦ rw (not-ltb w (2 ^ 63) (omega arith)) (encode_neg w (omega arith) u)
]

decode_even : (u n : ℕ) → u ≡ 2 * n → tw_zigzag_decode u ≡ n
unfolding tw_zigzag_decode
decode_even u n e =
    let half : u / 2 ≡ n = omega arith in
    let sign : (2 ^ 64 - u % 2) % 2 ^ 64 ≡ 0 = omega arith in rw (half, sign) (bit_xor-zero n)

decode_odd : (u n : ℕ) → u ≡ 2 * n + 1 → IsU64 u → tw_zigzag_decode u ≡ 2 ^ 64 - 1 - n
unfolding tw_zigzag_decode
decode_odd u n e h =
    let half : u / 2 ≡ n = omega arith in
    let sign : (2 ^ 64 - u % 2) % 2 ^ 64 ≡ 2 ^ 64 - 1 = omega arith in
    rw (half, sign) (bit_xor-ones 64 n (omega arith))

-- Decoding undoes encoding on every i64.
pub tw_zigzag_decode-tw_zigzag_encode :
    (w : ℕ) → IsU64 w → tw_zigzag_decode (tw_zigzag_encode w) ≡ w
tw_zigzag_decode-tw_zigzag_encode w u = elim (dec_lt w (2 ^ 63)) [
  | yes h ↦ decode_even (tw_zigzag_encode w) w (encode_pos w h)
  | no h ↦
      let e : tw_zigzag_encode w ≡ 2 * (2 ^ 64 - 1 - w) + 1 = encode_neg w (omega arith) u in
      decode_odd (tw_zigzag_encode w) (2 ^ 64 - 1 - w) e (omega arith) ∙ omega arith
]

-- Encoding undoes decoding on every u64.
pub tw_zigzag_encode-tw_zigzag_decode :
    (u : ℕ) → IsU64 u → tw_zigzag_encode (tw_zigzag_decode u) ≡ u
tw_zigzag_encode-tw_zigzag_decode u h = elim (dec_lt (u % 2) 1) [
  | yes p ↦
      ap tw_zigzag_encode (decode_even u (u / 2) (omega arith))
      ∙ encode_pos (u / 2) (omega arith)
      ∙ omega arith
  | no p ↦
      ap tw_zigzag_encode (decode_odd u (u / 2) (omega arith) h)
      ∙ encode_neg (2 ^ 64 - 1 - u / 2) (omega arith) (omega arith)
      ∙ omega arith
]
