-- ===== src/Codec/Decode/Reference.antt =====
-- The decoder with its fast paths against a plain one: a single loop that adds up the groups of seven
-- bits at their weights and reduces the sum modulo 2 ^ 64 at the end.
use typeway.Base.{
  ℕ, ◌+◌, ◌*◌, ◌%◌, ◌^◌, ◌<◌, ◌≤◌, ◌≡◌, refl, sym, ap, ◌∙◌, List, [], ◌∷◌, ltb, leb, All,
  if◌then◌else◌, bit_and, bit_or, arith, dec_lt,
}
use typeway.Base.Bits.{bit_and_7f, bit_or_shifted, pow_seven}
use typeway.Codec.Varint.{IsByte}
use typeway.Codec.Decode.{
  Result, ok, err, unexpected_eof, varint_too_long, join, decode_loop, tw_decode_varint,
}
use native.Mathlib.Nat.{pow-le-pow_right, mul-le-mul_right}

-- `k` bytes have been read, and `acc` is the sum of their groups.
unfoldable pub read_groups : List ℕ → ℕ → ℕ → Result (ℕ × ℕ)
read_groups [] k acc = err unexpected_eof
read_groups (b ∷ rest) k acc =
    let acc' = acc + b % 128 * 2 ^ (7 * k) in
    let later = read_groups rest (k + 1) acc' in
    if leb 10 k then err varint_too_long else if ltb b 128 then ok (acc' % 2 ^ 64, k + 1) else later

weighted_le : (b s : ℕ) → b % 128 * 2 ^ s ≤ 127 * 2 ^ s
weighted_le b s = mul-le-mul_right (2 ^ s) (omega arith)

-- One more group, where the groups so far fill `s` bits, of at most 63.
pub join_low :
    (b s acc : ℕ) → b < 256 → s ≤ 56 → acc < 2 ^ s → join acc b s ≡ (acc + b % 128 * 2 ^ s) % 2 ^ 64
join_low b s acc hb hs ha =
    let small : 2 ^ s ≤ 2 ^ 56 = pow-le-pow_right {n = 2} (omega arith) hs in
    let le : b % 128 * 2 ^ s ≤ 127 * 2 ^ s = weighted_le b s in
    let fits : b % 128 * 2 ^ s % 2 ^ 64 ≡ b % 128 * 2 ^ s = omega arith in
    rw (bit_and_7f b hb, fits, bit_or_shifted s acc (b % 128) ha) (omega arith)

pub join_top :
    (b acc : ℕ) → b < 256 → acc < 2 ^ 63 → join acc b 63 ≡ (acc + b % 128 * 2 ^ 63) % 2 ^ 64
join_top b acc hb ha =
    let fits : b % 128 * 2 ^ 63 % 2 ^ 64 ≡ b % 2 * 2 ^ 63 = omega arith in
    rw (bit_and_7f b hb, fits, bit_or_shifted 63 acc (b % 2) ha) (omega arith)

pub next_weight :
    (b k acc : ℕ) → acc < 2 ^ (7 * k) → acc + b % 128 * 2 ^ (7 * k) < 2 ^ (7 * (k + 1))
next_weight b k acc h =
    let e : 2 ^ (7 * (k + 1)) ≡ 128 * 2 ^ (7 * k) =
      ap (λ t. 2 ^ t) (omega arith) ∙ pow_seven (7 * k) in
    omega (arith, weighted_le b (7 * k))

-- At the eleventh byte both give up, and neither looks at what it has read.
past_ten :
    (rest : List ℕ) (value shift acc : ℕ) → decode_loop rest 8 value shift ≡ read_groups rest 10 acc
unfolding decode_loop read_groups
past_ten [] value shift acc = refl
past_ten (b ∷ rest) value shift acc = refl

pub fits_u64 : (k acc : ℕ) → k ≤ 9 → acc < 2 ^ (7 * k) → acc < 2 ^ 63
fits_u64 k acc hk h =
    omega (arith, pow-le-pow_right {n = 2} (omega arith) {i = 7 * k} {j = 63} (omega arith))

next_index : (i : ℕ) → i + 1 + 2 ≡ i + 2 + 1
next_index i = omega arith

decode_loop-read_groups :
    (bytes : List ℕ) (i acc : ℕ)
    → All IsByte bytes
    → i ≤ 7
    → acc < 2 ^ (7 * (i + 2))
    → decode_loop bytes i acc (7 * (i + 2)) ≡ read_groups bytes (i + 2) acc
unfolding decode_loop read_groups
decode_loop-read_groups [] i acc hb hi ha = refl
decode_loop-read_groups (b ∷ rest) i acc (hb, hbs) hi ha = elim (dec_lt i 7) [
  | yes p ↦
      let acc' : ℕ = acc + b % 128 * 2 ^ (7 * (i + 2)) in
      let joined : join acc b (7 * (i + 2)) ≡ acc' % 2 ^ 64 =
        join_low b (7 * (i + 2)) acc hb (omega arith) ha in
      let wide : acc' < 2 ^ (7 * (i + 2 + 1)) = next_weight b (i + 2) acc ha in
      let narrow : acc' < 2 ^ 63 = fits_u64 (i + 2 + 1) acc' (omega arith) wide in
      let same : acc' % 2 ^ 64 ≡ acc' = omega arith in
      let wide' : acc' < 2 ^ (7 * (i + 1 + 2)) = rw (next_index i) wide in
      let shift : 7 * (i + 2) + 7 ≡ 7 * (i + 1 + 2) = omega arith in
      let index : i + 2 + 1 ≡ i + 1 + 2 = omega arith in
      let last : i + 2 + 1 ≡ i + 3 = omega arith in
      let later : decode_loop rest (i + 1) acc' (7 * (i + 2) + 7)
          ≡ read_groups rest (i + 2 + 1) acc' =
        ap (decode_loop rest (i + 1) acc') shift
        ∙ decode_loop-read_groups rest (i + 1) acc' hbs (omega arith) wide'
        ∙ ap (λ k. read_groups rest k acc') (sym index) in
      rw (joined, same, later, last) refl
  | no p ↦
      let e : i ≡ 7 = omega arith in
      let ha' : acc < 2 ^ 63 = rw (ap (λ (n : ℕ). 2 ^ (7 * (n + 2))) e) at ha in
      rw e (
        rw
          (
            join_top b acc hb ha',
            past_ten rest ((acc + b % 128 * 2 ^ 63) % 2 ^ 64) 70 (acc + b % 128 * 2 ^ 63),
          )
          refl)
]

two_groups :
    (b0 b1 : ℕ)
    → b0 < 256
    → b1 < 256
    → b1 < 128
    → bit_or (bit_and b0 0x7F) (b1 * 2 ^ 7) ≡ b0 % 128 + b1 % 128 * 2 ^ 7
two_groups b0 b1 h0 h1 lt =
    rw (bit_and_7f b0 h0, bit_or_shifted 7 (b0 % 128) b1 (omega arith)) (omega arith)

-- On every input, the decoder with its fast paths for one and two bytes gives what the plain loop
-- gives: the same value, the same count of bytes, the same error.
pub tw_decode_varint-read_groups :
    (bytes : List ℕ) → All IsByte bytes → tw_decode_varint bytes ≡ read_groups bytes 0 0
unfolding tw_decode_varint read_groups
tw_decode_varint-read_groups [] h = refl
tw_decode_varint-read_groups (b0 ∷ []) (h0, _) = ground arith
tw_decode_varint-read_groups (b0 ∷ b1 ∷ rest) (h0, (h1, h)) =
    let two : bit_or (bit_and b0 0x7F) (bit_and b1 0x7F * 2 ^ 7) ≡ b0 % 128 + b1 % 128 * 2 ^ 7 =
      rw (bit_and_7f b0 h0, bit_and_7f b1 h1, bit_or_shifted 7 (b0 % 128) (b1 % 128) (omega arith))
        refl in
    let later =
      decode_loop-read_groups rest 0 (b0 % 128 + b1 % 128 * 2 ^ 7) h (omega arith) (omega arith) in
    ground (arith, two, later, two_groups b0 b1 h0 h1)
