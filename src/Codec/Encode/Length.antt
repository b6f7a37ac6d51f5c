-- ===== src/Codec/Encode/Length.antt =====
-- `tw_varint_len` and `tw_tag_len` give the number of bytes that the encoders write.
use typeway.Base.{
  ℕ, zero, suc, ◌+◌, ◌-◌, ◌*◌, ◌/◌, ◌^◌, ◌<◌, ◌≤◌, ◌≡◌, refl, sym, ap, ◌∙◌, List, length, arith,
  dec_lt,
}
use typeway.Base.Order.{lt_wf}
use typeway.Base.Bits.{agree, agree_sound, bit_or-one, bit_or_three, pow_seven}
use typeway.Codec.Varint.{IsU32, IsU64, Varint, last, more, Varint-exists}
use typeway.Codec.Encode.{ilog2_loop, ilog2, tw_varint_len, tw_tag_len, tag_value}
use native.Mathlib.Bridge.{le_prop}
use native.Mathlib.Nat.{pow-suc, pow-le-pow_right}
use mathlib.Core.Logic.{dif_pos, dif_neg}
use mathlib.Core.WellFounded.{Acc}

ilog2_loop_bounds :
    (n : ℕ) (w : Acc ◌<◌ n) → 1 ≤ n → (2 ^ ilog2_loop n w ≤ n) × (n < 2 ^ suc (ilog2_loop n w))
unfolding ilog2_loop
ilog2_loop_bounds n (Acc.intro _ smaller) h = elim (dec_lt 1 n) [
  | yes p ↦ rw (dif_pos (dec_lt 1 n) le_prop p) (
      let j = ilog2_loop (n / 2) (smaller (n / 2) (omega arith)) in
      let (lo, hi) = ilog2_loop_bounds (n / 2) (smaller (n / 2) (omega arith)) (omega arith) in
      (omega (arith, pow-suc 2 j), omega (arith, pow-suc 2 (suc j), pow-suc 2 j)))
  | no p ↦ rw (dif_neg (dec_lt 1 n) p) (omega arith)
]

-- A number with binary logarithm `j` takes `j / 7 + 1` bytes.
length_of_log :
    {v : ℕ} {bs : List ℕ}
    → Varint v bs
    → (j : ℕ) → 2 ^ j ≤ v
    → v < 2 ^ suc j
    → length bs ≡ j / 7 + 1
length_of_log (last v h) j lo hi = elim (dec_lt j 7) [
  | yes p ↦ omega arith
  | no p ↦
      absurd (omega (arith, pow-le-pow_right {n = 2} (omega arith) {i = 7} {j = j} (omega arith)))
]
length_of_log (more v bs h enc) j lo hi = elim (dec_lt j 7) [
  | yes p ↦
      absurd
        (omega (arith, pow-le-pow_right {n = 2} (omega arith) {i = suc j} {j = 7} (omega arith)))
  | no p ↦
      let k : ℕ = j - 7 in
      let low : 2 ^ j ≡ 128 * 2 ^ k = ap (λ t. 2 ^ t) (omega arith) ∙ pow_seven k in
      let high : 2 ^ suc j ≡ 128 * 2 ^ suc k = ap (λ t. 2 ^ t) (omega arith) ∙ pow_seven (suc k) in
      omega (arith, length_of_log enc k (omega arith) (omega arith))
]

log_formula : (j : ℕ) → j < 64 → (j * 9 + (64 + 9)) / 64 ≡ j / 7 + 1
unfolding agree
log_formula j = agree_sound (λ x. (x * 9 + (64 + 9)) / 64) (λ x. x / 7 + 1) 64 j refl

-- The bounds of `value | 1` are those of a positive `value`.
odd_lower : (v j : ℕ) → 1 ≤ v → 2 ^ j ≤ v / 2 * 2 + 1 → 2 ^ j ≤ v
odd_lower v zero h lo = omega arith
odd_lower v (suc j) h lo = omega (arith, pow-suc 2 j)

ilog2_bounds :
    (v : ℕ)
    → (2 ^ ilog2 (v / 2 * 2 + 1) ≤ v / 2 * 2 + 1)
      × (v / 2 * 2 + 1 < 2 ^ suc (ilog2 (v / 2 * 2 + 1)))
unfolding ilog2
ilog2_bounds v = ilog2_loop_bounds (v / 2 * 2 + 1) (lt_wf.apply (v / 2 * 2 + 1)) (omega arith)

ilog2-one : ilog2 1 ≡ 0
unfolding ilog2
ilog2-one = refl

log_lt_64 : (j v : ℕ) → 2 ^ j ≤ v → IsU64 v → j < 64
log_lt_64 j v lo h = elim (dec_lt j 64) [
  | yes p ↦ p
  | no p ↦
      absurd (omega (arith, pow-le-pow_right {n = 2} (omega arith) {i = 64} {j = j} (omega arith)))
]

length_of_zero : {v : ℕ} {bs : List ℕ} → Varint v bs → v ≡ 0 → length bs ≡ 1
length_of_zero (last v h) e = refl
length_of_zero (more v bs h enc) e = absurd (omega arith)

-- The length formula is the length of the encoding, for every u64.
pub tw_varint_len-Varint :
    (v : ℕ) (bs : List ℕ) → Varint v bs → IsU64 v → tw_varint_len v ≡ length bs
unfolding tw_varint_len
tw_varint_len-Varint v bs enc h = rw (bit_or-one v) (elim (dec_lt 0 v) [
  | yes p ↦
      let (lo, hi) = ilog2_bounds v in
      let low : 2 ^ ilog2 (v / 2 * 2 + 1) ≤ v = odd_lower v (ilog2 (v / 2 * 2 + 1)) p lo in
      log_formula (ilog2 (v / 2 * 2 + 1)) (log_lt_64 (ilog2 (v / 2 * 2 + 1)) v low h)
      ∙ sym (length_of_log enc (ilog2 (v / 2 * 2 + 1)) low (omega arith))
  | no p ↦
      let e : v ≡ 0 = omega arith in
      ap (λ x. (ilog2 (x / 2 * 2 + 1) * 9 + (64 + 9)) / 64) e
      ∙ ap (λ j. (j * 9 + (64 + 9)) / 64) ilog2-one
      ∙ sym (length_of_zero enc e)
])

-- Numbers that agree but for their three lowest digits have encodings of one length.
length_of_eighths :
    {v w : ℕ} {bs cs : List ℕ} → Varint v bs → Varint w cs → v / 8 ≡ w / 8 → length bs ≡ length cs
length_of_eighths (last v h) (last w k) e = refl
length_of_eighths (last v h) (more w cs k enc) e = absurd (omega arith)
length_of_eighths (more v bs h enc) (last w k) e = absurd (omega arith)
length_of_eighths (more v bs h enc) (more w cs k enc') e =
    ap suc (length_of_eighths enc enc' (omega arith))

-- `tw_tag_len` leaves the wire type out, and is the length of the tag for each wire type all the same.
pub tw_tag_len-tag_value :
    (field_number wire_type : ℕ) (bs : List ℕ)
    → IsU32 field_number
    → wire_type < 8
    → Varint (tag_value field_number wire_type) bs
    → tw_tag_len field_number ≡ length bs
unfolding tw_tag_len tag_value
tw_tag_len-tag_value f w bs hf hw enc =
    let (cs, plain) = Varint-exists (f * 2 ^ 3) in
    tw_varint_len-Varint (f * 2 ^ 3) cs plain (omega arith)
    ∙ length_of_eighths plain enc (omega (arith, bit_or_three f w hw))
