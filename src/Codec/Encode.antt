-- ===== src/Codec/Encode.antt =====
-- The encoders of codec.rs. A loop over `v` recurs on the proof that `v` is accessible; `v >>= 7` is
-- a division by 128, and `v as u8` is `v % 256`.
pub mod Writes
pub mod Fixed
pub mod Length
use typeway.Base.{
  ℕ, zero, suc, ◌+◌, ◌*◌, ◌/◌, ◌%◌, ◌^◌, ◌<◌, ◌≤◌, List, [], ◌∷◌, Option, none, some, ltb, length,
  if◌then◌else◌, bit_and, bit_or, dite, dec_lt, dec_le, arith,
}
use typeway.Base.Order.{lt_wf}
use typeway.Base.Options.{◌>>=◌}
use typeway.Codec.Buffer.{Buf, reserve, push, poke}
use mathlib.Core.WellFounded.{Acc}

-- `(v as u8 & 0x7F) | 0x80`
abbrev pub group_byte : ℕ → ℕ
group_byte v = bit_or (bit_and (v % 256) 0x7F) 0x80

pub shift_lt : (v : ℕ) → 128 ≤ v → v / 128 < v
shift_lt v h = omega arith

-- `arr[i] = x` on an array; an index out of bounds panics: `none`.
unfoldable pub store : List ℕ → ℕ → ℕ → Option (List ℕ)
store [] i x = none
store (y ∷ arr) zero x = some (x ∷ arr)
store (y ∷ arr) (suc i) x = store arr i x >>= λ arr'. some (y ∷ arr')

-- The loop of `tw_encode_varint_array`.
unfoldable pub array_loop : (v : ℕ) → Acc ◌<◌ v → List ℕ → ℕ → Option (List ℕ × ℕ)
array_loop v (Acc.intro _ smaller) arr i =
    dite (dec_le 128 v)
      (λ h. store arr i (group_byte v) >>= λ arr'.
        array_loop (v / 128) (smaller (v / 128) (shift_lt v h)) arr' (i + 1))
      (λ _. store arr i (v % 256) >>= λ arr'. some (arr', i + 1))

unfoldable pub tw_encode_varint_array : ℕ → Option (List ℕ × ℕ)
unfolding array_loop store lt_wf dec_le
tw_encode_varint_array value =
    array_loop value (lt_wf.apply value) (0 ∷ 0 ∷ 0 ∷ 0 ∷ 0 ∷ 0 ∷ 0 ∷ 0 ∷ 0 ∷ 0 ∷ []) 0

-- The loop of raw writes that `tw_encode_varint`, `tw_encode_packed_u32` and
-- `tw_encode_varint_unchecked` share.
unfoldable pub write_loop : (v : ℕ) → Acc ◌<◌ v → Buf → Option Buf
write_loop v (Acc.intro _ smaller) buf =
    dite (dec_le 128 v)
      (λ h. poke (group_byte v) buf >>= write_loop (v / 128) (smaller (v / 128) (shift_lt v h)))
      (λ _. poke (v % 256) buf)

unfoldable pub tw_encode_varint_unchecked : Buf → ℕ → Option Buf
unfolding write_loop lt_wf dec_le poke
tw_encode_varint_unchecked buf value = write_loop value (lt_wf.apply value) buf

unfoldable pub tw_encode_varint : Buf → ℕ → Option Buf
unfolding write_loop lt_wf dec_le poke push reserve
tw_encode_varint buf value =
    if ltb value 0x80
    then some (push (value % 256) buf)
    else write_loop value (lt_wf.apply value) (reserve 10 buf)

unfoldable pub packed_loop : List ℕ → Buf → Option Buf
unfolding write_loop lt_wf dec_le poke
packed_loop [] buf = some buf
packed_loop (v ∷ values) buf = write_loop v (lt_wf.apply v) buf >>= packed_loop values

unfoldable pub tw_encode_packed_u32 : Buf → List ℕ → Option Buf
unfolding packed_loop reserve
tw_encode_packed_u32 buf values = packed_loop values (reserve (length values * 5) buf)

-- `u64::ilog2`, the floor of the binary logarithm of a positive number.
unfoldable pub ilog2_loop : (n : ℕ) → Acc ◌<◌ n → ℕ
ilog2_loop n (Acc.intro _ smaller) =
    dite (dec_lt 1 n) (λ h. suc (ilog2_loop (n / 2) (smaller (n / 2) (omega arith)))) (λ _. 0)

unfoldable pub ilog2 : ℕ → ℕ
unfolding ilog2_loop lt_wf dec_lt
ilog2 n = ilog2_loop n (lt_wf.apply n)

unfoldable pub tw_varint_len : ℕ → ℕ
tw_varint_len value = (ilog2 (bit_or value 1) * 9 + (64 + 9)) / 64

-- `((field_number as u64) << 3) | (wire_type as u64)`
unfoldable pub tag_value : ℕ → ℕ → ℕ
tag_value field_number wire_type = bit_or (field_number * 2 ^ 3) wire_type

unfoldable pub tw_encode_tag : Buf → ℕ → ℕ → Option Buf
unfolding tw_encode_varint tag_value
tw_encode_tag buf field_number wire_type = tw_encode_varint buf (tag_value field_number wire_type)

unfoldable pub tw_tag_len : ℕ → ℕ
tw_tag_len field_number = tw_varint_len (field_number * 2 ^ 3)
