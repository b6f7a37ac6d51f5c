-- ===== src/Binary/Wire/Varints.antt =====
-- The varints of proto_codec.rs against those of codec.rs and against the format.
use typeway.Base.{
  ℕ, ◌+◌, ◌*◌, ◌/◌, ◌%◌, ◌^◌, ◌<◌, ◌≤◌, ◌≡◌, refl, sym, ap, ◌∙◌, List, [], ◌∷◌, ◌++◌, ltb, ◌==◌,
  length, All, All-append, if◌then◌else◌, bit_and, dec_le, dec_lt, arith,
}
use typeway.Base.Bits.{agree, agree_sound, bit_or_80}
use typeway.Base.Masks.{bit_and_127}
use typeway.Base.Order.{lt_wf}
use typeway.Codec.Varint.{IsByte, IsU64, Varint, last, more, Varint-IsByte}
use typeway.Codec.Decode as Decode
use typeway.Codec.Decode.{tw_decode_varint}
use typeway.Codec.Decode.Reference.{
  read_groups, tw_decode_varint-read_groups, join_low, join_top, next_weight, fits_u64,
}
use typeway.Codec.Decode.RoundTrip.{tw_decode_varint-Varint}
use typeway.Binary.Wire.{
  varint_too_long, unexpected_eof, unknown_wire_type, value_conversion, Result, ok, err,
  out_of_fuel, shift_lt, varint_loop, encode_varint, join, group_loop, decode_varint,
}
use native.Mathlib.Bridge.{le_prop}
use mathlib.Core.Logic.{dif_pos, dif_neg}
use mathlib.Core.WellFounded.{Acc}

bit_and_80 : (b : ℕ) → b < 256 → bit_and b 0x80 ≡ (if ltb b 128 then 0 else 128)
unfolding agree
bit_and_80 b = agree_sound (λ x. bit_and x 0x80) (λ x. if ltb x 128 then 0 else 128) 256 b refl

-- The error of codec.rs under its name here.
abbrev pub lift {ℓ} : {A : Type ℓ} → Decode.Result A → Result A
lift (Decode.ok a) = ok a
lift (Decode.err Decode.unexpected_eof) = err unexpected_eof
lift (Decode.err Decode.varint_too_long) = err varint_too_long
lift (Decode.err (Decode.unknown_wire_type w)) = err (unknown_wire_type w)
lift (Decode.err _) = err value_conversion
lift Decode.out_of_fuel = out_of_fuel

past_ten :
    (rest : List ℕ) (value acc : ℕ) → group_loop rest 10 value 70 ≡ lift (read_groups rest 10 acc)
unfolding group_loop read_groups
past_ten [] value acc = refl
past_ten (b ∷ rest) value acc = refl

top_bit : (b : ℕ) → b < 256 → (bit_and b 0x80 == 0) ≡ ltb b 128
top_bit b h = let e = bit_and_80 b h in ground arith

group_loop-read_groups :
    (bytes : List ℕ) (k acc : ℕ)
    → All IsByte bytes
    → k ≤ 9
    → acc < 2 ^ (7 * k)
    → group_loop bytes k acc (7 * k) ≡ lift (read_groups bytes k acc)
unfolding group_loop read_groups
group_loop-read_groups [] k acc hb hk ha = refl
group_loop-read_groups (b ∷ rest) k acc (hb, hbs) hk ha = elim (dec_lt k 9) [
  | yes p ↦
      let acc' : ℕ = acc + b % 128 * 2 ^ (7 * k) in
      let wide : acc' < 2 ^ (7 * (k + 1)) = next_weight b k acc ha in
      let narrow : acc' < 2 ^ 63 = fits_u64 (k + 1) acc' (omega arith) wide in
      let same : acc' % 2 ^ 64 ≡ acc' = omega arith in
      let joined : join acc b (7 * k) ≡ acc' = join_low b (7 * k) acc hb (omega arith) ha ∙ same in
      let shift : 7 * k + 7 ≡ 7 * (k + 1) = omega arith in
      let later = group_loop-read_groups rest (k + 1) acc' hbs (omega arith) wide in
      rw (joined, shift, later, top_bit b hb, same) (ground arith)
  | no p ↦
      let e : k ≡ 9 = omega arith in
      let ha' : acc < 2 ^ 63 = rw (ap (λ (n : ℕ). 2 ^ (7 * n)) e) at ha in
      rw e (
        rw
          (
            join_top b acc hb ha',
            past_ten rest ((acc + b % 128 * 2 ^ 63) % 2 ^ 64) (acc + b % 128 * 2 ^ 63),
            top_bit b hb,
          )
          (ground arith))
]

-- The two varint decoders of the repository agree on every input: the same value, the same count of
-- bytes, the same error.
pub decode_varint-tw_decode_varint :
    (bytes : List ℕ) → All IsByte bytes → decode_varint bytes ≡ lift (tw_decode_varint bytes)
unfolding decode_varint
decode_varint-tw_decode_varint bytes h =
    group_loop-read_groups bytes 0 0 h (omega arith) (omega arith)
    ∙ ap lift (sym (tw_decode_varint-read_groups bytes h))

pub decode_varint-Varint :
    (v : ℕ) (bs rest : List ℕ)
    → Varint v bs
    → IsU64 v
    → All IsByte rest
    → decode_varint (bs ++ rest) ≡ ok (v, length bs)
decode_varint-Varint v bs rest enc h hr =
    decode_varint-tw_decode_varint (bs ++ rest) (All-append IsByte bs rest (Varint-IsByte enc) hr)
    ∙ ap lift (tw_decode_varint-Varint v bs rest enc h hr)

varint_loop-Varint : {v : ℕ} {bs : List ℕ} → Varint v bs → (w : Acc ◌<◌ v) → varint_loop v w ≡ bs
unfolding varint_loop
varint_loop-Varint (last v h) (Acc.intro _ smaller) =
    rw (dif_neg (dec_le 1 (v / 128)) (omega arith))
      (rw (bit_and_127 v) (ap (λ (x : ℕ). x ∷ []) (omega arith)))
varint_loop-Varint (more v bs h enc) (Acc.intro _ smaller) =
    let big : 1 ≤ v / 128 = omega arith in
    rw (dif_pos (dec_le 1 (v / 128)) le_prop big) (
      rw
        (
          bit_and_127 v,
          bit_or_80 (v % 128) (omega arith),
          varint_loop-Varint enc (smaller (v / 128) (shift_lt v big)),
        )
        refl)

-- `encode_varint` appends the encoding that the protobuf format defines.
pub encode_varint-Varint : (v : ℕ) (bs : List ℕ) → Varint v bs → encode_varint v ≡ bs
unfolding encode_varint
encode_varint-Varint v bs enc = varint_loop-Varint enc (lt_wf.apply v)
