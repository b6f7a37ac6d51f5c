-- ===== src/Binary/Wire.antt =====
-- Varints and raw wire values of proto_codec.rs. What a function appends to `buf` is its result.
pub mod Ensures
pub mod Extend
pub mod Varints
use typeway.Base.{
  ℕ, zero, suc, ◌+◌, ◌*◌, ◌/◌, ◌%◌, ◌^◌, ◌<◌, ◌≤◌, List, [], ◌∷◌, ◌++◌, ltb, leb, ◌==◌, length,
  take, drop, if◌then◌else◌, bit_and, bit_or, bit_xor, dite, dec_le, arith,
}
use typeway.Base.Order.{lt_wf}
use typeway.Codec.Zigzag.{sign_fill, negate}
use mathlib.Core.WellFounded.{Acc}

-- The errors, without their texts.
pub data CodecError : Type 0 where
  varint_too_long unexpected_eof : CodecError
  unknown_wire_type : ℕ → CodecError
  value_conversion encoding_failed : CodecError

-- `out_of_fuel` is no value of the program: a loop of the model ran out of its rounds.
pub data Result {ℓ} (A : Type ℓ) : Type ℓ where
  ok : A → Result A
  err : CodecError → Result A
  panics out_of_fuel : Result A

infixl 5 ◌>>=◌
abbrev pub ◌>>=◌ {ℓ κ} : {A : Type ℓ} {B : Type κ} → Result A → (A → Result B) → Result B
ok a >>= f = f a
err e >>= f = err e
panics >>= f = panics
out_of_fuel >>= f = out_of_fuel

pub shift_lt : (v : ℕ) → 1 ≤ v / 128 → v / 128 < v
shift_lt v h = omega arith

-- The loop of `encode_varint`; `value & 0x7F` is a byte already.
unfoldable pub varint_loop : (value : ℕ) → Acc ◌<◌ value → List ℕ
varint_loop value (Acc.intro _ smaller) =
    dite (dec_le 1 (value / 2 ^ 7))
      (λ h.
        bit_or (bit_and value 0x7F) 0x80
        ∷ varint_loop (value / 2 ^ 7) (smaller (value / 2 ^ 7) (shift_lt value h)))
      (λ _. bit_and value 0x7F ∷ [])

unfoldable pub encode_varint : ℕ → List ℕ
unfolding varint_loop lt_wf dec_le
encode_varint value = varint_loop value (lt_wf.apply value)

-- `result | ((byte & 0x7F) as u64) << shift`
abbrev pub join : ℕ → ℕ → ℕ → ℕ
join result byte shift = bit_or result (bit_and byte 0x7F * 2 ^ shift % 2 ^ 64)

-- The loop of `decode_varint`, over the bytes from index `i` on.
unfoldable pub group_loop : List ℕ → ℕ → ℕ → ℕ → Result (ℕ × ℕ)
group_loop [] i result shift = err unexpected_eof
group_loop (byte ∷ rest) i result shift =
    let result' = join result byte shift in
    let later = group_loop rest (i + 1) result' (shift + 7) in
    if leb 70 shift
    then err varint_too_long
    else if bit_and byte 0x80 == 0
    then ok (result', i + 1)
    else later

unfoldable pub decode_varint : List ℕ → Result (ℕ × ℕ)
unfolding group_loop
decode_varint bytes = group_loop bytes 0 0 0

unfoldable pub zigzag_decode : ℕ → ℕ
unfolding negate
zigzag_decode v = bit_xor (v / 2) (negate (v % 2))

unfoldable pub zigzag_encode : ℕ → ℕ
unfolding sign_fill
zigzag_encode v = bit_xor (v * 2 % 2 ^ 64) (sign_fill v)

pub data WireValue : Type 0 where
  varint : ℕ → WireValue
  fixed64 length_delimited fixed32 : List ℕ → WireValue

-- The first `n` bytes.
abbrev pub fixed : (List ℕ → WireValue) → ℕ → List ℕ → Result (WireValue × ℕ)
fixed value n bytes =
    if ltb (length bytes) n then err unexpected_eof else ok (value (take n bytes), n)

-- A length of `len` behind a header of `hdr` bytes. The sum wraps where overflow is not checked, and
-- then the slice begins behind its end; where it is checked, the sum itself panics.
abbrev pub delimited : List ℕ → ℕ → ℕ → Result (WireValue × ℕ)
delimited bytes len hdr =
    let total = (hdr + len) % 2 ^ 64 in
    if ltb (length bytes) total
    then err unexpected_eof
    else if ltb total hdr
    then panics
    else ok (length_delimited (take len (drop hdr bytes)), total)

unfoldable pub decode_wire_value : List ℕ → ℕ → Result (WireValue × ℕ)
unfolding decode_varint
decode_wire_value bytes wire_type =
    if wire_type == 0
    then (decode_varint bytes >>= λ r. ok (varint r.0, r.1))
    else if wire_type == 1
    then fixed fixed64 8 bytes
    else if wire_type == 2
    then (decode_varint bytes >>= λ r. delimited bytes r.0 r.1)
    else if wire_type == 5
    then fixed fixed32 4 bytes
    else err (unknown_wire_type wire_type)
