-- ===== src/Codec/Decode.antt =====
-- The decoders of codec.rs. A slice is the list of its bytes. The loops read the list that the
-- source's iterator or offset has not passed yet.
pub mod Reference
pub mod RoundTrip
pub mod Packed
pub mod Skip
use Prim.Native.String.{String}
use typeway.Base.{
  ℕ, zero, suc, ◌+◌, ◌*◌, ◌%◌, ◌^◌, List, [], ◌∷◌, ◌++◌, ltb, leb, length, drop, if◌then◌else◌,
  bit_and, bit_or, ◌==◌,
}

-- `TypewayDecodeError`; the last three are for the generated code.
pub data Error : Type 0 where
  unexpected_eof varint_too_long : Error
  unknown_wire_type : ℕ → Error
  invalid_field_value : (field message : String) → Error
  missing_field : String → Error
  invalid_utf8 : String → Error

-- `out_of_fuel` is no value of the program: a loop of the model ran out of its rounds.
pub data Result {ℓ} (A : Type ℓ) : Type ℓ where
  ok : A → Result A
  err : Error → Result A
  out_of_fuel : Result A

infixl 5 ◌>>=◌
abbrev pub ◌>>=◌ {ℓ κ} : {A : Type ℓ} {B : Type κ} → Result A → (A → Result B) → Result B
ok a >>= f = f a
err e >>= f = err e
out_of_fuel >>= f = out_of_fuel

-- `value | (byte & 0x7F) as u64 << shift`. The shift is at most 63, so it drops high bits only.
abbrev pub join : ℕ → ℕ → ℕ → ℕ
join value byte shift = bit_or value (bit_and byte 0x7F * 2 ^ shift % 2 ^ 64)

-- `for (i, &byte) in bytes[2..].iter().enumerate()`
unfoldable pub decode_loop : List ℕ → ℕ → ℕ → ℕ → Result (ℕ × ℕ)
decode_loop [] i value shift = err unexpected_eof
decode_loop (byte ∷ rest) i value shift =
    let value' = join value byte shift in
    let later = decode_loop rest (i + 1) value' (shift + 7) in
    if leb 10 (i + 2)
    then err varint_too_long
    else if ltb byte 0x80
    then ok (value', i + 3)
    else later

unfoldable pub tw_decode_varint : List ℕ → Result (ℕ × ℕ)
unfolding decode_loop
tw_decode_varint [] = err unexpected_eof
tw_decode_varint (b0 ∷ []) = if ltb b0 0x80 then ok (b0, 1) else err unexpected_eof
tw_decode_varint (b0 ∷ b1 ∷ rest) =
    if ltb b0 0x80
    then ok (b0, 1)
    else if ltb b1 0x80
    then ok (bit_or (bit_and b0 0x7F) (b1 * 2 ^ 7), 2)
    else decode_loop rest 0 (bit_or (bit_and b0 0x7F) (bit_and b1 0x7F * 2 ^ 7)) 14

-- The general case of `tw_decode_packed_varints`: `next` is what the loop does after it.
abbrev pub delegate : List ℕ → (ℕ → ℕ → Result (List ℕ)) → Result (List ℕ)
delegate bytes next = tw_decode_varint bytes >>= λ r. next r.0 r.1

-- The loop of `tw_decode_packed_varints`, over the bytes from `offset` on.
unfoldable pub unpack_loop : ℕ → List ℕ → List ℕ → Result (List ℕ)
unfolding tw_decode_varint
unpack_loop fuel [] result = ok result
unpack_loop zero (b ∷ rest) result = out_of_fuel
unpack_loop (suc fuel) (b ∷ []) result =
    let single = unpack_loop fuel [] (result ++ b ∷ []) in
    let general =
      delegate (b ∷ [])
        λ val consumed. unpack_loop fuel (drop consumed (b ∷ [])) (result ++ val ∷ []) in
    if ltb b 0x80 then single else general
unpack_loop (suc fuel) (b ∷ b1 ∷ rest) result =
    let single = unpack_loop fuel (b1 ∷ rest) (result ++ b ∷ []) in
    let double = unpack_loop fuel rest (result ++ bit_or (bit_and b 0x7F) (b1 * 2 ^ 7) ∷ []) in
    let general =
      delegate (b ∷ b1 ∷ rest)
        λ val consumed. unpack_loop fuel (drop consumed (b ∷ b1 ∷ rest)) (result ++ val ∷ []) in
    if ltb b 0x80 then single else if ltb b1 0x80 then double else general

-- Each round takes a byte at least, so as many rounds as bytes are enough.
unfoldable pub tw_decode_packed_varints : List ℕ → Result (List ℕ)
unfolding unpack_loop
tw_decode_packed_varints packed = unpack_loop (length packed) packed []

-- `bytes.len() < n` is an error, and `n` bytes are consumed otherwise.
abbrev pub take_fixed : List ℕ → ℕ → Result ℕ
take_fixed bytes n = if ltb (length bytes) n then err unexpected_eof else ok n

-- `hdr + len as usize` wraps at 64 bits, as it does where overflow checks are off.
unfoldable pub tw_skip_wire_value : List ℕ → ℕ → Result ℕ
unfolding tw_decode_varint
tw_skip_wire_value bytes wire_type =
    if wire_type == 0
    then (tw_decode_varint bytes >>= λ r. ok r.1)
    else if wire_type == 1
    then take_fixed bytes 8
    else if wire_type == 2
    then (tw_decode_varint bytes >>= λ r. take_fixed bytes ((r.1 + r.0) % 2 ^ 64))
    else if wire_type == 5
    then take_fixed bytes 4
    else err (unknown_wire_type wire_type)
