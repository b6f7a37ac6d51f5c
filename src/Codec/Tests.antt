-- ===== src/Codec/Tests.antt =====
-- Runs of the codec on concrete inputs, those of the unit tests in codec.rs among them, and the
-- theorems at concrete inputs.
use typeway.Base.{ℕ, ◌-◌, ◌^◌, ◌≡◌, refl, List, [], ◌∷◌, some, arith}
use typeway.Codec.Buffer.{Buf}
use typeway.Codec.Varint.{Varint, last, more, Varints, done, step}
use typeway.Codec.Encode.{tw_encode_varint, tw_encode_tag, tw_varint_len, tag_value, ilog2}
use typeway.Codec.Decode.{
  ok, err, unknown_wire_type, tw_decode_varint, tw_decode_packed_varints, tw_skip_wire_value,
}
use typeway.Codec.Decode.Reference.{read_groups, tw_decode_varint-read_groups}
use typeway.Codec.Decode.RoundTrip.{tw_decode_varint-tw_encode_varint}
use typeway.Codec.Decode.Skip.{Field, delimited}
use mathlib.Core.Option

abbrev empty : Buf
empty = record { bytes = []; cap = 0 }

abbrev started : Buf
started = record { bytes = 7 ∷ []; cap = 3 }

three_hundred : Varint 300 (0xAC ∷ 0x02 ∷ [])
three_hundred = more 300 (2 ∷ []) (omega arith) (last 2 (omega arith))

one : Varint 1 (1 ∷ [])
one = last 1 (omega arith)

encode_300 : tw_encode_varint empty 300 ≡ some (record { bytes = 0xAC ∷ 0x02 ∷ []; cap = 10 })
unfolding tw_encode_varint
encode_300 = refl

decode_300 : tw_decode_varint (0xAC ∷ 0x02 ∷ 9 ∷ []) ≡ ok (300, 2)
unfolding tw_decode_varint
decode_300 = refl

varint_len_values :
    (tw_varint_len 0 ≡ 1)
    × (tw_varint_len 127 ≡ 1)
    × (tw_varint_len 128 ≡ 2)
    × (tw_varint_len 16383 ≡ 2)
    × (tw_varint_len 16384 ≡ 3)
unfolding tw_varint_len ilog2
varint_len_values = (refl, refl, refl, refl, refl)

tag_encoding : tw_encode_tag empty 2 2 ≡ some (record { bytes = 0x12 ∷ []; cap = 1 })
unfolding tw_encode_tag
tag_encoding = refl

skip_fixed64 : tw_skip_wire_value (0 ∷ 0 ∷ 0 ∷ 0 ∷ 0 ∷ 0 ∷ 0 ∷ 0 ∷ []) 1 ≡ ok 8
unfolding tw_skip_wire_value
skip_fixed64 = refl

skip_group : tw_skip_wire_value (0 ∷ []) 3 ≡ err (unknown_wire_type 3)
unfolding tw_skip_wire_value
skip_group = refl

packed_two : tw_decode_packed_varints (1 ∷ 0xAC ∷ 0x02 ∷ []) ≡ ok (1 ∷ 300 ∷ [])
unfolding tw_decode_packed_varints
packed_two = refl

tw_decode_varint-tw_encode_varint_example :
    Option.map (λ b. tw_decode_varint b.bytes) (tw_encode_varint empty 300)
    ≡ some (ok (300, tw_varint_len 300))
tw_decode_varint-tw_encode_varint_example = tw_decode_varint-tw_encode_varint 300 0 (omega arith)

tw_decode_varint-read_groups_example :
    tw_decode_varint (0xAC ∷ 0x02 ∷ 9 ∷ []) ≡ read_groups (0xAC ∷ 0x02 ∷ 9 ∷ []) 0 0
tw_decode_varint-read_groups_example =
    tw_decode_varint-read_groups (0xAC ∷ 0x02 ∷ 9 ∷ []) (omega arith)

two_values : Varints (1 ∷ 300 ∷ []) (1 ∷ 0xAC ∷ 0x02 ∷ [])
two_values =
    step 1 (300 ∷ []) (1 ∷ []) (0xAC ∷ 0x02 ∷ []) (1 ∷ 0xAC ∷ 0x02 ∷ []) one
      (step 300 [] (0xAC ∷ 0x02 ∷ []) [] (0xAC ∷ 0x02 ∷ []) three_hundred done refl) refl

tag_18 : Varint (tag_value 2 2) (0x12 ∷ [])
unfolding tag_value
tag_18 = last 18 (omega arith)

hello : Field 2 (5 ∷ 104 ∷ 101 ∷ 108 ∷ 108 ∷ 111 ∷ [])
hello =
    delimited 2 (5 ∷ []) (104 ∷ 101 ∷ 108 ∷ 108 ∷ 111 ∷ []) (5 ∷ 104 ∷ 101 ∷ 108 ∷ 108 ∷ 111 ∷ [])
      refl (last 5 (omega arith)) refl (omega arith)

abbrev max_bytes : List ℕ
max_bytes = 0xFF ∷ 0xFF ∷ 0xFF ∷ 0xFF ∷ 0xFF ∷ 0xFF ∷ 0xFF ∷ 0xFF ∷ 0xFF ∷ 1 ∷ []

max_Varint : Varint (2 ^ 64 - 1) max_bytes
max_Varint =
    more 18446744073709551615 (0xFF ∷ 0xFF ∷ 0xFF ∷ 0xFF ∷ 0xFF ∷ 0xFF ∷ 0xFF ∷ 0xFF ∷ 1 ∷ [])
      (omega arith)
      (more 144115188075855871 (0xFF ∷ 0xFF ∷ 0xFF ∷ 0xFF ∷ 0xFF ∷ 0xFF ∷ 0xFF ∷ 1 ∷ [])
        (omega arith)
        (more 1125899906842623 (0xFF ∷ 0xFF ∷ 0xFF ∷ 0xFF ∷ 0xFF ∷ 0xFF ∷ 1 ∷ []) (omega arith) (
          more 8796093022207 (0xFF ∷ 0xFF ∷ 0xFF ∷ 0xFF ∷ 0xFF ∷ 1 ∷ []) (omega arith) (
            more 68719476735 (0xFF ∷ 0xFF ∷ 0xFF ∷ 0xFF ∷ 1 ∷ []) (omega arith) (
              more 536870911 (0xFF ∷ 0xFF ∷ 0xFF ∷ 1 ∷ []) (omega arith) (
                more 4194303 (0xFF ∷ 0xFF ∷ 1 ∷ []) (omega arith) (
                  more 32767 (0xFF ∷ 1 ∷ []) (omega arith)
                    (more 255 (1 ∷ []) (omega arith) (last 1 (omega arith))))))))))
