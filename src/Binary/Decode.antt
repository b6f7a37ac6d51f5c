-- ===== src/Binary/Decode.antt =====
-- Protobuf to JSON, of proto_codec.rs.
pub mod Total
pub mod Append
pub mod Unknown
use Prim.Native.String.{String}
use text.Mathlib.Text.{◌==◌ as ◌=ₛ◌}
use typeway.Base.{
  ℕ, zero, suc, ◌+◌, ◌*◌, ◌/◌, ◌%◌, ◌^◌, Bool, true, false, not, ◌&&◌, List, [], ◌∷◌, ◌++◌, Option,
  none, some, ltb, ◌==◌, length, take, drop, find, if◌then◌else◌, bit_and,
}
use typeway.Grpc.Message.Utf8.{is_utf8}
use typeway.Binary.Base64 as Base64
use typeway.Binary.Fields.{
  ProtoFieldDef, field_def, NestedFields, absent, present, FieldDefs, nil, cons, is_one_of,
  varint_types, fixed32_types, fixed64_types, is_packable_type,
}
use typeway.Binary.Json.{Json}
use typeway.Binary.Encode.{as_i32, unwrap_or}
use typeway.Binary.Wire.{
  CodecError, unexpected_eof, value_conversion, encoding_failed, Result, ok, err, out_of_fuel,
  ◌>>=◌, decode_varint, zigzag_decode, WireValue, varint, fixed64, length_delimited, fixed32, fixed,
  decode_wire_value,
}

-- `from_le_bytes`
unfoldable pub from_le_bytes : List ℕ → ℕ
from_le_bytes [] = 0
from_le_bytes (b ∷ bytes) = b + 256 * from_le_bytes bytes

module _ (J : Json) where
  -- `nested` reads a nested message, or what stands for one that has no definitions.
  unfoldable pub wire_value_to_json :
      (List ℕ → Result J.Value) → WireValue → String → Result J.Value
  unfolding zigzag_decode from_le_bytes is_utf8 Base64.encode
  wire_value_to_json nested (varint v) proto_type =
      if is_one_of ("uint32" ∷ "uint64" ∷ []) proto_type
      then ok (J.of_u64 v)
      else if proto_type =ₛ "int32"
      then ok (J.of_i64 (as_i32 v))
      else if proto_type =ₛ "int64"
      then ok (J.of_i64 v)
      else if proto_type =ₛ "sint32"
      then ok (J.of_i64 (as_i32 (zigzag_decode v)))
      else if proto_type =ₛ "sint64"
      then ok (J.of_i64 (zigzag_decode v))
      else if proto_type =ₛ "bool"
      then ok (J.of_bool (not (v == 0)))
      else if proto_type =ₛ "enum"
      then ok (J.of_u64 v)
      else err value_conversion
  wire_value_to_json nested (fixed64 bytes) proto_type =
      if proto_type =ₛ "double"
      then ok (J.of_f64 (from_le_bytes bytes))
      else if proto_type =ₛ "fixed64"
      then ok (J.of_u64 (from_le_bytes bytes))
      else if proto_type =ₛ "sfixed64"
      then ok (J.of_i64 (from_le_bytes bytes))
      else err value_conversion
  wire_value_to_json nested (fixed32 bytes) proto_type =
      if proto_type =ₛ "float"
      then ok (J.of_f64 (J.f32_as_f64 (from_le_bytes bytes)))
      else if proto_type =ₛ "fixed32"
      then ok (J.of_u64 (from_le_bytes bytes))
      else if proto_type =ₛ "sfixed32"
      then ok (J.of_i64 (as_i32 (from_le_bytes bytes)))
      else err value_conversion
  wire_value_to_json nested (length_delimited bytes) proto_type =
      if proto_type =ₛ "string"
      then (if is_utf8 bytes then ok (J.of_str bytes) else err value_conversion)
      else if proto_type =ₛ "bytes"
      then ok (J.of_str (Base64.encode bytes))
      else nested bytes

  -- A nested message without definitions: JSON, or else the bytes in base64.
  unfoldable pub json_or_base64 : List ℕ → Result J.Value
  unfolding Base64.encode
  json_or_base64 bytes = ok (unwrap_or (J.from_slice bytes) (J.of_str (Base64.encode bytes)))

  -- The next value of a packed field.
  unfoldable pub unpack_one : String → List ℕ → Result (WireValue × ℕ)
  unfolding decode_varint
  unpack_one proto_type bytes =
      if is_one_of varint_types proto_type
      then (decode_varint bytes >>= λ r. ok (varint r.0, r.1))
      else if is_one_of fixed32_types proto_type
      then fixed fixed32 4 bytes
      else if is_one_of fixed64_types proto_type
      then fixed fixed64 8 bytes
      else err encoding_failed

  -- The loop of `unpack_scalars`, over the bytes from `offset` on.
  unfoldable pub unpack_loop : ℕ → String → List ℕ → List J.Value → Result (List J.Value)
  unfolding unpack_one wire_value_to_json json_or_base64
  unpack_loop fuel proto_type [] results = ok results
  unpack_loop zero proto_type (b ∷ bytes) results = out_of_fuel
  unpack_loop (suc fuel) proto_type (b ∷ bytes) results = unpack_one proto_type (b ∷ bytes) >>= λ r.
      wire_value_to_json json_or_base64 r.0 proto_type >>= λ v.
      unpack_loop fuel proto_type (drop r.1 (b ∷ bytes)) (results ++ v ∷ [])

  unfoldable pub unpack_scalars : List ℕ → String → Result (List J.Value)
  unfolding unpack_loop
  unpack_scalars bytes proto_type = unpack_loop (length bytes) proto_type bytes []

  -- A definition as the loop reads it: with the reading of its nested message.
  pub record FieldReader : Type 0 where
    pub name : String
    pub proto_type : String
    pub tag : ℕ
    pub repeated : Bool
    pub nested : List ℕ → Result J.Value

  -- The object so far, and the values of the repeated fields.
  pub record Partial : Type 0 where
    pub map : J.Map
    pub repeated_fields : List (String × List J.Value)

  -- `entry(name).or_default().extend(values)`
  unfoldable pub extend_entry :
      String → List J.Value → List (String × List J.Value) → List (String × List J.Value)
  extend_entry name values [] = (name, values) ∷ []
  extend_entry name values ((k, vs) ∷ entries) =
      if k =ₛ name then (k, vs ++ values) ∷ entries else (k, vs) ∷ extend_entry name values entries

  abbrev pub is_length_delimited : WireValue → Bool
  is_length_delimited (length_delimited bytes) = true
  is_length_delimited _ = false

  abbrev pub payload : WireValue → List ℕ
  payload (length_delimited bytes) = bytes
  payload _ = []

  -- What a value does to the object; an unknown field does nothing.
  unfoldable pub accept : Option FieldReader → WireValue → Partial → Result Partial
  unfolding unpack_scalars wire_value_to_json extend_entry is_packable_type
  accept none wv p = ok p
  accept (some f) wv p =
      if f.repeated && is_length_delimited wv && is_packable_type f.proto_type
      then (unpack_scalars (payload wv) f.proto_type >>= λ values.
          ok (record p { repeated_fields = extend_entry f.name values p.repeated_fields }))
      else (wire_value_to_json f.nested wv f.proto_type >>= λ value. ok (
          if f.repeated
          then record p { repeated_fields = extend_entry f.name (value ∷ []) p.repeated_fields }
          else record p { map = J.insert f.name value p.map }))

  -- The loop of `proto_binary_to_json`, over the bytes from `offset` on.
  unfoldable pub message_loop : ℕ → List FieldReader → List ℕ → Partial → Result Partial
  unfolding decode_varint decode_wire_value accept
  message_loop fuel readers [] p = ok p
  message_loop zero readers (b ∷ bytes) p = out_of_fuel
  message_loop (suc fuel) readers (b ∷ bytes) p = decode_varint (b ∷ bytes) >>= λ t.
      decode_wire_value (drop t.1 (b ∷ bytes)) (bit_and t.0 0x07) >>= λ w.
      accept (find (λ f. f.tag == t.0 / 2 ^ 3 % 2 ^ 32) readers) w.0 p >>= λ p'.
      message_loop fuel readers (drop w.1 (drop t.1 (b ∷ bytes))) p'

  abbrev pub insert_arrays : List (String × List J.Value) → J.Map → J.Map
  insert_arrays [] m = m
  insert_arrays ((k, vs) ∷ entries) m = insert_arrays entries (J.insert k (J.of_array vs) m)

  abbrev pub start : Partial
  start = record { map = J.new; repeated_fields = [] }

  -- Each round takes a byte at least, so as many rounds as bytes are enough.
  unfoldable pub read_message : List FieldReader → List ℕ → Result J.Value
  unfolding message_loop
  read_message readers bytes = message_loop (length bytes) readers bytes start >>= λ p.
      ok (J.of_object (insert_arrays p.repeated_fields p.map))

  unfoldable mutual
    unfolding read_message json_or_base64

    pub readers_of : FieldDefs → List FieldReader
    readers_of nil = []
    readers_of (cons f fields) = reader_of f ∷ readers_of fields

    pub reader_of : ProtoFieldDef → FieldReader
    reader_of (field_def name proto_type tag repeated is_map key_type value_type nested) = record {
      name = name;
      proto_type = proto_type;
      tag = tag;
      repeated = repeated;
      nested = read_nested nested;
    }

    pub read_nested : NestedFields → List ℕ → Result J.Value
    read_nested absent bytes = json_or_base64 bytes
    read_nested (present fields) bytes = read_message (readers_of fields) bytes

  unfoldable pub proto_binary_to_json : List ℕ → FieldDefs → Result J.Value
  unfolding readers_of read_message
  proto_binary_to_json bytes fields = read_message (readers_of fields) bytes
