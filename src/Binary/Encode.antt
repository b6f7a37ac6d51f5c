-- ===== src/Binary/Encode.antt =====
-- JSON to protobuf, of proto_codec.rs. What a function appends to `buf` is its result.
use Prim.Native.String.{String}
use text.Mathlib.Text.{◌==◌ as ◌=ₛ◌}
use typeway.Base.{
  ℕ, ◌+◌, ◌-◌, ◌*◌, ◌/◌, ◌%◌, ◌^◌, Bool, true, false, not, ◌&&◌, ◌||◌, List, [], ◌∷◌, ◌++◌, Option,
  none, some, ltb, ◌==◌, length, if◌then◌else◌, bit_or,
}
use typeway.Binary.Base64 as Base64
use typeway.Binary.Fields.{
  ProtoFieldDef, field_def, NestedFields, absent, present, FieldDefs, nil, cons, is_one_of,
  wire_type_for,
}
use typeway.Binary.Json.{Json}
use typeway.Binary.Wire.{
  CodecError, encoding_failed, Result, ok, err, ◌>>=◌, encode_varint, zigzag_encode,
}

abbrev pub ok_or {ℓ} : {A : Type ℓ} → Option A → CodecError → Result A
ok_or none e = err e
ok_or (some a) e = ok a

abbrev pub or_else {ℓ} : {A : Type ℓ} → Option A → Option A → Option A
or_else (some a) o = some a
or_else none o = o

abbrev pub unwrap_or {ℓ} : {A : Type ℓ} → Option A → A → A
unwrap_or (some a) d = a
unwrap_or none d = d

abbrev pub map_option {ℓ κ} : {A : Type ℓ} {B : Type κ} → (A → B) → Option A → Option B
map_option f none = none
map_option f (some a) = some (f a)

-- `x as i32`, as the 64 bits of the i64 that it widens to
abbrev pub as_i32 : ℕ → ℕ
as_i32 x = let low = x % 2 ^ 32 in if ltb low (2 ^ 31) then low else low + (2 ^ 64 - 2 ^ 32)

-- `to_le_bytes`
abbrev pub le_bytes_4 : ℕ → List ℕ
le_bytes_4 n = n % 256 ∷ n / 2 ^ 8 % 256 ∷ n / 2 ^ 16 % 256 ∷ n / 2 ^ 24 % 256 ∷ []

abbrev pub le_bytes_8 : ℕ → List ℕ
le_bytes_8 n = le_bytes_4 n ++ le_bytes_4 (n / 2 ^ 32)

-- The length of the bytes, and the bytes.
abbrev pub with_length : List ℕ → List ℕ
with_length bytes = encode_varint (length bytes) ++ bytes

abbrev integer_types : List String
integer_types =
    "int32" ∷ "int64" ∷ "uint32" ∷ "uint64" ∷ "sint32" ∷ "sint64" ∷ "fixed32" ∷ "fixed64"
    ∷ "sfixed32" ∷ "sfixed64" ∷ "enum" ∷ []

module _ (J : Json) where
  abbrev is_zero : Option ℕ → Bool
  is_zero none = false
  is_zero (some n) = n == 0

  abbrev is_zero_f64 : Option ℕ → Bool
  is_zero_f64 none = false
  is_zero_f64 (some n) = J.f64_is_zero n

  abbrev is_empty_str : Option (List ℕ) → Bool
  is_empty_str (some []) = true
  is_empty_str _ = false

  unfoldable pub is_proto3_default : J.Value → String → Bool
  is_proto3_default value proto_type =
      if is_one_of integer_types proto_type
      then is_zero (J.as_i64 value) || is_zero (J.as_u64 value) || is_zero_f64 (J.as_f64 value)
      else if is_one_of ("float" ∷ "double" ∷ []) proto_type
      then is_zero_f64 (J.as_f64 value)
      else if proto_type =ₛ "bool"
      then (elim (J.as_bool value) [ some b ↦ not b | none ↦ false ])
      else if is_one_of ("string" ∷ "bytes" ∷ []) proto_type
      then is_empty_str (J.as_str value)
      else false

  unfoldable pub json_as_u64 : J.Value → Result ℕ
  json_as_u64 value =
      ok_or
        (or_else (J.as_u64 value)
          (or_else (J.as_i64 value) (map_option J.f64_as_u64 (J.as_f64 value))))
        encoding_failed

  unfoldable pub json_as_i64 : J.Value → Result ℕ
  json_as_i64 value =
      ok_or
        (or_else (J.as_i64 value)
          (or_else (J.as_u64 value) (map_option J.f64_as_i64 (J.as_f64 value))))
        encoding_failed

  unfoldable pub json_to_varint : J.Value → String → Result ℕ
  unfolding json_as_u64 json_as_i64 zigzag_encode
  json_to_varint value proto_type =
      if proto_type =ₛ "bool"
      then ok (if unwrap_or (J.as_bool value) false then 1 else 0)
      else if proto_type =ₛ "sint32"
      then (json_as_i64 value >>= λ n. ok (zigzag_encode (as_i32 n)))
      else if proto_type =ₛ "sint64"
      then (json_as_i64 value >>= λ n. ok (zigzag_encode n))
      else if is_one_of ("int32" ∷ "int64" ∷ []) proto_type
      then json_as_i64 value
      else json_as_u64 value

  -- The bytes behind the tag, for each wire type. `message` writes a nested message.
  abbrev pub fixed64_bytes : String → J.Value → Result (List ℕ)
  fixed64_bytes proto_type value =
      if proto_type =ₛ "double"
      then (ok_or (J.as_f64 value) encoding_failed >>= λ n. ok (le_bytes_8 n))
      else if proto_type =ₛ "fixed64"
      then (json_as_u64 value >>= λ n. ok (le_bytes_8 n))
      else if proto_type =ₛ "sfixed64"
      then (json_as_i64 value >>= λ n. ok (le_bytes_8 n))
      else err encoding_failed

  abbrev pub delimited_bytes : (J.Value → Result (List ℕ)) → String → J.Value → Result (List ℕ)
  delimited_bytes message proto_type value =
      if proto_type =ₛ "string"
      then (ok_or (J.as_str value) encoding_failed >>= λ s. ok (with_length s))
      else if proto_type =ₛ "bytes"
      then (ok_or (J.as_str value) encoding_failed >>= λ s.
          ok (with_length (unwrap_or (Base64.decode s) s)))
      else (message value >>= λ bytes. ok (with_length bytes))

  abbrev pub fixed32_bytes : String → J.Value → Result (List ℕ)
  fixed32_bytes proto_type value =
      if proto_type =ₛ "float"
      then (ok_or (J.as_f64 value) encoding_failed >>= λ n. ok (le_bytes_4 (J.f64_as_f32 n)))
      else if proto_type =ₛ "fixed32"
      then (json_as_u64 value >>= λ n. ok (le_bytes_4 n))
      else if proto_type =ₛ "sfixed32"
      then (json_as_i64 value >>= λ n. ok (le_bytes_4 n))
      else err encoding_failed

  unfoldable pub value_bytes : (J.Value → Result (List ℕ)) → String → J.Value → Result (List ℕ)
  unfolding json_to_varint json_as_u64 json_as_i64 wire_type_for encode_varint Base64.decode
  value_bytes message proto_type value =
      let wt = wire_type_for proto_type in
      if wt == 0
      then (json_to_varint value proto_type >>= λ v. ok (encode_varint v))
      else if wt == 1
      then fixed64_bytes proto_type value
      else if wt == 2
      then delimited_bytes message proto_type value
      else if wt == 5
      then fixed32_bytes proto_type value
      else err encoding_failed

  -- `encode_field`, with the tag in front.
  unfoldable pub encode_value : (J.Value → Result (List ℕ)) → String → ℕ → J.Value → Result (List ℕ)
  unfolding value_bytes wire_type_for encode_varint
  encode_value message proto_type tag value = value_bytes message proto_type value >>= λ bytes.
      ok (encode_varint (bit_or (tag * 2 ^ 3) (wire_type_for proto_type)) ++ bytes)

  -- A message without definitions is written as JSON.
  abbrev pub json_bytes : J.Value → Result (List ℕ)
  json_bytes value = ok_or (J.to_vec value) encoding_failed

  -- The bytes of some values, one after the other.
  unfoldable pub encode_all : {A : Type 0} → (A → Result (List ℕ)) → List A → Result (List ℕ)
  encode_all f [] = ok []
  encode_all f (x ∷ xs) = f x >>= λ bytes. encode_all f xs >>= λ more. ok (bytes ++ more)

  -- One entry of a map field, as a message with the key as field 1 and the value as field 2.
  unfoldable pub encode_entry :
      Option String → Option String → ℕ → String × J.Value → Result (List ℕ)
  unfolding encode_value encode_varint
  encode_entry key_type value_type tag e =
      encode_value json_bytes (unwrap_or key_type "string") 1 (J.of_key e.0) >>= λ key.
      encode_value json_bytes (unwrap_or value_type "string") 2 e.1 >>= λ value.
      ok (encode_varint (bit_or (tag * 2 ^ 3) 2) ++ with_length (key ++ value))

  -- One field of an object, with the value that the object has for it.
  abbrev pub encode_member :
      String
      → ℕ
      → Bool
      → Bool
      → Option String
      → Option String
      → (J.Value → Result (List ℕ))
      → J.Value
      → Result (List ℕ)
  encode_member proto_type tag repeated is_map key_type value_type message value =
      if J.is_null value
      then ok []
      else if (not repeated && not is_map) && is_proto3_default value proto_type
      then ok []
      else if is_map
      then (elim (J.as_object value) [
        | some m ↦ encode_all (encode_entry key_type value_type tag) (J.entries m)
        | none ↦ ok []
      ])
      else if repeated
      then (elim (J.as_array value) [
        | some items ↦ encode_all (encode_value message proto_type tag) items
        | none ↦ ok []
      ])
      else encode_value message proto_type tag value

  unfoldable mutual
    unfolding encode_value encode_all encode_entry is_proto3_default

    pub encode_fields : FieldDefs → J.Map → Result (List ℕ)
    encode_fields nil m = ok []
    encode_fields (cons f fields) m =
        encode_member_of f m >>= λ bytes. encode_fields fields m >>= λ more. ok (bytes ++ more)

    pub encode_member_of : ProtoFieldDef → J.Map → Result (List ℕ)
    encode_member_of (field_def name proto_type tag repeated is_map key_type value_type nested) m =
        elim (J.get m name) [
          | none ↦ ok []
          | some value ↦
              encode_member proto_type tag repeated is_map key_type value_type
                (encode_nested nested) value
        ]

    pub encode_nested : NestedFields → J.Value → Result (List ℕ)
    encode_nested absent value = json_bytes value
    encode_nested (present fields) value = elim (J.as_object value) [
      | some m ↦ encode_fields fields m
      | none ↦ ok []
    ]

  unfoldable pub json_to_proto_binary : J.Value → FieldDefs → Result (List ℕ)
  unfolding encode_fields
  json_to_proto_binary json fields = elim (J.as_object json) [
    | some m ↦ encode_fields fields m
    | none ↦ ok []
  ]
