-- ===== src/Binary/Tests.antt =====
-- The theorems on proto_codec.rs at concrete inputs, and runs of its functions.
pub mod Values
use Prim.Native.String.{String}
use Values.{Value, boolean, number, str, object, empty, member, array, item, end, sample}
use typeway.Base.{
  ℕ, ◌+◌, ◌-◌, ◌%◌, ◌^◌, ◌≤◌, ◌≡◌, ◌≢◌, refl, inl, inr, Bool, true, false, List, [], ◌∷◌, ◌++◌,
  Option, none, some, length, arith,
}
use typeway.Codec.Varint.{Varint, last, more}
use typeway.Codec.Decode.{tw_decode_varint, tw_skip_wire_value}
use typeway.Codec.Decode.Skip.{Field}
use typeway.Binary.Base64 as Base64
use typeway.Binary.Base64.RoundTrip as Base64RoundTrip
use typeway.Binary.Fields.{
  ProtoFieldDef, field_def, NestedFields, absent, present, FieldDefs, nil, cons,
}
use typeway.Binary.Wire.{
  Result, ok, err, panics, out_of_fuel, ◌>>=◌, encode_varint, decode_varint, decode_wire_value,
}
use typeway.Binary.Wire.Varints.{lift, decode_varint-tw_decode_varint, encode_varint-Varint}
use typeway.Binary.Encode.{json_to_proto_binary}
use typeway.Binary.Decode.{message_loop, start, readers_of, proto_binary_to_json}
use typeway.Binary.Decode.Total.{proto_binary_to_json-total}
use typeway.Binary.Decode.Append.{read_from, read_from-append}
use typeway.Binary.Decode.Unknown.{
  decode_wire_value-tw_skip_wire_value, decode_wire_value_overflow, proto_binary_to_json_unknown,
}
use typeway.Binary.Scalars.{Fits}
use typeway.Binary.RoundTrip.{proto_binary_to_json-json_to_proto_binary}
use typeway.Binary.RoundTrip.Objects.{Unnamed, Distinct, Describes, Keeps}
use typeway.Grpc.Message.Utf8.{is_utf8}

-- A user: `uint32 id = 1; string name = 2; sint64 balance = 3`.
abbrev user_fields : FieldDefs
user_fields = cons (field_def "id" "uint32" 1 false false none none absent) (
    cons (field_def "name" "string" 2 false false none none absent)
      (cons (field_def "balance" "sint64" 3 false false none none absent) nil))

abbrev user : sample.Map
user =
    member "id" (number 300 false)
      (member "name" (str (Base64.codes "ada")) (member "balance" (number (2 ^ 64 - 2) true) empty))

abbrev user_bytes : List ℕ
user_bytes = 8 ∷ 172 ∷ 2 ∷ 18 ∷ 3 ∷ 97 ∷ 100 ∷ 97 ∷ 24 ∷ 3 ∷ []

encoded_user : json_to_proto_binary sample (object user) user_fields ≡ ok user_bytes
unfolding json_to_proto_binary
encoded_user = refl

decoded_user :
    proto_binary_to_json sample user_bytes user_fields
    ≡ ok (
        object (
          member "balance"
            (number (2 ^ 64 - 2) true)
            (member "name" (str (Base64.codes "ada")) (member "id" (number 300 false) empty))))
unfolding proto_binary_to_json
decoded_user = refl

user-Distinct : Distinct user_fields
user-Distinct = (
  (refl, (refl, tt)),
  (λ e. omega arith, (λ e. omega arith, tt)),
  ((refl, tt), (λ e. omega arith, tt), (tt, tt, tt)),
)

user-Describes : Describes sample user_fields user
user-Describes = (
  refl,
  refl,
  omega arith,
  inr (Fits.uint32 300 (omega arith)),
  (
    refl,
    refl,
    omega arith,
    inr (Fits.text (Base64.codes "ada") (omega arith) (unfold is_utf8 in refl) (omega arith)),
    (refl, refl, omega arith, inr (Fits.sint64 (2 ^ 64 - 2) (omega arith)), tt),
  ),
)

proto_binary_to_json-json_to_proto_binary_example :
    (bytes : List ℕ) × (m' : sample.Map) × (json_to_proto_binary sample (object user) user_fields
      ≡ ok bytes)
    × (proto_binary_to_json sample bytes user_fields ≡ ok (object m'))
    × Keeps sample user_fields user m'
    × ((name : String) → Unnamed name user_fields → sample.get m' name ≡ none)
proto_binary_to_json-json_to_proto_binary_example =
    proto_binary_to_json-json_to_proto_binary sample user_fields user user-Distinct user-Describes

proto_binary_to_json-total_example :
    proto_binary_to_json sample (8 ∷ 172 ∷ []) user_fields ≢ out_of_fuel
proto_binary_to_json-total_example = proto_binary_to_json-total sample (8 ∷ 172 ∷ []) user_fields

read_id :
    proto_binary_to_json sample (8 ∷ 5 ∷ []) user_fields
    ≡ ok (object (member "id" (number 5 false) empty))
unfolding proto_binary_to_json
read_id = refl

-- A field with the number 4 and two bytes, between two fields of the user.
proto_binary_to_json_unknown_example :
    proto_binary_to_json sample
      ((8 ∷ 5 ∷ []) ++ ((34 ∷ []) ++ ((2 ∷ 7 ∷ 7 ∷ []) ++ (24 ∷ 3 ∷ []))))
      user_fields
    ≡ proto_binary_to_json sample ((8 ∷ 5 ∷ []) ++ (24 ∷ 3 ∷ [])) user_fields
proto_binary_to_json_unknown_example =
    proto_binary_to_json_unknown sample user_fields 34 (34 ∷ []) (2 ∷ 7 ∷ 7 ∷ []) (24 ∷ 3 ∷ [])
      (last 34 (omega arith)) (omega arith)
      (Field.delimited 2 (2 ∷ []) (7 ∷ 7 ∷ []) (2 ∷ 7 ∷ 7 ∷ []) refl (last 2 (omega arith)) refl
        (omega arith))
      (omega arith) (omega arith) (λ e. omega arith, (λ e. omega arith, (λ e. omega arith, tt)))
      (8 ∷ 5 ∷ []) (object (member "id" (number 5 false) empty)) (omega arith) read_id

no_panic : decode_wire_value (2 ∷ 7 ∷ 7 ∷ 1 ∷ []) 2 ≢ panics
unfolding decode_wire_value
no_panic e = cc

-- The largest length.
abbrev huge_bytes : List ℕ
huge_bytes = 255 ∷ 255 ∷ 255 ∷ 255 ∷ 255 ∷ 255 ∷ 255 ∷ 255 ∷ 255 ∷ 1 ∷ []

huge-Varint : Varint (2 ^ 64 - 1) huge_bytes
huge-Varint = more (2 ^ 64 - 1) _ (omega arith) (
    more (2 ^ 57 - 1) _ (omega arith) (
      more (2 ^ 50 - 1) _ (omega arith) (
        more (2 ^ 43 - 1) _ (omega arith) (
          more (2 ^ 36 - 1) _ (omega arith) (
            more (2 ^ 29 - 1) _ (omega arith) (
              more (2 ^ 22 - 1) _ (omega arith) (
                more (2 ^ 15 - 1) _ (omega arith)
                  (more (2 ^ 8 - 1) _ (omega arith) (last 1 (omega arith))))))))))

decode_wire_value_overflow_example : decode_wire_value (huge_bytes ++ 5 ∷ []) 2 ≡ panics
decode_wire_value_overflow_example =
    decode_wire_value_overflow huge_bytes (5 ∷ []) (2 ^ 64 - 1) huge-Varint (omega arith)
      (omega arith) (omega arith)

-- A packed field of three numbers, and one that is not packed.
abbrev scores_fields : FieldDefs
scores_fields = cons (field_def "scores" "uint32" 1 true false none none absent) nil

unpacked_scores :
    proto_binary_to_json sample (10 ∷ 3 ∷ 1 ∷ 2 ∷ 3 ∷ 8 ∷ 4 ∷ []) scores_fields
    ≡ ok (
        object (
          member "scores"
            (array (
              item
                (number 1 false)
                (item (number 2 false) (item (number 3 false) (item (number 4 false) end)))))
            empty))
unfolding proto_binary_to_json
unpacked_scores = refl

-- A map from names to numbers is written as entries, and an entry is not read back as one: the field
-- holds the bytes of its last entry.
abbrev ages_fields : FieldDefs
ages_fields =
    cons (field_def "ages" "message" 1 false true (some "string") (some "uint32") absent) nil

abbrev ages : sample.Map
ages = member "ages" (object (member "bob" (number 7 false) empty)) empty

written_map :
    json_to_proto_binary sample (object ages) ages_fields
    ≡ ok (10 ∷ 7 ∷ 10 ∷ 3 ∷ 98 ∷ 111 ∷ 98 ∷ 16 ∷ 7 ∷ [])
unfolding json_to_proto_binary
written_map = refl

misread_map :
    proto_binary_to_json sample (10 ∷ 7 ∷ 10 ∷ 3 ∷ 98 ∷ 111 ∷ 98 ∷ 16 ∷ 7 ∷ []) ages_fields
    ≡ ok (object (member "ages" (str (Base64.codes "CgNib2IQBw==")) empty))
unfolding proto_binary_to_json
misread_map = refl
