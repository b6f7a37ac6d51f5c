-- ===== src/Transcode.antt =====
-- typeway-grpc/src/transcode.rs, on the description of a service in spec.rs: the JSON of a handler
-- against the bytes of a gRPC client.
pub mod Depth
pub mod RoundTrip
mod Tests
use Prim.Native.String.{String}
use text.Mathlib.Text.{◌==◌ as ◌=ₛ◌}
use typeway.Base.{
  ℕ, zero, suc, Bool, true, false, not, ◌&&◌, ◌||◌, List, [], ◌∷◌, Option, none, some, find,
  if◌then◌else◌,
}
use typeway.Base.Options.{◌>>=◌}
use typeway.Binary.Fields.{
  ProtoFieldDef, field_def, NestedFields, absent, present, FieldDefs, nil, cons, is_scalar_type,
}
use typeway.Binary.Json.{Json}
use typeway.Binary.Wire as Wire
use typeway.Binary.Wire.{CodecError}
use typeway.Binary.Encode.{json_to_proto_binary}
use typeway.Binary.Decode.{proto_binary_to_json}

pub record FieldSpec : Type 0 where
  pub name : String
  pub proto_type : String
  pub tag : ℕ
  pub repeated : Bool
  pub optional : Bool
  pub is_map : Bool
  pub map_key_type : Option String
  pub map_value_type : Option String
  pub description : Option String

pub record MessageSpec : Type 0 where
  pub name : String
  pub fields : List FieldSpec
  pub description : Option String

pub record MethodSpec : Type 0 where
  pub name : String
  pub full_path : String
  pub rest_path : String
  pub http_method : String
  pub request_type : String
  pub response_type : String
  pub server_streaming : Bool
  pub client_streaming : Bool
  pub description : Option String
  pub summary : Option String
  pub tags : List String
  pub requires_auth : Bool

pub record ServiceInfo : Type 0 where
  pub name : String
  pub package_name : String
  pub full_name : String
  pub description : Option String
  pub version : Option String

-- An `IndexMap` is the list of its entries.
pub record GrpcServiceSpec : Type 0 where
  pub proto : String
  pub service : ServiceInfo
  pub methods : List (String × MethodSpec)
  pub messages : List (String × MessageSpec)

abbrev pub get {ℓ} : {A : Type ℓ} → List (String × A) → String → Option A
get [] k = none
get ((j, a) ∷ entries) k = if j =ₛ k then some a else get entries k

abbrev pub values {ℓ} : {A : Type ℓ} → List (String × A) → List A
values [] = []
values ((k, a) ∷ entries) = a ∷ values entries

abbrev pub empty_type : String
empty_type = "google.protobuf.Empty"

-- The scalar types and the empty message.
unfoldable pub is_scalar : String → Bool
unfolding is_scalar_type
is_scalar proto_type = is_scalar_type proto_type || (proto_type =ₛ empty_type)

-- The definition of a field, with those of its message behind it.
unfoldable pub field_def_of : FieldSpec → NestedFields → ProtoFieldDef
field_def_of f nested =
    field_def f.name f.proto_type f.tag f.repeated f.is_map f.map_key_type f.map_value_type nested

-- The fields of the message that a field holds, through `deeper`.
unfoldable pub nested_of :
    (List FieldSpec → Option FieldDefs)
    → List (String × MessageSpec)
    → FieldSpec
    → Option NestedFields
unfolding is_scalar
nested_of deeper messages f =
    if not (is_scalar f.proto_type) && not f.is_map
    then (elim (get messages f.proto_type) [
      | none ↦ some absent
      | some msg ↦ deeper msg.fields >>= λ defs. some (present defs)
    ])
    else some absent

unfoldable pub map_fields : (FieldSpec → Option NestedFields) → List FieldSpec → Option FieldDefs
unfolding field_def_of
map_fields nested [] = some nil
map_fields nested (f ∷ fields) =
    nested f >>= λ n. map_fields nested fields >>= λ defs. some (cons (field_def_of f n) defs)

-- `field_specs_to_defs` calls itself for the message of each field. Where the fuel, the depth of these
-- calls, is too small, there is no result.
unfoldable pub field_specs_to_defs :
    ℕ → List (String × MessageSpec) → List FieldSpec → Option FieldDefs
unfolding map_fields nested_of
field_specs_to_defs zero messages fields = none
field_specs_to_defs (suc fuel) messages fields =
    map_fields (nested_of (λ fs. field_specs_to_defs fuel messages fs) messages) fields

pub data TranscodeError : Type 0 where
  method_not_found message_not_found : String → TranscodeError
  codec : CodecError → TranscodeError

-- `out_of_fuel` is no value of the program.
pub data Outcome {ℓ} (A : Type ℓ) : Type ℓ where
  ok : A → Outcome A
  err : TranscodeError → Outcome A
  panics out_of_fuel : Outcome A

infixl 5 ◌>>>◌
abbrev pub ◌>>>◌ {ℓ κ} : {A : Type ℓ} {B : Type κ} → Outcome A → (A → Outcome B) → Outcome B
ok a >>> f = f a
err e >>> f = err e
panics >>> f = panics
out_of_fuel >>> f = out_of_fuel

-- `?` on a result of the codec
abbrev pub from_codec {ℓ} : {A : Type ℓ} → Wire.Result A → Outcome A
from_codec (Wire.ok a) = ok a
from_codec (Wire.err e) = err (codec e)
from_codec Wire.panics = panics
from_codec Wire.out_of_fuel = out_of_fuel

abbrev pub ok_or {ℓ} : {A : Type ℓ} → Option A → TranscodeError → Outcome A
ok_or none e = err e
ok_or (some a) e = ok a

unfoldable pub find_method : GrpcServiceSpec → String → Option MethodSpec
find_method spec path = find (λ m. m.full_path =ₛ path) (values spec.methods)

-- The inner option is that of the source; the outer one is the fuel.
unfoldable pub message_fields : ℕ → GrpcServiceSpec → String → Option (Option FieldDefs)
unfolding field_specs_to_defs
message_fields fuel spec name =
    if name =ₛ empty_type then some (some nil) else (elim (get spec.messages name) [
      | none ↦ some none
      | some msg ↦ field_specs_to_defs fuel spec.messages msg.fields >>= λ defs. some (some defs)
    ])

-- The fields of a message that must be there.
unfoldable pub known_fields : ℕ → GrpcServiceSpec → String → Outcome FieldDefs
unfolding message_fields
known_fields fuel spec name = elim (message_fields fuel spec name) [
  | none ↦ out_of_fuel
  | some found ↦ ok_or found (message_not_found name)
]

abbrev pub is_empty : List ℕ → Bool
is_empty [] = true
is_empty (b ∷ bytes) = false

module _ (J : Json) (fuel : ℕ) (spec : GrpcServiceSpec) where
  unfoldable pub decode_request : String → List ℕ → Outcome J.Value
  unfolding find_method known_fields proto_binary_to_json
  decode_request path proto_bytes =
      ok_or (find_method spec path) (method_not_found path) >>> λ method.
      if (method.request_type =ₛ empty_type) || is_empty proto_bytes
      then ok (J.of_object J.new)
      else (known_fields fuel spec method.request_type >>> λ fields.
          from_codec (proto_binary_to_json J proto_bytes fields))

  unfoldable pub encode_message : String → J.Value → Outcome (List ℕ)
  unfolding known_fields json_to_proto_binary
  encode_message name json =
      if name =ₛ empty_type
      then ok []
      else (known_fields fuel spec name >>> λ fields.
          from_codec (json_to_proto_binary J json fields))

  unfoldable pub encode_response : String → J.Value → Outcome (List ℕ)
  unfolding find_method known_fields json_to_proto_binary
  encode_response path json = ok_or (find_method spec path) (method_not_found path) >>> λ method.
      if method.response_type =ₛ empty_type
      then ok []
      else (known_fields fuel spec method.response_type >>> λ fields.
          from_codec (json_to_proto_binary J json fields))

unfoldable pub is_proto_binary_content_type : String → Bool
is_proto_binary_content_type content_type =
    (content_type =ₛ "application/grpc") || (content_type =ₛ "application/grpc+proto")

unfoldable pub is_grpc_json_content_type : String → Bool
is_grpc_json_content_type content_type = content_type =ₛ "application/grpc+json"

-- The header, if there is one, and its text, if it is visible ASCII.
unfoldable pub grpc_content_type : Option (Option String) → String
grpc_content_type (some (some text)) = text
grpc_content_type _ = "application/grpc"
