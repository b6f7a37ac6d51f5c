-- ===== src/Binary/Fields.antt =====
-- The description of a message that proto_codec.rs reads: `ProtoFieldDef`, and the tables of its types.
-- A list of definitions within a definition is a type of its own.
use Prim.Native.String.{String}
use text.Mathlib.Text.{◌==◌ as ◌=ₛ◌}
use typeway.Base.{ℕ, Bool, List, [], ◌∷◌, Option, any, if◌then◌else◌}

mutual
  pub data ProtoFieldDef : Type 0 where
    field_def :
        (name proto_type : String) (tag : ℕ) (repeated is_map : Bool)
        (map_key_type map_value_type : Option String) (nested_fields : NestedFields)
        → ProtoFieldDef

  pub data NestedFields : Type 0 where
    absent : NestedFields
    present : FieldDefs → NestedFields

  pub data FieldDefs : Type 0 where
    nil : FieldDefs
    cons : ProtoFieldDef → FieldDefs → FieldDefs

-- `matches!(proto_type, …)`
abbrev pub is_one_of : List String → String → Bool
is_one_of names proto_type = any (λ name. proto_type =ₛ name) names

abbrev pub varint_types : List String
varint_types = "int32" ∷ "int64" ∷ "uint32" ∷ "uint64" ∷ "sint32" ∷ "sint64" ∷ "bool" ∷ "enum" ∷ []

abbrev pub fixed64_types : List String
fixed64_types = "double" ∷ "fixed64" ∷ "sfixed64" ∷ []

abbrev pub fixed32_types : List String
fixed32_types = "float" ∷ "fixed32" ∷ "sfixed32" ∷ []

unfoldable pub wire_type_for : String → ℕ
wire_type_for proto_type =
    if is_one_of varint_types proto_type
    then 0
    else if is_one_of fixed64_types proto_type
    then 1
    else if is_one_of ("string" ∷ "bytes" ∷ []) proto_type
    then 2
    else if is_one_of fixed32_types proto_type
    then 5
    else 2

unfoldable pub is_scalar_type : String → Bool
is_scalar_type = is_one_of (
    "int32" ∷ "int64" ∷ "uint32" ∷ "uint64" ∷ "sint32" ∷ "sint64" ∷ "bool" ∷ "enum" ∷ "double"
    ∷ "fixed64" ∷ "sfixed64" ∷ "string" ∷ "bytes" ∷ "float" ∷ "fixed32" ∷ "sfixed32" ∷ [])

unfoldable pub is_packable_type : String → Bool
is_packable_type = is_one_of (
    "int32" ∷ "int64" ∷ "uint32" ∷ "uint64" ∷ "sint32" ∷ "sint64" ∷ "bool" ∷ "enum" ∷ "fixed32"
    ∷ "sfixed32" ∷ "float" ∷ "fixed64" ∷ "sfixed64" ∷ "double" ∷ [])
