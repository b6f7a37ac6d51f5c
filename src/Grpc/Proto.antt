-- ===== src/Grpc/Proto.antt =====
-- A parsed `.proto` file, of typeway-grpc/src/proto_parse.rs: the data only, not the parser.
use Prim.Native.String.{String}
use typeway.Base.{ℕ, Bool, List, Option}

pub record ParsedEnumVariant : Type 0 where
  pub name : String
  pub tag : ℕ

pub record ParsedEnum : Type 0 where
  pub name : String
  pub variants : List ParsedEnumVariant

pub record ProtoRpcMethod : Type 0 where
  pub name : String
  pub input_type : String
  pub output_type : String
  pub comment : Option String

pub record ProtoService : Type 0 where
  pub name : String
  pub methods : List ProtoRpcMethod

pub record ParsedField : Type 0 where
  pub name : String
  pub proto_type : String
  pub tag : ℕ
  pub repeated : Bool
  pub optional : Bool
  pub is_map : Bool
  pub map_key_type : Option String
  pub map_value_type : Option String

pub record ParsedMessage : Type 0 where
  pub name : String
  pub fields : List ParsedField

pub record ProtoFile : Type 0 where
  pub syntax : String
  pub «package» : String
  pub imports : List String
  pub services : List ProtoService
  pub messages : List ParsedMessage
  pub enums : List ParsedEnum
