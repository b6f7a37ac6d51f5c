-- ===== src/Grpc/Diff/Tests.antt =====
-- Runs of the comparison, and its theorems at concrete files.
use Prim.Native.String.{String}
use typeway.Base.{◌≡◌, ◌↔◌, refl, Bool, true, false, List, [], ◌∷◌, none, All}
use typeway.Grpc.Proto.{ProtoRpcMethod, ParsedField, ProtoFile}
use typeway.Grpc.Diff.{
  compatible, breaking, change, diff_files, diff_services, service_changes, method_changes,
  diff_messages, message_changes, field_changes, decimal,
}
use typeway.Grpc.Diff.Breaking.{IsCompatible, Keeps, diff_files-Keeps}
use typeway.Grpc.Diff.Same.{Distinct}

abbrev get_user : ProtoRpcMethod
get_user = record {
  name = "GetUser";
  input_type = "GetUserRequest";
  output_type = "User";
  comment = none;
}

abbrev list_users : ProtoRpcMethod
list_users = record {
  name = "ListUsers";
  input_type = "Empty";
  output_type = "Users";
  comment = none;
}

abbrev id_field : Bool → String → ParsedField
id_field repeated proto_type = record {
  name = "id";
  proto_type = proto_type;
  tag = 12;
  repeated = repeated;
  optional = false;
  is_map = false;
  map_key_type = none;
  map_value_type = none;
}

abbrev file : List ProtoRpcMethod → ParsedField → ProtoFile
file methods field = record {
  syntax = "proto3";
  «package» = "users.v1";
  imports = [];
  services = record { name = "UserService"; methods = methods } ∷ [];
  messages = record { name = "User"; fields = field ∷ [] } ∷ [];
  enums = [];
}

abbrev first : ProtoFile
first = file (get_user ∷ []) (id_field false "uint32")

abbrev second : ProtoFile
second = file (list_users ∷ []) (id_field false "string")

three_changes :
    diff_files first second
    ≡ change breaking "UserService.GetUser" "RPC method removed"
      ∷ change compatible "UserService.ListUsers" "RPC method added"
      ∷ change breaking "User.id" "type changed: uint32 -> string"
      ∷ []
unfolding diff_files diff_services service_changes method_changes diff_messages message_changes
    field_changes
three_changes = refl

field_removed :
    field_changes "User" (id_field false "uint32") none
    ≡ change breaking "User.id" "field removed (tag 12)" ∷ []
unfolding field_changes decimal
field_removed = refl

-- A field that becomes repeated is no change for the comparison.
repeated_missed : diff_files first (file (get_user ∷ []) (id_field true "uint32")) ≡ []
unfolding diff_files diff_services service_changes method_changes diff_messages message_changes
    field_changes
repeated_missed = refl

diff_files-Keeps_example : All IsCompatible (diff_files first second) ↔ Keeps first second
diff_files-Keeps_example = diff_files-Keeps first second

first-Distinct : Distinct first
first-Distinct = record { services = ((refl, (refl, tt)), tt); messages = ((refl, (refl, tt)), tt) }
