-- ===== src/Grpc/Mapping/Tests.antt =====
-- The round trip of a field's line at a concrete field, and runs of the functions of mapping.rs.
use typeway.Base.{◌≡◌, refl, true, false, [], ◌∷◌, none, some, arith}
use typeway.Grpc.Parse.Field.{parse_field}
use typeway.Grpc.Parse.Chars.{text, trim}
use typeway.Grpc.Mapping.{ProtoField, field_line, to_proto_line, build_message}
use typeway.Grpc.Mapping.RoundTrip.{IsPlain, parsed, parse_field-field_line}

abbrev ids : ProtoField
ids = record {
  name = text "ids";
  proto_type = text "uint32";
  tag = 305;
  repeated = true;
  optional = false;
  is_map = false;
  map_key_type = none;
  map_value_type = none;
  doc = none;
}

ids_line : to_proto_line ids ≡ text "  repeated uint32 ids = 305;"
unfolding to_proto_line
ids_line = refl

documented :
    to_proto_line (record ids { doc = some (text "The ids.") })
    ≡ text "  // The ids.\n  repeated uint32 ids = 305;"
unfolding to_proto_line
documented = refl

map_line :
    to_proto_line (record ids {
      is_map = true;
      map_key_type = some (text "string");
      map_value_type = some (text "User");
    })
    ≡ text "  map<string, User> ids = 305;"
unfolding to_proto_line
map_line = refl

message_text :
    build_message (text "Ids") (ids ∷ []) ≡ text "message Ids {\n  repeated uint32 ids = 305;\n}"
unfolding build_message
message_text = refl

parse_field-field_line_example : parse_field (trim (field_line ids)) ≡ some (parsed ids)
parse_field-field_line_example = parse_field-field_line ids ids-IsPlain
  where
    ids-IsPlain : IsPlain ids
    ids-IsPlain = record {
      no_map = refl;
      name = (refl, (refl, (refl, tt)));
      proto_type = (refl, (refl, (refl, (refl, (refl, (refl, tt))))));
      not_repeated = refl;
      not_optional = refl;
      tag = omega arith;
    }
