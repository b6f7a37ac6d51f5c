-- ===== src/Grpc/Parse/Tests.antt =====
-- Runs of the parser of proto_parse.rs.
use typeway.Base.{ℕ, ◌≡◌, ◌≢◌, refl, false, [], ◌∷◌, ◌++◌, none, some}
use typeway.Grpc.Proto.{ParsedField}
use typeway.Grpc.Parse.{
  ok, err, out_of_fuel, parse_proto, parse_message_block, extract_block_name, unclosed_message,
}
use typeway.Grpc.Parse.Field.{parse_field}
use typeway.Grpc.Parse.Chars.{Text, text, trim}
use typeway.Grpc.Parse.Total.{parse_proto-total}
use typeway.Grpc.Parse.Messages.{Body, parse_message_block-Body}

abbrev plain : ℕ → ParsedField
plain n = record {
  name = "id";
  proto_type = "uint32";
  tag = n;
  repeated = false;
  optional = false;
  is_map = false;
  map_key_type = none;
  map_value_type = none;
}

id_line : parse_field (text "  uint32 id = 7; // the user") ≡ some (plain 7)
unfolding parse_field
id_line = refl

-- Without blanks around `=` there is no field.
tight_line : parse_field (text "uint32 id=7;") ≡ none
unfolding parse_field
tight_line = refl

-- A file with a service, and a message within a message.
abbrev users_lines : Text
users_lines =
    text
      "syntax = \"proto3\";\n\npackage users.v1;\n\nservice Users {\n  // GET /users\n  rpc Get(User) returns (Reply);\n}\n\nmessage User {\n  uint32 id = 7;\n  message Card {\n    uint32 id = 2;\n  }\n}\n"

users_file :
    parse_proto users_lines
    ≡ ok (record {
      syntax = "proto3";
      «package» = "users.v1";
      imports = [];
      services =
          record {
            name = "Users";
            methods =
                record {
                  name = "Get";
                  input_type = "User";
                  output_type = "Reply";
                  comment = some "// GET /users";
                }
                ∷ [];
          }
          ∷ [];
      messages =
          record { name = "User"; fields = plain 7 ∷ [] }
          ∷ record { name = "User.Card"; fields = plain 2 ∷ [] }
          ∷ [];
      enums = [];
    })
unfolding parse_proto
users_file = refl

-- The line that closes a `oneof` is taken for the end of the message: the field behind it is lost.
oneof_lines :
    parse_proto
      (text "message User {\n  oneof key {\n    uint32 id = 7;\n  }\n  uint32 id = 8;\n}\n")
    ≡ ok (record {
      syntax = "";
      «package» = "";
      imports = [];
      services = [];
      messages = record { name = "User"; fields = plain 7 ∷ [] } ∷ [];
      enums = [];
    })
unfolding parse_proto
oneof_lines = refl

-- A message on one line has the braces in its name, and is never closed.
one_line : parse_proto (text "message Empty {}\n") ≡ err unclosed_message
unfolding parse_proto
one_line = refl

-- A message within a message, and a line behind.
parse_message_block-Body_example :
    parse_message_block (text "message User {") (
      (text "  uint32 id = 7;" ∷ text " message Card {" ∷ (text "  uint32 id = 2;" ∷ [])
        ++ text " }" ∷ [])
      ++ text "}" ∷ text "more" ∷ [])
    ≡ ok (
      record { name = "User"; fields = plain 7 ∷ [] }
          ∷ record { name = "User.Card"; fields = plain 2 ∷ [] }
          ∷ [],
      text "more" ∷ [],
    )
unfolding trim extract_block_name parse_field
parse_message_block-Body_example =
    parse_message_block-Body (text "message User {") (text "User")
      (text "  uint32 id = 7;" ∷ text " message Card {" ∷ (text "  uint32 id = 2;" ∷ [])
        ++ text " }" ∷ [])
      (plain 7 ∷ []) (record { name = "User.Card"; fields = plain 2 ∷ [] } ∷ []) (text "}")
      (text "more" ∷ []) refl
      (Body.line _ (text "  uint32 id = 7;") _ [] (plain 7 ∷ []) _ refl refl
        (Body.block _ (text " message Card {") (text "Card") (text "  uint32 id = 2;" ∷ [])
          (text " }") [] _ [] (plain 2 ∷ []) [] [] _ refl refl refl
          (Body.line _ (text "  uint32 id = 2;") [] [] (plain 2 ∷ []) [] refl refl (Body.done _)
            refl)
          refl (Body.done _) refl refl)
        refl)
      refl

parse_proto-total_example : parse_proto (text "message A {\n message B {\n") ≢ out_of_fuel
parse_proto-total_example = parse_proto-total (text "message A {\n message B {\n")
