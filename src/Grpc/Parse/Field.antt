-- ===== src/Grpc/Parse/Field.antt =====
-- typeway-grpc/src/proto_parse.rs: the line of a field, parse_field and parse_map_field.
use Prim.Native.String.{◌++◌ as ◌++ₛ◌}
use typeway.Base.{
  ℕ, Bool, true, false, ◌||◌, List, [], ◌∷◌, Option, none, some, ltb, leb, ◌+◌, length, drop,
  if◌then◌else◌,
}
use typeway.Base.Options as Options
use typeway.Grpc.Proto.{ParsedField}
use typeway.Grpc.Parse.Chars.{
  Text, text, to_string, text_eq, starts_with, trim, trim_end_char, split_once, before_comment,
  split_whitespace, parse_u32,
}

-- The tag of a field, and the field that `build` makes with it.
unfoldable pub tagged : (ℕ → ParsedField) → Text → Option ParsedField
unfolding parse_u32
tagged build tag = Options.◌>>=◌ (parse_u32 tag) (λ n. some (build n))

unfoldable pub map_tokens : Text → Text → List Text → Option ParsedField
unfolding tagged
map_tokens key_type value_type (name ∷ eq ∷ tag ∷ more) =
    if text_eq eq (text "=")
    then tagged
        (λ n. record {
          name = to_string name;
          proto_type = "map<" ++ₛ to_string key_type ++ₛ ", " ++ₛ to_string value_type ++ₛ ">";
          tag = n;
          repeated = false;
          optional = false;
          is_map = true;
          map_key_type = some (to_string key_type);
          map_value_type = some (to_string value_type);
        })
        tag
    else none
map_tokens key_type value_type _ = none

-- Where `>` stands before `<`, or right behind it, there is no field.
unfoldable pub parse_map_field : Text → Option ParsedField
unfolding split_once trim split_whitespace map_tokens
parse_map_field line = Options.◌>>=◌ (split_once b'<' line) (λ a.
    Options.◌>>=◌ (split_once b'>' line) (λ b.
      if leb (length b.0) (length a.0 + 1)
      then none
      else Options.◌>>=◌ (split_once b',' (drop (length a.0 + 1) b.0))
          (λ c. map_tokens (trim c.0) (trim c.1) (split_whitespace (trim b.1)))))

-- Behind `repeated` or `optional`.
unfoldable pub field_tokens : Bool → Bool → List Text → Option ParsedField
unfolding tagged
field_tokens repeated optional (proto_type ∷ name ∷ eq ∷ tag ∷ more) =
    if text_eq eq (text "=")
    then tagged
        (λ n. record {
          name = to_string name;
          proto_type = to_string proto_type;
          tag = n;
          repeated = repeated;
          optional = optional;
          is_map = false;
          map_key_type = none;
          map_value_type = none;
        })
        tag
    else none
field_tokens repeated optional _ = none

unfoldable pub labelled : List Text → Option ParsedField
unfolding field_tokens
labelled [] = none
labelled (first ∷ tokens) =
    if text_eq first (text "repeated")
    then field_tokens true false tokens
    else if text_eq first (text "optional")
    then field_tokens false true tokens
    else field_tokens false false (first ∷ tokens)

unfoldable pub parse_field : Text → Option ParsedField
unfolding before_comment trim trim_end_char parse_map_field split_whitespace labelled
parse_field line =
    let line' = trim (trim_end_char b';' (trim (before_comment line))) in
    if starts_with (text "map<") line' || starts_with (text "map <") line'
    then parse_map_field line'
    else (let tokens = split_whitespace line' in
        if ltb (length tokens) 4 then none else labelled tokens)
