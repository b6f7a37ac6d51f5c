-- ===== src/Grpc/Parse.antt =====
-- typeway-grpc/src/proto_parse.rs: the parser of `.proto` files. Where the source keeps an index into the
-- lines, a function has the lines from that index on, and returns those that are left.
pub mod Chars
pub mod Field
pub mod Total
pub mod Messages
mod Tests
use Prim.Native.String.{String, ◌++◌ as ◌++ₛ◌}
use typeway.Base.{
  ℕ, zero, suc, Bool, true, false, not, ◌&&◌, ◌||◌, List, [], ◌∷◌, ◌++◌, Option, none, some, ltb,
  leb, ◌+◌, ◌==◌, length, drop, if◌then◌else◌,
}
use typeway.Base.Options as Options
use typeway.Grpc.Proto.{
  ParsedEnumVariant, ParsedEnum, ProtoRpcMethod, ProtoService, ParsedField, ParsedMessage,
  ProtoFile,
}
use Chars.{
  Text, text, to_string, text_eq, is_empty, starts_with, trim, trim_start_matches, trim_start_char,
  trim_end_char, split_once, after, before_comment, split, split_whitespace, lines, parse_u32,
}
use Field.{parse_field}

-- The errors, without their texts.
pub data ParseError : Type 0 where
  empty_import empty_syntax empty_package missing_name : ParseError
  unclosed_enum unclosed_service unclosed_message malformed_rpc : ParseError

-- `out_of_fuel` is no value of the program.
pub data Result {ℓ} (A : Type ℓ) : Type ℓ where
  ok : A → Result A
  err : ParseError → Result A
  out_of_fuel : Result A

infixl 5 ◌>>=◌
abbrev pub ◌>>=◌ {ℓ κ} : {A : Type ℓ} {B : Type κ} → Result A → (A → Result B) → Result B
ok a >>= f = f a
err e >>= f = err e
out_of_fuel >>= f = out_of_fuel

abbrev pub ok_or {ℓ} : {A : Type ℓ} → Option A → ParseError → Result A
ok_or none e = err e
ok_or (some a) e = ok a

abbrev pub non_empty : Text → ParseError → Result String
non_empty t e = if is_empty t then err e else ok (to_string t)

unfoldable pub parse_import : Text → Result String
unfolding trim_start_matches trim trim_start_char trim_end_char
parse_import line =
    let rest = trim (trim_start_matches (text "import") line) in
    let rest' = trim (trim_start_matches (text "weak") (trim_start_matches (text "public") rest)) in
    let path = trim_end_char b'"' (trim_start_char b'"' (trim (trim_end_char b';' rest'))) in
    non_empty path empty_import

unfoldable pub parse_syntax : Text → Result String
unfolding trim_start_matches trim trim_start_char trim_end_char
parse_syntax line =
    let rest = trim (trim_start_char b'=' (trim (trim_start_matches (text "syntax") line))) in
    non_empty (trim_end_char b'"' (trim_start_char b'"' (trim (trim_end_char b';' rest))))
      empty_syntax

unfoldable pub parse_package : Text → Result String
unfolding trim_start_matches trim trim_end_char
parse_package line =
    non_empty (trim (trim_end_char b';' (trim (trim_start_matches (text "package") line))))
      empty_package

unfoldable pub extract_block_name : Text → Text → Result Text
unfolding trim_start_matches trim trim_end_char
extract_block_name header keyword =
    let name = trim (trim_end_char b'{' (trim (trim_start_matches keyword header))) in
    if is_empty name then err missing_name else ok name

abbrev pub is_comment : Text → Bool
is_comment t = starts_with (text "//") t

abbrev pub is_close : Text → Bool
is_close t = text_eq t (text "}")

unfoldable pub variant_of : List Text → Option ParsedEnumVariant
unfolding parse_u32 trim
variant_of (name ∷ tag ∷ []) =
    Options.◌>>=◌ (parse_u32 (trim tag))
      (λ n. some (record { name = to_string (trim name); tag = n }))
variant_of _ = none

unfoldable pub parse_enum_variant : Text → Option ParsedEnumVariant
unfolding before_comment trim trim_end_char split variant_of
parse_enum_variant line =
    variant_of (split b'=' (trim (trim_end_char b';' (trim (before_comment line)))))

abbrev pub push {ℓ} : {A : Type ℓ} → Option A → List A → List A
push none xs = xs
push (some a) xs = xs ++ a ∷ []

abbrev pub is_skipped : Text → Bool
is_skipped t =
    is_empty t || is_comment t || starts_with (text "option") t || starts_with (text "reserved") t

-- The loop of `parse_enum_block`, behind the header.
unfoldable pub enum_loop :
    List Text → String → List ParsedEnumVariant → Result (ParsedEnum × List Text)
unfolding trim parse_enum_variant
enum_loop [] name variants = err unclosed_enum
enum_loop (line ∷ rest) name variants =
    let trimmed = trim line in
    let later =
      enum_loop rest name
        (if is_skipped trimmed then variants else push (parse_enum_variant trimmed) variants) in
    if is_close trimmed then ok (record { name = name; variants = variants }, rest) else later

unfoldable pub parse_enum_block : Text → List Text → Result (ParsedEnum × List Text)
unfolding extract_block_name enum_loop trim
parse_enum_block header rest =
    extract_block_name (trim header) (text "enum") >>= λ name. enum_loop rest (to_string name) []

unfoldable pub parse_rpc : Text → Result ProtoRpcMethod
unfolding trim_start_matches trim split_once after
parse_rpc line =
    let rest = trim (trim_start_matches (text "rpc") line) in
    ok_or (split_once b'(' rest) malformed_rpc >>= λ a.
    ok_or (split_once b')' a.1) malformed_rpc >>= λ b.
    ok_or (after (text "returns") b.1) malformed_rpc >>= λ c.
    ok_or (split_once b'(' c) malformed_rpc >>= λ d.
    ok_or (split_once b')' d.1) malformed_rpc >>= λ e. ok (record {
      name = to_string (trim a.0);
      input_type = to_string (trim b.0);
      output_type = to_string (trim e.0);
      comment = none;
    })

-- The loop of `parse_service`, behind the header.
unfoldable pub service_loop :
    List Text → String → List ProtoRpcMethod → Option String → Result (ProtoService × List Text)
unfolding trim parse_rpc
service_loop [] name methods pending = err unclosed_service
service_loop (line ∷ rest) name methods pending =
    let trimmed = trim line in
    elim (is_close trimmed) [
      | true ↦ ok (record { name = name; methods = methods }, rest)
      | false ↦ elim (is_comment trimmed) [
        | true ↦ service_loop rest name methods (some (to_string trimmed))
        | false ↦ elim (starts_with (text "rpc") trimmed) [
          | true ↦ parse_rpc trimmed >>= λ method.
              service_loop rest name (methods ++ record method { comment = pending } ∷ []) none
          | false ↦ service_loop rest name methods (if is_empty trimmed then pending else none)
        ]
      ]
    ]

unfoldable pub parse_service : Text → List Text → Result (ProtoService × List Text)
unfolding extract_block_name service_loop trim
parse_service header rest = extract_block_name (trim header) (text "service") >>= λ name.
    service_loop rest (to_string name) [] none

-- The loop of `parse_message_block`, behind the header. A nested block is read by the same loop.
unfoldable pub message_loop :
    ℕ
    → List Text
    → Text
    → List ParsedField
    → List ParsedMessage
    → Result (List ParsedMessage × List Text)
unfolding trim extract_block_name parse_field
message_loop fuel [] name fields nested = err unclosed_message
message_loop zero (line ∷ rest) name fields nested = out_of_fuel
message_loop (suc fuel) (line ∷ rest) name fields nested =
    let trimmed = trim line in
    elim (is_close trimmed) [
      | true ↦ ok (record { name = to_string name; fields = fields } ∷ nested, rest)
      | false ↦ elim (starts_with (text "message") trimmed) [
        | true ↦ extract_block_name trimmed (text "message") >>= λ raw.
            message_loop fuel rest (name ++ (text "." ++ raw)) [] [] >>= λ r.
            message_loop fuel r.1 name fields (nested ++ r.0)
        | false ↦
            message_loop fuel rest name
              (if is_empty trimmed || is_comment trimmed
                then fields
                else push (parse_field trimmed) fields)
              nested
      ]
    ]

-- Each line takes one round, so as many rounds as lines are enough.
unfoldable pub parse_message_block : Text → List Text → Result (List ParsedMessage × List Text)
unfolding extract_block_name message_loop trim
parse_message_block header rest = extract_block_name (trim header) (text "message") >>= λ name.
    message_loop (length rest) rest name [] []

abbrev pub empty_file : ProtoFile
empty_file = record {
  syntax = "";
  «package» = "";
  imports = [];
  services = [];
  messages = [];
  enums = [];
}

-- What the line at the front does: the file with what it says, and the lines behind it.
unfoldable pub read_item : Text → List Text → ProtoFile → Result (ProtoFile × List Text)
unfolding trim parse_syntax parse_package parse_import parse_service parse_message_block
    parse_enum_block
read_item line rest file =
    let trimmed = trim line in
    if is_empty trimmed || is_comment trimmed
    then ok (file, rest)
    else if starts_with (text "syntax") trimmed
    then (parse_syntax trimmed >>= λ s. ok (record file { syntax = s }, rest))
    else if starts_with (text "package") trimmed
    then (parse_package trimmed >>= λ p. ok (record file { «package» = p }, rest))
    else if starts_with (text "import") trimmed
    then (parse_import trimmed >>= λ i. ok (record file { imports = file.imports ++ i ∷ [] }, rest))
    else if starts_with (text "service") trimmed
    then (parse_service line rest >>= λ r.
        ok (record file { services = file.services ++ r.0 ∷ [] }, r.1))
    else if starts_with (text "message") trimmed
    then (parse_message_block line rest >>= λ r.
        ok (record file { messages = file.messages ++ r.0 }, r.1))
    else if starts_with (text "enum") trimmed
    then (parse_enum_block line rest >>= λ r.
        ok (record file { enums = file.enums ++ r.0 ∷ [] }, r.1))
    else ok (file, rest)

-- The loop of `parse_proto`.
unfoldable pub file_loop : ℕ → List Text → ProtoFile → Result ProtoFile
unfolding read_item
file_loop fuel [] file = ok file
file_loop zero (line ∷ rest) file = out_of_fuel
file_loop (suc fuel) (line ∷ rest) file = read_item line rest file >>= λ r. file_loop fuel r.1 r.0

unfoldable pub parse_proto : Text → Result ProtoFile
unfolding file_loop lines
parse_proto source = let ls = lines source in file_loop (length ls) ls empty_file
