-- ===== src/Grpc/Mapping.antt =====
-- typeway-grpc/src/mapping.rs: a message definition as text. The types of Rust and their names in
-- protobuf are not modelled.
pub mod Digits
pub mod Words
pub mod RoundTrip
mod Tests
use Prim.Native.Char.{Char, char}
use typeway.Base.{
  ℕ, Bool, true, false, List, [], ◌∷◌, ◌++◌, Option, none, some, ◌==◌, map, if◌then◌else◌,
}
use typeway.Router.Pattern.{show}
use typeway.Grpc.Parse.Chars.{Text, text, is_empty, lines}

pub record ProtoField : Type 0 where
  pub name : Text
  pub proto_type : Text
  pub tag : ℕ
  pub repeated : Bool
  pub optional : Bool
  pub is_map : Bool
  pub map_key_type : Option Text
  pub map_value_type : Option Text
  pub doc : Option Text

abbrev pub digit_char : ℕ → Char
digit_char d =
    if d == b'0'
    then char b'0' tt
    else if d == b'1'
    then char b'1' tt
    else if d == b'2'
    then char b'2' tt
    else if d == b'3'
    then char b'3' tt
    else if d == b'4'
    then char b'4' tt
    else if d == b'5'
    then char b'5' tt
    else if d == b'6'
    then char b'6' tt
    else if d == b'7'
    then char b'7' tt
    else if d == b'8'
    then char b'8' tt
    else char b'9' tt

-- A number in a text.
unfoldable pub number : ℕ → Text
unfolding show
number n = map digit_char (show n)

abbrev pub unwrap_or : Option Text → Text → Text
unwrap_or none t = t
unwrap_or (some u) t = u

-- `"repeated "`, `"optional "` or nothing
abbrev pub prefix : ProtoField → Text
prefix f = if f.repeated then text "repeated " else if f.optional then text "optional " else []

unfoldable pub field_line : ProtoField → Text
unfolding number
field_line f =
    if f.is_map
    then text "  map<"
      ++ (unwrap_or f.map_key_type (text "string")
          ++ (text ", "
              ++ (unwrap_or f.map_value_type (text "string")
                  ++ (text "> " ++ (f.name ++ (text " = " ++ (number f.tag ++ text ";")))))))
    else text "  "
      ++ (prefix f
          ++ (f.proto_type ++ (text " " ++ (f.name ++ (text " = " ++ (number f.tag ++ text ";"))))))

-- `join("\n")`
unfoldable pub join_lines : List Text → Text
join_lines [] = []
join_lines (t ∷ []) = t
join_lines (t ∷ u ∷ ts) = t ++ (text "\n" ++ join_lines (u ∷ ts))

unfoldable pub comment_lines : Text → List Text
unfolding lines
comment_lines doc = map (λ line. text "  // " ++ line) (lines doc)

unfoldable pub to_proto_line : ProtoField → Text
unfolding field_line join_lines comment_lines
to_proto_line f = elim f.doc [
  | none ↦ field_line f
  | some doc ↦
      if is_empty doc
      then field_line f
      else join_lines (comment_lines doc) ++ (text "\n" ++ field_line f)
]

unfoldable pub build_message : Text → List ProtoField → Text
unfolding to_proto_line join_lines
build_message name fields =
    join_lines
      ((text "message " ++ (name ++ text " {")) ∷ (map to_proto_line fields ++ text "}" ∷ []))
