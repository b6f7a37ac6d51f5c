-- ===== src/Grpc/Diff.antt =====
-- The comparison of two parsed `.proto` files, of typeway-grpc/src/diff.rs. What a function pushes onto
-- `changes` is the list that its definition gives, in the same order.
pub mod Breaking
pub mod Same
mod Tests
use Prim.Native.String.{String, ◌++◌ as ◌⊕◌}
use text.Mathlib.Text.{◌==◌ as ◌=ₛ◌}
use typeway.Base.{
  ℕ, Bool, true, false, not, List, [], ◌∷◌, ◌++◌, Option, none, some, ◌==◌, any, find, flat_map,
  if◌then◌else◌,
}
use typeway.Grpc.Proto.{ProtoRpcMethod, ProtoService, ParsedField, ParsedMessage, ProtoFile}
use typeway.Router.Pattern.{show}

pub data ChangeKind : Type 0 where
  compatible breaking : ChangeKind

pub record ProtoChange : Type 0 where
  pub kind : ChangeKind
  pub location : String
  pub description : String

abbrev pub change : ChangeKind → String → String → ProtoChange
change kind location description = record {
  kind = kind;
  location = location;
  description = description;
}

-- A number in a text.
abbrev pub digit_text : ℕ → String
digit_text d =
    if d == b'0'
    then "0"
    else if d == b'1'
    then "1"
    else if d == b'2'
    then "2"
    else if d == b'3'
    then "3"
    else if d == b'4'
    then "4"
    else if d == b'5'
    then "5"
    else if d == b'6'
    then "6"
    else if d == b'7'
    then "7"
    else if d == b'8'
    then "8"
    else "9"

abbrev pub digits_text : List ℕ → String
digits_text [] = ""
digits_text (d ∷ ds) = digit_text d ⊕ digits_text ds

unfoldable pub decimal : ℕ → String
unfolding show
decimal n = digits_text (show n)

abbrev pub dotted : String → String → String
dotted owner name = owner ⊕ "." ⊕ name

-- `{what}: {old} -> {new}`
abbrev pub arrow : String → String → String → String
arrow what old new = what ⊕ old ⊕ " -> " ⊕ new

-- The changes of a method that the new service may have.
unfoldable pub method_changes : String → ProtoRpcMethod → Option ProtoRpcMethod → List ProtoChange
method_changes owner m none = change breaking (dotted owner m.name) "RPC method removed" ∷ []
method_changes owner m (some nm) =
    (if nm.input_type =ₛ m.input_type
      then []
      else change breaking (dotted owner m.name)
          (arrow "input type changed: " m.input_type nm.input_type)
        ∷ [])
    ++ (if nm.output_type =ₛ m.output_type
        then []
        else change breaking (dotted owner m.name)
            (arrow "output type changed: " m.output_type nm.output_type)
          ∷ [])

unfoldable pub service_changes : ProtoService → Option ProtoService → List ProtoChange
service_changes s none = change breaking s.name "service removed" ∷ []
service_changes s (some ns) =
    flat_map (λ m. method_changes s.name m (find (λ x. x.name =ₛ m.name) ns.methods)) s.methods
    ++ flat_map
        (λ nm.
          if any (λ x. x.name =ₛ nm.name) s.methods
          then []
          else change compatible (dotted ns.name nm.name) "RPC method added" ∷ [])
        ns.methods

unfoldable pub diff_services : ProtoFile → ProtoFile → List ProtoChange
diff_services old new =
    flat_map (λ s. service_changes s (find (λ x. x.name =ₛ s.name) new.services)) old.services
    ++ flat_map
        (λ ns.
          if any (λ x. x.name =ₛ ns.name) old.services
          then []
          else change compatible ns.name "service added" ∷ [])
        new.services

-- The changes of a field that the new message may have.
unfoldable pub field_changes : String → ParsedField → Option ParsedField → List ProtoChange
field_changes owner f none =
    change breaking (dotted owner f.name) ("field removed (tag " ⊕ decimal f.tag ⊕ ")") ∷ []
field_changes owner f (some nf) =
    (if nf.proto_type =ₛ f.proto_type
      then []
      else change breaking (dotted owner f.name) (arrow "type changed: " f.proto_type nf.proto_type)
        ∷ [])
    ++ (if nf.name =ₛ f.name
        then []
        else change compatible (owner ⊕ " (tag " ⊕ decimal f.tag ⊕ ")")
            (arrow "field renamed: " f.name nf.name)
          ∷ [])

unfoldable pub message_changes : ParsedMessage → Option ParsedMessage → List ProtoChange
message_changes m none = change breaking m.name "message removed" ∷ []
message_changes m (some nm) =
    flat_map (λ f. field_changes m.name f (find (λ x. x.tag == f.tag) nm.fields)) m.fields
    ++ flat_map
        (λ nf.
          if any (λ x. x.tag == nf.tag) m.fields
          then []
          else change compatible (dotted nm.name nf.name)
              ("field added (tag " ⊕ decimal nf.tag ⊕ ")")
            ∷ [])
        nm.fields

unfoldable pub diff_messages : ProtoFile → ProtoFile → List ProtoChange
diff_messages old new =
    flat_map (λ m. message_changes m (find (λ x. x.name =ₛ m.name) new.messages)) old.messages
    ++ flat_map
        (λ nm.
          if any (λ x. x.name =ₛ nm.name) old.messages
          then []
          else change compatible nm.name "message added" ∷ [])
        new.messages

-- `diff_protos` on files that are parsed.
unfoldable pub diff_files : ProtoFile → ProtoFile → List ProtoChange
diff_files old new = diff_services old new ++ diff_messages old new
