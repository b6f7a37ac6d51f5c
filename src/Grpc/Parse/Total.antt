-- ===== src/Grpc/Parse/Total.antt =====
-- The parser of proto_parse.rs ends on every text.
use Prim.Native.String.{String}
use typeway.Base.{
  ℕ, zero, suc, ◌<◌, ◌≤◌, ◌≢◌, Bool, true, false, ◌||◌, List, [], ◌∷◌, ◌++◌, Option, none, some,
  length, if◌then◌else◌, arith,
}
use typeway.Grpc.Proto.{ProtoFile, ParsedMessage, ParsedField, ProtoRpcMethod, ParsedEnumVariant}
use typeway.Grpc.Parse.{
  ParseError, missing_name, Result, ok, err, out_of_fuel, ◌>>=◌, non_empty, parse_import,
  parse_syntax, parse_package, extract_block_name, is_comment, is_close, push, enum_loop,
  parse_enum_block, parse_rpc, ok_or, service_loop, parse_service, message_loop,
  parse_message_block, empty_file, read_item, file_loop, parse_proto, malformed_rpc,
}
use typeway.Grpc.Parse.Field.{parse_field}
use typeway.Grpc.Parse.Chars.{
  Text, text, to_string, is_empty, starts_with, trim, trim_start_matches, trim_end_char, lines,
  split_once, after,
}

abbrev pub Ensures {ℓ} : {A : Type ℓ} → Result A → (A → Type 0) → Type 0
Ensures (ok a) P = P a
Ensures (err e) P = Unit
Ensures out_of_fuel P = ⊥

abbrev Finishes {ℓ} : {A : Type ℓ} → Result A → Type 0
Finishes r = Ensures r (λ _. Unit)

-- Fewer lines are left.
abbrev Leaves {ℓ} : {A : Type ℓ} → Result (A × List Text) → ℕ → Type 0
Leaves r n = Ensures r (λ p. length p.1 < n)

Ensures-bind {ℓ κ} :
    {A : Type ℓ} {B : Type κ} (r : Result A) (f : A → Result B) (P : A → Type 0) (Q : B → Type 0)
    → Ensures r P
    → ((a : A) → P a → Ensures (f a) Q)
    → Ensures (r >>= f) Q
Ensures-bind (ok a) f P Q h k = k a h
Ensures-bind (err e) f P Q h k = tt
Ensures-bind out_of_fuel f P Q h k = elim h [ ]

Ensures-if {ℓ} :
    {A : Type ℓ} (b : Bool) (x y : Result A) (P : A → Type 0)
    → Ensures x P
    → Ensures y P
    → Ensures (if b then x else y) P
Ensures-if true x y P hx hy = hx
Ensures-if false x y P hx hy = hy

weaken {ℓ} :
    {A : Type ℓ} (r : Result A) (P Q : A → Type 0)
    → Ensures r P
    → ((a : A) → P a → Q a)
    → Ensures r Q
weaken (ok a) P Q h k = k a h
weaken (err e) P Q h k = tt
weaken out_of_fuel P Q h k = elim h [ ]

non_empty-Finishes : (t : Text) (e : ParseError) → Finishes (non_empty t e)
non_empty-Finishes t e = Ensures-if (is_empty t) _ _ _ tt tt

extract_block_name-Finishes : (header keyword : Text) → Finishes (extract_block_name header keyword)
unfolding extract_block_name
extract_block_name-Finishes header keyword =
    let name : Text = trim (trim_end_char b'{' (trim (trim_start_matches keyword header))) in
    Ensures-if {A = Text} (is_empty name) (err missing_name) (ok name) (λ _. Unit) tt tt

ok_or-bind {ℓ κ} :
    {A : Type ℓ} {B : Type κ} (o : Option A) (e : ParseError) (f : A → Result B)
    → ((a : A) → Finishes (f a))
    → Finishes (ok_or o e >>= f)
ok_or-bind none e f k = tt
ok_or-bind (some a) e f k = k a

Ensures-elim {ℓ} :
    {A : Type ℓ} (b : Bool) (x y : Result A) (P : A → Type 0)
    → Ensures x P
    → Ensures y P
    → Ensures (elim b [ true ↦ x | false ↦ y ]) P
Ensures-elim true x y P hx hy = hx
Ensures-elim false x y P hx hy = hy

enum_loop-Leaves :
    (ls : List Text) (name : String) (variants : List ParsedEnumVariant)
    → Leaves (enum_loop ls name variants) (length ls)
unfolding enum_loop
enum_loop-Leaves [] name variants = tt
enum_loop-Leaves (line ∷ rest) name variants =
    Ensures-if (is_close (trim line)) _ _ _ (omega arith)
      (weaken (enum_loop rest name _) _ _ (enum_loop-Leaves rest name _) (λ p h. omega arith))

parse_rpc-Finishes : (line : Text) → Finishes (parse_rpc line)
unfolding parse_rpc
parse_rpc-Finishes line =
    ok_or-bind {A = Text × Text} {B = ProtoRpcMethod}
      (split_once b'(' (trim (trim_start_matches (text "rpc") line))) malformed_rpc _
      (λ a. ok_or-bind {A = Text × Text} (split_once b')' a.1) malformed_rpc _ (λ b.
        ok_or-bind {A = Text} (after (text "returns") b.1) malformed_rpc _ (λ c.
          ok_or-bind {A = Text × Text} (split_once b'(' c) malformed_rpc _ (λ d.
            ok_or-bind {A = Text × Text} (split_once b')' d.1) malformed_rpc
              (λ e. ok (record {
                name = to_string (trim a.0);
                input_type = to_string (trim b.0);
                output_type = to_string (trim e.0);
                comment = none;
              }))
              (λ e. tt)))))

service_loop-Leaves :
    (ls : List Text) (name : String) (methods : List ProtoRpcMethod) (pending : Option String)
    → Leaves (service_loop ls name methods pending) (length ls)
unfolding service_loop
service_loop-Leaves [] name methods pending = tt
service_loop-Leaves (line ∷ rest) name methods pending =
    let more : (ms : List ProtoRpcMethod) (o : Option String)
        → Leaves (service_loop rest name ms o) (suc (length rest)) =
      λ ms o.
        weaken (service_loop rest name ms o) _ _ (service_loop-Leaves rest name ms o)
          (λ p h. omega arith) in
    Ensures-elim (is_close (trim line)) _ _ _ (omega arith) (
      Ensures-elim (is_comment (trim line)) _ _ _ (more methods (some (to_string (trim line)))) (
        Ensures-elim (starts_with (text "rpc") (trim line)) _ _ _
          (Ensures-bind (parse_rpc (trim line)) _ _ _ (parse_rpc-Finishes (trim line))
            (λ m _. more (methods ++ record m { comment = pending } ∷ []) none))
          (more methods (if is_empty (trim line) then pending else none))))

message_loop-Leaves :
    (fuel : ℕ) (ls : List Text) (name : Text) (fields : List ParsedField)
    (nested : List ParsedMessage)
    → length ls ≤ fuel
    → Leaves (message_loop fuel ls name fields nested) (length ls)
unfolding message_loop
message_loop-Leaves fuel [] name fields nested h = tt
message_loop-Leaves zero (line ∷ rest) name fields nested h = absurd (omega arith)
message_loop-Leaves (suc fuel) (line ∷ rest) name fields nested h =
    let more : (left : List Text) (fs : List ParsedField) (ms : List ParsedMessage)
        → length left ≤ length rest
        → Leaves (message_loop fuel left name fs ms) (suc (length rest)) =
      λ left fs ms e.
        weaken (message_loop fuel left name fs ms) _ _
          (message_loop-Leaves fuel left name fs ms (omega arith)) (λ p h. omega arith) in
    Ensures-elim (is_close (trim line)) _ _ _ (omega arith) (
      Ensures-elim (starts_with (text "message") (trim line)) _ _ _
        (Ensures-bind (extract_block_name (trim line) (text "message")) _ _ _
          (extract_block_name-Finishes (trim line) (text "message"))
          (λ raw _.
            Ensures-bind (message_loop fuel rest (name ++ (text "." ++ raw)) [] []) _ _ _
              (message_loop-Leaves fuel rest (name ++ (text "." ++ raw)) [] [] (omega arith))
              (λ r short. more r.1 fields (nested ++ r.0) (omega arith))))
        (more rest
          (if is_empty (trim line) || is_comment (trim line)
            then fields
            else push (parse_field (trim line)) fields)
          nested (omega arith)))

read_item-Leaves :
    (line : Text) (rest : List Text) (file : ProtoFile)
    → Ensures (read_item line rest file) (λ p. length p.1 ≤ length rest)
unfolding read_item parse_import parse_syntax parse_package parse_service parse_message_block
    parse_enum_block
read_item-Leaves line rest file =
    let t : Text = trim line in
    Ensures-if (is_empty t || is_comment t) _ _ _ (omega arith) (
      Ensures-if (starts_with (text "syntax") t) _ _ _
        (Ensures-bind (parse_syntax t) _ _ _ (non_empty-Finishes _ _) (λ a _. omega arith))
        (Ensures-if (starts_with (text "package") t) _ _ _
          (Ensures-bind (parse_package t) _ _ _ (non_empty-Finishes _ _) (λ a _. omega arith))
          (Ensures-if (starts_with (text "import") t) _ _ _
            (Ensures-bind (parse_import t) _ _ _ (non_empty-Finishes _ _) (λ a _. omega arith))
            (Ensures-if (starts_with (text "service") t) _ _ _
              (Ensures-bind (parse_service line rest) _ (λ p. length p.1 < length rest) _
                (Ensures-bind (extract_block_name t (text "service")) _ _ _
                  (extract_block_name-Finishes t (text "service"))
                  (λ n _. service_loop-Leaves rest (to_string n) [] none))
                (λ a h. omega arith))
              (Ensures-if (starts_with (text "message") t) _ _ _
                (Ensures-bind (parse_message_block line rest) _ (λ p. length p.1 < length rest) _
                  (Ensures-bind (extract_block_name t (text "message")) _ _ _
                    (extract_block_name-Finishes t (text "message"))
                    (λ n _. message_loop-Leaves (length rest) rest n [] [] (omega arith)))
                  (λ a h. omega arith))
                (Ensures-if (starts_with (text "enum") t) _ _ _
                  (Ensures-bind (parse_enum_block line rest) _ (λ p. length p.1 < length rest) _
                    (Ensures-bind (extract_block_name t (text "enum")) _ _ _
                      (extract_block_name-Finishes t (text "enum"))
                      (λ n _. enum_loop-Leaves rest (to_string n) []))
                    (λ a h. omega arith))
                  (omega arith)))))))

file_loop-Finishes :
    (fuel : ℕ) (ls : List Text) (file : ProtoFile)
    → length ls ≤ fuel
    → Finishes (file_loop fuel ls file)
unfolding file_loop
file_loop-Finishes fuel [] file h = tt
file_loop-Finishes zero (line ∷ rest) file h = absurd (omega arith)
file_loop-Finishes (suc fuel) (line ∷ rest) file h =
    Ensures-bind (read_item line rest file) _ _ _ (read_item-Leaves line rest file)
      (λ r short. file_loop-Finishes fuel r.1 r.0 (omega arith))

not_out_of_fuel : {A : Type 0} (r : Result A) → Finishes r → r ≢ out_of_fuel
not_out_of_fuel (ok a) h e = cc
not_out_of_fuel (err c) h e = cc
not_out_of_fuel out_of_fuel h e = elim h [ ]

-- On any text, unclosed and nested blocks included, `parse_proto` returns a file or an error.
pub parse_proto-total : (source : Text) → parse_proto source ≢ out_of_fuel
unfolding parse_proto
parse_proto-total source =
    not_out_of_fuel _
      (file_loop-Finishes (length (lines source)) (lines source) empty_file (omega arith))
