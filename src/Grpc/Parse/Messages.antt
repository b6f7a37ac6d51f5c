-- ===== src/Grpc/Parse/Messages.antt =====
-- What proto_parse.rs makes of the lines of a message, with messages within messages.
use typeway.Base.{
  ℕ, zero, suc, ◌≤◌, ◌≡◌, refl, sym, ap, ◌∙◌, Bool, true, false, ◌||◌, List, [], ◌∷◌, ◌++◌, Option,
  none, some, length, length-append, append_assoc, append-nil, if◌then◌else◌, arith,
}
use typeway.Grpc.Proto.{ParsedField, ParsedMessage}
use typeway.Grpc.Parse.{
  ok, extract_block_name, is_comment, is_close, push, message_loop, parse_message_block,
}
use typeway.Grpc.Parse.Field.{parse_field}
use typeway.Grpc.Parse.Chars.{Text, text, to_string, is_empty, starts_with, trim}

abbrev listed : Option ParsedField → List ParsedField
listed none = []
listed (some f) = f ∷ []

-- The field that a line declares; a comment and a blank line declare none.
abbrev pub field_of : Text → List ParsedField
field_of line = if is_empty line || is_comment line then [] else listed (parse_field line)

abbrev pub Closes : Text → Type 0
Closes line = is_close (trim line) ≡ true

-- The lines within a message of some name, with the fields that they declare, and the messages within
-- it, each before those within it, under their dotted names.
pub data Body : Text → List Text → List ParsedField → List ParsedMessage → Type 0 where
  done : (name : Text) → Body name [] [] []
  line :
      (name l : Text) (ls : List Text) (fs fs' : List ParsedField) (ms : List ParsedMessage)
      → is_close (trim l) ≡ false
      → starts_with (text "message") (trim l) ≡ false
      → Body name ls fs ms
      → fs' ≡ field_of (trim l) ++ fs
      → Body name (l ∷ ls) fs' ms
  block :
      (name l raw : Text) (inner : List Text) (close : Text) (ls ls' : List Text)
      (fs inner_fs : List ParsedField) (ms inner_ms ms' : List ParsedMessage)
      → is_close (trim l) ≡ false
      → starts_with (text "message") (trim l) ≡ true
      → extract_block_name (trim l) (text "message") ≡ ok raw
      → Body (name ++ (text "." ++ raw)) inner inner_fs inner_ms
      → Closes close
      → Body name ls fs ms
      → ls' ≡ l ∷ (inner ++ close ∷ ls)
      → ms'
        ≡ (record { name = to_string (name ++ (text "." ++ raw)); fields = inner_fs } ∷ inner_ms)
          ++ ms
      → Body name ls' fs ms'

push_lem : (o : Option ParsedField) (fs : List ParsedField) → push o fs ≡ fs ++ listed o
push_lem none fs = sym (append-nil fs)
push_lem (some f) fs = refl

add_field :
    (l : Text) (fs : List ParsedField)
    → (if is_empty l || is_comment l then fs else push (parse_field l) fs) ≡ fs ++ field_of l
add_field l fs = by_test (is_empty l || is_comment l)
  where
    by_test :
        (b : Bool)
        → (if b then fs else push (parse_field l) fs)
          ≡ fs ++ (if b then [] else listed (parse_field l))
    by_test true = sym (append-nil fs)
    by_test false = push_lem (parse_field l) fs

message_loop-Body :
    (fuel : ℕ) {name : Text} {body : List Text} {fs : List ParsedField} {ms : List ParsedMessage}
    (b : Body name body fs ms) (close : Text) (rest : List Text) (fields : List ParsedField)
    (nested : List ParsedMessage)
    → Closes close
    → length (body ++ close ∷ rest) ≤ fuel
    → message_loop fuel (body ++ close ∷ rest) name fields nested
      ≡ ok (record { name = to_string name; fields = fields ++ fs } ∷ (nested ++ ms), rest)
unfolding message_loop
message_loop-Body zero {body = body} b close rest fields nested c h =
    absurd (omega (arith, length-append body (close ∷ rest)))
message_loop-Body (suc fuel) (done name) close rest fields nested c h =
    rw (c, message_loop)
      (ap
        (λ (x : List ParsedField × List ParsedMessage).
          ok (record { name = to_string name; fields = x.0 } ∷ x.1, rest))
        (λ i. (sym (append-nil fields) i, sym (append-nil nested) i)))
message_loop-Body (suc fuel) (line name l ls fs fs' ms nc nm b split) close rest fields nested c h =
    rw (nc, nm, add_field (trim l) fields, message_loop)
      (message_loop-Body fuel b close rest (fields ++ field_of (trim l)) nested c (omega arith)
        ∙ ap
            (λ (x : List ParsedField).
              ok (record { name = to_string name; fields = x } ∷ (nested ++ ms), rest))
            (append_assoc fields (field_of (trim l)) fs ∙ ap (λ x. fields ++ x) (sym split)))
message_loop-Body (suc fuel)
      (block name l raw inner close' ls ls' fs ifs ms ims ms' nc nm named b c' b' split split')
      close rest fields nested c h =
    let whole : List Text = inner ++ (close' ∷ (ls ++ close ∷ rest)) in
    let lines : ls' ++ close ∷ rest ≡ l ∷ whole =
      ap (λ x. x ++ close ∷ rest) split
      ∙ ap (λ x. l ∷ x) (append_assoc inner (close' ∷ ls) (close ∷ rest)) in
    let size : length (ls' ++ close ∷ rest) ≡ suc (length whole) = ap length lines in
    let size' = length-append inner (close' ∷ (ls ++ close ∷ rest)) in
    let own : List ParsedMessage =
      record { name = to_string (name ++ (text "." ++ raw)); fields = ifs } ∷ ims in
    let first : message_loop fuel whole (name ++ (text "." ++ raw)) [] []
        ≡ ok (own, ls ++ close ∷ rest) =
      message_loop-Body fuel b close' (ls ++ close ∷ rest) [] [] c' (omega arith) in
    let second : message_loop fuel (ls ++ close ∷ rest) name fields (nested ++ own)
        ≡ ok (
          record { name = to_string name; fields = fields ++ fs } ∷ ((nested ++ own) ++ ms),
          rest,
        ) =
      message_loop-Body fuel b' close rest fields (nested ++ own) c (omega arith) in
    ap (λ x. message_loop (suc fuel) x name fields nested) lines
    ∙ rw (nc, nm, named, message_loop) (rw first second)
    ∙ ap
        (λ (x : List ParsedMessage).
          ok (record { name = to_string name; fields = fields ++ fs } ∷ x, rest))
        (append_assoc nested own ms ∙ ap (λ x. nested ++ x) (sym split'))

-- A message whose lines nest well is parsed up to the line that closes it, whatever follows: its fields
-- are those that its own lines declare, in order, and behind it stand the messages within it.
pub parse_message_block-Body :
    (header name : Text) (body : List Text) (fs : List ParsedField) (ms : List ParsedMessage)
    (close : Text) (rest : List Text)
    → extract_block_name (trim header) (text "message") ≡ ok name
    → Body name body fs ms
    → Closes close
    → parse_message_block header (body ++ close ∷ rest)
      ≡ ok (record { name = to_string name; fields = fs } ∷ ms, rest)
unfolding parse_message_block
parse_message_block-Body header name body fs ms close rest e b c =
    rw e (message_loop-Body (length (body ++ close ∷ rest)) b close rest [] [] c (omega arith))
