-- ===== src/Grpc/Mapping/RoundTrip.antt =====
-- The lines that mapping.rs writes for a field, read by proto_parse.rs.
use Prim.Native.Char.{Char, code}
use typeway.Base.{
  ℕ, ◌^◌, ◌<◌, ◌≤◌, ◌≡◌, refl, sym, ap, subst, not-ltb, ◌∙◌, Bool, true, false, not, ◌&&◌, ◌||◌,
  List, [], ◌∷◌, ◌++◌, none, some, ltb, ◌==◌, length, All, All-append, append_assoc, if◌then◌else◌,
  arith, Bool-cases, inl, inr,
}
use typeway.Base.Bits.{every, every_sound}
use typeway.Grpc.Timeout.{is_whitespace}
use typeway.Grpc.Timeout.Reads.{IsDigit}
use typeway.Grpc.Proto.{ParsedField}
use typeway.Grpc.Parse.Field.{parse_field, labelled, field_tokens}
use typeway.Grpc.Parse.Chars.{Text, text, to_string, text_eq, starts_with, trim}
use typeway.Grpc.Mapping.{ProtoField, number, field_line}
use typeway.Grpc.Mapping.Digits.{parse_u32-number, number_digits}
use typeway.Grpc.Mapping.Words.{
  word_char, IsWordChar, IsWord, blank, spaced, word_parts, split_whitespace-spaced, NoSlash,
  spaced-NoSlash, before_comment_lem, spaced-Ends, trim_solid, trim_semicolon, trim_indented,
  cut_semicolon,
}

and_false : (x y z b : Bool) → b ≡ false → (x && (y && (z && b))) ≡ false
and_false x y z b h = ground arith

or_false : {x y : Bool} → x ≡ false → y ≡ false → (x || y) ≡ false
or_false p q = rw (p, q) refl

no_angle : (n : ℕ) → (n == b'<') ≡ false → (b'<' == n) ≡ false
no_angle n h = ground arith

no_blank : (n : ℕ) → is_whitespace n ≡ false → (b' ' == n) ≡ false
no_blank n h = ground arith

-- A line with two words at its start does not open like a map field.
not_map :
    (t : Text) (c : Char) (u : Text)
    → All IsWordChar t
    → IsWordChar c
    → (starts_with (text "map<") (t ++ (blank ++ (c ∷ u)))
        || starts_with (text "map <") (t ++ (blank ++ (c ∷ u))))
      ≡ false
not_map [] c u h hc = refl
not_map (x ∷ []) c u h hc = ground arith
not_map (x ∷ y ∷ []) c u h hc = ground arith
not_map (x ∷ y ∷ z ∷ []) c u h hc =
    let angle = no_angle (code c) ((word_parts c hc).3) in
    or_false (and_false (b'm' == code x) (b'a' == code y) (b'p' == code z) false refl) (
      and_false (b'm' == code x) (b'a' == code y) (b'p' == code z) (b'<' == code c && true)
        (rw angle refl))
not_map (x ∷ y ∷ z ∷ w ∷ t) c u (_, (_, (_, (hw, _)))) hc =
    let (solid, _, _, sharp) = word_parts w hw in
    or_false
      (and_false (b'm' == code x) (b'a' == code y) (b'p' == code z) (b'<' == code w && true)
        (rw (no_angle (code w) sharp) refl))
      (and_false (b'm' == code x) (b'a' == code y) (b'p' == code z)
        (b' ' == code w && starts_with (text "<") (t ++ (blank ++ (c ∷ u))))
        (rw (no_blank (code w) solid) refl))

not_map_spaced :
    (t : Text) (c : Char) (u : Text) (ts : List Text)
    → All IsWordChar t
    → IsWordChar c
    → (starts_with (text "map<") (t ++ (blank ++ spaced ((c ∷ u) ∷ ts)))
        || starts_with (text "map <") (t ++ (blank ++ spaced ((c ∷ u) ∷ ts))))
      ≡ false
not_map_spaced t c u [] h hc = not_map t c u h hc
not_map_spaced t c u (v ∷ ts) h hc = not_map t c (u ++ (blank ++ spaced (v ∷ ts))) h hc

digit_test : ℕ → Bool
digit_test n = ltb n b'0' || word_char n

digits_tested : every digit_test 58 ≡ true
unfolding every digit_test
digits_tested = refl

digit_table : (n : ℕ) → n < 58 → b'0' ≤ n → word_char n ≡ true
unfolding digit_test
digit_table n h lo =
    let t = every_sound digit_test 58 n digits_tested h in rw (not-ltb n b'0' lo) at t

digit_word : (c : Char) → IsDigit (code c) → IsWordChar c
digit_word c (lo, hi) = digit_table (code c) (omega arith) lo

number-IsWord : (n : ℕ) → IsWord (number n)
number-IsWord n =
    let (digits, (c, rest, split)) = number_digits n in
    let digits' : All (λ c. IsDigit (code c)) (c ∷ rest) = rw split at digits in
    subst IsWord (sym split) (digit_word c digits'.0, each rest digits'.1)
  where
    each : (t : Text) → All (λ c. IsDigit (code c)) t → All IsWordChar t
    each [] h = tt
    each (c ∷ t) (hc, h) = (digit_word c hc, each t h)

-- The words of a field's line.
abbrev base : ProtoField → List Text
base f = f.proto_type ∷ f.name ∷ text "=" ∷ number f.tag ∷ []

abbrev words : ProtoField → List Text
words f =
    if f.repeated
    then text "repeated" ∷ base f
    else if f.optional
    then text "optional" ∷ base f
    else base f

base_line :
    (f : ProtoField)
    → f.proto_type ++ (text " " ++ (f.name ++ (text " = " ++ (number f.tag ++ text ";"))))
      ≡ spaced (base f) ++ text ";"
base_line f =
    ap (λ x. f.proto_type ++ (text " " ++ x))
      (sym (append_assoc f.name (text " = " ++ number f.tag) (text ";")))
    ∙ sym (
        append_assoc f.proto_type (text " " ++ (f.name ++ (text " = " ++ number f.tag))) (text ";"))

field_line-words :
    (f : ProtoField) → f.is_map ≡ false → field_line f ≡ text "  " ++ (spaced (words f) ++ text ";")
unfolding field_line
field_line-words f plain = elim (Bool-cases f.repeated) [
  | inl r ↦ rw (plain, r) (ap (λ x. text "  repeated " ++ x) (base_line f))
  | inr r ↦ elim (Bool-cases f.optional) [
    | inl o ↦ rw (plain, r, o) (ap (λ x. text "  optional " ++ x) (base_line f))
    | inr o ↦ rw (plain, r, o) (ap (λ x. text "  " ++ x) (base_line f))
  ]
]

parse_field-spaced :
    (t : Text) (c : Char) (u : Text) (ts : List Text)
    → IsWord t
    → IsWord (c ∷ u)
    → All IsWord ts
    → parse_field (spaced (t ∷ (c ∷ u) ∷ ts) ++ text ";")
      ≡ (if ltb (length (t ∷ (c ∷ u) ∷ ts)) 4 then none else labelled (t ∷ (c ∷ u) ∷ ts))
unfolding parse_field
parse_field-spaced [] c u ts ht hu h = elim ht [ ]
parse_field-spaced (x ∷ t) c u ts (hx, ht) hu h =
    let ws : List Text = (x ∷ t) ∷ (c ∷ u) ∷ ts in
    let (front, d, split, hd) = spaced-Ends (x ∷ t) ((c ∷ u) ∷ ts) (hx, ht) (hu, h) in
    let rest : Text = t ++ (blank ++ spaced ((c ∷ u) ∷ ts)) in
    let clean =
      All-append NoSlash (spaced ws) (text ";") (spaced-NoSlash ws ((hx, ht), (hu, h)))
        (refl, tt) in
    rw (before_comment_lem (spaced ws ++ text ";") clean) (
      rw (trim_semicolon x rest front d split hx hd) (
        rw (cut_semicolon x rest front d split hx hd) (
          rw (trim_solid x rest front d split hx hd) (
            rw
              (
                not_map_spaced (x ∷ t) c u ts (hx, ht) (hu.0),
                split_whitespace-spaced ws ((hx, ht), (hu, h)),
              )
              refl))))

label_words :
    (ts : List Text)
    → All IsWord ts
    → All IsWord (text "repeated" ∷ ts) × All IsWord (text "optional" ∷ ts)
label_words ts h = (
  ((refl, (refl, (refl, (refl, (refl, (refl, (refl, (refl, tt)))))))), h),
  ((refl, (refl, (refl, (refl, (refl, (refl, (refl, (refl, tt)))))))), h),
)

indented :
    (t : Text) (ts : List Text)
    → All IsWord (t ∷ ts)
    → trim (text "  " ++ (spaced (t ∷ ts) ++ text ";")) ≡ spaced (t ∷ ts) ++ text ";"
indented [] ts (ht, h) = elim ht [ ]
indented (x ∷ t) [] (ht, h) =
    let (front, d, split, hd) = spaced-Ends (x ∷ t) [] ht h in
    trim_indented x t front d split (ht.0) hd
indented (x ∷ t) (u ∷ ts) (ht, h) =
    let (front, d, split, hd) = spaced-Ends (x ∷ t) (u ∷ ts) ht h in
    trim_indented x (t ++ (blank ++ spaced (u ∷ ts))) front d split (ht.0) hd

parse_field-words :
    (t u : Text) (ts : List Text)
    → IsWord t
    → IsWord u
    → All IsWord ts
    → parse_field (spaced (t ∷ u ∷ ts) ++ text ";")
      ≡ (if ltb (length (t ∷ u ∷ ts)) 4 then none else labelled (t ∷ u ∷ ts))
parse_field-words t [] ts ht hu h = elim hu [ ]
parse_field-words t (c ∷ u) ts ht hu h = parse_field-spaced t c u ts ht hu h

-- A field that is no map, with words for its name and its type, the type not one that a parser takes
-- for a label.
pub record IsPlain (f : ProtoField) : Type 0 where
  pub no_map : f.is_map ≡ false
  pub name : IsWord f.name
  pub proto_type : IsWord f.proto_type
  pub not_repeated : text_eq f.proto_type (text "repeated") ≡ false
  pub not_optional : text_eq f.proto_type (text "optional") ≡ false
  pub tag : f.tag < 2 ^ 32

-- What is read: a field that is repeated is not optional too.
abbrev pub parsed : ProtoField → ParsedField
parsed f = record {
  name = to_string f.name;
  proto_type = to_string f.proto_type;
  tag = f.tag;
  repeated = f.repeated;
  optional = not f.repeated && f.optional;
  is_map = false;
  map_key_type = none;
  map_value_type = none;
}

module _ (f : ProtoField) (p : IsPlain f) where
  base-words : All IsWord (base f)
  base-words = (p.proto_type, (p.name, ((refl, tt), (number-IsWord f.tag, tt))))

  read_tokens :
      (r o : Bool)
      → field_tokens r o (base f)
        ≡ some (record {
          name = to_string f.name;
          proto_type = to_string f.proto_type;
          tag = f.tag;
          repeated = r;
          optional = o;
          is_map = false;
          map_key_type = none;
          map_value_type = none;
        })
  unfolding field_tokens
  read_tokens r o = rw (parse_u32-number f.tag p.tag) refl

  abbrev rest : List Text
  rest = f.name ∷ text "=" ∷ number f.tag ∷ []

  labelled-words : parse_field (spaced (words f) ++ text ";") ≡ some (parsed f)
  unfolding labelled
  labelled-words = elim (Bool-cases f.repeated) [
    | inl r ↦ rw r (
        parse_field-words (text "repeated") f.proto_type rest ((label_words rest base-words.1).0.0)
          p.proto_type (base-words.1)
        ∙ read_tokens true false)
    | inr r ↦ elim (Bool-cases f.optional) [
      | inl o ↦
          rw (r, o)
            (parse_field-words (text "optional") f.proto_type rest
                ((label_words rest base-words.1).1.0) p.proto_type (base-words.1)
              ∙ read_tokens false true)
      | inr o ↦
          rw (r, o)
            (parse_field-words f.proto_type f.name (text "=" ∷ number f.tag ∷ []) p.proto_type
                p.name (base-words.1.1)
              ∙ rw (p.not_repeated, p.not_optional) (read_tokens false false))
    ]
  ]

  line_content : trim (text "  " ++ (spaced (words f) ++ text ";")) ≡ spaced (words f) ++ text ";"
  line_content = elim (Bool-cases f.repeated) [
    | inl r ↦ rw r (indented (text "repeated") (base f) ((label_words (base f) base-words).0))
    | inr r ↦ elim (Bool-cases f.optional) [
      | inl o ↦
          rw (r, o) (indented (text "optional") (base f) ((label_words (base f) base-words).1))
      | inr o ↦ rw (r, o) (indented f.proto_type (f.name ∷ text "=" ∷ number f.tag ∷ []) base-words)
    ]
  ]

  -- Of a field that is no map, whose name and type are words (neither of them `repeated` or `optional`)
  -- and whose tag is a u32, the line that `to_proto_line` writes without a doc comment, trimmed as the
  -- parser of messages has it, is parsed as the field; only `optional` is lost where it is repeated.
  pub parse_field-field_line : parse_field (trim (field_line f)) ≡ some (parsed f)
  parse_field-field_line =
      ap (λ x. parse_field (trim x)) (field_line-words f p.no_map)
      ∙ ap parse_field line_content
      ∙ labelled-words
