-- ===== src/Binary/RoundTrip.antt =====
-- Messages of scalar fields, written and read back by proto_codec.rs.
pub mod Objects
use Prim.Native.String.{String}
use text.Mathlib.Text.{◌==◌ as ◌=ₛ◌}
use text.Mathlib.TextEquality.{eq_iff}
use text.Mathlib.TextPositions.{eq_refl}
use typeway.Base.{
  ℕ, ◌+◌, ◌-◌, ◌*◌, ◌/◌, ◌%◌, ◌^◌, ◌<◌, ◌≤◌, ◌≡◌, ◌≢◌, ◌⊎◌, inl, inr, refl, sym, ap, subst, ◌∙◌,
  Bool, true, false, not, ◌&&◌, ◌||◌, List, [], ◌∷◌, ◌++◌, Option, some, none, ◌==◌, length, drop,
  drop-append, length-append, find, All, All-append, append-nil, if◌then◌else◌, bit_and, bit_or,
  arith, Bool-cases, Option-cases, ne→==, eq→==,
}
use typeway.Base.Masks.{bit_and_7, bit_or_low}
use typeway.Codec.Varint.{IsByte, IsU64, Varint, Varint-exists, Varint-IsByte, Varint-length_pos}
use typeway.Binary.Fields.{
  ProtoFieldDef, field_def, NestedFields, FieldDefs, nil, cons, wire_type_for, is_one_of,
}
use typeway.Binary.Json.{Json}
use typeway.Binary.Wire.{Result, ok, err, ◌>>=◌, encode_varint, decode_wire_value}
use typeway.Binary.Wire.Varints.{encode_varint-Varint, decode_varint-Varint}
use typeway.Binary.Wire.Extend.{decode_wire_value-append}
use typeway.Binary.Encode.{
  encode_value, encode_nested, encode_member, encode_member_of, encode_fields, json_to_proto_binary,
  is_proto3_default,
}
use typeway.Binary.Decode.{
  FieldReader, Partial, accept, message_loop, start, read_message, readers_of, reader_of,
  read_nested, proto_binary_to_json,
}
use typeway.Binary.Decode.Append.{read_from, reader_for, read_from_round, read_from-append}
use typeway.Binary.Scalars.{Fits, Carries, carries}
use typeway.Binary.RoundTrip.Objects.{
  name_of, tag_of, Unnamed, Unnumbered, Distinct, FitsMember, Describes, kept, Keeps, put, put_all,
  get-put_all, put_all-Keeps, new-Missing,
}

wire_type_bound : (t : String) → wire_type_for t < 8
unfolding wire_type_for
wire_type_bound t = bound _ _ _ _
  where
    bound :
        (a b c d : Bool)
        → (if a then 0 else if b then 1 else if c then 2 else if d then 5 else 2) < 8
    bound a b c d = ground arith

-- The key of a field: its number, and its wire type in the low three bits.
module _ (tag wt : ℕ) (small : tag < 2 ^ 29) (bound : wt < 8) where
  key_lem : bit_or (tag * 2 ^ 3) wt ≡ tag * 8 + wt
  key_lem = bit_or_low 3 tag wt bound

  key_type : bit_and (bit_or (tag * 2 ^ 3) wt) 0x07 ≡ wt
  key_type = rw key_lem (bit_and_7 (tag * 8 + wt) ∙ omega arith)

  key_number : bit_or (tag * 2 ^ 3) wt / 2 ^ 3 % 2 ^ 32 ≡ tag
  key_number = rw key_lem (omega arith)

drop_all : (xs : List ℕ) → drop (length xs) xs ≡ []
drop_all xs = ap (drop (length xs)) (sym (append-nil xs)) ∙ drop-append xs []

module _ (J : Json) where
  find_head :
      (test : FieldReader J → Bool) (f : FieldReader J) (fs : List (FieldReader J))
      → test f ≡ true
      → find test (f ∷ fs) ≡ some f
  find_head test f fs h = rw h refl

  -- The readers give each definition of a list under its number.
  abbrev Finds : List (FieldReader J) → FieldDefs → Type 0
  Finds readers nil = Unit
  Finds readers (cons f fields) =
      (find (λ g. g.tag == tag_of f) readers ≡ some (reader_of J f)) × Finds readers fields

  reader_of-tag : (f : ProtoFieldDef) → (reader_of J f).tag ≡ tag_of f
  unfolding reader_of
  reader_of-tag (field_def name t tag repeated is_map k v nested) = refl

  Finds-cons :
      (readers : List (FieldReader J)) (f : ProtoFieldDef) (fields : FieldDefs)
      → Unnumbered (tag_of f) fields
      → Finds readers fields
      → Finds (reader_of J f ∷ readers) fields
  Finds-cons readers f nil h k = tt
  Finds-cons readers f (cons g fields) (h, hs) (k, ks) =
      (rw (reader_of-tag f, ne→== (tag_of f) (tag_of g) h) k, Finds-cons readers f fields hs ks)

  readers_of-Finds : (fields : FieldDefs) → Distinct fields → Finds (readers_of J fields) fields
  unfolding readers_of
  readers_of-Finds nil h = tt
  readers_of-Finds (cons f fields) (_, unnumbered, h) = (
    find_head (λ g. g.tag == tag_of f) (reader_of J f) (readers_of J fields)
        (eq→== (reader_of J f).tag (tag_of f) (reader_of-tag f)),
    Finds-cons (readers_of J fields) f fields unnumbered (readers_of-Finds fields h),
  )

  abbrev set_map : Partial J → J.Map → Partial J
  set_map p m = record p { map = m }

  -- A written field is read as one round of the loop.
  module _ (readers : List (FieldReader J)) (name t : String) (tag : ℕ) (nested : NestedFields)
      (small : tag < 2 ^ 29) where
    abbrev reader : FieldReader J
    reader = record {
      name = name;
      proto_type = t;
      tag = tag;
      repeated = false;
      nested = read_nested J nested;
    }

    accept_value :
        (v : J.Value) (p : Partial J)
        (c : Carries J (encode_nested J nested) (read_nested J nested) t v)
        → accept J (some reader) c.raw p ≡ ok (set_map p (J.insert name v p.map))
    unfolding accept
    accept_value v p c = rw c.converted refl

    read_value :
        (v : J.Value) (p : Partial J)
        → find (λ g. g.tag == tag) readers ≡ some reader
        → Fits J t v
        → (bytes : List ℕ) × (encode_value J (encode_nested J nested) t tag v ≡ ok bytes)
          × All IsByte bytes
          × (read_from J readers bytes p ≡ ok (set_map p (J.insert name v p.map)))
    unfolding encode_value
    read_value v p found fits =
        let c : Carries J (encode_nested J nested) (read_nested J nested) t v =
          carries J (encode_nested J nested) (read_nested J nested) fits in
        let key : ℕ = bit_or (tag * 2 ^ 3) (wire_type_for t) in
        let bound = wire_type_bound t in
        let key_e = key_lem tag (wire_type_for t) small bound in
        let (ts, enc) = Varint-exists key in
        let key_small : IsU64 key = omega arith in
        let pos = Varint-length_pos enc in
        let got = decode_varint-Varint key ts c.bytes enc key_small c.bytes-IsByte in
        let q : Partial J = set_map p (J.insert name v p.map) in
        let accepted : accept J (reader_for J readers key) c.raw p
            ≡ ok (set_map p (J.insert name v p.map)) =
          ap (λ o. accept J o c.raw p)
            (ap (λ n. find (λ g. g.tag == n) readers) (key_number tag (wire_type_for t) small bound)
              ∙ found)
          ∙ accept_value v p c in
        (
          ts ++ c.bytes,
          rw c.written (rw (encode_varint-Varint key ts enc) refl),
          All-append IsByte ts c.bytes (Varint-IsByte enc) c.bytes-IsByte,
          read_from_round J readers (ts ++ c.bytes) p q (key, length ts) (c.raw, length c.bytes) got
                pos (rw (drop-append ts c.bytes, key_type tag (wire_type_for t) small bound) c.read)
                accepted
              ∙ rw (drop-append ts c.bytes, drop_all c.bytes) (unfold message_loop in refl),
        )

  two_tests :
      (a b : Bool) (x y : Result (List ℕ))
      → (if a then x else if b then x else y) ≡ (if a || b then x else y)
  two_tests true b x y = refl
  two_tests false b x y = refl

  -- What a member adds to the message, and what reading that does to the object.
  abbrev Adds : List (FieldReader J) → Result (List ℕ) → (J.Map → J.Map) → Partial J → Type 0
  Adds readers encoded change p =
      (bytes : List ℕ) × (encoded ≡ ok bytes)
      × All IsByte bytes
      × (read_from J readers bytes p ≡ ok (set_map p (change p.map)))

  add_nothing : (readers : List (FieldReader J)) (p : Partial J) → Adds readers (ok []) (λ r. r) p
  unfolding message_loop
  add_nothing readers p = ([], refl, tt, refl)

  module _ (readers : List (FieldReader J)) (name t : String) (tag : ℕ) (nested : NestedFields)
      (small : tag < 2 ^ 29)
      (found : find (λ g. g.tag == tag) readers ≡ some (reader readers name t tag nested small))
      (p : Partial J) where
    abbrev written : J.Value → Result (List ℕ)
    written v = encode_value J (encode_nested J nested) t tag v

    add_value :
        (v : J.Value) (b : Bool)
        → (b ≡ true) ⊎ Fits J t v
        → Adds readers (if b then ok [] else written v) (put J name (if b then none else some v)) p
    add_value v true h = add_nothing readers p
    add_value v false (inl e) = absurd (false_ne e)
      where
        false_ne : false ≡ true → ⊥
        false_ne q = cc
    add_value v false (inr fits) = read_value readers name t tag nested small v p found fits

    add_member :
        (k vt : Option String) (m : J.Map)
        → FitsMember J (J.get m name) t
        → Adds readers
            (encode_member_of J (field_def name t tag false false k vt nested) m)
            (put J name (kept J t (J.get m name)))
            p
    unfolding encode_member_of
    add_member k vt m h = by_value (J.get m name) h
      where
        by_value :
            (o : Option J.Value)
            → FitsMember J o t
            → Adds readers
                (elim o [
                  | none ↦ ok []
                  | some v ↦ encode_member J t tag false false k vt (encode_nested J nested) v
                ])
                (put J name (kept J t o))
                p
        by_value none h = add_nothing readers p
        by_value (some v) h =
            subst (λ e. Adds readers e (put J name (kept J t (some v))) p)
              (sym (two_tests (J.is_null v) (is_proto3_default J v t) (ok []) (written v)))
              (add_value v (J.is_null v || is_proto3_default J v t) (or_fits h))
          where
            or_fits :
                (J.is_null v ≡ true) ⊎ Fits J t v
                → ((J.is_null v || is_proto3_default J v t) ≡ true) ⊎ Fits J t v
            or_fits (inl e) = inl (rw e refl)
            or_fits (inr f) = inr f

  add_fields :
      (readers : List (FieldReader J)) (fields : FieldDefs) (m : J.Map) (p : Partial J)
      → Finds readers fields
      → Describes J fields m
      → Adds readers (encode_fields J fields m) (put_all J fields m) p
  unfolding encode_fields reader_of
  add_fields readers nil m p found h = add_nothing readers p
  add_fields readers (cons (field_def name t tag repeated is_map k vt nested) fields) m p
        (found, others) (er, em, small, fits, h) =
      let change : J.Map → J.Map = put J name (kept J t (J.get m name)) in
      let p' : Partial J = set_map p (change p.map) in
      let found' : find (λ g. g.tag == tag) readers
          ≡ some (reader readers name t tag nested small) =
        rw found (
          ap
            (λ b. some (record {
              name = name;
              proto_type = t;
              tag = tag;
              repeated = b;
              nested = read_nested J nested;
            }))
            er) in
      let (bytes, e, hb, got) = add_member readers name t tag nested small found' p k vt m fits in
      let (more, e', hm, got') = add_fields readers fields m p' others h in
      (
        bytes ++ more,
        rw (er, em) (rw e (rw e' refl)),
        All-append IsByte bytes more hb hm,
        read_from-append J readers bytes more p p' hb got ∙ got',
      )

  -- An object that has, under distinct names and numbers, scalar values of the declared types (floats
  -- that are finite, and for `float` an f32) is encoded. What is decoded from the bytes has the same
  -- values under the same names and nothing else, but for null and the default of a type (false, zero,
  -- the empty text), which are left out on the way as proto3 has it.
  pub proto_binary_to_json-json_to_proto_binary :
      (fields : FieldDefs) (m : J.Map)
      → Distinct fields
      → Describes J fields m
      → (bytes : List ℕ) × (m' : J.Map) × (json_to_proto_binary J (J.of_object m) fields ≡ ok bytes)
        × (proto_binary_to_json J bytes fields ≡ ok (J.of_object m'))
        × Keeps J fields m m'
        × ((name : String) → Unnamed name fields → J.get m' name ≡ none)
  unfolding json_to_proto_binary proto_binary_to_json
  proto_binary_to_json-json_to_proto_binary fields m distinct h =
      let readers : List (FieldReader J) = readers_of J fields in
      let (bytes, e, hb, got) =
        add_fields readers fields m (start J) (readers_of-Finds fields distinct) h in
      (
        bytes,
        put_all J fields m J.new,
        rw (J.as_object-of_object m, json_to_proto_binary) e,
        unfold read_message in rw got refl,
        put_all-Keeps J fields m J.new distinct h (new-Missing J fields),
        λ name u. get-put_all J fields m J.new name u ∙ J.get-new name,
      )
