-- ===== src/Binary/Decode/Total.antt =====
-- The loops of proto_codec.rs end: `proto_binary_to_json` returns on every input.
use Prim.Native.String.{String}
use text.Mathlib.Text.{◌==◌ as ◌=ₛ◌}
use typeway.Base.{
  ℕ, zero, suc, ◌/◌, ◌%◌, ◌^◌, ◌<◌, ◌≤◌, ◌≢◌, Bool, true, false, ◌&&◌, List, [], ◌∷◌, ◌++◌, Option,
  none, some, ltb, ◌==◌, length, drop, length-drop, find, All, if◌then◌else◌, bit_and, arith,
}
use typeway.Grpc.Message.Utf8.{is_utf8}
use typeway.Binary.Fields.{
  ProtoFieldDef, field_def, NestedFields, absent, present, FieldDefs, nil, cons, is_one_of,
  varint_types, fixed32_types, fixed64_types, is_packable_type,
}
use typeway.Binary.Json.{Json}
use typeway.Binary.Wire.{
  Result, ok, err, panics, out_of_fuel, decode_varint, WireValue, varint, fixed64, length_delimited,
  fixed32, decode_wire_value,
}
use typeway.Binary.Wire.Ensures.{
  Finishes, Reads, Ensures-bind, Ensures-if, decode_varint-Reads, decode_wire_value-Finishes,
}
use typeway.Binary.Decode.{
  wire_value_to_json, json_or_base64, unpack_one, unpack_loop, unpack_scalars, FieldReader, Partial,
  is_length_delimited, payload, accept, message_loop, start, read_message, readers_of, reader_of,
  read_nested, proto_binary_to_json,
}

-- What is left behind a part of one byte at least takes less rounds.
pub shorter {ℓ} :
    {A : Type ℓ} (x : A) (xs : List A) (n k : ℕ)
    → 0 < n
    → length (x ∷ xs) ≤ suc k
    → length (drop n (x ∷ xs)) ≤ k
shorter x xs n k h e = omega (arith, length-drop n (x ∷ xs))

pub no_longer {ℓ} : {A : Type ℓ} (xs : List A) (n k : ℕ) → length xs ≤ k → length (drop n xs) ≤ k
no_longer xs n k h = omega (arith, length-drop n xs)

module _ (J : Json) where
  abbrev pub IsTotal : (List ℕ → Result J.Value) → Type 0
  IsTotal nested = (bytes : List ℕ) → Finishes (nested bytes)

  pub wire_value_to_json-Finishes :
      (nested : List ℕ → Result J.Value) (wv : WireValue) (t : String)
      → IsTotal nested
      → Finishes (wire_value_to_json J nested wv t)
  unfolding wire_value_to_json
  wire_value_to_json-Finishes nested (varint v) t h =
      Ensures-if (is_one_of ("uint32" ∷ "uint64" ∷ []) t) _ _ _ tt (
        Ensures-if (t =ₛ "int32") _ _ _ tt (
          Ensures-if (t =ₛ "int64") _ _ _ tt (
            Ensures-if (t =ₛ "sint32") _ _ _ tt (
              Ensures-if (t =ₛ "sint64") _ _ _ tt
                (Ensures-if (t =ₛ "bool") _ _ _ tt (Ensures-if (t =ₛ "enum") _ _ _ tt tt))))))
  wire_value_to_json-Finishes nested (fixed64 bytes) t h =
      Ensures-if (t =ₛ "double") _ _ _ tt
        (Ensures-if (t =ₛ "fixed64") _ _ _ tt (Ensures-if (t =ₛ "sfixed64") _ _ _ tt tt))
  wire_value_to_json-Finishes nested (fixed32 bytes) t h =
      Ensures-if (t =ₛ "float") _ _ _ tt
        (Ensures-if (t =ₛ "fixed32") _ _ _ tt (Ensures-if (t =ₛ "sfixed32") _ _ _ tt tt))
  wire_value_to_json-Finishes nested (length_delimited bytes) t h =
      Ensures-if (t =ₛ "string") _ _ _ (Ensures-if (is_utf8 bytes) _ _ _ tt tt)
        (Ensures-if (t =ₛ "bytes") _ _ _ tt (h bytes))

  json_or_base64-IsTotal : IsTotal (json_or_base64 J)
  unfolding json_or_base64
  json_or_base64-IsTotal bytes = tt

  unpack_one-Reads : (t : String) (bytes : List ℕ) → Reads (unpack_one J t bytes) 0
  unfolding unpack_one
  unpack_one-Reads t bytes =
      Ensures-if (is_one_of varint_types t) _ _ _
        (Ensures-bind (decode_varint bytes) _ _ _ (decode_varint-Reads bytes) (λ r h. h))
        (Ensures-if (is_one_of fixed32_types t) _ _ _
          (Ensures-if (ltb (length bytes) 4) _ _ _ tt (omega arith))
          (Ensures-if (is_one_of fixed64_types t) _ _ _
            (Ensures-if (ltb (length bytes) 8) _ _ _ tt (omega arith)) tt))

  unpack_loop-Finishes :
      (fuel : ℕ) (t : String) (bytes : List ℕ) (results : List J.Value)
      → length bytes ≤ fuel
      → Finishes (unpack_loop J fuel t bytes results)
  unfolding unpack_loop
  unpack_loop-Finishes fuel t [] results h = tt
  unpack_loop-Finishes zero t (b ∷ bytes) results h = absurd (omega arith)
  unpack_loop-Finishes (suc fuel) t (b ∷ bytes) results h =
      Ensures-bind (unpack_one J t (b ∷ bytes)) _ _ _ (unpack_one-Reads t (b ∷ bytes)) (λ r pos.
        Ensures-bind (wire_value_to_json J (json_or_base64 J) r.0 t) _ _ _
          (wire_value_to_json-Finishes (json_or_base64 J) r.0 t json_or_base64-IsTotal)
          (λ v _.
            unpack_loop-Finishes fuel t (drop r.1 (b ∷ bytes)) (results ++ v ∷ [])
              (shorter b bytes r.1 fuel pos h)))

  abbrev pub AllTotal : List (FieldReader J) → Type 0
  AllTotal = All (λ f. IsTotal f.nested)

  abbrev FoundTotal : Option (FieldReader J) → Type 0
  FoundTotal none = Unit
  FoundTotal (some f) = IsTotal f.nested

  find-total :
      (p : FieldReader J → Bool) (readers : List (FieldReader J))
      → AllTotal readers
      → FoundTotal (find p readers)
  find-total p [] h = tt
  find-total p (f ∷ readers) (h, hs) = pick (p f) (find-total p readers hs)
    where
      pick :
          (b : Bool)
          → FoundTotal (find p readers)
          → FoundTotal (if b then some f else find p readers)
      pick true k = h
      pick false k = k

  accept-Finishes :
      (o : Option (FieldReader J)) (wv : WireValue) (p : Partial J)
      → FoundTotal o
      → Finishes (accept J o wv p)
  unfolding accept
  accept-Finishes none wv p h = tt
  accept-Finishes (some f) wv p h =
      Ensures-if (f.repeated && is_length_delimited J wv && is_packable_type f.proto_type) _ _ _
        (Ensures-bind (unpack_scalars J (payload J wv) f.proto_type) _ _ _
          (unpack_loop-Finishes (length (payload J wv)) f.proto_type (payload J wv) []
            (omega arith))
          (λ v _. tt))
        (Ensures-bind (wire_value_to_json J f.nested wv f.proto_type) _ _ _
          (wire_value_to_json-Finishes f.nested wv f.proto_type h) (λ v _. tt))

  message_loop-Finishes :
      (fuel : ℕ) (readers : List (FieldReader J)) (bytes : List ℕ) (p : Partial J)
      → AllTotal readers
      → length bytes ≤ fuel
      → Finishes (message_loop J fuel readers bytes p)
  unfolding message_loop
  message_loop-Finishes fuel readers [] p ht h = tt
  message_loop-Finishes zero readers (b ∷ bytes) p ht h = absurd (omega arith)
  message_loop-Finishes (suc fuel) readers (b ∷ bytes) p ht h =
      Ensures-bind (decode_varint (b ∷ bytes)) _ _ _ (decode_varint-Reads (b ∷ bytes)) (λ t pos.
        let rest = drop t.1 (b ∷ bytes) in
        Ensures-bind (decode_wire_value rest (bit_and t.0 0x07)) _ _ _
          (decode_wire_value-Finishes rest (bit_and t.0 0x07))
          (λ w _.
            let test : FieldReader J → Bool = λ f. f.tag == t.0 / 2 ^ 3 % 2 ^ 32 in
            Ensures-bind (accept J (find test readers) w.0 p) _ _ _
              (accept-Finishes (find test readers) w.0 p (find-total test readers ht))
              (λ p' _.
                message_loop-Finishes fuel readers (drop w.1 rest) p' ht
                  (no_longer rest w.1 fuel (shorter b bytes t.1 fuel pos h)))))

  read_message-Finishes :
      (readers : List (FieldReader J)) (bytes : List ℕ)
      → AllTotal readers
      → Finishes (read_message J readers bytes)
  unfolding read_message
  read_message-Finishes readers bytes h =
      Ensures-bind (message_loop J (length bytes) readers bytes (start J)) _ _ _
        (message_loop-Finishes (length bytes) readers bytes (start J) h (omega arith)) (λ p _. tt)

  mutual
    unfolding readers_of read_nested

    pub readers_of-AllTotal : (fields : FieldDefs) → AllTotal (readers_of J fields)
    readers_of-AllTotal nil = tt
    readers_of-AllTotal (cons f fields) = (reader_of-IsTotal f, readers_of-AllTotal fields)

    reader_of-IsTotal : (f : ProtoFieldDef) → IsTotal (reader_of J f).nested
    reader_of-IsTotal (field_def name t tag repeated is_map k v nested) = read_nested-IsTotal nested

    read_nested-IsTotal : (nested : NestedFields) → IsTotal (read_nested J nested)
    read_nested-IsTotal absent bytes = json_or_base64-IsTotal bytes
    read_nested-IsTotal (present fields) bytes =
        read_message-Finishes (readers_of J fields) bytes (readers_of-AllTotal fields)

  finishes_lem : {A : Type 0} (r : Result A) → Finishes r → r ≢ out_of_fuel
  finishes_lem (ok a) h e = cc
  finishes_lem (err c) h e = cc
  finishes_lem panics h e = cc
  finishes_lem out_of_fuel h e = elim h [ ]

  -- On any bytes and any definitions, nested ones included, `proto_binary_to_json` returns a value or
  -- an error, or panics: no loop of it runs on for ever.
  pub proto_binary_to_json-total :
      (bytes : List ℕ) (fields : FieldDefs) → proto_binary_to_json J bytes fields ≢ out_of_fuel
  unfolding proto_binary_to_json
  proto_binary_to_json-total bytes fields =
      finishes_lem _
        (read_message-Finishes (readers_of J fields) bytes (readers_of-AllTotal fields))
