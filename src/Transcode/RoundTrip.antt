-- ===== src/Transcode/RoundTrip.antt =====
-- A message that one side encodes by its name, and the other decodes as the request of a method.
use Prim.Native.String.{String}
use text.Mathlib.Text.{◌==◌ as ◌=ₛ◌}
use typeway.Base.{ℕ, ◌≡◌, refl, sym, ap, ◌∙◌, false, List, [], ◌∷◌, none, some}
use typeway.Binary.Fields.{FieldDefs}
use typeway.Binary.Json.{Json}
use typeway.Binary.Wire as Wire
use typeway.Binary.Encode.{json_to_proto_binary}
use typeway.Binary.Decode.{message_loop, read_message, proto_binary_to_json}
use typeway.Binary.RoundTrip.{proto_binary_to_json-json_to_proto_binary}
use typeway.Binary.RoundTrip.Objects.{Unnamed, Distinct, Describes, Keeps}
use typeway.Transcode.{
  GrpcServiceSpec, MethodSpec, ok, empty_type, find_method, message_fields, known_fields,
  decode_request, encode_message,
}

module _ (J : Json) where
  -- An object that has what the other had, up to what proto3 leaves out, and nothing else.
  abbrev pub Agrees : FieldDefs → J.Map → J.Map → Type 0
  Agrees fields m m' =
      Keeps J fields m m' × ((name : String) → Unnamed name fields → J.get m' name ≡ none)

  nothing_read :
      (fields : FieldDefs) → proto_binary_to_json J [] fields ≡ Wire.ok (J.of_object J.new)
  unfolding proto_binary_to_json read_message message_loop
  nothing_read fields = refl

  -- Without bytes, the object that was read is the empty one.
  read_nothing :
      (fields : FieldDefs) (m : J.Map)
      → proto_binary_to_json J [] fields ≡ Wire.ok (J.of_object m)
      → m ≡ J.new
  read_nothing fields m e =
      let same : J.of_object m ≡ J.of_object J.new = injective (sym e ∙ nothing_read fields) in
      unwrap (sym (J.as_object-of_object m) ∙ ap J.as_object same ∙ J.as_object-of_object J.new)
    where
      injective : {a b : J.Value} → Wire.ok a ≡ Wire.ok b → a ≡ b
      injective q = cc

      unwrap : {a b : J.Map} → some a ≡ some b → a ≡ b
      unwrap q = cc

  module _ (fuel : ℕ) (spec : GrpcServiceSpec) (path : String) (method : MethodSpec)
      (fields : FieldDefs) (found : find_method spec path ≡ some method)
      (kind : (method.request_type =ₛ empty_type) ≡ false)
      (known : message_fields fuel spec method.request_type ≡ some (some fields)) where
    known_ok : known_fields fuel spec method.request_type ≡ ok fields
    unfolding known_fields
    known_ok = rw (known, known_fields) refl

    decode_request_lem :
        (bytes : List ℕ) (m : J.Map)
        → proto_binary_to_json J bytes fields ≡ Wire.ok (J.of_object m)
        → decode_request J fuel spec path bytes ≡ ok (J.of_object m)
    unfolding decode_request
    decode_request_lem [] m e =
        rw (found, kind) (ap (λ r. ok (J.of_object r)) (sym (read_nothing fields m e)))
    decode_request_lem (b ∷ bytes) m e = rw (found, kind, known_ok, e) refl

    encode_message_lem :
        (v : J.Value) (bytes : List ℕ)
        → json_to_proto_binary J v fields ≡ Wire.ok bytes
        → encode_message J fuel spec method.request_type v ≡ ok bytes
    unfolding encode_message
    encode_message_lem v bytes e = rw (kind, known_ok, e) refl

    -- For a method whose request is a message of scalar fields, its description found with this fuel,
    -- an object that fits the message is encoded under the message's name. Decoded from the method's
    -- path it has the same values and nothing else, but for null and the defaults of the types.
    pub decode_request-encode_message :
        (m : J.Map)
        → Distinct fields
        → Describes J fields m
        → (bytes : List ℕ) × (m' : J.Map) × (encode_message J fuel spec method.request_type
              (J.of_object m)
            ≡ ok bytes)
          × (decode_request J fuel spec path bytes ≡ ok (J.of_object m'))
          × Agrees fields m m'
    decode_request-encode_message m distinct h =
        let (bytes, m', e, e', keeps, others) =
          proto_binary_to_json-json_to_proto_binary J fields m distinct h in
        (
          bytes,
          m',
          encode_message_lem (J.of_object m) bytes e,
          decode_request_lem bytes m' e',
          (keeps, others),
        )
