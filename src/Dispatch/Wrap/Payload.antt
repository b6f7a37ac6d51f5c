-- ===== src/Dispatch/Wrap/Payload.antt =====
-- What a client reads from the body of a wrapped response.
use Prim.Native.String.{String}
use typeway.Base.{
  ℕ, ◌≡◌, refl, sym, ap, ◌∙◌, Bool, true, false, ◌&&◌, List, [], ◌∷◌, ◌++◌, map, Option, none, some,
  length, append_assoc, append-nil, All, if◌then◌else◌,
}
use typeway.Base.Options.{◌>>=◌}
use typeway.Binary.Json.{Json}
use typeway.Grpc.Status.{http_to_grpc_code}
use typeway.Grpc.Framing.{encode_grpc_frame, decode_grpc_frames}
use typeway.Grpc.Framing.RoundTrip.{IsU32, encode_all, decode_grpc_frames-encode_all}
use typeway.Dispatch.Stream.{or_empty}
use typeway.Dispatch.Synthetic.{GrpcMethodDescriptor}
use typeway.Dispatch.Wrap.{
  collect, Response, Transcoder, is_ok, encode_response_bytes, encode_items, frame_single,
  frame_response, wrap_response_as_grpc,
}

module _ (json : Json) (null : json.Value) (transcoder : Option (Transcoder json.Value))
    (grpc_path : List ℕ) (use_proto_binary : Bool) where
  -- What the bytes of a JSON value stand for: null where they are no JSON.
  abbrev pub value_of : List ℕ → json.Value
  value_of bytes = elim (json.from_slice bytes) [ some v ↦ v | none ↦ null ]

  -- The value in binary, where the client asks for that, and there is a transcoder that can write it.
  abbrev pub in_binary : Bool → Option (Transcoder json.Value) → json.Value → Option (List ℕ)
  in_binary true (some tc) v = tc.encode_response grpc_path v
  in_binary _ _ v = none

  -- The message that the bytes of a JSON value are sent as: the value in binary, or else the bytes.
  abbrev pub message_of : List ℕ → List ℕ
  message_of bytes = elim (in_binary use_proto_binary transcoder (value_of bytes)) [
    | some message ↦ message
    | none ↦ bytes
  ]

  encode_response_bytes-message_of :
      (bytes : List ℕ)
      → (encode_response_bytes json null transcoder grpc_path use_proto_binary bytes).0
        ≡ message_of bytes
  unfolding encode_response_bytes
  encode_response_bytes-message_of bytes =
      by_transcoder use_proto_binary transcoder (json.from_slice bytes)
    where
      shown : Bool → Option (Transcoder json.Value) → Option json.Value → Option (List ℕ)
      shown b tc o =
          if b
          then (tc >>= λ t. t.encode_response grpc_path (elim o [ some v ↦ v | none ↦ null ]))
          else none

      first :
          (o : Option (List ℕ))
          → (elim o as (λ _. List ℕ × String) [
            | some m ↦ (m, "application/grpc+proto")
            | none ↦ (bytes, "application/grpc+json")
          ]).0
            ≡ elim o [ some m ↦ m | none ↦ bytes ]
      first none = refl
      first (some m) = refl

      by_transcoder :
          (b : Bool) (tc : Option (Transcoder json.Value)) (o : Option json.Value)
          → (elim (shown b tc o) as (λ _. List ℕ × String) [
            | some m ↦ (m, "application/grpc+proto")
            | none ↦ (bytes, "application/grpc+json")
          ]).0
            ≡ elim (in_binary b tc (elim o [ some v ↦ v | none ↦ null ])) [
              | some m ↦ m
              | none ↦ bytes
            ]
      by_transcoder true none o = refl
      by_transcoder false tc o = refl
      by_transcoder true (some t) none = first (t.encode_response grpc_path null)
      by_transcoder true (some t) (some v) = first (t.encode_response grpc_path v)

  abbrev pub message_of_item : json.Value → List ℕ
  message_of_item item = message_of (or_empty (json.to_vec item))

  -- One message for each item of an array that is streamed, and else one message.
  abbrev messages_of : Option (List json.Value) → List ℕ → List (List ℕ)
  messages_of none bytes = message_of bytes ∷ []
  messages_of (some items) bytes = map message_of_item items

  abbrev pub messages : Bool → List ℕ → List (List ℕ)
  messages streaming bytes =
      messages_of (if streaming then (json.from_slice bytes >>= json.as_array) else none) bytes

  encode_items-encode_all :
      (items : List json.Value) (buf : List ℕ) (ct : String)
      → (encode_items json null transcoder grpc_path use_proto_binary items buf ct).0
        ≡ buf ++ encode_all (map message_of_item items)
  unfolding encode_items
  encode_items-encode_all [] buf ct = sym (append-nil buf)
  encode_items-encode_all (item ∷ items) buf ct =
      encode_items-encode_all items _ _
      ∙ ap (λ (m : List ℕ). (buf ++ encode_grpc_frame m) ++ encode_all (map message_of_item items))
          (encode_response_bytes-message_of (or_empty (json.to_vec item)))
      ∙ append_assoc buf (encode_grpc_frame (message_of_item item))
          (encode_all (map message_of_item items))

  framed_parts :
      (o : Option (List json.Value)) (bytes : List ℕ)
      → (elim o as (λ _. List ℕ × String) [
        | some items ↦
            encode_items json null transcoder grpc_path use_proto_binary items []
              "application/grpc+json"
        | none ↦ frame_single json null transcoder grpc_path use_proto_binary bytes
      ]).0
        ≡ encode_all (messages_of o bytes)
  unfolding frame_single
  framed_parts none bytes =
      ap encode_grpc_frame (encode_response_bytes-message_of bytes)
      ∙ sym (append-nil (encode_grpc_frame (message_of bytes)))
  framed_parts (some items) bytes = encode_items-encode_all items [] "application/grpc+json"

  -- The client of an unmarked response reads back exactly the messages, each in a frame of its own: for
  -- a successful response of a streaming method whose body is a JSON array one for each item, and
  -- else one. A message is the value in binary where the request was, and there is a transcoder that
  -- writes it (null where the body is no JSON), and else the bytes of the JSON. Each is below 4 GiB.
  pub decode_grpc_frames-wrap_response_as_grpc :
      (header_value : List ℕ → Bool) (desc : GrpcMethodDescriptor) (rest : Response)
      → rest.marker ≡ false
      → All
          (λ m. IsU32 (length m))
          (messages
            (desc.server_streaming && is_ok (http_to_grpc_code rest.status))
            (collect rest.body))
      → decode_grpc_frames (
          collect (
            (wrap_response_as_grpc json null transcoder grpc_path use_proto_binary header_value desc
              rest).body))
        ≡ some (record {
          frames =
              messages
                (desc.server_streaming && is_ok (http_to_grpc_code rest.status))
                (collect rest.body);
          trailers = none;
        })
  unfolding wrap_response_as_grpc frame_response
  decode_grpc_frames-wrap_response_as_grpc header_value desc rest e small =
      let bytes = collect rest.body in
      let streaming = desc.server_streaming && is_ok (http_to_grpc_code rest.status) in
      rw e (
        ap decode_grpc_frames (
          framed_parts (if streaming then (json.from_slice bytes >>= json.as_array) else none)
            bytes)
        ∙ decode_grpc_frames-encode_all (messages streaming bytes) small)
