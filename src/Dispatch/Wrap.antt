-- ===== src/Dispatch/Wrap.antt =====
-- The answers of grpc_dispatch.rs and grpc_direct.rs: the response of a REST handler as gRPC, errors,
-- and the answers of the built-in services. The feature `grpc-proto-binary` is on.
pub mod Reports
pub mod Payload
use Prim.Native.String.{String}
use typeway.Base.{
  ℕ, zero, suc, Bool, true, false, ◌&&◌, ◌⊎◌, inl, inr, List, [], ◌∷◌, ◌++◌, Option, none, some,
  leb, length, drop, if◌then◌else◌,
}
use typeway.Base.Options.{◌>>=◌}
use typeway.Router.Pattern.{show}
use typeway.Binary.Json.{Json}
use typeway.Grpc.Framing.{encode_grpc_frame}
use typeway.Grpc.Parse.Chars.{is_empty}
use typeway.Grpc.Status.{GrpcCode, ok, as_i32, http_to_grpc_code}
use typeway.Dispatch.Body.{
  ascii, GrpcStatus, Frame, data_frame, trailers_frame, GrpcBody, body_with_status, ok_body,
  error_body,
}
use typeway.Dispatch.Stream.{or_empty}
use typeway.Dispatch.Synthetic.{GrpcMethodDescriptor}

pub data Body : Type 0 where
  -- collected bytes, or a body that fails
  full : Option (List ℕ) → Body
  unary : GrpcBody → Body
  streamed : List Frame → Body

-- The headers that the server sets, and the marker of a `GrpcStream`.
pub record Response : Type 0 where
  pub status : ℕ
  pub content_type : Option String
  pub grpc_status : Option (List ℕ)
  pub grpc_message : Option (List ℕ)
  pub marker : Bool
  pub body : Body

abbrev pub data_bytes : List Frame → List ℕ
data_bytes [] = []
data_bytes (data_frame bytes ∷ fs) = bytes ++ data_bytes fs
data_bytes (trailers_frame t ∷ fs) = data_bytes fs

-- `body.collect().await` and `to_bytes`, which is empty where the body fails: the trailers are left out.
unfoldable pub collect : Body → List ℕ
collect (full bytes) = or_empty bytes
collect (unary b) = or_empty b.payload
collect (streamed fs) = data_bytes fs

-- What a call that can panic comes to.
pub data Attempt (A E : Type 0) : Type 0 where
  got : A → Attempt A E
  failed : E → Attempt A E
  panicked : Attempt A E

-- `ProtoTranscoder` of typeway-grpc/src/transcode.rs, given a method's path; an error is its text. Reading
-- can panic, as `decode_wire_value` can. The calls end, which they do where no message holds itself.
pub record Transcoder (V : Type 0) : Type 0 where
  pub decode_request : List ℕ → List ℕ → Attempt V (List ℕ)
  pub encode_response : List ℕ → V → Option (List ℕ)

abbrev pub is_ok : GrpcCode → Bool
is_ok GrpcCode.ok = true
is_ok _ = false

unfoldable pub grpc_json_response : List ℕ → Response
unfolding encode_grpc_frame
grpc_json_response json_body = record {
  status = 200;
  content_type = some "application/grpc+json";
  grpc_status = some (ascii "0");
  grpc_message = none;
  marker = false;
  body = full (some (encode_grpc_frame json_body));
}

module _ (json : Json) (null : json.Value) (transcoder : Option (Transcoder json.Value))
    (grpc_path : List ℕ) (use_proto_binary : Bool) where
  -- `unwrap_or_default` of a parsed value
  abbrev or_null : Option json.Value → json.Value
  or_null none = null
  or_null (some v) = v

  abbrev pub transcoded : List ℕ → Option (List ℕ)
  transcoded json_bytes =
      transcoder >>= λ tc. tc.encode_response grpc_path (or_null (json.from_slice json_bytes))

  -- The bytes of the message and their content type.
  unfoldable pub encode_response_bytes : List ℕ → List ℕ × String
  encode_response_bytes json_bytes =
      elim (if use_proto_binary then transcoded json_bytes else none) [
        | some proto_bytes ↦ (proto_bytes, "application/grpc+proto")
        | none ↦ (json_bytes, "application/grpc+json")
      ]

  -- The loop over the items of a JSON array.
  unfoldable pub encode_items : List json.Value → List ℕ → String → List ℕ × String
  unfolding encode_response_bytes encode_grpc_frame
  encode_items [] buf ct = (buf, ct)
  encode_items (item ∷ items) buf ct =
      let encoded = encode_response_bytes (or_empty (json.to_vec item)) in
      encode_items items (buf ++ encode_grpc_frame (encoded.0)) (encoded.1)

  unfoldable pub frame_single : List ℕ → List ℕ × String
  unfolding encode_response_bytes encode_grpc_frame
  frame_single bytes =
      let encoded = encode_response_bytes bytes in (encode_grpc_frame (encoded.0), encoded.1)

  unfoldable pub frame_response : Bool → List ℕ → List ℕ × String
  unfolding frame_single encode_items
  frame_response streaming bytes =
      elim (if streaming then (json.from_slice bytes >>= json.as_array) else none) [
        | some items ↦ encode_items items [] "application/grpc+json"
        | none ↦ frame_single bytes
      ]

  unfoldable pub wrap_response_as_grpc :
      (header_value : List ℕ → Bool) → GrpcMethodDescriptor → Response → Response
  unfolding frame_response collect body_with_status http_to_grpc_code
  wrap_response_as_grpc header_value desc rest =
      let code = http_to_grpc_code rest.status in
      let framed = frame_response (desc.server_streaming && is_ok code) (collect rest.body) in
      if rest.marker
      then record rest { status = 200; content_type = some "application/grpc+json" }
      else record {
        status = 200;
        content_type = some (framed.1);
        grpc_status = some (show (as_i32 code));
        grpc_message = none;
        marker = false;
        body = unary (
            body_with_status header_value (framed.0) (record { status_code = code; message = [] }));
      }

module _ (header_value : List ℕ → Bool) where
  unfoldable pub grpc_error_response : GrpcStatus → Response
  unfolding error_body
  grpc_error_response status = record {
    status = 200;
    content_type = some "application/grpc";
    grpc_status = some (show (as_i32 status.status_code));
    grpc_message =
        if is_empty status.message
        then none
        else if header_value status.message
        then some status.message
        else none;
    marker = false;
    body = unary (error_body header_value status);
  }

  -- The response of a direct handler's result.
  unfoldable pub direct_response : List ℕ ⊎ GrpcStatus → Response
  unfolding ok_body error_body encode_grpc_frame
  direct_response (inl bytes) = record {
    status = 200;
    content_type = some "application/grpc+proto";
    grpc_status = some (ascii "0");
    grpc_message = none;
    marker = false;
    body = unary (ok_body header_value (encode_grpc_frame bytes));
  }
  direct_response (inr status) = record {
    status = 200;
    content_type = some "application/grpc+proto";
    grpc_status = some (show (as_i32 status.status_code));
    grpc_message = none;
    marker = false;
    body = unary (error_body header_value status);
  }

  -- The frame's header is cut off unread.
  unfoldable pub dispatch_direct : (List ℕ → List ℕ ⊎ GrpcStatus) → List ℕ → Response
  unfolding direct_response
  dispatch_direct handler body_bytes =
      direct_response
        (handler (if leb 5 (length body_bytes) then drop 5 body_bytes else body_bytes))
