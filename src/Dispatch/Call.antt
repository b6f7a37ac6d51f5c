-- ===== src/Dispatch/Call.antt =====
-- `GrpcMultiplexer::call` of grpc_dispatch.rs.
pub mod Answers
pub mod Codes
pub mod Runs
use Prim.Native.String.{String}
use typeway.Base.{
  ℕ, zero, suc, Bool, true, false, not, ◌&&◌, ◌⊎◌, inl, inr, List, [], ◌∷◌, ◌++◌, map, Option, none,
  some, find, ltb, if◌then◌else◌,
}
use typeway.Base.Options.{◌>>=◌}
use typeway.Binary.Json.{Json}
use typeway.Router.Pattern.{bytes_eq}
use typeway.Router.Method.{Method}
use typeway.Router.Table.{is_some}
use typeway.Grpc.Framing as Framing
use typeway.Grpc.Framing.{decode_grpc_frame}
use typeway.Grpc.Parse.Chars.{is_empty}
use typeway.Grpc.Status.{invalid_argument, deadline_exceeded, unimplemented}
use typeway.Grpc.Timeout as Timeout
use typeway.Grpc.Timeout.{parse_grpc_timeout}
use typeway.Transcode.{grpc_content_type, is_proto_binary_content_type}
use typeway.Dispatch.Body.{ascii, GrpcStatus}
use typeway.Dispatch.Stream.{or_empty}
use typeway.Dispatch.Health.{
  HealthService, handle_health, is_health_path, is_reflection_path, prefix_of,
}
use typeway.Dispatch.Reflection.{ReflectionService, handle_reflection}
use typeway.Dispatch.Synthetic.{
  Http, Headers, Parts, GrpcMethodDescriptor, placeholder_count, build_synthetic_request,
  build_synthetic_request_raw,
}
use typeway.Dispatch.Wrap.{
  Body, full, Response, Attempt, got, failed, panicked, Transcoder, grpc_json_response,
  wrap_response_as_grpc, grpc_error_response, dispatch_direct,
}
use typeway.Dispatch.Router.{
  Future, Handler, GrpcMiddleware, GrpcRouteEntry, standard, direct, GrpcRouter, lookup_path,
  run_middleware,
}

-- A call returns a response, or panics.
pub data Outcome : Type 0 where
  panics : Outcome
  returns : Response → Outcome

-- `is_grpc_request` of typeway-grpc/src/multiplex.rs
unfoldable pub is_grpc_request : Headers → Bool
is_grpc_request headers = elim (headers.content_type) [
  | some (some ct) ↦ prefix_of (ascii "application/grpc") (ascii ct)
  | some none ↦ false
  | none ↦ false
]

module _ (W : Http) where
  -- What the server needs of `serde_json` and the http crate, and its parts.
  pub record Server (json : Json) : Type 0 where
    pub null : json.Value
    pub display : json.Value → List ℕ
    pub json_error : List ℕ → List ℕ
    pub header_value : List ℕ → Bool
    pub path_of : W.Uri → List ℕ
    pub reflection : ReflectionService
    pub rest : Parts W → Option (List ℕ) → Response
    pub grpc_router : GrpcRouter W
    pub health : HealthService
    pub reflection_enabled : Bool
    pub grpc_spec_json : Option (List ℕ)
    pub grpc_docs_html : Option (List ℕ)
    pub transcoder : Option (Transcoder json.Value)

  module _ (json : Json) (s : Server json) where
    abbrev pub error : GrpcStatus → Response
    error = grpc_error_response s.header_value

    -- `JsonCodec::decode` of typeway-grpc/src/codec.rs
    unfoldable pub json_decode : List ℕ → Option json.Value
    json_decode [] = some (json.of_object json.new)
    json_decode (b ∷ bytes) = json.from_slice (b ∷ bytes)

    -- A message below its frame, or what came where that is no frame.
    unfoldable pub unframe : List ℕ → List ℕ
    unframe body_bytes = elim (decode_grpc_frame body_bytes) [
      | Framing.ok message ↦ message
      | Framing.err e ↦ body_bytes
    ]

    abbrev pub failed_to : String → List ℕ → GrpcStatus
    failed_to what e = record { status_code = invalid_argument; message = ascii what ++ e }

    -- The message of a request that a transcoder is used for, or of a JSON request.
    unfoldable pub decode_message :
        Option (Transcoder json.Value) → List ℕ → List ℕ → Attempt json.Value GrpcStatus
    unfolding json_decode
    decode_message (some tc) path unframed = elim (tc.decode_request path unframed) [
      | got message ↦ got message
      | failed e ↦ failed (failed_to "failed to decode binary protobuf: " e)
      | panicked ↦ panicked
    ]
    decode_message none path unframed = elim (json_decode unframed) [
      | some message ↦ got message
      | none ↦ failed (failed_to "failed to decode request: " (s.json_error unframed))
    ]

    -- The transcoder, for a request in binary.
    unfoldable pub binary_transcoder : Headers → Option (Transcoder json.Value)
    binary_transcoder headers =
        if is_proto_binary_content_type (grpc_content_type headers.content_type)
        then s.transcoder
        else none

    -- The parts and the body for the handler.
    unfoldable pub synthesize :
        Parts W → GrpcMethodDescriptor → List ℕ → List ℕ → Attempt (Parts W × List ℕ) GrpcStatus
    unfolding decode_message binary_transcoder build_synthetic_request build_synthetic_request_raw
    synthesize parts desc path unframed =
        let injector = s.grpc_router.state_injector in
        let raw = build_synthetic_request_raw json s.display W parts injector in
        let binary = binary_transcoder parts.headers in
        if is_some binary && not (ltb 0 (placeholder_count desc.rest_path))
        then got (
          record raw {
            headers = record raw.headers { content_type = some (some "application/grpc+proto") };
          },
          unframed,
        )
        else (elim (decode_message binary path unframed) [
          | got message ↦ got (build_synthetic_request json s.display W parts desc message injector)
          | failed status ↦ failed status
          | panicked ↦ panicked
        ])

    unfoldable pub deadline_exceeded_status : GrpcStatus
    deadline_exceeded_status = record {
      status_code = deadline_exceeded;
      message = ascii "deadline exceeded";
    }

    -- The handler, with the timeout of the request if there is one.
    unfoldable pub run_handler : Option ℕ → Future → GrpcMethodDescriptor → List ℕ → Bool → Response
    unfolding deadline_exceeded_status wrap_response_as_grpc
    run_handler timeout future desc path use_binary =
        let wrapped =
          wrap_response_as_grpc json s.null s.transcoder path use_binary s.header_value desc
            future.response in
        elim timeout [
          | some t ↦ if future.within t then wrapped else error deadline_exceeded_status
          | none ↦ wrapped
        ]

    -- `and_then(parse_grpc_timeout)` on the header's text
    abbrev pub timeout_of : Option (Option (List ℕ)) → Timeout.Outcome
    timeout_of (some (some t)) = parse_grpc_timeout t
    timeout_of (some none) = Timeout.returns none
    timeout_of none = Timeout.returns none

    unfoldable pub call_standard :
        Handler W
        → GrpcMethodDescriptor
        → List (GrpcMiddleware W)
        → Option ℕ
        → Parts W
        → List ℕ
        → List ℕ
        → Outcome
    unfolding synthesize run_middleware run_handler unframe
    call_standard handler desc middleware timeout parts path body_bytes =
        elim (synthesize parts desc path (unframe body_bytes)) [
          | failed status ↦ returns (error status)
          | panicked ↦ panics
          | got (synthetic, body) ↦ returns (elim (run_middleware W middleware synthetic body) [
            | inr response ↦ response
            | inl (parts', body') ↦
                run_handler timeout (handler parts' body') desc path
                  (is_some (binary_transcoder parts.headers))
          ])
        ]

    unfoldable pub not_found_status : List ℕ → GrpcStatus
    not_found_status path = record {
      status_code = unimplemented;
      message = ascii "method '" ++ path ++ ascii "' not found in service";
    }

    unfoldable pub call_entry :
        Option (GrpcRouteEntry W) → Parts W → List ℕ → Option (List ℕ) → Outcome
    unfolding call_standard not_found_status dispatch_direct
    call_entry none parts path body = returns (error (not_found_status path))
    call_entry (some (direct handler)) parts path body =
        returns (dispatch_direct s.header_value handler (or_empty body))
    call_entry (some (standard handler desc middleware)) parts path body =
        elim (timeout_of parts.headers.grpc_timeout) [
          | Timeout.panics ↦ panics
          | Timeout.returns timeout ↦
              call_standard handler desc middleware timeout parts path (or_empty body)
        ]

    -- The branch for gRPC requests.
    unfoldable pub call_grpc : Parts W → Option (List ℕ) → Outcome
    unfolding handle_health handle_reflection call_entry lookup_path is_health_path
        is_reflection_path unframe
    call_grpc parts body =
        let path = s.path_of parts.uri in
        if is_health_path path
        then returns (grpc_json_response (handle_health s.health))
        else if s.reflection_enabled && is_reflection_path path
        then returns (grpc_json_response (handle_reflection s.reflection (unframe (or_empty body))))
        else call_entry (lookup_path W path s.grpc_router.handlers) parts path body

    -- The documents are served to GET requests for their paths, where there are any.
    abbrev is_get : Method → Bool
    is_get Method.get = true
    is_get _ = false

    unfoldable pub document : Parts W → Option (List ℕ × String)
    document parts =
        let path = s.path_of parts.uri in
        if is_get parts.method && bytes_eq path (ascii "/grpc-spec")
        then (s.grpc_spec_json >>= λ spec. some (spec, "application/json; charset=utf-8"))
        else if is_get parts.method && bytes_eq path (ascii "/grpc-docs")
        then (s.grpc_docs_html >>= λ html. some (html, "text/html; charset=utf-8"))
        else none

    unfoldable pub call : Parts W → Option (List ℕ) → Outcome
    unfolding document call_grpc is_grpc_request
    call parts body = elim (document parts) [
      | some (bytes, content_type) ↦ returns (record {
        status = 200;
        content_type = some content_type;
        grpc_status = none;
        grpc_message = none;
        marker = false;
        body = full (some bytes);
      })
      | none ↦
          if is_grpc_request parts.headers
          then call_grpc parts body
          else returns (s.rest parts body)
    ]
