-- ===== src/Dispatch/Call/Codes.antt =====
-- The codes of the answers for the methods of the application.
use typeway.Base.{
  if◌then◌else◌, Bool-cases, ℕ, ◌≡◌, refl, subst, inl, inr, ◌⊎◌, Bool, true, List, [], ◌∷◌, Option,
  none, some, ltb, Bool-cases, Option-cases,
}
use typeway.Binary.Json.{Json}
use typeway.Grpc.Status.{GrpcCode, invalid_argument, deadline_exceeded, http_to_grpc_code}
use typeway.Dispatch.Body.{GrpcStatus}
use typeway.Dispatch.Synthetic.{Http, Parts, GrpcMethodDescriptor, placeholder_count}
use typeway.Dispatch.Wrap.{
  Attempt, got, failed, panicked, wrap_response_as_grpc, Response, Transcoder, grpc_error_response,
}
use typeway.Dispatch.Wrap.Reports.{
  Reports, grpc_error_response-Reports, wrap_response_as_grpc-Reports,
}
use typeway.Router.Table.{is_some}
use typeway.Dispatch.Router.{Future, Handler, GrpcMiddleware, run_middleware}
use typeway.Dispatch.Call.Runs.{Runs, run_middleware-Runs}
use typeway.Dispatch.Call.{
  Outcome, panics, returns, failed_to, Server, synthesize, decode_message, json_decode,
  binary_transcoder, run_handler, call_standard, unframe, deadline_exceeded_status,
}

-- What a handler is answered with: a code, or its stream.
pub data Expected : Type 0 where
  reports : GrpcCode → Expected
  streams : Response → Expected

abbrev pub AsExpected : Expected → Response → Type 0
AsExpected (reports code) r = Reports code r
AsExpected (streams rest) r =
    (rest.marker ≡ true)
    × (r ≡ record rest { status = 200; content_type = some "application/grpc+json" })

-- A request without a timeout waits for its handler.
abbrev pub in_time : Option ℕ → Future → Bool
in_time none future = true
in_time (some t) future = future.within t

unfoldable pub handler_expected : Option ℕ → Future → Expected
handler_expected timeout future =
    if in_time timeout future
    then (if future.response.marker
        then streams future.response
        else reports (http_to_grpc_code future.response.status))
    else reports deadline_exceeded

module _ (W : Http) (json : Json) (s : Server W json) where
  module _ (desc : GrpcMethodDescriptor) (parts : Parts W) (path unframed : List ℕ) where
    -- The message of a request cannot be read: the transcoder refuses it, or it is no JSON.
    pub data Unread : Type 0 where
      no_binary :
          (tc : Transcoder json.Value) (e : List ℕ)
          → binary_transcoder W json s parts.headers ≡ some tc
          → ltb 0 (placeholder_count desc.rest_path) ≡ true
          → tc.decode_request path unframed ≡ failed e
          → Unread
      no_json :
          (b : ℕ) (bytes : List ℕ)
          → binary_transcoder W json s parts.headers ≡ none
          → unframed ≡ b ∷ bytes
          → json.from_slice (b ∷ bytes) ≡ none
          → Unread

    -- The transcoder panics.
    pub data Crashed : Type 0 where
      crashed :
          (tc : Transcoder json.Value)
          → binary_transcoder W json s parts.headers ≡ some tc
          → tc.decode_request path unframed ≡ panicked
          → Crashed

    -- Why no request is made for the handler.
    abbrev Made : Attempt (Parts W × List ℕ) GrpcStatus → Type 0
    Made (got made) = Unit
    Made (failed status) = Unread × (status.status_code ≡ invalid_argument)
    Made panicked = Crashed

    Read : Attempt json.Value GrpcStatus → Type 0
    Read (got message) = Unit
    Read (failed status) = Unread × (status.status_code ≡ invalid_argument)
    Read panicked = Crashed

    json_decode-Read :
        binary_transcoder W json s parts.headers ≡ none
        → Read (decode_message W json s none path unframed)
    unfolding decode_message json_decode Read
    json_decode-Read none_e = by_bytes unframed refl
      where
        by_parsed :
            (b : ℕ) (bytes : List ℕ) (o : Option json.Value)
            → unframed ≡ b ∷ bytes
            → json.from_slice (b ∷ bytes) ≡ o
            → Read (elim o as (λ _. Attempt json.Value GrpcStatus) [
              | some message ↦ got message
              | none ↦
                  failed
                    (failed_to W json s "failed to decode request: " (s.json_error (b ∷ bytes)))
            ])
        by_parsed b bytes none u e = (no_json b bytes none_e u e, refl)
        by_parsed b bytes (some m) u e = tt

        by_bytes :
            (bytes : List ℕ) → unframed ≡ bytes → Read (decode_message W json s none path bytes)
        by_bytes [] u = tt
        by_bytes (b ∷ bytes) u = by_parsed b bytes (json.from_slice (b ∷ bytes)) u refl

    decode_request-Read :
        (tc : Transcoder json.Value) (o : Attempt json.Value (List ℕ))
        → binary_transcoder W json s parts.headers ≡ some tc
        → ltb 0 (placeholder_count desc.rest_path) ≡ true
        → tc.decode_request path unframed ≡ o
        → Read (elim o as (λ _. Attempt json.Value GrpcStatus) [
          | got message ↦ got message
          | failed e ↦ failed (failed_to W json s "failed to decode binary protobuf: " e)
          | panicked ↦ panicked
        ])
    unfolding Read
    decode_request-Read tc (got m) e h q = tt
    decode_request-Read tc (failed text) e h q = (no_binary tc text e h q, refl)
    decode_request-Read tc panicked e h q = crashed tc e q

    built-Made :
        (o : Attempt json.Value GrpcStatus) (build : json.Value → Parts W × List ℕ)
        → Read o
        → Made (elim o as (λ _. Attempt (Parts W × List ℕ) GrpcStatus) [
          | got message ↦ got (build message)
          | failed status ↦ failed status
          | panicked ↦ panicked
        ])
    unfolding Read
    built-Made (got m) build h = tt
    built-Made (failed status) build h = h
    built-Made panicked build h = h

    synthesize-Made : Made (synthesize W json s parts desc path unframed)
    unfolding synthesize decode_message
    synthesize-Made = elim (Option-cases (binary_transcoder W json s parts.headers)) [
      | inl e ↦
          rw e (built-Made (decode_message W json s none path unframed) _ (json_decode-Read e))
      | inr (tc, e) ↦ elim (Bool-cases (ltb 0 (placeholder_count desc.rest_path))) [
        | inr h ↦ rw (e, h) tt
        | inl h ↦
            rw (e, h)
              (built-Made (decode_message W json s (some tc) path unframed) _
                (decode_request-Read tc (tc.decode_request path unframed) e h refl))
      ]
    ]

  module _ (handler : Handler W) (desc : GrpcMethodDescriptor) (mws : List (GrpcMiddleware W))
      (timeout : Option ℕ) (parts : Parts W) (path body : List ℕ) where
    -- The answer to a request for a method of the application, and why it is that.
    pub data Answered : Outcome → Type 0 where
      invalid :
          (r : Response)
          → Unread desc parts path (unframe W json s body)
          → Reports invalid_argument r
          → Answered (returns r)
      panicking : Crashed desc parts path (unframe W json s body) → Answered panics
      rejected :
          (made : Parts W) (content : List ℕ) (r : Response)
          → synthesize W json s parts desc path (unframe W json s body) ≡ got (made, content)
          → Runs W mws made content (inr r)
          → Answered (returns r)
      handled :
          (made made' : Parts W) (content content' : List ℕ) (r : Response)
          → synthesize W json s parts desc path (unframe W json s body) ≡ got (made, content)
          → Runs W mws made content (inl (made', content'))
          → AsExpected (handler_expected timeout (handler made' content')) r
          → Answered (returns r)

    wrap-AsExpected :
        (rest : Response) (binary : Bool)
        → AsExpected
            (if rest.marker then streams rest else reports (http_to_grpc_code rest.status))
            (wrap_response_as_grpc json s.null s.transcoder path binary s.header_value desc rest)
    unfolding wrap_response_as_grpc
    wrap-AsExpected rest binary = elim (Bool-cases rest.marker) [
      | inl e ↦ rw e (refl, refl)
      | inr e ↦
          let reported =
            wrap_response_as_grpc-Reports s.header_value json s.null s.transcoder path binary desc
              rest e in
          rw e (rw e at reported)
    ]

    late_lem :
        Reports deadline_exceeded
          (grpc_error_response s.header_value (deadline_exceeded_status W json s))
    unfolding deadline_exceeded_status
    late_lem = grpc_error_response-Reports s.header_value (deadline_exceeded_status W json s)

    run_handler-AsExpected :
        (o : Option ℕ) (future : Future) (binary : Bool)
        → AsExpected (handler_expected o future) (run_handler W json s o future desc path binary)
    unfolding run_handler handler_expected
    run_handler-AsExpected none future binary = wrap-AsExpected future.response binary
    run_handler-AsExpected (some t) future binary = elim (Bool-cases (future.within t)) [
      | inl e ↦ rw e (wrap-AsExpected future.response binary)
      | inr e ↦ rw e late_lem
    ]

    passed-Answered :
        (binary : Bool) (made : Parts W) (content : List ℕ) (o : (Parts W × List ℕ) ⊎ Response)
        → synthesize W json s parts desc path (unframe W json s body) ≡ got (made, content)
        → Runs W mws made content o
        → Answered (
            returns (elim o as (λ _. Response) [
              | inr response ↦ response
              | inl (parts', body') ↦
                  run_handler W json s timeout (handler parts' body') desc path binary
            ]))
    passed-Answered binary made content (inl (p, b)) e runs =
        handled made p content b _ e runs (run_handler-AsExpected timeout (handler p b) binary)
    passed-Answered binary made content (inr response) e runs =
        rejected made content response e runs

    synthesized-Answered :
        (binary : Bool) (o : Attempt (Parts W × List ℕ) GrpcStatus)
        → synthesize W json s parts desc path (unframe W json s body) ≡ o
        → Made desc parts path (unframe W json s body) o
        → Answered (elim o as (λ _. Outcome) [
          | failed status ↦ returns (grpc_error_response s.header_value status)
          | panicked ↦ panics
          | got (synthetic, body') ↦
              returns (elim (run_middleware W mws synthetic body') as (λ _. Response) [
                | inr response ↦ response
                | inl (parts', body'') ↦
                    run_handler W json s timeout (handler parts' body'') desc path binary
              ])
        ])
    synthesized-Answered binary (got (p, b)) e h =
        passed-Answered binary p b (run_middleware W mws p b) e (run_middleware-Runs W mws p b)
    synthesized-Answered binary (failed status) e (unread, code) =
        invalid (grpc_error_response s.header_value status) unread (
          subst (λ (c : GrpcCode). Reports c (grpc_error_response s.header_value status)) code
            (grpc_error_response-Reports s.header_value status))
    synthesized-Answered binary panicked e h = panicking h

    pub call_standard-Answered :
        Answered (call_standard W json s handler desc mws timeout parts path body)
    unfolding call_standard
    call_standard-Answered =
        synthesized-Answered (is_some (binary_transcoder W json s parts.headers))
          (synthesize W json s parts desc path (unframe W json s body)) refl
          (synthesize-Made desc parts path (unframe W json s body))
