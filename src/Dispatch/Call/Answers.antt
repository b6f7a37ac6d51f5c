-- ===== src/Dispatch/Call/Answers.antt =====
-- Every answer to a gRPC request, and the code that it reports.
use typeway.Base.{
  ℕ, ◌≡◌, refl, inl, inr, Bool, true, false, ◌&&◌, if◌then◌else◌, List, Option, none, some,
  Bool-cases,
}
use typeway.Binary.Json.{Json}
use typeway.Grpc.Status.{GrpcCode, deadline_exceeded, http_to_grpc_code}
use typeway.Grpc.Timeout as Timeout
use typeway.Dispatch.Stream.{or_empty}
use typeway.Dispatch.Health.{handle_health, is_health_path, is_reflection_path}
use typeway.Dispatch.Reflection.{handle_reflection}
use typeway.Dispatch.Synthetic.{Http, Parts, GrpcMethodDescriptor}
use typeway.Dispatch.Wrap.{Response, Transcoder, panicked, grpc_json_response, dispatch_direct}
use typeway.Dispatch.Wrap.Reports.{Reports, grpc_error_response-Reports, direct_response-Reports}
use typeway.Dispatch.Router.{Handler, GrpcMiddleware, GrpcRouteEntry, standard, direct, lookup_path}
use typeway.Transcode.{grpc_content_type, is_proto_binary_content_type}
use typeway.Dispatch.Call.Runs.{Runs}
use typeway.Dispatch.Call.Codes.{
  AsExpected, streams, reports, handler_expected, in_time, Answered, invalid, panicking, rejected,
  handled, crashed, call_standard-Answered,
}
use typeway.Dispatch.Call.{
  Outcome, panics, returns, Server, binary_transcoder, call_standard, call_entry, call_grpc,
  timeout_of, unframe, not_found_status,
}

module _ (W : Http) (json : Json) (s : Server W json) (parts : Parts W)
    (body : Option (List ℕ)) where
  abbrev path : List ℕ
  path = s.path_of parts.uri

  -- The message, below its frame.
  abbrev sent : List ℕ
  sent = unframe W json s (or_empty body)

  -- Why a gRPC request is answered as it is.
  pub data Explained (r : Response) : Type 0 where
    health :
        is_health_path path ≡ true → r ≡ grpc_json_response (handle_health s.health) → Explained r
    reflected :
        is_reflection_path path ≡ true
        → r ≡ grpc_json_response (handle_reflection s.reflection sent)
        → Explained r
    reported : (code : GrpcCode) → Reports code r → Explained r
    refused :
        (handler : Handler W) (desc : GrpcMethodDescriptor) (mws : List (GrpcMiddleware W))
        (made : Parts W) (content : List ℕ)
        → lookup_path W path s.grpc_router.handlers ≡ some (standard handler desc mws)
        → Runs W mws made content (inr r)
        → Explained r
    stream :
        (handler : Handler W) (desc : GrpcMethodDescriptor) (mws : List (GrpcMiddleware W))
        (made : Parts W) (content : List ℕ)
        → lookup_path W path s.grpc_router.handlers ≡ some (standard handler desc mws)
        → (handler made content).response.marker ≡ true
        → r ≡ record (handler made content).response {
          status = 200;
          content_type = some "application/grpc+json";
        }
        → Explained r

  -- Why a call panics: in reading its timeout, or its binary message.
  pub data Panics : Type 0 where
    timeout : timeout_of W json s parts.headers.grpc_timeout ≡ Timeout.panics → Panics
    message :
        (tc : Transcoder json.Value)
        → s.transcoder ≡ some tc
        → tc.decode_request path sent ≡ panicked
        → Panics

  abbrev pub Explains : Outcome → Type 0
  Explains panics = Panics
  Explains (returns r) = Explained r

  configured :
      (tc : Transcoder json.Value)
      → binary_transcoder W json s parts.headers ≡ some tc
      → s.transcoder ≡ some tc
  unfolding binary_transcoder
  configured tc e =
      by_type (is_proto_binary_content_type (grpc_content_type parts.headers.content_type)) e
    where
      by_type : (b : Bool) → (if b then s.transcoder else none) ≡ some tc → s.transcoder ≡ some tc
      by_type true q = q
      by_type false q = cc

  module _ (handler : Handler W) (desc : GrpcMethodDescriptor) (mws : List (GrpcMiddleware W))
      (found : lookup_path W path s.grpc_router.handlers ≡ some (standard handler desc mws)) where
    handled-Explained :
        (t : Option ℕ) (made : Parts W) (content : List ℕ) (r : Response)
        → AsExpected (handler_expected t (handler made content)) r
        → Explained r
    unfolding handler_expected
    handled-Explained t made content r h =
        by_tests (in_time t (handler made content)) (handler made content).response.marker refl h
      where
        by_tests :
            (b m : Bool)
            → (handler made content).response.marker ≡ m
            → AsExpected
                (if b
                  then (if m
                      then streams (handler made content).response
                      else reports (http_to_grpc_code (handler made content).response.status))
                  else reports deadline_exceeded)
                r
            → Explained r
        by_tests true true e (marked, same) = stream handler desc mws made content found marked same
        by_tests true false e h = reported _ h
        by_tests false m e h = reported _ h

    Answered-Explains :
        (t : Option ℕ) (o : Outcome)
        → Answered W json s handler desc mws t parts path (or_empty body) o
        → Explains o
    Answered-Explains t _ (invalid r unread h) = reported _ h
    Answered-Explains t _ (panicking (crashed tc e q)) = message tc (configured tc e) q
    Answered-Explains t _ (rejected made content r e runs) =
        refused handler desc mws made content found runs
    Answered-Explains t _ (handled made made' content content' r e runs h) =
        handled-Explained t made' content' r h

    timed-Explains :
        (o : Timeout.Outcome)
        → timeout_of W json s parts.headers.grpc_timeout ≡ o
        → Explains (elim o as (λ _. Outcome) [
          | Timeout.panics ↦ panics
          | Timeout.returns t ↦ call_standard W json s handler desc mws t parts path (or_empty body)
        ])
    timed-Explains Timeout.panics e = timeout e
    timed-Explains (Timeout.returns t) e =
        Answered-Explains t _
          (call_standard-Answered W json s handler desc mws t parts path (or_empty body))

  call_entry-Explains :
      (entry : Option (GrpcRouteEntry W))
      → lookup_path W path s.grpc_router.handlers ≡ entry
      → Explains (call_entry W json s entry parts path body)
  unfolding call_entry dispatch_direct
  call_entry-Explains none e =
      reported _ (grpc_error_response-Reports s.header_value (not_found_status W json s path))
  call_entry-Explains (some (direct handler)) e =
      reported _ (direct_response-Reports s.header_value _)
  call_entry-Explains (some (standard handler desc mws)) e =
      timed-Explains handler desc mws e (timeout_of W json s parts.headers.grpc_timeout) refl

  -- Every gRPC request is answered by the health or the reflection service at their paths; by HTTP 200
  -- with one code in the header and in the trailers; by a middleware of the method at its path, behind
  -- others that passed the request on; or by the stream of that method's handler. It panics only
  -- where the text of its `grpc-timeout` header makes `parse_grpc_timeout` panic, or its message
  -- the transcoder.
  pub call_grpc-Explains : Explains (call_grpc W json s parts body)
  unfolding call_grpc
  call_grpc-Explains = elim (Bool-cases (is_health_path path)) [
    | inl e ↦ rw e (health e refl)
    | inr e ↦ rw e (elim (Bool-cases (s.reflection_enabled && is_reflection_path path)) [
      | inl q ↦ rw q (reflected (both s.reflection_enabled (is_reflection_path path) q) refl)
      | inr q ↦ rw q (call_entry-Explains (lookup_path W path s.grpc_router.handlers) refl)
    ])
  ]
    where
      both : (a b : Bool) → (a && b) ≡ true → b ≡ true
      both true b q = q
      both false b q = cc
