-- ===== src/Dispatch/Wrap/Reports.antt =====
-- The status of an answer: in the headers and in the trailers.
use typeway.Base.{ℕ, ◌≡◌, refl, inl, inr, Bool, false, ◌⊎◌, List, Option, some}
use typeway.Binary.Json.{Json}
use typeway.Router.Pattern.{show}
use typeway.Grpc.Status.{GrpcCode, ok, as_i32, http_to_grpc_code}
use typeway.Dispatch.Body.{GrpcStatus, Trailers, GrpcBody, status_to_trailers, error_body}
use typeway.Dispatch.Synthetic.{GrpcMethodDescriptor}
use typeway.Dispatch.Wrap.{
  unary, Response, Transcoder, wrap_response_as_grpc, grpc_error_response, direct_response,
}

-- HTTP 200 with the code in the header `grpc-status` and in the trailers behind the body.
pub record Reports (code : GrpcCode) (r : Response) : Type 0 where
  pub state : GrpcBody
  pub trailers : Trailers
  pub accepted : r.status ≡ 200
  pub header : r.grpc_status ≡ some (show (as_i32 code))
  pub sent : r.body ≡ unary state
  pub trailed : state.trailers ≡ some trailers
  pub same : trailers.grpc_status ≡ show (as_i32 code)

module _ (header_value : List ℕ → Bool) where
  pub grpc_error_response-Reports :
      (status : GrpcStatus) → Reports status.status_code (grpc_error_response header_value status)
  unfolding grpc_error_response status_to_trailers
  grpc_error_response-Reports status = record {
    state = error_body header_value status;
    trailers = status_to_trailers header_value status;
    accepted = refl;
    header = refl;
    sent = refl;
    trailed = refl;
    same = refl;
  }

  pub wrap_response_as_grpc-Reports :
      (json : Json) (null : json.Value) (transcoder : Option (Transcoder json.Value))
      (grpc_path : List ℕ) (use_proto_binary : Bool) (desc : GrpcMethodDescriptor) (rest : Response)
      → rest.marker ≡ false
      → Reports (http_to_grpc_code rest.status) (
          wrap_response_as_grpc json null transcoder grpc_path use_proto_binary header_value desc
            rest)
  unfolding wrap_response_as_grpc status_to_trailers
  wrap_response_as_grpc-Reports json null transcoder grpc_path use_proto_binary desc rest e =
      rw e (record {
        state = _;
        trailers = _;
        accepted = refl;
        header = refl;
        sent = refl;
        trailed = refl;
        same = refl;
      })

  -- The code of a direct handler's result.
  abbrev pub result_code : List ℕ ⊎ GrpcStatus → GrpcCode
  result_code (inl bytes) = ok
  result_code (inr status) = status.status_code

  pub direct_response-Reports :
      (result : List ℕ ⊎ GrpcStatus)
      → Reports (result_code result) (direct_response header_value result)
  unfolding direct_response status_to_trailers show as_i32
  direct_response-Reports (inl bytes) = record {
    state = _;
    trailers = _;
    accepted = refl;
    header = refl;
    sent = refl;
    trailed = refl;
    same = refl;
  }
  direct_response-Reports (inr status) = record {
    state = _;
    trailers = _;
    accepted = refl;
    header = refl;
    sent = refl;
    trailed = refl;
    same = refl;
  }
