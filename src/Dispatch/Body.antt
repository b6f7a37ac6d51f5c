-- ===== src/Dispatch/Body.antt =====
-- typeway-grpc/src/trailer_body.rs: the body of a unary answer, which ends in trailers. A text is the
-- list of its bytes.
pub mod Yields
pub mod Status
use Prim.Native.Char.{code}
use Prim.Native.String.{String}
use typeway.Base.{
  ℕ, Bool, true, false, ◌&&◌, List, [], ◌∷◌, map, Option, none, some, length, if◌then◌else◌,
}
use typeway.Router.Pattern.{show}
use typeway.Grpc.Message.{encode_grpc_message}
use typeway.Grpc.Parse.Chars.{text, is_empty}
use typeway.Grpc.Status.{GrpcCode, ok, as_i32}

-- The bytes of an ASCII literal
abbrev pub ascii : String → List ℕ
ascii s = map code (text s)

pub record GrpcStatus : Type 0 where
  pub status_code : GrpcCode
  pub message : List ℕ

-- The entries of the trailers' `HeaderMap`.
pub record Trailers : Type 0 where
  pub grpc_status : List ℕ
  pub grpc_message : Option (List ℕ)

pub data Frame : Type 0 where
  data_frame : List ℕ → Frame
  trailers_frame : Trailers → Frame

-- `header_value` tells which bytes parse as a `HeaderValue`; digits do, so that the `expect` holds.
module _ (header_value : List ℕ → Bool) where
  unfoldable pub status_to_trailers : GrpcStatus → Trailers
  status_to_trailers status = record {
    grpc_status = show (as_i32 status.status_code);
    grpc_message =
        let encoded = encode_grpc_message status.message in
        if is_empty status.message
        then none
        else if header_value encoded
        then some encoded
        else none;
  }

abbrev pub ok_status : GrpcStatus
ok_status = record { status_code = ok; message = [] }

abbrev pub is_none {ℓ} : {A : Type ℓ} → Option A → Bool
is_none none = true
is_none (some a) = false

-- The fields `data` and `trailers`
pub record GrpcBody : Type 0 where
  pub payload : Option (List ℕ)
  pub trailers : Option Trailers

unfoldable pub body_with_status : (List ℕ → Bool) → List ℕ → GrpcStatus → GrpcBody
unfolding status_to_trailers
body_with_status header_value bytes status = record {
  payload = some bytes;
  trailers = some (status_to_trailers header_value status);
}

unfoldable pub ok_body : (List ℕ → Bool) → List ℕ → GrpcBody
unfolding body_with_status
ok_body header_value bytes = body_with_status header_value bytes ok_status

unfoldable pub error_body : (List ℕ → Bool) → GrpcStatus → GrpcBody
unfolding status_to_trailers
error_body header_value status = record {
  payload = none;
  trailers = some (status_to_trailers header_value status);
}

abbrev pub poll_trailers : Option Trailers → Option Frame × GrpcBody
poll_trailers none = (none, record { payload = none; trailers = none })
poll_trailers (some t) = (some (trailers_frame t), record { payload = none; trailers = none })

abbrev pub poll_parts : Option (List ℕ) → Option Trailers → Option Frame × GrpcBody
poll_parts none trailers = poll_trailers trailers
poll_parts (some []) trailers = poll_trailers trailers
poll_parts (some (b ∷ bytes)) trailers =
    (some (data_frame (b ∷ bytes)), record { payload = none; trailers = trailers })

-- What is taken is gone: `Option::take`.
unfoldable pub poll_frame : GrpcBody → Option Frame × GrpcBody
poll_frame s = poll_parts s.payload s.trailers

unfoldable pub is_end_stream : GrpcBody → Bool
is_end_stream s = is_none s.payload && is_none s.trailers

-- `SizeHint::with_exact`
unfoldable pub size_hint : GrpcBody → ℕ
size_hint s = elim (s.payload) [ some bytes ↦ length bytes | none ↦ 0 ]
