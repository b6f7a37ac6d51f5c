-- ===== src/Grpc/Status.antt =====
-- typeway-grpc/src/status.rs: the gRPC status codes, their numbers and names, and what an HTTP status
-- becomes. A text is a native string; an i32 is an integer.
pub mod Codes
use Prim.Native.String.{String}
use text.Mathlib.Text.{◌==◌ as str_eq}
use typeway.Base.{ℕ, Bool, ◌&&◌, List, [], ◌∷◌, leb, ◌==◌, if◌then◌else◌}
use typeway.Base.Int.{ℤ, pos, negsuc}

pub data GrpcCode : Type 0 where
  ok cancelled unknown invalid_argument deadline_exceeded not_found already_exists : GrpcCode
  permission_denied resource_exhausted failed_precondition aborted out_of_range : GrpcCode
  unimplemented internal unavailable data_loss unauthenticated : GrpcCode

unfoldable pub as_i32 : GrpcCode → ℕ
as_i32 ok = 0
as_i32 cancelled = 1
as_i32 unknown = 2
as_i32 invalid_argument = 3
as_i32 deadline_exceeded = 4
as_i32 not_found = 5
as_i32 already_exists = 6
as_i32 permission_denied = 7
as_i32 resource_exhausted = 8
as_i32 failed_precondition = 9
as_i32 aborted = 10
as_i32 out_of_range = 11
as_i32 unimplemented = 12
as_i32 internal = 13
as_i32 unavailable = 14
as_i32 data_loss = 15
as_i32 unauthenticated = 16

unfoldable pub from_i32 : ℤ → GrpcCode
from_i32 (negsuc n) = unknown
from_i32 (pos code) =
    if code == 0
    then ok
    else if code == 1
    then cancelled
    else if code == 2
    then unknown
    else if code == 3
    then invalid_argument
    else if code == 4
    then deadline_exceeded
    else if code == 5
    then not_found
    else if code == 6
    then already_exists
    else if code == 7
    then permission_denied
    else if code == 8
    then resource_exhausted
    else if code == 9
    then failed_precondition
    else if code == 10
    then aborted
    else if code == 11
    then out_of_range
    else if code == 12
    then unimplemented
    else if code == 13
    then internal
    else if code == 14
    then unavailable
    else if code == 15
    then data_loss
    else if code == 16
    then unauthenticated
    else unknown

-- `Display for GrpcCode`
unfoldable pub display : GrpcCode → String
display ok = "OK"
display cancelled = "CANCELLED"
display unknown = "UNKNOWN"
display invalid_argument = "INVALID_ARGUMENT"
display deadline_exceeded = "DEADLINE_EXCEEDED"
display not_found = "NOT_FOUND"
display already_exists = "ALREADY_EXISTS"
display permission_denied = "PERMISSION_DENIED"
display resource_exhausted = "RESOURCE_EXHAUSTED"
display failed_precondition = "FAILED_PRECONDITION"
display aborted = "ABORTED"
display out_of_range = "OUT_OF_RANGE"
display unimplemented = "UNIMPLEMENTED"
display internal = "INTERNAL"
display unavailable = "UNAVAILABLE"
display data_loss = "DATA_LOSS"
display unauthenticated = "UNAUTHENTICATED"

unfoldable pub http_to_grpc_code : ℕ → GrpcCode
http_to_grpc_code http_status =
    if leb 200 http_status && leb http_status 299
    then ok
    else if http_status == 400
    then invalid_argument
    else if http_status == 401
    then unauthenticated
    else if http_status == 403
    then permission_denied
    else if http_status == 404
    then not_found
    else if http_status == 409
    then already_exists
    else if http_status == 429
    then resource_exhausted
    else if http_status == 499
    then cancelled
    else if http_status == 500
    then internal
    else if http_status == 501
    then unimplemented
    else if http_status == 503
    then unavailable
    else if http_status == 504
    then deadline_exceeded
    else unknown
