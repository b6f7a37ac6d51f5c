-- ===== src/Grpc/Status/Codes.antt =====
-- The tables of status codes agree with one another.
use Prim.Native.String.{String}
use text.Mathlib.Text.{◌==◌ as str_eq}
use typeway.Base.{ℕ, ◌≤◌, ◌≡◌, ◌↔◌, refl, sym, ap, ◌∙◌, arith, leb, if◌then◌else◌}
use typeway.Base.Int.{pos, negsuc}
use typeway.Grpc.Status.{GrpcCode, ok, unknown, as_i32, from_i32, display, http_to_grpc_code}

-- A code is read back from its number.
pub from_i32-as_i32 : (c : GrpcCode) → from_i32 (pos (as_i32 c)) ≡ c
unfolding as_i32 from_i32
from_i32-as_i32 ok = refl
from_i32-as_i32 _ = refl

-- The number of the code read from `n` is `n` up to 16, and that of `unknown` for all other numbers,
-- negative ones included.
pub as_i32-from_i32 :
    (n : ℕ)
    → (as_i32 (from_i32 (pos n)) ≡ (if leb n 16 then n else 2)) × (from_i32 (negsuc n) ≡ unknown)
unfolding as_i32 from_i32
as_i32-from_i32 n = ground arith

-- Only a 2xx status becomes the success code, and each of them does.
pub http_to_grpc_code-ok_iff : (s : ℕ) → (http_to_grpc_code s ≡ ok) ↔ ((200 ≤ s) × (s ≤ 299))
unfolding http_to_grpc_code
http_to_grpc_code-ok_iff s = ground arith

-- The number that stands for a name.
abbrev index_of : String → ℕ
index_of name =
    if str_eq name "OK"
    then 0
    else if str_eq name "CANCELLED"
    then 1
    else if str_eq name "UNKNOWN"
    then 2
    else if str_eq name "INVALID_ARGUMENT"
    then 3
    else if str_eq name "DEADLINE_EXCEEDED"
    then 4
    else if str_eq name "NOT_FOUND"
    then 5
    else if str_eq name "ALREADY_EXISTS"
    then 6
    else if str_eq name "PERMISSION_DENIED"
    then 7
    else if str_eq name "RESOURCE_EXHAUSTED"
    then 8
    else if str_eq name "FAILED_PRECONDITION"
    then 9
    else if str_eq name "ABORTED"
    then 10
    else if str_eq name "OUT_OF_RANGE"
    then 11
    else if str_eq name "UNIMPLEMENTED"
    then 12
    else if str_eq name "INTERNAL"
    then 13
    else if str_eq name "UNAVAILABLE"
    then 14
    else if str_eq name "DATA_LOSS"
    then 15
    else 16

index_of-display : (c : GrpcCode) → index_of (display c) ≡ as_i32 c
unfolding display as_i32
index_of-display ok = refl
index_of-display _ = refl

-- No two codes are displayed alike.
pub display_injective : (c d : GrpcCode) → display c ≡ display d → c ≡ d
display_injective c d e =
    let same : as_i32 c ≡ as_i32 d =
      sym (index_of-display c) ∙ ap index_of e ∙ index_of-display d in
    sym (from_i32-as_i32 c) ∙ ap (λ n. from_i32 (pos n)) same ∙ from_i32-as_i32 d
