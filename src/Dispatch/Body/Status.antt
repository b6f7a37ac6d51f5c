-- ===== src/Dispatch/Body/Status.antt =====
-- The status that a body's trailers carry.
use typeway.Base.{
  ℕ, ◌<◌, ◌≡◌, refl, ap, ◌∙◌, Bool, true, List, [], Option, none, some, All, arith, inl, inr,
  Bool-cases,
}
use typeway.Base.Int.{pos}
use typeway.Router.Pattern.{show}
use typeway.Grpc.Timeout.{parse_u64}
use typeway.Grpc.Parse.Chars.{is_empty}
use typeway.Grpc.Status.{
  GrpcCode, as_i32, from_i32, ok, cancelled, unknown, invalid_argument, deadline_exceeded,
  not_found, already_exists, permission_denied, resource_exhausted, failed_precondition, aborted,
  out_of_range, unimplemented, internal, unavailable, data_loss, unauthenticated,
}
use typeway.Grpc.Status.Codes.{from_i32-as_i32}
use typeway.Grpc.Message.{encode_grpc_message, decode_grpc_message}
use typeway.Grpc.Message.Safety.{IsPrintable, encode_grpc_message-IsPrintable}
use typeway.Grpc.Message.RoundTrip.{decode_grpc_message-encode_grpc_message}
use typeway.Grpc.Message.Utf8.{is_utf8}
use typeway.Dispatch.Body.{GrpcStatus, Trailers, status_to_trailers}

-- The documented domain of `HeaderValue`: printable ASCII parses.
abbrev pub TakesPrintable : (List ℕ → Bool) → Type 0
TakesPrintable header_value = (bytes : List ℕ) → All IsPrintable bytes → header_value bytes ≡ true

-- `str::parse` reads the digits of each code.
pub parse_u64-show : (c : GrpcCode) → parse_u64 (show (as_i32 c)) ≡ some (as_i32 c)
unfolding parse_u64 show as_i32
parse_u64-show ok = refl
parse_u64-show cancelled = refl
parse_u64-show unknown = refl
parse_u64-show invalid_argument = refl
parse_u64-show deadline_exceeded = refl
parse_u64-show not_found = refl
parse_u64-show already_exists = refl
parse_u64-show permission_denied = refl
parse_u64-show resource_exhausted = refl
parse_u64-show failed_precondition = refl
parse_u64-show aborted = refl
parse_u64-show out_of_range = refl
parse_u64-show unimplemented = refl
parse_u64-show internal = refl
parse_u64-show unavailable = refl
parse_u64-show data_loss = refl
parse_u64-show unauthenticated = refl

abbrev code_of : Option ℕ → Option GrpcCode
code_of none = none
code_of (some n) = some (from_i32 (pos n))

-- What a client reads from the trailers: the code, and the decoded message or none.
abbrev pub read_code : Trailers → Option GrpcCode
read_code t = code_of (parse_u64 t.grpc_status)

abbrev pub read_message : Trailers → List ℕ
read_message t = elim (t.grpc_message) [ none ↦ [] | some m ↦ decode_grpc_message m ]

-- A text of bytes
abbrev pub IsText : List ℕ → Type 0
IsText message = All (λ b. b < 256) message × (is_utf8 message ≡ true)

read_message_lem :
    (header_value : List ℕ → Bool) (s : GrpcStatus)
    → TakesPrintable header_value
    → IsText s.message
    → read_message (status_to_trailers header_value s) ≡ s.message
unfolding status_to_trailers
read_message_lem header_value s h (bytes, text) = elim (Bool-cases (is_empty s.message)) [
  | inl e ↦ ground (arith)
  | inr e ↦
      rw (e, h (encode_grpc_message s.message) (encode_grpc_message-IsPrintable s.message bytes))
        (decode_grpc_message-encode_grpc_message s.message bytes text)
]

pub read_code-show :
    (c : GrpcCode) (t : Trailers) → t.grpc_status ≡ show (as_i32 c) → read_code t ≡ some c
read_code-show c t e =
    ap (λ (s : List ℕ). code_of (parse_u64 s)) e
    ∙ ap code_of (parse_u64-show c)
    ∙ ap some (from_i32-as_i32 c)

-- A status whose message is a text reaches the client through the trailers as it is: the code by its
-- digits, and the message, line ends and non-ASCII characters included, by its percent-encoding.
pub status_to_trailers-read :
    (header_value : List ℕ → Bool) (s : GrpcStatus)
    → TakesPrintable header_value
    → IsText s.message
    → (read_code (status_to_trailers header_value s) ≡ some s.status_code)
      × (read_message (status_to_trailers header_value s) ≡ s.message)
unfolding status_to_trailers
status_to_trailers-read header_value s h t = (
  read_code-show s.status_code (status_to_trailers header_value s) refl,
  read_message_lem header_value s h t,
)
