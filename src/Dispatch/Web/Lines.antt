-- ===== src/Dispatch/Web/Lines.antt =====
-- The trailers of a gRPC-Web body as a client reads them: lines that end in CR LF, each with a name.
use typeway.Base.{
  ℕ, ◌+◌, ◌≤◌, ◌≡◌, ◌≢◌, refl, sym, ap, ◌∙◌, append-nil, List, [], ◌∷◌, ◌++◌, Option, none, some,
  length, length-append, append_assoc, drop, All, All-append, ◌==◌, ne→==, eq→==, if◌then◌else◌,
  arith,
}
use typeway.Base.Options.{◌>>=◌}
use typeway.Router.Pattern.{show}
use typeway.Grpc.Status.{
  GrpcCode, as_i32, ok, cancelled, unknown, invalid_argument, deadline_exceeded, not_found,
  already_exists, permission_denied, resource_exhausted, failed_precondition, aborted, out_of_range,
  unimplemented, internal, unavailable, data_loss, unauthenticated,
}
use typeway.Dispatch.Body.{ascii, Trailers}
use typeway.Dispatch.Stream.{or_empty}
use typeway.Dispatch.Web.{trailer_line, trailers_text}

-- The text behind a name.
abbrev pub behind : List ℕ → List ℕ → Option (List ℕ)
behind [] text = some text
behind (a ∷ name) [] = none
behind (a ∷ name) (b ∷ text) = if a == b then behind name text else none

-- The text up to a CR, and what comes behind the LF.
abbrev pub next_line : List ℕ → List ℕ × List ℕ
next_line [] = ([], [])
next_line (b ∷ text) =
    let rest = next_line text in if b == 13 then ([], drop 1 text) else (b ∷ rest.0, rest.1)

-- A line with the first name, and perhaps one with the second behind it.
abbrev read_named : List ℕ → List ℕ → List ℕ → Option Trailers
read_named first second text =
    let line = next_line text in
    behind first line.0 >>= λ status.
    some (record { grpc_status = status; grpc_message = behind second (next_line line.1).0 })

-- A status, and perhaps a message behind it.
abbrev pub read_trailers : List ℕ → Option Trailers
read_trailers = read_named (ascii "grpc-status: ") (ascii "grpc-message: ")

behind-name : (name value : List ℕ) → behind name (name ++ value) ≡ some value
behind-name [] value = refl
behind-name (a ∷ name) value = rw (eq→== a a refl) (behind-name name value)

next_line-line :
    (line rest : List ℕ)
    → All (λ b. b ≢ 13) line
    → next_line (line ++ 13 ∷ 10 ∷ rest) ≡ (line, rest)
next_line-line [] rest h = refl
next_line-line (b ∷ line) rest (ne, h) = rw (ne→== b 13 ne, next_line-line line rest h) refl

next_line-trailer_line :
    (name value rest : List ℕ)
    → All (λ b. b ≢ 13) name
    → All (λ b. b ≢ 13) value
    → next_line (trailer_line name value ++ rest) ≡ (name ++ value, rest)
next_line-trailer_line name value rest hn hv =
    ap next_line (
      append_assoc name (value ++ 13 ∷ 10 ∷ []) rest
      ∙ ap (λ (t : List ℕ). name ++ t) (append_assoc value (13 ∷ 10 ∷ []) rest)
      ∙ sym (append_assoc name value (13 ∷ 10 ∷ rest)))
    ∙ next_line-line (name ++ value) rest (All-append (λ b. b ≢ 13) name value hn hv)

-- The digits of a code
abbrev IsCode : List ℕ → Type 0
IsCode text = (length text ≤ 2) × All (λ b. b ≢ 13) text

show-IsCode : (c : GrpcCode) → IsCode (show (as_i32 c))
unfolding show as_i32
show-IsCode ok = (omega arith, omega arith)
show-IsCode cancelled = (omega arith, omega arith)
show-IsCode unknown = (omega arith, omega arith)
show-IsCode invalid_argument = (omega arith, omega arith)
show-IsCode deadline_exceeded = (omega arith, omega arith)
show-IsCode not_found = (omega arith, omega arith)
show-IsCode already_exists = (omega arith, omega arith)
show-IsCode permission_denied = (omega arith, omega arith)
show-IsCode resource_exhausted = (omega arith, omega arith)
show-IsCode failed_precondition = (omega arith, omega arith)
show-IsCode aborted = (omega arith, omega arith)
show-IsCode out_of_range = (omega arith, omega arith)
show-IsCode unimplemented = (omega arith, omega arith)
show-IsCode internal = (omega arith, omega arith)
show-IsCode unavailable = (omega arith, omega arith)
show-IsCode data_loss = (omega arith, omega arith)
show-IsCode unauthenticated = (omega arith, omega arith)

-- No line break, as in every header value.
abbrev pub IsLine : Option (List ℕ) → Type 0
IsLine message = All (λ b. b ≢ 13) (or_empty message)

module _ (first second status : List ℕ) (hf : All (λ b. b ≢ 13) first)
    (hs : All (λ b. b ≢ 13) status) where
  read_named-one :
      (c : ℕ) (name : List ℕ)
      → second ≡ c ∷ name
      → read_named first second (trailer_line first status ++ [])
        ≡ some (record { grpc_status = status; grpc_message = none })
  read_named-one c name e =
      rw (next_line-trailer_line first status [] hf hs, behind-name first status, e) refl

  read_named-two :
      (message : List ℕ)
      → All (λ b. b ≢ 13) second
      → All (λ b. b ≢ 13) message
      → read_named first second (trailer_line first status ++ trailer_line second message)
        ≡ some (record { grpc_status = status; grpc_message = some message })
  read_named-two message hn hm =
      let last : next_line (trailer_line second message) ≡ (second ++ message, []) =
        ap next_line (sym (append-nil (trailer_line second message)))
        ∙ next_line-trailer_line second message [] hn hm in
      rw
        (
          next_line-trailer_line first status (trailer_line second message) hf hs,
          last,
          behind-name first status,
          behind-name second message,
        )
        refl

-- The trailers that are written are read back.
pub read_trailers-trailers_text :
    (code : GrpcCode) (message : Option (List ℕ))
    → IsLine message
    → read_trailers (trailers_text (show (as_i32 code)) message)
      ≡ some (record { grpc_status = show (as_i32 code); grpc_message = message })
unfolding trailers_text
read_trailers-trailers_text code none h =
    read_named-one (ascii "grpc-status: ") (ascii "grpc-message: ") (show (as_i32 code))
      (omega arith) (show-IsCode code).1 b'g' (ascii "rpc-message: ") refl
read_trailers-trailers_text code (some message) h =
    read_named-two (ascii "grpc-status: ") (ascii "grpc-message: ") (show (as_i32 code))
      (omega arith) (show-IsCode code).1 message (omega arith) h

length-trailer_line :
    (name value : List ℕ) → length (trailer_line name value) ≡ length name + (length value + 2)
length-trailer_line name value =
    omega (arith, length-append name (value ++ 13 ∷ 10 ∷ []), length-append value (13 ∷ 10 ∷ []))

pub length-trailers_text :
    (code : GrpcCode) (message : Option (List ℕ))
    → length (trailers_text (show (as_i32 code)) message) ≤ 64 + length (or_empty message)
unfolding trailers_text
length-trailers_text code none =
    let short = (show-IsCode code).0 in
    let line = trailer_line (ascii "grpc-status: ") (show (as_i32 code)) in
    let size : length line ≡ 13 + (length (show (as_i32 code)) + 2) =
      length-trailer_line (ascii "grpc-status: ") (show (as_i32 code)) in
    let whole = length-append line [] in omega arith
length-trailers_text code (some message) =
    let short = (show-IsCode code).0 in
    let line = trailer_line (ascii "grpc-status: ") (show (as_i32 code)) in
    let last = trailer_line (ascii "grpc-message: ") message in
    let size : length line ≡ 13 + (length (show (as_i32 code)) + 2) =
      length-trailer_line (ascii "grpc-status: ") (show (as_i32 code)) in
    let size' : length last ≡ 14 + (length message + 2) =
      length-trailer_line (ascii "grpc-message: ") message in
    let whole = length-append line last in omega arith
