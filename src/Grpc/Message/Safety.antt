-- ===== src/Grpc/Message/Safety.antt =====
-- An encoded message is fit for a header value.
use typeway.Base.{ℕ, ◌/◌, ◌%◌, ◌<◌, ◌≤◌, List, [], ◌∷◌, All, arith}
use typeway.Grpc.Message.{hex_digit, encode_grpc_message}

-- A visible ASCII character or the space.
abbrev pub IsPrintable : ℕ → Type 0
IsPrintable b = (0x20 ≤ b) × (b ≤ 0x7E)

hex_digit-IsPrintable : (d : ℕ) → d < 16 → IsPrintable (hex_digit d)
hex_digit-IsPrintable d h = ground arith

-- Whatever the bytes of the message, line ends and other control characters included, the encoded
-- message is printable ASCII.
pub encode_grpc_message-IsPrintable :
    (message : List ℕ) → All (λ b. b < 256) message → All IsPrintable (encode_grpc_message message)
unfolding encode_grpc_message
encode_grpc_message-IsPrintable [] h = tt
encode_grpc_message-IsPrintable (b ∷ message) (hb, h) = ground (
  arith,
  hex_digit-IsPrintable (b / 16),
  hex_digit-IsPrintable (b % 16),
  encode_grpc_message-IsPrintable message h,
)
