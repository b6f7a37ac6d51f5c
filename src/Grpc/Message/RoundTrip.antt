-- ===== src/Grpc/Message/RoundTrip.antt =====
-- Decoding a message that was encoded, and one that holds no escape.
use typeway.Base.{ℕ, ◌/◌, ◌%◌, ◌<◌, ◌≡◌, ◌≢◌, refl, ap, ◌∙◌, List, [], ◌∷◌, All, some, true, arith}
use typeway.Grpc.Message.{
  hex_digit, to_digit, encode_grpc_message, decode_bytes, decode_grpc_message,
}
use typeway.Grpc.Message.Utf8.{is_utf8}

to_digit-hex_digit : (d : ℕ) → d < 16 → to_digit (hex_digit d) ≡ some d
to_digit-hex_digit d h = ground arith

decode_bytes_plain :
    (b : ℕ) (rest : List ℕ) → b ≢ b'%' → decode_bytes (b ∷ rest) ≡ b ∷ decode_bytes rest
unfolding decode_bytes
decode_bytes_plain b [] h = refl
decode_bytes_plain b (x ∷ []) h = refl
decode_bytes_plain b (x ∷ y ∷ rest) h = ground arith

decode_bytes_escape :
    (b : ℕ) (rest : List ℕ)
    → b < 256
    → decode_bytes (b'%' ∷ hex_digit (b / 16) ∷ hex_digit (b % 16) ∷ rest) ≡ b ∷ decode_bytes rest
unfolding decode_bytes
decode_bytes_escape b rest h =
    rw (to_digit-hex_digit (b / 16) (omega arith), to_digit-hex_digit (b % 16) (omega arith))
      (ap (λ x. x ∷ decode_bytes rest) (omega arith))

decode_bytes-encode_grpc_message :
    (message : List ℕ)
    → All (λ b. b < 256) message
    → decode_bytes (encode_grpc_message message) ≡ message
unfolding encode_grpc_message
decode_bytes-encode_grpc_message [] h = unfold decode_bytes in refl
decode_bytes-encode_grpc_message (b ∷ message) (hb, h) = ground (
  arith,
  decode_bytes_plain b (encode_grpc_message message),
  decode_bytes_escape b (encode_grpc_message message) hb,
  decode_bytes-encode_grpc_message message h,
)

-- A text, encoded for the trailer and decoded, is itself.
pub decode_grpc_message-encode_grpc_message :
    (message : List ℕ)
    → All (λ b. b < 256) message
    → is_utf8 message ≡ true
    → decode_grpc_message (encode_grpc_message message) ≡ message
unfolding decode_grpc_message
decode_grpc_message-encode_grpc_message message h text =
    rw (decode_bytes-encode_grpc_message message h, text) refl

decode_bytes_of_plain :
    (message : List ℕ) → All (λ b. b ≢ b'%') message → decode_bytes message ≡ message
decode_bytes_of_plain [] h = unfold decode_bytes in refl
decode_bytes_of_plain (b ∷ message) (p, h) =
    decode_bytes_plain b message p ∙ ap (λ t. b ∷ t) (decode_bytes_of_plain message h)

-- A message from a peer that does not escape is left alone.
pub decode_grpc_message_plain :
    (message : List ℕ) → All (λ b. b ≢ b'%') message → decode_grpc_message message ≡ message
unfolding decode_grpc_message
decode_grpc_message_plain message h = ground (arith, decode_bytes_of_plain message h)
