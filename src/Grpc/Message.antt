-- ===== src/Grpc/Message.antt =====
-- typeway-grpc/src/status.rs: percent-encoding of the `grpc-message` trailer, over the bytes of the text.
pub mod Utf8
pub mod Safety
pub mod RoundTrip
use typeway.Base.{
  ℕ, zero, suc, ◌+◌, ◌-◌, ◌*◌, ◌/◌, ◌%◌, Bool, true, false, not, ◌&&◌, ◌||◌, List, [], ◌∷◌, ◌++◌,
  Option, none, some, ltb, leb, ◌==◌, if◌then◌else◌,
}
use typeway.Grpc.Message.Utf8.{is_utf8}

-- A digit of `{:02X}`
abbrev pub hex_digit : ℕ → ℕ
hex_digit d = if ltb d 10 then d + b'0' else d + 55

unfoldable pub encode_grpc_message : List ℕ → List ℕ
encode_grpc_message [] = []
encode_grpc_message (b ∷ message) =
    if (leb 0x20 b && leb b 0x7E) && not (b == b'%')
    then b ∷ encode_grpc_message message
    else b'%' ∷ hex_digit (b / 16) ∷ hex_digit (b % 16) ∷ encode_grpc_message message

-- `(c as char).to_digit(16)`
abbrev pub to_digit : ℕ → Option ℕ
to_digit c =
    if leb b'0' c && leb c b'9'
    then some (c - b'0')
    else if leb b'a' c && leb c b'f'
    then some (c - b'a' + 10)
    else if leb b'A' c && leb c b'F'
    then some (c - b'A' + 10)
    else none

-- The byte that two hex digits stand for, where both are.
abbrev pub hex_byte : Option ℕ → Option ℕ → Option ℕ
hex_byte (some hi) (some lo) = some (hi * 16 + lo)
hex_byte (some hi) none = none
hex_byte none lo = none

-- The loop of `decode_grpc_message`. An escape is read where two more bytes follow the `%`.
unfoldable pub decode_bytes : List ℕ → List ℕ
decode_bytes [] = []
decode_bytes (b ∷ []) = b ∷ []
decode_bytes (b ∷ h ∷ []) = b ∷ decode_bytes (h ∷ [])
decode_bytes (b ∷ h ∷ l ∷ rest) =
    let plain = b ∷ decode_bytes (h ∷ l ∷ rest) in
    let after = decode_bytes rest in
    if b == b'%'
    then elim (hex_byte (to_digit h) (to_digit l)) [ none ↦ plain | some x ↦ x ∷ after ]
    else plain

-- Where the bytes are no UTF-8, the message is returned as it came.
unfoldable pub decode_grpc_message : List ℕ → List ℕ
unfolding decode_bytes
decode_grpc_message message = let out = decode_bytes message in if is_utf8 out then out else message
