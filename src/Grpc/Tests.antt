-- ===== src/Grpc/Tests.antt =====
-- Runs of the gRPC layer on concrete inputs, and the theorems at concrete inputs.
use typeway.Base.{ℕ, ◌*◌, ◌^◌, ◌≡◌, refl, List, [], ◌∷◌, some, none, arith}
use typeway.Grpc.Framing.{
  err, compressed_not_supported, Frames, encode_grpc_frame, decode_grpc_frame, decode_grpc_frames,
}
use typeway.Grpc.Framing.Parses.{Parses, decode_grpc_frames-Parses}
use typeway.Grpc.Message.{encode_grpc_message, decode_grpc_message}
use typeway.Grpc.Message.Utf8.{is_utf8}
use typeway.Grpc.Timeout.{panics, returns, parse_grpc_timeout}
use typeway.Grpc.Timeout.Reads.{Lasts, parse_grpc_timeout-decimal, parse_grpc_timeout_panics}

abbrev hi : List ℕ
hi = b'h' ∷ b'i' ∷ []

abbrev two_messages : List (List ℕ)
two_messages = hi ∷ [] ∷ []

frame_header : encode_grpc_frame hi ≡ 0 ∷ 0 ∷ 0 ∷ 0 ∷ 2 ∷ hi
unfolding encode_grpc_frame
frame_header = refl

compressed_refused : decode_grpc_frame (1 ∷ 0 ∷ 0 ∷ 0 ∷ 0 ∷ []) ≡ err compressed_not_supported
unfolding decode_grpc_frame
compressed_refused = refl

-- A frame with the compression flag is handed out as data by the decoder of several frames.
compressed_passed :
    decode_grpc_frames (1 ∷ 0 ∷ 0 ∷ 0 ∷ 1 ∷ 9 ∷ [])
    ≡ some (record { frames = (9 ∷ []) ∷ []; trailers = none })
unfolding decode_grpc_frames
compressed_passed = refl

escapes :
    encode_grpc_message (b'a' ∷ b'%' ∷ 10 ∷ [])
    ≡ b'a' ∷ b'%' ∷ b'2' ∷ b'5' ∷ b'%' ∷ b'0' ∷ b'A' ∷ []
unfolding encode_grpc_message
escapes = refl

bad_escape_kept : decode_grpc_message (b'%' ∷ b'Z' ∷ b'Z' ∷ []) ≡ b'%' ∷ b'Z' ∷ b'Z' ∷ []
unfolding decode_grpc_message is_utf8
bad_escape_kept = refl

thirty_seconds : parse_grpc_timeout (b' ' ∷ b'3' ∷ b'0' ∷ b'S' ∷ []) ≡ returns (some (30 * 10 ^ 9))
unfolding parse_grpc_timeout
thirty_seconds = refl

decode_grpc_frames-Parses_example :
    (r : Frames) × (decode_grpc_frames (0 ∷ 0 ∷ 0 ∷ 0 ∷ 1 ∷ 9 ∷ 0x80 ∷ []) ≡ some r)
    × Parses (0 ∷ 0 ∷ 0 ∷ 0 ∷ 1 ∷ 9 ∷ 0x80 ∷ []) r.frames r.trailers
decode_grpc_frames-Parses_example = decode_grpc_frames-Parses (0 ∷ 0 ∷ 0 ∷ 0 ∷ 1 ∷ 9 ∷ 0x80 ∷ [])

parse_grpc_timeout-decimal_example :
    parse_grpc_timeout (b'5' ∷ b'0' ∷ b'm' ∷ []) ≡ returns (some (50 * 10 ^ 6))
parse_grpc_timeout-decimal_example =
    parse_grpc_timeout-decimal b'5' (b'0' ∷ []) b'm' (omega arith) (omega arith) (omega arith) refl
      Lasts.millisecond

parse_grpc_timeout_panics_example : parse_grpc_timeout (b'1' ∷ 0xE9 ∷ []) ≡ panics
parse_grpc_timeout_panics_example = parse_grpc_timeout_panics (b'1' ∷ []) 0xE9 refl (omega arith)
