-- ===== src/Grpc/Framing.antt =====
-- typeway-grpc/src/framing.rs: the five-byte header in front of each message.
pub mod Parses
pub mod RoundTrip
use typeway.Base.{
  ℕ, zero, suc, ◌+◌, ◌-◌, ◌*◌, ◌/◌, ◌%◌, ◌^◌, List, [], ◌∷◌, ◌++◌, Option, none, some, ltb, leb,
  ◌==◌, length, take, drop, if◌then◌else◌, not,
}

pub data FramingError : Type 0 where
  too_short : (got : ℕ) → FramingError
  compressed_not_supported : FramingError
  incomplete : (expected got : ℕ) → FramingError

pub data Result {ℓ} (A : Type ℓ) : Type ℓ where
  ok : A → Result A
  err : FramingError → Result A

-- `len.to_be_bytes()` of a u32
abbrev pub to_be_bytes : ℕ → List ℕ
to_be_bytes n = n / 2 ^ 24 % 256 ∷ n / 2 ^ 16 % 256 ∷ n / 2 ^ 8 % 256 ∷ n % 256 ∷ []

-- `u32::from_be_bytes`
abbrev pub from_be_bytes : ℕ → ℕ → ℕ → ℕ → ℕ
from_be_bytes a b c d = ((a * 256 + b) * 256 + c) * 256 + d

-- `message.len() as u32` keeps the low 32 bits.
unfoldable pub encode_grpc_frame : List ℕ → List ℕ
encode_grpc_frame message = 0 ∷ (to_be_bytes (length message % 2 ^ 32) ++ message)

unfoldable pub decode_grpc_frame : List ℕ → Result (List ℕ)
decode_grpc_frame (compressed ∷ b1 ∷ b2 ∷ b3 ∷ b4 ∷ rest) =
    let len = from_be_bytes b1 b2 b3 b4 in
    if not (compressed == 0)
    then err compressed_not_supported
    else if ltb (5 + length rest) (5 + len)
    then err (incomplete len (length rest))
    else ok (take len rest)
decode_grpc_frame bytes = err (too_short (length bytes))

-- What `decode_grpc_frames` returns: the data frames and the trailers.
pub record Frames : Type 0 where
  pub frames : List (List ℕ)
  pub trailers : Option (List ℕ)

-- The loop of `decode_grpc_frames` over the bytes from `offset` on. `none`: out of fuel.
unfoldable pub frames_loop : ℕ → List ℕ → List (List ℕ) → Option Frames
frames_loop zero bytes frames = none
frames_loop (suc fuel) (flag ∷ b1 ∷ b2 ∷ b3 ∷ b4 ∷ rest) frames =
    let len = from_be_bytes b1 b2 b3 b4 in
    let frame = take len rest in
    let next = frames_loop fuel (drop len rest) (frames ++ frame ∷ []) in
    if ltb (length rest) len
    then some (record { frames = frames; trailers = none })
    else if flag == 0x80
    then some (record { frames = frames; trailers = some frame })
    else next
frames_loop (suc fuel) bytes frames = some (record { frames = frames; trailers = none })

-- Every round but the last takes the five bytes of a header.
unfoldable pub decode_grpc_frames : List ℕ → Option Frames
unfolding frames_loop
decode_grpc_frames bytes = frames_loop (suc (length bytes)) bytes []
