-- ===== src/Grpc/Compression.antt =====
-- typeway-grpc/src/compression.rs: the choice of an algorithm, and frames with a compressed message. A
-- header is given as its text, where it has one. The crate that compresses is an interface.
pub mod Frames
pub mod Choice
mod Tests
use typeway.Base.{
  ℕ, ◌+◌, ◌^◌, ◌%◌, ◌≡◌, Bool, List, [], ◌∷◌, ◌++◌, Option, none, some, ltb, ◌==◌, length, take,
  if◌then◌else◌,
}
use typeway.Grpc.Framing.{to_be_bytes, from_be_bytes}
use typeway.Grpc.Timeout.{trim}
use typeway.Router.Pattern.{bytes_eq}

pub data Compression : Type 0 where
  gzip deflate : Compression

abbrev gzip_text : List ℕ
gzip_text = b'g' ∷ b'z' ∷ b'i' ∷ b'p' ∷ []

abbrev deflate_text : List ℕ
deflate_text = b'd' ∷ b'e' ∷ b'f' ∷ b'l' ∷ b'a' ∷ b't' ∷ b'e' ∷ []

unfoldable pub as_str : Compression → List ℕ
as_str gzip = gzip_text
as_str deflate = deflate_text

-- The algorithm of a name.
abbrev pub named : List ℕ → Option Compression
named name =
    if bytes_eq name gzip_text
    then some gzip
    else if bytes_eq name deflate_text
    then some deflate
    else none

unfoldable pub incoming_compression : Option (List ℕ) → Option Compression
incoming_compression none = none
incoming_compression (some encoding) = named encoding

-- `split(',')`, with the current part in `part`.
unfoldable pub split_commas : List ℕ → List ℕ → List (List ℕ)
split_commas part [] = part ∷ []
split_commas part (c ∷ text) =
    let cut = part ∷ split_commas [] text in
    let longer = split_commas (part ++ c ∷ []) text in if c == b',' then cut else longer

-- The loop over the parts: the first one that names an algorithm.
unfoldable pub first_named : List (List ℕ) → Option Compression
unfolding trim
first_named [] = none
first_named (part ∷ parts) =
    let later = first_named parts in elim (named (trim part)) [ some c ↦ some c | none ↦ later ]

unfoldable pub negotiate_compression : Option (List ℕ) → Option Compression
unfolding split_commas first_named
negotiate_compression none = none
negotiate_compression (some accept) = first_named (split_commas [] accept)

-- The `flate2` crate: `none` is an I/O error. What a format's encoder gives, its decoder reads back.
pub record Flate : Type 0 where
  pub gz_encode : List ℕ → Option (List ℕ)
  pub gz_decode : List ℕ → Option (List ℕ)
  pub zlib_encode : List ℕ → Option (List ℕ)
  pub zlib_decode : List ℕ → Option (List ℕ)
  pub gz_decode-gz_encode :
      (message packed : List ℕ) → gz_encode message ≡ some packed → gz_decode packed ≡ some message
  pub zlib_decode-zlib_encode :
      (message packed : List ℕ)
      → zlib_encode message ≡ some packed
      → zlib_decode packed ≡ some message

pub data CompressionError : Type 0 where
  io frame_too_short frame_incomplete compressed_but_no_algorithm : CompressionError

pub data Result (A : Type 0) : Type 0 where
  ok : A → Result A
  err : CompressionError → Result A

-- An I/O error becomes `CompressionError::Io`.
abbrev pub from_io : Option (List ℕ) → Result (List ℕ)
from_io none = err io
from_io (some bytes) = ok bytes

module _ (F : Flate) where
  unfoldable pub compress : List ℕ → Compression → Result (List ℕ)
  compress bytes gzip = from_io (F.gz_encode bytes)
  compress bytes deflate = from_io (F.zlib_encode bytes)

  unfoldable pub decompress : List ℕ → Compression → Result (List ℕ)
  decompress bytes gzip = from_io (F.gz_decode bytes)
  decompress bytes deflate = from_io (F.zlib_decode bytes)

  unfoldable pub encode_compressed_frame : List ℕ → Compression → Result (List ℕ)
  encode_compressed_frame message algo = elim (compress message algo) [
    | ok compressed ↦ ok (1 ∷ (to_be_bytes (length compressed % 2 ^ 32) ++ compressed))
    | err e ↦ err e
  ]

  abbrev pub unpack : Option Compression → List ℕ → Result (List ℕ)
  unpack none payload = err compressed_but_no_algorithm
  unpack (some algo) payload = decompress payload algo

  unfoldable pub decode_frame_with_decompression : List ℕ → Option Compression → Result (List ℕ)
  decode_frame_with_decompression (compressed_flag ∷ b1 ∷ b2 ∷ b3 ∷ b4 ∷ rest) compression =
      let len = from_be_bytes b1 b2 b3 b4 in
      if ltb (5 + length rest) (5 + len)
      then err frame_incomplete
      else if compressed_flag == 1
      then unpack compression (take len rest)
      else ok (take len rest)
  decode_frame_with_decompression _ compression = err frame_too_short
