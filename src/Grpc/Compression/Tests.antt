-- ===== src/Grpc/Compression/Tests.antt =====
-- A toy compressor, and the theorems at concrete inputs.
use typeway.Base.{ℕ, ◌≡◌, refl, sym, ap, List, [], ◌∷◌, ◌++◌, Option, none, some, arith}
use typeway.Grpc.Framing as Framing
use typeway.Grpc.Framing.{decode_grpc_frame, encode_grpc_frame}
use typeway.Grpc.Compression.{
  deflate, Flate, compressed_but_no_algorithm, ok, err, compress, encode_compressed_frame,
  decode_frame_with_decompression,
}
use typeway.Grpc.Compression.Frames.{decode_frame_with_decompression-encode_compressed_frame}

abbrev tail : List ℕ → Option (List ℕ)
tail [] = none
tail (x ∷ xs) = some xs

abbrev untag : Option (List ℕ) → Option (List ℕ)
untag none = none
untag (some xs) = tail xs

-- A marker in front of the message.
abbrev mark : Flate
mark = record {
  gz_encode = λ m. some (31 ∷ m);
  gz_decode = tail;
  zlib_encode = λ m. some (120 ∷ m);
  zlib_decode = tail;
  gz_decode-gz_encode = λ m packed e. sym (ap untag e);
  zlib_decode-zlib_encode = λ m packed e. sym (ap untag e);
}

abbrev br : List ℕ
br = b'b' ∷ b'r' ∷ []

packs : compress mark (7 ∷ 8 ∷ []) deflate ≡ ok (120 ∷ 7 ∷ 8 ∷ [])
unfolding compress
packs = refl

decode_frame_with_decompression-encode_compressed_frame_example :
    (frame : List ℕ) × (encode_compressed_frame mark (7 ∷ 8 ∷ []) deflate ≡ ok frame)
    × (decode_frame_with_decompression mark (frame ++ 1 ∷ []) (some deflate) ≡ ok (7 ∷ 8 ∷ []))
    × (decode_frame_with_decompression mark (frame ++ 1 ∷ []) none
        ≡ err compressed_but_no_algorithm)
decode_frame_with_decompression-encode_compressed_frame_example =
    decode_frame_with_decompression-encode_compressed_frame mark (7 ∷ 8 ∷ []) (120 ∷ 7 ∷ 8 ∷ [])
      (1 ∷ []) deflate packs (omega arith)

plain_decoded : decode_grpc_frame (0 ∷ 0 ∷ 0 ∷ 0 ∷ 1 ∷ 9 ∷ []) ≡ Framing.ok (9 ∷ [])
unfolding decode_grpc_frame
plain_decoded = refl
