-- ===== src/Grpc/Compression/Frames.antt =====
-- Frames that were written are read back, compressed or not.
use typeway.Base.{
  ℕ, ◌+◌, ◌/◌, ◌%◌, ◌^◌, ◌≡◌, refl, ◌∙◌, List, [], ◌∷◌, ◌++◌, Option, none, some, ◌==◌, length,
  length-append, take-append, arith, not-ltb, Option-cases, inl, inr, if◌then◌else◌,
}
use typeway.Grpc.Framing as Framing
use typeway.Grpc.Framing.{to_be_bytes, from_be_bytes, encode_grpc_frame, decode_grpc_frame}
use typeway.Grpc.Framing.RoundTrip.{IsU32, be_bytes_lem}
use typeway.Grpc.Compression.{
  Compression, gzip, deflate, Flate, io, compressed_but_no_algorithm, Result, ok, err, compress,
  decompress, unpack, encode_compressed_frame, decode_frame_with_decompression,
}

module _ (F : Flate) where
  decompress-compress :
      (message packed : List ℕ) (algo : Compression)
      → compress F message algo ≡ ok packed
      → decompress F packed algo ≡ ok message
  unfolding compress decompress
  decompress-compress message packed gzip e = elim (Option-cases (F.gz_encode message)) [
    | inl failed ↦ let q : ◌≡◌ {A = Result (List ℕ)} (err io) (ok packed) = rw failed at e in cc
    | inr (p, written) ↦
        let q : ◌≡◌ {A = Result (List ℕ)} (ok p) (ok packed) = rw written at e in
        let same : p ≡ packed = cc in rw (← same, F.gz_decode-gz_encode message p written) refl
  ]
  decompress-compress message packed deflate e = elim (Option-cases (F.zlib_encode message)) [
    | inl failed ↦ let q : ◌≡◌ {A = Result (List ℕ)} (err io) (ok packed) = rw failed at e in cc
    | inr (p, written) ↦
        let q : ◌≡◌ {A = Result (List ℕ)} (ok p) (ok packed) = rw written at e in
        let same : p ≡ packed = cc in rw (← same, F.zlib_decode-zlib_encode message p written) refl
  ]

  -- A frame with a payload below 4 GiB, read with more bytes behind it.
  decode_of_header :
      (flag : ℕ) (payload rest : List ℕ) (c : Option Compression)
      → IsU32 (length payload)
      → decode_frame_with_decompression F
          (flag ∷ (to_be_bytes (length payload % 2 ^ 32) ++ (payload ++ rest)))
          c
        ≡ (if flag == 1 then unpack F c payload else ok payload)
  unfolding decode_frame_with_decompression
  decode_of_header flag payload rest c h =
      let n : ℕ = length payload % 2 ^ 32 in
      let len : from_be_bytes (n / 2 ^ 24 % 256) (n / 2 ^ 16 % 256) (n / 2 ^ 8 % 256) (n % 256)
          ≡ length payload =
        be_bytes_lem n (omega arith) ∙ omega arith in
      rw
        (
          len,
          not-ltb (5 + length (payload ++ rest)) (5 + length payload)
              (omega (arith, length-append payload rest)),
          take-append payload rest,
        )
        refl

  -- A message that was compressed, to less than 4 GiB, into a frame is decoded to itself with the same
  -- algorithm, and is refused with no algorithm, also where more bytes follow.
  pub decode_frame_with_decompression-encode_compressed_frame :
      (message packed rest : List ℕ) (algo : Compression)
      → compress F message algo ≡ ok packed
      → IsU32 (length packed)
      → (frame : List ℕ) × (encode_compressed_frame F message algo ≡ ok frame)
        × (decode_frame_with_decompression F (frame ++ rest) (some algo) ≡ ok message)
        × (decode_frame_with_decompression F (frame ++ rest) none ≡ err compressed_but_no_algorithm)
  unfolding encode_compressed_frame
  decode_frame_with_decompression-encode_compressed_frame message packed rest algo e h = (
    1 ∷ (to_be_bytes (length packed % 2 ^ 32) ++ packed),
    rw (e, encode_compressed_frame) refl,
    decode_of_header 1 packed rest (some algo) h ∙ decompress-compress message packed algo e,
    decode_of_header 1 packed rest none h,
  )

  -- What the decoder without compression accepts, this one accepts with the same message, whatever the
  -- algorithm.
  pub decode_frame_with_decompression-decode_grpc_frame :
      (bytes message : List ℕ) (c : Option Compression)
      → decode_grpc_frame bytes ≡ Framing.ok message
      → decode_frame_with_decompression F bytes c ≡ ok message
  unfolding decode_frame_with_decompression decode_grpc_frame
  decode_frame_with_decompression-decode_grpc_frame [] message c e = cc
  decode_frame_with_decompression-decode_grpc_frame (a ∷ []) message c e = cc
  decode_frame_with_decompression-decode_grpc_frame (a ∷ b1 ∷ []) message c e = cc
  decode_frame_with_decompression-decode_grpc_frame (a ∷ b1 ∷ b2 ∷ []) message c e = cc
  decode_frame_with_decompression-decode_grpc_frame (a ∷ b1 ∷ b2 ∷ b3 ∷ []) message c e = cc
  decode_frame_with_decompression-decode_grpc_frame (a ∷ b1 ∷ b2 ∷ b3 ∷ b4 ∷ rest) message c e =
      ground arith
