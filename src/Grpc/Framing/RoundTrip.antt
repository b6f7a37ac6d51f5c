-- ===== src/Grpc/Framing/RoundTrip.antt =====
-- Decoding frames that were encoded.
use typeway.Base.{
  ℕ, zero, suc, ◌+◌, ◌-◌, ◌/◌, ◌%◌, ◌^◌, ◌<◌, ◌≤◌, ◌≡◌, refl, sym, ap, ◌∙◌, List, [], ◌∷◌, ◌++◌,
  Option, none, some, ltb, length, take, length-append, take-append, drop-append, append_assoc,
  append-nil, arith, All, not-ltb, if◌then◌else◌,
}
use typeway.Grpc.Framing.{
  ok, err, incomplete, too_short, to_be_bytes, from_be_bytes, encode_grpc_frame, decode_grpc_frame,
  frames_loop, decode_grpc_frames,
}

abbrev pub IsU32 : ℕ → Type 0
IsU32 n = n < 2 ^ 32

pub be_bytes_lem :
    (n : ℕ)
    → IsU32 n
    → from_be_bytes (n / 2 ^ 24 % 256) (n / 2 ^ 16 % 256) (n / 2 ^ 8 % 256) (n % 256) ≡ n
be_bytes_lem n h = omega arith

-- A message below 4 GiB, framed, is decoded to itself, also where more bytes follow.
pub decode_grpc_frame-encode_grpc_frame :
    (message rest : List ℕ)
    → IsU32 (length message)
    → decode_grpc_frame (encode_grpc_frame message ++ rest) ≡ ok message
unfolding encode_grpc_frame decode_grpc_frame
decode_grpc_frame-encode_grpc_frame message rest h =
    let n : ℕ = length message % 2 ^ 32 in
    let len : from_be_bytes (n / 2 ^ 24 % 256) (n / 2 ^ 16 % 256) (n / 2 ^ 8 % 256) (n % 256)
        ≡ length message =
      be_bytes_lem n (omega arith) ∙ omega arith in
    rw
      (
        len,
        not-ltb (5 + length (message ++ rest)) (5 + length message)
            (omega (arith, length-append message rest)),
        take-append message rest,
      )
      refl

module _ (m front back : List ℕ) (x a b c d f : ℕ)
    (e : encode_grpc_frame m ≡ a ∷ b ∷ c ∷ d ∷ f ∷ (front ++ x ∷ back)) where
  split : m ≡ front ++ x ∷ back
  unfolding encode_grpc_frame
  split = cc

  header :
      (let n = length m % 2 ^ 32 in
        from_be_bytes (n / 2 ^ 24 % 256) (n / 2 ^ 16 % 256) (n / 2 ^ 8 % 256) (n % 256))
      ≡ from_be_bytes b c d f
  unfolding encode_grpc_frame
  header = cc

take_all : (xs : List ℕ) → take (length xs) xs ≡ xs
take_all xs = rw append-nil at (take-append xs [])

-- Cut anywhere, the frame of a message is refused: before the end of its header as too short, and
-- after it as incomplete, with the length that is missing.
pub decode_grpc_frame_cut :
    (message front back : List ℕ) (x : ℕ)
    → IsU32 (length message)
    → encode_grpc_frame message ≡ front ++ x ∷ back
    → decode_grpc_frame front
      ≡ err (
          if ltb (length front) 5
          then too_short (length front)
          else incomplete (length message) (length front - 5))
unfolding encode_grpc_frame decode_grpc_frame
decode_grpc_frame_cut m [] back x h e = refl
decode_grpc_frame_cut m (a ∷ []) back x h e = refl
decode_grpc_frame_cut m (a ∷ b ∷ []) back x h e = refl
decode_grpc_frame_cut m (a ∷ b ∷ c ∷ []) back x h e = refl
decode_grpc_frame_cut m (a ∷ b ∷ c ∷ d ∷ []) back x h e = refl
decode_grpc_frame_cut m (a ∷ b ∷ c ∷ d ∷ f ∷ front) back x h e =
    let n : ℕ = length m % 2 ^ 32 in
    let flag : a ≡ 0 = cc in
    let size : length m ≡ length front + suc (length back) =
      ap length (split m front back x a b c d f e) ∙ length-append front (x ∷ back) in
    let len : from_be_bytes b c d f ≡ length m =
      sym (header m front back x a b c d f e) ∙ be_bytes_lem n (omega arith) ∙ omega arith in
    ground (arith)

-- The frames of the messages, one after the other.
abbrev pub encode_all : List (List ℕ) → List ℕ
encode_all [] = []
encode_all (m ∷ ms) = encode_grpc_frame m ++ encode_all ms

-- The trailers frame of grpc-web: flag 0x80.
abbrev pub trailers_frame : List ℕ → List ℕ
trailers_frame payload = 0x80 ∷ (to_be_bytes (length payload) ++ payload)

frames_loop-encode :
    (fuel : ℕ) (m tail : List ℕ) (before : List (List ℕ))
    → IsU32 (length m)
    → frames_loop (suc fuel) (encode_grpc_frame m ++ tail) before
      ≡ frames_loop fuel tail (before ++ m ∷ [])
unfolding frames_loop encode_grpc_frame
frames_loop-encode fuel m tail before h =
    let n : ℕ = length m % 2 ^ 32 in
    let len : from_be_bytes (n / 2 ^ 24 % 256) (n / 2 ^ 16 % 256) (n / 2 ^ 8 % 256) (n % 256)
        ≡ length m =
      be_bytes_lem n (omega arith) ∙ omega arith in
    rw
      (
        len,
        not-ltb (length (m ++ tail)) (length m) (omega (arith, length-append m tail)),
        take-append m tail,
        drop-append m tail,
      )
      refl

-- What the loop does with the bytes behind the frames.
abbrev Ends : List ℕ → Option (List ℕ) → Type 0
Ends tail t =
    (fuel : ℕ) (before : List (List ℕ))
    → frames_loop (suc fuel) tail before ≡ some (record { frames = before; trailers = t })

frames_loop-encode_all :
    (ms : List (List ℕ)) (tail : List ℕ) (t : Option (List ℕ)) (fuel : ℕ) (before : List (List ℕ))
    → Ends tail t
    → All (λ m. IsU32 (length m)) ms
    → length ms < fuel
    → frames_loop fuel (encode_all ms ++ tail) before
      ≡ some (record { frames = before ++ ms; trailers = t })
frames_loop-encode_all ms tail t zero before ends h hf = elim hf [ ]
frames_loop-encode_all [] tail t (suc fuel) before ends h hf = ends fuel before ∙ rw append-nil
frames_loop-encode_all (m ∷ ms) tail t (suc fuel) before ends (hm, h) hf =
    rw (append_assoc (encode_grpc_frame m) (encode_all ms) tail) (
      frames_loop-encode fuel m (encode_all ms ++ tail) before hm
      ∙ frames_loop-encode_all ms tail t fuel (before ++ m ∷ []) ends h (omega arith)
      ∙ rw (append_assoc before (m ∷ []) ms))

length-encode_all : (ms : List (List ℕ)) → length ms ≤ length (encode_all ms)
unfolding encode_grpc_frame
length-encode_all [] = omega arith
length-encode_all (m ∷ ms) =
    omega (arith, length-append (encode_grpc_frame m) (encode_all ms), length-encode_all ms)

nothing-Ends : Ends [] none
unfolding frames_loop
nothing-Ends fuel before = refl

trailers-Ends :
    (payload : List ℕ) → IsU32 (length payload) → Ends (trailers_frame payload) (some payload)
unfolding frames_loop
trailers-Ends payload h fuel before =
    rw
      (
        be_bytes_lem (length payload) h,
        not-ltb (length payload) (length payload) (omega arith),
        take_all payload,
      )
      refl

-- The frames of any messages below 4 GiB are decoded to these messages, in order, with no trailers.
pub decode_grpc_frames-encode_all :
    (ms : List (List ℕ))
    → All (λ m. IsU32 (length m)) ms
    → decode_grpc_frames (encode_all ms) ≡ some (record { frames = ms; trailers = none })
unfolding decode_grpc_frames
decode_grpc_frames-encode_all ms h = rw (append-nil (encode_all ms)) at (
    frames_loop-encode_all ms [] none (suc (length (encode_all ms))) [] nothing-Ends h
      (omega (arith, length-encode_all ms)))

-- With a trailers frame behind them, they are decoded to the messages and the trailers.
pub decode_grpc_frames_trailers :
    (ms : List (List ℕ)) (payload : List ℕ)
    → All (λ m. IsU32 (length m)) ms
    → IsU32 (length payload)
    → decode_grpc_frames (encode_all ms ++ trailers_frame payload)
      ≡ some (record { frames = ms; trailers = some payload })
unfolding decode_grpc_frames
decode_grpc_frames_trailers ms payload h hp =
    frames_loop-encode_all ms (trailers_frame payload) (some payload)
      (suc (length (encode_all ms ++ trailers_frame payload))) [] (trailers-Ends payload hp) h
      (omega (arith, length-encode_all ms, length-append (encode_all ms) (trailers_frame payload)))
