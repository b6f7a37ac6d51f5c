-- ===== src/Grpc/Framing/Parses.antt =====
-- What a buffer of frames holds, as a relation, and that the decoder finds it on any input.
use typeway.Base.{
  ℕ, zero, suc, ◌<◌, ◌≡◌, ◌≢◌, refl, ◌∙◌, List, [], ◌∷◌, ◌++◌, Option, none, some, length, take,
  drop, length-take, length-drop, append_assoc, append-nil, arith, dec_lt, ℕ_discrete,
  take-append-drop, not-ltb, lt→ltb, eq→==, ne→==,
}
use typeway.Grpc.Framing.{Frames, from_be_bytes, frames_loop, decode_grpc_frames}

-- A header with the flag and the declared length.
pub record Header (flag len : ℕ) (bytes rest : List ℕ) : Type 0 where
  pub b1 : ℕ
  pub b2 : ℕ
  pub b3 : ℕ
  pub b4 : ℕ
  pub declared : len ≡ from_be_bytes b1 b2 b3 b4
  pub split : bytes ≡ flag ∷ b1 ∷ b2 ∷ b3 ∷ b4 ∷ rest

-- `Parses bytes fs t`: the buffer holds the data frames `fs`, then the trailers `t`, if any, and then
-- something that is not decoded.
pub data Parses : List ℕ → List (List ℕ) → Option (List ℕ) → Type 0 where
  no_header : (bytes : List ℕ) → length bytes < 5 → Parses bytes [] none
  cut_off :
      (flag len : ℕ) (bytes rest : List ℕ)
      → Header flag len bytes rest
      → length rest < len
      → Parses bytes [] none
  trailer :
      (flag len : ℕ) (bytes payload rest : List ℕ)
      → flag ≡ 0x80
      → Header flag len bytes (payload ++ rest)
      → length payload ≡ len
      → Parses bytes [] (some payload)
  data_frame :
      (flag len : ℕ) (bytes payload rest : List ℕ) (fs : List (List ℕ)) (t : Option (List ℕ))
      → flag ≢ 0x80
      → Header flag len bytes (payload ++ rest)
      → length payload ≡ len
      → Parses rest fs t
      → Parses bytes (payload ∷ fs) t

-- The loop returns the frames that it was given, with those of the buffer behind them.
abbrev Found : ℕ → List ℕ → List (List ℕ) → Type 0
Found fuel bytes before =
    (fs : List (List ℕ)) × (t : Option (List ℕ)) × (frames_loop fuel bytes before
      ≡ some (record { frames = before ++ fs; trailers = t }))
    × Parses bytes fs t

frames_loop-Found :
    (fuel : ℕ) (bytes : List ℕ) (before : List (List ℕ))
    → length bytes < fuel
    → Found fuel bytes before
unfolding frames_loop
frames_loop-Found zero bytes before h = elim h [ ]
frames_loop-Found (suc fuel) [] before h = ([], none, rw append-nil, no_header [] (omega arith))
frames_loop-Found (suc fuel) (a ∷ []) before h =
    ([], none, rw append-nil, no_header (a ∷ []) (omega arith))
frames_loop-Found (suc fuel) (a ∷ b ∷ []) before h =
    ([], none, rw append-nil, no_header (a ∷ b ∷ []) (omega arith))
frames_loop-Found (suc fuel) (a ∷ b ∷ c ∷ []) before h =
    ([], none, rw append-nil, no_header (a ∷ b ∷ c ∷ []) (omega arith))
frames_loop-Found (suc fuel) (a ∷ b ∷ c ∷ d ∷ []) before h =
    ([], none, rw append-nil, no_header (a ∷ b ∷ c ∷ d ∷ []) (omega arith))
frames_loop-Found (suc fuel) (flag ∷ b1 ∷ b2 ∷ b3 ∷ b4 ∷ rest) before h =
    let len : ℕ = from_be_bytes b1 b2 b3 b4 in
    let head : (r : List ℕ) → r ≡ rest → Header flag len (flag ∷ b1 ∷ b2 ∷ b3 ∷ b4 ∷ rest) r =
      λ r e. record { b1 = b1; b2 = b2; b3 = b3; b4 = b4; declared = refl; split = rw e } in
    elim (dec_lt (length rest) len) [
      | yes short ↦ (
        [],
        none,
        rw (lt→ltb (length rest) len short, append-nil),
        cut_off flag len _ rest (head rest refl) short,
      )
      | no long ↦ elim (ℕ_discrete flag 0x80) [
        | yes e ↦ (
          [],
          some (take len rest),
          rw (not-ltb (length rest) len (omega arith), eq→== flag 0x80 e, append-nil) refl,
          trailer flag len _ (take len rest) (drop len rest) e (head _ (take-append-drop len rest))
              (length-take len rest (omega arith)),
        )
        | no ne ↦
            let (fs, t, run, parse) =
              frames_loop-Found fuel (drop len rest) (before ++ take len rest ∷ [])
                (omega (arith, length-drop len rest)) in
            (
              take len rest ∷ fs,
              t,
              rw (not-ltb (length rest) len (omega arith), ne→== flag 0x80 ne)
                  (run ∙ rw (append_assoc before (take len rest ∷ []) fs)),
              data_frame flag len _ (take len rest) (drop len rest) fs t ne
                  (head _ (take-append-drop len rest)) (length-take len rest (omega arith)) parse,
            )
      ]
    ]

-- On every buffer the decoder ends, and what it returns is what the buffer holds: each frame under a
-- header with its length, in order, up to a trailers frame, a header that declares more than there is,
-- or fewer than five bytes.
pub decode_grpc_frames-Parses :
    (bytes : List ℕ)
    → (r : Frames) × (decode_grpc_frames bytes ≡ some r) × Parses bytes r.frames r.trailers
unfolding decode_grpc_frames
decode_grpc_frames-Parses bytes =
    let (fs, t, run, parse) = frames_loop-Found (suc (length bytes)) bytes [] (omega arith) in
    (record { frames = fs; trailers = t }, run, parse)
