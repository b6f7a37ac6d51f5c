-- ===== src/Codec/Decode/Packed.antt =====
-- Packed sequences: what the encoder of a packed field writes is decoded to the same values.
use typeway.Base.{
  ℕ, zero, suc, ◌+◌, ◌*◌, ◌%◌, ◌^◌, ◌≤◌, ◌≡◌, ◌≢◌, ◌⊎◌, inl, inr, refl, ap, ◌∙◌, List, [], ◌∷◌,
  ◌++◌, some, map-eq-some, length, length-append, drop, drop-append, length-drop, All, All-drop,
  All-append, arith, append-nil, append_assoc, bit_or, bit_and,
}
use typeway.Codec.Buffer.{Buf}
use typeway.Codec.Varint.{
  IsByte, IsU32, IsU64, Varint, last, more, Varints, done, step, Varints-exist, Varint-IsByte,
  Varint-length_pos,
}
use typeway.Codec.Encode.{tw_encode_packed_u32}
use typeway.Codec.Encode.Writes.{tw_encode_packed_u32-Varints}
use typeway.Codec.Decode.{
  Error, Result, ok, err, out_of_fuel, ◌>>=◌, join, decode_loop, unpack_loop, tw_decode_varint,
  tw_decode_packed_varints,
}
use typeway.Codec.Decode.RoundTrip.{tw_decode_varint-Varint, tw_decode_varint_bounds}
use mathlib.Core.Option

-- One round of the loop is one call of the general decoder, fast paths included.
unpack_loop_round :
    (fuel : ℕ) (b : ℕ) (rest result : List ℕ)
    → unpack_loop (suc fuel) (b ∷ rest) result ≡ (
        tw_decode_varint (b ∷ rest) >>= λ r.
        unpack_loop fuel (drop r.1 (b ∷ rest)) (result ++ r.0 ∷ []))
unfolding unpack_loop
unpack_loop_round fuel b [] result = ground arith
unpack_loop_round fuel b (b1 ∷ rest) result = ground arith

Varints-IsByte : {vs out : List ℕ} → Varints vs out → All IsByte out
Varints-IsByte done = tt
Varints-IsByte (step v vs bs rest out enc encs e) =
    rw e (All-append IsByte bs rest (Varint-IsByte enc) (Varints-IsByte encs))

unpack_loop-Varint :
    {v : ℕ} {bs : List ℕ}
    → Varint v bs
    → (fuel : ℕ) (rest result : List ℕ) → IsU64 v
    → All IsByte rest
    → unpack_loop (suc fuel) (bs ++ rest) result ≡ unpack_loop fuel rest (result ++ v ∷ [])
unpack_loop-Varint (last v h) fuel rest result hv hr =
    unpack_loop_round fuel v rest result
    ∙ rw (tw_decode_varint-Varint v (v ∷ []) rest (last v h) hv hr)
unpack_loop-Varint (more v bs h enc) fuel rest result hv hr =
    let x : ℕ = v % 128 + 128 in
    unpack_loop_round fuel x (bs ++ rest) result
    ∙ rw (tw_decode_varint-Varint v (x ∷ bs) rest (more v bs h enc) hv hr, drop-append bs rest)

unpack_loop-Varints :
    {vs out : List ℕ}
    → Varints vs out
    → (fuel : ℕ) (result : List ℕ) → All IsU64 vs
    → length out ≤ fuel
    → unpack_loop fuel out result ≡ ok (result ++ vs)
unpack_loop-Varints done fuel result h hf = unfold unpack_loop in rw append-nil
unpack_loop-Varints (step v vs bs rest out enc encs e) zero result h hf =
    absurd (omega (arith, ap length e, length-append bs rest, Varint-length_pos enc))
unpack_loop-Varints (step v vs bs rest out enc encs e) (suc fuel) result (hv, h) hf =
    let room : length rest ≤ fuel =
      omega (arith, ap length e, length-append bs rest, Varint-length_pos enc) in
    rw (e, unpack_loop-Varint enc fuel rest result hv (Varints-IsByte encs))
      (unpack_loop-Varints encs fuel (result ++ v ∷ []) h room
        ∙ ap ok (append_assoc result (v ∷ []) vs))

-- A packed sequence of u64 encodings is decoded to its values, in order.
pub tw_decode_packed_varints-Varints :
    (vs out : List ℕ) → Varints vs out → All IsU64 vs → tw_decode_packed_varints out ≡ ok vs
unfolding tw_decode_packed_varints
tw_decode_packed_varints-Varints vs out encs h =
    unpack_loop-Varints encs (length out) [] h (omega arith)

IsU64-of_u32 : (vs : List ℕ) → All IsU32 vs → All IsU64 vs
IsU64-of_u32 [] h = tt
IsU64-of_u32 (v ∷ vs) (p, h) = (omega arith, IsU64-of_u32 vs h)

-- What `tw_encode_packed_u32` writes to an empty buffer is decoded to the same values.
pub tw_decode_packed_varints-tw_encode_packed_u32 :
    (vs : List ℕ) (cap : ℕ)
    → All IsU32 vs
    → Option.map
        (λ b. tw_decode_packed_varints b.bytes)
        (tw_encode_packed_u32 (record { bytes = []; cap = cap }) vs)
      ≡ some (ok vs)
tw_decode_packed_varints-tw_encode_packed_u32 vs cap h =
    let (out, encs) = Varints-exist vs in
    let empty : Buf = record { bytes = []; cap = cap } in
    map-eq-some (tw_encode_packed_u32 empty vs) (λ b. b.bytes) tw_decode_packed_varints
      (tw_encode_packed_u32-Varints vs out empty encs h)
    ∙ ap some (tw_decode_packed_varints-Varints vs out encs (IsU64-of_u32 vs h))

decode_loop-ne :
    (bytes : List ℕ) (i value shift : ℕ) → decode_loop bytes i value shift ≢ out_of_fuel
unfolding decode_loop
decode_loop-ne [] i value shift e = cc
decode_loop-ne (b ∷ bytes) i value shift e =
    ground (arith, decode_loop-ne bytes (i + 1) (join value b shift) (shift + 7))

tw_decode_varint-ne : (bytes : List ℕ) → tw_decode_varint bytes ≢ out_of_fuel
unfolding tw_decode_varint
tw_decode_varint-ne [] e = cc
tw_decode_varint-ne (b0 ∷ []) e = ground arith
tw_decode_varint-ne (b0 ∷ b1 ∷ rest) e =
    ground (arith, decode_loop-ne rest 0 (bit_or (bit_and b0 0x7F) (bit_and b1 0x7F * 2 ^ 7)) 14)

Result-cases {ℓ} :
    {A : Type ℓ} (outcome : Result A)
    → outcome ≢ out_of_fuel
    → ((a : A) × (outcome ≡ ok a)) ⊎ ((e : Error) × (outcome ≡ err e))
Result-cases (err e) ended = inr (e, refl)
Result-cases (ok a) ended = inl (a, refl)
Result-cases out_of_fuel ended = absurd (ended refl)

pub tw_decode_varint_cases :
    (bytes : List ℕ)
    → ((r : ℕ × ℕ) × (tw_decode_varint bytes ≡ ok r))
      ⊎ ((e : Error) × (tw_decode_varint bytes ≡ err e))
tw_decode_varint_cases bytes = Result-cases (tw_decode_varint bytes) (tw_decode_varint-ne bytes)

unpack_loop-ne :
    (fuel : ℕ) (bytes result : List ℕ)
    → All IsByte bytes
    → length bytes ≤ fuel
    → unpack_loop fuel bytes result ≢ out_of_fuel
unpack_loop-ne fuel [] result h hf = unfold unpack_loop in λ e. cc
unpack_loop-ne zero (b ∷ bytes) result h hf = absurd (omega arith)
unpack_loop-ne (suc fuel) (b ∷ bytes) result h hf =
    rw (unpack_loop_round fuel b bytes result) (elim (tw_decode_varint_cases (b ∷ bytes)) [
      | inl ((v, n), e) ↦ rw e (
          let (_, pos, _, le) = tw_decode_varint_bounds (b ∷ bytes) v n h e in
          unpack_loop-ne fuel (drop n (b ∷ bytes)) (result ++ v ∷ [])
            (All-drop IsByte n (b ∷ bytes) h) (omega (arith, length-drop n (b ∷ bytes))))
      | inr (x, e) ↦ rw e (λ q. cc)
    ])

-- The decoder of packed values ends on every sequence of bytes, with values or with an error.
pub tw_decode_packed_varints_total :
    (packed : List ℕ)
    → All IsByte packed
    → ((vs : List ℕ) × (tw_decode_packed_varints packed ≡ ok vs))
      ⊎ ((e : Error) × (tw_decode_packed_varints packed ≡ err e))
unfolding tw_decode_packed_varints
tw_decode_packed_varints_total packed h =
    Result-cases (unpack_loop (length packed) packed [])
      (unpack_loop-ne (length packed) packed [] h (omega arith))
