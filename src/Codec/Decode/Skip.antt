-- ===== src/Codec/Decode/Skip.antt =====
-- Skipping a field of any wire type.
use typeway.Base.{
  ℕ, ◌+◌, ◌-◌, ◌%◌, ◌^◌, ◌<◌, ◌≤◌, ◌≡◌, inl, inr, refl, ap, ◌∙◌, List, [], ◌∷◌, ◌++◌, length,
  length-append, All, All-append, arith, append_assoc,
}
use typeway.Codec.Varint.{IsByte, IsU64, Varint, Varint-length_u64}
use typeway.Codec.Decode.{ok, take_fixed, tw_decode_varint, tw_skip_wire_value}
use typeway.Codec.Decode.RoundTrip.{tw_decode_varint-Varint, tw_decode_varint_bounds}
use typeway.Codec.Decode.Packed.{tw_decode_varint_cases}

-- The field values of the wire format: `Field w bytes` says that `bytes` is one value of wire type `w`.
pub data Field : ℕ → List ℕ → Type 0 where
  varint : (w v : ℕ) (bs : List ℕ) → w ≡ 0 → Varint v bs → IsU64 v → Field w bs
  fixed64 : (w : ℕ) (bs : List ℕ) → w ≡ 1 → length bs ≡ 8 → Field w bs
  delimited :
      (w : ℕ) (hdr payload bs : List ℕ)
      → w ≡ 2
      → Varint (length payload) hdr
      → bs ≡ hdr ++ payload
      → length bs < 2 ^ 64
      → Field w bs
  fixed32 : (w : ℕ) (bs : List ℕ) → w ≡ 5 → length bs ≡ 4 → Field w bs

take_fixed_ok : (bytes : List ℕ) (n : ℕ) → n ≤ length bytes → take_fixed bytes n ≡ ok n
take_fixed_ok bytes n h = ground arith

pub All-back : (xs ys : List ℕ) → All IsByte (xs ++ ys) → All IsByte ys
All-back [] ys h = h
All-back (x ∷ xs) ys (p, h) = All-back xs ys h

-- Whatever value stands in front, exactly its bytes are skipped.
pub tw_skip_wire_value-Field :
    (w : ℕ) (bs rest : List ℕ)
    → Field w bs
    → All IsByte bs
    → All IsByte rest
    → tw_skip_wire_value (bs ++ rest) w ≡ ok (length bs)
unfolding tw_skip_wire_value
tw_skip_wire_value-Field _ _ rest (varint w v bs e enc hv) hb hr =
    rw (e, tw_decode_varint-Varint v bs rest enc hv hr) refl
tw_skip_wire_value-Field _ _ rest (fixed64 w bs e len) hb hr =
    rw e (rw len (take_fixed_ok (bs ++ rest) 8 (omega (arith, length-append bs rest))))
tw_skip_wire_value-Field _ _ rest (delimited w hdr payload bs e enc split small) hb hr =
    let sizes : length bs ≡ length hdr + length payload =
      ap length split ∙ length-append hdr payload in
    let tail : All IsByte (payload ++ rest) =
      All-append IsByte payload rest (All-back hdr payload (rw split at hb)) hr in
    let read : tw_decode_varint (bs ++ rest) ≡ ok (length payload, length hdr) =
      rw (split, append_assoc hdr payload rest)
        (tw_decode_varint-Varint (length payload) hdr (payload ++ rest) enc (omega arith) tail) in
    let total : (length hdr + length payload) % 2 ^ 64 ≡ length bs = omega arith in
    rw (e, read)
      (rw total (take_fixed_ok (bs ++ rest) (length bs) (omega (arith, length-append bs rest))))
tw_skip_wire_value-Field _ _ rest (fixed32 w bs e len) hb hr =
    rw e (rw len (take_fixed_ok (bs ++ rest) 4 (omega (arith, length-append bs rest))))

-- What is skipped lies within the input, for every wire type and every input.
pub tw_skip_wire_value_bounds :
    (bytes : List ℕ) (w n : ℕ)
    → All IsByte bytes
    → tw_skip_wire_value bytes w ≡ ok n
    → n ≤ length bytes
unfolding tw_skip_wire_value
tw_skip_wire_value_bounds bytes w n h e = elim (tw_decode_varint_cases bytes) [
  | inl ((v, k), d) ↦ ground (arith, d, tw_decode_varint_bounds bytes v k h d)
  | inr (x, d) ↦ ground (arith, d)
]

-- A declared length that makes header and payload pass 2 ^ 64 wraps the sum: no error is reported, and
-- the bytes skipped are fewer than the header's own.
pub tw_skip_wire_value_wraps :
    (len : ℕ) (hdr rest : List ℕ)
    → Varint len hdr
    → IsU64 len
    → 2 ^ 64 ≤ length hdr + len
    → All IsByte rest
    → (tw_skip_wire_value (hdr ++ rest) 2 ≡ ok (length hdr + len - 2 ^ 64))
      × (length hdr + len - 2 ^ 64 < length hdr)
unfolding tw_skip_wire_value
tw_skip_wire_value_wraps len hdr rest enc hv big hr =
    let total : (length hdr + len) % 2 ^ 64 ≡ length hdr + len - 2 ^ 64 =
      omega (arith, Varint-length_u64 enc hv) in
    (
      rw (tw_decode_varint-Varint len hdr rest enc hv hr) (
          rw total (
            take_fixed_ok (hdr ++ rest) (length hdr + len - 2 ^ 64)
              (omega (arith, length-append hdr rest)))),
      omega arith,
    )
