-- ===== src/Codec/Encode/Writes.antt =====
-- What the encoders write, and that their raw writes stay within the reserved capacity.
use typeway.Base.{
  ℕ, ◌+◌, ◌*◌, ◌/◌, ◌%◌, ◌<◌, ◌≤◌, ◌≡◌, refl, List, [], ◌∷◌, ◌++◌, none, some, length,
  length-append, append_assoc, append-nil, All, arith, dec_le, dec_lt, ap, ◌∙◌, if◌then◌else◌, leb,
  lt→ltb, not-ltb,
}
use typeway.Base.Bits.{low_group}
use typeway.Codec.Buffer.{Buf, poke, reserve, push}
use typeway.Codec.Varint.{
  IsU32, IsU64, Varint, last, more, Varints, done, step, Varints-length_u32, Varint-length_u64,
}
use typeway.Codec.Encode.{
  shift_lt, write_loop, tw_encode_varint_unchecked, tw_encode_varint, packed_loop,
  tw_encode_packed_u32,
}
use native.Mathlib.Bridge.{le_prop}
use typeway.Base.Order.{lt_wf}
use typeway.Base.Options.{◌>>=◌}
use mathlib.Core.Option
use mathlib.Core.Logic.{dif_pos, dif_neg}
use mathlib.Core.WellFounded.{Acc}

poke_room :
    (x : ℕ) (b : Buf)
    → length b.bytes < b.cap
    → poke x b ≡ some (record b { bytes = b.bytes ++ x ∷ [] })
unfolding poke
poke_room x b h = ground arith

poke_full : (x : ℕ) (b : Buf) → b.cap ≤ length b.bytes → poke x b ≡ none
unfolding poke
poke_full x b h = ground arith

module _ (v : ℕ) (smaller : (m : ℕ) → m < v → Acc ◌<◌ m) (b : Buf) where
  write_loop_last : v < 128 → write_loop v (Acc.intro v smaller) b ≡ poke v b
  unfolding write_loop
  write_loop_last h = rw (dif_neg (dec_le 128 v) (omega arith)) (ap (λ x. poke x b) (omega arith))

  write_loop_more :
      (h : 128 ≤ v)
      → write_loop v (Acc.intro v smaller) b
        ≡ (poke (v % 128 + 128) b >>= write_loop (v / 128) (smaller (v / 128) (shift_lt v h)))
  unfolding write_loop
  write_loop_more h = rw (dif_pos (dec_le 128 v) le_prop h, low_group v)

-- With room for the encoding, the loop appends it and leaves the capacity.
pub write_loop-Varint :
    {v : ℕ} {bs : List ℕ}
    → Varint v bs
    → (w : Acc ◌<◌ v) (b : Buf) → length b.bytes + length bs ≤ b.cap
    → write_loop v w b ≡ some (record b { bytes = b.bytes ++ bs })
write_loop-Varint (last v h) (Acc.intro _ smaller) b room =
    rw (write_loop_last v smaller b h) (poke_room v b (omega arith))
write_loop-Varint (more v bs h enc) (Acc.intro _ smaller) b room =
    let x : ℕ = v % 128 + 128 in
    let grown : Buf = record b { bytes = b.bytes ++ x ∷ [] } in
    let fits : length (b.bytes ++ x ∷ []) + length bs ≤ b.cap =
      omega (arith, length-append b.bytes (x ∷ [])) in
    rw (write_loop_more v smaller b h, poke_room x b (omega arith))
      (write_loop-Varint enc (smaller (v / 128) (shift_lt v h)) grown fits
        ∙ rw (append_assoc b.bytes (x ∷ []) bs))

-- Without it, some write would be out of bounds.
pub write_loop_overflow :
    {v : ℕ} {bs : List ℕ}
    → Varint v bs
    → (w : Acc ◌<◌ v) (b : Buf) → b.cap < length b.bytes + length bs
    → write_loop v w b ≡ none
write_loop_overflow (last v h) (Acc.intro _ smaller) b tight =
    rw (write_loop_last v smaller b h) (poke_full v b (omega arith))
write_loop_overflow (more v bs h enc) (Acc.intro _ smaller) b tight =
    let x : ℕ = v % 128 + 128 in
    let grown : Buf = record b { bytes = b.bytes ++ x ∷ [] } in
    let full : b.cap < length (b.bytes ++ x ∷ []) + length bs =
      omega (arith, length-append b.bytes (x ∷ [])) in
    rw (write_loop_more v smaller b h) (elim (dec_lt (length b.bytes) b.cap) [
      | yes p ↦
          rw (poke_room x b p)
            (write_loop_overflow enc (smaller (v / 128) (shift_lt v h)) grown full)
      | no p ↦ rw (poke_full x b (omega arith))
    ])

-- The unchecked encoder appends the encoding when the spare capacity holds it, and writes out of
-- bounds otherwise.
pub tw_encode_varint_unchecked-Varint :
    (v : ℕ) (bs : List ℕ) (b : Buf)
    → Varint v bs
    → tw_encode_varint_unchecked b v ≡ (
        if leb (length b.bytes + length bs) b.cap
        then some (record b { bytes = b.bytes ++ bs })
        else none)
unfolding tw_encode_varint_unchecked
tw_encode_varint_unchecked-Varint v bs b enc = elim (dec_le (length b.bytes + length bs) b.cap) [
  | yes room ↦ rw (write_loop-Varint enc (lt_wf.apply v) b room) (ground arith)
  | no tight ↦ rw (write_loop_overflow enc (lt_wf.apply v) b (omega arith)) (ground arith)
]

-- `tw_encode_varint` appends the encoding of any u64, and no raw write leaves the capacity.
pub tw_encode_varint-Varint :
    (v : ℕ) (bs : List ℕ) (b : Buf)
    → Varint v bs
    → IsU64 v
    → Option.map (λ b'. b'.bytes) (tw_encode_varint b v) ≡ some (b.bytes ++ bs)
unfolding tw_encode_varint push
tw_encode_varint-Varint _ _ b (last v h) u64 =
    rw (lt→ltb v 128 h) (ap some (ap (λ x. b.bytes ++ x ∷ []) (omega arith)))
tw_encode_varint-Varint _ _ b (more v cs h enc) u64 =
    unfold reserve in
    rw
      (
        not-ltb v 128 h,
        write_loop-Varint (more v cs h enc) (lt_wf.apply v) (reserve 10 b)
            (omega (arith, Varint-length_u64 (more v cs h enc) u64)),
      )
      refl

packed_loop-Varints :
    {vs out : List ℕ}
    → Varints vs out
    → (b : Buf) → length b.bytes + length out ≤ b.cap
    → packed_loop vs b ≡ some (record b { bytes = b.bytes ++ out })
unfolding packed_loop
packed_loop-Varints done b room = rw (append-nil b.bytes)
packed_loop-Varints (step v vs bs rest out enc encs e) b room =
    let sizes : length out ≡ length bs + length rest = ap length e ∙ length-append bs rest in
    let grown : Buf = record b { bytes = b.bytes ++ bs } in
    rw (write_loop-Varint enc (lt_wf.apply v) b (omega arith)) (
      packed_loop-Varints encs grown (omega (arith, length-append b.bytes bs))
      ∙ rw (append_assoc b.bytes bs rest, e))

-- `tw_encode_packed_u32` appends the encodings of all values, in order; the five bytes reserved for
-- each value are enough for its raw writes.
pub tw_encode_packed_u32-Varints :
    (vs out : List ℕ) (b : Buf)
    → Varints vs out
    → All IsU32 vs
    → Option.map (λ b'. b'.bytes) (tw_encode_packed_u32 b vs) ≡ some (b.bytes ++ out)
unfolding tw_encode_packed_u32 reserve
tw_encode_packed_u32-Varints vs out b encs h = rw (
    packed_loop-Varints encs (reserve (length vs * 5) b) (omega (arith, Varints-length_u32 encs h)))
