-- ===== src/Codec/Encode/Fixed.antt =====
-- `tw_encode_varint_array`, which writes to an array of ten bytes.
use typeway.Base.{
  ℕ, ◌+◌, ◌/◌, ◌%◌, ◌<◌, ◌≤◌, ◌≡◌, refl, ap, ◌∙◌, List, [], ◌∷◌, ◌++◌, some, length, length-append,
  drop, append_assoc, arith, dec_le,
}
use typeway.Base.Order.{lt_wf}
use typeway.Base.Options.{◌>>=◌}
use typeway.Base.Bits.{low_group}
use typeway.Codec.Varint.{IsU64, Varint, last, more, Varint-length_u64}
use typeway.Codec.Encode.{shift_lt, store, array_loop, tw_encode_varint_array}
use native.Mathlib.Bridge.{le_prop}
use mathlib.Core.Logic.{dif_pos, dif_neg}
use mathlib.Core.WellFounded.{Acc}

abbrev pub zeros : List ℕ
zeros = 0 ∷ 0 ∷ 0 ∷ 0 ∷ 0 ∷ 0 ∷ 0 ∷ 0 ∷ 0 ∷ 0 ∷ []

store_at :
    (front : List ℕ) (y : ℕ) (back : List ℕ) (x : ℕ)
    → store (front ++ y ∷ back) (length front) x ≡ some (front ++ x ∷ back)
unfolding store
store_at [] y back x = refl
store_at (z ∷ front) y back x = rw (store_at front y back x)

module _ (v : ℕ) (smaller : (m : ℕ) → m < v → Acc ◌<◌ m) (arr : List ℕ) (i : ℕ) where
  array_loop_last :
      v < 128
      → array_loop v (Acc.intro v smaller) arr i ≡ (store arr i v >>= λ arr'. some (arr', i + 1))
  unfolding array_loop
  array_loop_last h =
      rw (dif_neg (dec_le 128 v) (omega arith))
        (ap (λ x. store arr i x >>= λ arr'. some (arr', i + 1)) (omega arith))

  array_loop_more :
      (h : 128 ≤ v)
      → array_loop v (Acc.intro v smaller) arr i ≡ (
          store arr i (v % 128 + 128) >>= λ arr'.
          array_loop (v / 128) (smaller (v / 128) (shift_lt v h)) arr' (i + 1))
  unfolding array_loop
  array_loop_more h = rw (dif_pos (dec_le 128 v) le_prop h, low_group v)

array_loop-Varint :
    {v : ℕ} {bs : List ℕ}
    → Varint v bs
    → (w : Acc ◌<◌ v) (front back : List ℕ) (i : ℕ) → i ≡ length front
    → length bs ≤ length back
    → array_loop v w (front ++ back) i
      ≡ some (front ++ (bs ++ drop (length bs) back), i + length bs)
array_loop-Varint (last v h) (Acc.intro _ smaller) front [] i e room = absurd (omega arith)
array_loop-Varint (last v h) (Acc.intro _ smaller) front (y ∷ back) i e room =
    rw (array_loop_last v smaller (front ++ y ∷ back) i h) (rw e (rw (store_at front y back v)))
array_loop-Varint (more v bs h enc) (Acc.intro _ smaller) front [] i e room = absurd (omega arith)
array_loop-Varint (more v bs h enc) (Acc.intro _ smaller) front (y ∷ back) i e room =
    let x : ℕ = v % 128 + 128 in
    let stored : store (front ++ y ∷ back) i x ≡ some (front ++ x ∷ back) =
      rw e (store_at front y back x) in
    let ih =
      array_loop-Varint enc (smaller (v / 128) (shift_lt v h)) (front ++ x ∷ []) back (i + 1)
        (omega (arith, length-append front (x ∷ []))) (omega arith) in
    let read =
      rw
        (
          append_assoc front (x ∷ []) back,
          append_assoc front (x ∷ []) (bs ++ drop (length bs) back),
        )
        at ih in
    rw (array_loop_more v smaller (front ++ y ∷ back) i h, stored)
      (read ∙ ap (λ n. some (front ++ x ∷ (bs ++ drop (length bs) back), n)) (omega arith))

-- On every u64 no index leaves the array of ten bytes; it then starts with the encoding, whose length
-- is returned, and is zero behind it.
pub tw_encode_varint_array-Varint :
    (v : ℕ) (bs : List ℕ)
    → Varint v bs
    → IsU64 v
    → tw_encode_varint_array v ≡ some (bs ++ drop (length bs) zeros, length bs)
unfolding tw_encode_varint_array
tw_encode_varint_array-Varint v bs enc h =
    array_loop-Varint enc (lt_wf.apply v) [] zeros 0 refl (Varint-length_u64 enc h)
    ∙ ap (λ n. some (bs ++ drop (length bs) zeros, n)) (omega arith)
