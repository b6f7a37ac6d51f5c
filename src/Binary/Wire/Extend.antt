-- ===== src/Binary/Wire/Extend.antt =====
-- What was read of a part is read of the whole: bytes behind a value change nothing.
use typeway.Base.{
  ℕ, ◌+◌, ◌%◌, ◌^◌, ◌<◌, ◌≤◌, ◌≡◌, refl, sym, ap, ◌∙◌, inl, inr, false, List, [], ◌∷◌, ◌++◌, ltb,
  leb, ◌==◌, length, take, drop, length-append, take-append_left, drop-append_left, take-append,
  drop-append, append-nil, length-drop, All, if◌then◌else◌, bit_and, arith, Bool-cases, not-ltb,
}
use typeway.Codec.Varint.{IsByte, IsU64, Varint}
use typeway.Codec.Decode as Decode
use typeway.Codec.Decode.{tw_decode_varint}
use typeway.Codec.Decode.RoundTrip.{tw_decode_varint_bounds}
use typeway.Binary.Wire.{
  unexpected_eof, Result, ok, err, panics, out_of_fuel, ◌>>=◌, WireValue, length_delimited, varint,
  fixed64, fixed32, join, group_loop, decode_varint, fixed, delimited, decode_wire_value,
}
use typeway.Binary.Wire.Varints.{lift, decode_varint-tw_decode_varint, decode_varint-Varint}

-- The value that a chain went on with.
pub bind-ok {ℓ κ} :
    {A : Type ℓ} {B : Type κ} (r : Result A) (f : A → Result B) (b : B)
    → (r >>= f) ≡ ok b
    → (a : A) × (r ≡ ok a) × (f a ≡ ok b)
bind-ok (ok a) f b e = (a, refl, e)
bind-ok (err c) f b e = cc
bind-ok panics f b e = cc
bind-ok out_of_fuel f b e = cc

lift-ok : (r : Decode.Result (ℕ × ℕ)) (p : ℕ × ℕ) → lift r ≡ ok p → r ≡ Decode.ok p
lift-ok (Decode.ok a) p e = cc
lift-ok (Decode.err Decode.unexpected_eof) p e = cc
lift-ok (Decode.err Decode.varint_too_long) p e = cc
lift-ok (Decode.err (Decode.unknown_wire_type w)) p e = cc
lift-ok (Decode.err _) p e = cc
lift-ok Decode.out_of_fuel p e = cc

pub decode_varint_bounds :
    (bytes : List ℕ) (v n : ℕ)
    → All IsByte bytes
    → decode_varint bytes ≡ ok (v, n)
    → IsU64 v × (0 < n) × (n ≤ 10) × (n ≤ length bytes)
decode_varint_bounds bytes v n h e =
    tw_decode_varint_bounds bytes v n h
      (lift-ok (tw_decode_varint bytes) (v, n) (sym (decode_varint-tw_decode_varint bytes h) ∙ e))

group_loop-append :
    (bytes rest : List ℕ) (i result shift : ℕ) (p : ℕ × ℕ)
    → group_loop bytes i result shift ≡ ok p
    → group_loop (bytes ++ rest) i result shift ≡ ok p
unfolding group_loop
group_loop-append [] rest i result shift p e = cc
group_loop-append (b ∷ bytes) rest i result shift p e =
    let ih = group_loop-append bytes rest (i + 1) (join result b shift) (shift + 7) p in
    elim (Bool-cases (leb 70 shift)) [
      | inl t ↦ rw t (rw t at e)
      | inr f ↦ elim (Bool-cases (bit_and b 0x80 == 0)) [
        | inl t ↦ rw (f, t) (rw (f, t) at e)
        | inr g ↦ rw (f, g) (ih (rw (f, g) at e))
      ]
    ]

pub decode_varint-append :
    (bytes rest : List ℕ) (p : ℕ × ℕ)
    → decode_varint bytes ≡ ok p
    → decode_varint (bytes ++ rest) ≡ ok p
unfolding decode_varint
decode_varint-append bytes rest p e = group_loop-append bytes rest 0 0 0 p e

fixed_ok :
    (value : List ℕ → WireValue) (n : ℕ) (bytes : List ℕ) (r : WireValue × ℕ)
    → fixed value n bytes ≡ ok r
    → (n ≤ length bytes) × (r ≡ (value (take n bytes), n))
fixed_ok value n bytes r e = ground arith

delimited_ok :
    (bytes : List ℕ) (len hdr : ℕ) (r : WireValue × ℕ)
    → IsU64 len
    → delimited bytes len hdr ≡ ok r
    → hdr ≤ 10
    → (hdr + len ≤ length bytes)
      × ((hdr + len) % 2 ^ 64 ≡ hdr + len)
      × (r ≡ (length_delimited (take len (drop hdr bytes)), hdr + len))
delimited_ok bytes len hdr r hl e hh =
    let total : ℕ = (hdr + len) % 2 ^ 64 in
    let (inside, ordered, same) = in_order total e in
    let whole : (hdr + len) % 2 ^ 64 ≡ hdr + len = omega arith in
    (
      omega arith,
      whole,
      same ∙ ap (λ (n : ℕ). (length_delimited (take len (drop hdr bytes)), n)) whole,
    )
  where
    in_order :
        (total : ℕ)
        → (if ltb (length bytes) total
            then err unexpected_eof
            else if ltb total hdr
            then panics
            else ok (length_delimited (take len (drop hdr bytes)), total))
          ≡ ok r
        → (total ≤ length bytes)
          × (hdr ≤ total)
          × (r ≡ (length_delimited (take len (drop hdr bytes)), total))
    in_order total q = ground arith

fixed-append :
    (value : List ℕ → WireValue) (n : ℕ) (bytes rest : List ℕ) (r : WireValue × ℕ)
    → fixed value n bytes ≡ ok r
    → (fixed value n (bytes ++ rest) ≡ ok r) × (r.1 ≤ length bytes)
fixed-append value n bytes rest r e =
    let (enough, same) = fixed_ok value n bytes r e in
    rw
      (
        same,
        not-ltb (length (bytes ++ rest)) n (omega (arith, length-append bytes rest)),
        take-append_left n bytes rest enough,
      )
      (refl, enough)

delimited-append :
    (bytes rest : List ℕ) (len hdr : ℕ) (r : WireValue × ℕ)
    → IsU64 len
    → hdr ≤ 10
    → delimited bytes len hdr ≡ ok r
    → (delimited (bytes ++ rest) len hdr ≡ ok r) × (r.1 ≤ length bytes)
delimited-append bytes rest len hdr r hl hh e =
    let (inside, whole, same) = delimited_ok bytes len hdr r hl e hh in
    let sizes = length-append bytes rest in
    let cut : take len (drop hdr (bytes ++ rest)) ≡ take len (drop hdr bytes) =
      ap (take len) (drop-append_left hdr bytes rest (omega arith))
      ∙ take-append_left len (drop hdr bytes) rest (omega (arith, length-drop hdr bytes)) in
    rw
      (
        whole,
        not-ltb (length (bytes ++ rest)) (hdr + len) (omega arith),
        not-ltb (hdr + len) hdr (omega arith),
        cut,
        same,
      )
      (refl, inside)

-- A raw value at the front of some bytes is read alike with more bytes behind them, and lies within them.
pub decode_wire_value-append :
    (bytes rest : List ℕ) (wire_type : ℕ) (r : WireValue × ℕ)
    → All IsByte bytes
    → decode_wire_value bytes wire_type ≡ ok r
    → (decode_wire_value (bytes ++ rest) wire_type ≡ ok r) × (r.1 ≤ length bytes)
unfolding decode_wire_value
decode_wire_value-append bytes rest w r hb e = elim (Bool-cases (w == 0)) [
  | inl t ↦
      let (p, read, same) =
        bind-ok (decode_varint bytes) (λ r. ok (varint r.0, r.1)) r (rw t at e) in
      let (_, _, _, short) = decode_varint_bounds bytes p.0 p.1 hb read in
      rw (t, decode_varint-append bytes rest p read)
        (same, let split : r ≡ (varint p.0, p.1) = cc in rw split short)
  | inr f ↦ elim (Bool-cases (w == 1)) [
    | inl t ↦ rw (f, t) (fixed-append fixed64 8 bytes rest r (rw (f, t) at e))
    | inr g ↦ elim (Bool-cases (w == 2)) [
      | inl t ↦
          let (p, read, same) =
            bind-ok (decode_varint bytes) (λ r. delimited bytes r.0 r.1) r (rw (f, g, t) at e) in
          let (wide, _, ten, _) = decode_varint_bounds bytes p.0 p.1 hb read in
          rw (f, g, t, decode_varint-append bytes rest p read)
            (delimited-append bytes rest p.0 p.1 r wide ten same)
      | inr h ↦ elim (Bool-cases (w == 5)) [
        | inl t ↦ rw (f, g, h, t) (fixed-append fixed32 4 bytes rest r (rw (f, g, h, t) at e))
        | inr k ↦ let bad = rw (f, g, h, k) at e in cc
      ]
    ]
  ]
]

pub take_all : (bs : List ℕ) → take (length bs) bs ≡ bs
take_all bs = ap (take (length bs)) (sym (append-nil bs)) ∙ take-append bs []

pub decode_varint_all :
    (v : ℕ) (bs : List ℕ) → Varint v bs → IsU64 v → decode_varint bs ≡ ok (v, length bs)
decode_varint_all v bs enc h =
    ap decode_varint (sym (append-nil bs)) ∙ decode_varint-Varint v bs [] enc h tt

-- A length and as many bytes are read whole.
pub decode_wire_value_delimited :
    (hdr s : List ℕ)
    → Varint (length s) hdr
    → All IsByte s
    → length (hdr ++ s) < 2 ^ 64
    → decode_wire_value (hdr ++ s) 2 ≡ ok (length_delimited s, length (hdr ++ s))
unfolding decode_wire_value
decode_wire_value_delimited hdr s enc hs small =
    let sizes = length-append hdr s in
    let got = decode_varint-Varint (length s) hdr s enc (omega arith) hs in
    let total : (length hdr + length s) % 2 ^ 64 ≡ length hdr + length s = omega arith in
    let behind : ltb (length hdr + length s) (length hdr) ≡ false = not-ltb _ _ (omega arith) in
    let inside : ltb (length hdr + length s) (length hdr + length s) ≡ false =
      not-ltb _ _ (omega arith) in
    rw got (rw (total, sizes, inside, behind, drop-append hdr s, take_all s) refl)
