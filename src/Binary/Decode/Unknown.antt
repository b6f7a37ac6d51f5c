-- ===== src/Binary/Decode/Unknown.antt =====
-- Fields that the definitions do not know, in proto_codec.rs, beside the skipping of codec.rs.
use typeway.Base.{
  ℕ, ◌+◌, ◌-◌, ◌/◌, ◌%◌, ◌^◌, ◌≤◌, ◌≡◌, ◌≢◌, refl, sym, ap, ◌∙◌, inl, inr, true, false, List, ◌++◌,
  none, ltb, ◌==◌, length, length-append, take, drop, drop-append, find, All, All-append,
  if◌then◌else◌, arith, Bool-cases, not-ltb, lt→ltb, ne→==,
}
use typeway.Base.Masks.{bit_and_7}
use typeway.Codec.Varint.{IsByte, IsU64, Varint, Varint-length_pos, Varint-length_u64}
use typeway.Codec.Decode as Decode
use typeway.Codec.Decode.{take_fixed, tw_decode_varint, tw_skip_wire_value}
use typeway.Codec.Decode.Skip.{Field, All-back}
use typeway.Binary.Json.{Json}
use typeway.Binary.Fields.{field_def, FieldDefs, nil, cons}
use typeway.Binary.Wire.{
  unexpected_eof, Result, ok, err, panics, ◌>>=◌, WireValue, fixed, fixed64, fixed32, delimited,
  length_delimited, varint, decode_wire_value,
}
use typeway.Binary.Wire.Varints.{lift, decode_varint-tw_decode_varint, decode_varint-Varint}
use typeway.Binary.Wire.Extend.{
  bind-ok, decode_wire_value-append, take_all, decode_varint_all, decode_wire_value_delimited,
}
use typeway.Binary.RoundTrip.Objects.{Unnumbered}
use typeway.Binary.Decode.Append.{read_from, reader_for, read_from_round, read_from-append}
use typeway.Binary.Decode.{
  reader_of, insert_arrays, FieldReader, Partial, accept, start, read_message, readers_of,
  proto_binary_to_json,
}

take_fixed-fixed :
    (value : List ℕ → WireValue) (bytes : List ℕ) (n : ℕ)
    → lift (take_fixed bytes n) ≡ (fixed value n bytes >>= λ r. ok r.1)
take_fixed-fixed value bytes n = elim (Bool-cases (ltb (length bytes) n)) [
  | inl t ↦ rw t refl
  | inr f ↦ rw f refl
]

take_fixed-delimited :
    (bytes : List ℕ) (len hdr : ℕ)
    → delimited bytes len hdr ≢ panics
    → lift (take_fixed bytes ((hdr + len) % 2 ^ 64)) ≡ (delimited bytes len hdr >>= λ r. ok r.1)
take_fixed-delimited bytes len hdr h = by_tests ((hdr + len) % 2 ^ 64) h
  where
    value : WireValue
    value = length_delimited (take len (drop hdr bytes))

    guarded : ℕ → Result (WireValue × ℕ)
    guarded total =
        if ltb (length bytes) total
        then err unexpected_eof
        else if ltb total hdr
        then panics
        else ok (value, total)

    by_tests :
        (total : ℕ)
        → guarded total ≢ panics
        → lift (take_fixed bytes total) ≡ (guarded total >>= λ r. ok r.1)
    by_tests total k = elim (Bool-cases (ltb (length bytes) total)) [
      | inl t ↦ rw t refl
      | inr f ↦ elim (Bool-cases (ltb total hdr)) [
        | inl t ↦ absurd (k (rw (f, t) refl))
        | inr g ↦ rw (f, g) refl
      ]
    ]

-- The chains behind a varint, in the two decoders.
after_varint :
    (r : Decode.Result (ℕ × ℕ)) (f : ℕ × ℕ → Decode.Result ℕ) (g : ℕ × ℕ → Result (WireValue × ℕ))
    → (lift r >>= g) ≢ panics
    → ((a : ℕ × ℕ) → g a ≢ panics → lift (f a) ≡ (g a >>= λ p. ok p.1))
    → lift (Decode.◌>>=◌ {B = ℕ} r f) ≡ ((lift r >>= g) >>= λ p. ok p.1)
after_varint (Decode.ok a) f g h k = k a h
after_varint (Decode.err Decode.unexpected_eof) f g h k = refl
after_varint (Decode.err Decode.varint_too_long) f g h k = refl
after_varint (Decode.err (Decode.unknown_wire_type w)) f g h k = refl
after_varint (Decode.err _) f g h k = refl
after_varint Decode.out_of_fuel f g h k = refl

-- Where `decode_wire_value` does not panic, it takes as many bytes of any input as the skipping of
-- codec.rs does, or fails with the same error.
pub decode_wire_value-tw_skip_wire_value :
    (bytes : List ℕ) (w : ℕ)
    → All IsByte bytes
    → decode_wire_value bytes w ≢ panics
    → lift (tw_skip_wire_value bytes w) ≡ (decode_wire_value bytes w >>= λ r. ok r.1)
unfolding decode_wire_value tw_skip_wire_value
decode_wire_value-tw_skip_wire_value bytes w hb h =
    let same = decode_varint-tw_decode_varint bytes hb in
    elim (Bool-cases (w == 0)) [
      | inl t ↦
          rw (t, same)
            (after_varint (tw_decode_varint bytes) (λ r. Decode.ok r.1) (λ r. ok (varint r.0, r.1))
              (rw (t, same) at h) (λ a _. refl))
      | inr f ↦ elim (Bool-cases (w == 1)) [
        | inl t ↦ rw (f, t) (take_fixed-fixed fixed64 bytes 8)
        | inr g ↦ elim (Bool-cases (w == 2)) [
          | inl t ↦
              rw (f, g, t, same)
                (after_varint (tw_decode_varint bytes)
                  (λ r. take_fixed bytes ((r.1 + r.0) % 2 ^ 64)) (λ r. delimited bytes r.0 r.1)
                  (rw (f, g, t, same) at h) (λ a k. take_fixed-delimited bytes a.0 a.1 k))
          | inr i ↦ elim (Bool-cases (w == 5)) [
            | inl t ↦ rw (f, g, i, t) (take_fixed-fixed fixed32 bytes 4)
            | inr j ↦ rw (f, g, i, j) refl
          ]
        ]
      ]
    ]

-- A length that, with its own bytes, passes the largest `usize` makes `decode_wire_value` panic,
-- whatever follows: the sum wraps to an end before the start of the slice.
pub decode_wire_value_overflow :
    (hdr rest : List ℕ) (len : ℕ)
    → Varint len hdr
    → IsU64 len
    → All IsByte rest
    → 2 ^ 64 ≤ length hdr + len
    → decode_wire_value (hdr ++ rest) 2 ≡ panics
unfolding decode_wire_value
decode_wire_value_overflow hdr rest len enc small hr wide =
    let got = decode_varint-Varint len hdr rest enc small hr in
    let sizes = length-append hdr rest in
    let ten = Varint-length_u64 enc small in
    let total : (length hdr + len) % 2 ^ 64 ≡ length hdr + len - 2 ^ 64 = omega arith in
    let inside : ltb (length (hdr ++ rest)) (length hdr + len - 2 ^ 64) ≡ false =
      not-ltb _ _ (omega arith) in
    let before : ltb (length hdr + len - 2 ^ 64) (length hdr) ≡ true = lt→ltb _ _ (omega arith) in
    rw got (rw (total, inside, before) refl)

-- Any value of the wire format is read whole.
decode_wire_value-Field :
    (w : ℕ) (bs : List ℕ)
    → Field w bs
    → All IsByte bs
    → (v : WireValue) × (decode_wire_value bs w ≡ ok (v, length bs))
unfolding decode_wire_value
decode_wire_value-Field _ _ (Field.varint w v bs e enc h) hb =
    (varint v, rw (e, decode_varint_all v bs enc h) refl)
decode_wire_value-Field _ _ (Field.fixed64 w bs e len) hb = (
  fixed64 bs,
  rw (e, len)
      (ap (λ (n : ℕ). ok (fixed64 (take n bs), 8)) (sym len)
        ∙ ap (λ l. ok (fixed64 l, 8)) (take_all bs)),
)
decode_wire_value-Field _ _ (Field.delimited w hdr payload bs e enc split small) hb = (
  length_delimited payload,
  rw (e, split)
      (decode_wire_value_delimited hdr payload enc (All-back hdr payload (rw split at hb))
        (rw (ap length split) at small)),
)
decode_wire_value-Field _ _ (Field.fixed32 w bs e len) hb = (
  fixed32 bs,
  rw (e, len)
      (ap (λ (n : ℕ). ok (fixed32 (take n bs), 4)) (sym len)
        ∙ ap (λ l. ok (fixed32 l, 4)) (take_all bs)),
)

module _ (J : Json) where
  Unnumbered-none :
      (tag : ℕ) (fields : FieldDefs)
      → Unnumbered tag fields
      → find (λ f. f.tag == tag) (readers_of J fields) ≡ none
  unfolding readers_of reader_of
  Unnumbered-none tag nil h = refl
  Unnumbered-none tag (cons (field_def name t n repeated is_map k v nested) fields) (h, hs) =
      rw (ne→== n tag (λ e. h (sym e))) (Unnumbered-none tag fields hs)

  module _ (fields : FieldDefs) (key : ℕ) (ts payload rest : List ℕ) (enc : Varint key ts)
      (small : IsU64 key) (field : Field (key % 8) payload) (hp : All IsByte payload)
      (hr : All IsByte rest) (h : Unnumbered (key / 8 % 2 ^ 32) fields) where
    -- Whatever was read so far, the loop passes the field over.
    read_from-unknown :
        (p : Partial J)
        → read_from J (readers_of J fields) (ts ++ (payload ++ rest)) p
          ≡ read_from J (readers_of J fields) rest p
    read_from-unknown p =
        let readers : List (FieldReader J) = readers_of J fields in
        let after : List ℕ = payload ++ rest in
        let (v, read) = decode_wire_value-Field (key % 8) payload field hp in
        let (read', _) =
          decode_wire_value-append payload rest (key % 8) (v, length payload) hp read in
        let got =
          decode_varint-Varint key ts after enc small (All-append IsByte payload rest hp hr) in
        let ignored : accept J (reader_for J readers key) v p ≡ ok p =
          ap (λ o. accept J o v p) (Unnumbered-none (key / 8 % 2 ^ 32) fields h)
          ∙ (unfold accept in refl) in
        let round =
          read_from_round J readers (ts ++ after) p p (key, length ts) (v, length payload) got
            (Varint-length_pos enc) (rw (drop-append ts after, bit_and_7 key) read') ignored in
        round ∙ rw (drop-append ts after, drop-append payload rest) refl

    -- A field whose number no definition has is passed over, whatever its wire type and its value, and
    -- wherever it stands: behind any fields that can be read, the message is read as if it were not
    -- there.
    pub proto_binary_to_json_unknown :
        (before : List ℕ) (json : J.Value)
        → All IsByte before
        → proto_binary_to_json J before fields ≡ ok json
        → proto_binary_to_json J (before ++ (ts ++ (payload ++ rest))) fields
          ≡ proto_binary_to_json J (before ++ rest) fields
    unfolding proto_binary_to_json read_message
    proto_binary_to_json_unknown before json hb readable =
        let readers : List (FieldReader J) = readers_of J fields in
        let (p, e, _) = bind-ok (read_from J readers before (start J)) _ json readable in
        let with_field =
          read_from-append J readers before (ts ++ (payload ++ rest)) (start J) p hb e in
        let without = read_from-append J readers before rest (start J) p hb e in
        ap
          (λ r. r >>= λ (q : Partial J). ok (J.of_object (insert_arrays J q.repeated_fields q.map)))
          (with_field ∙ read_from-unknown p ∙ sym without)
