-- ===== src/Binary/Base64/RoundTrip.antt =====
-- Base64 text that was encoded is decoded to the same bytes.
use typeway.Base.{
  ℕ, ◌+◌, ◌*◌, ◌/◌, ◌%◌, ◌^◌, ◌<◌, ◌≡◌, ◌≢◌, refl, sym, ap, ap₂, ◌∙◌, Bool, true, false, ◌&&◌, List,
  [], ◌∷◌, ◌++◌, none, some, ltb, ◌==◌, if◌then◌else◌, bit_and, bit_or, arith, All, append_assoc,
  append-nil, ne→==,
}
use typeway.Base.Bits.{every, every_sound}
use typeway.Base.Masks.{bit_and_0, bit_and_3, bit_and_15, bit_and_63, bit_or_low}
use typeway.Codec.Varint.{IsByte}
use typeway.Binary.Base64.{char_at, triple, encode, value_of, trim_pad, decode_chars, decode}

-- The two tables, checked at each of the 64 numbers: the character is read back, and is not the pad.
table_test : ℕ → Bool
table_test x = elim (value_of (char_at x)) [ none ↦ false | some v ↦ v == x ] && ltb (char_at x) 128

pad_test : ℕ → Bool
pad_test x = elim (char_at x == b'=') [ true ↦ false | false ↦ true ]

value_table : every table_test 64 ≡ true
unfolding every table_test char_at value_of
value_table = refl

pad_table : every pad_test 64 ≡ true
unfolding every pad_test char_at
pad_table = refl

value_of-char_at : (x : ℕ) → x < 64 → value_of (char_at x) ≡ some x
unfolding table_test
value_of-char_at x h = let t = every_sound table_test 64 x value_table h in ground arith

char_at-ne-pad : (x : ℕ) → x < 64 → char_at x ≢ b'='
unfolding pad_test
char_at-ne-pad x h = let t = every_sound pad_test 64 x pad_table h in ground arith

char_at_mod : (x : ℕ) → char_at x ≡ char_at (x % 64)
unfolding char_at
char_at_mod x =
    let e : bit_and x 63 ≡ bit_and (x % 64) 63 = omega (arith, bit_and_63 x, bit_and_63 (x % 64)) in
    rw (e, char_at) refl

-- One character, in each of the four states of the loop.
module _ (c v : ℕ) (text out : List ℕ) (read : value_of c ≡ some v) (small : v < 64) where
  joined : (u : ℕ) → u < 64 → bit_or (u * 2 ^ 6 % 2 ^ 32) v ≡ u * 64 + v
  joined u h = let e : u * 2 ^ 6 % 2 ^ 32 ≡ u * 2 ^ 6 = omega arith in rw e (bit_or_low 6 u v small)

  at_0 : decode_chars (c ∷ text) 0 0 out ≡ decode_chars text v 6 out
  unfolding decode_chars
  at_0 =
      let zero_left : 0 * 64 + v ≡ v = omega arith in
      rw (read, decode_chars) (rw (joined 0 (omega arith), zero_left) refl)

  at_6 :
      (u : ℕ)
      → u < 64
      → decode_chars (c ∷ text) u 6 out
        ≡ decode_chars text ((u * 64 + v) % 16) 4 (out ++ ((u * 64 + v) / 16) ∷ [])
  unfolding decode_chars
  at_6 u h =
      let byte : (u * 64 + v) / 16 % 256 ≡ (u * 64 + v) / 16 = omega arith in
      rw (read, decode_chars) (rw (joined u h, bit_and_15 (u * 64 + v), byte) refl)

  at_4 :
      (u : ℕ)
      → u < 16
      → decode_chars (c ∷ text) u 4 out
        ≡ decode_chars text ((u * 64 + v) % 4) 2 (out ++ ((u * 64 + v) / 4) ∷ [])
  unfolding decode_chars
  at_4 u h =
      let byte : (u * 64 + v) / 4 % 256 ≡ (u * 64 + v) / 4 = omega arith in
      rw (read, decode_chars) (rw (joined u (omega arith), bit_and_3 (u * 64 + v), byte) refl)

  at_2 :
      (u : ℕ)
      → u < 4
      → decode_chars (c ∷ text) u 2 out ≡ decode_chars text 0 0 (out ++ (u * 64 + v) ∷ [])
  unfolding decode_chars
  at_2 u h =
      let byte : (u * 64 + v) / 1 % 256 ≡ u * 64 + v = omega arith in
      rw (read, decode_chars) (rw (joined u (omega arith), bit_and_0 (u * 64 + v), byte) refl)

triple_lem : (b0 b1 b2 : ℕ) → b1 < 256 → b2 < 256 → triple b0 b1 b2 ≡ b0 * 65536 + b1 * 256 + b2
triple_lem b0 b1 b2 h1 h2 =
    let left : b0 * 2 ^ 16 ≡ b0 * 2 ^ 8 * 2 ^ 8 = omega arith in
    let first : bit_or (b0 * 2 ^ 16) (b1 * 2 ^ 8) ≡ (b0 * 256 + b1) * 2 ^ 8 =
      bit_or_low 16 b0 (b1 * 2 ^ 8) (omega arith) ∙ omega arith in
    rw first (bit_or_low 8 (b0 * 256 + b1) b2 h2 ∙ omega arith)

-- The number that a character of the encoded text stands for.
module _ (x v : ℕ) (e : x % 64 ≡ v) where
  digit_read : value_of (char_at x) ≡ some v
  digit_read = char_at_value
    where
      char_at_value : value_of (char_at x) ≡ some v
      char_at_value =
          ap value_of (char_at_mod x) ∙ value_of-char_at (x % 64) (omega arith) ∙ ap some e

-- The encoded text without its padding.
abbrev plain : List ℕ → List ℕ
plain [] = []
plain (b0 ∷ []) = let t = triple b0 0 0 in char_at (t / 2 ^ 18) ∷ char_at (t / 2 ^ 12) ∷ []
plain (b0 ∷ b1 ∷ []) =
    let t = triple b0 b1 0 in char_at (t / 2 ^ 18) ∷ char_at (t / 2 ^ 12) ∷ char_at (t / 2 ^ 6) ∷ []
plain (b0 ∷ b1 ∷ b2 ∷ rest) =
    let t = triple b0 b1 b2 in
    char_at (t / 2 ^ 18) ∷ char_at (t / 2 ^ 12) ∷ char_at (t / 2 ^ 6) ∷ char_at t ∷ plain rest

trim_pad-cons : (x : ℕ) (text : List ℕ) → trim_pad (char_at x ∷ text) ≡ char_at x ∷ trim_pad text
unfolding trim_pad
trim_pad-cons x text =
    let solid : char_at x ≢ b'=' =
      λ e. char_at-ne-pad (x % 64) (omega arith) (sym (char_at_mod x) ∙ e) in
    by_kept (trim_pad text) solid
  where
    by_kept :
        (kept : List ℕ)
        → char_at x ≢ b'='
        → (elim kept [
          | [] ↦ if char_at x == b'=' then [] else char_at x ∷ []
          | d ∷ more ↦ char_at x ∷ d ∷ more
        ])
          ≡ char_at x ∷ kept
    by_kept [] solid = rw (ne→== (char_at x) b'=' solid) refl
    by_kept (d ∷ more) solid = refl

trim_pad-encode : (bytes : List ℕ) → trim_pad (encode bytes) ≡ plain bytes
unfolding encode
trim_pad-encode [] = unfold trim_pad in refl
trim_pad-encode (b0 ∷ []) =
    let t : ℕ = triple b0 0 0 in
    trim_pad-cons (t / 2 ^ 18) _
    ∙ ap (λ l. char_at (t / 2 ^ 18) ∷ l) (trim_pad-cons (t / 2 ^ 12) _ ∙ unfold trim_pad in refl)
trim_pad-encode (b0 ∷ b1 ∷ []) =
    let t : ℕ = triple b0 b1 0 in
    trim_pad-cons (t / 2 ^ 18) _
    ∙ ap (λ l. char_at (t / 2 ^ 18) ∷ l)
        (trim_pad-cons (t / 2 ^ 12) _
          ∙ ap (λ l. char_at (t / 2 ^ 12) ∷ l)
              (trim_pad-cons (t / 2 ^ 6) _ ∙ unfold trim_pad in refl))
trim_pad-encode (b0 ∷ b1 ∷ b2 ∷ rest) =
    let t : ℕ = triple b0 b1 b2 in
    trim_pad-cons (t / 2 ^ 18) _
    ∙ ap (λ l. char_at (t / 2 ^ 18) ∷ l)
        (trim_pad-cons (t / 2 ^ 12) _
          ∙ ap (λ l. char_at (t / 2 ^ 12) ∷ l)
              (trim_pad-cons (t / 2 ^ 6) _
                ∙ ap (λ l. char_at (t / 2 ^ 6) ∷ l)
                    (trim_pad-cons t _ ∙ ap (λ l. char_at t ∷ l) (trim_pad-encode rest))))

-- The characters of one group, read one after the other.
module _ (b0 b1 b2 : ℕ) (h0 : IsByte b0) (h1 : IsByte b1) (h2 : IsByte b2) where
  t_lem : triple b0 b1 b2 ≡ b0 * 65536 + b1 * 256 + b2
  t_lem = triple_lem b0 b1 b2 h1 h2

  front :
      (text out : List ℕ)
      → decode_chars
          (char_at (triple b0 b1 b2 / 2 ^ 18) ∷ char_at (triple b0 b1 b2 / 2 ^ 12) ∷ text)
          0
          0
          out
        ≡ decode_chars text (b1 / 16) 4 (out ++ b0 ∷ [])
  front text out =
      let v0 : ℕ = b0 / 4 in
      let v1 : ℕ = b0 % 4 * 16 + b1 / 16 in
      let t : ℕ = triple b0 b1 b2 in
      let r0 = digit_read (t / 2 ^ 18) v0 (omega (arith, t_lem)) in
      let r1 = digit_read (t / 2 ^ 12) v1 (omega (arith, t_lem)) in
      at_0 (char_at (t / 2 ^ 18)) v0 (char_at (t / 2 ^ 12) ∷ text) out r0 (omega arith)
      ∙ at_6 (char_at (t / 2 ^ 12)) v1 text out r1 (omega arith) v0 (omega arith)
      ∙ ap₂ (λ (u b : ℕ). decode_chars text u 4 (out ++ b ∷ [])) (omega arith) (omega arith)

  third :
      (text out : List ℕ)
      → decode_chars (char_at (triple b0 b1 b2 / 2 ^ 6) ∷ text) (b1 / 16) 4 out
        ≡ decode_chars text (b2 / 64) 2 (out ++ b1 ∷ [])
  third text out =
      let v2 : ℕ = b1 % 16 * 4 + b2 / 64 in
      let t : ℕ = triple b0 b1 b2 in
      let r2 = digit_read (t / 2 ^ 6) v2 (omega (arith, t_lem)) in
      at_4 (char_at (t / 2 ^ 6)) v2 text out r2 (omega arith) (b1 / 16) (omega arith)
      ∙ ap₂ (λ (u b : ℕ). decode_chars text u 2 (out ++ b ∷ [])) (omega arith) (omega arith)

  fourth :
      (text out : List ℕ)
      → decode_chars (char_at (triple b0 b1 b2) ∷ text) (b2 / 64) 2 out
        ≡ decode_chars text 0 0 (out ++ b2 ∷ [])
  fourth text out =
      let v3 : ℕ = b2 % 64 in
      let t : ℕ = triple b0 b1 b2 in
      let r3 = digit_read t v3 (omega (arith, t_lem)) in
      at_2 (char_at t) v3 text out r3 (omega arith) (b2 / 64) (omega arith)
      ∙ ap (λ (b : ℕ). decode_chars text 0 0 (out ++ b ∷ [])) (omega arith)

decode_chars-plain :
    (bytes out : List ℕ)
    → All IsByte bytes
    → decode_chars (plain bytes) 0 0 out ≡ some (out ++ bytes)
decode_chars-plain [] out h = unfold decode_chars in ap some (sym (append-nil out))
decode_chars-plain (b0 ∷ []) out (h0, _) =
    front b0 0 0 h0 (omega arith) (omega arith) [] out ∙ unfold decode_chars in refl
decode_chars-plain (b0 ∷ b1 ∷ []) out (h0, (h1, _)) =
    front b0 b1 0 h0 h1 (omega arith) (char_at (triple b0 b1 0 / 2 ^ 6) ∷ []) out
    ∙ third b0 b1 0 h0 h1 (omega arith) [] (out ++ b0 ∷ [])
    ∙ unfold decode_chars in ap some (append_assoc out (b0 ∷ []) (b1 ∷ []))
decode_chars-plain (b0 ∷ b1 ∷ b2 ∷ rest) out (h0, (h1, (h2, h))) =
    let t : ℕ = triple b0 b1 b2 in
    let out' : List ℕ = out ++ b0 ∷ [] in
    front b0 b1 b2 h0 h1 h2 (char_at (t / 2 ^ 6) ∷ char_at t ∷ plain rest) out
    ∙ third b0 b1 b2 h0 h1 h2 (char_at t ∷ plain rest) out'
    ∙ fourth b0 b1 b2 h0 h1 h2 (plain rest) (out' ++ b1 ∷ [])
    ∙ decode_chars-plain rest ((out' ++ b1 ∷ []) ++ b2 ∷ []) h
    ∙ rw
        (
          append_assoc (out' ++ b1 ∷ []) (b2 ∷ []) rest,
          append_assoc out' (b1 ∷ []) (b2 ∷ rest),
          append_assoc out (b0 ∷ []) (b1 ∷ b2 ∷ rest),
        )
        refl

-- Base64 text is decoded to the bytes that were encoded, with either amount of padding.
pub decode-encode : (bytes : List ℕ) → All IsByte bytes → decode (encode bytes) ≡ some bytes
unfolding decode
decode-encode bytes h =
    ap (λ t. decode_chars t 0 0 []) (trim_pad-encode bytes) ∙ decode_chars-plain bytes [] h
