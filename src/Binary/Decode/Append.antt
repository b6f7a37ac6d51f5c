-- ===== src/Binary/Decode/Append.antt =====
-- Messages one behind the other, in proto_codec.rs: the loop reads on where the first one ended.
use typeway.Base.{
  ℕ, zero, suc, ◌/◌, ◌%◌, ◌^◌, ◌<◌, ◌≤◌, ◌≡◌, refl, ap, ◌∙◌, List, [], ◌∷◌, ◌++◌, Option, ◌==◌,
  length, drop, drop-append_left, find, All, All-drop, bit_and, arith,
}
use typeway.Codec.Varint.{IsByte}
use typeway.Binary.Json.{Json}
use typeway.Binary.Wire.{
  unexpected_eof, group_loop, Result, ok, err, panics, out_of_fuel, ◌>>=◌, decode_varint, WireValue,
  decode_wire_value,
}
use typeway.Binary.Wire.Ensures.{Ensures, decode_varint-Reads}
use typeway.Binary.Wire.Extend.{
  bind-ok, decode_varint_bounds, decode_varint-append, decode_wire_value-append,
}
use typeway.Binary.Decode.{FieldReader, Partial, accept, message_loop}
use typeway.Binary.Decode.Total.{shorter, no_longer}

bind_cong {ℓ κ} :
    {A : Type ℓ} {B : Type κ} (r : Result A) (f g : A → Result B) (P : A → Type 0)
    → Ensures r P
    → ((a : A) → P a → f a ≡ g a)
    → (r >>= f) ≡ (r >>= g)
bind_cong (ok a) f g P h k = k a h
bind_cong (err e) f g P h k = refl
bind_cong panics f g P h k = refl
bind_cong out_of_fuel f g P h k = refl

bind_ext {ℓ κ} :
    {A : Type ℓ} {B : Type κ} (r : Result A) (f g : A → Result B)
    → ((a : A) → f a ≡ g a)
    → (r >>= f) ≡ (r >>= g)
bind_ext (ok a) f g k = k a
bind_ext (err e) f g k = refl
bind_ext panics f g k = refl
bind_ext out_of_fuel f g k = refl

module _ (J : Json) where
  -- Any two amounts of fuel that are enough give the same.
  pub message_loop_fuel :
      (n m : ℕ) (readers : List (FieldReader J)) (bytes : List ℕ) (p : Partial J)
      → length bytes ≤ n
      → length bytes ≤ m
      → message_loop J n readers bytes p ≡ message_loop J m readers bytes p
  unfolding message_loop
  message_loop_fuel n m readers [] p hn hm = refl
  message_loop_fuel zero m readers (b ∷ bytes) p hn hm = absurd (omega arith)
  message_loop_fuel (suc n) zero readers (b ∷ bytes) p hn hm = absurd (omega arith)
  message_loop_fuel (suc n) (suc m) readers (b ∷ bytes) p hn hm =
      bind_cong (decode_varint (b ∷ bytes)) _ _ _ (decode_varint-Reads (b ∷ bytes)) (λ t pos.
        let rest = drop t.1 (b ∷ bytes) in
        bind_ext (decode_wire_value rest (bit_and t.0 0x07)) _ _ (λ w.
          bind_ext (accept J (find (λ f. f.tag == t.0 / 2 ^ 3 % 2 ^ 32) readers) w.0 p) _ _ (λ p'.
            message_loop_fuel n m readers (drop w.1 rest) p'
              (no_longer rest w.1 n (shorter b bytes t.1 n pos hn))
              (no_longer rest w.1 m (shorter b bytes t.1 m pos hm)))))

  -- The loop with enough fuel.
  abbrev pub read_from : List (FieldReader J) → List ℕ → Partial J → Result (Partial J)
  read_from readers bytes p = message_loop J (length bytes) readers bytes p

  -- The definition that a tag names.
  abbrev pub reader_for : List (FieldReader J) → ℕ → Option (FieldReader J)
  reader_for readers tag = find (λ f. f.tag == tag / 2 ^ 3 % 2 ^ 32) readers

  -- A round of the loop, given what it reads.
  pub read_from_round :
      (readers : List (FieldReader J)) (bytes : List ℕ) (p q : Partial J) (t : ℕ × ℕ)
      (w : WireValue × ℕ)
      → decode_varint bytes ≡ ok t
      → 0 < t.1
      → decode_wire_value (drop t.1 bytes) (bit_and t.0 0x07) ≡ ok w
      → accept J (reader_for readers t.0) w.0 p ≡ ok q
      → read_from readers bytes p ≡ read_from readers (drop w.1 (drop t.1 bytes)) q
  unfolding message_loop
  read_from_round readers [] p q t w et pos ew eq = absurd (nothing et)
    where
      nothing : decode_varint [] ≡ ok t → ⊥
      nothing e =
          let e' : ◌≡◌ {A = Result (ℕ × ℕ)} (err unexpected_eof) (ok t) =
            unfold decode_varint in unfold group_loop in e in
          cc
  read_from_round readers (b ∷ bytes) p q t w et pos ew eq =
      let rest : List ℕ = drop t.1 (b ∷ bytes) in
      let short =
        no_longer rest w.1 (length bytes) (shorter b bytes t.1 (length bytes) pos (omega arith)) in
      rw et (
        rw ew (
          rw eq (
            message_loop_fuel (length bytes) (length (drop w.1 rest)) readers (drop w.1 rest) q
              short (omega arith))))

  message_loop-append :
      (fuel : ℕ) (readers : List (FieldReader J)) (bytes rest : List ℕ) (p p' : Partial J)
      → All IsByte bytes
      → length bytes ≤ fuel
      → message_loop J fuel readers bytes p ≡ ok p'
      → read_from readers (bytes ++ rest) p ≡ read_from readers rest p'
  unfolding message_loop
  message_loop-append fuel readers [] rest p p' hb h e =
      ap (λ (q : Partial J). read_from readers rest q) (ok_inj e)
    where
      ok_inj : {a b : Partial J} → ok a ≡ ok b → a ≡ b
      ok_inj q = cc
  message_loop-append zero readers (b ∷ bytes) rest p p' hb h e = absurd (omega arith)
  message_loop-append (suc fuel) readers (b ∷ bytes) rest p p' hb h e =
      let whole : List ℕ = b ∷ bytes in
      let (t, et, e1) = bind-ok (decode_varint whole) _ p' e in
      let (_, pos, _, inside) = decode_varint_bounds whole t.0 t.1 hb et in
      let left : List ℕ = drop t.1 whole in
      let (w, ew, e2) = bind-ok (decode_wire_value left (bit_and t.0 0x07)) _ p' e1 in
      let (ew', inside') =
        decode_wire_value-append left rest (bit_and t.0 0x07) w (All-drop IsByte t.1 whole hb) ew in
      let (q, eq, e3) =
        bind-ok (accept J (find (λ f. f.tag == t.0 / 2 ^ 3 % 2 ^ 32) readers) w.0 p) _ p' e2 in
      let short = no_longer left w.1 fuel (shorter b bytes t.1 fuel pos h) in
      let split : drop t.1 (whole ++ rest) ≡ left ++ rest =
        drop-append_left t.1 whole rest inside in
      let split' : drop w.1 (drop t.1 (whole ++ rest)) ≡ drop w.1 left ++ rest =
        ap (drop w.1) split ∙ drop-append_left w.1 left rest inside' in
      read_from_round readers (whole ++ rest) p q t w (decode_varint-append whole rest t et) pos
        (rw split ew') eq
      ∙ ap (λ (l : List ℕ). read_from readers l q) split'
      ∙ message_loop-append fuel readers (drop w.1 left) rest q p'
          (All-drop IsByte w.1 left (All-drop IsByte t.1 whole hb)) short e3

  -- A message that was read leaves its values behind, and what follows is read as if on its own.
  pub read_from-append :
      (readers : List (FieldReader J)) (bytes rest : List ℕ) (p p' : Partial J)
      → All IsByte bytes
      → read_from readers bytes p ≡ ok p'
      → read_from readers (bytes ++ rest) p ≡ read_from readers rest p'
  read_from-append readers bytes rest p p' hb e =
      message_loop-append (length bytes) readers bytes rest p p' hb (omega arith) e
