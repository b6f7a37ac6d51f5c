-- ===== src/Binary/Wire/Ensures.antt =====
-- What holds of a result, if there is one: a loop that ran out of its rounds ensures nothing.
use typeway.Base.{
  ℕ, ◌+◌, ◌%◌, ◌^◌, ◌<◌, ◌≤◌, Bool, true, false, List, [], ◌∷◌, ltb, leb, ◌==◌, length,
  if◌then◌else◌, bit_and, arith,
}
use typeway.Binary.Wire.{
  Result, ok, err, panics, out_of_fuel, ◌>>=◌, join, group_loop, decode_varint, decode_wire_value,
}

abbrev pub Ensures {ℓ} : {A : Type ℓ} → Result A → (A → Type 0) → Type 0
Ensures (ok a) P = P a
Ensures (err e) P = Unit
Ensures panics P = Unit
Ensures out_of_fuel P = ⊥

-- A value, an error or a panic.
abbrev pub Finishes {ℓ} : {A : Type ℓ} → Result A → Type 0
Finishes r = Ensures r (λ _. Unit)

pub Ensures-bind {ℓ κ} :
    {A : Type ℓ} {B : Type κ} (r : Result A) (f : A → Result B) (P : A → Type 0) (Q : B → Type 0)
    → Ensures r P
    → ((a : A) → P a → Ensures (f a) Q)
    → Ensures (r >>= f) Q
Ensures-bind (ok a) f P Q h k = k a h
Ensures-bind (err e) f P Q h k = tt
Ensures-bind panics f P Q h k = tt
Ensures-bind out_of_fuel f P Q h k = elim h [ ]

pub Ensures-if {ℓ} :
    {A : Type ℓ} (b : Bool) (x y : Result A) (P : A → Type 0)
    → Ensures x P
    → Ensures y P
    → Ensures (if b then x else y) P
Ensures-if true x y P hx hy = hx
Ensures-if false x y P hx hy = hy

-- The count of bytes that were read.
abbrev pub Reads {ℓ} : {A : Type ℓ} → Result (A × ℕ) → ℕ → Type 0
Reads r i = Ensures r (λ p. i < p.1)

pub group_loop-Reads :
    (bytes : List ℕ) (i result shift : ℕ) → Reads (group_loop bytes i result shift) i
unfolding group_loop
group_loop-Reads [] i result shift = tt
group_loop-Reads (b ∷ rest) i result shift =
    let result' = join result b shift in
    let later = group_loop-Reads rest (i + 1) result' (shift + 7) in
    Ensures-if (leb 70 shift) _ _ _ tt (
      Ensures-if (bit_and b 0x80 == 0) _ _ _ (omega arith)
        (weaken (group_loop rest (i + 1) result' (shift + 7)) (omega arith) later))
  where
    weaken : (r : Result (ℕ × ℕ)) {n m : ℕ} → m ≤ n → Reads r n → Reads r m
    weaken (ok a) h e = omega arith
    weaken (err c) h e = tt
    weaken panics h e = tt
    weaken out_of_fuel h e = elim e [ ]

pub decode_varint-Reads : (bytes : List ℕ) → Reads (decode_varint bytes) 0
unfolding decode_varint
decode_varint-Reads bytes = group_loop-Reads bytes 0 0 0

pub decode_wire_value-Finishes :
    (bytes : List ℕ) (wire_type : ℕ) → Finishes (decode_wire_value bytes wire_type)
unfolding decode_wire_value
decode_wire_value-Finishes bytes w =
    Ensures-if (w == 0) _ _ _
      (Ensures-bind (decode_varint bytes) _ _ _ (decode_varint-Reads bytes) (λ r h. tt))
      (Ensures-if (w == 1) _ _ _ (Ensures-if (ltb (length bytes) 8) _ _ _ tt tt) (
        Ensures-if (w == 2) _ _ _
          (Ensures-bind (decode_varint bytes) _ _ _ (decode_varint-Reads bytes) (λ r h.
            Ensures-if (ltb (length bytes) ((r.1 + r.0) % 2 ^ 64)) _ _ _ tt
              (Ensures-if (ltb ((r.1 + r.0) % 2 ^ 64) r.1) _ _ _ tt tt)))
          (Ensures-if (w == 5) _ _ _ (Ensures-if (ltb (length bytes) 4) _ _ _ tt tt) tt)))
