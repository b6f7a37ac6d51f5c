-- ===== src/Dispatch/Reflection/Escapes.antt =====
-- The file that a client of the reflection service reads.
use typeway.Base.{
  sym, subst, ◌≢◌, ne→==, ℕ_discrete, ℕ, ◌≡◌, refl, ap, inl, inr, Bool, true, false, ◌&&◌, ◌||◌,
  List, [], ◌∷◌, ◌++◌, Option, none, some, ltb, leb, ◌==◌, if◌then◌else◌, Bool-cases, arith,
}
use typeway.Base.Options.{◌>>=◌}
use typeway.Dispatch.Reflection.{escape}

-- A character in front of what a string goes on with.
abbrev pub push_char : ℕ → Option (List ℕ × List ℕ) → Option (List ℕ × List ℕ)
push_char c none = none
push_char c (some r) = some (c ∷ r.0, r.1)

-- The character that a JSON escape of one letter stands for, of those that are written.
abbrev pub escaped_char : ℕ → Option ℕ
escaped_char c = if c == b'n' then some 10 else if (c == 34) || (c == 92) then some c else none

-- A JSON string behind its opening quotation mark, up to the closing one, and what stands behind that; the
-- flag tells that a backslash stands in front. Control characters are not allowed.
unfoldable pub read_string : Bool → List ℕ → Option (List ℕ × List ℕ)
read_string escaped [] = none
read_string true (b ∷ t) = escaped_char b >>= λ x. push_char x (read_string false t)
read_string false (b ∷ t) =
    let plain = push_char b (read_string false t) in
    let behind = read_string true t in
    if b == 34 then some ([], t) else if b == 92 then behind else if ltb b 32 then none else plain

abbrev escape_byte : ℕ → List ℕ
escape_byte b =
    if b == 92
    then 92 ∷ 92 ∷ []
    else if b == 34
    then 92 ∷ 34 ∷ []
    else if b == 10
    then 92 ∷ 110 ∷ []
    else b ∷ []

escape-cons : (b : ℕ) (t : List ℕ) → escape (b ∷ t) ≡ escape_byte b ++ escape t
unfolding escape
escape-cons b t = elim (Bool-cases (b == 92)) [
  | inl e ↦ rw e refl
  | inr e ↦ rw e (elim (Bool-cases (b == 34)) [
    | inl q ↦ rw q refl
    | inr q ↦ rw q (elim (Bool-cases (b == 10)) [ inl r ↦ rw r refl | inr r ↦ rw r refl ])
  ])
]

-- No control characters but line feeds.
abbrev pub is_readable : List ℕ → Bool
is_readable [] = true
is_readable (b ∷ t) = ((b == 10) || leb 32 b) && is_readable t

abbrev Reads : List ℕ → List ℕ → List ℕ → Type 0
Reads rest content written =
    read_string false (written ++ 34 ∷ rest)
    ≡ (if is_readable content then some (content, rest) else none)

push-if :
    (b : ℕ) (r : Bool) (t rest : List ℕ) {o : Option (List ℕ × List ℕ)}
    → o ≡ (if r then some (t, rest) else none)
    → push_char b o ≡ (if r then some (b ∷ t, rest) else none)
push-if b true t rest e = ap (push_char b) e
push-if b false t rest e = ap (push_char b) e

plain-Reads :
    (b : ℕ) (t rest : List ℕ)
    → b ≢ 92
    → b ≢ 34
    → b ≢ 10
    → Reads rest t (escape t)
    → Reads rest (b ∷ t) (escape (b ∷ t))
unfolding read_string escape
plain-Reads b t rest n1 n2 n3 ih =
    rw (escape-cons b t, ne→== b 92 n1, ne→== b 34 n2, ne→== b 10 n3)
      (elim (Bool-cases (ltb b 32)) [
        | inl e ↦ ground arith
        | inr e ↦ ground (arith, push-if b (is_readable t) t rest ih)
      ])

-- The file is written as a JSON string that a client reads back exactly where the file has no control
-- characters but line feeds; any other, such as a tab, makes the answer no JSON.
pub read_string-escape :
    (content rest : List ℕ)
    → read_string false (escape content ++ 34 ∷ rest)
      ≡ (if is_readable content then some (content, rest) else none)
unfolding read_string escape
read_string-escape [] rest = refl
read_string-escape (b ∷ t) rest =
    let ih = read_string-escape t rest in
    elim (ℕ_discrete b 92) [
      | yes e ↦
          subst (λ (c : ℕ). Reads rest (c ∷ t) (escape (c ∷ t))) (sym e)
            (push-if 92 (is_readable t) t rest ih)
      | no n1 ↦ elim (ℕ_discrete b 34) [
        | yes e ↦
            subst (λ (c : ℕ). Reads rest (c ∷ t) (escape (c ∷ t))) (sym e)
              (push-if 34 (is_readable t) t rest ih)
        | no n2 ↦ elim (ℕ_discrete b 10) [
          | yes e ↦
              subst (λ (c : ℕ). Reads rest (c ∷ t) (escape (c ∷ t))) (sym e)
                (push-if 10 (is_readable t) t rest ih)
          | no n3 ↦ plain-Reads b t rest n1 n2 n3 ih
        ]
      ]
    ]
