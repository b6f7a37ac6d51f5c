-- ===== src/Router/Pattern/Renders.antt =====
-- The conversion of patterns, on the patterns that typeway writes.
use typeway.Base.{
  ℕ, zero, suc, ◌+◌, ◌<◌, ◌≤◌, ◌≡◌, ◌≢◌, refl, ap, List, [], ◌∷◌, ◌++◌, some, length, length-append,
  All, arith, ne→==, lt→ltb,
}
use typeway.Router.Pattern.{
  find_close, convert_loop, to_matchit_pattern, show, capture, next_counter,
}

-- A segment of a typeway path: a literal, a typed capture `{}`, a catch-all `{*name}`.
pub data Segment : Type 0 where
  lit : List ℕ → Segment
  typed : Segment
  catch_all : List ℕ → Segment

abbrev pub render : List Segment → List ℕ
render [] = []
render (lit s ∷ segs) = b'/' ∷ (s ++ render segs)
render (typed ∷ segs) = b'/' ∷ b'{' ∷ b'}' ∷ render segs
render (catch_all name ∷ segs) = b'/' ∷ b'{' ∷ b'*' ∷ (name ++ b'}' ∷ render segs)

-- The same path with its typed captures named `p0`, `p1`, … from `n` on.
abbrev pub render_named : ℕ → List Segment → List ℕ
render_named n [] = []
render_named n (lit s ∷ segs) = b'/' ∷ (s ++ render_named n segs)
render_named n (typed ∷ segs) =
    b'/' ∷ (((b'{' ∷ b'p' ∷ show n) ++ b'}' ∷ []) ++ render_named (n + 1) segs)
render_named n (catch_all name ∷ segs) =
    b'/' ∷ (((b'{' ∷ b'*' ∷ name) ++ b'}' ∷ []) ++ render_named n segs)

-- ASCII literals without braces, and names without a closing one.
abbrev pub IsPlain : Segment → Type 0
IsPlain (lit s) = All (λ c. (c < 0x80) × (c ≢ b'{')) s
IsPlain typed = Unit
IsPlain (catch_all name) = All (λ c. c ≢ b'}') name

-- What the loop makes of `rest`, with any fuel that is enough.
abbrev Gives : List ℕ → ℕ → List ℕ → Type 0
Gives rest n out = (fuel : ℕ) → length rest < fuel → convert_loop fuel rest n ≡ out

convert_plain :
    (c : ℕ) (rest out : List ℕ) (n : ℕ)
    → c < 0x80
    → c ≢ b'{'
    → Gives rest n out
    → Gives (c ∷ rest) n (c ∷ out)
convert_plain c rest out n small ne next zero h = elim h [ ]
convert_plain c rest out n small ne next (suc fuel) h =
    unfold convert_loop in
    rw (ne→== c b'{' ne, lt→ltb c 0x80 small) (ap (λ t. c ∷ t) (next fuel (omega arith)))

convert_lit :
    (s rest out : List ℕ) (n : ℕ)
    → IsPlain (lit s)
    → Gives rest n out
    → Gives (s ++ rest) n (s ++ out)
convert_lit [] rest out n h next = next
convert_lit (c ∷ s) rest out n ((small, ne), h) next =
    convert_plain c (s ++ rest) (s ++ out) n small ne (convert_lit s rest out n h next)

find_close-append :
    (name rest : List ℕ)
    → All (λ c. c ≢ b'}') name
    → find_close (name ++ b'}' ∷ rest) ≡ some (name, rest)
unfolding find_close
find_close-append [] rest h = refl
find_close-append (c ∷ name) rest (ne, h) = rw (ne→== c b'}' ne, find_close-append name rest h) refl

convert_brace :
    (pat inner tail out : List ℕ) (n : ℕ)
    → find_close pat ≡ some (inner, tail)
    → length tail ≤ length pat
    → Gives tail (next_counter inner n) out
    → Gives (b'{' ∷ pat) n (capture inner n ++ out)
convert_brace pat inner tail out n closed shorter next zero h = elim h [ ]
convert_brace pat inner tail out n closed shorter next (suc fuel) h =
    unfold convert_loop in rw closed (ap (λ t. capture inner n ++ t) (next fuel (omega arith)))

convert_end : (n : ℕ) → Gives [] n []
convert_end n zero h = elim h [ ]
convert_end n (suc fuel) h = unfold convert_loop in refl

convert-render :
    (segs : List Segment) (n : ℕ) → All IsPlain segs → Gives (render segs) n (render_named n segs)
convert-render [] n h = convert_end n
convert-render (lit s ∷ segs) n (p, h) =
    convert_plain b'/' (s ++ render segs) (s ++ render_named n segs) n (omega arith) (omega arith)
      (convert_lit s (render segs) (render_named n segs) n p (convert-render segs n h))
convert-render (typed ∷ segs) n (p, h) =
    let named = render_named (n + 1) segs in
    convert_plain b'/' (b'{' ∷ b'}' ∷ render segs) (capture [] n ++ named) n (omega arith)
      (omega arith)
      (convert_brace (b'}' ∷ render segs) [] (render segs) named n
        (find_close-append [] (render segs) tt) (omega arith) (convert-render segs (n + 1) h))
convert-render (catch_all name ∷ segs) n (p, h) =
    let named = render_named n segs in
    let pat : List ℕ = b'*' ∷ (name ++ b'}' ∷ render segs) in
    convert_plain b'/' (b'{' ∷ pat) (capture (b'*' ∷ name) n ++ named) n (omega arith) (omega arith)
      (convert_brace pat (b'*' ∷ name) (render segs) named n
        (find_close-append (b'*' ∷ name) (render segs) ((omega arith), p))
        (omega (arith, length-append name (b'}' ∷ render segs))) (convert-render segs n h))

-- A pattern of typeway becomes the same pattern with its typed captures numbered from left to right;
-- literals and catch-alls stay.
pub to_matchit_pattern-render :
    (segs : List Segment)
    → All IsPlain segs
    → to_matchit_pattern (render segs) ≡ render_named 0 segs
unfolding to_matchit_pattern
to_matchit_pattern-render segs h =
    convert-render segs 0 h (suc (length (render segs))) (omega arith)
